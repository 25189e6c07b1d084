-- ===== src/ContinueManager/Counts/Admission.antt =====
-- Whom the limit lets in.
use dmsfwk.Prelude.{ℕ, ◌==◌, ◌≡◌, refl, ◌∙◌, Bool, true, false, some, List, lookup, arith}
use dmsfwk.Continue.{Direction, source, sink, err_ok, Answers}
use dmsfwk.ContinueManager.{
  DschedContinueInfo, System, Manager, key, check_local_limit, check_continuation_limit,
}
use dmsfwk.ContinueManager.Start.{
  peer_device_id, with_source_bundle, started, handle_continue_mission_with_bundle_name,
}
use dmsfwk.ContinueManager.Counts.{Names, IsAsked, plays, number}
use dmsfwk.ContinueManager.Counts.Tables.{Separates}
use dmsfwk.ContinueManager.Counts.Kept.{IsCounted}
use dmsfwk.ContinueManager.Counts.Requests.{start_counted-IsCounted, plays-with_source_bundle}

module _ (system : System) (local : ℕ) (Asked : Names) (apart : Separates system local Asked)
    (known : system.local_device_id ≡ some local) where
  passes :
      (d : Direction) (info : DschedContinueInfo) (m : Manager)
      → IsCounted system local Asked m
      → plays local d info ≡ true
      → number local d m.continues ≡ 0
      → system.has_device_info (peer_device_id d info) ≡ true
      → check_continuation_limit system info.source_device_id info.sink_device_id m ≡ (err_ok, d)
  unfolding check_continuation_limit check_local_limit
  passes sink info m h role free there =
      let none_yet : m.cnt_sink ≡ 0 = h.0.2 ∙ free in rw (known, role, none_yet, there) refl
  passes source info m h role free there =
      let none_yet : m.cnt_source ≡ 0 = h.0.3 ∙ free in
      let no_sink : (info.sink_device_id == local) ≡ false = ground arith in
      let is_source : (info.source_device_id == local) ≡ true = ground arith in
      rw (known, no_sink, is_source, none_yet, there) refl

  -- While this device is known, where the counts are right, among names of which the joined ones tell the
  -- part of this device, and there is no continuation yet in which it has the part that it has in a new one
  -- with such names, to or from a known device, the table has the new one after the request, started, at the
  -- key of its names.
  pub handle_continue_mission_with_bundle_name-started :
      (answers : Answers) (decisions : List (ℕ × Bool)) (d : Direction) (info : DschedContinueInfo)
      (m : Manager)
      → IsCounted system local Asked m
      → IsAsked Asked (with_source_bundle system d info)
      → plays local d info ≡ true
      → number local d m.continues ≡ 0
      → system.has_device_info (peer_device_id d info) ≡ true
      → lookup
          (key system (with_source_bundle system d info))
          (handle_continue_mission_with_bundle_name system answers decisions info m).continues
        ≡ some (started answers d (with_source_bundle system d info))
  unfolding handle_continue_mission_with_bundle_name
  handle_continue_mission_with_bundle_name-started answers decisions d info m h asked role free
        there =
      rw (passes d info m h role free there, handle_continue_mission_with_bundle_name)
        (start_counted-IsCounted system local Asked apart known answers decisions d
          (with_source_bundle system d info) m h asked
          (plays-with_source_bundle system local Asked apart known d info ∙ role) free).1
