-- ===== src/ContinueManager/Counts/Requests.antt =====
-- What this device starts: it is admitted where there is no continuation of its part, and it is counted.

use dmsfwk.Prelude.{
  ℕ, ◌⊎◌, ◌≡◌, refl, ap, ◌∙◌, inl, inr, Bool, true, false, not, ◌||◌, Option, none, some, List,
  ◌==◌, lookup, insert, Bool-cases, if_cases, if◌then◌else◌, arith, lookup-insert_self,
}
use dmsfwk.Continue.{err_ok, Direction, source, sink, Answers}
use dmsfwk.ContinueManager.{
  DschedContinueInfo, System, Manager, mission_task, bundle_task, key, at_least_one,
  check_local_limit, check_continuation_limit,
}
use dmsfwk.ContinueManager.Start.{
  wait_all_connect_decision, count, with_source_bundle, started, enter, start_counted,
  handle_continue_mission_with_bundle_name, handle_continue_mission, handle_continue_mission_info,
  with_mission_bundle, mission_info, bundle_info,
}
use dmsfwk.ContinueManager.Counts.{Names, IsAsked, plays, number}
use dmsfwk.ContinueManager.Counts.Tables.{Separates, enters_as_sink, enters_as_source}
use dmsfwk.ContinueManager.Counts.Kept.{IsQuiet, IsCounted}
use dmsfwk.ContinueManager.Counts.Waiting.{SameTable, wait_all_connect_decision-SameTable}

module _ (system : System) (local : ℕ) (Asked : Names) (apart : Separates system local Asked)
    (known : system.local_device_id ≡ some local) where
  -- The limit lets pass what has a part here that no continuation has yet.
  pub check_continuation_limit-cases :
      (info : DschedContinueInfo) (m : Manager)
      → ((check_continuation_limit system info.source_device_id info.sink_device_id m
            ≡ (err_ok, sink))
          × (plays local sink info ≡ true)
          × (at_least_one m.cnt_sink ≡ false))
        ⊎ ((check_continuation_limit system info.source_device_id info.sink_device_id m
              ≡ (err_ok, source))
            × (plays local source info ≡ true)
            × (at_least_one m.cnt_source ≡ false))
        ⊎ ((answers : Answers) (decisions : List (ℕ × Bool))
            → handle_continue_mission_with_bundle_name system answers decisions info m ≡ m)
  unfolding check_continuation_limit check_local_limit handle_continue_mission_with_bundle_name
  check_continuation_limit-cases info m = elim (Bool-cases (info.sink_device_id == local)) [
    | inl is_sink ↦ elim (Bool-cases (at_least_one m.cnt_sink)) [
      | inl full ↦ inr (inr (λ answers decisions. rw (known, is_sink, full) refl))
      | inr free ↦ elim (Bool-cases (system.has_device_info info.source_device_id)) [
        | inl there ↦ inl (rw (known, is_sink, free, there) refl, is_sink, free)
        | inr nobody ↦ inr (inr (λ answers decisions. rw (known, is_sink, free, nobody) refl))
      ]
    ]
    | inr no_sink ↦ elim (Bool-cases (info.source_device_id == local)) [
      | inl is_source ↦ elim (Bool-cases (at_least_one m.cnt_source)) [
        | inl full ↦ inr (inr (λ answers decisions. rw (known, no_sink, is_source, full) refl))
        | inr free ↦ elim (Bool-cases (system.has_device_info info.sink_device_id)) [
          | inl there ↦ inr (
              inl (
                rw (known, no_sink, is_source, free, there) refl,
                rw (no_sink, is_source) refl,
                free,
              ))
          | inr nobody ↦
              inr (inr (λ answers decisions. rw (known, no_sink, is_source, free, nobody) refl))
        ]
      ]
      | inr no_source ↦ inr (inr (λ answers decisions. rw (known, no_sink, no_source) refl))
    ]
  ]

  SameTable-IsCounted :
      (m m' : Manager)
      → SameTable system local Asked m m'
      → IsCounted system local Asked m
      → IsCounted system local Asked m'
  SameTable-IsCounted m m' same h = (rw (same.0, same.1, same.2) h.0, same.3 h.1)

  enter-IsCounted :
      (answers : Answers) (d : Direction) (info : DschedContinueInfo) (m : Manager)
      → IsCounted system local Asked m
      → IsAsked Asked info
      → plays local d info ≡ true
      → number local d m.continues ≡ 0
      → (lookup (key system info) m.continues ≡ none)
        × IsCounted system local Asked (enter system answers d info (count d m))
  unfolding enter
  enter-IsCounted answers sink info m h asked role free =
      let entered =
        enters_as_sink system local Asked apart (started answers sink info) m.continues m.cnt_sink
          m.cnt_source asked h.0 (h.0.2 ∙ free) role in
      (entered.0, (entered.1, h.1))
  enter-IsCounted answers source info m h asked role free =
      let entered =
        enters_as_source system local Asked apart (started answers source info) m.continues
          m.cnt_sink m.cnt_source asked h.0 (h.0.3 ∙ free) role in
      (entered.0, (entered.1, h.1))

  count-continues : (d : Direction) (m : Manager) → (count d m).continues ≡ m.continues
  count-continues sink m = refl
  count-continues source m = refl

  pub start_counted-IsCounted :
      (answers : Answers) (decisions : List (ℕ × Bool)) (d : Direction) (info : DschedContinueInfo)
      (m : Manager)
      → IsCounted system local Asked m
      → IsAsked Asked info
      → plays local d info ≡ true
      → number local d m.continues ≡ 0
      → IsCounted system local Asked (start_counted system answers decisions d info (count d m))
        × (lookup
              (key system info)
              (start_counted system answers decisions d info (count d m)).continues
            ≡ some (started answers d info))
  unfolding start_counted enter insert
  start_counted-IsCounted answers decisions d info m h asked role free =
      let entered = enter system answers d info (count d m) in
      let (absent, counted) = enter-IsCounted answers d info m h asked role free in
      let absent' : lookup (key system info) (count d m).continues ≡ none =
        ap (lookup (key system info)) (count-continues d m) ∙ absent in
      let same = wait_all_connect_decision-SameTable system local Asked decisions d info entered in
      let waited = wait_all_connect_decision system decisions d info entered in
      let there : lookup (key system info) entered.continues ≡ some (started answers d info) =
        lookup-insert_self (key system info) (started answers d info) (count d m).continues in
      rw (absent', start_counted)
        (
          SameTable-IsCounted entered waited same counted,
          ap (lookup (key system info)) same.0 ∙ there,
        )

  pub plays-with_source_bundle :
      (d : Direction) (info : DschedContinueInfo)
      → plays local d (with_source_bundle system d info) ≡ plays local d info
  unfolding with_source_bundle
  plays-with_source_bundle source info = refl
  plays-with_source_bundle sink info = ground arith

  free_sink :
      (m : Manager)
      → IsCounted system local Asked m
      → at_least_one m.cnt_sink ≡ false
      → number local sink m.continues ≡ 0
  free_sink m h free = let few = h.0.4 in let same = h.0.2 in ground arith

  free_source :
      (m : Manager)
      → IsCounted system local Asked m
      → at_least_one m.cnt_source ≡ false
      → number local source m.continues ≡ 0
  free_source m h free = let few = h.0.5 in let same = h.0.3 in ground arith

  pub handle_continue_mission_with_bundle_name-IsCounted :
      (answers : Answers) (decisions : List (ℕ × Bool)) (info : DschedContinueInfo) (m : Manager)
      → ((d : Direction) → IsAsked Asked (with_source_bundle system d info))
      → IsCounted system local Asked m
      → IsCounted system local Asked
          (handle_continue_mission_with_bundle_name system answers decisions info m)
  unfolding handle_continue_mission_with_bundle_name
  handle_continue_mission_with_bundle_name-IsCounted answers decisions info m asked h =
      elim (check_continuation_limit-cases info m) [
        | inl (passed, role, free) ↦
            rw (passed, handle_continue_mission_with_bundle_name)
              (start_counted-IsCounted answers decisions sink (with_source_bundle system sink info)
                m h (asked sink) (plays-with_source_bundle sink info ∙ role) (free_sink m h free)).0
        | inr (inl (passed, role, free)) ↦
            rw (passed, handle_continue_mission_with_bundle_name)
              (start_counted-IsCounted answers decisions source
                (with_source_bundle system source info) m h (asked source)
                (plays-with_source_bundle source info ∙ role) (free_source m h free)).0
        | inr (inr refused) ↦ rw (refused answers decisions) h
      ]

  mission_known :
      (answers : Answers) (decisions : List (ℕ × Bool)) (src dst mission : ℕ) (has_callback : Bool)
      (m : Manager)
      → handle_continue_mission system answers decisions src dst mission has_callback m ≡ (
          if src == 0 || dst == 0 || not has_callback
          then m
          else handle_continue_mission_with_bundle_name system answers decisions
              (with_mission_bundle system local (mission_info src dst mission))
              m)
  unfolding handle_continue_mission
  mission_known answers decisions src dst mission has_callback m =
      ap
        (λ (o : Option ℕ). if src == 0 || dst == 0 || not has_callback then m else elim o [
          | none ↦ m
          | some l ↦
              handle_continue_mission_with_bundle_name system answers decisions
                (with_mission_bundle system l (mission_info src dst mission)) m
        ])
        known

  pub handle_continue_mission-IsCounted :
      (answers : Answers) (decisions : List (ℕ × Bool)) (src dst mission : ℕ) (has_callback : Bool)
      (m : Manager)
      → IsQuiet system local Asked (mission_task src dst mission has_callback)
      → IsCounted system local Asked m
      → IsCounted system local Asked
          (handle_continue_mission system answers decisions src dst mission has_callback m)
  handle_continue_mission-IsCounted answers decisions src dst mission has_callback m asked h =
      rw (mission_known answers decisions src dst mission has_callback m) (
        if_cases (λ m'. IsCounted system local Asked m') (src == 0 || dst == 0 || not has_callback)
          _ _ (λ bad. h)
          (λ good.
            handle_continue_mission_with_bundle_name-IsCounted answers decisions
              (with_mission_bundle system local (mission_info src dst mission)) m asked h))

  pub handle_continue_mission_info-IsCounted :
      (answers : Answers) (decisions : List (ℕ × Bool)) (info : DschedContinueInfo)
      (has_callback : Bool) (m : Manager)
      → IsQuiet system local Asked (bundle_task info has_callback)
      → IsCounted system local Asked m
      → IsCounted system local Asked
          (handle_continue_mission_info system answers decisions info has_callback m)
  unfolding handle_continue_mission_info
  handle_continue_mission_info-IsCounted answers decisions info has_callback m asked h =
      if_cases (λ m'. IsCounted system local Asked m')
        (info.source_device_id == 0 || info.sink_device_id == 0 || not has_callback) _ _ (λ bad. h)
        (λ good.
          handle_continue_mission_with_bundle_name-IsCounted answers decisions (bundle_info info) m
            asked h)
