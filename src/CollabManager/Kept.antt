-- ===== src/CollabManager/Kept.antt =====
-- Each operation of the manager keeps the table and its timers sound.
use Prim.Native.String.{String}
use dmsfwk.Prelude.{
  ℕ, ◌≤◌, ◌≡◌, inl, inr, true, Option, some, List, [], ◌∷◌, lookup, insert, Option-cases,
  if◌then◌else◌, arith,
}
use dmsfwk.DschedCollab.{
  update_state, post_src_start_task, source_start_state, Code, err_ok, Collab, Answers,
  post_err_end_task, post_end_task, post_sink_prepare_result_task, collab_ability_timeout_err,
}
use dmsfwk.DschedCollab.Steps.{on_data_recv}
use dmsfwk.DschedCollab.States.{run_next}
use dmsfwk.CollabManager.{
  set_src_collab_info, Entry, Manager, DschedCollabInfo, MissionAnswers, with_collab,
  get_dsched_collab_by_token_id, store, on_collab, handle_get_sink_collab_version, collab_mission,
  notify_start_ability_result, handle_collab_prepare_result, notify_session_close,
}
use dmsfwk.CollabManager.Table.{
  AreIn, IsSound, found-AllKnown, found_key, insert-IsSound, remove_timeout-IsSound,
  set_time_out-IsSound, store-IsSound, emplace-IsSound, emplace_there,
}
use dmsfwk.CollabManager.Routing.{
  drop_first, on_time_out, Arrived, informed, find_collab, new_collab, notify_data_recv,
  has_connected, run_collab,
}

pub on_collab-IsSound :
    (f : Collab → Collab × Code) (token : ℕ) (m : Manager)
    → ((c : Collab) → c.is_known ≡ true → (f c).0.is_known ≡ true)
    → IsSound m
    → IsSound (on_collab f token m).0
unfolding get_dsched_collab_by_token_id
on_collab-IsSound f token m keeps h = elim (Option-cases (lookup token m.collabs)) [
  | inl absent ↦ ground (arith, absent)
  | inr (e, there) ↦
      let kept =
        insert-IsSound token (with_collab e (f e.collab).0) m
          (found_key 1 token e m.collabs h.1 there)
          (keeps e.collab (found-AllKnown token e m.collabs h.2 there)) h in
      ground (arith, there)
]

pub gets_version-IsSound :
    (answers : Answers) (info : DschedCollabInfo) (m : Manager)
    → 1 ≤ info.collab_token
    → IsSound m
    → IsSound (handle_get_sink_collab_version answers info m)
unfolding handle_get_sink_collab_version
gets_version-IsSound answers info m low h =
    set_time_out-IsSound info.collab_token _ (emplace_there info.collab_token _ m.collabs)
      (emplace-IsSound info.collab_token _ m low (ground arith) h)

-- Another entry for a token that has one.
pub replaced-IsSound :
    (token : ℕ) (e e' : Entry) (m : Manager)
    → lookup token m.collabs ≡ some e
    → (e.collab.is_known ≡ true → e'.collab.is_known ≡ true)
    → IsSound m
    → IsSound (record m { collabs = insert token e' m.collabs })
replaced-IsSound token e e' m there keeps h =
    insert-IsSound token e' m (found_key 1 token e m.collabs h.1 there)
      (keeps (found-AllKnown token e m.collabs h.2 there)) h

pub missions-IsSound :
    (known : MissionAnswers) (answers : Answers) (info : DschedCollabInfo) (m : Manager)
    → IsSound m
    → IsSound (collab_mission known answers info m).0
unfolding collab_mission get_dsched_collab_by_token_id
missions-IsSound known answers info m h = elim (Option-cases (lookup info.collab_token m.collabs)) [
  | inl absent ↦ ground (arith, absent)
  | inr (e, there) ↦
      let told : Entry = record e {
        collab =
            (post_src_start_task answers
              (update_state source_start_state (set_src_collab_info info e.collab))).0;
        src_bundle_name = info.info_bundle_name;
        src_pid = info.info_pid;
        sink_pid = info.info_sink_pid;
      } in
      let kept = replaced-IsSound info.collab_token e told m there (λ k. ground arith) h in
      ground (arith, there)
]

pub start_result-IsSound :
    (answers : Answers) (token : ℕ) (result : Code) (pid : ℕ) (m : Manager)
    → IsSound m
    → IsSound (notify_start_ability_result answers token result pid m).0
unfolding notify_start_ability_result get_dsched_collab_by_token_id
start_result-IsSound answers token err_ok pid m h = elim (Option-cases (lookup token m.collabs)) [
  | inl absent ↦ ground (arith, absent)
  | inr (e, there) ↦
      let kept = replaced-IsSound token e (record e { sink_pid = pid }) m there (λ k. k) h in
      ground (arith, there)
]
start_result-IsSound answers token failed pid m h =
    on_collab-IsSound (post_err_end_task answers failed) token m (λ c k. ground arith) h

pub prepare_result-IsSound :
    (answers : Answers) (token : ℕ) (result : Code) (session : ℕ) (name : String)
    (client : Option ℕ) (m : Manager)
    → IsSound m
    → IsSound (handle_collab_prepare_result answers token result session name client m)
unfolding handle_collab_prepare_result
prepare_result-IsSound answers token result session name client m h =
    let f = post_sink_prepare_result_task answers result session name client in
    let posted = on_collab-IsSound f token m (λ c k. ground arith) h in
    let removed = remove_timeout-IsSound token ((on_collab f token m).0) posted in ground arith

pub closes-IsSound :
    (answers : Answers) (token : ℕ) (m : Manager)
    → IsSound m
    → IsSound (notify_session_close answers token m).0
unfolding notify_session_close
closes-IsSound answers token m h =
    let posted = on_collab-IsSound (post_end_task answers) token m (λ c k. ground arith) h in
    ground arith

drop_first-AreIn :
    (token : ℕ) (collabs : List (ℕ × Entry)) (ts : List ℕ)
    → AreIn collabs ts
    → AreIn collabs (drop_first token ts)
drop_first-AreIn token collabs [] h = tt
drop_first-AreIn token collabs (t ∷ ts) h = ground (arith, drop_first-AreIn token collabs ts h.1)

pub times_out-IsSound :
    (answers : Answers) (token : ℕ) (m : Manager)
    → IsSound m
    → IsSound (on_time_out answers token m)
unfolding on_time_out
times_out-IsSound answers token m h =
    let dropped : Manager = record m { timeouts = drop_first token m.timeouts } in
    let sound : IsSound dropped =
      (h.0, h.1, h.2, drop_first-AreIn token m.collabs m.timeouts h.3) in
    elim (Option-cases (lookup token m.collabs)) [
      | inl absent ↦ ground (arith, absent, sound)
      | inr (e, there) ↦
          let e' =
            with_collab e (post_err_end_task answers collab_ability_timeout_err e.collab).0 in
          let kept = replaced-IsSound token e e' dropped there (λ k. ground arith) sound in
          ground (arith, there, kept)
    ]

pub new_collab-IsSound :
    (answers : Answers) (socket : ℕ) (a : Arrived) (m : Manager)
    → 1 ≤ a.collab_token
    → IsSound m
    → IsSound (new_collab answers socket a m)
new_collab-IsSound answers socket a m low h =
    set_time_out-IsSound a.collab_token _ (emplace_there a.collab_token _ m.collabs)
      (emplace-IsSound a.collab_token _ m low (ground arith) h)

pub arrives-IsSound :
    (answers : Answers) (socket : ℕ) (a : Arrived) (m : Manager)
    → 1 ≤ a.collab_token
    → IsSound m
    → IsSound (notify_data_recv answers socket a m)
unfolding notify_data_recv
arrives-IsSound answers socket a m low h =
    elim (Option-cases (find_collab socket a.collab_token m.collabs)) [
      | inl absent ↦
          let added = new_collab-IsSound answers socket a m low h in ground (arith, absent)
      | inr (e, there) ↦
          let e' = with_collab (informed a e) (on_data_recv answers a.received e.collab).0 in
          let stored = store-IsSound a.collab_token e' m low h in
          let removed = remove_timeout-IsSound a.collab_token (store a.collab_token e' m) stored in
          ground (arith, there, stored, removed)
    ]

pub runs-IsSound :
    (answers : Answers) (session token : ℕ) (m : Manager)
    → IsSound m
    → IsSound (run_collab answers session token m)
unfolding run_collab
runs-IsSound answers session token m h = elim (Option-cases (lookup token m.collabs)) [
  | inl absent ↦ ground (arith, absent)
  | inr (e, there) ↦
      let e' : Entry = record e {
        collab = (run_next answers e.collab).0;
        softbus_session_id =
            if has_connected (run_next answers e.collab).1 then session else e.softbus_session_id;
      } in
      let stored = store-IsSound token e' m (found_key 1 token e m.collabs h.1 there) h in
      ground (arith, there, stored)
]
