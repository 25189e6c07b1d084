-- ===== src/CollabManager/Steps.antt =====
-- All the operations of the manager and of the threads of its collaborations, and what they keep.
use Prim.Native.String.{String}
use dmsfwk.Prelude.{ℕ, ◌≤◌, Bool, Option, arith}
use dmsfwk.DschedCollab.{Code, Answers, post_ability_reject_task}
use dmsfwk.CollabManager.{
  Manager, DschedCollabInfo, MissionAnswers, clean_up_session, handle_get_sink_collab_version,
  collab_mission, notify_start_ability_result, handle_collab_prepare_result,
  notify_sink_reject_reason, notify_session_close,
}
use dmsfwk.CollabManager.Table.{IsSound, clean_up_session-IsSound}
use dmsfwk.CollabManager.Routing.{
  handle_close_sessions, handle_release_ability_link, on_shutdown, on_time_out, Arrived,
  notify_data_recv, run_collab,
}
use dmsfwk.CollabManager.Routing.Sockets.{on_shutdown-IsSound}
use dmsfwk.CollabManager.Routing.Links.{release-IsSound, close-IsSound}
use dmsfwk.CollabManager.Kept.{
  on_collab-IsSound, gets_version-IsSound, missions-IsSound, start_result-IsSound,
  prepare_result-IsSound, closes-IsSound, times_out-IsSound, arrives-IsSound, runs-IsSound,
}

pub data Step : Type 0 where
  gets_version : Answers → DschedCollabInfo → Step
  missions : MissionAnswers → Answers → DschedCollabInfo → Step
  start_result : Answers → ℕ → Code → ℕ → Step
  prepare_result : Answers → ℕ → Code → ℕ → String → Option ℕ → Step
  rejects : Answers → ℕ → String → Step
  closes : Answers → ℕ → Step
  client_died releases : Answers → ℕ → ℕ → Step
  shuts_down : Answers → ℕ → Bool → Step
  times_out : Answers → ℕ → Step
  arrives : Answers → ℕ → Arrived → Step
  runs : Answers → ℕ → ℕ → Step
  cleans : ℕ → Step

unfoldable pub step : Step → Manager → Manager
step (gets_version answers info) m = handle_get_sink_collab_version answers info m
step (missions known answers info) m = (collab_mission known answers info m).0
step (start_result answers token result pid) m =
    (notify_start_ability_result answers token result pid m).0
step (prepare_result answers token result session name client) m =
    handle_collab_prepare_result answers token result session name client m
step (rejects answers token reason) m = (notify_sink_reject_reason answers token reason m).0
step (closes answers token) m = (notify_session_close answers token m).0
step (client_died answers bundle pid) m = record m {
  collabs = (handle_close_sessions answers bundle pid m.collabs).0;
}
step (releases answers bundle pid) m = record m {
  collabs = handle_release_ability_link answers bundle pid m.collabs;
}
step (shuts_down answers socket self) m = on_shutdown answers socket self m
step (times_out answers token) m = on_time_out answers token m
step (arrives answers socket a) m = notify_data_recv answers socket a m
step (runs answers session token) m = run_collab answers session token m
step (cleans token) m = (clean_up_session token m).0

-- The tokens that come from outside are not empty.
abbrev pub IsNamed : Step → Type 0
IsNamed (gets_version answers info) = 1 ≤ info.collab_token
IsNamed (arrives answers socket a) = 1 ≤ a.collab_token
IsNamed x = Unit {0}

-- While the manager runs, every operation of it and of the threads of its collaborations, given tokens that
-- are not empty, keeps the table ordered, with collaborations only that are not yet cleaned up, and with
-- no timer but for a collaboration in the table.
pub step-IsSound : (x : Step) (m : Manager) → IsNamed x → IsSound m → IsSound (step x m)
unfolding step notify_sink_reject_reason
step-IsSound (gets_version answers info) m named h = gets_version-IsSound answers info m named h
step-IsSound (missions known answers info) m named h = missions-IsSound known answers info m h
step-IsSound (start_result answers token result pid) m named h =
    start_result-IsSound answers token result pid m h
step-IsSound (prepare_result answers token result session name client) m named h =
    prepare_result-IsSound answers token result session name client m h
step-IsSound (rejects answers token reason) m named h =
    on_collab-IsSound (post_ability_reject_task answers reason) token m (λ c k. ground arith) h
step-IsSound (closes answers token) m named h = closes-IsSound answers token m h
step-IsSound (client_died answers bundle pid) m named h = close-IsSound answers bundle pid m h
step-IsSound (releases answers bundle pid) m named h = release-IsSound answers bundle pid m h
step-IsSound (shuts_down answers socket self) m named h =
    on_shutdown-IsSound answers socket self m h
step-IsSound (times_out answers token) m named h = times_out-IsSound answers token m h
step-IsSound (arrives answers socket a) m named h = arrives-IsSound answers socket a m named h
step-IsSound (runs answers session token) m named h = runs-IsSound answers session token m h
step-IsSound (cleans token) m named h = clean_up_session-IsSound token m h
