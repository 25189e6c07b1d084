-- ===== src/ContinueManager/Threads.antt =====
-- The thread of the manager, which takes its tasks and timers, and the threads of its continuations.
use dmsfwk.Prelude.{ℕ, Bool, true, false, Option, none, some, List, [], ◌∷◌, lookup, if◌then◌else◌}
use dmsfwk.Continue.{Code, Continue, Effect, connect_device, start_ability, continue_end, Answers}
use dmsfwk.Continue.States.{run_next}
use dmsfwk.ContinueManager.{
  DschedContinueInfo, Entry, Arrived, System, Manager, Task, mission_task, bundle_task, start_task,
  complete_task, end_task, time_out_task, data_task, shutdown_task, init, un_init,
  notify_all_connect_decision,
}
use dmsfwk.ContinueManager.Start.{
  continue_mission, continue_mission_info, handle_continue_mission, handle_continue_mission_info,
}
use dmsfwk.ContinueManager.Routing.{
  store, on_time_out, start_continuation, handle_start_continuation, notify_complete_continuation,
  handle_notify_complete_continuation, notify_terminate_continuation, on_continue_end,
  handle_continue_end, on_data_recv_task, notify_continue_data_recv, end_session, on_shutdown,
}

unfoldable pub run_task : System → Answers → List (ℕ × Bool) → Task → Manager → Manager
run_task system answers decisions (mission_task src dst mission has_callback) m =
    handle_continue_mission system answers decisions src dst mission has_callback m
run_task system answers decisions (bundle_task info has_callback) m =
    handle_continue_mission_info system answers decisions info has_callback m
run_task system answers decisions (start_task dst bundle status) m =
    handle_start_continuation system answers dst bundle status m
run_task system answers decisions (complete_task device mission is_success caller) m =
    handle_notify_complete_continuation answers device mission is_success caller m
run_task system answers decisions (end_task info) m = handle_continue_end system info m
run_task system answers decisions (time_out_task info) m = on_time_out system answers info m
run_task system answers decisions (data_task session none) m = m
run_task system answers decisions (data_task session (some a)) m =
    notify_continue_data_recv system answers session a m
run_task system answers decisions (shutdown_task socket) m = record m {
  continues = end_session answers socket m.continues;
}

abbrev pub take_task : List Task → System → Answers → List (ℕ × Bool) → Manager → Manager
take_task [] system answers decisions m = m
take_task (t ∷ ts) system answers decisions m =
    run_task system answers decisions t (record m { tasks = ts })

-- The thread takes the first task.
unfoldable pub run_first : System → Answers → List (ℕ × Bool) → Manager → Manager
run_first system answers decisions m = take_task m.tasks system answers decisions m

abbrev pub take_timer : List (ℕ × DschedContinueInfo) → System → Answers → Manager → Manager
take_timer [] system answers m = m
take_timer ((name, info) ∷ ts) system answers m =
    on_time_out system answers info (record m { timers = ts })

-- The timers run all for the same time, so that the first one goes off first.
unfoldable pub fire_first : System → Answers → Manager → Manager
fire_first system answers m = take_timer m.timers system answers m

unfoldable pub any_effect : (Effect → Bool) → List Effect → Bool
any_effect test [] = false
any_effect test (e ∷ effects) = let rest = any_effect test effects in if test e then true else rest

abbrev pub is_connect : Effect → Bool
is_connect connect_device = true
is_connect e = false

abbrev pub is_start : Effect → Bool
is_start start_ability = true
is_start e = false

abbrev pub is_end : Effect → Bool
is_end continue_end = true
is_end e = false

-- A continuation after an event: it may have a session or the ability that it started.
abbrev pub with_effects : ℕ → ℕ → Entry → Continue × List Effect → Entry
with_effects session ability e (c, effects) = record e {
  continuation = c;
  continue_info = record e.continue_info {
    sink_ability_name =
        if any_effect is_start effects then ability else e.continue_info.sink_ability_name;
  };
  softbus_session_id = if any_effect is_connect effects then session else e.softbus_session_id;
}

-- The thread of the continuation of a key takes its next event.
unfoldable pub run_continue : Answers → ℕ → ℕ → ℕ → Manager → Manager
run_continue answers session ability k m = elim (lookup k m.continues) [
  | none ↦ m
  | some e ↦
      let e' = with_effects session ability e (run_next answers e.continuation) in
      let m' = store k e' m in
      if any_effect is_end (run_next answers e.continuation).1
      then (on_continue_end e'.continue_info m').0
      else m'
]

-- What the other parts ask, and the steps of the threads, with what they are answered.
pub data Step : Type 0 where
  inits un_inits : Step
  missions : ℕ → ℕ → ℕ → Bool → Step
  mission_infos : DschedContinueInfo → Bool → Step
  starts : ℕ → ℕ → Code → Step
  completes : ℕ → ℕ → Bool → ℕ → Step
  terminates : Answers → ℕ → Step
  arrives : ℕ → Option Arrived → Step
  shuts_down : ℕ → Bool → Step
  decides : ℕ → Bool → Step
  runs_task : Answers → List (ℕ × Bool) → Step
  fires : Answers → Step
  runs : Answers → ℕ → ℕ → ℕ → Step

unfoldable pub step : System → Step → Manager → Manager
step system inits m = init m
step system un_inits m = un_init m
step system (missions src dst mission has_callback) m =
    (continue_mission system src dst mission has_callback m).0
step system (mission_infos info has_callback) m =
    (continue_mission_info system info has_callback m).0
step system (starts dst bundle status) m = (start_continuation system dst bundle status m).0
step system (completes device mission is_success caller) m =
    (notify_complete_continuation device mission is_success caller m).0
step system (terminates answers mission) m = notify_terminate_continuation system answers mission m
step system (arrives session a) m = on_data_recv_task session a m
step system (shuts_down socket is_self_called) m = on_shutdown socket is_self_called m
step system (decides peer is_support) m = notify_all_connect_decision peer is_support m
step system (runs_task answers decisions) m = run_first system answers decisions m
step system (fires answers) m = fire_first system answers m
step system (runs answers session ability k) m = run_continue answers session ability k m

unfoldable pub run : System → List Step → Manager → Manager
run system [] m = m
run system (x ∷ xs) m = run system xs (step system x m)
