-- ===== src/ContinueManager/Counts/Runs.antt =====
-- Runs of the manager in which no other device starts a continuation.
use dmsfwk.Prelude.{ℕ, ◌≡◌, refl, Bool, none, some, List, [], ◌∷◌, if_cases, arith}
use dmsfwk.Continue.{Code, err_ok, Answers}
use dmsfwk.ContinueManager.{
  DschedContinueInfo, System, Manager, Task, mission_task, bundle_task, start_task, complete_task,
  end_task, time_out_task, data_task, shutdown_task, init, un_init, post_checked,
}
use dmsfwk.ContinueManager.Start.{
  check_request, check_request_info, continue_mission, continue_mission_info,
}
use dmsfwk.ContinueManager.Routing.{start_continuation, check_start, on_shutdown}
use dmsfwk.ContinueManager.Threads.{
  run_task, take_task, run_first, take_timer, fire_first, Step, inits, un_inits, missions,
  mission_infos, starts, completes, terminates, arrives, shuts_down, decides, runs_task, fires,
  runs, step, run,
}
use dmsfwk.ContinueManager.Counts.{Names, number}
use dmsfwk.ContinueManager.Counts.Tables.{Separates}
use dmsfwk.ContinueManager.Counts.Kept.{
  IsQuiet, AreQuiet, IsCounted, post_task-IsCounted, on_time_out-IsCounted,
  handle_start_continuation-IsCounted, handle_notify_complete_continuation-IsCounted,
  notify_terminate_continuation-IsCounted, handle_continue_end-IsCounted,
}
use dmsfwk.ContinueManager.Counts.Threads.{
  end_session-IsCounted, notify_continue_data_recv-IsCounted, run_continue-IsCounted,
}
use dmsfwk.ContinueManager.Counts.Requests.{
  handle_continue_mission-IsCounted, handle_continue_mission_info-IsCounted,
}

-- A step that does not bring the start of a continuation from another device, nor a request with other names.
abbrev pub BringsNone : System → ℕ → Names → Step → Type 0
BringsNone system local Asked (arrives session a) = IsQuiet system local Asked (data_task session a)
BringsNone system local Asked (missions src dst mission has_callback) =
    IsQuiet system local Asked (mission_task src dst mission has_callback)
BringsNone system local Asked (mission_infos info has_callback) =
    IsQuiet system local Asked (bundle_task info has_callback)
BringsNone system local Asked x = Unit {0}

abbrev pub BringNone : System → ℕ → Names → List Step → Type 0
BringNone system local Asked [] = Unit {0}
BringNone system local Asked (x ∷ xs) =
    BringsNone system local Asked x × BringNone system local Asked xs

module _ (system : System) (local : ℕ) (Asked : Names) (apart : Separates system local Asked)
    (known : system.local_device_id ≡ some local) where
  run_task-IsCounted :
      (answers : Answers) (decisions : List (ℕ × Bool)) (t : Task) (m : Manager)
      → IsQuiet system local Asked t
      → IsCounted system local Asked m
      → IsCounted system local Asked (run_task system answers decisions t m)
  unfolding run_task
  run_task-IsCounted answers decisions (mission_task src dst mission has_callback) m q h =
      handle_continue_mission-IsCounted system local Asked apart known answers decisions src dst
        mission has_callback m q h
  run_task-IsCounted answers decisions (bundle_task info has_callback) m q h =
      handle_continue_mission_info-IsCounted system local Asked apart known answers decisions info
        has_callback m q h
  run_task-IsCounted answers decisions (start_task dst bundle status) m q h =
      handle_start_continuation-IsCounted system local Asked apart answers dst bundle status m h
  run_task-IsCounted answers decisions (complete_task device mission is_success caller) m q h =
      handle_notify_complete_continuation-IsCounted system local Asked apart answers device mission
        is_success caller m h
  run_task-IsCounted answers decisions (end_task info) m q h =
      handle_continue_end-IsCounted system local Asked apart info m known q h
  run_task-IsCounted answers decisions (time_out_task info) m q h =
      on_time_out-IsCounted system local Asked apart answers info m h
  run_task-IsCounted answers decisions (data_task session none) m q h = h
  run_task-IsCounted answers decisions (data_task session (some a)) m q h =
      notify_continue_data_recv-IsCounted system local Asked apart answers session a m q h
  run_task-IsCounted answers decisions (shutdown_task socket) m q h =
      end_session-IsCounted system local Asked apart answers socket m h

  take_task-IsCounted :
      (ts : List Task) (answers : Answers) (decisions : List (ℕ × Bool)) (m : Manager)
      → AreQuiet system local Asked ts
      → IsCounted system local Asked m
      → IsCounted system local Asked (take_task ts system answers decisions m)
  take_task-IsCounted [] answers decisions m q h = h
  take_task-IsCounted (t ∷ ts) answers decisions m q h =
      run_task-IsCounted answers decisions t (record m { tasks = ts }) q.0 (h.0, q.1)

  take_timer-IsCounted :
      (ts : List (ℕ × DschedContinueInfo)) (answers : Answers) (m : Manager)
      → IsCounted system local Asked m
      → IsCounted system local Asked (take_timer ts system answers m)
  take_timer-IsCounted [] answers m h = h
  take_timer-IsCounted ((name, info) ∷ ts) answers m h =
      on_time_out-IsCounted system local Asked apart answers info (record m { timers = ts }) h

  post_checked-IsCounted :
      (o : Code) (t : Task) (m : Manager)
      → IsQuiet system local Asked t
      → IsCounted system local Asked m
      → IsCounted system local Asked (post_checked o t m).0
  post_checked-IsCounted err_ok t m q h = post_task-IsCounted system local Asked t m q h
  post_checked-IsCounted failed t m q h = h

  step-IsCounted :
      (x : Step) (m : Manager)
      → BringsNone system local Asked x
      → IsCounted system local Asked m
      → IsCounted system local Asked (step system x m)
  unfolding step init un_init continue_mission continue_mission_info start_continuation on_shutdown
      run_first fire_first number
  step-IsCounted inits m q h =
      if_cases (λ m'. IsCounted system local Asked m') m.has_init _ _ (λ had. h)
        (λ fresh.
          if_cases (λ m'. IsCounted system local Asked m') m.has_handler _ _ (λ had. h)
            (λ none_yet. h))
  step-IsCounted un_inits m q h =
      if_cases (λ m'. IsCounted system local Asked m') m.has_init _ _
        (λ had. ((tt, tt, refl, refl, omega arith, omega arith), tt)) (λ fresh. h)
  step-IsCounted (missions src dst mission has_callback) m q h =
      post_checked-IsCounted (check_request system src dst has_callback)
        (mission_task src dst mission has_callback) m q h
  step-IsCounted (mission_infos info has_callback) m q h =
      post_checked-IsCounted (check_request_info system info has_callback)
        (bundle_task info has_callback) m q h
  step-IsCounted (starts dst bundle status) m q h =
      post_checked-IsCounted (check_start system dst bundle m) (start_task dst bundle status) m tt h
  step-IsCounted (completes device mission is_success caller) m q h =
      post_task-IsCounted system local Asked (complete_task device mission is_success caller) m tt h
  step-IsCounted (terminates answers mission) m q h =
      notify_terminate_continuation-IsCounted system local Asked apart answers mission m h
  step-IsCounted (arrives session a) m q h =
      post_task-IsCounted system local Asked (data_task session a) m q h
  step-IsCounted (shuts_down socket is_self_called) m q h =
      if_cases (λ m'. IsCounted system local Asked m') is_self_called _ _ (λ own. h)
        (λ peer. post_task-IsCounted system local Asked (shutdown_task socket) m tt h)
  step-IsCounted (decides peer is_support) m q h = h
  step-IsCounted (runs_task answers decisions) m q h =
      take_task-IsCounted m.tasks answers decisions m h.1 h
  step-IsCounted (fires answers) m q h = take_timer-IsCounted m.timers answers m h
  step-IsCounted (runs answers session ability k) m q h =
      run_continue-IsCounted system local Asked apart answers session ability k m h

  -- While the device is known, from right counts on, in every run in which no other device starts a
  -- continuation, also not by a command that waits, and the requests, those that wait too, have with the
  -- bundles that they get names of which the joined ones tell the part of this device, whatever is asked,
  -- answered, timed out or shut down, each count of the manager is the number of the continuations in the table for which this device is the sink or the source, there is
  -- one at most for each, and the table is ordered by the keys of what it holds.
  pub run-IsCounted :
      (xs : List Step) (m : Manager)
      → BringNone system local Asked xs
      → IsCounted system local Asked m
      → IsCounted system local Asked (run system xs m)
  unfolding run
  run-IsCounted [] m q h = h
  run-IsCounted (x ∷ xs) m q h = run-IsCounted xs (step system x m) q.1 (step-IsCounted x m q.0 h)
