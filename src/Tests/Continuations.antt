-- ===== src/Tests/Continuations.antt =====
-- dsched_continue_manager.cpp: a phone that is device 1, and the tablet 2, which has the application 5.
use dmsfwk.Prelude.{
  ℕ, ◌+◌, ◌*◌, ◌==◌, true, false, ◌≡◌, refl, none, some, List, [], ◌∷◌, ◌++◌, lookup, zero, suc,
  ◌≤◌, ◌<◌, sym, ◌∙◌, ap, not, ◌&&◌, arith,
}
use dmsfwk.Continue.{Direction, source, sink, pull, push, sink_start_state}
use dmsfwk.ContinueManager.{
  DschedContinueInfo, Entry, StartCmd, System, Manager, joined, key, decrement, end_task,
}
use dmsfwk.ContinueManager.Start.{
  started, with_source_bundle, bundle_info, handle_continue_mission_with_bundle_name,
}
use dmsfwk.ContinueManager.Routing.{accept_start, received_info, handle_continue_end, on_time_out}
use dmsfwk.ContinueManager.Threads.{
  mission_infos, runs_task, runs, fires, shuts_down, run, Step, run_continue,
}
use dmsfwk.ContinueManager.Counts.{Names, IsAsked, number}
use dmsfwk.ContinueManager.Counts.Tables.{Separates}
use dmsfwk.ContinueManager.Counts.Kept.{IsCounted}
use dmsfwk.ContinueManager.Counts.Runs.{run-IsCounted}
use dmsfwk.ContinueManager.Counts.Admission.{handle_continue_mission_with_bundle_name-started}
use dmsfwk.ContinueManager.TimesOut.{handle_continue_end-on_time_out}
use dmsfwk.ContinueManager.Uncounted.{handle_continue_end-accept_start}
use dmsfwk.ContinueManager.Callbacks.{
  notify_quick_start_state, continue_state_callback_register, continue_state_callback_register-lost,
  notify_quick_start_state-continue_state_callback_register,
}
use dmsfwk.ContinueManager.Callbacks as Callbacks
use dmsfwk.Tests.Continuation.{answers}

-- Names of one letter.
abbrev letters : ℕ → List ℕ
letters zero = []
letters (suc n) = suc n ∷ []

-- The place of a string of digits, among those as long.
abbrev digits : ℕ → List ℕ → ℕ
digits acc [] = acc
digits acc (c ∷ cs) = digits (10 * acc + c) cs

abbrev system : System
system = record {
  local_device_id = some 1;
  has_device_info = λ device. device == 2;
  characters = letters;
  place = digits 0;
  task_name = λ info. info.source_device_id;
  get_mission_info = λ mission. none;
  get_mission_id_by_bundle_name = λ bundle. some 9;
  get_distributed_bundle_info = λ device bundle. none;
  get_mission_status = λ mission. none;
}

-- None of the four names is empty.
abbrev Usual : Names
Usual a b c d = (1 ≤ a) × (a < 10) × (1 ≤ b) × (b < 10) × (1 ≤ c) × (c < 10) × (1 ≤ d) × (d < 10)

key_digits :
    (a b c d : ℕ)
    → Usual a b c d
    → digits 0 (joined system a b c d) ≡ 1000 * a + 100 * b + 10 * c + d
key_digits zero b c d h = absurd (omega (arith, h.0))
key_digits (suc a) zero c d h = absurd (omega (arith, h.2))
key_digits (suc a) (suc b) zero d h = absurd (omega (arith, h.4))
key_digits (suc a) (suc b) (suc c) zero h = absurd (omega (arith, h.6))
key_digits (suc a) (suc b) (suc c) (suc d) h = omega arith

same_devices :
    (i j : DschedContinueInfo)
    → IsAsked Usual i
    → IsAsked Usual j
    → key system i ≡ key system j
    → (i.source_device_id ≡ j.source_device_id) × (i.sink_device_id ≡ j.sink_device_id)
same_devices i j u v same =
    let at_i =
      key_digits i.source_device_id i.source_bundle_name i.sink_device_id i.sink_bundle_name u in
    let at_j =
      key_digits j.source_device_id j.source_bundle_name j.sink_device_id j.sink_bundle_name v in
    let equal = sym at_i ∙ same ∙ at_j in
    (
      omega (arith, equal, u.1, u.3, u.5, u.7, v.1, v.3, v.5, v.7),
      omega (arith, equal, u.1, u.3, u.5, u.7, v.1, v.3, v.5, v.7),
    )

system-Separates : Separates system 1 Usual
system-Separates i j u v same sink = ap (λ x. x == 1) (same_devices i j u v same).1
system-Separates i j u v same source =
    let (from, to) = same_devices i j u v same in
    ap (λ x. not (x == 1) && (i.source_device_id == 1)) to
    ∙ ap (λ x. not (j.sink_device_id == 1) && (x == 1)) from

abbrev pulled : DschedContinueInfo
pulled = record {
  source_device_id = 2;
  source_bundle_name = 5;
  sink_device_id = 1;
  sink_bundle_name = 5;
  continue_type = 0;
  sink_ability_name = 0;
  info_mission_id = 0;
}

abbrev idle : Manager
idle = record {
  has_init = true;
  has_handler = true;
  is_listening = true;
  continues = [];
  cnt_sink = 0;
  cnt_source = 0;
  tasks = [];
  timers = [];
  peer_connect_decision = [];
}

pulled-IsAsked : (d : Direction) → IsAsked Usual (with_source_bundle system d (bundle_info pulled))
unfolding with_source_bundle
pulled-IsAsked sink = (
  omega arith,
  omega arith,
  omega arith,
  omega arith,
  omega arith,
  omega arith,
  omega arith,
  omega arith,
)
pulled-IsAsked source = (
  omega arith,
  omega arith,
  omega arith,
  omega arith,
  omega arith,
  omega arith,
  omega arith,
  omega arith,
)

idle-IsCounted : IsCounted system 1 Usual idle
unfolding number
idle-IsCounted = ((tt, tt, refl, refl, omega arith, omega arith), tt)

-- Two requests, of which the second is refused, and the tablet hangs up.
abbrev busy : List Step
busy =
    mission_infos pulled true
    ∷ mission_infos pulled true
    ∷ runs_task answers ((2, true) ∷ [])
    ∷ runs_task answers []
    ∷ runs answers 7 8 2515
    ∷ fires answers
    ∷ shuts_down 7 false
    ∷ runs_task answers []
    ∷ []

run-IsCounted_example : IsCounted system 1 Usual (run system busy idle)
run-IsCounted_example =
    run-IsCounted system 1 Usual system-Separates refl busy idle
      (pulled-IsAsked, (pulled-IsAsked, (tt, (tt, (tt, (tt, (tt, (tt, tt)))))))) idle-IsCounted

admitted_example :
    lookup
      (key system (with_source_bundle system sink pulled))
      (handle_continue_mission_with_bundle_name system answers [] pulled idle).continues
    ≡ some (started answers sink (with_source_bundle system sink pulled))
unfolding number
admitted_example =
    handle_continue_mission_with_bundle_name-started system 1 Usual system-Separates refl answers []
      sink pulled idle idle-IsCounted (pulled-IsAsked sink) refl refl refl

-- A pull that waits for its first event.
abbrev waiting : Entry
waiting = record {
  continuation = record {
    direction = sink;
    sub_service = pull;
    state = some sink_start_state;
    has_handler = true;
    queue = [];
    mission_id = 0;
    sink_mission_id = 0;
    is_source_exit = true;
  };
  continue_info = pulled;
  softbus_session_id = 7;
}

abbrev started_one : Manager
started_one = record idle { continues = (2515, waiting) ∷ []; cnt_sink = 1 }

timed_out_example :
    (m' : Manager) × (e' : Entry) × (m'
      ≡ run_continue answers 7 8
          (key system pulled)
          (on_time_out system answers pulled started_one))
    × ((run_continue answers 7 8 (key system pulled) m').tasks
        ≡ m'.tasks ++ end_task e'.continue_info ∷ [])
    × (lookup
          (key system pulled)
          (handle_continue_end system e'.continue_info
            (run_continue answers 7 8 (key system pulled) m')).continues
        ≡ none)
unfolding lookup
timed_out_example =
    handle_continue_end-on_time_out system answers answers pulled 7 8 started_one waiting
      sink_start_state (omega arith, tt) refl refl refl refl refl refl refl (omega arith)

abbrev start_cmd : StartCmd
start_cmd = record {
  cmd_direction = source;
  cmd_sub_service = push;
  src_device_id = 2;
  src_bundle_name = 5;
  dst_device_id = 1;
  dst_bundle_name = 5;
  cmd_continue_type = 0;
  source_mission_id = 3;
}

uncounted_example :
    ((handle_continue_end system
        (received_info system start_cmd)
        (accept_start system answers 7 start_cmd idle)).continues
      ≡ idle.continues)
    × ((handle_continue_end system
          (received_info system start_cmd)
          (accept_start system answers 7 start_cmd idle)).cnt_sink
        ≡ decrement idle.cnt_sink)
unfolding lookup
uncounted_example =
    handle_continue_end-accept_start system answers 7 start_cmd idle refl refl refl refl

lost_example :
    (continue_state_callback_register true 4 6 (notify_quick_start_state true 4 (1, 2) []).0
      ≡ ((notify_quick_start_state true 4 (1, 2) []).0, Callbacks.err_ok, []))
    × (notify_quick_start_state true 4 (0, 2) (notify_quick_start_state true 4 (1, 2) []).0
        ≡ ((notify_quick_start_state true 4 (1, 2) []).0, Callbacks.err_ok, []))
unfolding lookup
lost_example = continue_state_callback_register-lost 4 6 true (1, 2) (0, 2) [] refl

told_example :
    notify_quick_start_state true 4 (0, 2) (continue_state_callback_register true 4 6 []).0 ≡ (
      (continue_state_callback_register true 4 6 []).0,
      Callbacks.err_ok,
      record { told_object = 6; told_state = (0, 2) } ∷ [],
    )
unfolding lookup
told_example = notify_quick_start_state-continue_state_callback_register 4 6 true (0, 2) [] refl
