-- ===== src/ContinueManager/Routing.antt =====
-- What comes for a continuation that is in the table, and how one leaves it.
use dmsfwk.Prelude.{
  ℕ, Bool, true, false, not, ◌&&◌, Option, none, some, List, [], ◌∷◌, ◌==◌, lookup, insert, erase,
  if◌then◌else◌,
}
use dmsfwk.Continue.{
  Direction, source, sink, Code, err_ok, invalid_parameters_err, invalid_remote_parameters_err,
  continue_ability_timeout_err, continue_sink_ability_terminated, continue_session_shutdown,
  Continue, Answers, Received, start_received, malformed, post_continue_end_task,
  post_continue_send_task, on_notify_complete, post_continue_ability_task, on_data_recv,
}
use dmsfwk.Continue as Continue
use dmsfwk.ContinueManager.{
  DschedContinueInfo, Entry, StartCmd, Arrived, start_arrived, command_arrived, Launched, System,
  Manager, start_task, complete_task, end_task, data_task, shutdown_task, decrement, key, post_task,
  post_checked, check_continuation_limit,
}

abbrev pub with_continuation : Entry → Continue → Entry
with_continuation e c = record e { continuation = c }

abbrev pub store : ℕ → Entry → Manager → Manager
store k e m = record m { continues = insert k e m.continues }

-- The first continuation that passes a test, with its key.
unfoldable pub find_continue : (Entry → Bool) → List (ℕ × Entry) → Option (ℕ × Entry)
find_continue test [] = none
find_continue test ((k, e) ∷ continues) =
    let rest = find_continue test continues in if test e then some (k, e) else rest

-- Something is handed on to the continuation that was found.
abbrev pub hand_on : Option (ℕ × Entry) → (Continue → Continue) → Manager → Manager
hand_on none f m = m
hand_on (some (k, e)) f m = store k (with_continuation e (f e.continuation)) m

abbrev pub end_with : Answers → Code → Continue → Continue
end_with answers r c = (post_continue_end_task answers r c).0

-- The function that `SetTimeOut` gives to `eventHandler_`.
unfoldable pub on_time_out : System → Answers → DschedContinueInfo → Manager → Manager
on_time_out system answers info m = elim (lookup (key system info) m.continues) [
  | none ↦ m
  | some e ↦ hand_on (some (key system info, e)) (end_with answers continue_ability_timeout_err) m
]

unfoldable pub get_dsched_continue_by_want : System → ℕ → ℕ → Manager → Option (ℕ × Entry)
get_dsched_continue_by_want system dst bundle m = elim system.local_device_id [
  | none ↦ none
  | some local ↦
      find_continue
        (λ e.
          (local == e.continue_info.source_device_id)
          && (bundle == e.continue_info.source_bundle_name)
          && (dst == e.continue_info.sink_device_id))
        m.continues
]

-- The other device is known, and there is a continuation to it.
unfoldable pub check_start : System → ℕ → ℕ → Manager → Code
check_start system dst bundle m =
    if system.has_device_info dst
    then elim (get_dsched_continue_by_want system dst bundle m) [
      | none ↦ invalid_remote_parameters_err
      | some found ↦ err_ok
    ]
    else invalid_remote_parameters_err

unfoldable pub start_continuation : System → ℕ → ℕ → Code → Manager → Manager × Code
start_continuation system dst bundle status m =
    post_checked (check_start system dst bundle m) (start_task dst bundle status) m

unfoldable pub handle_start_continuation : System → Answers → ℕ → ℕ → Code → Manager → Manager
handle_start_continuation system answers dst bundle status m =
    hand_on (get_dsched_continue_by_want system dst bundle m)
      (λ c. (post_continue_send_task answers status c).0) m

abbrev pub notify_complete_continuation : ℕ → ℕ → Bool → ℕ → Manager → Manager × Code
notify_complete_continuation device mission is_success caller =
    post_task (complete_task device mission is_success caller)

abbrev pub get_dsched_continue_by_dev_id : ℕ → Manager → Option (ℕ × Entry)
get_dsched_continue_by_dev_id device m =
    find_continue (λ e. device == e.continue_info.source_device_id) m.continues

unfoldable pub handle_notify_complete_continuation : Answers → ℕ → ℕ → Bool → ℕ → Manager → Manager
handle_notify_complete_continuation answers device mission is_success caller m =
    elim (get_dsched_continue_by_dev_id device m) [
      | none ↦ m
      | some (k, e) ↦
          if e.continue_info.sink_bundle_name == caller
          then hand_on (some (k, e)) (λ c. (on_notify_complete answers mission is_success c).0) m
          else m
    ]

abbrev pub is_launched : Launched → Entry → Bool
is_launched status e =
    (status.launched_bundle == e.continue_info.sink_bundle_name)
    && (status.launched_ability == e.continue_info.sink_ability_name)

-- A mission that a continuation launched was ended.
unfoldable pub notify_terminate_continuation : System → Answers → ℕ → Manager → Manager
notify_terminate_continuation system answers mission m = elim (system.get_mission_status mission) [
  | none ↦ m
  | some status ↦
      if not status.flag_continuation && not status.flag_prepare_continuation
      then m
      else hand_on (find_continue (is_launched status) m.continues)
          (end_with answers continue_sink_ability_terminated) m
]

abbrev pub on_continue_end : DschedContinueInfo → Manager → Manager × Code
on_continue_end info = post_task (end_task info)

unfoldable pub remove_task : ℕ → List (ℕ × DschedContinueInfo) → List (ℕ × DschedContinueInfo)
remove_task name [] = []
remove_task name ((n, info) ∷ timers) =
    let rest = remove_task name timers in if n == name then rest else (n, info) ∷ rest

abbrev pub remove_timeout : System → DschedContinueInfo → Manager → Manager
remove_timeout system info m =
    if m.has_handler then record m { timers = remove_task (system.task_name info) m.timers } else m

-- The count of the direction goes down, that of the sink first.
unfoldable pub discount : System → DschedContinueInfo → Manager → Manager
discount system info m = elim system.local_device_id [
  | none ↦ m
  | some local ↦
      if info.sink_device_id == local
      then record m { cnt_sink = decrement m.cnt_sink }
      else if info.source_device_id == local
      then record m { cnt_source = decrement m.cnt_source }
      else m
]

unfoldable pub handle_continue_end : System → DschedContinueInfo → Manager → Manager
handle_continue_end system info m = elim (lookup (key system info) m.continues) [
  | none ↦ m
  | some e ↦
      let m' = remove_timeout system info m in
      discount system info (record m' { continues = erase (key system info) m'.continues })
]

abbrev pub on_data_recv_task : ℕ → Option Arrived → Manager → Manager
on_data_recv_task session a m = (post_task (data_task session a) m).0

abbrev pub to_received : Arrived → Received
to_received (start_arrived none) = malformed
to_received (start_arrived (some cmd)) = start_received
to_received (command_arrived r) = r

abbrev pub other_direction : Direction → Direction
other_direction source = sink
other_direction sink = source

-- The information of a continuation that came; without bundles, those of the mission of this number here.
unfoldable pub received_info : System → StartCmd → DschedContinueInfo
received_info system cmd =
    let info : DschedContinueInfo = record {
      source_device_id = cmd.src_device_id;
      source_bundle_name = cmd.src_bundle_name;
      sink_device_id = cmd.dst_device_id;
      sink_bundle_name = cmd.dst_bundle_name;
      continue_type = cmd.cmd_continue_type;
      sink_ability_name = 0;
      info_mission_id = cmd.source_mission_id;
    } in
    if (cmd.src_bundle_name == 0) && (cmd.dst_bundle_name == 0) && not (cmd.source_mission_id == 0)
    then elim (system.get_mission_info cmd.source_mission_id) [
      | none ↦ info
      | some bundle ↦ record info { source_bundle_name = bundle; sink_bundle_name = bundle }
    ]
    else info

-- The constructor for a command that came, with the thread and the event that it gets.
abbrev pub received_continue : System → Answers → ℕ → StartCmd → Entry
received_continue system answers session cmd =
    let c : Continue = record {
      direction = other_direction cmd.cmd_direction;
      sub_service = cmd.cmd_sub_service;
      state = none;
      has_handler = false;
      queue = [];
      mission_id = cmd.source_mission_id;
      sink_mission_id = 0;
      is_source_exit = true;
    } in
    record {
      continuation = (post_continue_ability_task answers (Continue.init c)).0;
      continue_info = received_info system cmd;
      softbus_session_id = session;
    }

-- `std::map::insert`, which leaves a value that is there
abbrev pub emplace : ℕ → Entry → List (ℕ × Entry) → List (ℕ × Entry)
emplace k e continues = elim (lookup k continues) [
  | none ↦ insert k e continues
  | some old ↦ continues
]

unfoldable pub accept_start : System → Answers → ℕ → StartCmd → Manager → Manager
accept_start system answers session cmd m =
    elim (check_continuation_limit system cmd.src_device_id cmd.dst_device_id m).0 [
      | err_ok ↦
          let e = received_continue system answers session cmd in
          record m { continues = emplace (key system e.continue_info) e m.continues }
      | failed ↦ m
    ]

abbrev pub is_session : ℕ → Entry → Bool
is_session session e = session == e.softbus_session_id

-- The session is told; only a start that can be read is for nobody yet.
unfoldable pub notify_continue_data_recv : System → Answers → ℕ → Arrived → Manager → Manager
notify_continue_data_recv system answers session a m =
    elim (find_continue (is_session session) m.continues) [
      | some (k, e) ↦ hand_on (some (k, e)) (on_data_recv answers (to_received a)) m
      | none ↦ elim a [
        | start_arrived (some cmd) ↦ accept_start system answers session cmd m
        | _ ↦ m
      ]
    ]

-- Every continuation of the socket ends.
unfoldable pub end_session : Answers → ℕ → List (ℕ × Entry) → List (ℕ × Entry)
end_session answers socket [] = []
end_session answers socket ((k, e) ∷ continues) =
    let rest = end_session answers socket continues in
    if socket == e.softbus_session_id
    then (k, with_continuation e (end_with answers continue_session_shutdown e.continuation)) ∷ rest
    else (k, e) ∷ rest

unfoldable pub on_shutdown : ℕ → Bool → Manager → Manager
on_shutdown socket is_self_called m =
    if is_self_called then m else (post_task (shutdown_task socket) m).0
