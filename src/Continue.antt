-- ===== src/Continue.antt =====
-- services/dtbschedmgr/src/continue: one continuation of an ability on another device, on the source
-- or on the sink: its state, its queue of events, and the ways to post one. What the other parts
-- answer while an event is executed is a parameter; what the continuation asks of them is a list of
-- effects, in order.
pub mod Execute
pub mod States
pub mod Order
pub mod Runs
pub mod Ending
pub mod Notices
use dmsfwk.Prelude.{
  ℕ, Bool, true, false, Option, none, some, List, [], ◌∷◌, ◌++◌, leb, if◌then◌else◌,
}

pub data StateType : Type 0 where
  source_start_state ability_state source_wait_end_state source_end_state : StateType
  sink_start_state data_state sink_wait_end_state sink_end_state : StateType

pub data Direction : Type 0 where
  source sink : Direction

pub data SubService : Type 0 where
  pull push : SubService

-- `other n` is any code of another component but `ERR_OK`.
pub data Code : Type 0 where
  err_ok invalid_parameters_err continue_state_machine_invalid_state : Code
  continue_send_event_failed continue_call_continue_ability_failed : Code
  invalid_remote_parameters_err remote_device_bind_ability_err : Code
  no_mission_info_for_mission_id mission_not_continue_active : Code
  dms_get_window_failed_from_scb continue_call_start_ability_failed : Code
  continue_already_in_progress operation_device_not_initiator_or_target get_local_device_err : Code
  continue_ability_timeout_err continue_sink_ability_terminated continue_session_shutdown : Code
  other : ℕ → Code

-- The events with what they carry: whether the data of a command is there, or a result.
pub data Event : Type 0 where
  req_pull_event req_push_event reply_event ability_event : Event
  data_event send_data_event : Bool → Event
  complete_event end_event : Code → Event

-- The fields of `DSchedContinue` that decide what it does. `none` is a state machine without a state,
-- and `has_handler` tells whether `eventHandler_` is there.
pub record Continue : Type 0 where
  pub direction : Direction
  pub sub_service : SubService
  pub state : Option StateType
  pub has_handler : Bool
  pub queue : List Event
  pub mission_id : ℕ
  pub sink_mission_id : ℕ
  pub is_source_exit : Bool

pub data Command : Type 0 where
  start_cmd data_cmd reply_start_cmd : Command
  reply_end_cmd end_cmd : Code → Command

pub data Effect : Type 0 where
  quick_start_ability connect_device disconnect_device : Effect
  send : Command → Effect
  continue_ability start_ability clean_mission : Effect
  quick_start_success : Effect
  quick_start_failed : Code → Effect
  -- the callback and the event of the result, and `DSchedContinueManager::OnContinueEnd`
  notify_result : Code → Effect
  continue_end : Effect

-- What the calls of an execution answer, and what the data that it gets says: whether the source is to
-- exit, if it says so, and whether it has the flag of a continuation.
pub record Answers : Type 0 where
  pub send_event : Bool
  pub check_quick_start_configuration : Bool
  pub connect_device_ret : Code
  pub pack_start_cmd : Code
  pub send_command : Code
  pub get_mission_id : Code × ℕ
  pub check_bundle_continue_config : Bool
  pub get_mission_info : Code
  pub is_continue_active : Bool
  pub continue_ability_ret : Code
  pub get_local_bundle_info : Code
  pub get_source_exit : Option Bool
  pub has_continuation_flag : Bool
  pub set_want_for_continuation : Code
  pub get_caller_app_id : Bool
  pub get_bundle_name_list : Bool
  pub get_account_info : Code
  pub get_local_device_id : Bool
  pub check_device_id_from_remote : Bool
  pub check_start_permission : Code
  pub has_continue_session_id : Bool
  pub get_persistent_id : Code × ℕ
  pub get_persistent_id_again : Code × ℕ
  pub start_ability_ret : Code
  pub quick_start_persistent_id : Code

-- The new state, the code and the effects.
abbrev pub Result : Type 0
Result = Continue × Code × List Effect

abbrev pub update_state : StateType → Continue → Continue
update_state s c = record c { state = some s }

-- `Init`, once; the thread that takes the events from the queue runs then.
pub init : Continue → Continue
init c = if c.has_handler then c else elim c.direction [
  | source ↦ record c { has_handler = true; state = some source_start_state }
  | sink ↦ record c { has_handler = true; state = some sink_start_state }
]

-- What every `Post...Task` does with its event.
abbrev pub post : Answers → Event → Continue → Continue × Code
post answers e c =
    if c.has_handler
    then if answers.send_event
      then (record c { queue = c.queue ++ e ∷ [] }, err_ok)
      else (c, continue_send_event_failed)
    else (c, invalid_parameters_err)

abbrev pub post_start_task : Answers → Continue → Continue × Code
post_start_task answers c = elim c.sub_service [
  | pull ↦ post answers req_pull_event c
  | push ↦ post answers req_push_event c
]

abbrev pub post_continue_ability_task : Answers → Continue → Continue × Code
post_continue_ability_task answers = post answers ability_event

abbrev pub post_continue_send_task : Answers → Code → Continue → Continue × Code
post_continue_send_task answers status c = elim status [
  | err_ok ↦ post answers (send_data_event true) c
  | failed ↦ post answers (end_event failed) c
]

abbrev pub post_continue_data_task : Answers → Bool → Continue → Continue × Code
post_continue_data_task answers has_cmd = post answers (data_event has_cmd)

abbrev pub post_notify_complete_task : Answers → Code → Continue → Continue × Code
post_notify_complete_task answers result = post answers (complete_event result)

abbrev pub post_continue_end_task : Answers → Code → Continue → Continue × Code
post_continue_end_task answers result = post answers (end_event result)

-- A command that a reply answers: `DSCHED_CONTINUE_CMD_START`, `_END` with its result, or another.
pub data Reply : Type 0 where
  to_start to_other : Reply
  to_end : Code → Reply

abbrev pub post_reply_task : Answers → Option Reply → Continue → Continue × Code
post_reply_task answers none c = (c, invalid_parameters_err)
post_reply_task answers (some to_start) c = post answers ability_event c
post_reply_task answers (some (to_end result)) c = post answers (end_event result) c
post_reply_task answers (some to_other) c = (c, err_ok)

-- A mission number that is not positive is 0 here.
abbrev pub on_notify_complete : Answers → ℕ → Bool → Continue → Continue × Code
on_notify_complete answers mission_id is_success c =
    if is_success
    then if leb mission_id 0
      then ((post_notify_complete_task answers invalid_parameters_err c).0, err_ok)
      else ((post_notify_complete_task answers err_ok c).0, err_ok)
    else ((post_notify_complete_task answers continue_call_start_ability_failed c).0, err_ok)

-- What `OnDataRecv` reads from the bytes of a command; `malformed` is a failed `Unmarshal`.
pub data Received : Type 0 where
  start_received data_received malformed unknown_command : Received
  reply_received : Reply → Received
  end_received : Code → Received

abbrev pub on_data_recv : Answers → Received → Continue → Continue
on_data_recv answers data_received c = (post_continue_data_task answers true c).0
on_data_recv answers (reply_received r) c = (post_reply_task answers (some r) c).0
on_data_recv answers (end_received result) c = (post_notify_complete_task answers result c).0
on_data_recv answers _ c = c
