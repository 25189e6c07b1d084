-- ===== src/DschedCollab.antt =====
-- services/dtbschedmgr/src/collab/dsched_collab.cpp: one collaboration of two abilities, on the source or
-- on the sink: its state, its queue of events, and the ways to post one. What the other parts answer
-- while an event is executed is a parameter; what the collaboration asks of them is a list of effects,
-- in order. Writing to a parcel is taken to succeed, and numbers stand for the clients' callbacks.
pub mod Steps
pub mod States
pub mod Order
pub mod Ending
pub mod Runs
pub mod Failures
use Prim.Native.String.{String}
use text.Mathlib.Text.{◌==◌ as str_eq}
use dmsfwk.Prelude.{ℕ, Bool, true, false, Option, none, some, List, [], ◌∷◌, ◌++◌, if◌then◌else◌}

pub data StateType : Type 0 where
  source_get_peer_version_state source_start_state source_wait_result_state : StateType
  source_wait_end_state sink_get_version_state sink_start_state sink_connect_state : StateType
  sink_wait_end_state : StateType

pub data Direction : Type 0 where
  collab_source collab_sink : Direction

-- `other n` is any code of another component but `ERR_OK`.
pub data Code : Type 0 where
  err_ok invalid_parameters_err collab_send_event_failed : Code
  collab_state_machine_invalid_state collab_ability_reject_err : Code
  get_appid_err get_bundlenamelist_err get_account_info_err : Code
  err_null_object send_request_def_fail : Code
  collab_ability_timeout_err collab_session_shutdown : Code
  find_local_deviceid_err find_remote_deviceid_err : Code
  other : ℕ → Code

-- The events with what they carry: a result, or the reason of a rejection.
pub data Event : Type 0 where
  source_get_peer_version_event source_get_version_event source_start_event : Event
  get_sink_version_event start_ability_event end_event : Event
  notify_result_event notify_prepare_result_event err_end_event : Code → Event
  ability_reject_event : String → Event

-- What another device sends.
pub record NotifyResultCmd : Type 0 where
  pub result : Code
  pub sink_collab_session_id : ℕ
  pub sink_socket_name : String
  pub ability_reject_reason : String

pub data Command : Type 0 where
  sink_get_version_cmd : Command
  source_get_version_cmd : ℕ → Command
  sink_start_cmd disconnect_cmd : Command
  notify_result_cmd : NotifyResultCmd → Command

-- The fields of `DSchedCollab` that decide what it does. `none` is a state machine without a state,
-- `has_handler` tells whether `eventHandler_` is there, and `is_known` whether the manager's `collabs_`
-- holds the collaboration; `has_token` tells whether `collabToken_` is not empty, and commands carry the token
-- by which they found the collaboration, so that none changes it.
pub record Collab : Type 0 where
  pub direction : Direction
  pub state : Option StateType
  pub has_handler : Bool
  pub queue : List Event
  pub is_known : Bool
  pub has_token : Bool
  pub src_client_cb : Option ℕ
  pub sink_client_cb : Option ℕ
  pub sink_collab_version : ℕ
  pub sink_collab_session_id : ℕ
  pub socket_name : String

pub data Effect : Type 0 where
  connect_device disconnect_device start_ability_by_call register_observer : Effect
  send : Command → Effect
  -- the calls of a client's callback
  notify_peer_version : ℕ → ℕ → Effect
  notify_prepare_result : ℕ → Code → String → Effect
  notify_disconnect : ℕ → Effect
  -- `DSchedCollabManager::CleanUpSession`
  clean_up : Effect
  -- a call of a callback that is not there
  null_call : Effect

-- What the calls of an execution answer.
pub record Answers : Type 0 where
  pub send_event : Bool
  pub connect_device_ret : Code
  pub get_local_bundle_info : Code
  pub get_caller_app_id : Bool
  pub get_bundle_name_list : Bool
  pub get_account_info : Code
  pub marshal : Code
  pub memcpy : Code
  pub send_data : Code
  pub send_request : Code
  pub check_start_permission : Code
  pub client_connect : Code
  pub start_ability_ret : Code

-- The new state, the code and the effects.
abbrev pub Result : Type 0
Result = Collab × Code × List Effect

abbrev pub update_state : StateType → Collab → Collab
update_state s c = record c { state = some s }

-- What every `Post...Task` does with its event.
abbrev pub post : Answers → Event → Collab → Collab × Code
post answers e c =
    if c.has_handler
    then if answers.send_event
      then (record c { queue = c.queue ++ e ∷ [] }, err_ok)
      else (c, collab_send_event_failed)
    else (c, invalid_parameters_err)

abbrev pub post_src_get_peer_version_task : Answers → Collab → Collab × Code
post_src_get_peer_version_task answers c = post answers source_get_peer_version_event c

abbrev pub post_src_get_version_task : Answers → Collab → Collab × Code
post_src_get_version_task answers c = post answers source_get_version_event c

abbrev pub post_src_start_task : Answers → Collab → Collab × Code
post_src_start_task answers c = post answers source_start_event c

abbrev pub post_sink_get_version_task : Answers → Collab → Collab × Code
post_sink_get_version_task answers c = post answers get_sink_version_event c

abbrev pub post_sink_start_task : Answers → Collab → Collab × Code
post_sink_start_task answers c = post answers start_ability_event c

-- With the session, the name of the socket and the callback of the sink's client.
abbrev pub post_sink_prepare_result_task :
    Answers → Code → ℕ → String → Option ℕ → Collab → Collab × Code
post_sink_prepare_result_task answers result session name client c =
    if c.has_handler
    then post answers (notify_prepare_result_event result)
        (record c { sink_collab_session_id = session; socket_name = name; sink_client_cb = client })
    else (c, invalid_parameters_err)

abbrev pub post_err_end_task : Answers → Code → Collab → Collab × Code
post_err_end_task answers result c = post answers (err_end_event result) c

abbrev pub post_ability_reject_task : Answers → String → Collab → Collab × Code
post_ability_reject_task answers reason c = post answers (ability_reject_event reason) c

abbrev pub post_end_task : Answers → Collab → Collab × Code
post_end_task answers c = post answers end_event c

abbrev pub post_src_result_task : Answers → NotifyResultCmd → Collab → Collab × Code
post_src_result_task answers cmd c =
    if c.has_handler
    then if str_eq cmd.ability_reject_reason ""
      then post answers (notify_result_event cmd.result) (record c {
        sink_collab_session_id = cmd.sink_collab_session_id;
        socket_name = cmd.sink_socket_name;
      })
      else post answers (ability_reject_event cmd.ability_reject_reason) c
    else (c, invalid_parameters_err)

-- `Init`, once
abbrev pub init : Collab → Collab
init c = record c { has_handler = true }
