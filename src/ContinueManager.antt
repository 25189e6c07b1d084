-- ===== src/ContinueManager.antt =====
-- services/dtbschedmgr/src/continue/dsched_continue_manager.cpp: the table of the continuations, their
-- counts and timers, and the tasks of its thread. Numbers stand for names (0 for the empty one) and for
-- sockets. The answers of the other parts are parameters; the build has DMSFWK_ALL_CONNECT_MGR and
-- SUPPORT_DISTRIBUTED_MISSION_MANAGER.
pub mod Start
pub mod Routing
pub mod Threads
pub mod Counts
pub mod TimesOut
pub mod Uncounted
pub mod Callbacks
use dmsfwk.Prelude.{
  ℕ, ◌+◌, ◌%◌, ◌^◌, Bool, true, false, not, ◌&&◌, ◌||◌, Option, none, some, List, [], ◌∷◌, ◌++◌,
  ◌==◌, leb, ltb, lookup, insert, erase, if◌then◌else◌,
}
use dmsfwk.Continue.{
  Direction, source, sink, SubService, Code, err_ok, invalid_parameters_err,
  continue_already_in_progress, operation_device_not_initiator_or_target, get_local_device_err,
  Reply, Received, Continue,
}

pub record DschedContinueInfo : Type 0 where
  pub source_device_id : ℕ
  pub source_bundle_name : ℕ
  pub sink_device_id : ℕ
  pub sink_bundle_name : ℕ
  pub continue_type : ℕ
  pub sink_ability_name : ℕ
  pub info_mission_id : ℕ

-- A continuation with the fields of it that the manager reads.
pub record Entry : Type 0 where
  pub continuation : Continue
  pub continue_info : DschedContinueInfo
  pub softbus_session_id : ℕ

pub record DmsAbilityInfo : Type 0 where
  pub ability_continue_types : List ℕ
  pub continue_bundle_names : List ℕ

-- What `DSchedContinueStartCmd` carries.
pub record StartCmd : Type 0 where
  pub cmd_direction : Direction
  pub cmd_sub_service : SubService
  pub src_device_id : ℕ
  pub src_bundle_name : ℕ
  pub dst_device_id : ℕ
  pub dst_bundle_name : ℕ
  pub cmd_continue_type : ℕ
  pub source_mission_id : ℕ

-- A command that came: one to start, if it can be read, or another one.
pub data Arrived : Type 0 where
  start_arrived : Option StartCmd → Arrived
  command_arrived : Received → Arrived

-- The name and the ability of a mission, and whether it was launched by a continuation or to prepare one.
pub record Launched : Type 0 where
  pub launched_bundle : ℕ
  pub launched_ability : ℕ
  pub flag_continuation : Bool
  pub flag_prepare_continuation : Bool

-- What the manager asks the other parts. `characters` are those of a name, and `place` is the place of a string
-- among the strings that occur, in their order; `task_name` is `ToStringIgnoreMissionId`. The answers to `get_mission_info`
-- and `get_mission_id_by_bundle_name` are those of the missions, `none` for a failure.
pub record System : Type 0 where
  pub local_device_id : Option ℕ
  pub has_device_info : ℕ → Bool
  pub characters : ℕ → List ℕ
  pub place : List ℕ → ℕ
  pub task_name : DschedContinueInfo → ℕ
  pub get_mission_info : ℕ → Option ℕ
  pub get_mission_id_by_bundle_name : ℕ → Option ℕ
  pub get_distributed_bundle_info : ℕ → ℕ → Option (List DmsAbilityInfo)
  pub get_mission_status : ℕ → Option Launched

-- The functions that `eventHandler_` is given.
pub data Task : Type 0 where
  mission_task : ℕ → ℕ → ℕ → Bool → Task
  bundle_task : DschedContinueInfo → Bool → Task
  start_task : ℕ → ℕ → Code → Task
  complete_task : ℕ → ℕ → Bool → ℕ → Task
  end_task time_out_task : DschedContinueInfo → Task
  data_task : ℕ → Option Arrived → Task
  shutdown_task : ℕ → Task

-- `has_handler` tells whether `eventHandler_` is there. `timers` are the tasks for later, with their names.
pub record Manager : Type 0 where
  pub has_init : Bool
  pub has_handler : Bool
  pub is_listening : Bool
  pub continues : List (ℕ × Entry)
  pub cnt_sink : ℕ
  pub cnt_source : ℕ
  pub tasks : List Task
  pub timers : List (ℕ × DschedContinueInfo)
  pub peer_connect_decision : List (ℕ × Bool)

-- `++`, `--` and `>= 1` on an `int32_t`, which is a number modulo 2^32.
abbrev pub increment : ℕ → ℕ
increment n = (n + 1) % 2 ^ 32

abbrev pub decrement : ℕ → ℕ
decrement n = (n + 4294967295) % 2 ^ 32

abbrev pub at_least_one : ℕ → Bool
at_least_one n = leb 1 n && ltb n 2147483648

-- The four names, one after the other, with nothing between them.
abbrev pub joined : System → ℕ → ℕ → ℕ → ℕ → List ℕ
joined system source_device source_bundle sink_device sink_bundle =
    system.characters source_device
    ++ system.characters source_bundle
    ++ system.characters sink_device
    ++ system.characters sink_bundle

-- The key of the table, which is compared as the joined names are.
abbrev pub key : System → DschedContinueInfo → ℕ
key system info = system.place (
    joined system info.source_device_id info.source_bundle_name info.sink_device_id
      info.sink_bundle_name)

abbrev pub post_task : Task → Manager → Manager × Code
post_task t m =
    if m.has_handler
    then (record m { tasks = m.tasks ++ t ∷ [] }, err_ok)
    else (m, invalid_parameters_err)

-- A task that is posted where the checks before it found nothing.
abbrev pub post_checked : Code → Task → Manager → Manager × Code
post_checked err_ok t m = post_task t m
post_checked failed t m = (m, failed)

unfoldable pub init : Manager → Manager
init m =
    if m.has_init
    then m
    else if m.has_handler
    then record m { has_init = true }
    else record m { has_init = true; has_handler = true; is_listening = true }

-- The thread stops, with what it was still to do.
unfoldable pub un_init : Manager → Manager
un_init m =
    if m.has_init
    then record m {
      has_init = false;
      has_handler = false;
      is_listening = false;
      continues = [];
      cnt_sink = 0;
      cnt_source = 0;
      tasks = [];
      timers = [];
    }
    else m

abbrev pub notify_all_connect_decision : ℕ → Bool → Manager → Manager
notify_all_connect_decision peer is_support m = record m {
  peer_connect_decision = insert peer is_support m.peer_connect_decision;
}

unfoldable pub check_local_limit : System → ℕ → ℕ → ℕ → Manager → Code × Direction
check_local_limit system src dst local m =
    if dst == local
    then if at_least_one m.cnt_sink
      then (continue_already_in_progress, sink)
      else if system.has_device_info src
      then (err_ok, sink)
      else (invalid_parameters_err, sink)
    else if src == local
    then if at_least_one m.cnt_source
      then (continue_already_in_progress, sink)
      else if system.has_device_info dst
      then (err_ok, source)
      else (invalid_parameters_err, sink)
    else (operation_device_not_initiator_or_target, sink)

-- The code and the direction.
unfoldable pub check_continuation_limit : System → ℕ → ℕ → Manager → Code × Direction
check_continuation_limit system src dst m = elim system.local_device_id [
  | none ↦ (get_local_device_err, sink)
  | some local ↦ check_local_limit system src dst local m
]

-- The devices of the first continuation of the table, if there is one.
abbrev pub get_continue_info : Manager → Option (ℕ × ℕ)
get_continue_info m = elim m.continues [
  | [] ↦ none
  | (k, e) ∷ rest ↦ some (e.continue_info.source_device_id, e.continue_info.sink_device_id)
]
