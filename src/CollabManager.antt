-- ===== src/CollabManager.antt =====
-- services/dtbschedmgr/src/collab/dsched_collab_manager.cpp: the table of the collaborations, their timers,
-- and what is handed on to them. Numbers stand for tokens (0 for the empty one), bundles and devices. The
-- answers of the other parts are parameters.
pub mod Table
pub mod Relations
pub mod Routing
pub mod Timers
pub mod Kept
pub mod Steps
use Prim.Native.String.{String}
use dmsfwk.Prelude.{
  ℕ, Bool, true, false, not, ◌&&◌, ◌||◌, Option, none, some, List, [], ◌∷◌, ◌++◌, ◌==◌, lookup,
  insert, erase, if◌then◌else◌,
}
use dmsfwk.DschedCollab.{
  Direction, collab_source, collab_sink, source_get_peer_version_state, source_start_state,
  sink_get_version_state, Code, err_ok, invalid_parameters_err, collab_ability_timeout_err,
  collab_session_shutdown, find_local_deviceid_err, find_remote_deviceid_err, Collab, Effect,
  connect_device, Answers, update_state, init, post_src_get_peer_version_task, post_src_start_task,
  post_sink_get_version_task, post_sink_prepare_result_task, post_err_end_task,
  post_ability_reject_task, post_end_task,
}
use dmsfwk.DschedCollab.Steps.{Received, notify_result_recv, on_data_recv}
use dmsfwk.DschedCollab.States.{run_next}

-- A collaboration with the fields of its information that the manager compares.
pub record Entry : Type 0 where
  pub collab : Collab
  pub softbus_session_id : ℕ
  pub src_bundle_name : ℕ
  pub src_pid : ℕ
  pub sink_pid : ℕ

-- `timeouts` are the tokens of the timers that `eventHandler_` holds.
pub record Manager : Type 0 where
  pub has_handler : Bool
  pub collabs : List (ℕ × Entry)
  pub timeouts : List ℕ

-- What a client hands over: the fields of `DSchedCollabInfo` that are read.
pub record DschedCollabInfo : Type 0 where
  pub collab_token : ℕ
  pub info_direction : Direction
  pub info_bundle_name : ℕ
  pub info_pid : ℕ
  pub info_sink_pid : ℕ
  pub info_client : Option ℕ
  pub info_sink_client : Option ℕ
  pub info_version : ℕ
  pub info_session_id : ℕ
  pub info_socket_name : String

unfoldable pub get_dsched_collab_by_token_id : ℕ → Manager → Option Entry
get_dsched_collab_by_token_id token m = if token == 0 then none else lookup token m.collabs

unfoldable pub remove_task : ℕ → List ℕ → List ℕ
remove_task token [] = []
remove_task token (t ∷ ts) = if t == token then remove_task token ts else t ∷ remove_task token ts

abbrev pub set_time_out : ℕ → Manager → Manager
set_time_out token m = if m.has_handler then record m { timeouts = m.timeouts ++ token ∷ [] } else m

abbrev pub remove_timeout : ℕ → Manager → Manager
remove_timeout token m =
    if m.has_handler then record m { timeouts = remove_task token m.timeouts } else m

unfoldable pub clean_up_session : ℕ → Manager → Manager × Code
clean_up_session token m = elim (get_dsched_collab_by_token_id token m) [
  | none ↦ (m, invalid_parameters_err)
  | some e ↦
      let m' = remove_timeout token m in (record m' { collabs = erase token m'.collabs }, err_ok)
]

abbrev pub with_collab : Entry → Collab → Entry
with_collab e c = record e { collab = c }

-- A collaboration after one of its operations, in which it may have cleaned itself up.
abbrev pub store : ℕ → Entry → Manager → Manager
store token e m =
    if e.collab.is_known
    then record m { collabs = insert token e m.collabs }
    else (clean_up_session token m).0

-- `std::map::insert`, which leaves a value that is there
abbrev pub emplace : ℕ → Entry → List (ℕ × Entry) → List (ℕ × Entry)
emplace token e collabs = elim (lookup token collabs) [
  | none ↦ insert token e collabs
  | some old ↦ collabs
]

-- The constructor for a source.
abbrev pub new_source : DschedCollabInfo → Collab
new_source info = record {
  direction = info.info_direction;
  state = none;
  has_handler = false;
  queue = [];
  is_known = true;
  has_token = not (info.collab_token == 0);
  src_client_cb = info.info_client;
  sink_client_cb = info.info_sink_client;
  sink_collab_version = info.info_version;
  sink_collab_session_id = info.info_session_id;
  socket_name = info.info_socket_name;
}

-- All the information but the callback of the source's client.
abbrev pub set_src_collab_info : DschedCollabInfo → Collab → Collab
set_src_collab_info info c = record c {
  direction = info.info_direction;
  has_token = not (info.collab_token == 0);
  sink_client_cb = info.info_sink_client;
  sink_collab_version = info.info_version;
  sink_collab_session_id = info.info_session_id;
  socket_name = info.info_socket_name;
}

-- The constructor for a sink, by a command that came.
abbrev pub new_sink : ℕ → Collab
new_sink token = record {
  direction = collab_sink;
  state = none;
  has_handler = false;
  queue = [];
  is_known = true;
  has_token = not (token == 0);
  src_client_cb = none;
  sink_client_cb = none;
  sink_collab_version = 0;
  sink_collab_session_id = 0;
  socket_name = "";
}

-- Builds without the all-connect decisions of a collaboration; the session of SoftBus comes later.
unfoldable pub handle_get_sink_collab_version : Answers → DschedCollabInfo → Manager → Manager
handle_get_sink_collab_version answers info m =
    let c = update_state source_get_peer_version_state (init (new_source info)) in
    let e : Entry = record {
      collab = (post_src_get_peer_version_task answers c).0;
      softbus_session_id = 0;
      src_bundle_name = info.info_bundle_name;
      src_pid = info.info_pid;
      sink_pid = info.info_sink_pid;
    } in
    set_time_out info.collab_token (record m { collabs = emplace info.collab_token e m.collabs })

-- What `CollabMission` asks the others: whether all names are given, whether the own device has an
-- identifier, and whether the other device is known.
pub record MissionAnswers : Type 0 where
  pub names_given : Bool
  pub get_local_device_id : Bool
  pub is_remote_known : Bool

unfoldable pub collab_mission :
    MissionAnswers → Answers → DschedCollabInfo → Manager → Manager × Code
collab_mission known answers info m =
    if not known.names_given
    then (m, invalid_parameters_err)
    else if not known.get_local_device_id
    then (m, find_local_deviceid_err)
    else if not known.is_remote_known
    then (m, find_remote_deviceid_err)
    else elim (get_dsched_collab_by_token_id info.collab_token m) [
      | none ↦ (m, invalid_parameters_err)
      | some e ↦
          let c = update_state source_start_state (set_src_collab_info info e.collab) in
          let told : Entry = record e {
            collab = (post_src_start_task answers c).0;
            src_bundle_name = info.info_bundle_name;
            src_pid = info.info_pid;
            sink_pid = info.info_sink_pid;
          } in
          (record m { collabs = insert info.collab_token told m.collabs }, err_ok)
    ]

-- An operation of one collaboration, where the token has one.
abbrev pub on_collab : (Collab → Collab × Code) → ℕ → Manager → Manager × Code
on_collab f token m = elim (get_dsched_collab_by_token_id token m) [
  | none ↦ (m, invalid_parameters_err)
  | some e ↦
      let (c, code) = f e.collab in
      (record m { collabs = insert token (with_collab e c) m.collabs }, code)
]

unfoldable pub notify_start_ability_result : Answers → ℕ → Code → ℕ → Manager → Manager × Code
notify_start_ability_result answers token err_ok pid m =
    elim (get_dsched_collab_by_token_id token m) [
      | none ↦ (m, invalid_parameters_err)
      | some e ↦
          (record m { collabs = insert token (record e { sink_pid = pid }) m.collabs }, err_ok)
    ]
notify_start_ability_result answers token failed pid m =
    on_collab (post_err_end_task answers failed) token m

unfoldable pub handle_collab_prepare_result :
    Answers → ℕ → Code → ℕ → String → Option ℕ → Manager → Manager
handle_collab_prepare_result answers token result session name client m =
    elim (get_dsched_collab_by_token_id token m) [
      | none ↦ m
      | some e ↦
          remove_timeout token
            (on_collab (post_sink_prepare_result_task answers result session name client) token m).0
    ]

unfoldable pub notify_sink_reject_reason : Answers → ℕ → String → Manager → Manager × Code
notify_sink_reject_reason answers token reason m =
    on_collab (post_ability_reject_task answers reason) token m

-- `ERR_OK` where there is one, whatever comes of the event.
unfoldable pub notify_session_close : Answers → ℕ → Manager → Manager × Code
notify_session_close answers token m = elim (get_dsched_collab_by_token_id token m) [
  | none ↦ (m, invalid_parameters_err)
  | some e ↦ ((on_collab (post_end_task answers) token m).0, err_ok)
]
