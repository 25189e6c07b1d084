-- ===== src/DschedCollab/Steps.antt =====
-- The executions of dsched_collab.cpp, `Exe...`, and what comes from the other device.
use Prim.Native.String.{String}
use text.Mathlib.Text.{◌==◌ as str_eq}
use dmsfwk.Prelude.{ℕ, Bool, true, false, Option, none, some, List, [], ◌∷◌, ◌++◌, if◌then◌else◌}
use dmsfwk.DschedCollab.{
  source_wait_result_state, source_wait_end_state, sink_start_state, sink_connect_state,
  sink_wait_end_state, collab_source, collab_sink, Code, err_ok, invalid_parameters_err,
  collab_ability_reject_err, get_appid_err, get_bundlenamelist_err, get_account_info_err,
  err_null_object, NotifyResultCmd, Command, sink_get_version_cmd, source_get_version_cmd,
  sink_start_cmd, disconnect_cmd, notify_result_cmd, Collab, Effect, connect_device,
  disconnect_device, start_ability_by_call, register_observer, send, notify_peer_version,
  notify_prepare_result, notify_disconnect, clean_up, null_call, Answers, Result, update_state,
  post_err_end_task, post_src_get_version_task, post_sink_start_task, post_src_result_task,
}

-- `DSCHED_COLLAB_PROTOCOL_VERSION`
abbrev pub protocol_version : ℕ
protocol_version = 1

-- The first code that is not `ERR_OK`, or the last.
abbrev pub and_then : Code → Code → Code
and_then err_ok next = next
and_then failed next = failed

abbrev pub unless : Bool → Code → Code
unless true failed = err_ok
unless false failed = failed

abbrev pub or_code : Code → Code → Code
or_code err_ok code = err_ok
or_code failed code = code

-- `PackStartCmd`, which is `PackPartCmd` where the command is there
abbrev pub pack_start_cmd : Answers → Code
pack_start_cmd answers = and_then answers.get_local_bundle_info (
    and_then (unless answers.get_caller_app_id get_appid_err) (
      and_then (unless answers.get_bundle_name_list get_bundlenamelist_err)
        (or_code answers.get_account_info get_account_info_err)))

-- `SendCommand`: the data goes out once the command is written.
abbrev pub send_command : Answers → Command → Code × List Effect
send_command answers cmd = elim (and_then answers.marshal answers.memcpy) [
  | err_ok ↦ (answers.send_data, send cmd ∷ [])
  | failed ↦ (failed, [])
]

abbrev pub pack_notify_result_cmd : Collab → Code → String → NotifyResultCmd
pack_notify_result_cmd c result reason = record {
  result = result;
  sink_collab_session_id = c.sink_collab_session_id;
  sink_socket_name = c.socket_name;
  ability_reject_reason = reason;
}

-- A step that goes on after `ERR_OK`, and else returns the code.
abbrev pub go_on : Code → List Effect → Collab → Result → Result
go_on err_ok effects c (c', code, more) = (c', code, effects ++ more)
go_on failed effects c next = (c, failed, effects)

unfoldable pub exe_src_get_peer_version : Answers → Collab → Result
exe_src_get_peer_version answers c =
    let (code, sent) = send_command answers sink_get_version_cmd in
    go_on answers.connect_device_ret (connect_device ∷ []) c (c, code, sent)

-- `SrcPeerVersionNotify`, which does not look whether the callback is there
abbrev pub src_peer_version_notify : Answers → Collab → Code × List Effect
src_peer_version_notify answers c = elim c.src_client_cb [
  | some client ↦ (answers.send_request, notify_peer_version client c.sink_collab_version ∷ [])
  | none ↦ (err_null_object, null_call ∷ [])
]

unfoldable pub exe_src_get_version : Answers → Collab → Result
exe_src_get_version answers c =
    let (code, told) = src_peer_version_notify answers c in
    elim code [
      | err_ok ↦ (c, err_ok, told)
      | failed ↦ let (c', posted) = post_err_end_task answers failed c in (c', posted, told)
    ]

unfoldable pub exe_src_start : Answers → Collab → Result
exe_src_start answers c =
    let (code, sent) = send_command answers sink_start_cmd in
    go_on answers.connect_device_ret (connect_device ∷ []) c (
      go_on (pack_start_cmd answers) [] c (
        go_on code sent c
          (update_state source_wait_result_state c, err_ok, register_observer ∷ [])))

unfoldable pub exe_start_ability : Answers → Collab → Result
exe_start_ability answers c = go_on answers.check_start_permission [] c (
    go_on answers.client_connect [] c (elim answers.start_ability_ret [
      | err_ok ↦ (
        update_state sink_connect_state c,
        err_ok,
        start_ability_by_call ∷ register_observer ∷ [],
      )
      | failed ↦
          let (c', posted) = post_err_end_task answers failed c in
          (c', posted, start_ability_by_call ∷ [])
    ]))

-- `ExeClientDisconnectNotify`, whose code nobody reads
abbrev pub exe_client_disconnect_notify : Collab → List Effect
exe_client_disconnect_notify c =
    let client : Option ℕ = elim c.direction [
      | collab_source ↦ c.src_client_cb
      | collab_sink ↦ c.sink_client_cb
    ] in
    elim client [ none ↦ [] | some cb ↦ notify_disconnect cb ∷ [] ]

abbrev pub disconnects : Collab → List Effect
disconnects c = elim c.direction [ collab_source ↦ disconnect_device ∷ [] | collab_sink ↦ [] ]

-- The manager's `CleanUpSession`, which finds nothing for a token that is empty or not in the table
abbrev pub manager_clean_up : Collab → Code
manager_clean_up c =
    if c.has_token
    then if c.is_known then err_ok else invalid_parameters_err
    else invalid_parameters_err

unfoldable pub clean_up_session : Collab → Result
clean_up_session c = (
  record c { is_known = if c.has_token then false else c.is_known },
  manager_clean_up c,
  disconnects c ++ exe_client_disconnect_notify c ++ clean_up ∷ [],
)

-- `ExeSrcClientNotify`
abbrev pub exe_src_client_notify : Answers → Code → String → Collab → Code × List Effect
exe_src_client_notify answers result reason c = elim c.src_client_cb [
  | none ↦ (invalid_parameters_err, [])
  | some client ↦ (answers.send_request, notify_prepare_result client result reason ∷ [])
]

-- Some effects, and then the session is cleaned up whatever the codes.
abbrev pub then_clean_up : List Effect → Collab → Result
then_clean_up effects c = let (c', code, more) = clean_up_session c in (c', err_ok, effects ++ more)

abbrev pub result_sent : Answers → Code → String → Collab → List Effect
result_sent answers result reason c =
    let (code, sent) =
      send_command answers (notify_result_cmd (pack_notify_result_cmd c result reason)) in
    sent

unfoldable pub exe_ability_reject_error : Answers → String → Collab → Result
unfolding clean_up_session
exe_ability_reject_error answers reason c =
    then_clean_up (result_sent answers collab_ability_reject_err reason c) c

-- What `ExeSinkPrepareResult` and `ExeSrcCollabResult` go on with.
abbrev pub is_result_accepted : Code → Bool
is_result_accepted err_ok = true
is_result_accepted collab_ability_reject_err = true
is_result_accepted failed = false

unfoldable pub exe_sink_prepare_result : Answers → Code → Collab → Result
exe_sink_prepare_result answers result c =
    let (c', posted) = post_err_end_task answers result c in
    let (code, sent) =
      send_command answers (notify_result_cmd (pack_notify_result_cmd c result "")) in
    if is_result_accepted result
    then go_on code sent c (update_state sink_wait_end_state c, err_ok, [])
    else (c', posted, [])

-- Where telling the client fails, the result itself is posted, not the failure.
unfoldable pub exe_src_collab_result : Answers → Code → String → Collab → Result
unfolding clean_up_session
exe_src_collab_result answers result reason c =
    let (c', posted) = post_err_end_task answers result c in
    let (code, told) = exe_src_client_notify answers result reason c in
    let (cleaned, cleaned_code, more) = clean_up_session c in
    if is_result_accepted result
    then if str_eq reason ""
      then elim code [
        | err_ok ↦ (update_state source_wait_end_state c, err_ok, told)
        | failed ↦ (c', posted, told)
      ]
      else (cleaned, cleaned_code, told ++ more)
    else (c', posted, [])

-- `ExeSrcGetPeerVersionError` and `ExeSrcStartError`
unfoldable pub exe_src_start_error : Answers → Code → Collab → Result
exe_src_start_error answers result c =
    let (code, told) = exe_src_client_notify answers result "" c in then_clean_up told c

unfoldable pub exe_src_wait_result_error : Answers → Code → Collab → Result
exe_src_wait_result_error answers result c =
    let (code, told) = exe_src_client_notify answers result "" c in
    then_clean_up (result_sent answers result "" c ++ told) c

unfoldable pub exe_sink_get_version : Answers → Collab → Result
exe_sink_get_version answers c =
    let (code, sent) = send_command answers (source_get_version_cmd protocol_version) in
    (update_state sink_start_state c, err_ok, sent)

-- `ExeSinkError`, `ExeSinkGetVersionError`, `ExeSinkStartError` and `ExeSinkConnectError`, all alike
unfoldable pub exe_sink_error : Answers → Code → Collab → Result
exe_sink_error answers result c = then_clean_up (result_sent answers result "" c) c

unfoldable pub exe_disconnect : Answers → Collab → Result
exe_disconnect answers c =
    let (code, sent) = send_command answers disconnect_cmd in then_clean_up sent c

-- What comes: a command, and the code of its `Unmarshal`.
pub data Received : Type 0 where
  source_get_version_recv : Code → ℕ → Received
  sink_start_recv disconnect_recv other_recv : Code → Received
  notify_result_recv : Code → NotifyResultCmd → Received

abbrev pub if_read : Answers → Code → Collab → Collab → Collab × List Effect
if_read answers err_ok c next = (next, [])
if_read answers failed c next = ((post_err_end_task answers failed c).0, [])

-- `OnDataRecv`; what `SetSinkCollabInfo` stores of the source is not read by the other operations here.
unfoldable pub on_data_recv : Answers → Received → Collab → Collab × List Effect
unfolding clean_up_session
on_data_recv answers (source_get_version_recv read version) c =
    if_read answers read c
      (post_src_get_version_task answers (record c { sink_collab_version = version })).0
on_data_recv answers (sink_start_recv read) c =
    if_read answers read c (post_sink_start_task answers c).0
on_data_recv answers (notify_result_recv read cmd) c =
    if_read answers read c (post_src_result_task answers cmd c).0
on_data_recv answers (disconnect_recv read) c =
    let (c', code, effects) = clean_up_session c in (c', effects)
on_data_recv answers (other_recv read) c = (c, [])
