-- ===== src/Continue/Execute.antt =====
-- dsched_continue.cpp: what a continuation does for an event, once its state has admitted it.
use dmsfwk.Prelude.{
  none, some, Bool, true, false, not, ◌&&◌, List, [], ◌∷◌, ◌++◌, ◌==◌, if◌then◌else◌,
}
use dmsfwk.Continue.{
  StateType, Direction, SubService, Code, Continue, Effect, Answers, Result, update_state,
  post_continue_end_task, ability_state, source_wait_end_state, source_end_state, data_state,
  sink_wait_end_state, sink_end_state, source, sink, pull, push, err_ok, invalid_parameters_err,
  continue_call_continue_ability_failed, invalid_remote_parameters_err,
  remote_device_bind_ability_err, no_mission_info_for_mission_id, mission_not_continue_active,
  dms_get_window_failed_from_scb, start_cmd, data_cmd, reply_start_cmd, reply_end_cmd, end_cmd,
  quick_start_ability, connect_device, disconnect_device, send, continue_ability, start_ability,
  clean_mission, notify_result, continue_end,
}

unfoldable pub execute_continue_req : Answers → Continue → Result
execute_continue_req answers c = elim answers.connect_device_ret [
  | err_ok ↦ elim answers.pack_start_cmd [
    | err_ok ↦ elim answers.send_command [
      | err_ok ↦ (connected, err_ok, before ++ connect_device ∷ send start_cmd ∷ [])
      | failed ↦ (c, failed, before ++ connect_device ∷ send start_cmd ∷ [])
    ]
    | failed ↦ (c, failed, before ++ connect_device ∷ [])
  ]
  | failed ↦ (c, failed, before ++ connect_device ∷ [])
]
  where
    before : List Effect
    before = elim c.sub_service [
      | pull ↦ if answers.check_quick_start_configuration then quick_start_ability ∷ [] else []
      | push ↦ []
    ]

    connected : Continue
    connected = elim c.direction [ source ↦ c | sink ↦ update_state data_state c ]

-- With the build option for missions. The answer is what the number then holds.
abbrev pub get_mission_id_by_bundle_name : Answers → Continue → Continue × Code
get_mission_id_by_bundle_name answers c =
    if c.mission_id == 0
    then (record c { mission_id = answers.get_mission_id.1 }, answers.get_mission_id.0)
    else (c, err_ok)

abbrev pub check_continue_ability_permission : Answers → Code
check_continue_ability_permission answers =
    if answers.check_bundle_continue_config
    then elim answers.get_mission_info [
      | err_ok ↦ if answers.is_continue_active then err_ok else mission_not_continue_active
      | failed ↦ no_mission_info_for_mission_id
    ]
    else remote_device_bind_ability_err

unfoldable pub execute_continue_ability : Answers → Continue → Result
execute_continue_ability answers c =
    let (c', found) = get_mission_id_by_bundle_name answers c in
    elim found [
      | err_ok ↦ elim (check_continue_ability_permission answers) [
        | err_ok ↦ elim answers.continue_ability_ret [
          | err_ok ↦ (update_state ability_state c', err_ok, continue_ability ∷ [])
          | failed ↦ (c', continue_call_continue_ability_failed, continue_ability ∷ [])
        ]
        | failed ↦ (c', failed, [])
      ]
      | failed ↦ (c', failed, [])
    ]

unfoldable pub execute_continue_reply : Answers → Continue → Result
execute_continue_reply answers c = elim answers.get_local_bundle_info [
  | err_ok ↦ elim answers.send_command [
    | err_ok ↦ (update_state data_state c, err_ok, send reply_start_cmd ∷ [])
    | failed ↦ (c, failed, send reply_start_cmd ∷ [])
  ]
  | failed ↦ (c, invalid_parameters_err, [])
]

-- `SetCleanMissionFlag`
abbrev pub set_clean_mission_flag : Answers → Continue → Continue
set_clean_mission_flag answers c = elim answers.get_source_exit [
  | none ↦ c
  | some b ↦ record c { is_source_exit = b }
]

-- The checks of `ExecuteContinueSend`, in order.
unfoldable pub check_continue_send : Answers → Code
check_continue_send answers =
    if not answers.has_continuation_flag
    then invalid_remote_parameters_err
    else elim answers.set_want_for_continuation [
      | err_ok ↦
          if not answers.get_caller_app_id
          then invalid_parameters_err
          else if not answers.get_bundle_name_list
          then invalid_parameters_err
          else answers.get_account_info
      | failed ↦ invalid_parameters_err
    ]

unfoldable pub execute_continue_send : Answers → Bool → Continue → Result
unfolding check_continue_send
execute_continue_send answers has_data c =
    let c' = set_clean_mission_flag answers c in
    if not has_data then (c, invalid_parameters_err, []) else elim (check_continue_send answers) [
      | err_ok ↦ elim answers.send_command [
        | err_ok ↦ (update_state source_wait_end_state c', err_ok, send data_cmd ∷ [])
        | failed ↦ (c', failed, send data_cmd ∷ [])
      ]
      | failed ↦ (c', failed, [])
    ]

unfoldable pub execute_start : Answers → Continue → Result
execute_start answers c = elim answers.start_ability_ret [
  | err_ok ↦ (update_state sink_wait_end_state c, err_ok, start_ability ∷ [])
  | failed ↦ (c, failed, start_ability ∷ [])
]

abbrev pub window_failed : Answers → Continue → Result
window_failed answers c =
    let (c', code) = post_continue_end_task answers dms_get_window_failed_from_scb c in
    (c', code, [])

abbrev pub is_pull : SubService → Bool
is_pull pull = true
is_pull push = false

unfoldable pub execute_continue_data : Answers → Bool → Continue → Result
execute_continue_data answers has_cmd c =
    if not has_cmd
    then (c, invalid_parameters_err, [])
    else if not (answers.get_local_device_id && answers.check_device_id_from_remote)
    then (c, invalid_remote_parameters_err, [])
    else elim answers.check_start_permission [
      | err_ok ↦
          if is_pull c.sub_service && answers.has_continue_session_id
          then elim answers.get_persistent_id.0 [
            | err_ok ↦ elim answers.get_persistent_id_again.0 [
              | err_ok ↦
                  execute_start answers
                    (record c { sink_mission_id = answers.get_persistent_id_again.1 })
              | failed ↦ window_failed answers c
            ]
            | failed ↦ window_failed answers c
          ]
          else execute_start answers c
      | failed ↦ (c, failed, [])
    ]

unfoldable pub execute_notify_complete : Answers → Code → Continue → Result
execute_notify_complete answers result c = elim c.direction [
  | sink ↦ elim answers.send_command [
    | err_ok ↦ (update_state sink_end_state c, err_ok, send (end_cmd result) ∷ [])
    | failed ↦ (c, failed, send (end_cmd result) ∷ [])
  ]
  | source ↦ elim answers.send_command [
    | err_ok ↦ (
      (post_continue_end_task answers result (update_state source_end_state c)).0,
      err_ok,
      send (reply_end_cmd result) ∷ [],
    )
    | failed ↦ (c, failed, send (reply_end_cmd result) ∷ [])
  ]
]

-- The side that connected the devices is the one that disconnects them.
abbrev pub has_connected : Direction → SubService → Bool
has_connected sink pull = true
has_connected source push = true
has_connected _ _ = false

abbrev pub cleaning : Code → Direction → Bool → List Effect
cleaning err_ok source true = clean_mission ∷ []
cleaning _ _ _ = []

unfoldable pub execute_continue_end : Code → Continue → Result
execute_continue_end result c = (
  c,
  err_ok,
  (if has_connected c.direction c.sub_service then disconnect_device ∷ [] else [])
      ++ (cleaning result c.direction c.is_source_exit ++ notify_result result ∷ continue_end ∷ []),
)

abbrev pub end_state : Direction → StateType
end_state source = source_end_state
end_state sink = sink_end_state

unfoldable pub execute_continue_error : Answers → Code → Continue → Result
execute_continue_error answers result c = (
  (post_continue_end_task answers result (update_state (end_state c.direction) c)).0,
  err_ok,
  send (end_cmd result) ∷ [],
)

-- `ExecuteQuickStartSuccess` and `ExecuteQuickStartFailed`: the notice, if the mission is known.
abbrev pub execute_quick_start : Answers → Effect → Continue → List Effect
execute_quick_start answers notice c =
    if c.sink_mission_id == 0
    then elim answers.quick_start_persistent_id [ err_ok ↦ notice ∷ [] | failed ↦ [] ]
    else notice ∷ []
