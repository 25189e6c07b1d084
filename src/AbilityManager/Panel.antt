-- ===== src/AbilityManager/Panel.antt =====
-- The panel that selects devices: `StartDeviceManager`, the connection to the panel's application, and
-- what the panel reports through app_device_callback_stub.cpp and app_connection_stub.cpp.
use dmsfwk.Prelude.{ℕ, Bool, not, Option, none, some, List, [], ◌∷◌, lookup, if◌then◌else◌}
use dmsfwk.AbilityManager.{
  Code, err_ok, invalid_continuation_mode, token_has_not_registered, callback_has_not_registered,
  err_null_object, connect_ability_failed, disconnect_ability_failed, invalid_parameters_err,
  ContinuationExtraParams, CbType, event_connect, event_disconnect, Task, device_connect_task,
  device_disconnect_task, start_device_manager_task, Service, connect_ability, disconnect_ability,
  Result, failed_with, submit, handle_disconnect_ability, are_params_valid,
}
use dmsfwk.AbilityManager.Tokens.{is_token_registered}
use dmsfwk.AbilityManager.Callbacks.{is_notifier_registered, is_there, notifier_of}

-- What the calls answer: whether there is an active account and an extension for the panel, and the
-- codes of the ability manager.
pub record Answers : Type 0 where
  pub query_active_account : Bool
  pub query_extension_ability_info : Bool
  pub client_connect : Code
  pub connect_ability_ret : Code
  pub disconnect_ability_ret : Code

-- `HandleStartDeviceManager`, where there is a panel
abbrev pub handle_start_device_manager : ℕ → ℕ → Option ContinuationExtraParams → Service → Service
handle_start_device_manager proxy token params s =
    (submit (start_device_manager_task proxy token params) s).0

-- The connection that a failure of `Connect` leaves, or that `ConnectAbility` uses.
abbrev pub pending : ℕ → Option ContinuationExtraParams → Service → Service
pending token params s = elim s.connect [
  | none ↦ record s { connect = some (token, params) }
  | some c ↦ s
]

-- `ConnectAbility`
unfoldable pub connect_to_ability : Answers → Service → ℕ → Option ContinuationExtraParams → Result
connect_to_ability answers s token params =
    if not answers.query_active_account
    then failed_with s invalid_parameters_err
    else if not answers.query_extension_ability_info
    then failed_with s connect_ability_failed
    else elim answers.client_connect [
      | err_ok ↦ elim answers.connect_ability_ret [
        | err_ok ↦ (pending token params s, err_ok, connect_ability ∷ [])
        | failed ↦ (record s { connect = none }, connect_ability_failed, connect_ability ∷ [])
      ]
      | failed ↦ (pending token params s, failed, [])
    ]

abbrev pub as_connect_failed : Result → Result
as_connect_failed (s, err_ok, effects) = (s, err_ok, effects)
as_connect_failed (s, failed, effects) = (s, connect_ability_failed, effects)

unfoldable pub start_device_manager :
    Answers → Service → ℕ → ℕ → Option ContinuationExtraParams → Result
unfolding connect_to_ability
start_device_manager answers s access_token token params =
    if not (are_params_valid params)
    then failed_with s invalid_continuation_mode
    else if not (is_token_registered s access_token token)
    then failed_with s token_has_not_registered
    else if not (is_notifier_registered s token)
    then failed_with s callback_has_not_registered
    else elim s.app_proxy [
      | some proxy ↦ (handle_start_device_manager proxy token params s, err_ok, [])
      | none ↦ as_connect_failed (connect_to_ability answers s token params)
    ]

unfoldable pub disconnect_from_ability : Answers → Service → Result
disconnect_from_ability answers s = elim s.connect [
  | none ↦ failed_with s err_null_object
  | some c ↦ elim answers.client_connect [
    | err_ok ↦ elim answers.disconnect_ability_ret [
      | err_ok ↦ (record s { connect = none }, err_ok, disconnect_ability ∷ [])
      | failed ↦ (record s { connect = none }, disconnect_ability_failed, disconnect_ability ∷ [])
    ]
    | failed ↦ failed_with s failed
  ]
]

-- `ScheduleStartDeviceManager`, for the connection that is done (`some`) or gone (`none`)
unfoldable pub schedule_start_device_manager :
    Service → Option ℕ → ℕ → Option ContinuationExtraParams → Service
schedule_start_device_manager s none token params = record s { app_proxy = none }
schedule_start_device_manager s (some proxy) token params =
    handle_start_device_manager proxy token params (record s { app_proxy = some proxy })

-- The connection's own token and parameters, which outlive `connect_`.
unfoldable pub on_ability_connect_done : Service → ℕ → ℕ → Option ContinuationExtraParams → Service
unfolding schedule_start_device_manager
on_ability_connect_done s proxy token params =
    schedule_start_device_manager s (some proxy) token params

unfoldable pub on_ability_disconnect_done : Service → ℕ → Option ContinuationExtraParams → Service
unfolding schedule_start_device_manager
on_ability_disconnect_done s token params = schedule_start_device_manager s none token params

-- `HandleDeviceConnect` and `HandleDeviceDisconnect`
abbrev pub handle_device : Option ℕ → (ℕ → Task) → Service → Result
handle_device none task s = failed_with s invalid_parameters_err
handle_device (some notifier) task s =
    let (s', submitted) = submit (task notifier) s in
    if submitted then (s', err_ok, []) else failed_with s' invalid_parameters_err

unfoldable pub on_device : CbType → (ℕ → Task) → Service → ℕ → Result
on_device type task s token =
    let (s', submitted) = handle_disconnect_ability s in
    let notifier = notifier_of type (lookup token s'.callback_map) in
    if not submitted
    then failed_with s' disconnect_ability_failed
    else if not (is_there notifier)
    then failed_with s' callback_has_not_registered
    else handle_device notifier task s'

unfoldable pub on_device_connect : Service → ℕ → List ℕ → Result
unfolding on_device
on_device_connect s token results =
    on_device event_connect (λ notifier. device_connect_task notifier results) s token

unfoldable pub on_device_disconnect : Service → ℕ → List ℕ → Result
unfolding on_device
on_device_disconnect s token results =
    on_device event_disconnect (λ notifier. device_disconnect_task notifier results) s token

unfoldable pub on_device_cancel : Service → Result
on_device_cancel s =
    let (s', submitted) = handle_disconnect_ability s in
    if submitted then (s', err_ok, []) else failed_with s' disconnect_ability_failed
