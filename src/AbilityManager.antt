-- ===== src/AbilityManager.antt =====
-- services/dtbabilitymgr/src/distributed_ability_manager_service.cpp: the continuation manager, where
-- an application registers a token, callbacks for the token, and opens the panel that selects devices.
-- The account, bundle and ability managers are parameters: what they answer to a call. Numbers stand
-- for the remote objects (notifiers and the panel's proxy), which are never null where a call of the
-- stub hands them over.
pub mod Tokens
pub mod Callbacks
pub mod Panel
pub mod Tasks
pub mod Clients
use Prim.Native.String.{String}
use dmsfwk.Prelude.{
  ℕ, Bool, true, false, Option, none, some, List, [], ◌∷◌, ◌++◌, leb, if◌then◌else◌,
}

pub data Code : Type 0 where
  err_ok invalid_continuation_mode register_exceed_max_times token_has_not_registered : Code
  unknown_callback_type callback_has_registered callback_has_not_registered : Code
  err_null_object invalid_connect_status connect_ability_failed disconnect_ability_failed : Code
  invalid_parameters_err : Code
  -- any code of another component but `ERR_OK`
  other : ℕ → Code

-- What a caller sends for an enumeration: a number, or one below zero.
pub data Sent : Type 0 where
  value : ℕ → Sent
  below_zero : Sent

pub record ContinuationExtraParams : Type 0 where
  pub continuation_mode : Sent

-- `EVENT_CONNECT`, `EVENT_DISCONNECT`, or another text
pub data CbType : Type 0 where
  event_connect event_disconnect unknown : CbType

pub record ConnectStatusInfo : Type 0 where
  pub device_id : String
  pub device_connect_status : ℕ

-- The notifiers by the type of the callback.
pub record NotifierInfo : Type 0 where
  pub connect_notifier : Option ℕ
  pub disconnect_notifier : Option ℕ
  pub connect_status_info : Option ConnectStatusInfo

-- What waits in the queue of `continuationHandler_`, with the values that the lambda captures.
pub data Task : Type 0 where
  disconnect_task : Task
  device_connect_task device_disconnect_task : ℕ → List ℕ → Task
  start_device_manager_task : ℕ → ℕ → Option ContinuationExtraParams → Task
  update_connect_status_task : ℕ → ℕ → ConnectStatusInfo → Task
  notifier_died_task : ℕ → Task

pub record Service : Type 0 where
  pub token : ℕ
  pub token_map : List (ℕ × List ℕ)
  pub callback_map : List (ℕ × NotifierInfo)
  -- the token and the parameters of `connect_`
  pub connect : Option (ℕ × Option ContinuationExtraParams)
  pub app_proxy : Option ℕ
  pub has_handler : Bool
  pub queue : List Task

pub data Effect : Type 0 where
  -- `SetParameter` of the token
  set_parameter : ℕ → Effect
  add_death_recipient remove_death_recipient : ℕ → Effect
  connect_ability disconnect_ability : Effect
  -- the calls of a notifier
  on_device_connect on_device_disconnect : ℕ → List ℕ → Effect
  -- the requests to the panel
  start_device_manager : ℕ → ℕ → Option ContinuationExtraParams → Option ConnectStatusInfo → Effect
  update_connect_status : ℕ → ℕ → ConnectStatusInfo → Effect

-- The new state, the code and the effects, in order.
abbrev pub Result : Type 0
Result = Service × Code × List Effect

abbrev pub failed_with : Service → Code → Result
failed_with s code = (s, code, [])

-- `continuationHandler_->submit`, if the queue is there.
abbrev pub submit : Task → Service → Service × Bool
submit task s =
    if s.has_handler then (record s { queue = s.queue ++ task ∷ [] }, true) else (s, false)

-- `HandleDisconnectAbility`
abbrev pub handle_disconnect_ability : Service → Service × Bool
handle_disconnect_ability s = submit disconnect_task s

-- `COLLABORATION_SINGLE` is 0 and `COLLABORATION_MUTIPLE` 1.
abbrev pub is_continuation_mode_valid : Sent → Bool
is_continuation_mode_valid (value mode) = leb mode 1
is_continuation_mode_valid below_zero = false

-- `IDLE` is 0 and `DISCONNECTING` 3.
abbrev pub is_connect_status_valid : Sent → Bool
is_connect_status_valid (value status) = leb status 3
is_connect_status_valid below_zero = false

abbrev pub are_params_valid : Option ContinuationExtraParams → Bool
are_params_valid none = true
are_params_valid (some params) = is_continuation_mode_valid params.continuation_mode
