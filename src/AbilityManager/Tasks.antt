-- ===== src/AbilityManager/Tasks.antt =====
-- The tasks of `continuationHandler_`, which runs them one after another, and the calls of the service.
-- Writing to a parcel is taken to succeed.
use Prim.Native.String.{String}
use dmsfwk.Prelude.{
  ℕ, Bool, false, ◌||◌, Option, none, some, List, [], ◌∷◌, ◌==◌, lookup, if◌then◌else◌,
}
use dmsfwk.AbilityManager.{
  Sent, CbType, ConnectStatusInfo, NotifierInfo, ContinuationExtraParams, Task, disconnect_task,
  device_connect_task, device_disconnect_task, start_device_manager_task,
  update_connect_status_task, notifier_died_task, Service, Effect, submit,
}
use dmsfwk.AbilityManager.Tokens.{register, unregister, forget}
use dmsfwk.AbilityManager.Callbacks.{
  register_device_selection_callback, unregister_device_selection_callback, update_connect_status,
}
use dmsfwk.AbilityManager.Panel.{
  Answers, start_device_manager, disconnect_from_ability, on_ability_connect_done,
  on_ability_disconnect_done, on_device_connect, on_device_disconnect, on_device_cancel,
}

abbrev pub is_same : ℕ → Option ℕ → Bool
is_same n none = false
is_same n (some m) = m == n

-- `QueryNotifier`
abbrev pub query_notifier : ℕ → NotifierInfo → Bool
query_notifier n info = is_same n info.connect_notifier || is_same n info.disconnect_notifier

-- The first token with the notifier, in the order of the map.
unfoldable pub query_token_by_notifier : ℕ → List (ℕ × NotifierInfo) → Option ℕ
query_token_by_notifier n [] = none
query_token_by_notifier n ((token, info) ∷ m) =
    if query_notifier n info then some token else query_token_by_notifier n m

-- `ProcessNotifierDied` for a notifier that is still there
abbrev pub process_notifier_died : ℕ → Service → Service
process_notifier_died notifier s = (submit (notifier_died_task notifier) s).0

abbrev pub status_there : Option NotifierInfo → Option ConnectStatusInfo
status_there none = none
status_there (some info) = info.connect_status_info

abbrev pub forget_found : Option ℕ → Service → Service × List Effect
forget_found none s = (s, [])
forget_found (some token) s = forget token s

unfoldable pub run_task : Answers → Task → Service → Service × List Effect
unfolding query_token_by_notifier
run_task answers disconnect_task s =
    let (s', code, effects) = disconnect_from_ability answers s in (s', effects)
run_task answers (device_connect_task n results) s = (s, Effect.on_device_connect n results ∷ [])
run_task answers (device_disconnect_task n results) s =
    (s, Effect.on_device_disconnect n results ∷ [])
run_task answers (start_device_manager_task proxy token params) s = (
  s,
  Effect.start_device_manager proxy token params (status_there (lookup token s.callback_map)) ∷ [],
)
run_task answers (update_connect_status_task proxy token status) s =
    (s, Effect.update_connect_status proxy token status ∷ [])
run_task answers (notifier_died_task n) s =
    forget_found (query_token_by_notifier n s.callback_map) s

abbrev pub take_task : List Task → Answers → Service → Service × List Effect
take_task [] answers s = (s, [])
take_task (task ∷ tasks) answers s = run_task answers task (record s { queue = tasks })

-- The queue takes its first task.
unfoldable pub run_next : Answers → Service → Service × List Effect
run_next answers s = take_task s.queue answers s

-- What the service may be asked, by a caller with its access token, the panel, or the system.
pub data Call : Type 0 where
  registers : ℕ → Option ContinuationExtraParams → Call
  unregisters : ℕ → ℕ → Call
  registers_callback : ℕ → ℕ → CbType → ℕ → Call
  unregisters_callback : ℕ → ℕ → CbType → Call
  updates_status : ℕ → ℕ → String → Sent → Call
  starts : Answers → ℕ → ℕ → Option ContinuationExtraParams → Call
  connect_done : ℕ → ℕ → Option ContinuationExtraParams → Call
  disconnect_done : ℕ → Option ContinuationExtraParams → Call
  selects deselects : ℕ → List ℕ → Call
  cancels : Call
  dies : ℕ → Call
  runs : Answers → Call

unfoldable pub step : Service → Call → Service
step s (registers caller params) = (register s caller params).0.0
step s (unregisters caller token) = (unregister s caller token).0
step s (registers_callback caller token type n) =
    (register_device_selection_callback s caller token type n).0
step s (unregisters_callback caller token type) =
    (unregister_device_selection_callback s caller token type).0
step s (updates_status caller token device status) =
    (update_connect_status s caller token device status).0
step s (starts answers caller token params) = (start_device_manager answers s caller token params).0
step s (connect_done proxy token params) = on_ability_connect_done s proxy token params
step s (disconnect_done token params) = on_ability_disconnect_done s token params
step s (selects token results) = (on_device_connect s token results).0
step s (deselects token results) = (on_device_disconnect s token results).0
step s cancels = (on_device_cancel s).0
step s (dies n) = process_notifier_died n s
step s (runs answers) = (run_next answers s).0
