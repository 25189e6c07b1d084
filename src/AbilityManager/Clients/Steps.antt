-- ===== src/AbilityManager/Clients/Steps.antt =====
-- The invariant of the tokens and the callbacks over every call, those of the panel and of the queue too.
use dmsfwk.Prelude.{ℕ, Option, none, some, List, [], ◌∷◌, arith}
use dmsfwk.AbilityManager.{
  Service, Task, CbType, ContinuationExtraParams, disconnect_task, device_connect_task,
  device_disconnect_task, start_device_manager_task, update_connect_status_task, notifier_died_task,
}
use dmsfwk.AbilityManager.Panel.{
  Answers, connect_to_ability, start_device_manager, disconnect_from_ability,
  on_ability_connect_done, on_ability_disconnect_done, schedule_start_device_manager, on_device,
  on_device_connect, on_device_disconnect, on_device_cancel,
}
use dmsfwk.AbilityManager.Tasks.{
  run_task, run_next, take_task, query_token_by_notifier, forget_found, Call, registers,
  unregisters, registers_callback, unregisters_callback, updates_status, starts, connect_done,
  disconnect_done, selects, deselects, cancels, dies, runs, step,
}
use dmsfwk.AbilityManager.Clients.{
  IsValid, submit-IsValid, register-IsValid, unregister-IsValid, forget-IsValid,
  registers_callback-IsValid, unregisters_callback-IsValid, updates_status-IsValid,
}

connect_to_ability-IsValid :
    (answers : Answers) (s : Service) (token : ℕ) (params : Option ContinuationExtraParams)
    → IsValid s
    → IsValid (connect_to_ability answers s token params).0
unfolding connect_to_ability
connect_to_ability-IsValid answers s token params h = ground arith

start_device_manager-IsValid :
    (answers : Answers) (s : Service) (caller token : ℕ) (params : Option ContinuationExtraParams)
    → IsValid s
    → IsValid (start_device_manager answers s caller token params).0
unfolding start_device_manager
start_device_manager-IsValid answers s caller token params h =
    ground (arith, connect_to_ability-IsValid answers s token params h)

disconnect_from_ability-IsValid :
    (answers : Answers) (s : Service) → IsValid s → IsValid (disconnect_from_ability answers s).0
unfolding disconnect_from_ability
disconnect_from_ability-IsValid answers s h = ground arith

schedule-IsValid :
    (s : Service) (proxy : Option ℕ) (token : ℕ) (params : Option ContinuationExtraParams)
    → IsValid s
    → IsValid (schedule_start_device_manager s proxy token params)
unfolding schedule_start_device_manager
schedule-IsValid s none token params h = h
schedule-IsValid s (some proxy) token params h = ground arith

on_device-IsValid :
    (type : CbType) (task : ℕ → Task) (s : Service) (token : ℕ)
    → IsValid s
    → IsValid (on_device type task s token).0
unfolding on_device
on_device-IsValid type task s token h = ground arith

on_device_cancel-IsValid : (s : Service) → IsValid s → IsValid (on_device_cancel s).0
unfolding on_device_cancel
on_device_cancel-IsValid s h = ground arith

forget_found-IsValid :
    (found : Option ℕ) (s : Service) → IsValid s → IsValid (forget_found found s).0
forget_found-IsValid none s h = h
forget_found-IsValid (some token) s h = forget-IsValid token s h

run_task-IsValid :
    (answers : Answers) (task : Task) (s : Service)
    → IsValid s
    → IsValid (run_task answers task s).0
unfolding run_task
run_task-IsValid answers disconnect_task s h = disconnect_from_ability-IsValid answers s h
run_task-IsValid answers (device_connect_task n results) s h = h
run_task-IsValid answers (device_disconnect_task n results) s h = h
run_task-IsValid answers (start_device_manager_task proxy token params) s h = h
run_task-IsValid answers (update_connect_status_task proxy token status) s h = h
run_task-IsValid answers (notifier_died_task n) s h =
    forget_found-IsValid (query_token_by_notifier n s.callback_map) s h

take_task-IsValid :
    (tasks : List Task) (answers : Answers) (s : Service)
    → IsValid s
    → IsValid (take_task tasks answers s).0
take_task-IsValid [] answers s h = h
take_task-IsValid (task ∷ tasks) answers s h =
    run_task-IsValid answers task (record s { queue = tasks }) h

-- The invariant of the service holds after every call: the last token stays within the limit, the
-- callers' lists are not empty and no longer than the limit, both maps are ordered, and a token with
-- callbacks has at least one notifier and is held by a caller.
pub step-IsValid : (s : Service) (call : Call) → IsValid s → IsValid (step s call)
unfolding step run_next on_device_connect on_device_disconnect on_ability_connect_done
    on_ability_disconnect_done
step-IsValid s (registers caller params) h = register-IsValid s caller params h
step-IsValid s (unregisters caller token) h = unregister-IsValid s caller token h
step-IsValid s (registers_callback caller token type n) h =
    registers_callback-IsValid s caller token type n h
step-IsValid s (unregisters_callback caller token type) h =
    unregisters_callback-IsValid s caller token type h
step-IsValid s (updates_status caller token device status) h =
    updates_status-IsValid s caller token device status h
step-IsValid s (starts answers caller token params) h =
    start_device_manager-IsValid answers s caller token params h
step-IsValid s (connect_done proxy token params) h = schedule-IsValid s (some proxy) token params h
step-IsValid s (disconnect_done token params) h = schedule-IsValid s none token params h
step-IsValid s (selects token results) h =
    on_device-IsValid CbType.event_connect (λ n. device_connect_task n results) s token h
step-IsValid s (deselects token results) h =
    on_device-IsValid CbType.event_disconnect (λ n. device_disconnect_task n results) s token h
step-IsValid s cancels h = on_device_cancel-IsValid s h
step-IsValid s (dies n) h = submit-IsValid (notifier_died_task n) s h
step-IsValid s (runs answers) h = take_task-IsValid s.queue answers s h
