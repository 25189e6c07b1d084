-- ===== src/AbilityManager/Clients/Registered/Refinement.antt =====
-- The calls of the service refine the abstract view of the tokens.

use dmsfwk.Prelude.{ℕ, ◌<◌, refl, Option, none, some, List, [], ◌∷◌, arith}
use dmsfwk.AbilityManager.{
  Service, CbType, Task, submit, disconnect_task, device_connect_task, device_disconnect_task,
  start_device_manager_task, update_connect_status_task, notifier_died_task,
}
use dmsfwk.AbilityManager.Tokens.{max_token_num}
use dmsfwk.AbilityManager.Callbacks.{
  register_device_selection_callback, unregister_device_selection_callback, update_connect_status,
}
use dmsfwk.AbilityManager.Panel.{
  Answers, start_device_manager, disconnect_from_ability, on_ability_connect_done,
  on_ability_disconnect_done, on_device_connect, on_device_disconnect, on_device_cancel,
}
use dmsfwk.AbilityManager.Tasks.{
  run_task, run_next, take_task, query_token_by_notifier, forget_found, Call, registers,
  unregisters, registers_callback, unregisters_callback, updates_status, starts, connect_done,
  disconnect_done, selects, deselects, cancels, dies, runs, step,
}
use dmsfwk.AbilityManager.Clients.{IsValid}
use dmsfwk.AbilityManager.Clients.Registered.{
  view, view, kept, IsAllowed, IsSpread, Refines, kept-Refines, register-Refines, forget-Refines,
  unregister-Refines,
}
use dmsfwk.AbilityManager.Clients.Registered.Untouched.{
  IsSame, registers_callback-IsSame, unregisters_callback-IsSame, updates_status-IsSame,
  starts-IsSame, schedule-IsSame, on_device-IsSame, on_device_cancel-IsSame, disconnect-IsSame,
}

same-Refines :
    (s s' : Service) (call : Call)
    → IsSpread s.token s.token_map
    → IsAllowed call (view s) kept
    → IsSame s s'
    → Refines call s s'.token s'.token_map
same-Refines s s' call spread allowed same = kept-Refines s s' call spread allowed same.0 same.1

forget_found-Refines :
    (s : Service) (answers : Answers) (found : Option ℕ)
    → IsValid s
    → IsSpread s.token s.token_map
    → Refines (runs answers) s (forget_found found s).0.token (forget_found found s).0.token_map
forget_found-Refines s answers none h spread =
    same-Refines s s (runs answers) spread tt (refl, refl)
forget_found-Refines s answers (some token) h spread =
    forget-Refines s (runs answers) token h spread tt

run_task-Refines :
    (answers : Answers) (task : Task) (s : Service)
    → IsValid s
    → IsSpread s.token s.token_map
    → Refines
        (runs answers)
        s
        (run_task answers task s).0.token
        (run_task answers task s).0.token_map
unfolding run_task
run_task-Refines answers disconnect_task s h spread =
    same-Refines s ((disconnect_from_ability answers s).0) (runs answers) spread tt
      (disconnect-IsSame answers s)
run_task-Refines answers (device_connect_task n results) s h spread =
    same-Refines s s (runs answers) spread tt (refl, refl)
run_task-Refines answers (device_disconnect_task n results) s h spread =
    same-Refines s s (runs answers) spread tt (refl, refl)
run_task-Refines answers (start_device_manager_task proxy token params) s h spread =
    same-Refines s s (runs answers) spread tt (refl, refl)
run_task-Refines answers (update_connect_status_task proxy token status) s h spread =
    same-Refines s s (runs answers) spread tt (refl, refl)
run_task-Refines answers (notifier_died_task n) s h spread =
    forget_found-Refines s answers (query_token_by_notifier n s.callback_map) h spread

take_task-Refines :
    (tasks : List Task) (answers : Answers) (s : Service)
    → IsValid s
    → IsSpread s.token s.token_map
    → Refines
        (runs answers)
        s
        (take_task tasks answers s).0.token
        (take_task tasks answers s).0.token_map
take_task-Refines [] answers s h spread = same-Refines s s (runs answers) spread tt (refl, refl)
take_task-Refines (task ∷ tasks) answers s h spread =
    run_task-Refines answers task (record s { queue = tasks }) h spread

-- In a valid state whose tokens are the callers' own, and not yet at the last number, every call of the
-- service refines the abstract view, who has which token: the new map shows an allowed change of the
-- old view (a token of nobody's for a caller that registers, the caller's own token away for one that
-- unregisters, at most one away for a task, nothing for the others), and the tokens stay the callers'
-- own.
pub step-Refines :
    (s : Service) (call : Call)
    → IsValid s
    → IsSpread s.token s.token_map
    → s.token < max_token_num
    → Refines call s (step s call).token (step s call).token_map
unfolding step run_next on_device_connect on_device_disconnect on_ability_connect_done
    on_ability_disconnect_done
step-Refines s (registers caller params) h spread below =
    register-Refines s caller params h spread below
step-Refines s (unregisters caller token) h spread below =
    unregister-Refines s caller token h spread
step-Refines s (registers_callback caller token type n) h spread below =
    same-Refines s ((register_device_selection_callback s caller token type n).0)
      (registers_callback caller token type n) spread tt
      (registers_callback-IsSame s caller token type n)
step-Refines s (unregisters_callback caller token type) h spread below =
    same-Refines s ((unregister_device_selection_callback s caller token type).0)
      (unregisters_callback caller token type) spread tt
      (unregisters_callback-IsSame s caller token type)
step-Refines s (updates_status caller token device status) h spread below =
    same-Refines s ((update_connect_status s caller token device status).0)
      (updates_status caller token device status) spread tt
      (updates_status-IsSame s caller token device status)
step-Refines s (starts answers caller token params) h spread below =
    same-Refines s ((start_device_manager answers s caller token params).0)
      (starts answers caller token params) spread tt (starts-IsSame answers s caller token params)
step-Refines s (connect_done proxy token params) h spread below =
    same-Refines s (on_ability_connect_done s proxy token params) (connect_done proxy token params)
      spread tt (schedule-IsSame s (some proxy) token params)
step-Refines s (disconnect_done token params) h spread below =
    same-Refines s (on_ability_disconnect_done s token params) (disconnect_done token params) spread
      tt (schedule-IsSame s none token params)
step-Refines s (selects token results) h spread below =
    same-Refines s ((on_device_connect s token results).0) (selects token results) spread tt
      (on_device-IsSame CbType.event_connect (λ n. device_connect_task n results) s token)
step-Refines s (deselects token results) h spread below =
    same-Refines s ((on_device_disconnect s token results).0) (deselects token results) spread tt
      (on_device-IsSame CbType.event_disconnect (λ n. device_disconnect_task n results) s token)
step-Refines s cancels h spread below =
    same-Refines s ((on_device_cancel s).0) cancels spread tt (on_device_cancel-IsSame s)
step-Refines s (dies n) h spread below =
    same-Refines s ((submit (notifier_died_task n) s).0) (dies n) spread tt (ground arith)
step-Refines s (runs answers) h spread below = take_task-Refines s.queue answers s h spread
