-- ===== src/Tests/Selection.antt =====
-- The continuation manager at concrete inputs: two callers with a token each, one with a callback.
use dmsfwk.Prelude.{
  insert, ℕ, ◌≡◌, ◌≢◌, refl, true, false, none, some, [], ◌∷◌, ◌++◌, lookup, arith,
}
use dmsfwk.AbilityManager.{
  Service, NotifierInfo, notifier_died_task, err_ok, add_death_recipient, remove_death_recipient,
  event_disconnect,
}
use dmsfwk.AbilityManager.Tokens.{
  is_token_registered, forget, remove_token, add_token, register, is_exceeded_register_max_num,
}
use dmsfwk.AbilityManager.Tokens.Registration.{has_token}
use dmsfwk.AbilityManager.Callbacks.{notifier_of}
use dmsfwk.AbilityManager.Callbacks.Watching.{
  registered_once, registered_twice, taken_back, effects_of, taken_back-unwatched,
}
use dmsfwk.AbilityManager.Panel.{Answers}
use dmsfwk.AbilityManager.Tasks.{
  run_next, run_task, query_token_by_notifier, registers, unregisters, runs, step,
}
use dmsfwk.AbilityManager.Clients.{IsValid}
use dmsfwk.AbilityManager.Clients.Steps.{step-IsValid}
use dmsfwk.AbilityManager.Clients.Registered.{IsSpread, Refines}
use dmsfwk.AbilityManager.Clients.Registered.Refinement.{step-Refines}
use dmsfwk.AbilityManager.Clients.Registered.Exclusive.{run_calls, run_calls-exclusive}
use dmsfwk.AbilityManager.Clients.Registered.Died.{died-forgotten}

abbrev one_callback : NotifierInfo
one_callback = record {
  connect_notifier = some 70;
  disconnect_notifier = none;
  connect_status_info = none;
}

-- The callers 7 and 9 have the tokens 1 and 2.
abbrev two_callers : Service
two_callers = record {
  token = 2;
  token_map = (7, 1 ∷ []) ∷ (9, 2 ∷ []) ∷ [];
  callback_map = (1, one_callback) ∷ [];
  connect = none;
  app_proxy = none;
  has_handler = true;
  queue = notifier_died_task 70 ∷ [];
}

abbrev all_ok : Answers
all_ok = record {
  query_active_account = true;
  query_extension_ability_info = true;
  client_connect = err_ok;
  connect_ability_ret = err_ok;
  disconnect_ability_ret = err_ok;
}

two_callers-IsValid : IsValid two_callers
two_callers-IsValid = ground arith

two_callers-IsSpread : IsSpread two_callers.token two_callers.token_map
two_callers-IsSpread = (((λ t c. ground arith), ((λ t c. refl), tt)), λ t above. ground arith)

step-IsValid_example : IsValid (step two_callers (registers 7 none))
step-IsValid_example = step-IsValid two_callers (registers 7 none) two_callers-IsValid

step-Refines_example :
    Refines
      (unregisters 7 1)
      two_callers
      (step two_callers (unregisters 7 1)).token
      (step two_callers (unregisters 7 1)).token_map
step-Refines_example =
    step-Refines two_callers (unregisters 7 1) two_callers-IsValid two_callers-IsSpread
      (omega arith)

third_token :
    has_token 7 3 (run_calls two_callers (runs all_ok ∷ registers 7 none ∷ [])).token_map ≡ true
unfolding step run_next run_task forget remove_token lookup add_token register
    is_exceeded_register_max_num query_token_by_notifier insert
third_token = refl

run_calls-exclusive_example :
    has_token 9 3 (run_calls two_callers (runs all_ok ∷ registers 7 none ∷ [])).token_map ≡ false
run_calls-exclusive_example =
    run_calls-exclusive two_callers (runs all_ok ∷ registers 7 none ∷ []) 7 9 3 two_callers-IsValid
      two_callers-IsSpread (omega arith) (λ e. omega (arith, e)) third_token

found_first : query_token_by_notifier 70 two_callers.callback_map ≡ some 1
unfolding query_token_by_notifier
found_first = refl

died-forgotten_example :
    (lookup 1 (run_task all_ok (notifier_died_task 70) two_callers).0.callback_map ≡ none)
    × ((who : ℕ)
        → has_token who 1 (run_task all_ok (notifier_died_task 70) two_callers).0.token_map ≡ false)
    × ((t : ℕ)
        → 1 ≢ t
        → (lookup t (run_task all_ok (notifier_died_task 70) two_callers).0.callback_map
            ≡ lookup t two_callers.callback_map)
          × ((who : ℕ)
              → has_token who t (run_task all_ok (notifier_died_task 70) two_callers).0.token_map
                ≡ has_token who t two_callers.token_map))
died-forgotten_example =
    died-forgotten all_ok two_callers 70 1 two_callers-IsValid two_callers-IsSpread found_first

second_registered : is_token_registered two_callers 9 2 ≡ true
unfolding is_token_registered lookup
second_registered = refl

second_without : lookup 2 two_callers.callback_map ≡ none
unfolding lookup
second_without = refl

taken_back-unwatched_example :
    (effects_of (registered_once two_callers 9 2 90)
        ++ effects_of (registered_twice two_callers 9 2 90 91)
        ++ effects_of (taken_back two_callers 9 2 90 91)
      ≡ add_death_recipient 90 ∷ remove_death_recipient 90 ∷ [])
    × (notifier_of event_disconnect (lookup 2 (taken_back two_callers 9 2 90 91).0.callback_map)
        ≡ some 91)
taken_back-unwatched_example =
    taken_back-unwatched two_callers 9 2 90 91 second_registered second_without
