-- ===== src/AbilityManager/Clients/Registered/Died.antt =====
-- What is left of a token whose client died.

use dmsfwk.Prelude.{
  erase, lookup-erase_self, lookup-erase_ne, ℕ, ◌≡◌, ◌≢◌, false, none, some, lookup, arith,
}
use dmsfwk.AbilityManager.{Service, notifier_died_task}
use dmsfwk.AbilityManager.Tokens.{forget}
use dmsfwk.AbilityManager.Tokens.Registration.{has_token}
use dmsfwk.AbilityManager.Tokens.Unique.{has_token-remove_token}
use dmsfwk.AbilityManager.Panel.{Answers}
use dmsfwk.AbilityManager.Tasks.{run_task, query_token_by_notifier}
use dmsfwk.AbilityManager.Clients.{IsValid}
use dmsfwk.AbilityManager.Clients.Registered.{forget-token_map, IsSpread}

forget-callback_map :
    (token : ℕ) (s : Service) → (forget token s).0.callback_map ≡ erase token s.callback_map
unfolding forget
forget-callback_map token s = ground arith

-- In a valid state whose tokens are the callers' own, the death of a notifier that some token has,
-- once its task has run, leaves that token, the first one with the notifier, without callbacks and without
-- a holder, and each other token's callbacks and holders as they were.
pub died-forgotten :
    (answers : Answers) (s : Service) (n token : ℕ)
    → IsValid s
    → IsSpread s.token s.token_map
    → query_token_by_notifier n s.callback_map ≡ some token
    → (lookup token (run_task answers (notifier_died_task n) s).0.callback_map ≡ none)
      × ((who : ℕ)
          → has_token who token (run_task answers (notifier_died_task n) s).0.token_map ≡ false)
      × ((t : ℕ)
          → token ≢ t
          → (lookup t (run_task answers (notifier_died_task n) s).0.callback_map
              ≡ lookup t s.callback_map)
            × ((who : ℕ)
                → has_token who t (run_task answers (notifier_died_task n) s).0.token_map
                  ≡ has_token who t s.token_map))
unfolding run_task
died-forgotten answers s n token h spread e =
    rw (e, forget-callback_map token s, forget-token_map token s)
      (
        lookup-erase_self 0 token s.callback_map h.3,
        (λ who.
            let left = has_token-remove_token token who token 0 s.token_map h.2 h.1 spread.0 in
            ground (arith, left)),
        (λ t d. (
          lookup-erase_ne token t s.callback_map d,
          λ who.
              let left = has_token-remove_token token who t 0 s.token_map h.2 h.1 spread.0 in
              ground (arith, left),
        )),
      )
