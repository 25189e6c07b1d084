-- ===== src/AbilityManager/Clients/Registered/Exclusive.antt =====
-- What the refinement means to the callers: nobody gets the token of another.

use dmsfwk.Prelude.{
  ℕ, suc, ◌+◌, ◌≤◌, ◌≡◌, ◌≢◌, refl, true, false, List, [], ◌∷◌, length, lookup, arith, Ascending,
}
use dmsfwk.AbilityManager.{Service}
use dmsfwk.AbilityManager.Tokens.{max_token_num}
use dmsfwk.AbilityManager.Tokens.Registration.{has_token, is_held-has_token}
use dmsfwk.AbilityManager.Tokens.Unique.{IsUnique}
use dmsfwk.AbilityManager.Tasks.{Call, step}
use dmsfwk.AbilityManager.Clients.{IsValid}
use dmsfwk.AbilityManager.Clients.Steps.{step-IsValid}
use dmsfwk.AbilityManager.Clients.Registered.{IsSpread}
use dmsfwk.AbilityManager.Clients.Registered.Refinement.{step-Refines}

-- The service after the calls, one after another.
abbrev pub run_calls : Service → List Call → Service
run_calls s [] = s
run_calls s (call ∷ calls) = run_calls (step s call) calls

run_calls_lem :
    (s : Service) (calls : List Call)
    → IsValid s
    → IsSpread s.token s.token_map
    → s.token + length calls ≤ max_token_num
    → IsValid (run_calls s calls) × IsSpread (run_calls s calls).token (run_calls s calls).token_map
run_calls_lem s [] h spread few = (h, spread)
run_calls_lem s (call ∷ calls) h spread few =
    let r = step-Refines s call h spread (omega (arith, few)) in
    run_calls_lem (step s call) calls (step-IsValid s call h) r.3 (omega (arith, few, r.4))

unique-has_token :
    (a b t n : ℕ) (m : List (ℕ × List ℕ))
    → Ascending n m
    → IsUnique m
    → a ≢ b
    → has_token a t m ≡ true
    → has_token b t m ≡ false
unfolding lookup
unique-has_token a b t n [] h u d e = refl
unique-has_token a b t n ((k, ts) ∷ m) h u d e = ground (
  arith,
  unique-has_token a b t (suc k) m h.1 u.1 d,
  u.0 t,
  is_held-has_token a t m,
  is_held-has_token b t m,
)

-- From a valid state whose tokens are the callers' own, after at most as many calls as numbers are left,
-- of any kind and in any order, a token that one caller has is not another caller's.
pub run_calls-exclusive :
    (s : Service) (calls : List Call) (a b t : ℕ)
    → IsValid s
    → IsSpread s.token s.token_map
    → s.token + length calls ≤ max_token_num
    → a ≢ b
    → has_token a t (run_calls s calls).token_map ≡ true
    → has_token b t (run_calls s calls).token_map ≡ false
run_calls-exclusive s calls a b t h spread few d e =
    let (valid, apart) = run_calls_lem s calls h spread few in
    unique-has_token a b t 0 (run_calls s calls).token_map valid.2 apart.0 d e
