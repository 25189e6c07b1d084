-- ===== src/AbilityManager/Clients/Registered.antt =====
-- What the calls do to the set of the callers' tokens: the abstract view of the service.
pub mod Untouched
pub mod Refinement
pub mod Exclusive
pub mod Died
use dmsfwk.Prelude.{
  ℕ, suc, ◌+◌, ◌≤◌, ◌<◌, ◌≡◌, ◌≢◌, ◌⊎◌, refl, sym, inl, inr, Bool, true, false, not, ◌&&◌, ◌||◌,
  Option, none, some, List, [], ◌∷◌, ◌==◌, lookup, Bool-cases, Option-cases, if◌then◌else◌, arith,
  Ascending, insert,
}
use dmsfwk.AbilityManager.{
  Service, Task, ContinuationExtraParams, submit, are_params_valid, notifier_died_task,
}
use dmsfwk.AbilityManager.Tokens.{
  max_token_num, next_token, add_token, remove_token, register, forget, unregister,
  is_token_registered, is_exceeded_register_max_num,
}
use dmsfwk.AbilityManager.Tokens.Registration.{
  has_token, is_held, is_held-has_token, has_token-add_token,
}
use dmsfwk.AbilityManager.Tokens.Unique.{
  IsUnique, has_token-remove_token, is_held-remove_token_sub, remove_token-IsUnique,
  is_held-add_token_ne, add_token-IsUnique,
}
use dmsfwk.AbilityManager.Tasks.{
  forget_found, query_token_by_notifier, Call, registers, unregisters, registers_callback,
  unregisters_callback, updates_status, starts, connect_done, disconnect_done, selects, deselects,
  cancels, dies, runs, step,
}
use dmsfwk.AbilityManager.Clients.{IsValid}

-- Whether a caller has a token.
abbrev pub View : Type 0
View = ℕ → ℕ → Bool

abbrev pub view : Service → View
view s who t = has_token who t s.token_map

-- What may happen to the view.
pub data Change : Type 0 where
  kept : Change
  added : ℕ → ℕ → Change
  removed : ℕ → Change

abbrev pub after : Change → View → View
after kept v who t = v who t
after (added caller new) v who t = v who t || ((caller == who) && (new == t))
after (removed token) v who t = v who t && not (token == t)

-- What a call may do: `Register` adds a token that is nobody's, `Unregister` removes the caller's own
-- token, and only that, a task may remove one (its notifier died), and no other call changes the view.
abbrev pub IsAllowed : Call → View → Change → Type 0
IsAllowed (registers caller params) v kept = Unit {0}
IsAllowed (registers caller params) v (added who t) = (who ≡ caller) × ((c : ℕ) → v c t ≡ false)
IsAllowed (registers caller params) v (removed t) = true ≡ false
IsAllowed (unregisters caller token) v kept = v caller token ≡ false
IsAllowed (unregisters caller token) v (added who t) = true ≡ false
IsAllowed (unregisters caller token) v (removed t) = (t ≡ token) × (v caller token ≡ true)
IsAllowed (runs answers) v (added who t) = true ≡ false
IsAllowed (runs answers) v change = Unit {0}
IsAllowed call v kept = Unit {0}
IsAllowed call v change = true ≡ false

-- Held tokens are the callers' own, and no greater than the last one.
abbrev pub IsSpread : ℕ → List (ℕ × List ℕ) → Type 0
IsSpread last m = IsUnique m × ((t : ℕ) → last < t → is_held t m ≡ false)

-- The new tokens are those of an allowed change of the old ones.
abbrev pub Refines : Call → Service → ℕ → List (ℕ × List ℕ) → Type 0
Refines call s last m =
    (change : Change) × IsAllowed call (view s) change
    × ((who t : ℕ) → has_token who t m ≡ after change (view s) who t)
    × IsSpread last m
    × (last ≤ suc s.token)

nobody : (who t : ℕ) (m : List (ℕ × List ℕ)) → is_held t m ≡ false → has_token who t m ≡ false
nobody who t m e = ground (arith, is_held-has_token who t m)

remove_token-IsSpread :
    (token last n : ℕ) (s : Service)
    → IsValid s
    → IsSpread last s.token_map
    → IsSpread last (remove_token token s.token_map)
remove_token-IsSpread token last n s h spread = (
  remove_token-IsUnique token s.token_map h.1 spread.0,
  λ t above. is_held-remove_token_sub token t s.token_map (spread.1 t above),
)

add_token-IsSpread :
    (caller last : ℕ) (m : List (ℕ × List ℕ))
    → Ascending 0 m
    → IsSpread last m
    → IsSpread (suc last) (add_token caller (suc last) m)
add_token-IsSpread caller last m a spread = (
  add_token-IsUnique caller (suc last) 0 m a (spread.1 (suc last) (omega arith)) spread.0,
  λ t above.
      is_held-add_token_ne caller (suc last) t m (λ e. omega (arith, e, above))
        (spread.1 t (omega (arith, above))),
)

kept-Refines :
    (s s' : Service) (call : Call)
    → IsSpread s.token s.token_map
    → IsAllowed call (view s) kept
    → s'.token ≡ s.token
    → s'.token_map ≡ s.token_map
    → Refines call s s'.token s'.token_map
kept-Refines s s' call spread allowed t m =
    rw (t, m) (kept, allowed, (λ who t. refl), spread, omega arith)

register-cases :
    (s : Service) (caller : ℕ) (params : Option ContinuationExtraParams)
    → s.token < max_token_num
    → (((register s caller params).0.0.token ≡ s.token)
        × ((register s caller params).0.0.token_map ≡ s.token_map))
      ⊎ (((register s caller params).0.0.token ≡ suc s.token)
          × ((register s caller params).0.0.token_map ≡ add_token caller (suc s.token) s.token_map))
unfolding register
register-cases s caller params below =
    let next : next_token s.token ≡ suc s.token = ground arith in
    elim (Bool-cases (not (are_params_valid params))) [
      | inl bad ↦ inl (rw bad, rw bad)
      | inr good ↦ elim (Bool-cases (is_exceeded_register_max_num s caller)) [
        | inl full ↦ inl (rw (good, full), rw (good, full))
        | inr space ↦ inr (rw (good, space, next), rw (good, space, next))
      ]
    ]

register-Refines :
    (s : Service) (caller : ℕ) (params : Option ContinuationExtraParams)
    → IsValid s
    → IsSpread s.token s.token_map
    → s.token < max_token_num
    → Refines
        (registers caller params)
        s
        (register s caller params).0.0.token
        (register s caller params).0.0.token_map
register-Refines s caller params h spread below = elim (register-cases s caller params below) [
  | inl (t, m) ↦
      kept-Refines s ((register s caller params).0.0) (registers caller params) spread tt t m
  | inr (t, m) ↦
      rw (t, m)
        (
          added caller (suc s.token),
          (refl, λ c. nobody c (suc s.token) s.token_map (spread.1 (suc s.token) (omega arith))),
          (λ who t. has_token-add_token caller (suc s.token) who t s.token_map),
          add_token-IsSpread caller s.token s.token_map h.2 spread,
          omega arith,
        )
]

forget-token : (token : ℕ) (s : Service) → (forget token s).0.token ≡ s.token
unfolding forget
forget-token token s = ground arith

pub forget-token_map :
    (token : ℕ) (s : Service) → (forget token s).0.token_map ≡ remove_token token s.token_map
unfolding forget
forget-token_map token s = ground arith

forget-Refines :
    (s : Service) (call : Call) (token : ℕ)
    → IsValid s
    → IsSpread s.token s.token_map
    → IsAllowed call (view s) (removed token)
    → Refines call s (forget token s).0.token (forget token s).0.token_map
forget-Refines s call token h spread allowed =
    rw (forget-token token s, forget-token_map token s)
      (
        removed token,
        allowed,
        (λ who t. has_token-remove_token token who t 0 s.token_map h.2 h.1 spread.0),
        remove_token-IsSpread token s.token 0 s h spread,
        omega arith,
      )

unregister-Refines :
    (s : Service) (caller token : ℕ)
    → IsValid s
    → IsSpread s.token s.token_map
    → Refines
        (unregisters caller token)
        s
        (unregister s caller token).0.token
        (unregister s caller token).0.token_map
unfolding unregister is_token_registered
unregister-Refines s caller token h spread =
    elim (Bool-cases (has_token caller token s.token_map)) [
      | inl own ↦ rw own (forget-Refines s (unregisters caller token) token h spread (refl, own))
      | inr not_own ↦
          rw not_own (kept-Refines s s (unregisters caller token) spread not_own refl refl)
    ]
