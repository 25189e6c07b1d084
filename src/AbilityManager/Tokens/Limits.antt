-- ===== src/AbilityManager/Tokens/Limits.antt =====
-- The lists of the callers have at most `MAX_REGISTER_NUM` tokens, and are not empty.
use dmsfwk.Prelude.{
  length, length-append, ℕ, ◌≤◌, ◌<◌, List, [], ◌∷◌, ◌++◌, lookup, insert, arith, length,
  length-append,
}
use dmsfwk.AbilityManager.Tokens.{or_empty, add_token, remove_if, remove_token, max_register_num}

-- The lists of the callers are not empty, and no longer than the limit.
abbrev pub IsLimited : List (ℕ × List ℕ) → Type 0
IsLimited [] = Unit {0}
IsLimited ((k, ts) ∷ m) = (1 ≤ length ts) × (length ts ≤ max_register_num) × IsLimited m

length-remove_if : (token : ℕ) (ts : List ℕ) → length (remove_if token ts) ≤ length ts
unfolding remove_if
length-remove_if token [] = omega arith
length-remove_if token (x ∷ ts) = ground (arith, length-remove_if token ts)

insert-IsLimited :
    (caller : ℕ) (ts : List ℕ) (m : List (ℕ × List ℕ))
    → 1 ≤ length ts
    → length ts ≤ max_register_num
    → IsLimited m
    → IsLimited (insert caller ts m)
unfolding insert
insert-IsLimited caller ts [] a b h = (a, b, tt)
insert-IsLimited caller ts ((k, us) ∷ m) a b h =
    ground (arith, insert-IsLimited caller ts m a b h.2)

pub add_token-IsLimited :
    (caller new : ℕ) (m : List (ℕ × List ℕ))
    → IsLimited m
    → length (or_empty (lookup caller m)) < max_register_num
    → IsLimited (add_token caller new m)
unfolding add_token
add_token-IsLimited caller new m h a =
    let e = length-append (or_empty (lookup caller m)) (new ∷ []) in
    insert-IsLimited caller (or_empty (lookup caller m) ++ new ∷ []) m (omega (arith, e))
      (omega (arith, e)) h

pub remove_token-IsLimited :
    (token : ℕ) (m : List (ℕ × List ℕ)) → IsLimited m → IsLimited (remove_token token m)
unfolding remove_token
remove_token-IsLimited token [] h = tt
remove_token-IsLimited token ((k, ts) ∷ m) h =
    ground (arith, remove_token-IsLimited token m h.2, length-remove_if token ts)
