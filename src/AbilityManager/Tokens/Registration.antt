-- ===== src/AbilityManager/Tokens/Registration.antt =====
-- Which tokens a caller has, before and after the calls that change them.
use dmsfwk.Prelude.{
  ==_iff, ℕ, ◌≡◌, ◌≢◌, refl, sym, inl, inr, Bool, true, false, not, ◌&&◌, ◌||◌, List, [], ◌∷◌, ◌++◌,
  ◌==◌, lookup, insert, lookup-insert_self, lookup-insert_ne, Bool-cases, arith,
}
use dmsfwk.AbilityManager.Tokens.{contains, or_empty, add_token, remove_if, remove_token}

-- Whether a caller has a token, in a map.
abbrev pub has_token : ℕ → ℕ → List (ℕ × List ℕ) → Bool
has_token caller token m = contains token (or_empty (lookup caller m))

or_false : (b : Bool) → (b || false) ≡ b
or_false true = refl
or_false false = refl

pub ==_ne : (a b : ℕ) → (a == b) ≡ false → a ≢ b
==_ne a b e = ground arith

pub contains-append :
    (t new : ℕ) (ts : List ℕ) → contains t (ts ++ new ∷ []) ≡ (contains t ts || (new == t))
contains-append t new [] = ground arith
contains-append t new (x ∷ ts) = ground (arith, contains-append t new ts)

pub contains-remove_if :
    (t token : ℕ) (ts : List ℕ)
    → contains t (remove_if token ts) ≡ (contains t ts && not (token == t))
unfolding remove_if
contains-remove_if t token [] = refl
contains-remove_if t token (x ∷ ts) = ground (arith, contains-remove_if t token ts)

-- The caller's list, and the others' lists.
own-add_token :
    (caller new : ℕ) (m : List (ℕ × List ℕ))
    → or_empty (lookup caller (add_token caller new m)) ≡ or_empty (lookup caller m) ++ new ∷ []
unfolding add_token
own-add_token caller new m =
    rw (lookup-insert_self caller (or_empty (lookup caller m) ++ new ∷ []) m)

other-add_token :
    (caller new who : ℕ) (m : List (ℕ × List ℕ))
    → caller ≢ who
    → lookup who (add_token caller new m) ≡ lookup who m
unfolding add_token
other-add_token caller new who m d =
    lookup-insert_ne caller who (or_empty (lookup caller m) ++ new ∷ []) m d

-- The new token is the caller's, and the rest is as before.
pub has_token-add_token :
    (caller new who t : ℕ) (m : List (ℕ × List ℕ))
    → has_token who t (add_token caller new m)
      ≡ (has_token who t m || ((caller == who) && (new == t)))
has_token-add_token caller new who t m = elim (Bool-cases (caller == who)) [
  | inl same ↦
      let e : who ≡ caller = sym ((==_iff caller who).0 same) in
      let own : has_token caller t (add_token caller new m) ≡ (has_token caller t m || (new == t)) =
        rw (own-add_token caller new m, contains-append t new (or_empty (lookup caller m))) in
      rw (same, e, own)
  | inr other ↦
      let d : caller ≢ who = ==_ne caller who other in
      rw (other, other-add_token caller new who m d, or_false (has_token who t m))
]

-- Whether any caller has the token.
abbrev pub is_held : ℕ → List (ℕ × List ℕ) → Bool
is_held token [] = false
is_held token ((k, ts) ∷ m) = contains token ts || is_held token m

-- A token of one caller's is held.
pub is_held-has_token :
    (caller t : ℕ) (m : List (ℕ × List ℕ)) → has_token caller t m ≡ true → is_held t m ≡ true
unfolding lookup
is_held-has_token caller t [] e = e
is_held-has_token caller t ((k, ts) ∷ m) e = ground (arith, is_held-has_token caller t m)

-- Adding a token takes none away.
pub is_held-add_token :
    (caller new t : ℕ) (m : List (ℕ × List ℕ))
    → is_held t m ≡ true
    → is_held t (add_token caller new m) ≡ true
unfolding add_token lookup insert
is_held-add_token caller new t [] e = absurd (ground arith)
is_held-add_token caller new t ((k, ts) ∷ m) e =
    ground (arith, is_held-add_token caller new t m, contains-append t new ts)

-- Removing one token takes no other away.
pub is_held-remove_token :
    (token t : ℕ) (m : List (ℕ × List ℕ))
    → token ≢ t
    → is_held t m ≡ true
    → is_held t (remove_token token m) ≡ true
unfolding remove_token
is_held-remove_token token t [] d e = e
is_held-remove_token token t ((k, ts) ∷ m) d e =
    ground (arith, is_held-remove_token token t m d, contains-remove_if t token ts)
