-- ===== src/AbilityManager/Tokens/Unique.antt =====
-- No two callers share a token, as long as the numbers are not used again.
use dmsfwk.Prelude.{
  ltb, ◌⊎◌, length, ℕ, suc, ◌≤◌, ◌≡◌, ◌≢◌, refl, inl, inr, true, false, not, ◌&&◌, none, List, [],
  ◌∷◌, ◌++◌, ◌==◌, lookup, insert, Ascending, Ascending-mono, lookup_below, Bool-cases, arith,
  length,
}
use dmsfwk.AbilityManager.Tokens.{contains, or_empty, add_token, remove_if, remove_token}
use dmsfwk.AbilityManager.Tokens.Registration.{
  has_token, is_held, is_held-has_token, contains-append, contains-remove_if,
}
use dmsfwk.AbilityManager.Tokens.Limits.{IsLimited}

-- Who has a token that nobody else has, has it alone.
abbrev pub IsUnique : List (ℕ × List ℕ) → Type 0
IsUnique [] = Unit {0}
IsUnique ((k, ts) ∷ m) = ((t : ℕ) → contains t ts ≡ true → is_held t m ≡ false) × IsUnique m

List-cases {ℓ} : {A : Type ℓ} (xs : List A) → (xs ≡ []) ⊎ ((x : A) × (ys : List A) × (xs ≡ x ∷ ys))
List-cases [] = inl refl
List-cases (x ∷ xs) = inr (x, xs, refl)

remove_if_absent : (token : ℕ) (ts : List ℕ) → contains token ts ≡ false → remove_if token ts ≡ ts
unfolding remove_if
remove_if_absent token [] e = refl
remove_if_absent token (x ∷ ts) e = ground (arith, remove_if_absent token ts)

pub remove_token_absent :
    (token : ℕ) (m : List (ℕ × List ℕ))
    → IsLimited m
    → is_held token m ≡ false
    → remove_token token m ≡ m
unfolding remove_token
remove_token_absent token [] h e = refl
remove_token_absent token ((k, ts) ∷ m) h e =
    ground (arith, remove_token_absent token m h.2, remove_if_absent token ts)

-- The loop stops, or goes on, and it stops only at a list of nothing but the token.
remove_token-cases :
    (token k : ℕ) (ts : List ℕ) (m : List (ℕ × List ℕ))
    → 1 ≤ length ts
    → ((remove_token token ((k, ts) ∷ m) ≡ m)
        × (contains token ts ≡ true)
        × (remove_if token ts ≡ []))
      ⊎ (remove_token token ((k, ts) ∷ m) ≡ (k, remove_if token ts) ∷ remove_token token m)
unfolding remove_token remove_if
remove_token-cases token k [] m h = absurd (omega arith)
remove_token-cases token k (x ∷ ts) m h = elim (Bool-cases (x == token)) [
  | inr other ↦ inr (ground (arith, other))
  | inl same ↦ elim (List-cases (remove_if token ts)) [
    | inl none_left ↦
        inl (ground (arith, none_left), ground (arith, same), ground (arith, none_left))
    | inr (y, ys, e) ↦ inr (ground (arith, same, e))
  ]
]

-- Removing a token takes exactly it from each caller.
has_token-remove_token_lem :
    (token who t k : ℕ) (ts : List ℕ) (m : List (ℕ × List ℕ))
    → Ascending (suc k) m
    → (contains token ts ≡ true → is_held token m ≡ false)
    → 1 ≤ length ts
    → has_token who t (remove_token token m) ≡ (has_token who t m && not (token == t))
    → has_token who t (remove_token token ((k, ts) ∷ m))
      ≡ (has_token who t ((k, ts) ∷ m) && not (token == t))
unfolding lookup
has_token-remove_token_lem token who t k ts m a u h e = elim (remove_token-cases token k ts m h) [
  | inl (stop, there, gone) ↦
      let left : has_token who t m ≡ (has_token who t ((k, ts) ∷ m) && not (token == t)) = ground (
        arith,
        gone,
        u there,
        is_held-has_token who t m,
        contains-remove_if t token ts,
        lookup_below (suc k) who m,
      ) in
      rw stop left
  | inr more ↦
      let rest : has_token who t ((k, remove_if token ts) ∷ remove_token token m)
          ≡ (has_token who t ((k, ts) ∷ m) && not (token == t)) =
        ground (arith, e, contains-remove_if t token ts) in
      rw more rest
]

pub has_token-remove_token :
    (token who t n : ℕ) (m : List (ℕ × List ℕ))
    → Ascending n m
    → IsLimited m
    → IsUnique m
    → has_token who t (remove_token token m) ≡ (has_token who t m && not (token == t))
unfolding remove_token lookup
has_token-remove_token token who t n [] a h u = refl
has_token-remove_token token who t n ((k, ts) ∷ m) a h u =
    has_token-remove_token_lem token who t k ts m a.1 (u.0 token) h.0
      (has_token-remove_token token who t (suc k) m a.1 h.2 u.1)

-- A removed token is nobody's, and the others' tokens stay apart.
pub is_held-remove_token_sub :
    (token t : ℕ) (m : List (ℕ × List ℕ))
    → is_held t m ≡ false
    → is_held t (remove_token token m) ≡ false
unfolding remove_token
is_held-remove_token_sub token t [] e = refl
is_held-remove_token_sub token t ((k, ts) ∷ m) e =
    ground (arith, is_held-remove_token_sub token t m, contains-remove_if t token ts)

pub remove_token-IsUnique :
    (token : ℕ) (m : List (ℕ × List ℕ)) → IsLimited m → IsUnique m → IsUnique (remove_token token m)
unfolding remove_token
remove_token-IsUnique token [] h u = tt
remove_token-IsUnique token ((k, ts) ∷ m) h u = elim (remove_token-cases token k ts m h.0) [
  | inl (stop, there, gone) ↦ rw stop (u.1)
  | inr more ↦
      let apart : (t : ℕ)
          → contains t (remove_if token ts) ≡ true
          → is_held t (remove_token token m) ≡ false =
        λ t c.
          ground
            (arith, u.0 t, is_held-remove_token_sub token t m, contains-remove_if t token ts) in
      rw more (apart, remove_token-IsUnique token m h.2 u.1)
]

pub remove_token-Ascending :
    (token n : ℕ) (m : List (ℕ × List ℕ)) → Ascending n m → Ascending n (remove_token token m)
unfolding remove_token
remove_token-Ascending token n [] a = tt
remove_token-Ascending token n ((k, ts) ∷ m) a =
    ground (arith, remove_token-Ascending token (suc k) m, Ascending-mono n (suc k) m)

is_held-insert :
    (caller t : ℕ) (ts : List ℕ) (m : List (ℕ × List ℕ))
    → contains t ts ≡ false
    → is_held t m ≡ false
    → is_held t (insert caller ts m) ≡ false
unfolding insert
is_held-insert caller t ts [] c e = ground (arith, c)
is_held-insert caller t ts ((k, us) ∷ m) c e = ground (arith, is_held-insert caller t ts m)

-- No caller has what is held by none.
has_token_nobody :
    (caller t : ℕ) (m : List (ℕ × List ℕ)) → is_held t m ≡ false → has_token caller t m ≡ false
has_token_nobody caller t m e = ground (arith, is_held-has_token caller t m)

-- A token that is added is not another one.
pub is_held-add_token_ne :
    (caller new t : ℕ) (m : List (ℕ × List ℕ))
    → new ≢ t
    → is_held t m ≡ false
    → is_held t (add_token caller new m) ≡ false
unfolding add_token
is_held-add_token_ne caller new t m d e =
    let ts = or_empty (lookup caller m) in
    is_held-insert caller t (ts ++ new ∷ []) m
      (ground (arith, contains-append t new ts, has_token_nobody caller t m e)) e

add_token_past :
    (caller new k : ℕ) (ts : List ℕ) (m : List (ℕ × List ℕ))
    → (k == caller) ≡ false
    → ltb caller k ≡ false
    → add_token caller new ((k, ts) ∷ m) ≡ (k, ts) ∷ add_token caller new m
unfolding add_token lookup insert
add_token_past caller new k ts m other back = ground (arith, other, back)

pub add_token-IsUnique :
    (caller new n : ℕ) (m : List (ℕ × List ℕ))
    → Ascending n m
    → is_held new m ≡ false
    → IsUnique m
    → IsUnique (add_token caller new m)
unfolding add_token lookup insert
add_token-IsUnique caller new n [] a f u = ((λ t c. refl), tt)
add_token-IsUnique caller new n ((k, ts) ∷ m) a f u = elim (Bool-cases (k == caller)) [
  | inl same ↦
      let apart : (t : ℕ) → contains t (ts ++ new ∷ []) ≡ true → is_held t m ≡ false =
        λ t c. ground (arith, u.0 t, contains-append t new ts) in
      rw same (apart, u.1)
  | inr other ↦ elim (Bool-cases (ltb caller k)) [
    | inl front ↦
        let apart : (t : ℕ) → contains t (new ∷ []) ≡ true → is_held t ((k, ts) ∷ m) ≡ false =
          λ t c. ground arith in
        let absent : lookup caller m ≡ none = ground (arith, lookup_below (suc k) caller m) in
        rw (other, front, absent) (apart, u)
    | inr back ↦
        let apart : (t : ℕ) → contains t ts ≡ true → is_held t (add_token caller new m) ≡ false =
          λ t c. ground (arith, u.0 t, is_held-add_token_ne caller new t m) in
        let rest = add_token-IsUnique caller new (suc k) m a.1 (ground arith) u.1 in
        rw (add_token_past caller new k ts m other back) (apart, rest)
  ]
]
