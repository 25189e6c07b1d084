-- ===== src/Prelude/Maps.antt =====
-- `std::map` with numbers for keys: an association list, ordered by the keys.
use Prim.Native.Nat.{ℕ, suc, ◌≤◌, ◌<◌}
use mathlib.Core.Path.{◌≡◌, refl}
use mathlib.Core.Logic.{◌≢◌}
use mathlib.Core.Option.{Option, none, some}
use mathlib.Core.List.{List, [], ◌∷◌}
use native.Mathlib.Omega.{arith}
use dmsfwk.Prelude.Tests.{ltb, ◌==◌, if◌then◌else◌}

module _ {ℓ} {A : Type ℓ} where
  unfoldable pub lookup : ℕ → List (ℕ × A) → Option A
  lookup key [] = none
  lookup key ((id, value) ∷ entries) = if id == key then some value else lookup key entries

  unfoldable pub insert : ℕ → A → List (ℕ × A) → List (ℕ × A)
  insert key value [] = (key, value) ∷ []
  insert key value ((id, old) ∷ entries) =
      if id == key
      then (key, value) ∷ entries
      else if ltb key id
      then (key, value) ∷ (id, old) ∷ entries
      else (id, old) ∷ insert key value entries

  unfoldable pub erase : ℕ → List (ℕ × A) → List (ℕ × A)
  erase key [] = []
  erase key ((id, value) ∷ entries) = if id == key then entries else (id, value) ∷ erase key entries

  pub erase-insert :
      (key : ℕ) (value : A) (entries : List (ℕ × A))
      → lookup key entries ≡ none
      → erase key (insert key value entries) ≡ entries
  unfolding lookup insert erase
  erase-insert key value [] e = ground arith
  erase-insert key value ((id, old) ∷ entries) e = ground (arith, erase-insert key value entries)

  pub insert-insert :
      (key : ℕ) (value old : A) (entries : List (ℕ × A))
      → insert key value (insert key old entries) ≡ insert key value entries
  unfolding insert
  insert-insert key value old [] = ground arith
  insert-insert key value old ((id, other) ∷ entries) =
      ground (arith, insert-insert key value old entries)

  -- The keys grow from `n` on, as they do in a `std::map`.
  abbrev pub Ascending : ℕ → List (ℕ × A) → Type 0
  Ascending n [] = Unit {0}
  Ascending n ((id, value) ∷ entries) = (n ≤ id) × Ascending (suc id) entries

  pub Ascending-mono :
      (low high : ℕ) (entries : List (ℕ × A))
      → low ≤ high
      → Ascending high entries
      → Ascending low entries
  Ascending-mono low high [] a h = tt
  Ascending-mono low high ((id, value) ∷ entries) a h = (omega arith, h.1)

  pub insert-Ascending :
      (n key : ℕ) (value : A) (entries : List (ℕ × A))
      → n ≤ key
      → Ascending n entries
      → Ascending n (insert key value entries)
  unfolding insert
  insert-Ascending n key value [] a h = (a, tt)
  insert-Ascending n key value ((id, old) ∷ entries) a h =
      ground (arith, insert-Ascending (suc id) key value entries)

  pub erase-Ascending :
      (n key : ℕ) (entries : List (ℕ × A)) → Ascending n entries → Ascending n (erase key entries)
  unfolding erase
  erase-Ascending n key [] h = tt
  erase-Ascending n key ((id, old) ∷ entries) h =
      ground (arith, erase-Ascending (suc id) key entries, Ascending-mono n (suc id) entries)

  pub lookup-insert_self :
      (key : ℕ) (value : A) (entries : List (ℕ × A))
      → lookup key (insert key value entries) ≡ some value
  unfolding lookup insert
  lookup-insert_self key value [] = ground arith
  lookup-insert_self key value ((id, old) ∷ entries) =
      ground (arith, lookup-insert_self key value entries)

  pub lookup-insert_ne :
      (key probe : ℕ) (value : A) (entries : List (ℕ × A))
      → key ≢ probe
      → lookup probe (insert key value entries) ≡ lookup probe entries
  unfolding lookup insert
  lookup-insert_ne key probe value [] d = ground arith
  lookup-insert_ne key probe value ((id, old) ∷ entries) d =
      ground (arith, lookup-insert_ne key probe value entries)

  pub lookup-erase_ne :
      (key probe : ℕ) (entries : List (ℕ × A))
      → key ≢ probe
      → lookup probe (erase key entries) ≡ lookup probe entries
  unfolding lookup erase
  lookup-erase_ne key probe [] d = refl
  lookup-erase_ne key probe ((id, old) ∷ entries) d =
      ground (arith, lookup-erase_ne key probe entries)

  pub lookup_below :
      (n key : ℕ) (entries : List (ℕ × A))
      → key < n
      → Ascending n entries
      → lookup key entries ≡ none
  unfolding lookup
  lookup_below n key [] d h = refl
  lookup_below n key ((id, old) ∷ entries) d h = ground (arith, lookup_below (suc id) key entries)

  pub lookup-erase_self :
      (n key : ℕ) (entries : List (ℕ × A))
      → Ascending n entries
      → lookup key (erase key entries) ≡ none
  unfolding lookup erase
  lookup-erase_self n key [] h = refl
  lookup-erase_self n key ((id, old) ∷ entries) h =
      ground (arith, lookup-erase_self (suc id) key entries, lookup_below (suc id) key entries)

  -- A value that is stored where it is already.
  pub insert_stored :
      (n key : ℕ) (value : A) (entries : List (ℕ × A))
      → Ascending n entries
      → lookup key entries ≡ some value
      → (n ≤ key) × (insert key value entries ≡ entries)
  unfolding lookup insert
  insert_stored n key value [] h e = cc
  insert_stored n key value ((id, old) ∷ entries) h e =
      ground (arith, insert_stored (suc id) key value entries h.1)
