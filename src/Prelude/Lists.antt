-- ===== src/Prelude/Lists.antt =====
-- Lists measured and indexed by native numbers, under the library's names.
use Prim.Native.Nat.{ℕ, zero, suc, ◌+◌, ◌-◌, ◌≤◌, min}
use mathlib.Core.Path.{◌≡◌, refl, ap}
use mathlib.Core.List.{List, [], ◌∷◌, ◌++◌}
use native.Mathlib.Omega.{arith}

module _ {ℓ} {A : Type ℓ} where
  abbrev pub length : List A → ℕ
  length [] = 0
  length (x ∷ xs) = suc (length xs)

  abbrev pub get_or : List A → ℕ → A → A
  get_or [] i d = d
  get_or (x ∷ xs) zero d = x
  get_or (x ∷ xs) (suc i) d = get_or xs i d

  abbrev pub take : ℕ → List A → List A
  take zero xs = []
  take (suc n) [] = []
  take (suc n) (x ∷ xs) = x ∷ take n xs

  abbrev pub drop : ℕ → List A → List A
  drop zero xs = xs
  drop (suc n) [] = []
  drop (suc n) (x ∷ xs) = drop n xs

  abbrev pub replicate : ℕ → A → List A
  replicate zero a = []
  replicate (suc n) a = a ∷ replicate n a

  pub length-append : (xs ys : List A) → length (xs ++ ys) ≡ length xs + length ys
  length-append [] ys = omega arith
  length-append (x ∷ xs) ys = omega (arith, length-append xs ys)

  pub length-take : (n : ℕ) (xs : List A) → length (take n xs) ≡ min n (length xs)
  length-take zero xs = omega arith
  length-take (suc n) [] = omega arith
  length-take (suc n) (x ∷ xs) = omega (arith, length-take n xs)

  pub length-drop : (n : ℕ) (xs : List A) → length (drop n xs) ≡ length xs - n
  length-drop zero xs = omega arith
  length-drop (suc n) [] = omega arith
  length-drop (suc n) (x ∷ xs) = omega (arith, length-drop n xs)

  pub length-replicate : (n : ℕ) (a : A) → length (replicate n a) ≡ n
  length-replicate zero a = refl
  length-replicate (suc n) a = ap suc (length-replicate n a)

  pub take-append-drop : (n : ℕ) (xs : List A) → take n xs ++ drop n xs ≡ xs
  take-append-drop zero xs = refl
  take-append-drop (suc n) [] = refl
  take-append-drop (suc n) (x ∷ xs) = rw (take-append-drop n xs)

  pub take_all : (n : ℕ) (xs : List A) → length xs ≤ n → take n xs ≡ xs
  take_all zero [] h = refl
  take_all zero (x ∷ xs) h = absurd (omega arith)
  take_all (suc n) [] h = refl
  take_all (suc n) (x ∷ xs) h = ap (◌∷◌ x) (take_all n xs (omega arith))

  pub drop_all : (n : ℕ) (xs : List A) → length xs ≤ n → drop n xs ≡ []
  drop_all zero [] h = refl
  drop_all zero (x ∷ xs) h = absurd (omega arith)
  drop_all (suc n) [] h = refl
  drop_all (suc n) (x ∷ xs) h = drop_all n xs (omega arith)

  -- The position is a variable with an equation, since a length does not compute.
  pub take-append : (n : ℕ) (xs ys : List A) → length xs ≡ n → take n (xs ++ ys) ≡ xs
  take-append zero [] ys h = refl
  take-append zero (x ∷ xs) ys h = absurd (omega arith)
  take-append (suc n) [] ys h = absurd (omega arith)
  take-append (suc n) (x ∷ xs) ys h = ap (◌∷◌ x) (take-append n xs ys (omega arith))

  pub drop-append : (n m : ℕ) (xs ys : List A) → length xs + m ≡ n → drop n (xs ++ ys) ≡ drop m ys
  drop-append n m [] ys h = let e : m ≡ n = omega arith in rw e
  drop-append zero m (x ∷ xs) ys h = absurd (omega arith)
  drop-append (suc n) m (x ∷ xs) ys h = drop-append n m xs ys (omega arith)

  pub drop-drop : (m n k : ℕ) (xs : List A) → m + n ≡ k → drop n (drop m xs) ≡ drop k xs
  drop-drop zero n k xs h = let e : n ≡ k = omega arith in rw e
  drop-drop (suc m) zero zero [] h = refl
  drop-drop (suc m) (suc n) zero [] h = refl
  drop-drop (suc m) zero (suc k) [] h = refl
  drop-drop (suc m) (suc n) (suc k) [] h = refl
  drop-drop (suc m) n zero (x ∷ xs) h = absurd (omega arith)
  drop-drop (suc m) n (suc k) (x ∷ xs) h = drop-drop m n k xs (omega arith)

  pub take-append-take-drop :
      (m n k : ℕ) (xs : List A) → m + n ≡ k → take m xs ++ take n (drop m xs) ≡ take k xs
  take-append-take-drop zero n k xs h = let e : n ≡ k = omega arith in rw e
  take-append-take-drop (suc m) zero zero [] h = refl
  take-append-take-drop (suc m) (suc n) zero [] h = refl
  take-append-take-drop (suc m) zero (suc k) [] h = refl
  take-append-take-drop (suc m) (suc n) (suc k) [] h = refl
  take-append-take-drop (suc m) n zero (x ∷ xs) h = absurd (omega arith)
  take-append-take-drop (suc m) n (suc k) (x ∷ xs) h =
      ap (◌∷◌ x) (take-append-take-drop m n k xs (omega arith))

  pub drop-replicate : (m n k : ℕ) (a : A) → m + k ≡ n → drop m (replicate n a) ≡ replicate k a
  drop-replicate zero n k a h = let e : k ≡ n = omega arith in rw e
  drop-replicate (suc m) zero k a h = absurd (omega arith)
  drop-replicate (suc m) (suc n) k a h = drop-replicate m n k a (omega arith)

  pub replicate_split :
      (m n k : ℕ) (a : A) → m + n ≡ k → replicate k a ≡ replicate m a ++ replicate n a
  replicate_split zero n k a h = let e : k ≡ n = omega arith in rw e
  replicate_split (suc m) n zero a h = absurd (omega arith)
  replicate_split (suc m) n (suc k) a h = ap (◌∷◌ a) (replicate_split m n k a (omega arith))
