-- ===== src/Buffer/Laws.antt =====
-- Laws of the buffer operations that the transports use.
use mathlib.Core.List.{append-nil}
use dmsfwk.Prelude.{
  ℕ, ◌+◌, ◌/◌, ◌%◌, ◌^◌, ◌≤◌, ◌<◌, ◌≡◌, false, some, List, [], ◌∷◌, ◌++◌, length, take, drop,
  replicate, length-append, length-take, length-drop, length-replicate, take-append, drop-append,
  drop_all, arith,
}
use dmsfwk.Buffer.{dsched_max_buffer_size, is_bad_capacity, new_buffer, overwrite, memcpy_s, store}

pub new_buffer_lem : (n : ℕ) → 0 < n → n < dsched_max_buffer_size → new_buffer n ≡ replicate n 0
unfolding new_buffer
new_buffer_lem n pos small = let e : is_bad_capacity n ≡ false = ground arith in rw (e, new_buffer)

pub memcpy_s_lem :
    (dest : List ℕ) (pos : ℕ) (src : List ℕ)
    → pos < length dest
    → pos + length src ≤ length dest
    → memcpy_s dest pos src ≡ some (overwrite dest pos src)
unfolding memcpy_s
memcpy_s_lem dest pos src h k = ground arith

pub memcpy_s-some :
    (dest : List ℕ) (pos : ℕ) (src : List ℕ) {out : List ℕ}
    → memcpy_s dest pos src ≡ some out
    → (pos < length dest) × (pos + length src ≤ length dest) × (out ≡ overwrite dest pos src)
unfolding memcpy_s
memcpy_s-some dest pos src h = (ground arith, ground arith, ground arith)

pub length-overwrite :
    (dest : List ℕ) (pos : ℕ) (src : List ℕ)
    → pos + length src ≤ length dest
    → length (overwrite dest pos src) ≡ length dest
length-overwrite dest pos src h = omega (
  arith,
  length-append (take pos dest) (src ++ drop (pos + length src) dest),
  length-append src (drop (pos + length src) dest),
  length-take pos dest,
  length-drop (pos + length src) dest,
)

-- A field of two bytes or four is replaced whole by as many bytes.
pub store_two : (old v : ℕ) → v < 2 ^ 16 → store 2 old (v % 256 ∷ v / 256 % 256 ∷ []) ≡ some v
unfolding store
store_two old v h = ground arith

pub store_one : (old v : ℕ) → v < 256 → store 1 old (v % 256 ∷ []) ≡ some v
unfolding store
store_one old v h = ground arith

pub store_four :
    (old v : ℕ)
    → v < 2 ^ 32
    → store 4 old (v % 256 ∷ v / 256 % 256 ∷ v / 256 / 256 % 256 ∷ v / 256 / 256 / 256 % 256 ∷ [])
      ≡ some v
unfolding store
store_four old v h = ground arith

-- Bytes that are written behind a prefix, over zeros that are as many.
pub overwrite-append :
    (k n : ℕ) (xs src : List ℕ)
    → length xs ≡ k
    → length src ≡ n
    → overwrite (xs ++ replicate n 0) k src ≡ xs ++ src
overwrite-append k n xs src a b = rw (
  take-append k xs (replicate n 0) a,
  drop-append (k + length src) (length src) xs (replicate n 0) (omega arith),
  drop_all {A = ℕ} (length src) (replicate n 0) (omega (arith, length-replicate {A = ℕ} n 0)),
  append-nil src,
)
