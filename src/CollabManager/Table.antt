-- ===== src/CollabManager/Table.antt =====
-- What holds of the table and the timers, and how inserting, erasing and storing keep it.
use dmsfwk.Prelude.{
  ℕ, suc, ◌≤◌, ◌≡◌, ◌≢◌, inl, inr, Bool, true, false, Option, none, some, List, [], ◌∷◌, ◌++◌, ◌==◌,
  lookup, insert, erase, Ascending, insert-Ascending, erase-Ascending, lookup-insert_self,
  lookup-insert_ne, lookup-erase_ne, Bool-cases, Option-cases, arith, ==_iff,
}
use dmsfwk.CollabManager.{
  Entry, Manager, remove_task, set_time_out, remove_timeout, clean_up_session, store, emplace,
}

abbrev pub AllKnown : List (ℕ × Entry) → Type 0
AllKnown [] = Unit {0}
AllKnown ((t, e) ∷ collabs) = (e.collab.is_known ≡ true) × AllKnown collabs

abbrev pub is_some : Option Entry → Bool
is_some none = false
is_some (some e) = true

-- Each timer is one of a collaboration in the table.
abbrev pub AreIn : List (ℕ × Entry) → List ℕ → Type 0
AreIn collabs [] = Unit {0}
AreIn collabs (t ∷ ts) = (is_some (lookup t collabs) ≡ true) × AreIn collabs ts

abbrev pub IsSound : Manager → Type 0
IsSound m =
    (m.has_handler ≡ true) × Ascending 1 m.collabs × AllKnown m.collabs × AreIn m.collabs m.timeouts

insert-AllKnown :
    (token : ℕ) (e : Entry) (collabs : List (ℕ × Entry))
    → e.collab.is_known ≡ true
    → AllKnown collabs
    → AllKnown (insert token e collabs)
unfolding insert
insert-AllKnown token e [] k h = (k, tt)
insert-AllKnown token e ((t, old) ∷ collabs) k h =
    ground (arith, insert-AllKnown token e collabs k h.1)

erase-AllKnown :
    (token : ℕ) (collabs : List (ℕ × Entry)) → AllKnown collabs → AllKnown (erase token collabs)
unfolding erase
erase-AllKnown token [] h = tt
erase-AllKnown token ((t, old) ∷ collabs) h = ground (arith, erase-AllKnown token collabs h.1)

pub found-AllKnown :
    (token : ℕ) (e : Entry) (collabs : List (ℕ × Entry))
    → AllKnown collabs
    → lookup token collabs ≡ some e
    → e.collab.is_known ≡ true
unfolding lookup
found-AllKnown token e [] h f = absurd (ground arith)
found-AllKnown token e ((t, old) ∷ collabs) h f = ground (arith, found-AllKnown token e collabs h.1)

-- Keys start at 1.
pub found_key :
    (n token : ℕ) (e : Entry) (collabs : List (ℕ × Entry))
    → Ascending n collabs
    → lookup token collabs ≡ some e
    → n ≤ token
unfolding lookup
found_key n token e [] h f = absurd (ground arith)
found_key n token e ((t, old) ∷ collabs) h f = ground (arith, found_key (suc t) token e collabs h.1)

is_some-insert :
    (token t : ℕ) (e : Entry) (collabs : List (ℕ × Entry))
    → is_some (lookup t collabs) ≡ true
    → is_some (lookup t (insert token e collabs)) ≡ true
is_some-insert token t e collabs h = elim (Bool-cases (token == t)) [
  | inl same ↦
      let k : token ≡ t = (==_iff token t).0 same in
      ground (arith, lookup-insert_self token e collabs)
  | inr other ↦
      let d : token ≢ t = ground arith in ground (arith, lookup-insert_ne token t e collabs d)
]

pub insert-AreIn :
    (token : ℕ) (e : Entry) (collabs : List (ℕ × Entry)) (ts : List ℕ)
    → AreIn collabs ts
    → AreIn (insert token e collabs) ts
insert-AreIn token e collabs [] h = tt
insert-AreIn token e collabs (t ∷ ts) h =
    (is_some-insert token t e collabs h.0, insert-AreIn token e collabs ts h.1)

erase-AreIn :
    (token : ℕ) (collabs : List (ℕ × Entry)) (ts : List ℕ)
    → AreIn collabs ts
    → AreIn (erase token collabs) (remove_task token ts)
unfolding remove_task
erase-AreIn token collabs [] h = tt
erase-AreIn token collabs (t ∷ ts) h =
    ground (arith, erase-AreIn token collabs ts h.1, lookup-erase_ne token t collabs)

pub remove_task-AreIn :
    (token : ℕ) (collabs : List (ℕ × Entry)) (ts : List ℕ)
    → AreIn collabs ts
    → AreIn collabs (remove_task token ts)
unfolding remove_task
remove_task-AreIn token collabs [] h = tt
remove_task-AreIn token collabs (t ∷ ts) h = ground (arith, remove_task-AreIn token collabs ts h.1)

append-AreIn :
    (token : ℕ) (collabs : List (ℕ × Entry)) (ts : List ℕ)
    → is_some (lookup token collabs) ≡ true
    → AreIn collabs ts
    → AreIn collabs (ts ++ token ∷ [])
append-AreIn token collabs [] k h = (k, tt)
append-AreIn token collabs (t ∷ ts) k h = (h.0, append-AreIn token collabs ts k h.1)

-- A known collaboration takes the place of the one that its token has, or a new place.
pub insert-IsSound :
    (token : ℕ) (e : Entry) (m : Manager)
    → 1 ≤ token
    → e.collab.is_known ≡ true
    → IsSound m
    → IsSound (record m { collabs = insert token e m.collabs })
insert-IsSound token e m low k h = (
  h.0,
  insert-Ascending 1 token e m.collabs low h.1,
  insert-AllKnown token e m.collabs k h.2,
  insert-AreIn token e m.collabs m.timeouts h.3,
)

pub remove_timeout-IsSound :
    (token : ℕ) (m : Manager) → IsSound m → IsSound (remove_timeout token m)
remove_timeout-IsSound token m h = ground (arith, remove_task-AreIn token m.collabs m.timeouts h.3)

pub set_time_out-IsSound :
    (token : ℕ) (m : Manager)
    → is_some (lookup token m.collabs) ≡ true
    → IsSound m
    → IsSound (set_time_out token m)
set_time_out-IsSound token m k h = ground (arith, append-AreIn token m.collabs m.timeouts k h.3)

pub clean_up_session-IsSound :
    (token : ℕ) (m : Manager) → IsSound m → IsSound (clean_up_session token m).0
unfolding clean_up_session
clean_up_session-IsSound token m h = ground (
  arith,
  erase-Ascending 1 token m.collabs h.1,
  erase-AllKnown token m.collabs h.2,
  erase-AreIn token m.collabs m.timeouts h.3,
)

pub store-IsSound :
    (token : ℕ) (e : Entry) (m : Manager) → 1 ≤ token → IsSound m → IsSound (store token e m)
store-IsSound token e m low h = elim (Bool-cases e.collab.is_known) [
  | inl k ↦ ground (arith, insert-IsSound token e m low k h)
  | inr gone ↦ ground (arith, gone, clean_up_session-IsSound token m h)
]

pub emplace-IsSound :
    (token : ℕ) (e : Entry) (m : Manager)
    → 1 ≤ token
    → e.collab.is_known ≡ true
    → IsSound m
    → IsSound (record m { collabs = emplace token e m.collabs })
emplace-IsSound token e m low k h = ground (arith, insert-IsSound token e m low k h)

pub emplace_there :
    (token : ℕ) (e : Entry) (collabs : List (ℕ × Entry))
    → is_some (lookup token (emplace token e collabs)) ≡ true
emplace_there token e collabs = elim (Option-cases (lookup token collabs)) [
  | inl absent ↦ ground (arith, absent, lookup-insert_self token e collabs)
  | inr (old, there) ↦ ground (arith, there)
]
