-- ===== src/ContinueManager/Counts.antt =====
-- The continuations of the table, counted by what this device is for them.
pub mod Tables
pub mod Kept
pub mod Threads
pub mod Waiting
pub mod Requests
pub mod Runs
pub mod Admission
use dmsfwk.Prelude.{
  ℕ, zero, suc, ◌+◌, ◌≤◌, ◌≡◌, ◌≢◌, refl, sym, ap, ◌∙◌, inl, inr, Bool, true, false, not, ◌&&◌,
  Option, none, some, List, [], ◌∷◌, ◌++◌, ◌==◌, lookup, insert, erase, Ascending, lookup_below,
  Bool-cases, if◌then◌else◌, arith,
}
use dmsfwk.Continue.{Direction, source, sink}
use dmsfwk.ContinueManager.{DschedContinueInfo, Entry, System, Manager, key}
use dmsfwk.ContinueManager.Routing.{find_continue}

-- What this device is for a continuation: the sink, or the source where it is not the sink.
abbrev pub plays : ℕ → Direction → DschedContinueInfo → Bool
plays local sink info = info.sink_device_id == local
plays local source info = not (info.sink_device_id == local) && (info.source_device_id == local)

abbrev pub one : ℕ → Direction → Entry → ℕ
one local d e = if plays local d e.continue_info then 1 else 0

unfoldable pub number : ℕ → Direction → List (ℕ × Entry) → ℕ
number local d [] = 0
number local d ((k, e) ∷ continues) = one local d e + number local d continues

-- A predicate on the four names of a continuation: the device and the bundle of the source, and of the sink.
abbrev pub Names : Type 1
Names = ℕ → ℕ → ℕ → ℕ → Type 0

abbrev pub IsAsked : Names → DschedContinueInfo → Type 0
IsAsked Asked info =
    Asked info.source_device_id info.source_bundle_name info.sink_device_id info.sink_bundle_name

-- Every continuation is at its own key, and its names are such names.
abbrev pub Keyed : System → Names → List (ℕ × Entry) → Type 0
Keyed system Asked [] = Unit {0}
Keyed system Asked ((k, e) ∷ continues) =
    (k ≡ key system e.continue_info) × IsAsked Asked e.continue_info × Keyed system Asked continues

pub number-insert_new :
    (local k : ℕ) (d : Direction) (e : Entry) (continues : List (ℕ × Entry))
    → lookup k continues ≡ none
    → number local d (insert k e continues) ≡ one local d e + number local d continues
unfolding number insert lookup
number-insert_new local k d e [] absent = refl
number-insert_new local k d e ((k0, e0) ∷ continues) absent =
    ground (arith, number-insert_new local k d e continues)

pub number-insert_same :
    (local n k : ℕ) (d : Direction) (e old : Entry) (continues : List (ℕ × Entry))
    → Ascending n continues
    → lookup k continues ≡ some old
    → one local d e ≡ one local d old
    → number local d (insert k e continues) ≡ number local d continues
unfolding number insert lookup
number-insert_same local n k d e old [] h there same = ground arith
number-insert_same local n k d e old ((k0, e0) ∷ continues) h there same = ground (
  arith,
  number-insert_same local (suc k0) k d e old continues h.1,
  lookup_below (suc k0) k continues,
)

pub number-erase :
    (local k : ℕ) (d : Direction) (e : Entry) (continues : List (ℕ × Entry))
    → lookup k continues ≡ some e
    → one local d e + number local d (erase k continues) ≡ number local d continues
unfolding number erase lookup
number-erase local k d e [] there = ground arith
number-erase local k d e ((k0, e0) ∷ continues) there =
    ground (arith, number-erase local k d e continues)

pub insert-Keyed :
    (system : System) (Asked : Names) (k : ℕ) (e : Entry) (continues : List (ℕ × Entry))
    → k ≡ key system e.continue_info
    → IsAsked Asked e.continue_info
    → Keyed system Asked continues
    → Keyed system Asked (insert k e continues)
unfolding insert
insert-Keyed system Asked k e [] own asked h = (own, asked, tt)
insert-Keyed system Asked k e ((k0, e0) ∷ continues) own asked h =
    ground (arith, insert-Keyed system Asked k e continues own asked h.2)

pub erase-Keyed :
    (system : System) (Asked : Names) (k : ℕ) (continues : List (ℕ × Entry))
    → Keyed system Asked continues
    → Keyed system Asked (erase k continues)
unfolding erase
erase-Keyed system Asked k [] h = tt
erase-Keyed system Asked k ((k0, e0) ∷ continues) h =
    ground (arith, erase-Keyed system Asked k continues h.2)

pub lookup-Keyed :
    (system : System) (Asked : Names) (k : ℕ) (e : Entry) (continues : List (ℕ × Entry))
    → Keyed system Asked continues
    → lookup k continues ≡ some e
    → (k ≡ key system e.continue_info) × IsAsked Asked e.continue_info
unfolding lookup
lookup-Keyed system Asked k e [] h there = absurd (ground arith)
lookup-Keyed system Asked k e ((k0, e0) ∷ continues) h there =
    ground (arith, lookup-Keyed system Asked k e continues h.2)

-- What is found is in the table, and passes the test.
pub find_continue-lookup :
    (test : Entry → Bool) (n k : ℕ) (e : Entry) (continues : List (ℕ × Entry))
    → Ascending n continues
    → find_continue test continues ≡ some (k, e)
    → (n ≤ k) × (lookup k continues ≡ some e) × (test e ≡ true)
unfolding find_continue lookup
find_continue-lookup test n k e [] h found = ground arith
find_continue-lookup test n k e ((k0, e0) ∷ continues) h found =
    ground (arith, find_continue-lookup test (suc k0) k e continues h.1)
