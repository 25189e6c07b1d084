-- ===== src/AbilityManager/Callbacks/Known.antt =====
-- Which tokens have callbacks.
use dmsfwk.Prelude.{
  suc, ◌<◌, Ascending, ℕ, ◌≡◌, ◌≢◌, true, false, some, List, [], ◌∷◌, lookup, insert, erase, arith,
}
use dmsfwk.AbilityManager.{NotifierInfo, CbType}
use dmsfwk.AbilityManager.Tokens.{add_token, remove_token}
use dmsfwk.AbilityManager.Tokens.Registration.{is_held, is_held-add_token, is_held-remove_token}
use dmsfwk.AbilityManager.Callbacks.{is_notifier_map_empty, set_notifier, is_known}

-- The tokens with callbacks are held, and each has a notifier.
abbrev pub AreHeld : List (ℕ × List ℕ) → List (ℕ × NotifierInfo) → Type 0
AreHeld m [] = Unit {0}
AreHeld m ((t, info) ∷ callbacks) =
    (is_held t m ≡ true) × (is_notifier_map_empty info ≡ false) × AreHeld m callbacks

pub AreHeld-add_token :
    (caller new : ℕ) (m : List (ℕ × List ℕ)) (callbacks : List (ℕ × NotifierInfo))
    → AreHeld m callbacks
    → AreHeld (add_token caller new m) callbacks
AreHeld-add_token caller new m [] h = tt
AreHeld-add_token caller new m ((t, info) ∷ callbacks) h =
    (is_held-add_token caller new t m h.0, h.1, AreHeld-add_token caller new m callbacks h.2)

-- No callbacks of the token are left.
abbrev pub IsWithout : ℕ → List (ℕ × NotifierInfo) → Type 0
IsWithout token [] = Unit {0}
IsWithout token ((t, info) ∷ callbacks) = (token ≢ t) × IsWithout token callbacks

pub AreHeld-remove_token :
    (token : ℕ) (m : List (ℕ × List ℕ)) (callbacks : List (ℕ × NotifierInfo))
    → IsWithout token callbacks
    → AreHeld m callbacks
    → AreHeld (remove_token token m) callbacks
AreHeld-remove_token token m [] w h = tt
AreHeld-remove_token token m ((t, info) ∷ callbacks) w h =
    (is_held-remove_token token t m w.0 h.0, h.1, AreHeld-remove_token token m callbacks w.1 h.2)

pub insert-AreHeld :
    (m : List (ℕ × List ℕ)) (token : ℕ) (info : NotifierInfo) (callbacks : List (ℕ × NotifierInfo))
    → is_held token m ≡ true
    → is_notifier_map_empty info ≡ false
    → AreHeld m callbacks
    → AreHeld m (insert token info callbacks)
unfolding insert
insert-AreHeld m token info [] t f h = (t, f, tt)
insert-AreHeld m token info ((k, old) ∷ callbacks) t f h =
    ground (arith, insert-AreHeld m token info callbacks t f h.2)

pub erase-AreHeld :
    (m : List (ℕ × List ℕ)) (token : ℕ) (callbacks : List (ℕ × NotifierInfo))
    → AreHeld m callbacks
    → AreHeld m (erase token callbacks)
unfolding erase
erase-AreHeld m token [] h = tt
erase-AreHeld m token ((k, old) ∷ callbacks) h = ground (arith, erase-AreHeld m token callbacks h.2)

pub found-AreHeld :
    (m : List (ℕ × List ℕ)) (token : ℕ) (info : NotifierInfo) (callbacks : List (ℕ × NotifierInfo))
    → AreHeld m callbacks
    → lookup token callbacks ≡ some info
    → (is_held token m ≡ true) × (is_notifier_map_empty info ≡ false)
unfolding lookup
found-AreHeld m token info [] h e = absurd (ground arith)
found-AreHeld m token info ((k, old) ∷ callbacks) h e =
    ground (arith, found-AreHeld m token info callbacks h.2)

pub set_notifier-is_there :
    (type : CbType) (n : ℕ) (info : NotifierInfo)
    → is_known type ≡ true
    → is_notifier_map_empty (set_notifier type (some n) info) ≡ false
set_notifier-is_there type n info e = ground arith

above-IsWithout :
    (token n : ℕ) (callbacks : List (ℕ × NotifierInfo))
    → token < n
    → Ascending n callbacks
    → IsWithout token callbacks
above-IsWithout token n [] a h = tt
above-IsWithout token n ((k, info) ∷ callbacks) a h =
    let below : token ≢ k = λ e. omega (arith, e, h.0, a) in
    (below, above-IsWithout token (suc k) callbacks (omega (arith, h.0)) h.1)

pub erase-IsWithout :
    (token n : ℕ) (callbacks : List (ℕ × NotifierInfo))
    → Ascending n callbacks
    → IsWithout token (erase token callbacks)
unfolding erase
erase-IsWithout token n [] h = tt
erase-IsWithout token n ((k, info) ∷ callbacks) h =
    ground
      (arith, erase-IsWithout token (suc k) callbacks h.1, above-IsWithout token (suc k) callbacks)
