-- ===== src/AllConnect/Decisions.antt =====
-- Whose decision a result is.
use dmsfwk.Prelude.{
  ◌∙◌, ℕ, zero, suc, ◌≡◌, ◌≢◌, ap, Bool, true, none, some, List, [], ◌∷◌, lookup, insert,
  lookup-insert_self, lookup-insert_ne, arith,
}
use dmsfwk.AllConnect.{
  err_ok, dms_connect_apply_timeout_failed, library_failed, ResultCode, AllConnect,
  apply_advance_resource, wait_all_connect_apply_cb, apply_result, is_pass, decided, give_result,
  begin_wait,
}

-- The peer is not among these.
abbrev pub IsAbsent : ℕ → List (ℕ × ResultCode) → Type 0
IsAbsent peer [] = Unit {0}
IsAbsent peer ((p, r) ∷ rs) = (p ≢ peer) × IsAbsent peer rs

abbrev pub AreDistinct : List (ℕ × ResultCode) → Type 0
AreDistinct [] = Unit {0}
AreDistinct ((p, r) ∷ rs) = IsAbsent p rs × AreDistinct rs

abbrev pub peers : List (ℕ × ResultCode) → List ℕ
peers [] = []
peers ((p, r) ∷ rs) = p ∷ peers rs

-- The requests, one after another, that the library takes, and then the results.
abbrev pub request_all : List (ℕ × ResultCode) → AllConnect → AllConnect
request_all [] m = m
request_all ((p, r) ∷ rs) m = request_all rs (apply_advance_resource err_ok p m).0

-- The first of the results, at most `n`.
abbrev pub answer_first : ℕ → List (ℕ × ResultCode) → AllConnect → AllConnect
answer_first zero rs m = m
answer_first (suc n) [] m = m
answer_first (suc n) ((p, r) ∷ rs) m = answer_first n rs (apply_result r m)

-- What each peer's wait returns, whichever number of the results after its own have come when it ends.
abbrev pub AreAnswered : List (ℕ × ResultCode) → AllConnect → Type 0
AreAnswered [] m = Unit {0}
AreAnswered ((p, r) ∷ rs) m =
    ((n : ℕ)
      → (wait_all_connect_apply_cb p (answer_first n rs (apply_result r m))).1
        ≡ decided (is_pass r))
    × AreAnswered rs (apply_result r m)

-- No decision of these peers is left over, so that each of their requests waits.
abbrev pub AreFree : List (ℕ × ResultCode) → List (ℕ × Bool) → Type 0
AreFree [] decisions = Unit {0}
AreFree ((p, r) ∷ rs) decisions = (lookup p decisions ≡ none) × AreFree rs decisions

-- A result is the decision of the peer at the front.
result-given :
    (r : ResultCode) (p : ℕ) (q : List ℕ) (m : AllConnect)
    → m.peer_connect_cb_queue ≡ p ∷ q
    → ((apply_result r m).peer_connect_cb_queue ≡ q)
      × ((apply_result r m).peer_connect_decision ≡ insert p (is_pass r) m.peer_connect_decision)
unfolding apply_result
result-given r p q m e = (
  ap (λ o. (give_result o (is_pass r) m).peer_connect_cb_queue) e,
  ap (λ o. (give_result o (is_pass r) m).peer_connect_decision) e,
)

-- Two requests and one result: the library refuses the first and takes the second.
abbrev pub after_refusal : ℕ → ℕ → ℕ → ResultCode → AllConnect → AllConnect
after_refusal failed p q r m =
    apply_result r
      (apply_advance_resource err_ok q (apply_advance_resource (library_failed failed) p m).0).0

-- Where no request waits, and the library refuses the request of one peer and takes that of another, without
-- a decision so far, the result goes to the peer that was refused, and the other's wait times out.
pub apply_result-misdirected :
    (failed p q : ℕ) (r : ResultCode) (m : AllConnect)
    → m.has_library ≡ true
    → m.peer_connect_cb_queue ≡ []
    → p ≢ q
    → lookup q m.peer_connect_decision ≡ none
    → (lookup p (after_refusal failed p q r m).peer_connect_decision ≡ some (is_pass r))
      × ((wait_all_connect_apply_cb q (after_refusal failed p q r m)).1
          ≡ dms_connect_apply_timeout_failed)
unfolding apply_advance_resource begin_wait wait_all_connect_apply_cb
apply_result-misdirected failed p q r m lib idle d none_yet =
    let two =
      (apply_advance_resource err_ok q (apply_advance_resource (library_failed failed) p m).0).0 in
    let waiting : two.peer_connect_cb_queue ≡ p ∷ q ∷ [] = ground (arith, lib, idle) in
    let same : two.peer_connect_decision ≡ m.peer_connect_decision = ground (arith, lib) in
    let (left, given) = result-given r p (q ∷ []) two waiting in
    let own : lookup p (apply_result r two).peer_connect_decision ≡ some (is_pass r) =
      ap (lookup p) given ∙ lookup-insert_self p (is_pass r) two.peer_connect_decision in
    let others : lookup q (apply_result r two).peer_connect_decision ≡ none =
      ap (lookup q) given
      ∙ lookup-insert_ne p q (is_pass r) two.peer_connect_decision d
      ∙ ap (lookup q) same
      ∙ none_yet in
    (own, ground (arith, others))
