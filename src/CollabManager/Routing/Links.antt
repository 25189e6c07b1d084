-- ===== src/CollabManager/Routing/Links.antt =====
-- Closing and releasing the collaborations of a client keeps the table.
use dmsfwk.Prelude.{
  ℕ, suc, ◌≡◌, refl, inl, inr, true, Option, none, some, List, [], ◌∷◌, ◌==◌, lookup, Ascending,
  Bool-cases, arith,
}
use dmsfwk.DschedCollab.{Answers}
use dmsfwk.CollabManager.{Entry, Manager}
use dmsfwk.CollabManager.Table.{AllKnown, AreIn, is_some, IsSound}
use dmsfwk.CollabManager.Routing.{handle_close_sessions, handle_release_ability_link, released}

released_known :
    (answers : Answers) (bundle pid : ℕ) (e : Entry)
    → e.collab.is_known ≡ true
    → (released answers bundle pid e).collab.is_known ≡ true
released_known answers bundle pid e h = ground arith

abbrev pub release_found : Answers → ℕ → ℕ → Option Entry → Option Entry
release_found answers bundle pid none = none
release_found answers bundle pid (some e) = some (released answers bundle pid e)

lookup-handle_release_ability_link :
    (answers : Answers) (bundle pid token : ℕ) (collabs : List (ℕ × Entry))
    → lookup token (handle_release_ability_link answers bundle pid collabs)
      ≡ release_found answers bundle pid (lookup token collabs)
unfolding handle_release_ability_link lookup
lookup-handle_release_ability_link answers bundle pid token [] = refl
lookup-handle_release_ability_link answers bundle pid token ((t, e) ∷ collabs) =
    elim (Bool-cases (t == token)) [
      | inl same ↦ rw same
      | inr other ↦ rw other (lookup-handle_release_ability_link answers bundle pid token collabs)
    ]

release-Ascending :
    (answers : Answers) (bundle pid n : ℕ) (collabs : List (ℕ × Entry))
    → Ascending n collabs
    → Ascending n (handle_release_ability_link answers bundle pid collabs)
unfolding handle_release_ability_link
release-Ascending answers bundle pid n [] h = tt
release-Ascending answers bundle pid n ((t, e) ∷ collabs) h =
    (h.0, release-Ascending answers bundle pid (suc t) collabs h.1)

release-AllKnown :
    (answers : Answers) (bundle pid : ℕ) (collabs : List (ℕ × Entry))
    → AllKnown collabs
    → AllKnown (handle_release_ability_link answers bundle pid collabs)
unfolding handle_release_ability_link
release-AllKnown answers bundle pid [] h = tt
release-AllKnown answers bundle pid ((t, e) ∷ collabs) h =
    (released_known answers bundle pid e h.0, release-AllKnown answers bundle pid collabs h.1)

release-AreIn :
    (answers : Answers) (bundle pid : ℕ) (collabs : List (ℕ × Entry)) (ts : List ℕ)
    → AreIn collabs ts
    → AreIn (handle_release_ability_link answers bundle pid collabs) ts
release-AreIn answers bundle pid collabs [] h = tt
release-AreIn answers bundle pid collabs (t ∷ ts) h = (
  ground (arith, lookup-handle_release_ability_link answers bundle pid t collabs),
  release-AreIn answers bundle pid collabs ts h.1,
)

pub release-IsSound :
    (answers : Answers) (bundle pid : ℕ) (m : Manager)
    → IsSound m
    → IsSound (record m { collabs = handle_release_ability_link answers bundle pid m.collabs })
release-IsSound answers bundle pid m h = (
  h.0,
  release-Ascending answers bundle pid 1 m.collabs h.1,
  release-AllKnown answers bundle pid m.collabs h.2,
  release-AreIn answers bundle pid m.collabs m.timeouts h.3,
)

close-Ascending :
    (answers : Answers) (bundle pid n : ℕ) (collabs : List (ℕ × Entry))
    → Ascending n collabs
    → Ascending n (handle_close_sessions answers bundle pid collabs).0
unfolding handle_close_sessions
close-Ascending answers bundle pid n [] h = tt
close-Ascending answers bundle pid n ((t, e) ∷ collabs) h =
    ground (arith, close-Ascending answers bundle pid (suc t) collabs h.1)

close-AllKnown :
    (answers : Answers) (bundle pid : ℕ) (collabs : List (ℕ × Entry))
    → AllKnown collabs
    → AllKnown (handle_close_sessions answers bundle pid collabs).0
unfolding handle_close_sessions
close-AllKnown answers bundle pid [] h = tt
close-AllKnown answers bundle pid ((t, e) ∷ collabs) h =
    ground (arith, close-AllKnown answers bundle pid collabs h.1)

close-is_some :
    (answers : Answers) (bundle pid token : ℕ) (collabs : List (ℕ × Entry))
    → is_some (lookup token (handle_close_sessions answers bundle pid collabs).0)
      ≡ is_some (lookup token collabs)
unfolding handle_close_sessions lookup
close-is_some answers bundle pid token [] = refl
close-is_some answers bundle pid token ((t, e) ∷ collabs) =
    ground (arith, close-is_some answers bundle pid token collabs)

close-AreIn :
    (answers : Answers) (bundle pid : ℕ) (collabs : List (ℕ × Entry)) (ts : List ℕ)
    → AreIn collabs ts
    → AreIn (handle_close_sessions answers bundle pid collabs).0 ts
close-AreIn answers bundle pid collabs [] h = tt
close-AreIn answers bundle pid collabs (t ∷ ts) h = (
  ground (arith, close-is_some answers bundle pid t collabs),
  close-AreIn answers bundle pid collabs ts h.1,
)

pub close-IsSound :
    (answers : Answers) (bundle pid : ℕ) (m : Manager)
    → IsSound m
    → IsSound (record m { collabs = (handle_close_sessions answers bundle pid m.collabs).0 })
close-IsSound answers bundle pid m h = (
  h.0,
  close-Ascending answers bundle pid 1 m.collabs h.1,
  close-AllKnown answers bundle pid m.collabs h.2,
  close-AreIn answers bundle pid m.collabs m.timeouts h.3,
)
