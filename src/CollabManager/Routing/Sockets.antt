-- ===== src/CollabManager/Routing/Sockets.antt =====
-- The operations that go through the whole table keep its keys, and post to whom they mean.
use dmsfwk.Prelude.{
  ℕ, suc, ◌≡◌, ◌≢◌, refl, Bool, true, false, Option, none, some, List, [], ◌∷◌, ◌++◌, lookup,
  Ascending, arith,
}
use dmsfwk.DschedCollab.{err_end_event, collab_session_shutdown, Answers}
use dmsfwk.CollabManager.{Entry, Manager}
use dmsfwk.CollabManager.Table.{AllKnown, AreIn, IsSound}
use dmsfwk.CollabManager.Routing.{shut, shut_all, on_shutdown}

shut_all-Ascending :
    (answers : Answers) (socket n : ℕ) (collabs : List (ℕ × Entry))
    → Ascending n collabs
    → Ascending n (shut_all answers socket collabs)
unfolding shut_all
shut_all-Ascending answers socket n [] h = tt
shut_all-Ascending answers socket n ((t, e) ∷ collabs) h =
    (h.0, shut_all-Ascending answers socket (suc t) collabs h.1)

shut_known :
    (answers : Answers) (socket : ℕ) (e : Entry)
    → e.collab.is_known ≡ true
    → (shut answers socket e).collab.is_known ≡ true
shut_known answers socket e h = ground arith

shut_all-AllKnown :
    (answers : Answers) (socket : ℕ) (collabs : List (ℕ × Entry))
    → AllKnown collabs
    → AllKnown (shut_all answers socket collabs)
unfolding shut_all
shut_all-AllKnown answers socket [] h = tt
shut_all-AllKnown answers socket ((t, e) ∷ collabs) h =
    (shut_known answers socket e h.0, shut_all-AllKnown answers socket collabs h.1)

abbrev pub shut_found : Answers → ℕ → Option Entry → Option Entry
shut_found answers socket none = none
shut_found answers socket (some e) = some (shut answers socket e)

lookup-shut_all :
    (answers : Answers) (socket token : ℕ) (collabs : List (ℕ × Entry))
    → lookup token (shut_all answers socket collabs)
      ≡ shut_found answers socket (lookup token collabs)
unfolding shut_all lookup
lookup-shut_all answers socket token [] = refl
lookup-shut_all answers socket token ((t, e) ∷ collabs) =
    ground (arith, lookup-shut_all answers socket token collabs)

shut_all-AreIn :
    (answers : Answers) (socket : ℕ) (collabs : List (ℕ × Entry)) (ts : List ℕ)
    → AreIn collabs ts
    → AreIn (shut_all answers socket collabs) ts
shut_all-AreIn answers socket collabs [] h = tt
shut_all-AreIn answers socket collabs (t ∷ ts) h = (
  ground (arith, lookup-shut_all answers socket t collabs),
  shut_all-AreIn answers socket collabs ts h.1,
)

pub on_shutdown-IsSound :
    (answers : Answers) (socket : ℕ) (self : Bool) (m : Manager)
    → IsSound m
    → IsSound (on_shutdown answers socket self m)
unfolding on_shutdown
on_shutdown-IsSound answers socket self m h = ground (
  arith,
  shut_all-Ascending answers socket 1 m.collabs h.1,
  shut_all-AllKnown answers socket m.collabs h.2,
  shut_all-AreIn answers socket m.collabs m.timeouts h.3,
)

-- What the other side's shutdown of a socket means to one collaboration: an error at the end of its queue
-- where it is bound to this socket, if its events can be sent, and nothing else.
abbrev pub IsShut : Answers → ℕ → Entry → Entry → Type 0
IsShut answers socket e e' =
    (e.softbus_session_id ≡ socket
      → e.collab.has_handler ≡ true
      → answers.send_event ≡ true
      → e'.collab.queue ≡ e.collab.queue ++ err_end_event collab_session_shutdown ∷ [])
    × (e.softbus_session_id ≢ socket → e' ≡ e)

shut-IsShut :
    (answers : Answers) (socket : ℕ) (e : Entry) → IsShut answers socket e (shut answers socket e)
shut-IsShut answers socket e = ground arith

-- Where a socket is shut by the other side, and the manager runs, each collaboration of the table stays in
-- its place, and those on the socket, and no others, get the error of a shutdown at the end of their
-- queues, if their events can be sent.
pub on_shutdown-IsShut :
    (answers : Answers) (socket token : ℕ) (e : Entry) (m : Manager)
    → m.has_handler ≡ true
    → lookup token m.collabs ≡ some e
    → (e' : Entry) × (lookup token (on_shutdown answers socket false m).collabs ≡ some e')
      × IsShut answers socket e e'
unfolding on_shutdown
on_shutdown-IsShut answers socket token e m handler there = (
  shut answers socket e,
  ground (arith, lookup-shut_all answers socket token m.collabs),
  shut-IsShut answers socket e,
)
