-- ===== src/CollabManager/Timers.antt =====
-- What a timer does to its collaboration, and whom a command reaches.

use dmsfwk.Prelude.{
  zero, ℕ, suc, ◌<◌, ◌≡◌, ◌≢◌, ◌⊎◌, refl, inl, inr, true, false, none, some, List, [], ◌∷◌, ◌++◌,
  ◌==◌, length, lookup, Ascending, lookup-insert_self, lookup_below, Bool-cases, arith,
}
use dmsfwk.DschedCollab.{
  StateType, Code, Event, err_end_event, collab_ability_timeout_err, Collab, Answers,
  post_err_end_task,
}
use dmsfwk.DschedCollab.Ending.{end_within}
use dmsfwk.DschedCollab.Runs.{Step, run, runs_in, run-ends}
use dmsfwk.CollabManager.{Entry, Manager, with_collab}
use dmsfwk.CollabManager.Table.{IsSound}
use dmsfwk.CollabManager.Routing.{on_time_out, Arrived, find_collab, notify_data_recv}

end_within-length :
    (n : ℕ) (q : List Event) (r : Code)
    → length q < n
    → end_within n (q ++ err_end_event r ∷ []) ≡ true
unfolding end_within
end_within-length zero q r h = absurd (omega arith)
end_within-length (suc n) [] r h = refl
end_within-length (suc n) (e ∷ q) r h =
    let rest = end_within-length n q r (omega (arith, h)) in ground arith

-- Where the timer of a token runs, and the collaboration with this token, which is not empty, is in some
-- state and can send itself events, the collaboration that the table then has for the token is cleaned up in every run of its
-- thread that takes more events than were waiting, whatever else is posted or answered.
pub on_time_out-ends :
    (answers : Answers) (token : ℕ) (m : Manager) (e : Entry) (s : StateType) (xs : List Step)
    → lookup token m.collabs ≡ some e
    → e.collab.state ≡ some s
    → e.collab.has_token ≡ true
    → e.collab.has_handler ≡ true
    → answers.send_event ≡ true
    → length e.collab.queue < runs_in xs
    → (e' : Entry) × (lookup token (on_time_out answers token m).collabs ≡ some e')
      × ((run xs e'.collab).is_known ≡ false)
unfolding on_time_out
on_time_out-ends answers token m e s xs there at named handler sends long =
    let c : Collab = (post_err_end_task answers collab_ability_timeout_err e.collab).0 in
    let e' = with_collab e c in
    let posted : c.queue ≡ e.collab.queue ++ err_end_event collab_ability_timeout_err ∷ [] =
      rw (handler, sends) in
    let at' : c.state ≡ some s = rw (handler, sends, at) in
    let named' : c.has_token ≡ true = rw (handler, sends, named) in
    let soon : end_within (runs_in xs) c.queue ≡ true =
      rw posted (end_within-length (runs_in xs) e.collab.queue collab_ability_timeout_err long) in
    (
      e',
      ground (arith, there, lookup-insert_self token e' m.collabs),
      run-ends xs c s at' named' soon,
    )

-- A command for a token finds nobody on a socket that is not the token's.
find_collab_elsewhere :
    (socket token n : ℕ) (collabs : List (ℕ × Entry))
    → Ascending n collabs
    → ((e : Entry) → lookup token collabs ≡ some e → e.softbus_session_id ≢ socket)
    → find_collab socket token collabs ≡ none
unfolding find_collab lookup
find_collab_elsewhere socket token n [] h d = refl
find_collab_elsewhere socket token n ((t, e) ∷ collabs) h d = elim (Bool-cases (t == token)) [
  | inl same ↦
      let absent : lookup token collabs ≡ none =
        lookup_below (suc t) token collabs (ground (arith, same)) h.1 in
      let rest =
        find_collab_elsewhere socket token (suc t) collabs h.1
          (λ e0 there. absurd (ground (arith, absent, there))) in
      let other : e.softbus_session_id ≢ socket = d e (rw same) in ground (arith, same, rest, other)
  | inr other ↦
      let rest =
        find_collab_elsewhere socket token (suc t) collabs h.1
          (λ e0 there. d e0 (rw other there)) in
      ground (arith, other, rest)
]

-- In a sound manager, what comes by a socket for a token whose collaboration is bound to another one leaves
-- the table of the collaborations as it was; at most a timer for the token is added.
pub notify_data_recv-elsewhere :
    (answers : Answers) (socket : ℕ) (a : Arrived) (m : Manager) (e : Entry)
    → IsSound m
    → lookup a.collab_token m.collabs ≡ some e
    → e.softbus_session_id ≢ socket
    → ((notify_data_recv answers socket a m).collabs ≡ m.collabs)
      × (((notify_data_recv answers socket a m).timeouts ≡ m.timeouts)
          ⊎ ((notify_data_recv answers socket a m).timeouts ≡ m.timeouts ++ a.collab_token ∷ []))
unfolding notify_data_recv
notify_data_recv-elsewhere answers socket a m e h there d =
    let nobody =
      find_collab_elsewhere socket a.collab_token 1 m.collabs h.1
        (λ e0 there0. ground (arith, there, there0, d)) in
    ground (arith, nobody, there, h.0)
