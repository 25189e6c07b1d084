-- ===== src/ContinueManager/Counts/Threads.antt =====
-- The counts stay those of the table in what the threads do, as long as no start comes from outside.
use mathlib.Core.Path.{subst}
use dmsfwk.Prelude.{
  ℕ, suc, ◌+◌, ◌≡◌, refl, sym, ap, ◌∙◌, inl, inr, none, some, List, [], ◌∷◌, ◌==◌, lookup,
  Ascending, Option-cases, if_cases, arith,
}
use dmsfwk.Continue.{Direction, source, sink, Answers, on_data_recv}
use dmsfwk.Continue.States.{run_next}
use dmsfwk.ContinueManager.{
  Entry, Arrived, start_arrived, command_arrived, System, Manager, data_task, end_task,
}
use dmsfwk.ContinueManager.Routing.{
  find_continue, hand_on, is_session, to_received, notify_continue_data_recv, end_session,
}
use dmsfwk.ContinueManager.Threads.{with_effects, any_effect, is_end, run_continue}
use dmsfwk.ContinueManager.Counts.{Names, one, number, Keyed, lookup-Keyed}
use dmsfwk.ContinueManager.Counts.Tables.{Separates}
use dmsfwk.ContinueManager.Counts.Kept.{
  IsQuiet, IsCounted, post_task-IsCounted, store-IsCounted, hand_on-IsCounted,
}

end_session-Ascending :
    (answers : Answers) (socket n : ℕ) (continues : List (ℕ × Entry))
    → Ascending n continues
    → Ascending n (end_session answers socket continues)
unfolding end_session
end_session-Ascending answers socket n [] h = tt
end_session-Ascending answers socket n ((k, e) ∷ continues) h =
    ground (arith, end_session-Ascending answers socket (suc k) continues h.1)

end_session-Keyed :
    (system : System) (Asked : Names) (answers : Answers) (socket : ℕ)
    (continues : List (ℕ × Entry))
    → Keyed system Asked continues
    → Keyed system Asked (end_session answers socket continues)
unfolding end_session
end_session-Keyed system Asked answers socket [] h = tt
end_session-Keyed system Asked answers socket ((k, e) ∷ continues) h =
    let rest = end_session-Keyed system Asked answers socket continues h.2 in
    if_cases (λ xs. Keyed system Asked xs) (socket == e.softbus_session_id) _ _
      (λ own. (h.0, h.1, rest)) (λ other. (h.0, h.1, rest))

number-end_session :
    (answers : Answers) (local socket : ℕ) (d : Direction) (continues : List (ℕ × Entry))
    → number local d (end_session answers socket continues) ≡ number local d continues
unfolding number end_session
number-end_session answers local socket d [] = refl
number-end_session answers local socket d ((k, e) ∷ continues) =
    let rest = ap (λ n. one local d e + n) (number-end_session answers local socket d continues) in
    if_cases (λ xs. number local d xs ≡ one local d e + number local d continues)
      (socket == e.softbus_session_id) _ _ (λ own. rest) (λ other. rest)

module _ (system : System) (local : ℕ) (Asked : Names) (apart : Separates system local Asked) where
  pub end_session-IsCounted :
      (answers : Answers) (socket : ℕ) (m : Manager)
      → IsCounted system local Asked m
      → IsCounted system local Asked
          (record m { continues = end_session answers socket m.continues })
  end_session-IsCounted answers socket m h = (
    (
      end_session-Ascending answers socket 0 m.continues h.0.0,
      end_session-Keyed system Asked answers socket m.continues h.0.1,
      h.0.2 ∙ sym (number-end_session answers local socket sink m.continues),
      h.0.3 ∙ sym (number-end_session answers local socket source m.continues),
      h.0.4,
      h.0.5,
    ),
    h.1,
  )

  for_nobody :
      (answers : Answers) (session : ℕ) (a : Arrived) (m : Manager)
      → IsQuiet system local Asked (data_task session (some a))
      → IsCounted system local Asked m
      → find_continue (is_session session) m.continues ≡ none
      → IsCounted system local Asked (notify_continue_data_recv system answers session a m)
  unfolding notify_continue_data_recv
  for_nobody answers session (start_arrived none) m quiet h nobody =
      rw (nobody, notify_continue_data_recv) h
  for_nobody answers session (start_arrived (some cmd)) m quiet h nobody = absurd quiet
  for_nobody answers session (command_arrived r) m quiet h nobody =
      rw (nobody, notify_continue_data_recv) h

  -- Anything that comes but a start.
  pub notify_continue_data_recv-IsCounted :
      (answers : Answers) (session : ℕ) (a : Arrived) (m : Manager)
      → IsQuiet system local Asked (data_task session (some a))
      → IsCounted system local Asked m
      → IsCounted system local Asked (notify_continue_data_recv system answers session a m)
  unfolding notify_continue_data_recv
  notify_continue_data_recv-IsCounted answers session a m quiet h =
      elim (Option-cases (find_continue (is_session session) m.continues)) [
        | inl nobody ↦ for_nobody answers session a m quiet h nobody
        | inr ((k, e), found) ↦
            let told =
              hand_on-IsCounted system local Asked apart (is_session session)
                (on_data_recv answers (to_received a)) m h in
            rw (found, notify_continue_data_recv)
              (subst
                (λ o.
                  IsCounted system local Asked (hand_on o (on_data_recv answers (to_received a)) m))
                found told)
      ]

  pub run_continue-IsCounted :
      (answers : Answers) (session ability k : ℕ) (m : Manager)
      → IsCounted system local Asked m
      → IsCounted system local Asked (run_continue answers session ability k m)
  unfolding run_continue
  run_continue-IsCounted answers session ability k m h =
      elim (Option-cases (lookup k m.continues)) [
        | inl absent ↦ rw (absent, run_continue) h
        | inr (e, there) ↦
            let e' = with_effects session ability e (run_next answers e.continuation) in
            let stored = store-IsCounted system local Asked apart k e' e m there refl (λ a. a) h in
            rw (there, run_continue)
              (if_cases (λ m'. IsCounted system local Asked m')
                (any_effect is_end (run_next answers e.continuation).1) _ _
                (λ ends.
                  post_task-IsCounted system local Asked (end_task e'.continue_info) _
                    (lookup-Keyed system Asked k e m.continues h.0.1 there).1 stored)
                (λ goes_on. stored))
      ]
