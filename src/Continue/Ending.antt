-- ===== src/Continue/Ending.antt =====
-- How a continuation ends, and what it tells the quick start.
use mathlib.Core.Path.{subst}
use dmsfwk.Prelude.{true, ◌<◌, ◌≡◌, refl, sym, ap, ◌∙◌, some, List, [], ◌∷◌, arith}
use dmsfwk.Continue.{
  StateType, source_start_state, ability_state, source_wait_end_state, source_end_state,
  sink_start_state, data_state, sink_wait_end_state, sink_end_state, Direction, source, sink, Code,
  Event, Continue, Effect, Answers, err_ok, end_event,
}
use dmsfwk.Continue.Execute.{execute_continue_end, execute_continue_error, end_state}
use dmsfwk.Continue.States.{
  source_start, ability, wait_end, end, sink_start, data_received, execute_state, execute_current,
  execute, settle, process_event, run_next,
}
use dmsfwk.Continue.Order.{rank}

-- Where the end was posted, the next run ends the continuation with the result.
unfoldable pub Posted : Answers → Code → Continue → Continue → Type 0
Posted answers r c c' =
    (c'.state ≡ some (end_state c.direction))
    × (c'.queue ≡ end_event r ∷ [])
    × ((run_next answers c').1 ≡ (execute_continue_end r c).2)
    × ((run_next answers c').0.queue ≡ [])

execute-state :
    (answers : Answers) (e : Event) (c : Continue) (s : StateType)
    → c.state ≡ some s
    → execute answers e c ≡ execute_state s answers e c
unfolding execute
execute-state answers e c s at = ap (λ o. execute_current o answers e c) at

module _ (answers later : Answers) (r : Code) (c : Continue) (handler : c.has_handler ≡ true)
    (sends : answers.send_event ≡ true) (idle : c.queue ≡ []) where
  posted : Continue
  posted = record c { state = some (end_state c.direction); queue = end_event r ∷ [] }

  error-posted : (execute_continue_error answers r c).0 ≡ posted
  unfolding execute_continue_error posted
  error-posted = rw (handler, sends, idle)

  end-posted : (d : Direction) → c.direction ≡ d → Posted later r c posted
  unfolding Posted posted run_next process_event execute execute_state end execute_continue_end
  end-posted source h = rw h (refl, refl, refl, refl)
  end-posted sink h = rw h (refl, refl, refl, refl)

  execute_state-error :
      (s : StateType)
      → rank s < 3
      → (effects : List Effect) × (execute_state s answers (end_event r) c
          ≡ ((execute_continue_error answers r c).0, err_ok, effects))
  unfolding execute_state execute_continue_error source_start ability wait_end sink_start
      data_received
  execute_state-error source_start_state h = (_, refl)
  execute_state-error ability_state h = (_, refl)
  execute_state-error source_wait_end_state h = (_, refl)
  execute_state-error source_end_state h = absurd (omega arith)
  execute_state-error sink_start_state h = (_, refl)
  execute_state-error data_state h = (_, refl)
  execute_state-error sink_wait_end_state h = (_, refl)
  execute_state-error sink_end_state h = absurd (omega arith)

  process_event-posted :
      (s : StateType)
      → c.state ≡ some s
      → rank s < 3
      → (process_event answers (end_event r) c).0 ≡ posted
  unfolding process_event
  process_event-posted s at h =
      let (effects, same) = execute_state-error s h in
      ap (λ x. (settle answers x).0) (execute-state answers (end_event r) c s at ∙ same)
      ∙ error-posted

-- A continuation that runs and has nothing to do, and is told to end with a result in any state but
-- the end states, is then in the end state of its side, with the end posted again, if the event can
-- be sent; and the next event that it takes disconnects, cleans and notifies as
-- `ExecuteContinueEnd` does with that result, and leaves nothing to do.
pub run_next-process_event :
    (answers later : Answers) (r : Code) (c : Continue) (s : StateType)
    → c.has_handler ≡ true
    → answers.send_event ≡ true
    → c.queue ≡ []
    → c.state ≡ some s
    → rank s < 3
    → Posted later r c (process_event answers (end_event r) c).0
run_next-process_event answers later r c s handler sends idle at h =
    subst (Posted later r c)
      (sym (process_event-posted answers later r c handler sends idle s at h))
      (end-posted answers later r c handler sends idle c.direction refl)
