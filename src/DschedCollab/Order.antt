-- ===== src/DschedCollab/Order.antt =====
-- The states of a collaboration are those of its side, and each event moves at most one step on.

use dmsfwk.Prelude.{ap, ◌≡◌, ◌⊎◌, Option, some, arith}
use dmsfwk.DschedCollab.{
  StateType, source_get_peer_version_state, source_start_state, source_wait_result_state,
  source_wait_end_state, sink_get_version_state, sink_start_state, sink_connect_state,
  sink_wait_end_state, Event, Collab, Answers, Result,
}
use dmsfwk.DschedCollab.Steps.{
  exe_src_get_peer_version, exe_src_get_version, exe_src_start, exe_start_ability,
  exe_ability_reject_error, exe_sink_prepare_result, exe_src_collab_result, exe_src_start_error,
  exe_src_wait_result_error, exe_sink_get_version, exe_sink_error, exe_disconnect, clean_up_session,
}
use dmsfwk.DschedCollab.States.{
  src_get_peer_version, src_start, src_wait_result, wait_end, sink_get_version, sink_start,
  sink_connect, execute_state, execute, settle, process_event, execute_current,
}

-- The state that a session is in next, where its events may move it.
abbrev pub next : StateType → StateType
next source_get_peer_version_state = source_get_peer_version_state
next source_start_state = source_wait_result_state
next source_wait_result_state = source_wait_end_state
next source_wait_end_state = source_wait_end_state
next sink_get_version_state = sink_start_state
next sink_start_state = sink_connect_state
next sink_connect_state = sink_wait_end_state
next sink_wait_end_state = sink_wait_end_state

abbrev pub Moves : StateType → Option StateType → Type 0
Moves s s' = (s' ≡ some s) ⊎ (s' ≡ some (next s))

module _ (answers : Answers) (c : Collab) where
  src_get_peer_version-Moves :
      (e : Event)
      → c.state ≡ some source_get_peer_version_state
      → Moves source_get_peer_version_state (src_get_peer_version answers e c).0.state
  unfolding src_get_peer_version exe_src_get_peer_version exe_src_get_version exe_src_start_error
      clean_up_session
  src_get_peer_version-Moves e at = ground arith

  src_start-Moves :
      (e : Event)
      → c.state ≡ some source_start_state
      → Moves source_start_state (src_start answers e c).0.state
  unfolding src_start exe_src_start exe_src_start_error clean_up_session
  src_start-Moves e at = ground arith

  src_wait_result-Moves :
      (e : Event)
      → c.state ≡ some source_wait_result_state
      → Moves source_wait_result_state (src_wait_result answers e c).0.state
  unfolding src_wait_result exe_src_collab_result exe_src_wait_result_error clean_up_session
  src_wait_result-Moves e at = ground arith

  wait_end-Moves :
      (e : Event) (s : StateType) → c.state ≡ some s → Moves s (wait_end answers e c).0.state
  unfolding wait_end exe_disconnect clean_up_session
  wait_end-Moves e s at = ground arith

  sink_get_version-Moves :
      (e : Event)
      → c.state ≡ some sink_get_version_state
      → Moves sink_get_version_state (sink_get_version answers e c).0.state
  unfolding sink_get_version exe_sink_get_version exe_sink_error clean_up_session
  sink_get_version-Moves e at = ground arith

  sink_start-Moves :
      (e : Event)
      → c.state ≡ some sink_start_state
      → Moves sink_start_state (sink_start answers e c).0.state
  unfolding sink_start exe_start_ability exe_sink_error clean_up_session
  sink_start-Moves e at = ground arith

  sink_connect-Moves :
      (e : Event)
      → c.state ≡ some sink_connect_state
      → Moves sink_connect_state (sink_connect answers e c).0.state
  unfolding sink_connect exe_sink_prepare_result exe_ability_reject_error exe_sink_error
      clean_up_session
  sink_connect-Moves e at = ground arith

  execute_state-Moves :
      (s : StateType) (e : Event) → c.state ≡ some s → Moves s (execute_state s answers e c).0.state
  unfolding execute_state
  execute_state-Moves source_get_peer_version_state e at = src_get_peer_version-Moves e at
  execute_state-Moves source_start_state e at = src_start-Moves e at
  execute_state-Moves source_wait_result_state e at = src_wait_result-Moves e at
  execute_state-Moves source_wait_end_state e at = wait_end-Moves e source_wait_end_state at
  execute_state-Moves sink_get_version_state e at = sink_get_version-Moves e at
  execute_state-Moves sink_start_state e at = sink_start-Moves e at
  execute_state-Moves sink_connect_state e at = sink_connect-Moves e at
  execute_state-Moves sink_wait_end_state e at = wait_end-Moves e sink_wait_end_state at

settle-state : (answers : Answers) (r : Result) → (settle answers r).0.state ≡ r.0.state
settle-state answers (c, code, effects) = ground arith

-- The machine executes in its current state.
pub execute_at :
    (answers : Answers) (e : Event) (c : Collab) (s : StateType)
    → c.state ≡ some s
    → execute answers e c ≡ execute_state s answers e c
unfolding execute
execute_at answers e c s at = ap (λ o. execute_current o answers e c) at

-- Whatever the calls answer, an event leaves a collaboration in its state, or moves it to the next one
-- of its side, in the order start, wait for the result, wait for the end on the source, and get the
-- version, start, connect, wait for the end on the sink.
pub process_event-Moves :
    (answers : Answers) (e : Event) (c : Collab) (s : StateType)
    → c.state ≡ some s
    → Moves s (process_event answers e c).0.state
unfolding process_event
process_event-Moves answers e c s at =
    let moved = execute_state-Moves answers c s e at in
    let kept = settle-state answers (execute_state s answers e c) in
    rw (execute_at answers e c s at, kept) moved
