-- ===== src/DschedCollab/States.antt =====
-- collab/state: the state machine, one function for each state with its table of events, and
-- `ProcessEvent` of dsched_collab.cpp.

use dmsfwk.Prelude.{Option, none, some, List, [], ◌∷◌}
use dmsfwk.DschedCollab.{
  StateType, source_get_peer_version_state, source_start_state, source_wait_result_state,
  source_wait_end_state, sink_get_version_state, sink_start_state, sink_connect_state,
  sink_wait_end_state, err_ok, invalid_parameters_err, collab_state_machine_invalid_state,
  collab_ability_reject_err, Event, source_get_peer_version_event, source_get_version_event,
  source_start_event, get_sink_version_event, start_ability_event, end_event, notify_result_event,
  notify_prepare_result_event, err_end_event, ability_reject_event, Collab, Effect, Answers, Result,
  post_err_end_task,
}
use dmsfwk.DschedCollab.Steps.{
  exe_src_get_peer_version, exe_src_get_version, exe_src_start, exe_start_ability,
  exe_ability_reject_error, exe_sink_prepare_result, exe_src_collab_result, exe_src_start_error,
  exe_src_wait_result_error, exe_sink_get_version, exe_sink_error, exe_disconnect,
}

abbrev pub wrong_state : Collab → Result
wrong_state c = (c, collab_state_machine_invalid_state, [])

unfoldable pub src_get_peer_version : Answers → Event → Collab → Result
src_get_peer_version answers source_get_peer_version_event c = exe_src_get_peer_version answers c
src_get_peer_version answers source_get_version_event c = exe_src_get_version answers c
src_get_peer_version answers (err_end_event result) c = exe_src_start_error answers result c
src_get_peer_version answers _ c = wrong_state c

unfoldable pub src_start : Answers → Event → Collab → Result
src_start answers source_start_event c = exe_src_start answers c
src_start answers (err_end_event result) c = exe_src_start_error answers result c
src_start answers _ c = wrong_state c

unfoldable pub src_wait_result : Answers → Event → Collab → Result
src_wait_result answers (notify_result_event result) c = exe_src_collab_result answers result "" c
src_wait_result answers (ability_reject_event reason) c =
    exe_src_collab_result answers collab_ability_reject_err reason c
src_wait_result answers (err_end_event result) c = exe_src_wait_result_error answers result c
src_wait_result answers _ c = wrong_state c

-- The same table on both sides.
unfoldable pub wait_end : Answers → Event → Collab → Result
wait_end answers (err_end_event result) c = exe_disconnect answers c
wait_end answers end_event c = exe_disconnect answers c
wait_end answers _ c = wrong_state c

unfoldable pub sink_get_version : Answers → Event → Collab → Result
sink_get_version answers get_sink_version_event c = exe_sink_get_version answers c
sink_get_version answers (err_end_event result) c = exe_sink_error answers result c
sink_get_version answers _ c = wrong_state c

unfoldable pub sink_start : Answers → Event → Collab → Result
sink_start answers start_ability_event c = exe_start_ability answers c
sink_start answers (err_end_event result) c = exe_sink_error answers result c
sink_start answers _ c = wrong_state c

unfoldable pub sink_connect : Answers → Event → Collab → Result
sink_connect answers (notify_prepare_result_event result) c =
    exe_sink_prepare_result answers result c
sink_connect answers (ability_reject_event reason) c = exe_ability_reject_error answers reason c
sink_connect answers (err_end_event result) c = exe_sink_error answers result c
sink_connect answers _ c = wrong_state c

unfoldable pub execute_state : StateType → Answers → Event → Collab → Result
execute_state source_get_peer_version_state = src_get_peer_version
execute_state source_start_state = src_start
execute_state source_wait_result_state = src_wait_result
execute_state source_wait_end_state = wait_end
execute_state sink_get_version_state = sink_get_version
execute_state sink_start_state = sink_start
execute_state sink_connect_state = sink_connect
execute_state sink_wait_end_state = wait_end

abbrev pub execute_current : Option StateType → Answers → Event → Collab → Result
execute_current none answers e c = (c, invalid_parameters_err, [])
execute_current (some s) answers e c = execute_state s answers e c

-- `DSchedCollabStateMachine::Execute`
unfoldable pub execute : Answers → Event → Collab → Result
execute answers e c = execute_current c.state answers e c

-- A failed execution posts the end with its code.
abbrev pub settle : Answers → Result → Collab × List Effect
settle answers (c, err_ok, effects) = (c, effects)
settle answers (c, failed, effects) = ((post_err_end_task answers failed c).0, effects)

unfoldable pub process_event : Answers → Event → Collab → Collab × List Effect
process_event answers e c = settle answers (execute answers e c)

abbrev pub take_event : List Event → Answers → Collab → Collab × List Effect
take_event [] answers c = (c, [])
take_event (e ∷ es) answers c = process_event answers e (record c { queue = es })

-- The thread takes the first event of the queue.
unfoldable pub run_next : Answers → Collab → Collab × List Effect
run_next answers c = take_event c.queue answers c
