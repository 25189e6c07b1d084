-- ===== src/Continue/States.antt =====
-- continue/state: the state machine, one function for each state with its table of events, and
-- `ProcessEvent` of dsched_continue.cpp.
use dmsfwk.Prelude.{Option, none, some, List, [], ◌∷◌, ◌++◌}
use dmsfwk.Continue.{
  StateType, Event, Continue, Effect, Answers, Result, post_continue_end_task, source_start_state,
  ability_state, source_wait_end_state, source_end_state, sink_start_state, data_state,
  sink_wait_end_state, sink_end_state, err_ok, invalid_parameters_err,
  continue_state_machine_invalid_state, req_pull_event, req_push_event, ability_event, data_event,
  send_data_event, complete_event, end_event, quick_start_success, quick_start_failed,
}
use dmsfwk.Continue.Execute.{
  execute_continue_req, execute_continue_ability, execute_continue_reply, execute_continue_send,
  execute_continue_data, execute_notify_complete, execute_continue_end, execute_continue_error,
  execute_quick_start,
}

abbrev pub wrong_state : Continue → Result
wrong_state c = (c, continue_state_machine_invalid_state, [])

unfoldable pub source_start : Answers → Event → Continue → Result
source_start answers req_push_event c = execute_continue_req answers c
source_start answers ability_event c = execute_continue_ability answers c
source_start answers (complete_event result) c = execute_continue_end result c
source_start answers (end_event result) c = execute_continue_error answers result c
source_start answers _ c = wrong_state c

unfoldable pub ability : Answers → Event → Continue → Result
ability answers (send_data_event has_data) c = execute_continue_send answers has_data c
ability answers (complete_event result) c = execute_continue_end result c
ability answers (end_event result) c = execute_continue_error answers result c
ability answers _ c = wrong_state c

unfoldable pub wait_end : Answers → Event → Continue → Result
wait_end answers (complete_event result) c = execute_notify_complete answers result c
wait_end answers (end_event result) c = execute_continue_error answers result c
wait_end answers _ c = wrong_state c

unfoldable pub end : Answers → Event → Continue → Result
end answers (end_event result) c = execute_continue_end result c
end answers _ c = wrong_state c

-- A task of the sink that tells the quick start afterwards how it went.
abbrev pub then_notice : Answers → Effect → Result → Result
then_notice answers notice (c, code, effects) =
    (c, code, effects ++ execute_quick_start answers notice c)

unfoldable pub sink_start : Answers → Event → Continue → Result
sink_start answers req_pull_event c = execute_continue_req answers c
sink_start answers ability_event c = execute_continue_reply answers c
sink_start answers (complete_event result) c =
    then_notice answers (quick_start_failed result) (execute_continue_end result c)
sink_start answers (end_event result) c =
    then_notice answers (quick_start_failed result) (execute_continue_error answers result c)
sink_start answers _ c = wrong_state c

unfoldable pub data_received : Answers → Event → Continue → Result
data_received answers (data_event has_cmd) c =
    then_notice answers quick_start_success (execute_continue_data answers has_cmd c)
data_received answers (complete_event result) c =
    then_notice answers (quick_start_failed result) (execute_continue_end result c)
data_received answers (end_event result) c =
    then_notice answers (quick_start_failed result) (execute_continue_error answers result c)
data_received answers _ c = wrong_state c

unfoldable pub execute_state : StateType → Answers → Event → Continue → Result
execute_state source_start_state = source_start
execute_state ability_state = ability
execute_state source_wait_end_state = wait_end
execute_state source_end_state = end
execute_state sink_start_state = sink_start
execute_state data_state = data_received
execute_state sink_wait_end_state = wait_end
execute_state sink_end_state = end

abbrev pub execute_current : Option StateType → Answers → Event → Continue → Result
execute_current none answers e c = (c, invalid_parameters_err, [])
execute_current (some s) answers e c = execute_state s answers e c

-- `DSchedContinueStateMachine::Execute`
unfoldable pub execute : Answers → Event → Continue → Result
execute answers e c = execute_current c.state answers e c

-- A failed execution posts the end with its code.
abbrev pub settle : Answers → Result → Continue × List Effect
settle answers (c, err_ok, effects) = (c, effects)
settle answers (c, failed, effects) = ((post_continue_end_task answers failed c).0, effects)

unfoldable pub process_event : Answers → Event → Continue → Continue × List Effect
process_event answers e c = settle answers (execute answers e c)

abbrev pub take_event : List Event → Answers → Continue → Continue × List Effect
take_event [] answers c = (c, [])
take_event (e ∷ es) answers c = process_event answers e (record c { queue = es })

-- The thread takes the first event of the queue.
unfoldable pub run_next : Answers → Continue → Continue × List Effect
run_next answers c = take_event c.queue answers c
