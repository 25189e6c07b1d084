-- ===== src/Continue/Notices.antt =====
-- What the sink tells the quick start after the data of a continuation.
use dmsfwk.Prelude.{ℕ, true, false, ◌≡◌, ap, ◌∙◌, some, [], ◌∷◌, ◌++◌, ◌==◌}
use dmsfwk.Continue.{
  Continue, Answers, data_state, data_event, end_event, other, quick_start_success,
}
use dmsfwk.Continue.Execute.{execute_continue_data}
use dmsfwk.Continue.States.{
  data_received, execute_state, execute, settle, process_event, execute_current, then_notice,
}

refused :
    (answers : Answers) (c : Continue) (n : ℕ)
    → answers.get_local_device_id ≡ true
    → answers.check_device_id_from_remote ≡ true
    → answers.check_start_permission ≡ other n
    → execute_continue_data answers true c ≡ (c, other n, [])
unfolding execute_continue_data
refused answers c n local remote permission = rw (local, remote, permission, execute_continue_data)

-- Where the data of a continuation arrives and the permission to start the ability is refused with
-- another component's code, the end is posted with that code, if the event can be sent, but the
-- quick start is told of a success, if the mission on the sink is known.
pub process_event-quick_start_success :
    (answers : Answers) (c : Continue) (n : ℕ)
    → c.state ≡ some data_state
    → c.has_handler ≡ true
    → (c.sink_mission_id == 0) ≡ false
    → answers.send_event ≡ true
    → answers.get_local_device_id ≡ true
    → answers.check_device_id_from_remote ≡ true
    → answers.check_start_permission ≡ other n
    → process_event answers (data_event true) c
      ≡ (record c { queue = c.queue ++ end_event (other n) ∷ [] }, quick_start_success ∷ [])
unfolding process_event execute execute_state data_received
process_event-quick_start_success answers c n at handler mission sends local remote permission =
    ap (λ o. settle answers (execute_current o answers (data_event true) c)) at
    ∙ ap (λ x. settle answers (then_notice answers quick_start_success x))
        (refused answers c n local remote permission)
    ∙ rw (mission, handler, sends)
