-- ===== src/DschedCollab/Failures.antt =====
-- What a failure tells the other side.

use text.Mathlib.Text.{◌==◌ as str_eq}
use dmsfwk.Prelude.{ℕ, ◌≡◌, refl, true, some, [], ◌∷◌, arith}
use dmsfwk.DschedCollab.{
  source_wait_result_state, collab_source, Code, err_ok, err_end_event, notify_result_event,
  notify_result_cmd, Collab, send, clean_up, disconnect_device, notify_prepare_result,
  notify_disconnect, Answers,
}
use dmsfwk.DschedCollab.Steps.{
  exe_src_collab_result, exe_src_wait_result_error, clean_up_session, pack_notify_result_cmd,
}
use dmsfwk.DschedCollab.Order.{execute_at}
use dmsfwk.DschedCollab.States.{src_wait_result, execute_state, process_event, run_next, settle}

no_reason : str_eq "" "" ≡ true
no_reason = refl

-- The result is posted, not the failure.
result-posted :
    (answers : Answers) (c : Collab) (client failed : ℕ)
    → c.has_handler ≡ true
    → c.queue ≡ []
    → c.src_client_cb ≡ some client
    → answers.send_event ≡ true
    → answers.send_request ≡ Code.other failed
    → (settle answers
        (execute_state source_wait_result_state answers (notify_result_event err_ok) c)).0
      ≡ record c { queue = err_end_event err_ok ∷ [] }
unfolding execute_state src_wait_result exe_src_collab_result
result-posted answers c client failed handler idle cb sends fails = ground (arith, no_reason)

-- What the source does with the end.
end-executed :
    (answers : Answers) (r : Code) (c : Collab) (client : ℕ)
    → c.direction ≡ collab_source
    → c.src_client_cb ≡ some client
    → answers.marshal ≡ err_ok
    → answers.memcpy ≡ err_ok
    → (settle answers (execute_state source_wait_result_state answers (err_end_event r) c)).1
      ≡ send (notify_result_cmd (pack_notify_result_cmd c r ""))
        ∷ notify_prepare_result client r ""
        ∷ disconnect_device
        ∷ notify_disconnect client
        ∷ clean_up
        ∷ []
unfolding execute_state src_wait_result exe_src_wait_result_error clean_up_session
end-executed answers r c client d cb m1 m2 = rw (d, cb, m1, m2)

-- A source that waits for the result, runs, has nothing to do, and is told that all is well, but whose
-- client is there and cannot be told, and whose next event can be sent: what comes next is the end with
-- the code `ERR_OK`, and so, where the command for the sink can then be marshalled and copied, the sink and
-- the client are told of a success, and the clean-up of the session is called.
pub process_event-lost_failure :
    (answers later : Answers) (c : Collab) (client failed : ℕ)
    → c.direction ≡ collab_source
    → c.state ≡ some source_wait_result_state
    → c.has_handler ≡ true
    → c.queue ≡ []
    → c.src_client_cb ≡ some client
    → answers.send_event ≡ true
    → answers.send_request ≡ Code.other failed
    → later.marshal ≡ err_ok
    → later.memcpy ≡ err_ok
    → ((process_event answers (notify_result_event err_ok) c).0.queue ≡ err_end_event err_ok ∷ [])
      × ((run_next later (process_event answers (notify_result_event err_ok) c).0).1
          ≡ send (notify_result_cmd (pack_notify_result_cmd c err_ok ""))
            ∷ notify_prepare_result client err_ok ""
            ∷ disconnect_device
            ∷ notify_disconnect client
            ∷ clean_up
            ∷ [])
unfolding process_event run_next
process_event-lost_failure answers later c client failed d at handler idle cb sends fails m1 m2 =
    let posted : (process_event answers (notify_result_event err_ok) c).0
        ≡ record c { queue = err_end_event err_ok ∷ [] } =
      rw (execute_at answers (notify_result_event err_ok) c source_wait_result_state at)
        (result-posted answers c client failed handler idle cb sends fails) in
    rw posted (
      refl,
      rw
          (execute_at later (err_end_event err_ok) (record c { queue = [] })
            source_wait_result_state at)
          (end-executed later err_ok (record c { queue = [] }) client d cb m1 m2),
    )
