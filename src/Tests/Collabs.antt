-- ===== src/Tests/Collabs.antt =====
-- Collaborations at concrete inputs: a source that waits for the result of the sink.
use dmsfwk.Prelude.{◌≡◌, refl, true, false, none, some, [], ◌∷◌}
use dmsfwk.DschedCollab.{
  Collab, Answers, Code, err_ok, collab_source, source_wait_result_state, notify_result_event,
  end_event, err_end_event, notify_result_cmd, send, notify_prepare_result, disconnect_device,
  notify_disconnect, clean_up,
}
use dmsfwk.DschedCollab.Steps.{pack_notify_result_cmd}
use dmsfwk.DschedCollab.States.{process_event, run_next}
use dmsfwk.DschedCollab.Order.{Moves, process_event-Moves}
use dmsfwk.DschedCollab.Ending.{end_within}
use dmsfwk.DschedCollab.Runs.{run, runs, posts, run-ends}
use dmsfwk.DschedCollab.Failures.{process_event-lost_failure}

abbrev pub waiting : Collab
waiting = record {
  direction = collab_source;
  state = some source_wait_result_state;
  has_handler = true;
  queue = [];
  is_known = true;
  has_token = true;
  src_client_cb = some 5;
  sink_client_cb = none;
  sink_collab_version = 1;
  sink_collab_session_id = 8;
  socket_name = "";
}

abbrev pub all_well : Answers
all_well = record {
  send_event = true;
  connect_device_ret = err_ok;
  get_local_bundle_info = err_ok;
  get_caller_app_id = true;
  get_bundle_name_list = true;
  get_account_info = err_ok;
  marshal = err_ok;
  memcpy = err_ok;
  send_data = err_ok;
  send_request = err_ok;
  check_start_permission = err_ok;
  client_connect = err_ok;
  start_ability_ret = err_ok;
}

abbrev client_gone : Answers
client_gone = record all_well { send_request = Code.other 29 }

process_event-Moves_example :
    Moves source_wait_result_state
      (process_event all_well (notify_result_event err_ok) waiting).0.state
process_event-Moves_example =
    process_event-Moves all_well (notify_result_event err_ok) waiting source_wait_result_state refl

abbrev erring : Collab
erring = record waiting { queue = notify_result_event err_ok ∷ err_end_event (Code.other 3) ∷ [] }

erring_soon : end_within 2 erring.queue ≡ true
unfolding end_within
erring_soon = refl

run-ends_example :
    (run (runs all_well ∷ posts all_well end_event ∷ runs client_gone ∷ []) erring).is_known ≡ false
run-ends_example =
    run-ends (runs all_well ∷ posts all_well end_event ∷ runs client_gone ∷ []) erring
      source_wait_result_state refl refl erring_soon

process_event-lost_failure_example :
    ((process_event client_gone (notify_result_event err_ok) waiting).0.queue
      ≡ err_end_event err_ok ∷ [])
    × ((run_next all_well (process_event client_gone (notify_result_event err_ok) waiting).0).1
        ≡ send (notify_result_cmd (pack_notify_result_cmd waiting err_ok ""))
          ∷ notify_prepare_result 5 err_ok ""
          ∷ disconnect_device
          ∷ notify_disconnect 5
          ∷ clean_up
          ∷ [])
process_event-lost_failure_example =
    process_event-lost_failure client_gone all_well waiting 5 29 refl refl refl refl refl refl refl
      refl refl
