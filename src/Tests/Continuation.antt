-- ===== src/Tests/Continuation.antt =====
-- dsched_continue.cpp: a pull whose sink waits for the data.
use dmsfwk.Prelude.{true, false, ◌≡◌, refl, some, [], ◌∷◌, arith}
use dmsfwk.Continue.{
  Answers, Continue, sink, pull, data_state, err_ok, other, end_event, data_event,
  quick_start_success,
}
use dmsfwk.Continue.States.{process_event}
use dmsfwk.Continue.Order.{Follows}
use dmsfwk.Continue.Runs.{posts, runs, run, run-Follows}
use dmsfwk.Continue.Ending.{Posted, run_next-process_event}
use dmsfwk.Continue.Notices.{process_event-quick_start_success}

abbrev pub answers : Answers
answers = record {
  send_event = true;
  check_quick_start_configuration = true;
  connect_device_ret = err_ok;
  pack_start_cmd = err_ok;
  send_command = err_ok;
  get_mission_id = (err_ok, 5);
  check_bundle_continue_config = true;
  get_mission_info = err_ok;
  is_continue_active = true;
  continue_ability_ret = err_ok;
  get_local_bundle_info = err_ok;
  get_source_exit = some true;
  has_continuation_flag = true;
  set_want_for_continuation = err_ok;
  get_caller_app_id = true;
  get_bundle_name_list = true;
  get_account_info = err_ok;
  get_local_device_id = true;
  check_device_id_from_remote = true;
  check_start_permission = other 8;
  has_continue_session_id = false;
  get_persistent_id = (err_ok, 0);
  get_persistent_id_again = (err_ok, 0);
  start_ability_ret = err_ok;
  quick_start_persistent_id = err_ok;
}

abbrev waiting : Continue
waiting = record {
  direction = sink;
  sub_service = pull;
  state = some data_state;
  has_handler = true;
  queue = [];
  mission_id = 0;
  sink_mission_id = 40;
  is_source_exit = true;
}

run-Follows_example :
    Follows sink data_state
      (run (posts answers (data_event true) ∷ runs answers ∷ runs answers ∷ []) waiting)
run-Follows_example =
    run-Follows (posts answers (data_event true) ∷ runs answers ∷ runs answers ∷ []) waiting
      data_state refl refl

run_next-process_event_example :
    Posted answers (other 3) waiting (process_event answers (end_event (other 3)) waiting).0
run_next-process_event_example =
    run_next-process_event answers answers (other 3) waiting data_state refl refl refl refl
      (omega arith)

process_event-quick_start_success_example :
    process_event answers (data_event true) waiting
    ≡ (record waiting { queue = end_event (other 8) ∷ [] }, quick_start_success ∷ [])
process_event-quick_start_success_example =
    process_event-quick_start_success answers waiting 8 refl refl refl refl refl refl refl
