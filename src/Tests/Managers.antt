-- ===== src/Tests/Managers.antt =====
-- The manager of collaborations at concrete inputs: a table with one collaboration on a socket.
use dmsfwk.Prelude.{none, ◌≡◌, ◌⊎◌, refl, true, false, some, [], ◌∷◌, ◌++◌, lookup, arith}
use dmsfwk.DschedCollab.{err_ok, end_event, source_wait_result_state}
use dmsfwk.DschedCollab.Steps.{disconnect_recv}
use dmsfwk.DschedCollab.Runs.{run, runs as takes, posts}
use dmsfwk.CollabManager.{Entry, Manager}
use dmsfwk.CollabManager.Relations.{Side, CollabInfo}
use dmsfwk.CollabManager.Table.{IsSound}
use dmsfwk.CollabManager.Routing.{Arrived, on_time_out, notify_data_recv}
use dmsfwk.CollabManager.Steps.{arrives, step, step-IsSound}
use dmsfwk.CollabManager.Timers.{on_time_out-ends, notify_data_recv-elsewhere}
use dmsfwk.Tests.Collabs.{waiting, all_well}

abbrev here : Side
here = record { udid = 1; side_pid = some 100; access_token = 31; side_user_id = 0 }

abbrev there : Side
there = record { udid = 2; side_pid = some 200; access_token = 32; side_user_id = 0 }

abbrev asked : CollabInfo
asked = record { device_id = 1; pid = some 100; token_id = 31; user_id = 0 }

abbrev any_sink : CollabInfo
any_sink = record { device_id = 2; pid = none; token_id = 0; user_id = 0 }

abbrev bound : Entry
bound = record {
  collab = waiting;
  softbus_session_id = 40;
  src_bundle_name = 3;
  src_pid = 100;
  sink_pid = 200;
}

abbrev one_collab : Manager
one_collab = record { has_handler = true; collabs = (6, bound) ∷ []; timeouts = 6 ∷ [] }

abbrev disconnected : Arrived
disconnected = record {
  collab_token = 6;
  received = disconnect_recv err_ok;
  arrived_bundle_name = 3;
  arrived_pid = 100;
  is_get_version = false;
  is_for_here = true;
}

bound_there : lookup 6 one_collab.collabs ≡ some bound
unfolding lookup
bound_there = refl

one_collab-IsSound : IsSound one_collab
unfolding lookup
one_collab-IsSound = ground arith

step-IsSound_example : IsSound (step (arrives all_well 40 disconnected) one_collab)
step-IsSound_example =
    step-IsSound (arrives all_well 40 disconnected) one_collab (omega arith) one_collab-IsSound

on_time_out-ends_example :
    (e' : Entry) × (lookup 6 (on_time_out all_well 6 one_collab).collabs ≡ some e')
    × ((run (posts all_well end_event ∷ takes all_well ∷ []) e'.collab).is_known ≡ false)
on_time_out-ends_example =
    on_time_out-ends all_well 6 one_collab bound source_wait_result_state
      (posts all_well end_event ∷ takes all_well ∷ []) bound_there refl refl refl refl (omega arith)

notify_data_recv-elsewhere_example :
    ((notify_data_recv all_well 41 disconnected one_collab).collabs ≡ one_collab.collabs)
    × (((notify_data_recv all_well 41 disconnected one_collab).timeouts ≡ one_collab.timeouts)
        ⊎ ((notify_data_recv all_well 41 disconnected one_collab).timeouts
            ≡ one_collab.timeouts ++ disconnected.collab_token ∷ []))
notify_data_recv-elsewhere_example =
    notify_data_recv-elsewhere all_well 41 disconnected one_collab bound one_collab-IsSound
      bound_there (λ e. omega (arith, e))
