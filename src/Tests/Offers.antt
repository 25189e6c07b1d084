-- ===== src/Tests/Offers.antt =====
-- dms_continue_send_manager.cpp: the mission 3 of the user 100 is offered.
use dmsfwk.Prelude.{ℕ, ◌≡◌, refl, true, none, some, List, [], ◌∷◌, lookup, arith}
use dmsfwk.MissionConditions.{
  mission_event_focused, mission_event_inactive, mission_event_unfocused, continuestate_inactive,
  on_mission_state,
}
use dmsfwk.MissionConditions.Conditions.{
  check_system_send_condition, check_mission_send_condition, MaySend, zero_status,
}
use dmsfwk.SendManager.{
  SendMgr, Device, focus_timeout, query_broadcast_info, packet, notify_data_recv,
}
use dmsfwk.SendManager.Strategies.{World, send_continue_broadcast, on_mission_status_changed}
use dmsfwk.SendManager.Offers.{HasNumbers, is_offer, notify_data_recv-send_continue_broadcast}
use dmsfwk.SendManager.Forgotten.{HasNoTimer, on_mission_status_changed-on_mission_state}
use dmsfwk.Tests.Missions.{platform, status, other_status, manager}

abbrev device : Device
device = record {
  add_mmi_listener_ret = some 1;
  get_tick_count = 100;
  get_bundle_name_id = λ bundle. some 515;
  get_continue_type_id = λ bundle ability. some 7;
}

device-HasNumbers : HasNumbers device
unfolding query_broadcast_info
device-HasNumbers s ids e = ground arith

abbrev world : World
world = record {
  build = record { dms_check_wifi = true; dms_check_bluetooth = true };
  conditions = manager;
  platform = platform;
  device = device;
}

abbrev sender : SendMgr
sender = record {
  has_handler = true;
  mmi_monitor_id = none;
  timers = (3, focus_timeout) ∷ [];
  unfo_mission_id = 0;
  unfo_time = 0;
  unfo_status = zero_status platform;
}

abbrev offer : List ℕ
offer = 3 ∷ 2 ∷ 3 ∷ 7 ∷ []

offered_example :
    (check_system_send_condition world.build world.conditions ≡ true)
    × MaySend platform status mission_event_focused
    × (ids : ℕ × ℕ) × (query_broadcast_info device status ≡ some ids)
    × (notify_data_recv true offer ≡ some (ids.0, ids.1, is_offer mission_event_focused))
unfolding send_continue_broadcast query_broadcast_info packet check_system_send_condition
    check_mission_send_condition
offered_example =
    notify_data_recv-send_continue_broadcast world mission_event_focused status sender offer
      device-HasNumbers refl

abbrev later_world : World
later_world = record world {
  conditions = (on_mission_state continuestate_inactive 100 3 manager).0;
}

forgotten_example :
    ((on_mission_status_changed later_world 100 3 mission_event_inactive sender).1 ≡ [])
    × HasNoTimer 3
        (on_mission_status_changed later_world 100 3 mission_event_inactive sender).0.timers
    × ((on_mission_status_changed later_world 100 3 mission_event_unfocused
          (on_mission_status_changed later_world 100 3 mission_event_inactive sender).0).1
        ≡ [])
unfolding lookup
forgotten_example =
    on_mission_status_changed-on_mission_state later_world 100 3 status
      ((3, status) ∷ (4, other_status) ∷ []) manager sender refl refl refl
      (λ same. ground (arith, same)) refl
