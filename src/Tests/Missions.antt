-- ===== src/Tests/Missions.antt =====
-- dms_continue_condition_manager.cpp: the user 100 with the missions 3 and 4 of the bundles 5 and 6.
use dmsfwk.Prelude.{
  ◌↔◌, ◌≡◌, refl, inl, inr, true, false, none, some, List, [], ◌∷◌, lookup, ◌==◌, if◌then◌else◌,
  arith,
}
use dmsfwk.MissionConditions.{
  continuestate_active, MissionInfo, MissionStatus, Platform, Manager, err_ok, on_mission_focused,
  on_mission_unfocused, on_mission_destory, mission_event_focused, mission_event_unfocused,
  is_mission_status_exist,
}
use dmsfwk.MissionConditions.Conditions.{
  get_current_focused_mission, get_mission_status, get_mission_id_by_bundle_name,
  check_mission_send_condition, MaySend,
}
use dmsfwk.MissionConditions.Focus.{HaveOneFocus}
use dmsfwk.MissionConditions.Current.{get_current_focused_mission-on_mission_focused}
use dmsfwk.MissionConditions.Runs.{
  Step, shown, removed, mission_changes, asked, run, run-HaveOneFocus,
  check_mission_send_condition-MaySend,
}
use dmsfwk.MissionConditions.LastFocus.{get_mission_id_by_bundle_name-on_mission_destory}

abbrev mail : MissionInfo
mail = record {
  info_id = 3;
  info_bundle_name = 5;
  info_module_name = 1;
  info_ability_name = 2;
  info_continuable = true;
  info_flags = 0;
  info_continue_state = continuestate_active;
}

abbrev pub platform : Platform
platform = record {
  get_mission_infos = mail ∷ [];
  get_current_mission_id = 3;
  get_mission_info = λ mission. if mission == 3 then some mail else none;
  get_mission_info_ret = λ mission. 9;
  check_bundle_continue_config = λ bundle. bundle == 5;
  uninitialised = false;
  zero_state = continuestate_active;
}

abbrev pub status : MissionStatus
status = record {
  mission_id = 3;
  bundle_name = 5;
  module_name = 1;
  ability_name = 2;
  is_continuable = true;
  launch_flag = 0;
  is_focused = true;
  continue_state = continuestate_active;
}

abbrev pub other_status : MissionStatus
other_status = record status { mission_id = 4; bundle_name = 6; is_focused = false }

abbrev pub manager : Manager
manager = record {
  mission_map = (100, (3, status) ∷ (4, other_status) ∷ []) ∷ [];
  last_focus_mission = (0, other_status);
  is_cfg_device = false;
  is_switch_on = true;
  is_wifi_active = true;
  is_bt_active = true;
  is_screen_locked = false;
}

abbrev steps : List Step
steps =
    shown platform 101
    ∷ mission_changes platform 100 4 mission_event_focused
    ∷ asked platform 100 5 0
    ∷ mission_changes platform 100 4 mission_event_unfocused
    ∷ asked platform 100 5 0
    ∷ removed 100
    ∷ []

run-HaveOneFocus_example : HaveOneFocus (run steps manager).mission_map
run-HaveOneFocus_example =
    run-HaveOneFocus steps manager (refl, (tt, (tt, (tt, (tt, (tt, tt))))))
      (((omega arith, (omega arith, tt)), 3, (inr refl, (inl refl, tt))), tt)

focused_example : get_current_focused_mission 100 (on_mission_focused platform 100 4 manager).0 ≡ 4
unfolding lookup on_mission_focused is_mission_status_exist
focused_example = get_current_focused_mission-on_mission_focused platform 100 4 manager refl

may_send_example :
    (check_mission_send_condition platform status mission_event_unfocused ≡ true)
    ↔ MaySend platform status mission_event_unfocused
may_send_example = check_mission_send_condition-MaySend platform status mission_event_unfocused

destroyed_example :
    (get_mission_status 100 3 (on_mission_destory 100 3 (on_mission_unfocused 100 3 manager).0).0
      ≡ none)
    × ((get_mission_id_by_bundle_name platform 100 5 2
          (on_mission_destory 100 3 (on_mission_unfocused 100 3 manager).0).0).1
        ≡ err_ok)
    × ((get_mission_id_by_bundle_name platform 100 5 2
          (on_mission_destory 100 3 (on_mission_unfocused 100 3 manager).0).0).2
        ≡ 3)
unfolding lookup
destroyed_example =
    get_mission_id_by_bundle_name-on_mission_destory platform 100 3 2 status
      ((3, status) ∷ (4, other_status) ∷ []) manager refl
      ((omega arith, (omega arith, tt)), 3, (inr refl, (inl refl, tt))) refl refl refl refl
