-- ===== src/MissionConditions.antt =====
-- services/dtbschedmgr/src/mission/dms_continue_condition_manager.cpp: the missions of each user, which one
-- has the focus, and when a mission may be offered to the other devices. Numbers stand for names (0 for the
-- empty one) and for users. The number of a mission is one more than in the code, so that 0 is
-- CONDITION_INVALID_MISSION_ID. The ability manager and the configuration are parameters.
pub mod Conditions
pub mod Focus
pub mod Steps
pub mod Current
pub mod Runs
pub mod LastFocus
use dmsfwk.Prelude.{
  ℕ, Bool, true, false, not, ◌&&◌, Option, none, some, List, [], ◌∷◌, ◌==◌, ltb, lookup, insert,
  erase, if◌then◌else◌,
}

pub data ContinueState : Type 0 where
  continuestate_active continuestate_inactive other_state : ContinueState

-- What the ability manager tells of a mission.
pub record MissionInfo : Type 0 where
  pub info_id : ℕ
  pub info_bundle_name : ℕ
  pub info_module_name : ℕ
  pub info_ability_name : ℕ
  pub info_continuable : Bool
  pub info_flags : ℕ
  pub info_continue_state : ContinueState

pub record MissionStatus : Type 0 where
  pub mission_id : ℕ
  pub bundle_name : ℕ
  pub module_name : ℕ
  pub ability_name : ℕ
  pub is_continuable : Bool
  pub launch_flag : ℕ
  pub is_focused : Bool
  pub continue_state : ContinueState

-- `failed n` is a code of the ability manager.
pub data Code : Type 0 where
  err_ok invalid_parameters_err mission_not_focused condition_invalid_mission_id : Code
  failed : ℕ → Code

pub data MissionEventType : Type 0 where
  mission_event_focused mission_event_unfocused mission_event_destoryed : MissionEventType
  mission_event_active mission_event_inactive mission_event_timeout mission_event_mmi :
      MissionEventType
  mission_event_invalid : MissionEventType

pub data SysEventType : Type 0 where
  sys_event_continue_switch sys_event_wifi sys_event_bluetooth sys_event_screen_lock : SysEventType
  sys_event_invalid : SysEventType

-- What the other parts answer. `uninitialised` is what the memory of a `MissionStatus` has for `isFocused`
-- before it is set; `zero_state` is the continue state whose number is 0.
pub record Platform : Type 0 where
  pub get_mission_infos : List MissionInfo
  pub get_current_mission_id : ℕ
  pub get_mission_info : ℕ → Option MissionInfo
  pub get_mission_info_ret : ℕ → ℕ
  pub check_bundle_continue_config : ℕ → Bool
  pub uninitialised : Bool
  pub zero_state : ContinueState

abbrev pub Missions : Type 0
Missions = List (ℕ × MissionStatus)

pub record Manager : Type 0 where
  pub mission_map : List (ℕ × Missions)
  pub last_focus_mission : ℕ × MissionStatus
  pub is_cfg_device : Bool
  pub is_switch_on : Bool
  pub is_wifi_active : Bool
  pub is_bt_active : Bool
  pub is_screen_locked : Bool

abbrev pub un_init : Manager → Manager
un_init m = record m { mission_map = [] }

-- `ctrl_rule` is what the configuration allows; the others are what the adapters say.
abbrev pub init_system_condition : Bool → Bool → Bool → Bool → Manager → Manager
init_system_condition ctrl_rule switch_on wifi_active bt_active m = record m {
  is_cfg_device = not ctrl_rule;
  is_switch_on = switch_on;
  is_wifi_active = wifi_active;
  is_bt_active = bt_active;
}

unfoldable pub update_system_status : SysEventType → Bool → Manager → Manager × Code
update_system_status sys_event_continue_switch value m = (record m { is_switch_on = value }, err_ok)
update_system_status sys_event_wifi value m = (record m { is_wifi_active = value }, err_ok)
update_system_status sys_event_bluetooth value m = (record m { is_bt_active = value }, err_ok)
update_system_status sys_event_screen_lock value m = (record m { is_screen_locked = value }, err_ok)
update_system_status sys_event_invalid value m = (m, invalid_parameters_err)

abbrev pub on_user_removed : ℕ → Manager → Manager
on_user_removed account m = record m { mission_map = erase account m.mission_map }

-- `missionMap_[accountId]`, which makes an empty list where there is none
abbrev pub or_empty : Option Missions → Missions
or_empty none = []
or_empty (some missions) = missions

abbrev pub missions_of : ℕ → Manager → Missions
missions_of account m = or_empty (lookup account m.mission_map)

abbrev pub set_missions : ℕ → Missions → Manager → Manager
set_missions account missions m = record m { mission_map = insert account missions m.mission_map }

-- `isFocused` is the one field that is not set.
abbrev pub convert_to_mission_status : Bool → MissionInfo → MissionStatus
convert_to_mission_status focused info = record {
  mission_id = info.info_id;
  bundle_name = info.info_bundle_name;
  module_name = info.info_module_name;
  ability_name = info.info_ability_name;
  is_continuable = info.info_continuable;
  launch_flag = info.info_flags;
  is_focused = focused;
  continue_state = info.info_continue_state;
}

unfoldable pub convert_all : Bool → List MissionInfo → Missions → Missions
convert_all focused [] missions = missions
convert_all focused (info ∷ infos) missions =
    convert_all focused infos
      (insert info.info_id (convert_to_mission_status focused info) missions)

abbrev pub with_focus : Bool → MissionStatus → MissionStatus
with_focus focused s = record s { is_focused = focused }

-- A change of a mission that is in the list.
unfoldable pub update_mission : ℕ → (MissionStatus → MissionStatus) → Missions → Missions
update_mission mission change missions = elim (lookup mission missions) [
  | none ↦ missions
  | some s ↦ insert mission (change s) missions
]

unfoldable pub init_mission_status : Platform → ℕ → Manager → Manager
init_mission_status platform account m =
    let missions = convert_all platform.uninitialised platform.get_mission_infos [] in
    elim (lookup account m.mission_map) [
      | some known ↦ m
      | none ↦
          if ltb 1 platform.get_current_mission_id
          then set_missions account
              (update_mission platform.get_current_mission_id (with_focus true) missions) m
          else set_missions account missions m
    ]

unfoldable pub is_mission_status_exist : ℕ → ℕ → Manager → Bool
is_mission_status_exist account mission m = elim (lookup account m.mission_map) [
  | none ↦ false
  | some missions ↦ elim (lookup mission missions) [ none ↦ false | some s ↦ true ]
]

-- Every mission but one loses the focus.
unfoldable pub clean_last_focused_flag : ℕ → Missions → Missions
clean_last_focused_flag mission [] = []
clean_last_focused_flag mission ((id, s) ∷ missions) =
    let rest = clean_last_focused_flag mission missions in
    (id, if not (id == mission) && s.is_focused then with_focus false s else s) ∷ rest

unfoldable pub on_mission_focused : Platform → ℕ → ℕ → Manager → Manager × Code
on_mission_focused platform account mission m =
    let cleaned = clean_last_focused_flag mission (missions_of account m) in
    if is_mission_status_exist account mission m
    then (set_missions account (update_mission mission (with_focus true) cleaned) m, err_ok)
    else elim (platform.get_mission_info mission) [
      | none ↦ (m, failed (platform.get_mission_info_ret mission))
      | some info ↦ (
        set_missions account (insert mission (convert_to_mission_status true info) cleaned) m,
        err_ok,
      )
    ]

abbrev pub last_focused : ℕ → ℕ → Manager → ℕ × MissionStatus
last_focused account mission m = elim (lookup mission (missions_of account m)) [
  | none ↦ m.last_focus_mission
  | some s ↦ (account, with_focus false s)
]

unfoldable pub on_mission_unfocused : ℕ → ℕ → Manager → Manager × Code
on_mission_unfocused account mission m =
    if is_mission_status_exist account mission m
    then (
      record (set_missions account
          (update_mission mission (with_focus false) (missions_of account m)) m) {
            last_focus_mission = last_focused account mission m;
          },
      err_ok,
    )
    else (m, condition_invalid_mission_id)

unfoldable pub on_mission_destory : ℕ → ℕ → Manager → Manager × Code
on_mission_destory account mission m =
    if is_mission_status_exist account mission m
    then (set_missions account (erase mission (missions_of account m)) m, err_ok)
    else (m, err_ok)

-- `OnMissionActive` and `OnMissionInactive`.
unfoldable pub on_mission_state : ContinueState → ℕ → ℕ → Manager → Manager × Code
on_mission_state state account mission m =
    if is_mission_status_exist account mission m
    then (
      set_missions account
          (update_mission mission (λ s. record s { continue_state = state })
            (missions_of account m))
          m,
      err_ok,
    )
    else (m, err_ok)

-- The function of a kind of event; there is none for a time-out or an input.
abbrev pub on_event : MissionEventType → Platform → ℕ → ℕ → Manager → Manager × Code
on_event mission_event_focused platform account mission m =
    on_mission_focused platform account mission m
on_event mission_event_unfocused platform account mission m = on_mission_unfocused account mission m
on_event mission_event_destoryed platform account mission m = on_mission_destory account mission m
on_event mission_event_active platform account mission m =
    on_mission_state continuestate_active account mission m
on_event mission_event_inactive platform account mission m =
    on_mission_state continuestate_inactive account mission m
on_event type platform account mission m = (m, invalid_parameters_err)

unfoldable pub update_mission_status :
    Platform → ℕ → ℕ → MissionEventType → Manager → Manager × Code
update_mission_status platform account mission type m = elim (lookup account m.mission_map) [
  | none ↦ (m, invalid_parameters_err)
  | some missions ↦ on_event type platform account mission m
]
