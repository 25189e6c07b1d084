-- ===== src/MissionConditions/Conditions.antt =====
-- When a mission may be offered, and what the other parts ask of the missions.
use dmsfwk.Prelude.{
  ℕ, ◌≡◌, ◌≢◌, Bool, true, false, not, ◌&&◌, ◌||◌, Option, none, some, [], ◌∷◌, ◌==◌, lookup,
  insert, if◌then◌else◌,
}
use dmsfwk.MissionConditions.{
  ContinueState, continuestate_active, MissionStatus, MissionEventType, mission_event_focused,
  mission_event_unfocused, mission_event_destoryed, mission_event_active, mission_event_inactive,
  mission_event_timeout, mission_event_mmi, mission_event_invalid, Platform, Manager, Missions,
  set_missions, Code, err_ok, mission_not_focused,
}

-- Which of the tests of the networks the build has, DMS_CHECK_WIFI and DMS_CHECK_BLUETOOTH.
pub record Build : Type 0 where
  pub dms_check_wifi : Bool
  pub dms_check_bluetooth : Bool

unfoldable pub check_system_send_condition : Build → Manager → Bool
check_system_send_condition build m =
    if m.is_cfg_device
    then false
    else if not m.is_switch_on
    then false
    else if build.dms_check_wifi && not m.is_wifi_active
    then false
    else if build.dms_check_bluetooth && not m.is_bt_active
    then false
    else true

abbrev pub is_active : ContinueState → Bool
is_active continuestate_active = true
is_active state = false

abbrev pub check_send_focused_condition : Platform → MissionStatus → Bool
check_send_focused_condition platform s =
    if not s.is_continuable
    then false
    else if not (is_active s.continue_state)
    then false
    else if not (platform.check_bundle_continue_config s.bundle_name)
    then false
    else true

abbrev pub check_send_unfocused_condition : Platform → MissionStatus → Bool
check_send_unfocused_condition platform s =
    if not s.is_focused
    then false
    else if not s.is_continuable
    then false
    else if not (is_active s.continue_state)
    then false
    else if not (platform.check_bundle_continue_config s.bundle_name)
    then false
    else true

abbrev pub check_send_active_condition : Platform → MissionStatus → Bool
check_send_active_condition platform s =
    if not s.is_focused
    then false
    else if not s.is_continuable
    then false
    else if not (platform.check_bundle_continue_config s.bundle_name)
    then false
    else true

abbrev pub check_send_inactive_condition : Platform → MissionStatus → Bool
check_send_inactive_condition platform s =
    if not s.is_continuable
    then false
    else if not (platform.check_bundle_continue_config s.bundle_name)
    then false
    else true

unfoldable pub check_mission_send_condition : Platform → MissionStatus → MissionEventType → Bool
check_mission_send_condition platform s mission_event_focused =
    check_send_focused_condition platform s
check_mission_send_condition platform s mission_event_unfocused =
    check_send_unfocused_condition platform s
check_mission_send_condition platform s mission_event_destoryed =
    check_send_unfocused_condition platform s
check_mission_send_condition platform s mission_event_active =
    check_send_active_condition platform s
check_mission_send_condition platform s mission_event_inactive =
    check_send_inactive_condition platform s
check_mission_send_condition platform s mission_event_timeout =
    check_send_unfocused_condition platform s
check_mission_send_condition platform s mission_event_mmi = check_send_focused_condition platform s
check_mission_send_condition platform s mission_event_invalid = false

unfoldable pub get_mission_status : ℕ → ℕ → Manager → Option MissionStatus
get_mission_status account mission m = elim (lookup account m.mission_map) [
  | none ↦ none
  | some missions ↦ lookup mission missions
]

-- The first mission that has the focus, or the one that is given.
unfoldable pub focused_or : ℕ → Missions → ℕ
focused_or mission [] = mission
focused_or mission ((id, s) ∷ missions) =
    let rest = focused_or mission missions in if s.is_focused then id else rest

unfoldable pub get_current_focused_mission : ℕ → Manager → ℕ
get_current_focused_mission account m = elim (lookup account m.mission_map) [
  | none ↦ 0
  | some missions ↦ focused_or 0 missions
]

-- A status of zeros, which `operator[]` makes for a key that is not there.
abbrev pub zero_status : Platform → MissionStatus
zero_status platform = record {
  mission_id = 1;
  bundle_name = 0;
  module_name = 0;
  ability_name = 0;
  is_continuable = false;
  launch_flag = 0;
  is_focused = false;
  continue_state = platform.zero_state;
}

abbrev pub or_zero : Platform → Option MissionStatus → MissionStatus
or_zero platform none = zero_status platform
or_zero platform (some s) = s

-- The status that `operator[]` makes stays in the list.
abbrev pub touch : Platform → ℕ → ℕ → Missions → Manager → Manager
touch platform account id missions m = elim (lookup id missions) [
  | none ↦ set_missions account (insert id (zero_status platform) missions) m
  | some s ↦ m
]

abbrev pub is_for : ℕ → MissionStatus → Bool
is_for bundle s = (s.bundle_name == bundle) && s.is_continuable

-- The mission that has the focus, if it is of the bundle and can be continued, or else the last one.
abbrev pub choose : ℕ → ℕ → MissionStatus → MissionStatus → Code × ℕ
choose bundle id s last =
    if is_for bundle s
    then (err_ok, id)
    else if is_for bundle last
    then (err_ok, last.mission_id)
    else (mission_not_focused, id)

-- The new state, the code and the mission; `mission` is what the caller's variable has before.
unfoldable pub get_mission_id_by_bundle_name : Platform → ℕ → ℕ → ℕ → Manager → Manager × Code × ℕ
get_mission_id_by_bundle_name platform account bundle mission m =
    elim (lookup account m.mission_map) [
      | none ↦ (m, mission_not_focused, mission)
      | some missions ↦
          let id = focused_or mission missions in
          let chosen =
            choose bundle id (or_zero platform (lookup id missions)) m.last_focus_mission.1 in
          (touch platform account id missions m, chosen.0, chosen.1)
    ]

-- What an event asks of a mission besides that it can be continued and is allowed: the focus, and that it
-- is active.
abbrev pub needs_focus : MissionEventType → Bool
needs_focus mission_event_unfocused = true
needs_focus mission_event_destoryed = true
needs_focus mission_event_active = true
needs_focus mission_event_timeout = true
needs_focus type = false

abbrev pub needs_active : MissionEventType → Bool
needs_active mission_event_active = false
needs_active mission_event_inactive = false
needs_active type = true

abbrev pub MaySend : Platform → MissionStatus → MissionEventType → Type 0
MaySend platform s type =
    (s.is_continuable ≡ true)
    × (platform.check_bundle_continue_config s.bundle_name ≡ true)
    × ((not (needs_focus type) || s.is_focused) ≡ true)
    × ((not (needs_active type) || is_active s.continue_state) ≡ true)
    × (type ≢ mission_event_invalid)
