-- ===== src/MissionConditions/Runs.antt =====
-- Any sequence of changes and questions.
use dmsfwk.Prelude.{ℕ, ◌≡◌, ◌↔◌, Bool, true, false, List, [], ◌∷◌, arith}
use dmsfwk.MissionConditions.{
  MissionEventType, SysEventType, Platform, Manager, MissionStatus, un_init, init_system_condition,
  update_system_status, on_user_removed, init_mission_status, update_mission_status,
  sys_event_continue_switch, sys_event_wifi, sys_event_bluetooth, sys_event_screen_lock,
  sys_event_invalid, mission_event_focused, mission_event_unfocused, mission_event_destoryed,
  mission_event_active, mission_event_inactive, mission_event_timeout, mission_event_mmi,
  mission_event_invalid,
}
use dmsfwk.MissionConditions.Conditions.{
  get_mission_id_by_bundle_name, check_mission_send_condition, MaySend,
}
use dmsfwk.MissionConditions.Focus.{HaveOneFocus, erase-HaveOneFocus}
use dmsfwk.MissionConditions.Steps.{
  update_mission_status-HaveOneFocus, init_mission_status-HaveOneFocus,
  get_mission_id_by_bundle_name-HaveOneFocus,
}

-- `shown` is a user whose missions are read, at the start or after a switch.
pub data Step : Type 0 where
  stops : Step
  configured : Bool → Bool → Bool → Bool → Step
  system_changes : SysEventType → Bool → Step
  shown : Platform → ℕ → Step
  removed : ℕ → Step
  mission_changes : Platform → ℕ → ℕ → MissionEventType → Step
  asked : Platform → ℕ → ℕ → ℕ → Step

unfoldable pub step : Step → Manager → Manager
step stops m = un_init m
step (configured ctrl_rule switch_on wifi_active bt_active) m =
    init_system_condition ctrl_rule switch_on wifi_active bt_active m
step (system_changes type value) m = (update_system_status type value m).0
step (shown platform account) m = init_mission_status platform account m
step (removed account) m = on_user_removed account m
step (mission_changes platform account mission type) m =
    (update_mission_status platform account mission type m).0
step (asked platform account bundle mission) m =
    (get_mission_id_by_bundle_name platform account bundle mission m).0

unfoldable pub run : List Step → Manager → Manager
run [] m = m
run (x ∷ xs) m = run xs (step x m)

-- Where the missions of a user are read, the field that is not set happens to be false.
abbrev pub IsLucky : Step → Type 0
IsLucky (shown platform account) = platform.uninitialised ≡ false
IsLucky x = Unit {0}

abbrev pub AreLucky : List Step → Type 0
AreLucky [] = Unit {0}
AreLucky (x ∷ xs) = IsLucky x × AreLucky xs

update_system_status-HaveOneFocus :
    (type : SysEventType) (value : Bool) (m : Manager)
    → HaveOneFocus m.mission_map
    → HaveOneFocus (update_system_status type value m).0.mission_map
unfolding update_system_status
update_system_status-HaveOneFocus sys_event_continue_switch value m h = h
update_system_status-HaveOneFocus sys_event_wifi value m h = h
update_system_status-HaveOneFocus sys_event_bluetooth value m h = h
update_system_status-HaveOneFocus sys_event_screen_lock value m h = h
update_system_status-HaveOneFocus sys_event_invalid value m h = h

step-HaveOneFocus :
    (x : Step) (m : Manager)
    → IsLucky x
    → HaveOneFocus m.mission_map
    → HaveOneFocus (step x m).mission_map
unfolding step
step-HaveOneFocus stops m lucky h = tt
step-HaveOneFocus (configured ctrl_rule switch_on wifi_active bt_active) m lucky h = h
step-HaveOneFocus (system_changes type value) m lucky h =
    update_system_status-HaveOneFocus type value m h
step-HaveOneFocus (shown platform account) m lucky h =
    init_mission_status-HaveOneFocus platform account m lucky h
step-HaveOneFocus (removed account) m lucky h = erase-HaveOneFocus account m.mission_map h
step-HaveOneFocus (mission_changes platform account mission type) m lucky h =
    update_mission_status-HaveOneFocus account mission m h platform type
step-HaveOneFocus (asked platform account bundle mission) m lucky h =
    get_mission_id_by_bundle_name-HaveOneFocus platform account bundle mission m h

-- In every run in which the field that `ConvertToMissionStatus` does not set happens to be false where the
-- missions of a user are read, the missions of every user stay ordered by their numbers, and one of
-- them at most has the focus.
pub run-HaveOneFocus :
    (xs : List Step) (m : Manager)
    → AreLucky xs
    → HaveOneFocus m.mission_map
    → HaveOneFocus (run xs m).mission_map
unfolding run
run-HaveOneFocus [] m lucky h = h
run-HaveOneFocus (x ∷ xs) m lucky h =
    run-HaveOneFocus xs (step x m) lucky.1 (step-HaveOneFocus x m lucky.0 h)

-- A mission may be sent at an event exactly if it can be continued, its bundle is allowed, it has the focus
-- where the event is not that it gets it, is used or becomes inactive, and is active where the event is
-- not that this changes; never at an event of no kind.
pub check_mission_send_condition-MaySend :
    (platform : Platform) (s : MissionStatus) (type : MissionEventType)
    → (check_mission_send_condition platform s type ≡ true) ↔ MaySend platform s type
unfolding check_mission_send_condition
check_mission_send_condition-MaySend platform s mission_event_focused = ground arith
check_mission_send_condition-MaySend platform s mission_event_unfocused = ground arith
check_mission_send_condition-MaySend platform s mission_event_destoryed = ground arith
check_mission_send_condition-MaySend platform s mission_event_active = ground arith
check_mission_send_condition-MaySend platform s mission_event_inactive = ground arith
check_mission_send_condition-MaySend platform s mission_event_timeout = ground arith
check_mission_send_condition-MaySend platform s mission_event_mmi = ground arith
check_mission_send_condition-MaySend platform s mission_event_invalid = ground arith
