-- ===== src/SendManager/Strategies.antt =====
-- What is broadcast at each event, and the events that come from outside.
use dmsfwk.Prelude.{ℕ, not, ◌&&◌, Option, none, some, List, [], ◌∷◌, ◌==◌, ◌++◌, leb, if◌then◌else◌}
use dmsfwk.MissionConditions.{
  MissionStatus, MissionEventType, mission_event_focused, mission_event_unfocused,
  mission_event_destoryed, mission_event_active, mission_event_inactive, mission_event_timeout,
  mission_event_mmi, mission_event_invalid, Platform, Manager,
}
use dmsfwk.MissionConditions.Conditions.{
  Build, check_system_send_condition, check_mission_send_condition, get_mission_status,
  get_current_focused_mission, zero_status,
}
use dmsfwk.SendManager.{
  Delayed, focus_timeout, screen_locked, SendMgr, Device, broadcast_type_appear,
  broadcast_type_disappear, remove_task, without_timer, send_continue_broadcast_after_delay,
  add_mmi_listener, remove_mmi_listener, reset_screen_locked_info, set_screen_locked_info,
  set_mission_continue_state_info, is_just_lost, query_broadcast_info, packet,
}

-- All that a broadcast asks: the build, the missions and the platform that they ask, and the device.
pub record World : Type 0 where
  pub build : Build
  pub conditions : Manager
  pub platform : Platform
  pub device : Device

-- The new state and the type to send, `none` for a code that is not ERR_OK.
abbrev pub execute_send_strategy :
    World → MissionEventType → MissionStatus → SendMgr → SendMgr × Option ℕ
execute_send_strategy w mission_event_focused status s = (
  reset_screen_locked_info (zero_status w.platform)
      (send_continue_broadcast_after_delay status.mission_id (add_mmi_listener w.device s)),
  some broadcast_type_appear,
)
execute_send_strategy w mission_event_unfocused status s = (
  set_screen_locked_info w.device status (remove_mmi_listener s),
  if w.conditions.is_screen_locked then none else some broadcast_type_disappear,
)
execute_send_strategy w mission_event_destoryed status s =
    (remove_mmi_listener s, some broadcast_type_disappear)
execute_send_strategy w mission_event_active status s = (
  send_continue_broadcast_after_delay status.mission_id (add_mmi_listener w.device s),
  some broadcast_type_appear,
)
execute_send_strategy w mission_event_inactive status s =
    if status.mission_id == s.unfo_mission_id
    then (
      set_mission_continue_state_info status.continue_state (remove_mmi_listener s),
      some broadcast_type_disappear,
    )
    else (remove_mmi_listener s, none)
execute_send_strategy w mission_event_timeout status s = (s, some broadcast_type_disappear)
execute_send_strategy w mission_event_mmi status s =
    (send_continue_broadcast_after_delay status.mission_id s, some broadcast_type_appear)
execute_send_strategy w mission_event_invalid status s = (s, none)

-- What is sent of a type and of numbers that may be missing.
abbrev pub to_packets : Option ℕ → Option (ℕ × ℕ) → List (List ℕ)
to_packets (some type) (some ids) = packet type ids ∷ []
to_packets type ids = []

-- The new state, and what is broadcast.
unfoldable pub send_continue_broadcast :
    World → MissionEventType → MissionStatus → SendMgr → SendMgr × List (List ℕ)
send_continue_broadcast w type status s =
    if check_system_send_condition w.build w.conditions
      && check_mission_send_condition w.platform status type
    then (
      (execute_send_strategy w type status s).0,
      to_packets (execute_send_strategy w type status s).1 (query_broadcast_info w.device status),
    )
    else (s, [])

unfoldable pub send_for_mission :
    World → ℕ → ℕ → MissionEventType → SendMgr → SendMgr × List (List ℕ)
send_for_mission w account mission type s = elim (get_mission_status account mission w.conditions) [
  | none ↦ (s, [])
  | some status ↦ send_continue_broadcast w type status s
]

unfoldable pub on_mission_status_changed :
    World → ℕ → ℕ → MissionEventType → SendMgr → SendMgr × List (List ℕ)
on_mission_status_changed w account mission type s =
    elim (get_mission_status account mission w.conditions) [
      | none ↦ (s, [])
      | some status ↦
          if s.has_handler
          then send_continue_broadcast w type status (without_timer mission s)
          else (s, [])
    ]

unfoldable pub on_mmi_event : World → ℕ → SendMgr → SendMgr × List (List ℕ)
on_mmi_event w account s =
    let mission = get_current_focused_mission account w.conditions in
    if s.has_handler
    then send_for_mission w account mission mission_event_mmi (without_timer mission s)
    else (s, [])

-- The number of the current mission, and whether an offer was tried.
unfoldable pub on_device_online : World → ℕ → SendMgr → SendMgr × List (List ℕ)
on_device_online w account s =
    if leb w.platform.get_current_mission_id 1
    then (s, [])
    else on_mission_status_changed w account w.platform.get_current_mission_id mission_event_focused
        s

unfoldable pub send_screen_locked_event : World → ℕ → SendMgr → List (List ℕ)
send_screen_locked_event w type s =
    if check_system_send_condition w.build w.conditions
    then to_packets (some type) (query_broadcast_info w.device s.unfo_status)
    else []

-- The mission that lost the focus less than half a second ago is offered again; its offer ends later.
unfoldable pub on_device_screen_locked : World → SendMgr → SendMgr × List (List ℕ)
on_device_screen_locked w s =
    if s.has_handler
    then (
      record s {
        timers =
            remove_task s.unfo_mission_id s.timers ++ (s.unfo_mission_id, screen_locked 1) ∷ [];
      },
      if not (s.unfo_mission_id == 0) && is_just_lost w.device.get_tick_count s.unfo_time
          then send_screen_locked_event w 0 s
          else [],
    )
    else (s, [])

unfoldable pub on_user_switched : World → SendMgr → SendMgr × List (List ℕ)
on_user_switched w s =
    if s.has_handler
    then (remove_mmi_listener (without_timer s.unfo_mission_id s), send_screen_locked_event w 1 s)
    else (s, [])

-- The first timer goes off.
abbrev pub fire : World → ℕ → ℕ × Delayed → SendMgr → SendMgr × List (List ℕ)
fire w account (mission, focus_timeout) s =
    send_for_mission w account mission mission_event_timeout s
fire w account (mission, screen_locked type) s = (s, send_screen_locked_event w type s)
