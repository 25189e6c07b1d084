-- ===== src/SendManager.antt =====
-- services/dtbschedmgr/src/mission/notification/dms_continue_send_manager.cpp and
-- dms_continue_send_strategy.cpp: the offers of missions that a device broadcasts and takes back, and from
-- dms_continue_recv_manager.cpp how another device reads one. A task that is posted for now runs at once. The
-- other parts and the clock are parameters; the build has no DMS_ICON_HOLD_ON.
pub mod Strategies
pub mod Offers
pub mod Forgotten
use dmsfwk.Prelude.{
  ℕ, ◌+◌, ◌*◌, ◌/◌, ◌%◌, ◌^◌, Bool, true, false, ◌||◌, Option, none, some, List, [], ◌∷◌, ◌++◌,
  ◌==◌, ltb, if◌then◌else◌,
}
use dmsfwk.MissionConditions.{MissionStatus, ContinueState}

-- What a task for later does: it takes the offer of a mission back, or sends what the screen lock asks for.
pub data Delayed : Type 0 where
  focus_timeout : Delayed
  screen_locked : ℕ → Delayed

-- `mmi_monitor_id` is `none` where the number is negative. `timers` are the tasks for later by the mission
-- that their name has; the `unfo` fields are those of `ScreenLockedHandler`.
pub record SendMgr : Type 0 where
  pub has_handler : Bool
  pub mmi_monitor_id : Option ℕ
  pub timers : List (ℕ × Delayed)
  pub unfo_mission_id : ℕ
  pub unfo_time : ℕ
  pub unfo_status : MissionStatus

-- What the adapter of the inputs and the clock answer, and the numbers of the names; those have 16 and 8 bits.
pub record Device : Type 0 where
  pub add_mmi_listener_ret : Option ℕ
  pub get_tick_count : ℕ
  pub get_bundle_name_id : ℕ → Option ℕ
  pub get_continue_type_id : ℕ → ℕ → Option ℕ

abbrev pub broadcast_type_appear : ℕ
broadcast_type_appear = 0

abbrev pub broadcast_type_disappear : ℕ
broadcast_type_disappear = 1

unfoldable pub remove_task : ℕ → List (ℕ × Delayed) → List (ℕ × Delayed)
remove_task mission [] = []
remove_task mission ((n, t) ∷ timers) =
    let rest = remove_task mission timers in if n == mission then rest else (n, t) ∷ rest

abbrev pub without_timer : ℕ → SendMgr → SendMgr
without_timer mission s = record s { timers = remove_task mission s.timers }

unfoldable pub send_continue_broadcast_after_delay : ℕ → SendMgr → SendMgr
send_continue_broadcast_after_delay mission s =
    if s.has_handler
    then record s { timers = remove_task mission s.timers ++ (mission, focus_timeout) ∷ [] }
    else s

abbrev pub keep_or : Option ℕ → Option ℕ → Option ℕ
keep_or none answer = answer
keep_or (some id) answer = some id

abbrev pub add_mmi_listener : Device → SendMgr → SendMgr
add_mmi_listener device s = record s {
  mmi_monitor_id = keep_or s.mmi_monitor_id device.add_mmi_listener_ret;
}

abbrev pub remove_mmi_listener : SendMgr → SendMgr
remove_mmi_listener s = record s { mmi_monitor_id = none }

-- `status` is the one of an empty `unfoInfo_`.
abbrev pub reset_screen_locked_info : MissionStatus → SendMgr → SendMgr
reset_screen_locked_info status s = record s {
  unfo_mission_id = 0;
  unfo_time = 0;
  unfo_status = status;
}

abbrev pub set_screen_locked_info : Device → MissionStatus → SendMgr → SendMgr
set_screen_locked_info device status s = record s {
  unfo_mission_id = status.mission_id;
  unfo_time = device.get_tick_count % 2 ^ 32;
  unfo_status = status;
}

-- The milliseconds since the focus was lost are under 500, by a time that was stored in 32 bits with a sign.
abbrev pub is_just_lost : ℕ → ℕ → Bool
is_just_lost now lost = ltb (if ltb lost 2147483648 then now else now + 4294967296) (lost + 500)

abbrev pub set_mission_continue_state_info : ContinueState → SendMgr → SendMgr
set_mission_continue_state_info state s = record s {
  unfo_status = record s.unfo_status { continue_state = state };
}

unfoldable pub query_broadcast_info : Device → MissionStatus → Option (ℕ × ℕ)
query_broadcast_info device status =
    if (status.bundle_name == 0) || (status.ability_name == 0)
    then none
    else elim (device.get_bundle_name_id status.bundle_name) [
      | none ↦ none
      | some bundle_name_id ↦
          elim (device.get_continue_type_id status.bundle_name status.ability_name) [
            | none ↦ none
            | some continue_type_id ↦ some (bundle_name_id, continue_type_id)
          ]
    ]

-- The four bytes that `SendSoftbusEvent` sends: the type and the length in one, the two bytes of the bundle,
-- and the continue type.
unfoldable pub packet : ℕ → ℕ × ℕ → List ℕ
packet type (bundle_name_id, continue_type_id) =
    (type * 16 + 3) % 256
    ∷ bundle_name_id / 256 % 256
    ∷ bundle_name_id % 256
    ∷ continue_type_id % 256
    ∷ []

-- What `NotifyDataRecv` reads from the bytes, where the device may receive: the bundle, the continue type and
-- whether the state is ACTIVE.
unfoldable pub notify_data_recv : Bool → List ℕ → Option (ℕ × ℕ × Bool)
notify_data_recv allowed (head ∷ high ∷ low ∷ continue_type_id ∷ rest) =
    if allowed
    then if ltb (head % 16) 3
      then none
      else some (high * 256 + low, continue_type_id, if head / 16 % 16 == 1 then false else true)
    else none
notify_data_recv allowed short = none
