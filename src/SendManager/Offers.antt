-- ===== src/SendManager/Offers.antt =====
-- What is broadcast is what another device reads.
use dmsfwk.Prelude.{
  ℕ, sym, ◌<◌, ◌≡◌, refl, ap, ◌∙◌, inl, inr, Bool, true, false, ◌&&◌, Option, none, some, List, [],
  ◌∷◌, Bool-cases, arith,
}
use dmsfwk.MissionConditions.{
  MissionStatus, MissionEventType, mission_event_focused, mission_event_unfocused,
  mission_event_destoryed, mission_event_active, mission_event_inactive, mission_event_timeout,
  mission_event_mmi, mission_event_invalid,
}
use dmsfwk.MissionConditions.Conditions.{
  check_system_send_condition, check_mission_send_condition, MaySend,
}
use dmsfwk.MissionConditions.Runs.{check_mission_send_condition-MaySend}
use dmsfwk.SendManager.{SendMgr, Device, query_broadcast_info, packet, notify_data_recv}
use dmsfwk.SendManager.Strategies.{
  World, execute_send_strategy, to_packets, send_continue_broadcast,
}

-- The events at which a mission is offered.
abbrev pub is_offer : MissionEventType → Bool
is_offer mission_event_focused = true
is_offer mission_event_active = true
is_offer mission_event_mmi = true
is_offer type = false

abbrev pub to_type : Bool → ℕ
to_type true = 0
to_type false = 1

-- The numbers of names have 16 and 8 bits.
abbrev pub HasNumbers : Device → Type 0
HasNumbers device =
    (status : MissionStatus) (ids : ℕ × ℕ)
    → query_broadcast_info device status ≡ some ids
    → (ids.0 < 65536) × (ids.1 < 256)

pub notify_data_recv-packet :
    (offers : Bool) (ids : ℕ × ℕ)
    → ids.0 < 65536
    → ids.1 < 256
    → notify_data_recv true (packet (to_type offers) ids) ≡ some (ids.0, ids.1, offers)
unfolding notify_data_recv packet
notify_data_recv-packet true (bundle, continue_type) small small' = ground arith
notify_data_recv-packet false (bundle, continue_type) small small' = ground arith

-- What an event sends, if it sends, tells whether the mission is offered.
strategy_type :
    (w : World) (type : MissionEventType) (status : MissionStatus) (s : SendMgr) (t : ℕ)
    → (execute_send_strategy w type status s).1 ≡ some t
    → t ≡ to_type (is_offer type)
strategy_type w mission_event_focused status s t e = ground arith
strategy_type w mission_event_unfocused status s t e = ground arith
strategy_type w mission_event_destoryed status s t e = ground arith
strategy_type w mission_event_active status s t e = ground arith
strategy_type w mission_event_inactive status s t e = ground arith
strategy_type w mission_event_timeout status s t e = ground arith
strategy_type w mission_event_mmi status s t e = ground arith
strategy_type w mission_event_invalid status s t e = ground arith

sent :
    (o : Option ℕ) (n : Option (ℕ × ℕ)) (p : List ℕ)
    → to_packets o n ≡ p ∷ []
    → (t : ℕ) × (ids : ℕ × ℕ) × (o ≡ some t) × (n ≡ some ids) × (packet t ids ≡ p)
sent none n p e = absurd (ground (arith, e))
sent (some t) none p e = absurd (ground (arith, e))
sent (some t) (some ids) p e = (t, ids, refl, refl, head_of e)
  where
    or_short : List (List ℕ) → List ℕ
    or_short [] = []
    or_short (q ∷ qs) = q

    head_of : packet t ids ∷ [] ≡ p ∷ [] → packet t ids ≡ p
    head_of e = ap or_short e

-- Where the numbers of names have 16 and 8 bits and a broadcast is sent at an event, the state of the system
-- and the mission allow it, and another device that may receive reads from its bytes the numbers of the
-- bundle and of the continue type, and that the mission is offered exactly at the events that offer it.
pub notify_data_recv-send_continue_broadcast :
    (w : World) (type : MissionEventType) (status : MissionStatus) (s : SendMgr) (p : List ℕ)
    → HasNumbers w.device
    → (send_continue_broadcast w type status s).1 ≡ p ∷ []
    → (check_system_send_condition w.build w.conditions ≡ true)
      × MaySend w.platform status type
      × (ids : ℕ × ℕ) × (query_broadcast_info w.device status ≡ some ids)
      × (notify_data_recv true p ≡ some (ids.0, ids.1, is_offer type))
unfolding send_continue_broadcast
notify_data_recv-send_continue_broadcast w type status s p numbers e =
    let system = check_system_send_condition w.build w.conditions in
    let mission = check_mission_send_condition w.platform status type in
    elim (Bool-cases (system && mission)) [
      | inl allowed ↦
          let packets : to_packets (execute_send_strategy w type status s).1
                (query_broadcast_info w.device status)
              ≡ p ∷ [] =
            ground (arith, allowed, e) in
          let (t, ids, chosen, named, bytes) = sent _ _ p packets in
          let offered = strategy_type w type status s t chosen in
          let small = numbers status ids named in
          let read : notify_data_recv true (packet t ids) ≡ some (ids.0, ids.1, is_offer type) =
            rw offered (notify_data_recv-packet (is_offer type) ids small.0 small.1) in
          let passed : system ≡ true = ground (arith, allowed) in
          let passed' : mission ≡ true = ground (arith, allowed) in
          (
            passed,
            (check_mission_send_condition-MaySend w.platform status type).0 passed',
            ids,
            named,
            ap (notify_data_recv true) (sym bytes) ∙ read,
          )
      | inr refused ↦ absurd (ground (arith, refused, e))
    ]
