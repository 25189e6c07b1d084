-- ===== src/SendManager/Forgotten.antt =====
-- A mission that was offered and becomes inactive is not taken back.
use mathlib.Core.Path.{subst}
use dmsfwk.Prelude.{
  ℕ, ◌≡◌, ◌≢◌, refl, sym, ap, ◌∙◌, true, some, List, [], ◌∷◌, lookup, if_cases, arith,
  lookup-insert_self,
}
use dmsfwk.MissionConditions.{
  MissionStatus, Missions, mission_event_unfocused, mission_event_inactive, Manager,
  continuestate_inactive, update_mission, missions_of, or_empty, set_missions, on_mission_state,
}
use dmsfwk.MissionConditions.Conditions.{get_mission_status, check_mission_send_condition}
use dmsfwk.MissionConditions.Current.{lookup-update_mission}
use dmsfwk.MissionConditions.LastFocus.{exist-found}
use dmsfwk.SendManager.{Delayed, SendMgr, remove_task, without_timer}
use dmsfwk.SendManager.Strategies.{World, send_continue_broadcast, on_mission_status_changed}

-- No timer is for the mission.
abbrev pub HasNoTimer : ℕ → List (ℕ × Delayed) → Type 0
HasNoTimer mission [] = Unit {0}
HasNoTimer mission ((n, t) ∷ timers) = (n ≢ mission) × HasNoTimer mission timers

remove_task-HasNoTimer :
    (mission : ℕ) (timers : List (ℕ × Delayed)) → HasNoTimer mission (remove_task mission timers)
unfolding remove_task
remove_task-HasNoTimer mission [] = tt
remove_task-HasNoTimer mission ((n, t) ∷ timers) =
    let rest = remove_task-HasNoTimer mission timers in ground (arith, rest)

get_mission_status-set :
    (account mission : ℕ) (missions : Missions) (m : Manager)
    → get_mission_status account mission (set_missions account missions m) ≡ lookup mission missions
unfolding get_mission_status
get_mission_status-set account mission missions m =
    rw (lookup-insert_self account missions m.mission_map, get_mission_status) refl

-- What an update of the state leaves in the manager of the conditions.
get_mission_status-on_mission_state :
    (account mission : ℕ) (status : MissionStatus) (missions : Missions) (m : Manager)
    → lookup account m.mission_map ≡ some missions
    → lookup mission missions ≡ some status
    → get_mission_status account mission
        (on_mission_state continuestate_inactive account mission m).0
      ≡ some (record status { continue_state = continuestate_inactive })
unfolding on_mission_state
get_mission_status-on_mission_state account mission status missions m user there =
    let change : MissionStatus → MissionStatus =
      λ s. record s { continue_state = continuestate_inactive } in
    let updated = update_mission mission change (missions_of account m) in
    let found : lookup mission (missions_of account m) ≡ some status =
      ap (λ o. lookup mission (or_empty o)) user ∙ there in
    let set : (on_mission_state continuestate_inactive account mission m).0
        ≡ set_missions account updated m =
      rw (exist-found account mission status missions m user there, on_mission_state) refl in
    ap (get_mission_status account mission) set
    ∙ (get_mission_status-set account mission updated m
        ∙ lookup-update_mission mission change status (missions_of account m) found)

not_sent-inactive :
    (w : World) (status : MissionStatus) (s : SendMgr)
    → status.mission_id ≢ s.unfo_mission_id
    → ((send_continue_broadcast w mission_event_inactive status s).1 ≡ [])
      × ((send_continue_broadcast w mission_event_inactive status s).0.timers ≡ s.timers)
unfolding send_continue_broadcast
not_sent-inactive w status s other = ground arith

not_sent-unfocused :
    (w : World) (status : MissionStatus) (s : SendMgr)
    → status.continue_state ≡ continuestate_inactive
    → send_continue_broadcast w mission_event_unfocused status s ≡ (s, [])
unfolding send_continue_broadcast check_mission_send_condition
not_sent-unfocused w status s inactive = ground arith

unfocused-quiet :
    (w : World) (account mission : ℕ) (status : MissionStatus) (s : SendMgr)
    → get_mission_status account mission w.conditions ≡ some status
    → status.continue_state ≡ continuestate_inactive
    → (on_mission_status_changed w account mission mission_event_unfocused s).1 ≡ []
unfolding on_mission_status_changed
unfocused-quiet w account mission status s known inactive =
    rw (known, on_mission_status_changed)
      (if_cases {A = SendMgr × List (List ℕ)} (λ x. x.1 ≡ []) s.has_handler _ _
        (λ here. ap (λ x. x.1) (not_sent-unfocused w status (without_timer mission s) inactive))
        (λ gone. refl))

-- Where a mission becomes inactive that is not the last one whose offer was taken back, nothing is broadcast,
-- the timer that would take its offer back is gone, and nothing is broadcast either when it then loses
-- the focus.
pub on_mission_status_changed-on_mission_state :
    (w : World) (account mission : ℕ) (status : MissionStatus) (missions : Missions) (m : Manager)
    (s : SendMgr)
    → lookup account m.mission_map ≡ some missions
    → lookup mission missions ≡ some status
    → w.conditions ≡ (on_mission_state continuestate_inactive account mission m).0
    → status.mission_id ≢ s.unfo_mission_id
    → s.has_handler ≡ true
    → let changed = on_mission_status_changed w account mission mission_event_inactive s in
      (changed.1 ≡ [])
      × HasNoTimer mission changed.0.timers
      × ((on_mission_status_changed w account mission mission_event_unfocused changed.0).1 ≡ [])
unfolding on_mission_status_changed
on_mission_status_changed-on_mission_state w account mission status missions m s user there now
      other handler =
    let inactive = record status { continue_state = continuestate_inactive } in
    let known : get_mission_status account mission w.conditions ≡ some inactive =
      ap (get_mission_status account mission) now
      ∙ get_mission_status-on_mission_state account mission status missions m user there in
    let quiet = not_sent-inactive w inactive (without_timer mission s) other in
    let changed = on_mission_status_changed w account mission mission_event_inactive s in
    let same : changed
        ≡ send_continue_broadcast w mission_event_inactive inactive (without_timer mission s) =
      rw (known, handler, on_mission_status_changed) refl in
    let timers : changed.0.timers ≡ remove_task mission s.timers =
      ap (λ x. x.0.timers) same ∙ quiet.1 in
    let later : (on_mission_status_changed w account mission mission_event_unfocused changed.0).1
        ≡ [] =
      unfocused-quiet w account mission inactive changed.0 known refl in
    (
      ap (λ x. x.1) same ∙ quiet.0,
      subst (HasNoTimer mission) (sym timers) (remove_task-HasNoTimer mission s.timers),
      later,
    )
