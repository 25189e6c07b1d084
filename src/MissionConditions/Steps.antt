-- ===== src/MissionConditions/Steps.antt =====
-- All that changes the missions, and what it keeps of the focus.
use dmsfwk.Prelude.{
  ℕ, ◌≡◌, refl, ◌⊎◌, inl, inr, true, false, [], ltb, lookup, insert, erase, Ascending,
  insert-Ascending, erase-Ascending, Option-cases, if_cases, arith,
}
use dmsfwk.MissionConditions.{
  ContinueState, MissionStatus, MissionEventType, Platform, Missions, Manager, Code,
  convert_to_mission_status, convert_all, with_focus, update_mission, clean_last_focused_flag,
  missions_of, init_mission_status, is_mission_status_exist, on_mission_focused,
  on_mission_unfocused, on_mission_destory, on_mission_state, on_event, update_mission_status,
  mission_event_focused, mission_event_unfocused, mission_event_destoryed, mission_event_active,
  mission_event_inactive, mission_event_timeout, mission_event_mmi, mission_event_invalid,
  continuestate_active, continuestate_inactive,
}
use dmsfwk.MissionConditions.Conditions.{
  focused_or, get_mission_id_by_bundle_name, touch, zero_status,
}
use dmsfwk.MissionConditions.Focus.{
  OnlyFocus, HasOneFocus, HaveOneFocus, insert-OnlyFocus, erase-OnlyFocus, lookup-OnlyFocus,
  clean_last_focused_flag-OnlyFocus, clean_last_focused_flag-Ascending, convert_all-OnlyFocus,
  convert_all-Ascending, lookup-HaveOneFocus, insert-HaveOneFocus,
}

missions_of-HasOneFocus :
    (account : ℕ) (m : Manager) → HaveOneFocus m.mission_map → HasOneFocus (missions_of account m)
missions_of-HasOneFocus account m h = elim (Option-cases (lookup account m.mission_map)) [
  | inl absent ↦ rw absent (tt, 0, tt)
  | inr (missions, there) ↦ rw there (lookup-HaveOneFocus account missions m.mission_map h there)
]

-- A mission of the list that changes, and does not get the focus by it.
update_mission-HasOneFocus :
    (mission : ℕ) (change : MissionStatus → MissionStatus) (missions : Missions)
    → ((s : MissionStatus)
        → ((change s).is_focused ≡ false) ⊎ ((change s).is_focused ≡ s.is_focused))
    → HasOneFocus missions
    → HasOneFocus (update_mission mission change missions)
unfolding update_mission
update_mission-HasOneFocus mission change missions keeps h =
    elim (Option-cases (lookup mission missions)) [
      | inl absent ↦ rw (absent, update_mission) h
      | inr (s, there) ↦
          let (order, k, only) = h in
          let own : ((change s).is_focused ≡ false) ⊎ (mission ≡ k) =
            let was = lookup-OnlyFocus k mission s missions only there in
            let now = keeps s in ground arith in
          rw (there, update_mission)
            (
              insert-Ascending 0 mission (change s) missions (omega arith) order,
              k,
              insert-OnlyFocus k mission (change s) missions own only,
            )
    ]

-- The one mission that may have the focus gets it.
pub focus-OnlyFocus :
    (mission : ℕ) (missions : Missions)
    → OnlyFocus mission missions
    → OnlyFocus mission (update_mission mission (with_focus true) missions)
unfolding update_mission
focus-OnlyFocus mission missions only = elim (Option-cases (lookup mission missions)) [
  | inl absent ↦ rw (absent, update_mission) only
  | inr (s, there) ↦
      rw (there, update_mission)
        (insert-OnlyFocus mission mission (with_focus true s) missions (inr refl) only)
]

update_mission-Ascending :
    (mission : ℕ) (change : MissionStatus → MissionStatus) (missions : Missions)
    → Ascending 0 missions
    → Ascending 0 (update_mission mission change missions)
unfolding update_mission
update_mission-Ascending mission change missions h = elim (Option-cases (lookup mission missions)) [
  | inl absent ↦ rw (absent, update_mission) h
  | inr (s, there) ↦
      rw (there, update_mission) (insert-Ascending 0 mission (change s) missions (omega arith) h)
]

on_mission_focused-HaveOneFocus :
    (platform : Platform) (account mission : ℕ) (m : Manager)
    → HaveOneFocus m.mission_map
    → HaveOneFocus (on_mission_focused platform account mission m).0.mission_map
unfolding on_mission_focused
on_mission_focused-HaveOneFocus platform account mission m h =
    let missions = missions_of account m in
    let cleaned = clean_last_focused_flag mission missions in
    let own = missions_of-HasOneFocus account m h in
    let order = clean_last_focused_flag-Ascending 0 mission missions own.0 in
    let only = clean_last_focused_flag-OnlyFocus mission missions in
    if_cases {A = Manager × Code} (λ x. HaveOneFocus x.0.mission_map)
      (is_mission_status_exist account mission m) _ _
      (λ known.
        insert-HaveOneFocus account (update_mission mission (with_focus true) cleaned) m.mission_map
          (
            update_mission-Ascending mission (with_focus true) cleaned order,
            mission,
            focus-OnlyFocus mission cleaned only,
          )
          h)
      (λ unknown. elim (Option-cases (platform.get_mission_info mission)) [
        | inl nothing ↦ rw nothing h
        | inr (info, told) ↦ rw told (
            insert-HaveOneFocus account
              (insert mission (convert_to_mission_status true info) cleaned) m.mission_map
              (
                insert-Ascending 0 mission (convert_to_mission_status true info) cleaned
                    (omega arith) order,
                mission,
                insert-OnlyFocus mission mission (convert_to_mission_status true info) cleaned
                    (inr refl) only,
              )
              h)
      ])

module _ (account mission : ℕ) (m : Manager) (h : HaveOneFocus m.mission_map) where
  changed :
      (change : MissionStatus → MissionStatus)
      → ((s : MissionStatus)
          → ((change s).is_focused ≡ false) ⊎ ((change s).is_focused ≡ s.is_focused))
      → HaveOneFocus
          (insert account (update_mission mission change (missions_of account m)) m.mission_map)
  changed change keeps =
      insert-HaveOneFocus account (update_mission mission change (missions_of account m))
        m.mission_map
        (update_mission-HasOneFocus mission change (missions_of account m) keeps
          (missions_of-HasOneFocus account m h))
        h

  on_mission_unfocused-HaveOneFocus :
      HaveOneFocus (on_mission_unfocused account mission m).0.mission_map
  unfolding on_mission_unfocused
  on_mission_unfocused-HaveOneFocus =
      if_cases {A = Manager × Code} (λ x. HaveOneFocus x.0.mission_map)
        (is_mission_status_exist account mission m) _ _
        (λ known. changed (with_focus false) (λ s. inl refl)) (λ unknown. h)

  on_mission_destory-HaveOneFocus :
      HaveOneFocus (on_mission_destory account mission m).0.mission_map
  unfolding on_mission_destory
  on_mission_destory-HaveOneFocus =
      let missions = missions_of account m in
      let (order, k, only) = missions_of-HasOneFocus account m h in
      if_cases {A = Manager × Code} (λ x. HaveOneFocus x.0.mission_map)
        (is_mission_status_exist account mission m) _ _
        (λ known.
          insert-HaveOneFocus account (erase mission missions) m.mission_map
            (erase-Ascending 0 mission missions order, k, erase-OnlyFocus k mission missions only)
            h)
        (λ unknown. h)

  on_mission_state-HaveOneFocus :
      (state : ContinueState)
      → HaveOneFocus (on_mission_state state account mission m).0.mission_map
  unfolding on_mission_state
  on_mission_state-HaveOneFocus state =
      if_cases {A = Manager × Code} (λ x. HaveOneFocus x.0.mission_map)
        (is_mission_status_exist account mission m) _ _
        (λ known. changed (λ s. record s { continue_state = state }) (λ s. inr refl)) (λ unknown. h)

  on_event-HaveOneFocus :
      (platform : Platform) (type : MissionEventType)
      → HaveOneFocus (on_event type platform account mission m).0.mission_map
  on_event-HaveOneFocus platform mission_event_focused =
      on_mission_focused-HaveOneFocus platform account mission m h
  on_event-HaveOneFocus platform mission_event_unfocused = on_mission_unfocused-HaveOneFocus
  on_event-HaveOneFocus platform mission_event_destoryed = on_mission_destory-HaveOneFocus
  on_event-HaveOneFocus platform mission_event_active =
      on_mission_state-HaveOneFocus continuestate_active
  on_event-HaveOneFocus platform mission_event_inactive =
      on_mission_state-HaveOneFocus continuestate_inactive
  on_event-HaveOneFocus platform mission_event_timeout = h
  on_event-HaveOneFocus platform mission_event_mmi = h
  on_event-HaveOneFocus platform mission_event_invalid = h

  pub update_mission_status-HaveOneFocus :
      (platform : Platform) (type : MissionEventType)
      → HaveOneFocus (update_mission_status platform account mission type m).0.mission_map
  unfolding update_mission_status
  update_mission_status-HaveOneFocus platform type =
      elim (Option-cases (lookup account m.mission_map)) [
        | inl absent ↦ rw (absent, update_mission_status) h
        | inr (missions, there) ↦
            rw (there, update_mission_status) (on_event-HaveOneFocus platform type)
      ]

-- A user's missions, where what is not set in a status happens to be no focus.
pub init_mission_status-HaveOneFocus :
    (platform : Platform) (account : ℕ) (m : Manager)
    → platform.uninitialised ≡ false
    → HaveOneFocus m.mission_map
    → HaveOneFocus (init_mission_status platform account m).mission_map
unfolding init_mission_status
init_mission_status-HaveOneFocus platform account m clear h =
    let missions = convert_all platform.uninitialised platform.get_mission_infos [] in
    let current = platform.get_current_mission_id in
    let order = convert_all-Ascending platform.uninitialised platform.get_mission_infos [] tt in
    let only : OnlyFocus current missions =
      rw clear (convert_all-OnlyFocus platform.get_mission_infos current [] tt) in
    elim (Option-cases (lookup account m.mission_map)) [
      | inl absent ↦
          rw (absent, init_mission_status)
            (if_cases {A = Manager} (λ x. HaveOneFocus x.mission_map) (ltb 1 current) _ _
              (λ some_current.
                insert-HaveOneFocus account (update_mission current (with_focus true) missions)
                  m.mission_map
                  (
                    update_mission-Ascending current (with_focus true) missions order,
                    current,
                    focus-OnlyFocus current missions only,
                  )
                  h)
              (λ none_current.
                insert-HaveOneFocus account missions m.mission_map (order, current, only) h))
      | inr (known, there) ↦ rw (there, init_mission_status) h
    ]

touch-HaveOneFocus :
    (platform : Platform) (account id : ℕ) (missions : Missions) (m : Manager)
    → HasOneFocus missions
    → HaveOneFocus m.mission_map
    → HaveOneFocus (touch platform account id missions m).mission_map
touch-HaveOneFocus platform account id missions m (order, k, only) h =
    elim (Option-cases (lookup id missions)) [
      | inl absent ↦
          rw (absent, touch)
            (insert-HaveOneFocus account (insert id (zero_status platform) missions) m.mission_map
              (
                insert-Ascending 0 id (zero_status platform) missions (omega arith) order,
                k,
                insert-OnlyFocus k id (zero_status platform) missions (inl refl) only,
              )
              h)
      | inr (s, there) ↦ rw (there, touch) h
    ]

-- A question about a bundle.
pub get_mission_id_by_bundle_name-HaveOneFocus :
    (platform : Platform) (account bundle mission : ℕ) (m : Manager)
    → HaveOneFocus m.mission_map
    → HaveOneFocus (get_mission_id_by_bundle_name platform account bundle mission m).0.mission_map
unfolding get_mission_id_by_bundle_name
get_mission_id_by_bundle_name-HaveOneFocus platform account bundle mission m h =
    elim (Option-cases (lookup account m.mission_map)) [
      | inl absent ↦ rw (absent, get_mission_id_by_bundle_name) h
      | inr (missions, there) ↦
          let own = lookup-HaveOneFocus account missions m.mission_map h there in
          rw (there, get_mission_id_by_bundle_name)
            (touch-HaveOneFocus platform account (focused_or mission missions) missions m own h)
    ]
