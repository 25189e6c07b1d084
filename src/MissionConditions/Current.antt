-- ===== src/MissionConditions/Current.antt =====
-- The mission that a user's list gives as the focused one.
use dmsfwk.Prelude.{
  ℕ, ◌∙◌, ◌≡◌, refl, inl, inr, true, some, lookup, insert, Bool-cases, Option-cases, arith,
  lookup-insert_self,
}
use dmsfwk.MissionConditions.{
  MissionStatus, Platform, Missions, Manager, err_ok, convert_to_mission_status, with_focus,
  update_mission, clean_last_focused_flag, missions_of, set_missions, is_mission_status_exist,
  on_mission_focused,
}
use dmsfwk.MissionConditions.Conditions.{get_current_focused_mission}
use dmsfwk.MissionConditions.Focus.{
  OnlyFocus, insert-OnlyFocus, clean_last_focused_flag-OnlyFocus, lookup-clean_last_focused_flag,
  focused_or-OnlyFocus,
}
use dmsfwk.MissionConditions.Steps.{focus-OnlyFocus}

exist-lookup :
    (account mission : ℕ) (m : Manager)
    → is_mission_status_exist account mission m ≡ true
    → (s : MissionStatus) × (lookup mission (missions_of account m) ≡ some s)
unfolding is_mission_status_exist
exist-lookup account mission m known = elim (Option-cases (lookup account m.mission_map)) [
  | inl absent ↦ absurd (ground (arith, absent, known))
  | inr (missions, there) ↦ elim (Option-cases (lookup mission missions)) [
    | inl absent ↦ absurd (ground (arith, absent, there, known))
    | inr (s, found) ↦ (s, rw (there, found) refl)
  ]
]

pub lookup-update_mission :
    (mission : ℕ) (change : MissionStatus → MissionStatus) (s : MissionStatus) (missions : Missions)
    → lookup mission missions ≡ some s
    → lookup mission (update_mission mission change missions) ≡ some (change s)
unfolding update_mission
lookup-update_mission mission change s missions there =
    rw (there, update_mission) (lookup-insert_self mission (change s) missions)

get_current-set :
    (account mission : ℕ) (s : MissionStatus) (missions : Missions) (m : Manager)
    → OnlyFocus mission missions
    → lookup mission missions ≡ some s
    → s.is_focused ≡ true
    → get_current_focused_mission account (set_missions account missions m) ≡ mission
unfolding get_current_focused_mission
get_current-set account mission s missions m only there focused =
    rw (lookup-insert_self account missions m.mission_map, get_current_focused_mission)
      (focused_or-OnlyFocus mission 0 s missions only there focused)

-- A mission that is told to have the focus, and is in the list of its user or known to the ability manager,
-- is the one that the manager then gives as the focused one, whatever had the focus before.
pub get_current_focused_mission-on_mission_focused :
    (platform : Platform) (account mission : ℕ) (m : Manager)
    → (on_mission_focused platform account mission m).1 ≡ err_ok
    → get_current_focused_mission account (on_mission_focused platform account mission m).0
      ≡ mission
unfolding on_mission_focused
get_current_focused_mission-on_mission_focused platform account mission m ok =
    let missions = missions_of account m in
    let cleaned = clean_last_focused_flag mission missions in
    let only = clean_last_focused_flag-OnlyFocus mission missions in
    elim (Bool-cases (is_mission_status_exist account mission m)) [
      | inl known ↦
          let (s, found) = exist-lookup account mission m known in
          let there : lookup mission cleaned ≡ some s =
            lookup-clean_last_focused_flag mission missions ∙ found in
          let shown : lookup mission (update_mission mission (with_focus true) cleaned)
              ≡ some (with_focus true s) =
            lookup-update_mission mission (with_focus true) s cleaned there in
          rw (known, on_mission_focused)
            (get_current-set account mission (with_focus true s)
              (update_mission mission (with_focus true) cleaned) m
              (focus-OnlyFocus mission cleaned only) shown refl)
      | inr unknown ↦ elim (Option-cases (platform.get_mission_info mission)) [
        | inl nothing ↦ absurd (ground (arith, unknown, nothing, ok))
        | inr (info, told) ↦
            let s = convert_to_mission_status true info in
            rw (unknown, told, on_mission_focused)
              (get_current-set account mission s (insert mission s cleaned) m
                (insert-OnlyFocus mission mission s cleaned (inr refl) only)
                (lookup-insert_self mission s cleaned) refl)
      ]
    ]
