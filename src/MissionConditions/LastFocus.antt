-- ===== src/MissionConditions/LastFocus.antt =====
-- The mission that had the focus last stays the answer for its bundle after it is gone.
use mathlib.Core.Path.{subst}
use dmsfwk.Prelude.{
  ℕ, ◌≡◌, ◌≢◌, refl, sym, ap, ◌∙◌, inr, true, false, none, some, [], ◌∷◌, lookup, insert, erase,
  Ascending, insert-Ascending, lookup-insert_self, lookup-insert_ne, lookup-erase_self,
  lookup-erase_ne, arith, ==_self,
}
use dmsfwk.MissionConditions.{
  MissionStatus, Missions, Platform, Manager, err_ok, with_focus, or_empty, update_mission,
  missions_of, set_missions, is_mission_status_exist, last_focused, on_mission_unfocused,
  on_mission_destory,
}
use dmsfwk.MissionConditions.Conditions.{
  focused_or, get_mission_status, zero_status, or_zero, choose, get_mission_id_by_bundle_name,
}
use dmsfwk.MissionConditions.Focus.{
  OnlyFocus, HasOneFocus, insert-OnlyFocus, erase-OnlyFocus, lookup-OnlyFocus,
}

focused_or-absent :
    (k given : ℕ) (missions : Missions)
    → OnlyFocus k missions
    → lookup k missions ≡ none
    → focused_or given missions ≡ given
unfolding focused_or lookup
focused_or-absent k given [] only absent = refl
focused_or-absent k given ((id, s) ∷ missions) only absent =
    ground (arith, focused_or-absent k given missions only.1)

pub exist-found :
    (account mission : ℕ) (s : MissionStatus) (missions : Missions) (m : Manager)
    → lookup account m.mission_map ≡ some missions
    → lookup mission missions ≡ some s
    → is_mission_status_exist account mission m ≡ true
unfolding is_mission_status_exist
exist-found account mission s missions m user there = rw (user, there, is_mission_status_exist) refl

module _ (account mission : ℕ) (s : MissionStatus) (missions : Missions) (m : Manager)
    (user : lookup account m.mission_map ≡ some missions)
    (there : lookup mission missions ≡ some s) where
  left : Manager
  left = record (set_missions account (insert mission (with_focus false s) missions) m) {
    last_focus_mission = (account, with_focus false s);
  }

  on_mission_unfocused-left : (on_mission_unfocused account mission m).0 ≡ left
  unfolding on_mission_unfocused left update_mission
  on_mission_unfocused-left =
      let own : missions_of account m ≡ missions = ap or_empty user in
      let found : lookup mission (missions_of account m) ≡ some s =
        ap (lookup mission) own ∙ there in
      let updated : update_mission mission (with_focus false) (missions_of account m)
          ≡ insert mission (with_focus false s) missions =
        ap (update_mission mission (with_focus false)) own ∙ (rw (there, update_mission) refl) in
      let last : last_focused account mission m ≡ (account, with_focus false s) =
        rw (found, last_focused) refl in
      rw (exist-found account mission s missions m user there, on_mission_unfocused)
        (ap
            (λ x. record (set_missions account x m) {
              last_focus_mission = last_focused account mission m;
            })
            updated
          ∙ ap
              (λ x. record (set_missions account (insert mission (with_focus false s) missions) m) {
                last_focus_mission = x;
              })
              last)

gone :
    (account mission : ℕ) (s : MissionStatus) (missions : Missions) (m : Manager)
    → lookup account m.mission_map ≡ some missions
    → lookup mission missions ≡ some s
    → (on_mission_destory account mission m).0 ≡ set_missions account (erase mission missions) m
unfolding on_mission_destory
gone account mission s missions m user there =
    rw (exist-found account mission s missions m user there, user, on_mission_destory) refl

choose_last :
    (platform : Platform) (given : ℕ) (s : MissionStatus)
    → s.is_continuable ≡ true
    → choose s.bundle_name given (zero_status platform) (with_focus false s)
      ≡ (err_ok, s.mission_id)
choose_last platform given s continuable = ground (arith, ==_self s.bundle_name)

-- Where the focused mission of a user, which can be continued, loses the focus and is then destroyed, the
-- question for the mission of its bundle is answered ERR_OK with its number, though the manager has no
-- status of it; the missions have at most one focus, and none of them has the number that the variable
-- of the caller holds before.
pub get_mission_id_by_bundle_name-on_mission_destory :
    (platform : Platform) (account mission given : ℕ) (s : MissionStatus) (missions : Missions)
    (m : Manager)
    → lookup account m.mission_map ≡ some missions
    → HasOneFocus missions
    → lookup mission missions ≡ some s
    → s.is_focused ≡ true
    → s.is_continuable ≡ true
    → lookup given missions ≡ none
    → let m' = (on_mission_destory account mission (on_mission_unfocused account mission m).0).0 in
      let answer = get_mission_id_by_bundle_name platform account s.bundle_name given m' in
      (get_mission_status account mission m' ≡ none)
      × (answer.1 ≡ err_ok)
      × (answer.2 ≡ s.mission_id)
unfolding get_mission_id_by_bundle_name get_mission_status left
get_mission_id_by_bundle_name-on_mission_destory platform account mission given s missions m user
      (order, k, only) there focused continuable numbered =
    let s' = with_focus false s in
    let missions1 = insert mission s' missions in
    let missions2 = erase mission missions1 in
    let m1 : Manager = record (set_missions account missions1 m) {
      last_focus_mission = (account, s');
    } in
    let m2 : Manager = set_missions account missions2 m1 in
    let left' : (on_mission_unfocused account mission m).0 ≡ m1 =
      on_mission_unfocused-left account mission s missions m user there in
    let gone' : (on_mission_destory account mission m1).0 ≡ m2 =
      gone account mission s' missions1 m1 (lookup-insert_self account missions1 m.mission_map)
        (lookup-insert_self mission s' missions) in
    let all : (on_mission_destory account mission (on_mission_unfocused account mission m).0).0
        ≡ m2 =
      ap (λ x. (on_mission_destory account mission x).0) left' ∙ gone' in
    let order1 : Ascending 0 missions1 =
      insert-Ascending 0 mission s' missions (omega arith) order in
    let absent : lookup mission missions2 ≡ none = lookup-erase_self 0 mission missions1 order1 in
    let is_k : mission ≡ k =
      let was = lookup-OnlyFocus k mission s missions only there in ground arith in
    let only1 : OnlyFocus mission missions1 =
      insert-OnlyFocus mission mission s' missions (inr refl) (rw is_k only) in
    let only2 : OnlyFocus mission missions2 = erase-OnlyFocus mission mission missions1 only1 in
    let nobody : focused_or given missions2 ≡ given =
      focused_or-absent mission given missions2 only2 absent in
    let user2 : lookup account m2.mission_map ≡ some missions2 =
      lookup-insert_self account missions2 m1.mission_map in
    let other : mission ≢ given = λ same. ground (arith, same, there, numbered) in
    let no_zero : lookup given missions2 ≡ none =
      lookup-erase_ne mission given missions1 other
      ∙ (lookup-insert_ne mission given s' missions other ∙ numbered) in
    let status : get_mission_status account mission m2 ≡ none =
      rw (user2, get_mission_status) absent in
    let chosen : choose s.bundle_name (focused_or given missions2)
          (or_zero platform (lookup (focused_or given missions2) missions2)) s'
        ≡ (err_ok, s.mission_id) =
      ap (λ n. choose s.bundle_name n (or_zero platform (lookup n missions2)) s') nobody
      ∙ (ap (λ o. choose s.bundle_name given (or_zero platform o) s') no_zero
          ∙ choose_last platform given s continuable) in
    let code : (get_mission_id_by_bundle_name platform account s.bundle_name given m2).1 ≡ err_ok =
      rw (user2, get_mission_id_by_bundle_name) (ap (λ x. x.0) chosen) in
    let number : (get_mission_id_by_bundle_name platform account s.bundle_name given m2).2
        ≡ s.mission_id =
      rw (user2, get_mission_id_by_bundle_name) (ap (λ x. x.1) chosen) in
    subst
      (λ x.
        (get_mission_status account mission x ≡ none)
        × ((get_mission_id_by_bundle_name platform account s.bundle_name given x).1 ≡ err_ok)
        × ((get_mission_id_by_bundle_name platform account s.bundle_name given x).2 ≡ s.mission_id))
      (sym all) (status, code, number)
