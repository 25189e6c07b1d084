-- ===== src/MissionConditions/Focus.antt =====
-- Which missions have the focus.
use mathlib.Core.Path.{subst}
use dmsfwk.Prelude.{
  ℕ, ltb, ap, ◌≡◌, refl, ◌⊎◌, inl, inr, Bool, true, false, some, List, [], ◌∷◌, ◌==◌, lookup,
  insert, erase, Ascending, insert-Ascending, Bool-cases, if_cases, arith, suc,
}
use dmsfwk.MissionConditions.{
  MissionInfo, MissionStatus, Missions, convert_to_mission_status, convert_all, or_empty,
  clean_last_focused_flag,
}
use dmsfwk.MissionConditions.Conditions.{focused_or}

-- No mission but `k` has the focus.
abbrev pub OnlyFocus : ℕ → Missions → Type 0
OnlyFocus k [] = Unit {0}
OnlyFocus k ((id, s) ∷ missions) = ((s.is_focused ≡ false) ⊎ (id ≡ k)) × OnlyFocus k missions

-- The missions are ordered by their numbers, and one of them at most has the focus.
abbrev pub HasOneFocus : Missions → Type 0
HasOneFocus missions = Ascending 0 missions × (k : ℕ) × OnlyFocus k missions

abbrev pub HaveOneFocus : List (ℕ × Missions) → Type 0
HaveOneFocus [] = Unit {0}
HaveOneFocus ((account, missions) ∷ lists) = HasOneFocus missions × HaveOneFocus lists

pub insert-OnlyFocus :
    (k id : ℕ) (s : MissionStatus) (missions : Missions)
    → (s.is_focused ≡ false) ⊎ (id ≡ k)
    → OnlyFocus k missions
    → OnlyFocus k (insert id s missions)
unfolding insert
insert-OnlyFocus k id s [] own h = (own, tt)
insert-OnlyFocus k id s ((id0, s0) ∷ missions) own h =
    ground (arith, insert-OnlyFocus k id s missions own h.1)

pub erase-OnlyFocus :
    (k id : ℕ) (missions : Missions) → OnlyFocus k missions → OnlyFocus k (erase id missions)
unfolding erase
erase-OnlyFocus k id [] h = tt
erase-OnlyFocus k id ((id0, s0) ∷ missions) h = ground (arith, erase-OnlyFocus k id missions h.1)

pub lookup-OnlyFocus :
    (k id : ℕ) (s : MissionStatus) (missions : Missions)
    → OnlyFocus k missions
    → lookup id missions ≡ some s
    → (s.is_focused ≡ false) ⊎ (id ≡ k)
unfolding lookup
lookup-OnlyFocus k id s [] h there = ground arith
lookup-OnlyFocus k id s ((id0, s0) ∷ missions) h there =
    ground (arith, lookup-OnlyFocus k id s missions h.1)

pub clean_last_focused_flag-OnlyFocus :
    (mission : ℕ) (missions : Missions)
    → OnlyFocus mission (clean_last_focused_flag mission missions)
unfolding clean_last_focused_flag
clean_last_focused_flag-OnlyFocus mission [] = tt
clean_last_focused_flag-OnlyFocus mission ((id, s) ∷ missions) =
    ground (arith, clean_last_focused_flag-OnlyFocus mission missions)

pub clean_last_focused_flag-Ascending :
    (n mission : ℕ) (missions : Missions)
    → Ascending n missions
    → Ascending n (clean_last_focused_flag mission missions)
unfolding clean_last_focused_flag
clean_last_focused_flag-Ascending n mission [] h = tt
clean_last_focused_flag-Ascending n mission ((id, s) ∷ missions) h =
    ground (arith, clean_last_focused_flag-Ascending (suc id) mission missions h.1)

pub lookup-clean_last_focused_flag :
    (mission : ℕ) (missions : Missions)
    → lookup mission (clean_last_focused_flag mission missions) ≡ lookup mission missions
unfolding clean_last_focused_flag lookup
lookup-clean_last_focused_flag mission [] = refl
lookup-clean_last_focused_flag mission ((id, s) ∷ missions) =
    ground (arith, lookup-clean_last_focused_flag mission missions)

-- The mission that has the focus is the one that is found.
pub focused_or-OnlyFocus :
    (k given : ℕ) (s : MissionStatus) (missions : Missions)
    → OnlyFocus k missions
    → lookup k missions ≡ some s
    → s.is_focused ≡ true
    → focused_or given missions ≡ k
unfolding focused_or lookup
focused_or-OnlyFocus k given s [] h there focused = ground arith
focused_or-OnlyFocus k given s ((id, s0) ∷ missions) h there focused =
    ground (arith, focused_or-OnlyFocus k given s missions h.1)

pub convert_all-OnlyFocus :
    (infos : List MissionInfo) (k : ℕ) (missions : Missions)
    → OnlyFocus k missions
    → OnlyFocus k (convert_all false infos missions)
unfolding convert_all
convert_all-OnlyFocus [] k missions h = h
convert_all-OnlyFocus (info ∷ infos) k missions h =
    convert_all-OnlyFocus infos k
      (insert info.info_id (convert_to_mission_status false info) missions)
      (insert-OnlyFocus k info.info_id (convert_to_mission_status false info) missions (inl refl) h)

pub convert_all-Ascending :
    (focused : Bool) (infos : List MissionInfo) (missions : Missions)
    → Ascending 0 missions
    → Ascending 0 (convert_all focused infos missions)
unfolding convert_all
convert_all-Ascending focused [] missions h = h
convert_all-Ascending focused (info ∷ infos) missions h =
    convert_all-Ascending focused infos
      (insert info.info_id (convert_to_mission_status focused info) missions)
      (insert-Ascending 0 info.info_id (convert_to_mission_status focused info) missions
        (omega arith) h)

pub lookup-HaveOneFocus :
    (account : ℕ) (missions : Missions) (lists : List (ℕ × Missions))
    → HaveOneFocus lists
    → lookup account lists ≡ some missions
    → HasOneFocus missions
unfolding lookup
lookup-HaveOneFocus account missions [] h there = ground arith
lookup-HaveOneFocus account missions ((a, missions0) ∷ lists) h there =
    elim (Bool-cases (a == account)) [
      | inl same ↦
          let found : some missions0 ≡ some missions = ground (arith, same, there) in
          subst HasOneFocus (ap or_empty found) h.0
      | inr other ↦
          let later : lookup account lists ≡ some missions = ground (arith, other, there) in
          lookup-HaveOneFocus account missions lists h.1 later
    ]

pub insert-HaveOneFocus :
    (account : ℕ) (missions : Missions) (lists : List (ℕ × Missions))
    → HasOneFocus missions
    → HaveOneFocus lists
    → HaveOneFocus (insert account missions lists)
unfolding insert
insert-HaveOneFocus account missions [] own h = (own, tt)
insert-HaveOneFocus account missions ((a, missions0) ∷ lists) own h =
    if_cases (λ x. HaveOneFocus x) (a == account) _ _ (λ same. (own, h.1))
      (λ other.
        if_cases (λ x. HaveOneFocus x) (ltb account a) _ _ (λ before. (own, h))
          (λ after. (h.0, insert-HaveOneFocus account missions lists own h.1)))

pub erase-HaveOneFocus :
    (account : ℕ) (lists : List (ℕ × Missions))
    → HaveOneFocus lists
    → HaveOneFocus (erase account lists)
unfolding erase
erase-HaveOneFocus account [] h = tt
erase-HaveOneFocus account ((a, missions0) ∷ lists) h =
    if_cases (λ x. HaveOneFocus x) (a == account) _ _ (λ same. h.1)
      (λ other. (h.0, erase-HaveOneFocus account lists h.1))
