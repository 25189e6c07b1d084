-- ===== src/ContinueManager/Counts/Waiting.antt =====
-- The wait for a decision of the all-connect manager, and the timer after it, leave the table as it was.
use dmsfwk.Prelude.{
  ℕ, ◌≡◌, refl, ◌∙◌, Bool, false, ◌&&◌, Option, none, some, List, [], ◌∷◌, ◌==◌, lookup, if_cases,
}
use dmsfwk.Continue.{Direction}
use dmsfwk.ContinueManager.{
  DschedContinueInfo, System, Manager, time_out_task, notify_all_connect_decision,
}
use dmsfwk.ContinueManager.Start.{
  set_time_out, peer_device_id, forget_decision, wait_for, after_wait, wait_all_connect_decision,
}
use dmsfwk.ContinueManager.Counts.{Names}
use dmsfwk.ContinueManager.Counts.Kept.{AreQuiet, add-AreQuiet}

module _ (system : System) (local : ℕ) (Asked : Names) where
  -- A change that is for tasks, timers and decisions only, of which the tasks stay quiet.
  abbrev pub SameTable : Manager → Manager → Type 0
  SameTable m m' =
      (m'.continues ≡ m.continues)
      × (m'.cnt_sink ≡ m.cnt_sink)
      × (m'.cnt_source ≡ m.cnt_source)
      × (AreQuiet system local Asked m.tasks → AreQuiet system local Asked m'.tasks)

  SameTable-trans : (m m' m'' : Manager) → SameTable m m' → SameTable m' m'' → SameTable m m''
  SameTable-trans m m' m'' h h' = (h'.0 ∙ h.0, h'.1 ∙ h.1, h'.2 ∙ h.2, λ q. h'.3 (h.3 q))

  set_time_out-SameTable :
      (info : DschedContinueInfo) (is_later : Bool) (m : Manager)
      → SameTable m (set_time_out system info is_later m)
  set_time_out-SameTable info is_later m =
      if_cases (λ m'. SameTable m m') m.has_handler _ _
        (λ here.
          if_cases (λ m'. SameTable m m') is_later _ _ (λ later. (refl, refl, refl, λ q. q))
            (λ now. (
              refl,
              refl,
              refl,
              λ q. add-AreQuiet system local Asked (time_out_task info) m.tasks tt q,
            )))
        (λ gone. (refl, refl, refl, λ q. q))

  wait_for-SameTable :
      (peer : ℕ) (decisions : List (ℕ × Bool)) (m : Manager)
      → SameTable m (wait_for peer decisions m)
  unfolding wait_for
  wait_for-SameTable peer [] m = (refl, refl, refl, λ q. q)
  wait_for-SameTable peer ((device, is_support) ∷ decisions) m =
      if_cases (λ m'. SameTable m m') (device == peer && is_support) _ _
        (λ stops. (refl, refl, refl, λ q. q))
        (λ goes_on.
          wait_for-SameTable peer decisions (notify_all_connect_decision device is_support m))

  after_wait-SameTable :
      (o : Option Bool) (peer : ℕ) (info : DschedContinueInfo) (m : Manager)
      → SameTable m (after_wait o system peer info m)
  after_wait-SameTable none peer info m = set_time_out-SameTable info false m
  after_wait-SameTable (some allowed) peer info m =
      set_time_out-SameTable info allowed (forget_decision peer m)

  pub wait_all_connect_decision-SameTable :
      (decisions : List (ℕ × Bool)) (d : Direction) (info : DschedContinueInfo) (m : Manager)
      → SameTable m (wait_all_connect_decision system decisions d info m)
  unfolding wait_all_connect_decision
  wait_all_connect_decision-SameTable decisions d info m =
      let peer = peer_device_id d info in
      let waited = wait_for peer decisions m in
      SameTable-trans m waited
        (after_wait (lookup peer waited.peer_connect_decision) system peer info waited)
        (wait_for-SameTable peer decisions m)
        (after_wait-SameTable (lookup peer waited.peer_connect_decision) peer info waited)
