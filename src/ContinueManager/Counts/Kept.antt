-- ===== src/ContinueManager/Counts/Kept.antt =====
-- The counts stay those of the table in what comes for a continuation, and in its end.
use dmsfwk.Prelude.{
  ℕ, ◌≡◌, refl, inl, inr, Bool, not, ◌&&◌, ◌⊎◌, none, some, List, [], ◌∷◌, ◌++◌, ◌==◌, lookup,
  erase, Bool-cases, Option-cases, if_cases, if◌then◌else◌, arith,
}
use dmsfwk.Continue.{
  Code, Continue, Answers, Direction, continue_ability_timeout_err,
  continue_sink_ability_terminated,
}
use dmsfwk.ContinueManager.{
  DschedContinueInfo, Entry, start_arrived, System, Manager, Task, mission_task, bundle_task,
  end_task, data_task, key, post_task, decrement,
}
use dmsfwk.ContinueManager.Routing.{
  with_continuation, store, find_continue, hand_on, is_launched, end_with, on_time_out,
  get_dsched_continue_by_want, handle_start_continuation, handle_notify_complete_continuation,
  notify_terminate_continuation, discount, handle_continue_end, remove_task,
}
use dmsfwk.ContinueManager.Counts.{Names, IsAsked, lookup-Keyed, find_continue-lookup}
use dmsfwk.ContinueManager.Start.{
  with_source_bundle, with_mission_bundle, mission_info, bundle_info,
}
use dmsfwk.ContinueManager.Counts.Tables.{
  Separates, Fits, store-Fits, leaves_as_sink, leaves_as_source, leaves_uncounted,
}

-- A task that does not bring the start of a continuation from another device, and whose names, with the
-- bundles that a request gets, are such names.
abbrev pub IsQuiet : System → ℕ → Names → Task → Type 0
IsQuiet system local Asked (data_task session (some (start_arrived (some cmd)))) = ⊥
IsQuiet system local Asked (mission_task src dst mission has_callback) =
    (d : Direction)
    → IsAsked Asked (
        with_source_bundle system d
          (with_mission_bundle system local (mission_info src dst mission)))
IsQuiet system local Asked (bundle_task info has_callback) =
    (d : Direction) → IsAsked Asked (with_source_bundle system d (bundle_info info))
IsQuiet system local Asked (end_task info) = IsAsked Asked info
IsQuiet system local Asked t = Unit {0}

abbrev pub AreQuiet : System → ℕ → Names → List Task → Type 0
AreQuiet system local Asked [] = Unit {0}
AreQuiet system local Asked (t ∷ ts) = IsQuiet system local Asked t × AreQuiet system local Asked ts

-- The counts are those of the table, and no start from another device waits.
abbrev pub IsCounted : System → ℕ → Names → Manager → Type 0
IsCounted system local Asked m =
    Fits system local Asked m.continues m.cnt_sink m.cnt_source
    × AreQuiet system local Asked m.tasks

pub add-AreQuiet :
    (system : System) (local : ℕ) (Asked : Names) (t : Task) (ts : List Task)
    → IsQuiet system local Asked t
    → AreQuiet system local Asked ts
    → AreQuiet system local Asked (ts ++ t ∷ [])
add-AreQuiet system local Asked t [] q h = (q, tt)
add-AreQuiet system local Asked t (t0 ∷ ts) q h = (h.0, add-AreQuiet system local Asked t ts q h.1)

pub post_task-IsCounted :
    (system : System) (local : ℕ) (Asked : Names) (t : Task) (m : Manager)
    → IsQuiet system local Asked t
    → IsCounted system local Asked m
    → IsCounted system local Asked (post_task t m).0
post_task-IsCounted system local Asked t m q h = elim (Bool-cases m.has_handler) [
  | inl here ↦ rw here (h.0, add-AreQuiet system local Asked t m.tasks q h.1)
  | inr gone ↦ rw gone h
]

module _ (system : System) (local : ℕ) (Asked : Names) (apart : Separates system local Asked) where
  pub store-IsCounted :
      (k : ℕ) (e old : Entry) (m : Manager)
      → lookup k m.continues ≡ some old
      → key system e.continue_info ≡ key system old.continue_info
      → (IsAsked Asked old.continue_info → IsAsked Asked e.continue_info)
      → IsCounted system local Asked m
      → IsCounted system local Asked (store k e m)
  store-IsCounted k e old m there same asked h = (
    store-Fits system local Asked apart k e old m.continues m.cnt_sink m.cnt_source there same
        (asked (lookup-Keyed system Asked k old m.continues h.0.1 there).1) h.0,
    h.1,
  )

  -- What is found by a test is told something.
  pub hand_on-IsCounted :
      (test : Entry → Bool) (f : Continue → Continue) (m : Manager)
      → IsCounted system local Asked m
      → IsCounted system local Asked (hand_on (find_continue test m.continues) f m)
  hand_on-IsCounted test f m h = elim (Option-cases (find_continue test m.continues)) [
    | inl nobody ↦ rw nobody h
    | inr ((k, e), found) ↦
        let there = find_continue-lookup test 0 k e m.continues h.0.0 found in
        rw found
          (store-IsCounted k (with_continuation e (f e.continuation)) e m there.1 refl (λ a. a) h)
  ]

  pub on_time_out-IsCounted :
      (answers : Answers) (info : DschedContinueInfo) (m : Manager)
      → IsCounted system local Asked m
      → IsCounted system local Asked (on_time_out system answers info m)
  unfolding on_time_out
  on_time_out-IsCounted answers info m h =
      elim (Option-cases (lookup (key system info) m.continues)) [
        | inl absent ↦ rw (absent, on_time_out) h
        | inr (e, there) ↦
            let c = end_with answers continue_ability_timeout_err e.continuation in
            rw (there, on_time_out)
              (store-IsCounted (key system info) (with_continuation e c) e m there refl (λ a. a) h)
      ]

  by_want-cases :
      (dst bundle : ℕ) (m : Manager)
      → (get_dsched_continue_by_want system dst bundle m ≡ none)
        ⊎ ((test : Entry → Bool) × (get_dsched_continue_by_want system dst bundle m
              ≡ find_continue test m.continues))
  unfolding get_dsched_continue_by_want
  by_want-cases dst bundle m = elim (Option-cases system.local_device_id) [
    | inl unknown ↦ inl (rw (unknown, get_dsched_continue_by_want) refl)
    | inr (l, known) ↦ inr (
      λ e.
          (l == e.continue_info.source_device_id)
          && (bundle == e.continue_info.source_bundle_name)
          && (dst == e.continue_info.sink_device_id),
      rw (known, get_dsched_continue_by_want) refl,
    )
  ]

  pub handle_start_continuation-IsCounted :
      (answers : Answers) (dst bundle : ℕ) (status : Code) (m : Manager)
      → IsCounted system local Asked m
      → IsCounted system local Asked (handle_start_continuation system answers dst bundle status m)
  unfolding handle_start_continuation
  handle_start_continuation-IsCounted answers dst bundle status m h =
      elim (by_want-cases dst bundle m) [
        | inl nobody ↦ rw nobody h
        | inr (test, found) ↦ rw found (hand_on-IsCounted test _ m h)
      ]

  pub handle_notify_complete_continuation-IsCounted :
      (answers : Answers) (device mission : ℕ) (is_success : Bool) (caller : ℕ) (m : Manager)
      → IsCounted system local Asked m
      → IsCounted system local Asked
          (handle_notify_complete_continuation answers device mission is_success caller m)
  unfolding handle_notify_complete_continuation
  handle_notify_complete_continuation-IsCounted answers device mission is_success caller m h =
      let test : Entry → Bool = λ e. device == e.continue_info.source_device_id in
      elim (Option-cases (find_continue test m.continues)) [
        | inl nobody ↦ rw (nobody, handle_notify_complete_continuation) h
        | inr ((k, e), found) ↦
            let there = find_continue-lookup test 0 k e m.continues h.0.0 found in
            rw (found, handle_notify_complete_continuation)
              (if_cases (λ m'. IsCounted system local Asked m')
                (e.continue_info.sink_bundle_name == caller) _ _
                (λ same. store-IsCounted k _ e m there.1 refl (λ a. a) h) (λ other. h))
      ]

  pub notify_terminate_continuation-IsCounted :
      (answers : Answers) (mission : ℕ) (m : Manager)
      → IsCounted system local Asked m
      → IsCounted system local Asked (notify_terminate_continuation system answers mission m)
  unfolding notify_terminate_continuation
  notify_terminate_continuation-IsCounted answers mission m h =
      elim (Option-cases (system.get_mission_status mission)) [
        | inl unknown ↦ rw (unknown, notify_terminate_continuation) h
        | inr (status, known) ↦
            rw (known, notify_terminate_continuation)
              (if_cases (λ m'. IsCounted system local Asked m')
                (not status.flag_continuation && not status.flag_prepare_continuation) m
                (hand_on (find_continue (is_launched status) m.continues)
                  (end_with answers continue_sink_ability_terminated) m)
                (λ never. h)
                (λ launched.
                  hand_on-IsCounted (is_launched status)
                    (end_with answers continue_sink_ability_terminated) m h))
      ]

  discount_known :
      (info : DschedContinueInfo) (m : Manager)
      → system.local_device_id ≡ some local
      → discount system info m ≡ (
          if info.sink_device_id == local
          then record m { cnt_sink = decrement m.cnt_sink }
          else if info.source_device_id == local
          then record m { cnt_source = decrement m.cnt_source }
          else m)
  unfolding discount
  discount_known info m known = rw (known, discount) refl

  discount-IsCounted :
      (info : DschedContinueInfo) (e : Entry) (timers : List (ℕ × DschedContinueInfo)) (m : Manager)
      → system.local_device_id ≡ some local
      → lookup (key system info) m.continues ≡ some e
      → IsAsked Asked info
      → IsCounted system local Asked m
      → IsCounted system local Asked (
          discount system info
            (record m { timers = timers; continues = erase (key system info) m.continues }))
  discount-IsCounted info e timers m known there asked h =
      rw
        (discount_known info
          (record m { timers = timers; continues = erase (key system info) m.continues }) known)
        (if_cases (λ m'. IsCounted system local Asked m') (info.sink_device_id == local) _ _
          (λ role. (
            leaves_as_sink system local Asked apart info e m.continues m.cnt_sink m.cnt_source asked
                h.0 there role,
            h.1,
          ))
          (λ no_sink.
            if_cases (λ m'. IsCounted system local Asked m') (info.source_device_id == local) _ _
              (λ role. (
                leaves_as_source system local Asked apart info e m.continues m.cnt_sink m.cnt_source
                    asked h.0 there (ground (arith, no_sink, role)),
                h.1,
              ))
              (λ no_source. (
                leaves_uncounted system local Asked apart info e m.continues m.cnt_sink m.cnt_source
                    asked h.0 there no_sink (ground (arith, no_sink, no_source)),
                h.1,
              ))))

  -- The end of a continuation, or of none, takes it out of the count.
  pub handle_continue_end-IsCounted :
      (info : DschedContinueInfo) (m : Manager)
      → system.local_device_id ≡ some local
      → IsAsked Asked info
      → IsCounted system local Asked m
      → IsCounted system local Asked (handle_continue_end system info m)
  unfolding handle_continue_end
  handle_continue_end-IsCounted info m known asked h =
      elim (Option-cases (lookup (key system info) m.continues)) [
        | inl absent ↦ rw (absent, handle_continue_end) h
        | inr (e, there) ↦
            rw (there, handle_continue_end)
              (if_cases
                (λ m'. IsCounted system local Asked (
                  discount system info
                    (record m' { continues = erase (key system info) m'.continues })))
                m.has_handler _ _
                (λ here.
                  discount-IsCounted info e (remove_task (system.task_name info) m.timers) m known
                    there asked h)
                (λ gone. discount-IsCounted info e m.timers m known there asked h))
      ]
