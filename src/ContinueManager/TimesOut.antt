-- ===== src/ContinueManager/TimesOut.antt =====
-- What a timer does to its continuation.
use mathlib.Core.Path.{subst}
use dmsfwk.Prelude.{
  ℕ, ◌<◌, ◌≡◌, refl, sym, ap, ◌∙◌, true, none, some, List, [], ◌∷◌, ◌++◌, lookup, insert, Ascending,
  insert-Ascending, lookup-insert_self, lookup-erase_self, if_cases, arith,
}
use dmsfwk.Continue.{
  StateType, Code, continue_ability_timeout_err, end_event, Continue, Answers, Effect,
  notify_result, continue_end,
}
use dmsfwk.Continue.Execute.{execute_continue_end, has_connected, cleaning}
use dmsfwk.Continue.States.{process_event, run_next}
use dmsfwk.Continue.Order.{rank}
use dmsfwk.Continue.Ending.{Posted, run_next-process_event}
use dmsfwk.ContinueManager.{DschedContinueInfo, Entry, System, Manager, end_task, key}
use dmsfwk.ContinueManager.Routing.{
  with_continuation, store, end_with, on_time_out, discount, handle_continue_end, on_continue_end,
}
use dmsfwk.ContinueManager.Threads.{any_effect, is_end, with_effects, run_continue}

any_effect-is_end :
    (xs : List Effect) (r : Code)
    → any_effect is_end (xs ++ notify_result r ∷ continue_end ∷ []) ≡ true
unfolding any_effect
any_effect-is_end [] r = refl
any_effect-is_end (e ∷ xs) r = ground (arith, any_effect-is_end xs r)

execute_continue_end-ends :
    (r : Code) (c : Continue) → any_effect is_end (execute_continue_end r c).2 ≡ true
unfolding any_effect execute_continue_end
execute_continue_end-ends r c =
    if_cases
      (λ xs.
        any_effect is_end
          (xs ++ (cleaning r c.direction c.is_source_exit ++ notify_result r ∷ continue_end ∷ []))
        ≡ true)
      (has_connected c.direction c.sub_service) _ _
      (λ connected. any_effect-is_end (cleaning r c.direction c.is_source_exit) r)
      (λ other. any_effect-is_end (cleaning r c.direction c.is_source_exit) r)

-- The thread of a continuation changes its entry only.
run_continue-continues :
    (answers : Answers) (session ability k : ℕ) (m : Manager) (e : Entry)
    → lookup k m.continues ≡ some e
    → (run_continue answers session ability k m).continues
      ≡ insert k (with_effects session ability e (run_next answers e.continuation)) m.continues
unfolding run_continue
run_continue-continues answers session ability k m e there =
    let entry = with_effects session ability e (run_next answers e.continuation) in
    rw (there, run_continue)
      (if_cases (λ m'. m'.continues ≡ insert k entry m.continues)
        (any_effect is_end (run_next answers e.continuation).1)
        (on_continue_end entry.continue_info (store k entry m)).0 (store k entry m)
        (λ ends.
          if_cases {A = Manager × Code} (λ x. x.0.continues ≡ insert k entry m.continues)
            m.has_handler _ _ (λ here. refl) (λ gone. refl))
        (λ goes_on. refl))

run_continue-has_handler :
    (answers : Answers) (session ability k : ℕ) (m : Manager)
    → (run_continue answers session ability k m).has_handler ≡ m.has_handler
unfolding run_continue
run_continue-has_handler answers session ability k m = ground arith

-- A continuation that ends posts its end.
run_continue-tasks :
    (answers : Answers) (session ability k : ℕ) (m : Manager) (e : Entry)
    → lookup k m.continues ≡ some e
    → m.has_handler ≡ true
    → any_effect is_end (run_next answers e.continuation).1 ≡ true
    → (run_continue answers session ability k m).tasks
      ≡ m.tasks
        ++ end_task (with_effects session ability e (run_next answers e.continuation)).continue_info
          ∷ []
unfolding run_continue
run_continue-tasks answers session ability k m e there handler ends =
    rw (there, ends, handler, run_continue) refl

-- The end of a continuation takes it out of the table.
handle_continue_end-erased :
    (system : System) (info : DschedContinueInfo) (m : Manager)
    → Ascending 0 m.continues
    → lookup (key system info) (handle_continue_end system info m).continues ≡ none
unfolding handle_continue_end discount
handle_continue_end-erased system info m h =
    ground (arith, lookup-erase_self 0 (key system info) m.continues)

run_next-end_with :
    (answers : Answers) (r : Code) (c : Continue)
    → c.has_handler ≡ true
    → answers.send_event ≡ true
    → c.queue ≡ []
    → run_next answers (end_with answers r c) ≡ process_event answers (end_event r) c
unfolding run_next
run_next-end_with answers r c runs sends idle =
    let posted : end_with answers r c ≡ record c { queue = c.queue ++ end_event r ∷ [] } =
      rw (runs, sends) refl in
    let only : record c { queue = c.queue ++ end_event r ∷ [] }
        ≡ record c { queue = end_event r ∷ [] } =
      ap (λ q. record c { queue = q ++ end_event r ∷ [] }) idle in
    let same : record c { queue = [] } ≡ c = ap (λ q. record c { queue = q }) (sym idle) in
    ap (run_next answers) (posted ∙ only) ∙ ap (process_event answers (end_event r)) same

-- Where a continuation of the table that has nothing to do, and is in a state before its end, gets its time
-- out, and its thread then takes two events, of which the first can be sent again, the second posts the
-- end of it to the manager, and the manager takes it out of the table when it runs that task.
pub handle_continue_end-on_time_out :
    (system : System) (answers later : Answers) (info : DschedContinueInfo) (session ability : ℕ)
    (m : Manager) (e : Entry) (s : StateType)
    → Ascending 0 m.continues
    → lookup (key system info) m.continues ≡ some e
    → key system e.continue_info ≡ key system info
    → m.has_handler ≡ true
    → e.continuation.has_handler ≡ true
    → answers.send_event ≡ true
    → e.continuation.queue ≡ []
    → e.continuation.state ≡ some s
    → rank s < 3
    → (m' : Manager) × (e' : Entry) × (m'
        ≡ run_continue answers session ability
            (key system info)
            (on_time_out system answers info m))
      × ((run_continue later session ability (key system info) m').tasks
          ≡ m'.tasks ++ end_task e'.continue_info ∷ [])
      × (lookup
            (key system info)
            (handle_continue_end system e'.continue_info
              (run_continue later session ability (key system info) m')).continues
          ≡ none)
unfolding on_time_out Posted
handle_continue_end-on_time_out system answers later info session ability m e s order there own
      handler runs sends idle at early =
    let k = key system info in
    let r = continue_ability_timeout_err in
    let c = e.continuation in
    let e1 = with_continuation e (end_with answers r c) in
    let m1 = on_time_out system answers info m in
    let table1 : m1.continues ≡ insert k e1 m.continues = rw (there, on_time_out) refl in
    let there1 : lookup k m1.continues ≡ some e1 =
      ap (lookup k) table1 ∙ lookup-insert_self k e1 m.continues in
    let e2 = with_effects session ability e1 (run_next answers e1.continuation) in
    let m2 = run_continue answers session ability k m1 in
    let table2 = run_continue-continues answers session ability k m1 e1 there1 in
    let there2 : lookup k m2.continues ≡ some e2 =
      ap (lookup k) table2 ∙ lookup-insert_self k e2 m1.continues in
    let posted : Posted later r c e2.continuation =
      subst (λ x. Posted later r c x.0) (sym (run_next-end_with answers r c runs sends idle))
        (run_next-process_event answers later r c s runs sends idle at early) in
    let e3 = with_effects session ability e2 (run_next later e2.continuation) in
    let handler2 : m2.has_handler ≡ true =
      run_continue-has_handler answers session ability k m1 ∙ (rw (there, on_time_out) handler) in
    let ends : any_effect is_end (run_next later e2.continuation).1 ≡ true =
      ap (any_effect is_end) posted.2 ∙ execute_continue_end-ends r c in
    let m3 = run_continue later session ability k m2 in
    let order1 : Ascending 0 m1.continues =
      rw table1 (insert-Ascending 0 k e1 m.continues (omega arith) order) in
    let order2 : Ascending 0 m2.continues =
      rw table2 (insert-Ascending 0 k e2 m1.continues (omega arith) order1) in
    let order3 : Ascending 0 m3.continues =
      rw (run_continue-continues later session ability k m2 e2 there2)
        (insert-Ascending 0 k e3 m2.continues (omega arith) order2) in
    (
      m2,
      e3,
      refl,
      run_continue-tasks later session ability k m2 e2 there2 handler2 ends,
      subst (λ n. lookup n (handle_continue_end system e3.continue_info m3).continues ≡ none) own
          (handle_continue_end-erased system e3.continue_info m3 order3),
    )
