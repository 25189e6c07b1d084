-- ===== src/ContinueManager/Uncounted.antt =====
-- A continuation that another device starts is in the table, and is never counted.
use mathlib.Core.Path.{subst}
use dmsfwk.Prelude.{
  ℕ, ◌≡◌, sym, refl, ap, ◌∙◌, true, false, none, some, List, lookup, insert, erase, erase-insert,
  lookup-insert_self, ==_self, if_cases, arith,
}
use dmsfwk.Continue.{err_ok, Answers}
use dmsfwk.ContinueManager.{
  Entry, StartCmd, System, Manager, key, at_least_one, decrement, check_local_limit,
  check_continuation_limit,
}
use dmsfwk.ContinueManager.Routing.{
  received_info, received_continue, emplace, accept_start, discount, handle_continue_end,
  remove_task,
}

received_info-sink :
    (system : System) (cmd : StartCmd)
    → (received_info system cmd).sink_device_id ≡ cmd.dst_device_id
unfolding received_info
received_info-sink system cmd = ground arith

emplace_absent :
    (k : ℕ) (e : Entry) (continues : List (ℕ × Entry))
    → lookup k continues ≡ none
    → emplace k e continues ≡ insert k e continues
emplace_absent k e continues absent = rw (absent, emplace) refl

module _ (system : System) (answers : Answers) (session : ℕ) (cmd : StartCmd) (m : Manager)
    (known : system.local_device_id ≡ some cmd.dst_device_id) where
  passes :
      at_least_one m.cnt_sink ≡ false
      → system.has_device_info cmd.src_device_id ≡ true
      → (check_continuation_limit system cmd.src_device_id cmd.dst_device_id m).0 ≡ err_ok
  unfolding check_continuation_limit check_local_limit
  passes room there = rw (known, ==_self cmd.dst_device_id, room, there) refl

  accept_start-enters :
      at_least_one m.cnt_sink ≡ false
      → system.has_device_info cmd.src_device_id ≡ true
      → lookup (key system (received_info system cmd)) m.continues ≡ none
      → accept_start system answers session cmd m ≡ record m {
        continues =
            insert
              (key system (received_info system cmd))
              (received_continue system answers session cmd)
              m.continues;
      }
  unfolding accept_start
  accept_start-enters room there absent =
      rw (passes room there, accept_start)
        (ap (λ xs. record m { continues = xs })
          (emplace_absent (key system (received_info system cmd))
            (received_continue system answers session cmd) m.continues absent))

  discount-received :
      (m' : Manager)
      → discount system (received_info system cmd) m'
        ≡ record m' { cnt_sink = decrement m'.cnt_sink }
  unfolding discount
  discount-received m' =
      rw (known, received_info-sink system cmd, ==_self cmd.dst_device_id, discount) refl

-- Where the count of the sinks has room and no continuation has the key, a continuation that another, known
-- device starts with this one as the sink leaves at its end the table as it was, but the count one lower.
pub handle_continue_end-accept_start :
    (system : System) (answers : Answers) (session : ℕ) (cmd : StartCmd) (m : Manager)
    → system.local_device_id ≡ some cmd.dst_device_id
    → at_least_one m.cnt_sink ≡ false
    → system.has_device_info cmd.src_device_id ≡ true
    → lookup (key system (received_info system cmd)) m.continues ≡ none
    → ((handle_continue_end system
          (received_info system cmd)
          (accept_start system answers session cmd m)).continues
        ≡ m.continues)
      × ((handle_continue_end system
            (received_info system cmd)
            (accept_start system answers session cmd m)).cnt_sink
          ≡ decrement m.cnt_sink)
unfolding handle_continue_end
handle_continue_end-accept_start system answers session cmd m known room there absent =
    let k = key system (received_info system cmd) in
    let e = received_continue system answers session cmd in
    let entered : Manager = record m { continues = insert k e m.continues } in
    let accepted = accept_start-enters system answers session cmd m known room there absent in
    let discounted = discount-received system answers session cmd m known in
    let IsBack : Manager → Type 0 =
      λ m'. (m'.continues ≡ m.continues) × (m'.cnt_sink ≡ decrement m.cnt_sink) in
    let ends : (m' : Manager)
        → m'.continues ≡ entered.continues
        → m'.cnt_sink ≡ m.cnt_sink
        → IsBack (
            discount system (received_info system cmd)
              (record m' { continues = erase k m'.continues })) =
      λ m' table sinks.
        rw (discounted (record m' { continues = erase k m'.continues }))
          (ap (erase k) table ∙ erase-insert k e m.continues absent, ap decrement sinks) in
    let ended : IsBack (handle_continue_end system (received_info system cmd) entered) =
      rw (lookup-insert_self k e m.continues, handle_continue_end)
        (if_cases
          (λ m'. IsBack (
            discount system (received_info system cmd)
              (record m' { continues = erase k m'.continues })))
          m.has_handler _ _
          (λ here.
            ends
              (record entered {
                timers = remove_task (system.task_name (received_info system cmd)) m.timers;
              })
              refl refl)
          (λ gone. ends entered refl refl)) in
    subst (λ x. IsBack (handle_continue_end system (received_info system cmd) x)) (sym accepted)
      ended
