-- ===== src/Continue/Order.antt =====
-- The states of a continuation are those of its side, and come in order.
use dmsfwk.Prelude.{ℕ, Bool, ◌≤◌, ◌≡◌, refl, Option, none, some, arith}
use dmsfwk.Continue.{
  StateType, source_start_state, ability_state, source_wait_end_state, source_end_state,
  sink_start_state, data_state, sink_wait_end_state, sink_end_state, Direction, source, sink, Code,
  Event, Continue, Answers, req_pull_event, req_push_event, ability_event, data_event,
  send_data_event, complete_event, end_event,
}
use dmsfwk.Continue.Execute.{
  execute_continue_req, execute_continue_ability, execute_continue_reply, execute_continue_send,
  execute_continue_data, execute_notify_complete, execute_continue_end, execute_continue_error,
  execute_start, window_failed,
}
use dmsfwk.Continue.States.{
  source_start, ability, wait_end, end, sink_start, data_received, execute_state, execute,
  process_event,
}

abbrev pub side : StateType → Direction
side source_start_state = source
side ability_state = source
side source_wait_end_state = source
side source_end_state = source
side _ = sink

abbrev pub rank : StateType → ℕ
rank source_start_state = 0
rank ability_state = 1
rank source_wait_end_state = 2
rank source_end_state = 3
rank sink_start_state = 0
rank data_state = 1
rank sink_wait_end_state = 2
rank sink_end_state = 3

-- On the side `d`, and no earlier than in the state `s`.
abbrev pub After : Direction → StateType → Option StateType → Type 0
After d s none = ⊥
After d s (some s') = (side s' ≡ d) × (rank s ≤ rank s')

abbrev pub Follows : Direction → StateType → Continue → Type 0
Follows d s c = (c.direction ≡ d) × After d s c.state

module _ (answers : Answers) (c : Continue) (s : StateType) where
  module _ (at : c.state ≡ some s) (m : side s ≡ c.direction) where
    stays : Follows c.direction s c
    stays = (refl, rw at (m, omega arith))

    req-Follows : rank s ≡ 0 → Follows c.direction s (execute_continue_req answers c).0
    unfolding execute_continue_req
    req-Follows h = ground (arith, stays)

    error-Follows :
        (result : Code) → Follows c.direction s (execute_continue_error answers result c).0
    unfolding execute_continue_error
    error-Follows result = ground (arith, stays)

    ability-Follows :
        s ≡ source_start_state → Follows c.direction s (execute_continue_ability answers c).0
    unfolding execute_continue_ability
    ability-Follows h = ground (arith, stays)

    reply-Follows :
        s ≡ sink_start_state → Follows c.direction s (execute_continue_reply answers c).0
    unfolding execute_continue_reply
    reply-Follows h = ground (arith, stays)

    send-Follows :
        (has_data : Bool)
        → s ≡ ability_state
        → Follows c.direction s (execute_continue_send answers has_data c).0
    unfolding execute_continue_send
    send-Follows has_data h = ground (arith, stays)

    start-Follows : s ≡ data_state → Follows c.direction s (execute_start answers c).0
    unfolding execute_start
    start-Follows h = ground (arith, stays)

    window-Follows : Follows c.direction s (window_failed answers c).0
    window-Follows = ground (arith, stays)

    complete-Follows :
        (result : Code)
        → rank s ≡ 2
        → Follows c.direction s (execute_notify_complete answers result c).0
    unfolding execute_notify_complete
    complete-Follows result h = ground (arith, stays)

module _ (answers : Answers) (c : Continue) (s : StateType) (at : c.state ≡ some s)
    (m : side s ≡ c.direction) where
  data-Follows :
      (has_cmd : Bool)
      → s ≡ data_state
      → Follows c.direction s (execute_continue_data answers has_cmd c).0
  unfolding execute_continue_data
  data-Follows has_cmd h =
      let known = record c { sink_mission_id = answers.get_persistent_id_again.1 } in
      let window = window-Follows answers c s at m in
      let start = start-Follows answers c s at m h in
      let start' = start-Follows answers known s at m h in
      let same = stays answers c s at m in ground arith

module _ (answers : Answers) (c : Continue) where
  source_start-Follows :
      (e : Event)
      → c.state ≡ some source_start_state
      → source ≡ c.direction
      → Follows c.direction source_start_state (source_start answers e c).0
  unfolding source_start execute_continue_end
  source_start-Follows req_push_event at m = req-Follows answers c source_start_state at m refl
  source_start-Follows ability_event at m = ability-Follows answers c source_start_state at m refl
  source_start-Follows (end_event r) at m = error-Follows answers c source_start_state at m r
  source_start-Follows _ at m = stays answers c source_start_state at m

  ability_state-Follows :
      (e : Event)
      → c.state ≡ some ability_state
      → source ≡ c.direction
      → Follows c.direction ability_state (ability answers e c).0
  unfolding ability execute_continue_end
  ability_state-Follows (send_data_event b) at m = send-Follows answers c ability_state at m b refl
  ability_state-Follows (end_event r) at m = error-Follows answers c ability_state at m r
  ability_state-Follows _ at m = stays answers c ability_state at m

  wait_end-Follows :
      (s : StateType) (e : Event)
      → c.state ≡ some s
      → side s ≡ c.direction
      → rank s ≡ 2
      → Follows c.direction s (wait_end answers e c).0
  unfolding wait_end
  wait_end-Follows s (complete_event r) at m h = complete-Follows answers c s at m r h
  wait_end-Follows s (end_event r) at m h = error-Follows answers c s at m r
  wait_end-Follows s _ at m h = stays answers c s at m

  end-Follows :
      (s : StateType) (e : Event)
      → c.state ≡ some s
      → side s ≡ c.direction
      → Follows c.direction s (end answers e c).0
  unfolding end execute_continue_end
  end-Follows s (end_event r) at m = stays answers c s at m
  end-Follows s _ at m = stays answers c s at m

  sink_start-Follows :
      (e : Event)
      → c.state ≡ some sink_start_state
      → sink ≡ c.direction
      → Follows c.direction sink_start_state (sink_start answers e c).0
  unfolding sink_start execute_continue_end
  sink_start-Follows req_pull_event at m = req-Follows answers c sink_start_state at m refl
  sink_start-Follows ability_event at m = reply-Follows answers c sink_start_state at m refl
  sink_start-Follows (end_event r) at m = error-Follows answers c sink_start_state at m r
  sink_start-Follows _ at m = stays answers c sink_start_state at m

  data_received-Follows :
      (e : Event)
      → c.state ≡ some data_state
      → sink ≡ c.direction
      → Follows c.direction data_state (data_received answers e c).0
  unfolding data_received execute_continue_end
  data_received-Follows (data_event b) at m = data-Follows answers c data_state at m b refl
  data_received-Follows (end_event r) at m = error-Follows answers c data_state at m r
  data_received-Follows _ at m = stays answers c data_state at m

  execute_state-Follows :
      (s : StateType) (e : Event)
      → c.state ≡ some s
      → side s ≡ c.direction
      → Follows c.direction s (execute_state s answers e c).0
  unfolding execute_state
  execute_state-Follows source_start_state e at m = source_start-Follows e at m
  execute_state-Follows ability_state e at m = ability_state-Follows e at m
  execute_state-Follows source_wait_end_state e at m =
      wait_end-Follows source_wait_end_state e at m refl
  execute_state-Follows source_end_state e at m = end-Follows source_end_state e at m
  execute_state-Follows sink_start_state e at m = sink_start-Follows e at m
  execute_state-Follows data_state e at m = data_received-Follows e at m
  execute_state-Follows sink_wait_end_state e at m =
      wait_end-Follows sink_wait_end_state e at m refl
  execute_state-Follows sink_end_state e at m = end-Follows sink_end_state e at m

  -- A continuation in a state of its own side stays on that side whatever event it processes and
  -- whatever the calls answer, and never goes back: its state comes no earlier in the order start,
  -- ability or data, wait for the end, end.
  pub process_event-Follows :
      (s : StateType) (e : Event)
      → c.state ≡ some s
      → side s ≡ c.direction
      → Follows c.direction s (process_event answers e c).0
  unfolding process_event execute
  process_event-Follows s e at m = ground (arith, execute_state-Follows s e at m)
