-- ===== src/DschedCollab/Runs.antt =====
-- Any run of a collaboration: what the manager and the network post, and the events taken from the queue.
use Prim.Native.String.{String}
use dmsfwk.Prelude.{
  ◌⊎◌, ◌∙◌, ℕ, suc, ◌≡◌, refl, inl, inr, true, false, Option, some, List, [], ◌∷◌, arith,
}
use dmsfwk.DschedCollab.{
  StateType, source_start_state, source_start_event, Code, Event, err_end_event, Collab, Answers,
  post, update_state, post_src_start_task, post_sink_prepare_result_task,
  notify_prepare_result_event, source_get_version_event, start_ability_event, notify_result_event,
  ability_reject_event,
}
use dmsfwk.DschedCollab.Steps.{
  Received, on_data_recv, clean_up_session, source_get_version_recv, sink_start_recv,
  notify_result_recv, disconnect_recv, other_recv,
}
use dmsfwk.DschedCollab.States.{process_event, take_event, run_next}
use dmsfwk.DschedCollab.Order.{Moves, next, process_event-Moves}
use dmsfwk.DschedCollab.Ending.{
  end_within, end_within-append, Keeps, post-Keeps, process_event-Keeps, process_event-ends,
}

-- What another thread does, and what the thread of the queue does.
pub data Step : Type 0 where
  posts : Answers → Event → Step
  prepares : Answers → Code → ℕ → String → Option ℕ → Step
  starts : Answers → Step
  receives : Answers → Received → Step
  runs : Answers → Step

-- The last two of the manager: `NotifySinkPrepareResult`, and `CollabMission` from there on where it
-- has set the information.
abbrev pub after_step : Step → Collab → Collab
after_step (posts answers e) c = (post answers e c).0
after_step (prepares answers result session name client) c =
    (post_sink_prepare_result_task answers result session name client c).0
after_step (starts answers) c = (post_src_start_task answers (update_state source_start_state c)).0
after_step (receives answers received) c = (on_data_recv answers received c).0
after_step (runs answers) c = (run_next answers c).0

unfoldable pub run : List Step → Collab → Collab
run [] c = c
run (x ∷ xs) c = run xs (after_step x c)

-- How many events a run takes from the queue, at most.
abbrev pub runs_in : List Step → ℕ
runs_in [] = 0
runs_in (runs answers ∷ xs) = suc (runs_in xs)
runs_in (x ∷ xs) = runs_in xs

abbrev pub IsIn : Option StateType → Type 0
IsIn o = (s : StateType) × (o ≡ some s)

receives-Keeps :
    (n : ℕ) (answers : Answers) (received : Received) (c : Collab)
    → Keeps n c (on_data_recv answers received c).0
unfolding on_data_recv clean_up_session
receives-Keeps n answers (source_get_version_recv read version) c = ground (
  arith,
  end_within-append n c.queue (err_end_event read),
  end_within-append n c.queue source_get_version_event,
)
receives-Keeps n answers (sink_start_recv read) c = ground (
  arith,
  end_within-append n c.queue (err_end_event read),
  end_within-append n c.queue start_ability_event,
)
receives-Keeps n answers (notify_result_recv read cmd) c = ground (
  arith,
  end_within-append n c.queue (err_end_event read),
  end_within-append n c.queue (notify_result_event cmd.result),
  end_within-append n c.queue (ability_reject_event cmd.ability_reject_reason),
)
receives-Keeps n answers (disconnect_recv read) c = ground arith
receives-Keeps n answers (other_recv read) c = ground arith

receives-state :
    (answers : Answers) (received : Received) (c : Collab)
    → (on_data_recv answers received c).0.state ≡ c.state
unfolding on_data_recv clean_up_session
receives-state answers (source_get_version_recv read version) c = ground arith
receives-state answers (sink_start_recv read) c = ground arith
receives-state answers (notify_result_recv read cmd) c = ground arith
receives-state answers (disconnect_recv read) c = refl
receives-state answers (other_recv read) c = refl

prepares-Keeps :
    (n : ℕ) (answers : Answers) (result : Code) (session : ℕ) (name : String) (client : Option ℕ)
    (c : Collab)
    → Keeps n c (post_sink_prepare_result_task answers result session name client c).0
prepares-Keeps n answers result session name client c =
    ground (arith, end_within-append n c.queue (notify_prepare_result_event result))

starts-Keeps :
    (n : ℕ) (answers : Answers) (c : Collab)
    → Keeps n c (post_src_start_task answers (update_state source_start_state c)).0
starts-Keeps n answers c = ground (arith, end_within-append n c.queue source_start_event)

moved-IsIn : (s : StateType) (o : Option StateType) → Moves s o → IsIn o
moved-IsIn s o (inl e) = (s, e)
moved-IsIn s o (inr e) = (next s, e)

take_event-IsIn :
    (q : List Event) (answers : Answers) (c : Collab)
    → IsIn c.state
    → IsIn (take_event q answers c).0.state
take_event-IsIn [] answers c at = at
take_event-IsIn (e ∷ q) answers c (s, at) =
    moved-IsIn s ((process_event answers e (record c { queue = q })).0.state)
      (process_event-Moves answers e (record c { queue = q }) s at)

post-state : (answers : Answers) (e : Event) (c : Collab) → (post answers e c).0.state ≡ c.state
post-state answers e c = ground arith

prepares-state :
    (answers : Answers) (result : Code) (session : ℕ) (name : String) (client : Option ℕ)
    (c : Collab)
    → (post_sink_prepare_result_task answers result session name client c).0.state ≡ c.state
prepares-state answers result session name client c = ground arith

after_step-IsIn : (x : Step) (c : Collab) → IsIn c.state → IsIn (after_step x c).state
unfolding run_next
after_step-IsIn (posts answers e) c (s, at) = (s, post-state answers e c ∙ at)
after_step-IsIn (prepares answers result session name client) c (s, at) =
    (s, prepares-state answers result session name client c ∙ at)
after_step-IsIn (starts answers) c at =
    (source_start_state, post-state answers source_start_event (update_state source_start_state c))
after_step-IsIn (receives answers received) c (s, at) = (s, receives-state answers received c ∙ at)
after_step-IsIn (runs answers) c at = take_event-IsIn c.queue answers c at

take_event-gone :
    (q : List Event) (answers : Answers) (c : Collab)
    → IsIn c.state
    → c.is_known ≡ false
    → (take_event q answers c).0.is_known ≡ false
take_event-gone [] answers c at gone = gone
take_event-gone (e ∷ q) answers c (s, at) gone =
    (process_event-Keeps 0 answers e (record c { queue = q }) s at).1 gone

after_step-gone :
    (x : Step) (c : Collab) → IsIn c.state → c.is_known ≡ false → (after_step x c).is_known ≡ false
unfolding run_next
after_step-gone (posts answers e) c at gone = (post-Keeps 0 answers e c).1 gone
after_step-gone (prepares answers result session name client) c at gone =
    (prepares-Keeps 0 answers result session name client c).1 gone
after_step-gone (starts answers) c at gone = (starts-Keeps 0 answers c).1 gone
after_step-gone (receives answers received) c at gone = (receives-Keeps 0 answers received c).1 gone
after_step-gone (runs answers) c at gone = take_event-gone c.queue answers c at gone

take_event-token :
    (q : List Event) (answers : Answers) (c : Collab)
    → IsIn c.state
    → (take_event q answers c).0.has_token ≡ c.has_token
take_event-token [] answers c at = refl
take_event-token (e ∷ q) answers c (s, at) =
    (process_event-Keeps 0 answers e (record c { queue = q }) s at).2

after_step-token : (x : Step) (c : Collab) → IsIn c.state → (after_step x c).has_token ≡ c.has_token
unfolding run_next
after_step-token (posts answers e) c at = (post-Keeps 0 answers e c).2
after_step-token (prepares answers result session name client) c at =
    (prepares-Keeps 0 answers result session name client c).2
after_step-token (starts answers) c at = (starts-Keeps 0 answers c).2
after_step-token (receives answers received) c at = (receives-Keeps 0 answers received c).2
after_step-token (runs answers) c at = take_event-token c.queue answers c at

run-gone :
    (xs : List Step) (c : Collab) → IsIn c.state → c.is_known ≡ false → (run xs c).is_known ≡ false
unfolding run
run-gone [] c at gone = gone
run-gone (x ∷ xs) c at gone =
    run-gone xs (after_step x c) (after_step-IsIn x c at) (after_step-gone x c at gone)

-- The first event is the error's, or the error's comes later.
taken :
    (n : ℕ) (q : List Event) (answers : Answers) (c : Collab)
    → IsIn c.state
    → c.has_token ≡ true
    → end_within (suc n) q ≡ true
    → ((take_event q answers c).0.is_known ≡ false)
      ⊎ (end_within n (take_event q answers c).0.queue ≡ true)
unfolding end_within
taken n [] answers c at named h = absurd (ground arith)
taken n (err_end_event r ∷ q) answers c (s, at) named h =
    inl (process_event-ends answers r (record c { queue = q }) s at named)
taken n (e ∷ q) answers c (s, at) named h =
    inr ((process_event-Keeps n answers e (record c { queue = q }) s at).0 (ground arith))

run_step-ends :
    (x : Step) (xs : List Step) (c : Collab)
    → IsIn c.state
    → c.has_token ≡ true
    → end_within (runs_in (x ∷ xs)) c.queue ≡ true
    → ((after_step x c).is_known ≡ false) ⊎ (end_within (runs_in xs) (after_step x c).queue ≡ true)
unfolding run_next
run_step-ends (posts answers e) xs c at named h = inr ((post-Keeps (runs_in xs) answers e c).0 h)
run_step-ends (prepares answers result session name client) xs c at named h =
    inr ((prepares-Keeps (runs_in xs) answers result session name client c).0 h)
run_step-ends (starts answers) xs c at named h = inr ((starts-Keeps (runs_in xs) answers c).0 h)
run_step-ends (receives answers received) xs c at named h =
    inr ((receives-Keeps (runs_in xs) answers received c).0 h)
run_step-ends (runs answers) xs c at named h = taken (runs_in xs) c.queue answers c at named h

-- A collaboration that has a state, a token that is not empty, and the event of an error in its queue is
-- taken out of the manager's table once the thread has come to that event, whatever the calls answer, and whatever the manager,
-- the clients and the other device post or set in between, and it never comes back.
pub run-ends :
    (xs : List Step) (c : Collab) (s : StateType)
    → c.state ≡ some s
    → c.has_token ≡ true
    → end_within (runs_in xs) c.queue ≡ true
    → (run xs c).is_known ≡ false
unfolding run end_within
run-ends [] c s at named h = absurd (ground arith)
run-ends (x ∷ xs) c s at named h =
    let (s', at') = after_step-IsIn x c (s, at) in
    elim (run_step-ends x xs c (s, at) named h) [
      | inl gone ↦ run-gone xs (after_step x c) (s', at') gone
      | inr later ↦ run-ends xs (after_step x c) s' at' (after_step-token x c (s, at) ∙ named) later
    ]
