-- ===== src/Continue/Runs.antt =====
-- Any run of a continuation: events posted by the other parts and events taken from the queue, in any
-- order.
use mathlib.Core.Path.{subst}
use dmsfwk.Prelude.{◌≤◌, ◌≡◌, refl, sym, ◌∙◌, Option, none, some, List, [], ◌∷◌, arith}
use dmsfwk.Continue.{StateType, Direction, Continue, Event, Answers, post}
use dmsfwk.Continue.States.{take_event, run_next}
use dmsfwk.Continue.Order.{side, rank, After, Follows, process_event-Follows}

pub data Step : Type 0 where
  posts : Answers → Event → Step
  runs : Answers → Step

abbrev pub after_step : Step → Continue → Continue
after_step (posts answers e) c = (post answers e c).0
after_step (runs answers) c = (run_next answers c).0

unfoldable pub run : List Step → Continue → Continue
run [] c = c
run (x ∷ xs) c = run xs (after_step x c)

take_event-Follows :
    (es : List Event) (answers : Answers) (c : Continue) (s : StateType)
    → c.state ≡ some s
    → side s ≡ c.direction
    → Follows c.direction s (take_event es answers c).0
take_event-Follows [] answers c s at m = (refl, rw at (m, omega arith))
take_event-Follows (e ∷ es) answers c s at m =
    process_event-Follows answers (record c { queue = es }) s e at m

after_step-Follows :
    (x : Step) (c : Continue) (s : StateType)
    → c.state ≡ some s
    → side s ≡ c.direction
    → Follows c.direction s (after_step x c)
unfolding run_next
after_step-Follows (posts answers e) c s at m =
    let same = take_event-Follows [] answers c s at m in ground arith
after_step-Follows (runs answers) c s at m = take_event-Follows c.queue answers c s at m

After-state :
    (d : Direction) (s : StateType) (o : Option StateType)
    → After d s o
    → (s' : StateType) × (o ≡ some s') × (side s' ≡ d) × (rank s ≤ rank s')
After-state d s none h = absurd h
After-state d s (some s') h = (s', refl, h.0, h.1)

After-trans :
    (d : Direction) (s s' : StateType) (o : Option StateType)
    → rank s ≤ rank s'
    → After d s' o
    → After d s o
After-trans d s s' none a h = h
After-trans d s s' (some s'') a h = (h.0, omega arith)

-- Whatever is posted and whatever the calls answer, a continuation that is in a state of its own side
-- stays on that side in every run, and never goes back in the order start, ability or data, wait for
-- the end, end.
pub run-Follows :
    (xs : List Step) (c : Continue) (s : StateType)
    → c.state ≡ some s
    → side s ≡ c.direction
    → Follows c.direction s (run xs c)
unfolding run
run-Follows [] c s at m = (refl, rw at (m, omega arith))
run-Follows (x ∷ xs) c s at m =
    let (same, after) = after_step-Follows x c s at m in
    let (s', at', m', later) = After-state c.direction s (after_step x c).state after in
    let (direction, rest) = run-Follows xs (after_step x c) s' at' (m' ∙ sym same) in
    (
      direction ∙ same,
      After-trans c.direction s s' (run xs (after_step x c)).state later
          (subst (λ d. After d s' (run xs (after_step x c)).state) same rest),
    )
