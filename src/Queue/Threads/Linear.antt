-- ===== src/Queue/Threads/Linear.antt =====
-- The queue under any interleaving of its threads: a FIFO list of values.
use mathlib.Core.List.{append_assoc, append-nil}
use duke_operatingsystems.Queue.Threads.Turns.{Effect}
use duke_operatingsystems.Queue.Threads.Calls.{enqueue-Does, dequeue-Does}
use mathlib.Core.Path.{subst}
use duke_operatingsystems.Queue.Threads.Raised.{Raised}
use duke_operatingsystems.Queue.Threads.Counters.{
  StepCounts, step_counts, run_counts, head_swaps, loosely, loosened, any_turns, any_enqueues,
  any_dequeues,
}
use duke_operatingsystems.Queue.Ops.{Queue, initialize}
use duke_operatingsystems.Queue.Threads.Ghost.{Ghost, contents}
use duke_operatingsystems.Queue.Threads.{
  initialized, World, QueueStep, QueueReaches, then_step, turns, begin, enqueues, dequeues,
  thread_of, Local, linked_values, linked_by, taken_values, taken_by, e_link, e_swing, d_swing,
  d_free, d_tail, d_next,
}
use duke_operatingsystems.Common.{
  List, [], ap, arith, false, if_self, refl, sym, true, ℕ, ◌++◌, ◌∙◌, ◌∷◌, ◌≡◌, ◌≢◌,
}
use duke_operatingsystems.Queue.Threads.Worlds.{IsWorld, Does, turned-Does}

pub QueueStep-Does :
    (w w' : World) (g : Ghost)
    → IsWorld w g
    → (s : QueueStep w w') → Does w w' g (thread_of s) × StepCounts (loosely s)
QueueStep-Does w w' g k (turns t e) =
    (subst (λ x. Does w x g t) (sym e) (turned-Does w g k t), step_counts w w' (any_turns t e))
QueueStep-Does w w' g k (enqueues t node v out nonnull fresh e) = (
  subst (λ x. Does w x g t) (sym e) (enqueue-Does w g k t node v out nonnull fresh),
  step_counts w w' (any_enqueues t node v out e),
)
QueueStep-Does w w' g k (dequeues t out e) = (
  subst (λ x. Does w x g t) (sym e) (dequeue-Does w g k t out),
  step_counts w w' (any_dequeues t out e),
)

abbrev pub only : ℕ → Ghost
only node = record { at = λ i. node; last = 0; head = 0; tail = 0 }

pub initialized-IsWorld :
    (node : ℕ) (q : Queue) → node ≢ 0 → IsWorld (initialized node q) (only node)
unfolding initialized initialize
initialized-IsWorld node q ne = record {
  shared = record {
    head_at = refl;
    tail_at = refl;
    head-tail = omega arith;
    tail-last = omega arith;
    apart = λ i j a b _. omega (arith, a, b);
    nonnull = λ i _. ne;
    known = λ i _. if_self node true false;
    linked = λ i lt. absurd (omega (arith, lt));
    ended = ap (λ x. x.pointer) (if_self node _ (q.next node));
  };
  knows = λ t. tt;
  own = λ t h. absurd (ground (arith, h));
  distinct = λ t u a b e. absurd (ground (arith, a));
}

-- What a step links and takes, by its effect.
module _ (vs vs' before out : List ℕ) (e : before ≡ out ++ vs) where
  stays : vs' ≡ vs → before ++ [] ≡ (out ++ []) ++ vs'
  stays f =
      append-nil before ∙ e ∙ ap (λ l. out ++ l) (sym f) ∙ ap (λ l. l ++ vs') (sym (append-nil out))

  step_law :
      (p p' : Local) → Effect p p' vs vs' → before ++ linked_by p p' ≡ (out ++ taken_by p p') ++ vs'
  step_law (e_link node v tail next) (e_swing n w t) (x, f) =
      ap (λ l. l ++ (v ∷ [])) e
      ∙ append_assoc out vs (v ∷ [])
      ∙ ap (λ l. out ++ l) (sym f)
      ∙ ap (λ l. l ++ vs') (sym (append-nil out))
  step_law (e_link node v tail next) p' f = stays f
  step_law (d_swing head next v) (d_free h w) f =
      append-nil before ∙ e ∙ ap (λ l. out ++ l) f ∙ sym (append_assoc out (w ∷ []) vs')
  step_law (d_swing head next v) p' f = stays f
  step_law (d_tail head tail) (d_next h t n) (f, _) = stays f
  step_law (d_tail head tail) p' f = stays f
  step_law p p' f = stays f

pub QueueReaches-fifo :
    (node : ℕ) (q : Queue) (w : World)
    → node ≢ 0
    → (r : QueueReaches (initialized node q) w)
    → (g : Ghost) × IsWorld w g
      × (linked_values r ≡ taken_values r ++ contents w.queue g)
      × Raised (head_swaps (loosened r)) 0 w.queue.head.counter
unfolding initialized initialize
QueueReaches-fifo node q w ne begin = (only node, initialized-IsWorld node q ne, refl, refl)
QueueReaches-fifo node q w ne (then_step w' w'' r step) =
    let (g, k, e, _) = QueueReaches-fifo node q w' ne r in
    let (d, _) = QueueStep-Does w' w g k step in
    (
      d.ghost,
      d.world,
      step_law (contents w'.queue g) (contents w.queue d.ghost) (linked_values r) (taken_values r) e
          (w'.pc (thread_of step)) (w.pc (thread_of step)) d.effect,
      (run_counts (initialized node q) w (loosened (then_step w' w r step))).0,
    )
