-- ===== src/Queue/Threads/Counters.antt =====
-- AtomicInstructions/queue.c: what the counters of the shared pointers say when malloc may return any address,
-- also one that was freed.
use mathlib.Core.Path.{subst}
use duke_operatingsystems.Common.{arith, sym, true, ℕ, ◌+◌, ◌≡◌}
use duke_operatingsystems.Queue.Threads.Raised.{
  Raised, Raised-none, Raised-refl, swaps_head, links_behind, turn-head, turn-next, with_node-next,
}
use duke_operatingsystems.Queue.Ops.{with_node}
use duke_operatingsystems.Queue.Threads.{
  World, QueueStep, QueueReaches, turns, enqueues, dequeues, begin, then_step, turn, turned,
  called_enqueue, called_dequeue, is_outside_call,
}

-- A step where malloc may return any address: a node of the queue or a freed one, too. A node keeps the counter
-- that its memory has.
pub data AnyStep (w w' : World) : Type 0 where
  any_turns : (t : ℕ) → w' ≡ turned t w → AnyStep w w'
  any_enqueues :
      (t node v : ℕ)
      → is_outside_call (w.pc t) ≡ true
      → w' ≡ called_enqueue t node v w
      → AnyStep w w'
  any_dequeues : (t : ℕ) → is_outside_call (w.pc t) ≡ true → w' ≡ called_dequeue t w → AnyStep w w'

pub data AnyReaches (w : World) : World → Type 0 where
  any_begin : AnyReaches w w
  any_then : (w' w'' : World) → AnyReaches w w' → AnyStep w' w'' → AnyReaches w w''

-- The same for a step, and for a run.
abbrev pub head_swaps_of : {w w' : World} → AnyStep w w' → ℕ
head_swaps_of {w} (any_turns t e) = swaps_head (w.pc t) (turn (w.pc t) w.queue).0
head_swaps_of (any_enqueues t node v out e) = 0
head_swaps_of (any_dequeues t out e) = 0

abbrev pub links_of : ℕ → {w w' : World} → AnyStep w w' → ℕ
links_of a {w} (any_turns t e) = links_behind a (w.pc t) (turn (w.pc t) w.queue).0
links_of a (any_enqueues t node v out e) = 0
links_of a (any_dequeues t out e) = 0

abbrev pub head_swaps : {w w' : World} → AnyReaches w w' → ℕ
head_swaps any_begin = 0
head_swaps (any_then w' w'' r s) = head_swaps r + head_swaps_of s

abbrev pub links : ℕ → {w w' : World} → AnyReaches w w' → ℕ
links a any_begin = 0
links a (any_then w' w'' r s) = links a r + links_of a s

-- What a step does to the counters, whatever address malloc returns.
abbrev pub StepCounts : {w w' : World} → AnyStep w w' → Type 0
StepCounts {w} {w'} s =
    Raised (head_swaps_of s) w.queue.head.counter w'.queue.head.counter
    × ((a : ℕ) → Raised (links_of a s) (w.queue.next a).counter (w'.queue.next a).counter)

pub step_counts : (w w' : World) (s : AnyStep w w') → StepCounts s
unfolding turned called_enqueue called_dequeue with_node
step_counts w w' (any_turns t e) = (
  subst
      (λ x.
        Raised (swaps_head (w.pc t) (turn (w.pc t) w.queue).0) w.queue.head.counter
          x.queue.head.counter)
      (sym e) (turn-head (w.pc t) w.queue),
  λ a.
      subst
        (λ x.
          Raised (links_behind a (w.pc t) (turn (w.pc t) w.queue).0) (w.queue.next a).counter
            (x.queue.next a).counter)
        (sym e) (turn-next a (w.pc t) w.queue),
)
step_counts w w' (any_enqueues t node v out e) = (
  subst (λ x. Raised 0 w.queue.head.counter x.queue.head.counter) (sym e)
      (Raised-refl w.queue.head.counter),
  λ a.
      subst (λ x. Raised 0 (w.queue.next a).counter (x.queue.next a).counter) (sym e)
        (Raised-none (w.queue.next a).counter ((with_node node v w.queue).next a).counter
          (with_node-next node v w.queue a)),
)
step_counts w w' (any_dequeues t out e) = (
  subst (λ x. Raised 0 w.queue.head.counter x.queue.head.counter) (sym e)
      (Raised-refl w.queue.head.counter),
  λ a.
      subst (λ x. Raised 0 (w.queue.next a).counter (x.queue.next a).counter) (sym e)
        (Raised-refl (w.queue.next a).counter),
)

Raised-add : (m n c c' c2 : ℕ) → Raised m c c' → Raised n c' c2 → Raised (m + n) c c2
Raised-add m n c c' c2 h k = omega (arith, h, k)

pub run_counts :
    (w w' : World) (r : AnyReaches w w')
    → Raised (head_swaps r) w.queue.head.counter w'.queue.head.counter
      × ((a : ℕ) → Raised (links a r) (w.queue.next a).counter (w'.queue.next a).counter)
run_counts w w' any_begin =
    (Raised-refl w.queue.head.counter, λ a. Raised-refl (w.queue.next a).counter)
run_counts w w' (any_then w1 w2 r s) =
    let (head, next) = run_counts w w1 r in
    let (head', next') = step_counts w1 w2 s in
    (
      Raised-add (head_swaps r) (head_swaps_of s) w.queue.head.counter w1.queue.head.counter
          w2.queue.head.counter head head',
      λ a.
          Raised-add (links a r) (links_of a s) (w.queue.next a).counter (w1.queue.next a).counter
            (w2.queue.next a).counter (next a) (next' a),
    )

-- A step, and a run, in which malloc returns fresh addresses alone.
abbrev pub loosely : {w w' : World} → QueueStep w w' → AnyStep w w'
loosely (turns t e) = any_turns t e
loosely (enqueues t node v out nonnull fresh e) = any_enqueues t node v out e
loosely (dequeues t out e) = any_dequeues t out e

abbrev pub loosened : {w w' : World} → QueueReaches w w' → AnyReaches w w'
loosened begin = any_begin
loosened (then_step w' w'' r s) = any_then w' w'' (loosened r) (loosely s)
