-- ===== src/Queue/Threads.antt =====
-- AtomicInstructions/queue.c: `enqueue` and `dequeue` as any number of threads run them. A step is one
-- read of a shared pointer_t, one read of a node, or one cas; malloc returns no address a second time, but in Counters.
pub mod Ghost
pub mod Stable
pub mod Swings
pub mod Links
pub mod Turns
pub mod Appending
pub mod Taking
pub mod Cases
pub mod Worlds
pub mod Calls
pub mod Linear
pub mod Raised
pub mod Counters
pub mod Alone
use duke_operatingsystems.Common.{
  Bool, List, [], false, if◌then◌else◌, not, true, update, ◌&&◌, ◌++◌, ◌==◌, ◌||◌, ◌∷◌, ◌≡◌, ◌≢◌, ℕ,
}
use duke_operatingsystems.Queue.Ops.{
  Queue, Pointer, checkequals, update_and_increment, with_node, dequeue_fail, initialize,
}

-- Where a thread is, with its local variables: `e_` inside of `enqueue`, with its node and the value,
-- and `d_` inside of `dequeue`.
pub data Local : Type 0 where
  idle : Local
  -- before the read of queue->tail, before that of tail.pointer->next, and before the test of the tail
  e_loop : (node v : ℕ) → Local
  e_tail : (node v : ℕ) → Pointer → Local
  e_next : (node v : ℕ) (tail next : Pointer) → Local
  -- before the three calls of update_and_increment
  e_link : (node v : ℕ) (tail next : Pointer) → Local
  e_help : (node v : ℕ) (tail next : Pointer) → Local
  e_swing : (node v : ℕ) → Pointer → Local
  -- before the reads of queue->head, of queue->tail, and of dummy_head.pointer->next
  d_loop : Local
  d_head : Pointer → Local
  d_tail : (head tail : Pointer) → Local
  -- before the test of the head, before equalchecker, and inside of it, with alpha->next read
  d_next : (head tail next : Pointer) → Local
  d_same : (head tail next : Pointer) → Local
  d_alpha : (head tail next alpha_next : Pointer) → Local
  -- before the two calls of update_and_increment, before the test of next.pointer, and before free
  d_help : (tail next : Pointer) → Local
  d_value : (head next : Pointer) → Local
  d_swing : (head next : Pointer) (v : ℕ) → Local
  d_free : Pointer → ℕ → Local
  -- dequeue has returned a value, and an assertion has failed
  returned : ℕ → Local
  aborted : Local

-- The branch of `dequeue` in which equalchecker holds.
abbrev pub behind_equal : (tail next : Pointer) → Local
behind_equal tail next = if next.pointer == 0 then returned dequeue_fail else d_help tail next

-- The first part of equalchecker: it answers from the pointers and the values, or reads alpha->next.
unfoldable pub compare_nodes : Queue → (head tail next : Pointer) → Local
compare_nodes q head tail next =
    if (head.pointer == 0) && (tail.pointer == 0)
    then behind_equal tail next
    else (if (head.pointer == 0) || (tail.pointer == 0)
        then d_value head next
        else (if not (head.pointer == tail.pointer)
            then d_value head next
            else (if not (q.value head.pointer == q.value tail.pointer)
                then d_value head next
                else d_alpha head tail next (q.next head.pointer))))

-- One step of a thread inside of a call.
unfoldable pub turn : Local → Queue → Local × Queue
turn idle q = (idle, q)
turn (e_loop node v) q = (e_tail node v q.tail, q)
turn (e_tail node v tail) q =
    (if tail.pointer == 0 then aborted else e_next node v tail (q.next tail.pointer), q)
turn (e_next node v tail next) q = (
  if not (checkequals tail q.tail)
      then e_loop node v
      else (if next.pointer == 0 then e_link node v tail next else e_help node v tail next),
  q,
)
turn (e_link node v tail next) q =
    let (linked, word) = update_and_increment (q.next tail.pointer) next node in
    if linked
    then (e_swing node v tail, record q { next = update q.next tail.pointer word })
    else (e_loop node v, q)
turn (e_help node v tail next) q =
    (e_loop node v, record q { tail = (update_and_increment q.tail tail next.pointer).1 })
turn (e_swing node v tail) q = (idle, record q { tail = (update_and_increment q.tail tail node).1 })
turn d_loop q = (d_head q.head, q)
turn (d_head head) q = (d_tail head q.tail, q)
turn (d_tail head tail) q = (d_next head tail (q.next head.pointer), q)
turn (d_next head tail next) q =
    (if checkequals head q.head then d_same head tail next else d_loop, q)
turn (d_same head tail next) q = (compare_nodes q head tail next, q)
turn (d_alpha head tail next alpha_next) q = (
  if checkequals alpha_next (q.next tail.pointer)
      then behind_equal tail next
      else d_value head next,
  q,
)
turn (d_help tail next) q =
    (d_loop, record q { tail = (update_and_increment q.tail tail next.pointer).1 })
turn (d_value head next) q =
    (if next.pointer == 0 then d_loop else d_swing head next (q.value next.pointer), q)
turn (d_swing head next v) q =
    let (moved, head') = update_and_increment q.head head next.pointer in
    if moved then (d_free head v, record q { head = head' }) else (d_loop, q)
turn (d_free head v) q = (returned v, record q { live = update q.live head.pointer false })
turn (returned v) q = (returned v, q)
turn aborted q = (aborted, q)

-- The queue, the threads, and the addresses that malloc has ever returned.
pub record World : Type 0 where
  pub queue : Queue
  pub pc : ℕ → Local
  pub handed : ℕ → Bool

abbrev pub is_outside_call : Local → Bool
is_outside_call idle = true
is_outside_call (returned v) = true
is_outside_call p = false

unfoldable pub turned : ℕ → World → World
turned t w = record w {
  queue = (turn (w.pc t) w.queue).1;
  pc = update w.pc t (turn (w.pc t) w.queue).0;
}

-- A call of `enqueue`, up to its loop.
unfoldable pub called_enqueue : (t node v : ℕ) → World → World
called_enqueue t node v w = record w {
  queue = with_node node v w.queue;
  pc = update w.pc t (e_loop node v);
  handed = update w.handed node true;
}

unfoldable pub called_dequeue : ℕ → World → World
called_dequeue t w = record w { pc = update w.pc t d_loop }

-- An empty queue that `initialize` has set up with the node, and threads outside of any call.
unfoldable pub initialized : ℕ → Queue → World
initialized node q = record {
  queue = initialize node q;
  pc = λ t. idle;
  handed = update (λ a. false) node true;
}

pub data QueueStep (w w' : World) : Type 0 where
  turns : (t : ℕ) → w' ≡ turned t w → QueueStep w w'
  enqueues :
      (t node v : ℕ)
      → is_outside_call (w.pc t) ≡ true
      → node ≢ 0
      → w.handed node ≡ false
      → w' ≡ called_enqueue t node v w
      → QueueStep w w'
  dequeues : (t : ℕ) → is_outside_call (w.pc t) ≡ true → w' ≡ called_dequeue t w → QueueStep w w'

pub data QueueReaches (w : World) : World → Type 0 where
  begin : QueueReaches w w
  then_step : (w' w'' : World) → QueueReaches w w' → QueueStep w' w'' → QueueReaches w w''

abbrev pub thread_of : {w w' : World} → QueueStep w w' → ℕ
thread_of (turns t e) = t
thread_of (enqueues t node v out nonnull fresh e) = t
thread_of (dequeues t out e) = t

-- The value that a step from p to p' links into the queue, and the one that it takes from the queue.
abbrev pub linked_by : (p p' : Local) → List ℕ
linked_by (e_link node v tail next) (e_swing n w t) = v ∷ []
linked_by p p' = []

abbrev pub taken_by : (p p' : Local) → List ℕ
taken_by (d_swing head next v) (d_free h w) = w ∷ []
taken_by p p' = []

-- The values that a run has linked, and those that it has taken, in the order of the steps.
abbrev pub linked_values : {w w' : World} → QueueReaches w w' → List ℕ
linked_values begin = []
linked_values {w} (then_step w' w'' r s) =
    linked_values r ++ linked_by (w'.pc (thread_of s)) (w''.pc (thread_of s))

abbrev pub taken_values : {w w' : World} → QueueReaches w w' → List ℕ
taken_values begin = []
taken_values {w} (then_step w' w'' r s) =
    taken_values r ++ taken_by (w'.pc (thread_of s)) (w''.pc (thread_of s))
