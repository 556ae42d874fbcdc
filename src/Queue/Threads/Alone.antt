-- ===== src/Queue/Threads/Alone.antt =====
-- A thread that runs with no other in between, and how it finishes a call from its beginning.
pub mod Finishing
use mathlib.Core.Path.{subst}
use duke_operatingsystems.Common.{
  add64, ap, arith, eq→==, if◌then◌else◌, inl, inr, ne→==, refl, same_or_not, suc, sym, true,
  update, zero, ℕ, ◌+◌, ◌<◌, ◌∙◌, ◌≡◌, ◌≢◌, ◌≤◌,
}
use duke_operatingsystems.Queue.Fifo.{checkequals_refl}
use duke_operatingsystems.Queue.Ops.{
  Queue, Pointer, update_and_increment, cas, checkequals, dequeue_fail,
}
use duke_operatingsystems.Queue.Threads.{
  Local, turn, is_outside_call, compare_nodes, World, turned, e_loop, e_next, e_link, e_swing,
  e_help, d_same, e_tail, d_loop, d_head, d_value, behind_equal, d_swing, d_tail, d_free, returned,
  d_next, d_help, d_alpha,
}
use duke_operatingsystems.Queue.Threads.Ghost.{Ghost, IsShared}

abbrev pub alone : ℕ → Local → Queue → Local × Queue
alone zero p q = (p, q)
alone (suc n) p q = alone n (turn p q).0 (turn p q).1

abbrev pub Finishes : Local → Queue → Type 0
Finishes p q = (n : ℕ) × (is_outside_call (alone n p q).0 ≡ true)

pub turns_to : (p p' : Local) (q q' : Queue) → turn p q ≡ (p', q') → Finishes p' q' → Finishes p q
turns_to p p' q q' e (n, h) = (suc n, ap (λ x. is_outside_call (alone n x.0 x.1).0) e ∙ h)

swaps :
    (p : Pointer) (new : ℕ)
    → update_and_increment p p new ≡ (true, record { pointer = new; counter = add64 p.counter 1 })
unfolding update_and_increment cas
swaps p new = rw (eq→== p.pointer p.pointer refl, eq→== p.counter p.counter refl) refl

-- A call of `enqueue` up to the test of the tail.
to_next :
    (q : Queue) (node v : ℕ)
    → q.tail.pointer ≢ 0
    → Finishes (e_next node v q.tail (q.next q.tail.pointer)) q
    → Finishes (e_loop node v) q
unfolding turn
to_next q node v ne f = turns_to (e_loop node v) (e_tail node v q.tail) q q refl (
    turns_to (e_tail node v q.tail) (e_next node v q.tail (q.next q.tail.pointer)) q q
      (rw (ne→== q.tail.pointer 0 ne) refl) f)

module _ (at : ℕ → ℕ) (last : ℕ) (nonnull : (i : ℕ) → i ≤ last → at i ≢ 0) where
  -- The tail is k nodes behind the last one.
  pub enqueue_alone :
      (k i : ℕ) (q : Queue) (node v : ℕ)
      → i + k ≡ last
      → q.tail.pointer ≡ at i
      → ((j : ℕ) → j < last → (q.next (at j)).pointer ≡ at (suc j))
      → (q.next (at last)).pointer ≡ 0
      → Finishes (e_loop node v) q
  unfolding turn
  enqueue_alone zero i q node v sum tail_at linked ended =
      let tail = q.tail in
      let next = q.next tail.pointer in
      let null : next.pointer ≡ 0 =
        ap (λ a. (q.next a).pointer) (tail_at ∙ ap at {y = last} (omega (arith, sum))) ∙ ended in
      to_next q node v (λ z. nonnull i (omega (arith, sum)) (sym tail_at ∙ z))
        (turns_to (e_next node v tail next) (e_link node v tail next) q q
          (rw (checkequals_refl tail, eq→== next.pointer 0 null) refl)
          (turns_to (e_link node v tail next) (e_swing node v tail) q
            (record q {
              next =
                  update q.next tail.pointer
                    record { pointer = node; counter = add64 next.counter 1 };
            })
            (rw (swaps next node) refl) (1, refl)))
  enqueue_alone (suc k) i q node v sum tail_at linked ended =
      let tail = q.tail in
      let next = q.next tail.pointer in
      let here : next.pointer ≡ at (suc i) =
        ap (λ a. (q.next a).pointer) tail_at ∙ linked i (omega (arith, sum)) in
      let some_next : next.pointer ≢ 0 = λ z. nonnull (suc i) (omega (arith, sum)) (sym here ∙ z) in
      to_next q node v (λ z. nonnull i (omega (arith, sum)) (sym tail_at ∙ z))
        (turns_to (e_next node v tail next) (e_help node v tail next) q q
          (rw (checkequals_refl tail, ne→== next.pointer 0 some_next) refl)
          (turns_to (e_help node v tail next) (e_loop node v) q _
            (rw (swaps tail next.pointer) refl)
            (enqueue_alone k (suc i)
              (record q {
                tail = record { pointer = next.pointer; counter = add64 tail.counter 1 };
              })
              node v (omega (arith, sum)) here linked ended)))

-- A call of `dequeue` up to the test of the head.
to_same :
    (q : Queue) → Finishes (d_same q.head q.tail (q.next q.head.pointer)) q → Finishes d_loop q
unfolding turn
to_same q f =
    let next = q.next q.head.pointer in
    turns_to d_loop (d_head q.head) q q refl (
      turns_to (d_head q.head) (d_tail q.head q.tail) q q refl (
        turns_to (d_tail q.head q.tail) (d_next q.head q.tail next) q q refl (
          turns_to (d_next q.head q.tail next) (d_same q.head q.tail next) q q
            (rw (checkequals_refl q.head) refl) f)))

-- The head and the tail point at different nodes.
pub dequeue_apart :
    (q : Queue)
    → q.head.pointer ≢ 0
    → q.tail.pointer ≢ 0
    → q.head.pointer ≢ q.tail.pointer
    → (q.next q.head.pointer).pointer ≢ 0
    → Finishes d_loop q
unfolding turn compare_nodes
dequeue_apart q some_head some_tail apart some_next =
    let head = q.head in
    let next = q.next head.pointer in
    let v = q.value next.pointer in
    to_same q (
      turns_to (d_same head q.tail next) (d_value head next) q q
        (rw
          (
            ne→== head.pointer 0 some_head,
            ne→== q.tail.pointer 0 some_tail,
            ne→== head.pointer q.tail.pointer apart,
          )
          refl)
        (turns_to (d_value head next) (d_swing head next v) q q
          (rw (ne→== next.pointer 0 some_next) refl)
          (turns_to (d_swing head next v) (d_free head v) q
            (record q { head = record { pointer = next.pointer; counter = add64 head.counter 1 } })
            (rw (swaps head next.pointer) refl) (1, refl))))

-- They point at the same node.
pub dequeue_same :
    (q : Queue)
    → q.head.pointer ≢ 0
    → q.head.pointer ≡ q.tail.pointer
    → ((q.next q.head.pointer).pointer ≢ 0 → q.head.pointer ≢ (q.next q.head.pointer).pointer)
    → Finishes d_loop q
unfolding turn compare_nodes
dequeue_same q some_head same apart =
    let head = q.head in
    let tail = q.tail in
    let next = q.next head.pointer in
    let some_tail : tail.pointer ≢ 0 = λ z. some_head (same ∙ z) in
    let behind : Finishes (behind_equal tail next) q = elim (same_or_not next.pointer 0) [
      | inl z ↦ (0, rw (eq→== next.pointer 0 z) refl)
      | inr ne ↦
          subst (λ p. Finishes p q)
            (sym (
              ap (λ b. if b then returned dequeue_fail else d_help tail next)
                (ne→== next.pointer 0 ne)))
            (turns_to (d_help tail next) d_loop q _ (rw (swaps tail next.pointer) refl) (
              dequeue_apart
                (record q {
                  tail = record { pointer = next.pointer; counter = add64 tail.counter 1 };
                })
                some_head ne (apart ne) ne))
    ] in
    to_same q (
      turns_to (d_same head tail next) (d_alpha head tail next next) q q
        (rw
          (
            ne→== head.pointer 0 some_head,
            ne→== tail.pointer 0 some_tail,
            eq→== head.pointer tail.pointer same,
            eq→== (q.value head.pointer) (q.value tail.pointer) (ap q.value same),
          )
          refl)
        (turns_to (d_alpha head tail next next) (behind_equal tail next) q q
          (rw (ap (λ a. checkequals next (q.next a)) (sym same) ∙ checkequals_refl next) refl)
          behind))
