-- ===== src/Queue/Threads/Raised.antt =====
-- AtomicInstructions/queue.c: how one step of a thread changes the counters of the shared pointers.
use duke_operatingsystems.Common.{
  Bool-cases, add64, ap, arith, eq→==, false, if◌then◌else◌, inl, inr, ne→==, refl, same_or_not,
  true, ℕ, ◌%◌, ◌&&◌, ◌+◌, ◌==◌, ◌^◌, ◌∙◌, ◌≡◌, if_intro,
}
use duke_operatingsystems.Queue.Ops.{Queue, Pointer, cas, update_and_increment, with_node}
use duke_operatingsystems.Queue.Threads.{
  Local, turn, idle, e_loop, e_tail, e_next, e_link, e_help, e_swing, d_loop, d_head, d_tail,
  d_next, d_same, d_alpha, d_help, d_value, d_swing, d_free, returned, aborted,
}

-- Whether a thread that goes from p to p' has swapped the head, and whether it has linked a node behind the node a.
abbrev pub swaps_head : (p p' : Local) → ℕ
swaps_head (d_swing head next v) (d_free h w) = 1
swaps_head p p' = 0

abbrev pub links_behind : ℕ → (p p' : Local) → ℕ
links_behind a (e_link node v tail next) (e_swing n w t) = if tail.pointer == a then 1 else 0
links_behind a p p' = 0

-- A counter that has been raised n times, and wraps round.
abbrev pub Raised : (n c c' : ℕ) → Type 0
Raised n c c' = c' % 2 ^ 64 ≡ (c + n) % 2 ^ 64

-- What a successful swap of a word does to it: the test has found the old counter.
swapped_counter :
    (src old : Pointer) (new_pointer : ℕ)
    → (update_and_increment src old new_pointer).0 ≡ true
    → (update_and_increment src old new_pointer).1.counter ≡ add64 src.counter 1
unfolding update_and_increment cas
swapped_counter src old new_pointer h = ground (arith, h)

kept_word :
    (src old : Pointer) (new_pointer : ℕ)
    → (update_and_increment src old new_pointer).0 ≡ false
    → (update_and_increment src old new_pointer).1 ≡ src
unfolding update_and_increment cas
kept_word src old new_pointer h =
    elim (Bool-cases ((src.pointer == old.pointer) && (src.counter == old.counter))) [
      | inl t ↦ absurd (ground (arith, h, t))
      | inr f ↦ rw f refl
    ]

Raised-add64 : (c c' : ℕ) → c' ≡ add64 c 1 → Raised 1 c c'
Raised-add64 c c' e = omega (arith, e)

pub Raised-none : (c c' : ℕ) → c' ≡ c → Raised 0 c c'
Raised-none c c' e = omega (arith, e)

pub Raised-refl : (c : ℕ) → Raised 0 c c
Raised-refl c = Raised-none c c refl

-- The swap of the head in `dequeue`, and the link in `enqueue`.
swing_lem :
    (head next : Pointer) (v : ℕ) (q : Queue)
    → Raised
        (swaps_head (d_swing head next v) (turn (d_swing head next v) q).0)
        q.head.counter
        (turn (d_swing head next v) q).1.head.counter
unfolding turn
swing_lem head next v q =
    let r = update_and_increment q.head head next.pointer in
    elim (Bool-cases r.0) [
      | inl t ↦
          rw t
            (Raised-add64 q.head.counter r.1.counter (swapped_counter q.head head next.pointer t))
      | inr f ↦ rw f (Raised-refl q.head.counter)
    ]

link_lem :
    (node v : ℕ) (tail next : Pointer) (q : Queue) (a : ℕ)
    → Raised
        (links_behind a (e_link node v tail next) (turn (e_link node v tail next) q).0)
        (q.next a).counter
        ((turn (e_link node v tail next) q).1.next a).counter
unfolding turn
link_lem node v tail next q a =
    let r = update_and_increment (q.next tail.pointer) next node in
    elim (Bool-cases r.0) [
      | inr f ↦ rw f (Raised-refl (q.next a).counter)
      | inl t ↦ (elim (same_or_not tail.pointer a) [
        | inl e ↦
            rw (t, eq→== tail.pointer a e)
              (Raised-add64 (q.next a).counter r.1.counter (
                swapped_counter (q.next tail.pointer) next node t
                ∙ ap (λ x. add64 (q.next x).counter 1) e))
        | inr ne ↦ rw (t, ne→== tail.pointer a ne) (Raised-refl (q.next a).counter)
      ])
    ]

pub turn-head :
    (p : Local) (q : Queue)
    → Raised (swaps_head p (turn p q).0) q.head.counter (turn p q).1.head.counter
unfolding turn
turn-head idle q = Raised-refl q.head.counter
turn-head (e_loop node v) q = Raised-refl q.head.counter
turn-head (e_tail node v tail) q = Raised-refl q.head.counter
turn-head (e_next node v tail next) q = Raised-refl q.head.counter
turn-head (e_link node v tail next) q =
    if_intro (λ (r : Local × Queue). Raised 0 q.head.counter r.1.head.counter)
      (update_and_increment (q.next tail.pointer) next node).0 (λ h. Raised-refl q.head.counter)
      (λ h. Raised-refl q.head.counter)
turn-head (e_help node v tail next) q = Raised-refl q.head.counter
turn-head (e_swing node v tail) q = Raised-refl q.head.counter
turn-head d_loop q = Raised-refl q.head.counter
turn-head (d_head head) q = Raised-refl q.head.counter
turn-head (d_tail head tail) q = Raised-refl q.head.counter
turn-head (d_next head tail next) q = Raised-refl q.head.counter
turn-head (d_same head tail next) q = Raised-refl q.head.counter
turn-head (d_alpha head tail next alpha_next) q = Raised-refl q.head.counter
turn-head (d_help tail next) q = Raised-refl q.head.counter
turn-head (d_value head next) q = Raised-refl q.head.counter
turn-head (d_swing head next v) q = swing_lem head next v q
turn-head (d_free head v) q = Raised-refl q.head.counter
turn-head (returned v) q = Raised-refl q.head.counter
turn-head aborted q = Raised-refl q.head.counter

pub turn-next :
    (a : ℕ) (p : Local) (q : Queue)
    → Raised (links_behind a p (turn p q).0) (q.next a).counter ((turn p q).1.next a).counter
unfolding turn
turn-next a idle q = Raised-refl (q.next a).counter
turn-next a (e_loop node v) q = Raised-refl (q.next a).counter
turn-next a (e_tail node v tail) q = Raised-refl (q.next a).counter
turn-next a (e_next node v tail next) q = Raised-refl (q.next a).counter
turn-next a (e_link node v tail next) q = link_lem node v tail next q a
turn-next a (e_help node v tail next) q = Raised-refl (q.next a).counter
turn-next a (e_swing node v tail) q = Raised-refl (q.next a).counter
turn-next a d_loop q = Raised-refl (q.next a).counter
turn-next a (d_head head) q = Raised-refl (q.next a).counter
turn-next a (d_tail head tail) q = Raised-refl (q.next a).counter
turn-next a (d_next head tail next) q = Raised-refl (q.next a).counter
turn-next a (d_same head tail next) q = Raised-refl (q.next a).counter
turn-next a (d_alpha head tail next alpha_next) q = Raised-refl (q.next a).counter
turn-next a (d_help tail next) q = Raised-refl (q.next a).counter
turn-next a (d_value head next) q = Raised-refl (q.next a).counter
turn-next a (d_swing head next v) q =
    if_intro (λ (r : Local × Queue). Raised 0 (q.next a).counter (r.1.next a).counter)
      (update_and_increment q.head head next.pointer).0 (λ h. Raised-refl (q.next a).counter)
      (λ h. Raised-refl (q.next a).counter)
turn-next a (d_free head v) q = Raised-refl (q.next a).counter
turn-next a (returned v) q = Raised-refl (q.next a).counter
turn-next a aborted q = Raised-refl (q.next a).counter

pub with_node-next :
    (node v : ℕ) (q : Queue) (a : ℕ) → ((with_node node v q).next a).counter ≡ (q.next a).counter
unfolding with_node
with_node-next node v q a = elim (same_or_not node a) [
  | inl e ↦ rw (eq→== node a e) (ap (λ x. (q.next x).counter) e)
  | inr ne ↦ rw (ne→== node a ne) refl
]
