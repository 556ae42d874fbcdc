-- ===== src/Queue/Threads/Stable.antt =====
-- What a thread knows stays true while others work.
use duke_operatingsystems.Queue.Threads.{
  Local, e_loop, e_tail, e_next, e_link, e_help, e_swing, d_head, d_tail, d_next, d_same, d_alpha,
  d_help, d_value, d_swing, d_free, returned, idle, d_loop, aborted,
}
use duke_operatingsystems.Queue.Threads.Ghost.{Ghost, IsNext, IsLink, IsPair, Knows}
use duke_operatingsystems.Common.{ap, arith, inl, inr, refl, sym, ◌∙◌, ◌≡◌, ◌≤◌, ℕ, ◌<◌, suc}
use duke_operatingsystems.Queue.Ops.{Queue, Pointer}

-- The linked nodes only grow, and those linked keep their values and, but for the last, their next
-- pointers.
pub record Grows (q q' : Queue) (g g' : Ghost) : Type 0 where
  pub last-le : g.last ≤ g'.last
  pub head-le : g.head ≤ g'.head
  pub tail-le : g.tail ≤ g'.tail
  pub same_at : (i : ℕ) → i ≤ g.last → g'.at i ≡ g.at i
  pub same_next : (i : ℕ) → i < g.last → q'.next (g.at i) ≡ q.next (g.at i)
  pub same_value : (i : ℕ) → i ≤ g.last → q'.value (g.at i) ≡ q.value (g.at i)

pub Grows-refl : (q : Queue) (g : Ghost) → Grows q q g g
Grows-refl q g = record {
  last-le = omega arith;
  head-le = omega arith;
  tail-le = omega arith;
  same_at = λ i le. refl;
  same_next = λ i lt. refl;
  same_value = λ i le. refl;
}

module _ (q q' : Queue) (g g' : Ghost) (gr : Grows q q' g g') (bound : g.tail ≤ g.last)
    (order : g.head ≤ g.tail) where
  IsNext-Grows : (i : ℕ) (next : Pointer) → IsNext q g i next → IsNext q' g' i next
  IsNext-Grows i next (inl e) = inl e
  IsNext-Grows i next (inr (lt, e)) = inr (
    omega (arith, gr.last-le),
    e ∙ sym (gr.same_next i lt) ∙ ap q'.next (sym (gr.same_at i (omega arith))),
  )

  IsPair-Grows :
      (head tail : Pointer) (i j : ℕ) → IsPair q g head tail i j → IsPair q' g' head tail i j
  IsPair-Grows head tail i j (a, b, c, d, e) = (
    omega (arith, gr.head-le),
    b ∙ sym (gr.same_at i (omega arith)),
    c,
    omega (arith, gr.tail-le),
    e ∙ sym (gr.same_at j (omega arith)),
  )

  IsLink-Grows : (tail : Pointer) (node : ℕ) → IsLink q g tail node → IsLink q' g' tail node
  IsLink-Grows tail node (i, a, b, c, d) = (
    i,
    omega (arith, gr.tail-le),
    b ∙ sym (gr.same_at i (omega arith)),
    omega (arith, gr.last-le),
    d ∙ sym (gr.same_at (suc i) (omega arith)),
  )

  pub Knows-Grows : (p : Local) → Knows q g p → Knows q' g' p
  Knows-Grows idle k = k
  Knows-Grows (e_loop node v) k = k
  Knows-Grows (e_tail node v tail) (i, a, b) =
      (i, omega (arith, gr.tail-le), b ∙ sym (gr.same_at i (omega arith)))
  Knows-Grows (e_next node v tail next) (i, a, b, c) =
      (i, omega (arith, gr.tail-le), b ∙ sym (gr.same_at i (omega arith)), IsNext-Grows i next c)
  Knows-Grows (e_link node v tail next) ((i, a, b), c) =
      ((i, omega (arith, gr.tail-le), b ∙ sym (gr.same_at i (omega arith))), c)
  Knows-Grows (e_help node v tail next) k = IsLink-Grows tail next.pointer k
  Knows-Grows (e_swing node v tail) k = IsLink-Grows tail node k
  Knows-Grows d_loop k = k
  Knows-Grows (d_head head) (i, a, b) =
      (i, omega (arith, gr.head-le), b ∙ sym (gr.same_at i (omega arith)))
  Knows-Grows (d_tail head tail) (i, j, p) = (i, j, IsPair-Grows head tail i j p)
  Knows-Grows (d_next head tail next) (i, j, p, n) =
      (i, j, IsPair-Grows head tail i j p, IsNext-Grows i next n)
  Knows-Grows (d_same head tail next) (i, j, p, n) =
      (i, j, IsPair-Grows head tail i j p, IsNext-Grows i next n)
  Knows-Grows (d_alpha head tail next alpha_next) (i, a, b, c, n, e) = (
    i,
    omega (arith, gr.head-le),
    b ∙ sym (gr.same_at i (omega arith)),
    c ∙ sym (gr.same_at i (omega arith)),
    IsNext-Grows i next n,
    e,
  )
  Knows-Grows (d_help tail next) k = IsLink-Grows tail next.pointer k
  Knows-Grows (d_value head next) (i, a, b, inl e) =
      (i, omega (arith, gr.head-le), b ∙ sym (gr.same_at i (omega arith)), inl e)
  Knows-Grows (d_value head next) (i, a, b, inr (lt, e)) = (
    i,
    omega (arith, gr.head-le),
    b ∙ sym (gr.same_at i (omega arith)),
    inr (omega (arith, gr.tail-le), e ∙ sym (gr.same_at (suc i) (omega arith))),
  )
  Knows-Grows (d_swing head next v) (i, a, b, lt, e, f) = (
    i,
    omega (arith, gr.head-le),
    b ∙ sym (gr.same_at i (omega arith)),
    omega (arith, gr.tail-le),
    e ∙ sym (gr.same_at (suc i) (omega arith)),
    f ∙ sym (ap q'.value (gr.same_at (suc i) (omega arith)) ∙ gr.same_value (suc i) (omega arith)),
  )
  Knows-Grows (d_free head v) k = k
  Knows-Grows (returned v) k = k
  Knows-Grows aborted k = k
