-- ===== src/Queue/Threads/Calls.antt =====
-- The start of a call of `enqueue` and of `dequeue` by a thread outside of any call.
use mathlib.Core.Path.{subst}
use duke_operatingsystems.Queue.Threads.Swings.{values-same}
use duke_operatingsystems.Queue.Threads.Stable.{Grows, Grows-refl}
use duke_operatingsystems.Queue.Threads.Turns.{Effect}
use duke_operatingsystems.Queue.Threads.Ghost.{Ghost, IsShared, contents, IsPrivate}
use duke_operatingsystems.Queue.Ops.{Queue, with_node}
use duke_operatingsystems.Queue.Threads.{
  Local, World, is_outside_call, called_enqueue, called_dequeue, returned, d_loop, e_loop, e_tail,
  e_next, e_link, e_help, e_swing, d_head, d_tail, d_next, d_same, d_alpha, d_help, d_value,
  d_swing, d_free, idle, aborted,
}
use duke_operatingsystems.Common.{
  Bool, List, ap, arith, false, if_ne, if_self, inl, inr, refl, same_or_not, sym, true, update, ℕ,
  ◌-◌, ◌∙◌, ◌≡◌, ◌≢◌, ◌≤◌,
}
use duke_operatingsystems.Queue.Threads.Worlds.{IsWorld, Does, moves-IsWorld}

outside-Effect : (p p' : Local) (vs : List ℕ) → is_outside_call p ≡ true → Effect p p' vs vs
outside-Effect idle p' vs h = refl
outside-Effect (returned v) p' vs h = refl
outside-Effect (e_loop node v) p' vs h = refl
outside-Effect (e_tail node v tail) p' vs h = refl
outside-Effect (e_next node v tail next) p' vs h = refl
outside-Effect (e_link node v tail next) p' vs h = absurd (ground (arith, h))
outside-Effect (e_help node v tail next) p' vs h = refl
outside-Effect (e_swing node v tail) p' vs h = refl
outside-Effect d_loop p' vs h = refl
outside-Effect (d_head head) p' vs h = refl
outside-Effect (d_tail head tail) p' vs h = absurd (ground (arith, h))
outside-Effect (d_next head tail next) p' vs h = refl
outside-Effect (d_same head tail next) p' vs h = refl
outside-Effect (d_alpha head tail next alpha_next) p' vs h = refl
outside-Effect (d_help tail next) p' vs h = refl
outside-Effect (d_value head next) p' vs h = refl
outside-Effect (d_swing head next v) p' vs h = absurd (ground (arith, h))
outside-Effect (d_free head v) p' vs h = refl
outside-Effect aborted p' vs h = refl

module _ (q : Queue) (handed : ℕ → Bool) (g : Ghost) (s : IsShared q handed g) (node v : ℕ)
    (new : handed node ≡ false) where
  linked-old : (i : ℕ) → i ≤ g.last → g.at i ≢ node
  linked-old i le e = absurd (ground (arith, s.known i le, new, ap handed e))

  handed_still : (m : ℕ) → handed m ≡ true → update handed node true m ≡ true
  handed_still m h = elim (same_or_not m node) [
    | inl e ↦ ap (update handed node true) e ∙ if_self node true (handed node)
    | inr ne ↦ if_ne node m true (handed m) (λ e. ne (sym e)) ∙ h
  ]

  next-other : (m : ℕ) → m ≢ node → (with_node node v q).next m ≡ q.next m
  unfolding with_node
  next-other m ne = if_ne node m _ (q.next m) (λ e. ne (sym e))

  value-other : (m : ℕ) → m ≢ node → (with_node node v q).value m ≡ q.value m
  unfolding with_node
  value-other m ne = if_ne node m v (q.value m) (λ e. ne (sym e))

  node-Grows : Grows q (with_node node v q) g g
  node-Grows = record {
    last-le = omega arith;
    head-le = omega arith;
    tail-le = omega arith;
    same_at = λ i le. refl;
    same_next = λ i lt. next-other (g.at i) (linked-old i (omega arith));
    same_value = λ i le. value-other (g.at i) (linked-old i le);
  }

  node-IsShared : IsShared (with_node node v q) (update handed node true) g
  unfolding with_node
  node-IsShared = record {
    head_at = s.head_at;
    tail_at = s.tail_at;
    head-tail = s.head-tail;
    tail-last = s.tail-last;
    apart = s.apart;
    nonnull = s.nonnull;
    known = λ i le. handed_still (g.at i) (s.known i le);
    linked = λ i lt.
        ap (λ x. x.pointer) (next-other (g.at i) (linked-old i (omega arith))) ∙ s.linked i lt;
    ended =
        ap (λ x. x.pointer) (next-other (g.at g.last) (linked-old g.last (omega arith))) ∙ s.ended;
  }

  node-others :
      (m w : ℕ)
      → m ≢ node
      → IsPrivate q handed g m w
      → IsPrivate (with_node node v q) (update handed node true) g m w
  node-others m w ne k = record {
    nonzero = k.nonzero;
    given = handed_still m k.given;
    outside = k.outside;
    has_value = value-other m ne ∙ k.has_value;
    is_end = ap (λ x. x.pointer) (next-other m ne) ∙ k.is_end;
  }

  node-IsPrivate : node ≢ 0 → IsPrivate (with_node node v q) (update handed node true) g node v
  unfolding with_node
  node-IsPrivate nonzero = record {
    nonzero = nonzero;
    given = if_self node true (handed node);
    outside = linked-old;
    has_value = if_self node v (q.value node);
    is_end = ap (λ x. x.pointer) (if_self node _ (q.next node));
  }

  node-contents : contents (with_node node v q) g ≡ contents q g
  node-contents =
      values-same q.value (with_node node v q).value g.at g.at g.head (g.last - g.head)
        (λ j lt le. value-other (g.at j) (linked-old j (omega (arith, s.head-tail, s.tail-last))))

module _ (w : World) (g : Ghost) (k : IsWorld w g) (t : ℕ) where
  pub enqueue-Does :
      (node v : ℕ)
      → is_outside_call (w.pc t) ≡ true
      → node ≢ 0
      → w.handed node ≡ false
      → Does w (called_enqueue t node v w) g t
  unfolding called_enqueue
  enqueue-Does node v out nonzero new =
      let q' = with_node node v w.queue in
      record {
        ghost = g;
        world =
            moves-IsWorld w g k t (e_loop node v) q' (update w.handed node true) g
              (node-Grows w.queue w.handed g k.shared node v new)
              (node-IsShared w.queue w.handed g k.shared node v new) tt
              (λ _. node-IsPrivate w.queue w.handed g k.shared node v new nonzero)
              (λ m x ne _ h. node-others w.queue w.handed g k.shared node v new m x ne h)
              (λ u ne h o e. absurd (ground (arith, (k.own u h).given, new, ap w.handed e)));
        effect =
            subst (Effect (w.pc t) (update w.pc t (e_loop node v) t) (contents w.queue g))
              (sym (node-contents w.queue w.handed g k.shared node v new))
              (outside-Effect (w.pc t) (update w.pc t (e_loop node v) t) (contents w.queue g) out);
        idle_others = λ u ne. if_ne t u (e_loop node v) (w.pc u) (λ e. ne (sym e));
      }

  pub dequeue-Does : is_outside_call (w.pc t) ≡ true → Does w (called_dequeue t w) g t
  unfolding called_dequeue
  dequeue-Does out = record {
    ghost = g;
    world =
        moves-IsWorld w g k t d_loop w.queue w.handed g (Grows-refl w.queue g) k.shared tt
          (λ h. absurd (ground (arith, h))) (λ m v _ _ h. h)
          (λ u ne h o e. absurd (ground (arith, o)));
    effect = outside-Effect (w.pc t) (update w.pc t d_loop t) (contents w.queue g) out;
    idle_others = λ u ne. if_ne t u d_loop (w.pc u) (λ e. ne (sym e));
  }
