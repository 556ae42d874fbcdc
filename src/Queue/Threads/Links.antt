-- ===== src/Queue/Threads/Links.antt =====
-- The compare-and-swap of a next pointer.
use duke_operatingsystems.Queue.Threads.Swings.{values-snoc, values-same}
use duke_operatingsystems.Queue.Threads.Stable.{Grows}
use duke_operatingsystems.Queue.Threads.Ghost.{values, Ghost, IsShared, contents, IsLink, IsPrivate}
use duke_operatingsystems.Common.{
  Bool, [], arith, if_self, inl, inr, refl, same_or_not, suc, update, ℕ, ◌++◌, ◌-◌, ◌<◌, ◌∙◌, ◌∷◌,
  ◌≡◌, ◌≢◌, ◌≤◌, if_ne, sym, ap,
}
use duke_operatingsystems.Queue.Ops.{Queue, Pointer}

module _ (q : Queue) (handed : ℕ → Bool) (g : Ghost) (s : IsShared q handed g) where
  -- A successful swap of a next pointer: it links the node behind the last.
  module _ (tail : Pointer) (node v i c : ℕ) (a : i ≤ g.tail) (b : tail.pointer ≡ g.at i)
      (end : (q.next tail.pointer).pointer ≡ 0) (own : IsPrivate q handed g node v)
      (given : node ≢ 0) where
    last_is : i ≡ g.last
    last_is = elim (same_or_not i g.last) [
      | inl e ↦ e
      | inr ne ↦
          let l : i < g.last = ground (arith, ne, s.tail-last, a) in
          absurd (
            s.nonnull (suc i) (omega arith)
              (sym (s.linked i l) ∙ ap (λ x. (q.next x).pointer) (sym b) ∙ end))
    ]

    abbrev pub queue_linked : Queue
    queue_linked = record q {
      next = update q.next tail.pointer record { pointer = node; counter = c };
    }

    abbrev pub ghost_linked : Ghost
    ghost_linked = record g { at = update g.at (suc g.last) node; last = suc g.last }

    here : tail.pointer ≡ g.at g.last
    here = b ∙ ap g.at last_is

    old_at : (j : ℕ) → j ≤ g.last → update g.at (suc g.last) node j ≡ g.at j
    old_at j le = if_ne (suc g.last) j node (g.at j) (λ e. omega (arith, e))

    new_at : update g.at (suc g.last) node (suc g.last) ≡ node
    new_at = if_self (suc g.last) node (g.at (suc g.last))

    old_next : (m : ℕ) → m ≢ g.at g.last → queue_linked.next m ≡ q.next m
    old_next m ne =
        if_ne tail.pointer m record { pointer = node; counter = c } (q.next m)
          (λ e. ne (sym e ∙ here))

    pub linked-Grows : Grows q queue_linked g ghost_linked
    linked-Grows = record {
      last-le = omega arith;
      head-le = omega arith;
      tail-le = omega arith;
      same_at = old_at;
      same_next = λ j l.
          old_next (g.at j) (λ e. omega (arith, s.apart j g.last (omega arith) (omega arith) e));
      same_value = λ j le. refl;
    }

    pub linked-IsShared : IsShared queue_linked handed ghost_linked
    linked-IsShared = record {
      head_at = s.head_at ∙ sym (old_at g.head (omega (arith, s.head-tail, s.tail-last)));
      tail_at = s.tail_at ∙ sym (old_at g.tail s.tail-last);
      head-tail = s.head-tail;
      tail-last = omega (arith, s.tail-last);
      apart = λ j k x y e. elim (same_or_not j (suc g.last)) [
        | inl f ↦ (elim (same_or_not k (suc g.last)) [
          | inl f' ↦ f ∙ sym f'
          | inr h' ↦ absurd (
              own.outside k (ground (arith, h')) (
                sym (old_at k (ground (arith, h')))
                ∙ sym e
                ∙ ap (update g.at (suc g.last) node) f
                ∙ new_at))
        ])
        | inr h ↦ (elim (same_or_not k (suc g.last)) [
          | inl f' ↦ absurd (
              own.outside j (ground (arith, h)) (
                sym (old_at j (ground (arith, h)))
                ∙ e
                ∙ ap (update g.at (suc g.last) node) f'
                ∙ new_at))
          | inr h' ↦
              s.apart j k (ground (arith, h)) (ground (arith, h'))
                (sym (old_at j (ground (arith, h))) ∙ e ∙ old_at k (ground (arith, h')))
        ])
      ];
      nonnull = λ j x e. elim (same_or_not j (suc g.last)) [
        | inl f ↦ given (sym (ap (update g.at (suc g.last) node) f ∙ new_at) ∙ e)
        | inr h ↦ s.nonnull j (ground (arith, h)) (sym (old_at j (ground (arith, h))) ∙ e)
      ];
      known = λ j x. elim (same_or_not j (suc g.last)) [
        | inl f ↦ ap handed (ap (update g.at (suc g.last) node) f ∙ new_at) ∙ own.given
        | inr h ↦ ap handed (old_at j (ground (arith, h))) ∙ s.known j (ground (arith, h))
      ];
      linked = λ j l. elim (same_or_not j g.last) [
        | inl f ↦
            ap (λ x. (queue_linked.next x).pointer)
              (ap (update g.at (suc g.last) node) f ∙ old_at g.last (omega arith) ∙ sym here)
            ∙ ap (λ p. p.pointer)
                (if_self tail.pointer record { pointer = node; counter = c } (q.next tail.pointer))
            ∙ sym (ap (λ k. update g.at (suc g.last) node (suc k)) f ∙ new_at)
        | inr h ↦
            ap (λ x. (queue_linked.next x).pointer) (old_at j (ground (arith, h)))
            ∙ ap (λ p. p.pointer)
                (old_next (g.at j) (λ e. h (s.apart j g.last (ground (arith, h)) (omega arith) e)))
            ∙ s.linked j (ground (arith, h))
            ∙ sym (old_at (suc j) (ground (arith, h)))
      ];
      ended =
          ap (λ x. (queue_linked.next x).pointer) new_at
          ∙ ap (λ p. p.pointer) (old_next node (λ e. own.outside g.last (omega arith) (sym e)))
          ∙ own.is_end;
    }

    pub linked-contents : contents queue_linked ghost_linked ≡ contents q g ++ (v ∷ [])
    linked-contents =
        let n = g.last - g.head in
        let at' = update g.at (suc g.last) node in
        ap (values q.value at' g.head) {y = suc n} (omega (arith, s.head-tail, s.tail-last))
        ∙ values-snoc q.value at' g.head n
        ∙ ap (λ x. values q.value at' g.head n ++ (x ∷ []))
            (ap q.value (ap at' {y = suc g.last} (omega (arith, s.head-tail, s.tail-last)) ∙ new_at)
              ∙ own.has_value)
        ∙ ap (λ l. l ++ (v ∷ []))
            (values-same q.value q.value g.at at' g.head n
              (λ j l le. ap q.value (old_at j (omega (arith, s.head-tail, s.tail-last)))))

    pub linked-IsPrivate :
        (m w : ℕ)
        → m ≢ node
        → IsPrivate q handed g m w
        → IsPrivate queue_linked handed ghost_linked m w
    linked-IsPrivate m w ne k = record {
      nonzero = k.nonzero;
      given = k.given;
      outside = λ j x e. elim (same_or_not j (suc g.last)) [
        | inl f ↦ ne (sym e ∙ ap (update g.at (suc g.last) node) f ∙ new_at)
        | inr h ↦ k.outside j (ground (arith, h)) (sym (old_at j (ground (arith, h))) ∙ e)
      ];
      has_value = k.has_value;
      is_end =
          ap (λ p. p.pointer) (old_next m (λ e. k.outside g.last (omega arith) (sym e))) ∙ k.is_end;
    }

    pub linked-IsLink : IsLink queue_linked ghost_linked tail node
    linked-IsLink = (
      i,
      a,
      b ∙ sym (old_at i (omega (arith, last_is))),
      omega (arith, last_is),
      sym (ap (λ j. update g.at (suc g.last) node (suc j)) last_is ∙ new_at),
    )
