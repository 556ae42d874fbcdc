-- ===== src/Queue/Threads/Taking.antt =====
-- The steps of `dequeue` that test what they read, the swap of the head, and free.
use duke_operatingsystems.Queue.Threads.Appending.{read_next}
use duke_operatingsystems.Queue.Fifo.{checkequals_refl}
use duke_operatingsystems.Queue.Threads.Swings.{
  update_and_increment-cases, head_swing-Grows, head_swing-IsShared, head_swing-contents,
}
use duke_operatingsystems.Queue.Threads.Turns.{Turned, drops}
use duke_operatingsystems.Queue.Threads.{
  turn, Local, compare_nodes, d_same, d_swing, d_tail, d_alpha, d_free, d_loop, d_next, d_value,
  returned, d_help,
}
use duke_operatingsystems.Queue.Threads.Ghost.{
  Ghost, IsShared, Knows, owned, IsPrivate, value_of, values, owns,
}
use duke_operatingsystems.Common.{
  Bool, add64, arith, inl, not, same_or_not, suc, true, ℕ, ◌&&◌, ◌<◌, ◌==◌, ◌||◌, ◌∙◌, ◌≡◌, ◌≢◌,
  inr, sym, if_intro, refl, ap,
}
use duke_operatingsystems.Queue.Ops.{Queue, Pointer, checkequals, dequeue_fail}

module _ (q : Queue) (handed : ℕ → Bool) (g : Ghost) (s : IsShared q handed g) where
  -- What a thread with the node and value of p may use, and what it has to show of its step.
  abbrev Mine : Local → Type 0
  Mine p = owns p ≡ true → IsPrivate q handed g (owned p) (value_of p)

  abbrev Goes : Local → Local → Type 0
  Goes p p' = Turned q handed g p p' q

  pub d_tail_lem :
      (head tail : Pointer)
      → Knows q g (d_tail head tail)
      → Goes (d_tail head tail) (turn (d_tail head tail) q).0
  unfolding turn
  d_tail_lem head tail (i, j, (a, b, c, d, e)) =
      let next = q.next head.pointer in
      let n = read_next q handed g s i head.pointer (omega (arith, s.head-tail, s.tail-last)) b in
      drops q handed g s (d_tail head tail) (λ ne. absurd (ground (arith, ne)))
        (d_next head tail next) refl (i, j, (a, b, c, d, e), n)
        (
          refl,
          elim n [
            | inr (lt, f) ↦ inl (λ z.
                s.nonnull (suc i) (omega arith)
                  (sym (s.linked i lt) ∙ ap (λ x. x.pointer) (sym f) ∙ z))
            | inl z ↦ inr (elim (same_or_not i g.last) [
              | inl f ↦
                  ap (values q.value g.at g.head) {y = 0}
                    (omega (arith, a, f, s.head-tail, s.tail-last))
              | inr ne ↦
                  let lt : i < g.last = ground (arith, ne, a, s.head-tail, s.tail-last) in
                  absurd (
                    s.nonnull (suc i) (omega arith)
                      (sym (s.linked i lt) ∙ ap (λ x. (q.next x).pointer) (sym b) ∙ z))
            ])
          ],
        )

  pub d_same_lem :
      (head tail next : Pointer)
      → Knows q g (d_same head tail next)
      → Goes (d_same head tail next) (turn (d_same head tail next) q).0
  unfolding turn compare_nodes
  d_same_lem head tail next (i, j, (a, b, c, d, e), n) =
      let p = d_same head tail next in
      let to = drops q handed g s p (λ ne. absurd (ground (arith, ne))) in
      let live : head.pointer ≢ 0 =
        λ z. s.nonnull i (omega (arith, a, s.head-tail, s.tail-last)) (sym b ∙ z) in
      let live' : tail.pointer ≢ 0 = λ z. s.nonnull j (omega (arith, d, s.tail-last)) (sym e ∙ z) in
      if_intro (Goes p) ((head.pointer == 0) && (tail.pointer == 0))
        (λ t. absurd (ground (arith, t, live)))
        (λ _.
          if_intro (Goes p) ((head.pointer == 0) || (tail.pointer == 0))
            (λ t. absurd (ground (arith, t, live, live')))
            (λ _.
              if_intro (Goes p) (not (head.pointer == tail.pointer))
                (λ t.
                  let differ : i ≢ j = λ f. absurd (ground (arith, t, b ∙ ap g.at f ∙ sym e)) in
                  to (d_value head next) refl
                    (
                      i,
                      a,
                      b,
                      elim n [
                        | inl z ↦ inl z
                        | inr (lt, f) ↦
                            inr
                              (ground (arith, differ, c, d), ap (λ x. x.pointer) f ∙ s.linked i lt)
                      ],
                    )
                    refl)
                (λ t.
                  let same : head.pointer ≡ tail.pointer = ground (arith, t) in
                  if_intro (Goes p) (not (q.value head.pointer == q.value tail.pointer))
                    (λ u. absurd (ground (arith, u, ap q.value same)))
                    (λ _.
                      to (d_alpha head tail next (q.next head.pointer)) refl
                        (
                          i,
                          a,
                          b,
                          sym same ∙ b,
                          n,
                          elim n [ inl z ↦ inl z | inr (lt, f) ↦ inr (ap q.next b ∙ sym f) ],
                        )
                        refl))))

  pub d_alpha_lem :
      (head tail next alpha_next : Pointer)
      → Knows q g (d_alpha head tail next alpha_next)
      → Goes (d_alpha head tail next alpha_next) (turn (d_alpha head tail next alpha_next) q).0
  unfolding turn
  d_alpha_lem head tail next alpha_next (i, a, b, c, n, f) =
      let p = d_alpha head tail next alpha_next in
      let to = drops q handed g s p (λ ne. absurd (ground (arith, ne))) in
      if_intro (Goes p) (checkequals alpha_next (q.next tail.pointer))
        (λ _.
          if_intro (Goes p) (next.pointer == 0) (λ z. to (returned dequeue_fail) refl tt refl)
            (λ z. elim n [
              | inl e ↦ absurd (ground (arith, e, z))
              | inr (lt, e) ↦
                  to (d_help tail next) refl
                    (i, omega (arith, a, s.head-tail), c, lt, ap (λ x. x.pointer) e ∙ s.linked i lt)
                    refl
            ]))
        (λ t.
          to (d_value head next) refl
            (
              i,
              a,
              b,
              elim n [
                | inl z ↦ inl z
                | inr (lt, e) ↦ (elim f [
                  | inl z ↦ inl z
                  | inr h ↦
                      let same : alpha_next ≡ q.next tail.pointer = h ∙ e ∙ ap q.next (sym c) in
                      absurd (
                        ground (
                          arith,
                          t,
                          ap (checkequals alpha_next) (sym same) ∙ checkequals_refl alpha_next,
                        ))
                ])
              ],
            )
            refl)

  pub d_swing_lem :
      (head next : Pointer) (v : ℕ)
      → Knows q g (d_swing head next v)
      → Turned q handed g
          (d_swing head next v)
          (turn (d_swing head next v) q).0
          (turn (d_swing head next v) q).1
  unfolding turn
  d_swing_lem head next v (i, a, b, lt, d, f) =
      elim (update_and_increment-cases q.head head next.pointer) [
        | inr e ↦ rw e (
            drops q handed g s (d_swing head next v) (λ ne. absurd (ground (arith, ne))) d_loop refl
              tt refl)
        | inl (same, e) ↦
            let word : Pointer = record {
              pointer = next.pointer;
              counter = add64 head.counter 1;
            } in
            rw e (record {
              ghost = record g { head = suc i };
              grows = head_swing-Grows q handed g s head next v i b lt d f same word refl;
              shared = head_swing-IsShared q handed g s head next v i b lt d f same word refl;
              knows = tt;
              kept = λ ne. absurd (ground (arith, ne));
              own = λ ne. absurd (ground (arith, ne));
              others = λ m w ne k. record {
                nonzero = k.nonzero;
                given = k.given;
                outside = k.outside;
                has_value = k.has_value;
                is_end = k.is_end;
              };
              effect = head_swing-contents q handed g s head next v i b lt d f same word refl;
            })
      ]

  pub d_free_lem :
      (head : Pointer) (v : ℕ)
      → Turned q handed g (d_free head v) (turn (d_free head v) q).0 (turn (d_free head v) q).1
  unfolding turn
  d_free_lem head v = record {
    ghost = g;
    grows = record {
      last-le = omega arith;
      head-le = omega arith;
      tail-le = omega arith;
      same_at = λ i le. refl;
      same_next = λ i le. refl;
      same_value = λ i le. refl;
    };
    shared = record {
      head_at = s.head_at;
      tail_at = s.tail_at;
      head-tail = s.head-tail;
      tail-last = s.tail-last;
      apart = s.apart;
      nonnull = s.nonnull;
      known = s.known;
      linked = s.linked;
      ended = s.ended;
    };
    knows = tt;
    kept = λ ne. absurd (ground (arith, ne));
    own = λ ne. absurd (ground (arith, ne));
    others = λ m w ne k. record {
      nonzero = k.nonzero;
      given = k.given;
      outside = k.outside;
      has_value = k.has_value;
      is_end = k.is_end;
    };
    effect = refl;
  }
