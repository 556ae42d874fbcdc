-- ===== src/Queue/Enqueue.antt =====
-- `enqueue` adds a value at the end of the queue.
use duke_operatingsystems.Common.{
  zero, List, [], add64, arith, get_or, if_self, inl, inr, length, same_or_not, sym, true, ◌++◌,
  ◌∙◌, ◌∷◌, ◌≡◌, ℕ, ◌<◌, ◌<◌, suc, ap, update, ne→==, eq→==, refl,
}
use duke_operatingsystems.Queue.Linked.{IsNewNode, IsQueue-with_node, IsQueue-linked}
use duke_operatingsystems.Queue.Fifo.{
  IsQueue, checkequals_refl, update_and_increment_refl, IsQueue-helped,
}
use duke_operatingsystems.Queue.Ops.{
  Queue, enqueue_loop, with_node, done, Pointer, enqueue, update_and_increment,
}

module _ (node : ℕ) (q : Queue) (ns vs : List ℕ) (k : IsQueue q ns vs)
    (at_last : k.last ≡ length vs) where
  -- With the tail at the last node, the first turn of the loop links the node.
  enqueue_loop-linked :
      (fuel : ℕ)
      → enqueue_loop (suc fuel) node q
        ≡ done (
          record q {
            next =
                update q.next q.tail.pointer
                  record { pointer = node; counter = add64 (q.next q.tail.pointer).counter 1 };
          },
          q.tail,
        )
  unfolding enqueue_loop
  enqueue_loop-linked fuel =
      let here : q.tail.pointer ≡ get_or ns (length vs) 0 =
        k.tail_at ∙ ap (λ i. get_or ns i 0) at_last in
      let end : (q.next q.tail.pointer).pointer ≡ 0 = ap (λ a. (q.next a).pointer) here ∙ k.ended in
      rw (
        ne→== q.tail.pointer 0 (λ e. k.nonnull (length vs) (omega (arith, k.sizes)) (sym here ∙ e)),
        checkequals_refl q.tail,
        eq→== (q.next q.tail.pointer).pointer 0 end,
        update_and_increment_refl (q.next q.tail.pointer) node,
      )

module _ (node : ℕ) (q : Queue) (ns vs : List ℕ) (k : IsQueue q ns vs)
    (behind : suc k.last ≡ length vs) where
  -- With the tail one node behind, the first turn moves it.
  enqueue_loop-helped :
      (fuel : ℕ)
      → enqueue_loop (suc fuel) node q
        ≡ enqueue_loop fuel node (record q {
          tail = record { pointer = get_or ns (length vs) 0; counter = add64 q.tail.counter 1 };
        })
  unfolding enqueue_loop
  enqueue_loop-helped fuel =
      let on : q.next q.tail.pointer ≡ q.next (get_or ns k.last 0) = ap q.next k.tail_at in
      let end : (q.next q.tail.pointer).pointer ≡ get_or ns (length vs) 0 =
        ap (λ p. p.pointer) on ∙ k.linked k.last (omega arith) ∙ ap (λ i. get_or ns i 0) behind in
      rw
        (
          ne→== q.tail.pointer 0
              (λ e. k.nonnull k.last (omega (arith, k.sizes)) (sym k.tail_at ∙ e)),
          checkequals_refl q.tail,
          end,
          ne→== (get_or ns (length vs) 0) 0 (k.nonnull (length vs) (omega (arith, k.sizes))),
          update_and_increment_refl q.tail (get_or ns (length vs) 0),
        )
        refl

moved : ℕ → Queue × Pointer → Queue
moved node r = record r.0 { tail = (update_and_increment r.0.tail r.1 node).1 }

module _ (node value : ℕ) (ns vs : List ℕ) (f : IsNewNode node ns) where
  enqueue_loop_done :
      (fuel : ℕ) (q : Queue) (k : IsQueue q ns vs)
      → q.value node ≡ value
      → (q.next node).pointer ≡ 0
      → q.live node ≡ true
      → k.last ≡ length vs
      → (r : Queue × Pointer) × (enqueue_loop (suc fuel) node q ≡ done r)
        × IsQueue (moved node r) (ns ++ (node ∷ [])) (vs ++ (value ∷ []))
  unfolding moved
  enqueue_loop_done fuel q k has_value is_end alive at_last =
      let here : q.tail.pointer ≡ get_or ns (length vs) 0 =
        k.tail_at ∙ ap (λ i. get_or ns i 0) at_last in
      let word : Pointer = record {
        pointer = node;
        counter = add64 (q.next q.tail.pointer).counter 1;
      } in
      (
        (record q { next = update q.next q.tail.pointer word }, q.tail),
        enqueue_loop-linked node q ns vs k at_last fuel,
        rw (update_and_increment_refl q.tail node, here)
            (IsQueue-linked node value q ns vs k f
              (add64 (q.next (get_or ns (length vs) 0)).counter 1) (add64 q.tail.counter 1)
              has_value is_end alive),
      )

  enqueue_loop_lem :
      (fuel : ℕ) (q : Queue) (k : IsQueue q ns vs)
      → 1 < fuel
      → q.value node ≡ value
      → (q.next node).pointer ≡ 0
      → q.live node ≡ true
      → (r : Queue × Pointer) × (enqueue_loop fuel node q ≡ done r)
        × IsQueue (moved node r) (ns ++ (node ∷ [])) (vs ++ (value ∷ []))
  unfolding IsQueue-helped
  enqueue_loop_lem zero q k lt has_value is_end alive = absurd (omega arith)
  enqueue_loop_lem (suc zero) q k lt has_value is_end alive = absurd (omega arith)
  enqueue_loop_lem (suc (suc fuel)) q k lt has_value is_end alive =
      elim (same_or_not k.last (length vs)) [
        | inl e ↦ enqueue_loop_done (suc fuel) q k has_value is_end alive e
        | inr g ↦
            let behind : suc k.last ≡ length vs = ground (arith, k.last-le, k.le-last) in
            let q2 : Queue = record q {
              tail = record { pointer = get_or ns (length vs) 0; counter = add64 q.tail.counter 1 };
            } in
            let (r, run, keeps) =
              enqueue_loop_done fuel q2
                (IsQueue-helped q ns vs
                  record { pointer = get_or ns (length vs) 0; counter = add64 q.tail.counter 1 }
                  refl k)
                has_value is_end alive refl in
            (r, enqueue_loop-helped node q ns vs k behind (suc fuel) ∙ run, keeps)
      ]

-- With a fresh node from malloc and fuel for two turns of the loop, `enqueue` ends, also when the tail
-- lags behind the last node, and adds the value at the end.
pub enqueue_lem :
    (fuel node value : ℕ) (q : Queue) (ns vs : List ℕ)
    → IsQueue q ns vs
    → IsNewNode node ns
    → 1 < fuel
    → (q' : Queue) × (enqueue fuel node value q ≡ done q')
      × IsQueue q' (ns ++ (node ∷ [])) (vs ++ (value ∷ []))
unfolding enqueue moved with_node
enqueue_lem fuel node value q ns vs k f lt =
    let q1 = with_node node value q in
    let (r, run, keeps) =
      enqueue_loop_lem node value ns vs f fuel q1 (IsQueue-with_node node value q ns vs k f) lt
        (if_self node value (q.value node))
        (ap (λ p. p.pointer)
          (if_self node record { pointer = 0; counter = (q.next node).counter } (q.next node)))
        (if_self node true (q.live node)) in
    (moved node r, rw (ne→== node 0 f.is_node, run) refl, keeps)
