-- ===== src/Queue/Dequeue.antt =====
-- `dequeue` takes the first value of the queue.
use duke_operatingsystems.Common.{
  zero, List, [], add64, arith, eq→==, false, get_or, inl, inr, refl, same_or_not, sym, update, ◌∙◌,
  ◌∷◌, ◌≡◌, ◌≢◌, ℕ, ◌<◌, ◌<◌, ◌<◌, ◌<◌, suc, ap, ◌-◌, ne→==, if_self, if_ne,
}
use duke_operatingsystems.Queue.Fifo.{
  IsQueue, checkequals_refl, equalchecker_eq, update_and_increment_refl, IsQueue-helped,
}
use duke_operatingsystems.Queue.Ops.{dequeue, Queue, done, dequeue_fail, Pointer}

-- On an empty queue, with fuel for one turn, `dequeue` returns `dequeue_fail` and changes nothing.
pub dequeue-empty :
    (fuel : ℕ) (q : Queue) (ns : List ℕ)
    → IsQueue q ns []
    → 0 < fuel
    → dequeue fuel q ≡ done (dequeue_fail, q)
unfolding dequeue
dequeue-empty zero q ns k lt = absurd (omega arith)
dequeue-empty (suc fuel) q ns k lt =
    let at_tail : q.tail.pointer ≡ q.head.pointer =
      k.tail_at ∙ ap (λ i. get_or ns i 0) {y = 0} (omega (arith, k.last-le)) ∙ sym k.head_at in
    let end : (q.next q.head.pointer).pointer ≡ 0 =
      ap (λ a. (q.next a).pointer) k.head_at ∙ k.ended in
    let same =
      equalchecker_eq q q.head.pointer q.tail.pointer
      ∙ eq→== q.head.pointer q.tail.pointer (sym at_tail) in
    rw (checkequals_refl q.head, same, eq→== (q.next q.head.pointer).pointer 0 end)

module _ (q : Queue) (dummy v : ℕ) (ns vs : List ℕ) (k : IsQueue q (dummy ∷ ns) (v ∷ vs)) where
  second : (q.next q.head.pointer).pointer ≡ get_or ns 0 0
  second = ap (λ a. (q.next a).pointer) k.head_at ∙ k.linked 0 (omega arith)

  taken : Queue
  taken = record q {
    head = record { pointer = get_or ns 0 0; counter = add64 q.head.counter 1 };
    live = update q.live dummy false;
  }

  -- The first turn, with a tail behind the dummy.
  dequeue-turn : (fuel : ℕ) → 0 < k.last → dequeue (suc fuel) q ≡ done (v, taken)
  unfolding dequeue taken
  dequeue-turn fuel pos =
      let apart : q.head.pointer ≢ q.tail.pointer = λ e. omega (
        arith,
        k.apart 0 k.last (omega arith) (omega (arith, k.sizes, k.last-le))
            (sym k.head_at ∙ e ∙ k.tail_at),
      ) in
      let differ =
        equalchecker_eq q q.head.pointer q.tail.pointer
        ∙ ne→== q.head.pointer q.tail.pointer apart in
      rw (
        checkequals_refl q.head,
        differ,
        update_and_increment_refl q.head (q.next q.head.pointer).pointer,
        second,
        ne→== (get_or ns 0 0) 0 (k.nonnull 1 (omega (arith, k.sizes))),
        k.valued 0 (omega arith),
        k.head_at,
      )

  -- The first turn, with the tail still at the dummy.
  dequeue-helped :
      (fuel : ℕ)
      → k.last ≡ 0
      → dequeue (suc fuel) q
        ≡ dequeue fuel (record q {
          tail = record { pointer = get_or ns 0 0; counter = add64 q.tail.counter 1 };
        })
  unfolding dequeue
  dequeue-helped fuel at_dummy =
      let at_tail : q.head.pointer ≡ q.tail.pointer =
        k.head_at ∙ ap (λ i. get_or (dummy ∷ ns) i 0) {x = 0} (omega arith) ∙ sym k.tail_at in
      let same =
        equalchecker_eq q q.head.pointer q.tail.pointer
        ∙ eq→== q.head.pointer q.tail.pointer at_tail in
      rw (
        checkequals_refl q.head,
        same,
        update_and_increment_refl q.tail (q.next q.head.pointer).pointer,
        second,
        ne→== (get_or ns 0 0) 0 (k.nonnull 1 (omega (arith, k.sizes))),
      )

  taken-IsQueue : 0 < k.last → IsQueue taken ns vs
  unfolding taken
  taken-IsQueue pos = record {
    sizes = omega (arith, k.sizes);
    head_at = refl;
    last = k.last - 1;
    last-le = omega (arith, k.last-le);
    le-last = omega (arith, k.le-last);
    tail_at = k.tail_at ∙ ap (λ i. get_or (dummy ∷ ns) i 0) {y = suc (k.last - 1)} (omega arith);
    apart = λ i j a b h. omega (arith, k.apart (suc i) (suc j) (omega arith) (omega arith) h);
    nonnull = λ i lt. k.nonnull (suc i) (omega arith);
    is_live = λ i lt.
        if_ne dummy (get_or ns i 0) false (q.live (get_or ns i 0))
          (λ e. omega (arith, k.apart 0 (suc i) (omega arith) (omega arith) e))
        ∙ k.is_live (suc i) (omega arith);
    linked = λ i lt. k.linked (suc i) (omega arith);
    ended = k.ended;
    valued = λ i lt. k.valued (suc i) (omega arith);
  }

-- With fuel for two turns of the loop, `dequeue` on a queue with a value ends, also when the tail lags
-- behind: it returns the first value, the rest stays, and the old dummy is freed.
pub dequeue_lem :
    (fuel : ℕ) (q : Queue) (dummy v : ℕ) (ns vs : List ℕ)
    → IsQueue q (dummy ∷ ns) (v ∷ vs)
    → 1 < fuel
    → (q' : Queue) × (dequeue fuel q ≡ done (v, q')) × IsQueue q' ns vs × (q'.live dummy ≡ false)
unfolding taken IsQueue-helped
dequeue_lem zero q dummy v ns vs k lt = absurd (omega arith)
dequeue_lem (suc zero) q dummy v ns vs k lt = absurd (omega arith)
dequeue_lem (suc (suc fuel)) q dummy v ns vs k lt = elim (same_or_not k.last 0) [
  | inr g ↦ (
    taken q dummy v ns vs k,
    dequeue-turn q dummy v ns vs k (suc fuel) (ground arith),
    taken-IsQueue q dummy v ns vs k (ground arith),
    if_self dummy false (q.live dummy),
  )
  | inl e ↦
      let p : Pointer = record { pointer = get_or ns 0 0; counter = add64 q.tail.counter 1 } in
      let q2 : Queue = record q { tail = p } in
      let k2 =
        IsQueue-helped q (dummy ∷ ns) (v ∷ vs) p
          (ap (λ i. get_or ns i 0) (omega (arith, k.le-last))) k in
      (
        taken q2 dummy v ns vs k2,
        dequeue-helped q dummy v ns vs k (suc fuel) e
            ∙ dequeue-turn q2 dummy v ns vs k2 fuel (omega arith),
        taken-IsQueue q2 dummy v ns vs k2 (omega arith),
        if_self dummy false (q.live dummy),
      )
]
