-- ===== src/Queue/Ops.antt =====
-- AtomicInstructions/queue.c: `cas`, `update_and_increment`, the comparisons, `initialize`, `enqueue`,
-- `dequeue` and `destroy`, as one thread runs them with no other in between. A node is an address, 0 for
-- NULL, and malloc's result is an argument; a value is the 32 bits of an int.
use duke_operatingsystems.Common.{
  Bool, add64, false, if◌then◌else◌, not, suc, true, update, zero, ℕ, ◌&&◌, ◌-◌, ◌==◌, ◌^◌, ◌||◌,
}

-- pointer_t
pub record Pointer : Type 0 where
  pub pointer : ℕ
  pub counter : ℕ

-- queue_t and the nodes in memory; `live` are the allocated ones.
pub record Queue : Type 0 where
  pub head : Pointer
  pub tail : Pointer
  pub value : ℕ → ℕ
  pub next : ℕ → Pointer
  pub live : ℕ → Bool

-- A loop on fuel, whose body may fail an assertion.
pub data Run (A : Type 0) : Type 0 where
  out_of_fuel : Run A
  failed : Run A
  done : A → Run A

abbrev pub dequeue_fail : ℕ
dequeue_fail = 2 ^ 32 - 99

-- cas on the word that holds src: whether it was swapped, and the new word.
unfoldable pub cas : (src expected value : Pointer) → Bool × Pointer
cas src expected value =
    if (src.pointer == expected.pointer) && (src.counter == expected.counter)
    then (true, value)
    else (false, src)

unfoldable pub update_and_increment : (src old_value : Pointer) → (new_pointer : ℕ) → Bool × Pointer
update_and_increment src old_value new_pointer =
    cas src old_value record { pointer = new_pointer; counter = add64 old_value.counter 1 }

unfoldable pub checkequals : Pointer → Pointer → Bool
checkequals alpha bravo =
    if (alpha.pointer == 0) && (bravo.pointer == 0)
    then true
    else (if (alpha.pointer == 0) || (bravo.pointer == 0)
        then false
        else (if not (alpha.counter == bravo.counter)
            then false
            else (if not (alpha.pointer == bravo.pointer) then false else true)))

unfoldable pub equalchecker : Queue → ℕ → ℕ → Bool
equalchecker q alpha bravo =
    if (alpha == 0) && (bravo == 0)
    then true
    else (if (alpha == 0) || (bravo == 0)
        then false
        else (if not (alpha == bravo)
            then false
            else (if not (q.value alpha == q.value bravo)
                then false
                else checkequals (q.next alpha) (q.next bravo))))

-- A fresh node: its value, a NULL `next.pointer`, and the counter that malloc's memory has.
unfoldable pub with_node : ℕ → ℕ → Queue → Queue
with_node node value q = record q {
  value = update q.value node value;
  next = update q.next node record { pointer = 0; counter = (q.next node).counter };
  live = update q.live node true;
}

unfoldable pub initialize : ℕ → Queue → Queue
initialize node q = record q {
  head = record { pointer = node; counter = 0 };
  tail = record { pointer = node; counter = 0 };
  next = update q.next node record { pointer = 0; counter = 0 };
  live = update q.live node true;
}

-- The loop of `enqueue`: the queue with the node linked, and the local `tail`.
unfoldable pub enqueue_loop : ℕ → ℕ → Queue → Run (Queue × Pointer)
enqueue_loop zero node q = out_of_fuel
enqueue_loop (suc fuel) node q =
    let tail = q.tail in
    let next = q.next tail.pointer in
    let again = enqueue_loop fuel node q in
    let (linked, word) = update_and_increment (q.next tail.pointer) next node in
    let helped =
      enqueue_loop fuel node
        (record q { tail = (update_and_increment q.tail tail next.pointer).1 }) in
    if tail.pointer == 0
    then failed
    else (if not (checkequals tail q.tail)
        then again
        else (if next.pointer == 0
            then (if linked
                then done (record q { next = update q.next tail.pointer word }, tail)
                else again)
            else helped))

unfoldable pub enqueue : (fuel node value : ℕ) → Queue → Run Queue
enqueue fuel node value q =
    if node == 0 then failed else (elim (enqueue_loop fuel node (with_node node value q)) [
      | out_of_fuel ↦ out_of_fuel
      | failed ↦ failed
      | done r ↦ done (record r.0 { tail = (update_and_increment r.0.tail r.1 node).1 })
    ])

unfoldable pub dequeue : ℕ → Queue → Run (ℕ × Queue)
dequeue zero q = out_of_fuel
dequeue (suc fuel) q =
    let dummy_head = q.head in
    let tail = q.tail in
    let next = q.next dummy_head.pointer in
    let again = dequeue fuel q in
    let helped =
      dequeue fuel (record q { tail = (update_and_increment q.tail tail next.pointer).1 }) in
    let (moved, head') = update_and_increment q.head dummy_head next.pointer in
    if not (checkequals dummy_head q.head)
    then again
    else (if equalchecker q dummy_head.pointer tail.pointer
        then (if next.pointer == 0 then done (dequeue_fail, q) else helped)
        else (if next.pointer == 0
            then again
            else (if moved
                then done (
                  q.value next.pointer,
                  record q { head = head'; live = update q.live dummy_head.pointer false },
                )
                else again)))

unfoldable pub destroy : ℕ → Queue → Run Queue
destroy zero q = out_of_fuel
destroy (suc fuel) q =
    let to_free = q.head.pointer in
    let rest =
      destroy fuel (record q { head = q.next to_free; live = update q.live to_free false }) in
    if to_free == 0 then done q else rest
