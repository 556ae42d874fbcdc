-- ===== src/Queue/Tests.antt =====
-- The queue on concrete nodes.
use duke_operatingsystems.Queue.Threads.Raised.{Raised}
use duke_operatingsystems.Queue.Threads.Counters.{
  AnyReaches, any_begin, any_then, any_turns, any_enqueues,
}
use duke_operatingsystems.Queue.Threads.Linear.{QueueReaches-fifo}
use duke_operatingsystems.Queue.Threads.Ghost.{Ghost}
use duke_operatingsystems.Queue.Threads.{
  initialized, World, turned, QueueReaches, then_step, called_dequeue, turn, called_enqueue, begin,
  dequeues, turns, compare_nodes, is_outside_call, enqueues, d_free,
}
use duke_operatingsystems.Queue.Enqueue.{enqueue_lem}
use duke_operatingsystems.Queue.Linked.{IsNewNode}
use duke_operatingsystems.Queue.Dequeue.{dequeue_lem}
use duke_operatingsystems.Queue.Destroy.{destroy_lem}
use duke_operatingsystems.Queue.Ops.{
  Queue, dequeue, done, initialize, enqueue, destroy, with_node, update_and_increment, cas,
  equalchecker, checkequals,
}
use duke_operatingsystems.Queue.Fifo.{IsQueue}
use duke_operatingsystems.Common.{
  List, [], arith, false, get_or, if◌then◌else◌, refl, suc, true, zero, ℕ, ◌++◌, ◌<◌, ◌==◌, ◌∷◌,
  ◌≡◌, ◌≢◌,
}

abbrev no_nodes : Queue
no_nodes = record {
  head = record { pointer = 0; counter = 0 };
  tail = record { pointer = 0; counter = 0 };
  value = λ a. 0;
  next = λ a. record { pointer = 0; counter = 7 };
  live = λ a. false;
}

-- One value, 42, at node 32, with the tail still at the dummy 16.
abbrev lagging : Queue
lagging = record {
  head = record { pointer = 16; counter = 3 };
  tail = record { pointer = 16; counter = 4 };
  value = λ a. if a == 32 then 42 else 0;
  next = λ a.
      if a == 16 then record { pointer = 32; counter = 1 } else record { pointer = 0; counter = 0 };
  live = λ a. true;
}

abbrev two_nodes : List ℕ
two_nodes = 16 ∷ 32 ∷ []

lagging-IsQueue : IsQueue lagging (16 ∷ 32 ∷ []) (42 ∷ [])
lagging-IsQueue = record {
  sizes = refl;
  head_at = refl;
  last = 0;
  last-le = omega arith;
  le-last = omega arith;
  tail_at = refl;
  apart = λ i j a b h. apart i j a b h;
  nonnull = λ i lt. nonnull i lt;
  is_live = λ i lt. refl;
  linked = λ i lt. rw (zero_of i lt) refl;
  ended = refl;
  valued = λ i lt. rw (zero_of i lt) refl;
}
  where
    zero_of : (i : ℕ) → i < 1 → i ≡ 0
    zero_of i lt = omega arith

    apart : (i j : ℕ) → i < 2 → j < 2 → get_or two_nodes i 0 ≡ get_or two_nodes j 0 → i ≡ j
    apart zero zero a b h = refl
    apart zero (suc zero) a b h = absurd (omega (arith, h))
    apart (suc zero) zero a b h = absurd (omega (arith, h))
    apart (suc zero) (suc zero) a b h = refl
    apart (suc (suc i)) j a b h = absurd (omega arith)
    apart i (suc (suc j)) a b h = absurd (omega arith)

    nonnull : (i : ℕ) → i < 2 → get_or two_nodes i 0 ≢ 0
    nonnull zero lt e = absurd (omega (arith, e))
    nonnull (suc zero) lt e = absurd (omega (arith, e))
    nonnull (suc (suc i)) lt e = absurd (omega arith)

forty_eight-IsNewNode : IsNewNode 48 (16 ∷ 32 ∷ [])
forty_eight-IsNewNode = record { is_node = λ e. absurd (omega (arith, e)); unused = unused }
  where
    unused : (i : ℕ) → i < 2 → get_or two_nodes i 0 ≢ 48
    unused zero lt e = absurd (omega (arith, e))
    unused (suc zero) lt e = absurd (omega (arith, e))
    unused (suc (suc i)) lt e = absurd (omega arith)

enqueue_lem_example :
    (q' : Queue) × (enqueue 2 48 43 lagging ≡ done q')
    × IsQueue q' ((16 ∷ 32 ∷ []) ++ (48 ∷ [])) ((42 ∷ []) ++ (43 ∷ []))
enqueue_lem_example =
    enqueue_lem 2 48 43 lagging (16 ∷ 32 ∷ []) (42 ∷ []) lagging-IsQueue forty_eight-IsNewNode
      (omega arith)

dequeue_lem_example :
    (q' : Queue) × (dequeue 2 lagging ≡ done (42, q'))
    × IsQueue q' (32 ∷ []) []
    × (q'.live 16 ≡ false)
dequeue_lem_example = dequeue_lem 2 lagging 16 42 (32 ∷ []) [] lagging-IsQueue (omega arith)

destroy_lem_example :
    (q' : Queue) × (destroy 3 lagging ≡ done q')
    × (q'.head.pointer ≡ 0)
    × ((i : ℕ) → i < 2 → q'.live (get_or two_nodes i 0) ≡ false)
destroy_lem_example = destroy_lem 3 lagging (16 ∷ 32 ∷ []) (42 ∷ []) lagging-IsQueue (omega arith)

-- Thread 0 enqueues 42, then thread 1 dequeues.
abbrev new_world : World
new_world = initialized 16 no_nodes

abbrev run_on : {w : World} (t : ℕ) → QueueReaches new_world w → QueueReaches new_world (turned t w)
run_on {w} t r = then_step w (turned t w) r (turns t refl)

abbrev calling : World
calling = called_enqueue 0 32 42 new_world

abbrev linking : World
linking = turned 0 (turned 0 (turned 0 calling))

enqueue_called : QueueReaches new_world calling
unfolding initialized
enqueue_called =
    then_step new_world calling begin
      (enqueues 0 32 42 refl (λ e. absurd (omega (arith, e))) refl refl)

linking_reached : QueueReaches new_world linking
linking_reached = run_on 0 (run_on 0 (run_on 0 enqueue_called))

sixteen : ◌≢◌ {A = ℕ} 16 0
sixteen e = absurd (omega (arith, e))

abbrev linking_ghost : Ghost
linking_ghost = (QueueReaches-fifo 16 no_nodes linking sixteen linking_reached).0

abbrev enqueued : World
enqueued = turned 0 (turned 0 linking)

abbrev dequeuing : World
dequeuing = called_dequeue 1 enqueued

abbrev taken : World
taken = turned 1 (turned 1 (turned 1 (turned 1 (turned 1 (turned 1 (turned 1 dequeuing))))))

abbrev enqueued_reached : QueueReaches new_world enqueued
enqueued_reached = run_on 0 (run_on 0 linking_reached)

enqueued-outside : is_outside_call (enqueued.pc 1) ≡ true
unfolding turned turn initialized called_enqueue with_node initialize
enqueued-outside = refl

abbrev taken_reached : QueueReaches new_world taken
taken_reached = run_on 1 (
    run_on 1 (
      run_on 1 (
        run_on 1 (
          run_on 1 (
            run_on 1 (
              run_on 1 (
                then_step enqueued dequeuing enqueued_reached
                  (dequeues 1 enqueued-outside refl))))))))

taken_at : taken.pc 1 ≡ d_free record { pointer = 16; counter = 0 } 42
unfolding turned turn initialized called_enqueue called_dequeue with_node initialize compare_nodes
    update_and_increment cas equalchecker checkequals
taken_at = refl

-- A thread that is about to swap the head, from where the queue still has its first node.
abbrev taking : World
taking = turned 1 (turned 1 (turned 1 (turned 1 (turned 1 (turned 1 dequeuing)))))

freed-outside : is_outside_call ((turned 1 (turned 1 taking)).pc 0) ≡ true
unfolding turned turn initialized called_enqueue called_dequeue with_node initialize
    update_and_increment cas checkequals compare_nodes
freed-outside = refl

-- The swap, the free of the first node, and a call of enqueue that gets its address again.
abbrev recycled_reached : AnyReaches taking (called_enqueue 0 16 8 (turned 1 (turned 1 taking)))
recycled_reached =
    any_then (turned 1 (turned 1 taking)) (called_enqueue 0 16 8 (turned 1 (turned 1 taking)))
      (any_then (turned 1 taking) (turned 1 (turned 1 taking))
        (any_then taking (turned 1 taking) any_begin (any_turns 1 refl)) (any_turns 1 refl))
      (any_enqueues 0 16 8 freed-outside refl)
