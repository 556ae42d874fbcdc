-- ===== src/Queue/Threads/Ghost.antt =====
-- What the threads' variables mean: the nodes that were ever linked, in order, and where they point.
use duke_operatingsystems.Queue.Threads.{
  Local, e_loop, e_tail, e_next, e_link, e_help, e_swing, d_head, d_tail, d_next, d_same, d_alpha,
  d_help, d_value, d_swing, d_free, returned, idle, d_loop, aborted,
}
use duke_operatingsystems.Common.{
  Bool, List, [], true, ◌∷◌, ◌≡◌, ◌≢◌, ◌⊎◌, ℕ, ◌≤◌, ◌-◌, ◌<◌, suc, zero, false,
}
use duke_operatingsystems.Queue.Ops.{Queue, Pointer}

-- `at i` is the i-th node that was linked, the dummy of `initialize` the 0-th; the queue's head and tail
-- point at the nodes of these numbers.
pub record Ghost : Type 0 where
  pub at : ℕ → ℕ
  pub last : ℕ
  pub head : ℕ
  pub tail : ℕ

pub record IsShared (q : Queue) (handed : ℕ → Bool) (g : Ghost) : Type 0 where
  pub head_at : q.head.pointer ≡ g.at g.head
  pub tail_at : q.tail.pointer ≡ g.at g.tail
  pub head-tail : g.head ≤ g.tail
  pub tail-last : g.tail ≤ g.last
  pub apart : (i j : ℕ) → i ≤ g.last → j ≤ g.last → g.at i ≡ g.at j → i ≡ j
  pub nonnull : (i : ℕ) → i ≤ g.last → g.at i ≢ 0
  pub known : (i : ℕ) → i ≤ g.last → handed (g.at i) ≡ true
  pub linked : (i : ℕ) → i < g.last → (q.next (g.at i)).pointer ≡ g.at (suc i)
  pub ended : (q.next (g.at g.last)).pointer ≡ 0

-- The values from number i + 1 on, n of them.
abbrev pub values : (ℕ → ℕ) → (ℕ → ℕ) → (i n : ℕ) → List ℕ
values value at i zero = []
values value at i (suc n) = value (at (suc i)) ∷ values value at (suc i) n

-- The queue that a client sees.
abbrev pub contents : Queue → Ghost → List ℕ
contents q g = values q.value g.at g.head (g.last - g.head)

-- A pointer that was read as the next one of node i: NULL, or what the node holds for good.
abbrev pub IsNext : Queue → Ghost → ℕ → Pointer → Type 0
IsNext q g i next = (next.pointer ≡ 0) ⊎ ((i < g.last) × (next ≡ q.next (g.at i)))

abbrev pub IsTail : Queue → Ghost → Pointer → Type 0
IsTail q g tail = (i : ℕ) × (i ≤ g.tail) × (tail.pointer ≡ g.at i)

-- The tail and the node behind it.
abbrev pub IsLink : Queue → Ghost → Pointer → ℕ → Type 0
IsLink q g tail node =
    (i : ℕ) × (i ≤ g.tail) × (tail.pointer ≡ g.at i) × (i < g.last) × (node ≡ g.at (suc i))

-- The head, and a tail read after it.
abbrev pub IsPair : Queue → Ghost → (head tail : Pointer) → ℕ → ℕ → Type 0
IsPair q g head tail i j =
    (i ≤ g.head) × (head.pointer ≡ g.at i) × (i ≤ j) × (j ≤ g.tail) × (tail.pointer ≡ g.at j)

-- What a thread knows of the shared nodes.
abbrev pub Knows : Queue → Ghost → Local → Type 0
Knows q g idle = Unit
Knows q g (e_loop node v) = Unit
Knows q g (e_tail node v tail) = IsTail q g tail
Knows q g (e_next node v tail next) =
    (i : ℕ) × (i ≤ g.tail) × (tail.pointer ≡ g.at i) × IsNext q g i next
Knows q g (e_link node v tail next) = IsTail q g tail × (next.pointer ≡ 0)
Knows q g (e_help node v tail next) = IsLink q g tail next.pointer
Knows q g (e_swing node v tail) = IsLink q g tail node
Knows q g d_loop = Unit
Knows q g (d_head head) = (i : ℕ) × (i ≤ g.head) × (head.pointer ≡ g.at i)
Knows q g (d_tail head tail) = (i : ℕ) × (j : ℕ) × IsPair q g head tail i j
Knows q g (d_next head tail next) = (i : ℕ) × (j : ℕ) × IsPair q g head tail i j × IsNext q g i next
Knows q g (d_same head tail next) = (i : ℕ) × (j : ℕ) × IsPair q g head tail i j × IsNext q g i next
Knows q g (d_alpha head tail next alpha_next) =
    (i : ℕ) × (i ≤ g.head)
    × (head.pointer ≡ g.at i)
    × (tail.pointer ≡ g.at i)
    × IsNext q g i next
    × ((next.pointer ≡ 0) ⊎ (alpha_next ≡ next))
Knows q g (d_help tail next) = IsLink q g tail next.pointer
Knows q g (d_value head next) =
    (i : ℕ) × (i ≤ g.head)
    × (head.pointer ≡ g.at i)
    × ((next.pointer ≡ 0) ⊎ ((i < g.tail) × (next.pointer ≡ g.at (suc i))))
Knows q g (d_swing head next v) =
    (i : ℕ) × (i ≤ g.head)
    × (head.pointer ≡ g.at i)
    × (i < g.tail)
    × (next.pointer ≡ g.at (suc i))
    × (v ≡ q.value (g.at (suc i)))
Knows q g (d_free head v) = Unit
Knows q g (returned v) = Unit
Knows q g aborted = ⊥

-- Whether a thread has a node that it has not linked yet, the node, and the value in it.
abbrev pub owns : Local → Bool
owns (e_loop node v) = true
owns (e_tail node v tail) = true
owns (e_next node v tail next) = true
owns (e_link node v tail next) = true
owns (e_help node v tail next) = true
owns p = false

abbrev pub owned : Local → ℕ
owned (e_loop node v) = node
owned (e_tail node v tail) = node
owned (e_next node v tail next) = node
owned (e_link node v tail next) = node
owned (e_help node v tail next) = node
owned p = 0

abbrev pub value_of : Local → ℕ
value_of (e_loop node v) = v
value_of (e_tail node v tail) = v
value_of (e_next node v tail next) = v
value_of (e_link node v tail next) = v
value_of (e_help node v tail next) = v
value_of p = 0

pub record IsPrivate (q : Queue) (handed : ℕ → Bool) (g : Ghost) (node v : ℕ) : Type 0 where
  pub nonzero : node ≢ 0
  pub given : handed node ≡ true
  pub outside : (i : ℕ) → i ≤ g.last → g.at i ≢ node
  pub has_value : q.value node ≡ v
  pub is_end : (q.next node).pointer ≡ 0
