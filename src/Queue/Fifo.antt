-- ===== src/Queue/Fifo.antt =====
-- The queue as a list of values.
use duke_operatingsystems.Queue.Ops.{
  checkequals, equalchecker, update_and_increment, Queue, cas, Pointer,
}
use duke_operatingsystems.Common.{
  ==→eq, Bool-cases, List, [], add64, ap, arith, eq→==, get_or, inl, inr, length, refl, suc, sym,
  true, zero, ℕ, ◌++◌, ◌<◌, ◌==◌, ◌∙◌, ◌∷◌, ◌≡◌, ◌≢◌, ◌≤◌,
}

-- The nodes from the dummy on are `ns`, and the values after it are `vs`; `tail` is the last node, or the
-- one before it.
pub record IsQueue (q : Queue) (ns vs : List ℕ) : Type 0 where
  pub sizes : length ns ≡ suc (length vs)
  pub head_at : q.head.pointer ≡ get_or ns 0 0
  pub last : ℕ
  pub last-le : last ≤ length vs
  pub le-last : length vs ≤ suc last
  pub tail_at : q.tail.pointer ≡ get_or ns last 0
  pub apart : (i j : ℕ) → i < length ns → j < length ns → get_or ns i 0 ≡ get_or ns j 0 → i ≡ j
  pub nonnull : (i : ℕ) → i < length ns → get_or ns i 0 ≢ 0
  pub is_live : (i : ℕ) → i < length ns → q.live (get_or ns i 0) ≡ true
  pub linked : (i : ℕ) → i < length vs → (q.next (get_or ns i 0)).pointer ≡ get_or ns (suc i) 0
  pub ended : (q.next (get_or ns (length vs) 0)).pointer ≡ 0
  pub valued : (i : ℕ) → i < length vs → q.value (get_or ns (suc i) 0) ≡ get_or vs i 0

pub checkequals_refl : (p : Pointer) → checkequals p p ≡ true
unfolding checkequals
checkequals_refl p = ground arith

equalchecker_refl : (q : Queue) (a : ℕ) → equalchecker q a a ≡ true
unfolding equalchecker
equalchecker_refl q a = ground (arith, checkequals_refl (q.next a))

pub equalchecker_eq : (q : Queue) (a b : ℕ) → equalchecker q a b ≡ (a == b)
unfolding equalchecker
equalchecker_eq q a b = elim (Bool-cases (a == b)) [
  | inl t ↦ ap (equalchecker q a) (sym (==→eq a b t)) ∙ equalchecker_refl q a ∙ sym t
  | inr f ↦ ground (arith, f)
]

pub update_and_increment_refl :
    (p : Pointer) (n : ℕ)
    → update_and_increment p p n ≡ (true, record { pointer = n; counter = add64 p.counter 1 })
unfolding update_and_increment cas
update_and_increment_refl p n = rw (eq→== p.pointer p.pointer refl, eq→== p.counter p.counter refl)

module _ {ℓ} {A : Type ℓ} where
  pub get_or-snoc :
      (xs : List A) (y : A) (i : ℕ) (d : A)
      → i < length xs
      → get_or (xs ++ (y ∷ [])) i d ≡ get_or xs i d
  get_or-snoc [] y i d lt = absurd (omega arith)
  get_or-snoc (x ∷ xs) y zero d lt = refl
  get_or-snoc (x ∷ xs) y (suc i) d lt = get_or-snoc xs y i d (omega arith)

  pub get_or-snoc_last :
      (xs : List A) (y : A) (i : ℕ) (d : A) → i ≡ length xs → get_or (xs ++ (y ∷ [])) i d ≡ y
  get_or-snoc_last [] y zero d e = refl
  get_or-snoc_last [] y (suc i) d e = absurd (omega arith)
  get_or-snoc_last (x ∷ xs) y zero d e = absurd (omega arith)
  get_or-snoc_last (x ∷ xs) y (suc i) d e = get_or-snoc_last xs y i d (omega arith)

-- The queue after a turn that moved the tail.
unfoldable pub IsQueue-helped :
    (q : Queue) (ns vs : List ℕ) (p : Pointer)
    → p.pointer ≡ get_or ns (length vs) 0
    → IsQueue q ns vs
    → IsQueue (record q { tail = p }) ns vs
IsQueue-helped q ns vs p at k = record {
  sizes = k.sizes;
  head_at = k.head_at;
  last = length vs;
  last-le = omega arith;
  le-last = omega arith;
  tail_at = at;
  apart = k.apart;
  nonnull = k.nonnull;
  is_live = k.is_live;
  linked = k.linked;
  ended = k.ended;
  valued = k.valued;
}
