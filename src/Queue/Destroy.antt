-- ===== src/Queue/Destroy.antt =====
-- `initialize` and `destroy`.
use duke_operatingsystems.Common.{
  zero, Bool, List, [], arith, eq→==, false, get_or, if_intro, if_self, inl, inr, length, ne→==,
  refl, same_or_not, sym, true, update, ◌==◌, ◌∙◌, ◌∷◌, ◌≡◌, ◌≢◌, ℕ, ◌<◌, ◌<◌, ◌≤◌, ◌<◌, ap, suc,
}
use duke_operatingsystems.Queue.Fifo.{IsQueue}
use duke_operatingsystems.Queue.Ops.{Queue, done, initialize, destroy}

-- `initialize` on a node that malloc returned gives an empty queue.
pub initialize_lem : (node : ℕ) (q : Queue) → node ≢ 0 → IsQueue (initialize node q) (node ∷ []) []
unfolding initialize
initialize_lem node q ne = record {
  sizes = refl;
  head_at = refl;
  last = 0;
  last-le = omega arith;
  le-last = omega arith;
  tail_at = refl;
  apart = λ i j a b h. omega arith;
  nonnull = λ i lt. rw (ap (λ m. get_or (node ∷ []) m 0) {x = i} {y = 0} (omega arith)) ne;
  is_live = λ i lt.
      ap (initialize node q).live (ap (λ m. get_or (node ∷ []) m 0) {x = i} {y = 0} (omega arith))
      ∙ if_self node true (q.live node);
  linked = λ i lt. absurd (omega arith);
  ended = ap (λ p. p.pointer) (if_self node record { pointer = 0; counter = 0 } (q.next node));
  valued = λ i lt. absurd (omega arith);
}

all_freed :
    (live : ℕ → Bool) (n : ℕ) (ns : List ℕ)
    → live n ≡ false
    → ((i : ℕ) → i < length ns → live (get_or ns i 0) ≡ false)
    → (i : ℕ) → i < suc (length ns)
    → live (get_or (n ∷ ns) i 0) ≡ false
all_freed live n ns first rest zero lt = first
all_freed live n ns first rest (suc i) lt = rest i (omega arith)

destroy_rest :
    (fuel : ℕ) (q : Queue) (ns : List ℕ)
    → length ns < fuel
    → q.head.pointer ≡ get_or ns 0 0
    → ((i : ℕ) → i < length ns → get_or ns i 0 ≢ 0)
    → ((i : ℕ) → i < length ns → (q.next (get_or ns i 0)).pointer ≡ get_or ns (suc i) 0)
    → (q' : Queue) × (destroy fuel q ≡ done q')
      × (q'.head.pointer ≡ 0)
      × ((i : ℕ) → i < length ns → q'.live (get_or ns i 0) ≡ false)
      × ((a : ℕ) → q.live a ≡ false → q'.live a ≡ false)
unfolding destroy
destroy_rest zero q ns lt at nonnull linked = absurd (omega arith)
destroy_rest (suc fuel) q [] lt at nonnull linked =
    (q, rw (eq→== q.head.pointer 0 at), at, λ i l. absurd (omega arith), λ a h. h)
destroy_rest (suc fuel) q (n ∷ ns) lt at nonnull linked =
    let q2 : Queue = record q {
      head = q.next q.head.pointer;
      live = update q.live q.head.pointer false;
    } in
    let (q', run, ended, freed, kept) =
      destroy_rest fuel q2 ns (omega arith)
        (ap (λ a. (q.next a).pointer) at ∙ linked 0 (omega arith))
        (λ i l. nonnull (suc i) (omega arith)) (λ i l. linked (suc i) (omega arith)) in
    (
      q',
      rw (ne→== q.head.pointer 0 (λ e. nonnull 0 (omega arith) (sym at ∙ e))) run,
      ended,
      all_freed (λ a. q'.live a) n ns
          (ap (λ a. q'.live a) (sym at)
            ∙ kept q.head.pointer (if_self q.head.pointer false (q.live q.head.pointer)))
          freed,
      λ a h. kept a (if_intro (λ b. b ≡ false) (q.head.pointer == a) (λ e. refl) (λ e. h)),
    )

get_or-beyond : (ns : List ℕ) (i : ℕ) → length ns ≤ i → get_or ns i 0 ≡ 0
get_or-beyond [] i le = refl
get_or-beyond (n ∷ ns) zero le = absurd (omega arith)
get_or-beyond (n ∷ ns) (suc i) le = get_or-beyond ns i (omega arith)

-- With fuel for its nodes, `destroy` ends with a NULL head and has freed every node of the queue.
pub destroy_lem :
    (fuel : ℕ) (q : Queue) (ns vs : List ℕ)
    → IsQueue q ns vs
    → length ns < fuel
    → (q' : Queue) × (destroy fuel q ≡ done q')
      × (q'.head.pointer ≡ 0)
      × ((i : ℕ) → i < length ns → q'.live (get_or ns i 0) ≡ false)
destroy_lem fuel q ns vs k lt =
    let (q', run, ended, freed, kept) = destroy_rest fuel q ns lt k.head_at k.nonnull (λ i l.
      elim (same_or_not i (length vs)) [
        | inl e ↦
            ap (λ m. (q.next (get_or ns m 0)).pointer) e
            ∙ k.ended
            ∙ sym (get_or-beyond ns (suc i) (omega (arith, k.sizes)))
        | inr g ↦ k.linked i (ground (arith, k.sizes))
      ]) in
    (q', run, ended, freed)
