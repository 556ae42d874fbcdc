-- ===== src/Queue/Threads/Swings.antt =====
-- The compare-and-swaps of the tail and of the head.
use duke_operatingsystems.Queue.Threads.Stable.{Grows, Grows-refl}
use duke_operatingsystems.Queue.Threads.Ghost.{values, Ghost, IsShared, contents, IsLink}
use duke_operatingsystems.Common.{
  Bool, Bool-cases, [], add64, arith, false, inl, inr, refl, sym, true, zero, ℕ, ◌&&◌, ◌++◌, ◌+◌,
  ◌-◌, ◌<◌, ◌==◌, ◌∙◌, ◌∷◌, ◌≡◌, ◌≤◌, ◌⊎◌, suc, ap,
}
use duke_operatingsystems.Queue.Ops.{Queue, Pointer, update_and_increment, cas}

pub update_and_increment-cases :
    (src old : Pointer) (new : ℕ)
    → ((src.pointer ≡ old.pointer)
        × (update_and_increment src old new
            ≡ (true, record { pointer = new; counter = add64 old.counter 1 })))
      ⊎ (update_and_increment src old new ≡ (false, src))
unfolding update_and_increment cas
update_and_increment-cases src old new =
    elim (Bool-cases ((src.pointer == old.pointer) && (src.counter == old.counter))) [
      | inl t ↦ inl (ground (arith, t), rw t refl)
      | inr f ↦ inr (rw f refl)
    ]

pub values-same :
    (value value' at at' : ℕ → ℕ) (i n : ℕ)
    → ((j : ℕ) → i < j → j ≤ i + n → value' (at' j) ≡ value (at j))
    → values value' at' i n ≡ values value at i n
values-same value value' at at' i zero same = refl
values-same value value' at at' i (suc n) same =
    ap (λ x. x ∷ values value' at' (suc i) n) (same (suc i) (omega arith) (omega arith))
    ∙ ap (λ l. value (at (suc i)) ∷ l)
        (values-same value value' at at' (suc i) n (λ j lt le. same j (omega arith) (omega arith)))

pub values-snoc :
    (value at : ℕ → ℕ) (i n : ℕ)
    → values value at i (suc n) ≡ values value at i n ++ (value (at (suc (i + n))) ∷ [])
values-snoc value at i zero = ap (λ j. value (at (suc j)) ∷ []) (omega arith)
values-snoc value at i (suc n) =
    ap (λ l. value (at (suc i)) ∷ l)
      (values-snoc value at (suc i) n
        ∙ ap (λ j. values value at (suc i) n ++ (value (at (suc j)) ∷ [])) (omega arith))

module _ (q : Queue) (handed : ℕ → Bool) (g : Ghost) (s : IsShared q handed g) where
  -- A swap of the tail from a node to the one behind it, whether it succeeds or not.
  pub tail_swing :
      (tail : Pointer) (node : ℕ)
      → IsLink q g tail node
      → let q' = record q { tail = (update_and_increment q.tail tail node).1 } in
        (x : ℕ) × Grows q q' g (record g { tail = x }) × IsShared q' handed (record g { tail = x })
  tail_swing tail node (i, a, b, c, d) = elim (update_and_increment-cases q.tail tail node) [
    | inr e ↦ (g.tail, rw e (Grows-refl q g), rw e s)
    | inl (same, e) ↦
        let now : g.tail ≡ i =
          s.apart g.tail i s.tail-last (omega arith) (sym s.tail_at ∙ same ∙ b) in
        (
          suc i,
          rw e (record {
            last-le = omega arith;
            head-le = omega arith;
            tail-le = omega (arith, now);
            same_at = λ j le. refl;
            same_next = λ j lt. refl;
            same_value = λ j le. refl;
          }),
          rw e (record {
            head_at = s.head_at;
            tail_at = d;
            head-tail = omega (arith, now, s.head-tail);
            tail-last = omega arith;
            apart = s.apart;
            nonnull = s.nonnull;
            known = s.known;
            linked = s.linked;
            ended = s.ended;
          }),
        )
  ]

  -- A successful swap of the head: it takes the first value.
  module _ (head next : Pointer) (v i : ℕ) (b : head.pointer ≡ g.at i) (lt : i < g.tail)
      (d : next.pointer ≡ g.at (suc i)) (f : v ≡ q.value (g.at (suc i)))
      (same : q.head.pointer ≡ head.pointer) (word : Pointer)
      (at_next : word.pointer ≡ next.pointer) where
    head_is : g.head ≡ i
    head_is =
        s.apart g.head i (omega (arith, s.head-tail, s.tail-last)) (omega (arith, s.tail-last))
          (sym s.head_at ∙ same ∙ b)

    pub head_swing-Grows : Grows q (record q { head = word }) g (record g { head = suc i })
    head_swing-Grows = record {
      last-le = omega arith;
      head-le = omega (arith, head_is);
      tail-le = omega arith;
      same_at = λ j le. refl;
      same_next = λ j l. refl;
      same_value = λ j le. refl;
    }

    pub head_swing-IsShared : IsShared (record q { head = word }) handed (record g { head = suc i })
    head_swing-IsShared = record {
      head_at = at_next ∙ d;
      tail_at = s.tail_at;
      head-tail = omega arith;
      tail-last = s.tail-last;
      apart = s.apart;
      nonnull = s.nonnull;
      known = s.known;
      linked = s.linked;
      ended = s.ended;
    }

    pub head_swing-contents :
        contents q g ≡ v ∷ contents (record q { head = word }) (record g { head = suc i })
    head_swing-contents =
        ap (λ h. values q.value g.at h (g.last - h)) head_is
        ∙ ap (values q.value g.at i) {y = suc (g.last - suc i)} (omega (arith, s.tail-last))
        ∙ ap (λ x. x ∷ values q.value g.at (suc i) (g.last - suc i)) (sym f)
