-- ===== src/Pager/Slots.antt =====
-- How the slots follow the queue: a page enters a free slot, or the slot of the oldest page.
use duke_operatingsystems.Pager.Fifo.{Slots, take, length-take, get_or-take}
use duke_operatingsystems.Common.{
  List, Option, ap, arith, get_or, inl, inr, length, some, suc, sym, zero, ℕ, ◌<◌, ◌∙◌, ◌∷◌, ◌≡◌,
  ◌≢◌, same_or_not,
}

-- The slots of the positions after a page has entered slot v.
abbrev pub entered : ℕ → (ℕ → ℕ) → ℕ → ℕ
entered v slot zero = v
entered v slot (suc j) = slot j

-- The slots other than v hold the pages that stay.
pub record IsKept (v : ℕ) (life : ℕ → ℕ) (name : ℕ → Option ℕ) (rest : List ℕ) (slot : ℕ → ℕ)
    : Type 0 where
  pub v-lt : v < suc (length rest)
  pub slot-lt : (j : ℕ) → j < length rest → slot j < suc (length rest)
  pub slot-ne : (j : ℕ) → j < length rest → slot j ≢ v
  pub life-lt : (i : ℕ) → i < suc (length rest) → i ≢ v → life i < length rest
  pub life-slot : (j : ℕ) → j < length rest → life (slot j) ≡ j
  pub slot-life : (i : ℕ) → i < suc (length rest) → i ≢ v → slot (life i) ≡ i
  pub named : (i : ℕ) → i < suc (length rest) → i ≢ v → name i ≡ some (get_or rest (life i) 0)

-- The lives and names after `page` has entered slot v.
pub record IsEntered (n v page : ℕ) (life life' : ℕ → ℕ) (name name' : ℕ → Option ℕ) : Type 0 where
  pub newest : life' v ≡ 0
  pub older : (i : ℕ) → i < n → i ≢ v → life' i ≡ suc (life i)
  pub holds : name' v ≡ some page
  pub same : (i : ℕ) → i ≢ v → name' i ≡ name i

module _ (life life' : ℕ → ℕ) (name name' : ℕ → Option ℕ) (slot : ℕ → ℕ) (v page : ℕ)
    (rest : List ℕ) (k : IsKept v life name rest slot)
    (e : IsEntered (suc (length rest)) v page life life' name name') where
  entered-lt : (j : ℕ) → j < suc (length rest) → entered v slot j < suc (length rest)
  entered-lt zero lt = k.v-lt
  entered-lt (suc j) lt = k.slot-lt j (omega arith)

  life-entered : (j : ℕ) → j < suc (length rest) → life' (entered v slot j) ≡ j
  life-entered zero lt = e.newest
  life-entered (suc j) lt =
      e.older (slot j) (k.slot-lt j (omega arith)) (k.slot-ne j (omega arith))
      ∙ ap suc (k.life-slot j (omega arith))

  pub IsEntered-Slots : Slots life' name' (page ∷ rest) (entered v slot)
  IsEntered-Slots = record {
    slot-lt = entered-lt;
    life-lt = λ i lt. elim (same_or_not i v) [
      | inl h ↦ omega (arith, ap life' h, e.newest)
      | inr h ↦ omega (arith, e.older i lt h, k.life-lt i lt h)
    ];
    life-slot = life-entered;
    slot-life = λ i lt. elim (same_or_not i v) [
      | inl h ↦ ap (entered v slot) (ap life' h ∙ e.newest) ∙ sym h
      | inr h ↦ ap (entered v slot) (e.older i lt h) ∙ k.slot-life i lt h
    ];
    named = λ i lt. elim (same_or_not i v) [
      | inl h ↦
          ap name' h
          ∙ e.holds
          ∙ ap (λ j. some (get_or (page ∷ rest) j 0)) (sym (ap life' h ∙ e.newest))
      | inr h ↦
          e.same i h
          ∙ k.named i lt h
          ∙ ap (λ j. some (get_or (page ∷ rest) j 0)) (sym (e.older i lt h))
    ];
  }

module _ (life : ℕ → ℕ) (name : ℕ → Option ℕ) (slot : ℕ → ℕ) where
  -- A free slot is taken: all pages stay.
  pub Slots-IsKept :
      (pages : List ℕ) → Slots life name pages slot → IsKept (length pages) life name pages slot
  Slots-IsKept pages s = record {
    v-lt = omega arith;
    slot-lt = λ j lt. omega (arith, s.slot-lt j lt);
    slot-ne = λ j lt h. omega (arith, s.slot-lt j lt, h);
    life-lt = λ i lt ne. s.life-lt i (ground arith);
    life-slot = s.life-slot;
    slot-life = λ i lt ne. s.slot-life i (ground arith);
    named = λ i lt ne. s.named i (ground arith);
  }

  -- The slot of the page loaded first is taken.
  pub Slots-IsKept-take :
      (n : ℕ) (pages : List ℕ)
      → length pages ≡ suc n
      → Slots life name pages slot
      → IsKept (slot n) life name (take n pages) slot
  Slots-IsKept-take n pages full s =
      let len = length-take n pages (omega arith) in
      let small : (i : ℕ) → i < suc n → i ≢ slot n → life i < n = λ i lt ne.
        elim (same_or_not (life i) n) [
          | inl h ↦ absurd (ne (sym (s.slot-life i (omega arith)) ∙ ap slot h))
          | inr h ↦ ground (arith, s.life-lt i (omega arith))
        ] in
      record {
        v-lt = omega (arith, len, s.slot-lt n (omega arith));
        slot-lt = λ j lt. omega (arith, len, s.slot-lt j (omega (arith, len)));
        slot-ne = λ j lt h. omega (
          arith,
          len,
          ap life h,
          s.life-slot j (omega (arith, len)),
          s.life-slot n (omega arith),
        );
        life-lt = λ i lt ne. omega (arith, len, small i (omega (arith, len)) ne);
        life-slot = λ j lt. s.life-slot j (omega (arith, len));
        slot-life = λ i lt ne. s.slot-life i (omega (arith, len));
        named = λ i lt ne.
            s.named i (omega (arith, len))
            ∙ ap some (sym (get_or-take n pages (life i) 0 (small i (omega (arith, len)) ne)));
      }
