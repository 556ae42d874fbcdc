-- ===== src/Pager/Residents.antt =====
-- How the mapped pages follow the queue.
use duke_operatingsystems.Pager.Fifo.{Resident, take, length-take, get_or-take}
use duke_operatingsystems.Common.{
  ==→eq, Bool, Bool-cases, List, arith, false, get_or, if_intro, if_ne, if_self, inl, inr, length,
  refl, suc, sym, true, update, zero, ℕ, ◌<◌, ◌==◌, ◌∙◌, ◌∷◌, ◌≡◌, ◌≢◌, ap,
}

Resident-page :
    (mapped : ℕ → Bool) (pages : List ℕ) (page : ℕ)
    → Resident mapped pages
    → mapped page ≡ false
    → (j : ℕ) → j < length pages
    → get_or pages j 0 ≢ page
Resident-page mapped pages page r fresh j lt h =
    absurd (ground (arith, r.is_mapped j lt, ap mapped h, fresh))

module _ (mapped : ℕ → Bool) (pages : List ℕ) (r : Resident mapped pages) where
  module _ (page : ℕ) (fresh : mapped page ≡ false) where
    apart_page :
        (i j : ℕ)
        → i < suc (length pages)
        → j < suc (length pages)
        → get_or (page ∷ pages) i 0 ≡ get_or (page ∷ pages) j 0
        → i ≡ j
    apart_page zero zero a b h = refl
    apart_page zero (suc j) a b h =
        absurd (Resident-page mapped pages page r fresh j (omega arith) (sym h))
    apart_page (suc i) zero a b h =
        absurd (Resident-page mapped pages page r fresh i (omega arith) h)
    apart_page (suc i) (suc j) a b h = ap suc (r.apart i j (omega arith) (omega arith) h)

    mapped_page :
        (j : ℕ)
        → j < suc (length pages)
        → update mapped page true (get_or (page ∷ pages) j 0) ≡ true
    mapped_page zero lt = if_self page true (mapped page)
    mapped_page (suc j) lt =
        if_intro (λ b. b ≡ true) (page == get_or pages j 0) (λ e. refl)
          (λ e. r.is_mapped j (omega arith))

    pub Resident-push : Resident (update mapped page true) (page ∷ pages)
    Resident-push = record {
      apart = apart_page;
      is_mapped = mapped_page;
      is_listed = λ p h. elim (Bool-cases (page == p)) [
        | inl t ↦ (0, omega arith, ==→eq page p t)
        | inr f ↦ (let (j, lt, e) = r.is_listed p (ground arith) in (suc j, omega arith, e))
      ];
    }

  module _ (n : ℕ) (full : length pages ≡ suc n) where
    pub Resident-take : Resident (update mapped (get_or pages n 0) false) (take n pages)
    Resident-take =
        let len = length-take n pages (omega arith) in
        let at : (j : ℕ) → j < n → get_or (take n pages) j 0 ≡ get_or pages j 0 =
          λ j lt. get_or-take n pages j 0 lt in
        record {
          apart = λ i j a b h.
              r.apart i j (omega (arith, len)) (omega (arith, len))
                (sym (at i (omega (arith, len))) ∙ h ∙ at j (omega (arith, len)));
          is_mapped = λ j lt.
              ap (update mapped (get_or pages n 0) false) (at j (omega (arith, len)))
              ∙ if_ne (get_or pages n 0) (get_or pages j 0) false (mapped (get_or pages j 0))
                  (λ h. omega (arith, len, r.apart n j (omega arith) (omega (arith, len)) h))
              ∙ r.is_mapped j (omega (arith, len));
          is_listed = λ p h. elim (Bool-cases (get_or pages n 0 == p)) [
            | inl t ↦ absurd (ground (arith, h, t))
            | inr f ↦
                let (j, lt, e) = r.is_listed p (ground (arith, h)) in
                let ne : j ≢ n = λ q. absurd (ground (arith, ap (λ i. get_or pages i 0) q, e)) in
                (j, ground arith, at j (ground arith) ∙ e)
          ];
        }
