-- ===== src/Pager/Refines.antt =====
-- The handler keeps the queue.
use duke_operatingsystems.Pager.Residents.{Resident-push, Resident-take}
use duke_operatingsystems.Pager.Slots.{entered, IsEntered-Slots, Slots-IsKept-take, Slots-IsKept}
use duke_operatingsystems.Pager.Filling.{aged-below, take_slot-first, oldest-max}
use duke_operatingsystems.Pager.Fifo.{Keeps, take, length-take, loaded, victim, take-all}
use duke_operatingsystems.Pager.Slots.{IsEntered}
use duke_operatingsystems.Pager.Handler.{
  Os, aged, Pager, is_outside, replace, fill, distance, counted, num_pages, unmap, is_free, resumed,
  oldest, handler,
}
use duke_operatingsystems.Common.{
  Bool, List, Option, ap, arith, false, get_or, if_intro, if_ne, if_self, if◌then◌else◌, length,
  none, refl, some, suc, sym, true, update, ℕ, ◌/◌, ◌<◌, ◌==◌, ◌∙◌, ◌∷◌, ◌≡◌, ◌≤◌, lt→leb,
  Bool-cases, ltb, inl, inr, ◌-◌, le→ltb, lt→ltb,
}

-- A page that the pager can serve: the address lies in the region, and the system calls succeed.
pub record IsServed (os : Os) (s : Pager) (address : ℕ) : Type 0 where
  pub inside : is_outside os.pagesiz (distance address) ≡ false
  pub page_lt : distance address / os.pagesiz < num_pages
  pub missing : s.mapped (distance address / os.pagesiz) ≡ false
  pub unmaps : (p : Option ℕ) → os.can_munmap p ≡ true
  pub maps : (p : ℕ) → os.can_mmap p ≡ true

IsEntered-aged :
    (m n v page : ℕ) (life : ℕ → ℕ) (name : ℕ → Option ℕ)
    → n ≤ m
    → IsEntered n v page life (update (aged m life) v 0) name (update name v (some page))
IsEntered-aged m n v page life name le = record {
  newest = if_self v 0 (aged m life v);
  older =
      λ i lt ne. if_ne v i 0 (aged m life i) (λ e. ne (sym e)) ∙ aged-below m life i (omega arith);
  holds = if_self v (some page) (name v);
  same = λ i ne. if_ne v i (some page) (name i) (λ e. ne (sym e));
}

-- The pager after `page` has entered slot v.
abbrev served : Os → (v page : ℕ) → (fd : ℕ → ℕ) → (ℕ → Bool) → Pager → Pager
served os v page fd mapped s = record {
  totcount = suc s.totcount;
  max_pages = s.max_pages;
  lifearr = update (aged s.max_pages s.lifearr) v 0;
  namearr = update s.namearr v (some page);
  loadarr = update s.loadarr page true;
  fdarr = fd;
  mapped = update mapped page true;
}

module _ (os : Os) (address page : ℕ) (pages : List ℕ) (s : Pager) (k : Keeps s pages) where
  fill_lem :
      page < num_pages
      → os.can_mmap page ≡ true
      → s.mapped page ≡ false
      → length pages < s.max_pages
      → (s' : Pager) × (fill os address page (counted s) ≡ resumed address page none s')
        × Keeps s' (page ∷ pages)
        × (s'.max_pages ≡ s.max_pages)
  unfolding fill counted is_free
  fill_lem small maps fresh lt =
      let n = length pages in
      let found =
        take_slot-first s.max_pages 0 page n s.namearr (omega arith) (omega arith)
          (λ i le below. ap is_free (k.slots.named i below))
          (ap is_free (k.free n (omega arith) lt)) in
      let next = served os n page (update s.fdarr page (os.open_page page)) s.mapped s in
      (
        next,
        rw (found, maps, lt→leb num_pages page small) refl,
        record {
          fits = omega arith;
          filling = λ more. omega (arith, k.filling lt);
          full = λ e. omega (arith, k.filling lt);
          free = λ i le below.
              if_ne n i (some page) (s.namearr i) (λ e. omega (arith, e))
              ∙ k.free i (omega arith) below;
          slot = entered n k.slot;
          slots =
              IsEntered-Slots s.lifearr next.lifearr s.namearr next.namearr k.slot n page pages
                (Slots-IsKept s.lifearr s.namearr k.slot pages k.slots)
                (IsEntered-aged s.max_pages (suc n) n page s.lifearr s.namearr (omega arith));
          resident = Resident-push s.mapped pages k.resident page fresh;
        },
        refl,
      )

  replace_lem :
      (n : ℕ)
      → length pages ≡ suc n
      → s.max_pages ≡ suc n
      → page < num_pages
      → ((p : Option ℕ) → os.can_munmap p ≡ true)
      → os.can_mmap page ≡ true
      → s.mapped page ≡ false
      → (s' : Pager) × (replace os address page (counted s)
          ≡ resumed address page (some (get_or pages n 0)) s')
        × Keeps s' (page ∷ take n pages)
        × (s'.max_pages ≡ s.max_pages)
  unfolding replace counted unmap
  replace_lem n len max small unmaps maps fresh =
      let v = k.slot n in
      let rest = take n pages in
      let rest_len = length-take n pages (omega arith) in
      let kept = Slots-IsKept-take s.lifearr s.namearr k.slot n pages len k.slots in
      let life = aged s.max_pages s.lifearr in
      let v_lt = k.slots.slot-lt n (omega arith) in
      let v_life : s.lifearr v ≡ n = k.slots.life-slot n (omega arith) in
      let found : oldest life s.max_pages 0 0 0 ≡ v =
        oldest-max life s.max_pages 0 0 0 v (omega arith) (omega arith)
          (omega (arith, aged-below s.max_pages s.lifearr v (omega arith)))
          (λ i le lt ne. omega (
            arith,
            rest_len,
            v_life,
            aged-below s.max_pages s.lifearr i (omega arith),
            aged-below s.max_pages s.lifearr v (omega arith),
            kept.life-lt i (omega (arith, rest_len)) ne,
          )) in
      let name : s.namearr v ≡ some (get_or pages n 0) =
        k.slots.named v v_lt ∙ ap (λ i. some (get_or pages i 0)) v_life in
      let gone = update s.mapped (get_or pages n 0) false in
      let next =
        served os v page
          (if s.loadarr page then s.fdarr else update s.fdarr page (os.open_page page)) gone s in
      (
        next,
        rw
            (
              found,
              lt→leb s.max_pages v (omega arith),
              name,
              unmaps (some (get_or pages n 0)),
              maps,
              lt→leb num_pages page small,
            )
            refl,
        record {
          fits = omega (arith, rest_len);
          filling = λ more. absurd (omega (arith, rest_len));
          full = λ e. omega (arith, k.full (omega arith));
          free = λ i le below. absurd (omega (arith, rest_len));
          slot = entered v k.slot;
          slots =
              IsEntered-Slots s.lifearr next.lifearr s.namearr next.namearr k.slot v page rest kept
                (IsEntered-aged s.max_pages (suc (length rest)) v page s.lifearr s.namearr
                  (omega (arith, rest_len)));
          resident =
              Resident-push gone rest (Resident-take s.mapped pages k.resident n len) page
                (if_intro (λ b. b ≡ false) (get_or pages n 0 == page) (λ e. refl) (λ e. fresh));
        },
        refl,
      )

-- A fault on a missing page of the region, with system calls that succeed, is served: the page is
-- mapped, a full memory gives up the page loaded first and only that one, the callback reports both, and
-- the pager keeps the new queue.
pub handler-loaded :
    (os : Os) (address : ℕ) (s : Pager) (pages : List ℕ)
    → Keeps s pages
    → 0 < s.max_pages
    → IsServed os s address
    → (s' : Pager) × (handler os address s
        ≡ resumed address (distance address / os.pagesiz) (victim s.max_pages pages) s')
      × Keeps s' (loaded s.max_pages (distance address / os.pagesiz) pages)
      × (s'.max_pages ≡ s.max_pages)
unfolding handler loaded victim
handler-loaded os address s pages k pos v = elim (Bool-cases (ltb (length pages) s.max_pages)) [
  | inl t ↦
      let (s', run, keeps, same) =
        fill_lem os address (distance address / os.pagesiz) pages s k v.page_lt
          (v.maps (distance address / os.pagesiz)) v.missing (ground arith) in
      (
        s',
        rw (v.inside, t, le→ltb s.max_pages (suc s.totcount) (ground (arith, k.filling))) run,
        rw (take-all s.max_pages (distance address / os.pagesiz ∷ pages) (ground arith)) keeps,
        same,
      )
  | inr f ↦
      let n = s.max_pages - 1 in
      let queue : loaded s.max_pages (distance address / os.pagesiz) pages
          ≡ (distance address / os.pagesiz) ∷ take n pages =
        ap (λ m. take m (distance address / os.pagesiz ∷ pages)) {y = suc n} (omega arith) in
      let (s', run, keeps, same) =
        replace_lem os address (distance address / os.pagesiz) pages s k n (ground (arith, k.fits))
          (omega arith) v.page_lt v.unmaps (v.maps (distance address / os.pagesiz)) v.missing in
      (
        s',
        rw (v.inside, f, lt→ltb s.max_pages (suc s.totcount) (ground (arith, k.full, k.fits))) run,
        rw queue keeps,
        same,
      )
]
