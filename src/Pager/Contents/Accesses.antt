-- ===== src/Pager/Contents/Accesses.antt =====
-- A program on the paged region and the same program on flat memory: its accesses.
use duke_operatingsystems.Common.{
  Bool, Bool-cases, Option, ap, arith, eq→==, false, if_ne, if_self, if◌then◌else◌, inl, inr, ltb,
  ne→==, none, not, refl, same_or_not, some, suc, sym, true, update, ℕ, ◌&&◌, ◌-◌, ◌/◌, ◌<◌, ◌==◌,
  ◌∙◌, ◌≡◌, ◌≢◌,
}
use mathlib.Core.Path.{subst}
use duke_operatingsystems.Pager.Handler.{
  Os, Pager, resumed, handler, counted, oldest, distance, num_pages, unmap,
}
use duke_operatingsystems.Pager.Contents.{
  PageFiles, call_all, handler_calls, page_of, offset_of, Access, reads, writes, address_of,
  performed, access,
}
use duke_operatingsystems.Pager.Contents.Calls.{cleared}
use duke_operatingsystems.Pager.Contents.Flat.{Backs-fault, cleared_old}
use duke_operatingsystems.Pager.Contents.Served.{
  IsGranting, InRegion, Backs, region-distance, region-inside, region-page, region_same,
  fill-IsAfter, replace-IsAfter, fill-IsServing, replace-IsServing,
}

-- One access on flat memory.
abbrev pub flat_value : Access → (ℕ → ℕ) → ℕ
flat_value (reads a) m = m a
flat_value (writes a v) m = 0

abbrev pub flat_next : Access → (ℕ → ℕ) → ℕ → ℕ
flat_next (reads a) m = m
flat_next (writes a v) m = update m a v

module _ (os : Os) (k : PageFiles os.pagesiz) (grants : IsGranting os) where
  -- A fault is served.
  fault_lem :
      (m : ℕ → ℕ) (s : Pager) (w : k.Files) (a : ℕ)
      → Backs os k m s w
      → InRegion os a
      → s.mapped (page_of os a) ≡ false
      → (v : Option ℕ) × (s' : Pager) × (handler os a s ≡ resumed a (page_of os a) v s')
        × (s'.mapped (page_of os a) ≡ true)
        × Backs os k m s' (call_all k (handler_calls os a s) w)
  fault_lem m s w a b r missing =
      let p = page_of os a in
      let inside = region-inside os grants a r in
      let at : distance a / os.pagesiz ≡ p =
        ap (λ d. d / os.pagesiz) (region-distance os grants a r) in
      let lt = region-page os grants a r in
      elim (Bool-cases (ltb s.max_pages (suc s.totcount))) [
        | inl full ↦
            let v = s.namearr (oldest (counted s).lifearr s.max_pages 0 0 0) in
            let (s', after) = replace-IsAfter os grants a p s inside at lt b.has_pages full in
            let serving = replace-IsServing os k grants a p s w inside at full in
            (
              v,
              s',
              after.run,
              ap (λ (f : ℕ → Bool). f p) after.mapped ∙ if_self p true (unmap v s.mapped p),
              Backs-fault os k m s s' w a p v after serving b lt
                  (λ more. absurd (ground (arith, full, more))),
            )
        | inr room ↦
            let (s', after) = fill-IsAfter os grants a p s inside at lt room in
            let new : s.loadarr p ≡ false = elim (Bool-cases (s.loadarr p)) [
              | inl t ↦ absurd (ground (arith, missing, b.filling p (ground (arith, room)) lt t))
              | inr f ↦ f
            ] in
            let serving = fill-IsServing os k grants a p s w inside at room new in
            (
              none,
              s',
              after.run,
              ap (λ (f : ℕ → Bool). f p) after.mapped ∙ if_self p true (unmap none s.mapped p),
              Backs-fault os k m s s' w a p none after serving b lt (λ more. refl),
            )
      ]

  mapping_lem :
      (m : ℕ → ℕ) (s : Pager) (w : k.Files) (p : ℕ)
      → Backs os k m s w
      → p < num_pages
      → s.mapped p ≡ true
      → k.mapping w p ≡ some p
  mapping_lem m s w p b lt h = b.mapping p lt ∙ ap (λ c. if c then some p else none) h

  stored :
      (m : ℕ → ℕ) (s : Pager) (w : k.Files) (a v : ℕ)
      → Backs os k m s w
      → InRegion os a
      → s.loadarr (page_of os a) ≡ true
      → k.mapping w (page_of os a) ≡ some (page_of os a)
      → (c : ℕ) → InRegion os c
      → update m a v c
        ≡ cleared os.pagesiz
            (not (s.loadarr (page_of os c)))
            (page_of os c)
            (k.content (k.store w (page_of os a) (offset_of os a) v))
            (page_of os c)
            (offset_of os c)
  stored m s w a v b r old here c cr =
      let p = page_of os a in
      let i = offset_of os a in
      let q = page_of os c in
      let j = offset_of os c in
      let c' = k.content (k.store w p i v) in
      let law = k.store-content w p p i v q j here in
      let other : ((p == q) && (i == j)) ≡ false
          → a ≢ c
          → update m a v c ≡ cleared os.pagesiz (not (s.loadarr q)) q c' q j =
        λ f ne.
          if_ne a c v (m c) ne
          ∙ b.same c cr
          ∙ ap (λ x. if not (s.loadarr q) && (q == q) && (os.pagesiz - 1 == j) then 0 else x)
              (sym (law ∙ ap (λ t. if t then v else k.content w q j) f)) in
      elim (same_or_not p q) [
        | inr ne ↦ other (ground (arith, ne→== p q ne)) (λ e. ne (ap (page_of os) e))
        | inl e ↦ (elim (same_or_not i j) [
          | inr ne ↦ other (ground (arith, ne→== i j ne)) (λ f. ne (ap (offset_of os) f))
          | inl f ↦
              ap (update m a v) (sym (region_same os grants a c r cr e f))
              ∙ if_self a v (m a)
              ∙ sym (
                  law
                  ∙ ap (λ t. if t then v else k.content w q j) {y = true}
                      (ground (arith, eq→== p q e, eq→== i j f)))
              ∙ sym (
                  cleared_old os.pagesiz q c' q j (s.loadarr q)
                    (subst (λ x. s.loadarr x ≡ true) e old))
        ])
      ]

  -- An access to a page that is mapped.
  performed_lem :
      (m : ℕ → ℕ) (s : Pager) (w : k.Files) (a : Access)
      → Backs os k m s w
      → InRegion os (address_of a)
      → s.mapped (page_of os (address_of a)) ≡ true
      → ((performed os k a w).0 ≡ flat_value a m)
        × Backs os k (flat_next a m) s (performed os k a w).1
  unfolding performed
  performed_lem m s w (reads a) b r h =
      let p = page_of os a in
      let lt = region-page os grants a r in
      (
        k.load-content w p p (offset_of os a) (mapping_lem m s w p b lt h)
            ∙ sym (
                b.same a r
                ∙ cleared_old os.pagesiz p (k.content w) p (offset_of os a) (s.loadarr p)
                    (b.known p lt h)),
        b,
      )
  performed_lem m s w (writes a v) b r h =
      let p = page_of os a in
      let i = offset_of os a in
      let lt = region-page os grants a r in
      let here = mapping_lem m s w p b lt h in
      (
        refl,
        record {
          has_pages = b.has_pages;
          mapping = λ q qlt. k.store-mapping w p i v q ∙ b.mapping q qlt;
          known = b.known;
          filling = b.filling;
          same = stored m s w a v b r (b.known p lt h) here;
        },
      )

  hit_lem :
      (fuel : ℕ) (m : ℕ → ℕ) (s : Pager) (w : k.Files) (a : Access)
      → Backs os k m s w
      → InRegion os (address_of a)
      → s.mapped (page_of os (address_of a)) ≡ true
      → access os k (suc fuel) a s w ≡ some ((performed os k a w).0, s, (performed os k a w).1)
  unfolding access
  hit_lem fuel m s w a b r h =
      rw
        (
          access,
          mapping_lem m s w (page_of os (address_of a)) b (region-page os grants (address_of a) r)
              h,
        )
        refl

  pub access_lem :
      (m : ℕ → ℕ) (s : Pager) (w : k.Files) (a : Access)
      → Backs os k m s w
      → InRegion os (address_of a)
      → (s' : Pager) × (w' : k.Files) × (access os k 2 a s w ≡ some (flat_value a m, s', w'))
        × Backs os k (flat_next a m) s' w'
  unfolding access
  access_lem m s w a b r =
      let p = page_of os (address_of a) in
      elim (Bool-cases (s.mapped p)) [
        | inl h ↦
            let (value, b') = performed_lem m s w a b r h in
            (
              s,
              (performed os k a w).1,
              hit_lem 1 m s w a b r h ∙ ap (λ x. some (x, s, (performed os k a w).1)) value,
              b',
            )
        | inr missing ↦
            let (v, s', run, h, b') = fault_lem m s w (address_of a) b r missing in
            let w' = call_all k (handler_calls os (address_of a) s) w in
            let (value, b2) = performed_lem m s' w' a b' r h in
            let fault =
              b.mapping p (region-page os grants (address_of a) r)
              ∙ ap (λ c. if c then some p else none) missing in
            (
              s',
              (performed os k a w').1,
              rw (access, fault, run)
                  (hit_lem 0 m s' w' a b' r h
                    ∙ ap (λ x. some (x, s', (performed os k a w').1)) value),
              b2,
            )
      ]
