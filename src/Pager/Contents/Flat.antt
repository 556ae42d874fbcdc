-- ===== src/Pager/Contents/Flat.antt =====
-- A program on the paged region and the same program on flat memory.
use duke_operatingsystems.Common.{
  Bool, Option, ap, arith, if_ne, if_self, if◌then◌else◌, inl, inr, ne→==, none, not, refl,
  same_or_not, some, suc, sym, true, ℕ, ◌&&◌, ◌-◌, ◌<◌, ◌==◌, ◌∙◌, ◌≡◌, ◌≢◌,
}
use mathlib.Core.Path.{subst}
use duke_operatingsystems.Pager.Handler.{Os, Pager, num_pages, unmap}
use duke_operatingsystems.Pager.Contents.{PageFiles, call_all, handler_calls, page_of, offset_of}
use duke_operatingsystems.Pager.Contents.Calls.{cleared}
use duke_operatingsystems.Pager.Contents.Served.{InRegion, Backs, remapped_lem, IsAfter, IsServing}

unmap-true : (v : Option ℕ) (mapped : ℕ → Bool) (q : ℕ) → unmap v mapped q ≡ true → mapped q ≡ true
unfolding unmap
unmap-true none mapped q h = h
unmap-true (some v) mapped q h = ground (arith, h)

unmap-none : (mapped : ℕ → Bool) (q : ℕ) → unmap none mapped q ≡ mapped q
unfolding unmap
unmap-none mapped q = refl

pub cleared_old :
    (pagesiz page : ℕ) (c : ℕ → ℕ → ℕ) (g i : ℕ) (b : Bool)
    → b ≡ true
    → cleared pagesiz (not b) page c g i ≡ c g i
cleared_old pagesiz page c g i b h = ground (arith, h)

cleared_other :
    (pagesiz page : ℕ) (c : ℕ → ℕ → ℕ) (g i : ℕ) (new : Bool)
    → page ≢ g
    → cleared pagesiz new page c g i ≡ c g i
cleared_other pagesiz page c g i new ne = ground (arith, ne→== page g ne)

module _ (os : Os) (k : PageFiles os.pagesiz) (m : ℕ → ℕ) (s s' : Pager) (w : k.Files)
    (address page : ℕ) (v : Option ℕ) (after : IsAfter os address page v s s')
    (serving : IsServing os k address page v s w) (b : Backs os k m s w) (lt : page < num_pages)
    (slack : suc s.totcount < s.max_pages → v ≡ none) where
  loaded_self : (p : ℕ) → page ≡ p → s'.loadarr p ≡ true
  loaded_self p e =
      ap (λ (f : ℕ → Bool). f p) after.loadarr
      ∙ ap (λ q. if q == p then true else s.loadarr p) e
      ∙ if_self p true (s.loadarr p)

  loaded_other : (p : ℕ) → page ≢ p → s'.loadarr p ≡ s.loadarr p
  loaded_other p ne = ap (λ (f : ℕ → Bool). f p) after.loadarr ∙ if_ne page p true (s.loadarr p) ne

  mapped_self : (p : ℕ) → page ≡ p → s'.mapped p ≡ true
  mapped_self p e =
      ap (λ (f : ℕ → Bool). f p) after.mapped
      ∙ ap (λ q. if q == p then true else unmap v s.mapped p) e
      ∙ if_self p true (unmap v s.mapped p)

  mapped_other : (p : ℕ) → page ≢ p → s'.mapped p ≡ unmap v s.mapped p
  mapped_other p ne =
      ap (λ (f : ℕ → Bool). f p) after.mapped ∙ if_ne page p true (unmap v s.mapped p) ne

  Backs-same :
      (a : ℕ)
      → InRegion os a
      → m a
        ≡ cleared os.pagesiz
            (not (s'.loadarr (page_of os a)))
            (page_of os a)
            (k.content (call_all k (handler_calls os address s) w))
            (page_of os a)
            (offset_of os a)
  Backs-same a r =
      let p = page_of os a in
      let i = offset_of os a in
      let c' = k.content (call_all k (handler_calls os address s) w) in
      elim (same_or_not page p) [
        | inl e ↦
            b.same a r
            ∙ sym (
                subst (λ q. c' p i ≡ cleared os.pagesiz (not (s.loadarr q)) q (k.content w) p i) e
                  (serving.content p i))
            ∙ sym (cleared_old os.pagesiz p c' p i (s'.loadarr p) (loaded_self p e))
        | inr ne ↦
            b.same a r
            ∙ ap (λ x. if not (s.loadarr p) && (p == p) && (os.pagesiz - 1 == i) then 0 else x)
                (sym (
                  serving.content p i
                  ∙ cleared_other os.pagesiz page (k.content w) p i (not (s.loadarr page)) ne))
            ∙ ap (λ x. cleared os.pagesiz (not x) p c' p i) (sym (loaded_other p ne))
      ]

  pub Backs-fault : Backs os k m s' (call_all k (handler_calls os address s) w)
  Backs-fault = record {
    has_pages = omega (arith, b.has_pages, after.max_pages);
    mapping = λ p plt.
        serving.mapping p
        ∙ remapped_lem v page p (k.mapping w) s.mapped (b.mapping p plt)
        ∙ ap (λ (f : ℕ → Bool). if f p then some p else none) (sym after.mapped);
    known = λ p plt h. elim (same_or_not page p) [
      | inl e ↦ loaded_self p e
      | inr ne ↦
          loaded_other p ne ∙ b.known p plt (unmap-true v s.mapped p (sym (mapped_other p ne) ∙ h))
    ];
    filling = λ p room plt h. elim (same_or_not page p) [
      | inl e ↦ mapped_self p e
      | inr ne ↦
          let more : suc s.totcount < s.max_pages =
            omega (arith, room, after.totcount, after.max_pages) in
          mapped_other p ne
          ∙ ap (λ x. unmap x s.mapped p) (slack more)
          ∙ unmap-none s.mapped p
          ∙ b.filling p (omega (arith, more)) plt (sym (loaded_other p ne) ∙ h)
    ];
    same = Backs-same;
  }
