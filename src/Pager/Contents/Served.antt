-- ===== src/Pager/Contents/Served.antt =====
-- A fault that the handler serves: the pager afterwards, and the memory that the pages show.
use duke_operatingsystems.Common.{
  Bool, Option, ap, arith, false, if_ne, if_self, if◌then◌else◌, inl, inr, ltb, lt→leb, none, not,
  refl, same_or_not, some, suc, sym, true, update, ℕ, ◌%◌, ◌*◌, ◌+◌, ◌-◌, ◌/◌, ◌<◌, ◌∙◌, ◌≡◌, ◌≤◌,
}
use mathlib.Core.Path.{subst}
use duke_operatingsystems.Pager.Handler.{
  Os, Pager, resumed, handler, counted, oldest, distance, is_outside, num_pages, replace, fill,
  unmap, take_slot, stackheap_mem_start, aged,
}
use duke_operatingsystems.Pager.Filling.{oldest-lt}
use duke_operatingsystems.Pager.Contents.{
  PageFiles, call_all, handler_calls, fill_calls, page_of, offset_of,
}
use duke_operatingsystems.Pager.Contents.Calls.{
  cleared, remapped, tail_calls-content, tail_calls-mapping, replace_calls-content,
  replace_calls-mapping,
}

-- What the operating system grants: pages of 4096 bytes, and calls that succeed.
pub record IsGranting (os : Os) : Type 0 where
  pub size : os.pagesiz ≡ 4096
  pub unmaps : (p : Option ℕ) → os.can_munmap p ≡ true
  pub maps : (p : ℕ) → os.can_mmap p ≡ true

-- The bytes of the region.
abbrev pub InRegion : Os → ℕ → Type 0
InRegion os a = (stackheap_mem_start ≤ a) × (a < stackheap_mem_start + num_pages * os.pagesiz)

-- The files back the memory m: a page that was never loaded shows its file with the last byte cleared.
pub record Backs (os : Os) (k : PageFiles os.pagesiz) (m : ℕ → ℕ) (s : Pager) (w : k.Files)
    : Type 0 where
  pub has_pages : 0 < s.max_pages
  pub mapping : (p : ℕ) → p < num_pages → k.mapping w p ≡ (if s.mapped p then some p else none)
  pub known : (p : ℕ) → p < num_pages → s.mapped p ≡ true → s.loadarr p ≡ true
  pub filling :
      (p : ℕ) → s.totcount < s.max_pages → p < num_pages → s.loadarr p ≡ true → s.mapped p ≡ true
  pub same :
      (a : ℕ)
      → InRegion os a
      → m a
        ≡ cleared os.pagesiz
            (not (s.loadarr (page_of os a)))
            (page_of os a)
            (k.content w)
            (page_of os a)
            (offset_of os a)

module _ (os : Os) (grants : IsGranting os) where
  pub region-distance : (a : ℕ) → InRegion os a → distance a ≡ a - stackheap_mem_start
  unfolding distance
  region-distance a (lo, hi) = omega (arith, lo, hi, grants.size, ap (λ n. 20 * n) grants.size)

  pub region-inside : (a : ℕ) → InRegion os a → is_outside os.pagesiz (distance a) ≡ false
  unfolding is_outside
  region-inside a (lo, hi) = ground (arith, lo, hi, grants.size, region-distance a (lo, hi))

  pub region-page : (a : ℕ) → InRegion os a → page_of os a < num_pages
  region-page a (lo, hi) =
      subst (λ n. a < stackheap_mem_start + 20 * n → (a - stackheap_mem_start) / n < 20)
        (sym grants.size) (λ h. omega (arith, lo, h)) hi

  pub region_same :
      (a b : ℕ)
      → InRegion os a
      → InRegion os b
      → page_of os a ≡ page_of os b
      → offset_of os a ≡ offset_of os b
      → a ≡ b
  region_same a b (lo, _) (lo', _) =
      subst
        (λ n.
          (a - stackheap_mem_start) / n ≡ (b - stackheap_mem_start) / n
          → (a - stackheap_mem_start) % n ≡ (b - stackheap_mem_start) % n
          → a ≡ b)
        (sym grants.size) (λ h g. omega (arith, lo, lo', h, g))

-- The mapping and the pager's own record of it go together.
abbrev shown : Bool → ℕ → Option ℕ
shown b q = if b then some q else none

entered_lem :
    (page q : ℕ) (f : ℕ → Option ℕ) (mapped : ℕ → Bool) (b : Bool)
    → f q ≡ shown (mapped q) q
    → update f page (shown b page) q ≡ shown (update mapped page b q) q
entered_lem page q f mapped b h = elim (same_or_not page q) [
  | inl e ↦
      subst (λ r. update f page (shown b page) r ≡ shown (update mapped page b r) r) e
        (if_self page (shown b page) (f page)
          ∙ ap (λ c. shown c page) (sym (if_self page b (mapped page))))
  | inr ne ↦
      if_ne page q (shown b page) (f q) ne
      ∙ h
      ∙ ap (λ c. shown c q) (sym (if_ne page q b (mapped q) ne))
]

pub remapped_lem :
    (v : Option ℕ) (page q : ℕ) (f : ℕ → Option ℕ) (mapped : ℕ → Bool)
    → f q ≡ (if mapped q then some q else none)
    → remapped v page f q ≡ (if update (unmap v mapped) page true q then some q else none)
unfolding unmap
remapped_lem none page q f mapped h = entered_lem page q f mapped true h
remapped_lem (some v) page q f mapped h =
    entered_lem page q (update f v none) (update mapped v false) true
      (entered_lem v q f mapped false h)

-- The pager after a fault on `page`.
pub record IsAfter (os : Os) (address page : ℕ) (v : Option ℕ) (s s' : Pager) : Type 0 where
  pub run : handler os address s ≡ resumed address page v s'
  pub totcount : s'.totcount ≡ suc s.totcount
  pub max_pages : s'.max_pages ≡ s.max_pages
  pub loadarr : s'.loadarr ≡ update s.loadarr page true
  pub mapped : s'.mapped ≡ update (unmap v s.mapped) page true

module _ (os : Os) (grants : IsGranting os) (address page : ℕ) (s : Pager)
    (inside : is_outside os.pagesiz (distance address) ≡ false)
    (at : distance address / os.pagesiz ≡ page) (lt : page < num_pages) where
  pub fill-IsAfter :
      ltb s.max_pages (suc s.totcount) ≡ false → (s' : Pager) × IsAfter os address page none s s'
  unfolding handler counted fill unmap
  fill-IsAfter room =
      let r = take_slot s.max_pages 0 page s.namearr in
      (
        record {
          totcount = suc s.totcount;
          max_pages = s.max_pages;
          lifearr = update (aged s.max_pages s.lifearr) r.1 0;
          namearr = r.0;
          loadarr = update s.loadarr page true;
          fdarr = update s.fdarr page (os.open_page page);
          mapped = update s.mapped page true;
        },
        record {
          run = rw (inside, room, at, lt→leb num_pages page lt, grants.maps page) refl;
          totcount = refl;
          max_pages = refl;
          loadarr = refl;
          mapped = refl;
        },
      )

  pub replace-IsAfter :
      0 < s.max_pages
      → ltb s.max_pages (suc s.totcount) ≡ true
      → (s' : Pager) × IsAfter os address page
          (s.namearr (oldest (counted s).lifearr s.max_pages 0 0 0))
          s
          s'
  unfolding handler counted replace unmap
  replace-IsAfter pos full =
      let life = aged s.max_pages s.lifearr in
      let slot = oldest life s.max_pages 0 0 0 in
      (
        record {
          totcount = suc s.totcount;
          max_pages = s.max_pages;
          lifearr = update life slot 0;
          namearr = update s.namearr slot (some page);
          loadarr = update s.loadarr page true;
          fdarr = if s.loadarr page then s.fdarr else update s.fdarr page (os.open_page page);
          mapped = update (unmap (s.namearr slot) s.mapped) page true;
        },
        record {
          run =
              rw
                (
                  inside,
                  full,
                  at,
                  lt→leb s.max_pages slot
                      (oldest-lt life s.max_pages 0 0 0 s.max_pages pos (omega arith)),
                  grants.unmaps (s.namearr slot),
                  lt→leb num_pages page lt,
                  grants.maps page,
                )
                refl;
          totcount = refl;
          max_pages = refl;
          loadarr = refl;
          mapped = refl;
        },
      )

-- What the calls of a served fault leave: the page is cleared when it is new, and mapped.
pub record IsServing (os : Os) (k : PageFiles os.pagesiz) (address page : ℕ) (v : Option ℕ)
    (s : Pager) (w : k.Files) : Type 0 where
  pub content :
      (g i : ℕ)
      → k.content (call_all k (handler_calls os address s) w) g i
        ≡ cleared os.pagesiz (not (s.loadarr page)) page (k.content w) g i
  pub mapping :
      (q : ℕ)
      → k.mapping (call_all k (handler_calls os address s) w) q ≡ remapped v page (k.mapping w) q

module _ (os : Os) (k : PageFiles os.pagesiz) (grants : IsGranting os) (address page : ℕ)
    (s : Pager) (w : k.Files) (inside : is_outside os.pagesiz (distance address) ≡ false)
    (at : distance address / os.pagesiz ≡ page) where
  pub fill-IsServing :
      ltb s.max_pages (suc s.totcount) ≡ false
      → s.loadarr page ≡ false
      → IsServing os k address page none s w
  unfolding handler_calls counted fill_calls
  fill-IsServing room new = record {
    content = λ g i. rw (inside, room, at, new) (tail_calls-content k page false w g i);
    mapping = λ q. rw (inside, room, at) (tail_calls-mapping k page false w q);
  }

  pub replace-IsServing :
      ltb s.max_pages (suc s.totcount) ≡ true
      → IsServing os k address page (s.namearr (oldest (counted s).lifearr s.max_pages 0 0 0)) s w
  unfolding handler_calls counted
  replace-IsServing full = record {
    content = λ g i.
        rw (inside, full, at)
          (replace_calls-content os k grants.unmaps grants.maps page (counted s) w g i);
    mapping = λ q.
        rw (inside, full, at)
          (replace_calls-mapping os k grants.unmaps grants.maps page (counted s) w q);
  }
