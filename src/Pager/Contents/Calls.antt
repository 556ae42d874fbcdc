-- ===== src/Pager/Contents/Calls.antt =====
-- What the calls of the handler do to the files and to the mapping of the pages.
use duke_operatingsystems.Common.{
  Bool, List, Option, [], ap, false, if◌then◌else◌, none, not, refl, some, true, update, ℕ, ◌&&◌,
  ◌-◌, ◌==◌, ◌∙◌, ◌∷◌, ◌≡◌,
}
use duke_operatingsystems.Pager.Handler.{Os, Pager, oldest}
use duke_operatingsystems.Pager.Contents.{
  Call, PageFiles, call_all, replace_calls, opened, wrote_last, closed, mmapped, munmapped,
}

-- The mapping after a page, perhaps none, is taken away and another one put in.
abbrev pub remapped : Option ℕ → ℕ → (ℕ → Option ℕ) → ℕ → Option ℕ
remapped none page m = update m page (some page)
remapped (some v) page m = update (update m v none) page (some page)

-- The bytes of the files after the last one of a page is cleared, if it is.
abbrev pub cleared : ℕ → Bool → ℕ → (ℕ → ℕ → ℕ) → ℕ → ℕ → ℕ
cleared pagesiz new page c g i = if new && (page == g) && (pagesiz - 1 == i) then 0 else c g i

module _ {pagesiz : ℕ} (k : PageFiles pagesiz) (page : ℕ) where
  -- The calls from `open` on.
  abbrev pub tail_calls : Bool → List Call
  tail_calls before =
      if before
      then opened page ∷ mmapped page page ∷ closed page ∷ []
      else opened page ∷ wrote_last page ∷ mmapped page page ∷ closed page ∷ []

  pub tail_calls-content :
      (before : Bool) (w : k.Files) (g i : ℕ)
      → k.content (call_all k (tail_calls before) w) g i
        ≡ cleared pagesiz (not before) page (k.content w) g i
  unfolding call_all
  tail_calls-content true w g i =
      let w1 = k.call (opened page) w in
      k.closed-content (k.call (mmapped page page) w1) page g i
      ∙ k.mmapped-content w1 page page g i
      ∙ k.opened-content w page g i
  tail_calls-content false w g i =
      let w1 = k.call (opened page) w in
      let w2 = k.call (wrote_last page) w1 in
      k.closed-content (k.call (mmapped page page) w2) page g i
      ∙ k.mmapped-content w2 page page g i
      ∙ k.wrote-content w1 page g i
      ∙ ap (λ c. if (page == g) && (pagesiz - 1 == i) then 0 else c) (k.opened-content w page g i)

  pub tail_calls-mapping :
      (before : Bool) (w : k.Files) (q : ℕ)
      → k.mapping (call_all k (tail_calls before) w) q ≡ update (k.mapping w) page (some page) q
  unfolding call_all
  tail_calls-mapping true w q =
      let w1 = k.call (opened page) w in
      k.closed-mapping (k.call (mmapped page page) w1) page q
      ∙ k.mmapped-mapping w1 page page q
      ∙ ap (λ x. if page == q then some page else x) (k.opened-mapping w page q)
  tail_calls-mapping false w q =
      let w1 = k.call (opened page) w in
      let w2 = k.call (wrote_last page) w1 in
      k.closed-mapping (k.call (mmapped page page) w2) page q
      ∙ k.mmapped-mapping w2 page page q
      ∙ ap (λ x. if page == q then some page else x)
          (k.wrote-mapping w1 page q ∙ k.opened-mapping w page q)

  munmapped_lem :
      (v : Option ℕ) (w : k.Files) (q : ℕ)
      → update (k.mapping (k.call (munmapped v) w)) page (some page) q
        ≡ remapped v page (k.mapping w) q
  munmapped_lem none w q =
      ap (λ x. if page == q then some page else x) (k.munmapped_none-mapping w q)
  munmapped_lem (some v) w q =
      ap (λ x. if page == q then some page else x) (k.munmapped-mapping w v q)

module _ (os : Os) (k : PageFiles os.pagesiz) (unmaps : (p : Option ℕ) → os.can_munmap p ≡ true)
    (maps : (p : ℕ) → os.can_mmap p ≡ true) where
  replace_calls_lem :
      (page : ℕ) (s : Pager)
      → replace_calls os page s
        ≡ munmapped (s.namearr (oldest s.lifearr s.max_pages 0 0 0))
          ∷ tail_calls k page (s.loadarr page)
  unfolding replace_calls
  replace_calls_lem page s =
      rw (unmaps (s.namearr (oldest s.lifearr s.max_pages 0 0 0)), maps page) refl

  pub replace_calls-content :
      (page : ℕ) (s : Pager) (w : k.Files) (g i : ℕ)
      → k.content (call_all k (replace_calls os page s) w) g i
        ≡ cleared os.pagesiz (not (s.loadarr page)) page (k.content w) g i
  unfolding call_all
  replace_calls-content page s w g i =
      let v = s.namearr (oldest s.lifearr s.max_pages 0 0 0) in
      ap (λ cs. k.content (call_all k cs w) g i) (replace_calls_lem page s)
      ∙ tail_calls-content k page (s.loadarr page) (k.call (munmapped v) w) g i
      ∙ ap (λ c. if not (s.loadarr page) && (page == g) && (os.pagesiz - 1 == i) then 0 else c)
          (k.munmapped-content w v g i)

  pub replace_calls-mapping :
      (page : ℕ) (s : Pager) (w : k.Files) (q : ℕ)
      → k.mapping (call_all k (replace_calls os page s) w) q
        ≡ remapped (s.namearr (oldest s.lifearr s.max_pages 0 0 0)) page (k.mapping w) q
  unfolding call_all
  replace_calls-mapping page s w q =
      let v = s.namearr (oldest s.lifearr s.max_pages 0 0 0) in
      ap (λ cs. k.mapping (call_all k cs w) q) (replace_calls_lem page s)
      ∙ tail_calls-mapping k page (s.loadarr page) (k.call (munmapped v) w) q
      ∙ munmapped_lem k page v w q
