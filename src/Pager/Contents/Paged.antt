-- ===== src/Pager/Contents/Paged.antt =====
-- A program on the paged region and the same program on flat memory: the whole of it.
use duke_operatingsystems.Common.{
  Bool, List, [], ap, arith, eq→==, false, if◌then◌else◌, lt→ltb, none, not, refl, some, ℕ, ◌-◌,
  ◌<◌, ◌==◌, ◌∙◌, ◌∷◌, ◌≡◌,
}
use duke_operatingsystems.Pager.Handler.{Os, Pager, num_pages, initialize_forth}
use duke_operatingsystems.Pager.Contents.{
  PageFiles, page_of, offset_of, Access, reads, writes, address_of, accesses, flat_accesses,
}
use duke_operatingsystems.Pager.Contents.Calls.{cleared}
use duke_operatingsystems.Pager.Contents.Served.{IsGranting, InRegion, Backs, region-page}
use duke_operatingsystems.Pager.Contents.Accesses.{flat_value, flat_next, access_lem}

flat_lem :
    (a : Access) (xs : List Access) (m : ℕ → ℕ)
    → flat_value a m ∷ flat_accesses xs (flat_next a m) ≡ flat_accesses (a ∷ xs) m
unfolding flat_accesses
flat_lem (reads a) xs m = refl
flat_lem (writes a v) xs m = refl

cleared_new :
    (pagesiz page : ℕ) (c : ℕ → ℕ → ℕ) (i : ℕ) (b : Bool)
    → b ≡ false
    → (if pagesiz - 1 == i then 0 else c page i) ≡ cleared pagesiz (not b) page c page i
cleared_new pagesiz page c i b h = ground (arith, h, eq→== page page refl)

-- Accesses to bytes of the region.
abbrev pub AreInRegion : Os → List Access → Type 0
AreInRegion os [] = Unit
AreInRegion os (a ∷ xs) = InRegion os (address_of a) × AreInRegion os xs

module _ (os : Os) (k : PageFiles os.pagesiz) (grants : IsGranting os) where
  -- Any number of accesses.
  pub accesses_lem :
      (m : ℕ → ℕ) (s : Pager) (w : k.Files) (xs : List Access)
      → Backs os k m s w
      → AreInRegion os xs
      → (s' : Pager) × (w' : k.Files) × (accesses os k 2 xs s w ≡ some (flat_accesses xs m, s', w'))
  unfolding accesses flat_accesses
  accesses_lem m s w [] b r = (s, w, refl)
  accesses_lem m s w (a ∷ xs) b (r, rs) =
      let (s1, w1, run, b') = access_lem os k grants m s w a b r in
      let (s2, w2, run') = accesses_lem (flat_next a m) s1 w1 xs b' rs in
      (s2, w2, rw (accesses, run, run') (ap (λ l. some (l, s2, w2)) (flat_lem a xs m)))

-- The bytes that the region shows at first: those of the files that there are, with the last byte of each page cleared.
abbrev pub first_bytes : (os : Os) → (ℕ → ℕ → ℕ) → ℕ → ℕ
first_bytes os c a =
    if os.pagesiz - 1 == offset_of os a then 0 else c (page_of os a) (offset_of os a)

initialize_forth-Backs :
    (os : Os) (k : PageFiles os.pagesiz) (max : ℕ) (s : Pager) (w : k.Files)
    → 0 < max
    → IsGranting os
    → ((p : ℕ) → p < num_pages → k.mapping w p ≡ none)
    → Backs os k (first_bytes os (k.content w)) (initialize_forth max s) w
unfolding initialize_forth
initialize_forth-Backs os k max s w pos grants unmapped = record {
  has_pages = pos;
  mapping = λ p lt.
      unmapped p lt
      ∙ ap (λ b. if b then some p else none) {x = false} (ground (arith, lt→ltb p num_pages lt));
  known = λ p lt h. absurd (ground (arith, h, lt));
  filling = λ p more lt h. absurd (ground (arith, h, lt));
  same = λ a r.
      cleared_new os.pagesiz (page_of os a) (k.content w) (offset_of os a)
        ((initialize_forth max s).loadarr (page_of os a))
        (ground (arith, lt→ltb (page_of os a) num_pages (region-page os grants a r)));
}

-- With at least one page of memory, system calls that succeed, pages of 4096 bytes, no page mapped at first and a kernel that keeps the stores to a shared page in its file, any accesses to
-- the region after `initialize_forth` end, each after one fault at most, and give what they give on a memory that is not
-- paged and holds the files with the last byte of each page cleared: no byte is lost when a page is taken away and loaded again.
pub accesses-flat :
    (os : Os) (k : PageFiles os.pagesiz) (max : ℕ) (s : Pager) (w : k.Files) (xs : List Access)
    → 0 < max
    → IsGranting os
    → ((p : ℕ) → p < num_pages → k.mapping w p ≡ none)
    → AreInRegion os xs
    → (s' : Pager) × (w' : k.Files) × (accesses os k 2 xs (initialize_forth max s) w
        ≡ some (flat_accesses xs (first_bytes os (k.content w)), s', w'))
accesses-flat os k max s w xs pos grants unmapped inside =
    accesses_lem os k grants (first_bytes os (k.content w)) (initialize_forth max s) w xs
      (initialize_forth-Backs os k max s w pos grants unmapped) inside
