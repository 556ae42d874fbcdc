-- ===== src/Pager/Contents.antt =====
-- VirtualMemoryAllocator/paged_forth_lib.c: the system calls that the SIGSEGV handler makes, and what the
-- pages then hold. The kernel is a parameter, with what the handler relies on as its laws.
pub mod Calls
pub mod Served
pub mod Accesses
pub mod Paged
pub mod Flat
use duke_operatingsystems.Common.{
  List, Option, [], if◌then◌else◌, ltb, none, not, some, suc, update, zero, ℕ, ◌%◌, ◌&&◌, ◌-◌, ◌/◌,
  ◌==◌, ◌∷◌, ◌≡◌,
}
use duke_operatingsystems.Pager.Handler.{
  Os, Pager, Outcome, exited, out_of_bounds, resumed, handler, counted, oldest, distance,
  is_outside, stackheap_mem_start,
}

-- A call on the file page_%d.dat of a page, or on the page: `open` with O_RDWR | O_CREAT, `lseek` to the
-- last byte with `write` of a NUL, `mmap` at the page with MAP_FIXED | MAP_SHARED, `close`, `munmap`.
pub data Call : Type 0 where
  opened wrote_last closed : ℕ → Call
  mmapped : (page file : ℕ) → Call
  munmapped : Option ℕ → Call

-- The calls of the branch that unmaps the oldest page; a page that has been loaded before is only opened
-- and mapped.
unfoldable pub replace_calls : Os → ℕ → Pager → List Call
replace_calls os page s =
    let victim = s.namearr (oldest s.lifearr s.max_pages 0 0 0) in
    let mapping = mmapped page page ∷ (if os.can_mmap page then closed page ∷ [] else []) in
    munmapped victim
    ∷ (if not (os.can_munmap victim)
        then []
        else (if s.loadarr page
            then opened page ∷ mapping
            else opened page ∷ wrote_last page ∷ mapping))

-- The calls of the branch that takes a free slot, which treats every page as new.
unfoldable pub fill_calls : ℕ → List Call
fill_calls page = opened page ∷ wrote_last page ∷ mmapped page page ∷ closed page ∷ []

-- The calls of the handler, up to one that fails.
unfoldable pub handler_calls : Os → ℕ → Pager → List Call
handler_calls os address s =
    if is_outside os.pagesiz (distance address)
    then []
    else (if ltb s.max_pages (suc s.totcount)
        then replace_calls os (distance address / os.pagesiz) (counted s)
        else fill_calls (distance address / os.pagesiz))

-- The kernel: `content` is the bytes of the files, 0 behind their ends, and `mapping` the file that a
-- page shows.
pub record PageFiles (pagesiz : ℕ) : Type 1 where
  pub Files : Type 0
  pub call : Call → Files → Files
  pub load : Files → (page offset : ℕ) → ℕ
  pub store : Files → (page offset value : ℕ) → Files
  pub content : Files → (file offset : ℕ) → ℕ
  pub mapping : Files → ℕ → Option ℕ
  -- A store to a shared page goes to its file, and a load comes from it.
  pub load-content : (w : Files) (p f o : ℕ) → mapping w p ≡ some f → load w p o ≡ content w f o
  pub store-content :
      (w : Files) (p f o v g i : ℕ)
      → mapping w p ≡ some f
      → content (store w p o v) g i ≡ (if (f == g) && (o == i) then v else content w g i)
  pub store-mapping : (w : Files) (p o v q : ℕ) → mapping (store w p o v) q ≡ mapping w q
  -- Only the write of the handler changes a file, and only `mmap` and `munmap` change what is mapped.
  pub wrote-content :
      (w : Files) (p g i : ℕ)
      → content (call (wrote_last p) w) g i
        ≡ (if (p == g) && (pagesiz - 1 == i) then 0 else content w g i)
  pub opened-content : (w : Files) (p g i : ℕ) → content (call (opened p) w) g i ≡ content w g i
  pub closed-content : (w : Files) (p g i : ℕ) → content (call (closed p) w) g i ≡ content w g i
  pub mmapped-content :
      (w : Files) (p f g i : ℕ) → content (call (mmapped p f) w) g i ≡ content w g i
  pub munmapped-content :
      (w : Files) (p : Option ℕ) (g i : ℕ) → content (call (munmapped p) w) g i ≡ content w g i
  pub wrote-mapping : (w : Files) (p q : ℕ) → mapping (call (wrote_last p) w) q ≡ mapping w q
  pub opened-mapping : (w : Files) (p q : ℕ) → mapping (call (opened p) w) q ≡ mapping w q
  pub closed-mapping : (w : Files) (p q : ℕ) → mapping (call (closed p) w) q ≡ mapping w q
  pub mmapped-mapping :
      (w : Files) (p f q : ℕ) → mapping (call (mmapped p f) w) q ≡ update (mapping w) p (some f) q
  pub munmapped-mapping :
      (w : Files) (p q : ℕ) → mapping (call (munmapped (some p)) w) q ≡ update (mapping w) p none q
  pub munmapped_none-mapping :
      (w : Files) (q : ℕ) → mapping (call (munmapped none) w) q ≡ mapping w q

module _ {pagesiz : ℕ} (k : PageFiles pagesiz) where
  unfoldable pub call_all : List Call → k.Files → k.Files
  call_all [] w = w
  call_all (c ∷ cs) w = call_all cs (k.call c w)

-- What a program does with the region: it reads or writes a byte at an address.
pub data Access : Type 0 where
  reads : ℕ → Access
  writes : (address value : ℕ) → Access

abbrev pub address_of : Access → ℕ
address_of (reads a) = a
address_of (writes a v) = a

-- The page and the offset of an address of the region.
abbrev pub page_of : Os → ℕ → ℕ
page_of os a = (a - stackheap_mem_start) / os.pagesiz

abbrev pub offset_of : Os → ℕ → ℕ
offset_of os a = (a - stackheap_mem_start) % os.pagesiz

module _ (os : Os) (k : PageFiles os.pagesiz) where
  -- What is read, 0 for a write, and the kernel afterwards.
  unfoldable pub performed : Access → k.Files → ℕ × k.Files
  performed (reads a) w = (k.load w (page_of os a) (offset_of os a), w)
  performed (writes a v) w = (0, k.store w (page_of os a) (offset_of os a) v)

  -- An access on fuel: on a page that is not mapped the handler runs, and the access is tried again.
  unfoldable pub access : ℕ → Access → Pager → k.Files → Option (ℕ × Pager × k.Files)
  access zero a s w = none
  access (suc fuel) a s w = elim (k.mapping w (page_of os (address_of a))) [
    | some f ↦ some ((performed a w).0, s, (performed a w).1)
    | none ↦ (elim (handler os (address_of a) s) [
      | resumed address page unmapped s' ↦
          access fuel a s' (call_all k (handler_calls os (address_of a) s) w)
      | exited n ↦ none
      | out_of_bounds ↦ none
    ])
  ]

  -- A program, as its accesses in order: what they give.
  unfoldable pub accesses : ℕ → List Access → Pager → k.Files → Option (List ℕ × Pager × k.Files)
  accesses fuel [] s w = some ([], s, w)
  accesses fuel (a ∷ more) s w = elim (access fuel a s w) [
    | none ↦ none
    | some (x, s', w') ↦ (elim (accesses fuel more s' w') [
      | none ↦ none
      | some (xs, s2, w2) ↦ some (x ∷ xs, s2, w2)
    ])
  ]

-- The same program on memory that is not paged.
unfoldable pub flat_accesses : List Access → (ℕ → ℕ) → List ℕ
flat_accesses [] m = []
flat_accesses (reads a ∷ more) m = m a ∷ flat_accesses more m
flat_accesses (writes a v ∷ more) m = 0 ∷ flat_accesses more (update m a v)
