-- ===== src/Pager/Handler.antt =====
-- VirtualMemoryAllocator/paged_forth_lib.c: the SIGSEGV handler and the bookkeeping that
-- `initialize_forth` sets up. An array is a function from indices, with the bounds tested where an index
-- is computed; a name of -1 is `none`. The ints that count faults stay below 2^31.
use duke_operatingsystems.Common.{
  Bool, Option, false, if◌then◌else◌, leb, ltb, none, not, some, sub64, suc, true, u32, update,
  zero, ℕ, ◌*◌, ◌/◌, ◌^◌, ◌||◌,
}

abbrev pub num_pages : ℕ
num_pages = 20

abbrev pub stackheap_mem_start : ℕ
stackheap_mem_start = 0xf9f8c000

-- The system calls: the page size, whether a call on a page succeeds, and the descriptor `open` returns.
pub record Os : Type 0 where
  pub pagesiz : ℕ
  pub can_munmap : Option ℕ → Bool
  pub can_mmap : ℕ → Bool
  pub open_page : ℕ → ℕ

pub record Pager : Type 0 where
  pub totcount : ℕ
  pub max_pages : ℕ
  pub lifearr : ℕ → ℕ
  pub namearr : ℕ → Option ℕ
  pub loadarr : ℕ → Bool
  pub fdarr : ℕ → ℕ
  -- the pages that the process can access
  pub mapped : ℕ → Bool

-- How a fault ends: the process exits, an array is read or written outside of it, or the access is
-- tried again after `page_map_callback`, whose arguments are kept.
pub data Outcome : Type 0 where
  exited : ℕ → Outcome
  out_of_bounds : Outcome
  resumed : (address page : ℕ) (unmapped : Option ℕ) → Pager → Outcome

-- `distance`, the difference of two pointers cut to an int
unfoldable pub distance : ℕ → ℕ
distance address = u32 (sub64 address stackheap_mem_start)

-- distance < 0 || distance > NUM_PAGES * getpagesize()
unfoldable pub is_outside : ℕ → ℕ → Bool
is_outside pagesiz d = leb (2 ^ 31) d || ltb (num_pages * pagesiz) d

-- The loop that adds 1 to the first n lives.
unfoldable pub aged : ℕ → (ℕ → ℕ) → ℕ → ℕ
aged zero life = life
aged (suc n) life = let life' = aged n life in update life' n (suc (life' n))

-- The loop that finds the oldest slot: `left` slots from `z` on are still to be looked at.
unfoldable pub oldest : (ℕ → ℕ) → (left z maxcount locmax : ℕ) → ℕ
oldest life zero z maxcount locmax = locmax
oldest life (suc left) z maxcount locmax =
    if ltb maxcount (life z)
    then oldest life left (suc z) (life z) z
    else oldest life left (suc z) maxcount locmax

unfoldable pub is_free : Option ℕ → Bool
is_free none = true
is_free (some page) = false

-- The loop that puts a page into the first free slot. It gives the new names and the slot, 0 when none
-- is free.
unfoldable pub take_slot : (left q page : ℕ) → (ℕ → Option ℕ) → (ℕ → Option ℕ) × ℕ
take_slot zero q page name = (name, 0)
take_slot (suc left) q page name =
    if is_free (name q) then (update name q (some page), q) else take_slot left (suc q) page name

unfoldable pub unmap : Option ℕ → (ℕ → Bool) → ℕ → Bool
unmap none mapped = mapped
unmap (some page) mapped = update mapped page false

-- The branch of the handler that unmaps the oldest page first, after the lives are aged. The slot is 0
-- when no life counts, and is behind the arrays when max_pages is 0.
unfoldable pub replace : Os → (address page : ℕ) → Pager → Outcome
replace os address page s =
    let slot = oldest s.lifearr s.max_pages 0 0 0 in
    let victim = s.namearr slot in
    if leb s.max_pages slot
    then out_of_bounds
    else (if not (os.can_munmap victim)
        then exited 6
        else (if leb num_pages page
            then out_of_bounds
            else (if not (os.can_mmap page)
                then exited 1
                else resumed address page victim record {
                  totcount = s.totcount;
                  max_pages = s.max_pages;
                  lifearr = update s.lifearr slot 0;
                  namearr = update s.namearr slot (some page);
                  loadarr = update s.loadarr page true;
                  fdarr =
                      if s.loadarr page then s.fdarr else update s.fdarr page (os.open_page page);
                  mapped = update (unmap victim s.mapped) page true;
                })))

-- The branch that takes a free slot, which `handler` enters with totcount + 1 at most max_pages, so that slot
-- 0 is one of the arrays. The arrays are written before the result of mmap is looked at.
unfoldable pub fill : Os → (address page : ℕ) → Pager → Outcome
fill os address page s =
    let (name, slot) = take_slot s.max_pages 0 page s.namearr in
    if leb num_pages page
    then out_of_bounds
    else (if not (os.can_mmap page)
        then exited 1
        else resumed address page none record {
          totcount = s.totcount;
          max_pages = s.max_pages;
          lifearr = update s.lifearr slot 0;
          namearr = name;
          loadarr = update s.loadarr page true;
          fdarr = update s.fdarr page (os.open_page page);
          mapped = update s.mapped page true;
        })

-- `totcount += 1` and the loop over `lifearr`
unfoldable pub counted : Pager → Pager
counted s = record {
  totcount = suc s.totcount;
  max_pages = s.max_pages;
  lifearr = aged s.max_pages s.lifearr;
  namearr = s.namearr;
  loadarr = s.loadarr;
  fdarr = s.fdarr;
  mapped = s.mapped;
}

unfoldable pub handler : Os → ℕ → Pager → Outcome
handler os address s =
    if is_outside os.pagesiz (distance address)
    then exited 2
    else (if ltb s.max_pages (suc s.totcount)
        then replace os address (distance address / os.pagesiz) (counted s)
        else fill os address (distance address / os.pagesiz) (counted s))

-- `initialize_forth`, for the region being unmapped; `totcount` is a global that it does not reset, and
-- the arrays beyond their bounds are as malloc left them.
unfoldable pub initialize_forth : ℕ → Pager → Pager
initialize_forth max_pages_input s = record {
  totcount = s.totcount;
  max_pages = max_pages_input;
  lifearr = λ p. if ltb p max_pages_input then 0 else s.lifearr p;
  namearr = λ p. if ltb p max_pages_input then none else s.namearr p;
  loadarr = λ z. if ltb z num_pages then false else s.loadarr z;
  fdarr = λ z. if ltb z num_pages then 0 else s.fdarr z;
  mapped = λ p. if ltb p num_pages then false else s.mapped p;
}
