-- ===== src/Dmm/Defs.antt =====
-- dmm.c: `dmalloc`, `dfree` and `dmalloc_init`. Memory is a total function from addresses to
-- headers, as C memory always has some content. Each field write is a write of its own, in the order
-- of the source. User data is not modelled: a block's payload begins behind its header.
use duke_operatingsystems.Common.{
  ℕ, zero, suc, ◌-◌, ◌%◌, ◌^◌, Bool, true, false, not, Option, none, some, ◌&&◌, ltb, leb, ◌==◌,
  if◌then◌else◌, add64, sub64, update,
}

abbrev pub Ptr : Type 0
Ptr = ℕ

abbrev pub null : Ptr
null = 0

-- `metadata_t`; `fille` says that the block is allocated.
pub record Metadata : Type 0 where
  pub size : ℕ
  pub next : Ptr
  pub prev : Ptr
  pub fille : Bool

abbrev pub Memory : Type 0
Memory = Ptr → Metadata

-- the memory, and the two globals
pub record Heap : Type 0 where
  pub mem : Memory
  pub freelist : Ptr
  pub testit : Ptr

-- ALIGN(size) on a size_t: `& ~7` clears the three low bits.
unfoldable pub align : ℕ → ℕ
align size = let sum = add64 size 7 in sum - sum % 8

-- METADATA_T_ALIGNED: sizeof(metadata_t) is 8 + 8 + 8 + 4, padded to 32.
abbrev pub metadata_t_aligned : ℕ
metadata_t_aligned = 32

abbrev pub map_failed : Ptr
map_failed = 2 ^ 64 - 1

-- p->size = v, and so on
abbrev pub set_size : Memory → Ptr → ℕ → Memory
set_size m p v = update m p (record (m p) { size = v })

abbrev pub set_next : Memory → Ptr → Ptr → Memory
set_next m p v = update m p (record (m p) { next = v })

abbrev pub set_prev : Memory → Ptr → Ptr → Memory
set_prev m p v = update m p (record (m p) { prev = v })

abbrev pub set_fille : Memory → Ptr → Bool → Memory
set_fille m p v = update m p (record (m p) { fille = v })

-- The test of the loop in `dmalloc`.
unfoldable pub fits : ℕ → Metadata → Bool
unfolding align
fits numbytes b = leb (add64 (align numbytes) metadata_t_aligned) b.size && not b.fille

-- walker->size - ALIGN(numbytes) - METADATA_T_ALIGNED
unfoldable pub leftover : ℕ → Metadata → ℕ
unfolding align
leftover numbytes b = sub64 (sub64 b.size (align numbytes)) metadata_t_aligned

-- The block behind `walker` that a split makes.
unfoldable pub new_block : ℕ → Ptr → Ptr
unfolding align
new_block numbytes walker = add64 (add64 walker (align numbytes)) metadata_t_aligned

-- The writes of a split.
unfoldable pub split : ℕ → Ptr → Memory → Memory
split numbytes walker m =
    let b = new_block numbytes walker in
    let m1 = set_prev m b walker in
    let m2 : Memory =
      if (m1 walker).next == null
      then set_next m1 b null
      else set_prev (set_next m1 b (m1 walker).next) (m1 walker).next b in
    let m3 = set_size m2 b (leftover numbytes (m2 walker)) in
    let m4 = set_fille m3 b false in
    let m5 = set_next m4 walker b in
    let m6 = set_fille m5 walker true in set_size m6 walker (align numbytes)

-- The body of the loop's outer `if`: what is returned, and the new heap.
unfoldable pub place : ℕ → Ptr → Heap → Ptr × Heap
place numbytes walker h =
    if walker == h.testit
    then (null, record h { testit = walker })
    else if ltb (leftover numbytes (h.mem walker)) metadata_t_aligned
    then (add64 walker metadata_t_aligned, record h { mem = set_fille h.mem walker true })
    else (add64 walker metadata_t_aligned, record h { mem = split numbytes walker h.mem })

-- The loop of `dmalloc`, on fuel: `none` means that the fuel ran out.
unfoldable pub walk : ℕ → ℕ → Ptr → Heap → Option (Ptr × Heap)
walk zero numbytes walker h = none
walk (suc fuel) numbytes walker h =
    let rest = walk fuel numbytes (h.mem walker).next h in
    if walker == null
    then some (null, h)
    else if fits numbytes (h.mem walker)
    then some (place numbytes walker h)
    else rest

-- What a call does: `abort` by a failed assertion, `hang` when the fuel ran out.
pub data Outcome : Type 0 where
  abort hang : Outcome
  returned : Ptr → Heap → Outcome

-- `slab` is what mmap returns.
unfoldable pub dmalloc_init : ℕ → Ptr → Heap → Bool × Heap
unfolding align
dmalloc_init max_heap_size slab h =
    if slab == map_failed
    then (false, record h { freelist = slab })
    else (let m1 = set_next h.mem slab null in
        let m2 = set_prev m1 slab null in
        let m3 = set_size m2 slab (sub64 (align max_heap_size) metadata_t_aligned) in
        (true, record h { mem = set_fille m3 slab false; freelist = slab }))

-- `dmalloc` behind its call of `dmalloc_init`.
unfoldable pub allocate : ℕ → ℕ → Heap → Outcome
allocate fuel numbytes h =
    if numbytes == 0
    then abort
    else elim (walk fuel numbytes h.freelist h) [ none ↦ hang | some (p, h') ↦ returned p h' ]

unfoldable pub dmalloc : ℕ → Ptr → ℕ → ℕ → Heap → Outcome
dmalloc max_heap_size slab fuel numbytes h =
    if h.freelist == null
    then (let (ok, h') = dmalloc_init max_heap_size slab h in
        if ok then allocate fuel numbytes h' else returned null h')
    else allocate fuel numbytes h
