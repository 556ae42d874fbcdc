-- ===== src/Dmm/Tests.antt =====
-- dmm.c on concrete heaps: runs, and the theorems at them.
use duke_operatingsystems.Dmm.Programs.{Grants, granted, HeapReaches, set_up, allocated, released}
use duke_operatingsystems.Dmm.Programs.Reached.{
  HeapReaches-apart, HeapReaches-freed, HeapReaches-dmalloc,
}
use duke_operatingsystems.Dmm.Release.{dfree-release}
use duke_operatingsystems.Dmm.Overflow.{dmalloc_huge}
use duke_operatingsystems.Dmm.RoundTrip.{dfree-dmalloc}
use duke_operatingsystems.Dmm.Dmalloc.{dmalloc-first_fit}
use duke_operatingsystems.Dmm.Free.{dfree}
use duke_operatingsystems.Dmm.Dfree.{release, absorb}
use duke_operatingsystems.Dmm.Layout.{IsHeap, Block, header, total}
use duke_operatingsystems.Dmm.Defs.{
  Ptr, Heap, dmalloc_init, dmalloc, align, null, returned, allocate, walk, fits, place, split,
  leftover, new_block, abort, hang, walk,
}
use duke_operatingsystems.Dmm.Allocate.{first_fit, block_fits, carve, IsSmall-NoWrap}
use duke_operatingsystems.Common.{
  [], arith, false, if◌then◌else◌, refl, true, ◌-◌, ◌==◌, ◌^◌, ◌∷◌, ◌≡◌, ◌≢◌, ◌+◌, update, ◌≤◌, ◌<◌,
}

abbrev cold_heap : Heap
cold_heap = record {
  mem = λ a. record { size = 0; next = 0; prev = 0; fille = false };
  freelist = null;
  testit = null;
}

abbrev in_use : Block
in_use = record { size = 104; used = true }

abbrev spare : Block
spare = record { size = 200; used = false }

-- A block in use at 4096, and a free one at 4232.
abbrev two_blocks : Heap
two_blocks = record cold_heap {
  mem = λ a.
      if a == 4096
      then header in_use 4232 null
      else (if a == 4232 then header spare null 4096 else cold_heap.mem a);
  freelist = 4096;
}

two_blocks-IsHeap : IsHeap two_blocks 4096 (in_use ∷ spare ∷ [])
two_blocks-IsHeap = record {
  chain = (refl, (refl, tt));
  first = refl;
  apart = refl;
  above = omega arith;
  fits = omega arith;
}

-- One free block.
abbrev one_block : Heap
one_block = record cold_heap {
  mem = λ a. if a == 4096 then header spare null null else cold_heap.mem a;
  freelist = 4096;
}

one_block-IsHeap : IsHeap one_block 4096 (spare ∷ [])
one_block-IsHeap = record {
  chain = (refl, tt);
  first = refl;
  apart = refl;
  above = omega arith;
  fits = omega arith;
}

first_fit_run : (first_fit 10 4096 (in_use ∷ spare ∷ [])).0 ≡ 4264
unfolding first_fit block_fits carve align
first_fit_run = refl

first_fit_run-ne : (first_fit 10 4096 (in_use ∷ spare ∷ [])).0 ≢ null
first_fit_run-ne e = absurd (omega (arith, first_fit_run, e))

dmalloc-first_fit_example :
    (h' : Heap) × (dmalloc 4096 0 5 10 two_blocks
      ≡ returned (first_fit 10 4096 (in_use ∷ spare ∷ [])).0 h')
    × IsHeap h' 4096 (first_fit 10 4096 (in_use ∷ spare ∷ [])).1
    × (total (first_fit 10 4096 (in_use ∷ spare ∷ [])).1 ≡ total (in_use ∷ spare ∷ []))
dmalloc-first_fit_example =
    dmalloc-first_fit 4096 0 5 10 two_blocks 4096 in_use (spare ∷ []) two_blocks-IsHeap
      (omega arith) (IsSmall-NoWrap 10 (omega arith)) (omega arith)

dfree-release_example :
    IsHeap (dfree 4128 two_blocks) 4096 (release [] in_use (spare ∷ []))
    × (total (release [] in_use (spare ∷ [])) ≡ total (in_use ∷ spare ∷ []))
dfree-release_example = dfree-release two_blocks 4096 [] in_use (spare ∷ []) two_blocks-IsHeap

dfree-dmalloc_example :
    (p : Ptr) × (h' : Heap) × (dmalloc 4096 0 5 10 two_blocks ≡ returned p h')
    × (p ≢ null)
    × IsHeap (dfree p h') 4096 (in_use ∷ spare ∷ [])
dfree-dmalloc_example =
    dfree-dmalloc 4096 0 5 10 two_blocks 4096 in_use (spare ∷ []) two_blocks-IsHeap (refl, tt)
      (omega arith) (omega arith) (omega arith) first_fit_run-ne

dmalloc_huge_example :
    (h' : Heap) × (dmalloc 4096 0 5 (2 ^ 64 - 3) one_block ≡ returned 4128 h')
    × ((h'.mem 4096).size ≡ 0)
    × ((h'.mem 4096).next ≡ 4128)
dmalloc_huge_example =
    dmalloc_huge 4096 0 5 (2 ^ 64 - 3) one_block 4096 spare [] one_block-IsHeap refl (omega arith)
      (omega arith) (omega arith) (omega arith)

-- The block in use and the free one behind it become one.
release_run : release [] in_use (spare ∷ []) ≡ record { size = 336; used = false } ∷ []
unfolding release absorb
release_run = refl

-- A program on a heap of 200 bytes: it asks for 10 bytes, and frees them.
abbrev nothing : Grants
nothing = λ q. 0

abbrev heap0 : Heap
heap0 = (dmalloc_init 200 4096 cold_heap).1

abbrev heap1 : Heap
heap1 = elim (dmalloc 200 4096 300 10 heap0) [ abort ↦ heap0 | hang ↦ heap0 | returned p h ↦ h ]

heap1_run : dmalloc 200 4096 300 10 heap0 ≡ returned 4128 heap1
unfolding dmalloc allocate walk fits place split leftover new_block align dmalloc_init
heap1_run = refl

align_run-200 : align 200 ≡ 200
unfolding align
align_run-200 = refl

asked : HeapReaches 200 4096 300 heap1 (granted 4128 10 nothing)
asked =
    allocated heap0 heap1 nothing 10 4128 (set_up cold_heap refl) (omega arith) (omega arith)
      heap1_run

given_back : HeapReaches 200 4096 300 (dfree 4128 heap1) (update (granted 4128 10 nothing) 4128 0)
given_back = released heap1 (granted 4128 10 nothing) 4128 asked (λ e. absurd (omega (arith, e)))

given_back_all : (q : Ptr) → update (granted 4128 10 nothing) 4128 0 q ≡ 0
given_back_all q = ground arith

HeapReaches-apart_example :
    ((p : Ptr)
      → granted 4128 10 nothing p ≢ 0
      → (4096 + 32 ≤ p) × (p + granted 4128 10 nothing p ≤ 4096 + align 200))
    × ((p q : Ptr)
        → granted 4128 10 nothing p ≢ 0
        → granted 4128 10 nothing q ≢ 0
        → p < q
        → p + granted 4128 10 nothing p + 32 ≤ q)
HeapReaches-apart_example =
    HeapReaches-apart 200 4096 300 (omega arith) (λ e. absurd (omega (arith, e))) (omega arith)
      (omega (arith, align_run-200)) (omega (arith, align_run-200)) (omega (arith, align_run-200))
      heap1 (granted 4128 10 nothing) asked

HeapReaches-freed_example :
    IsHeap (dfree 4128 heap1) 4096 (record { size = align 200 - 32; used = false } ∷ [])
HeapReaches-freed_example =
    HeapReaches-freed 200 4096 300 (omega arith) (λ e. absurd (omega (arith, e))) (omega arith)
      (omega (arith, align_run-200)) (omega (arith, align_run-200)) (omega (arith, align_run-200))
      (dfree 4128 heap1) (update (granted 4128 10 nothing) 4128 0) given_back given_back_all

HeapReaches-dmalloc_example :
    (p : Ptr) × (h' : Heap) × (dmalloc 200 4096 300 20 heap1 ≡ returned p h')
    × ((p ≢ null) → granted 4128 10 nothing p ≡ 0)
    × (((q : Ptr) → granted 4128 10 nothing q ≡ 0) → align 20 + 64 ≤ align 200 → p ≡ 4096 + 32)
HeapReaches-dmalloc_example =
    HeapReaches-dmalloc 200 4096 300 (omega arith) (λ e. absurd (omega (arith, e))) (omega arith)
      (omega (arith, align_run-200)) (omega (arith, align_run-200)) (omega (arith, align_run-200))
      heap1 (granted 4128 10 nothing) 20 asked (omega arith) (omega arith)
