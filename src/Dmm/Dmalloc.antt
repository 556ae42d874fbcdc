-- ===== src/Dmm/Dmalloc.antt =====
-- `dmalloc` and `dmalloc_init`: what a client may rely on.
use duke_operatingsystems.Common.{
  ℕ, ◌+◌, ◌<◌, ◌≡◌, refl, ◌∙◌, true, List, [], ◌∷◌, arith, length, ne→==, ap, some, eq→==, ◌==◌,
  ◌≢◌, ◌^◌, false, ◌-◌, ◌≤◌,
}
use duke_operatingsystems.Dmm.Defs.{
  Ptr, null, Heap, returned, allocate, dmalloc, dmalloc_init, walk, map_failed, align,
}
use duke_operatingsystems.Dmm.Layout.{Block, total, IsHeap}
use duke_operatingsystems.Dmm.Allocate.{NoWrap, block_fits, carve, first_fit}
use duke_operatingsystems.Dmm.Walk.{walk_lem}

total-carve :
    (n : ℕ) (b : Block) (bs : List Block)
    → block_fits n b ≡ true
    → total (carve n b bs) ≡ total (b ∷ bs)
unfolding carve block_fits
total-carve n b bs f = ground arith

pub total-first_fit : (n : ℕ) (a : Ptr) (bs : List Block) → total (first_fit n a bs).1 ≡ total bs
unfolding first_fit
total-first_fit n a [] = refl
total-first_fit n a (b ∷ bs) =
    ground (arith, total-carve n b bs, total-first_fit n (a + (32 + b.size)) bs)

-- On a well-formed heap, for a positive request that the rounding and one header do not carry past
-- 2^64, `dmalloc` does not abort and its loop ends. It returns the payload of the
-- first free block that holds the aligned size and one header more, cut off the rest of that block
-- if the rest holds a header, and NULL if there is no such block. The heap stays well-formed over
-- the same slab.
pub dmalloc-first_fit :
    (max slab fuel n : ℕ) (h : Heap) (base : Ptr) (b : Block) (bs : List Block)
    → IsHeap h base (b ∷ bs)
    → 0 < n
    → NoWrap n
    → length (b ∷ bs) < fuel
    → (h' : Heap) × (dmalloc max slab fuel n h ≡ returned (first_fit n base (b ∷ bs)).0 h')
      × IsHeap h' base (first_fit n base (b ∷ bs)).1
      × (total (first_fit n base (b ∷ bs)).1 ≡ total (b ∷ bs))
unfolding dmalloc allocate
dmalloc-first_fit max slab fuel n h base b bs is pos small enough =
    let (r, run, w) =
      walk_lem fuel n h null base (b ∷ bs) small is.above is.apart is.chain is.fits enough in
    let run' : walk fuel n h.freelist h ≡ some r = ap (λ p. walk fuel n p h) is.first ∙ run in
    let live : (h.freelist == null) ≡ false = ne→== _ 0 (omega (arith, is.above, is.first)) in
    (
      r.1,
      rw (live, ne→== n 0 (omega arith), run') (ap (λ p. returned p r.1) w.result),
      record {
        chain = w.chain;
        first = w.first ∙ is.first;
        apart = w.apart;
        above = is.above;
        fits = omega (arith, is.fits, total-first_fit n base (b ∷ bs));
      },
      total-first_fit n base (b ∷ bs),
    )

-- With a slab from mmap that holds two headers, and whose end does not wrap, `dmalloc_init` succeeds and
-- leaves one free block that fills the slab.
pub dmalloc_init-IsHeap :
    (max slab : ℕ) (h : Heap)
    → 0 < slab
    → slab ≢ map_failed
    → h.testit ≡ null
    → max < 2 ^ 64 - 7
    → 32 ≤ align max
    → slab + align max ≤ 2 ^ 64
    → ((dmalloc_init max slab h).0 ≡ true)
      × IsHeap
          (dmalloc_init max slab h).1
          slab
          (record { size = align max - 32; used = false } ∷ [])
unfolding dmalloc_init
dmalloc_init-IsHeap max slab h pos ne apart small large room = rw (ne→== slab map_failed ne) (
  refl,
  record {
    chain = (ground arith, tt);
    first = refl;
    apart = apart;
    above = pos;
    fits = omega arith;
  },
)

-- When the list is not set up and mmap fails, `dmalloc` returns NULL and keeps the failure value in the list's head, so that no
-- later call asks mmap again: each walks memory from that address.
pub dmalloc-init_failed :
    (max fuel n : ℕ) (h : Heap)
    → h.freelist ≡ null
    → (dmalloc max map_failed fuel n h ≡ returned null (record h { freelist = map_failed }))
      × ((slab fuel' n' : ℕ)
          → dmalloc max slab fuel' n' (record h { freelist = map_failed })
            ≡ allocate fuel' n' (record h { freelist = map_failed }))
unfolding dmalloc dmalloc_init
dmalloc-init_failed max fuel n h e = (rw (eq→== h.freelist 0 e), λ slab fuel' n'. refl)
