-- ===== src/Dmm/Programs/Reached.antt =====
-- The states that a program of `dmalloc` and `dfree` reaches.
use duke_operatingsystems.Common.{
  Bool-cases, [], arith, false, if_ne, if_self, inl, inr, refl, same_or_not, sym, update, ℕ, ◌+◌,
  ◌-◌, ◌<◌, ◌^◌, ◌∙◌, ◌∷◌, ◌≡◌, ◌≢◌, ◌≤◌, ap,
}
use mathlib.Core.Path.{subst}
use duke_operatingsystems.Dmm.Defs.{
  Ptr, Heap, null, dmalloc, dmalloc_init, returned, align, map_failed, Outcome, abort, hang,
}
use duke_operatingsystems.Dmm.Free.{dfree}
use duke_operatingsystems.Dmm.Layout.{Block, total, IsHeap}
use duke_operatingsystems.Dmm.Allocate.{first_fit, IsSmall, IsSmall-NoWrap, block_fits}
use duke_operatingsystems.Dmm.Dmalloc.{dmalloc-first_fit, dmalloc_init-IsHeap}
use duke_operatingsystems.Dmm.Release.{dfree-release}
use duke_operatingsystems.Dmm.Dfree.{release}
use duke_operatingsystems.Dmm.Coalesced.{first_fit-IsCoalesced, release-IsCoalesced}
use duke_operatingsystems.Dmm.Contract.{Holds, IsCoalesced, first_fit-IsFresh}
use duke_operatingsystems.Dmm.Holding.{
  Holds-bounds, Holds-apart, Holds-split, release-Holds, release-Holds_back, all_free, Holds-same,
}
use duke_operatingsystems.Dmm.Programs.{
  Grants, granted, HeapReaches, set_up, allocated, released, IsServed, serves, length-le-total,
}
use duke_operatingsystems.Dmm.Programs.Requests.{served_after, counted_after}

-- What a call has returned.
abbrev reply : Ptr × Heap → Outcome → Ptr × Heap
reply none_given abort = none_given
reply none_given hang = none_given
reply none_given (returned p h) = (p, h)

reply_same :
    (p p' : Ptr) (h h' : Heap)
    → returned p h ≡ returned p' h'
    → ◌≡◌ {A = Ptr × Heap} (p, h) (p', h')
reply_same p p' h h' e = ap (reply (p, h)) e

first_fit-alone :
    (n : ℕ) (a : Ptr) (size : ℕ)
    → align n + 32 ≤ size
    → (first_fit n a (record { size = size; used = false } ∷ [])).0 ≡ a + 32
unfolding first_fit block_fits
first_fit-alone n a size le = ground (arith, le)

module _ (max slab fuel : ℕ) (above : 0 < slab) (mapped : slab ≢ map_failed)
    (small : max < 2 ^ 64 - 7) (large : 32 ≤ align max) (room : slab + align max ≤ 2 ^ 64)
    (enough : align max < fuel) where
  set_up-IsServed :
      (h : Heap) → h.testit ≡ null → IsServed (align max) slab (dmalloc_init max slab h).1 (λ q. 0)
  set_up-IsServed h e = record {
    first = record { size = align max - 32; used = false };
    rest = [];
    heap = (dmalloc_init-IsHeap max slab h above mapped e small large room).1;
    merged = tt;
    whole = omega (arith, large);
    served = λ q ne. absurd (ne refl);
    recorded = λ q c k u _. elim k [
      | inl (_, same) ↦ absurd (ground (arith, u, ap (λ (b : Block). b.used) same))
      | inr n ↦ n
    ];
  }

  -- With nothing granted there is one free block.
  given_back :
      (h : Heap) (live : Grants) (is : IsServed (align max) slab h live)
      → ((p : Ptr) → live p ≡ 0)
      → (is.first ∷ is.rest) ≡ record { size = align max - 32; used = false } ∷ []
  given_back h live is none_left =
      all_free slab is.first is.rest is.merged (λ q d held. elim (Bool-cases d.used) [
        | inl t ↦ absurd (is.recorded q d held t (none_left q))
        | inr f ↦ f
      ])
      ∙ ap (λ k. record { size = k - 32; used = false } ∷ []) is.whole

  -- A block that a request gets was not granted.
  fresh_after :
      (h : Heap) (live : Grants) (n : ℕ) (is : IsServed (align max) slab h live)
      → IsSmall n
      → (first_fit n slab (is.first ∷ is.rest)).0 ≢ null
      → live (first_fit n slab (is.first ∷ is.rest)).0 ≡ 0
  fresh_after h live n is sm ne =
      let bs = is.first ∷ is.rest in
      let p = (first_fit n slab bs).0 in
      let fresh = first_fit-IsFresh n slab bs sm ne in
      elim (same_or_not (live p) 0) [
        | inl z ↦ z
        | inr granted_before ↦
            let (c, held, used, _) = is.served p granted_before in
            absurd (
              ground (
                arith,
                used,
                fresh.was_free,
                ap (λ (b : Block). b.used) (Holds-same slab bs p c fresh.old held fresh.was_there),
              ))
      ]

  -- `dmalloc` ends, and the invariant goes on.
  IsServed-dmalloc :
      (h : Heap) (live : Grants) (n : ℕ)
      → IsServed (align max) slab h live
      → 0 < n
      → IsSmall n
      → (p : Ptr) × (h' : Heap) × (dmalloc max slab fuel n h ≡ returned p h')
        × IsServed (align max) slab h' (granted p n live)
        × ((p ≢ null) → live p ≡ 0)
        × (((q : Ptr) → live q ≡ 0) → align n + 64 ≤ align max → p ≡ slab + 32)
  IsServed-dmalloc h live n is pos sm =
      let bs = is.first ∷ is.rest in
      let r = first_fit n slab bs in
      let (h', run, heap, whole) =
        dmalloc-first_fit max slab fuel n h slab is.first is.rest is.heap pos (IsSmall-NoWrap n sm)
          (omega (arith, length-le-total bs, is.whole, enough)) in
      let merged = first_fit-IsCoalesced n slab bs is.merged in
      (
        r.0,
        h',
        run,
        serves (align max) slab h' (granted r.0 n live) r.1 (omega (arith, large)) heap merged
            (whole ∙ is.whole) (served_after slab bs live n pos sm is.served is.recorded)
            (counted_after slab bs live n pos sm is.served is.recorded),
        fresh_after h live n is sm,
        (λ none_left fit.
            ap (λ l. (first_fit n slab l).0) (given_back h live is none_left)
            ∙ first_fit-alone n slab (align max - 32) (omega (arith, fit))),
      )

  IsServed-dfree :
      (h : Heap) (live : Grants) (p : Ptr)
      → IsServed (align max) slab h live
      → live p ≢ 0
      → IsServed (align max) slab (dfree p h) (update live p 0)
  IsServed-dfree h live p is ne =
      let (c, held, used, _) = is.served p ne in
      let (xs, ys, e, f) = Holds-split slab (is.first ∷ is.rest) p c held in
      let (heap, whole) = dfree-release h slab xs c ys (subst (IsHeap h slab) e is.heap) in
      serves (align max) slab (dfree p h) (update live p 0) (release xs c ys) (omega (arith, large))
        (subst (λ x. IsHeap (dfree x h) slab (release xs c ys)) (sym f) heap)
        (release-IsCoalesced xs c ys (subst IsCoalesced e is.merged))
        (whole ∙ ap total (sym e) ∙ is.whole)
        (λ q z. elim (same_or_not q p) [
          | inl g ↦ absurd (z (ap (update live p 0) g ∙ if_self p 0 (live p)))
          | inr other ↦
              let same = if_ne p q 0 (live q) (λ g. other (sym g)) in
              let (d, held', used', le) = is.served q (λ g. z (same ∙ g)) in
              (
                d,
                release-Holds slab xs c ys q d used' (λ g. other (g ∙ sym f))
                    (subst (λ l. Holds slab l q d) e held'),
                used',
                omega (arith, same, le),
              )
        ])
        (λ q d k used' z.
          let (old, other) = release-Holds_back slab xs c ys q d used' k in
          is.recorded q d (subst (λ l. Holds slab l q d) (sym e) old) used'
            (sym (if_ne p q 0 (live q) (λ g. other (sym g ∙ f))) ∙ z))

  pub HeapReaches-IsServed :
      (h : Heap) (live : Grants)
      → HeapReaches max slab fuel h live
      → IsServed (align max) slab h live
  HeapReaches-IsServed h live (set_up h0 e) = set_up-IsServed h0 e
  HeapReaches-IsServed h live (allocated h0 h1 live0 n p r pos sm run) =
      let (p', h', again, is, _, _) =
        IsServed-dmalloc h0 live0 n (HeapReaches-IsServed h0 live0 r) pos sm in
      subst (λ (r : Ptr × Heap). IsServed (align max) slab r.1 (granted r.0 n live0))
        (reply_same p' p h' h1 (sym again ∙ run)) is
  HeapReaches-IsServed h live (released h0 live0 p r ne) =
      IsServed-dfree h0 live0 p (HeapReaches-IsServed h0 live0 r) ne

  -- With a slab that mmap has given, of 32 bytes or more, that does not wrap, a heap size below 2^64 - 7, and fuel above the size of the slab:
  -- in every state that a program of positive requests of at most 2^64 - 40 bytes and of frees reaches from `dmalloc_init` on, the blocks
  -- that it holds lie in the slab with the bytes asked for, and apart from each other by a header at least.
  pub HeapReaches-apart :
      (h : Heap) (live : Grants)
      → HeapReaches max slab fuel h live
      → ((p : Ptr) → live p ≢ 0 → (slab + 32 ≤ p) × (p + live p ≤ slab + align max))
        × ((p q : Ptr) → live p ≢ 0 → live q ≢ 0 → p < q → p + live p + 32 ≤ q)
  HeapReaches-apart h live r =
      let is = HeapReaches-IsServed h live r in
      (
        (λ p ne.
            let (c, held, _, le) = is.served p ne in
            let (lo, hi) = Holds-bounds slab (is.first ∷ is.rest) p c held in
            (lo, omega (arith, hi, le, is.whole))),
        (λ p q ne ne' lt.
            let (c, held, _, le) = is.served p ne in
            let (d, held', _, _) = is.served q ne' in
            omega (arith, Holds-apart slab (is.first ∷ is.rest) p q c d held held' lt, le)),
      )

  -- With a slab that mmap has given, of 32 bytes or more, that does not wrap, a heap size below 2^64 - 7, and fuel above the size of the slab:
  -- when such a program has freed all that it got, in any order, the heap is one free block that fills the slab.
  pub HeapReaches-freed :
      (h : Heap) (live : Grants)
      → HeapReaches max slab fuel h live
      → ((p : Ptr) → live p ≡ 0)
      → IsHeap h slab (record { size = align max - 32; used = false } ∷ [])
  HeapReaches-freed h live r none_left =
      let is = HeapReaches-IsServed h live r in
      subst (IsHeap h slab) (given_back h live is none_left) is.heap

  -- With a slab that mmap has given, of 32 bytes or more, that does not wrap, a heap size below 2^64 - 7, and fuel above the size of the slab:
  -- a positive request of at most 2^64 - 40 bytes in a state that such a program reaches returns; what it returns, unless
  -- it is NULL, is none of the program's blocks; and when the program holds none, a request whose rounded size leaves
  -- room in the slab for two headers gets the first byte behind the first header.
  pub HeapReaches-dmalloc :
      (h : Heap) (live : Grants) (n : ℕ)
      → HeapReaches max slab fuel h live
      → 0 < n
      → IsSmall n
      → (p : Ptr) × (h' : Heap) × (dmalloc max slab fuel n h ≡ returned p h')
        × ((p ≢ null) → live p ≡ 0)
        × (((q : Ptr) → live q ≡ 0) → align n + 64 ≤ align max → p ≡ slab + 32)
  HeapReaches-dmalloc h live n r pos sm =
      let is = HeapReaches-IsServed h live r in
      let (p, h', run, _, fresh, granted_all) = IsServed-dmalloc h live n is pos sm in
      (p, h', run, fresh, granted_all)
