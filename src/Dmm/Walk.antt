-- ===== src/Dmm/Walk.antt =====
-- The loop of `dmalloc` on memory that holds a chain of blocks.
use duke_operatingsystems.Common.{
  ℕ, zero, suc, ◌+◌, ◌-◌, ◌^◌, ◌≤◌, ◌<◌, ◌≡◌, refl, sym, ◌∙◌, true, false, some, List, [], ◌∷◌,
  arith, ltb, ◌==◌, length, Bool-cases, ne→==, if_self, if_ne, inl, inr, ap,
}
use duke_operatingsystems.Dmm.Defs.{Ptr, null, Memory, Heap, align, fits, split, place, walk}
use duke_operatingsystems.Dmm.Layout.{
  Block, total, link, header, Chain, Chain-relink, SameBelow, fill-Chain,
}
use duke_operatingsystems.Dmm.Allocate.{
  NoWrap, block_fits, carve, first_fit, fits_lem, leftover_lem, split-last, split-inner, front,
  back,
}

module _ (n : ℕ) (small : NoWrap n) (m : Memory) (prev a : Ptr) (b : Block) (above : 0 < a) where
  block_room : block_fits n b ≡ true → align n + 32 ≤ b.size
  unfolding block_fits
  block_room f = ground arith

  split-Chain :
      (bs : List Block)
      → Chain m prev a (b ∷ bs)
      → block_fits n b ≡ true
      → a + (32 + b.size) ≤ 2 ^ 64
      → Chain (split n a m) prev a (front n ∷ back n b ∷ bs) × SameBelow a m (split n a m)
  split-Chain [] c f room =
      let at = split-last n small m prev a b above f room null c.0 refl in
      (
        (
          at a ∙ if_self a _ _,
          (
            at (a + (32 + align n))
                ∙ if_ne a _ _ _ (omega arith)
                ∙ if_self (a + (32 + align n)) _ _,
            tt,
          ),
        ),
        λ y lt. at y ∙ if_ne a y _ _ (omega arith) ∙ if_ne _ y _ _ (omega arith),
      )
  split-Chain (r ∷ rs) c f room =
      let x = a + (32 + b.size) in
      let at = split-inner n small m prev a b above f room x c.0 refl in
      let fit = block_room f in
      (
        (
          at a ∙ if_self a _ _,
          (
            at (a + (32 + align n))
                ∙ if_ne a _ _ _ (omega arith)
                ∙ if_self (a + (32 + align n)) _ _
                ∙ ap (λ k. header (back n b) k a) (omega arith),
            Chain-relink m (split n a m) a (a + (32 + align n)) x _ (r ∷ rs) (omega arith)
                (λ y le. at y ∙ if_ne a y _ _ (omega arith) ∙ if_ne _ y _ _ (omega arith)) c.1,
          ),
        ),
        λ y lt.
            at y
            ∙ if_ne a y _ _ (omega arith)
            ∙ if_ne _ y _ _ (omega arith)
            ∙ if_ne x y _ _ (omega arith),
      )

-- What a run that ends with the chain `bs` at `a`, and the result `p`, has done to the heap `h`.
pub record Walked (h : Heap) (prev a : Ptr) (bs : List Block) (p : Ptr) (r : Ptr × Heap)
    : Type 0 where
  pub result : r.0 ≡ p
  pub chain : Chain r.1.mem prev a bs
  pub below : SameBelow a h.mem r.1.mem
  pub first : r.1.freelist ≡ h.freelist
  pub apart : r.1.testit ≡ null

place-Walked :
    (n : ℕ) (h : Heap) (prev a : Ptr) (b : Block) (bs : List Block)
    → NoWrap n
    → 0 < a
    → h.testit ≡ null
    → Chain h.mem prev a (b ∷ bs)
    → block_fits n b ≡ true
    → a + (32 + b.size) ≤ 2 ^ 64
    → Walked h prev a (carve n b bs) (a + 32) (place n a h)
unfolding place carve
place-Walked n h prev a b bs small above ht c f room =
    let fit = block_room n small h.mem prev a b above f in
    rw (apart, leftover_lem n small h.mem prev a b above _ c.0 f (omega arith))
      (elim (Bool-cases (ltb (b.size - align n - 32) 32)) [
        | inl whole ↦ rw whole (record {
          result = omega arith;
          chain = (fill-Chain h.mem prev a b true bs c).0;
          below = (fill-Chain h.mem prev a b true bs c).1;
          first = refl;
          apart = ht;
        })
        | inr cut ↦ rw cut (record {
          result = omega arith;
          chain = (split-Chain n small h.mem prev a b above bs c f room).0;
          below = (split-Chain n small h.mem prev a b above bs c f room).1;
          first = refl;
          apart = ht;
        })
      ])
  where
    apart : (a == h.testit) ≡ false
    apart = ne→== a h.testit (omega arith)

link-first_fit : (n : ℕ) (x a : Ptr) (bs : List Block) → link x (first_fit n a bs).1 ≡ link x bs
unfolding first_fit carve
link-first_fit n x a [] = refl
link-first_fit n x a (b ∷ bs) = ground arith

pub walk_lem :
    (fuel n : ℕ) (h : Heap) (prev a : Ptr) (bs : List Block)
    → NoWrap n
    → 0 < a
    → h.testit ≡ null
    → Chain h.mem prev a bs
    → a + total bs ≤ 2 ^ 64
    → length bs < fuel
    → (r : Ptr × Heap) × (walk fuel n (link a bs) h ≡ some r)
      × Walked h prev a (first_fit n a bs).1 (first_fit n a bs).0 r
unfolding walk first_fit
walk_lem zero n h prev a bs small above ht c room fuel = absurd (omega arith)
walk_lem (suc k) n h prev a [] small above ht c room fuel = (
  (null, h),
  refl,
  record { result = refl; chain = tt; below = λ y lt. refl; first = refl; apart = ht },
)
walk_lem (suc k) n h prev a (b ∷ bs) small above ht c room fuel =
    elim (Bool-cases (block_fits n b)) [
      | inl hit ↦ (
        place n a h,
        rw (live, here, hit),
        rw hit (place-Walked n h prev a b bs small above ht c hit (omega arith)),
      )
      | inr miss ↦
          let (r, run, w) =
            walk_lem k n h a (a + (32 + b.size)) bs small (omega arith) ht c.1 (omega arith)
              (omega arith) in
          (
            r,
            rw (live, here, miss, c.0) run,
            rw miss (record {
              result = w.result;
              chain = (
                w.below a (omega arith)
                    ∙ c.0
                    ∙ ap (λ k. header b k prev) (sym (link-first_fit n _ _ bs)),
                w.chain,
              );
              below = λ y lt. w.below y (omega arith);
              first = w.first;
              apart = w.apart;
            }),
          )
    ]
  where
    live : (a == null) ≡ false
    live = ne→== a 0 (omega arith)

    here : fits n (h.mem a) ≡ block_fits n b
    here = fits_lem n small h.mem prev a b above _ c.0
