-- ===== src/Dmm/Holding.antt =====
-- The blocks that a list holds in use, and what the two operations do to them.
use duke_operatingsystems.Common.{
  Bool-cases, List, [], ap, arith, false, if◌then◌else◌, inl, inr, ltb, refl, sym, true, ℕ, ◌++◌,
  ◌+◌, ◌-◌, ◌<◌, ◌∙◌, ◌∷◌, ◌≡◌, ◌≢◌, ◌≤◌, ◌⊎◌, if_intro,
}
use mathlib.Core.Path.{subst}
use duke_operatingsystems.Dmm.Defs.{Ptr, align}
use duke_operatingsystems.Dmm.Layout.{Block, total, end_of, end_of-total}
use duke_operatingsystems.Dmm.Merge.{joined}
use duke_operatingsystems.Dmm.Allocate.{first_fit, carve, block_fits, front, back}
use duke_operatingsystems.Dmm.Dfree.{absorb, release, freed}
use duke_operatingsystems.Dmm.Contract.{Holds, fits-parts, IsCoalesced}

-- A block lies in the slab, and apart from the others.
pub Holds-bounds :
    (a : Ptr) (bs : List Block) (p : Ptr) (c : Block)
    → Holds a bs p c
    → (a + 32 ≤ p) × (p + c.size ≤ a + total bs)
Holds-bounds a [] p c h = absurd h
Holds-bounds a (b ∷ bs) p c (inl (e, same)) =
    (omega (arith, e), omega (arith, e, ap (λ (k : Block). k.size) same))
Holds-bounds a (b ∷ bs) p c (inr h) =
    let (lo, hi) = Holds-bounds (a + (32 + b.size)) bs p c h in
    (omega (arith, lo), omega (arith, hi))

pub Holds-apart :
    (a : Ptr) (bs : List Block) (p q : Ptr) (c d : Block)
    → Holds a bs p c
    → Holds a bs q d
    → p < q
    → p + c.size + 32 ≤ q
Holds-apart a [] p q c d h k lt = absurd h
Holds-apart a (b ∷ bs) p q c d (inl (e, same)) (inl (f, _)) lt = absurd (omega (arith, e, f, lt))
Holds-apart a (b ∷ bs) p q c d (inl (e, same)) (inr k) lt =
    omega (arith, e, ap (λ (k : Block). k.size) same, (Holds-bounds (a + (32 + b.size)) bs q d k).0)
Holds-apart a (b ∷ bs) p q c d (inr h) (inl (f, _)) lt =
    absurd (omega (arith, f, lt, (Holds-bounds (a + (32 + b.size)) bs p c h).0))
Holds-apart a (b ∷ bs) p q c d (inr h) (inr k) lt =
    Holds-apart (a + (32 + b.size)) bs p q c d h k lt

-- One block at one place.
pub Holds-same :
    (a : Ptr) (bs : List Block) (p : Ptr) (c d : Block) → Holds a bs p c → Holds a bs p d → c ≡ d
Holds-same a [] p c d h k = absurd h
Holds-same a (b ∷ bs) p c d (inl (_, e)) (inl (_, f)) = e ∙ sym f
Holds-same a (b ∷ bs) p c d (inl (e, _)) (inr k) =
    absurd (omega (arith, e, (Holds-bounds (a + (32 + b.size)) bs p d k).0))
Holds-same a (b ∷ bs) p c d (inr h) (inl (e, _)) =
    absurd (omega (arith, e, (Holds-bounds (a + (32 + b.size)) bs p c h).0))
Holds-same a (b ∷ bs) p c d (inr h) (inr k) = Holds-same (a + (32 + b.size)) bs p c d h k

-- A held block has blocks before and behind it.
pub Holds-split :
    (a : Ptr) (bs : List Block) (p : Ptr) (c : Block)
    → Holds a bs p c
    → (xs : List Block) × (ys : List Block) × (bs ≡ xs ++ (c ∷ ys)) × (p ≡ end_of a xs + 32)
Holds-split a [] p c h = absurd h
Holds-split a (b ∷ bs) p c (inl (e, same)) = ([], bs, ap (λ k. k ∷ bs) (sym same), e)
Holds-split a (b ∷ bs) p c (inr h) =
    let (xs, ys, e, f) = Holds-split (a + (32 + b.size)) bs p c h in
    (b ∷ xs, ys, ap (λ l. b ∷ l) e, f)

moves-Holds :
    (a a' : Ptr) (bs : List Block) (p : Ptr) (c : Block) → a ≡ a' → Holds a bs p c → Holds a' bs p c
moves-Holds a a' bs p c e h = subst (λ x. Holds x bs p c) e h

-- What a request leaves in use was in use, or is what it got.
carve-Holds_back :
    (n : ℕ) (a : Ptr) (b : Block) (bs : List Block) (q : Ptr) (d : Block)
    → block_fits n b ≡ true
    → d.used ≡ true
    → Holds a (carve n b bs) q d
    → Holds (a + (32 + b.size)) bs q d ⊎ (q ≡ a + 32)
unfolding carve
carve-Holds_back n a b bs q d f u h = elim (Bool-cases (ltb (b.size - align n - 32) 32)) [
  | inl whole ↦
      (elim (subst (λ l. Holds a l q d)
        (ap (λ t. if t then record { size = b.size; used = true } ∷ bs else front n ∷ back n b ∷ bs)
          whole)
        h) [ inl (e, _) ↦ inr e | inr k ↦ inl k ])
  | inr cut ↦
      (elim (subst (λ l. Holds a l q d)
        (ap (λ t. if t then record { size = b.size; used = true } ∷ bs else front n ∷ back n b ∷ bs)
          cut)
        h) [
          | inl (e, _) ↦ inr e
          | inr (inl (_, same)) ↦ absurd (ground (arith, u, ap (λ (k : Block). k.used) same))
          | inr (inr k) ↦ inl (moves-Holds _ _ bs q d (omega (arith, fits-parts n b f)) k)
        ])
]

pub first_fit-Holds_back :
    (n : ℕ) (a : Ptr) (bs : List Block) (q : Ptr) (d : Block)
    → d.used ≡ true
    → Holds a (first_fit n a bs).1 q d
    → Holds a bs q d ⊎ (q ≡ (first_fit n a bs).0)
unfolding first_fit
first_fit-Holds_back n a [] q d u h = inl h
first_fit-Holds_back n a (b ∷ bs) q d u h = elim (Bool-cases (block_fits n b)) [
  | inl hit ↦ rw hit (elim (carve-Holds_back n a b bs q d hit u (rw hit at h)) [
    | inl k ↦ inl (inr k)
    | inr e ↦ inr e
  ])
  | inr miss ↦ rw miss (elim (rw miss at h) [
    | inl k ↦ inl (inl k)
    | inr k ↦ elim (first_fit-Holds_back n (a + (32 + b.size)) bs q d u k) [
      | inl k' ↦ inl (inr k')
      | inr e ↦ inr e
    ]
  ])
]

absorb-Holds :
    (a : Ptr) (c : Block) (ys : List Block) (q : Ptr) (d : Block)
    → d.used ≡ true
    → Holds (a + (32 + c.size)) ys q d
    → Holds a (absorb c ys) q d
unfolding absorb
absorb-Holds a c [] q d u h = absurd h
absorb-Holds a c (n ∷ ys) q d u h =
    if_intro (λ l. Holds a l q d) n.used (λ t. inr h)
      (λ f. elim h [
        | inl (_, same) ↦ absurd (ground (arith, u, f, ap (λ (k : Block). k.used) same))
        | inr k ↦ inr (moves-Holds _ _ ys q d (omega arith) k)
      ])

absorb-Holds_back :
    (a : Ptr) (c : Block) (ys : List Block) (q : Ptr) (d : Block)
    → c.used ≡ false
    → d.used ≡ true
    → Holds a (absorb c ys) q d
    → Holds (a + (32 + c.size)) ys q d
unfolding absorb
absorb-Holds_back a c [] q d free u (inl (_, same)) =
    absurd (ground (arith, u, free, ap (λ (k : Block). k.used) same))
absorb-Holds_back a c [] q d free u (inr h) = absurd h
absorb-Holds_back a c (n ∷ ys) q d free u h = elim (Bool-cases n.used) [
  | inl t ↦ (elim (subst (λ b. Holds a (if b then c ∷ n ∷ ys else joined c n ∷ ys) q d) t h) [
    | inl (_, same) ↦ absurd (ground (arith, u, free, ap (λ (k : Block). k.used) same))
    | inr k ↦ k
  ])
  | inr f ↦ (elim (subst (λ b. Holds a (if b then c ∷ n ∷ ys else joined c n ∷ ys) q d) f h) [
    | inl (_, same) ↦ absurd (ground (arith, u, ap (λ (k : Block). k.used) same))
    | inr k ↦ inr (moves-Holds _ _ ys q d (omega arith) k)
  ])
]

-- A free leaves the other blocks in use where they are.
pub release-Holds :
    (a : Ptr) (xs : List Block) (c : Block) (ys : List Block) (q : Ptr) (d : Block)
    → d.used ≡ true
    → q ≢ end_of a xs + 32
    → Holds a (xs ++ (c ∷ ys)) q d
    → Holds a (release xs c ys) q d
unfolding release
release-Holds a [] c ys q d u ne (inl (e, _)) = absurd (ne e)
release-Holds a [] c ys q d u ne (inr h) = absorb-Holds a (freed c) ys q d u h
release-Holds a (p ∷ []) c ys q d u ne (inl (e, same)) =
    if_intro (λ l. Holds a l q d) p.used (λ t. inl (e, same))
      (λ f. absurd (ground (arith, u, f, ap (λ (k : Block). k.used) same)))
release-Holds a (p ∷ []) c ys q d u ne (inr (inl (e, _))) = absurd (ne e)
release-Holds a (p ∷ []) c ys q d u ne (inr (inr h)) =
    if_intro (λ l. Holds a l q d) p.used (λ t. inr (absorb-Holds _ (freed c) ys q d u h))
      (λ f. absorb-Holds a (joined p c) ys q d u (moves-Holds _ _ ys q d (omega arith) h))
release-Holds a (x ∷ x2 ∷ xs) c ys q d u ne (inl h) = inl h
release-Holds a (x ∷ x2 ∷ xs) c ys q d u ne (inr h) =
    inr (release-Holds (a + (32 + x.size)) (x2 ∷ xs) c ys q d u ne h)

-- What is in use after a free was so before, and is not the block.
pub release-Holds_back :
    (a : Ptr) (xs : List Block) (c : Block) (ys : List Block) (q : Ptr) (d : Block)
    → d.used ≡ true
    → Holds a (release xs c ys) q d
    → Holds a (xs ++ (c ∷ ys)) q d × (q ≢ end_of a xs + 32)
unfolding release
release-Holds_back a [] c ys q d u h =
    let k = absorb-Holds_back a (freed c) ys q d refl u h in
    (inr k, λ e. absurd (omega (arith, e, (Holds-bounds _ ys q d k).0)))
release-Holds_back a (p ∷ []) c ys q d u h = elim (Bool-cases p.used) [
  | inl t ↦
      (elim (subst
        (λ b. Holds a (if b then p ∷ absorb (freed c) ys else absorb (joined p c) ys) q d) t h) [
          | inl (e, same) ↦ (inl (e, same), λ f. absurd (omega (arith, e, f)))
          | inr k ↦
              let k' = absorb-Holds_back _ (freed c) ys q d refl u k in
              (inr (inr k'), λ e. absurd (omega (arith, e, (Holds-bounds _ ys q d k').0)))
        ])
  | inr f ↦
      let k = absorb-Holds_back a (joined p c) ys q d refl u (
        subst (λ b. Holds a (if b then p ∷ absorb (freed c) ys else absorb (joined p c) ys) q d) f
          h) in
      (
        inr (inr (moves-Holds _ _ ys q d (omega arith) k)),
        λ e. absurd (omega (arith, e, (Holds-bounds _ ys q d k).0)),
      )
]
release-Holds_back a (x ∷ x2 ∷ xs) c ys q d u (inl (e, same)) =
    (inl (e, same), λ f. absurd (omega (arith, e, f, end_of-total (a + (32 + x.size)) (x2 ∷ xs))))
release-Holds_back a (x ∷ x2 ∷ xs) c ys q d u (inr h) =
    let (k, ne) = release-Holds_back (a + (32 + x.size)) (x2 ∷ xs) c ys q d u h in (inr k, ne)

-- With no block in use and no two free blocks side by side there is one block.
pub all_free :
    (a : Ptr) (b : Block) (bs : List Block)
    → IsCoalesced (b ∷ bs)
    → ((q : Ptr) (d : Block) → Holds a (b ∷ bs) q d → d.used ≡ false)
    → (b ∷ bs) ≡ record { size = total (b ∷ bs) - 32; used = false } ∷ []
all_free a b [] merged free = ap (λ k. k ∷ []) (ground (arith, free (a + 32) b (inl (refl, refl))))
all_free a b (c ∷ bs) merged free = absurd (
    ground (
      arith,
      merged.0,
      free (a + 32) b (inl (refl, refl)),
      free (a + (32 + b.size) + 32) c (inr (inl (refl, refl))),
    ))
