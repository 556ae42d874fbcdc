-- ===== src/Dmm/Contract.antt =====
-- What a client of the heap manager relies on: its blocks stay apart, and a block that is freed at
-- once gives the heap back as it was.
use mathlib.Core.Path.{subst}
use duke_operatingsystems.Dmm.Defs.{Ptr, metadata_t_aligned, null, align}
use duke_operatingsystems.Common.{
  Bool-cases, List, [], arith, false, inl, inr, ltb, refl, true, ℕ, ◌+◌, ◌-◌, ◌||◌, ◌∷◌, ◌≡◌, ◌≢◌,
  ◌≤◌, ◌⊎◌,
}
use duke_operatingsystems.Dmm.Layout.{Block}
use duke_operatingsystems.Dmm.Allocate.{first_fit, block_fits, carve, IsSmall, align_bounds, front}

-- The block `c` stands among the blocks `bs` from `a` on, with its payload at `p`.
abbrev pub Holds : Ptr → List Block → Ptr → Block → Type 0
Holds a [] p c = ⊥
Holds a (b ∷ bs) p c =
    ((p ≡ a + metadata_t_aligned) × (c ≡ b)) ⊎ Holds (a + (metadata_t_aligned + b.size)) bs p c

-- No two free blocks touch.
abbrev pub IsCoalesced : List Block → Type 0
IsCoalesced [] = Unit
IsCoalesced (b ∷ []) = Unit
IsCoalesced (b ∷ c ∷ bs) = ((b.used || c.used) ≡ true) × IsCoalesced (c ∷ bs)

pub IsCoalesced-tail : (b : Block) (bs : List Block) → IsCoalesced (b ∷ bs) → IsCoalesced bs
IsCoalesced-tail b [] h = tt
IsCoalesced-tail b (c ∷ bs) h = h.1

pub fits-parts :
    (n : ℕ) (b : Block) → block_fits n b ≡ true → (align n + 32 ≤ b.size) × (b.used ≡ false)
unfolding block_fits
fits-parts n b h = ground arith

Holds-carve :
    (n : ℕ) (a : Ptr) (b : Block) (bs : List Block) (p : Ptr) (c : Block)
    → block_fits n b ≡ true
    → Holds (a + (32 + b.size)) bs p c
    → Holds a (carve n b bs) p c
unfolding carve
Holds-carve n a b bs p c f h = elim (Bool-cases (ltb (b.size - align n - 32) 32)) [
  | inl whole ↦ rw whole (inr h)
  | inr cut ↦ rw cut (inr (inr (subst (λ x. Holds x bs p c) (omega (arith, fits-parts n b f)) h)))
]

-- Blocks in use stay where they are, with their sizes, when `dmalloc` takes another.
pub Holds-first_fit :
    (n : ℕ) (a : Ptr) (bs : List Block) (p : Ptr) (c : Block)
    → c.used ≡ true
    → Holds a bs p c
    → Holds a (first_fit n a bs).1 p c
unfolding first_fit
Holds-first_fit n a [] p c u h = h
Holds-first_fit n a (b ∷ bs) p c u h = elim (Bool-cases (block_fits n b)) [
  | inl hit ↦ rw hit (elim h [
    | inl (e, same) ↦ absurd (ground (arith, fits-parts n b hit))
    | inr later ↦ Holds-carve n a b bs p c hit later
  ])
  | inr miss ↦ rw miss (elim h [
    | inl here ↦ inl here
    | inr later ↦ inr (Holds-first_fit n (a + (32 + b.size)) bs p c u later)
  ])
]

-- The block behind the pointer `p` after the call, and the free block that it was cut from.
pub record IsFresh (n : ℕ) (a : Ptr) (bs bs' : List Block) (p : Ptr) : Type 0 where
  pub old : Block
  pub was_there : Holds a bs p old
  pub was_free : old.used ≡ false
  pub new : Block
  pub is_there : Holds a bs' p new
  pub is_used : new.used ≡ true
  pub room : n ≤ new.size
  pub within : new.size ≤ old.size

IsFresh-carve :
    (n : ℕ) (a : Ptr) (b : Block) (bs : List Block)
    → IsSmall n
    → block_fits n b ≡ true
    → IsFresh n a (b ∷ bs) (carve n b bs) (a + 32)
unfolding carve
IsFresh-carve n a b bs small f =
    let (fit, free) = fits-parts n b f in
    let bounds = align_bounds n small in
    elim (Bool-cases (ltb (b.size - align n - 32) 32)) [
      | inl whole ↦ rw whole (record {
        old = b;
        was_there = inl (refl, refl);
        was_free = free;
        new = record { size = b.size; used = true };
        is_there = inl (refl, refl);
        is_used = refl;
        room = omega arith;
        within = omega arith;
      })
      | inr cut ↦ rw cut (record {
        old = b;
        was_there = inl (refl, refl);
        was_free = free;
        new = front n;
        is_there = inl (refl, refl);
        is_used = refl;
        room = omega arith;
        within = omega arith;
      })
    ]

-- What `dmalloc` hands out, unless it is NULL: the payload of a block that is in use afterwards and
-- holds the request, at the place of a block that was free and is no smaller.
pub first_fit-IsFresh :
    (n : ℕ) (a : Ptr) (bs : List Block)
    → IsSmall n
    → (first_fit n a bs).0 ≢ null
    → IsFresh n a bs (first_fit n a bs).1 (first_fit n a bs).0
unfolding first_fit
first_fit-IsFresh n a [] small ne = absurd (ne refl)
first_fit-IsFresh n a (b ∷ bs) small ne = elim (Bool-cases (block_fits n b)) [
  | inl hit ↦ rw hit (IsFresh-carve n a b bs small hit)
  | inr miss ↦
      let r = first_fit-IsFresh n (a + (32 + b.size)) bs small (rw miss at ne) in
      rw miss (record {
        old = r.old;
        was_there = inr r.was_there;
        was_free = r.was_free;
        new = r.new;
        is_there = inr r.is_there;
        is_used = r.is_used;
        room = r.room;
        within = r.within;
      })
]
