-- ===== src/Dmm/Programs/Requests.antt =====
-- A request of `dmalloc` and the pointers that a program has been granted.
use duke_operatingsystems.Common.{
  List, ap, arith, inl, inr, same_or_not, sym, true, ℕ, ◌<◌, ◌∙◌, ◌≡◌, ◌≢◌, ◌≤◌,
}
use mathlib.Core.Path.{subst}
use duke_operatingsystems.Dmm.Defs.{Ptr, null}
use duke_operatingsystems.Dmm.Layout.{Block}
use duke_operatingsystems.Dmm.Allocate.{first_fit, IsSmall}
use duke_operatingsystems.Dmm.Contract.{Holds, Holds-first_fit, first_fit-IsFresh}
use duke_operatingsystems.Dmm.Holding.{Holds-bounds, first_fit-Holds_back}
use duke_operatingsystems.Dmm.Programs.{Grants, granted, granted-null, granted_self, granted_other}

-- A request keeps the blocks in use and the pointers that were granted in step.
module _ (slab : Ptr) (bs : List Block) (live : Grants) (n : ℕ) (pos : 0 < n) (sm : IsSmall n)
    (served : (q : Ptr)
      → live q ≢ 0
      → (c : Block) × Holds slab bs q c × (c.used ≡ true) × (live q ≤ c.size))
    (recorded : (q : Ptr) (c : Block) → Holds slab bs q c → c.used ≡ true → live q ≢ 0) where
  abbrev got : Ptr
  got = (first_fit n slab bs).0

  kept :
      (q : Ptr)
      → granted got n live q ≡ live q
      → granted got n live q ≢ 0
      → (c : Block) × Holds slab (first_fit n slab bs).1 q c
        × (c.used ≡ true)
        × (granted got n live q ≤ c.size)
  kept q e h =
      let (c, held, used, le) = served q (λ z. h (e ∙ z)) in
      (c, Holds-first_fit n slab bs q c used held, used, omega (arith, e, le))

  pub served_after :
      (q : Ptr)
      → granted got n live q ≢ 0
      → (c : Block) × Holds slab (first_fit n slab bs).1 q c
        × (c.used ≡ true)
        × (granted got n live q ≤ c.size)
  served_after q h = elim (same_or_not got null) [
    | inl e ↦ kept q (granted-null got n live q e) h
    | inr ne ↦ (elim (same_or_not q got) [
      | inr other ↦ kept q (granted_other got n live q other) h
      | inl e ↦
          let fresh = first_fit-IsFresh n slab bs sm ne in
          (
            fresh.new,
            subst (λ x. Holds slab (first_fit n slab bs).1 x fresh.new) (sym e) fresh.is_there,
            fresh.is_used,
            omega (arith, fresh.room, ap (granted got n live) e ∙ granted_self got n live ne),
          )
    ])
  ]

  pub counted_after :
      (q : Ptr) (c : Block)
      → Holds slab (first_fit n slab bs).1 q c
      → c.used ≡ true
      → granted got n live q ≢ 0
  counted_after q c held used z = elim (same_or_not got null) [
    | inl e ↦ (elim (first_fit-Holds_back n slab bs q c used held) [
      | inl k ↦ recorded q c k used (sym (granted-null got n live q e) ∙ z)
      | inr f ↦ absurd (omega (arith, e, f, (Holds-bounds slab (first_fit n slab bs).1 q c held).0))
    ])
    | inr ne ↦ (elim (same_or_not q got) [
      | inl e ↦
          absurd (omega (arith, pos, z, ap (granted got n live) e ∙ granted_self got n live ne))
      | inr other ↦ (elim (first_fit-Holds_back n slab bs q c used held) [
        | inl k ↦ recorded q c k used (sym (granted_other got n live q other) ∙ z)
        | inr f ↦ other f
      ])
    ])
  ]
