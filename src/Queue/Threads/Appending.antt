-- ===== src/Queue/Threads/Appending.antt =====
-- The steps of `enqueue` that test what they read, and the link.
use duke_operatingsystems.Queue.Threads.Swings.{update_and_increment-cases}
use duke_operatingsystems.Queue.Threads.Links.{
  ghost_linked, linked-Grows, linked-IsShared, linked-IsPrivate, linked-contents, linked-IsLink,
}
use duke_operatingsystems.Queue.Threads.Turns.{Turned, keeps}
use duke_operatingsystems.Queue.Threads.{turn, Local, e_next, e_link, e_loop, e_help}
use duke_operatingsystems.Queue.Threads.Ghost.{
  Ghost, IsShared, IsNext, Knows, owned, IsPrivate, value_of, owns,
}
use duke_operatingsystems.Common.{
  ==→eq, Bool, add64, ap, arith, inl, inr, not, refl, same_or_not, true, ℕ, ◌==◌, ◌∙◌, ◌≡◌, ◌≤◌,
  if_intro,
}
use duke_operatingsystems.Queue.Ops.{Queue, Pointer, checkequals}

module _ (q : Queue) (handed : ℕ → Bool) (g : Ghost) (s : IsShared q handed g) where
  -- What a thread with the node and value of p may use, and what it has to show of its step.
  abbrev Mine : Local → Type 0
  Mine p = owns p ≡ true → IsPrivate q handed g (owned p) (value_of p)

  abbrev Goes : Local → Local → Type 0
  Goes p p' = Turned q handed g p p' q

  pub read_next : (i a : ℕ) → i ≤ g.last → a ≡ g.at i → IsNext q g i (q.next a)
  read_next i a le e = elim (same_or_not i g.last) [
    | inl f ↦ inl (ap (λ x. (q.next x).pointer) (e ∙ ap g.at f) ∙ s.ended)
    | inr ne ↦ inr (ground (arith, ne), ap q.next e)
  ]

  pub e_next_lem :
      (node v : ℕ) (tail next : Pointer)
      → Knows q g (e_next node v tail next)
      → Mine (e_next node v tail next)
      → Goes (e_next node v tail next) (turn (e_next node v tail next) q).0
  unfolding turn
  e_next_lem node v tail next (i, a, b, c) mine =
      let p = e_next node v tail next in
      let to = keeps q handed g s p mine in
      if_intro (Goes p) (not (checkequals tail q.tail))
        (λ _. to (e_loop node v) refl refl refl tt refl)
        (λ _.
          if_intro (Goes p) (next.pointer == 0)
            (λ z.
              to (e_link node v tail next) refl refl refl ((i, a, b), ==→eq next.pointer 0 z) refl)
            (λ z. elim c [
              | inl e ↦ absurd (ground (arith, e, z))
              | inr (lt, e) ↦
                  to (e_help node v tail next) refl refl refl
                    (i, a, b, lt, ap (λ x. x.pointer) e ∙ s.linked i lt) refl
            ]))

  pub e_link_lem :
      (node v : ℕ) (tail next : Pointer)
      → Knows q g (e_link node v tail next)
      → Mine (e_link node v tail next)
      → Turned q handed g
          (e_link node v tail next)
          (turn (e_link node v tail next) q).0
          (turn (e_link node v tail next) q).1
  unfolding turn
  e_link_lem node v tail next ((i, a, b), z) mine =
      elim (update_and_increment-cases (q.next tail.pointer) next node) [
        | inr e ↦ rw e (
            keeps q handed g s (e_link node v tail next) mine (e_loop node v) refl refl refl tt
              refl)
        | inl (same, e) ↦
            let c = add64 next.counter 1 in
            let end = same ∙ z in
            let own = mine refl in
            let given = own.nonzero in
            rw e (record {
              ghost = ghost_linked q handed g s tail node v i c a b end own given;
              grows = linked-Grows q handed g s tail node v i c a b end own given;
              shared = linked-IsShared q handed g s tail node v i c a b end own given;
              knows = linked-IsLink q handed g s tail node v i c a b end own given;
              kept = λ ne. absurd (ground (arith, ne));
              own = λ ne. absurd (ground (arith, ne));
              others = λ m w ne k.
                  linked-IsPrivate q handed g s tail node v i c a b end own given m w ne k;
              effect = (refl, linked-contents q handed g s tail node v i c a b end own given);
            })
      ]
