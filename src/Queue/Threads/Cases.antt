-- ===== src/Queue/Threads/Cases.antt =====
-- Every step of a thread keeps what is known, by the place of the thread.
use duke_operatingsystems.Queue.Threads.Taking.{
  d_tail_lem, d_same_lem, d_alpha_lem, d_swing_lem, d_free_lem,
}
use duke_operatingsystems.Queue.Threads.Appending.{read_next, e_next_lem, e_link_lem}
use duke_operatingsystems.Queue.Threads.Turns.{Turned, keeps, drops, swings}
use duke_operatingsystems.Queue.Threads.{
  turn, Local, d_same, d_swing, d_tail, d_alpha, d_free, e_next, e_link, d_loop, d_next, e_loop,
  d_value, e_help, returned, d_help, e_tail, e_swing, idle, d_head, aborted,
}
use duke_operatingsystems.Queue.Threads.Ghost.{
  Ghost, IsShared, Knows, owned, IsPrivate, value_of, owns,
}
use duke_operatingsystems.Common.{
  ==→eq, Bool, ap, arith, inl, inr, sym, true, ℕ, ◌==◌, ◌∙◌, ◌≡◌, if_intro, refl,
}
use duke_operatingsystems.Queue.Ops.{Queue, checkequals}

module _ (q : Queue) (handed : ℕ → Bool) (g : Ghost) (s : IsShared q handed g) where
  -- What a thread with the node and value of p may use, and what it has to show of its step.
  abbrev Mine : Local → Type 0
  Mine p = owns p ≡ true → IsPrivate q handed g (owned p) (value_of p)

  abbrev Goes : Local → Local → Type 0
  Goes p p' = Turned q handed g p p' q

  pub turn-Turned :
      (p : Local) → Knows q g p → Mine p → Turned q handed g p (turn p q).0 (turn p q).1
  unfolding turn
  turn-Turned idle k mine = drops q handed g s idle mine idle refl tt refl
  turn-Turned (e_loop node v) k mine =
      keeps q handed g s (e_loop node v) mine (e_tail node v q.tail) refl refl refl
        (g.tail, omega arith, s.tail_at) refl
  turn-Turned (e_tail node v tail) (i, a, b) mine =
      if_intro (Goes (e_tail node v tail)) (tail.pointer == 0)
        (λ z. absurd (s.nonnull i (omega (arith, s.tail-last)) (sym b ∙ ==→eq tail.pointer 0 z)))
        (λ _.
          keeps q handed g s (e_tail node v tail) mine (e_next node v tail (q.next tail.pointer))
            refl refl refl
            (i, a, b, read_next q handed g s i tail.pointer (omega (arith, s.tail-last)) b) refl)
  turn-Turned (e_next node v tail next) k mine = e_next_lem q handed g s node v tail next k mine
  turn-Turned (e_link node v tail next) k mine = e_link_lem q handed g s node v tail next k mine
  turn-Turned (e_help node v tail next) k mine =
      swings q handed g s (e_help node v tail next) mine (e_loop node v) tail next.pointer k
        (λ _ _. tt) (λ _. (refl, refl, refl)) refl
  turn-Turned (e_swing node v tail) k mine =
      swings q handed g s (e_swing node v tail) mine idle tail node k (λ _ _. tt)
        (λ ne. absurd (ground (arith, ne))) refl
  turn-Turned d_loop k mine =
      drops q handed g s d_loop mine (d_head q.head) refl (g.head, omega arith, s.head_at) refl
  turn-Turned (d_head head) (i, a, b) mine =
      drops q handed g s (d_head head) mine (d_tail head q.tail) refl
        (i, g.tail, (a, b, omega (arith, s.head-tail), omega arith, s.tail_at)) refl
  turn-Turned (d_tail head tail) k mine = d_tail_lem q handed g s head tail k
  turn-Turned (d_next head tail next) k mine =
      if_intro (Goes (d_next head tail next)) (checkequals head q.head)
        (λ _. drops q handed g s (d_next head tail next) mine (d_same head tail next) refl k refl)
        (λ _. drops q handed g s (d_next head tail next) mine d_loop refl tt refl)
  turn-Turned (d_same head tail next) k mine = d_same_lem q handed g s head tail next k
  turn-Turned (d_alpha head tail next alpha_next) k mine =
      d_alpha_lem q handed g s head tail next alpha_next k
  turn-Turned (d_help tail next) k mine =
      swings q handed g s (d_help tail next) mine d_loop tail next.pointer k (λ _ _. tt)
        (λ ne. absurd (ground (arith, ne))) refl
  turn-Turned (d_value head next) (i, a, b, n) mine =
      if_intro (Goes (d_value head next)) (next.pointer == 0)
        (λ _. drops q handed g s (d_value head next) mine d_loop refl tt refl)
        (λ z. elim n [
          | inl e ↦ absurd (ground (arith, e, z))
          | inr (lt, e) ↦
              drops q handed g s (d_value head next) mine (d_swing head next (q.value next.pointer))
                refl (i, a, b, lt, e, ap q.value e) refl
        ])
  turn-Turned (d_swing head next v) k mine = d_swing_lem q handed g s head next v k
  turn-Turned (d_free head v) k mine = d_free_lem q handed g s head v
  turn-Turned (returned v) k mine = drops q handed g s (returned v) mine (returned v) refl tt refl
  turn-Turned aborted k mine = absurd k
