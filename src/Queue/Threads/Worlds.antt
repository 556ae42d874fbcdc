-- ===== src/Queue/Threads/Worlds.antt =====
-- All the threads together: what every step keeps.
use duke_operatingsystems.Queue.Threads.Cases.{turn-Turned}
use duke_operatingsystems.Queue.Threads.Turns.{Effect}
use duke_operatingsystems.Queue.Threads.Stable.{Grows, Knows-Grows}
use duke_operatingsystems.Queue.Threads.Ghost.{
  Ghost, owns, owned, IsShared, contents, Knows, IsPrivate, value_of,
}
use duke_operatingsystems.Queue.Threads.{Local, World, is_outside_call, turned, turn}
use mathlib.Core.Path.{subst}
use duke_operatingsystems.Common.{
  Bool, Bool-cases, ap, arith, false, if_ne, if_self, inl, inr, same_or_not, sym, true, update, ℕ,
  ◌∙◌, ◌≡◌, ◌≢◌,
}
use duke_operatingsystems.Queue.Ops.{Queue}

pub record IsWorld (w : World) (g : Ghost) : Type 0 where
  pub shared : IsShared w.queue w.handed g
  pub knows : (t : ℕ) → Knows w.queue g (w.pc t)
  pub own :
      (t : ℕ)
      → owns (w.pc t) ≡ true
      → IsPrivate w.queue w.handed g (owned (w.pc t)) (value_of (w.pc t))
  pub distinct :
      (t u : ℕ)
      → owns (w.pc t) ≡ true
      → owns (w.pc u) ≡ true
      → owned (w.pc t) ≡ owned (w.pc u)
      → t ≡ u

owned_none : (p : Local) → owns p ≡ false → owned p ≡ 0
owned_none p h = ground (arith, h)

owns_outside : (p : Local) → is_outside_call p ≡ true → owns p ≡ false
owns_outside p h = ground (arith, h)

module _ (w : World) (g : Ghost) (k : IsWorld w g) (t : ℕ) where
  -- Thread t goes to p', the others stay; the queue grows.
  module _ (p' : Local) (q' : Queue) (handed' : ℕ → Bool) (g' : Ghost) (gr : Grows w.queue q' g g')
      (shared' : IsShared q' handed' g') (knows' : Knows q' g' p')
      (own' : owns p' ≡ true → IsPrivate q' handed' g' (owned p') (value_of p'))
      (others' : (m v : ℕ)
        → m ≢ owned p'
        → m ≢ owned (w.pc t)
        → IsPrivate w.queue w.handed g m v
        → IsPrivate q' handed' g' m v)
      (apart' : (u : ℕ)
        → u ≢ t
        → owns (w.pc u) ≡ true
        → owns p' ≡ true
        → owned (w.pc u) ≢ owned p') where
    there : (u : ℕ) → u ≡ t → update w.pc t p' u ≡ p'
    there u e = ap (update w.pc t p') e ∙ if_self t p' (w.pc t)

    elsewhere : (u : ℕ) → u ≢ t → update w.pc t p' u ≡ w.pc u
    elsewhere u ne = if_ne t u p' (w.pc u) (λ e. ne (sym e))

    not_mine : (u : ℕ) → u ≢ t → owns (w.pc u) ≡ true → owned (w.pc u) ≢ owned (w.pc t)
    not_mine u ne h e = elim (Bool-cases (owns (w.pc t))) [
      | inl o ↦ ne (k.distinct u t h o e)
      | inr o ↦ (k.own u h).nonzero (e ∙ owned_none (w.pc t) o)
    ]

    not_new : (u : ℕ) → u ≢ t → owns (w.pc u) ≡ true → owned (w.pc u) ≢ owned p'
    not_new u ne h e = elim (Bool-cases (owns p')) [
      | inl o ↦ apart' u ne h o e
      | inr o ↦ (k.own u h).nonzero (e ∙ owned_none p' o)
    ]

    pub moves-IsWorld : IsWorld record { queue = q'; pc = update w.pc t p'; handed = handed' } g'
    moves-IsWorld = record {
      shared = shared';
      knows = λ u. elim (same_or_not u t) [
        | inl e ↦ subst (Knows q' g') (sym (there u e)) knows'
        | inr ne ↦ subst (Knows q' g') (sym (elsewhere u ne)) (
            Knows-Grows w.queue q' g g' gr k.shared.tail-last k.shared.head-tail (w.pc u)
              (k.knows u))
      ];
      own = λ u. elim (same_or_not u t) [
        | inl e ↦
            subst (λ p. owns p ≡ true → IsPrivate q' handed' g' (owned p) (value_of p))
              (sym (there u e)) own'
        | inr ne ↦
            subst (λ p. owns p ≡ true → IsPrivate q' handed' g' (owned p) (value_of p))
              (sym (elsewhere u ne))
              (λ h.
                others' (owned (w.pc u)) (value_of (w.pc u)) (not_new u ne h) (not_mine u ne h)
                  (k.own u h))
      ];
      distinct = λ u x a b e. elim (same_or_not u t) [
        | inl f ↦ (elim (same_or_not x t) [
          | inl f' ↦ f ∙ sym f'
          | inr ne ↦ absurd (
              apart' x ne (sym (ap owns (elsewhere x ne)) ∙ b) (sym (ap owns (there u f)) ∙ a)
                (sym (ap owned (elsewhere x ne)) ∙ sym e ∙ ap owned (there u f)))
        ])
        | inr ne ↦ (elim (same_or_not x t) [
          | inl f ↦ absurd (
              apart' u ne (sym (ap owns (elsewhere u ne)) ∙ a) (sym (ap owns (there x f)) ∙ b)
                (sym (ap owned (elsewhere u ne)) ∙ e ∙ ap owned (there x f)))
          | inr ne' ↦
              k.distinct u x (sym (ap owns (elsewhere u ne)) ∙ a)
                (sym (ap owns (elsewhere x ne')) ∙ b)
                (sym (ap owned (elsewhere u ne)) ∙ e ∙ ap owned (elsewhere x ne'))
        ])
      ];
    }

-- What a step of the world by the thread does.
pub record Does (w w' : World) (g : Ghost) (thread : ℕ) : Type 0 where
  pub ghost : Ghost
  pub world : IsWorld w' ghost
  pub effect : Effect (w.pc thread) (w'.pc thread) (contents w.queue g) (contents w'.queue ghost)
  pub idle_others : (u : ℕ) → u ≢ thread → w'.pc u ≡ w.pc u

module _ (w : World) (g : Ghost) (k : IsWorld w g) (t : ℕ) where
  pub turned-Does : Does w (turned t w) g t
  unfolding turned
  turned-Does =
      let p = w.pc t in
      let p' = (turn p w.queue).0 in
      let q' = (turn p w.queue).1 in
      let r = turn-Turned w.queue w.handed g k.shared p (k.knows t) (k.own t) in
      record {
        ghost = r.ghost;
        world =
            moves-IsWorld w g k t p' q' w.handed r.ghost r.grows r.shared r.knows r.own
              (λ m v _ ne h. r.others m v ne h)
              (λ u ne h o e. ne (k.distinct u t h (r.kept o).0 (e ∙ (r.kept o).1)));
        effect =
            subst (λ x. Effect p x (contents w.queue g) (contents q' r.ghost))
              (sym (if_self t p' p)) r.effect;
        idle_others = λ u ne. if_ne t u p' (w.pc u) (λ e. ne (sym e));
      }
