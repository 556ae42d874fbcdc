-- ===== src/Queue/Threads/Turns.antt =====
-- Each step of a thread, and what it does to the queue that a client sees.
use mathlib.Core.Path.{subst₂}
use duke_operatingsystems.Queue.Threads.Swings.{tail_swing}
use duke_operatingsystems.Queue.Threads.Stable.{Grows, Grows-refl}
use duke_operatingsystems.Queue.Threads.{Local, d_free, d_next, e_link, e_swing, d_swing, d_tail}
use duke_operatingsystems.Queue.Threads.Ghost.{
  Ghost, IsShared, owned, Knows, IsPrivate, value_of, IsLink, contents, owns,
}
use duke_operatingsystems.Common.{
  Bool, List, [], sym, ℕ, ◌++◌, ◌∙◌, ◌∷◌, ◌≡◌, ◌≢◌, ◌⊎◌, true, false, arith,
}
use duke_operatingsystems.Queue.Ops.{Queue, Pointer, update_and_increment}

-- The queue before and after a step of a thread from p to p': a link appends the thread's value, a swap
-- of the head takes the first value, which the thread returns, and a NULL next pointer is read only
-- from an empty queue. All else leaves the queue as it is.
abbrev EffectLink : ℕ → Local → (vs vs' : List ℕ) → Type 0
EffectLink v (e_swing node w tail) vs vs' = (w ≡ v) × (vs' ≡ vs ++ (v ∷ []))
EffectLink v p vs vs' = vs' ≡ vs

abbrev EffectSwing : Local → (vs vs' : List ℕ) → Type 0
EffectSwing (d_free head v) vs vs' = vs ≡ v ∷ vs'
EffectSwing p vs vs' = vs' ≡ vs

abbrev EffectRead : Local → (vs vs' : List ℕ) → Type 0
EffectRead (d_next head tail next) vs vs' = (vs' ≡ vs) × ((next.pointer ≢ 0) ⊎ (vs ≡ []))
EffectRead p vs vs' = vs' ≡ vs

abbrev pub Effect : (p p' : Local) → (vs vs' : List ℕ) → Type 0
Effect (e_link node v tail next) p' vs vs' = EffectLink v p' vs vs'
Effect (d_swing head next v) p' vs vs' = EffectSwing p' vs vs'
Effect (d_tail head tail) p' vs vs' = EffectRead p' vs vs'
Effect p p' vs vs' = vs' ≡ vs

module _ (q : Queue) (handed : ℕ → Bool) (g : Ghost) where
  pub record Turned (p p' : Local) (q' : Queue) : Type 0 where
    pub ghost : Ghost
    pub grows : Grows q q' g ghost
    pub shared : IsShared q' handed ghost
    pub knows : Knows q' ghost p'
    pub kept : owns p' ≡ true → (owns p ≡ true) × (owned p' ≡ owned p)
    pub own : owns p' ≡ true → IsPrivate q' handed ghost (owned p') (value_of p')
    pub others : (m v : ℕ) → m ≢ owned p → IsPrivate q handed g m v → IsPrivate q' handed ghost m v
    pub effect : Effect p p' (contents q g) (contents q' ghost)

  module _ (s : IsShared q handed g) (p : Local)
      (mine : owns p ≡ true → IsPrivate q handed g (owned p) (value_of p)) where
    -- A step that only reads, and gives the node up or keeps it.
    pub drops :
        (p' : Local)
        → owns p' ≡ false
        → Knows q g p'
        → Effect p p' (contents q g) (contents q g)
        → Turned p p' q
    drops p' e k f = record {
      ghost = g;
      grows = Grows-refl q g;
      shared = s;
      knows = k;
      kept = λ ne. absurd (ground (arith, ne, e));
      own = λ ne. absurd (ground (arith, ne, e));
      others = λ m v ne h. h;
      effect = f;
    }

    pub keeps :
        (p' : Local)
        → owns p' ≡ owns p
        → owned p' ≡ owned p
        → value_of p' ≡ value_of p
        → Knows q g p'
        → Effect p p' (contents q g) (contents q g)
        → Turned p p' q
    keeps p' e0 e e' k f = record {
      ghost = g;
      grows = Grows-refl q g;
      shared = s;
      knows = k;
      kept = λ ne. (sym e0 ∙ ne, e);
      own = λ ne. subst₂ (IsPrivate q handed g) (sym e) (sym e') (mine (sym e0 ∙ ne));
      others = λ m v ne h. h;
      effect = f;
    }

    IsPrivate-same :
        (x m v : ℕ) (tail : Pointer)
        → IsPrivate q handed g m v
        → IsPrivate (record q { tail = tail }) handed (record g { tail = x }) m v
    IsPrivate-same x m v tail h = record {
      nonzero = h.nonzero;
      given = h.given;
      outside = h.outside;
      has_value = h.has_value;
      is_end = h.is_end;
    }

    -- A swap of the tail, after which the thread knows nothing.
    pub swings :
        (p' : Local) (tail : Pointer) (node : ℕ)
        → IsLink q g tail node
        → ((q' : Queue) (g' : Ghost) → Knows q' g' p')
        → (owns p' ≡ true → (owns p ≡ true) × (owned p' ≡ owned p) × (value_of p' ≡ value_of p))
        → Effect p p' (contents q g) (contents q g)
        → Turned p p' (record q { tail = (update_and_increment q.tail tail node).1 })
    swings p' tail node l k same f =
        let (x, grows, shared) = tail_swing q handed g s tail node l in
        let word = (update_and_increment q.tail tail node).1 in
        record {
          ghost = record g { tail = x };
          grows = grows;
          shared = shared;
          knows = k (record q { tail = word }) (record g { tail = x });
          kept = λ ne. ((same ne).0, (same ne).1);
          own = λ ne.
              subst₂ (IsPrivate (record q { tail = word }) handed (record g { tail = x }))
                (sym (same ne).1) (sym (same ne).2)
                (IsPrivate-same x (owned p) (value_of p) word (mine (same ne).0));
          others = λ m v ne h. IsPrivate-same x m v word h;
          effect = f;
        }
