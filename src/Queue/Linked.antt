-- ===== src/Queue/Linked.antt =====
-- The queue while a fresh node is prepared, and after it is linked behind the last.
use duke_operatingsystems.Common.{
  List, [], arith, get_or, if_ne, if_self, inl, inr, length, length-append, same_or_not, true,
  update, ◌++◌, ◌∙◌, ◌∷◌, ◌≡◌, ◌≢◌, ℕ, ◌<◌, ◌<◌, ◌<◌, ap, suc, sym,
}
use duke_operatingsystems.Queue.Fifo.{IsQueue, get_or-snoc, get_or-snoc_last}
use duke_operatingsystems.Queue.Ops.{Queue, with_node, Pointer}

-- malloc's node: not NULL and none of the queue's.
pub record IsNewNode (node : ℕ) (ns : List ℕ) : Type 0 where
  pub is_node : node ≢ 0
  pub unused : (i : ℕ) → i < length ns → get_or ns i 0 ≢ node

module _ (node value : ℕ) (q : Queue) (ns vs : List ℕ) (k : IsQueue q ns vs)
    (f : IsNewNode node ns) where
  other :
      {A : Type 0} (i : ℕ)
      → i < length ns
      → (g : ℕ → A) (x : A) → update g node x (get_or ns i 0) ≡ g (get_or ns i 0)
  other i lt g x = if_ne node (get_or ns i 0) x (g (get_or ns i 0)) (λ e. f.unused i lt (sym e))

  -- The node keeps out of the queue until it is linked.
  pub IsQueue-with_node : IsQueue (with_node node value q) ns vs
  unfolding with_node
  IsQueue-with_node = record {
    sizes = k.sizes;
    head_at = k.head_at;
    last = k.last;
    last-le = k.last-le;
    le-last = k.le-last;
    tail_at = k.tail_at;
    apart = k.apart;
    nonnull = k.nonnull;
    is_live = λ i lt. other i lt q.live true ∙ k.is_live i lt;
    linked = λ i lt.
        ap (λ p. p.pointer)
          (other i (omega (arith, k.sizes)) q.next
            record { pointer = 0; counter = (q.next node).counter })
        ∙ k.linked i lt;
    ended =
        ap (λ p. p.pointer)
          (other (length vs) (omega (arith, k.sizes)) q.next
            record { pointer = 0; counter = (q.next node).counter })
        ∙ k.ended;
    valued = λ i lt. other (suc i) (omega (arith, k.sizes)) q.value value ∙ k.valued i lt;
  }

module _ (node value : ℕ) (q : Queue) (ns vs : List ℕ) (k : IsQueue q ns vs) (f : IsNewNode node ns)
    (c d : ℕ) where
  -- The queue after the node has been linked and the tail moved to it.
  pub IsQueue-linked :
      q.value node ≡ value
      → (q.next node).pointer ≡ 0
      → q.live node ≡ true
      → IsQueue
          (record q {
            next = update q.next (get_or ns (length vs) 0) record { pointer = node; counter = c };
            tail = record { pointer = node; counter = d };
          })
          (ns ++ (node ∷ []))
          (vs ++ (value ∷ []))
  IsQueue-linked has_value is_end alive =
      let n = length vs in
      let end = get_or ns n 0 in
      let word : Pointer = record { pointer = node; counter = c } in
      let next' = update q.next end word in
      let ns' = ns ++ (node ∷ []) in
      let vs' = vs ++ (value ∷ []) in
      let ns_len = length-append ns (node ∷ []) in
      let vs_len = length-append vs (value ∷ []) in
      let old : (i : ℕ) → i < length ns → get_or ns' i 0 ≡ get_or ns i 0 =
        λ i lt. get_or-snoc ns node i 0 lt in
      let new : get_or ns' (suc n) 0 ≡ node = get_or-snoc_last ns node (suc n) 0 (sym k.sizes) in
      let new_at : (i : ℕ) → i ≡ length ns → get_or ns' i 0 ≡ node =
        λ i e. get_or-snoc_last ns node i 0 e in
      let unused : (i : ℕ) → i < length ns → get_or ns i 0 ≢ node = f.unused in
      record {
        sizes = omega (arith, ns_len, vs_len, k.sizes);
        head_at = k.head_at ∙ sym (old 0 (omega (arith, k.sizes)));
        last = suc n;
        last-le = omega (arith, vs_len);
        le-last = omega (arith, vs_len);
        tail_at = sym new;
        apart = λ i j a b h. elim (same_or_not i (length ns)) [
          | inl e ↦ (elim (same_or_not j (length ns)) [
            | inl e' ↦ e ∙ sym e'
            | inr g' ↦ absurd (
                unused j (ground (arith, ns_len))
                  (sym (old j (ground (arith, ns_len))) ∙ sym h ∙ new_at i e))
          ])
          | inr g ↦ (elim (same_or_not j (length ns)) [
            | inl e' ↦ absurd (
                unused i (ground (arith, ns_len))
                  (sym (old i (ground (arith, ns_len))) ∙ h ∙ new_at j e'))
            | inr g' ↦
                k.apart i j (ground (arith, ns_len)) (ground (arith, ns_len))
                  (sym (old i (ground (arith, ns_len))) ∙ h ∙ old j (ground (arith, ns_len)))
          ])
        ];
        nonnull = λ i lt h. elim (same_or_not i (length ns)) [
          | inl e ↦ f.is_node (sym (new_at i e) ∙ h)
          | inr g ↦ k.nonnull i (ground (arith, ns_len)) (sym (old i (ground (arith, ns_len))) ∙ h)
        ];
        is_live = λ i lt. elim (same_or_not i (length ns)) [
          | inl e ↦ ap q.live (new_at i e) ∙ alive
          | inr g ↦
              ap q.live (old i (ground (arith, ns_len))) ∙ k.is_live i (ground (arith, ns_len))
        ];
        linked = λ i lt. elim (same_or_not i n) [
          | inl e ↦
              ap (λ p. p.pointer)
                (ap next' (old i (omega (arith, k.sizes, vs_len)) ∙ ap (λ m. get_or ns m 0) e)
                  ∙ if_self end word (q.next end))
              ∙ sym (ap (λ m. get_or ns' (suc m) 0) e ∙ new)
          | inr g ↦
              ap (λ p. p.pointer)
                (ap next' (old i (ground (arith, k.sizes, vs_len)))
                  ∙ if_ne end (get_or ns i 0) word (q.next (get_or ns i 0)) (λ e. g (
                      sym (
                        k.apart n i (omega (arith, k.sizes)) (ground (arith, k.sizes, vs_len)) e))))
              ∙ k.linked i (ground (arith, vs_len))
              ∙ sym (old (suc i) (ground (arith, vs_len, k.sizes)))
        ];
        ended =
            ap (λ p. p.pointer)
              (ap next' (new_at (length vs') (omega (arith, vs_len, k.sizes)))
                ∙ if_ne end node word (q.next node) (unused n (omega (arith, k.sizes))))
            ∙ is_end;
        valued = λ i lt. elim (same_or_not i n) [
          | inl e ↦
              ap q.value (ap (λ m. get_or ns' (suc m) 0) e ∙ new)
              ∙ has_value
              ∙ sym (get_or-snoc_last vs value i 0 e)
          | inr g ↦
              ap q.value (old (suc i) (ground (arith, vs_len, k.sizes)))
              ∙ k.valued i (ground (arith, vs_len))
              ∙ sym (get_or-snoc vs value i 0 (ground (arith, vs_len)))
        ];
      }
