-- ===== src/Pager/Bounds.antt =====
-- Where the bookkeeping goes wrong: the test of the address, and a second call of `initialize_forth`.
use duke_operatingsystems.Pager.Fifo.{Keeps}
use duke_operatingsystems.Pager.Handler.{
  Outcome, exited, out_of_bounds, resumed, initialize_forth, Pager, num_pages, out_of_bounds,
}
use duke_operatingsystems.Common.{Bool, [], arith, false, true, ℕ, ◌<◌, ◌≡◌, ◌≤◌}

is_wild : Outcome → Bool
is_wild (exited n) = false
is_wild out_of_bounds = true
is_wild (resumed address page unmapped s) = false

-- For at least one page, with no fault counted and nothing mapped beyond the region,
-- `initialize_forth` leaves a pager that keeps the empty queue.
pub initialize_forth-Keeps :
    (m : ℕ) (s : Pager)
    → 0 < m
    → s.totcount ≡ 0
    → ((p : ℕ) → num_pages ≤ p → s.mapped p ≡ false)
    → Keeps (initialize_forth m s) []
unfolding initialize_forth
initialize_forth-Keeps m s pos zero_count beyond = record {
  fits = omega arith;
  filling = λ lt. zero_count;
  full = λ e. absurd (omega arith);
  free = λ i le lt. ground arith;
  slot = λ j. j;
  slots = record {
    slot-lt = λ j lt. lt;
    life-lt = λ i lt. absurd (omega arith);
    life-slot = λ j lt. absurd (omega arith);
    slot-life = λ i lt. absurd (omega arith);
    named = λ i lt. absurd (omega arith);
  };
  resident = record {
    apart = λ i j a b h. absurd (omega arith);
    is_mapped = λ j lt. absurd (omega arith);
    is_listed = λ p h. absurd (ground (arith, h, beyond p));
  };
}
