-- ===== src/Barrier/Futex/Places.antt =====
-- Where a thread is in its first round at the barrier on a futex.
use duke_operatingsystems.Common.{
  Bool, arith, false, if_intro, ltb, refl, suc, true, zero, ◌==◌, ◌≡◌,
}
use duke_operatingsystems.Barrier.Futex.{
  Place, Counters, wait_at_barrier, calling, refused, stopped, adding, counting, sleeping,
  resetting, opening, leaving,
}

-- Behind the addition of its first call. A thread that fails the first assertion of that call is not, and
-- one that fails the last is.
abbrev pub has_added : Place → Bool
has_added (calling zero) = false
has_added (calling (suc i)) = true
has_added (adding zero) = false
has_added (adding (suc i)) = true
has_added (counting i) = true
has_added (resetting i) = true
has_added (opening i) = true
has_added (leaving i) = true
has_added (sleeping i) = true
has_added (refused zero) = false
has_added (refused (suc i)) = true
has_added (stopped i) = true

-- In a later call than the first, also when it has failed an assertion of it.
abbrev pub has_returned : Place → Bool
has_returned (calling zero) = false
has_returned (calling (suc i)) = true
has_returned (adding zero) = false
has_returned (adding (suc i)) = true
has_returned (counting zero) = false
has_returned (counting (suc i)) = true
has_returned (resetting zero) = false
has_returned (resetting (suc i)) = true
has_returned (opening zero) = false
has_returned (opening (suc i)) = true
has_returned (leaving zero) = false
has_returned (leaving (suc i)) = true
has_returned (sleeping zero) = false
has_returned (sleeping (suc i)) = true
has_returned (refused zero) = false
has_returned (refused (suc i)) = true
has_returned (stopped zero) = false
has_returned (stopped (suc i)) = true

-- In its first call, and not yet the one that opens the barrier.
abbrev pub is_early : Place → Bool
is_early (calling zero) = true
is_early (calling (suc i)) = false
is_early (adding zero) = true
is_early (adding (suc i)) = false
is_early (counting zero) = true
is_early (counting (suc i)) = false
is_early (sleeping zero) = true
is_early (sleeping (suc i)) = false
is_early (resetting i) = false
is_early (opening i) = false
is_early (leaving i) = false
is_early (refused i) = false
is_early (stopped i) = false

pub not_returned : (p : Place) → is_early p ≡ true → has_returned p ≡ false
not_returned (calling zero) h = refl
not_returned (calling (suc i)) h = absurd (ground (arith, h))
not_returned (adding zero) h = refl
not_returned (adding (suc i)) h = absurd (ground (arith, h))
not_returned (counting zero) h = refl
not_returned (counting (suc i)) h = absurd (ground (arith, h))
not_returned (sleeping zero) h = refl
not_returned (sleeping (suc i)) h = absurd (ground (arith, h))
not_returned (resetting i) h = absurd (ground (arith, h))
not_returned (opening i) h = absurd (ground (arith, h))
not_returned (leaving i) h = absurd (ground (arith, h))
not_returned (refused i) h = absurd (ground (arith, h))
not_returned (stopped i) h = absurd (ground (arith, h))

-- A thread that has added itself stays so.
pub stays :
    (p : Place) (c : Counters) → has_added p ≡ true → has_added (wait_at_barrier p c).0 ≡ true
unfolding wait_at_barrier
stays (calling zero) c h = absurd (ground (arith, h))
stays (calling (suc i)) c h =
    if_intro (λ p. has_added p ≡ true) (c.barrier_opening_count == suc i) (λ _. refl) (λ _. refl)
stays (adding zero) c h = absurd (ground (arith, h))
stays (adding (suc i)) c h = refl
stays (counting i) c h =
    if_intro (λ p. has_added p ≡ true) (c.threads_at_barrier == c.threadnum) (λ _. refl) (λ _. refl)
stays (resetting i) c h = refl
stays (opening i) c h = refl
stays (leaving i) c h =
    if_intro (λ p. has_added p ≡ true) (ltb c.threads_at_barrier c.threadnum) (λ _. refl)
      (λ _. refl)
stays (sleeping i) c h =
    if_intro (λ p. has_added p ≡ true) (ltb i c.barrier_opening_count) (λ _. refl) (λ _. refl)
stays (refused zero) c h = absurd (ground (arith, h))
stays (refused (suc i)) c h = refl
stays (stopped i) c h = refl
