-- ===== src/Queue/Threads/Alone/Finishing.antt =====
-- A thread that runs alone finishes its call, wherever the others have left the queue.
use duke_operatingsystems.Common.{suc, zero, ℕ}
use duke_operatingsystems.Queue.Ops.{Queue}
use duke_operatingsystems.Queue.Threads.{
  Local, World, turned, e_tail, e_next, e_link, e_help, e_swing, d_head, d_tail, d_next, d_same,
  d_alpha, d_help, d_value, d_swing, d_free,
}
use duke_operatingsystems.Queue.Threads.Ghost.{Ghost}

-- How many turns a thread is from the beginning of a loop at most, 0 outside of a call.
abbrev rank : Local → ℕ
rank (e_tail node v tail) = 4
rank (e_next node v tail next) = 3
rank (e_link node v tail next) = 2
rank (e_help node v tail next) = 1
rank (e_swing node v tail) = 1
rank (d_head head) = 8
rank (d_tail head tail) = 7
rank (d_next head tail next) = 6
rank (d_same head tail next) = 5
rank (d_alpha head tail next alpha_next) = 4
rank (d_help tail next) = 1
rank (d_value head next) = 3
rank (d_swing head next v) = 2
rank (d_free head v) = 1
rank p = 0

-- n turns of the thread t.
abbrev pub run_alone : (n t : ℕ) → World → World
run_alone zero t w = w
run_alone (suc n) t w = run_alone n t (turned t w)
