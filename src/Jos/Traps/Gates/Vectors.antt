-- ===== src/Jos/Traps/Gates/Vectors.antt =====
-- What each of the 256 vectors holds after `trap_init`.
use duke_operatingsystems.Common.{
  Bool, arith, false, if◌then◌else◌, leb, not, suc, zero, ℕ, ◌&&◌, ◌*◌, ◌+◌, ◌<◌, ◌==◌, ◌^◌, ◌||◌,
  ◌≡◌,
}
use duke_operatingsystems.Jos.Traps.Gates.{Gatedesc, Handlers, trap_init, Idt, fill_idt, gate}

-- Where a gate leads: the two halves of its offset put together.
abbrev pub target : Gatedesc → ℕ
target g = g.gd_off_31_16 * 2 ^ 16 + g.gd_off_15_0

-- The vectors that have an entry point of their own.
abbrev pub has_handler : ℕ → Bool
has_handler i = i == 48 || (leb i 19 && not (i == 9) && not (i == 15))

abbrev pub entry_for : Handlers → ℕ → ℕ
entry_for hs i = if has_handler i then hs.th i else hs.unktraphandler

fill_idt-below :
    (hs : Handlers) (n : ℕ) (idt : Idt) (i : ℕ)
    → i < n
    → fill_idt hs n idt i ≡ gate false 0x08 hs.unktraphandler 0
unfolding fill_idt
fill_idt-below hs zero idt i h = absurd (omega arith)
fill_idt-below hs (suc n) idt i h = ground (arith, fill_idt-below hs n idt i)

vector :
    (hs : Handlers) (idt : Idt) (i : ℕ)
    → i < 256
    → trap_init hs idt i ≡ gate (i == 3) 0x08 (entry_for hs i) (if i == 3 || i == 48 then 3 else 0)
unfolding trap_init
vector hs idt i h = ground (arith, fill_idt-below hs 256 idt i)

-- With entry points below 2^32, after `trap_init` every vector below 256 is a present system descriptor of the selector 0x08 and leads
-- to the entry point of its own trap, or to `unktraphandler` if it has none. Vectors 3 and 48 have
-- privilege 3 and all others 0; vector 3 is a 32-bit trap gate (type 0xF) and all others are 32-bit interrupt
-- gates (type 0xE).
pub trap_init_lem :
    (hs : Handlers) (idt : Idt) (i : ℕ)
    → i < 256
    → ((k : ℕ) → hs.th k < 2 ^ 32)
    → hs.unktraphandler < 2 ^ 32
    → let g = trap_init hs idt i in
      (target g ≡ entry_for hs i)
      × (g.gd_sel ≡ 0x08)
      × (g.gd_p ≡ 1)
      × (g.gd_s ≡ 0)
      × (g.gd_dpl ≡ (if i == 3 || i == 48 then 3 else 0))
      × (g.gd_type ≡ (if i == 3 then 0xF else 0xE))
trap_init_lem hs idt i h small unk = rw (vector hs idt i h) (ground (arith, small i))
