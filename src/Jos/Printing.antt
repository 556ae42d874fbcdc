-- ===== src/Jos/Printing.antt =====
-- Calls of `cprintf`: the formatter is not part of the repository, so a call is kept as its format and
-- its arguments.
use Prim.Native.String.{String}
use duke_operatingsystems.Common.{List, [], ℕ, ◌∷◌}

pub data Arg : Type 0 where
  num : ℕ → Arg
  text : String → Arg

pub data Call : Type 0 where
  cprintf : String → List Arg → Call
  -- cprintf(s) with a format that lies in user memory, at the address `s`
  cprintf_at : ℕ → Call

-- A call with one number, or with none.
abbrev pub line : String → ℕ → Call
line format n = cprintf format (num n ∷ [])

abbrev pub say : String → Call
say format = cprintf format []
