-- ===== src/Jos/Printf.antt =====
-- kern/printf.c, and `_panic` and `_warn` of kern/init.c. The formatter, `vprintfmt`, is not part of the
-- repository and a parameter.
pub mod Wire
pub mod Printed
use Prim.Native.String.{String}
use duke_operatingsystems.Common.{List, Option, [], ap, none, some, ℕ, ◌∷◌, ◌≡◌}
use duke_operatingsystems.Jos.Printing.{Arg, num, text}
use duke_operatingsystems.Jos.Console.Screen.{Screen, cputchar}

-- A function of one character and a state, for the characters of a list in order.
abbrev pub each : {State : Type 0} → (ℕ → State → State) → List ℕ → State → State
each put [] s = s
each put (c ∷ cs) s = each put cs (put c s)

-- `vprintfmt` calls `putch` with the characters of the formatted text, one after the other.
pub record Formatter : Type 1 where
  pub vprintfmt : {State : Type 0} → (ℕ → State → State) → String → List Arg → State → State
  pub chars : String → List Arg → List ℕ
  pub vprintfmt-each :
      {State : Type 0} (putch : ℕ → State → State) (fmt : String) (ap : List Arg) (s : State)
      → vprintfmt putch fmt ap s ≡ each putch (chars fmt ap) s

-- The screen and the count of `vcprintf`: `*cnt++` moves the pointer that `putch` has got, and leaves the count.
unfoldable pub putch : ℕ → Screen × ℕ → Screen × ℕ
putch ch (s, cnt) = (cputchar ch s, cnt)

module _ (f : Formatter) where
  -- The result, and the screen afterwards.
  unfoldable pub vcprintf : String → List Arg → Screen → ℕ × Screen
  vcprintf fmt ap s = let r = f.vprintfmt putch fmt ap (s, 0) in (r.1, r.0)

  unfoldable pub cprintf : String → List Arg → Screen → ℕ × Screen
  cprintf fmt ap s = vcprintf fmt ap s

  -- `_warn`: the line that it prints.
  unfoldable pub warn : (file : String) (line : ℕ) (fmt : String) → List Arg → Screen → Screen
  warn file line fmt ap s =
      let s1 = (cprintf "kernel warning at %s:%d: " (text file ∷ num line ∷ []) s).1 in
      let s2 = (vcprintf fmt ap s1).1 in (cprintf "\n" [] s2).1

  -- `_panic` up to `shutdown`, with the flag `panicstr`, which is set before anything is printed.
  unfoldable pub panic :
      (file : String) (line : ℕ) (fmt : String)
      → List Arg
      → Option String × Screen
      → Option String × Screen
  panic file line fmt ap (some first, s) = (some first, s)
  panic file line fmt ap (none, s) =
      let panicstr = some fmt in
      let s1 = (cprintf "kernel panic at %s:%d: " (text file ∷ num line ∷ []) s).1 in
      let s2 = (vcprintf fmt ap s1).1 in (panicstr, (cprintf "\n" [] s2).1)
