-- ===== src/Jos/Printf/Printed.antt =====
-- What `cprintf` and `_panic` print.
use Prim.Native.String.{String}
use duke_operatingsystems.Common.{List, [], ap, none, refl, sym, ℕ, ◌++◌, ◌∙◌, ◌∷◌, ◌≡◌}
use mathlib.Core.Path.{subst}
use mathlib.Core.List.{append_assoc}
use duke_operatingsystems.Jos.Printing.{Arg, num, text}
use duke_operatingsystems.Jos.Console.Screen.{Screen, cputchar}
use duke_operatingsystems.Jos.Console.Screen.Bounds.{OnScreen, Kept, Kept-trans}
use duke_operatingsystems.Jos.Printf.{each, Formatter, putch, vcprintf, cprintf, panic}
use duke_operatingsystems.Jos.Printf.Wire.{
  Sends, Sends-nil, Sends-append, IsApart, IsApart-Sends, all_sent, sent, cputchar-Sends,
  cputchar-Kept,
}

-- The screen `t` has printed the characters `cs` since `s`: they are on the wire, the cursor is on the screen, and no cell
-- outside of it was written.
pub record HasPrinted (s : Screen) (cs : List ℕ) (t : Screen) : Type 0 where
  pub sends : Sends s (all_sent cs) t
  pub kept : Kept s t

all_sent-append : (xs ys : List ℕ) → all_sent (xs ++ ys) ≡ all_sent xs ++ all_sent ys
all_sent-append [] ys = refl
all_sent-append (x ∷ xs) ys =
    ap (λ l. sent x ++ l) (all_sent-append xs ys)
    ∙ sym (append_assoc (sent x) (all_sent xs) (all_sent ys))

-- Nothing printed.
pub HasPrinted-nil : (s : Screen) → OnScreen s → HasPrinted s [] s
HasPrinted-nil s on = record { sends = Sends-nil s; kept = (on, λ i le. refl) }

HasPrinted-append :
    (s t u : Screen) (xs ys : List ℕ)
    → HasPrinted s xs t
    → HasPrinted t ys u
    → HasPrinted s (xs ++ ys) u
HasPrinted-append s t u xs ys h k = record {
  sends =
      subst (λ l. Sends s l u) (sym (all_sent-append xs ys))
        (Sends-append s t u (all_sent xs) (all_sent ys) h.sends k.sends);
  kept = Kept-trans s t u h.kept k.kept;
}

each-putch :
    (cs : List ℕ) (s : Screen) (n : ℕ)
    → IsApart s
    → OnScreen s
    → ((each putch cs (s, n)).1 ≡ n) × HasPrinted s cs (each putch cs (s, n)).0
unfolding putch
each-putch [] s n apart on = (refl, record { sends = Sends-nil s; kept = (on, λ i le. refl) })
each-putch (c ∷ cs) s n apart on =
    let t = cputchar c s in
    let sends = cputchar-Sends c s apart in
    let kept = cputchar-Kept c s on in
    let (same, rest) = each-putch cs t n (IsApart-Sends s t (sent c) apart sends) kept.0 in
    let u = (each putch cs (t, n)).0 in
    (
      same,
      record {
        sends = Sends-append s t u (sent c) (all_sent cs) sends rest.sends;
        kept = Kept-trans s t u kept rest.kept;
      },
    )

module _ (f : Formatter) where
  vcprintf_lem :
      (fmt : String) (ap : List Arg) (s : Screen)
      → IsApart s
      → OnScreen s
      → ((vcprintf f fmt ap s).0 ≡ 0) × HasPrinted s (f.chars fmt ap) (vcprintf f fmt ap s).1
  unfolding vcprintf
  vcprintf_lem fmt ap s apart on =
      subst (λ (r : Screen × ℕ). (r.1 ≡ 0) × HasPrinted s (f.chars fmt ap) r.0)
        (sym (f.vprintfmt-each putch fmt ap (s, 0))) (each-putch (f.chars fmt ap) s 0 apart on)

  -- With the cursor on the screen and a screen controller apart from the serial port, `cprintf` returns 0 whatever it prints, sends
  -- the formatted characters over the serial port in their order, each tab followed by five blanks, leaves the cursor on the
  -- screen, and writes no cell outside of it.
  pub cprintf_lem :
      (fmt : String) (ap : List Arg) (s : Screen)
      → IsApart s
      → OnScreen s
      → ((cprintf f fmt ap s).0 ≡ 0) × HasPrinted s (f.chars fmt ap) (cprintf f fmt ap s).1
  unfolding cprintf
  cprintf_lem fmt ap s apart on = vcprintf_lem fmt ap s apart on

  -- A line that begins with a heading: three calls in order.
  heading_lem :
      (head : String) (args : List Arg) (fmt : String) (ap : List Arg) (s : Screen)
      → IsApart s
      → OnScreen s
      → let s1 = (cprintf f head args s).1 in
        let s2 = (vcprintf f fmt ap s1).1 in
        HasPrinted s
          (f.chars head args ++ (f.chars fmt ap ++ f.chars "\n" []))
          (cprintf f "\n" [] s2).1
  heading_lem head args fmt ap s apart on =
      let (_, h1) = cprintf_lem head args s apart on in
      let s1 = (cprintf f head args s).1 in
      let apart1 = IsApart-Sends s s1 (all_sent (f.chars head args)) apart h1.sends in
      let (_, h2) = vcprintf_lem fmt ap s1 apart1 h1.kept.0 in
      let s2 = (vcprintf f fmt ap s1).1 in
      let apart2 = IsApart-Sends s1 s2 (all_sent (f.chars fmt ap)) apart1 h2.sends in
      let (_, h3) = cprintf_lem "\n" [] s2 apart2 h2.kept.0 in
      HasPrinted-append s s1 (cprintf f "\n" [] s2).1 (f.chars head args)
        (f.chars fmt ap ++ f.chars "\n" []) h1
        (HasPrinted-append s1 s2 (cprintf f "\n" [] s2).1 (f.chars fmt ap) (f.chars "\n" []) h2 h3)

  -- The line of the first `_panic`.
  panic-HasPrinted :
      (file : String) (line : ℕ) (fmt : String) (ap : List Arg) (s : Screen)
      → IsApart s
      → OnScreen s
      → HasPrinted s
          (f.chars "kernel panic at %s:%d: " (text file ∷ num line ∷ [])
            ++ (f.chars fmt ap ++ f.chars "\n" []))
          (panic f file line fmt ap (none, s)).1
  unfolding panic
  panic-HasPrinted file line fmt ap s apart on =
      heading_lem "kernel panic at %s:%d: " (text file ∷ num line ∷ []) fmt ap s apart on

  -- One call of `cprintf` more.
  pub cprintf-HasPrinted :
      (fmt : String) (ap : List Arg) (xs : List ℕ) (s t : Screen)
      → IsApart s
      → HasPrinted s xs t
      → HasPrinted s (xs ++ f.chars fmt ap) (cprintf f fmt ap t).1
  cprintf-HasPrinted fmt ap xs s t apart h =
      HasPrinted-append s t (cprintf f fmt ap t).1 xs (f.chars fmt ap) h
        (cprintf_lem fmt ap t (IsApart-Sends s t (all_sent xs) apart h.sends) h.kept.0).1
