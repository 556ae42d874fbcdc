-- ===== src/Forth/Contract.antt =====
-- How the interpreter takes one line, its flushes and yields included: nothing is asked of it, so that a line may also end
-- in an error.
use duke_operatingsystems.Common.{
  List, [], suc, update, zero, ℕ, ◌++◌, ◌+◌, ◌<◌, ◌^◌, ◌∷◌, ◌≡◌, ◌≢◌, ◌⊎◌,
}
use duke_operatingsystems.Forth.{Forth, Interpreter, fcontinue_output_flush, fcontinue_yield}
use duke_operatingsystems.Forth.Session.{Printed, yielded, output_in}

-- Within n calls the interpreter, started on f, gives a result other than a flush, and Q holds of it and of the data
-- that it leaves; behind each flush the output pointer is set to `output_buffer`, and nothing else is changed.
abbrev pub AnswersWithin :
    Interpreter → (output_buffer n : ℕ) → Forth → (ℕ → Forth → Type 0) → Type 0
AnswersWithin fcontinue output_buffer zero f Q = ⊥
AnswersWithin fcontinue output_buffer (suc n) f Q =
    let (r, f') = fcontinue f in
    ((r ≡ fcontinue_output_flush)
      × AnswersWithin fcontinue output_buffer n (record f' { output_current = output_buffer }) Q)
    ⊎ ((r ≢ fcontinue_output_flush) × (r < 2 ^ 32) × Q r f')

-- The NUL that f_run writes behind the output, and an output buffer of 200 bytes that it sets.
abbrev pub with_nul : Forth → Forth
with_nul f = record f { mem = update f.mem f.output_current 0 }

abbrev pub with_output : ℕ → Forth → Forth
with_output output_buffer f = record f {
  output_current = output_buffer;
  output_max = output_buffer + 199;
}

-- The same through f_run, with what is printed: a note on each yield, and the output at each flush, behind which the
-- output buffer is set anew.
abbrev pub RunsWithin :
    Interpreter
    → (output_buffer n : ℕ) → Forth
    → List Printed
    → (ℕ → Forth → List Printed → Type 0)
    → Type 0
RunsWithin fcontinue output_buffer zero f printed Q = ⊥
RunsWithin fcontinue output_buffer (suc n) f printed Q =
    let r = (fcontinue f).0 in
    let f' = with_nul (fcontinue f).1 in
    ((r ≡ fcontinue_yield) × RunsWithin fcontinue output_buffer n f' (printed ++ (yielded ∷ [])) Q)
    ⊎ ((r ≡ fcontinue_output_flush)
        × RunsWithin fcontinue output_buffer n (with_output output_buffer f')
            (printed ++ (output_in f'.mem ∷ [])) Q)
    ⊎ ((r ≢ fcontinue_yield) × (r ≢ fcontinue_output_flush) × (r < 2 ^ 32) × Q r f' printed)
