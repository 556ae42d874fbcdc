-- ===== src/Forth/Loading.antt =====
-- Loading a file gives its lines to the interpreter in order, up to one that does not end well.
use duke_operatingsystems.Common.{
  List, [], arith, inl, inr, length, ne→==, refl, some, suc, sym, u32, zero, ℕ, ◌*◌, ◌+◌, ◌-◌, ◌<◌,
  ◌∙◌, ◌∷◌, ◌≡◌, ◌≢◌, ◌≤◌, ◌⊎◌, ap,
}
use native.Mathlib.Nat.{suc-mul}
use duke_operatingsystems.Forth.{Forth, Interpreter, fcontinue_input_done, fcontinue_output_flush}
use duke_operatingsystems.Forth.Starter.{
  Ended, given_line, starter_loop, load_starter_forth_at_path, loaded, exited, stuck, write_string,
}
use duke_operatingsystems.Forth.Contract.{AnswersWithin}

module _ (fcontinue : Interpreter) (input_buffer output_buffer : ℕ) where
  -- How the loading of these lines, each of which is answered within so many calls, ends: with the data behind the last of
  -- them, or in exit(2) at the first one that is not answered by INPUT_DONE.
  abbrev pub Loads : (calls : ℕ) → List (List ℕ) → Forth → Ended → Type 0
  Loads calls [] f e = e ≡ loaded f
  Loads calls (line ∷ lines) f e =
      AnswersWithin fcontinue output_buffer calls
        (record f { mem = write_string input_buffer line f.mem; input_current = input_buffer })
        (λ r f'.
          ((r ≡ fcontinue_input_done) × Loads calls lines f' e)
          ⊎ ((r ≢ fcontinue_input_done) × (e ≡ exited 2)))

  -- The same end with the output pointers of the data f.
  abbrev pub restored : Forth → Ended → Ended
  restored f (loaded f') =
      loaded (record f' { output_current = f.output_current; output_max = f.output_max })
  restored f (exited status) = exited status
  restored f stuck = stuck

  module _ (f0 : Forth) where
    abbrev loop : (fuel fresult : ℕ) (lines : List (List ℕ)) → Forth → Ended
    loop = starter_loop fcontinue input_buffer output_buffer f0.output_current f0.output_max

    -- The loop behind a call of fcontinue on f.
    abbrev called : (fuel : ℕ) (lines : List (List ℕ)) → Forth → Ended
    called fuel lines f = loop fuel (u32 (fcontinue f).0) lines (fcontinue f).1

    flushes :
        (fuel : ℕ) (lines : List (List ℕ)) (f : Forth)
        → loop (suc fuel) fcontinue_output_flush lines f
          ≡ called fuel lines (record f { output_current = output_buffer })
    unfolding starter_loop
    flushes fuel [] f = refl
    flushes fuel (line ∷ lines) f = refl

    -- A result that is neither a request for input nor a flush.
    other_result :
        (fuel r : ℕ) (lines : List (List ℕ)) (f : Forth)
        → r ≢ fcontinue_input_done
        → r ≢ fcontinue_output_flush
        → loop (suc fuel) r lines f ≡ exited 2
    unfolding starter_loop
    other_result fuel r [] f ne ne' =
        rw (ne→== r fcontinue_input_done ne, ne→== r fcontinue_output_flush ne') refl
    other_result fuel r (line ∷ lines) f ne ne' =
        rw (ne→== r fcontinue_input_done ne, ne→== r fcontinue_output_flush ne') refl

    answers :
        (n spare fuel : ℕ) (lines : List (List ℕ)) (f : Forth) (Q : ℕ → Forth → Type 0)
        → n + spare ≤ suc fuel
        → AnswersWithin fcontinue output_buffer n f Q
        → (left : ℕ) × (r : ℕ) × (f' : Forth) × (spare ≤ left)
          × (r ≢ fcontinue_output_flush)
          × Q r f'
          × (called fuel lines f ≡ loop left r lines f')
    answers zero spare fuel lines f Q le h = absurd h
    answers (suc n) spare fuel lines f Q le (inr (ne, lt, q)) = (
      fuel,
      (fcontinue f).0,
      (fcontinue f).1,
      omega (arith, le),
      ne,
      q,
      ap (λ r. loop fuel r lines (fcontinue f).1) (omega (arith, lt)),
    )
    answers (suc zero) spare fuel lines f Q le (inl (e, h)) = absurd h
    answers (suc (suc n)) spare zero lines f Q le (inl (e, h)) = absurd (omega (arith, le))
    answers (suc (suc n)) spare (suc fuel) lines f Q le (inl (e, h)) =
        let (left, r, f', enough, ne, q, run) =
          answers (suc n) spare fuel lines
            (record (fcontinue f).1 { output_current = output_buffer }) Q (omega (arith, le)) h in
        (
          left,
          r,
          f',
          enough,
          ne,
          q,
          ap (λ r. loop (suc fuel) (u32 r) lines (fcontinue f).1) e
              ∙ flushes fuel lines (fcontinue f).1
              ∙ run,
        )

    loop_lem :
        (calls : ℕ) (lines : List (List ℕ)) (fuel : ℕ) (f : Forth) (e : Ended)
        → length lines * calls < fuel
        → Loads calls lines f e
        → loop fuel fcontinue_input_done lines f ≡ restored f0 e
    unfolding starter_loop
    loop_lem calls lines zero f e lt h = absurd (omega (arith, lt))
    loop_lem calls [] (suc fuel) f e lt h = ap (restored f0) (sym h)
    loop_lem calls (line ∷ lines) (suc fuel) f e lt h =
        let (left, r, f1, enough, ne, q, run) =
          answers calls (suc (length lines * calls)) fuel lines
            (given_line fcontinue input_buffer output_buffer line f)
            (λ r f'.
              ((r ≡ fcontinue_input_done) × Loads calls lines f' e)
              ⊎ ((r ≢ fcontinue_input_done) × (e ≡ exited 2)))
            (omega (arith, lt, suc-mul (length lines) calls)) h in
        run ∙ (elim q [
          | inl (same, rest) ↦
              ap (λ x. loop left x lines f1) same ∙ loop_lem calls lines left f1 e enough rest
          | inr (other, ends) ↦
              ap (λ n. loop n r lines f1) {x = left} {y = suc (left - 1)} (omega (arith, enough))
              ∙ other_result (left - 1) r lines f1 other ne
              ∙ ap (restored f0) (sym ends)
        ])

  -- For a file that opens, whose lines are each answered within so many calls, and fuel for them: `load_starter_forth_at_path` gives each line to
  -- the interpreter in order, the output pointer back at the start of its buffer behind every flush. When all are answered by INPUT_DONE it
  -- returns, and the output pointers are what they were; otherwise it exits with 2 at the first that is not.
  pub load_starter_forth_at_path_lem :
      (calls : ℕ) (lines : List (List ℕ)) (fuel : ℕ) (f : Forth) (e : Ended)
      → length lines * calls < fuel
      → Loads calls lines
          (record f { output_current = output_buffer; output_max = output_buffer + 200 })
          e
      → load_starter_forth_at_path fcontinue input_buffer output_buffer fuel (some lines) f
        ≡ restored f e
  unfolding load_starter_forth_at_path
  load_starter_forth_at_path_lem calls lines fuel f e lt h =
      loop_lem f calls lines fuel
        (record f { output_current = output_buffer; output_max = output_buffer + 200 }) e lt h
