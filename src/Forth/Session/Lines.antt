-- ===== src/Forth/Session/Lines.antt =====
-- `executeForth` follows the events of its session.
use duke_operatingsystems.Common.{
  Bool, Bool-cases, List, [], add64, arith, false, if◌then◌else◌, inl, inr, none, some, sub64, suc,
  true, u32, zero, ℕ, ◌*◌, ◌++◌, ◌+◌, ◌-◌, ◌<◌, ◌==◌, ◌^◌, ◌∙◌, ◌∷◌, ◌≡◌, ◌≢◌, ◌≤◌, ◌⊎◌, ap, ne→==,
  sym, refl,
}
use native.Mathlib.Nat.{suc-mul}
use duke_operatingsystems.Forth.Starter.{write_string}
use duke_operatingsystems.Forth.Contract.{RunsWithin, with_nul, with_output}
use duke_operatingsystems.Forth.{
  Forth, Interpreter, f_run, fcontinue_output_flush, fcontinue_input_done, fcontinue_yield,
  fcontinue_error,
}
use duke_operatingsystems.Forth.Session.{
  Source, Session, Printed, find_input, no_file, Outcome, run_line, session_loop, output_in,
  yielded, finished, execute_forth,
}
use duke_operatingsystems.Forth.Session.Events.{
  all_events, count_lines, last_words, Runs, find_input_lem,
}

module _ (fcontinue : Interpreter) (input_buffer output_buffer : ℕ) (in_nonnull : input_buffer ≢ 0)
    (out_nonnull : output_buffer ≢ 0) (out_end : output_buffer + 200 < 2 ^ 64) where
  -- fcontinue and the NUL behind it
  abbrev ran : Forth → ℕ × Forth
  ran f = ((fcontinue f).0, with_nul (fcontinue f).1)

  buffer_end : sub64 (add64 output_buffer 200) 1 ≡ output_buffer + 199
  buffer_end = omega (arith, out_end)

  f_run-output :
      (f : Forth) → f_run fcontinue 0 output_buffer 200 f ≡ ran (with_output output_buffer f)
  unfolding f_run
  f_run-output f =
      rw (ne→== output_buffer 0 out_nonnull)
        (ap (λ m. ran (record f { output_current = output_buffer; output_max = m })) buffer_end)

  abbrev with_line : List ℕ → Forth → Forth
  with_line line f = record f {
    mem = write_string input_buffer line f.mem;
    input_current = input_buffer;
  }

  abbrev started : Bool → Forth → Forth
  started flag f = if flag then with_output output_buffer f else f

  run_line_lem :
      (line : List ℕ) (s : Session)
      → run_line fcontinue input_buffer output_buffer line s
        ≡ ran (with_line line (started s.buffer_flushed s.forth))
  unfolding run_line f_run
  run_line_lem line s = elim (Bool-cases s.buffer_flushed) [
    | inl t ↦
        rw (t, ne→== output_buffer 0 out_nonnull, ne→== input_buffer 0 in_nonnull)
          (ap
            (λ m.
              ran (
                with_line line (record s.forth { output_current = output_buffer; output_max = m })))
            buffer_end)
    | inr e ↦ rw (e, ne→== input_buffer 0 in_nonnull) refl
  ]

  abbrev loop : ℕ → ℕ → Session → Outcome
  loop = session_loop fcontinue input_buffer output_buffer

  flush_turn :
      (fuel : ℕ) (s : Session)
      → loop (suc fuel) fcontinue_output_flush s
        ≡ loop fuel (u32 (ran (with_output output_buffer s.forth)).0) (record s {
          forth = (ran (with_output output_buffer s.forth)).1;
          printed = s.printed ++ (output_in s.forth.mem ∷ []);
        })
  unfolding session_loop
  flush_turn fuel s =
      ap
        (λ x.
          loop fuel (u32 x.0)
            (record s { forth = x.1; printed = s.printed ++ (output_in s.forth.mem ∷ []) }))
        (f_run-output s.forth)

  yield_turn :
      (fuel : ℕ) (s : Session)
      → loop (suc fuel) fcontinue_yield s
        ≡ loop fuel
            (u32 (ran s.forth).0)
            (record s { forth = (ran s.forth).1; printed = s.printed ++ (yielded ∷ []) })
  unfolding session_loop f_run
  yield_turn fuel s = refl

  last_turn :
      (fuel r : ℕ) (s : Session)
      → r ≢ fcontinue_yield
      → r ≢ fcontinue_input_done
      → r ≢ fcontinue_output_flush
      → loop (suc fuel) r s
        ≡ finished (record s { printed = s.printed ++ (last_words r s.forth ∷ []) })
  unfolding session_loop
  last_turn fuel r s no_yield no_input no_flush = elim (Bool-cases (r == fcontinue_error)) [
    | inl t ↦ rw (ne→== r fcontinue_yield no_yield, ne→== r fcontinue_input_done no_input, t) refl
    | inr f ↦
        rw
          (
            ne→== r fcontinue_yield no_yield,
            ne→== r fcontinue_input_done no_input,
            f,
            ne→== r fcontinue_output_flush no_flush,
          )
          refl
  ]

  -- A line leads, within its calls, to the end of its run.
  runs_lem :
      (n spare fuel : ℕ) (g : Forth) (s : Session) (Q : ℕ → Forth → List Printed → Type 0)
      → n + spare ≤ suc fuel
      → RunsWithin fcontinue output_buffer n g s.printed Q
      → (left : ℕ) × (r : ℕ) × (f' : Forth) × (printed' : List Printed) × (spare ≤ left)
        × (r ≢ fcontinue_yield)
        × (r ≢ fcontinue_output_flush)
        × Q r f' printed'
        × (loop fuel (u32 (ran g).0) (record s { forth = (ran g).1 })
            ≡ loop left r (record s { forth = f'; printed = printed' }))
  runs_lem zero spare fuel g s Q le h = absurd h
  runs_lem (suc n) spare fuel g s Q le (inr (inr (no_yield, no_flush, lt, q))) = (
    fuel,
    (fcontinue g).0,
    (ran g).1,
    s.printed,
    omega (arith, le),
    no_yield,
    no_flush,
    q,
    ap (λ r. loop fuel r (record s { forth = (ran g).1 })) (omega (arith, lt)),
  )
  runs_lem (suc zero) spare fuel g s Q le (inl (e, h)) = absurd h
  runs_lem (suc zero) spare fuel g s Q le (inr (inl (e, h))) = absurd h
  runs_lem (suc (suc n)) spare zero g s Q le (inl (e, h)) = absurd (omega (arith, le))
  runs_lem (suc (suc n)) spare zero g s Q le (inr (inl (e, h))) = absurd (omega (arith, le))
  runs_lem (suc (suc n)) spare (suc fuel) g s Q le (inl (e, h)) =
      let s1 : Session = record s { forth = (ran g).1 } in
      let (left, r, f', printed', enough, a, b, q, run) =
        runs_lem (suc n) spare fuel (ran g).1 (record s1 { printed = s.printed ++ (yielded ∷ []) })
          Q (omega (arith, le)) h in
      (
        left,
        r,
        f',
        printed',
        enough,
        a,
        b,
        q,
        ap (λ x. loop (suc fuel) (u32 x) s1) e ∙ yield_turn fuel s1 ∙ run,
      )
  runs_lem (suc (suc n)) spare (suc fuel) g s Q le (inr (inl (e, h))) =
      let s1 : Session = record s { forth = (ran g).1 } in
      let (left, r, f', printed', enough, a, b, q, run) =
        runs_lem (suc n) spare fuel (with_output output_buffer (ran g).1)
          (record s1 { printed = s.printed ++ (output_in (ran g).1.mem ∷ []) }) Q
          (omega (arith, le)) h in
      (
        left,
        r,
        f',
        printed',
        enough,
        a,
        b,
        q,
        ap (λ x. loop (suc fuel) (u32 x) s1) e ∙ flush_turn fuel s1 ∙ run,
      )

  input_turn :
      (fuel : ℕ) (s : Session) (line : List ℕ)
      → (find_input s.sources s.file s).0 ≡ some line
      → let s1 = (find_input s.sources s.file s).1 in
        let g = with_line line (started s1.buffer_flushed s1.forth) in
        loop (suc fuel) fcontinue_input_done s
        ≡ loop fuel (u32 (ran g).0) (record s1 { forth = (ran g).1; buffer_flushed = false })
  unfolding session_loop
  input_turn fuel s line e =
      let s1 = (find_input s.sources s.file s).1 in
      rw e (
        ap (λ x. loop fuel (u32 x.0) (record s1 { forth = x.1; buffer_flushed = false }))
          (run_line_lem line s1))

  no_input_turn :
      (fuel : ℕ) (s : Session)
      → (find_input s.sources s.file s).0 ≡ none
      → loop (suc fuel) fcontinue_input_done s ≡ finished (find_input s.sources s.file s).1
  unfolding session_loop
  no_input_turn fuel s e = rw e refl

  -- The end of a session, and its state then.
  abbrev Ends : Outcome → Forth × List Printed → Type 0
  Ends o e = (s' : Session) × (o ≡ finished s') × ((s'.forth, s'.printed) ≡ e)

  session_lem :
      (calls n fuel : ℕ) (s : Session) (e : Forth × List Printed)
      → count_lines (all_events s.file s.sources) ≡ n
      → n * calls < fuel
      → Runs fcontinue input_buffer output_buffer calls
          (all_events s.file s.sources)
          s.buffer_flushed
          s.forth
          s.printed
          e
      → Ends (loop fuel fcontinue_input_done s) e
  session_lem calls n zero s e count lt h = absurd (omega (arith, lt))
  session_lem calls zero (suc fuel) s e count lt h =
      elim (find_input_lem fcontinue input_buffer output_buffer calls s.sources s.file s e h) [
        | inl (nothing, end) ↦
            ((find_input s.sources s.file s).1, no_input_turn fuel s nothing, sym end)
        | inr (line, found, fewer, runs) ↦ absurd (omega (arith, count, fewer))
      ]
  session_lem calls (suc n) (suc fuel) s e count lt h =
      elim (find_input_lem fcontinue input_buffer output_buffer calls s.sources s.file s e h) [
        | inl (nothing, end) ↦
            ((find_input s.sources s.file s).1, no_input_turn fuel s nothing, sym end)
        | inr (line, found, fewer, runs) ↦
            let s1 = (find_input s.sources s.file s).1 in
            let (left, r, f', printed', enough, no_yield, no_flush, q, run) =
              runs_lem calls (suc (n * calls)) fuel
                (with_line line (started s1.buffer_flushed s1.forth))
                (record s1 { buffer_flushed = false })
                (λ r f' printed'.
                  ((r ≡ fcontinue_input_done)
                    × Runs fcontinue input_buffer output_buffer calls
                        (all_events s1.file s1.sources) false f' printed' e)
                  ⊎ ((r ≢ fcontinue_input_done) × (e ≡ (f', printed' ++ (last_words r f' ∷ [])))))
                (omega (arith, lt, suc-mul n calls)) runs in
            let s2 : Session = record s1 {
              forth = f';
              printed = printed';
              buffer_flushed = false;
            } in
            elim q [
              | inl (same, rest) ↦
                  let (s', end, state) =
                    session_lem calls n left s2 e (omega (arith, count, fewer)) enough rest in
                  (
                    s',
                    input_turn fuel s line found ∙ run ∙ ap (λ x. loop left x s2) same ∙ end,
                    state,
                  )
              | inr (other, ends) ↦ (
                record s2 { printed = printed' ++ (last_words r f' ∷ []) },
                input_turn fuel s line found
                    ∙ run
                    ∙ ap (λ m. loop m r s2) {x = left} {y = suc (left - 1)} (omega (arith, enough))
                    ∙ last_turn (left - 1) r s2 no_yield other no_flush,
                sym ends,
              )
            ]
      ]

  -- With buffers that are not NULL and do not wrap, an interpreter that runs each line of this session within so many calls, and fuel for the lines: `executeForth` gives
  -- the lines of the files that open and then of the standard input to the interpreter in order, with the output
  -- printed and reset at each flush, a note at each yield, the output at each prompt, and a new output buffer for the first line and behind each prompt alone;
  -- it ends when no line is left, or with a message at the first line that is not answered by INPUT_DONE.
  pub execute_forth_lem :
      (calls fuel : ℕ) (sources : List Source) (f : Forth) (e : Forth × List Printed)
      → count_lines (all_events no_file sources) * calls < fuel
      → Runs fcontinue input_buffer output_buffer calls (all_events no_file sources) true f [] e
      → (s' : Session) × (execute_forth fcontinue input_buffer output_buffer fuel sources f
          ≡ finished s')
        × ((s'.forth, s'.printed) ≡ e)
  unfolding execute_forth
  execute_forth_lem calls fuel sources f e lt h =
      session_lem calls (count_lines (all_events no_file sources)) fuel
        (record {
          forth = f;
          file = no_file;
          sources = sources;
          buffer_flushed = true;
          printed = [];
        })
        e refl lt h
