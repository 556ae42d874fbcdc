-- ===== src/Forth/Tests.antt =====
-- A small interpreter that adds up the first characters of its lines, and flushes now and then.
use duke_operatingsystems.Forth.Session.Lines.{execute_forth_lem}
use duke_operatingsystems.Forth.Session.Events.{Runs, all_events}
use duke_operatingsystems.Forth.Session.{
  Printed, output_in, Session, Source, opened, execute_forth, no_file, finished, interactive,
}
use duke_operatingsystems.Common.{
  Bool, List, [], arith, false, if◌then◌else◌, refl, some, true, ℕ, ◌++◌, ◌+◌, ◌<◌, ◌==◌, ◌^◌, ◌∷◌,
  ◌≡◌, ◌≢◌, inr, inl,
}
use duke_operatingsystems.Forth.{Forth, Interpreter}
use duke_operatingsystems.Forth.Starter.{loaded, load_starter_forth_at_path, write_string}
use duke_operatingsystems.Forth.Contract.{with_nul, with_output}
use duke_operatingsystems.Forth.Loading.{load_starter_forth_at_path_lem}

abbrev adder : Interpreter
adder f =
    if f.base == 0
    then (4, record f { base = 1 })
    else (2, record f { base = 0; state = f.state + f.mem f.input_current })

abbrev fresh_forth : Forth
fresh_forth = record {
  stack_top = 72;
  rstack_top = 64;
  rstack_bot = 64;
  stack_bot = 80;
  state = 0;
  here = 96;
  latest = 8;
  output_max = 300;
  output_current = 200;
  base = 10;
  input_current = 0;
  process_id = 1;
  mem = λ a. 0;
}

abbrev with_line : List ℕ → Forth → Forth
with_line line f = record f { mem = write_string 512 line f.mem; input_current = 512 }

abbrev at_start : Forth → Forth
at_start f = record f { output_current = 1024 }

-- The adder on three lines, of which the last two are answered behind a flush.
abbrev one_line : Forth
one_line =
    (adder
      (with_line (5 ∷ 9 ∷ []) (record fresh_forth { output_current = 1024; output_max = 1224 }))).1

abbrev two_lines : Forth
two_lines = (adder (at_start (adder (with_line [] one_line)).1)).1

abbrev three_lines : Forth
three_lines = (adder (at_start (adder (with_line (6 ∷ []) two_lines)).1)).1

two_four : ◌≢◌ {A = ℕ} 2 4
two_four e = absurd (omega (arith, e))

two_one : ◌≢◌ {A = ℕ} 2 1
two_one e = absurd (omega (arith, e))

two_small : 2 < 2 ^ 32
two_small = omega arith

three_sum : three_lines.state ≡ 11
three_sum = refl

load_starter_forth_at_path_lem_example :
    load_starter_forth_at_path adder 512 1024 7
      (some ((5 ∷ 9 ∷ []) ∷ [] ∷ (6 ∷ []) ∷ []))
      fresh_forth
    ≡ loaded (record three_lines { output_current = 200; output_max = 300 })
load_starter_forth_at_path_lem_example =
    load_starter_forth_at_path_lem adder 512 1024 2 ((5 ∷ 9 ∷ []) ∷ [] ∷ (6 ∷ []) ∷ []) 7
      fresh_forth (loaded three_lines) (omega arith)
      (inr (
        two_four,
        two_small,
        inl (
          refl,
          inl (
            refl,
            inr (
              two_four,
              two_small,
              inl (refl, inl (refl, inr (two_four, two_small, inl (refl, refl)))),
            ),
          ),
        ),
      ))

-- It takes the line, flushes its output, and then asks for more.
abbrev taker : Interpreter
taker f =
    if f.input_current == 0
    then (2, f)
    else (4, record f { input_current = 0; state = f.state + f.mem f.input_current })

abbrev two_files : List Source
two_files = opened ((5 ∷ 9 ∷ []) ∷ [] ∷ []) ∷ no_file ∷ interactive ((6 ∷ []) ∷ []) ∷ []

-- A line that the taker takes, and a prompt.
abbrev taken : Bool → List ℕ → Forth × List Printed → Forth × List Printed
taken flag line (f, printed) =
    let flushed_once =
      with_nul (taker (with_line line (if flag then with_output 1024 f else f))).1 in
    (
      with_nul (taker (with_output 1024 flushed_once)).1,
      printed ++ (output_in flushed_once.mem ∷ []),
    )

abbrev prompt_shown : Forth × List Printed → Forth × List Printed
prompt_shown (f, printed) = (f, printed ++ (output_in f.mem ∷ []))

abbrev session_end : Forth × List Printed
session_end = prompt_shown (
    taken true (6 ∷ []) (prompt_shown (taken false [] (taken true (5 ∷ 9 ∷ []) (fresh_forth, [])))))

session-Runs : Runs taker 512 1024 2 (all_events no_file two_files) true fresh_forth [] session_end
session-Runs = inr (
    inl (
      refl,
      inr (
          inr (
            two_one,
            two_four,
            two_small,
            inl (
              refl,
              inr (
                  inl (
                    refl,
                    inr (
                        inr (
                          two_one,
                          two_four,
                          two_small,
                          inl (
                            refl,
                            inr (
                                inl (
                                  refl,
                                  inr (inr (two_one, two_four, two_small, inl (refl, refl))),
                                )),
                          ),
                        )),
                  )),
            ),
          )),
    ))

execute_forth_lem_example :
    (s' : Session) × (execute_forth taker 512 1024 7 two_files fresh_forth ≡ finished s')
    × ((s'.forth, s'.printed) ≡ session_end)
execute_forth_lem_example =
    execute_forth_lem taker 512 1024 (λ e. absurd (omega (arith, e)))
      (λ e. absurd (omega (arith, e))) (omega arith) 2 7 two_files fresh_forth session_end
      (omega arith) session-Runs
