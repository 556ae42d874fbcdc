-- ===== src/Forth/Session.antt =====
-- VirtualMemoryAllocator/forth/jf_intepret.c: `executeForth`, given the lines of its files and of the standard
-- input as fgets reads them.
pub mod Events
pub mod Lines
use duke_operatingsystems.Common.{
  Bool, List, Option, [], false, if◌then◌else◌, none, some, suc, true, u32, zero, ℕ, ◌++◌, ◌==◌,
  ◌∷◌,
}
use duke_operatingsystems.Forth.{
  Forth, Interpreter, f_run, fcontinue_yield, fcontinue_input_done, fcontinue_error,
  fcontinue_output_flush,
}
use duke_operatingsystems.Forth.Starter.{write_string}

-- `file`: NULL, an opened file or the standard input, with the lines that are left.
pub data Source : Type 0 where
  no_file : Source
  opened : List (List ℕ) → Source
  interactive : List (List ℕ) → Source

-- What is printed: a note on a yield, the output buffer or the word buffer as memory holds them, or a note
-- on an unknown result.
pub data Printed : Type 0 where
  yielded : Printed
  output_in : (ℕ → ℕ) → Printed
  error_in : (ℕ → ℕ) → Printed
  unknown : Printed

-- The variables of `executeForth`; `sources` are what the arguments behind currFile and the standard input
-- open to.
pub record Session : Type 0 where
  pub forth : Forth
  pub file : Source
  pub sources : List Source
  pub buffer_flushed : Bool
  pub printed : List Printed

abbrev pub read_line : Source → Option (List ℕ × Source)
read_line no_file = none
read_line (opened []) = none
read_line (opened (line ∷ lines)) = some (line, opened lines)
read_line (interactive []) = none
read_line (interactive (line ∷ lines)) = some (line, interactive lines)

-- The flush of the output before a line is read from the standard input.
abbrev pub prompt : Source → Session → Session
prompt (interactive lines) s = record s {
  printed = s.printed ++ (output_in s.forth.mem ∷ []);
  buffer_flushed = true;
}
prompt file s = s

-- The inner loop, which looks for the next line.
unfoldable pub find_input : List Source → Source → Session → Option (List ℕ) × Session
find_input [] file s = elim (read_line file) [
  | none ↦ (none, record (prompt file s) { file = file; sources = [] })
  | some r ↦ (some r.0, record (prompt file s) { file = r.1; sources = [] })
]
find_input (next ∷ rest) file s = elim (read_line file) [
  | none ↦ find_input rest next (prompt file s)
  | some r ↦ (some r.0, record (prompt file s) { file = r.1; sources = next ∷ rest })
]

pub data Outcome : Type 0 where
  finished : Session → Outcome
  stuck : Outcome

module _ (fcontinue : Interpreter) (input_buffer output_buffer : ℕ) where
  -- A line goes to the interpreter, with the output buffer if that was flushed.
  unfoldable pub run_line : List ℕ → Session → ℕ × Forth
  run_line line s =
      let f = record s.forth { mem = write_string input_buffer line s.forth.mem } in
      if s.buffer_flushed
      then f_run fcontinue input_buffer output_buffer 200 f
      else f_run fcontinue input_buffer 0 0 f

  -- The outer loop, from the switch on.
  unfoldable pub session_loop : (fuel fresult : ℕ) → Session → Outcome
  session_loop zero fresult s = stuck
  session_loop (suc fuel) fresult s =
      if fresult == fcontinue_yield
      then (let (r, f) = f_run fcontinue 0 0 0 s.forth in
          session_loop fuel (u32 r) (record s { forth = f; printed = s.printed ++ (yielded ∷ []) }))
      else (if fresult == fcontinue_input_done
          then (let (found, s1) = find_input s.sources s.file s in
              elim found [
                | none ↦ finished s1
                | some line ↦
                    let (r, f) = run_line line s1 in
                    session_loop fuel (u32 r) (record s1 { forth = f; buffer_flushed = false })
              ])
          else (if fresult == fcontinue_error
              then finished (record s { printed = s.printed ++ (error_in s.forth.mem ∷ []) })
              else (if fresult == fcontinue_output_flush
                  then (let (r, f) = f_run fcontinue 0 output_buffer 200 s.forth in
                      session_loop fuel (u32 r) (record s {
                        forth = f;
                        printed = s.printed ++ (output_in s.forth.mem ∷ []);
                      }))
                  else finished (record s { printed = s.printed ++ (unknown ∷ []) }))))

  unfoldable pub execute_forth : (fuel : ℕ) (sources : List Source) → Forth → Outcome
  execute_forth fuel sources f =
      session_loop fuel fcontinue_input_done (record {
        forth = f;
        file = no_file;
        sources = sources;
        buffer_flushed = true;
        printed = [];
      })
