-- ===== src/Forth/Starter.antt =====
-- `load_starter_forth_at_path`, given the lines of the file as fgets reads them.
use duke_operatingsystems.Common.{
  List, Option, [], if◌then◌else◌, none, some, suc, u32, update, zero, ℕ, ◌+◌, ◌==◌, ◌∷◌,
}
use duke_operatingsystems.Forth.{Forth, Interpreter, fcontinue_input_done, fcontinue_output_flush}

-- A string and its NUL at an address.
abbrev pub write_string : ℕ → List ℕ → (ℕ → ℕ) → ℕ → ℕ
write_string p [] mem = update mem p 0
write_string p (c ∷ cs) mem = update (write_string (p + 1) cs mem) p c

-- How the loading ends: in a return, in an exit with its status, or not within the fuel.
pub data Ended : Type 0 where
  loaded : Forth → Ended
  exited : ℕ → Ended
  stuck : Ended

module _ (fcontinue : Interpreter) (input_buffer output_buffer : ℕ) where
  abbrev pub given_line : List ℕ → Forth → Forth
  given_line line f = record f {
    mem = write_string input_buffer line f.mem;
    input_current = input_buffer;
  }

  abbrev pub flushed : Forth → Forth
  flushed f = record f { output_current = output_buffer }

  module _ (orig_output orig_output_max : ℕ) where
    -- The loop, from the switch on; `lines` are those left in the file.
    unfoldable pub starter_loop : (fuel fresult : ℕ) (lines : List (List ℕ)) → Forth → Ended
    starter_loop zero fresult lines f = stuck
    starter_loop (suc fuel) fresult [] f =
        if fresult == fcontinue_input_done
        then loaded (record f { output_current = orig_output; output_max = orig_output_max })
        else (if fresult == fcontinue_output_flush
            then (let (r, f') = fcontinue (flushed f) in starter_loop fuel (u32 r) [] f')
            else exited 2)
    starter_loop (suc fuel) fresult (line ∷ lines) f =
        if fresult == fcontinue_input_done
        then (let (r, f') = fcontinue (given_line line f) in starter_loop fuel (u32 r) lines f')
        else (if fresult == fcontinue_output_flush
            then (let (r, f') = fcontinue (flushed f) in
                starter_loop fuel (u32 r) (line ∷ lines) f')
            else exited 2)

  -- `none` stands for a file that cannot be opened.
  unfoldable pub load_starter_forth_at_path : ℕ → Option (List (List ℕ)) → Forth → Ended
  load_starter_forth_at_path fuel none f = exited 1
  load_starter_forth_at_path fuel (some lines) f =
      starter_loop f.output_current f.output_max fuel fcontinue_input_done lines
        (record f { output_current = output_buffer; output_max = output_buffer + 200 })
