-- ===== src/Forth/Session/Events.antt =====
-- What a session of `executeForth` meets, lines and prompts, and how it should end.
use duke_operatingsystems.Common.{
  Bool, List, Option, [], false, if◌then◌else◌, inl, none, refl, some, suc, true, ℕ, ◌++◌, ◌==◌,
  ◌∷◌, ◌≡◌, ◌≢◌, ◌⊎◌, inr,
}
use duke_operatingsystems.Forth.Starter.{write_string}
use duke_operatingsystems.Forth.Contract.{RunsWithin, with_output}
use duke_operatingsystems.Forth.{Forth, Interpreter, fcontinue_input_done, fcontinue_error}
use duke_operatingsystems.Forth.Session.{
  Source, Session, Printed, prompt, find_input, opened, interactive, no_file, output_in, error_in,
  unknown,
}

-- What a session meets: the prompt before every read of the standard input, also of its end, and a line.
pub data Event : Type 0 where
  prompted : Event
  given : List ℕ → Event

abbrev pub events_of : Source → List Event
events_of no_file = []
events_of (opened []) = []
events_of (opened (line ∷ lines)) = given line ∷ events_of (opened lines)
events_of (interactive []) = prompted ∷ []
events_of (interactive (line ∷ lines)) = prompted ∷ given line ∷ events_of (interactive lines)

abbrev pub all_events : Source → List Source → List Event
all_events file [] = events_of file
all_events file (next ∷ rest) = events_of file ++ all_events next rest

abbrev pub count_lines : List Event → ℕ
count_lines [] = 0
count_lines (prompted ∷ events) = count_lines events
count_lines (given line ∷ events) = suc (count_lines events)

-- What is printed when the interpreter ends with a result that the session does not go on with.
abbrev pub last_words : ℕ → Forth → Printed
last_words r f = if r == fcontinue_error then error_in f.mem else unknown

module _ (fcontinue : Interpreter) (input_buffer output_buffer : ℕ) where
  -- How a session of these events ends, in the interpreter's data and in what is printed. A prompt prints the output, and the
  -- next line gets a new output buffer, as the first line does; each line runs within so many calls, and the first that
  -- is not answered by INPUT_DONE ends the session.
  abbrev pub Runs :
      (calls : ℕ) → List Event → Bool → Forth → List Printed → Forth × List Printed → Type 0
  Runs calls [] flag f printed e = e ≡ (f, printed)
  Runs calls (prompted ∷ events) flag f printed e =
      Runs calls events true f (printed ++ (output_in f.mem ∷ [])) e
  Runs calls (given line ∷ events) flag f printed e =
      let f1 = if flag then with_output output_buffer f else f in
      RunsWithin fcontinue output_buffer calls
        (record f1 { mem = write_string input_buffer line f1.mem; input_current = input_buffer })
        printed
        (λ r f' printed'.
          ((r ≡ fcontinue_input_done) × Runs calls events false f' printed' e)
          ⊎ ((r ≢ fcontinue_input_done) × (e ≡ (f', printed' ++ (last_words r f' ∷ [])))))

  -- The search for a line passes the prompts in front of it.
  abbrev pub Finds :
      (calls : ℕ) → (before : ℕ) → Forth × List Printed → Option (List ℕ) × Session → Type 0
  Finds calls before e (found, s) =
      ((found ≡ none) × (e ≡ (s.forth, s.printed)))
      ⊎ ((line : List ℕ) × (found ≡ some line)
          × (before ≡ suc (count_lines (all_events s.file s.sources)))
          × Runs calls (given line ∷ all_events s.file s.sources) s.buffer_flushed s.forth s.printed
              e)

  pub find_input_lem :
      (calls : ℕ) (sources : List Source) (file : Source) (s : Session) (e : Forth × List Printed)
      → Runs calls (all_events file sources) s.buffer_flushed s.forth s.printed e
      → Finds calls (count_lines (all_events file sources)) e (find_input sources file s)
  unfolding find_input
  find_input_lem calls [] no_file s e h = inl (refl, h)
  find_input_lem calls [] (opened []) s e h = inl (refl, h)
  find_input_lem calls [] (opened (line ∷ lines)) s e h = inr (line, refl, refl, h)
  find_input_lem calls [] (interactive []) s e h = inl (refl, h)
  find_input_lem calls [] (interactive (line ∷ lines)) s e h = inr (line, refl, refl, h)
  find_input_lem calls (next ∷ rest) no_file s e h = find_input_lem calls rest next s e h
  find_input_lem calls (next ∷ rest) (opened []) s e h = find_input_lem calls rest next s e h
  find_input_lem calls (next ∷ rest) (opened (line ∷ lines)) s e h = inr (line, refl, refl, h)
  find_input_lem calls (next ∷ rest) (interactive []) s e h =
      find_input_lem calls rest next (prompt (interactive []) s) e h
  find_input_lem calls (next ∷ rest) (interactive (line ∷ lines)) s e h = inr (line, refl, refl, h)
