-- ===== src/Tests/Reply.antt =====
-- `gdbwire_interpreter_exec` at concrete lines, with the lexer and the push parser.
use gdbwire.Base.{
  ℕ, ◌≡◌, refl, [], ◌∷◌, ◌++◌, Option, some, none, Bytes, codes, M, value, Ends, arith, inl,
  gdbwire_ok, gdbwire_logic,
}
use gdbwire.Pt.{MiPosition, output_result, output_prompt, MiResultRecord}
use gdbwire.Lexer.{lexemes, rules, best, longest, deriv, nullable}
use gdbwire.Command.Types.{kind_file_list_exec_source_files, file_list_exec_source_files_command}
use gdbwire.Grammar.{result_class}
use gdbwire.Grammar.Productions.{
  Output, output_newline, result_record, prompt, no_token, comma_results, one_result, result_list,
  variable_equal, empty_list,
}
use gdbwire.Grammar.Accept.{Output-unique}
use gdbwire.Grammar.Machine.{Pstate, at_start}
use gdbwire.MiParser.{has_newline}
use gdbwire.MiParser.Lines.{IsLine}
use gdbwire.Wire.{interpreter_exec}
use gdbwire.Wire.Create.{Starts}
use gdbwire.Wire.Tokens.{parse_output}
use gdbwire.Wire.Exec.{interpreter_exec-result, interpreter_exec-other}
use gdbwire.Wire.Unbroken.{interpreter_exec-unbroken}
use gdbwire.Tests.Exec.{no_files, command_of, command_of_lem, done_line}

abbrev pub new_state : M (Option Pstate)
new_state mem = value (some at_start) mem

pub new_state-Starts : Starts new_state at_start
new_state-Starts = record { begins = λ mem g. (refl, g) }

abbrev from_to : ℕ → ℕ → MiPosition
from_to a b = record { start_column = a; end_column = b }

done_line-Output : Output (lexemes done_line) (output_result no_files) []
unfolding lexemes best rules longest deriv nullable result_class
done_line-Output =
    output_newline (b'\n' ∷ [])
      (result_record (codes "^") (codes "done") (no_token refl)
        (record { position = from_to 1 1; read = refl })
        (record { position = from_to 2 5; read = refl })
        (comma_results (codes ",") (record { position = from_to 6 6; read = refl })
          (one_result (
            result_list
              (variable_equal (codes "files") (codes "=")
                (record { position = from_to 7 11; read = refl })
                (record { position = from_to 12 12; read = refl }))
              (empty_list (codes "[") (codes "]") (record { position = from_to 13 13; read = refl })
                (record { position = from_to 14 14; read = refl }) refl)
              refl))))
      (record { position = from_to 15 15; read = refl })

done_line-IsLine : IsLine done_line
done_line-IsLine = record {
  body = codes "^done,files=[]";
  brk = b'\n' ∷ [];
  whole = refl;
  calm = (
    (ground arith, ground arith),
    (
      (ground arith, ground arith),
      (
        (ground arith, ground arith),
        (
          (ground arith, ground arith),
          (
            (ground arith, ground arith),
            (
              (ground arith, ground arith),
              (
                (ground arith, ground arith),
                (
                  (ground arith, ground arith),
                  (
                    (ground arith, ground arith),
                    (
                      (ground arith, ground arith),
                      (
                        (ground arith, ground arith),
                        (
                          (ground arith, ground arith),
                          ((ground arith, ground arith), ((ground arith, ground arith), tt)),
                        ),
                      ),
                    ),
                  ),
                ),
              ),
            ),
          ),
        ),
      ),
    ),
  );
  ended = inl refl;
}

interpreter_exec-result_example :
    Ends
      (λ x m. x ≡ (gdbwire_ok, some (file_list_exec_source_files_command [])))
      (interpreter_exec parse_output new_state done_line kind_file_list_exec_source_files [])
interpreter_exec-result_example =
    interpreter_exec-result new_state done_line no_files kind_file_list_exec_source_files
      (command_of kind_file_list_exec_source_files) [] new_state-Starts done_line-IsLine
      (omega arith) refl done_line-Output
      (record { answers = command_of_lem kind_file_list_exec_source_files }) refl

abbrev prompt_line : Bytes
prompt_line = codes "(gdb)" ++ (b'\n' ∷ [])

prompt_line-IsLine : IsLine prompt_line
prompt_line-IsLine = record {
  body = codes "(gdb)";
  brk = b'\n' ∷ [];
  whole = refl;
  calm = (
    (ground arith, ground arith),
    (
      (ground arith, ground arith),
      (
        (ground arith, ground arith),
        ((ground arith, ground arith), ((ground arith, ground arith), tt)),
      ),
    ),
  );
  ended = inl refl;
}

prompt_line-Output : Output (lexemes prompt_line) output_prompt []
unfolding lexemes best rules longest deriv nullable
prompt_line-Output =
    output_newline (b'\n' ∷ [])
      (prompt (codes "(") (codes "gdb") (codes ")") (record { position = from_to 1 1; read = refl })
        (record { position = from_to 2 4; read = refl }) refl
        (record { position = from_to 5 5; read = refl }))
      (record { position = from_to 6 6; read = refl })

no_result : (r : MiResultRecord) → ¬ Output (lexemes prompt_line) (output_result r) []
no_result r d =
    let same =
      Output-unique (lexemes prompt_line) (output_result r) output_prompt d prompt_line-Output in
    ground arith

interpreter_exec-other_example :
    Ends
      (λ x m. x ≡ (gdbwire_logic, none))
      (interpreter_exec parse_output new_state prompt_line kind_file_list_exec_source_files [])
interpreter_exec-other_example =
    interpreter_exec-other new_state prompt_line kind_file_list_exec_source_files []
      new_state-Starts prompt_line-IsLine (omega arith) refl no_result refl

-- The reply of `done_line`, cut in front of its line break.
interpreter_exec-unbroken_example :
    Ends
      (λ x m. x ≡ (gdbwire_logic, none))
      (interpreter_exec parse_output new_state
        (codes "^done,files=[]")
        kind_file_list_exec_source_files
        [])
unfolding has_newline
interpreter_exec-unbroken_example =
    interpreter_exec-unbroken parse_output new_state at_start (codes "^done,files=[]")
      kind_file_list_exec_source_files [] new_state-Starts refl (omega arith) refl refl
