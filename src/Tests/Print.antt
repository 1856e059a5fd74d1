-- ===== src/Tests/Print.antt =====
-- What GDB says, from its bytes to the callbacks, at concrete lines.
use gdbwire.Base.{
  ◌≡◌, refl, [], ◌∷◌, ◌++◌, List, map, some, none, Bytes, codes, replicate, Ends, arith, gdbwire_ok,
  atoi, pos, true,
}
use gdbwire.StringBuf.{GdbwireString}
use gdbwire.StringBuf.Holds.{Holds}
use gdbwire.Pt.{null, cstring, tuple, list, exec, console, output}
use gdbwire.Lexer.{lexemes}
use gdbwire.Grammar.Machine.{Pstate, at_start, push_all}
use gdbwire.MiParser.{MiParser, push_data, has_newline}
use gdbwire.Wire.{parse_line}
use gdbwire.Wire.Tokens.{parse_output}
use gdbwire.Print.{Said, result_said, async_said, stream_said, prompt_said, line, meaning}
use gdbwire.Print.Calls.{push_all-line, calls, push_data-calls}
use gdbwire.Print.Reply.{
  done_line, files_reply, frame_reply, interpreter_exec-describe_all,
  interpreter_exec-describe_frame,
}
use gdbwire.Command.Types.{
  kind_file_list_exec_source_files, kind_stack_info_frame, file_list_exec_source_files_command,
  stack_info_frame_command,
}
use gdbwire.Command.RoundTrip.{frame_read}
use gdbwire.Wire.{interpreter_exec}
use gdbwire.Tests.Commands.{two_files, main_frame}
use gdbwire.Tests.Reply.{new_state, new_state-Starts}
use gdbwire.Tests.Line.{Kept, keep, keeping, keeps}

-- `12^done,a={b-1="x\"\\\n"},[]`
abbrev answer : Said
answer = result_said (some (codes "12")) (codes "done") (
    tuple (some (codes "a")) (cstring (some (codes "b-1")) (b'x' ∷ b'"' ∷ b'\\' ∷ b'\n' ∷ []) null)
      (list none null null))

push_all-line_example :
    push_all at_start none (lexemes (line answer))
    ≡ (at_start, some (output (meaning answer) none null))
push_all-line_example = push_all-line answer (
  (refl, (refl, tt)),
  (refl, (refl, (refl, (refl, tt)))),
  ((refl, tt), ((refl, (refl, (refl, tt))), tt), (tt, tt, tt)),
)

-- `~"hi\n"`, `*running` and the prompt
abbrev session : List Said
session =
    stream_said console (b'h' ∷ b'i' ∷ b'\n' ∷ [])
    ∷ async_said none exec (codes "running") null
    ∷ prompt_said
    ∷ []

-- "~\"hi" is buffered, in eight bytes.
abbrev front : Bytes
front = b'~' ∷ b'"' ∷ b'h' ∷ b'i' ∷ []

abbrev buffer : GdbwireString
buffer = record { contents = some (map some front ++ replicate 4 none); size = 4; capacity = 8 }

buffer-Holds : Holds buffer front
buffer-Holds = record {
  rest = replicate 4 none;
  allocated = refl;
  sized = refl;
  capacious = refl;
  bounded = omega arith;
}

abbrev parser : MiParser (Pstate × Kept)
parser = record { buffer = buffer; state = (at_start, []) }

-- the rest of the session, and the first byte of a line that follows
abbrev bytes : Bytes
bytes = (b'\\' ∷ b'n' ∷ b'"' ∷ b'\n' ∷ []) ++ codes "*running\n(gdb) \n^"

push_data-calls_example :
    Ends
      (λ (code, q) m.
        (code ≡ gdbwire_ok)
        × (q.state ≡ (at_start, calls keep session []))
        × Holds q.buffer (codes "^"))
      (push_data (parse_line parse_output keeping) parser bytes [])
unfolding has_newline
push_data-calls_example =
    push_data-calls keeping keep parser [] session (codes "^") front bytes []
      (record { answers = keeps })
      (tt, ((tt, (refl, (refl, (refl, (refl, (refl, (refl, (refl, tt))))))), tt), (tt, tt))) refl
      refl buffer-Holds refl refl (omega arith) refl refl

interpreter_exec-describe_all_example :
    Ends
      (λ x m. x ≡ (gdbwire_ok, some (file_list_exec_source_files_command two_files)))
      (interpreter_exec parse_output new_state
        (done_line (some (codes "7")) (files_reply two_files))
        kind_file_list_exec_source_files
        (true ∷ true ∷ []))
interpreter_exec-describe_all_example =
    interpreter_exec-describe_all new_state (some (codes "7")) two_files (true ∷ true ∷ [])
      new_state-Starts (refl, tt) (omega arith) refl refl refl

interpreter_exec-describe_frame_example :
    Ends
      (λ x m.
        x ≡ (gdbwire_ok, some (stack_info_frame_command (frame_read main_frame (pos 2) (pos 17)))))
      (interpreter_exec parse_output new_state
        (done_line none (frame_reply main_frame))
        kind_stack_info_frame
        [])
unfolding atoi
interpreter_exec-describe_frame_example =
    interpreter_exec-describe_frame new_state none main_frame (pos 2) (pos 17) [] new_state-Starts
      tt refl refl refl (omega arith) refl refl refl
