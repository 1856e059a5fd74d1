-- ===== src/Wire/Exec.antt =====
-- `gdbwire_interpreter_exec` of src/gdbwire.c with the lexer and the push parser, on one line.
use gdbwire.Base.{
  ◌+◌, ◌<◌, ◌≡◌, ◌≢◌, refl, ap, ◌∙◌, subst, [], Option, none, some, true, Bytes, length, arith, Mem,
  M, Exec, value, stop, fault, Ends, Ends-bind, Ends-map, all_granted, GdbwireResult, gdbwire_ok,
  gdbwire_assert, gdbwire_logic, gdbwire_nomem, inl, inr,
}
use gdbwire.StringBuf.{size_mod}
use gdbwire.Pt.{
  null, output, MiOutputVariant, output_result, output_oob, output_prompt, output_parse_error,
  async, stream, MiResultRecord, MiPosition,
}
use gdbwire.Command.Types.{MiCommand, MiCommandKind}
use gdbwire.Command.Get.{get_mi_command}
use gdbwire.Command.Contract.Get.{Answers, Returns, get_mi_command_lem}
use gdbwire.Lexer.{lexemes}
use gdbwire.Grammar.Productions.{Output}
use gdbwire.Grammar.Machine.{Pstate, at_start, push_all, error_output}
use gdbwire.Grammar.Accept.{push_all-Output}
use gdbwire.MiParser.Lines.{IsLine}
use gdbwire.MiParser.Texts.{nul_free}
use gdbwire.Wire.{
  InterpreterExecContext, refused, interpreter_exec_result_record, interpreter_callbacks, dispatch,
  interpreter_exec, context_outcome,
}
use gdbwire.Wire.Create.{Starts}
use gdbwire.Wire.Interpreter.{context_of}
use gdbwire.Wire.Line.{Means, line-Means}
use gdbwire.Wire.Tokens.{parse_output}
use gdbwire.Wire.OneLine.{Dispatches, exec_line}

-- `gdbwire_get_mi_command` returns `a` for the record, where the allocator refuses nothing.
pub record Answerable (kind : MiCommandKind) (r : MiResultRecord)
    (a : GdbwireResult × Option MiCommand) : Type 0 where
  pub answers :
      (mem : Mem)
      → all_granted mem ≡ true
      → Ends (λ x m. (x ≡ a) × (all_granted m ≡ true)) (get_mi_command kind r mem)

answered_context : MiCommandKind → GdbwireResult × Option MiCommand → InterpreterExecContext
answered_context kind a = record { result = a.0; kind = kind; mi_command = a.1 }

outcome-answered :
    (kind : MiCommandKind) (a : GdbwireResult × Option MiCommand)
    → Answers kind a
    → context_outcome (answered_context kind a) ≡ a
unfolding answered_context
outcome-answered kind (gdbwire_ok, none) h = absurd (h refl)
outcome-answered kind (gdbwire_ok, some c) h = refl
outcome-answered kind (gdbwire_assert, none) h = refl
outcome-answered kind (gdbwire_logic, none) h = refl
outcome-answered kind (gdbwire_nomem, none) h = refl
outcome-answered kind (gdbwire_assert, some c) h = ground arith
outcome-answered kind (gdbwire_logic, some c) h = ground arith
outcome-answered kind (gdbwire_nomem, some c) h = ground arith

Answerable-Answers :
    (kind : MiCommandKind) (r : MiResultRecord) (a : GdbwireResult × Option MiCommand)
    → Answerable kind r a
    → Answers kind a
Answerable-Answers kind r a h =
    go (get_mi_command kind r []) (h.answers [] refl) (get_mi_command_lem kind r [])
  where
    go :
        (e : Exec (GdbwireResult × Option MiCommand))
        → Ends (λ x m. (x ≡ a) × (all_granted m ≡ true)) e
        → Returns (Answers kind) e
        → Answers kind a
    go (value x m) k p = subst (Answers kind) k.0 p
    go (stop code m) k p = absurd k
    go fault k p = absurd k

result-Dispatches :
    (kind : MiCommandKind) (r : MiResultRecord) (a : GdbwireResult × Option MiCommand) (l : Bytes)
    → Answerable kind r a
    → Dispatches kind (output_result r) l (answered_context kind a)
unfolding dispatch interpreter_callbacks interpreter_exec_result_record answered_context
result-Dispatches kind r a l h mem g =
    Ends-bind _ _ (get_mi_command kind r mem) _ (h.answers mem g)
      λ x m (e, g1). (ap (answered_context kind) e, g1)

-- For a line whose tokens are a result record by the productions, `gdbwire_interpreter_exec`
-- returns what `gdbwire_get_mi_command` returns for that record, where the allocator refuses
-- nothing, Bison's stack has room, the latter returns, the line has no NUL and its size is in range.
pub interpreter_exec-result :
    (new_parser : M (Option Pstate)) (l : Bytes) (r : MiResultRecord) (kind : MiCommandKind)
    (a : GdbwireResult × Option MiCommand) (mem : Mem)
    → Starts new_parser at_start
    → IsLine l
    → length l + 4097 < size_mod
    → nul_free l ≡ true
    → Output (lexemes l) (output_result r) []
    → Answerable kind r a
    → all_granted mem ≡ true
    → Ends (λ x m. x ≡ a) (interpreter_exec parse_output new_parser l kind mem)
unfolding push_all
interpreter_exec-result new_parser l r kind a mem starts line lt free d h g =
    Ends-map _ _ (interpreter_exec parse_output new_parser l kind mem)
      (exec_line new_parser l (output_result r) kind (answered_context kind a) mem starts line lt
        free (push_all-Output (lexemes l) [] (output_result r) none d)
        (result-Dispatches kind r a l h) g)
      λ x m q. q.0 ∙ outcome-answered kind a (Answerable-Answers kind r a h)

not_error :
    (r : MiResultRecord) (text : Bytes) (pos : MiPosition)
    → some (output (output_result r) none null) ≢ some (error_output text pos)
not_error r text pos e = ground arith

other-Dispatches :
    (kind : MiCommandKind) (v : MiOutputVariant) (l : Bytes)
    → Means l v
    → ((r : MiResultRecord) → ¬ Output (lexemes l) (output_result r) [])
    → Dispatches kind v l (refused (context_of kind))
unfolding dispatch interpreter_callbacks
other-Dispatches kind (output_result r) l (inl a) other mem g =
    absurd (other r (subst (λ v. Output (lexemes l) v []) (same a.value) a.derived))
  where
    same :
        {v : MiOutputVariant}
        → some (output (output_result r) none null) ≡ some (output v none null)
        → v ≡ output_result r
    same e = cc
other-Dispatches kind (output_result r) l (inr b) other mem g =
    absurd (not_error r b.text b.position b.value)
other-Dispatches kind (output_oob (async r)) l h other mem g = (refl, g)
other-Dispatches kind (output_oob (stream r)) l h other mem g = (refl, g)
other-Dispatches kind output_prompt l h other mem g = (refl, g)
other-Dispatches kind (output_parse_error token pos) l h other mem g = (refl, g)

-- For a line that is no result record by the productions, be it another output or an error,
-- `gdbwire_interpreter_exec` returns GDBWIRE_LOGIC and no command, for every kind, where the
-- allocator refuses nothing, Bison's stack has room, the line has no NUL and its size is in range.
pub interpreter_exec-other :
    (new_parser : M (Option Pstate)) (l : Bytes) (kind : MiCommandKind) (mem : Mem)
    → Starts new_parser at_start
    → IsLine l
    → length l + 4097 < size_mod
    → nul_free l ≡ true
    → ((r : MiResultRecord) → ¬ Output (lexemes l) (output_result r) [])
    → all_granted mem ≡ true
    → Ends (λ x m. x ≡ (gdbwire_logic, none)) (interpreter_exec parse_output new_parser l kind mem)
interpreter_exec-other new_parser l kind mem starts line lt free other g =
    let (v, e, means) = line-Means l line in
    Ends-map _ _ (interpreter_exec parse_output new_parser l kind mem)
      (exec_line new_parser l v kind (refused (context_of kind)) mem starts line lt free e
        (other-Dispatches kind v l means other) g)
      λ x m q. q.0
