-- ===== src/Wire/Unbroken.antt =====
-- `gdbwire_interpreter_exec` of src/gdbwire.c on a text without a line break.
use gdbwire.Base.{
  ◌+◌, ◌<◌, ◌≡◌, refl, sym, ◌∙◌, subst, Option, none, true, false, Bytes, length, Mem, M, Ends,
  Ends-map, all_granted, GdbwireResult, gdbwire_ok, gdbwire_logic,
}
use gdbwire.StringBuf.{size_mod}
use gdbwire.Pt.{MiOutput}
use gdbwire.Command.Types.{MiCommandKind}
use gdbwire.MiParser.{has_newline}
use gdbwire.MiParser.Cut.{split-tail}
use gdbwire.MiParser.Feed.{LinesOk}
use gdbwire.MiParser.Texts.{nul_free}
use gdbwire.Wire.{InterpreterExecContext, interpreter_exec}
use gdbwire.Wire.Create.{Starts}
use gdbwire.Wire.Interpreter.{context_of, interpreted, interpreter_exec_lem}

-- No line is parsed.
abbrev never_parsed :
    {L : Type 0} → L × InterpreterExecContext → Bytes → GdbwireResult × (L × InterpreterExecContext)
never_parsed p text = (gdbwire_ok, p)

interpreted-unbroken :
    {L : Type 0} (l : L) (text : Bytes) (kind : MiCommandKind)
    → has_newline text ≡ false
    → interpreted never_parsed l text kind ≡ (gdbwire_logic, none)
interpreted-unbroken l text kind whole = rw whole refl

-- A text without a line break, whatever it says, is refused with GDBWIRE_LOGIC and no command: it is
-- never parsed. The text has no NUL, its size is in range, and the allocator refuses nothing.
pub interpreter_exec-unbroken :
    {L : Type 0} (parse_output : L → Bytes → M (MiOutput × L)) (new_parser : M (Option L)) (l : L)
    (text : Bytes) (kind : MiCommandKind) (mem : Mem)
    → Starts new_parser l
    → has_newline text ≡ false
    → length text + 4097 < size_mod
    → nul_free text ≡ true
    → all_granted mem ≡ true
    → Ends
        (λ x m. x ≡ (gdbwire_logic, none))
        (interpreter_exec parse_output new_parser text kind mem)
interpreter_exec-unbroken parse_output new_parser l text kind mem starts whole lt free g =
    Ends-map _ _ (interpreter_exec parse_output new_parser text kind mem)
      (interpreter_exec_lem parse_output new_parser never_parsed (λ p t. ⊥)
        (record { answers = λ p t m line ok g1. absurd ok }) l text kind mem starts lt free
        (subst (λ r. LinesOk never_parsed (λ p t. ⊥) r.0 (l, context_of kind))
          (sym (split-tail text whole)) tt)
        g)
      λ x m q. q.0 ∙ interpreted-unbroken l text kind whole
