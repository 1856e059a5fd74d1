-- ===== src/Tests/Exec.antt =====
-- `gdbwire_interpreter_exec` at a concrete input, with a parser for which every line is
-- `^done,files=[]`.
use gdbwire.Base.{
  ◌≡◌, refl, ap, [], ◌∷◌, ◌++◌, Ends-bind, Option, none, some, true, false, Bytes, codes, value,
  Ends, arith, M, Mem, all_granted, GdbwireResult, gdbwire_ok, gdbwire_assert, gdbwire_logic,
  gdbwire_nomem, ◌>>=◌, bind_exec,
}
use gdbwire.Pt.{MiOutput, null, output, output_result, MiResultRecord, done, list, strdup}
use gdbwire.Command.Types.{
  MiCommand, MiCommandKind, kind_break_info, kind_stack_info_frame, kind_file_list_exec_source_file,
  kind_file_list_exec_source_files, file_list_exec_source_files_command,
}
use gdbwire.Command.Get.{get_mi_command}
use gdbwire.Command.Files.{file_list_exec_source_file, file_list_exec_source_files}
use gdbwire.Command.Frame.{stack_info_frame}
use gdbwire.Command.BreakInfo.{break_info}
use gdbwire.Command.Contract.Get.{Answers}
use gdbwire.MiParser.{has_newline}
use gdbwire.MiParser.Feed.{Parses, AlwaysOk, LinesOk-all}
use gdbwire.MiParser.Cut.{split}
use gdbwire.Wire.{
  InterpreterExecContext, interpreter_exec_result_record, interpreter_callbacks, dispatch,
  output_callback, parse_line, interpreter_exec,
}
use gdbwire.Wire.Create.{Starts}
use gdbwire.Wire.Interpreter.{context_of, interpreter_exec_lem}

abbrev pub no_files : MiResultRecord
no_files = record {
  token = none;
  result_class = done;
  result = list (some (codes "files")) null null;
}

abbrev done_output : Unit {0} → Bytes → M (MiOutput × Unit {0})
done_output u text mem = value (output (output_result no_files) none null, u) mem

abbrev unit_parser : M (Option (Unit {0}))
unit_parser mem = value (some tt) mem

unit_parser-Starts : Starts unit_parser tt
unit_parser-Starts = record { begins = λ mem g. (refl, g) }

abbrev pub command_of : MiCommandKind → GdbwireResult × Option MiCommand
command_of kind_file_list_exec_source_files =
    (gdbwire_ok, some (file_list_exec_source_files_command []))
command_of _ = (gdbwire_assert, none)

pub command_of_lem :
    (kind : MiCommandKind) (mem : Mem)
    → all_granted mem ≡ true
    → Ends
        (λ r m. (r ≡ command_of kind) × (all_granted m ≡ true))
        (get_mi_command kind no_files mem)
unfolding get_mi_command file_list_exec_source_file file_list_exec_source_files stack_info_frame
    break_info
command_of_lem kind_break_info mem g = (refl, g)
command_of_lem kind_stack_info_frame mem g = (refl, g)
command_of_lem kind_file_list_exec_source_file mem g = (refl, g)
command_of_lem kind_file_list_exec_source_files [] g = (refl, g)
command_of_lem kind_file_list_exec_source_files (true ∷ mem) g = (refl, g)
command_of_lem kind_file_list_exec_source_files (false ∷ mem) g = absurd (ground arith)

-- What one line does to the context.
abbrev context_after : GdbwireResult → InterpreterExecContext → InterpreterExecContext
context_after gdbwire_ok ctx = record ctx {
  result = (command_of ctx.kind).0;
  mi_command = (command_of ctx.kind).1;
}
context_after _ ctx = ctx

abbrev parse_done :
    Unit {0} × InterpreterExecContext → Bytes → GdbwireResult × (Unit {0} × InterpreterExecContext)
parse_done (u, ctx) text = (gdbwire_ok, (u, context_after ctx.result ctx))

result_record_lem :
    (ctx : InterpreterExecContext) (mem : Mem)
    → all_granted mem ≡ true
    → Ends
        (λ c m. (c ≡ context_after ctx.result ctx) × (all_granted m ≡ true))
        (interpreter_exec_result_record no_files ctx mem)
unfolding interpreter_exec_result_record
result_record_lem ctx mem g = go ctx.result
  where
    go :
        (code : GdbwireResult)
        → Ends
            (λ c m. (c ≡ context_after code ctx) × (all_granted m ≡ true))
            ((elim code as (λ _. M InterpreterExecContext) [
              | gdbwire_ok ↦ get_mi_command ctx.kind no_files >>= λ (code1, command) mem1.
                  value (record ctx { result = code1; mi_command = command }) mem1
              | _ ↦ λ mem1. value ctx mem1
            ])
              mem)
    go gdbwire_ok =
        Ends-bind _ _ (get_mi_command ctx.kind no_files mem) _ (command_of_lem ctx.kind mem g)
          λ r m (e, g1). (ap (λ a. record ctx { result = a.0; mi_command = a.1 }) e, g1)
    go gdbwire_assert = (refl, g)
    go gdbwire_logic = (refl, g)
    go gdbwire_nomem = (refl, g)

called_line :
    (ctx : InterpreterExecContext) (text : Bytes) (mem : Mem)
    → all_granted mem ≡ true
    → Ends
        (λ r m. (r ≡ parse_done (tt, ctx) text) × (all_granted m ≡ true))
        (parse_line done_output interpreter_callbacks (tt, ctx) text mem)
unfolding parse_line strdup output_callback dispatch interpreter_callbacks
called_line ctx text mem g = go mem g
  where
    finish :
        (m : Mem)
        → all_granted m ≡ true
        → Ends
            (λ r m1. (r ≡ parse_done (tt, ctx) text) × (all_granted m1 ≡ true))
            (bind_exec
              (bind_exec
                (interpreter_exec_result_record no_files ctx m)
                (output_callback interpreter_callbacks null))
              (λ c m1. value (gdbwire_ok, (tt, c)) m1))
    finish m g1 =
        Ends-bind _ _
          (bind_exec (interpreter_exec_result_record no_files ctx m)
            (output_callback interpreter_callbacks null))
          _
          (Ends-bind _ (λ c m1. (c ≡ context_after ctx.result ctx) × (all_granted m1 ≡ true))
            (interpreter_exec_result_record no_files ctx m) _ (result_record_lem ctx m g1)
            λ c m1 q. q)
          λ c m1 (e, g2). (ap (λ x. (gdbwire_ok, (tt, x))) e, g2)

    go :
        (m : Mem)
        → all_granted m ≡ true
        → Ends
            (λ r m1. (r ≡ parse_done (tt, ctx) text) × (all_granted m1 ≡ true))
            (parse_line done_output interpreter_callbacks (tt, ctx) text m)
    go [] g1 = finish [] refl
    go (true ∷ m) g1 = finish m g1
    go (false ∷ m) g1 = absurd (ground arith)

done-Parses : Parses (parse_line done_output interpreter_callbacks) parse_done
done-Parses = record { answers = λ (tt, ctx) text mem line ok g. called_line ctx text mem g }

abbrev pub done_line : Bytes
done_line = codes "^done,files=[]" ++ (b'\n' ∷ [])

interpreter_exec_lem_example :
    Ends
      (λ r m.
        (r ≡ (gdbwire_ok, some (file_list_exec_source_files_command [])))
        × Answers kind_file_list_exec_source_files r
        × (all_granted m ≡ true))
      (interpreter_exec done_output unit_parser done_line kind_file_list_exec_source_files [])
unfolding has_newline
interpreter_exec_lem_example =
    interpreter_exec_lem done_output unit_parser parse_done AlwaysOk done-Parses tt done_line
      kind_file_list_exec_source_files [] unit_parser-Starts (omega arith) refl
      (LinesOk-all parse_done (split done_line).0 (tt, context_of kind_file_list_exec_source_files))
      refl
