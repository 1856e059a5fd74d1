-- ===== src/Wire.antt =====
-- src/gdbwire.c: outputs go to the client's callbacks, and `gdbwire_interpreter_exec` reads one
-- command; with the end of gdbwire_mi_parser_parse_line and gdbwire_mi_parser_create, of
-- src/gdbwire_mi_parser.c. The lexer and the push parser are parameters.
pub mod Fitting
pub mod Create
pub mod Interpreter
pub mod Tokens
pub mod Line
pub mod OneLine
pub mod Exec
pub mod Unbroken
use gdbwire.Base.{
  Bool, true, false, Option, none, some, Bytes, M, pure, allocate, ◌>>=◌, GdbwireResult, gdbwire_ok,
  gdbwire_assert, gdbwire_logic,
}
use gdbwire.StringBuf.{GdbwireString, create}
use gdbwire.Pt.{
  MiOutput, null, output, MiOutputVariant, output_oob, output_result, output_prompt,
  output_parse_error, async, stream, MiResultRecord, MiAsyncRecord, MiStreamRecord, MiPosition,
  strdup,
}
use gdbwire.Command.Types.{MiCommand, MiCommandKind}
use gdbwire.Command.Get.{get_mi_command}
use gdbwire.MiParser.{MiParser, push_data}

-- `struct gdbwire_callbacks`: functions that work on the context; NULL is `none`.
pub record Callbacks (C : Type 0) : Type 0 where
  pub stream_record_fn : Option (MiStreamRecord → C → M C)
  pub async_record_fn : Option (MiAsyncRecord → C → M C)
  pub result_record_fn : Option (MiResultRecord → C → M C)
  pub prompt_fn : Option (Option Bytes → C → M C)
  pub parse_error_fn : Option (Option Bytes → Bytes → MiPosition → C → M C)

-- A callback that is NULL is not called.
abbrev pub called : {A C : Type 0} → Option (A → C → M C) → A → C → M C
called none a c = pure c
called (some fn) a c = fn a c

abbrev pub called_error :
    {C : Type 0}
    → Option (Option Bytes → Bytes → MiPosition → C → M C)
    → Option Bytes
    → Bytes
    → MiPosition
    → C
    → M C
called_error none line token pos c = pure c
called_error (some fn) line token pos c = fn line token pos c

-- the switch of `gdbwire_mi_output_callback`
unfoldable pub dispatch : {C : Type 0} → Callbacks C → MiOutputVariant → Option Bytes → C → M C
dispatch cbs (output_oob (async r)) line c = called cbs.async_record_fn r c
dispatch cbs (output_oob (stream r)) line c = called cbs.stream_record_fn r c
dispatch cbs (output_result r) line c = called cbs.result_record_fn r c
dispatch cbs output_prompt line c = called cbs.prompt_fn line c
dispatch cbs (output_parse_error token pos) line c =
    called_error cbs.parse_error_fn line token pos c

-- `gdbwire_mi_output_callback`, over the list of outputs
unfoldable pub output_callback : {C : Type 0} → Callbacks C → MiOutput → C → M C
output_callback cbs null c = pure c
output_callback cbs (output v line next) c = dispatch cbs v line c >>= output_callback cbs next

-- `output->line = line`
abbrev pub with_line : Option Bytes → MiOutput → MiOutput
with_line line null = null
with_line line (output v _ next) = output v line next

-- The context of `gdbwire_interpreter_exec`.
pub record InterpreterExecContext : Type 0 where
  pub result : GdbwireResult
  pub kind : MiCommandKind
  pub mi_command : Option MiCommand

abbrev pub refused : InterpreterExecContext → InterpreterExecContext
refused ctx = record ctx { result = gdbwire_logic }

-- `gdbwire_interpreter_exec_result_record`: a later record is read only after success.
unfoldable pub interpreter_exec_result_record :
    MiResultRecord → InterpreterExecContext → M InterpreterExecContext
interpreter_exec_result_record r ctx = elim ctx.result [
  | gdbwire_ok ↦ get_mi_command ctx.kind r >>= λ (code, command).
      pure (record ctx { result = code; mi_command = command })
  | _ ↦ pure ctx
]

-- The callbacks of `gdbwire_interpreter_exec`.
unfoldable pub interpreter_callbacks : Callbacks InterpreterExecContext
interpreter_callbacks = record {
  stream_record_fn = some (λ r ctx. pure (refused ctx));
  async_record_fn = some (λ r ctx. pure (refused ctx));
  result_record_fn = some interpreter_exec_result_record;
  prompt_fn = some (λ line ctx. pure (refused ctx));
  parse_error_fn = some (λ line token pos ctx. pure (refused ctx));
}

-- The last lines of `gdbwire_interpreter_exec`: what it returns, and the command that it sets.
abbrev pub context_outcome : InterpreterExecContext → GdbwireResult × Option MiCommand
context_outcome ctx = elim ctx.result [
  | gdbwire_ok ↦ elim ctx.mi_command [
    | none ↦ (gdbwire_logic, none)
    | some command ↦ (gdbwire_ok, some command)
  ]
  | code ↦ (code, none)
]

abbrev pub push_outcome : GdbwireResult → InterpreterExecContext → GdbwireResult × Option MiCommand
push_outcome gdbwire_ok ctx = context_outcome ctx
push_outcome code ctx = (code, none)

-- `parse_output` is the lexer and the push parser on one line: the output, or NULL.
module _ {L : Type 0} (parse_output : L → Bytes → M (MiOutput × L)) where
  -- `gdbwire_mi_parser_parse_line`, from the assertion on the output on
  unfoldable pub parse_line :
      {C : Type 0} → Callbacks C → L × C → Bytes → M (GdbwireResult × (L × C))
  parse_line cbs (l, c) text = do
    (o, l1) ← parse_output l text
    elim o [
      | null ↦ pure (gdbwire_assert, (l1, c))
      | output v old next ↦ strdup (some text) >>= λ line.
          output_callback cbs (with_line line (output v old next)) c >>= λ c1.
          pure (gdbwire_ok, (l1, c1))
    ]

-- `new_parser` makes the state of the lexer and of the push parser, or NULL.
module _ {L : Type 0} (new_parser : M (Option L)) where
  -- `gdbwire_mi_parser_create`, for a callback that is not NULL, as `gdbwire_create` passes it;
  -- the releases on the error paths are left out
  unfoldable pub parser_create : {C : Type 0} → C → M (Option (MiParser (L × C)))
  parser_create c = do
    granted ← allocate
    elim granted [
      | false ↦ pure none
      | true ↦ create >>= λ buffer. elim buffer [
        | none ↦ pure none
        | some s ↦ new_parser >>= λ p. elim p [
          | none ↦ pure none
          | some l ↦ pure (some (record { buffer = s; state = (l, c) }))
        ]
      ]
    ]

  -- `gdbwire_create`: the new gdbwire is its parser.
  unfoldable pub wire_create : {C : Type 0} → C → M (Option (MiParser (L × C)))
  wire_create c = do granted ← allocate; elim granted [ true ↦ parser_create c | false ↦ pure none ]

module _ {L : Type 0} (parse_output : L → Bytes → M (MiOutput × L))
    (new_parser : M (Option L)) where
  -- `gdbwire_interpreter_exec`: its code, and `*out_mi_command` where that is set to a command
  unfoldable pub interpreter_exec : Bytes → MiCommandKind → M (GdbwireResult × Option MiCommand)
  interpreter_exec text kind = do
    wire ← wire_create new_parser (record { result = gdbwire_ok; kind = kind; mi_command = none })
    elim wire [
      | none ↦ pure (gdbwire_assert, none)
      | some p ↦ push_data (parse_line parse_output interpreter_callbacks) p text >>= λ (code, q).
          pure (push_outcome code q.state.1)
    ]
