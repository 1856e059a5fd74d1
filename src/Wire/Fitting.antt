-- ===== src/Wire/Fitting.antt =====
-- The context of `gdbwire_interpreter_exec` never has a command of another kind than the one asked
-- for.
use gdbwire.Base.{
  ◌≡◌, refl, subst, Option, none, some, Bytes, arith, M, Mem, Exec, value, stop, fault, Ends,
  bind_exec, ◌>>=◌, GdbwireResult, gdbwire_ok, gdbwire_assert, gdbwire_logic, gdbwire_nomem,
}
use gdbwire.Pt.{
  MiOutput, null, output, MiOutputVariant, output_oob, output_result, output_prompt,
  output_parse_error, async, stream, MiResultRecord,
}
use gdbwire.Command.Types.{MiCommand, MiCommandKind, kind_of}
use gdbwire.Command.Get.{get_mi_command}
use gdbwire.Command.Contract.Get.{Answers, Returns, get_mi_command_lem}
use gdbwire.Wire.{
  InterpreterExecContext, interpreter_exec_result_record, interpreter_callbacks, dispatch,
  output_callback, push_outcome,
}

-- `P` holds of the value, if the run gives one.
abbrev pub Always : {A : Type 0} → (A → Type 0) → Exec A → Type 0
Always P (value a mem) = P a
Always P (stop r mem) = Unit {0}
Always P fault = Unit {0}

pub Always-bind :
    {A B : Type 0} (P : A → Type 0) (Q : B → Type 0) (e : Exec A) (f : A → M B)
    → Always P e
    → ((a : A) (mem : Mem) → P a → Always Q (f a mem))
    → Always Q (bind_exec e f)
Always-bind P Q (value a mem) f h k = k a mem h
Always-bind P Q (stop r mem) f h k = tt
Always-bind P Q fault f h k = tt

pub Always-all : {A : Type 0} (e : Exec A) → Always (λ _. Unit {0}) e
Always-all (value a mem) = tt
Always-all (stop r mem) = tt
Always-all fault = tt

pub Ends-Always :
    {A : Type 0} (P : A → Mem → Type 0) (Q : A → Type 0) (e : Exec A)
    → Ends P e
    → Always Q e
    → (a : A) × (mem : Mem) × P a mem × Q a
Ends-Always P Q (value a mem) h k = (a, mem, h, k)
Ends-Always P Q (stop r mem) h k = absurd h
Ends-Always P Q fault h k = absurd h

-- The command that the context has is of the kind that was asked for.
abbrev pub Fits : MiCommandKind → Option MiCommand → Type 0
Fits kind none = Unit {0}
Fits kind (some c) = kind_of c ≡ kind

abbrev pub IsFitting : MiCommandKind → InterpreterExecContext → Type 0
IsFitting kind ctx = (ctx.kind ≡ kind) × Fits kind ctx.mi_command

Answers-Fits :
    (kind : MiCommandKind) (r : GdbwireResult × Option MiCommand) → Answers kind r → Fits kind r.1
Answers-Fits kind (code, none) h = tt
Answers-Fits kind (code, some c) h = h.1

Returns-Always : {A : Type 0} (P : A → Type 0) (e : Exec A) → Returns P e → Always P e
Returns-Always P (value a mem) h = h
Returns-Always P (stop r mem) h = absurd h
Returns-Always P fault h = tt

result_record-IsFitting :
    (kind : MiCommandKind) (r : MiResultRecord) (ctx : InterpreterExecContext) (mem : Mem)
    → IsFitting kind ctx
    → Always (IsFitting kind) (interpreter_exec_result_record r ctx mem)
unfolding interpreter_exec_result_record
result_record-IsFitting kind r ctx mem h = go ctx.result
  where
    go :
        (code : GdbwireResult)
        → Always (IsFitting kind) (
            (elim code as (λ _. M InterpreterExecContext) [
              | gdbwire_ok ↦ get_mi_command ctx.kind r >>= λ (code1, command) mem1.
                  value (record ctx { result = code1; mi_command = command }) mem1
              | _ ↦ λ mem1. value ctx mem1
            ])
              mem)
    go gdbwire_ok =
        Always-bind (Answers ctx.kind) _ (get_mi_command ctx.kind r mem) _
          (Returns-Always (Answers ctx.kind) (get_mi_command ctx.kind r mem)
            (get_mi_command_lem ctx.kind r mem))
          λ a m q. (h.0, subst (λ k. Fits k a.1) h.0 (Answers-Fits ctx.kind a q))
    go gdbwire_assert = h
    go gdbwire_logic = h
    go gdbwire_nomem = h

dispatch-IsFitting :
    (kind : MiCommandKind) (v : MiOutputVariant) (line : Option Bytes)
    (ctx : InterpreterExecContext) (mem : Mem)
    → IsFitting kind ctx
    → Always (IsFitting kind) (dispatch interpreter_callbacks v line ctx mem)
unfolding dispatch interpreter_callbacks
dispatch-IsFitting kind (output_oob (async r)) line ctx mem h = h
dispatch-IsFitting kind (output_oob (stream r)) line ctx mem h = h
dispatch-IsFitting kind (output_result r) line ctx mem h = result_record-IsFitting kind r ctx mem h
dispatch-IsFitting kind output_prompt line ctx mem h = h
dispatch-IsFitting kind (output_parse_error token pos) line ctx mem h = h

pub output_callback-IsFitting :
    (kind : MiCommandKind) (o : MiOutput) (ctx : InterpreterExecContext) (mem : Mem)
    → IsFitting kind ctx
    → Always (IsFitting kind) (output_callback interpreter_callbacks o ctx mem)
unfolding output_callback
output_callback-IsFitting kind null ctx mem h = h
output_callback-IsFitting kind (output v line next) ctx mem h =
    Always-bind (IsFitting kind) _ (dispatch interpreter_callbacks v line ctx mem) _
      (dispatch-IsFitting kind v line ctx mem h)
      λ ctx1 m h1. output_callback-IsFitting kind next ctx1 m h1

-- Neither an error nor a command of another kind comes with GDBWIRE_OK.
pub push_outcome-Answers :
    (kind : MiCommandKind) (code : GdbwireResult) (ctx : InterpreterExecContext)
    → IsFitting kind ctx
    → Answers kind (push_outcome code ctx)
push_outcome-Answers kind gdbwire_ok ctx h = go ctx.result ctx.mi_command h.1
  where
    go :
        (code : GdbwireResult) (command : Option MiCommand)
        → Fits kind command
        → Answers kind (elim code as (λ _. GdbwireResult × Option MiCommand) [
          | gdbwire_ok ↦ elim command as (λ _. GdbwireResult × Option MiCommand) [
            | none ↦ (gdbwire_logic, none)
            | some c ↦ (gdbwire_ok, some c)
          ]
          | code1 ↦ (code1, none)
        ])
    go gdbwire_ok none f = ground arith
    go gdbwire_ok (some c) f = (refl, f)
    go gdbwire_assert command f = ground arith
    go gdbwire_logic command f = ground arith
    go gdbwire_nomem command f = ground arith
push_outcome-Answers kind gdbwire_assert ctx h = ground arith
push_outcome-Answers kind gdbwire_logic ctx h = ground arith
push_outcome-Answers kind gdbwire_nomem ctx h = ground arith
