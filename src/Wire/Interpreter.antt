-- ===== src/Wire/Interpreter.antt =====
-- `gdbwire_interpreter_exec`: what it computes, and its contract.
use gdbwire.Base.{
  ◌+◌, ◌<◌, ◌≡◌, refl, ap, sym, ◌∙◌, subst, List, [], ◌∷◌, true, Bool-cases, inl, inr, Option, none,
  some, Bytes, length, arith, M, Mem, value, Ends, Ends-bind, ◌>>=◌, all_granted, GdbwireResult,
  gdbwire_ok, gdbwire_assert, gdbwire_logic, gdbwire_nomem,
}
use gdbwire.StringBuf.{size_mod}
use gdbwire.Pt.{MiOutput, null, output, strdup}
use gdbwire.Command.Types.{MiCommand, MiCommandKind}
use gdbwire.Command.Contract.Get.{Answers}
use gdbwire.MiParser.{MiParser, push_data, has_newline}
use gdbwire.MiParser.Cut.{split, joined}
use gdbwire.MiParser.Lines.{IsLine, AllLines, split-AllLines}
use gdbwire.MiParser.Feed.{ParsesOn, LinesOk, AfterOk, Gives, feed_lines, behind_line, pushed}
use gdbwire.MiParser.Texts.{nul_free}
use gdbwire.MiParser.Push.{push_data-fed}
use gdbwire.Wire.{
  InterpreterExecContext, interpreter_callbacks, output_callback, parse_line, wire_create,
  interpreter_exec, push_outcome,
}
use gdbwire.Wire.Fitting.{
  Always, Always-bind, Always-all, Ends-Always, IsFitting, output_callback-IsFitting,
  push_outcome-Answers,
}
use gdbwire.Wire.Create.{Starts, Created, wire_create-Created}

abbrev pub context_of : MiCommandKind → InterpreterExecContext
context_of kind = record { result = gdbwire_ok; kind = kind; mi_command = none }

-- The reference: push the text where nothing is buffered, and read the outcome from the context.
abbrev pub interpreted :
    {L : Type 0}
    → (L × InterpreterExecContext → Bytes → GdbwireResult × (L × InterpreterExecContext))
    → L
    → Bytes
    → MiCommandKind
    → GdbwireResult × Option MiCommand
interpreted parse l text kind =
    let a = pushed parse [] text (l, context_of kind) in push_outcome a.0 a.1.0.1

module _ {L : Type 0} (parse_output : L → Bytes → M (MiOutput × L)) (new_parser : M (Option L))
    (parse : L × InterpreterExecContext → Bytes → GdbwireResult × (L × InterpreterExecContext))
    (Ok : L × InterpreterExecContext → Bytes → Type 0)
    (parses : ParsesOn Ok (parse_line parse_output interpreter_callbacks) parse) where
  parse_line-IsFitting :
      (kind : MiCommandKind) (p : L × InterpreterExecContext) (text : Bytes) (mem : Mem)
      → IsFitting kind p.1
      → Always
          (λ r. IsFitting kind r.1.1)
          (parse_line parse_output interpreter_callbacks p text mem)
  unfolding parse_line
  parse_line-IsFitting kind (l, ctx) text mem h =
      Always-bind (λ _. Unit {0}) _ (parse_output l text mem) _
        (Always-all (parse_output l text mem)) λ (o, l1) m _. after o l1 m
    where
      after :
          (o : MiOutput) (l1 : L) (m : Mem)
          → Always
              (λ r. IsFitting kind r.1.1)
              ((elim o as (λ _. M (GdbwireResult × (L × InterpreterExecContext))) [
                | null ↦ λ m1. value (gdbwire_assert, (l1, ctx)) m1
                | output v old next ↦ strdup (some text) >>= λ line.
                    output_callback interpreter_callbacks (output v line next) ctx >>= λ c1 m1.
                    value (gdbwire_ok, (l1, c1)) m1
              ])
                m)
      after null l1 m = h
      after (output v old next) l1 m =
          Always-bind (λ _. Unit {0}) _ (strdup (some text) m) _ (Always-all (strdup (some text) m))
            λ line m1 _.
              Always-bind (IsFitting kind) _
                (output_callback interpreter_callbacks (output v line next) ctx m1) _
                (output_callback-IsFitting kind (output v line next) ctx m1 h) λ c1 m2 q. q

  parse-IsFitting :
      (kind : MiCommandKind) (p : L × InterpreterExecContext) (text : Bytes)
      → IsLine text
      → Ok p text
      → IsFitting kind p.1
      → IsFitting kind (parse p text).1.1
  parse-IsFitting kind p text line ok h =
      let (r, m, (e, g), q) =
        Ends-Always _ (λ r. IsFitting kind r.1.1)
          (parse_line parse_output interpreter_callbacks p text [])
          (parses.answers p text [] line ok refl) (parse_line-IsFitting kind p text [] h) in
      subst (λ r. IsFitting kind r.1.1) e q

  feed_lines-IsFitting :
      (kind : MiCommandKind) (ls : List Bytes) (t : Bytes) (p : L × InterpreterExecContext)
      → AllLines IsLine ls
      → LinesOk parse Ok ls p
      → IsFitting kind p.1
      → IsFitting kind (feed_lines parse t ls p).1.0.1
  feed_lines-IsFitting kind [] t p f ok h = h
  feed_lines-IsFitting kind (l ∷ ls) t p f ok h =
      step (parse p l) (parse-IsFitting kind p l f.0 ok.0 h) ok.1
        λ q k ok1. feed_lines-IsFitting kind ls t q f.1 ok1 k
    where
      step :
          (r : GdbwireResult × (L × InterpreterExecContext))
          → IsFitting kind r.1.1
          → AfterOk (LinesOk parse Ok ls) r
          → ((q : L × InterpreterExecContext)
              → IsFitting kind q.1
              → LinesOk parse Ok ls q
              → IsFitting kind (feed_lines parse t ls q).1.0.1)
          → IsFitting kind (behind_line (feed_lines parse t ls) (joined ls t) r).1.0.1
      step (gdbwire_ok, q) k ok1 go = go q k ok1
      step (gdbwire_assert, q) k ok1 go = k
      step (gdbwire_logic, q) k ok1 go = k
      step (gdbwire_nomem, q) k ok1 go = k

  interpreted-Answers :
      (l : L) (text : Bytes) (kind : MiCommandKind)
      → LinesOk parse Ok (split text).0 (l, context_of kind)
      → Answers kind (interpreted parse l text kind)
  interpreted-Answers l text kind ok =
      push_outcome-Answers kind (pushed parse [] text (l, context_of kind)).0
        (pushed parse [] text (l, context_of kind)).1.0.1
        (elim (Bool-cases (has_newline text)) [
          | inl br ↦ rw br (
              feed_lines-IsFitting kind (split text).0 (split text).1 (l, context_of kind)
                (split-AllLines text) ok (refl, tt))
          | inr whole ↦ rw whole (refl, tt)
        ])

  -- `gdbwire_interpreter_exec` returns, for every text without NUL of a size in range and every
  -- kind, where the allocator refuses nothing and the lexer, the push parser and the callbacks
  -- together are a function that returns, in the states that `Ok` says to be fit for a line, and
  -- each line that is parsed meets such a state. It returns GDBWIRE_OK and sets a command of the
  -- kind that was asked for, or returns another code and sets none; and it is what the context of
  -- the callbacks says after the lines were parsed in order.
  pub interpreter_exec_lem :
      (l : L) (text : Bytes) (kind : MiCommandKind) (mem : Mem)
      → Starts new_parser l
      → length text + 4097 < size_mod
      → nul_free text ≡ true
      → LinesOk parse Ok (split text).0 (l, context_of kind)
      → all_granted mem ≡ true
      → Ends
          (λ r m. (r ≡ interpreted parse l text kind) × Answers kind r × (all_granted m ≡ true))
          (interpreter_exec parse_output new_parser text kind mem)
  unfolding interpreter_exec
  interpreter_exec_lem l text kind mem starts lt free lines g =
      Ends-bind _ _ (wire_create new_parser (context_of kind) mem) _
        (wire_create-Created new_parser l (context_of kind) mem starts g) after
    where
      finished :
          (p : MiParser (L × InterpreterExecContext))
          (r : GdbwireResult × MiParser (L × InterpreterExecContext))
          → p.state ≡ (l, context_of kind)
          → Gives (pushed parse [] text p.state) r
          → push_outcome r.0 r.1.state.1 ≡ interpreted parse l text kind
      finished p r e h =
          ap (λ c. push_outcome c r.1.state.1) h.0
          ∙ ap (λ s. push_outcome (pushed parse [] text p.state).0 s.1) h.1
          ∙ ap (λ s. push_outcome (pushed parse [] text s).0 (pushed parse [] text s).1.0.1) e

      after :
          (o : Option (MiParser (L × InterpreterExecContext))) (m : Mem)
          → Created new_parser l (context_of kind) o × (all_granted m ≡ true)
          → Ends
              (λ r m1.
                (r ≡ interpreted parse l text kind) × Answers kind r × (all_granted m1 ≡ true))
              ((elim o as (λ _. M (GdbwireResult × Option MiCommand)) [
                | none ↦ λ m1. value (gdbwire_assert, none) m1
                | some p ↦
                    push_data (parse_line parse_output interpreter_callbacks) p text
                    >>= λ (code, q) m1. value (push_outcome code q.state.1) m1
              ])
                m)
      after none m (c, g1) = absurd c
      after (some p) m ((h, e), g1) =
          Ends-bind _ _ (push_data (parse_line parse_output interpreter_callbacks) p text m) _
            (push_data-fed (parse_line parse_output interpreter_callbacks) parse Ok parses p [] text
              m h (omega arith) free (subst (LinesOk parse Ok (split text).0) (sym e) lines) g1)
            λ r m1 (q, g2). (
              finished p r e q,
              subst (Answers kind) (sym (finished p r e q)) (interpreted-Answers l text kind lines),
              g2,
            )
