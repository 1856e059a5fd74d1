-- ===== src/Wire/Tokens.antt =====
-- src/gdbwire_mi_parser.c: what gdbwire_mi_parser_parse_line gets from the lexer and the push
-- parser.
use gdbwire.Base.{
  ◌≡◌, refl, ap, List, [], ◌∷◌, Option, none, some, true, false, Bytes, Mem, M, pure, undefined,
  allocate, Ends, Ends-bind, ◌>>=◌, all_granted,
}
use gdbwire.Pt.{MiOutput, null, strdup}
use gdbwire.Lexer.{Lexeme, lexemes}
use gdbwire.Lexer.Terminated.{Terminated, lexemes-Terminated}
use gdbwire.Grammar.Machine.{Pstate, at_start, push_all, push_parse, stored}
use gdbwire.MiParser.Lines.{IsLine}
use gdbwire.Wire.Create.{allocate-bind}

-- The variable `output`: NULL, if nothing was stored.
abbrev pub output_of : Option MiOutput → MiOutput
output_of none = null
output_of (some o) = o

-- What `gdbwire_mi_push_parse` returns: YYPUSH_MORE, or 2 where Bison's stack has no room.
pub data PushStatus : Type 0 where
  push_more exhausted : PushStatus

-- The loop over the tokens; `o` is the variable `output`. Whether Bison's stack, which the generated
-- parser grows by `malloc` up to a limit, has room for a token is an outcome like those of the
-- allocator. Where it has none, the parser empties its stack, and the loop ends.
unfoldable pub push_tokens :
    Pstate → Option MiOutput → List Lexeme → M (PushStatus × (Pstate × Option MiOutput))
push_tokens s o [] = pure (push_more, push_all s o [])
push_tokens s o (l ∷ ls) = do
  room ← allocate
  elim room [
    | true ↦ push_tokens (push_parse s l).0 (stored (push_parse s l).1 o) ls
    | false ↦ pure (exhausted, (at_start, o))
  ]

-- The assertion on `mi_status`; where it fails, there is no output for what follows, which then
-- returns what the assertion does.
abbrev pub checked_status : PushStatus × (Pstate × Option MiOutput) → MiOutput × Pstate
checked_status (push_more, r) = (output_of r.1, r.0)
checked_status (exhausted, r) = (null, r.0)

-- Without a token the loop ends with `mi_status` unset.
unfoldable pub push_lexemes : Pstate → List Lexeme → M (MiOutput × Pstate)
unfolding push_tokens
push_lexemes s [] = undefined
push_lexemes s (l ∷ ls) = do r ← push_tokens s none (l ∷ ls); pure (checked_status r)

-- `gdbwire_mi_parser_parse_line` up to the assertion on `output`: the buffer of the scanner, which
-- may be refused, and the loop. What the actions of the grammar allocate is granted.
unfoldable pub parse_output : Pstate → Bytes → M (MiOutput × Pstate)
unfolding push_lexemes
parse_output s text = do
  granted ← allocate
  elim granted [ true ↦ push_lexemes s (lexemes text) | false ↦ pure (null, s) ]

pub strdup-granted :
    (text : Bytes) (mem : Mem)
    → all_granted mem ≡ true
    → Ends (λ line m. (line ≡ some text) × (all_granted m ≡ true)) (strdup (some text) mem)
unfolding strdup
strdup-granted text mem g = allocate-bind _ mem _ g λ m g1. (refl, g1)

-- Where nothing is refused, the loop is that over the push parser alone.
push_tokens-granted :
    (s : Pstate) (o : Option MiOutput) (ls : List Lexeme) (mem : Mem)
    → all_granted mem ≡ true
    → Ends
        (λ r m. (r ≡ (push_more, push_all s o ls)) × (all_granted m ≡ true))
        (push_tokens s o ls mem)
unfolding push_tokens push_all
push_tokens-granted s o [] mem g = (refl, g)
push_tokens-granted s o (l ∷ ls) mem g =
    allocate-bind _ mem _ g
      λ m g1. push_tokens-granted (push_parse s l).0 (stored (push_parse s l).1 o) ls m g1

lexemes-parsed :
    (brk : Bytes) (s : Pstate) (ls : List Lexeme) (mem : Mem)
    → Terminated brk ls
    → all_granted mem ≡ true
    → Ends
        (λ r m.
          (r ≡ (output_of (push_all s none ls).1, (push_all s none ls).0)) × (all_granted m ≡ true))
        (push_lexemes s ls mem)
unfolding push_lexemes
lexemes-parsed brk s [] mem h g = absurd h
lexemes-parsed brk s (l ∷ ls) mem h g =
    Ends-bind _ _ (push_tokens s none (l ∷ ls) mem) _ (push_tokens-granted s none (l ∷ ls) mem g)
      λ r m (e, g1). (ap checked_status e, g1)

-- Where the allocator refuses nothing, a line goes through the lexer and the push parser.
pub parse_output-granted :
    (s : Pstate) (text : Bytes) (mem : Mem)
    → IsLine text
    → all_granted mem ≡ true
    → Ends
        (λ r m.
          (r ≡ (output_of (push_all s none (lexemes text)).1, (push_all s none (lexemes text)).0))
          × (all_granted m ≡ true))
        (parse_output s text mem)
unfolding parse_output
parse_output-granted s text mem line g =
    allocate-bind _ mem _ g
      λ m g1. lexemes-parsed line.brk s (lexemes text) m (lexemes-Terminated text line) g1
