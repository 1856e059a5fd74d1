-- ===== src/Print/Calls.antt =====
-- What gdbwire_mi_parser_push_data of src/gdbwire_mi_parser.c makes of the lines that GDB wrote: the
-- calls of the callbacks.
use gdbwire.Base.{
  ◌+◌, ◌<◌, ◌≡◌, refl, ap, sym, ◌∙◌, subst, List, [], ◌∷◌, ◌++◌, Option, none, some, true, false,
  Bytes, length, map, Mem, Ends, Ends-map, all_granted, gdbwire_ok, inl, inr, append_assoc,
}
use gdbwire.StringBuf.{size_mod}
use gdbwire.StringBuf.Holds.{Holds}
use gdbwire.Pt.{MiOutputVariant, MiOutput, null, output}
use gdbwire.Lexer.{lexemes, lexeme}
use gdbwire.Lexer.Terminated.{Terminated, lexemes-Terminated}
use gdbwire.Grammar.Productions.{Output}
use gdbwire.Grammar.Accept.{push_all-Output, Output-unique}
use gdbwire.Grammar.Machine.{Pstate, at_start, push_all}
use gdbwire.MiParser.{MiParser, push_data, has_newline}
use gdbwire.MiParser.Cut.{split}
use gdbwire.MiParser.Lines.{IsLine}
use gdbwire.MiParser.Texts.{nul_free}
use gdbwire.Wire.{Callbacks, parse_line}
use gdbwire.Wire.Line.{Means, Handles, Served, served_none, served_line, push_data-Served}
use gdbwire.Wire.Tokens.{parse_output}
use gdbwire.Print.{Said, line, meaning}
use gdbwire.Print.Words.{IsSayable}
use gdbwire.Print.Derived.{line-Output}
use gdbwire.Print.Calm.{line-OneLine, transcript, AreSayable, split-transcript}

-- A line that GDB wrote, whose class and variables are names and whose token is a number, is read by
-- the lexer and the push parser as the class that GDB named with GDB's results and texts, whatever
-- bytes the texts have; just a byte that GDB writes as octal stays its escape of four characters.
-- The parser is at its start again.
pub push_all-line :
    (s : Said)
    → IsSayable s
    → push_all at_start none (lexemes (line s)) ≡ (at_start, some (output (meaning s) none null))
unfolding push_all
push_all-line s n = push_all-Output (lexemes (line s)) [] (meaning s) none (line-Output s n)

pub line-IsLine : (s : Said) → IsSayable s → IsLine (line s)
line-IsLine s n =
    let one = line-OneLine s n in
    record {
      body = one.body;
      brk = b'\n' ∷ [];
      whole = one.whole;
      calm = one.calm;
      ended = inl refl;
    }

-- The line means nothing else.
Means-meaning : (s : Said) (v : MiOutputVariant) → IsSayable s → Means (line s) v → v ≡ meaning s
Means-meaning s v n (inl a) =
    let same : ◌≡◌ {A = Option MiOutput} (some (output v none null))
        (some (output a.variant none null)) =
      a.value in
    let kept : v ≡ a.variant = cc in
    kept ∙ Output-unique (lexemes (line s)) a.variant (meaning s) a.derived (line-Output s n)
Means-meaning s v n (inr r) = absurd (
    r.stuck (record {
      rest = r.after;
      variant = meaning s;
      brk = _;
      whole = subst (Terminated _) whole (lexemes-Terminated (line s) (line-IsLine s n));
      derived = subst (λ ts. Output ts (meaning s) []) whole (line-Output s n);
    }))
  where
    whole : lexemes (line s) ≡ (r.before ++ lexeme r.token r.text r.position ∷ []) ++ r.after
    whole = r.whole ∙ sym (append_assoc r.before (lexeme r.token r.text r.position ∷ []) r.after)

-- The calls of the callbacks that GDB's lines ask for, in order.
abbrev pub calls : {C : Type 0} → (MiOutputVariant → Option Bytes → C → C) → List Said → C → C
calls handle [] c = c
calls handle (s ∷ ss) c = calls handle ss (handle (meaning s) (some (line s)) c)

Served-calls :
    {C : Type 0} (handle : MiOutputVariant → Option Bytes → C → C) (ss : List Said) (c c1 : C)
    → AreSayable ss
    → Served handle (map line ss) c c1
    → c1 ≡ calls handle ss c
Served-calls handle [] c c1 n served_none = refl
Served-calls handle (s ∷ ss) c c1 n (served_line v means rest) =
    Served-calls handle ss (handle v (some (line s)) c) c1 n.1 rest
    ∙ ap (λ w. calls handle ss (handle w (some (line s)) c)) (Means-meaning s v n.0 means)

-- GDB wrote the lines `ss`, and then the bytes `tail` without a break; `bs`, also without one, was
-- buffered by a parser at its start, and the rest is pushed. Where the size is in range, no byte is
-- NUL, the allocator refuses nothing and Bison's stack has room, the push returns GDBWIRE_OK: each line makes, in order, one
-- call of one callback, with the class that GDB named, GDB's results and texts, where just a byte
-- that GDB writes as octal stays its escape, and with the line's text; `tail` stays buffered, and the
-- parser is at its start again.
pub push_data-calls :
    {C : Type 0} (cbs : Callbacks C) (handle : MiOutputVariant → Option Bytes → C → C)
    (p : MiParser (Pstate × C)) (c : C) (ss : List Said) (tail bs bytes : Bytes) (mem : Mem)
    → Handles cbs handle
    → AreSayable ss
    → has_newline tail ≡ false
    → bs ++ bytes ≡ transcript ss ++ tail
    → Holds p.buffer bs
    → p.state ≡ (at_start, c)
    → has_newline bs ≡ false
    → length bs + length bytes + 4097 < size_mod
    → nul_free (bs ++ bytes) ≡ true
    → all_granted mem ≡ true
    → Ends
        (λ (code, q) m.
          (code ≡ gdbwire_ok) × (q.state ≡ (at_start, calls handle ss c)) × Holds q.buffer tail)
        (push_data (parse_line parse_output cbs) p bytes mem)
push_data-calls {C} cbs handle p c ss tail bs bytes mem handles n calm wrote h start whole lt free
      g =
    let cut : split (bs ++ bytes) ≡ (map line ss, tail) =
      ap split wrote ∙ split-transcript ss tail n calm in
    Ends-map _ _ (push_data (parse_line parse_output cbs) p bytes mem)
      (push_data-Served cbs handle handles p c bs bytes mem h start whole lt free g)
      λ (code, q) m k. (
        k.0,
        pair k.1 (
            Served-calls handle ss c q.state.1 n
              (subst (λ r. Served handle r.0 c q.state.1) cut k.2)),
        subst (λ r. Holds q.buffer r.1) cut k.3,
      )
  where
    pair : {x : Pstate × C} {a : Pstate} {b : C} → x.0 ≡ a → x.1 ≡ b → x ≡ (a, b)
    pair e f = cc
