-- ===== src/Lexer/Terminated.antt =====
-- The tokens that the lexer of src/gdbwire_mi_lexer.l finds in a line of the parser.
use gdbwire.Base.{◌≡◌, ◌≢◌, ap, sym, subst, List, [], ◌∷◌, Option, none, some, Bytes, length, arith}
use gdbwire.Pt.{MiPosition}
use gdbwire.Lexer.{Token, newline, Piece, Lexeme, lexeme, returned, pieces, lexemes}
use gdbwire.Lexer.Lines.{EndsLine, pieces-EndsLine}
use gdbwire.MiParser.Lines.{IsLine}

-- Where the tokens of a line end: with one line break, whose text is `brk`.
abbrev pub Terminated : Bytes → List Lexeme → Type 0
Terminated brk [] = ⊥
Terminated brk (lexeme t text pos ∷ []) = (t ≡ newline) × (text ≡ brk)
Terminated brk (lexeme t text pos ∷ x ∷ xs) = (t ≢ newline) × Terminated brk (x ∷ xs)

pub Terminated-cons :
    (brk : Bytes) (t : Token) (text : Bytes) (pos : MiPosition) (xs : List Lexeme)
    → t ≢ newline
    → Terminated brk xs
    → Terminated brk (lexeme t text pos ∷ xs)
Terminated-cons brk t text pos [] h k = absurd k
Terminated-cons brk t text pos (x ∷ xs) h k = (h, k)

returned-Terminated :
    (brk : Bytes) (ps : List Piece) → EndsLine brk ps → Terminated brk (returned ps)
returned-Terminated brk [] h = absurd h
returned-Terminated brk (p ∷ []) h = last p.action h.0
  where
    last :
        (a : Option Token)
        → a ≡ some newline
        → Terminated brk
            (elim a as (λ _. List Lexeme) [ none ↦ [] | some t ↦ lexeme t p.text p.position ∷ [] ])
    last none e = absurd (ground arith)
    last (some t) e = (ground arith, h.1)
returned-Terminated brk (p ∷ q ∷ ps) h = go p.action h.0 (returned-Terminated brk (q ∷ ps) h.1)
  where
    go :
        (a : Option Token)
        → a ≢ some newline
        → Terminated brk (returned (q ∷ ps))
        → Terminated brk (elim a as (λ _. List Lexeme) [
          | none ↦ returned (q ∷ ps)
          | some t ↦ lexeme t p.text p.position ∷ returned (q ∷ ps)
        ])
    go none other k = k
    go (some t) other k =
        Terminated-cons brk t p.text p.position (returned (q ∷ ps)) (λ e. other (ap some e)) k

-- The tokens of a line that the parser cuts off its buffer are one line break, at their end, with
-- the text of the line's break, and others in front of it.
pub lexemes-Terminated : (l : Bytes) (h : IsLine l) → Terminated h.brk (lexemes l)
unfolding lexemes
lexemes-Terminated l h = returned-Terminated h.brk (pieces (length l) 1 l) (
    subst (λ t. EndsLine h.brk (pieces (length l) 1 t)) (sym h.whole)
      (pieces-EndsLine (length l) 1 h.body h.brk h.calm h.ended (omega (arith, ap length h.whole))))
