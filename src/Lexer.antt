-- ===== src/Lexer.antt =====
-- src/gdbwire_mi_lexer.l: the patterns of the lexer and what flex does with them. The scanner is
-- generated by flex; the model is of flex's documented rule: of the patterns that match at the
-- current position, the one that matches most bytes is taken, and of those the first.
pub mod Derivatives
pub mod Patterns
pub mod Munch
pub mod First
pub mod Stays
pub mod Lines
pub mod Absent
pub mod Words
pub mod Quoted
pub mod Terminated
use gdbwire.Base.{
  ℕ, zero, suc, ◌+◌, ◌-◌, Bool, true, false, not, ◌&&◌, ◌||◌, Option, none, some, List, [], ◌∷◌,
  Bytes, mem_byte, leb, ltb, ◌==◌, if◌then◌else◌, is_digit, length, take, drop,
}
use gdbwire.Pt.{MiPosition}

-- the tokens of src/gdbwire_mi_grammar.y
pub data Token : Type 0 where
  open_brace closed_brace open_paren closed_paren add_op mult_op equal_sign tilda : Token
  at_symbol ampersand open_bracket closed_bracket newline integer_literal : Token
  string_literal cstring comma carrot : Token

-- A pattern: one byte of a class, the empty text, or none, and what patterns are built with.
pub data Regex : Type 0 where
  never empty : Regex
  byte : (ℕ → Bool) → Regex
  then_ either : Regex → Regex → Regex
  many : Regex → Regex

-- Does the pattern match the empty text?
unfoldable pub nullable : Regex → Bool
nullable never = false
nullable empty = true
nullable (byte p) = false
nullable (then_ r s) = nullable r && nullable s
nullable (either r s) = nullable r || nullable s
nullable (many r) = true

abbrev pub join_then : Regex → Regex → Regex
join_then never s = never
join_then r s = then_ r s

abbrev pub join_either : Regex → Regex → Regex
join_either never s = s
join_either r s = either r s

-- What is left of the pattern behind the byte `c`.
unfoldable pub deriv : ℕ → Regex → Regex
deriv c never = never
deriv c empty = never
deriv c (byte p) = elim (p c) [ true ↦ empty | false ↦ never ]
deriv c (then_ r s) =
    let inner = join_then (deriv c r) s in
    let both = join_either inner (deriv c s) in elim (nullable r) [ true ↦ both | false ↦ inner ]
deriv c (either r s) = join_either (deriv c r) (deriv c s)
deriv c (many r) = join_then (deriv c r) (many r)

abbrev pub longer : Option ℕ → Bool → Option ℕ
longer (some n) here = some (suc n)
longer none true = some 0
longer none false = none

-- The length of the longest text at the front that the pattern matches.
unfoldable pub longest : Regex → Bytes → Option ℕ
longest r [] = longer none (nullable r)
longest r (c ∷ cs) = longer (longest (deriv c r) cs) (nullable r)

abbrev char : ℕ → Regex
char c = byte (λ d. d == c)

abbrev plus : Regex → Regex
plus r = then_ r (many r)

-- {DIGIT}, {L} and {T}
abbrev pub is_letter : ℕ → Bool
is_letter c = leb b'a' c && leb c b'z' || leb b'A' c && leb c b'Z' || c == b'_'

abbrev pub is_word : ℕ → Bool
is_word c =
    leb b'0' c && leb c b'9'
    || leb b'a' c && leb c b'z'
    || leb b'A' c && leb c b'Z'
    || c == b'_'
    || c == b'-'

abbrev pub not_newline : ℕ → Bool
not_newline c = not (c == b'\n')

-- [ \t\v\f]
abbrev pub is_blank : ℕ → Bool
is_blank c = c == b' ' || c == 9 || c == 11 || c == 12

-- [^\\"]
abbrev pub is_plain : ℕ → Bool
is_plain c = not (c == b'\\' || c == b'"')

-- {IDENTIFIER}
abbrev pub identifier : Regex
identifier = then_ (plus (byte is_letter)) (many (byte is_word))

-- \"(\\.|[^\\"])*\"
abbrev pub cstring_pattern : Regex
cstring_pattern =
    then_ (char b'"')
      (then_ (many (either (then_ (char b'\\') (byte not_newline)) (byte is_plain))) (char b'"'))

-- A rule: its pattern, and the token that its action returns; an empty action is `none`.
pub record Rule : Type 0 where
  pub pattern_of : Regex
  pub action : Option Token

abbrev on : Regex → Token → Rule
on r t = record { pattern_of = r; action = some t }

-- the rules section, in order
unfoldable pub rules : List Rule
rules =
    on (char b'^') carrot
    ∷ on (char b',') comma
    ∷ on (char b'+') add_op
    ∷ on (char b'*') mult_op
    ∷ on (char b'=') equal_sign
    ∷ on (char b'~') tilda
    ∷ on (char b'@') at_symbol
    ∷ on (char b'&') ampersand
    ∷ on (char b'[') open_bracket
    ∷ on (char b']') closed_bracket
    ∷ on (char b'{') open_brace
    ∷ on (char b'}') closed_brace
    ∷ on (char b'(') open_paren
    ∷ on (char b')') closed_paren
    ∷ on (char b'\n') newline
    ∷ on (then_ (char b'\r') (char b'\n')) newline
    ∷ on (char b'\r') newline
    ∷ on (plus (byte is_digit)) integer_literal
    ∷ record { pattern_of = byte is_blank; action = none }
    ∷ on identifier string_literal
    ∷ on (byte not_newline) string_literal
    ∷ on cstring_pattern cstring
    ∷ []

-- A match: its length and the action.
abbrev pub Match : Type 0
Match = ℕ × Option Token

abbrev pub matched : Rule → Bytes → Option Match
matched r bs = elim (longest r.pattern_of bs) [ none ↦ none | some n ↦ some (n, r.action) ]

-- The longer match, and the first of two that are as long.
abbrev pub better : Option Match → Option Match → Option Match
better none b = b
better (some a) none = some a
better (some a) (some b) = if ltb a.0 b.0 then some b else some a

unfoldable pub best : List Rule → Bytes → Option Match
best [] bs = none
best (r ∷ rs) bs = better (matched r bs) (best rs bs)

-- A match in the text: what the action returns, `yytext`, and the position that YY_USER_ACTION
-- stores.
pub record Piece : Type 0 where
  pub action : Option Token
  pub text : Bytes
  pub position : MiPosition

abbrev pub piece : ℕ → Match → Bytes → Piece
piece column m bs = record {
  action = m.1;
  text = take m.0 bs;
  position = record { start_column = column; end_column = column + m.0 - 1 };
}

-- The matches from the column on; each takes at least one byte, so fuel for each byte is enough.
unfoldable pub pieces : ℕ → ℕ → Bytes → List Piece
pieces zero column bs = []
pieces (suc fuel) column [] = []
pieces (suc fuel) column (c ∷ cs) = elim (best rules (c ∷ cs)) [
  | none ↦ []
  | some m ↦ piece column m (c ∷ cs) ∷ pieces fuel (column + m.0) (drop m.0 (c ∷ cs))
]

-- A token with its text and position, as `gdbwire_mi_lex` leaves them.
pub data Lexeme : Type 0 where
  lexeme : Token → Bytes → MiPosition → Lexeme

abbrev pub returned : List Piece → List Lexeme
returned [] = []
returned (p ∷ ps) = elim p.action [
  | none ↦ returned ps
  | some t ↦ lexeme t p.text p.position ∷ returned ps
]

-- The tokens of a line: what the calls of `gdbwire_mi_lex` return until it returns 0, behind
-- `gdbwire_mi__scan_string` and with the column set to 1.
unfoldable pub lexemes : Bytes → List Lexeme
unfolding pieces
lexemes line = returned (pieces (length line) 1 line)
