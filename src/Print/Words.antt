-- ===== src/Print/Words.antt =====
-- The lexer of src/gdbwire_mi_lexer.l on a line that GDB wrote, word by word.
use gdbwire.Base.{
  ℕ, zero, suc, ◌+◌, ◌≤◌, ◌<◌, ◌≡◌, ◌≢◌, refl, ap, ◌∙◌, Bool, true, false, Option, none, some, List,
  [], ◌∷◌, ◌++◌, Bytes, length, drop, arith, length-append, is_digit,
}
use gdbwire.Pt.{MiResult, null, cstring, tuple, list, exec, status, notify, console, target, log}
use gdbwire.MiParser.Lines.{AllBytes}
use gdbwire.Lexer.{
  Token, Lexeme, lexeme, returned, pieces, lexemes, best, rules, longest, deriv, nullable, is_word,
}
use gdbwire.Lexer.First.{take-append}
use gdbwire.Lexer.Munch.{pieces_step}
use gdbwire.Lexer.Words.{best-name, best-number}
use gdbwire.Lexer.Absent.{is_flat, best-flat, IsName}
use gdbwire.Lexer.Quoted.{best-cstring}
use gdbwire.Print.{
  Word, sign, quoted, variable_words, comma_words, results_words, Said, result_said, async_said,
  stream_said, prompt_said, token_words, line_end_words, class_words, words, spelling, line,
}

-- Each word is what the rules pick in front of the words behind it, and is not empty.
abbrev pub Lexes : List Word → Type 0
Lexes [] = Unit {0}
Lexes (w ∷ ws) =
    (best rules (w.1 ++ spelling ws) ≡ some (length w.1, some w.0)) × (0 < length w.1) × Lexes ws

abbrev pub words_of : List Lexeme → List Word
words_of [] = []
words_of (lexeme t text pos ∷ ls) = (t, text) ∷ words_of ls

drop-append {ℓ} : {A : Type ℓ} (u v : List A) → drop (length u) (u ++ v) ≡ v
drop-append [] v = refl
drop-append (x ∷ u) v = drop-append u v

words_of-pieces :
    (fuel column : ℕ) (ws : List Word)
    → length (spelling ws) ≤ fuel
    → Lexes ws
    → words_of (returned (pieces fuel column (spelling ws))) ≡ ws
unfolding pieces
words_of-pieces zero column [] le h = refl
words_of-pieces (suc fuel) column [] le h = refl
words_of-pieces fuel column ((t, []) ∷ ws) le h = absurd (omega (arith, h.1))
words_of-pieces zero column ((t, c ∷ u) ∷ ws) le h = absurd (omega arith)
words_of-pieces (suc fuel) column ((t, c ∷ u) ∷ ws) le h =
    let n : ℕ = length (c ∷ u) in
    let behind : drop n ((c ∷ u) ++ spelling ws) ≡ spelling ws =
      drop-append (c ∷ u) (spelling ws) in
    let rest =
      words_of-pieces fuel (column + n) ws (omega (arith, le, length-append {0} u (spelling ws)))
        h.2 in
    ap (λ ps. words_of (returned ps)) (pieces_step fuel column c (u ++ spelling ws) (n, some t) h.0)
    ∙ ap
        (λ x.
          (t, x) ∷ words_of (returned (pieces fuel (column + n) (drop n ((c ∷ u) ++ spelling ws)))))
        (take-append (c ∷ u) (spelling ws))
    ∙ ap (◌∷◌ (t, c ∷ u))
        (ap (λ bs. words_of (returned (pieces fuel (column + n) bs))) behind ∙ rest)

pub words_of-lexemes : (ws : List Word) → Lexes ws → words_of (lexemes (spelling ws)) ≡ ws
unfolding lexemes
words_of-lexemes ws h = words_of-pieces (length (spelling ws)) 1 ws (omega arith) h

sign-Lexes :
    (t : Token) (c : ℕ) (ws : List Word)
    → is_flat c rules ≡ true
    → best rules (c ∷ []) ≡ some (1, some t)
    → Lexes ws
    → Lexes (sign t c ∷ ws)
sign-Lexes t c ws flat e h = (best-flat c (spelling ws) rules flat ∙ e, omega arith, h)

quoted-Lexes : (t : Bytes) (ws : List Word) → Lexes ws → Lexes (quoted t ∷ ws)
quoted-Lexes t ws h = (best-cstring t (spelling ws), omega arith, h)

abbrev pub IsNamed : Option Bytes → Type 0
IsNamed none = Unit {0}
IsNamed (some v) = IsName v

-- The variables of the results are names.
abbrev pub AreNamed : MiResult → Type 0
AreNamed null = Unit {0}
AreNamed (cstring v t next) = IsNamed v × AreNamed next
AreNamed (tuple v sub next) = IsNamed v × AreNamed sub × AreNamed next
AreNamed (list v sub next) = IsNamed v × AreNamed sub × AreNamed next

variable-Lexes :
    (v : Option Bytes) (ws : List Word) → IsNamed v → Lexes ws → Lexes (variable_words v ws)
unfolding rules best longest deriv nullable
variable-Lexes none ws n h = h
variable-Lexes (some []) ws n h = absurd n
variable-Lexes (some (c ∷ cs)) ws n h =
    (best-name (c ∷ cs) b'=' (spelling ws) n refl, omega arith, sign-Lexes _ b'=' ws refl refl h)

comma-Lexes : (first : Bool) (ws : List Word) → Lexes ws → Lexes (comma_words first ws)
unfolding rules best longest deriv nullable
comma-Lexes true ws h = h
comma-Lexes false ws h = sign-Lexes _ b',' ws refl refl h

results-Lexes :
    (first : Bool) (r : MiResult) (ws : List Word)
    → AreNamed r
    → Lexes ws
    → Lexes (results_words first r ws)
unfolding rules best longest deriv nullable
results-Lexes first null ws n h = h
results-Lexes first (cstring v t next) ws n h =
    comma-Lexes first _
      (variable-Lexes v _ n.0 (quoted-Lexes t _ (results-Lexes false next ws n.1 h)))
results-Lexes first (tuple v sub next) ws n h = comma-Lexes first _ (
    variable-Lexes v _ n.0 (
      sign-Lexes _ b'{' _ refl refl (
        results-Lexes true sub _ n.1
          (sign-Lexes _ b'}' _ refl refl (results-Lexes false next ws n.2 h)))))
results-Lexes first (list v sub next) ws n h = comma-Lexes first _ (
    variable-Lexes v _ n.0 (
      sign-Lexes _ b'[' _ refl refl (
        results-Lexes true sub _ n.1
          (sign-Lexes _ b']' _ refl refl (results-Lexes false next ws n.2 h)))))

line_end-Lexes : Lexes line_end_words
unfolding rules best longest deriv nullable
line_end-Lexes = sign-Lexes _ b'\n' [] refl refl tt

-- Behind a class stands a comma or the line break.
results_words-end :
    (r : MiResult)
    → (d : ℕ) × (ds : Bytes) × (spelling (results_words false r line_end_words) ≡ d ∷ ds)
      × (is_word d ≡ false)
results_words-end null = (_, _, refl, refl)
results_words-end (cstring v t next) = (_, _, refl, refl)
results_words-end (tuple v sub next) = (_, _, refl, refl)
results_words-end (list v sub next) = (_, _, refl, refl)

class-Lexes : (name : Bytes) (r : MiResult) → IsName name → AreNamed r → Lexes (class_words name r)
class-Lexes [] r n k = absurd n
class-Lexes (c ∷ cs) r n k =
    let (d, ds, e, other) = results_words-end r in
    (
      ap (λ bs. best rules ((c ∷ cs) ++ bs)) e ∙ best-name (c ∷ cs) d ds n other,
      omega arith,
      results-Lexes false r line_end_words k line_end-Lexes,
    )

-- A token of a command, where there is one, is a number.
abbrev pub IsToken : Option Bytes → Type 0
IsToken none = Unit {0}
IsToken (some []) = ⊥
IsToken (some (x ∷ us)) = AllBytes (λ c. is_digit c ≡ true) (x ∷ us)

-- The class and the variables are names, and the token is a number. The texts of C strings are any
-- bytes.
abbrev pub IsSayable : Said → Type 0
IsSayable (result_said token name r) = IsToken token × IsName name × AreNamed r
IsSayable (async_said token kind name r) = IsToken token × IsName name × AreNamed r
IsSayable (stream_said kind text) = Unit {0}
IsSayable prompt_said = Unit {0}

token-Lexes :
    (token : Option Bytes) (t : Token) (d : ℕ) (ws : List Word)
    → IsToken token
    → is_digit d ≡ false
    → Lexes (sign t d ∷ ws)
    → Lexes (token_words token (sign t d ∷ ws))
token-Lexes none t d ws n other h = h
token-Lexes (some []) t d ws n other h = absurd n
token-Lexes (some (x ∷ us)) t d ws n other h =
    (best-number x us d (spelling ws) n other, omega arith, h)

-- The words of each line but the prompt, whose blank is no word.
words-Lexes : (s : Said) → s ≢ prompt_said → IsSayable s → Lexes (words s)
unfolding rules best longest deriv nullable
words-Lexes (result_said token name r) other n =
    token-Lexes token _ b'^' (class_words name r) n.0 refl
      (sign-Lexes _ b'^' (class_words name r) refl refl (class-Lexes name r n.1 n.2))
words-Lexes (async_said token exec name r) other n =
    token-Lexes token _ b'*' (class_words name r) n.0 refl
      (sign-Lexes _ b'*' (class_words name r) refl refl (class-Lexes name r n.1 n.2))
words-Lexes (async_said token status name r) other n =
    token-Lexes token _ b'+' (class_words name r) n.0 refl
      (sign-Lexes _ b'+' (class_words name r) refl refl (class-Lexes name r n.1 n.2))
words-Lexes (async_said token notify name r) other n =
    token-Lexes token _ b'=' (class_words name r) n.0 refl
      (sign-Lexes _ b'=' (class_words name r) refl refl (class-Lexes name r n.1 n.2))
words-Lexes (stream_said console text) other n =
    sign-Lexes _ b'~' (quoted text ∷ line_end_words) refl refl
      (quoted-Lexes text line_end_words line_end-Lexes)
words-Lexes (stream_said target text) other n =
    sign-Lexes _ b'@' (quoted text ∷ line_end_words) refl refl
      (quoted-Lexes text line_end_words line_end-Lexes)
words-Lexes (stream_said log text) other n =
    sign-Lexes _ b'&' (quoted text ∷ line_end_words) refl refl
      (quoted-Lexes text line_end_words line_end-Lexes)
words-Lexes prompt_said other n = absurd (other refl)

-- The blank of a prompt is not a token.
words_of-prompt : words_of (lexemes (line prompt_said)) ≡ words prompt_said
unfolding lexemes pieces rules best longest deriv nullable
words_of-prompt = refl

-- The tokens of a line, with their texts, are the words that GDB wrote.
pub words_of-line : (s : Said) → IsSayable s → words_of (lexemes (line s)) ≡ words s
words_of-line (result_said token name r) n =
    words_of-lexemes _ (words-Lexes (result_said token name r) (λ e. ground arith) n)
words_of-line (async_said token kind name r) n =
    words_of-lexemes _ (words-Lexes (async_said token kind name r) (λ e. ground arith) n)
words_of-line (stream_said kind text) n =
    words_of-lexemes _ (words-Lexes (stream_said kind text) (λ e. ground arith) n)
words_of-line prompt_said n = words_of-prompt
