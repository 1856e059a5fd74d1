-- ===== src/Print/Calm.antt =====
-- The breaks in what GDB wrote, as src/gdbwire_mi_parser.c splits it into lines.
use gdbwire.Base.{
  ℕ, ◌≡◌, refl, ap, sym, ◌∙◌, subst, Bool, true, false, Option, ltb, none, some, List, [], ◌∷◌,
  ◌++◌, Bytes, codes, map, arith, append_assoc, is_digit,
}
use gdbwire.Pt.{MiResult, null, cstring, tuple, list, exec, status, notify, console, target, log}
use gdbwire.MiParser.{has_newline}
use gdbwire.MiParser.Cut.{attach, split, with_line, split-tail, ends_line}
use gdbwire.MiParser.Lines.{AllBytes, IsCalm, split_past}
use gdbwire.Lexer.Absent.{IsName, IsWordByte}
use gdbwire.Grammar.Unescape.{escaped, escaped_byte, by_letter, as_itself, as_octal, byte-Written}
use gdbwire.Print.{
  Word, variable_words, comma_words, results_words, Said, result_said, async_said, stream_said,
  prompt_said, token_words, line_end_words, class_words, quoted, spelling, line,
}
use gdbwire.Print.Words.{IsNamed, AreNamed, IsToken, IsSayable}

-- Bytes without a break, and then "\n".
pub record OneLine (bs : Bytes) : Type 0 where
  pub body : Bytes
  pub calm : AllBytes IsCalm body
  pub whole : bs ≡ body ++ (b'\n' ∷ [])

AllBytes-map : (P Q : ℕ → Type 0) (u : Bytes) → ((c : ℕ) → P c → Q c) → AllBytes P u → AllBytes Q u
AllBytes-map P Q [] f h = tt
AllBytes-map P Q (c ∷ cs) f h = (f c h.0, AllBytes-map P Q cs f h.1)

append-OneLine : (u bs : Bytes) → AllBytes IsCalm u → OneLine bs → OneLine (u ++ bs)
append-OneLine [] bs h k = k
append-OneLine (c ∷ u) bs h k =
    let rest = append-OneLine u bs h.1 k in
    record { body = c ∷ rest.body; calm = (h.0, rest.calm); whole = ap (◌∷◌ c) rest.whole }

abbrev IsOne : List Word → Type 0
IsOne ws = OneLine (spelling ws)

name-IsCalm : (u : Bytes) → IsName u → AllBytes IsCalm u
name-IsCalm [] h = tt
name-IsCalm (c ∷ cs) h =
    let word : (d : ℕ) → IsWordByte d → IsCalm d = λ d k. (ground arith, ground arith) in
    ((ground (arith, h.0), ground (arith, h.0)), AllBytes-map IsWordByte IsCalm cs word h.1)

token-IsCalm : (u : Bytes) → AllBytes (λ c. is_digit c ≡ true) u → AllBytes IsCalm u
token-IsCalm u h = AllBytes-map _ IsCalm u (λ d k. (ground arith, ground arith)) h

shown-IsCalm : (c : ℕ) → ltb 31 c ≡ true → IsCalm c
shown-IsCalm c h = (ground (arith, h), ground (arith, h))

escaped_byte-IsCalm :
    (c : ℕ) (rest : Bytes) → AllBytes IsCalm rest → AllBytes IsCalm (escaped_byte c rest)
escaped_byte-IsCalm c rest h = elim (byte-Written c rest) [
  | by_letter l e k ↦
      subst (AllBytes IsCalm) (sym e) (shown-IsCalm b'\\' refl, (shown-IsCalm l k.1, h))
  | as_itself e q b k s ↦ subst (AllBytes IsCalm) (sym e) (shown-IsCalm c k, h)
  | as_octal d x f e o i j k s ↦ subst (AllBytes IsCalm) (sym e) (
    shown-IsCalm b'\\' refl,
    (
      shown-IsCalm d (ground (arith, i)),
      (shown-IsCalm x (ground (arith, j)), (shown-IsCalm f (ground (arith, k)), h)),
    ),
  )
]

escaped-IsCalm : (t : Bytes) → AllBytes IsCalm (escaped t)
escaped-IsCalm [] = ((ground arith, ground arith), tt)
escaped-IsCalm (c ∷ cs) = escaped_byte-IsCalm c (escaped cs) (escaped-IsCalm cs)

quoted-IsOne : (t : Bytes) (ws : List Word) → IsOne ws → IsOne (quoted t ∷ ws)
quoted-IsOne t ws h =
    append-OneLine (b'"' ∷ escaped t) (spelling ws) ((ground arith, ground arith), escaped-IsCalm t)
      h

sign-OneLine : (c : ℕ) (bs : Bytes) → IsCalm c → OneLine bs → OneLine (c ∷ bs)
sign-OneLine c bs k h = append-OneLine (c ∷ []) bs (k, tt) h

variable-IsOne :
    (v : Option Bytes) (ws : List Word) → IsNamed v → IsOne ws → IsOne (variable_words v ws)
variable-IsOne none ws n h = h
variable-IsOne (some v) ws n h =
    append-OneLine v (b'=' ∷ spelling ws) (name-IsCalm v n)
      (sign-OneLine b'=' (spelling ws) (ground arith, ground arith) h)

comma-IsOne : (first : Bool) (ws : List Word) → IsOne ws → IsOne (comma_words first ws)
comma-IsOne true ws h = h
comma-IsOne false ws h = sign-OneLine b',' (spelling ws) (ground arith, ground arith) h

results-IsOne :
    (first : Bool) (r : MiResult) (ws : List Word)
    → AreNamed r
    → IsOne ws
    → IsOne (results_words first r ws)
results-IsOne first null ws n h = h
results-IsOne first (cstring v t next) ws n h = comma-IsOne first _ (
    variable-IsOne v _ n.0
      (quoted-IsOne t (results_words false next ws) (results-IsOne false next ws n.1 h)))
results-IsOne first (tuple v sub next) ws n h = comma-IsOne first _ (
    variable-IsOne v _ n.0 (
      sign-OneLine b'{' _ (ground arith, ground arith)
        (results-IsOne true sub _ n.1
          (sign-OneLine b'}' _ (ground arith, ground arith) (results-IsOne false next ws n.2 h)))))
results-IsOne first (list v sub next) ws n h = comma-IsOne first _ (
    variable-IsOne v _ n.0 (
      sign-OneLine b'[' _ (ground arith, ground arith)
        (results-IsOne true sub _ n.1
          (sign-OneLine b']' _ (ground arith, ground arith) (results-IsOne false next ws n.2 h)))))

end-IsOne : IsOne line_end_words
end-IsOne = record { body = []; calm = tt; whole = refl }

class-IsOne : (name : Bytes) (r : MiResult) → IsName name → AreNamed r → IsOne (class_words name r)
class-IsOne name r n k =
    append-OneLine name _ (name-IsCalm name n) (results-IsOne false r line_end_words k end-IsOne)

token-IsOne :
    (token : Option Bytes) (ws : List Word)
    → IsToken token
    → IsOne ws
    → IsOne (token_words token ws)
token-IsOne none ws n h = h
token-IsOne (some []) ws n h = absurd n
token-IsOne (some (x ∷ us)) ws n h = append-OneLine (x ∷ us) _ (token-IsCalm (x ∷ us) n) h

pub line-OneLine : (s : Said) → IsSayable s → OneLine (line s)
line-OneLine (result_said token name r) n =
    token-IsOne token _ n.0
      (sign-OneLine b'^' _ (ground arith, ground arith) (class-IsOne name r n.1 n.2))
line-OneLine (async_said token exec name r) n =
    token-IsOne token _ n.0
      (sign-OneLine b'*' _ (ground arith, ground arith) (class-IsOne name r n.1 n.2))
line-OneLine (async_said token status name r) n =
    token-IsOne token _ n.0
      (sign-OneLine b'+' _ (ground arith, ground arith) (class-IsOne name r n.1 n.2))
line-OneLine (async_said token notify name r) n =
    token-IsOne token _ n.0
      (sign-OneLine b'=' _ (ground arith, ground arith) (class-IsOne name r n.1 n.2))
line-OneLine (stream_said console text) n =
    sign-OneLine b'~' _ (ground arith, ground arith) (quoted-IsOne text line_end_words end-IsOne)
line-OneLine (stream_said target text) n =
    sign-OneLine b'@' _ (ground arith, ground arith) (quoted-IsOne text line_end_words end-IsOne)
line-OneLine (stream_said log text) n =
    sign-OneLine b'&' _ (ground arith, ground arith) (quoted-IsOne text line_end_words end-IsOne)
line-OneLine prompt_said n = record {
  body = codes "(gdb) ";
  calm = (
    (ground arith, ground arith),
    (
      (ground arith, ground arith),
      (
        (ground arith, ground arith),
        (
          (ground arith, ground arith),
          ((ground arith, ground arith), ((ground arith, ground arith), tt)),
        ),
      ),
    ),
  );
  whole = refl;
}

split-append :
    (body rest : Bytes)
    → AllBytes IsCalm body
    → split ((body ++ (b'\n' ∷ [])) ++ rest) ≡ with_line (body ++ (b'\n' ∷ [])) (split rest)
split-append [] rest h = refl
split-append (c ∷ cs) rest h =
    let goes : ends_line c ((cs ++ (b'\n' ∷ [])) ++ rest) ≡ false = ground (arith, h.0) in
    split_past c ((cs ++ (b'\n' ∷ [])) ++ rest) goes ∙ ap (attach c) (split-append cs rest h.1)

-- The lines, one behind the other.
abbrev pub transcript : List Said → Bytes
transcript [] = []
transcript (s ∷ ss) = line s ++ transcript ss

abbrev pub AreSayable : List Said → Type 0
AreSayable [] = Unit {0}
AreSayable (s ∷ ss) = IsSayable s × AreSayable ss

-- The parser cuts what GDB wrote into the lines that GDB wrote.
pub split-transcript :
    (ss : List Said) (tail : Bytes)
    → AreSayable ss
    → has_newline tail ≡ false
    → split (transcript ss ++ tail) ≡ (map line ss, tail)
split-transcript [] tail n h = split-tail tail h
split-transcript (s ∷ ss) tail n h =
    let one = line-OneLine s n.0 in
    ap split (append_assoc (line s) (transcript ss) tail)
    ∙ ap (λ l. split (l ++ (transcript ss ++ tail))) one.whole
    ∙ split-append one.body (transcript ss ++ tail) one.calm
    ∙ ap (λ l. with_line l (split (transcript ss ++ tail))) (sym one.whole)
    ∙ ap (with_line (line s)) (split-transcript ss tail n.1 h)
