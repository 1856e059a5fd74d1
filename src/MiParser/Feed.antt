-- ===== src/MiParser/Feed.antt =====
-- What pushing data means, without buffers and memory: the lines go to the parser one by one, up to
-- the first that it refuses.
use gdbwire.Base.{
  ◌≡◌, List, [], ◌∷◌, ◌++◌, true, Bytes, Mem, M, Ends, all_granted, GdbwireResult, gdbwire_ok,
  gdbwire_assert, if◌then◌else◌,
}
use gdbwire.StringBuf.Holds.{Holds}
use gdbwire.MiParser.{MiParser, has_newline}
use gdbwire.MiParser.Cut.{split, joined}
use gdbwire.MiParser.Lines.{IsLine}

-- The answer to a push: the code, the parser's other state, and the bytes that stay buffered.
abbrev pub Answer : Type 0 → Type 0
Answer P = GdbwireResult × (P × Bytes)

-- Behind one line: go on with `next`, or stop with the code that every failure becomes.
abbrev pub behind_line : {P : Type 0} → (P → Answer P) → Bytes → GdbwireResult × P → Answer P
behind_line next rest (gdbwire_ok, p) = next p
behind_line next rest (_, p) = (gdbwire_assert, (p, rest))

abbrev pub feed_lines :
    {P : Type 0} → (P → Bytes → GdbwireResult × P) → Bytes → List Bytes → P → Answer P
feed_lines parse tail [] p = (gdbwire_ok, (p, tail))
feed_lines parse tail (l ∷ ls) p =
    behind_line (feed_lines parse tail ls) (joined ls tail) (parse p l)

-- Every line of the text is parsed.
abbrev pub feed : {P : Type 0} → (P → Bytes → GdbwireResult × P) → Bytes → P → Answer P
feed parse bs p = feed_lines parse (split bs).1 (split bs).0 p

-- A push of `bytes` where `bs` is buffered.
abbrev pub pushed : {P : Type 0} → (P → Bytes → GdbwireResult × P) → Bytes → Bytes → P → Answer P
pushed parse bs bytes p =
    if has_newline bytes then feed parse (bs ++ bytes) p else (gdbwire_ok, (p, bs ++ bytes))

-- `gdbwire_mi_parser_parse_line` on a line, in a state that `Ok` says to be fit for it and where the
-- allocator refuses nothing: it returns what the function `parse` says.
pub record ParsesOn {P : Type 0} (Ok : P → Bytes → Type 0)
    (parse_line : P → Bytes → M (GdbwireResult × P)) (parse : P → Bytes → GdbwireResult × P)
    : Type 0 where
  pub answers :
      (p : P) (text : Bytes) (mem : Mem)
      → IsLine text
      → Ok p text
      → all_granted mem ≡ true
      → Ends (λ r m. (r ≡ parse p text) × (all_granted m ≡ true)) (parse_line p text mem)

abbrev pub AlwaysOk : {P : Type 0} → P → Bytes → Type 0
AlwaysOk p text = Unit {0}

-- The same, in every state.
abbrev pub Parses :
    {P : Type 0} → (P → Bytes → M (GdbwireResult × P)) → (P → Bytes → GdbwireResult × P) → Type 0
Parses parse_line parse = ParsesOn AlwaysOk parse_line parse

abbrev pub AfterOk : {P : Type 0} → (P → Type 0) → GdbwireResult × P → Type 0
AfterOk F (gdbwire_ok, p) = F p
AfterOk F (_, p) = Unit {0}

-- Each line that is parsed, one after the other, meets a state that is fit for it.
abbrev pub LinesOk :
    {P : Type 0} → (P → Bytes → GdbwireResult × P) → (P → Bytes → Type 0) → List Bytes → P → Type 0
LinesOk parse Ok [] p = Unit {0}
LinesOk parse Ok (l ∷ ls) p = Ok p l × AfterOk (LinesOk parse Ok ls) (parse p l)

pub LinesOk-all :
    {P : Type 0} (parse : P → Bytes → GdbwireResult × P) (ls : List Bytes) (p : P)
    → LinesOk parse AlwaysOk ls p
LinesOk-all parse [] p = tt
LinesOk-all {P = P} parse (l ∷ ls) p = (tt, behind (parse p l) λ q. LinesOk-all parse ls q)
  where
    behind :
        (r : GdbwireResult × P)
        → ((q : P) → LinesOk parse AlwaysOk ls q)
        → AfterOk (LinesOk parse AlwaysOk ls) r
    behind (gdbwire_ok, q) go = go q
    behind (_, q) go = tt

-- The returned code and the parser that is left are those of an answer.
abbrev pub Gives : {P : Type 0} → Answer P → GdbwireResult × MiParser P → Type 0
Gives (code, (p, rest)) (code1, q) = (code1 ≡ code) × (q.state ≡ p) × Holds q.buffer rest
