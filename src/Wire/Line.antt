-- ===== src/Wire/Line.antt =====
-- src/gdbwire_mi_parser.c: what a push of bytes does with a parser that has the lexer and the push
-- parser.
use gdbwire.Base.{
  ◌+◌, ◌<◌, ◌≡◌, refl, ap, sym, ◌∙◌, subst, List, [], ◌∷◌, ◌++◌, Option, none, some, true, false,
  Bytes, length, Mem, M, value, Ends, Ends-bind, Ends-map, ◌>>=◌, all_granted, GdbwireResult,
  gdbwire_ok, gdbwire_assert, inl, inr, ◌⊎◌,
}
use gdbwire.StringBuf.{size_mod}
use gdbwire.StringBuf.Holds.{Holds}
use gdbwire.Pt.{MiOutput, null, output, MiOutputVariant, strdup}
use gdbwire.Lexer.{lexemes}
use gdbwire.Lexer.Terminated.{lexemes-Terminated}
use gdbwire.Grammar.Machine.{Pstate, at_start, push_all}
use gdbwire.Grammar.Verdict.{Accepted, Rejected, push_all-Verdict}
use gdbwire.MiParser.{MiParser, push_data, has_newline}
use gdbwire.MiParser.Cut.{split, joined}
use gdbwire.MiParser.Lines.{IsLine, AllLines, split-AllLines}
use gdbwire.MiParser.Feed.{AlwaysOk, Parses, Gives, feed, feed_lines, behind_line, pushed}
use gdbwire.MiParser.Texts.{nul_free}
use gdbwire.MiParser.Chunks.{pushed-feed}
use gdbwire.MiParser.Push.{push_data-pushed}
use gdbwire.Wire.{Callbacks, dispatch, output_callback, parse_line}
use gdbwire.Wire.Tokens.{output_of, parse_output, parse_output-granted, strdup-granted}

-- What a line means: the output that its tokens are, or an error at the first token that no output
-- can have there.
abbrev pub Means : Bytes → MiOutputVariant → Type 0
Means l v =
    Accepted (lexemes l) (some (output v none null))
    ⊎ Rejected (lexemes l) (some (output v none null))

pub line-Means :
    (l : Bytes)
    → IsLine l
    → (v : MiOutputVariant) × (push_all at_start none (lexemes l)
        ≡ (at_start, some (output v none null)))
      × Means l v
line-Means l h =
    let (start, verdict) = push_all-Verdict h.brk (lexemes l) (lexemes-Terminated l h) in
    elim verdict [
      | inl a ↦ (a.variant, pair start a.value, inl (subst (Accepted (lexemes l)) a.value a))
      | inr r ↦ (_, pair start r.value, inr (subst (Rejected (lexemes l)) r.value r))
    ]
  where
    pair :
        {s : Pstate} {o : Option MiOutput}
        → (push_all at_start none (lexemes l)).0 ≡ s
        → (push_all at_start none (lexemes l)).1 ≡ o
        → push_all at_start none (lexemes l) ≡ (s, o)
    pair e f = cc

-- A function that the callbacks are, where the allocator refuses nothing.
pub record Handles {C : Type 0} (cbs : Callbacks C)
    (handle : MiOutputVariant → Option Bytes → C → C) : Type 0 where
  pub answers :
      (v : MiOutputVariant) (line : Option Bytes) (c : C) (mem : Mem)
      → all_granted mem ≡ true
      → Ends (λ c1 m. (c1 ≡ handle v line c) × (all_granted m ≡ true)) (dispatch cbs v line c mem)

-- The client's context goes from `c` to the last argument: for each line, in order, there is one
-- call of one callback, with what the line means and with the line's text.
pub data Served {C : Type 0} (handle : MiOutputVariant → Option Bytes → C → C)
    : List Bytes → C → C → Type 0 where
  served_none : {c : C} → Served handle [] c c
  served_line :
      {l : Bytes} {ls : List Bytes} {c c1 : C} (v : MiOutputVariant)
      → Means l v
      → Served handle ls (handle v (some l) c) c1
      → Served handle (l ∷ ls) c c1

module _ {C : Type 0} (cbs : Callbacks C) (handle : MiOutputVariant → Option Bytes → C → C)
    (handles : Handles cbs handle) where
  abbrev handle_all : MiOutput → C → C
  handle_all null c = c
  handle_all (output v line next) c = handle_all next (handle v line c)

  -- The reference for `parse_line` on one line.
  abbrev answer : MiOutput → Pstate → Bytes → C → GdbwireResult × (Pstate × C)
  answer null s text c = (gdbwire_assert, (s, c))
  answer (output v old next) s text c = (gdbwire_ok, (s, handle_all (output v (some text) next) c))

  abbrev line_answer : Pstate × C → Bytes → GdbwireResult × (Pstate × C)
  line_answer (s, c) text =
      let r = push_all s none (lexemes text) in answer (output_of r.1) r.0 text c

  callback-Handles :
      (o : MiOutput) (c : C) (mem : Mem)
      → all_granted mem ≡ true
      → Ends (λ c1 m. (c1 ≡ handle_all o c) × (all_granted m ≡ true)) (output_callback cbs o c mem)
  unfolding output_callback
  callback-Handles null c mem g = (refl, g)
  callback-Handles (output v line next) c mem g =
      Ends-bind _ _ (dispatch cbs v line c mem) _ (handles.answers v line c mem g) λ c1 m (e, g1).
        subst
          (λ x.
            Ends (λ c2 m1. (c2 ≡ handle_all next x) × (all_granted m1 ≡ true))
              (output_callback cbs next c1 m))
          e (callback-Handles next c1 m g1)

  parse_line-Parses : Parses (parse_line parse_output cbs) line_answer
  unfolding parse_line
  parse_line-Parses = record { answers = answers }
    where
      after :
          (o : MiOutput) (s : Pstate) (c : C) (text : Bytes) (m : Mem)
          → all_granted m ≡ true
          → Ends
              (λ r m1. (r ≡ answer o s text c) × (all_granted m1 ≡ true))
              ((elim o as (λ _. M (GdbwireResult × (Pstate × C))) [
                | null ↦ λ m1. value (gdbwire_assert, (s, c)) m1
                | output v old next ↦ strdup (some text) >>= λ line.
                    output_callback cbs (output v line next) c >>= λ c1 m1.
                    value (gdbwire_ok, (s, c1)) m1
              ])
                m)
      after null s c text m g = (refl, g)
      after (output v old next) s c text m g =
          Ends-bind _ _ (strdup (some text) m) _ (strdup-granted text m g) λ line m1 (l, g1).
            Ends-bind _ _ (output_callback cbs (output v line next) c m1) _
              (callback-Handles (output v line next) c m1 g1)
              λ c1 m2 (e, g2). (
                ap (λ x. (gdbwire_ok, (s, x))) (e ∙ ap (λ x. handle_all (output v x next) c) l),
                g2,
              )

      answers :
          (p : Pstate × C) (text : Bytes) (mem : Mem)
          → IsLine text
          → AlwaysOk p text
          → all_granted mem ≡ true
          → Ends
              (λ r m. (r ≡ line_answer p text) × (all_granted m ≡ true))
              (parse_line parse_output cbs p text mem)
      answers (s, c) text mem line ok g =
          Ends-bind _ _ (parse_output s text mem) _ (parse_output-granted s text mem line g)
            λ (o, s1) m (e, g1).
              Ends-map {A = GdbwireResult × (Pstate × C)}
                (λ r m1. (r ≡ answer o s1 text c) × (all_granted m1 ≡ true))
                (λ r m1. (r ≡ line_answer (s, c) text) × (all_granted m1 ≡ true)) _
                (after o s1 c text m g1) λ r m1 q. (q.0 ∙ ap (λ a. answer a.0 a.1 text c) e, q.1)

  -- Lines, each parsed from the start of the parser.
  feed-Served :
      (ls : List Bytes) (tail : Bytes) (c : C)
      → AllLines IsLine ls
      → (c1 : C) × (feed_lines line_answer tail ls (at_start, c)
          ≡ (gdbwire_ok, ((at_start, c1), tail)))
        × Served handle ls c c1
  feed-Served [] tail c h = (c, refl, served_none)
  feed-Served (l ∷ ls) tail c h =
      let (v, e, means) = line-Means l h.0 in
      let (c1, f, served) = feed-Served ls tail (handle v (some l) c) h.1 in
      (
        c1,
        ap
              (λ r.
                behind_line (feed_lines line_answer tail ls) (joined ls tail)
                  (answer (output_of r.1) r.0 l c))
              e
            ∙ f,
        served_line v means served,
      )

  -- A push to a parser that is at its start and has no break buffered returns GDBWIRE_OK, where the
  -- buffer's size stays in range, no byte is NUL, the allocator refuses nothing and Bison's stack has room: no line is
  -- refused. Each line of what was buffered and pushed, in order, makes one call of one callback,
  -- with what the line means by the grammar and with the line's text; the bytes behind the last
  -- line stay buffered, and the parser is at its start again.
  pub push_data-Served :
      (p : MiParser (Pstate × C)) (c : C) (bs bytes : Bytes) (mem : Mem)
      → Holds p.buffer bs
      → p.state ≡ (at_start, c)
      → has_newline bs ≡ false
      → length bs + length bytes + 4097 < size_mod
      → nul_free (bs ++ bytes) ≡ true
      → all_granted mem ≡ true
      → Ends
          (λ (code, q) m.
            (code ≡ gdbwire_ok)
            × (q.state.0 ≡ at_start)
            × Served handle (split (bs ++ bytes)).0 c q.state.1
            × Holds q.buffer (split (bs ++ bytes)).1)
          (push_data (parse_line parse_output cbs) p bytes mem)
  push_data-Served p c bs bytes mem h start whole lt free g =
      let (c1, f, served) =
        feed-Served (split (bs ++ bytes)).0 (split (bs ++ bytes)).1 c
          (split-AllLines (bs ++ bytes)) in
      let same : pushed line_answer bs bytes p.state
          ≡ (gdbwire_ok, ((at_start, c1), (split (bs ++ bytes)).1)) =
        pushed-feed line_answer bs bytes p.state whole
        ∙ ap (feed line_answer (bs ++ bytes)) start
        ∙ f in
      Ends-map _ _ (push_data (parse_line parse_output cbs) p bytes mem)
        (push_data-pushed (parse_line parse_output cbs) line_answer parse_line-Parses p bs bytes mem
          h lt free g)
        λ r m (gives, g1).
          let k = subst (λ a. Gives a r) same gives in
          (
            k.0,
            ap (λ x. x.0) k.1,
            subst (Served handle (split (bs ++ bytes)).0 c) (sym (ap (λ x. x.1) k.1)) served,
            k.2,
          )
