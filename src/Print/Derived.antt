-- ===== src/Print/Derived.antt =====
-- The productions of src/gdbwire_mi_grammar.y over the words of a line that GDB wrote.
use gdbwire.Base.{
  ◌≡◌, refl, subst, inl, inr, false, Option, none, some, List, [], ◌∷◌, Bytes, arith, ◌≢◌,
}
use gdbwire.Pt.{
  output_oob, output_result, stream, async, unsupported, async_unsupported, MiResult, null, cstring,
  tuple, list, MiAsyncRecordKind, exec, status, notify, MiStreamRecordKind, console, target, log,
}
use gdbwire.Lexer.{Token, lexeme, string_literal, integer_literal, comma, carrot, newline, lexemes}
use gdbwire.Grammar.{result_class, async_class}
use gdbwire.Grammar.Unescape.{escaped, unescape-escaped}
use gdbwire.Grammar.Productions.{
  Lexemes, OptToken, no_token, integer_token, OptResults, no_results, comma_results,
  AsyncRecordClass, class_exec, class_status, class_notify, StreamRecordClass, class_console,
  class_target, class_log, OutputVariant, result_record, async_record, stream_record, prompt,
  Output, output_newline,
}
use gdbwire.Print.{
  Word, sign, quoted, results_words, Said, result_said, async_said, stream_said, prompt_said,
  token_words, async_sign, stream_sign, line_end_words, class_words, prompt_words, words, line,
  texts_read, meaning, result_names, async_names, entry,
}
use gdbwire.Print.Words.{words_of, IsSayable, words_of-line}
use gdbwire.Print.Results.{Reads, word-Reads, Listed, Listed-Reads}

comma-Listed :
    (r : MiResult) (ws rest : List Word)
    → r ≢ null
    → Reads (Listed r) ws rest
    → Reads (λ ts rest. OptResults ts r rest) (sign comma b',' ∷ ws) rest
comma-Listed r ws rest some_r h ls e =
    let (l1, e1, t1) = word-Reads comma _ ws ls e in
    let (l2, e2, d2) = h l1 e1 in
    (l2, e2, elim d2 [ inl (same, gone) ↦ absurd (some_r gone) | inr ds ↦ comma_results _ t1 ds ])

behind_class :
    (r : MiResult) (rest : List Word)
    → Reads (λ ts rest. OptResults ts (texts_read r) rest) (results_words false r rest) rest
behind_class null rest ls e = (ls, e, no_results refl refl)
behind_class (cstring v t next) rest ls e =
    comma-Listed _ _ rest (λ k. ground arith) (Listed-Reads (cstring v t next) rest) ls e
behind_class (tuple v sub next) rest ls e =
    comma-Listed _ _ rest (λ k. ground arith) (Listed-Reads (tuple v sub next) rest) ls e
behind_class (list v sub next) rest ls e =
    comma-Listed _ _ rest (λ k. ground arith) (Listed-Reads (list v sub next) rest) ls e

token-Reads :
    (token : Option Bytes) (ws : List Word)
    → Reads (λ ts rest. OptToken ts token rest) (token_words token ws) ws
token-Reads none ws ls e = (ls, e, no_token refl)
token-Reads (some digits) ws ls e =
    let (l1, e1, t1) = word-Reads integer_literal digits ws ls e in
    (l1, e1, integer_token digits t1)

async-Reads :
    (kind : MiAsyncRecordKind) (ws : List Word)
    → Reads (λ ts rest. AsyncRecordClass ts kind rest) (async_sign kind ∷ ws) ws
async-Reads exec ws ls e = let (l1, e1, t1) = word-Reads _ _ ws ls e in (l1, e1, class_exec _ t1)
async-Reads status ws ls e =
    let (l1, e1, t1) = word-Reads _ _ ws ls e in (l1, e1, class_status _ t1)
async-Reads notify ws ls e =
    let (l1, e1, t1) = word-Reads _ _ ws ls e in (l1, e1, class_notify _ t1)

stream-Reads :
    (kind : MiStreamRecordKind) (ws : List Word)
    → Reads (λ ts rest. StreamRecordClass ts kind rest) (stream_sign kind ∷ ws) ws
stream-Reads console ws ls e =
    let (l1, e1, t1) = word-Reads _ _ ws ls e in (l1, e1, class_console _ t1)
stream-Reads target ws ls e =
    let (l1, e1, t1) = word-Reads _ _ ws ls e in (l1, e1, class_target _ t1)
stream-Reads log ws ls e = let (l1, e1, t1) = word-Reads _ _ ws ls e in (l1, e1, class_log _ t1)

-- The classes that the productions read are those of GDB's names.
result_class-entry : (name : Bytes) → result_class name ≡ entry result_names unsupported name
unfolding result_class
result_class-entry name = refl

async_class-entry : (name : Bytes) → async_class name ≡ entry async_names async_unsupported name
unfolding async_class
async_class-entry name = refl

variant_reads :
    (s : Said) (ls : Lexemes)
    → words_of ls ≡ words s
    → (ls' : Lexemes) × (words_of ls' ≡ line_end_words) × OutputVariant ls (meaning s) ls'
variant_reads (result_said token name r) ls e =
    let (l1, e1, d1) = token-Reads token _ ls e in
    let (l2, e2, t2) = word-Reads carrot _ (class_words name r) l1 e1 in
    let (l3, e3, t3) = word-Reads string_literal name _ l2 e2 in
    let (l4, e4, d4) = behind_class r line_end_words l3 e3 in
    (
      l4,
      e4,
      subst
          (λ c.
            OutputVariant ls
              (output_result (record { token = token; result_class = c; result = texts_read r }))
              l4)
          (result_class-entry name) (result_record _ name d1 t2 t3 d4),
    )
variant_reads (async_said token kind name r) ls e =
    let (l1, e1, d1) = token-Reads token _ ls e in
    let (l2, e2, d2) = async-Reads kind (class_words name r) l1 e1 in
    let (l3, e3, t3) = word-Reads string_literal name _ l2 e2 in
    let (l4, e4, d4) = behind_class r line_end_words l3 e3 in
    (
      l4,
      e4,
      subst
          (λ c.
            OutputVariant ls
              (output_oob (
                async
                  (record { token = token; kind = kind; async_class = c; result = texts_read r })))
              l4)
          (async_class-entry name) (async_record name d1 d2 t3 d4),
    )
variant_reads (stream_said kind text) ls e =
    let (l1, e1, d1) = stream-Reads kind (quoted text ∷ line_end_words) ls e in
    let (l2, e2, t2) = word-Reads Token.cstring (b'"' ∷ escaped text) line_end_words l1 e1 in
    (
      l2,
      e2,
      subst (λ x. OutputVariant ls (output_oob (stream (record { kind = kind; cstring = x }))) l2)
          (unescape-escaped text) (stream_record _ d1 t2),
    )
variant_reads prompt_said ls e =
    let (l1, e1, t1) = word-Reads _ _ prompt_words ls e in
    let (l2, e2, t2) = word-Reads string_literal _ _ l1 e1 in
    let (l3, e3, t3) = word-Reads _ _ line_end_words l2 e2 in (l3, e3, prompt _ _ _ t1 t2 refl t3)

no_words : (ls : Lexemes) → words_of ls ≡ [] → ls ≡ []
no_words [] e = refl
no_words (lexeme t text pos ∷ ls) e = absurd (ground arith)

-- The tokens of a line are one output of the grammar, and its value is what the line means.
pub line-Output : (s : Said) → IsSayable s → Output (lexemes (line s)) (meaning s) []
line-Output s n =
    let (l1, e1, d1) = variant_reads s (lexemes (line s)) (words_of-line s n) in
    let (l2, e2, t2) = word-Reads newline _ [] l1 e1 in
    subst (λ l. Output (lexemes (line s)) (meaning s) l) (no_words l2 e2) (output_newline _ d1 t2)
