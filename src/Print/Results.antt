-- ===== src/Print/Results.antt =====
-- Tokens that spell results, and the productions of src/gdbwire_mi_grammar.y.
use gdbwire.Base.{
  ◌≡◌, refl, ap, sym, ◌∙◌, subst, inl, inr, ◌⊎◌, true, false, Option, none, some, List, [], ◌∷◌,
  Bytes, arith,
}
use gdbwire.Pt.{MiResult, null, cstring, tuple, list, append_after}
use gdbwire.Lexer.{
  Token, lexeme, string_literal, comma, equal_sign, open_brace, closed_brace, open_bracket,
  closed_bracket,
}
use gdbwire.Grammar.Unescape.{as_read, unescape-escaped}
use gdbwire.Grammar.Productions.{
  Lexemes, Terminal, OptVariable, no_variable, variable_equal, ResultList, one_result, more_results,
  Result, result_cstring, result_tuple, result_list, empty_tuple, tuple_results, empty_list,
  list_results,
}
use gdbwire.Print.{Word, sign, quoted, variable_words, results_words, texts_read}
use gdbwire.Print.Words.{words_of}

-- Tokens that spell `ws` begin with a `D`, and what follows spells `rest`.
abbrev pub Reads : (Lexemes → Lexemes → Type 0) → List Word → List Word → Type 0
Reads D ws rest =
    (ls : Lexemes) → words_of ls ≡ ws → (ls' : Lexemes) × (words_of ls' ≡ rest) × D ls ls'

pub word-Reads :
    (t : Token) (text : Bytes) (ws : List Word) → Reads (Terminal t text) ((t, text) ∷ ws) ws
word-Reads t text ws [] e = absurd (ground arith)
word-Reads t text ws (lexeme t' text' pos ∷ ls) e =
    let kind : t' ≡ t = cc in
    let same : text' ≡ text = cc in
    let behind : words_of ls ≡ ws = cc in
    (
      ls,
      behind,
      record {
        position = pos;
        read = ap (λ k. lexeme k text' pos ∷ ls) kind ∙ ap (λ x. lexeme t x pos ∷ ls) same;
      },
    )

variable-Reads :
    (v : Option Bytes) (ws : List Word)
    → Reads (λ ts rest. OptVariable ts v rest) (variable_words v ws) ws
variable-Reads none ws ls e = (ls, e, no_variable refl)
variable-Reads (some v) ws ls e =
    let (l1, e1, t1) = word-Reads string_literal v _ ls e in
    let (l2, e2, t2) = word-Reads equal_sign _ ws l1 e1 in (l2, e2, variable_equal v _ t1 t2)

-- No results, or a list of them.
abbrev pub Listed : MiResult → Lexemes → Lexemes → Type 0
Listed r ts rest = ((ts ≡ rest) × (r ≡ null)) ⊎ ResultList ts r rest

cstring-Reads :
    (v : Option Bytes) (t : Bytes) (ws : List Word)
    → Reads
        (λ ts rest. Result ts (cstring v (as_read t) null) rest)
        (variable_words v (quoted t ∷ ws))
        ws
cstring-Reads v t ws ls e =
    let (l1, e1, d1) = variable-Reads v _ ls e in
    let (l2, e2, t2) = word-Reads Token.cstring _ ws l1 e1 in
    (l2, e2, result_cstring _ d1 t2 (ap (λ x. cstring v x null) (sym (unescape-escaped t))))

tuple-Reads :
    (v : Option Bytes) (sub : MiResult) (inner ws : List Word)
    → Reads (Listed sub) inner (sign closed_brace b'}' ∷ ws)
    → Reads
        (λ ts rest. Result ts (tuple v sub null) rest)
        (variable_words v (sign open_brace b'{' ∷ inner))
        ws
tuple-Reads v sub inner ws h ls e =
    let (l1, e1, d1) = variable-Reads v _ ls e in
    let (l2, e2, t2) = word-Reads open_brace _ inner l1 e1 in
    let (l3, e3, d3) = h l2 e2 in
    let (l4, e4, t4) = word-Reads closed_brace _ ws l3 e3 in
    (
      l4,
      e4,
      result_tuple d1
          (elim d3 [
            | inl (same, gone) ↦
                empty_tuple _ _ (subst (λ l. Terminal open_brace (b'{' ∷ []) l1 l) same t2) t4 gone
            | inr ds ↦ tuple_results _ _ t2 ds t4
          ])
          refl,
    )

list-Reads :
    (v : Option Bytes) (sub : MiResult) (inner ws : List Word)
    → Reads (Listed sub) inner (sign closed_bracket b']' ∷ ws)
    → Reads
        (λ ts rest. Result ts (list v sub null) rest)
        (variable_words v (sign open_bracket b'[' ∷ inner))
        ws
list-Reads v sub inner ws h ls e =
    let (l1, e1, d1) = variable-Reads v _ ls e in
    let (l2, e2, t2) = word-Reads open_bracket _ inner l1 e1 in
    let (l3, e3, d3) = h l2 e2 in
    let (l4, e4, t4) = word-Reads closed_bracket _ ws l3 e3 in
    (
      l4,
      e4,
      result_list d1
          (elim d3 [
            | inl (same, gone) ↦
                empty_list _ _ (subst (λ l. Terminal open_bracket (b'[' ∷ []) l1 l) same t2) t4 gone
            | inr ds ↦ list_results _ _ t2 ds t4
          ])
          refl,
    )

append_after-null : (r : MiResult) → append_after r null ≡ r
unfolding append_after
append_after-null null = refl
append_after-null (cstring v t next) = ap (cstring v t) (append_after-null next)
append_after-null (tuple v sub next) = ap (tuple v sub) (append_after-null next)
append_after-null (list v sub next) = ap (list v sub) (append_after-null next)

append_after_assoc :
    (a b c : MiResult) → append_after (append_after a b) c ≡ append_after a (append_after b c)
unfolding append_after
append_after_assoc null b c = refl
append_after_assoc (cstring v t next) b c = ap (cstring v t) (append_after_assoc next b c)
append_after_assoc (tuple v sub next) b c = ap (tuple v sub) (append_after_assoc next b c)
append_after_assoc (list v sub next) b c = ap (list v sub) (append_after_assoc next b c)

-- Behind a comma, one more result.
comma-Reads :
    (ts : Lexemes) (acc one : MiResult) (ws rest : List Word)
    → Reads (λ ts rest. Result ts one rest) ws rest
    → (ls : Lexemes) → ResultList ts acc ls
    → words_of ls ≡ sign comma b',' ∷ ws
    → (ls' : Lexemes) × (words_of ls' ≡ rest) × ResultList ts (append_after acc one) ls'
comma-Reads ts acc one ws rest h ls d e =
    let (l1, e1, t1) = word-Reads comma _ ws ls e in
    let (l2, e2, d2) = h l1 e1 in (l2, e2, more_results _ d t1 d2 refl)

mutual
  unfolding append_after

  -- The results `acc` are read; those of `r` follow, each behind a comma.
  more_reads :
      (r : MiResult) (rest : List Word) (ts : Lexemes) (acc : MiResult) (ls : Lexemes)
      → ResultList ts acc ls
      → words_of ls ≡ results_words false r rest
      → (ls' : Lexemes) × (words_of ls' ≡ rest)
        × ResultList ts (append_after acc (texts_read r)) ls'
  more_reads null rest ts acc ls d e =
      (ls, e, subst (λ a. ResultList ts a ls) (sym (append_after-null acc)) d)
  more_reads (cstring v t next) rest ts acc ls d e =
      let (l1, e1, d1) =
        comma-Reads ts acc _ _ _ (cstring-Reads v t (results_words false next rest)) ls d e in
      let (l2, e2, d2) = more_reads next rest ts _ l1 d1 e1 in
      (
        l2,
        e2,
        subst (λ a. ResultList ts a l2)
            (append_after_assoc acc (cstring v (as_read t) null) (texts_read next)) d2,
      )
  more_reads (tuple v sub next) rest ts acc ls d e =
      let inner = Listed-Reads sub (sign closed_brace b'}' ∷ results_words false next rest) in
      let (l1, e1, d1) =
        comma-Reads ts acc _ _ _
          (tuple-Reads v (texts_read sub) _ (results_words false next rest) inner) ls d e in
      let (l2, e2, d2) = more_reads next rest ts _ l1 d1 e1 in
      (
        l2,
        e2,
        subst (λ a. ResultList ts a l2)
            (append_after_assoc acc (tuple v (texts_read sub) null) (texts_read next)) d2,
      )
  more_reads (list v sub next) rest ts acc ls d e =
      let inner = Listed-Reads sub (sign closed_bracket b']' ∷ results_words false next rest) in
      let (l1, e1, d1) =
        comma-Reads ts acc _ _ _
          (list-Reads v (texts_read sub) _ (results_words false next rest) inner) ls d e in
      let (l2, e2, d2) = more_reads next rest ts _ l1 d1 e1 in
      (
        l2,
        e2,
        subst (λ a. ResultList ts a l2)
            (append_after_assoc acc (list v (texts_read sub) null) (texts_read next)) d2,
      )

  pub Listed-Reads :
      (r : MiResult) (rest : List Word)
      → Reads (Listed (texts_read r)) (results_words true r rest) rest
  Listed-Reads null rest ls e = (ls, e, inl (refl, refl))
  Listed-Reads (cstring v t next) rest ls e =
      let (l1, e1, d1) = cstring-Reads v t (results_words false next rest) ls e in
      let (l2, e2, d2) = more_reads next rest ls _ l1 (one_result d1) e1 in (l2, e2, inr d2)
  Listed-Reads (tuple v sub next) rest ls e =
      let inner = Listed-Reads sub (sign closed_brace b'}' ∷ results_words false next rest) in
      let (l1, e1, d1) =
        tuple-Reads v (texts_read sub) _ (results_words false next rest) inner ls e in
      let (l2, e2, d2) = more_reads next rest ls _ l1 (one_result d1) e1 in (l2, e2, inr d2)
  Listed-Reads (list v sub next) rest ls e =
      let inner = Listed-Reads sub (sign closed_bracket b']' ∷ results_words false next rest) in
      let (l1, e1, d1) =
        list-Reads v (texts_read sub) _ (results_words false next rest) inner ls e in
      let (l2, e2, d2) = more_reads next rest ls _ l1 (one_result d1) e1 in (l2, e2, inr d2)
