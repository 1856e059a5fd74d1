-- ===== src/Grammar/Steps.antt =====
-- What a step inside a result list leads to, by the productions of src/gdbwire_mi_grammar.y.
use gdbwire.Base.{
  ◌≡◌, refl, sym, subst, List, [], ◌∷◌, Option, none, Bytes, Bool-cases, inl, inr, ◌⊎◌, true,
}
use gdbwire.Pt.{
  MiResult, null, MiResultClass, MiAsyncClass, output_result, output_oob, async, MiPosition,
}
use gdbwire.Lexer.{Token, lexeme, open_brace, open_bracket, newline}
use gdbwire.Grammar.Productions.{
  Lexemes, Terminal, OptVariable, no_variable, ResultList, result_cstring, no_results,
  comma_results, OutputVariant, result_record, async_record,
}
use gdbwire.Grammar.Machine.{
  Head, result_head, async_head, Frame, at_result, complete, end_results, variant_of, begin_result,
  closes, close, first_token,
}
use gdbwire.Grammar.Reached.{
  Before, HeadRead, Leads, here, Before-Result, closing-eq, closed-Result, ListRead,
  in_list-Reached,
}

pub begin_result-Leads :
    (h : Head) (fs : List Frame) (acc : MiResult) (v : Option Bytes) (t : Token) (text : Bytes)
    (pos : MiPosition) (ts t3 mid rest : Lexemes)
    → ListRead h fs ts t3
    → Before acc t3 mid
    → OptVariable mid v (lexeme t text pos ∷ rest)
    → Leads t ts rest (begin_result h fs acc v t text)
begin_result-Leads h fs acc v Token.cstring text pos ts t3 mid rest l b d =
    in_list-Reached h fs (at_result _) ts t3 rest l
      (Before-Result acc _ t3 mid rest b (result_cstring text d (here pos) refl))
begin_result-Leads h fs acc v open_brace text pos ts t3 mid rest (t1, t2, sign, x, c, fr) b d = (
  t1,
  t2,
  rest,
  sign,
  x,
  c,
  (t3, mid, lexeme open_brace text pos ∷ rest, text, fr, b, d, here pos),
  refl,
)
begin_result-Leads h fs acc v open_bracket text pos ts t3 mid rest (t1, t2, sign, x, c, fr) b d = (
  t1,
  t2,
  rest,
  sign,
  x,
  c,
  (t3, mid, lexeme open_bracket text pos ∷ rest, text, fr, b, d, here pos),
  refl,
)
begin_result-Leads h fs acc v _ text pos ts t3 mid rest l b d = tt

close-Leads :
    (h : Head) (f : Frame) (fs : List Frame) (sub : MiResult) (t : Token) (text : Bytes)
    (pos : MiPosition) (ts t4 rest : Lexemes)
    → closes f.kind t ≡ true
    → ListRead h (f ∷ fs) ts t4
    → (((sub ≡ null) × (t4 ≡ lexeme t text pos ∷ rest))
        ⊎ ResultList t4 sub (lexeme t text pos ∷ rest))
    → Leads t ts rest (close h f fs sub)
close-Leads h f fs sub t text pos ts t4 rest e (t1, t2, sign, x, c, (m1, m2, m3, left, fr, b, d, o))
      ds =
    (
      t1,
      t2,
      m1,
      sign,
      x,
      c,
      fr,
      Before-Result f.results _ m1 m2 rest b (
          closed-Result f.kind f.variable sub m2 m3 t4 (lexeme t text pos ∷ rest) rest left text d o
            ds
            (subst (λ k. Terminal k text (lexeme t text pos ∷ rest) rest) (closing-eq f.kind t e)
              (here pos))),
    )

pub first_token-Leads :
    (h : Head) (fs : List Frame) (t : Token) (text : Bytes) (pos : MiPosition)
    (ts t4 rest : Lexemes)
    → ListRead h fs ts t4
    → t4 ≡ lexeme t text pos ∷ rest
    → Leads t ts rest (first_token h fs t text)
first_token-Leads h [] t text pos ts t4 rest l e =
    begin_result-Leads h [] null none t text pos ts t4 t4 rest l (inl (refl, refl)) (no_variable e)
first_token-Leads h (f ∷ fs) t text pos ts t4 rest l e = elim (Bool-cases (closes f.kind t)) [
  | inl shut ↦
      rw (shut, first_token) (close-Leads h f fs null t text pos ts t4 rest shut l (inl (refl, e)))
  | inr open_ ↦
      rw (open_, first_token)
        (begin_result-Leads h (f ∷ fs) null none t text pos ts t4 t4 rest l (inl (refl, refl))
          (no_variable e))
]

pub end_results-Leads :
    (h : Head) (fs : List Frame) (acc : MiResult) (t : Token) (text : Bytes) (pos : MiPosition)
    (ts t4 rest : Lexemes)
    → ListRead h fs ts t4
    → ResultList t4 acc (lexeme t text pos ∷ rest)
    → Leads t ts rest (end_results h fs acc t)
end_results-Leads (result_head token class) [] acc newline text pos ts t4 rest
      (t1, t2, sign, (m1, m2, s, x, k, c, n, e), d, fr) ds =
    (
      refl,
      lexeme newline text pos ∷ rest,
      text,
      subst
          (λ (cl : MiResultClass).
            OutputVariant ts
              (output_result (record { token = token; result_class = cl; result = acc }))
              (lexeme newline text pos ∷ rest))
          e
          (result_record s x k c n (
            comma_results sign d
              (subst (λ q. ResultList q acc (lexeme newline text pos ∷ rest)) (sym fr) ds))),
      here pos,
    )
end_results-Leads (async_head token kind class) [] acc newline text pos ts t4 rest
      (t1, t2, sign, (m1, m2, x, k, c, n, e), d, fr) ds =
    (
      refl,
      lexeme newline text pos ∷ rest,
      text,
      subst
          (λ (cl : MiAsyncClass).
            OutputVariant ts
              (output_oob
                (async (record { token = token; kind = kind; async_class = cl; result = acc })))
              (lexeme newline text pos ∷ rest))
          e
          (async_record x k c n (
            comma_results sign d
              (subst (λ q. ResultList q acc (lexeme newline text pos ∷ rest)) (sym fr) ds))),
      here pos,
    )
end_results-Leads h [] acc _ text pos ts t4 rest l ds = tt
end_results-Leads h (f ∷ fs) acc t text pos ts t4 rest l ds = elim (Bool-cases (closes f.kind t)) [
  | inl shut ↦ rw (shut, end_results) (close-Leads h f fs acc t text pos ts t4 rest shut l (inr ds))
  | inr open_ ↦ rw (open_, end_results) tt
]

pub head-Leads :
    (h : Head) (text : Bytes) (pos : MiPosition) (ts rest : Lexemes)
    → HeadRead h ts (lexeme newline text pos ∷ rest)
    → Leads newline ts rest (complete (variant_of h null))
head-Leads (result_head token class) text pos ts rest (m1, m2, s, x, k, c, n, e) = (
  refl,
  lexeme newline text pos ∷ rest,
  text,
  subst
      (λ (cl : MiResultClass).
        OutputVariant ts
          (output_result (record { token = token; result_class = cl; result = null }))
          (lexeme newline text pos ∷ rest))
      e (result_record s x k c n (no_results refl refl)),
  here pos,
)
head-Leads (async_head token kind class) text pos ts rest (m1, m2, x, k, c, n, e) = (
  refl,
  lexeme newline text pos ∷ rest,
  text,
  subst
      (λ (cl : MiAsyncClass).
        OutputVariant ts
          (output_oob
            (async (record { token = token; kind = kind; async_class = cl; result = null })))
          (lexeme newline text pos ∷ rest))
      e (async_record x k c n (no_results refl refl)),
  here pos,
)
