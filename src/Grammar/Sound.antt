-- ===== src/Grammar/Sound.antt =====
-- What the push parser accepts, the productions derive, with the value that it stores.
use gdbwire.Base.{
  ◌≡◌, refl, sym, List, ◌∷◌, Option, none, some, Bytes, codes, streq, streq_iff, Bool-cases, inl,
  inr,
}
use gdbwire.Pt.{null, MiPosition}
use gdbwire.Lexer.{
  Token, lexeme, open_paren, closed_paren, add_op, mult_op, equal_sign, tilda, at_symbol, ampersand,
  newline, integer_literal, string_literal, comma, carrot,
}
use gdbwire.Grammar.Productions.{
  Lexemes, no_variable, variable_equal, OptToken, no_token, integer_token, class_exec, class_status,
  class_notify, class_console, class_target, class_log, stream_record, prompt,
}
use gdbwire.Grammar.Machine.{
  Head, Frame, Place, at_first, at_comma, at_variable, at_equal, at_result, Pstate, at_start,
  at_token, at_carrot, at_async, at_class, at_stream, at_variant, at_paren, at_prompt, in_list,
  recovering, step_sign, step_start, step_place, step,
}
use gdbwire.Grammar.Reached.{PlaceRead, Reached, Leads, here, ListRead, in_list-Reached}
use gdbwire.Grammar.Steps.{begin_result-Leads, first_token-Leads, end_results-Leads, head-Leads}

place-Leads :
    (h : Head) (fs : List Frame) (p : Place) (t : Token) (text : Bytes) (pos : MiPosition)
    (ts t4 rest : Lexemes)
    → ListRead h fs ts t4
    → PlaceRead p t4 (lexeme t text pos ∷ rest)
    → Leads t ts rest (step_place h fs p t text)
unfolding step_place
place-Leads h fs at_first string_literal text pos ts t4 rest l e =
    in_list-Reached h fs (at_variable null text) ts t4 rest l
      (lexeme string_literal text pos ∷ rest, inl (refl, e), here pos)
place-Leads h fs at_first t text pos ts t4 rest l e =
    first_token-Leads h fs t text pos ts t4 rest l e
place-Leads h fs (at_comma acc) string_literal text pos ts t4 rest l d =
    in_list-Reached h fs (at_variable acc text) ts t4 rest l
      (lexeme string_literal text pos ∷ rest, inr d, here pos)
place-Leads h fs (at_comma acc) t text pos ts t4 rest l d =
    begin_result-Leads h fs acc none t text pos ts t4 (lexeme t text pos ∷ rest) rest l (inr d)
      (no_variable refl)
place-Leads h fs (at_variable acc v) equal_sign text pos ts t4 rest l (mid, b, d) =
    in_list-Reached h fs (at_equal acc v) ts t4 rest l (mid, b, variable_equal v text d (here pos))
place-Leads h fs (at_variable acc v) _ text pos ts t4 rest l d = tt
place-Leads h fs (at_equal acc v) t text pos ts t4 rest l (mid, b, d) =
    begin_result-Leads h fs acc (some v) t text pos ts t4 mid rest l b d
place-Leads h fs (at_result acc) comma text pos ts t4 rest l ds =
    in_list-Reached h fs (at_comma acc) ts t4 rest l
      (lexeme comma text pos ∷ rest, text, ds, here pos)
place-Leads h fs (at_result acc) t text pos ts t4 rest l ds =
    end_results-Leads h fs acc t text pos ts t4 rest l ds

sign-Leads :
    (token : Option Bytes) (t : Token) (text : Bytes) (pos : MiPosition) (ts rest : Lexemes)
    → OptToken ts token (lexeme t text pos ∷ rest)
    → Leads t ts rest (step_sign token t)
sign-Leads token carrot text pos ts rest d = (lexeme carrot text pos ∷ rest, text, d, here pos)
sign-Leads token mult_op text pos ts rest d =
    (lexeme mult_op text pos ∷ rest, d, class_exec text (here pos))
sign-Leads token add_op text pos ts rest d =
    (lexeme add_op text pos ∷ rest, d, class_status text (here pos))
sign-Leads token equal_sign text pos ts rest d =
    (lexeme equal_sign text pos ∷ rest, d, class_notify text (here pos))
sign-Leads token _ text pos ts rest d = tt

start-Leads :
    (t : Token) (text : Bytes) (pos : MiPosition) (ts rest : Lexemes)
    → ts ≡ lexeme t text pos ∷ rest
    → Leads t ts rest (step_start t text)
start-Leads integer_literal text pos ts rest e = record { position = pos; read = e }
start-Leads tilda text pos ts rest e = class_console text (record { position = pos; read = e })
start-Leads at_symbol text pos ts rest e = class_target text (record { position = pos; read = e })
start-Leads ampersand text pos ts rest e = class_log text (record { position = pos; read = e })
start-Leads open_paren text pos ts rest e = (text, record { position = pos; read = e })
start-Leads t text pos ts rest e = sign-Leads none t text pos ts rest (no_token e)

pub step-Leads :
    (s : Pstate) (t : Token) (text : Bytes) (pos : MiPosition) (ts rest : Lexemes)
    → Reached s ts (lexeme t text pos ∷ rest)
    → Leads t ts rest (step s t text)
unfolding step
step-Leads at_start t text pos ts rest e = start-Leads t text pos ts rest e
step-Leads (at_token x) t text pos ts rest d =
    sign-Leads (some x) t text pos ts rest (integer_token x d)
step-Leads (at_carrot token) string_literal text pos ts rest (mid, sign, d, c) =
    (mid, lexeme string_literal text pos ∷ rest, sign, text, d, c, here pos, refl)
step-Leads (at_carrot token) _ text pos ts rest d = tt
step-Leads (at_async token kind) string_literal text pos ts rest (mid, d, c) =
    (mid, lexeme string_literal text pos ∷ rest, text, d, c, here pos, refl)
step-Leads (at_async token kind) _ text pos ts rest d = tt
step-Leads (at_class h) comma text pos ts rest d =
    (lexeme comma text pos ∷ rest, rest, rest, text, d, here pos, refl, refl)
step-Leads (at_class h) newline text pos ts rest d = head-Leads h text pos ts rest d
step-Leads (at_class h) _ text pos ts rest d = tt
step-Leads (at_stream kind) Token.cstring text pos ts rest d = stream_record text d (here pos)
step-Leads (at_stream kind) _ text pos ts rest d = tt
step-Leads (at_variant v) newline text pos ts rest d =
    (refl, lexeme newline text pos ∷ rest, text, d, here pos)
step-Leads (at_variant v) _ text pos ts rest d = tt
step-Leads at_paren string_literal text pos ts rest (left, d) =
    elim (Bool-cases (streq (codes "gdb") text)) [
      | inl gdb ↦ rw gdb (
        lexeme string_literal text pos ∷ rest,
        left,
        text,
        d,
        here pos,
        sym ((streq_iff (codes "gdb") text).0 gdb),
      )
      | inr other ↦ rw other tt
    ]
step-Leads at_paren _ text pos ts rest d = tt
step-Leads at_prompt closed_paren text pos ts rest (mid, left, x, d, n, e) =
    prompt left x text d n e (here pos)
step-Leads at_prompt _ text pos ts rest d = tt
step-Leads (in_list h fs p) t text pos ts rest (t1, t2, t3, sign, x, c, fr, d) =
    place-Leads h fs p t text pos ts t3 rest (t1, t2, sign, x, c, fr) d
step-Leads recovering t text pos ts rest d = absurd d
