-- ===== src/Grammar/Machine.antt =====
-- The push parser of src/gdbwire_mi_grammar.y: one call of `gdbwire_mi_push_parse` for each token.
-- Bison generates it from the productions; this is the automaton that they describe. A state is
-- what is on the stack: the values read so far and the place in the production. The documented
-- rules of Bison for errors are: `yyerror` is called at the first token that no output can have
-- there; the stack is then emptied to where `error` may stand, and tokens are dropped up to a line
-- break. An action runs as soon as its production is complete without a look at the next token.
use gdbwire.Base.{List, [], ◌∷◌, Option, none, some, Bytes, codes, streq, Bool, true, false}
use gdbwire.Pt.{
  MiResult, null, cstring, tuple, list, MiResultClass, MiAsyncRecordKind, exec, status, notify,
  MiAsyncClass, MiStreamRecordKind, console, target, log, async, stream, MiOutputVariant,
  output_oob, output_result, output_prompt, output_parse_error, MiPosition, MiOutput, output,
}
use gdbwire.Lexer.{
  Token, Lexeme, lexeme, open_brace, closed_brace, open_paren, closed_paren, add_op, mult_op,
  equal_sign, tilda, at_symbol, ampersand, open_bracket, closed_bracket, newline, integer_literal,
  string_literal, comma, carrot,
}
use gdbwire.Grammar.{result_class, async_class}
use gdbwire.Grammar.Productions.{unescaped, push_back}

-- The record that a result list belongs to.
pub data Head : Type 0 where
  result_head : Option Bytes → MiResultClass → Head
  async_head : Option Bytes → MiAsyncRecordKind → MiAsyncClass → Head

pub data Bracket : Type 0 where
  brace bracket : Bracket

-- A tuple or list that is open: its bracket, its variable, and the results in front of it.
pub record Frame : Type 0 where
  pub kind : Bracket
  pub variable : Option Bytes
  pub results : MiResult

-- The place in a result list, with the results that are complete: at its first result, behind a
-- comma, behind a variable, behind a variable's equal sign, or behind a result.
pub data Place : Type 0 where
  at_first : Place
  at_comma : MiResult → Place
  at_variable : MiResult → Bytes → Place
  at_equal : MiResult → Bytes → Place
  at_result : MiResult → Place

-- `gdbwire_mi_pstate`
pub data Pstate : Type 0 where
  at_start : Pstate
  at_token : Bytes → Pstate
  at_carrot : Option Bytes → Pstate
  at_async : Option Bytes → MiAsyncRecordKind → Pstate
  at_class : Head → Pstate
  at_stream : MiStreamRecordKind → Pstate
  at_variant : MiOutputVariant → Pstate
  at_paren : Pstate
  at_prompt : Pstate
  in_list : Head → List Frame → Place → Pstate
  recovering : Pstate

-- What a token does: it is shifted, it completes an output, it is an error, or it completes a
-- `variable` whose action refuses it with YYERROR.
pub data Pushed : Type 0 where
  shifted : Pstate → Pushed
  complete : MiOutputVariant → Pushed
  syntax_error refused : Pushed

abbrev pub variant_of : Head → MiResult → MiOutputVariant
variant_of (result_head token class) r =
    output_result (record { token = token; result_class = class; result = r })
variant_of (async_head token kind class) r =
    output_oob (async (record { token = token; kind = kind; async_class = class; result = r }))

abbrev pub begin_result : Head → List Frame → MiResult → Option Bytes → Token → Bytes → Pushed
begin_result h fs acc v Token.cstring text =
    shifted (in_list h fs (at_result (push_back acc (cstring v (unescaped text) null))))
begin_result h fs acc v open_brace text =
    shifted (in_list h (record { kind = brace; variable = v; results = acc } ∷ fs) at_first)
begin_result h fs acc v open_bracket text =
    shifted (in_list h (record { kind = bracket; variable = v; results = acc } ∷ fs) at_first)
begin_result h fs acc v _ text = syntax_error

-- The value of a tuple or list that is closed.
abbrev pub closed : Bracket → Option Bytes → MiResult → MiResult
closed brace v sub = tuple v sub null
closed bracket v sub = list v sub null

abbrev pub closes : Bracket → Token → Bool
closes brace closed_brace = true
closes bracket closed_bracket = true
closes _ _ = false

-- The tuple or list that was open last has the results `sub`.
abbrev pub close : Head → Frame → List Frame → MiResult → Pushed
close h f fs sub =
    shifted (in_list h fs (at_result (push_back f.results (closed f.kind f.variable sub))))

abbrev pub first_token : Head → List Frame → Token → Bytes → Pushed
first_token h [] t text = begin_result h [] null none t text
first_token h (f ∷ fs) t text = elim (closes f.kind t) [
  | true ↦ close h f fs null
  | false ↦ begin_result h (f ∷ fs) null none t text
]

abbrev pub end_results : Head → List Frame → MiResult → Token → Pushed
end_results h [] acc newline = complete (variant_of h acc)
end_results h [] acc _ = syntax_error
end_results h (f ∷ fs) acc t = elim (closes f.kind t) [
  | true ↦ close h f fs acc
  | false ↦ syntax_error
]

unfoldable pub step_place : Head → List Frame → Place → Token → Bytes → Pushed
step_place h fs at_first string_literal text = shifted (in_list h fs (at_variable null text))
step_place h fs at_first t text = first_token h fs t text
step_place h fs (at_comma acc) string_literal text = shifted (in_list h fs (at_variable acc text))
step_place h fs (at_comma acc) t text = begin_result h fs acc none t text
step_place h fs (at_variable acc v) equal_sign text = shifted (in_list h fs (at_equal acc v))
step_place h fs (at_variable acc v) _ text = syntax_error
step_place h fs (at_equal acc v) t text = begin_result h fs acc (some v) t text
step_place h fs (at_result acc) comma text = shifted (in_list h fs (at_comma acc))
step_place h fs (at_result acc) t text = end_results h fs acc t

-- Behind an optional token: the sign of a result record or of an async record.
abbrev pub step_sign : Option Bytes → Token → Pushed
step_sign token carrot = shifted (at_carrot token)
step_sign token mult_op = shifted (at_async token exec)
step_sign token add_op = shifted (at_async token status)
step_sign token equal_sign = shifted (at_async token notify)
step_sign token _ = syntax_error

abbrev pub step_start : Token → Bytes → Pushed
step_start integer_literal text = shifted (at_token text)
step_start tilda text = shifted (at_stream console)
step_start at_symbol text = shifted (at_stream target)
step_start ampersand text = shifted (at_stream log)
step_start open_paren text = shifted at_paren
step_start t text = step_sign none t

unfoldable pub step : Pstate → Token → Bytes → Pushed
unfolding step_place
step at_start t text = step_start t text
step (at_token token) t text = step_sign (some token) t
step (at_carrot token) string_literal text =
    shifted (at_class (result_head token (result_class text)))
step (at_carrot token) _ text = syntax_error
step (at_async token kind) string_literal text =
    shifted (at_class (async_head token kind (async_class text)))
step (at_async token kind) _ text = syntax_error
step (at_class h) comma text = shifted (in_list h [] at_first)
step (at_class h) newline text = complete (variant_of h null)
step (at_class h) _ text = syntax_error
step (at_stream kind) Token.cstring text =
    shifted (at_variant (output_oob (stream (record { kind = kind; cstring = unescaped text }))))
step (at_stream kind) _ text = syntax_error
step (at_variant v) newline text = complete v
step (at_variant v) _ text = syntax_error
step at_paren string_literal text = elim (streq (codes "gdb") text) [
  | true ↦ shifted at_prompt
  | false ↦ refused
]
step at_paren _ text = syntax_error
step at_prompt closed_paren text = shifted (at_variant output_prompt)
step at_prompt _ text = syntax_error
step (in_list h fs p) t text = step_place h fs p t text
step recovering t text = syntax_error

-- What `yyerror` makes: the token's text and position.
abbrev pub error_output : Bytes → MiPosition → MiOutput
error_output text pos = output (output_parse_error text pos) none null

-- Behind an error: a line break ends the recovery, any other token is dropped.
abbrev pub recovered : Token → Pstate
recovered newline = at_start
recovered _ = recovering

abbrev pub after_step : Token → Bytes → MiPosition → Pushed → Pstate × Option MiOutput
after_step t text pos (shifted s) = (s, none)
after_step t text pos (complete v) = (at_start, some (output v none null))
after_step t text pos syntax_error = (recovered t, some (error_output text pos))
after_step t text pos refused = (recovering, some (error_output text pos))

-- `gdbwire_mi_push_parse`: the next state, and the output that it stores, if it does. With room
-- on its stack it returns YYPUSH_MORE; Wire.Line has the other case.
unfoldable pub push_parse : Pstate → Lexeme → Pstate × Option MiOutput
unfolding step
push_parse recovering (lexeme t text pos) = (recovered t, none)
push_parse s (lexeme t text pos) = after_step t text pos (step s t text)

abbrev pub stored : Option MiOutput → Option MiOutput → Option MiOutput
stored (some o) old = some o
stored none old = old

-- The loop of `gdbwire_mi_parser_parse_line` over the tokens, where Bison's stack has room for each;
-- `o` is its variable `output`.
unfoldable pub push_all : Pstate → Option MiOutput → List Lexeme → Pstate × Option MiOutput
push_all s o [] = (s, o)
push_all s o (l ∷ ls) = push_all (push_parse s l).0 (stored (push_parse s l).1 o) ls
