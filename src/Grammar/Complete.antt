-- ===== src/Grammar/Complete.antt =====
-- The push parser accepts whatever the productions derive, with the value that they give it.
use gdbwire.Base.{◌≡◌, refl, ap, sym, ◌∙◌, subst, List, [], ◌∷◌, Option, none, some, Bytes, false}
use gdbwire.Pt.{MiResult, null, tuple, list, append_after, MiOutput, MiPosition}
use gdbwire.Lexer.{Token, lexeme, open_brace, open_bracket}
use gdbwire.Grammar.Productions.{
  Lexemes, Terminal, push_back, OptVariable, no_variable, variable_equal, ResultList, one_result,
  more_results, Result, result_cstring, result_tuple, result_list, Tuple, empty_tuple,
  tuple_results, ListOf, empty_list, list_results,
}
use gdbwire.Grammar.Machine.{
  Head, Bracket, brace, bracket, Frame, Place, at_first, at_comma, at_variable, at_equal, at_result,
  Pstate, in_list, shifted, begin_result, closes, first_token, step_place, step, push_parse,
  push_all,
}

-- From the state `s`, in front of `ts`, the machine comes to `s'` in front of `rest`, and stores no
-- output on the way.
pub record Runs (s : Pstate) (ts : Lexemes) (s' : Pstate) (rest : Lexemes) : Type 0 where
  pub pushes : (o : Option MiOutput) → push_all s o ts ≡ push_all s' o rest

pub then-Runs :
    {s1 s2 s3 : Pstate} {t1 t2 t3 : Lexemes}
    → Runs s1 t1 s2 t2
    → Runs s2 t2 s3 t3
    → Runs s1 t1 s3 t3
then-Runs h k = record { pushes = λ o. h.pushes o ∙ k.pushes o }

-- A token that is shifted.
pub shift-Runs :
    (s s' : Pstate) {t : Token} {text : Bytes} {ts rest : Lexemes}
    → Terminal t text ts rest
    → ((pos : MiPosition) → push_parse s (lexeme t text pos) ≡ (s', none))
    → Runs s ts s' rest
unfolding push_all
shift-Runs s s' h e = record { pushes = λ o. rw (h.read, push_all, e h.position) refl }

-- No token: nothing is read.
pub stay-Runs : (s : Pstate) {ts rest : Lexemes} → ts ≡ rest → Runs s ts s rest
stay-Runs s e = record { pushes = λ o. ap (push_all s o) e }

-- The tokens with which the value of a result may begin.
abbrev Opening : Token → Type 0
Opening Token.cstring = Unit {0}
Opening open_brace = Unit {0}
Opening open_bracket = Unit {0}
Opening _ = ⊥

Opening-closes : (b : Bracket) (t : Token) → Opening t → closes b t ≡ false
Opening-closes brace Token.cstring k = refl
Opening-closes bracket Token.cstring k = refl
Opening-closes brace open_brace k = refl
Opening-closes bracket open_brace k = refl
Opening-closes brace open_bracket k = refl
Opening-closes bracket open_bracket k = refl
Opening-closes b _ k = absurd k

Opening-first_token :
    (h : Head) (fs : List Frame) (t : Token) (text : Bytes)
    → Opening t
    → first_token h fs t text ≡ begin_result h fs null none t text
Opening-first_token h [] t text k = refl
Opening-first_token h (f ∷ fs) t text k = rw (Opening-closes f.kind t k, first_token) refl

Opening-at_first :
    (h : Head) (fs : List Frame) (t : Token) (text : Bytes)
    → Opening t
    → step_place h fs at_first t text ≡ begin_result h fs null none t text
unfolding step_place
Opening-at_first h fs Token.cstring text k = Opening-first_token h fs Token.cstring text k
Opening-at_first h fs open_brace text k = Opening-first_token h fs open_brace text k
Opening-at_first h fs open_bracket text k = Opening-first_token h fs open_bracket text k
Opening-at_first h fs _ text k = absurd k

Opening-at_comma :
    (h : Head) (fs : List Frame) (acc : MiResult) (t : Token) (text : Bytes)
    → Opening t
    → step_place h fs (at_comma acc) t text ≡ begin_result h fs acc none t text
unfolding step_place
Opening-at_comma h fs acc Token.cstring text k = refl
Opening-at_comma h fs acc open_brace text k = refl
Opening-at_comma h fs acc open_bracket text k = refl
Opening-at_comma h fs acc _ text k = absurd k

-- The places where a result may begin, behind the results `acc`.
abbrev Entry : Place → MiResult → Type 0
Entry at_first acc = null ≡ acc
Entry (at_comma a) acc = a ≡ acc
Entry _ acc = ⊥

-- The places where the value of a result may begin, with its variable.
abbrev Ready : Place → MiResult → Option Bytes → Type 0
Ready at_first acc v = (null ≡ acc) × (none ≡ v)
Ready (at_comma a) acc v = (a ≡ acc) × (none ≡ v)
Ready (at_equal a x) acc v = (a ≡ acc) × (some x ≡ v)
Ready _ acc v = ⊥

Ready-step :
    (h : Head) (fs : List Frame) (p : Place) (acc : MiResult) (v : Option Bytes) (t : Token)
    (text : Bytes)
    → Ready p acc v
    → Opening t
    → step_place h fs p t text ≡ begin_result h fs acc v t text
unfolding step_place
Ready-step h fs at_first acc v t text (e, f) k =
    Opening-at_first h fs t text k
    ∙ ap (λ a. begin_result h fs a none t text) e
    ∙ ap (λ w. begin_result h fs acc w t text) f
Ready-step h fs (at_comma a) acc v t text (e, f) k =
    Opening-at_comma h fs a t text k
    ∙ ap (λ x. begin_result h fs x none t text) e
    ∙ ap (λ w. begin_result h fs acc w t text) f
Ready-step h fs (at_equal a x) acc v t text (e, f) k =
    ap (λ y. begin_result h fs y (some x) t text) e ∙ ap (λ w. begin_result h fs acc w t text) f
Ready-step h fs (at_variable a x) acc v t text r k = absurd r
Ready-step h fs (at_result a) acc v t text r k = absurd r

push-in_list :
    (h : Head) (fs : List Frame) (p : Place) (t : Token) (text : Bytes) (pos : MiPosition)
    (s : Pstate)
    → step_place h fs p t text ≡ shifted s
    → push_parse (in_list h fs p) (lexeme t text pos) ≡ (s, none)
unfolding push_parse step
push-in_list h fs p t text pos s e = rw (e, push_parse) refl

-- The variable of a result, or none.
OptVariable-Runs :
    {ts mid : Lexemes} {v : Option Bytes} (h : Head) (fs : List Frame) (p : Place) (acc : MiResult)
    → OptVariable ts v mid
    → Entry p acc
    → (p' : Place) × Runs (in_list h fs p) ts (in_list h fs p') mid × Ready p' acc v
unfolding push_parse step
OptVariable-Runs h fs at_first acc (no_variable e) k = (at_first, stay-Runs _ e, (k, refl))
OptVariable-Runs h fs (at_comma a) acc (no_variable e) k = (at_comma a, stay-Runs _ e, (k, refl))
OptVariable-Runs h fs at_first acc (variable_equal v sign t1 t2) k = (
  at_equal null v,
  then-Runs (shift-Runs _ (in_list h fs (at_variable null v)) t1 (λ pos. refl))
      (shift-Runs _ _ t2 (λ pos. refl)),
  (k, refl),
)
OptVariable-Runs h fs (at_comma a) acc (variable_equal v sign t1 t2) k = (
  at_equal a v,
  then-Runs (shift-Runs _ (in_list h fs (at_variable a v)) t1 (λ pos. refl))
      (shift-Runs _ _ t2 (λ pos. refl)),
  (k, refl),
)
OptVariable-Runs h fs (at_variable a x) acc d k = absurd k
OptVariable-Runs h fs (at_equal a x) acc d k = absurd k
OptVariable-Runs h fs (at_result a) acc d k = absurd k

-- A token that opens or is the value of a result.
Opening-Runs :
    {ts rest : Lexemes} {text : Bytes} (h : Head) (fs : List Frame) (p : Place) (acc : MiResult)
    (v : Option Bytes) (t : Token) (s : Pstate)
    → Ready p acc v
    → Opening t
    → Terminal t text ts rest
    → begin_result h fs acc v t text ≡ shifted s
    → Runs (in_list h fs p) ts s rest
Opening-Runs {text = text} h fs p acc v t s r k d e =
    shift-Runs (in_list h fs p) s d
      λ pos. push-in_list h fs p t text pos s (Ready-step h fs p acc v t text r k ∙ e)

-- The same run, where the state that it comes to is named by an equal value.
Runs-to :
    {s : Pstate} {ts rest : Lexemes} (g : MiResult → Pstate) {a b : MiResult}
    → b ≡ a
    → Runs s ts (g a) rest
    → Runs s ts (g b) rest
Runs-to {s} {ts} {rest} g e h = subst (λ x. Runs s ts (g x) rest) (sym e) h

abbrev opened : Bracket → Option Bytes → MiResult → Frame
opened b v acc = record { kind = b; variable = v; results = acc }

mutual
  unfolding push_parse step step_place append_after

  pub results_run :
      {ts rest : Lexemes} {r : MiResult} (h : Head) (fs : List Frame)
      → ResultList ts r rest
      → Runs (in_list h fs at_first) ts (in_list h fs (at_result r)) rest
  results_run h fs (one_result d) = Result-run h fs at_first null d refl
  results_run h fs (more_results {l = l} {r = r} sign ds t d e) = then-Runs (results_run h fs ds) (
      then-Runs (shift-Runs _ (in_list h fs (at_comma l)) t (λ pos. refl))
        (Runs-to (λ a. in_list h fs (at_result a)) e (Result-run h fs (at_comma l) l d refl)))

  Result-run :
      {ts rest : Lexemes} {r : MiResult} (h : Head) (fs : List Frame) (p : Place) (acc : MiResult)
      → Result ts r rest
      → Entry p acc
      → Runs (in_list h fs p) ts (in_list h fs (at_result (push_back acc r))) rest
  Result-run h fs p acc (result_cstring {v = v} text dv t e) k =
      let (p', first, ready) = OptVariable-Runs h fs p acc dv k in
      then-Runs first (
        Runs-to (λ a. in_list h fs (at_result (push_back acc a))) e
          (Opening-Runs h fs p' acc v Token.cstring _ ready tt t refl))
  Result-run h fs p acc (result_tuple {v = v} {sub = sub} dv d e) k =
      let (p', first, ready) = OptVariable-Runs h fs p acc dv k in
      then-Runs first (
        Runs-to (λ a. in_list h fs (at_result (push_back acc a))) e
          (tuple_run h fs p' acc v d ready))
  Result-run h fs p acc (result_list {v = v} {sub = sub} dv d e) k =
      let (p', first, ready) = OptVariable-Runs h fs p acc dv k in
      then-Runs first (
        Runs-to (λ a. in_list h fs (at_result (push_back acc a))) e
          (list_run h fs p' acc v d ready))

  tuple_run :
      {ts rest : Lexemes} {sub : MiResult} (h : Head) (fs : List Frame) (p : Place) (acc : MiResult)
      (v : Option Bytes)
      → Tuple ts sub rest
      → Ready p acc v
      → Runs (in_list h fs p) ts (in_list h fs (at_result (push_back acc (tuple v sub null)))) rest
  tuple_run h fs p acc v (empty_tuple left right t1 t2 e) ready =
      Runs-to (λ a. in_list h fs (at_result (push_back acc (tuple v a null)))) e
        (then-Runs (Opening-Runs h fs p acc v open_brace _ ready tt t1 refl)
          (shift-Runs _ _ t2 (λ pos. refl)))
  tuple_run h fs p acc v (tuple_results left right t1 ds t2) ready =
      then-Runs (Opening-Runs h fs p acc v open_brace _ ready tt t1 refl)
        (then-Runs (results_run h (opened brace v acc ∷ fs) ds) (shift-Runs _ _ t2 (λ pos. refl)))

  list_run :
      {ts rest : Lexemes} {sub : MiResult} (h : Head) (fs : List Frame) (p : Place) (acc : MiResult)
      (v : Option Bytes)
      → ListOf ts sub rest
      → Ready p acc v
      → Runs (in_list h fs p) ts (in_list h fs (at_result (push_back acc (list v sub null)))) rest
  list_run h fs p acc v (empty_list left right t1 t2 e) ready =
      Runs-to (λ a. in_list h fs (at_result (push_back acc (list v a null)))) e
        (then-Runs (Opening-Runs h fs p acc v open_bracket _ ready tt t1 refl)
          (shift-Runs _ _ t2 (λ pos. refl)))
  list_run h fs p acc v (list_results left right t1 ds t2) ready =
      then-Runs (Opening-Runs h fs p acc v open_bracket _ ready tt t1 refl)
        (then-Runs (results_run h (opened bracket v acc ∷ fs) ds) (shift-Runs _ _ t2 (λ pos. refl)))
