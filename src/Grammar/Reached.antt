-- ===== src/Grammar/Reached.antt =====
-- What the push parser has read in each of its states, by the productions.
use gdbwire.Base.{
  ◌≡◌, refl, sym, subst, List, [], ◌∷◌, Option, some, Bytes, codes, inl, inr, ◌⊎◌, arith, true,
}
use gdbwire.Pt.{MiResult, null, append_after, MiPosition}
use gdbwire.Lexer.{
  Token, lexeme, open_brace, closed_brace, open_paren, open_bracket, closed_bracket, newline,
  integer_literal, string_literal, comma, carrot,
}
use gdbwire.Grammar.{result_class, async_class}
use gdbwire.Grammar.Productions.{
  Lexemes, Terminal, push_back, OptVariable, ResultList, one_result, more_results, Result,
  result_tuple, result_list, empty_tuple, tuple_results, empty_list, list_results, OptToken,
  AsyncRecordClass, StreamRecordClass, OutputVariant,
}
use gdbwire.Grammar.Machine.{
  Head, result_head, async_head, Bracket, brace, bracket, Frame, Place, at_first, at_comma,
  at_variable, at_equal, at_result, Pstate, at_start, at_token, at_carrot, at_async, at_class,
  at_stream, at_variant, at_paren, at_prompt, in_list, recovering, Pushed, shifted, complete,
  syntax_error, refused, closes, closed,
}

-- The results in front of a place: none, or some and a comma.
abbrev pub Before : MiResult → Lexemes → Lexemes → Type 0
Before acc ts rest =
    ((acc ≡ null) × (ts ≡ rest))
    ⊎ ((mid : Lexemes) × (sign : Bytes) × ResultList ts acc mid × Terminal comma sign mid rest)

abbrev pub opening_token : Bracket → Token
opening_token brace = open_brace
opening_token bracket = open_bracket

abbrev pub closing_token : Bracket → Token
closing_token brace = closed_brace
closing_token bracket = closed_bracket

-- The tokens of the frames: what stands in front of each, its variable and its opening bracket.
abbrev pub FramesRead : List Frame → Lexemes → Lexemes → Type 0
FramesRead [] ts rest = ts ≡ rest
FramesRead (f ∷ fs) ts rest =
    (t1 : Lexemes) × (t2 : Lexemes) × (t3 : Lexemes) × (left : Bytes) × FramesRead fs ts t1
    × Before f.results t1 t2
    × OptVariable t2 f.variable t3
    × Terminal (opening_token f.kind) left t3 rest

-- The tokens of the innermost result list up to the place.
abbrev pub PlaceRead : Place → Lexemes → Lexemes → Type 0
PlaceRead at_first ts rest = ts ≡ rest
PlaceRead (at_comma acc) ts rest =
    (mid : Lexemes) × (sign : Bytes) × ResultList ts acc mid × Terminal comma sign mid rest
PlaceRead (at_variable acc v) ts rest =
    (mid : Lexemes) × Before acc ts mid × Terminal string_literal v mid rest
PlaceRead (at_equal acc v) ts rest =
    (mid : Lexemes) × Before acc ts mid × OptVariable mid (some v) rest
PlaceRead (at_result acc) ts rest = ResultList ts acc rest

abbrev pub HeadRead : Head → Lexemes → Lexemes → Type 0
HeadRead (result_head token class) ts rest =
    (t1 : Lexemes) × (t2 : Lexemes) × (sign : Bytes) × (text : Bytes) × OptToken ts token t1
    × Terminal carrot sign t1 t2
    × Terminal string_literal text t2 rest
    × (result_class text ≡ class)
HeadRead (async_head token kind class) ts rest =
    (t1 : Lexemes) × (t2 : Lexemes) × (text : Bytes) × OptToken ts token t1
    × AsyncRecordClass t1 kind t2
    × Terminal string_literal text t2 rest
    × (async_class text ≡ class)

-- The tokens `ts`, up to `rest`, bring the machine from its start to the state.
abbrev pub Reached : Pstate → Lexemes → Lexemes → Type 0
Reached at_start ts rest = ts ≡ rest
Reached (at_token text) ts rest = Terminal integer_literal text ts rest
Reached (at_carrot token) ts rest =
    (mid : Lexemes) × (sign : Bytes) × OptToken ts token mid × Terminal carrot sign mid rest
Reached (at_async token kind) ts rest =
    (mid : Lexemes) × OptToken ts token mid × AsyncRecordClass mid kind rest
Reached (at_class h) ts rest = HeadRead h ts rest
Reached (at_stream kind) ts rest = StreamRecordClass ts kind rest
Reached (at_variant v) ts rest = OutputVariant ts v rest
Reached at_paren ts rest = (left : Bytes) × Terminal open_paren left ts rest
Reached at_prompt ts rest =
    (mid : Lexemes) × (left : Bytes) × (text : Bytes) × Terminal open_paren left ts mid
    × Terminal string_literal text mid rest
    × (text ≡ codes "gdb")
Reached (in_list h fs p) ts rest =
    (t1 : Lexemes) × (t2 : Lexemes) × (t3 : Lexemes) × (sign : Bytes) × HeadRead h ts t1
    × Terminal comma sign t1 t2
    × FramesRead fs t2 t3
    × PlaceRead p t3 rest
Reached recovering ts rest = ⊥

-- What a step leads to.
abbrev pub Leads : Token → Lexemes → Lexemes → Pushed → Type 0
Leads t ts rest (shifted s) = Reached s ts rest
Leads t ts rest (complete v) =
    (t ≡ newline)
    × (mid : Lexemes) × (brk : Bytes) × OutputVariant ts v mid
    × Terminal newline brk mid rest
Leads t ts rest syntax_error = Unit {0}
Leads t ts rest refused = Unit {0}

abbrev pub here :
    {t : Token} {text : Bytes} (pos : MiPosition) {rest : Lexemes}
    → Terminal t text (lexeme t text pos ∷ rest) rest
here pos = record { position = pos; read = refl }

pub Before-Result :
    (acc r : MiResult) (ts mid rest : Lexemes)
    → Before acc ts mid
    → Result mid r rest
    → ResultList ts (push_back acc r) rest
unfolding append_after
Before-Result acc r ts mid rest (inl (e, f)) d =
    subst (λ a. ResultList ts (push_back a r) rest) (sym e)
      (one_result (subst (λ t. Result t r rest) (sym f) d))
Before-Result acc r ts mid rest (inr (m, sign, ds, t)) d = more_results sign ds t d refl

pub closing-eq : (b : Bracket) (t : Token) → closes b t ≡ true → t ≡ closing_token b
closing-eq brace closed_brace h = refl
closing-eq bracket closed_bracket h = refl
closing-eq b _ h = ground arith

-- The value of a tuple or list that is closed is a result.
pub closed-Result :
    (b : Bracket) (v : Option Bytes) (sub : MiResult) (t2 t3 t4 t5 rest : Lexemes)
    (left right : Bytes)
    → OptVariable t2 v t3
    → Terminal (opening_token b) left t3 t4
    → (((sub ≡ null) × (t4 ≡ t5)) ⊎ ResultList t4 sub t5)
    → Terminal (closing_token b) right t5 rest
    → Result t2 (closed b v sub) rest
closed-Result brace v sub t2 t3 t4 t5 rest left right d o (inl (e, f)) c =
    result_tuple d
      (empty_tuple left right o (subst (λ t. Terminal closed_brace right t rest) (sym f) c) e) refl
closed-Result brace v sub t2 t3 t4 t5 rest left right d o (inr ds) c =
    result_tuple d (tuple_results left right o ds c) refl
closed-Result bracket v sub t2 t3 t4 t5 rest left right d o (inl (e, f)) c =
    result_list d
      (empty_list left right o (subst (λ t. Terminal closed_bracket right t rest) (sym f) c) e) refl
closed-Result bracket v sub t2 t3 t4 t5 rest left right d o (inr ds) c =
    result_list d (list_results left right o ds c) refl

-- The part of the output in front of the innermost result list, with its frames.
abbrev pub ListRead : Head → List Frame → Lexemes → Lexemes → Type 0
ListRead h fs ts rest =
    (t1 : Lexemes) × (t2 : Lexemes) × (sign : Bytes) × HeadRead h ts t1
    × Terminal comma sign t1 t2
    × FramesRead fs t2 rest

pub in_list-Reached :
    (h : Head) (fs : List Frame) (p : Place) (ts mid rest : Lexemes)
    → ListRead h fs ts mid
    → PlaceRead p mid rest
    → Reached (in_list h fs p) ts rest
in_list-Reached h fs p ts mid rest (t1, t2, sign, a, b, c) d = (t1, t2, mid, sign, a, b, c, d)
