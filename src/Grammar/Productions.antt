-- ===== src/Grammar/Productions.antt =====
-- The productions of src/gdbwire_mi_grammar.y with their actions, as relations: `Result ts r rest`
-- says that the tokens `ts` begin with a `result` whose value is `r`, and that `rest` follows.
-- The values are those of an allocator that refuses nothing.
use gdbwire.Base.{◌≡◌, List, [], ◌∷◌, Option, none, some, Bytes, codes}
use gdbwire.Pt.{
  MiResult, null, cstring, tuple, list, append_after, MiAsyncRecordKind, exec, status, notify,
  MiStreamRecordKind, console, target, log, async, stream, MiOutputVariant, output_oob,
  output_result, output_prompt, MiPosition,
}
use gdbwire.Lexer.{
  Token, Lexeme, lexeme, open_brace, closed_brace, open_paren, closed_paren, add_op, mult_op,
  equal_sign, tilda, at_symbol, ampersand, open_bracket, closed_bracket, newline, integer_literal,
  string_literal, comma, carrot,
}
use gdbwire.Grammar.{unescape_from, result_class, async_class}

abbrev pub Lexemes : Type 0
Lexemes = List Lexeme

-- The tokens begin with `t`, whose text is `text`.
pub record Terminal (t : Token) (text : Bytes) (ts rest : Lexemes) : Type 0 where
  pub position : MiPosition
  pub read : ts ≡ lexeme t text position ∷ rest

-- the action of cstring
abbrev pub unescaped : Bytes → Bytes
unescaped [] = []
unescaped (c ∷ cs) = unescape_from cs

-- `gdbwire_mi_result_list_push_back`: the list's tail points to the end.
abbrev pub push_back : MiResult → MiResult → MiResult
push_back l r = append_after l r

pub data OptVariable : Lexemes → Option Bytes → Lexemes → Type 0 where
  no_variable : {ts rest : Lexemes} → ts ≡ rest → OptVariable ts none rest
  variable_equal :
      {ts mid rest : Lexemes} (v sign : Bytes)
      → Terminal string_literal v ts mid
      → Terminal equal_sign sign mid rest
      → OptVariable ts (some v) rest

mutual
  pub data ResultList : Lexemes → MiResult → Lexemes → Type 0 where
    one_result : {ts rest : Lexemes} {r : MiResult} → Result ts r rest → ResultList ts r rest
    more_results :
        {ts mid next rest : Lexemes} {l r all : MiResult} (sign : Bytes)
        → ResultList ts l mid
        → Terminal comma sign mid next
        → Result next r rest
        → all ≡ push_back l r
        → ResultList ts all rest

  pub data Result : Lexemes → MiResult → Lexemes → Type 0 where
    result_cstring :
        {ts mid rest : Lexemes} {v : Option Bytes} {r : MiResult} (text : Bytes)
        → OptVariable ts v mid
        → Terminal Token.cstring text mid rest
        → r ≡ cstring v (unescaped text) null
        → Result ts r rest
    result_tuple :
        {ts mid rest : Lexemes} {v : Option Bytes} {sub r : MiResult}
        → OptVariable ts v mid
        → Tuple mid sub rest
        → r ≡ tuple v sub null
        → Result ts r rest
    result_list :
        {ts mid rest : Lexemes} {v : Option Bytes} {sub r : MiResult}
        → OptVariable ts v mid
        → ListOf mid sub rest
        → r ≡ list v sub null
        → Result ts r rest

  pub data Tuple : Lexemes → MiResult → Lexemes → Type 0 where
    empty_tuple :
        {ts mid rest : Lexemes} {r : MiResult} (left right : Bytes)
        → Terminal open_brace left ts mid
        → Terminal closed_brace right mid rest
        → r ≡ null
        → Tuple ts r rest
    tuple_results :
        {ts mid next rest : Lexemes} {r : MiResult} (left right : Bytes)
        → Terminal open_brace left ts mid
        → ResultList mid r next
        → Terminal closed_brace right next rest
        → Tuple ts r rest

  pub data ListOf : Lexemes → MiResult → Lexemes → Type 0 where
    empty_list :
        {ts mid rest : Lexemes} {r : MiResult} (left right : Bytes)
        → Terminal open_bracket left ts mid
        → Terminal closed_bracket right mid rest
        → r ≡ null
        → ListOf ts r rest
    list_results :
        {ts mid next rest : Lexemes} {r : MiResult} (left right : Bytes)
        → Terminal open_bracket left ts mid
        → ResultList mid r next
        → Terminal closed_bracket right next rest
        → ListOf ts r rest

pub data OptToken : Lexemes → Option Bytes → Lexemes → Type 0 where
  no_token : {ts rest : Lexemes} → ts ≡ rest → OptToken ts none rest
  integer_token :
      {ts rest : Lexemes} (text : Bytes)
      → Terminal integer_literal text ts rest
      → OptToken ts (some text) rest

-- What follows a class: nothing, or a comma and results.
pub data OptResults : Lexemes → MiResult → Lexemes → Type 0 where
  no_results : {ts rest : Lexemes} {r : MiResult} → ts ≡ rest → r ≡ null → OptResults ts r rest
  comma_results :
      {ts mid rest : Lexemes} {r : MiResult} (sign : Bytes)
      → Terminal comma sign ts mid
      → ResultList mid r rest
      → OptResults ts r rest

pub data AsyncRecordClass : Lexemes → MiAsyncRecordKind → Lexemes → Type 0 where
  class_exec :
      {ts rest : Lexemes} (s : Bytes) → Terminal mult_op s ts rest → AsyncRecordClass ts exec rest
  class_status :
      {ts rest : Lexemes} (s : Bytes) → Terminal add_op s ts rest → AsyncRecordClass ts status rest
  class_notify :
      {ts rest : Lexemes} (s : Bytes)
      → Terminal equal_sign s ts rest
      → AsyncRecordClass ts notify rest

pub data StreamRecordClass : Lexemes → MiStreamRecordKind → Lexemes → Type 0 where
  class_console :
      {ts rest : Lexemes} (s : Bytes) → Terminal tilda s ts rest → StreamRecordClass ts console rest
  class_target :
      {ts rest : Lexemes} (s : Bytes)
      → Terminal at_symbol s ts rest
      → StreamRecordClass ts target rest
  class_log :
      {ts rest : Lexemes} (s : Bytes) → Terminal ampersand s ts rest → StreamRecordClass ts log rest

-- output_variant, with result_record, async_record and stream_record
pub data OutputVariant : Lexemes → MiOutputVariant → Lexemes → Type 0 where
  result_record :
      {ts t1 t2 t3 rest : Lexemes} {token : Option Bytes} {r : MiResult} (sign text : Bytes)
      → OptToken ts token t1
      → Terminal carrot sign t1 t2
      → Terminal string_literal text t2 t3
      → OptResults t3 r rest
      → OutputVariant ts
          (output_result (record { token = token; result_class = result_class text; result = r }))
          rest
  async_record :
      {ts t1 t2 t3 rest : Lexemes} {token : Option Bytes} {kind : MiAsyncRecordKind} {r : MiResult}
      (text : Bytes)
      → OptToken ts token t1
      → AsyncRecordClass t1 kind t2
      → Terminal string_literal text t2 t3
      → OptResults t3 r rest
      → OutputVariant ts
          (output_oob (
            async
              (record { token = token; kind = kind; async_class = async_class text; result = r })))
          rest
  stream_record :
      {ts t1 rest : Lexemes} {kind : MiStreamRecordKind} (text : Bytes)
      → StreamRecordClass ts kind t1
      → Terminal Token.cstring text t1 rest
      → OutputVariant ts
          (output_oob (stream (record { kind = kind; cstring = unescaped text })))
          rest
  prompt :
      {ts t1 t2 rest : Lexemes} (left text right : Bytes)
      → Terminal open_paren left ts t1
      → Terminal string_literal text t1 t2
      → text ≡ codes "gdb"
      → Terminal closed_paren right t2 rest
      → OutputVariant ts output_prompt rest

-- An output without an error: a variant and a line break.
pub data Output : Lexemes → MiOutputVariant → Lexemes → Type 0 where
  output_newline :
      {ts mid rest : Lexemes} {v : MiOutputVariant} (brk : Bytes)
      → OutputVariant ts v mid
      → Terminal newline brk mid rest
      → Output ts v rest
