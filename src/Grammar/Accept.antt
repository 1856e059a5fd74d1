-- ===== src/Grammar/Accept.antt =====
-- The push parser accepts each output that the productions derive.
use gdbwire.Base.{◌≡◌, refl, ap, sym, ◌∙◌, subst, [], Option, none, some, Bytes}
use gdbwire.Pt.{
  MiResult, null, MiOutputVariant, MiOutput, output, MiPosition, MiAsyncRecordKind,
  MiStreamRecordKind,
}
use gdbwire.Lexer.{lexeme, newline, carrot}
use gdbwire.Grammar.{result_class, async_class}
use gdbwire.Grammar.Productions.{
  Lexemes, Terminal, OptToken, no_token, integer_token, OptResults, no_results, comma_results,
  AsyncRecordClass, class_exec, class_status, class_notify, StreamRecordClass, class_console,
  class_target, class_log, OutputVariant, result_record, async_record, stream_record, prompt,
  Output, output_newline,
}
use gdbwire.Grammar.Machine.{
  Head, result_head, async_head, at_first, at_result, Pstate, at_start, at_token, at_carrot,
  at_async, at_class, at_stream, at_variant, at_paren, at_prompt, in_list, variant_of, step_place,
  step, push_parse, push_all,
}
use gdbwire.Grammar.Complete.{Runs, then-Runs, shift-Runs, stay-Runs, results_run}

carrot-Runs :
    {ts t1 t2 : Lexemes} {token : Option Bytes} {sign : Bytes}
    → OptToken ts token t1
    → Terminal carrot sign t1 t2
    → Runs at_start ts (at_carrot token) t2
unfolding push_parse step
carrot-Runs (no_token e) t = then-Runs (stay-Runs at_start e) (shift-Runs _ _ t (λ pos. refl))
carrot-Runs (integer_token text d) t =
    then-Runs (shift-Runs _ (at_token text) d (λ pos. refl)) (shift-Runs _ _ t (λ pos. refl))

async-Runs :
    {ts t1 t2 : Lexemes} {token : Option Bytes} {kind : MiAsyncRecordKind}
    → OptToken ts token t1
    → AsyncRecordClass t1 kind t2
    → Runs at_start ts (at_async token kind) t2
unfolding push_parse step
async-Runs (no_token e) (class_exec s t) =
    then-Runs (stay-Runs at_start e) (shift-Runs _ _ t (λ pos. refl))
async-Runs (no_token e) (class_status s t) =
    then-Runs (stay-Runs at_start e) (shift-Runs _ _ t (λ pos. refl))
async-Runs (no_token e) (class_notify s t) =
    then-Runs (stay-Runs at_start e) (shift-Runs _ _ t (λ pos. refl))
async-Runs (integer_token text d) (class_exec s t) =
    then-Runs (shift-Runs _ (at_token text) d (λ pos. refl)) (shift-Runs _ _ t (λ pos. refl))
async-Runs (integer_token text d) (class_status s t) =
    then-Runs (shift-Runs _ (at_token text) d (λ pos. refl)) (shift-Runs _ _ t (λ pos. refl))
async-Runs (integer_token text d) (class_notify s t) =
    then-Runs (shift-Runs _ (at_token text) d (λ pos. refl)) (shift-Runs _ _ t (λ pos. refl))

stream-Runs :
    {ts rest : Lexemes} {kind : MiStreamRecordKind}
    → StreamRecordClass ts kind rest
    → Runs at_start ts (at_stream kind) rest
unfolding push_parse step
stream-Runs (class_console s t) = shift-Runs _ _ t (λ pos. refl)
stream-Runs (class_target s t) = shift-Runs _ _ t (λ pos. refl)
stream-Runs (class_log s t) = shift-Runs _ _ t (λ pos. refl)

-- The machine comes from its start to a state in front of `rest` where a line break completes `v`.
record Accepts (ts : Lexemes) (v : MiOutputVariant) (rest : Lexemes) : Type 0 where
  state : Pstate
  runs : Runs at_start ts state rest
  completes :
      (brk : Bytes) (pos : MiPosition)
      → push_parse state (lexeme newline brk pos) ≡ (at_start, some (output v none null))

OptResults-accept :
    {ts mid rest : Lexemes} {r : MiResult} (h : Head)
    → Runs at_start ts (at_class h) mid
    → OptResults mid r rest
    → Accepts ts (variant_of h r) rest
unfolding push_parse step step_place
OptResults-accept {ts} {mid} {rest} h d (no_results e f) =
    subst (λ r. Accepts ts (variant_of h r) rest) (sym f)
      (record {
        state = at_class h;
        runs = then-Runs d (stay-Runs (at_class h) e);
        completes = λ brk pos. refl;
      })
OptResults-accept {r = r} h d (comma_results sign t ds) = record {
  state = in_list h [] (at_result r);
  runs =
      then-Runs d
        (then-Runs (shift-Runs _ (in_list h [] at_first) t (λ pos. refl)) (results_run h [] ds));
  completes = λ brk pos. refl;
}

variant_accept :
    {ts rest : Lexemes} {v : MiOutputVariant} → OutputVariant ts v rest → Accepts ts v rest
unfolding push_parse step
variant_accept (result_record {token = token} sign text k t1 t2 ds) =
    OptResults-accept (result_head token (result_class text))
      (then-Runs (carrot-Runs k t1) (shift-Runs _ _ t2 (λ pos. refl))) ds
variant_accept (async_record {token = token} {kind = kind} text k c t ds) =
    OptResults-accept (async_head token kind (async_class text))
      (then-Runs (async-Runs k c) (shift-Runs _ _ t (λ pos. refl))) ds
variant_accept (stream_record text c t) = record {
  state = at_variant _;
  runs = then-Runs (stream-Runs c) (shift-Runs _ _ t (λ pos. refl));
  completes = λ brk pos. refl;
}
variant_accept (prompt left text right t1 t2 e t3) = record {
  state = at_variant _;
  runs = then-Runs (shift-Runs _ at_paren t1 (λ pos. refl)) (
      then-Runs (shift-Runs at_paren at_prompt t2 (λ pos. rw e refl))
        (shift-Runs _ _ t3 (λ pos. refl)));
  completes = λ brk pos. refl;
}

-- The push parser, at the start of an output that the productions derive, reads its tokens and
-- stores the value that they give it, and is then at the start again.
pub push_all-Output :
    (ts rest : Lexemes) (v : MiOutputVariant) (o : Option MiOutput)
    → Output ts v rest
    → push_all at_start o ts ≡ push_all at_start (some (output v none null)) rest
unfolding push_all
push_all-Output ts rest v o (output_newline brk d t) =
    let a = variant_accept d in
    a.runs.pushes o ∙ rw (t.read, push_all, a.completes brk t.position) refl

-- The tokens are an output in at most one way, as far as the value goes: two derivations of the
-- same tokens give the same value.
pub Output-unique : (ts : Lexemes) (v w : MiOutputVariant) → Output ts v [] → Output ts w [] → v ≡ w
unfolding push_all
Output-unique ts v w d k =
    value_of (ap (λ r. r.1) (sym (push_all-Output ts [] v none d) ∙ push_all-Output ts [] w none k))
  where
    value_of :
        ◌≡◌ {A = Option MiOutput} (some (output v none null)) (some (output w none null)) → v ≡ w
    value_of e = cc
