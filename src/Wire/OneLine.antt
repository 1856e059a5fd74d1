-- ===== src/Wire/OneLine.antt =====
-- `gdbwire_interpreter_exec` of src/gdbwire.c on one line, from what a callback makes of the context.
use gdbwire.Base.{
  ℕ, ◌+◌, ◌<◌, ◌≡◌, refl, ap, sym, ◌∙◌, subst, [], ◌∷◌, ◌++◌, Option, none, some, true, false,
  Bytes, length, arith, Mem, M, Ends, Ends-bind, Ends-map, all_granted, GdbwireResult, gdbwire_ok,
  inl, inr,
}
use gdbwire.StringBuf.{size_mod}
use gdbwire.Pt.{null, output, MiOutputVariant, strdup}
use gdbwire.Command.Types.{MiCommandKind}
use gdbwire.Command.Contract.Get.{Answers}
use gdbwire.Lexer.{lexemes}
use gdbwire.Grammar.Machine.{Pstate, at_start, push_all}
use gdbwire.MiParser.{has_newline}
use gdbwire.MiParser.Cut.{split, attach, ends_line}
use gdbwire.MiParser.Lines.{split_past, IsLine, AllBytes, IsCalm, IsBreak}
use gdbwire.MiParser.Feed.{LinesOk, feed_lines}
use gdbwire.MiParser.Texts.{nul_free}
use gdbwire.MiParser.Chunks.{pushed-feed}
use gdbwire.Wire.{
  InterpreterExecContext, interpreter_callbacks, dispatch, output_callback, parse_line,
  interpreter_exec, context_outcome, push_outcome,
}
use gdbwire.Wire.Create.{Starts}
use gdbwire.Wire.Interpreter.{context_of, interpreted, interpreter_exec_lem}
use gdbwire.Wire.Tokens.{output_of, parse_output, strdup-granted, parse_output-granted}

-- A line is cut as one line.
split-IsLine : (l : Bytes) → IsLine l → split l ≡ (l ∷ [], [])
split-IsLine l h =
    subst (λ t. split t ≡ (t ∷ [], [])) (sym h.whole) (go h.body h.brk h.calm h.ended)
  where
    go :
        (body brk : Bytes)
        → AllBytes IsCalm body
        → IsBreak brk
        → split (body ++ brk) ≡ ((body ++ brk) ∷ [], [])
    go [] brk calm (inl e) = rw e refl
    go [] brk calm (inr (inl e)) = rw e refl
    go [] brk calm (inr (inr e)) = rw e refl
    go (c ∷ body) brk calm e =
        split_past c (body ++ brk) (past c (body ++ brk) calm.0)
        ∙ ap (attach c) (go body brk calm.1 e)
      where
        past : (c : ℕ) (cs : Bytes) → IsCalm c → ends_line c cs ≡ false
        past c cs k = ground arith

-- What the callbacks make of the context of a new call.
abbrev pub Dispatches : MiCommandKind → MiOutputVariant → Bytes → InterpreterExecContext → Type 0
Dispatches kind v l ctx =
    (mem : Mem)
    → all_granted mem ≡ true
    → Ends (λ c m. (c ≡ ctx) × (all_granted m ≡ true))
        (dispatch interpreter_callbacks v (some l) (context_of kind) mem)

-- One call of `gdbwire_mi_parser_parse_line`.
dispatched :
    (l : Bytes) (v : MiOutputVariant) (kind : MiCommandKind) (ctx : InterpreterExecContext)
    (mem : Mem)
    → IsLine l
    → push_all at_start none (lexemes l) ≡ (at_start, some (output v none null))
    → Dispatches kind v l ctx
    → all_granted mem ≡ true
    → Ends
        (λ r m. (r ≡ (gdbwire_ok, (at_start, ctx))) × (all_granted m ≡ true))
        (parse_line parse_output interpreter_callbacks (at_start, context_of kind) l mem)
unfolding parse_line output_callback
dispatched l v kind ctx mem line e d g =
    Ends-bind _ _ (parse_output at_start l mem) _ (parse_output-granted at_start l mem line g)
      λ r m (f, g1).
        let start : r.1 ≡ at_start = ap (λ q. q.1) (f ∙ ap (λ q. (output_of q.1, q.0)) e) in
        rw (f ∙ ap (λ q. (output_of q.1, q.0)) e) (
          Ends-bind _ _ (strdup (some l) m) _ (strdup-granted l m g1) λ ln m1 (q, g2).
            Ends-bind _ _
              (output_callback interpreter_callbacks (output v ln null) (context_of kind) m1) _
              (Ends-bind _ (λ c m2. (c ≡ ctx) × (all_granted m2 ≡ true))
                (dispatch interpreter_callbacks v ln (context_of kind) m1) _
                (subst
                  (λ x.
                    Ends (λ c m2. (c ≡ ctx) × (all_granted m2 ≡ true))
                      (dispatch interpreter_callbacks v x (context_of kind) m1))
                  (sym q) (d m1 g2))
                λ c m2 k. k)
              λ c m2 (k, g3). (cc, g3))

-- The answer where every line gives the context `ctx`.
abbrev answers_with :
    InterpreterExecContext
    → Pstate × InterpreterExecContext
    → Bytes
    → GdbwireResult × (Pstate × InterpreterExecContext)
answers_with ctx p text = (gdbwire_ok, (at_start, ctx))

interpreted-line :
    (l : Bytes) (kind : MiCommandKind) (ctx : InterpreterExecContext)
    → IsLine l
    → interpreted (answers_with ctx) at_start l kind ≡ context_outcome ctx
unfolding has_newline
interpreted-line l kind ctx line =
    ap (λ a. push_outcome a.0 a.1.0.1)
      (pushed-feed (answers_with ctx) [] l (at_start, context_of kind) refl
        ∙ ap (λ r. feed_lines (answers_with ctx) r.1 r.0 (at_start, context_of kind))
            (split-IsLine l line))

-- The call on one line, from what the callback of the line makes of the context.
pub exec_line :
    (new_parser : M (Option Pstate)) (l : Bytes) (v : MiOutputVariant) (kind : MiCommandKind)
    (ctx : InterpreterExecContext) (mem : Mem)
    → Starts new_parser at_start
    → IsLine l
    → length l + 4097 < size_mod
    → nul_free l ≡ true
    → push_all at_start none (lexemes l) ≡ (at_start, some (output v none null))
    → Dispatches kind v l ctx
    → all_granted mem ≡ true
    → Ends
        (λ r m. (r ≡ context_outcome ctx) × Answers kind r)
        (interpreter_exec parse_output new_parser l kind mem)
exec_line new_parser l v kind ctx mem starts line lt free e d g =
    Ends-map _ _ (interpreter_exec parse_output new_parser l kind mem)
      (interpreter_exec_lem parse_output new_parser (answers_with ctx) OnLine
        (record {
          answers = λ p text m is_line ok g1.
              subst
                (λ q.
                  Ends (λ r m1. (r ≡ (gdbwire_ok, (at_start, ctx))) × (all_granted m1 ≡ true))
                    (parse_line parse_output interpreter_callbacks q.0 q.1 m))
                (sym (same_pair p text ok)) (dispatched l v kind ctx m line e d g1);
        })
        at_start l kind mem starts lt free
        (subst (λ r. LinesOk (answers_with ctx) OnLine r.0 (at_start, context_of kind))
          (sym (split-IsLine l line)) ((refl, refl), tt))
        g)
      λ r m q. (q.0 ∙ interpreted-line l kind ctx line, q.1)
  where
    OnLine : Pstate × InterpreterExecContext → Bytes → Type 0
    OnLine p text = (p ≡ (at_start, context_of kind)) × (text ≡ l)

    same_pair :
        (p : Pstate × InterpreterExecContext) (text : Bytes)
        → OnLine p text
        → ◌≡◌ {A = (Pstate × InterpreterExecContext) × Bytes}
            (p, text)
            ((at_start, context_of kind), l)
    same_pair p text ok = cc
