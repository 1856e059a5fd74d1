-- ===== src/Grammar/Verdict.antt =====
-- What gdbwire_mi_parser_parse_line of src/gdbwire_mi_parser.c gets from the push parser of
-- src/gdbwire_mi_grammar.y for the tokens of a line: an output, or an error.
use gdbwire.Base.{
  ◌≡◌, ◌≢◌, refl, ap, sym, ◌∙◌, subst, [], ◌∷◌, ◌++◌, Option, none, some, Bytes, append_assoc, inl,
  inr, ◌⊎◌, arith,
}
use gdbwire.Pt.{MiOutputVariant, output_parse_error, null, MiOutput, output, MiPosition}
use gdbwire.Lexer.{Token, lexeme, newline}
use gdbwire.Lexer.Terminated.{Terminated}
use gdbwire.Grammar.Productions.{
  Lexemes, OutputVariant, result_record, async_record, stream_record, prompt, Output,
  output_newline,
}
use gdbwire.Grammar.Machine.{
  Pstate, at_start, Pushed, shifted, complete, syntax_error, refused, error_output, after_step,
  stored, step, push_all,
}
use gdbwire.Grammar.Accept.{push_all-Output}
use gdbwire.Grammar.Reached.{Leads}
use gdbwire.Grammar.Sound.{step-Leads}
use gdbwire.Grammar.Shifts.{
  Shifts, Shifts-append, Shifts-Reached, Shifts-IsReading, push_parse-step, newline_ends,
  Shifts-push_all, recovering-push_all, recovered-other, IsReading,
}
use gdbwire.Grammar.Viable.{IsViable, Shifts-IsViable, complete-Output}

-- The tokens are an output, which is stored with its value.
pub record Accepted (ts : Lexemes) (o : Option MiOutput) : Type 0 where
  pub variant : MiOutputVariant
  pub value : o ≡ some (output variant none null)
  pub derived : Output ts variant []

-- A token is the first that makes the text something no output begins with. What is stored is a
-- parse error with the text and the position of that token.
pub record Rejected (ts : Lexemes) (o : Option MiOutput) : Type 0 where
  pub before : Lexemes
  pub token : Token
  pub text : Bytes
  pub position : MiPosition
  pub after : Lexemes
  pub whole : ts ≡ before ++ lexeme token text position ∷ after
  pub value : o ≡ some (error_output text position)
  pub viable : IsViable before
  pub stuck : ¬ IsViable (before ++ lexeme token text position ∷ [])

not_error :
    (ts rest : Lexemes) (v : MiOutputVariant) (text : Bytes) (pos : MiPosition)
    → OutputVariant ts v rest
    → v ≢ output_parse_error text pos
not_error ts rest v text pos (result_record sign x a b c d) e = ground arith
not_error ts rest v text pos (async_record x a b c d) e = ground arith
not_error ts rest v text pos (stream_record x a b) e = ground arith
not_error ts rest v text pos (prompt l x r a b c d) e = ground arith

-- What a token does that is neither shifted nor the end of an output.
data Fails (t : Token) : Pushed → Type 0 where
  fails_syntax : Fails t syntax_error
  fails_refused : t ≢ newline → Fails t refused

Terminated-tail :
    (brk : Bytes) (ts : Lexemes) (t : Token) (text : Bytes) (pos : MiPosition) (us : Lexemes)
    → Terminated brk (ts ++ lexeme t text pos ∷ us)
    → Terminated brk (lexeme t text pos ∷ us)
Terminated-tail brk [] t text pos us h = h
Terminated-tail brk (lexeme u x p ∷ []) t text pos us h = h.1
Terminated-tail brk (lexeme u x p ∷ y ∷ ts) t text pos us h =
    Terminated-tail brk (y ∷ ts) t text pos us h.1

-- Behind the first error of a line the parser drops the rest of it.
error-push_all :
    (brk : Bytes) (s : Pstate) (t : Token) (text : Bytes) (pos : MiPosition) (us : Lexemes)
    (o : Option MiOutput)
    → IsReading s
    → Fails t (step s t text)
    → Terminated brk (lexeme t text pos ∷ us)
    → push_all s o (lexeme t text pos ∷ us) ≡ (at_start, some (error_output text pos))
unfolding push_all
error-push_all brk s t text pos us o reads fails h =
    rw (push_parse-step s t text pos reads, push_all) (drop (step s t text) fails us h)
  where
    drop :
        (p : Pushed)
        → Fails t p
        → (us : Lexemes) → Terminated brk (lexeme t text pos ∷ us)
        → push_all (after_step t text pos p).0 (stored (after_step t text pos p).1 o) us
          ≡ (at_start, some (error_output text pos))
    drop (shifted m) fails us h = elim fails [ ]
    drop (complete v) fails us h = elim fails [ ]
    drop syntax_error fails_syntax [] h = rw h.0 refl
    drop syntax_error fails_syntax (x ∷ xs) h =
        rw (recovered-other t h.0)
          (recovering-push_all brk (x ∷ xs) (some (error_output text pos)) h.1)
    drop refused (fails_refused other) [] h = absurd (other h.0)
    drop refused (fails_refused other) (x ∷ xs) h = recovering-push_all brk (x ∷ xs) _ h.1

-- What the parser stores for a line that is an output cannot be an error.
error-IsViable :
    (before : Lexemes) (s : Pstate) (t : Token) (text : Bytes) (pos : MiPosition)
    → Shifts at_start before s
    → Fails t (step s t text)
    → ¬ IsViable (before ++ lexeme t text pos ∷ [])
unfolding push_all
error-IsViable before s t text pos run fails h =
    stored_error h.derived
      (ap (λ r. r.1) (sym wrong ∙ push_all-Output full [] h.variant none h.derived))
  where
    us : Lexemes
    us = h.rest

    full : Lexemes
    full = (before ++ lexeme t text pos ∷ []) ++ us

    same : full ≡ before ++ lexeme t text pos ∷ us
    same = append_assoc before (lexeme t text pos ∷ []) us

    wrong : push_all at_start none full ≡ (at_start, some (error_output text pos))
    wrong =
        ap (push_all at_start none) same
        ∙ Shifts-push_all at_start s before (lexeme t text pos ∷ us) none run
        ∙ error-push_all h.brk s t text pos us none (Shifts-IsReading s before run) fails
            (Terminated-tail h.brk before t text pos us (subst (Terminated h.brk) same h.whole))

    stored_error :
        Output full h.variant []
        → some (error_output text pos) ≡ some (output h.variant none null)
        → ⊥
    stored_error (output_newline brk d n) e = not_error full _ h.variant text pos d cc

-- Only a line break completes an output.
only_newline :
    (s : Pstate) (t : Token) (text : Bytes) (v : MiOutputVariant) (pos : MiPosition)
    (before : Lexemes)
    → Shifts at_start before s
    → step s t text ≡ complete v
    → t ≡ newline
only_newline s t text v pos before run e =
    (subst (Leads t full []) e (
      step-Leads s t text pos full []
        (Shifts-Reached at_start s before full (lexeme t text pos ∷ []) refl run))).0
  where
    full : Lexemes
    full = before ++ lexeme t text pos ∷ []

abbrev Verdict : Lexemes → Pstate × Option MiOutput → Type 0
Verdict ts r = (r.0 ≡ at_start) × (Accepted ts r.1 ⊎ Rejected ts r.1)

rejected :
    (brk : Bytes) (before : Lexemes) (s : Pstate) (t : Token) (text : Bytes) (pos : MiPosition)
    (us : Lexemes)
    → Shifts at_start before s
    → Fails t (step s t text)
    → Terminated brk (lexeme t text pos ∷ us)
    → Verdict (before ++ lexeme t text pos ∷ us) (push_all s none (lexeme t text pos ∷ us))
rejected brk before s t text pos us run fails h =
    subst (Verdict (before ++ lexeme t text pos ∷ us))
      (sym (error-push_all brk s t text pos us none (Shifts-IsReading s before run) fails h))
      (
        refl,
        inr record {
          before = before;
          token = t;
          text = text;
          position = pos;
          after = us;
          whole = refl;
          value = refl;
          viable = Shifts-IsViable s before run;
          stuck = error-IsViable before s t text pos run fails;
        },
      )

accepted :
    (before : Lexemes) (s : Pstate) (v : MiOutputVariant) (text : Bytes) (pos : MiPosition)
    → Shifts at_start before s
    → step s newline text ≡ complete v
    → Verdict
        (before ++ lexeme newline text pos ∷ [])
        (push_all s none (lexeme newline text pos ∷ []))
unfolding push_all
accepted before s v text pos run e =
    rw (push_parse-step s newline text pos (Shifts-IsReading s before run), e, push_all)
      (
        refl,
        inl record {
          variant = v;
          value = refl;
          derived = complete-Output before s v text pos run e;
        },
      )

-- A state that the tokens `before` lead to, and the rest of the line.
Verdict-from :
    (brk : Bytes) (before : Lexemes) (s : Pstate) (ts : Lexemes)
    → Shifts at_start before s
    → Terminated brk ts
    → Verdict (before ++ ts) (push_all s none ts)
unfolding push_all
Verdict-from brk before s [] run h = absurd h
Verdict-from brk before s (lexeme t text pos ∷ []) run h =
    subst
      (λ k. Verdict (before ++ lexeme k text pos ∷ []) (push_all s none (lexeme k text pos ∷ [])))
      (sym h.0)
      (elim (newline_ends s text) [
        | inl (v, e) ↦ accepted before s v text pos run e
        | inr e ↦
            rejected brk before s newline text pos [] run
              (subst (Fails newline) (sym e) fails_syntax) (refl, h.1)
      ])
Verdict-from brk before s (lexeme t text pos ∷ x ∷ xs) run h =
    by_step
      (λ m e.
        let further : Shifts at_start (before ++ lexeme t text pos ∷ []) m =
          Shifts-append at_start s m before (lexeme t text pos ∷ []) run (m, e, refl) in
        Verdict-from brk (before ++ lexeme t text pos ∷ []) m (x ∷ xs) further h.1)
      (step s t text) refl
  where
    whole : Lexemes
    whole = before ++ lexeme t text pos ∷ x ∷ xs

    by_step :
        ((m : Pstate)
          → step s t text ≡ shifted m
          → Verdict ((before ++ lexeme t text pos ∷ []) ++ x ∷ xs) (push_all m none (x ∷ xs)))
        → (p : Pushed) → step s t text ≡ p
        → Verdict whole (push_all s none (lexeme t text pos ∷ x ∷ xs))
    by_step more (shifted m) e =
        subst (Verdict whole)
          (sym (Shifts-push_all s m (lexeme t text pos ∷ []) (x ∷ xs) none (m, e, refl)))
          (subst (λ w. Verdict w (push_all m none (x ∷ xs)))
            (append_assoc before (lexeme t text pos ∷ []) (x ∷ xs)) (more m e))
    by_step more (complete v) e = absurd (h.0 (only_newline s t text v pos before run e))
    by_step more syntax_error e =
        rejected brk before s t text pos (x ∷ xs) run (subst (Fails t) (sym e) fails_syntax) h
    by_step more refused e =
        rejected brk before s t text pos (x ∷ xs) run (subst (Fails t) (sym e) (fails_refused h.0))
          h

-- For tokens that end with their only line break, the parser is at its start again behind them, and
-- it has stored one of two things: the output that the tokens are, with its value; or a parse
-- error, with the text and the columns of the first token with which no output begins, where the
-- tokens in front of it still begin one.
pub push_all-Verdict :
    (brk : Bytes) (ts : Lexemes)
    → Terminated brk ts
    → ((push_all at_start none ts).0 ≡ at_start)
      × (Accepted ts (push_all at_start none ts).1 ⊎ Rejected ts (push_all at_start none ts).1)
push_all-Verdict brk ts h = Verdict-from brk [] at_start ts refl h
