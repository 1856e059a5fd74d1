-- ===== src/Grammar/Viable.antt =====
-- The beginnings of an output: whatever the parser has shifted, some output begins with it.
use gdbwire.Base.{
  ◌≡◌, refl, subst, List, [], ◌∷◌, ◌++◌, Option, none, some, Bytes, codes, append_assoc,
}
use gdbwire.Pt.{MiResult, null, cstring, MiOutputVariant, output_prompt, MiPosition}
use gdbwire.Lexer.{Token, lexeme, closed_paren, equal_sign, newline, string_literal, carrot}
use gdbwire.Lexer.Terminated.{Terminated, Terminated-cons}
use gdbwire.Grammar.{result_class, async_class}
use gdbwire.Grammar.Productions.{Lexemes, unescaped, push_back, Output, output_newline}
use gdbwire.Grammar.Machine.{
  Head, result_head, async_head, Bracket, brace, bracket, Frame, Place, at_first, at_comma,
  at_variable, at_equal, at_result, Pstate, at_start, at_token, at_carrot, at_async, at_class,
  at_stream, at_variant, at_paren, at_prompt, in_list, recovering, shifted, complete, variant_of,
  closed, step_place, step,
}
use gdbwire.Grammar.Reached.{Leads, closing_token}
use gdbwire.Grammar.Sound.{step-Leads}
use gdbwire.Grammar.Shifts.{
  Shifts, Shifts-append, Shifts-Reached, IsReading, Shifts-IsReading, newline_shifts,
}

-- Some output, up to its line break, begins with the tokens.
pub record IsViable (ts : Lexemes) : Type 0 where
  pub rest : Lexemes
  pub variant : MiOutputVariant
  pub brk : Bytes
  pub whole : Terminated brk (ts ++ rest)
  pub derived : Output (ts ++ rest) variant []

-- Tokens that bring the machine from the state to a complete output. None is a line break.
record Finish (s : Pstate) : Type 0 where
  tokens : Lexemes
  end : Pstate
  value : MiOutputVariant
  run : Shifts s tokens end
  finished : step end newline [] ≡ complete value

abbrev nowhere : MiPosition
nowhere = record { start_column = 1; end_column = 1 }

-- One token more in front.
Finish-by :
    (s m : Pstate) (t : Token) (text : Bytes) → step s t text ≡ shifted m → Finish m → Finish s
Finish-by s m t text e f = record {
  tokens = lexeme t text nowhere ∷ f.tokens;
  end = f.end;
  value = f.value;
  run = (m, e, f.run);
  finished = f.finished;
}

step-close :
    (h : Head) (f : Frame) (fs : List Frame) (acc : MiResult)
    → step (in_list h (f ∷ fs) (at_result acc)) (closing_token f.kind) []
      ≡ shifted (in_list h fs (at_result (push_back f.results (closed f.kind f.variable acc))))
unfolding step step_place
step-close h f fs acc = by_bracket f.kind
  where
    by_bracket :
        (b : Bracket)
        → step
            (in_list h
              (record { kind = b; variable = f.variable; results = f.results } ∷ fs)
              (at_result acc))
            (closing_token b)
            []
          ≡ shifted (in_list h fs (at_result (push_back f.results (closed b f.variable acc))))
    by_bracket brace = refl
    by_bracket bracket = refl

Finish-result :
    (h : Head) (fs : List Frame) (acc : MiResult) → Finish (in_list h fs (at_result acc))
unfolding step step_place
Finish-result h [] acc = record {
  tokens = [];
  end = in_list h [] (at_result acc);
  value = variant_of h acc;
  run = refl;
  finished = refl;
}
Finish-result h (f ∷ fs) acc =
    Finish-by (in_list h (f ∷ fs) (at_result acc)) _ (closing_token f.kind) []
      (step-close h f fs acc)
      (Finish-result h fs (push_back f.results (closed f.kind f.variable acc)))

Finish-value :
    (h : Head) (fs : List Frame) (acc : MiResult) (v : Option Bytes)
    → Finish (in_list h fs (at_result (push_back acc (cstring v (unescaped []) null))))
Finish-value h fs acc v = Finish-result h fs (push_back acc (cstring v (unescaped []) null))

Finish-variant : (v : MiOutputVariant) → Finish (at_variant v)
unfolding step
Finish-variant v = record {
  tokens = [];
  end = at_variant v;
  value = v;
  run = refl;
  finished = refl;
}

Finish-class : (h : Head) → Finish (at_class h)
unfolding step
Finish-class h = record {
  tokens = [];
  end = at_class h;
  value = variant_of h null;
  run = refl;
  finished = refl;
}

Finish-place : (h : Head) (fs : List Frame) (p : Place) → Finish (in_list h fs p)
unfolding step step_place
Finish-place h [] at_first =
    Finish-by (in_list h [] at_first) _ Token.cstring [] refl (Finish-value h [] null none)
Finish-place h (f ∷ fs) at_first =
    Finish-by (in_list h (f ∷ fs) at_first) (in_list h (f ∷ fs) (at_variable null []))
      string_literal [] refl
      (Finish-by _ (in_list h (f ∷ fs) (at_equal null [])) equal_sign [] refl
        (Finish-by _ _ Token.cstring [] refl (Finish-value h (f ∷ fs) null (some []))))
Finish-place h fs (at_comma acc) =
    Finish-by (in_list h fs (at_comma acc)) _ Token.cstring [] refl (Finish-value h fs acc none)
Finish-place h fs (at_variable acc v) =
    Finish-by (in_list h fs (at_variable acc v)) (in_list h fs (at_equal acc v)) equal_sign [] refl
      (Finish-by _ _ Token.cstring [] refl (Finish-value h fs acc (some v)))
Finish-place h fs (at_equal acc v) =
    Finish-by (in_list h fs (at_equal acc v)) _ Token.cstring [] refl
      (Finish-value h fs acc (some v))
Finish-place h fs (at_result acc) = Finish-result h fs acc

Finish-carrot : (token : Option Bytes) → Finish (at_carrot token)
unfolding step
Finish-carrot token =
    Finish-by (at_carrot token) (at_class (result_head token (result_class []))) string_literal []
      refl (Finish-class _)

-- Every state in which tokens are read can be finished.
finish : (s : Pstate) → IsReading s → Finish s
unfolding step
finish at_start h = Finish-by at_start (at_carrot none) carrot [] refl (Finish-carrot none)
finish (at_token x) h =
    Finish-by (at_token x) (at_carrot (some x)) carrot [] refl (Finish-carrot (some x))
finish (at_carrot x) h = Finish-carrot x
finish (at_async x k) h =
    Finish-by (at_async x k) (at_class (async_head x k (async_class []))) string_literal [] refl
      (Finish-class _)
finish (at_class c) h = Finish-class c
finish (at_stream k) h = Finish-by (at_stream k) _ Token.cstring [] refl (Finish-variant _)
finish (at_variant v) h = Finish-variant v
finish at_paren h = Finish-by at_paren at_prompt string_literal (codes "gdb") refl (
    Finish-by at_prompt (at_variant output_prompt) closed_paren [] refl
      (Finish-variant output_prompt))
finish at_prompt h =
    Finish-by at_prompt (at_variant output_prompt) closed_paren [] refl
      (Finish-variant output_prompt)
finish (in_list c fs p) h = Finish-place c fs p
finish recovering h = absurd h

-- Tokens that are shifted have no line break.
Shifts-Terminated :
    (s s' : Pstate) (ts : Lexemes) (text : Bytes) (pos : MiPosition)
    → Shifts s ts s'
    → Terminated text (ts ++ lexeme newline text pos ∷ [])
Shifts-Terminated s s' [] text pos h = (refl, refl)
Shifts-Terminated s s' (lexeme t x p ∷ ts) text pos (m, e, h) =
    Terminated-cons text t x p _
      (λ same. newline_shifts s x m (subst (λ y. step s y x ≡ shifted m) same e))
      (Shifts-Terminated m s' ts text pos h)

pub complete-Output :
    (ts : Lexemes) (s : Pstate) (v : MiOutputVariant) (text : Bytes) (pos : MiPosition)
    → Shifts at_start ts s
    → step s newline text ≡ complete v
    → Output (ts ++ lexeme newline text pos ∷ []) v []
complete-Output ts s v text pos h e = output (
    subst (Leads newline full []) e (
      step-Leads s newline text pos full []
        (Shifts-Reached at_start s ts full (lexeme newline text pos ∷ []) refl h)))
  where
    full : Lexemes
    full = ts ++ lexeme newline text pos ∷ []

    output : Leads newline full [] (complete v) → Output full v []
    output (same, mid, brk, d, n) = output_newline brk d n

-- What the parser has shifted from its start is the beginning of an output.
pub Shifts-IsViable : (s : Pstate) (ts : Lexemes) → Shifts at_start ts s → IsViable ts
Shifts-IsViable s ts h = record {
  rest = f.tokens ++ lexeme newline [] nowhere ∷ [];
  variant = f.value;
  brk = [];
  whole =
      subst (Terminated []) (append_assoc ts f.tokens last)
        (Shifts-Terminated at_start f.end (ts ++ f.tokens) [] nowhere run);
  derived =
      subst (λ x. Output x f.value []) (append_assoc ts f.tokens last)
        (complete-Output (ts ++ f.tokens) f.end f.value [] nowhere run f.finished);
}
  where
    f : Finish s
    f = finish s (Shifts-IsReading s ts h)

    last : Lexemes
    last = lexeme newline [] nowhere ∷ []

    run : Shifts at_start (ts ++ f.tokens) f.end
    run = Shifts-append at_start s f.end ts f.tokens h f.run
