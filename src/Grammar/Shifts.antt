-- ===== src/Grammar/Shifts.antt =====
-- Runs of the push parser that shift every token, and what it does at a line break and at an error.
use gdbwire.Base.{
  ◌≡◌, ◌≢◌, refl, ap, sym, ◌∙◌, subst, [], ◌∷◌, ◌++◌, Option, none, Bytes, inl, inr, ◌⊎◌, arith,
  false,
}
use gdbwire.Pt.{null, MiOutputVariant, MiOutput, MiPosition}
use gdbwire.Lexer.{Token, lexeme, newline}
use gdbwire.Grammar.Productions.{Lexemes}
use gdbwire.Grammar.Machine.{
  recovered, after_step, Bracket, brace, bracket, at_first, at_comma, at_variable, at_equal,
  at_result, Pstate, at_start, at_token, at_carrot, at_async, at_class, at_stream, at_variant,
  at_paren, at_prompt, in_list, recovering, shifted, complete, syntax_error, end_results,
  variant_of, closes, first_token, step_place, step, push_parse, push_all,
}
use gdbwire.Grammar.Reached.{Reached, Leads}
use gdbwire.Grammar.Sound.{step-Leads}
use gdbwire.Lexer.Terminated.{Terminated}

-- The tokens are shifted one by one, from the state `s` to `s'`.
abbrev pub Shifts : Pstate → Lexemes → Pstate → Type 0
Shifts s [] s' = s ≡ s'
Shifts s (lexeme t text pos ∷ ts) s' =
    (s1 : Pstate) × (step s t text ≡ shifted s1) × Shifts s1 ts s'

pub Shifts-append :
    (s s1 s2 : Pstate) (ts us : Lexemes) → Shifts s ts s1 → Shifts s1 us s2 → Shifts s (ts ++ us) s2
Shifts-append s s1 s2 [] us h k = subst (λ x. Shifts x us s2) (sym h) k
Shifts-append s s1 s2 (lexeme t text pos ∷ ts) us (m, e, h) k =
    (m, e, Shifts-append m s1 s2 ts us h k)

-- A state in which tokens are read: not that of the error recovery.
abbrev pub IsReading : Pstate → Type 0
IsReading recovering = ⊥
IsReading _ = Unit {0}

pub push_parse-step :
    (s : Pstate) (t : Token) (text : Bytes) (pos : MiPosition)
    → IsReading s
    → push_parse s (lexeme t text pos) ≡ after_step t text pos (step s t text)
unfolding push_parse
push_parse-step recovering t text pos h = absurd h
push_parse-step s t text pos h = refl

pub Shifts-Reached :
    (s s' : Pstate) (ts full rest : Lexemes)
    → Reached s full (ts ++ rest)
    → Shifts s ts s'
    → Reached s' full rest
Shifts-Reached s s' [] full rest h e = subst (λ x. Reached x full rest) e h
Shifts-Reached s s' (lexeme t text pos ∷ ts) full rest h (m, e, k) =
    Shifts-Reached m s' ts full rest
      (subst (Leads t full (ts ++ rest)) e (step-Leads s t text pos full (ts ++ rest) h)) k

Reached-IsReading : (s : Pstate) (ts rest : Lexemes) → Reached s ts rest → IsReading s
Reached-IsReading recovering ts rest h = absurd h
Reached-IsReading _ ts rest h = tt

-- What was read may be followed by anything.
pub Shifts-IsReading : (s : Pstate) (ts : Lexemes) → Shifts at_start ts s → IsReading s
Shifts-IsReading s ts h =
    Reached-IsReading s (ts ++ []) [] (Shifts-Reached at_start s ts (ts ++ []) [] refl h)

closes-newline : (b : Bracket) → closes b newline ≡ false
closes-newline brace = refl
closes-newline bracket = refl

-- A line break is never shifted and never refused.
pub newline_ends :
    (s : Pstate) (text : Bytes)
    → ((v : MiOutputVariant) × (step s newline text ≡ complete v))
      ⊎ (step s newline text ≡ syntax_error)
unfolding step step_place
newline_ends at_start text = inr refl
newline_ends (at_token x) text = inr refl
newline_ends (at_carrot x) text = inr refl
newline_ends (at_async x k) text = inr refl
newline_ends (at_class h) text = inl (variant_of h null, refl)
newline_ends (at_stream k) text = inr refl
newline_ends (at_variant v) text = inl (v, refl)
newline_ends at_paren text = inr refl
newline_ends at_prompt text = inr refl
newline_ends (in_list h [] at_first) text = inr refl
newline_ends (in_list h (f ∷ fs) at_first) text = rw (closes-newline f.kind, first_token) (inr refl)
newline_ends (in_list h fs (at_comma acc)) text = inr refl
newline_ends (in_list h fs (at_variable acc v)) text = inr refl
newline_ends (in_list h fs (at_equal acc v)) text = inr refl
newline_ends (in_list h [] (at_result acc)) text = inl (variant_of h acc, refl)
newline_ends (in_list h (f ∷ fs) (at_result acc)) text =
    rw (closes-newline f.kind, end_results) (inr refl)
newline_ends recovering text = inr refl

pub newline_shifts : (s : Pstate) (text : Bytes) (m : Pstate) → step s newline text ≡ shifted m → ⊥
newline_shifts s text m e = elim (newline_ends s text) [
  | inl (v, f) ↦ other v (sym e ∙ f)
  | inr f ↦ ground arith
]
  where
    other : (v : MiOutputVariant) → shifted m ≡ complete v → ⊥
    other v g = ground arith

push_parse-shifted :
    (s m : Pstate) (t : Token) (text : Bytes) (pos : MiPosition)
    → step s t text ≡ shifted m
    → push_parse s (lexeme t text pos) ≡ (m, none)
unfolding push_parse
push_parse-shifted recovering m t text pos e = absurd (ground arith)
push_parse-shifted s m t text pos e = ap (after_step t text pos) e

-- A run that shifts its tokens stores no output.
pub Shifts-push_all :
    (s s' : Pstate) (ts us : Lexemes) (o : Option MiOutput)
    → Shifts s ts s'
    → push_all s o (ts ++ us) ≡ push_all s' o us
unfolding push_all push_parse
Shifts-push_all s s' [] us o h = ap (λ x. push_all x o us) h
Shifts-push_all s s' (lexeme t text pos ∷ ts) us o (m, e, h) =
    rw (push_parse-shifted s m t text pos e, push_all) (Shifts-push_all m s' ts us o h)

pub recovered-other : (t : Token) → t ≢ newline → recovered t ≡ recovering
recovered-other newline h = absurd (h refl)
recovered-other _ h = refl

-- The recovery from an error drops the tokens up to the line break and stores nothing.
pub recovering-push_all :
    (brk : Bytes) (ts : Lexemes) (o : Option MiOutput)
    → Terminated brk ts
    → push_all recovering o ts ≡ (at_start, o)
unfolding push_all push_parse
recovering-push_all brk [] o h = absurd h
recovering-push_all brk (lexeme t text pos ∷ []) o h = rw h.0 refl
recovering-push_all brk (lexeme t text pos ∷ x ∷ xs) o h =
    rw (recovered-other t h.0) (recovering-push_all brk (x ∷ xs) o h.1)
