-- ===== src/Lexer/Lines.antt =====
-- The tokens of a line: one line break, at the end.
use gdbwire.Base.{
  ℕ, zero, suc, ◌+◌, ◌≤◌, ◌<◌, ◌≡◌, ◌≢◌, refl, ap, sym, ◌∙◌, subst, List, [], ◌∷◌, ◌++◌, some, inl,
  inr, Bytes, length, take, drop, length-append, length-drop, arith,
}
use gdbwire.Lexer.{newline, Match, nullable, longest, deriv, best, rules, Piece, piece, pieces}
use gdbwire.Lexer.Munch.{
  AllRules-get_elem?, Picks, Picks-IsMatch, Picks-pos, Best, best-Best, best-some, pieces_step,
}
use gdbwire.MiParser.Lines.{AllBytes, IsCalm, IsBreak}
use gdbwire.Lexer.Stays.{Stays, rules-Stays}

-- A match in front of the break stays in front of it, and is no line break.
picked_stays :
    (x : ℕ) (xs brk : Bytes) (m : Match)
    → IsCalm x
    → IsBreak brk
    → Picks rules (x ∷ (xs ++ brk)) m
    → (m.0 ≤ length (x ∷ xs)) × (m.1 ≢ some newline)
picked_stays x xs brk (n, a) calm b h =
    let (i, r, e, (le, k, f)) = Picks-IsMatch rules (x ∷ (xs ++ brk)) (n, a) h in
    let (inside, other) =
      AllRules-get_elem? (Stays (x ∷ xs)) rules i r e (rules-Stays x xs calm) brk n b le k in
    (inside, λ q. other (sym f ∙ q))

-- The break itself is one match.
best_break :
    (brk : Bytes)
    → IsBreak brk
    → (best rules brk ≡ some (length brk, some newline)) × (0 < length brk)
unfolding best rules longest deriv nullable
best_break brk (inl e) = rw e (refl, omega arith)
best_break brk (inr (inl e)) = rw e (refl, omega arith)
best_break brk (inr (inr e)) = rw e (refl, omega arith)

-- The pieces of a line: none but the last is a line break, and the last is the break.
abbrev pub EndsLine : Bytes → List Piece → Type 0
EndsLine brk [] = ⊥
EndsLine brk (p ∷ []) = (p.action ≡ some newline) × (p.text ≡ brk)
EndsLine brk (p ∷ q ∷ ps) = (p.action ≢ some newline) × EndsLine brk (q ∷ ps)

EndsLine-cons :
    (brk : Bytes) (p : Piece) (ps : List Piece)
    → p.action ≢ some newline
    → EndsLine brk ps
    → EndsLine brk (p ∷ ps)
EndsLine-cons brk p [] h k = absurd k
EndsLine-cons brk p (q ∷ ps) h k = (h, k)

drop_inside :
    (n : ℕ) (body brk : Bytes) → n ≤ length body → drop n (body ++ brk) ≡ drop n body ++ brk
drop_inside zero body brk h = refl
drop_inside (suc n) [] brk h = absurd (omega arith)
drop_inside (suc n) (b ∷ body) brk h = drop_inside n body brk (omega arith)

AllBytes-drop : (P : ℕ → Type 0) (n : ℕ) (bs : Bytes) → AllBytes P bs → AllBytes P (drop n bs)
AllBytes-drop P zero bs h = h
AllBytes-drop P (suc n) [] h = h
AllBytes-drop P (suc n) (b ∷ bs) h = AllBytes-drop P n bs h.1

pieces_nil : (fuel column : ℕ) → pieces fuel column [] ≡ []
unfolding pieces
pieces_nil zero column = refl
pieces_nil (suc fuel) column = refl

-- A text that is one match with the action of a line break.
one_piece :
    (fuel column c : ℕ) (cs : Bytes)
    → best rules (c ∷ cs) ≡ some (length (c ∷ cs), some newline)
    → take (length (c ∷ cs)) (c ∷ cs) ≡ c ∷ cs
    → drop (length (c ∷ cs)) (c ∷ cs) ≡ []
    → EndsLine (c ∷ cs) (pieces (suc fuel) column (c ∷ cs))
one_piece fuel column c cs e whole none_left =
    subst (EndsLine (c ∷ cs))
      (sym (
        pieces_step fuel column c cs (length (c ∷ cs), some newline) e
        ∙ ap
            (λ t.
              piece column (length (c ∷ cs), some newline) (c ∷ cs)
              ∷ pieces fuel (column + length (c ∷ cs)) t)
            none_left
        ∙ ap (λ ps. piece column (length (c ∷ cs), some newline) (c ∷ cs) ∷ ps)
            (pieces_nil fuel (column + length (c ∷ cs)))))
      (refl, whole)

pieces_break :
    (fuel column : ℕ) (brk : Bytes)
    → IsBreak brk
    → length brk ≤ fuel
    → EndsLine brk (pieces fuel column brk)
pieces_break zero column brk b h = absurd (omega (arith, (best_break brk b).1))
pieces_break (suc fuel) column brk (inl e) h =
    subst (λ t. EndsLine t (pieces (suc fuel) column t)) (sym e)
      (one_piece fuel column b'\n' [] (best_break (b'\n' ∷ []) (inl refl)).0 refl refl)
pieces_break (suc fuel) column brk (inr (inl e)) h =
    subst (λ t. EndsLine t (pieces (suc fuel) column t)) (sym e)
      (one_piece fuel column b'\r' [] (best_break (b'\r' ∷ []) (inr (inl refl))).0 refl refl)
pieces_break (suc fuel) column brk (inr (inr e)) h =
    subst (λ t. EndsLine t (pieces (suc fuel) column t)) (sym e)
      (one_piece fuel column b'\r' (b'\n' ∷ []) (best_break (b'\r' ∷ b'\n' ∷ []) (inr (inr refl))).0
        refl refl)

pub pieces-EndsLine :
    (fuel column : ℕ) (body brk : Bytes)
    → AllBytes IsCalm body
    → IsBreak brk
    → length (body ++ brk) ≤ fuel
    → EndsLine brk (pieces fuel column (body ++ brk))
pieces-EndsLine zero column [] brk calm b h = pieces_break zero column brk b h
pieces-EndsLine zero column (x ∷ xs) brk calm b h = absurd (omega arith)
pieces-EndsLine (suc fuel) column [] brk calm b h = pieces_break (suc fuel) column brk b h
pieces-EndsLine (suc fuel) column (x ∷ xs) brk calm b h =
    let (m, e) = best-some x (xs ++ brk) in
    let picked =
      subst (λ o. Best rules (x ∷ (xs ++ brk)) o) e (best-Best rules (x ∷ (xs ++ brk))) in
    let (inside, other) = picked_stays x xs brk m calm.0 b picked in
    let some_byte = Picks-pos (x ∷ (xs ++ brk)) m picked in
    let left = drop_inside m.0 (x ∷ xs) brk inside in
    subst (EndsLine brk) (sym (pieces_step fuel column x (xs ++ brk) m e)) (
      EndsLine-cons brk (piece column m (x ∷ (xs ++ brk))) _ other (
        subst (λ t. EndsLine brk (pieces fuel (column + m.0) t)) (sym left)
          (pieces-EndsLine fuel (column + m.0) (drop m.0 (x ∷ xs)) brk
            (AllBytes-drop IsCalm m.0 (x ∷ xs) calm) b
            (omega (
              arith,
              length-append {0} (drop m.0 (x ∷ xs)) brk,
              length-drop {0} m.0 (x ∷ xs),
              length-append {0} xs brk,
            )))))
