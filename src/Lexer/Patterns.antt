-- ===== src/Lexer/Patterns.antt =====
-- `longest` finds the longest text at the front that a pattern matches.
use gdbwire.Base.{
  ℕ, zero, suc, ◌≤◌, ◌≡◌, refl, subst, [], ◌∷◌, Bool, true, false, Option, none, some, Bytes,
  length, take, arith,
}
use gdbwire.Lexer.{Regex, nullable, deriv, longest, longer}
use gdbwire.Lexer.Derivatives.{
  Matches, nullable_sound, nullable_complete, deriv_sound, deriv_complete,
}

abbrev pub LongestIs : Regex → Bytes → Option ℕ → Type 0
LongestIs r bs none = (m : ℕ) → m ≤ length bs → Matches r (take m bs) → ⊥
LongestIs r bs (some n) =
    (n ≤ length bs)
    × Matches r (take n bs)
    × ((m : ℕ) → m ≤ length bs → Matches r (take m bs) → m ≤ n)

longer_is :
    (r : Regex) (c : ℕ) (cs : Bytes) (o : Option ℕ)
    → LongestIs (deriv c r) cs o
    → LongestIs r (c ∷ cs) (longer o (nullable r))
longer_is r c cs (some n) (le, h, most) = (omega arith, deriv_sound r c (take n cs) h, furthest)
  where
    furthest : (m : ℕ) → m ≤ length (c ∷ cs) → Matches r (take m (c ∷ cs)) → m ≤ suc n
    furthest zero lm k = omega arith
    furthest (suc m) lm k = omega (arith, most m (omega arith) (deriv_complete r c (take m cs) k))
longer_is r c cs none fails = go (nullable r) refl
  where
    short : (m : ℕ) → m ≤ length (c ∷ cs) → Matches r (take m (c ∷ cs)) → m ≡ 0
    short zero lm k = refl
    short (suc m) lm k = absurd (fails m (omega arith) (deriv_complete r c (take m cs) k))

    go : (b : Bool) → nullable r ≡ b → LongestIs r (c ∷ cs) (longer none b)
    go true e = (omega arith, nullable_sound r e, λ m lm k. omega (arith, short m lm k))
    go false e = λ m lm k.
        let at_start = subst (λ i. Matches r (take i (c ∷ cs))) (short m lm k) k in
        let null = nullable_complete r at_start in ground arith

-- `longest` gives the length of the longest text at the front that the pattern matches, and
-- `none` if it matches no text there.
pub longest-LongestIs : (r : Regex) (bs : Bytes) → LongestIs r bs (longest r bs)
unfolding longest
longest-LongestIs r [] = go (nullable r) refl
  where
    at_nil : (m : ℕ) → Matches r (take m []) → Matches r []
    at_nil zero k = k
    at_nil (suc m) k = k

    go : (b : Bool) → nullable r ≡ b → LongestIs r [] (longer none b)
    go true e = (omega arith, nullable_sound r e, λ m lm k. lm)
    go false e = λ m lm k. let null = nullable_complete r (at_nil m k) in ground arith
longest-LongestIs r (c ∷ cs) =
    longer_is r c cs (longest (deriv c r) cs) (longest-LongestIs (deriv c r) cs)
