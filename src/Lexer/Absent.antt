-- ===== src/Lexer/Absent.antt =====
-- Rules of src/gdbwire_mi_lexer.l that cannot match at a byte, and names.
use gdbwire.Base.{
  ℕ, zero, suc, ◌<◌, ◌≡◌, refl, ap, sym, ◌∙◌, subst, List, [], ◌∷◌, ◌++◌, Bool, true, false, ◌&&◌,
  ◌||◌, not, Bool-cases, Option, none, some, inl, inr, Bytes, take, arith, is_digit, ◌==◌,
}
use gdbwire.MiParser.Lines.{AllBytes}
use gdbwire.Lexer.{
  Token, Regex, never, empty, byte, then_, either, many, nullable, deriv, longer, longest, Rule,
  Match, matched, better, best, rules, is_letter, is_word,
}
use gdbwire.Lexer.Derivatives.{Matches}
use gdbwire.Lexer.Stays.{Only, Only-AllBytes, take_one, take-inside}
use gdbwire.Lexer.First.{starts, Matches-starts, starts_rules, Within, Acts}

-- Behind the byte nothing can follow in any match.
abbrev is_flat_regex : Regex → Bool
is_flat_regex never = true
is_flat_regex empty = true
is_flat_regex _ = false

abbrev pub is_flat : ℕ → List Rule → Bool
is_flat c [] = true
is_flat c (r ∷ rs) = is_flat_regex (deriv c r.pattern_of) && is_flat c rs

longest-flat : (r : Regex) (bs : Bytes) → is_flat_regex r ≡ true → longest r bs ≡ longest r []
unfolding longest nullable deriv
longest-flat never [] h = refl
longest-flat never (b ∷ bs) h = rw (longest-flat never bs refl) refl
longest-flat empty [] h = refl
longest-flat empty (b ∷ bs) h = rw (longest-flat never bs refl) refl
longest-flat (byte p) bs h = absurd (ground arith)
longest-flat (then_ r t) bs h = absurd (ground arith)
longest-flat (either r t) bs h = absurd (ground arith)
longest-flat (many r) bs h = absurd (ground arith)

-- A sign is picked alone, whatever follows.
pub best-flat :
    (c : ℕ) (rest : Bytes) (rs : List Rule)
    → is_flat c rs ≡ true
    → best rs (c ∷ rest) ≡ best rs (c ∷ [])
unfolding best longest
best-flat c rest [] h = refl
best-flat c rest (r ∷ rs) h =
    ap found (longest-flat (deriv c r.pattern_of) rest (ground arith))
    ∙ ap (better (matched r (c ∷ []))) (best-flat c rest rs (ground arith))
  where
    found : Option ℕ → Option Match
    found l =
        better
          (elim (longer l (nullable r.pattern_of)) as (λ _. Option Match) [
            | none ↦ none
            | some n ↦ some (n, r.action)
          ])
          (best rs (c ∷ rest))

-- A rule that cannot match at the byte.
pub absent-Within :
    (x : ℕ) (us rest : Bytes) (r : Rule) → starts r.pattern_of x ≡ false → Within (x ∷ us) rest r
absent-Within x us rest r h zero le k = omega arith
absent-Within x us rest r h (suc n) le k =
    let begins = Matches-starts r.pattern_of x (take n (us ++ rest)) k in absurd (ground arith)

pub absent-Acts :
    (x : ℕ) (us : Bytes) (a : Option Token) (r : Rule)
    → starts r.pattern_of x ≡ false
    → Acts (x ∷ us) a r
absent-Acts x us a r h k = let begins = Matches-starts r.pattern_of x us k in absurd (ground arith)

-- A rule for one byte.
pub byte-Within :
    (x : ℕ) (us rest : Bytes) (p : ℕ → Bool) (a : Option Token)
    → Within (x ∷ us) rest (record { pattern_of = byte p; action = a })
byte-Within x us rest p a n le (c, e, h) = omega (arith, (take_one x (us ++ rest) n c e le).0)

-- A rule whose matches have only bytes of `P`.
pub Only-Within :
    (P : ℕ → Type 0) (u : Bytes) (d : ℕ) (rest : Bytes) (r : Rule)
    → Only P r.pattern_of
    → ¬ P d
    → Within u (d ∷ rest) r
Only-Within P u d rest r only other n le k =
    take-inside P u d rest n other (Only-AllBytes P r.pattern_of (take n (u ++ (d ∷ rest))) only k)

abbrev pub IsWordByte : ℕ → Type 0
IsWordByte c = is_word c ≡ true

-- A name: a letter, and then letters, digits, `_` and `-`.
abbrev pub IsName : Bytes → Type 0
IsName [] = ⊥
IsName (c ∷ cs) = (is_letter c ≡ true) × AllBytes IsWordByte cs

pub many-Matches :
    (p : ℕ → Bool) (s : Bytes) → AllBytes (λ c. p c ≡ true) s → Matches (many (byte p)) s
many-Matches p [] h = ([], refl, tt)
many-Matches p (c ∷ cs) h =
    let (ls, e, k) = many-Matches p cs h.1 in ((c ∷ []) ∷ ls, ap (◌∷◌ c) e, ((c, refl, h.0), k))

abbrev pub absent : ℕ → List Bool → List Bool
absent zero fs = fs
absent (suc n) fs = false ∷ absent n fs

abbrev same_flags : List Bool → List Bool → Bool
same_flags [] [] = true
same_flags (true ∷ fs) (true ∷ gs) = same_flags fs gs
same_flags (false ∷ fs) (false ∷ gs) = same_flags fs gs
same_flags _ _ = false

same_flags_sound : (fs gs : List Bool) → same_flags fs gs ≡ true → fs ≡ gs
same_flags_sound [] [] h = refl
same_flags_sound (true ∷ fs) (true ∷ gs) h = ap (◌∷◌ true) (same_flags_sound fs gs h)
same_flags_sound (false ∷ fs) (false ∷ gs) h = ap (◌∷◌ false) (same_flags_sound fs gs h)
same_flags_sound [] (g ∷ gs) h = absurd (ground arith)
same_flags_sound (true ∷ fs) [] h = absurd (ground arith)
same_flags_sound (false ∷ fs) [] h = absurd (ground arith)
same_flags_sound (true ∷ fs) (false ∷ gs) h = absurd (ground arith)
same_flags_sound (false ∷ fs) (true ∷ gs) h = absurd (ground arith)

-- Every byte below the bound that has `p` has the flags.
pub flags_below : ℕ → (ℕ → Bool) → List Bool → Bool
flags_below zero p fs = true
flags_below (suc n) p fs = (not (p n) || same_flags (starts_rules n rules) fs) && flags_below n p fs

pub flags_below_sound :
    (n : ℕ) (p : ℕ → Bool) (fs : List Bool) (x : ℕ)
    → flags_below n p fs ≡ true
    → x < n
    → p x ≡ true
    → starts_rules x rules ≡ fs
unfolding flags_below
flags_below_sound zero p fs x h lt k = absurd (omega arith)
flags_below_sound (suc n) p fs x h lt k =
    let rest = flags_below_sound n p fs x (ground arith) in
    elim (Bool-cases (x == n)) [
      | inr other ↦ rest (ground arith) k
      | inl here ↦
          let same : x ≡ n = ground arith in
          let held : p n ≡ true = subst (λ y. p y ≡ true) same k in
          subst (λ y. starts_rules y rules ≡ fs) (sym same)
            (same_flags_sound (starts_rules n rules) fs (ground arith))
    ]

pub letter_table : flags_below 123 is_letter (absent 19 (true ∷ true ∷ false ∷ [])) ≡ true
unfolding flags_below rules nullable
letter_table = refl

pub digit_table :
    flags_below 58 is_digit (absent 17 (true ∷ false ∷ false ∷ true ∷ false ∷ [])) ≡ true
unfolding flags_below rules nullable
digit_table = refl

pub quote_flags : starts_rules b'"' rules ≡ absent 20 (true ∷ true ∷ [])
unfolding rules nullable
quote_flags = refl

pub starts_rules-take :
    (n x : ℕ) (rs : List Rule) (fs : List Bool)
    → starts_rules x rs ≡ fs
    → starts_rules x (take n rs) ≡ take n fs
starts_rules-take zero x rs fs h = refl
starts_rules-take (suc n) x [] fs h = ap (take (suc n)) h
starts_rules-take (suc n) x (r ∷ rs) [] h = absurd (ground arith)
starts_rules-take (suc n) x (r ∷ rs) (f ∷ fs) h =
    let first : starts r.pattern_of x ≡ f = ground arith in
    let rest = starts_rules-take n x rs fs (ground arith) in cc
