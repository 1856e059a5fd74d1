-- ===== src/Lexer/First.antt =====
-- The first byte of a match, and the match that the rules of src/gdbwire_mi_lexer.l pick at a text.
use gdbwire.Base.{
  ℕ, zero, suc, ◌≤◌, ◌≡◌, refl, ap, sym, ◌∙◌, subst, List, [], ◌∷◌, ◌++◌, Bool, true, false, ◌&&◌,
  ◌||◌, Option, none, some, inl, inr, Bytes, length, take, get_elem?, arith, length-append,
}
use gdbwire.Lexer.{
  Token, Regex, never, empty, byte, then_, either, many, nullable, Rule, Match, best, rules,
}
use gdbwire.Lexer.Derivatives.{Matches, All, concat, nullable_complete}
use gdbwire.Lexer.Munch.{
  AllRules, AllRules-get_elem?, AtMost, MatchesNothing, IsMatch, Picks, Picks-IsMatch, Picks-AtMost,
  Best, best-Best,
}

-- Can a match begin with the byte?
abbrev pub starts : Regex → ℕ → Bool
starts never x = false
starts empty x = false
starts (byte p) x = p x
starts (then_ r t) x = starts r x || nullable r && starts t x
starts (either r t) x = starts r x || starts t x
starts (many r) x = starts r x

Matches-starts_then :
    (r t : Regex) (x : ℕ) (s u v : Bytes)
    → x ∷ s ≡ u ++ v
    → (u ≡ [] → nullable r ≡ true)
    → ((s' : Bytes) → u ≡ x ∷ s' → starts r x ≡ true)
    → ((s' : Bytes) → v ≡ x ∷ s' → starts t x ≡ true)
    → starts (then_ r t) x ≡ true
Matches-starts_then r t x s [] v e null f g =
    let second = g s (sym e) in let solid = null refl in ground arith
Matches-starts_then r t x s (y ∷ u) v e null f g =
    let same : x ≡ y = ground arith in let first = f u (ap (λ c. c ∷ u) (sym same)) in ground arith

pub Matches-starts : (r : Regex) (x : ℕ) (s : Bytes) → Matches r (x ∷ s) → starts r x ≡ true
Matches-starts never x s h = absurd h
Matches-starts empty x s h = absurd (ground arith)
Matches-starts (byte p) x s (c, e, h) =
    let same : x ≡ c = ground arith in subst (λ d. p d ≡ true) (sym same) h
Matches-starts (then_ r t) x s (u, v, e, h, k) =
    Matches-starts_then r t x s u v e (λ f. nullable_complete r (subst (Matches r) f h))
      (λ s' f. Matches-starts r x s' (subst (Matches r) f h))
      (λ s' f. Matches-starts t x s' (subst (Matches t) f k))
Matches-starts (either r t) x s (inl h) = let left = Matches-starts r x s h in ground arith
Matches-starts (either r t) x s (inr h) = let right = Matches-starts t x s h in ground arith
Matches-starts (many r) x s (ls, e, h) = go ls e h (λ s' k. Matches-starts r x s' k)
  where
    go :
        (ls : List Bytes)
        → x ∷ s ≡ concat ls
        → All (Matches r) ls
        → ((s' : Bytes) → Matches r (x ∷ s') → starts r x ≡ true)
        → starts r x ≡ true
    go [] e h f = absurd (ground arith)
    go ([] ∷ ls) e h f = go ls e h.1 f
    go ((y ∷ l) ∷ ls) e h f =
        let same : y ≡ x = ground arith in f l (subst (λ c. Matches r (c ∷ l)) same h.0)

abbrev pub starts_rules : ℕ → List Rule → List Bool
starts_rules x [] = []
starts_rules x (r ∷ rs) = starts r.pattern_of x ∷ starts_rules x rs

-- What is left to show of the rules: those whose flag is set.
abbrev pub Flagged : (Rule → Type 0) → List Rule → List Bool → Type 0
Flagged P [] fs = Unit {0}
Flagged P (r ∷ rs) [] = P r × Flagged P rs []
Flagged P (r ∷ rs) (true ∷ fs) = P r × Flagged P rs fs
Flagged P (r ∷ rs) (false ∷ fs) = Flagged P rs fs

-- A rule that cannot match at the byte has `P`.
pub AllRules-Flagged :
    (P : Rule → Type 0) (x : ℕ) (rs : List Rule) (fs : List Bool)
    → ((r : Rule) → starts r.pattern_of x ≡ false → P r)
    → starts_rules x rs ≡ fs
    → Flagged P rs fs
    → AllRules P rs
AllRules-Flagged P x [] fs absent e h = tt
AllRules-Flagged P x (r ∷ rs) [] absent e h = absurd (ground arith)
AllRules-Flagged P x (r ∷ rs) (true ∷ fs) absent e h =
    (h.0, AllRules-Flagged P x rs fs absent (ground arith) h.1)
AllRules-Flagged P x (r ∷ rs) (false ∷ fs) absent e h =
    (absent r (ground arith), AllRules-Flagged P x rs fs absent (ground arith) h)

-- Where the rule at `i` matches as much as the rules pick, they pick a rule that is not behind it.
Picks-before :
    (rs : List Rule) (bs : Bytes) (m : Match) (i : ℕ) (r : Rule)
    → Picks rs bs m
    → get_elem? rs i ≡ some r
    → m.0 ≤ length bs
    → Matches r.pattern_of (take m.0 bs)
    → (j : ℕ) × (q : Rule) × (j ≤ i) × (get_elem? rs j ≡ some q) × IsMatch q bs m
Picks-before [] bs m i r h e le k = absurd h
Picks-before (q ∷ rs) bs m i r (inl (h, below)) e le k = (0, q, omega arith, refl, h)
Picks-before (q ∷ rs) bs m zero r (inr (less, h)) e le k =
    let same : r ≡ q = ground arith in
    absurd
      (omega (arith, less m.0 le (subst (λ (r : Rule). Matches r.pattern_of (take m.0 bs)) same k)))
Picks-before (q ∷ rs) bs m (suc i) r (inr (less, h)) e le k =
    let (j, q', lt, f, g) = Picks-before rs bs m i r h e le k in (suc j, q', omega arith, f, g)

pub take-append {ℓ} : {A : Type ℓ} (u v : List A) → take (length u) (u ++ v) ≡ u
take-append [] v = refl
take-append (x ∷ u) v = ap (◌∷◌ x) (take-append u v)

get_elem?-take {ℓ} :
    {A : Type ℓ} (i j : ℕ) (xs : List A) → j ≤ i → get_elem? (take (suc i) xs) j ≡ get_elem? xs j
get_elem?-take i zero [] h = refl
get_elem?-take i (suc j) [] h = refl
get_elem?-take i zero (x ∷ xs) h = refl
get_elem?-take zero (suc j) (x ∷ xs) h = absurd (omega arith)
get_elem?-take (suc i) (suc j) (x ∷ xs) h = get_elem?-take i j xs (omega arith)

-- The rule matches no more than `u` at the front of `u ++ rest`.
abbrev pub Within : Bytes → Bytes → Rule → Type 0
Within u rest r =
    (n : ℕ) → n ≤ length (u ++ rest) → Matches r.pattern_of (take n (u ++ rest)) → n ≤ length u

-- If the rule matches `u`, its action is `a`.
abbrev pub Acts : Bytes → Option Token → Rule → Type 0
Acts u a r = Matches r.pattern_of u → r.action ≡ a

-- The text `u` is what the rules pick in front of `rest`: the rule at `i` matches it, no rule
-- matches more, and those up to `i` that match it have the same action.
pub best-text :
    (u rest : Bytes) (i : ℕ) (r : Rule)
    → get_elem? rules i ≡ some r
    → Matches r.pattern_of u
    → AllRules (Within u rest) rules
    → AllRules (Acts u r.action) (take (suc i) rules)
    → best rules (u ++ rest) ≡ some (length u, r.action)
best-text u rest i r e h within acts = go (best rules (u ++ rest)) (best-Best rules (u ++ rest))
  where
    le : length u ≤ length (u ++ rest)
    le = omega (arith, length-append {0} u rest)

    front : Matches r.pattern_of (take (length u) (u ++ rest))
    front = subst (Matches r.pattern_of) (sym (take-append u rest)) h

    action :
        (m : Match) (j : ℕ) (q : Rule)
        → m.0 ≡ length u
        → j ≤ i
        → get_elem? rules j ≡ some q
        → IsMatch q (u ++ rest) m
        → m.1 ≡ r.action
    action (n, a) j q same lt f (bound, k, act) =
        act
        ∙ AllRules-get_elem? (Acts u r.action) (take (suc i) rules) j q
            (get_elem?-take {0} i j rules lt ∙ f) acts
            (subst (Matches q.pattern_of) (ap (λ t. take t (u ++ rest)) same ∙ take-append u rest)
              k)

    go : (o : Option Match) → Best rules (u ++ rest) o → o ≡ some (length u, r.action)
    go none k =
        absurd (AllRules-get_elem? (MatchesNothing (u ++ rest)) rules i r e k (length u) le front)
    go (some m) k =
        let (p, q, f, found) = Picks-IsMatch rules (u ++ rest) m k in
        let most =
          AllRules-get_elem? (AtMost m.0 (u ++ rest)) rules i r e
            (Picks-AtMost rules (u ++ rest) m k) (length u) le front in
        let short = AllRules-get_elem? (Within u rest) rules p q f within m.0 found.0 found.1 in
        let same : m.0 ≡ length u = omega arith in
        let (j, q', lt, g, picked) =
          Picks-before rules (u ++ rest) m i r k e found.0
            (subst (λ n. Matches r.pattern_of (take n (u ++ rest))) (sym same) front) in
        let act = action m j q' same lt g picked in cc
