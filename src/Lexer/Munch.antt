-- ===== src/Lexer/Munch.antt =====
-- The lexer takes the longest match, and of the rules that match as much the first; its matches
-- cover the line.
use gdbwire.Base.{
  ℕ, zero, suc, ◌+◌, ◌≤◌, ◌<◌, ◌≡◌, refl, ap, sym, ◌∙◌, subst, List, [], ◌∷◌, ◌++◌, Bool, true,
  false, ◌&&◌, not, Bool-cases, Option, none, some, Option-cases, inl, inr, ◌⊎◌, Bytes, length,
  take, drop, get_elem?, length-drop, take-append-drop, arith, ltb, ◌==◌,
}
use gdbwire.Lexer.{
  byte, char, on, newline, string_literal, Rule, Match, Piece, nullable, longest, better, best,
  rules, piece, pieces, not_newline,
}
use gdbwire.Lexer.Patterns.{LongestIs, longest-LongestIs}
use gdbwire.Lexer.Derivatives.{Matches, nullable_complete}

-- Every text at the front of `bs` that the rule matches has at most `n` bytes.
abbrev pub AtMost : ℕ → Bytes → Rule → Type 0
AtMost n bs r = (k : ℕ) → k ≤ length bs → Matches r.pattern_of (take k bs) → k ≤ n

abbrev pub MatchesNothing : Bytes → Rule → Type 0
MatchesNothing bs r = (k : ℕ) → k ≤ length bs → Matches r.pattern_of (take k bs) → ⊥

abbrev pub AllRules : (Rule → Type 0) → List Rule → Type 0
AllRules P [] = Unit {0}
AllRules P (r ∷ rs) = P r × AllRules P rs

-- The match is of the rule: its action, on a text at the front that its pattern matches.
abbrev pub IsMatch : Rule → Bytes → Match → Type 0
IsMatch r bs (n, action) = (n ≤ length bs) × Matches r.pattern_of (take n bs) × (action ≡ r.action)

-- The match is of one of the rules; those above it match less, and those below it no more.
abbrev pub Picks : List Rule → Bytes → Match → Type 0
Picks [] bs m = ⊥
Picks (r ∷ rs) bs m =
    (IsMatch r bs m × AllRules (AtMost m.0 bs) (r ∷ rs))
    ⊎ (((k : ℕ) → k ≤ length bs → Matches r.pattern_of (take k bs) → k < m.0) × Picks rs bs m)

abbrev pub Best : List Rule → Bytes → Option Match → Type 0
Best rs bs none = AllRules (MatchesNothing bs) rs
Best rs bs (some m) = Picks rs bs m

AllRules-map :
    (P Q : Rule → Type 0) (rs : List Rule)
    → ((r : Rule) → P r → Q r)
    → AllRules P rs
    → AllRules Q rs
AllRules-map P Q [] f h = tt
AllRules-map P Q (r ∷ rs) f h = (f r h.0, AllRules-map P Q rs f h.1)

pub AllRules-get_elem? :
    (P : Rule → Type 0) (rs : List Rule) (i : ℕ) (r : Rule)
    → get_elem? rs i ≡ some r
    → AllRules P rs
    → P r
AllRules-get_elem? P [] i r e h = absurd (ground arith)
AllRules-get_elem? P (r' ∷ rs) zero r e h = subst P (ground arith) h.0
AllRules-get_elem? P (r' ∷ rs) (suc i) r e h = AllRules-get_elem? P rs i r e h.1

pub Picks-AtMost :
    (rs : List Rule) (bs : Bytes) (m : Match) → Picks rs bs m → AllRules (AtMost m.0 bs) rs
Picks-AtMost [] bs m h = tt
Picks-AtMost (r ∷ rs) bs m (inl (h, below)) = below
Picks-AtMost (r ∷ rs) bs m (inr (less, h)) =
    (λ k le q. omega (arith, less k le q), Picks-AtMost rs bs m h)

better_is :
    (r : Rule) (rs : List Rule) (bs : Bytes) (o : Option ℕ) (b : Option Match)
    → LongestIs r.pattern_of bs o
    → Best rs bs b
    → Best (r ∷ rs) bs (better (elim o [ none ↦ none | some n ↦ some (n, r.action) ]) b)
better_is r rs bs none none h k = (h, k)
better_is r rs bs none (some m) h k = inr (λ i le q. absurd (h i le q), k)
better_is r rs bs (some n) none (le, h, most) k = inl (
  (le, h, refl),
  (most, AllRules-map (MatchesNothing bs) (AtMost n bs) rs (λ r' f i l q. absurd (f i l q)) k),
)
better_is r rs bs (some n) (some m) (le, h, most) k = elim (Bool-cases (ltb n m.0)) [
  | inl less ↦ rw less (inr (λ i l q. ground (arith, most i l q), k))
  | inr more ↦ rw more (
      inl (
        (le, h, refl),
        (
          most,
          AllRules-map (AtMost m.0 bs) (AtMost n bs) rs (λ r' f i l q. ground (arith, f i l q))
              (Picks-AtMost rs bs m k),
        ),
      ))
]

pub best-Best : (rs : List Rule) (bs : Bytes) → Best rs bs (best rs bs)
unfolding best
best-Best [] bs = tt
best-Best (r ∷ rs) bs =
    better_is r rs bs (longest r.pattern_of bs) (best rs bs) (longest-LongestIs r.pattern_of bs)
      (best-Best rs bs)

-- The match as it was found.
pub Picks-IsMatch :
    (rs : List Rule) (bs : Bytes) (m : Match)
    → Picks rs bs m
    → (i : ℕ) × (r : Rule) × (get_elem? rs i ≡ some r) × IsMatch r bs m
Picks-IsMatch [] bs m h = absurd h
Picks-IsMatch (r ∷ rs) bs m (inl (h, below)) = (0, r, refl, h)
Picks-IsMatch (r ∷ rs) bs m (inr (less, h)) =
    let (i, r', e, k) = Picks-IsMatch rs bs m h in (suc i, r', e, k)

abbrev all_solid : List Rule → Bool
all_solid [] = true
all_solid (r ∷ rs) = not (nullable r.pattern_of) && all_solid rs

rules_solid : all_solid rules ≡ true
unfolding rules nullable
rules_solid = refl

solid_at :
    (rs : List Rule) (i : ℕ) (r : Rule)
    → all_solid rs ≡ true
    → get_elem? rs i ≡ some r
    → nullable r.pattern_of ≡ false
solid_at [] i r h e = absurd (ground arith)
solid_at (r' ∷ rs) zero r h e =
    let same : r' ≡ r = ground arith in
    subst (λ (q : Rule). nullable q.pattern_of ≡ false) same (ground arith)
solid_at (r' ∷ rs) (suc i) r h e = solid_at rs i r (ground arith) e

-- No rule matches the empty text.
pub Picks-pos : (bs : Bytes) (m : Match) → Picks rules bs m → 0 < m.0
Picks-pos bs (n, a) h = go n (Picks-IsMatch rules bs (n, a) h)
  where
    go : (n : ℕ) → (i : ℕ) × (r : Rule) × (get_elem? rules i ≡ some r) × IsMatch r bs (n, a) → 0 < n
    go zero (i, r, e, (le, k, f)) =
        let null = nullable_complete r.pattern_of k in
        let solid = solid_at rules i r rules_solid e in absurd (ground arith)
    go (suc n) x = omega arith

newline_at : get_elem? rules 14 ≡ some (on (char b'\n') newline)
unfolding rules
newline_at = refl

any_at : get_elem? rules 20 ≡ some (on (byte not_newline) string_literal)
unfolding rules
any_at = refl

-- Some rule matches at every byte: a line break by its rule, and any other byte by the last but
-- one.
pub best-some : (c : ℕ) (cs : Bytes) → (m : Match) × (best rules (c ∷ cs) ≡ some m)
best-some c cs = elim (Option-cases (best rules (c ∷ cs))) [
  | inr found ↦ found
  | inl none_at ↦
      let nothing = subst (λ o. Best rules (c ∷ cs) o) none_at (best-Best rules (c ∷ cs)) in
      absurd (elim (Bool-cases (c == b'\n')) [
        | inl lf ↦
            AllRules-get_elem? (MatchesNothing (c ∷ cs)) rules 14 (on (char b'\n') newline)
              newline_at nothing 1 (omega arith) (c, refl, lf)
        | inr other ↦
            AllRules-get_elem? (MatchesNothing (c ∷ cs)) rules 20
              (on (byte not_newline) string_literal) any_at nothing 1 (omega arith)
              (c, refl, ground arith)
      ])
]

-- The pieces cover the text from the column on: each is the match that the rules pick, has at least
-- one byte, begins at its column, and ends at the column of its last byte.
abbrev pub Tiles : ℕ → Bytes → List Piece → Type 0
Tiles column bs [] = bs ≡ []
Tiles column bs (p ∷ ps) =
    (n : ℕ) × (0 < n)
    × Picks rules bs (n, p.action)
    × (p.text ≡ take n bs)
    × (p.position.start_column ≡ column)
    × (p.position.end_column + 1 ≡ column + n)
    × Tiles (column + n) (drop n bs) ps

pub pieces_step :
    (fuel column c : ℕ) (cs : Bytes) (m : Match)
    → best rules (c ∷ cs) ≡ some m
    → pieces (suc fuel) column (c ∷ cs)
      ≡ piece column m (c ∷ cs) ∷ pieces fuel (column + m.0) (drop m.0 (c ∷ cs))
unfolding pieces
pieces_step fuel column c cs m e = rw (e, pieces) refl

pub pieces-Tiles :
    (fuel column : ℕ) (bs : Bytes) → length bs ≤ fuel → Tiles column bs (pieces fuel column bs)
unfolding pieces
pieces-Tiles zero column [] h = refl
pieces-Tiles zero column (c ∷ cs) h = absurd (omega arith)
pieces-Tiles (suc fuel) column [] h = refl
pieces-Tiles (suc fuel) column (c ∷ cs) h =
    let (m, e) = best-some c cs in
    let picked = subst (λ o. Best rules (c ∷ cs) o) e (best-Best rules (c ∷ cs)) in
    let some_byte = Picks-pos (c ∷ cs) m picked in
    subst (Tiles column (c ∷ cs)) (sym (pieces_step fuel column c cs m e)) (
      m.0,
      some_byte,
      picked,
      refl,
      refl,
      omega (arith, some_byte),
      pieces-Tiles fuel (column + m.0) (drop m.0 (c ∷ cs))
          (omega (arith, length-drop {0} m.0 (c ∷ cs))),
    )

abbrev pub texts : List Piece → Bytes
texts [] = []
texts (p ∷ ps) = p.text ++ texts ps

-- No byte is lost between the pieces.
pub Tiles-texts : (column : ℕ) (bs : Bytes) (ps : List Piece) → Tiles column bs ps → texts ps ≡ bs
Tiles-texts column bs [] h = sym h
Tiles-texts column bs (p ∷ ps) (n, some_byte, picked, e, from, to, h) =
    ap (λ t. t ++ texts ps) e
    ∙ ap (λ t. take n bs ++ t) (Tiles-texts (column + n) (drop n bs) ps h)
    ∙ take-append-drop n bs

-- Lexing a line ends within its fuel: the matches cover the line, with no byte lost, from column 1
-- on; each takes at least one byte and is the longest that any rule has there, of the first rule
-- that has it, and has the columns of its first and its last byte.
pub line-Tiles :
    (line : Bytes)
    → Tiles 1 line (pieces (length line) 1 line) × (texts (pieces (length line) 1 line) ≡ line)
line-Tiles line =
    let tiles = pieces-Tiles (length line) 1 line (omega arith) in
    (tiles, Tiles-texts 1 line (pieces (length line) 1 line) tiles)
