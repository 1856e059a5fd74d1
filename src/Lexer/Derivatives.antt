-- ===== src/Lexer/Derivatives.antt =====
-- What a pattern means, and what is left of it behind a byte.
use gdbwire.Base.{
  ℕ, ◌≡◌, refl, ap, sym, ◌∙◌, subst, List, [], ◌∷◌, ◌++◌, Bool, true, false, Bool-cases, inl, inr,
  ◌⊎◌, Bytes, arith,
}
use gdbwire.Lexer.{
  Regex, never, empty, byte, then_, either, many, nullable, deriv, join_then, join_either,
}

abbrev pub All : (Bytes → Type 0) → List Bytes → Type 0
All P [] = Unit {0}
All P (x ∷ xs) = P x × All P xs

abbrev pub concat : List Bytes → Bytes
concat [] = []
concat (x ∷ xs) = x ++ concat xs

-- The pattern matches exactly this text.
abbrev pub Matches : Regex → Bytes → Type 0
Matches never s = ⊥
Matches empty s = s ≡ []
Matches (byte p) s = (c : ℕ) × (s ≡ c ∷ []) × (p c ≡ true)
Matches (then_ r t) s = (u : Bytes) × (v : Bytes) × (s ≡ u ++ v) × Matches r u × Matches t v
Matches (either r t) s = Matches r s ⊎ Matches t s
Matches (many r) s = (ls : List Bytes) × (s ≡ concat ls) × All (Matches r) ls

-- The pattern matches the empty text where `nullable` says so.
pub nullable_sound : (r : Regex) → nullable r ≡ true → Matches r []
unfolding nullable
nullable_sound never h = absurd (ground arith)
nullable_sound empty h = refl
nullable_sound (byte p) h = absurd (ground arith)
nullable_sound (then_ r t) h =
    ([], [], refl, nullable_sound r (ground arith), nullable_sound t (ground arith))
nullable_sound (either r t) h = elim (Bool-cases (nullable r)) [
  | inl left ↦ inl (nullable_sound r left)
  | inr right ↦ inr (nullable_sound t (ground arith))
]
nullable_sound (many r) h = ([], refl, tt)

nil-append : (u v : Bytes) → [] ≡ u ++ v → (u ≡ []) × (v ≡ [])
nil-append [] v e = (refl, sym e)
nil-append (x ∷ u) v e = absurd (ground arith)

pub nullable_complete : (r : Regex) → Matches r [] → nullable r ≡ true
unfolding nullable
nullable_complete never h = absurd h
nullable_complete empty h = refl
nullable_complete (byte p) (c, e, h) = absurd (ground arith)
nullable_complete (then_ r t) (u, v, e, h, k) =
    let (f, g) = nil-append u v e in
    rw (nullable_complete r (subst (Matches r) f h), nullable_complete t (subst (Matches t) g k))
      refl
nullable_complete (either r t) (inl h) = rw (nullable_complete r h) refl
nullable_complete (either r t) (inr h) = let right = nullable_complete t h in ground (arith, right)
nullable_complete (many r) h = refl

join_then_from : (r t : Regex) (s : Bytes) → Matches (join_then r t) s → Matches (then_ r t) s
join_then_from never t s h = absurd h
join_then_from empty t s h = h
join_then_from (byte p) t s h = h
join_then_from (then_ a b) t s h = h
join_then_from (either a b) t s h = h
join_then_from (many a) t s h = h

join_then_to : (r t : Regex) (s : Bytes) → Matches (then_ r t) s → Matches (join_then r t) s
join_then_to never t s h = absurd h.3
join_then_to empty t s h = h
join_then_to (byte p) t s h = h
join_then_to (then_ a b) t s h = h
join_then_to (either a b) t s h = h
join_then_to (many a) t s h = h

join_either_from : (r t : Regex) (s : Bytes) → Matches (join_either r t) s → Matches (either r t) s
join_either_from never t s h = inr h
join_either_from empty t s h = h
join_either_from (byte p) t s h = h
join_either_from (then_ a b) t s h = h
join_either_from (either a b) t s h = h
join_either_from (many a) t s h = h

join_either_to : (r t : Regex) (s : Bytes) → Matches (either r t) s → Matches (join_either r t) s
join_either_to never t s (inl h) = absurd h
join_either_to never t s (inr h) = h
join_either_to empty t s h = h
join_either_to (byte p) t s h = h
join_either_to (then_ a b) t s h = h
join_either_to (either a b) t s h = h
join_either_to (many a) t s h = h

deriv-then_null :
    (r t : Regex) (c : ℕ)
    → nullable r ≡ true
    → deriv c (then_ r t) ≡ join_either (join_then (deriv c r) t) (deriv c t)
unfolding deriv
deriv-then_null r t c h = rw (h, deriv) refl

deriv-then_solid :
    (r t : Regex) (c : ℕ) → nullable r ≡ false → deriv c (then_ r t) ≡ join_then (deriv c r) t
unfolding deriv
deriv-then_solid r t c h = rw (h, deriv) refl

then_cons :
    (r t : Regex) (c : ℕ) (s : Bytes)
    → ((u : Bytes) → Matches (deriv c r) u → Matches r (c ∷ u))
    → Matches (join_then (deriv c r) t) s
    → Matches (then_ r t) (c ∷ s)
then_cons r t c s ih h =
    let (u, v, e, h1, h2) = join_then_from (deriv c r) t s h in
    (c ∷ u, v, ap (◌∷◌ c) e, ih u h1, h2)

deriv-byte_hit : (p : ℕ → Bool) (c : ℕ) → p c ≡ true → deriv c (byte p) ≡ empty
unfolding deriv
deriv-byte_hit p c h = rw h refl

deriv-byte_miss : (p : ℕ → Bool) (c : ℕ) → p c ≡ false → deriv c (byte p) ≡ never
unfolding deriv
deriv-byte_miss p c h = rw h refl

deriv_byte_sound :
    (p : ℕ → Bool) (c : ℕ) (s : Bytes) → Matches (deriv c (byte p)) s → Matches (byte p) (c ∷ s)
deriv_byte_sound p c s h = elim (Bool-cases (p c)) [
  | inl hit ↦ (c, ap (◌∷◌ c) (subst (λ d. Matches d s) (deriv-byte_hit p c hit) h), hit)
  | inr miss ↦ absurd (subst (λ d. Matches d s) (deriv-byte_miss p c miss) h)
]

-- What the derivative matches, with the byte in front, the pattern matches.
pub deriv_sound : (r : Regex) (c : ℕ) (s : Bytes) → Matches (deriv c r) s → Matches r (c ∷ s)
deriv_sound never c s h = absurd (unfold deriv in h)
deriv_sound empty c s h = absurd (unfold deriv in h)
deriv_sound (byte p) c s h = deriv_byte_sound p c s h
deriv_sound (then_ r t) c s h = elim (Bool-cases (nullable r)) [
  | inr solid ↦
      then_cons r t c s (λ u k. deriv_sound r c u k)
        (subst (λ d. Matches d s) (deriv-then_solid r t c solid) h)
  | inl null ↦
      elim (join_either_from (join_then (deriv c r) t) (deriv c t) s
        (subst (λ d. Matches d s) (deriv-then_null r t c null) h)) [
          | inl k ↦ then_cons r t c s (λ u k. deriv_sound r c u k) k
          | inr k ↦ ([], c ∷ s, refl, nullable_sound r null, deriv_sound t c s k)
        ]
]
deriv_sound (either r t) c s h =
    elim (join_either_from (deriv c r) (deriv c t) s (unfold deriv in h)) [
      | inl k ↦ inl (deriv_sound r c s k)
      | inr k ↦ inr (deriv_sound t c s k)
    ]
deriv_sound (many r) c s h =
    let (u, v, e, h1, (ls, f, h2)) = join_then_from (deriv c r) (many r) s (unfold deriv in h) in
    ((c ∷ u) ∷ ls, ap (◌∷◌ c) (e ∙ ap (λ w. u ++ w) f), (deriv_sound r c u h1, h2))

cons_parts : (c x : ℕ) (s u : Bytes) → ◌≡◌ {A = Bytes} (c ∷ s) (x ∷ u) → (c ≡ x) × (s ≡ u)
cons_parts c x s u e = (ground arith, ground arith)

then_uncons :
    (r t : Regex) (c : ℕ) (s : Bytes)
    → ((u : Bytes) → Matches r (c ∷ u) → Matches (deriv c r) u)
    → ((u : Bytes) → Matches t (c ∷ u) → Matches (deriv c t) u)
    → Matches (then_ r t) (c ∷ s)
    → Matches (deriv c (then_ r t)) s
then_uncons r t c s ih1 ih2 ([], v, e, h1, h2) =
    let null = nullable_complete r h1 in
    subst (λ d. Matches d s) (sym (deriv-then_null r t c null))
      (join_either_to (join_then (deriv c r) t) (deriv c t) s
        (inr (ih2 s (subst (Matches t) (sym e) h2))))
then_uncons r t c s ih1 ih2 (x ∷ u, v, e, h1, h2) =
    let (same, rest) = cons_parts c x s (u ++ v) e in
    let inner =
      join_then_to (deriv c r) t s
        (u, v, rest, ih1 u (subst (λ d. Matches r (d ∷ u)) (sym same) h1), h2) in
    elim (Bool-cases (nullable r)) [
      | inl null ↦
          subst (λ d. Matches d s) (sym (deriv-then_null r t c null))
            (join_either_to (join_then (deriv c r) t) (deriv c t) s (inl inner))
      | inr solid ↦ subst (λ d. Matches d s) (sym (deriv-then_solid r t c solid)) inner
    ]

many_uncons :
    (r : Regex) (c : ℕ) (s : Bytes) (ls : List Bytes)
    → ((u : Bytes) → Matches r (c ∷ u) → Matches (deriv c r) u)
    → c ∷ s ≡ concat ls
    → All (Matches r) ls
    → Matches (then_ (deriv c r) (many r)) s
many_uncons r c s [] ih e h = absurd (ground arith)
many_uncons r c s ([] ∷ ls) ih e h = many_uncons r c s ls ih e h.1
many_uncons r c s ((x ∷ u) ∷ ls) ih e h =
    let (same, rest) = cons_parts c x s (u ++ concat ls) e in
    (u, concat ls, rest, ih u (subst (λ d. Matches r (d ∷ u)) (sym same) h.0), (ls, refl, h.1))

deriv-many :
    (r : Regex) (c : ℕ) (s : Bytes)
    → Matches (then_ (deriv c r) (many r)) s
    → Matches (deriv c (many r)) s
unfolding deriv
deriv-many r c s h = join_then_to (deriv c r) (many r) s h

either_uncons :
    (r t : Regex) (c : ℕ) (s : Bytes)
    → Matches (deriv c r) s ⊎ Matches (deriv c t) s
    → Matches (deriv c (either r t)) s
unfolding deriv
either_uncons r t c s h = join_either_to (deriv c r) (deriv c t) s h

pub deriv_complete : (r : Regex) (c : ℕ) (s : Bytes) → Matches r (c ∷ s) → Matches (deriv c r) s
deriv_complete never c s h = absurd h
deriv_complete empty c s h = absurd (ground arith)
deriv_complete (byte p) c s (x, e, h) =
    let (same, rest) = cons_parts c x s [] e in
    subst (λ d. Matches d s) (sym (deriv-byte_hit p c (rw same h))) rest
deriv_complete (then_ r t) c s h =
    then_uncons r t c s (λ u k. deriv_complete r c u k) (λ u k. deriv_complete t c u k) h
deriv_complete (either r t) c s (inl h) = either_uncons r t c s (inl (deriv_complete r c s h))
deriv_complete (either r t) c s (inr h) = either_uncons r t c s (inr (deriv_complete t c s h))
deriv_complete (many r) c s (ls, e, h) =
    deriv-many r c s (many_uncons r c s ls (λ u k. deriv_complete r c u k) e h)
