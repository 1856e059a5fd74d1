-- ===== src/Grammar/Unescape.antt =====
-- `gdbwire_mi_unescape_cstring` of src/gdbwire_mi_grammar.y on the C strings that GDB writes.
use gdbwire.Base.{
  ℕ, ◌+◌, ◌-◌, ◌/◌, ◌%◌, ◌≡◌, refl, ap, sym, subst, ◌∙◌, Bool, true, false, ◌&&◌, ◌||◌, Bool-cases,
  inl, inr, ◌⊎◌, Option, none, some, List, [], ◌∷◌, ◌++◌, Bytes, mem_byte, ltb, ◌==◌, if◌then◌else◌,
  length, arith, Mem, Ends, all_granted, ◌≤◌,
}
use gdbwire.Grammar.{escape_of, unescape_from, unescape_cstring}
use gdbwire.Pt.{strdup}

-- The bytes that GDB writes as a backslash and a letter or sign, with that letter: `printchar` of
-- GDB, as src/gdbwire_mi_grammar.txt tells it.
abbrev letters : List (ℕ × ℕ)
letters =
    (b'"', b'"')
    ∷ (b'\\', b'\\')
    ∷ (10, b'n')
    ∷ (8, b'b')
    ∷ (9, b't')
    ∷ (12, b'f')
    ∷ (13, b'r')
    ∷ (27, b'e')
    ∷ (7, b'a')
    ∷ []

abbrev letter_among : List (ℕ × ℕ) → ℕ → Option ℕ
letter_among [] c = none
letter_among ((b, l) ∷ ps) c = if c == b then some l else letter_among ps c

abbrev is_printable : ℕ → Bool
is_printable c = ltb 31 c && ltb c 127

-- `\%.3o`
abbrev octal : ℕ → Bytes → Bytes
octal c rest = b'\\' ∷ (48 + c / 64 % 8) ∷ (48 + c / 8 % 8) ∷ (48 + c % 8) ∷ rest

-- How GDB writes a byte in a C string: with a backslash and a letter, as it is, or as octal.
abbrev pub escaped_byte : ℕ → Bytes → Bytes
escaped_byte c rest = elim (letter_among letters c) [
  | some l ↦ b'\\' ∷ l ∷ rest
  | none ↦ if is_printable c then c ∷ rest else octal c rest
]

-- The bytes of a text as GDB writes them, up to the closing quote.
abbrev pub escaped : Bytes → Bytes
escaped [] = b'"' ∷ []
escaped (c ∷ cs) = escaped_byte c (escaped cs)

-- The bytes that GDB does not write as octal.
abbrev pub is_shown : ℕ → Bool
is_shown c = is_printable c || mem_byte c (7 ∷ 8 ∷ 9 ∷ 10 ∷ 12 ∷ 13 ∷ 27 ∷ [])

-- A text as gdbwire gives it back: an octal escape stays the four characters that it is.
abbrev pub as_read : Bytes → Bytes
as_read [] = []
as_read (c ∷ cs) = if is_shown c then c ∷ as_read cs else octal c (as_read cs)

abbrev pub all_shown : Bytes → Bool
all_shown [] = true
all_shown (c ∷ cs) = is_shown c && all_shown cs

abbrev AllPairs : (ℕ → ℕ → Type 0) → List (ℕ × ℕ) → Type 0
AllPairs P [] = Unit {0}
AllPairs P ((b, l) ∷ ps) = P b l × AllPairs P ps

abbrev Stands : ℕ → ℕ → Type 0
Stands c l = (escape_of l ≡ some c) × (ltb 31 l ≡ true) × (is_shown c ≡ true)

abbrev Differs : ℕ → ℕ → ℕ → Type 0
Differs c b l = (c == b) ≡ false

letter_cases :
    (ps : List (ℕ × ℕ)) (c : ℕ)
    → AllPairs Stands ps
    → ((l : ℕ) × (letter_among ps c ≡ some l) × Stands c l)
      ⊎ ((letter_among ps c ≡ none) × AllPairs (Differs c) ps)
letter_cases [] c h = inr (refl, tt)
letter_cases ((b, l) ∷ ps) c (h, hs) = elim (Bool-cases (c == b)) [
  | inl same ↦ let e : b ≡ c = ground arith in rw same (inl (l, refl, subst (λ x. Stands x l) e h))
  | inr other ↦ rw other (elim (letter_cases ps c hs) [
    | inl found ↦ inl found
    | inr (gone, differ) ↦ inr (gone, (refl, differ))
  ])
]

letters-Stands : AllPairs Stands letters
unfolding escape_of
letters-Stands = (
  (refl, refl, refl),
  (
    (refl, refl, refl),
    (
      (refl, refl, refl),
      (
        (refl, refl, refl),
        (
          (refl, refl, refl),
          (
            (refl, refl, refl),
            ((refl, refl, refl), ((refl, refl, refl), ((refl, refl, refl), tt))),
          ),
        ),
      ),
    ),
  ),
)

abbrev IsOctalDigit : ℕ → Type 0
IsOctalDigit d = (ltb 47 d ≡ true) × (ltb d 56 ≡ true)

-- The three ways in which a byte is written.
pub data Written (c : ℕ) (rest : Bytes) : Type 0 where
  by_letter : (l : ℕ) → escaped_byte c rest ≡ b'\\' ∷ l ∷ rest → Stands c l → Written c rest
  as_itself :
      escaped_byte c rest ≡ c ∷ rest
      → (c == b'"') ≡ false
      → (c == b'\\') ≡ false
      → ltb 31 c ≡ true
      → is_shown c ≡ true
      → Written c rest
  as_octal :
      (d e f : ℕ)
      → escaped_byte c rest ≡ b'\\' ∷ d ∷ e ∷ f ∷ rest
      → (◌≡◌ {A = Bytes} (octal c []) (b'\\' ∷ d ∷ e ∷ f ∷ []))
      → IsOctalDigit d
      → IsOctalDigit e
      → IsOctalDigit f
      → is_shown c ≡ false
      → Written c rest

pub byte-Written : (c : ℕ) (rest : Bytes) → Written c rest
byte-Written c rest = elim (letter_cases letters c letters-Stands) [
  | inl (l, e, h) ↦ by_letter l (rw (escaped_byte, e) refl) h
  | inr (e, (q, (b, differ))) ↦ elim (Bool-cases (is_printable c)) [
    | inl seen ↦ as_itself (rw (escaped_byte, e, seen) refl) q b (ground arith) (rw seen refl)
    | inr hidden ↦
        as_octal (48 + c / 64 % 8) (48 + c / 8 % 8) (48 + c % 8) (rw (escaped_byte, e, hidden) refl)
          refl (digit (c / 64)) (digit (c / 8)) (digit c) (ground (arith, differ))
  ]
]
  where
    digit : (n : ℕ) → IsOctalDigit (48 + n % 8)
    digit n = (ground arith, ground arith)

-- A text never ends before its closing quote.
pub escaped-some : (t : Bytes) → (d : ℕ) × (ds : Bytes) × (escaped t ≡ d ∷ ds)
escaped-some [] = (b'"', [], refl)
escaped-some (c ∷ cs) = elim (byte-Written c (escaped cs)) [
  | by_letter l e h ↦ (b'\\', l ∷ escaped cs, e)
  | as_itself e q b k s ↦ (c, escaped cs, e)
  | as_octal d x f e o h i j s ↦ (b'\\', d ∷ x ∷ f ∷ escaped cs, e)
]

-- A byte that is no backslash is copied, where it is not the last.
unescape-plain :
    (c d : ℕ) (cs : Bytes)
    → (c == b'\\') ≡ false
    → unescape_from (c ∷ d ∷ cs) ≡ c ∷ unescape_from (d ∷ cs)
unfolding unescape_from
unescape-plain c d cs h = rw h refl

unescape-next :
    (c : ℕ) (cs : Bytes)
    → (c == b'\\') ≡ false
    → unescape_from (c ∷ escaped cs) ≡ c ∷ unescape_from (escaped cs)
unescape-next c cs h = let (d, ds, e) = escaped-some cs in rw e (unescape-plain c d ds h)

-- A letter behind a backslash is read as the byte that it stands for, and a digit is no letter.
unescape-letter :
    (c l : ℕ) (cs : Bytes)
    → escape_of l ≡ some c
    → unescape_from (b'\\' ∷ l ∷ cs) ≡ c ∷ unescape_from cs
unfolding unescape_from
unescape-letter c l cs h = rw h refl

digit-none : (d : ℕ) → IsOctalDigit d → escape_of d ≡ none
unfolding escape_of
digit-none d h = ground (arith, h)

unescape-digit :
    (d : ℕ) (cs : Bytes)
    → IsOctalDigit d
    → unescape_from (b'\\' ∷ d ∷ cs) ≡ b'\\' ∷ unescape_from (d ∷ cs)
unfolding unescape_from
unescape-digit d cs h = rw (digit-none d h) refl

unescape-octal :
    (d e f : ℕ) (cs : Bytes)
    → IsOctalDigit d
    → IsOctalDigit e
    → IsOctalDigit f
    → unescape_from (b'\\' ∷ d ∷ e ∷ f ∷ escaped cs)
      ≡ b'\\' ∷ d ∷ e ∷ f ∷ unescape_from (escaped cs)
unescape-octal d e f cs h i j =
    unescape-digit d _ h
    ∙ ap (λ x. b'\\' ∷ x) (unescape-plain d e _ (ground (arith, h)))
    ∙ ap (λ x. b'\\' ∷ d ∷ x) (unescape-plain e f _ (ground (arith, i)))
    ∙ ap (λ x. b'\\' ∷ d ∷ e ∷ x) (unescape-next f cs (ground (arith, j)))

pub unescape-escaped : (t : Bytes) → unescape_from (escaped t) ≡ as_read t
unescape-escaped [] = unfold unescape_from in refl
unescape-escaped (c ∷ cs) = elim (byte-Written c (escaped cs)) [
  | by_letter l e h ↦
      ap unescape_from e
      ∙ unescape-letter c l (escaped cs) h.0
      ∙ rw h.2 (ap (◌∷◌ c) (unescape-escaped cs))
  | as_itself e q b k s ↦
      ap unescape_from e ∙ unescape-next c cs b ∙ rw s (ap (◌∷◌ c) (unescape-escaped cs))
  | as_octal d x f e o h i j s ↦
      ap unescape_from e
      ∙ unescape-octal d x f cs h i j
      ∙ ap (λ u. b'\\' ∷ d ∷ x ∷ f ∷ u) (unescape-escaped cs)
      ∙ ap (λ u. u ++ as_read cs) (sym o)
      ∙ rw s refl
]

-- A text that GDB writes without octal is given back as it is.
pub as_read-shown : (t : Bytes) → all_shown t ≡ true → as_read t ≡ t
as_read-shown [] h = refl
as_read-shown (c ∷ cs) h =
    let first : is_shown c ≡ true = ground arith in
    rw first (ap (◌∷◌ c) (as_read-shown cs (ground arith)))

-- Reading a C string that GDB wrote gives the text back with its octal escapes as they are, for
-- every text, and so gives back every text that has none of the bytes that GDB writes as octal,
-- where no allocation is refused.
pub unescape_cstring-escaped :
    (t : Bytes) (mem : Mem)
    → all_granted mem ≡ true
    → Ends
        (λ r m. (r ≡ as_read t) × (all_shown t ≡ true → r ≡ t) × (all_granted m ≡ true))
        (unescape_cstring (b'"' ∷ escaped t) mem)
unfolding unescape_cstring strdup
unescape_cstring-escaped t [] g =
    (unescape-escaped t, λ h. unescape-escaped t ∙ as_read-shown t h, refl)
unescape_cstring-escaped t (true ∷ mem) g =
    (unescape-escaped t, λ h. unescape-escaped t ∙ as_read-shown t h, g)
unescape_cstring-escaped t (false ∷ mem) g = absurd (ground arith)

-- What the loop writes is shorter than what it reads.
unescape_from-length : (bs : Bytes) → length (unescape_from bs) ≤ length bs - 1
unfolding unescape_from
unescape_from-length [] = omega arith
unescape_from-length (c ∷ []) = omega arith
unescape_from-length (c ∷ d ∷ cs) = elim (Bool-cases (c == b'\\')) [
  | inr plain ↦ rw plain (omega (arith, unescape_from-length (d ∷ cs)))
  | inl backslash ↦
      rw backslash (go (escape_of d) (unescape_from-length cs) (unescape_from-length (d ∷ cs)))
]
  where
    go :
        (o : Option ℕ)
        → length (unescape_from cs) ≤ length cs - 1
        → length (unescape_from (d ∷ cs)) ≤ length (d ∷ cs) - 1
        → length (elim o as (λ _. Bytes) [
          | none ↦ c ∷ unescape_from (d ∷ cs)
          | some e ↦ e ∷ unescape_from cs
        ])
          ≤ length (c ∷ (d ∷ cs)) - 1
    go none h k = omega arith
    go (some e) h k = omega arith

-- Reading any text of at least two bytes returns, where no allocation is refused, and gives at
-- least two bytes less: every byte that is written, the NUL with them, is inside the copy.
pub unescape_cstring-length :
    (c d : ℕ) (cs : Bytes) (mem : Mem)
    → all_granted mem ≡ true
    → Ends
        (λ r m. (length r + 2 ≤ length (c ∷ d ∷ cs)) × (all_granted m ≡ true))
        (unescape_cstring (c ∷ d ∷ cs) mem)
unfolding unescape_cstring strdup
unescape_cstring-length c d cs [] g = (omega (arith, unescape_from-length (d ∷ cs)), refl)
unescape_cstring-length c d cs (true ∷ mem) g = (omega (arith, unescape_from-length (d ∷ cs)), g)
unescape_cstring-length c d cs (false ∷ mem) g = absurd (ground arith)
