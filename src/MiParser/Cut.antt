-- ===== src/MiParser/Cut.antt =====
-- The lines of a text, as src/gdbwire_mi_parser.c cuts them: a line ends behind "\n", "\r" or
-- "\r\n".
use gdbwire.Base.{
  ℕ, suc, ◌+◌, ◌<◌, ◌≡◌, refl, ap, ◌∙◌, List, [], ◌∷◌, ◌++◌, Bool, true, false, not, ◌&&◌, ◌||◌,
  Bool-cases, inl, inr, Bytes, ◌==◌, if◌then◌else◌, length, take, drop, arith,
}
use gdbwire.MiParser.{has_newline, line_breaks}
use gdbwire.StringBuf.Find.{first_of}

abbrev pub starts_with_lf : Bytes → Bool
starts_with_lf [] = false
starts_with_lf (c ∷ cs) = c == b'\n'

-- Does a line end behind `c`, where `cs` follows?
abbrev pub ends_line : ℕ → Bytes → Bool
ends_line c cs = c == b'\n' || c == b'\r' && not (starts_with_lf cs)

-- One more byte in front of the first line.
abbrev pub attach : ℕ → List Bytes × Bytes → List Bytes × Bytes
attach c ([], tail) = ([], c ∷ tail)
attach c (l ∷ ls, tail) = ((c ∷ l) ∷ ls, tail)

abbrev pub with_line : Bytes → List Bytes × Bytes → List Bytes × Bytes
with_line l r = (l ∷ r.0, r.1)

-- The lines of a text, each with its break, and what stands behind the last break.
abbrev pub split : Bytes → List Bytes × Bytes
split [] = ([], [])
split (c ∷ cs) = if ends_line c cs then with_line (c ∷ []) (split cs) else attach c (split cs)

-- The length of the first line.
abbrev pub line_size : Bytes → ℕ
line_size [] = 0
line_size (c ∷ cs) = if ends_line c cs then 1 else suc (line_size cs)

attach-with_line :
    (c : ℕ) (l : Bytes) (r : List Bytes × Bytes) → attach c (with_line l r) ≡ with_line (c ∷ l) r
attach-with_line c l (ls, tail) = refl

-- Behind a byte that ends no line the text still has its break.
inner_newline :
    (c : ℕ) (cs : Bytes)
    → ends_line c cs ≡ false
    → has_newline (c ∷ cs) ≡ true
    → has_newline cs ≡ true
unfolding has_newline
inner_newline c [] e h = absurd (ground arith)
inner_newline c (d ∷ cs) e h = ground arith

-- The first line is taken off the text.
pub split-with_line :
    (bs : Bytes)
    → has_newline bs ≡ true
    → split bs ≡ with_line (take (line_size bs) bs) (split (drop (line_size bs) bs))
unfolding has_newline
split-with_line [] h = absurd (ground arith)
split-with_line (c ∷ cs) h = elim (Bool-cases (ends_line c cs)) [
  | inl ends ↦ rw ends refl
  | inr goes ↦ rw goes (
      ap (attach c) (split-with_line cs (inner_newline c cs goes h))
      ∙ attach-with_line c (take (line_size cs) cs) (split (drop (line_size cs) cs)))
]

-- A text without a break is one unfinished line.
pub split-tail : (bs : Bytes) → has_newline bs ≡ false → split bs ≡ ([], bs)
unfolding has_newline
split-tail [] h = refl
split-tail (c ∷ cs) h =
    let goes : ends_line c cs ≡ false = ground arith in
    rw goes (ap (attach c) (split-tail cs (ground arith)))

pub line_size_bounds :
    (bs : Bytes) → has_newline bs ≡ true → (0 < line_size bs) × (line_size bs < length bs + 1)
unfolding has_newline
line_size_bounds [] h = absurd (ground arith)
line_size_bounds (c ∷ cs) h = elim (Bool-cases (ends_line c cs)) [
  | inl ends ↦ rw ends (omega arith, omega arith)
  | inr goes ↦
      let rest = line_size_bounds cs (inner_newline c cs goes h) in
      rw goes (omega arith, omega (arith, rest))
]

-- The search for a break finds one exactly where there is one.
pub first_of-has_newline :
    (bs : Bytes) → has_newline bs ≡ true → first_of line_breaks bs < length bs
unfolding has_newline
first_of-has_newline [] h = absurd (ground arith)
first_of-has_newline (c ∷ cs) h = elim (Bool-cases (has_newline cs)) [
  | inl more ↦ let rest = first_of-has_newline cs more in ground (arith, rest)
  | inr last ↦ ground arith
]

pub first_of-no_newline :
    (bs : Bytes) → has_newline bs ≡ false → first_of line_breaks bs ≡ length bs
unfolding has_newline
first_of-no_newline [] h = refl
first_of-no_newline (c ∷ cs) h =
    let rest = first_of-no_newline cs (ground arith) in ground (arith, rest)

-- The text of which these are the lines and the tail.
abbrev pub joined : List Bytes → Bytes → Bytes
joined [] tail = tail
joined (l ∷ ls) tail = l ++ joined ls tail

joined-attach :
    (c : ℕ) (r : List Bytes × Bytes) → joined (attach c r).0 (attach c r).1 ≡ c ∷ joined r.0 r.1
joined-attach c ([], tail) = refl
joined-attach c (l ∷ ls, tail) = refl

-- Cutting a text into lines loses nothing.
pub joined-split : (bs : Bytes) → joined (split bs).0 (split bs).1 ≡ bs
joined-split [] = refl
joined-split (c ∷ cs) = elim (Bool-cases (ends_line c cs)) [
  | inl ends ↦ rw ends (ap (◌∷◌ c) (joined-split cs))
  | inr goes ↦ rw goes (joined-attach c (split cs) ∙ ap (◌∷◌ c) (joined-split cs))
]
