-- ===== src/MiParser/Lines.antt =====
-- The lines that src/gdbwire_mi_parser.c cuts off its buffer: one line break each, at the end.
use gdbwire.Base.{
  ℕ, ◌≡◌, ◌≢◌, refl, ap, sym, ◌∙◌, subst, List, [], ◌∷◌, ◌++◌, true, false, Bool-cases, inl, inr,
  ◌⊎◌, Bytes, ◌==◌, arith, take,
}
use gdbwire.MiParser.{has_newline}
use gdbwire.MiParser.Cut.{ends_line, attach, with_line, split, line_size, split-with_line}

abbrev pub AllBytes : (ℕ → Type 0) → Bytes → Type 0
AllBytes P [] = Unit {0}
AllBytes P (c ∷ cs) = P c × AllBytes P cs

-- Neither "\n" nor "\r".
abbrev pub IsCalm : ℕ → Type 0
IsCalm c = (c ≢ b'\n') × (c ≢ b'\r')

-- A break: what ends a line.
abbrev pub IsBreak : Bytes → Type 0
IsBreak brk = (brk ≡ b'\n' ∷ []) ⊎ (brk ≡ b'\r' ∷ []) ⊎ (brk ≡ b'\r' ∷ b'\n' ∷ [])

-- A line: bytes that are no break, and a break.
pub record IsLine (l : Bytes) : Type 0 where
  pub body : Bytes
  pub brk : Bytes
  pub whole : l ≡ body ++ brk
  pub calm : AllBytes IsCalm body
  pub ended : IsBreak brk

abbrev pub AllLines : (Bytes → Type 0) → List Bytes → Type 0
AllLines P [] = Unit {0}
AllLines P (l ∷ ls) = P l × AllLines P ls

IsLine-cons : (c : ℕ) (l : Bytes) → IsCalm c → IsLine l → IsLine (c ∷ l)
IsLine-cons c l h k = record {
  body = c ∷ k.body;
  brk = k.brk;
  whole = ap (◌∷◌ c) k.whole;
  calm = (h, k.calm);
  ended = k.ended;
}

break-IsLine : (brk : Bytes) → IsBreak brk → IsLine brk
break-IsLine brk h = record { body = []; brk = brk; whole = refl; calm = tt; ended = h }

attach-AllLines :
    (c : ℕ) (r : List Bytes × Bytes)
    → IsCalm c
    → AllLines IsLine r.0
    → AllLines IsLine (attach c r).0
attach-AllLines c ([], tail) h k = tt
attach-AllLines c (l ∷ ls, tail) h k = (IsLine-cons c l h k.0, k.1)

one_break : (c : ℕ) (cs : Bytes) → ends_line c cs ≡ true → IsLine (c ∷ [])
one_break c cs h = elim (Bool-cases (c == b'\n')) [
  | inl lf ↦
      let same : c ≡ b'\n' = ground arith in break-IsLine (c ∷ []) (inl (ap (λ d. d ∷ []) same))
  | inr other ↦
      let same : c ≡ b'\r' = ground arith in
      break-IsLine (c ∷ []) (inr (inl (ap (λ d. d ∷ []) same)))
]

two_breaks : (c d : ℕ) → c ≡ b'\r' → d ≡ b'\n' → IsLine (c ∷ d ∷ [])
two_breaks c d e f =
    break-IsLine (c ∷ d ∷ []) (inr (inr (ap (λ x. x ∷ d ∷ []) e ∙ ap (λ y. b'\r' ∷ y ∷ []) f)))

split_at :
    (c : ℕ) (cs : Bytes) → ends_line c cs ≡ true → split (c ∷ cs) ≡ with_line (c ∷ []) (split cs)
split_at c cs h = rw h refl

pub split_past :
    (c : ℕ) (cs : Bytes) → ends_line c cs ≡ false → split (c ∷ cs) ≡ attach c (split cs)
split_past c cs h = rw h refl

-- Every line that is cut off a text is a line.
pub split-AllLines : (bs : Bytes) → AllLines IsLine (split bs).0
split-AllLines [] = tt
split-AllLines (c ∷ []) = elim (Bool-cases (ends_line c [])) [
  | inl ends ↦ rw ends (one_break c [] ends, tt)
  | inr goes ↦ rw goes tt
]
split-AllLines (c ∷ d ∷ ds) =
    let rest = split-AllLines (d ∷ ds) in
    let behind = split-AllLines ds in
    elim (Bool-cases (ends_line c (d ∷ ds))) [
      | inl ends ↦
          subst (λ r. AllLines IsLine r.0) (sym (split_at c (d ∷ ds) ends))
            (one_break c (d ∷ ds) ends, rest)
      | inr goes ↦
          subst (λ r. AllLines IsLine r.0) (sym (split_past c (d ∷ ds) goes))
            (elim (Bool-cases (c == b'\r')) [
              | inr calm ↦ attach-AllLines c (split (d ∷ ds)) (ground arith, ground arith) rest
              | inl cr ↦
                  let lf : ends_line d ds ≡ true = ground arith in
                  subst (λ r. AllLines IsLine (attach c r).0) (sym (split_at d ds lf))
                    (two_breaks c d (ground arith) (ground arith), behind)
            ])
    ]

-- The first line of a text is a line.
pub first_line-IsLine : (bs : Bytes) → has_newline bs ≡ true → IsLine (take (line_size bs) bs)
first_line-IsLine bs br =
    (subst (λ r. AllLines IsLine r.0) (split-with_line bs br) (split-AllLines bs)).0
