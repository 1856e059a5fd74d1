-- ===== src/MiParser/Chunks.antt =====
-- The lines of a text that comes in two parts, and what feeding the parts does.
use gdbwire.Base.{
  ℕ, ◌≤◌, ◌≡◌, refl, ap, sym, ◌∙◌, subst, List, [], ◌∷◌, ◌++◌, Bool, true, false, ◌&&◌, Bool-cases,
  inl, inr, Bytes, ◌==◌, length, length-append, arith, GdbwireResult, gdbwire_ok, gdbwire_assert,
  gdbwire_logic, gdbwire_nomem,
}
use gdbwire.MiParser.{has_newline}
use gdbwire.MiParser.Cut.{starts_with_lf, ends_line, attach, with_line, split, joined, joined-split}
use gdbwire.MiParser.Feed.{Answer, behind_line, feed_lines, feed, pushed}
use gdbwire.MiParser.Texts.{nul_free, feed_none}

abbrev pub ends_with_cr : Bytes → Bool
ends_with_cr [] = false
ends_with_cr (c ∷ []) = c == b'\r'
ends_with_cr (c ∷ d ∷ cs) = ends_with_cr (d ∷ cs)

-- The cut between the parts is not inside a "\r\n".
abbrev pub cuts_break : Bytes → Bytes → Bool
cuts_break xs ys = ends_with_cr xs && starts_with_lf ys

ends_line-append :
    (c : ℕ) (cs ys : Bytes)
    → cuts_break (c ∷ cs) ys ≡ false
    → ends_line c (cs ++ ys) ≡ ends_line c cs
ends_line-append c [] ys h = ground arith
ends_line-append c (d ∷ cs) ys h = refl

cuts_break-tail :
    (c : ℕ) (cs ys : Bytes) → cuts_break (c ∷ cs) ys ≡ false → cuts_break cs ys ≡ false
cuts_break-tail c [] ys h = refl
cuts_break-tail c (d ∷ cs) ys h = h

-- The lines of both parts, where the second part begins with the first part's tail.
abbrev after : List Bytes × Bytes → Bytes → List Bytes × Bytes
after r ys = (r.0 ++ (split (r.1 ++ ys)).0, (split (r.1 ++ ys)).1)

attach-after :
    (c : ℕ) (cs ys : Bytes) (r : List Bytes × Bytes)
    → joined r.0 r.1 ≡ cs
    → ends_line c (cs ++ ys) ≡ false
    → attach c (after r ys) ≡ after (attach c r) ys
attach-after c cs ys ([], t) e goes =
    let same : ends_line c (t ++ ys) ≡ false = ap (λ u. ends_line c (u ++ ys)) e ∙ goes in
    rw same refl
attach-after c cs ys (l ∷ ls, t) e goes = refl

split-append : (xs ys : Bytes) → cuts_break xs ys ≡ false → split (xs ++ ys) ≡ after (split xs) ys
split-append [] ys h = refl
split-append (c ∷ cs) ys h =
    let same = ends_line-append c cs ys h in
    let rest = split-append cs ys (cuts_break-tail c cs ys h) in
    elim (Bool-cases (ends_line c cs)) [
      | inl ends ↦ rw (same, ends) (ap (with_line (c ∷ [])) rest)
      | inr goes ↦
          rw (same, goes)
            (ap (attach c) rest ∙ attach-after c cs ys (split cs) (joined-split cs) (same ∙ goes))
    ]

has_newline-append :
    (xs ys : Bytes)
    → has_newline xs ≡ false
    → has_newline ys ≡ false
    → has_newline (xs ++ ys) ≡ false
unfolding has_newline
has_newline-append [] ys h k = k
has_newline-append (c ∷ cs) ys h k =
    let rest = has_newline-append cs ys (ground arith) k in ground (arith, rest)

unfinished :
    (c : ℕ) (t : Bytes)
    → ends_line c t ≡ false
    → has_newline t ≡ false
    → has_newline (c ∷ t) ≡ false
unfolding has_newline
unfinished c [] goes h = ground arith
unfinished c (d ∷ t) goes h = ground arith

-- What stands behind the last break has no break.
pub split-rest : (bs : Bytes) → has_newline (split bs).1 ≡ false
unfolding has_newline
split-rest [] = refl
split-rest (c ∷ cs) = elim (Bool-cases (ends_line c cs)) [
  | inl ends ↦ rw ends (split-rest cs)
  | inr goes ↦ rw goes (go (split cs) (joined-split cs) goes (split-rest cs))
]
  where
    go :
        (r : List Bytes × Bytes)
        → joined r.0 r.1 ≡ cs
        → ends_line c cs ≡ false
        → has_newline r.1 ≡ false
        → has_newline (attach c r).1 ≡ false
    go ([], t) e goes h = unfinished c t (ap (ends_line c) e ∙ goes) h
    go (l ∷ ls, t) e goes h = h

-- A line that the parser accepted, then `next` or `next1`.
behind_line-ok :
    {P : Type 0} (Q : P → Type 0) (next : P → Answer P) (left : Bytes) (r : GdbwireResult × P)
    (p1 : P) (rest : Bytes)
    → ((p2 : P) → next p2 ≡ (gdbwire_ok, (p1, rest)) → Q p2)
    → behind_line next left r ≡ (gdbwire_ok, (p1, rest))
    → (r ≡ (gdbwire_ok, r.1)) × Q r.1
behind_line-ok Q next left (gdbwire_ok, p2) p1 rest go e = (refl, go p2 e)
behind_line-ok Q next left (gdbwire_assert, p2) p1 rest go e =
    absurd (ground (arith, ap (λ a. a.0) e))
behind_line-ok Q next left (gdbwire_logic, p2) p1 rest go e =
    absurd (ground (arith, ap (λ a. a.0) e))
behind_line-ok Q next left (gdbwire_nomem, p2) p1 rest go e =
    absurd (ground (arith, ap (λ a. a.0) e))

-- Feeding the lines of the first part and then the others.
feed_lines-append :
    {P : Type 0} (parse : P → Bytes → GdbwireResult × P) (ls more : List Bytes) (t tail : Bytes)
    (p p1 : P) (rest : Bytes)
    → feed_lines parse t ls p ≡ (gdbwire_ok, (p1, rest))
    → (rest ≡ t) × (feed_lines parse tail (ls ++ more) p ≡ feed_lines parse tail more p1)
feed_lines-append parse [] more t tail p p1 rest e =
    (sym (ap (λ a. a.1.1) e), ap (λ a. feed_lines parse tail more a.1.0) e)
feed_lines-append parse (l ∷ ls) more t tail p p1 rest e =
    let step =
      behind_line-ok
        (λ p2. (rest ≡ t) × (feed_lines parse tail (ls ++ more) p2 ≡ feed_lines parse tail more p1))
        (feed_lines parse t ls) (joined ls t) (parse p l) p1 rest
        (λ p2 e2. feed_lines-append parse ls more t tail p2 p1 rest e2) e in
    (
      step.1.0,
      ap (behind_line (feed_lines parse tail (ls ++ more)) (joined (ls ++ more) tail)) step.0
          ∙ step.1.1,
    )

-- What an accepted text leaves, and what may come behind it.
pub feed-rest :
    {P : Type 0} (parse : P → Bytes → GdbwireResult × P) (xs : Bytes) (p p1 : P) (rest : Bytes)
    → feed parse xs p ≡ (gdbwire_ok, (p1, rest))
    → rest ≡ (split xs).1
feed-rest parse xs p p1 rest e =
    (feed_lines-append parse (split xs).0 [] (split xs).1 [] p p1 rest e).0

pub feed-append :
    {P : Type 0} (parse : P → Bytes → GdbwireResult × P) (xs ys : Bytes) (p p1 : P) (rest : Bytes)
    → cuts_break xs ys ≡ false
    → feed parse xs p ≡ (gdbwire_ok, (p1, rest))
    → feed parse (rest ++ ys) p1 ≡ feed parse (xs ++ ys) p
feed-append parse xs ys p p1 rest h e =
    ap (λ t. feed parse (t ++ ys) p1) (feed-rest parse xs p p1 rest e)
    ∙ sym (
        (feed_lines-append parse (split xs).0 (split ((split xs).1 ++ ys)).0 (split xs).1
          (split ((split xs).1 ++ ys)).1 p p1 rest e).1)
    ∙ ap (λ r. feed_lines parse r.1 r.0 p) (sym (split-append xs ys h))

-- Where the buffer has no break, a push feeds the buffer and the new bytes.
pub pushed-feed :
    {P : Type 0} (parse : P → Bytes → GdbwireResult × P) (bs bytes : Bytes) (p : P)
    → has_newline bs ≡ false
    → pushed parse bs bytes p ≡ feed parse (bs ++ bytes) p
pushed-feed parse bs bytes p h = elim (Bool-cases (has_newline bytes)) [
  | inl br ↦ rw br refl
  | inr whole ↦
      rw whole (sym (feed_none parse (bs ++ bytes) p (has_newline-append bs bytes h whole)))
]

nul_free-behind : (xs ys : Bytes) → nul_free (xs ++ ys) ≡ true → nul_free ys ≡ true
nul_free-behind [] ys h = h
nul_free-behind (x ∷ xs) ys h = nul_free-behind xs ys (ground arith)

pub nul_free-append :
    (xs ys : Bytes) → nul_free xs ≡ true → nul_free ys ≡ true → nul_free (xs ++ ys) ≡ true
nul_free-append [] ys h k = k
nul_free-append (x ∷ xs) ys h k =
    let rest = nul_free-append xs ys (ground arith) k in ground (arith, rest)

joined-tail :
    (ls : List Bytes) (t : Bytes)
    → nul_free (joined ls t) ≡ true
    → (length t ≤ length (joined ls t)) × (nul_free t ≡ true)
joined-tail [] t h = (omega arith, h)
joined-tail (l ∷ ls) t h =
    let rest = joined-tail ls t (nul_free-behind l (joined ls t) h) in
    (omega (arith, rest.0, length-append {0} l (joined ls t)), rest.1)

-- The tail is no longer than the text, and has no NUL either.
pub split-tail_part :
    (xs : Bytes)
    → nul_free xs ≡ true
    → (length (split xs).1 ≤ length xs) × (nul_free (split xs).1 ≡ true)
split-tail_part xs h =
    subst (λ t. (length (split xs).1 ≤ length t) × (nul_free (split xs).1 ≡ true)) (joined-split xs)
      (joined-tail (split xs).0 (split xs).1 (ap nul_free (joined-split xs) ∙ h))

-- A cut behind the bytes of a buffer without a break is where the new bytes end.
pub cuts_break-behind :
    (bs xs ys : Bytes)
    → has_newline bs ≡ false
    → cuts_break xs ys ≡ false
    → cuts_break (bs ++ xs) ys ≡ false
unfolding has_newline
cuts_break-behind [] xs ys h k = k
cuts_break-behind (b ∷ []) [] ys h k = ground arith
cuts_break-behind (b ∷ []) (x ∷ xs) ys h k = k
cuts_break-behind (b ∷ c ∷ bs) xs ys h k = cuts_break-behind (c ∷ bs) xs ys (ground arith) k
