-- ===== src/Lexer/Quoted.antt =====
-- What the rules of src/gdbwire_mi_lexer.l pick at a C string as GDB writes it.
use gdbwire.Base.{
  ℕ, suc, ◌+◌, ◌≡◌, refl, ap, sym, ◌∙◌, subst, List, [], ◌∷◌, ◌++◌, Bool, true, false, Option, none,
  some, inl, inr, Bytes, length, take, drop, get_elem?, arith, length-append, ◌==◌, if◌then◌else◌,
  ltb, length-take, take-append-drop, append_assoc,
}
use gdbwire.Lexer.{
  string_literal, cstring, Regex, byte, then_, either, char, on, best, rules, not_newline, is_plain,
  cstring_pattern,
}
use gdbwire.Lexer.Derivatives.{Matches, All, concat}
use gdbwire.Lexer.First.{AllRules-Flagged, Within, Acts, best-text}
use gdbwire.Lexer.Absent.{quote_flags, absent-Within, absent-Acts, byte-Within}
use gdbwire.Grammar.Unescape.{
  escaped-some, escaped_byte, escaped, by_letter, as_itself, as_octal, byte-Written,
}

-- How many bytes there are up to the closing quote; the flag is set behind a backslash.
abbrev up : Option ℕ → Option ℕ
up none = none
up (some n) = some (suc n)

abbrev closing : Bool → Bytes → Option ℕ
closing b [] = none
closing true (c ∷ cs) = up (closing false cs)
closing false (c ∷ cs) = if c == b'"' then some 1 else up (closing (c == b'\\') cs)

-- The parts of a C string: an escape of two bytes, or a plain byte.
abbrev part : Regex
part = either (then_ (char b'\\') (byte not_newline)) (byte is_plain)

closing_escape :
    (c d : ℕ) (cs : Bytes) (n : ℕ)
    → c == b'\\' ≡ true
    → closing false cs ≡ some n
    → closing false (c ∷ d ∷ cs) ≡ some (n + 2)
closing_escape c d cs n h k =
    let no_quote : c == b'"' ≡ false = ground arith in rw (no_quote, h, k) (ap some (omega arith))

closing_plain :
    (c : ℕ) (cs : Bytes) (n : ℕ)
    → is_plain c ≡ true
    → closing false cs ≡ some n
    → closing false (c ∷ cs) ≡ some (n + 1)
closing_plain c cs n h k =
    let no_quote : c == b'"' ≡ false = ground arith in
    let no_escape : c == b'\\' ≡ false = ground arith in
    rw (no_quote, no_escape, k) (ap some (omega arith))

closing-parts :
    (ls : List Bytes) (rest : Bytes)
    → All (Matches part) ls
    → closing false (concat ls ++ (b'"' ∷ rest)) ≡ some (length (concat ls) + 1)
closing-parts [] rest h = refl
closing-parts (l ∷ ls) rest (inl (u, v, e, (c, f, g), (d, f', g')), hs) =
    let two : l ≡ c ∷ d ∷ [] = e ∙ ap (λ t. t ++ v) f ∙ ap (λ t. c ∷ t) f' in
    subst
      (λ t. closing false ((t ++ concat ls) ++ (b'"' ∷ rest)) ≡ some (length (t ++ concat ls) + 1))
      (sym two)
      (closing_escape c d (concat ls ++ (b'"' ∷ rest)) _ g (closing-parts ls rest hs)
        ∙ ap some (omega arith))
closing-parts (l ∷ ls) rest (inr (c, f, g), hs) =
    subst
      (λ t. closing false ((t ++ concat ls) ++ (b'"' ∷ rest)) ≡ some (length (t ++ concat ls) + 1))
      (sym f)
      (closing_plain c (concat ls ++ (b'"' ∷ rest)) _ g (closing-parts ls rest hs)
        ∙ ap some (omega arith))

slashed : (x : ℕ) → ltb 31 x ≡ true → Matches part (b'\\' ∷ x ∷ [])
slashed x h = inl (b'\\' ∷ [], x ∷ [], refl, (b'\\', refl, refl), (x, refl, ground (arith, h)))

plain : (x : ℕ) → is_plain x ≡ true → Matches part (x ∷ [])
plain x h = inr (x, refl, h)

-- A byte as GDB writes it is one part, or the three of an octal escape.
escaped_byte-parts :
    (c : ℕ) (rest : Bytes)
    → (ls : List Bytes) × (escaped_byte c rest ≡ concat ls ++ rest) × All (Matches part) ls
escaped_byte-parts c rest = elim (byte-Written c rest) [
  | by_letter l e h ↦ ((b'\\' ∷ l ∷ []) ∷ [], e, (slashed l h.1, tt))
  | as_itself e q b k s ↦ ((c ∷ []) ∷ [], e, (plain c (ground (arith, q, b, k)), tt))
  | as_octal d x f e o h i j s ↦ (
    (b'\\' ∷ d ∷ []) ∷ (x ∷ []) ∷ (f ∷ []) ∷ [],
    e,
    (
      slashed d (ground (arith, h)),
      (plain x (ground (arith, i)), (plain f (ground (arith, j)), tt)),
    ),
  )
]

concat-append : (ls ms : List Bytes) → concat (ls ++ ms) ≡ concat ls ++ concat ms
concat-append [] ms = refl
concat-append (l ∷ ls) ms =
    ap (λ t. l ++ t) (concat-append ls ms) ∙ sym (append_assoc l (concat ls) (concat ms))

All-append : (P : Bytes → Type 0) (ls ms : List Bytes) → All P ls → All P ms → All P (ls ++ ms)
All-append P [] ms h k = k
All-append P (l ∷ ls) ms h k = (h.0, All-append P ls ms h.1 k)

escaped-parts :
    (t : Bytes) → (ls : List Bytes) × (escaped t ≡ concat ls ++ (b'"' ∷ [])) × All (Matches part) ls
escaped-parts [] = ([], refl, tt)
escaped-parts (c ∷ cs) =
    let (ls, e, h) = escaped-parts cs in
    let (ms, f, k) = escaped_byte-parts c (escaped cs) in
    (
      ms ++ ls,
      f
          ∙ ap (λ t. concat ms ++ t) e
          ∙ sym (append_assoc (concat ms) (concat ls) (b'"' ∷ []))
          ∙ ap (λ t. t ++ (b'"' ∷ [])) (sym (concat-append ms ls)),
      All-append (Matches part) ms ls k h,
    )

closing-escaped : (t rest : Bytes) → closing false (escaped t ++ rest) ≡ some (length (escaped t))
closing-escaped t rest =
    let (ls, e, h) = escaped-parts t in
    ap (λ u. closing false (u ++ rest)) e
    ∙ ap (closing false) (append_assoc (concat ls) (b'"' ∷ []) rest)
    ∙ closing-parts ls rest h
    ∙ ap some (sym (ap length e ∙ length-append {0} (concat ls) (b'"' ∷ [])))

cstring-Matches : (t : Bytes) → Matches cstring_pattern (b'"' ∷ escaped t)
cstring-Matches t =
    let (ls, e, h) = escaped-parts t in
    (
      b'"' ∷ [],
      escaped t,
      refl,
      (b'"', refl, refl),
      (concat ls, b'"' ∷ [], e, (ls, refl, h), (b'"', refl, refl)),
    )

-- No match goes past the closing quote.
cstring-Within : (t rest : Bytes) → Within (b'"' ∷ escaped t) rest (on cstring_pattern cstring)
cstring-Within t rest n le (a, v, e, (q, fq, gq), (w, z, f, (ls, g, hs), (q', fz, gz))) =
    let bs : Bytes = (b'"' ∷ escaped t) ++ rest in
    let last : z ≡ b'"' ∷ [] = let same : q' ≡ b'"' = ground arith in fz ∙ ap (λ c. c ∷ []) same in
    let whole : take n bs ≡ q ∷ (concat ls ++ (b'"' ∷ [])) =
      e
      ∙ ap (λ x. x ++ v) fq
      ∙ ap (◌∷◌ q) (f ∙ ap (λ x. x ++ z) g ∙ ap (λ x. concat ls ++ x) last) in
    let behind : escaped t ++ rest ≡ (concat ls ++ (b'"' ∷ [])) ++ drop n bs =
      same_tail (sym (take-append-drop n bs) ∙ ap (λ x. x ++ drop n bs) whole) in
    let count : some (length (escaped t)) ≡ some (length (concat ls) + 1) =
      sym (closing-escaped t rest)
      ∙ ap (closing false) (behind ∙ append_assoc (concat ls) (b'"' ∷ []) (drop n bs))
      ∙ closing-parts ls (drop n bs) hs in
    let counted : length (escaped t) ≡ length (concat ls) + 1 = cc in
    omega (
      arith,
      length-take {0} n bs,
      ap length whole,
      length-append {0} (concat ls) (b'"' ∷ []),
      counted,
    )
  where
    same_tail : {x y : ℕ} {xs ys : Bytes} → ◌≡◌ {A = Bytes} (x ∷ xs) (y ∷ ys) → xs ≡ ys
    same_tail e = cc

-- A C string has two quotes.
long : (t : Bytes) → Acts (b'"' ∷ escaped t) (some cstring) (on (byte not_newline) string_literal)
long t (c, e, h) = let (d, ds, f) = escaped-some t in absurd (ground arith)

cstring_at : get_elem? rules 21 ≡ some (on cstring_pattern cstring)
unfolding rules
cstring_at = refl

-- A C string is picked whole, whatever follows.
pub best-cstring :
    (t rest : Bytes)
    → best rules ((b'"' ∷ escaped t) ++ rest) ≡ some (length (b'"' ∷ escaped t), some cstring)
unfolding rules
best-cstring t rest =
    best-text (b'"' ∷ escaped t) rest 21 (on cstring_pattern cstring) cstring_at (cstring-Matches t)
      (AllRules-Flagged (Within (b'"' ∷ escaped t) rest) b'"' rules _
        (absent-Within b'"' (escaped t) rest) quote_flags
        (
          byte-Within b'"' (escaped t) rest not_newline (some string_literal),
          (cstring-Within t rest, tt),
        ))
      (AllRules-Flagged (Acts (b'"' ∷ escaped t) (some cstring)) b'"' rules _
        (absent-Acts b'"' (escaped t) (some cstring)) quote_flags (long t, (λ k. refl, tt)))
