-- ===== src/MiParser/Texts.antt =====
-- Lemmas for the loop of `gdbwire_mi_parser_push_data`: texts without NUL, and one step of `feed`.
use gdbwire.Base.{
  ℕ, zero, suc, ◌≡◌, refl, ap, ◌∙◌, List, [], ◌∷◌, ◌++◌, map, some, Bool, true, false, Bytes, take,
  drop, Mem, Exec, value, stop, fault, Ends, bind_exec, arith, GdbwireResult, gdbwire_ok,
}
use gdbwire.StringBuf.{Cell, GdbwireString}
use gdbwire.StringBuf.Holds.{Holds}
use gdbwire.StringBuf.Find.{none_of}
use gdbwire.MiParser.{Caught, returned, caught, has_newline, line_text, text_at}
use gdbwire.MiParser.Cut.{line_size, split-with_line, split-tail, joined-split}
use gdbwire.MiParser.Feed.{feed, feed_lines, behind_line}

-- No byte of the text is NUL.
abbrev pub nul_free : Bytes → Bool
nul_free bs = none_of (0 ∷ []) bs

pub nul_free-take : (n : ℕ) (bs : Bytes) → nul_free bs ≡ true → nul_free (take n bs) ≡ true
nul_free-take zero bs h = refl
nul_free-take (suc n) [] h = refl
nul_free-take (suc n) (b ∷ bs) h =
    let rest = nul_free-take n bs (ground arith) in ground (arith, rest)

pub nul_free-drop : (n : ℕ) (bs : Bytes) → nul_free bs ≡ true → nul_free (drop n bs) ≡ true
nul_free-drop zero bs h = h
nul_free-drop (suc n) [] h = refl
nul_free-drop (suc n) (b ∷ bs) h = nul_free-drop n bs (ground arith)

text_at-cells :
    (l : Bytes) (rest : List Cell) (mem : Mem)
    → nul_free l ≡ true
    → text_at (map some (l ++ (0 ∷ [])) ++ rest) mem ≡ value l mem
unfolding text_at
text_at-cells [] rest mem h = refl
text_at-cells (zero ∷ l) rest mem h = absurd (ground arith)
text_at-cells (suc k ∷ l) rest mem h = rw (text_at-cells l rest mem (ground arith), bind_exec) refl

pub line_text-Holds :
    (line : GdbwireString) (l : Bytes) (mem : Mem)
    → Holds line (l ++ (0 ∷ []))
    → nul_free l ≡ true
    → line_text line mem ≡ value l mem
unfolding line_text
line_text-Holds line l mem h free = rw (h.allocated, text_at-cells l h.rest mem free) refl

pub caught-bind :
    {A B : Type 0} (P : A → Mem → Type 0) (Q : B → Mem → Type 0) (e : Exec A)
    (k : Caught A → Mem → Exec B)
    → Ends P e
    → ((a : A) (m : Mem) → P a m → Ends Q (k (returned a) m))
    → Ends Q (bind_exec (caught e) k)
caught-bind P Q (value a m) k h next = next a m h
caught-bind P Q (stop r m) k h next = absurd h
caught-bind P Q fault k h next = absurd h

-- Feeding a text is feeding its first line and then the others.
pub feed_first :
    {P : Type 0} (parse : P → Bytes → GdbwireResult × P) (bs : Bytes) (p : P)
    → has_newline bs ≡ true
    → feed parse bs p
      ≡ behind_line
          (feed parse (drop (line_size bs) bs))
          (drop (line_size bs) bs)
          (parse p (take (line_size bs) bs))
feed_first parse bs p br =
    ap (λ r. feed_lines parse r.1 r.0 p) (split-with_line bs br)
    ∙ ap
        (λ t.
          behind_line (feed parse (drop (line_size bs) bs)) t (parse p (take (line_size bs) bs)))
        (joined-split (drop (line_size bs) bs))

pub feed_none :
    {P : Type 0} (parse : P → Bytes → GdbwireResult × P) (bs : Bytes) (p : P)
    → has_newline bs ≡ false
    → feed parse bs p ≡ (gdbwire_ok, (p, bs))
feed_none parse bs p whole = ap (λ r. feed_lines parse r.1 r.0 p) (split-tail bs whole)
