-- ===== src/Base/Numbers.antt =====
-- The C library's reading of numbers from texts: strtoul and atoi. `int` has 32 bits and
-- `unsigned long` has 64.
use Prim.Native.Nat.{ℕ, zero, suc, ◌+◌, ◌-◌, ◌*◌, ◌%◌, ◌^◌}
use mathlib.Core.Bool.{Bool, true, false, ◌&&◌, ◌||◌}
use mathlib.Core.Option.{Option, none, some}
use mathlib.Core.List.{[], ◌∷◌}
use gdbwire.Base.Tests.{ltb, leb, ◌==◌, if◌then◌else◌}
use gdbwire.Base.Text.{Bytes}

-- `negsuc n` is -(n + 1).
pub data ℤ : Type 0 where
  pos : ℕ → ℤ
  negsuc : ℕ → ℤ

abbrev pub is_digit : ℕ → Bool
is_digit c = leb b'0' c && leb c b'9'

-- `isspace` in the C locale
abbrev pub is_space : ℕ → Bool
is_space c = c == b' ' || leb 9 c && leb c 13

abbrev pub skip_space : Bytes → Bytes
skip_space [] = []
skip_space (c ∷ cs) = if is_space c then skip_space cs else c ∷ cs

-- The value of the leading digits, added to `acc`, and what follows them.
abbrev pub read_digits : ℕ → Bytes → ℕ × Bytes
read_digits acc [] = (acc, [])
read_digits acc (c ∷ cs) = elim (is_digit c) [
  | true ↦ read_digits (acc * 10 + (c - b'0')) cs
  | false ↦ (acc, c ∷ cs)
]

-- The digits that must begin with one; `none` is "no conversion".
abbrev pub read_magnitude : Bytes → Option (ℕ × Bytes)
read_magnitude [] = none
read_magnitude (c ∷ cs) = if is_digit c then some (read_digits 0 (c ∷ cs)) else none

abbrev pub signed : {A : Type 0} → Bool → Option A → Option (Bool × A)
signed negative none = none
signed negative (some a) = some (negative, a)

-- An optional sign, then digits.
abbrev pub read_signed : Bytes → Option (Bool × (ℕ × Bytes))
read_signed [] = none
read_signed (c ∷ cs) =
    if c == b'-'
    then signed true (read_magnitude cs)
    else if c == b'+'
    then signed false (read_magnitude cs)
    else signed false (read_magnitude (c ∷ cs))

abbrev pub ulong_mod : ℕ
ulong_mod = 2 ^ 64

abbrev pub int_half : ℕ
int_half = 2 ^ 31

-- `strtoul(text, &end, 10)` where it converts the whole text with errno 0.
abbrev pub whole_ulong : Option (Bool × (ℕ × Bytes)) → Option ℕ
whole_ulong (some (negative, (n, []))) =
    if ltb n ulong_mod then some (if negative then (ulong_mod - n) % ulong_mod else n) else none
whole_ulong _ = none

unfoldable pub strtoul_whole : Bytes → Option ℕ
strtoul_whole text = whole_ulong (read_signed (skip_space text))

abbrev pub negated : ℕ → ℤ
negated zero = pos 0
negated (suc n) = negsuc n

-- A number as an `int`; `none` where it is out of range.
abbrev pub as_int : Option (Bool × (ℕ × Bytes)) → Option ℤ
as_int none = some (pos 0)
as_int (some (negative, (n, rest))) =
    if negative
    then (if leb n int_half then some (negated n) else none)
    else if ltb n int_half
    then some (pos n)
    else none

-- `atoi`: 0 where there is no number, and undefined (`none`) where it is out of range.
unfoldable pub atoi : Bytes → Option ℤ
atoi text = as_int (read_signed (skip_space text))

-- The conversion of an `int` to `unsigned`.
abbrev pub to_unsigned : ℤ → ℕ
to_unsigned (pos n) = n % 2 ^ 32
to_unsigned (negsuc n) = 2 ^ 32 - 1 - n % 2 ^ 32
