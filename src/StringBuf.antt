-- ===== src/StringBuf.antt =====
-- src/gdbwire_string.c: the growing byte buffer.
-- `data` is the allocation: `none` is the NULL pointer, and a cell that was never written is `none`.
-- A read of such a cell, a read or write outside the allocation and any access through NULL are
-- undefined behaviour (`undefined`). Pointers that may be NULL are options; where the C code calls
-- a function with pointers that it has just tested, the model calls the function's body.
pub mod Holds
pub mod Append
pub mod Create
pub mod Erase
pub mod Find
pub mod Faults
use gdbwire.Base.{
  ℕ, zero, suc, ◌+◌, ◌-◌, ◌*◌, ◌^◌, ◌%◌, Bool, true, false, List, [], ◌∷◌, ◌++◌, Option, none, some,
  Bytes, mem_byte, ltb, leb, ◌==◌, if◌then◌else◌, length, get_elem?, set, take, replicate, M, pure,
  undefined, allocate, ◌>>=◌, codes,
}

-- 0 and -1, as the functions return them
pub data Status : Type 0 where
  succeeded failed : Status

abbrev pub Cell : Type 0
Cell = Option ℕ

-- `struct gdbwire_string`
pub record GdbwireString : Type 0 where
  pub contents : Option (List Cell)
  pub size : ℕ
  pub capacity : ℕ

-- the range of `size_t`, and its arithmetic
abbrev pub size_mod : ℕ
size_mod = 2 ^ 64

abbrev pub add_size : ℕ → ℕ → ℕ
add_size a b = (a + b) % size_mod

abbrev pub sub_size : ℕ → ℕ → ℕ
sub_size a b = (a + size_mod - b) % size_mod

-- `p[i]` as a value
unfoldable pub load : Option (List Cell) → ℕ → M ℕ
load none i = undefined
load (some cells) i = elim (get_elem? cells i) [
  | none ↦ undefined
  | some c ↦ elim c [ none ↦ undefined | some b ↦ pure b ]
]

-- `p[i] = v`
unfoldable pub store : Option (List Cell) → ℕ → ℕ → M (Option (List Cell))
store none i v = undefined
store (some cells) i v =
    if ltb i (length cells) then pure (some (set cells i (some v))) else undefined

-- `realloc(p, n)`: the old bytes up to the new length, then bytes that hold no value.
abbrev pub resized : List Cell → ℕ → List Cell
resized cells n = take n cells ++ replicate (n - length cells) none

abbrev pub cells_of : Option (List Cell) → List Cell
cells_of none = []
cells_of (some cells) = cells

unfoldable pub realloc : Option (List Cell) → ℕ → M (Option (List Cell))
realloc p n = do granted ← allocate; pure (if granted then some (resized (cells_of p) n) else none)

-- the capacity that follows `c`
unfoldable pub next_capacity : ℕ → ℕ
next_capacity c = if c == 0 then 128 else if ltb c 4096 then (c * 2) % size_mod else add_size c 4096

abbrev pub status_of : Option (List Cell) → Status
status_of none = failed
status_of (some cells) = succeeded

-- The old block is lost when realloc refuses, and the new capacity is kept.
unfoldable pub increase_capacity : GdbwireString → M (Status × GdbwireString)
unfolding next_capacity realloc
increase_capacity s = do
  let c = next_capacity s.capacity
  p ← realloc s.contents c
  pure (status_of p, record s { contents = p; capacity = c })

-- the test at the head of the loop of `gdbwire_string_append_data`
unfoldable pub reserve : GdbwireString → M (Status × GdbwireString)
reserve s = if leb s.capacity s.size then increase_capacity s else pure (succeeded, s)

-- `string->data[string->size] = c; ++string->size`
unfoldable pub put : GdbwireString → ℕ → M GdbwireString
put s c = do
  p ← store s.contents s.size c
  pure (record s { contents = p; size = add_size s.size 1 })

-- One round of the loop of `gdbwire_string_append_data`, behind its call of `reserve`; `next` is
-- the rest of the loop.
abbrev pub put_or_break :
    ℕ
    → (GdbwireString → M (Status × GdbwireString))
    → Status × GdbwireString
    → M (Status × GdbwireString)
put_or_break c next (succeeded, s) = put s c >>= next
put_or_break c next (failed, s) = pure (failed, s)

-- the loop, over the bytes that are left
unfoldable pub append_bytes : GdbwireString → Bytes → M (Status × GdbwireString)
append_bytes s [] = pure (succeeded, s)
append_bytes s (c ∷ cs) = reserve s >>= put_or_break c (λ s1. append_bytes s1 cs)

unfoldable pub append_data : Option GdbwireString → Option Bytes → M (Status × Option GdbwireString)
append_data (some s) (some bytes) = do (r, s1) ← append_bytes s bytes; pure (r, some s1)
append_data s _ = pure (failed, s)

unfoldable pub append_char : Option GdbwireString → ℕ → M (Status × Option GdbwireString)
append_char s c = append_data s (some (c ∷ []))

-- After a successful call the size goes back over the NUL.
abbrev pub drop_nul : Status × GdbwireString → Status × GdbwireString
drop_nul (succeeded, s) = (succeeded, record s { size = sub_size s.size 1 })
drop_nul (failed, s) = (failed, s)

-- `gdbwire_string_append_cstr` at pointers that are not NULL
unfoldable pub append_text : GdbwireString → Bytes → M (Status × GdbwireString)
append_text s text = do r ← append_bytes s (text ++ (0 ∷ [])); pure (drop_nul r)

unfoldable pub append_cstr : Option GdbwireString → Option Bytes → M (Status × Option GdbwireString)
append_cstr (some s) (some text) = do (r, s1) ← append_text s text; pure (r, some s1)
append_cstr s _ = pure (failed, s)

-- what calloc leaves in a new `struct gdbwire_string`
abbrev pub zeroed : GdbwireString
zeroed = record { contents = none; size = 0; capacity = 0 }

abbrev pub created : Status × GdbwireString → Option GdbwireString
created (succeeded, s) = some s
created (failed, s) = none

unfoldable pub create : M (Option GdbwireString)
create = do
  granted ← allocate
  elim granted [ true ↦ append_text zeroed [] >>= λ r. pure (created r) | false ↦ pure none ]

unfoldable pub clear : Option GdbwireString → M (Option GdbwireString)
clear none = pure none
clear (some s) = do p ← store s.contents 0 0; pure (some (record s { contents = p; size = 0 }))

-- The loops of `gdbwire_string_find_first_of`, with `n` positions left from `pos` on.
unfoldable pub find_from : Option (List Cell) → Bytes → ℕ → ℕ → ℕ → M ℕ
find_from p chars size zero pos = pure size
find_from p chars size (suc n) pos = do
  c ← load p pos
  elim (mem_byte c chars) [ true ↦ pure pos | false ↦ find_from p chars size n (pos + 1) ]

unfoldable pub find_first_of : Option GdbwireString → Option Bytes → M ℕ
find_first_of (some s) (some chars) = find_from s.contents chars s.size s.size 0
find_first_of _ _ = pure 0

-- The loop of `gdbwire_string_erase`, with `n` bytes left to move.
unfoldable pub shift : ℕ → Option (List Cell) → ℕ → ℕ → M (Option (List Cell))
shift zero p to_pos from_pos = pure p
shift (suc n) p to_pos from_pos = do
  c ← load p from_pos
  p1 ← store p to_pos c
  shift n p1 (to_pos + 1) (from_pos + 1)

-- `gdbwire_string_erase` at a string that is not NULL
unfoldable pub erase_range : GdbwireString → ℕ → ℕ → M (Status × GdbwireString)
erase_range s pos count =
    let from_pos = add_size pos count in
    if leb s.size pos
    then pure (failed, s)
    else if leb s.size from_pos
    then (store s.contents pos 0 >>= λ p.
        pure (succeeded, record s { contents = p; size = sub_size s.size (s.size - pos) }))
    else (shift (s.size - from_pos) s.contents pos from_pos >>= λ p.
        pure (succeeded, record s { contents = p; size = sub_size s.size count }))

unfoldable pub erase : Option GdbwireString → ℕ → ℕ → M (Status × Option GdbwireString)
erase none pos count = pure (failed, none)
erase (some s) pos count = do (r, s1) ← erase_range s pos count; pure (r, some s1)
