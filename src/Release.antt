-- ===== src/Release.antt =====
-- src/gdbwire_mi_pt_alloc.c: how a parse tree is released. A tree is given with the addresses of its
-- blocks; the state is which addresses are allocated. To read a member of a block that is not
-- allocated, or to release it, is undefined behaviour, `none`.
pub mod Order
pub mod Blocks
pub mod Commands
use gdbwire.Base.{ℕ, Bool, true, false, Option, none, some, ◌==◌, if◌then◌else◌}

abbrev pub Address : Type 0
Address = ℕ

abbrev pub Allocated : Type 0
Allocated = Address → Bool

abbrev pub Release : Type 0
Release = Allocated → Option Allocated

infixr 5 ◌then◌
abbrev pub ◌then◌ : Release → Release → Release
◌then◌ f g live = elim (f live) [ none ↦ none | some live1 ↦ g live1 ]

abbrev pub nothing : Release
nothing live = some live

abbrev pub without : Address → Allocated → Allocated
without a live b = if b == a then false else live b

-- A member of the block at `a` is read.
abbrev pub read : Address → Release
read a live = if live a then some live else none

-- `free` of an address that is not NULL, and of one that may be NULL
abbrev pub free : Address → Release
free a live = if live a then some (without a live) else none

abbrev pub free_text : Option Address → Release
free_text none = nothing
free_text (some a) = free a

-- `struct gdbwire_mi_result`: its address, its variable, its variant, and the next result. The
-- variant of a tuple and of a list is a result.
pub data ResultAt : Type 0 where
  no_result : ResultAt
  cstring_at : Address → Option Address → Option Address → ResultAt → ResultAt
  results_at : Address → Option Address → ResultAt → ResultAt → ResultAt

-- `struct gdbwire_mi_result_record` and `struct gdbwire_mi_async_record`: an address, a token and a
-- result.
pub data RecordAt : Type 0 where
  no_record : RecordAt
  record_at : Address → Option Address → ResultAt → RecordAt

pub data StreamAt : Type 0 where
  no_stream : StreamAt
  stream_at : Address → Option Address → StreamAt

pub data OobAt : Type 0 where
  no_oob : OobAt
  async_at : Address → RecordAt → OobAt
  stream_record_at : Address → StreamAt → OobAt

-- the variant of an output
pub data VariantAt : Type 0 where
  oob_at : OobAt → VariantAt
  result_record_at : RecordAt → VariantAt
  prompt_at : VariantAt
  error_at : Option Address → VariantAt

pub data OutputAt : Type 0 where
  no_output : OutputAt
  output_at : Address → VariantAt → Option Address → OutputAt → OutputAt

-- `gdbwire_mi_result_free`
unfoldable pub result_free : ResultAt → Release
result_free no_result = nothing
result_free (cstring_at a variable text next) =
    read a
    then free_text variable
    then read a
    then free_text text
    then read a
    then result_free next
    then free a
result_free (results_at a variable sub next) =
    read a
    then free_text variable
    then read a
    then result_free sub
    then read a
    then result_free next
    then free a

-- `gdbwire_mi_result_record_free`, and `gdbwire_mi_async_record_free` with the same text
unfoldable pub record_free : RecordAt → Release
record_free no_record = nothing
record_free (record_at a token result) =
    read a then free_text token then read a then result_free result then free a

-- `gdbwire_mi_stream_record_free`
unfoldable pub stream_free : StreamAt → Release
stream_free no_stream = nothing
stream_free (stream_at a text) = read a then free_text text then free a

-- `gdbwire_mi_oob_record_free`
unfoldable pub oob_free : OobAt → Release
oob_free no_oob = nothing
oob_free (async_at a r) = read a then record_free r then free a
oob_free (stream_record_at a r) = read a then stream_free r then free a

-- the switch of `gdbwire_mi_output_free`
unfoldable pub variant_free : VariantAt → Release
variant_free (oob_at r) = oob_free r
variant_free (result_record_at r) = record_free r
variant_free prompt_at = nothing
variant_free (error_at token) = free_text token

-- `gdbwire_mi_output_free`
unfoldable pub output_free : OutputAt → Release
output_free no_output = nothing
output_free (output_at a v line next) =
    read a
    then variant_free v
    then read a
    then free_text line
    then read a
    then output_free next
    then free a
