-- ===== src/Lifetime.antt =====
-- The creation and the release of a gdbwire in src/gdbwire.c, of its parser in
-- src/gdbwire_mi_parser.c and of the parser's buffer in src/gdbwire_string.c, with the addresses of
-- their blocks and the releases on the error paths. The scanner and the push parser's state are of
-- generated code: how they are created and released is a parameter.
pub mod Apart
pub mod Grown
pub mod Buffer
pub mod Balance
use gdbwire.Base.{
  ℕ, suc, Bool, true, false, Option, none, some, List, [], ◌∷◌, Mem, ◌==◌, if◌then◌else◌,
}
use gdbwire.Release.{Address, Allocated, Release, ◌then◌, nothing, read, free, free_text}

-- What is allocated, an address from which on nothing is, and the answers to coming allocations.
pub record Heap : Type 0 where
  pub live : Allocated
  pub fresh : Address
  pub answers : Mem

-- A function that may allocate: its result, or undefined behaviour.
abbrev pub H : Type 0 → Type 0
H A = Heap → Option (A × Heap)

abbrev pub with_block : Address → Allocated → Allocated
with_block a live b = if b == a then true else live b

-- A block at a new address, and the coming answers.
abbrev pub new_block : Heap → Mem → Option (Option Address × Heap)
new_block h mem =
    some (
      some h.fresh,
      record { live = with_block h.fresh h.live; fresh = suc h.fresh; answers = mem },
    )

abbrev pub next_answer : Heap → Mem → Option (Option Address × Heap)
next_answer h [] = new_block h []
next_answer h (true ∷ mem) = new_block h mem
next_answer h (false ∷ mem) = some (none, record h { answers = mem })

-- `calloc` and `malloc`, and `realloc` of NULL
unfoldable pub calloc : H (Option Address)
calloc h = next_answer h h.answers

-- A release, and then the result NULL.
abbrev pub cleaned : {B : Type 0} → Release → H (Option B)
cleaned f h = elim (f h.live) [ none ↦ none | some live1 ↦ some (none, record h { live = live1 }) ]

abbrev pub continued :
    {A B : Type 0}
    → Release
    → (A → H (Option B))
    → Option (Option A × Heap)
    → Option (Option B × Heap)
continued f k none = none
continued f k (some (none, h)) = cleaned f h
continued f k (some (some a, h)) = k a h

-- Where `m` gives NULL, the release `f` is made and NULL is returned.
abbrev pub allocating : {A B : Type 0} → H (Option A) → Release → (A → H (Option B)) → H (Option B)
allocating m f k h = continued f k (m h)

-- `struct gdbwire_string`
pub record StringAt : Type 0 where
  pub address : Address
  pub bytes : Option Address

-- `gdbwire_string_destroy`
unfoldable pub string_destroy : Option StringAt → Release
string_destroy none = nothing
string_destroy (some s) =
    read s.address then free_text s.bytes then read s.address then free s.address

-- `gdbwire_string_create`: to append "" allocates the bytes, at first.
unfoldable pub string_create : H (Option StringAt)
unfolding calloc string_destroy
string_create = allocating calloc nothing λ a.
    allocating calloc (string_destroy (some (record { address = a; bytes = none })))
      λ d h. some (some (record { address = a; bytes = some d }), h)

-- The blocks of an object of generated code.
abbrev pub Blocks : Type 0
Blocks = List Address

-- `struct gdbwire_mi_parser`
pub record ParserAt : Type 0 where
  pub address : Address
  pub buffer : Option StringAt
  pub mils : Option Blocks
  pub mipst : Option Blocks

-- `struct gdbwire`
pub record WireAt : Type 0 where
  pub address : Address
  pub parser : ParserAt

-- A member that is not NULL is released.
abbrev pub given : (Blocks → Release) → Option Blocks → Release
given f none = nothing
given f (some xs) = f xs

module _ (lex_init pstate_new : H (Option Blocks))
    (lex_destroy pstate_delete : Blocks → Release) where
  -- `gdbwire_mi_parser_create`; the flag says that the callback is not NULL
  unfoldable pub parser_create_at : Bool → H (Option ParserAt)
  unfolding calloc string_create string_destroy
  parser_create_at callback = allocating calloc nothing λ parser.
      allocating string_create (free parser) λ buffer.
        allocating lex_init (string_destroy (some buffer) then free parser) λ mils.
          allocating pstate_new
            (lex_destroy mils then string_destroy (some buffer) then free parser)
            λ mipst.
              if callback
              then (λ h. some (
                some (record {
                  address = parser;
                  buffer = some buffer;
                  mils = some mils;
                  mipst = some mipst;
                }),
                h,
              ))
              else cleaned (
                  pstate_delete mipst
                  then lex_destroy mils
                  then string_destroy (some buffer)
                  then free parser)

  -- `gdbwire_create`
  unfoldable pub wire_create_at : H (Option WireAt)
  unfolding calloc parser_create_at
  wire_create_at = allocating calloc nothing λ a.
      allocating (parser_create_at true) (free a)
        λ p h. some (some (record { address = a; parser = p }), h)

module _ (lex_destroy pstate_delete : Blocks → Release) where
  -- `gdbwire_mi_parser_destroy`
  unfoldable pub parser_destroy : Option ParserAt → Release
  unfolding string_destroy
  parser_destroy none = nothing
  parser_destroy (some p) =
      read p.address
      then string_destroy p.buffer
      then read p.address
      then given lex_destroy p.mils
      then read p.address
      then given pstate_delete p.mipst
      then free p.address

  -- `gdbwire_destroy`
  unfoldable pub wire_destroy : Option WireAt → Release
  unfolding parser_destroy
  wire_destroy none = nothing
  wire_destroy (some w) = read w.address then parser_destroy (some w.parser) then free w.address
