-- ===== src/Lifetime/Buffer.antt =====
-- The buffer of a parser, in src/gdbwire_string.c, and objects of generated code.
use gdbwire.Base.{refl, Option, none, some, List, [], ◌∷◌, ◌++◌}
use gdbwire.Release.{Address, Allocated, Release, ◌then◌, nothing, read, free, free_text}
use gdbwire.Release.Order.{
  Releases, Releases-then, Releases-read, Releases-free, Releases-text, text_block,
}
use gdbwire.Lifetime.{Heap, H, calloc, StringAt, string_destroy, string_create, Blocks}
use gdbwire.Lifetime.Grown.{Grown, Outcome, calloc-Outcome, allocating-Outcome}

pub Releases-nothing : Releases nothing []
Releases-nothing = record { runs = λ live fit. refl }

abbrev pub string_blocks : StringAt → List Address
string_blocks s = text_block s.bytes ++ (s.address ∷ [])

pub string_destroy-Releases : (s : StringAt) → Releases (string_destroy (some s)) (string_blocks s)
unfolding string_destroy
string_destroy-Releases s =
    Releases-read s.address (free_text s.bytes then read s.address then free s.address)
      (text_block s.bytes)
      (Releases-then (free_text s.bytes) (read s.address then free s.address) (text_block s.bytes)
        (s.address ∷ []) (Releases-text s.bytes)
        (Releases-read s.address (free s.address) [] (Releases-free s.address)))

pub string_create-Outcome :
    (live0 : Allocated) (xs : List Address) (h : Heap)
    → Grown live0 xs h
    → Outcome live0 xs string_blocks (string_create h)
unfolding string_create
string_create-Outcome live0 xs h g =
    allocating-Outcome (λ a. a ∷ []) string_blocks live0 [] xs calloc nothing _ h
      (calloc-Outcome live0 xs h g) Releases-nothing
      λ a h1 g1.
        allocating-Outcome (λ d. d ∷ []) string_blocks live0 (a ∷ []) xs calloc
          (string_destroy (some (record { address = a; bytes = none }))) _ h1
          (calloc-Outcome live0 (a ∷ xs) h1 g1)
          (string_destroy-Releases (record { address = a; bytes = none })) λ d h2 g2. g2

-- An object of generated code: its creation gives NULL or an object with new blocks, and its release
-- releases just these.
pub record IsObject (create : H (Option Blocks)) (destroy : Blocks → Release) : Type 0 where
  pub creates :
      (live0 : Allocated) (xs : List Address) (h : Heap)
      → Grown live0 xs h
      → Outcome live0 xs (λ ys. ys) (create h)
  pub destroys : (xs : Blocks) → Releases (destroy xs) xs
