-- ===== src/Tests/Lifetime.antt =====
-- A gdbwire is created and destroyed, with a scanner and a push parser of one block each.
use gdbwire.Base.{arith, refl, true, false, Option, some, [], ◌∷◌, ◌==◌}
use gdbwire.Release.{Release, ◌then◌, nothing, free}
use gdbwire.Release.Order.{Releases, Releases-then, Releases-free}
use gdbwire.Lifetime.{Heap, H, calloc, allocating, Blocks, wire_create_at}
use gdbwire.Lifetime.Grown.{calloc-Outcome, allocating-Outcome}
use gdbwire.Lifetime.Buffer.{IsObject}
use gdbwire.Lifetime.Balance.{Balanced, wire_create-Balanced}

abbrev one_block : H (Option Blocks)
one_block = allocating calloc nothing λ a h. some (some (a ∷ []), h)

abbrev free_all : Blocks → Release
free_all [] = nothing
free_all (a ∷ xs) = free a then free_all xs

free_all-Releases : (xs : Blocks) → Releases (free_all xs) xs
free_all-Releases [] = record { runs = λ live fit. refl }
free_all-Releases (a ∷ xs) =
    Releases-then (free a) (free_all xs) (a ∷ []) xs (Releases-free a) (free_all-Releases xs)

one_block-IsObject : IsObject one_block free_all
one_block-IsObject = record {
  creates = λ live0 xs h g.
      allocating-Outcome (λ a. a ∷ []) (λ ys. ys) live0 [] xs calloc nothing _ h
        (calloc-Outcome live0 xs h g) (record { runs = λ live fit. refl }) λ a h1 g1. g1;
  destroys = free_all-Releases;
}

-- The block 3 is allocated, and the fifth allocation is refused.
abbrev heap : Heap
heap = record { live = λ a. a == 3; fresh = 4; answers = true ∷ true ∷ true ∷ true ∷ false ∷ [] }

wire_create-Balanced_example :
    Balanced one_block one_block free_all free_all one_block-IsObject one_block-IsObject heap.live
      (wire_create_at one_block one_block free_all free_all heap)
wire_create-Balanced_example =
    wire_create-Balanced one_block one_block free_all free_all one_block-IsObject one_block-IsObject
      heap (λ a le. ground arith)
