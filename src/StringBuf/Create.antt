-- ===== src/StringBuf/Create.antt =====
-- `gdbwire_string_create`: what it leaves.
use gdbwire.Base.{
  ◌≡◌, ◌≢◌, refl, [], ◌∷◌, Option, none, some, true, false, replicate, Mem, value, Ends, arith,
  all_granted,
}
use gdbwire.StringBuf.{
  succeeded, failed, GdbwireString, increase_capacity, reserve, put, load, store, append_bytes,
  append_text, create, zeroed,
}
use gdbwire.StringBuf.Holds.{Holds}
use gdbwire.StringBuf.Append.{Terminated}

-- `gdbwire_string_create` gives an empty string that reads as "".
abbrev pub Fresh : Option GdbwireString → Type 0
Fresh none = Unit {0}
Fresh (some s) = Holds s [] × Terminated s

-- The new string: 128 bytes, the first of them NUL.
abbrev fresh : GdbwireString
fresh = record { contents = some (some 0 ∷ replicate 127 none); size = 0; capacity = 128 }

fresh-Fresh : Fresh (some fresh)
unfolding load
fresh-Fresh = (
  record {
    rest = some 0 ∷ replicate 127 none;
    allocated = refl;
    sized = refl;
    capacious = refl;
    bounded = omega arith;
  },
  λ mem. refl,
)

append_text-zeroed : (m : Mem) → append_text zeroed [] (true ∷ m) ≡ value (succeeded, fresh) m
unfolding append_text append_bytes reserve increase_capacity put store
append_text-zeroed m = refl

append_text-zeroed_end : append_text zeroed [] [] ≡ value (succeeded, fresh) []
unfolding append_text append_bytes reserve increase_capacity put store
append_text-zeroed_end = refl

append_text-zeroed_refused :
    (m : Mem)
    → append_text zeroed [] (false ∷ m) ≡ value (failed, record zeroed { capacity = 128 }) m
unfolding append_text append_bytes reserve increase_capacity put store
append_text-zeroed_refused m = refl

-- `gdbwire_string_create` returns NULL or an empty string whose data reads as "". NULL comes only
-- of a refused allocation.
pub create_lem :
    (mem : Mem)
    → Ends
        (λ o m. Fresh o × (all_granted mem ≡ true → (o ≢ none) × (all_granted m ≡ true)))
        (create mem)
unfolding create
create_lem [] = rw append_text-zeroed_end (fresh-Fresh, λ g. (ground arith, g))
create_lem (false ∷ mem) = (tt, λ g. absurd (ground arith))
create_lem (true ∷ []) = rw append_text-zeroed_end (fresh-Fresh, λ g. (ground arith, g))
create_lem (true ∷ true ∷ mem) = rw append_text-zeroed (fresh-Fresh, λ g. (ground arith, g))
create_lem (true ∷ false ∷ mem) = rw append_text-zeroed_refused (tt, λ g. absurd (ground arith))
