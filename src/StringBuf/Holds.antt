-- ===== src/StringBuf/Holds.antt =====
-- The bytes that a string holds: the abstraction of `struct gdbwire_string` to a list of bytes.
use gdbwire.Base.{
  ℕ, ◌+◌, ◌≤◌, ◌<◌, ◌≡◌, refl, sym, List, [], ◌∷◌, ◌++◌, map, append_assoc, none, some, Bytes,
  lt→ltb, length, length-append, length-map, set_middle, get_elem?_middle, Mem, value, Ends, arith,
}
use mathlib.Core.List.{map-append}
use gdbwire.StringBuf.{
  Status, succeeded, failed, Cell, GdbwireString, size_mod, load, store, next_capacity, put,
}

-- The string holds exactly `bs`, in an allocation of `capacity` bytes.
pub record Holds (s : GdbwireString) (bs : Bytes) : Type 0 where
  pub rest : List Cell
  pub allocated : s.contents ≡ some (map some bs ++ rest)
  pub sized : s.size ≡ length bs
  pub capacious : s.capacity ≡ length bs + length rest
  pub bounded : s.capacity < size_mod

-- What a refused realloc leaves: no data, and a capacity above the size.
pub record Broken (s : GdbwireString) : Type 0 where
  pub lost : s.contents ≡ none
  pub roomy : s.size < s.capacity

-- The outcome of an operation that turns a string into one that holds `bs`, or breaks it.
abbrev pub Outcome : Bytes → Status × GdbwireString → Type 0
Outcome bs (succeeded, s) = Holds s bs
Outcome bs (failed, s) = Broken s

pub length-cells :
    (bs : Bytes) (rest : List Cell) → length (map some bs ++ rest) ≡ length bs + length rest
length-cells bs rest = omega (arith, length-append (map some bs) rest, length-map {0, 0} some bs)

-- A string that was just allocated with calloc, and its first growth.
pub next_capacity_bounds :
    (c : ℕ) → c + 4096 < size_mod → (c < next_capacity c) × (next_capacity c ≤ c + 4096)
unfolding next_capacity
next_capacity_bounds c h = ground arith

-- Loading one of the bytes that the string holds.
pub load_middle :
    (xs : Bytes) (b : ℕ) (ys : List Cell) (mem : Mem)
    → load (some (map some xs ++ (some b ∷ ys))) (length xs) mem ≡ value b mem
unfolding load
load_middle xs b ys mem =
    rw (sym (length-map {0, 0} some xs)) (rw (get_elem?_middle (map some xs) (some b) ys, load))

-- Storing into the cell behind a prefix.
pub store_middle :
    (xs : Bytes) (y : Cell) (ys : List Cell) (v : ℕ) (mem : Mem)
    → store (some (map some xs ++ (y ∷ ys))) (length xs) v mem
      ≡ value (some (map some xs ++ (some v ∷ ys))) mem
unfolding store
store_middle xs y ys v mem =
    rw
      (lt→ltb (length xs) (length (map some xs ++ (y ∷ ys)))
        (omega (arith, length-cells xs (y ∷ ys))))
      (rw (sym (length-map {0, 0} some xs)) (rw (set_middle (map some xs) y (some v) ys)))

pub put-Holds :
    (s : GdbwireString) (bs : Bytes) (c : ℕ) (mem : Mem)
    → Holds s bs
    → s.size < s.capacity
    → Ends (λ s1 m. Holds s1 (bs ++ (c ∷ [])) × (m ≡ mem)) (put s c mem)
unfolding put
put-Holds s bs c mem h room = go h.rest h.allocated h.capacious
  where
    go :
        (rest : List Cell)
        → s.contents ≡ some (map some bs ++ rest)
        → s.capacity ≡ length bs + length rest
        → Ends (λ s1 m. Holds s1 (bs ++ (c ∷ [])) × (m ≡ mem)) (put s c mem)
    go [] e cap = absurd (omega (arith, h.sized))
    go (y ∷ ys) e cap =
        rw (e, h.sized, store_middle bs y ys c mem)
          (
            record {
              rest = ys;
              allocated = rw (map-append, append_assoc) refl;
              sized = omega (arith, length-append {0} bs (c ∷ []), h.bounded);
              capacious = omega (arith, length-append {0} bs (c ∷ []));
              bounded = h.bounded;
            },
            refl,
          )
