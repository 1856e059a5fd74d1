-- ===== src/StringBuf/Find.antt =====
-- `gdbwire_string_find_first_of` against a search in the list of bytes that the string holds.
use gdbwire.Base.{
  ℕ, suc, ◌+◌, ◌≤◌, ◌<◌, ◌≡◌, refl, ap, ◌∙◌, subst, List, [], ◌∷◌, ◌++◌, map, append_assoc, some,
  Bool, true, not, ◌&&◌, Bool-cases, inl, inr, Bytes, mem_byte, length, take, length-append, Mem,
  value, bind_exec, Ends, arith, if◌then◌else◌, get_elem?,
}
use mathlib.Core.List.{map-append}
use gdbwire.StringBuf.{Cell, GdbwireString, load, find_from, find_first_of}
use gdbwire.StringBuf.Holds.{Holds, load_middle}

-- The position of the first byte that stands in `chars`, or the length.
abbrev pub first_of : Bytes → Bytes → ℕ
first_of chars [] = 0
first_of chars (b ∷ bs) = if mem_byte b chars then 0 else suc (first_of chars bs)

abbrev pub none_of : Bytes → Bytes → Bool
none_of chars [] = true
none_of chars (b ∷ bs) = not (mem_byte b chars) && none_of chars bs

-- `p` is the first position in `bs` of a byte of `chars`, or the length if there is none.
pub record IsFirst (chars bs : Bytes) (p : ℕ) : Type 0 where
  pub in_range : p ≤ length bs
  pub before : none_of chars (take p bs) ≡ true
  pub found : p < length bs → (b : ℕ) × (get_elem? bs p ≡ some b) × (mem_byte b chars ≡ true)

pub first_of-IsFirst : (chars bs : Bytes) → IsFirst chars bs (first_of chars bs)
first_of-IsFirst chars [] = record {
  in_range = omega arith;
  before = refl;
  found = λ h. absurd (omega arith);
}
first_of-IsFirst chars (b ∷ bs) =
    let tl = first_of-IsFirst chars bs in
    elim (Bool-cases (mem_byte b chars)) [
      | inl hit ↦
          rw hit (record { in_range = omega arith; before = refl; found = λ h. (b, refl, hit) })
      | inr miss ↦ rw miss (record {
        in_range = omega (arith, tl.in_range);
        before = rw miss tl.before;
        found = λ h. tl.found (omega arith);
      })
    ]

find_from-first_of :
    (bs pre : Bytes) (rest : List Cell) (chars : Bytes) (size pos : ℕ) (mem : Mem)
    → pos ≡ length pre
    → size ≡ length pre + length bs
    → find_from (some (map some (pre ++ bs) ++ rest)) chars size (length bs) pos mem
      ≡ value (pos + first_of chars bs) mem
unfolding find_from
find_from-first_of [] pre rest chars size pos mem e z = ap (λ n. value n mem) (omega arith)
find_from-first_of (b ∷ bs) pre rest chars size pos mem e z =
    rw (read, bind_exec)
      (elim (Bool-cases (mem_byte b chars)) [
        | inl hit ↦ rw hit (ap (λ n. value n mem) (omega arith))
        | inr miss ↦ rw miss (
            subst
              (λ t.
                find_from (some (map some t ++ rest)) chars size (length bs) (pos + 1) mem
                ≡ value (pos + 1 + first_of chars bs) mem)
              (append_assoc pre (b ∷ []) bs)
              (find_from-first_of bs (pre ++ (b ∷ [])) rest chars size (pos + 1) mem
                (omega (arith, length-append {0} pre (b ∷ [])))
                (omega (arith, length-append {0} pre (b ∷ []))))
            ∙ ap (λ n. value n mem) (omega arith))
      ])
  where
    read : load (some (map some (pre ++ (b ∷ bs)) ++ rest)) pos mem ≡ value b mem
    read = rw e (
        subst (λ l. load (some l) (length pre) mem ≡ value b mem) (simp (map-append, append_assoc))
          (load_middle pre b (map some bs ++ rest) mem))

pub find_first_of-first_of :
    (s : GdbwireString) (bs chars : Bytes) (mem : Mem)
    → Holds s bs
    → find_first_of (some s) (some chars) mem ≡ value (first_of chars bs) mem
unfolding find_first_of
find_first_of-first_of s bs chars mem h =
    rw (h.allocated, h.sized)
      (find_from-first_of bs [] h.rest chars (length bs) 0 mem refl (omega arith)
        ∙ ap (λ n. value n mem) (omega arith))

-- `gdbwire_string_find_first_of` always returns, reads only bytes that the string holds, and
-- gives the first position of a byte of `chars`, or the size if none of them occurs.
pub find_first_of_lem :
    (s : GdbwireString) (bs chars : Bytes) (mem : Mem)
    → Holds s bs
    → Ends (λ p m. IsFirst chars bs p × (m ≡ mem)) (find_first_of (some s) (some chars) mem)
find_first_of_lem s bs chars mem h =
    rw (find_first_of-first_of s bs chars mem h) (first_of-IsFirst chars bs, refl)
