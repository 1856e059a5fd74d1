-- ===== src/StringBuf/Erase.antt =====
-- `gdbwire_string_erase`: which bytes are left.
use gdbwire.Base.{
  ℕ, ◌+◌, ◌-◌, ◌≤◌, ◌<◌, ◌≡◌, refl, ap, sym, ◌∙◌, subst, List, [], ◌∷◌, ◌++◌, map, append_assoc,
  append-nil, Option, some, Bool-cases, inl, inr, Bytes, leb, length, take, drop, length-append,
  length-take, length-drop, take-append-drop, drop_of_le, drop_cons, drop-drop, Mem, value, Ends,
  Ends-bind, Ends-map, length-map, arith,
}
use mathlib.Core.List.{map-append}
use gdbwire.StringBuf.{
  Status, succeeded, failed, Cell, GdbwireString, size_mod, sub_size, add_size, load, store, shift,
  erase_range,
}
use gdbwire.StringBuf.Holds.{Holds, load_middle, store_middle, length-cells}

-- Bytes moved down over a gap: `tail` now stands where the gap began.
abbrev Moved : Bytes → Bytes → ℕ → Mem → Option (List Cell) → Mem → Type 0
Moved pre tail spare mem p m =
    (junk : List Cell) × (p ≡ some (map some (pre ++ tail) ++ junk))
    × (length junk ≡ spare)
    × (m ≡ mem)

-- The gap after the first byte of the tail has moved to its front.
next_gap : Bytes → ℕ → Bytes
next_gap [] t = []
next_gap (g ∷ gap) t = gap ++ (t ∷ [])

length-next_gap : (gap : Bytes) (t : ℕ) → length (next_gap gap t) ≡ length gap
unfolding next_gap
length-next_gap [] t = refl
length-next_gap (g ∷ gap) t = omega (arith, length-append {0} gap (t ∷ []))

abbrev cells : Bytes → Bytes → Bytes → List Cell → Option (List Cell)
cells pre gap tail rest = some (map some (pre ++ (gap ++ tail)) ++ rest)

load_tail :
    (pre gap tail : Bytes) (rest : List Cell) (t : ℕ) (mem : Mem)
    → load (cells pre gap (t ∷ tail) rest) (length pre + length gap) mem ≡ value t mem
load_tail pre gap tail rest t mem =
    subst (λ n. load (cells pre gap (t ∷ tail) rest) n mem ≡ value t mem) (length-append pre gap)
      (subst (λ l. load (some l) (length (pre ++ gap)) mem ≡ value t mem)
        (simp (map-append, append_assoc)) (load_middle (pre ++ gap) t (map some tail ++ rest) mem))

store_gap :
    (gap pre tail : Bytes) (rest : List Cell) (t : ℕ) (mem : Mem)
    → store (cells pre gap (t ∷ tail) rest) (length pre) t mem
      ≡ value (cells (pre ++ (t ∷ [])) (next_gap gap t) tail rest) mem
unfolding next_gap
store_gap [] pre tail rest t mem =
    subst
      (λ l. store (some l) (length pre) t mem ≡ value (cells (pre ++ (t ∷ [])) [] tail rest) mem)
      (simp (map-append, append_assoc))
      (store_middle pre (some t) (map some tail ++ rest) t mem
        ∙ ap (λ l. value (some l) mem) (simp (map-append, append_assoc)))
store_gap (g ∷ gap) pre tail rest t mem =
    subst
      (λ l.
        store (some l) (length pre) t mem
        ≡ value (cells (pre ++ (t ∷ [])) (gap ++ (t ∷ [])) tail rest) mem)
      (simp (map-append, append_assoc))
      (store_middle pre (some g) (map some gap ++ (some t ∷ (map some tail ++ rest))) t mem
        ∙ ap (λ l. value (some l) mem) (simp (map-append, append_assoc)))

shift_lem :
    (tail pre gap : Bytes) (rest : List Cell) (to_pos from_pos : ℕ) (mem : Mem)
    → to_pos ≡ length pre
    → from_pos ≡ length pre + length gap
    → Ends
        (Moved pre tail (length gap + length rest) mem)
        (shift (length tail) (cells pre gap tail rest) to_pos from_pos mem)
unfolding shift
shift_lem [] pre gap rest to_pos from_pos mem e f = (
  map some gap ++ rest,
  ap some (simp (map-append, append_assoc, append-nil)),
  omega
      (arith, length-append (map {B = Cell} some gap) rest, length-map {0, 0} {B = Cell} some gap),
  refl,
)
shift_lem (t ∷ tail) pre gap rest to_pos from_pos mem e f =
    rw (f, load_tail pre gap tail rest t mem, e, store_gap gap pre tail rest t mem)
      (Ends-map _ _ (shift (length tail) _ (length pre + 1) (length pre + length gap + 1) mem)
        (shift_lem tail (pre ++ (t ∷ [])) (next_gap gap t) rest (length pre + 1)
          (length pre + length gap + 1) mem (omega (arith, length-append {0} pre (t ∷ [])))
          (omega (arith, length-append {0} pre (t ∷ []), length-next_gap gap t)))
        λ p m (junk, q, l, u). (
          junk,
          q ∙ ap (λ x. some (map some x ++ junk)) (append_assoc pre (t ∷ []) tail),
          omega (arith, length-next_gap gap t),
          u,
        ))

-- The bytes that are left after `count` bytes from `pos` on are taken out.
abbrev pub erased : Bytes → ℕ → ℕ → Bytes
erased bs pos count = take pos bs ++ drop (pos + count) bs

length-take_lt : (pos : ℕ) (bs : Bytes) → pos < length bs → length (take pos bs) ≡ pos
length-take_lt pos bs h = omega (arith, length-take {0} pos bs)

erase_end :
    (s : GdbwireString) (bs : Bytes) (pos count : ℕ) (mem : Mem) (h : Holds s bs)
    → pos < length bs
    → length bs ≤ pos + count
    → Ends
        (λ p m.
          Holds
            (record s { contents = p; size = sub_size s.size (s.size - pos) })
            (erased bs pos count)
          × (m ≡ mem))
        (store s.contents pos 0 mem)
erase_end s bs pos count mem h lt le = go (drop_cons pos bs lt)
  where
    kept : erased bs pos count ≡ take pos bs
    kept = rw (drop_of_le (pos + count) bs le) (append-nil (take pos bs))

    go :
        ((x : ℕ) × (ys : Bytes) × (drop pos bs ≡ x ∷ ys))
        → Ends
            (λ p m.
              Holds
                (record s { contents = p; size = sub_size s.size (s.size - pos) })
                (erased bs pos count)
              × (m ≡ mem))
            (store s.contents pos 0 mem)
    go (x, ys, e) =
        let whole : bs ≡ take pos bs ++ (x ∷ ys) =
          sym (take-append-drop pos bs) ∙ ap (λ t. take pos bs ++ t) e in
        let full : s.contents
            ≡ some (map some (take pos bs) ++ (some x ∷ (map some ys ++ h.rest))) =
          h.allocated
          ∙ ap (λ t. some (map some t ++ h.rest)) whole
          ∙ ap some (simp (map-append, append_assoc)) in
        let stored =
          subst
            (λ i.
              store (some (map some (take pos bs) ++ (some x ∷ (map some ys ++ h.rest)))) i 0 mem
              ≡ value (some (map some (take pos bs) ++ (some 0 ∷ (map some ys ++ h.rest)))) mem)
            (length-take_lt pos bs lt)
            (store_middle (take pos bs) (some x) (map some ys ++ h.rest) 0 mem) in
        rw (kept, full, stored)
          (
            record {
              rest = some 0 ∷ (map some ys ++ h.rest);
              allocated = refl;
              sized = omega (arith, length-take_lt pos bs lt, h.sized, h.capacious, h.bounded);
              capacious = omega (
                arith,
                h.capacious,
                length-cells ys h.rest,
                ap length whole,
                length-append {0} (take pos bs) (x ∷ ys),
              );
              bounded = h.bounded;
            },
            refl,
          )

erase_inside :
    (s : GdbwireString) (bs : Bytes) (pos count : ℕ) (mem : Mem) (h : Holds s bs)
    → pos + count < length bs
    → Ends
        (λ p m.
          Holds (record s { contents = p; size = sub_size s.size count }) (erased bs pos count)
          × (m ≡ mem))
        (shift (s.size - (pos + count)) s.contents pos (pos + count) mem)
erase_inside s bs pos count mem h lt =
    rw (full, steps)
      (Ends-map _ _ (shift (length tail) (cells pre gap tail h.rest) pos (pos + count) mem)
        (shift_lem tail pre gap h.rest pos (pos + count) mem at_pos
          (omega (arith, at_pos, gap_count)))
        λ p m (junk, e, l, u). (
          record {
            rest = junk;
            allocated = e ∙ ap (λ t. some (map some (pre ++ t) ++ junk)) (drop-drop pos count bs);
            sized = omega (
              arith,
              h.sized,
              h.capacious,
              h.bounded,
              length-append {0} pre (drop (pos + count) bs),
              at_pos,
              length-drop {0} (pos + count) bs,
            );
            capacious = omega (
              arith,
              h.capacious,
              length-append {0} pre (drop (pos + count) bs),
              at_pos,
              length-drop {0} (pos + count) bs,
              l,
              gap_count,
            );
            bounded = h.bounded;
          },
          u,
        ))
  where
    pre : Bytes
    pre = take pos bs

    gap : Bytes
    gap = take count (drop pos bs)

    tail : Bytes
    tail = drop count (drop pos bs)

    at_pos : pos ≡ length pre
    at_pos = sym (length-take_lt pos bs (omega arith))

    gap_count : length gap ≡ count
    gap_count = omega (arith, length-take {0} count (drop pos bs), length-drop {0} pos bs)

    full : s.contents ≡ cells pre gap tail h.rest
    full =
        h.allocated
        ∙ ap (λ t. some (map some t ++ h.rest))
            (sym (take-append-drop pos bs)
              ∙ ap (λ t. pre ++ t) (sym (take-append-drop count (drop pos bs))))

    steps : s.size - (pos + count) ≡ length tail
    steps = omega (arith, h.sized, length-drop {0} count (drop pos bs), length-drop {0} pos bs)

-- What `gdbwire_string_erase` returns and leaves.
abbrev pub Erases : GdbwireString → Bytes → ℕ → ℕ → Status × GdbwireString → Type 0
Erases s bs pos count (succeeded, s1) = (pos < length bs) × Holds s1 (erased bs pos count)
Erases s bs pos count (failed, s1) = (length bs ≤ pos) × (s1 ≡ s)

-- Erasing `count` bytes from `pos` on always returns, within the allocation, if `pos + count` is
-- in the range of `size_t`. At a position inside the string it succeeds and takes out exactly
-- those bytes, as far as there are any; elsewhere it fails and changes nothing.
pub erase_range_lem :
    (s : GdbwireString) (bs : Bytes) (pos count : ℕ) (mem : Mem)
    → Holds s bs
    → pos + count < size_mod
    → Ends (λ r m. Erases s bs pos count r × (m ≡ mem)) (erase_range s pos count mem)
unfolding erase_range
erase_range_lem s bs pos count mem h lt = elim (Bool-cases (leb s.size pos)) [
  | inl outside ↦ rw outside ((ground (arith, h.sized), refl), refl)
  | inr inside ↦
      rw (inside, no_wrap)
        (elim (Bool-cases (leb s.size (pos + count))) [
          | inl past ↦ rw past (
              Ends-bind _ _ (store s.contents pos 0 mem) _
                (erase_end s bs pos count mem h (ground (arith, h.sized)) (ground (arith, h.sized)))
                λ p m q. ((ground (arith, h.sized), q.0), q.1))
          | inr within ↦ rw within (
              Ends-bind _ _ (shift (s.size - (pos + count)) s.contents pos (pos + count) mem) _
                (erase_inside s bs pos count mem h (ground (arith, h.sized)))
                λ p m q. ((ground (arith, h.sized), q.0), q.1))
        ])
]
  where
    no_wrap : add_size pos count ≡ pos + count
    no_wrap = omega arith
