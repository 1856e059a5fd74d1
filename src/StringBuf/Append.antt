-- ===== src/StringBuf/Append.antt =====
-- `gdbwire_string_append_data` and `gdbwire_string_append_cstr`: what they leave.
use gdbwire.Base.{
  ℕ, ◌+◌, ◌-◌, ◌≤◌, ◌<◌, ◌≡◌, refl, ap, sym, ◌∙◌, subst, List, [], ◌∷◌, ◌++◌, map, append_assoc,
  append-nil, none, some, true, false, Bytes, leb, length, replicate, length-append, length-map,
  length-replicate, take_of_le, Mem, value, Ends, Ends-bind, Ends-map, arith, all_granted,
  Bool-cases, inl, inr, bind_exec,
}
use mathlib.Core.List.{map-append}
use gdbwire.StringBuf.{
  Status, succeeded, failed, Cell, GdbwireString, size_mod, sub_size, realloc, resized,
  next_capacity, increase_capacity, reserve, put, load, put_or_break, append_bytes, append_text,
  drop_nul,
}
use gdbwire.StringBuf.Holds.{Holds, Broken, Outcome, next_capacity_bounds, load_middle, put-Holds}

-- Where the allocator refuses nothing that is coming, the operation succeeds, and that stays so.
abbrev pub Grants : Mem → Status → Mem → Type 0
Grants before r after = all_granted before ≡ true → (r ≡ succeeded) × (all_granted after ≡ true)

-- After `reserve` there is room for one more byte.
abbrev Reserved : Bytes → Status × GdbwireString → Type 0
Reserved bs (succeeded, s) = Holds s bs × (s.size < s.capacity)
Reserved bs (failed, s) = Broken s

resized_grows :
    (cells : List Cell) (n : ℕ)
    → length cells ≤ n
    → resized cells n ≡ cells ++ replicate (n - length cells) none
resized_grows cells n h = rw (take_of_le n cells h)

grown-Holds :
    (s : GdbwireString) (bs : Bytes) (c : ℕ)
    → s.contents ≡ some (map some bs)
    → s.size ≡ length bs
    → length bs ≤ c
    → c < size_mod
    → Holds (record s { contents = some (resized (map some bs) c); capacity = c }) bs
grown-Holds s bs c e z le lt = record {
  rest = replicate (c - length (map {A = ℕ} {B = Cell} some bs)) none;
  allocated =
      ap some (resized_grows (map some bs) c (omega (arith, length-map {0, 0} {B = Cell} some bs)));
  sized = z;
  capacious = omega (
    arith,
    length-replicate {0} {A = Cell} (c - length (map {A = ℕ} {B = Cell} some bs)) none,
    length-map {0, 0} {B = Cell} some bs,
  );
  bounded = lt;
}

increase_capacity-Reserved :
    (s : GdbwireString) (bs : Bytes) (mem : Mem)
    → s.contents ≡ some (map some bs)
    → s.size ≡ length bs
    → s.capacity ≡ length bs
    → length bs + 4096 < size_mod
    → Ends (λ r m. Reserved bs r × Grants mem r.0 m) (increase_capacity s mem)
unfolding increase_capacity realloc
increase_capacity-Reserved s bs mem e z c h = go mem
  where
    bounds :
        (s.capacity < next_capacity s.capacity) × (next_capacity s.capacity ≤ s.capacity + 4096)
    bounds = next_capacity_bounds s.capacity (omega arith)

    grown :
        Holds
          (record s {
            contents = some (resized (map some bs) (next_capacity s.capacity));
            capacity = next_capacity s.capacity;
          })
          bs
    grown =
        grown-Holds s bs (next_capacity s.capacity) e z (omega (arith, bounds))
          (omega (arith, bounds))

    go : (m : Mem) → Ends (λ r m'. Reserved bs r × Grants m r.0 m') (increase_capacity s m)
    go [] = rw e ((grown, omega (arith, bounds)), λ _. (refl, refl))
    go (true ∷ m) = rw e ((grown, omega (arith, bounds)), λ g. (refl, g))
    go (false ∷ m) =
        (record { lost = refl; roomy = omega (arith, bounds) }, λ g. absurd (ground arith))

reserve-Reserved :
    (s : GdbwireString) (bs : Bytes) (mem : Mem)
    → Holds s bs
    → length bs + 4096 < size_mod
    → Ends (λ r m. Reserved bs r × Grants mem r.0 m) (reserve s mem)
unfolding reserve
reserve-Reserved s bs mem h lt = elim (Bool-cases (leb s.capacity s.size)) [
  | inl full ↦ rw full (go h.rest h.allocated h.capacious full)
  | inr room ↦ rw room ((h, ground arith), λ g. (refl, g))
]
  where
    go :
        (rest : List Cell)
        → s.contents ≡ some (map some bs ++ rest)
        → s.capacity ≡ length bs + length rest
        → leb s.capacity s.size ≡ true
        → Ends (λ r m. Reserved bs r × Grants mem r.0 m) (increase_capacity s mem)
    go [] e c full =
        increase_capacity-Reserved s bs mem (e ∙ ap some (append-nil (map some bs))) h.sized
          (omega arith) lt
    go (y ∷ ys) e c full = absurd (ground (arith, h.sized))

-- One round of the loop, over what the rest of the loop does.
append_round :
    (d : ℕ) (ds : Bytes) (s : GdbwireString) (bs : Bytes) (mem : Mem)
    → Holds s bs
    → length bs + 4096 < size_mod
    → ((s1 : GdbwireString) (m : Mem)
        → Holds s1 (bs ++ (d ∷ []))
        → Ends
            (λ r m'. Outcome ((bs ++ (d ∷ [])) ++ ds) r × Grants m r.0 m')
            (append_bytes s1 ds m))
    → Ends
        (λ r m. Outcome (bs ++ (d ∷ ds)) r × Grants mem r.0 m)
        (bind_exec (reserve s mem) (put_or_break d (λ s1. append_bytes s1 ds)))
append_round d ds s bs mem h lt rest =
    Ends-bind (λ r m. Reserved bs r × Grants mem r.0 m) _ (reserve s mem) _
      (reserve-Reserved s bs mem h lt) after
  where
    after :
        (r : Status × GdbwireString) (m : Mem)
        → Reserved bs r × Grants mem r.0 m
        → Ends
            (λ r m'. Outcome (bs ++ (d ∷ ds)) r × Grants mem r.0 m')
            (put_or_break d (λ s1. append_bytes s1 ds) r m)
    after (succeeded, s1) m (hr, g) =
        Ends-bind (λ s2 m'. Holds s2 (bs ++ (d ∷ [])) × (m' ≡ m)) _ (put s1 d m) _
          (put-Holds s1 bs d m hr.0 hr.1)
          λ s2 m' (h2, e). Ends-map _ _ (append_bytes s2 ds m') (rest s2 m' h2) λ r m'' q.
            (subst (λ t. Outcome t r) (append_assoc bs (d ∷ []) ds) q.0, λ w. q.1 (rw e (g w).1))
    after (failed, s1) m (b, g) = (b, g)

-- Appending `ds` to a string that holds `bs` always returns, and stays within the allocation, if
-- the sizes are in the range of `size_t`. Either the string then holds `bs ++ ds`, or the call
-- returns -1 and the string is broken; it succeeds where the allocator refuses nothing.
pub append_bytes_lem :
    (ds : Bytes) (s : GdbwireString) (bs : Bytes) (mem : Mem)
    → Holds s bs
    → length bs + length ds + 4096 < size_mod
    → Ends (λ r m. Outcome (bs ++ ds) r × Grants mem r.0 m) (append_bytes s ds mem)
unfolding append_bytes
append_bytes_lem [] s bs mem h lt = rw (append-nil bs) (h, λ g. (refl, g))
append_bytes_lem (d ∷ ds) s bs mem h lt = append_round d ds s bs mem h (omega arith) λ s1 m h1.
    append_bytes_lem ds s1 (bs ++ (d ∷ [])) m h1 (omega (arith, length-append {0} bs (d ∷ [])))

-- The byte behind the last one is NUL, so the data reads as a C string.
abbrev pub Terminated : GdbwireString → Type 0
Terminated s = (mem : Mem) → load s.contents s.size mem ≡ value 0 mem

abbrev pub TextOutcome : Bytes → Status × GdbwireString → Type 0
TextOutcome bs (succeeded, s) = Holds s bs × Terminated s
TextOutcome bs (failed, s) = Broken s

drop_nul-TextOutcome :
    (bs : Bytes) (r : Status × GdbwireString)
    → Outcome (bs ++ (0 ∷ [])) r
    → TextOutcome bs (drop_nul r)
drop_nul-TextOutcome bs (failed, s) b = b
drop_nul-TextOutcome bs (succeeded, s) h = (
  record {
    rest = some 0 ∷ h.rest;
    allocated = kept;
    sized = less;
    capacious = omega (arith, h.capacious, length-append {0} bs (0 ∷ []));
    bounded = h.bounded;
  },
  λ mem. rw (kept, less) (load_middle bs 0 h.rest mem),
)
  where
    kept : s.contents ≡ some (map some bs ++ (some 0 ∷ h.rest))
    kept = h.allocated ∙ ap some (rw (map-append, append_assoc) refl)

    less : sub_size s.size 1 ≡ length bs
    less = omega (arith, h.sized, h.capacious, h.bounded, length-append {0} bs (0 ∷ []))

drop_nul_keeps : (r : Status × GdbwireString) → (drop_nul r).0 ≡ r.0
drop_nul_keeps (succeeded, s) = refl
drop_nul_keeps (failed, s) = refl

-- Appending a C string adds its bytes without the NUL, and leaves the NUL behind them; the cases
-- of a refused realloc are those of `append_bytes`.
pub append_text_lem :
    (text : Bytes) (s : GdbwireString) (bs : Bytes) (mem : Mem)
    → Holds s bs
    → length bs + length text + 4097 < size_mod
    → Ends (λ r m. TextOutcome (bs ++ text) r × Grants mem r.0 m) (append_text s text mem)
unfolding append_text
append_text_lem text s bs mem h lt =
    Ends-bind _ _ (append_bytes s (text ++ (0 ∷ [])) mem) _
      (append_bytes_lem (text ++ (0 ∷ [])) s bs mem h
        (omega (arith, length-append {0} text (0 ∷ []))))
      λ r m q. (
        drop_nul-TextOutcome (bs ++ text) r
            (subst (λ t. Outcome t r) (sym (append_assoc bs text (0 ∷ []))) q.0),
        λ g. (drop_nul_keeps r ∙ (q.1 g).0, (q.1 g).1),
      )
