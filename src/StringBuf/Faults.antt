-- ===== src/StringBuf/Faults.antt =====
-- What goes wrong outside the conditions of the other theorems: appending to a string after a
-- refused realloc, and erasing a range whose end is not in the range of `size_t`.
use gdbwire.Base.{
  ℕ, ◌+◌, ◌-◌, ◌≤◌, ◌<◌, ◌≡◌, refl, ◌∷◌, none, true, false, Bytes, leb, Mem, fault, length, arith,
  bind_exec, Exec, value, stop, pure, sym, ◌∙◌,
}
use gdbwire.StringBuf.{
  Status, succeeded, GdbwireString, size_mod, add_size, sub_size, store, shift, reserve, put,
  append_bytes, erase_range, failed, increase_capacity, next_capacity, realloc,
}
use gdbwire.StringBuf.Holds.{Holds, next_capacity_bounds}

-- Where there is room for no more byte and realloc refuses, an append of at least one byte returns
-- -1, and every append of at least one byte to the string that it leaves writes through NULL.
pub append_bytes-refused :
    (s : GdbwireString) (bs : Bytes) (b : ℕ) (ds : Bytes) (mem : Mem)
    → Holds s bs
    → s.capacity ≡ s.size
    → length bs + 4096 < size_mod
    → (s1 : GdbwireString) × (append_bytes s (b ∷ ds) (false ∷ mem) ≡ value (failed, s1) mem)
      × ((c : ℕ) (cs : Bytes) (m : Mem) → append_bytes s1 (c ∷ cs) m ≡ fault)
unfolding append_bytes reserve increase_capacity realloc put store
append_bytes-refused s bs b ds mem h full lt = (
  record s { contents = none; capacity = next_capacity s.capacity },
  rw leb-full refl,
  λ c cs m. rw leb-roomy refl,
)
  where
    leb-full : leb s.capacity s.size ≡ true
    leb-full = ground arith

    leb-roomy : leb (next_capacity s.capacity) s.size ≡ false
    leb-roomy =
        let bounds = next_capacity_bounds s.capacity (omega (arith, h.sized)) in
        ground (arith, bounds.0)

value-injective : {A : Type 0} (a b : A) (m n : Mem) → value a m ≡ value b n → a ≡ b
value-injective a b m n e = cc

bind_pure-eq :
    {A B : Type 0} (e : Exec A) (g : A → B) {b : B} {m : Mem}
    → bind_exec e (λ a. pure (g a)) ≡ value b m
    → (a : A) × (b ≡ g a)
bind_pure-eq (value a n) g {b} {m} e = (a, sym (value-injective (g a) b n m e))
bind_pure-eq (stop r n) g e = absurd (cc)
bind_pure-eq fault g e = absurd (cc)

wrapped_branch :
    (s : GdbwireString) (pos count : ℕ) (mem : Mem)
    → pos < s.size
    → s.size < size_mod
    → count < size_mod
    → size_mod ≤ pos + count
    → erase_range s pos count mem
      ≡ bind_exec
          (shift (s.size - (pos + count - size_mod)) s.contents pos (pos + count - size_mod) mem)
          (λ p. pure (succeeded, record s { contents = p; size = sub_size s.size count }))
unfolding erase_range
wrapped_branch s pos count mem inside small c w =
    rw (from, le→leb s.size pos inside, le→leb s.size (pos + count - size_mod) (omega arith))
  where
    from : add_size pos count ≡ pos + count - size_mod
    from = omega arith

    le→leb : (a b : ℕ) → b < a → leb a b ≡ false
    le→leb a b h = ground arith

-- Where `pos + count` leaves the range of `size_t` and the capacity is below half of that range, an
-- erase inside the string that returns at all reports success and leaves the string longer.
pub erase_range_wraps :
    (s : GdbwireString) (bs : Bytes) (pos count : ℕ) (mem : Mem) {r : Status × GdbwireString}
    {m : Mem}
    → Holds s bs
    → s.capacity + s.capacity < size_mod
    → pos < length bs
    → count < size_mod
    → size_mod ≤ pos + count
    → erase_range s pos count mem ≡ value r m
    → (r.0 ≡ succeeded) × (s.size < r.1.size)
erase_range_wraps s bs pos count mem h half inside c w e =
    let (p, eq) =
      bind_pure-eq
        (shift (s.size - (pos + count - size_mod)) s.contents pos (pos + count - size_mod) mem)
        (λ p. (succeeded, record s { contents = p; size = sub_size s.size count }))
        (sym (
            wrapped_branch s pos count mem (omega (arith, h.sized))
              (omega (arith, h.sized, h.capacious, h.bounded)) c w)
          ∙ e) in
    rw eq (refl, omega (arith, h.sized, h.capacious, h.bounded))
