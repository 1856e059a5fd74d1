-- ===== src/MiParser/Next.antt =====
-- `gdbwire_mi_parser_get_next_line`: the line that it takes off the buffer.
use gdbwire.Base.{
  ℕ, ◌+◌, ◌<◌, ◌≡◌, refl, ap, sym, ◌∙◌, subst, [], ◌∷◌, ◌++◌, map, Option, none, some, true, false,
  Bool-cases, inl, inr, Bytes, ◌==◌, length, take, drop, length-take, take-append-drop, Mem, value,
  Ends, Ends-bind, bind_exec, Exec, ◌>>=◌, ◌≢◌, all_granted, arith,
}
use gdbwire.StringBuf.{
  Status, succeeded, failed, GdbwireString, size_mod, append_bytes, create, erase_range,
}
use gdbwire.StringBuf.Holds.{Outcome, Holds}
use gdbwire.StringBuf.Append.{append_bytes_lem, Grants}
use gdbwire.StringBuf.Create.{create_lem, Fresh}
use gdbwire.StringBuf.Erase.{erase_range_lem, Erases}
use gdbwire.StringBuf.Find.{first_of, find_first_of-first_of}
use gdbwire.MiParser.{
  line_breaks, load_bytes, line_end, take_line, get_next_line, has_newline, asserted_string,
  asserted_status,
}
use gdbwire.MiParser.Cut.{line_size, first_of-has_newline, first_of-no_newline, line_size_bounds}
use gdbwire.MiParser.Scan.{cells, load_bytes-cells, line_end-line_size}

-- The steps of `take_line`, each where the allocator refuses nothing.
module _ {B : Type 0} (Q : B → Mem → Type 0) where
  create-bind :
      (mem : Mem) (k : GdbwireString → Mem → Exec B)
      → all_granted mem ≡ true
      → ((s : GdbwireString) (m : Mem) → Holds s [] → all_granted m ≡ true → Ends Q (k s m))
      → Ends Q (bind_exec (create mem) (λ o. asserted_string o >>= k))
  create-bind mem k g next = Ends-bind _ Q (create mem) _ (create_lem mem) after
    where
      after :
          (o : Option GdbwireString) (m : Mem)
          → Fresh o × (all_granted mem ≡ true → (o ≢ none) × (all_granted m ≡ true))
          → Ends Q ((asserted_string o >>= k) m)
      after none m (f, w) = absurd ((w g).0 refl)
      after (some s) m (f, w) = next s m f.0 (w g).1

  append-bind :
      (s : GdbwireString) (bs ds : Bytes) (mem : Mem) (k : GdbwireString → Mem → Exec B)
      → Holds s bs
      → length bs + length ds + 4096 < size_mod
      → all_granted mem ≡ true
      → ((s1 : GdbwireString) (m : Mem)
          → Holds s1 (bs ++ ds)
          → all_granted m ≡ true
          → Ends Q (k s1 m))
      → Ends Q (bind_exec (append_bytes s ds mem) (λ r. asserted_status r >>= k))
  append-bind s bs ds mem k h lt g next =
      Ends-bind _ Q (append_bytes s ds mem) _ (append_bytes_lem ds s bs mem h lt) after
    where
      after :
          (r : Status × GdbwireString) (m : Mem)
          → Outcome (bs ++ ds) r × Grants mem r.0 m
          → Ends Q ((asserted_status r >>= k) m)
      after (succeeded, s1) m (o, w) = next s1 m o (w g).1
      after (failed, s1) m (o, w) = absurd (ground (arith, (w g).0))

  erase-bind :
      (s : GdbwireString) (bs : Bytes) (n : ℕ) (mem : Mem) (k : GdbwireString → Mem → Exec B)
      → Holds s bs
      → 0 < length bs
      → n < size_mod
      → ((s1 : GdbwireString) → Holds s1 (drop n bs) → Ends Q (k s1 mem))
      → Ends Q (bind_exec (erase_range s 0 n mem) (λ r. asserted_status r >>= k))
  erase-bind s bs n mem k h some_byte lt next =
      Ends-bind _ Q (erase_range s 0 n mem) _ (erase_range_lem s bs 0 n mem h (omega arith)) after
    where
      after :
          (r : Status × GdbwireString) (m : Mem)
          → Erases s bs 0 n r × (m ≡ mem)
          → Ends Q ((asserted_status r >>= k) m)
      after (succeeded, s1) m (e, u) =
          let same : 0 + n ≡ n = omega arith in
          rw u (next s1 (subst (λ i. Holds s1 (drop i bs)) same e.1))
      after (failed, s1) m (e, u) = absurd (omega (arith, e.0))

-- What `gdbwire_mi_parser_get_next_line` leaves, from a buffer that holds `bs`.
abbrev pub Taken : Bytes → GdbwireString × Option GdbwireString → Type 0
Taken bs (buffer, none) = (has_newline bs ≡ false) × Holds buffer bs
Taken bs (buffer, some line) =
    (has_newline bs ≡ true)
    × Holds line (take (line_size bs) bs ++ (0 ∷ []))
    × Holds buffer (drop (line_size bs) bs)

take_line-Taken :
    (s : GdbwireString) (bs : Bytes) (mem : Mem)
    → Holds s bs
    → length bs + 4097 < size_mod
    → all_granted mem ≡ true
    → has_newline bs ≡ true
    → Ends (λ r m. Taken bs r × (all_granted m ≡ true)) (take_line s (line_size bs) mem)
unfolding take_line
take_line-Taken s bs mem h lt g br = create-bind _ mem _ g λ line m1 h1 g1.
    rw (bytes_read m1, bind_exec)
      (append-bind _ line [] (take n bs) m1 _ h1 (omega (arith, size, bounds)) g1 λ line1 m2 h2 g2.
        append-bind _ line1 (take n bs) (0 ∷ []) m2 _ h2 (omega (arith, size, bounds)) g2
          λ line2 m3 h3 g3.
            erase-bind _ s bs n m3 _ h (omega (arith, bounds)) (omega (arith, bounds))
              λ s1 h4. ((br, h3, h4), g3))
  where
    n : ℕ
    n = line_size bs

    bounds : (0 < n) × (n < length bs + 1)
    bounds = line_size_bounds bs br

    size : length (take n bs) ≡ n
    size = omega (arith, length-take {0} n bs, bounds)

    bytes_read : (m : Mem) → load_bytes s.contents 0 n m ≡ value (take n bs) m
    bytes_read m =
        subst (λ i. load_bytes s.contents 0 i m ≡ value (take n bs) m) size
          (subst (λ p. load_bytes p 0 (length (take n bs)) m ≡ value (take n bs) m)
            (sym
              (h.allocated ∙ ap (λ t. some (map some t ++ h.rest)) (sym (take-append-drop n bs))))
            (load_bytes-cells (take n bs) [] (drop n bs) h.rest 0 m refl))

line_end_at :
    (s : GdbwireString) (bs : Bytes) (mem : Mem)
    → Holds s bs
    → has_newline bs ≡ true
    → line_end s.contents s.size (first_of line_breaks bs) mem ≡ value (line_size bs) mem
line_end_at s bs mem h br =
    rw (h.allocated, h.sized)
      (ap (λ i. line_end (cells [] bs h.rest) (length bs) i mem) (omega arith)
        ∙ line_end-line_size bs [] h.rest (length bs) 0 mem refl (omega arith) br
        ∙ ap (λ i. value i mem) (omega arith))

-- `gdbwire_mi_parser_get_next_line` returns, where the buffer's size is in range and the allocator
-- refuses nothing. It takes the first line off the buffer, with its break and a NUL behind it, if
-- the buffer has a line break, and else gives no line and leaves the buffer.
pub get_next_line_lem :
    (s : GdbwireString) (bs : Bytes) (mem : Mem)
    → Holds s bs
    → length bs + 4097 < size_mod
    → all_granted mem ≡ true
    → Ends (λ r m. Taken bs r × (all_granted m ≡ true)) (get_next_line s mem)
unfolding get_next_line
get_next_line_lem s bs mem h lt g =
    rw (find_first_of-first_of s bs line_breaks mem h, bind_exec)
      (elim (Bool-cases (has_newline bs)) [
        | inl br ↦
            let found : (first_of line_breaks bs == s.size) ≡ false =
              ground (arith, first_of-has_newline bs br, h.sized) in
            rw (found, line_end_at s bs mem h br, bind_exec) (take_line-Taken s bs mem h lt g br)
        | inr whole ↦
            let missed : (first_of line_breaks bs == s.size) ≡ true =
              ground (arith, first_of-no_newline bs whole, h.sized) in
            rw missed ((whole, h), g)
      ])
