-- ===== src/MiParser/Scan.antt =====
-- Reading the cells of a buffer that holds a text: the bytes of its first line, and where it ends.
use gdbwire.Base.{
  ℕ, ◌+◌, ◌≡◌, refl, ap, ◌∙◌, subst, List, [], ◌∷◌, ◌++◌, map, append_assoc, Option, some, true,
  false, ◌&&◌, Bool-cases, inl, inr, Bytes, ltb, ◌==◌, mem_byte, length, length-append, Mem, value,
  bind_exec, arith,
}
use mathlib.Core.List.{map-append}
use gdbwire.StringBuf.{Cell, load}
use gdbwire.StringBuf.Holds.{load_middle}
use gdbwire.StringBuf.Find.{first_of}
use gdbwire.MiParser.{line_breaks, load_bytes, line_end, has_newline}
use gdbwire.MiParser.Cut.{ends_line, line_size}

abbrev pub cells : Bytes → Bytes → List Cell → Option (List Cell)
cells pre bs rest = some (map some (pre ++ bs) ++ rest)

read_cell :
    (pre : Bytes) (b : ℕ) (bs : Bytes) (rest : List Cell) (pos : ℕ) (mem : Mem)
    → pos ≡ length pre
    → load (cells pre (b ∷ bs) rest) pos mem ≡ value b mem
read_cell pre b bs rest pos mem e = rw e (
    subst (λ l. load (some l) (length pre) mem ≡ value b mem) (simp (map-append, append_assoc))
      (load_middle pre b (map some bs ++ rest) mem))

move_cell :
    (pre : Bytes) (b : ℕ) (bs : Bytes) (rest : List Cell)
    → cells (pre ++ (b ∷ [])) bs rest ≡ cells pre (b ∷ bs) rest
move_cell pre b bs rest = ap (λ t. some (map some t ++ rest)) (append_assoc pre (b ∷ []) bs)

pub load_bytes-cells :
    (bs pre post : Bytes) (rest : List Cell) (pos : ℕ) (mem : Mem)
    → pos ≡ length pre
    → load_bytes (cells pre (bs ++ post) rest) pos (length bs) mem ≡ value bs mem
unfolding load_bytes
load_bytes-cells [] pre post rest pos mem e = refl
load_bytes-cells (b ∷ bs) pre post rest pos mem e =
    let step : load_bytes (cells pre (b ∷ (bs ++ post)) rest) (pos + 1) (length bs) mem
        ≡ value bs mem =
      subst (λ p. load_bytes p (pos + 1) (length bs) mem ≡ value bs mem)
        (move_cell pre b (bs ++ post) rest)
        (load_bytes-cells bs (pre ++ (b ∷ [])) post rest (pos + 1) mem
          (omega (arith, length-append {0} pre (b ∷ [])))) in
    rw (read_cell pre b (bs ++ post) rest pos mem e, bind_exec, step, bind_exec) refl

line_end_hit :
    (b : ℕ) (bs pre : Bytes) (rest : List Cell) (size pos : ℕ) (mem : Mem)
    → pos ≡ length pre
    → size ≡ length pre + length (b ∷ bs)
    → mem_byte b line_breaks ≡ true
    → line_end (cells pre (b ∷ bs) rest) size pos mem ≡ value (pos + line_size (b ∷ bs)) mem
unfolding line_end
line_end_hit b [] pre rest size pos mem e z hit =
    let last : (b == b'\r' && ltb (pos + 1) size) ≡ false = ground arith in
    let ends : ends_line b [] ≡ true = ground arith in
    rw (read_cell pre b [] rest pos mem e, bind_exec, last, ends) refl
line_end_hit b (d ∷ bs) pre rest size pos mem e z hit =
    rw (read_cell pre b (d ∷ bs) rest pos mem e, bind_exec)
      (elim (Bool-cases (b == b'\r')) [
        | inl cr ↦
            let more : (b == b'\r' && ltb (pos + 1) size) ≡ true = ground arith in
            let next : load (cells pre (b ∷ (d ∷ bs)) rest) (pos + 1) mem ≡ value d mem =
              subst (λ p. load p (pos + 1) mem ≡ value d mem) (move_cell pre b (d ∷ bs) rest)
                (read_cell (pre ++ (b ∷ [])) d bs rest (pos + 1) mem
                  (omega (arith, length-append {0} pre (b ∷ [])))) in
            rw (more, next, bind_exec) (ap (λ n. value n mem) (ground arith))
        | inr lf ↦
            let last : (b == b'\r' && ltb (pos + 1) size) ≡ false = ground arith in
            let ends : ends_line b (d ∷ bs) ≡ true = ground arith in rw (last, ends) refl
      ])

pub line_end-line_size :
    (bs pre : Bytes) (rest : List Cell) (size pos : ℕ) (mem : Mem)
    → pos ≡ length pre
    → size ≡ length pre + length bs
    → has_newline bs ≡ true
    → line_end (cells pre bs rest) size (pos + first_of line_breaks bs) mem
      ≡ value (pos + line_size bs) mem
unfolding has_newline
line_end-line_size [] pre rest size pos mem e z h = absurd (ground arith)
line_end-line_size (b ∷ bs) pre rest size pos mem e z h =
    elim (Bool-cases (mem_byte b line_breaks)) [
      | inl hit ↦ rw hit (
          ap (λ n. line_end (cells pre (b ∷ bs) rest) size n mem) (omega arith)
          ∙ line_end_hit b bs pre rest size pos mem e z hit)
      | inr miss ↦
          let goes : ends_line b bs ≡ false = ground arith in
          rw (miss, goes)
            (ap (λ n. line_end (cells pre (b ∷ bs) rest) size n mem) (omega arith)
              ∙ subst
                  (λ p.
                    line_end p size (pos + 1 + first_of line_breaks bs) mem
                    ≡ value (pos + 1 + line_size bs) mem)
                  (move_cell pre b bs rest)
                  (line_end-line_size bs (pre ++ (b ∷ [])) rest size (pos + 1) mem
                    (omega (arith, length-append {0} pre (b ∷ [])))
                    (omega (arith, length-append {0} pre (b ∷ []))) (ground arith))
              ∙ ap (λ n. value n mem) (omega arith))
    ]
