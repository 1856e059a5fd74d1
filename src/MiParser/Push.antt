-- ===== src/MiParser/Push.antt =====
-- `gdbwire_mi_parser_push_data` against its reference: one push, and two pushes in a row.
use gdbwire.Base.{
  suc, ◌+◌, ◌<◌, ◌≡◌, refl, ap, sym, ◌∙◌, subst, ◌++◌, append_assoc, true, false, Bool-cases, inl,
  inr, Bytes, length, length-append, arith, Mem, M, value, Ends, Ends-bind, ◌>>=◌, all_granted,
  GdbwireResult, gdbwire_ok, gdbwire_assert,
}
use gdbwire.StringBuf.{Status, succeeded, failed, GdbwireString, size_mod, append_bytes}
use gdbwire.StringBuf.Holds.{Holds, Outcome}
use gdbwire.StringBuf.Append.{append_bytes_lem, Grants}
use gdbwire.MiParser.{MiParser, drain, push_data, has_newline}
use gdbwire.MiParser.Cut.{split}
use gdbwire.MiParser.Feed.{ParsesOn, Parses, AlwaysOk, LinesOk, LinesOk-all, Gives, feed, pushed}
use gdbwire.MiParser.Texts.{nul_free}
use gdbwire.MiParser.Drain.{drain-feed}
use gdbwire.MiParser.Chunks.{
  cuts_break, split-rest, feed-rest, feed-append, pushed-feed, nul_free-append, split-tail_part,
  cuts_break-behind,
}

module _ {P : Type 0} (parse_line : P → Bytes → M (GdbwireResult × P))
    (parse : P → Bytes → GdbwireResult × P) where
  -- A push where each line that is parsed meets a state that is fit for it, under the conditions of
  -- the next theorem: the code, the state and the bytes buffered are those of the reference.
  pub push_data-fed :
      (Ok : P → Bytes → Type 0)
      → ParsesOn Ok parse_line parse
      → (p : MiParser P) (bs bytes : Bytes) (mem : Mem) → Holds p.buffer bs
      → length bs + length bytes + 4097 < size_mod
      → nul_free (bs ++ bytes) ≡ true
      → LinesOk parse Ok (split (bs ++ bytes)).0 p.state
      → all_granted mem ≡ true
      → Ends
          (λ r m. Gives (pushed parse bs bytes p.state) r × (all_granted m ≡ true))
          (push_data parse_line p bytes mem)
  unfolding push_data
  push_data-fed Ok parses p bs bytes mem h lt free lines g =
      Ends-bind _ _ (append_bytes p.buffer bytes mem) _
        (append_bytes_lem bytes p.buffer bs mem h (omega arith)) after
    where
      after :
          (r : Status × GdbwireString) (m : Mem)
          → Outcome (bs ++ bytes) r × Grants mem r.0 m
          → Ends
              (λ r1 m1. Gives (pushed parse bs bytes p.state) r1 × (all_granted m1 ≡ true))
              ((elim r.0 as (λ _. M (GdbwireResult × MiParser P)) [
                | failed ↦ λ m1. value (gdbwire_assert, record p { buffer = r.1 }) m1
                | succeeded ↦ elim (has_newline bytes) as (λ _. M (GdbwireResult × MiParser P)) [
                  | true ↦ drain parse_line (suc r.1.size) (record p { buffer = r.1 })
                  | false ↦ λ m1. value (gdbwire_ok, record p { buffer = r.1 }) m1
                ]
              ])
                m)
      after (failed, s) m (o, w) = absurd (ground (arith, (w g).0))
      after (succeeded, s) m (o, w) = elim (Bool-cases (has_newline bytes)) [
        | inl br ↦ rw br (
            drain-feed parse_line parse Ok parses (suc s.size) (record p { buffer = s })
              (bs ++ bytes) m (omega (arith, o.sized)) o free
              (omega (arith, length-append {0} bs bytes)) lines (w g).1)
        | inr whole ↦ rw whole ((refl, refl, o), (w g).1)
      ]

  -- A push returns, where the buffer's size stays in range, no byte is NUL and the allocator
  -- refuses nothing: the loop ends, no assertion but that on a line's parse fails, and no access
  -- is out of bounds. The lines of what was buffered and pushed go to the parse function in order,
  -- up to the first that it refuses, and the bytes behind the last line parsed stay buffered;
  -- without a break in the new bytes nothing is parsed.
  pub push_data-pushed :
      Parses parse_line parse
      → (p : MiParser P) (bs bytes : Bytes) (mem : Mem) → Holds p.buffer bs
      → length bs + length bytes + 4097 < size_mod
      → nul_free (bs ++ bytes) ≡ true
      → all_granted mem ≡ true
      → Ends
          (λ r m. Gives (pushed parse bs bytes p.state) r × (all_granted m ≡ true))
          (push_data parse_line p bytes mem)
  push_data-pushed parses p bs bytes mem h lt free g =
      push_data-fed AlwaysOk parses p bs bytes mem h lt free
        (LinesOk-all parse (split (bs ++ bytes)).0 p.state) g

  -- Where two pushes do not cut a "\r\n" and the first returns GDBWIRE_OK, they do what one push of
  -- all the bytes does, under the conditions of a push and from a buffer without a break: the same
  -- code, the same other state and the same bytes buffered.
  pub push_data-chunks :
      Parses parse_line parse
      → (p : MiParser P) (bs xs ys : Bytes) (p1 : P) (rest : Bytes) (mem : Mem) → Holds p.buffer bs
      → length bs + length xs + length ys + 4097 < size_mod
      → nul_free (bs ++ xs) ≡ true
      → nul_free ys ≡ true
      → all_granted mem ≡ true
      → has_newline bs ≡ false
      → cuts_break xs ys ≡ false
      → pushed parse bs xs p.state ≡ (gdbwire_ok, (p1, rest))
      → Ends
          (λ r m. Gives (pushed parse bs (xs ++ ys) p.state) r × (all_granted m ≡ true))
          ((push_data parse_line p xs >>= λ r. push_data parse_line r.1 ys) mem)
  push_data-chunks parses p bs xs ys p1 rest mem h lt free free1 g whole cut ok =
      Ends-bind _ _ (push_data parse_line p xs mem) _
        (push_data-pushed parses p bs xs mem h (omega arith) free g)
        λ r m (q, g1).
          let gives = subst (λ a. Gives a r) ok q in
          subst
            (λ a.
              Ends (λ r1 m1. Gives a r1 × (all_granted m1 ≡ true)) (push_data parse_line r.1 ys m))
            (ap (λ s. pushed parse rest ys s) gives.1 ∙ same)
            (push_data-pushed parses r.1 rest ys m gives.2
              (omega (arith, part.0, ap length tail, length-append {0} bs xs))
              (nul_free-append rest ys (ap nul_free tail ∙ part.1) free1) g1)
    where
      fed : feed parse (bs ++ xs) p.state ≡ (gdbwire_ok, (p1, rest))
      fed = sym (pushed-feed parse bs xs p.state whole) ∙ ok

      tail : rest ≡ (split (bs ++ xs)).1
      tail = feed-rest parse (bs ++ xs) p.state p1 rest fed

      part :
          (length (split (bs ++ xs)).1 < length (bs ++ xs) + 1)
          × (nul_free (split (bs ++ xs)).1 ≡ true)
      part = let q = split-tail_part (bs ++ xs) free in (omega (arith, q.0), q.1)

      same : pushed parse rest ys p1 ≡ pushed parse bs (xs ++ ys) p.state
      same =
          pushed-feed parse rest ys p1 (ap has_newline tail ∙ split-rest (bs ++ xs))
          ∙ feed-append parse (bs ++ xs) ys p.state p1 rest (cuts_break-behind bs xs ys whole cut)
              fed
          ∙ ap (λ t. feed parse t p.state) (append_assoc bs xs ys)
          ∙ sym (pushed-feed parse bs (xs ++ ys) p.state whole)
