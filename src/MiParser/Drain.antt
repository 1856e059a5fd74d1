-- ===== src/MiParser/Drain.antt =====
-- The loop of `gdbwire_mi_parser_push_data` against the reference function `feed`.
use gdbwire.Base.{
  ℕ, zero, suc, ◌+◌, ◌<◌, ◌≡◌, refl, sym, subst, Option, none, some, true, Bytes, length, take,
  drop, Mem, M, value, Ends, Ends-bind, bind_exec, all_granted, arith, GdbwireResult, gdbwire_ok,
  gdbwire_assert, gdbwire_logic, gdbwire_nomem, length-drop,
}
use gdbwire.StringBuf.{GdbwireString, size_mod}
use gdbwire.StringBuf.Holds.{Holds}
use gdbwire.MiParser.{MiParser, returned, use_line, drain, get_next_line, line_text}
use gdbwire.MiParser.Cut.{line_size, line_size_bounds, split, split-with_line}
use gdbwire.MiParser.Lines.{IsLine, first_line-IsLine}
use gdbwire.MiParser.Next.{Taken, get_next_line_lem}
use gdbwire.MiParser.Feed.{ParsesOn, LinesOk, AfterOk, Gives, feed, behind_line}
use gdbwire.MiParser.Texts.{
  nul_free, nul_free-take, nul_free-drop, line_text-Holds, caught-bind, feed_first, feed_none,
}

module _ {P : Type 0} (parse_line : P → Bytes → M (GdbwireResult × P))
    (parse : P → Bytes → GdbwireResult × P) (Ok : P → Bytes → Type 0)
    (parses : ParsesOn Ok parse_line parse) where
  -- The loop does what `feed` says, and leaves an allocator that refuses nothing.
  abbrev Feeds : Bytes → P → GdbwireResult × MiParser P → Mem → Type 0
  Feeds bs p r m = Gives (feed parse bs p) r × (all_granted m ≡ true)

  -- Behind a line: `rest` is what the buffer holds then, and `next` the rest of the loop.
  parsed-bind :
      (next : MiParser P → M (GdbwireResult × MiParser P)) (q : MiParser P)
      (buffer line : GdbwireString) (text rest : Bytes) (mem : Mem)
      → Holds buffer rest
      → line_text line mem ≡ value text mem
      → IsLine text
      → Ok q.state text
      → AfterOk (LinesOk parse Ok (split rest).0) (parse q.state text)
      → all_granted mem ≡ true
      → ((p : P) (m : Mem)
          → LinesOk parse Ok (split rest).0 p
          → all_granted m ≡ true
          → Ends (Feeds rest p) (next (record { buffer = buffer; state = p }) m))
      → Ends
          (λ r m.
            Gives (behind_line (feed parse rest) rest (parse q.state text)) r
            × (all_granted m ≡ true))
          (use_line parse_line next q (returned (buffer, some line)) mem)
  unfolding use_line
  parsed-bind next q buffer line text rest mem h read full ok lines g go =
      rw (read, bind_exec)
        (Ends-bind _ _ (parse_line q.state text mem) _ (parses.answers q.state text mem full ok g)
          after)
    where
      after :
          (r : GdbwireResult × P) (m : Mem)
          → (r ≡ parse q.state text) × (all_granted m ≡ true)
          → Ends
              (λ r m.
                Gives (behind_line (feed parse rest) rest (parse q.state text)) r
                × (all_granted m ≡ true))
              (elim r.0 as (λ _. M (GdbwireResult × MiParser P)) [
                | gdbwire_ok ↦ next (record q { buffer = buffer; state = r.1 })
                | _ ↦ λ m. value (gdbwire_assert, record q { buffer = buffer; state = r.1 }) m
              ]
                m)
      after (gdbwire_ok, p) m (e, g1) =
          rw (sym e) (go p m (subst (AfterOk (LinesOk parse Ok (split rest).0)) (sym e) lines) g1)
      after (gdbwire_assert, p) m (e, g1) = rw (sym e) ((refl, refl, h), g1)
      after (gdbwire_logic, p) m (e, g1) = rw (sym e) ((refl, refl, h), g1)
      after (gdbwire_nomem, p) m (e, g1) = rw (sym e) ((refl, refl, h), g1)

  -- One round; `go` is about the rest of the loop.
  round-feed :
      (next : MiParser P → M (GdbwireResult × MiParser P)) (q : MiParser P) (bs : Bytes)
      → nul_free bs ≡ true
      → LinesOk parse Ok (split bs).0 q.state
      → ((q1 : MiParser P) (rest : Bytes) (m : Mem)
          → length rest < length bs
          → Holds q1.buffer rest
          → nul_free rest ≡ true
          → LinesOk parse Ok (split rest).0 q1.state
          → all_granted m ≡ true
          → Ends (Feeds rest q1.state) (next q1 m))
      → (r : GdbwireString × Option GdbwireString) (m : Mem) → Taken bs r × (all_granted m ≡ true)
      → Ends (Feeds bs q.state) (use_line parse_line next q (returned r) m)
  unfolding use_line
  round-feed next q bs free lines go (buffer, none) m ((whole, h1), g1) =
      rw (feed_none parse bs q.state whole) ((refl, refl, h1), g1)
  round-feed next q bs free lines go (buffer, some line) m ((br, h1, h2), g1) =
      subst
        (λ a.
          Ends (λ r m1. Gives a r × (all_granted m1 ≡ true))
            (use_line parse_line next q (returned (buffer, some line)) m))
        (sym (feed_first parse bs q.state br))
        (parsed-bind next q buffer line (take n bs) (drop n bs) m h2
          (line_text-Holds line (take n bs) m h1 (nul_free-take n bs free))
          (first_line-IsLine bs br) first.0 first.1 g1
          λ p m1 lines1 g2.
            go (record { buffer = buffer; state = p }) (drop n bs) m1 shorter h2
              (nul_free-drop n bs free) lines1 g2)
    where
      n : ℕ
      n = line_size bs

      first :
          Ok q.state (take n bs)
          × AfterOk (LinesOk parse Ok (split (drop n bs)).0) (parse q.state (take n bs))
      first = subst (λ r. LinesOk parse Ok r.0 q.state) (split-with_line bs br) lines

      shorter : length (drop n bs) < length bs
      shorter = omega (arith, length-drop {0} n bs, line_size_bounds bs br)

  pub drain-feed :
      (fuel : ℕ) (q : MiParser P) (bs : Bytes) (mem : Mem)
      → length bs < fuel
      → Holds q.buffer bs
      → nul_free bs ≡ true
      → length bs + 4097 < size_mod
      → LinesOk parse Ok (split bs).0 q.state
      → all_granted mem ≡ true
      → Ends (Feeds bs q.state) (drain parse_line fuel q mem)
  unfolding drain
  drain-feed zero q bs mem enough h free lt lines g = absurd (omega arith)
  drain-feed (suc fuel) q bs mem enough h free lt lines g =
      caught-bind _ _ (get_next_line q.buffer mem) _ (get_next_line_lem q.buffer bs mem h lt g) (
        round-feed (drain parse_line fuel) q bs free lines λ q1 rest m less h1 free1 lines1 g1.
          drain-feed fuel q1 rest m (omega arith) h1 free1 (omega arith) lines1 g1)
