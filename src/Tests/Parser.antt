-- ===== src/Tests/Parser.antt =====
-- The line splitter at concrete inputs, with a line parser that keeps its lines.
use gdbwire.Base.{
  ◌≡◌, refl, [], ◌∷◌, ◌++◌, List, map, none, some, true, false, Bytes, codes, replicate, value,
  Ends, arith, all_granted, M, GdbwireResult, gdbwire_ok, gdbwire_logic, ◌>>=◌, ◌==◌,
}
use gdbwire.StringBuf.{GdbwireString}
use gdbwire.StringBuf.Holds.{Holds}
use gdbwire.MiParser.{MiParser, push_data, get_next_line, has_newline}
use gdbwire.MiParser.Next.{Taken, get_next_line_lem}
use gdbwire.MiParser.Feed.{Parses, Gives, pushed}
use gdbwire.MiParser.Push.{push_data-pushed, push_data-chunks}

-- A line parser that keeps the lines, and refuses those that begin with '!'.
abbrev keep : List Bytes → Bytes → GdbwireResult × List Bytes
keep ls [] = (gdbwire_ok, ls)
keep ls (c ∷ cs) = elim (c == b'!') [
  | true ↦ (gdbwire_logic, ls)
  | false ↦ (gdbwire_ok, ls ++ ((c ∷ cs) ∷ []))
]

abbrev keep_line : List Bytes → Bytes → M (GdbwireResult × List Bytes)
keep_line ls text mem = value (keep ls text) mem

keep-Parses : Parses keep_line keep
keep-Parses = record { answers = λ p text mem full ok g. (refl, g) }

-- "ab" is buffered, in eight bytes.
abbrev buffer : GdbwireString
buffer = record {
  contents = some (map some (codes "ab") ++ replicate 6 none);
  size = 2;
  capacity = 8;
}

buffer-Holds : Holds buffer (codes "ab")
buffer-Holds = record {
  rest = replicate 6 none;
  allocated = refl;
  sized = refl;
  capacious = refl;
  bounded = omega arith;
}

abbrev parser : MiParser (List Bytes)
parser = record { buffer = buffer; state = [] }

-- "c\r\nd\n!e\nf": a line, a second one, one that is refused, and a rest.
abbrev bytes : Bytes
bytes = b'c' ∷ b'\r' ∷ b'\n' ∷ b'd' ∷ b'\n' ∷ b'!' ∷ b'\n' ∷ b'f' ∷ []

push_data-pushed_example :
    Ends
      (λ r m. Gives (pushed keep (codes "ab") bytes []) r × (all_granted m ≡ true))
      (push_data keep_line parser bytes [])
push_data-pushed_example =
    push_data-pushed keep_line keep keep-Parses parser (codes "ab") bytes [] buffer-Holds
      (omega arith) refl refl

abbrev first_bytes : Bytes
first_bytes = b'c' ∷ b'\n' ∷ b'd' ∷ []

abbrev last_bytes : Bytes
last_bytes = b'e' ∷ b'\r' ∷ b'\n' ∷ []

push_data-chunks_example :
    Ends
      (λ r m.
        Gives (pushed keep (codes "ab") (first_bytes ++ last_bytes) []) r × (all_granted m ≡ true))
      ((push_data keep_line parser first_bytes >>= λ r. push_data keep_line r.1 last_bytes) [])
unfolding has_newline
push_data-chunks_example =
    push_data-chunks keep_line keep keep-Parses parser (codes "ab") first_bytes last_bytes
      ((codes "abc" ++ (b'\n' ∷ [])) ∷ []) (codes "d") [] buffer-Holds (omega arith) refl refl refl
      refl refl refl

abbrev line_buffer : GdbwireString
line_buffer = record {
  contents = some (map some (codes "^done" ++ (b'\r' ∷ b'\n' ∷ [])) ++ (none ∷ []));
  size = 7;
  capacity = 8;
}

line_buffer-Holds : Holds line_buffer (codes "^done" ++ (b'\r' ∷ b'\n' ∷ []))
line_buffer-Holds = record {
  rest = none ∷ [];
  allocated = refl;
  sized = refl;
  capacious = refl;
  bounded = omega arith;
}

get_next_line_lem_example :
    Ends
      (λ r m. Taken (codes "^done" ++ (b'\r' ∷ b'\n' ∷ [])) r × (all_granted m ≡ true))
      (get_next_line line_buffer [])
get_next_line_lem_example =
    get_next_line_lem line_buffer (codes "^done" ++ (b'\r' ∷ b'\n' ∷ [])) [] line_buffer-Holds
      (omega arith) refl
