-- ===== src/Tests/Line.antt =====
-- Lines from the bytes to the callbacks, for a client that keeps what it is given.
use gdbwire.Base.{
  ◌≡◌, refl, [], ◌∷◌, ◌++◌, List, map, none, some, true, Option, Bytes, codes, replicate, Mem,
  value, Ends, arith, all_granted, gdbwire_ok,
}
use gdbwire.StringBuf.{GdbwireString}
use gdbwire.StringBuf.Holds.{Holds}
use gdbwire.Pt.{
  MiOutputVariant, output_oob, output_result, output_prompt, output_parse_error, async, stream,
}
use gdbwire.Grammar.Machine.{Pstate, at_start}
use gdbwire.MiParser.{MiParser, push_data, has_newline}
use gdbwire.MiParser.Cut.{split}
use gdbwire.Wire.{Callbacks, dispatch, parse_line}
use gdbwire.Wire.Line.{Served, push_data-Served}
use gdbwire.Wire.Tokens.{parse_output}

abbrev pub Kept : Type 0
Kept = List MiOutputVariant

abbrev pub keep : MiOutputVariant → Option Bytes → Kept → Kept
keep v line kept = v ∷ kept

abbrev pub keeping : Callbacks Kept
keeping = record {
  stream_record_fn = some (λ r kept mem. value (output_oob (stream r) ∷ kept) mem);
  async_record_fn = some (λ r kept mem. value (output_oob (async r) ∷ kept) mem);
  result_record_fn = some (λ r kept mem. value (output_result r ∷ kept) mem);
  prompt_fn = some (λ line kept mem. value (output_prompt ∷ kept) mem);
  parse_error_fn =
      some (λ line token pos kept mem. value (output_parse_error token pos ∷ kept) mem);
}

pub keeps :
    (v : MiOutputVariant) (line : Option Bytes) (kept : Kept) (mem : Mem)
    → all_granted mem ≡ true
    → Ends
        (λ k m. (k ≡ keep v line kept) × (all_granted m ≡ true))
        (dispatch keeping v line kept mem)
unfolding dispatch
keeps (output_oob (async r)) line kept mem g = (refl, g)
keeps (output_oob (stream r)) line kept mem g = (refl, g)
keeps (output_result r) line kept mem g = (refl, g)
keeps output_prompt line kept mem g = (refl, g)
keeps (output_parse_error token pos) line kept mem g = (refl, g)

-- "^do" is buffered, in eight bytes.
abbrev buffer : GdbwireString
buffer = record {
  contents = some (map some (codes "^do") ++ replicate 5 none);
  size = 3;
  capacity = 8;
}

buffer-Holds : Holds buffer (codes "^do")
buffer-Holds = record {
  rest = replicate 5 none;
  allocated = refl;
  sized = refl;
  capacious = refl;
  bounded = omega arith;
}

abbrev parser : MiParser (Pstate × Kept)
parser = record { buffer = buffer; state = (at_start, []) }

-- "ne,\r\n(gdb)\n~": a parse error, the prompt, and a rest.
abbrev bytes : Bytes
bytes = codes "ne," ++ (b'\r' ∷ b'\n' ∷ []) ++ codes "(gdb)" ++ (b'\n' ∷ b'~' ∷ [])

push_data-Served_example :
    Ends
      (λ (code, q) m.
        (code ≡ gdbwire_ok)
        × (q.state.0 ≡ at_start)
        × Served keep (split (codes "^do" ++ bytes)).0 [] q.state.1
        × Holds q.buffer (split (codes "^do" ++ bytes)).1)
      (push_data (parse_line parse_output keeping) parser bytes [])
unfolding has_newline
push_data-Served_example =
    push_data-Served keeping keep (record { answers = keeps }) parser [] (codes "^do") bytes []
      buffer-Holds refl refl (omega arith) refl refl
