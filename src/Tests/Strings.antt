-- ===== src/Tests/Strings.antt =====
-- The byte buffer at concrete inputs.
use gdbwire.Base.{
  ℕ, Bytes, Mem, false, ◌-◌, ◌^◌, ◌≡◌, ◌≢◌, refl, ◌<◌, [], ◌∷◌, ◌++◌, map, none, some, true, codes,
  replicate, value, fault, Ends, arith, all_granted,
}
use gdbwire.StringBuf.{
  succeeded, failed, GdbwireString, append_bytes, append_text, create, find_first_of, erase_range,
  shift, store, load,
}
use gdbwire.StringBuf.Holds.{Holds, Outcome}
use gdbwire.StringBuf.Append.{Grants, TextOutcome, append_bytes_lem, append_text_lem}
use gdbwire.StringBuf.Create.{Fresh, create_lem}
use gdbwire.StringBuf.Erase.{Erases, erase_range_lem}
use gdbwire.StringBuf.Find.{IsFirst, find_first_of_lem}
use gdbwire.StringBuf.Faults.{append_bytes-refused, erase_range_wraps}

-- A string that holds "abc" in eight bytes.
abbrev abc : GdbwireString
abc = record {
  contents = some (map some (codes "abc") ++ replicate 5 none);
  size = 3;
  capacity = 8;
}

abc-Holds : Holds abc (codes "abc")
abc-Holds = record {
  rest = replicate 5 none;
  allocated = refl;
  sized = refl;
  capacious = refl;
  bounded = omega arith;
}

-- A string that holds "abc" in three bytes.
abbrev full : GdbwireString
full = record { contents = some (map some (codes "abc")); size = 3; capacity = 3 }

full-Holds : Holds full (codes "abc")
full-Holds = record {
  rest = [];
  allocated = refl;
  sized = refl;
  capacious = refl;
  bounded = omega arith;
}

append_bytes_lem_example :
    Ends
      (λ r m. Outcome (codes "abc" ++ codes "de") r × Grants [] r.0 m)
      (append_bytes abc (codes "de") [])
append_bytes_lem_example =
    append_bytes_lem (codes "de") abc (codes "abc") [] abc-Holds (omega arith)

append_text_lem_example :
    Ends
      (λ r m. TextOutcome (codes "abc" ++ codes "de") r × Grants [] r.0 m)
      (append_text abc (codes "de") [])
append_text_lem_example = append_text_lem (codes "de") abc (codes "abc") [] abc-Holds (omega arith)

create_lem_example :
    Ends
      (λ o m.
        Fresh o × (all_granted (true ∷ true ∷ []) ≡ true → (o ≢ none) × (all_granted m ≡ true)))
      (create (true ∷ true ∷ []))
create_lem_example = create_lem (true ∷ true ∷ [])

erase_range_lem_example :
    Ends (λ r m. Erases abc (codes "abc") 0 2 r × (m ≡ [])) (erase_range abc 0 2 [])
erase_range_lem_example = erase_range_lem abc (codes "abc") 0 2 [] abc-Holds (omega arith)

find_first_of_lem_example :
    Ends
      (λ p m. IsFirst (codes "xc") (codes "abc") p × (m ≡ []))
      (find_first_of (some abc) (some (codes "xc")) [])
find_first_of_lem_example = find_first_of_lem abc (codes "abc") (codes "xc") [] abc-Holds

append_bytes-refused_example :
    (s1 : GdbwireString) × (append_bytes full (codes "de") (false ∷ []) ≡ value (failed, s1) [])
    × ((c : ℕ) (cs : Bytes) (m : Mem) → append_bytes s1 (c ∷ cs) m ≡ fault)
append_bytes-refused_example =
    append_bytes-refused full (codes "abc") b'd' (codes "e") [] full-Holds refl (omega arith)

-- What an erase from position 2 with a count of SIZE_MAX leaves of "abc".
abbrev grown : GdbwireString
grown = record {
  contents = some (map some (codes "abbb") ++ replicate 4 none);
  size = 4;
  capacity = 8;
}

erase_wrapped : erase_range abc 2 (2 ^ 64 - 1) [] ≡ value (succeeded, grown) []
unfolding erase_range shift load store
erase_wrapped = refl

erase_range_wraps_example : (succeeded ≡ succeeded) × (abc.size < grown.size)
erase_range_wraps_example =
    erase_range_wraps abc (codes "abc") 2 (2 ^ 64 - 1) [] abc-Holds (omega arith) (omega arith)
      (omega arith) (omega arith) erase_wrapped
