-- ===== src/Tests/Grammar.antt =====
-- C strings and the push parser at concrete inputs.
use gdbwire.Base.{
  ◌⊎◌, arith, none, some, ◌≡◌, ◌≤◌, ◌+◌, length, [], ◌∷◌, ◌++◌, true, refl, Bytes, codes, Ends,
  all_granted,
}
use gdbwire.Pt.{MiPosition, MiOutputVariant, output_result, output, null}
use gdbwire.Lexer.{lexeme, carrot, string_literal, newline}
use gdbwire.Grammar.{unescape_cstring, result_class}
use gdbwire.Grammar.Productions.{
  Lexemes, Output, output_newline, result_record, no_token, no_results,
}
use gdbwire.Grammar.Machine.{at_start, at_carrot, shifted, step, push_all}
use gdbwire.Grammar.Accept.{push_all-Output, Output-unique}
use gdbwire.Grammar.Viable.{IsViable, Shifts-IsViable}
use gdbwire.Grammar.Verdict.{Accepted, Rejected, push_all-Verdict}
use gdbwire.Grammar.Unescape.{
  escaped, as_read, all_shown, unescape_cstring-escaped, unescape_cstring-length,
}

-- A line break, a quote, and a byte that GDB writes as octal.
abbrev mixed : Bytes
mixed = codes "a" ++ (b'\n' ∷ b'"' ∷ 1 ∷ [])

unescape_cstring-escaped_example :
    Ends
      (λ r m. (r ≡ as_read mixed) × (all_shown mixed ≡ true → r ≡ mixed) × (all_granted m ≡ true))
      (unescape_cstring (b'"' ∷ escaped mixed) (true ∷ []))
unescape_cstring-escaped_example = unescape_cstring-escaped mixed (true ∷ []) refl

mixed_reads : as_read mixed ≡ codes "a\n\"\\001"
mixed_reads = refl

-- "\q" is no escape of GDB.
unescape_cstring-length_example :
    Ends
      (λ r m. (length r + 2 ≤ 4) × (all_granted m ≡ true))
      (unescape_cstring (b'"' ∷ b'\\' ∷ b'q' ∷ b'"' ∷ []) [])
unescape_cstring-length_example = unescape_cstring-length b'"' b'\\' (b'q' ∷ b'"' ∷ []) [] refl

abbrev column : MiPosition
column = record { start_column = 1; end_column = 1 }

-- `^done` and a line break.
abbrev done_tokens : Lexemes
done_tokens =
    lexeme carrot (codes "^") column
    ∷ lexeme string_literal (codes "done") column
    ∷ lexeme newline (b'\n' ∷ []) column
    ∷ []

abbrev done_variant : MiOutputVariant
done_variant =
    output_result
      (record { token = none; result_class = result_class (codes "done"); result = null })

done_tokens-Output : Output done_tokens done_variant []
done_tokens-Output =
    output_newline (b'\n' ∷ [])
      (result_record (codes "^") (codes "done") (no_token refl)
        (record { position = column; read = refl }) (record { position = column; read = refl })
        (no_results refl refl))
      (record { position = column; read = refl })

push_all-Output_example :
    push_all at_start none done_tokens ≡ push_all at_start (some (output done_variant none null)) []
push_all-Output_example = push_all-Output done_tokens [] done_variant none done_tokens-Output

Output-unique_example : done_variant ≡ done_variant
Output-unique_example =
    Output-unique done_tokens done_variant done_variant done_tokens-Output done_tokens-Output

-- `^ ^` and a line break: an error.
abbrev wrong_tokens : Lexemes
wrong_tokens =
    lexeme carrot (codes "^") column
    ∷ lexeme carrot (codes "^") column
    ∷ lexeme newline (b'\n' ∷ []) column
    ∷ []

push_all-Verdict_example :
    ((push_all at_start none wrong_tokens).0 ≡ at_start)
    × (Accepted wrong_tokens (push_all at_start none wrong_tokens).1
        ⊎ Rejected wrong_tokens (push_all at_start none wrong_tokens).1)
push_all-Verdict_example =
    push_all-Verdict (b'\n' ∷ []) wrong_tokens (ground arith, (ground arith, (refl, refl)))

carrot_shifted : step at_start carrot (codes "^") ≡ shifted (at_carrot none)
unfolding step
carrot_shifted = refl

Shifts-IsViable_example : IsViable (lexeme carrot (codes "^") column ∷ [])
Shifts-IsViable_example =
    Shifts-IsViable (at_carrot none) (lexeme carrot (codes "^") column ∷ [])
      (at_carrot none, carrot_shifted, refl)
