-- ===== src/Tests/Lexer.antt =====
-- The lexer at concrete lines.
use gdbwire.Base.{◌≡◌, refl, [], ◌∷◌, ◌++◌, codes, length, Bytes, inr, arith}
use gdbwire.Lexer.{
  lexeme, lexemes, carrot, string_literal, comma, equal_sign, cstring, newline, best, rules,
  longest, deriv, nullable, pieces,
}
use gdbwire.Lexer.Munch.{Tiles, texts, line-Tiles}
use gdbwire.Lexer.Terminated.{Terminated, lexemes-Terminated}
use gdbwire.MiParser.Lines.{IsLine}

-- `^done, a="\"c"` and a line break
tokens_of_done :
    lexemes (codes "^done, a=" ++ (b'"' ∷ b'\\' ∷ b'"' ∷ b'c' ∷ b'"' ∷ b'\r' ∷ b'\n' ∷ []))
    ≡ lexeme carrot (codes "^") (record { start_column = 1; end_column = 1 })
      ∷ lexeme string_literal (codes "done") (record { start_column = 2; end_column = 5 })
      ∷ lexeme comma (codes ",") (record { start_column = 6; end_column = 6 })
      ∷ lexeme string_literal (codes "a") (record { start_column = 8; end_column = 8 })
      ∷ lexeme equal_sign (codes "=") (record { start_column = 9; end_column = 9 })
      ∷ lexeme cstring
          (b'"' ∷ b'\\' ∷ b'"' ∷ b'c' ∷ b'"' ∷ [])
          (record { start_column = 10; end_column = 14 })
      ∷ lexeme newline (b'\r' ∷ b'\n' ∷ []) (record { start_column = 15; end_column = 16 })
      ∷ []
unfolding lexemes best rules longest deriv nullable
tokens_of_done = refl

abbrev done_line : Bytes
done_line = codes "^done" ++ (b'\r' ∷ b'\n' ∷ [])

line-Tiles_example :
    Tiles 1 done_line (pieces (length done_line) 1 done_line)
    × (texts (pieces (length done_line) 1 done_line) ≡ done_line)
line-Tiles_example = line-Tiles done_line

abbrev done_line-IsLine : IsLine done_line
done_line-IsLine = record {
  body = codes "^done";
  brk = b'\r' ∷ b'\n' ∷ [];
  whole = refl;
  calm = (
    (ground arith, ground arith),
    (
      (ground arith, ground arith),
      (
        (ground arith, ground arith),
        ((ground arith, ground arith), ((ground arith, ground arith), tt)),
      ),
    ),
  );
  ended = inr (inr refl);
}

lexemes-Terminated_example : Terminated (b'\r' ∷ b'\n' ∷ []) (lexemes done_line)
lexemes-Terminated_example = lexemes-Terminated done_line done_line-IsLine
