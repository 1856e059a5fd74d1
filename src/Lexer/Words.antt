-- ===== src/Lexer/Words.antt =====
-- What the rules of src/gdbwire_mi_lexer.l pick at a sign, a word, a number and a C string.
use gdbwire.Base.{
  ℕ, ◌≡◌, refl, [], ◌∷◌, ◌++◌, true, false, some, Bytes, length, take, get_elem?, arith, is_digit,
}
use gdbwire.MiParser.Lines.{AllBytes}
use gdbwire.Lexer.{
  string_literal, integer_literal, byte, plus, on, best, rules, is_letter, is_word, not_newline,
  identifier,
}
use gdbwire.Lexer.Derivatives.{Matches}
use gdbwire.Lexer.Stays.{Only}
use gdbwire.Lexer.First.{starts_rules, AllRules-Flagged, Within, Acts, best-text}
use gdbwire.Lexer.Absent.{
  absent-Within, absent-Acts, byte-Within, Only-Within, IsWordByte, IsName, many-Matches, absent,
  flags_below_sound, letter_table, digit_table, starts_rules-take,
}

word_at : get_elem? rules 19 ≡ some (on identifier string_literal)
unfolding rules
word_at = refl

number_at : get_elem? rules 17 ≡ some (on (plus (byte is_digit)) integer_literal)
unfolding rules
number_at = refl

identifier-IsWordByte : Only IsWordByte identifier
identifier-IsWordByte = ((λ c h. ground arith, λ c h. ground arith), λ c h. h)

name-Matches : (u : Bytes) → IsName u → Matches identifier u
name-Matches [] h = absurd h
name-Matches (c ∷ cs) h = (
  c ∷ [],
  cs,
  refl,
  (c ∷ [], [], refl, (c, refl, h.0), ([], refl, tt)),
  many-Matches is_word cs h.1,
)

-- A name is picked whole in front of a byte that is not of a name.
pub best-name :
    (u : Bytes) (d : ℕ) (ds : Bytes)
    → IsName u
    → is_word d ≡ false
    → best rules (u ++ (d ∷ ds)) ≡ some (length u, some string_literal)
unfolding rules
best-name [] d ds h other = absurd h
best-name (x ∷ us) d ds h other =
    best-text (x ∷ us) (d ∷ ds) 19 (on identifier string_literal) word_at (name-Matches (x ∷ us) h)
      (AllRules-Flagged (Within (x ∷ us) (d ∷ ds)) x rules _ (absent-Within x us (d ∷ ds)) flags (
        Only-Within IsWordByte (x ∷ us) d ds (on identifier string_literal) identifier-IsWordByte
            (λ k. cc),
        (byte-Within x us (d ∷ ds) not_newline (some string_literal), tt),
      ))
      (AllRules-Flagged (Acts (x ∷ us) (some string_literal)) x (take 20 rules)
        (absent 19 (true ∷ [])) (absent-Acts x us (some string_literal))
        (starts_rules-take 20 x rules _ flags) (λ k. refl, tt))
  where
    flags : starts_rules x rules ≡ absent 19 (true ∷ true ∷ false ∷ [])
    flags = flags_below_sound 123 is_letter _ x letter_table (ground (arith, h.0)) h.0

pub best-number :
    (x : ℕ) (us : Bytes) (d : ℕ) (ds : Bytes)
    → AllBytes (λ c. is_digit c ≡ true) (x ∷ us)
    → is_digit d ≡ false
    → best rules ((x ∷ us) ++ (d ∷ ds)) ≡ some (length (x ∷ us), some integer_literal)
unfolding rules
best-number x us d ds h other =
    best-text (x ∷ us) (d ∷ ds) 17 (on (plus (byte is_digit)) integer_literal) number_at
      (x ∷ [], us, refl, (x, refl, h.0), many-Matches is_digit us h.1)
      (AllRules-Flagged (Within (x ∷ us) (d ∷ ds)) x rules _ (absent-Within x us (d ∷ ds)) flags (
        Only-Within (λ c. is_digit c ≡ true) (x ∷ us) d ds
            (on (plus (byte is_digit)) integer_literal) (λ c k. k, λ c k. k) (λ k. cc),
        (byte-Within x us (d ∷ ds) not_newline (some string_literal), tt),
      ))
      (AllRules-Flagged (Acts (x ∷ us) (some integer_literal)) x (take 18 rules)
        (absent 17 (true ∷ [])) (absent-Acts x us (some integer_literal))
        (starts_rules-take 18 x rules _ flags) (λ k. refl, tt))
  where
    flags : starts_rules x rules ≡ absent 17 (true ∷ false ∷ false ∷ true ∷ false ∷ [])
    flags = flags_below_sound 58 is_digit _ x digit_table (ground (arith, h.0)) h.0
