-- ===== src/Lexer/Stays.antt =====
-- Every rule of src/gdbwire_mi_lexer.l in front of a line break: its matches stay there.
use gdbwire.Base.{
  ℕ, zero, suc, ◌≤◌, ◌≡◌, ◌≢◌, refl, ap, sym, ◌∙◌, subst, List, [], ◌∷◌, ◌++◌, Bool, true, Option,
  some, inl, inr, ◌⊎◌, Bytes, length, take, length-take, arith, is_digit, append_assoc,
}
use gdbwire.Lexer.{
  Token, newline, string_literal, integer_literal, cstring, Regex, never, empty, byte, then_,
  either, many, char, plus, on, Rule, identifier, cstring_pattern, rules,
}
use gdbwire.Lexer.Derivatives.{Matches, All, concat}
use gdbwire.Lexer.Munch.{AllRules}
use gdbwire.MiParser.Lines.{AllBytes, IsCalm, IsBreak}

AllBytes-append : (P : ℕ → Type 0) (u v : Bytes) → AllBytes P u → AllBytes P v → AllBytes P (u ++ v)
AllBytes-append P [] v h k = k
AllBytes-append P (c ∷ u) v h k = (h.0, AllBytes-append P u v h.1 k)

-- Every byte class of the pattern has only bytes of `P`.
abbrev pub Only : (ℕ → Type 0) → Regex → Type 0
Only P never = Unit {0}
Only P empty = Unit {0}
Only P (byte p) = (c : ℕ) → p c ≡ true → P c
Only P (then_ r t) = Only P r × Only P t
Only P (either r t) = Only P r × Only P t
Only P (many r) = Only P r

concat-AllBytes :
    (P : ℕ → Type 0) (M : Bytes → Type 0) (ls : List Bytes)
    → ((u : Bytes) → M u → AllBytes P u)
    → All M ls
    → AllBytes P (concat ls)
concat-AllBytes P M [] f k = tt
concat-AllBytes P M (l ∷ ls) f k =
    AllBytes-append P l (concat ls) (f l k.0) (concat-AllBytes P M ls f k.1)

pub Only-AllBytes : (P : ℕ → Type 0) (r : Regex) (s : Bytes) → Only P r → Matches r s → AllBytes P s
Only-AllBytes P never s h m = absurd m
Only-AllBytes P empty s h m = rw m tt
Only-AllBytes P (byte p) s h (c, e, k) = rw e (h c k, tt)
Only-AllBytes P (then_ r t) s h (u, v, e, k, l) =
    rw e (AllBytes-append P u v (Only-AllBytes P r u h.0 k) (Only-AllBytes P t v h.1 l))
Only-AllBytes P (either r t) s h (inl k) = Only-AllBytes P r s h.0 k
Only-AllBytes P (either r t) s h (inr k) = Only-AllBytes P t s h.1 k
Only-AllBytes P (many r) s h (ls, e, k) =
    rw e (concat-AllBytes P (Matches r) ls (λ u l. Only-AllBytes P r u h l) k)

-- A text of bytes of `P` at the front ends before the first other byte.
pub take-inside :
    (P : ℕ → Type 0) (body : Bytes) (x : ℕ) (rest : Bytes) (n : ℕ)
    → (P x → ⊥)
    → AllBytes P (take n (body ++ (x ∷ rest)))
    → n ≤ length body
take-inside P [] x rest zero wild h = omega arith
take-inside P [] x rest (suc n) wild h = absurd (wild h.0)
take-inside P (b ∷ body) x rest zero wild h = omega arith
take-inside P (b ∷ body) x rest (suc n) wild h = omega (arith, take-inside P body x rest n wild h.1)

abbrev IsBreakByte : ℕ → Type 0
IsBreakByte c = (c ≡ b'\n') ⊎ (c ≡ b'\r')

not_quote_last :
    (n : ℕ) (brk xs : Bytes) → AllBytes IsBreakByte brk → take n brk ≡ xs ++ (b'"' ∷ []) → ⊥
not_quote_last zero brk [] h e = ground arith
not_quote_last zero brk (x ∷ xs) h e = ground arith
not_quote_last (suc n) [] [] h e = ground arith
not_quote_last (suc n) [] (x ∷ xs) h e = ground arith
not_quote_last (suc n) (b ∷ brk) [] h e = ground (arith, h.0)
not_quote_last (suc n) (b ∷ brk) (x ∷ xs) h e = not_quote_last n brk xs h.1 (ground arith)

-- A text at the front that ends with a quote ends before the break.
quote_inside :
    (body brk xs : Bytes) (n : ℕ)
    → n ≤ length (body ++ brk)
    → AllBytes IsBreakByte brk
    → take n (body ++ brk) ≡ xs ++ (b'"' ∷ [])
    → n ≤ length body
quote_inside [] brk xs zero le h e = omega arith
quote_inside [] brk xs (suc n) le h e = absurd (not_quote_last (suc n) brk xs h e)
quote_inside (b ∷ body) brk xs zero le h e = omega arith
quote_inside (b ∷ body) brk [] (suc n) le h e =
    let ends : take n (body ++ brk) ≡ [] = ground arith in
    omega (arith, length-take {0} n (body ++ brk), ap length ends)
quote_inside (b ∷ body) brk (x ∷ xs) (suc n) le h e =
    omega (arith, quote_inside body brk xs n (omega arith) h (ground arith))

-- What a rule that matches `n` bytes in front of the break does.
abbrev pub Stays : Bytes → Rule → Type 0
Stays body r =
    (brk : Bytes) (n : ℕ)
    → IsBreak brk
    → n ≤ length (body ++ brk)
    → Matches r.pattern_of (take n (body ++ brk))
    → (n ≤ length body) × (r.action ≢ some newline)

break_bytes : (brk : Bytes) → IsBreak brk → AllBytes IsBreakByte brk
break_bytes brk (inl e) = rw e (inl refl, tt)
break_bytes brk (inr (inl e)) = rw e (inr refl, tt)
break_bytes brk (inr (inr e)) = rw e (inr refl, (inl refl, tt))

calm_break :
    (body brk : Bytes) (n : ℕ)
    → IsBreak brk
    → AllBytes IsCalm (take n (body ++ brk))
    → n ≤ length body
calm_break body brk n (inl e) h =
    take-inside IsCalm body b'\n' [] n (λ c. c.0 refl)
      (subst (λ k. AllBytes IsCalm (take n (body ++ k))) e h)
calm_break body brk n (inr (inl e)) h =
    take-inside IsCalm body b'\r' [] n (λ c. c.1 refl)
      (subst (λ k. AllBytes IsCalm (take n (body ++ k))) e h)
calm_break body brk n (inr (inr e)) h =
    take-inside IsCalm body b'\r' (b'\n' ∷ []) n (λ c. c.1 refl)
      (subst (λ k. AllBytes IsCalm (take n (body ++ k))) e h)

-- A rule whose byte classes hold no break.
calm-Stays :
    (body : Bytes) (r : Rule) → Only IsCalm r.pattern_of → r.action ≢ some newline → Stays body r
calm-Stays body r only other brk n b le m = (
  calm_break body brk n b (Only-AllBytes IsCalm r.pattern_of (take n (body ++ brk)) only m),
  other,
)

pub take_one :
    (x : ℕ) (xs : Bytes) (n c : ℕ)
    → take n (x ∷ xs) ≡ c ∷ []
    → n ≤ length (x ∷ xs)
    → (n ≡ 1) × (x ≡ c)
take_one x xs zero c e le = absurd (ground arith)
take_one x xs (suc n) c e le =
    let ends : take n xs ≡ [] = ground arith in
    (omega (arith, length-take {0} n xs, ap length ends), ground arith)

-- A rule for one byte, which is not the one that begins a break.
byte-Stays :
    (x : ℕ) (xs : Bytes) (p : ℕ → Bool) (a : Option Token)
    → (a ≢ some newline)
    → Stays (x ∷ xs) (record { pattern_of = byte p; action = a })
byte-Stays x xs p a other brk n b le (c, e, h) =
    (omega (arith, take_one x (xs ++ brk) n c e le), other)

-- The rules of line breaks do not match at a byte that is none.
char-Stays :
    (x : ℕ) (xs : Bytes) (c : ℕ) (a : Option Token)
    → x ≢ c
    → Stays (x ∷ xs) (record { pattern_of = char c; action = a })
char-Stays x xs c a other brk n b le (d, e, h) =
    let same : d ≡ c = ground arith in absurd (other ((take_one x (xs ++ brk) n d e le).1 ∙ same))

first_byte : (x : ℕ) (xs : Bytes) (n c : ℕ) (v : Bytes) → take n (x ∷ xs) ≡ (c ∷ []) ++ v → x ≡ c
first_byte x xs zero c v e = absurd (ground arith)
first_byte x xs (suc n) c v e = ground arith

crlf-Stays :
    (x : ℕ) (xs : Bytes) (t : Regex) (a : Option Token)
    → x ≢ b'\r'
    → Stays (x ∷ xs) (record { pattern_of = then_ (char b'\r') t; action = a })
crlf-Stays x xs t a other brk n b le (u, v, e, (d, f, h), k) =
    let same : d ≡ b'\r' = ground arith in
    absurd (other (first_byte x (xs ++ brk) n d v (e ∙ ap (λ w. w ++ v) f) ∙ same))

cstring-Stays :
    (body : Bytes) → Stays body (record { pattern_of = cstring_pattern; action = some cstring })
cstring-Stays body brk n b le (u, v, e, k, (w, z, f, l, (c, g, h))) =
    let same : c ≡ b'"' = ground arith in
    (
      quote_inside body brk (u ++ w) n le (break_bytes brk b) (
          e
          ∙ ap (λ t. u ++ t) (f ∙ ap (λ t. w ++ t) (g ∙ ap (λ d. d ∷ []) same))
          ∙ sym (append_assoc u w (b'"' ∷ []))),
      ground arith,
    )

identifier-IsCalm : Only IsCalm identifier
identifier-IsCalm = (
  (λ c h. (ground arith, ground arith), λ c h. (ground arith, ground arith)),
  λ c h. (ground arith, ground arith),
)

digits-IsCalm : Only IsCalm (plus (byte is_digit))
digits-IsCalm = (λ c h. (ground arith, ground arith), λ c h. (ground arith, ground arith))

pub rules-Stays : (x : ℕ) (xs : Bytes) → IsCalm x → AllRules (Stays (x ∷ xs)) rules
unfolding rules
rules-Stays x xs calm = (
  byte-Stays x xs _ _ (ground arith),
  (
    byte-Stays x xs _ _ (ground arith),
    (
      byte-Stays x xs _ _ (ground arith),
      (
        byte-Stays x xs _ _ (ground arith),
        (
          byte-Stays x xs _ _ (ground arith),
          (
            byte-Stays x xs _ _ (ground arith),
            (
              byte-Stays x xs _ _ (ground arith),
              (
                byte-Stays x xs _ _ (ground arith),
                (
                  byte-Stays x xs _ _ (ground arith),
                  (
                    byte-Stays x xs _ _ (ground arith),
                    (
                      byte-Stays x xs _ _ (ground arith),
                      (
                        byte-Stays x xs _ _ (ground arith),
                        (
                          byte-Stays x xs _ _ (ground arith),
                          (
                            byte-Stays x xs _ _ (ground arith),
                            (
                              char-Stays x xs _ _ calm.0,
                              (
                                crlf-Stays x xs (char b'\n') _ calm.1,
                                (
                                  char-Stays x xs _ _ calm.1,
                                  (
                                    calm-Stays (x ∷ xs) (on (plus (byte is_digit)) integer_literal)
                                        digits-IsCalm (ground arith),
                                    (
                                      byte-Stays x xs _ _ (ground arith),
                                      (
                                        calm-Stays (x ∷ xs) (on identifier string_literal)
                                            identifier-IsCalm (ground arith),
                                        (
                                          byte-Stays x xs _ _ (ground arith),
                                          (cstring-Stays (x ∷ xs), tt),
                                        ),
                                      ),
                                    ),
                                  ),
                                ),
                              ),
                            ),
                          ),
                        ),
                      ),
                    ),
                  ),
                ),
              ),
            ),
          ),
        ),
      ),
    ),
  ),
)
