-- ===== src/Dem/Json/Numbers.antt =====
-- `ParseNumber` of src/dem.cpp on the decimals that `std::to_string` prints.
use ph_k_battle_server.Base.{
  ℕ, ◌≡◌, refl, ap, Bool, true, false, not, ◌||◌, [], ◌∷◌, ◌++◌, some, arith, ◌==◌, all, is_empty,
  Bytes, append-nil,
}
use ph_k_battle_server.Ticket.Digits.{is_digit, is_plain_number, digit_bounds}
use ph_k_battle_server.Dem.Json.{
  number, span_digits, some_digits, optional_sign, fraction, exponent, parse_number,
}

-- What may stand behind a number: nothing that would go on with it.
abbrev pub goes_on : ℕ → Bool
goes_on ch = is_digit ch || ((ch == b'.') || ((ch == b'e') || (ch == b'E')))

abbrev pub stops : Bytes → Bool
stops [] = true
stops (ch ∷ rest) = not (goes_on ch)

-- The texts of integers.
pub data IsInteger : Bytes → Type 0 where
  plain : (digits : Bytes) → is_plain_number digits ≡ true → IsInteger digits
  negative : (digits : Bytes) → is_plain_number digits ≡ true → IsInteger (b'-' ∷ digits)

no_text : is_plain_number [] ≡ true → ⊥
unfolding is_plain_number
no_text h = cc

pub plain-digits :
    (digits : Bytes)
    → is_plain_number digits ≡ true
    → (all is_digit digits ≡ true) × (is_empty digits ≡ false)
unfolding is_plain_number
plain-digits [] h = cc
plain-digits (ch ∷ digits) h = (ground (arith, h), refl)

span_digits-stops :
    (digits rest : Bytes)
    → all is_digit digits ≡ true
    → stops rest ≡ true
    → span_digits (digits ++ rest) ≡ (digits, rest)
unfolding span_digits
span_digits-stops [] [] h k = refl
span_digits-stops [] (ch ∷ rest) h k = ground (arith, k)
span_digits-stops (ch ∷ digits) rest h k = ground (arith, h, span_digits-stops digits rest)

fraction-stops : (rest : Bytes) → stops rest ≡ true → fraction rest ≡ some ([], rest)
unfolding fraction
fraction-stops [] h = refl
fraction-stops (ch ∷ rest) h = ground (arith, h)

exponent-stops : (rest : Bytes) → stops rest ≡ true → exponent rest ≡ some ([], rest)
unfolding exponent
exponent-stops [] h = refl
exponent-stops (ch ∷ rest) h = ground (arith, h)

-- The end of the parser, behind the sign.
unsigned :
    (digits rest : Bytes)
    → is_plain_number digits ≡ true
    → stops rest ≡ true
    → some_digits (digits ++ rest) ≡ some (digits, rest)
unfolding some_digits
unsigned digits rest h k =
    let (ds, more) = plain-digits digits h in
    simp (span_digits-stops digits rest ds k) (rw more refl)

-- The parser, once the sign is known.
after_sign :
    (text sign digits rest : Bytes)
    → optional_sign false text ≡ (sign, digits ++ rest)
    → is_plain_number digits ≡ true
    → stops rest ≡ true
    → parse_number text ≡ some (number (sign ++ digits), rest)
unfolding parse_number
after_sign text sign digits rest signed h k =
    simp (signed, unsigned digits rest h k, fraction-stops rest k, exponent-stops rest k)
      (ap (λ ds. some (number (sign ++ ds), rest)) (append-nil digits))

no_sign :
    (ch : ℕ) (text : Bytes) → is_digit ch ≡ true → optional_sign false (ch ∷ text) ≡ ([], ch ∷ text)
unfolding optional_sign
no_sign ch text h = ground (arith, h, digit_bounds ch)

pub parse_number-IsInteger :
    (text rest : Bytes)
    → IsInteger text
    → stops rest ≡ true
    → parse_number (text ++ rest) ≡ some (number text, rest)
parse_number-IsInteger text rest (plain [] h) k = absurd (no_text h)
parse_number-IsInteger text rest (plain (ch ∷ digits) h) k =
    let (ds, _) = plain-digits (ch ∷ digits) h in
    after_sign (ch ∷ (digits ++ rest)) [] (ch ∷ digits) rest
      (no_sign ch (digits ++ rest) (ground (arith, ds))) h k
parse_number-IsInteger text rest (negative digits h) k =
    after_sign (b'-' ∷ (digits ++ rest)) (b'-' ∷ []) digits rest (unfold optional_sign in refl) h k
