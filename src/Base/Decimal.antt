-- ===== src/Base/Decimal.antt =====
-- `std::to_string` of unsigned and signed integers, and a reader for its texts.
use ph_k_battle_server.Base.{
  ℕ, zero, suc, ◌+◌, ◌-◌, ◌*◌, ◌/◌, ◌%◌, ◌<◌, ◌≡◌, sym, ap, ◌∙◌, [], ◌∷◌, arith, ltb, if◌then◌else◌,
  Bytes,
}
use ph_k_battle_server.Base.Int.{ℤ, pos, negsuc}

-- The decimal digits of a number in front of a text; one unit of fuel for each digit.
unfoldable pub decimal_onto : ℕ → ℕ → Bytes → Bytes
decimal_onto zero n rest = rest
decimal_onto (suc fuel) n rest =
    let more = decimal_onto fuel (n / 10) ((b'0' + n % 10) ∷ rest) in
    if ltb n 10 then (b'0' + n) ∷ rest else more

unfoldable pub to_string : ℕ → Bytes
unfolding decimal_onto
to_string n = decimal_onto (n + 1) n []

unfoldable pub to_string_ℤ : ℤ → Bytes
unfolding to_string
to_string_ℤ (pos n) = to_string n
to_string_ℤ (negsuc n) = b'-' ∷ to_string (n + 1)

-- The number that a text of decimal digits stands for, read on from a value.
unfoldable pub read_decimal : ℕ → Bytes → ℕ
read_decimal acc [] = acc
read_decimal acc (ch ∷ rest) = read_decimal (acc * 10 + (ch - b'0')) rest

-- With fuel beyond the number, every digit is printed.
read-decimal_onto :
    (fuel n : ℕ) (rest : Bytes)
    → n < fuel
    → read_decimal 0 (decimal_onto fuel n rest) ≡ read_decimal n rest
unfolding decimal_onto read_decimal
read-decimal_onto zero n rest h = absurd (omega arith)
read-decimal_onto (suc fuel) n rest h =
    ground (arith, read-decimal_onto fuel (n / 10) ((b'0' + n % 10) ∷ rest))

pub read-to_string : (n : ℕ) → read_decimal 0 (to_string n) ≡ n
unfolding to_string read_decimal
read-to_string n = read-decimal_onto (n + 1) n [] (omega arith)

pub to_string-injective : (m n : ℕ) → to_string m ≡ to_string n → m ≡ n
to_string-injective m n h = sym (read-to_string m) ∙ ap (read_decimal 0) h ∙ read-to_string n
