-- ===== src/Ticket/Decimal.antt =====
-- `ParseDecimalInt64Text` of src/ticket.cpp: the texts of 64-bit integers that it takes.
use ph_k_battle_server.Base.{
  ℕ, zero, suc, ◌+◌, ◌^◌, ◌≤◌, ◌<◌, ◌≡◌, refl, sym, ap, ◌∙◌, subst, ◌⊎◌, ◌↔◌, inl, inr, true, false,
  ◌&&◌, [], ◌∷◌, Option, none, some, arith, ltb, leb, ◌==◌, if◌then◌else◌, Bytes, codes, Bool-cases,
}
use ph_k_battle_server.Base.Int.{ℤ, pos, negsuc, FitsInt64}
use ph_k_battle_server.Base.Decimal.{to_string, to_string_ℤ, read_decimal, read-to_string}
use ph_k_battle_server.Ticket.Digits.{
  is_plain_number, digit_bounds, to_string-digit, to_string-IsPlain, IsPlain-to_string,
}

-- `-n` as an integer.
abbrev pub minus : ℕ → ℤ
minus zero = pos 0
minus (suc n) = negsuc n

-- The result of `std::from_chars` into an `int64_t`, where it takes the whole text.
unfoldable pub parse_decimal_int64_text : Bytes → Option ℤ
parse_decimal_int64_text [] = none
parse_decimal_int64_text (ch ∷ rest) =
    let low = read_decimal 0 rest in
    let high = read_decimal 0 (ch ∷ rest) in
    if ch == b'-'
    then (if is_plain_number rest && leb low (2 ^ 63) then some (minus low) else none)
    else (if is_plain_number (ch ∷ rest) && ltb high (2 ^ 63) then some (pos high) else none)

parse-plain :
    (text : Bytes)
    → is_plain_number text ≡ true
    → read_decimal 0 text < 2 ^ 63
    → parse_decimal_int64_text text ≡ some (pos (read_decimal 0 text))
unfolding parse_decimal_int64_text is_plain_number
parse-plain [] h k = cc
parse-plain (ch ∷ rest) h k = ground (arith, h, k, digit_bounds ch)

parse-minus :
    (text : Bytes) (n : ℕ)
    → is_plain_number text ≡ true
    → read_decimal 0 text ≡ n
    → n ≤ 2 ^ 63
    → parse_decimal_int64_text (b'-' ∷ text) ≡ some (minus n)
unfolding parse_decimal_int64_text
parse-minus text n h e k = ground (arith, h, e, k)

parse-to_string_ℤ : (z : ℤ) → FitsInt64 z → parse_decimal_int64_text (to_string_ℤ z) ≡ some z
unfolding FitsInt64 to_string_ℤ
parse-to_string_ℤ (pos n) h =
    parse-plain (to_string n) (IsPlain-to_string n) (omega (arith, read-to_string n))
    ∙ ap (λ m. some (pos m)) (read-to_string n)
parse-to_string_ℤ (negsuc n) h =
    parse-minus (to_string (n + 1)) (n + 1) (IsPlain-to_string (n + 1)) (read-to_string (n + 1))
      (omega arith)
    ∙ ap some (minus_suc n)
  where
    minus_suc : (k : ℕ) → minus (k + 1) ≡ negsuc k
    minus_suc k = let more : k + 1 ≡ suc k = omega arith in ap minus more

-- What a text has to be for the integer that is taken from it.
abbrev pub IsDecimalOf : Bytes → ℤ → Type 0
IsDecimalOf text z = FitsInt64 z × ((text ≡ to_string_ℤ z) ⊎ ((text ≡ codes "-0") × (z ≡ pos 0)))

minus-IsDecimalOf :
    (text : Bytes) (n : ℕ)
    → is_plain_number text ≡ true
    → read_decimal 0 text ≡ n
    → n ≤ 2 ^ 63
    → IsDecimalOf (b'-' ∷ text) (minus n)
unfolding FitsInt64 to_string_ℤ
minus-IsDecimalOf text zero h e k = (
  omega arith,
  inr (
    ap (λ t. b'-' ∷ t)
        (sym (to_string-IsPlain text h) ∙ ap to_string e ∙ to_string-digit 0 (omega arith)),
    refl,
  ),
)
minus-IsDecimalOf text (suc n) h e k =
    let more : suc n ≡ n + 1 = omega arith in
    (
      omega arith,
      inl (ap (λ t. b'-' ∷ t) (sym (to_string-IsPlain text h) ∙ ap to_string (e ∙ more))),
    )

plain-IsDecimalOf :
    (text : Bytes)
    → is_plain_number text ≡ true
    → read_decimal 0 text < 2 ^ 63
    → IsDecimalOf text (pos (read_decimal 0 text))
unfolding FitsInt64 to_string_ℤ
plain-IsDecimalOf text h k = (k, inl (sym (to_string-IsPlain text h)))

parsed_minus :
    (ch : ℕ) (rest : Bytes) (z : ℤ)
    → (ch == b'-') ≡ true
    → parse_decimal_int64_text (ch ∷ rest) ≡ some z
    → (z ≡ minus (read_decimal 0 rest))
      × (is_plain_number rest ≡ true)
      × (read_decimal 0 rest ≤ 2 ^ 63)
unfolding parse_decimal_int64_text
parsed_minus ch rest z dash h =
    (ground (arith, dash, h), ground (arith, dash, h), ground (arith, dash, h))

parsed_plain :
    (ch : ℕ) (rest : Bytes) (z : ℤ)
    → (ch == b'-') ≡ false
    → parse_decimal_int64_text (ch ∷ rest) ≡ some z
    → (z ≡ pos (read_decimal 0 (ch ∷ rest)))
      × (is_plain_number (ch ∷ rest) ≡ true)
      × (read_decimal 0 (ch ∷ rest) < 2 ^ 63)
unfolding parse_decimal_int64_text
parsed_plain ch rest z digit h =
    (ground (arith, digit, h), ground (arith, digit, h), ground (arith, digit, h))

parse-IsDecimalOf :
    (text : Bytes) (z : ℤ) → parse_decimal_int64_text text ≡ some z → IsDecimalOf text z
unfolding parse_decimal_int64_text
parse-IsDecimalOf [] z h = ground (arith, h)
parse-IsDecimalOf (ch ∷ rest) z h = elim (Bool-cases (ch == b'-')) [
  | inl dash ↦
      let (value, plain, bound) = parsed_minus ch rest z dash h in
      let same : b'-' ≡ ch = ground (arith, dash) in
      subst (λ c. IsDecimalOf (c ∷ rest) z) same
        (subst (λ v. IsDecimalOf (b'-' ∷ rest) v) (sym value)
          (minus-IsDecimalOf rest (read_decimal 0 rest) plain refl bound))
  | inr digit ↦
      let (value, plain, bound) = parsed_plain ch rest z digit h in
      subst (λ v. IsDecimalOf (ch ∷ rest) v) (sym value) (plain-IsDecimalOf (ch ∷ rest) plain bound)
]

-- The texts that are taken as the integer z are what the printer gives for z, if z fits 64 bits, and,
-- for zero, also the text -0.
pub parse_decimal_int64_text_iff :
    (text : Bytes) (z : ℤ) → (parse_decimal_int64_text text ≡ some z) ↔ IsDecimalOf text z
unfolding to_string
parse_decimal_int64_text_iff text z = (parse-IsDecimalOf text z, taken)
  where
    minus_zero : parse_decimal_int64_text (codes "-0") ≡ some (pos 0)
    minus_zero = parse-minus (codes "0") 0 (IsPlain-to_string 0) (read-to_string 0) (omega arith)

    taken : IsDecimalOf text z → parse_decimal_int64_text text ≡ some z
    taken (fits, inl e) = ap parse_decimal_int64_text e ∙ parse-to_string_ℤ z fits
    taken (fits, inr (e, zero_z)) =
        ap parse_decimal_int64_text e ∙ minus_zero ∙ ap some (sym zero_z)
