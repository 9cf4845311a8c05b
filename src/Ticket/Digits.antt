-- ===== src/Ticket/Digits.antt =====
-- The decimal digits that `ParseDecimalInt64Text` of src/ticket.cpp reads, and those that the printer gives.
use ph_k_battle_server.Base.{
  ℕ, zero, suc, ◌+◌, ◌-◌, ◌*◌, ◌/◌, ◌%◌, ◌≤◌, ◌<◌, ◌≡◌, refl, sym, ◌∙◌, inl, inr, Bool, true, false,
  not, ◌&&◌, [], ◌∷◌, ◌++◌, arith, ltb, leb, ◌==◌, all, is_empty, Bytes, Bool-cases, append_assoc,
  append-nil, lt→ltb,
}
use ph_k_battle_server.Base.Decimal.{decimal_onto, to_string, read_decimal}

unfoldable pub is_digit : ℕ → Bool
is_digit ch = leb b'0' ch && leb ch b'9'

-- The texts without a needless zero in front.
unfoldable pub is_plain_number : Bytes → Bool
is_plain_number [] = false
is_plain_number (ch ∷ digits) =
    all is_digit (ch ∷ digits) && not ((ch == b'0') && not (is_empty digits))

pub digit_bounds : (ch : ℕ) → is_digit ch ≡ true → (b'0' ≤ ch) × (ch ≤ b'9')
unfolding is_digit
digit_bounds ch h = (ground (arith, h), ground (arith, h))

-- More fuel prints the same digits.
decimal_onto-fuel :
    (f g n : ℕ) (rest : Bytes) → n < f → n < g → decimal_onto f n rest ≡ decimal_onto g n rest
unfolding decimal_onto
decimal_onto-fuel zero g n rest h k = absurd (omega arith)
decimal_onto-fuel (suc f) zero n rest h k = absurd (omega arith)
decimal_onto-fuel (suc f) (suc g) n rest h k =
    ground (arith, decimal_onto-fuel f g (n / 10) ((b'0' + n % 10) ∷ rest))

decimal_onto-append :
    (f n : ℕ) (rest : Bytes) → n < f → decimal_onto f n rest ≡ decimal_onto f n [] ++ rest
unfolding decimal_onto
decimal_onto-append zero n rest h = absurd (omega arith)
decimal_onto-append (suc f) n rest h = elim (Bool-cases (ltb n 10)) [
  | inl small ↦ ground (arith, small)
  | inr large ↦ ground (
    arith,
    large,
    decimal_onto-append f (n / 10) ((b'0' + n % 10) ∷ rest),
    decimal_onto-append f (n / 10) ((b'0' + n % 10) ∷ []),
    append_assoc (decimal_onto f (n / 10) []) ((b'0' + n % 10) ∷ []) rest,
  )
]

one_digit : (n : ℕ) → n < 10 → decimal_onto 11 n [] ≡ (b'0' + n) ∷ []
unfolding decimal_onto
one_digit n h = rw (lt→ltb n 10 h) refl

pub to_string-digit : (n : ℕ) → n < 10 → to_string n ≡ (b'0' + n) ∷ []
unfolding to_string
to_string-digit n h = decimal_onto-fuel (n + 1) 11 n [] (omega arith) (omega arith) ∙ one_digit n h

shift_step :
    (f a d : ℕ)
    → 0 < a
    → d < 10
    → a < f
    → decimal_onto (suc f) (a * 10 + d) [] ≡ decimal_onto (a + 1) a [] ++ (b'0' + d) ∷ []
unfolding decimal_onto
shift_step f a d pa pd less =
    let quotient : (a * 10 + d) / 10 ≡ a = omega arith in
    let last : (a * 10 + d) % 10 ≡ d = omega arith in
    ground (
      arith,
      quotient,
      last,
      decimal_onto-fuel f (a + 1) a ((b'0' + d) ∷ []) less,
      decimal_onto-append (a + 1) a ((b'0' + d) ∷ []),
    )

-- One digit more.
to_string-shift :
    (a d : ℕ) → 0 < a → d < 10 → to_string (a * 10 + d) ≡ to_string a ++ (b'0' + d) ∷ []
unfolding to_string
to_string-shift a d pa pd =
    decimal_onto-fuel (a * 10 + d + 1) (suc (a * 10 + d)) (a * 10 + d) [] (omega arith)
      (omega arith)
    ∙ shift_step (a * 10 + d) a d pa pd (omega arith)

to_string-read :
    (a : ℕ) (digits : Bytes)
    → 0 < a
    → all is_digit digits ≡ true
    → to_string (read_decimal a digits) ≡ to_string a ++ digits
unfolding read_decimal
to_string-read a [] pa h = sym (append-nil (to_string a))
to_string-read a (ch ∷ digits) pa h = ground (
  arith,
  digit_bounds ch,
  h,
  to_string-read (a * 10 + (ch - b'0')) digits,
  to_string-shift a (ch - b'0') pa,
  append_assoc (to_string a) (ch ∷ []) digits,
)

-- A plain number is what the printer gives for its value.
pub to_string-IsPlain :
    (text : Bytes) → is_plain_number text ≡ true → to_string (read_decimal 0 text) ≡ text
unfolding is_plain_number read_decimal
to_string-IsPlain [] h = cc
to_string-IsPlain (ch ∷ []) h = ground (arith, h, digit_bounds ch, to_string-digit (ch - b'0'))
to_string-IsPlain (ch ∷ next ∷ digits) h = ground (
  arith,
  h,
  digit_bounds ch,
  to_string-digit (ch - b'0'),
  to_string-read (ch - b'0') (next ∷ digits),
)

-- And what it prints is a plain number.
decimal_onto-IsPlain :
    (f n : ℕ) (rest : Bytes)
    → 0 < n
    → n < f
    → all is_digit rest ≡ true
    → is_plain_number (decimal_onto f n rest) ≡ true
unfolding decimal_onto is_plain_number is_digit
decimal_onto-IsPlain zero n rest h k r = absurd (omega arith)
decimal_onto-IsPlain (suc f) n rest h k r = elim (Bool-cases (ltb n 10)) [
  | inl small ↦ ground (arith, small, r)
  | inr large ↦ ground (arith, large, r, decimal_onto-IsPlain f (n / 10) ((b'0' + n % 10) ∷ rest))
]

pub IsPlain-to_string : (n : ℕ) → is_plain_number (to_string n) ≡ true
unfolding to_string decimal_onto is_plain_number is_digit
IsPlain-to_string zero = refl
IsPlain-to_string (suc n) =
    decimal_onto-IsPlain (suc n + 1) (suc n) [] (omega arith) (omega arith) refl
