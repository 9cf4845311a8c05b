-- ===== src/Dem/Json/Strings.antt =====
-- `ParseString` of src/dem.cpp on what `DemJsonEscape` writes.
use ph_k_battle_server.Base.{
  ℕ, zero, suc, ◌+◌, ◌*◌, ◌/◌, ◌%◌, ◌≤◌, ◌<◌, ◌≡◌, refl, sym, ap, ◌∙◌, true, false, [], ◌∷◌, ◌++◌,
  Option, some, arith, ltb, ◌==◌, length, length-append, append_assoc, Bytes, ◌>>=◌, if_both,
  ==_iff,
}
use ph_k_battle_server.LobbyRng.{hex_digit}
use ph_k_battle_server.Aead.Open.{hex_nibble}
use ph_k_battle_server.Dem.Json.{
  escape_byte, dem_json_escape, append_utf8, parse_hex4, unicode_escape, escape_sequence, piece,
  string_step, string_loop, parse_string,
}

hex_nibble-digit : (d : ℕ) → d < 16 → hex_nibble (hex_digit d) ≡ some d
unfolding hex_nibble hex_digit
hex_nibble-digit d h = ground arith

parse_hex4-small :
    (ch : ℕ) (text : Bytes)
    → ch < 32
    → parse_hex4 (b'0' ∷ b'0' ∷ hex_digit (ch / 16 % 16) ∷ hex_digit (ch % 16) ∷ text)
      ≡ some (ch, text)
unfolding parse_hex4 hex_nibble
parse_hex4-small ch text h =
    let high = hex_nibble-digit (ch / 16 % 16) (omega arith) in
    let low = hex_nibble-digit (ch % 16) (omega arith) in
    let whole : ((0 * 16 + 0) * 16 + ch / 16 % 16) * 16 + ch % 16 ≡ ch = omega arith in
    simp (high, low) (ap (λ n. some (n, text)) whole)

unicode_escape-small :
    (ch : ℕ) (text : Bytes)
    → ch < 32
    → unicode_escape (b'0' ∷ b'0' ∷ hex_digit (ch / 16 % 16) ∷ hex_digit (ch % 16) ∷ text)
      ≡ some (ch ∷ [], text)
unfolding unicode_escape append_utf8
unicode_escape-small ch text h = ground (arith, parse_hex4-small ch text h)

-- The loop after a byte.
abbrev after_byte : ℕ → Bytes → ℕ → Option (Bytes × Bytes)
after_byte fuel text ch = string_loop fuel text >>= λ (tail, left). some (ch ∷ tail, left)

same_byte :
    (fuel : ℕ) (text : Bytes) (ch c : ℕ)
    → (ch == c) ≡ true
    → after_byte fuel text c ≡ after_byte fuel text ch
same_byte fuel text ch c h = ap (after_byte fuel text) (sym ((==_iff ch c).0 h))

loop_piece :
    (fuel first ch : ℕ) (rest text : Bytes)
    → string_step first rest ≡ piece (ch ∷ []) text
    → string_loop (suc fuel) (first ∷ rest) ≡ after_byte fuel text ch
unfolding string_loop
loop_piece fuel first ch rest text h = rw (h, string_loop) refl

control_step :
    (ch : ℕ) (text : Bytes)
    → ltb ch 32 ≡ true
    → string_step b'\\' (b'u' ∷ b'0' ∷ b'0' ∷ hex_digit (ch / 16 % 16) ∷ hex_digit (ch % 16) ∷ text)
      ≡ piece (ch ∷ []) text
unfolding string_step escape_sequence
control_step ch text h = ground (arith, unicode_escape-small ch text, h)

control_byte :
    (fuel ch : ℕ) (text : Bytes)
    → ltb ch 32 ≡ true
    → string_loop
        (suc fuel)
        (b'\\' ∷ b'u' ∷ b'0' ∷ b'0' ∷ hex_digit (ch / 16 % 16) ∷ hex_digit (ch % 16) ∷ text)
      ≡ after_byte fuel text ch
control_byte fuel ch text h = loop_piece fuel b'\\' ch _ text (control_step ch text h)

plain_step :
    (ch : ℕ) (text : Bytes)
    → (ch == b'"') ≡ false
    → (ch == b'\\') ≡ false
    → ltb ch 32 ≡ false
    → string_step ch text ≡ piece (ch ∷ []) text
unfolding string_step
plain_step ch text quote slash high = ground (arith, quote, slash, high)

plain_byte :
    (fuel ch : ℕ) (text : Bytes)
    → (ch == b'"') ≡ false
    → (ch == b'\\') ≡ false
    → ltb ch 32 ≡ false
    → string_loop (suc fuel) (ch ∷ text) ≡ after_byte fuel text ch
plain_byte fuel ch text quote slash high =
    loop_piece fuel ch ch text text (plain_step ch text quote slash high)

string_loop-byte :
    (fuel ch : ℕ) (text : Bytes)
    → string_loop (suc fuel) (escape_byte ch ++ text) ≡ after_byte fuel text ch
unfolding string_loop string_step escape_byte escape_sequence
string_loop-byte fuel ch text =
    let P : Bytes → Type 0 = λ e. string_loop (suc fuel) (e ++ text) ≡ after_byte fuel text ch in
    let same : (c : ℕ) → (ch == c) ≡ true → after_byte fuel text c ≡ after_byte fuel text ch =
      same_byte fuel text ch in
    if_both P (ch == b'"') (same b'"') (λ quote. if_both P (ch == b'\\') (same b'\\') (λ slash.
      if_both P (ch == 8) (same 8) (λ _. if_both P (ch == 12) (same 12) (λ _.
        if_both P (ch == 10) (same 10) (λ _. if_both P (ch == 13) (same 13) (λ _.
          if_both P (ch == 9) (same 9) (λ _.
            if_both P (ltb ch 32) (control_byte fuel ch text)
              (plain_byte fuel ch text quote slash))))))))

pub string_loop-escape :
    (value rest : Bytes) (fuel : ℕ)
    → length value < fuel
    → string_loop fuel (dem_json_escape value ++ (b'"' ∷ rest)) ≡ some (value, rest)
unfolding dem_json_escape
string_loop-escape value rest zero h = absurd (omega arith)
string_loop-escape [] rest (suc fuel) h = unfold string_loop string_step in refl
string_loop-escape (ch ∷ value) rest (suc fuel) h =
    ap (string_loop (suc fuel))
      (append_assoc (escape_byte ch) (dem_json_escape value) (b'"' ∷ rest))
    ∙ string_loop-byte fuel ch (dem_json_escape value ++ (b'"' ∷ rest))
    ∙ ap (λ r. r >>= λ (tail, left). some (ch ∷ tail, left))
        (string_loop-escape value rest fuel (omega arith))

escape_byte-long : (ch : ℕ) → 0 < length (escape_byte ch)
unfolding escape_byte
escape_byte-long ch = ground arith

escape-long : (value : Bytes) → length value ≤ length (dem_json_escape value)
unfolding dem_json_escape
escape-long [] = omega arith
escape-long (ch ∷ value) = omega (
  arith,
  escape_byte-long ch,
  escape-long value,
  length-append (escape_byte ch) (dem_json_escape value),
)

-- A printed string is read back.
pub parse_string-escape :
    (value rest : Bytes)
    → parse_string (b'"' ∷ (dem_json_escape value ++ (b'"' ∷ rest))) ≡ some (value, rest)
unfolding parse_string
parse_string-escape value rest =
    string_loop-escape value rest (length (dem_json_escape value ++ (b'"' ∷ rest)))
      (omega (arith, escape-long value, length-append (dem_json_escape value) (b'"' ∷ rest)))
