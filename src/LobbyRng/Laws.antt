-- ===== src/LobbyRng/Laws.antt =====
-- The values of the lobby's stream (src/lobby_rng.cpp).
use ph_k_battle_server.Base.{
  ℕ, zero, suc, ◌+◌, ◌*◌, ◌/◌, ◌%◌, ◌≤◌, ◌<◌, ◌≡◌, refl, ap, ◌∙◌, [], ◌∷◌, arith, length, take, All,
  Bytes, codes,
}
use ph_k_battle_server.Base.Int.{ℤ}
use ph_k_battle_server.Sha256.{
  sha256_bytes, digest_bytes, big_endian, padded_message, pad_zeros, compress_blocks, compress,
}
use ph_k_battle_server.Sha256.Laws.{IsByte, length-sha256_bytes, sha256_bytes-bytes}
use ph_k_battle_server.LobbyRng.{
  hex_value, hex_digit, hex_text, short_hash_hex, fold_hex, unit_material, lobby_deterministic_unit,
  hmac_sha256_hex, normalized_key, zero_fill,
}

-- The number that bytes stand for, the highest first.
abbrev pub number_of : ℕ → Bytes → ℕ
number_of value [] = value
number_of value (byte ∷ rest) = number_of (value * 256 + byte) rest

hex_value-digit : (d : ℕ) → d < 16 → hex_value (hex_digit d) ≡ d
unfolding hex_value hex_digit
hex_value-digit d h = ground arith

fold_hex-pair :
    (value byte : ℕ) (rest : Bytes)
    → byte < 256
    → value * 256 + byte < 18446744073709551616
    → fold_hex value (hex_digit (byte / 16 % 16) ∷ hex_digit (byte % 16) ∷ rest)
      ≡ fold_hex (value * 256 + byte) rest
unfolding fold_hex
fold_hex-pair value byte rest small fits =
    ap (λ v. fold_hex v rest)
      (omega (
        arith,
        hex_value-digit (byte / 16 % 16) (omega arith),
        hex_value-digit (byte % 16) (omega arith),
      ))

-- Four bytes, printed in hexadecimal and folded back, give the number that they stand for.
fold_hex-text_four :
    (b0 b1 b2 b3 : ℕ)
    → b0 < 256
    → b1 < 256
    → b2 < 256
    → b3 < 256
    → fold_hex 0 (hex_text (b0 ∷ b1 ∷ b2 ∷ b3 ∷ [])) ≡ number_of 0 (b0 ∷ b1 ∷ b2 ∷ b3 ∷ [])
unfolding hex_text
fold_hex-text_four b0 b1 b2 b3 h0 h1 h2 h3 =
    fold_hex-pair 0 b0 (hex_text (b1 ∷ b2 ∷ b3 ∷ [])) h0 (omega arith)
    ∙ fold_hex-pair (0 * 256 + b0) b1 (hex_text (b2 ∷ b3 ∷ [])) h1 (omega arith)
    ∙ fold_hex-pair ((0 * 256 + b0) * 256 + b1) b2 (hex_text (b3 ∷ [])) h2 (omega arith)
    ∙ fold_hex-pair (((0 * 256 + b0) * 256 + b1) * 256 + b2) b3 [] h3 (omega arith)
    ∙ (unfold fold_hex in refl)

fold_hex-take_four :
    (bytes : Bytes)
    → 4 ≤ length bytes
    → All IsByte bytes
    → fold_hex 0 (hex_text (take 4 bytes)) ≡ number_of 0 (take 4 bytes)
fold_hex-take_four [] n h = absurd (omega arith)
fold_hex-take_four (b0 ∷ []) n h = absurd (omega arith)
fold_hex-take_four (b0 ∷ b1 ∷ []) n h = absurd (omega arith)
fold_hex-take_four (b0 ∷ b1 ∷ b2 ∷ []) n h = absurd (omega arith)
fold_hex-take_four (b0 ∷ b1 ∷ b2 ∷ b3 ∷ rest) n h =
    fold_hex-text_four b0 b1 b2 b3 h.0 h.1.0 h.1.1.0 h.1.1.1.0

-- The hexadecimal detour of `LobbyDeterministicUnit` is exact: the numerator is the big-endian
-- number of the first four bytes of the SHA-256 digest of the material, modulo 10000, so the unit
-- lies in [0, 1) in steps of 1e-4.
pub lobby_deterministic_unit_lem :
    (seed tick : ℤ) (stream_id : Bytes) (index : ℤ)
    → (lobby_deterministic_unit seed tick stream_id index
        ≡ number_of 0 (take 4 (sha256_bytes (unit_material seed tick stream_id index))) % 10000)
      × (lobby_deterministic_unit seed tick stream_id index < 10000)
unfolding lobby_deterministic_unit short_hash_hex
lobby_deterministic_unit_lem seed tick stream_id index =
    let digest = sha256_bytes (unit_material seed tick stream_id index) in
    (
      ap (λ v. v % 10000)
          (fold_hex-take_four digest
            (omega (arith, length-sha256_bytes (unit_material seed tick stream_id index)))
            (sha256_bytes-bytes (unit_material seed tick stream_id index))),
      omega arith,
    )

-- The key block of HMAC has 64 bytes, whatever the key.
length-zero_fill : (n : ℕ) (text : Bytes) → length (zero_fill n text) ≡ n
unfolding zero_fill
length-zero_fill zero text = refl
length-zero_fill (suc n) [] = ap suc (length-zero_fill n [])
length-zero_fill (suc n) (byte ∷ text) = ap suc (length-zero_fill n text)

-- RFC 4231, test case 2.
hmac_rfc_4231 :
    hmac_sha256_hex (codes "Jefe") (codes "what do ya want for nothing?")
    ≡ codes "5bdcc146bf60754e6a042426089575c75a003f089d2739839dec58b964ec3843"
unfolding hmac_sha256_hex normalized_key zero_fill hex_text sha256_bytes padded_message pad_zeros
    big_endian compress_blocks compress digest_bytes
hmac_rfc_4231 = refl
