-- ===== src/LobbyRng.antt =====
-- src/lobby_rng.cpp: the short hash, the deterministic stream of the lobby and HMAC-SHA256.
-- `LobbyDeterministicUnit` returns `double(value % 10000) / 10000.0`; the model keeps the
-- numerator, and a comparison of two such doubles is that of their numerators.
pub mod Laws
mod Tests
use Prim.Native.Nat.{bit_xor}
use ph_k_battle_server.Base.{
  ℕ, zero, suc, ◌+◌, ◌-◌, ◌*◌, ◌/◌, ◌%◌, ◌&&◌, List, [], ◌∷◌, ◌++◌, map, ltb, leb, if◌then◌else◌,
  length, take, Bytes,
}
use ph_k_battle_server.Base.Int.{ℤ}
use ph_k_battle_server.Base.Decimal.{to_string_ℤ}
use ph_k_battle_server.Sha256.{sha256_bytes}

unfoldable pub hex_value : ℕ → ℕ
hex_value ch =
    if leb b'0' ch && leb ch b'9'
    then ch - b'0'
    else (if leb b'a' ch && leb ch b'f'
        then ch - b'a' + 10
        else (if leb b'A' ch && leb ch b'F' then ch - b'A' + 10 else 0))

-- `kHexDigits[d]`.
unfoldable pub hex_digit : ℕ → ℕ
hex_digit d = if ltb d 10 then b'0' + d else b'a' + (d - 10)

-- Two lower-case digits for each byte.
unfoldable pub hex_text : Bytes → Bytes
unfolding hex_digit
hex_text [] = []
hex_text (byte ∷ rest) = hex_digit (byte / 16 % 16) ∷ hex_digit (byte % 16) ∷ hex_text rest

unfoldable pub short_hash_hex : Bytes → Bytes
short_hash_hex value = hex_text (take 4 (sha256_bytes value))

-- The loop that folds the digits in 64 bits.
unfoldable pub fold_hex : ℕ → Bytes → ℕ
unfolding hex_value
fold_hex value [] = value
fold_hex value (ch ∷ hash) = fold_hex ((value * 16 + hex_value ch) % 18446744073709551616) hash

unfoldable pub unit_material : ℤ → ℤ → Bytes → ℤ → Bytes
unit_material seed tick stream_id index =
    to_string_ℤ seed
    ++ (b':' ∷ (to_string_ℤ tick ++ (b':' ∷ (stream_id ++ (b':' ∷ to_string_ℤ index)))))

-- In units of 1 / 10000.
unfoldable pub lobby_deterministic_unit : ℤ → ℤ → Bytes → ℤ → ℕ
lobby_deterministic_unit seed tick stream_id index =
    fold_hex 0 (short_hash_hex (unit_material seed tick stream_id index)) % 10000

-- `resize(n, '\0')` of a text that is no longer than that.
unfoldable pub zero_fill : ℕ → Bytes → Bytes
zero_fill zero text = []
zero_fill (suc n) [] = 0 ∷ zero_fill n []
zero_fill (suc n) (byte ∷ text) = byte ∷ zero_fill n text

unfoldable pub normalized_key : Bytes → Bytes
normalized_key key = zero_fill 64 (if ltb 64 (length key) then sha256_bytes key else key)

unfoldable pub hmac_sha256_hex : Bytes → Bytes → Bytes
hmac_sha256_hex key message =
    let inner = map (λ b. bit_xor b 0x36) (normalized_key key) ++ message in
    let outer = map (λ b. bit_xor b 0x5c) (normalized_key key) ++ sha256_bytes inner in
    hex_text (sha256_bytes outer)
