-- ===== src/Aead/Open.antt =====
-- The opening of a sealed packet in src/aead.cpp: `OpenEnvelope`, the hexadecimal text of the nonce,
-- the additional data, and `ChaCha20Poly1305Open`. The calls of OpenSSL are the record `Evp`: none
-- stands for a call that fails.
pub mod Decryption
pub mod Outcomes
pub mod Pinned
use ph_k_battle_server.Base.{
  ◌>>=◌, ℕ, zero, suc, ◌+◌, ◌-◌, ◌*◌, ◌/◌, ◌%◌, ◌^◌, ◌<◌, ◌≡◌, ◌≢◌, refl, sym, ap, ◌∙◌, ◌⊎◌, inl,
  inr, Bool, true, false, not, ◌&&◌, ◌||◌, List, [], ◌∷◌, ◌++◌, Option, none, some, arith, ltb, leb,
  ◌==◌, if◌then◌else◌, length, length-append, take-append, drop-append, take, drop, all, is_empty,
  Bytes, codes, bytes_eq, bytes_eq_iff,
}
use ph_k_battle_server.Base.LittleEndian.{le_bytes}
use ph_k_battle_server.Protocol.{payload_byte, BattlePacketHeader, BattleEncryptedPacket}
use ph_k_battle_server.Protocol.Nonce.{
  is_xdigit, is_hex, dev_aead_nonce_hex, dev_aead_nonce_hex_shape,
}

pub data AeadStatus : Type 0 where
  ok no_key_for_player key_id_mismatch bad_tag_length nonce_mismatch decrypt_failed : AeadStatus

pub record AeadResult : Type 0 where
  pub status : AeadStatus
  pub plaintext : Bytes

-- `HexValue`; none stands for -1.
unfoldable pub hex_nibble : ℕ → Option ℕ
hex_nibble c =
    if leb b'0' c && leb c b'9'
    then some (c - b'0')
    else (if leb b'a' c && leb c b'f'
        then some (c - b'a' + 10)
        else (if leb b'A' c && leb c b'F' then some (c - b'A' + 10) else none))

unfoldable pub is_hex_char : ℕ → Bool
is_hex_char c = elim (hex_nibble c) [ none ↦ false | some d ↦ true ]

unfoldable pub all_hex : Bytes → Bool
all_hex value = not (is_empty value) && all is_hex_char value

-- The loop of `NonceBytes` over the pairs of digits.
unfoldable pub pair_bytes : Bytes → Option Bytes
pair_bytes [] = some []
pair_bytes (c ∷ []) = some []
pair_bytes (high ∷ low ∷ rest) = elim (hex_nibble high) [
  | none ↦ none
  | some h ↦ elim (hex_nibble low) [
    | none ↦ none
    | some l ↦ elim (pair_bytes rest) [ none ↦ none | some bytes ↦ some ((h * 16 + l) ∷ bytes) ]
  ]
]

unfoldable pub nonce_bytes : Bytes → Bytes
nonce_bytes hex =
    if (length hex == 24) && all_hex hex
    then elim (pair_bytes hex) [ none ↦ [] | some bytes ↦ bytes ]
    else []

-- `AppendU64Le`.
unfoldable pub u64_le : ℕ → Bytes
u64_le value = le_bytes 8 value

unfoldable pub aad_bytes : BattlePacketHeader → Bytes → Bytes
aad_bytes header direction =
    direction
    ++ (header.key_id
        ++ (header.match_id
            ++ (header.player_id
                ++ (u64_le (payload_byte header.payload_type)
                    ++ (u64_le header.tick ++ (u64_le header.seq ++ u64_le header.ack))))))

abbrev pub refused : AeadStatus → AeadResult
refused s = record { status = s; plaintext = [] }

-- The end of `OpenEnvelope`, after its checks.
unfoldable pub decrypted : Bytes → Bytes → AeadResult
decrypted plaintext ciphertext = record {
  status = if is_empty plaintext && not (is_empty ciphertext) then decrypt_failed else ok;
  plaintext = plaintext;
}

-- OpenSSL's calls on a context. A call that decrypts gives the bytes that it writes, whose number
-- it reports; the call on additional data writes none and reports a number.
pub record Evp : Type 1 where
  pub Context : Type 0
  pub new_context : Option Context
  pub init_cipher : Context → Option Context
  pub set_iv_length : Context → ℕ → Option Context
  pub init_key : Context → Bytes → Bytes → Option Context
  pub update_aad : Context → Bytes → Option (Context × ℕ)
  pub update : Context → Bytes → Option (Context × Bytes)
  pub set_tag : Context → Bytes → Option Context
  pub final : Context → Option Bytes

unfoldable pub zero_bytes : ℕ → Bytes
zero_bytes zero = []
zero_bytes (suc n) = 0 ∷ zero_bytes n

-- Bytes written into a buffer from a position on.
unfoldable pub write_at : ℕ → Bytes → Bytes → Bytes
write_at at out buffer = take at buffer ++ (out ++ drop (at + length out) buffer)

-- `resize` of a vector.
unfoldable pub resize : ℕ → Bytes → Bytes
resize n buffer = take n (buffer ++ zero_bytes n)

module _ (e : Evp) where
  -- The additional data, and the value of `written` after it.
  unfoldable pub feed_aad : e.Context → Bytes → Option (e.Context × ℕ)
  feed_aad ctx aad = if is_empty aad then some (ctx, 0) else e.update_aad ctx aad

  -- The ciphertext: the buffer of the plaintext and the value of `written` after it.
  unfoldable pub feed_ciphertext : e.Context → ℕ → Bytes → Option (e.Context × Bytes × ℕ)
  feed_ciphertext ctx written ciphertext =
      if is_empty ciphertext
      then some (ctx, zero_bytes (length ciphertext), written)
      else (e.update ctx ciphertext >>= λ (next, out).
          some (next, write_at 0 out (zero_bytes (length ciphertext)), length out))

  -- `ChaCha20Poly1305Open` after its test of the sizes.
  unfoldable pub decrypt : Bytes → Bytes → Bytes → Bytes → Bytes → Option Bytes
  decrypt key nonce aad ciphertext auth_tag = do
    c0 ← e.new_context
    c1 ← e.init_cipher c0
    c2 ← e.set_iv_length c1 (length nonce)
    c3 ← e.init_key c2 key nonce
    (c4, written) ← feed_aad c3 aad
    (c5, buffer, plain_len) ← feed_ciphertext c4 written ciphertext
    c6 ← e.set_tag c5 auth_tag
    last ← e.final c6
    some (resize (plain_len + length last) (write_at plain_len last buffer))

  -- An empty plaintext is also its failure.
  unfoldable pub chacha20_poly1305_open : Bytes → Bytes → Bytes → Bytes → Bytes → Bytes
  chacha20_poly1305_open key nonce aad ciphertext auth_tag =
      if not (length key == 32) || (not (length nonce == 12) || not (length auth_tag == 16))
      then []
      else elim (decrypt key nonce aad ciphertext auth_tag) [
        | none ↦ []
        | some plaintext ↦ plaintext
      ]

  unfoldable pub open_envelope : BattleEncryptedPacket → Bytes → Bytes → AeadResult
  open_envelope packet expected_key_id session_key =
      let nonce = nonce_bytes packet.header.nonce_hex in
      if not (bytes_eq packet.header.key_id expected_key_id)
      then refused key_id_mismatch
      else (if not (length packet.auth_tag == 16)
          then refused bad_tag_length
          else (if not (bytes_eq packet.header.nonce_hex (dev_aead_nonce_hex packet.header))
              then refused nonce_mismatch
              else (if not (length nonce == 12)
                  then refused nonce_mismatch
                  else (if not (length session_key == 32)
                      then refused no_key_for_player
                      else decrypted
                          (chacha20_poly1305_open session_key nonce
                            (aad_bytes packet.header (codes "client_to_server")) packet.ciphertext
                            packet.auth_tag)
                          packet.ciphertext))))
