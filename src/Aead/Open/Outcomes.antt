-- ===== src/Aead/Open/Outcomes.antt =====
-- What each status of `OpenEnvelope` in src/aead.cpp says of the packet and the keys.
use ph_k_battle_server.Base.{
  ℕ, zero, suc, ◌+◌, ◌*◌, ◌≡◌, ◌≢◌, refl, sym, ap, ◌∙◌, ◌⊎◌, inl, inr, true, false, not, [], ◌∷◌,
  Option, none, some, arith, ◌==◌, if◌then◌else◌, length, all, is_empty, Bytes, codes, bytes_eq,
  bytes_eq_iff, if_both, Option-cases,
}
use ph_k_battle_server.Protocol.{BattlePacketHeader, BattleEncryptedPacket}
use ph_k_battle_server.Protocol.Nonce.{
  is_xdigit, is_hex, dev_aead_nonce_hex, dev_aead_nonce_hex_shape,
}
use ph_k_battle_server.Aead.Open.{
  Evp, decrypt, refused, AeadStatus, ok, no_key_for_player, key_id_mismatch, bad_tag_length,
  nonce_mismatch, decrypt_failed, AeadResult, hex_nibble, is_hex_char, all_hex, pair_bytes,
  nonce_bytes, aad_bytes, chacha20_poly1305_open, decrypted, open_envelope,
}

xdigit-nibble : (c : ℕ) → is_xdigit c ≡ true → (d : ℕ) × (hex_nibble c ≡ some d)
unfolding is_xdigit hex_nibble
xdigit-nibble c h = elim (Option-cases (hex_nibble c)) [
  | inl bad ↦ ground (arith, h, bad)
  | inr found ↦ found
]

xdigit-IsHexChar : (c : ℕ) → is_xdigit c ≡ true → is_hex_char c ≡ true
unfolding is_hex_char
xdigit-IsHexChar c h = rw ((xdigit-nibble c h).1, is_hex_char) refl

all-IsHexChar : (s : Bytes) → all is_xdigit s ≡ true → all is_hex_char s ≡ true
all-IsHexChar [] h = refl
all-IsHexChar (c ∷ s) h = ground (arith, h, xdigit-IsHexChar c, all-IsHexChar s)

pair_bytes-length :
    (k : ℕ) (s : Bytes)
    → length s ≡ k * 2
    → all is_xdigit s ≡ true
    → (bytes : Bytes) × (pair_bytes s ≡ some bytes) × (length bytes ≡ k)
unfolding pair_bytes
pair_bytes-length zero [] l h = ([], refl, refl)
pair_bytes-length zero (c ∷ s) l h = absurd (omega arith)
pair_bytes-length (suc k) [] l h = absurd (omega arith)
pair_bytes-length (suc k) (c ∷ []) l h = absurd (omega arith)
pair_bytes-length (suc k) (high ∷ low ∷ s) l h =
    let (hd, hi) = xdigit-nibble high (ground (arith, h)) in
    let (ld, lo) = xdigit-nibble low (ground (arith, h)) in
    let (bytes, found, len) = pair_bytes-length k s (omega arith) (ground (arith, h)) in
    ((hd * 16 + ld) ∷ bytes, rw (pair_bytes, hi, lo, found) refl, omega arith)

nonempty : (s : Bytes) → length s ≡ 24 → is_empty s ≡ false
nonempty [] h = absurd (omega arith)
nonempty (c ∷ s) h = refl

-- The nonce that every header has is of twelve bytes, so that the second test of the nonce in
-- `OpenEnvelope` never fails.
nonce_bytes-length :
    (header : BattlePacketHeader) → length (nonce_bytes (dev_aead_nonce_hex header)) ≡ 12
unfolding nonce_bytes all_hex is_hex
nonce_bytes-length header =
    let (len, hex) = dev_aead_nonce_hex_shape header in
    let (bytes, found, count) =
      pair_bytes-length 12 (dev_aead_nonce_hex header) (omega arith) hex in
    ground (
      arith,
      len,
      found,
      count,
      all-IsHexChar (dev_aead_nonce_hex header) hex,
      nonempty (dev_aead_nonce_hex header),
    )

bytes_differ : (a b : Bytes) → not (bytes_eq a b) ≡ true → a ≢ b
bytes_differ a b h = λ e. ground (arith, h, bytes_eq_iff a b)

bytes_agree : (a b : Bytes) → not (bytes_eq a b) ≡ false → a ≡ b
bytes_agree a b h = ground (arith, h, bytes_eq_iff a b)

module _ (e : Evp) where
  -- The checks before the key.
  pub Addressed : BattleEncryptedPacket → Bytes → Type 0
  Addressed packet expected_key_id =
      (packet.header.key_id ≡ expected_key_id)
      × (length packet.auth_tag ≡ 16)
      × (packet.header.nonce_hex ≡ dev_aead_nonce_hex packet.header)

  -- What the run of the cipher's calls gives for a packet.
  pub cipher_answer : BattleEncryptedPacket → Bytes → Option Bytes
  cipher_answer packet session_key =
      decrypt e session_key (nonce_bytes packet.header.nonce_hex)
        (aad_bytes packet.header (codes "client_to_server")) packet.ciphertext packet.auth_tag

  -- What each status says of the packet, the key id, the session key and the plaintext.
  pub Explains : AeadStatus → BattleEncryptedPacket → Bytes → Bytes → Bytes → Type 0
  Explains key_id_mismatch packet id key plain = (packet.header.key_id ≢ id) × (plain ≡ [])
  Explains bad_tag_length packet id key plain =
      (packet.header.key_id ≡ id) × (length packet.auth_tag ≢ 16) × (plain ≡ [])
  Explains nonce_mismatch packet id key plain =
      (packet.header.key_id ≡ id)
      × (length packet.auth_tag ≡ 16)
      × (packet.header.nonce_hex ≢ dev_aead_nonce_hex packet.header)
      × (plain ≡ [])
  Explains no_key_for_player packet id key plain =
      Addressed packet id × (length key ≢ 32) × (plain ≡ [])
  Explains decrypt_failed packet id key plain =
      Addressed packet id
      × (length key ≡ 32)
      × (packet.ciphertext ≢ [])
      × ((cipher_answer packet key ≡ none) ⊎ (cipher_answer packet key ≡ some []))
      × (plain ≡ [])
  Explains ok packet id key plain =
      Addressed packet id
      × (length key ≡ 32)
      × ((packet.ciphertext ≡ []) ⊎ (cipher_answer packet key ≡ some plain))

  end_of_opening :
      (packet : BattleEncryptedPacket) (id key : Bytes)
      → Addressed packet id
      → length key ≡ 32
      → (ciphertext plain : Bytes) → ciphertext ≡ packet.ciphertext
      → (o : Option Bytes) → cipher_answer packet key ≡ o
      → plain ≡ elim o [ none ↦ [] | some plaintext ↦ plaintext ]
      → Explains (decrypted plain ciphertext).status packet id key plain
  unfolding decrypted Explains
  end_of_opening packet id key a k [] [] c o q p = (a, k, inl (sym c))
  end_of_opening packet id key a k [] (b ∷ plain) c o q p = (a, k, inl (sym c))
  end_of_opening packet id key a k (b ∷ bs) [] c none q p = (a, k, cc, inl q, refl)
  end_of_opening packet id key a k (b ∷ bs) [] c (some plain) q p =
      (a, k, cc, inr (q ∙ ap some (sym p)), refl)
  end_of_opening packet id key a k (b ∷ bs) (x ∷ xs) c none q p = cc
  end_of_opening packet id key a k (b ∷ bs) (x ∷ xs) c (some plain) q p =
      (a, k, inr (q ∙ ap some (sym p)))

  -- Once the tests before the key have passed.
  at_key :
      (packet : BattleEncryptedPacket) (id key : Bytes)
      → Addressed packet id
      → let nonce = nonce_bytes packet.header.nonce_hex in
        let r =
          if not (length nonce == 12)
          then refused nonce_mismatch
          else (if not (length key == 32)
              then refused no_key_for_player
              else decrypted
                  (chacha20_poly1305_open e key nonce
                    (aad_bytes packet.header (codes "client_to_server"))
                    packet.ciphertext
                    packet.auth_tag)
                  packet.ciphertext) in
        Explains r.status packet id key r.plaintext
  unfolding Explains Addressed cipher_answer chacha20_poly1305_open decrypted
  at_key packet id key a =
      let P : AeadResult → Type 0 = λ r. Explains r.status packet id key r.plaintext in
      let twelve : length (nonce_bytes packet.header.nonce_hex) ≡ 12 =
        ap (λ hex. length (nonce_bytes hex)) a.2 ∙ nonce_bytes-length packet.header in
      if_both P (not (length (nonce_bytes packet.header.nonce_hex) == 12))
        (λ h4. ground (arith, h4, twelve))
        (λ h4.
          if_both P (not (length key == 32)) (λ h5. (a, ground (arith, h5), refl))
            (λ h5.
              end_of_opening packet id key a (ground (arith, h5)) packet.ciphertext _ refl _ refl
                (ground (arith, h4, h5, a.1))))

  -- The status of an opening says what it met: each refusal that its test failed and those before it
  -- passed, with no plaintext; a failed decryption that the cipher gave nothing for a ciphertext that
  -- is not empty; a success that all the tests passed and that the cipher gave the plaintext, or the
  -- ciphertext is empty.
  pub open_envelope-Explains :
      (packet : BattleEncryptedPacket) (id key : Bytes)
      → Explains
          (open_envelope e packet id key).status
          packet
          id
          key
          (open_envelope e packet id key).plaintext
  unfolding open_envelope decrypted Explains Addressed chacha20_poly1305_open cipher_answer
  open_envelope-Explains packet id key =
      let P : AeadResult → Type 0 = λ r. Explains r.status packet id key r.plaintext in
      if_both P (not (bytes_eq packet.header.key_id id))
        (λ h1. (bytes_differ packet.header.key_id id h1, refl))
        (λ h1.
          let named = bytes_agree packet.header.key_id id h1 in
          if_both P (not (length packet.auth_tag == 16)) (λ h2. (named, ground (arith, h2), refl))
            (λ h2.
              let tagged : length packet.auth_tag ≡ 16 = ground (arith, h2) in
              if_both P (not (bytes_eq packet.header.nonce_hex (dev_aead_nonce_hex packet.header)))
                (λ h3. (named, tagged, bytes_differ packet.header.nonce_hex _ h3, refl))
                (λ h3.
                  at_key packet id key (named, tagged, bytes_agree packet.header.nonce_hex _ h3))))
