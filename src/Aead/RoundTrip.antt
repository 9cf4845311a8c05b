-- ===== src/Aead/RoundTrip.antt =====
-- What is sealed with the envelope of a packet, in the fields of battle.proto, and what the parsers
-- of src/aead.cpp take from it.
use ph_k_battle_server.Base.{
  ℕ, suc, ◌+◌, ◌-◌, ◌^◌, ◌≤◌, ◌<◌, ◌≡◌, refl, ap, ◌∙◌, subst, false, [], ◌∷◌, ◌++◌, none, some,
  arith, length, length-append, is_empty, Bytes,
}
use ph_k_battle_server.Protocol.{BattlePacketHeader, BattleEncryptedPacket}
use ph_k_battle_server.Aead.{
  EnvelopeStatus, ok, truncated, Tag, Progress, failed, advanced, parse_loop, header_field,
  parse_header, nested_header, envelope_field, parse_envelope,
}
use ph_k_battle_server.Aead.Encoding.{
  varint, varint_positive, key, read_tag-key, text_field, number_field, read_bytes-varint,
  parse_loop-step, parse_loop-more,
}
use ph_k_battle_server.Aead.Rounds.{text_step, encode_header, encode_envelope, Fits, header_rounds}

text_field-longer :
    (number : ℕ) (raw rest : Bytes) → length rest < length (text_field number raw rest)
unfolding text_field
text_field-longer number raw rest = ground (
  arith,
  varint_positive (length raw),
  length-append (key number 2) (varint (length raw) ++ (raw ++ rest)),
  length-append (varint (length raw)) (raw ++ rest),
  length-append raw rest,
)

number_field-longer :
    (number value : ℕ) (rest : Bytes) → length rest < length (number_field number value rest)
unfolding number_field
number_field-longer number value rest = ground (
  arith,
  varint_positive value,
  length-append (key number 0) (varint value ++ rest),
  length-append (varint value) rest,
)

-- A loop that ends in so many rounds ends in one round for each byte.
enough_rounds :
    {A : Type 0} (field : A → Tag → Progress A) (rounds : ℕ) (message : A) (bytes : Bytes)
    (result : EnvelopeStatus × A)
    → rounds ≤ length bytes
    → parse_loop field rounds message bytes ≡ some result
    → parse_loop field (length bytes) message bytes ≡ some result
enough_rounds field rounds message bytes result h e =
    let count : rounds + (length bytes - rounds) ≡ length bytes = omega arith in
    subst (λ n. parse_loop field n message bytes ≡ some result) count
      (parse_loop-more field (length bytes - rounds) rounds message bytes result e)

is_empty-long : (bytes : Bytes) → 0 < length bytes → is_empty bytes ≡ false
is_empty-long [] h = absurd (omega arith)
is_empty-long (byte ∷ bytes) h = refl

encode_header-long :
    (version nonce : Bytes) (header : BattlePacketHeader)
    → 9 ≤ length (encode_header version nonce header)
unfolding encode_header
encode_header-long version nonce header = grind (arith, text_field-longer, number_field-longer)

encode_envelope-long :
    (version nonce : Bytes) (packet : BattleEncryptedPacket)
    → 3 ≤ length (encode_envelope version nonce packet)
unfolding encode_envelope
encode_envelope-long version nonce packet = grind (arith, text_field-longer)

parse_header-encode :
    (old header : BattlePacketHeader) (version nonce : Bytes)
    → length version < 2 ^ 64
    → Fits nonce header
    → old.version ≡ header.version
    → parse_header (encode_header version nonce header) old ≡ some (ok, header)
unfolding parse_header
parse_header-encode old header version nonce vf fits same =
    enough_rounds header_field 9 old (encode_header version nonce header) (ok, header)
      (encode_header-long version nonce header)
      (header_rounds old header version nonce vf fits same)

nested_header-ok :
    (packet : BattleEncryptedPacket) (raw rest : Bytes) (header : BattlePacketHeader)
    → parse_header raw packet.header ≡ some (ok, header)
    → nested_header packet raw rest ≡ advanced (record packet { header = header }) rest
unfolding nested_header
nested_header-ok packet raw rest header e = rw (e, nested_header) refl

header_step :
    (rounds : ℕ) (packet : BattleEncryptedPacket) (raw rest : Bytes) (header : BattlePacketHeader)
    → length raw < 2 ^ 64
    → parse_header raw packet.header ≡ some (ok, header)
    → parse_loop envelope_field (suc rounds) packet (text_field 1 raw rest)
      ≡ parse_loop envelope_field rounds (record packet { header = header }) rest
unfolding text_field envelope_field
header_step rounds packet raw rest header fits e =
    parse_loop-step envelope_field rounds packet (record packet { header = header })
      (text_field 1 raw rest) rest
      (record { field_number = 1; wire_type = 2; rest = varint (length raw) ++ (raw ++ rest) })
      (read_tag-key 1 2 _ (omega arith) (omega arith) (omega arith))
      (ap
          (λ o. elim o [
            | none ↦ failed truncated
            | some (raw, rest) ↦ nested_header packet raw rest
          ])
          (read_bytes-varint raw rest fits)
        ∙ nested_header-ok packet raw rest header e)

envelope_rounds :
    (fresh packet : BattleEncryptedPacket) (version nonce : Bytes)
    → length version < 2 ^ 64
    → Fits nonce packet.header
    → fresh.header.version ≡ packet.header.version
    → length (encode_header version nonce packet.header) < 2 ^ 64
    → length packet.ciphertext < 2 ^ 64
    → length packet.auth_tag < 2 ^ 64
    → parse_loop envelope_field 3 fresh (encode_envelope version nonce packet) ≡ some (ok, packet)
unfolding encode_envelope envelope_field parse_loop
envelope_rounds fresh packet version nonce vf fits same hf cf tf =
    header_step 2 fresh (encode_header version nonce packet.header) _ packet.header hf
      (parse_header-encode fresh.header packet.header version nonce vf fits same)
    ∙ text_step envelope_field (λ raw. record fresh { header = packet.header; ciphertext = raw }) 1
        2 (record fresh { header = packet.header }) packet.ciphertext _ (omega arith) (omega arith)
        cf (λ tag e. ground (arith, e))
    ∙ text_step envelope_field (λ raw. record packet { auth_tag = raw }) 0 3
        (record fresh { header = packet.header; ciphertext = packet.ciphertext }) packet.auth_tag _
        (omega arith) (omega arith) tf (λ tag e. ground (arith, e))

-- The parser reads back a packet that was encoded in the fields of battle.proto: with the version of
-- the protocol the parser starts from, texts shorter than 2 ^ 64, numbers of 64 bits, a nonce
-- that the header holds in hexadecimal digits, and a type of payload the parser knows.
pub parse_envelope-encode :
    (fresh packet : BattleEncryptedPacket) (version nonce : Bytes)
    → length version < 2 ^ 64
    → Fits nonce packet.header
    → fresh.header.version ≡ packet.header.version
    → length (encode_header version nonce packet.header) < 2 ^ 64
    → length packet.ciphertext < 2 ^ 64
    → length packet.auth_tag < 2 ^ 64
    → parse_envelope fresh (encode_envelope version nonce packet) ≡ some (ok, packet)
unfolding parse_envelope
parse_envelope-encode fresh packet version nonce vf fits same hf cf tf = ground (
  arith,
  encode_envelope-long version nonce packet,
  is_empty-long (encode_envelope version nonce packet),
  enough_rounds envelope_field 3 fresh (encode_envelope version nonce packet) (ok, packet)
      (encode_envelope-long version nonce packet)
      (envelope_rounds fresh packet version nonce vf fits same hf cf tf),
)
