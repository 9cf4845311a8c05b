-- ===== src/Aead/Rounds.antt =====
-- The rounds of `ParseHeader` of src/aead.cpp over a header in the fields of battle.proto.
use ph_k_battle_server.Base.{
  ℕ, suc, ◌%◌, ◌^◌, ◌<◌, ◌≡◌, refl, ap, ◌∙◌, [], ◌++◌, Option, none, some, arith, length, Bytes,
}
use ph_k_battle_server.LobbyRng.{hex_text}
use ph_k_battle_server.Protocol.{
  VersionStamp, BattlePayloadType, payload_byte, BattlePacketHeader, BattleEncryptedPacket,
}
use ph_k_battle_server.Aead.{
  EnvelopeStatus, ok, truncated, Tag, Progress, failed, advanced, delimited, numeric, parse_loop,
  header_field, payload_of_byte,
}
use ph_k_battle_server.Aead.Encoding.{
  varint, read_tag-key, text_field, number_field, read_varint-varint, read_bytes-varint,
  parse_loop-step,
}

pub text_step :
    {A : Type 0} (field : A → Tag → Progress A) (set : Bytes → A) (rounds number : ℕ) (message : A)
    (raw rest : Bytes)
    → 0 < number
    → number < 16
    → length raw < 2 ^ 64
    → ((tag : Tag) → tag.field_number ≡ number → field message tag ≡ delimited tag set)
    → parse_loop field (suc rounds) message (text_field number raw rest)
      ≡ parse_loop field rounds (set raw) rest
unfolding text_field delimited
text_step field set rounds number message raw rest positive few fits here =
    parse_loop-step field rounds message (set raw) (text_field number raw rest) rest
      (record { field_number = number; wire_type = 2; rest = varint (length raw) ++ (raw ++ rest) })
      (read_tag-key number 2 _ positive few (omega arith))
      (here _ refl
        ∙ ap (λ o. elim o [ none ↦ failed truncated | some (raw, rest) ↦ advanced (set raw) rest ])
            (read_bytes-varint raw rest fits))

number_step :
    {A : Type 0} (field : A → Tag → Progress A) (set : ℕ → A) (rounds number : ℕ) (message : A)
    (value : ℕ) (rest : Bytes)
    → 0 < number
    → number < 16
    → value < 2 ^ 64
    → ((tag : Tag) → tag.field_number ≡ number → field message tag ≡ numeric tag set)
    → parse_loop field (suc rounds) message (number_field number value rest)
      ≡ parse_loop field rounds (set value) rest
unfolding number_field numeric
number_step field set rounds number message value rest positive few fits here =
    parse_loop-step field rounds message (set value) (number_field number value rest) rest
      (record { field_number = number; wire_type = 0; rest = varint value ++ rest })
      (read_tag-key number 0 _ positive few (omega arith))
      (here _ refl
        ∙ ap
            (λ o. elim o [
              | none ↦ failed truncated
              | some (value, rest) ↦ advanced (set value) rest
            ])
            (read_varint-varint value rest fits))

-- The fields of a header, for the bytes of the nonce; the version's are any message.
unfoldable pub encode_header : Bytes → Bytes → BattlePacketHeader → Bytes
encode_header version nonce header = text_field 1 version (
    text_field 2 header.match_id (
      text_field 3 header.player_id (
        number_field 4 header.tick (
          number_field 5 header.seq (
            number_field 6 header.ack (
              number_field 7 (payload_byte header.payload_type)
                (text_field 8 header.key_id (text_field 9 nonce []))))))))

unfoldable pub encode_envelope : Bytes → Bytes → BattleEncryptedPacket → Bytes
encode_envelope version nonce packet =
    text_field 1 (encode_header version nonce packet.header)
      (text_field 2 packet.ciphertext (text_field 3 packet.auth_tag []))

-- The values that fit the wire format.
pub record Fits (nonce : Bytes) (header : BattlePacketHeader) : Type 0 where
  pub match_id_fits : length header.match_id < 2 ^ 64
  pub player_id_fits : length header.player_id < 2 ^ 64
  pub tick_fits : header.tick < 2 ^ 64
  pub seq_fits : header.seq < 2 ^ 64
  pub ack_fits : header.ack < 2 ^ 64
  pub type_known : payload_of_byte (payload_byte header.payload_type % 256) ≡ header.payload_type
  pub type_fits : payload_byte header.payload_type < 2 ^ 64
  pub key_id_fits : length header.key_id < 2 ^ 64
  pub nonce_fits : length nonce < 2 ^ 64
  pub nonce_of : hex_text nonce ≡ header.nonce_hex

same_header :
    (header : BattlePacketHeader) (v : VersionStamp) (p : BattlePayloadType) (n : Bytes)
    → v ≡ header.version
    → p ≡ header.payload_type
    → n ≡ header.nonce_hex
    → ◌≡◌ {A = Option (EnvelopeStatus × BattlePacketHeader)}
        (some (ok, record header { version = v; payload_type = p; nonce_hex = n }))
        (some (ok, header))
same_header header v p n ev ep en = cc

pub header_rounds :
    (old header : BattlePacketHeader) (version nonce : Bytes)
    → length version < 2 ^ 64
    → Fits nonce header
    → old.version ≡ header.version
    → parse_loop header_field 9 old (encode_header version nonce header) ≡ some (ok, header)
unfolding encode_header header_field parse_loop
header_rounds old header version nonce vf fits same =
    text_step header_field (λ raw. old) 8 1 old version _ (omega arith) (omega arith) vf
      (λ tag e. ground (arith, e))
    ∙ text_step header_field (λ raw. record old { match_id = raw }) 7 2 old header.match_id _
        (omega arith) (omega arith) fits.match_id_fits (λ tag e. ground (arith, e))
    ∙ text_step header_field (λ raw. record old { match_id = header.match_id; player_id = raw }) 6 3
        (record old { match_id = header.match_id }) header.player_id _ (omega arith) (omega arith)
        fits.player_id_fits (λ tag e. ground (arith, e))
    ∙ number_step header_field
        (λ value. record old {
          match_id = header.match_id;
          player_id = header.player_id;
          tick = value;
        })
        5 4 (record old { match_id = header.match_id; player_id = header.player_id }) header.tick _
        (omega arith) (omega arith) fits.tick_fits (λ tag e. ground (arith, e))
    ∙ number_step header_field
        (λ value. record old {
          match_id = header.match_id;
          player_id = header.player_id;
          tick = header.tick;
          seq = value;
        })
        4 5
        (record old {
          match_id = header.match_id;
          player_id = header.player_id;
          tick = header.tick;
        })
        header.seq _ (omega arith) (omega arith) fits.seq_fits (λ tag e. ground (arith, e))
    ∙ number_step header_field
        (λ value. record old {
          match_id = header.match_id;
          player_id = header.player_id;
          tick = header.tick;
          seq = header.seq;
          ack = value;
        })
        3 6
        (record old {
          match_id = header.match_id;
          player_id = header.player_id;
          tick = header.tick;
          seq = header.seq;
        })
        header.ack _ (omega arith) (omega arith) fits.ack_fits (λ tag e. ground (arith, e))
    ∙ number_step header_field
        (λ value. record old {
          match_id = header.match_id;
          player_id = header.player_id;
          tick = header.tick;
          seq = header.seq;
          ack = header.ack;
          payload_type = payload_of_byte (value % 256);
        })
        2 7
        (record old {
          match_id = header.match_id;
          player_id = header.player_id;
          tick = header.tick;
          seq = header.seq;
          ack = header.ack;
        })
        (payload_byte header.payload_type) _ (omega arith) (omega arith) fits.type_fits
        (λ tag e. ground (arith, e))
    ∙ text_step header_field
        (λ raw. record old {
          match_id = header.match_id;
          player_id = header.player_id;
          tick = header.tick;
          seq = header.seq;
          ack = header.ack;
          payload_type = payload_of_byte (payload_byte header.payload_type % 256);
          key_id = raw;
        })
        1 8
        (record old {
          match_id = header.match_id;
          player_id = header.player_id;
          tick = header.tick;
          seq = header.seq;
          ack = header.ack;
          payload_type = payload_of_byte (payload_byte header.payload_type % 256);
        })
        header.key_id _ (omega arith) (omega arith) fits.key_id_fits (λ tag e. ground (arith, e))
    ∙ text_step header_field
        (λ raw. record old {
          match_id = header.match_id;
          player_id = header.player_id;
          tick = header.tick;
          seq = header.seq;
          ack = header.ack;
          payload_type = payload_of_byte (payload_byte header.payload_type % 256);
          key_id = header.key_id;
          nonce_hex = hex_text raw;
        })
        0 9
        (record old {
          match_id = header.match_id;
          player_id = header.player_id;
          tick = header.tick;
          seq = header.seq;
          ack = header.ack;
          payload_type = payload_of_byte (payload_byte header.payload_type % 256);
          key_id = header.key_id;
        })
        nonce _ (omega arith) (omega arith) fits.nonce_fits (λ tag e. ground (arith, e))
    ∙ same_header header old.version _ _ same fits.type_known fits.nonce_of
