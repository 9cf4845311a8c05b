-- ===== src/Aead/Tests.antt =====
-- Envelopes at concrete inputs, and the theorems at inputs that meet their premises.
use ph_k_battle_server.Base.{
  ◌≡◌, refl, [], ◌∷◌, ◌++◌, some, arith, Bytes, codes, length, ◌↔◌, ℕ, inl,
}
use ph_k_battle_server.LobbyRng.{hex_text}
use ph_k_battle_server.Protocol.{input, VersionStamp, BattlePacketHeader, BattleEncryptedPacket}
use ph_k_battle_server.Protocol.Nonce.{dev_aead_nonce_hex}
use ph_k_battle_server.Aead.{
  EnvelopeStatus, ok, truncated, unexpected_field, parse_envelope, parse_header, varint_loop,
  read_varint, take_bytes, read_bytes, read_tag, parse_loop, delimited, envelope_field,
  payload_of_byte,
}
use ph_k_battle_server.Aead.Termination.{parse_envelope-ends}
use ph_k_battle_server.Aead.Encoding.{varint, varint_groups, key, text_field, number_field}
use ph_k_battle_server.Aead.RoundTrip.{parse_envelope-encode}
use ph_k_battle_server.Aead.Rounds.{encode_header, encode_envelope, Fits}
use ph_k_battle_server.Aead.Open.{Evp, zero_bytes, chacha20_poly1305_open, open_envelope, aad_bytes}
use ph_k_battle_server.Aead.Open.Decryption.{Succeeds, chacha20_poly1305_open-Succeeds}
use ph_k_battle_server.Aead.Open.Outcomes.{Explains, open_envelope-Explains}
use ph_k_battle_server.Aead.Open.Pinned.{aad_bytes_iff, SameNumbers}

abbrev stamp : VersionStamp
stamp = record {
  protocol_version = 1;
  business_api_version = [];
  battle_api_version = codes "0.1.0-draft";
  ruleset_version = [];
}

abbrev sealed_header : BattlePacketHeader
sealed_header = record {
  version = stamp;
  match_id = codes "m1";
  player_id = codes "p1";
  tick = 300;
  seq = 7;
  ack = 2;
  payload_type = input;
  key_id = codes "k1";
  nonce_hex = codes "0a1b";
}

abbrev tag : Bytes
tag = 9 ∷ 9 ∷ 9 ∷ 9 ∷ 9 ∷ 9 ∷ 9 ∷ 9 ∷ 9 ∷ 9 ∷ 9 ∷ 9 ∷ 9 ∷ 9 ∷ 9 ∷ 9 ∷ []

abbrev sealed_packet : BattleEncryptedPacket
sealed_packet = record { header = sealed_header; ciphertext = 5 ∷ 6 ∷ []; auth_tag = tag }

abbrev empty_header : BattlePacketHeader
empty_header = record {
  version = stamp;
  match_id = [];
  player_id = [];
  tick = 0;
  seq = 0;
  ack = 0;
  payload_type = input;
  key_id = [];
  nonce_hex = [];
}

abbrev empty_packet : BattleEncryptedPacket
empty_packet = record { header = empty_header; ciphertext = []; auth_tag = [] }

-- A packet with no more than a ciphertext, one cut short, and one with the field 4.
only_ciphertext :
    parse_envelope empty_packet (18 ∷ 1 ∷ 77 ∷ [])
    ≡ some (ok, record empty_packet { ciphertext = 77 ∷ [] })
unfolding parse_envelope parse_loop envelope_field read_tag read_varint varint_loop delimited
    read_bytes take_bytes
only_ciphertext = refl

cut_short : parse_envelope empty_packet (18 ∷ 2 ∷ 77 ∷ []) ≡ some (truncated, empty_packet)
unfolding parse_envelope parse_loop envelope_field read_tag read_varint varint_loop delimited
    read_bytes take_bytes
cut_short = refl

field_four : parse_envelope empty_packet (34 ∷ 0 ∷ []) ≡ some (unexpected_field, empty_packet)
unfolding parse_envelope parse_loop envelope_field read_tag read_varint varint_loop delimited
    read_bytes take_bytes
field_four = refl

-- Ten bytes whose value is beyond 64 bits are taken for a varint.
overlong_varint :
    read_varint (255 ∷ 255 ∷ 255 ∷ 255 ∷ 255 ∷ 255 ∷ 255 ∷ 255 ∷ 255 ∷ 127 ∷ [])
    ≡ some (18446744073709551615, [])
unfolding read_varint varint_loop
overlong_varint = refl

parse_envelope-ends_example :
    ((result : EnvelopeStatus × BattleEncryptedPacket) × (parse_envelope empty_packet
          (18 ∷ 1 ∷ 77 ∷ [])
        ≡ some result))
    × ((result : EnvelopeStatus × BattlePacketHeader) × (parse_header
            (32 ∷ 172 ∷ 2 ∷ [])
            empty_packet.header
          ≡ some result))
parse_envelope-ends_example =
    parse_envelope-ends empty_packet (18 ∷ 1 ∷ 77 ∷ []) (32 ∷ 172 ∷ 2 ∷ [])

sealed_header-Fits : Fits (10 ∷ 27 ∷ []) sealed_header
unfolding payload_of_byte hex_text
sealed_header-Fits = record {
  match_id_fits = omega arith;
  player_id_fits = omega arith;
  tick_fits = omega arith;
  seq_fits = omega arith;
  ack_fits = omega arith;
  type_known = refl;
  type_fits = omega arith;
  key_id_fits = omega arith;
  nonce_fits = omega arith;
  nonce_of = refl;
}

sealed_header-length : length (encode_header (8 ∷ 1 ∷ []) (10 ∷ 27 ∷ []) sealed_header) ≡ 29
unfolding encode_header text_field number_field key varint varint_groups
sealed_header-length = refl

parse_envelope-encode_example :
    parse_envelope empty_packet (encode_envelope (8 ∷ 1 ∷ []) (10 ∷ 27 ∷ []) sealed_packet)
    ≡ some (ok, sealed_packet)
parse_envelope-encode_example =
    parse_envelope-encode empty_packet sealed_packet (8 ∷ 1 ∷ []) (10 ∷ 27 ∷ []) (omega arith)
      sealed_header-Fits refl (omega (arith, sealed_header-length)) (omega arith) (omega arith)

-- A cipher that gives the ciphertext back.
abbrev null_cipher : Evp
null_cipher = record {
  Context = ℕ;
  new_context = some 0;
  init_cipher = λ ctx. some ctx;
  set_iv_length = λ ctx n. some ctx;
  init_key = λ ctx k nonce. some ctx;
  update_aad = λ ctx aad. some (ctx, length aad);
  update = λ ctx text. some (ctx, text);
  set_tag = λ ctx t. some ctx;
  final = λ ctx. some [];
}

abbrev session_key : Bytes
session_key = tag ++ tag

addressed_packet : BattleEncryptedPacket
addressed_packet = record sealed_packet {
  header = record sealed_header { nonce_hex = dev_aead_nonce_hex sealed_header };
}

open_envelope-Explains_example :
    Explains null_cipher
      (open_envelope null_cipher addressed_packet (codes "k1") session_key).status
      addressed_packet
      (codes "k1")
      session_key
      (open_envelope null_cipher addressed_packet (codes "k1") session_key).plaintext
open_envelope-Explains_example =
    open_envelope-Explains null_cipher addressed_packet (codes "k1") session_key

-- The ids run into each other: another match and another player, with the same additional data.
abbrev shifted_header : BattlePacketHeader
shifted_header = record sealed_header { match_id = codes "m1p"; player_id = codes "1" }

aad_same :
    aad_bytes sealed_header (codes "client_to_server")
    ≡ aad_bytes shifted_header (codes "client_to_server")
unfolding aad_bytes
aad_same = refl

aad_bytes_iff_example :
    (aad_bytes sealed_header (codes "client_to_server")
      ≡ aad_bytes shifted_header (codes "client_to_server"))
    ↔ ((codes "k1" ++ (codes "m1" ++ codes "p1") ≡ codes "k1" ++ (codes "m1p" ++ codes "1"))
        × SameNumbers sealed_header shifted_header)
aad_bytes_iff_example =
    aad_bytes_iff sealed_header shifted_header (codes "client_to_server")
      (omega arith, omega arith, omega arith, omega arith)
      (omega arith, omega arith, omega arith, omega arith)

abbrev nonce : Bytes
nonce = 1 ∷ 2 ∷ 3 ∷ 4 ∷ 5 ∷ 6 ∷ 7 ∷ 8 ∷ 9 ∷ 10 ∷ 11 ∷ 12 ∷ []

-- A run without a ciphertext.
empty_run : Succeeds null_cipher session_key nonce (codes "aad") [] tag (0 ∷ 0 ∷ 0 ∷ [])
unfolding zero_bytes
empty_run = record {
  c0 = 0;
  c1 = 0;
  c2 = 0;
  c3 = 0;
  c4 = 0;
  c5 = 0;
  c6 = 0;
  created = refl;
  with_cipher = refl;
  with_length = refl;
  with_key = refl;
  with_aad = refl;
  with_text = inl (refl, refl, refl);
  with_tag = refl;
  passed = refl;
}

chacha20_poly1305_open-Succeeds_example :
    chacha20_poly1305_open null_cipher session_key nonce (codes "aad") [] tag ≡ 0 ∷ 0 ∷ 0 ∷ []
chacha20_poly1305_open-Succeeds_example =
    chacha20_poly1305_open-Succeeds null_cipher session_key nonce (codes "aad") [] tag
      (0 ∷ 0 ∷ 0 ∷ []) refl refl refl (λ same. cc) empty_run
