-- ===== src/Aead.antt =====
-- src/aead.cpp and include/phk/battle/aead.hpp: the envelope of a sealed packet in the wire format of
-- protobuf, and its opening. A cursor is the list of the bytes that are left. The calls of
-- OpenSSL's EVP interface are a parameter.
pub mod Termination
pub mod Encoding
pub mod Rounds
pub mod RoundTrip
pub mod Open
mod Tests
use ph_k_battle_server.Base.{
  ℕ, zero, suc, ◌+◌, ◌*◌, ◌/◌, ◌%◌, ◌^◌, ◌≡◌, Bool, true, false, ◌&&◌, List, [], ◌∷◌, Option, none,
  some, ltb, leb, ◌==◌, if◌then◌else◌, length, take, drop, is_empty, Bytes,
}
use ph_k_battle_server.LobbyRng.{hex_text}
use ph_k_battle_server.Protocol.{
  BattlePayloadType, unspecified, handshake_hello, handshake_accept, input, snapshot, event, ping,
  reconnect, result, mode_action, coop_snapshot, unnamed, BattlePacketHeader, BattleEncryptedPacket,
}

pub data EnvelopeStatus : Type 0 where
  ok empty truncated bad_wire_type bad_varint unexpected_field : EnvelopeStatus

-- The ten rounds of `ReadVarint`, with the rounds left, the weight 2 ^ (7 * i) of round i and the
-- value so far. The bits that `|=` adds lie above those of the value, so that it is a sum; the
-- shift drops what does not fit 64 bits.
unfoldable pub varint_loop : ℕ → ℕ → ℕ → Bytes → Option (ℕ × Bytes)
varint_loop zero weight value bytes = none
varint_loop (suc rounds) weight value [] = none
varint_loop (suc rounds) weight value (byte ∷ rest) =
    let value' = value + byte % 128 * weight % 2 ^ 64 in
    let more = varint_loop rounds (weight * 128) value' rest in
    if ltb byte 128 then some (value', rest) else more

unfoldable pub read_varint : Bytes → Option (ℕ × Bytes)
read_varint bytes = varint_loop 10 1 0 bytes

-- `ReadBytes`, after the length.
unfoldable pub take_bytes : ℕ → Bytes → Option (Bytes × Bytes)
take_bytes count rest =
    if leb count (length rest) then some (take count rest, drop count rest) else none

unfoldable pub read_bytes : Bytes → Option (Bytes × Bytes)
read_bytes bytes = elim (read_varint bytes) [
  | none ↦ none
  | some (count, rest) ↦ take_bytes count rest
]

pub record Tag : Type 0 where
  pub field_number : ℕ
  pub wire_type : ℕ
  pub rest : Bytes

-- `ReadTag`. The number of the field is cast to an `int`, which keeps its low 32 bits; it is
-- positive if those are neither 0 nor negative.
unfoldable pub read_tag : Bytes → Option Tag
read_tag bytes = elim (read_varint bytes) [
  | none ↦ none
  | some (packed, rest) ↦
      let field = packed / 8 % 2 ^ 32 in
      if ltb 0 field && ltb field (2 ^ 31)
      then some (record { field_number = field; wire_type = packed % 8; rest = rest })
      else none
]

-- `static_cast<BattlePayloadType>`.
unfoldable pub payload_of_byte : ℕ → BattlePayloadType
payload_of_byte b =
    if b == 0
    then unspecified
    else (if b == 1
        then handshake_hello
        else (if b == 2
            then handshake_accept
            else (if b == 3
                then input
                else (if b == 4
                    then snapshot
                    else (if b == 5
                        then event
                        else (if b == 6
                            then ping
                            else (if b == 7
                                then reconnect
                                else (if b == 8
                                    then result
                                    else (if b == 9
                                        then mode_action
                                        else (if b == 12 then coop_snapshot else unnamed b))))))))))

-- What the rounds of a parser give: a failure, or the message so far and the bytes that are left.
pub data Progress (A : Type 0) : Type 0 where
  failed : EnvelopeStatus → Progress A
  advanced : A → Bytes → Progress A

-- A field that must be delimited by its length.
unfoldable pub delimited : {A : Type 0} → Tag → (Bytes → A) → Progress A
delimited tag set =
    if tag.wire_type == 2
    then elim (read_bytes tag.rest) [
      | none ↦ failed truncated
      | some (raw, rest) ↦ advanced (set raw) rest
    ]
    else failed bad_wire_type

-- A field that must be a varint.
unfoldable pub numeric : {A : Type 0} → Tag → (ℕ → A) → Progress A
numeric tag set =
    if tag.wire_type == 0
    then elim (read_varint tag.rest) [
      | none ↦ failed truncated
      | some (value, rest) ↦ advanced (set value) rest
    ]
    else failed bad_wire_type

-- The loop of a parser, over the bytes that are left. A round takes a byte at least; `none` would
-- be a loop that has used up its rounds.
unfoldable pub parse_loop :
    {A : Type 0} → (A → Tag → Progress A) → ℕ → A → Bytes → Option (EnvelopeStatus × A)
parse_loop field rounds message [] = some (ok, message)
parse_loop field zero message (byte ∷ bytes) = none
parse_loop field (suc rounds) message (byte ∷ bytes) = elim (read_tag (byte ∷ bytes)) [
  | none ↦ some (bad_varint, message)
  | some tag ↦ elim (field message tag) [
    | failed status ↦ some (status, message)
    | advanced message' rest ↦ parse_loop field rounds message' rest
  ]
]

-- One field of `ParseHeader`. The version is skipped.
unfoldable pub header_field : BattlePacketHeader → Tag → Progress BattlePacketHeader
header_field header tag =
    let n = tag.field_number in
    if n == 1
    then delimited tag (λ raw. header)
    else (if n == 2
        then delimited tag (λ raw. record header { match_id = raw })
        else (if n == 3
            then delimited tag (λ raw. record header { player_id = raw })
            else (if n == 4
                then numeric tag (λ value. record header { tick = value })
                else (if n == 5
                    then numeric tag (λ value. record header { seq = value })
                    else (if n == 6
                        then numeric tag (λ value. record header { ack = value })
                        else (if n == 7
                            then numeric tag (λ value. record header {
                              payload_type = payload_of_byte (value % 256);
                            })
                            else (if n == 8
                                then delimited tag (λ raw. record header { key_id = raw })
                                else (if n == 9
                                    then delimited tag
                                        (λ raw. record header { nonce_hex = hex_text raw })
                                    else failed unexpected_field))))))))

unfoldable pub parse_header :
    Bytes → BattlePacketHeader → Option (EnvelopeStatus × BattlePacketHeader)
parse_header bytes header = parse_loop header_field (length bytes) header bytes

abbrev pub is_ok : EnvelopeStatus → Bool
is_ok ok = true
is_ok _ = false

-- The header inside the envelope, whose failure is the envelope's.
unfoldable pub nested_header :
    BattleEncryptedPacket → Bytes → Bytes → Progress BattleEncryptedPacket
nested_header packet raw rest = elim (parse_header raw packet.header) [
  | none ↦ failed bad_varint
  | some (status, header) ↦
      if is_ok status then advanced (record packet { header = header }) rest else failed status
]

-- One field of `ParseEnvelope`.
unfoldable pub envelope_field : BattleEncryptedPacket → Tag → Progress BattleEncryptedPacket
envelope_field packet tag =
    let n = tag.field_number in
    if n == 1
    then (if tag.wire_type == 2
        then elim (read_bytes tag.rest) [
          | none ↦ failed truncated
          | some (raw, rest) ↦ nested_header packet raw rest
        ]
        else failed bad_wire_type)
    else (if n == 2
        then delimited tag (λ raw. record packet { ciphertext = raw })
        else (if n == 3
            then delimited tag (λ raw. record packet { auth_tag = raw })
            else failed unexpected_field))

-- `ParseEnvelope` into a packet with the defaults of the struct.
unfoldable pub parse_envelope :
    BattleEncryptedPacket → Bytes → Option (EnvelopeStatus × BattleEncryptedPacket)
parse_envelope fresh payload =
    if is_empty payload
    then some (empty, fresh)
    else parse_loop envelope_field (length payload) fresh payload
