-- ===== src/Protocol/Dispatch.antt =====
-- `BattleDispatcher` of include/phk/battle/protocol.hpp and src/protocol.cpp.
use Prim.Native.String.{String}
use text.Mathlib.Text.{◌==◌ as str_eq}
use ph_k_battle_server.Base.{
  ℕ, ◌-◌, Bool, true, false, ◌&&◌, ◌||◌, not, List, [], ◌∷◌, ◌++◌, Option, none, some, ltb, leb,
  ◌==◌, if◌then◌else◌, length, Bytes, bytes_eq, is_empty, Map, bytes_key, find, insert, member,
  include,
}
use ph_k_battle_server.Protocol.{
  BattlePayloadType, unspecified, handshake_hello, handshake_accept, input, snapshot, event, ping,
  reconnect, result, mode_action, is_compatible, BattlePacketHeader, BattleEncryptedPacket,
  DispatchResult,
}
use ph_k_battle_server.Protocol.Nonce.{is_hex, dev_aead_nonce_hex}
use ph_k_battle_server.Protocol.ModeAction.{validate_plaintext_mode_action_payload}

pub record BattleDispatcher : Type 0 where
  pub last_seq_by_player : Map Bytes ℕ
  pub last_tick_by_match : Map Bytes ℕ
  pub seen_encrypted_nonces : List Bytes

abbrev pub empty_dispatcher : BattleDispatcher
empty_dispatcher = record {
  last_seq_by_player = [];
  last_tick_by_match = [];
  seen_encrypted_nonces = [];
}

unfoldable pub player_seq_key : BattlePacketHeader → Bytes
player_seq_key header = header.match_id ++ (b':' ∷ header.player_id)

unfoldable pub nonce_replay_key : BattlePacketHeader → Bytes
nonce_replay_key header =
    header.match_id
    ++ (b':' ∷ (header.player_id ++ (b':' ∷ (header.key_id ++ (b':' ∷ header.nonce_hex)))))

abbrev pub requires_encrypted_packet_shape : BattlePayloadType → Bool
requires_encrypted_packet_shape input = true
requires_encrypted_packet_shape mode_action = true
requires_encrypted_packet_shape ping = true
requires_encrypted_packet_shape reconnect = true
requires_encrypted_packet_shape _ = false

abbrev pub is_mode_action : BattlePayloadType → Bool
is_mode_action mode_action = true
is_mode_action _ = false

abbrev pub is_input : BattlePayloadType → Bool
is_input input = true
is_input _ = false

abbrev pub is_result : BattlePayloadType → Bool
is_result result = true
is_result _ = false

abbrev pub is_unspecified : BattlePayloadType → Bool
is_unspecified unspecified = true
is_unspecified _ = false

unfoldable pub has_expected_aead_tag_shape : Bytes → Bool
has_expected_aead_tag_shape auth_tag = length auth_tag == 16

unfoldable pub has_expected_aead_nonce_shape : Bytes → Bool
has_expected_aead_nonce_shape nonce_hex = (length nonce_hex == 24) && is_hex nonce_hex

unfoldable pub payload_type_name : BattlePayloadType → String
payload_type_name handshake_hello = "handshake_hello"
payload_type_name handshake_accept = "handshake_accept"
payload_type_name input = "input"
payload_type_name snapshot = "snapshot"
payload_type_name event = "event"
payload_type_name ping = "ping"
payload_type_name reconnect = "reconnect"
payload_type_name result = "result"
payload_type_name mode_action = "mode_action"
payload_type_name _ = "unspecified"

-- The tests on the header's nonce, for the types that travel encrypted.
unfoldable pub nonce_reason : BattlePacketHeader → Option String
unfolding has_expected_aead_nonce_shape
nonce_reason header =
    if requires_encrypted_packet_shape header.payload_type
    then (if is_empty header.key_id
        then some "key_id_missing"
        else (if not (has_expected_aead_nonce_shape header.nonce_hex)
            then some "nonce_invalid"
            else (if not (bytes_eq header.nonce_hex (dev_aead_nonce_hex header))
                then some "nonce_mismatch"
                else none)))
    else none

-- The validation of a plaintext mode action, where it is asked for.
unfoldable pub payload_reason : BattlePacketHeader → Bytes → Bool → Option String
payload_reason header plaintext_payload validate_plaintext_mode_action =
    if validate_plaintext_mode_action && is_mode_action header.payload_type
    then validate_plaintext_mode_action_payload plaintext_payload
    else none

-- The tests that read no state, in their order.
unfoldable pub header_reason : BattlePacketHeader → Bytes → Bool → Option String
header_reason header plaintext_payload validate_plaintext_mode_action =
    if not (is_compatible header.version)
    then some "version_incompatible"
    else (if is_empty header.match_id || is_empty header.player_id
        then some "identity_missing"
        else (if header.seq == 0
            then some "seq_missing"
            else (if is_result header.payload_type
                then some "client_result_forbidden"
                else (if is_unspecified header.payload_type
                    then some "payload_type_missing"
                    else elim (payload_reason header plaintext_payload
                        validate_plaintext_mode_action) [
                          | some reason ↦ some reason
                          | none ↦ nonce_reason header
                        ]))))

-- The tests against the last sequence number of the player and the last tick of the match.
unfoldable pub order_reason : BattleDispatcher → BattlePacketHeader → Option String
order_reason d header =
    if elim (find (player_seq_key header) d.last_seq_by_player) [
      | none ↦ false
      | some last ↦ leb header.seq last
    ]
    then some "seq_replay"
    else (if elim (find header.match_id d.last_tick_by_match) [
      | none ↦ false
      | some last ↦ ltb last header.tick && ltb 600 (header.tick - last)
    ]
        then some "tick_jump"
        else none)

-- The two writes of an accepted packet. `last_tick_by_match_[id]` makes an absent entry 0.
unfoldable pub note_packet : BattleDispatcher → BattlePacketHeader → BattleDispatcher
note_packet d header =
    let match_tick : ℕ = elim (find header.match_id d.last_tick_by_match) [
      | none ↦ 0
      | some last ↦ last
    ] in
    record d {
      last_seq_by_player = insert (player_seq_key header) header.seq d.last_seq_by_player;
      last_tick_by_match =
          insert header.match_id (if ltb match_tick header.tick then header.tick else match_tick)
            d.last_tick_by_match;
    }

unfoldable pub response_kind_for : BattlePayloadType → Bytes → String
unfolding payload_type_name
response_kind_for ping plaintext_payload = "pong"
response_kind_for payload_type plaintext_payload =
    if is_empty plaintext_payload && is_input payload_type
    then "input_empty_payload"
    else (if is_empty plaintext_payload && is_mode_action payload_type
        then "mode_action_empty_payload"
        else payload_type_name payload_type)

abbrev pub rejected : BattlePayloadType → String → DispatchResult
rejected payload_type reason = record {
  ok = false;
  reason = reason;
  payload_type = payload_type;
  response_kind = "";
}

unfoldable pub dispatch_with_payload_validation :
    BattleDispatcher → BattlePacketHeader → Bytes → Bool → BattleDispatcher × DispatchResult
dispatch_with_payload_validation d header plaintext_payload validate_plaintext_mode_action =
    elim (header_reason header plaintext_payload validate_plaintext_mode_action) [
      | some reason ↦ (d, rejected header.payload_type reason)
      | none ↦ elim (order_reason d header) [
        | some reason ↦ (d, rejected header.payload_type reason)
        | none ↦ (
          note_packet d header,
          record {
            ok = true;
            reason = "ok";
            payload_type = header.payload_type;
            response_kind = response_kind_for header.payload_type plaintext_payload;
          },
        )
      ]
    ]

unfoldable pub dispatch :
    BattleDispatcher → BattlePacketHeader → Bytes → BattleDispatcher × DispatchResult
unfolding dispatch_with_payload_validation
dispatch d header plaintext_payload =
    dispatch_with_payload_validation d header plaintext_payload true

-- The names of an empty payload become those of an encrypted one.
unfoldable pub encrypted_kind : DispatchResult → DispatchResult
encrypted_kind r =
    if str_eq r.response_kind "input_empty_payload"
    then record r { response_kind = "input_encrypted" }
    else (if str_eq r.response_kind "mode_action_empty_payload"
        then record r { response_kind = "mode_action_encrypted" }
        else r)

-- The header has all parts of a nonce key.
unfoldable pub has_nonce_key : BattlePacketHeader → Bool
has_nonce_key header =
    not (is_empty header.match_id)
    && (not (is_empty header.player_id)
        && (not (is_empty header.key_id) && has_expected_aead_nonce_shape header.nonce_hex))

-- The part of `DispatchEncrypted` behind the tests of the packet's shape.
unfoldable pub dispatch_sealed :
    BattleDispatcher → BattleEncryptedPacket → BattleDispatcher × DispatchResult
dispatch_sealed d packet =
    let (d', dispatched) =
      dispatch_with_payload_validation d packet.header packet.ciphertext false in
    if has_nonce_key packet.header
    then (if member (nonce_replay_key packet.header) d.seen_encrypted_nonces
        then (d, rejected packet.header.payload_type "nonce_replay")
        else (if dispatched.ok
            then (
              record d' {
                seen_encrypted_nonces =
                    include (nonce_replay_key packet.header) d'.seen_encrypted_nonces;
              },
              encrypted_kind dispatched,
            )
            else (d', dispatched)))
    else (d', if dispatched.ok then encrypted_kind dispatched else dispatched)

unfoldable pub dispatch_encrypted :
    BattleDispatcher → BattleEncryptedPacket → BattleDispatcher × DispatchResult
dispatch_encrypted d packet =
    if is_empty packet.ciphertext
    then (d, rejected packet.header.payload_type "ciphertext_missing")
    else (if not (has_expected_aead_tag_shape packet.auth_tag)
        then (d, rejected packet.header.payload_type "auth_tag_invalid")
        else (if not (requires_encrypted_packet_shape packet.header.payload_type)
            then (
              d,
              rejected packet.header.payload_type (
                  if is_result packet.header.payload_type
                  then "client_result_forbidden"
                  else "encrypted_payload_type_invalid"),
            )
            else dispatch_sealed d packet))
