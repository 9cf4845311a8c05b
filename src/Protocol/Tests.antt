-- ===== src/Protocol/Tests.antt =====
-- Runs of the dispatcher at concrete packets, and the theorems at inputs that meet their premises.
use ph_k_battle_server.Base.{
  ℕ, ◌+◌, ◌≤◌, ◌≡◌, refl, true, false, [], ◌∷◌, some, arith, Bytes, codes, bytes_eq, find, insert,
  member, if◌then◌else◌, ltb, bytes_key,
}
use ph_k_battle_server.Protocol.{
  handshake_hello, ping, VersionStamp, BattlePacketHeader, BattleEncryptedPacket, is_compatible,
}
use ph_k_battle_server.Protocol.Nonce.{dev_aead_nonce_hex, is_hex}
use ph_k_battle_server.Protocol.Json.{
  extract_json_string_field, json_field_value_start, field_value_loop, find_from, find_bytes,
  quoted, value_after_key, skip_spaces, spaces, byte_is, is_top_level_json_object_key,
  json_bool_field_is_true, json_bool_field_is_malformed, word_at, junk_follows,
}
use ph_k_battle_server.Protocol.Json.RoundTrip.{print_field, extract-print_field}
use ph_k_battle_server.Protocol.ModeAction.{
  validate_plaintext_mode_action_payload, looks_like_json_object, action_type_reason,
  client_result_reason, contains_client_authored_authority_field,
}
use ph_k_battle_server.Protocol.Dispatch.{
  BattleDispatcher, empty_dispatcher, dispatch, dispatch_encrypted, dispatch_sealed,
  dispatch_with_payload_validation, header_reason, payload_reason, nonce_reason, order_reason,
  note_packet, response_kind_for, encrypted_kind, has_nonce_key, player_seq_key,
  has_expected_aead_nonce_shape, has_expected_aead_tag_shape, rejected,
}
use ph_k_battle_server.Protocol.Replay.{plain, sealed, step, run, last_tick}
use ph_k_battle_server.Protocol.Traffic.{
  IsAdmissible, accepted_never_replayed, accepted_tick_window,
}
use ph_k_battle_server.Protocol.Sealed.{
  accepted-IsAdmissible, nonce_never_reused, sealed_response_kind, IsWellFormed,
}

abbrev stamp : VersionStamp
stamp = record {
  protocol_version = 1;
  business_api_version = [];
  battle_api_version = codes "0.1.0-draft";
  ruleset_version = [];
}

abbrev hello : ℕ → ℕ → BattlePacketHeader
hello tick seq = record {
  version = stamp;
  match_id = codes "m1";
  player_id = codes "p1";
  tick = tick;
  seq = seq;
  ack = 0;
  payload_type = handshake_hello;
  key_id = [];
  nonce_hex = [];
}

abbrev unsealed_ping : BattlePacketHeader
unsealed_ping = record (hello 12 7) { payload_type = ping; key_id = codes "k1" }

-- The nonce that the header determines.
ping_header : BattlePacketHeader
ping_header = record unsealed_ping { nonce_hex = dev_aead_nonce_hex unsealed_ping }

abbrev tag : Bytes
tag = 0 ∷ 0 ∷ 0 ∷ 0 ∷ 0 ∷ 0 ∷ 0 ∷ 0 ∷ 0 ∷ 0 ∷ 0 ∷ 0 ∷ 0 ∷ 0 ∷ 0 ∷ 0 ∷ []

ping_packet : BattleEncryptedPacket
unfolding ping_header
ping_packet = record { header = ping_header; ciphertext = 1 ∷ []; auth_tag = tag }

known : BattleDispatcher
unfolding step dispatch dispatch_with_payload_validation note_packet
known = (step empty_dispatcher (plain (hello 10 5) [])).0

hello_accepted : (step empty_dispatcher (plain (hello 10 5) [])).1.ok ≡ true
unfolding step dispatch dispatch_with_payload_validation header_reason payload_reason nonce_reason
    order_reason is_compatible bytes_eq find
hello_accepted = refl

ping_accepted : (dispatch_encrypted empty_dispatcher ping_packet).1.ok ≡ true
unfolding dispatch_encrypted dispatch_sealed dispatch_with_payload_validation header_reason
    payload_reason nonce_reason order_reason is_compatible bytes_eq find ping_packet
    dev_aead_nonce_hex is_hex has_expected_aead_tag_shape has_expected_aead_nonce_shape
    has_nonce_key member encrypted_kind response_kind_for
ping_accepted = refl

abbrev after_hello : BattleDispatcher
after_hello = (step empty_dispatcher (plain (hello 10 5) [])).0

accepted_never_replayed_example :
    let d = run after_hello (sealed ping_packet ∷ []) in
    ((step d (plain (hello 11 4) [])).1.ok ≡ false) × ((step d (plain (hello 11 4) [])).0 ≡ d)
unfolding player_seq_key
accepted_never_replayed_example =
    accepted_never_replayed empty_dispatcher (plain (hello 10 5) []) (plain (hello 11 4) [])
      (sealed ping_packet ∷ []) hello_accepted refl (omega arith)

hello_known : find (codes "m1") after_hello.last_tick_by_match ≡ some 10
unfolding step dispatch dispatch_with_payload_validation header_reason payload_reason nonce_reason
    order_reason note_packet is_compatible bytes_eq find insert
hello_known = refl

later_accepted : (step after_hello (plain (hello 610 6) [])).1.ok ≡ true
unfolding step dispatch dispatch_with_payload_validation header_reason payload_reason nonce_reason
    order_reason note_packet is_compatible bytes_eq find insert player_seq_key
later_accepted = refl

-- One tick more is a jump.
jump_refused :
    step after_hello (plain (hello 611 6) []) ≡ (after_hello, rejected handshake_hello "tick_jump")
unfolding step dispatch dispatch_with_payload_validation header_reason payload_reason nonce_reason
    order_reason note_packet is_compatible bytes_eq find insert player_seq_key
jump_refused = refl

accepted_tick_window_example :
    (610 ≤ 10 + 600)
    × (last_tick (step after_hello (plain (hello 610 6) [])).0 (codes "m1")
        ≡ (if ltb 10 610 then 610 else 10))
    × (10 ≤ last_tick (run (step after_hello (plain (hello 610 6) [])).0 []) (codes "m1"))
accepted_tick_window_example =
    accepted_tick_window after_hello (plain (hello 610 6) []) 10 [] hello_known later_accepted

accepted-IsAdmissible_example : IsAdmissible ping_packet.header
accepted-IsAdmissible_example =
    accepted-IsAdmissible empty_dispatcher (sealed ping_packet) (unfold step in ping_accepted)

ping_packet-IsWellFormed : IsWellFormed ping_packet
unfolding ping_packet dev_aead_nonce_hex is_hex has_expected_aead_nonce_shape has_nonce_key
ping_packet-IsWellFormed = record {
  has_text = refl;
  has_tag = refl;
  sealed_type = refl;
  keyed = refl;
}

nonce_never_reused_example :
    let d = run (dispatch_encrypted empty_dispatcher ping_packet).0 [] in
    dispatch_encrypted d ping_packet ≡ (d, rejected ping_packet.header.payload_type "nonce_replay")
nonce_never_reused_example =
    nonce_never_reused empty_dispatcher ping_packet ping_packet [] ping_accepted
      ping_packet-IsWellFormed refl

sealed_response_kind_example :
    (dispatch_encrypted empty_dispatcher ping_packet).1.response_kind ≡ "pong"
unfolding ping_packet
sealed_response_kind_example = sealed_response_kind empty_dispatcher ping_packet ping_accepted

extract-print_field_example :
    extract_json_string_field
      (print_field (codes "action_type") (codes "a\"b"))
      (codes "action_type")
    ≡ codes "a\"b"
extract-print_field_example = extract-print_field (codes "action_type") (codes "a\"b")

-- A mode action that claims authority is refused, in any case of letters.
score_refused :
    validate_plaintext_mode_action_payload (codes "{\"SCORE\":1}")
    ≡ some "mode_action_authority_field_forbidden"
unfolding validate_plaintext_mode_action_payload looks_like_json_object action_type_reason
    client_result_reason contains_client_authored_authority_field json_bool_field_is_true
    json_bool_field_is_malformed json_field_value_start field_value_loop find_from find_bytes quoted
score_refused = refl

-- `client_result_authoritative` is read at the top level, past white space.
client_result_refused :
    validate_plaintext_mode_action_payload (codes " {\"client_result_authoritative\" : true} ")
    ≡ some "mode_action_client_result_forbidden"
unfolding validate_plaintext_mode_action_payload looks_like_json_object action_type_reason
    client_result_reason json_bool_field_is_true json_bool_field_is_malformed json_field_value_start
    field_value_loop find_from find_bytes quoted value_after_key skip_spaces spaces byte_is
    is_top_level_json_object_key word_at junk_follows bytes_eq
client_result_refused = refl
