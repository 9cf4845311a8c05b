-- ===== src/Protocol/Sealed.antt =====
-- `DispatchEncrypted` of src/protocol.cpp: admission, the nonces that it remembers, and the names
-- of its responses.
use Prim.Native.String.{String}
use ph_k_battle_server.Base.{
  ◌≡◌, refl, inl, inr, Bool, true, false, List, [], ◌∷◌, arith, Bytes, bytes_eq_refl, member,
  include, member-include, is_empty, bytes_key, length,
}
use ph_k_battle_server.Protocol.{
  BattlePacketHeader, BattleEncryptedPacket, BattlePayloadType, DispatchResult, ping,
}
use ph_k_battle_server.Protocol.Nonce.{dev_aead_nonce_hex_shape}
use ph_k_battle_server.Protocol.Dispatch.{
  BattleDispatcher, nonce_replay_key, requires_encrypted_packet_shape,
  has_expected_aead_nonce_shape, has_expected_aead_tag_shape, note_packet, rejected,
  dispatch_with_payload_validation, dispatch, dispatch_sealed, encrypted_kind, has_nonce_key,
  dispatch_encrypted, response_kind_for, payload_type_name,
}
use ph_k_battle_server.Protocol.Replay.{
  Packet, plain, sealed, header_of, step, run, accepted_cases, dispatch_sealed_cases,
  dispatch_encrypted_cases, encrypted_kind-ok,
}
use ph_k_battle_server.Protocol.Traffic.{IsAdmissible, header_reason-IsAdmissible}

abbrev plain_next : BattleDispatcher → BattleEncryptedPacket → BattleDispatcher
plain_next d packet = (dispatch_with_payload_validation d packet.header packet.ciphertext false).0

plain_IsAdmissible :
    (d : BattleDispatcher) (header : BattlePacketHeader) (payload : Bytes) (flag : Bool)
    → (dispatch_with_payload_validation d header payload flag).1.ok ≡ true
    → IsAdmissible header
plain_IsAdmissible d header payload flag h = elim (accepted_cases d header payload flag) [
  | inl (e, _) ↦ cc
  | inr (_, _, e, _) ↦ header_reason-IsAdmissible header payload flag e
]

-- Whatever way a packet comes, it is accepted only if its version is compatible, its match,
-- player and sequence number are given, it is no result and no untyped packet, and a packet of a
-- type that travels encrypted names a key and carries the nonce that its own header determines.
pub accepted-IsAdmissible :
    (d : BattleDispatcher) (p : Packet) → (step d p).1.ok ≡ true → IsAdmissible (header_of p)
unfolding step dispatch
accepted-IsAdmissible d (plain header payload) h = plain_IsAdmissible d header payload true h
accepted-IsAdmissible d (sealed packet) h =
    plain_IsAdmissible d packet.header packet.ciphertext false
      (ground (arith, dispatch_encrypted_cases d packet, dispatch_sealed_cases d packet))

-- A header that passes has all parts of a nonce key.
admissible-nonce_key :
    (header : BattlePacketHeader)
    → IsAdmissible header
    → requires_encrypted_packet_shape header.payload_type ≡ true
    → has_nonce_key header ≡ true
unfolding has_nonce_key has_expected_aead_nonce_shape
admissible-nonce_key header a t =
    let (keyed, same) = a.sealed_nonce t in
    rw (a.match_named, a.player_named, keyed, same)
      (ground (arith, dev_aead_nonce_hex_shape header))

note_packet-seen :
    (d : BattleDispatcher) (header : BattlePacketHeader) (payload : Bytes) (flag : Bool)
    → (dispatch_with_payload_validation d header payload flag).0.seen_encrypted_nonces
      ≡ d.seen_encrypted_nonces
unfolding dispatch_with_payload_validation note_packet
note_packet-seen d header payload flag = ground arith

member-include_self : (key : Bytes) (s : List Bytes) → member key (include key s) ≡ true
member-include_self key s = ground (arith, member-include key key s, bytes_eq_refl key)

-- An accepted sealed packet had a nonce not seen before, which is now remembered.
accepted_nonce :
    (d : BattleDispatcher) (packet : BattleEncryptedPacket)
    → (dispatch_encrypted d packet).1.ok ≡ true
    → (has_nonce_key packet.header ≡ true)
      × (member (nonce_replay_key packet.header) d.seen_encrypted_nonces ≡ false)
      × (member
            (nonce_replay_key packet.header)
            (dispatch_encrypted d packet).0.seen_encrypted_nonces
          ≡ true)
unfolding dispatch_encrypted dispatch_sealed step
accepted_nonce d packet h = ground (
  arith,
  accepted-IsAdmissible d (sealed packet) h,
  admissible-nonce_key packet.header (accepted-IsAdmissible d (sealed packet) h),
  member-include_self (nonce_replay_key packet.header) (plain_next d packet).seen_encrypted_nonces,
)

dispatch_sealed-seen_mono :
    (d : BattleDispatcher) (packet : BattleEncryptedPacket) (key : Bytes)
    → member key d.seen_encrypted_nonces ≡ true
    → member key (dispatch_sealed d packet).0.seen_encrypted_nonces ≡ true
unfolding dispatch_sealed
dispatch_sealed-seen_mono d packet key h = ground (
  arith,
  note_packet-seen d packet.header packet.ciphertext false,
  member-include (nonce_replay_key packet.header) key (plain_next d packet).seen_encrypted_nonces,
)

seen-step_mono :
    (d : BattleDispatcher) (p : Packet) (key : Bytes)
    → member key d.seen_encrypted_nonces ≡ true
    → member key (step d p).0.seen_encrypted_nonces ≡ true
unfolding step dispatch
seen-step_mono d (plain header payload) key h =
    ground (arith, note_packet-seen d header payload true)
seen-step_mono d (sealed packet) key h =
    ground (arith, dispatch_encrypted_cases d packet, dispatch_sealed-seen_mono d packet key)

seen-run_mono :
    (ps : List Packet) (d : BattleDispatcher) (key : Bytes)
    → member key d.seen_encrypted_nonces ≡ true
    → member key (run d ps).seen_encrypted_nonces ≡ true
unfolding run
seen-run_mono [] d key h = h
seen-run_mono (p ∷ ps) d key h = seen-run_mono ps (step d p).0 key (seen-step_mono d p key h)

-- A sealed packet is well formed: what `DispatchEncrypted` tests before it looks at the nonces.
pub record IsWellFormed (packet : BattleEncryptedPacket) : Type 0 where
  pub has_text : is_empty packet.ciphertext ≡ false
  pub has_tag : length packet.auth_tag ≡ 16
  pub sealed_type : requires_encrypted_packet_shape packet.header.payload_type ≡ true
  pub keyed : has_nonce_key packet.header ≡ true

refused_if_seen :
    (d : BattleDispatcher) (packet : BattleEncryptedPacket)
    → IsWellFormed packet
    → member (nonce_replay_key packet.header) d.seen_encrypted_nonces ≡ true
    → dispatch_encrypted d packet ≡ (d, rejected packet.header.payload_type "nonce_replay")
unfolding dispatch_encrypted dispatch_sealed has_expected_aead_tag_shape
refused_if_seen d packet w h = ground arith

-- After a sealed packet is accepted, every well-formed packet that carries the same nonce for the
-- same match, player and key is refused as `nonce_replay` and changes nothing, whatever traffic
-- lies between and whatever its sequence number is.
pub nonce_never_reused :
    (d : BattleDispatcher) (p q : BattleEncryptedPacket) (between : List Packet)
    → (dispatch_encrypted d p).1.ok ≡ true
    → IsWellFormed q
    → nonce_replay_key q.header ≡ nonce_replay_key p.header
    → let d' = run (dispatch_encrypted d p).0 between in
      dispatch_encrypted d' q ≡ (d', rejected q.header.payload_type "nonce_replay")
nonce_never_reused d p q between accepted formed same =
    refused_if_seen (run (dispatch_encrypted d p).0 between) q formed (
      rw same (
        seen-run_mono between (dispatch_encrypted d p).0 (nonce_replay_key p.header)
          (accepted_nonce d p accepted).2))

abbrev pub sealed_kind : BattlePayloadType → String
sealed_kind ping = "pong"
sealed_kind payload_type = payload_type_name payload_type

nonempty_kind :
    (t : BattlePayloadType) (text : Bytes)
    → is_empty text ≡ false
    → response_kind_for t text ≡ sealed_kind t
unfolding response_kind_for
nonempty_kind ping text h = refl
nonempty_kind t text h = rw h

encrypted_kind-kept :
    (t : BattlePayloadType) (r : DispatchResult)
    → r.response_kind ≡ sealed_kind t
    → (encrypted_kind r).response_kind ≡ sealed_kind t
unfolding encrypted_kind payload_type_name
encrypted_kind-kept ping r h = rw (h, encrypted_kind)
encrypted_kind-kept _ r h = rw (h, encrypted_kind)

plain_kind :
    (d : BattleDispatcher) (packet : BattleEncryptedPacket)
    → is_empty packet.ciphertext ≡ false
    → (dispatch_with_payload_validation d packet.header packet.ciphertext false).1.ok ≡ true
    → (dispatch_with_payload_validation d packet.header packet.ciphertext false).1.response_kind
      ≡ sealed_kind packet.header.payload_type
unfolding dispatch_with_payload_validation
plain_kind d packet text h =
    ground (arith, nonempty_kind packet.header.payload_type packet.ciphertext text)

-- The response of an accepted sealed packet is named `pong` or after its type: the names
-- `input_encrypted` and `mode_action_encrypted` are never given.
pub sealed_response_kind :
    (d : BattleDispatcher) (packet : BattleEncryptedPacket)
    → (dispatch_encrypted d packet).1.ok ≡ true
    → (dispatch_encrypted d packet).1.response_kind ≡ sealed_kind packet.header.payload_type
unfolding dispatch_encrypted dispatch_sealed
sealed_response_kind d packet h = ground (
  arith,
  plain_kind d packet,
  encrypted_kind-ok (dispatch_with_payload_validation d packet.header packet.ciphertext false).1,
  encrypted_kind-kept packet.header.payload_type
      (dispatch_with_payload_validation d packet.header packet.ciphertext false).1,
)
