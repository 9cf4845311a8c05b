-- ===== src/Protocol/Replay.antt =====
-- Sequence numbers, ticks and nonces over any traffic (src/protocol.cpp, `BattleDispatcher`).
use ph_k_battle_server.Base.{
  ℕ, ◌≤◌, ◌<◌, ◌≡◌, ◌&&◌, ◌⊎◌, Bool, true, false, List, [], ◌∷◌, Option, none, some, arith, ltb,
  if◌then◌else◌, Bytes, bytes_eq, bytes_eq_iff, bytes_key, find, find-insert, Option-cases,
}
use ph_k_battle_server.Protocol.{BattlePacketHeader, BattleEncryptedPacket, DispatchResult}
use ph_k_battle_server.Protocol.Dispatch.{
  BattleDispatcher, player_seq_key, header_reason, order_reason, note_packet,
  dispatch_with_payload_validation, dispatch, dispatch, encrypted_kind, dispatch_sealed,
  dispatch_encrypted,
}

-- A missing entry reads as 0, which no accepted packet has for its sequence number.
abbrev pub number_at : Option ℕ → ℕ
number_at none = 0
number_at (some n) = n

abbrev pub last_seq : BattleDispatcher → Bytes → ℕ
last_seq d key = number_at (find key d.last_seq_by_player)

abbrev pub last_tick : BattleDispatcher → Bytes → ℕ
last_tick d match_id = number_at (find match_id d.last_tick_by_match)

header_reason-seq :
    (header : BattlePacketHeader) (payload : Bytes) (flag : Bool)
    → header_reason header payload flag ≡ none
    → 0 < header.seq
unfolding header_reason
header_reason-seq header payload flag h = ground arith

order_reason-seq :
    (d : BattleDispatcher) (header : BattlePacketHeader)
    → order_reason d header ≡ none
    → 0 < header.seq
    → last_seq d (player_seq_key header) < header.seq
unfolding order_reason
order_reason-seq d header h pos =
    ground (arith, Option-cases (find (player_seq_key header) d.last_seq_by_player))

-- An accepted packet raises the last sequence number of its player, and of no other.
pub accepted_cases :
    (d : BattleDispatcher) (header : BattlePacketHeader) (payload : Bytes) (flag : Bool)
    → let (d', r) = dispatch_with_payload_validation d header payload flag in
      ((r.ok ≡ false) × (d' ≡ d))
      ⊎ ((r.ok ≡ true)
          × (d' ≡ note_packet d header)
          × (header_reason header payload flag ≡ none)
          × (order_reason d header ≡ none))
unfolding dispatch_with_payload_validation
accepted_cases d header payload flag = ground arith

pub rejected_unchanged :
    (d : BattleDispatcher) (header : BattlePacketHeader) (payload : Bytes) (flag : Bool)
    → (dispatch_with_payload_validation d header payload flag).1.ok ≡ false
    → (dispatch_with_payload_validation d header payload flag).0 ≡ d
unfolding dispatch_with_payload_validation
rejected_unchanged d header payload flag h = ground arith

accepted_seq :
    (d : BattleDispatcher) (header : BattlePacketHeader) (payload : Bytes) (flag : Bool)
    → (dispatch_with_payload_validation d header payload flag).1.ok ≡ true
    → last_seq d (player_seq_key header) < header.seq
accepted_seq d header payload flag h = ground (
  arith,
  accepted_cases d header payload flag,
  header_reason-seq header payload flag,
  order_reason-seq d header,
)

last_seq-note_packet :
    (d : BattleDispatcher) (header : BattlePacketHeader) (key : Bytes)
    → last_seq (note_packet d header) key
      ≡ (if bytes_eq (player_seq_key header) key then header.seq else last_seq d key)
unfolding note_packet
last_seq-note_packet d header key =
    ground (arith, find-insert (player_seq_key header) key header.seq d.last_seq_by_player)

pub last_tick-note_packet :
    (d : BattleDispatcher) (header : BattlePacketHeader) (key : Bytes)
    → last_tick (note_packet d header) key ≡ (
        if bytes_eq header.match_id key
        then (if ltb (last_tick d key) header.tick then header.tick else last_tick d key)
        else last_tick d key)
unfolding note_packet
last_tick-note_packet d header key = ground (
  arith,
  bytes_eq_iff header.match_id key,
  find-insert header.match_id key
      (if ltb (last_tick d header.match_id) header.tick
        then header.tick
        else last_tick d header.match_id)
      d.last_tick_by_match,
)

-- A packet as the server hands it to the dispatcher: in the clear, or sealed.
pub data Packet : Type 0 where
  plain : BattlePacketHeader → Bytes → Packet
  sealed : BattleEncryptedPacket → Packet

abbrev pub header_of : Packet → BattlePacketHeader
header_of (plain header payload) = header
header_of (sealed packet) = packet.header

unfoldable pub step : BattleDispatcher → Packet → BattleDispatcher × DispatchResult
step d (plain header payload) = dispatch d header payload
step d (sealed packet) = dispatch_encrypted d packet

unfoldable pub run : BattleDispatcher → List Packet → BattleDispatcher
run d [] = d
run d (p ∷ ps) = run (step d p).0 ps

pub encrypted_kind-ok : (r : DispatchResult) → (encrypted_kind r).ok ≡ r.ok
unfolding encrypted_kind
encrypted_kind-ok r = ground arith

-- A sealed packet goes through the plain path, and changes the maps just as that does.
pub dispatch_sealed_cases :
    (d : BattleDispatcher) (packet : BattleEncryptedPacket)
    → let (d', r) = dispatch_sealed d packet in
      let (d'', r') = dispatch_with_payload_validation d packet.header packet.ciphertext false in
      ((r.ok ≡ false) × (d' ≡ d))
      ⊎ ((r.ok ≡ true)
          × (r'.ok ≡ true)
          × (d'.last_seq_by_player ≡ d''.last_seq_by_player)
          × (d'.last_tick_by_match ≡ d''.last_tick_by_match))
unfolding dispatch_sealed
dispatch_sealed_cases d packet = ground (
  arith,
  rejected_unchanged d packet.header packet.ciphertext false,
  encrypted_kind-ok (dispatch_with_payload_validation d packet.header packet.ciphertext false).1,
)

pub dispatch_encrypted_cases :
    (d : BattleDispatcher) (packet : BattleEncryptedPacket)
    → ((dispatch_encrypted d packet).0 ≡ d) × ((dispatch_encrypted d packet).1.ok ≡ false)
      ⊎ (dispatch_encrypted d packet ≡ dispatch_sealed d packet)
unfolding dispatch_encrypted
dispatch_encrypted_cases d packet = ground arith

-- Every step leaves the maps alone, or is an accepted packet that writes them by `note_packet`.
pub step_cases :
    (d : BattleDispatcher) (p : Packet)
    → let (d', r) = step d p in
      ((r.ok ≡ false) × (d' ≡ d))
      ⊎ ((r.ok ≡ true)
          × (last_seq d (player_seq_key (header_of p)) < (header_of p).seq)
          × (order_reason d (header_of p) ≡ none)
          × (d'.last_seq_by_player ≡ (note_packet d (header_of p)).last_seq_by_player)
          × (d'.last_tick_by_match ≡ (note_packet d (header_of p)).last_tick_by_match))
unfolding step dispatch
step_cases d (plain header payload) =
    ground (arith, accepted_cases d header payload true, accepted_seq d header payload true)
step_cases d (sealed packet) = ground (
  arith,
  dispatch_encrypted_cases d packet,
  dispatch_sealed_cases d packet,
  accepted_cases d packet.header packet.ciphertext false,
  accepted_seq d packet.header packet.ciphertext false,
)

pub last_seq-step :
    (d : BattleDispatcher) (p : Packet) (key : Bytes)
    → last_seq (step d p).0 key ≡ (
        if (step d p).1.ok && bytes_eq (player_seq_key (header_of p)) key
        then (header_of p).seq
        else last_seq d key)
last_seq-step d p key = ground (arith, step_cases d p, last_seq-note_packet d (header_of p) key)

pub last_seq-step_mono :
    (d : BattleDispatcher) (p : Packet) (key : Bytes) → last_seq d key ≤ last_seq (step d p).0 key
last_seq-step_mono d p key =
    ground (
      arith,
      step_cases d p,
      last_seq-step d p key,
      bytes_eq_iff (player_seq_key (header_of p)) key,
    )

pub last_tick-step_mono :
    (d : BattleDispatcher) (p : Packet) (key : Bytes) → last_tick d key ≤ last_tick (step d p).0 key
last_tick-step_mono d p key =
    ground (arith, step_cases d p, last_tick-note_packet d (header_of p) key)
