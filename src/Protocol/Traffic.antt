-- ===== src/Protocol/Traffic.antt =====
-- What holds of the dispatcher of src/protocol.cpp over any traffic.
use ph_k_battle_server.Base.{
  ℕ, ◌+◌, ◌≤◌, ◌<◌, ◌≡◌, Bool, true, false, List, [], ◌∷◌, some, none, arith, ltb, if◌then◌else◌,
  Bytes, bytes_eq_iff, bytes_eq_refl, find, is_empty, bytes_key,
}
use ph_k_battle_server.Protocol.{BattlePacketHeader, is_compatible}
use ph_k_battle_server.Protocol.Nonce.{dev_aead_nonce_hex}
use ph_k_battle_server.Protocol.Dispatch.{
  BattleDispatcher, player_seq_key, requires_encrypted_packet_shape, header_reason, order_reason,
  nonce_reason, is_result, is_unspecified,
}
use ph_k_battle_server.Protocol.Replay.{
  last_seq, last_tick, Packet, header_of, step, run, step_cases, last_seq-step, last_seq-step_mono,
  last_tick-step_mono, last_tick-note_packet,
}

pub last_seq-run_mono :
    (ps : List Packet) (d : BattleDispatcher) (key : Bytes)
    → last_seq d key ≤ last_seq (run d ps) key
unfolding run
last_seq-run_mono [] d key = omega arith
last_seq-run_mono (p ∷ ps) d key =
    omega (arith, last_seq-step_mono d p key, last_seq-run_mono ps (step d p).0 key)

-- Once a packet is accepted, no packet of the same match and player with the same or a lower
-- sequence number is accepted, whatever traffic lies between, in the clear or sealed; and the
-- refused packet changes nothing.
pub accepted_never_replayed :
    (d : BattleDispatcher) (p q : Packet) (between : List Packet)
    → (step d p).1.ok ≡ true
    → player_seq_key (header_of q) ≡ player_seq_key (header_of p)
    → (header_of q).seq ≤ (header_of p).seq
    → ((step (run (step d p).0 between) q).1.ok ≡ false)
      × ((step (run (step d p).0 between) q).0 ≡ run (step d p).0 between)
accepted_never_replayed d p q between accepted same lower = ground (
  arith,
  step_cases (run (step d p).0 between) q,
  last_seq-step d p (player_seq_key (header_of p)),
  bytes_eq_refl (player_seq_key (header_of p)),
  last_seq-run_mono between (step d p).0 (player_seq_key (header_of p)),
)

pub last_tick-run_mono :
    (ps : List Packet) (d : BattleDispatcher) (key : Bytes)
    → last_tick d key ≤ last_tick (run d ps) key
unfolding run
last_tick-run_mono [] d key = omega arith
last_tick-run_mono (p ∷ ps) d key =
    omega (arith, last_tick-step_mono d p key, last_tick-run_mono ps (step d p).0 key)

order_reason-tick :
    (d : BattleDispatcher) (header : BattlePacketHeader) (last : ℕ)
    → find header.match_id d.last_tick_by_match ≡ some last
    → order_reason d header ≡ none
    → header.tick ≤ last + 600
unfolding order_reason
order_reason-tick d header last e h = ground arith

-- In a match that the dispatcher knows, an accepted packet lies at most 600 ticks past the last
-- tick of the match, which becomes the later of the two; no traffic ever lowers it.
pub accepted_tick_window :
    (d : BattleDispatcher) (p : Packet) (last : ℕ) (after : List Packet)
    → find (header_of p).match_id d.last_tick_by_match ≡ some last
    → (step d p).1.ok ≡ true
    → ((header_of p).tick ≤ last + 600)
      × (last_tick (step d p).0 (header_of p).match_id
          ≡ (if ltb last (header_of p).tick then (header_of p).tick else last))
      × (last ≤ last_tick (run (step d p).0 after) (header_of p).match_id)
accepted_tick_window d p last after known accepted = ground (
  arith,
  step_cases d p,
  order_reason-tick d (header_of p) last known,
  last_tick-note_packet d (header_of p) (header_of p).match_id,
  bytes_eq_refl (header_of p).match_id,
  last_tick-run_mono after (step d p).0 (header_of p).match_id,
)

-- The packet's own tests: what every accepted header satisfies.
pub record IsAdmissible (header : BattlePacketHeader) : Type 0 where
  pub compatible : is_compatible header.version ≡ true
  pub match_named : is_empty header.match_id ≡ false
  pub player_named : is_empty header.player_id ≡ false
  pub numbered : 0 < header.seq
  pub no_result : is_result header.payload_type ≡ false
  pub typed : is_unspecified header.payload_type ≡ false
  pub sealed_nonce :
      requires_encrypted_packet_shape header.payload_type ≡ true
      → (is_empty header.key_id ≡ false) × (header.nonce_hex ≡ dev_aead_nonce_hex header)

nonce_reason-nonce :
    (header : BattlePacketHeader)
    → nonce_reason header ≡ none
    → requires_encrypted_packet_shape header.payload_type ≡ true
    → (is_empty header.key_id ≡ false) × (header.nonce_hex ≡ dev_aead_nonce_hex header)
unfolding nonce_reason
nonce_reason-nonce header h sealed_type =
    ground (arith, bytes_eq_iff header.nonce_hex (dev_aead_nonce_hex header))

pub header_reason-IsAdmissible :
    (header : BattlePacketHeader) (payload : Bytes) (flag : Bool)
    → header_reason header payload flag ≡ none
    → IsAdmissible header
unfolding header_reason
header_reason-IsAdmissible header payload flag h = record {
  compatible = ground arith;
  match_named = ground arith;
  player_named = ground arith;
  numbered = ground arith;
  no_result = ground arith;
  typed = ground arith;
  sealed_nonce = λ t. nonce_reason-nonce header (ground arith) t;
}
