-- ===== src/Dem/Recorder.antt =====
-- `DemRecorder` of src/dem.cpp: the operations of a match with their payloads, and the file they become.
use ph_k_battle_server.Base.{
  ℕ, ◌≡◌, refl, Bool, true, false, ◌||◌, not, List, [], ◌∷◌, ◌++◌, Option, none, some, arith,
  if◌then◌else◌, length, length-append, is_empty, Map, find, insert, Bytes, codes, bytes_eq_refl,
  bytes_key, if_both,
}
use ph_k_battle_server.Base.Int.{ℤ, pos}
use ph_k_battle_server.Coop.{BattleInput}
use ph_k_battle_server.Protocol.{VersionStamp}
use ph_k_battle_server.ChainLog.{
  ChainEntry, chain_payload_digest, canonical_chain_input_payload,
  canonical_chain_mode_action_payload, canonical_chain_seed_payload, new_entry, append_entry,
  append_match_seed, seed_kind_battle_derived, append_input, append_mode_action, head_digest,
}
use ph_k_battle_server.ChainLog.Laws.{IsChained, verify_chain_iff}
use ph_k_battle_server.ChainLog.Appends.{append_entry-IsChained}
use ph_k_battle_server.Dem.{DemHeader, DemBodyEntry, of_u64, encode_dem_body}
use ph_k_battle_server.Dem.Container.{
  Zlib, DemWriteResult, dem_zlib_compress, digests_match, body_entries, write_body, write_entries,
  write_bodies, write_dem_document,
}

-- `BattleModeAction` of include/phk/battle/protocol.hpp.
pub record BattleModeAction : Type 0 where
  pub version : VersionStamp
  pub match_id : Bytes
  pub player_id : Bytes
  pub tick : ℕ
  pub seq : ℕ
  pub action_id : Bytes
  pub action_type : Bytes
  pub payload_json : Bytes
  pub client_result_authoritative : Bool

pub record DemRecorder : Type 0 where
  pub chain : List ChainEntry
  pub payloads : List Bytes
  pub user_ids : Map Bytes Bytes

abbrev pub empty_recorder : DemRecorder
empty_recorder = record { chain = []; payloads = []; user_ids = [] }

unfoldable pub record_match_seed : DemRecorder → ℕ → DemRecorder
record_match_seed r seed = if not (is_empty r.chain) then r else record r {
  chain = append_match_seed r.chain (pos 0) seed_kind_battle_derived seed;
  payloads = r.payloads ++ canonical_chain_seed_payload seed_kind_battle_derived seed ∷ [];
}

unfoldable pub record_input : DemRecorder → BattleInput → DemRecorder
record_input r i = record r {
  chain =
      append_input r.chain (of_u64 i.tick) i.player_id i.seq i.direction_bits i.slow i.shoot i.bomb
        i.card_slot i.mode_action_id;
  payloads =
      r.payloads
      ++ canonical_chain_input_payload i.seq i.direction_bits i.slow i.shoot i.bomb i.card_slot
          i.mode_action_id
        ∷ [];
}

unfoldable pub record_mode_action : DemRecorder → BattleModeAction → DemRecorder
record_mode_action r a = record r {
  chain =
      append_mode_action r.chain (of_u64 a.tick) a.player_id a.action_id a.seq a.action_type
        a.payload_json;
  payloads =
      r.payloads ++ canonical_chain_mode_action_payload a.action_id a.seq a.payload_json ∷ [];
}

abbrev has_user_id : Option Bytes → Bool
has_user_id none = false
has_user_id (some user_id) = not (is_empty user_id)

unfoldable pub note_user_id : DemRecorder → Bytes → Bytes → DemRecorder
note_user_id r player_id user_id =
    if is_empty user_id || has_user_id (find player_id r.user_ids)
    then r
    else record r { user_ids = insert player_id user_id r.user_ids }

unfoldable pub finalize : Zlib → DemRecorder → DemHeader → DemWriteResult
finalize z r header = write_dem_document z header r.chain r.payloads

-- The calls of the recorder.
pub data Recording : Type 0 where
  seed_of : ℕ → Recording
  input_of : BattleInput → Recording
  action_of : BattleModeAction → Recording
  user_of : Bytes → Bytes → Recording

abbrev pub step : DemRecorder → Recording → DemRecorder
step r (seed_of seed) = record_match_seed r seed
step r (input_of i) = record_input r i
step r (action_of a) = record_mode_action r a
step r (user_of player_id user_id) = note_user_id r player_id user_id

abbrev pub run : DemRecorder → List Recording → DemRecorder
run r [] = r
run r (call ∷ calls) = run (step r call) calls

-- The chain is one, and has a payload with the right digest for each entry.
record IsPaired (r : DemRecorder) : Type 0 where
  chained : IsChained none r.chain
  paired : length r.chain ≡ length r.payloads
  matched : digests_match r.chain r.payloads ≡ true

digests_match-append :
    (entries : List ChainEntry) (payloads : List Bytes) (entry : ChainEntry) (payload : Bytes)
    → length entries ≡ length payloads
    → digests_match entries payloads ≡ true
    → entry.payload_digest ≡ chain_payload_digest payload
    → digests_match (entries ++ entry ∷ []) (payloads ++ payload ∷ []) ≡ true
unfolding digests_match
digests_match-append [] [] entry payload l d e =
    ground (arith, e, bytes_eq_refl (chain_payload_digest payload))
digests_match-append [] (p ∷ payloads) entry payload l d e = absurd (omega arith)
digests_match-append (x ∷ entries) [] entry payload l d e = absurd (omega arith)
digests_match-append (x ∷ entries) (p ∷ payloads) entry payload l d e =
    ground (arith, d, digests_match-append entries payloads entry payload (omega arith), e)

append-IsPaired :
    (r : DemRecorder) (tick : ℤ) (player_id action_type payload : Bytes)
    → IsPaired r
    → IsPaired (record r {
      chain = append_entry r.chain tick player_id action_type (chain_payload_digest payload);
      payloads = r.payloads ++ payload ∷ [];
    })
unfolding append_entry new_entry
append-IsPaired r tick player_id action_type payload h =
    let digest = chain_payload_digest payload in
    let entry = new_entry r.chain tick player_id action_type digest in
    record {
      chained = append_entry-IsChained r.chain tick player_id action_type digest h.chained;
      paired = omega (
        arith,
        h.paired,
        length-append r.chain (entry ∷ []),
        length-append r.payloads (payload ∷ []),
      );
      matched = digests_match-append r.chain r.payloads entry payload h.paired h.matched refl;
    }

step-IsPaired : (r : DemRecorder) (call : Recording) → IsPaired r → IsPaired (step r call)
unfolding record_match_seed record_input record_mode_action note_user_id append_match_seed
    append_input append_mode_action
step-IsPaired r (seed_of seed) h =
    if_both IsPaired (not (is_empty r.chain)) (λ _. h)
      (λ _.
        append-IsPaired r (pos 0) [] (codes "match_seed")
          (canonical_chain_seed_payload seed_kind_battle_derived seed) h)
step-IsPaired r (input_of i) h = append-IsPaired r (of_u64 i.tick) i.player_id (codes "input") _ h
step-IsPaired r (action_of a) h = append-IsPaired r (of_u64 a.tick) a.player_id a.action_type _ h
step-IsPaired r (user_of player_id user_id) h =
    if_both IsPaired (is_empty user_id || has_user_id (find player_id r.user_ids)) (λ _. h)
      (λ _. record { chained = h.chained; paired = h.paired; matched = h.matched })

run-IsPaired : (calls : List Recording) (r : DemRecorder) → IsPaired r → IsPaired (run r calls)
run-IsPaired [] r h = h
run-IsPaired (call ∷ calls) r h = run-IsPaired calls (step r call) (step-IsPaired r call h)

-- Whatever was recorded, the recorder writes a file for a header that names the number of its entries and
-- the head of its chain, if no text is too long and zlib can pack the body.
pub finalize-ok :
    (z : Zlib) (calls : List Recording) (header : DemHeader) (bodies : List DemBodyEntry)
    → header.entry_count ≡ length (run empty_recorder calls).chain
    → header.chain_head_digest ≡ head_digest (run empty_recorder calls).chain
    → body_entries (run empty_recorder calls).chain (run empty_recorder calls).payloads
      ≡ some bodies
    → is_empty (dem_zlib_compress z (encode_dem_body bodies)) ≡ false
    → (finalize z (run empty_recorder calls) header).ok ≡ true
unfolding finalize write_dem_document write_bodies write_entries write_body
finalize-ok z calls header bodies counted headed short packed =
    let r = run empty_recorder calls in
    let h =
      run-IsPaired calls empty_recorder (record { chained = tt; paired = refl; matched = start }) in
    ground (
      arith,
      h.paired,
      counted,
      headed,
      bytes_eq_refl (head_digest r.chain),
      h.matched,
      short,
      (verify_chain_iff r.chain).1 h.chained,
      packed,
    )
  where
    start : digests_match [] [] ≡ true
    start = unfold digests_match in refl
