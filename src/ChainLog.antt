-- ===== src/ChainLog.antt =====
-- src/chain_log.cpp and include/phk/battle/chain_log.hpp: the hash chain of a match's accepted
-- operations. Sequence numbers are `std::uint64_t`, so that `+ 1` wraps.
pub mod Laws
pub mod Appends
pub mod Tamper
mod Tests
use ph_k_battle_server.Base.{
  ℕ, ◌+◌, ◌%◌, Bool, true, false, not, List, [], ◌∷◌, ◌++◌, Option, none, some, ◌==◌, if◌then◌else◌,
  Bytes, codes, bytes_eq,
}
use ph_k_battle_server.Base.Int.{ℤ}
use ph_k_battle_server.Base.Decimal.{to_string, to_string_ℤ}
use ph_k_battle_server.LobbyRng.{short_hash_hex}

abbrev pub genesis_prev_digest : Bytes
genesis_prev_digest = codes "00000000"

pub record ChainEntry : Type 0 where
  pub seq : ℕ
  pub tick : ℤ
  pub player_id : Bytes
  pub action_type : Bytes
  pub payload_digest : Bytes
  pub prev_digest : Bytes
  pub entry_digest : Bytes

unfoldable pub chain_bool_token : Bool → Bytes
chain_bool_token value = if value then codes "1" else codes "0"

unfoldable pub canonical_chain_input_payload : ℕ → ℕ → Bool → Bool → Bool → ℤ → Bytes → Bytes
canonical_chain_input_payload seq direction_bits slow shoot bomb card_slot mode_action_id =
    codes "seq="
    ++ to_string seq
    ++ codes "|dir="
    ++ to_string direction_bits
    ++ codes "|slow="
    ++ chain_bool_token slow
    ++ codes "|shoot="
    ++ chain_bool_token shoot
    ++ codes "|bomb="
    ++ chain_bool_token bomb
    ++ codes "|card="
    ++ to_string_ℤ card_slot
    ++ codes "|mode_action_id="
    ++ mode_action_id

unfoldable pub canonical_chain_mode_action_payload : Bytes → ℕ → Bytes → Bytes
canonical_chain_mode_action_payload action_id seq payload_json =
    codes "action_id="
    ++ action_id
    ++ codes "|seq="
    ++ to_string seq
    ++ codes "|payload="
    ++ payload_json

unfoldable pub canonical_chain_seed_payload : Bytes → ℕ → Bytes
canonical_chain_seed_payload seed_kind seed =
    codes "seed_kind=" ++ seed_kind ++ codes "|seed=" ++ to_string seed

-- The material without its last part.
unfoldable pub digest_head : ChainEntry → Bytes
digest_head entry =
    to_string entry.seq
    ++ b'|' ∷ to_string_ℤ entry.tick
    ++ b'|' ∷ entry.player_id
    ++ b'|' ∷ entry.action_type
    ++ b'|' ∷ entry.payload_digest
    ++ b'|' ∷ []

unfoldable pub chain_entry_digest_material : ChainEntry → Bytes
chain_entry_digest_material entry = digest_head entry ++ entry.prev_digest

unfoldable pub compute_chain_entry_digest : ChainEntry → Bytes
compute_chain_entry_digest entry = short_hash_hex (chain_entry_digest_material entry)

unfoldable pub chain_payload_digest : Bytes → Bytes
chain_payload_digest canonical_payload = short_hash_hex canonical_payload

pub record ChainVerificationResult : Type 0 where
  pub ok : Bool
  pub first_bad_seq : ℕ
  pub reason : Bytes

-- `seq + 1` of a `std::uint64_t`.
unfoldable pub next_of : ℕ → ℕ
next_of seq = (seq + 1) % 18446744073709551616

-- What is wrong with an entry after the previous one, if anything.
unfoldable pub entry_reason : Option ChainEntry → ChainEntry → Option Bytes
entry_reason none entry =
    if not (entry.seq == 1)
    then some (codes "chain_first_seq_not_one")
    else (if not (bytes_eq entry.prev_digest genesis_prev_digest)
        then some (codes "chain_genesis_prev_digest_mismatch")
        else (if not (bytes_eq entry.entry_digest (compute_chain_entry_digest entry))
            then some (codes "chain_entry_digest_mismatch")
            else none))
entry_reason (some prev) entry =
    if not (entry.seq == next_of prev.seq)
    then some (codes "chain_seq_gap")
    else (if not (bytes_eq entry.prev_digest prev.entry_digest)
        then some (codes "chain_prev_link_broken")
        else (if not (bytes_eq entry.entry_digest (compute_chain_entry_digest entry))
            then some (codes "chain_entry_digest_mismatch")
            else none))

abbrev passed : Bytes → ChainVerificationResult
passed reason = record { ok = true; first_bad_seq = 0; reason = reason }

-- The loop, with the entry before the ones that are left.
unfoldable pub verify_from : Option ChainEntry → List ChainEntry → ChainVerificationResult
verify_from prev [] = elim prev [
  | none ↦ passed (codes "chain_empty")
  | some last ↦ passed (codes "ok")
]
verify_from prev (entry ∷ entries) =
    let rest = verify_from (some entry) entries in
    elim (entry_reason prev entry) [
      | none ↦ rest
      | some reason ↦ record { ok = false; first_bad_seq = entry.seq; reason = reason }
    ]

unfoldable pub verify_chain : List ChainEntry → ChainVerificationResult
verify_chain entries = verify_from none entries

-- `entries_.back()` of a log that is not empty.
unfoldable pub back : List ChainEntry → Option ChainEntry
back [] = none
back (entry ∷ entries) = elim (back entries) [ none ↦ some entry | some last ↦ some last ]

unfoldable pub next_seq : List ChainEntry → ℕ
next_seq entries = elim (back entries) [ none ↦ 1 | some last ↦ next_of last.seq ]

unfoldable pub head_digest : List ChainEntry → Bytes
head_digest entries = elim (back entries) [
  | none ↦ genesis_prev_digest
  | some last ↦ last.entry_digest
]

-- The entry that `AppendEntry` builds, before its digest is known.
unfoldable pub new_entry : List ChainEntry → ℤ → Bytes → Bytes → Bytes → ChainEntry
new_entry entries tick player_id action_type payload_digest =
    let bare : ChainEntry = record {
      seq = next_seq entries;
      tick = tick;
      player_id = player_id;
      action_type = action_type;
      payload_digest = payload_digest;
      prev_digest = head_digest entries;
      entry_digest = [];
    } in
    record bare { entry_digest = compute_chain_entry_digest bare }

unfoldable pub append_entry : List ChainEntry → ℤ → Bytes → Bytes → Bytes → List ChainEntry
append_entry entries tick player_id action_type payload_digest =
    entries ++ new_entry entries tick player_id action_type payload_digest ∷ []

abbrev pub seed_kind_battle_derived : Bytes
seed_kind_battle_derived = codes "battle_derived"

unfoldable pub append_match_seed : List ChainEntry → ℤ → Bytes → ℕ → List ChainEntry
append_match_seed entries tick seed_kind seed =
    append_entry entries tick [] (codes "match_seed")
      (chain_payload_digest (canonical_chain_seed_payload seed_kind seed))

unfoldable pub append_input :
    List ChainEntry → ℤ → Bytes → ℕ → ℕ → Bool → Bool → Bool → ℤ → Bytes → List ChainEntry
append_input entries tick player_id seq direction_bits slow shoot bomb card_slot mode_action_id =
    append_entry entries tick player_id (codes "input") (
      chain_payload_digest
        (canonical_chain_input_payload seq direction_bits slow shoot bomb card_slot mode_action_id))

unfoldable pub append_mode_action :
    List ChainEntry → ℤ → Bytes → Bytes → ℕ → Bytes → Bytes → List ChainEntry
append_mode_action entries tick player_id action_id seq action_type payload_json =
    append_entry entries tick player_id action_type
      (chain_payload_digest (canonical_chain_mode_action_payload action_id seq payload_json))
