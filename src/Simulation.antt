-- ===== src/Simulation.antt =====
-- src/simulation.cpp and include/phk/battle/simulation.hpp: the simulation of a match, as far as its
-- players and their inputs go. The state has the fields that these operations read or write, and
-- a player those that they change. Counters and ticks are numbers without a width.
pub mod Validation
pub mod Acceptance
pub mod Players
pub mod Admissible
pub mod Buffer
pub mod Inputs
pub mod Roster
pub mod Invariant
pub mod Runs
mod Tests
use Prim.Native.String.{String}
use ph_k_battle_server.Base.{
  ℕ, zero, suc, ◌+◌, ◌-◌, ◌*◌, ◌/◌, ◌%◌, ◌≡◌, Bool, true, false, ◌&&◌, ◌||◌, not, List, [], ◌∷◌,
  ◌++◌, Option, none, some, max, ltb, leb, ◌==◌, if◌then◌else◌, length, is_empty, is_some, Map,
  find, insert, member, nat_key, bytes_key, Bytes, codes, bytes_eq,
}
use ph_k_battle_server.Base.Int.{ℤ, pos, negsuc, ltb_ℤ, clamp}
use ph_k_battle_server.Base.Decimal.{to_string, to_string_ℤ}
use ph_k_battle_server.Protocol.Nonce.{fnv_offset}
use ph_k_battle_server.Protocol.{VersionStamp, is_compatible}
use ph_k_battle_server.Protocol.Nonce.{hash_append, hash_append_word}
use ph_k_battle_server.Coop.{BattleInput}
use ph_k_battle_server.Coop.Setup.{neutral_input}
use ph_k_battle_server.ChainLog.{
  ChainEntry, chain_bool_token, append_input, append_match_seed, seed_kind_battle_derived,
}
use ph_k_battle_server.Ticket.{is_valid_audit_token}
use ph_k_battle_server.Dem.{to_u64, of_u64}

pub data InputValidationCode : Type 0 where
  ok version_incompatible match_unknown match_settled match_mismatch : InputValidationCode
  player_unknown seq_missing seq_replay duplicate_input_for_tick : InputValidationCode
  tick_too_old tick_too_far_ahead invalid_direction_bits invalid_card_slot : InputValidationCode
  invalid_mode_action player_disconnected seq_too_far_ahead : InputValidationCode
  event_cursor_ahead duplicate_mode_action ready_already_set : InputValidationCode
  boss_min_players_not_met : InputValidationCode

pub record InputValidationResult : Type 0 where
  pub is_ok : Bool
  pub code : InputValidationCode
  pub reason : String

pub record SimulationConfig : Type 0 where
  pub match_id : Bytes
  pub mode_id : Bytes
  pub match_seed : ℕ
  pub boss_max_hp : ℕ
  pub max_input_ahead_ticks : ℕ
  pub max_seq_ahead : ℕ
  pub max_mode_action_id_bytes : ℕ

pub record PlayerState : Type 0 where
  pub player_id : Bytes
  pub x_milli : ℤ
  pub y_milli : ℤ
  pub last_seq : ℕ
  pub connected : Bool
  pub ticks_without_input : ℕ
  pub last_input : BattleInput

pub record BattleSimulation : Type 0 where
  pub config : SimulationConfig
  pub current_tick : ℕ
  pub accepted_input_count : ℕ
  pub input_buffer_peak_tick_count : ℕ
  pub input_buffer_peak_record_count : ℕ
  pub input_stream_hash : ℕ
  pub event_stream_hash : ℕ
  pub event_count : ℕ
  pub boss_current_hp : ℕ
  pub players : Map Bytes PlayerState
  pub ready_player_ids : List Bytes
  pub pending_ready_player_ids : List Bytes
  pub pending_reconnect_player_ids : List Bytes
  pub boss_damage_by_player : Map Bytes ℕ
  pub pending_inputs_by_tick : Map ℕ (Map Bytes BattleInput)
  pub input_trace : List Bytes
  pub event_trace : List Bytes
  pub operation_log : List ChainEntry

unfoldable pub is_boss_mode : Bytes → Bool
is_boss_mode mode_id =
    bytes_eq mode_id (codes "world_boss") || bytes_eq mode_id (codes "instance_boss")

unfoldable pub boss_defeated : BattleSimulation → Bool
boss_defeated s = is_boss_mode s.config.mode_id && (s.boss_current_hp == 0)

abbrev pub boss_mode_min_players : ℕ
boss_mode_min_players = 4

abbrev pub boss_mode_max_players : ℕ
boss_mode_max_players = 8

unfoldable pub at_least_one : ℕ → ℕ
at_least_one limit = if limit == 0 then 1 else limit

-- The constructor, for the fields that are kept here.
unfoldable pub new_simulation : SimulationConfig → BattleSimulation
new_simulation config =
    let boss = is_boss_mode config.mode_id in
    let hp = at_least_one config.boss_max_hp in
    record {
      config = record config {
        max_input_ahead_ticks = at_least_one config.max_input_ahead_ticks;
        max_seq_ahead = at_least_one config.max_seq_ahead;
        max_mode_action_id_bytes = at_least_one config.max_mode_action_id_bytes;
        boss_max_hp = if boss then hp else config.boss_max_hp;
      };
      current_tick = 0;
      accepted_input_count = 0;
      input_buffer_peak_tick_count = 0;
      input_buffer_peak_record_count = 0;
      input_stream_hash = fnv_offset;
      event_stream_hash = fnv_offset;
      event_count = 0;
      boss_current_hp = if boss then hp else 0;
      players = [];
      ready_player_ids = [];
      pending_ready_player_ids = [];
      pending_reconnect_player_ids = [];
      boss_damage_by_player = [];
      pending_inputs_by_tick = [];
      input_trace = [];
      event_trace = [];
      operation_log = append_match_seed [] (pos 0) seed_kind_battle_derived config.match_seed;
    }
