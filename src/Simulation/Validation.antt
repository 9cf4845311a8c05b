-- ===== src/Simulation/Validation.antt =====
-- `ValidateInput` of src/simulation.cpp, as the list of its tests.
use Prim.Native.String.{String}
use ph_k_battle_server.Base.{
  ◌-◌, Bool, true, false, ◌&&◌, ◌||◌, not, List, [], ◌∷◌, ◌++◌, none, some, ltb, leb, ◌==◌,
  if◌then◌else◌, length, is_empty, is_some, find, nat_key, bytes_key, Bytes, bytes_eq,
}
use ph_k_battle_server.Base.Int.{pos, negsuc, ltb_ℤ}
use ph_k_battle_server.Protocol.{is_compatible}
use ph_k_battle_server.Coop.{BattleInput}
use ph_k_battle_server.Ticket.{is_valid_audit_token}
use ph_k_battle_server.Simulation.{
  BattleSimulation, InputValidationCode, InputValidationResult, PlayerState, boss_defeated,
  boss_min_players_not_met, boss_mode_min_players, duplicate_input_for_tick, invalid_card_slot,
  invalid_direction_bits, invalid_mode_action, is_boss_mode, match_mismatch, match_settled, ok,
  player_disconnected, player_unknown, seq_missing, seq_replay, seq_too_far_ahead,
  tick_too_far_ahead, tick_too_old, version_incompatible,
}

-- A test that refuses, with its code and reason.
abbrev pub Refusal : Type 0
Refusal = Bool × InputValidationCode × String

abbrev pub passes : InputValidationResult
passes = record { is_ok = true; code = ok; reason = "ok" }

abbrev pub refuse : InputValidationCode → String → InputValidationResult
refuse code reason = record { is_ok = false; code = code; reason = reason }

unfoldable pub first_refusal : List Refusal → InputValidationResult
first_refusal [] = passes
first_refusal ((refused, code, reason) ∷ tests) =
    let later = first_refusal tests in if refused then refuse code reason else later

unfoldable pub is_valid_optional_audit_token : Bytes → Bool
is_valid_optional_audit_token value = is_empty value || is_valid_audit_token value

-- The input of a player for a tick is there.
unfoldable pub is_pending : BattleSimulation → BattleInput → Bool
is_pending s input = elim (find input.tick s.pending_inputs_by_tick) [
  | none ↦ false
  | some inputs ↦ is_some (find input.player_id inputs)
]

-- The tests of `ValidateInput` once the player is found.
unfoldable pub player_tests : BattleSimulation → PlayerState → BattleInput → List Refusal
player_tests s player input =
    (
      is_boss_mode s.config.mode_id && ltb (length s.players) boss_mode_min_players,
      boss_min_players_not_met,
      "boss_min_players_not_met",
    )
    ∷ (not player.connected, player_disconnected, "player_disconnected")
    ∷ (input.seq == 0, seq_missing, "seq_missing")
    ∷ (leb input.seq player.last_seq, seq_replay, "seq_replay")
    ∷ (
      ltb player.last_seq input.seq && ltb s.config.max_seq_ahead (input.seq - player.last_seq),
      seq_too_far_ahead,
      "seq_too_far_ahead",
    )
    ∷ (leb input.tick s.current_tick, tick_too_old, "input_tick_too_old")
    ∷ (
      ltb s.current_tick input.tick
          && ltb s.config.max_input_ahead_ticks (input.tick - s.current_tick),
      tick_too_far_ahead,
      "input_tick_too_far_ahead",
    )
    ∷ (is_pending s input, duplicate_input_for_tick, "input_tick_duplicate")
    ∷ (leb 16 input.direction_bits, invalid_direction_bits, "invalid_direction_bits")
    ∷ (
      ltb_ℤ input.card_slot (negsuc 0) || ltb_ℤ (pos 4) input.card_slot,
      invalid_card_slot,
      "invalid_card_slot",
    )
    ∷ (
      ltb s.config.max_mode_action_id_bytes (length input.mode_action_id),
      invalid_mode_action,
      "input_mode_action_id_too_large",
    )
    ∷ (
      not (is_valid_optional_audit_token input.mode_action_id),
      invalid_mode_action,
      "input_mode_action_id_invalid",
    )
    ∷ []

-- And those before.
unfoldable pub match_tests : BattleSimulation → BattleInput → List Refusal
match_tests s input =
    (not (is_compatible input.version), version_incompatible, "version_incompatible")
    ∷ (not (bytes_eq input.match_id s.config.match_id), match_mismatch, "match_mismatch")
    ∷ (boss_defeated s, match_settled, "boss_defeated")
    ∷ []

unfoldable pub validate_input : BattleSimulation → BattleInput → InputValidationResult
validate_input s input = elim (find input.player_id s.players) [
  | none ↦ first_refusal (match_tests s input ++ (true, player_unknown, "player_unknown") ∷ [])
  | some player ↦ first_refusal (match_tests s input ++ player_tests s player input)
]
