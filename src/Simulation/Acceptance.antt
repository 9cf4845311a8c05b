-- ===== src/Simulation/Acceptance.antt =====
-- `AcceptInput` of src/simulation.cpp, with the trace and the hash of the inputs.
use ph_k_battle_server.Base.{
  ℕ, ◌+◌, Bool, not, [], ◌∷◌, ◌++◌, none, some, max, if◌then◌else◌, length, Map, find, insert,
  nat_key, bytes_key, Bytes, codes,
}
use ph_k_battle_server.Base.Decimal.{to_string, to_string_ℤ}
use ph_k_battle_server.Protocol.Nonce.{hash_append, hash_append_word}
use ph_k_battle_server.Coop.{BattleInput}
use ph_k_battle_server.ChainLog.{chain_bool_token, append_input}
use ph_k_battle_server.Dem.{to_u64, of_u64}
use ph_k_battle_server.Simulation.{BattleSimulation, InputValidationResult, PlayerState}
use ph_k_battle_server.Simulation.Validation.{validate_input}

-- All the inputs that wait.
unfoldable pub pending_records : Map ℕ (Map Bytes BattleInput) → ℕ
pending_records [] = 0
pending_records ((tick, inputs) ∷ rest) = length inputs + pending_records rest

unfoldable pub buffer_input :
    Map ℕ (Map Bytes BattleInput) → BattleInput → Map ℕ (Map Bytes BattleInput)
buffer_input pending input = elim (find input.tick pending) [
  | none ↦ insert input.tick (insert input.player_id input []) pending
  | some inputs ↦ insert input.tick (insert input.player_id input inputs) pending
]

unfoldable pub bit_of : Bool → ℕ
bit_of b = if b then 1 else 0

unfoldable pub input_hash : ℕ → BattleInput → ℕ
input_hash hash input =
    let hash = hash_append hash input.match_id in
    let hash = hash_append hash input.player_id in
    let hash = hash_append_word hash input.tick in
    let hash = hash_append_word hash input.seq in
    let hash = hash_append_word hash input.direction_bits in
    let hash = hash_append_word hash (bit_of input.slow) in
    let hash = hash_append_word hash (bit_of input.shoot) in
    let hash = hash_append_word hash (bit_of input.bomb) in
    let hash = hash_append_word hash (to_u64 input.card_slot) in
    hash_append hash input.mode_action_id

unfoldable pub input_line : BattleInput → Bytes
input_line input =
    codes "input|"
    ++ (input.player_id
        ++ (codes "|tick="
            ++ (to_string input.tick
                ++ (codes "|seq="
                    ++ (to_string input.seq
                        ++ (codes "|dir="
                            ++ (to_string input.direction_bits
                                ++ (codes "|slow="
                                    ++ (chain_bool_token input.slow
                                        ++ (codes "|shoot="
                                            ++ (chain_bool_token input.shoot
                                                ++ (codes "|bomb="
                                                    ++ (chain_bool_token input.bomb
                                                        ++ (codes "|card="
                                                            ++ to_string_ℤ
                                                            input.card_slot))))))))))))))

unfoldable pub accumulate_accepted_input : BattleSimulation → BattleInput → BattleSimulation
accumulate_accepted_input s input = record s {
  input_stream_hash = input_hash s.input_stream_hash input;
  input_trace = s.input_trace ++ input_line input ∷ [];
  accepted_input_count = s.accepted_input_count + 1;
}

-- The changes of `AcceptInput` for a player that is there.
unfoldable pub take_input : BattleSimulation → PlayerState → BattleInput → BattleSimulation
take_input s player input =
    let pending = buffer_input s.pending_inputs_by_tick input in
    let counted = accumulate_accepted_input s input in
    record counted {
      pending_inputs_by_tick = pending;
      input_buffer_peak_tick_count = max s.input_buffer_peak_tick_count (length pending);
      input_buffer_peak_record_count =
          max s.input_buffer_peak_record_count (pending_records pending);
      players = insert input.player_id (record player { last_seq = input.seq }) s.players;
      operation_log =
          append_input s.operation_log (of_u64 input.tick) input.player_id input.seq
            input.direction_bits input.slow input.shoot input.bomb input.card_slot
            input.mode_action_id;
    }

unfoldable pub accept_input :
    BattleSimulation → BattleInput → BattleSimulation × InputValidationResult
accept_input s input =
    let result = validate_input s input in
    if not result.is_ok then (s, result) else elim (find input.player_id s.players) [
      | none ↦ (s, result)
      | some player ↦ (take_input s player input, result)
    ]
