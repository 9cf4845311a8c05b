-- ===== src/Simulation/Tests.antt =====
-- Runs of the operations of src/simulation.cpp on a duel.
use ph_k_battle_server.Base.{◌≡◌, refl, true, false, [], ◌∷◌, codes, find, insert, bytes_eq}
use ph_k_battle_server.Base.Int.{pos}
use ph_k_battle_server.Protocol.{
  VersionStamp, protocol_version_supported, battle_api_version_supported, is_compatible,
}
use ph_k_battle_server.Ticket.{is_valid_audit_token, is_allowed_audit_token_char, is_alnum}
use ph_k_battle_server.Coop.{BattleInput}
use ph_k_battle_server.Coop.Setup.{neutral_input}
use ph_k_battle_server.Simulation.{
  SimulationConfig, BattleSimulation, new_simulation, at_least_one, is_boss_mode, boss_defeated,
}
use ph_k_battle_server.Simulation.Acceptance.{accept_input}
use ph_k_battle_server.Simulation.Players.{add_player, new_player}
use ph_k_battle_server.Simulation.Validation.{
  validate_input, first_refusal, match_tests, player_tests, is_pending,
  is_valid_optional_audit_token,
}
use ph_k_battle_server.Simulation.Invariant.{IsSound}
use ph_k_battle_server.Simulation.Runs.{add, connect, submit, calls, calls-IsSound}

abbrev stamp : VersionStamp
stamp = record {
  protocol_version = protocol_version_supported;
  business_api_version = codes "v1";
  battle_api_version = battle_api_version_supported;
  ruleset_version = codes "r1";
}

abbrev config : SimulationConfig
config = record {
  match_id = codes "m1";
  mode_id = codes "duel";
  match_seed = 7;
  boss_max_hp = 0;
  max_input_ahead_ticks = 8;
  max_seq_ahead = 32;
  max_mode_action_id_bytes = 128;
}

abbrev empty : BattleSimulation
empty = new_simulation config

abbrev duel : BattleSimulation
duel = (add_player stamp empty (codes "p1") (pos 0, pos 200000)).0

abbrev shot : BattleInput
shot = record (neutral_input stamp (codes "m1") (codes "p1")) { tick = 1; seq = 1; shoot = true }

-- The shot is taken, and sent again it is refused as a replay.
shot_taken : (accept_input duel shot).1.is_ok ≡ true
unfolding new_simulation at_least_one accept_input validate_input add_player first_refusal find
    is_valid_audit_token is_allowed_audit_token_char is_alnum is_boss_mode bytes_eq insert
    match_tests is_compatible boss_defeated player_tests new_player is_pending
    is_valid_optional_audit_token
shot_taken = refl

calls-IsSound_example : IsSound (
    calls stamp (new_simulation config) (
      add (codes "p1") (pos 0, pos 200000)
      ∷ add (codes "p2") (pos 0, pos 0)
      ∷ submit shot
      ∷ connect (codes "p2") false
      ∷ []))
calls-IsSound_example = calls-IsSound stamp config (
    add (codes "p1") (pos 0, pos 200000)
    ∷ add (codes "p2") (pos 0, pos 0)
    ∷ submit shot
    ∷ connect (codes "p2") false
    ∷ [])
