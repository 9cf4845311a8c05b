-- ===== src/Simulation/Players.antt =====
-- The players of src/simulation.cpp, who join, leave and come back.
use ph_k_battle_server.Base.{
  ℕ, ◌+◌, ◌%◌, Bool, true, false, ◌&&◌, ◌||◌, not, List, [], ◌∷◌, ◌++◌, none, some, leb, ◌==◌,
  if◌then◌else◌, length, is_some, find, insert, nat_key, bytes_key, Bytes, codes, bytes_eq,
}
use ph_k_battle_server.Base.Int.{ℤ, pos, negsuc, clamp}
use ph_k_battle_server.Base.Decimal.{to_string}
use ph_k_battle_server.Protocol.{VersionStamp}
use ph_k_battle_server.Protocol.Nonce.{hash_append, hash_append_word}
use ph_k_battle_server.Coop.Setup.{neutral_input}
use ph_k_battle_server.Ticket.{is_valid_audit_token}
use ph_k_battle_server.Simulation.{
  BattleSimulation, InputValidationResult, PlayerState, boss_mode_max_players, is_boss_mode,
  player_unknown,
}
use ph_k_battle_server.Simulation.Validation.{passes, refuse}

unfoldable pub connection_word : Bool → Bytes
connection_word connected = if connected then codes "connected" else codes "disconnected"

unfoldable pub accumulate_connection_event : BattleSimulation → PlayerState → BattleSimulation
accumulate_connection_event s player =
    let hash = hash_append s.event_stream_hash s.config.match_id in
    let hash = hash_append hash player.player_id in
    let hash = hash_append_word hash s.current_tick in
    record s {
      event_stream_hash = hash_append hash (connection_word player.connected);
      event_trace =
          s.event_trace
          ++ (codes "connection|"
              ++ (connection_word player.connected
                  ++ (b'|' ∷ (player.player_id ++ (codes "|tick=" ++ to_string s.current_tick)))))
            ∷ [];
      event_count = s.event_count + 1;
    }

-- `erase` on a set.
unfoldable pub exclude : Bytes → List Bytes → List Bytes
exclude id [] = []
exclude id (other ∷ ids) =
    let rest = exclude id ids in if bytes_eq other id then rest else other ∷ rest

-- A player whose connection changes; `stamp` is the version of the build.
unfoldable pub switch_player :
    VersionStamp → BattleSimulation → PlayerState → Bytes → Bool → BattleSimulation
switch_player stamp s player player_id connected =
    let silent = record player { connected = connected; ticks_without_input = 0 } in
    let back = record silent {
      last_input = neutral_input stamp s.config.match_id player.player_id;
    } in
    let switched = if connected then back else silent in
    let s' = record s { players = insert player_id switched s.players } in
    let s'' =
      if connected
      then record s' {
        pending_reconnect_player_ids = exclude player.player_id s.pending_reconnect_player_ids;
      }
      else record s' {
        ready_player_ids = exclude player.player_id s.ready_player_ids;
        pending_ready_player_ids = exclude player.player_id s.pending_ready_player_ids;
      } in
    accumulate_connection_event s'' switched

abbrev pub same_bool : Bool → Bool → Bool
same_bool true b = b
same_bool false b = not b

unfoldable pub set_player_connected :
    VersionStamp → BattleSimulation → Bytes → Bool → BattleSimulation × InputValidationResult
set_player_connected stamp s player_id connected = elim (find player_id s.players) [
  | none ↦ (s, refuse player_unknown "player_unknown")
  | some player ↦
      if same_bool player.connected connected
      then (s, passes)
      else (switch_player stamp s player player_id connected, passes)
]

unfoldable pub boss_spawn_point : ℕ → ℤ × ℤ
boss_spawn_point index =
    let i = index % 8 in
    if i == 0
    then (pos 0, negsuc 59999)
    else (if i == 1
        then (pos 60000, pos 0)
        else (if i == 2
            then (pos 0, pos 60000)
            else (if i == 3
                then (negsuc 59999, pos 0)
                else (if i == 4
                    then (pos 42426, negsuc 42425)
                    else (if i == 5
                        then (pos 42426, pos 42426)
                        else (if i == 6
                            then (negsuc 42425, pos 42426)
                            else (negsuc 42425, negsuc 42425)))))))

unfoldable pub new_player : VersionStamp → BattleSimulation → Bytes → ℤ × ℤ → PlayerState
new_player stamp s player_id at = record {
  player_id = player_id;
  x_milli = clamp at.0 (negsuc 119999) (pos 120000);
  y_milli = clamp at.1 (negsuc 89999) (pos 90000);
  last_seq = 0;
  connected = true;
  ticks_without_input = 0;
  last_input = neutral_input stamp s.config.match_id player_id;
}

unfoldable pub add_player :
    VersionStamp → BattleSimulation → Bytes → ℤ × ℤ → BattleSimulation × Bool
add_player stamp s player_id at =
    let boss = is_boss_mode s.config.mode_id in
    let at' = if boss then boss_spawn_point (length s.players) else at in
    if not (is_valid_audit_token player_id) || is_some (find player_id s.players)
    then (s, false)
    else (if boss && leb boss_mode_max_players (length s.players) then (s, false) else (
      record s {
        players = insert player_id (new_player stamp s player_id at') s.players;
        boss_damage_by_player =
            if boss then insert player_id 0 s.boss_damage_by_player else s.boss_damage_by_player;
      },
      true,
    ))
