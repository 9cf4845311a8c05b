-- ===== src/Simulation/Runs.antt =====
-- The calls of src/simulation.cpp on players and inputs in any order.
use ph_k_battle_server.Base.{Bool, List, [], ◌∷◌, Bytes}
use ph_k_battle_server.Base.Int.{ℤ}
use ph_k_battle_server.Protocol.{VersionStamp}
use ph_k_battle_server.Coop.{BattleInput}
use ph_k_battle_server.Simulation.{SimulationConfig, BattleSimulation, new_simulation}
use ph_k_battle_server.Simulation.Acceptance.{accept_input}
use ph_k_battle_server.Simulation.Players.{set_player_connected, add_player}
use ph_k_battle_server.Simulation.Invariant.{
  IsSound, new_simulation-IsSound, add_player-IsSound, set_player_connected-IsSound,
  accept_input-IsSound,
}

pub data Call : Type 0 where
  add : Bytes → ℤ × ℤ → Call
  connect : Bytes → Bool → Call
  submit : BattleInput → Call

abbrev call : VersionStamp → BattleSimulation → Call → BattleSimulation
call stamp s (add id at) = (add_player stamp s id at).0
call stamp s (connect id connected) = (set_player_connected stamp s id connected).0
call stamp s (submit input) = (accept_input s input).0

unfoldable pub calls : VersionStamp → BattleSimulation → List Call → BattleSimulation
calls stamp s [] = s
calls stamp s (c ∷ cs) = calls stamp (call stamp s c) cs

call-IsSound :
    (stamp : VersionStamp) (s : BattleSimulation) (c : Call) → IsSound s → IsSound (call stamp s c)
call-IsSound stamp s (add id at) h = add_player-IsSound stamp s id at h
call-IsSound stamp s (connect id connected) h = set_player_connected-IsSound stamp s id connected h
call-IsSound stamp s (submit input) h = accept_input-IsSound s input h

calls-IsSound_from :
    (stamp : VersionStamp) (cs : List Call) (s : BattleSimulation)
    → IsSound s
    → IsSound (calls stamp s cs)
unfolding calls
calls-IsSound_from stamp [] s h = h
calls-IsSound_from stamp (c ∷ cs) s h =
    calls-IsSound_from stamp cs (call stamp s c) (call-IsSound stamp s c h)

-- After any calls that add players, change connections and submit inputs, the players are in order,
-- under their own valid names and in the arena, and at most eight against a boss; every input that
-- waits stands under its tick, which is to come, and under its player, who is known and whose last
-- number is not smaller; the operation log has one row for each accepted input and one for the seed,
-- and the counters of inputs and events count the rows of the traces.
pub calls-IsSound :
    (stamp : VersionStamp) (config : SimulationConfig) (cs : List Call)
    → IsSound (calls stamp (new_simulation config) cs)
calls-IsSound stamp config cs =
    calls-IsSound_from stamp cs (new_simulation config) (new_simulation-IsSound config)
