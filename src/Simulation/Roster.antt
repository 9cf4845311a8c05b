-- ===== src/Simulation/Roster.antt =====
-- The players of src/simulation.cpp, in order and in the arena.
use ph_k_battle_server.Base.{
  ◌≤◌, ◌<◌, ◌≡◌, refl, Bool, true, some, arith, length, All, Map, find, insert, find-All_entry,
  All-insert, IsOrdered, insert-IsOrdered, length-insert-le, length-insert_found, nat_key,
  bytes_key, Bytes,
}
use ph_k_battle_server.Base.Int.{ℤ, pos, negsuc, clamp_bounds, ◌≤ℤ◌}
use ph_k_battle_server.Protocol.{VersionStamp}
use ph_k_battle_server.Ticket.{is_valid_audit_token}
use ph_k_battle_server.Simulation.{PlayerState, BattleSimulation, boss_mode_max_players}
use ph_k_battle_server.Simulation.Players.{new_player}

-- A player under their own name, in the arena.
abbrev pub IsPlayer : Bytes × PlayerState → Type 0
IsPlayer (id, player) =
    (player.player_id ≡ id)
    × (is_valid_audit_token id ≡ true)
    × (negsuc 119999 ≤ℤ player.x_milli)
    × (player.x_milli ≤ℤ pos 120000)
    × (negsuc 89999 ≤ℤ player.y_milli)
    × (player.y_milli ≤ℤ pos 90000)

abbrev pub IsRoster : Bool → Map Bytes PlayerState → Type 0
IsRoster boss players =
    IsOrdered players
    × All IsPlayer players
    × (boss ≡ true → length players ≤ boss_mode_max_players)

pub find-IsPlayer :
    (id : Bytes) (player : PlayerState) (players : Map Bytes PlayerState)
    → All IsPlayer players
    → find id players ≡ some player
    → IsPlayer (id, player)
find-IsPlayer id player players h found = find-All_entry IsPlayer id player players found h

pub insert-IsRoster :
    (boss : Bool) (id : Bytes) (player old : PlayerState) (players : Map Bytes PlayerState)
    → find id players ≡ some old
    → IsPlayer (id, player)
    → IsRoster boss players
    → IsRoster boss (insert id player players)
insert-IsRoster boss id player old players known inside (ordered, all, few) = (
  insert-IsOrdered id player players ordered,
  All-insert IsPlayer id player players inside all,
  λ is_boss. omega (arith, few is_boss, length-insert_found id player old players ordered known),
)

pub new_player-IsPlayer :
    (stamp : VersionStamp) (s : BattleSimulation) (id : Bytes) (at : ℤ × ℤ)
    → is_valid_audit_token id ≡ true
    → IsPlayer (id, new_player stamp s id at)
unfolding new_player
new_player-IsPlayer stamp s id at valid =
    let x = clamp_bounds at.0 (negsuc 119999) (pos 120000) (omega arith) in
    let y = clamp_bounds at.1 (negsuc 89999) (pos 90000) (omega arith) in
    (refl, valid, x.0, x.1, y.0, y.1)

pub grown-IsRoster :
    (boss : Bool) (id : Bytes) (player : PlayerState) (players : Map Bytes PlayerState)
    → (boss ≡ true → length players < boss_mode_max_players)
    → IsPlayer (id, player)
    → IsRoster boss players
    → IsRoster boss (insert id player players)
grown-IsRoster boss id player players room inside (ordered, all, few) = (
  insert-IsOrdered id player players ordered,
  All-insert IsPlayer id player players inside all,
  λ is_boss. omega (arith, room is_boss, length-insert-le id player players),
)
