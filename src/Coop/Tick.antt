-- ===== src/Coop/Tick.antt =====
-- `ApplyPlayerTick`, `CheckBossDefeated` and `Tick` of src/coop_boss.cpp.
use Prim.Native.Nat.{bit_and}
use ph_k_battle_server.Base.{
  ℕ, suc, ◌+◌, ◌-◌, ◌^◌, Bool, true, false, ◌&&◌, not, List, [], ◌∷◌, Option, none, some, ltb, ◌==◌,
  if◌then◌else◌, Map, find, erase, Bytes, bytes_eq, min, bytes_key, nat_key,
}
use ph_k_battle_server.Base.Int.{ℤ, pos, negsuc, ◌+ℤ◌, ◌-ℤ◌, clamp}
use ph_k_battle_server.Coop.{
  BattleInput, PlayerLoadoutSpec, WeaponSpec, CoopBossState, running, finished, PlayerState,
  CoopBossSimulation, arena_half_milli, minus_arena_half_milli, move_milli, damage_per_shot_tick,
}
use ph_k_battle_server.Coop.Setup.{is_finished}
use ph_k_battle_server.Coop.Mechanics.{start_if_ready, recompute_mechanics}
use ph_k_battle_server.Coop.Libm.{Libm}
use ph_k_battle_server.Coop.Spawn.{locks_seat, spawn_bullets_for_tick, advance_bullets}

unfoldable pub find_loadout : Bytes → List PlayerLoadoutSpec → Option PlayerLoadoutSpec
find_loadout player_id [] = none
find_loadout player_id (spec ∷ loadouts) =
    if bytes_eq spec.player_id player_id then some spec else find_loadout player_id loadouts

-- A damage that the tables know.
abbrev pub known_damage : ℤ → Option ℕ
known_damage (pos n) = some n
known_damage (negsuc n) = none

-- The loop over the bomb table, up to its `break`.
unfoldable pub bomb_damage : Bytes → List WeaponSpec → ℕ
bomb_damage bomb_type [] = 0
bomb_damage bomb_type (bomb ∷ table) =
    if bytes_eq bomb_type bomb.name
    then elim (known_damage bomb.damage) [ some n ↦ n | none ↦ bomb_damage bomb_type table ]
    else bomb_damage bomb_type table

-- The damage of one tick of fire.
unfoldable pub tick_damage : List WeaponSpec → CoopBossSimulation → BattleInput → Bytes → ℕ
unfolding find_loadout bomb_damage
tick_damage bomb_table s input player_id =
    let shot : ℕ = elim (find player_id s.shot_by_player) [
      | none ↦ damage_per_shot_tick
      | some spec ↦ elim (known_damage spec.damage) [ some n ↦ n | none ↦ damage_per_shot_tick ]
    ] in
    let bomb : ℕ = elim (find_loadout player_id s.config.loadouts) [
      | none ↦ 0
      | some loadout ↦ bomb_damage loadout.bomb_type bomb_table
    ] in
    if input.bomb then shot + bomb else shot

abbrev pub has_bit : ℕ → ℕ → Bool
has_bit bits mask = not (bit_and bits mask == 0)

unfoldable pub velocity : ℕ → ℤ × ℤ
unfolding ◌+ℤ◌ ◌-ℤ◌
velocity bits =
    let vy = if has_bit bits 1 then pos 0 -ℤ move_milli else pos 0 in
    let vx = if has_bit bits 2 then pos 0 +ℤ move_milli else pos 0 in
    let vy = if has_bit bits 4 then vy +ℤ move_milli else vy in
    let vx = if has_bit bits 8 then vx -ℤ move_milli else vx in (vx, vy)

-- The input that counts for the tick, which becomes the player's last one if it is new.
unfoldable pub take_input : Option (Map Bytes BattleInput) → PlayerState → PlayerState
take_input none player = player
take_input (some inputs) player = elim (find player.player_id inputs) [
  | none ↦ player
  | some input ↦ record player { last_input = input }
]

unfoldable pub move_player : Bool → PlayerState → PlayerState
unfolding ◌+ℤ◌ clamp
move_player true player = record player { vx_milli = pos 0; vy_milli = pos 0 }
move_player false player =
    let (vx, vy) = velocity player.last_input.direction_bits in
    record player {
      vx_milli = vx;
      vy_milli = vy;
      x_milli = clamp (player.x_milli +ℤ vx) minus_arena_half_milli arena_half_milli;
      y_milli = clamp (player.y_milli +ℤ vy) minus_arena_half_milli arena_half_milli;
    }

abbrev pub is_shielded : ℕ → ℕ → Bool
is_shielded shield_dir_mask seat = has_bit shield_dir_mask (2 ^ seat)

-- What one player's fire takes from the boss, of its hit points so far.
unfoldable pub shot_damage : List WeaponSpec → CoopBossSimulation → ℕ → PlayerState → ℕ → ℕ
unfolding tick_damage
shot_damage bomb_table s seat player boss_hp =
    if not (locks_seat s.lock_dir seat)
      && (player.last_input.shoot && (ltb 0 boss_hp && not (is_shielded s.shield_dir_mask seat)))
    then min (tick_damage bomb_table s player.last_input player.player_id) boss_hp
    else 0

-- One round of the loop over the players.
unfoldable pub player_turn :
    List WeaponSpec
    → CoopBossSimulation
    → Option (Map Bytes BattleInput)
    → ℕ
    → PlayerState
    → ℕ
    → PlayerState × ℕ
player_turn bomb_table s inputs seat player boss_hp =
    if player.connected
    then (let moved = move_player (locks_seat s.lock_dir seat) (take_input inputs player) in
        let damage = shot_damage bomb_table s seat moved boss_hp in
        (record moved { damage_dealt = moved.damage_dealt + damage }, boss_hp - damage))
    else (player, boss_hp)

unfoldable pub players_turn :
    List WeaponSpec
    → CoopBossSimulation
    → Option (Map Bytes BattleInput)
    → ℕ
    → Map Bytes PlayerState
    → ℕ
    → Map Bytes PlayerState × ℕ
players_turn bomb_table s inputs seat [] boss_hp = ([], boss_hp)
players_turn bomb_table s inputs seat ((id, player) ∷ rest) boss_hp =
    let (player', hp) = player_turn bomb_table s inputs seat player boss_hp in
    let (rest', hp') = players_turn bomb_table s inputs (suc seat) rest hp in
    ((id, player') ∷ rest', hp')

unfoldable pub apply_player_tick : List WeaponSpec → CoopBossSimulation → ℕ → CoopBossSimulation
apply_player_tick bomb_table s tick =
    let (players, hp) =
      players_turn bomb_table s (find tick s.pending_inputs_by_tick) 0 s.players s.boss_hp in
    record s {
      players = players;
      boss_hp = hp;
      pending_inputs_by_tick = erase tick s.pending_inputs_by_tick;
    }

unfoldable pub check_boss_defeated : CoopBossSimulation → CoopBossSimulation
check_boss_defeated s =
    if is_finished s.state
    then s
    else (if (s.boss_hp == 0) && ltb 0 s.config.boss_max_hp
        then record s { state = finished }
        else s)

abbrev pub is_running : CoopBossState → Bool
is_running running = true
is_running _ = false

unfoldable pub boss_defeated : CoopBossSimulation → Bool
boss_defeated s = is_finished s.state && s.boss_hp == 0

module _ (m : Libm) (bomb_table : List WeaponSpec) where
  -- The five calls of a running tick.
  unfoldable pub running_tick : CoopBossSimulation → ℕ → CoopBossSimulation
  running_tick s tick = check_boss_defeated (
      advance_bullets (
        spawn_bullets_for_tick m (apply_player_tick bomb_table (recompute_mechanics s tick) tick)
          tick))

  unfoldable pub tick : CoopBossSimulation → CoopBossSimulation
  tick s =
      let started = start_if_ready s in
      let next = s.current_tick + 1 in
      if is_finished s.state
      then s
      else record (if is_running started.state then running_tick started next else started) {
        current_tick = next;
      }
