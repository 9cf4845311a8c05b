-- ===== src/Coop/Accounts.antt =====
-- Sums and bounds over the players of src/coop_boss.cpp: what `insert` and one round of fire do.
use ph_k_battle_server.Base.{
  ℕ, suc, ◌+◌, ◌≤◌, ◌≡◌, refl, ap, ◌∙◌, Bool, true, false, List, [], ◌∷◌, Option, none, some, arith,
  length, All, Map, Bytes, bytes_key, find, insert, IsOrdered, Above, Above-trans, find-Above,
}
use ph_k_battle_server.Base.Int.{◌≤ℤ◌, ◌+ℤ◌, clamp_bounds}
use ph_k_battle_server.Coop.{
  BattleInput, WeaponSpec, PlayerState, CoopBossSimulation, arena_half_milli,
  minus_arena_half_milli,
}
use ph_k_battle_server.Coop.Spawn.{locks_seat}
use ph_k_battle_server.Coop.Tick.{
  take_input, move_player, shot_damage, player_turn, players_turn, velocity,
}

abbrev pub total_damage : Map Bytes PlayerState → ℕ
total_damage [] = 0
total_damage ((id, player) ∷ rest) = player.damage_dealt + total_damage rest

abbrev pub damage_of : Option PlayerState → ℕ
damage_of none = 0
damage_of (some player) = player.damage_dealt

-- A write replaces the player's share of the total.
pub total_damage-insert :
    (id : Bytes) (player : PlayerState) (m : Map Bytes PlayerState)
    → IsOrdered m
    → total_damage (insert id player m) + damage_of (find id m)
      ≡ total_damage m + player.damage_dealt
unfolding insert find
total_damage-insert id player [] o = omega arith
total_damage-insert id player ((j, other) ∷ m) o =
    ground (arith, total_damage-insert id player m o.1, find-Above id m, Above-trans id j m)

abbrev pub IsInArena : PlayerState → Type 0
IsInArena player =
    (minus_arena_half_milli ≤ℤ player.x_milli)
    × (player.x_milli ≤ℤ arena_half_milli)
    × (minus_arena_half_milli ≤ℤ player.y_milli)
    × (player.y_milli ≤ℤ arena_half_milli)

pub take_input-position :
    (inputs : Option (Map Bytes BattleInput)) (player : PlayerState)
    → ((take_input inputs player).x_milli ≡ player.x_milli)
      × ((take_input inputs player).y_milli ≡ player.y_milli)
      × ((take_input inputs player).damage_dealt ≡ player.damage_dealt)
unfolding take_input
take_input-position inputs player = ground arith

move_player-IsInArena :
    (locked : Bool) (player : PlayerState)
    → IsInArena player
    → IsInArena (move_player locked player)
unfolding move_player
move_player-IsInArena true player h = h
move_player-IsInArena false player h =
    let (vx, vy) = velocity player.last_input.direction_bits in
    let (x_lo, x_hi) =
      clamp_bounds (player.x_milli +ℤ vx) minus_arena_half_milli arena_half_milli (omega arith) in
    let (y_lo, y_hi) =
      clamp_bounds (player.y_milli +ℤ vy) minus_arena_half_milli arena_half_milli (omega arith) in
    (x_lo, x_hi, y_lo, y_hi)

move_player-damage :
    (locked : Bool) (player : PlayerState)
    → (move_player locked player).damage_dealt ≡ player.damage_dealt
unfolding move_player
move_player-damage true player = refl
move_player-damage false player = refl

shot_damage-le :
    (bombs : List WeaponSpec) (s : CoopBossSimulation) (seat : ℕ) (player : PlayerState) (hp : ℕ)
    → shot_damage bombs s seat player hp ≤ hp
unfolding shot_damage
shot_damage-le bombs s seat player hp = ground arith

abbrev after_move :
    CoopBossSimulation → Option (Map Bytes BattleInput) → ℕ → PlayerState → PlayerState
after_move s inputs seat player =
    move_player (locks_seat s.lock_dir seat) (take_input inputs player)

after_move-damage :
    (s : CoopBossSimulation) (inputs : Option (Map Bytes BattleInput)) (seat : ℕ)
    (player : PlayerState)
    → (after_move s inputs seat player).damage_dealt ≡ player.damage_dealt
after_move-damage s inputs seat player =
    move_player-damage (locks_seat s.lock_dir seat) (take_input inputs player)
    ∙ (take_input-position inputs player).2

after_move-IsInArena :
    (s : CoopBossSimulation) (inputs : Option (Map Bytes BattleInput)) (seat : ℕ)
    (player : PlayerState)
    → IsInArena player
    → IsInArena (after_move s inputs seat player)
after_move-IsInArena s inputs seat player h =
    let (same_x, same_y, _) = take_input-position inputs player in
    move_player-IsInArena (locks_seat s.lock_dir seat) (take_input inputs player)
      (rw (same_x, same_y) h)

-- A turn moves hit points of the boss into the damage of the player.
player_turn-damage :
    (bombs : List WeaponSpec) (s : CoopBossSimulation) (inputs : Option (Map Bytes BattleInput))
    (seat : ℕ) (player : PlayerState) (hp : ℕ)
    → let (player', hp') = player_turn bombs s inputs seat player hp in
      hp' + player'.damage_dealt ≡ hp + player.damage_dealt
unfolding player_turn
player_turn-damage bombs s inputs seat player hp = ground (
  arith,
  after_move-damage s inputs seat player,
  shot_damage-le bombs s seat (after_move s inputs seat player) hp,
)

player_turn-IsInArena :
    (bombs : List WeaponSpec) (s : CoopBossSimulation) (inputs : Option (Map Bytes BattleInput))
    (seat : ℕ) (player : PlayerState) (hp : ℕ)
    → IsInArena player
    → IsInArena (player_turn bombs s inputs seat player hp).0
unfolding player_turn
player_turn-IsInArena bombs s inputs seat player hp h =
    ground (arith, h, after_move-IsInArena s inputs seat player h)

abbrev pub EveryInArena : Map Bytes PlayerState → Type 0
EveryInArena = All (λ entry. IsInArena entry.1)

-- The round over all players: what the boss loses is what the players gain, nobody leaves the
-- arena, and the keys stay.
pub players_turn-damage :
    (bombs : List WeaponSpec) (s : CoopBossSimulation) (inputs : Option (Map Bytes BattleInput))
    (seat : ℕ) (players : Map Bytes PlayerState) (hp : ℕ)
    → let (players', hp') = players_turn bombs s inputs seat players hp in
      hp' + total_damage players' ≡ hp + total_damage players
unfolding players_turn
players_turn-damage bombs s inputs seat [] hp = refl
players_turn-damage bombs s inputs seat ((id, player) ∷ rest) hp =
    let (player', hp') = player_turn bombs s inputs seat player hp in
    omega (
      arith,
      player_turn-damage bombs s inputs seat player hp,
      players_turn-damage bombs s inputs (suc seat) rest hp',
    )

pub players_turn-EveryInArena :
    (bombs : List WeaponSpec) (s : CoopBossSimulation) (inputs : Option (Map Bytes BattleInput))
    (seat : ℕ) (players : Map Bytes PlayerState) (hp : ℕ)
    → EveryInArena players
    → EveryInArena (players_turn bombs s inputs seat players hp).0
unfolding players_turn
players_turn-EveryInArena bombs s inputs seat [] hp h = tt
players_turn-EveryInArena bombs s inputs seat ((id, player) ∷ rest) hp h = (
  player_turn-IsInArena bombs s inputs seat player hp h.0,
  players_turn-EveryInArena bombs s inputs (suc seat) rest
      (player_turn bombs s inputs seat player hp).1 h.1,
)

pub length-players_turn :
    (bombs : List WeaponSpec) (s : CoopBossSimulation) (inputs : Option (Map Bytes BattleInput))
    (seat : ℕ) (players : Map Bytes PlayerState) (hp : ℕ)
    → length (players_turn bombs s inputs seat players hp).0 ≡ length players
unfolding players_turn
length-players_turn bombs s inputs seat [] hp = refl
length-players_turn bombs s inputs seat ((id, player) ∷ rest) hp = ap suc (
    length-players_turn bombs s inputs (suc seat) rest
      (player_turn bombs s inputs seat player hp).1)

players_turn-Above :
    (bombs : List WeaponSpec) (s : CoopBossSimulation) (inputs : Option (Map Bytes BattleInput))
    (seat : ℕ) (players : Map Bytes PlayerState) (hp : ℕ) (id : Bytes)
    → Above id players
    → Above id (players_turn bombs s inputs seat players hp).0
unfolding players_turn
players_turn-Above bombs s inputs seat [] hp id h = tt
players_turn-Above bombs s inputs seat ((j, player) ∷ rest) hp id h = (
  h.0,
  players_turn-Above bombs s inputs (suc seat) rest (player_turn bombs s inputs seat player hp).1 id
      h.1,
)

pub players_turn-IsOrdered :
    (bombs : List WeaponSpec) (s : CoopBossSimulation) (inputs : Option (Map Bytes BattleInput))
    (seat : ℕ) (players : Map Bytes PlayerState) (hp : ℕ)
    → IsOrdered players
    → IsOrdered (players_turn bombs s inputs seat players hp).0
unfolding players_turn
players_turn-IsOrdered bombs s inputs seat [] hp h = tt
players_turn-IsOrdered bombs s inputs seat ((id, player) ∷ rest) hp h =
    let hp' = (player_turn bombs s inputs seat player hp).1 in
    (
      players_turn-Above bombs s inputs (suc seat) rest hp' id h.0,
      players_turn-IsOrdered bombs s inputs (suc seat) rest hp' h.1,
    )
