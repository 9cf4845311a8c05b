-- ===== src/Coop.antt =====
-- The cooperative boss of include/phk/battle/coop_boss.hpp and src/coop_boss.cpp: its constants
-- and state. Positions are signed thousandths of a pixel; hit points and ticks are unbounded
-- numbers, and positions are integers without a width.
pub mod Setup
pub mod Mechanics
pub mod Libm
pub mod Spawn
pub mod Tick
pub mod Accounts
pub mod Invariant
pub mod Runs
pub mod Replay
pub mod Snapshot
pub mod Progress
mod Tests
use Prim.Native.String.{String}
use ph_k_battle_server.Base.{
  ℕ, Bool, true, false, List, [], ◌∷◌, Map, Bytes, codes, bytes_eq, Option, ◌≡◌,
}
use ph_k_battle_server.Base.Int.{ℤ, pos, negsuc}
use ph_k_battle_server.Protocol.{VersionStamp}

abbrev pub arena_half_milli : ℤ
arena_half_milli = pos 90000

abbrev pub minus_arena_half_milli : ℤ
minus_arena_half_milli = negsuc 89999

abbrev pub boss_hp_per_player : ℕ
boss_hp_per_player = 5000

abbrev pub damage_per_shot_tick : ℕ
damage_per_shot_tick = 10

abbrev pub move_milli : ℤ
move_milli = pos 3000

abbrev pub max_players : ℕ
max_players = 4

abbrev pub min_players : ℕ
min_players = 2

abbrev pub shield_window_ticks : ℕ
shield_window_ticks = 180

abbrev pub fan_interval_ticks : ℕ
fan_interval_ticks = 90

abbrev pub fan_bullets_per_dir : ℕ
fan_bullets_per_dir = 7

abbrev pub cannon_interval_ticks : ℕ
cannon_interval_ticks = 600

abbrev pub cannon_start_offset : ℕ
cannon_start_offset = 450

abbrev pub cannon_duration_ticks : ℕ
cannon_duration_ticks = 150

abbrev pub spiral_window_ticks : ℕ
spiral_window_ticks = 300

abbrev pub spiral_every_ticks : ℕ
spiral_every_ticks = 6

abbrev pub max_bullets : ℕ
max_bullets = 2048

-- `kCardCastEventRowLimit` of include/phk/battle/simulation.hpp.
abbrev pub card_cast_event_row_limit : ℕ
card_cast_event_row_limit = 1024

-- `BattleInput` of include/phk/battle/protocol.hpp. `direction_bits` is a `std::uint32_t`.
pub record BattleInput : Type 0 where
  pub version : VersionStamp
  pub match_id : Bytes
  pub player_id : Bytes
  pub tick : ℕ
  pub seq : ℕ
  pub direction_bits : ℕ
  pub slow : Bool
  pub shoot : Bool
  pub bomb : Bool
  pub card_slot : ℤ
  pub mode_action_id : Bytes
  pub card_draw : Bool
  pub card_select : ℤ
  pub card_use : Bool

-- `CardCastEvent` of include/phk/battle/simulation.hpp.
pub record CardCastEvent : Type 0 where
  pub event_type : Bytes
  pub tick : ℤ
  pub player_id : Bytes
  pub card_id : Bytes
  pub event_value : ℤ
  pub target_user_id : Bytes
  pub slot : ℤ
  pub reason : Bytes

-- `PlayerLoadoutSpec` of include/phk/battle/boss_race.hpp, and the name and damage of the rows of
-- the shot and bomb tables that the mode reads. A damage of -1 is not known.
pub record PlayerLoadoutSpec : Type 0 where
  pub player_id : Bytes
  pub character_id : Bytes
  pub shot_type : Bytes
  pub bomb_type : Bytes

pub record WeaponSpec : Type 0 where
  pub name : Bytes
  pub damage : ℤ

pub data CoopBossState : Type 0 where
  waiting running finished : CoopBossState

pub record CoopBossConfig : Type 0 where
  pub match_id : Bytes
  pub mode_id : Bytes
  pub ruleset_version : Bytes
  pub match_seed : ℤ
  pub boss_max_hp : ℕ
  pub tick_rate_hz : ℕ
  pub difficulty : ℤ
  pub loadouts : List PlayerLoadoutSpec

pub record PlayerState : Type 0 where
  pub player_id : Bytes
  pub x_milli : ℤ
  pub y_milli : ℤ
  pub vx_milli : ℤ
  pub vy_milli : ℤ
  pub last_seq : ℕ
  pub damage_dealt : ℕ
  pub connected : Bool
  pub last_input : BattleInput

pub data CoopBulletKind : Type 0 where
  fan cannon spiral : CoopBulletKind

pub record LiveBullet : Type 0 where
  pub bullet_id : Bytes
  pub owner_player_id : Bytes
  pub x_milli : ℤ
  pub y_milli : ℤ
  pub vx_milli : ℤ
  pub vy_milli : ℤ
  pub radius_milli : ℕ
  pub kind : CoopBulletKind
  pub pattern_id : Bytes

-- `CoopBossSimulation`. `players` is in the order of the keys, which is the order of the seats.
pub record CoopBossSimulation : Type 0 where
  pub config : CoopBossConfig
  pub current_tick : ℕ
  pub next_bullet_id : ℕ
  pub state : CoopBossState
  pub boss_hp : ℕ
  pub players : Map Bytes PlayerState
  pub pending_inputs_by_tick : Map ℕ (Map Bytes BattleInput)
  pub live_bullets : List LiveBullet
  pub shot_by_player : Map Bytes WeaponSpec
  pub shield_dir_mask : ℕ
  pub lock_dir : Option ℕ
  pub lock_until_tick : ℕ
  pub spiral_active : Bool
  pub events : List CardCastEvent
