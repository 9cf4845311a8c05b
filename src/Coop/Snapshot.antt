-- ===== src/Coop/Snapshot.antt =====
-- The reading side of src/coop_boss.cpp: the geometry of the seats, `Snapshot` and
-- `CanonicalStateHash`. The parts of the snapshot that this mode leaves empty (chains, hand,
-- events and their counters) are not kept.
pub mod Laws
use Prim.Native.Nat.{bit_xor}
use ph_k_battle_server.Base.{
  ℕ, zero, suc, ◌+◌, ◌*◌, ◌/◌, ◌%◌, ◌^◌, ◌≡◌, Bool, true, false, not, List, [], ◌∷◌, ◌++◌, map,
  Option, none, some, leb, ◌==◌, if◌then◌else◌, length, Map, Bytes, codes, bytes_eq,
}
use ph_k_battle_server.Base.Int.{ℤ, pos, negsuc}
use ph_k_battle_server.Base.Decimal.{to_string, to_string_ℤ}
use ph_k_battle_server.Protocol.Nonce.{hex_digits}
use ph_k_battle_server.Coop.{
  CoopBossState, waiting, running, finished, CoopBulletKind, fan, cannon, spiral, PlayerState,
  LiveBullet, CoopBossSimulation,
}
use ph_k_battle_server.Coop.Spawn.{locks_seat}
use ph_k_battle_server.Coop.Tick.{is_shielded}

abbrev pub coop_player_spawn_milli : ℕ
coop_player_spawn_milli = 70200

-- (x, y) of the seat's spawn.
unfoldable pub coop_seat_spawn_milli : ℕ → ℕ → ℤ × ℤ
coop_seat_spawn_milli seat_count seat =
    if leb seat_count 2
    then (pos 0, if seat == 0 then pos coop_player_spawn_milli else negsuc 70199)
    else (if seat % 4 == 0
        then (pos 0, pos coop_player_spawn_milli)
        else (if seat % 4 == 1
            then (pos coop_player_spawn_milli, pos 0)
            else (if seat % 4 == 2 then (pos 0, negsuc 70199) else (negsuc 70199, pos 0))))

unfoldable pub coop_seat_facing_milli_deg : ℕ → ℕ → ℕ
coop_seat_facing_milli_deg seat_count seat =
    if leb seat_count 2
    then (if seat == 0 then 0 else 18000)
    else (if seat % 4 == 0
        then 0
        else (if seat % 4 == 1 then 27000 else (if seat % 4 == 2 then 18000 else 9000)))

unfoldable pub is_coop_boss_mode : Bytes → Bool
is_coop_boss_mode mode_id = bytes_eq mode_id (codes "coop_boss")

unfoldable pub state_name : CoopBossState → Bytes
state_name waiting = codes "waiting"
state_name running = codes "running"
state_name finished = codes "finished"

-- The loop of `SeatOf` from a seat on; an absent player has seat 0.
unfoldable pub seat_from : ℕ → Bytes → Map Bytes PlayerState → ℕ
seat_from seat player_id [] = 0
seat_from seat player_id ((id, player) ∷ rest) =
    let later = seat_from (suc seat) player_id rest in if bytes_eq id player_id then seat else later

unfoldable pub seat_of : CoopBossSimulation → Bytes → ℕ
seat_of s player_id = seat_from 0 player_id s.players

pub record CoopBossPlayerSnapshot : Type 0 where
  pub player_id : Bytes
  pub seat : ℕ
  pub x_milli : ℤ
  pub y_milli : ℤ
  pub facing_millideg : ℕ
  pub damage_dealt : ℕ
  pub connected : Bool
  pub locked : Bool
  pub shielded : Bool
  pub vx_milli : ℤ
  pub vy_milli : ℤ
  pub lives : ℕ
  pub bombs : ℕ
  pub invulnerable_until_tick : ℕ
  pub graze : ℕ

pub record CoopBossBullet : Type 0 where
  pub bullet_id : Bytes
  pub owner_player_id : Bytes
  pub x_milli : ℤ
  pub y_milli : ℤ
  pub vx_milli : ℤ
  pub vy_milli : ℤ
  pub radius_milli : ℕ
  pub kind : ℕ
  pub pattern_id : Bytes
  pub chain_id : ℕ
  pub generation : ℕ
  pub hidden : Bool

pub record CoopBossSnapshot : Type 0 where
  pub tick : ℕ
  pub state : CoopBossState
  pub difficulty : ℤ
  pub boss_hp : ℕ
  pub boss_max_hp : ℕ
  pub seat_count : ℕ
  pub shield_dir_mask : ℕ
  pub lock_dir : ℤ
  pub lock_until_tick : ℕ
  pub spiral_active : Bool
  pub players : List CoopBossPlayerSnapshot
  pub bullets : List CoopBossBullet
  pub state_hash : Bytes

abbrev pub kind_number : CoopBulletKind → ℕ
kind_number fan = 0
kind_number cannon = 1
kind_number spiral = 2

abbrev pub state_number : CoopBossState → ℕ
state_number waiting = 0
state_number running = 1
state_number finished = 2

-- `lock_dir_`, where -1 is no seat.
abbrev pub dir_number : Option ℕ → ℤ
dir_number none = negsuc 0
dir_number (some dir) = pos dir

unfoldable pub fnv1a32 : ℕ → Bytes → ℕ
fnv1a32 hash [] = hash
fnv1a32 hash (byte ∷ rest) = fnv1a32 (bit_xor hash byte * 16777619 % 4294967296) rest

unfoldable pub mix32 : ℕ → ℕ
mix32 value =
    let v1 = bit_xor value (value / 2 ^ 16) * 0x7feb352d % 2 ^ 32 in
    let v2 = bit_xor v1 (v1 / 2 ^ 15) * 0x846ca68b % 2 ^ 32 in bit_xor v2 (v2 / 2 ^ 16)

unfoldable pub player_material : Map Bytes PlayerState → Bytes
player_material [] = []
player_material ((id, player) ∷ rest) =
    codes "|p:"
    ++ id
    ++ b':' ∷ to_string_ℤ player.x_milli
    ++ b':' ∷ to_string_ℤ player.y_milli
    ++ b':' ∷ to_string player.damage_dealt
    ++ player_material rest

unfoldable pub bullet_material : List LiveBullet → Bytes
bullet_material [] = []
bullet_material (live ∷ rest) =
    b'|' ∷ live.bullet_id
    ++ b':' ∷ to_string_ℤ live.x_milli
    ++ b':' ∷ to_string_ℤ live.y_milli
    ++ b':' ∷ to_string_ℤ live.vx_milli
    ++ b':' ∷ to_string_ℤ live.vy_milli
    ++ b':' ∷ to_string (kind_number live.kind)
    ++ b':' ∷ to_string live.radius_milli
    ++ bullet_material rest

unfoldable pub canonical_material : CoopBossSimulation → Bytes
canonical_material s =
    s.config.match_id
    ++ b'|' ∷ to_string_ℤ s.config.match_seed
    ++ b'|' ∷ to_string s.current_tick
    ++ b'|' ∷ to_string (state_number s.state)
    ++ b'|' ∷ to_string s.boss_hp
    ++ b'|' ∷ to_string s.config.boss_max_hp
    ++ b'|' ∷ to_string s.shield_dir_mask
    ++ b'|' ∷ to_string_ℤ (dir_number s.lock_dir)
    ++ b'|' ∷ to_string s.lock_until_tick
    ++ b'|' ∷ (if s.spiral_active then codes "1" else codes "0")
    ++ player_material s.players
    ++ codes "|b:"
    ++ to_string (length s.live_bullets)
    ++ bullet_material s.live_bullets

unfoldable pub canonical_state_hash : CoopBossSimulation → Bytes
canonical_state_hash s =
    let a = fnv1a32 2166136261 (canonical_material s) in
    hex_digits 8 a ++ hex_digits 8 (mix32 (bit_xor a 0x9e3779b9))

unfoldable pub player_snapshot :
    CoopBossSimulation → ℕ → Bytes → PlayerState → CoopBossPlayerSnapshot
player_snapshot s seat id player = record {
  player_id = id;
  seat = seat;
  x_milli = player.x_milli;
  y_milli = player.y_milli;
  facing_millideg = coop_seat_facing_milli_deg (length s.players) seat;
  damage_dealt = player.damage_dealt;
  connected = player.connected;
  locked = locks_seat s.lock_dir seat;
  shielded = is_shielded s.shield_dir_mask seat;
  vx_milli = player.vx_milli;
  vy_milli = player.vy_milli;
  lives = 1;
  bombs = 3;
  invulnerable_until_tick = 0;
  graze = 0;
}

unfoldable pub player_snapshots :
    CoopBossSimulation → ℕ → Map Bytes PlayerState → List CoopBossPlayerSnapshot
player_snapshots s seat [] = []
player_snapshots s seat ((id, player) ∷ rest) =
    player_snapshot s seat id player ∷ player_snapshots s (suc seat) rest

unfoldable pub bullet_snapshot : LiveBullet → CoopBossBullet
bullet_snapshot live = record {
  bullet_id = live.bullet_id;
  owner_player_id = live.owner_player_id;
  x_milli = live.x_milli;
  y_milli = live.y_milli;
  vx_milli = live.vx_milli;
  vy_milli = live.vy_milli;
  radius_milli = live.radius_milli;
  kind = kind_number live.kind;
  pattern_id = live.pattern_id;
  chain_id = 0;
  generation = 0;
  hidden = false;
}

unfoldable pub snapshot : CoopBossSimulation → CoopBossSnapshot
snapshot s = record {
  tick = s.current_tick;
  state = s.state;
  difficulty = s.config.difficulty;
  boss_hp = s.boss_hp;
  boss_max_hp = s.config.boss_max_hp;
  seat_count = length s.players;
  shield_dir_mask = s.shield_dir_mask;
  lock_dir = dir_number s.lock_dir;
  lock_until_tick = s.lock_until_tick;
  spiral_active = s.spiral_active;
  players = player_snapshots s 0 s.players;
  bullets = map bullet_snapshot s.live_bullets;
  state_hash = canonical_state_hash s;
}
