-- ===== src/Coop/Setup.antt =====
-- The operations of src/coop_boss.cpp outside the tick: the constructor, the players, the inputs and
-- the queue of events.
use Prim.Native.Nat.{bit_and}
use ph_k_battle_server.Base.{
  ℕ, ◌-◌, Bool, true, false, not, ◌&&◌, ◌||◌, List, [], ◌∷◌, ◌++◌, Option, none, some, ltb, leb,
  ◌==◌, if◌then◌else◌, length, take, drop, Map, find, insert, Bytes, codes, bytes_eq, bytes_key,
  nat_key, is_empty, is_some,
}
use ph_k_battle_server.Base.Int.{ℤ, pos, negsuc, clamp}
use ph_k_battle_server.Protocol.{VersionStamp, is_compatible, battle_api_version_supported}
use ph_k_battle_server.Coop.{
  BattleInput, CardCastEvent, PlayerLoadoutSpec, WeaponSpec, CoopBossState, waiting, finished,
  CoopBossConfig, PlayerState, CoopBossSimulation, arena_half_milli, minus_arena_half_milli,
  max_players, card_cast_event_row_limit,
}

-- `VersionStamp{}`: the versions of the build, of which the manifest's text is a parameter.
abbrev pub default_stamp : Bytes → Bytes → VersionStamp
default_stamp business_api_version ruleset_version = record {
  protocol_version = 1;
  business_api_version = business_api_version;
  battle_api_version = battle_api_version_supported;
  ruleset_version = ruleset_version;
}

-- `BattleInput{}` with the match and player that `AddPlayer` writes.
abbrev pub neutral_input : VersionStamp → Bytes → Bytes → BattleInput
neutral_input stamp match_id player_id = record {
  version = stamp;
  match_id = match_id;
  player_id = player_id;
  tick = 0;
  seq = 0;
  direction_bits = 0;
  slow = false;
  shoot = false;
  bomb = false;
  card_slot = negsuc 0;
  mode_action_id = [];
  card_draw = false;
  card_select = negsuc 0;
  card_use = false;
}

-- The inner loop of `ResolveLoadouts`: the first row of the table with the name.
unfoldable pub find_weapon : Bytes → List WeaponSpec → Option WeaponSpec
find_weapon name [] = none
find_weapon name (spec ∷ table) =
    if bytes_eq name spec.name then some spec else find_weapon name table

resolve_loadout : List WeaponSpec → Map Bytes WeaponSpec → PlayerLoadoutSpec → Map Bytes WeaponSpec
unfolding find_weapon
resolve_loadout shot_table shots loadout =
    if is_empty loadout.player_id || is_empty loadout.shot_type
    then shots
    else elim (find_weapon loadout.shot_type shot_table) [
      | none ↦ shots
      | some spec ↦ insert loadout.player_id spec shots
    ]

unfoldable pub resolve_loadouts :
    List WeaponSpec → Map Bytes WeaponSpec → List PlayerLoadoutSpec → Map Bytes WeaponSpec
unfolding resolve_loadout
resolve_loadouts shot_table shots [] = shots
resolve_loadouts shot_table shots (loadout ∷ loadouts) =
    resolve_loadouts shot_table (resolve_loadout shot_table shots loadout) loadouts

-- The constructor.
unfoldable pub new_simulation : List WeaponSpec → CoopBossConfig → CoopBossSimulation
unfolding resolve_loadouts
new_simulation shot_table config = record {
  config = record config {
    mode_id = if is_empty config.mode_id then codes "coop_boss" else config.mode_id;
    tick_rate_hz = if config.tick_rate_hz == 0 then 64 else config.tick_rate_hz;
  };
  current_tick = 0;
  next_bullet_id = 1;
  state = waiting;
  boss_hp = 0;
  players = [];
  pending_inputs_by_tick = [];
  live_bullets = [];
  shot_by_player = resolve_loadouts shot_table [] config.loadouts;
  shield_dir_mask = 0;
  lock_dir = none;
  lock_until_tick = 0;
  spiral_active = false;
  events = [];
}

-- The record that `AddPlayer` emplaces.
abbrev pub new_player : VersionStamp → Bytes → Bytes → ℤ → ℤ → PlayerState
new_player stamp match_id player_id x_milli y_milli = record {
  player_id = player_id;
  x_milli = clamp x_milli minus_arena_half_milli arena_half_milli;
  y_milli = clamp y_milli minus_arena_half_milli arena_half_milli;
  vx_milli = pos 0;
  vy_milli = pos 0;
  last_seq = 0;
  damage_dealt = 0;
  connected = true;
  last_input = neutral_input stamp match_id player_id;
}

unfoldable pub add_player :
    VersionStamp → CoopBossSimulation → Bytes → ℤ → ℤ → CoopBossSimulation × Bool
add_player stamp s player_id x_milli y_milli =
    if is_empty player_id || leb max_players (length s.players)
    then (s, false)
    else (if is_some (find player_id s.players) then (s, false) else (
      record s {
        players =
            insert player_id (new_player stamp s.config.match_id player_id x_milli y_milli)
              s.players;
      },
      true,
    ))

unfoldable pub set_player_connected : CoopBossSimulation → Bytes → Bool → CoopBossSimulation × Bool
set_player_connected s player_id connected = elim (find player_id s.players) [
  | none ↦ (s, false)
  | some player ↦ (
    record s { players = insert player_id (record player { connected = connected }) s.players },
    true,
  )
]

unfoldable pub push_event : CoopBossSimulation → CardCastEvent → CoopBossSimulation
push_event s row =
    if leb card_cast_event_row_limit (length s.events)
    then s
    else record s { events = s.events ++ row ∷ [] }

unfoldable pub take_events : CoopBossSimulation → ℕ → CoopBossSimulation × List CardCastEvent
take_events s limit =
    if limit == 0 || leb (length s.events) limit
    then (record s { events = [] }, s.events)
    else (record s { events = drop limit s.events }, take limit s.events)

unfoldable pub restore_events : CoopBossSimulation → List CardCastEvent → CoopBossSimulation
restore_events s rows = record s { events = rows ++ s.events }

abbrev pub is_finished : CoopBossState → Bool
is_finished finished = true
is_finished _ = false

-- The tests of `SubmitInput` against the player's record.
unfoldable pub acceptable : CoopBossSimulation → BattleInput → PlayerState → Bool
acceptable s input player =
    player.connected
    && (not (input.seq == 0 || leb input.seq player.last_seq)
        && (ltb s.current_tick input.tick
            && (leb (input.tick - s.current_tick) 8
                && bit_and input.direction_bits 0xfffffff0 == 0)))

-- `pending_inputs_by_tick_[tick][player_id] = input`.
unfoldable pub buffer_input :
    Map ℕ (Map Bytes BattleInput) → BattleInput → Map ℕ (Map Bytes BattleInput)
buffer_input pending input =
    let at_tick : Map Bytes BattleInput = elim (find input.tick pending) [
      | none ↦ []
      | some inputs ↦ inputs
    ] in
    insert input.tick (insert input.player_id input at_tick) pending

unfoldable pub submit_input : CoopBossSimulation → BattleInput → CoopBossSimulation × Bool
unfolding acceptable buffer_input
submit_input s input =
    if is_finished s.state
    then (s, false)
    else (if not (is_compatible input.version) || not (bytes_eq input.match_id s.config.match_id)
        then (s, false)
        else elim (find input.player_id s.players) [
          | none ↦ (s, false)
          | some player ↦
              if acceptable s input player
              then (
                record s {
                  players =
                      insert input.player_id (record player { last_seq = input.seq }) s.players;
                  pending_inputs_by_tick = buffer_input s.pending_inputs_by_tick input;
                },
                true,
              )
              else (s, false)
        ])
