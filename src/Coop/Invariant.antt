-- ===== src/Coop/Invariant.antt =====
-- The invariant of src/coop_boss.cpp and its operations as one step relation: every operation
-- keeps the players in the arena and in order, the account of the boss's hit points balanced, and
-- the bullets few and in the field.
pub mod Ticks
use ph_k_battle_server.Base.{
  ℕ, zero, suc, ◌+◌, ◌-◌, ◌*◌, ◌≤◌, ◌<◌, ◌≡◌, refl, sym, subst, ap, ◌∙◌, ◌⊎◌, inl, inr, Bool, true,
  false, ◌&&◌, ◌||◌, not, List, [], ◌∷◌, Option, none, some, ltb, leb, ◌==◌, if◌then◌else◌, arith,
  length, All, Map, Bytes, bytes_eq, bytes_key, find, insert, Option-cases, Bool-cases, IsOrdered,
  insert-IsOrdered, length-insert-le, length-insert_found, All-insert, find-All, is_some, is_empty,
}
use ph_k_battle_server.Base.Int.{ℤ, pos, negsuc, clamp, clamp_bounds, ◌≤ℤ◌}
use ph_k_battle_server.Protocol.{VersionStamp, is_compatible}
use ph_k_battle_server.Coop.{
  BattleInput, CardCastEvent, WeaponSpec, CoopBossState, waiting, running, finished, CoopBossConfig,
  PlayerState, CoopBossSimulation, LiveBullet, arena_half_milli, minus_arena_half_milli,
  max_players,
}
use ph_k_battle_server.Coop.Setup.{
  new_simulation, add_player, set_player_connected, push_event, take_events, restore_events,
  submit_input, new_player, acceptable, buffer_input, is_finished,
}
use ph_k_battle_server.Coop.Libm.{Libm}
use ph_k_battle_server.Coop.Mechanics.{start_if_ready, recompute_mechanics}
use ph_k_battle_server.Coop.Spawn.{spawn_bullets_for_tick, advance_bullets, moved}
use ph_k_battle_server.Coop.Spawn.Laws.{
  spawn_bullets_for_tick-Kept, IsInField, moved-IsInField, length-moved-le, bullet_bound,
}
use ph_k_battle_server.Coop.Tick.{
  players_turn, apply_player_tick, check_boss_defeated, running_tick, tick, is_running,
}
use ph_k_battle_server.Coop.Accounts.{
  total_damage, damage_of, total_damage-insert, IsInArena, EveryInArena, players_turn-damage,
  players_turn-EveryInArena, length-players_turn, players_turn-IsOrdered,
}

abbrev pub IsSeated : Map Bytes PlayerState → Type 0
IsSeated players = IsOrdered players × (length players ≤ 4) × EveryInArena players

-- The books of the match: all hit points are with the boss or on the players' accounts.
abbrev pub IsBalanced : CoopBossState → ℕ → ℕ → ℕ → Type 0
IsBalanced waiting hp max total = (hp ≡ 0) × (total ≡ 0)
IsBalanced running hp max total = (0 < hp) × (hp + total ≡ max)
IsBalanced finished hp max total = (hp ≡ 0) × (0 < max) × (total ≡ max)

abbrev pub IsClear : List LiveBullet → Type 0
IsClear bullets = (length bullets ≤ bullet_bound) × All IsInField bullets

abbrev pub IsValid : CoopBossSimulation → Type 0
IsValid s =
    IsSeated s.players
    × IsBalanced s.state s.boss_hp s.config.boss_max_hp (total_damage s.players)
    × IsClear s.live_bullets

pub new_simulation-IsValid :
    (shot_table : List WeaponSpec) (config : CoopBossConfig)
    → IsValid (new_simulation shot_table config)
unfolding new_simulation
new_simulation-IsValid shot_table config = ((tt, omega arith, tt), (refl, refl), (omega arith, tt))

-- A player whose account stays may be written anew.
insert-IsSeated :
    (id : Bytes) (player old : PlayerState) (players : Map Bytes PlayerState)
    → find id players ≡ some old
    → IsInArena player
    → player.damage_dealt ≡ old.damage_dealt
    → IsSeated players
    → IsSeated (insert id player players)
      × (total_damage (insert id player players) ≡ total_damage players)
insert-IsSeated id player old players known inside same (ordered, few, arena) = (
  (
    insert-IsOrdered id player players ordered,
    omega (arith, length-insert_found id player old players ordered known),
    All-insert (λ entry. IsInArena entry.1) id player players inside arena,
  ),
  (ground (arith, total_damage-insert id player players ordered)),
)

insert-IsSeated_new :
    (id : Bytes) (player : PlayerState) (players : Map Bytes PlayerState)
    → find id players ≡ none
    → length players < 4
    → IsInArena player
    → player.damage_dealt ≡ 0
    → IsSeated players
    → IsSeated (insert id player players)
      × (total_damage (insert id player players) ≡ total_damage players)
insert-IsSeated_new id player players unknown room inside none_yet (ordered, few, arena) = (
  (
    insert-IsOrdered id player players ordered,
    omega (arith, length-insert-le id player players),
    All-insert (λ entry. IsInArena entry.1) id player players inside arena,
  ),
  (ground (arith, total_damage-insert id player players ordered)),
)

new_player-IsInArena :
    (stamp : VersionStamp) (match_id id : Bytes) (x y : ℤ)
    → IsInArena (new_player stamp match_id id x y)
new_player-IsInArena stamp match_id id x y =
    let (x_lo, x_hi) = clamp_bounds x minus_arena_half_milli arena_half_milli (omega arith) in
    let (y_lo, y_hi) = clamp_bounds y minus_arena_half_milli arena_half_milli (omega arith) in
    (x_lo, x_hi, y_lo, y_hi)

-- The two outcomes of `AddPlayer`, and of the other operations below.
pub add_player_cases :
    (stamp : VersionStamp) (s : CoopBossSimulation) (id : Bytes) (x y : ℤ)
    → (add_player stamp s id x y ≡ (s, false))
      ⊎ ((find id s.players ≡ none)
          × (length s.players < 4)
          × (add_player stamp s id x y ≡ (
            record s { players = insert id (new_player stamp s.config.match_id id x y) s.players },
            true,
          )))
unfolding add_player
add_player_cases stamp s id x y = ground arith

pub set_player_connected_cases :
    (s : CoopBossSimulation) (id : Bytes) (connected : Bool)
    → (set_player_connected s id connected ≡ (s, false))
      ⊎ ((player : PlayerState) × ((find id s.players ≡ some player)
            × (set_player_connected s id connected ≡ (
              record s { players = insert id (record player { connected = connected }) s.players },
              true,
            ))))
unfolding set_player_connected
set_player_connected_cases s id connected = elim (Option-cases (find id s.players)) [
  | inl unknown ↦ inl (ground arith)
  | inr (player, known) ↦ inr (player, (known, ground arith))
]

pub submit_input_cases :
    (s : CoopBossSimulation) (input : BattleInput)
    → (submit_input s input ≡ (s, false))
      ⊎ ((player : PlayerState) × ((find input.player_id s.players ≡ some player)
            × (is_finished s.state ≡ false)
            × (acceptable s input player ≡ true)
            × (is_compatible input.version ≡ true)
            × (bytes_eq input.match_id s.config.match_id ≡ true)
            × (submit_input s input ≡ (
              record s {
                players = insert input.player_id (record player { last_seq = input.seq }) s.players;
                pending_inputs_by_tick = buffer_input s.pending_inputs_by_tick input;
              },
              true,
            ))))
unfolding submit_input
submit_input_cases s input = elim (Option-cases (find input.player_id s.players)) [
  | inl unknown ↦ inl (ground arith)
  | inr (player, known) ↦
      elim (Bool-cases (
        is_finished s.state
        || (not (is_compatible input.version)
            || (not (bytes_eq input.match_id s.config.match_id)
                || not (acceptable s input player))))) [
                  | inl refused ↦ inl (ground arith)
                  | inr passed ↦ inr (
                    player,
                    (known, ground arith, ground arith, ground arith, ground arith, ground arith),
                  )
                ]
]

with_players-IsValid :
    (s : CoopBossSimulation) (players : Map Bytes PlayerState)
    → IsValid s
    → IsSeated players × (total_damage players ≡ total_damage s.players)
    → IsValid (record s { players = players })
with_players-IsValid s players (seated, balanced, clear) (seated', same) =
    (seated', subst (IsBalanced s.state s.boss_hp s.config.boss_max_hp) (sym same) balanced, clear)

pub add_player-IsValid :
    (stamp : VersionStamp) (s : CoopBossSimulation) (id : Bytes) (x y : ℤ)
    → IsValid s
    → IsValid (add_player stamp s id x y).0
add_player-IsValid stamp s id x y valid = elim (add_player_cases stamp s id x y) [
  | inl same ↦ subst (λ r. IsValid r.0) (sym same) valid
  | inr (unknown, room, added) ↦
      let player = new_player stamp s.config.match_id id x y in
      subst (λ r. IsValid r.0) (sym added)
        (with_players-IsValid s (insert id player s.players) valid (
          insert-IsSeated_new id player s.players unknown room
            (new_player-IsInArena stamp s.config.match_id id x y) refl valid.0))
]

pub set_player_connected-IsValid :
    (s : CoopBossSimulation) (id : Bytes) (connected : Bool)
    → IsValid s
    → IsValid (set_player_connected s id connected).0
set_player_connected-IsValid s id connected valid =
    elim (set_player_connected_cases s id connected) [
      | inl same ↦ subst (λ r. IsValid r.0) (sym same) valid
      | inr (player, (known, written)) ↦
          let player' = record player { connected = connected } in
          subst (λ r. IsValid r.0) (sym written)
            (with_players-IsValid s (insert id player' s.players) valid (
              insert-IsSeated id player' player s.players known
                (find-All IsInArena id player s.players known valid.0.2) refl valid.0))
    ]

pub submit_input-IsValid :
    (s : CoopBossSimulation) (input : BattleInput) → IsValid s → IsValid (submit_input s input).0
submit_input-IsValid s input valid = elim (submit_input_cases s input) [
  | inl same ↦ subst (λ r. IsValid r.0) (sym same) valid
  | inr (player, (known, _, _, _, _, written)) ↦
      let player' = record player { last_seq = input.seq } in
      subst (λ r. IsValid r.0) (sym written)
        (with_players-IsValid s (insert input.player_id player' s.players) valid (
          insert-IsSeated input.player_id player' player s.players known
            (find-All IsInArena input.player_id player s.players known valid.0.2) refl valid.0))
]
