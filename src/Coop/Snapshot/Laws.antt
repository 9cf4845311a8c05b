-- ===== src/Coop/Snapshot/Laws.antt =====
-- What the snapshots of src/coop_boss.cpp tell the clients.
use ph_k_battle_server.Base.{
  ℕ, suc, ◌+◌, ◌≤◌, ◌<◌, ◌≡◌, ◌≢◌, refl, sym, ap, subst, List, [], ◌∷◌, map, arith, length, Map,
  Bytes, bytes_key,
}
use ph_k_battle_server.Protocol.{VersionStamp}
use ph_k_battle_server.Coop.{WeaponSpec, CoopBossConfig, PlayerState, CoopBossSimulation}
use ph_k_battle_server.Coop.Libm.{Libm}
use ph_k_battle_server.Coop.Setup.{new_simulation}
use ph_k_battle_server.Coop.Accounts.{total_damage}
use ph_k_battle_server.Coop.Invariant.{IsBalanced}
use ph_k_battle_server.Coop.Runs.{Operation, run, run-IsValid}
use ph_k_battle_server.Coop.Snapshot.{
  CoopBossPlayerSnapshot, player_snapshots, snapshot, bullet_snapshot, player_snapshot,
  coop_seat_spawn_milli,
}

abbrev pub snapshot_damage : List CoopBossPlayerSnapshot → ℕ
snapshot_damage [] = 0
snapshot_damage (player ∷ players) = player.damage_dealt + snapshot_damage players

player_snapshots-damage :
    (s : CoopBossSimulation) (seat : ℕ) (players : Map Bytes PlayerState)
    → (snapshot_damage (player_snapshots s seat players) ≡ total_damage players)
      × (length (player_snapshots s seat players) ≡ length players)
unfolding player_snapshots player_snapshot
player_snapshots-damage s seat [] = (refl, refl)
player_snapshots-damage s seat ((id, player) ∷ rest) =
    ground (arith, player_snapshots-damage s (suc seat) rest)

length-map : {A B : Type 0} (f : A → B) (xs : List A) → length (map f xs) ≡ length xs
length-map f [] = refl
length-map f (x ∷ xs) = ap suc (length-map f xs)

-- The snapshot of every state that a run reaches balances its own books: it lists as many players
-- as it counts seats, at most four, and at most 2054 bullets; while the boss runs, its hit points
-- and the listed damage make up the full number, and when it is finished it has none left and the
-- listed damage is the full number.
pub snapshot-IsBalanced :
    (m : Libm) (bombs : List WeaponSpec) (stamp : VersionStamp) (shot_table : List WeaponSpec)
    (config : CoopBossConfig) (ops : List Operation)
    → let view = snapshot (run m bombs stamp (new_simulation shot_table config) ops) in
      IsBalanced view.state view.boss_hp view.boss_max_hp (snapshot_damage view.players)
      × (length view.players ≡ view.seat_count)
      × (view.seat_count ≤ 4)
      × (length view.bullets ≤ 2054)
unfolding snapshot
snapshot-IsBalanced m bombs stamp shot_table config ops =
    let s = run m bombs stamp (new_simulation shot_table config) ops in
    let (seated, balanced, clear) = run-IsValid m bombs stamp shot_table config ops in
    let (damage, count) = player_snapshots-damage s 0 s.players in
    (
      subst (IsBalanced s.state s.boss_hp s.config.boss_max_hp) (sym damage) balanced,
      count,
      seated.1,
      omega (arith, length-map bullet_snapshot s.live_bullets, clear.0),
    )

-- Of two seats of a match of two to four players, no two spawn at the same place.
pub coop_seat_spawn_milli-distinct :
    (seat_count seat other : ℕ)
    → seat_count ≤ 4
    → seat < seat_count
    → other < seat_count
    → seat ≢ other
    → coop_seat_spawn_milli seat_count seat ≢ coop_seat_spawn_milli seat_count other
unfolding coop_seat_spawn_milli
coop_seat_spawn_milli-distinct seat_count seat other few h h' differ =
    λ e. differ (ground (arith, e))
