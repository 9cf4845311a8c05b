-- ===== src/Coop/Progress.antt =====
-- The direction of a match of src/coop_boss.cpp: its state only advances and, from the start on,
-- the hit points of the boss only fall.
use ph_k_battle_server.Base.{
  ℕ, suc, ◌+◌, ◌≤◌, ◌≡◌, refl, sym, subst, ap, ◌∙◌, inl, inr, List, [], ◌∷◌, Option, arith, Map,
  Bytes, find, nat_key,
}
use ph_k_battle_server.Protocol.{VersionStamp}
use ph_k_battle_server.Coop.{BattleInput, WeaponSpec, PlayerState, CoopBossSimulation}
use ph_k_battle_server.Coop.Libm.{Libm}
use ph_k_battle_server.Coop.Setup.{push_event, take_events, restore_events}
use ph_k_battle_server.Coop.Mechanics.{start_if_ready, recompute_mechanics}
use ph_k_battle_server.Coop.Spawn.{spawn_bullets_for_tick, advance_bullets}
use ph_k_battle_server.Coop.Spawn.Laws.{spawn_bullets_for_tick-Kept}
use ph_k_battle_server.Coop.Tick.{
  player_turn, players_turn, apply_player_tick, check_boss_defeated, running_tick, tick,
}
use ph_k_battle_server.Coop.Invariant.{
  add_player_cases, set_player_connected_cases, submit_input_cases,
}
use ph_k_battle_server.Coop.Invariant.Ticks.{recompute_mechanics-Agrees, tick_cases}
use ph_k_battle_server.Coop.Runs.{
  Operation, add, connect, submit, push, drain, restore, advance, step, run,
}
use ph_k_battle_server.Coop.Snapshot.{state_number}

player_turn-le :
    (bombs : List WeaponSpec) (s : CoopBossSimulation) (inputs : Option (Map Bytes BattleInput))
    (seat : ℕ) (player : PlayerState) (hp : ℕ)
    → (player_turn bombs s inputs seat player hp).1 ≤ hp
unfolding player_turn
player_turn-le bombs s inputs seat player hp = ground arith

players_turn-le :
    (bombs : List WeaponSpec) (s : CoopBossSimulation) (inputs : Option (Map Bytes BattleInput))
    (seat : ℕ) (players : Map Bytes PlayerState) (hp : ℕ)
    → (players_turn bombs s inputs seat players hp).1 ≤ hp
unfolding players_turn
players_turn-le bombs s inputs seat [] hp = omega arith
players_turn-le bombs s inputs seat ((id, player) ∷ rest) hp = omega (
  arith,
  player_turn-le bombs s inputs seat player hp,
  players_turn-le bombs s inputs (suc seat) rest (player_turn bombs s inputs seat player hp).1,
)

-- The second state is the first one or a later one of the same match.
abbrev IsLater : CoopBossSimulation → CoopBossSimulation → Type 0
IsLater s t =
    (state_number s.state ≤ state_number t.state)
    × (t.boss_hp ≤ s.boss_hp)
    × (t.config.boss_max_hp ≡ s.config.boss_max_hp)

check_boss_defeated-IsLater :
    (s : CoopBossSimulation) → IsLater s (check_boss_defeated (advance_bullets s))
unfolding check_boss_defeated advance_bullets
check_boss_defeated-IsLater s = ground arith

IsLater-trans : (s t u : CoopBossSimulation) → IsLater s t → IsLater t u → IsLater s u
IsLater-trans s t u (a, b, c) (a', b', c') = (omega arith, omega arith, c' ∙ c)

running_tick-IsLater :
    (m : Libm) (bombs : List WeaponSpec) (s : CoopBossSimulation) (tick : ℕ)
    → IsLater s (running_tick m bombs s tick)
unfolding running_tick apply_player_tick
running_tick-IsLater m bombs s tick =
    let s1 = recompute_mechanics s tick in
    let s2 = apply_player_tick bombs s1 tick in
    let s3 = spawn_bullets_for_tick m s2 tick in
    let ((_, hp, state, config), _) = recompute_mechanics-Agrees s tick in
    let ((_, hp', state', config'), _) = spawn_bullets_for_tick-Kept m s2 tick in
    let inputs = find tick s1.pending_inputs_by_tick in
    IsLater-trans s s3 (check_boss_defeated (advance_bullets s3))
      (
        omega (arith, ap state_number state, ap state_number state'),
        omega (arith, hp, hp', players_turn-le bombs s1 inputs 0 s1.players s1.boss_hp),
        ap (λ c. c.boss_max_hp) config' ∙ ap (λ c. c.boss_max_hp) config,
      )
      (check_boss_defeated-IsLater s3)

start_if_ready_started : (s : CoopBossSimulation) → 1 ≤ state_number s.state → start_if_ready s ≡ s
unfolding start_if_ready
start_if_ready_started s h = ground arith

tick-IsLater :
    (m : Libm) (bombs : List WeaponSpec) (s : CoopBossSimulation)
    → 1 ≤ state_number s.state
    → IsLater s (tick m bombs s)
tick-IsLater m bombs s h =
    let same = start_if_ready_started s h in
    elim (tick_cases m bombs s) [
      | inl (_, kept) ↦ subst (IsLater s) (sym kept) (omega arith, omega arith, refl)
      | inr (inl (_, ran)) ↦ subst (IsLater s) (sym ran) (
          subst (λ t. IsLater s (running_tick m bombs t (s.current_tick + 1))) (sym same)
            (running_tick-IsLater m bombs s (s.current_tick + 1)))
      | inr (inr (_, waited)) ↦
          subst (IsLater s) (sym waited)
            (subst (IsLater s) (sym same) (omega arith, omega arith, refl))
    ]

module _ (m : Libm) (bombs : List WeaponSpec) (stamp : VersionStamp) where
  step-IsLater :
      (s : CoopBossSimulation) (op : Operation)
      → 1 ≤ state_number s.state
      → IsLater s (step m bombs stamp s op)
  unfolding push_event take_events restore_events
  step-IsLater s (add id x y) h = ground (arith, add_player_cases stamp s id x y)
  step-IsLater s (connect id connected) h =
      ground (arith, set_player_connected_cases s id connected)
  step-IsLater s (submit input) h = ground (arith, submit_input_cases s input)
  step-IsLater s (push row) h = ground arith
  step-IsLater s (drain limit) h = ground arith
  step-IsLater s (restore rows) h = (omega arith, omega arith, refl)
  step-IsLater s advance h = tick-IsLater m bombs s h

  -- Once a match has started, whatever is called, it does not go back to waiting or from finished
  -- to running, the boss never gains hit points, and their full number stays as it was fixed.
  pub match_only_advances :
      (ops : List Operation) (s : CoopBossSimulation)
      → 1 ≤ state_number s.state
      → (state_number s.state ≤ state_number (run m bombs stamp s ops).state)
        × ((run m bombs stamp s ops).boss_hp ≤ s.boss_hp)
        × ((run m bombs stamp s ops).config.boss_max_hp ≡ s.config.boss_max_hp)
  unfolding run
  match_only_advances [] s h = (omega arith, omega arith, refl)
  match_only_advances (op ∷ ops) s h =
      let t = step m bombs stamp s op in
      let now = step-IsLater s op h in
      IsLater-trans s t (run m bombs stamp t ops) now
        (match_only_advances ops t (omega (arith, now.0)))
