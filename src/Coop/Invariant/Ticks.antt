-- ===== src/Coop/Invariant/Ticks.antt =====
-- `Tick` of src/coop_boss.cpp keeps the invariant: its five calls one after the other.
use ph_k_battle_server.Base.{
  ℕ, ◌+◌, ◌≤◌, ◌<◌, ◌≡◌, refl, sym, subst, ap, ◌∙◌, ◌⊎◌, inl, inr, true, false, List, arith, length,
  bytes_key, nat_key, find,
}
use ph_k_battle_server.Coop.{
  WeaponSpec, CoopBossState, waiting, running, finished, CoopBossSimulation,
}
use ph_k_battle_server.Coop.Setup.{is_finished}
use ph_k_battle_server.Coop.Libm.{Libm}
use ph_k_battle_server.Coop.Mechanics.{start_if_ready, recompute_mechanics}
use ph_k_battle_server.Coop.Spawn.{moved, spawn_bullets_for_tick, advance_bullets}
use ph_k_battle_server.Coop.Spawn.Laws.{
  spawn_bullets_for_tick-Kept, moved-IsInField, length-moved-le, bullet_bound, Agrees,
}
use ph_k_battle_server.Coop.Tick.{
  apply_player_tick, check_boss_defeated, running_tick, tick, is_running,
}
use ph_k_battle_server.Coop.Accounts.{
  total_damage, players_turn-damage, players_turn-EveryInArena, length-players_turn,
  players_turn-IsOrdered,
}
use ph_k_battle_server.Coop.Invariant.{IsSeated, IsBalanced, IsClear, IsValid}

-- What holds between the calls of a running tick.
abbrev IsOpen : CoopBossSimulation → Type 0
IsOpen s =
    IsSeated s.players
    × (s.state ≡ running)
    × (0 < s.config.boss_max_hp)
    × (s.boss_hp + total_damage s.players ≡ s.config.boss_max_hp)
    × (length s.live_bullets ≤ bullet_bound)

pub recompute_mechanics-Agrees :
    (s : CoopBossSimulation) (tick : ℕ)
    → Agrees s (recompute_mechanics s tick)
      × ((recompute_mechanics s tick).live_bullets ≡ s.live_bullets)
unfolding recompute_mechanics
recompute_mechanics-Agrees s tick = ground arith

Agrees-IsOpen :
    (s t : CoopBossSimulation)
    → Agrees s t
    → length t.live_bullets ≤ bullet_bound
    → IsOpen s
    → IsOpen t
Agrees-IsOpen s t (players, hp, state, config) bounded (seated, run, positive, balanced, _) = (
  subst IsSeated (sym players) seated,
  state ∙ run,
  subst (λ c. 0 < c.boss_max_hp) (sym config) positive,
  simp (players, hp, config) balanced,
  bounded,
)

apply_player_tick-IsOpen :
    (bombs : List WeaponSpec) (s : CoopBossSimulation) (tick : ℕ)
    → IsOpen s
    → IsOpen (apply_player_tick bombs s tick)
unfolding apply_player_tick
apply_player_tick-IsOpen bombs s tick ((ordered, few, arena), run, positive, balanced, bounded) =
    let inputs = find tick s.pending_inputs_by_tick in
    (
      (
        players_turn-IsOrdered bombs s inputs 0 s.players s.boss_hp ordered,
        omega (arith, length-players_turn bombs s inputs 0 s.players s.boss_hp),
        players_turn-EveryInArena bombs s inputs 0 s.players s.boss_hp arena,
      ),
      run,
      positive,
      players_turn-damage bombs s inputs 0 s.players s.boss_hp ∙ balanced,
      bounded,
    )

pub check_boss_defeated_cases :
    (s : CoopBossSimulation)
    → s.state ≡ running
    → 0 < s.config.boss_max_hp
    → ((s.boss_hp ≡ 0) × (check_boss_defeated s ≡ record s { state = finished }))
      ⊎ ((0 < s.boss_hp) × (check_boss_defeated s ≡ s))
unfolding check_boss_defeated
check_boss_defeated_cases s run positive = ground arith

-- The last two calls.
close_tick-IsValid :
    (s : CoopBossSimulation) → IsOpen s → IsValid (check_boss_defeated (advance_bullets s))
unfolding advance_bullets
close_tick-IsValid s (seated, run, positive, balanced, bounded) =
    let clear : IsClear (moved s.live_bullets) =
      (omega (arith, bounded, length-moved-le s.live_bullets), moved-IsInField s.live_bullets) in
    elim (check_boss_defeated_cases (advance_bullets s) run positive) [
      | inl (gone, over) ↦ subst IsValid (sym over) (seated, (gone, positive, omega arith), clear)
      | inr (left, same) ↦ subst IsValid (sym same) (
        seated,
        subst (λ st. IsBalanced st s.boss_hp s.config.boss_max_hp (total_damage s.players))
            (sym run) (left, balanced),
        clear,
      )
    ]

running_tick-IsValid :
    (m : Libm) (bombs : List WeaponSpec) (s : CoopBossSimulation) (tick : ℕ)
    → IsOpen s
    → IsValid (running_tick m bombs s tick)
unfolding running_tick
running_tick-IsValid m bombs s tick h =
    let s1 = recompute_mechanics s tick in
    let s2 = apply_player_tick bombs s1 tick in
    let (same, bullets) = recompute_mechanics-Agrees s tick in
    let open1 =
      Agrees-IsOpen s s1 same (subst (λ b. length b ≤ bullet_bound) (sym bullets) h.4) h in
    let open2 = apply_player_tick-IsOpen bombs s1 tick open1 in
    let (kept, bounded) = spawn_bullets_for_tick-Kept m s2 tick in
    close_tick-IsValid (spawn_bullets_for_tick m s2 tick)
      (Agrees-IsOpen s2 (spawn_bullets_for_tick m s2 tick) kept (bounded open2.4) open2)

pub start_if_ready_cases :
    (s : CoopBossSimulation)
    → (start_if_ready s ≡ s)
      ⊎ ((s.state ≡ waiting)
          × (2 ≤ length s.players)
          × ((start_if_ready s).state ≡ running)
          × (0 < (start_if_ready s).boss_hp)
          × ((start_if_ready s).boss_hp ≡ (start_if_ready s).config.boss_max_hp)
          × ((start_if_ready s).players ≡ s.players)
          × ((start_if_ready s).live_bullets ≡ s.live_bullets))
unfolding start_if_ready
start_if_ready_cases s = ground arith

start_if_ready-IsValid : (s : CoopBossSimulation) → IsValid s → IsValid (start_if_ready s)
start_if_ready-IsValid s valid = elim (start_if_ready_cases s) [
  | inl same ↦ subst IsValid (sym same) valid
  | inr (wait, _, run, positive, full, players, bullets) ↦
      let t = start_if_ready s in
      let (_, none_yet) =
        subst (λ st. IsBalanced st s.boss_hp s.config.boss_max_hp (total_damage s.players)) wait
          valid.1 in
      (
        subst IsSeated (sym players) valid.0,
        subst (λ st. IsBalanced st t.boss_hp t.config.boss_max_hp (total_damage t.players))
            (sym run) (positive, omega (arith, full, ap total_damage players, none_yet)),
        subst IsClear (sym bullets) valid.2,
      )
]

IsOpen-of_valid : (s : CoopBossSimulation) → s.state ≡ running → IsValid s → IsOpen s
IsOpen-of_valid s run (seated, balanced, clear) =
    let (left, sum) =
      subst (λ st. IsBalanced st s.boss_hp s.config.boss_max_hp (total_damage s.players)) run
        balanced in
    (seated, run, omega arith, sum, clear.0)

is_running_iff : (st : CoopBossState) → is_running st ≡ true → st ≡ running
is_running_iff waiting h = cc
is_running_iff running h = refl
is_running_iff finished h = cc

-- The three ways of a tick.
pub tick_cases :
    (m : Libm) (bombs : List WeaponSpec) (s : CoopBossSimulation)
    → ((is_finished s.state ≡ true) × (tick m bombs s ≡ s))
      ⊎ (((start_if_ready s).state ≡ running)
          × (tick m bombs s
              ≡ record (running_tick m bombs (start_if_ready s) (s.current_tick + 1)) {
                current_tick = s.current_tick + 1;
              }))
      ⊎ ((is_finished s.state ≡ false)
          × (tick m bombs s ≡ record (start_if_ready s) { current_tick = s.current_tick + 1 }))
unfolding tick
tick_cases m bombs s = ground (arith, is_running_iff (start_if_ready s).state)

pub tick-IsValid :
    (m : Libm) (bombs : List WeaponSpec) (s : CoopBossSimulation)
    → IsValid s
    → IsValid (tick m bombs s)
tick-IsValid m bombs s valid =
    let started = start_if_ready s in
    let valid' = start_if_ready-IsValid s valid in
    elim (tick_cases m bombs s) [
      | inl (_, same) ↦ subst IsValid (sym same) valid
      | inr (inl (run, ran)) ↦
          let next = s.current_tick + 1 in
          let result =
            running_tick-IsValid m bombs started next (IsOpen-of_valid started run valid') in
          subst IsValid (sym ran) result
      | inr (inr (_, waited)) ↦ subst IsValid (sym waited) valid'
    ]

pub tick_finished :
    (m : Libm) (bombs : List WeaponSpec) (s : CoopBossSimulation)
    → s.state ≡ finished
    → tick m bombs s ≡ s
unfolding tick
tick_finished m bombs s over = ground arith
