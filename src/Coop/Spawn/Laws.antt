-- ===== src/Coop/Spawn/Laws.antt =====
-- What the bullets of src/coop_boss.cpp leave alone and how many there are: lemmas on
-- `SpawnBulletsForTick` and `AdvanceBullets`.
use ph_k_battle_server.Base.{
  ℕ, zero, suc, ◌+◌, ◌≤◌, ◌≡◌, refl, ◌∙◌, Bool, true, false, ◌||◌, List, [], ◌∷◌, ◌==◌,
  if◌then◌else◌, length, Map, Bytes, arith, All, length-append,
}
use ph_k_battle_server.Base.Int.{pos, negsuc, ◌≤ℤ◌}
use ph_k_battle_server.Coop.{CoopBossSimulation, PlayerState, LiveBullet, fan_bullets_per_dir}
use ph_k_battle_server.Coop.Libm.{Libm}
use ph_k_battle_server.Coop.Spawn.{
  push_bullet, fan_bullet, push_fan, spawn_fan, spawn_cannon, spawn_for_players, push_spiral,
  spawn_spiral, spawn_bullets_for_tick, move_bullet, is_culled, moved, spiral_bullet, cannon_bullet,
}

-- The two states agree but for the bullets and their numbering.
abbrev pub Agrees : CoopBossSimulation → CoopBossSimulation → Type 0
Agrees s t =
    (t.players ≡ s.players) × (t.boss_hp ≡ s.boss_hp) × (t.state ≡ s.state) × (t.config ≡ s.config)

Agrees-trans : (s t u : CoopBossSimulation) → Agrees s t → Agrees t u → Agrees s u
Agrees-trans s t u (a, b, c, d) (a', b', c', d') = (a' ∙ a, b' ∙ b, c' ∙ c, d' ∙ d)

-- The bound on the bullets in flight: one volley of seven may start at 2047.
abbrev pub bullet_bound : ℕ
bullet_bound = 2054

abbrev IsBounded : CoopBossSimulation → Type 0
IsBounded s = length s.live_bullets ≤ bullet_bound

abbrev pub Kept : CoopBossSimulation → CoopBossSimulation → Type 0
Kept s t = Agrees s t × (IsBounded s → IsBounded t)

Kept-refl : (s : CoopBossSimulation) → Kept s s
Kept-refl s = ((refl, refl, refl, refl), λ h. h)

Kept-trans : (s t u : CoopBossSimulation) → Kept s t → Kept t u → Kept s u
Kept-trans s t u (same, bounded) (same', bounded') =
    (Agrees-trans s t u same same', λ h. bounded' (bounded h))

if_Kept : (b : Bool) (s t : CoopBossSimulation) → Kept s t → Kept s (if b then t else s)
if_Kept true s t h = h
if_Kept false s t h = Kept-refl s

unless-Kept : (b : Bool) (s t : CoopBossSimulation) → Kept s t → Kept s (if b then s else t)
unless-Kept true s t h = Kept-refl s
unless-Kept false s t h = h

module _ (m : Libm) where
  push_fan-Agrees :
      (s : CoopBossSimulation) (owner : Bytes) (aim : m.Double) (i k : ℕ)
      → Agrees s (push_fan m s owner aim i k)
        × (length (push_fan m s owner aim i k).live_bullets ≡ length s.live_bullets + k)
  unfolding push_fan push_bullet
  push_fan-Agrees s owner aim i zero = ((refl, refl, refl, refl), omega arith)
  push_fan-Agrees s owner aim i (suc k) =
      let live = fan_bullet m owner aim i s.next_bullet_id in
      let (same, count) = push_fan-Agrees (push_bullet s live) owner aim (suc i) k in
      (same, omega (arith, count, length-append s.live_bullets (live ∷ [])))

  push_spiral-Agrees :
      (s : CoopBossSimulation) (tick i k : ℕ)
      → Agrees s (push_spiral m s tick i k)
        × (length (push_spiral m s tick i k).live_bullets ≡ length s.live_bullets + k)
  unfolding push_spiral push_bullet
  push_spiral-Agrees s tick i zero = ((refl, refl, refl, refl), omega arith)
  push_spiral-Agrees s tick i (suc k) =
      let live = spiral_bullet m tick i s.next_bullet_id in
      let (same, count) = push_spiral-Agrees (push_bullet s live) tick (suc i) k in
      (same, omega (arith, count, length-append s.live_bullets (live ∷ [])))

  spawn_fan-Kept :
      (s : CoopBossSimulation) (tick : ℕ) (player : PlayerState)
      → Kept s (spawn_fan m s tick player)
  unfolding spawn_fan
  spawn_fan-Kept s tick player =
      let aim = m.atan2 (m.of_int player.y_milli) (m.of_int player.x_milli) in
      ground (arith, push_fan-Agrees s player.player_id aim 0 fan_bullets_per_dir)

  spawn_cannon-Kept :
      (s : CoopBossSimulation) (seat : ℕ) (player : PlayerState)
      → Kept s (spawn_cannon m s seat player)
  unfolding spawn_cannon push_bullet
  spawn_cannon-Kept s seat player =
      ground (arith, length-append s.live_bullets (cannon_bullet m player s.next_bullet_id ∷ []))

  -- The two volleys at one player.
  volleys : CoopBossSimulation → ℕ → ℕ → PlayerState → CoopBossSimulation
  volleys s tick seat player =
      if player.connected then spawn_cannon m (spawn_fan m s tick player) seat player else s

  volleys-Kept :
      (s : CoopBossSimulation) (tick seat : ℕ) (player : PlayerState)
      → Kept s (volleys s tick seat player)
  unfolding volleys
  volleys-Kept s tick seat player =
      if_Kept player.connected s (spawn_cannon m (spawn_fan m s tick player) seat player) (
        Kept-trans s (spawn_fan m s tick player)
          (spawn_cannon m (spawn_fan m s tick player) seat player) (spawn_fan-Kept s tick player)
          (spawn_cannon-Kept (spawn_fan m s tick player) seat player))

  spawn_for_players-Kept :
      (s : CoopBossSimulation) (tick seat : ℕ) (players : Map Bytes PlayerState)
      → Kept s (spawn_for_players m s tick seat players)
  unfolding spawn_for_players volleys
  spawn_for_players-Kept s tick seat [] = Kept-refl s
  spawn_for_players-Kept s tick seat ((id, player) ∷ rest) =
      let t = volleys s tick seat player in
      Kept-trans s t (spawn_for_players m t tick (suc seat) rest) (volleys-Kept s tick seat player)
        (spawn_for_players-Kept t tick (suc seat) rest)

  spawn_spiral-Kept : (s : CoopBossSimulation) (tick : ℕ) → Kept s (spawn_spiral m s tick)
  unfolding spawn_spiral
  spawn_spiral-Kept s tick = ground (arith, push_spiral-Agrees s tick 0 4)

  pub spawn_bullets_for_tick-Kept :
      (s : CoopBossSimulation) (tick : ℕ) → Kept s (spawn_bullets_for_tick m s tick)
  unfolding spawn_bullets_for_tick
  spawn_bullets_for_tick-Kept s tick =
      let volleyed = spawn_for_players m s tick 0 s.players in
      unless-Kept ((tick == 0) || (length s.players == 0)) s (spawn_spiral m volleyed tick) (
        Kept-trans s volleyed (spawn_spiral m volleyed tick)
          (spawn_for_players-Kept s tick 0 s.players) (spawn_spiral-Kept volleyed tick))

abbrev pub IsInField : LiveBullet → Type 0
IsInField live =
    (negsuc 109999 ≤ℤ live.x_milli)
    × (live.x_milli ≤ℤ pos 110000)
    × (negsuc 109999 ≤ℤ live.y_milli)
    × (live.y_milli ≤ℤ pos 110000)

is_culled-IsInField : (live : LiveBullet) → is_culled live ≡ false → IsInField live
unfolding is_culled
is_culled-IsInField live h = ground arith

pub moved-IsInField : (bullets : List LiveBullet) → All IsInField (moved bullets)
unfolding moved
moved-IsInField [] = tt
moved-IsInField (live ∷ rest) =
    ground (arith, is_culled-IsInField (move_bullet live), moved-IsInField rest)

pub length-moved-le : (bullets : List LiveBullet) → length (moved bullets) ≤ length bullets
unfolding moved
length-moved-le [] = omega arith
length-moved-le (live ∷ rest) = ground (arith, length-moved-le rest)
