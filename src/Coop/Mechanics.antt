-- ===== src/Coop/Mechanics.antt =====
-- `RecomputeMechanics` and `StartIfReady` of src/coop_boss.cpp. A unit of the lobby's stream is
-- its numerator over 10000, so `roll < 0.5` reads `roll < 5000`.
pub mod Laws
use Prim.Native.Nat.{bit_or}
use ph_k_battle_server.Base.{
  ℕ, zero, suc, ◌+◌, ◌-◌, ◌*◌, ◌/◌, ◌%◌, ◌^◌, ◌≡◌, Bool, true, false, ◌&&◌, ◌||◌, List, [], ◌∷◌,
  Option, none, some, ltb, leb, ◌==◌, if◌then◌else◌, length, take, min, Bytes, codes,
}
use ph_k_battle_server.Base.Int.{ℤ, pos}
use ph_k_battle_server.LobbyRng.{lobby_deterministic_unit}
use ph_k_battle_server.Coop.{
  CoopBossState, waiting, running, finished, CoopBossSimulation, boss_hp_per_player, min_players,
  shield_window_ticks, cannon_interval_ticks, cannon_start_offset, cannon_duration_ticks,
  spiral_window_ticks,
}

unfoldable pub start_if_ready : CoopBossSimulation → CoopBossSimulation
start_if_ready s = elim s.state [
  | waiting ↦
      let hp =
        if s.config.boss_max_hp == 0
        then boss_hp_per_player * length s.players
        else s.config.boss_max_hp in
      if leb min_players (length s.players)
      then record s { state = running; config = record s.config { boss_max_hp = hp }; boss_hp = hp }
      else s
  | _ ↦ s
]

-- The order of `std::pair<double, std::size_t>`.
unfoldable pub ranked_before : ℕ × ℕ → ℕ × ℕ → Bool
ranked_before (u, seat) (v, other) = ltb u v || ((u == v) && ltb seat other)

-- `std::sort`; the seats are distinct, so the result does not depend on the algorithm.
unfoldable pub insert_ranked : ℕ × ℕ → List (ℕ × ℕ) → List (ℕ × ℕ)
unfolding ranked_before
insert_ranked p [] = p ∷ []
insert_ranked p (q ∷ ranked) =
    if ranked_before p q then p ∷ q ∷ ranked else q ∷ insert_ranked p ranked

-- The ranks of the seats `from`, `from + 1`, .. in the order of the ranks.
unfoldable pub rank_seats : (ℕ → ℕ) → ℕ → ℕ → List (ℕ × ℕ)
unfolding insert_ranked
rank_seats unit from zero = []
rank_seats unit from (suc k) = insert_ranked (unit from, from) (rank_seats unit (suc from) k)

-- `mask |= 1u << seat` for each entry.
unfoldable pub mask_of : List (ℕ × ℕ) → ℕ
mask_of [] = 0
mask_of ((u, seat) ∷ ranked) = bit_or (2 ^ seat) (mask_of ranked)

-- How many directions are blocked: one or three, and never all of several.
unfoldable pub shield_count : ℕ → ℕ → ℕ
shield_count roll seats =
    min (if ltb roll 5000 then 1 else 3) (if ltb 1 seats then seats - 1 else 1)

unfoldable pub shield_mask : ℤ → ℕ → ℕ → ℕ
unfolding rank_seats mask_of shield_count
shield_mask seed w seats = mask_of (
    take
      (shield_count (lobby_deterministic_unit seed (pos w) (codes "coop_shield_count") (pos 0))
        seats)
      (rank_seats
        (λ seat. lobby_deterministic_unit seed (pos w) (codes "coop_shield_rank") (pos seat)) 0
        seats))

-- `static_cast<int>(roll * seats)`, brought into the range of the seats.
unfoldable pub cannon_dir : ℕ → ℕ → ℕ
cannon_dir roll seats = let dir = roll * seats / 10000 in if leb seats dir then seats - 1 else dir

unfoldable pub in_shield_window : ℕ → Bool
in_shield_window phase = leb 300 phase && ltb phase (300 + shield_window_ticks)

unfoldable pub in_cannon_window : ℕ → Bool
in_cannon_window phase =
    leb cannon_start_offset phase && ltb phase (cannon_start_offset + cannon_duration_ticks)

unfoldable pub recompute_mechanics : CoopBossSimulation → ℕ → CoopBossSimulation
unfolding in_shield_window in_cannon_window
recompute_mechanics s tick =
    let seats = length s.players in
    let seed = s.config.match_seed in
    let w = tick / cannon_interval_ticks in
    let phase = tick % cannon_interval_ticks in
    if seats == 0 || tick == 0
    then record s {
      shield_dir_mask = 0;
      lock_dir = none;
      lock_until_tick = 0;
      spiral_active = false;
    }
    else record s {
      shield_dir_mask = if in_shield_window phase then shield_mask seed w seats else 0;
      lock_dir =
          if in_cannon_window phase
          then some (
              cannon_dir (lobby_deterministic_unit seed (pos w) (codes "coop_cannon_dir") (pos 0))
                seats)
          else none;
      lock_until_tick = if in_cannon_window phase then (w + 1) * cannon_interval_ticks else 0;
      spiral_active = leb 1 w && ltb phase spiral_window_ticks;
    }
