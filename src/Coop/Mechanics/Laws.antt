-- ===== src/Coop/Mechanics/Laws.antt =====
-- The schedule of src/coop_boss.cpp: which seats the shield blocks and the cannon locks.
use Prim.Native.Nat.{bit_or}
use ph_k_battle_server.Base.{
  ℕ, zero, suc, ◌+◌, ◌/◌, ◌%◌, ◌^◌, ◌≤◌, ◌<◌, ◌≡◌, ◌⊎◌, inl, inr, refl, ap, ◌∙◌, Bool, true, false,
  ◌&&◌, List, [], ◌∷◌, some, arith, ltb, leb, if◌then◌else◌, length, take, All, codes, length-take,
  All-take, Bool-cases,
}
use ph_k_battle_server.Base.Int.{ℤ, pos}
use ph_k_battle_server.LobbyRng.{lobby_deterministic_unit}
use ph_k_battle_server.Coop.{CoopBossSimulation}
use ph_k_battle_server.Coop.Tick.{is_shielded}
use ph_k_battle_server.Coop.Mechanics.{
  ranked_before, insert_ranked, rank_seats, mask_of, shield_count, shield_mask, cannon_dir,
  in_cannon_window, recompute_mechanics,
}

-- All numbers below n pass the test.
all_below : (ℕ → Bool) → ℕ → Bool
all_below p zero = true
all_below p (suc n) = p n && all_below p n

all_below-at : (p : ℕ → Bool) (n i : ℕ) → all_below p n ≡ true → i < n → p i ≡ true
unfolding all_below
all_below-at p zero i h below = ground arith
all_below-at p (suc n) i h below = ground (arith, all_below-at p n i)

abbrev bit_value : ℕ → ℕ → ℕ
bit_value mask seat = if is_shielded mask seat then 1 else 0

-- How many of the seats 0 to 3 a mask blocks.
blocked : ℕ → ℕ
blocked mask = bit_value mask 0 + bit_value mask 1 + bit_value mask 2 + bit_value mask 3

adds_one : ℕ → ℕ → Bool
adds_one seat mask =
    ltb (bit_or (2 ^ seat) mask) 16 && leb (blocked (bit_or (2 ^ seat) mask)) (blocked mask + 1)

adds_one-all : all_below (λ seat. all_below (adds_one seat) 16) 4 ≡ true
unfolding all_below adds_one blocked
adds_one-all = refl

adds_one-lem :
    (seat mask : ℕ)
    → adds_one seat mask ≡ true
    → (bit_or (2 ^ seat) mask < 16) × (blocked (bit_or (2 ^ seat) mask) ≤ blocked mask + 1)
unfolding adds_one
adds_one-lem seat mask h = ground arith

mask_of-blocked :
    (ranked : List (ℕ × ℕ))
    → All (λ p. p.1 < 4) ranked
    → (mask_of ranked < 16) × (blocked (mask_of ranked) ≤ length ranked)
unfolding mask_of
mask_of-blocked [] h = (omega arith, (unfold blocked in omega arith))
mask_of-blocked ((u, seat) ∷ ranked) (h, hs) =
    let (small, few) = mask_of-blocked ranked hs in
    let ok = adds_one-lem seat (mask_of ranked) (
      all_below-at (adds_one seat) 16 (mask_of ranked)
        (all_below-at (λ d. all_below (adds_one d) 16) 4 seat adds_one-all h) small) in
    (ok.0, omega (arith, few, ok.1))

-- The first seat, of four, that the mask leaves open.
first_open : ℕ → ℕ
first_open mask =
    if is_shielded mask 0
    then (if is_shielded mask 1 then (if is_shielded mask 2 then 3 else 2) else 1)
    else 0

first_open-lem :
    (mask seats : ℕ)
    → blocked mask < seats
    → seats ≤ 4
    → (first_open mask < seats) × (is_shielded mask (first_open mask) ≡ false)
unfolding first_open blocked
first_open-lem mask seats few bound = ground arith

insert_ranked-All :
    (P : ℕ × ℕ → Type 0) (p : ℕ × ℕ) (ranked : List (ℕ × ℕ))
    → P p
    → All P ranked
    → All P (insert_ranked p ranked)
unfolding insert_ranked
insert_ranked-All P p [] h hs = (h, tt)
insert_ranked-All P p (q ∷ ranked) h hs = elim (Bool-cases (ranked_before p q)) [
  | inl first ↦ rw first (h, hs)
  | inr later ↦ rw later (hs.0, insert_ranked-All P p ranked h hs.1)
]

rank_seats-All :
    (unit : ℕ → ℕ) (from k : ℕ) → from + k ≤ 4 → All (λ p. p.1 < 4) (rank_seats unit from k)
unfolding rank_seats
rank_seats-All unit from zero h = tt
rank_seats-All unit from (suc k) h =
    insert_ranked-All (λ p. p.1 < 4) (unit from, from) (rank_seats unit (suc from) k) (omega arith)
      (rank_seats-All unit (suc from) k (omega arith))

shield_mask-open :
    (seed : ℤ) (w seats : ℕ)
    → 2 ≤ seats
    → seats ≤ 4
    → (seat : ℕ) × ((seat < seats) × (is_shielded (shield_mask seed w seats) seat ≡ false))
unfolding shield_mask shield_count
shield_mask-open seed w seats several few =
    let unit : ℕ → ℕ =
      λ seat. lobby_deterministic_unit seed (pos w) (codes "coop_shield_rank") (pos seat) in
    let count =
      shield_count (lobby_deterministic_unit seed (pos w) (codes "coop_shield_count") (pos 0))
        seats in
    let ranked = take count (rank_seats unit 0 seats) in
    let (_, fewer) = mask_of-blocked ranked (
      All-take (λ p. p.1 < 4) count (rank_seats unit 0 seats)
        (rank_seats-All unit 0 seats (omega arith))) in
    let open_seat =
      first_open-lem (mask_of ranked) seats
        (ground (arith, fewer, length-take count (rank_seats unit 0 seats))) few in
    (first_open (mask_of ranked), open_seat)

cannon_dir-lt : (roll seats : ℕ) → 0 < seats → cannon_dir roll seats < seats
unfolding cannon_dir
cannon_dir-lt roll seats h = ground arith

-- A tick that locks a seat locks one of the match's, in the last 150 ticks before the next
-- multiple of 600, which is the tick until which the lock holds.
pub recompute_mechanics-lock :
    (s : CoopBossSimulation) (tick dir : ℕ)
    → (recompute_mechanics s tick).lock_dir ≡ some dir
    → (dir < length s.players)
      × (tick < (recompute_mechanics s tick).lock_until_tick)
      × ((recompute_mechanics s tick).lock_until_tick ≤ tick + 150)
      × ((recompute_mechanics s tick).lock_until_tick % 600 ≡ 0)
unfolding recompute_mechanics in_cannon_window
recompute_mechanics-lock s tick dir h = ground (
  arith,
  cannon_dir-lt
      (lobby_deterministic_unit s.config.match_seed (pos (tick / 600)) (codes "coop_cannon_dir")
        (pos 0))
      (length s.players),
)

recompute_mechanics-mask :
    (s : CoopBossSimulation) (tick : ℕ)
    → ((recompute_mechanics s tick).shield_dir_mask ≡ 0)
      ⊎ ((recompute_mechanics s tick).shield_dir_mask
          ≡ shield_mask s.config.match_seed (tick / 600) (length s.players))
unfolding recompute_mechanics
recompute_mechanics-mask s tick = ground arith

-- With two to four players in the match, every tick leaves the shield open at one of their seats.
pub recompute_mechanics-open :
    (s : CoopBossSimulation) (tick : ℕ)
    → 2 ≤ length s.players
    → length s.players ≤ 4
    → (seat : ℕ) × ((seat < length s.players)
        × (is_shielded (recompute_mechanics s tick).shield_dir_mask seat ≡ false))
recompute_mechanics-open s tick several few = elim (recompute_mechanics-mask s tick) [
  | inl none_blocked ↦ (0, (omega arith, ap (λ mask. is_shielded mask 0) none_blocked))
  | inr blocking ↦
      let (seat, (below, still_open)) =
        shield_mask-open s.config.match_seed (tick / 600) (length s.players) several few in
      (seat, (below, ap (λ mask. is_shielded mask seat) blocking ∙ still_open))
]
