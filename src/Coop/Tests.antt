-- ===== src/Coop/Tests.antt =====
-- Runs of the cooperative boss, and the theorems at inputs that meet their premises.
use ph_k_battle_server.Base.{
  ℕ, ◌+◌, ◌/◌, ◌%◌, ◌^◌, ◌≤◌, ◌<◌, ◌≡◌, ◌≢◌, refl, true, false, [], ◌∷◌, some, length, find, insert,
  codes, bytes_eq, bytes_lt, bytes_key, nat_key, arith,
}
use ph_k_battle_server.Base.Int.{ℤ, pos, ◌+ℤ◌, ◌-ℤ◌, ◌*ℤ◌, clamp}
use ph_k_battle_server.Protocol.{VersionStamp, is_compatible}
use ph_k_battle_server.Coop.{
  BattleInput, CardCastEvent, running, finished, CoopBossConfig, PlayerState, CoopBossSimulation,
}
use ph_k_battle_server.Coop.Setup.{
  new_simulation, add_player, new_player, neutral_input, submit_input, acceptable, take_events,
  restore_events,
}
use ph_k_battle_server.Coop.Libm.{Libm}
use ph_k_battle_server.LobbyRng.{lobby_deterministic_unit}
use ph_k_battle_server.Coop.Mechanics.{cannon_dir, recompute_mechanics, in_cannon_window}
use ph_k_battle_server.Coop.Mechanics.Laws.{recompute_mechanics-open, recompute_mechanics-lock}
use ph_k_battle_server.Coop.Tick.{is_shielded}
use ph_k_battle_server.Coop.Invariant.{IsBalanced, IsValid}
use ph_k_battle_server.Coop.Progress.{match_only_advances}
use ph_k_battle_server.Coop.Snapshot.{state_number, snapshot, coop_seat_spawn_milli}
use ph_k_battle_server.Coop.Snapshot.Laws.{
  snapshot_damage, snapshot-IsBalanced, coop_seat_spawn_milli-distinct,
}
use ph_k_battle_server.Coop.Replay.{accepted_never_again}
use ph_k_battle_server.Coop.Runs.{
  add, submit, advance, run, run-IsValid, finished_is_final, inputs_at, submit_input-accepted,
  restore-take_events,
}

-- A stand-in for the runtime: integers, and right angles only.
abbrev coarse : Libm
coarse = record {
  Double = ℤ;
  of_int = λ a. a;
  decimal = λ m k. pos (m / 10 ^ k);
  add = ◌+ℤ◌;
  sub = ◌-ℤ◌;
  mul = ◌*ℤ◌;
  div = λ a b. a;
  cos = λ a. pos 1;
  sin = λ a. pos 0;
  sqrt = λ a. a;
  atan2 = λ a b. pos 0;
  is_positive = λ a. false;
  llround = λ a. a;
}

abbrev stamp : VersionStamp
stamp = record {
  protocol_version = 1;
  business_api_version = [];
  battle_api_version = codes "0.1.0-draft";
  ruleset_version = [];
}

abbrev config : CoopBossConfig
config = record {
  match_id = codes "m1";
  mode_id = [];
  ruleset_version = [];
  match_seed = pos 7;
  boss_max_hp = 20;
  tick_rate_hz = 0;
  difficulty = pos 0;
  loadouts = [];
}

abbrev shot : BattleInput
shot = record (neutral_input stamp (codes "m1") (codes "p1")) { tick = 1; seq = 1; shoot = true }

abbrev empty : CoopBossSimulation
empty = new_simulation [] config

abbrev two_players : CoopBossSimulation
two_players =
    run coarse [] stamp empty
      (add (codes "p1") (pos 0) (pos 0) ∷ add (codes "p2") (pos 9) (pos 9) ∷ [])

run-IsValid_example : IsValid (
    run coarse [] stamp empty (
      add (codes "p1") (pos 0) (pos 0)
      ∷ add (codes "p2") (pos 9) (pos 9)
      ∷ submit shot
      ∷ advance
      ∷ []))
run-IsValid_example = run-IsValid coarse [] stamp [] config (
    add (codes "p1") (pos 0) (pos 0)
    ∷ add (codes "p2") (pos 9) (pos 9)
    ∷ submit shot
    ∷ advance
    ∷ [])

abbrev over : CoopBossSimulation
over = record two_players { state = finished }

finished_is_final_example :
    let s = run coarse [] stamp over (submit shot ∷ advance ∷ []) in
    (s.state ≡ finished)
    × (s.boss_hp ≡ over.boss_hp)
    × (s.current_tick ≡ over.current_tick)
    × (s.live_bullets ≡ over.live_bullets)
    × (submit_input s shot ≡ (s, false))
finished_is_final_example =
    finished_is_final coarse [] stamp over (submit shot ∷ advance ∷ []) shot refl

abbrev first_player : PlayerState
first_player = new_player stamp (codes "m1") (codes "p1") (pos 0) (pos 0)

first_player_known : find (codes "p1") two_players.players ≡ some first_player
unfolding run add_player new_simulation find insert bytes_eq bytes_lt clamp
first_player_known = refl

shot_accepted : (submit_input two_players shot).1 ≡ true
unfolding run add_player new_simulation find insert bytes_eq bytes_lt clamp submit_input acceptable
    is_compatible
shot_accepted = refl

submit_input-accepted_example :
    (0 < 1)
    × (two_players.current_tick < 1)
    × (1 ≤ two_players.current_tick + 8)
    × (find (codes "p1") (inputs_at 1 (submit_input two_players shot).0) ≡ some shot)
    × ((submit_input (submit_input two_players shot).0 shot).1 ≡ false)
unfolding clamp
submit_input-accepted_example =
    submit_input-accepted two_players shot shot first_player first_player_known shot_accepted refl
      (omega arith)

accepted_never_again_example :
    (submit_input
      (run coarse [] stamp (submit_input two_players shot).0 (advance ∷ advance ∷ []))
      shot).1
    ≡ false
accepted_never_again_example =
    accepted_never_again coarse [] stamp two_players shot shot (advance ∷ advance ∷ [])
      shot_accepted refl (omega arith)

abbrev locked : CoopBossSimulation
locked = record two_players { lock_dir = some 0; boss_hp = 20 }

abbrev row : CardCastEvent
row = record {
  event_type = codes "card_cast";
  tick = pos 1;
  player_id = codes "p1";
  card_id = [];
  event_value = pos 0;
  target_user_id = [];
  slot = pos 0;
  reason = [];
}

abbrev with_rows : CoopBossSimulation
with_rows = record empty { events = row ∷ row ∷ row ∷ [] }

restore-take_events_example :
    restore_events (take_events with_rows 2).0 (take_events with_rows 2).1 ≡ with_rows
restore-take_events_example = restore-take_events with_rows 2

two_seated : length two_players.players ≡ 2
unfolding run add_player new_simulation find insert bytes_eq bytes_lt
two_seated = refl

recompute_mechanics-open_example :
    (seat : ℕ) × ((seat < length two_players.players)
      × (is_shielded (recompute_mechanics two_players 300).shield_dir_mask seat ≡ false))
recompute_mechanics-open_example =
    recompute_mechanics-open two_players 300 (omega (arith, two_seated)) (omega (arith, two_seated))

abbrev locked_dir : ℕ
locked_dir =
    cannon_dir (lobby_deterministic_unit (pos 7) (pos 0) (codes "coop_cannon_dir") (pos 0))
      (length two_players.players)

locked_at_450 : (recompute_mechanics two_players 450).lock_dir ≡ some locked_dir
unfolding recompute_mechanics in_cannon_window run add_player new_simulation insert find bytes_eq
    bytes_lt
locked_at_450 = refl

recompute_mechanics-lock_example :
    (locked_dir < length two_players.players)
    × (450 < (recompute_mechanics two_players 450).lock_until_tick)
    × ((recompute_mechanics two_players 450).lock_until_tick ≤ 600)
    × ((recompute_mechanics two_players 450).lock_until_tick % 600 ≡ 0)
recompute_mechanics-lock_example = recompute_mechanics-lock two_players 450 locked_dir locked_at_450

snapshot-IsBalanced_example :
    let view = snapshot (
      run coarse [] stamp empty (
        add (codes "p1") (pos 0) (pos 0)
        ∷ add (codes "p2") (pos 9) (pos 9)
        ∷ submit shot
        ∷ advance
        ∷ [])) in
    IsBalanced view.state view.boss_hp view.boss_max_hp (snapshot_damage view.players)
    × (length view.players ≡ view.seat_count)
    × (view.seat_count ≤ 4)
    × (length view.bullets ≤ 2054)
snapshot-IsBalanced_example = snapshot-IsBalanced coarse [] stamp [] config (
    add (codes "p1") (pos 0) (pos 0)
    ∷ add (codes "p2") (pos 9) (pos 9)
    ∷ submit shot
    ∷ advance
    ∷ [])

abbrev right_seat : ℕ
right_seat = 1

abbrev top_seat : ℕ
top_seat = 2

one_is_not_two : right_seat ≢ top_seat
one_is_not_two e = omega (arith, e)

coop_seat_spawn_milli-distinct_example : coop_seat_spawn_milli 4 1 ≢ coop_seat_spawn_milli 4 2
coop_seat_spawn_milli-distinct_example =
    coop_seat_spawn_milli-distinct 4 1 2 (omega arith) (omega arith) (omega arith) one_is_not_two

-- The match of two players with the boss at 20 hit points.
abbrev under_way : CoopBossSimulation
under_way = record two_players { state = running; boss_hp = 20 }

match_only_advances_example :
    let s = run coarse [] stamp under_way (submit shot ∷ advance ∷ advance ∷ []) in
    (1 ≤ state_number s.state) × (s.boss_hp ≤ 20) × (s.config.boss_max_hp ≡ 20)
unfolding new_simulation add_player run find insert bytes_eq bytes_lt
match_only_advances_example =
    match_only_advances coarse [] stamp (submit shot ∷ advance ∷ advance ∷ []) under_way
      (omega arith)
