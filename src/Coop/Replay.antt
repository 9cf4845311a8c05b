-- ===== src/Coop/Replay.antt =====
-- Sequence numbers of src/coop_boss.cpp over any calls: a player's last one never falls.
use ph_k_battle_server.Base.{
  ℕ, suc, ◌+◌, ◌≤◌, ◌≡◌, refl, sym, subst, ap, ◌∙◌, inl, inr, Bool, true, false, List, [], ◌∷◌,
  Option, some, arith, Map, Bytes, nat_key, bytes_eq, bytes_eq_iff, bytes_key, find, insert,
  find-insert, find-insert_self, Bool-cases,
}
use ph_k_battle_server.Protocol.{VersionStamp}
use ph_k_battle_server.Coop.{BattleInput, WeaponSpec, PlayerState, CoopBossSimulation}
use ph_k_battle_server.Coop.Setup.{push_event, take_events, restore_events, submit_input}
use ph_k_battle_server.Coop.Libm.{Libm}
use ph_k_battle_server.Coop.Mechanics.{start_if_ready, recompute_mechanics}
use ph_k_battle_server.Coop.Spawn.{spawn_bullets_for_tick, advance_bullets}
use ph_k_battle_server.Coop.Spawn.Laws.{spawn_bullets_for_tick-Kept}
use ph_k_battle_server.Coop.Tick.{
  take_input, move_player, player_turn, players_turn, apply_player_tick, check_boss_defeated,
  running_tick, tick,
}
use ph_k_battle_server.Coop.Invariant.{
  add_player_cases, set_player_connected_cases, submit_input_cases,
}
use ph_k_battle_server.Coop.Invariant.Ticks.{
  tick_cases, start_if_ready_cases, recompute_mechanics-Agrees,
}
use ph_k_battle_server.Coop.Runs.{
  Operation, add, connect, submit, push, drain, restore, advance, step, run, acceptable_window,
  submit_input-refused,
}

-- The player is there, with a last number of n or more.
abbrev pub IsPast : Bytes → ℕ → Map Bytes PlayerState → Type 0
IsPast id n players =
    (player : PlayerState) × (find id players ≡ some player) × (n ≤ player.last_seq)

move_player-seq :
    (locked : Bool) (player : PlayerState) → (move_player locked player).last_seq ≡ player.last_seq
unfolding move_player
move_player-seq true player = refl
move_player-seq false player = refl

take_input-seq :
    (inputs : Option (Map Bytes BattleInput)) (player : PlayerState)
    → (take_input inputs player).last_seq ≡ player.last_seq
unfolding take_input
take_input-seq inputs player = ground arith

player_turn-seq :
    (bombs : List WeaponSpec) (s : CoopBossSimulation) (inputs : Option (Map Bytes BattleInput))
    (seat : ℕ) (player : PlayerState) (hp : ℕ)
    → (player_turn bombs s inputs seat player hp).0.last_seq ≡ player.last_seq
unfolding player_turn
player_turn-seq bombs s inputs seat player hp = ground (
  arith,
  move_player-seq true (take_input inputs player),
  move_player-seq false (take_input inputs player),
  take_input-seq inputs player,
)

players_turn-IsPast :
    (bombs : List WeaponSpec) (s : CoopBossSimulation) (inputs : Option (Map Bytes BattleInput))
    (seat : ℕ) (players : Map Bytes PlayerState) (hp : ℕ) (id : Bytes) (n : ℕ)
    → IsPast id n players
    → IsPast id n (players_turn bombs s inputs seat players hp).0
unfolding players_turn find
players_turn-IsPast bombs s inputs seat [] hp id n h = h
players_turn-IsPast bombs s inputs seat ((j, other) ∷ rest) hp id n (player, known, le) =
    let turn = player_turn bombs s inputs seat other hp in
    elim (Bool-cases (bytes_eq j id)) [
      | inl same ↦
          let found : other ≡ player = ground (arith, same, known) in
          (
            turn.0,
            ground (arith, same),
            omega (
              arith,
              le,
              ap (λ p. p.last_seq) found,
              player_turn-seq bombs s inputs seat other hp,
            ),
          )
      | inr differs ↦
          let (player', known', le') =
            players_turn-IsPast bombs s inputs (suc seat) rest turn.1 id n
              (player, ground (arith, differs, known), le) in
          (player', ground (arith, differs, known'), le')
    ]

-- A player written anew with a number that is not smaller.
insert-IsPast :
    (id j : Bytes) (n : ℕ) (player : PlayerState) (players : Map Bytes PlayerState)
    → ((old : PlayerState) → find j players ≡ some old → old.last_seq ≤ player.last_seq)
    → IsPast id n players
    → IsPast id n (insert j player players)
insert-IsPast id j n player players grows (old, known, le) = elim (Bool-cases (bytes_eq j id)) [
  | inl same ↦
      let ids = (bytes_eq_iff j id).0 same in
      let more : old.last_seq ≤ player.last_seq =
        grows old (ap (λ i. find i players) ids ∙ known) in
      (player, ground (arith, same, find-insert j id player players), omega (arith, le, more))
  | inr differs ↦ (old, ground (arith, differs, known, find-insert j id player players), le)
]

check_boss_defeated-players : (s : CoopBossSimulation) → (check_boss_defeated s).players ≡ s.players
unfolding check_boss_defeated
check_boss_defeated-players s = ground arith

running_tick-IsPast :
    (m : Libm) (bombs : List WeaponSpec) (s : CoopBossSimulation) (now : ℕ) (id : Bytes) (n : ℕ)
    → IsPast id n s.players
    → IsPast id n (running_tick m bombs s now).players
unfolding running_tick apply_player_tick advance_bullets
running_tick-IsPast m bombs s now id n h =
    let s1 = recompute_mechanics s now in
    let s2 = apply_player_tick bombs s1 now in
    let s3 = spawn_bullets_for_tick m s2 now in
    let kept = (spawn_bullets_for_tick-Kept m s2 now).0 in
    let h1 = subst (IsPast id n) (sym (recompute_mechanics-Agrees s now).0.0) h in
    let h2 =
      players_turn-IsPast bombs s1 (find now s1.pending_inputs_by_tick) 0 s1.players s1.boss_hp id n
        h1 in
    subst (IsPast id n) (sym (check_boss_defeated-players (advance_bullets s3)))
      (subst (IsPast id n) (sym kept.0) h2)

start_if_ready-players : (s : CoopBossSimulation) → (start_if_ready s).players ≡ s.players
start_if_ready-players s = elim (start_if_ready_cases s) [
  | inl same ↦ ap (λ t. t.players) same
  | inr (_, _, _, _, _, same, _) ↦ same
]

tick-IsPast :
    (m : Libm) (bombs : List WeaponSpec) (s : CoopBossSimulation) (id : Bytes) (n : ℕ)
    → IsPast id n s.players
    → IsPast id n (tick m bombs s).players
tick-IsPast m bombs s id n h =
    let started = subst (IsPast id n) (sym (start_if_ready-players s)) h in
    elim (tick_cases m bombs s) [
      | inl (_, same) ↦ subst (λ t. IsPast id n t.players) (sym same) h
      | inr (inl (_, ran)) ↦
          subst (λ t. IsPast id n t.players) (sym ran)
            (running_tick-IsPast m bombs (start_if_ready s) (s.current_tick + 1) id n started)
      | inr (inr (_, waited)) ↦ subst (λ t. IsPast id n t.players) (sym waited) started
    ]

same_seq : {player old : PlayerState} → some old ≡ some player → old.last_seq ≡ player.last_seq
same_seq h = cc

submit_input-IsPast :
    (s : CoopBossSimulation) (input : BattleInput) (id : Bytes) (n : ℕ)
    → IsPast id n s.players
    → IsPast id n (submit_input s input).0.players
submit_input-IsPast s input id n h = elim (submit_input_cases s input) [
  | inl refused ↦ subst (λ r. IsPast id n r.0.players) (sym refused) h
  | inr (player, (known, _, passed, _, _, taken)) ↦
      let (higher, _, _) = acceptable_window s input player passed in
      subst (λ r. IsPast id n r.0.players) (sym taken)
        (insert-IsPast id input.player_id n (record player { last_seq = input.seq }) s.players
          (λ old there.
            (let seqs : old.last_seq ≡ player.last_seq = same_seq (sym there ∙ known) in
              omega (arith, seqs, higher)))
          h)
]

module _ (m : Libm) (bombs : List WeaponSpec) (stamp : VersionStamp) where
  step-IsPast :
      (s : CoopBossSimulation) (op : Operation) (id : Bytes) (n : ℕ)
      → IsPast id n s.players
      → IsPast id n (step m bombs stamp s op).players
  unfolding push_event take_events restore_events
  step-IsPast s (add j x y) id n h = elim (add_player_cases stamp s j x y) [
    | inl refused ↦ subst (λ r. IsPast id n r.0.players) (sym refused) h
    | inr (unknown, _, added) ↦
        subst (λ r. IsPast id n r.0.players) (sym added)
          (insert-IsPast id j n _ s.players (λ old there. absurd (ground (arith, unknown, there)))
            h)
  ]
  step-IsPast s (connect j connected) id n h = elim (set_player_connected_cases s j connected) [
    | inl refused ↦ subst (λ r. IsPast id n r.0.players) (sym refused) h
    | inr (player, (known, switched)) ↦
        subst (λ r. IsPast id n r.0.players) (sym switched)
          (insert-IsPast id j n (record player { connected = connected }) s.players
            (λ old there.
              (let seqs : old.last_seq ≡ player.last_seq = same_seq (sym there ∙ known) in
                omega (arith, seqs)))
            h)
  ]
  step-IsPast s (submit input) id n h = submit_input-IsPast s input id n h
  step-IsPast s (push row) id n h = subst (IsPast id n) (ground arith) h
  step-IsPast s (drain limit) id n h = subst (IsPast id n) (ground arith) h
  step-IsPast s (restore rows) id n h = h
  step-IsPast s advance id n h = tick-IsPast m bombs s id n h

  run-IsPast :
      (ops : List Operation) (s : CoopBossSimulation) (id : Bytes) (n : ℕ)
      → IsPast id n s.players
      → IsPast id n (run m bombs stamp s ops).players
  unfolding run
  run-IsPast [] s id n h = h
  run-IsPast (op ∷ ops) s id n h =
      run-IsPast ops (step m bombs stamp s op) id n (step-IsPast s op id n h)

  -- Once an input of a player is accepted, no input of the player with the same or a lower number is
  -- accepted any more, whatever calls lie between: players who join, leave or come back, other
  -- inputs, events and ticks.
  pub accepted_never_again :
      (s : CoopBossSimulation) (input later : BattleInput) (ops : List Operation)
      → (submit_input s input).1 ≡ true
      → later.player_id ≡ input.player_id
      → later.seq ≤ input.seq
      → (submit_input (run m bombs stamp (submit_input s input).0 ops) later).1 ≡ false
  accepted_never_again s input later ops accepted same lower = elim (submit_input_cases s input) [
    | inl refused ↦ absurd (ground (arith, accepted, ap (λ r. r.1) refused))
    | inr (player, (_, _, _, _, _, taken)) ↦
        let numbered = record player { last_seq = input.seq } in
        let past : IsPast input.player_id input.seq (submit_input s input).0.players =
          subst (λ r. IsPast input.player_id input.seq r.0.players) (sym taken)
            (numbered, find-insert_self input.player_id numbered s.players, omega arith) in
        let (found, known, le) =
          run-IsPast ops (submit_input s input).0 input.player_id input.seq past in
        let t = run m bombs stamp (submit_input s input).0 ops in
        submit_input-refused t later found (ap (λ id. find id t.players) same ∙ known)
          (omega (arith, lower, le))
  ]
