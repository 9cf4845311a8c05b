-- ===== src/Simulation/Invariant.antt =====
-- What the operations of src/simulation.cpp on players and inputs keep.
use ph_k_battle_server.Base.{
  ℕ, ◌+◌, ◌<◌, ◌≡◌, refl, sym, ◌∙◌, subst, ◌⊎◌, inl, inr, Bool, true, false, ◌&&◌, ◌||◌, not,
  Option, none, some, arith, leb, if◌then◌else◌, length, length-append, is_some, Map, find, insert,
  find-insert_self, nat_key, bytes_key, Bytes, Bool-cases, Option-cases,
}
use ph_k_battle_server.Base.Int.{ℤ}
use ph_k_battle_server.Protocol.{VersionStamp}
use ph_k_battle_server.Coop.{BattleInput}
use ph_k_battle_server.Ticket.{is_valid_audit_token}
use ph_k_battle_server.ChainLog.{append_input, append_match_seed, append_entry}
use ph_k_battle_server.Simulation.{
  SimulationConfig, new_simulation, PlayerState, BattleSimulation, is_boss_mode,
  boss_mode_max_players,
}
use ph_k_battle_server.Simulation.Validation.{validate_input}
use ph_k_battle_server.Simulation.Acceptance.{accumulate_accepted_input, take_input, accept_input}
use ph_k_battle_server.Simulation.Players.{
  accumulate_connection_event, switch_player, set_player_connected, boss_spawn_point, new_player,
  add_player, same_bool,
}
use ph_k_battle_server.Simulation.Admissible.{IsAdmissible, validate-IsAdmissible}
use ph_k_battle_server.Simulation.Inputs.{refused-unchanged, accept-take}
use ph_k_battle_server.Coop.Setup.{neutral_input}
use ph_k_battle_server.Simulation.Buffer.{
  EveryBuffered, insert-EveryBuffered, buffer_input-EveryBuffered,
}
use ph_k_battle_server.Simulation.Roster.{
  IsRoster, find-IsPlayer, insert-IsRoster, new_player-IsPlayer, grown-IsRoster,
}

-- The players are in order, under their names and in the arena, at most eight against a boss; every
-- input that waits is of a known player and numbered; the counters count the rows that were written.
pub record IsSound (s : BattleSimulation) : Type 0 where
  pub roster : IsRoster (is_boss_mode s.config.mode_id) s.players
  pub buffered : EveryBuffered s.players s.current_tick s.pending_inputs_by_tick
  pub logged : s.accepted_input_count + 1 ≡ length s.operation_log
  pub traced : s.accepted_input_count ≡ length s.input_trace
  pub reported : s.event_count ≡ length s.event_trace

nothing_waits {ℓ} : {A : Type ℓ} {a : A} → none ≡ some a → ⊥
nothing_waits h = cc

pub new_simulation-IsSound : (config : SimulationConfig) → IsSound (new_simulation config)
unfolding new_simulation find append_match_seed append_entry
new_simulation-IsSound config = record {
  roster = (tt, tt, λ boss. omega arith);
  buffered = λ tick id input waits. absurd (nothing_waits waits.1);
  logged = refl;
  traced = refl;
  reported = refl;
}

is_some-none {ℓ} : {A : Type ℓ} (o : Option A) → is_some o ≡ false → o ≡ none
is_some-none none h = refl
is_some-none (some a) h = cc

-- The two outcomes of `AddPlayer`.
pub add_player_cases :
    (stamp : VersionStamp) (s : BattleSimulation) (id : Bytes) (at : ℤ × ℤ)
    → (add_player stamp s id at ≡ (s, false))
      ⊎ ((find id s.players ≡ none)
          × (is_valid_audit_token id ≡ true)
          × (is_boss_mode s.config.mode_id ≡ true → length s.players < boss_mode_max_players)
          × ((place : ℤ × ℤ) × ((add_player stamp s id at).0 ≡ record s {
            players = insert id (new_player stamp s id place) s.players;
            boss_damage_by_player = (add_player stamp s id at).0.boss_damage_by_player;
          })))
unfolding add_player
add_player_cases stamp s id at =
    elim (Bool-cases (not (is_valid_audit_token id) || is_some (find id s.players))) [
      | inl refused ↦ inl (ground (arith, refused))
      | inr free ↦
          elim (Bool-cases
            (is_boss_mode s.config.mode_id && leb boss_mode_max_players (length s.players))) [
              | inl full ↦ inl (ground (arith, free, full))
              | inr room ↦ inr (
                is_some-none (find id s.players) (ground (arith, free)),
                ground (arith, free),
                (λ boss. ground (arith, room, boss)),
                (
                  if is_boss_mode s.config.mode_id then boss_spawn_point (length s.players) else at,
                  ground (arith, free, room),
                ),
              )
            ]
    ]

with_player-IsSound :
    (stamp : VersionStamp) (s : BattleSimulation) (damage : Map Bytes ℕ) (id : Bytes)
    (place : ℤ × ℤ)
    → find id s.players ≡ none
    → is_valid_audit_token id ≡ true
    → (is_boss_mode s.config.mode_id ≡ true → length s.players < boss_mode_max_players)
    → IsSound s
    → IsSound (record s {
      players = insert id (new_player stamp s id place) s.players;
      boss_damage_by_player = damage;
    })
with_player-IsSound stamp s damage id place unknown valid room h = record {
  roster =
      grown-IsRoster (is_boss_mode s.config.mode_id) id (new_player stamp s id place) s.players room
        (new_player-IsPlayer stamp s id place valid) h.roster;
  buffered =
      insert-EveryBuffered id (new_player stamp s id place) s.players s.current_tick
        s.pending_inputs_by_tick (λ old known. absurd (ground (arith, unknown, known))) h.buffered;
  logged = h.logged;
  traced = h.traced;
  reported = h.reported;
}

pub add_player-IsSound :
    (stamp : VersionStamp) (s : BattleSimulation) (id : Bytes) (at : ℤ × ℤ)
    → IsSound s
    → IsSound (add_player stamp s id at).0
add_player-IsSound stamp s id at h = elim (add_player_cases stamp s id at) [
  | inl refused ↦ subst (λ r. IsSound r.0) (sym refused) h
  | inr (unknown, valid, room, (place, added)) ↦ subst IsSound (sym added) (
      with_player-IsSound stamp s (add_player stamp s id at).0.boss_damage_by_player id place
        unknown valid room h)
]

same_seq : {player old : PlayerState} → some old ≡ some player → old.last_seq ≡ player.last_seq
same_seq h = cc

-- A player whose connection, silence and held input change.
abbrev switched : PlayerState → Bool → ℕ → BattleInput → PlayerState
switched player connected silence held = record player {
  connected = connected;
  ticks_without_input = silence;
  last_input = held;
}

switched-IsSound :
    (s : BattleSimulation) (id : Bytes) (player : PlayerState) (connected : Bool) (silence : ℕ)
    (held : BattleInput)
    → find id s.players ≡ some player
    → IsSound s
    → IsRoster
        (is_boss_mode s.config.mode_id)
        (insert id (switched player connected silence held) s.players)
      × EveryBuffered
          (insert id (switched player connected silence held) s.players)
          s.current_tick
          s.pending_inputs_by_tick
switched-IsSound s id player connected silence held known h =
    let player' = switched player connected silence held in
    (
      insert-IsRoster (is_boss_mode s.config.mode_id) id player' player s.players known
          (find-IsPlayer id player s.players h.roster.1 known) h.roster,
      insert-EveryBuffered id player' s.players s.current_tick s.pending_inputs_by_tick
          (λ old there.
            (let seqs : old.last_seq ≡ player.last_seq = same_seq (sym there ∙ known) in
              omega (arith, seqs)))
          h.buffered,
    )

switch_player-IsSound :
    (stamp : VersionStamp) (s : BattleSimulation) (player : PlayerState) (id : Bytes)
    (connected : Bool)
    → find id s.players ≡ some player
    → IsSound s
    → IsSound (switch_player stamp s player id connected)
unfolding switch_player accumulate_connection_event
switch_player-IsSound stamp s player id true known h =
    let (roster, buffered) =
      switched-IsSound s id player true 0 (neutral_input stamp s.config.match_id player.player_id)
        known h in
    record {
      roster = roster;
      buffered = buffered;
      logged = h.logged;
      traced = h.traced;
      reported = omega (arith, h.reported, length-append s.event_trace _);
    }
switch_player-IsSound stamp s player id false known h =
    let (roster, buffered) = switched-IsSound s id player false 0 player.last_input known h in
    record {
      roster = roster;
      buffered = buffered;
      logged = h.logged;
      traced = h.traced;
      reported = omega (arith, h.reported, length-append s.event_trace _);
    }

pub set_player_connected-IsSound :
    (stamp : VersionStamp) (s : BattleSimulation) (id : Bytes) (connected : Bool)
    → IsSound s
    → IsSound (set_player_connected stamp s id connected).0
unfolding set_player_connected
set_player_connected-IsSound stamp s id connected h = elim (Option-cases (find id s.players)) [
  | inl unknown ↦ subst IsSound (ground (arith, unknown)) h
  | inr (player, known) ↦ elim (Bool-cases (same_bool player.connected connected)) [
    | inl same ↦ subst IsSound (ground (arith, known, same)) h
    | inr differs ↦
        subst IsSound (ground (arith, known, differs))
          (switch_player-IsSound stamp s player id connected known h)
  ]
]

take_input-IsSound :
    (s : BattleSimulation) (player : PlayerState) (input : BattleInput)
    → IsAdmissible s player input
    → IsSound s
    → IsSound (take_input s player input)
unfolding take_input accumulate_accepted_input append_input append_entry
take_input-IsSound s player input a h =
    let numbered = record player { last_seq = input.seq } in
    let (of_player, valid, x_low, x_high, y_low, y_high) =
      find-IsPlayer input.player_id player s.players h.roster.1 a.known in
    let players = insert input.player_id numbered s.players in
    record {
      roster =
          insert-IsRoster (is_boss_mode s.config.mode_id) input.player_id numbered player s.players
            a.known (of_player, valid, x_low, x_high, y_low, y_high) h.roster;
      buffered =
          buffer_input-EveryBuffered players s.current_tick s.pending_inputs_by_tick input
            (
              refl,
              refl,
              a.ahead,
              (numbered, find-insert_self input.player_id numbered s.players, omega arith),
            )
            (insert-EveryBuffered input.player_id numbered s.players s.current_tick
              s.pending_inputs_by_tick
              (λ old there.
                (let seqs : old.last_seq ≡ player.last_seq = same_seq (sym there ∙ a.known) in
                  omega (arith, seqs, a.newer)))
              h.buffered);
      logged = omega (arith, h.logged, length-append s.operation_log _);
      traced = omega (arith, h.traced, length-append s.input_trace _);
      reported = h.reported;
    }

pub accept_input-IsSound :
    (s : BattleSimulation) (input : BattleInput) → IsSound s → IsSound (accept_input s input).0
accept_input-IsSound s input h = elim (Bool-cases (validate_input s input).is_ok) [
  | inr refused ↦ subst IsSound (sym (refused-unchanged s input refused).1) h
  | inl valid ↦
      let (player, a) = validate-IsAdmissible s input valid in
      subst (λ r. IsSound r.0) (sym (accept-take s input player valid a.known))
        (take_input-IsSound s player input a h)
]
