-- ===== src/Coop/Runs.antt =====
-- The operations of the cooperative boss in any order, as the runtime calls them, and what holds
-- of every run.
use ph_k_battle_server.Base.{
  ℕ, ◌+◌, ◌≤◌, ◌<◌, ◌≡◌, refl, sym, subst, ap, ◌∙◌, ◌⊎◌, inl, inr, Bool, true, false, List, [], ◌∷◌,
  none, some, arith, take, drop, take-append-drop, append-nil, Map, Bytes, bytes_key, nat_key, find,
  insert, find-insert_self,
}
use ph_k_battle_server.Base.Int.{ℤ}
use ph_k_battle_server.Protocol.{VersionStamp}
use ph_k_battle_server.Coop.{
  BattleInput, CardCastEvent, WeaponSpec, finished, CoopBossConfig, PlayerState, CoopBossSimulation,
}
use ph_k_battle_server.Coop.Setup.{
  new_simulation, add_player, set_player_connected, push_event, take_events, restore_events,
  submit_input, acceptable, buffer_input,
}
use ph_k_battle_server.Coop.Libm.{Libm}
use ph_k_battle_server.Coop.Tick.{tick}
use ph_k_battle_server.Coop.Invariant.{
  IsValid, new_simulation-IsValid, add_player-IsValid, set_player_connected-IsValid,
  submit_input-IsValid, add_player_cases, set_player_connected_cases, submit_input_cases,
}
use ph_k_battle_server.Coop.Invariant.Ticks.{tick-IsValid, tick_finished}

-- A call of the runtime.
pub data Operation : Type 0 where
  add : Bytes → ℤ → ℤ → Operation
  connect : Bytes → Bool → Operation
  submit : BattleInput → Operation
  push : CardCastEvent → Operation
  drain : ℕ → Operation
  restore : List CardCastEvent → Operation
  advance : Operation

push_event_cases :
    (s : CoopBossSimulation) (row : CardCastEvent)
    → push_event s row ≡ record s { events = (push_event s row).events }
unfolding push_event
push_event_cases s row = ground arith

take_events_cases :
    (s : CoopBossSimulation) (limit : ℕ)
    → (take_events s limit ≡ (record s { events = [] }, s.events))
      ⊎ (take_events s limit ≡ (record s { events = drop limit s.events }, take limit s.events))
unfolding take_events
take_events_cases s limit = ground arith

with_events-IsValid :
    (s t : CoopBossSimulation) → t ≡ record s { events = t.events } → IsValid s → IsValid t
with_events-IsValid s t same h = subst IsValid (sym same) h

module _ (m : Libm) (bombs : List WeaponSpec) (stamp : VersionStamp) where
  abbrev pub step : CoopBossSimulation → Operation → CoopBossSimulation
  step s (add id x y) = (add_player stamp s id x y).0
  step s (connect id connected) = (set_player_connected s id connected).0
  step s (submit input) = (submit_input s input).0
  step s (push row) = push_event s row
  step s (drain limit) = (take_events s limit).0
  step s (restore rows) = restore_events s rows
  step s advance = tick m bombs s

  unfoldable pub run : CoopBossSimulation → List Operation → CoopBossSimulation
  run s [] = s
  run s (op ∷ ops) = run (step s op) ops

  step-IsValid : (s : CoopBossSimulation) (op : Operation) → IsValid s → IsValid (step s op)
  unfolding restore_events
  step-IsValid s (add id x y) h = add_player-IsValid stamp s id x y h
  step-IsValid s (connect id connected) h = set_player_connected-IsValid s id connected h
  step-IsValid s (submit input) h = submit_input-IsValid s input h
  step-IsValid s (push row) h = with_events-IsValid s (push_event s row) (push_event_cases s row) h
  step-IsValid s (drain limit) h =
      with_events-IsValid s (take_events s limit).0 (ground (arith, take_events_cases s limit)) h
  step-IsValid s (restore rows) h = h
  step-IsValid s advance h = tick-IsValid m bombs s h

  run-IsValid_from :
      (ops : List Operation) (s : CoopBossSimulation) → IsValid s → IsValid (run s ops)
  unfolding run
  run-IsValid_from [] s h = h
  run-IsValid_from (op ∷ ops) s h = run-IsValid_from ops (step s op) (step-IsValid s op h)

  -- After any calls on a new simulation, the players are in the order of their keys, at most four
  -- and all in the arena; a running boss has hit points left, which make the full number together
  -- with the damage of all players, and a finished one has none left and the players' damage is
  -- the full number; at most 2054 bullets fly, all within 110 pixels of the middle.
  pub run-IsValid :
      (shot_table : List WeaponSpec) (config : CoopBossConfig) (ops : List Operation)
      → IsValid (run (new_simulation shot_table config) ops)
  run-IsValid shot_table config ops =
      run-IsValid_from ops (new_simulation shot_table config)
        (new_simulation-IsValid shot_table config)

  abbrev IsOver : CoopBossSimulation → CoopBossSimulation → Type 0
  IsOver s t =
      (t.state ≡ finished)
      × (t.boss_hp ≡ s.boss_hp)
      × (t.current_tick ≡ s.current_tick)
      × (t.live_bullets ≡ s.live_bullets)

  step-IsOver : (s t : CoopBossSimulation) (op : Operation) → IsOver s t → IsOver s (step t op)
  unfolding push_event take_events restore_events
  step-IsOver s t (add id x y) h = ground (arith, add_player_cases stamp t id x y)
  step-IsOver s t (connect id connected) h =
      ground (arith, set_player_connected_cases t id connected)
  step-IsOver s t (submit input) h = ground (arith, submit_input_cases t input)
  step-IsOver s t (push row) h = ground arith
  step-IsOver s t (drain limit) h = ground arith
  step-IsOver s t (restore rows) h = h
  step-IsOver s t advance h = subst (IsOver s) (sym (tick_finished m bombs t h.0)) h

  run-IsOver : (ops : List Operation) (s t : CoopBossSimulation) → IsOver s t → IsOver s (run t ops)
  unfolding run
  run-IsOver [] s t h = h
  run-IsOver (op ∷ ops) s t h = run-IsOver ops s (step t op) (step-IsOver s t op h)

  -- Once the boss is down, no calls change the state of the match, its hit points, its tick or its
  -- bullets any more, and every input is refused.
  pub finished_is_final :
      (s : CoopBossSimulation) (ops : List Operation) (input : BattleInput)
      → s.state ≡ finished
      → ((run s ops).state ≡ finished)
        × ((run s ops).boss_hp ≡ s.boss_hp)
        × ((run s ops).current_tick ≡ s.current_tick)
        × ((run s ops).live_bullets ≡ s.live_bullets)
        × (submit_input (run s ops) input ≡ (run s ops, false))
  finished_is_final s ops input over =
      let h = run-IsOver ops s s (over, refl, refl, refl) in
      (h.0, h.1, h.2, h.3, ground (arith, h.0, submit_input_cases (run s ops) input))

abbrev pub inputs_at : ℕ → CoopBossSimulation → Map Bytes BattleInput
inputs_at tick s = elim (find tick s.pending_inputs_by_tick) [ none ↦ [] | some inputs ↦ inputs ]

buffer_input-find :
    (pending : Map ℕ (Map Bytes BattleInput)) (input : BattleInput)
    → find input.player_id
        (elim (find input.tick (buffer_input pending input)) [ none ↦ [] | some inputs ↦ inputs ])
      ≡ some input
unfolding buffer_input
buffer_input-find pending input = ground (
  arith,
  find-insert_self input.tick
      (insert input.player_id input
        (elim (find input.tick pending) [ none ↦ [] | some inputs ↦ inputs ]))
      pending,
  find-insert_self input.player_id input
      (elim (find input.tick pending) [ none ↦ [] | some inputs ↦ inputs ]),
)

pub acceptable_window :
    (s : CoopBossSimulation) (input : BattleInput) (player : PlayerState)
    → acceptable s input player ≡ true
    → (player.last_seq < input.seq)
      × (s.current_tick < input.tick)
      × (input.tick ≤ s.current_tick + 8)
unfolding acceptable
acceptable_window s input player h = (ground arith, ground arith, ground arith)

pub submit_input-refused :
    (s : CoopBossSimulation) (input : BattleInput) (player : PlayerState)
    → find input.player_id s.players ≡ some player
    → input.seq ≤ player.last_seq
    → (submit_input s input).1 ≡ false
unfolding submit_input acceptable
submit_input-refused s input player known old = ground arith

-- An accepted input has a higher number than the player's last one and lies one to eight ticks
-- ahead. Right after its acceptance it is the player's input for its tick, and if the next call
-- submits an input of the player with the same or a lower number, that one is refused.
pub submit_input-accepted :
    (s : CoopBossSimulation) (input later : BattleInput) (player : PlayerState)
    → find input.player_id s.players ≡ some player
    → (submit_input s input).1 ≡ true
    → later.player_id ≡ input.player_id
    → later.seq ≤ input.seq
    → (player.last_seq < input.seq)
      × (s.current_tick < input.tick)
      × (input.tick ≤ s.current_tick + 8)
      × (find input.player_id (inputs_at input.tick (submit_input s input).0) ≡ some input)
      × ((submit_input (submit_input s input).0 later).1 ≡ false)
submit_input-accepted s input later player known accepted same lower =
    elim (submit_input_cases s input) [
      | inl refused ↦ ground (arith, ap (λ r. r.1) refused)
      | inr (found, (found_at, _, passed, _, _, written)) ↦
          let t = (submit_input s input).0 in
          let is_player : found ≡ player = ground (arith, found_at, known) in
          let (higher, ahead, near) =
            acceptable_window s input player
              (subst (λ p. acceptable s input p ≡ true) is_player passed) in
          (
            higher,
            ahead,
            near,
            ap (λ r. find input.player_id (inputs_at input.tick r.0)) written
                ∙ buffer_input-find s.pending_inputs_by_tick input,
            submit_input-refused t later (record found { last_seq = input.seq })
                (ap (λ id. find id t.players) same
                  ∙ ap (λ r. find input.player_id r.0.players) written
                  ∙ find-insert_self input.player_id (record found { last_seq = input.seq })
                      s.players)
                lower,
          )
    ]

-- Rows that are taken and handed back are queued as before, in their order.
pub restore-take_events :
    (s : CoopBossSimulation) (limit : ℕ)
    → restore_events (take_events s limit).0 (take_events s limit).1 ≡ s
unfolding restore_events
restore-take_events s limit = elim (take_events_cases s limit) [
  | inl all_rows ↦
      ap (λ r. restore_events r.0 r.1) all_rows
      ∙ ap (λ rows. record s { events = rows }) (append-nil s.events)
  | inr some_rows ↦
      ap (λ r. restore_events r.0 r.1) some_rows
      ∙ ap (λ rows. record s { events = rows }) (take-append-drop limit s.events)
]
