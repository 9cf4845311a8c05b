-- ===== src/Simulation/Buffer.antt =====
-- The inputs that wait in `pending_inputs_by_tick_` of src/simulation.cpp, beside the players.
use ph_k_battle_server.Base.{
  ℕ, ◌≤◌, ◌<◌, ◌≡◌, refl, sym, ap, ◌∙◌, subst, ◌⊎◌, inl, inr, [], some, arith, ◌==◌, ==_iff, Map,
  find, insert, find-insert, nat_key, bytes_key, Bytes, bytes_eq, bytes_eq_iff, Bool-cases,
  Option-cases,
}
use ph_k_battle_server.Coop.{BattleInput}
use ph_k_battle_server.Simulation.{PlayerState}
use ph_k_battle_server.Simulation.Acceptance.{buffer_input}

-- An input that waits for its tick stands under its own tick and player, who is known and has a
-- number at least as large.
abbrev pub IsBuffered : Map Bytes PlayerState → ℕ → ℕ → Bytes → BattleInput → Type 0
IsBuffered players now tick id input =
    (input.tick ≡ tick)
    × (input.player_id ≡ id)
    × (now < tick)
    × ((player : PlayerState) × (find id players ≡ some player) × (input.seq ≤ player.last_seq))

abbrev pub Waits : Map ℕ (Map Bytes BattleInput) → ℕ → Bytes → BattleInput → Type 0
Waits pending tick id input =
    (inputs : Map Bytes BattleInput) × (find tick pending ≡ some inputs)
    × (find id inputs ≡ some input)

abbrev pub EveryBuffered : Map Bytes PlayerState → ℕ → Map ℕ (Map Bytes BattleInput) → Type 0
EveryBuffered players now pending =
    (tick : ℕ) (id : Bytes) (input : BattleInput)
    → Waits pending tick id input
    → IsBuffered players now tick id input

some_injective {ℓ} : {A : Type ℓ} {a b : A} → some a ≡ some b → a ≡ b
some_injective h = cc

-- A player written anew with a number that is not smaller.
pub insert-EveryBuffered :
    (id : Bytes) (player : PlayerState) (players : Map Bytes PlayerState) (now : ℕ)
    (pending : Map ℕ (Map Bytes BattleInput))
    → ((old : PlayerState) → find id players ≡ some old → old.last_seq ≤ player.last_seq)
    → EveryBuffered players now pending
    → EveryBuffered (insert id player players) now pending
insert-EveryBuffered id player players now pending grows h tick other input waits =
    let (of_tick, of_player, later, (old, known, le)) = h tick other input waits in
    (
      of_tick,
      of_player,
      later,
      (elim (Bool-cases (bytes_eq id other)) [
        | inl same ↦
            let ids = (bytes_eq_iff id other).0 same in
            let more : old.last_seq ≤ player.last_seq =
              grows old (ap (λ i. find i players) ids ∙ known) in
            (
              player,
              ground (arith, same, find-insert id other player players),
              omega (arith, le, more),
            )
        | inr differs ↦
            (old, ground (arith, differs, known, find-insert id other player players), le)
      ]),
    )

-- What waits once an input is buffered: the input, or what waited before.
inputs_cases :
    (input other : BattleInput) (id : Bytes) (old : Map Bytes BattleInput)
    → find id (insert input.player_id input old) ≡ some other
    → ((other ≡ input) × (input.player_id ≡ id)) ⊎ (find id old ≡ some other)
inputs_cases input other id old h = elim (Bool-cases (bytes_eq input.player_id id)) [
  | inl same ↦
      let ids = (bytes_eq_iff input.player_id id).0 same in
      inl (
        some_injective (sym h ∙ ground (arith, same, find-insert input.player_id id input old)),
        ids,
      )
  | inr differs ↦ inr (ground (arith, h, differs, find-insert input.player_id id input old))
]

tick_cases :
    (input : BattleInput) (now_there inputs : Map Bytes BattleInput) (tick : ℕ)
    (pending : Map ℕ (Map Bytes BattleInput))
    → find tick (insert input.tick now_there pending) ≡ some inputs
    → ((inputs ≡ now_there) × (input.tick ≡ tick)) ⊎ (find tick pending ≡ some inputs)
tick_cases input now_there inputs tick pending h = elim (Bool-cases (input.tick == tick)) [
  | inl same ↦
      let ticks = (==_iff input.tick tick).0 same in
      inl (
        some_injective
            (sym h ∙ ground (arith, same, find-insert input.tick tick now_there pending)),
        ticks,
      )
  | inr differs ↦ inr (ground (arith, h, differs, find-insert input.tick tick now_there pending))
]

IsInput : BattleInput → ℕ → Bytes → BattleInput → Type 0
IsInput input tick id other = (other ≡ input) × (input.tick ≡ tick) × (input.player_id ≡ id)

-- With what waited for the tick, nothing or some inputs.
over_cases :
    (old : Map Bytes BattleInput) (pending : Map ℕ (Map Bytes BattleInput))
    (input other : BattleInput) (tick : ℕ) (id : Bytes)
    → ((old ≡ []) ⊎ (find input.tick pending ≡ some old))
    → Waits (insert input.tick (insert input.player_id input old) pending) tick id other
    → IsInput input tick id other ⊎ Waits pending tick id other
unfolding IsInput find
over_cases old pending input other tick id before (inputs, there, found) =
    elim (tick_cases input (insert input.player_id input old) inputs tick pending there) [
      | inr same_there ↦ inr (inputs, same_there, found)
      | inl (same, ticks) ↦
          elim (inputs_cases input other id old
            (subst (λ is. find id is ≡ some other) same found)) [
              | inl (is_input, ids) ↦ inl (is_input, ticks, ids)
              | inr was ↦ elim before [
                | inl fresh ↦ absurd (ground (arith, was, fresh))
                | inr there' ↦ inr (old, subst (λ t. find t pending ≡ some old) ticks there', was)
              ]
            ]
    ]

buffer_cases :
    (pending : Map ℕ (Map Bytes BattleInput)) (input other : BattleInput) (tick : ℕ) (id : Bytes)
    → Waits (buffer_input pending input) tick id other
    → IsInput input tick id other ⊎ Waits pending tick id other
unfolding buffer_input
buffer_cases pending input other tick id waits = elim (Option-cases (find input.tick pending)) [
  | inl fresh ↦ over_cases [] pending input other tick id (inl refl) (
      let eq : buffer_input pending input
          ≡ insert input.tick (insert input.player_id input []) pending =
        ground (arith, fresh) in
      subst (λ p. Waits p tick id other) eq waits)
  | inr (old, there) ↦ over_cases old pending input other tick id (inr there) (
      let eq : buffer_input pending input
          ≡ insert input.tick (insert input.player_id input old) pending =
        ground (arith, there) in
      subst (λ p. Waits p tick id other) eq waits)
]

pub buffer_input-EveryBuffered :
    (players : Map Bytes PlayerState) (now : ℕ) (pending : Map ℕ (Map Bytes BattleInput))
    (input : BattleInput)
    → IsBuffered players now input.tick input.player_id input
    → EveryBuffered players now pending
    → EveryBuffered players now (buffer_input pending input)
unfolding IsInput
buffer_input-EveryBuffered players now pending input new h tick id other waits =
    elim (buffer_cases pending input other tick id waits) [
      | inl (same, ticks, ids) ↦
          subst (λ t. IsBuffered players now t id other) ticks
            (subst (λ i. IsBuffered players now input.tick i other) ids
              (subst (λ o. IsBuffered players now input.tick input.player_id o) (sym same) new))
      | inr before ↦ h tick id other before
    ]
