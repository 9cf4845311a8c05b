-- ===== src/CardHand/Casts.antt =====
-- Casts in a row: what holds of a hand of src/card_hand.cpp over a whole match.
use ph_k_battle_server.Base.{
  ℕ, ◌≤◌, ◌≡◌, ◌≢◌, refl, sym, ap, ◌∙◌, subst, ◌⊎◌, inl, inr, true, false, List, [], ◌∷◌, Option,
  none, some, arith, length, length-remove_at, find, insert, find-insert, find-insert_self, Bytes,
  bytes_eq, bytes_eq_iff, bytes_key, All,
}
use ph_k_battle_server.Base.Int.{ℤ, ltb_ℤ}
use ph_k_battle_server.CardHand.{
  Amounts, CardDefinition, HandState, CastValidationResult, rejected, plays_no_card, accepted,
  draw_server_card, on_cooldown, pay, apply_cast,
}
use ph_k_battle_server.CardHand.Laws.{draw_server_card-lem, IsCast, validate_cast_cases}

abbrev pub cast_card : {Double : Type 0} → CastValidationResult Double → Option Bytes
cast_card (rejected reason) = none
cast_card (plays_no_card energy) = none
cast_card (accepted row card_id removed energy until) = some card_id

abbrev pub HasRoom : {Double : Type 0} → HandState Double → Type 0
HasRoom hand = length hand.card_ids ≤ 4

module _ (m : Amounts) where
  -- An accepted cast takes the card out of its slot, pays for it, notes its cooldown and draws;
  -- everything else leaves the hand as it is.
  pub apply_cast_cases :
      (hand : HandState m.Double) (slot tick : ℤ)
      → (((apply_cast m hand slot tick).0 ≡ hand)
          × (cast_card (apply_cast m hand slot tick).1 ≡ none))
        ⊎ ((row : CardDefinition m.Double) × ((card_id : Bytes) × ((removed : ℕ)
                × ((energy : m.Double) × ((until : ℤ) × ((apply_cast m hand slot tick ≡ (
                  (draw_server_card (pay m hand card_id removed energy until)).0,
                  accepted row card_id removed energy until,
                ))
                        × IsCast m hand slot tick row card_id removed energy until))))))
  unfolding apply_cast
  apply_cast_cases hand slot tick = elim (validate_cast_cases m hand slot tick) [
    | inl (reason, bad) ↦ inl (ground (arith, bad), ground (arith, bad))
    | inr (inl (_, idle)) ↦ inl (ground (arith, idle), ground (arith, idle))
    | inr (inr (row, (card_id, (removed, (energy, (until, (good, cast))))))) ↦
        inr (row, (card_id, (removed, (energy, (until, (ground (arith, good), cast))))))
  ]

  apply_cast-HasRoom :
      (hand : HandState m.Double) (slot tick : ℤ)
      → HasRoom hand
      → HasRoom (apply_cast m hand slot tick).0 × ((apply_cast m hand slot tick).0.deck ≡ hand.deck)
  unfolding pay
  apply_cast-HasRoom hand slot tick room = elim (apply_cast_cases hand slot tick) [
    | inl (same, _) ↦ (subst HasRoom (sym same) room, ap (λ h. h.deck) same)
    | inr (row, (card_id, (removed, (energy, (until, (done, cast)))))) ↦
        let paid = pay m hand card_id removed energy until in
        let (_, deck, _, bound) = draw_server_card-lem paid in
        (
          subst (λ r. HasRoom r.0) (sym done)
              (bound (omega (arith, length-remove_at removed hand.card_ids cast.1))),
          ap (λ r. r.0.deck) done ∙ deck,
        )
  ]

  -- The calls on a hand.
  pub data Call : Type 0 where
    cast : ℤ → ℤ → Call
    draw : Call

  abbrev pub step : HandState m.Double → Call → HandState m.Double
  step hand (cast slot tick) = (apply_cast m hand slot tick).0
  step hand draw = (draw_server_card hand).0

  unfoldable pub run : HandState m.Double → List Call → HandState m.Double
  run hand [] = hand
  run hand (call ∷ calls) = run (step hand call) calls

  -- A hand of at most four cards stays one, whatever is cast and drawn, and its deck stays.
  pub run-HasRoom :
      (calls : List Call) (hand : HandState m.Double)
      → length hand.card_ids ≤ 4
      → (length (run hand calls).card_ids ≤ 4) × ((run hand calls).deck ≡ hand.deck)
  unfolding run
  run-HasRoom [] hand room = (room, refl)
  run-HasRoom (cast slot tick ∷ calls) hand room =
      let (room', deck) = apply_cast-HasRoom hand slot tick room in
      let (bound, same) = run-HasRoom calls (apply_cast m hand slot tick).0 room' in
      (bound, same ∙ deck)
  run-HasRoom (draw ∷ calls) hand room =
      let (_, deck, _, keeps) = draw_server_card-lem hand in
      let (bound, same) = run-HasRoom calls (draw_server_card hand).0 (keeps room) in
      (bound, same ∙ deck)

  -- The card cools down until the tick.
  abbrev Cools : Bytes → ℤ → HandState m.Double → Type 0
  Cools card_id until hand = find card_id hand.cooldowns ≡ some until

  on_cooldown-true :
      (card_id : Bytes) (until tick : ℤ) (hand : HandState m.Double)
      → Cools card_id until hand
      → ltb_ℤ tick until ≡ true
      → on_cooldown hand.cooldowns card_id tick ≡ true
  unfolding on_cooldown
  on_cooldown-true card_id until tick hand cools before = ground (arith, cools, before)

  -- While it cools down, the card is not cast, and goes on cooling down.
  apply_cast-Cools :
      (card_id : Bytes) (until : ℤ) (hand : HandState m.Double) (slot tick : ℤ)
      → Cools card_id until hand
      → ltb_ℤ tick until ≡ true
      → (cast_card (apply_cast m hand slot tick).1 ≢ some card_id)
        × Cools card_id until (apply_cast m hand slot tick).0
  unfolding pay
  apply_cast-Cools card_id until hand slot tick cools before =
      elim (apply_cast_cases hand slot tick) [
        | inl (same, none_cast) ↦
            (λ e. ground (arith, e, none_cast), subst (Cools card_id until) (sym same) cools)
        | inr (row, (other, (removed, (energy, (later, (done, played)))))) ↦
            let paid = pay m hand other removed energy later in
            let differs : bytes_eq other card_id ≡ false = ground (
              arith,
              played.4,
              bytes_eq_iff other card_id,
              on_cooldown-true card_id until tick hand cools before,
            ) in
            (
              λ e.
                  ground
                    (arith, e, ap (λ r. cast_card r.1) done, bytes_eq_iff other card_id, differs),
              ap (λ r. find card_id r.0.cooldowns) done
                  ∙ ap (λ c. find card_id c) (draw_server_card-lem paid).0
                  ∙ ground (arith, find-insert other card_id later hand.cooldowns, differs, cools),
            )
      ]

  -- The casts among the calls come before the tick.
  abbrev pub IsBefore : ℤ → Call → Type 0
  IsBefore until (cast slot tick) = ltb_ℤ tick until ≡ true
  IsBefore until draw = Unit

  run-Cools :
      (card_id : Bytes) (until : ℤ) (calls : List Call) (hand : HandState m.Double)
      → Cools card_id until hand
      → All (IsBefore until) calls
      → Cools card_id until (run hand calls)
  unfolding run
  run-Cools card_id until [] hand cools early = cools
  run-Cools card_id until (cast slot tick ∷ calls) hand cools early =
      run-Cools card_id until calls (apply_cast m hand slot tick).0
        (apply_cast-Cools card_id until hand slot tick cools early.0).1 early.1
  run-Cools card_id until (draw ∷ calls) hand cools early =
      run-Cools card_id until calls (draw_server_card hand).0
        (ap (λ c. find card_id c) (draw_server_card-lem hand).0 ∙ cools) early.1

  accepted-Cools :
      (hand : HandState m.Double) (slot tick : ℤ) (row : CardDefinition m.Double) (card_id : Bytes)
      (removed : ℕ) (energy : m.Double) (until : ℤ)
      → (apply_cast m hand slot tick).1 ≡ accepted row card_id removed energy until
      → Cools card_id until (apply_cast m hand slot tick).0
  unfolding pay
  accepted-Cools hand slot tick row card_id removed energy until was_accepted =
      elim (apply_cast_cases hand slot tick) [
        | inl (_, none_cast) ↦ ground (arith, ap cast_card was_accepted, none_cast)
        | inr (row', (id', (removed', (energy', (until', (done, _)))))) ↦
            let paid = pay m hand id' removed' energy' until' in
            let same_id : id' ≡ card_id = ground (arith, ap (λ r. r.1) done, was_accepted) in
            let same_until : until' ≡ until = ground (arith, ap (λ r. r.1) done, was_accepted) in
            ap (λ r. find card_id r.0.cooldowns) done
            ∙ ap (λ c. find card_id c) (draw_server_card-lem paid).0
            ∙ ap (λ id. find id (insert id' until' hand.cooldowns)) (sym same_id)
            ∙ find-insert_self id' until' hand.cooldowns
            ∙ ap some same_until
      ]

  -- After an accepted cast, as long as every tick lies before the end of its cooldown, the card is
  -- not cast again, whatever is cast and drawn in between.
  pub cooldown_holds :
      (hand : HandState m.Double) (slot tick : ℤ) (row : CardDefinition m.Double) (card_id : Bytes)
      (removed : ℕ) (energy : m.Double) (until : ℤ) (calls : List Call) (slot' tick' : ℤ)
      → (apply_cast m hand slot tick).1 ≡ accepted row card_id removed energy until
      → All (IsBefore until) calls
      → ltb_ℤ tick' until ≡ true
      → cast_card (apply_cast m (run (apply_cast m hand slot tick).0 calls) slot' tick').1
        ≢ some card_id
  cooldown_holds hand slot tick row card_id removed energy until calls slot' tick' was early
        before =
      (apply_cast-Cools card_id until (run (apply_cast m hand slot tick).0 calls) slot' tick'
        (run-Cools card_id until calls (apply_cast m hand slot tick).0
          (accepted-Cools hand slot tick row card_id removed energy until was) early)
        before).0
