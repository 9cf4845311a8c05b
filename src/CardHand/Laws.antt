-- ===== src/CardHand/Laws.antt =====
-- The outcomes of `ValidateCast`, `DrawServerCard` and `ApplyCast` of src/card_hand.cpp.
use ph_k_battle_server.Base.{
  ℕ, zero, suc, ◌%◌, ◌≤◌, ◌<◌, ◌≡◌, refl, ◌⊎◌, inl, inr, false, [], ◌∷◌, some, leb, arith, length,
  length-append, get_or, Bytes, codes, bytes_key, Bool-cases, Option-cases,
}
use ph_k_battle_server.Base.Int.{ℤ, pos, negsuc, ◌+ℤ◌}
use ph_k_battle_server.CardHand.{
  Amounts, CardDefinition, HandState, rejected, plays_no_card, accepted, trim_card_id,
  draw_server_card, on_cooldown, find_card_definition, too_costly, validate_card, validate_cast,
}

pub draw_server_card-lem :
    {Double : Type 0} (hand : HandState Double)
    → ((draw_server_card hand).0.cooldowns ≡ hand.cooldowns)
      × ((draw_server_card hand).0.deck ≡ hand.deck)
      × ((draw_server_card hand).0.energy ≡ hand.energy)
      × (length hand.card_ids ≤ 4 → length (draw_server_card hand).0.card_ids ≤ 4)
unfolding draw_server_card
draw_server_card-lem hand = ground (
  arith,
  length-append hand.card_ids
      (trim_card_id (get_or hand.deck (hand.draw_cursor % length hand.deck) []) ∷ []),
)

module _ (m : Amounts) where
  -- What an accepted cast says of the hand: the card stands in the slot, is in the catalog, is not
  -- cooling down and is not too costly.
  abbrev pub IsCast :
      HandState m.Double → ℤ → ℤ → CardDefinition m.Double → Bytes → ℕ → m.Double → ℤ → Type 0
  IsCast hand slot tick row card_id removed energy until =
      (slot ≡ pos removed)
      × (removed < length hand.card_ids)
      × (card_id ≡ trim_card_id (get_or hand.card_ids removed []))
      × (find_card_definition m card_id ≡ some row)
      × (on_cooldown hand.cooldowns card_id tick ≡ false)
      × (too_costly m hand row ≡ false)
      × (energy ≡ m.max_of (m.decimal 0 0) (m.sub hand.energy row.cost))
      × (until ≡ tick +ℤ pos row.cooldown_ticks)

  validate_card_cases :
      (hand : HandState m.Double) (slot : ℕ) (card_id : Bytes) (tick : ℤ)
      → ((reason : Bytes) × (validate_card m hand slot card_id tick ≡ rejected reason))
        ⊎ ((row : CardDefinition m.Double) × ((find_card_definition m card_id ≡ some row)
              × (on_cooldown hand.cooldowns card_id tick ≡ false)
              × (too_costly m hand row ≡ false)
              × (validate_card m hand slot card_id tick
                  ≡ accepted row card_id slot
                      (m.max_of (m.decimal 0 0) (m.sub hand.energy row.cost))
                      (tick +ℤ pos row.cooldown_ticks))))
  unfolding validate_card
  validate_card_cases hand slot card_id tick =
      elim (Option-cases (find_card_definition m card_id)) [
        | inl unknown ↦ inl (codes "cast_card_unknown_card", ground arith)
        | inr (row, known) ↦ elim (Bool-cases (on_cooldown hand.cooldowns card_id tick)) [
          | inl cooling ↦ inl (codes "cast_card_on_cooldown", ground arith)
          | inr ready ↦ elim (Bool-cases (too_costly m hand row)) [
            | inl costly ↦ inl (codes "cast_card_insufficient_energy", ground arith)
            | inr cheap ↦ inr (row, (known, ready, cheap, ground arith))
          ]
        ]
      ]

  -- `ValidateCast` rejects, meets the sentinel -1, or accepts a cast that satisfies `IsCast`.
  pub validate_cast_cases :
      (hand : HandState m.Double) (slot tick : ℤ)
      → ((reason : Bytes) × (validate_cast m hand slot tick ≡ rejected reason))
        ⊎ ((slot ≡ negsuc 0) × (validate_cast m hand slot tick ≡ plays_no_card hand.energy))
        ⊎ ((row : CardDefinition m.Double) × ((card_id : Bytes) × ((removed : ℕ)
                × ((energy : m.Double) × ((until : ℤ) × ((validate_cast m hand slot tick
                          ≡ accepted row card_id removed energy until)
                        × IsCast hand slot tick row card_id removed energy until))))))
  unfolding validate_cast
  validate_cast_cases hand (negsuc zero) tick = inr (inl (refl, refl))
  validate_cast_cases hand (negsuc (suc n)) tick = inl (codes "cast_card_slot_out_of_range", refl)
  validate_cast_cases hand (pos slot) tick = elim (Bool-cases (leb (length hand.card_ids) slot)) [
    | inl beyond ↦ inl (codes "cast_card_slot_out_of_range", ground arith)
    | inr within ↦
        let card_id = trim_card_id (get_or hand.card_ids slot []) in
        elim (validate_card_cases hand slot card_id tick) [
          | inl (reason, bad) ↦ inl (reason, ground (arith, bad, within))
          | inr (row, (known, ready, cheap, good)) ↦ inr (
              inr (
                row,
                (
                  card_id,
                  (
                    slot,
                    (
                      m.max_of (m.decimal 0 0) (m.sub hand.energy row.cost),
                      (
                        tick +ℤ pos row.cooldown_ticks,
                        (
                          ground (arith, good, within),
                          (refl, ground (arith, within), refl, known, ready, cheap, refl, refl),
                        ),
                      ),
                    ),
                  ),
                ),
              ))
        ]
  ]
