-- ===== src/CardHand.antt =====
-- src/card_hand.cpp and include/phk/battle/card_hand.hpp: the hand of cards of a player and the
-- rules for casting. Energies are doubles, of which the code uses the operations of `Amounts`;
-- ticks are signed integers without a width.
pub mod Laws
pub mod Casts
mod Tests
use ph_k_battle_server.Base.{
  ℕ, zero, suc, ◌+◌, ◌-◌, ◌%◌, ◌≡◌, Bool, true, false, ◌&&◌, ◌||◌, not, List, [], ◌∷◌, ◌++◌, Option,
  none, some, ltb, leb, ◌==◌, if◌then◌else◌, length, get_or, remove_at, is_empty, Map, find, insert,
  Bytes, codes, bytes_eq, bytes_key,
}
use ph_k_battle_server.Base.Int.{ℤ, pos, negsuc, ◌+ℤ◌, ltb_ℤ}

-- The type `double`, as far as the cards use it.
pub record Amounts : Type 1 where
  pub Double : Type 0
  -- The literal m / 10 ^ k.
  pub decimal : ℕ → ℕ → Double
  pub add : Double → Double → Double
  pub sub : Double → Double → Double
  pub max_of : Double → Double → Double
  pub less_than : Double → Double → Bool

abbrev pub card_hand_limit : ℕ
card_hand_limit = 4

unfoldable pub is_whitespace : ℕ → Bool
is_whitespace byte =
    (byte == 32)
    || ((byte == 9) || ((byte == 10) || ((byte == 13) || ((byte == 11) || (byte == 12)))))

unfoldable pub trim_left : Bytes → Bytes
unfolding is_whitespace
trim_left [] = []
trim_left (byte ∷ rest) = if is_whitespace byte then trim_left rest else byte ∷ rest

-- The text up to its last byte that is no space.
unfoldable pub trim_right : Bytes → Bytes
unfolding is_whitespace
trim_right [] = []
trim_right (byte ∷ rest) =
    let trimmed = trim_right rest in
    if is_empty trimmed && is_whitespace byte then [] else byte ∷ trimmed

unfoldable pub trim_card_id : Bytes → Bytes
trim_card_id value = trim_right (trim_left value)

pub record CardDefinition (Double : Type 0) : Type 0 where
  pub card_id : Bytes
  pub effect_kind : Bytes
  pub cost : Double
  pub cooldown_ticks : ℕ
  pub duration_ticks : ℕ
  pub damage : ℕ
  pub score_bonus : Double
  pub energy_gain : Double
  pub draw_cards : ℕ
  pub pattern_id : Bytes
  pub purge_radius : Double
  pub purge_count : ℕ

pub record HandState (Double : Type 0) : Type 0 where
  pub card_ids : List Bytes
  pub energy : Double
  pub cooldowns : Map Bytes ℤ
  pub draw_cursor : ℕ
  pub deck : List Bytes

-- `CastValidationResult`: a rejection with its reason, the sentinel for no card, or the cast.
-- The fields that a rejection or the sentinel leaves at their defaults are not kept.
pub data CastValidationResult (Double : Type 0) : Type 0 where
  rejected : Bytes → CastValidationResult Double
  plays_no_card : Double → CastValidationResult Double
  accepted : CardDefinition Double → Bytes → ℕ → Double → ℤ → CastValidationResult Double

-- `CardActivation` of include/phk/battle/card_effects.hpp.
pub record CardActivation (Double : Type 0) : Type 0 where
  pub card_id : Bytes
  pub effect_kind : Bytes
  pub pattern_id : Bytes
  pub expires_tick : ℤ
  pub purge_radius : Double
  pub purge_count : ℕ

-- `FindCardDefinition`, over the rows of a table.
unfoldable pub find_row :
    {Double : Type 0} → Bytes → List (CardDefinition Double) → Option (CardDefinition Double)
find_row card_id [] = none
find_row card_id (row ∷ rows) =
    if bytes_eq row.card_id card_id then some row else find_row card_id rows

unfoldable pub draw_server_card : {Double : Type 0} → HandState Double → HandState Double × Bool
draw_server_card hand =
    let card_id = trim_card_id (get_or hand.deck (hand.draw_cursor % length hand.deck) []) in
    let next = record hand { draw_cursor = hand.draw_cursor + 1 } in
    if leb card_hand_limit (length hand.card_ids) || is_empty hand.deck
    then (hand, false)
    else (if is_empty card_id
        then (next, false)
        else (record next { card_ids = hand.card_ids ++ card_id ∷ [] }, true))

unfoldable pub build_card_activation :
    {Double : Type 0} → CardDefinition Double → ℤ → CardActivation Double
build_card_activation definition tick = record {
  card_id = definition.card_id;
  effect_kind = definition.effect_kind;
  pattern_id = definition.pattern_id;
  expires_tick = tick +ℤ pos definition.duration_ticks;
  purge_radius = definition.purge_radius;
  purge_count = definition.purge_count;
}

-- The tick is before the one that the card may be cast again, if there is one.
unfoldable pub on_cooldown : Map Bytes ℤ → Bytes → ℤ → Bool
on_cooldown cooldowns card_id tick = elim (find card_id cooldowns) [
  | none ↦ false
  | some until ↦ ltb_ℤ tick until
]

module _ (m : Amounts) where
  open m use {Double, decimal, add, sub, max_of, less_than}

  definition :
      Bytes
      → Bytes
      → Double
      → ℕ
      → ℕ
      → ℕ
      → Double
      → Double
      → ℕ
      → Bytes
      → Double
      → ℕ
      → CardDefinition Double
  definition id kind cost cooldown duration damage bonus gain draw pattern radius count = record {
    card_id = id;
    effect_kind = kind;
    cost = cost;
    cooldown_ticks = cooldown;
    duration_ticks = duration;
    damage = damage;
    score_bonus = bonus;
    energy_gain = gain;
    draw_cards = draw;
    pattern_id = pattern;
    purge_radius = radius;
    purge_count = count;
  }

  unfoldable pub catalog : List (CardDefinition Double)
  unfolding definition
  catalog =
      (definition (codes "focus_lens") (codes "self") (decimal 2 0) 240 360 12 (decimal 18 0)
        (decimal 0 0) 0 [] (decimal 0 0) 0)
      ∷ (definition (codes "hitbox_charm") (codes "self") (decimal 3 0) 420 300 14 (decimal 20 0)
          (decimal 0 0) 0 [] (decimal 0 0) 0)
      ∷ (definition (codes "density_surge") (codes "pattern") (decimal 4 0) 540 420 30
          (decimal 32 0) (decimal 0 0) 0 [] (decimal 0 0) 0)
      ∷ (definition (codes "tempo_break") (codes "pattern") (decimal 3 0) 480 300 22 (decimal 26 0)
          (decimal 0 0) 0 [] (decimal 0 0) 0)
      ∷ (definition (codes "bomb_amplifier") (codes "self") (decimal 2 0) 360 480 16 (decimal 18 0)
          (decimal 0 0) 0 [] (decimal 0 0) 0)
      ∷ (definition (codes "guard_seal") (codes "self") (decimal 5 0) 720 900 18 (decimal 30 0)
          (decimal 0 0) 0 [] (decimal 0 0) 0)
      ∷ (definition (codes "graze_engine") (codes "economy") (decimal 2 0) 300 360 10 (decimal 20 0)
          (decimal 0 0) 0 [] (decimal 0 0) 0)
      ∷ (definition (codes "draw_sigil") (codes "economy") (decimal 1 0) 420 1 0 (decimal 12 0)
          (decimal 75 2) 1 [] (decimal 0 0) 0)
      ∷ (definition (codes "aim_baffle") (codes "pattern") (decimal 4 0) 600 360 28 (decimal 32 0)
          (decimal 0 0) 0 [] (decimal 0 0) 0)
      ∷ (definition (codes "purge_charm") (codes "self") (decimal 3 0) 540 480 18 (decimal 24 0)
          (decimal 0 0) 0 [] (decimal 0 0) 0)
      ∷ (definition (codes "curve_prism") (codes "pattern") (decimal 3 0) 500 360 24 (decimal 28 0)
          (decimal 0 0) 0 [] (decimal 0 0) 0)
      ∷ (definition (codes "last_arc") (codes "finisher") (decimal 6 0) 900 420 48 (decimal 60 0)
          (decimal 0 0) 0 [] (decimal 0 0) 0)
      ∷ (definition (codes "mirror_lance") (codes "opponent_pattern") (decimal 4 0) 540 360 26
          (decimal 30 0) (decimal 0 0) 0 (codes "mirror_lance") (decimal 0 0) 0)
      ∷ (definition (codes "purge_bell") (codes "bullet_purge") (decimal 3 0) 480 1 0 (decimal 22 0)
          (decimal 0 0) 0 [] (decimal 120 0) 24)
      ∷ (definition (codes "aegis_ward") (codes "invulnerable") (decimal 5 0) 720 180 0
          (decimal 20 0) (decimal 0 0) 0 [] (decimal 0 0) 0)
      ∷ (definition (codes "finale_arc") (codes "finisher") (decimal 6 0) 900 1 60 (decimal 80 0)
          (decimal 0 0) 0 [] (decimal 0 0) 0)
      ∷ (definition (codes "frost_arc") (codes "bullet_purge") (decimal 2 0) 360 1 0 (decimal 18 0)
          (decimal 0 0) 0 [] (decimal 100 0) 12)
      ∷ (definition (codes "ember_lance") (codes "opponent_pattern") (decimal 3 0) 300 240 20
          (decimal 24 0) (decimal 0 0) 0 (codes "ember_lance") (decimal 0 0) 0)
      ∷ (definition (codes "iron_veil") (codes "invulnerable") (decimal 4 0) 480 120 0
          (decimal 16 0) (decimal 0 0) 0 [] (decimal 0 0) 0)
      ∷ (definition (codes "thunder_fall") (codes "finisher") (decimal 4 0) 420 1 30 (decimal 40 0)
          (decimal 0 0) 0 [] (decimal 0 0) 0)
      ∷ []

  unfoldable pub find_card_definition : Bytes → Option (CardDefinition Double)
  find_card_definition card_id = find_row card_id catalog

  -- `energy + 0.0001 < cost`.
  unfoldable pub too_costly : HandState Double → CardDefinition Double → Bool
  too_costly hand row = less_than (add hand.energy (decimal 1 4)) row.cost

  -- The tests on the card in a slot of the hand.
  unfoldable pub validate_card : HandState Double → ℕ → Bytes → ℤ → CastValidationResult Double
  validate_card hand slot card_id tick = elim (find_card_definition card_id) [
    | none ↦ rejected (codes "cast_card_unknown_card")
    | some row ↦
        if on_cooldown hand.cooldowns card_id tick
        then rejected (codes "cast_card_on_cooldown")
        else (if too_costly hand row
            then rejected (codes "cast_card_insufficient_energy")
            else accepted row card_id slot (max_of (decimal 0 0) (sub hand.energy row.cost))
                (tick +ℤ pos row.cooldown_ticks))
  ]

  unfoldable pub validate_cast : HandState Double → ℤ → ℤ → CastValidationResult Double
  validate_cast hand (negsuc zero) tick = plays_no_card hand.energy
  validate_cast hand (negsuc (suc n)) tick = rejected (codes "cast_card_slot_out_of_range")
  validate_cast hand (pos slot) tick =
      if leb (length hand.card_ids) slot
      then rejected (codes "cast_card_slot_out_of_range")
      else validate_card hand slot (trim_card_id (get_or hand.card_ids slot [])) tick

  -- What an accepted cast writes, before the card that is drawn.
  unfoldable pub pay : HandState Double → Bytes → ℕ → Double → ℤ → HandState Double
  pay hand card_id slot energy cooldown_until = record hand {
    energy = energy;
    cooldowns = insert card_id cooldown_until hand.cooldowns;
    card_ids = remove_at slot hand.card_ids;
  }

  unfoldable pub apply_cast :
      HandState Double → ℤ → ℤ → HandState Double × CastValidationResult Double
  apply_cast hand slot tick = elim (validate_cast hand slot tick) [
    | rejected reason ↦ (hand, rejected reason)
    | plays_no_card energy ↦ (hand, plays_no_card energy)
    | accepted row card_id removed_slot energy cooldown_until ↦ (
      (draw_server_card (pay hand card_id removed_slot energy cooldown_until)).0,
      accepted row card_id removed_slot energy cooldown_until,
    )
  ]
