-- ===== src/CardHand/Tests.antt =====
-- A hand of cards with energies in tenths of thousandths, and the theorems at concrete casts.
use ph_k_battle_server.Base.{
  ℕ, ◌+◌, ◌-◌, ◌*◌, ◌^◌, ◌≤◌, ◌≡◌, ◌≢◌, refl, [], ◌∷◌, some, length, max, ltb, find, codes,
  bytes_eq, bytes_key, arith,
}
use ph_k_battle_server.Base.Int.{pos, ◌+ℤ◌}
use ph_k_battle_server.CardHand.{
  Amounts, CardDefinition, HandState, rejected, accepted, trim_card_id, trim_left, trim_right,
  is_whitespace, find_row, on_cooldown, catalog, find_card_definition, too_costly, validate_card,
  validate_cast, apply_cast,
}
use ph_k_battle_server.CardHand.Casts.{cast, draw, cast_card, run, run-HasRoom, cooldown_holds}

-- Amounts as whole numbers of 1 / 10000.
abbrev tenths : Amounts
tenths = record {
  Double = ℕ;
  decimal = λ m k. m * 10 ^ (4 - k);
  add = λ a b. a + b;
  sub = λ a b. a - b;
  max_of = λ a b. max a b;
  less_than = ltb;
}

abbrev hand : HandState ℕ
hand = record {
  card_ids = codes " focus_lens" ∷ codes "last_arc" ∷ [];
  energy = 50000;
  cooldowns = [];
  draw_cursor = 0;
  deck = codes "focus_lens" ∷ codes "iron_veil" ∷ [];
}

abbrev focus_lens : CardDefinition ℕ
focus_lens = record {
  card_id = codes "focus_lens";
  effect_kind = codes "self";
  cost = 20000;
  cooldown_ticks = 240;
  duration_ticks = 360;
  damage = 12;
  score_bonus = 180000;
  energy_gain = 0;
  draw_cards = 0;
  pattern_id = [];
  purge_radius = 0;
  purge_count = 0;
}

lens_cast :
    (apply_cast tenths hand (pos 0) (pos 100)).1
    ≡ accepted focus_lens (codes "focus_lens") 0 30000 (pos 340)
unfolding apply_cast validate_cast validate_card find_card_definition find_row catalog trim_card_id
    trim_left trim_right is_whitespace on_cooldown too_costly find bytes_eq ◌+ℤ◌
lens_cast = refl

finisher_too_costly :
    (apply_cast tenths hand (pos 1) (pos 100)).1 ≡ rejected (codes "cast_card_insufficient_energy")
unfolding apply_cast validate_cast validate_card find_card_definition find_row catalog trim_card_id
    trim_left trim_right is_whitespace on_cooldown too_costly find bytes_eq
finisher_too_costly = refl

run-HasRoom_example :
    (length (run tenths hand (cast (pos 0) (pos 100) ∷ draw ∷ draw ∷ draw ∷ [])).card_ids ≤ 4)
    × ((run tenths hand (cast (pos 0) (pos 100) ∷ draw ∷ draw ∷ draw ∷ [])).deck ≡ hand.deck)
run-HasRoom_example =
    run-HasRoom tenths (cast (pos 0) (pos 100) ∷ draw ∷ draw ∷ draw ∷ []) hand (omega arith)

-- The deck gives the card again at once, but it cools down.
cooldown_holds_example :
    cast_card
      (apply_cast tenths
        (run tenths (apply_cast tenths hand (pos 0) (pos 100)).0 (draw ∷ []))
        (pos 1)
        (pos 339)).1
    ≢ some (codes "focus_lens")
cooldown_holds_example =
    cooldown_holds tenths hand (pos 0) (pos 100) focus_lens (codes "focus_lens") 0 30000 (pos 340)
      (draw ∷ []) (pos 1) (pos 339) lens_cast (tt, tt) refl
