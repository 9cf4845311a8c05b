-- ===== src/Simulation/Admissible.antt =====
-- When the tests of `ValidateInput` of src/simulation.cpp pass.
use ph_k_battle_server.Base.{
  ◌+◌, ◌≤◌, ◌<◌, ◌≡◌, refl, inl, inr, true, false, ◌&&◌, List, [], ◌∷◌, ◌++◌, some, arith, ltb,
  length, All, find, nat_key, bytes_key, bytes_eq_iff, Option-cases,
}
use ph_k_battle_server.Base.Int.{pos, negsuc, ltb_ℤ}
use ph_k_battle_server.Protocol.{is_compatible}
use ph_k_battle_server.Coop.{BattleInput}
use ph_k_battle_server.Simulation.{
  player_unknown, PlayerState, BattleSimulation, boss_defeated, is_boss_mode, boss_mode_min_players,
}
use ph_k_battle_server.Simulation.Validation.{
  Refusal, first_refusal, is_pending, player_tests, match_tests, validate_input,
  is_valid_optional_audit_token,
}

abbrev Passes : Refusal → Type 0
Passes test = test.0 ≡ false

first_refusal-Passes :
    (tests : List Refusal) → (first_refusal tests).is_ok ≡ true → All Passes tests
unfolding first_refusal
first_refusal-Passes [] h = tt
first_refusal-Passes ((true, code, reason) ∷ tests) h = cc
first_refusal-Passes ((false, code, reason) ∷ tests) h = (refl, first_refusal-Passes tests h)

All-Passes : (xs ys : List Refusal) → All Passes (xs ++ ys) → All Passes xs × All Passes ys
All-Passes [] ys h = (tt, h)
All-Passes (x ∷ xs) ys h = let (hx, hy) = All-Passes xs ys h.1 in ((h.0, hx), hy)

-- What an input must be to be taken.
pub record IsAdmissible (s : BattleSimulation) (player : PlayerState) (input : BattleInput)
    : Type 0 where
  pub known : find input.player_id s.players ≡ some player
  pub compatible : is_compatible input.version ≡ true
  pub of_match : input.match_id ≡ s.config.match_id
  pub open_match : boss_defeated s ≡ false
  pub enough :
      (is_boss_mode s.config.mode_id && ltb (length s.players) boss_mode_min_players) ≡ false
  pub connected : player.connected ≡ true
  pub newer : player.last_seq < input.seq
  pub not_far : input.seq ≤ player.last_seq + s.config.max_seq_ahead
  pub ahead : s.current_tick < input.tick
  pub in_window : input.tick ≤ s.current_tick + s.config.max_input_ahead_ticks
  pub not_pending : is_pending s input ≡ false
  pub directions : input.direction_bits < 16
  pub slot_low : ltb_ℤ input.card_slot (negsuc 0) ≡ false
  pub slot_high : ltb_ℤ (pos 4) input.card_slot ≡ false
  pub action_length : length input.mode_action_id ≤ s.config.max_mode_action_id_bytes
  pub action_token : is_valid_optional_audit_token input.mode_action_id ≡ true

tests-IsAdmissible :
    (s : BattleSimulation) (player : PlayerState) (input : BattleInput)
    → find input.player_id s.players ≡ some player
    → All Passes (match_tests s input)
    → All Passes (player_tests s player input)
    → IsAdmissible s player input
unfolding match_tests player_tests
tests-IsAdmissible s player input known m p = record {
  known = known;
  compatible = ground (arith, m.0);
  of_match = ground (arith, m.1.0, bytes_eq_iff input.match_id s.config.match_id);
  open_match = m.1.1.0;
  enough = p.0;
  connected = ground (arith, p.1.0);
  newer = ground (arith, p.1.1.1.0);
  not_far = ground (arith, p.1.1.1.0, p.1.1.1.1.0);
  ahead = ground (arith, p.1.1.1.1.1.0);
  in_window = ground (arith, p.1.1.1.1.1.0, p.1.1.1.1.1.1.0);
  not_pending = p.1.1.1.1.1.1.1.0;
  directions = ground (arith, p.1.1.1.1.1.1.1.1.0);
  slot_low = ground (arith, p.1.1.1.1.1.1.1.1.1.0);
  slot_high = ground (arith, p.1.1.1.1.1.1.1.1.1.0);
  action_length = ground (arith, p.1.1.1.1.1.1.1.1.1.1.0);
  action_token = ground (arith, p.1.1.1.1.1.1.1.1.1.1.1.0);
}

IsAdmissible-match_tests :
    (s : BattleSimulation) (player : PlayerState) (input : BattleInput)
    → IsAdmissible s player input
    → All Passes (match_tests s input)
unfolding match_tests
IsAdmissible-match_tests s player input a = (
  ground (arith, a.compatible),
  (ground (arith, a.of_match, bytes_eq_iff input.match_id s.config.match_id), (a.open_match, tt)),
)

IsAdmissible-player_tests :
    (s : BattleSimulation) (player : PlayerState) (input : BattleInput)
    → IsAdmissible s player input
    → All Passes (player_tests s player input)
unfolding player_tests
IsAdmissible-player_tests s player input a = (
  a.enough,
  (
    ground (arith, a.connected),
    (
      ground (arith, a.newer),
      (
        ground (arith, a.newer),
        (
          ground (arith, a.not_far),
          (
            ground (arith, a.ahead),
            (
              ground (arith, a.in_window),
              (
                a.not_pending,
                (
                  ground (arith, a.directions),
                  (
                    ground (arith, a.slot_low, a.slot_high),
                    (ground (arith, a.action_length), (ground (arith, a.action_token), tt)),
                  ),
                ),
              ),
            ),
          ),
        ),
      ),
    ),
  ),
)

All-Passes_append : (xs ys : List Refusal) → All Passes xs → All Passes ys → All Passes (xs ++ ys)
All-Passes_append [] ys hx hy = hy
All-Passes_append (x ∷ xs) ys hx hy = (hx.0, All-Passes_append xs ys hx.1 hy)

Passes-first_refusal :
    (tests : List Refusal) → All Passes tests → (first_refusal tests).is_ok ≡ true
unfolding first_refusal
Passes-first_refusal [] h = refl
Passes-first_refusal ((refused, code, reason) ∷ tests) (h, hs) =
    ground (arith, h, Passes-first_refusal tests hs)

pub IsAdmissible-validate :
    (s : BattleSimulation) (player : PlayerState) (input : BattleInput)
    → IsAdmissible s player input
    → (validate_input s input).is_ok ≡ true
unfolding validate_input
IsAdmissible-validate s player input a =
    let all = Passes-first_refusal (match_tests s input ++ player_tests s player input) (
      All-Passes_append (match_tests s input) (player_tests s player input)
        (IsAdmissible-match_tests s player input a) (IsAdmissible-player_tests s player input a)) in
    ground (arith, a.known, all)

pub validate-IsAdmissible :
    (s : BattleSimulation) (input : BattleInput)
    → (validate_input s input).is_ok ≡ true
    → (player : PlayerState) × IsAdmissible s player input
unfolding validate_input
validate-IsAdmissible s input h = elim (Option-cases (find input.player_id s.players)) [
  | inl absent ↦
      let (m, unknown) = All-Passes (match_tests s input) _ (
        first_refusal-Passes (match_tests s input ++ (true, player_unknown, "player_unknown") ∷ [])
          (ground (arith, h, absent))) in
      absurd (ground (arith, unknown.0))
  | inr (player, found) ↦
      let (m, p) = All-Passes (match_tests s input) (player_tests s player input) (
        first_refusal-Passes (match_tests s input ++ player_tests s player input)
          (ground (arith, h, found))) in
      (player, tests-IsAdmissible s player input found m p)
]
