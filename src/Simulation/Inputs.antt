-- ===== src/Simulation/Inputs.antt =====
-- What `AcceptInput` of src/simulation.cpp does with an input that it takes, and with those it refuses.
use ph_k_battle_server.Base.{
  ◌+◌, ◌≤◌, ◌≡◌, ◌⊎◌, true, false, some, arith, length, find, nat_key, bytes_key,
}
use ph_k_battle_server.Coop.{BattleInput}
use ph_k_battle_server.Simulation.{PlayerState, BattleSimulation}
use ph_k_battle_server.Simulation.Validation.{validate_input}
use ph_k_battle_server.Simulation.Acceptance.{take_input, accept_input}
use ph_k_battle_server.Simulation.Admissible.{IsAdmissible}

-- The second input of a player, with an old number or for the same tick.
pub Repeats : BattleInput → BattleInput → Type 0
Repeats input again =
    (again.player_id ≡ input.player_id) × ((again.seq ≤ input.seq) ⊎ (again.tick ≡ input.tick))

-- What is true once an input was taken.
pub record IsTaken (s : BattleSimulation) (input : BattleInput) (after : BattleSimulation)
    : Type 0 where
  pub player : PlayerState
  pub admissible : IsAdmissible s player input
  pub counted : after.accepted_input_count ≡ s.accepted_input_count + 1
  pub logged : length after.operation_log ≡ length s.operation_log + 1
  pub repeats_refused :
      (again : BattleInput)
      → Repeats input again
      → ((accept_input after again).1.is_ok ≡ false) × ((accept_input after again).0 ≡ after)

pub refused-unchanged :
    (s : BattleSimulation) (input : BattleInput)
    → (validate_input s input).is_ok ≡ false
    → ((accept_input s input).1.is_ok ≡ false) × ((accept_input s input).0 ≡ s)
unfolding accept_input
refused-unchanged s input h = (ground (arith, h), ground (arith, h))

pub accept-take :
    (s : BattleSimulation) (input : BattleInput) (player : PlayerState)
    → (validate_input s input).is_ok ≡ true
    → find input.player_id s.players ≡ some player
    → accept_input s input ≡ (take_input s player input, validate_input s input)
unfolding accept_input
accept-take s input player valid known = ground (arith, valid, known)
