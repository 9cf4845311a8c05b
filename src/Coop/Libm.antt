-- ===== src/Coop/Libm.antt =====
-- What src/coop_boss.cpp takes from the C++ runtime: the type `double` and `<cmath>`. The
-- functions are not described further: the theorems hold for any.
use ph_k_battle_server.Base.{ℕ, Bool}
use ph_k_battle_server.Base.Int.{ℤ}

pub record Libm : Type 1 where
  pub Double : Type 0
  -- `static_cast<double>`.
  pub of_int : ℤ → Double
  -- The literal m / 10 ^ k.
  pub decimal : ℕ → ℕ → Double
  pub add : Double → Double → Double
  pub sub : Double → Double → Double
  pub mul : Double → Double → Double
  pub div : Double → Double → Double
  pub cos : Double → Double
  pub sin : Double → Double
  pub sqrt : Double → Double
  pub atan2 : Double → Double → Double
  pub is_positive : Double → Bool
  -- `static_cast<std::int32_t>(std::llround(v))`.
  pub llround : Double → ℤ
