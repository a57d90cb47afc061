-- ===== src/Messages/Params.antt =====
-- The parameters of the module and what validates them: x/schedule/types/params.go. An amount is a
-- number: balances and the parameters that `Validate` accepts are never negative.
use burnt.Base.{ℕ, Bytes}

-- A coin of the SDK.
pub record Coin : Type 0 where
  pub denom : Bytes
  pub amount : ℕ

pub record Params : Type 0 where
  pub minimum_balance : Coin
  pub upper_bound : ℕ

unfoldable pub new_params : Coin → ℕ → Params
new_params gas_min upper_bound = record { minimum_balance = gas_min; upper_bound = upper_bound }
