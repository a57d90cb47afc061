-- ===== src/Schedule/GasLimit.antt =====
-- `determineGasLimit` of x/schedule/keeper/abci.go: what a fee allowance lets a grantee spend.
pub mod Nesting
use burnt.Base.{◌>>=◌, List, Option, none, some, Result, ok, err, unmet_minimum_balance, sdk_error}
use burnt.Messages.Params.{Coin}

-- The allowances of x/feegrant that the switch tells apart. `allowed_msg` holds the allowance that
-- `GetAllowance` unpacks, if it can; `other` is any further type.
pub data Allowance : Type 0 where
  basic : List Coin → Allowance
  periodic : List Coin → List Coin → Allowance
  allowed_msg : Allowance → Allowance
  undecodable : Allowance
  other : Allowance

-- `Coins.Add` is the SDK's.
module _ (add_coins : List Coin → List Coin → List Coin) where
  -- The loop `for allowance != nil`.
  unfoldable pub spend_limit : Allowance → Result (List Coin)
  spend_limit (basic limit) = ok limit
  spend_limit (periodic period_can_spend limit) = ok (add_coins period_can_spend limit)
  spend_limit (allowed_msg inner) = spend_limit inner
  spend_limit undecodable = err sdk_error
  spend_limit other = err unmet_minimum_balance

  -- `granted` is the answer of the fee grant keeper: an error, or an allowance, or nil.
  unfoldable pub determine_gas_limit : Result (Option Allowance) → Result (List Coin)
  determine_gas_limit granted = granted >>= λ allowance. elim allowance [
    | none ↦ err unmet_minimum_balance
    | some a ↦ spend_limit a
  ]
