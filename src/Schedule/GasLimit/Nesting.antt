-- ===== src/Schedule/GasLimit/Nesting.antt =====
-- How `determineGasLimit` goes through allowances that wrap other allowances.
use burnt.Base.{ℕ, zero, suc, ◌≡◌, refl, List, ok, some}
use burnt.Messages.Params.{Coin}
use burnt.Schedule.GasLimit.{Allowance, allowed_msg, spend_limit, determine_gas_limit}

-- An allowance inside `n` allowances for given messages.
abbrev pub wrapped : ℕ → Allowance → Allowance
wrapped zero a = a
wrapped (suc n) a = allowed_msg (wrapped n a)

-- The gas limit of an allowance that is wrapped in any number of allowances for given messages is
-- that of the allowance inside.
pub determine_gas_limit-wrapped :
    (add : List Coin → List Coin → List Coin) (n : ℕ) (a : Allowance)
    → determine_gas_limit add (ok (some (wrapped n a))) ≡ spend_limit add a
unfolding determine_gas_limit spend_limit
determine_gas_limit-wrapped add zero a = refl
determine_gas_limit-wrapped add (suc n) a = determine_gas_limit-wrapped add n a
