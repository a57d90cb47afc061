-- ===== src/Schedule/Genesis/Validation.antt =====
-- Which parameters validate, and what becomes of a genesis state that is set and exported again.
use burnt.Base.{◌^◌, ◌<◌, ◌≡◌, true, [], ok, arith}
use mathlib.Core.Logic.{◌↔◌}
use burnt.Sdk.{Sdk}
use burnt.Sdk.Laws.{CoinLaws}
use burnt.Messages.Params.{Params}
use burnt.Schedule.World.{World}
use burnt.Schedule.Genesis.{
  GenesisState, default_genesis, validate_upper_bound, validate_minimum_balance, validate_params,
  validate_calls, validate_genesis, set_params, init_genesis, export_genesis,
}

module _ (sdk : Sdk) (cl : CoinLaws sdk) where
  -- Parameters that can be in force.
  pub record IsParams (p : Params) : Type 0 where
    pub denom : sdk.validate_denom p.minimum_balance.denom ≡ true
    pub positive_balance : 0 < p.minimum_balance.amount
    pub fits : p.minimum_balance.amount < 2 ^ 64
    pub positive_bound : 0 < p.upper_bound

  -- With the laws of coins: Validate accepts parameters if and only if the denomination is valid,
  -- the minimum balance is above zero and below 2 ^ 64, and the upper bound is above zero.
  pub validate_params-IsParams : (p : Params) → (validate_params sdk p ≡ ok tt) ↔ IsParams p
  unfolding validate_params validate_minimum_balance validate_upper_bound
  validate_params-IsParams p = (
    λ e. ground (arith, e, cl.fits p.minimum_balance.amount, cl.too_large p.minimum_balance.amount),
    λ v. ground (arith, v, cl.fits p.minimum_balance.amount),
  )

  -- With the laws of coins: a genesis state that InitGenesis sets is exported with its parameters
  -- and with no scheduled call, whatever calls it had, and what is exported validates.
  pub export-init_genesis :
      (gs : GenesisState) (w w' : World sdk)
      → init_genesis sdk gs w ≡ (ok tt, w')
      → (export_genesis sdk w' ≡ record { params = gs.params; scheduled_calls = [] })
        × (validate_genesis sdk (export_genesis sdk w') ≡ ok tt)
  unfolding init_genesis set_params export_genesis default_genesis validate_genesis validate_calls
  export-init_genesis gs w w' e = (ground (arith, e), ground (arith, e))
