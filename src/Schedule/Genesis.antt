-- ===== src/Schedule/Genesis.antt =====
-- Parameters and genesis: x/schedule/types/params.go and genesis.go, x/schedule/keeper/params.go,
-- and x/schedule/genesis.go.
pub mod Validation
use burnt.Base.{
  ℕ, Bytes, List, [], ◌∷◌, true, false, Bool, ◌==◌, if◌then◌else◌, Result, ok, err, panic, guard,
  invalid_param, Error, ◌>>=◌, ◌>>◌,
}
use burnt.Base.Call.{Call}
use burnt.Sdk.{Sdk}
use burnt.Messages.Params.{Coin, Params, new_params}
use burnt.Messages.MsgAddSchedule.{MsgAddSchedule}
use burnt.Schedule.World.{World}
use burnt.Schedule.MsgServer.{validate_basic_add}

pub record GenesisState : Type 0 where
  pub params : Params
  pub scheduled_calls : List MsgAddSchedule

-- "default-token"
abbrev default_token : Bytes
default_token =
    b'd' ∷ b'e' ∷ b'f' ∷ b'a' ∷ b'u' ∷ b'l' ∷ b't' ∷ b'-' ∷ b't' ∷ b'o' ∷ b'k' ∷ b'e' ∷ b'n' ∷ []

unfoldable pub default_params : Params
default_params = new_params (record { denom = default_token; amount = 100 }) 1000

unfoldable pub default_genesis : GenesisState
default_genesis = record { params = default_params; scheduled_calls = [] }

unfoldable pub validate_upper_bound : ℕ → Result (Unit {0})
validate_upper_bound val = if val == 0 then err invalid_param else ok tt

module _ (sdk : Sdk) where
  unfoldable pub validate_minimum_balance : Coin → Result (Unit {0})
  validate_minimum_balance v = do
    guard (sdk.validate_denom v.denom) invalid_param
    amount ← sdk.int_uint64 v.amount
    if amount == 0 then err invalid_param else ok tt

  unfoldable pub validate_params : Params → Result (Unit {0})
  validate_params p = do
    validate_minimum_balance p.minimum_balance
    validate_upper_bound p.upper_bound

  -- The loop of `GenesisState.Validate`.
  unfoldable pub validate_calls : List MsgAddSchedule → Result (Unit {0})
  validate_calls [] = ok tt
  validate_calls (call ∷ calls) = do validate_basic_add sdk call; validate_calls calls

  unfoldable pub validate_genesis : GenesisState → Result (Unit {0})
  validate_genesis gs = do validate_params gs.params; validate_calls gs.scheduled_calls

  -- `SetParamSet` of the parameter store panics on parameters that do not validate.
  unfoldable pub set_params : Params → Call (World sdk) (Unit {0})
  set_params params w = elim (validate_params params) [
    | ok _ ↦ (ok tt, record w { params = params })
    | _ ↦ (panic, w)
  ]

  unfoldable pub init_genesis : GenesisState → Call (World sdk) (Unit {0})
  init_genesis gen_state = set_params gen_state.params

  unfoldable pub export_genesis : World sdk → GenesisState
  export_genesis w = record default_genesis { params = w.params }
