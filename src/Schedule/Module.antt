-- ===== src/Schedule/Module.antt =====
-- What the module manager calls of the module: x/schedule/module.go, and its random genesis for
-- simulations, x/schedule/module_simulation.go. JSON is a parameter.
pub mod Codecs
pub mod Lifecycle
use burnt.Base.{ℕ, List, [], ◌∷◌, Bytes, Result, ok, err, panic, stuck}
use burnt.Base.Call.{Call, lift, ◌>>=◌, must}
use burnt.Sdk.{Sdk}
use burnt.Messages.Params.{Params, Coin}
use burnt.Schedule.World.{World}
use burnt.Schedule.Genesis.{
  GenesisState, default_genesis, validate_genesis, init_genesis, export_genesis,
}
use burnt.Schedule.EndBlock.{end_blocker}

-- The JSON codec of genesis states.
pub record Json : Type 0 where
  pub marshal_json : GenesisState → Result Bytes
  pub unmarshal_json : Bytes → Result GenesisState

-- The services that a module registers with the configurator.
pub data Service : Type 0 where
  query_service msg_service : Service

unfoldable pub register_services : List Service
register_services = query_service ∷ []

module _ (json : Json) where
  -- `MustMarshalJSON` panics on an error.
  unfoldable pub module_default_genesis : Result Bytes
  module_default_genesis = must (json.marshal_json default_genesis)

  -- The amount of the zero coin is a nil pointer; its denomination is empty.
  unfoldable pub generate_genesis_state : Result Bytes
  generate_genesis_state = must (
      json.marshal_json (record {
        params = record { minimum_balance = record { denom = []; amount = 0 }; upper_bound = 0 };
        scheduled_calls = [];
      }))

  module _ (sdk : Sdk) where
    unfoldable pub module_validate_genesis : Bytes → Result (Unit {0})
    module_validate_genesis text = elim (json.unmarshal_json text) [
      | ok gen_state ↦ validate_genesis sdk gen_state
      | err e ↦ err e
      | panic ↦ panic
      | stuck ↦ stuck
    ]

    -- They return no updates of validators.
    unfoldable pub module_init_genesis : Bytes → Call (World sdk) (Unit {0})
    module_init_genesis text = do
      gen_state ← lift (must (json.unmarshal_json text))
      init_genesis sdk gen_state

    unfoldable pub module_export_genesis : World sdk → Result Bytes
    module_export_genesis w = must (json.marshal_json (export_genesis sdk w))

    unfoldable pub module_end_block : Call (World sdk) (Unit {0})
    module_end_block = end_blocker sdk
