-- ===== src/Schedule/Module/Lifecycle.antt =====
-- A genesis state that goes through the module: x/schedule/module.go and module_simulation.go.
use burnt.Base.{◌≡◌, refl, false, [], Bytes, Result, ok, err, panic, stuck}
use burnt.Base.Call.{must}
use burnt.Sdk.{Sdk}
use burnt.Schedule.World.{World}
use burnt.Schedule.Genesis.{
  GenesisState, init_genesis, export_genesis, set_params, validate_params, validate_minimum_balance,
}
use burnt.Schedule.Module.{Json, generate_genesis_state, module_init_genesis, module_export_genesis}

-- What is written as JSON is read back.
pub record JsonLaws (json : Json) : Type 0 where
  pub read_back :
      (gs : GenesisState) (text : Bytes)
      → json.marshal_json gs ≡ ok text
      → json.unmarshal_json text ≡ ok gs

must_ok : {A : Type 0} (r : Result A) (a : A) → must r ≡ ok a → r ≡ ok a
must_ok (ok b) a e = e
must_ok (err x) a e = cc
must_ok panic a e = cc
must_ok stuck a e = cc

module _ (json : Json) (laws : JsonLaws json) (sdk : Sdk) where
  -- An export of the module, read in by a new chain, sets the parameters and nothing else.
  pub module_init_genesis-module_export_genesis :
      (w w0 : World sdk) (text : Bytes)
      → validate_params sdk w.params ≡ ok tt
      → module_export_genesis json sdk w ≡ ok text
      → module_init_genesis json sdk text w0 ≡ (ok tt, record w0 { params = w.params })
  unfolding module_init_genesis module_export_genesis init_genesis export_genesis set_params
  module_init_genesis-module_export_genesis w w0 text valid e =
      let written : json.marshal_json (export_genesis sdk w) ≡ ok text =
        must_ok (json.marshal_json _) text e in
      rw
        (
          module_init_genesis,
          laws.read_back _ text written,
          init_genesis,
          set_params,
          export_genesis,
          valid,
        )
        refl

  -- The genesis of a simulation is refused: the denomination of its minimum balance is empty.
  pub module_init_genesis-generate_genesis_state :
      (w : World sdk) (text : Bytes)
      → sdk.validate_denom [] ≡ false
      → generate_genesis_state json ≡ ok text
      → module_init_genesis json sdk text w ≡ (panic, w)
  unfolding module_init_genesis generate_genesis_state init_genesis set_params validate_params
      validate_minimum_balance
  module_init_genesis-generate_genesis_state w text empty e =
      let written = must_ok (json.marshal_json _) text e in
      rw
        (
          module_init_genesis,
          laws.read_back _ text written,
          init_genesis,
          set_params,
          validate_params,
          validate_minimum_balance,
          empty,
        )
        refl
