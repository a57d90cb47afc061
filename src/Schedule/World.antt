-- ===== src/Schedule/World.antt =====
-- What a call of the keeper reads and changes: the context of x/schedule/keeper, and its calls of
-- the other keepers.
use burnt.Base.{
  ℕ, List, [], ◌∷◌, ◌++◌, Option, none, some, Bytes, if◌then◌else◌, Result, ok, err, panic, Error,
  out_of_gas as out_of_gas_error, invalid_json, sdk_error, ◌>>=◌, Bool,
}
use burnt.Base.Call.{Call}
use burnt.Sdk.{Sdk, Executed, finished, out_of_gas, panicked}
use burnt.Messages.Params.{Coin, Params}
use burnt.Messages.Event.{Event}

-- `height` is the block height of the context, `params` what the parameter store holds, `store` the
-- module's key-value store, `chain` the state of the other modules, and `events` what was emitted.
pub record World (sdk : Sdk) : Type 0 where
  pub height : ℕ
  pub params : Params
  pub store : sdk.Store
  pub chain : sdk.Chain
  pub events : List Event

abbrev pub or_error : {A : Type 0} → Option A → Error → Result A
or_error none e = err e
or_error (some a) e = ok a

module _ (sdk : Sdk) where
  -- The `is_owner` query and the reading of its answer.
  unfoldable pub query_owner : Bytes → Bytes → World sdk → Result Bool
  query_owner signer contract w = do
    answer ← sdk.query_smart w.chain contract (sdk.owner_query signer)
    or_error (sdk.parse_is_owner answer) invalid_json

  unfoldable pub emit_typed_event : Event → Call (World sdk) (Unit {0})
  emit_typed_event e w =
      if sdk.can_emit e
      then (ok tt, record w { events = w.events ++ e ∷ [] })
      else (err sdk_error, w)

  -- `SendCoinsFromAccountToModule` to the fee collector.
  unfoldable pub send_coins : Bytes → Coin → Call (World sdk) (Unit {0})
  send_coins contract coin w =
      let (r, chain') =
        sdk.send_coins_from_account_to_module w.chain contract sdk.fee_collector_name (coin ∷ []) in
      (r, record w { chain = chain' })

  -- The named results of `executeMsgWithGasLimit`: the gas, the next block, and the error. A panic
  -- in reading the next block is no out-of-gas panic, so it is raised again.
  unfoldable pub gas_results : ℕ → Executed → Result (ℕ × ℕ × Option Error)
  gas_results gas_limit (finished result e gas) = do
    next_block ← sdk.big_endian_to_uint64 result
    ok (gas, next_block, e)
  gas_results gas_limit out_of_gas = ok (gas_limit, 0, some out_of_gas_error)
  gas_results gas_limit panicked = panic

  unfoldable pub execute_msg_with_gas_limit :
      Bytes → Bytes → ℕ → Call (World sdk) (ℕ × ℕ × Option Error)
  execute_msg_with_gas_limit contract msg gas_limit w =
      let (x, after) = sdk.execute (w.store, w.chain) contract contract msg gas_limit in
      (gas_results gas_limit x, record w { store = after.0; chain = after.1 })
