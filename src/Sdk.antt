-- ===== src/Sdk.antt =====
-- What the module calls and does not implement: the Cosmos SDK, the wasm keepers and the JSON
-- library. It is a parameter of the model, with the documented behaviour as named laws.
pub mod Laws
use burnt.Base.{
  ℕ, ◌+◌, ◌^◌, ◌<◌, ◌≤◌, ◌≡◌, ◌≢◌, Bool, true, Option, some, none, List, [], ◌∷◌, ◌++◌, Bytes,
  length, ltb, Result, ok, panic, Error, All,
}
use burnt.Messages.Params.{Coin}
use burnt.Messages.Event.{Event}

-- How `Execute` of the wasm keeper comes back: with its result, an error if there is one, and the
-- gas consumed; or it unwinds, because the gas limit was hit or for another reason.
pub data Executed : Type 0 where
  finished : Bytes → Option Error → ℕ → Executed
  out_of_gas : Executed
  panicked : Executed

pub record Sdk : Type 1 where
  -- The key-value store of the module. `entries s p` is what an iterator over the prefix store of
  -- `p` walks through: the keys, less `p`, and the values.
  pub Store : Type 0
  pub get : Store → Bytes → Option Bytes
  pub set : Store → Bytes → Bytes → Store
  pub delete : Store → Bytes → Store
  pub entries : Store → Bytes → List (Bytes × Bytes)
  -- The state of the other modules, such as balances and contracts.
  pub Chain : Type 0
  pub query_smart : Chain → Bytes → Bytes → Result Bytes
  pub get_balance : Chain → Bytes → Bytes → Coin
  pub send_coins_from_account_to_module :
      Chain → Bytes → Bytes → List Coin → Result (Unit {0}) × Chain
  pub execute : Store × Chain → Bytes → Bytes → Bytes → ℕ → Executed × (Store × Chain)
  pub fee_collector_name : Bytes
  -- Whether `EmitTypedEvent` succeeds on an event.
  pub can_emit : Event → Bool
  pub acc_address_from_bech32 : Bytes → Option Bytes
  pub bech32 : Bytes → Bytes
  pub uint64_to_big_endian : ℕ → Bytes
  pub big_endian_to_uint64 : Bytes → Result ℕ
  pub is_lt : Coin → Coin → Result Bool
  pub int_uint64 : ℕ → Result ℕ
  pub validate_denom : Bytes → Bool
  -- The JSON text of the query `{"is_owner": {"address": …}}`, and of its answer.
  pub owner_query : Bytes → Bytes
  pub parse_is_owner : Bytes → Option Bool
