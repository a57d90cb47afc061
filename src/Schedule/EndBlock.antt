-- ===== src/Schedule/EndBlock.antt =====
-- `EndBlocker` of x/schedule/keeper/abci.go: the calls that are due are made at the end of a block.
pub mod Accepted
pub mod Calls
pub mod Calm
pub mod Comes
pub mod Completes
pub mod Halts
pub mod Faults
pub mod Keeps
pub mod Order
pub mod Rounds
use burnt.Base.{
  ℕ, ◌+◌, ◌%◌, ◌^◌, Option, none, some, Bool, true, false, Bytes, ltb, leb, if◌then◌else◌, Result,
  ok, err, Error,
}
use burnt.Base.Call.{Call, pure, lift, get, put, ◌>>=◌, ◌>>◌, attempt, ignore}
use burnt.Sdk.{Sdk}
use burnt.Messages.Params.{Coin, Params}
use burnt.Messages.Event.{added, executed}
use burnt.Messages.ScheduledCall.{ScheduledCall}
use burnt.Schedule.World.{
  World, query_owner, emit_typed_event, send_coins, execute_msg_with_gas_limit,
}
use burnt.Schedule.Keeper.{add_scheduled_call}
use burnt.Schedule.Consume.{Consumer, consume_scheduled_calls_by_height}

-- An answer of the owner query that lets the call go on.
abbrev pub confirms : Result Bool → Bool
confirms (ok b) = b
confirms _ = false

-- `uint64(ctx.BlockHeight()) + params.UpperBound`
abbrev pub last_block : ℕ → Params → ℕ
last_block height params = (height + params.upper_bound) % 2 ^ 64

module _ (sdk : Sdk) where
  -- The contract's balance in the denomination of the minimum balance.
  abbrev pub balance_of : Params → Bytes → World sdk → Coin
  balance_of params contract w = sdk.get_balance w.chain contract params.minimum_balance.denom

  -- `k.AddScheduledCall`, on the store of the context.
  abbrev pub add_entry : Bytes → Bytes → Bytes → ℕ → Call (World sdk) (Unit {0})
  add_entry signer contract call_body block_height = do
    w ← get
    store' ← lift (add_scheduled_call sdk signer contract call_body block_height w.store)
    put (record w { store = store' })

  -- What follows the checks of the next block: the call is scheduled again.
  unfoldable pub schedule_next : Bytes → Bytes → ScheduledCall → Coin → ℕ → Call (World sdk) Bool
  schedule_next signer contract call balance next_block = do
    add_entry signer contract call.call_body next_block
    w ← get
    ignore (
        emit_typed_event sdk (
          added (record {
            block_height = w.height;
            scheduled_height = next_block;
            signer = sdk.bech32 signer;
            contract = sdk.bech32 contract;
            balance = some balance;
            call_body = call.call_body;
          })))
    pure false

  -- What follows a call that was made without an error.
  unfoldable pub after_call :
      Params → Bytes → Bytes → ScheduledCall → Coin → Coin → ℕ → Call (World sdk) Bool
  after_call params signer contract call balance_before gas_coin next_block = do
    w ← get
    ignore (
        emit_typed_event sdk (
          executed (record {
            block_height = w.height;
            gas = some gas_coin;
            signer = sdk.bech32 signer;
            contract = sdk.bech32 contract;
            balance_before = some balance_before;
            call_body = call.call_body;
          })))
    w' ← get
    let balance = balance_of params contract w'
    poor ← lift (sdk.is_lt balance params.minimum_balance)
    if poor
        then pure false
        else if leb next_block w.height
        then pure false
        else if ltb (last_block w.height params) next_block
        then pure false
        else schedule_next signer contract call balance next_block

  -- What follows the execution: its gas is paid, whether it failed or not.
  unfoldable pub settle_call :
      Params → Bytes → Bytes → ScheduledCall → Coin → ℕ × ℕ × Option Error → Call (World sdk) Bool
  settle_call params signer contract call balance (gas_consumed, next_block, e) = do
    let gas_coin : Coin = record { denom = params.minimum_balance.denom; amount = gas_consumed }
    ignore (send_coins sdk contract gas_coin)
    elim e [
      | some _ ↦ pure false
      | none ↦ after_call params signer contract call balance gas_coin next_block
    ]

  unfoldable pub run_call :
      Params → Bytes → Bytes → ScheduledCall → Coin → ℕ → Call (World sdk) Bool
  run_call params signer contract call balance gas_limit = do
    results ← execute_msg_with_gas_limit sdk contract call.call_body gas_limit
    settle_call params signer contract call balance results

  -- What follows the checks: the whole balance is the gas limit of the call.
  unfoldable pub make_call : Params → Bytes → Bytes → ScheduledCall → Coin → Call (World sdk) Bool
  make_call params signer contract call balance = do
    gas_limit ← lift (sdk.int_uint64 balance.amount)
    run_call params signer contract call balance gas_limit

  -- The callback of `EndBlocker`. It never asks to stop.
  unfoldable pub consume_call : Params → Consumer sdk
  consume_call params signer contract call = do
    w ← get
    owner ← lift (attempt (query_owner sdk signer contract w))
    if confirms owner
        then (do
          let balance = balance_of params contract w
          poor ← lift (sdk.is_lt balance params.minimum_balance)
          if poor then pure false else make_call params signer contract call balance)
        else pure false

  unfoldable pub end_blocker : Call (World sdk) (Unit {0})
  end_blocker = do w ← get; consume_scheduled_calls_by_height sdk w.height (consume_call w.params)
