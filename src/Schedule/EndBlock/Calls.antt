-- ===== src/Schedule/EndBlock/Calls.antt =====
-- What becomes of a call that is due: it is skipped, or made and paid for, and scheduled again
-- only where the contract asked for a block that is allowed.
use burnt.Base.{
  ℕ, ◌^◌, ◌≤◌, ◌<◌, ◌≡◌, ◌≢◌, true, false, some, none, Bytes, length, ok, err, panic, stuck, Error,
  Option, arith, [], Result, ◌∷◌,
}
use burnt.Sdk.{Sdk, Executed, finished, out_of_gas}
use burnt.Sdk.Laws.{StoreLaws, BigEndianLaws, CoinLaws}
use burnt.Messages.Params.{Coin, Params}
use burnt.Messages.ScheduledCall.{ScheduledCall}
use burnt.Schedule.World.{
  World, execute_msg_with_gas_limit, gas_results, query_owner, send_coins, emit_typed_event,
}
use burnt.Schedule.Keeper.{block_height_for_signer_contract, add_scheduled_call}
use burnt.Schedule.Keeper.Indexes.{HoldsCall, add_scheduled_call-stores}
use burnt.Schedule.EndBlock.{
  last_block, balance_of, schedule_next, after_call, settle_call, run_call, consume_call,
}

module _ (sdk : Sdk) where
  abbrev gas_coin : Params → ℕ → Coin
  gas_coin params gas = record { denom = params.minimum_balance.denom; amount = gas }

  -- The world once the fee collector has been sent `gas` coins, or the sending has failed.
  abbrev pub paid : Params → Bytes → ℕ → World sdk → World sdk
  paid params c gas w = (send_coins sdk c (gas_coin params gas) w).1

  -- A sending that comes back, with an error or without.
  abbrev pub Sends : Params → Bytes → ℕ → World sdk → Type 0
  Sends params c gas w =
      let r = (send_coins sdk c (gas_coin params gas) w).0 in (r ≢ panic) × (r ≢ stuck)

  -- That the contract `c` may have a call at `next`: a later block within the upper bound, and the
  -- minimum balance.
  pub record IsNext (params : Params) (c : Bytes) (next : ℕ) (w : World sdk) : Type 0 where
    pub later : w.height < next
    pub in_reach : next ≤ last_block w.height params
    pub funded : params.minimum_balance.amount ≤ (balance_of sdk params c w).amount

  module _ (params : Params) (s c : Bytes) (call : ScheduledCall) (w : World sdk) where
    -- Why a call that is due is not made.
    pub data IsSkipped : Type 0 where
      unanswered : (e : Error) → query_owner sdk s c w ≡ err e → IsSkipped
      disowned : query_owner sdk s c w ≡ ok false → IsSkipped
      poor :
          query_owner sdk s c w ≡ ok true
          → (balance_of sdk params c w).amount < params.minimum_balance.amount
          → IsSkipped

    -- With the laws of coins: a due call changes nothing, and the loop goes on, if the owner query
    -- gives an error or no owner, or if the contract is owned and holds less than the minimum
    -- balance.
    pub consume_call-IsSkipped :
        CoinLaws sdk → IsSkipped → consume_call sdk params s c call w ≡ (ok false, w)
    unfolding consume_call
    consume_call-IsSkipped cl (unanswered e h) = ground arith
    consume_call-IsSkipped cl (disowned h) = ground arith
    consume_call-IsSkipped cl (poor h short) = ground (
      arith,
      cl.compares (balance_of sdk params c w) params.minimum_balance
          (cl.balance_denom w.chain c params.minimum_balance.denom),
    )

    -- An execution that fails, and the gas that it is charged: the limit if it ran out of it, and
    -- what it used otherwise. A result that comes with an error has no block's height in front, or
    -- all of its eight bytes.
    pub data IsFailure (limit : ℕ) : Executed → ℕ → Type 0 where
      ran_out : IsFailure limit out_of_gas limit
      empty_handed : (e : Error) (gas : ℕ) → IsFailure limit (finished [] (some e) gas) gas
      with_result :
          (b : Bytes) (e : Error) (gas : ℕ)
          → 8 ≤ length b
          → IsFailure limit (finished b (some e) gas) gas

    -- The chain once the fee collector has been sent the gas, and whether it was.
    abbrev payment : sdk.Chain → ℕ → Result (Unit {0}) × sdk.Chain
    payment chain gas =
        sdk.send_coins_from_account_to_module chain c sdk.fee_collector_name
          (record { denom = params.minimum_balance.denom; amount = gas } ∷ [])

    -- With the laws of big-endian numbers: a call that hits its gas limit, or that comes back with
    -- an error and with no result or one of eight bytes or more, and whose payment comes back, with
    -- an error or without: the payment is of the whole limit in the first case and of the gas used
    -- in the second, to the fee collector, on the chain that the execution leaves; the call is not
    -- scheduled again, no event is emitted, and the loop goes on.
    pub run_call_fails :
        BigEndianLaws sdk
        → (balance : Coin) (limit gas : ℕ) (x : Executed) (after : sdk.Store × sdk.Chain)
        → sdk.execute (w.store, w.chain) c c call.call_body limit ≡ (x, after)
        → IsFailure limit x gas
        → (payment after.1 gas).0 ≢ panic
        → (payment after.1 gas).0 ≢ stuck
        → run_call sdk params s c call balance limit w
          ≡ (ok false, record w { store = after.0; chain = (payment after.1 gas).1 })
    unfolding run_call execute_msg_with_gas_limit settle_call send_coins gas_results
    run_call_fails be balance limit gas _ after h ran_out returns goes = ground arith
    run_call_fails be balance limit gas _ after h (empty_handed e _) returns goes =
        ground (arith, be.reads_nil)
    run_call_fails be balance limit gas _ after h (with_result b e _ long) returns goes =
        ground (arith, (be.reads_long b long).1)

    after_call_writes :
        CoinLaws sdk
        → (balance coin : Coin) (next : ℕ)
        → (after_call sdk params s c call balance coin next w).1.store ≢ w.store
        → IsNext params c next w
    unfolding after_call emit_typed_event
    after_call_writes cl balance coin next changed = ground (
      arith,
      changed,
      cl.compares (balance_of sdk params c w) params.minimum_balance
          (cl.balance_denom w.chain c params.minimum_balance.denom),
    )

    after_call_next :
        CoinLaws sdk
        → (balance coin : Coin) (next : ℕ) → IsNext params c next w
        → (s' : sdk.Store) → add_scheduled_call sdk s c call.call_body next w.store ≡ ok s'
        → ((after_call sdk params s c call balance coin next w).0 ≡ ok false)
          × ((after_call sdk params s c call balance coin next w).1.store ≡ s')
    unfolding after_call schedule_next emit_typed_event
    after_call_next cl balance coin next ok_next s' added = ground (
      arith,
      cl.compares (balance_of sdk params c w) params.minimum_balance
          (cl.balance_denom w.chain c params.minimum_balance.denom),
    )

  module _ (cl : CoinLaws sdk) (params : Params) (s c : Bytes) (call : ScheduledCall)
      (balance : Coin) (gas next : ℕ) (w : World sdk) where
    -- With the laws of coins: paying for a call and scheduling it again writes to the keeper's
    -- store only if the call gave no error, the block it asked for is later than this one and
    -- within the upper bound, and the contract holds the minimum balance after its payment.
    pub settle_call_writes :
        (e : Option Error)
        → (settle_call sdk params s c call balance (gas, next, e) w).1.store ≢ w.store
        → (e ≡ none) × IsNext params c next (paid params c gas w)
    unfolding settle_call send_coins
    settle_call_writes (some x) changed = ground (arith, changed)
    settle_call_writes none changed =
        let w' = paid params c gas w in
        ground (
          arith,
          changed,
          after_call_writes params s c call w' cl balance (gas_coin params gas) next,
        )

    settled :
        (s' : sdk.Store)
        → Sends params c gas w
        → IsNext params c next (paid params c gas w)
        → add_scheduled_call sdk s c call.call_body next (paid params c gas w).store ≡ ok s'
        → let (r, w') = settle_call sdk params s c call balance (gas, next, none) w in
          (r ≡ ok false) × (w'.store ≡ s')
    unfolding settle_call
    settled s' sent n added = ground (
      arith,
      after_call_next params s c call (paid params c gas w) cl balance (gas_coin params gas) next n
          s' added,
    )

    -- With the laws of coins, the store and big-endian numbers: a call that was made without an
    -- error, whose payment comes back, of a contract that afterwards holds the minimum balance and
    -- asked for a later block within the upper bound and below 2 ^ 64, with a body below 2 ^ 62
    -- bytes, is scheduled again: the loop goes on and both indexes hold the call at that block.
    pub settle_call_next :
        StoreLaws sdk
        → BigEndianLaws sdk
        → Sends params c gas w
        → IsNext params c next (paid params c gas w)
        → length call.call_body < 2 ^ 62
        → next < 2 ^ 64
        → let (r, w') = settle_call sdk params s c call balance (gas, next, none) w in
          (r ≡ ok false)
          × HoldsCall sdk w'.store next s c call.call_body
          × (block_height_for_signer_contract sdk w'.store s c ≡ ok next)
    settle_call_next sl be sent n small fits =
        let (s', added, holds, due) =
          add_scheduled_call-stores sdk sl be s c call.call_body next _ small fits in
        let (accepted, stored) = settled s' sent n added in
        (accepted, rw stored holds, rw stored due)
