-- ===== src/Schedule/EndBlock/Faults.antt =====
-- Inputs of the end of a block that come from a contract or its owner and make it panic.
use burnt.Base.{
  ℕ, suc, ◌^◌, ◌≤◌, ◌<◌, ◌≡◌, ◌≢◌, true, Bytes, length, ok, panic, Error, Option, arith,
  illegal_tag, some,
}
use burnt.Sdk.{Sdk, finished}
use burnt.Sdk.Laws.{StoreLaws, BigEndianLaws, CoinLaws}
use burnt.Messages.Params.{Params}
use burnt.Messages.ScheduledCall.{ScheduledCall}
use burnt.Messages.Event.{Event}
use burnt.Messages.MsgAddSchedule.{MsgAddSchedule}
use burnt.Schedule.World.{World, execute_msg_with_gas_limit, gas_results, query_owner}
use burnt.Schedule.Keys.{make_scheduled_call_by_block_height_key}
use burnt.Schedule.Keeper.{block_height_for_signer_contract}
use burnt.Schedule.EndBlock.{balance_of, run_call, make_call, consume_call, end_blocker}
use burnt.Schedule.EndBlock.Halts.{end_blocker_halts}
use burnt.Schedule.MsgServer.{add_schedule}
use burnt.Schedule.MsgServer.Checks.{IsAdmitted}
use burnt.Schedule.MsgServer.Stores.{add_schedule-again}

module _ (sdk : Sdk) where
  -- With the laws of the store and of big-endian numbers, where events can be emitted: an
  -- AddSchedule that passes its checks, for a signer and a contract whose call is due at a height
  -- other than 0, with a body below 2 ^ 62 bytes and a height below 2 ^ 56, is accepted; and no end
  -- of a block at the height it asks for, over the store as it left it, completes.
  pub add_schedule-again_halts :
      (sl : StoreLaws sdk) (be : BigEndianLaws sdk) (msg : MsgAddSchedule) (w : World sdk)
      (signer contract : Bytes) (old : ℕ)
      → ((x : Event) → sdk.can_emit x ≡ true)
      → IsAdmitted sdk msg w signer contract
      → block_height_for_signer_contract sdk w.store signer contract ≡ ok (suc old)
      → length msg.call_body < 2 ^ 62
      → msg.block_height < 2 ^ 56
      → (later : World sdk) → later.height ≡ msg.block_height
      → later.store ≡ (add_schedule sdk msg w).1.store
      → ((add_schedule sdk msg w).0 ≡ ok tt) × ((end_blocker sdk later).0 ≢ ok tt)
  add_schedule-again_halts sl be msg w signer contract old emits a again small low later at kept =
      let (value, accepted, stored, broken) =
        add_schedule-again sdk sl be msg w signer contract old emits a again small low in
      let held : sdk.get later.store
            (make_scheduled_call_by_block_height_key sdk later.height signer contract)
          ≡ some value =
        rw (at, kept) stored in
      (accepted, end_blocker_halts sdk sl later signer contract value illegal_tag held broken)

  module _ (be : BigEndianLaws sdk) (cl : CoinLaws sdk) (params : Params) (s c : Bytes)
      (call : ScheduledCall) (w : World sdk) where
    -- The callback of `EndBlocker` comes to the call of a contract whose signer owns it and that
    -- holds the minimum balance.
    pub consume_call-make_call :
        query_owner sdk s c w ≡ ok true
        → params.minimum_balance.amount ≤ (balance_of sdk params c w).amount
        → consume_call sdk params s c call w
          ≡ make_call sdk params s c call (balance_of sdk params c w) w
    unfolding consume_call
    consume_call-make_call owned funded = ground (
      arith,
      cl.compares (balance_of sdk params c w) params.minimum_balance
          (cl.balance_denom w.chain c params.minimum_balance.denom),
    )

    -- With the laws of coins and of big-endian numbers: a due call panics if its contract is owned,
    -- holds the minimum balance and 2 ^ 64 coins or more.
    pub consume_call_rich :
        query_owner sdk s c w ≡ ok true
        → params.minimum_balance.amount ≤ (balance_of sdk params c w).amount
        → 2 ^ 64 ≤ (balance_of sdk params c w).amount
        → (consume_call sdk params s c call w).0 ≡ panic
    unfolding make_call
    consume_call_rich owned funded rich =
        rw (consume_call-make_call owned funded)
          (ground (arith, cl.too_large (balance_of sdk params c w).amount))

    -- With the laws of coins and of big-endian numbers: a due call panics if its contract is owned,
    -- holds the minimum balance and fewer than 2 ^ 64 coins, and answers the call with one to seven
    -- bytes, with or without an error.
    pub consume_call_short :
        (result : Bytes) (e : Option Error) (gas : ℕ) (after : sdk.Store × sdk.Chain)
        → query_owner sdk s c w ≡ ok true
        → params.minimum_balance.amount ≤ (balance_of sdk params c w).amount
        → (balance_of sdk params c w).amount < 2 ^ 64
        → sdk.execute (w.store, w.chain) c c call.call_body (balance_of sdk params c w).amount
          ≡ (finished result e gas, after)
        → 1 ≤ length result
        → length result < 8
        → (consume_call sdk params s c call w).0 ≡ panic
    unfolding make_call run_call execute_msg_with_gas_limit gas_results
    consume_call_short result e gas after owned funded small x one short =
        rw (consume_call-make_call owned funded) (
          ground (
            arith,
            x,
            cl.fits (balance_of sdk params c w).amount small,
            be.reads_short result one short,
          ))
