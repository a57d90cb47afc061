-- ===== src/Schedule/EndBlock/Accepted.antt =====
-- From an AddSchedule that is accepted to the end of the block that it asked for.
use burnt.Base.{◌^◌, ◌<◌, ◌≡◌, none, true, ◌++◌, Bytes, length, strip_prefix, ok}
use burnt.Sdk.{Sdk}
use burnt.Sdk.Laws.{StoreLaws, BigEndianLaws, CoinLaws}
use burnt.Messages.Event.{Event}
use burnt.Messages.MsgAddSchedule.{MsgAddSchedule}
use burnt.Schedule.World.{World}
use burnt.Schedule.Keys.{
  make_scheduled_call_by_block_height_key, make_scheduled_call_by_block_height_prefix_key,
}
use burnt.Schedule.Keys.Distinct.{IsSigner, IsContract}
use burnt.Schedule.Keeper.{block_height_for_signer_contract}
use burnt.Schedule.Keeper.Holds.{Holds}
use burnt.Schedule.MsgServer.{add_schedule}
use burnt.Schedule.MsgServer.Checks.{IsAdmitted}
use burnt.Schedule.MsgServer.Stores.{add_schedule-new}
use burnt.Schedule.EndBlock.Keeps.{ExecuteKeeps}
use burnt.Schedule.EndBlock.Calm.{IsCalmFrom}
use burnt.Schedule.EndBlock.Comes.{Runs, IsConsumed, due_call_comes}

module _ (sdk : Sdk) (sl : StoreLaws sdk) (be : BigEndianLaws sdk) (cl : CoinLaws sdk)
    (msg : MsgAddSchedule) (w : World sdk) (signer contract : Bytes) where
  -- With the laws of the store, of coins and of big-endian numbers, where events can be emitted and
  -- no call of a contract takes the entry out: an AddSchedule that passes its checks, for a signer
  -- of 20 bytes and a contract of at most 32 with no call, which do not begin with the prefix that
  -- is cut off once more, with a body below 2 ^ 62 bytes and a height below 2 ^ 64, is accepted;
  -- and once the chain comes to the end of the block that it asked for, a call of this signer and
  -- contract has its entries deleted from both indexes and is made, or skipped, in the loop of that
  -- block's end, which goes on behind it to its end. Until then blocks end without an error or a
  -- panic and all else leaves the entry in the store. In that block: each entry that the iterator
  -- of that block walks through is, in the world that the rounds before it leave, a call that can
  -- be decoded and has a body below 2 ^ 62 bytes; and once its entries are deleted, the owner query
  -- returns, with an error or without, and if the contract is owned and holds the minimum balance,
  -- its balance is below 2 ^ 64, its execution hits its gas limit or comes back, with an error or
  -- without, with no result or one of eight bytes or more, and a payment that follows, of whatever
  -- amount, returns.
  pub accepted_call_comes :
      ((x : Event) → sdk.can_emit x ≡ true)
      → IsAdmitted sdk msg w signer contract
      → block_height_for_signer_contract sdk w.store signer contract ≡ ok 0
      → length msg.call_body < 2 ^ 62
      → msg.block_height < 2 ^ 64
      → IsSigner signer
      → IsContract contract
      → strip_prefix
          (make_scheduled_call_by_block_height_prefix_key sdk msg.block_height)
          (signer ++ contract)
        ≡ none
      → ExecuteKeeps sdk sl
          (make_scheduled_call_by_block_height_key sdk msg.block_height signer contract)
      → (w' : World sdk)
      → Runs sdk
          (make_scheduled_call_by_block_height_key sdk msg.block_height signer contract)
          (add_schedule sdk msg w).1
          w'
      → w'.height ≡ msg.block_height
      → IsCalmFrom sdk w'.params msg.block_height
          (sdk.entries w'.store
            (make_scheduled_call_by_block_height_prefix_key sdk msg.block_height))
          w'
      → ((add_schedule sdk msg w).0 ≡ ok tt) × IsConsumed sdk signer contract w'
  accepted_call_comes emits admitted new small fits s c plain keeps w' run at_h calm =
      let (accepted, (value, stored, _), _) =
        add_schedule-new sdk sl be msg w signer contract emits admitted new small fits in
      let held : Holds sdk
          (make_scheduled_call_by_block_height_key sdk msg.block_height signer contract)
          (add_schedule sdk msg w).1.store =
        λ gone. absurd (cc (gone, stored)) in
      (
        accepted,
        due_call_comes sdk sl be msg.block_height signer contract fits keeps cl s c plain
            (add_schedule sdk msg w).1 w' held run at_h calm,
      )
