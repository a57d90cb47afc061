-- ===== src/Schedule/MsgServer/Checks.antt =====
-- What `AddSchedule` and `RemoveSchedule` let through, and that a refused message writes nothing.
use burnt.Base.{◌≤◌, ◌<◌, ◌≡◌, true, Bytes, ok, err, Error, arith}
use burnt.Sdk.{Sdk}
use burnt.Messages.MsgAddSchedule.{MsgAddSchedule}
use burnt.Messages.Event.{Event}
use burnt.Schedule.World.{World, query_owner, emit_typed_event}
use burnt.Schedule.EndBlock.{last_block, balance_of}
use burnt.Schedule.MsgServer.{address, add_schedule}

module _ (sdk : Sdk) where
  -- The checks of `AddSchedule`, for the addresses of the message.
  pub record IsAdmitted (msg : MsgAddSchedule) (w : World sdk) (signer contract : Bytes)
      : Type 0 where
    pub later : w.height < msg.block_height
    pub in_reach : msg.block_height ≤ last_block w.height w.params
    pub signed : address sdk msg.signer ≡ ok signer
    pub named : address sdk msg.contract ≡ ok contract
    pub owned : query_owner sdk signer contract w ≡ ok true
    pub funded : w.params.minimum_balance.amount ≤ (balance_of sdk w.params contract w).amount

  -- An AddSchedule that is accepted has addresses that parse, asks for a later height that is at
  -- most the height plus the upper bound modulo 2 ^ 64, is of a signer that owns the contract, and
  -- its contract holds the minimum balance.
  pub add_schedule-IsAdmitted :
      (msg : MsgAddSchedule) (w w' : World sdk)
      → add_schedule sdk msg w ≡ (ok tt, w')
      → (signer : Bytes) × (contract : Bytes) × IsAdmitted msg w signer contract
  unfolding add_schedule
  add_schedule-IsAdmitted msg w w' e = ground arith

  -- Where events can be emitted, an AddSchedule that returns an error leaves the world as it was.
  pub add_schedule_atomic :
      (msg : MsgAddSchedule) (w w' : World sdk) (e : Error)
      → ((x : Event) → sdk.can_emit x ≡ true)
      → add_schedule sdk msg w ≡ (err e, w')
      → w' ≡ w
  unfolding add_schedule emit_typed_event
  add_schedule_atomic msg w w' e emits h = grind (arith, emits)
