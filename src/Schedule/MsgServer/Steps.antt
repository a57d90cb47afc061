-- ===== src/Schedule/MsgServer/Steps.antt =====
-- The handlers of x/schedule/keeper/msg_server_add_schedule.go and msg_server_remove_schedule.go as
-- operations on the two indexes.
use burnt.Base.{◌^◌, ◌<◌, ◌≡◌, true, Bytes, length, ok, arith}
use burnt.Sdk.{Sdk}
use burnt.Sdk.Laws.{StoreLaws, BigEndianLaws}
use burnt.Messages.MsgAddSchedule.{MsgAddSchedule}
use burnt.Messages.MsgRemoveSchedule.{MsgRemoveSchedule}
use burnt.Messages.Event.{Event}
use burnt.Schedule.World.{World, query_owner}
use burnt.Schedule.Keys.Distinct.{IsSigner}
use burnt.Schedule.Keeper.{block_height_for_signer_contract, remove_scheduled_call}
use burnt.Schedule.Keeper.Indexes.{add_scheduled_call-stores}
use burnt.Schedule.Keeper.Paired.{IsPaired}
use burnt.Schedule.Keeper.Paired.Reach.{added, removed, Step-IsPaired}
use burnt.Schedule.MsgServer.{address, store_call, add_schedule, remove_schedule}
use burnt.Schedule.MsgServer.Checks.{IsAdmitted}
use burnt.Schedule.MsgServer.Stores.{add_schedule-store_call, remove_schedule-store}

module _ (sdk : Sdk) (sl : StoreLaws sdk) (be : BigEndianLaws sdk)
    (emits : (x : Event) → sdk.can_emit x ≡ true) where
  -- With the laws of the store and of big-endian numbers, where events can be emitted: an
  -- AddSchedule that passes its checks, for a signer of 20 bytes and a contract with no call, with
  -- a body below 2 ^ 62 bytes and a height below 2 ^ 64, leaves a store on which the two indexes
  -- agree, if they agreed before.
  pub add_schedule-IsPaired :
      (msg : MsgAddSchedule) (w : World sdk) (signer contract : Bytes)
      → IsAdmitted sdk msg w signer contract
      → IsSigner signer
      → block_height_for_signer_contract sdk w.store signer contract ≡ ok 0
      → length msg.call_body < 2 ^ 62
      → msg.block_height < 2 ^ 64
      → IsPaired sdk w.store
      → IsPaired sdk (add_schedule sdk msg w).1.store
  unfolding store_call
  add_schedule-IsPaired msg w signer contract admitted sized new small fits paired =
      let (s', done, _, _) =
        add_scheduled_call-stores sdk sl be signer contract msg.call_body msg.block_height w.store
          small fits in
      let (_, stored) =
        add_schedule-store_call sdk msg w signer contract 0 s' emits admitted new done in
      let later = admitted.later in
      rw stored (
        Step-IsPaired sdk sl be
          (added signer contract msg.call_body msg.block_height s' sized small (omega arith) fits
            new done)
          paired)

  -- With the laws of the store and of big-endian numbers, where events can be emitted: a
  -- RemoveSchedule of the owner, a signer of 20 bytes, keeps the two indexes paired, if the height that
  -- it looks up can be read.
  pub remove_schedule-IsPaired :
      (msg : MsgRemoveSchedule) (w : World sdk) (signer contract : Bytes) (s' : sdk.Store)
      → address sdk msg.signer ≡ ok signer
      → address sdk msg.contract ≡ ok contract
      → query_owner sdk signer contract w ≡ ok true
      → IsSigner signer
      → remove_scheduled_call sdk signer contract w.store ≡ ok s'
      → IsPaired sdk w.store
      → IsPaired sdk (remove_schedule sdk msg w).1.store
  remove_schedule-IsPaired msg w signer contract s' signed named owned sized done paired =
      let (_, stored) =
        remove_schedule-store sdk msg w signer contract s' emits signed named owned done in
      rw stored (Step-IsPaired sdk sl be (removed signer contract s' sized done) paired)
