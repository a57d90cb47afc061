-- ===== src/Schedule/MsgServer/Stores.antt =====
-- What an admitted message leaves in the store.
use burnt.Base.{
  ℕ, suc, ◌+◌, ◌^◌, ◌≤◌, ◌<◌, ◌≡◌, ◌≢◌, true, some, none, Bytes, length, ok, err, arith,
  illegal_tag, nonzero,
}
use burnt.Sdk.{Sdk}
use burnt.Sdk.Laws.{StoreLaws, BigEndianLaws}
use burnt.Messages.MsgAddSchedule.{MsgAddSchedule}
use burnt.Messages.MsgRemoveSchedule.{MsgRemoveSchedule}
use burnt.Messages.Event.{Event}
use burnt.Messages.ScheduledCall.{unmarshal}
use burnt.Schedule.World.{World, query_owner, emit_typed_event}
use burnt.Schedule.Keys.{make_scheduled_call_by_block_height_key}
use burnt.Schedule.Keeper.{block_height_for_signer_contract, remove_scheduled_call}
use burnt.Schedule.Keeper.Indexes.{
  HoldsCall, IsDueAt, add_scheduled_call-stores, re_schedule_call-swaps,
  remove_scheduled_call-removes,
}
use burnt.Schedule.MsgServer.{address, store_call, add_schedule, remove_schedule}
use burnt.Schedule.MsgServer.Checks.{IsAdmitted}

module _ (sdk : Sdk) where
  -- The call of an admitted message is written to the store, if it can be, and nothing else happens
  -- to the store.
  pub add_schedule-store_call :
      (msg : MsgAddSchedule) (w : World sdk) (signer contract : Bytes) (existing : ℕ)
      (s' : sdk.Store)
      → ((x : Event) → sdk.can_emit x ≡ true)
      → IsAdmitted sdk msg w signer contract
      → block_height_for_signer_contract sdk w.store signer contract ≡ ok existing
      → store_call sdk signer contract msg.call_body existing msg.block_height w.store ≡ ok s'
      → ((add_schedule sdk msg w).0 ≡ ok tt) × ((add_schedule sdk msg w).1.store ≡ s')
  unfolding add_schedule emit_typed_event
  add_schedule-store_call msg w signer contract existing s' emits a e st = grind (arith, emits)

  pub remove_schedule-store :
      (msg : MsgRemoveSchedule) (w : World sdk) (signer contract : Bytes) (s' : sdk.Store)
      → ((x : Event) → sdk.can_emit x ≡ true)
      → address sdk msg.signer ≡ ok signer
      → address sdk msg.contract ≡ ok contract
      → query_owner sdk signer contract w ≡ ok true
      → remove_scheduled_call sdk signer contract w.store ≡ ok s'
      → ((remove_schedule sdk msg w).0 ≡ ok tt) × ((remove_schedule sdk msg w).1.store ≡ s')
  unfolding remove_schedule emit_typed_event
  remove_schedule-store msg w signer contract s' emits s c owned st = grind (arith, emits)

  -- Where the height and the upper bound are below 2 ^ 64 and their sum is not, no AddSchedule is
  -- accepted.
  pub add_schedule-wrapped :
      (msg : MsgAddSchedule) (w : World sdk)
      → w.height < 2 ^ 64
      → w.params.upper_bound < 2 ^ 64
      → 2 ^ 64 ≤ w.height + w.params.upper_bound
      → (add_schedule sdk msg w).0 ≢ ok tt
  unfolding add_schedule
  add_schedule-wrapped msg w h u wraps e = ground arith

  module _ (sl : StoreLaws sdk) (be : BigEndianLaws sdk) where
    -- With the laws of the store and of big-endian numbers, where events can be emitted: an
    -- AddSchedule that passes its checks, for a signer and a contract with no call, with a body
    -- below 2 ^ 62 bytes and a height below 2 ^ 64, is accepted, and both indexes hold its call at
    -- its height.
    pub add_schedule-new :
        (msg : MsgAddSchedule) (w : World sdk) (signer contract : Bytes)
        → ((x : Event) → sdk.can_emit x ≡ true)
        → IsAdmitted sdk msg w signer contract
        → block_height_for_signer_contract sdk w.store signer contract ≡ ok 0
        → length msg.call_body < 2 ^ 62
        → msg.block_height < 2 ^ 64
        → let (r, w') = add_schedule sdk msg w in
          (r ≡ ok tt)
          × HoldsCall sdk w'.store msg.block_height signer contract msg.call_body
          × (block_height_for_signer_contract sdk w'.store signer contract ≡ ok msg.block_height)
    unfolding store_call
    add_schedule-new msg w signer contract emits a new small fits =
        let (s', added, holds, due) =
          add_scheduled_call-stores sdk sl be signer contract msg.call_body msg.block_height w.store
            small fits in
        let (accepted, stored) =
          add_schedule-store_call msg w signer contract 0 s' emits a new added in
        (accepted, rw stored holds, rw stored due)

    -- An admitted message of a signer and a contract that have a call already is accepted, and what
    -- it leaves under the new height is no scheduled call.
    pub add_schedule-again :
        (msg : MsgAddSchedule) (w : World sdk) (signer contract : Bytes) (old : ℕ)
        → ((x : Event) → sdk.can_emit x ≡ true)
        → IsAdmitted sdk msg w signer contract
        → block_height_for_signer_contract sdk w.store signer contract ≡ ok (suc old)
        → length msg.call_body < 2 ^ 62
        → msg.block_height < 2 ^ 56
        → let (r, w') = add_schedule sdk msg w in
          (value : Bytes) × (r ≡ ok tt)
          × (sdk.get w'.store
                (make_scheduled_call_by_block_height_key sdk msg.block_height signer contract)
              ≡ some value)
          × (unmarshal value ≡ err illegal_tag)
    unfolding store_call
    add_schedule-again msg w signer contract old emits a again small low =
        let (s', value, moved, under, broken, _) =
          re_schedule_call-swaps sdk sl be signer contract msg.call_body (suc old) msg.block_height
            w.store small low in
        let (accepted, stored) =
          add_schedule-store_call msg w signer contract (suc old) s' emits a again
            (rw (nonzero old) moved) in
        (value, accepted, rw stored under, broken)

    -- With the laws of the store and of big-endian numbers, where events can be emitted:
    -- RemoveSchedule by a signer that owns the contract, with addresses that parse, of a call that
    -- is due at a height below 2 ^ 64, is accepted and takes the call out of both indexes.
    pub remove_schedule-removes :
        (msg : MsgRemoveSchedule) (w : World sdk) (signer contract : Bytes) (h : ℕ)
        → ((x : Event) → sdk.can_emit x ≡ true)
        → address sdk msg.signer ≡ ok signer
        → address sdk msg.contract ≡ ok contract
        → query_owner sdk signer contract w ≡ ok true
        → h < 2 ^ 64
        → IsDueAt sdk w.store signer contract h
        → let (r, w') = remove_schedule sdk msg w in
          (r ≡ ok tt)
          × (block_height_for_signer_contract sdk w'.store signer contract ≡ ok 0)
          × (sdk.get w'.store (make_scheduled_call_by_block_height_key sdk h signer contract)
              ≡ none)
    remove_schedule-removes msg w signer contract h emits s c owned fits due =
        let (s', removed, unscheduled, gone) =
          remove_scheduled_call-removes sdk sl be signer contract h w.store fits due in
        let (accepted, stored) =
          remove_schedule-store msg w signer contract s' emits s c owned removed in
        (accepted, rw stored unscheduled, rw stored gone)
