-- ===== src/Schedule/Keeper.antt =====
-- x/schedule/keeper/keeper.go: the two indexes of scheduled calls in the store.
pub mod Holds
pub mod Indexes
pub mod Others
pub mod Paired
use burnt.Base.{
  ℕ, List, [], ◌∷◌, ◌++◌, Option, none, some, Bool, Bytes, length, take, drop, trim_prefix,
  if◌then◌else◌, Result, ok, ◌>>=◌,
}
use burnt.Base.Call.{Call, must}
use burnt.Base.Call
use burnt.Sdk.{Sdk}
use burnt.Messages.ScheduledCall.{ScheduledCall, marshal, unmarshal}
use burnt.Schedule.Keys.{
  scheduled_call_by_block_height_key_prefix, make_scheduled_call_by_block_height_prefix_key,
  make_scheduled_call_by_block_height_key, make_scheduled_call_by_signer_contract_key,
}
use burnt.Schedule.World.{World}

-- What `Get` returns, as bytes: nil on a key that is not there.
abbrev pub or_nil : Option Bytes → Bytes
or_nil none = []
or_nil (some b) = b

module _ (sdk : Sdk) where
  unfoldable pub block_height_for_signer_contract : sdk.Store → Bytes → Bytes → Result ℕ
  block_height_for_signer_contract store signer contract =
      sdk.big_endian_to_uint64
        (or_nil (sdk.get store (make_scheduled_call_by_signer_contract_key signer contract)))

  unfoldable pub add_scheduled_call : Bytes → Bytes → Bytes → ℕ → sdk.Store → Result sdk.Store
  add_scheduled_call signer contract call_body block_height store = do
    let by_height_key = make_scheduled_call_by_block_height_key sdk block_height signer contract
    let by_signer_contract_key = make_scheduled_call_by_signer_contract_key signer contract
    let store1 = sdk.set store by_signer_contract_key (sdk.uint64_to_big_endian block_height)
    value ← must (marshal (record { call_body = call_body }))
    ok (sdk.set store1 by_height_key value)

  unfoldable pub remove_scheduled_call_with_block_height : Bytes → Bytes → ℕ → sdk.Store → sdk.Store
  remove_scheduled_call_with_block_height signer contract block_height store =
      let store1 = sdk.delete store (make_scheduled_call_by_signer_contract_key signer contract) in
      sdk.delete store1 (make_scheduled_call_by_block_height_key sdk block_height signer contract)

  -- The values stand under each other's keys, as the source has it.
  unfoldable pub re_schedule_call : Bytes → Bytes → Bytes → ℕ → ℕ → sdk.Store → Result sdk.Store
  re_schedule_call signer contract call_body old_block_height new_block_height store = do
    let store1 = remove_scheduled_call_with_block_height signer contract old_block_height store
    let new_by_height_key =
        make_scheduled_call_by_block_height_key sdk new_block_height signer contract
    let new_by_signer_contract_key = make_scheduled_call_by_signer_contract_key signer contract
    let store2 = sdk.set store1 new_by_height_key (sdk.uint64_to_big_endian new_block_height)
    value ← must (marshal (record { call_body = call_body }))
    ok (sdk.set store2 new_by_signer_contract_key value)

  unfoldable pub remove_scheduled_call : Bytes → Bytes → sdk.Store → Result sdk.Store
  remove_scheduled_call signer contract store = do
    let by_name_key = make_scheduled_call_by_signer_contract_key signer contract
    block_height ← sdk.big_endian_to_uint64 (or_nil (sdk.get store by_name_key))
    let store1 = sdk.delete store by_name_key
    ok (
        sdk.delete store1
          (make_scheduled_call_by_block_height_key sdk block_height signer contract))

  -- The loop of `iterateScheduledCalls` over the entries left, with the state of its callback.
  unfoldable pub iterate_entries :
      {A : Type 0}
      → (ℕ → Bytes → Bytes → ScheduledCall → A → Bool × A)
      → List (Bytes × Bytes)
      → A
      → Result A
  iterate_entries cb [] a = ok a
  iterate_entries cb ((key, value) ∷ rest) a = do
    let key_pair = trim_prefix key (scheduled_call_by_block_height_key_prefix ∷ [])
    block_height ← sdk.big_endian_to_uint64 (take 8 key_pair)
    let signer = take 20 (drop 8 key_pair)
    let contract = take 32 (drop 20 (drop 8 key_pair))
    call ← must (unmarshal value)
    let (stop, a') = cb block_height signer contract call a
    if stop then ok a' else iterate_entries cb rest a'

  unfoldable pub iterate_scheduled_calls :
      {A : Type 0} → (ℕ → Bytes → Bytes → ScheduledCall → A → Bool × A) → sdk.Store → A → Result A
  iterate_scheduled_calls cb store a =
      iterate_entries cb (sdk.entries store (scheduled_call_by_block_height_key_prefix ∷ [])) a

  unfoldable pub count_of_scheduled_calls_at_height : sdk.Store → ℕ → ℕ
  count_of_scheduled_calls_at_height store block_height =
      length (sdk.entries store (make_scheduled_call_by_block_height_prefix_key sdk block_height))
