-- ===== src/Schedule/MsgServer.antt =====
-- The message server: x/schedule/keeper/msg_server_add_schedule.go, msg_server_remove_schedule.go,
-- and the checks of x/schedule/types/message_add_schedule.go and message_remove_schedule.go.
use burnt.Base.{
  ℕ, Bool, true, false, not, Bytes, length, ltb, leb, ◌==◌, if◌then◌else◌, Result, ok, err, panic,
  or_panic, invalid_block_height, too_far_in_future, unauthorized, unmet_minimum_balance,
  empty_call_body, invalid_address, unknown_request, List, [], ◌∷◌, some, none,
}
pub mod Checks
pub mod Stores
pub mod Steps
use burnt.Base.Call.{Call, pure, lift, get, put, ◌>>=◌, ◌>>◌, check}
use burnt.Sdk.{Sdk}
use burnt.Messages.MsgAddSchedule.{MsgAddSchedule}
use burnt.Messages.MsgRemoveSchedule.{MsgRemoveSchedule}
use burnt.Messages.Event.{added, removed}
use burnt.Schedule.World.{World, or_error, query_owner, emit_typed_event}
use burnt.Schedule.Keeper.{
  block_height_for_signer_contract, add_scheduled_call, re_schedule_call, remove_scheduled_call,
}
use burnt.Schedule.EndBlock.{last_block, balance_of}

module _ (sdk : Sdk) where
  -- The addresses of a message.
  unfoldable pub address : Bytes → Result Bytes
  address text = or_error (sdk.acc_address_from_bech32 text) invalid_address

  -- `AddSchedule` writes a new call, or moves the one that stands at a height that is not 0.
  unfoldable pub store_call : Bytes → Bytes → Bytes → ℕ → ℕ → sdk.Store → Result sdk.Store
  store_call signer contract call_body existing block_height store =
      if existing == 0
      then add_scheduled_call sdk signer contract call_body block_height store
      else re_schedule_call sdk signer contract call_body existing block_height store

  unfoldable pub add_schedule : MsgAddSchedule → Call (World sdk) (Unit {0})
  add_schedule msg = do
    w ← get
    check (ltb w.height msg.block_height) invalid_block_height
    check (leb msg.block_height (last_block w.height w.params)) too_far_in_future
    signer ← lift (address msg.signer)
    contract ← lift (address msg.contract)
    is_owner ← lift (query_owner sdk signer contract w)
    check is_owner unauthorized
    let balance = balance_of sdk w.params contract w
    check (leb w.params.minimum_balance.amount balance.amount) unmet_minimum_balance
    existing ← lift (block_height_for_signer_contract sdk w.store signer contract)
    store' ← lift (store_call signer contract msg.call_body existing msg.block_height w.store)
    put (record w { store = store' })
    emit_typed_event sdk (
        added (record {
          block_height = w.height;
          scheduled_height = msg.block_height;
          signer = sdk.bech32 signer;
          contract = sdk.bech32 contract;
          balance = some balance;
          call_body = msg.call_body;
        }))

  unfoldable pub remove_schedule : MsgRemoveSchedule → Call (World sdk) (Unit {0})
  remove_schedule msg = do
    w ← get
    signer ← lift (address msg.signer)
    contract ← lift (address msg.contract)
    is_owner ← lift (query_owner sdk signer contract w)
    check is_owner unauthorized
    let balance = balance_of sdk w.params contract w
    store' ← lift (remove_scheduled_call sdk signer contract w.store)
    put (record w { store = store' })
    emit_typed_event sdk (
        removed (record {
          block_height = w.height;
          signer = sdk.bech32 signer;
          contract = sdk.bech32 contract;
          balance = some balance;
          call_body = [];
        }))

  unfoldable pub validate_basic_add : MsgAddSchedule → Result (Unit {0})
  validate_basic_add msg = elim (sdk.acc_address_from_bech32 msg.signer) [
    | none ↦ err invalid_address
    | some _ ↦ elim (sdk.acc_address_from_bech32 msg.contract) [
      | none ↦ err invalid_address
      | some _ ↦ if length msg.call_body == 0 then err empty_call_body else ok tt
    ]
  ]

  unfoldable pub validate_basic_remove : MsgRemoveSchedule → Result (Unit {0})
  validate_basic_remove msg = elim (sdk.acc_address_from_bech32 msg.signer) [
    | none ↦ err invalid_address
    | some _ ↦ elim (sdk.acc_address_from_bech32 msg.contract) [
      | none ↦ err invalid_address
      | some _ ↦ ok tt
    ]
  ]

  -- `GetSigners` of both messages.
  unfoldable pub get_signers : Bytes → Result (List Bytes)
  get_signers signer = elim (sdk.acc_address_from_bech32 signer) [
    | none ↦ panic
    | some a ↦ ok (a ∷ [])
  ]

  unfoldable pub new_msg_add_schedule : Bytes → Bytes → Bytes → ℕ → MsgAddSchedule
  new_msg_add_schedule signer contract call_body block_height = record {
    signer = sdk.bech32 signer;
    contract = sdk.bech32 contract;
    call_body = call_body;
    block_height = block_height;
  }

  unfoldable pub new_msg_remove_schedule : Bytes → Bytes → MsgRemoveSchedule
  new_msg_remove_schedule signer contract = record {
    signer = sdk.bech32 signer;
    contract = sdk.bech32 contract;
  }
