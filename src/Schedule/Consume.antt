-- ===== src/Schedule/Consume.antt =====
-- `ConsumeScheduledCallsByHeight` of x/schedule/keeper/keeper.go. Its iterator is read when it is
-- made: the calls of the loop write to the store behind it.
use burnt.Base.{ℕ, List, [], ◌∷◌, Bool, Bytes, take, drop, trim_prefix, if◌then◌else◌}
use burnt.Base.Call.{Call, pure, lift, get, put, ◌>>=◌, ◌>>◌, must}
use burnt.Sdk.{Sdk}
use burnt.Messages.ScheduledCall.{ScheduledCall, unmarshal}
use burnt.Schedule.Keys.{make_scheduled_call_by_block_height_prefix_key}
use burnt.Schedule.World.{World}
use burnt.Schedule.Keeper.{remove_scheduled_call_with_block_height}

-- The signer and the contract in what stands behind the block height.
unfoldable pub split_key : Bytes → Bytes × Bytes
split_key key_pair = (take 20 key_pair, take 32 (drop 20 key_pair))

module _ (sdk : Sdk) where
  -- The callback: whether to stop.
  abbrev pub Consumer : Type 0
  Consumer = Bytes → Bytes → ScheduledCall → Call (World sdk) Bool

  -- `k.removeScheduledCallWithBlockHeight`, on the store of the context.
  abbrev pub remove_entry : Bytes → Bytes → ℕ → Call (World sdk) (Unit {0})
  remove_entry signer contract block_height = do
    w ← get
    put (record w {
      store = remove_scheduled_call_with_block_height sdk signer contract block_height w.store;
    })

  -- One round of the loop, with the key's rest and the call that it decodes.
  unfoldable pub consume_decoded : ℕ → Consumer → Bytes → ScheduledCall → Call (World sdk) Bool
  consume_decoded block_height cb key_pair call = do
    let (signer, contract) = split_key key_pair
    remove_entry signer contract block_height
    cb signer contract call

  unfoldable pub consume_entry : ℕ → Consumer → Bytes × Bytes → Call (World sdk) Bool
  consume_entry block_height cb (key, value) = do
    call ← lift (must (unmarshal value))
    let prefix_key = make_scheduled_call_by_block_height_prefix_key sdk block_height
    consume_decoded block_height cb (trim_prefix key prefix_key) call

  -- The loop, over the entries left.
  unfoldable pub consume_entries : ℕ → Consumer → List (Bytes × Bytes) → Call (World sdk) (Unit {0})
  consume_entries block_height cb [] = pure tt
  consume_entries block_height cb (entry ∷ rest) = do
    stop ← consume_entry block_height cb entry
    if stop then pure tt else consume_entries block_height cb rest

  unfoldable pub consume_scheduled_calls_by_height : ℕ → Consumer → Call (World sdk) (Unit {0})
  consume_scheduled_calls_by_height block_height cb = do
    w ← get
    let prefix_key = make_scheduled_call_by_block_height_prefix_key sdk block_height
    consume_entries block_height cb (sdk.entries w.store prefix_key)
