-- ===== src/Schedule/Keeper/Holds.antt =====
-- What the keeper's writes and deletions leave in the store.
use burnt.Base.{ℕ, ◌^◌, ◌<◌, ◌≡◌, ◌≢◌, none, Bytes, Result, ok, err, panic, stuck, ◌>>=◌}
use burnt.Base.Call.{must}
use burnt.Sdk.{Sdk}
use burnt.Sdk.Laws.{StoreLaws, BigEndianLaws}
use burnt.Messages.ScheduledCall.{marshal}
use burnt.Schedule.Keys.{
  make_scheduled_call_by_block_height_key, make_scheduled_call_by_signer_contract_key,
}
use burnt.Schedule.Keys.Distinct.{name_key-ne-height_key, height_key_parts}
use burnt.Schedule.Keeper.{add_scheduled_call, remove_scheduled_call_with_block_height}

-- The store has a value under a key.
abbrev pub Holds : (sdk : Sdk) → Bytes → sdk.Store → Type 0
Holds sdk key s = sdk.get s key ≢ none

module _ (sdk : Sdk) (sl : StoreLaws sdk) where
  set-Holds : (s : sdk.Store) (k j v : Bytes) → Holds sdk j s → Holds sdk j (sdk.set s k v)
  set-Holds s k j v held gone = held (cc (sl.get-set_ne s k j v other, gone))
    where
      other : k ≢ j
      other same = cc (sl.get-set_self s k v, gone)

  delete-Holds :
      (s : sdk.Store) (k j : Bytes) → k ≢ j → Holds sdk j s → Holds sdk j (sdk.delete s k)
  delete-Holds s k j ne held = rw (sl.get-delete_ne s k j ne) held

  module _ (key : Bytes) where
    -- A call that is added takes no entry out.
    pub add_scheduled_call-Holds :
        (s c body : Bytes) (n : ℕ) (store s' : sdk.Store)
        → Holds sdk key store
        → add_scheduled_call sdk s c body n store ≡ ok s'
        → Holds sdk key s'
    unfolding add_scheduled_call
    add_scheduled_call-Holds s c body n store s' held added =
        written (must (marshal (record { call_body = body }))) added
      where
        store1 : sdk.Store
        store1 =
            sdk.set store (make_scheduled_call_by_signer_contract_key s c)
              (sdk.uint64_to_big_endian n)

        height_key : Bytes
        height_key = make_scheduled_call_by_block_height_key sdk n s c

        written :
            (value : Result Bytes)
            → (value >>= λ v. ok (sdk.set store1 height_key v)) ≡ ok s'
            → Holds sdk key s'
        written (ok v) e gone =
            set-Holds store1 height_key key v (set-Holds store _ key _ held) (cc)
        written (err x) e gone = absurd (cc)
        written panic e gone = absurd (cc)
        written stuck e gone = absurd (cc)

  -- With the laws of the store and of big-endian numbers: taking a call out at one height leaves a
  -- value under every key of another height that had one.
  pub remove_with_block_height-Holds :
      BigEndianLaws sdk
      → (s c q r : Bytes) (k h : ℕ) (store : sdk.Store) → k < 2 ^ 64
      → h < 2 ^ 64
      → k ≢ h
      → Holds sdk (make_scheduled_call_by_block_height_key sdk h q r) store
      → Holds sdk
          (make_scheduled_call_by_block_height_key sdk h q r)
          (remove_scheduled_call_with_block_height sdk s c k store)
  unfolding remove_scheduled_call_with_block_height
  remove_with_block_height-Holds be s c q r k h store kb hb ne held =
      delete-Holds _ (make_scheduled_call_by_block_height_key sdk k s c) _
        (λ e. ne (height_key_parts sdk be k h s c q r kb hb e).0)
        (delete-Holds store (make_scheduled_call_by_signer_contract_key s c) _
          (name_key-ne-height_key sdk h s c q r) held)
