-- ===== src/Schedule/Keeper/Indexes.antt =====
-- What the operations of the keeper do to the two indexes: by name, and by block height.
use burnt.Base.{
  ℕ, ◌^◌, ◌<◌, ◌≡◌, ◌≢◌, sym, ◌∙◌, ◌/◌, ◌%◌, some, none, [], ◌∷◌, Bytes, length, ok, err, arith, ap,
  illegal_tag,
}
use burnt.Sdk.{Sdk}
use burnt.Sdk.Laws.{StoreLaws, BigEndianLaws}
use burnt.Messages.ScheduledCall.{unmarshal}
use burnt.Messages.ScheduledCall.Codec.{marshal-field, unmarshal-field, unmarshal-zero_byte}
use burnt.Wire.Written.{bytes_field}
use burnt.Schedule.Keys.{
  make_scheduled_call_by_block_height_key, make_scheduled_call_by_signer_contract_key,
}
use burnt.Schedule.Keys.Distinct.{name_key-ne-height_key}
use burnt.Schedule.Keeper.{
  block_height_for_signer_contract, add_scheduled_call, remove_scheduled_call_with_block_height,
  re_schedule_call, remove_scheduled_call,
}

module _ (sdk : Sdk) where
  -- The index by name says that the call of `signer` to `contract` is due at `h`.
  abbrev pub IsDueAt : sdk.Store → Bytes → Bytes → ℕ → Type 0
  IsDueAt s signer contract h =
      sdk.get s (make_scheduled_call_by_signer_contract_key signer contract)
      ≡ some (sdk.uint64_to_big_endian h)

  -- The index by block height holds a call with the body `body`.
  abbrev pub HoldsCall : sdk.Store → ℕ → Bytes → Bytes → Bytes → Type 0
  HoldsCall s h signer contract body =
      (value : Bytes) × (sdk.get s (make_scheduled_call_by_block_height_key sdk h signer contract)
        ≡ some value)
      × (unmarshal value ≡ ok (record { call_body = body }))

  module _ (be : BigEndianLaws sdk) where
    pub read_height :
        (h : ℕ) → h < 2 ^ 64 → sdk.big_endian_to_uint64 (sdk.uint64_to_big_endian h) ≡ ok h
    read_height h fits = rw (be.writes h) (be.reads h fits)

    -- A height below 2 ^ 56 in the place of a call is no call.
    pub unmarshal-uint64 :
        (h : ℕ) → h < 2 ^ 56 → unmarshal (sdk.uint64_to_big_endian h) ≡ err illegal_tag
    unmarshal-uint64 h small =
        rw (be.writes h) (ap (λ (b : ℕ). unmarshal (b ∷ tail)) top ∙ unmarshal-zero_byte tail)
      where
        top : h / 2 ^ 56 % 256 ≡ 0
        top = omega arith

        tail : Bytes
        tail =
            (h / 2 ^ 48 % 256)
            ∷ (h / 2 ^ 40 % 256)
            ∷ (h / 2 ^ 32 % 256)
            ∷ (h / 2 ^ 24 % 256)
            ∷ (h / 2 ^ 16 % 256)
            ∷ (h / 2 ^ 8 % 256)
            ∷ (h % 256)
            ∷ []

    pub block_height-IsDueAt :
        (s : sdk.Store) (signer contract : Bytes) (h : ℕ)
        → h < 2 ^ 64
        → IsDueAt s signer contract h
        → block_height_for_signer_contract sdk s signer contract ≡ ok h
    unfolding block_height_for_signer_contract
    block_height-IsDueAt s signer contract h fits due =
        rw (due, block_height_for_signer_contract) (read_height h fits)

  module _ (sl : StoreLaws sdk) (be : BigEndianLaws sdk) (signer contract : Bytes) where
    keys_differ :
        (h : ℕ)
        → make_scheduled_call_by_block_height_key sdk h signer contract
          ≢ make_scheduled_call_by_signer_contract_key signer contract
    keys_differ h e = name_key-ne-height_key sdk h signer contract signer contract (sym e)

    -- With the laws of the store and of big-endian numbers: AddScheduledCall of a body below 2 ^ 62
    -- bytes at a height below 2 ^ 64 gives a store whose index by height holds the call and whose
    -- index by name gives that height.
    pub add_scheduled_call-stores :
        (body : Bytes) (h : ℕ) (s : sdk.Store)
        → length body < 2 ^ 62
        → h < 2 ^ 64
        → (s' : sdk.Store) × (add_scheduled_call sdk signer contract body h s ≡ ok s')
          × HoldsCall s' h signer contract body
          × (block_height_for_signer_contract sdk s' signer contract ≡ ok h)
    unfolding add_scheduled_call
    add_scheduled_call-stores body h s small fits = (
      sdk.set s1 height_key value,
      rw (marshal-field (record { call_body = body }) small),
      (
        value,
        sl.get-set_self s1 height_key value,
        unmarshal-field (record { call_body = body }) small,
      ),
      block_height-IsDueAt be _ signer contract h fits due,
    )
      where
        height_key : Bytes
        height_key = make_scheduled_call_by_block_height_key sdk h signer contract

        name_key : Bytes
        name_key = make_scheduled_call_by_signer_contract_key signer contract

        value : Bytes
        value = bytes_field 0x0a body

        s1 : sdk.Store
        s1 = sdk.set s name_key (sdk.uint64_to_big_endian h)

        due : IsDueAt (sdk.set s1 height_key value) signer contract h
        due =
            sl.get-set_ne s1 height_key name_key value (keys_differ h)
            ∙ sl.get-set_self s name_key (sdk.uint64_to_big_endian h)

    -- With the laws of the store and of big-endian numbers: ReScheduleCall with a body below 2 ^ 62
    -- bytes to a height below 2 ^ 56 leaves under the key by height a value that Unmarshal refuses,
    -- and under the key by name the encoded call.
    pub re_schedule_call-swaps :
        (body : Bytes) (old h : ℕ) (s : sdk.Store)
        → length body < 2 ^ 62
        → h < 2 ^ 56
        → (s' : sdk.Store) × (value : Bytes) × (re_schedule_call sdk signer contract body old h s
            ≡ ok s')
          × (sdk.get s' (make_scheduled_call_by_block_height_key sdk h signer contract)
              ≡ some value)
          × (unmarshal value ≡ err illegal_tag)
          × (sdk.get s' (make_scheduled_call_by_signer_contract_key signer contract)
              ≡ some (bytes_field 0x0a body))
    unfolding re_schedule_call
    re_schedule_call-swaps body old h s small low = (
      sdk.set s2 name_key value,
      sdk.uint64_to_big_endian h,
      rw (marshal-field (record { call_body = body }) small),
      sl.get-set_ne s2 name_key height_key value (λ e. keys_differ h (sym e))
          ∙ sl.get-set_self s1 height_key (sdk.uint64_to_big_endian h),
      unmarshal-uint64 be h low,
      sl.get-set_self s2 name_key value,
    )
      where
        height_key : Bytes
        height_key = make_scheduled_call_by_block_height_key sdk h signer contract

        name_key : Bytes
        name_key = make_scheduled_call_by_signer_contract_key signer contract

        value : Bytes
        value = bytes_field 0x0a body

        s1 : sdk.Store
        s1 = remove_scheduled_call_with_block_height sdk signer contract old s

        s2 : sdk.Store
        s2 = sdk.set s1 height_key (sdk.uint64_to_big_endian h)

    -- With the laws of the store and of big-endian numbers: RemoveScheduledCall of a call that is
    -- due at a height below 2 ^ 64 gives a store in which the index by name gives 0 and the index
    -- by height has no entry at that height.
    pub remove_scheduled_call-removes :
        (h : ℕ) (s : sdk.Store)
        → h < 2 ^ 64
        → IsDueAt s signer contract h
        → (s' : sdk.Store) × (remove_scheduled_call sdk signer contract s ≡ ok s')
          × (block_height_for_signer_contract sdk s' signer contract ≡ ok 0)
          × (sdk.get s' (make_scheduled_call_by_block_height_key sdk h signer contract) ≡ none)
    unfolding remove_scheduled_call block_height_for_signer_contract
    remove_scheduled_call-removes h s fits due = (
      sdk.delete s1 height_key,
      rw (due, read_height be h fits),
      rw
          (
            sl.get-delete_ne s1 height_key name_key (keys_differ h),
            sl.get-delete_self s name_key,
            block_height_for_signer_contract,
          )
          be.reads_nil,
      sl.get-delete_self s1 height_key,
    )
      where
        height_key : Bytes
        height_key = make_scheduled_call_by_block_height_key sdk h signer contract

        name_key : Bytes
        name_key = make_scheduled_call_by_signer_contract_key signer contract

        s1 : sdk.Store
        s1 = sdk.delete s name_key
