-- ===== src/Schedule/Keeper/Others.antt =====
-- Removing a call leaves the calls of other signers and contracts alone.
use burnt.Base.{ℕ, ◌^◌, ◌<◌, ◌≡◌, sym, ◌∙◌, Bytes, length, ok}
use burnt.Sdk.{Sdk}
use burnt.Sdk.Laws.{StoreLaws, BigEndianLaws}
use burnt.Schedule.Keys.{
  make_scheduled_call_by_block_height_key, make_scheduled_call_by_signer_contract_key,
}
use burnt.Schedule.Keys.Distinct.{name_key-ne-height_key, height_key-injective, name_key-injective}
use burnt.Schedule.Keeper.{block_height_for_signer_contract, remove_scheduled_call}
use burnt.Schedule.Keeper.Indexes.{IsDueAt, read_height}

module _ (sdk : Sdk) (sl : StoreLaws sdk) (be : BigEndianLaws sdk) (signer contract : Bytes) where
  -- With the laws of the store and of big-endian numbers: RemoveScheduledCall of a call that is due
  -- at a height below 2 ^ 64 leaves both entries of any other pair of a signer, with an address of
  -- the same length, and a contract as they were, at every height below 2 ^ 64.
  pub remove_scheduled_call-keeps :
      (h : ℕ) (s s' : sdk.Store) (other other' : Bytes) (k : ℕ)
      → h < 2 ^ 64
      → IsDueAt sdk s signer contract h
      → remove_scheduled_call sdk signer contract s ≡ ok s'
      → length signer ≡ length other
      → ¬ ((signer ≡ other) × (contract ≡ other'))
      → k < 2 ^ 64
      → (sdk.get s' (make_scheduled_call_by_signer_contract_key other other')
          ≡ sdk.get s (make_scheduled_call_by_signer_contract_key other other'))
        × (sdk.get s' (make_scheduled_call_by_block_height_key sdk k other other')
            ≡ sdk.get s (make_scheduled_call_by_block_height_key sdk k other other'))
  unfolding remove_scheduled_call block_height_for_signer_contract
  remove_scheduled_call-keeps h s s' other other' k fits due removed len ne fits' = rw (← after) (
    sl.get-delete_ne s1 height_key _
          (λ e. name_key-ne-height_key sdk h other other' signer contract (sym e))
        ∙ sl.get-delete_ne s name_key _
            (λ e. ne (name_key-injective signer contract other other' len e)),
    sl.get-delete_ne s1 height_key _ (λ e.
          let p = height_key-injective sdk be h k signer contract other other' fits fits' len e in
          ne (p.1, p.2))
        ∙ sl.get-delete_ne s name_key _ (name_key-ne-height_key sdk k signer contract other other'),
  )
    where
      height_key : Bytes
      height_key = make_scheduled_call_by_block_height_key sdk h signer contract

      name_key : Bytes
      name_key = make_scheduled_call_by_signer_contract_key signer contract

      s1 : sdk.Store
      s1 = sdk.delete s name_key

      done : remove_scheduled_call sdk signer contract s ≡ ok (sdk.delete s1 height_key)
      done = rw (due, read_height sdk be h fits)

      after : sdk.delete s1 height_key ≡ s'
      after = cc (removed, done)
