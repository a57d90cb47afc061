-- ===== src/Schedule/Keys.antt =====
-- x/schedule/types/keys.go: the keys under which a scheduled call stands in the store.
pub mod Distinct
use burnt.Base.{ℕ, Bytes, [], ◌∷◌, ◌++◌}
use burnt.Sdk.{Sdk}

abbrev pub scheduled_call_by_block_height_key_prefix : ℕ
scheduled_call_by_block_height_key_prefix = 1

abbrev pub scheduled_call_by_name_key_prefix : ℕ
scheduled_call_by_name_key_prefix = 2

module _ (sdk : Sdk) where
  unfoldable pub make_scheduled_call_by_block_height_prefix_key : ℕ → Bytes
  make_scheduled_call_by_block_height_prefix_key block_height =
      scheduled_call_by_block_height_key_prefix ∷ sdk.uint64_to_big_endian block_height

  unfoldable pub make_scheduled_call_by_block_height_key : ℕ → Bytes → Bytes → Bytes
  make_scheduled_call_by_block_height_key block_height signer contract =
      make_scheduled_call_by_block_height_prefix_key block_height ++ (signer ++ contract)

-- It does not depend on the SDK.
unfoldable pub make_scheduled_call_by_signer_contract_key : Bytes → Bytes → Bytes
make_scheduled_call_by_signer_contract_key signer contract =
    scheduled_call_by_name_key_prefix ∷ (signer ++ contract)
