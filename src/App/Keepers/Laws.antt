-- ===== src/App/Keepers/Laws.antt =====
-- The documented behaviour of the staking and slashing keepers that theorems rest on.
use burnt.Base.{◌≡◌, ◌≢◌, List, [], ◌∷◌, All, Bytes, length, bytes_equal, if◌then◌else◌, some}
use burnt.Sdk.Laws.{In}
use burnt.App.Keepers.{Keepers, Unbonding, Validator, SigningInfo}

module _ {V : Type 0} (key : V → Bytes) where
  -- A list in which the value with the key of `v` is `v`.
  unfoldable pub replaced : V → List V → List V
  replaced v [] = []
  replaced v (x ∷ xs) =
      let rest = replaced v xs in if bytes_equal (key x) (key v) then v ∷ rest else x ∷ rest

  -- No two values have one key.
  abbrev pub IsKeyed : List V → Type 0
  IsKeyed [] = Unit {0}
  IsKeyed (x ∷ xs) = All (λ y. key x ≢ key y) xs × IsKeyed xs

abbrev pub signing_key : Bytes × SigningInfo → Bytes
signing_key (addr, info) = addr

-- A write of a value replaces the one with its key, and leaves the other collections alone.
pub record CollectionLaws (k : Keepers) : Type 0 where
  pub redelegations_keyed : (c : k.Chain) → IsKeyed Unbonding.key (k.redelegations c)
  pub unbonding_keyed : (c : k.Chain) → IsKeyed Unbonding.key (k.unbonding_delegations c)
  pub infos_keyed : (c : k.Chain) → IsKeyed signing_key (k.signing_infos c)
  pub redelegations-set :
      (c : k.Chain) (u : Unbonding)
      → k.redelegations (k.set_redelegation u c) ≡ replaced Unbonding.key u (k.redelegations c)
  pub unbonding-set :
      (c : k.Chain) (u : Unbonding)
      → k.unbonding_delegations (k.set_unbonding_delegation u c)
        ≡ replaced Unbonding.key u (k.unbonding_delegations c)
  pub redelegations-set_unbonding :
      (c : k.Chain) (u : Unbonding)
      → k.redelegations (k.set_unbonding_delegation u c) ≡ k.redelegations c
  pub unbonding-set_redelegation :
      (c : k.Chain) (u : Unbonding)
      → k.unbonding_delegations (k.set_redelegation u c) ≡ k.unbonding_delegations c
  pub infos-set :
      (c : k.Chain) (addr : Bytes) (info : SigningInfo)
      → k.signing_infos (k.set_signing_info addr info c)
        ≡ replaced signing_key (addr, info) (k.signing_infos c)

-- The key of a validator is a byte for the prefix, a byte for the length of its address, and the
-- address; a validator that is found has the address that was looked up.
pub record ValidatorLaws (k : Keepers) : Type 0 where
  pub keys_hold_length :
      (c : k.Chain) (key : Bytes)
      → In key (k.validator_keys c)
      → (val : Validator) × In val (k.validators c)
        × (key ≡ 0x21 ∷ length val.operator ∷ val.operator)
  pub found :
      (c : k.Chain) (addr : Bytes) (val : Validator)
      → k.get_validator c addr ≡ some val
      → In val (k.validators c) × (val.operator ≡ addr)
