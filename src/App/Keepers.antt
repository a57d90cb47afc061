-- ===== src/App/Keepers.antt =====
-- What the application calls of the SDK when it exports its state: the base application, the module
-- manager, and the keepers of crisis, staking, distribution and slashing. A height of the context
-- that a call reads is its first argument.
pub mod Laws
use burnt.Base.{ℕ, List, Option, Bool, Bytes, Result}
use burnt.Base.Call.{Call}

-- The parts of the SDK's types that the export reads or writes; `other` is the rest.
pub record UnbondingEntry : Type 0 where
  pub creation_height : ℕ
  pub other : Bytes

-- A redelegation or an unbonding delegation. Its addresses are its key.
pub record Unbonding : Type 0 where
  pub key : Bytes
  pub entries : List UnbondingEntry

pub record Validator : Type 0 where
  pub operator : Bytes
  pub jailed : Bool
  pub unbonding_height : ℕ
  pub other : Bytes

pub record Delegation : Type 0 where
  pub delegator : Bytes
  pub validator : Bytes

pub record SigningInfo : Type 0 where
  pub start_height : ℕ
  pub other : Bytes

pub record Keepers : Type 1 where
  -- The stores of all modules.
  pub Chain : Type 0
  pub last_block_height : Chain → ℕ
  -- `mm.ExportGenesis` and the JSON text of what it returns.
  pub Genesis : Type 0
  pub export_genesis : ℕ → Call Chain Genesis
  pub marshal_indent : Genesis → Result Bytes
  pub write_validators : ℕ → Chain → Result Bytes
  pub get_consensus_params : Chain → Bytes
  pub val_address_from_bech32 : Bytes → Option Bytes
  pub val_bech32 : Bytes → Bytes
  -- Crisis: a broken invariant is a panic.
  pub assert_invariants : Call Chain (Unit {0})
  -- Distribution.
  pub withdraw_validator_commission : ℕ → Bytes → Call Chain (Unit {0})
  pub withdraw_delegation_rewards : ℕ → Bytes → Bytes → Call Chain (Unit {0})
  pub delete_all_validator_slash_events : Chain → Chain
  pub delete_all_validator_historical_rewards : Chain → Chain
  pub Coins : Type 0
  pub add_coins : Coins → Coins → Coins
  pub get_outstanding_rewards : Chain → Bytes → Coins
  pub get_community_pool : Chain → Coins
  pub set_community_pool : Coins → Chain → Chain
  pub after_validator_created : ℕ → Bytes → Call Chain (Unit {0})
  pub before_delegation_created : ℕ → Bytes → Bytes → Call Chain (Unit {0})
  pub after_delegation_modified : ℕ → Bytes → Bytes → Call Chain (Unit {0})
  -- Staking. The keys are those that a reverse iterator over the prefix of the validators yields.
  pub validators : Chain → List Validator
  pub delegations : Chain → List Delegation
  pub redelegations : Chain → List Unbonding
  pub set_redelegation : Unbonding → Chain → Chain
  pub unbonding_delegations : Chain → List Unbonding
  pub set_unbonding_delegation : Unbonding → Chain → Chain
  pub validator_keys : Chain → List Bytes
  pub get_validator : Chain → Bytes → Option Validator
  pub set_validator : Validator → Chain → Chain
  pub apply_validator_set_updates : ℕ → Call Chain (Unit {0})
  -- Slashing.
  pub signing_infos : Chain → List (Bytes × SigningInfo)
  pub set_signing_info : Bytes → SigningInfo → Chain → Chain
