-- ===== src/Tests/Chain.antt =====
-- A concrete chain for the export: it has at most one validator, one redelegation, one unbonding
-- delegation and one signing info, and its last block is 7.
use burnt.Base.{
  ◌≡◌, refl, sym, ℕ, List, [], ◌∷◌, Bytes, Option, some, none, length, bytes_equal,
  bytes_equal_sound, if◌then◌else◌, ok, inl, inr, Bool-cases,
}
use burnt.Sdk.Laws.{In, here, there}
use burnt.App.Keepers.{Keepers, Unbonding, Validator, SigningInfo}
use burnt.App.Keepers.Laws.{replaced, IsKeyed, signing_key, CollectionLaws, ValidatorLaws}

pub record Little : Type 0 where
  pub validator : Option Validator
  pub redelegation : Option Unbonding
  pub unbonding : Option Unbonding
  pub info : Option (Bytes × SigningInfo)

module _ {V : Type 0} where
  abbrev pub listed : Option V → List V
  listed none = []
  listed (some v) = v ∷ []

  abbrev pub swapped : (V → Bytes) → V → Option V → Option V
  swapped key v none = none
  swapped key v (some x) = if bytes_equal (key x) (key v) then some v else some x

  listed-IsKeyed : (key : V → Bytes) (o : Option V) → IsKeyed key (listed o)
  listed-IsKeyed key none = tt
  listed-IsKeyed key (some v) = (tt, tt)

  listed-swapped :
      (key : V → Bytes) (v : V) (o : Option V)
      → listed (swapped key v o) ≡ replaced key v (listed o)
  unfolding replaced
  listed-swapped key v none = refl
  listed-swapped key v (some x) = elim (Bool-cases (bytes_equal (key x) (key v))) [
    | inl same ↦ rw same refl
    | inr other ↦ rw other refl
  ]

abbrev key_of : Validator → Bytes
key_of v = 0x21 ∷ length v.operator ∷ v.operator

abbrev keys_of : Option Validator → List Bytes
keys_of none = []
keys_of (some v) = key_of v ∷ []

abbrev find : Option Validator → Bytes → Option Validator
find none addr = none
find (some v) addr = if bytes_equal v.operator addr then some v else none

abbrev pub little : Keepers
little = record {
  Chain = Little;
  last_block_height = λ c. 7;
  Genesis = Bytes;
  export_genesis = λ height c. (ok (height ∷ []), c);
  marshal_indent = λ genesis. ok genesis;
  write_validators = λ height c. ok [];
  get_consensus_params = λ c. [];
  val_address_from_bech32 = λ text. some text;
  val_bech32 = λ address. address;
  assert_invariants = λ c. (ok tt, c);
  withdraw_validator_commission = λ height val c. (ok tt, c);
  withdraw_delegation_rewards = λ height del val c. (ok tt, c);
  delete_all_validator_slash_events = λ c. c;
  delete_all_validator_historical_rewards = λ c. c;
  Coins = ℕ;
  add_coins = λ a b. a;
  get_outstanding_rewards = λ c val. 0;
  get_community_pool = λ c. 0;
  set_community_pool = λ pool c. c;
  after_validator_created = λ height val c. (ok tt, c);
  before_delegation_created = λ height del val c. (ok tt, c);
  after_delegation_modified = λ height del val c. (ok tt, c);
  validators = λ (c : Little). listed c.validator;
  delegations = λ c. [];
  redelegations = λ (c : Little). listed c.redelegation;
  set_redelegation =
      λ u (c : Little). record c { redelegation = swapped Unbonding.key u c.redelegation };
  unbonding_delegations = λ (c : Little). listed c.unbonding;
  set_unbonding_delegation =
      λ u (c : Little). record c { unbonding = swapped Unbonding.key u c.unbonding };
  validator_keys = λ (c : Little). keys_of c.validator;
  get_validator = λ (c : Little) addr. find c.validator addr;
  set_validator = λ v (c : Little). record c { validator = some v };
  apply_validator_set_updates = λ height c. (ok tt, c);
  signing_infos = λ (c : Little). listed c.info;
  set_signing_info =
      λ addr info (c : Little). record c { info = swapped signing_key (addr, info) c.info };
}

pub little_collections : CollectionLaws little
little_collections = record {
  redelegations_keyed = λ (c : Little). listed-IsKeyed Unbonding.key c.redelegation;
  unbonding_keyed = λ (c : Little). listed-IsKeyed Unbonding.key c.unbonding;
  infos_keyed = λ (c : Little). listed-IsKeyed signing_key c.info;
  redelegations-set = λ (c : Little) u. listed-swapped Unbonding.key u c.redelegation;
  unbonding-set = λ (c : Little) u. listed-swapped Unbonding.key u c.unbonding;
  redelegations-set_unbonding = λ c u. refl;
  unbonding-set_redelegation = λ c u. refl;
  infos-set = λ (c : Little) addr info. listed-swapped signing_key (addr, info) c.info;
}

keys_of-length :
    (o : Option Validator) (key : Bytes)
    → In key (keys_of o)
    → (val : Validator) × In val (listed o) × (key ≡ key_of val)
keys_of-length none key i = elim i [ ]
keys_of-length (some v) _ here = (v, here, refl)
keys_of-length (some v) key (there i) = elim i [ ]

find-found :
    (o : Option Validator) (addr : Bytes) (val : Validator)
    → find o addr ≡ some val
    → In val (listed o) × (val.operator ≡ addr)
find-found none addr val e = cc
find-found (some v) addr val e = elim (Bool-cases (bytes_equal v.operator addr)) [
  | inl same ↦
      let p : v ≡ val = let q = rw same at e in cc in
      rw (sym p) (here, bytes_equal_sound v.operator addr same)
  | inr other ↦ absurd (let q = rw other at e in cc)
]

pub little_validators : ValidatorLaws little
little_validators = record {
  keys_hold_length = λ (c : Little). keys_of-length c.validator;
  found = λ (c : Little). find-found c.validator;
}
