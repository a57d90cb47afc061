-- ===== src/Testnet/Chain.antt =====
-- integration_tests/chain.go: the test chain and the making of its validators.
pub mod Made
use burnt.Base.{
  ℕ, zero, suc, Bool, if◌then◌else◌, Bytes, List, [], ◌∷◌, ◌++◌, none, Result, ok, err, panic,
  stuck,
}
use burnt.Base.Call.{Call, pure, lift, get, put, ◌>>=◌, ◌>>◌}
use burnt.Testnet.Tools.{Tools}
use burnt.Testnet.Validator.{
  Validator, Making, validator_init, create_node_key, create_consensus_key,
  create_key_from_mnemonic, create_key,
}

-- What does not change in a chain.
pub record ChainInfo : Type 0 where
  pub data_dir : Bytes
  pub id : Bytes

-- Where the variable CI is set, the chain's directory is made in the working directory, else in that
-- of the system. Its id ends in a random text.
unfoldable pub new_chain :
    {D : Type 0} → Bool → Result Bytes → (Bytes → Call D Bytes) → Bytes → Call D ChainInfo
new_chain found getwd temp_dir random = do
  dir ← lift (if found then getwd else ok [])
  tmp_dir ← temp_dir dir
  pure (record { data_dir = tmp_dir; id = b'c' ∷ b'h' ∷ b'a' ∷ b'i' ∷ b'n' ∷ b'-' ∷ random })

-- `%s/%s`
unfoldable pub chain_config_dir : ChainInfo → Bytes
chain_config_dir c = c.data_dir ++ b'/' ∷ c.id

abbrev pub burnt_name : Bytes
burnt_name = b'b' ∷ b'u' ∷ b'r' ∷ b'n' ∷ b't' ∷ []

abbrev pub val_name : Bytes
val_name = b'v' ∷ b'a' ∷ b'l' ∷ []

module _ (t : Tools) (c : ChainInfo) where
  -- The disk, and the validators that the chain points to.
  pub record Network : Type 0 where
    pub disk : t.Disk
    pub validators : List (Validator t)

  unfoldable pub create_validator : ℕ → Validator t
  create_validator index = record {
    index = index;
    moniker = burnt_name;
    mnemonic = [];
    key_info = none;
    private_key = none;
    consensus_key = none;
    node_key = none;
  }

  unfoldable pub init_node : Validator t → Call Network (Unit {0})
  init_node node s =
      let (r, disk') = validator_init t c.id (chain_config_dir c) node s.disk in
      (r, record s { disk = disk' })

  -- The pointer to the node is appended; what writes through it afterwards writes to the node in the
  -- list, also where it ends in an error.
  unfoldable pub append_node : Validator t → Call (Making t) (Unit {0}) → Call Network (Unit {0})
  append_node node keys s =
      let (r, made) = keys (record { disk = s.disk; node = node }) in
      (r, record { disk = made.disk; validators = s.validators ++ made.node ∷ [] })

  unfoldable pub other_keys : Call (Making t) (Unit {0})
  other_keys = do
    create_node_key t (chain_config_dir c)
    create_consensus_key t (chain_config_dir c)

  -- The loop, from the index `i`, over the mnemonics left.
  unfoldable pub create_and_init_validators_with_mnemonics :
      ℕ → List Bytes → Call Network (Unit {0})
  create_and_init_validators_with_mnemonics i [] = pure tt
  create_and_init_validators_with_mnemonics i (mnemonic ∷ rest) = do
    let node = create_validator i
    init_node node
    append_node node
        (do create_key_from_mnemonic t (chain_config_dir c) val_name mnemonic []; other_keys)
    create_and_init_validators_with_mnemonics (suc i) rest

  -- The loop, from the index `i`, with so many validators left.
  unfoldable pub create_and_init_validators : ℕ → ℕ → Call Network (Unit {0})
  create_and_init_validators i zero = pure tt
  create_and_init_validators i (suc left) = do
    let node = create_validator i
    init_node node
    append_node node (do create_key t (chain_config_dir c) val_name; other_keys)
    create_and_init_validators (suc i) left
