-- ===== src/Testnet/Validator.antt =====
-- integration_tests/validator.go and keys.go: the files and the keys of one test validator.
use burnt.Base.{ℕ, Bytes, [], ◌∷◌, ◌++◌, Option, none, some, if◌then◌else◌, ok, err, panic, stuck}
use burnt.Base.Call.{Call, pure, lift, get, put, ◌>>=◌, ◌>>◌}
use burnt.Testnet.Tools.{GenDoc, Tools}

-- `hdPath.String()`, or the SDK's path.
abbrev path_or : Bytes → Option Bytes → Bytes
path_or full_path none = full_path
path_or full_path (some path) = path

module _ (t : Tools) where
  -- A key that is not there yet is `none`. The fields that nothing sets are left out.
  pub record Validator : Type 0 where
    pub index : ℕ
    pub moniker : Bytes
    pub mnemonic : Bytes
    pub key_info : Option t.KeyInfo
    pub private_key : Option t.PrivKey
    pub consensus_key : Option t.FilePvKey
    pub node_key : Option t.NodeKey

  -- The disk, and the validator behind the pointer.
  pub record Making : Type 0 where
    pub disk : t.Disk
    pub node : Validator

  unfoldable pub on_disk : {A : Type 0} → Call t.Disk A → Call Making A
  on_disk m s = let (r, disk') = m s.disk in (r, record s { disk = disk' })

  -- `%s%d` of the moniker and the index.
  unfoldable pub instance_name : Validator → Bytes
  instance_name v = v.moniker ++ t.decimal v.index

  unfoldable pub validator_config_dir : Bytes → Validator → Bytes
  validator_config_dir chain_dir v = chain_dir ++ b'/' ∷ instance_name v

  abbrev config_name : Bytes
  config_name = b'c' ∷ b'o' ∷ b'n' ∷ b'f' ∷ b'i' ∷ b'g' ∷ []

  abbrev config_toml : Bytes
  config_toml = config_name ++ b'.' ∷ b't' ∷ b'o' ∷ b'm' ∷ b'l' ∷ []

  unfoldable pub create_config : Bytes → Call t.Disk (Unit {0})
  create_config root = t.mkdir_all (t.join root config_name)

  -- A file that does not exist is an empty document.
  unfoldable pub get_gen_doc : Bytes → Call t.Disk (GenDoc t.PubKey t.Other)
  get_gen_doc root disk =
      let gen_file = t.genesis_file root in
      let (r, disk') = t.stat gen_file disk in
      elim r [
        | ok _ ↦ t.genesis_doc_from_file gen_file disk'
        | err e ↦
            if t.is_not_exist e
            then (
              ok (record { chain_id = []; validators = []; app_state = []; other = t.no_other }),
              disk',
            )
            else (err e, disk')
        | panic ↦ (panic, disk')
        | stuck ↦ (stuck, disk')
      ]

  unfoldable pub validator_init : Bytes → Bytes → Validator → Call t.Disk (Unit {0})
  validator_init chain_id chain_dir v = do
    let root = validator_config_dir chain_dir v
    create_config root
    gen_doc ← get_gen_doc root
    app_state ← lift t.default_genesis_json
    t.export_genesis_file
        (record gen_doc { chain_id = chain_id; validators = []; app_state = app_state })
        (t.genesis_file root)
    t.write_config_file (t.join (t.join root config_name) config_toml) root v.moniker

  unfoldable pub create_node_key : Bytes → Call Making (Unit {0})
  create_node_key chain_dir = do
    s ← get
    node_key ←
        on_disk (t.load_or_gen_node_key (t.node_key_file (validator_config_dir chain_dir s.node)))
    s' ← get
    put (record s' { node = record s'.node { node_key = some node_key } })

  unfoldable pub create_consensus_key : Bytes → Call Making (Unit {0})
  create_consensus_key chain_dir = do
    s ← get
    let root = validator_config_dir chain_dir s.node
    on_disk (t.ensure_dir (t.dir (t.priv_validator_key_file root)))
    on_disk (t.ensure_dir (t.dir (t.priv_validator_state_file root)))
    key ←
        on_disk (
          t.load_or_gen_file_pv (t.priv_validator_key_file root) (t.priv_validator_state_file root))
    s' ← get
    put (record s' { node = record s'.node { consensus_key = some key } })

  unfoldable pub create_key_from_mnemonic : Bytes → Bytes → Bytes → Bytes → Call Making (Unit {0})
  create_key_from_mnemonic chain_dir name mnemonic passphrase = do
    s ← get
    kb ← on_disk (t.new_keyring (validator_config_dir chain_dir s.node))
    algo ← lift (t.new_signing_algo kb)
    info ← on_disk (t.new_account kb name mnemonic passphrase algo)
    armor ← on_disk (t.export_priv_key_armor kb name)
    priv_key ← lift (t.unarmor_decrypt_priv_key armor)
    s' ← get
    put (record s' {
      node = record s'.node {
        key_info = some info;
        mnemonic = mnemonic;
        private_key = some priv_key;
      };
    })

  unfoldable pub create_mnemonic : Call t.Disk Bytes
  create_mnemonic = do entropy_seed ← t.new_entropy; lift (t.new_mnemonic entropy_seed)

  unfoldable pub create_key : Bytes → Bytes → Call Making (Unit {0})
  create_key chain_dir name = do
    mnemonic ← on_disk create_mnemonic
    create_key_from_mnemonic chain_dir name mnemonic []

  -- A key in a keyring in memory; the path is the SDK's if there is none.
  unfoldable pub create_memory_key_from_mnemonic :
      (Bytes → t.Keyring → t.Algo → Bytes → Bytes → Bytes → Call t.Disk t.KeyInfo)
      → Call t.Disk t.Keyring
      → Bytes
      → Bytes
      → Bytes
      → Bytes
      → Option Bytes
      → Call t.Disk (t.KeyInfo × t.Keyring)
  create_memory_key_from_mnemonic new_account new_memory full_path name mnemonic passphrase
        hd_path =
      do
        kb ← new_memory
        algo ← lift (t.new_signing_algo kb)
        let path = path_or full_path hd_path
        account ← new_account path kb algo name mnemonic passphrase
        pure (account, kb)
