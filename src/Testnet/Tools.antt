-- ===== src/Testnet/Tools.antt =====
-- What the test network calls of the operating system, the SDK and Tendermint.
use burnt.Base.{ℕ, Bool, Bytes, List, Result, Error}
use burnt.Base.Call.{Call}

-- The genesis document, as far as it is written.
pub record GenDoc (Key Other : Type 0) : Type 0 where
  pub chain_id : Bytes
  pub validators : List Key
  pub app_state : Bytes
  pub other : Other

-- The disk, the paths that a configuration gives below its root, and what is read and written.
pub record Tools : Type 1 where
  pub Disk : Type 0
  pub mkdir_all : Bytes → Call Disk (Unit {0})
  pub ensure_dir : Bytes → Call Disk (Unit {0})
  pub stat : Bytes → Call Disk (Unit {0})
  pub is_not_exist : Error → Bool
  pub join : Bytes → Bytes → Bytes
  pub dir : Bytes → Bytes
  pub decimal : ℕ → Bytes
  pub genesis_file : Bytes → Bytes
  pub node_key_file : Bytes → Bytes
  pub priv_validator_key_file : Bytes → Bytes
  pub priv_validator_state_file : Bytes → Bytes
  -- `WriteConfigFile` of the configuration with that root and moniker.
  pub write_config_file : Bytes → Bytes → Bytes → Call Disk (Unit {0})
  pub PubKey : Type 0
  pub Other : Type 0
  pub no_other : Other
  pub genesis_doc_from_file : Bytes → Call Disk (GenDoc PubKey Other)
  pub export_genesis_file : GenDoc PubKey Other → Bytes → Call Disk (Unit {0})
  -- The JSON text of the default genesis of the modules.
  pub default_genesis_json : Result Bytes
  pub NodeKey : Type 0
  pub load_or_gen_node_key : Bytes → Call Disk NodeKey
  pub FilePvKey : Type 0
  pub load_or_gen_file_pv : Bytes → Bytes → Call Disk FilePvKey
  -- The keyring of the test backend in a directory; it picks the algorithm secp256k1.
  pub Keyring : Type 0
  pub new_keyring : Bytes → Call Disk Keyring
  pub Algo : Type 0
  pub new_signing_algo : Keyring → Result Algo
  pub KeyInfo : Type 0
  pub new_account : Keyring → Bytes → Bytes → Bytes → Algo → Call Disk KeyInfo
  pub export_priv_key_armor : Keyring → Bytes → Call Disk Bytes
  pub PrivKey : Type 0
  pub unarmor_decrypt_priv_key : Bytes → Result PrivKey
  -- The source of randomness is on the disk.
  pub new_entropy : Call Disk Bytes
  pub new_mnemonic : Bytes → Result Bytes
