-- ===== src/Tests/Testnet.antt =====
-- The test network at concrete inputs: every call succeeds, and the disk counts them.
use burnt.Base.{ℕ, suc, ◌≡◌, refl, Bytes, List, [], ◌∷◌, ◌++◌, true, ok, ◌+◌}
use burnt.Base.Call.{Call}
use burnt.Testnet.Tools.{GenDoc, Tools}
use burnt.Testnet.Validator.{
  Validator, validator_init, create_config, get_gen_doc, create_node_key, create_consensus_key,
  create_key_from_mnemonic, on_disk,
}
use burnt.Testnet.Chain.{
  ChainInfo, Network, create_validator, init_node, append_node, other_keys,
  create_and_init_validators_with_mnemonics,
}
use burnt.Testnet.Chain.Made.{AreMade, create_and_init_validators_with_mnemonics-AreMade}

abbrev counted : {A : Type 0} → A → Call ℕ A
counted a n = (ok a, suc n)

abbrev an_empty_doc : GenDoc Bytes Bytes
an_empty_doc = record { chain_id = []; validators = []; app_state = []; other = [] }

abbrev counting : Tools
counting = record {
  Disk = ℕ;
  mkdir_all = λ path. counted tt;
  ensure_dir = λ path. counted tt;
  stat = λ path. counted tt;
  is_not_exist = λ e. true;
  join = λ a b. a ++ b;
  dir = λ path. path;
  decimal = λ n. (48 + n) ∷ [];
  genesis_file = λ root. root;
  node_key_file = λ root. root;
  priv_validator_key_file = λ root. root;
  priv_validator_state_file = λ root. root;
  write_config_file = λ path root moniker. counted tt;
  PubKey = Bytes;
  Other = Bytes;
  no_other = [];
  genesis_doc_from_file = λ path. counted an_empty_doc;
  export_genesis_file = λ doc path. counted tt;
  default_genesis_json = ok [];
  NodeKey = Bytes;
  load_or_gen_node_key = λ path. counted path;
  FilePvKey = Bytes;
  load_or_gen_file_pv = λ path path'. counted path;
  Keyring = Bytes;
  new_keyring = λ path. counted path;
  Algo = Unit;
  new_signing_algo = λ kb. ok tt;
  KeyInfo = Bytes;
  new_account = λ kb name mnemonic passphrase algo. counted mnemonic;
  export_priv_key_armor = λ kb name. counted name;
  PrivKey = Bytes;
  unarmor_decrypt_priv_key = λ armor. ok armor;
  new_entropy = counted [];
  new_mnemonic = λ entropy. ok entropy;
}

abbrev a_chain_info : ChainInfo
a_chain_info = record { data_dir = b'd' ∷ []; id = b'i' ∷ [] }

abbrev an_empty_network : Network counting a_chain_info
an_empty_network = record { disk = 0; validators = [] }

abbrev mnemonics : List Bytes
mnemonics = (b'x' ∷ []) ∷ (b'y' ∷ []) ∷ []

abbrev two_validators : Network counting a_chain_info
two_validators =
    (create_and_init_validators_with_mnemonics counting a_chain_info 0 mnemonics an_empty_network).1

two_made :
    create_and_init_validators_with_mnemonics counting a_chain_info 0 mnemonics an_empty_network
    ≡ (ok tt, two_validators)
unfolding create_and_init_validators_with_mnemonics init_node append_node other_keys
    create_validator validator_init create_config get_gen_doc create_node_key create_consensus_key
    create_key_from_mnemonic on_disk
two_made = refl

create_and_init_validators_with_mnemonics-AreMade_example :
    (made : List (Validator counting)) × (two_validators.validators ≡ [] ++ made)
    × AreMade counting 0 mnemonics made
create_and_init_validators_with_mnemonics-AreMade_example =
    create_and_init_validators_with_mnemonics-AreMade counting a_chain_info 0 mnemonics
      an_empty_network two_validators two_made
