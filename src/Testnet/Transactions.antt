-- ===== src/Testnet/Transactions.antt =====
-- integration_tests: how the test chain signs and sends transactions. `sendMsgs` of chain.go,
-- `buildCreateValidatorMsg` and `signMsg` of validator.go, and util.go.
pub mod Sending
use burnt.Base.{
  ℕ, Bytes, List, [], ◌∷◌, ◌++◌, Option, none, some, if◌then◌else◌, Result, ok, err, or_panic,
  ◌>>=◌, ◌>>◌,
}
use burnt.Base.Call.{Call}
use burnt.Messages.Params.{Coin}
use burnt.Testnet.Tools.{Tools}
use burnt.Testnet.Validator.{Validator, instance_name}

-- `tx.Factory`, in the fields that are set. The fees of `WithFees` are not: its result is dropped.
pub record Factory : Type 0 where
  pub chain_id : Bytes
  pub gas : ℕ
  pub account_number : ℕ
  pub sequence : ℕ

-- The decoded parts of a transaction.
pub record TxRaw : Type 0 where
  pub body_bytes : Bytes
  pub auth_info_bytes : Bytes
  pub signatures : List Bytes

pub record Tx (Body AuthInfo : Type 0) : Type 0 where
  pub body : Body
  pub auth_info : AuthInfo
  pub signatures : List Bytes

pub record CommissionRates (Decimal : Type 0) : Type 0 where
  pub rate : Decimal
  pub max_rate : Decimal
  pub max_change_rate : Decimal

-- What the SDK does with transactions, and the node that is asked and sent to.
pub record TxTools (t : Tools) : Type 1 where
  pub Node : Type 0
  pub ensure_exists : Bytes → Call Node (Unit {0})
  pub get_account_number_sequence : Bytes → Call Node (ℕ × ℕ)
  pub Response : Type 0
  pub code : Response → ℕ
  pub broadcast_tx : Bytes → Call Node Response
  pub Msg : Type 0
  pub Builder : Type 0
  pub build_unsigned_tx : Factory → List Msg → Result Builder
  pub sign : Factory → Bytes → Builder → Result Builder
  pub new_tx_builder : Builder
  pub set_msgs : List Msg → Builder → Result Builder
  pub set_memo : Bytes → Builder → Builder
  pub set_fee_amount : List Coin → Builder → Builder
  pub set_gas_limit : ℕ → Builder → Builder
  pub PubKey : Type 0
  pub get_pub_key : t.KeyInfo → PubKey
  pub get_address : t.KeyInfo → Bytes
  -- One signature in the mode direct, with sequence 0; at first there is none.
  pub set_signatures : PubKey → Option Bytes → Builder → Result Builder
  -- In the mode direct, with the account number and sequence 0.
  pub get_sign_bytes : Bytes → Builder → Result Bytes
  pub sign_bytes : t.PrivKey → Bytes → Result Bytes
  pub node_id : Option t.NodeKey → Result Bytes
  pub encode : Builder → Result Bytes
  pub Decimal : Type 0
  pub must_new_dec_from_str : Bytes → Result Decimal
  pub from_tm_pub_key_interface : Option t.FilePvKey → Result PubKey
  pub new_msg_create_validator :
      Bytes → PubKey → Coin → Bytes → CommissionRates Decimal → ℕ → Result Msg
  pub reject_unknown_fields_tx_raw : Bytes → Result (Unit {0})
  pub unmarshal_tx_raw : Bytes → Result TxRaw
  pub Body : Type 0
  pub unmarshal_body : Bytes → Result Body
  pub AuthInfo : Type 0
  pub reject_unknown_fields_auth_info : Bytes → Result (Unit {0})
  pub unmarshal_auth_info : Bytes → Result AuthInfo

abbrev pub test_denom : Bytes
test_denom = b't' ∷ b'u' ∷ b'r' ∷ b'n' ∷ b't' ∷ []

module _ (t : Tools) (x : TxTools t) where
  unfoldable pub decode_tx : Bytes → Result (Tx x.Body x.AuthInfo)
  decode_tx tx_bytes = do
    x.reject_unknown_fields_tx_raw tx_bytes
    raw ← x.unmarshal_tx_raw tx_bytes
    body ← x.unmarshal_body raw.body_bytes
    x.reject_unknown_fields_auth_info raw.auth_info_bytes
    auth_info ← x.unmarshal_auth_info raw.auth_info_bytes
    ok (record { body = body; auth_info = auth_info; signatures = raw.signatures })

  -- An account's key that is not there is a nil interface, and its use is a fault.
  unfoldable pub build_create_validator_msg : Validator t → Coin → Result x.Msg
  build_create_validator_msg v amount = do
    rate ← x.must_new_dec_from_str (b'0' ∷ b'.' ∷ b'1' ∷ [])
    max_rate ← x.must_new_dec_from_str (b'0' ∷ b'.' ∷ b'2' ∷ [])
    max_change_rate ← x.must_new_dec_from_str (b'0' ∷ b'.' ∷ b'0' ∷ b'1' ∷ [])
    val_pub_key ← x.from_tm_pub_key_interface v.consensus_key
    info ← or_panic v.key_info
    x.new_msg_create_validator (x.get_address info) val_pub_key amount v.moniker
        (record { rate = rate; max_rate = max_rate; max_change_rate = max_change_rate }) 1

  -- `%s@%s:26656`
  unfoldable pub memo : Bytes → Validator t → Bytes
  memo node_id v =
      node_id ++ b'@' ∷ (instance_name t v ++ b':' ∷ b'2' ∷ b'6' ∷ b'6' ∷ b'5' ∷ b'6' ∷ [])

  unfoldable pub sign_msg : Bytes → Validator t → List x.Msg → Result (Tx x.Body x.AuthInfo)
  sign_msg chain_id v msgs = do
    with_msgs ← x.set_msgs msgs x.new_tx_builder
    node_id ← x.node_id v.node_key
    let tx_builder =
        x.set_gas_limit 200_000 (x.set_fee_amount [] (x.set_memo (memo node_id v) with_msgs))
    info ← or_panic v.key_info
    unsigned ← x.set_signatures (x.get_pub_key info) none tx_builder
    bytes_to_sign ← x.get_sign_bytes chain_id unsigned
    private_key ← or_panic v.private_key
    sig_bytes ← x.sign_bytes private_key bytes_to_sign
    signed ← x.set_signatures (x.get_pub_key info) (some sig_bytes) unsigned
    bz ← x.encode signed
    decode_tx bz
