-- ===== src/Testnet/Transactions/Sending.antt =====
-- `sendMsgs` of integration_tests/chain.go.
use burnt.Base.{◌==◌, ◌||◌, ◌≡◌, Bytes, List, [], ◌∷◌, if◌then◌else◌, ok, err, sdk_error, arith}
use burnt.Base.Call.{Call, pure, lift, ◌>>=◌, ◌>>◌}
use burnt.Messages.Params.{Coin}
use burnt.Testnet.Tools.{Tools}
use burnt.Testnet.Transactions.{Factory, TxTools, test_denom}

module _ (t : Tools) (x : TxTools t) where
  -- The number and the sequence of the account are asked for if one of them is 0.
  unfoldable pub numbered : Bytes → Factory → Call x.Node Factory
  numbered from_addr txf =
      if txf.account_number == 0 || txf.sequence == 0
      then (do
        (num, seq) ← x.get_account_number_sequence from_addr
        let account_number = if txf.account_number == 0 then num else txf.account_number
        let sequence = if txf.sequence == 0 then seq else txf.sequence
        pure (record txf { account_number = account_number; sequence = sequence }))
      else pure txf

  unfoldable pub send_msgs : Bytes → Bytes → Bytes → List x.Msg → Call x.Node x.Response
  send_msgs chain_id from_addr from_name msgs = do
    x.ensure_exists from_addr
    txf ←
        numbered from_addr
          (record { chain_id = chain_id; gas = 12_345_678; account_number = 0; sequence = 0 })
    txb ← lift (x.build_unsigned_tx txf msgs)
    let fee : Coin = record { denom = test_denom; amount = 246_913_560 }
    signed ← lift (x.sign txf from_name (x.set_fee_amount (fee ∷ []) txb))
    tx_bytes ← lift (x.encode signed)
    res ← x.broadcast_tx tx_bytes
    if x.code res == 0 then pure res else lift (err sdk_error)

  -- A response that comes back has code 0.
  pub send_msgs_code :
      (chain_id from_addr from_name : Bytes) (msgs : List x.Msg) (n : x.Node) (res : x.Response)
      → (send_msgs chain_id from_addr from_name msgs n).0 ≡ ok res
      → x.code res ≡ 0
  unfolding send_msgs
  send_msgs_code chain_id from_addr from_name msgs n res e = ground (arith, e)
