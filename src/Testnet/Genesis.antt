-- ===== src/Testnet/Genesis.antt =====
-- `addGenesisAccount` of integration_tests/genesis.go. Its root and moniker only say where the
-- genesis file is.
use burnt.Base.{
  [], ◌∷◌, ◌++◌, Bytes, not, Result, ok, err, panic, stuck, guard, ◌>>=◌, ◌>>◌, account_exists,
}
use burnt.Base.Call.{Call}
use burnt.Cmd.GenAccounts.{base, GenesisDoc, Genutil}

module _ (g : Genutil) where
  -- The genesis file's next contents. Unlike those of the node's command, the supply stays.
  unfoldable pub with_test_account : Bytes → g.Coins → g.AppState → GenesisDoc → Result GenesisDoc
  with_test_account addr coins app_state doc = do
    let auth = g.get_auth app_state
    accs ← g.unpack_accounts auth.accounts
    guard (not (g.contains accs addr)) account_exists
    packed ← g.pack_accounts (g.sanitize_accounts (accs ++ g.account (base addr) ∷ []))
    auth_bz ← g.marshal_auth (record auth { accounts = packed })
    let app_state' = g.set_auth auth_bz app_state
    let bank = g.get_bank app_state'
    bank_bz ← g.marshal_bank (record bank {
      balances =
          g.sanitize_balances
            (bank.balances ++ record { address = g.bech32 addr; coins = coins } ∷ []);
    })
    text ← g.marshal_app (g.set_bank bank_bz app_state')
    ok (record doc { app_state = text })

  unfoldable pub next_test_genesis : Bytes → Bytes → g.File → Result GenesisDoc
  next_test_genesis amount_str acc_addr file = do
    coins ← g.parse_coins_normalized amount_str
    (app_state, doc) ← g.genesis_state_from_gen_file file
    with_test_account acc_addr (g.sort coins) app_state doc

  unfoldable pub add_test_account : Bytes → Bytes → Call g.File (Unit {0})
  add_test_account amount_str acc_addr file = elim (next_test_genesis amount_str acc_addr file) [
    | ok doc ↦ g.export_genesis_file doc file
    | err e ↦ (err e, file)
    | panic ↦ (panic, file)
    | stuck ↦ (stuck, file)
  ]
