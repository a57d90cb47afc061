-- ===== src/Cmd/GenAccounts.antt =====
-- cmd/burntd/genaccounts.go: the command add-genesis-account, over the genesis file. What it calls
-- of the SDK is the record Genutil. An int64 is its bit pattern: the command only asks whether it
-- is 0.
pub mod Vesting
pub mod Twice
use burnt.Base.{
  ℕ, List, [], ◌∷◌, ◌++◌, Bytes, Bool, true, false, not, ◌&&◌, ◌||◌, ◌==◌, length, Option, none,
  some, if◌then◌else◌, Result, ok, err, panic, stuck, guard, ◌>>=◌, ◌>>◌, wrong_arguments,
  vesting_too_large, invalid_vesting, account_exists,
}
use burnt.Base.Call.{Call, lift, get}
use burnt.Schedule.World.{or_error}

-- The account that is added, by its kind: its address, what vests, and when.
pub data GenAccount (Coins : Type 0) : Type 0 where
  base : Bytes → GenAccount Coins
  delayed : Bytes → Coins → ℕ → GenAccount Coins
  continuous : Bytes → Coins → ℕ → ℕ → GenAccount Coins

pub record Balance (Coins : Type 0) : Type 0 where
  pub address : Bytes
  pub coins : Coins

-- The genesis states of auth and bank, as far as the command reads or writes them.
pub record AuthGenesis (Packed : Type 0) : Type 0 where
  pub accounts : Packed
  pub other : Bytes

pub record BankGenesis (Coins : Type 0) : Type 0 where
  pub balances : List (Balance Coins)
  pub supply : Coins
  pub other : Bytes

pub record GenesisDoc : Type 0 where
  pub app_state : Bytes
  pub other : Bytes

pub record Genutil : Type 1 where
  pub acc_address_from_bech32 : Bytes → Option Bytes
  pub bech32 : Bytes → Bytes
  pub Keyring : Type 0
  pub new_keyring : Bytes → Result Keyring
  pub key_address : Keyring → Bytes → Result Bytes
  pub Coins : Type 0
  pub parse_coins_normalized : Bytes → Result Coins
  pub is_zero : Coins → Bool
  pub is_any_gt : Coins → Coins → Bool
  pub sort : Coins → Coins
  pub add_coins : Coins → Coins → Coins
  pub validate : GenAccount Coins → Result (Unit {0})
  -- The accounts of a genesis state, of whatever kind.
  pub Account : Type 0
  pub account : GenAccount Coins → Account
  pub contains : List Account → Bytes → Bool
  pub sanitize_accounts : List Account → List Account
  pub Packed : Type 0
  pub unpack_accounts : Packed → Result (List Account)
  pub pack_accounts : List Account → Result Packed
  pub sanitize_balances : List (Balance Coins) → List (Balance Coins)
  -- The application's genesis state holds the JSON text of each module's.
  pub AppState : Type 0
  pub get_auth : AppState → AuthGenesis Packed
  pub get_bank : AppState → BankGenesis Coins
  pub set_auth : Bytes → AppState → AppState
  pub set_bank : Bytes → AppState → AppState
  pub marshal_auth : AuthGenesis Packed → Result Bytes
  pub marshal_bank : BankGenesis Coins → Result Bytes
  pub marshal_app : AppState → Result Bytes
  -- The genesis file.
  pub File : Type 0
  pub genesis_state_from_gen_file : File → Result (AppState × GenesisDoc)
  pub export_genesis_file : GenesisDoc → Call File (Unit {0})

-- The command's flags and its client's keyring.
pub record Flags (g : Genutil) : Type 0 where
  pub keyring_backend : Result Bytes
  pub keyring : Option g.Keyring
  pub vesting_start : Result ℕ
  pub vesting_end : Result ℕ
  pub vesting_amt : Result Bytes

module _ (g : Genutil) where
  -- The keyring that a key's name is looked up in. A backend may be named and none be there: then
  -- there is no keyring, and its use is a fault.
  unfoldable pub pick_keyring : Flags g → Result g.Keyring
  pick_keyring flags = do
    backend ← flags.keyring_backend
    elim flags.keyring [
      | none ↦ if length backend == 0 then panic else g.new_keyring backend
      | some kr ↦ ok kr
    ]

  unfoldable pub account_address : Flags g → Bytes → Result Bytes
  account_address flags name = elim (g.acc_address_from_bech32 name) [
    | some addr ↦ ok addr
    | none ↦ (do kr ← pick_keyring flags; g.key_address kr name)
  ]

  -- The account of the kind that the parameters ask for. `coins` and `amt` are sorted.
  unfoldable pub new_account : Bytes → g.Coins → g.Coins → ℕ → ℕ → Result (GenAccount g.Coins)
  new_account addr coins amt vesting_start vesting_end =
      if g.is_zero amt then ok (base addr) else (do
        let original = g.sort amt
        guard (not ((g.is_zero coins && not (g.is_zero original)) || g.is_any_gt original coins))
            vesting_too_large
        if not (vesting_start == 0) && not (vesting_end == 0)
            then ok (continuous addr original vesting_start vesting_end)
            else if not (vesting_end == 0)
            then ok (delayed addr original vesting_end)
            else err invalid_vesting)

  -- The genesis file's next contents: the account and its balance are added, and the supply grows.
  unfoldable pub with_account :
      Bytes → GenAccount g.Coins → g.Coins → g.AppState → GenesisDoc → Result GenesisDoc
  with_account addr acc coins app_state doc = do
    let auth = g.get_auth app_state
    accs ← g.unpack_accounts auth.accounts
    guard (not (g.contains accs addr)) account_exists
    packed ← g.pack_accounts (g.sanitize_accounts (accs ++ g.account acc ∷ []))
    auth_bz ← g.marshal_auth (record auth { accounts = packed })
    let app_state' = g.set_auth auth_bz app_state
    let bank = g.get_bank app_state'
    bank_bz ← g.marshal_bank (record bank {
      balances =
          g.sanitize_balances
            (bank.balances ++ record { address = g.bech32 addr; coins = coins } ∷ []);
      supply = g.add_coins bank.supply coins;
    })
    text ← g.marshal_app (g.set_bank bank_bz app_state')
    ok (record doc { app_state = text })

  -- The account and the coins that the arguments and the flags ask for.
  unfoldable pub requested_account :
      Flags g → List Bytes → Result (Bytes × g.Coins × GenAccount g.Coins)
  requested_account flags [] = panic
  requested_account flags (name ∷ []) = panic
  requested_account flags (name ∷ amount ∷ rest) = do
    addr ← account_address flags name
    coins ← g.parse_coins_normalized amount
    vesting_start ← flags.vesting_start
    vesting_end ← flags.vesting_end
    amt_text ← flags.vesting_amt
    amt ← g.parse_coins_normalized amt_text
    acc ← new_account addr (g.sort coins) amt vesting_start vesting_end
    g.validate acc
    ok (addr, g.sort coins, acc)

  unfoldable pub next_genesis : Flags g → List Bytes → g.File → Result GenesisDoc
  next_genesis flags args file = do
    guard (length args == 2) wrong_arguments
    (addr, coins, acc) ← requested_account flags args
    (app_state, doc) ← g.genesis_state_from_gen_file file
    with_account addr acc coins app_state doc

  unfoldable pub add_genesis_account : Flags g → List Bytes → Call g.File (Unit {0})
  add_genesis_account flags args file = elim (next_genesis flags args file) [
    | ok doc ↦ g.export_genesis_file doc file
    | err x ↦ (err x, file)
    | panic ↦ (panic, file)
    | stuck ↦ (stuck, file)
  ]
