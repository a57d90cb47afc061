-- ===== src/Tests/Accounts.antt =====
-- The command add-genesis-account at concrete inputs: an account is known by the first byte of its
-- address, coins are numbers, and the genesis file holds the accounts.
use burnt.Base.{
  ◌≡◌, refl, ◌≢◌, sym, ℕ, ◌==◌, ltb, List, [], ◌∷◌, ◌++◌, Bytes, Bool, true, false, some, none, ok,
  err, length, if◌then◌else◌, sdk_error, account_exists, arith, Bool-cases, inl, inr,
}
use burnt.Cmd.GenAccounts.{
  base, delayed, continuous, Genutil, Flags, AuthGenesis, GenesisDoc, new_account,
  requested_account, add_genesis_account, next_genesis, with_account, account_address,
}
use burnt.Cmd.GenAccounts.Twice.{GenutilLaws, add_genesis_account_twice, address_of}
use burnt.Cmd.GenAccounts.Vesting.{new_account_vests}

abbrev first : Bytes → ℕ
first [] = 0
first (b ∷ _) = b

abbrev has : List ℕ → Bytes → Bool
has [] addr = false
has (a ∷ accs) addr = let rest = has accs addr in if a == first addr then true else rest

abbrev tiny : Genutil
tiny = record {
  acc_address_from_bech32 = λ text. some text;
  bech32 = λ addr. addr;
  Keyring = ℕ;
  new_keyring = λ backend. ok 0;
  key_address = λ ring name. ok name;
  Coins = ℕ;
  parse_coins_normalized = λ text. ok (length text);
  is_zero = λ coins. coins == 0;
  is_any_gt = λ a b. ltb b a;
  sort = λ coins. coins;
  add_coins = λ a b. b;
  validate = λ acc. ok tt;
  Account = ℕ;
  account = λ acc. first (address_of acc);
  contains = has;
  sanitize_accounts = λ accs. accs;
  Packed = List ℕ;
  unpack_accounts = λ packed. ok packed;
  pack_accounts = λ accs. ok accs;
  sanitize_balances = λ balances. balances;
  AppState = Bytes;
  get_auth = λ s. record { accounts = s; other = [] };
  get_bank = λ s. record { balances = []; supply = 0; other = [] };
  set_auth = λ text s. text;
  set_bank = λ text s. s;
  marshal_auth = λ (auth : AuthGenesis (List ℕ)).
      if length auth.other == 0 then ok auth.accounts else err sdk_error;
  marshal_bank = λ bank. ok [];
  marshal_app = λ s. ok s;
  File = GenesisDoc;
  genesis_state_from_gen_file = λ (file : GenesisDoc). ok (file.app_state, file);
  export_genesis_file = λ doc file. (ok tt, doc);
}

length-nil : (bs : Bytes) → length bs ≡ 0 → bs ≡ []
length-nil [] e = refl
length-nil (b ∷ bs) e = absurd (omega arith)

read_auth :
    (b s : Bytes) (a : AuthGenesis (List ℕ))
    → tiny.marshal_auth a ≡ ok b
    → tiny.get_auth (tiny.set_auth b s) ≡ a
read_auth b s a e = elim (Bool-cases (length a.other == 0)) [
  | inl empty ↦
      let accounts : a.accounts ≡ b = let q = rw empty at e in cc in
      let other : a.other ≡ [] = length-nil a.other (ground arith) in
      rw (sym accounts, sym other) refl
  | inr full ↦ absurd (let q = rw full at e in cc)
]

has-append : (accs : List ℕ) (addr : Bytes) → has (accs ++ first addr ∷ []) addr ≡ true
has-append [] addr = ground arith
has-append (a ∷ accs) addr = rw (has-append accs addr) (ground arith)

tiny_laws : GenutilLaws tiny
tiny_laws = record {
  read_back =
      λ doc s file e out. let p : s ≡ doc.app_state = cc in rw p (doc.app_state, doc, refl, refl);
  auth-set_bank = λ b s. refl;
  auth-set_auth = read_auth;
  unpack-pack = λ accs p e. sym e;
  contains-sanitize = λ accs addr. refl;
  contains-append = λ accs acc. has-append accs (address_of acc);
}

abbrev a_file : GenesisDoc
a_file = record { app_state = 9 ∷ []; other = [] }

abbrev no_flags : Flags tiny
no_flags = record {
  keyring_backend = ok [];
  keyring = none;
  vesting_start = ok 0;
  vesting_end = ok 0;
  vesting_amt = ok [];
}

abbrev asked : List Bytes
asked = (4 ∷ []) ∷ (53 ∷ []) ∷ []

abbrev written : GenesisDoc
written = (add_genesis_account tiny no_flags asked a_file).1

add_genesis_account_twice_example :
    add_genesis_account tiny no_flags asked written ≡ (err account_exists, written)
unfolding requested_account account_address new_account add_genesis_account next_genesis
    with_account
add_genesis_account_twice_example =
    add_genesis_account_twice tiny tiny_laws no_flags no_flags asked asked (4 ∷ []) 1 1
      (base (4 ∷ [])) (base (4 ∷ [])) a_file refl refl refl refl

abbrev an_end : ℕ
an_end = 8

new_account_vests_example :
    ((tiny.is_zero 5 ≡ true) → tiny.is_zero (tiny.sort 3) ≡ true)
    × (tiny.is_any_gt (tiny.sort 3) 5 ≡ false)
    × (an_end ≢ 0)
    × (delayed (4 ∷ []) 3 8 ≡ (
        if 0 == 0 then delayed (4 ∷ []) (tiny.sort 3) 8 else continuous (4 ∷ []) (tiny.sort 3) 0 8))
unfolding new_account
new_account_vests_example = new_account_vests tiny (4 ∷ []) 5 3 0 8 (delayed (4 ∷ []) 3 8) refl refl
