-- ===== src/Cmd/GenAccounts/Twice.antt =====
-- An account that was added is not added again.
use burnt.Base.{
  ◌≡◌, refl, sym, ◌∙◌, ap, List, [], ◌∷◌, ◌++◌, Bytes, true, length, not, Result, ok, err, panic,
  stuck, guard, ◌>>=◌, account_exists, arith, ℕ,
}
use burnt.Cmd.GenAccounts.{
  GenAccount, base, delayed, continuous, GenesisDoc, AuthGenesis, Genutil, Flags, with_account,
  account_address, new_account, requested_account, next_genesis, add_genesis_account,
}
use burnt.Base.{◌==◌, wrong_arguments}

abbrev pub address_of : {C : Type 0} → GenAccount C → Bytes
address_of (base a) = a
address_of (delayed a _ _) = a
address_of (continuous a _ _ _) = a

-- The documented behaviour of the SDK's genesis helpers: a file that is written is read again with
-- the accounts that were written, whatever else it completes or lays out anew, packing and JSON lose
-- no account, and sanitizing keeps every account.
pub record GenutilLaws (g : Genutil) : Type 0 where
  pub read_back :
      (doc : GenesisDoc) (s : g.AppState) (file : g.File)
      → g.marshal_app s ≡ ok doc.app_state
      → (g.export_genesis_file doc file).0 ≡ ok tt
      → (s' : g.AppState) × (doc' : GenesisDoc) × (g.genesis_state_from_gen_file
            (g.export_genesis_file doc file).1
          ≡ ok (s', doc'))
        × (g.unpack_accounts (g.get_auth s').accounts ≡ g.unpack_accounts (g.get_auth s).accounts)
  pub auth-set_bank : (b : Bytes) (s : g.AppState) → g.get_auth (g.set_bank b s) ≡ g.get_auth s
  pub auth-set_auth :
      (b : Bytes) (s : g.AppState) (a : AuthGenesis g.Packed)
      → g.marshal_auth a ≡ ok b
      → g.get_auth (g.set_auth b s) ≡ a
  pub unpack-pack :
      (accs : List g.Account) (p : g.Packed)
      → g.pack_accounts accs ≡ ok p
      → g.unpack_accounts p ≡ ok accs
  pub contains-sanitize :
      (accs : List g.Account) (addr : Bytes)
      → g.contains (g.sanitize_accounts accs) addr ≡ g.contains accs addr
  pub contains-append :
      (accs : List g.Account) (acc : GenAccount g.Coins)
      → g.contains (accs ++ g.account acc ∷ []) (address_of acc) ≡ true

ok-bind :
    {A B : Type 0} (m : Result A) (f : A → Result B) (b : B)
    → (m >>= f) ≡ ok b
    → (a : A) × (m ≡ ok a) × (f a ≡ ok b)
ok-bind (ok a) f b e = (a, refl, e)
ok-bind (err x) f b e = cc
ok-bind panic f b e = cc
ok-bind stuck f b e = cc

-- The account that the arguments ask for has the address that they name.
new_account-address_of :
    (g : Genutil) (addr : Bytes) (coins amt : g.Coins) (vesting_start vesting_end : ℕ)
    (acc : GenAccount g.Coins)
    → new_account g addr coins amt vesting_start vesting_end ≡ ok acc
    → address_of acc ≡ addr
unfolding new_account
new_account-address_of g addr coins amt vesting_start vesting_end acc e = ground arith

requested_parts :
    {C : Type 0} {a addr : Bytes} {cs coins : C} (made acc : GenAccount C)
    → ◌≡◌ {A = Result (Bytes × C × GenAccount C)} (ok (a, cs, made)) (ok (addr, coins, acc))
    → address_of made ≡ a
    → address_of acc ≡ addr
requested_parts made acc e named = cc

requested_account-address_of :
    (g : Genutil) (flags : Flags g) (args : List Bytes) (addr : Bytes) (coins : g.Coins)
    (acc : GenAccount g.Coins)
    → requested_account g flags args ≡ ok (addr, coins, acc)
    → address_of acc ≡ addr
unfolding requested_account
requested_account-address_of g flags [] addr coins acc e = cc
requested_account-address_of g flags (name ∷ []) addr coins acc e = cc
requested_account-address_of g flags (name ∷ amount ∷ rest) addr coins acc e =
    let (a, _, e1) = ok-bind (account_address g flags name) _ _ e in
    let (cs, _, e2) = ok-bind (g.parse_coins_normalized amount) _ _ e1 in
    let (start, _, e3) = ok-bind flags.vesting_start _ _ e2 in
    let (end, _, e4) = ok-bind flags.vesting_end _ _ e3 in
    let (text, _, e5) = ok-bind flags.vesting_amt _ _ e4 in
    let (amt, _, e6) = ok-bind (g.parse_coins_normalized text) _ _ e5 in
    let (made, m, e7) = ok-bind (new_account g a (g.sort cs) amt start end) _ _ e6 in
    let (_, _, e8) = ok-bind (g.validate made) _ _ e7 in
    let named = new_account-address_of g a (g.sort cs) amt start end made m in
    requested_parts made acc e8 named

module _ (g : Genutil) (laws : GenutilLaws g) where
  -- The file's next contents hold an account with the address.
  with_account-holds :
      (addr : Bytes) (acc : GenAccount g.Coins) (coins : g.Coins) (s : g.AppState)
      (doc doc' : GenesisDoc)
      → address_of acc ≡ addr
      → with_account g addr acc coins s doc ≡ ok doc'
      → (s' : g.AppState) × (accs : List g.Account) × (g.marshal_app s' ≡ ok doc'.app_state)
        × (g.unpack_accounts (g.get_auth s').accounts ≡ ok accs)
        × (g.contains accs addr ≡ true)
  unfolding with_account
  with_account-holds addr acc coins s doc doc' a e =
      let (accs, unpacked, e1) = ok-bind (g.unpack_accounts (g.get_auth s).accounts) _ doc' e in
      let (_, _, e2) = ok-bind (guard (not (g.contains accs addr)) account_exists) _ doc' e1 in
      let accs' = g.sanitize_accounts (accs ++ g.account acc ∷ []) in
      let (packed, p, e3) = ok-bind (g.pack_accounts accs') _ doc' e2 in
      let (auth_bz, ma, e4) =
        ok-bind (g.marshal_auth (record (g.get_auth s) { accounts = packed })) _ doc' e3 in
      let (bank_bz, _, e5) = ok-bind (g.marshal_bank _) _ doc' e4 in
      let s' = g.set_bank bank_bz (g.set_auth auth_bz s) in
      let (text, mt, e6) = ok-bind (g.marshal_app s') _ doc' e5 in
      let kept : (g.get_auth s').accounts ≡ packed =
        ap AuthGenesis.accounts
          (laws.auth-set_bank bank_bz _ ∙ laws.auth-set_auth auth_bz s _ ma) in
      (
        s',
        accs',
        mt ∙ written text e6,
        ap g.unpack_accounts kept ∙ laws.unpack-pack accs' packed p,
        laws.contains-sanitize _ addr ∙ ap (g.contains _) (sym a) ∙ laws.contains-append accs acc,
      )
    where
      written :
          (text : Bytes)
          → ok (record doc { app_state = text }) ≡ ok doc'
          → ok text ≡ ok doc'.app_state
      written text e6 = cc (e6)

  with_account_refuses :
      (addr : Bytes) (acc : GenAccount g.Coins) (coins : g.Coins) (s : g.AppState)
      (doc : GenesisDoc) (accs : List g.Account)
      → g.unpack_accounts (g.get_auth s).accounts ≡ ok accs
      → g.contains accs addr ≡ true
      → with_account g addr acc coins s doc ≡ err account_exists
  unfolding with_account
  with_account_refuses addr acc coins s doc accs up has = ground arith

  -- What the command returns, and the file, from the next contents or their lack.
  abbrev exported : g.File → Result GenesisDoc → Result (Unit {0}) × g.File
  exported file (ok doc) = g.export_genesis_file doc file
  exported file (err x) = (err x, file)
  exported file panic = (panic, file)
  exported file stuck = (stuck, file)

  add_genesis_account-exported :
      (flags : Flags g) (args : List Bytes) (file : g.File)
      → add_genesis_account g flags args file ≡ exported file (next_genesis g flags args file)
  unfolding add_genesis_account
  add_genesis_account-exported flags args file = cases (next_genesis g flags args file)
    where
      cases :
          (m : Result GenesisDoc)
          → elim m [
            | ok doc ↦ g.export_genesis_file doc file
            | err x ↦ (err x, file)
            | panic ↦ (panic, file)
            | stuck ↦ (stuck, file)
          ]
            ≡ exported file m
      cases (ok doc) = refl
      cases (err x) = refl
      cases panic = refl
      cases stuck = refl

  exported_done :
      (file : g.File) (m : Result GenesisDoc)
      → (exported file m).0 ≡ ok tt
      → (doc : GenesisDoc) × (m ≡ ok doc) × ((g.export_genesis_file doc file).0 ≡ ok tt)
  exported_done file (ok doc) e = (doc, refl, e)
  exported_done file (err x) e = cc
  exported_done file panic e = cc
  exported_done file stuck e = cc

  -- What the next contents hold, where there are any.
  next_genesis-holds :
      (flags : Flags g) (args : List Bytes) (addr : Bytes) (coins : g.Coins)
      (acc : GenAccount g.Coins) (file : g.File) (doc' : GenesisDoc)
      → requested_account g flags args ≡ ok (addr, coins, acc)
      → address_of acc ≡ addr
      → next_genesis g flags args file ≡ ok doc'
      → (s' : g.AppState) × (accs : List g.Account) × (g.marshal_app s' ≡ ok doc'.app_state)
        × (g.unpack_accounts (g.get_auth s').accounts ≡ ok accs)
        × (g.contains accs addr ≡ true)
  unfolding next_genesis
  next_genesis-holds flags args addr coins acc file doc' r a e =
      let (_, _, e1) = ok-bind (guard (length args == 2) wrong_arguments) _ doc' e in
      let (asked, r', e2) = ok-bind (requested_account g flags args) _ doc' e1 in
      let ((s, doc), _, e3) = ok-bind (g.genesis_state_from_gen_file file) _ doc' e2 in
      let same : asked ≡ (addr, coins, acc) = cc (r, r') in
      with_account-holds addr acc coins s doc doc' a (rw same at e3)

  next_genesis_refuses :
      (flags : Flags g) (args : List Bytes) (addr : Bytes) (coins : g.Coins)
      (acc : GenAccount g.Coins) (file : g.File) (s : g.AppState) (doc : GenesisDoc)
      (accs : List g.Account)
      → length args ≡ 2
      → requested_account g flags args ≡ ok (addr, coins, acc)
      → g.genesis_state_from_gen_file file ≡ ok (s, doc)
      → g.unpack_accounts (g.get_auth s).accounts ≡ ok accs
      → g.contains accs addr ≡ true
      → next_genesis g flags args file ≡ err account_exists
  unfolding next_genesis
  next_genesis_refuses flags args addr coins acc file s doc accs two r read up has =
      rw (two, r, read) (with_account_refuses addr acc coins s doc accs up has)

  -- With the documented laws of the SDK's genesis helpers: after add-genesis-account has succeeded
  -- for an address, a second run for that address, with two arguments that parse and whatever coins
  -- and vesting parameters, as long as they ask for an account that validates, is refused since the
  -- account exists, and leaves the file as it is.
  pub add_genesis_account_twice :
      (flags flags' : Flags g) (args args' : List Bytes) (addr : Bytes) (coins coins' : g.Coins)
      (acc acc' : GenAccount g.Coins) (file : g.File)
      → requested_account g flags args ≡ ok (addr, coins, acc)
      → requested_account g flags' args' ≡ ok (addr, coins', acc')
      → length args' ≡ 2
      → (add_genesis_account g flags args file).0 ≡ ok tt
      → let file' = (add_genesis_account g flags args file).1 in
        add_genesis_account g flags' args' file' ≡ (err account_exists, file')
  add_genesis_account_twice flags flags' args args' addr coins coins' acc acc' file r r' two done =
      let first = add_genesis_account-exported flags args file in
      let (doc, next, out) =
        exported_done file (next_genesis g flags args file) (ap (λ p. p.0) (sym first) ∙ done) in
      let named = requested_account-address_of g flags args addr coins acc r in
      let (s', accs, text, up, has) =
        next_genesis-holds flags args addr coins acc file doc r named next in
      let (s2, doc2, read, same) = laws.read_back doc s' file text out in
      let left : (add_genesis_account g flags args file).1 ≡ (g.export_genesis_file doc file).1 =
        ap (λ p. p.1) (first ∙ ap (exported file) next) in
      let refused =
        next_genesis_refuses flags' args' addr coins' acc' (g.export_genesis_file doc file).1 s2
          doc2 accs two r' read (same ∙ up) has in
      rw left (add_genesis_account-exported flags' args' _ ∙ ap (exported _) refused)
