-- ===== src/App/Accounts/Blocked.antt =====
-- The addresses of the module accounts, and what module accounts may do: app/app.go.
use burnt.Base.{
  ◌≡◌, refl, Bool, true, false, ◌==◌, ◌||◌, List, [], ◌∷◌, Option, none, some, Bytes, bytes_equal,
  bytes_equal_sound, bytes_equal_refl, arith, inl, inr, Bool-cases,
}
use burnt.Sdk.Laws.{In, here, there}
use burnt.App.Names.{
  auth, bank, capability, staking, mint, distr, gov, params, crisis, slashing, feegrant, authz, ibc,
  upgrade, evidence, transfer, vesting, wasm, ica, intertx, ibcfee, schedule, genutil, icahost,
  icacontroller, fee_collector, bonded_pool, not_bonded_pool, base_app, ibc_client, Name, index,
}
use burnt.App.Accounts.{
  macc_perms, get_macc_perms, copy_into, insert, lookup, Permission, is_blocked,
  module_account_addrs, minter, burner, staker,
}

module _ {A : Type 0} (address : Name → Bytes) where
  -- The text of every name of the map is in the set, and no other is.
  module_account_addrs_blocks :
      (perms : List (Name × A)) (n : Name) (a : A)
      → In (n, a) perms
      → is_blocked (module_account_addrs address perms) (address n) ≡ true
  unfolding is_blocked module_account_addrs
  module_account_addrs_blocks [] n a i = elim i [ ]
  module_account_addrs_blocks (_ ∷ rest) n a here = rw (bytes_equal_refl (address n)) refl
  module_account_addrs_blocks ((m, b) ∷ rest) n a (there i) =
      rw (module_account_addrs_blocks rest n a i) (ground arith)

  -- For any map of module accounts and any texts of their addresses: a text that ModuleAccountAddrs
  -- holds is that of the address of a name in the map.
  pub module_account_addrs_only :
      (perms : List (Name × A)) (text : Bytes)
      → is_blocked (module_account_addrs address perms) text ≡ true
      → (n : Name) × (a : A) × In (n, a) perms × (address n ≡ text)
  unfolding is_blocked module_account_addrs
  module_account_addrs_only [] text h = absurd (ground arith)
  module_account_addrs_only ((m, b) ∷ rest) text h =
      elim (Bool-cases (bytes_equal (address m) text)) [
        | inl same ↦ (m, b, here, bytes_equal_sound (address m) text same)
        | inr other ↦
            let (n, a, i, e) = module_account_addrs_only rest text (rw other at h) in
            (n, a, there i, e)
      ]

-- An account with a permission.
unfoldable pub may : Permission → Option (List Permission) → Bool
may p none = false
may p (some []) = false
may minter (some (minter ∷ ps)) = true
may burner (some (burner ∷ ps)) = true
may staker (some (staker ∷ ps)) = true
may p (some (q ∷ ps)) = may p (some ps)

-- GetMaccPerms has for every name the permissions of the module accounts, and only mint and
-- transfer may mint.
pub get_macc_perms_allows :
    (n : Name)
    → (may minter (lookup n get_macc_perms) ≡ (index n == index mint || index n == index transfer))
      × (lookup n get_macc_perms ≡ lookup n macc_perms)
unfolding may lookup insert copy_into get_macc_perms macc_perms index
get_macc_perms_allows auth = (refl, refl)
get_macc_perms_allows bank = (refl, refl)
get_macc_perms_allows capability = (refl, refl)
get_macc_perms_allows staking = (refl, refl)
get_macc_perms_allows mint = (refl, refl)
get_macc_perms_allows distr = (refl, refl)
get_macc_perms_allows gov = (refl, refl)
get_macc_perms_allows params = (refl, refl)
get_macc_perms_allows crisis = (refl, refl)
get_macc_perms_allows slashing = (refl, refl)
get_macc_perms_allows feegrant = (refl, refl)
get_macc_perms_allows authz = (refl, refl)
get_macc_perms_allows ibc = (refl, refl)
get_macc_perms_allows upgrade = (refl, refl)
get_macc_perms_allows evidence = (refl, refl)
get_macc_perms_allows transfer = (refl, refl)
get_macc_perms_allows vesting = (refl, refl)
get_macc_perms_allows wasm = (refl, refl)
get_macc_perms_allows ica = (refl, refl)
get_macc_perms_allows intertx = (refl, refl)
get_macc_perms_allows ibcfee = (refl, refl)
get_macc_perms_allows schedule = (refl, refl)
get_macc_perms_allows genutil = (refl, refl)
get_macc_perms_allows icahost = (refl, refl)
get_macc_perms_allows icacontroller = (refl, refl)
get_macc_perms_allows fee_collector = (refl, refl)
get_macc_perms_allows bonded_pool = (refl, refl)
get_macc_perms_allows not_bonded_pool = (refl, refl)
get_macc_perms_allows base_app = (refl, refl)
get_macc_perms_allows ibc_client = (refl, refl)
