-- ===== src/App/Accounts.antt =====
-- The module accounts, the prefixes of addresses and the enabled proposals of app/app.go.
pub mod Blocked
use burnt.Base.{
  ◌≡◌, Bool, true, false, ◌==◌, ◌||◌, List, [], ◌∷◌, ◌++◌, Option, none, some, Bytes, bytes_equal,
  length, if◌then◌else◌, Result, ok, err, panic,
}
use burnt.Base.Call.{must}
use burnt.App.Names.{
  Name, index, mint, distr, gov, transfer, wasm, ica, ibcfee, schedule, fee_collector, bonded_pool,
  not_bonded_pool,
}

pub data Permission : Type 0 where
  minter burner staker : Permission

-- A map from names, without two entries for one name.
module _ {A : Type 0} where
  unfoldable pub lookup : Name → List (Name × A) → Option A
  lookup n [] = none
  lookup n ((m, a) ∷ rest) =
      let later = lookup n rest in if index m == index n then some a else later

  -- `m[k] = v`
  unfoldable pub insert : Name → A → List (Name × A) → List (Name × A)
  insert n a [] = (n, a) ∷ []
  insert n a ((m, b) ∷ rest) =
      let later = insert n a rest in if index m == index n then (n, a) ∷ rest else (m, b) ∷ later

unfoldable pub macc_perms : List (Name × List Permission)
macc_perms =
    (fee_collector, [])
    ∷ (distr, [])
    ∷ (mint, minter ∷ [])
    ∷ (bonded_pool, burner ∷ staker ∷ [])
    ∷ (not_bonded_pool, burner ∷ staker ∷ [])
    ∷ (gov, burner ∷ [])
    ∷ (transfer, minter ∷ burner ∷ [])
    ∷ (ibcfee, [])
    ∷ (ica, [])
    ∷ (schedule, burner ∷ [])
    ∷ (wasm, burner ∷ [])
    ∷ []

-- One round for each entry of a map, into the copy.
unfoldable pub copy_into : {A : Type 0} → List (Name × A) → List (Name × A) → List (Name × A)
copy_into dup [] = dup
copy_into dup ((n, a) ∷ rest) = copy_into (insert n a dup) rest

unfoldable pub get_macc_perms : List (Name × List Permission)
get_macc_perms = copy_into [] macc_perms

-- `modAccAddrs[text]`, in a map of which every value is true.
unfoldable pub is_blocked : List Bytes → Bytes → Bool
is_blocked [] text = false
is_blocked (a ∷ rest) text =
    let later = is_blocked rest text in if bytes_equal a text then true else later

-- The texts of the addresses of module accounts: `address` is `NewModuleAddress(acc).String()`.
unfoldable pub module_account_addrs : {A : Type 0} → (Name → Bytes) → List (Name × A) → List Bytes
module_account_addrs address [] = []
module_account_addrs address ((n, a) ∷ rest) = address n ∷ module_account_addrs address rest

-- The variables that the linker may set, and what wasmd makes of them.
pub record Proposals : Type 1 where
  pub ProposalType : Type 0
  pub enable_all_proposals : List ProposalType
  pub disable_all_proposals : List ProposalType
  pub split : Bytes → List Bytes
  pub convert_to_proposals : List Bytes → Result (List ProposalType)

unfoldable pub true_text : Bytes
true_text = b't' ∷ b'r' ∷ b'u' ∷ b'e' ∷ []

module _ (w : Proposals) where
  unfoldable pub get_enabled_proposals : Bytes → Bytes → Result (List w.ProposalType)
  get_enabled_proposals enable_specific_proposals proposals_enabled =
      if length enable_specific_proposals == 0
      then (if bytes_equal proposals_enabled true_text
          then ok w.enable_all_proposals
          else ok w.disable_all_proposals)
      else must (w.convert_to_proposals (w.split enable_specific_proposals))

-- The prefixes of the texts of addresses and keys, from `Bech32Prefix` and the SDK's.
pub record Prefixes : Type 0 where
  pub bech32_prefix : Bytes
  pub prefix_public : Bytes
  pub prefix_validator : Bytes
  pub prefix_operator : Bytes
  pub prefix_consensus : Bytes

module _ (x : Prefixes) where
  -- Of an account, its key, an operator, its key, a consensus node, and its key.
  unfoldable pub bech32_prefixes : List Bytes
  bech32_prefixes =
      x.bech32_prefix
      ∷ (x.bech32_prefix ++ x.prefix_public)
      ∷ (x.bech32_prefix ++ x.prefix_validator ++ x.prefix_operator)
      ∷ (x.bech32_prefix ++ x.prefix_validator ++ x.prefix_operator ++ x.prefix_public)
      ∷ (x.bech32_prefix ++ x.prefix_validator ++ x.prefix_consensus)
      ∷ (x.bech32_prefix ++ x.prefix_validator ++ x.prefix_consensus ++ x.prefix_public)
      ∷ []
