-- ===== src/App/Wiring.antt =====
-- How `NewWasmApp` of app/app.go makes its keepers: which store keys, subspaces, scoped keepers and
-- other keepers each is given, in the order of the code. The other arguments are left out: codecs,
-- paths, flags, routers, names of accounts, and what is read off the map of module accounts.
pub mod Constructions
pub mod Resolved
use burnt.Base.{ℕ, Bool, true, false, ◌==◌, List, [], ◌∷◌, ◌++◌, if◌then◌else◌}
use burnt.App.Names.{
  Name, Key, auth, bank, capability, staking, mint, distr, gov, params, crisis, slashing, feegrant,
  authz, ibc, upgrade, evidence, transfer, wasm, intertx, ibcfee, schedule, icahost, icacontroller,
  store_key, transient_store_key, mem_store_key,
}

-- The keepers. `stakingKeeper` is local until its hooks are set; it is passed by reference.
pub data Keeper : Type 0 where
  params_keeper capability_keeper account_keeper bank_keeper authz_keeper fee_grant_keeper : Keeper
  local_staking_keeper mint_keeper distr_keeper slashing_keeper crisis_keeper upgrade_keeper :
      Keeper
  staking_keeper ibc_keeper ibc_fee_keeper transfer_keeper ica_host_keeper : Keeper
  ica_controller_keeper inter_tx_keeper evidence_keeper wasm_keeper gov_keeper : Keeper
  schedule_keeper : Keeper

unfoldable pub number : Keeper → ℕ
number params_keeper = 0
number capability_keeper = 1
number account_keeper = 2
number bank_keeper = 3
number authz_keeper = 4
number fee_grant_keeper = 5
number local_staking_keeper = 6
number mint_keeper = 7
number distr_keeper = 8
number slashing_keeper = 9
number crisis_keeper = 10
number upgrade_keeper = 11
number staking_keeper = 12
number ibc_keeper = 13
number ibc_fee_keeper = 14
number transfer_keeper = 15
number ica_host_keeper = 16
number ica_controller_keeper = 17
number inter_tx_keeper = 18
number evidence_keeper = 19
number wasm_keeper = 20
number gov_keeper = 21
number schedule_keeper = 22

-- An argument of a constructor: `keys[k]`, `tkeys[k]` or `memKeys[k]`; `app.GetSubspace(n)`;
-- `app.Subspace(n)`, that declares a subspace; a keeper, or a part of one; a scoped keeper.
pub data Argument : Type 0 where
  key tkey mem_key : Key → Argument
  subspace : Name → Argument
  keeper : Keeper → Argument
  scoped : Name → Argument

-- What is made, and from which arguments.
abbrev pub Construction : Type 0
Construction = Keeper × List Argument

-- `sdk.NewKVStoreKeys`
unfoldable pub keys : List Key
keys =
    store_key auth
    ∷ store_key bank
    ∷ store_key staking
    ∷ store_key mint
    ∷ store_key distr
    ∷ store_key slashing
    ∷ store_key gov
    ∷ store_key params
    ∷ store_key ibc
    ∷ store_key upgrade
    ∷ store_key evidence
    ∷ store_key transfer
    ∷ store_key capability
    ∷ store_key feegrant
    ∷ store_key authz
    ∷ store_key wasm
    ∷ store_key icahost
    ∷ store_key icacontroller
    ∷ store_key intertx
    ∷ store_key ibcfee
    ∷ store_key schedule
    ∷ []

unfoldable pub tkeys : List Key
tkeys = transient_store_key params ∷ []

unfoldable pub mem_keys : List Key
mem_keys = mem_store_key capability ∷ []

-- The subspaces of `initParamsKeeper`.
unfoldable pub init_params_keeper : List Name
init_params_keeper =
    auth ∷ bank ∷ staking ∷ mint ∷ distr ∷ slashing ∷ gov ∷ crisis ∷ transfer ∷ ibc ∷ icahost
    ∷ icacontroller ∷ schedule ∷ wasm ∷ []

-- The calls of `ScopeToModule` before the capability keeper is sealed.
unfoldable pub scoped_to_module : List Name
scoped_to_module = ibc ∷ icahost ∷ icacontroller ∷ intertx ∷ transfer ∷ wasm ∷ []
