-- ===== src/App/Names.antt =====
-- The names that app/app.go gives its parts: the constants of the SDK's modules, of IBC, of wasmd and
-- of x/schedule. Constants with different names stand for different texts.
use burnt.Base.{ℕ, Bool, false, ◌==◌, List, [], ◌∷◌, if◌then◌else◌, suc}

-- `ModuleName`, or `SubModuleName`, of a module; then the names of module accounts that are no
-- module's, and of the base application's parameters.
pub data Name : Type 0 where
  auth bank capability staking mint distr gov params crisis slashing feegrant authz ibc : Name
  upgrade evidence transfer vesting wasm ica intertx ibcfee schedule genutil icahost : Name
  icacontroller fee_collector bonded_pool not_bonded_pool base_app ibc_client : Name

unfoldable pub index : Name → ℕ
index auth = 0
index bank = 1
index capability = 2
index staking = 3
index mint = 4
index distr = 5
index gov = 6
index params = 7
index crisis = 8
index slashing = 9
index feegrant = 10
index authz = 11
index ibc = 12
index upgrade = 13
index evidence = 14
index transfer = 15
index vesting = 16
index wasm = 17
index ica = 18
index intertx = 19
index ibcfee = 20
index schedule = 21
index genutil = 22
index icahost = 23
index icacontroller = 24
index fee_collector = 25
index bonded_pool = 26
index not_bonded_pool = 27
index base_app = 28
index ibc_client = 29

-- `StoreKey`, `TStoreKey` and `MemStoreKey` of a module.
pub data Key : Type 0 where
  store_key transient_store_key mem_store_key : Name → Key

unfoldable pub same_key : Key → Key → Bool
same_key (store_key a) (store_key b) = index a == index b
same_key (transient_store_key a) (transient_store_key b) = index a == index b
same_key (mem_store_key a) (mem_store_key b) = index a == index b
same_key _ _ = false

-- How often a name stands in a list.
unfoldable pub count : Name → List Name → ℕ
count n [] = 0
count n (m ∷ ms) = let rest = count n ms in if index m == index n then suc rest else rest

-- How many names of a list stand before the first `n`.
unfoldable pub position : Name → List Name → ℕ
position n [] = 0
position n (m ∷ ms) = let rest = position n ms in if index m == index n then 0 else suc rest
