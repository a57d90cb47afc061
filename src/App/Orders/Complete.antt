-- ===== src/App/Orders/Complete.antt =====
-- The orders of the module manager name its modules: app/app.go.
use burnt.Base.{◌≡◌, refl}
use burnt.App.Names.{
  Name, index, count, auth, bank, capability, staking, mint, distr, gov, params, crisis, slashing,
  feegrant, authz, ibc, upgrade, evidence, transfer, vesting, wasm, ica, intertx, ibcfee, schedule,
  genutil, icahost, icacontroller, fee_collector, bonded_pool, not_bonded_pool, base_app,
  ibc_client,
}
use burnt.App.Orders.{module_basics, modules, begin_blockers, end_blockers, init_genesis_order}

-- A module's name stands in ModuleBasics, in the order of the beginning of a block, in that of its
-- end, and in that of the genesis as often as among the modules of the manager.
pub orders_complete :
    (n : Name)
    → (count n module_basics ≡ count n modules)
      × (count n begin_blockers ≡ count n modules)
      × (count n end_blockers ≡ count n modules)
      × (count n init_genesis_order ≡ count n modules)
unfolding count index module_basics modules begin_blockers end_blockers init_genesis_order
orders_complete auth = (refl, refl, refl, refl)
orders_complete bank = (refl, refl, refl, refl)
orders_complete capability = (refl, refl, refl, refl)
orders_complete staking = (refl, refl, refl, refl)
orders_complete mint = (refl, refl, refl, refl)
orders_complete distr = (refl, refl, refl, refl)
orders_complete gov = (refl, refl, refl, refl)
orders_complete params = (refl, refl, refl, refl)
orders_complete crisis = (refl, refl, refl, refl)
orders_complete slashing = (refl, refl, refl, refl)
orders_complete feegrant = (refl, refl, refl, refl)
orders_complete authz = (refl, refl, refl, refl)
orders_complete ibc = (refl, refl, refl, refl)
orders_complete upgrade = (refl, refl, refl, refl)
orders_complete evidence = (refl, refl, refl, refl)
orders_complete transfer = (refl, refl, refl, refl)
orders_complete vesting = (refl, refl, refl, refl)
orders_complete wasm = (refl, refl, refl, refl)
orders_complete ica = (refl, refl, refl, refl)
orders_complete intertx = (refl, refl, refl, refl)
orders_complete ibcfee = (refl, refl, refl, refl)
orders_complete schedule = (refl, refl, refl, refl)
orders_complete genutil = (refl, refl, refl, refl)
orders_complete icahost = (refl, refl, refl, refl)
orders_complete icacontroller = (refl, refl, refl, refl)
orders_complete fee_collector = (refl, refl, refl, refl)
orders_complete bonded_pool = (refl, refl, refl, refl)
orders_complete not_bonded_pool = (refl, refl, refl, refl)
orders_complete base_app = (refl, refl, refl, refl)
orders_complete ibc_client = (refl, refl, refl, refl)
