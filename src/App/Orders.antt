-- ===== src/App/Orders.antt =====
-- The modules of the application and the orders in which their blocks and their genesis run:
-- app/app.go.
pub mod Complete
pub mod Sequence
use burnt.Base.{List, [], ◌∷◌}
use burnt.App.Names.{
  Name, auth, bank, capability, staking, mint, distr, gov, params, crisis, slashing, feegrant,
  authz, ibc, upgrade, evidence, transfer, vesting, wasm, ica, intertx, ibcfee, schedule, genutil,
}

-- `ModuleBasics`
unfoldable pub module_basics : List Name
module_basics =
    auth ∷ genutil ∷ bank ∷ capability ∷ staking ∷ mint ∷ distr ∷ gov ∷ params ∷ crisis ∷ slashing
    ∷ feegrant ∷ authz ∷ ibc ∷ upgrade ∷ evidence ∷ transfer ∷ vesting ∷ wasm ∷ ica ∷ intertx
    ∷ ibcfee ∷ schedule ∷ []

-- The modules of the manager.
unfoldable pub modules : List Name
modules =
    genutil ∷ auth ∷ vesting ∷ bank ∷ capability ∷ gov ∷ mint ∷ slashing ∷ distr ∷ staking ∷ upgrade
    ∷ wasm ∷ evidence ∷ feegrant ∷ authz ∷ ibc ∷ params ∷ transfer ∷ ibcfee ∷ ica ∷ intertx
    ∷ schedule ∷ crisis ∷ []

-- `SetOrderBeginBlockers`
unfoldable pub begin_blockers : List Name
begin_blockers =
    upgrade ∷ capability ∷ mint ∷ distr ∷ slashing ∷ evidence ∷ staking ∷ auth ∷ bank ∷ gov ∷ crisis
    ∷ genutil ∷ authz ∷ feegrant ∷ params ∷ vesting ∷ schedule ∷ transfer ∷ ibc ∷ ica ∷ ibcfee
    ∷ intertx ∷ wasm ∷ []

-- `SetOrderEndBlockers`
unfoldable pub end_blockers : List Name
end_blockers =
    crisis ∷ gov ∷ staking ∷ capability ∷ auth ∷ bank ∷ distr ∷ slashing ∷ mint ∷ genutil ∷ evidence
    ∷ authz ∷ feegrant ∷ params ∷ upgrade ∷ vesting ∷ schedule ∷ transfer ∷ ibc ∷ ica ∷ ibcfee
    ∷ intertx ∷ wasm ∷ []

-- `SetOrderInitGenesis`
unfoldable pub init_genesis_order : List Name
init_genesis_order =
    capability ∷ auth ∷ bank ∷ distr ∷ staking ∷ slashing ∷ gov ∷ mint ∷ crisis ∷ genutil ∷ evidence
    ∷ authz ∷ feegrant ∷ params ∷ upgrade ∷ vesting ∷ transfer ∷ ibc ∷ ica ∷ ibcfee ∷ intertx
    ∷ schedule ∷ wasm ∷ []

-- The modules of the simulation manager.
unfoldable pub simulated : List Name
simulated =
    auth ∷ bank ∷ capability ∷ feegrant ∷ authz ∷ gov ∷ mint ∷ staking ∷ distr ∷ slashing ∷ params
    ∷ evidence ∷ wasm ∷ ibc ∷ transfer ∷ schedule ∷ []
