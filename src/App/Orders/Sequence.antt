-- ===== src/App/Orders/Sequence.antt =====
-- What the comments on the orders of app/app.go ask for.
use burnt.Base.{◌≡◌, refl, ltb, leb, true, arith}
use burnt.App.Names.{
  Name, index, count, position, auth, bank, capability, staking, mint, distr, gov, params, crisis,
  slashing, feegrant, authz, ibc, upgrade, evidence, transfer, vesting, wasm, ica, intertx, ibcfee,
  schedule, genutil, icahost, icacontroller, fee_collector, bonded_pool, not_bonded_pool, base_app,
  ibc_client,
}
use burnt.App.Orders.{begin_blockers, init_genesis_order}

-- In the order of the genesis, a module that stands there once stands at or after capability and at
-- or before wasm, and genutil stands after staking; at the beginning of a block, slashing comes
-- after distr.
pub orders_sequence :
    (n : Name)
    → count n init_genesis_order ≡ 1
    → (leb (position capability init_genesis_order) (position n init_genesis_order) ≡ true)
      × (leb (position n init_genesis_order) (position wasm init_genesis_order) ≡ true)
      × (ltb (position staking init_genesis_order) (position genutil init_genesis_order) ≡ true)
      × (ltb (position distr begin_blockers) (position slashing begin_blockers) ≡ true)
unfolding count position index begin_blockers init_genesis_order
orders_sequence auth once = (refl, refl, refl, refl)
orders_sequence bank once = (refl, refl, refl, refl)
orders_sequence capability once = (refl, refl, refl, refl)
orders_sequence staking once = (refl, refl, refl, refl)
orders_sequence mint once = (refl, refl, refl, refl)
orders_sequence distr once = (refl, refl, refl, refl)
orders_sequence gov once = (refl, refl, refl, refl)
orders_sequence params once = (refl, refl, refl, refl)
orders_sequence crisis once = (refl, refl, refl, refl)
orders_sequence slashing once = (refl, refl, refl, refl)
orders_sequence feegrant once = (refl, refl, refl, refl)
orders_sequence authz once = (refl, refl, refl, refl)
orders_sequence ibc once = (refl, refl, refl, refl)
orders_sequence upgrade once = (refl, refl, refl, refl)
orders_sequence evidence once = (refl, refl, refl, refl)
orders_sequence transfer once = (refl, refl, refl, refl)
orders_sequence vesting once = (refl, refl, refl, refl)
orders_sequence wasm once = (refl, refl, refl, refl)
orders_sequence ica once = (refl, refl, refl, refl)
orders_sequence intertx once = (refl, refl, refl, refl)
orders_sequence ibcfee once = (refl, refl, refl, refl)
orders_sequence schedule once = (refl, refl, refl, refl)
orders_sequence genutil once = (refl, refl, refl, refl)
orders_sequence icahost once = absurd (omega arith)
orders_sequence icacontroller once = absurd (omega arith)
orders_sequence fee_collector once = absurd (omega arith)
orders_sequence bonded_pool once = absurd (omega arith)
orders_sequence not_bonded_pool once = absurd (omega arith)
orders_sequence base_app once = absurd (omega arith)
orders_sequence ibc_client once = absurd (omega arith)
