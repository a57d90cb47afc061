-- ===== src/App/Wiring/Constructions.antt =====
-- The keepers that `NewWasmApp` of app/app.go makes, one by one.
use burnt.Base.{List, [], ◌∷◌}
use burnt.App.Names.{
  auth, bank, capability, staking, mint, distr, gov, params, crisis, slashing, feegrant, authz, ibc,
  upgrade, evidence, transfer, wasm, intertx, ibcfee, schedule, icahost, icacontroller, store_key,
  transient_store_key, mem_store_key,
}
use burnt.App.Wiring.{
  tkey, mem_key, Construction, params_keeper, capability_keeper, account_keeper, bank_keeper,
  authz_keeper, fee_grant_keeper, local_staking_keeper, mint_keeper, distr_keeper, slashing_keeper,
  crisis_keeper, upgrade_keeper, staking_keeper, ibc_keeper, ibc_fee_keeper, transfer_keeper,
  ica_host_keeper, ica_controller_keeper, inter_tx_keeper, evidence_keeper, wasm_keeper, gov_keeper,
  schedule_keeper, key, subspace, keeper, scoped,
}

unfoldable pub new_params_keeper : Construction
new_params_keeper = (params_keeper, key (store_key params) ∷ tkey (transient_store_key params) ∷ [])

unfoldable pub new_capability_keeper : Construction
new_capability_keeper =
    (capability_keeper, key (store_key capability) ∷ mem_key (mem_store_key capability) ∷ [])

unfoldable pub new_account_keeper : Construction
new_account_keeper = (account_keeper, key (store_key auth) ∷ subspace auth ∷ [])

unfoldable pub new_bank_keeper : Construction
new_bank_keeper = (bank_keeper, key (store_key bank) ∷ keeper account_keeper ∷ subspace bank ∷ [])

unfoldable pub new_authz_keeper : Construction
new_authz_keeper = (authz_keeper, key (store_key authz) ∷ [])

unfoldable pub new_fee_grant_keeper : Construction
new_fee_grant_keeper = (fee_grant_keeper, key (store_key feegrant) ∷ keeper account_keeper ∷ [])

unfoldable pub new_local_staking_keeper : Construction
new_local_staking_keeper = (
  local_staking_keeper,
  key (store_key staking) ∷ keeper account_keeper ∷ keeper bank_keeper ∷ subspace staking ∷ [],
)

unfoldable pub new_mint_keeper : Construction
new_mint_keeper = (
  mint_keeper,
  key (store_key mint)
      ∷ subspace mint
      ∷ keeper local_staking_keeper
      ∷ keeper account_keeper
      ∷ keeper bank_keeper
      ∷ [],
)

unfoldable pub new_distr_keeper : Construction
new_distr_keeper = (
  distr_keeper,
  key (store_key distr)
      ∷ subspace distr
      ∷ keeper account_keeper
      ∷ keeper bank_keeper
      ∷ keeper local_staking_keeper
      ∷ [],
)

unfoldable pub new_slashing_keeper : Construction
new_slashing_keeper = (
  slashing_keeper,
  key (store_key slashing) ∷ keeper local_staking_keeper ∷ subspace slashing ∷ [],
)

unfoldable pub new_crisis_keeper : Construction
new_crisis_keeper = (crisis_keeper, subspace crisis ∷ keeper bank_keeper ∷ [])

unfoldable pub new_upgrade_keeper : Construction
new_upgrade_keeper = (upgrade_keeper, key (store_key upgrade) ∷ [])

unfoldable pub new_staking_keeper : Construction
new_staking_keeper = (
  staking_keeper,
  keeper local_staking_keeper ∷ keeper distr_keeper ∷ keeper slashing_keeper ∷ [],
)

unfoldable pub new_ibc_keeper : Construction
new_ibc_keeper = (
  ibc_keeper,
  key (store_key ibc)
      ∷ subspace ibc
      ∷ keeper staking_keeper
      ∷ keeper upgrade_keeper
      ∷ scoped ibc
      ∷ [],
)

unfoldable pub new_ibc_fee_keeper : Construction
new_ibc_fee_keeper = (
  ibc_fee_keeper,
  key (store_key ibcfee)
      ∷ subspace ibcfee
      ∷ keeper ibc_keeper
      ∷ keeper ibc_keeper
      ∷ keeper ibc_keeper
      ∷ keeper account_keeper
      ∷ keeper bank_keeper
      ∷ [],
)

unfoldable pub new_transfer_keeper : Construction
new_transfer_keeper = (
  transfer_keeper,
  key (store_key transfer)
      ∷ subspace transfer
      ∷ keeper ibc_fee_keeper
      ∷ keeper ibc_keeper
      ∷ keeper ibc_keeper
      ∷ keeper account_keeper
      ∷ keeper bank_keeper
      ∷ scoped transfer
      ∷ [],
)

unfoldable pub new_ica_host_keeper : Construction
new_ica_host_keeper = (
  ica_host_keeper,
  key (store_key icahost)
      ∷ subspace icahost
      ∷ keeper ibc_keeper
      ∷ keeper ibc_keeper
      ∷ keeper account_keeper
      ∷ scoped icahost
      ∷ [],
)

unfoldable pub new_ica_controller_keeper : Construction
new_ica_controller_keeper = (
  ica_controller_keeper,
  key (store_key icacontroller)
      ∷ subspace icacontroller
      ∷ keeper ibc_fee_keeper
      ∷ keeper ibc_keeper
      ∷ keeper ibc_keeper
      ∷ scoped icacontroller
      ∷ [],
)

unfoldable pub new_inter_tx_keeper : Construction
new_inter_tx_keeper =
    (inter_tx_keeper, key (store_key intertx) ∷ keeper ica_controller_keeper ∷ scoped intertx ∷ [])

unfoldable pub new_evidence_keeper : Construction
new_evidence_keeper = (
  evidence_keeper,
  key (store_key evidence) ∷ keeper staking_keeper ∷ keeper slashing_keeper ∷ [],
)

unfoldable pub new_wasm_keeper : Construction
new_wasm_keeper = (
  wasm_keeper,
  key (store_key wasm)
      ∷ subspace wasm
      ∷ keeper account_keeper
      ∷ keeper bank_keeper
      ∷ keeper staking_keeper
      ∷ keeper distr_keeper
      ∷ keeper ibc_keeper
      ∷ keeper ibc_keeper
      ∷ scoped wasm
      ∷ keeper transfer_keeper
      ∷ [],
)

unfoldable pub new_gov_keeper : Construction
new_gov_keeper = (
  gov_keeper,
  key (store_key gov)
      ∷ subspace gov
      ∷ keeper account_keeper
      ∷ keeper bank_keeper
      ∷ keeper local_staking_keeper
      ∷ [],
)

unfoldable pub new_schedule_keeper : Construction
new_schedule_keeper = (
  schedule_keeper,
  key (store_key schedule)
      ∷ key (mem_store_key schedule)
      ∷ subspace schedule
      ∷ keeper wasm_keeper
      ∷ keeper wasm_keeper
      ∷ keeper fee_grant_keeper
      ∷ keeper bank_keeper
      ∷ [],
)

-- The constructors, in the order of the code.
unfoldable pub constructions : List Construction
constructions =
    new_params_keeper ∷ new_capability_keeper ∷ new_account_keeper ∷ new_bank_keeper
    ∷ new_authz_keeper ∷ new_fee_grant_keeper ∷ new_local_staking_keeper ∷ new_mint_keeper
    ∷ new_distr_keeper ∷ new_slashing_keeper ∷ new_crisis_keeper ∷ new_upgrade_keeper
    ∷ new_staking_keeper ∷ new_ibc_keeper ∷ new_ibc_fee_keeper ∷ new_transfer_keeper
    ∷ new_ica_host_keeper ∷ new_ica_controller_keeper ∷ new_inter_tx_keeper ∷ new_evidence_keeper
    ∷ new_wasm_keeper ∷ new_gov_keeper ∷ new_schedule_keeper ∷ []
