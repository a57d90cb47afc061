-- ===== src/App/Wiring/Resolved.antt =====
-- What the keepers that `NewWasmApp` of app/app.go makes are given: Go reads the zero value from a
-- map without the key, from a field that is not yet set, and for a subspace that was not declared.
use burnt.Base.{◌≡◌, refl, Bool, true, false, ◌==◌, List, [], ◌∷◌, ◌++◌, if◌then◌else◌}
use burnt.App.Names.{Name, Key, ibcfee, schedule, same_key, mem_store_key, index}
use burnt.App.Wiring.{
  Keeper, number, Argument, Construction, keys, tkeys, mem_keys, init_params_keeper,
  scoped_to_module, ibc_fee_keeper, schedule_keeper, key, tkey, mem_key, subspace, keeper, scoped,
}
use burnt.App.Wiring.Constructions.{
  new_params_keeper, new_capability_keeper, new_account_keeper, new_bank_keeper, new_authz_keeper,
  new_fee_grant_keeper, new_local_staking_keeper, new_mint_keeper, new_distr_keeper,
  new_slashing_keeper, new_crisis_keeper, new_upgrade_keeper, new_staking_keeper, new_ibc_keeper,
  new_ibc_fee_keeper, new_transfer_keeper, new_ica_host_keeper, new_ica_controller_keeper,
  new_inter_tx_keeper, new_evidence_keeper, new_wasm_keeper, new_gov_keeper, new_schedule_keeper,
  constructions,
}

-- `m[k]` is there.
unfoldable pub has_key : Key → List Key → Bool
has_key k [] = false
has_key k (j ∷ js) = let rest = has_key k js in if same_key j k then true else rest

unfoldable pub has_name : Name → List Name → Bool
has_name n [] = false
has_name n (m ∷ ms) = let rest = has_name n ms in if index m == index n then true else rest

unfoldable pub has_keeper : Keeper → List Keeper → Bool
has_keeper k [] = false
has_keeper k (j ∷ js) = let rest = has_keeper k js in if number j == number k then true else rest

-- `GetSubspace`
unfoldable pub get_subspace : Name → Bool
get_subspace n = has_name n init_params_keeper

-- An argument is no zero value, once the keepers `made` are made.
unfoldable pub is_resolved : List Keeper → Argument → Bool
is_resolved made (key k) = has_key k keys
is_resolved made (tkey k) = has_key k tkeys
is_resolved made (mem_key k) = has_key k mem_keys
is_resolved made (subspace n) = get_subspace n
is_resolved made (keeper k) = has_keeper k made
is_resolved made (scoped n) = has_name n scoped_to_module

unfoldable pub unresolved : List Keeper → Keeper → List Argument → List (Keeper × Argument)
unresolved made for [] = []
unresolved made for (a ∷ rest) =
    let later = unresolved made for rest in if is_resolved made a then later else (for, a) ∷ later

-- The arguments that are zero values where a keeper is given them, in the order of the code.
unfoldable pub zero_arguments : List Keeper → List Construction → List (Keeper × Argument)
zero_arguments made [] = []
zero_arguments made ((k, arguments) ∷ rest) =
    unresolved made k arguments ++ zero_arguments (k ∷ made) rest

-- Of the store keys, subspaces, scoped keepers and keepers that NewWasmApp gives to the keepers it
-- makes, all are mounted, declared or made before, but two: the subspace of the IBC fee keeper, and
-- the memory store key of the schedule keeper.
constructions-zero_arguments :
    zero_arguments [] constructions
    ≡ (ibc_fee_keeper, subspace ibcfee) ∷ (schedule_keeper, key (mem_store_key schedule)) ∷ []
unfolding zero_arguments unresolved is_resolved get_subspace has_keeper has_name has_key same_key
    index number keys tkeys mem_keys init_params_keeper scoped_to_module constructions
    new_params_keeper new_capability_keeper new_account_keeper new_bank_keeper new_authz_keeper
    new_fee_grant_keeper new_local_staking_keeper new_mint_keeper new_distr_keeper
    new_slashing_keeper new_crisis_keeper new_upgrade_keeper new_staking_keeper new_ibc_keeper
    new_ibc_fee_keeper new_transfer_keeper new_ica_host_keeper new_ica_controller_keeper
    new_inter_tx_keeper new_evidence_keeper new_wasm_keeper new_gov_keeper new_schedule_keeper
constructions-zero_arguments = refl
