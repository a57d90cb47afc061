-- ===== src/Tests/Application.antt =====
-- The application at concrete inputs.
use burnt.Base.{
  ◌≡◌, refl, ◌≢◌, ◌⊎◌, ℕ, List, [], ◌∷◌, Bytes, true, false, some, none, ok, Result, panic,
}
use mathlib.Core.Logic.{◌↔◌}
use burnt.Sdk.Laws.{In}
use burnt.App.Keepers.{Unbonding, Validator}
use burnt.App.Export.{
  reset_redelegations, reset_unbonding_delegations, reset_validator,
  export_app_state_and_validators, reset_delegations, reset_distribution, or_panic_call,
  reinitialize_validator, check_allowed, for_each, write_each,
}
use burnt.App.Export.Resets.{reset_validator_jailed}
use burnt.App.Export.Halts.{export_app_state_and_validators_panics}
use burnt.App.Start.{Startup, pos, snapshot_extensions}
use burnt.Cmd.Root.{app_export}
use burnt.Cmd.Root.Exported.{app_export_at}
use burnt.Tests.Chain.{Little, little, little_validators}

abbrev twenty : Bytes
twenty =
    1 ∷ 2 ∷ 3 ∷ 4 ∷ 5 ∷ 6 ∷ 7 ∷ 8 ∷ 9 ∷ 10 ∷ 11 ∷ 12 ∷ 13 ∷ 14 ∷ 15 ∷ 16 ∷ 17 ∷ 18 ∷ 19 ∷ 20 ∷ []

abbrev a_validator : Validator
a_validator = record { operator = twenty; jailed = false; unbonding_height = 5; other = [] }

abbrev an_unbonding : Unbonding
an_unbonding = record {
  key = 3 ∷ [];
  entries = record { creation_height = 6; other = 8 ∷ [] } ∷ [];
}

abbrev a_chain : Little
a_chain = record {
  validator = some a_validator;
  redelegation = some an_unbonding;
  unbonding = some an_unbonding;
  info = some (twenty, record { start_height = 4; other = [] });
}

abbrev allowed : List Bytes
allowed = (2 ∷ []) ∷ []

abbrev halted : Little
halted = reset_unbonding_delegations little (reset_redelegations little a_chain)

export_app_state_and_validators_panics_example :
    (export_app_state_and_validators little true [] a_chain).0 ≡ panic
unfolding reset_delegations check_allowed reset_distribution for_each or_panic_call
    reinitialize_validator reset_unbonding_delegations write_each reset_redelegations
export_app_state_and_validators_panics_example =
    export_app_state_and_validators_panics little little_validators [] a_chain halted _ _ refl
      (refl, tt) refl

reset_validator_jailed_example :
    let val' = reset_validator little allowed twenty a_validator in
    (val'.unbonding_height ≡ 0)
    × ((val'.jailed ≡ true) ↔ ((false ≡ true) ⊎ ((allowed ≢ []) × ¬ In twenty allowed)))
reset_validator_jailed_example = reset_validator_jailed little allowed twenty a_validator

-- A node that loads the chain as it was at a height.
abbrev a_startup : Startup Little
a_startup = record {
  read_wasm_config = ok tt;
  new_ante_handler = ok tt;
  register_extensions = some (ok tt);
  load_latest_version = λ c. (ok tt, c);
  load_version = λ height c. (ok tt, record c { validator = none });
  initialize_pinned_codes = λ c. (ok tt, c);
}

abbrev no_proposals : Result (List ℕ)
no_proposals = ok []

app_export_at_example :
    app_export little a_startup no_proposals (some (47 ∷ [])) (pos 5) false [] a_chain
    ≡ export_app_state_and_validators little false [] (record a_chain { validator = none })
unfolding snapshot_extensions
app_export_at_example =
    app_export_at little a_startup no_proposals (47 ∷ []) [] 5 [] a_chain
      (record a_chain { validator = none }) refl refl (refl, refl, refl) refl false
