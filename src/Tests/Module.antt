-- ===== src/Tests/Module.antt =====
-- Keys, queries, genesis and parameters at concrete inputs.
use burnt.Base.{
  ◌≢◌, ℕ, ◌≡◌, ◌++◌, refl, [], ◌∷◌, List, some, Bytes, ok, arith, strip_prefix, Result,
}
use mathlib.Core.Logic.{◌↔◌}
use burnt.Messages.Params.{Coin}
use burnt.Schedule.World.{World}
use burnt.Schedule.Genesis.{
  GenesisState, validate_params, validate_genesis, init_genesis, export_genesis, set_params,
  validate_minimum_balance, validate_upper_bound,
}
use burnt.Schedule.Genesis.Validation.{IsParams, validate_params-IsParams, export-init_genesis}
use burnt.Schedule.Query.{query_scheduled_calls}
use burnt.Schedule.Query.Listing.{Due, entry_of, shown, query_scheduled_calls-shown}
use burnt.Messages.MsgAddSchedule.{MsgAddSchedule}
use burnt.Messages.MsgRemoveSchedule.{MsgRemoveSchedule}
use burnt.Schedule.Command.{add_schedule_command}
use burnt.Schedule.Command.Arguments.{add_schedule_command_fails}
use burnt.Schedule.GasLimit.{Allowance, basic}
use burnt.Tests.Sample.{sample, sample_big_endian, sample_coins}
use burnt.Tests.Store.{set, entries, delete}
use burnt.Tests.Data.{a_signer, a_contract, some_params, world_at, next_nine, an_add}

validate_params-IsParams_example :
    (validate_params sample some_params ≡ ok tt) ↔ IsParams sample sample_coins some_params
validate_params-IsParams_example = validate_params-IsParams sample sample_coins some_params

abbrev a_genesis : GenesisState
a_genesis = record { params = some_params; scheduled_calls = an_add ∷ [] }

abbrev start : World sample
start = world_at 0 [] 500

export-init_genesis_example :
    (export_genesis sample start ≡ record { params = some_params; scheduled_calls = [] })
    × (validate_genesis sample (export_genesis sample start) ≡ ok tt)
unfolding init_genesis set_params validate_params validate_minimum_balance validate_upper_bound
export-init_genesis_example = export-init_genesis sample sample_coins a_genesis start start refl

abbrev a_due : Due
a_due = record { height = 8; signer = a_signer; contract = a_contract; body = next_nine }

query_scheduled_calls-shown_example :
    query_scheduled_calls sample
      (some tt)
      (world_at 5 (set [] (1 ∷ (entry_of sample a_due).0) (entry_of sample a_due).1) 500)
    ≡ ok (shown sample a_due ∷ [])
unfolding set entries strip_prefix delete
query_scheduled_calls-shown_example =
    query_scheduled_calls-shown sample sample_big_endian (a_due ∷ [])
      (world_at 5 (set [] (1 ∷ (entry_of sample a_due).0) (entry_of sample a_due).1) 500)
      ((omega arith, refl, omega arith, omega arith), tt) refl

abbrev add_lists : List Coin → List Coin → List Coin
add_lists a b = a ++ b

abbrev an_allowance : Allowance
an_allowance = basic (record { denom = b'u' ∷ []; amount = 7 } ∷ [])

abbrev a_height : ℕ
a_height = 8

abbrev a_prefix : Bytes
a_prefix = 1 ∷ sample.uint64_to_big_endian a_height

abbrev send_add : MsgAddSchedule → Result (Unit {0})
send_add msg = ok tt

abbrev send_remove : MsgRemoveSchedule → Result (Unit {0})
send_remove msg = ok tt

add_schedule_command_fails_example :
    add_schedule_command sample (ok a_signer) send_add (a_contract ∷ next_nine ∷ (b'8' ∷ []) ∷ [])
    ≢ ok tt
add_schedule_command_fails_example =
    add_schedule_command_fails sample (ok a_signer) send_add
      (a_contract ∷ next_nine ∷ (b'8' ∷ []) ∷ [])
