-- ===== src/Tests/Blocks.antt =====
-- The end of a block at concrete inputs.
use burnt.Base.{
  ◌≡◌, ◌≢◌, ◌^◌, refl, [], ◌∷◌, some, none, Bytes, ok, panic, arith, false, sdk_error, illegal_tag,
  Error, bytes_equal, ◌++◌,
}
use burnt.Sdk.{finished}
use burnt.Messages.Params.{Coin}
use burnt.Base.{Option, Error}
use burnt.Messages.ScheduledCall.{ScheduledCall}
use burnt.Messages.ScheduledCall.Codec.{unmarshal-zero_byte}
use burnt.Tests.Store.{Entries, set, get}
use burnt.Schedule.Keys.{
  make_scheduled_call_by_block_height_key, make_scheduled_call_by_signer_contract_key,
  make_scheduled_call_by_block_height_prefix_key,
}
use burnt.Schedule.World.{World, query_owner, send_coins}
use burnt.Schedule.Keeper.{block_height_for_signer_contract}
use burnt.Schedule.Keeper.Indexes.{HoldsCall}
use burnt.Schedule.EndBlock.{settle_call, run_call, consume_call, end_blocker}
use burnt.Schedule.EndBlock.Calls.{
  paid, IsNext, disowned, consume_call-IsSkipped, empty_handed, run_call_fails, settle_call_writes,
  settle_call_next,
}
use burnt.Base.{List, ◌++◌, strip_prefix}
use burnt.Wire.Written.{bytes_field}
use burnt.Schedule.EndBlock.Order.{DueCall, make_each, end_blocker-each}
use burnt.Tests.Store.{delete, entries}
use burnt.Schedule.EndBlock.Halts.{end_blocker_halts}
use burnt.Schedule.EndBlock.Faults.{add_schedule-again_halts, consume_call_rich, consume_call_short}
use burnt.Schedule.MsgServer.{add_schedule, address}
use burnt.Schedule.MsgServer.Checks.{IsAdmitted}
use burnt.Tests.Sample.{sample, sample_store, sample_big_endian, sample_coins}
use burnt.Tests.Data.{
  a_signer, a_contract, a_stranger, some_params, world_at, next_nine, a_due_call, an_add,
  due_at_seven,
}

abbrev w0 : World sample
w0 = world_at 5 [] 500

consume_call-IsSkipped_example :
    consume_call sample some_params a_signer a_stranger a_due_call w0 ≡ (ok false, w0)
unfolding query_owner
consume_call-IsSkipped_example =
    consume_call-IsSkipped sample some_params a_signer a_stranger a_due_call w0 sample_coins
      (disowned refl)

abbrev failing : Bytes
failing = 255 ∷ []

run_call_fails_example :
    run_call sample some_params a_signer a_contract
      (record { call_body = failing })
      (record { denom = b'u' ∷ []; amount = 500 })
      500
      w0
    ≡ (ok false, record w0 { chain = 497 })
run_call_fails_example =
    run_call_fails sample some_params a_signer a_contract (record { call_body = failing }) w0
      sample_big_endian (record { denom = b'u' ∷ []; amount = 500 }) 500 3
      (finished [] (some sdk_error) 3) ([], 500) refl (empty_handed sdk_error 3) (λ e. cc) (λ e. cc)

-- The contract asks for block 9, and pays 3 coins of its 500.
abbrev after_payment : World sample
after_payment = paid sample some_params a_contract 3 w0

after_payment-IsNext : IsNext sample some_params a_contract 9 after_payment
unfolding send_coins
after_payment-IsNext = record { later = omega arith; in_reach = omega arith; funded = omega arith }

abbrev a_balance : Coin
a_balance = record { denom = b'u' ∷ []; amount = 500 }

abbrev no_error : Option Error
no_error = none

settle_call_next_example :
    let (r, w') =
      settle_call sample some_params a_signer a_contract a_due_call a_balance (3, 9, none) w0 in
    (r ≡ ok false)
    × HoldsCall sample w'.store 9 a_signer a_contract next_nine
    × (block_height_for_signer_contract sample w'.store a_signer a_contract ≡ ok 9)
unfolding send_coins
settle_call_next_example =
    settle_call_next sample sample_coins some_params a_signer a_contract a_due_call a_balance 3 9 w0
      sample_store sample_big_endian ((λ e. cc), (λ e. cc)) after_payment-IsNext (omega arith)
      (omega arith)

written :
    (settle_call sample some_params a_signer a_contract a_due_call a_balance
      (3, 9, no_error)
      w0).1.store
    ≢ w0.store
unfolding send_coins get
written e =
    let (value, held, _) =
      (settle_call_next sample sample_coins some_params a_signer a_contract a_due_call a_balance 3 9
        w0 sample_store sample_big_endian ((λ e. cc), (λ e. cc)) after_payment-IsNext (omega arith)
        (omega arith)).1 in
    absurd (cc (e, held))

settle_call_writes_example :
    (no_error ≡ none)
    × IsNext sample some_params a_contract 9 (paid sample some_params a_contract 3 w0)
settle_call_writes_example =
    settle_call_writes sample sample_coins some_params a_signer a_contract a_due_call a_balance 3 9
      w0 no_error written

-- A height in the place of a call.
abbrev broken_at_five : Entries
broken_at_five = set [] (1 ∷ 0 ∷ 0 ∷ 0 ∷ 0 ∷ 0 ∷ 0 ∷ 0 ∷ 5 ∷ (a_signer ++ a_contract)) next_nine

end_blocker_halts_example : (end_blocker sample (world_at 5 broken_at_five 500)).0 ≢ ok tt
unfolding make_scheduled_call_by_block_height_key make_scheduled_call_by_block_height_prefix_key set
    get bytes_equal
end_blocker_halts_example =
    end_blocker_halts sample sample_store (world_at 5 broken_at_five 500) a_signer a_contract
      next_nine illegal_tag refl (unmarshal-zero_byte _)

abbrev pub again : World sample
again = world_at 5 due_at_seven 500

again-IsAdmitted : IsAdmitted sample an_add again a_signer a_contract
unfolding address query_owner
again-IsAdmitted = record {
  later = omega arith;
  in_reach = omega arith;
  signed = refl;
  named = refl;
  owned = refl;
  funded = omega arith;
}

abbrev eighth : World sample
eighth = record again { height = 8; store = (add_schedule sample an_add again).1.store }

add_schedule-again_halts_example :
    ((add_schedule sample an_add again).0 ≡ ok tt) × ((end_blocker sample eighth).0 ≢ ok tt)
unfolding block_height_for_signer_contract make_scheduled_call_by_signer_contract_key set get
    bytes_equal
add_schedule-again_halts_example =
    add_schedule-again_halts sample sample_store sample_big_endian an_add again a_signer a_contract
      6 (λ x. refl) again-IsAdmitted refl (omega arith) (omega arith) eighth refl refl

abbrev rich : World sample
rich = world_at 5 [] (2 ^ 64)

consume_call_rich_example :
    (consume_call sample some_params a_signer a_contract a_due_call rich).0 ≡ panic
unfolding query_owner
consume_call_rich_example =
    consume_call_rich sample sample_big_endian sample_coins some_params a_signer a_contract
      a_due_call rich refl (omega arith) (omega arith)

-- A contract that answers with one byte.
abbrev one_byte : ScheduledCall
one_byte = record { call_body = 4 ∷ [] }

consume_call_short_example :
    (consume_call sample some_params a_signer a_contract one_byte w0).0 ≡ panic
unfolding query_owner
consume_call_short_example =
    consume_call_short sample sample_big_endian sample_coins some_params a_signer a_contract
      one_byte w0 (4 ∷ []) none 3 ([], 500) refl (omega arith) (omega arith) refl (omega arith)
      (omega arith)

-- Two calls that are due at block 8.
abbrev due_calls : List DueCall
due_calls =
    record { signer = a_signer; contract = a_contract; body = next_nine }
    ∷ record { signer = a_signer; contract = a_stranger; body = 4 ∷ [] }
    ∷ []

abbrev due_store : Entries
due_store =
    set
      (set [] (1 ∷ 0 ∷ 0 ∷ 0 ∷ 0 ∷ 0 ∷ 0 ∷ 0 ∷ 8 ∷ (a_signer ++ a_stranger))
        (bytes_field 0x0a (4 ∷ [])))
      (1 ∷ 0 ∷ 0 ∷ 0 ∷ 0 ∷ 0 ∷ 0 ∷ 0 ∷ 8 ∷ (a_signer ++ a_contract)) (bytes_field 0x0a next_nine)

end_blocker-each_example :
    end_blocker sample (world_at 8 due_store 500)
    ≡ make_each sample 8 some_params due_calls (world_at 8 due_store 500)
unfolding make_scheduled_call_by_block_height_prefix_key set delete entries strip_prefix bytes_equal
end_blocker-each_example =
    end_blocker-each sample due_calls (world_at 8 due_store 500)
      ((refl, omega arith, omega arith, refl), ((refl, omega arith, omega arith, refl), tt)) refl
