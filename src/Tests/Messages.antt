-- ===== src/Tests/Messages.antt =====
-- The message server and the keeper at concrete inputs.
use burnt.Base.{
  ◌≡◌, ◌≢◌, ◌^◌, refl, ap, [], none, Bytes, Result, ok, arith, invalid_block_height, ◌-◌,
  bytes_equal,
}
use burnt.Messages.MsgAddSchedule.{MsgAddSchedule}
use burnt.Schedule.World.{World, query_owner}
use burnt.Schedule.Keys.{
  make_scheduled_call_by_block_height_key, make_scheduled_call_by_signer_contract_key,
}
use burnt.Schedule.Keeper.{block_height_for_signer_contract}
use burnt.Schedule.Keeper.Paired.{IsPaired}
use burnt.Schedule.Keeper.Paired.Reach.{added, start, next, Reach-IsPaired}
use burnt.Schedule.Keeper.Indexes.{
  IsDueAt, HoldsCall, remove_scheduled_call-removes, add_scheduled_call-stores,
}
use burnt.Schedule.MsgServer.{add_schedule, remove_schedule, address}
use burnt.Schedule.MsgServer.Steps.{add_schedule-IsPaired}
use burnt.Schedule.MsgServer.Checks.{IsAdmitted, add_schedule-IsAdmitted, add_schedule_atomic}
use burnt.Schedule.MsgServer.Stores.{
  add_schedule-wrapped, add_schedule-new, remove_schedule-removes,
}
use burnt.Tests.Sample.{sample, sample_store, sample_big_endian}
use burnt.Tests.Store.{Entries, set, get}
use burnt.Tests.Data.{a_signer, a_contract, world_at, next_nine, an_add, a_removal, due_at_seven}

due_at_seven-IsDueAt : IsDueAt sample due_at_seven a_signer a_contract 7
unfolding make_scheduled_call_by_signer_contract_key set get bytes_equal
due_at_seven-IsDueAt = refl

abbrev emptied : Entries
emptied =
    (remove_scheduled_call-removes sample sample_store sample_big_endian a_signer a_contract 7
      due_at_seven (omega arith) due_at_seven-IsDueAt).0

abbrev pub fresh : World sample
fresh = world_at 5 [] 500

fresh-IsAdmitted : IsAdmitted sample an_add fresh a_signer a_contract
unfolding address query_owner
fresh-IsAdmitted = record {
  later = omega arith;
  in_reach = omega arith;
  signed = refl;
  named = refl;
  owned = refl;
  funded = omega arith;
}

add_schedule-new_example :
    let (r, w') = add_schedule sample an_add fresh in
    (r ≡ ok tt)
    × HoldsCall sample w'.store 8 a_signer a_contract next_nine
    × (block_height_for_signer_contract sample w'.store a_signer a_contract ≡ ok 8)
unfolding block_height_for_signer_contract make_scheduled_call_by_signer_contract_key get
add_schedule-new_example =
    add_schedule-new sample sample_store sample_big_endian an_add fresh a_signer a_contract
      (λ x. refl) fresh-IsAdmitted refl (omega arith) (omega arith)

pub accepted : (add_schedule sample an_add fresh).0 ≡ ok tt
unfolding block_height_for_signer_contract make_scheduled_call_by_signer_contract_key get
accepted =
    (add_schedule-new sample sample_store sample_big_endian an_add fresh a_signer a_contract
      (λ x. refl) fresh-IsAdmitted refl (omega arith) (omega arith)).0

add_schedule-IsAdmitted_example :
    (signer : Bytes) × (contract : Bytes) × IsAdmitted sample an_add fresh signer contract
add_schedule-IsAdmitted_example =
    add_schedule-IsAdmitted sample an_add fresh (add_schedule sample an_add fresh).1
      (ap (λ (r : Result (Unit {0})). (r, (add_schedule sample an_add fresh).1)) accepted)

-- A block that is over.
abbrev late : MsgAddSchedule
late = record an_add { block_height = 5 }

add_schedule_atomic_example : fresh ≡ fresh
unfolding add_schedule
add_schedule_atomic_example =
    add_schedule_atomic sample late fresh fresh invalid_block_height (λ x. refl) refl

abbrev at_the_end : World sample
at_the_end = world_at (2 ^ 64 - 10) [] 500

add_schedule-wrapped_example : (add_schedule sample an_add at_the_end).0 ≢ ok tt
add_schedule-wrapped_example =
    add_schedule-wrapped sample an_add at_the_end (omega arith) (omega arith) (omega arith)

abbrev waiting : World sample
waiting = world_at 5 due_at_seven 500

remove_schedule-removes_example :
    let (r, w') = remove_schedule sample a_removal waiting in
    (r ≡ ok tt)
    × (block_height_for_signer_contract sample w'.store a_signer a_contract ≡ ok 0)
    × (get w'.store (make_scheduled_call_by_block_height_key sample 7 a_signer a_contract) ≡ none)
unfolding address query_owner
remove_schedule-removes_example =
    remove_schedule-removes sample sample_store sample_big_endian a_removal waiting a_signer
      a_contract 7 (λ x. refl) refl refl refl (omega arith) due_at_seven-IsDueAt

-- The store after one call was added to the empty one.
abbrev after_add : Entries
after_add =
    (add_scheduled_call-stores sample sample_store sample_big_endian a_signer a_contract next_nine 8
      [] (omega arith) (omega arith)).0

Reach-IsPaired_example : IsPaired sample after_add
unfolding get block_height_for_signer_contract
Reach-IsPaired_example =
    Reach-IsPaired sample sample_store sample_big_endian {s = []} {t = after_add} (λ key. refl)
      (next start (
        added a_signer a_contract next_nine 8 after_add refl (omega arith) (omega arith)
          (omega arith) refl
          (add_scheduled_call-stores sample sample_store sample_big_endian a_signer a_contract
            next_nine 8 [] (omega arith) (omega arith)).1))

empty-IsPaired : IsPaired sample []
unfolding get
empty-IsPaired = Reach-IsPaired sample sample_store sample_big_endian (λ key. refl) start

add_schedule-IsPaired_example : IsPaired sample (add_schedule sample an_add fresh).1.store
unfolding get block_height_for_signer_contract
add_schedule-IsPaired_example =
    add_schedule-IsPaired sample sample_store sample_big_endian (λ x. refl) an_add fresh a_signer
      a_contract fresh-IsAdmitted refl refl (omega arith) (omega arith) empty-IsPaired
