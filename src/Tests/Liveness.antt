-- ===== src/Tests/Liveness.antt =====
-- Calls that come to their block, at concrete inputs.
use burnt.Base.{
  ℕ, ◌%◌, ◌^◌, ◌≡◌, ◌≢◌, refl, [], ◌∷◌, ◌++◌, none, ok, arith, strip_prefix, bytes_equal, Bytes,
}
use burnt.Sdk.{Sdk, finished}
use burnt.Sdk.Laws.{StoreLaws, BigEndianLaws, CoinLaws}
use burnt.Messages.ScheduledCall.Codec.{unmarshal-field}
use burnt.Wire.Written.{bytes_field}
use burnt.Schedule.World.{World}
use burnt.Schedule.Keys.{
  make_scheduled_call_by_block_height_key, make_scheduled_call_by_block_height_prefix_key,
}
use burnt.Schedule.Consume.{consume_entries, consume_scheduled_calls_by_height}
use burnt.Schedule.EndBlock.{end_blocker}
use burnt.Schedule.EndBlock.Calm.{IsCalmFrom, IsCalmTurn, no_more, turn, answered}
use burnt.Schedule.EndBlock.Completes.{end_blocker_completes}
use burnt.Schedule.EndBlock.Comes.{IsConsumed, here_now, block_ends, due_call_comes}
use burnt.Schedule.EndBlock.Accepted.{accepted_call_comes}
use burnt.Schedule.MsgServer.{add_schedule, address, store_call}
use burnt.Schedule.MsgServer.Checks.{IsAdmitted}
use burnt.Schedule.World.{query_owner, emit_typed_event}
use burnt.Schedule.Keeper.{block_height_for_signer_contract, add_scheduled_call}
use burnt.Schedule.Keys.{make_scheduled_call_by_signer_contract_key}
use burnt.Messages.ScheduledCall
use burnt.Wire.Buffer.{
  marshal_sized, put_bytes_field, put_bytes, bytes_field_size, put_varint, put_byte,
}
use burnt.Wire.Groups.{varint, groups}
use burnt.Wire.Varint.{sov, bit_length, write_groups}
use burnt.Schedule.EndBlock.Comes.{Runs}
use burnt.Tests.Data.{an_add}
use burnt.Tests.Store.{Entries, set, get, delete, entries}
use burnt.Tests.Sample.{sample, sample_store, sample_big_endian, sample_coins}
use burnt.Tests.Data.{a_signer, a_contract, some_params, next_nine, a_due_call}

-- Every balance is below 2 ^ 64, and every contract asks for block 9.
abbrev calm_sdk : Sdk
calm_sdk = record sample {
  get_balance = λ chain account denom. record { denom = denom; amount = chain % 2 ^ 64 };
  execute = λ state contract sender msg gas_limit. (finished next_nine none 3, state);
}

calm_store : StoreLaws calm_sdk
calm_store = record {
  get-set_self = sample_store.get-set_self;
  get-set_ne = sample_store.get-set_ne;
  get-delete_self = sample_store.get-delete_self;
  get-delete_ne = sample_store.get-delete_ne;
  entries-complete = sample_store.entries-complete;
}

calm_big_endian : BigEndianLaws calm_sdk
calm_big_endian = record {
  writes = sample_big_endian.writes;
  reads = sample_big_endian.reads;
  reads_nil = sample_big_endian.reads_nil;
  reads_short = sample_big_endian.reads_short;
  reads_long = sample_big_endian.reads_long;
}

calm_coins : CoinLaws calm_sdk
calm_coins = record {
  compares = sample_coins.compares;
  balance_denom = λ chain a denom. refl;
  fits = sample_coins.fits;
  too_large = sample_coins.too_large;
}

-- One call is due at block 8.
abbrev due_at_eight : Entries
due_at_eight =
    set [] (1 ∷ 0 ∷ 0 ∷ 0 ∷ 0 ∷ 0 ∷ 0 ∷ 0 ∷ 8 ∷ (a_signer ++ a_contract))
      (bytes_field 0x0a next_nine)

abbrev at_block : ℕ → World calm_sdk
at_block height = record {
  height = height;
  params = some_params;
  store = due_at_eight;
  chain = 500;
  events = [];
}

-- What the call needs of the other modules.
calm_turn :
    (w : World calm_sdk)
    → IsCalmTurn calm_sdk some_params 8 (a_signer ++ a_contract) (bytes_field 0x0a next_nine) w
calm_turn w = record {
  call = a_due_call;
  decodes = unmarshal-field a_due_call (omega arith);
  small = omega arith;
  calm = record {
    answers = ((λ e. cc), (λ e. cc));
    bounded = λ owned funded. omega arith;
    payable = λ owned funded. record {
      orderly = answered next_nine none 3 (omega arith);
      pays = λ gas. ((λ e. cc), (λ e. cc));
    };
  };
}

due_at_eight-IsCalmFrom :
    IsCalmFrom calm_sdk some_params 8
      (calm_sdk.entries due_at_eight (make_scheduled_call_by_block_height_prefix_key calm_sdk 8))
      (at_block 8)
unfolding make_scheduled_call_by_block_height_prefix_key set entries strip_prefix bytes_equal delete
due_at_eight-IsCalmFrom =
    turn (a_signer ++ a_contract) (bytes_field 0x0a next_nine) [] (at_block 8)
      (calm_turn (at_block 8)) (no_more _)

end_blocker_completes_example : (end_blocker calm_sdk (at_block 8)).0 ≡ ok tt
end_blocker_completes_example =
    end_blocker_completes calm_sdk calm_big_endian calm_coins (at_block 8) due_at_eight-IsCalmFrom

block_seven : end_blocker calm_sdk (at_block 7) ≡ (ok tt, at_block 7)
unfolding make_scheduled_call_by_block_height_prefix_key set entries strip_prefix bytes_equal delete
    end_blocker consume_scheduled_calls_by_height consume_entries
block_seven = refl

held_for_eight :
    get due_at_eight (make_scheduled_call_by_block_height_key calm_sdk 8 a_signer a_contract) ≢ none
unfolding make_scheduled_call_by_block_height_prefix_key make_scheduled_call_by_block_height_key set
    get bytes_equal
held_for_eight e = cc

due_call_comes_example : IsConsumed calm_sdk a_signer a_contract (at_block 8)
unfolding make_scheduled_call_by_block_height_prefix_key strip_prefix bytes_equal
due_call_comes_example =
    due_call_comes calm_sdk calm_store calm_big_endian 8 a_signer a_contract (omega arith)
      (λ state contract sender msg limit held. held) calm_coins refl (omega arith) refl (at_block 7)
      (at_block 8) held_for_eight
      (block_ends (at_block 7) (at_block 7) (at_block 8) block_seven (here_now (at_block 8))) refl
      due_at_eight-IsCalmFrom

-- The same call, asked for in block 7.
abbrev at_seven : World calm_sdk
at_seven = record (at_block 7) { store = [] }

at_seven-IsAdmitted : IsAdmitted calm_sdk an_add at_seven a_signer a_contract
unfolding address query_owner
at_seven-IsAdmitted = record {
  later = omega arith;
  in_reach = omega arith;
  signed = refl;
  named = refl;
  owned = refl;
  funded = omega arith;
}

-- Both indexes hold the call.
abbrev added_store : Entries
added_store =
    set (set [] (2 ∷ (a_signer ++ a_contract)) (0 ∷ 0 ∷ 0 ∷ 0 ∷ 0 ∷ 0 ∷ 0 ∷ 8 ∷ []))
      (1 ∷ 0 ∷ 0 ∷ 0 ∷ 0 ∷ 0 ∷ 0 ∷ 0 ∷ 8 ∷ (a_signer ++ a_contract)) (bytes_field 0x0a next_nine)

abbrev after_add : ℕ → World calm_sdk
after_add height = record at_seven {
  height = height;
  store = added_store;
  events = (add_schedule calm_sdk an_add at_seven).1.events;
}

add_schedule-after_add : add_schedule calm_sdk an_add at_seven ≡ (ok tt, after_add 7)
unfolding set bytes_equal delete add_schedule address query_owner block_height_for_signer_contract
    store_call add_scheduled_call emit_typed_event get make_scheduled_call_by_block_height_key
    make_scheduled_call_by_block_height_prefix_key make_scheduled_call_by_signer_contract_key
    ScheduledCall.marshal marshal_sized ScheduledCall.marshal_to_sized_buffer put_bytes_field
    put_bytes ScheduledCall.size bytes_field_size sov bit_length put_varint write_groups put_byte
    bytes_field varint groups
add_schedule-after_add = refl

after_add-end_blocker : end_blocker calm_sdk (after_add 7) ≡ (ok tt, after_add 7)
unfolding make_scheduled_call_by_block_height_prefix_key set entries strip_prefix bytes_equal delete
    end_blocker consume_scheduled_calls_by_height consume_entries
after_add-end_blocker = refl

abbrev due_key : Bytes
due_key = make_scheduled_call_by_block_height_key calm_sdk 8 a_signer a_contract

run_to_eight : Runs calm_sdk due_key (add_schedule calm_sdk an_add at_seven).1 (after_add 8)
run_to_eight = rw add_schedule-after_add (
    block_ends (after_add 7) (after_add 7) (after_add 8) after_add-end_blocker
      (here_now (after_add 8)))

added_store-IsCalmFrom :
    IsCalmFrom calm_sdk some_params 8
      (calm_sdk.entries added_store (make_scheduled_call_by_block_height_prefix_key calm_sdk 8))
      (after_add 8)
unfolding make_scheduled_call_by_block_height_prefix_key set entries strip_prefix bytes_equal delete
added_store-IsCalmFrom =
    turn (a_signer ++ a_contract) (bytes_field 0x0a next_nine) [] (after_add 8)
      (calm_turn (after_add 8)) (no_more _)

accepted_call_comes_example :
    ((add_schedule calm_sdk an_add at_seven).0 ≡ ok tt)
    × IsConsumed calm_sdk a_signer a_contract (after_add 8)
unfolding make_scheduled_call_by_block_height_prefix_key strip_prefix bytes_equal
    block_height_for_signer_contract make_scheduled_call_by_signer_contract_key get
accepted_call_comes_example =
    accepted_call_comes calm_sdk calm_store calm_big_endian calm_coins an_add at_seven a_signer
      a_contract (λ x. refl) at_seven-IsAdmitted refl (omega arith) (omega arith) refl (omega arith)
      refl (λ state contract sender msg limit held. held) (after_add 8) run_to_eight refl
      added_store-IsCalmFrom
