-- ===== src/Schedule/EndBlock/Completes.antt =====
-- When the end of a block completes: what it needs of the other modules and of the calls that are
-- due.
use burnt.Schedule.EndBlock.Calm.{
  Returns, IsOrderly, silent, answered, over_limit, IsPayable, IsCalm, IsCalmTurn, IsCalmFrom,
  no_more, turn,
}
use burnt.Base.{
  ℕ, ◌^◌, ◌≤◌, ◌<◌, ◌≡◌, refl, false, Bool, List, [], ◌∷◌, Bytes, length, Result, ok, Error, arith,
  Option, some, true,
}
use burnt.Base.Call.{Call, ◌>>=◌}
use burnt.Sdk.{Sdk, Executed}
use burnt.Sdk.Laws.{BigEndianLaws, CoinLaws}
use burnt.Messages.Params.{Coin, Params}
use burnt.Messages.Event.{executed}
use burnt.Messages.ScheduledCall.{ScheduledCall}
use burnt.Messages.ScheduledCall.Codec.{marshal-field}
use burnt.Wire.Written.{bytes_field}
use burnt.Schedule.World.{
  World, execute_msg_with_gas_limit, send_coins, emit_typed_event, gas_results, query_owner,
}
use burnt.Schedule.Keys.{
  make_scheduled_call_by_block_height_key, make_scheduled_call_by_signer_contract_key,
  make_scheduled_call_by_block_height_prefix_key,
}
use burnt.Schedule.Keeper.{add_scheduled_call, remove_scheduled_call_with_block_height}
use burnt.Schedule.Consume.{
  consume_decoded, consume_entry, consume_entries, consume_scheduled_calls_by_height,
}
use burnt.Schedule.EndBlock.{
  schedule_next, after_call, settle_call, run_call, make_call, consume_call, end_blocker,
  balance_of,
}

module _ (sdk : Sdk) (be : BigEndianLaws sdk) (cl : CoinLaws sdk) where
  -- A call that comes back and does not ask to stop.
  abbrev Completes : Call (World sdk) Bool → Type 0
  Completes m = (w : World sdk) → (m w).0 ≡ ok false

  add_scheduled_call_writes :
      (s c body : Bytes) (n : ℕ) (store : sdk.Store)
      → length body < 2 ^ 62
      → (s' : sdk.Store) × (add_scheduled_call sdk s c body n store ≡ ok s')
  unfolding add_scheduled_call
  add_scheduled_call_writes s c body n store small = (
    sdk.set
        (sdk.set store (make_scheduled_call_by_signer_contract_key s c)
          (sdk.uint64_to_big_endian n))
        (make_scheduled_call_by_block_height_key sdk n s c) (bytes_field 0x0a body),
    rw (marshal-field (record { call_body = body }) small) refl,
  )

  schedule_next-Completes :
      (s c : Bytes) (call : ScheduledCall) (b : Coin) (n : ℕ)
      → length call.call_body < 2 ^ 62
      → Completes (schedule_next sdk s c call b n)
  unfolding schedule_next emit_typed_event
  schedule_next-Completes s c call b n small w =
      ground (arith, (add_scheduled_call_writes s c call.call_body n w.store small).1)

  after_call-Completes :
      (p : Params) (s c : Bytes) (call : ScheduledCall) (b g : Coin) (n : ℕ)
      → length call.call_body < 2 ^ 62
      → Completes (after_call sdk p s c call b g n)
  unfolding after_call emit_typed_event
  after_call-Completes p s c call b g n small w =
      let w' =
        (emit_typed_event sdk
          (executed (record {
            block_height = w.height;
            gas = some g;
            signer = sdk.bech32 s;
            contract = sdk.bech32 c;
            balance_before = some b;
            call_body = call.call_body;
          }))
          w).1 in
      ground (
        arith,
        cl.compares (balance_of sdk p c w') p.minimum_balance
            (cl.balance_denom w'.chain c p.minimum_balance.denom),
        schedule_next-Completes s c call (balance_of sdk p c w') n small w',
      )

  settle_call-completes :
      (p : Params) (s c : Bytes) (call : ScheduledCall) (b : Coin) (r : ℕ × ℕ × Option Error)
      (w : World sdk)
      → length call.call_body < 2 ^ 62
      → ((gas : ℕ)
          → Returns
              (sdk.send_coins_from_account_to_module w.chain c sdk.fee_collector_name
                (record { denom = p.minimum_balance.denom; amount = gas } ∷ [])).0)
      → (settle_call sdk p s c call b r w).0 ≡ ok false
  unfolding settle_call send_coins
  settle_call-completes p s c call b (gas, n, e) w small pays =
      let coin : Coin = record { denom = p.minimum_balance.denom; amount = gas } in
      ground (
        arith,
        pays gas,
        after_call-Completes p s c call b coin n small (send_coins sdk c coin w).1,
      )

  IsOrderly-gas_results :
      (limit : ℕ) (x : Executed)
      → IsOrderly x
      → (r : ℕ × ℕ × Option Error) × (gas_results sdk limit x ≡ ok r)
  unfolding gas_results
  IsOrderly-gas_results limit _ (silent e gas) = ((gas, 0, e), rw be.reads_nil refl)
  IsOrderly-gas_results limit _ (answered b e gas long) =
      let (n, reads) = be.reads_long b long in ((gas, n, e), rw reads refl)
  IsOrderly-gas_results limit _ over_limit = (_, refl)

  -- A call that needs a value, where the value comes.
  bind-ok :
      {A B : Type 0} (r : Result A × World sdk) (a : A) (b : B) (f : A → Call (World sdk) B)
      → r.0 ≡ ok a
      → (f a r.1).0 ≡ ok b
      → (◌>>=◌ {S = World sdk} {A = A} {B = B} (λ w. r) f r.1).0 ≡ ok b
  bind-ok (x, w) a b f e done = rw e done

  run_call-completes :
      (p : Params) (s c : Bytes) (call : ScheduledCall) (b : Coin) (w : World sdk)
      → length call.call_body < 2 ^ 62
      → IsPayable sdk p c call w
      → (run_call sdk p s c call b (balance_of sdk p c w).amount w).0 ≡ ok false
  unfolding run_call execute_msg_with_gas_limit
  run_call-completes p s c call b w small payable =
      let limit = (balance_of sdk p c w).amount in
      let x = sdk.execute (w.store, w.chain) c c call.call_body limit in
      let (r, read) = IsOrderly-gas_results limit x.0 payable.orderly in
      bind-ok (execute_msg_with_gas_limit sdk c call.call_body limit w) r false
        (settle_call sdk p s c call b) read
        (settle_call-completes p s c call b r (record w { store = x.1.0; chain = x.1.1 }) small
          payable.pays)

  make_call-completes :
      (p : Params) (s c : Bytes) (call : ScheduledCall) (w : World sdk)
      → (balance_of sdk p c w).amount < 2 ^ 64
      → length call.call_body < 2 ^ 62
      → IsPayable sdk p c call w
      → (make_call sdk p s c call (balance_of sdk p c w) w).0 ≡ ok false
  unfolding make_call
  make_call-completes p s c call w fits small payable =
      let b = balance_of sdk p c w in
      bind-ok (sdk.int_uint64 b.amount, w) b.amount false (run_call sdk p s c call b)
        (cl.fits b.amount fits) (run_call-completes p s c call b w small payable)

  query_owner-Returns :
      (s c : Bytes) (w : World sdk)
      → Returns (sdk.query_smart w.chain c (sdk.owner_query s))
      → Returns (query_owner sdk s c w)
  unfolding query_owner
  query_owner-Returns s c w answers = ground (arith, answers)

  consume_call-completes :
      (p : Params) (s c : Bytes) (call : ScheduledCall) (w : World sdk)
      → length call.call_body < 2 ^ 62
      → IsCalm sdk p s c call w
      → (consume_call sdk p s c call w).0 ≡ ok false
  unfolding consume_call
  consume_call-completes p s c call w small calm = ground (
    arith,
    query_owner-Returns s c w calm.answers,
    cl.compares (balance_of sdk p c w) p.minimum_balance
        (cl.balance_denom w.chain c p.minimum_balance.denom),
    λ (owned : query_owner sdk s c w ≡ ok true)
          (funded : p.minimum_balance.amount ≤ (balance_of sdk p c w).amount).
        make_call-completes p s c call w (calm.bounded owned funded) small
          (calm.payable owned funded),
  )

  consume_entry-completes :
      (h : ℕ) (p : Params) (k v : Bytes) (w : World sdk)
      → IsCalmTurn sdk p h k v w
      → (consume_entry sdk h (consume_call sdk p) (k, v) w).0 ≡ ok false
  unfolding consume_entry consume_decoded remove_scheduled_call_with_block_height
  consume_entry-completes h p k v w t =
      rw t.decodes (consume_call-completes p _ _ t.call _ t.small t.calm)

  consume_entries_complete :
      (h : ℕ) (p : Params) (entries : List (Bytes × Bytes)) (w : World sdk)
      → IsCalmFrom sdk p h entries w
      → (consume_entries sdk h (consume_call sdk p) entries w).0 ≡ ok tt
  unfolding consume_entries
  consume_entries_complete h p _ _ (no_more w) = refl
  consume_entries_complete h p _ _ (turn k v rest w t more) =
      let w' = (consume_entry sdk h (consume_call sdk p) (k, v) w).1 in
      ground (arith, consume_entry-completes h p k v w t, consume_entries_complete h p rest w' more)

  -- With the laws of coins and of big-endian numbers, the end of a block completes under this
  -- condition: each entry that the iterator of that block walks through is, in the world that the
  -- rounds before it leave, a call that can be decoded and has a body below 2 ^ 62 bytes; and once
  -- its entries are deleted, the owner query returns, with an error or without, and if the contract
  -- is owned and holds the minimum balance, its balance is below 2 ^ 64, its execution hits its gas
  -- limit or comes back, with an error or without, with no result or one of eight bytes or more,
  -- and a payment that follows, of whatever amount, returns.
  pub end_blocker_completes :
      (w : World sdk)
      → IsCalmFrom sdk w.params w.height
          (sdk.entries w.store (make_scheduled_call_by_block_height_prefix_key sdk w.height))
          w
      → (end_blocker sdk w).0 ≡ ok tt
  unfolding end_blocker consume_scheduled_calls_by_height
  end_blocker_completes w calm = consume_entries_complete w.height w.params _ w calm
