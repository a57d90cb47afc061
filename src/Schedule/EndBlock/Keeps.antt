-- ===== src/Schedule/EndBlock/Keeps.antt =====
-- The end of a block leaves the calls that are due at other heights in the store.
use burnt.Base.{
  ℕ, ◌^◌, ◌<◌, ◌≢◌, some, none, List, [], ◌∷◌, Bytes, Result, ok, err, panic, stuck, Error, arith,
  Option, trim_prefix,
}
use burnt.Base.Call.{Call, ◌>>=◌, must}
use burnt.Sdk.{Sdk}
use burnt.Sdk.Laws.{StoreLaws, BigEndianLaws}
use burnt.Messages.Params.{Coin, Params}
use burnt.Messages.ScheduledCall.{ScheduledCall, unmarshal}
use burnt.Messages.Event.{executed}
use burnt.Schedule.Keeper.Holds.{Holds, add_scheduled_call-Holds, remove_with_block_height-Holds}
use burnt.Schedule.World.{World, execute_msg_with_gas_limit, send_coins, emit_typed_event}
use burnt.Schedule.Keys.{
  make_scheduled_call_by_block_height_prefix_key, make_scheduled_call_by_block_height_key,
}
use burnt.Schedule.Consume.{
  Consumer, remove_entry, consume_decoded, consume_entry, consume_entries, split_key,
  consume_scheduled_calls_by_height,
}
use burnt.Schedule.EndBlock.{
  schedule_next, after_call, settle_call, run_call, make_call, consume_call, end_blocker,
  balance_of,
}

module _ (sdk : Sdk) (sl : StoreLaws sdk) where
  -- A call that leaves a value in the store.
  abbrev pub Keeps : {A : Type 0} → Bytes → Call (World sdk) A → Type 0
  Keeps key m = (w : World sdk) → Holds sdk key w.store → Holds sdk key (m w).1.store

  module _ (key : Bytes) where
    bind-Keeps :
        {A B : Type 0} (r : Result A × World sdk) (f : A → Call (World sdk) B)
        → ((a : A) → Keeps key (f a))
        → Holds sdk key r.1.store
        → Holds sdk key (◌>>=◌ {S = World sdk} {A = A} {B = B} (λ w. r) f r.1).1.store
    bind-Keeps (ok a, w) f keep held = keep a w held
    bind-Keeps (err x, w) f keep held = held
    bind-Keeps (panic, w) f keep held = held
    bind-Keeps (stuck, w) f keep held = held

    -- That no call of a contract takes the entry out.
    abbrev pub ExecuteKeeps : Type 0
    ExecuteKeeps =
        (state : sdk.Store × sdk.Chain) (contract sender msg : Bytes) (limit : ℕ)
        → Holds sdk key state.0
        → Holds sdk key (sdk.execute state contract sender msg limit).1.0

    schedule_next-Keeps :
        (s c : Bytes) (call : ScheduledCall) (b : Coin) (n : ℕ)
        → Keeps key (schedule_next sdk s c call b n)
    unfolding schedule_next emit_typed_event
    schedule_next-Keeps s c call b n w held =
        grind (arith, add_scheduled_call-Holds sdk sl key s c call.call_body n w.store)

    after_call-Keeps :
        (p : Params) (s c : Bytes) (call : ScheduledCall) (b g : Coin) (n : ℕ)
        → Keeps key (after_call sdk p s c call b g n)
    unfolding after_call emit_typed_event
    after_call-Keeps p s c call b g n w held =
        let w' =
          (emit_typed_event sdk
            (executed (record {
              block_height = w.height;
              gas = some g;
              signer = sdk.bech32 s;
              contract = sdk.bech32 c;
              balance_before = some b;
              call_body = call.call_body;
            }))
            w).1 in
        ground (arith, schedule_next-Keeps s c call (balance_of sdk p c w') n w')

    settle_call-Keeps :
        (p : Params) (s c : Bytes) (call : ScheduledCall) (b : Coin) (r : ℕ × ℕ × Option Error)
        → Keeps key (settle_call sdk p s c call b r)
    unfolding settle_call send_coins
    settle_call-Keeps p s c call b (gas, n, some x) w held = ground arith
    settle_call-Keeps p s c call b (gas, n, none) w held =
        let coin : Coin = record { denom = p.minimum_balance.denom; amount = gas } in
        ground (arith, after_call-Keeps p s c call b coin n (send_coins sdk c coin w).1)

    run_call-Keeps :
        (p : Params) (s c : Bytes) (call : ScheduledCall) (b : Coin) (limit : ℕ)
        → ExecuteKeeps
        → Keeps key (run_call sdk p s c call b limit)
    unfolding run_call execute_msg_with_gas_limit
    run_call-Keeps p s c call b limit ex w held =
        bind-Keeps (execute_msg_with_gas_limit sdk c call.call_body limit w)
          (settle_call sdk p s c call b) (settle_call-Keeps p s c call b)
          (ex (w.store, w.chain) c c call.call_body limit held)

    make_call-Keeps :
        (p : Params) (s c : Bytes) (call : ScheduledCall) (b : Coin)
        → ExecuteKeeps
        → Keeps key (make_call sdk p s c call b)
    unfolding make_call
    make_call-Keeps p s c call b ex w held =
        bind-Keeps (sdk.int_uint64 b.amount, w) (run_call sdk p s c call b)
          (λ limit. run_call-Keeps p s c call b limit ex) held

    pub consume_call-Keeps :
        (p : Params) (s c : Bytes) (call : ScheduledCall)
        → ExecuteKeeps
        → Keeps key (consume_call sdk p s c call)
    unfolding consume_call
    consume_call-Keeps p s c call ex w held =
        ground (arith, make_call-Keeps p s c call (balance_of sdk p c w) ex w)

    -- The rounds of the loop: the removal of an entry, and the callback.
    consume_decoded-Keeps :
        (k : ℕ) (cb : Consumer sdk) (rest : Bytes) (call : ScheduledCall)
        → ((s c : Bytes) → Keeps key (remove_entry sdk s c k))
        → ((s c : Bytes) → Keeps key (cb s c call))
        → Keeps key (consume_decoded sdk k cb rest call)
    unfolding consume_decoded
    consume_decoded-Keeps k cb rest call removes makes w held =
        let (s, c) = split_key rest in makes s c _ (removes s c w held)

    pub consume_entry-Keeps :
        (k : ℕ) (cb : Consumer sdk) (entry : Bytes × Bytes)
        → ((s c : Bytes) → Keeps key (remove_entry sdk s c k))
        → ((s c : Bytes) (call : ScheduledCall) → Keeps key (cb s c call))
        → Keeps key (consume_entry sdk k cb entry)
    unfolding consume_entry
    consume_entry-Keeps k cb (name, value) removes makes w held =
        let prefix_key = make_scheduled_call_by_block_height_prefix_key sdk k in
        bind-Keeps (must (unmarshal value), w)
          (consume_decoded sdk k cb (trim_prefix name prefix_key))
          (λ call. consume_decoded-Keeps k cb _ call removes (λ s c. makes s c call)) held

    consume_entries-Keeps :
        (k : ℕ) (cb : Consumer sdk) (entries : List (Bytes × Bytes))
        → ((s c : Bytes) → Keeps key (remove_entry sdk s c k))
        → ((s c : Bytes) (call : ScheduledCall) → Keeps key (cb s c call))
        → Keeps key (consume_entries sdk k cb entries)
    unfolding consume_entries
    consume_entries-Keeps k cb [] removes makes w held = held
    consume_entries-Keeps k cb (entry ∷ rest) removes makes w held =
        let w' = (consume_entry sdk k cb entry w).1 in
        ground (
          arith,
          consume_entry-Keeps k cb entry removes makes w held,
          consume_entries-Keeps k cb rest removes makes w',
        )

  -- With the laws of the store and of big-endian numbers, and where no call of a contract takes the
  -- entry of a height out: the end of an earlier or later block leaves it, whatever it returns.
  pub end_blocker-Keeps :
      BigEndianLaws sdk
      → (h : ℕ) (q r : Bytes) (w : World sdk) → w.height < 2 ^ 64
      → h < 2 ^ 64
      → w.height ≢ h
      → ExecuteKeeps (make_scheduled_call_by_block_height_key sdk h q r)
      → Holds sdk (make_scheduled_call_by_block_height_key sdk h q r) w.store
      → Holds sdk (make_scheduled_call_by_block_height_key sdk h q r) (end_blocker sdk w).1.store
  unfolding end_blocker consume_scheduled_calls_by_height
  end_blocker-Keeps be h q r w now due ne ex held =
      consume_entries-Keeps (make_scheduled_call_by_block_height_key sdk h q r) w.height
        (consume_call sdk w.params) _
        (λ s c w'. remove_with_block_height-Holds sdk sl be s c q r w.height h w'.store now due ne)
        (λ s c call. consume_call-Keeps _ w.params s c call ex) w held
