-- ===== src/Schedule/EndBlock/Halts.antt =====
-- When the end of a block does not complete: `EndBlocker` returns nothing but the unit value, so
-- any other result stops the chain at that block.
use burnt.Base.{
  stuck, ℕ, ◌≡◌, ◌≢◌, true, false, Bool, some, none, List, [], ◌∷◌, ◌++◌, Bytes, Result, ok, err,
  panic, Error, arith, Option, trim_prefix,
}
use burnt.Base.Call.{Call, ◌>>=◌, must}
use burnt.Sdk.{Sdk}
use burnt.Sdk.Laws.{StoreLaws, In, here, there}
use burnt.Messages.Params.{Coin, Params}
use burnt.Messages.ScheduledCall.{ScheduledCall, unmarshal}
use burnt.Messages.Event.{executed}
use burnt.Schedule.World.{World, execute_msg_with_gas_limit}
use burnt.Schedule.Keys.{
  make_scheduled_call_by_block_height_key, make_scheduled_call_by_block_height_prefix_key,
}
use burnt.Schedule.Consume.{
  Consumer, consume_entry, consume_entries, consume_scheduled_calls_by_height, consume_decoded,
  split_key,
}
use burnt.Schedule.EndBlock.{
  schedule_next, after_call, make_call, consume_call, end_blocker, emit_typed_event, balance_of,
  run_call, settle_call, send_coins,
}

module _ (sdk : Sdk) where
  -- A call that never asks the loop to stop.
  abbrev pub GoesOn : Call (World sdk) Bool → Type 0
  GoesOn c = (w : World sdk) (b : Bool) → (c w).0 ≡ ok b → b ≡ false

  schedule_next-GoesOn :
      (s c : Bytes) (call : ScheduledCall) (b : Coin) (n : ℕ)
      → GoesOn (schedule_next sdk s c call b n)
  unfolding schedule_next
  schedule_next-GoesOn s c call b n w stop e = ground arith

  bind-GoesOn :
      {A : Type 0} (r : Result A × World sdk) (f : A → Call (World sdk) Bool) (stop : Bool)
      → ((a : A) → GoesOn (f a))
      → (◌>>=◌ {S = World sdk} {A = A} {B = Bool} (λ w. r) f r.1).0 ≡ ok stop
      → stop ≡ false
  bind-GoesOn (ok a, w) f stop h e = h a w stop e
  bind-GoesOn (err x, w) f stop h e = cc
  bind-GoesOn (panic, w) f stop h e = cc
  bind-GoesOn (stuck, w) f stop h e = cc

  after_call-GoesOn :
      (p : Params) (s c : Bytes) (call : ScheduledCall) (b g : Coin) (n : ℕ)
      → GoesOn (after_call sdk p s c call b g n)
  unfolding after_call
  after_call-GoesOn p s c call b g n w stop e =
      let w' =
        (emit_typed_event sdk
          (executed (record {
            block_height = w.height;
            gas = some g;
            signer = sdk.bech32 s;
            contract = sdk.bech32 c;
            balance_before = some b;
            call_body = call.call_body;
          }))
          w).1 in
      ground (arith, schedule_next-GoesOn s c call (balance_of sdk p c w') n w' stop)

  settle_call-GoesOn :
      (p : Params) (s c : Bytes) (call : ScheduledCall) (b : Coin) (r : ℕ × ℕ × Option Error)
      → GoesOn (settle_call sdk p s c call b r)
  unfolding settle_call
  settle_call-GoesOn p s c call b (gas, n, some x) w stop e = ground arith
  settle_call-GoesOn p s c call b (gas, n, none) w stop e =
      let coin : Coin = record { denom = p.minimum_balance.denom; amount = gas } in
      ground (arith, after_call-GoesOn p s c call b coin n (send_coins sdk c coin w).1 stop)

  run_call-GoesOn :
      (p : Params) (s c : Bytes) (call : ScheduledCall) (b : Coin) (limit : ℕ)
      → GoesOn (run_call sdk p s c call b limit)
  unfolding run_call
  run_call-GoesOn p s c call b limit w stop e =
      bind-GoesOn (execute_msg_with_gas_limit sdk c call.call_body limit w)
        (settle_call sdk p s c call b) stop (settle_call-GoesOn p s c call b) e

  make_call-GoesOn :
      (p : Params) (s c : Bytes) (call : ScheduledCall) (b : Coin)
      → GoesOn (make_call sdk p s c call b)
  unfolding make_call
  make_call-GoesOn p s c call b w stop e =
      bind-GoesOn (sdk.int_uint64 b.amount, w) (run_call sdk p s c call b) stop
        (run_call-GoesOn p s c call b) e

  -- The callback of `EndBlocker` never ends the loop early.
  pub consume_call-GoesOn :
      (p : Params) (s c : Bytes) (call : ScheduledCall) → GoesOn (consume_call sdk p s c call)
  unfolding consume_call
  consume_call-GoesOn p s c call w stop e =
      ground (arith, make_call-GoesOn p s c call (balance_of sdk p c w) w stop)

  -- The loop meets an entry whose value is no scheduled call.
  bad_entry :
      (h : ℕ) (cb : Consumer sdk) (k v : Bytes) (x : Error) (w : World sdk)
      → unmarshal v ≡ err x
      → (consume_entry sdk h cb (k, v) w).0 ≡ panic
  unfolding consume_entry
  bad_entry h cb k v x w e = ground arith

  pub consume_entry-GoesOn :
      (h : ℕ) (cb : Consumer sdk) (entry : Bytes × Bytes)
      → ((s c : Bytes) (call : ScheduledCall) → GoesOn (cb s c call))
      → GoesOn (consume_entry sdk h cb entry)
  unfolding consume_entry consume_decoded
  consume_entry-GoesOn h cb (k, v) goes w stop e =
      let prefix_key = make_scheduled_call_by_block_height_prefix_key sdk h in
      bind-GoesOn (must (unmarshal v), w) (consume_decoded sdk h cb (trim_prefix k prefix_key)) stop
        (λ call w' stop' e'. decoded (trim_prefix k prefix_key) call w' stop' e') e
    where
      decoded :
          (key_pair : Bytes) (call : ScheduledCall)
          → GoesOn (consume_decoded sdk h cb key_pair call)
      decoded key_pair call w' stop' e' =
          goes (split_key key_pair).0 (split_key key_pair).1 call _ stop' e'

  consume_entries-bad :
      (h : ℕ) (cb : Consumer sdk) (k v : Bytes) (x : Error) (entries : List (Bytes × Bytes))
      → ((s c : Bytes) (call : ScheduledCall) → GoesOn (cb s c call))
      → unmarshal v ≡ err x
      → In (k, v) entries
      → (w : World sdk) → (consume_entries sdk h cb entries w).0 ≢ ok tt
  unfolding consume_entries
  consume_entries-bad h cb k v x [] goes bad i w = elim i [ ]
  consume_entries-bad h cb k v x ((k', v') ∷ rest) goes bad here w =
      ground (arith, bad_entry h cb k' v' x w)
  consume_entries-bad h cb k v x (entry ∷ rest) goes bad (there i) w =
      let after = (consume_entry sdk h cb entry w).1 in
      ground (
        arith,
        consume_entry-GoesOn h cb entry goes w true,
        consume_entries-bad h cb k v x rest goes bad i after,
      )

  -- With the laws of the store: the end of a block does not complete if the store holds, at the
  -- block's height, a value that Unmarshal refuses.
  pub end_blocker_halts :
      (sl : StoreLaws sdk) (w : World sdk) (signer contract value : Bytes) (x : Error)
      → sdk.get w.store (make_scheduled_call_by_block_height_key sdk w.height signer contract)
        ≡ some value
      → unmarshal value ≡ err x
      → (end_blocker sdk w).0 ≢ ok tt
  unfolding end_blocker consume_scheduled_calls_by_height make_scheduled_call_by_block_height_key
  end_blocker_halts sl w signer contract value x e bad =
      consume_entries-bad w.height (consume_call sdk w.params) (signer ++ contract) value x _
        (consume_call-GoesOn w.params) bad (sl.entries-complete w.store _ _ value e) w
