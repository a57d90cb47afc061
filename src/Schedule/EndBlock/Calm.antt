-- ===== src/Schedule/EndBlock/Calm.antt =====
-- What the calls that are due need of the other modules for the end of a block to complete, each in
-- the world in which its turn comes.
use burnt.Base.{
  ℕ, ◌^◌, ◌≤◌, ◌<◌, ◌≡◌, ◌≢◌, List, [], ◌∷◌, Bytes, length, Result, ok, panic, stuck, Error, Option,
  true, trim_prefix,
}
use burnt.Sdk.{Sdk, Executed, finished, out_of_gas}
use burnt.Messages.Params.{Params}
use burnt.Messages.ScheduledCall.{ScheduledCall, unmarshal}
use burnt.Schedule.EndBlock.Order.{without_call}
use burnt.Sdk.Laws.{In, here, there}
use burnt.Schedule.World.{World, query_owner}
use burnt.Schedule.Keys.{make_scheduled_call_by_block_height_prefix_key}
use burnt.Schedule.Consume.{consume_entry, split_key}
use burnt.Schedule.EndBlock.{consume_call, balance_of}

-- A Go call that returns, with an error or without.
abbrev pub Returns : {A : Type 0} → Result A → Type 0
Returns r = (r ≢ panic) × (r ≢ stuck)

-- An execution that hits its gas limit, or whose result is empty or has a block's height in front.
pub data IsOrderly : Executed → Type 0 where
  silent : (e : Option Error) (gas : ℕ) → IsOrderly (finished [] e gas)
  answered : (b : Bytes) (e : Option Error) (gas : ℕ) → 8 ≤ length b → IsOrderly (finished b e gas)
  over_limit : IsOrderly out_of_gas

module _ (sdk : Sdk) (params : Params) where
  -- What the execution of a call needs, where it is made with its contract's balance as its limit:
  -- it is orderly, and a payment that follows it returns, whatever its amount.
  pub record IsPayable (c : Bytes) (call : ScheduledCall) (w : World sdk) : Type 0 where
    pub orderly :
        IsOrderly
          (sdk.execute (w.store, w.chain) c c call.call_body (balance_of sdk params c w).amount).0
    pub pays :
        (gas : ℕ)
        → let after =
            (sdk.execute
              (w.store, w.chain)
              c
              c
              call.call_body
              (balance_of sdk params c w).amount).1 in
          Returns
            (sdk.send_coins_from_account_to_module after.1 c sdk.fee_collector_name
              (record { denom = params.minimum_balance.denom; amount = gas } ∷ [])).0

  -- What a due call needs of the other modules in the world in which its turn comes: the owner
  -- query returns, and where the contract is owned and funded, its balance is below 2 ^ 64 and it
  -- can be executed and pay.
  pub record IsCalm (s c : Bytes) (call : ScheduledCall) (w : World sdk) : Type 0 where
    pub answers : Returns (sdk.query_smart w.chain c (sdk.owner_query s))
    pub bounded :
        query_owner sdk s c w ≡ ok true
        → params.minimum_balance.amount ≤ (balance_of sdk params c w).amount
        → (balance_of sdk params c w).amount < 2 ^ 64
    pub payable :
        query_owner sdk s c w ≡ ok true
        → params.minimum_balance.amount ≤ (balance_of sdk params c w).amount
        → IsPayable c call w

  -- An entry whose value is a call with a body below 2 ^ 62 bytes, which finds what it needs once
  -- it is deleted from both indexes.
  pub record IsCalmTurn (h : ℕ) (key value : Bytes) (w : World sdk) : Type 0 where
    pub call : ScheduledCall
    pub decodes : unmarshal value ≡ ok call
    pub small : length call.call_body < 2 ^ 62
    pub calm :
        let (s, c) =
          split_key (trim_prefix key (make_scheduled_call_by_block_height_prefix_key sdk h)) in
        IsCalm s c call (without_call sdk h s c w)

  -- That each entry of the loop is such an entry in the world that the rounds before it leave.
  pub data IsCalmFrom (h : ℕ) : List (Bytes × Bytes) → World sdk → Type 0 where
    no_more : (w : World sdk) → IsCalmFrom h [] w
    turn :
        (key value : Bytes) (rest : List (Bytes × Bytes)) (w : World sdk)
        → IsCalmTurn h key value w
        → IsCalmFrom h rest (consume_entry sdk h (consume_call sdk params) (key, value) w).1
        → IsCalmFrom h ((key, value) ∷ rest) w

  pub IsCalmFrom-decodes :
      (h : ℕ) (key value : Bytes) (l : List (Bytes × Bytes)) (w : World sdk)
      → IsCalmFrom h l w
      → In (key, value) l
      → (call : ScheduledCall) × (unmarshal value ≡ ok call)
  IsCalmFrom-decodes h key value _ _ (turn _ _ rest w t more) here = (t.call, t.decodes)
  IsCalmFrom-decodes h key value _ _ (turn _ _ rest w t more) (there i) =
      IsCalmFrom-decodes h key value rest _ more i
  IsCalmFrom-decodes h key value _ _ (no_more w) i = elim i [ ]
