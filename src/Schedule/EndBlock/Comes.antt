-- ===== src/Schedule/EndBlock/Comes.antt =====
-- A call that is due at a height is made when the end of that block comes.
use burnt.Base.{
  ℕ, suc, ◌^◌, ◌≤◌, ◌<◌, ◌≡◌, refl, sym, ◌∙◌, inl, inr, false, some, none, List, [], ◌∷◌, ◌++◌,
  Bytes, ok, arith, Option-cases, strip_prefix,
}
use burnt.Sdk.{Sdk}
use burnt.Sdk.Laws.{StoreLaws, BigEndianLaws, CoinLaws}
use burnt.Messages.ScheduledCall.{ScheduledCall, unmarshal}
use burnt.Schedule.World.{World}
use burnt.Schedule.Keys.{
  make_scheduled_call_by_block_height_key, make_scheduled_call_by_block_height_prefix_key,
}
use burnt.Schedule.Keys.Distinct.{IsSigner, IsContract, split_key-trim_prefix}
use burnt.Schedule.Keeper.Holds.{Holds}
use burnt.Schedule.Consume.{
  Consumer, consume_decoded, consume_entry, consume_scheduled_calls_by_height,
}
use burnt.Schedule.EndBlock.{consume_call, end_blocker}
use burnt.Schedule.EndBlock.Halts.{consume_call-GoesOn}
use burnt.Schedule.EndBlock.Keeps.{ExecuteKeeps, end_blocker-Keeps}
use burnt.Schedule.EndBlock.Order.{without_call}
use burnt.Schedule.Keeper.{remove_scheduled_call_with_block_height}
use burnt.Schedule.EndBlock.Calm.{IsCalmFrom, IsCalmFrom-decodes}
use burnt.Schedule.EndBlock.Completes.{end_blocker_completes}
use burnt.Schedule.EndBlock.Rounds.{Rounds, entry_comes}

module _ (sdk : Sdk) where
  -- How the chain comes to a later state: blocks end, and between their ends anything happens that
  -- leaves the value under `key` in the store.
  pub data Runs (key : Bytes) : World sdk → World sdk → Type 0 where
    here_now : (w : World sdk) → Runs key w w
    block_ends :
        (w w1 w2 : World sdk)
        → end_blocker sdk w ≡ (ok tt, w1)
        → Runs key (record w1 { height = suc w.height }) w2
        → Runs key w w2
    in_block :
        (w w1 w2 : World sdk)
        → w1.height ≡ w.height
        → (Holds sdk key w.store → Holds sdk key w1.store)
        → Runs key w1 w2
        → Runs key w w2

  Runs-height : (key : Bytes) (w w' : World sdk) → Runs key w w' → w.height ≤ w'.height
  Runs-height key _ _ (here_now w) = omega arith
  Runs-height key _ _ (block_ends w w1 w' e run) =
      omega (arith, Runs-height key (record w1 { height = suc w.height }) w' run)
  Runs-height key _ _ (in_block w w1 w' same keeps run) =
      omega (arith, same, Runs-height key w1 w' run)

  -- That the end of the block of `w` makes, or skips, the call of `s` and `c`: the loop comes to its
  -- entry, deletes it from both indexes, runs the callback on the call that its value is, and goes
  -- on to its end.
  pub record IsConsumed (s c : Bytes) (w : World sdk) : Type 0 where
    pub value : Bytes
    pub call : ScheduledCall
    pub before : World sdk
    pub after : World sdk
    pub rest : List (Bytes × Bytes)
    pub decodes : unmarshal value ≡ ok call
    pub comes :
        Rounds sdk w.height
          (consume_call sdk w.params)
          w
          (sdk.entries w.store (make_scheduled_call_by_block_height_prefix_key sdk w.height))
          before
          ((s ++ c, value) ∷ rest)
    pub calls :
        consume_call sdk w.params s c call (without_call sdk w.height s c before)
        ≡ (ok false, after)
    pub goes_on :
        Rounds sdk w.height (consume_call sdk w.params) after rest (end_blocker sdk w).1 []

  consumed_call :
      (h : ℕ) (cb : Consumer sdk) (s c v : Bytes) (call : ScheduledCall) (w : World sdk)
      → IsSigner s
      → IsContract c
      → strip_prefix (make_scheduled_call_by_block_height_prefix_key sdk h) (s ++ c) ≡ none
      → unmarshal v ≡ ok call
      → consume_entry sdk h cb (s ++ c, v) w ≡ cb s c call (without_call sdk h s c w)
  unfolding consume_entry consume_decoded remove_scheduled_call_with_block_height
  consumed_call h cb s c v call w signer contract plain decodes =
      rw
        (
          decodes,
          split_key-trim_prefix (make_scheduled_call_by_block_height_prefix_key sdk h) s c signer
              contract plain,
        )
        refl

  block_end_makes :
      StoreLaws sdk
      → (s c v : Bytes) (w : World sdk) → IsSigner s
      → IsContract c
      → strip_prefix (make_scheduled_call_by_block_height_prefix_key sdk w.height) (s ++ c) ≡ none
      → sdk.get w.store (make_scheduled_call_by_block_height_key sdk w.height s c) ≡ some v
      → (call : ScheduledCall) × (unmarshal v ≡ ok call)
      → (end_blocker sdk w).0 ≡ ok tt
      → IsConsumed s c w
  unfolding end_blocker consume_scheduled_calls_by_height make_scheduled_call_by_block_height_key
  block_end_makes sl s c v w signer contract plain found (call, decodes) done =
      let cb = consume_call sdk w.params in
      let t =
        entry_comes sdk w.height cb (consume_call-GoesOn sdk w.params) (s ++ c, v) _ w
          (sl.entries-complete w.store _ _ v found) done in
      record {
        value = v;
        call = call;
        before = t.before;
        after = t.after;
        rest = t.rest;
        decodes = decodes;
        comes = t.comes;
        calls =
            sym (consumed_call w.height cb s c v call t.before signer contract plain decodes)
            ∙ t.consumed;
        goes_on = t.goes_on;
      }

  module _ (sl : StoreLaws sdk) (be : BigEndianLaws sdk) (h : ℕ) (s c : Bytes) (due : h < 2 ^ 64)
      (keeps : ExecuteKeeps sdk sl (make_scheduled_call_by_block_height_key sdk h s c)) where
    Runs-Holds :
        (w w' : World sdk)
        → Runs (make_scheduled_call_by_block_height_key sdk h s c) w w'
        → w'.height ≤ h
        → Holds sdk (make_scheduled_call_by_block_height_key sdk h s c) w.store
        → Holds sdk (make_scheduled_call_by_block_height_key sdk h s c) w'.store
    Runs-Holds _ _ (here_now w) le held = held
    Runs-Holds _ _ (block_ends w w1 w' e run) le held =
        let before_h = Runs-height _ (record w1 { height = suc w.height }) w' run in
        let left =
          end_blocker-Keeps sdk sl be h s c w (omega arith) due (λ e. ground arith) keeps held in
        Runs-Holds (record w1 { height = suc w.height }) w' run le (rw e at left)
    Runs-Holds _ _ (in_block w w1 w' same leaves run) le held =
        Runs-Holds w1 w' run le (leaves held)

    -- With the laws of the store, of coins and of big-endian numbers, where no call of a contract
    -- takes the entry out: a call of a signer of 20 bytes and a contract of at most 32, which do
    -- not begin with the prefix that is cut off once more, held for a height below 2 ^ 64, has its
    -- entries deleted from both indexes and is made, or skipped, in the loop of that block's end,
    -- which goes on behind it to its end, once the chain comes there. Until then blocks end without
    -- an error or a panic and all else leaves the entry in the store. In that block: each entry
    -- that the iterator of that block walks through is, in the world that the rounds before it
    -- leave, a call that can be decoded and has a body below 2 ^ 62 bytes; and once its entries are
    -- deleted, the owner query returns, with an error or without, and if the contract is owned and
    -- holds the minimum balance, its balance is below 2 ^ 64, its execution hits its gas limit or
    -- comes back, with an error or without, with no result or one of eight bytes or more, and a
    -- payment that follows, of whatever amount, returns.
    pub due_call_comes :
        CoinLaws sdk
        → IsSigner s
        → IsContract c
        → strip_prefix (make_scheduled_call_by_block_height_prefix_key sdk h) (s ++ c) ≡ none
        → (w w' : World sdk) → Holds sdk (make_scheduled_call_by_block_height_key sdk h s c) w.store
        → Runs (make_scheduled_call_by_block_height_key sdk h s c) w w'
        → w'.height ≡ h
        → IsCalmFrom sdk w'.params h
            (sdk.entries w'.store (make_scheduled_call_by_block_height_prefix_key sdk h))
            w'
        → IsConsumed s c w'
    unfolding make_scheduled_call_by_block_height_key
    due_call_comes cl signer contract plain w w' held run at_h calm =
        elim (Option-cases (sdk.get w'.store (make_scheduled_call_by_block_height_key sdk h s c))) [
          | inl gone ↦ absurd (Runs-Holds w w' run (omega (arith, at_h)) held gone)
          | inr (v, found) ↦
              let readable =
                IsCalmFrom-decodes sdk w'.params h (s ++ c) v _ w' calm
                  (sl.entries-complete w'.store _ _ v found) in
              block_end_makes sl s c v w' signer contract (rw at_h plain) (rw at_h found) readable
                (end_blocker_completes sdk be cl w' (rw (← at_h) at calm))
        ]
