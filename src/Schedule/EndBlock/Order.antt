-- ===== src/Schedule/EndBlock/Order.antt =====
-- The end of a block as its users see it: the calls that are due, one after the other.
use burnt.Base.{
  ap, ◌∙◌, if◌then◌else◌, ℕ, ◌^◌, ◌<◌, ◌≡◌, refl, false, none, List, [], ◌∷◌, ◌++◌, map, All, Bool,
  Bytes, length, Result, ok, err, panic, stuck, strip_prefix,
}
use burnt.Base.Call.{Call, pure, ◌>>=◌, ◌>>◌}
use burnt.Sdk.{Sdk}
use burnt.Messages.Params.{Params}
use burnt.Messages.ScheduledCall.{ScheduledCall}
use burnt.Messages.ScheduledCall.Codec.{unmarshal-field}
use burnt.Wire.Written.{bytes_field}
use burnt.Schedule.Keys.{
  make_scheduled_call_by_block_height_prefix_key, make_scheduled_call_by_signer_contract_key,
  make_scheduled_call_by_block_height_key,
}
use burnt.Schedule.Keys.Distinct.{IsSigner, IsContract, split_key-trim_prefix}
use burnt.Schedule.World.{World}
use burnt.Schedule.Keeper.{remove_scheduled_call_with_block_height}
use burnt.Schedule.Consume.{
  consume_decoded, consume_entry, consume_entries, consume_scheduled_calls_by_height,
}
use burnt.Schedule.EndBlock.{consume_call, end_blocker}
use burnt.Schedule.EndBlock.Halts.{consume_call-GoesOn}

-- A call that is due.
pub record DueCall : Type 0 where
  pub signer : Bytes
  pub contract : Bytes
  pub body : Bytes

-- Its entry behind the prefix of its height.
abbrev pub due_entry : DueCall → Bytes × Bytes
due_entry d = (d.signer ++ d.contract, bytes_field 0x0a d.body)

-- The world without the entries of a call in the index by name and in that by height.
abbrev pub without_call : (sdk : Sdk) → ℕ → Bytes → Bytes → World sdk → World sdk
without_call sdk h s c w = record w {
  store =
      sdk.delete (sdk.delete w.store (make_scheduled_call_by_signer_contract_key s c))
        (make_scheduled_call_by_block_height_key sdk h s c);
}

module _ (sdk : Sdk) (h : ℕ) where
  -- The addresses are not taken for the prefix of the height that is cut off once more.
  abbrev pub IsReadable : DueCall → Type 0
  IsReadable d =
      IsSigner d.signer
      × IsContract d.contract
      × (length d.body < 2 ^ 62)
      × (strip_prefix (make_scheduled_call_by_block_height_prefix_key sdk h)
            (d.signer ++ d.contract)
          ≡ none)

  -- One call, which is deleted from both indexes and then made, or skipped.
  abbrev pub take_and_make : Params → DueCall → Call (World sdk) Bool
  take_and_make params d w =
      consume_call sdk params d.signer d.contract (record { call_body = d.body })
        (without_call sdk h d.signer d.contract w)

  unfoldable pub make_each : Params → List DueCall → Call (World sdk) (Unit {0})
  make_each params [] = pure tt
  make_each params (d ∷ ds) = do take_and_make params d; make_each params ds

  consume_entry-due_entry :
      (params : Params) (d : DueCall) (w : World sdk)
      → IsReadable d
      → consume_entry sdk h (consume_call sdk params) (due_entry d) w ≡ take_and_make params d w
  unfolding consume_entry consume_decoded remove_scheduled_call_with_block_height
  consume_entry-due_entry params d w r =
      rw
        (
          unmarshal-field (record { call_body = d.body }) r.2,
          split_key-trim_prefix (make_scheduled_call_by_block_height_prefix_key sdk h) d.signer
              d.contract r.0 r.1 r.3,
        )
        refl

  -- A round that never asks to stop.
  go_on :
      (r : Result Bool × World sdk) (next next' : Call (World sdk) (Unit {0})) (w : World sdk)
      → ((stop : Bool) → r.0 ≡ ok stop → stop ≡ false)
      → next r.1 ≡ next' r.1
      → ((λ w'. r) >>= λ stop. if stop then pure tt else next) w ≡ ((λ w'. r) >> next') w
  go_on (ok stop, w') next next' w goes e =
      let never : stop ≡ false = goes stop refl in rw (never, e) refl
  go_on (err x, w') next next' w goes e = refl
  go_on (panic, w') next next' w goes e = refl
  go_on (stuck, w') next next' w goes e = refl

  go_on_as :
      (m n : Call (World sdk) Bool) (next next' : Call (World sdk) (Unit {0})) (w v : World sdk)
      → m w ≡ n v
      → ((stop : Bool) → (n v).0 ≡ ok stop → stop ≡ false)
      → next (n v).1 ≡ next' (n v).1
      → (m >>= λ stop. if stop then pure tt else next) w ≡ (n >> next') v
  go_on_as m n next next' w v e goes same =
      ap (λ (r : Result Bool × World sdk). ((λ w'. r) >>= λ stop. if stop then pure tt else next) w)
        e
      ∙ go_on (n v) next next' w goes same

  consume_entries-each :
      (params : Params) (ds : List DueCall) (w : World sdk)
      → All IsReadable ds
      → consume_entries sdk h (consume_call sdk params) (map due_entry ds) w ≡ make_each params ds w
  unfolding consume_entries make_each
  consume_entries-each params [] w r = refl
  consume_entries-each params (d ∷ ds) w r =
      go_on_as (consume_entry sdk h (consume_call sdk params) (due_entry d))
        (take_and_make params d) _ (make_each params ds) w w
        (consume_entry-due_entry params d w r.0)
        (consume_call-GoesOn sdk params d.signer d.contract call taken)
        (consume_entries-each params ds _ r.1)
    where
      call : ScheduledCall
      call = record { call_body = d.body }

      taken : World sdk
      taken = without_call sdk h d.signer d.contract w

module _ (sdk : Sdk) where
  -- Where the iterator over the block's height walks through the entries of calls with signers of
  -- 20 bytes, contracts of at most 32 and bodies below 2 ^ 62 bytes, and no signer and contract
  -- begin with the prefix that is cut off once more: the end of the block deletes the entries of
  -- each of these calls from both indexes and then makes or skips it, in that order, and goes on
  -- after each that comes back without an error.
  pub end_blocker-each :
      (ds : List DueCall) (w : World sdk)
      → All (IsReadable sdk w.height) ds
      → sdk.entries w.store (make_scheduled_call_by_block_height_prefix_key sdk w.height)
        ≡ map due_entry ds
      → end_blocker sdk w ≡ make_each sdk w.height w.params ds w
  unfolding end_blocker consume_scheduled_calls_by_height
  end_blocker-each ds w r e = rw e (consume_entries-each sdk w.height w.params ds w r)
