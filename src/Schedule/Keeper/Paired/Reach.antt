-- ===== src/Schedule/Keeper/Paired/Reach.antt =====
-- Sequences of the operations of x/schedule/keeper/keeper.go: AddScheduledCall where
-- nothing is scheduled, RemoveScheduledCall, and the removal of an entry that the loop over the due
-- calls walks through.
use burnt.Base.{
  ℕ, ◌^◌, ◌<◌, ◌≤◌, ◌≡◌, refl, some, none, Bytes, length, Result, ok, err, panic, stuck,
}
use burnt.Sdk.{Sdk}
use burnt.Sdk.Laws.{StoreLaws, BigEndianLaws}
use burnt.Schedule.Keys.{
  make_scheduled_call_by_block_height_key, make_scheduled_call_by_signer_contract_key,
}
use burnt.Schedule.Keys.Distinct.{IsSigner}
use burnt.Schedule.Keeper.{
  or_nil, add_scheduled_call, remove_scheduled_call, remove_scheduled_call_with_block_height,
  block_height_for_signer_contract,
}
use burnt.Schedule.Keeper.Indexes.{IsDueAt, read_height}
use burnt.Schedule.Keeper.Paired.{IsPaired}
use burnt.Schedule.Keeper.Paired.Steps.{removed-IsPaired, block_height-IsPaired, added-IsPaired}

module _ (sdk : Sdk) where
  -- One operation on the store.
  pub data Step (s : sdk.Store) : sdk.Store → Type 0 where
    added :
        (signer contract body : Bytes) (h : ℕ) (s' : sdk.Store)
        → IsSigner signer
        → length body < 2 ^ 62
        → 1 ≤ h
        → h < 2 ^ 64
        → block_height_for_signer_contract sdk s signer contract ≡ ok 0
        → add_scheduled_call sdk signer contract body h s ≡ ok s'
        → Step s s'
    removed :
        (signer contract : Bytes) (s' : sdk.Store)
        → IsSigner signer
        → remove_scheduled_call sdk signer contract s ≡ ok s'
        → Step s s'
    consumed :
        (signer contract value : Bytes) (h : ℕ)
        → IsSigner signer
        → h < 2 ^ 64
        → sdk.get s (make_scheduled_call_by_block_height_key sdk h signer contract) ≡ some value
        → Step s (remove_scheduled_call_with_block_height sdk signer contract h s)

  -- The stores that sequences of operations lead to.
  pub data Reach (s : sdk.Store) : sdk.Store → Type 0 where
    start : Reach s s
    next : {t u : sdk.Store} → Reach s t → Step t u → Reach s u

  module _ (sl : StoreLaws sdk) (be : BigEndianLaws sdk) where
    pub Step-IsPaired : {s t : sdk.Store} → Step s t → IsPaired sdk s → IsPaired sdk t
    unfolding remove_scheduled_call remove_scheduled_call_with_block_height
        block_height_for_signer_contract
    Step-IsPaired (added signer contract body h s' sized small low fits free stored) paired =
        added-IsPaired sdk sl be signer contract sized body h _ s' small low fits free stored paired
    Step-IsPaired {s} (removed signer contract s' sized done) paired =
        go (block_height_for_signer_contract sdk s signer contract) refl
      where
        go :
            (r : Result ℕ)
            → sdk.big_endian_to_uint64
                (or_nil (sdk.get s (make_scheduled_call_by_signer_contract_key signer contract)))
              ≡ r
            → IsPaired sdk s'
        go (ok h) e =
            let (fits, only) = block_height-IsPaired sdk sl be signer contract sized s h paired e in
            let after : remove_scheduled_call_with_block_height sdk signer contract h s ≡ s' =
              cc (rw (remove_scheduled_call, e) at done) in
            rw (← after) (removed-IsPaired sdk sl be signer contract sized h s fits only paired)
        go (err x) e = absurd (cc (rw (remove_scheduled_call, e) at done))
        go panic e = absurd (cc (rw (remove_scheduled_call, e) at done))
        go stuck e = absurd (cc (rw (remove_scheduled_call, e) at done))
    Step-IsPaired {s} (consumed signer contract value h sized fits e) paired =
        removed-IsPaired sdk sl be signer contract sized h s fits only paired
      where
        due : IsDueAt sdk s signer contract h
        due = ((paired signer contract sized).held h value fits e).1

        only : (k : ℕ) → k < 2 ^ 64 → IsDueAt sdk s signer contract k → k ≡ h
        only k high due' = cc (due, due', read_height sdk be h fits, read_height sdk be k high)

    -- With the laws of the store and of big-endian numbers: on every store that a sequence of
    -- operations makes from an empty one, the two indexes agree. What the index by name gives for a
    -- signer of 20 bytes and a contract is a height at which the index by height holds a call of
    -- theirs, and it holds none of theirs at another height. Each operation is for a signer of 20
    -- bytes, and is one of three: AddScheduledCall that succeeds, of a pair for which no height is
    -- found, at a height from 1 on and below 2 ^ 64, with a body below 2 ^ 62 bytes;
    -- RemoveScheduledCall that succeeds; and the removal of an entry that stands in the index by
    -- height, at a height below 2 ^ 64.
    pub Reach-IsPaired :
        {s t : sdk.Store} → ((key : Bytes) → sdk.get s key ≡ none) → Reach s t → IsPaired sdk t
    Reach-IsPaired empty start = λ signer contract sized. record {
      named = λ v e.
          absurd (cc (e, empty (make_scheduled_call_by_signer_contract_key signer contract)));
      held = λ h v high e.
          absurd (cc (e, empty (make_scheduled_call_by_block_height_key sdk h signer contract)));
    }
    Reach-IsPaired empty (next before step) = Step-IsPaired step (Reach-IsPaired empty before)
