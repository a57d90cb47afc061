-- ===== src/Schedule/Keeper/Paired/Steps.antt =====
-- What the operations of x/schedule/keeper/keeper.go do to stores with paired indexes: AddScheduledCall
-- where nothing is scheduled, and the removal of both entries of a call.
use burnt.Base.{
  ℕ, ◌^◌, ◌<◌, ◌≤◌, ◌≡◌, ◌≢◌, ◌⊎◌, inl, inr, refl, sym, ◌∙◌, some, none, Option-cases, Bool-cases,
  ◌==◌, Bytes, length, ok, arith, ap,
}
use burnt.Sdk.{Sdk}
use burnt.Sdk.Laws.{StoreLaws, BigEndianLaws}
use burnt.Schedule.Keys.{
  make_scheduled_call_by_block_height_key, make_scheduled_call_by_signer_contract_key,
}
use burnt.Schedule.Keys.Distinct.{
  IsSigner, name_key-ne-height_key, height_key-injective, name_key-injective,
}
use burnt.Schedule.Keeper.{
  add_scheduled_call, remove_scheduled_call_with_block_height, block_height_for_signer_contract,
}
use burnt.Schedule.Keeper.Indexes.{IsDueAt, read_height}
use burnt.Schedule.Keeper.Paired.{IsPairedAt, IsPaired, SameAt, IsPaired-elsewhere}
use burnt.Messages.ScheduledCall.Codec.{marshal-field, unmarshal-field}
use burnt.Wire.Written.{bytes_field}

number-cases : (m n : ℕ) → (m ≡ n) ⊎ (m ≢ n)
number-cases m n = elim (Bool-cases (m == n)) [
  | inl same ↦ inl (ground arith)
  | inr other ↦ inr (λ e. ground arith)
]

module _ (sdk : Sdk) where
  module _ (sl : StoreLaws sdk) (be : BigEndianLaws sdk) (signer contract : Bytes)
      (sized : IsSigner signer) where
    abbrev name_key : Bytes
    name_key = make_scheduled_call_by_signer_contract_key signer contract

    abbrev height_key : ℕ → Bytes
    height_key h = make_scheduled_call_by_block_height_key sdk h signer contract

    keys_differ : (h : ℕ) → height_key h ≢ name_key
    keys_differ h e = name_key-ne-height_key sdk h signer contract signer contract (sym e)

    -- The entries of another pair stand under other keys.
    module _ (p q : Bytes) (p_sized : IsSigner p) (ne : ¬ ((signer ≡ p) × (contract ≡ q))) where
      other_name : name_key ≢ make_scheduled_call_by_signer_contract_key p q
      other_name e = ne (name_key-injective signer contract p q (sized ∙ sym p_sized) e)

      other_height :
          (h k : ℕ)
          → h < 2 ^ 64
          → k < 2 ^ 64
          → height_key h ≢ make_scheduled_call_by_block_height_key sdk k p q
      other_height h k fits fits' e =
          let (_, one, two) =
            height_key-injective sdk be h k signer contract p q fits fits' (sized ∙ sym p_sized)
              e in
          ne (one, two)

      SameAt-removed :
          (h : ℕ) (s : sdk.Store)
          → h < 2 ^ 64
          → SameAt sdk s (remove_scheduled_call_with_block_height sdk signer contract h s) p q
      unfolding remove_scheduled_call_with_block_height
      SameAt-removed h s fits = record {
        same_name =
            sl.get-delete_ne _ (height_key h) _
              (λ e. name_key-ne-height_key sdk h p q signer contract (sym e))
            ∙ sl.get-delete_ne s name_key _ other_name;
        same_heights = λ k fits'.
            sl.get-delete_ne _ (height_key h) _ (other_height h k fits fits')
            ∙ sl.get-delete_ne s name_key _ (name_key-ne-height_key sdk k signer contract p q);
      }

      SameAt-set :
          (h : ℕ) (s : sdk.Store) (u v : Bytes)
          → h < 2 ^ 64
          → SameAt sdk s (sdk.set (sdk.set s name_key u) (height_key h) v) p q
      SameAt-set h s u v fits = record {
        same_name =
            sl.get-set_ne _ (height_key h) _ v
              (λ e. name_key-ne-height_key sdk h p q signer contract (sym e))
            ∙ sl.get-set_ne s name_key _ u other_name;
        same_heights = λ k fits'.
            sl.get-set_ne _ (height_key h) _ v (other_height h k fits fits')
            ∙ sl.get-set_ne s name_key _ u (name_key-ne-height_key sdk k signer contract p q);
      }

    -- Where the call is due at `h` if it is due at all, its removal at `h` leaves neither entry.
    pub removed-IsPaired :
        (h : ℕ) (s : sdk.Store)
        → h < 2 ^ 64
        → ((k : ℕ) → k < 2 ^ 64 → IsDueAt sdk s signer contract k → k ≡ h)
        → IsPaired sdk s
        → IsPaired sdk (remove_scheduled_call_with_block_height sdk signer contract h s)
    unfolding remove_scheduled_call_with_block_height
    removed-IsPaired h s fits only paired =
        IsPaired-elsewhere sdk s s' signer contract paired pair
          (λ p q p_sized ne. SameAt-removed p q p_sized ne h s fits)
      where
        s' : sdk.Store
        s' = remove_scheduled_call_with_block_height sdk signer contract h s

        no_name : sdk.get s' name_key ≡ none
        no_name =
            sl.get-delete_ne _ (height_key h) name_key (keys_differ h)
            ∙ sl.get-delete_self s name_key

        no_height : (k : ℕ) (v : Bytes) → k < 2 ^ 64 → ¬ (sdk.get s' (height_key k) ≡ some v)
        no_height k v high e =
            apart (only k high ((paired signer contract sized).held k v high (sym kept ∙ e)).1)
          where
            gone : sdk.get s' (height_key h) ≡ none
            gone = sl.get-delete_self _ (height_key h)

            apart : k ≢ h
            apart x = cc (e, gone, ap (λ (n : ℕ). sdk.get s' (height_key n)) x)

            kept : sdk.get s' (height_key k) ≡ sdk.get s (height_key k)
            kept =
                sl.get-delete_ne _ (height_key h) (height_key k) (λ e'. apart (
                  sym
                    (height_key-injective sdk be h k signer contract signer contract fits high refl
                      e').0))
                ∙ sl.get-delete_ne s name_key (height_key k)
                    (name_key-ne-height_key sdk k signer contract signer contract)

        pair : IsPairedAt sdk s' signer contract
        pair = record {
          named = λ v e. absurd (cc (e, no_name));
          held = λ k v high e. absurd (no_height k v high e);
        }

    -- What is read from the index by name, where the stores are paired.
    pub block_height-IsPaired :
        (s : sdk.Store) (h : ℕ)
        → IsPaired sdk s
        → block_height_for_signer_contract sdk s signer contract ≡ ok h
        → (h < 2 ^ 64) × ((k : ℕ) → k < 2 ^ 64 → IsDueAt sdk s signer contract k → k ≡ h)
    unfolding block_height_for_signer_contract
    block_height-IsPaired s h paired read = elim (Option-cases (sdk.get s name_key)) [
      | inl gone ↦
          let zero_height : h ≡ 0 =
            cc (rw (block_height_for_signer_contract, gone) at read, be.reads_nil) in
          (omega arith, (λ k high due. absurd (cc (gone, due))))
      | inr (v, e) ↦
          let (h', low, high, is, _, _) = (paired signer contract sized).named v e in
          let same : h ≡ h' =
            cc (rw (block_height_for_signer_contract, e, is) at read, read_height sdk be h' high) in
          (
            omega arith,
            (λ k high' due.
                cc
                  (rw (block_height_for_signer_contract, due) at read, read_height sdk be k high')),
          )
    ]

    pub added-IsPaired :
        (body : Bytes) (h : ℕ) (s s' : sdk.Store)
        → length body < 2 ^ 62
        → 1 ≤ h
        → h < 2 ^ 64
        → block_height_for_signer_contract sdk s signer contract ≡ ok 0
        → add_scheduled_call sdk signer contract body h s ≡ ok s'
        → IsPaired sdk s
        → IsPaired sdk s'
    unfolding add_scheduled_call
    added-IsPaired body h s s' small low fits free stored paired = rw (← after) (
        IsPaired-elsewhere sdk s t signer contract paired pair
          (λ p q p_sized ne. SameAt-set p q p_sized ne h s (sdk.uint64_to_big_endian h) value fits))
      where
        value : Bytes
        value = bytes_field 0x0a body

        s1 : sdk.Store
        s1 = sdk.set s name_key (sdk.uint64_to_big_endian h)

        t : sdk.Store
        t = sdk.set s1 (height_key h) value

        after : t ≡ s'
        after =
            cc
              (rw (add_scheduled_call, marshal-field (record { call_body = body }) small) at stored)

        due : IsDueAt sdk t signer contract h
        due =
            sl.get-set_ne s1 (height_key h) name_key value (keys_differ h)
            ∙ sl.get-set_self s name_key (sdk.uint64_to_big_endian h)

        -- Before, no call of the pair stands in the index by height.
        was_free : (k : ℕ) (v : Bytes) → k < 2 ^ 64 → ¬ (sdk.get s (height_key k) ≡ some v)
        was_free k v high e =
            let (least, was) = (paired signer contract sized).held k v high e in
            let zero_height = (block_height-IsPaired s 0 paired free).1 k high was in omega arith

        due_at : (k : ℕ) (v : Bytes) → k < 2 ^ 64 → sdk.get t (height_key k) ≡ some v → k ≡ h
        due_at k v high e = elim (number-cases k h) [
          | inl same ↦ same
          | inr other ↦ absurd (was_free k v high (sym (kept k high other) ∙ e))
        ]
          where
            kept :
                (k : ℕ) → k < 2 ^ 64 → k ≢ h → sdk.get t (height_key k) ≡ sdk.get s (height_key k)
            kept k high other =
                sl.get-set_ne s1 (height_key h) (height_key k) value (λ e'. other (
                  sym
                    (height_key-injective sdk be h k signer contract signer contract fits high refl
                      e').0))
                ∙ sl.get-set_ne s name_key (height_key k) (sdk.uint64_to_big_endian h)
                    (name_key-ne-height_key sdk k signer contract signer contract)

        pair : IsPairedAt sdk t signer contract
        pair = record {
          named = λ v e. (
            h,
            low,
            fits,
            cc (due, e),
            body,
            (
              value,
              sl.get-set_self s1 (height_key h) value,
              unmarshal-field (record { call_body = body }) small,
            ),
          );
          held = λ k v high e. let same = due_at k v high e in (rw same low, rw same due);
        }
