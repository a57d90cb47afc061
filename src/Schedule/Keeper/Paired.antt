-- ===== src/Schedule/Keeper/Paired.antt =====
-- How the two indexes of x/schedule/keeper/keeper.go agree, over every sequence of its operations
-- but ReScheduleCall.
pub mod Steps
pub mod Reach
use burnt.Base.{
  ℕ, ◌^◌, ◌<◌, ◌≤◌, ◌≡◌, ◌≢◌, ◌⊎◌, inl, inr, refl, sym, ◌∙◌, some, none, Option, Bytes, bytes_equal,
  bytes_equal_sound, bytes_equal_refl, true, false, Bool-cases, length, ok, arith, ap,
}
use burnt.Sdk.{Sdk}
use burnt.Sdk.Laws.{StoreLaws, BigEndianLaws}
use burnt.Schedule.Keys.{
  make_scheduled_call_by_block_height_key, make_scheduled_call_by_signer_contract_key,
}
use burnt.Schedule.Keys.Distinct.{
  IsSigner, name_key-ne-height_key, height_key-injective, name_key-injective,
}
use burnt.Schedule.Keeper.{remove_scheduled_call_with_block_height}
use burnt.Schedule.Keeper.Indexes.{IsDueAt, HoldsCall, read_height}

module _ (sdk : Sdk) where
  -- What the index by name gives for a pair of a signer and a contract is a height, and the index by
  -- height holds a call of the pair there; and it holds none elsewhere.
  pub record IsPairedAt (s : sdk.Store) (signer contract : Bytes) : Type 0 where
    pub named :
        (v : Bytes)
        → sdk.get s (make_scheduled_call_by_signer_contract_key signer contract) ≡ some v
        → (h : ℕ) × (1 ≤ h)
          × (h < 2 ^ 64)
          × (v ≡ sdk.uint64_to_big_endian h)
          × (body : Bytes) × HoldsCall sdk s h signer contract body
    pub held :
        (h : ℕ) (v : Bytes)
        → h < 2 ^ 64
        → sdk.get s (make_scheduled_call_by_block_height_key sdk h signer contract) ≡ some v
        → (1 ≤ h) × IsDueAt sdk s signer contract h

  abbrev pub IsPaired : sdk.Store → Type 0
  IsPaired s = (signer contract : Bytes) → IsSigner signer → IsPairedAt s signer contract

  -- Two stores with the same entries for a pair.
  pub record SameAt (s s' : sdk.Store) (signer contract : Bytes) : Type 0 where
    pub same_name :
        sdk.get s' (make_scheduled_call_by_signer_contract_key signer contract)
        ≡ sdk.get s (make_scheduled_call_by_signer_contract_key signer contract)
    pub same_heights :
        (h : ℕ)
        → h < 2 ^ 64
        → sdk.get s' (make_scheduled_call_by_block_height_key sdk h signer contract)
          ≡ sdk.get s (make_scheduled_call_by_block_height_key sdk h signer contract)

  pub SameAt-IsPairedAt :
      (s s' : sdk.Store) (signer contract : Bytes)
      → SameAt s s' signer contract
      → IsPairedAt s signer contract
      → IsPairedAt s' signer contract
  SameAt-IsPairedAt s s' signer contract same paired = record {
    named = λ v e.
        let (h, low, high, is, body, (value, at, decodes)) =
          paired.named v (sym same.same_name ∙ e) in
        (h, low, high, is, body, (value, same.same_heights h high ∙ at, decodes));
    held = λ h v high e.
        let (low, due) = paired.held h v high (sym (same.same_heights h high) ∙ e) in
        (low, same.same_name ∙ due);
  }

  -- A change of one pair's entries: the pair is paired behind it, and the others as before.
  pub IsPaired-elsewhere :
      (s s' : sdk.Store) (signer contract : Bytes)
      → IsPaired s
      → IsPairedAt s' signer contract
      → ((p q : Bytes) → IsSigner p → ¬ ((signer ≡ p) × (contract ≡ q)) → SameAt s s' p q)
      → IsPaired s'
  IsPaired-elsewhere s s' signer contract paired here elsewhere p q sized =
      elim (Bool-cases (bytes_equal signer p)) [
        | inr other ↦ away (λ e. differ signer p other e.0)
        | inl one ↦ elim (Bool-cases (bytes_equal contract q)) [
          | inr other ↦ away (λ e. differ contract q other e.1)
          | inl two ↦ rw (← bytes_equal_sound signer p one, ← bytes_equal_sound contract q two) here
        ]
      ]
    where
      differ : (a b : Bytes) → bytes_equal a b ≡ false → a ≢ b
      differ a b f e = cc (e, f, bytes_equal_refl a)

      away : ¬ ((signer ≡ p) × (contract ≡ q)) → IsPairedAt s' p q
      away ne = SameAt-IsPairedAt s s' p q (elsewhere p q sized ne) (paired p q sized)
