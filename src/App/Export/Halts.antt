-- ===== src/App/Export/Halts.antt =====
-- Where the zero-height export ends in a panic, and what an export at the next height returns.
use burnt.Base.{
  ℕ, suc, ◌+◌, ◌≡◌, refl, List, [], ◌∷◌, All, drop, length, Bytes, true, false, none, ok, panic,
  arith, Option-cases, inl, inr, ap,
}
use burnt.Sdk.Laws.{In, here, there}
use burnt.App.Keepers.{Keepers, Validator}
use burnt.App.Keepers.Laws.{ValidatorLaws}
use burnt.App.Export.{
  for_each, reset_validator_key, reset_delegations, prep_for_zero_height_genesis, export_at,
  export_app_state_and_validators,
}

All-In : {A : Type 0} (P : A → Type 0) (xs : List A) (x : A) → All P xs → In x xs → P x
All-In P [] x h i = elim i [ ]
All-In P (y ∷ xs) x h here = h.0
All-In P (y ∷ xs) x h (there i) = All-In P xs x h.1 i

module _ (k : Keepers) (laws : ValidatorLaws k) where
  -- `iter.Key()[1:]` begins with the length of the address, so it is a byte too long.
  not_found :
      (c : k.Chain) (key : Bytes)
      → All (λ val. length (Validator.operator val) ≡ 20) (k.validators c)
      → In key (k.validator_keys c)
      → k.get_validator c (drop 1 key) ≡ none
  not_found c key sized i = elim (Option-cases (k.get_validator c (drop 1 key))) [
    | inl e ↦ e
    | inr (val, e) ↦
        let (stored, named) = laws.found c (drop 1 key) val e in
        let (other, held, shape) = laws.keys_hold_length c key i in
        let long : length (drop 1 key) ≡ suc (length other.operator) = rw shape refl in
        absurd (
          omega (
            arith,
            long,
            ap length named,
            All-In (λ v. length (Validator.operator v) ≡ 20) (k.validators c) val sized stored,
            All-In (λ v. length (Validator.operator v) ≡ 20) (k.validators c) other sized held,
          ))
  ]

  prep_panics :
      (height : ℕ) (allowed : List Bytes) (c c' : k.Chain) (key : Bytes) (keys : List Bytes)
      → (reset_delegations k height allowed c).0 ≡ ok tt
      → (reset_delegations k height allowed c).1 ≡ c'
      → All (λ val. length (Validator.operator val) ≡ 20) (k.validators c')
      → k.validator_keys c' ≡ key ∷ keys
      → (prep_for_zero_height_genesis k height allowed c).0 ≡ panic
  unfolding prep_for_zero_height_genesis reset_validator_key for_each
  prep_panics height allowed c c' key keys done at sized e =
      let missing = not_found c' key sized (rw e here) in ground (arith)

  -- With the documented form of the validators' keys, where the state reached before the loop over
  -- them has a validator's key and all operators of 20 bytes: an export for zero height panics.
  pub export_app_state_and_validators_panics :
      (allowed : List Bytes) (c c' : k.Chain) (key : Bytes) (keys : List Bytes)
      → reset_delegations k (k.last_block_height c) allowed c ≡ (ok tt, c')
      → All (λ val. length (Validator.operator val) ≡ 20) (k.validators c')
      → k.validator_keys c' ≡ key ∷ keys
      → (export_app_state_and_validators k true allowed c).0 ≡ panic
  unfolding export_app_state_and_validators
  export_app_state_and_validators_panics allowed c c' key keys done sized e = ground (
    arith,
    prep_panics (k.last_block_height c) allowed c c' key keys (ap (λ p. p.0) done)
        (ap (λ p. p.1) done) sized e,
  )

module _ (k : Keepers) where
  pub export_app_state_and_validators_next :
      (allowed : List Bytes) (c : k.Chain) (genesis : k.Genesis) (text vals : Bytes)
      → let last = k.last_block_height c in
        k.export_genesis last c ≡ (ok genesis, c)
        → k.marshal_indent genesis ≡ ok text
        → k.write_validators last c ≡ ok vals
        → export_app_state_and_validators k false allowed c ≡ (
          ok (record {
            app_state = text;
            validators = vals;
            height = last + 1;
            consensus_params = k.get_consensus_params c;
          }),
          c,
        )
  unfolding export_app_state_and_validators export_at
  export_app_state_and_validators_next allowed c genesis text vals g t v =
      let last = k.last_block_height c in
      let g0 : (k.export_genesis last c).0 ≡ ok genesis = ap (λ p. p.0) g in
      let g1 : (k.export_genesis last c).1 ≡ c = ap (λ p. p.1) g in ground arith
