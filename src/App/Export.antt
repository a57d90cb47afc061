-- ===== src/App/Export.antt =====
-- app/export.go: the state of a stopped chain, for the genesis of a new one. The keepers' iterators
-- are read when they are made.
pub mod Resets
pub mod Halts
use burnt.Base.{
  ℕ, ◌+◌, List, [], ◌∷◌, map, drop, length, Bytes, Bool, true, false, not, ◌&&◌, ltb, bytes_equal,
  Option, none, some, if◌then◌else◌, Result, ok, err, panic,
}
use burnt.Base.Call.{Call, pure, lift, get, put, ◌>>=◌, ◌>>◌, must}
use burnt.App.Keepers.{Keepers, Unbonding, UnbondingEntry, Validator, Delegation, SigningInfo}

pub record ExportedApp : Type 0 where
  pub app_state : Bytes
  pub validators : Bytes
  pub height : ℕ
  pub consensus_params : Bytes

-- The entries of a redelegation or an unbonding delegation, with their heights set to 0.
unfoldable pub reset_entry : UnbondingEntry → UnbondingEntry
reset_entry e = record e { creation_height = 0 }

unfoldable pub reset_unbonding : Unbonding → Unbonding
reset_unbonding u = record u { entries = map reset_entry u.entries }

-- `allowedAddrsMap[addr]`
unfoldable pub contains : List Bytes → Bytes → Bool
contains [] addr = false
contains (a ∷ addrs) addr = if bytes_equal a addr then true else contains addrs addr

module _ {S A : Type 0} where
  -- A loop whose body may end the whole call.
  unfoldable pub for_each : (A → Call S (Unit {0})) → List A → Call S (Unit {0})
  for_each body [] = pure tt
  for_each body (x ∷ xs) = do body x; for_each body xs

-- A call that an error of its own makes panic.
unfoldable pub or_panic_call : {S : Type 0} → Call S (Unit {0}) → Call S (Unit {0})
or_panic_call m s = let (r, s') = m s in (must r, s')

module _ {S A : Type 0} where
  -- A loop whose body only writes.
  unfoldable pub write_each : (A → S → S) → List A → S → S
  write_each write [] s = s
  write_each write (x ∷ xs) s = write_each write xs (write x s)

module _ (k : Keepers) where
  -- `log.Fatal` ends the process: nothing catches it.
  unfoldable pub check_allowed : List Bytes → Result (Unit {0})
  check_allowed [] = ok tt
  check_allowed (a ∷ addrs) = elim (k.val_address_from_bech32 a) [
    | none ↦ panic
    | some _ ↦ check_allowed addrs
  ]

  -- Donates the scraps of a validator to the community pool, and makes its records anew.
  unfoldable pub reinitialize_validator : Validator → Call k.Chain (Unit {0})
  reinitialize_validator val = do
    chain ← get
    let scraps = k.get_outstanding_rewards chain val.operator
    put (k.set_community_pool (k.add_coins (k.get_community_pool chain) scraps) chain)
    k.after_validator_created 0 val.operator

  unfoldable pub reinitialize_delegation : Delegation → Call k.Chain (Unit {0})
  reinitialize_delegation del = do
    k.before_delegation_created 0 del.delegator del.validator
    k.after_delegation_modified 0 del.delegator del.validator

  -- The fee distribution. The context's height is 0 where the records are made anew.
  unfoldable pub reset_distribution : ℕ → Call k.Chain (Unit {0})
  reset_distribution height = do
    c0 ← get
    for_each
        (λ (val : Validator). or_panic_call (k.withdraw_validator_commission height val.operator))
        (k.validators c0)
    c1 ← get
    let dels = k.delegations c1
    for_each
        (λ (del : Delegation).
          or_panic_call (k.withdraw_delegation_rewards height del.delegator del.validator))
        dels
    c2 ← get
    put (k.delete_all_validator_historical_rewards (k.delete_all_validator_slash_events c2))
    c3 ← get
    for_each reinitialize_validator (k.validators c3)
    for_each reinitialize_delegation dels

  unfoldable pub reset_redelegations : k.Chain → k.Chain
  reset_redelegations c =
      write_each (λ (red : Unbonding). k.set_redelegation (reset_unbonding red)) (k.redelegations c)
        c

  unfoldable pub reset_unbonding_delegations : k.Chain → k.Chain
  reset_unbonding_delegations c =
      write_each (λ (ubd : Unbonding). k.set_unbonding_delegation (reset_unbonding ubd))
        (k.unbonding_delegations c) c

  -- What becomes of the validator at `addr`.
  unfoldable pub reset_validator : List Bytes → Bytes → Validator → Validator
  reset_validator allowed addr val =
      let jail = ltb 0 (length allowed) && not (contains allowed (k.val_bech32 addr)) in
      record val { unbonding_height = 0; jailed = if jail then true else val.jailed }

  -- One round of the loop over the validators' keys: `iter.Key()[1:]` is taken for the address.
  unfoldable pub reset_validator_key : List Bytes → Bytes → Call k.Chain (Unit {0})
  reset_validator_key allowed key = do
    chain ← get
    let addr = drop 1 key
    elim (k.get_validator chain addr) [
      | none ↦ lift panic
      | some val ↦ put (k.set_validator (reset_validator allowed addr val) chain)
    ]

  unfoldable pub reset_signing_infos : k.Chain → k.Chain
  reset_signing_infos c =
      write_each
        (λ ((addr, info) : Bytes × SigningInfo).
          k.set_signing_info addr (record info { start_height = 0 }))
        (k.signing_infos c) c

  -- What comes before the loop over the validators' keys.
  unfoldable pub reset_delegations : ℕ → List Bytes → Call k.Chain (Unit {0})
  reset_delegations height jail_allowed_addrs = do
    lift (check_allowed jail_allowed_addrs)
    k.assert_invariants
    reset_distribution height
    c1 ← get
    put (reset_unbonding_delegations (reset_redelegations c1))

  unfoldable pub prep_for_zero_height_genesis : ℕ → List Bytes → Call k.Chain (Unit {0})
  prep_for_zero_height_genesis height jail_allowed_addrs = do
    reset_delegations height jail_allowed_addrs
    c2 ← get
    for_each (reset_validator_key jail_allowed_addrs) (k.validator_keys c2)
    or_panic_call (k.apply_validator_set_updates height)
    c3 ← get
    put (reset_signing_infos c3)

  -- What is exported, at the height `height` of the new chain.
  unfoldable pub export_at : ℕ → ℕ → Call k.Chain ExportedApp
  export_at ctx_height height = do
    genesis ← k.export_genesis ctx_height
    app_state ← lift (k.marshal_indent genesis)
    chain ← get
    validators ← lift (k.write_validators ctx_height chain)
    pure (record {
      app_state = app_state;
      validators = validators;
      height = height;
      consensus_params = k.get_consensus_params chain;
    })

  unfoldable pub export_app_state_and_validators : Bool → List Bytes → Call k.Chain ExportedApp
  export_app_state_and_validators for_zero_height jail_allowed_addrs = do
    chain ← get
    let last = k.last_block_height chain
    if for_zero_height
        then (do prep_for_zero_height_genesis last jail_allowed_addrs; export_at last 0)
        else export_at last (last + 1)
