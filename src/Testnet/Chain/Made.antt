-- ===== src/Testnet/Chain/Made.antt =====
-- Which validators the loops of the test chain leave.
use burnt.Base.{
  ℕ, suc, ◌≡◌, ◌≢◌, refl, ◌∙◌, ap, Bytes, List, [], ◌∷◌, ◌++◌, append-nil, append_assoc, none,
  Result, ok, err, panic, stuck, arith,
}
use burnt.Base.Call.{Call, ◌>>=◌, ◌>>◌}
use burnt.Testnet.Tools.{Tools}
use burnt.Testnet.Validator.{
  Validator, Making, create_node_key, create_consensus_key, create_key_from_mnemonic, on_disk,
}
use burnt.Testnet.Chain.{
  ChainInfo, Network, chain_config_dir, create_validator, init_node, append_node, other_keys,
  burnt_name, val_name, create_and_init_validators_with_mnemonics,
}

-- A call that goes on with another one, and succeeds.
bind-ok :
    {S A B : Type 0} (m : Call S A) (f : A → Call S B) (s s' : S) (b : B)
    → (m >>= f) s ≡ (ok b, s')
    → (a : A) × (s1 : S) × (m s ≡ (ok a, s1)) × (f a s1 ≡ (ok b, s'))
bind-ok {S} {A} {B} m f s s' b e = came (m s) refl e
  where
    came :
        (r : Result A × S)
        → m s ≡ r
        → ◌>>=◌ {S = S} {A = A} {B = B} (λ _. r) f s ≡ (ok b, s')
        → (a : A) × (s1 : S) × (m s ≡ (ok a, s1)) × (f a s1 ≡ (ok b, s'))
    came (ok a, s1) is e' = (a, s1, is, e')
    came (err x, s1) is e' = absurd (cc)
    came (panic, s1) is e' = absurd (cc)
    came (stuck, s1) is e' = absurd (cc)

module _ (t : Tools) where
  -- That a validator has its index, the mnemonic that its key was made from, and all of its keys.
  pub record IsMade (i : ℕ) (mnemonic : Bytes) (v : Validator t) : Type 0 where
    pub index : v.index ≡ i
    pub moniker : v.moniker ≡ burnt_name
    pub from : v.mnemonic ≡ mnemonic
    pub account : v.key_info ≢ none
    pub signs : v.private_key ≢ none
    pub votes : v.consensus_key ≢ none
    pub connects : v.node_key ≢ none

  -- One validator for each mnemonic, in their order, numbered from `i`.
  abbrev pub AreMade : ℕ → List Bytes → List (Validator t) → Type 0
  AreMade i [] [] = Unit
  AreMade i (m ∷ ms) (v ∷ vs) = IsMade i m v × AreMade (suc i) ms vs
  AreMade i _ _ = ⊥

  key_made :
      (dir name mnemonic passphrase : Bytes) (s s' : Making t)
      → create_key_from_mnemonic t dir name mnemonic passphrase s ≡ (ok tt, s')
      → (s'.node.index ≡ s.node.index)
        × (s'.node.moniker ≡ s.node.moniker)
        × (s'.node.mnemonic ≡ mnemonic)
        × (s'.node.key_info ≢ none)
        × (s'.node.private_key ≢ none)
  unfolding create_key_from_mnemonic on_disk
  key_made dir name mnemonic passphrase s s' e = ground (arith, e)

  module _ (c : ChainInfo) where
    other_keys_made :
        (s s' : Making t)
        → other_keys t c s ≡ (ok tt, s')
        → (s'.node.index ≡ s.node.index)
          × (s'.node.moniker ≡ s.node.moniker)
          × (s'.node.mnemonic ≡ s.node.mnemonic)
          × (s'.node.key_info ≡ s.node.key_info)
          × (s'.node.private_key ≡ s.node.private_key)
          × (s'.node.consensus_key ≢ none)
          × (s'.node.node_key ≢ none)
    unfolding other_keys create_node_key create_consensus_key on_disk
    other_keys_made s s' e = ground (arith, e)

    node-IsMade :
        (i : ℕ) (mnemonic : Bytes) (s : Network t c) (s' : Making t)
        → (create_key_from_mnemonic t (chain_config_dir c) val_name mnemonic [] >> other_keys t c)
            (record { disk = s.disk; node = create_validator t c i })
          ≡ (ok tt, s')
        → IsMade i mnemonic s'.node
    unfolding create_validator
    node-IsMade i mnemonic s s' e =
        let start : Making t = record { disk = s.disk; node = create_validator t c i } in
        let (_, s1, first, second) =
          bind-ok (create_key_from_mnemonic t (chain_config_dir c) val_name mnemonic [])
            (λ _. other_keys t c) start s' tt e in
        let (ix, mo, mn, ki, pk) =
          key_made (chain_config_dir c) val_name mnemonic [] start s1 first in
        let (ix', mo', mn', ki', pk', ck, nk) = other_keys_made s1 s' second in
        record {
          index = ix' ∙ ix;
          moniker = mo' ∙ mo;
          from = mn' ∙ mn;
          account = rw ki' ki;
          signs = rw pk' pk;
          votes = ck;
          connects = nk;
        }

    node_appended :
        (node : Validator t) (keys : Call (Making t) (Unit {0})) (s s' : Network t c)
        → append_node t c node keys s ≡ (ok tt, s')
        → (made : Making t) × (keys (record { disk = s.disk; node = node }) ≡ (ok tt, made))
          × (s'.validators ≡ s.validators ++ made.node ∷ [])
    unfolding append_node
    node_appended node keys s s' e =
        let made = (keys (record { disk = s.disk; node = node })).1 in (made, cc, ground (arith, e))

    init_node_keeps :
        (node : Validator t) (s s1 : Network t c)
        → init_node t c node s ≡ (ok tt, s1)
        → s1.validators ≡ s.validators
    unfolding init_node
    init_node_keeps node s s1 e = ground (arith, e)

    -- A test chain that makes its validators from mnemonics, without an error, has one more
    -- validator for each mnemonic, in their order and numbered from the index of the first: each
    -- has its index, the mnemonic, and its four keys.
    pub create_and_init_validators_with_mnemonics-AreMade :
        (i : ℕ) (mnemonics : List Bytes) (s s' : Network t c)
        → create_and_init_validators_with_mnemonics t c i mnemonics s ≡ (ok tt, s')
        → (made : List (Validator t)) × (s'.validators ≡ s.validators ++ made)
          × AreMade i mnemonics made
    unfolding create_and_init_validators_with_mnemonics
    create_and_init_validators_with_mnemonics-AreMade i [] s s' e =
        ([], rw (append-nil s.validators) (ground (arith, e)), tt)
    create_and_init_validators_with_mnemonics-AreMade i (mnemonic ∷ rest) s s' e =
        let node = create_validator t c i in
        let keys =
          create_key_from_mnemonic t (chain_config_dir c) val_name mnemonic [] >> other_keys t c in
        let next = create_and_init_validators_with_mnemonics t c (suc i) rest in
        let (_, s1, started, e1) =
          bind-ok (init_node t c node) (λ _. append_node t c node keys >> next) s s' tt e in
        let (_, s2, appended, e2) = bind-ok (append_node t c node keys) (λ _. next) s1 s' tt e1 in
        let (made, keyed, one_more) = node_appended node keys s1 s2 appended in
        let (others, more, all) =
          create_and_init_validators_with_mnemonics-AreMade (suc i) rest s2 s' e2 in
        let kept : s1.validators ≡ s.validators = init_node_keeps node s s1 started in
        (
          made.node ∷ others,
          more
              ∙ ap (λ l. l ++ others) (one_more ∙ ap (λ l. l ++ made.node ∷ []) kept)
              ∙ append_assoc s.validators (made.node ∷ []) others,
          (node-IsMade i mnemonic s1 made keyed, all),
        )
