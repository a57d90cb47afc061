-- ===== src/Schedule/Keys/Distinct.antt =====
-- Two scheduled calls have two keys, and the parts of a key can be read back from it. An address of
-- a signer has 20 bytes and one of a contract 32 at most.
use burnt.Base.{
  ℕ, zero, suc, ◌^◌, ◌≤◌, ◌<◌, ◌≡◌, ◌≢◌, refl, sym, ap, ◌∙◌, none, [], ◌∷◌, ◌++◌, Bytes, length,
  take, drop, take-append, drop-append, strip_prefix, trim_prefix, trim_prefix-none, arith,
}
use burnt.Sdk.{Sdk}
use burnt.Sdk.Laws.{BigEndianLaws}
use burnt.Schedule.Keys.{
  make_scheduled_call_by_block_height_prefix_key, make_scheduled_call_by_block_height_key,
  make_scheduled_call_by_signer_contract_key, scheduled_call_by_name_key_prefix,
  scheduled_call_by_block_height_key_prefix,
}
use burnt.Schedule.Consume.{split_key}

abbrev pub IsSigner : Bytes → Type 0
IsSigner a = length a ≡ 20

abbrev pub IsContract : Bytes → Type 0
IsContract a = length a ≤ 32

pub take_all : (n : ℕ) (b : Bytes) → length b ≤ n → take n b ≡ b
take_all zero [] h = refl
take_all zero (x ∷ b) h = absurd (omega arith)
take_all (suc n) [] h = refl
take_all (suc n) (x ∷ b) h = ap (◌∷◌ x) (take_all n b (omega arith))

append-injective : (a b c d : Bytes) → length a ≡ length b → a ++ c ≡ b ++ d → (a ≡ b) × (c ≡ d)
append-injective a b c d e h = (fronts, backs)
  where
    fronts : a ≡ b
    fronts = sym (take-append a c) ∙ rw (e, h) (take-append b d)

    backs : c ≡ d
    backs = sym (drop-append a c) ∙ rw (e, h) (drop-append b d)

pub take_front : (n : ℕ) (a c : Bytes) → length a ≡ n → take n (a ++ c) ≡ a
take_front n a c e = rw (← e) (take-append a c)

pub drop_front : (n : ℕ) (a c : Bytes) → length a ≡ n → drop n (a ++ c) ≡ c
drop_front n a c e = rw (← e) (drop-append a c)

-- The loop over the due calls reads a signer of 20 bytes and a contract of at most 32 back from
-- their key, if the signer and the contract do not begin with the prefix that is cut off once more.
pub split_key-trim_prefix :
    (prefix_key signer contract : Bytes)
    → IsSigner signer
    → IsContract contract
    → strip_prefix prefix_key (signer ++ contract) ≡ none
    → split_key (trim_prefix (signer ++ contract) prefix_key) ≡ (signer, contract)
unfolding split_key
split_key-trim_prefix prefix_key signer contract s c e = rw (
  trim_prefix-none prefix_key (signer ++ contract) e,
  take_front 20 signer contract s,
  drop_front 20 signer contract s,
  take_all 32 contract c,
)

-- A key by name is no key by block height.
pub name_key-ne-height_key :
    (sdk : Sdk) (h : ℕ) (s c s' c' : Bytes)
    → make_scheduled_call_by_signer_contract_key s c
      ≢ make_scheduled_call_by_block_height_key sdk h s' c'
unfolding make_scheduled_call_by_signer_contract_key make_scheduled_call_by_block_height_key
    make_scheduled_call_by_block_height_prefix_key
name_key-ne-height_key sdk h s c s' c' e = absurd (omega (arith, first e))
  where
    first :
        scheduled_call_by_name_key_prefix ∷ (s ++ c)
          ≡ scheduled_call_by_block_height_key_prefix ∷ (sdk.uint64_to_big_endian h ++ (s' ++ c'))
        → ◌≡◌ {A = ℕ} 2 1
    first e = cc

-- Two calls of signers with addresses of one length have one key by name only if they are the same.
pub name_key-injective :
    (s c s' c' : Bytes)
    → length s ≡ length s'
    → make_scheduled_call_by_signer_contract_key s c
      ≡ make_scheduled_call_by_signer_contract_key s' c'
    → (s ≡ s') × (c ≡ c')
unfolding make_scheduled_call_by_signer_contract_key
name_key-injective s c s' c' e h = append-injective s s' c c' e (cc)

module _ (sdk : Sdk) (be : BigEndianLaws sdk) where
  uint64-injective :
      (m n : ℕ)
      → m < 2 ^ 64
      → n < 2 ^ 64
      → sdk.uint64_to_big_endian m ≡ sdk.uint64_to_big_endian n
      → m ≡ n
  uint64-injective m n hm hn e = cc (be.writes m, be.writes n, be.reads m hm, be.reads n hn)

  -- The height and what stands behind it can be read back from a key by block height.
  pub height_key_parts :
      (h h' : ℕ) (s c s' c' : Bytes)
      → h < 2 ^ 64
      → h' < 2 ^ 64
      → make_scheduled_call_by_block_height_key sdk h s c
        ≡ make_scheduled_call_by_block_height_key sdk h' s' c'
      → (h ≡ h') × (s ++ c ≡ s' ++ c')
  unfolding make_scheduled_call_by_block_height_key make_scheduled_call_by_block_height_prefix_key
  height_key_parts h h' s c s' c' b b' k =
      let (heights, rest) =
        append-injective (sdk.uint64_to_big_endian h) (sdk.uint64_to_big_endian h') (s ++ c)
          (s' ++ c') lengths (cc) in
      (uint64-injective h h' b b' heights, rest)
    where
      lengths : length (sdk.uint64_to_big_endian h) ≡ length (sdk.uint64_to_big_endian h')
      lengths = rw (be.writes h, be.writes h') refl

  -- With the laws of big-endian numbers: two keys by block height, at heights below 2 ^ 64 and with
  -- signers of the same length, are equal only if the heights, the signers and the contracts are.
  pub height_key-injective :
      (h h' : ℕ) (s c s' c' : Bytes)
      → h < 2 ^ 64
      → h' < 2 ^ 64
      → length s ≡ length s'
      → make_scheduled_call_by_block_height_key sdk h s c
        ≡ make_scheduled_call_by_block_height_key sdk h' s' c'
      → (h ≡ h') × (s ≡ s') × (c ≡ c')
  height_key-injective h h' s c s' c' b b' e k =
      let (heights, rest) = height_key_parts h h' s c s' c' b b' k in
      let (signers, contracts) = append-injective s s' c c' e rest in (heights, signers, contracts)
