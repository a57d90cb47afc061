-- ===== src/Sdk/Laws.antt =====
-- The documented behaviour of the SDK that theorems rest on.
use burnt.Base.{
  ℕ, ◌/◌, ◌%◌, ◌^◌, ◌≤◌, ◌<◌, ◌≡◌, ◌≢◌, none, some, List, [], ◌∷◌, ◌++◌, Bytes, length, ltb, ok,
  panic,
}
use burnt.Sdk.{Sdk}
use burnt.Messages.Params.{Coin}

-- The eight bytes of a uint64, the highest first.
abbrev pub big_endian : ℕ → Bytes
big_endian n =
    (n / 2 ^ 56 % 256)
    ∷ (n / 2 ^ 48 % 256)
    ∷ (n / 2 ^ 40 % 256)
    ∷ (n / 2 ^ 32 % 256)
    ∷ (n / 2 ^ 24 % 256)
    ∷ (n / 2 ^ 16 % 256)
    ∷ (n / 2 ^ 8 % 256)
    ∷ (n % 256)
    ∷ []

-- `e` stands in a list.
pub data In {ℓ} {A : Type ℓ} (e : A) : List A → Type ℓ where
  here : {l : List A} → In e (e ∷ l)
  there : {x : A} {l : List A} → In e l → In e (x ∷ l)

-- The store: writes and deletions of one key, and what an iterator over a prefix walks through.
pub record StoreLaws (sdk : Sdk) : Type 0 where
  pub get-set_self : (s : sdk.Store) (k v : Bytes) → sdk.get (sdk.set s k v) k ≡ some v
  pub get-set_ne : (s : sdk.Store) (k j v : Bytes) → k ≢ j → sdk.get (sdk.set s k v) j ≡ sdk.get s j
  pub get-delete_self : (s : sdk.Store) (k : Bytes) → sdk.get (sdk.delete s k) k ≡ none
  pub get-delete_ne :
      (s : sdk.Store) (k j : Bytes) → k ≢ j → sdk.get (sdk.delete s k) j ≡ sdk.get s j
  pub entries-complete :
      (s : sdk.Store) (p k v : Bytes) → sdk.get s (p ++ k) ≡ some v → In (k, v) (sdk.entries s p)

-- `Uint64ToBigEndian` and `BigEndianToUint64`: nil is 0, and a slice of one to seven bytes is a fault
-- of `binary.BigEndian.Uint64`.
pub record BigEndianLaws (sdk : Sdk) : Type 0 where
  pub writes : (n : ℕ) → sdk.uint64_to_big_endian n ≡ big_endian n
  pub reads : (n : ℕ) → n < 2 ^ 64 → sdk.big_endian_to_uint64 (big_endian n) ≡ ok n
  pub reads_nil : sdk.big_endian_to_uint64 [] ≡ ok 0
  pub reads_short : (b : Bytes) → 1 ≤ length b → length b < 8 → sdk.big_endian_to_uint64 b ≡ panic
  pub reads_long : (b : Bytes) → 8 ≤ length b → (n : ℕ) × (sdk.big_endian_to_uint64 b ≡ ok n)

-- Coins: `IsLT` compares coins of one denomination, `GetBalance` answers in the denomination that
-- it is asked for, and `Int.Uint64` panics out of its range.
pub record CoinLaws (sdk : Sdk) : Type 0 where
  pub compares : (a b : Coin) → a.denom ≡ b.denom → sdk.is_lt a b ≡ ok (ltb a.amount b.amount)
  pub balance_denom :
      (chain : sdk.Chain) (a denom : Bytes) → (sdk.get_balance chain a denom).denom ≡ denom
  pub fits : (n : ℕ) → n < 2 ^ 64 → sdk.int_uint64 n ≡ ok n
  pub too_large : (n : ℕ) → 2 ^ 64 ≤ n → sdk.int_uint64 n ≡ panic
