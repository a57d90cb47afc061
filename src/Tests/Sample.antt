-- ===== src/Tests/Sample.antt =====
-- A concrete SDK. Every account holds the balance that the chain's state is; a contract is owned by
-- its signer if its address begins with 1; a call answers with its own message, except that one
-- that begins with 255 fails.
use burnt.Base.{
  ℕ, ◌+◌, ◌*◌, ◌-◌, ◌^◌, ◌<◌, ◌≤◌, ◌≡◌, refl, Bool, true, false, some, none, [], ◌∷◌, Bytes, length,
  ltb, ◌==◌, if◌then◌else◌, Result, ok, panic, sdk_error, arith, ap,
}
use burnt.Sdk.{Sdk, Executed, finished}
use burnt.Sdk.Laws.{big_endian, StoreLaws, BigEndianLaws, CoinLaws}
use burnt.Tests.Store.{
  Entries, get, set, delete, entries, get-set_self, get-set_ne, get-delete_self, get-delete_ne,
  entries_complete,
}

abbrev pub read_big_endian : Bytes → Result ℕ
read_big_endian [] = ok 0
read_big_endian (a ∷ b ∷ c ∷ d ∷ e ∷ f ∷ g ∷ h ∷ rest) =
    ok (a * 2 ^ 56 + b * 2 ^ 48 + c * 2 ^ 40 + d * 2 ^ 32 + e * 2 ^ 24 + f * 2 ^ 16 + g * 2 ^ 8 + h)
read_big_endian _ = panic

abbrev run : Entries × ℕ → Bytes → Bytes → Bytes → ℕ → Executed × (Entries × ℕ)
run state contract sender [] gas_limit = (finished [] none 3, state)
run state contract sender (b ∷ msg) gas_limit =
    if b == 255 then (finished [] (some sdk_error) 3, state) else (finished (b ∷ msg) none 3, state)

abbrev starts_with_one : Bytes → Bool
starts_with_one [] = false
starts_with_one (b ∷ _) = b == 1

abbrev pub sample : Sdk
sample = record {
  Store = Entries;
  get = get;
  set = set;
  delete = delete;
  entries = entries;
  Chain = ℕ;
  query_smart = λ chain contract query. ok contract;
  get_balance = λ chain account denom. record { denom = denom; amount = chain };
  send_coins_from_account_to_module = λ chain account target coins. (ok tt, chain - 3);
  execute = run;
  fee_collector_name = b'f' ∷ [];
  can_emit = λ event. true;
  acc_address_from_bech32 = λ text. if length text == 0 then none else some text;
  bech32 = λ address. address;
  uint64_to_big_endian = big_endian;
  big_endian_to_uint64 = read_big_endian;
  is_lt = λ a b. ok (ltb a.amount b.amount);
  int_uint64 = λ n. if ltb n (2 ^ 64) then ok n else panic;
  validate_denom = λ denom. ltb 0 (length denom);
  owner_query = λ address. address;
  parse_is_owner = λ answer. some (starts_with_one answer);
}

pub sample_store : StoreLaws sample
sample_store = record {
  get-set_self = get-set_self;
  get-set_ne = get-set_ne;
  get-delete_self = get-delete_self;
  get-delete_ne = get-delete_ne;
  entries-complete = entries_complete;
}

reads_short : (b : Bytes) → 1 ≤ length b → length b < 8 → read_big_endian b ≡ panic
reads_short [] one short = absurd (omega arith)
reads_short (a ∷ []) one short = refl
reads_short (a ∷ b ∷ []) one short = refl
reads_short (a ∷ b ∷ c ∷ []) one short = refl
reads_short (a ∷ b ∷ c ∷ d ∷ []) one short = refl
reads_short (a ∷ b ∷ c ∷ d ∷ e ∷ []) one short = refl
reads_short (a ∷ b ∷ c ∷ d ∷ e ∷ f ∷ []) one short = refl
reads_short (a ∷ b ∷ c ∷ d ∷ e ∷ f ∷ g ∷ []) one short = refl
reads_short (a ∷ b ∷ c ∷ d ∷ e ∷ f ∷ g ∷ h ∷ rest) one short = absurd (omega arith)

reads_long : (b : Bytes) → 8 ≤ length b → (n : ℕ) × (read_big_endian b ≡ ok n)
reads_long [] long = absurd (omega arith)
reads_long (a ∷ []) long = absurd (omega arith)
reads_long (a ∷ b ∷ []) long = absurd (omega arith)
reads_long (a ∷ b ∷ c ∷ []) long = absurd (omega arith)
reads_long (a ∷ b ∷ c ∷ d ∷ []) long = absurd (omega arith)
reads_long (a ∷ b ∷ c ∷ d ∷ e ∷ []) long = absurd (omega arith)
reads_long (a ∷ b ∷ c ∷ d ∷ e ∷ f ∷ []) long = absurd (omega arith)
reads_long (a ∷ b ∷ c ∷ d ∷ e ∷ f ∷ g ∷ []) long = absurd (omega arith)
reads_long (a ∷ b ∷ c ∷ d ∷ e ∷ f ∷ g ∷ h ∷ rest) long = (_, refl)

-- Each step takes the next eight bits.
reads : (n : ℕ) → n < 2 ^ 64 → read_big_endian (big_endian n) ≡ ok n
reads n h = ap ok (omega arith)

pub sample_big_endian : BigEndianLaws sample
sample_big_endian = record {
  writes = λ n. refl;
  reads = reads;
  reads_nil = refl;
  reads_short = reads_short;
  reads_long = reads_long;
}

pub sample_coins : CoinLaws sample
sample_coins = record {
  compares = λ a b e. refl;
  balance_denom = λ chain a denom. refl;
  fits = λ n h. ground arith;
  too_large = λ n h. ground arith;
}
