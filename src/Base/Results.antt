-- ===== src/Base/Results.antt =====
-- What a Go call comes back with: a value, an error, or a panic that unwinds; and calls that also
-- change a state. `stuck` is no Go value: it says that a bounded loop of the model ran out of fuel.
use mathlib.Core.Bool.{Bool, true, false}
use mathlib.Core.Option.{Option, none, some}

-- The errors that the module registers, those of its generated codec, and the SDK's.
pub data Error : Type 0 where
  invalid_block_height unmet_minimum_balance unauthorized too_far_in_future empty_call_body : Error
  int_overflow unexpected_eof invalid_length end_group illegal_tag wrong_wire_type : Error
  unexpected_end_of_group illegal_wire_type : Error
  invalid_address out_of_gas unknown_request invalid_request invalid_json invalid_param : Error
  home_not_set wrong_arguments not_a_number vesting_too_large invalid_vesting account_exists : Error
  sdk_error : Error
  -- A status of gRPC with the text of another error.
  invalid_argument : Error → Error

pub data Result {ℓ} (A : Type ℓ) : Type ℓ where
  ok : A → Result A
  err : Error → Result A
  panic : Result A
  stuck : Result A

-- What comes after a value; an error, a panic and `stuck` go through.
infixl 5 ◌>>=◌ ◌>>◌
abbrev pub ◌>>=◌ {ℓ κ} : {A : Type ℓ} {B : Type κ} → Result A → (A → Result B) → Result B
panic >>= next = panic
stuck >>= next = stuck
err x >>= next = err x
ok a >>= next = next a

abbrev pub or_panic {ℓ} : {A : Type ℓ} → Option A → Result A
or_panic none = panic
or_panic (some a) = ok a

-- `if !test { return err }`
abbrev pub guard : Bool → Error → Result (Unit {0})
guard false x = err x
guard true x = ok tt

abbrev pub ◌>>◌ {ℓ} : {B : Type ℓ} → Result (Unit {0}) → Result B → Result B
first >> next = first >>= λ done. next
