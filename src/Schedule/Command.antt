-- ===== src/Schedule/Command.antt =====
-- The commands of x/schedule/client/cli/tx_add_schedule.go and tx_remove_schedule.go. The client
-- context and the broadcast are the SDK's.
pub mod Arguments
pub mod Queries
use burnt.Base.{
  ℕ, zero, suc, ◌+◌, ◌*◌, ◌-◌, ◌^◌, List, [], ◌∷◌, Bytes, length, ltb, leb, ◌==◌, ◌&&◌,
  if◌then◌else◌, Result, ok, err, panic, guard, ◌>>=◌, ◌>>◌, wrong_arguments, not_a_number,
}
use burnt.Sdk.{Sdk}
use burnt.Messages.MsgAddSchedule.{MsgAddSchedule}
use burnt.Messages.MsgRemoveSchedule.{MsgRemoveSchedule}
use burnt.Schedule.MsgServer.{
  address, validate_basic_add, validate_basic_remove, new_msg_add_schedule, new_msg_remove_schedule,
}

-- `args[n]`
unfoldable pub arg : ℕ → List Bytes → Result Bytes
arg n [] = panic
arg zero (x ∷ xs) = ok x
arg (suc n) (x ∷ xs) = arg n xs

-- The digits of `strconv.ParseUint(s, 10, 0)`, behind the number `n`.
unfoldable pub parse_digits : ℕ → Bytes → Result ℕ
parse_digits n [] = ok n
parse_digits n (c ∷ rest) =
    let n' = n * 10 + (c - 48) in
    let number = parse_digits n' rest in
    if leb 48 c && leb c 57 && ltb n' (2 ^ 64) then number else err not_a_number

unfoldable pub parse_uint : Bytes → Result ℕ
parse_uint [] = err not_a_number
parse_uint (c ∷ rest) = parse_digits 0 (c ∷ rest)

module _ (sdk : Sdk) (from_address : Result Bytes) where
  unfoldable pub add_schedule_command :
      (MsgAddSchedule → Result (Unit {0})) → List Bytes → Result (Unit {0})
  add_schedule_command broadcast args = do
    guard (length args == 3) wrong_arguments
    contract_text ← arg 0 args
    contract ← address sdk contract_text
    call_body ← arg 1 args
    height_text ← arg 3 args
    block_height ← parse_uint height_text
    from ← from_address
    let msg = new_msg_add_schedule sdk from contract call_body block_height
    validate_basic_add sdk msg
    broadcast msg

  unfoldable pub remove_schedule_command :
      (MsgRemoveSchedule → Result (Unit {0})) → List Bytes → Result (Unit {0})
  remove_schedule_command broadcast args = do
    guard (length args == 1) wrong_arguments
    contract_text ← arg 0 args
    contract ← address sdk contract_text
    from ← from_address
    let msg = new_msg_remove_schedule sdk from contract
    validate_basic_remove sdk msg
    broadcast msg
