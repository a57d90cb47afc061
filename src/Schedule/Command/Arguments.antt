-- ===== src/Schedule/Command/Arguments.antt =====
-- Which arguments the two commands send on.
use burnt.Base.{◌≡◌, ◌≢◌, List, [], ◌∷◌, Bytes, length, ◌==◌, Result, ok, arith, some, false}
use burnt.Sdk.{Sdk}
use burnt.Messages.MsgAddSchedule.{MsgAddSchedule}
use burnt.Messages.MsgRemoveSchedule.{MsgRemoveSchedule}
use burnt.Schedule.MsgServer.{address, new_msg_remove_schedule, validate_basic_remove}
use burnt.Schedule.Command.{arg, add_schedule_command, remove_schedule_command}

module _ (sdk : Sdk) (from_address : Result Bytes) where
  -- Whatever its arguments and its client, the command add-schedule does not succeed.
  pub add_schedule_command_fails :
      (broadcast : MsgAddSchedule → Result (Unit {0})) (args : List Bytes)
      → add_schedule_command sdk from_address broadcast args ≢ ok tt
  unfolding add_schedule_command arg
  add_schedule_command_fails broadcast [] e = cc
  add_schedule_command_fails broadcast (a ∷ []) e = cc
  add_schedule_command_fails broadcast (a ∷ b ∷ []) e = cc
  add_schedule_command_fails broadcast (a ∷ b ∷ c ∷ []) e = ground (arith, e)
  add_schedule_command_fails broadcast (a ∷ b ∷ c ∷ d ∷ rest) e =
      let long : (length (a ∷ b ∷ c ∷ d ∷ rest) == 3) ≡ false = ground arith in
      ground (arith, e, long)

  -- Where the argument parses as an address, the client has an address, and both addresses are read
  -- back from their text form, the command remove-schedule broadcasts the message with the client
  -- as its signer and the argument as its contract.
  pub remove_schedule_command_sends :
      (broadcast : MsgRemoveSchedule → Result (Unit {0})) (text contract from : Bytes)
      → address sdk text ≡ ok contract
      → from_address ≡ ok from
      → sdk.acc_address_from_bech32 (sdk.bech32 from) ≡ some from
      → sdk.acc_address_from_bech32 (sdk.bech32 contract) ≡ some contract
      → remove_schedule_command sdk from_address broadcast (text ∷ [])
        ≡ broadcast (new_msg_remove_schedule sdk from contract)
  unfolding remove_schedule_command arg validate_basic_remove new_msg_remove_schedule
  remove_schedule_command_sends broadcast text contract from c f reads reads' = ground arith
