-- ===== src/Messages/Event/Executed.antt =====
-- The codec of ExecuteScheduledCallEvent in x/schedule/types/event.pb.go, over that of the SDK's coins.
pub mod Codec
use burnt.Base.{
  ℕ, Bytes, [], ◌+◌, Option, none, some, ◌==◌, if◌then◌else◌, Result, ok, ◌>>=◌, guard,
}
use burnt.Messages.Params.{Coin}
use burnt.Messages.Event.{ExecuteScheduledCallEvent}
use burnt.Wire.Buffer.{
  Buffer, put_bytes_field, put_varint_field, bytes_field_size, varint_field_size, marshal_sized,
}
use burnt.Wire.Nested
use burnt.Wire.Nested.{put_message_field, message_field_size, message_case}
use burnt.Wire.Reader.{bytes_case, varint_case, Switch, unmarshal_with}

abbrev pub empty : ExecuteScheduledCallEvent
empty = record {
  block_height = 0;
  gas = none;
  signer = [];
  contract = [];
  balance_before = none;
  call_body = [];
}

abbrev pub put_block_height : ℕ → ExecuteScheduledCallEvent → ExecuteScheduledCallEvent
put_block_height v m = record m { block_height = v }

abbrev pub put_gas : Coin → ExecuteScheduledCallEvent → ExecuteScheduledCallEvent
put_gas v m = record m { gas = some v }

abbrev pub put_signer : Bytes → ExecuteScheduledCallEvent → ExecuteScheduledCallEvent
put_signer v m = record m { signer = v }

abbrev pub put_contract : Bytes → ExecuteScheduledCallEvent → ExecuteScheduledCallEvent
put_contract v m = record m { contract = v }

abbrev pub put_balance_before : Coin → ExecuteScheduledCallEvent → ExecuteScheduledCallEvent
put_balance_before v m = record m { balance_before = some v }

abbrev pub put_call_body : Bytes → ExecuteScheduledCallEvent → ExecuteScheduledCallEvent
put_call_body v m = record m { call_body = v }

module _ (coin : Nested.Codec Coin) where
  unfoldable pub size : ExecuteScheduledCallEvent → ℕ
  size m =
      varint_field_size m.block_height
      + message_field_size coin m.gas
      + bytes_field_size m.signer
      + bytes_field_size m.contract
      + message_field_size coin m.balance_before
      + bytes_field_size m.call_body

  -- The last field is written first.
  unfoldable pub marshal_to_sized_buffer : ExecuteScheduledCallEvent → Buffer → Result Buffer
  marshal_to_sized_buffer m w = do
    w1 ← put_bytes_field 0x32 m.call_body w
    w2 ← put_message_field coin 0x2a m.balance_before w1
    w3 ← put_bytes_field 0x22 m.contract w2
    w4 ← put_bytes_field 0x1a m.signer w3
    w5 ← put_message_field coin 0x12 m.gas w4
    put_varint_field 0x08 m.block_height w5

  unfoldable pub marshal : ExecuteScheduledCallEvent → Result Bytes
  marshal m = marshal_sized (size m) (marshal_to_sized_buffer m)

  unfoldable pub switch : Switch ExecuteScheduledCallEvent
  switch num =
      if num == 1
      then some (varint_case put_block_height)
      else if num == 2
      then some (message_case coin (λ m. m.gas) put_gas)
      else if num == 3
      then some (bytes_case put_signer)
      else if num == 4
      then some (bytes_case put_contract)
      else if num == 5
      then some (message_case coin (λ m. m.balance_before) put_balance_before)
      else if num == 6
      then some (bytes_case put_call_body)
      else none

  -- Into a fresh message.
  unfoldable pub unmarshal : Bytes → Result ExecuteScheduledCallEvent
  unmarshal input = unmarshal_with switch input empty
