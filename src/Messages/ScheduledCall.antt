-- ===== src/Messages/ScheduledCall.antt =====
-- x/schedule/types/schedule.pb.go: the value that the store keeps for a scheduled call.
pub mod Codec
use burnt.Base.{
  ℕ, Bytes, [], some, none, ◌==◌, if◌then◌else◌, Result, ok, guard, ◌>>=◌, ◌>>◌, wrong_wire_type,
}
use burnt.Wire.Buffer.{Buffer, put_bytes_field, bytes_field_size, marshal_sized}
use burnt.Wire.Reader.{bytes_case, Switch, unmarshal_with}

pub record ScheduledCall : Type 0 where
  pub call_body : Bytes

abbrev pub empty : ScheduledCall
empty = record { call_body = [] }

unfoldable pub size : ScheduledCall → ℕ
size m = bytes_field_size m.call_body

unfoldable pub marshal_to_sized_buffer : ScheduledCall → Buffer → Result Buffer
marshal_to_sized_buffer m = put_bytes_field 0x0a m.call_body

unfoldable pub marshal : ScheduledCall → Result Bytes
marshal m = marshal_sized (size m) (marshal_to_sized_buffer m)

abbrev pub put_call_body : Bytes → ScheduledCall → ScheduledCall
put_call_body b m = record { call_body = b }

unfoldable pub switch : Switch ScheduledCall
switch num = if num == 1 then some (bytes_case put_call_body) else none

-- Into a fresh message, as every caller in the keeper has it.
unfoldable pub unmarshal : Bytes → Result ScheduledCall
unmarshal input = unmarshal_with switch input empty
