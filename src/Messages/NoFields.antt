-- ===== src/Messages/NoFields.antt =====
-- The messages without fields of x/schedule/types/tx.pb.go, MsgAddScheduleResponse and
-- MsgRemoveScheduleResponse: `Marshal` writes nothing, and `Unmarshal` skips every field.
pub mod Codec
use burnt.Base.{ℕ, Bytes, Option, none, Result, ok}
use burnt.Wire.Buffer.{Buffer, marshal_sized}
use burnt.Wire.Reader.{Switch, unmarshal_with}

pub data NoFields : Type 0 where
  no_fields : NoFields

unfoldable pub size : NoFields → ℕ
size m = 0

unfoldable pub marshal_to_sized_buffer : NoFields → Buffer → Result Buffer
marshal_to_sized_buffer m w = ok w

unfoldable pub marshal : NoFields → Result Bytes
marshal m = marshal_sized (size m) (marshal_to_sized_buffer m)

unfoldable pub switch : Switch NoFields
switch num = none

-- Into a fresh message.
unfoldable pub unmarshal : Bytes → Result NoFields
unmarshal input = unmarshal_with switch input no_fields
