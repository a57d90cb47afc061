-- ===== src/Messages/MsgRemoveSchedule.antt =====
-- x/schedule/types/tx.pb.go: the message that removes a schedule. Addresses are in their text form.
pub mod Codec
use burnt.Base.{ℕ, Bytes, [], ◌+◌, some, none, ◌==◌, if◌then◌else◌, Result, ok, ◌>>=◌, guard}
use burnt.Wire.Buffer.{
  Buffer, put_bytes_field, put_varint_field, bytes_field_size, varint_field_size, marshal_sized,
}
use burnt.Wire.Reader.{bytes_case, varint_case, Switch, unmarshal_with}

pub record MsgRemoveSchedule : Type 0 where
  pub signer : Bytes
  pub contract : Bytes

abbrev pub empty : MsgRemoveSchedule
empty = record { signer = []; contract = [] }

unfoldable pub size : MsgRemoveSchedule → ℕ
size m = bytes_field_size m.signer + bytes_field_size m.contract

-- The last field is written first.
unfoldable pub marshal_to_sized_buffer : MsgRemoveSchedule → Buffer → Result Buffer
marshal_to_sized_buffer m w = do
  w1 ← put_bytes_field 0x12 m.contract w
  put_bytes_field 0x0a m.signer w1

unfoldable pub marshal : MsgRemoveSchedule → Result Bytes
marshal m = marshal_sized (size m) (marshal_to_sized_buffer m)

abbrev pub put_signer : Bytes → MsgRemoveSchedule → MsgRemoveSchedule
put_signer v m = record { signer = v; contract = m.contract }

abbrev pub put_contract : Bytes → MsgRemoveSchedule → MsgRemoveSchedule
put_contract v m = record { signer = m.signer; contract = v }

unfoldable pub switch : Switch MsgRemoveSchedule
switch num =
    if num == 1
    then some (bytes_case put_signer)
    else if num == 2
    then some (bytes_case put_contract)
    else none

-- Into a fresh message.
unfoldable pub unmarshal : Bytes → Result MsgRemoveSchedule
unmarshal input = unmarshal_with switch input empty
