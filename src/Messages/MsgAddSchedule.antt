-- ===== src/Messages/MsgAddSchedule.antt =====
-- x/schedule/types/tx.pb.go: the message that adds a schedule. Addresses are in their text form.
pub mod Codec
use burnt.Base.{ℕ, Bytes, [], ◌+◌, some, none, ◌==◌, if◌then◌else◌, Result, ok, ◌>>=◌, guard}
use burnt.Wire.Buffer.{
  Buffer, put_bytes_field, put_varint_field, bytes_field_size, varint_field_size, marshal_sized,
}
use burnt.Wire.Reader.{bytes_case, varint_case, Switch, unmarshal_with}

pub record MsgAddSchedule : Type 0 where
  pub signer : Bytes
  pub contract : Bytes
  pub call_body : Bytes
  pub block_height : ℕ

abbrev pub empty : MsgAddSchedule
empty = record { signer = []; contract = []; call_body = []; block_height = 0 }

unfoldable pub size : MsgAddSchedule → ℕ
size m =
    bytes_field_size m.signer
    + bytes_field_size m.contract
    + bytes_field_size m.call_body
    + varint_field_size m.block_height

-- The last field is written first.
unfoldable pub marshal_to_sized_buffer : MsgAddSchedule → Buffer → Result Buffer
marshal_to_sized_buffer m w = do
  w1 ← put_varint_field 0x28 m.block_height w
  w2 ← put_bytes_field 0x1a m.call_body w1
  w3 ← put_bytes_field 0x12 m.contract w2
  put_bytes_field 0x0a m.signer w3

unfoldable pub marshal : MsgAddSchedule → Result Bytes
marshal m = marshal_sized (size m) (marshal_to_sized_buffer m)

abbrev pub put_signer : Bytes → MsgAddSchedule → MsgAddSchedule
put_signer v m = record {
  signer = v;
  contract = m.contract;
  call_body = m.call_body;
  block_height = m.block_height;
}

abbrev pub put_contract : Bytes → MsgAddSchedule → MsgAddSchedule
put_contract v m = record {
  signer = m.signer;
  contract = v;
  call_body = m.call_body;
  block_height = m.block_height;
}

abbrev pub put_call_body : Bytes → MsgAddSchedule → MsgAddSchedule
put_call_body v m = record {
  signer = m.signer;
  contract = m.contract;
  call_body = v;
  block_height = m.block_height;
}

abbrev pub put_block_height : ℕ → MsgAddSchedule → MsgAddSchedule
put_block_height v m = record {
  signer = m.signer;
  contract = m.contract;
  call_body = m.call_body;
  block_height = v;
}

unfoldable pub switch : Switch MsgAddSchedule
switch num =
    if num == 1
    then some (bytes_case put_signer)
    else if num == 2
    then some (bytes_case put_contract)
    else if num == 3
    then some (bytes_case put_call_body)
    else if num == 5
    then some (varint_case put_block_height)
    else none

-- Into a fresh message.
unfoldable pub unmarshal : Bytes → Result MsgAddSchedule
unmarshal input = unmarshal_with switch input empty
