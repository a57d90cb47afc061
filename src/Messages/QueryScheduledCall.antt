-- ===== src/Messages/QueryScheduledCall.antt =====
-- x/schedule/types/query.pb.go: a scheduled call as the query lists it. The contract is in its text form, the signer is raw.
pub mod Codec
use burnt.Base.{ℕ, Bytes, [], ◌+◌, some, none, ◌==◌, if◌then◌else◌, Result, ok, ◌>>=◌, guard}
use burnt.Wire.Buffer.{
  Buffer, put_bytes_field, put_varint_field, bytes_field_size, varint_field_size, marshal_sized,
}
use burnt.Wire.Reader.{bytes_case, varint_case, Switch, unmarshal_with}

pub record QueryScheduledCall : Type 0 where
  pub contract : Bytes
  pub call_body : Bytes
  pub height : ℕ
  pub signer : Bytes

abbrev pub empty : QueryScheduledCall
empty = record { contract = []; call_body = []; height = 0; signer = [] }

unfoldable pub size : QueryScheduledCall → ℕ
size m =
    bytes_field_size m.contract
    + bytes_field_size m.call_body
    + varint_field_size m.height
    + bytes_field_size m.signer

-- The last field is written first.
unfoldable pub marshal_to_sized_buffer : QueryScheduledCall → Buffer → Result Buffer
marshal_to_sized_buffer m w = do
  w1 ← put_bytes_field 0x22 m.signer w
  w2 ← put_varint_field 0x18 m.height w1
  w3 ← put_bytes_field 0x12 m.call_body w2
  put_bytes_field 0x0a m.contract w3

unfoldable pub marshal : QueryScheduledCall → Result Bytes
marshal m = marshal_sized (size m) (marshal_to_sized_buffer m)

abbrev pub put_contract : Bytes → QueryScheduledCall → QueryScheduledCall
put_contract v m = record {
  contract = v;
  call_body = m.call_body;
  height = m.height;
  signer = m.signer;
}

abbrev pub put_call_body : Bytes → QueryScheduledCall → QueryScheduledCall
put_call_body v m = record {
  contract = m.contract;
  call_body = v;
  height = m.height;
  signer = m.signer;
}

abbrev pub put_height : ℕ → QueryScheduledCall → QueryScheduledCall
put_height v m = record {
  contract = m.contract;
  call_body = m.call_body;
  height = v;
  signer = m.signer;
}

abbrev pub put_signer : Bytes → QueryScheduledCall → QueryScheduledCall
put_signer v m = record {
  contract = m.contract;
  call_body = m.call_body;
  height = m.height;
  signer = v;
}

unfoldable pub switch : Switch QueryScheduledCall
switch num =
    if num == 1
    then some (bytes_case put_contract)
    else if num == 2
    then some (bytes_case put_call_body)
    else if num == 3
    then some (varint_case put_height)
    else if num == 4
    then some (bytes_case put_signer)
    else none

-- Into a fresh message.
unfoldable pub unmarshal : Bytes → Result QueryScheduledCall
unmarshal input = unmarshal_with switch input empty
