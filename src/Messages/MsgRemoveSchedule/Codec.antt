-- ===== src/Messages/MsgRemoveSchedule/Codec.antt =====
-- The wire format of MsgRemoveSchedule.
use burnt.Messages.MsgRemoveSchedule.{
  MsgRemoveSchedule, empty, size, marshal_to_sized_buffer, marshal, switch, unmarshal, put_signer,
  put_contract,
}
use burnt.Base.{
  ◌^◌, ◌<◌, ◌≡◌, ◌≢◌, refl, [], ◌==◌, ◌++◌, append-nil, Bytes, length, length-append, ok, panic,
  stuck, ◌>>=◌, arith,
}
use burnt.Base.Ends.{Ends-settles}
use burnt.Wire.Buffer.{put_bytes_field}
use burnt.Wire.Reader.{int_limit}
use burnt.Wire.Written.{
  Writes, Writes-then, bytes_field, length-bytes_field, put_bytes_field-Writes,
  bytes_field_size-eq-length, marshal_sized-Writes,
}
use burnt.Wire.Progress.{IsGood-if, IsGood-bytes, unknown, unmarshal_with-Ends}
use burnt.Wire.RoundTrip.{Reads, Reads-nil, Reads-bytes, unmarshal_with-Reads}

-- A message whose fields fit the machine's integers.
abbrev pub IsSendable : MsgRemoveSchedule → Type 0
IsSendable m = (length m.signer < 2 ^ 60) × (length m.contract < 2 ^ 60)

abbrev pub fields : MsgRemoveSchedule → Bytes
fields m = bytes_field 0x0a m.signer ++ (bytes_field 0x12 m.contract ++ [])

-- What `Marshal` writes: each field in the order of its number.
pub marshal-fields : (m : MsgRemoveSchedule) → IsSendable m → marshal m ≡ ok (fields m)
unfolding marshal size marshal_to_sized_buffer
marshal-fields m h = marshal_sized-Writes _ _ (fields m) counted written
  where
    counted : size m ≡ length (fields m)
    counted =
        rw
          (
            bytes_field_size-eq-length 0x0a m.signer (omega arith),
            bytes_field_size-eq-length 0x12 m.contract (omega arith),
            length-append (bytes_field 0x0a m.signer) (bytes_field 0x12 m.contract ++ []),
            length-append (bytes_field 0x12 m.contract) ([]),
          )
          (omega arith)

    written : Writes (marshal_to_sized_buffer m) (fields m)
    written = rw (append-nil (bytes_field 0x12 m.contract)) (
        Writes-then (put_bytes_field 0x12 m.contract) (put_bytes_field 0x0a m.signer)
          (bytes_field 0x12 m.contract) (bytes_field 0x0a m.signer)
          (put_bytes_field-Writes 0x12 m.contract (omega arith))
          (put_bytes_field-Writes 0x0a m.signer (omega arith)))

-- Unmarshal reads back a MsgRemoveSchedule that Marshal wrote, if its texts are below 2 ^ 60 bytes.
pub unmarshal-marshal_remove_schedule :
    (m : MsgRemoveSchedule) → IsSendable m → (marshal m >>= unmarshal) ≡ ok m
unfolding unmarshal
unmarshal-marshal_remove_schedule m h =
    rw (marshal-fields m h) (unmarshal_with-Reads switch (fields m) empty m read)
  where
    bounded : length (fields m) < int_limit
    bounded =
        rw
          (
            length-append (bytes_field 0x0a m.signer) (bytes_field 0x12 m.contract ++ []),
            length-append (bytes_field 0x12 m.contract) ([]),
          )
          (omega (arith, length-bytes_field 0x0a m.signer, length-bytes_field 0x12 m.contract))

    read : Reads switch (length (fields m)) (fields m) empty m
    read =
        Reads-bytes switch _ 0x0a put_signer bounded (omega arith) (unfold switch in refl) m.signer
          (bytes_field 0x12 m.contract ++ []) (record { signer = []; contract = [] }) m refl
          (Reads-bytes switch _ 0x12 put_contract bounded (omega arith) (unfold switch in refl)
            m.contract ([]) (record { signer = m.signer; contract = [] }) m refl
            (Reads-nil switch _ m))

-- On every input `Unmarshal` returns a message or an error: it neither panics nor runs on for
-- ever.
pub unmarshal_remove_schedule_settles :
    (input : Bytes) → (unmarshal input ≢ panic) × (unmarshal input ≢ stuck)
unfolding unmarshal switch
unmarshal_remove_schedule_settles input = Ends-settles (
    unmarshal_with-Ends switch
      (λ num.
        IsGood-if (num == 1) (IsGood-bytes put_signer)
          (IsGood-if (num == 2) (IsGood-bytes put_contract) unknown))
      input empty)
