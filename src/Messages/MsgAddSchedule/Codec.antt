-- ===== src/Messages/MsgAddSchedule/Codec.antt =====
-- The wire format of MsgAddSchedule.
use burnt.Messages.MsgAddSchedule.{
  MsgAddSchedule, empty, size, marshal_to_sized_buffer, marshal, switch, unmarshal, put_signer,
  put_contract, put_call_body, put_block_height,
}
use burnt.Base.{
  ◌^◌, ◌<◌, ◌≡◌, ◌≢◌, refl, [], ◌==◌, ◌++◌, append-nil, append_assoc, Bytes, length, length-append,
  ok, panic, stuck, ◌>>=◌, arith,
}
use burnt.Base.Ends.{Ends-settles}
use burnt.Wire.Buffer.{put_bytes_field, put_varint_field}
use burnt.Wire.Groups.{IsU64}
use burnt.Wire.Reader.{int_limit}
use burnt.Wire.Written.{
  Writes, Writes-then, bytes_field, varint_field, length-bytes_field, length-varint_field,
  put_bytes_field-Writes, put_varint_field-Writes, bytes_field_size-eq-length,
  varint_field_size-eq-length, marshal_sized-Writes,
}
use burnt.Wire.Progress.{IsGood-if, IsGood-bytes, IsGood-varint, unknown, unmarshal_with-Ends}
use burnt.Wire.RoundTrip.{Reads, Reads-nil, Reads-bytes, Reads-varint, unmarshal_with-Reads}

-- A message whose fields fit the machine's integers.
abbrev pub IsSendable : MsgAddSchedule → Type 0
IsSendable m =
    (length m.signer < 2 ^ 60)
    × (length m.contract < 2 ^ 60)
    × (length m.call_body < 2 ^ 60)
    × IsU64 m.block_height

abbrev pub fields : MsgAddSchedule → Bytes
fields m =
    bytes_field 0x0a m.signer
    ++ (bytes_field 0x12 m.contract
        ++ (bytes_field 0x1a m.call_body ++ (varint_field 0x28 m.block_height ++ [])))

-- What `Marshal` writes: each field in the order of its number.
pub marshal-fields : (m : MsgAddSchedule) → IsSendable m → marshal m ≡ ok (fields m)
unfolding marshal size marshal_to_sized_buffer
marshal-fields m h = marshal_sized-Writes _ _ (fields m) counted written
  where
    counted : size m ≡ length (fields m)
    counted =
        rw
          (
            bytes_field_size-eq-length 0x0a m.signer (omega arith),
            bytes_field_size-eq-length 0x12 m.contract (omega arith),
            bytes_field_size-eq-length 0x1a m.call_body (omega arith),
            varint_field_size-eq-length 0x28 m.block_height h.3,
            length-append (bytes_field 0x0a m.signer) (
                bytes_field 0x12 m.contract
                ++ (bytes_field 0x1a m.call_body ++ (varint_field 0x28 m.block_height ++ []))),
            length-append (bytes_field 0x12 m.contract)
                (bytes_field 0x1a m.call_body ++ (varint_field 0x28 m.block_height ++ [])),
            length-append (bytes_field 0x1a m.call_body) (varint_field 0x28 m.block_height ++ []),
            length-append (varint_field 0x28 m.block_height) ([]),
          )
          (omega arith)

    written : Writes (marshal_to_sized_buffer m) (fields m)
    written = rw (append-nil (varint_field 0x28 m.block_height)) (
        rw
          (
            append_assoc ((bytes_field 0x0a m.signer) ++ (bytes_field 0x12 m.contract))
                (bytes_field 0x1a m.call_body) (varint_field 0x28 m.block_height),
            append_assoc (bytes_field 0x0a m.signer) (bytes_field 0x12 m.contract)
                ((bytes_field 0x1a m.call_body) ++ (varint_field 0x28 m.block_height)),
          )
          at
          (Writes-then (put_varint_field 0x28 m.block_height)
            (λ w.
              put_bytes_field 0x1a m.call_body w
              >>= (λ w. put_bytes_field 0x12 m.contract w >>= (put_bytes_field 0x0a m.signer)))
            (varint_field 0x28 m.block_height)
            (((bytes_field 0x0a m.signer) ++ (bytes_field 0x12 m.contract))
              ++ (bytes_field 0x1a m.call_body))
            (put_varint_field-Writes 0x28 m.block_height h.3)
            (Writes-then (put_bytes_field 0x1a m.call_body)
              (λ w. put_bytes_field 0x12 m.contract w >>= (put_bytes_field 0x0a m.signer))
              (bytes_field 0x1a m.call_body)
              ((bytes_field 0x0a m.signer) ++ (bytes_field 0x12 m.contract))
              (put_bytes_field-Writes 0x1a m.call_body (omega arith))
              (Writes-then (put_bytes_field 0x12 m.contract) (put_bytes_field 0x0a m.signer)
                (bytes_field 0x12 m.contract) (bytes_field 0x0a m.signer)
                (put_bytes_field-Writes 0x12 m.contract (omega arith))
                (put_bytes_field-Writes 0x0a m.signer (omega arith))))))

-- Unmarshal reads back a MsgAddSchedule that Marshal wrote, if its height is below 2 ^ 64 and its
-- texts are below 2 ^ 60 bytes.
pub unmarshal-marshal_add_schedule :
    (m : MsgAddSchedule) → IsSendable m → (marshal m >>= unmarshal) ≡ ok m
unfolding unmarshal
unmarshal-marshal_add_schedule m h =
    rw (marshal-fields m h) (unmarshal_with-Reads switch (fields m) empty m read)
  where
    bounded : length (fields m) < int_limit
    bounded =
        rw
          (
            length-append (bytes_field 0x0a m.signer) (
                bytes_field 0x12 m.contract
                ++ (bytes_field 0x1a m.call_body ++ (varint_field 0x28 m.block_height ++ []))),
            length-append (bytes_field 0x12 m.contract)
                (bytes_field 0x1a m.call_body ++ (varint_field 0x28 m.block_height ++ [])),
            length-append (bytes_field 0x1a m.call_body) (varint_field 0x28 m.block_height ++ []),
            length-append (varint_field 0x28 m.block_height) ([]),
          )
          (omega (
            arith,
            length-bytes_field 0x0a m.signer,
            length-bytes_field 0x12 m.contract,
            length-bytes_field 0x1a m.call_body,
            length-varint_field 0x28 m.block_height,
          ))

    read : Reads switch (length (fields m)) (fields m) empty m
    read =
        Reads-bytes switch _ 0x0a put_signer bounded (omega arith) (unfold switch in refl) m.signer
          (bytes_field 0x12 m.contract
            ++ (bytes_field 0x1a m.call_body ++ (varint_field 0x28 m.block_height ++ [])))
          (record { signer = []; contract = []; call_body = []; block_height = 0 }) m refl
          (Reads-bytes switch _ 0x12 put_contract bounded (omega arith) (unfold switch in refl)
            m.contract (bytes_field 0x1a m.call_body ++ (varint_field 0x28 m.block_height ++ []))
            (record { signer = m.signer; contract = []; call_body = []; block_height = 0 }) m refl
            (Reads-bytes switch _ 0x1a put_call_body bounded (omega arith) (unfold switch in refl)
              m.call_body (varint_field 0x28 m.block_height ++ [])
              (record {
                signer = m.signer;
                contract = m.contract;
                call_body = [];
                block_height = 0;
              })
              m refl
              (Reads-varint switch _ 0x28 put_block_height (omega arith) (unfold switch in refl)
                m.block_height ([])
                (record {
                  signer = m.signer;
                  contract = m.contract;
                  call_body = m.call_body;
                  block_height = 0;
                })
                m h.3 refl (Reads-nil switch _ m))))

-- On every input Unmarshal of a MsgAddSchedule neither panics nor runs out of rounds.
pub unmarshal_add_schedule_settles :
    (input : Bytes) → (unmarshal input ≢ panic) × (unmarshal input ≢ stuck)
unfolding unmarshal switch
unmarshal_add_schedule_settles input = Ends-settles (
    unmarshal_with-Ends switch
      (λ num. IsGood-if (num == 1) (IsGood-bytes put_signer) (
        IsGood-if (num == 2) (IsGood-bytes put_contract) (
          IsGood-if (num == 3) (IsGood-bytes put_call_body)
            (IsGood-if (num == 5) (IsGood-varint put_block_height) unknown))))
      input empty)
