-- ===== src/Messages/QueryScheduledCall/Codec.antt =====
-- The wire format of QueryScheduledCall.
use burnt.Messages.QueryScheduledCall.{
  QueryScheduledCall, empty, size, marshal_to_sized_buffer, marshal, switch, unmarshal,
  put_contract, put_call_body, put_height, put_signer,
}
use burnt.Base.{
  ◌^◌, ◌<◌, ◌≡◌, ◌≢◌, refl, [], ◌==◌, ◌++◌, append-nil, append_assoc, Bytes, length, length-append,
  ok, panic, stuck, ◌>>=◌, arith,
}
use burnt.Base.Ends.{Ends-settles}
use burnt.Wire.Buffer.{put_bytes_field, put_varint_field}
use burnt.Wire.Groups.{IsU64}
use burnt.Wire.Reader.{int_limit}
use burnt.Wire.Written.{
  Writes, Writes-then, bytes_field, varint_field, length-bytes_field, length-varint_field,
  put_bytes_field-Writes, put_varint_field-Writes, bytes_field_size-eq-length,
  varint_field_size-eq-length, marshal_sized-Writes,
}
use burnt.Wire.Progress.{IsGood-if, IsGood-bytes, IsGood-varint, unknown, unmarshal_with-Ends}
use burnt.Wire.RoundTrip.{Reads, Reads-nil, Reads-bytes, Reads-varint, unmarshal_with-Reads}

-- A message whose fields fit the machine's integers.
abbrev pub IsSendable : QueryScheduledCall → Type 0
IsSendable m =
    (length m.contract < 2 ^ 60)
    × (length m.call_body < 2 ^ 60)
    × IsU64 m.height
    × (length m.signer < 2 ^ 60)

abbrev pub fields : QueryScheduledCall → Bytes
fields m =
    bytes_field 0x0a m.contract
    ++ (bytes_field 0x12 m.call_body
        ++ (varint_field 0x18 m.height ++ (bytes_field 0x22 m.signer ++ [])))

-- What `Marshal` writes: each field in the order of its number.
pub marshal-fields : (m : QueryScheduledCall) → IsSendable m → marshal m ≡ ok (fields m)
unfolding marshal size marshal_to_sized_buffer
marshal-fields m h = marshal_sized-Writes _ _ (fields m) counted written
  where
    counted : size m ≡ length (fields m)
    counted =
        rw
          (
            bytes_field_size-eq-length 0x0a m.contract (omega arith),
            bytes_field_size-eq-length 0x12 m.call_body (omega arith),
            varint_field_size-eq-length 0x18 m.height h.2,
            bytes_field_size-eq-length 0x22 m.signer (omega arith),
            length-append (bytes_field 0x0a m.contract) (
                bytes_field 0x12 m.call_body
                ++ (varint_field 0x18 m.height ++ (bytes_field 0x22 m.signer ++ []))),
            length-append (bytes_field 0x12 m.call_body)
                (varint_field 0x18 m.height ++ (bytes_field 0x22 m.signer ++ [])),
            length-append (varint_field 0x18 m.height) (bytes_field 0x22 m.signer ++ []),
            length-append (bytes_field 0x22 m.signer) ([]),
          )
          (omega arith)

    written : Writes (marshal_to_sized_buffer m) (fields m)
    written = rw (append-nil (bytes_field 0x22 m.signer)) (
        rw
          (
            append_assoc ((bytes_field 0x0a m.contract) ++ (bytes_field 0x12 m.call_body))
                (varint_field 0x18 m.height) (bytes_field 0x22 m.signer),
            append_assoc (bytes_field 0x0a m.contract) (bytes_field 0x12 m.call_body)
                ((varint_field 0x18 m.height) ++ (bytes_field 0x22 m.signer)),
          )
          at
          (Writes-then (put_bytes_field 0x22 m.signer)
            (λ w.
              put_varint_field 0x18 m.height w
              >>= (λ w. put_bytes_field 0x12 m.call_body w >>= (put_bytes_field 0x0a m.contract)))
            (bytes_field 0x22 m.signer)
            (((bytes_field 0x0a m.contract) ++ (bytes_field 0x12 m.call_body))
              ++ (varint_field 0x18 m.height))
            (put_bytes_field-Writes 0x22 m.signer (omega arith))
            (Writes-then (put_varint_field 0x18 m.height)
              (λ w. put_bytes_field 0x12 m.call_body w >>= (put_bytes_field 0x0a m.contract))
              (varint_field 0x18 m.height)
              ((bytes_field 0x0a m.contract) ++ (bytes_field 0x12 m.call_body))
              (put_varint_field-Writes 0x18 m.height h.2)
              (Writes-then (put_bytes_field 0x12 m.call_body) (put_bytes_field 0x0a m.contract)
                (bytes_field 0x12 m.call_body) (bytes_field 0x0a m.contract)
                (put_bytes_field-Writes 0x12 m.call_body (omega arith))
                (put_bytes_field-Writes 0x0a m.contract (omega arith))))))

-- Unmarshal reads back a QueryScheduledCall that Marshal wrote, if its height is below 2 ^ 64 and
-- its texts are below 2 ^ 60 bytes.
pub unmarshal-marshal_listed_call :
    (m : QueryScheduledCall) → IsSendable m → (marshal m >>= unmarshal) ≡ ok m
unfolding unmarshal
unmarshal-marshal_listed_call m h =
    rw (marshal-fields m h) (unmarshal_with-Reads switch (fields m) empty m read)
  where
    bounded : length (fields m) < int_limit
    bounded =
        rw
          (
            length-append (bytes_field 0x0a m.contract) (
                bytes_field 0x12 m.call_body
                ++ (varint_field 0x18 m.height ++ (bytes_field 0x22 m.signer ++ []))),
            length-append (bytes_field 0x12 m.call_body)
                (varint_field 0x18 m.height ++ (bytes_field 0x22 m.signer ++ [])),
            length-append (varint_field 0x18 m.height) (bytes_field 0x22 m.signer ++ []),
            length-append (bytes_field 0x22 m.signer) ([]),
          )
          (omega (
            arith,
            length-bytes_field 0x0a m.contract,
            length-bytes_field 0x12 m.call_body,
            length-varint_field 0x18 m.height,
            length-bytes_field 0x22 m.signer,
          ))

    read : Reads switch (length (fields m)) (fields m) empty m
    read =
        Reads-bytes switch _ 0x0a put_contract bounded (omega arith) (unfold switch in refl)
          m.contract
          (bytes_field 0x12 m.call_body
            ++ (varint_field 0x18 m.height ++ (bytes_field 0x22 m.signer ++ [])))
          (record { contract = []; call_body = []; height = 0; signer = [] }) m refl
          (Reads-bytes switch _ 0x12 put_call_body bounded (omega arith) (unfold switch in refl)
            m.call_body (varint_field 0x18 m.height ++ (bytes_field 0x22 m.signer ++ []))
            (record { contract = m.contract; call_body = []; height = 0; signer = [] }) m refl
            (Reads-varint switch _ 0x18 put_height (omega arith) (unfold switch in refl) m.height
              (bytes_field 0x22 m.signer ++ [])
              (record { contract = m.contract; call_body = m.call_body; height = 0; signer = [] }) m
              h.2 refl
              (Reads-bytes switch _ 0x22 put_signer bounded (omega arith) (unfold switch in refl)
                m.signer ([])
                (record {
                  contract = m.contract;
                  call_body = m.call_body;
                  height = m.height;
                  signer = [];
                })
                m refl (Reads-nil switch _ m))))

-- On every input `Unmarshal` returns a message or an error: it neither panics nor runs on for
-- ever.
pub unmarshal_listed_call_settles :
    (input : Bytes) → (unmarshal input ≢ panic) × (unmarshal input ≢ stuck)
unfolding unmarshal switch
unmarshal_listed_call_settles input = Ends-settles (
    unmarshal_with-Ends switch
      (λ num. IsGood-if (num == 1) (IsGood-bytes put_contract) (
        IsGood-if (num == 2) (IsGood-bytes put_call_body) (
          IsGood-if (num == 3) (IsGood-varint put_height)
            (IsGood-if (num == 4) (IsGood-bytes put_signer) unknown))))
      input empty)
