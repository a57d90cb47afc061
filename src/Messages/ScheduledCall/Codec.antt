-- ===== src/Messages/ScheduledCall/Codec.antt =====
-- The value of a scheduled call survives the store, and reading any bytes comes to an end.
use burnt.Base.{
  ◌^◌, ◌<◌, ◌≡◌, ◌≢◌, refl, [], ◌∷◌, ◌==◌, append-nil, Bytes, length, ok, err, panic, stuck,
  illegal_tag, ◌>>=◌, arith,
}
use burnt.Base.Ends.{Ends-settles}
use burnt.Wire.Varint.{read_varint}
use burnt.Wire.Reader.{int_limit, read_field, read_fields, unmarshal_with}
use burnt.Wire.Written.{
  bytes_field, length-bytes_field, put_bytes_field-Writes, bytes_field_size-eq-length,
  marshal_sized-Writes,
}
use burnt.Wire.Progress.{IsGood-if, IsGood-bytes, unknown, unmarshal_with-Ends}
use burnt.Wire.RoundTrip.{Reads, Reads-nil, Reads-bytes, unmarshal_with-Reads}
use burnt.Messages.ScheduledCall.{
  ScheduledCall, empty, size, marshal_to_sized_buffer, marshal, put_call_body, switch, unmarshal,
}

-- What `Marshal` writes.
pub marshal-field :
    (m : ScheduledCall)
    → length m.call_body < 2 ^ 62
    → marshal m ≡ ok (bytes_field 0x0a m.call_body)
unfolding marshal size marshal_to_sized_buffer
marshal-field m h =
    marshal_sized-Writes _ _ (bytes_field 0x0a m.call_body)
      (bytes_field_size-eq-length 0x0a m.call_body (omega arith))
      (put_bytes_field-Writes 0x0a m.call_body (omega arith))

-- Unmarshal reads back a ScheduledCall that Marshal wrote, if its body is below 2 ^ 62 bytes.
pub unmarshal-marshal :
    (m : ScheduledCall) → length m.call_body < 2 ^ 62 → (marshal m >>= unmarshal) ≡ ok m
unfolding unmarshal
unmarshal-marshal m h = rw (marshal-field m h) (unmarshal_with-Reads switch _ empty m (read h))
  where
    bounded : length m.call_body < 2 ^ 62 → length (bytes_field 0x0a m.call_body) < int_limit
    bounded h = omega (arith, length-bytes_field 0x0a m.call_body)

    read :
        length m.call_body < 2 ^ 62
        → Reads switch
            (length (bytes_field 0x0a m.call_body))
            (bytes_field 0x0a m.call_body)
            empty
            m
    read h = rw append-nil at (
        Reads-bytes switch _ 0x0a put_call_body (bounded h) (omega arith) (unfold switch in refl)
          m.call_body [] empty m refl (Reads-nil switch _ m))

pub unmarshal-field :
    (m : ScheduledCall)
    → length m.call_body < 2 ^ 62
    → unmarshal (bytes_field 0x0a m.call_body) ≡ ok m
unmarshal-field m h = rw (marshal-field m h) at (unmarshal-marshal m h)

-- On every input Unmarshal of a ScheduledCall neither panics nor runs out of rounds.
pub unmarshal_settles : (input : Bytes) → (unmarshal input ≢ panic) × (unmarshal input ≢ stuck)
unfolding unmarshal switch
unmarshal_settles input = Ends-settles (
    unmarshal_with-Ends switch (λ num. IsGood-if (num == 1) (IsGood-bytes put_call_body) unknown)
      input empty)

-- A value that begins with a zero byte is no scheduled call.
pub unmarshal-zero_byte : (rest : Bytes) → unmarshal (0 ∷ rest) ≡ err illegal_tag
unfolding unmarshal unmarshal_with read_fields read_field read_varint
unmarshal-zero_byte rest = refl
