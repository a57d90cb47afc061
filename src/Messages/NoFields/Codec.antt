-- ===== src/Messages/NoFields/Codec.antt =====
-- The wire format of the messages without fields.
use burnt.Base.{◌≡◌, ◌≢◌, refl, Bytes, ok, panic, stuck, ◌>>=◌}
use burnt.Base.Ends.{Ends-settles}
use burnt.Wire.Buffer.{marshal_sized}
use burnt.Wire.Reader.{read_fields, unmarshal_with}
use burnt.Wire.Progress.{unknown, unmarshal_with-Ends}
use burnt.Messages.NoFields.{
  NoFields, no_fields, size, marshal_to_sized_buffer, marshal, switch, unmarshal,
}

-- `Unmarshal` reads back the message that `Marshal` wrote.
pub unmarshal-marshal_no_fields : (m : NoFields) → (marshal m >>= unmarshal) ≡ ok m
unfolding marshal size marshal_to_sized_buffer marshal_sized unmarshal unmarshal_with read_fields
unmarshal-marshal_no_fields no_fields = refl

-- On every input `Unmarshal` returns the message or an error: it neither panics nor runs on for
-- ever.
pub unmarshal_no_fields_settles :
    (input : Bytes) → (unmarshal input ≢ panic) × (unmarshal input ≢ stuck)
unfolding unmarshal switch
unmarshal_no_fields_settles input =
    Ends-settles (unmarshal_with-Ends switch (λ num. unknown) input no_fields)
