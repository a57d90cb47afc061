-- ===== src/Messages/Event/Executed/Codec.antt =====
-- The wire format of ExecuteScheduledCallEvent.
use burnt.Base.{
  ◌+◌, ◌^◌, ◌<◌, ◌≡◌, refl, [], none, some, ◌++◌, append-nil, append_assoc, Bytes, length,
  length-append, ok, ◌>>=◌, arith, Option, Result, ℕ,
}
use burnt.Messages.Params.{Coin}
use burnt.Messages.Event.{ExecuteScheduledCallEvent}
use burnt.Messages.Event.Executed.{
  empty, size, marshal_to_sized_buffer, marshal, switch, unmarshal, put_block_height, put_gas,
  put_signer, put_contract, put_balance_before, put_call_body,
}
use burnt.Wire.Buffer.{Buffer, put_bytes_field, put_varint_field}
use burnt.Wire.Groups.{IsU64}
use burnt.Wire.Nested.{
  Codec, CodecLaws, IsShort, message_field, put_message_field, put_message_field-Writes,
  message_field_size-eq-length, length-message_field, Reads-message,
}
use burnt.Wire.Reader.{int_limit}
use burnt.Wire.Written.{
  Writes, Writes-then, bytes_field, varint_field, length-bytes_field, length-varint_field,
  put_bytes_field-Writes, put_varint_field-Writes, bytes_field_size-eq-length,
  varint_field_size-eq-length, marshal_sized-Writes,
}
use burnt.Wire.RoundTrip.{Reads, Reads-nil, Reads-bytes, Reads-varint, unmarshal_with-Reads}

module _ (coin : Codec Coin) (laws : CodecLaws coin) where
  -- An event whose fields fit the machine's integers.
  pub record IsEmittable (m : ExecuteScheduledCallEvent) : Type 0 where
    pub height : IsU64 m.block_height
    pub gas : IsShort coin laws m.gas
    pub signer : length m.signer < 2 ^ 60
    pub contract : length m.contract < 2 ^ 60
    pub balance : IsShort coin laws m.balance_before
    pub body : length m.call_body < 2 ^ 60

  length_message :
      (tag : ℕ) (o : Option Coin)
      → IsShort coin laws o
      → length (message_field coin laws tag o) < 2 ^ 60 + 11
  length_message tag none h = omega (arith, length-message_field coin laws tag none)
  length_message tag (some c) h = omega (arith, h, length-message_field coin laws tag (some c))

  module _ (m : ExecuteScheduledCallEvent) where
    abbrev height_field : Bytes
    height_field = varint_field 0x08 m.block_height

    abbrev gas_field : Bytes
    gas_field = message_field coin laws 0x12 m.gas

    abbrev signer_field : Bytes
    signer_field = bytes_field 0x1a m.signer

    abbrev contract_field : Bytes
    contract_field = bytes_field 0x22 m.contract

    abbrev balance_field : Bytes
    balance_field = message_field coin laws 0x2a m.balance_before

    abbrev body_field : Bytes
    body_field = bytes_field 0x32 m.call_body

    abbrev fields : Bytes
    fields =
        height_field
        ++ (gas_field
            ++ (signer_field ++ (contract_field ++ (balance_field ++ (body_field ++ [])))))

    regroup :
        ((((height_field ++ gas_field) ++ signer_field) ++ contract_field) ++ balance_field)
          ++ body_field
        ≡ fields
    regroup = simp (append_assoc, append-nil)

    length-fields :
        length fields
        ≡ length height_field
          + (length gas_field
              + (length signer_field
                  + (length contract_field + (length balance_field + length body_field))))
    length-fields = simp (length-append, append-nil)

    written : IsEmittable m → Writes (marshal_to_sized_buffer coin m) fields
    unfolding marshal_to_sized_buffer
    written h = rw regroup at w6
      where
        p1 : Buffer → Result Buffer
        p1 = put_varint_field 0x08 m.block_height

        p2 : Buffer → Result Buffer
        p2 w = put_message_field coin 0x12 m.gas w >>= p1

        p3 : Buffer → Result Buffer
        p3 w = put_bytes_field 0x1a m.signer w >>= p2

        p4 : Buffer → Result Buffer
        p4 w = put_bytes_field 0x22 m.contract w >>= p3

        p5 : Buffer → Result Buffer
        p5 w = put_message_field coin 0x2a m.balance_before w >>= p4

        w2 : Writes p2 (height_field ++ gas_field)
        w2 =
            Writes-then (put_message_field coin 0x12 m.gas) p1 gas_field height_field
              (put_message_field-Writes coin laws 0x12 m.gas h.gas)
              (put_varint_field-Writes 0x08 m.block_height h.height)

        w3 : Writes p3 ((height_field ++ gas_field) ++ signer_field)
        w3 =
            Writes-then (put_bytes_field 0x1a m.signer) p2 signer_field _
              (put_bytes_field-Writes 0x1a m.signer (omega (arith, h.signer))) w2

        w4 : Writes p4 (((height_field ++ gas_field) ++ signer_field) ++ contract_field)
        w4 =
            Writes-then (put_bytes_field 0x22 m.contract) p3 contract_field _
              (put_bytes_field-Writes 0x22 m.contract (omega (arith, h.contract))) w3

        w5 :
            Writes p5
              ((((height_field ++ gas_field) ++ signer_field) ++ contract_field) ++ balance_field)
        w5 =
            Writes-then (put_message_field coin 0x2a m.balance_before) p4 balance_field _
              (put_message_field-Writes coin laws 0x2a m.balance_before h.balance) w4

        w6 : Writes (marshal_to_sized_buffer coin m) (
            ((((height_field ++ gas_field) ++ signer_field) ++ contract_field) ++ balance_field)
            ++ body_field)
        w6 =
            Writes-then (put_bytes_field 0x32 m.call_body) p5 body_field _
              (put_bytes_field-Writes 0x32 m.call_body (omega (arith, h.body))) w5

    counted : IsEmittable m → size coin m ≡ length fields
    unfolding size
    counted h =
        rw
          (
            varint_field_size-eq-length 0x08 m.block_height h.height,
            message_field_size-eq-length coin laws 0x12 m.gas h.gas,
            bytes_field_size-eq-length 0x1a m.signer (omega (arith, h.signer)),
            bytes_field_size-eq-length 0x22 m.contract (omega (arith, h.contract)),
            message_field_size-eq-length coin laws 0x2a m.balance_before h.balance,
            bytes_field_size-eq-length 0x32 m.call_body (omega (arith, h.body)),
          )
          (omega (arith, length-fields))

    bounded : IsEmittable m → length fields < int_limit
    bounded h = omega (
      arith,
      length-fields,
      h.signer,
      h.contract,
      h.body,
      length-varint_field 0x08 m.block_height,
      length_message 0x12 m.gas h.gas,
      length-bytes_field 0x1a m.signer,
      length-bytes_field 0x22 m.contract,
      length_message 0x2a m.balance_before h.balance,
      length-bytes_field 0x32 m.call_body,
    )

    -- The event so far, as far as the field after which it is named.
    abbrev upto_gas : Option Coin → ExecuteScheduledCallEvent
    upto_gas o = record empty { block_height = m.block_height; gas = o }

    abbrev upto_balance : Option Coin → ExecuteScheduledCallEvent
    upto_balance o = record m { balance_before = o; call_body = [] }

    read : IsEmittable m → Reads (switch coin) (length fields) fields empty m
    read h =
        Reads-varint (switch coin) _ 0x08 put_block_height (omega arith) (unfold switch in refl)
          m.block_height _ empty m h.height refl
          (Reads-message coin laws (switch coin) _ (λ e. e.gas) put_gas 0x12 (bounded h)
            (omega arith) (unfold switch in refl) m.gas _ (put_block_height m.block_height empty) m
            refl upto_gas refl (λ n. refl)
            (Reads-bytes (switch coin) _ 0x1a put_signer (bounded h) (omega arith)
              (unfold switch in refl) m.signer _ (upto_gas m.gas) m refl
              (Reads-bytes (switch coin) _ 0x22 put_contract (bounded h) (omega arith)
                (unfold switch in refl) m.contract _ (put_signer m.signer (upto_gas m.gas)) m refl
                (Reads-message coin laws (switch coin) _ (λ e. e.balance_before) put_balance_before
                  0x2a (bounded h) (omega arith) (unfold switch in refl) m.balance_before _
                  (upto_balance none) m refl upto_balance refl (λ n. refl)
                  (Reads-bytes (switch coin) _ 0x32 put_call_body (bounded h) (omega arith)
                    (unfold switch in refl) m.call_body [] (upto_balance m.balance_before) m refl
                    (Reads-nil (switch coin) _ m))))))

  -- With the laws of the coins' codec: Unmarshal reads back an ExecuteScheduledCallEvent that
  -- Marshal wrote, with its coins, which may be nil, if its height is below 2 ^ 64 and its texts
  -- and the encodings of its coins are below 2 ^ 60 bytes.
  pub unmarshal-marshal_executed :
      (m : ExecuteScheduledCallEvent) → IsEmittable m → (marshal coin m >>= unmarshal coin) ≡ ok m
  unfolding unmarshal marshal
  unmarshal-marshal_executed m h =
      rw
        (marshal_sized-Writes (size coin m) (marshal_to_sized_buffer coin m) (fields m)
          (counted m h) (written m h))
        (unmarshal_with-Reads (switch coin) (fields m) empty m (read m h))
