-- ===== src/Tests/Codecs.antt =====
-- The wire format at concrete inputs.
use burnt.Messages.Params.{Coin}
use burnt.Messages.Event.{ExecuteScheduledCallEvent}
use burnt.Messages.Event.Executed
use burnt.Messages.Event.Executed.Codec.{unmarshal-marshal_executed}
use burnt.Wire.Nested.{Codec, CodecLaws}
use burnt.Wire.Buffer.{put_bytes}
use burnt.Wire.Written.{put_bytes-Writes}
use burnt.Base.{suc, unexpected_eof, err, none, some, Result, refl, arith, length}
use burnt.Base.{◌≡◌, [], ◌∷◌, Bytes, ok, ◌>>=◌, length, arith}
use burnt.Wire.Varint.{sov}
use burnt.Wire.Groups.{varint}
use burnt.Wire.Sov.{sov-eq-length}
use burnt.Messages.ScheduledCall
use burnt.Messages.ScheduledCall.Codec.{unmarshal-marshal}
use burnt.Messages.MsgAddSchedule
use burnt.Messages.MsgRemoveSchedule
use burnt.Messages.QueryScheduledCall
use burnt.Messages.ScheduledCall
use burnt.Messages.MsgAddSchedule
use burnt.Messages.MsgRemoveSchedule
use burnt.Messages.QueryScheduledCall

abbrev a_call : ScheduledCall.ScheduledCall
a_call = record { call_body = b'{' ∷ b'}' ∷ [] }

unmarshal-marshal_example : (ScheduledCall.marshal a_call >>= ScheduledCall.unmarshal) ≡ ok a_call
unmarshal-marshal_example = unmarshal-marshal a_call (omega arith)

-- A length that reaches behind the input.
abbrev truncated : Bytes
truncated = 10 ∷ 200 ∷ 1 ∷ 7 ∷ []

abbrev an_add : MsgAddSchedule.MsgAddSchedule
an_add = record {
  signer = b's' ∷ [];
  contract = b'c' ∷ [];
  call_body = b'{' ∷ b'}' ∷ [];
  block_height = 300;
}

abbrev a_removal : MsgRemoveSchedule.MsgRemoveSchedule
a_removal = record { signer = b's' ∷ []; contract = b'c' ∷ [] }

abbrev a_listed_call : QueryScheduledCall.QueryScheduledCall
a_listed_call = record {
  contract = b'c' ∷ [];
  call_body = b'{' ∷ b'}' ∷ [];
  height = 300;
  signer = b's' ∷ [];
}

sov-eq-length_example : sov 300 ≡ length (varint 300)
sov-eq-length_example = sov-eq-length 300 (omega arith)

-- A codec that writes the amount in front of the denomination.
abbrev read_coin : Bytes → Coin → Result Coin
read_coin [] c = err unexpected_eof
read_coin (a ∷ d) c = ok (record { denom = d; amount = a })

abbrev a_coin_codec : Codec Coin
a_coin_codec = record {
  size = λ c. suc (length c.denom);
  marshal_to_sized_buffer = λ c. put_bytes (c.amount ∷ c.denom);
  unmarshal = read_coin;
  empty = record { denom = []; amount = 0 };
}

abbrev coin_codec_laws : CodecLaws a_coin_codec
coin_codec_laws = record {
  encoding = λ c. c.amount ∷ c.denom;
  counts = λ c. refl;
  writes = λ c. put_bytes-Writes (c.amount ∷ c.denom);
  reads = λ c. refl;
}

abbrev an_execution : ExecuteScheduledCallEvent
an_execution = record {
  block_height = 300;
  gas = some (record { denom = b'u' ∷ []; amount = 3 });
  signer = b's' ∷ [];
  contract = b'c' ∷ [];
  balance_before = none;
  call_body = b'{' ∷ b'}' ∷ [];
}

unmarshal-marshal_executed_example :
    (Executed.marshal a_coin_codec an_execution >>= Executed.unmarshal a_coin_codec)
    ≡ ok an_execution
unmarshal-marshal_executed_example =
    unmarshal-marshal_executed a_coin_codec coin_codec_laws an_execution (record {
      height = omega arith;
      gas = omega arith;
      signer = omega arith;
      contract = omega arith;
      balance = tt;
      body = omega arith;
    })

-- A field of 200 bytes of which one is there.
abbrev cut_short : Bytes
cut_short = 10 ∷ 200 ∷ 1 ∷ 7 ∷ []
