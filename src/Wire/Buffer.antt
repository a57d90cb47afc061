-- ===== src/Wire/Buffer.antt =====
-- `MarshalToSizedBuffer` fills a buffer from its end towards its start; `i` is where the part that
-- is written begins.
use burnt.Base.{
  ℕ, ◌+◌, ◌-◌, ◌++◌, Bytes, length, take, drop, replicate, set?, ltb, leb, ◌==◌, if◌then◌else◌,
  Result, ok, panic, or_panic, ◌>>=◌,
}
use burnt.Wire.Varint.{sov, write_groups}

pub record Buffer : Type 0 where
  pub bytes : Bytes
  pub i : ℕ

-- `i -= len(b); copy(dAtA[i:], b)`: a slice below the start is a fault.
unfoldable pub put_bytes : Bytes → Buffer → Result Buffer
put_bytes b w =
    let start = w.i - length b in
    if leb (length b) w.i
    then ok (record { bytes = take start w.bytes ++ (b ++ drop w.i w.bytes); i = start })
    else panic

-- `i--; dAtA[i] = b`
unfoldable pub put_byte : ℕ → Buffer → Result Buffer
put_byte b w =
    if ltb 0 w.i
    then (do
      bytes ← or_panic (set? w.bytes (w.i - 1) b)
      ok (record { bytes = bytes; i = w.i - 1 }))
    else panic

-- `i = encodeVarintSchedule(dAtA, i, v)`. A uint64 has ten groups at most.
unfoldable pub put_varint : ℕ → Buffer → Result Buffer
put_varint v w =
    let base = w.i - sov v in
    if leb (sov v) w.i
    then (do bytes ← write_groups 10 w.bytes base v; ok (record { bytes = bytes; i = base }))
    else panic

-- A field of bytes or text: nothing if it is empty.
unfoldable pub put_bytes_field : ℕ → Bytes → Buffer → Result Buffer
put_bytes_field tag b w =
    if ltb 0 (length b)
    then (do w1 ← put_bytes b w; w2 ← put_varint (length b) w1; put_byte tag w2)
    else ok w

-- A field of a number: nothing if it is zero.
unfoldable pub put_varint_field : ℕ → ℕ → Buffer → Result Buffer
put_varint_field tag v w = if v == 0 then ok w else (do w1 ← put_varint v w; put_byte tag w1)

-- The bytes that `Size` counts for these fields.
unfoldable pub bytes_field_size : Bytes → ℕ
bytes_field_size b = if ltb 0 (length b) then 1 + length b + sov (length b) else 0

unfoldable pub varint_field_size : ℕ → ℕ
varint_field_size v = if v == 0 then 0 else 1 + sov v

-- `Marshal`: `dAtA = make([]byte, size)`, and `dAtA[:n]` for the `n` bytes that were written.
unfoldable pub marshal_sized : ℕ → (Buffer → Result Buffer) → Result Bytes
marshal_sized size fill = do
  w ← fill (record { bytes = replicate size 0; i = size })
  ok (take (length w.bytes - w.i) w.bytes)
