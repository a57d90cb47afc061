-- ===== src/Wire/Varint.antt =====
-- Variable-length integers: `sovSchedule`, and the loops of `encodeVarintSchedule` and of each
-- `Unmarshal` in x/schedule/types/schedule.pb.go. A uint64 is a number below 2 ^ 64; `v & 0x7f` is
-- `v % 128`, `v >>= 7` is `v / 128`, and `| 0x80` adds 128 to a group of seven bits.
use burnt.Base.{
  ℕ, zero, suc, ◌+◌, ◌*◌, ◌/◌, ◌%◌, ◌^◌, [], ◌∷◌, true, false, some, none, Bytes, set?, ltb, leb,
  ◌==◌, if◌then◌else◌, Result, ok, err, panic, stuck, or_panic, int_overflow, unexpected_eof,
}

-- math/bits.Len64: the number of bits of `x`, for `x` of at most `fuel` bits.
unfoldable pub bit_length : ℕ → ℕ → ℕ
bit_length zero x = 0
bit_length (suc fuel) x = if x == 0 then 0 else suc (bit_length fuel (x / 2))

-- `x | 1`
abbrev pub set_low_bit : ℕ → ℕ
set_low_bit x = x / 2 * 2 + 1

-- sovSchedule
unfoldable pub sov : ℕ → ℕ
sov x = (bit_length 64 (set_low_bit x) + 6) / 7

-- The loop of `encodeVarintSchedule`: it writes from `offset` on.
unfoldable pub write_groups : ℕ → Bytes → ℕ → ℕ → Result Bytes
write_groups zero buffer offset v = stuck
write_groups (suc fuel) buffer offset v = elim (leb 128 v) [
  | true ↦ elim (set? buffer offset (v % 128 + 128)) [
    | none ↦ panic
    | some buffer' ↦ write_groups fuel buffer' (offset + 1) (v / 128)
  ]
  | false ↦ or_panic (set? buffer offset v)
]

-- The loop `for shift := uint(0); ; shift += 7` over what is left of the input. The bits of `acc`
-- lie below `shift`, so `|=` adds.
unfoldable pub read_varint : ℕ → ℕ → Bytes → Result (ℕ × Bytes)
read_varint shift acc [] = if leb 64 shift then err int_overflow else err unexpected_eof
read_varint shift acc (b ∷ rest) =
    let acc' = acc + b % 128 * 2 ^ shift % 2 ^ 64 in
    let more = read_varint (shift + 7) acc' rest in
    if leb 64 shift then err int_overflow else if ltb b 128 then ok (acc', rest) else more
