-- ===== src/Wire/Reader.antt =====
-- `Unmarshal` and `skipSchedule` of schedule.pb.go. A read takes what is left of the input,
-- `dAtA[iNdEx:]`, and returns what is left behind it; `iNdEx >= l` says that nothing is left.
use burnt.Base.{
  ℕ, zero, suc, ◌+◌, ◌-◌, ◌/◌, ◌%◌, ◌^◌, [], ◌∷◌, Option, some, none, true, false, not, ◌&&◌, Bytes,
  length, take, drop, ltb, leb, ◌==◌, if◌then◌else◌, Result, ok, err, panic, stuck, guard, ◌>>=◌,
  ◌>>◌, unexpected_eof, invalid_length, end_group, illegal_tag, wrong_wire_type,
  unexpected_end_of_group, illegal_wire_type,
}
use burnt.Wire.Varint.{read_varint}

-- An `int` is negative from here on, as a bit pattern.
abbrev pub int_limit : ℕ
int_limit = 2 ^ 63

-- `dAtA[iNdEx:postIndex]` and what is behind it: a slice that ends behind the input is a fault.
unfoldable pub slice : ℕ → Bytes → Result (Bytes × Bytes)
slice n rest = if leb n (length rest) then ok (take n rest, drop n rest) else panic

-- A length-delimited field, of an input of `l` bytes of which `rest` is left.
unfoldable pub read_bytes : ℕ → Bytes → Result (Bytes × Bytes)
read_bytes l rest = do
  (n, rest') ← read_varint 0 0 rest
  guard (ltb n int_limit) invalid_length
  let post_index = l - length rest' + n
  guard (ltb post_index int_limit) invalid_length
  guard (leb post_index l) unexpected_eof
  slice n rest'

-- The switch of `skipSchedule`: the index, the depth and what is left behind one item.
unfoldable pub skip_item : ℕ → ℕ → ℕ → Bytes → Result (ℕ × ℕ × Bytes)
skip_item wire_type i depth rest =
    if wire_type == 0
    then (do (_, rest') ← read_varint 0 0 rest; ok (i + (length rest - length rest'), depth, rest'))
    else if wire_type == 1
    then ok (i + 8, depth, drop 8 rest)
    else if wire_type == 2
    then (do
      (n, rest') ← read_varint 0 0 rest
      guard (ltb n int_limit) invalid_length
      ok (i + (length rest - length rest') + n, depth, drop n rest'))
    else if wire_type == 3
    then ok (i, depth + 1, rest)
    else if wire_type == 4
    then (if depth == 0 then err unexpected_end_of_group else ok (i, depth - 1, rest))
    else if wire_type == 5
    then ok (i + 4, depth, drop 4 rest)
    else err illegal_wire_type

-- The loop of `skipSchedule`, at index `i`. An item may end behind the input.
unfoldable pub skip_loop : ℕ → ℕ → ℕ → Bytes → Result ℕ
skip_loop fuel i depth [] = err unexpected_eof
skip_loop zero i depth (b ∷ bs) = stuck
skip_loop (suc fuel) i depth (b ∷ bs) = do
  (wire, rest) ← read_varint 0 0 (b ∷ bs)
  (i', depth', rest') ← skip_item (wire % 8) (i + (length (b ∷ bs) - length rest)) depth rest
  guard (ltb i' int_limit) invalid_length
  elim (depth' == 0) [ true ↦ ok i' | false ↦ skip_loop fuel i' depth' rest' ]

-- skipSchedule: each round takes a byte at least.
unfoldable pub skip : Bytes → Result ℕ
skip input = skip_loop (length input) 0 0 input

-- A case of the switch over the field number: the reader for the input's length, the wire type,
-- what is left of the input and the message read so far.
abbrev pub Case : Type 0 → Type 0
Case M = ℕ → ℕ → Bytes → M → Result (M × Bytes)

abbrev pub Switch : Type 0 → Type 0
Switch M = ℕ → Option (Case M)

-- A case for a field of bytes or text. `Unmarshal` sets the field to a copy of the slice.
unfoldable pub bytes_case : {M : Type 0} → (Bytes → M → M) → Case M
bytes_case put l wire_type rest m = do
  guard (wire_type == 2) wrong_wire_type
  (b, rest') ← read_bytes l rest
  ok (put b m, rest')

-- A case for a field of type uint64.
unfoldable pub varint_case : {M : Type 0} → (ℕ → M → M) → Case M
varint_case put l wire_type rest m = do
  guard (wire_type == 0) wrong_wire_type
  (v, rest') ← read_varint 0 0 rest
  ok (put v m, rest')

-- `int32(wire >> 3)`, as a bit pattern.
abbrev pub field_num : ℕ → ℕ
field_num wire = wire / 8 % 2 ^ 32

-- `iNdEx = preIndex; skippy, err := skipSchedule(dAtA[iNdEx:])`
unfoldable pub skip_unknown : ℕ → Bytes → Result Bytes
skip_unknown l pre = do
  skippy ← skip pre
  guard (ltb (l - length pre + skippy) int_limit) invalid_length
  guard (leb (l - length pre + skippy) l) unexpected_eof
  ok (drop skippy pre)

module _ {M : Type 0} (switch : Switch M) (l : ℕ) where
  -- One round of `for iNdEx < l`.
  unfoldable pub read_field : Bytes → M → Result (M × Bytes)
  read_field pre m = do
    (wire, rest) ← read_varint 0 0 pre
    guard (not (wire % 8 == 4)) end_group
    guard (ltb 0 (field_num wire) && ltb (field_num wire) (2 ^ 31)) illegal_tag
    elim (switch (field_num wire)) [
      | some case ↦ case l (wire % 8) rest m
      | none ↦ do rest' ← skip_unknown l pre; ok (m, rest')
    ]

  unfoldable pub read_fields : ℕ → Bytes → M → Result M
  read_fields fuel [] m = ok m
  read_fields zero (b ∷ bs) m = stuck
  read_fields (suc fuel) (b ∷ bs) m = do
    (m', rest) ← read_field (b ∷ bs) m
    read_fields fuel rest m'

-- `Unmarshal` into the message `m`: each round takes a byte at least.
unfoldable pub unmarshal_with : {M : Type 0} → Switch M → Bytes → M → Result M
unmarshal_with switch input m = read_fields switch (length input) (length input) input m
