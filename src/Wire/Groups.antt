-- ===== src/Wire/Groups.antt =====
-- The groups of seven bits of a uint64, as plain arithmetic: the writer stores them and the reader
-- adds them up again.
use burnt.Base.{
  ℕ, zero, suc, ◌+◌, ◌*◌, ◌/◌, ◌%◌, ◌^◌, ◌≤◌, ◌<◌, ◌≡◌, refl, ap, ◌∙◌, [], ◌∷◌, ◌++◌, append_assoc,
  arith, Bytes, length, length-append, set?-append, ltb, if◌then◌else◌, ok,
}
use burnt.Wire.Varint.{write_groups, read_varint}
use native.Mathlib.Decide.{dec_lt}
use native.Mathlib.Numerals.{towards_suc}
use native.Mathlib.Nat.{div-add-mod}

-- Numbers of `k` groups of seven bits and one bit more.
abbrev pub cap : ℕ → ℕ
cap zero = 2
cap (suc k) = 128 * cap k

abbrev pub IsU64 : ℕ → Type 0
IsU64 v = v < 2 ^ 64

-- The encoding of `v`, below `cap k`.
unfoldable pub groups : ℕ → ℕ → Bytes
groups zero v = v ∷ []
groups (suc k) v =
    let rest = groups k (v / 128) in if ltb v 128 then v ∷ [] else (v % 128 + 128) ∷ rest

unfoldable pub varint : ℕ → Bytes
varint v = groups 9 v

pub groups-short : (k v : ℕ) → v < 128 → groups k v ≡ v ∷ []
unfolding groups
groups-short zero v h = refl
groups-short (suc k) v h = ground arith

pub groups-long : (k v : ℕ) → 128 ≤ v → groups (suc k) v ≡ (v % 128 + 128) ∷ groups k (v / 128)
unfolding groups
groups-long k v h = ground arith

pub length-groups : (k v : ℕ) → (1 ≤ length (groups k v)) × (length (groups k v) ≤ k + 1)
unfolding groups
length-groups zero v = omega arith
length-groups (suc k) v = ground (arith, length-groups k (v / 128))

write_last :
    (fuel v old : ℕ) (front back : Bytes)
    → v < 128
    → write_groups (suc fuel) (front ++ old ∷ back) (length front) v ≡ ok (front ++ v ∷ back)
unfolding write_groups
write_last fuel v old front back h = ground (arith, set?-append front back old v)

write_more :
    (fuel v old : ℕ) (front back : Bytes)
    → 128 ≤ v
    → write_groups (suc fuel) (front ++ old ∷ back) (length front) v
      ≡ write_groups fuel (front ++ (v % 128 + 128) ∷ back) (length front + 1) (v / 128)
unfolding write_groups
write_more fuel v old front back h = ground (arith, set?-append front back old (v % 128 + 128))

fills_last :
    (k fuel v : ℕ) (front hole back : Bytes)
    → v < 128
    → length hole ≡ length (groups k v)
    → write_groups (suc fuel) (front ++ (hole ++ back)) (length front) v
      ≡ ok (front ++ (groups k v ++ back))
fills_last k fuel v front [] back h e = absurd (omega (arith, ap length (groups-short k v h)))
fills_last k fuel v front (old ∷ []) back h e =
    rw (groups-short k v h) (write_last fuel v old front back h)
fills_last k fuel v front (x ∷ y ∷ hole) back h e =
    absurd (omega (arith, ap length (groups-short k v h)))

-- The byte that was written joins what stands in front.
fills_behind :
    (fuel g w : ℕ) (front todo done : Bytes)
    → write_groups fuel ((front ++ g ∷ []) ++ todo) (length (front ++ g ∷ [])) w
      ≡ ok ((front ++ g ∷ []) ++ done)
    → write_groups fuel (front ++ g ∷ todo) (length front + 1) w ≡ ok (front ++ g ∷ done)
fills_behind fuel g w front todo done h =
    rw
      (
        append_assoc front (g ∷ []) todo,
        append_assoc front (g ∷ []) done,
        length-append front (g ∷ []),
      )
      at h

-- The writer fills a hole of the right length with the groups, and keeps what is around it.
pub write_groups-fills :
    (k fuel v : ℕ) (front hole back : Bytes)
    → v < cap k
    → k < fuel
    → length hole ≡ length (groups k v)
    → write_groups fuel (front ++ (hole ++ back)) (length front) v
      ≡ ok (front ++ (groups k v ++ back))
write_groups-fills k zero v front hole back h f e = absurd (omega arith)
write_groups-fills zero (suc fuel) v front hole back h f e =
    fills_last zero fuel v front hole back (omega arith) e
write_groups-fills (suc k) (suc fuel) v front [] back h f e =
    absurd (omega (arith, length-groups (suc k) v))
write_groups-fills (suc k) (suc fuel) v front (old ∷ hole) back h f e = elim (dec_lt v 128) [
  | yes short ↦ fills_last (suc k) fuel v front (old ∷ hole) back short e
  | no long ↦ rw (groups-long k v (omega arith)) (
      write_more fuel v old front (hole ++ back) (omega arith)
      ∙ fills_behind fuel (v % 128 + 128) (v / 128) front (hole ++ back)
          (groups k (v / 128) ++ back)
          (write_groups-fills k fuel (v / 128) (front ++ (v % 128 + 128) ∷ []) hole back
            (omega arith) (omega arith) (omega (arith, ap length (groups-long k v (omega arith))))))
]

-- The reader adds up what the groups hold, from bit `shift` on.
shift_seven : (s : ℕ) → 2 ^ (s + 7) ≡ 128 * 2 ^ s
shift_seven s = simp towards_suc (omega arith)

read_last :
    (v shift acc : ℕ) (rest : Bytes)
    → v < 128
    → shift < 64
    → IsU64 (v * 2 ^ shift)
    → read_varint shift acc (v ∷ rest) ≡ ok (acc + v * 2 ^ shift, rest)
unfolding read_varint
read_last v shift acc rest h s fits = ground arith

read_more :
    (g shift acc : ℕ) (rest : Bytes)
    → g < 128
    → shift < 64
    → IsU64 (g * 2 ^ shift)
    → read_varint shift acc ((g + 128) ∷ rest) ≡ read_varint (shift + 7) (acc + g * 2 ^ shift) rest
unfolding read_varint
read_more g shift acc rest h s fits = ground arith

split_group : (v s : ℕ) → v % 128 * 2 ^ s + v / 128 * 2 ^ (s + 7) ≡ v * 2 ^ s
split_group v s = omega (
  arith,
  ap (λ (t : ℕ). t * 2 ^ s) (div-add-mod v 128),
  ap (λ (t : ℕ). v / 128 * t) (shift_seven s),
)

pub read_varint-groups :
    (k v shift acc : ℕ) (rest : Bytes)
    → v < cap k
    → shift + 7 * k ≡ 63
    → IsU64 (v * 2 ^ shift)
    → read_varint shift acc (groups k v ++ rest) ≡ ok (acc + v * 2 ^ shift, rest)
read_varint-groups zero v shift acc rest h e fits =
    rw (groups-short zero v (omega arith))
      (read_last v shift acc rest (omega arith) (omega arith) fits)
read_varint-groups (suc k) v shift acc rest h e fits = elim (dec_lt v 128) [
  | yes short ↦
      rw (groups-short (suc k) v short) (read_last v shift acc rest short (omega arith) fits)
  | no long ↦ rw (groups-long k v (omega arith)) (
      read_more (v % 128) shift acc (groups k (v / 128) ++ rest) (omega arith) (omega arith)
        (omega (arith, split_group v shift))
      ∙ read_varint-groups k (v / 128) (shift + 7) (acc + v % 128 * 2 ^ shift) rest (omega arith)
          (omega arith) (omega (arith, split_group v shift))
      ∙ ap (λ (t : ℕ). ok (t, rest)) (omega (arith, split_group v shift)))
]

-- For a number below 2 ^ 64, the reading loop returns the number from its encoding in groups of
-- seven bits, and what follows the encoding.
pub read_varint-varint :
    (v : ℕ) (rest : Bytes) → IsU64 v → read_varint 0 0 (varint v ++ rest) ≡ ok (v, rest)
unfolding varint
read_varint-varint v rest h =
    read_varint-groups 9 v 0 0 rest (omega arith) (omega arith) (omega arith)
    ∙ ap (λ (t : ℕ). ok (t, rest)) (omega arith)
