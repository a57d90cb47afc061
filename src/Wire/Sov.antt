-- ===== src/Wire/Sov.antt =====
-- `sov` counts the groups of seven bits of a uint64.
use burnt.Base.{ℕ, zero, suc, ◌+◌, ◌/◌, ◌^◌, ◌≤◌, ◌<◌, ◌≡◌, refl, ap, arith, length}
use burnt.Wire.Varint.{bit_length, set_low_bit, sov}
use native.Mathlib.Decide.{dec_lt}
use native.Mathlib.Nat.{pow-suc}
use burnt.Wire.Groups.{cap, IsU64, groups, varint, groups-short, groups-long}

-- The bits of `cap k`.
abbrev bits : ℕ → ℕ
bits zero = 1
bits (suc k) = suc (suc (suc (suc (suc (suc (suc (bits k)))))))

halving : (fuel x : ℕ) → 0 < x → bit_length (suc fuel) x ≡ suc (bit_length fuel (x / 2))
unfolding bit_length
halving fuel x p = ground arith

bit_length-zero : (fuel : ℕ) → bit_length fuel 0 ≡ 0
unfolding bit_length
bit_length-zero zero = refl
bit_length-zero (suc fuel) = refl

-- Seven halvings are a shift by one group.
seven_halvings :
    (k x : ℕ) → 128 ≤ x → bit_length (bits (suc k)) x ≡ 7 + bit_length (bits k) (x / 128)
seven_halvings k x h = omega (
  arith,
  halving (suc (suc (suc (suc (suc (suc (bits k))))))) x,
  halving (suc (suc (suc (suc (suc (bits k)))))) (x / 2),
  halving (suc (suc (suc (suc (bits k))))) (x / 2 / 2),
  halving (suc (suc (suc (bits k)))) (x / 2 / 2 / 2),
  halving (suc (suc (bits k))) (x / 2 / 2 / 2 / 2),
  halving (suc (bits k)) (x / 2 / 2 / 2 / 2 / 2),
  halving (bits k) (x / 2 / 2 / 2 / 2 / 2 / 2),
  ap (bit_length (bits k)) shifts,
)
  where
    shifts : x / 2 / 2 / 2 / 2 / 2 / 2 / 2 ≡ x / 128
    shifts = omega arith

few_halvings : (n fuel x : ℕ) → x < 2 ^ n → bit_length fuel x ≤ n
unfolding bit_length
few_halvings zero zero x h = omega arith
few_halvings zero (suc fuel) x h = ground arith
few_halvings (suc n) zero x h = omega arith
few_halvings (suc n) (suc fuel) x h =
    ground (arith, few_halvings n fuel (x / 2) (omega (arith, pow-suc 2 n)))

-- The lowest bit does not count from the second bit on.
same_length : (fuel x : ℕ) → 0 < x → bit_length (suc fuel) (set_low_bit x) ≡ bit_length (suc fuel) x
same_length fuel x p =
    omega (arith, halving fuel (set_low_bit x), halving fuel x, ap (bit_length fuel) halves)
  where
    halves : set_low_bit x / 2 ≡ x / 2
    halves = omega arith

low_bit_lost : (k x : ℕ) → 0 < x → bit_length (bits k) (set_low_bit x) ≡ bit_length (bits k) x
low_bit_lost zero x p = same_length 0 x p
low_bit_lost (suc k) x p = same_length _ x p

low_bit_counts : (fuel v : ℕ) → 1 ≤ bit_length (suc fuel) (set_low_bit v)
low_bit_counts fuel v = omega (arith, halving fuel (set_low_bit v))

sov_groups :
    (k v : ℕ) → v < cap k → (bit_length (bits k) (set_low_bit v) + 6) / 7 ≡ length (groups k v)
sov_groups zero v h =
    rw (groups-short zero v (omega arith))
      (omega (arith, low_bit_counts 0 v, few_halvings 1 1 (set_low_bit v)))
sov_groups (suc k) v h = elim (dec_lt v 128) [
  | yes short ↦ rw (groups-short (suc k) v short) (
      omega (
        arith,
        low_bit_counts (suc (suc (suc (suc (suc (suc (bits k))))))) v,
        few_halvings 7 (bits (suc k)) (set_low_bit v),
      ))
  | no long ↦ rw (groups-long k v (omega arith)) (
      omega (
        arith,
        seven_halvings k (set_low_bit v),
        ap (bit_length (bits k)) shifted,
        low_bit_lost k (v / 128) (omega arith),
        sov_groups k (v / 128) (omega arith),
      ))
]
  where
    shifted : set_low_bit v / 128 ≡ v / 128
    shifted = omega arith

-- For a number below 2 ^ 64, the size that sov computes from its bits is the number of bytes of its
-- encoding in groups of seven bits.
pub sov-eq-length : (v : ℕ) → IsU64 v → sov v ≡ length (varint v)
unfolding sov varint
sov-eq-length v h = sov_groups 9 v (omega arith)
