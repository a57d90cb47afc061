-- ===== src/Wire/Progress.antt =====
-- The loops of the readers end on every input, well formed or not: each round takes a byte at
-- least, so as many rounds as there are bytes are enough.
use burnt.Base.{
  ℕ, zero, suc, ◌+◌, ◌-◌, ◌%◌, ◌^◌, ◌≤◌, ◌<◌, some, none, [], ◌∷◌, Option, if◌then◌else◌,
  wrong_wire_type, Bool, true, false, not, ◌&&◌, arith, Bytes, length, length-drop, ltb, leb, ◌==◌,
  Result, ok, ◌>>=◌, int_overflow, unexpected_eof, invalid_length, end_group, illegal_tag, ◌≡◌,
}
use burnt.Base.Ends.{Ends, returns, fails, Ends-bind, Ends-guard, Ends-if, Ends-more}
use burnt.Wire.Varint.{read_varint}
use burnt.Wire.Reader.{
  int_limit, slice, read_bytes, skip_item, skip_loop, skip, Case, Switch, skip_unknown, read_field,
  read_fields, unmarshal_with, field_num, varint_case, bytes_case,
}

-- A read that ends and, where it succeeds, leaves `bound` bytes at most.
abbrev pub Leaves : {A : Type 0} → ℕ → Result (A × Bytes) → Type 0
Leaves bound = Ends (λ p. length p.1 ≤ bound)

pub read_varint-Leaves :
    (input : Bytes) (shift acc : ℕ) → Leaves (length input - 1) (read_varint shift acc input)
unfolding read_varint
read_varint-Leaves [] shift acc = Ends-if (leb 64 shift) (fails int_overflow) (fails unexpected_eof)
read_varint-Leaves (b ∷ rest) shift acc = Ends-if (leb 64 shift) (fails int_overflow) (
    Ends-if (ltb b 128) (returns (omega arith))
      (Ends-more (λ p h. omega arith) (read_varint-Leaves rest _ _)))

slice-Leaves : (n : ℕ) (rest : Bytes) → n ≤ length rest → Leaves (length rest) (slice n rest)
unfolding slice
slice-Leaves n rest h =
    let within : leb n (length rest) ≡ true = ground (arith, h) in
    rw within (returns (omega (arith, length-drop n rest)))

-- Of an input of `l` bytes, no more than `l` are left.
pub read_bytes-Leaves :
    (l : ℕ) (input : Bytes) → length input ≤ l → Leaves (length input) (read_bytes l input)
unfolding read_bytes
read_bytes-Leaves l input le = Ends-bind (read_varint-Leaves input 0 0) λ (n, rest) h.
    let post_index = l - length rest + n in
    Ends-guard (ltb n int_limit) invalid_length λ _.
      Ends-guard (ltb post_index int_limit) invalid_length λ _.
        Ends-guard (leb post_index l) unexpected_eof λ within.
          let inside : post_index ≤ l = ground (arith, within) in
          Ends-more (λ p k. omega (arith, k, h))
            (slice-Leaves n rest (omega (arith, inside, h, le)))

-- One item that is skipped: the index does not fall, and no byte comes back.
abbrev Passes : ℕ → ℕ → Result (ℕ × ℕ × Bytes) → Type 0
Passes i bound = Ends (λ t. (i ≤ t.0) × (length t.2 ≤ bound))

skip_item-Passes :
    (wire_type i depth : ℕ) (rest : Bytes)
    → Passes i (length rest) (skip_item wire_type i depth rest)
unfolding skip_item
skip_item-Passes wire_type i depth rest =
    Ends-if (wire_type == 0)
      (Ends-bind (read_varint-Leaves rest 0 0) λ p h. returns (omega arith, omega arith))
      (Ends-if (wire_type == 1) (returns (omega arith, omega (arith, length-drop 8 rest))) (
        Ends-if (wire_type == 2)
          (Ends-bind (read_varint-Leaves rest 0 0) λ p h.
            Ends-guard (ltb p.0 int_limit) invalid_length
              λ _. returns (omega arith, omega (arith, length-drop p.0 p.1)))
          (Ends-if (wire_type == 3) (returns (omega arith, omega arith)) (
            Ends-if (wire_type == 4)
              (Ends-if (depth == 0) (fails _) (returns (omega arith, omega arith)))
              (Ends-if (wire_type == 5) (returns (omega arith, omega (arith, length-drop 4 rest)))
                (fails _))))))

skip_end :
    {i i' : ℕ} (done : Bool) {more : Result ℕ}
    → i < i'
    → Ends (λ n. i < n) more
    → Ends (λ n. i < n) (elim done [ true ↦ ok i' | false ↦ more ])
skip_end true h k = returns h
skip_end false h k = k

-- What is skipped is a byte at least.
skip_loop-Ends :
    (fuel i depth : ℕ) (input : Bytes)
    → length input ≤ fuel
    → Ends (λ n. i < n) (skip_loop fuel i depth input)
unfolding skip_loop
skip_loop-Ends fuel i depth [] h = fails _
skip_loop-Ends zero i depth (b ∷ bs) h = absurd (omega arith)
skip_loop-Ends (suc fuel) i depth (b ∷ bs) h = Ends-bind (read_varint-Leaves (b ∷ bs) 0 0) λ p hp.
    Ends-bind (skip_item-Passes (p.0 % 8) _ depth p.1) λ t ht.
      Ends-guard (ltb t.0 int_limit) invalid_length λ _.
        skip_end (t.1 == 0) (omega arith)
          (Ends-more (λ n hn. omega arith) (skip_loop-Ends fuel t.0 t.1 t.2 (omega arith)))

skip-Ends : (input : Bytes) → Ends (λ n. 0 < n) (skip input)
unfolding skip
skip-Ends input = skip_loop-Ends (length input) 0 0 input (omega arith)

skip_unknown-Ends :
    (l : ℕ) (pre : Bytes) → Ends (λ rest. length rest ≤ length pre - 1) (skip_unknown l pre)
unfolding skip_unknown
skip_unknown-Ends l pre = Ends-bind (skip-Ends pre) λ n h.
    let index = l - length pre + n in
    Ends-guard (ltb index int_limit) invalid_length
      λ _. Ends-guard (leb index l) unexpected_eof λ _. returns (omega (arith, length-drop n pre))

-- A case of a switch that ends, where no more is left than the input, and gives no byte back.
pub data IsGood {M : Type 0} : Option (Case M) → Type 0 where
  known :
      {case : Case M}
      → ((l wire_type : ℕ) (rest : Bytes) (m : M)
          → length rest ≤ l
          → Leaves (length rest) (case l wire_type rest m))
      → IsGood (some case)
  unknown : IsGood none

abbrev pub IsProgressive : {M : Type 0} → Switch M → Type 0
IsProgressive switch = (num : ℕ) → IsGood (switch num)

module _ {M : Type 0} where
  pub IsGood-if :
      (test : Bool) {a b : Option (Case M)} → IsGood a → IsGood b → IsGood (if test then a else b)
  IsGood-if true h k = h
  IsGood-if false h k = k

  pub IsGood-bytes : (put : Bytes → M → M) → IsGood (some (bytes_case put))
  unfolding bytes_case
  IsGood-bytes put = known λ l wire_type rest m le.
      Ends-guard (wire_type == 2) wrong_wire_type
        λ _. Ends-bind (read_bytes-Leaves l rest le) λ p h. returns h

  pub IsGood-varint : (put : ℕ → M → M) → IsGood (some (varint_case put))
  unfolding varint_case
  IsGood-varint put = known λ l wire_type rest m le.
      Ends-guard (wire_type == 0) wrong_wire_type
        λ _. Ends-bind (read_varint-Leaves rest 0 0) λ p h. returns (omega arith)

  known_or_skipped :
      (l wire_type : ℕ) (pre rest : Bytes) (m : M) {o : Option (Case M)}
      → length rest ≤ length pre - 1
      → length pre ≤ l
      → IsGood o
      → Leaves (length pre - 1) (elim o [
        | some case ↦ case l wire_type rest m
        | none ↦ skip_unknown l pre >>= λ rest'. ok (m, rest')
      ])
  known_or_skipped l wire_type pre rest m h le (known good) =
      Ends-more (λ p k. omega arith) (good l wire_type rest m (omega arith))
  known_or_skipped l wire_type pre rest m h le unknown =
      Ends-bind (skip_unknown-Ends l pre) λ rest' k. returns k

module _ {M : Type 0} (switch : Switch M) (progress : IsProgressive switch) (l : ℕ) where
  read_field-Leaves :
      (pre : Bytes) (m : M) → length pre ≤ l → Leaves (length pre - 1) (read_field switch l pre m)
  unfolding read_field
  read_field-Leaves pre m le = Ends-bind (read_varint-Leaves pre 0 0) λ (wire, rest) h.
      Ends-guard (not (wire % 8 == 4)) end_group λ _.
        Ends-guard (ltb 0 (field_num wire) && ltb (field_num wire) (2 ^ 31)) illegal_tag
          λ _. known_or_skipped l (wire % 8) pre rest m h le (progress (field_num wire))

  read_fields-Ends :
      (fuel : ℕ) (input : Bytes) (m : M)
      → length input ≤ fuel
      → length input ≤ l
      → Ends (λ _. Unit {0}) (read_fields switch l fuel input m)
  unfolding read_fields
  read_fields-Ends fuel [] m h le = returns tt
  read_fields-Ends zero (b ∷ bs) m h le = absurd (omega arith)
  read_fields-Ends (suc fuel) (b ∷ bs) m h le =
      Ends-bind (read_field-Leaves (b ∷ bs) m le)
        λ (m', rest) k. read_fields-Ends fuel rest m' (omega arith) (omega arith)

-- The loop of Unmarshal, for any switch of which each case, where no more is left than the whole
-- input, returns a value or an error and leaves no more than it was given: it returns a message or
-- an error on every input, in one round for each byte at most.
pub unmarshal_with-Ends :
    {M : Type 0} (switch : Switch M)
    → IsProgressive switch
    → (input : Bytes) (m : M) → Ends (λ _. Unit {0}) (unmarshal_with switch input m)
unfolding unmarshal_with
unmarshal_with-Ends switch progress input m =
    read_fields-Ends switch progress (length input) (length input) input m (omega arith)
      (omega arith)
