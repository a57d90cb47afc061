-- ===== src/Wire/RoundTrip.antt =====
-- Reading back what the writers of Wire/Written.antt leave, field by field.
use burnt.Base.{
  ℕ, zero, suc, ◌+◌, ◌%◌, ◌≤◌, ◌<◌, ◌≡◌, refl, ◌∙◌, some, [], ◌∷◌, ◌++◌, append_assoc, arith, Bytes,
  length, length-append, take-append, drop-append, ok, positive, nonzero,
}
use burnt.Wire.Varint.{read_varint}
use burnt.Wire.Groups.{IsU64, groups-short, varint, read_varint-varint}
use burnt.Wire.Written.{bytes_field, varint_field}
use burnt.Wire.Reader.{
  int_limit, read_bytes, Case, Switch, bytes_case, varint_case, read_field, read_fields,
  unmarshal_with, field_num, slice,
}

pub read_bytes-varint :
    (l : ℕ) (b rest : Bytes)
    → length b + length rest ≤ l
    → l < int_limit
    → read_bytes l (varint (length b) ++ (b ++ rest)) ≡ ok (b, rest)
unfolding read_bytes slice
read_bytes-varint l b rest h small =
    rw
      (
        read_varint-varint (length b) (b ++ rest) (omega arith),
        take-append b rest,
        drop-append b rest,
      )
      (ground (arith, length-append b rest))

-- A tag below 128 is one byte.
read_varint-tag :
    (tag : ℕ) (rest : Bytes) → tag < 128 → read_varint 0 0 (tag ∷ rest) ≡ ok (tag, rest)
unfolding varint
read_varint-tag tag rest h =
    rw (groups-short 9 tag h) at (read_varint-varint tag rest (omega arith))

module _ {M : Type 0} where
  bytes_case-reads :
      (put : Bytes → M → M) (l : ℕ) (m : M) (input : Bytes) {b rest : Bytes}
      → read_bytes l input ≡ ok (b, rest)
      → bytes_case put l 2 input m ≡ ok (put b m, rest)
  unfolding bytes_case
  bytes_case-reads put l m input h = rw h

  varint_case-reads :
      (put : ℕ → M → M) (l : ℕ) (m : M) (input : Bytes) {v : ℕ} {rest : Bytes}
      → read_varint 0 0 input ≡ ok (v, rest)
      → varint_case put l 0 input m ≡ ok (put v m, rest)
  unfolding varint_case
  varint_case-reads put l m input h = rw h

-- The tag of a field that the switch knows.
abbrev pub IsTag : ℕ → Type 0
IsTag tag = (tag < 128) × (8 ≤ tag) × (tag % 8 < 4)

module _ {M : Type 0} (switch : Switch M) (l : ℕ) where
  pub read_field-case :
      (tag : ℕ) (case : Case M) (rest : Bytes) (m : M)
      → IsTag tag
      → switch (field_num tag) ≡ some case
      → read_field switch l (tag ∷ rest) m ≡ case l (tag % 8) rest m
  unfolding read_field
  read_field-case tag case rest m (small, known, kind) e =
      rw (read_varint-tag tag rest small, e) (ground arith)

  -- With enough fuel the reader takes `input` and `m` to `m'`.
  abbrev pub Reads : Bytes → M → M → Type 0
  Reads input m m' =
      (fuel : ℕ)
      → length input ≤ fuel
      → length input ≤ l
      → read_fields switch l fuel input m ≡ ok m'

  pub Reads-nil : (m : M) → Reads [] m m
  unfolding read_fields
  Reads-nil m fuel h k = refl

  pub Reads-field :
      (x : ℕ) (body rest : Bytes) (m m1 m' : M)
      → (length (body ++ rest) < l → read_field switch l (x ∷ (body ++ rest)) m ≡ ok (m1, rest))
      → Reads rest m1 m'
      → Reads (x ∷ (body ++ rest)) m m'
  unfolding read_fields
  Reads-field x body rest m m1 m' e r zero h k = absurd (omega arith)
  Reads-field x body rest m m1 m' e r (suc fuel) h k =
      rw (e k)
        (r fuel (omega (arith, length-append body rest)) (omega (arith, length-append body rest)))

  -- A field of bytes or text; where it is empty nothing stands in the input.
  pub Reads-bytes :
      (tag : ℕ) (put : Bytes → M → M)
      → l < int_limit
      → (tag < 128) × (8 ≤ tag) × (tag % 8 ≡ 2)
      → switch (field_num tag) ≡ some (bytes_case put)
      → (b rest : Bytes) (m m' : M) → put [] m ≡ m
      → Reads rest (put b m) m'
      → Reads (bytes_field tag b ++ rest) m m'
  unfolding bytes_field
  Reads-bytes tag put small t e [] rest m m' same r = λ fuel h k. rw same at (r fuel h k)
  Reads-bytes tag put small t e (x ∷ b) rest m m' same r = rw (positive (length b)) (
      Reads-field tag (varint (suc (length b)) ++ x ∷ b) rest m (put (x ∷ b) m) m'
        (λ k. read_field-case tag (bytes_case put) _ m (t.0, t.1, omega arith) e ∙ accepts k) r)
    where
      found :
          length ((varint (suc (length b)) ++ x ∷ b) ++ rest) < l
          → read_bytes l ((varint (suc (length b)) ++ x ∷ b) ++ rest) ≡ ok (x ∷ b, rest)
      found k = rw (append_assoc (varint (suc (length b))) (x ∷ b) rest) (
          read_bytes-varint l (x ∷ b) rest
            (omega (
              arith,
              length-append (varint (suc (length b)) ++ x ∷ b) rest,
              length-append (varint (suc (length b))) (x ∷ b),
            ))
            small)

      accepts :
          length ((varint (suc (length b)) ++ x ∷ b) ++ rest) < l
          → bytes_case put l (tag % 8) ((varint (suc (length b)) ++ x ∷ b) ++ rest) m
            ≡ ok (put (x ∷ b) m, rest)
      accepts k = rw (t.2, bytes_case-reads put l m _ (found k))

  -- A field of a number; where it is zero nothing stands in the input.
  pub Reads-varint :
      (tag : ℕ) (put : ℕ → M → M)
      → (tag < 128) × (8 ≤ tag) × (tag % 8 ≡ 0)
      → switch (field_num tag) ≡ some (varint_case put)
      → (v : ℕ) (rest : Bytes) (m m' : M) → IsU64 v
      → put 0 m ≡ m
      → Reads rest (put v m) m'
      → Reads (varint_field tag v ++ rest) m m'
  unfolding varint_field
  Reads-varint tag put t e zero rest m m' u same r = λ fuel h k. rw same at (r fuel h k)
  Reads-varint tag put t e (suc v) rest m m' u same r = rw (nonzero v) (
      Reads-field tag (varint (suc v)) rest m (put (suc v) m) m'
        (λ k. read_field-case tag (varint_case put) _ m (t.0, t.1, omega arith) e ∙ accepts) r)
    where
      accepts : varint_case put l (tag % 8) (varint (suc v) ++ rest) m ≡ ok (put (suc v) m, rest)
      accepts = rw (t.2, varint_case-reads put l m _ (read_varint-varint (suc v) rest u))

pub unmarshal_with-Reads :
    {M : Type 0} (switch : Switch M) (input : Bytes) (m m' : M)
    → Reads switch (length input) input m m'
    → unmarshal_with switch input m ≡ ok m'
unfolding unmarshal_with
unmarshal_with-Reads switch input m m' r = r (length input) (omega arith) (omega arith)
