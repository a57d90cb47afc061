-- ===== src/Wire/Nested.antt =====
-- A field that holds a message of another package, such as a coin: event.pb.go.
use burnt.Base.{
  ℕ, ◌+◌, ◌-◌, ◌%◌, ◌^◌, ◌≤◌, ◌<◌, ◌≡◌, refl, sym, ap, ◌∙◌, Option, none, some, [], ◌∷◌, ◌++◌,
  append_assoc, length-append, Bytes, length, ◌==◌, Result, ok, guard, ◌>>=◌, ◌>>◌, wrong_wire_type,
  arith,
}
use burnt.Wire.Varint.{sov}
use burnt.Wire.Sov.{sov-eq-length}
use burnt.Wire.Groups.{varint, length-groups}
use burnt.Wire.Buffer.{Buffer, put_varint, put_byte}
use burnt.Wire.Written.{Writes, Writes-then, room, put_varint-Writes, put_byte-Writes}
use burnt.Wire.Reader.{int_limit, read_bytes, Case, Switch, field_num}
use burnt.Wire.RoundTrip.{Reads, Reads-field, read_field-case, read_bytes-varint}

-- The codec of the message, generated in its own package.
pub record Codec (M : Type 0) : Type 0 where
  pub size : M → ℕ
  pub marshal_to_sized_buffer : M → Buffer → Result Buffer
  pub unmarshal : Bytes → M → Result M
  pub empty : M

-- It fills what its size counts, and reads back what it wrote.
pub record CodecLaws {M : Type 0} (codec : Codec M) : Type 0 where
  pub encoding : M → Bytes
  pub counts : (m : M) → codec.size m ≡ length (encoding m)
  pub writes : (m : M) → Writes (codec.marshal_to_sized_buffer m) (encoding m)
  pub reads : (m : M) → codec.unmarshal (encoding m) codec.empty ≡ ok m

module _ {N : Type 0} (codec : Codec N) where
  -- A pointer to a message: nothing if it is nil.
  unfoldable pub put_message_field : ℕ → Option N → Buffer → Result Buffer
  put_message_field tag none w = ok w
  put_message_field tag (some n) w = do
    w1 ← codec.marshal_to_sized_buffer n w
    w2 ← put_varint (w.i - w1.i) w1
    put_byte tag w2

  unfoldable pub message_field_size : Option N → ℕ
  message_field_size none = 0
  message_field_size (some n) = 1 + codec.size n + sov (codec.size n)

  abbrev pub or_fresh : Option N → N
  or_fresh none = codec.empty
  or_fresh (some n) = n

  -- A message is read into the one that is there, or into a fresh one.
  unfoldable pub message_case : {M : Type 0} → (M → Option N) → (N → M → M) → Case M
  message_case held put l wire_type rest m = do
    guard (wire_type == 2) wrong_wire_type
    (b, rest') ← read_bytes l rest
    n ← codec.unmarshal b (or_fresh (held m))
    ok (put n m, rest')

  module _ (laws : CodecLaws codec) where
    -- The field as it is written.
    unfoldable pub message_field : ℕ → Option N → Bytes
    message_field tag none = []
    message_field tag (some n) = tag ∷ (varint (length (laws.encoding n)) ++ laws.encoding n)

    -- Its encoding is below 2 ^ 60 bytes.
    abbrev pub IsShort : Option N → Type 0
    IsShort none = Unit
    IsShort (some n) = length (laws.encoding n) < 2 ^ 60

    pub put_message_field-Writes :
        (tag : ℕ) (o : Option N)
        → IsShort o
        → Writes (put_message_field tag o) (message_field tag o)
    unfolding put_message_field message_field
    put_message_field-Writes tag none h n done = let e : n + 0 ≡ n = omega arith in rw e refl
    put_message_field-Writes tag (some m) h n done =
        rw (split, laws.writes m base done, counted)
          (head n (laws.encoding m ++ done)
            ∙ ap (λ b. ok (room n (tag ∷ b)))
                (sym (append_assoc (varint (length (laws.encoding m))) (laws.encoding m) done)))
      where
        front : Bytes
        front = tag ∷ varint (length (laws.encoding m))

        base : ℕ
        base = n + length front

        split :
            n + length (tag ∷ (varint (length (laws.encoding m)) ++ laws.encoding m))
            ≡ base + length (laws.encoding m)
        split = omega (arith, length-append (varint (length (laws.encoding m))) (laws.encoding m))

        counted : base + length (laws.encoding m) - base ≡ length (laws.encoding m)
        counted = omega arith

        head : Writes (λ w. put_varint (length (laws.encoding m)) w >>= put_byte tag) front
        head =
            Writes-then (put_varint (length (laws.encoding m))) (put_byte tag)
              (varint (length (laws.encoding m))) (tag ∷ [])
              (put_varint-Writes (length (laws.encoding m)) (omega arith)) (put_byte-Writes tag)

    pub message_field_size-eq-length :
        (tag : ℕ) (o : Option N) → IsShort o → message_field_size o ≡ length (message_field tag o)
    unfolding message_field_size message_field
    message_field_size-eq-length tag none h = refl
    message_field_size-eq-length tag (some m) h = rw (laws.counts m) (
        omega (
          arith,
          sov-eq-length (length (laws.encoding m)) (omega arith),
          length-append (varint (length (laws.encoding m))) (laws.encoding m),
        ))

    -- The length of the encoding, and eleven bytes more at most.
    abbrev pub length_of : Option N → ℕ
    length_of none = 0
    length_of (some m) = length (laws.encoding m)

    pub length-message_field :
        (tag : ℕ) (o : Option N) → length (message_field tag o) ≤ length_of o + 11
    unfolding message_field varint
    length-message_field tag none = omega arith
    length-message_field tag (some m) = omega (
      arith,
      length-append (varint (length (laws.encoding m))) (laws.encoding m),
      length-groups 9 (length (laws.encoding m)),
    )

    module _ {M : Type 0} (switch : Switch M) (l : ℕ) (held : M → Option N) (put : N → M → M) where
      message_case-reads :
          (m : M) (n : N) (input rest : Bytes)
          → held m ≡ none
          → read_bytes l input ≡ ok (laws.encoding n, rest)
          → message_case held put l 2 input m ≡ ok (put n m, rest)
      unfolding message_case
      message_case-reads m n input rest fresh read = rw (read, fresh, laws.reads n) refl

      pub Reads-message :
          (tag : ℕ)
          → l < int_limit
          → (tag < 128) × (8 ≤ tag) × (tag % 8 ≡ 2)
          → switch (field_num tag) ≡ some (message_case held put)
          → (o : Option N) (rest : Bytes) (m m' : M) → held m ≡ none
          → (filled : Option N → M) → filled none ≡ m
          → ((n : N) → filled (some n) ≡ put n m)
          → Reads switch l rest (filled o) m'
          → Reads switch l (message_field tag o ++ rest) m m'
      unfolding message_field
      Reads-message tag small t e none rest m m' fresh filled nothing one r = rw nothing at r
      Reads-message tag small t e (some n) rest m m' fresh filled nothing one r =
          Reads-field switch l tag (varint (length (laws.encoding n)) ++ laws.encoding n) rest m
            (put n m) m'
            (λ k.
              read_field-case switch l tag (message_case held put) _ m (t.0, t.1, omega arith) e
              ∙ accepts k)
            (rw (one n) at r)
        where
          accepts :
              length ((varint (length (laws.encoding n)) ++ laws.encoding n) ++ rest) < l
              → message_case held put l
                  (tag % 8)
                  ((varint (length (laws.encoding n)) ++ laws.encoding n) ++ rest)
                  m
                ≡ ok (put n m, rest)
          accepts k =
              rw (t.2, append_assoc (varint (length (laws.encoding n))) (laws.encoding n) rest)
                (message_case-reads m n _ rest fresh (
                  read_bytes-varint l (laws.encoding n) rest
                    (omega (
                      arith,
                      length-append (varint (length (laws.encoding n)) ++ laws.encoding n) rest,
                      length-append (varint (length (laws.encoding n))) (laws.encoding n),
                    ))
                    small))
