-- ===== src/Wire/Written.antt =====
-- What the writer of a message leaves in its buffer: it fills a zeroed buffer of the right size
-- exactly, from its end towards its start.
use burnt.Base.{
  ℕ, zero, suc, ◌+◌, ◌-◌, ◌≡◌, refl, some, [], ◌∷◌, ◌++◌, append_assoc, append-nil, arith, Bytes,
  length, take, drop, replicate, set?, set?-append, length-append, length-replicate, take-append,
  drop-append, replicate-append, ltb, ◌==◌, if◌then◌else◌, Result, ok, ◌>>=◌, ◌≤◌, nonzero,
  positive,
}
use burnt.Wire.Varint.{sov, write_groups}
use burnt.Wire.Sov.{sov-eq-length}
use burnt.Wire.Groups.{IsU64, length-groups, groups, varint, write_groups-fills}
use burnt.Wire.Buffer.{
  Buffer, put_bytes, put_byte, put_varint, put_bytes_field, put_varint_field, bytes_field_size,
  varint_field_size, marshal_sized,
}

-- `n` zero bytes are left in front of what is written.
abbrev pub room : ℕ → Bytes → Buffer
room n done = record { bytes = replicate n 0 ++ done; i = n }

-- A filler writes exactly `b` in front of what is written.
abbrev pub Writes : (Buffer → Result Buffer) → Bytes → Type 0
Writes fill b = (n : ℕ) (done : Bytes) → fill (room (n + length b) done) ≡ ok (room n (b ++ done))

split_room :
    (n k : ℕ) (done : Bytes)
    → replicate (n + k) 0 ++ done ≡ replicate n 0 ++ (replicate k 0 ++ done)
split_room n k done =
    rw (← replicate-append {A = ℕ} n k 0) (append_assoc (replicate n 0) (replicate k 0) done)

take_room : (n k : ℕ) (done : Bytes) → take n (replicate (n + k) 0 ++ done) ≡ replicate n 0
take_room n k done =
    rw (split_room n k done)
      (rw length-replicate at (take-append (replicate n 0) (replicate k 0 ++ done)))

drop_room : (n : ℕ) (done : Bytes) → drop n (replicate n 0 ++ done) ≡ done
drop_room n done = rw length-replicate at (drop-append (replicate n 0) done)

pub put_bytes-Writes : (b : Bytes) → Writes (put_bytes b) b
unfolding put_bytes
put_bytes-Writes b n done =
    let e : n + length b - length b ≡ n = omega arith in
    rw (e, drop_room (n + length b) done, take_room n (length b) done) (ground arith)

pub put_byte-Writes : (b : ℕ) → Writes (put_byte b) (b ∷ [])
unfolding put_byte
put_byte-Writes b n done = ground (arith, zeroed)
  where
    e : n + 1 - 1 ≡ n
    e = omega arith

    zeroed : set? (replicate (n + 1) 0 ++ done) (n + 1 - 1) b ≡ some (replicate n 0 ++ b ∷ done)
    zeroed =
        rw (e, split_room n 1 done) (rw length-replicate at (set?-append (replicate n 0) done 0 b))

filled :
    (v : ℕ)
    → IsU64 v
    → (n : ℕ) (done : Bytes)
    → write_groups 10 (replicate (n + length (varint v)) 0 ++ done) n v
      ≡ ok (replicate n 0 ++ (varint v ++ done))
unfolding varint
filled v h n done = rw (split_room n (length (groups 9 v)) done) (
    rw length-replicate at (
      write_groups-fills 9 10 v (replicate n 0) (replicate (length (groups 9 v)) 0) done
        (omega arith) (omega arith) (length-replicate _ 0)))

pub put_varint-Writes : (v : ℕ) → IsU64 v → Writes (put_varint v) (varint v)
unfolding put_varint
put_varint-Writes v h n done =
    let e : n + length (varint v) - sov v ≡ n = omega (arith, sov-eq-length v h) in
    rw (e, filled v h n done) (ground (arith, sov-eq-length v h))

-- Two fillers in a row: the second one stands in front.
pub Writes-then :
    (f g : Buffer → Result Buffer) (b c : Bytes)
    → Writes f b
    → Writes g c
    → Writes (λ w. f w >>= g) (c ++ b)
Writes-then f g b c hf hg n done =
    let e : n + length (c ++ b) ≡ n + length c + length b = omega (arith, length-append c b) in
    rw (e, hf (n + length c) done, hg n (b ++ done), append_assoc c b done) refl

-- A field of bytes or text as it is written: its tag, its length and itself, or nothing.
unfoldable pub bytes_field : ℕ → Bytes → Bytes
bytes_field tag b = if ltb 0 (length b) then tag ∷ (varint (length b) ++ b) else []

unfoldable pub varint_field : ℕ → ℕ → Bytes
varint_field tag v = if v == 0 then [] else tag ∷ varint v

-- A field takes ten bytes more than its text and its tag, at most.
pub length-bytes_field : (tag : ℕ) (b : Bytes) → length (bytes_field tag b) ≤ length b + 11
unfolding bytes_field varint
length-bytes_field tag b =
    ground (arith, length-append (varint (length b)) b, length-groups 9 (length b))

pub length-varint_field : (tag v : ℕ) → length (varint_field tag v) ≤ 11
unfolding varint_field varint
length-varint_field tag v = ground (arith, length-groups 9 v)

skip_field : Writes ok []
skip_field n done = let e : n + 0 ≡ n = omega arith in rw e refl

pub put_bytes_field-Writes :
    (tag : ℕ) (b : Bytes) → IsU64 (length b) → Writes (put_bytes_field tag b) (bytes_field tag b)
unfolding put_bytes_field bytes_field
put_bytes_field-Writes tag [] h n done = skip_field n done
put_bytes_field-Writes tag (x ∷ b) h n done = rw (positive (length b)) (
    Writes-then (put_bytes (x ∷ b)) (λ w. put_varint (length (x ∷ b)) w >>= put_byte tag) (x ∷ b)
      (tag ∷ varint (length (x ∷ b))) (put_bytes-Writes (x ∷ b))
      (Writes-then (put_varint (length (x ∷ b))) (put_byte tag) (varint (length (x ∷ b))) (tag ∷ [])
        (put_varint-Writes _ h) (put_byte-Writes tag))
      n done)

pub put_varint_field-Writes :
    (tag v : ℕ) → IsU64 v → Writes (put_varint_field tag v) (varint_field tag v)
unfolding put_varint_field varint_field
put_varint_field-Writes tag zero h n done = skip_field n done
put_varint_field-Writes tag (suc v) h n done = rw (nonzero v) (
    Writes-then (put_varint (suc v)) (put_byte tag) (varint (suc v)) (tag ∷ [])
      (put_varint-Writes _ h) (put_byte-Writes tag) n done)

pub bytes_field_size-eq-length :
    (tag : ℕ) (b : Bytes) → IsU64 (length b) → bytes_field_size b ≡ length (bytes_field tag b)
unfolding bytes_field_size bytes_field
bytes_field_size-eq-length tag [] h = refl
bytes_field_size-eq-length tag (x ∷ b) h = rw (positive (length b)) (
    omega
      (arith, sov-eq-length (length (x ∷ b)) h, length-append (varint (length (x ∷ b))) (x ∷ b)))

pub varint_field_size-eq-length :
    (tag v : ℕ) → IsU64 v → varint_field_size v ≡ length (varint_field tag v)
unfolding varint_field_size varint_field
varint_field_size-eq-length tag zero h = refl
varint_field_size-eq-length tag (suc v) h = rw (nonzero v) (omega (arith, sov-eq-length (suc v) h))

-- A message whose `Size` is right is marshalled to what its filler writes.
pub marshal_sized-Writes :
    (size : ℕ) (fill : Buffer → Result Buffer) (b : Bytes)
    → size ≡ length b
    → Writes fill b
    → marshal_sized size fill ≡ ok b
unfolding marshal_sized
marshal_sized-Writes size fill b e h = rw e (ground (arith, exact, take_all))
  where
    z : 0 + length b ≡ length b
    z = omega arith

    exact :
        fill (record { bytes = replicate (length b) 0; i = length b })
        ≡ ok (record { bytes = b; i = 0 })
    exact = rw (z, append-nil (replicate {A = ℕ} (length b) 0), append-nil b) at (h 0 [])

    take_all : take (length b - 0) b ≡ b
    take_all =
        let e0 : length b - 0 ≡ length b = omega arith in
        rw e0 (rw (append-nil b) at (take-append b []))
