-- ===== src/Tests/Store.antt =====
-- A store of keys and values as a list, and that it behaves as the theorems ask of a store.
use burnt.Base.{
  ◌≡◌, ◌≢◌, refl, inl, inr, true, Option, some, none, List, [], ◌∷◌, ◌++◌, Bytes, bytes_equal,
  strip_prefix, strip_prefix-append, if◌then◌else◌, arith, Bool-cases, bytes_equal_refl,
  bytes_equal-ne, bytes_equal_sound,
}
use burnt.Sdk.Laws.{In, here, there}

abbrev pub Entries : Type 0
Entries = List (Bytes × Bytes)

unfoldable pub get : Entries → Bytes → Option Bytes
get [] key = none
get ((k, v) ∷ s) key = if bytes_equal k key then some v else get s key

unfoldable pub delete : Entries → Bytes → Entries
delete [] key = []
delete ((k, v) ∷ s) key = if bytes_equal k key then delete s key else (k, v) ∷ delete s key

unfoldable pub set : Entries → Bytes → Bytes → Entries
set s key value = (key, value) ∷ delete s key

unfoldable pub entries : Entries → Bytes → Entries
entries [] prefix_key = []
entries ((k, v) ∷ s) prefix_key = elim (strip_prefix prefix_key k) [
  | none ↦ entries s prefix_key
  | some rest ↦ (rest, v) ∷ entries s prefix_key
]

pub get-set_self : (s : Entries) (k v : Bytes) → get (set s k v) k ≡ some v
unfolding get set
get-set_self s k v = rw (bytes_equal_refl k) refl

pub get-delete_self : (s : Entries) (k : Bytes) → get (delete s k) k ≡ none
unfolding get delete
get-delete_self [] k = refl
get-delete_self ((j, v) ∷ s) k = ground (arith, get-delete_self s k)

pub get-delete_ne : (s : Entries) (k j : Bytes) → k ≢ j → get (delete s k) j ≡ get s j
unfolding get delete
get-delete_ne [] k j ne = refl
get-delete_ne ((i, v) ∷ s) k j ne =
    ground (arith, get-delete_ne s k j ne, bytes_equal-ne k j ne, bytes_equal_sound i k)

pub get-set_ne : (s : Entries) (k j v : Bytes) → k ≢ j → get (set s k v) j ≡ get s j
unfolding get set
get-set_ne s k j v ne = rw (bytes_equal-ne k j ne) (get-delete_ne s k j ne)

pub entries_complete :
    (s : Entries) (p k v : Bytes) → get s (p ++ k) ≡ some v → In (k, v) (entries s p)
unfolding get entries
entries_complete [] p k v e = ground arith
entries_complete ((j, u) ∷ s) p k v e = elim (Bool-cases (bytes_equal j (p ++ k))) [
  | inl same ↦ found same
  | inr other ↦ later (strip_prefix p j) (entries_complete s p k v (rw other at e))
]
  where
    found : bytes_equal j (p ++ k) ≡ true → In (k, v) (entries ((j, u) ∷ s) p)
    found same =
        let value : u ≡ v = ground (arith, e, same) in
        rw (bytes_equal_sound j (p ++ k) same, entries, strip_prefix-append p k, value) here

    later :
        (o : Option Bytes)
        → In (k, v) (entries s p)
        → In (k, v) (elim o [ none ↦ entries s p | some rest ↦ (rest, u) ∷ entries s p ])
    later none i = i
    later (some rest) i = there i
