-- ===== src/Schedule/Query/Listing.antt =====
-- The listing query shows what the store holds.
use burnt.Base.{
  ℕ, ◌^◌, ◌/◌, ◌%◌, ◌<◌, ◌≡◌, refl, some, List, [], ◌∷◌, ◌++◌, append-nil, append_assoc, map, All,
  Bytes, length, trim_prefix, trim_prefix-none, strip_prefix, ok, arith,
}
use burnt.Sdk.{Sdk}
use burnt.Sdk.Laws.{BigEndianLaws}
use burnt.Messages.ScheduledCall.Codec.{unmarshal-field}
use burnt.Wire.Written.{bytes_field}
use burnt.Schedule.World.{World}
use burnt.Schedule.Keys.Distinct.{IsSigner, IsContract, take_front, drop_front, take_all}
use burnt.Schedule.Keeper.{iterate_entries, iterate_scheduled_calls}
use burnt.Messages.QueryScheduledCall.{QueryScheduledCall}
use burnt.Schedule.Query.{collect, query_scheduled_calls}

-- A scheduled call, as its key and its value give it.
pub record Due : Type 0 where
  pub height : ℕ
  pub signer : Bytes
  pub contract : Bytes
  pub body : Bytes

abbrev pub IsDue : Due → Type 0
IsDue d = (d.height < 2 ^ 56) × IsSigner d.signer × IsContract d.contract × (length d.body < 2 ^ 62)

module _ (sdk : Sdk) where
  -- Its entry in the prefix store of the block heights.
  abbrev pub entry_of : Due → Bytes × Bytes
  entry_of d =
      (sdk.uint64_to_big_endian d.height ++ (d.signer ++ d.contract), bytes_field 0x0a d.body)

  abbrev pub shown : Due → QueryScheduledCall
  shown d = record {
    contract = sdk.bech32 d.contract;
    call_body = d.body;
    height = d.height;
    signer = d.signer;
  }

  module _ (be : BigEndianLaws sdk) where
    -- No height below 2 ^ 56 begins with the prefix that is cut off once more.
    uncut : (d : Due) → IsDue d → trim_prefix (entry_of d).0 (1 ∷ []) ≡ (entry_of d).0
    unfolding strip_prefix
    uncut d h =
        trim_prefix-none (1 ∷ []) (entry_of d).0
          (let e : d.height / 2 ^ 56 % 256 ≡ 0 = omega arith in rw (be.writes d.height, e) refl)

    eight : (d : Due) → length (sdk.uint64_to_big_endian d.height) ≡ 8
    eight d = rw (be.writes d.height) refl

    -- One round of the loop.
    entry_shown :
        (d : Due) (rest : List (Bytes × Bytes)) (acc : List QueryScheduledCall)
        → IsDue d
        → iterate_entries sdk (collect sdk) (entry_of d ∷ rest) acc
          ≡ iterate_entries sdk (collect sdk) rest (acc ++ shown d ∷ [])
    unfolding iterate_entries collect
    entry_shown d rest acc h =
        rw
          (
            uncut d h,
            take_front 8 (sdk.uint64_to_big_endian d.height) (d.signer ++ d.contract) (eight d),
            drop_front 8 (sdk.uint64_to_big_endian d.height) (d.signer ++ d.contract) (eight d),
            take_front 20 d.signer d.contract h.1,
            drop_front 20 d.signer d.contract h.1,
            take_all 32 d.contract h.2,
            be.writes d.height,
            be.reads d.height (omega arith),
            unmarshal-field (record { call_body = d.body }) h.3,
          )
          refl

    entries_shown :
        (ds : List Due) (acc : List QueryScheduledCall)
        → All IsDue ds
        → iterate_entries sdk (collect sdk) (map entry_of ds) acc ≡ ok (acc ++ map shown ds)
    unfolding iterate_entries
    entries_shown [] acc h = rw (append-nil acc) refl
    entries_shown (d ∷ ds) acc h =
        rw
          (
            entry_shown d (map entry_of ds) acc h.0,
            entries_shown ds (acc ++ shown d ∷ []) h.1,
            append_assoc acc (shown d ∷ []) (map shown ds),
          )
          refl

    -- With the laws of big-endian numbers: where the iterator over the heights walks through the
    -- entries of calls below height 2 ^ 56, with signers of 20 bytes, contracts of at most 32 and
    -- bodies below 2 ^ 62 bytes, the query lists each of these calls once, in that order.
    pub query_scheduled_calls-shown :
        (ds : List Due) (w : World sdk)
        → All IsDue ds
        → sdk.entries w.store (1 ∷ []) ≡ map entry_of ds
        → query_scheduled_calls sdk (some tt) w ≡ ok (map shown ds)
    unfolding query_scheduled_calls iterate_scheduled_calls
    query_scheduled_calls-shown ds w h e = rw e (entries_shown ds [] h)
