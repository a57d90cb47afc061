-- ===== src/Schedule/EndBlock/Rounds.antt =====
-- The rounds of the loop over the calls that are due, and the turn of each of its entries.
use burnt.Base.{
  ℕ, ◌≡◌, refl, true, false, Bool, List, [], ◌∷◌, Bytes, Result, ok, err, panic, stuck,
  if◌then◌else◌,
}
use burnt.Base.Call.{Call, ◌>>=◌, pure}
use burnt.Sdk.{Sdk}
use burnt.Sdk.Laws.{In, here, there}
use burnt.Messages.ScheduledCall.{ScheduledCall}
use burnt.Schedule.World.{World}
use burnt.Schedule.Consume.{Consumer, consume_entry, consume_entries}
use burnt.Schedule.EndBlock.Halts.{consume_entry-GoesOn}

module _ (sdk : Sdk) where
  -- The rounds of the loop at the height `h`, from a world and the entries left to the same later.
  pub data Rounds (h : ℕ) (cb : Consumer sdk)
      : World sdk → List (Bytes × Bytes) → World sdk → List (Bytes × Bytes) → Type 0 where
    still : (w : World sdk) (l : List (Bytes × Bytes)) → Rounds h cb w l w l
    round :
        (entry : Bytes × Bytes) (w w1 w2 : World sdk) (l l2 : List (Bytes × Bytes))
        → consume_entry sdk h cb entry w ≡ (ok false, w1)
        → Rounds h cb w1 l w2 l2
        → Rounds h cb w (entry ∷ l) w2 l2

  -- The turn of an entry, in a loop from `w` and the entries `l` to `last`.
  pub record Turn (h : ℕ) (cb : Consumer sdk) (w : World sdk) (l : List (Bytes × Bytes))
      (entry : Bytes × Bytes) (last : World sdk) : Type 0 where
    pub before : World sdk
    pub after : World sdk
    pub rest : List (Bytes × Bytes)
    pub comes : Rounds h cb w l before (entry ∷ rest)
    pub consumed : consume_entry sdk h cb entry before ≡ (ok false, after)
    pub goes_on : Rounds h cb after rest last []

  -- What is left of a loop that completes, at one of its entries.
  module _ (h : ℕ) (cb : Consumer sdk)
      (goes : (s c : Bytes) (call : ScheduledCall) (w : World sdk) (stop : Bool)
        → (cb s c call w).0 ≡ ok stop
        → stop ≡ false) where
    first_round :
        (entry : Bytes × Bytes) (l : List (Bytes × Bytes)) (w : World sdk)
        → (consume_entries sdk h cb (entry ∷ l) w).0 ≡ ok tt
        → (w1 : World sdk) × (consume_entry sdk h cb entry w ≡ (ok false, w1))
          × (consume_entries sdk h cb (entry ∷ l) w ≡ consume_entries sdk h cb l w1)
    unfolding consume_entries
    first_round entry l w done =
        came (consume_entry sdk h cb entry w) done (consume_entry-GoesOn sdk h cb entry goes w)
      where
        rest : Bool → Call (World sdk) (Unit {0})
        rest stop = if stop then pure tt else consume_entries sdk h cb l

        came :
            (r : Result Bool × World sdk)
            → (◌>>=◌ {S = World sdk} {A = Bool} {B = Unit {0}} (λ v. r) rest w).0 ≡ ok tt
            → ((stop : Bool) → r.0 ≡ ok stop → stop ≡ false)
            → (w1 : World sdk) × (r ≡ (ok false, w1))
              × (◌>>=◌ {S = World sdk} {A = Bool} {B = Unit {0}} (λ v. r) rest w
                  ≡ consume_entries sdk h cb l w1)
        came (ok true, w1) e never = absurd (cc (never true refl))
        came (ok false, w1) e never = (w1, refl, refl)
        came (err x, w1) e never = absurd (cc)
        came (panic, w1) e never = absurd (cc)
        came (stuck, w1) e never = absurd (cc)

    consume_entries-Rounds :
        (l : List (Bytes × Bytes)) (w : World sdk)
        → (consume_entries sdk h cb l w).0 ≡ ok tt
        → Rounds h cb w l (consume_entries sdk h cb l w).1 []
    unfolding consume_entries
    consume_entries-Rounds [] w done = still w []
    consume_entries-Rounds (entry ∷ l) w done =
        let (w1, came, same) = first_round entry l w done in
        rw same (
          round entry w w1 (consume_entries sdk h cb l w1).1 l [] came
            (consume_entries-Rounds l w1 (rw (← same) done)))

    pub entry_comes :
        (entry : Bytes × Bytes) (l : List (Bytes × Bytes)) (w : World sdk)
        → In entry l
        → (consume_entries sdk h cb l w).0 ≡ ok tt
        → Turn h cb w l entry (consume_entries sdk h cb l w).1
    entry_comes entry _ w (here {l}) done =
        let (w1, came, same) = first_round entry l w done in
        record {
          before = w;
          after = w1;
          rest = l;
          comes = still w (entry ∷ l);
          consumed = came;
          goes_on = rw same (consume_entries-Rounds l w1 (rw (← same) done));
        }
    entry_comes entry _ w (there {x} {l} i) done =
        let (w1, came, same) = first_round x l w done in
        let t = entry_comes entry l w1 i (rw (← same) done) in
        rw same (record {
          before = t.before;
          after = t.after;
          rest = t.rest;
          comes = round x w w1 t.before l (entry ∷ t.rest) came t.comes;
          consumed = t.consumed;
          goes_on = t.goes_on;
        })
