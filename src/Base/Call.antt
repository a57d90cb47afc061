-- ===== src/Base/Call.antt =====
-- A call that changes a state: what it returns, and the state behind it. What was written before
-- an error or a panic stays written.
use mathlib.Core.Bool.{Bool}
use burnt.Base.Tests.{if◌then◌else◌}
use burnt.Base.Results.{Result, ok, err, panic, stuck, Error}

abbrev pub Call : Type 0 → Type 0 → Type 0
Call S A = S → Result A × S

module _ {S : Type 0} where
  abbrev pub pure : {A : Type 0} → A → Call S A
  pure a s = (ok a, s)

  abbrev pub lift : {A : Type 0} → Result A → Call S A
  lift r s = (r, s)

  abbrev pub get : Call S S
  get s = (ok s, s)

  abbrev pub put : S → Call S (Unit {0})
  put s' s = (ok tt, s')

  infixl 5 ◌>>=◌ ◌>>◌
  abbrev pub ◌>>=◌ : {A B : Type 0} → Call S A → (A → Call S B) → Call S B
  ◌>>=◌ m f s =
      let (r, s') = m s in
      elim r [ ok a ↦ f a s' | err e ↦ (err e, s') | panic ↦ (panic, s') | stuck ↦ (stuck, s') ]

  abbrev pub ◌>>◌ : {A B : Type 0} → Call S A → Call S B → Call S B
  m >> k = m >>= λ _. k

  -- `if !test { return err }`
  abbrev pub check : Bool → Error → Call S (Unit {0})
  check test e s = (if test then ok tt else err e, s)

-- A caller that looks at the error itself; a panic goes on through it.
abbrev pub attempt : {A : Type 0} → Result A → Result (Result A)
attempt (ok a) = ok (ok a)
attempt (err e) = ok (err e)
attempt panic = panic
attempt stuck = stuck

-- The `Must` functions panic on an error.
abbrev pub must : {A : Type 0} → Result A → Result A
must (ok a) = ok a
must (err e) = panic
must panic = panic
must stuck = stuck

-- A call whose error is only logged.
abbrev pub ignore : {S A : Type 0} → Call S A → Call S (Unit {0})
ignore m s =
    let (r, s') = m s in
    (elim r [ ok a ↦ ok tt | err e ↦ ok tt | panic ↦ panic | stuck ↦ stuck ], s')
