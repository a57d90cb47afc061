-- ===== src/Base/Ends.antt =====
-- Total correctness of calls: `Ends P r` says that `r` is a value with the property `P` or an error,
-- and neither a panic nor `stuck`. The rules follow the shape of a `do` block.
use mathlib.Core.Bool.{Bool, true, false}
use mathlib.Core.Path.{◌≡◌}
use mathlib.Core.Logic.{◌≢◌}
use burnt.Base.Tests.{if◌then◌else◌}
use burnt.Base.Results.{Result, ok, err, panic, stuck, Error, guard, ◌>>=◌, ◌>>◌}

pub data Ends {ℓ κ} {A : Type ℓ} (P : A → Type κ) : Result A → Type (ℓ ⊔ κ) where
  returns : {a : A} → P a → Ends P (ok a)
  fails : (e : Error) → Ends P (err e)

pub Ends-bind {ℓ κ λ₁ λ₂} :
    {A : Type ℓ} {B : Type κ} {P : A → Type λ₁} {Q : B → Type λ₂} {m : Result A} {f : A → Result B}
    → Ends P m
    → ((a : A) → P a → Ends Q (f a))
    → Ends Q (m >>= f)
Ends-bind (returns {a = a} h) k = k a h
Ends-bind (fails e) k = fails e

pub Ends-guard {ℓ κ} :
    {A : Type ℓ} {P : A → Type κ} (test : Bool) (e : Error) {m : Result A}
    → (test ≡ true → Ends P m)
    → Ends P (guard test e >> m)
Ends-guard true e h = h (λ i. true)
Ends-guard false e h = fails e

pub Ends-if {ℓ κ} :
    {A : Type ℓ} {P : A → Type κ} (test : Bool) {m n : Result A}
    → Ends P m
    → Ends P n
    → Ends P (if test then m else n)
Ends-if true h k = h
Ends-if false h k = k

pub Ends-more {ℓ κ λ₁} :
    {A : Type ℓ} {P : A → Type κ} {Q : A → Type λ₁} {m : Result A}
    → ((a : A) → P a → Q a)
    → Ends P m
    → Ends Q m
Ends-more k (returns {a = a} h) = returns (k a h)
Ends-more k (fails e) = fails e

-- A call that ends neither panics nor runs out of fuel.
pub Ends-settles {ℓ κ} :
    {A : Type ℓ} {P : A → Type κ} {m : Result A} → Ends P m → (m ≢ panic) × (m ≢ stuck)
Ends-settles (returns h) = (λ e. cc, λ e. cc)
Ends-settles (fails x) = (λ e. cc, λ e. cc)

-- What is known of the value of a call that ends.
pub Ends-ok {ℓ κ} :
    {A : Type ℓ} {P : A → Type κ} (m : Result A) {a : A}
    → Ends P m
    → ((x y : A) → x ≡ y → P x → P y)
    → m ≡ ok a
    → P a
Ends-ok (ok x) {a = a} (returns h) move e = move x a (cc) h
Ends-ok (err x) (fails y) move e = cc
Ends-ok panic h move e = elim h [ ]
Ends-ok stuck h move e = elim h [ ]
