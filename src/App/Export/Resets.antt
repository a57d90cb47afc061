-- ===== src/App/Export/Resets.antt =====
-- What the resets of the zero-height export leave in the stores.
use burnt.Base.{
  ◌≡◌, ◌≢◌, ◌⊎◌, inl, inr, refl, sym, ◌∙◌, List, [], ◌∷◌, ◌++◌, map, All, Bytes, true, bytes_equal,
  bytes_equal_refl, bytes_equal-ne, bytes_equal_sound, arith, All-append, append_assoc, Bool-cases,
  positive,
}
use mathlib.Core.Logic.{◌↔◌}
use burnt.Sdk.Laws.{In, here, there}
use burnt.App.Keepers.{Keepers, Unbonding, UnbondingEntry, Validator, SigningInfo}
use burnt.App.Keepers.Laws.{replaced, IsKeyed, signing_key, CollectionLaws}
use burnt.App.Export.{contains, write_each, reset_validator, reset_signing_infos, length}

-- A redelegation or an unbonding delegation, with 0 for the creation height of every entry.
abbrev pub with_heights_zero : Unbonding → Unbonding
with_heights_zero u = record u {
  entries = map (λ (e : UnbondingEntry). record e { creation_height = 0 }) u.entries;
}

module _ {V : Type 0} (key : V → Bytes) where
  replaced-other : (v : V) (xs : List V) → All (λ y. key v ≢ key y) xs → replaced key v xs ≡ xs
  unfolding replaced
  replaced-other v [] h = refl
  replaced-other v (x ∷ xs) h =
      rw (bytes_equal-ne (key x) (key v) (λ e. h.0 (sym e)), replaced-other v xs h.1) refl

  replaced-append :
      (v : V) (front rest : List V) (x : V)
      → key x ≡ key v
      → All (λ y. key v ≢ key y) front
      → All (λ y. key v ≢ key y) rest
      → replaced key v (front ++ x ∷ rest) ≡ front ++ v ∷ rest
  unfolding replaced
  replaced-append v [] rest x e h h' =
      rw (e, bytes_equal_refl (key v), replaced-other v rest h') refl
  replaced-append v (y ∷ front) rest x e h h' =
      rw
        (bytes_equal-ne (key y) (key v) (λ p. h.0 (sym p)), replaced-append v front rest x e h.1 h')
        refl

  -- No value that is left has the key of one in front.
  abbrev IsApart : List V → List V → Type 0
  IsApart todo front = All (λ x. All (λ y. key x ≢ key y) front) todo

  IsApart-nil : (todo : List V) → IsApart todo []
  IsApart-nil [] = tt
  IsApart-nil (x ∷ todo) = (tt, IsApart-nil todo)

  IsApart-append :
      (x y : V) (todo front : List V)
      → key x ≡ key y
      → All (λ z. key x ≢ key z) todo
      → IsApart todo front
      → IsApart todo (front ++ y ∷ [])
  IsApart-append x y [] front e h k = tt
  IsApart-append x y (z ∷ todo) front e h k = (
    All-append (λ w. key z ≢ key w) front (y ∷ []) k.0 ((λ p. h.0 (e ∙ sym p)), tt),
    IsApart-append x y todo front e h.1 k.1,
  )

  module _ (f : V → V) (same : (v : V) → key (f v) ≡ key v) {C : Type 0} (entries : C → List V)
      (set : V → C → C)
      (law : (c : C) (v : V) → entries (set v c) ≡ replaced key v (entries c)) where
    -- A loop over the values left: those in front have been written, and have other keys.
    written :
        (todo front : List V) (c : C)
        → IsKeyed key todo
        → IsApart todo front
        → entries c ≡ front ++ todo
        → entries (write_each (λ v. set (f v)) todo c) ≡ front ++ map f todo
    unfolding write_each
    written [] front c d apart e = e
    written (x ∷ todo) front c d apart e = rw (append_assoc front (f x ∷ []) (map f todo)) at (
        written todo (front ++ f x ∷ []) (set (f x) c) d.1
          (IsApart-append x (f x) todo front (sym (same x)) d.0 apart.1) step)
      where
        step : entries (set (f x) c) ≡ (front ++ f x ∷ []) ++ todo
        step =
            law c (f x)
            ∙ rw (e, append_assoc front (f x ∷ []) todo)
                (replaced-append (f x) front todo x (sym (same x)) (rw (same x) apart.0)
                  (rw (same x) d.0))

    pub written_all :
        (c : C)
        → IsKeyed key (entries c)
        → entries (write_each (λ v. set (f v)) (entries c) c) ≡ map f (entries c)
    written_all c d = written (entries c) [] c d (IsApart-nil (entries c)) refl

module _ (k : Keepers) (laws : CollectionLaws k) where
  abbrev pub restarted : Bytes × SigningInfo → Bytes × SigningInfo
  restarted (addr, info) = (addr, record info { start_height = 0 })

  pub reset_signing_infos-map :
      (c : k.Chain) → k.signing_infos (reset_signing_infos k c) ≡ map restarted (k.signing_infos c)
  unfolding reset_signing_infos
  reset_signing_infos-map c =
      written_all signing_key restarted (λ v. refl) k.signing_infos
        (λ v. k.set_signing_info v.0 v.1) (λ c v. laws.infos-set c v.0 v.1) c (laws.infos_keyed c)

contains-In : (addrs : List Bytes) (a : Bytes) → contains addrs a ≡ true → In a addrs
unfolding contains
contains-In [] a e = cc
contains-In (b ∷ addrs) a e = elim (Bool-cases (bytes_equal b a)) [
  | inl same ↦ rw (bytes_equal_sound b a same) here
  | inr other ↦ there (contains-In addrs a (rw other at e))
]

In-contains : (addrs : List Bytes) (a : Bytes) → In a addrs → contains addrs a ≡ true
unfolding contains
In-contains [] a i = elim i [ ]
In-contains (b ∷ addrs) a here = rw (bytes_equal_refl a) refl
In-contains (b ∷ addrs) a (there i) = ground (arith, In-contains addrs a i)

module _ (k : Keepers) where
  -- A validator that an export for zero height resets has unbonding height 0, and is jailed exactly
  -- if it was, or if there is a list of allowed addresses without its address.
  pub reset_validator_jailed :
      (allowed : List Bytes) (addr : Bytes) (val : Validator)
      → let val' = reset_validator k allowed addr val in
        (val'.unbonding_height ≡ 0)
        × ((val'.jailed ≡ true)
            ↔ ((val.jailed ≡ true) ⊎ ((allowed ≢ []) × ¬ In (k.val_bech32 addr) allowed)))
  unfolding reset_validator
  reset_validator_jailed [] addr val =
      (refl, ((λ e. inl e), λ o. elim o [ inl e ↦ e | inr (ne, _) ↦ absurd (ne refl) ]))
  reset_validator_jailed (a ∷ allowed) addr val =
      elim (Bool-cases (contains (a ∷ allowed) (k.val_bech32 addr))) [
        | inl listed ↦
            rw (positive (length allowed), listed)
              (
                refl,
                (
                  (λ e. inl e),
                  λ o. elim o [
                    | inl e ↦ e
                    | inr (_, out) ↦ absurd (out (contains-In (a ∷ allowed) _ listed))
                  ],
                ),
              )
        | inr unlisted ↦
            rw (positive (length allowed), unlisted)
              (
                refl,
                (
                  (λ e. inr ((λ p. cc (p)), λ i. cc (In-contains (a ∷ allowed) _ i, unlisted))),
                  λ o. refl,
                ),
              )
      ]
