-- ===== src/Base/Dicts/Order.antt =====
-- The order of the keys in a `std::map`, which a walk over the map meets.
use mathlib.Core.Path.{◌≡◌, refl, subst}
use mathlib.Core.Bool.{true}
use mathlib.Core.Logic.{inl, inr}
use mathlib.Core.Option.{none}
use mathlib.Core.List.{[], ◌∷◌}
use native.Mathlib.Omega.{arith}
use artifact_system.Base.Bools.{if◌then◌else◌, if_both, Bool-cases}
use artifact_system.Base.Keys.{Key}
use artifact_system.Base.Dicts.{Dict, lookup, insert, erase}

module _ {ℓ κ} {K : Type ℓ} {V : Type κ} ⦃o : Key K⦄ where
  -- Every key of the dictionary is above `k`.
  abbrev pub Above : K → Dict K V → Type 0
  Above k [] = Unit {0}
  Above k ((j, v) ∷ m) = (o.blt k j ≡ true) × Above k m

  abbrev pub Ordered : Dict K V → Type 0
  Ordered [] = Unit {0}
  Ordered ((j, v) ∷ m) = Above j m × Ordered m

  pub Above-trans : (i j : K) (m : Dict K V) → o.blt i j ≡ true → Above j m → Above i m
  Above-trans i j [] h a = tt
  Above-trans i j ((k, v) ∷ m) h (a, rest) = (o.blt_trans i j k h a, Above-trans i j m h rest)

  pub lookup-eq-none_of_Above : (k : K) (m : Dict K V) → Above k m → lookup k m ≡ none
  unfolding lookup
  lookup-eq-none_of_Above k [] a = refl
  lookup-eq-none_of_Above k ((j, v) ∷ m) (a, rest) =
      ground (arith, lookup-eq-none_of_Above k m rest, o.beq_iff j k, o.blt_irrefl k)

  insert-Above :
      (i k : K) (v : V) (m : Dict K V) → o.blt i k ≡ true → Above i m → Above i (insert k v m)
  unfolding insert
  insert-Above i k v [] h a = (h, tt)
  insert-Above i k v ((j, w) ∷ m) h (a, rest) =
      if_both (Above i) (o.beq j k) ((k, v) ∷ m)
        (if o.blt k j then (k, v) ∷ (j, w) ∷ m else ((j, w) ∷ insert k v m)) (h, rest)
        (if_both (Above i) (o.blt k j) ((k, v) ∷ (j, w) ∷ m) ((j, w) ∷ insert k v m) (h, (a, rest))
          (a, insert-Above i k v m h rest))

  pub insert-Ordered : (k : K) (v : V) (m : Dict K V) → Ordered m → Ordered (insert k v m)
  unfolding insert
  insert-Ordered k v [] a = (tt, tt)
  insert-Ordered k v ((j, w) ∷ m) (a, rest) = elim (Bool-cases (o.beq j k)) [
    | inl same ↦ rw same (subst (λ i. Above i m) ((o.beq_iff j k).0 same) a, rest)
    | inr other ↦ elim (Bool-cases (o.blt k j)) [
      | inl below ↦ rw (other, below) ((below, Above-trans k j m below a), (a, rest))
      | inr above ↦
          rw (other, above)
            (
              insert-Above j k v m
                  (o.blt_total k j (ground (arith, o.beq_iff j k, o.beq_iff k j)) above) a,
              insert-Ordered k v m rest,
            )
    ]
  ]

  erase-Above : (i k : K) (m : Dict K V) → Above i m → Above i (erase k m)
  unfolding erase
  erase-Above i k [] a = tt
  erase-Above i k ((j, w) ∷ m) (a, rest) =
      if_both (Above i) (o.beq j k) (erase k m) ((j, w) ∷ erase k m) (erase-Above i k m rest)
        (a, erase-Above i k m rest)

  pub erase-Ordered : (k : K) (m : Dict K V) → Ordered m → Ordered (erase k m)
  unfolding erase
  erase-Ordered k [] a = tt
  erase-Ordered k ((j, w) ∷ m) (a, rest) =
      if_both Ordered (o.beq j k) (erase k m) ((j, w) ∷ erase k m) (erase-Ordered k m rest)
        (erase-Above j k m a, erase-Ordered k m rest)
