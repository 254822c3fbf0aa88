-- ===== src/Base/Dicts.antt =====
-- `std::map` and `std::unordered_map` as association lists, kept in the order of the keys.
pub mod Order
use mathlib.Core.Path.{◌≡◌, refl}
use mathlib.Core.Bool.{Bool, true, false}
use mathlib.Core.Option.{Option, none, some}
use mathlib.Core.List.{List, [], ◌∷◌}
use native.Mathlib.Omega.{arith}
use artifact_system.Base.Bools.{if◌then◌else◌}
use artifact_system.Base.Keys.{Key}

abbrev pub Dict {ℓ κ} : Type ℓ → Type κ → Type (ℓ ⊔ κ)
Dict K V = List (K × V)

module _ {ℓ κ} {K : Type ℓ} {V : Type κ} ⦃o : Key K⦄ where
  unfoldable pub lookup : K → Dict K V → Option V
  lookup k [] = none
  lookup k ((j, v) ∷ m) = if o.beq j k then some v else lookup k m

  unfoldable pub contains : K → Dict K V → Bool
  contains k [] = false
  contains k ((j, v) ∷ m) = if o.beq j k then true else contains k m

  -- `m[k] = v`
  unfoldable pub insert : K → V → Dict K V → Dict K V
  insert k v [] = (k, v) ∷ []
  insert k v ((j, w) ∷ m) =
      if o.beq j k
      then (k, v) ∷ m
      else (if o.blt k j then (k, v) ∷ (j, w) ∷ m else ((j, w) ∷ insert k v m))

  -- `m.erase(k)`
  unfoldable pub erase : K → Dict K V → Dict K V
  erase k [] = []
  erase k ((j, w) ∷ m) = if o.beq j k then erase k m else ((j, w) ∷ erase k m)

  pub lookup-insert :
      (k j : K) (v : V) (m : Dict K V)
      → lookup j (insert k v m) ≡ (if o.beq k j then some v else lookup j m)
  unfolding lookup insert
  lookup-insert k j v [] = refl
  lookup-insert k j v ((i, w) ∷ m) =
      ground (arith, o.beq_iff k j, o.beq_iff i k, o.beq_iff i j, lookup-insert k j v m)

  pub lookup-erase :
      (k j : K) (m : Dict K V) → lookup j (erase k m) ≡ (if o.beq k j then none else lookup j m)
  unfolding lookup erase
  lookup-erase k j [] = ground arith
  lookup-erase k j ((i, w) ∷ m) =
      ground (arith, o.beq_iff k j, o.beq_iff i k, o.beq_iff i j, lookup-erase k j m)

  pub contains-eq-false_of_none : (k : K) (m : Dict K V) → lookup k m ≡ none → contains k m ≡ false
  unfolding lookup contains
  contains-eq-false_of_none k [] h = refl
  contains-eq-false_of_none k ((i, w) ∷ m) h = ground (arith, contains-eq-false_of_none k m)

  pub contains-eq-true_of_some :
      (k : K) (m : Dict K V) (v : V) → lookup k m ≡ some v → contains k m ≡ true
  unfolding lookup contains
  contains-eq-true_of_some k [] v h = cc
  contains-eq-true_of_some k ((i, w) ∷ m) v h = ground (arith, contains-eq-true_of_some k m v)
