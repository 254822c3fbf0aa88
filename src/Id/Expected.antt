-- ===== src/Id/Expected.antt =====
-- `std::expected`, and the errors of store/block_store.h.
use artifact_system.Base.{◌≡◌, refl, ◌⊎◌, inl, inr}

pub data Expected {ℓ κ} (E : Type ℓ) (A : Type κ) : Type (ℓ ⊔ κ) where
  value : A → Expected E A
  unexpected : E → Expected E A

pub data StoreError : Type 0 where
  not_found already_exists resource_exhausted unavailable invalid_argument : StoreError

pub Expected-cases {ℓ κ} :
    {E : Type ℓ} {A : Type κ} (r : Expected E A)
    → ((a : A) × (r ≡ value a)) ⊎ ((e : E) × (r ≡ unexpected e))
Expected-cases (value a) = inl (a, refl)
Expected-cases (unexpected e) = inr (e, refl)
