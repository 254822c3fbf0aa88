-- ===== src/Storage/Status.antt =====
-- `absl::StatusOr`, by the codes that the modelled layers return; messages are left out.
use artifact_system.Base.{◌≡◌, refl, ◌⊎◌, inl, inr}

-- `unfinished` is the model's own: a loop that used up its fuel.
pub data StatusCode : Type 0 where
  aborted already_exists invalid_argument not_found failed_precondition internal unfinished :
      StatusCode

pub data StatusOr {ℓ} (A : Type ℓ) : Type ℓ where
  ok : A → StatusOr A
  failed : StatusCode → StatusOr A

pub StatusOr-cases {ℓ} :
    {A : Type ℓ} (r : StatusOr A) → ((a : A) × (r ≡ ok a)) ⊎ ((c : StatusCode) × (r ≡ failed c))
StatusOr-cases (ok a) = inl (a, refl)
StatusOr-cases (failed c) = inr (c, refl)
