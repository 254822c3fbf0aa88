-- ===== src/Id/Client/Retry.antt =====
-- retry.h: the attempts of `retry_with_backoff`. `fn k` is what attempt `k` gives. The pauses
-- between attempts, which are random, change no result and are left out.
use native.Mathlib.Nat.{add-zero, zero-add}
use artifact_system.Base.{ℕ, zero, suc, ◌+◌, ◌≤◌, ◌<◌, ◌≡◌, refl, sym, ◌∙◌, ap, arith}
use artifact_system.Id.Expected.{Expected, value, unexpected}

-- `left` is `max_retries - attempt`.
unfoldable pub attempts {ℓ κ} :
    {E : Type ℓ} {A : Type κ} → (ℕ → Expected E A) → ℕ → ℕ → Expected E A
attempts fn zero attempt = fn attempt
attempts fn (suc left) attempt = elim (fn attempt) [
  | value a ↦ value a
  | unexpected e ↦ attempts fn left (suc attempt)
]

unfoldable pub retry_with_backoff {ℓ κ} :
    {E : Type ℓ} {A : Type κ} → (ℕ → Expected E A) → ℕ → Expected E A
unfolding attempts
retry_with_backoff fn max_retries = attempts fn max_retries 0

shift : (n j : ℕ) → n + suc j ≡ suc n + j
shift n j = omega arith

-- From attempt `from` on, the first of the attempts left that succeeds gives the result.
attempts_first {ℓ κ} :
    {E : Type ℓ} {A : Type κ} (fn : ℕ → Expected E A) (left from k : ℕ) (a : A)
    → k ≤ left
    → ((j : ℕ) → j < k → (e : E) × (fn (from + j) ≡ unexpected e))
    → fn (from + k) ≡ value a
    → attempts fn left from ≡ value a
unfolding attempts
attempts_first fn zero from zero a h fails done = rw (← add-zero from) done
attempts_first fn zero from (suc k) a h fails done = absurd (omega arith)
attempts_first fn (suc left) from zero a h fails done =
    let first : fn from ≡ value a = rw add-zero at done in rw (first, attempts) refl
attempts_first fn (suc left) from (suc k) a h fails done =
    let (e, first) = fails 0 (omega arith) in
    let failed : fn from ≡ unexpected e = rw add-zero at first in
    rw (failed, attempts)
      (attempts_first fn left (suc from) k a (omega arith)
        (λ j hj. let (e', p) = fails (suc j) (omega arith) in (e', ap fn (sym (shift from j)) ∙ p))
        (ap fn (sym (shift from k)) ∙ done))

attempts_fail {ℓ κ} :
    {E : Type ℓ} {A : Type κ} (fn : ℕ → Expected E A) (left from : ℕ) (e : E)
    → ((j : ℕ) → j < left → (d : E) × (fn (from + j) ≡ unexpected d))
    → fn (from + left) ≡ unexpected e
    → attempts fn left from ≡ unexpected e
unfolding attempts
attempts_fail fn zero from e fails last = rw (← add-zero from) last
attempts_fail fn (suc left) from e fails last =
    let (d, first) = fails 0 (omega arith) in
    let failed : fn from ≡ unexpected d = rw add-zero at first in
    rw (failed, attempts)
      (attempts_fail fn left (suc from) e
        (λ j hj. let (e', p) = fails (suc j) (omega arith) in (e', ap fn (sym (shift from j)) ∙ p))
        (ap fn (sym (shift from left)) ∙ last))

-- The caller gets the first success among the attempts 0 to `max_retries`, and if all of them fail
-- the error of the last.
pub retry_with_backoff_first {ℓ κ} :
    {E : Type ℓ} {A : Type κ} (fn : ℕ → Expected E A) (max_retries k : ℕ)
    → k ≤ max_retries
    → ((j : ℕ) → j < k → (e : E) × (fn j ≡ unexpected e))
    → ((a : A) → fn k ≡ value a → retry_with_backoff fn max_retries ≡ value a)
      × ((e : E)
          → k ≡ max_retries
          → fn k ≡ unexpected e
          → retry_with_backoff fn max_retries ≡ unexpected e)
unfolding retry_with_backoff
retry_with_backoff_first fn m k h fails = (
  λ a p.
      attempts_first fn m 0 k a h (λ j hj. let (e, p) = fails j hj in (e, ap fn (zero-add j) ∙ p))
        (ap fn (zero-add k) ∙ p),
  λ e q p.
      attempts_fail fn m 0 e
        (λ j hj. let (d, r) = fails j (omega arith) in (d, ap fn (zero-add j) ∙ r))
        (ap fn (zero-add m) ∙ ap fn (sym q) ∙ p),
)
