-- ===== src/Storage/Numerals.antt =====
-- A concrete numeral that stands for absl's in the examples.
use artifact_system.Base.{ℕ, ◌+◌, ◌≡◌, refl, ap, true, false, [], ◌∷◌, length, Text, arith}
use artifact_system.Storage.State.{all_digits, is_digit, is_empty}
use artifact_system.Storage.Invariant.{DecimalLaws}

-- A numeral of the shape that the laws ask for: as many digits 1 as the number says, and one more.
abbrev pub tally : ℕ → Text
tally ℕ.zero = 49 ∷ []
tally (ℕ.suc n) = 49 ∷ tally n

pub length-tally : (n : ℕ) → length (tally n) ≡ n + 1
length-tally ℕ.zero = refl
length-tally (ℕ.suc n) = omega (arith, length-tally n)

tally_injective : (m n : ℕ) → tally m ≡ tally n → m ≡ n
tally_injective m n h = omega (arith, length-tally m, length-tally n, ap length h)

tally_digits : (n : ℕ) → all_digits (tally n) ≡ true
unfolding all_digits is_digit
tally_digits ℕ.zero = refl
tally_digits (ℕ.suc n) = tally_digits n

tally_nonempty : (n : ℕ) → is_empty (tally n) ≡ false
unfolding is_empty
tally_nonempty ℕ.zero = refl
tally_nonempty (ℕ.suc n) = refl

pub tally-DecimalLaws : DecimalLaws tally
tally-DecimalLaws = record {
  injective = tally_injective;
  digits = tally_digits;
  nonempty = tally_nonempty;
}
