-- ===== src/Encoding/Base64Url/Alphabet.antt =====
-- The two tables of the base64url alphabet, taken one after the other.
use artifact_system.Base.{
  ℕ, zero, suc, ◌<◌, ◌≡◌, refl, Bool, true, false, ◌&&◌, Option, none, some, ◌==◌, arith,
}
use artifact_system.Encoding.Base64Url.{encode_char, decode_char}

all_below : ℕ → (ℕ → Bool) → Bool
all_below zero p = true
all_below (suc n) p = p n && all_below n p

all_below_lem : (n : ℕ) (p : ℕ → Bool) (x : ℕ) → all_below n p ≡ true → x < n → p x ≡ true
unfolding all_below
all_below_lem zero p x h lt = absurd (omega arith)
all_below_lem (suc n) p x h lt = ground (arith, all_below_lem n p x)

is_some_of : ℕ → Option ℕ → Bool
is_some_of x none = false
is_some_of x (some y) = x == y

eq_of_is_some_of : (x : ℕ) (o : Option ℕ) → is_some_of x o ≡ true → o ≡ some x
unfolding is_some_of
eq_of_is_some_of x none h = cc
eq_of_is_some_of x (some y) h = ground arith

table : all_below 64 (λ x. is_some_of x (decode_char (encode_char x))) ≡ true
unfolding all_below is_some_of decode_char encode_char
table = refl

pub decode_char-encode_char : (x : ℕ) → x < 64 → decode_char (encode_char x) ≡ some x
decode_char-encode_char x h =
    eq_of_is_some_of x (decode_char (encode_char x))
      (all_below_lem 64 (λ y. is_some_of y (decode_char (encode_char y))) x table h)
