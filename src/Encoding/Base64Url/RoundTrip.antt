-- ===== src/Encoding/Base64Url/RoundTrip.antt =====
-- Encoding and decoding of encoding/base64url.cpp, one after the other.
use artifact_system.Base.{
  ℕ, ◌+◌, ◌*◌, ◌/◌, ◌%◌, ◌<◌, ◌≡◌, refl, some, List, [], ◌∷◌, All, length, arith,
}
use artifact_system.Encoding.Base64Url.{ok, encode, encode_char, decode, decode_from, decode_char}
use artifact_system.Encoding.Base64Url.Alphabet.{decode_char-encode_char}

abbrev pub IsByte : ℕ → Type 0
IsByte b = b < 256

decode_group : (n : ℕ) → decode_char (encode_char (n % 64)) ≡ some (n % 64)
decode_group n = decode_char-encode_char (n % 64) (omega arith)

-- The length of an encoding is never one more than a multiple of four.
length-encode : (bytes : List ℕ) → length (encode bytes) ≡ (length bytes * 4 + 2) / 3
unfolding encode
length-encode [] = refl
length-encode (a ∷ []) = refl
length-encode (a ∷ b ∷ []) = refl
length-encode (a ∷ b ∷ c ∷ rest) = omega (arith, length-encode rest)

decode_from-encode :
    (bytes : List ℕ) (i : ℕ) → All IsByte bytes → decode_from i (encode bytes) ≡ ok bytes
unfolding decode_from encode
decode_from-encode [] i h = refl
decode_from-encode (a ∷ []) i h = rw (decode_group, decode_group) (ground arith)
decode_from-encode (a ∷ b ∷ []) i h = rw (decode_group, decode_group, decode_group) (ground arith)
decode_from-encode (a ∷ b ∷ c ∷ rest) i h =
    rw
      (
        decode_group,
        decode_group,
        decode_group,
        decode_group,
        decode_from-encode rest (i + 4) ((h.1).1).1,
      )
      (ground arith)

-- Decoding gives back the bytes that were encoded, and the length of an encoding is four characters
-- for three bytes, rounded up.
pub decode-encode :
    (bytes : List ℕ)
    → All IsByte bytes
    → (decode (encode bytes) ≡ ok bytes) × (length (encode bytes) ≡ (length bytes * 4 + 2) / 3)
unfolding decode
decode-encode bytes h =
    (ground (arith, length-encode bytes, decode_from-encode bytes 0 h), length-encode bytes)
