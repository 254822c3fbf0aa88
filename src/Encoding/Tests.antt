-- ===== src/Encoding/Tests.antt =====
-- Concrete runs of the encodings, and their theorems at concrete inputs.
use artifact_system.Base.{ℕ, ◌%◌, ◌≡◌, refl, true, some, List, [], ◌∷◌, ◌++◌, length, codes, arith}
use artifact_system.Encoding.Base64Url.{encode, decode, ok, err, invalid_length, encode_char}
use artifact_system.Encoding.Base64Url.RoundTrip.{decode-encode}
use artifact_system.Encoding.Varint.{
  encode_varint, encode_loop, decode_varint, decode_loop, finish, non_minimal,
}
use artifact_system.Encoding.Varint
use artifact_system.Encoding.Varint.RoundTrip.{decode_varint-encode_varint, decode_varint_canonical}
use artifact_system.Encoding.Path.{artifact_path, index_path, uint64_big_endian_bytes}
use artifact_system.Encoding.Path.Injective.{artifact_path_injective, index_path_injective}

decode-encode_example :
    (decode (encode (1 ∷ 255 ∷ 62 ∷ 7 ∷ [])) ≡ ok (1 ∷ 255 ∷ 62 ∷ 7 ∷ []))
    × (length (encode (1 ∷ 255 ∷ 62 ∷ 7 ∷ [])) ≡ 6)
decode-encode_example = decode-encode (1 ∷ 255 ∷ 62 ∷ 7 ∷ []) (omega arith)

encoded : encode (1 ∷ 255 ∷ 62 ∷ 7 ∷ []) ≡ codes "Af8-Bw"
unfolding encode encode_char
encoded = refl

bad_length : decode (codes "Af8-B") ≡ err invalid_length
unfolding decode
bad_length = refl

decode_varint-encode_varint_example :
    decode_varint (encode_varint 300 ++ 9 ∷ []) true
    ≡ (Varint.ok 300, some (length (encode_varint 300)))
decode_varint-encode_varint_example = decode_varint-encode_varint 300 (9 ∷ []) (omega arith)

three_hundred : decode_varint (172 ∷ 2 ∷ 9 ∷ []) true ≡ (Varint.ok 300, some 2)
unfolding decode_varint decode_loop encode_varint encode_loop
three_hundred = refl

padded : decode_varint (128 ∷ 0 ∷ []) true ≡ (Varint.err non_minimal, some 2)
unfolding decode_varint decode_loop encode_varint encode_loop
padded = refl

decode_varint_canonical_example :
    (172 ∷ 2 ∷ [] ≡ encode_varint 300) × (2 ≡ length (encode_varint 300))
decode_varint_canonical_example = decode_varint_canonical (172 ∷ 2 ∷ 9 ∷ []) 300 2 three_hundred

path_of_one : artifact_path 1 ≡ codes "artifacts/AAAAAAAAAAE"
unfolding artifact_path uint64_big_endian_bytes encode encode_char
path_of_one = refl

artifact_path_injective_example : ◌≡◌ {A = ℕ} 1 1
artifact_path_injective_example =
    artifact_path_injective 1 1 (omega arith) (omega arith) (λ i. artifact_path 1)

-- A digest for the tests: the length of the key.
abbrev digest : List ℕ → List ℕ
digest key = (length key % 256) ∷ []

index_path_injective_example : (◌≡◌ {A = ℕ} 7 7) × (digest (1 ∷ 2 ∷ []) ≡ digest (3 ∷ 4 ∷ []))
unfolding index_path
index_path_injective_example =
    index_path_injective digest (λ key. omega arith) 7 7 (1 ∷ 2 ∷ []) (3 ∷ 4 ∷ []) (omega arith)
      (omega arith) same_path
  where
    same_path : index_path digest 7 (1 ∷ 2 ∷ []) ≡ index_path digest 7 (3 ∷ 4 ∷ [])
    same_path = refl
