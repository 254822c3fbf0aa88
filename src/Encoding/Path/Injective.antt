-- ===== src/Encoding/Path/Injective.antt =====
-- The paths of encoding/artifact_path.cpp, compared.
use artifact_system.Base.{
  ℕ, ◌^◌, ◌<◌, ◌≡◌, refl, sym, ap, ◌∙◌, List, ◌++◌, All, length, append_cancel, codes, arith,
}
use artifact_system.Encoding.Base64Url.{encode, decode}
use artifact_system.Encoding.Base64Url.RoundTrip.{IsByte, decode-encode}
use artifact_system.Encoding.Path.{uint64_big_endian_bytes, artifact_path, index_path}

pub uint64_big_endian_bytes-IsByte : (v : ℕ) → All IsByte (uint64_big_endian_bytes v)
unfolding uint64_big_endian_bytes
uint64_big_endian_bytes-IsByte v = omega arith

uint64_big_endian_bytes_injective :
    (v w : ℕ)
    → v < 2 ^ 64
    → w < 2 ^ 64
    → uint64_big_endian_bytes v ≡ uint64_big_endian_bytes w
    → v ≡ w
unfolding uint64_big_endian_bytes
uint64_big_endian_bytes_injective v w hv hw e = ground arith

-- Equal encodings are encodings of equal bytes.
encode_injective :
    (xs ys : List ℕ) → All IsByte xs → All IsByte ys → encode xs ≡ encode ys → xs ≡ ys
encode_injective xs ys hx hy e = cc ((decode-encode xs hx).0, (decode-encode ys hy).0, ap decode e)

-- Artifacts with different IDs have different paths.
pub artifact_path_injective :
    (v w : ℕ) → v < 2 ^ 64 → w < 2 ^ 64 → artifact_path v ≡ artifact_path w → v ≡ w
unfolding artifact_path
artifact_path_injective v w hv hw e = uint64_big_endian_bytes_injective v w hv hw (
    encode_injective (uint64_big_endian_bytes v) (uint64_big_endian_bytes w)
      (uint64_big_endian_bytes-IsByte v) (uint64_big_endian_bytes-IsByte w)
      (append_cancel (codes "artifacts/") (codes "artifacts/") _ _ refl e).1)

length-encode_id : (v : ℕ) → length (encode (uint64_big_endian_bytes v)) ≡ 11
unfolding uint64_big_endian_bytes
length-encode_id v =
    (decode-encode (uint64_big_endian_bytes v) (uint64_big_endian_bytes-IsByte v)).1

module _ (sha256 : List ℕ → List ℕ) (bytes : (key : List ℕ) → All IsByte (sha256 key)) where
  -- Two index objects share a path only if they are of one index definition and the digests of
  -- their keys are equal.
  pub index_path_injective :
      (v w : ℕ) (key key' : List ℕ)
      → v < 2 ^ 64
      → w < 2 ^ 64
      → index_path sha256 v key ≡ index_path sha256 w key'
      → (v ≡ w) × (sha256 key ≡ sha256 key')
  unfolding index_path
  index_path_injective v w key key' hv hw e =
      let rest = (append_cancel (codes "indexes/") (codes "indexes/") _ _ refl e).1 in
      let parts =
        append_cancel (encode (uint64_big_endian_bytes v)) (encode (uint64_big_endian_bytes w))
          (codes "/" ++ encode (sha256 key)) (codes "/" ++ encode (sha256 key'))
          (length-encode_id v ∙ sym (length-encode_id w)) rest in
      let digests =
        (append_cancel (codes "/") (codes "/") (encode (sha256 key)) (encode (sha256 key')) refl
          parts.1).1 in
      (
        uint64_big_endian_bytes_injective v w hv hw (
            encode_injective (uint64_big_endian_bytes v) (uint64_big_endian_bytes w)
              (uint64_big_endian_bytes-IsByte v) (uint64_big_endian_bytes-IsByte w) parts.0),
        encode_injective (sha256 key) (sha256 key') (bytes key) (bytes key') digests,
      )
