-- ===== src/Encoding/Path.antt =====
-- encoding/artifact_path.cpp. `absl::StrCat` of texts is their concatenation; OpenSSL's SHA-256 is
-- an argument.
pub mod Injective
use artifact_system.Base.{ℕ, ◌/◌, ◌%◌, ◌^◌, List, [], ◌∷◌, ◌++◌, Text, codes}
use artifact_system.Encoding.Base64Url.{encode}

unfoldable pub uint64_big_endian_bytes : ℕ → List ℕ
uint64_big_endian_bytes value =
    (value / 2 ^ 56 % 256)
    ∷ (value / 2 ^ 48 % 256)
    ∷ (value / 2 ^ 40 % 256)
    ∷ (value / 2 ^ 32 % 256)
    ∷ (value / 2 ^ 24 % 256)
    ∷ (value / 2 ^ 16 % 256)
    ∷ (value / 2 ^ 8 % 256)
    ∷ (value % 256)
    ∷ []

unfoldable pub artifact_path : ℕ → Text
artifact_path artifact_id = codes "artifacts/" ++ encode (uint64_big_endian_bytes artifact_id)

unfoldable pub index_path : (List ℕ → List ℕ) → ℕ → List ℕ → Text
index_path sha256 index_definition_id encoded_key =
    codes "indexes/"
    ++ (encode (uint64_big_endian_bytes index_definition_id)
        ++ (codes "/" ++ encode (sha256 encoded_key)))
