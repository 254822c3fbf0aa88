-- ===== src/Encoding/Base64Url.antt =====
-- encoding/base64url.cpp. A byte or character is a number below 256, and a `uint32_t` chunk is
-- written with `+` where the code joins disjoint bits by `|`; a shift and a mask are `/` and `%`.
pub mod Alphabet
pub mod RoundTrip
use artifact_system.Base.{
  ℕ, zero, suc, ◌+◌, ◌-◌, ◌*◌, ◌/◌, ◌%◌, ◌≡◌, Bool, ◌&&◌, Option, none, some, List, [], ◌∷◌, ◌++◌,
  leb, ◌==◌, if◌then◌else◌, Text, codes, length,
}

pub data DecodeError : Type 0 where
  invalid_length : DecodeError
  invalid_character : ℕ → DecodeError

pub data Decoded : Type 0 where
  ok : List ℕ → Decoded
  err : DecodeError → Decoded

-- `kAlphabet`
abbrev pub alphabet : Text
alphabet = codes "ABCDEFGHIJKLMNOPQRSTUVWXYZabcdefghijklmnopqrstuvwxyz0123456789-_"

nth : Text → ℕ → ℕ
nth [] i = 0
nth (c ∷ cs) zero = c
nth (c ∷ cs) (suc i) = nth cs i

unfoldable pub encode_char : ℕ → ℕ
unfolding nth
encode_char i = nth alphabet i

-- `DecodeBase64UrlChar`; none is its -1.
unfoldable pub decode_char : ℕ → Option ℕ
decode_char c =
    if leb b'A' c && leb c b'Z'
    then some (c - b'A')
    else if leb b'a' c && leb c b'z'
    then some (c - b'a' + 26)
    else if leb b'0' c && leb c b'9'
    then some (c - b'0' + 52)
    else if c == b'-'
    then some 62
    else if c == b'_'
    then some 63
    else none

-- The four groups of six bits of a chunk.
abbrev pub group : ℕ → ℕ → ℕ
group chunk divisor = encode_char (chunk / divisor % 64)

unfoldable pub encode : List ℕ → Text
encode [] = []
encode (a ∷ []) = let chunk = a * 65536 in group chunk 262144 ∷ group chunk 4096 ∷ []
encode (a ∷ b ∷ []) =
    let chunk = a * 65536 + b * 256 in group chunk 262144 ∷ group chunk 4096 ∷ group chunk 64 ∷ []
encode (a ∷ b ∷ c ∷ rest) =
    let chunk = a * 65536 + b * 256 + c in
    group chunk 262144 ∷ group chunk 4096 ∷ group chunk 64 ∷ group chunk 1 ∷ encode rest

-- The bytes of a quantum come before those of the rest.
abbrev pub prepend : List ℕ → Decoded → Decoded
prepend bytes (ok rest) = ok (bytes ++ rest)
prepend bytes (err e) = err e

-- A quantum of two, three or four characters at position `i`, decoded.
abbrev pub quantum2 : ℕ → Option ℕ → Option ℕ → Decoded
quantum2 i (some a) (some b) = let chunk = a * 262144 + b * 4096 in ok (chunk / 65536 % 256 ∷ [])
quantum2 i _ _ = err (invalid_character i)

abbrev pub quantum3 : ℕ → Option ℕ → Option ℕ → Option ℕ → Decoded
quantum3 i (some a) (some b) (some c) =
    let chunk = a * 262144 + b * 4096 + c * 64 in
    ok ((chunk / 65536 % 256) ∷ (chunk / 256 % 256) ∷ [])
quantum3 i _ _ _ = err (invalid_character i)

abbrev pub quantum4 : ℕ → Option ℕ → Option ℕ → Option ℕ → Option ℕ → Decoded → Decoded
quantum4 i (some a) (some b) (some c) (some d) rest =
    let chunk = a * 262144 + b * 4096 + c * 64 + d in
    prepend ((chunk / 65536 % 256) ∷ (chunk / 256 % 256) ∷ (chunk % 256) ∷ []) rest
quantum4 i _ _ _ _ rest = err (invalid_character i)

-- The loop and the remainder of `Decode`. A remainder of one character is excluded before.
unfoldable pub decode_from : ℕ → Text → Decoded
decode_from i (a ∷ b ∷ c ∷ d ∷ rest) =
    quantum4 i (decode_char a) (decode_char b) (decode_char c) (decode_char d)
      (decode_from (i + 4) rest)
decode_from i (a ∷ b ∷ c ∷ []) = quantum3 i (decode_char a) (decode_char b) (decode_char c)
decode_from i (a ∷ b ∷ []) = quantum2 i (decode_char a) (decode_char b)
decode_from i (a ∷ []) = ok []
decode_from i [] = ok []

unfoldable pub decode : Text → Decoded
unfolding decode_from
decode encoded = if (length encoded % 4) == 1 then err invalid_length else decode_from 0 encoded
