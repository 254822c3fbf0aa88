-- ===== src/Encoding/Varint.antt =====
-- `EncodeVarint` and `DecodeVarint` of encoding/index_key_encoder.cpp. A byte is a number below
-- 256; `|` of disjoint bits is `+`, and a shift or a mask is `/`, `%` or a multiple. Ten rounds are
-- enough for a `uint64_t`.
pub mod RoundTrip
use artifact_system.Base.{
  ℕ, zero, suc, ◌+◌, ◌*◌, ◌/◌, ◌%◌, ◌^◌, Bool, true, not, ◌&&◌, Option, none, some, List, [], ◌∷◌,
  ltb, ◌==◌, if◌then◌else◌, text_eq, length, take,
}

pub data VarintError : Type 0 where
  null_bytes_read unterminated overflow non_minimal : VarintError

pub data Result : Type 0 where
  ok : ℕ → Result
  err : VarintError → Result

-- The `do` loop, with the rounds left.
unfoldable pub encode_loop : ℕ → ℕ → List ℕ
encode_loop zero value = []
encode_loop (suc rounds) value =
    let rest = encode_loop rounds (value / 128) in
    if (value / 128) == 0 then value % 128 ∷ [] else (value % 128 + 128) ∷ rest

unfoldable pub encode_varint : ℕ → List ℕ
encode_varint value = encode_loop 10 value

-- `*bytes_read = n`, and the comparison with the canonical encoding.
unfoldable pub finish : ℕ → ℕ → List ℕ → Result × Option ℕ
finish value n bytes =
    if ((length (encode_varint value) == n) && text_eq (encode_varint value) (take n bytes))
    then (ok value, some n)
    else (err non_minimal, some n)

-- The loop of `DecodeVarint`: the bytes left, `i`, `value`, and all the bytes. Beside the result
-- stands what has been written to `*bytes_read`.
unfoldable pub decode_loop : List ℕ → ℕ → ℕ → List ℕ → Result × Option ℕ
unfolding finish
decode_loop [] i value bytes = (err unterminated, none)
decode_loop (byte ∷ rest) i value bytes =
    let more = decode_loop rest (i + 1) (value + byte % 128 * 2 ^ (i * 7)) bytes in
    if ltb i 9
    then (if (byte / 128) == 0
        then finish (value + byte % 128 * 2 ^ (i * 7)) (i + 1) bytes
        else more)
    else if ltb i 10
    then (if not ((byte / 128) == 0)
        then (err unterminated, none)
        else if ltb 1 byte
        then (err overflow, none)
        else finish (value + byte * 2 ^ 63) 10 bytes)
    else (err unterminated, none)

-- The flag says that the pointer `bytes_read` is not null.
unfoldable pub decode_varint : List ℕ → Bool → Result × Option ℕ
decode_varint bytes has_bytes_read =
    if has_bytes_read then decode_loop bytes 0 0 bytes else (err null_bytes_read, none)
