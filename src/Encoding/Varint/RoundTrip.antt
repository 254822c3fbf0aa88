-- ===== src/Encoding/Varint/RoundTrip.antt =====
-- EncodeVarint and DecodeVarint of encoding/index_key_encoder.cpp, one after the other.
use native.Mathlib.Nat.{div-add-mod}
use mathlib.Core.Path.{ap₂}
use artifact_system.Base.{
  ℕ, zero, suc, ◌+◌, ◌*◌, ◌/◌, ◌%◌, ◌^◌, ◌<◌, ◌≡◌, refl, sym, ap, ◌∙◌, inl, inr, Bool, true, false,
  not, Option, none, some, List, [], ◌∷◌, ◌++◌, ltb, lt→ltb, ◌==◌, ==_refl, if◌then◌else◌, text_eq,
  text_eq_refl, text_eq_iff, ==_iff, ◌&&◌, if_both, subst, length, take, take-length_append, arith,
  Bool-cases,
}
use artifact_system.Encoding.Varint.{
  Result, ok, err, unterminated, overflow, encode_loop, encode_varint, finish, decode_loop,
  decode_varint,
}
use artifact_system.Id.Format.{pow-add}

-- The canonical encoding passes the check, with whatever follows it.
finish-encode_varint :
    (v : ℕ) (rest : List ℕ)
    → finish v (length (encode_varint v)) (encode_varint v ++ rest)
      ≡ (ok v, some (length (encode_varint v)))
unfolding finish
finish-encode_varint v rest = rw (
  take-length_append (encode_varint v) rest,
  text_eq_refl (encode_varint v),
  ==_refl (length (encode_varint v)),
)

-- The next group weighs 128 times as much.
next_weight : (i : ℕ) → 2 ^ ((i + 1) * 7) ≡ 2 ^ (i * 7) * 128
next_weight i =
    ap (λ (k : ℕ). 2 ^ k) {x = (i + 1) * 7} {y = i * 7 + 7} (omega arith) ∙ pow-add (i * 7) 7

-- The value that is left, split into its lowest group and the rest.
split_value : (w i : ℕ) → w * 2 ^ (i * 7) ≡ w % 128 * 2 ^ (i * 7) + w / 128 * 2 ^ ((i + 1) * 7)
split_value w i = omega (
  arith,
  ap (λ (t : ℕ). t * 2 ^ (i * 7)) (div-add-mod w 128),
  ap (λ (t : ℕ). w / 128 * t) (next_weight i),
)

encode_last : (rounds w : ℕ) → w < 128 → encode_loop (suc rounds) w ≡ w ∷ []
unfolding encode_loop
encode_last rounds w h = ground arith

encode_more :
    (rounds w : ℕ)
    → ((w / 128) == 0) ≡ false
    → encode_loop (suc rounds) w ≡ (w % 128 + 128) ∷ encode_loop rounds (w / 128)
unfolding encode_loop
encode_more rounds w h = rw h

-- One round of the decoder: on the last byte, on the tenth, and on a byte that goes on.
decode_last :
    (b i acc : ℕ) (rest all : List ℕ)
    → b < 128
    → i < 9
    → decode_loop (b ∷ rest) i acc all ≡ finish (acc + b * 2 ^ (i * 7)) (i + 1) all
unfolding decode_loop
decode_last b i acc rest all h hi =
    let low : b % 128 ≡ b = omega arith in
    let top : ((b / 128) == 0) ≡ true = ground arith in rw (lt→ltb i 9 hi, top, low)

decode_tenth :
    (b acc : ℕ) (rest all : List ℕ)
    → b < 2
    → decode_loop (b ∷ rest) 9 acc all ≡ finish (acc + b * 2 ^ 63) 10 all
unfolding decode_loop
decode_tenth b acc rest all h =
    let top : ((b / 128) == 0) ≡ true = ground arith in
    let fits : ltb 1 b ≡ false = ground arith in rw (top, fits)

decode_more :
    (g i acc : ℕ) (rest all : List ℕ)
    → g < 128
    → i < 9
    → decode_loop ((g + 128) ∷ rest) i acc all
      ≡ decode_loop rest (i + 1) (acc + g * 2 ^ (i * 7)) all
unfolding decode_loop
decode_more g i acc rest all h hi =
    let low : (g + 128) % 128 ≡ g = omega arith in
    let top : (((g + 128) / 128) == 0) ≡ false = ground arith in rw (lt→ltb i 9 hi, top, low)

-- With `rounds` groups to read from group `i` on, and `acc` read so far.
decode_loop-encode_loop :
    (rounds w i acc : ℕ) (rest all : List ℕ)
    → suc rounds + i ≡ 10
    → acc + w * 2 ^ (i * 7) < 2 ^ 64
    → decode_loop (encode_loop (suc rounds) w ++ rest) i acc all
      ≡ finish (acc + w * 2 ^ (i * 7)) (i + length (encode_loop (suc rounds) w)) all
decode_loop-encode_loop zero w i acc rest all e fits =
    let nine : i ≡ 9 = omega arith in
    let bit : w < 2 = omega (arith, ap (λ (k : ℕ). w * 2 ^ (k * 7)) nine) in
    rw (nine, encode_last zero w (omega arith)) (decode_tenth w acc rest all bit)
decode_loop-encode_loop (suc rounds) w i acc rest all e fits = elim (Bool-cases ((w / 128) == 0)) [
  | inl small ↦
      let last : w < 128 = ground arith in
      rw (encode_last (suc rounds) w last) (decode_last w i acc rest all last (omega arith))
  | inr large ↦ rw (encode_more (suc rounds) w large) (
      decode_more (w % 128) i acc (encode_loop (suc rounds) (w / 128) ++ rest) all (omega arith)
        (omega arith)
      ∙ decode_loop-encode_loop rounds (w / 128) (i + 1) (acc + w % 128 * 2 ^ (i * 7)) rest all
          (omega arith) (omega (arith, split_value w i))
      ∙ ap₂ (λ (value n : ℕ). finish value n all) (omega (arith, split_value w i)) (omega arith))
]

-- A `uint64_t` is read back from its encoding, whatever follows, with the number of its bytes.
pub decode_varint-encode_varint :
    (v : ℕ) (rest : List ℕ)
    → v < 2 ^ 64
    → decode_varint (encode_varint v ++ rest) true ≡ (ok v, some (length (encode_varint v)))
unfolding decode_varint
decode_varint-encode_varint v rest h =
    whole (encode_varint v ++ rest)
    ∙ ap₂ (λ (value n : ℕ). finish value n (encode_varint v ++ rest)) {x = 0 + v * 2 ^ (0 * 7)}
        {y = v} {u = 0 + length (encode_varint v)} {v = length (encode_varint v)} (omega arith)
        (omega arith)
    ∙ finish-encode_varint v rest
  where
    whole :
        (all : List ℕ)
        → decode_loop (encode_varint v ++ rest) 0 0 all
          ≡ finish (0 + v * 2 ^ (0 * 7)) (0 + length (encode_varint v)) all
    whole all = unfold encode_varint in decode_loop-encode_loop 9 v 0 0 rest all refl (omega arith)

-- The bytes that were read are the canonical encoding.
abbrev IsCanonical : List ℕ → Result × Option ℕ → Type 0
IsCanonical bytes (ok v, some n) = (take n bytes ≡ encode_varint v) × (n ≡ length (encode_varint v))
IsCanonical bytes (ok v, none) = ⊥
IsCanonical bytes (err e, n) = Unit

finish-IsCanonical : (v n : ℕ) (bytes : List ℕ) → IsCanonical bytes (finish v n bytes)
unfolding finish
finish-IsCanonical v n bytes =
    elim (Bool-cases
      ((length (encode_varint v) == n) && text_eq (encode_varint v) (take n bytes))) [
        | inl same ↦ rw same (
          sym ((text_eq_iff (encode_varint v) (take n bytes)).0 (and_right _ _ same)),
          sym ((==_iff (length (encode_varint v)) n).0 (and_left _ _ same)),
        )
        | inr other ↦ rw other tt
      ]
  where
    and_left : (a b : Bool) → (a && b) ≡ true → a ≡ true
    and_left true b h = refl
    and_left false b h = h

    and_right : (a b : Bool) → (a && b) ≡ true → b ≡ true
    and_right true b h = h
    and_right false b h = cc

decode_loop-IsCanonical :
    (left : List ℕ) (i value : ℕ) (bytes : List ℕ)
    → IsCanonical bytes (decode_loop left i value bytes)
unfolding decode_loop
decode_loop-IsCanonical [] i value bytes = tt
decode_loop-IsCanonical (byte ∷ rest) i value bytes =
    if_both (IsCanonical bytes) (ltb i 9)
      (if (byte / 128) == 0
        then finish (value + byte % 128 * 2 ^ (i * 7)) (i + 1) bytes
        else decode_loop rest (i + 1) (value + byte % 128 * 2 ^ (i * 7)) bytes)
      late
      (if_both (IsCanonical bytes) ((byte / 128) == 0)
        (finish (value + byte % 128 * 2 ^ (i * 7)) (i + 1) bytes)
        (decode_loop rest (i + 1) (value + byte % 128 * 2 ^ (i * 7)) bytes)
        (finish-IsCanonical (value + byte % 128 * 2 ^ (i * 7)) (i + 1) bytes)
        (decode_loop-IsCanonical rest (i + 1) (value + byte % 128 * 2 ^ (i * 7)) bytes))
      (if_both (IsCanonical bytes) (ltb i 10) tenth (err unterminated, none)
        (if_both (IsCanonical bytes) (not ((byte / 128) == 0)) (err unterminated, none)
          (if ltb 1 byte then (err overflow, none) else finish (value + byte * 2 ^ 63) 10 bytes) tt
          (if_both (IsCanonical bytes) (ltb 1 byte) (err overflow, none)
            (finish (value + byte * 2 ^ 63) 10 bytes) tt
            (finish-IsCanonical (value + byte * 2 ^ 63) 10 bytes)))
        tt)
  where
    tenth : Result × Option ℕ
    tenth =
        if not ((byte / 128) == 0)
        then (err unterminated, none)
        else if ltb 1 byte
        then (err overflow, none)
        else finish (value + byte * 2 ^ 63) 10 bytes

    late : Result × Option ℕ
    late = if ltb i 10 then tenth else (err unterminated, none)

-- What the decoder accepts is the canonical encoding of its result, at the front of the bytes.
pub decode_varint_canonical :
    (bytes : List ℕ) (v n : ℕ)
    → decode_varint bytes true ≡ (ok v, some n)
    → (take n bytes ≡ encode_varint v) × (n ≡ length (encode_varint v))
unfolding decode_varint
decode_varint_canonical bytes v n h =
    subst (IsCanonical bytes) h (decode_loop-IsCanonical bytes 0 0 bytes)
