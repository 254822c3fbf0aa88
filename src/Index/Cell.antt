-- ===== src/Index/Cell.antt =====
-- index/index_object.h and index/index_object.cpp: the cells and rows of an index, and the order of
-- cells. A signed integer is given by the bits of its two's complement, a floating-point number by the
-- bits of its IEEE 754 format.
use artifact_system.Base.{
  ℕ, ◌+◌, ◌-◌, ◌%◌, ◌^◌, Bool, true, false, ◌&&◌, ◌||◌, not, List, if◌then◌else◌, ltb, ◌==◌, Text,
  text_eq, text_lt,
}
use artifact_system.Storage.Status.{StatusCode, StatusOr, ok, failed}

-- `using IndexCell = std::variant<...>`
pub data IndexCell : Type 0 where
  int32 uint32 int64 uint64 : ℕ → IndexCell
  boolean : Bool → IndexCell
  float double : ℕ → IndexCell
  string bytes_value : Text → IndexCell

pub record IndexRow : Type 0 where
  pub artifact_id : ℕ
  pub order_values : List IndexCell

pub record IndexObject : Type 0 where
  pub serialized_key : Text
  pub rows : List IndexRow

-- The `int` that a comparison returns: -1, 0 or 1.
pub data Comparison : Type 0 where
  below same above : Comparison

-- `-cmp`
unfoldable pub negated : Comparison → Comparison
negated below = above
negated same = same
negated above = below

-- The numbers of a format of `2 * half` bit patterns, in their order from 0 on.
abbrev pub signed_rank : ℕ → ℕ → ℕ
signed_rank half bits = (bits + half) % (half + half)

-- The two zeros have the same rank.
abbrev pub float_rank : ℕ → ℕ → ℕ
float_rank half bits = if ltb bits half then half + bits else ((half + half) - bits)

-- `std::isnan`, where `infinity` has the bits of the positive infinity
abbrev pub is_nan : ℕ → ℕ → ℕ → Bool
is_nan half infinity bits = ltb infinity (bits % half)

abbrev pub bool_rank : Bool → ℕ
bool_rank false = 0
bool_rank true = 1

-- `(a < b) ? -1 : (a > b ? 1 : 0)`
unfoldable pub compare_values : ℕ → ℕ → Comparison
compare_values a b = if ltb a b then below else (if ltb b a then above else same)

unfoldable pub compare_strings : Text → Text → Comparison
compare_strings a b = if text_lt a b then below else (if text_lt b a then above else same)

unfoldable pub compare_floats : ℕ → ℕ → ℕ → ℕ → StatusOr Comparison
unfolding compare_values
compare_floats half infinity a b =
    if is_nan half infinity a || is_nan half infinity b
    then failed StatusCode.invalid_argument
    else ok (compare_values (float_rank half a) (float_rank half b))

-- The bits of the infinities of `float` and of `double`.
abbrev pub float_infinity : ℕ
float_infinity = 2139095040

abbrev pub double_infinity : ℕ
double_infinity = 9218868437227405312

unfoldable pub compare_index_cell_ascending : IndexCell → IndexCell → StatusOr Comparison
unfolding compare_values compare_strings compare_floats
compare_index_cell_ascending (int32 a) (int32 b) =
    ok (compare_values (signed_rank (2 ^ 31) a) (signed_rank (2 ^ 31) b))
compare_index_cell_ascending (uint32 a) (uint32 b) = ok (compare_values a b)
compare_index_cell_ascending (int64 a) (int64 b) =
    ok (compare_values (signed_rank (2 ^ 63) a) (signed_rank (2 ^ 63) b))
compare_index_cell_ascending (uint64 a) (uint64 b) = ok (compare_values a b)
compare_index_cell_ascending (boolean a) (boolean b) =
    ok (compare_values (bool_rank a) (bool_rank b))
compare_index_cell_ascending (float a) (float b) = compare_floats (2 ^ 31) float_infinity a b
compare_index_cell_ascending (double a) (double b) = compare_floats (2 ^ 63) double_infinity a b
compare_index_cell_ascending (string a) (string b) = ok (compare_strings a b)
compare_index_cell_ascending (bytes_value a) (bytes_value b) = ok (compare_strings a b)
compare_index_cell_ascending _ _ = failed StatusCode.invalid_argument

unfoldable pub float_eq : ℕ → ℕ → ℕ → ℕ → Bool
float_eq half infinity a b =
    not (is_nan half infinity a || is_nan half infinity b)
    && (float_rank half a == float_rank half b)

-- `==` of two cells
unfoldable pub cell_eq : IndexCell → IndexCell → Bool
unfolding float_eq
cell_eq (int32 a) (int32 b) = a == b
cell_eq (uint32 a) (uint32 b) = a == b
cell_eq (int64 a) (int64 b) = a == b
cell_eq (uint64 a) (uint64 b) = a == b
cell_eq (boolean a) (boolean b) = bool_rank a == bool_rank b
cell_eq (float a) (float b) = float_eq (2 ^ 31) float_infinity a b
cell_eq (double a) (double b) = float_eq (2 ^ 63) double_infinity a b
cell_eq (string a) (string b) = text_eq a b
cell_eq (bytes_value a) (bytes_value b) = text_eq a b
cell_eq _ _ = false
