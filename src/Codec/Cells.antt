-- ===== src/Codec/Cells.antt =====
-- The bytes that the overloads of RowWriterV2::write store for a value in a column, or the reason why
-- they refuse. What C++ does with floating-point numbers, and TimeUtils::toTimestamp, which is not
-- part of the repository, are a parameter.
use nebula_storage.Prelude.{
  ℕ, zero, suc, ◌+◌, ◌-◌, ◌/◌, ◌^◌, ◌<◌, ◌≡◌, Bool, true, false, ◌||◌, List, [], ◌∷◌, ◌++◌, Option,
  none, some, length, replicate, if◌then◌else◌, ltb, leb, ◌==◌,
}
use nebula_storage.Bytes.Words.{le_bytes}
use nebula_storage.Codec.Schema.{Date, Time, PropertyType}

pub data WriteResult : Type 0 where
  succeeded unknown_field type_mismatch out_of_range not_nullable field_unset incorrect_value :
      WriteResult

-- Doubles and floats are bit patterns. `fits n d` tests a double against the bounds of an integer of
-- `n` bytes, and `int_of_double n d` is the cast.
pub record Conversions : Type 0 where
  pub fits_int : ℕ → ℕ → Bool
  pub int_of_double : ℕ → ℕ → ℕ
  pub fits_float : ℕ → Bool
  pub float_of_double : ℕ → ℕ
  pub double_of_float : ℕ → ℕ
  pub float_of_int : ℕ → ℕ
  pub double_of_int : ℕ → ℕ
  pub to_timestamp : ℕ → Option ℕ

-- The casts give patterns of the width that they cast to.
pub record IsSized (c : Conversions) : Type 0 where
  pub int_lt : (n d : ℕ) → c.int_of_double n d < 256 ^ n
  pub float_lt : (d : ℕ) → c.float_of_double d < 256 ^ 4
  pub float_int_lt : (v : ℕ) → c.float_of_int v < 256 ^ 4
  pub double_int_lt : (v : ℕ) → c.double_of_int v < 256 ^ 8
  pub timestamp_lt : (v t : ℕ) → c.to_timestamp v ≡ some t → t < 256 ^ 8

pub data Cell : Type 0 where
  bytes : List ℕ → Cell
  refused : WriteResult → Cell

-- The value of an integer of `n` bytes as one of `m` bytes.
unfoldable pub sign_extend : ℕ → ℕ → ℕ → ℕ
sign_extend n m v = if ltb v (256 ^ n / 2) then v else v + (256 ^ m - 256 ^ n)

-- An integer of `n` bytes lies in the range of one of `m` bytes, fewer than `n`.
unfoldable pub fits : ℕ → ℕ → ℕ → Bool
fits n m v = ltb v (256 ^ m / 2) || leb (256 ^ n - 256 ^ m / 2) v

unfoldable pub narrow : ℕ → ℕ → ℕ → Cell
unfolding sign_extend fits
narrow n m v =
    if ltb m n
    then (if fits n m v then bytes (le_bytes m v) else refused WriteResult.out_of_range)
    else bytes (le_bytes m (sign_extend n m v))

unfoldable pub bool_cell : PropertyType → Bool → Cell
bool_cell PropertyType.t_bool v = bytes (le_bytes 1 (if v then 1 else 0))
bool_cell PropertyType.t_int8 v = bytes (le_bytes 1 (if v then 1 else 0))
bool_cell PropertyType.t_int16 v = bytes (le_bytes 2 (if v then 1 else 0))
bool_cell PropertyType.t_int32 v = bytes (le_bytes 4 (if v then 1 else 0))
bool_cell PropertyType.t_int64 v = bytes (le_bytes 8 (if v then 1 else 0))
bool_cell _ v = refused WriteResult.type_mismatch

abbrev pub timestamp_cell : Option ℕ → Cell
timestamp_cell none = refused WriteResult.out_of_range
timestamp_cell (some t) = bytes (le_bytes 8 t)

-- The four overloads for signed integers, of `n` bytes; those of one and two bytes know no timestamps.
unfoldable pub int_cell : Conversions → ℕ → PropertyType → ℕ → Cell
unfolding sign_extend narrow
int_cell c n PropertyType.t_bool v = bytes (le_bytes 1 (if v == 0 then 0 else 1))
int_cell c n PropertyType.t_int8 v = narrow n 1 v
int_cell c n PropertyType.t_int16 v = narrow n 2 v
int_cell c n PropertyType.t_int32 v = narrow n 4 v
int_cell c n PropertyType.t_int64 v = narrow n 8 v
int_cell c n PropertyType.t_timestamp v =
    if ltb n 4
    then refused WriteResult.type_mismatch
    else timestamp_cell (c.to_timestamp (sign_extend n 8 v))
int_cell c n PropertyType.t_float v = bytes (le_bytes 4 (c.float_of_int (sign_extend n 8 v)))
int_cell c n PropertyType.t_double v = bytes (le_bytes 8 (c.double_of_int (sign_extend n 8 v)))
int_cell c n _ v = refused WriteResult.type_mismatch

unfoldable pub cast_cell : Conversions → ℕ → ℕ → Cell
cast_cell c n d =
    if c.fits_int n d
    then bytes (le_bytes n (c.int_of_double n d))
    else refused WriteResult.out_of_range

unfoldable pub double_cell : Conversions → PropertyType → ℕ → Cell
unfolding cast_cell
double_cell c PropertyType.t_int8 d = cast_cell c 1 d
double_cell c PropertyType.t_int16 d = cast_cell c 2 d
double_cell c PropertyType.t_int32 d = cast_cell c 4 d
double_cell c PropertyType.t_int64 d = cast_cell c 8 d
double_cell c PropertyType.t_float d =
    if c.fits_float d
    then bytes (le_bytes 4 (c.float_of_double d))
    else refused WriteResult.out_of_range
double_cell c PropertyType.t_double d = bytes (le_bytes 8 d)
double_cell c _ d = refused WriteResult.type_mismatch

-- `strncpy(p, v, n)`: up to the first zero byte, and zeros after it.
unfoldable pub strncpy : ℕ → List ℕ → List ℕ
strncpy zero v = []
strncpy (suc n) [] = 0 ∷ replicate n 0
strncpy (suc n) (b ∷ v) = elim (b == 0) [ true ↦ 0 ∷ replicate n 0 | false ↦ b ∷ strncpy n v ]

-- A fixed string: no more than its size, and zeros behind it.
unfoldable pub fixed_cell : ℕ → List ℕ → Cell
unfolding strncpy
fixed_cell size v =
    let n = if ltb size (length v) then size else length v in
    bytes (strncpy n v ++ replicate (size - n) 0)

abbrev pub date_bytes : Date → List ℕ
date_bytes d = le_bytes 2 d.year ++ (le_bytes 1 d.month ++ le_bytes 1 d.day)

abbrev pub time_bytes : Time → List ℕ
time_bytes t =
    le_bytes 1 t.hour ++ (le_bytes 1 t.minute ++ (le_bytes 1 t.sec ++ le_bytes 4 t.microsec))

-- In a DATETIME column the memset is of 3 * sizeof(int8_t) + 2 * sizeof(int32_t) bytes.
unfoldable pub date_cell : PropertyType → Date → Cell
date_cell PropertyType.t_date d = bytes (date_bytes d)
date_cell PropertyType.t_date_time d = bytes (date_bytes d ++ replicate 11 0)
date_cell _ d = refused WriteResult.type_mismatch

unfoldable pub time_cell : PropertyType → Time → Cell
time_cell PropertyType.t_time t = bytes (time_bytes t)
time_cell _ t = refused WriteResult.type_mismatch

unfoldable pub date_time_cell : PropertyType → Date → Time → Cell
date_time_cell PropertyType.t_date d t = bytes (date_bytes d)
date_time_cell PropertyType.t_date_time d t = bytes (date_bytes d ++ time_bytes t)
date_time_cell _ d t = refused WriteResult.type_mismatch
