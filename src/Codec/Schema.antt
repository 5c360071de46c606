-- ===== src/Codec/Schema.antt =====
-- What the row codec asks of a schema and of a value. A schema is a list of columns with their places,
-- as src/codec/test/SchemaWriter.cpp lays them out. Integers are their bit patterns.
use mathlib.Core.Option
use nebula_storage.Prelude.{
  ℕ, zero, suc, ◌+◌, ◌≡◌, Bool, true, List, [], ◌∷◌, ◌++◌, Option, none, some, if◌then◌else◌,
}

pub record Date : Type 0 where
  pub year : ℕ  -- int16_t
  pub month : ℕ  -- int8_t
  pub day : ℕ  -- int8_t

pub record Time : Type 0 where
  pub hour : ℕ  -- int8_t
  pub minute : ℕ  -- int8_t
  pub sec : ℕ  -- int8_t
  pub microsec : ℕ  -- int32_t

-- The kinds of values that the writer tells apart; `other` is any kind that it refuses.
pub data Value : Type 0 where
  null : Value
  bool : Bool → Value
  int : ℕ → Value  -- int64_t
  float : ℕ → Value  -- double
  string : List ℕ → Value
  date : Date → Value
  time : Time → Value
  date_time : Date → Time → Value
  other : Value

pub data PropertyType : Type 0 where
  t_bool t_int8 t_int16 t_int32 t_int64 t_vid t_float t_double : PropertyType
  t_string t_fixed_string t_timestamp t_date t_time t_date_time t_unknown : PropertyType

-- A column. `default_value` is what the default's expression evaluates to.
pub record Field : Type 0 where
  pub type : PropertyType
  pub size : ℕ
  pub nullable : Bool
  pub offset : ℕ
  pub null_flag_pos : ℕ
  pub default_value : Option Value

pub record Schema : Type 0 where
  pub version : ℕ
  pub fields : List Field
  pub num_nullables : ℕ
  pub row_size : ℕ

-- The source holds a size in an int16_t; fixed strings of 2 ^ 15 bytes or more, whose size wraps, are left
-- out. The bytes that a column takes in the row; a type that has none is refused by the process's abort.
unfoldable pub column_size : PropertyType → ℕ → Option ℕ
column_size PropertyType.t_bool n = some 1
column_size PropertyType.t_int8 n = some 1
column_size PropertyType.t_int16 n = some 2
column_size PropertyType.t_int32 n = some 4
column_size PropertyType.t_int64 n = some 8
column_size PropertyType.t_vid n = some 8
column_size PropertyType.t_float n = some 4
column_size PropertyType.t_double n = some 8
column_size PropertyType.t_string n = some 8
column_size PropertyType.t_fixed_string zero = none
column_size PropertyType.t_fixed_string (suc n) = some (suc n)
column_size PropertyType.t_timestamp n = some 8
column_size PropertyType.t_date n = some 4
column_size PropertyType.t_time n = some 7
column_size PropertyType.t_date_time n = some 11
column_size PropertyType.t_unknown n = none

abbrev pub empty_schema : ℕ → Schema
empty_schema v = record { version = v; fields = []; num_nullables = 0; row_size = 0 }

-- A column of `k` bytes behind the others.
abbrev pub next_column : PropertyType → ℕ → Bool → Option Value → Schema → Field
next_column t k nullable d s = record {
  type = t;
  size = k;
  nullable = nullable;
  offset = s.row_size;
  null_flag_pos = if nullable then s.num_nullables else 0;
  default_value = d;
}

abbrev pub with_column : Field → Schema → Schema
with_column f s = record s {
  fields = s.fields ++ f ∷ [];
  num_nullables = if f.nullable then s.num_nullables + 1 else s.num_nullables;
  row_size = s.row_size + f.size;
}

unfoldable pub append_col : PropertyType → ℕ → Bool → Option Value → Schema → Option Schema
unfolding column_size
append_col t n nullable d s =
    Option.map (λ k. with_column (next_column t k nullable d s) s) (column_size t n)

-- The columns stand one behind the other, from `off` on, and the nullable ones are numbered from `pos`.
abbrev pub LaidFrom : Schema → ℕ → ℕ → List Field → Type 0
LaidFrom s off pos [] = (off ≡ s.row_size) × (pos ≡ s.num_nullables)
LaidFrom s off pos (f ∷ fs) =
    (column_size f.type f.size ≡ some f.size)
    × (f.offset ≡ off)
    × (f.nullable ≡ true → f.null_flag_pos ≡ pos)
    × LaidFrom s (off + f.size) (if f.nullable then pos + 1 else pos) fs

abbrev pub IsLaidOut : Schema → Type 0
IsLaidOut s = LaidFrom s 0 0 s.fields
