-- ===== src/Codec/IntLaws.antt =====
-- What a slot with an integer or a double gives back: the overloads of RowWriterV2::write for them.
use nebula_storage.Prelude.{
  ℕ, zero, suc, ◌%◌, ◌^◌, ◌<◌, ◌≡◌, refl, Bool, true, false, not, List, [], ◌∷◌, Option, none, some,
  arith, length, if◌then◌else◌, ◌==◌,
}
use nebula_storage.Bytes.Words.{le_bytes, of_le, length-le_bytes, of_le-le_bytes}
use nebula_storage.Codec.Schema.{Date, Time, Value, PropertyType, column_size}
use nebula_storage.Codec.Cells.{
  WriteResult, Conversions, IsSized, Cell, bytes, refused, sign_extend, fits, narrow, bool_cell,
  int_cell, cast_cell, double_cell, fixed_cell, date_cell, time_cell, date_time_cell,
}
use nebula_storage.Codec.Reader.{decode_slot}

abbrev pub IsDate : Date → Type 0
IsDate d = (d.year < 256 ^ 2) × (d.month < 256 ^ 1) × (d.day < 256 ^ 1)

abbrev pub IsTime : Time → Type 0
IsTime t = (t.hour < 256 ^ 1) × (t.minute < 256 ^ 1) × (t.sec < 256 ^ 1) × (t.microsec < 256 ^ 4)

abbrev pub IsNoDateTime : PropertyType → Type 0
IsNoDateTime PropertyType.t_date_time = ⊥
IsNoDateTime _ = Unit

-- The numbers of a value are patterns of their width, and it is no date for a DATETIME column: writing
-- that one zeroes four bytes too many.
abbrev pub IsValue : PropertyType → Value → Type 0
IsValue t (Value.int v) = v < 256 ^ 8
IsValue t (Value.float d) = d < 256 ^ 8
IsValue t (Value.date d) = IsDate d × IsNoDateTime t
IsValue t (Value.time m) = IsTime m
IsValue t (Value.date_time d m) = IsDate d × IsTime m
IsValue t _ = Unit

abbrev pub no_time : Time
no_time = record { hour = 0; minute = 0; sec = 0; microsec = 0 }

-- What a string column of `n` bytes keeps of a text: the bytes before its first zero byte, `n` at most,
-- and zeros.
abbrev pub fixed_text : ℕ → List ℕ → List ℕ
fixed_text zero s = []
fixed_text (suc n) [] = 0 ∷ fixed_text n []
fixed_text (suc n) (b ∷ s) = b ∷ fixed_text n (if b == 0 then [] else s)

abbrev int_back : PropertyType → ℕ → Conversions → Option Value
int_back PropertyType.t_bool v c = some (Value.bool (not (v == 0)))
int_back PropertyType.t_timestamp v c = elim (c.to_timestamp v) [
  | none ↦ none
  | some t ↦ some (Value.int t)
]
int_back PropertyType.t_float v c = some (Value.float (c.double_of_float (c.float_of_int v)))
int_back PropertyType.t_double v c = some (Value.float (c.double_of_int v))
int_back _ v c = some (Value.int v)

abbrev float_back : PropertyType → ℕ → Conversions → Option Value
float_back PropertyType.t_int8 d c = some (Value.int (sign_extend 1 8 (c.int_of_double 1 d)))
float_back PropertyType.t_int16 d c = some (Value.int (sign_extend 2 8 (c.int_of_double 2 d)))
float_back PropertyType.t_int32 d c = some (Value.int (sign_extend 4 8 (c.int_of_double 4 d)))
float_back PropertyType.t_int64 d c = some (Value.int (c.int_of_double 8 d))
float_back PropertyType.t_float d c = some (Value.float (c.double_of_float (c.float_of_double d)))
float_back _ d c = some (Value.float d)

abbrev date_back : PropertyType → Date → Time → Option Value
date_back PropertyType.t_date_time d t = some (Value.date_time d t)
date_back _ d t = some (Value.date d)

-- The value that a column of type `t` and size `n` gives back for a value it has taken.
abbrev pub read_back : Conversions → PropertyType → ℕ → Value → Option Value
read_back c t n Value.null = some Value.null
read_back c PropertyType.t_bool n (Value.bool b) = some (Value.bool b)
read_back c t n (Value.bool b) = some (Value.int (if b then 1 else 0))
read_back c t n (Value.int v) = int_back t v c
read_back c t n (Value.float d) = float_back t d c
read_back c PropertyType.t_fixed_string n (Value.string s) = some (Value.string (fixed_text n s))
read_back c t n (Value.string s) = some (Value.string s)
read_back c t n (Value.date d) = date_back t d no_time
read_back c t n (Value.time t') = some (Value.time t')
read_back c t n (Value.date_time d t') = date_back t d t'
read_back c t n Value.other = none

-- The cell of a value that lies in its slot as a whole.
abbrev pub cell_of : Conversions → PropertyType → ℕ → Value → Cell
cell_of c t n (Value.bool b) = bool_cell t b
cell_of c t n (Value.int v) = int_cell c 8 t v
cell_of c t n (Value.float d) = double_cell c t d
cell_of c PropertyType.t_fixed_string n (Value.string s) = fixed_cell n s
cell_of c t n (Value.date d) = date_cell t d
cell_of c t n (Value.time t') = time_cell t t'
cell_of c t n (Value.date_time d t') = date_time_cell t d t'
cell_of c t n v = refused WriteResult.type_mismatch

-- A slot holds bytes that mean `u`, and as many as the column has.
abbrev pub Means : Conversions → PropertyType → ℕ → List ℕ → Option Value → Type 0
Means c t n bs u = (decode_slot c t bs ≡ u) × (column_size t n ≡ some n → length bs ≡ n)

pub bool_cell-Means :
    (c : Conversions) (t : PropertyType) (n : ℕ) (b : Bool) {bs : List ℕ}
    → bool_cell t b ≡ bytes bs
    → Means c t n bs (read_back c t n (Value.bool b))
unfolding bool_cell decode_slot column_size le_bytes of_le
bool_cell-Means c PropertyType.t_bool n true e = ground arith
bool_cell-Means c PropertyType.t_bool n false e = ground arith
bool_cell-Means c PropertyType.t_int8 n true e = ground arith
bool_cell-Means c _ n b e = ground arith

low_byte : (v : ℕ) → of_le (le_bytes 1 v) ≡ v % 256
unfolding le_bytes of_le
low_byte v = omega arith

low_word : (v : ℕ) → of_le (le_bytes 2 v) ≡ v % 65536
unfolding le_bytes of_le
low_word v = omega arith

low_dword : (v : ℕ) → of_le (le_bytes 4 v) ≡ v % 4294967296
unfolding le_bytes of_le
low_dword v = omega arith

extend_byte : (v : ℕ) → v < 256 ^ 8 → fits 8 1 v ≡ true → sign_extend 1 8 (v % 256) ≡ v
unfolding sign_extend fits
extend_byte v h f = ground arith

extend_word : (v : ℕ) → v < 256 ^ 8 → fits 8 2 v ≡ true → sign_extend 2 8 (v % 65536) ≡ v
unfolding sign_extend fits
extend_word v h f = ground arith

extend_dword : (v : ℕ) → v < 256 ^ 8 → fits 8 4 v ≡ true → sign_extend 4 8 (v % 4294967296) ≡ v
unfolding sign_extend fits
extend_dword v h f = ground arith

extend_self : (v : ℕ) → sign_extend 8 8 v ≡ v
unfolding sign_extend
extend_self v = ground arith

narrow_eq :
    (m v : ℕ) {bs : List ℕ}
    → m < 8
    → narrow 8 m v ≡ bytes bs
    → (fits 8 m v ≡ true) × (le_bytes m v ≡ bs)
unfolding narrow
narrow_eq m v h e = ground arith

abbrev get_or_zero : Option ℕ → ℕ
get_or_zero none = 0
get_or_zero (some x) = x

module _ (c : Conversions) (z : IsSized c) where
  timestamp :
      (n v : ℕ) {bs : List ℕ} (r : Option ℕ)
      → c.to_timestamp v ≡ r
      → int_cell c 8 PropertyType.t_timestamp v ≡ bytes bs
      → Means c PropertyType.t_timestamp n bs (read_back c PropertyType.t_timestamp n (Value.int v))
  unfolding int_cell decode_slot column_size
  timestamp n v r q e = ground (
    arith,
    extend_self v,
    of_le-le_bytes 8 (get_or_zero r),
    z.timestamp_lt v (get_or_zero r),
    length-le_bytes 8 (get_or_zero r),
  )

  pub int_cell-Means :
      (t : PropertyType) (n v : ℕ) {bs : List ℕ}
      → v < 256 ^ 8
      → int_cell c 8 t v ≡ bytes bs
      → Means c t n bs (read_back c t n (Value.int v))
  unfolding int_cell decode_slot column_size
  int_cell-Means PropertyType.t_bool n v h e =
      ground
        (arith, low_byte (if v == 0 then 0 else 1), length-le_bytes 1 (if v == 0 then 0 else 1))
  int_cell-Means PropertyType.t_int8 n v h e =
      ground (arith, narrow_eq 1 v, low_byte v, extend_byte v, length-le_bytes 1 v)
  int_cell-Means PropertyType.t_int16 n v h e =
      ground (arith, narrow_eq 2 v, low_word v, extend_word v, length-le_bytes 2 v)
  int_cell-Means PropertyType.t_int32 n v h e =
      ground (arith, narrow_eq 4 v, low_dword v, extend_dword v, length-le_bytes 4 v)
  int_cell-Means PropertyType.t_int64 n v h e =
      unfold narrow in ground (arith, extend_self v, of_le-le_bytes 8 v h, length-le_bytes 8 v)
  int_cell-Means PropertyType.t_timestamp n v h e = timestamp n v (c.to_timestamp v) refl e
  int_cell-Means PropertyType.t_float n v h e = ground (
    arith,
    extend_self v,
    of_le-le_bytes 4 (c.float_of_int v) (z.float_int_lt v),
    length-le_bytes 4 (c.float_of_int v),
  )
  int_cell-Means PropertyType.t_double n v h e = ground (
    arith,
    extend_self v,
    of_le-le_bytes 8 (c.double_of_int v) (z.double_int_lt v),
    length-le_bytes 8 (c.double_of_int v),
  )
  int_cell-Means _ n v h e = cc

  cast_cell_eq :
      (m d : ℕ) {bs : List ℕ}
      → cast_cell c m d ≡ bytes bs
      → (of_le bs ≡ c.int_of_double m d) × (length bs ≡ m)
  unfolding cast_cell
  cast_cell_eq m d e = ground (
    arith,
    of_le-le_bytes m (c.int_of_double m d) (z.int_lt m d),
    length-le_bytes m (c.int_of_double m d),
  )

  pub double_cell-Means :
      (t : PropertyType) (n d : ℕ) {bs : List ℕ}
      → d < 256 ^ 8
      → double_cell c t d ≡ bytes bs
      → Means c t n bs (read_back c t n (Value.float d))
  unfolding double_cell decode_slot column_size
  double_cell-Means PropertyType.t_int8 n d h e = ground (arith, cast_cell_eq 1 d e)
  double_cell-Means PropertyType.t_int16 n d h e = ground (arith, cast_cell_eq 2 d e)
  double_cell-Means PropertyType.t_int32 n d h e = ground (arith, cast_cell_eq 4 d e)
  double_cell-Means PropertyType.t_int64 n d h e = ground (arith, cast_cell_eq 8 d e)
  double_cell-Means PropertyType.t_float n d h e = ground (
    arith,
    of_le-le_bytes 4 (c.float_of_double d) (z.float_lt d),
    length-le_bytes 4 (c.float_of_double d),
  )
  double_cell-Means PropertyType.t_double n d h e =
      ground (arith, of_le-le_bytes 8 d h, length-le_bytes 8 d)
  double_cell-Means _ n d h e = cc
