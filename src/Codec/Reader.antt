-- ===== src/Codec/Reader.antt =====
-- The class RowReaderV2: src/codec/RowReaderV2.cpp. A failing CHECK, LOG(FATAL) and a read behind
-- the end of the row are `none`.
use mathlib.Core.Option
use nebula_storage.Prelude.{
  ℕ, ◌+◌, ◌-◌, ◌/◌, ◌%◌, Bool, not, ◌&&◌, List, [], Option, none, some, length, get_elem?, get_or,
  take, drop, if◌then◌else◌, ltb, ◌==◌, ◌>>=◌,
}
use nebula_storage.Bytes.Words.{of_le}
use nebula_storage.Bytes.Pieces.{piece, read_int}
use nebula_storage.Codec.Schema.{Date, Time, Value, PropertyType, Field, Schema}
use nebula_storage.Codec.Bits.{test_bit}
use nebula_storage.Codec.Cells.{Conversions, sign_extend}
use nebula_storage.Codec.Writer.{null_bytes}

pub record Reader : Type 0 where
  pub schema : Schema
  pub row : List ℕ
  pub header_len : ℕ
  pub num_null_bytes : ℕ

-- `resetImpl`.
unfoldable pub new_reader : Schema → List ℕ → Option Reader
unfolding null_bytes
new_reader s row =
    Option.map
      (λ first. record {
        schema = s;
        row = row;
        header_len = first % 8 + 1;
        num_null_bytes = null_bytes s.num_nullables;
      })
      (read_int 0 1 row)

unfoldable pub is_null : ℕ → Reader → Bool
is_null pos r = test_bit (pos % 8) (get_or r.row (r.header_len + pos / 8) 0)

-- The `n` bytes at `off` of a slot, as an integer.
abbrev pub part_of : ℕ → ℕ → List ℕ → ℕ
part_of off n bs = of_le (take n (drop off bs))

abbrev pub date_of : List ℕ → Date
date_of bs = record { year = part_of 0 2 bs; month = part_of 2 1 bs; day = part_of 3 1 bs }

abbrev pub time_of : ℕ → List ℕ → Time
time_of off bs = record {
  hour = part_of off 1 bs;
  minute = part_of (off + 1) 1 bs;
  sec = part_of (off + 2) 1 bs;
  microsec = part_of (off + 3) 4 bs;
}

-- What a slot holds, for all types whose values lie in it; the code reads the same bytes one by one.
unfoldable pub decode_slot : Conversions → PropertyType → List ℕ → Option Value
unfolding sign_extend
decode_slot c PropertyType.t_bool bs = some (Value.bool (not (of_le bs == 0)))
decode_slot c PropertyType.t_int8 bs = some (Value.int (sign_extend 1 8 (of_le bs)))
decode_slot c PropertyType.t_int16 bs = some (Value.int (sign_extend 2 8 (of_le bs)))
decode_slot c PropertyType.t_int32 bs = some (Value.int (sign_extend 4 8 (of_le bs)))
decode_slot c PropertyType.t_int64 bs = some (Value.int (of_le bs))
decode_slot c PropertyType.t_vid bs = some (Value.string bs)
decode_slot c PropertyType.t_float bs = some (Value.float (c.double_of_float (of_le bs)))
decode_slot c PropertyType.t_double bs = some (Value.float (of_le bs))
decode_slot c PropertyType.t_fixed_string bs = some (Value.string bs)
decode_slot c PropertyType.t_timestamp bs = some (Value.int (of_le bs))
decode_slot c PropertyType.t_date bs = some (Value.date (date_of bs))
decode_slot c PropertyType.t_time bs = some (Value.time (time_of 0 bs))
decode_slot c PropertyType.t_date_time bs = some (Value.date_time (date_of bs) (time_of 4 bs))
decode_slot c PropertyType.t_string bs = none
decode_slot c PropertyType.t_unknown bs = none

-- A string of `len` bytes at `place`; an empty one may stand at the very end.
unfoldable pub string_at : ℕ → ℕ → List ℕ → Option Value
string_at place len row =
    if (place == length row) && (len == 0)
    then some (Value.string [])
    else if ltb place (length row)
    then Option.map Value.string (piece place len row)
    else none

-- A string is kept elsewhere in the row; its slot holds its place and its length, of four bytes each.
unfoldable pub read_string : ℕ → List ℕ → Option Value
unfolding string_at
read_string off row = do
  place ← read_int off 4 row
  len ← read_int (off + 4) 4 row
  string_at place len row

unfoldable pub read_slot : Conversions → PropertyType → ℕ → ℕ → List ℕ → Option Value
unfolding read_string decode_slot
read_slot c PropertyType.t_string n off row = read_string off row
read_slot c t n off row = piece off n row >>= decode_slot c t

unfoldable pub get_field : Conversions → Field → Reader → Option Value
get_field c f r =
    if f.nullable && is_null f.null_flag_pos r
    then some Value.null
    else read_slot c f.type f.size (r.header_len + r.num_null_bytes + f.offset) r.row

-- The index behind all columns gives the NULL of an unknown property, here `none` of the inner option.
unfoldable pub get_value_by_index : Conversions → ℕ → Reader → Option (Option Value)
unfolding is_null read_slot get_field
get_value_by_index c i r = elim (get_elem? r.schema.fields i) [
  | none ↦ some none
  | some f ↦ Option.map some (get_field c f r)
]

unfoldable pub get_timestamp : Reader → Option ℕ
get_timestamp r = read_int (length r.row - 8) 8 r.row
