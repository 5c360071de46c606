-- ===== src/Codec/Writer.antt =====
-- The class RowWriterV2: src/codec/RowWriterV2.h and .cpp. A failing CHECK and LOG(FATAL) are
-- `none`. An index is a size_t, so a negative one lies behind all columns. The space that the writer
-- reserves is left out, and with it approxStrLen_.
use nebula_storage.Prelude.{
  ℕ, suc, ◌+◌, ◌-◌, ◌/◌, ◌%◌, ◌^◌, Bool, true, false, ◌||◌, List, [], ◌∷◌, ◌++◌, Option, none, some,
  length, get_elem?, get_or, set, replicate, if◌then◌else◌, ltb, leb, ◌==◌, ◌>>=◌,
}
use nebula_storage.Bytes.Words.{le_bytes}
use nebula_storage.Codec.Schema.{Value, PropertyType, Field, Schema}
use nebula_storage.Codec.Buffer.{put}
use nebula_storage.Codec.Bits.{set_bit, clear_bit, test_bit}
use nebula_storage.Codec.Cells.{
  WriteResult, Conversions, Cell, bytes, refused, bool_cell, int_cell, double_cell, fixed_cell,
  date_cell, time_cell, date_time_cell,
}

pub record Writer : Type 0 where
  pub schema : Schema
  pub buf : List ℕ
  pub is_set : List Bool
  pub header_len : ℕ
  pub num_null_bytes : ℕ
  pub finished : Bool
  pub out_of_space_str : Bool
  pub str_list : List (List ℕ)

-- The number of bytes that the version takes; zero and the negative ones take none.
unfoldable pub version_bytes : ℕ → Option ℕ
version_bytes v =
    if v == 0 || leb (2 ^ 63) v
    then some 0
    else if leb v 0xFF
    then some 1
    else if ltb v 0xFFFF
    then some 2
    else if ltb v 0xFFFFFF
    then some 3
    else if ltb v 0xFFFFFFFF
    then some 4
    else if ltb v 0xFFFFFFFFFF
    then some 5
    else if ltb v 0xFFFFFFFFFFFF
    then some 6
    else if ltb v 0xFFFFFFFFFFFFFF
    then some 7
    else none

unfoldable pub null_bytes : ℕ → ℕ
null_bytes n = if n == 0 then 0 else (n - 1) / 8 + 1

unfoldable pub header : ℕ → ℕ → List ℕ
header n version = (8 + n) ∷ le_bytes n version

-- `RowWriterV2(schema)`.
unfoldable pub new_writer : Schema → Option Writer
unfolding version_bytes null_bytes header
new_writer s = elim (version_bytes s.version) [
  | none ↦ none
  | some n ↦ some record {
    schema = s;
    buf = header n s.version ++ replicate (null_bytes s.num_nullables + s.row_size) 0;
    is_set = replicate (length s.fields) false;
    header_len = n + 1;
    num_null_bytes = null_bytes s.num_nullables;
    finished = false;
    out_of_space_str = false;
    str_list = [];
  }
]

unfoldable pub set_null_bit : ℕ → Writer → Writer
set_null_bit pos w =
    let off = w.header_len + pos / 8 in
    record w { buf = put off (set_bit (pos % 8) (get_or w.buf off 0) ∷ []) w.buf }

unfoldable pub clear_null_bit : ℕ → Writer → Writer
clear_null_bit pos w =
    let off = w.header_len + pos / 8 in
    record w { buf = put off (clear_bit (pos % 8) (get_or w.buf off 0) ∷ []) w.buf }

unfoldable pub check_null_bit : ℕ → Writer → Bool
check_null_bit pos w = test_bit (pos % 8) (get_or w.buf (w.header_len + pos / 8) 0)

unfoldable pub slot : Field → Writer → ℕ
slot f w = w.header_len + w.num_null_bytes + f.offset

-- The end of every overload of `write`: the null flag is cleared and the column counts as set.
unfoldable pub mark_set : ℕ → Field → Writer → Writer
unfolding clear_null_bit
mark_set i f w =
    let cleared = if f.nullable then clear_null_bit f.null_flag_pos w else w in
    record cleared { is_set = set cleared.is_set i true }

unfoldable pub write_cell : ℕ → Field → Cell → Writer → Writer × WriteResult
unfolding slot mark_set
write_cell i f (bytes bs) w =
    (mark_set i f (record w { buf = put (slot f w) bs w.buf }), WriteResult.succeeded)
write_cell i f (refused r) w = (w, r)

-- Where a string is put: at the end of the row, or beside it once a column has been written twice.
unfoldable pub place_string : ℕ → List ℕ → Writer → Writer × (List ℕ)
place_string i v w =
    if w.out_of_space_str || get_or w.is_set i false
    then (
      record w { out_of_space_str = true; str_list = w.str_list ++ v ∷ [] },
      le_bytes 4 0 ++ le_bytes 4 (length w.str_list),
    )
    else (record w { buf = w.buf ++ v }, le_bytes 4 (length w.buf) ++ le_bytes 4 (length v))

unfoldable pub write_string : PropertyType → ℕ → Field → List ℕ → Writer → Writer × WriteResult
unfolding place_string write_cell fixed_cell
write_string PropertyType.t_string i f v w =
    let (placed, place) = place_string i v w in write_cell i f (bytes place) placed
write_string PropertyType.t_fixed_string i f v w = write_cell i f (fixed_cell f.size v) w
write_string _ i f v w = (w, WriteResult.type_mismatch)

unfoldable pub set_null : ℕ → Field → Writer → Writer × WriteResult
unfolding set_null_bit
set_null i f w =
    let flagged = set_null_bit f.null_flag_pos w in
    if f.nullable
    then (record flagged { is_set = set flagged.is_set i true }, WriteResult.succeeded)
    else (w, WriteResult.not_nullable)

module _ (c : Conversions) where
  -- The switch on the value's type in setValue.
  unfoldable pub write_value : ℕ → Field → Value → Writer → Writer × WriteResult
  unfolding set_null write_cell bool_cell int_cell double_cell write_string
  write_value i f Value.null w = set_null i f w
  write_value i f (Value.bool b) w = write_cell i f (bool_cell f.type b) w
  write_value i f (Value.int v) w = write_cell i f (int_cell c 8 f.type v) w
  write_value i f (Value.float d) w = write_cell i f (double_cell c f.type d) w
  write_value i f (Value.string s) w = write_string f.type i f s w
  write_value i f (Value.date d) w = write_cell i f (date_cell f.type d) w
  write_value i f (Value.time t) w = write_cell i f (time_cell f.type t) w
  write_value i f (Value.date_time d t) w = write_cell i f (date_time_cell f.type d t) w
  write_value i f Value.other w = (w, WriteResult.type_mismatch)

  unfoldable pub set_value : ℕ → Value → Writer → Option (Writer × WriteResult)
  unfolding write_value
  set_value i v w = if w.finished then none else elim (get_elem? w.schema.fields i) [
    | none ↦ some (w, WriteResult.unknown_field)
    | some f ↦ some (write_value i f v w)
  ]

  -- The default of a column; a NULL as default sets the flag whether the column is nullable or not.
  unfoldable pub write_default : ℕ → Field → Value → Writer → Option (Writer × WriteResult)
  unfolding write_value set_null_bit
  write_default i f Value.null w = some (set_null_bit f.null_flag_pos w, WriteResult.succeeded)
  write_default i f Value.other w = none
  write_default i f v w = some (write_value i f v w)

  unfoldable pub fill_unset : ℕ → Field → Writer → Option (Writer × WriteResult)
  unfolding write_default set_null_bit
  fill_unset i f w = elim f.default_value [
    | some v ↦ write_default i f v w
    | none ↦
        if f.nullable
        then some (set_null_bit f.null_flag_pos w, WriteResult.succeeded)
        else some (w, WriteResult.field_unset)
  ]

  unfoldable pub fill_field : ℕ → Field → Writer → Option (Writer × WriteResult)
  unfolding fill_unset
  fill_field i f w =
      if get_or w.is_set i false then some (w, WriteResult.succeeded) else fill_unset i f w

  abbrev pub go_on :
      (Writer → Option (Writer × WriteResult))
      → Writer × WriteResult
      → Option (Writer × WriteResult)
  go_on next (w, WriteResult.succeeded) = next w
  go_on next (w, r) = some (w, r)

  -- checkUnsetFields, from the column `i` on.
  unfoldable pub check_unset_fields : ℕ → List Field → Writer → Option (Writer × WriteResult)
  unfolding fill_field
  check_unset_fields i [] w = some (w, WriteResult.succeeded)
  check_unset_fields i (f ∷ fs) w = fill_field i f w >>= go_on (check_unset_fields (suc i) fs)
