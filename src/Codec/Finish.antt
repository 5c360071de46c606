-- ===== src/Codec/Finish.antt =====
-- The end of a row: RowWriterV2::processOutOfSpace and finish, and the constructor that opens an
-- encoded row again, of src/codec/RowWriterV2.cpp.
use mathlib.Core.Option
use nebula_storage.Prelude.{
  ℕ, ◌+◌, ◌-◌, ◌/◌, ◌%◌, ◌^◌, Bool, true, false, ◌&&◌, List, [], ◌∷◌, ◌++◌, Option, none, some,
  length, get_elem?, take, replicate, if◌then◌else◌, ltb, ◌==◌, ◌>>=◌,
}
use nebula_storage.Bytes.Words.{le_bytes}
use nebula_storage.Bytes.Pieces.{piece, read_int}
use nebula_storage.Codec.Schema.{PropertyType, Field, Schema}
use nebula_storage.Codec.Buffer.{put}
use nebula_storage.Codec.Cells.{WriteResult, Conversions}
use nebula_storage.Codec.Writer.{Writer, null_bytes, check_null_bit, slot, check_unset_fields}

-- The text of a string column that is not NULL: a piece of the row, or one of the strings beside it.
unfoldable pub text_of : Field → Writer → Option (List ℕ)
unfolding slot
text_of f w = do
  old ← read_int (slot f w) 4 w.buf
  len ← read_int (slot f w + 4) 4 w.buf
  if ltb 0 old && ltb old (2 ^ 31) then piece old len w.buf else get_elem? w.str_list len

-- The new place and length of a string, at the end of `temp`.
abbrev pub place_of : List ℕ → List ℕ → List ℕ
place_of temp s = le_bytes 4 (length temp) ++ le_bytes 4 (length s)

unfoldable pub relocate : Field → Writer → List ℕ → Option (List ℕ)
unfolding text_of slot check_null_bit
relocate f w temp =
    if f.nullable && check_null_bit f.null_flag_pos w
    then some (put (slot f w) (replicate 8 0) temp)
    else Option.map (λ s. put (slot f w) (place_of temp s) (temp ++ s)) (text_of f w)

abbrev pub is_string : PropertyType → Bool
is_string PropertyType.t_string = true
is_string _ = false

unfoldable pub relocate_all : List Field → Writer → List ℕ → Option (List ℕ)
unfolding relocate
relocate_all [] w temp = some temp
relocate_all (f ∷ fs) w temp =
    (if is_string f.type then relocate f w temp else some temp) >>= relocate_all fs w

unfoldable pub process_out_of_space : Writer → Option (List ℕ)
unfolding relocate_all
process_out_of_space w =
    relocate_all w.schema.fields w
      (take (w.header_len + w.num_null_bytes + w.schema.row_size) w.buf)

unfoldable pub joined_buf : Writer → Option (List ℕ)
unfolding process_out_of_space
joined_buf w = if w.out_of_space_str then process_out_of_space w else some w.buf

unfoldable pub close : ℕ → Writer × WriteResult → Option (Writer × WriteResult)
unfolding joined_buf
close now (w, WriteResult.succeeded) =
    Option.map
      (λ b. (record w { buf = b ++ le_bytes 8 now; finished = true }, WriteResult.succeeded))
      (joined_buf w)
close now (w, r) = some (w, r)

-- `now` is the wall clock.
unfoldable pub finish : Conversions → ℕ → Writer → Option (Writer × WriteResult)
unfolding close check_unset_fields
finish c now w = if w.finished then none else check_unset_fields c 0 w.schema.fields w >>= close now

unfoldable pub opened : Schema → List ℕ → ℕ → ℕ → Option Writer
unfolding null_bytes
opened s buf first version =
    if (first / 8 % 4 == 1) && (version == s.version)
    then some record {
      schema = s;
      buf = buf;
      is_set = replicate (length s.fields) true;
      header_len = first % 8 + 1;
      num_null_bytes = null_bytes s.num_nullables;
      finished = false;
      out_of_space_str = false;
      str_list = [];
    }
    else none

-- The bytes in front of the time. Where a row is shorter than 8 bytes the size wraps around, and substr
-- keeps all.
abbrev pub without_time : List ℕ → List ℕ
without_time row = if ltb (length row) 8 then row else take (length row - 8) row

-- `RowWriterV2(schema, encoded)` with processV2EncodedStr.
unfoldable pub reopen : Schema → List ℕ → Option Writer
unfolding opened
reopen s encoded = do
  let buf = without_time encoded
  first ← read_int 0 1 buf
  version ← read_int 1 (first % 8) buf
  opened s buf first version
