-- ===== src/Codec/Tests.antt =====
-- Rows of a small schema, and the theorems at them.
use nebula_storage.Prelude.{
  ℕ, zero, suc, ◌+◌, ◌^◌, ◌<◌, ◌≡◌, refl, Bool, true, false, List, [], ◌∷◌, Option, none, some,
  arith, get_elem?, get_or, ◌>>=◌, subst, ◌++◌, replicate,
}
use nebula_storage.Bytes.Words.{le_bytes, of_le}
use nebula_storage.Bytes.Pieces.{piece, read_int}
use nebula_storage.Codec.Buffer.{put, lay}
use nebula_storage.Codec.Bits.{set_bit, clear_bit, test_bit}
use nebula_storage.Codec.Schema.{Date, Value, PropertyType, Field, Schema, column_size, IsLaidOut}
use nebula_storage.Codec.Cells.{WriteResult, Conversions, IsSized, date_bytes, date_cell}
use nebula_storage.Codec.Writer.{
  Writer, version_bytes, null_bytes, header, new_writer, check_null_bit, slot, set_value,
}
use nebula_storage.Codec.Finish.{finish, reopen}
use nebula_storage.Codec.Reader.{Reader, decode_slot, new_reader, get_value_by_index, get_timestamp}
use nebula_storage.Codec.Frame.{held}
use nebula_storage.Codec.Held.{IsWriter}
use nebula_storage.Codec.SetValue.{IsHeld, set_value-IsHeld, set_value-held_ne, set_value-refused}
use nebula_storage.Codec.Spill.{set_value-date_spill}
use nebula_storage.Codec.Joined.{new_writer-IsWriter}
use nebula_storage.Codec.Closed.{AllSet, finish-get_value_by_index}
use nebula_storage.Codec.Rows.{finish-reopen}
use nebula_storage.Codec.Total.{HasValue, finish-succeeds}

-- A machine on which every double is 0.
abbrev zeros : Conversions
zeros = record {
  fits_int = λ n d. true;
  int_of_double = λ n d. 0;
  fits_float = λ d. true;
  float_of_double = λ d. 0;
  double_of_float = λ f. 0;
  float_of_int = λ v. 0;
  double_of_int = λ v. 0;
  to_timestamp = λ v. none;
}

pow_pos : (n : ℕ) → 0 < 256 ^ n
pow_pos zero = omega arith
pow_pos (suc n) = omega (arith, pow_pos n)

zeros-IsSized : IsSized zeros
zeros-IsSized = record {
  int_lt = λ n d. pow_pos n;
  float_lt = λ d. omega arith;
  float_int_lt = λ v. omega arith;
  double_int_lt = λ v. omega arith;
  timestamp_lt = λ v t e. cc;
}

abbrev col : PropertyType → Bool → ℕ → ℕ → ℕ → Field
col t nullable off pos size = record {
  type = t;
  size = size;
  nullable = nullable;
  offset = off;
  null_flag_pos = pos;
  default_value = none;
}

-- A nullable int16, a string and a nullable string, in version 7.
abbrev person : Schema
person = record {
  version = 7;
  fields =
      col PropertyType.t_int16 true 0 0 2
      ∷ col PropertyType.t_string false 2 0 8
      ∷ col PropertyType.t_string true 10 1 8
      ∷ [];
  num_nullables = 2;
  row_size = 18;
}

person-IsLaidOut : IsLaidOut person
unfolding column_size
person-IsLaidOut =
    (refl, refl, λ e. refl, (refl, refl, λ e. cc, (refl, refl, λ e. refl, (refl, refl))))

abbrev blank : Writer
blank = record {
  schema = person;
  buf = 9 ∷ 7 ∷ 0 ∷ 0 ∷ 0 ∷ 0 ∷ 0 ∷ 0 ∷ 0 ∷ 0 ∷ 0 ∷ 0 ∷ 0 ∷ 0 ∷ 0 ∷ 0 ∷ 0 ∷ 0 ∷ 0 ∷ 0 ∷ 0 ∷ [];
  is_set = false ∷ false ∷ false ∷ [];
  header_len = 2;
  num_null_bytes = 1;
  finished = false;
  out_of_space_str = false;
  str_list = [];
}

blank-new_writer : new_writer person ≡ some blank
unfolding new_writer le_bytes
blank-new_writer = refl

-- The row with the string "hi" in the second column.
abbrev greeted : Writer
greeted = record blank {
  buf =
      9 ∷ 7 ∷ 0 ∷ 0 ∷ 0 ∷ 21 ∷ 0 ∷ 0 ∷ 0 ∷ 2 ∷ 0 ∷ 0 ∷ 0 ∷ 0 ∷ 0 ∷ 0 ∷ 0 ∷ 0 ∷ 0 ∷ 0 ∷ 0 ∷ 104 ∷ 105
      ∷ [];
  is_set = false ∷ true ∷ false ∷ [];
}

-- The row after -3, "hi", then "yo" in its place, and NULL.
abbrev filled : Writer
filled = record blank {
  buf =
      9 ∷ 7 ∷ 64 ∷ 253 ∷ 255 ∷ 0 ∷ 0 ∷ 0 ∷ 0 ∷ 0 ∷ 0 ∷ 0 ∷ 0 ∷ 0 ∷ 0 ∷ 0 ∷ 0 ∷ 0 ∷ 0 ∷ 0 ∷ 0 ∷ 104
      ∷ 105 ∷ [];
  is_set = true ∷ true ∷ true ∷ [];
  out_of_space_str = true;
  str_list = (121 ∷ 111 ∷ []) ∷ [];
}

-- The finished row, with the time 5.
abbrev finished_row : Writer
finished_row = record filled {
  buf =
      9 ∷ 7 ∷ 64 ∷ 253 ∷ 255 ∷ 21 ∷ 0 ∷ 0 ∷ 0 ∷ 2 ∷ 0 ∷ 0 ∷ 0 ∷ 0 ∷ 0 ∷ 0 ∷ 0 ∷ 0 ∷ 0 ∷ 0 ∷ 0 ∷ 121
      ∷ 111 ∷ 5 ∷ 0 ∷ 0 ∷ 0 ∷ 0 ∷ 0 ∷ 0 ∷ 0 ∷ [];
  finished = true;
}

run : List (ℕ × Value) → Option Writer → Option Writer
run [] w = w
run ((i, v) ∷ vs) w = run vs (w >>= λ x. set_value zeros i v x >>= λ p. some p.0)

abbrev script : List (ℕ × Value)
script =
    (0, Value.int 0xFFFFFFFFFFFFFFFD)
    ∷ (1, Value.string (104 ∷ 105 ∷ []))
    ∷ (1, Value.string (121 ∷ 111 ∷ []))
    ∷ (2, Value.null)
    ∷ []

filled-run : run script (some blank) ≡ some filled
unfolding run set_value le_bytes of_le piece read_int put lay set_bit clear_bit
filled-run = refl

filled-finish : finish zeros 5 filled ≡ some (finished_row, WriteResult.succeeded)
unfolding finish le_bytes of_le piece read_int put lay test_bit
filled-finish = refl

blank-IsWriter : IsWriter blank
blank-IsWriter = (new_writer-IsWriter person blank person-IsLaidOut blank-new_writer).0

one_flag : (k : ℕ) → k < 1 → get_or filled.buf (2 + k) 0 < 256
one_flag zero h = omega arith
one_flag (suc k) h = absurd (omega arith)

filled-IsWriter : IsWriter filled
unfolding version_bytes null_bytes header piece le_bytes
filled-IsWriter = record {
  laid = person-IsLaidOut;
  fits_buf = omega arith;
  headed = omega arith;
  flagged = refl;
  versioned = refl;
  written = refl;
  beside = λ e. cc;
  flags_lt = one_flag;
}

filled-AllSet : AllSet filled
filled-AllSet zero h = refl
filled-AllSet (suc zero) h = refl
filled-AllSet (suc (suc zero)) h = refl
filled-AllSet (suc (suc (suc i))) h = absurd (omega arith)

by_slot :
    held zeros (col PropertyType.t_int16 true 0 0 2) filled ≡ some (Value.int 0xFFFFFFFFFFFFFFFD)
unfolding check_null_bit decode_slot piece slot of_le test_bit
by_slot = refl

by_text :
    held zeros (col PropertyType.t_string false 2 0 8) filled ≡ some (Value.string (121 ∷ 111 ∷ []))
unfolding read_int piece slot of_le
by_text = refl

by_flag : held zeros (col PropertyType.t_string true 10 1 8) filled ≡ some Value.null
unfolding check_null_bit test_bit
by_flag = refl

holding :
    (u : Value) {f g : Field}
    → some f ≡ some g
    → held zeros f filled ≡ some u
    → HasValue zeros filled g
holding u {f = f} {g = g} e h =
    let q : f ≡ g = cc in (u, subst (λ k. held zeros k filled ≡ some u) q h)

filled-HasValue :
    (j : ℕ) (g : Field) → get_elem? filled.schema.fields j ≡ some g → HasValue zeros filled g
filled-HasValue zero g e = holding (Value.int 0xFFFFFFFFFFFFFFFD) e by_slot
filled-HasValue (suc zero) g e = holding (Value.string (121 ∷ 111 ∷ [])) e by_text
filled-HasValue (suc (suc zero)) g e = holding Value.null e by_flag
filled-HasValue (suc (suc (suc j))) g e = cc

set_value-IsHeld_example :
    IsHeld zeros (col PropertyType.t_string false 2 0 8) (Value.string (104 ∷ 105 ∷ [])) greeted
unfolding set_value le_bytes of_le piece read_int put lay
set_value-IsHeld_example =
    set_value-IsHeld zeros 1 (col PropertyType.t_string false 2 0 8) (Value.string (104 ∷ 105 ∷ []))
      blank greeted zeros-IsSized tt blank-IsWriter (omega arith, omega arith) refl refl

set_value-held_ne_example :
    held zeros (col PropertyType.t_int16 true 0 0 2) greeted ≡ some (Value.int 0)
unfolding set_value le_bytes of_le piece read_int put lay check_null_bit decode_slot slot test_bit
set_value-held_ne_example =
    set_value-held_ne zeros 1 0 (col PropertyType.t_string false 2 0 8)
      (col PropertyType.t_int16 true 0 0 2) (Value.string (104 ∷ 105 ∷ [])) (Value.int 0) blank
      greeted zeros-IsSized tt blank-IsWriter (omega arith, omega arith) refl refl (omega arith)
      refl refl

-- 40000 does not fit into an int16.
set_value-refused_example : blank ≡ blank
unfolding set_value
set_value-refused_example =
    set_value-refused zeros 0 (Value.int 40000) blank blank WriteResult.out_of_range refl (λ e. cc)

finish-get_value_by_index_example :
    (r : Reader) × (new_reader person finished_row.buf ≡ some r)
    × (get_value_by_index zeros 1 r ≡ some (some (Value.string (121 ∷ 111 ∷ []))))
    × (get_timestamp r ≡ some 5)
finish-get_value_by_index_example =
    finish-get_value_by_index zeros 5 1 filled finished_row (col PropertyType.t_string false 2 0 8)
      (Value.string (121 ∷ 111 ∷ [])) filled-IsWriter filled-AllSet (omega arith) (omega arith)
      filled-finish refl by_text

finish-reopen_example :
    (y : Writer) × (reopen person finished_row.buf ≡ some y)
    × (y.schema ≡ person)
    × IsWriter y
    × (held zeros (col PropertyType.t_string false 2 0 8) y ≡ some (Value.string (121 ∷ 111 ∷ [])))
finish-reopen_example =
    finish-reopen zeros 5 1 filled finished_row (col PropertyType.t_string false 2 0 8)
      (Value.string (121 ∷ 111 ∷ [])) filled-IsWriter filled-AllSet (omega arith) (omega arith)
      filled-finish refl by_text

finish-succeeds_example : (x : Writer) × (finish zeros 5 filled ≡ some (x, WriteResult.succeeded))
finish-succeeds_example = finish-succeeds zeros 5 filled filled-AllSet refl filled-HasValue

-- A date and time, and an int32, in version 7.
abbrev event : Schema
event = record {
  version = 7;
  fields = col PropertyType.t_date_time false 0 0 11 ∷ col PropertyType.t_int32 false 11 0 4 ∷ [];
  num_nullables = 0;
  row_size = 15;
}

event-IsLaidOut : IsLaidOut event
unfolding column_size
event-IsLaidOut = (refl, refl, λ e. cc, (refl, refl, λ e. cc, (refl, refl)))

-- The int32 is 7.
abbrev counted : Writer
counted = record {
  schema = event;
  buf = 9 ∷ 7 ∷ 0 ∷ 0 ∷ 0 ∷ 0 ∷ 0 ∷ 0 ∷ 0 ∷ 0 ∷ 0 ∷ 0 ∷ 0 ∷ 7 ∷ 0 ∷ 0 ∷ 0 ∷ [];
  is_set = false ∷ true ∷ [];
  header_len = 2;
  num_null_bytes = 0;
  finished = false;
  out_of_space_str = false;
  str_list = [];
}

counted-IsWriter : IsWriter counted
unfolding version_bytes null_bytes header piece le_bytes
counted-IsWriter = record {
  laid = event-IsLaidOut;
  fits_buf = omega arith;
  headed = omega arith;
  flagged = refl;
  versioned = refl;
  written = refl;
  beside = λ e. refl;
  flags_lt = λ k h. absurd (omega arith);
}

abbrev fourth_of_march : Date
fourth_of_march = record { year = 2021; month = 3; day = 4 }

-- The int32 is gone.
abbrev dated : Writer
dated = record counted {
  buf = 9 ∷ 7 ∷ 229 ∷ 7 ∷ 3 ∷ 4 ∷ 0 ∷ 0 ∷ 0 ∷ 0 ∷ 0 ∷ 0 ∷ 0 ∷ 0 ∷ 0 ∷ 0 ∷ 0 ∷ [];
  is_set = true ∷ true ∷ [];
}

set_value-date_spill_example :
    (piece 2 11 dated.buf ≡ some (date_bytes fourth_of_march ++ replicate 7 0))
    × (piece 13 4 dated.buf ≡ some (replicate 4 0))
unfolding set_value slot put lay le_bytes date_cell
set_value-date_spill_example =
    set_value-date_spill zeros 0 (col PropertyType.t_date_time false 0 0 11) fourth_of_march counted
      dated counted-IsWriter refl refl (omega arith) refl
