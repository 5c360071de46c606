-- ===== src/Codec/SetValue.antt =====
-- RowWriterV2::setValue as a whole: what a success means, and that a refusal changes nothing.
use nebula_storage.Prelude.{
  ℕ, ◌≡◌, ◌≢◌, refl, ap, sym, ◌∙◌, subst, List, none, some, arith, length, get_elem?, inl, inr, ◌⊎◌,
  Bool-cases, Option-cases,
}
use nebula_storage.Codec.Schema.{Value, PropertyType, Field}
use nebula_storage.Codec.Cells.{
  WriteResult, Conversions, IsSized, Cell, bytes, refused, narrow, bool_cell, int_cell, cast_cell,
  double_cell, fixed_cell, date_cell, time_cell, date_time_cell,
}
use nebula_storage.Codec.Writer.{Writer, write_cell, write_string, set_null, write_value, set_value}
use nebula_storage.Codec.Reader.{decode_slot}
use nebula_storage.Codec.IntLaws.{IsValue, read_back, cell_of}
use nebula_storage.Codec.CellLaws.{cell_of-Means}
use nebula_storage.Codec.Layout.{Placed, column-Placed, columns-Apart}
use nebula_storage.Codec.Held.{IsWriter}
use nebula_storage.Codec.Frame.{held, held_frame}
use nebula_storage.Codec.Marks.{Wrote}
use nebula_storage.Codec.Writes.{HasRoom, slot-Wrote, string-Wrote, null-Wrote}

-- A refusal is never a success.
cell_of_refused :
    (c : Conversions) (t : PropertyType) (n : ℕ) (v : Value) (r : WriteResult)
    → cell_of c t n v ≡ refused r
    → r ≢ WriteResult.succeeded
unfolding bool_cell int_cell narrow double_cell cast_cell fixed_cell date_cell time_cell
    date_time_cell
cell_of_refused c PropertyType.t_bool n (Value.bool b) r e s = ground arith
cell_of_refused c t n (Value.bool b) r e s = ground arith
cell_of_refused c PropertyType.t_bool n (Value.int v) r e s = ground arith
cell_of_refused c t n (Value.int v) r e s = ground arith
cell_of_refused c PropertyType.t_bool n (Value.float v) r e s = ground arith
cell_of_refused c t n (Value.float v) r e s = ground arith
cell_of_refused c PropertyType.t_fixed_string n (Value.string v) r e s = ground arith
cell_of_refused c t n (Value.string v) r e s = ground arith
cell_of_refused c PropertyType.t_bool n (Value.date v) r e s = ground arith
cell_of_refused c t n (Value.date v) r e s = ground arith
cell_of_refused c PropertyType.t_bool n (Value.time v) r e s = ground arith
cell_of_refused c t n (Value.time v) r e s = ground arith
cell_of_refused c PropertyType.t_bool n (Value.date_time v m) r e s = ground arith
cell_of_refused c t n (Value.date_time v m) r e s = ground arith
cell_of_refused c t n v r e s = ground arith

undecoded :
    (c : Conversions) (t : PropertyType) (n : ℕ) (v : Value) (bs : List ℕ)
    → decode_slot c t bs ≡ none
    → cell_of c t n v ≢ bytes bs
unfolding decode_slot bool_cell int_cell double_cell date_cell time_cell date_time_cell
undecoded c PropertyType.t_string n (Value.bool b) bs d e = cc
undecoded c PropertyType.t_string n (Value.int v) bs d e = cc
undecoded c PropertyType.t_string n (Value.float v) bs d e = cc
undecoded c PropertyType.t_string n (Value.string v) bs d e = cc
undecoded c PropertyType.t_string n (Value.date v) bs d e = cc
undecoded c PropertyType.t_string n (Value.time v) bs d e = cc
undecoded c PropertyType.t_string n (Value.date_time v m) bs d e = cc
undecoded c PropertyType.t_string n v bs d e = cc
undecoded c PropertyType.t_unknown n (Value.bool b) bs d e = cc
undecoded c PropertyType.t_unknown n (Value.int v) bs d e = cc
undecoded c PropertyType.t_unknown n (Value.float v) bs d e = cc
undecoded c PropertyType.t_unknown n (Value.string v) bs d e = cc
undecoded c PropertyType.t_unknown n (Value.date v) bs d e = cc
undecoded c PropertyType.t_unknown n (Value.time v) bs d e = cc
undecoded c PropertyType.t_unknown n (Value.date_time v m) bs d e = cc
undecoded c PropertyType.t_unknown n v bs d e = cc
undecoded c t n v bs d e = cc

-- A column that has a cell for a value has a value for the bytes.
cell_of_decodes :
    (c : Conversions) (t : PropertyType) (n : ℕ) (v : Value) (bs : List ℕ)
    → cell_of c t n v ≡ bytes bs
    → (u : Value) × (decode_slot c t bs ≡ some u)
cell_of_decodes c t n v bs e = elim (Option-cases (decode_slot c t bs)) [
  | inl none_there ↦ absurd (undecoded c t n v bs none_there e)
  | inr u ↦ u
]

-- The bytes of a text that is written.
abbrev pub text_length : Value → ℕ
text_length (Value.string s) = length s
text_length v = 0

-- What the value's column holds afterwards.
abbrev Written : Conversions → Field → Value → Writer → Writer → Type 0
Written c f v w x = (u : Value) × (read_back c f.type f.size v ≡ some u) × Wrote c f u w x

cell-Written :
    (c : Conversions) (i : ℕ) (f : Field) (v : Value) (w : Writer) (k : Cell)
    → cell_of c f.type f.size v ≡ k
    → IsSized c
    → IsValue f.type v
    → IsWriter w
    → Placed w.schema 0 0 f
    → (write_cell i f k w).1 ≡ WriteResult.succeeded
    → Written c f v w (write_cell i f k w).0
cell-Written c i f v w (bytes bs) e z h ok placed s =
    let (u, d) = cell_of_decodes c f.type f.size v bs e in
    let back : read_back c f.type f.size v ≡ some u =
      sym (cell_of-Means c f.type f.size v z h e).0 ∙ d in
    (u, back, slot-Wrote c i f v u bs w z h ok placed e back)
cell-Written c i f v w (refused r) e z h ok placed s =
    absurd (cell_of_refused c f.type f.size v r e (unfold write_cell in s))

text-Written :
    (c : Conversions) (i : ℕ) (f : Field) (s : List ℕ) (w : Writer) (t : PropertyType)
    → f.type ≡ t
    → IsSized c
    → IsWriter w
    → Placed w.schema 0 0 f
    → HasRoom (length s) w
    → (write_string t i f s w).1 ≡ WriteResult.succeeded
    → Written c f (Value.string s) w (write_string t i f s w).0
unfolding write_string
text-Written c i f s w PropertyType.t_string e z ok placed room r =
    (Value.string s, rw e refl, string-Wrote c i f s w ok placed e room)
text-Written c i f s w PropertyType.t_fixed_string e z ok placed room r =
    cell-Written c i f (Value.string s) w (fixed_cell f.size s) (rw e refl) z tt ok placed r
text-Written c i f s w PropertyType.t_bool e z ok placed room r = cc
text-Written c i f s w t e z ok placed room r = cc

write_value-Written :
    (c : Conversions) (i : ℕ) (f : Field) (v : Value) (w : Writer)
    → IsSized c
    → IsValue f.type v
    → IsWriter w
    → Placed w.schema 0 0 f
    → HasRoom (text_length v) w
    → (write_value c i f v w).1 ≡ WriteResult.succeeded
    → Written c f v w (write_value c i f v w).0
unfolding write_value
write_value-Written c i f Value.null w z h ok placed room r = (
  Value.null,
  refl,
  null-Wrote c i f w ok placed (elim (Bool-cases f.nullable) [
    | inl e ↦ e
    | inr e ↦ absurd (unfold set_null in ground arith)
  ]),
)
write_value-Written c i f (Value.bool b) w z h ok placed room r =
    cell-Written c i f (Value.bool b) w (bool_cell f.type b) refl z h ok placed r
write_value-Written c i f (Value.int x) w z h ok placed room r =
    cell-Written c i f (Value.int x) w (int_cell c 8 f.type x) refl z h ok placed r
write_value-Written c i f (Value.float x) w z h ok placed room r =
    cell-Written c i f (Value.float x) w (double_cell c f.type x) refl z h ok placed r
write_value-Written c i f (Value.string s) w z h ok placed room r =
    text-Written c i f s w f.type refl z ok placed room r
write_value-Written c i f (Value.date d) w z h ok placed room r =
    cell-Written c i f (Value.date d) w (date_cell f.type d) refl z h ok placed r
write_value-Written c i f (Value.time d) w z h ok placed room r =
    cell-Written c i f (Value.time d) w (time_cell f.type d) refl z h ok placed r
write_value-Written c i f (Value.date_time d m) w z h ok placed room r =
    cell-Written c i f (Value.date_time d m) w (date_time_cell f.type d m) refl z h ok placed r
write_value-Written c i f Value.other w z h ok placed room r = cc

-- The column of a written value holds what its type keeps of the value, and the writer is well formed.
abbrev pub IsHeld : Conversions → Field → Value → Writer → Type 0
IsHeld c f v x =
    (u : Value) × (read_back c f.type f.size v ≡ some u) × (held c f x ≡ some u) × IsWriter x

set_value-Wrote :
    (c : Conversions) (i : ℕ) (f : Field) (v : Value) (w x : Writer)
    → IsSized c
    → IsValue f.type v
    → IsWriter w
    → HasRoom (text_length v) w
    → get_elem? w.schema.fields i ≡ some f
    → set_value c i v w ≡ some (x, WriteResult.succeeded)
    → (u : Value) × (read_back c f.type f.size v ≡ some u) × Wrote c f u w x
set_value-Wrote c i f v w x z h ok room at e =
    let done : write_value c i f v w ≡ (x, WriteResult.succeeded) =
      unfold set_value in ground arith in
    let placed = column-Placed w.schema ok.laid i f at in
    let (u, back, wrote) = write_value-Written c i f v w z h ok placed room (ap (λ p. p.1) done) in
    (u, back, subst (Wrote c f u w) (ap (λ p. p.0) done) wrote)

-- Where a value in range, but no date for a DATETIME column, is set in a well-formed writer with room for its text below 2 ^ 31 bytes, and
-- this succeeds: the column holds what its type keeps of the value, and the writer is well formed.
pub set_value-IsHeld :
    (c : Conversions) (i : ℕ) (f : Field) (v : Value) (w x : Writer)
    → IsSized c
    → IsValue f.type v
    → IsWriter w
    → HasRoom (text_length v) w
    → get_elem? w.schema.fields i ≡ some f
    → set_value c i v w ≡ some (x, WriteResult.succeeded)
    → IsHeld c f v x
set_value-IsHeld c i f v w x z h ok room at e =
    let (u, back, r) = set_value-Wrote c i f v w x z h ok room at e in (u, back, r.holds, r.ok)

-- Where a value in range, but no date for a DATETIME column, is set in a well-formed writer with room for its text below 2 ^ 31 bytes, and
-- this succeeds: what another column held, it holds still.
pub set_value-held_ne :
    (c : Conversions) (i j : ℕ) (f g : Field) (v q : Value) (w x : Writer)
    → IsSized c
    → IsValue f.type v
    → IsWriter w
    → HasRoom (text_length v) w
    → get_elem? w.schema.fields i ≡ some f
    → set_value c i v w ≡ some (x, WriteResult.succeeded)
    → j ≢ i
    → get_elem? w.schema.fields j ≡ some g
    → held c g w ≡ some q
    → held c g x ≡ some q
set_value-held_ne c i j f g v q w x z h ok room at e ne atj =
    let (u, back, r) = set_value-Wrote c i f v w x z h ok room at e in
    held_frame f g w x r.keeps (column-Placed w.schema ok.laid j g atj)
      (columns-Apart w.schema ok.laid i j f g at atj (λ p. ne (sym p))) c q

-- A write is a success, or leaves the writer as it was.
abbrev Clean : Writer → Writer × WriteResult → Type 0
Clean w p = (p.1 ≡ WriteResult.succeeded) ⊎ (p.0 ≡ w)

write_cell-Clean : (i : ℕ) (f : Field) (k : Cell) (w : Writer) → Clean w (write_cell i f k w)
unfolding write_cell
write_cell-Clean i f (bytes bs) w = inl refl
write_cell-Clean i f (refused r) w = inr refl

write_string-Clean :
    (i : ℕ) (f : Field) (s : List ℕ) (w : Writer) (t : PropertyType)
    → Clean w (write_string t i f s w)
unfolding write_string write_cell
write_string-Clean i f s w PropertyType.t_string = inl refl
write_string-Clean i f s w PropertyType.t_fixed_string = inl refl
write_string-Clean i f s w t = inr refl

set_null-Clean : (i : ℕ) (f : Field) (w : Writer) → Clean w (set_null i f w)
unfolding set_null
set_null-Clean i f w = elim (Bool-cases f.nullable) [
  | inl e ↦ inl (ground arith)
  | inr e ↦ inr (rw e refl)
]

write_value-Clean :
    (c : Conversions) (i : ℕ) (f : Field) (v : Value) (w : Writer) → Clean w (write_value c i f v w)
unfolding write_value
write_value-Clean c i f Value.null w = set_null-Clean i f w
write_value-Clean c i f (Value.bool b) w = write_cell-Clean i f (bool_cell f.type b) w
write_value-Clean c i f (Value.int x) w = write_cell-Clean i f (int_cell c 8 f.type x) w
write_value-Clean c i f (Value.float x) w = write_cell-Clean i f (double_cell c f.type x) w
write_value-Clean c i f (Value.string s) w = write_string-Clean i f s w f.type
write_value-Clean c i f (Value.date d) w = write_cell-Clean i f (date_cell f.type d) w
write_value-Clean c i f (Value.time d) w = write_cell-Clean i f (time_cell f.type d) w
write_value-Clean c i f (Value.date_time d m) w = write_cell-Clean i f (date_time_cell f.type d m) w
write_value-Clean c i f Value.other w = inr refl

-- Where setting a value ends with another result than success, the writer is as it was.
pub set_value-refused :
    (c : Conversions) (i : ℕ) (v : Value) (w x : Writer) (r : WriteResult)
    → set_value c i v w ≡ some (x, r)
    → r ≢ WriteResult.succeeded
    → x ≡ w
unfolding set_value
set_value-refused c i v w x r e ne = elim (Option-cases (get_elem? w.schema.fields i)) [
  | inl behind ↦ ground arith
  | inr (f, at) ↦
      let p : write_value c i f v w ≡ (x, r) = ground arith in
      elim (write_value-Clean c i f v w) [
        | inl done ↦ absurd (ne (sym (ap (λ q. q.1) p) ∙ done))
        | inr same ↦ sym (ap (λ q. q.0) p) ∙ same
      ]
]
