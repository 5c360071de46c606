-- ===== src/Codec/Spill.antt =====
-- RowWriterV2::write(Date) into a DATETIME column: the memset behind the date reaches into the next
-- column.
use nebula_storage.Prelude.{
  ℕ, ◌+◌, ◌≤◌, ◌≡◌, refl, ap, sym, ◌∙◌, List, ◌++◌, some, arith, length, get_elem?, replicate,
  length-append,
}
use nebula_storage.Bytes.Words.{le_bytes}
use nebula_storage.Bytes.Pieces.{piece, piece_halves}
use nebula_storage.Codec.Schema.{Date, Value, PropertyType, Field, column_size}
use nebula_storage.Codec.Buffer.{put, piece-put_self}
use nebula_storage.Codec.Cells.{WriteResult, Conversions, bytes, date_bytes, date_cell}
use nebula_storage.Codec.Writer.{Writer, slot, write_cell, write_value, set_value}
use nebula_storage.Codec.Held.{IsWriter, put-slot-IsWriter}
use nebula_storage.Codec.Layout.{column-Placed}
use nebula_storage.Codec.Marks.{Marked, mark_set-Marked}

-- What is written: the slot's bytes, and four more.
abbrev slot_bytes : Date → List ℕ
slot_bytes d = date_bytes d ++ replicate 7 0

date_time_size : (n : ℕ) → column_size PropertyType.t_date_time n ≡ some n → n ≡ 11
unfolding column_size
date_time_size n e = cc

date_cell_bytes :
    (t : PropertyType) (d : Date)
    → t ≡ PropertyType.t_date_time
    → date_cell t d ≡ bytes (slot_bytes d ++ replicate 4 0)
unfolding date_cell le_bytes
date_cell_bytes t d e = ap (λ y. date_cell y d) e

length-slot_bytes : (d : Date) → length (slot_bytes d) ≡ 11
unfolding le_bytes
length-slot_bytes d = refl

spilled :
    (i : ℕ) (f : Field) (w : Writer) (a b : List ℕ)
    → IsWriter w
    → get_elem? w.schema.fields i ≡ some f
    → slot f w + length (a ++ b) ≤ length w.buf
    → let x = (write_cell i f (bytes (a ++ b)) w).0 in
      (piece (slot f w) (length a) x.buf ≡ some a)
      × (piece (slot f w + length a) (length b) x.buf ≡ some b)
unfolding write_cell
spilled i f w a b ok at room =
    let placed = column-Placed w.schema ok.laid i f at in
    let v : Writer = record w { buf = put (slot f w) (a ++ b) w.buf } in
    let m : Marked f v _ =
      mark_set-Marked i f v (put-slot-IsWriter w ok f placed (a ++ b)) placed in
    piece_halves (slot f w) (length (a ++ b)) _ a b (
      m.pieces (slot f w) (length (a ++ b)) (unfold slot in omega arith)
      ∙ piece-put_self (slot f w) (a ++ b) w.buf room)

-- Where a date is set in a DATETIME column, with fifteen bytes from the column's place on in the row:
-- the column holds the date at midnight, and the four bytes behind the column are zero.
pub set_value-date_spill :
    (c : Conversions) (i : ℕ) (f : Field) (d : Date) (w x : Writer)
    → IsWriter w
    → get_elem? w.schema.fields i ≡ some f
    → f.type ≡ PropertyType.t_date_time
    → slot f w + 15 ≤ length w.buf
    → set_value c i (Value.date d) w ≡ some (x, WriteResult.succeeded)
    → (piece (slot f w) f.size x.buf ≡ some (date_bytes d ++ replicate 7 0))
      × (piece (slot f w + f.size) 4 x.buf ≡ some (replicate 4 0))
set_value-date_spill c i f d w x ok at is_dt room e =
    let done : write_value c i f (Value.date d) w ≡ (x, WriteResult.succeeded) =
      unfold set_value in ground arith in
    let cell : date_cell f.type d ≡ bytes (slot_bytes d ++ replicate 4 0) =
      date_cell_bytes f.type d is_dt in
    let same : (write_cell i f (bytes (slot_bytes d ++ replicate 4 0)) w).0 ≡ x =
      ap (λ k. (write_cell i f k w).0) (sym cell) ∙ unfold write_value in ap (λ p. p.0) done in
    let size : f.size ≡ length (slot_bytes d) =
      date_time_size f.size
        (ap (λ t. column_size t f.size) (sym is_dt) ∙ (column-Placed w.schema ok.laid i f at).0)
      ∙ sym (length-slot_bytes d) in
    let (own, next) =
      spilled i f w (slot_bytes d) (replicate 4 0) ok at
        (omega (arith, room, length-append (slot_bytes d) (replicate 4 0), length-slot_bytes d)) in
    (
      ap (λ n. piece (slot f w) n x.buf) size
          ∙ ap (λ y. piece (slot f w) (length (slot_bytes d)) y.buf) (sym same)
          ∙ own,
      ap (λ n. piece (slot f w + n) 4 x.buf) size
          ∙ ap (λ y. piece (slot f w + length (slot_bytes d)) 4 y.buf) (sym same)
          ∙ next,
    )
