-- ===== src/Codec/Marks.antt =====
-- What the end of RowWriterV2::write leaves behind.
use mathlib.Core.Path.{ap₂}
use nebula_storage.Prelude.{
  ℕ, ◌+◌, ◌≤◌, ◌<◌, ◌≡◌, refl, ap, sym, ◌∙◌, Bool, true, false, ◌&&◌, List, some, arith, length,
  set, if◌then◌else◌,
}
use nebula_storage.Bytes.Pieces.{piece}
use nebula_storage.Codec.Schema.{Value, Field}
use nebula_storage.Codec.Buffer.{put, piece-put_self}
use nebula_storage.Codec.Bits.{clear_bit}
use nebula_storage.Codec.Cells.{Conversions, bytes}
use nebula_storage.Codec.Writer.{Writer, clear_null_bit, check_null_bit, slot, mark_set, write_cell}
use nebula_storage.Codec.Layout.{Placed}
use nebula_storage.Codec.Held.{
  IsWriter, Keeps, put-slot-Keeps, put-slot-IsWriter, check-with_mask_self, with_mask-IsWriter,
  with_mask-Keeps, clear_bit-Masks, piece-with_mask,
}
use nebula_storage.Codec.Frame.{held, Keeps-trans}

-- A column is marked as set: its flag is cleared, and slots and texts stay.
pub record Marked (f : Field) (w v : Writer) : Type 0 where
  pub ok : IsWriter v
  pub keeps : Keeps f w v
  pub cleared : (f.nullable && check_null_bit f.null_flag_pos v) ≡ false
  pub pieces : (o n : ℕ) → w.header_len + w.num_null_bytes ≤ o → piece o n v.buf ≡ piece o n w.buf
  pub same_list : v.str_list ≡ w.str_list

pub is_set-IsWriter : (w : Writer) (l : List Bool) → IsWriter w → IsWriter (record w { is_set = l })
is_set-IsWriter w l ok = record {
  laid = ok.laid;
  fits_buf = ok.fits_buf;
  headed = ok.headed;
  flagged = ok.flagged;
  versioned = ok.versioned;
  written = ok.written;
  beside = ok.beside;
  flags_lt = ok.flags_lt;
}

pub is_set-Keeps : (f : Field) (w : Writer) (l : List Bool) → Keeps f w (record w { is_set = l })
unfolding check_null_bit
is_set-Keeps f w l = record {
  same_schema = refl;
  same_header = refl;
  same_nulls = refl;
  front = λ o n h. refl;
  slots = λ o n h k a. refl;
  tail = λ o n p h e. e;
  flags = λ pos h a. refl;
  texts = λ k s e. e;
}

-- The writer that mark_set gives, over the test of the column.
abbrev marked : Bool → ℕ → Field → Writer → Writer
marked b i f w =
    let cleared = if b then clear_null_bit f.null_flag_pos w else w in
    record cleared { is_set = set cleared.is_set i true }

marked-Marked :
    (b : Bool) (i : ℕ) (f : Field) (w : Writer)
    → f.nullable ≡ b
    → IsWriter w
    → Placed w.schema 0 0 f
    → Marked f w (marked b i f w)
unfolding clear_null_bit
marked-Marked true i f w e ok placed =
    let fp = f.null_flag_pos in
    let h : fp < w.schema.num_nullables = (placed.3 e).1 in
    let v = clear_null_bit fp w in
    let v_ok : IsWriter v = with_mask-IsWriter w ok clear_bit false clear_bit-Masks fp h in
    record {
      ok = is_set-IsWriter v (set w.is_set i true) v_ok;
      keeps =
          Keeps-trans f (with_mask-Keeps w ok clear_bit false clear_bit-Masks fp h f e refl)
            (is_set-Keeps f v (set w.is_set i true));
      cleared =
          ap₂ ◌&&◌ e (
            unfold check_null_bit in
            check-with_mask_self w ok clear_bit false clear_bit-Masks fp h);
      pieces = λ o n l. piece-with_mask w ok clear_bit false clear_bit-Masks fp h o n l;
      same_list = refl;
    }
marked-Marked false i f w e ok placed = record {
  ok = is_set-IsWriter w (set w.is_set i true) ok;
  keeps = is_set-Keeps f w (set w.is_set i true);
  cleared = ap (λ b. b && check_null_bit f.null_flag_pos (marked false i f w)) e;
  pieces = λ o n l. refl;
  same_list = refl;
}

pub mark_set-Marked :
    (i : ℕ) (f : Field) (w : Writer)
    → IsWriter w
    → Placed w.schema 0 0 f
    → Marked f w (mark_set i f w)
unfolding mark_set
mark_set-Marked i f w ok placed = marked-Marked f.nullable i f w refl ok placed

-- What a successful write leaves: the column holds `u`, and all others what they held.
pub record Wrote (c : Conversions) (f : Field) (u : Value) (w v : Writer) : Type 0 where
  pub ok : IsWriter v
  pub keeps : Keeps f w v
  pub holds : held c f v ≡ some u

pub write_cell-Wrote :
    (c : Conversions) (i : ℕ) (f : Field) (bs : List ℕ) (w : Writer)
    → IsWriter w
    → Placed w.schema 0 0 f
    → length bs ≡ f.size
    → let v = (write_cell i f (bytes bs) w).0 in
      IsWriter v
      × Keeps f w v
      × ((f.nullable && check_null_bit f.null_flag_pos v) ≡ false)
      × (piece (slot f v) f.size v.buf ≡ some bs)
      × (v.str_list ≡ w.str_list)
unfolding write_cell
write_cell-Wrote c i f bs w ok placed size =
    let x : Writer = record w { buf = put (slot f w) bs w.buf } in
    let m : Marked f x (mark_set i f x) =
      mark_set-Marked i f x (put-slot-IsWriter w ok f placed bs) placed in
    let k : Keeps f w (mark_set i f x) =
      Keeps-trans f (put-slot-Keeps w ok f placed bs size) m.keeps in
    let at : slot f (mark_set i f x) ≡ slot f w =
      unfold slot in omega (arith, k.same_header, k.same_nulls) in
    let own : piece (slot f w) f.size x.buf ≡ some bs =
      ap (λ n. piece (slot f w) n x.buf) (sym size)
      ∙ piece-put_self (slot f w) bs w.buf (unfold slot in omega (arith, size, ok.fits_buf)) in
    (
      m.ok,
      k,
      m.cleared,
      ap (λ o. piece o f.size (mark_set i f x).buf) at
          ∙ m.pieces (slot f w) f.size (unfold slot in omega arith)
          ∙ own,
      m.same_list,
    )
