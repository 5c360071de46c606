-- ===== src/Codec/Writes.antt =====
-- What the overloads of RowWriterV2::write, setNull and setValue leave behind.
use mathlib.Core.Path.{ap₂}
use nebula_storage.Prelude.{
  ℕ, ◌+◌, ◌^◌, ◌≤◌, ◌<◌, ◌≡◌, refl, ap, sym, ◌∙◌, subst, inl, inr, Bool, true, false, ◌&&◌, ◌||◌,
  List, [], ◌∷◌, ◌++◌, some, arith, length, get_or, set, if◌then◌else◌, Bool-cases, length-append,
  append-nil,
}
use nebula_storage.Bytes.Words.{le_bytes, length-le_bytes, of_le-le_bytes}
use nebula_storage.Bytes.Pieces.{piece, read_int, piece_halves, piece_at}
use nebula_storage.Codec.Schema.{Value, PropertyType, Field, column_size}
use nebula_storage.Codec.Buffer.{get_elem?-append, get_elem?-append_last}
use nebula_storage.Codec.Bits.{set_bit}
use nebula_storage.Codec.Cells.{WriteResult, Conversions, IsSized, bytes}
use nebula_storage.Codec.Writer.{
  Writer, set_null_bit, check_null_bit, slot, write_cell, place_string, write_string, set_null,
}
use nebula_storage.Codec.Reader.{decode_slot}
use nebula_storage.Codec.IntLaws.{IsValue, read_back, cell_of}
use nebula_storage.Codec.CellLaws.{cell_of-Means}
use nebula_storage.Codec.Layout.{Placed}
use nebula_storage.Codec.Held.{
  fixed_len, IsWriter, Keeps, grow-Keeps, grow-IsWriter, check-with_mask_self, with_mask-IsWriter,
  with_mask-Keeps, set_bit-Masks,
}
use nebula_storage.Codec.Frame.{held_at, held_slot, Keeps-trans, same_texts}
use nebula_storage.Codec.Marks.{is_set-IsWriter, is_set-Keeps, Wrote, write_cell-Wrote}

held_slot_of :
    (c : Conversions) (t : PropertyType) (f : Field) (u : Value) (bs : List ℕ) (v : Writer)
    → decode_slot c t bs ≡ some u
    → piece (slot f v) f.size v.buf ≡ some bs
    → held_slot c t f v ≡ some u
unfolding decode_slot
held_slot_of c PropertyType.t_string f u bs v e p = cc
held_slot_of c PropertyType.t_bool f u bs v e p = rw p e
held_slot_of c t f u bs v e p = rw p e

-- A value that lies in its slot.
pub slot-Wrote :
    (c : Conversions) (i : ℕ) (f : Field) (v : Value) (u : Value) (bs : List ℕ) (w : Writer)
    → IsSized c
    → IsValue f.type v
    → IsWriter w
    → Placed w.schema 0 0 f
    → cell_of c f.type f.size v ≡ bytes bs
    → read_back c f.type f.size v ≡ some u
    → Wrote c f u w (write_cell i f (bytes bs) w).0
slot-Wrote c i f v u bs w z h ok placed e back =
    let m = cell_of-Means c f.type f.size v z h e in
    let r = write_cell-Wrote c i f bs w ok placed (m.1 placed.0) in
    record {
      ok = r.0;
      keeps = r.1;
      holds =
          rw r.2 (held_slot_of c f.type f u bs (write_cell i f (bytes bs) w).0 (m.0 ∙ back) r.3);
    }

list-Keeps :
    (f : Field) (w : Writer) (s : List ℕ)
    → Keeps f w (record w { out_of_space_str = true; str_list = w.str_list ++ s ∷ [] })
unfolding check_null_bit
list-Keeps f w s = record {
  same_schema = refl;
  same_header = refl;
  same_nulls = refl;
  front = λ o n h. refl;
  slots = λ o n h k a. refl;
  tail = λ o n p h e. e;
  flags = λ pos h a. refl;
  texts = λ k t e. get_elem?-append w.str_list (s ∷ []) k e;
}

list-IsWriter :
    (w : Writer) (s : List ℕ)
    → IsWriter w
    → IsWriter (record w { out_of_space_str = true; str_list = w.str_list ++ s ∷ [] })
list-IsWriter w s ok = record {
  laid = ok.laid;
  fits_buf = ok.fits_buf;
  headed = ok.headed;
  flagged = ok.flagged;
  versioned = ok.versioned;
  written = ok.written;
  beside = λ e. cc;
  flags_lt = ok.flags_lt;
}

-- The place and the length are read from the slot of a string.
pub read_place :
    (old len : ℕ) (off n : ℕ) (buf : List ℕ)
    → old < 256 ^ 4
    → len < 256 ^ 4
    → piece off n buf ≡ some (le_bytes 4 old ++ le_bytes 4 len)
    → (read_int off 4 buf ≡ some old) × (read_int (off + 4) 4 buf ≡ some len)
unfolding read_int
read_place old len off n buf ho hl e =
    let (p, q) = piece_halves off n buf (le_bytes 4 old) (le_bytes 4 len) e in
    (
      cc (p, length-le_bytes 4 old, of_le-le_bytes 4 old ho),
      cc (q, length-le_bytes 4 old, length-le_bytes 4 len, of_le-le_bytes 4 len hl),
    )

-- A string is placed: its text is found where `old` and `len` say.
record IsPlacedText (f : Field) (s : List ℕ) (w v : Writer) (place : List ℕ) : Type 0 where
  ok : IsWriter v
  keeps : Keeps f w v
  old : ℕ
  len : ℕ
  old_lt : old < 256 ^ 4
  len_lt : len < 256 ^ 4
  is_place : place ≡ le_bytes 4 old ++ le_bytes 4 len
  found : held_at v old len ≡ some s

-- The row and the list of texts stay below the bound of an int32_t.
abbrev pub HasRoom : ℕ → Writer → Type 0
HasRoom n w = (length w.buf + n < 2 ^ 31) × (length w.str_list < 2 ^ 31)

found_inside :
    (w : Writer) (s : List ℕ)
    → 0 < length w.buf
    → length w.buf < 2 ^ 31
    → fixed_len w ≤ length w.buf
    → held_at (record w { buf = w.buf ++ s }) (length w.buf) (length s) ≡ some s
found_inside w s pos lt fixed =
    let e : piece (length w.buf) (length s) (w.buf ++ s) ≡ some s =
      piece_at (length w.buf) (length s) (w.buf ++ s) w.buf s []
        (ap (◌++◌ w.buf) (sym (append-nil s))) refl refl in
    ground (arith, e)

place_string-IsPlacedText :
    (i : ℕ) (f : Field) (s : List ℕ) (w : Writer)
    → IsWriter w
    → Placed w.schema 0 0 f
    → HasRoom (length s) w
    → IsPlacedText f s w (place_string i s w).0 (place_string i s w).1
unfolding place_string
place_string-IsPlacedText i f s w ok placed room =
    elim (Bool-cases (w.out_of_space_str || get_or w.is_set i false)) [
      | inl beside ↦ rw beside record {
        ok = list-IsWriter w s ok;
        keeps = list-Keeps f w s;
        old = 0;
        len = length w.str_list;
        old_lt = omega arith;
        len_lt = omega (arith, room);
        is_place = refl;
        found = get_elem?-append_last w.str_list s;
      }
      | inr inside ↦ rw inside record {
        ok = grow-IsWriter w ok f placed s;
        keeps = grow-Keeps w ok f placed s;
        old = length w.buf;
        len = length s;
        old_lt = omega (arith, room);
        len_lt = omega (arith, room);
        is_place = refl;
        found =
            found_inside w s (omega (arith, ok.headed, ok.fits_buf)) (omega (arith, room))
              ok.fits_buf;
      }
    ]

string_size :
    (t : PropertyType) (n : ℕ) → t ≡ PropertyType.t_string → column_size t n ≡ some n → 8 ≡ n
unfolding column_size
string_size t n e h = ground arith

pub string-Wrote :
    (c : Conversions) (i : ℕ) (f : Field) (s : List ℕ) (w : Writer)
    → IsWriter w
    → Placed w.schema 0 0 f
    → f.type ≡ PropertyType.t_string
    → HasRoom (length s) w
    → Wrote c f (Value.string s) w (write_string PropertyType.t_string i f s w).0
unfolding write_string column_size
string-Wrote c i f s w ok placed t room =
    let x = (place_string i s w).0 in
    let place = (place_string i s w).1 in
    let p : IsPlacedText f s w x place = place_string-IsPlacedText i f s w ok placed room in
    let size : 8 ≡ f.size = string_size f.type f.size t placed.0 in
    let long : length place ≡ f.size = rw p.is_place (
      omega (
        arith,
        size,
        length-append (le_bytes 4 p.old) (le_bytes 4 p.len),
        length-le_bytes 4 p.old,
        length-le_bytes 4 p.len,
      )) in
    let r =
      write_cell-Wrote c i f place x p.ok
        (subst (λ q. Placed q 0 0 f) (sym p.keeps.same_schema) placed) long in
    let v = (write_cell i f (bytes place) x).0 in
    let (a, b) =
      read_place p.old p.len (slot f v) f.size v.buf p.old_lt p.len_lt (r.3 ∙ ap some p.is_place) in
    let found : held_at v p.old p.len ≡ some s = same_texts f x v r.1 p.old p.len s p.found in
    record { ok = r.0; keeps = Keeps-trans f p.keeps r.1; holds = rw (r.2, t, a, b, found) refl }

abbrev chosen : Bool → Writer → Writer → Writer × WriteResult
chosen b v w = if b then (v, WriteResult.succeeded) else (w, WriteResult.not_nullable)

pub null-Wrote :
    (c : Conversions) (i : ℕ) (f : Field) (w : Writer)
    → IsWriter w
    → Placed w.schema 0 0 f
    → f.nullable ≡ true
    → Wrote c f Value.null w (set_null i f w).0
unfolding set_null set_null_bit
null-Wrote c i f w ok placed e =
    let fp = f.null_flag_pos in
    let h : fp < w.schema.num_nullables = (placed.3 e).1 in
    let v = set_null_bit fp w in
    let v_ok : IsWriter v = with_mask-IsWriter w ok set_bit true set_bit-Masks fp h in
    let flag : check_null_bit fp v ≡ true =
      check-with_mask_self w ok set_bit true set_bit-Masks fp h in
    let x : Writer = record v { is_set = set v.is_set i true } in
    let both : (f.nullable && check_null_bit fp x) ≡ true =
      ap₂ ◌&&◌ e (unfold check_null_bit in flag) in
    let n : Wrote c f Value.null w x = record {
      ok = is_set-IsWriter v (set w.is_set i true) v_ok;
      keeps =
          Keeps-trans f (with_mask-Keeps w ok set_bit true set_bit-Masks fp h f e refl)
            (is_set-Keeps f v (set w.is_set i true));
      holds = rw both refl;
    } in
    subst (λ b. Wrote c f Value.null w (chosen b x w).0) (sym e) n
