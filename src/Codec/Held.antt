-- ===== src/Codec/Held.antt =====
-- What a row that is being written holds: the invariant of RowWriterV2, and what each of its steps
-- leaves as it was.
use nebula_storage.Prelude.{
  ℕ, ◌+◌, ◌-◌, ◌/◌, ◌%◌, ◌≤◌, ◌<◌, ◌≡◌, ◌≢◌, refl, ap, sym, ◌∙◌, ◌⊎◌, inl, inr, Bool, true, false,
  List, [], ◌∷◌, ◌++◌, some, arith, length, get_elem?, get_or, if◌then◌else◌, ◌==◌, Bool-cases,
  ==_iff, length-append,
}
use nebula_storage.Bytes.Pieces.{piece}
use nebula_storage.Codec.Schema.{Field, IsLaidOut}
use nebula_storage.Codec.Buffer.{
  put, length-put, piece-put_ne, piece-append_right, piece-append_in, get_or-put_ne,
  get_or-put_self, get_or-append,
}
use nebula_storage.Codec.Bits.{
  set_bit, clear_bit, test_bit, test_bit-set_bit, test_bit-clear_bit, set_bit_lt, clear_bit_lt,
}
use nebula_storage.Codec.Layout.{Placed}
use nebula_storage.Codec.Writer.{Writer, version_bytes, header, null_bytes, check_null_bit, slot}

-- The bytes of the header, the flags and the slots.
abbrev pub fixed_len : Writer → ℕ
fixed_len w = w.header_len + w.num_null_bytes + w.schema.row_size

pub record IsWriter (w : Writer) : Type 0 where
  pub laid : IsLaidOut w.schema
  pub fits_buf : fixed_len w ≤ length w.buf
  pub headed : 0 < w.header_len
  pub flagged : w.num_null_bytes ≡ null_bytes w.schema.num_nullables
  pub versioned : version_bytes w.schema.version ≡ some (w.header_len - 1)
  pub written : piece 0 w.header_len w.buf ≡ some (header (w.header_len - 1) w.schema.version)
  pub beside : w.out_of_space_str ≡ false → w.str_list ≡ []
  pub flags_lt : (k : ℕ) → k < w.num_null_bytes → get_or w.buf (w.header_len + k) 0 < 256

-- From `w` to `v` only the slot and the flag of the column `f` change; texts are only added.
pub record Keeps (f : Field) (w v : Writer) : Type 0 where
  pub same_schema : v.schema ≡ w.schema
  pub same_header : v.header_len ≡ w.header_len
  pub same_nulls : v.num_null_bytes ≡ w.num_null_bytes
  pub front : (o n : ℕ) → o + n ≤ w.header_len → piece o n v.buf ≡ piece o n w.buf
  pub slots :
      (o n : ℕ)
      → w.header_len + w.num_null_bytes ≤ o
      → o + n ≤ fixed_len w
      → (o + n ≤ slot f w) ⊎ (slot f w + f.size ≤ o)
      → piece o n v.buf ≡ piece o n w.buf
  pub tail :
      (o n : ℕ) (p : List ℕ) → fixed_len w ≤ o → piece o n w.buf ≡ some p → piece o n v.buf ≡ some p
  pub flags :
      (pos : ℕ)
      → pos < w.schema.num_nullables
      → (f.nullable ≡ true → pos ≢ f.null_flag_pos)
      → check_null_bit pos v ≡ check_null_bit pos w
  pub texts :
      (k : ℕ) (s : List ℕ) → get_elem? w.str_list k ≡ some s → get_elem? v.str_list k ≡ some s

null_byte : (pos n : ℕ) → pos < n → pos / 8 < null_bytes n
unfolding null_bytes
null_byte pos n h = ground arith

module _ (w : Writer) (ok : IsWriter w) (f : Field) (placed : Placed w.schema 0 0 f) where
  -- The slot of the column.
  pub put-slot-Keeps :
      (bs : List ℕ) → length bs ≡ f.size → Keeps f w (record w { buf = put (slot f w) bs w.buf })
  unfolding slot check_null_bit
  put-slot-Keeps bs e = record {
    same_schema = refl;
    same_header = refl;
    same_nulls = refl;
    front = λ o n h. piece-put_ne o n (slot f w) bs w.buf (omega arith);
    slots = λ o n h l a. piece-put_ne o n (slot f w) bs w.buf (omega arith);
    tail = λ o n p h q. piece-put_ne o n (slot f w) bs w.buf (omega arith) ∙ q;
    flags = λ pos h a. ap (test_bit (pos % 8)) (
        get_or-put_ne (slot f w) bs w.buf (w.header_len + pos / 8)
          (inl (omega (arith, null_byte pos w.schema.num_nullables h, ok.flagged))));
    texts = λ k s q. q;
  }

  pub put-slot-IsWriter : (bs : List ℕ) → IsWriter (record w { buf = put (slot f w) bs w.buf })
  unfolding slot
  put-slot-IsWriter bs = record {
    laid = ok.laid;
    fits_buf = omega (arith, length-put (slot f w) bs w.buf, ok.fits_buf);
    headed = ok.headed;
    flagged = ok.flagged;
    versioned = ok.versioned;
    written = piece-put_ne 0 w.header_len (slot f w) bs w.buf (inl (omega arith)) ∙ ok.written;
    beside = ok.beside;
    flags_lt = λ k h.
        rw (get_or-put_ne (slot f w) bs w.buf (w.header_len + k) (inl (omega arith)))
          (ok.flags_lt k h);
  }

  pub grow-Keeps : (s : List ℕ) → Keeps f w (record w { buf = w.buf ++ s })
  unfolding slot check_null_bit
  grow-Keeps s = record {
    same_schema = refl;
    same_header = refl;
    same_nulls = refl;
    front = λ o n h. piece-append_in o n w.buf s (omega (arith, ok.fits_buf));
    slots = λ o n h l a. piece-append_in o n w.buf s (omega (arith, ok.fits_buf));
    tail = λ o n p h q. piece-append_right o n w.buf s p q;
    flags = λ pos h a. ap (test_bit (pos % 8)) (
        get_or-append w.buf s (w.header_len + pos / 8)
          (omega (arith, null_byte pos w.schema.num_nullables h, ok.flagged, ok.fits_buf)));
    texts = λ k s q. q;
  }

  pub grow-IsWriter : (s : List ℕ) → IsWriter (record w { buf = w.buf ++ s })
  grow-IsWriter s = record {
    laid = ok.laid;
    fits_buf = omega (arith, length-append w.buf s, ok.fits_buf);
    headed = ok.headed;
    flagged = ok.flagged;
    versioned = ok.versioned;
    written = piece-append_in 0 w.header_len w.buf s (omega (arith, ok.fits_buf)) ∙ ok.written;
    beside = ok.beside;
    flags_lt = λ k h.
        rw (get_or-append w.buf s (w.header_len + k) (omega (arith, ok.fits_buf)))
          (ok.flags_lt k h);
  }

-- A mask that gives the bit `k` the value `b` and leaves the others.
abbrev pub Masks : (ℕ → ℕ → ℕ) → Bool → Type 0
Masks m b =
    ((k x : ℕ) → k < 8 → x < 256 → m k x < 256)
    × ((k j x : ℕ)
        → k < 8
        → j < 8
        → x < 256
        → test_bit j (m k x) ≡ (if j == k then b else test_bit j x))

pub set_bit-Masks : Masks set_bit true
set_bit-Masks = (set_bit_lt, test_bit-set_bit)

pub clear_bit-Masks : Masks clear_bit false
clear_bit-Masks = (clear_bit_lt, test_bit-clear_bit)

-- setNullBit and clearNullBit, over the mask.
abbrev pub with_mask : (ℕ → ℕ → ℕ) → ℕ → Writer → Writer
with_mask m pos w =
    let off = w.header_len + pos / 8 in
    record w { buf = put off (m (pos % 8) (get_or w.buf off 0) ∷ []) w.buf }

module _ (w : Writer) (ok : IsWriter w) (m : ℕ → ℕ → ℕ) (b : Bool) (masks : Masks m b) (fp : ℕ)
    (in_range : fp < w.schema.num_nullables) where
  flag_byte : w.header_len + fp / 8 < w.header_len + w.num_null_bytes
  flag_byte = omega (arith, null_byte fp w.schema.num_nullables in_range, ok.flagged)

  pub check-with_mask_self : check_null_bit fp (with_mask m fp w) ≡ b
  unfolding check_null_bit
  check-with_mask_self =
      ap (test_bit (fp % 8))
        (get_or-put_self (w.header_len + fp / 8) _ w.buf (omega (arith, flag_byte, ok.fits_buf)))
      ∙ masks.1 (fp % 8) (fp % 8) (get_or w.buf (w.header_len + fp / 8) 0) (omega arith)
          (omega arith) (ok.flags_lt (fp / 8) (omega (arith, flag_byte)))
      ∙ ground arith

  check-with_mask_ne :
      (pos : ℕ) → pos ≢ fp → check_null_bit pos (with_mask m fp w) ≡ check_null_bit pos w
  unfolding check_null_bit
  check-with_mask_ne pos ne = elim (Bool-cases (pos / 8 == fp / 8)) [
    | inl same ↦
        let e : pos / 8 ≡ fp / 8 = (==_iff (pos / 8) (fp / 8)).0 same in
        rw e (
          ap (test_bit (pos % 8)) (
            get_or-put_self (w.header_len + fp / 8) _ w.buf (omega (arith, flag_byte, ok.fits_buf)))
          ∙ masks.1 (fp % 8) (pos % 8) (get_or w.buf (w.header_len + fp / 8) 0) (omega arith)
              (omega arith) (ok.flags_lt (fp / 8) (omega (arith, flag_byte)))
          ∙ ground arith)
    | inr other ↦
        ap (test_bit (pos % 8))
          (get_or-put_ne (w.header_len + fp / 8) _ w.buf (w.header_len + pos / 8) (ground arith))
  ]

  masked_lt :
      (k : ℕ) → k < w.num_null_bytes → get_or (with_mask m fp w).buf (w.header_len + k) 0 < 256
  masked_lt k h =
      let x = get_or w.buf (w.header_len + fp / 8) 0 in
      let lt : m (fp % 8) x < 256 =
        masks.0 (fp % 8) x (omega arith) (ok.flags_lt (fp / 8) (omega (arith, flag_byte))) in
      elim (Bool-cases (k == fp / 8)) [
        | inl here ↦
            let e : k ≡ fp / 8 = (==_iff k (fp / 8)).0 here in
            rw e (
              rw
                (get_or-put_self (w.header_len + fp / 8) (m (fp % 8) x) w.buf
                  (omega (arith, flag_byte, ok.fits_buf)))
                lt)
        | inr there ↦
            let ne : (w.header_len + k < w.header_len + fp / 8)
                ⊎ (w.header_len + fp / 8 + 1 ≤ w.header_len + k) =
              ground arith in
            rw
              (get_or-put_ne (w.header_len + fp / 8) (m (fp % 8) x ∷ []) w.buf (w.header_len + k)
                ne)
              (ok.flags_lt k h)
      ]

  pub with_mask-IsWriter : IsWriter (with_mask m fp w)
  with_mask-IsWriter = record {
    laid = ok.laid;
    fits_buf = omega (
      arith,
      length-put (w.header_len + fp / 8) (m (fp % 8) (get_or w.buf (w.header_len + fp / 8) 0) ∷ [])
          w.buf,
      ok.fits_buf,
    );
    headed = ok.headed;
    flagged = ok.flagged;
    versioned = ok.versioned;
    written =
        piece-put_ne 0 w.header_len (w.header_len + fp / 8) _ w.buf (inl (omega arith))
        ∙ ok.written;
    beside = ok.beside;
    flags_lt = masked_lt;
  }

  pub with_mask-Keeps :
      (f : Field) → f.nullable ≡ true → f.null_flag_pos ≡ fp → Keeps f w (with_mask m fp w)
  with_mask-Keeps f nullable e = record {
    same_schema = refl;
    same_header = refl;
    same_nulls = refl;
    front = λ o n h. piece-put_ne o n (w.header_len + fp / 8) _ w.buf (inl (omega arith));
    slots = λ o n h l a.
        piece-put_ne o n (w.header_len + fp / 8) _ w.buf (inr (omega (arith, flag_byte)));
    tail = λ o n p h q.
        piece-put_ne o n (w.header_len + fp / 8) _ w.buf (inr (omega (arith, flag_byte))) ∙ q;
    flags = λ pos h a. check-with_mask_ne pos (λ q. a nullable (q ∙ sym e));
    texts = λ k s q. q;
  }

  pub piece-with_mask :
      (o n : ℕ)
      → w.header_len + w.num_null_bytes ≤ o
      → piece o n (with_mask m fp w).buf ≡ piece o n w.buf
  piece-with_mask o n h =
      piece-put_ne o n (w.header_len + fp / 8) _ w.buf (inr (omega (arith, flag_byte)))
