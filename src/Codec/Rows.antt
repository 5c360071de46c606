-- ===== src/Codec/Rows.antt =====
-- A finished row, opened again by the constructor of RowWriterV2 that takes an encoded row.
use mathlib.Core.Option
use nebula_storage.Prelude.{
  ℕ, ◌+◌, ◌-◌, ◌/◌, ◌%◌, ◌^◌, ◌≤◌, ◌<◌, ◌≡◌, refl, ap, sym, ◌∙◌, true, false, ◌&&◌, List, [], ◌++◌,
  some, arith, length, get_elem?, replicate, ◌==◌, ◌>>=◌, inl, inr, Bool-cases, length-append,
  ==_iff, take-append_left, append-nil,
}
use nebula_storage.Bytes.Words.{le_bytes, of_le, length-le_bytes, of_le-le_bytes}
use nebula_storage.Bytes.Pieces.{piece, read_int, length-piece}
use nebula_storage.Codec.Schema.{Value, PropertyType, Field, Schema}
use nebula_storage.Codec.Cells.{WriteResult, Conversions}
use nebula_storage.Codec.Writer.{Writer, null_bytes, check_null_bit, slot}
use nebula_storage.Codec.Finish.{without_time, finish, opened, reopen}
use nebula_storage.Codec.Reader.{decode_slot}
use nebula_storage.Codec.Bits.{test_bit}
use nebula_storage.Codec.Layout.{Placed, column-Placed}
use nebula_storage.Codec.Held.{fixed_len, IsWriter}
use nebula_storage.Codec.Frame.{held, held_at, held_slot, held_text, map-eq-some}
use nebula_storage.Codec.Joined.{Joined}
use nebula_storage.Codec.Closed.{
  version_bytes-le, version_bytes-lt, AllSet, header_halves, finished_bytes,
}

without_time-append : (b t : List ℕ) → length t ≡ 8 → without_time (b ++ t) ≡ b
without_time-append b t e = ground (
  arith,
  take-append_left (length (b ++ t) - 8) b t (omega (arith, e, length-append b t)),
  length-append b t,
  e,
)

reopen_of :
    (s : Schema) (encoded buf : List ℕ) (first version : ℕ)
    → without_time encoded ≡ buf
    → read_int 0 1 buf ≡ some first
    → read_int 1 (first % 8) buf ≡ some version
    → reopen s encoded ≡ opened s buf first version
unfolding reopen
reopen_of s encoded buf first version e p q =
    ap (λ l. read_int 0 1 l >>= λ x. read_int 1 (x % 8) l >>= opened s l x) e
    ∙ ap (λ o. o >>= λ x. read_int 1 (x % 8) buf >>= opened s buf x) p
    ∙ ap (λ o. o >>= opened s buf first) q

held_text_of :
    (f : Field) (w : Writer) (s : List ℕ) (place : ℕ)
    → read_int (slot f w) 4 w.buf ≡ some place
    → read_int (slot f w + 4) 4 w.buf ≡ some (length s)
    → piece place (length s) w.buf ≡ some s
    → fixed_len w ≤ place
    → 0 < place
    → place < 2 ^ 31
    → held_text f w ≡ some s
held_text_of f w s place p q r fixed pos lt =
    let at : held_at w place (length s) ≡ some s = ground (arith, r) in
    ap (λ o. o >>= λ x. read_int (slot f w + 4) 4 w.buf >>= held_at w x) p
    ∙ ap (λ o. o >>= held_at w place) q
    ∙ at

module _ (w : Writer) (b : List ℕ) (ok : IsWriter w) (joined : Joined w b) where
  -- The writer of a row that is opened again.
  reopened : Writer
  reopened = record {
    schema = w.schema;
    buf = b;
    is_set = replicate (length w.schema.fields) true;
    header_len = w.header_len;
    num_null_bytes = w.num_null_bytes;
    finished = false;
    out_of_space_str = false;
    str_list = [];
  }

  version_read :
      w.schema.version < 2 ^ 63
      → (read_int 0 1 b ≡ some (8 + (w.header_len - 1)))
        × (read_int 1 (w.header_len - 1) b ≡ some w.schema.version)
  unfolding read_int
  version_read lt =
      let h = header_halves w ok b [] joined in
      (
        ap (read_int 0 1) (sym (append-nil b)) ∙ h.0,
        ap (read_int 1 (w.header_len - 1)) (sym (append-nil b))
            ∙ ap (Option.map of_le) h.1
            ∙ ap some (
                of_le-le_bytes (w.header_len - 1) w.schema.version
                  (version_bytes-lt w.schema.version (w.header_len - 1) lt ok.versioned)),
      )

  opened-reopened : opened w.schema b (8 + (w.header_len - 1)) w.schema.version ≡ some reopened
  unfolding opened reopened
  opened-reopened =
      let n = version_bytes-le w.schema.version (w.header_len - 1) ok.versioned in
      let h : (8 + (w.header_len - 1)) % 8 + 1 ≡ w.header_len = omega (arith, n, ok.headed) in
      let k : (8 + (w.header_len - 1)) / 8 % 4 ≡ 1 = omega (arith, n, ok.headed) in
      let v : (w.schema.version == w.schema.version) ≡ true =
        (==_iff w.schema.version w.schema.version).1 refl in
      rw (k, v) (cc (h, ok.flagged))

  reopen-reopened :
      (t : List ℕ)
      → length t ≡ 8
      → w.schema.version < 2 ^ 63
      → reopen w.schema (b ++ t) ≡ some reopened
  reopen-reopened t e lt =
      let n = version_bytes-le w.schema.version (w.header_len - 1) ok.versioned in
      let r = version_read lt in
      reopen_of w.schema (b ++ t) b (8 + (w.header_len - 1)) w.schema.version
        (without_time-append b t e) r.0
        (ap (λ m. read_int 1 m b) {y = w.header_len - 1} (omega (arith, n)) ∙ r.1)
      ∙ opened-reopened

  reopened-IsWriter : IsWriter reopened
  unfolding reopened
  reopened-IsWriter = record {
    laid = ok.laid;
    fits_buf = joined.enough;
    headed = ok.headed;
    flagged = ok.flagged;
    versioned = ok.versioned;
    written = joined.front ∙ ok.written;
    beside = λ q. refl;
    flags_lt = λ k l. rw (joined.flags k l) (ok.flags_lt k l);
  }

  module _ (c : Conversions) (i : ℕ) (f : Field) (room : length b < 2 ^ 31)
      (at : get_elem? w.schema.fields i ≡ some f) where
    Placed-again : Placed w.schema 0 0 f
    Placed-again = column-Placed w.schema ok.laid i f at

    same_null :
        (f.nullable && check_null_bit f.null_flag_pos reopened)
        ≡ (f.nullable && check_null_bit f.null_flag_pos w)
    unfolding check_null_bit reopened
    same_null = elim (Bool-cases f.nullable) [
      | inl yes_null ↦
          let k : f.null_flag_pos / 8 < w.num_null_bytes =
            unfold null_bytes in ground (arith, (Placed-again.3 yes_null).1, ok.flagged) in
          ap (λ x. f.nullable && test_bit (f.null_flag_pos % 8) x)
            (joined.flags (f.null_flag_pos / 8) k)
      | inr no_null ↦ rw no_null refl
    ]

    held_again :
        (ty : PropertyType) (u : Value)
        → f.type ≡ ty
        → (f.nullable && check_null_bit f.null_flag_pos w) ≡ false
        → held_slot c ty f w ≡ some u
        → held_slot c ty f reopened ≡ some u
    unfolding reopened slot
    held_again PropertyType.t_string u e n h =
        let (s, there, q) = map-eq-some (held_text f w) h in
        let x = joined.texts i f s at e n there in
        let inside = (length-piece x.0 (length s) b s x.3).1 in
        ap (Option.map Value.string) (
          held_text_of f reopened s x.0 x.1 x.2 x.3 x.4 (omega (arith, ok.headed, x.4))
            (omega (arith, inside)))
        ∙ ap some q
    held_again PropertyType.t_bool u e n h =
        ap (λ o. o >>= decode_slot c PropertyType.t_bool) (joined.slots i f at (λ x. cc)) ∙ h
    held_again ty u e n h = ap (λ o. o >>= decode_slot c ty) (joined.slots i f at (λ x. cc)) ∙ h

    reopened-held : (u : Value) → held c f w ≡ some u → held c f reopened ≡ some u
    reopened-held u h = elim (Bool-cases (f.nullable && check_null_bit f.null_flag_pos w)) [
      | inl null ↦ rw (same_null, null) (rw null at h)
      | inr there ↦ rw (same_null, there) (held_again f.type u refl there (rw there at h))
    ]

-- Where every column of a well-formed writer is set, the finished row is shorter than 2 ^ 31 bytes and
-- the schema's version is below 2 ^ 63: the row is opened again into a well-formed writer of the same
-- schema that holds each column as the first writer did.
pub finish-reopen :
    (c : Conversions) (now i : ℕ) (w x : Writer) (f : Field) (u : Value)
    → IsWriter w
    → AllSet w
    → w.schema.version < 2 ^ 63
    → length x.buf < 2 ^ 31
    → finish c now w ≡ some (x, WriteResult.succeeded)
    → get_elem? w.schema.fields i ≡ some f
    → held c f w ≡ some u
    → (y : Writer) × (reopen w.schema x.buf ≡ some y)
      × (y.schema ≡ w.schema)
      × IsWriter y
      × (held c f y ≡ some u)
finish-reopen c now i w x f u ok set small room e at h =
    let (b, joined, q) = finished_bytes c now w x ok set room e in
    let short : length b < 2 ^ 31 = omega (arith, ap length q, length-append b (le_bytes 8 now)) in
    (
      reopened w b ok joined,
      ap (reopen w.schema) q
          ∙ reopen-reopened w b ok joined (le_bytes 8 now) (length-le_bytes 8 now) small,
      unfold reopened in refl,
      reopened-IsWriter w b ok joined,
      reopened-held w b ok joined c i f short at u h,
    )
