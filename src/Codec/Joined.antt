-- ===== src/Codec/Joined.antt =====
-- From the writer's buffer to the bytes that RowReaderV2 reads: a new row, and what a finished one must
-- have kept of the buffer for each column to be read as it was held.
use mathlib.Core.Option
use native.Mathlib.Nat.{suc-add}
use nebula_storage.Prelude.{
  ℕ, zero, suc, ◌+◌, ◌-◌, ◌/◌, ◌%◌, ◌≤◌, ◌<◌, ◌≡◌, ◌≢◌, refl, ap, sym, ◌∙◌, subst, false, ◌&&◌,
  List, [], ◌∷◌, ◌++◌, some, arith, length, get_elem?, get_or, replicate, ◌>>=◌, >>=-eq-some, inl,
  inr, Bool-cases, Option-cases, length-append, length-replicate,
}
use nebula_storage.Bytes.Words.{length-le_bytes}
use nebula_storage.Bytes.Pieces.{piece, read_int, piece_at, length-piece}
use nebula_storage.Codec.Schema.{Value, PropertyType, Field, Schema, IsLaidOut}
use nebula_storage.Codec.Buffer.{piece-append_right, get_or-append}
use nebula_storage.Codec.Bits.{test_bit}
use nebula_storage.Codec.Cells.{Conversions}
use nebula_storage.Codec.Writer.{
  Writer, version_bytes, null_bytes, header, new_writer, check_null_bit, slot,
}
use nebula_storage.Codec.Reader.{
  Reader, is_null, decode_slot, read_string, read_slot, get_field, get_value_by_index,
}
use nebula_storage.Codec.Layout.{Placed, column-Placed}
use nebula_storage.Codec.Held.{fixed_len, IsWriter}
use nebula_storage.Codec.Frame.{held, held_slot, held_text, map-eq-some}

abbrev zeros : ℕ → List ℕ
zeros n = replicate n 0

-- The writer of a schema whose version takes `n` bytes.
abbrev fresh : ℕ → Schema → Writer
fresh n s = record {
  schema = s;
  buf = header n s.version ++ replicate (null_bytes s.num_nullables + s.row_size) 0;
  is_set = replicate (length s.fields) false;
  header_len = n + 1;
  num_null_bytes = null_bytes s.num_nullables;
  finished = false;
  out_of_space_str = false;
  str_list = [];
}

length-header : (n v : ℕ) → length (header n v) ≡ n + 1
unfolding header
length-header n v = omega (arith, length-le_bytes n v)

length-zeros : (n : ℕ) → length (zeros n) ≡ n
length-zeros n = length-replicate n 0

get_or-zeros : (n k : ℕ) → get_or (zeros n) k 0 ≡ 0
get_or-zeros zero k = refl
get_or-zeros (suc n) zero = refl
get_or-zeros (suc n) (suc k) = get_or-zeros n k

get_or-behind : (xs ys : List ℕ) (k : ℕ) → get_or (xs ++ ys) (length xs + k) 0 ≡ get_or ys k 0
get_or-behind [] ys k = ap (λ i. get_or ys i 0) (omega arith)
get_or-behind (x ∷ xs) ys k = rw (suc-add (length xs) k) (get_or-behind xs ys k)

fresh-IsWriter :
    (n : ℕ) (s : Schema) → version_bytes s.version ≡ some n → IsLaidOut s → IsWriter (fresh n s)
fresh-IsWriter n s e laid =
    let z = zeros (null_bytes s.num_nullables + s.row_size) in
    record {
      laid = laid;
      fits_buf = omega (
        arith,
        length-append (header n s.version) z,
        length-header n s.version,
        length-zeros (null_bytes s.num_nullables + s.row_size),
      );
      headed = omega arith;
      flagged = refl;
      versioned = e ∙ ap some (omega arith);
      written =
          piece_at 0 (n + 1) (header n s.version ++ z) [] (header n s.version) z refl refl
            (length-header n s.version)
          ∙ ap (λ m. some (header m s.version)) {y = n + 1 - 1} (omega arith);
      beside = λ q. refl;
      flags_lt = λ k h.
          rw
            (ap (λ m. get_or (header n s.version ++ z) (m + k) 0) (sym (length-header n s.version))
              ∙ get_or-behind (header n s.version) z k
              ∙ get_or-zeros (null_bytes s.num_nullables + s.row_size) k)
            (omega arith);
    }

-- A new writer is well formed.
pub new_writer-IsWriter :
    (s : Schema) (w : Writer) → IsLaidOut s → new_writer s ≡ some w → IsWriter w × (w.schema ≡ s)
unfolding new_writer
new_writer-IsWriter s w laid e = elim (Option-cases (version_bytes s.version)) [
  | inl too_big ↦ cc
  | inr (n, size) ↦
      let q : fresh n s ≡ w = ground arith in
      (subst IsWriter q (fresh-IsWriter n s size laid), sym (ap (λ v. v.schema) q))
]

-- A string is found from its slot at `off` on, behind the first `fixed` bytes.
abbrev pub HasText : ℕ → ℕ → List ℕ → List ℕ → Type 0
HasText fixed off s b =
    (place : ℕ) × (read_int off 4 b ≡ some place)
    × (read_int (off + 4) 4 b ≡ some (length s))
    × (piece place (length s) b ≡ some s)
    × (fixed ≤ place)

-- The bytes `b` hold what the writer's columns hold.
pub record Joined (w : Writer) (b : List ℕ) : Type 0 where
  pub enough : fixed_len w ≤ length b
  pub front : piece 0 w.header_len b ≡ piece 0 w.header_len w.buf
  pub flags :
      (k : ℕ)
      → k < w.num_null_bytes
      → get_or b (w.header_len + k) 0 ≡ get_or w.buf (w.header_len + k) 0
  pub slots :
      (i : ℕ) (f : Field)
      → get_elem? w.schema.fields i ≡ some f
      → f.type ≢ PropertyType.t_string
      → piece (slot f w) f.size b ≡ piece (slot f w) f.size w.buf
  pub texts :
      (i : ℕ) (f : Field) (s : List ℕ)
      → get_elem? w.schema.fields i ≡ some f
      → f.type ≡ PropertyType.t_string
      → (f.nullable && check_null_bit f.null_flag_pos w) ≡ false
      → held_text f w ≡ some s
      → HasText (fixed_len w) (slot f w) s b

-- The reader of the row, with the time stamp `t` behind the bytes.
abbrev pub row_reader : Writer → List ℕ → Reader
row_reader w row = record {
  schema = w.schema;
  row = row;
  header_len = w.header_len;
  num_null_bytes = w.num_null_bytes;
}

by_index :
    (c : Conversions) (i : ℕ) (f : Field) (r : Reader)
    → get_elem? r.schema.fields i ≡ some f
    → get_value_by_index c i r ≡ Option.map some (get_field c f r)
unfolding get_value_by_index
by_index c i f r at = rw (at, get_value_by_index) refl

read_int-append_right :
    (off n : ℕ) (b t : List ℕ) {v : ℕ}
    → read_int off n b ≡ some v
    → read_int off n (b ++ t) ≡ some v
unfolding read_int
read_int-append_right off n b t e = elim (Option-cases (piece off n b)) [
  | inl absent ↦ cc
  | inr (p, there) ↦ rw (piece-append_right off n b t p there) (rw there at e)
]

read_text :
    (fixed off : ℕ) (s b t : List ℕ)
    → 0 < length t
    → HasText fixed off s b
    → read_string off (b ++ t) ≡ some (Value.string s)
unfolding read_string
read_text fixed off s b t pos h =
    let inside : (h.0 + length s ≤ length b) = (length-piece h.0 (length s) b s h.3).1 in
    let p = read_int-append_right off 4 b t h.1 in
    let q = read_int-append_right (off + 4) 4 b t h.2 in
    let r = piece-append_right h.0 (length s) b t s h.3 in
    ground (arith, p, q, r, length-append b t)

module _ (c : Conversions) (w : Writer) (b t : List ℕ) (ok : IsWriter w) (joined : Joined w b)
    (pos : 0 < length t) (i : ℕ) (f : Field) (at : get_elem? w.schema.fields i ≡ some f) where
  Placed-here : Placed w.schema 0 0 f
  Placed-here = column-Placed w.schema ok.laid i f at

  same_null :
      (f.nullable && is_null f.null_flag_pos (row_reader w (b ++ t)))
      ≡ (f.nullable && check_null_bit f.null_flag_pos w)
  unfolding is_null check_null_bit
  same_null = elim (Bool-cases f.nullable) [
    | inl yes_null ↦
        let k : f.null_flag_pos / 8 < w.num_null_bytes =
          unfold null_bytes in ground (arith, (Placed-here.3 yes_null).1, ok.flagged) in
        ap (λ x. f.nullable && test_bit (f.null_flag_pos % 8) x)
          (get_or-append b t (w.header_len + f.null_flag_pos / 8) (omega (arith, joined.enough))
            ∙ joined.flags (f.null_flag_pos / 8) k)
    | inr no_null ↦ rw no_null refl
  ]

  in_slot :
      (ty : PropertyType) (u : Value)
      → f.type ≡ ty
      → ty ≢ PropertyType.t_string
      → (piece (slot f w) f.size w.buf >>= decode_slot c ty) ≡ some u
      → (piece (slot f w) f.size (b ++ t) >>= decode_slot c ty) ≡ some u
  in_slot ty u e ne h =
      let (p, there, q) = >>=-eq-some (piece (slot f w) f.size w.buf) (decode_slot c ty) h in
      rw
        (piece-append_right (slot f w) f.size b t p
          (joined.slots i f at (λ x. ne (sym e ∙ x)) ∙ there))
        q

  read_held_slot :
      (ty : PropertyType) (u : Value)
      → f.type ≡ ty
      → (f.nullable && check_null_bit f.null_flag_pos w) ≡ false
      → held_slot c ty f w ≡ some u
      → read_slot c ty f.size (slot f w) (b ++ t) ≡ some u
  unfolding read_slot
  read_held_slot PropertyType.t_string u e n h =
      let (s, there, q) = map-eq-some (held_text f w) h in
      read_text (fixed_len w) (slot f w) s b t pos (joined.texts i f s at e n there) ∙ ap some q
  read_held_slot PropertyType.t_bool u e n h = in_slot PropertyType.t_bool u e (λ p. cc) h
  read_held_slot ty u e n h = in_slot ty u e (λ p. cc) h

  get_field-held :
      (u : Value) → held c f w ≡ some u → get_field c f (row_reader w (b ++ t)) ≡ some u
  unfolding get_field slot
  get_field-held u h = elim (Bool-cases (f.nullable && check_null_bit f.null_flag_pos w)) [
    | inl null ↦ rw (same_null, null) (rw null at h)
    | inr there ↦ rw (same_null, there) (read_held_slot f.type u refl there (rw there at h))
  ]

  -- Reading the finished row gives what the writer held.
  pub get_value_by_index-held :
      (u : Value)
      → held c f w ≡ some u
      → get_value_by_index c i (row_reader w (b ++ t)) ≡ some (some u)
  get_value_by_index-held u h =
      by_index c i f (row_reader w (b ++ t)) at ∙ ap (Option.map some) (get_field-held u h)
