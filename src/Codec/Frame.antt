-- ===== src/Codec/Frame.antt =====
-- What one column of a row holds, and that writing another column does not change it.
use mathlib.Core.Option
use nebula_storage.Prelude.{
  ℕ, ◌+◌, ◌^◌, ◌≤◌, ◌≡◌, refl, ap, sym, ◌∙◌, inl, inr, Bool, true, false, ◌&&◌, List, Option, none,
  some, arith, get_elem?, if◌then◌else◌, ltb, leb, ◌>>=◌, >>=-eq-some, Bool-cases, leb→le,
}
use nebula_storage.Bytes.Words.{of_le}
use nebula_storage.Bytes.Pieces.{piece, read_int}
use nebula_storage.Codec.Schema.{Value, PropertyType, Field, column_size}
use nebula_storage.Codec.Cells.{Conversions}
use nebula_storage.Codec.Writer.{Writer, check_null_bit, slot}
use nebula_storage.Codec.Reader.{decode_slot}
use nebula_storage.Codec.Layout.{Placed, Apart}
use nebula_storage.Codec.Held.{fixed_len, Keeps}

pub some_if {ℓ} :
    {A : Type ℓ} (b : Bool) (o : Option A) {a : A}
    → (if b then o else none) ≡ some a
    → (b ≡ true) × (o ≡ some a)
some_if true o e = (refl, e)
some_if false o e = cc

pub map-eq-some :
    (o : Option (List ℕ)) {u : Value}
    → Option.map Value.string o ≡ some u
    → (s : List ℕ) × (o ≡ some s) × (Value.string s ≡ u)
map-eq-some none e = cc
map-eq-some (some s) e = (s, refl, cc)

-- The text of a string column: behind the slots, or beside the row.
abbrev pub held_at : Writer → ℕ → ℕ → Option (List ℕ)
held_at w old len =
    if ltb 0 old && ltb old (2 ^ 31)
    then (if leb (fixed_len w) old then piece old len w.buf else none)
    else get_elem? w.str_list len

abbrev pub held_text : Field → Writer → Option (List ℕ)
held_text f w = read_int (slot f w) 4 w.buf >>= λ old.
    read_int (slot f w + 4) 4 w.buf >>= λ len. held_at w old len

abbrev pub held_slot : Conversions → PropertyType → Field → Writer → Option Value
held_slot c PropertyType.t_string f w = Option.map Value.string (held_text f w)
held_slot c t f w = piece (slot f w) f.size w.buf >>= decode_slot c t

-- The value of a column in a row that is being written.
abbrev pub held : Conversions → Field → Writer → Option Value
held c f w =
    if f.nullable && check_null_bit f.null_flag_pos w
    then some Value.null
    else held_slot c f.type f w

pub Keeps-trans : (f : Field) {w v u : Writer} → Keeps f w v → Keeps f v u → Keeps f w u
unfolding slot
Keeps-trans f {w = w} {v = v} {u = u} p q =
    let rows : v.schema.row_size ≡ w.schema.row_size = ap (λ s. s.row_size) p.same_schema in
    let nulls : v.schema.num_nullables ≡ w.schema.num_nullables =
      ap (λ s. s.num_nullables) p.same_schema in
    record {
      same_schema = q.same_schema ∙ p.same_schema;
      same_header = q.same_header ∙ p.same_header;
      same_nulls = q.same_nulls ∙ p.same_nulls;
      front = λ o n h. q.front o n (omega (arith, p.same_header)) ∙ p.front o n h;
      slots = λ o n h l a.
          q.slots o n (omega (arith, p.same_header, p.same_nulls))
            (omega (arith, p.same_header, p.same_nulls, rows))
            (omega (arith, p.same_header, p.same_nulls))
          ∙ p.slots o n h l a;
      tail = λ o n s h e.
          q.tail o n s (omega (arith, p.same_header, p.same_nulls, rows)) (p.tail o n s h e);
      flags = λ pos h a. q.flags pos (omega (arith, nulls)) a ∙ p.flags pos h a;
      texts = λ k s e. q.texts k s (p.texts k s e);
    }

module _ (f : Field) (w v : Writer) (keeps : Keeps f w v) where
  same_fixed : fixed_len v ≡ fixed_len w
  same_fixed =
      omega (arith, keeps.same_header, keeps.same_nulls, ap (λ s. s.row_size) keeps.same_schema)

  -- A text that is there stays.
  pub same_texts :
      (old len : ℕ) (s : List ℕ) → held_at w old len ≡ some s → held_at v old len ≡ some s
  same_texts old len s e = elim (Bool-cases (ltb 0 old && ltb old (2 ^ 31))) [
    | inl inside ↦
        let h : (leb (fixed_len w) old ≡ true) × (piece old len w.buf ≡ some s) =
          some_if (leb (fixed_len w) old) (piece old len w.buf) (rw inside at e) in
        rw (inside, same_fixed, h.0) (keeps.tail old len s (leb→le _ _ h.0) h.1)
    | inr beside ↦ rw beside (keeps.texts len s (rw beside at e))
  ]

module _ (f g : Field) (w v : Writer) (keeps : Keeps f w v) (placed : Placed w.schema 0 0 g)
    (apart : Apart f g) where
  same_slot : slot g v ≡ slot g w
  unfolding slot
  same_slot = omega (arith, keeps.same_header, keeps.same_nulls)

  same_flag :
      (g.nullable && check_null_bit g.null_flag_pos v)
      ≡ (g.nullable && check_null_bit g.null_flag_pos w)
  same_flag = elim (Bool-cases g.nullable) [
    | inl yes_null ↦
        ap (◌&&◌ g.nullable)
          (keeps.flags g.null_flag_pos (placed.3 yes_null).1 (λ n e. apart.1 n yes_null (sym e)))
    | inr no_null ↦ rw no_null refl
  ]

  -- A part of the slot.
  same_part :
      (o n : ℕ) → o + n ≤ g.size → piece (slot g v + o) n v.buf ≡ piece (slot g w + o) n w.buf
  unfolding slot
  same_part o n h =
      ap (λ k. piece (k + o) n v.buf) same_slot
      ∙ keeps.slots (slot g w + o) n (omega arith) (omega arith) (omega arith)

  same_whole : (n : ℕ) → n ≤ g.size → piece (slot g v) n v.buf ≡ piece (slot g w) n w.buf
  unfolding slot
  same_whole n h =
      ap (λ k. piece k n v.buf) same_slot
      ∙ keeps.slots (slot g w) n (omega arith) (omega arith) (omega arith)

  same_held_text : 8 ≤ g.size → (s : List ℕ) → held_text g w ≡ some s → held_text g v ≡ some s
  unfolding read_int
  same_held_text size s e =
      let (old, p, q) = >>=-eq-some (read_int (slot g w) 4 w.buf) _ e in
      let (len, a, b) = >>=-eq-some (read_int (slot g w + 4) 4 w.buf) _ q in
      cc (
        ap (Option.map of_le) (same_whole 4 (omega arith)) ∙ p,
        ap (Option.map of_le) (same_part 4 4 (omega arith)) ∙ a,
        same_texts f w v keeps old len s b,
      )

  same_held_slot :
      (c : Conversions) (t : PropertyType) (u : Value)
      → column_size t g.size ≡ some g.size
      → held_slot c t g w ≡ some u
      → held_slot c t g v ≡ some u
  unfolding column_size
  same_held_slot c PropertyType.t_string u col e =
      let (s, p, q) = map-eq-some (held_text g w) e in
      rw (same_held_text (ground arith) s p) (ap some q)
  same_held_slot c PropertyType.t_bool u col e =
      ap (λ o. o >>= decode_slot c PropertyType.t_bool) (same_whole g.size (omega arith)) ∙ e
  same_held_slot c t u col e = ap (λ o. o >>= decode_slot c t) (same_whole g.size (omega arith)) ∙ e

  -- Writing `f` leaves the value of `g`.
  pub held_frame : (c : Conversions) (u : Value) → held c g w ≡ some u → held c g v ≡ some u
  held_frame c u e = elim (Bool-cases (g.nullable && check_null_bit g.null_flag_pos w)) [
    | inl null ↦ rw (same_flag, null) (rw null at e)
    | inr there ↦ rw (same_flag, there) (same_held_slot c g.type u placed.0 (rw there at e))
  ]
