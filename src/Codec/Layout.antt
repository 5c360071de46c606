-- ===== src/Codec/Layout.antt =====
-- The places of the columns in a row: within the row, and apart from each other.
use nebula_storage.Prelude.{
  ℕ, zero, suc, ◌+◌, ◌≤◌, ◌<◌, ◌≡◌, ◌≢◌, refl, ap, ◌⊎◌, inl, inr, Bool, true, List, [], ◌∷◌, ◌++◌,
  Option, some, arith, get_elem?, Option-cases, subst, if◌then◌else◌,
}
use nebula_storage.Codec.Schema.{
  Value, PropertyType, Field, Schema, column_size, empty_schema, next_column, with_column,
  append_col, LaidFrom, IsLaidOut,
}

laid_end :
    (s : Schema) (off pos : ℕ) (fs : List Field)
    → LaidFrom s off pos fs
    → (off ≤ s.row_size) × (pos ≤ s.num_nullables)
laid_end s off pos [] h = omega arith
laid_end s off pos (f ∷ fs) h =
    ground (arith, laid_end s (off + f.size) (if f.nullable then pos + 1 else pos) fs h.3)

-- Where a column stands among those from `off` and `pos` on.
abbrev pub Placed : Schema → ℕ → ℕ → Field → Type 0
Placed s off pos f =
    (column_size f.type f.size ≡ some f.size)
    × (off ≤ f.offset)
    × (f.offset + f.size ≤ s.row_size)
    × (f.nullable ≡ true → (pos ≤ f.null_flag_pos) × (f.null_flag_pos < s.num_nullables))

Placed-from :
    (s : Schema) (off pos : ℕ) (fs : List Field) (i : ℕ) (f : Field)
    → LaidFrom s off pos fs
    → get_elem? fs i ≡ some f
    → Placed s off pos f
Placed-from s off pos [] i f h e = cc
Placed-from s off pos (g ∷ fs) zero f h e =
    ground (arith, laid_end s (off + g.size) (if g.nullable then pos + 1 else pos) fs h.3)
Placed-from s off pos (g ∷ fs) (suc i) f h e =
    ground (arith, Placed-from s (off + g.size) (if g.nullable then pos + 1 else pos) fs i f h.3 e)

-- Two columns share neither a byte nor a flag.
abbrev pub Apart : Field → Field → Type 0
Apart f g =
    ((f.offset + f.size ≤ g.offset) ⊎ (g.offset + g.size ≤ f.offset))
    × (f.nullable ≡ true → g.nullable ≡ true → f.null_flag_pos ≢ g.null_flag_pos)

Apart-from :
    (s : Schema) (off pos : ℕ) (fs : List Field) (i j : ℕ) (f g : Field)
    → LaidFrom s off pos fs
    → get_elem? fs i ≡ some f
    → get_elem? fs j ≡ some g
    → i ≢ j
    → Apart f g
Apart-from s off pos [] i j f g h p q ne = cc
Apart-from s off pos (k ∷ fs) zero zero f g h p q ne = absurd (ne refl)
Apart-from s off pos (k ∷ fs) zero (suc j) f g h p q ne =
    ground (arith, Placed-from s (off + k.size) (if k.nullable then pos + 1 else pos) fs j g h.3 q)
Apart-from s off pos (k ∷ fs) (suc i) zero f g h p q ne =
    ground (arith, Placed-from s (off + k.size) (if k.nullable then pos + 1 else pos) fs i f h.3 p)
Apart-from s off pos (k ∷ fs) (suc i) (suc j) f g h p q ne =
    Apart-from s (off + k.size) (if k.nullable then pos + 1 else pos) fs i j f g h.3 p q
      (λ e. ne (ap suc e))

module _ (s : Schema) (laid : IsLaidOut s) where
  pub column-Placed : (i : ℕ) (f : Field) → get_elem? s.fields i ≡ some f → Placed s 0 0 f
  column-Placed i f e = Placed-from s 0 0 s.fields i f laid e

  pub columns-Apart :
      (i j : ℕ) (f g : Field)
      → get_elem? s.fields i ≡ some f
      → get_elem? s.fields j ≡ some g
      → i ≢ j
      → Apart f g
  columns-Apart i j f g p q ne = Apart-from s 0 0 s.fields i j f g laid p q ne

column_size_idem :
    (t : PropertyType) (n k : ℕ) → column_size t n ≡ some k → column_size t k ≡ some k
unfolding column_size
column_size_idem PropertyType.t_bool n k e = cc
column_size_idem PropertyType.t_fixed_string zero k e = cc
column_size_idem PropertyType.t_fixed_string (suc n) zero e = cc
column_size_idem PropertyType.t_fixed_string (suc n) (suc k) e = refl
column_size_idem _ n k e = cc

-- What is laid out up to the end is laid out with one column more.
laid_append :
    (s t : Schema) (off pos : ℕ) (fs : List Field) (f : Field)
    → LaidFrom s off pos fs
    → column_size f.type f.size ≡ some f.size
    → f.offset ≡ s.row_size
    → (f.nullable ≡ true → f.null_flag_pos ≡ s.num_nullables)
    → t.row_size ≡ s.row_size + f.size
    → t.num_nullables ≡ (if f.nullable then s.num_nullables + 1 else s.num_nullables)
    → LaidFrom t off pos (fs ++ f ∷ [])
laid_append s t off pos [] f h a b c d e = ground arith
laid_append s t off pos (g ∷ fs) f h a b c d e = (
  h.0,
  h.1,
  h.2,
  laid_append s t (off + g.size) (if g.nullable then pos + 1 else pos) fs f h.3 a b c d e,
)

pub empty_schema-IsLaidOut : (v : ℕ) → IsLaidOut (empty_schema v)
empty_schema-IsLaidOut v = (refl, refl)

-- A schema that is built column by column is laid out.
pub append_col-IsLaidOut :
    (t : PropertyType) (n : ℕ) (b : Bool) (d : Option Value) (s : Schema) {s' : Schema}
    → IsLaidOut s
    → append_col t n b d s ≡ some s'
    → IsLaidOut s'
unfolding append_col
append_col-IsLaidOut t n b d s {s' = s'} h e = elim (Option-cases (column_size t n)) [
  | inl no_size ↦ cc
  | inr (k, size) ↦ subst IsLaidOut {x = with_column (next_column t k b d s) s} {y = s'} (cc) (
      laid_append s (with_column (next_column t k b d s) s) 0 0 s.fields (next_column t k b d s) h
        (column_size_idem t n k size) refl (λ p. rw p refl) refl refl)
]
