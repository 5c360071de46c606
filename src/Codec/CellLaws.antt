-- ===== src/Codec/CellLaws.antt =====
-- What a cell of the writer means to the reader: the slot of a column gives back the value written, or
-- what the column's type can hold of it.
use nebula_storage.Prelude.{
  ℕ, zero, suc, ◌+◌, ◌-◌, ◌≤◌, ◌≡◌, refl, ap, ◌∙◌, sym, List, [], ◌∷◌, ◌++◌, arith, length,
  replicate, if◌then◌else◌, ltb, ◌==◌, Bool-cases, inl, inr, append-nil,
}
use mathlib.Core.Path.{ap₂}
use native.Mathlib.Nat.{suc-add}
use nebula_storage.Bytes.Words.{le_bytes, of_le}
use nebula_storage.Codec.Schema.{Date, Time, Value, PropertyType, column_size}
use nebula_storage.Codec.Cells.{
  Conversions, IsSized, bytes, strncpy, fixed_cell, date_cell, time_cell, date_time_cell,
}
use nebula_storage.Codec.Reader.{decode_slot}
use nebula_storage.Codec.IntLaws.{
  IsDate, IsTime, IsNoDateTime, IsValue, fixed_text, read_back, cell_of, Means, bool_cell-Means,
  int_cell-Means, double_cell-Means,
}

fixed_text-nil : (n : ℕ) → fixed_text n [] ≡ replicate n 0
fixed_text-nil zero = refl
fixed_text-nil (suc n) = ap (◌∷◌ 0) (fixed_text-nil n)

-- The copy of the whole text and the zeros behind it.
strncpy-fixed_text : (n : ℕ) (s : List ℕ) → strncpy n s ≡ fixed_text n s
unfolding strncpy
strncpy-fixed_text zero s = refl
strncpy-fixed_text (suc n) [] = ap (◌∷◌ 0) (sym (fixed_text-nil n))
strncpy-fixed_text (suc n) (b ∷ s) = ground (arith, strncpy-fixed_text n s, fixed_text-nil n)

fixed_text-append :
    (m j : ℕ) (s : List ℕ) → length s ≤ m → fixed_text m s ++ fixed_text j [] ≡ fixed_text (m + j) s
fixed_text-append zero j [] h = ap (λ k. fixed_text k []) (omega arith)
fixed_text-append zero j (b ∷ s) h = absurd (omega arith)
fixed_text-append (suc m) j [] h =
    rw (suc-add m j) (ap (◌∷◌ 0) (fixed_text-append m j [] (omega arith)))
fixed_text-append (suc m) j (b ∷ s) h =
    rw (suc-add m j) (ap (◌∷◌ b) (fixed_text-append m j (if b == 0 then [] else s) (ground arith)))

pub length-fixed_text : (n : ℕ) (s : List ℕ) → length (fixed_text n s) ≡ n
length-fixed_text zero s = refl
length-fixed_text (suc n) [] = ap suc (length-fixed_text n [])
length-fixed_text (suc n) (b ∷ s) = ap suc (length-fixed_text n (if b == 0 then [] else s))

-- A text that is too long is cut, a shorter one is filled up.
copied :
    (n k : ℕ) (s : List ℕ)
    → length s ≤ k
    → k ≤ n
    → strncpy k s ++ replicate (n - k) 0 ≡ fixed_text n s
copied n k s h l =
    ap₂ ◌++◌ (strncpy-fixed_text k s) (sym (fixed_text-nil (n - k)))
    ∙ fixed_text-append k (n - k) s h
    ∙ ap (λ j. fixed_text j s) (omega arith)

cut : (n : ℕ) (s : List ℕ) → strncpy n s ++ replicate (n - n) 0 ≡ fixed_text n s
cut n s =
    ap₂ ◌++◌ (strncpy-fixed_text n s) (ap (λ k. replicate {A = ℕ} k 0) {y = 0} (omega arith))
    ∙ append-nil (fixed_text n s)

fixed_cell_eq : (n : ℕ) (s : List ℕ) → fixed_cell n s ≡ bytes (fixed_text n s)
unfolding fixed_cell
fixed_cell_eq n s = elim (Bool-cases (ltb n (length s))) [
  | inl long ↦ rw long (ap bytes (cut n s))
  | inr short ↦ rw short (ap bytes (copied n (length s) s (omega arith) (ground arith)))
]

string_cell-Means :
    (c : Conversions) (t : PropertyType) (n : ℕ) (s : List ℕ) {bs : List ℕ}
    → cell_of c t n (Value.string s) ≡ bytes bs
    → Means c t n bs (read_back c t n (Value.string s))
unfolding decode_slot column_size
string_cell-Means c PropertyType.t_fixed_string n s e =
    ground (arith, fixed_cell_eq n s, length-fixed_text n s)
string_cell-Means c _ n s e = cc

date_cell-Means :
    (c : Conversions) (t : PropertyType) (n : ℕ) (d : Date) {bs : List ℕ}
    → IsDate d
    → IsNoDateTime t
    → date_cell t d ≡ bytes bs
    → Means c t n bs (read_back c t n (Value.date d))
unfolding date_cell decode_slot column_size le_bytes of_le
date_cell-Means c PropertyType.t_date n d h k e = ground arith
date_cell-Means c PropertyType.t_date_time n d h k e = absurd k
date_cell-Means c _ n d h k e = cc

time_cell-Means :
    (c : Conversions) (t : PropertyType) (n : ℕ) (d : Time) {bs : List ℕ}
    → IsTime d
    → time_cell t d ≡ bytes bs
    → Means c t n bs (read_back c t n (Value.time d))
unfolding time_cell decode_slot column_size le_bytes of_le
time_cell-Means c PropertyType.t_time n d h e = ground arith
time_cell-Means c _ n d h e = cc

date_time_cell-Means :
    (c : Conversions) (t : PropertyType) (n : ℕ) (d : Date) (m : Time) {bs : List ℕ}
    → IsDate d
    → IsTime m
    → date_time_cell t d m ≡ bytes bs
    → Means c t n bs (read_back c t n (Value.date_time d m))
unfolding date_time_cell decode_slot column_size le_bytes of_le
date_time_cell-Means c PropertyType.t_date n d m h k e = ground arith
date_time_cell-Means c PropertyType.t_date_time n d m h k e = ground arith
date_time_cell-Means c _ n d m h k e = cc

-- A slot that has taken a value gives back what the column's type holds of it, and has its size.
pub cell_of-Means :
    (c : Conversions) (t : PropertyType) (n : ℕ) (v : Value) {bs : List ℕ}
    → IsSized c
    → IsValue t v
    → cell_of c t n v ≡ bytes bs
    → Means c t n bs (read_back c t n v)
cell_of-Means c t n Value.null z h e = cc
cell_of-Means c t n (Value.bool b) z h e = bool_cell-Means c t n b e
cell_of-Means c t n (Value.int v) z h e = int_cell-Means c z t n v h e
cell_of-Means c t n (Value.float d) z h e = double_cell-Means c z t n d h e
cell_of-Means c t n (Value.string s) z h e = string_cell-Means c t n s e
cell_of-Means c t n (Value.date d) z h e = date_cell-Means c t n d h.0 h.1 e
cell_of-Means c t n (Value.time d) z h e = time_cell-Means c t n d h e
cell_of-Means c t n (Value.date_time d m) z h e = date_time_cell-Means c t n d m h.0 h.1 e
cell_of-Means c t n Value.other z h e = cc
