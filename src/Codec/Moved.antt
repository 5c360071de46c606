-- ===== src/Codec/Moved.antt =====
-- RowWriterV2::processOutOfSpace over all columns of a row.
use mathlib.Core.Option
use nebula_storage.Prelude.{
  ℕ, zero, suc, ◌+◌, ◌^◌, ◌≤◌, ◌<◌, ◌≡◌, ◌≢◌, refl, ap, sym, ◌∙◌, subst, true, false, ◌&&◌, List,
  [], ◌∷◌, Option, some, arith, length, get_elem?, if◌then◌else◌, >>=-eq-some, ◌⊎◌, inl, inr,
  Bool-cases,
}
use nebula_storage.Bytes.Words.{of_le}
use nebula_storage.Bytes.Pieces.{read_int}
use nebula_storage.Codec.Schema.{PropertyType, Field, column_size}
use nebula_storage.Codec.Writer.{Writer, check_null_bit, slot}
use nebula_storage.Codec.Finish.{text_of, relocate, is_string, relocate_all}
use nebula_storage.Codec.Layout.{Placed, Apart}
use nebula_storage.Codec.Held.{fixed_len}
use nebula_storage.Codec.Kept.{Located, Kept, Off, some_eq, relocate-Kept, relocate-Located}

-- After one column's relocation, the rest.
Kept-trans :
    (w : Writer) (P Q : ℕ → ℕ → Type 0) (t u v : List ℕ)
    → Kept w P t u
    → Kept w Q u v
    → Kept w (λ o n. P o n × Q o n) t v
Kept-trans w P Q t u v p q = record {
  grows = omega (arith, p.grows, q.grows);
  frame = λ o n h a. q.frame o n h a.1 ∙ p.frame o n h a.0;
  tail = λ o n s h e. q.tail o n s h (p.tail o n s h e);
  flags = λ k h. q.flags k h ∙ p.flags k h;
}

Kept-weaken :
    (w : Writer) (P Q : ℕ → ℕ → Type 0) (t u : List ℕ)
    → ((o n : ℕ) → Q o n → P o n)
    → Kept w P t u
    → Kept w Q t u
Kept-weaken w P Q t u f p = record {
  grows = p.grows;
  frame = λ o n h a. p.frame o n h (f o n a);
  tail = p.tail;
  flags = p.flags;
}

Kept-refl : (w : Writer) (P : ℕ → ℕ → Type 0) (t : List ℕ) → Kept w P t t
Kept-refl w P t = record {
  grows = omega arith;
  frame = λ o n h a. refl;
  tail = λ o n p h e. e;
  flags = λ k h. refl;
}

pub is_string_type : (t : PropertyType) → is_string t ≡ true → t ≡ PropertyType.t_string
is_string_type PropertyType.t_string e = refl
is_string_type PropertyType.t_bool e = cc
is_string_type t e = cc

string_size :
    (t : PropertyType) (n : ℕ) → t ≡ PropertyType.t_string → column_size t n ≡ some n → n ≡ 8
unfolding column_size
string_size t n e h = ground arith

-- Off the slots of all string columns.
abbrev Offs : Writer → List Field → ℕ → ℕ → Type 0
Offs w fs o n =
    (j : ℕ) (g : Field) → get_elem? fs j ≡ some g → g.type ≡ PropertyType.t_string → Off w g o n

abbrev pub AllPlaced : Writer → List Field → Type 0
AllPlaced w fs = (j : ℕ) (g : Field) → get_elem? fs j ≡ some g → Placed w.schema 0 0 g

abbrev step_of : Field → Writer → List ℕ → Option (List ℕ)
step_of f w temp = if is_string f.type then relocate f w temp else some temp

step-Kept :
    (f : Field) (w : Writer) (temp b : List ℕ)
    → Placed w.schema 0 0 f
    → fixed_len w ≤ length temp
    → step_of f w temp ≡ some b
    → Kept w (λ o n. f.type ≡ PropertyType.t_string → Off w f o n) temp b
step-Kept f w temp b placed enough e = elim (Bool-cases (is_string f.type)) [
  | inl text ↦
      let t = is_string_type f.type text in
      Kept-weaken w (Off w f) _ temp b (λ o n a. a t)
        (relocate-Kept f w placed (string_size f.type f.size t placed.0) temp b enough
          (rw text at e))
  | inr other ↦ subst (Kept w _ temp) (some_eq (rw other at e)) (Kept-refl w _ temp)
]

pub relocate_all-Kept :
    (fs : List Field) (w : Writer) (temp b : List ℕ)
    → AllPlaced w fs
    → fixed_len w ≤ length temp
    → relocate_all fs w temp ≡ some b
    → Kept w (Offs w fs) temp b
unfolding relocate_all
relocate_all-Kept [] w temp b placed enough e =
    subst (Kept w (Offs w []) temp) (some_eq e) (Kept-refl w (Offs w []) temp)
relocate_all-Kept (f ∷ fs) w temp b placed enough e =
    let (t, p, q) = >>=-eq-some (step_of f w temp) (relocate_all fs w) e in
    let first = step-Kept f w temp t (placed 0 f refl) enough p in
    let rest =
      relocate_all-Kept fs w t b (λ j g h. placed (suc j) g h) (omega (arith, first.grows)) q in
    Kept-weaken w _ (Offs w (f ∷ fs)) temp b (λ o n a. (a 0 f refl, λ j g h. a (suc j) g h))
      (Kept-trans w _ (Offs w fs) temp t b first rest)

-- A located string stays located.
Located-Kept :
    (w : Writer) (P : ℕ → ℕ → Type 0) (off : ℕ) (s t b : List ℕ)
    → off + 8 ≤ fixed_len w
    → P off 4
    → P (off + 4) 4
    → Kept w P t b
    → Located w off s t
    → Located w off s b
unfolding read_int
Located-Kept w P off s t b h p q k l = (
  l.0,
  ap (Option.map of_le) (k.frame off 4 (omega arith) p) ∙ l.1,
  ap (Option.map of_le) (k.frame (off + 4) 4 (omega arith) q) ∙ l.2,
  k.tail l.0 (length s) s l.4 l.3,
  l.4,
)

abbrev pub AllApart : List Field → Type 0
AllApart fs =
    (i j : ℕ) (f g : Field) → get_elem? fs i ≡ some f → get_elem? fs j ≡ some g → i ≢ j → Apart f g

apart-Off :
    (f g : Field) (w : Writer) (o : ℕ)
    → slot f w ≤ o
    → o + 4 ≤ slot f w + 8
    → f.size ≡ 8
    → (f.offset + f.size ≤ g.offset) ⊎ (g.offset + g.size ≤ f.offset)
    → Off w g o 4
unfolding slot
apart-Off f g w o h l size a = omega arith

-- The first column's text is located, and the others' relocation leaves it there.
head-Located :
    (f : Field) (fs : List Field) (w : Writer) (temp b s : List ℕ)
    → AllPlaced w (f ∷ fs)
    → AllApart (f ∷ fs)
    → fixed_len w ≤ length temp
    → length b < 2 ^ 31
    → relocate_all (f ∷ fs) w temp ≡ some b
    → f.type ≡ PropertyType.t_string
    → (f.nullable && check_null_bit f.null_flag_pos w) ≡ false
    → text_of f w ≡ some s
    → Located w (slot f w) s b
unfolding relocate_all slot
head-Located f fs w temp b s placed apart enough room e t n x =
    let (u, p, q) = >>=-eq-some (step_of f w temp) (relocate_all fs w) e in
    let here = placed 0 f refl in
    let size = string_size f.type f.size t here.0 in
    let moved : relocate f w temp ≡ some u =
      ap (λ b. if b then relocate f w temp else some temp) {x = true} (sym (ap is_string t)) ∙ p in
    let first = relocate-Kept f w here size temp u enough moved in
    let rest =
      relocate_all-Kept fs w u b (λ j g h. placed (suc j) g h) (omega (arith, first.grows)) q in
    let off : (o : ℕ) → slot f w ≤ o → o + 4 ≤ slot f w + 8 → Offs w fs o 4 = λ o h l j g at gt.
      apart-Off f g w o h l size (apart 0 (suc j) f g refl at (λ r. absurd (omega arith))).0 in
    Located-Kept w (Offs w fs) (slot f w) s u b (omega (arith, here, size))
      (off (slot f w) (omega arith) (omega arith)) (off (slot f w + 4) (omega arith) (omega arith))
      rest (relocate-Located f w here size temp u s enough (omega (arith, rest.grows)) n x moved)

pub relocate_all-Located :
    (fs : List Field) (w : Writer) (temp b : List ℕ) (j : ℕ) (g : Field) (s : List ℕ)
    → AllPlaced w fs
    → AllApart fs
    → fixed_len w ≤ length temp
    → length b < 2 ^ 31
    → relocate_all fs w temp ≡ some b
    → get_elem? fs j ≡ some g
    → g.type ≡ PropertyType.t_string
    → (g.nullable && check_null_bit g.null_flag_pos w) ≡ false
    → text_of g w ≡ some s
    → Located w (slot g w) s b
unfolding relocate_all
relocate_all-Located [] w temp b j g s placed apart enough room e at t n x = cc
relocate_all-Located (f ∷ fs) w temp b zero g s placed apart enough room e at t n x =
    let d : f ≡ g = cc in
    subst (λ h. Located w (slot h w) s b) d
      (head-Located f fs w temp b s placed apart enough room e (ap (λ h. h.type) d ∙ t)
        (subst (λ h. (h.nullable && check_null_bit h.null_flag_pos w) ≡ false) (sym d) n)
        (subst (λ h. text_of h w ≡ some s) (sym d) x))
relocate_all-Located (f ∷ fs) w temp b (suc j) g s placed apart enough room e at t n x =
    let (u, p, q) = >>=-eq-some (step_of f w temp) (relocate_all fs w) e in
    let first = step-Kept f w temp u (placed 0 f refl) enough p in
    relocate_all-Located fs w u b j g s (λ j g h. placed (suc j) g h)
      (λ i j f g a b ne. apart (suc i) (suc j) f g a b (λ r. ne (omega arith)))
      (omega (arith, first.grows)) room q at t n x
