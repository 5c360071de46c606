-- ===== src/Codec/Kept.antt =====
-- What RowWriterV2::processOutOfSpace keeps of a row while it moves one string.
use mathlib.Core.Option
use nebula_storage.Prelude.{
  ℕ, ◌+◌, ◌^◌, ◌≤◌, ◌<◌, ◌≡◌, refl, ap, sym, ◌∙◌, subst, false, ◌&&◌, List, [], ◌++◌, Option, none,
  some, arith, length, get_elem?, get_or, replicate, if◌then◌else◌, ltb, leb, ◌>>=◌, >>=-eq-some,
  ◌⊎◌, inl, inr, Bool-cases, length-append, append-nil,
}
use nebula_storage.Bytes.Words.{le_bytes, length-le_bytes}
use nebula_storage.Bytes.Pieces.{piece, read_int, piece_at}
use nebula_storage.Codec.Schema.{Field}
use nebula_storage.Codec.Buffer.{
  put, length-put, piece-put_self, piece-put_ne, piece-append_right, piece-append_in, get_or-put_ne,
  get_or-append,
}
use nebula_storage.Codec.Writer.{Writer, check_null_bit, slot}
use nebula_storage.Codec.Finish.{text_of, place_of, relocate}
use nebula_storage.Codec.Layout.{Placed}
use nebula_storage.Codec.Held.{fixed_len}
use nebula_storage.Codec.Frame.{held_at, held_text, some_if}
use nebula_storage.Codec.Writes.{read_place}
use nebula_storage.Codec.Joined.{HasText}

abbrev looked_up : Writer → ℕ → ℕ → Option (List ℕ)
looked_up w old len =
    if ltb 0 old && ltb old (2 ^ 31) then piece old len w.buf else get_elem? w.str_list len

looked_up-held :
    (w : Writer) (old len : ℕ) (s : List ℕ)
    → held_at w old len ≡ some s
    → looked_up w old len ≡ some s
looked_up-held w old len s e = elim (Bool-cases (ltb 0 old && ltb old (2 ^ 31))) [
  | inl inside ↦
      rw inside (some_if (leb (fixed_len w) old) (piece old len w.buf) (rw inside at e)).1
  | inr beside ↦ rw beside (rw beside at e)
]

-- What the writer looks up is what the column holds.
pub text_of-held :
    (f : Field) (w : Writer) (s : List ℕ) → held_text f w ≡ some s → text_of f w ≡ some s
unfolding text_of
text_of-held f w s e =
    let (old, p, q) = >>=-eq-some (read_int (slot f w) 4 w.buf) _ e in
    let (len, a, b) = >>=-eq-some (read_int (slot f w + 4) 4 w.buf) _ q in
    ap (λ o. o >>= λ x. read_int (slot f w + 4) 4 w.buf >>= looked_up w x) p
    ∙ ap (λ o. o >>= looked_up w old) a
    ∙ looked_up-held w old len s b

abbrev pub Located : Writer → ℕ → List ℕ → List ℕ → Type 0
Located w off s b = HasText (fixed_len w) off s b

-- `b` keeps `temp` but for the slots that `Free` does not hold of, and grows at its end.
pub record Kept (w : Writer) (Free : ℕ → ℕ → Type 0) (temp b : List ℕ) : Type 0 where
  pub grows : length temp ≤ length b
  pub frame : (o n : ℕ) → o + n ≤ fixed_len w → Free o n → piece o n b ≡ piece o n temp
  pub tail :
      (o n : ℕ) (p : List ℕ) → fixed_len w ≤ o → piece o n temp ≡ some p → piece o n b ≡ some p
  pub flags : (k : ℕ) → k < w.header_len + w.num_null_bytes → get_or b k 0 ≡ get_or temp k 0

abbrev pub Off : Writer → Field → ℕ → ℕ → Type 0
Off w f o n = (o + n ≤ slot f w) ⊎ (slot f w + f.size ≤ o)

pub some_eq : {x y : List ℕ} → some x ≡ some y → x ≡ y
some_eq e = cc

map_bind : (o : Option (List ℕ)) (g : List ℕ → List ℕ) → (o >>= λ s. some (g s)) ≡ Option.map g o
map_bind none g = refl
map_bind (some s) g = refl

length-place : (temp s : List ℕ) → length (place_of temp s) ≡ 8
length-place temp s = omega (
  arith,
  length-append (le_bytes 4 (length temp)) (le_bytes 4 (length s)),
  length-le_bytes 4 (length temp),
  length-le_bytes 4 (length s),
)

module _ (f : Field) (w : Writer) (placed : Placed w.schema 0 0 f) (size : f.size ≡ 8) where
  -- The slot is rewritten, behind a text that is added.
  put-Kept :
      (bs s temp : List ℕ)
      → length bs ≡ 8
      → fixed_len w ≤ length temp
      → Kept w (Off w f) temp (put (slot f w) bs (temp ++ s))
  unfolding slot
  put-Kept bs s temp e enough = record {
    grows = omega (arith, length-put (slot f w) bs (temp ++ s), length-append temp s);
    frame = λ o n h free.
        piece-put_ne o n (slot f w) bs (temp ++ s) (omega arith)
        ∙ piece-append_in o n temp s (omega arith);
    tail = λ o n p h q.
        piece-put_ne o n (slot f w) bs (temp ++ s) (omega arith)
        ∙ piece-append_right o n temp s p q;
    flags = λ k h.
        get_or-put_ne (slot f w) bs (temp ++ s) k (omega arith)
        ∙ get_or-append temp s k (omega arith);
  }

  put-Located :
      (s temp : List ℕ)
      → fixed_len w ≤ length temp
      → length temp + length s < 2 ^ 31
      → Located w (slot f w) s (put (slot f w) (place_of temp s) (temp ++ s))
  unfolding slot
  put-Located s temp enough room =
      let bs = place_of temp s in
      let e : length bs ≡ 8 = length-place temp s in
      let own : piece (slot f w) (length bs) (put (slot f w) bs (temp ++ s)) ≡ some bs =
        piece-put_self (slot f w) bs (temp ++ s) (omega (arith, length-append temp s)) in
      let r =
        read_place (length temp) (length s) (slot f w) (length bs) (put (slot f w) bs (temp ++ s))
          (omega arith) (omega arith) own in
      let there : piece (length temp) (length s) (temp ++ s) ≡ some s =
        piece_at (length temp) (length s) (temp ++ s) temp s []
          (ap (◌++◌ temp) (sym (append-nil s))) refl refl in
      (
        length temp,
        r.0,
        r.1,
        piece-put_ne (length temp) (length s) (slot f w) bs (temp ++ s) (omega arith) ∙ there,
        enough,
      )

  pub relocate-Kept :
      (temp b : List ℕ)
      → fixed_len w ≤ length temp
      → relocate f w temp ≡ some b
      → Kept w (Off w f) temp b
  unfolding relocate
  relocate-Kept temp b enough e =
      elim (Bool-cases (f.nullable && check_null_bit f.null_flag_pos w)) [
        | inl null ↦
            subst (Kept w (Off w f) temp)
              (ap (put (slot f w) (replicate 8 0)) (append-nil temp) ∙ some_eq (rw null at e))
              (put-Kept (replicate 8 0) [] temp refl enough)
        | inr there ↦
            let (s, t, q) =
              >>=-eq-some (text_of f w) (λ s. some (put (slot f w) (place_of temp s) (temp ++ s)))
                (map_bind (text_of f w) _ ∙ (rw there at e)) in
            subst (Kept w (Off w f) temp) (some_eq q)
              (put-Kept (place_of temp s) s temp (length-place temp s) enough)
      ]

  pub relocate-Located :
      (temp b s : List ℕ)
      → fixed_len w ≤ length temp
      → length b < 2 ^ 31
      → (f.nullable && check_null_bit f.null_flag_pos w) ≡ false
      → text_of f w ≡ some s
      → relocate f w temp ≡ some b
      → Located w (slot f w) s b
  unfolding relocate
  relocate-Located temp b s enough room there t e =
      let q : put (slot f w) (place_of temp s) (temp ++ s) ≡ b = some_eq (rw (there, t) at e) in
      subst (Located w (slot f w) s) q (
        put-Located s temp enough (
          omega (
            arith,
            ap length q,
            length-put (slot f w) (place_of temp s) (temp ++ s),
            length-append temp s,
          )))
