-- ===== src/Codec/Relocate.antt =====
-- RowWriterV2::finish: the bytes that it makes of the buffer, with processOutOfSpace where a string
-- stands beside the row, hold every column.
use nebula_storage.Prelude.{
  ℕ, ◌+◌, ◌^◌, ◌≤◌, ◌<◌, ◌≡◌, ◌≢◌, refl, ap, sym, ◌∙◌, true, false, ◌&&◌, List, [], ◌∷◌, some,
  arith, length, get_elem?, get_or, take, drop, take-append-drop, ltb, leb, >>=-eq-some, inl, inr,
  Bool-cases, length-take, leb→le,
}
use nebula_storage.Bytes.Pieces.{piece, read_int, length-piece}
use nebula_storage.Codec.Schema.{Field}
use nebula_storage.Codec.Buffer.{piece-append_in, get_or-append}
use nebula_storage.Codec.Writer.{Writer, slot}
use nebula_storage.Codec.Finish.{process_out_of_space}
use nebula_storage.Codec.Layout.{Placed, Apart, column-Placed, columns-Apart}
use nebula_storage.Codec.Held.{fixed_len, IsWriter}
use nebula_storage.Codec.Frame.{held_at, some_if}
use nebula_storage.Codec.Joined.{Joined}
use nebula_storage.Codec.Kept.{text_of-held, Off}
use nebula_storage.Codec.Moved.{AllPlaced, relocate_all-Kept, AllApart, relocate_all-Located}

before_slot : (w : Writer) (g : Field) → 0 + w.header_len ≤ slot g w
unfolding slot
before_slot w g = omega arith

in_slots : (w : Writer) (f : Field) → Placed w.schema 0 0 f → slot f w + f.size ≤ fixed_len w
unfolding slot
in_slots w f p = omega arith

other_slot : (w : Writer) (f g : Field) → Apart f g → Off w g (slot f w) f.size
unfolding slot
other_slot w f g a = omega arith

same_at :
    (fs : List Field) (i j : ℕ) (f g : Field)
    → i ≡ j
    → get_elem? fs i ≡ some f
    → get_elem? fs j ≡ some g
    → f.type ≡ g.type
same_at fs i j f g e a b = let p : f ≡ g = cc in ap (λ x. x.type) p

nothing_there : (l : List (List ℕ)) (k : ℕ) (s : List ℕ) → l ≡ [] → get_elem? l k ≢ some s
nothing_there [] k s e h = cc
nothing_there (x ∷ l) k s e h = cc

inside_text :
    (w : Writer) (old len : ℕ) (s : List ℕ)
    → w.str_list ≡ []
    → held_at w old len ≡ some s
    → (leb (fixed_len w) old ≡ true) × (piece old len w.buf ≡ some s)
inside_text w old len s e h = elim (Bool-cases (ltb 0 old && ltb old (2 ^ 31))) [
  | inl inside ↦ some_if (leb (fixed_len w) old) (piece old len w.buf) (rw inside at h)
  | inr beside ↦
      let q : get_elem? w.str_list len ≡ some s = rw beside at h in
      absurd (nothing_there w.str_list len s e q)
]

module _ (w : Writer) (ok : IsWriter w) where
  all_placed : AllPlaced w w.schema.fields
  all_placed = column-Placed w.schema ok.laid

  all_apart : AllApart w.schema.fields
  all_apart = columns-Apart w.schema ok.laid

  -- Without strings beside the row, the buffer holds the columns as it is.
  pub inside-Joined : w.out_of_space_str ≡ false → Joined w w.buf
  inside-Joined e = record {
    enough = ok.fits_buf;
    front = refl;
    flags = λ k h. refl;
    slots = λ i f at t. refl;
    texts = λ i f s at t n h.
        let (old, p, q) = >>=-eq-some (read_int (slot f w) 4 w.buf) _ h in
        let (len, a, b) = >>=-eq-some (read_int (slot f w + 4) 4 w.buf) _ q in
        let there = inside_text w old len s (ok.beside e) b in
        let size : length s ≡ len = (length-piece old len w.buf s there.1).0 in
        (
          old,
          p,
          a ∙ ap some (sym size),
          ap (λ m. piece old m w.buf) size ∙ there.1,
          leb→le (fixed_len w) old there.0,
        );
  }

  take_front :
      (o n : ℕ) → o + n ≤ fixed_len w → piece o n (take (fixed_len w) w.buf) ≡ piece o n w.buf
  take_front o n h =
      let k = fixed_len w in
      sym (
        piece-append_in o n (take k w.buf) (drop k w.buf)
          (omega (arith, length-take k w.buf, ok.fits_buf)))
      ∙ ap (piece o n) (take-append-drop k w.buf)

  take_flag : (i : ℕ) → i < fixed_len w → get_or (take (fixed_len w) w.buf) i 0 ≡ get_or w.buf i 0
  take_flag i h =
      let k = fixed_len w in
      sym (
        get_or-append (take k w.buf) (drop k w.buf) i
          (omega (arith, length-take k w.buf, ok.fits_buf)))
      ∙ ap (λ l. get_or l i 0) (take-append-drop k w.buf)

  Apart-types :
      (i j : ℕ) (f g : Field)
      → get_elem? w.schema.fields i ≡ some f
      → get_elem? w.schema.fields j ≡ some g
      → f.type ≢ g.type
      → Apart f g
  Apart-types i j f g a b ne =
      all_apart i j f g a b (λ e. ne (same_at w.schema.fields i j f g e a b))

  pub relocated-Joined :
      (b : List ℕ) → length b < 2 ^ 31 → process_out_of_space w ≡ some b → Joined w b
  unfolding process_out_of_space
  relocated-Joined b room e =
      let u = take (fixed_len w) w.buf in
      let long : fixed_len w ≤ length u =
        omega (arith, length-take (fixed_len w) w.buf, ok.fits_buf) in
      let k = relocate_all-Kept w.schema.fields w u b all_placed long e in
      record {
        enough = omega (arith, k.grows);
        front =
            k.frame 0 w.header_len (omega arith) (λ j g at gt. inl (before_slot w g))
            ∙ take_front 0 w.header_len (omega arith);
        flags = λ i h.
            k.flags (w.header_len + i) (omega arith) ∙ take_flag (w.header_len + i) (omega arith);
        slots = λ i f at ne.
            k.frame (slot f w) f.size (in_slots w f (all_placed i f at))
              (λ j g gat gt. other_slot w f g (Apart-types i j f g at gat (λ q. ne (q ∙ gt))))
            ∙ take_front (slot f w) f.size (in_slots w f (all_placed i f at));
        texts = λ i f s at t n h.
            relocate_all-Located w.schema.fields w u b i f s all_placed all_apart long room e at t n
              (text_of-held f w s h);
      }
