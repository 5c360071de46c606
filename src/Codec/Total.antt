-- ===== src/Codec/Total.antt =====
-- RowWriterV2::finish never aborts on a row whose columns are all there.
use mathlib.Core.Option
use nebula_storage.Prelude.{
  ℕ, suc, ◌+◌, ◌≡◌, refl, ap, sym, ◌∙◌, false, ◌&&◌, List, [], ◌∷◌, ◌++◌, some, get_elem?, take,
  replicate, if◌then◌else◌, inl, inr, Bool-cases,
}
use nebula_storage.Codec.Schema.{Value, PropertyType, Field}
use nebula_storage.Codec.Buffer.{put}
use nebula_storage.Codec.Cells.{WriteResult, Conversions}
use nebula_storage.Codec.Writer.{Writer, check_null_bit, slot}
use nebula_storage.Codec.Finish.{
  text_of, place_of, is_string, relocate, relocate_all, process_out_of_space, joined_buf, finish,
}
use nebula_storage.Codec.Frame.{held, held_slot, held_text, map-eq-some}
use nebula_storage.Codec.Kept.{text_of-held}
use nebula_storage.Codec.Moved.{is_string_type}
use nebula_storage.Codec.Closed.{AllSet, closed_row, finish_all_set}

-- The column has a value.
abbrev pub HasValue : Conversions → Writer → Field → Type 0
HasValue c w f = (u : Value) × (held c f w ≡ some u)

text_there :
    (c : Conversions) (w : Writer) (f : Field)
    → HasValue c w f
    → f.type ≡ PropertyType.t_string
    → (f.nullable && check_null_bit f.null_flag_pos w) ≡ false
    → (s : List ℕ) × (text_of f w ≡ some s)
text_there c w f (u, h) t n =
    let q : held_slot c PropertyType.t_string f w ≡ some u =
      ap (λ y. held_slot c y f w) (sym t)
      ∙ ap (λ b. if b then some Value.null else held_slot c f.type f w) {x = false} (sym n)
      ∙ h in
    let (s, there, _) = map-eq-some (held_text f w) q in (s, text_of-held f w s there)

relocate-total :
    (c : Conversions) (w : Writer) (f : Field) (temp : List ℕ)
    → HasValue c w f
    → f.type ≡ PropertyType.t_string
    → (b : List ℕ) × (relocate f w temp ≡ some b)
unfolding relocate
relocate-total c w f temp h t = elim (Bool-cases (f.nullable && check_null_bit f.null_flag_pos w)) [
  | inl null ↦ (put (slot f w) (replicate 8 0) temp, rw null refl)
  | inr there ↦
      let (s, e) = text_there c w f h t there in
      (put (slot f w) (place_of temp s) (temp ++ s), rw (there, e) refl)
]

relocate_all-total :
    (c : Conversions) (w : Writer) (fs : List Field) (temp : List ℕ)
    → ((j : ℕ) (g : Field) → get_elem? fs j ≡ some g → HasValue c w g)
    → (b : List ℕ) × (relocate_all fs w temp ≡ some b)
unfolding relocate_all
relocate_all-total c w [] temp h = (temp, refl)
relocate_all-total c w (f ∷ fs) temp h = elim (Bool-cases (is_string f.type)) [
  | inl text ↦
      let (u, p) = relocate-total c w f temp (h 0 f refl) (is_string_type f.type text) in
      let (b, q) = relocate_all-total c w fs u (λ j g e. h (suc j) g e) in (b, rw (text, p) q)
  | inr other ↦
      let (b, q) = relocate_all-total c w fs temp (λ j g e. h (suc j) g e) in (b, rw other q)
]

joined_buf-total :
    (c : Conversions) (w : Writer)
    → ((j : ℕ) (g : Field) → get_elem? w.schema.fields j ≡ some g → HasValue c w g)
    → (b : List ℕ) × (joined_buf w ≡ some b)
unfolding joined_buf process_out_of_space
joined_buf-total c w h = elim (Bool-cases w.out_of_space_str) [
  | inl beside ↦
      let (b, e) =
        relocate_all-total c w w.schema.fields
          (take (w.header_len + w.num_null_bytes + w.schema.row_size) w.buf) h in
      (b, ap (λ o. if o then process_out_of_space w else some w.buf) beside ∙ e)
  | inr inside ↦ (w.buf, ap (λ o. if o then process_out_of_space w else some w.buf) inside)
]

-- Where every column is set and has a value, a row that is not finished yet is finished with success.
pub finish-succeeds :
    (c : Conversions) (now : ℕ) (w : Writer)
    → AllSet w
    → w.finished ≡ false
    → ((j : ℕ) (g : Field) → get_elem? w.schema.fields j ≡ some g → HasValue c w g)
    → (x : Writer) × (finish c now w ≡ some (x, WriteResult.succeeded))
finish-succeeds c now w set open_row h =
    let (b, e) = joined_buf-total c w h in
    (
      (closed_row now w b).0,
      finish_all_set c now w set open_row ∙ ap (Option.map (closed_row now w)) e,
    )
