-- ===== src/Codec/Closed.antt =====
-- What RowWriterV2::finish appends, and the row as RowReaderV2 reads it.
use mathlib.Core.Option
use nebula_storage.Prelude.{
  ℕ, suc, ◌+◌, ◌-◌, ◌%◌, ◌^◌, ◌≤◌, ◌<◌, ◌≡◌, refl, ap, sym, ◌∙◌, subst, true, false, List, [], ◌∷◌,
  ◌++◌, none, some, arith, length, get_elem?, get_or, if◌then◌else◌, ◌>>=◌, inl, inr, Bool-cases,
  Option-cases, length-append, append-nil,
}
use nebula_storage.Bytes.Words.{le_bytes, of_le, length-le_bytes}
use nebula_storage.Bytes.Pieces.{piece, read_int, piece_halves, read_int_at}
use nebula_storage.Codec.Schema.{Value, Field}
use nebula_storage.Codec.Buffer.{piece-append_right}
use nebula_storage.Codec.Cells.{WriteResult, Conversions}
use nebula_storage.Codec.Writer.{Writer, version_bytes, header, fill_field, check_unset_fields}
use nebula_storage.Codec.Finish.{process_out_of_space, joined_buf, close, finish}
use nebula_storage.Codec.Reader.{Reader, new_reader, get_value_by_index, get_timestamp}
use nebula_storage.Codec.Held.{IsWriter}
use nebula_storage.Codec.Frame.{held}
use nebula_storage.Codec.Joined.{Joined, row_reader, get_value_by_index-held}
use nebula_storage.Codec.Relocate.{inside-Joined, relocated-Joined}

-- A version fits into its bytes, which are seven at most.
pub version_bytes-le : (v n : ℕ) → version_bytes v ≡ some n → n ≤ 7
unfolding version_bytes
version_bytes-le v n e = ground arith

pub version_bytes-lt : (v n : ℕ) → v < 2 ^ 63 → version_bytes v ≡ some n → v < 256 ^ n
unfolding version_bytes
version_bytes-lt v n h e = ground arith

some_eq : {x y : List ℕ} → some x ≡ some y → x ≡ y
some_eq e = cc

-- Every column has been written.
abbrev pub AllSet : Writer → Type 0
AllSet w = (i : ℕ) → i < length w.schema.fields → get_or w.is_set i false ≡ true

check_all_set :
    (c : Conversions) (i : ℕ) (fs : List Field) (w : Writer)
    → ((j : ℕ) → j < length fs → get_or w.is_set (i + j) false ≡ true)
    → check_unset_fields c i fs w ≡ some (w, WriteResult.succeeded)
unfolding check_unset_fields fill_field
check_all_set c i [] w h = refl
check_all_set c i (f ∷ fs) w h =
    rw (ap (λ k. get_or w.is_set k false) {x = i} {y = i + 0} (omega arith) ∙ h 0 (omega arith)) (
      check_all_set c (suc i) fs w (λ j l.
        ap (λ k. get_or w.is_set k false) {x = suc i + j} {y = i + suc j} (omega arith)
        ∙ h (suc j) (omega arith)))

-- The header of the finished row is that of the writer.
module _ (w : Writer) (ok : IsWriter w) (b t : List ℕ) (joined : Joined w b) where
  header_there :
      piece 0 w.header_len (b ++ t)
      ≡ some ((8 + (w.header_len - 1)) ∷ le_bytes (w.header_len - 1) w.schema.version)
  unfolding header
  header_there =
      piece-append_right 0 w.header_len b t (header (w.header_len - 1) w.schema.version)
        (joined.front ∙ ok.written)

  pub header_halves :
      (read_int 0 1 (b ++ t) ≡ some (8 + (w.header_len - 1)))
      × (piece 1 (w.header_len - 1) (b ++ t) ≡ some (le_bytes (w.header_len - 1) w.schema.version))
  unfolding read_int of_le
  header_halves =
      let n = w.header_len - 1 in
      let h =
        piece_halves 0 w.header_len (b ++ t) ((8 + n) ∷ []) (le_bytes n w.schema.version)
          header_there in
      (
        rw h.0 (ap some (omega arith)),
        ap (λ m. piece 1 m (b ++ t)) (sym (length-le_bytes n w.schema.version)) ∙ h.1,
      )

  -- The reader finds the header's length.
  new_reader-row_reader : new_reader w.schema (b ++ t) ≡ some (row_reader w (b ++ t))
  unfolding new_reader
  new_reader-row_reader =
      let n = version_bytes-le w.schema.version (w.header_len - 1) ok.versioned in
      let e : (8 + (w.header_len - 1)) % 8 + 1 ≡ w.header_len = omega (arith, n, ok.headed) in
      rw header_halves.0 (cc (e, ok.flagged))

abbrev pub closed_row : ℕ → Writer → List ℕ → Writer × WriteResult
closed_row now w b =
    (record w { buf = b ++ le_bytes 8 now; finished = true }, WriteResult.succeeded)

module _ (c : Conversions) (now : ℕ) (w : Writer) (set : AllSet w) where
  pub finish_all_set :
      w.finished ≡ false → finish c now w ≡ Option.map (closed_row now w) (joined_buf w)
  unfolding finish close
  finish_all_set e =
      ap (λ b. if b then none else check_unset_fields c 0 w.schema.fields w >>= close now) e
      ∙ ap (λ o. o >>= close now)
          (check_all_set c 0 w.schema.fields w
            (λ j h. ap (λ k. get_or w.is_set k false) {x = 0 + j} {y = j} (omega arith) ∙ set j h))

row_of :
    (now : ℕ) (w x : Writer) (b : List ℕ)
    → some (closed_row now w b) ≡ some (x, WriteResult.succeeded)
    → b ++ le_bytes 8 now ≡ x.buf
row_of now w x b e = ground arith

joined_buf-Joined :
    (w : Writer) (b : List ℕ) → IsWriter w → length b < 2 ^ 31 → joined_buf w ≡ some b → Joined w b
unfolding joined_buf
joined_buf-Joined w b ok room e = elim (Bool-cases w.out_of_space_str) [
  | inl beside ↦
      relocated-Joined w ok b room
        (ap (λ o. if o then process_out_of_space w else some w.buf) {x = true} (sym beside) ∙ e)
  | inr inside ↦
      let q : w.buf ≡ b =
        some_eq (
          ap (λ o. if o then process_out_of_space w else some w.buf) {x = false} (sym inside)
          ∙ e) in
      subst (Joined w) q (inside-Joined w ok inside)
]

finish_open :
    (c : Conversions) (now : ℕ) (w : Writer) (p : Writer × WriteResult)
    → finish c now w ≡ some p
    → w.finished ≡ false
unfolding finish
finish_open c now w p e = elim (Bool-cases w.finished) [ inl done ↦ cc | inr still ↦ still ]

-- The bytes behind which a successful finish puts the time.
pub finished_bytes :
    (c : Conversions) (now : ℕ) (w x : Writer)
    → IsWriter w
    → AllSet w
    → length x.buf < 2 ^ 31
    → finish c now w ≡ some (x, WriteResult.succeeded)
    → (b : List ℕ) × Joined w b × (x.buf ≡ b ++ le_bytes 8 now)
finished_bytes c now w x ok set room e =
    let q = sym (finish_all_set c now w set (finish_open c now w _ e)) ∙ e in
    elim (Option-cases (joined_buf w)) [
      | inl lost ↦ cc
      | inr (b, there) ↦
          let same : b ++ le_bytes 8 now ≡ x.buf =
            row_of now w x b (ap (Option.map (closed_row now w)) (sym there) ∙ q) in
          (
            b,
            joined_buf-Joined w b ok
                (omega (arith, ap length same, length-append b (le_bytes 8 now))) there,
            sym same,
          )
    ]

time_read :
    (w : Writer) (row b : List ℕ) (now : ℕ)
    → now < 2 ^ 64
    → row ≡ b ++ le_bytes 8 now
    → get_timestamp (row_reader w row) ≡ some now
unfolding get_timestamp
time_read w row b now clock e =
    read_int_at (length row - 8) 8 now row b []
      (e ∙ ap (◌++◌ b) (sym (append-nil (le_bytes 8 now))))
      (omega (arith, ap length e, length-append b (le_bytes 8 now), length-le_bytes 8 now))
      (omega arith)

-- Where every column of a well-formed writer is set, the finished row is shorter than 2 ^ 31 bytes and
-- the clock is below 2 ^ 64: the row is read with each column as the writer held it, and with the clock
-- at its end.
pub finish-get_value_by_index :
    (c : Conversions) (now i : ℕ) (w x : Writer) (f : Field) (u : Value)
    → IsWriter w
    → AllSet w
    → now < 2 ^ 64
    → length x.buf < 2 ^ 31
    → finish c now w ≡ some (x, WriteResult.succeeded)
    → get_elem? w.schema.fields i ≡ some f
    → held c f w ≡ some u
    → (r : Reader) × (new_reader w.schema x.buf ≡ some r)
      × (get_value_by_index c i r ≡ some (some u))
      × (get_timestamp r ≡ some now)
finish-get_value_by_index c now i w x f u ok set clock room e at h =
    let (b, joined, q) = finished_bytes c now w x ok set room e in
    let t = le_bytes 8 now in
    (
      row_reader w (b ++ t),
      ap (new_reader w.schema) q ∙ new_reader-row_reader w ok b t joined,
      get_value_by_index-held c w b t ok joined (omega (arith, length-le_bytes 8 now)) i f at u h,
      time_read w (b ++ t) b now clock refl,
    )
