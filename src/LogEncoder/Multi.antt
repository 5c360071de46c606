-- ===== src/LogEncoder/Multi.antt =====
-- encodeMultiValues, in its three forms, and decodeMultiValues.
use nebula_storage.Prelude.{
  ℕ, zero, suc, ◌+◌, ◌*◌, ◌%◌, ◌^◌, ◌<◌, ◌≡◌, refl, ap, ◌∙◌, sym, List, [], ◌∷◌, ◌++◌, Option, some,
  arith, length, All, length-append, append_assoc, append-nil, take_all, ◌>>=◌,
}
use nebula_storage.Bytes.Words.{le_bytes, length-le_bytes}
use nebula_storage.Bytes.Pieces.{piece, read_int, piece_at, read_int_at}
use nebula_storage.LogEncoder.{LogType, log_head, sized}
use nebula_storage.LogEncoder.Single.{length-log_head, read_head}

-- A string whose length a uint32_t holds.
abbrev pub IsShort : List ℕ → Type 0
IsShort v = length v < 2 ^ 32

unfoldable pub sized_all : List (List ℕ) → List ℕ
sized_all [] = []
sized_all (v ∷ vs) = sized v ++ sized_all vs

unfoldable pub encode_multi_values : ℕ → LogType → List (List ℕ) → List ℕ
encode_multi_values now type values = log_head now type (length values % 2 ^ 32) ++ sized_all values

unfoldable pub sized_pairs : List (List ℕ × List ℕ) → List ℕ
sized_pairs [] = []
sized_pairs ((k, v) ∷ kvs) = sized k ++ (sized v ++ sized_pairs kvs)

unfoldable pub encode_multi_pairs : ℕ → LogType → List (List ℕ × List ℕ) → List ℕ
encode_multi_pairs now type kvs = log_head now type (2 * length kvs % 2 ^ 32) ++ sized_pairs kvs

unfoldable pub encode_two_values : ℕ → LogType → List ℕ → List ℕ → List ℕ
encode_two_values now type v1 v2 = log_head now type 2 ++ (sized v1 ++ sized v2)

-- The loop over the values, with the offset of `p`.
unfoldable pub decode_values : ℕ → ℕ → List ℕ → Option (List (List ℕ))
decode_values zero p s = some []
decode_values (suc n) p s = do
  len ← read_int p 4 s
  v ← piece (p + 4) len s
  vs ← decode_values n (p + (4 + len)) s
  some (v ∷ vs)

unfoldable pub decode_multi_values : List ℕ → Option (List (List ℕ))
decode_multi_values encoded = do
  num ← read_int (8 + 1) 4 encoded
  decode_values num (8 + 1 + 4) encoded

-- Keys and values in turn.
abbrev pub flatten_pairs : List (List ℕ × List ℕ) → List (List ℕ)
flatten_pairs [] = []
flatten_pairs ((k, v) ∷ kvs) = k ∷ v ∷ flatten_pairs kvs

sized_short : (v : List ℕ) → IsShort v → sized v ≡ le_bytes 4 (length v) ++ v
unfolding sized
sized_short v h =
    let small : length v % 2 ^ 32 ≡ length v = omega arith in
    rw (small, take_all (length v) v (omega arith))

-- One round of the loop, wherever it stands in the string.
one_value :
    (p : ℕ) (s before v after : List ℕ)
    → IsShort v
    → s ≡ before ++ ((le_bytes 4 (length v) ++ v) ++ after)
    → length before ≡ p
    → (read_int p 4 s ≡ some (length v))
      × (piece (p + 4) (length v) s ≡ some v)
      × (s ≡ (before ++ (le_bytes 4 (length v) ++ v)) ++ after)
      × (length (before ++ (le_bytes 4 (length v) ++ v)) ≡ p + (4 + length v))
one_value p s before v after h e eb =
    let l = le_bytes 4 (length v) in
    (
      read_int_at p 4 (length v) s before (v ++ after)
          (e ∙ ap (◌++◌ before) (append_assoc l v after)) eb (omega arith),
      piece_at (p + 4) (length v) s (before ++ l) v after (e ∙ simp append_assoc)
          (omega (arith, length-append before l, length-le_bytes 4 (length v))) refl,
      e ∙ sym (append_assoc before (l ++ v) after),
      omega (arith, length-append before (l ++ v), length-append l v, length-le_bytes 4 (length v)),
    )

pub decode_values-sized_all :
    (vs : List (List ℕ)) (p : ℕ) (s before after : List ℕ)
    → All IsShort vs
    → s ≡ before ++ (sized_all vs ++ after)
    → length before ≡ p
    → decode_values (length vs) p s ≡ some vs
unfolding decode_values sized_all
decode_values-sized_all [] p s before after h e eb = refl
decode_values-sized_all (v ∷ vs) p s before after (hv, hvs) e eb =
    let e' : s ≡ before ++ ((le_bytes 4 (length v) ++ v) ++ (sized_all vs ++ after)) =
      e ∙ rw (sized_short v hv, append_assoc (le_bytes 4 (length v) ++ v)) in
    let (len, val, split, offset) = one_value p s before v (sized_all vs ++ after) hv e' eb in
    rw (len, val, decode_values-sized_all vs (p + (4 + length v)) s _ after hvs split offset)

-- Strings shorter than 4 GB, fewer than 2 ^ 32, come back as they were.
pub decode_multi_values-encode :
    (now : ℕ) (type : LogType) (values : List (List ℕ))
    → length values < 2 ^ 32
    → All IsShort values
    → decode_multi_values (encode_multi_values now type values) ≡ some values
unfolding decode_multi_values encode_multi_values
decode_multi_values-encode now type values hn h =
    let small : length values % 2 ^ 32 ≡ length values = omega arith in
    rw (small, read_head now (length values) type (sized_all values) hn)
      (decode_values-sized_all values (8 + 1 + 4) _ (log_head now type (length values)) [] h
        (simp append-nil) (length-log_head now (length values) type))

length-flatten_pairs : (kvs : List (List ℕ × List ℕ)) → length (flatten_pairs kvs) ≡ 2 * length kvs
length-flatten_pairs [] = refl
length-flatten_pairs ((k, v) ∷ kvs) = omega (arith, length-flatten_pairs kvs)

sized_pairs-flatten :
    (kvs : List (List ℕ × List ℕ)) → sized_pairs kvs ≡ sized_all (flatten_pairs kvs)
unfolding sized_pairs sized_all
sized_pairs-flatten [] = refl
sized_pairs-flatten ((k, v) ∷ kvs) =
    ap (λ (r : List ℕ). sized k ++ (sized v ++ r)) (sized_pairs-flatten kvs)

-- Pairs are written as their keys and values in turn, so one decoder serves both.
pub encode_multi_pairs-flatten :
    (now : ℕ) (type : LogType) (kvs : List (List ℕ × List ℕ))
    → encode_multi_pairs now type kvs ≡ encode_multi_values now type (flatten_pairs kvs)
unfolding encode_multi_pairs encode_multi_values
encode_multi_pairs-flatten now type kvs = rw (length-flatten_pairs kvs, sized_pairs-flatten kvs)

-- Of fewer than 2 ^ 31 pairs of strings shorter than 4 GB the decoder gives the keys and the
-- values in turn.
pub decode_multi_values-encode_pairs :
    (now : ℕ) (type : LogType) (kvs : List (List ℕ × List ℕ))
    → 2 * length kvs < 2 ^ 32
    → All IsShort (flatten_pairs kvs)
    → decode_multi_values (encode_multi_pairs now type kvs) ≡ some (flatten_pairs kvs)
decode_multi_values-encode_pairs now type kvs hn h = rw (encode_multi_pairs-flatten now type kvs) (
    decode_multi_values-encode now type (flatten_pairs kvs)
      (omega (arith, length-flatten_pairs kvs)) h)

-- The form for two strings, by which a range is removed, writes what the form for a list does.
pub encode_two_values-list :
    (now : ℕ) (type : LogType) (v1 v2 : List ℕ)
    → encode_two_values now type v1 v2 ≡ encode_multi_values now type (v1 ∷ v2 ∷ [])
unfolding encode_two_values encode_multi_values sized_all
encode_two_values-list now type v1 v2 = rw append-nil
