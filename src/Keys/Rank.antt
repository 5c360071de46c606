-- ===== src/Keys/Rank.antt =====
-- NebulaKeyUtils::encodeRank and decodeRank, which are also IndexKeyUtils::encodeInt64 and
-- decodeInt64: an int64_t with its sign bit flipped, highest byte first.
use Prim.Native.Nat.{compare, Ordering}
use mathlib.Core.List.{reverse, reverse-reverse}
use mathlib.Core.Option
use nebula_storage.Prelude.{
  ℕ, ◌+◌, ◌-◌, ◌%◌, ◌^◌, ◌<◌, ◌≡◌, ap, ◌∙◌, List, ◌++◌, Option, some, arith, length, ltb,
  if◌then◌else◌,
}
use nebula_storage.Bytes.Words.{le_bytes, of_le, of_le-le_bytes}
use nebula_storage.Bytes.Pieces.{piece, piece-append}
use nebula_storage.Bytes.Order.{be_bytes, lex_compare, length-be_bytes, lex_compare-be_bytes}

-- `v ^ (1 << 63)` on 64 bits flips the top bit, which adding 2 ^ 63 does too.
abbrev pub flip_sign : ℕ → ℕ
flip_sign v = (v + 2 ^ 63) % 2 ^ 64

unfoldable pub encode_int64 : ℕ → List ℕ
encode_int64 v = be_bytes 8 (flip_sign v)

-- `decodeInt64(raw.data() + off)`.
unfoldable pub decode_int64 : ℕ → List ℕ → Option ℕ
decode_int64 off raw = Option.map (λ bs. flip_sign (of_le (reverse bs))) (piece off 8 raw)

-- The integer that a bit pattern of 64 bits stands for.
pub data ℤ : Type 0 where
  pos : ℕ → ℤ
  negsuc : ℕ → ℤ

abbrev pub signed64 : ℕ → ℤ
signed64 w = if ltb w (2 ^ 63) then pos w else negsuc (2 ^ 64 - w - 1)

abbrev pub compare_ℤ : ℤ → ℤ → Ordering
compare_ℤ (pos a) (pos b) = compare a b
compare_ℤ (pos a) (negsuc b) = Ordering.gt
compare_ℤ (negsuc a) (pos b) = Ordering.lt
compare_ℤ (negsuc a) (negsuc b) = compare b a

pub length-encode_int64 : (v : ℕ) → length (encode_int64 v) ≡ 8
unfolding encode_int64
length-encode_int64 v = length-be_bytes 8 (flip_sign v)

flip_sign_twice : (v : ℕ) → v < 2 ^ 64 → flip_sign (flip_sign v) ≡ v
flip_sign_twice v h = omega arith

decode_bytes : (v : ℕ) → v < 2 ^ 64 → of_le (reverse (be_bytes 8 v)) ≡ v
unfolding be_bytes
decode_bytes v h = rw (reverse-reverse (le_bytes 8 v)) (of_le-le_bytes 8 v h)

-- An int64_t is read back from wherever in a string its encoding stands.
pub decode_int64-encode_int64 :
    (off v : ℕ) (before after : List ℕ)
    → length before ≡ off
    → v < 2 ^ 64
    → decode_int64 off (before ++ (encode_int64 v ++ after)) ≡ some v
unfolding decode_int64 encode_int64
decode_int64-encode_int64 off v before after eb hv =
    ap (Option.map (λ (bs : List ℕ). flip_sign (of_le (reverse bs)))) (
      piece-append off 8 before (be_bytes 8 (flip_sign v)) after eb
        (length-be_bytes 8 (flip_sign v)))
    ∙ ap some (ap flip_sign (decode_bytes (flip_sign v) (omega arith)) ∙ flip_sign_twice v hv)

compare-flip_sign :
    (v w : ℕ)
    → v < 2 ^ 64
    → w < 2 ^ 64
    → compare (flip_sign v) (flip_sign w) ≡ compare_ℤ (signed64 v) (signed64 w)
compare-flip_sign v w hv hw = ground arith

-- Encoded int64_t values, as bit patterns below 2 ^ 64, are ordered byte by byte as the signed
-- integers that they stand for.
pub lex_compare-encode_int64 :
    (v w : ℕ)
    → v < 2 ^ 64
    → w < 2 ^ 64
    → lex_compare (encode_int64 v) (encode_int64 w) ≡ compare_ℤ (signed64 v) (signed64 w)
unfolding encode_int64
lex_compare-encode_int64 v w hv hw =
    lex_compare-be_bytes 8 (flip_sign v) (flip_sign w) (omega arith) (omega arith)
    ∙ compare-flip_sign v w hv hw
