-- ===== src/LogEncoder/Batch.antt =====
-- BatchHolder, encodeBatchValue and decodeBatchValue.
use nebula_storage.Prelude.{
  ℕ, zero, suc, ◌+◌, ◌%◌, ◌^◌, ◌<◌, ◌≡◌, refl, ap, ◌∙◌, sym, List, [], ◌∷◌, ◌++◌, Option, some,
  arith, length, All, map, length-append, append_assoc, append-nil, ◌>>=◌,
}
use nebula_storage.Bytes.Words.{le_bytes, length-le_bytes}
use nebula_storage.Bytes.Pieces.{piece, read_int, piece_at, read_int_at}
use nebula_storage.LogEncoder.{LogType, log_head}
use nebula_storage.LogEncoder.Single.{length-log_head, read_head}

-- enum BatchLogType : char.
pub data BatchLogType : Type 0 where
  op_batch_put op_batch_remove op_batch_remove_range : BatchLogType

abbrev pub batch_code : BatchLogType → ℕ
batch_code op_batch_put = 0x1
batch_code op_batch_remove = 0x2
batch_code op_batch_remove_range = 0x3

pub record BatchOp : Type 0 where
  pub type : BatchLogType
  pub key : List ℕ
  pub val : List ℕ

-- BatchHolder: its one field is the list of operations, in the order of the calls.
abbrev pub BatchHolder : Type 0
BatchHolder = List BatchOp

unfoldable pub put : BatchHolder → List ℕ → List ℕ → BatchHolder
put b key val = b ++ record { type = op_batch_put; key = key; val = val } ∷ []

unfoldable pub remove : BatchHolder → List ℕ → BatchHolder
remove b key = b ++ record { type = op_batch_remove; key = key; val = [] } ∷ []

unfoldable pub range_remove : BatchHolder → List ℕ → List ℕ → BatchHolder
range_remove b begin end = b ++ record { type = op_batch_remove_range; key = begin; val = end } ∷ []

-- Of the size_t lengths the low four bytes are written.
abbrev pub op_bytes : BatchOp → List ℕ
op_bytes op =
    le_bytes 1 (batch_code op.type)
    ++ (le_bytes 4 (length op.key) ++ (op.key ++ (le_bytes 4 (length op.val) ++ op.val)))

unfoldable pub batch_bytes : List BatchOp → List ℕ
batch_bytes [] = []
batch_bytes (op ∷ ops) = op_bytes op ++ batch_bytes ops

unfoldable pub encode_batch_value : ℕ → List BatchOp → List ℕ
encode_batch_value now batch =
    log_head now LogType.op_batch_write (length batch % 2 ^ 32) ++ batch_bytes batch

-- An operation as the decoder gives it: the byte of its type, and the two strings.
abbrev pub Decoded : Type 0
Decoded = ℕ × List ℕ × List ℕ

abbrev pub decoded : BatchOp → Decoded
decoded op = (batch_code op.type, op.key, op.val)

-- The loop over the operations, with the offset of `p`.
unfoldable pub decode_ops : ℕ → ℕ → List ℕ → Option (List Decoded)
decode_ops zero p s = some []
decode_ops (suc n) p s = do
  type ← read_int p 1 s
  len1 ← read_int (p + 1) 4 s
  len2 ← read_int (p + 1 + (4 + len1)) 4 s
  key ← piece (p + 1 + 4) len1 s
  val ← piece (p + 1 + (4 + len1 + 4)) len2 s
  rest ← decode_ops n (p + 1 + (4 + len1 + 4 + len2)) s
  some ((type, key, val) ∷ rest)

unfoldable pub decode_batch_value : List ℕ → Option (List Decoded)
decode_batch_value encoded = do num ← read_int (8 + 1) 4 encoded; decode_ops num (8 + 1 + 4) encoded

-- An operation with both strings shorter than 4 GB.
abbrev pub IsShortOp : BatchOp → Type 0
IsShortOp op = (length op.key < 2 ^ 32) × (length op.val < 2 ^ 32)

batch_code-lt : (t : BatchLogType) → batch_code t < 256
batch_code-lt op_batch_put = omega arith
batch_code-lt op_batch_remove = omega arith
batch_code-lt op_batch_remove_range = omega arith

-- One operation at offset `p`: the places of its five parts, and where the next one begins.
module _ (p : ℕ) (s before : List ℕ) (op : BatchOp) (after : List ℕ) (h : IsShortOp op)
    (e : s ≡ before ++ (op_bytes op ++ after)) (eb : length before ≡ p) where
  abbrev t : List ℕ
  t = le_bytes 1 (batch_code op.type)

  abbrev lk : List ℕ
  lk = le_bytes 4 (length op.key)

  abbrev lv : List ℕ
  lv = le_bytes 4 (length op.val)

  at_key : length ((before ++ t) ++ lk) ≡ p + 1 + 4
  at_key = omega (
    arith,
    length-append (before ++ t) lk,
    length-append before t,
    eb,
    length-le_bytes 1 (batch_code op.type),
    length-le_bytes 4 (length op.key),
  )

  at_len2 : length (((before ++ t) ++ lk) ++ op.key) ≡ p + 1 + (4 + length op.key)
  at_len2 = omega (arith, length-append ((before ++ t) ++ lk) op.key, at_key)

  at_val : length ((((before ++ t) ++ lk) ++ op.key) ++ lv) ≡ p + 1 + (4 + length op.key + 4)
  at_val = omega (
    arith,
    length-append (((before ++ t) ++ lk) ++ op.key) lv,
    at_len2,
    length-le_bytes 4 (length op.val),
  )

  at_next : length (before ++ op_bytes op) ≡ p + 1 + (4 + length op.key + 4 + length op.val)
  at_next =
      let split : before ++ op_bytes op ≡ ((((before ++ t) ++ lk) ++ op.key) ++ lv) ++ op.val =
        simp append_assoc in
      rw split
        (omega (arith, length-append ((((before ++ t) ++ lk) ++ op.key) ++ lv) op.val, at_val))

  read_type : read_int p 1 s ≡ some (batch_code op.type)
  read_type =
      read_int_at p 1 (batch_code op.type) s before (lk ++ (op.key ++ (lv ++ (op.val ++ after))))
        (e ∙ simp append_assoc) eb (omega (arith, batch_code-lt op.type))

  read_len1 : read_int (p + 1) 4 s ≡ some (length op.key)
  read_len1 =
      read_int_at (p + 1) 4 (length op.key) s (before ++ t) (op.key ++ (lv ++ (op.val ++ after)))
        (e ∙ simp append_assoc)
        (omega (arith, length-append before t, eb, length-le_bytes 1 (batch_code op.type)))
        (omega arith)

  read_len2 : read_int (p + 1 + (4 + length op.key)) 4 s ≡ some (length op.val)
  read_len2 =
      read_int_at (p + 1 + (4 + length op.key)) 4 (length op.val) s
        (((before ++ t) ++ lk) ++ op.key) (op.val ++ after) (e ∙ simp append_assoc) at_len2
        (omega arith)

  read_key : piece (p + 1 + 4) (length op.key) s ≡ some op.key
  read_key =
      piece_at (p + 1 + 4) (length op.key) s ((before ++ t) ++ lk) op.key (lv ++ (op.val ++ after))
        (e ∙ simp append_assoc) at_key refl

  read_val : piece (p + 1 + (4 + length op.key + 4)) (length op.val) s ≡ some op.val
  read_val =
      piece_at (p + 1 + (4 + length op.key + 4)) (length op.val) s
        ((((before ++ t) ++ lk) ++ op.key) ++ lv) op.val after (e ∙ simp append_assoc) at_val refl

decode_ops-batch_bytes :
    (ops : List BatchOp) (p : ℕ) (s before after : List ℕ)
    → All IsShortOp ops
    → s ≡ before ++ (batch_bytes ops ++ after)
    → length before ≡ p
    → decode_ops (length ops) p s ≡ some (map decoded ops)
unfolding decode_ops batch_bytes
decode_ops-batch_bytes [] p s before after h e eb = refl
decode_ops-batch_bytes (op ∷ ops) p s before after (ho, hs) e eb =
    let e' : s ≡ before ++ (op_bytes op ++ (batch_bytes ops ++ after)) =
      e ∙ ap (◌++◌ before) (append_assoc (op_bytes op) (batch_bytes ops) after) in
    let rest = batch_bytes ops ++ after in
    rw (
      read_type p s before op rest ho e' eb,
      read_len1 p s before op rest ho e' eb,
      read_len2 p s before op rest ho e' eb,
      read_key p s before op rest ho e' eb,
      read_val p s before op rest ho e' eb,
      decode_ops-batch_bytes ops (p + 1 + (4 + length op.key + 4 + length op.val)) s
          (before ++ op_bytes op) after hs (e' ∙ sym (append_assoc before (op_bytes op) rest))
          (at_next p s before op rest ho e' eb),
    )

-- A batch of fewer than 2 ^ 32 operations, each of strings shorter than 4 GB, comes back operation by
-- operation, in order.
pub decode_batch_value-encode :
    (now : ℕ) (batch : List BatchOp)
    → length batch < 2 ^ 32
    → All IsShortOp batch
    → decode_batch_value (encode_batch_value now batch) ≡ some (map decoded batch)
unfolding decode_batch_value encode_batch_value
decode_batch_value-encode now batch hn h =
    let type = LogType.op_batch_write in
    let small : length batch % 2 ^ 32 ≡ length batch = omega arith in
    rw (small, read_head now (length batch) type (batch_bytes batch) hn)
      (decode_ops-batch_bytes batch (8 + 1 + 4) _ (log_head now type (length batch)) [] h
        (simp append-nil) (length-log_head now (length batch) type))
