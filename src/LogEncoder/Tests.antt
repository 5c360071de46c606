-- ===== src/LogEncoder/Tests.antt =====
-- Small logs, and what the theorems say of them.
use nebula_storage.Prelude.{ℕ, ◌≡◌, List, [], ◌∷◌, some, arith}
use nebula_storage.LogEncoder.Batch.{
  BatchOp, put, remove, encode_batch_value, decode_batch_value, decode_batch_value-encode,
}

abbrev key : List ℕ
key = 107 ∷ []

abbrev val : List ℕ
val = 118 ∷ 49 ∷ []

abbrev ops : List BatchOp
unfolding put remove
ops = remove (put [] key val) key

decode_batch_value-encode_example :
    decode_batch_value (encode_batch_value 77 ops) ≡ some ((0x1, key, val) ∷ (0x2, key, []) ∷ [])
unfolding ops
decode_batch_value-encode_example =
    decode_batch_value-encode 77 ops (omega arith)
      ((omega arith, omega arith), ((omega arith, omega arith), tt))
