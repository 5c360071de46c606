-- ===== src/Part/Commands.antt =====
-- The writes of Part (asyncPut and the calls beside it) as the logs that they append, and back.
use nebula_storage.Prelude.{
  ℕ, ◌*◌, ◌<◌, ◌^◌, ◌≡◌, refl, ap, ◌∙◌, List, [], ◌∷◌, ◌++◌, some, arith, length, map, All,
}
use nebula_storage.LogEncoder.{LogType, log_code, log_head}
use nebula_storage.LogEncoder.Single.{
  encode_single_value, get_type, log_head_fields, decode_single_value-encode,
}
use nebula_storage.LogEncoder.Multi.{
  encode_multi_values, encode_multi_pairs, encode_two_values, decode_multi_values, flatten_pairs,
  IsShort, decode_multi_values-encode, decode_multi_values-encode_pairs, encode_two_values-list,
}
use nebula_storage.LogEncoder.Batch.{
  BatchOp, BatchLogType, encode_batch_value, IsShortOp, decoded, decode_batch_value-encode,
}
use nebula_storage.Part.{WriteOp, put, remove, remove_range, writes_of_type, batch_writes, in_pairs}

-- What a client asks of a part.
pub data Command : Type 0 where
  async_put : List ℕ → List ℕ → Command
  async_multi_put : List (List ℕ × List ℕ) → Command
  async_remove : List ℕ → Command
  async_multi_remove : List (List ℕ) → Command
  async_remove_range : List ℕ → List ℕ → Command
  async_append_batch : List BatchOp → Command

-- The log that the call appends, at the time `now`.
unfoldable pub log_of : ℕ → Command → List ℕ
log_of now (async_put key val) = encode_two_values now LogType.op_put key val
log_of now (async_multi_put kvs) = encode_multi_pairs now LogType.op_multi_put kvs
log_of now (async_remove key) = encode_single_value now LogType.op_remove key
log_of now (async_multi_remove keys) = encode_multi_values now LogType.op_multi_remove keys
log_of now (async_remove_range a b) = encode_two_values now LogType.op_remove_range a b
log_of now (async_append_batch batch) = encode_batch_value now batch

abbrev pub batch_write : BatchOp → WriteOp
batch_write op = elim op.type [
  | BatchLogType.op_batch_put ↦ put op.key op.val
  | BatchLogType.op_batch_remove ↦ remove op.key
  | BatchLogType.op_batch_remove_range ↦ remove_range op.key op.val
]

-- What the client means by it.
abbrev pub writes : Command → List WriteOp
writes (async_put key val) = put key val ∷ []
writes (async_multi_put kvs) = map (λ (kv : List ℕ × List ℕ). put kv.0 kv.1) kvs
writes (async_remove key) = remove key ∷ []
writes (async_multi_remove keys) = map remove keys
writes (async_remove_range a b) = remove_range a b ∷ []
writes (async_append_batch batch) = map batch_write batch

-- Strings of less than 4 GB, and less than 2 ^ 32 of them.
abbrev pub Fits : Command → Type 0
Fits (async_put key val) = IsShort key × IsShort val
Fits (async_multi_put kvs) = (2 * length kvs < 2 ^ 32) × All IsShort (flatten_pairs kvs)
Fits (async_remove key) = IsShort key
Fits (async_multi_remove keys) = (length keys < 2 ^ 32) × All IsShort keys
Fits (async_remove_range a b) = IsShort a × IsShort b
Fits (async_append_batch batch) = (length batch < 2 ^ 32) × All IsShortOp batch

abbrev pub type_of : Command → LogType
type_of (async_put key val) = LogType.op_put
type_of (async_multi_put kvs) = LogType.op_multi_put
type_of (async_remove key) = LogType.op_remove
type_of (async_multi_remove keys) = LogType.op_multi_remove
type_of (async_remove_range a b) = LogType.op_remove_range
type_of (async_append_batch batch) = LogType.op_batch_write

-- Every log begins with the head of its type.
log_of-head :
    (now : ℕ) (c : Command)
    → (n : ℕ) × (rest : List ℕ) × (log_of now c ≡ log_head now (type_of c) n ++ rest)
unfolding log_of encode_two_values encode_multi_pairs encode_single_value encode_multi_values
    encode_batch_value
log_of-head now (async_put key val) = (_, _, refl)
log_of-head now (async_multi_put kvs) = (_, _, refl)
log_of-head now (async_remove key) = (_, _, refl)
log_of-head now (async_multi_remove keys) = (_, _, refl)
log_of-head now (async_remove_range a b) = (_, _, refl)
log_of-head now (async_append_batch batch) = (_, _, refl)

pub get_type-log_of :
    (now : ℕ) (c : Command) → now < 2 ^ 64 → get_type (log_of now c) ≡ some (log_code (type_of c))
get_type-log_of now c early =
    let (n, rest, e) = log_of-head now c in
    ap get_type e ∙ (log_head_fields now n (type_of c) rest early).1

in_pairs-flatten :
    (kvs : List (List ℕ × List ℕ))
    → in_pairs (flatten_pairs kvs) ≡ some (map (λ (kv : List ℕ × List ℕ). put kv.0 kv.1) kvs)
in_pairs-flatten [] = refl
in_pairs-flatten ((k, v) ∷ kvs) = rw (in_pairs-flatten kvs) refl

batch_writes-decoded :
    (batch : List BatchOp) → batch_writes (map decoded batch) ≡ map batch_write batch
batch_writes-decoded [] = refl
batch_writes-decoded (op ∷ ops) = ground (arith, batch_writes-decoded ops)

decode_two :
    (now : ℕ) (t : LogType) (a b : List ℕ)
    → IsShort a
    → IsShort b
    → decode_multi_values (encode_two_values now t a b) ≡ some (a ∷ (b ∷ []))
decode_two now t a b x y =
    ap decode_multi_values (encode_two_values-list now t a b)
    ∙ decode_multi_values-encode now t (a ∷ (b ∷ [])) (omega arith) (x, (y, tt))

-- The switch of commitLogs makes of the log of a call the writes that the call asked for.
pub writes_of_type-log_of :
    (now : ℕ) (c : Command)
    → Fits c
    → writes_of_type (log_code (type_of c)) (log_of now c) ≡ some (writes c)
unfolding writes_of_type log_of
writes_of_type-log_of now (async_put key val) (k, v) =
    rw (decode_two now LogType.op_put key val k v) refl
writes_of_type-log_of now (async_multi_put kvs) (few, short) =
    rw (decode_multi_values-encode_pairs now LogType.op_multi_put kvs few short)
      (in_pairs-flatten kvs)
writes_of_type-log_of now (async_remove key) short =
    rw (decode_single_value-encode now LogType.op_remove key short) refl
writes_of_type-log_of now (async_multi_remove keys) (few, short) =
    rw (decode_multi_values-encode now LogType.op_multi_remove keys few short) refl
writes_of_type-log_of now (async_remove_range a b) (k, v) =
    rw (decode_two now LogType.op_remove_range a b k v) refl
writes_of_type-log_of now (async_append_batch batch) (few, short) =
    rw (decode_batch_value-encode now batch few short, batch_writes-decoded batch) refl
