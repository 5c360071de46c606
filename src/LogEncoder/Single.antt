-- ===== src/LogEncoder/Single.antt =====
-- encodeKV, decodeKV, encodeSingleValue, decodeSingleValue and getTimestamp.
use nebula_storage.Prelude.{
  ℕ, ◌+◌, ◌%◌, ◌^◌, ◌<◌, ◌≡◌, refl, List, [], ◌++◌, Option, some, arith, length, take,
  length-append, append_assoc, append-nil, take_all, ◌>>=◌,
}
use nebula_storage.Bytes.Words.{le_bytes, length-le_bytes}
use nebula_storage.Bytes.Pieces.{piece, read_int, piece_at, read_int_at}
use nebula_storage.LogEncoder.{LogType, log_code, log_head, head_len}

unfoldable pub encode_kv : List ℕ → List ℕ → List ℕ
encode_kv key val =
    let ksize = length key % 2 ^ 32 in
    let vsize = length val % 2 ^ 32 in
    le_bytes 4 ksize ++ (le_bytes 4 vsize ++ (take ksize key ++ take vsize val))

unfoldable pub decode_kv : List ℕ → Option (List ℕ × List ℕ)
decode_kv s = do
  ksize ← read_int 0 4 s
  vsize ← read_int 4 4 s
  key ← piece (4 + 4) ksize s
  val ← piece (4 + 4 + ksize) vsize s
  some (key, val)

-- The value is appended whole.
unfoldable pub encode_single_value : ℕ → LogType → List ℕ → List ℕ
encode_single_value now type val = log_head now type (length val % 2 ^ 32) ++ val

unfoldable pub decode_single_value : List ℕ → Option (List ℕ)
decode_single_value encoded = do len ← read_int (8 + 1) 4 encoded; piece (8 + 1 + 4) len encoded

unfoldable pub get_timestamp : List ℕ → Option ℕ
get_timestamp command = read_int 0 8 command

-- `command[sizeof(int64_t)]`, by which a log is taken apart.
unfoldable pub get_type : List ℕ → Option ℕ
get_type command = read_int 8 1 command

pub length-log_head : (now n : ℕ) (type : LogType) → length (log_head now type n) ≡ head_len
unfolding log_head
length-log_head now n type = omega (
  arith,
  length-append (le_bytes 8 now) (le_bytes 1 (log_code type) ++ le_bytes 4 n),
  length-append (le_bytes 1 (log_code type)) (le_bytes 4 n),
  length-le_bytes 8 now,
  length-le_bytes 1 (log_code type),
  length-le_bytes 4 n,
)

log_code-lt : (type : LogType) → log_code type < 256
log_code-lt LogType.op_put = omega arith
log_code-lt LogType.op_multi_put = omega arith
log_code-lt LogType.op_remove = omega arith
log_code-lt LogType.op_multi_remove = omega arith
log_code-lt LogType.op_remove_range = omega arith
log_code-lt LogType.op_add_learner = omega arith
log_code-lt LogType.op_trans_leader = omega arith
log_code-lt LogType.op_add_peer = omega arith
log_code-lt LogType.op_remove_peer = omega arith
log_code-lt LogType.op_batch_write = omega arith

-- The count or length of the head is read back, whatever follows it.
pub read_head :
    (now n : ℕ) (type : LogType) (rest : List ℕ)
    → n < 2 ^ 32
    → read_int (8 + 1) 4 (log_head now type n ++ rest) ≡ some n
unfolding log_head
read_head now n type rest h =
    read_int_at (8 + 1) 4 n _ (le_bytes 8 now ++ le_bytes 1 (log_code type)) rest
      (simp append_assoc)
      (omega (
        arith,
        length-append (le_bytes 8 now) (le_bytes 1 (log_code type)),
        length-le_bytes 8 now,
        length-le_bytes 1 (log_code type),
      ))
      (omega arith)

-- A time below 2 ^ 64 and the type of any log are read back, whatever its contents.
pub log_head_fields :
    (now n : ℕ) (type : LogType) (rest : List ℕ)
    → now < 2 ^ 64
    → (get_timestamp (log_head now type n ++ rest) ≡ some now)
      × (get_type (log_head now type n ++ rest) ≡ some (log_code type))
unfolding get_timestamp get_type log_head
log_head_fields now n type rest h = (
  read_int_at 0 8 now _ [] ((le_bytes 1 (log_code type) ++ le_bytes 4 n) ++ rest)
      (simp append_assoc) refl (omega arith),
  read_int_at 8 1 (log_code type) _ (le_bytes 8 now) (le_bytes 4 n ++ rest) (simp append_assoc)
      (length-le_bytes 8 now) (omega (arith, log_code-lt type)),
)

abbrev kv_bytes : List ℕ → List ℕ → List ℕ
kv_bytes key val = le_bytes 4 (length key) ++ (le_bytes 4 (length val) ++ (key ++ val))

decode_kv-bytes :
    (key val : List ℕ)
    → length key < 2 ^ 32
    → length val < 2 ^ 32
    → decode_kv (kv_bytes key val) ≡ some (key, val)
unfolding decode_kv
decode_kv-bytes key val hk hv =
    let lk = le_bytes 4 (length key) in
    let lv = le_bytes 4 (length val) in
    let hl = length-le_bytes 4 (length key) in
    let hl2 : length (lk ++ lv) ≡ 4 + 4 =
      omega (arith, length-append lk lv, hl, length-le_bytes 4 (length val)) in
    let r0 =
      read_int_at 0 4 (length key) (kv_bytes key val) [] (lv ++ (key ++ val)) refl refl
        (omega arith) in
    let r1 =
      read_int_at 4 4 (length val) (kv_bytes key val) lk (key ++ val) refl hl (omega arith) in
    let r2 =
      piece_at (4 + 4) (length key) (kv_bytes key val) (lk ++ lv) key val (simp append_assoc) hl2
        refl in
    let r3 =
      piece_at (4 + 4 + length key) (length val) (kv_bytes key val) ((lk ++ lv) ++ key) val []
        (simp (append_assoc, append-nil)) (omega (arith, length-append (lk ++ lv) key, hl2)) refl in
    rw (r0, r1, r2, r3)

-- A key and a value shorter than 4 GB come back as they were.
pub decode_kv-encode_kv :
    (key val : List ℕ)
    → length key < 2 ^ 32
    → length val < 2 ^ 32
    → decode_kv (encode_kv key val) ≡ some (key, val)
unfolding encode_kv
decode_kv-encode_kv key val hk hv =
    let small_key : length key % 2 ^ 32 ≡ length key = omega arith in
    let small_val : length val % 2 ^ 32 ≡ length val = omega arith in
    rw
      (
        small_key,
        small_val,
        take_all (length key) key (omega arith),
        take_all (length val) val (omega arith),
      )
      (decode_kv-bytes key val hk hv)

-- A single value shorter than 4 GB comes back as it was.
pub decode_single_value-encode :
    (now : ℕ) (type : LogType) (val : List ℕ)
    → length val < 2 ^ 32
    → decode_single_value (encode_single_value now type val) ≡ some val
unfolding decode_single_value encode_single_value
decode_single_value-encode now type val h =
    let small : length val % 2 ^ 32 ≡ length val = omega arith in
    rw (small, read_head now (length val) type val h)
      (piece_at (8 + 1 + 4) (length val) _ (log_head now type (length val)) val [] (simp append-nil)
        (length-log_head now (length val) type) refl)
