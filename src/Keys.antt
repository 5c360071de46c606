-- ===== src/Keys.antt =====
-- utils/Types.h and what the key builders of utils/NebulaKeyUtils.cpp share: the type of a key, its
-- first four bytes, and the padding of vertex ids. An int32_t or int64_t is its bit pattern.
pub mod Rank
pub mod Vertex
pub mod Edge
pub mod System
pub mod Operation
pub mod Prefix
mod Tests
use nebula_storage.Prelude.{
  ℕ, ◌+◌, ◌-◌, ◌*◌, ◌/◌, ◌%◌, ◌^◌, ◌≤◌, ◌<◌, ◌≡◌, refl, ap, ◌∙◌, Bool, true, List, [], ◌++◌, Option,
  some, arith, length, replicate, ltb, leb, ◌==◌, if◌then◌else◌, ◌⊎◌, length-append,
  length-replicate,
}
use mathlib.Core.Option
use nebula_storage.Bytes.Words.{le_bytes}
use nebula_storage.Bytes.Pieces.{read_int, read_int-append}

-- enum class NebulaKeyType.
pub data KeyType : Type 0 where
  vertex edge index system operation key_value : KeyType

abbrev pub key_code : KeyType → ℕ
key_code vertex = 1
key_code edge = 2
key_code index = 3
key_code system = 4
key_code operation = 5
key_code key_value = 6

-- enum class NebulaSystemKeyType.
pub data SystemKeyType : Type 0 where
  system_commit system_part : SystemKeyType

abbrev pub system_code : SystemKeyType → ℕ
system_code system_commit = 1
system_code system_part = 2

-- enum class NebulaOperationType.
pub data OperationType : Type 0 where
  modify delete : OperationType

abbrev pub operation_code : OperationType → ℕ
operation_code modify = 1
operation_code delete = 2

-- kVertexLen, kEdgeLen, kSystemLen, kVertexIndexLen and kEdgeIndexLen.
abbrev pub vertex_len : ℕ
vertex_len = 4 + 4

abbrev pub edge_len : ℕ
edge_len = 4 + 4 + 8 + 1

abbrev pub system_len : ℕ
system_len = 4 + 4

abbrev pub vertex_index_len : ℕ
vertex_index_len = 4 + 4

abbrev pub edge_index_len : ℕ
edge_index_len = 4 + 4 + 8

-- `(partId << kPartitionOffset) | type`. The shift leaves the low byte free, so the "or" is a sum.
abbrev pub key_item : ℕ → KeyType → ℕ
key_item part t = part * 2 ^ 8 % 2 ^ 32 + key_code t

-- `.append(vId.data(), vId.size()).append(vIdLen - vId.size(), '\0')`
abbrev pub pad : ℕ → List ℕ → List ℕ
pad vid_len vid = vid ++ replicate (vid_len - length vid) 0

-- `>> 8` on an int32_t shifts copies of the sign bit in.
abbrev pub shift_part : ℕ → ℕ
shift_part w = if ltb w (2 ^ 31) then w / 2 ^ 8 else w / 2 ^ 8 + (2 ^ 32 - 2 ^ 24)

unfoldable pub get_part : List ℕ → Option ℕ
get_part key = Option.map shift_part (read_int 0 4 key)

-- `static_cast<NebulaKeyType>(readInt<uint32_t>(key, 4) & kTypeMask) == t`
unfoldable pub has_type : KeyType → List ℕ → Option Bool
has_type t key = Option.map (λ w. w % 2 ^ 8 == key_code t) (read_int 0 4 key)

-- An int32_t of 24 bits and a sign, which the shift by eight bits keeps.
abbrev pub IsPart : ℕ → Type 0
IsPart part = (part < 2 ^ 23) ⊎ ((2 ^ 32 - 2 ^ 23 ≤ part) × (part < 2 ^ 32))

pub key_item-lt : (part : ℕ) (t : KeyType) → key_item part t < 256 ^ 4
key_item-lt part vertex = omega arith
key_item-lt part edge = omega arith
key_item-lt part index = omega arith
key_item-lt part system = omega arith
key_item-lt part operation = omega arith
key_item-lt part key_value = omega arith

pub shift_part-key_item :
    (part : ℕ) (t : KeyType) → IsPart part → shift_part (key_item part t) ≡ part
shift_part-key_item part vertex h = ground arith
shift_part-key_item part edge h = ground arith
shift_part-key_item part index h = ground arith
shift_part-key_item part system h = ground arith
shift_part-key_item part operation h = ground arith
shift_part-key_item part key_value h = ground arith

pub length-pad : (n : ℕ) (vid : List ℕ) → length vid ≤ n → length (pad n vid) ≡ n
length-pad n vid h = omega (
  arith,
  length-append vid (replicate (n - length vid) 0),
  length-replicate (n - length vid) (let z : ℕ = 0 in z),
)

-- The partition and the type are read from the first four bytes, whatever follows.
pub first_item :
    (part : ℕ) (t : KeyType) (rest : List ℕ)
    → IsPart part
    → get_part (le_bytes 4 (key_item part t) ++ rest) ≡ some part
unfolding get_part
first_item part t rest h =
    ap (Option.map shift_part)
      (read_int-append 0 4 (key_item part t) [] rest refl (key_item-lt part t))
    ∙ ap some (shift_part-key_item part t h)

key_item-type :
    (part : ℕ) (t u : KeyType)
    → (key_item part t % 2 ^ 8 == key_code u) ≡ (key_code t == key_code u)
key_item-type part vertex u = ground arith
key_item-type part edge u = ground arith
key_item-type part index u = ground arith
key_item-type part system u = ground arith
key_item-type part operation u = ground arith
key_item-type part key_value u = ground arith

-- Of a key of one type no test for another type holds.
pub has_type-item :
    (part : ℕ) (t u : KeyType) (rest : List ℕ)
    → has_type u (le_bytes 4 (key_item part t) ++ rest) ≡ some (key_code t == key_code u)
unfolding has_type
has_type-item part t u rest =
    ap (Option.map (λ (w : ℕ). w % 2 ^ 8 == key_code u))
      (read_int-append 0 4 (key_item part t) [] rest refl (key_item-lt part t))
    ∙ ap some (key_item-type part t u)

pub has_type-first_item :
    (part : ℕ) (t : KeyType) (rest : List ℕ)
    → has_type t (le_bytes 4 (key_item part t) ++ rest) ≡ some true
has_type-first_item part t rest = has_type-item part t t rest ∙ ap some (ground arith)
