-- ===== src/Keys/Operation.antt =====
-- utils/OperationKeyUtils.cpp: the log of operations that run while an index is rebuilt. The wall
-- clock is a parameter, the time in microseconds at the call.
use mathlib.Core.Option
use nebula_storage.Prelude.{
  ℕ, ◌+◌, ◌^◌, ◌<◌, ◌≡◌, ap, Bool, true, false, List, [], ◌++◌, Option, none, some, arith, length,
  ◌==◌, if◌then◌else◌, leb, drop, length-append, append_assoc, append-nil, drop-append_left,
}
use nebula_storage.Bytes.Words.{le_bytes, length-le_bytes}
use nebula_storage.Bytes.Pieces.{read_int, read_int_at}
use nebula_storage.Bytes.Order.{be_bytes, length-be_bytes}
use nebula_storage.Keys.{
  KeyType, OperationType, operation_code, key_item, get_part, IsPart, first_item,
}

-- The part, the time, the operation.
abbrev pub operation_head : ℕ → ℕ → OperationType → List ℕ
operation_head now part t =
    le_bytes 4 (key_item part KeyType.operation)
    ++ (be_bytes 8 now ++ le_bytes 4 (operation_code t))

unfoldable pub modify_operation_key : ℕ → ℕ → List ℕ → List ℕ
modify_operation_key now part key = operation_head now part OperationType.modify ++ key

unfoldable pub delete_operation_key : ℕ → ℕ → List ℕ
delete_operation_key now part = operation_head now part OperationType.delete

-- isModifyOperation and isDeleteOperation differ in the type that they ask for.
unfoldable pub is_operation : OperationType → List ℕ → Option Bool
is_operation t key = Option.map (λ w. w == operation_code t) (read_int (4 + 8) 4 key)

-- `subpiece(offset)` throws past the end.
unfoldable pub get_operation_key : List ℕ → Option (List ℕ)
get_operation_key raw = if leb (4 + 8 + 4) (length raw) then some (drop (4 + 8 + 4) raw) else none

unfoldable pub operation_prefix : ℕ → List ℕ
operation_prefix part = le_bytes 4 (key_item part KeyType.operation)

module _ (now part : ℕ) (t : OperationType) where
  length-head : length (le_bytes 4 (key_item part KeyType.operation) ++ be_bytes 8 now) ≡ 4 + 8
  length-head = omega (
    arith,
    length-append (le_bytes 4 (key_item part KeyType.operation)) (be_bytes 8 now),
    length-le_bytes 4 (key_item part KeyType.operation),
    length-be_bytes 8 now,
  )

  length-operation_head : length (operation_head now part t) ≡ 4 + 8 + 4
  length-operation_head =
      rw
        (← append_assoc (le_bytes 4 (key_item part KeyType.operation)) (be_bytes 8 now)
          (le_bytes 4 (operation_code t)))
        (omega (
          arith,
          length-append (le_bytes 4 (key_item part KeyType.operation) ++ be_bytes 8 now)
              (le_bytes 4 (operation_code t)),
          length-head,
          length-le_bytes 4 (operation_code t),
        ))

  type-operation_head :
      operation_code t < 256 ^ 4
      → (key : List ℕ)
      → read_int (4 + 8) 4 (operation_head now part t ++ key) ≡ some (operation_code t)
  type-operation_head h key =
      read_int_at (4 + 8) 4 (operation_code t) _
        (le_bytes 4 (key_item part KeyType.operation) ++ be_bytes 8 now) key (simp append_assoc)
        length-head h

-- A logged change is told apart from a logged removal, and gives back its part, whose id has 24
-- bits, and its key.
pub modify_operation_fields :
    (now part : ℕ) (key : List ℕ)
    → IsPart part
    → (is_operation OperationType.modify (modify_operation_key now part key) ≡ some true)
      × (is_operation OperationType.delete (modify_operation_key now part key) ≡ some false)
      × (get_part (modify_operation_key now part key) ≡ some part)
      × (get_operation_key (modify_operation_key now part key) ≡ some key)
unfolding is_operation modify_operation_key get_operation_key
modify_operation_fields now part key h =
    let t = OperationType.modify in
    let read = type-operation_head now part t (omega arith) key in
    (
      ap (Option.map (λ (w : ℕ). w == 1)) read,
      ap (Option.map (λ (w : ℕ). w == 2)) read,
      rw append_assoc (first_item part KeyType.operation _ h),
      ground (
        arith,
        length-append (operation_head now part t) key,
        length-operation_head now part t,
        drop-append_left (4 + 8 + 4) (operation_head now part t) key
            (length-operation_head now part t),
      ),
    )

-- A logged removal is no logged change; it gives back its part, whose id has 24 bits, and its key
-- is empty.
pub delete_operation_fields :
    (now part : ℕ)
    → IsPart part
    → (is_operation OperationType.delete (delete_operation_key now part) ≡ some true)
      × (is_operation OperationType.modify (delete_operation_key now part) ≡ some false)
      × (get_part (delete_operation_key now part) ≡ some part)
      × (get_operation_key (delete_operation_key now part) ≡ some [])
unfolding is_operation delete_operation_key get_operation_key
delete_operation_fields now part h =
    let t = OperationType.delete in
    let read = rw append-nil at (type-operation_head now part t (omega arith) []) in
    (
      ap (Option.map (λ (w : ℕ). w == 2)) read,
      ap (Option.map (λ (w : ℕ). w == 1)) read,
      first_item part KeyType.operation _ h,
      ground (
        arith,
        length-operation_head now part t,
        rw append-nil at (
            drop-append_left (4 + 8 + 4) (operation_head now part t) []
              (length-operation_head now part t)),
      ),
    )
