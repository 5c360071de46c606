-- ===== src/Keys/System.antt =====
-- The keys of a part's own records and of plain key-value data: systemCommitKey, systemPartKey,
-- kvKey and systemPrefix of utils/NebulaKeyUtils.cpp, and the tests on them in the header.
use mathlib.Core.Option
use nebula_storage.Prelude.{
  ℕ, ◌^◌, ◌<◌, ◌≡◌, refl, Bool, true, false, List, [], ◌∷◌, ◌++◌, Option, some, arith, length, ◌==◌,
  if◌then◌else◌, length-append, append-nil,
}
use nebula_storage.Bytes.Words.{le_bytes, length-le_bytes}
use nebula_storage.Bytes.Pieces.{read_int, read_int_at}
use nebula_storage.Keys.{
  KeyType, SystemKeyType, key_code, system_code, key_item, system_len, get_part, has_type, IsPart,
  first_item, has_type-item,
}
use nebula_storage.Keys.Edge.{and_then}

-- systemCommitKey and systemPartKey differ in the type that they write.
unfoldable pub system_key : SystemKeyType → ℕ → List ℕ
system_key t part = le_bytes 4 (key_item part KeyType.system) ++ le_bytes 4 (system_code t)

abbrev pub system_commit_key : ℕ → List ℕ
system_commit_key = system_key SystemKeyType.system_commit

abbrev pub system_part_key : ℕ → List ℕ
system_part_key = system_key SystemKeyType.system_part

unfoldable pub kv_key : ℕ → List ℕ → List ℕ
kv_key part name = le_bytes 4 (key_item part KeyType.key_value) ++ name

-- One byte, since the type is the lowest byte of every key.
unfoldable pub system_prefix : List ℕ
system_prefix = key_code KeyType.system ∷ []

abbrev pub is_system : List ℕ → Option Bool
is_system = has_type KeyType.system

-- isSystemCommit and isSystemPart differ in the type that they ask for.
unfoldable pub is_system_of : SystemKeyType → List ℕ → Option Bool
is_system_of t key =
    if length key == system_len
    then and_then (is_system key) (Option.map (λ w. w == system_code t) (read_int 4 4 key))
    else some false

abbrev pub is_system_commit : List ℕ → Option Bool
is_system_commit = is_system_of SystemKeyType.system_commit

abbrev pub is_system_part : List ℕ → Option Bool
is_system_part = is_system_of SystemKeyType.system_part

abbrev pub same_system_type : SystemKeyType → SystemKeyType → Bool
same_system_type SystemKeyType.system_commit SystemKeyType.system_commit = true
same_system_type SystemKeyType.system_part SystemKeyType.system_part = true
same_system_type _ _ = false

length-system_key : (t : SystemKeyType) (part : ℕ) → length (system_key t part) ≡ system_len
unfolding system_key
length-system_key t part = omega (
  arith,
  length-append (le_bytes 4 (key_item part KeyType.system)) (le_bytes 4 (system_code t)),
  length-le_bytes 4 (key_item part KeyType.system),
  length-le_bytes 4 (system_code t),
)

system_code-lt : (t : SystemKeyType) → system_code t < 256 ^ 4
system_code-lt SystemKeyType.system_commit = omega arith
system_code-lt SystemKeyType.system_part = omega arith

code_eq : (t u : SystemKeyType) → (system_code t == system_code u) ≡ same_system_type t u
code_eq SystemKeyType.system_commit SystemKeyType.system_commit = refl
code_eq SystemKeyType.system_commit SystemKeyType.system_part = refl
code_eq SystemKeyType.system_part SystemKeyType.system_commit = refl
code_eq SystemKeyType.system_part SystemKeyType.system_part = refl

type-system_key :
    (t : SystemKeyType) (part : ℕ) → read_int 4 4 (system_key t part) ≡ some (system_code t)
unfolding system_key
type-system_key t part =
    read_int_at 4 4 (system_code t) _ (le_bytes 4 (key_item part KeyType.system)) []
      (simp append-nil) (length-le_bytes 4 (key_item part KeyType.system)) (system_code-lt t)

is_system-system_key : (t : SystemKeyType) (part : ℕ) → is_system (system_key t part) ≡ some true
unfolding system_key
is_system-system_key t part =
    has_type-item part KeyType.system KeyType.system (le_bytes 4 (system_code t))

-- The tests tell the two system keys of a part apart, and both give back the part, whose id has 24
-- bits.
pub is_system_of-system_key :
    (t u : SystemKeyType) (part : ℕ)
    → IsPart part
    → (is_system_of u (system_key t part) ≡ some (same_system_type t u))
      × (get_part (system_key t part) ≡ some part)
unfolding is_system_of
is_system_of-system_key t u part h = (
  ground (
    arith,
    length-system_key t part,
    is_system-system_key t part,
    type-system_key t part,
    code_eq t u,
  ),
  unfold system_key in first_item part KeyType.system (le_bytes 4 (system_code t)) h,
)
