-- ===== src/Keys/Vertex.antt =====
-- The vertex keys of utils/NebulaKeyUtils.cpp and .h. A builder gives `none` where CHECK_GE aborts,
-- and a reader gives `none` where dumpBadKey does.
use nebula_storage.Prelude.{
  ℕ, ◌+◌, ◌^◌, ◌≤◌, ◌<◌, ◌≡◌, refl, Bool, true, false, List, [], ◌++◌, Option, none, some, arith,
  length, leb, ◌==◌, if◌then◌else◌, length-append, append_assoc, append-nil, leb→le, some_if_eq,
}
use nebula_storage.Bytes.Words.{le_bytes, length-le_bytes}
use nebula_storage.Bytes.Pieces.{piece, read_int, piece_at, read_int_at}
use nebula_storage.Keys.{
  KeyType, key_item, pad, vertex_len, get_part, has_type, IsPart, length-pad, first_item,
  has_type-first_item,
}

abbrev pub vertex_bytes : ℕ → ℕ → List ℕ → ℕ → List ℕ
vertex_bytes vid_len part vid tag =
    le_bytes 4 (key_item part KeyType.vertex) ++ (pad vid_len vid ++ le_bytes 4 tag)

unfoldable pub vertex_key : ℕ → ℕ → List ℕ → ℕ → Option (List ℕ)
vertex_key vid_len part vid tag =
    if leb (length vid) vid_len then some (vertex_bytes vid_len part vid tag) else none

unfoldable pub is_vertex : ℕ → List ℕ → Option Bool
is_vertex vid_len key =
    if length key == vertex_len + vid_len then has_type KeyType.vertex key else some false

unfoldable pub get_vertex_id : ℕ → List ℕ → Option (List ℕ)
get_vertex_id vid_len key = if length key == vertex_len + vid_len then piece 4 vid_len key else none

unfoldable pub get_tag_id : ℕ → List ℕ → Option ℕ
get_tag_id vid_len key =
    if length key == vertex_len + vid_len then read_int (4 + vid_len) 4 key else none

module _ (vid_len part : ℕ) (vid : List ℕ) (tag : ℕ) (fits : length vid ≤ vid_len) where
  abbrev item : List ℕ
  item = le_bytes 4 (key_item part KeyType.vertex)

  pub length-vertex_bytes : length (vertex_bytes vid_len part vid tag) ≡ vertex_len + vid_len
  length-vertex_bytes = omega (
    arith,
    length-append item (pad vid_len vid ++ le_bytes 4 tag),
    length-append (pad vid_len vid) (le_bytes 4 tag),
    length-pad vid_len vid fits,
    length-le_bytes 4 (key_item part KeyType.vertex),
    length-le_bytes 4 tag,
  )

  is_vertex-bytes : is_vertex vid_len (vertex_bytes vid_len part vid tag) ≡ some true
  unfolding is_vertex
  is_vertex-bytes = ground (
    arith,
    length-vertex_bytes,
    has_type-first_item part KeyType.vertex (pad vid_len vid ++ le_bytes 4 tag),
  )

  get_vertex_id-bytes :
      get_vertex_id vid_len (vertex_bytes vid_len part vid tag) ≡ some (pad vid_len vid)
  unfolding get_vertex_id
  get_vertex_id-bytes = ground (
    arith,
    length-vertex_bytes,
    piece_at 4 vid_len (vertex_bytes vid_len part vid tag) item (pad vid_len vid) (le_bytes 4 tag)
        refl (length-le_bytes 4 (key_item part KeyType.vertex)) (length-pad vid_len vid fits),
  )

  length-head : length (item ++ pad vid_len vid) ≡ 4 + vid_len
  length-head = omega (
    arith,
    length-append item (pad vid_len vid),
    length-le_bytes 4 (key_item part KeyType.vertex),
    length-pad vid_len vid fits,
  )

  get_tag_id-bytes :
      tag < 2 ^ 32 → get_tag_id vid_len (vertex_bytes vid_len part vid tag) ≡ some tag
  unfolding get_tag_id
  get_tag_id-bytes ht = ground (
    arith,
    length-vertex_bytes,
    read_int_at (4 + vid_len) 4 tag (vertex_bytes vid_len part vid tag) (item ++ pad vid_len vid) []
        (simp (append_assoc, append-nil)) length-head (omega arith),
  )

-- A vertex key that could be built, of a partition id of 24 bits, is a vertex key, and it gives
-- back its partition, its vertex id, padded with zero bytes, and its tag.
vertex_key_fields :
    (vid_len part : ℕ) (vid : List ℕ) (tag : ℕ) {key : List ℕ}
    → IsPart part
    → tag < 2 ^ 32
    → vertex_key vid_len part vid tag ≡ some key
    → (is_vertex vid_len key ≡ some true)
      × (get_part key ≡ some part)
      × (get_vertex_id vid_len key ≡ some (pad vid_len vid))
      × (get_tag_id vid_len key ≡ some tag)
unfolding vertex_key
vertex_key_fields vid_len part vid tag hp ht e =
    let (fits, same) = some_if_eq (leb (length vid) vid_len) e in
    let fits = leb→le _ _ fits in
    rw (← same) (
      is_vertex-bytes vid_len part vid tag fits,
      first_item part KeyType.vertex (pad vid_len vid ++ le_bytes 4 tag) hp,
      get_vertex_id-bytes vid_len part vid tag fits,
      get_tag_id-bytes vid_len part vid tag fits ht,
    )
