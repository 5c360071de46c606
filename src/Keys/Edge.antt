-- ===== src/Keys/Edge.antt =====
-- The edge and lock keys of utils/NebulaKeyUtils.cpp and .h. A builder gives `none` where CHECK_GE
-- aborts, and a reader gives `none` where dumpBadKey does.
use nebula_storage.Prelude.{
  ℕ, ◌+◌, ◌*◌, ◌^◌, ◌≤◌, ◌<◌, ◌≡◌, Bool, true, false, List, [], ◌∷◌, ◌++◌, Option, none, some,
  arith, length, leb, ltb, ◌==◌, ◌&&◌, if◌then◌else◌, length-append, append_assoc, some_if_eq,
  last?, set_last, last?-append, set_last-append,
}
use nebula_storage.Bytes.Words.{le_bytes, length-le_bytes}
use nebula_storage.Bytes.Pieces.{piece, read_int, piece_at, read_int_at}
use nebula_storage.Keys.{
  KeyType, key_item, pad, edge_len, get_part, has_type, IsPart, length-pad, first_item,
  has_type-first_item,
}
use nebula_storage.Keys.Rank.{
  encode_int64, decode_int64, length-encode_int64, decode_int64-encode_int64,
}

-- The key up to the version, as `edgePrefix` with all its fields gives it.
abbrev pub edge_body : ℕ → ℕ → List ℕ → ℕ → ℕ → List ℕ → List ℕ
edge_body vid_len part src type rank dst =
    le_bytes 4 (key_item part KeyType.edge)
    ++ (pad vid_len src ++ (le_bytes 4 type ++ (encode_int64 rank ++ pad vid_len dst)))

unfoldable pub edge_key : ℕ → ℕ → List ℕ → ℕ → ℕ → List ℕ → ℕ → Option (List ℕ)
edge_key vid_len part src type rank dst ev =
    if leb (length src) vid_len && leb (length dst) vid_len
    then some (edge_body vid_len part src type rank dst ++ (ev ∷ []))
    else none

-- `rawKey.back() != suffix`, after the test of the size.
abbrev pub has_suffix : ℕ → List ℕ → Option Bool
has_suffix suffix key = elim (last? key) [ none ↦ none | some c ↦ some (c == suffix) ]

abbrev pub and_then : Option Bool → Option Bool → Option Bool
and_then none q = none
and_then (some false) q = some false
and_then (some true) q = q

unfoldable pub is_edge_of : ℕ → List ℕ → ℕ → Option Bool
is_edge_of vid_len key suffix =
    if length key == edge_len + vid_len * 2
    then and_then (has_suffix suffix key) (has_type KeyType.edge key)
    else some false

-- kEdgeVersion and kLockVersion.
abbrev pub edge_version : ℕ
edge_version = 1

abbrev pub lock_version : ℕ
lock_version = 0

unfoldable pub is_edge : ℕ → List ℕ → Option Bool
unfolding is_edge_of
is_edge vid_len key = is_edge_of vid_len key edge_version

unfoldable pub is_lock : ℕ → List ℕ → Option Bool
unfolding is_edge_of
is_lock vid_len key = is_edge_of vid_len key lock_version

abbrev pub with_edge_size {ℓ} : {A : Type ℓ} → ℕ → List ℕ → Option A → Option A
with_edge_size vid_len key r = if ltb (length key) (edge_len + vid_len * 2) then none else r

unfoldable pub get_src_id : ℕ → List ℕ → Option (List ℕ)
get_src_id vid_len key = with_edge_size vid_len key (piece 4 vid_len key)

unfoldable pub get_dst_id : ℕ → List ℕ → Option (List ℕ)
get_dst_id vid_len key = with_edge_size vid_len key (piece (4 + vid_len + 4 + 8) vid_len key)

unfoldable pub get_edge_type : ℕ → List ℕ → Option ℕ
get_edge_type vid_len key = with_edge_size vid_len key (read_int (4 + vid_len) 4 key)

unfoldable pub get_rank : ℕ → List ℕ → Option ℕ
get_rank vid_len key = with_edge_size vid_len key (decode_int64 (4 + vid_len + 4) key)

-- toLockKey and toEdgeKey write the last byte.
unfoldable pub to_lock_key : List ℕ → List ℕ
to_lock_key key = set_last key lock_version

unfoldable pub to_edge_key : List ℕ → List ℕ
to_edge_key key = set_last key edge_version

both_fit :
    (vid_len : ℕ) (src dst : List ℕ)
    → (leb (length src) vid_len && leb (length dst) vid_len) ≡ true
    → (length src ≤ vid_len) × (length dst ≤ vid_len)
both_fit vid_len src dst h = ground arith

module _ (vid_len part : ℕ) (src : List ℕ) (type rank : ℕ) (dst : List ℕ) (ev : ℕ)
    (src_fits : length src ≤ vid_len) (dst_fits : length dst ≤ vid_len) where
  abbrev item : List ℕ
  item = le_bytes 4 (key_item part KeyType.edge)

  abbrev key : List ℕ
  key = edge_body vid_len part src type rank dst ++ (ev ∷ [])

  length-item : length item ≡ 4
  length-item = length-le_bytes 4 (key_item part KeyType.edge)

  length-item_src : length (item ++ pad vid_len src) ≡ 4 + vid_len
  length-item_src =
      omega
        (arith, length-append item (pad vid_len src), length-item, length-pad vid_len src src_fits)

  length-item_type : length ((item ++ pad vid_len src) ++ le_bytes 4 type) ≡ 4 + vid_len + 4
  length-item_type = omega (
    arith,
    length-append (item ++ pad vid_len src) (le_bytes 4 type),
    length-item_src,
    length-le_bytes 4 type,
  )

  length-item_rank :
      length (((item ++ pad vid_len src) ++ le_bytes 4 type) ++ encode_int64 rank)
      ≡ 4 + vid_len + 4 + 8
  length-item_rank = omega (
    arith,
    length-append ((item ++ pad vid_len src) ++ le_bytes 4 type) (encode_int64 rank),
    length-item_type,
    length-encode_int64 rank,
  )

  key_split :
      key
      ≡ (((item ++ pad vid_len src) ++ le_bytes 4 type) ++ encode_int64 rank)
        ++ (pad vid_len dst ++ (ev ∷ []))
  key_split = simp append_assoc

  length-key : length key ≡ edge_len + vid_len * 2
  length-key = rw key_split (
      omega (
        arith,
        length-append (((item ++ pad vid_len src) ++ le_bytes 4 type) ++ encode_int64 rank)
            (pad vid_len dst ++ (ev ∷ [])),
        length-append (pad vid_len dst) (ev ∷ []),
        length-item_rank,
        length-pad vid_len dst dst_fits,
      ))

  type-key : has_type KeyType.edge key ≡ some true
  type-key = rw append_assoc (has_type-first_item part KeyType.edge _)

  is_edge_of-key : (suffix : ℕ) → is_edge_of vid_len key suffix ≡ some (ev == suffix)
  unfolding is_edge_of
  is_edge_of-key suffix =
      ground
        (arith, length-key, last?-append (edge_body vid_len part src type rank dst) ev, type-key)

  src-key : get_src_id vid_len key ≡ some (pad vid_len src)
  unfolding get_src_id
  src-key = ground (
    arith,
    length-key,
    piece_at 4 vid_len key item (pad vid_len src)
        (le_bytes 4 type ++ (encode_int64 rank ++ (pad vid_len dst ++ (ev ∷ []))))
        (simp append_assoc) length-item (length-pad vid_len src src_fits),
  )

  dst-key : get_dst_id vid_len key ≡ some (pad vid_len dst)
  unfolding get_dst_id
  dst-key = ground (
    arith,
    length-key,
    piece_at (4 + vid_len + 4 + 8) vid_len key _ (pad vid_len dst) (ev ∷ []) key_split
        length-item_rank (length-pad vid_len dst dst_fits),
  )

  type_of-key : type < 2 ^ 32 → get_edge_type vid_len key ≡ some type
  unfolding get_edge_type
  type_of-key ht = ground (
    arith,
    length-key,
    read_int_at (4 + vid_len) 4 type key (item ++ pad vid_len src)
        (encode_int64 rank ++ (pad vid_len dst ++ (ev ∷ []))) (simp append_assoc) length-item_src
        (omega arith),
  )

  rank_of-key : rank < 2 ^ 64 → get_rank vid_len key ≡ some rank
  unfolding get_rank
  rank_of-key hr = ground (arith, length-key, rank_read)
    where
      rank_read : decode_int64 (4 + vid_len + 4) key ≡ some rank
      rank_read = rw key_split (
          rw append_assoc (
            decode_int64-encode_int64 (4 + vid_len + 4) rank
              ((item ++ pad vid_len src) ++ le_bytes 4 type) (pad vid_len dst ++ (ev ∷ []))
              length-item_type hr))

-- An edge key that could be built, of a partition id of 24 bits, gives back each of its fields,
-- the vertex ids padded with zero bytes; it is an edge or a lock by its last byte.
pub edge_key_fields :
    (vid_len part : ℕ) (src : List ℕ) (type rank : ℕ) (dst : List ℕ) (ev : ℕ) {key : List ℕ}
    → IsPart part
    → type < 2 ^ 32
    → rank < 2 ^ 64
    → edge_key vid_len part src type rank dst ev ≡ some key
    → (is_edge vid_len key ≡ some (ev == edge_version))
      × (is_lock vid_len key ≡ some (ev == lock_version))
      × (get_part key ≡ some part)
      × (get_src_id vid_len key ≡ some (pad vid_len src))
      × (get_edge_type vid_len key ≡ some type)
      × (get_rank vid_len key ≡ some rank)
      × (get_dst_id vid_len key ≡ some (pad vid_len dst))
unfolding edge_key is_edge is_lock
edge_key_fields vid_len part src type rank dst ev hp ht hr e =
    let (both, same) = some_if_eq (leb (length src) vid_len && leb (length dst) vid_len) e in
    let (hs, hd) = both_fit vid_len src dst both in
    rw (← same) (
      is_edge_of-key vid_len part src type rank dst ev hs hd edge_version,
      is_edge_of-key vid_len part src type rank dst ev hs hd lock_version,
      rw append_assoc (first_item part KeyType.edge _ hp),
      src-key vid_len part src type rank dst ev hs hd,
      type_of-key vid_len part src type rank dst ev hs hd ht,
      rank_of-key vid_len part src type rank dst ev hs hd hr,
      dst-key vid_len part src type rank dst ev hs hd,
    )

-- The lock of an edge is its key with another last byte: where both could be built, `toLockKey`
-- and `toEdgeKey` go between the key of version 1 and the key of version 0.
to_lock_key-edge_key :
    (vid_len part : ℕ) (src : List ℕ) (type rank : ℕ) (dst : List ℕ) {key lock : List ℕ}
    → edge_key vid_len part src type rank dst edge_version ≡ some key
    → edge_key vid_len part src type rank dst lock_version ≡ some lock
    → (to_lock_key key ≡ lock) × (to_edge_key lock ≡ key)
unfolding edge_key to_lock_key to_edge_key
to_lock_key-edge_key vid_len part src type rank dst e f =
    let fits = leb (length src) vid_len && leb (length dst) vid_len in
    let (_, same_key) = some_if_eq fits e in
    let (_, same_lock) = some_if_eq fits f in
    let body = edge_body vid_len part src type rank dst in
    rw (← same_key, ← same_lock)
      (
        set_last-append body edge_version lock_version,
        set_last-append body lock_version edge_version,
      )
