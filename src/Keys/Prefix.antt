-- ===== src/Keys/Prefix.antt =====
-- The prefixes of utils/NebulaKeyUtils.cpp by which keys are scanned: vertexPrefix, edgePrefix,
-- indexPrefix and snapshotPrefix. A scan visits the keys that start with its prefix.
use nebula_storage.Prelude.{
  ℕ, zero, suc, ◌+◌, ◌*◌, ◌/◌, ◌%◌, ◌^◌, ◌<◌, ◌≡◌, ◌≢◌, ◌↔◌, refl, sym, ◌∙◌, Bool, true, false,
  List, [], ◌∷◌, ◌++◌, Option, none, some, arith, length, ◌==◌, ◌&&◌, ◌||◌, if◌then◌else◌, leb,
  leb→le, some_if_eq,
}
use nebula_storage.Bytes.Words.{le_bytes}
use nebula_storage.Keys.{KeyType, key_code, key_item, pad, IsPart, key_item-lt, length-pad}
use nebula_storage.Keys.Vertex.{vertex_key}

unfoldable pub starts_with : List ℕ → List ℕ → Bool
starts_with [] k = true
starts_with (x ∷ p) [] = false
starts_with (x ∷ p) (y ∷ k) = (x == y) && starts_with p k

-- vertexPrefix(partId), edgePrefix(partId) and indexPrefix(partId).
abbrev pub part_prefix : KeyType → ℕ → List ℕ
part_prefix t part = le_bytes 4 (key_item part t)

-- vertexPrefix(vIdLen, partId, vId).
unfoldable pub vertex_prefix : ℕ → ℕ → List ℕ → Option (List ℕ)
vertex_prefix vid_len part vid =
    if leb (length vid) vid_len
    then some (part_prefix KeyType.vertex part ++ pad vid_len vid)
    else none

-- edgePrefix(vIdLen, partId, srcId) and edgePrefix(vIdLen, partId, srcId, type).
unfoldable pub edge_prefix_src : ℕ → ℕ → List ℕ → Option (List ℕ)
edge_prefix_src vid_len part src =
    if leb (length src) vid_len
    then some (part_prefix KeyType.edge part ++ pad vid_len src)
    else none

unfoldable pub edge_prefix_type : ℕ → ℕ → List ℕ → ℕ → Option (List ℕ)
edge_prefix_type vid_len part src type =
    if leb (length src) vid_len
    then some (part_prefix KeyType.edge part ++ (pad vid_len src ++ le_bytes 4 type))
    else none

unfoldable pub snapshot_prefix : ℕ → List (List ℕ)
snapshot_prefix part =
    if part == 0
    then [] ∷ []
    else (part_prefix KeyType.vertex part
        ∷ part_prefix KeyType.edge part
        ∷ part_prefix KeyType.index part
        ∷ [])

-- Some prefix of the list is one of the key.
unfoldable pub in_scan : List (List ℕ) → List ℕ → Bool
in_scan [] key = false
in_scan (p ∷ ps) key = starts_with p key || in_scan ps key

-- What snapshotPrefix takes of a part.
abbrev pub is_snapshot_type : KeyType → Bool
is_snapshot_type KeyType.vertex = true
is_snapshot_type KeyType.edge = true
is_snapshot_type KeyType.index = true
is_snapshot_type _ = false

starts_with-append : (p q k : List ℕ) → starts_with (p ++ q) (p ++ k) ≡ starts_with q k
unfolding starts_with
starts_with-append [] q k = refl
starts_with-append (x ∷ p) q k = ground (arith, starts_with-append p q k)

-- Integers of one width are equal where one is a prefix.
starts_with-le_bytes :
    (n a b : ℕ) (rest : List ℕ)
    → a < 256 ^ n
    → b < 256 ^ n
    → starts_with (le_bytes n a) (le_bytes n b ++ rest) ≡ (a == b)
unfolding starts_with le_bytes
starts_with-le_bytes zero a b rest ha hb = ground arith
starts_with-le_bytes (suc n) a b rest ha hb =
    ground (arith, starts_with-le_bytes n (a / 256) (b / 256) rest (omega arith) (omega arith))

-- The same with something behind the integer on both sides.
starts_with-le_bytes_append :
    (n a b : ℕ) (q rest : List ℕ)
    → a < 256 ^ n
    → b < 256 ^ n
    → starts_with (le_bytes n a ++ q) (le_bytes n b ++ rest) ≡ ((a == b) && starts_with q rest)
unfolding starts_with le_bytes
starts_with-le_bytes_append zero a b q rest ha hb = ground arith
starts_with-le_bytes_append (suc n) a b q rest ha hb =
    ground
      (arith, starts_with-le_bytes_append n (a / 256) (b / 256) q rest (omega arith) (omega arith))

key_code-lt : (t : KeyType) → key_code t < 256
key_code-lt KeyType.vertex = omega arith
key_code-lt KeyType.edge = omega arith
key_code-lt KeyType.index = omega arith
key_code-lt KeyType.system = omega arith
key_code-lt KeyType.operation = omega arith
key_code-lt KeyType.key_value = omega arith

item_eq :
    (p q c d : ℕ)
    → c < 256
    → d < 256
    → IsPart p
    → IsPart q
    → (p * 2 ^ 8 % 2 ^ 32 + c == q * 2 ^ 8 % 2 ^ 32 + d) ≡ ((c == d) && (p == q))
item_eq p q c d hc hd hp hq = ground arith

-- The first four bytes of a key tell its partition and its type.
key_item-eq :
    (p q : ℕ) (t u : KeyType)
    → IsPart p
    → IsPart q
    → (key_item p t == key_item q u) ≡ ((key_code t == key_code u) && (p == q))
key_item-eq p q t u hp hq =
    item_eq p q (key_code t) (key_code u) (key_code-lt t) (key_code-lt u) hp hq

pub starts_with-part_prefix :
    (p q : ℕ) (t u : KeyType) (rest : List ℕ)
    → IsPart p
    → IsPart q
    → starts_with (part_prefix t p) (le_bytes 4 (key_item q u) ++ rest)
      ≡ ((key_code t == key_code u) && (p == q))
starts_with-part_prefix p q t u rest hp hq =
    starts_with-le_bytes 4 (key_item p t) (key_item q u) rest (key_item-lt p t) (key_item-lt q u)
    ∙ key_item-eq p q t u hp hq

-- Where the prefix and the part of the key that it meets have one length, they must be equal.
starts_with_same_length :
    (p q rest : List ℕ) → length p ≡ length q → (starts_with p (q ++ rest) ≡ true) ↔ (p ≡ q)
unfolding starts_with
starts_with_same_length [] [] rest e = (λ _. refl, λ _. refl)
starts_with_same_length [] (y ∷ q) rest e = absurd (omega arith)
starts_with_same_length (x ∷ p) [] rest e = absurd (omega arith)
starts_with_same_length (x ∷ p) (y ∷ q) rest e =
    let (there, back) = starts_with_same_length p q rest (omega arith) in
    (λ h. ground arith, λ h. ground arith)

-- For partition ids of 24 bits the scan of a vertex's prefix visits the keys of that partition and
-- that (padded) vertex id, of every tag, and no other vertex key.
vertex_prefix_scan :
    (vid_len part part' : ℕ) (vid vid' : List ℕ) (tag : ℕ) {prefix key : List ℕ}
    → IsPart part
    → IsPart part'
    → vertex_prefix vid_len part' vid' ≡ some prefix
    → vertex_key vid_len part vid tag ≡ some key
    → (starts_with prefix key ≡ true) ↔ ((part' ≡ part) × (pad vid_len vid' ≡ pad vid_len vid))
unfolding vertex_prefix vertex_key
vertex_prefix_scan vid_len part part' vid vid' tag hp hp' e f =
    let (fits', same') = some_if_eq (leb (length vid') vid_len) e in
    let (fits, same) = some_if_eq (leb (length vid) vid_len) f in
    let long' = length-pad vid_len vid' (leb→le (length vid') vid_len fits') in
    let long = length-pad vid_len vid (leb→le (length vid) vid_len fits) in
    let (there, back) =
      starts_with_same_length (pad vid_len vid') (pad vid_len vid) (le_bytes 4 tag)
        (long' ∙ sym long) in
    rw (← same, ← same')
      (rw
        (
          starts_with-le_bytes_append 4 (key_item part' KeyType.vertex)
              (key_item part KeyType.vertex) (pad vid_len vid') (pad vid_len vid ++ le_bytes 4 tag)
              (key_item-lt part' KeyType.vertex) (key_item-lt part KeyType.vertex),
          key_item-eq part' part KeyType.vertex KeyType.vertex hp' hp,
        )
        (λ h. ground (arith, there), λ h. ground (arith, back)))

-- For partition ids of 24 bits, a snapshot of a partition other than 0 sends a key exactly if the
-- key belongs to that partition and is a vertex, an edge or an index: system, operation and plain
-- key-value keys stay behind.
pub snapshot_prefix_scan :
    (part part' : ℕ) (t : KeyType) (rest : List ℕ)
    → IsPart part
    → IsPart part'
    → part ≢ 0
    → in_scan (snapshot_prefix part) (le_bytes 4 (key_item part' t) ++ rest)
      ≡ ((part == part') && is_snapshot_type t)
unfolding in_scan snapshot_prefix
snapshot_prefix_scan part part' t rest hp hp' nz = ground (
  arith,
  starts_with-part_prefix part part' KeyType.vertex t rest hp hp',
  starts_with-part_prefix part part' KeyType.edge t rest hp hp',
  starts_with-part_prefix part part' KeyType.index t rest hp hp',
)
