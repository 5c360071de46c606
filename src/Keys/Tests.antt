-- ===== src/Keys/Tests.antt =====
-- Keys of partition 3 with vertex ids of two bytes, and what the theorems say of them.
use nebula_storage.Prelude.{ℕ, ◌≡◌, refl, true, false, List, [], ◌∷◌, ◌++◌, some, arith}
use nebula_storage.Bytes.Words.{le_bytes}
use nebula_storage.Bytes.Order.{lex_compare}
use nebula_storage.Keys.{KeyType, key_item, pad, get_part}
use nebula_storage.Keys.Rank.{encode_int64, signed64, compare_ℤ, lex_compare-encode_int64}
use nebula_storage.Keys.Vertex.{vertex_key, vertex_bytes}
use nebula_storage.Keys.Edge.{
  edge_body, edge_key, is_edge, is_lock, get_src_id, get_dst_id, get_edge_type, get_rank,
  edge_key_fields,
}
use nebula_storage.Keys.Prefix.{
  vertex_prefix, part_prefix, snapshot_prefix, in_scan, snapshot_prefix_scan,
}

abbrev vid : List ℕ
vid = 65 ∷ []

abbrev other_vid : List ℕ
other_vid = 66 ∷ 67 ∷ []

-- The rank -2, as a bit pattern.
abbrev minus_two : ℕ
minus_two = 18446744073709551614

abbrev person_key : List ℕ
person_key = vertex_bytes 2 3 vid 7

abbrev road_body : List ℕ
road_body = edge_body 2 3 vid 9 minus_two other_vid

person_key_built : vertex_key 2 3 vid 7 ≡ some person_key
unfolding vertex_key
person_key_built = refl

road_key_built : (ev : ℕ) → edge_key 2 3 vid 9 minus_two other_vid ev ≡ some (road_body ++ ev ∷ [])
unfolding edge_key
road_key_built ev = refl

prefix_built : vertex_prefix 2 3 vid ≡ some (part_prefix KeyType.vertex 3 ++ pad 2 vid)
unfolding vertex_prefix
prefix_built = refl

edge_key_fields_example :
    let key = road_body ++ 1 ∷ [] in
    (is_edge 2 key ≡ some true)
    × (is_lock 2 key ≡ some false)
    × (get_part key ≡ some 3)
    × (get_src_id 2 key ≡ some (pad 2 vid))
    × (get_edge_type 2 key ≡ some 9)
    × (get_rank 2 key ≡ some minus_two)
    × (get_dst_id 2 key ≡ some (pad 2 other_vid))
edge_key_fields_example =
    edge_key_fields 2 3 vid 9 minus_two other_vid 1 (omega arith) (omega arith) (omega arith)
      (road_key_built 1)

lex_compare-encode_int64_example :
    lex_compare (encode_int64 minus_two) (encode_int64 5)
    ≡ compare_ℤ (signed64 minus_two) (signed64 5)
lex_compare-encode_int64_example = lex_compare-encode_int64 minus_two 5 (omega arith) (omega arith)

snapshot_prefix_scan_example :
    in_scan (snapshot_prefix 3) (le_bytes 4 (key_item 3 KeyType.key_value) ++ vid) ≡ false
snapshot_prefix_scan_example =
    snapshot_prefix_scan 3 3 KeyType.key_value vid (omega arith) (omega arith) (omega arith)
