-- ===== src/Part/Snapshot.antt =====
-- Part::commitSnapshot on the rows that the sender of a snapshot encodes with encodeKV.
use nebula_storage.Prelude.{
  ℕ, ◌+◌, ◌<◌, ◌^◌, ◌≡◌, refl, Bool, List, [], ◌∷◌, ◌++◌, some, length, map, if◌then◌else◌, All,
}
use nebula_storage.LogEncoder.Single.{encode_kv, decode_kv-encode_kv}
use nebula_storage.Part.{WriteOp, put, snapshot_rows, commit_snapshot, commit_message}

abbrev pub row_of : List ℕ × List ℕ → List ℕ
row_of (key, val) = encode_kv key val

abbrev pub ShortRow : List ℕ × List ℕ → Type 0
ShortRow (key, val) = (length key < 2 ^ 32) × (length val < 2 ^ 32)

abbrev pub row_writes : List (List ℕ × List ℕ) → List WriteOp
row_writes [] = []
row_writes ((key, val) ∷ rows) = put key val ∷ row_writes rows

abbrev pub rows_size : List (List ℕ × List ℕ) → ℕ
rows_size [] = 0
rows_size (row ∷ rows) = rows_size rows + length (row_of row)

snapshot_rows-row_of :
    (rows : List (List ℕ × List ℕ))
    → All ShortRow rows
    → snapshot_rows (map row_of rows) ≡ some (row_writes rows, (length rows, rows_size rows))
unfolding snapshot_rows
snapshot_rows-row_of [] h = refl
snapshot_rows-row_of ((key, val) ∷ rows) ((k, v), more) =
    rw (decode_kv-encode_kv key val k v, snapshot_rows-row_of rows more) refl

-- The rows of a snapshot are stored as the sender read them; the counts are those of the rows and of
-- their bytes, and the id and term of the snapshot are stored with the last of them, and only then.
commit_snapshot-row_of :
    (part : ℕ) (rows : List (List ℕ × List ℕ)) (id term : ℕ) (finished : Bool)
    → All ShortRow rows
    → commit_snapshot part (map row_of rows) id term finished
      ≡ some (
        row_writes rows ++ (if finished then commit_message part id term ∷ [] else []),
        (length rows, rows_size rows),
      )
unfolding commit_snapshot
commit_snapshot-row_of part rows id term finished h = rw (snapshot_rows-row_of rows h) refl
