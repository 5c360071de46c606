-- ===== src/Part.antt =====
-- kvstore/Part.cpp: the writes of a client as logs, and what Part::commitLogs and commitSnapshot write to
-- the engine. A batch is the list of its calls; that RocksDB takes a call and commits the batch is
-- left to the engine. `none` stands for a read past the end of a log or a failed DCHECK or CHECK.
use mathlib.Core.Option
use nebula_storage.Prelude.{
  ℕ, zero, suc, ◌+◌, ◌*◌, ◌<◌, ◌^◌, ◌≡◌, refl, sym, ap, ◌∙◌, Bool, true, false, List, [], ◌∷◌, ◌++◌,
  Option, none, some, arith, length, map, if◌then◌else◌, ◌==◌, ◌>>=◌, last?, drop,
}
use nebula_storage.Bytes.Words.{le_bytes}
use nebula_storage.Bytes.Pieces.{read_int}
use nebula_storage.Keys.System.{system_commit_key}
use nebula_storage.LogEncoder.{LogType, log_code}
use nebula_storage.LogEncoder.Single.{
  encode_kv, decode_kv, encode_single_value, decode_single_value, get_timestamp, get_type,
}
use nebula_storage.LogEncoder.Multi.{
  encode_multi_values, encode_multi_pairs, encode_two_values, decode_multi_values,
}
use nebula_storage.LogEncoder.Batch.{
  BatchOp, BatchLogType, Decoded, batch_code, encode_batch_value, decode_batch_value,
}
use nebula_storage.Wal.{LogEntry}
use nebula_storage.Raft.{HostAddr, RaftPart}
use nebula_storage.Raft.Peers.{commit_trans_leader, commit_remove_peer}
use nebula_storage.Raft.Part.{is_newer_than}
pub mod Commands
pub mod Commit
pub mod Snapshot
mod Tests

-- The calls of a WriteBatch.
pub data WriteOp : Type 0 where
  put : List ℕ → List ℕ → WriteOp
  remove : List ℕ → WriteOp
  remove_range : List ℕ → List ℕ → WriteOp

-- OP_PUT and OP_REMOVE_RANGE have two pieces.
abbrev pub two_pieces : (List ℕ → List ℕ → WriteOp) → List (List ℕ) → Option (List WriteOp)
two_pieces f (a ∷ (b ∷ [])) = some (f a b ∷ [])
two_pieces f _ = none

abbrev pub in_pairs : List (List ℕ) → Option (List WriteOp)
in_pairs [] = some []
in_pairs (k ∷ []) = none
in_pairs (k ∷ (v ∷ rest)) = Option.map (λ ops. put k v ∷ ops) (in_pairs rest)

-- An operation of an OP_BATCH_WRITE log; a type that is none of the three writes nothing.
abbrev pub batch_writes : List Decoded → List WriteOp
batch_writes [] = []
batch_writes ((code, key, val) ∷ rest) =
    if code == batch_code BatchLogType.op_batch_put
    then put key val ∷ batch_writes rest
    else if code == batch_code BatchLogType.op_batch_remove
    then remove key ∷ batch_writes rest
    else if code == batch_code BatchLogType.op_batch_remove_range
    then remove_range key val ∷ batch_writes rest
    else batch_writes rest

-- The switch of commitLogs on the type of a log, as far as it writes.
unfoldable pub writes_of_type : ℕ → List ℕ → Option (List WriteOp)
writes_of_type code log =
    if code == log_code LogType.op_put
    then (do pieces ← decode_multi_values log; two_pieces put pieces)
    else if code == log_code LogType.op_multi_put
    then (do kvs ← decode_multi_values log; in_pairs kvs)
    else if code == log_code LogType.op_remove
    then Option.map (λ key. remove key ∷ []) (decode_single_value log)
    else if code == log_code LogType.op_multi_remove
    then Option.map (λ keys. map remove keys) (decode_multi_values log)
    else if code == log_code LogType.op_remove_range
    then (do range ← decode_multi_values log; two_pieces remove_range range)
    else if code == log_code LogType.op_batch_write
    then Option.map batch_writes (decode_batch_value log)
    else some []

-- The logs that change the group when they are committed; `fresh` says that the log is younger than
-- the part's start.
unfoldable pub commit_peers : ℕ → Bool → HostAddr → ℕ → RaftPart → Option RaftPart
commit_peers code fresh host now p =
    if code == log_code LogType.op_trans_leader
    then some (if fresh then commit_trans_leader now host p else p)
    else if code == log_code LogType.op_remove_peer
    then (if fresh then commit_remove_peer host p else some p)
    else some p

-- putCommitMsg, with the id and term of the last log.
unfoldable pub commit_message : ℕ → ℕ → ℕ → WriteOp
commit_message part id term = put (system_commit_key part) (le_bytes 8 id ++ le_bytes 8 term)

-- lastCommittedLogId, on the value that it finds.
unfoldable pub last_committed : List ℕ → Option (ℕ × ℕ)
last_committed val =
    if length val == 8 + 8
    then (do id ← read_int 0 8 val; term ← read_int 8 8 val; some (id, term))
    else none

abbrev pub end_of_batch : ℕ → Option LogEntry → List WriteOp
end_of_batch part none = []
end_of_batch part (some e) = commit_message part e.id e.term ∷ []

-- The deserializer of addresses, the part's start and the time of the call.
module _ (host_of : List ℕ → HostAddr) (start now : ℕ) where
  unfoldable pub commit_switch : List ℕ → RaftPart → Option (List WriteOp × RaftPart)
  unfolding writes_of_type commit_peers
  commit_switch log p = do
    code ← get_type log
    ops ← writes_of_type code log
    q ← commit_peers code (is_newer_than start (get_timestamp log)) (host_of (drop 9 log)) now p
    some (ops, q)

  -- One round of the loop of commitLogs; an empty log is a heartbeat.
  unfoldable pub commit_log : List ℕ → RaftPart → Option (List WriteOp × RaftPart)
  commit_log [] p = some ([], p)
  commit_log (b ∷ bs) p = commit_switch (b ∷ bs) p

  unfoldable pub commit_all : List LogEntry → RaftPart → Option (List WriteOp × RaftPart)
  unfolding commit_log
  commit_all [] p = some ([], p)
  commit_all (e ∷ es) p = do
    (ops, p') ← commit_log e.msg p
    (more, q) ← commit_all es p'
    some (ops ++ more, q)

  -- The batch that commitLogs commits, and the part after it.
  unfoldable pub commit_logs : ℕ → List LogEntry → RaftPart → Option (List WriteOp × RaftPart)
  unfolding commit_all
  commit_logs part es p = do
    (ops, q) ← commit_all es p
    some (ops ++ end_of_batch part (last? es), q)

-- commitSnapshot: the batch, the number of rows and the sum of their sizes.
unfoldable pub snapshot_rows : List (List ℕ) → Option (List WriteOp × (ℕ × ℕ))
snapshot_rows [] = some ([], (0, 0))
snapshot_rows (row ∷ rows) = do
  (key, val) ← decode_kv row
  (ops, (count, size)) ← snapshot_rows rows
  some (put key val ∷ ops, (suc count, size + length row))

unfoldable pub commit_snapshot : ℕ → List (List ℕ) → ℕ → ℕ → Bool → Option (List WriteOp × (ℕ × ℕ))
unfolding snapshot_rows
commit_snapshot part rows id term finished = do
  (ops, counted) ← snapshot_rows rows
  some (ops ++ (if finished then commit_message part id term ∷ [] else []), counted)
