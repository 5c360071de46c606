-- ===== src/Raft/Committed.antt =====
-- RaftPart::processAppendLogRequest and processSendSnapshotRequest: what becomes of committedLogId_.
use mathlib.Core.Option
use nebula_storage.Prelude.{ℕ, ◌≤◌, ◌≡◌, Bool, true, false, List, Option, arith}
use nebula_storage.Wal.{Wal, LogEntry}
use nebula_storage.Raft.{RaftPart, Status, succeeded, addr_eq_iff}
use nebula_storage.Raft.Handle.{
  SendSnapshotRequest, process_send_snapshot, store_snapshot, finish_snapshot,
}

-- The virtual commitLogs leaves the committed id to its caller.
abbrev pub LeavesCommitted : (List LogEntry → RaftPart → Bool × RaftPart) → Type 0
LeavesCommitted commit =
    (es : List LogEntry) (p : RaftPart) → (commit es p).1.committed_log_id ≡ p.committed_log_id

-- What a snapshot request answers with success leaves behind.
pub record Received (r : SendSnapshotRequest) (p q : RaftPart) : Type 0 where
  pub sender : p.known_leader ≡ r.leader
  pub term : p.term ≡ r.term
  pub counted : (q.last_total_count ≡ r.total_count) × (q.last_total_size ≡ r.total_size)
  pub finished :
      r.done ≡ true
      → (q.status ≡ Status.running)
        × (q.committed_log_id ≡ r.committed_log_id)
        × (r.committed_log_id ≤ q.last_log_id)
  pub pending : r.done ≡ false → q.status ≡ Status.waiting_snapshot

-- Success is answered only to the part's leader in its term and while all rows and bytes sent have
-- arrived. With the last rows the part runs again, its log at or behind the snapshot's last id;
-- until then it waits.
process_send_snapshot-Received :
    (commit_snapshot : SendSnapshotRequest → ℕ × ℕ) (now : ℕ) (r : SendSnapshotRequest)
    (p : RaftPart)
    → (process_send_snapshot commit_snapshot now r p).1 ≡ succeeded
    → Received r p (process_send_snapshot commit_snapshot now r p).0
unfolding process_send_snapshot store_snapshot finish_snapshot
process_send_snapshot-Received commit_snapshot now r p ok = record {
  sender = ground (arith, addr_eq_iff p.known_leader r.leader);
  term = ground arith;
  counted = (ground arith, ground arith);
  finished = λ done. (ground arith, ground arith, ground arith);
  pending = λ more. ground arith;
}
