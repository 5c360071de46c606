-- ===== src/Raft/Entries.antt =====
-- The entries of an append request, and what the virtual functions of RaftPart keep.
use nebula_storage.Prelude.{
  ℕ, ◌+◌, ◌<◌, ◌≡◌, refl, ◌∙◌, Bool, true, false, List, [], ◌∷◌, arith, length,
}
use nebula_storage.Wal.{Wal, LogEntry, append_log, append_logs, store, and_then}
use nebula_storage.Wal.Append.{HasPosIds, last_id_of}
use nebula_storage.Raft.{RaftPart}
use nebula_storage.Raft.Append.{log_entries}

pub log_entries-HasPosIds :
    (id term : ℕ) (logs : List (ℕ × List ℕ)) → 0 < id → HasPosIds (log_entries id term logs)
unfolding log_entries
log_entries-HasPosIds id term [] pos = tt
log_entries-HasPosIds id term ((c, log) ∷ rest) pos =
    (pos, log_entries-HasPosIds (id + 1) term rest (omega arith))

pub last_id_of-log_entries :
    (id term d : ℕ) (logs : List (ℕ × List ℕ))
    → 0 < length logs
    → last_id_of d (log_entries (id + 1) term logs) ≡ id + length logs
unfolding log_entries
last_id_of-log_entries id term d [] some_log = omega arith
last_id_of-log_entries id term d ((c, log) ∷ []) some_log = omega arith
last_id_of-log_entries id term d ((c, log) ∷ (x ∷ rest)) some_log =
    let more = last_id_of-log_entries (id + 1) term (id + 1) (x ∷ rest) (omega arith) in omega arith

-- The virtual commitLogs leaves the log of the part alone.
pub record KeepsLog (commit : List LogEntry → RaftPart → Bool × RaftPart) : Type 0 where
  pub wal : (es : List LogEntry) (p : RaftPart) → (commit es p).1.wal ≡ p.wal
  pub last_log_id :
      (es : List LogEntry) (p : RaftPart) → (commit es p).1.last_log_id ≡ p.last_log_id

-- The virtual preProcessLog does not commit.
abbrev pub KeepsCommitted : (LogEntry → RaftPart → Bool × RaftPart) → Type 0
KeepsCommitted pre =
    (e : LogEntry) (p : RaftPart) → (pre e p).1.committed_log_id ≡ p.committed_log_id

module _ (pre : LogEntry → RaftPart → Bool × RaftPart) where
  store-committed :
      (now : ℕ) (e : LogEntry) (w : Wal) (x : Bool × RaftPart)
      → (store now e w x).1.0.committed_log_id ≡ x.1.committed_log_id
  store-committed now e w (true, s) = refl
  store-committed now e w (false, s) = refl

  append_log-committed :
      (now : ℕ) (e : LogEntry) (p : RaftPart) (w : Wal)
      → KeepsCommitted pre
      → (append_log now pre e (p, w)).1.0.committed_log_id ≡ p.committed_log_id
  unfolding append_log
  append_log-committed now e p w keeps =
      let stored = store-committed now e w (pre e p) in let kept = keeps e p in ground arith

  and_then-committed :
      (rest : RaftPart × Wal → Bool × (RaftPart × Wal)) (n : ℕ) (x : Bool × (RaftPart × Wal))
      → ((q : RaftPart) (v : Wal) → (rest (q, v)).1.0.committed_log_id ≡ q.committed_log_id)
      → x.1.0.committed_log_id ≡ n
      → (and_then rest x).1.0.committed_log_id ≡ n
  and_then-committed rest n (true, (q, v)) more h = more q v ∙ h
  and_then-committed rest n (false, (q, v)) more h = h

  pub append_logs-committed :
      (now : ℕ) (es : List LogEntry) (p : RaftPart) (w : Wal)
      → KeepsCommitted pre
      → (append_logs now pre es (p, w)).1.0.committed_log_id ≡ p.committed_log_id
  unfolding append_logs
  append_logs-committed now [] p w keeps = refl
  append_logs-committed now (e ∷ es) p w keeps =
      and_then-committed (append_logs now pre es) p.committed_log_id (append_log now pre e (p, w))
        (λ q v. append_logs-committed now es q v keeps) (append_log-committed now e p w keeps)
