-- ===== src/Raft/Batches.antt =====
-- RaftPart.cpp, class AppendLogsIterator: the logs that clients have handed in, as the batches in which a
-- leader writes them. An atomic operation is the result that its callback gives on its one call.
use nebula_storage.Prelude.{
  ℕ, zero, suc, ◌+◌, Bool, true, false, not, ◌&&◌, ◌||◌, List, [], ◌∷◌, ◌++◌, Option, none, some,
  length, if◌then◌else◌,
}
use nebula_storage.Wal.{LogEntry}

-- raftex::LogType.
pub data LogKind : Type 0 where
  normal command atomic_op : LogKind

-- An element of `LogCache`; `op` is for atomic operations.
pub record CachedLog : Type 0 where
  pub cluster : ℕ
  pub kind : LogKind
  pub msg : List ℕ
  pub op : Option (List ℕ)

-- The logs from `idx_` on, and the other fields that change.
pub record LogsIterator : Type 0 where
  pub log_id : ℕ
  pub term : ℕ
  pub logs : List CachedLog
  pub lead_by_atomic_op : Bool
  pub has_non_atomic_op_logs : Bool
  pub valid : Bool
  pub last_log_type : LogKind
  pub curr_log_type : LogKind
  pub op_result : Option (List ℕ)

abbrev pub is_atomic : LogKind → Bool
is_atomic atomic_op = true
is_atomic _ = false

abbrev pub is_command : LogKind → Bool
is_command command = true
is_command _ = false

-- processAtomicOp: operations that fail are passed over. It gives whether an operation leads, the
-- operations' last result, and the logs that are left.
unfoldable pub process_atomic_op :
    List CachedLog → Option (List ℕ) → Bool × (Option (List ℕ) × List CachedLog)
process_atomic_op [] last = (false, (last, []))
process_atomic_op (l ∷ ls) last =
    let rest = process_atomic_op ls none in
    if is_atomic l.kind
    then elim l.op [ some r ↦ (true, (some r, l ∷ ls)) | none ↦ rest ]
    else (false, (last, l ∷ ls))

-- The end of the constructor and of `resume`.
abbrev pub settle : LogsIterator → Bool × (Option (List ℕ) × List CachedLog) → LogsIterator
settle it (lead, (r, [])) = record it {
  logs = [];
  lead_by_atomic_op = lead;
  has_non_atomic_op_logs = false;
  valid = false;
  op_result = r;
}
settle it (lead, (r, l ∷ ls)) = record it {
  logs = l ∷ ls;
  lead_by_atomic_op = lead;
  has_non_atomic_op_logs = not lead;
  valid = true;
  last_log_type = l.kind;
  curr_log_type = l.kind;
  op_result = r;
}

-- The fields as the constructor's body finds them.
abbrev pub initial : ℕ → ℕ → List CachedLog → LogsIterator
initial first term logs = record {
  log_id = first;
  term = term;
  logs = logs;
  lead_by_atomic_op = false;
  has_non_atomic_op_logs = false;
  valid = true;
  last_log_type = normal;
  curr_log_type = normal;
  op_result = none;
}

unfoldable pub new_iterator : ℕ → ℕ → List CachedLog → LogsIterator
new_iterator first term logs = settle (initial first term logs) (process_atomic_op logs none)

abbrev pub resume_at : LogsIterator → List CachedLog → LogsIterator
resume_at it [] = it
resume_at it (l ∷ ls) = settle it (process_atomic_op (l ∷ ls) it.op_result)

-- resume, where logs are left.
unfoldable pub resume : LogsIterator → LogsIterator
resume it = resume_at it it.logs

-- operator++, behind the log that was current.
abbrev pub step_to : LogsIterator → List CachedLog → LogsIterator
step_to it [] = record it { log_id = it.log_id + 1; logs = []; valid = false }
step_to it (l ∷ ls) = record it {
  log_id = it.log_id + 1;
  logs = l ∷ ls;
  curr_log_type = l.kind;
  has_non_atomic_op_logs = not (is_atomic l.kind) || it.has_non_atomic_op_logs;
  valid = not (is_atomic l.kind) && not (is_command it.last_log_type);
  last_log_type = l.kind;
}

abbrev pub result_or_empty : Option (List ℕ) → List ℕ
result_or_empty none = []
result_or_empty (some r) = r

-- logId, logTerm, logSource and logMsg of the current log.
abbrev pub current : LogsIterator → CachedLog → LogEntry
current it l = record {
  id = it.log_id;
  term = it.term;
  cluster = l.cluster;
  msg = if is_atomic it.curr_log_type then result_or_empty it.op_result else l.msg;
}

-- A round of the loop below, with the rounds that follow.
abbrev pub drain_round :
    (LogsIterator → List LogEntry × LogsIterator)
    → LogsIterator
    → List CachedLog
    → List LogEntry × LogsIterator
drain_round more it [] = ([], it)
drain_round more it (l ∷ ls) =
    if it.valid
    then (current it l ∷ (more (step_to it ls)).0, (more (step_to it ls)).1)
    else ([], it)

-- The loop of appendLogs over the iterator, as far as it is valid; at most `fuel` logs.
unfoldable pub drain : ℕ → LogsIterator → List LogEntry × LogsIterator
drain zero it = ([], it)
drain (suc fuel) it = drain_round (drain fuel) it it.logs

abbrev pub batches_of :
    (LogsIterator → List (List LogEntry)) → LogsIterator → List CachedLog → List (List LogEntry)
batches_of more it [] = []
batches_of more it (l ∷ ls) =
    let (batch, it') = drain (suc (length ls)) it in batch ∷ more (resume it')

-- The batches that a leader writes one after the other, each once the one before it is committed.
unfoldable pub batches : ℕ → LogsIterator → List (List LogEntry)
batches zero it = []
batches (suc fuel) it = batches_of (batches fuel) it it.logs

-- What the batches are to hold: the logs in their order, without the operations that failed, under
-- consecutive ids.
unfoldable pub numbered : ℕ → ℕ → List CachedLog → List LogEntry
numbered id term [] = []
numbered id term (l ∷ ls) =
    let next = numbered (id + 1) term ls in
    let same = numbered id term ls in
    if is_atomic l.kind
    then elim l.op [
      | none ↦ same
      | some r ↦ record { id = id; term = term; cluster = l.cluster; msg = r } ∷ next
    ]
    else record { id = id; term = term; cluster = l.cluster; msg = l.msg } ∷ next

abbrev pub concat : List (List LogEntry) → List LogEntry
concat [] = []
concat (b ∷ bs) = b ++ concat bs
