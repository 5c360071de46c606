-- ===== src/Raft/Leader.antt =====
-- RaftPart.cpp: how a leader takes in logs and replicates them: appendLogAsync, appendLogsInternal,
-- replicateLogs and processAppendLogResponses. What a thread has in hand between two of its critical
-- sections is a flight. The promises that tell clients the results are left out; a call that
-- LOG(FATAL) or a CHECK ends gives none.
use nebula_storage.Prelude.{
  ℕ, suc, ◌+◌, Bool, true, false, not, ◌&&◌, ◌||◌, List, [], ◌∷◌, ◌++◌, Option, none, some, leb,
  ltb, ◌*◌, ◌/◌, ◌==◌, length, if◌then◌else◌, get_elem?,
}
use nebula_storage.Wal.{Wal, LogEntry, append_logs}
use nebula_storage.Raft.{
  HostAddr, addr_eq, find_host, is_waiting, Host, Status, RaftPart, ErrorCode, is_running,
  is_leader,
}
use nebula_storage.Raft.Append.{wal_range}
use nebula_storage.Raft.Batches.{
  LogKind, normal, CachedLog, LogsIterator, is_atomic, new_iterator, resume, drain,
}

-- raftex::AppendLogResult.
pub data AppendLogResult : Type 0 where
  appended e_atomic_op_failure e_not_a_leader e_stopped e_not_ready e_buffer_overflow e_wal_failure
        e_term_out_of_date e_sending_snapshot e_invalid_peer e_not_enough_acks e_write_blocking :
      AppendLogResult

-- The fields of the part that only appending touches; `logs_` is `cache`.
pub record Leader : Type 0 where
  pub part : RaftPart
  pub cache : List CachedLog
  pub buffer_over_flow : Bool
  pub replicating_logs : Bool
  pub blocking : Bool

-- The arguments of replicateLogs and of processAppendLogResponses.
pub record Batch : Type 0 where
  pub iter : LogsIterator
  pub curr_term : ℕ
  pub last_log_id : ℕ
  pub committed_id : ℕ
  pub prev_log_term : ℕ
  pub prev_log_id : ℕ
  pub hosts : List Host

pub data Flight : Type 0 where
  swapped : List CachedLog → Flight
  appending : LogsIterator → ℕ → Flight
  replicating : Batch → Flight
  sending : Batch → Flight

abbrev pub is_normal : LogKind → Bool
is_normal normal = true
is_normal _ = false

-- Logs that blocked writes keep out; heartbeats and empty logs pass.
abbrev pub is_write : CachedLog → Bool
is_write l = is_normal l.kind && not (length l.msg == 0) || is_atomic l.kind

-- What appendLogAsync has done when it leaves its first critical section.
pub data Enqueued : Type 0 where
  refused : AppendLogResult → Enqueued
  waiting : Enqueued
  swaps : List CachedLog → Enqueued

-- appendLogAsync, up to the swap of the cached logs.
unfoldable pub enqueue : ℕ → CachedLog → Leader → Leader × Enqueued
enqueue max l a =
    if a.blocking && is_write l
    then (a, refused e_write_blocking)
    else if a.buffer_over_flow
    then (a, refused e_buffer_overflow)
    else if leb max (length a.cache)
    then (record a { buffer_over_flow = true }, refused e_buffer_overflow)
    else if a.replicating_logs
    then (record a { cache = a.cache ++ l ∷ [] }, waiting)
    else (
      record a { cache = []; replicating_logs = true; buffer_over_flow = false },
      swaps (a.cache ++ l ∷ []),
    )

abbrev pub is_starting : Status → Bool
is_starting Status.starting = true
is_starting _ = false

abbrev pub is_stopped : Status → Bool
is_stopped Status.stopped = true
is_stopped _ = false

unfoldable pub can_append_logs : RaftPart → AppendLogResult
can_append_logs p =
    if is_starting p.status
    then e_not_ready
    else if is_stopped p.status
    then e_stopped
    else if is_leader p.role
    then appended
    else e_not_a_leader

abbrev pub is_appended : AppendLogResult → Bool
is_appended appended = true
is_appended _ = false

-- checkAppendLogResult, of a result that is no success. Its section under logsLock_ and the reset of
-- replicatingLogs_ behind it are one step here.
unfoldable pub clean_buffer : Leader → Leader
clean_buffer a = record a { cache = []; buffer_over_flow = false; replicating_logs = false }

-- appendLogAsync, behind the swap.
unfoldable pub begin_append : List CachedLog → Leader → Leader × Option Flight
begin_append logs a =
    if is_appended (can_append_logs a.part)
    then (a, some (appending (new_iterator (a.part.last_log_id + 1) a.part.term logs) a.part.term))
    else (clean_buffer a, none)

-- The guards of appendLogsInternal and of processAppendLogResponses.
unfoldable pub check_term : ℕ → RaftPart → AppendLogResult
check_term term p =
    if not (is_running p.status)
    then e_stopped
    else if not (is_leader p.role)
    then e_not_a_leader
    else if p.term == term
    then appended
    else e_term_out_of_date

abbrev pub after_wal : LogsIterator → Leader → Bool × (RaftPart × Wal) → Leader × Option Flight
after_wal it a (false, (q, w)) = (clean_buffer (record a { part = record q { wal = w } }), none)
after_wal it a (true, (q, w)) = (
  record a { part = record q { wal = w } },
  some (
      replicating (record {
        iter = it;
        curr_term = a.part.term;
        last_log_id = w.last_log_id;
        committed_id = a.part.committed_log_id;
        prev_log_term = a.part.last_log_term;
        prev_log_id = a.part.last_log_id;
        hosts = [];
      })),
)

-- appendLogsInternal, up to its call of replicateLogs. `pre` is the virtual preProcessLog.
unfoldable pub append_logs_internal :
    (LogEntry → RaftPart → Bool × RaftPart) → ℕ → LogsIterator → ℕ → Leader → Leader × Option Flight
append_logs_internal pre now it term a =
    let (es, left) = drain (length it.logs) it in
    if it.valid
    then if is_appended (check_term term a.part)
      then after_wal left a (append_logs now pre es (a.part, a.part.wal))
      else (clean_buffer a, none)
    else (record a { replicating_logs = false }, none)

-- replicateLogs, up to the requests to the hosts. It goes on with the part's own term.
unfoldable pub replicate_logs : Batch → Leader → Leader × Option Flight
replicate_logs b a =
    if is_running a.part.status && is_leader a.part.role
    then (a, some (sending (record b { curr_term = a.part.term; hosts = a.part.hosts })))
    else (clean_buffer a, none)

abbrev pub is_success : ErrorCode → Bool
is_success ErrorCode.succeeded = true
is_success _ = false

abbrev pub is_voter_at : List Host → ℕ → Bool
is_voter_at hs i = elim (get_elem? hs i) [ none ↦ false | some h ↦ not h.is_learner ]

-- `numSucceeded`: a response carries the index of its host.
unfoldable pub count_succeeded : List Host → List (ℕ × ErrorCode) → ℕ
count_succeeded hs [] = 0
count_succeeded hs ((i, code) ∷ rs) =
    if is_voter_at hs i && is_success code
    then suc (count_succeeded hs rs)
    else count_succeeded hs rs

-- "Step 5": the rest of the iterator, else the logs that were cached meanwhile, else nothing.
abbrev pub next_cached : ℕ → ℕ → List CachedLog → Leader → Leader × Option Flight
next_cached first term [] a = (record a { replicating_logs = false }, none)
next_cached first term (l ∷ ls) a =
    let it = new_iterator first term (l ∷ ls) in
    let b = record a { cache = []; buffer_over_flow = false } in
    if length it.logs == 0
    then (record b { replicating_logs = false }, none)
    else (b, some (appending it term))

unfoldable pub next_flight : LogsIterator → ℕ → ℕ → Leader → Leader × Option Flight
next_flight it first term a =
    let next = resume it in
    if length next.logs == 0
    then next_cached first term a.cache a
    else (a, some (appending next term))

-- "Step 3": the batch is committed. A failure is fatal.
abbrev pub after_leader_commit :
    Batch → List LogEntry → Leader → Bool × RaftPart → Option (Leader × Option Flight)
after_leader_commit b es a (false, q) = none
after_leader_commit b es a (true, q) =
    let done = record a {
      part = record q { committed_log_id = b.last_log_id; applied = q.applied ++ es };
    } in
    if a.replicating_logs
    then some (next_flight b.iter (q.last_log_id + 1) b.curr_term done)
    else none

-- processAppendLogResponses, up to its call of appendLogsInternal or of replicateLogs. `commit` is
-- the virtual commitLogs.
unfoldable pub process_append_log_responses :
    (List LogEntry → RaftPart → Bool × RaftPart)
    → List (ℕ × ErrorCode)
    → Batch
    → Leader
    → Option (Leader × Option Flight)
process_append_log_responses commit resps b a =
    let p = record a.part { last_log_id = b.last_log_id; last_log_term = b.curr_term } in
    let es = wal_range (b.committed_id + 1) b.last_log_id a.part.wal in
    if leb a.part.quorum (count_succeeded b.hosts resps)
    then if is_appended (check_term b.curr_term a.part)
      then after_leader_commit b es a (commit es p)
      else some (clean_buffer a, none)
    else some (a, some (replicating b))

-- isCatchedUp, asked by the admin service before a peer is promoted.
unfoldable pub is_catched_up : HostAddr → RaftPart → AppendLogResult
is_catched_up peer p =
    if not (is_leader p.role)
    then e_not_a_leader
    else if addr_eq peer p.addr
    then appended
    else elim (find_host peer p.hosts) [
      | none ↦ e_invalid_peer
      | some h ↦
          if h.follower_committed_log_id == 0
            || ltb h.follower_committed_log_id p.wal.first_log_id
            || h.sending_snapshot
          then e_sending_snapshot
          else appended
    ]

abbrev pub is_sending_snapshot : List Host → Bool
is_sending_snapshot [] = false
is_sending_snapshot (h ∷ hs) = h.sending_snapshot || is_sending_snapshot hs

unfoldable pub need_to_clean_wal : RaftPart → Bool
need_to_clean_wal p =
    if is_starting p.status || is_waiting p.status then false else not (is_sending_snapshot p.hosts)

unfoldable pub need_to_send_heartbeat : ℕ → ℕ → ℕ → RaftPart → Bool
need_to_send_heartbeat now last_accepted interval p =
    (is_running p.status && is_leader p.role) && leb (last_accepted + interval * 1000 * 2 / 5) now
