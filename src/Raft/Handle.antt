-- ===== src/Raft/Handle.antt =====
-- RaftPart::processAppendLogRequest as a whole, over the steps of Raft/Append.antt, and
-- processSendSnapshotRequest. The virtual functions of RaftPart are parameters.
use mathlib.Core.Option
use nebula_storage.Prelude.{
  ℕ, ◌+◌, Bool, true, false, not, ◌&&◌, ◌||◌, List, Option, some, if◌then◌else◌, ltb, leb, ◌==◌,
  ◌>>=◌,
}
use nebula_storage.Wal.{Wal, LogEntry, rollback_to_log, all_entries}
use nebula_storage.Wal
use nebula_storage.Raft.{
  HostAddr, addr_eq, Status, ErrorCode, RaftPart, is_waiting, is_learner_role, is_follower,
  succeeded, e_log_gap, e_log_stale, e_waiting_snapshot, e_bad_state, e_not_ready,
  e_term_out_of_date, e_wal_fail, e_persist_snapshot_failed,
}
use nebula_storage.Raft.Append.{
  AppendLogRequest, AppendLogResponse, verify_leader, reset, first_response, with_code, with_log,
  accept_logs, append_entries,
}

-- The answer where the local log's term is not the leader's: the log goes back to what is committed.
abbrev pub after_rollback : RaftPart → AppendLogResponse → Bool × Wal → RaftPart × AppendLogResponse
after_rollback p a (false, w) = (p, with_code e_log_gap a)
after_rollback p a (true, w) =
    let q : RaftPart = record p {
      wal = w;
      last_log_id = w.last_log_id;
      last_log_term = w.last_log_term;
    } in
    (q, with_code e_log_gap (with_log q a))

module _ (pre : LogEntry → RaftPart → Bool × RaftPart)
    (commit : List LogEntry → RaftPart → Bool × RaftPart) where
  -- A running part, behind the test of the leader.
  unfoldable pub receive_running :
      ℕ → AppendLogRequest → RaftPart → AppendLogResponse → Option (RaftPart × AppendLogResponse)
  receive_running now r p a =
      if ltb r.last_log_id_sent p.committed_log_id
      then (if leb r.last_log_term_sent p.term
          then some (p, with_code e_log_stale a)
          else some
              (reset now p, record a { committed_log_id = 0; last_log_id = 0; last_log_term = 0 }))
      else if ltb 0 p.last_log_term && not (r.last_log_term_sent == p.last_log_term)
      then Option.map (after_rollback p a) (rollback_to_log now p.committed_log_id p.wal)
      else if ltb p.last_log_id r.last_log_id_sent
      then some (p, with_code e_log_gap a)
      else if ltb r.last_log_id_sent p.last_log_id
      then some (p, with_code e_log_stale a)
      else accept_logs pre commit now r p a

  abbrev pub after_waiting : AppendLogResponse → Bool × RaftPart → RaftPart × AppendLogResponse
  after_waiting a (true, q) = (q, with_code succeeded (with_log q a))
  after_waiting a (false, q) = (q, with_code e_wal_fail a)

  -- A part that waits for a snapshot takes the logs and commits nothing.
  unfoldable pub receive_waiting :
      ℕ → AppendLogRequest → RaftPart → AppendLogResponse → Option (RaftPart × AppendLogResponse)
  receive_waiting now r p a =
      if ltb 0 p.last_log_id && ltb p.last_log_id r.last_log_id_sent
      then some (p, with_code e_log_gap a)
      else Option.map (after_waiting a) (append_entries pre commit now r p)

  unfoldable pub receive :
      ℕ → AppendLogRequest → RaftPart → AppendLogResponse → Option (RaftPart × AppendLogResponse)
  unfolding receive_running receive_waiting
  receive now r p a =
      if r.sending_snapshot && not (is_waiting p.status)
      then some (
        record (reset now p) { status = Status.waiting_snapshot },
        with_code e_waiting_snapshot a,
      )
      else if is_waiting p.status
      then receive_waiting now r p a
      else receive_running now r p a

  abbrev pub after_verify :
      ℕ
      → AppendLogRequest
      → AppendLogResponse
      → RaftPart × ErrorCode
      → Option (RaftPart × AppendLogResponse)
  after_verify now r a (p, succeeded) = receive now r (record p { last_msg_recv = now }) a
  after_verify now r a (p, code) = some (p, with_code code a)

  -- A part that is neither stopped nor starting: "Check leadership".
  abbrev pub check_leadership :
      ℕ → ℕ → AppendLogRequest → RaftPart → Option (RaftPart × AppendLogResponse)
  check_leadership secs now r p = do
    done ← verify_leader secs now r p
    after_verify now r (first_response p) done

  unfoldable pub process_append_log :
      ℕ → ℕ → AppendLogRequest → RaftPart → Option (RaftPart × AppendLogResponse)
  unfolding receive
  process_append_log secs now r p = elim p.status [
    | Status.stopped ↦ some (p, with_code e_bad_state (first_response p))
    | Status.starting ↦ some (p, with_code e_not_ready (first_response p))
    | Status.running ↦ check_leadership secs now r p
    | Status.waiting_snapshot ↦ check_leadership secs now r p
  ]

pub record SendSnapshotRequest : Type 0 where
  pub leader : HostAddr
  pub term : ℕ
  pub rows : List (List ℕ)
  pub committed_log_id : ℕ
  pub committed_log_term : ℕ
  pub total_count : ℕ
  pub total_size : ℕ
  pub done : Bool

-- The last rows are here: the log stands where the snapshot does.
unfoldable pub finish_snapshot : ℕ → SendSnapshotRequest → RaftPart → RaftPart
finish_snapshot now r p =
    let behind = ltb p.last_log_id r.committed_log_id in
    record p {
      committed_log_id = r.committed_log_id;
      last_log_id = if behind then r.committed_log_id else p.last_log_id;
      last_log_term = if behind then r.committed_log_term else p.last_log_term;
      wal = if leb p.wal.last_log_id r.committed_log_id then Wal.reset now p.wal else p.wal;
      status = Status.running;
    }

-- The virtual commitSnapshot counts the rows and bytes that it has stored.
module _ (commit_snapshot : SendSnapshotRequest → ℕ × ℕ) where
  unfoldable pub store_snapshot : ℕ → SendSnapshotRequest → RaftPart → RaftPart × ErrorCode
  unfolding finish_snapshot
  store_snapshot now r p =
      let (rows, bytes) = commit_snapshot r in
      let q : RaftPart = record p {
        last_total_count = p.last_total_count + rows;
        last_total_size = p.last_total_size + bytes;
      } in
      if q.last_total_count == r.total_count && q.last_total_size == r.total_size
      then (if r.done then finish_snapshot now r q else q, succeeded)
      else (q, e_persist_snapshot_failed)

  unfoldable pub process_send_snapshot : ℕ → SendSnapshotRequest → RaftPart → RaftPart × ErrorCode
  unfolding store_snapshot
  process_send_snapshot now r p = elim p.status [
    | Status.stopped ↦ (p, e_bad_state)
    | Status.starting ↦ (p, e_not_ready)
    | s ↦
        if not (is_follower p.role) && not (is_learner_role p.role)
        then (p, e_bad_state)
        else if not (addr_eq p.known_leader r.leader) || not (p.term == r.term)
        then (p, e_term_out_of_date)
        else store_snapshot now r (
            if is_waiting p.status
            then p
            else record (reset now p) { status = Status.waiting_snapshot })
  ]
