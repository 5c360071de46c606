-- ===== src/Raft/Append.antt =====
-- RaftPart::processAppendLogRequest, with verifyLeader and reset. A handler gives `none` where a CHECK
-- aborts the process. The virtual functions preProcessLog and commitLogs are parameters.
use mathlib.Core.Option
use nebula_storage.Prelude.{
  ℕ, ◌+◌, ◌*◌, ◌-◌, Bool, true, false, not, ◌&&◌, ◌||◌, List, [], ◌∷◌, ◌++◌, Option, none, some,
  length, if◌then◌else◌, ltb, leb, ◌==◌, ◌>>=◌,
}
use nebula_storage.Wal.{Wal, LogEntry, append_logs, rollback_to_log, all_entries}
use nebula_storage.Wal
use nebula_storage.Raft.{
  HostAddr, no_addr, addr_eq, Role, ErrorCode, Task, RaftPart, check_peer, is_leader,
  is_learner_role, succeeded, e_term_out_of_date, e_wrong_leader, e_wal_fail,
}
use nebula_storage.Raft.Vote.{rollback_unsent}

pub record AppendLogRequest : Type 0 where
  pub leader : HostAddr
  pub current_term : ℕ
  pub committed_log_id : ℕ
  pub log_term : ℕ
  pub last_log_id_sent : ℕ
  pub last_log_term_sent : ℕ
  -- The cluster and the text of each log.
  pub log_str_list : List (ℕ × List ℕ)
  pub sending_snapshot : Bool

-- `error_code` is none where the handler sets none.
pub record AppendLogResponse : Type 0 where
  pub error_code : Option ErrorCode
  pub current_term : ℕ
  pub leader : HostAddr
  pub committed_log_id : ℕ
  pub last_log_id : ℕ
  pub last_log_term : ℕ

-- What verifyLeader decides before it changes anything.
pub data Verdict : Type 0 where
  refuse : ErrorCode → Verdict
  same_leader new_leader : Verdict

-- "Leader stickness": a leader that was heard of within a heartbeat is kept.
unfoldable pub is_sticky : ℕ → ℕ → HostAddr → RaftPart → Bool
is_sticky secs now candidate p =
    not (addr_eq p.known_leader no_addr)
    && (not (addr_eq p.known_leader candidate) && ltb (now - p.last_msg_recv) (secs * 1000))

unfoldable pub verify_term : ℕ → ℕ → AppendLogRequest → RaftPart → Verdict
unfolding is_sticky
verify_term secs now r p =
    if ltb r.current_term p.term
    then refuse e_term_out_of_date
    else if ltb p.term r.current_term
    then (if is_sticky secs now r.leader p then refuse e_wrong_leader else new_leader)
    else if not (is_leader p.role) && addr_eq p.known_leader no_addr
    then new_leader
    else if not (is_leader p.role) && addr_eq r.leader p.known_leader
    then same_leader
    else refuse e_term_out_of_date

unfoldable pub judge_leader : ℕ → ℕ → AppendLogRequest → RaftPart → Verdict
unfolding verify_term
judge_leader secs now r p = elim (check_peer r.leader p) [
  | succeeded ↦ verify_term secs now r p
  | code ↦ refuse code
]

-- "Update my state."
abbrev pub follow_leader : AppendLogRequest → RaftPart → Wal → RaftPart
follow_leader r p w = record p {
  role = if is_learner_role p.role then Role.learner else Role.follower;
  known_leader = r.leader;
  term = r.current_term;
  proposed_term = r.current_term;
  voted_addr = no_addr;
  weight = 1;
  is_blind_follower = false;
  wal = w;
  tasks =
      p.tasks
      ++ ((if is_leader p.role then Task.on_lost_leadership p.term ∷ [] else [])
          ++ Task.on_discover_new_leader r.leader ∷ []);
}

abbrev pub answer_leader : ℕ → AppendLogRequest → RaftPart → Verdict → Option (RaftPart × ErrorCode)
answer_leader now r p (refuse code) = some (p, code)
answer_leader now r p same_leader = some (p, succeeded)
answer_leader now r p new_leader =
    Option.map (λ w. (follow_leader r p w, succeeded)) (rollback_unsent now p)

unfoldable pub verify_leader : ℕ → ℕ → AppendLogRequest → RaftPart → Option (RaftPart × ErrorCode)
unfolding judge_leader
verify_leader secs now r p = answer_leader now r p (judge_leader secs now r p)

unfoldable pub reset : ℕ → RaftPart → RaftPart
reset now p = record p {
  wal = Wal.reset now p.wal;
  applied = [];
  last_log_id = 0;
  committed_log_id = 0;
  last_log_term = 0;
  last_total_count = 0;
  last_total_size = 0;
}

-- The entries of a request, as LogStrListIterator numbers them.
unfoldable pub log_entries : ℕ → ℕ → List (ℕ × List ℕ) → List LogEntry
log_entries id term [] = []
log_entries id term ((cluster, log) ∷ rest) =
    record { id = id; term = term; cluster = cluster; msg = log } ∷ log_entries (id + 1) term rest

abbrev pub request_entries : AppendLogRequest → List LogEntry
request_entries r = log_entries (r.last_log_id_sent + 1) r.log_term r.log_str_list

abbrev pub entries_between : ℕ → ℕ → List LogEntry → List LogEntry
entries_between a b [] = []
entries_between a b (e ∷ es) =
    if leb a e.id && leb e.id b then e ∷ entries_between a b es else entries_between a b es

-- `wal_->iterator(a, b)`, which is not valid where `a` is out of the log.
unfoldable pub wal_range : ℕ → ℕ → Wal → List LogEntry
wal_range a b w =
    if ltb a w.first_log_id || ltb w.last_log_id a
    then []
    else entries_between a b (all_entries w.files)

abbrev pub least : ℕ → ℕ → ℕ
least a b = if leb a b then a else b

-- The answer before anything is decided.
unfoldable pub first_response : RaftPart → AppendLogResponse
first_response p = record {
  error_code = none;
  current_term = p.term;
  leader = p.known_leader;
  committed_log_id = p.committed_log_id;
  last_log_id = if ltb p.last_log_id p.committed_log_id then p.committed_log_id else p.last_log_id;
  last_log_term = p.last_log_term;
}

abbrev pub with_code : ErrorCode → AppendLogResponse → AppendLogResponse
with_code code a = record a { error_code = some code }

abbrev pub with_log : RaftPart → AppendLogResponse → AppendLogResponse
with_log p a = record a { last_log_id = p.last_log_id; last_log_term = p.last_log_term }

module _ (pre : LogEntry → RaftPart → Bool × RaftPart)
    (commit : List LogEntry → RaftPart → Bool × RaftPart) where
  -- The part after `wal_->appendLogs`, with its check of the last id.
  abbrev pub after_append : AppendLogRequest → Bool × (RaftPart × Wal) → Option (Bool × RaftPart)
  after_append r (false, (q, w)) = some (false, record q { wal = w })
  after_append r (true, (q, w)) =
      if length r.log_str_list == 0 || r.last_log_id_sent + length r.log_str_list == w.last_log_id
      then some
          (true, record q { wal = w; last_log_id = w.last_log_id; last_log_term = w.last_log_term })
      else none

  unfoldable pub append_entries : ℕ → AppendLogRequest → RaftPart → Option (Bool × RaftPart)
  append_entries now r p = after_append r (append_logs now pre (request_entries r) (p, p.wal))

  abbrev pub after_commit :
      ℕ → AppendLogResponse → List LogEntry → Bool × RaftPart → RaftPart × AppendLogResponse
  after_commit id a es (true, q) = (
    record q { committed_log_id = id; applied = q.applied ++ es },
    record a { committed_log_id = id; error_code = some succeeded },
  )
  after_commit id a es (false, q) = (q, with_code e_wal_fail a)

  -- "Commit some logs".
  unfoldable pub commit_to :
      AppendLogRequest → RaftPart → AppendLogResponse → Option (RaftPart × AppendLogResponse)
  unfolding wal_range
  commit_to r p a =
      let can = least p.last_log_id r.committed_log_id in
      if leb r.committed_log_id p.committed_log_id
      then some (p, with_code succeeded a)
      else if leb (p.committed_log_id + 1) can
      then (let es = wal_range (p.committed_log_id + 1) can p.wal in
          some (after_commit can a es (commit es p)))
      else none

  abbrev pub after_entries :
      ℕ
      → AppendLogRequest
      → AppendLogResponse
      → Bool × RaftPart
      → Option (RaftPart × AppendLogResponse)
  after_entries now r a (false, q) = some (q, with_code e_wal_fail a)
  after_entries now r a (true, q) = commit_to r (record q { last_msg_recv = now }) (with_log q a)

  -- "Append new logs".
  unfoldable pub accept_logs :
      ℕ → AppendLogRequest → RaftPart → AppendLogResponse → Option (RaftPart × AppendLogResponse)
  unfolding append_entries
  accept_logs now r p a = do done ← append_entries now r p; after_entries now r a done
