-- ===== src/Raft/Sender.antt =====
-- kvstore/raftex/Host.cpp, class Host: how a leader sends logs to one peer. At most one request is under
-- way; of the requests that come meanwhile the newest is kept. A promise is the list of the log ids
-- whose callers wait for it. The call of the peer and the snapshot itself are left out.
use nebula_storage.Prelude.{
  ℕ, zero, suc, ◌+◌, ◌-◌, Bool, true, false, ◌&&◌, ◌||◌, List, [], ◌∷◌, ◌++◌, map, Option, none,
  some, leb, ltb, ◌==◌, length, if◌then◌else◌,
}
use nebula_storage.Wal.{Wal, LogEntry}
use nebula_storage.Raft.{ErrorCode}
use nebula_storage.Raft.Append.{wal_range, least}

-- pendingReq_: term, log id and committed log id.
pub record Pending : Type 0 where
  pub term : ℕ
  pub log_id : ℕ
  pub committed : ℕ

abbrev pub no_pending : Pending
no_pending = record { term = 0; log_id = 0; committed = 0 }

pub record Sender : Type 0 where
  pub paused : Bool
  pub stopped : Bool
  pub request_on_going : Bool
  pub promise : List ℕ
  pub caching_promise : List ℕ
  pub pending : Pending
  pub log_id_to_send : ℕ
  pub log_term_to_send : ℕ
  pub last_log_id_sent : ℕ
  pub last_log_term_sent : ℕ
  pub committed_log_id : ℕ
  pub sending_snapshot : Bool
  pub follower_committed_log_id : ℕ

-- What a caller of appendLogs is told.
pub data Told : Type 0 where
  accepted e_host_stopped e_not_a_leader e_too_many_requests e_exception : Told
  failed_with : ErrorCode → Told

-- The fields of an AppendLogRequest that depend on the host.
pub record SendRequest : Type 0 where
  pub current_term : ℕ
  pub last_log_id : ℕ
  pub committed_log_id : ℕ
  pub last_log_term_sent : ℕ
  pub last_log_id_sent : ℕ
  pub entries : List LogEntry
  pub sending_snapshot : Bool

pub record Reply : Type 0 where
  pub code : ErrorCode
  pub last_log_id : ℕ
  pub last_log_term : ℕ
  pub committed_log_id : ℕ

-- The host behind a critical section, who is told what, and the request that is sent.
pub record Done : Type 0 where
  pub host : Sender
  pub told : List (ℕ × Told)
  pub request : Option SendRequest

unfoldable pub pause : Sender → Sender
pause h = record h { paused = true }

unfoldable pub resume_host : Sender → Sender
resume_host h = record h { paused = false }

unfoldable pub stop : Sender → Sender
stop h = record h { stopped = true }

-- reset, which waits until no request is under way.
unfoldable pub reset_host : Sender → Option Sender
reset_host h =
    if h.request_on_going
    then none
    else some (record h {
      log_id_to_send = 0;
      log_term_to_send = 0;
      last_log_id_sent = 0;
      last_log_term_sent = 0;
      committed_log_id = 0;
      sending_snapshot = false;
      follower_committed_log_id = 0;
    })

abbrev pub check_status : Sender → Told
check_status h = if h.stopped then e_host_stopped else if h.paused then e_not_a_leader else accepted

abbrev pub is_accepted : Told → Bool
is_accepted accepted = true
is_accepted _ = false

abbrev pub tell_all : Told → List ℕ → List (ℕ × Told)
tell_all t ids = map (λ (id : ℕ). (id, t)) ids

abbrev pub no_request : Sender → Bool
no_request h = h.pending.term == 0 && h.pending.log_id == 0 && h.pending.committed == 0

-- Entries of one term, at most `max`.
unfoldable pub same_term : ℕ → ℕ → List LogEntry → List LogEntry
same_term term zero es = []
same_term term (suc max) [] = []
same_term term (suc max) (e ∷ es) =
    let rest = same_term term max es in if e.term == term then e ∷ rest else []

abbrev pub batch_entries : ℕ → List LogEntry → List LogEntry
batch_entries max [] = []
batch_entries max (e ∷ es) = same_term e.term max (e ∷ es)

abbrev pub is_empty : List LogEntry → Bool
is_empty [] = true
is_empty (_ ∷ _) = false

-- The log that follows is not in the log on disk any more, so the peer needs a snapshot.
unfoldable pub needs_snapshot : Wal → Sender → Bool
unfolding wal_range
needs_snapshot wal h =
    leb (h.last_log_id_sent + 1) wal.last_log_id
    && is_empty (wal_range (h.last_log_id_sent + 1) h.log_id_to_send wal)

unfoldable pub prepare_append_log_request : ℕ → Wal → Sender → SendRequest
unfolding wal_range
prepare_append_log_request max wal h = record {
  current_term = h.log_term_to_send;
  last_log_id = h.log_id_to_send;
  committed_log_id = h.committed_log_id;
  last_log_term_sent = h.last_log_term_sent;
  last_log_id_sent = h.last_log_id_sent;
  entries =
      if leb (h.last_log_id_sent + 1) wal.last_log_id
      then batch_entries max (wal_range (h.last_log_id_sent + 1) h.log_id_to_send wal)
      else [];
  sending_snapshot = needs_snapshot wal h;
}

-- The host sends what it has prepared; `told` is told on the way.
unfoldable pub send : ℕ → Wal → List (ℕ × Told) → Sender → Done
send max wal told h = record {
  host = record h { sending_snapshot = h.sending_snapshot || needs_snapshot wal h };
  told = told;
  request = some (prepare_append_log_request max wal h);
}

abbrev pub stay : List (ℕ × Told) → Sender → Done
stay told h = record { host = h; told = told; request = none }

-- setResponse: everybody who waits is told the same.
abbrev pub cleared : Sender → Sender
cleared h = record h {
  promise = [];
  caching_promise = [];
  pending = no_pending;
  request_on_going = false;
}

unfoldable pub set_response : Told → Sender → Done
set_response t h = stay (tell_all t (h.promise ++ h.caching_promise)) (cleared h)

-- "This is the first time to send the logs to this host".
abbrev pub first_time : ℕ → ℕ → Sender → Sender
first_time prev_term prev_id h =
    if h.last_log_id_sent == 0 && h.last_log_term_sent == 0
    then record h { last_log_id_sent = prev_id; last_log_term_sent = prev_term }
    else h

abbrev pub start_request : ℕ → ℕ → ℕ → Sender → Sender
start_request term id committed h = record h {
  log_term_to_send = term;
  log_id_to_send = id;
  committed_log_id = committed;
  pending = no_pending;
  promise = h.caching_promise ++ id ∷ [];
  caching_promise = [];
  request_on_going = true;
}

-- Host::appendLogs.
unfoldable pub host_append_logs : ℕ → ℕ → Wal → ℕ → ℕ → ℕ → ℕ → ℕ → Sender → Done
host_append_logs max max_outstanding wal term id committed prev_term prev_id h =
    let res = check_status h in
    if leb id h.last_log_id_sent
    then stay ((id, accepted) ∷ []) h
    else if h.request_on_going && is_accepted res
    then (if leb (length h.caching_promise) max_outstanding
        then stay [] (record h {
          pending = record { term = term; log_id = id; committed = committed };
          caching_promise = h.caching_promise ++ id ∷ [];
        })
        else stay ((id, e_too_many_requests) ∷ []) h)
    else if is_accepted res
    then send max wal [] (start_request term id committed (first_time prev_term prev_id h))
    else stay ((id, res) ∷ []) h

abbrev pub follow_reply : ℕ → Reply → Sender → Sender
follow_reply sent r h = record h {
  last_log_id_sent = sent;
  last_log_term_sent = r.last_log_term;
  follower_committed_log_id = r.committed_log_id;
}

-- A peer that has got all that was to send: the promise is fulfilled, and a pending request is next.
unfoldable pub next_pending : ℕ → Wal → Sender → Done
next_pending max wal h =
    if no_request h
    then stay (tell_all accepted h.promise) (record h { promise = []; request_on_going = false })
    else send max wal (tell_all accepted h.promise) (record h {
      log_term_to_send = h.pending.term;
      log_id_to_send = h.pending.log_id;
      committed_log_id = h.pending.committed;
      promise = h.caching_promise;
      caching_promise = [];
      pending = no_pending;
    })

unfoldable pub on_succeeded : ℕ → Wal → Reply → Sender → Done
on_succeeded max wal r h =
    let h' = follow_reply r.last_log_id r h in
    if leb r.last_log_id h.last_log_id_sent
    then set_response accepted (record h { follower_committed_log_id = r.committed_log_id })
    else if ltb r.last_log_id h.log_id_to_send
    then send max wal [] h'
    else next_pending max wal h'

unfoldable pub on_log_gap : ℕ → Wal → Reply → Sender → Done
on_log_gap max wal r h =
    if h.last_log_id_sent == r.last_log_id
    then set_response accepted (follow_reply r.last_log_id r h)
    else send max wal [] (follow_reply (least r.last_log_id (h.log_id_to_send - 1)) r h)

unfoldable pub on_waiting_snapshot : ℕ → Wal → Reply → Sender → Done
on_waiting_snapshot max wal r h = send max wal [] (record h {
  last_log_id_sent = h.committed_log_id;
  last_log_term_sent = h.log_term_to_send;
  follower_committed_log_id = r.committed_log_id;
})

unfoldable pub on_log_stale : ℕ → Wal → Reply → Sender → Done
on_log_stale max wal r h =
    if leb h.log_id_to_send r.last_log_id
    then set_response accepted (follow_reply (h.log_id_to_send - 1) r h)
    else send max wal [] (follow_reply (least r.last_log_id (h.log_id_to_send - 1)) r h)

-- The end of a request that failed.
unfoldable pub on_failure : Told → Sender → Done
on_failure t h = set_response t (record h { last_log_id_sent = h.log_id_to_send - 1 })

-- The checks that the known answers share.
abbrev pub if_in_status : Done → Sender → Done
if_in_status d h = if is_accepted (check_status h) then d else set_response (check_status h) h

-- The switch on the code of a reply.
abbrev pub on_code : ℕ → Wal → Reply → Sender → ErrorCode → Done
on_code max wal r h ErrorCode.succeeded = if_in_status (on_succeeded max wal r h) h
on_code max wal r h ErrorCode.e_log_gap = if_in_status (on_log_gap max wal r h) h
on_code max wal r h ErrorCode.e_waiting_snapshot = if_in_status (on_waiting_snapshot max wal r h) h
on_code max wal r h ErrorCode.e_log_stale = if_in_status (on_log_stale max wal r h) h
on_code max wal r h other = on_failure (failed_with other) h

-- The continuation of appendLogsInternal: the peer's reply, or none where the call has thrown.
unfoldable pub receive_reply : ℕ → Wal → Option Reply → Sender → Done
receive_reply max wal none h = on_failure e_exception h
receive_reply max wal (some r) h = on_code max wal r h r.code

-- sendAppendLogRequest, where it does not call the peer: a host that has been stopped or paused meanwhile takes its own
-- status for the reply.
unfoldable pub send_append_log_request : Sender → Option Done
send_append_log_request h =
    if is_accepted (check_status h) then none else some (on_failure (check_status h) h)
