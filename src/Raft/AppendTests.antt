-- ===== src/Raft/AppendTests.antt =====
-- Append and snapshot requests to a replica, and what the theorems say of them.
use nebula_storage.Prelude.{
  ℕ, ◌≡◌, ◌≢◌, refl, Bool, true, false, List, [], ◌∷◌, Option, none, some, arith,
}
use nebula_storage.Wal.{LogEntry}
use nebula_storage.Raft.{Role, RaftPart, succeeded, followers, addr_eq, check_peer, find_host}
use nebula_storage.Raft.Append.{
  AppendLogRequest, AppendLogResponse, verify_leader, accept_logs, first_response,
}
use nebula_storage.Raft.Handle.{process_append_log, SendSnapshotRequest}
use nebula_storage.Raft.Follow.{Verified, verify_leader-Verified}
use nebula_storage.Raft.Accept.{Accepted, accept_logs-Accepted, accept_logs-answers}
use nebula_storage.Wal.{append_logs, append_log, write_entry}
use nebula_storage.Raft.Append.{log_entries, commit_to, judge_leader, verify_term}
use nebula_storage.Raft.Entries.{KeepsLog}
use nebula_storage.Raft.Tests.{addr_of, empty_wal_good, replica}

-- The first logs of a leader, and the functions of a part that stores what it is given.
abbrev first_logs : AppendLogRequest
first_logs = record {
  leader = addr_of 2;
  current_term = 1;
  committed_log_id = 1;
  log_term = 1;
  last_log_id_sent = 0;
  last_log_term_sent = 0;
  log_str_list = (7, 65 ∷ []) ∷ (7, 66 ∷ []) ∷ [];
  sending_snapshot = false;
}

abbrev lets_pass : LogEntry → RaftPart → Bool × RaftPart
lets_pass e p = (true, p)

abbrev applies : List LogEntry → RaftPart → Bool × RaftPart
applies es p = (true, p)

unfoldable accepted : Option (RaftPart × AppendLogResponse)
accepted =
    accept_logs lets_pass applies 9 first_logs (replica Role.follower)
      (first_response (replica Role.follower))

unfoldable handled : Option (RaftPart × AppendLogResponse)
handled = process_append_log lets_pass applies 5 9 first_logs (replica Role.follower)

result_of : Option (RaftPart × AppendLogResponse) → RaftPart × AppendLogResponse
result_of none = (replica Role.follower, first_response (replica Role.follower))
result_of (some x) = x

accepted_runs : accepted ≡ some (result_of accepted)
unfolding accepted result_of accept_logs append_logs log_entries append_log write_entry commit_to
accepted_runs = refl

accepted_code : (result_of accepted).1.error_code ≡ some succeeded
unfolding accepted result_of accept_logs append_logs log_entries append_log write_entry commit_to
accepted_code = refl

keeps_log : KeepsLog applies
keeps_log = record { wal = λ es p. refl; last_log_id = λ es p. refl }

accept_logs-Accepted_example : Accepted first_logs (replica Role.follower) (result_of accepted).0
unfolding accepted
accept_logs-Accepted_example =
    accept_logs-Accepted lets_pass applies 9 first_logs (replica Role.follower)
      (result_of accepted).0 (first_response (replica Role.follower)) (result_of accepted).1
      empty_wal_good (λ e p. refl) keeps_log accepted_runs accepted_code

accept_logs-answers_example :
    accept_logs lets_pass applies 9 first_logs
      (replica Role.follower)
      (first_response (replica Role.follower))
    ≢ none
accept_logs-answers_example =
    accept_logs-answers lets_pass applies 9 first_logs (replica Role.follower)
      (first_response (replica Role.follower)) empty_wal_good (λ e p. refl) (omega arith)
      (omega arith)

abbrev led : RaftPart
led = record (replica Role.follower) {
  known_leader = addr_of 2;
  term = 1;
  proposed_term = 1;
  last_log_id = 8;
  last_log_term = 1;
}

-- A heartbeat of the leader that is followed already.
abbrev heartbeat : AppendLogRequest
heartbeat = record {
  leader = addr_of 2;
  current_term = 1;
  committed_log_id = 8;
  log_term = 1;
  last_log_id_sent = 8;
  last_log_term_sent = 1;
  log_str_list = (7, []) ∷ [];
  sending_snapshot = false;
}

led_verified : verify_leader 5 9 heartbeat led ≡ some (led, succeeded)
unfolding verify_leader judge_leader verify_term check_peer find_host followers addr_eq
led_verified = refl

verify_leader-Verified_example : Verified heartbeat led led succeeded
verify_leader-Verified_example = verify_leader-Verified 5 9 heartbeat led led succeeded led_verified

-- A snapshot of one row of four bytes.
abbrev snapshot : SendSnapshotRequest
snapshot = record {
  leader = addr_of 2;
  term = 1;
  rows = (1 ∷ 2 ∷ 3 ∷ 4 ∷ []) ∷ [];
  committed_log_id = 20;
  committed_log_term = 1;
  total_count = 1;
  total_size = 4;
  done = true;
}

abbrev counts_rows : SendSnapshotRequest → ℕ × ℕ
counts_rows r = (1, 4)
