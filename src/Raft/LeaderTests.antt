-- ===== src/Raft/LeaderTests.antt =====
-- A leader of three replicas that takes in logs, and what the theorems say of it.
use nebula_storage.Prelude.{
  ℕ, ◌≡◌, refl, Bool, true, false, List, [], ◌∷◌, Option, none, some, arith,
}
use nebula_storage.Wal.{LogEntry, append_logs, append_log, write_entry}
use nebula_storage.Raft.{Role, RaftPart, ErrorCode}
use nebula_storage.Raft.Peers.{count_voters}
use nebula_storage.Raft.Batches.{
  LogKind, normal, command, atomic_op, CachedLog, new_iterator, batches, numbered, concat, drain,
  process_atomic_op, resume,
}
use nebula_storage.Raft.BatchLaws.{batches-new_iterator}
use nebula_storage.Raft.Leader.{
  Leader, Flight, appending, replicating, sending, Batch, AppendLogResult, refused, waiting, swaps,
  enqueue, begin_append, append_logs_internal, process_append_log_responses, can_append_logs,
  check_term, count_succeeded, next_flight,
}
use nebula_storage.Raft.Flights.{
  System, Steps, done, more, calls, advances, begins, writes, HasOneFlight, Steps-HasOneFlight,
}
use nebula_storage.Raft.Stuck.{append_logs_internal-stuck}
use nebula_storage.Raft.Acks.{has_index}
use nebula_storage.Raft.LeaderLaws.{Responded, process_append_log_responses-Responded}
use nebula_storage.Raft.Tests.{replica}

abbrev log_of_kind : LogKind → ℕ → Option (List ℕ) → CachedLog
log_of_kind kind n op = record { cluster = 7; kind = kind; msg = n ∷ []; op = op }

abbrev mixed : List CachedLog
mixed =
    log_of_kind normal 1 none
    ∷ log_of_kind atomic_op 2 none
    ∷ log_of_kind atomic_op 3 (some (9 ∷ []))
    ∷ log_of_kind command 4 none
    ∷ log_of_kind normal 5 none
    ∷ []

batches-new_iterator_example : concat (batches 5 (new_iterator 11 2 mixed)) ≡ numbered 11 2 mixed
batches-new_iterator_example = batches-new_iterator 11 2 5 mixed (omega arith)

abbrev lets_all_pass : LogEntry → RaftPart → Bool × RaftPart
lets_all_pass e p = (true, p)

abbrev applies_all : List LogEntry → RaftPart → Bool × RaftPart
applies_all es p = (true, p)

abbrev leader_with : List CachedLog → Bool → Bool → Leader
leader_with cache full busy = record {
  part = replica Role.leader;
  cache = cache;
  buffer_over_flow = full;
  replicating_logs = busy;
  blocking = false;
}

abbrev failing : CachedLog
failing = log_of_kind atomic_op 2 none

abbrev plain : CachedLog
plain = log_of_kind normal 1 none

abbrev start : System
start = record { leader = leader_with [] false false; flights = [] }

abbrev stuck : System
stuck = record { leader = leader_with (plain ∷ []) true false; flights = [] }

-- The only operation of the first batch fails while the cache fills up.
to_stuck : Steps 1 lets_all_pass applies_all start stuck
unfolding enqueue begin_append append_logs_internal new_iterator process_atomic_op can_append_logs
    drain
to_stuck =
    more
      (more
        (more
          (more (more done (calls {o = swaps (failing ∷ [])} failing refl))
            (calls {o = waiting} plain refl))
          (calls {o = refused AppendLogResult.e_buffer_overflow} plain refl))
        (advances {o = some (appending (new_iterator 1 0 (failing ∷ [])) 0)} [] [] (begins refl)))
      (advances {o = none} [] [] (writes 5 refl))

Steps-HasOneFlight_example : HasOneFlight stuck
Steps-HasOneFlight_example =
    Steps-HasOneFlight 1 lets_all_pass applies_all to_stuck (record { one = refl })

append_logs_internal-stuck_example :
    Steps 1 lets_all_pass applies_all start stuck
    × ((r : AppendLogResult) × (enqueue 1 plain stuck.leader ≡ (stuck.leader, refused r)))
unfolding new_iterator process_atomic_op can_append_logs
append_logs_internal-stuck_example =
    append_logs_internal-stuck 1 lets_all_pass applies_all (leader_with [] false false) failing
      plain plain (plain ∷ []) 5
      (record {
        open_to_writes = refl;
        not_full = refl;
        no_thread = refl;
        has_room = omega arith;
        leads = refl;
      })
      refl refl done

-- One log is written and sent, and one of the two followers takes it.
unfoldable written : Leader × Option Flight
written =
    append_logs_internal lets_all_pass 5 (new_iterator 1 0 (plain ∷ [])) 0
      (leader_with [] false true)

abbrev batch_of : Leader → Option Flight → Batch
batch_of a (some (sending b)) = b
batch_of a (some (replicating b)) = record b { hosts = a.part.hosts }
batch_of a _ = record {
  iter = new_iterator 1 0 [];
  curr_term = 0;
  last_log_id = 0;
  committed_id = 0;
  prev_log_term = 0;
  prev_log_id = 0;
  hosts = [];
}

unfoldable responded : Option (Leader × Option Flight)
unfolding written
responded =
    process_append_log_responses applies_all
      ((0, ErrorCode.succeeded) ∷ (1, ErrorCode.e_log_gap) ∷ []) (batch_of written.0 written.1)
      written.0

unfoldable after : Leader × Option Flight
unfolding responded
after = elim responded [ none ↦ written | some x ↦ x ]

after_runs : responded ≡ some (after.0, after.1)
unfolding responded after written process_append_log_responses append_logs_internal new_iterator
    process_atomic_op drain check_term append_logs append_log count_succeeded
after_runs = refl

after_commits : after.0.part.committed_log_id ≡ 1
unfolding responded after written process_append_log_responses append_logs_internal new_iterator
    process_atomic_op drain check_term append_logs append_log count_succeeded next_flight resume
    write_entry
after_commits = refl

process_append_log_responses-Responded_example :
    Responded
      ((0, ErrorCode.succeeded) ∷ (1, ErrorCode.e_log_gap) ∷ [])
      (batch_of written.0 written.1)
      written.0
      after.0
      after.1
unfolding has_index written responded count_voters append_logs_internal new_iterator
    process_atomic_op drain check_term append_logs append_log
process_append_log_responses-Responded_example =
    process_append_log_responses-Responded applies_all
      ((0, ErrorCode.succeeded) ∷ (1, ErrorCode.e_log_gap) ∷ []) (batch_of written.0 written.1)
      written.0 after.0 after.1
      (record { last_log_id = λ es p. refl; last_log_term = λ es p. refl; applied = λ es p. refl })
      (record { half = refl }) (refl, (refl, tt)) after_runs
