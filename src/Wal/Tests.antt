-- ===== src/Wal/Tests.antt =====
-- A log of two records, and what the theorems say of it.
use nebula_storage.Prelude.{ℕ, ◌+◌, refl, Bool, true, false, [], ◌∷◌, arith}
use nebula_storage.LogBuffer.{instance_of}
use nebula_storage.Wal.{LogEntry, Wal, append_logs, rollback_to_log, close_curr_file}
use nebula_storage.Wal.Log.{IsWal, close_curr_file-IsWal}
use nebula_storage.Wal.Append.{Batch, append_logs_lem}
use nebula_storage.Wal.Rollback.{RollsBack, rollback_to_log-RollsBack}

abbrev entry : ℕ → ℕ → LogEntry
entry id term = record { id = id; term = term; cluster = 1; msg = 65 ∷ [] }

-- The records 5 and 6 in one open file.
abbrev two_entries : Wal
two_entries = record {
  stopped = false;
  file_size = 1024;
  first_log_id = 5;
  last_log_id = 6;
  last_log_term = 2;
  files =
      record {
        first_id = 5;
        last_id = 6;
        last_term = 2;
        mtime = 0;
        size = 66;
        entries = entry 5 1 ∷ entry 6 2 ∷ [];
      }
      ∷ [];
  is_open = true;
  log_buffer = instance_of 1024;
}

two_entries_good : IsWal two_entries
two_entries_good = record {
  files = (omega arith, (refl, omega arith, (refl, (refl, tt)), refl), refl);
  opened = tt;
}

-- A callback that lets each record pass and counts them.
abbrev counts : LogEntry → ℕ → Bool × ℕ
counts e n = (true, n + 1)

close_curr_file-IsWal_example : IsWal (close_curr_file 9 two_entries)
close_curr_file-IsWal_example = close_curr_file-IsWal 9 two_entries two_entries_good

append_logs_lem_example :
    let es = entry 7 2 ∷ entry 9 2 ∷ [] in
    let r = append_logs 9 counts es (0, two_entries) in Batch es two_entries r.0 r.1.1
append_logs_lem_example =
    append_logs_lem 9 counts (entry 7 2 ∷ entry 9 2 ∷ []) 0 two_entries two_entries_good
      (omega arith, (omega arith, tt))

rollback_to_log-RollsBack_example : RollsBack 5 two_entries (rollback_to_log 9 5 two_entries)
rollback_to_log-RollsBack_example =
    rollback_to_log-RollsBack 9 5 two_entries two_entries_good (omega arith) (omega arith)
