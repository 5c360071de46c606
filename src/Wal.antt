-- ===== src/Wal.antt =====
-- kvstore/wal/FileBasedWal.cpp: the write-ahead log of a part. A file is the list of its records,
-- oldest first, and the files stand newest first, so that `walFiles_.rbegin()` is the head of the
-- list. Log ids and terms are numbers: the code's are never negative, and they do not reach 2 ^ 63.
-- Errors of the file system, where the process aborts or only logs a line, are left out.
use nebula_storage.Prelude.{
  ℕ, zero, suc, ◌+◌, ◌-◌, ◌<◌, ◌≤◌, ◌≡◌, Bool, true, false, not, ◌&&◌, ◌||◌, List, [], ◌∷◌, ◌++◌,
  Option, none, some, length, ltb, leb, ◌==◌, if◌then◌else◌,
}
use mathlib.Core.Option
use mathlib.Core.List.{reverse}
use nebula_storage.LogBuffer.{LogBuffer, Record}
use nebula_storage.LogBuffer
pub mod Log
pub mod Append
pub mod Kept
pub mod Rollback
mod Tests

pub record LogEntry : Type 0 where
  pub id : ℕ
  pub term : ℕ
  pub cluster : ℕ
  pub msg : List ℕ

-- WalFileInfo with the file's records. Its ids are -1 until a record is written, which follows the
-- creation of a file at once; here they are 0.
pub record WalFile : Type 0 where
  pub first_id : ℕ
  pub last_id : ℕ
  pub last_term : ℕ
  pub mtime : ℕ
  pub size : ℕ
  pub entries : List LogEntry

pub record Wal : Type 0 where
  pub stopped : Bool
  pub file_size : ℕ
  pub first_log_id : ℕ
  pub last_log_id : ℕ
  pub last_log_term : ℕ
  pub files : List WalFile
  -- `currFd_ >= 0`; the open file is the newest.
  pub is_open : Bool
  pub log_buffer : LogBuffer

-- The bytes of a record: log id, term, message length, cluster id, message, length once more.
abbrev pub entry_size : LogEntry → ℕ
entry_size e = 8 + 8 + 4 + 8 + length e.msg + 4

abbrev pub new_file : ℕ → WalFile
new_file id = record {
  first_id = id;
  last_id = 0;
  last_term = 0;
  mtime = 0;
  size = 0;
  entries = [];
}

-- closeCurrFile, at the time `now`.
abbrev pub close_files : ℕ → List WalFile → List WalFile
close_files now [] = []
close_files now (f ∷ fs) = record f { mtime = now } ∷ fs

unfoldable pub close_if : ℕ → Bool → List WalFile → List WalFile
close_if now open_now fs = if open_now then close_files now fs else fs

unfoldable pub close_curr_file : ℕ → Wal → Wal
unfolding close_if
close_curr_file now w = record w { files = close_if now w.is_open w.files; is_open = false }

abbrev pub curr_size : List WalFile → ℕ
curr_size [] = 0
curr_size (f ∷ fs) = f.size

-- The file that a record goes to is on top: the open one, or a new one (prepareNewFile) where none
-- is open or the record does not fit.
unfoldable pub select_files : ℕ → ℕ → LogEntry → Bool → List WalFile → List WalFile
select_files now limit e open_now fs =
    if open_now
    then (if ltb limit (curr_size fs + entry_size e)
        then new_file e.id ∷ close_files now fs
        else fs)
    else new_file e.id ∷ fs

abbrev pub write_file : LogEntry → List WalFile → List WalFile
write_file e [] = []
write_file e (f ∷ fs) =
    record f {
      entries = f.entries ++ e ∷ [];
      size = f.size + entry_size e;
      last_id = e.id;
      last_term = e.term;
    }
    ∷ fs

-- The part of appendLogInternal behind its tests.
unfoldable pub write_entry : ℕ → LogEntry → Wal → Wal
write_entry now e w = record w {
  files = write_file e (select_files now w.file_size e w.is_open w.files);
  is_open = true;
  last_log_id = e.id;
  last_log_term = e.term;
  first_log_id = if w.first_log_id == 0 then e.id else w.first_log_id;
  log_buffer =
      LogBuffer.push w.log_buffer e.id
        (record { cluster_id = e.cluster; term_id = e.term; msg = e.msg });
}

-- The id that follows is refused unless the log is empty or the id is the next one.
abbrev pub has_gap : Wal → ℕ → Bool
has_gap w id =
    (not (w.last_log_id == 0) && not (w.first_log_id == 0)) && not (id == w.last_log_id + 1)

-- The record is written where the callback `preProcessor_` lets it pass. The callback acts on a state
-- of its owner, which is passed along.
abbrev pub store : {S : Type 0} → ℕ → LogEntry → Wal → Bool × S → Bool × (S × Wal)
store now e w (true, s) = (true, (s, write_entry now e w))
store now e w (false, s) = (false, (s, w))

abbrev pub and_then :
    {S : Type 0} → (S × Wal → Bool × (S × Wal)) → Bool × (S × Wal) → Bool × (S × Wal)
and_then rest (true, st) = rest st
and_then rest (false, st) = (false, st)

module _ {S : Type 0} (now : ℕ) (pre : LogEntry → S → Bool × S) where
  unfoldable pub append_log : LogEntry → S × Wal → Bool × (S × Wal)
  append_log e (s, w) =
      if w.stopped || has_gap w e.id then (false, (s, w)) else store now e w (pre e s)

  -- appendLogs stops at the first entry that is refused; those before it stay.
  unfoldable pub append_logs : List LogEntry → S × Wal → Bool × (S × Wal)
  append_logs [] st = (true, st)
  append_logs (e ∷ es) st = and_then (append_logs es) (append_log e st)

-- Every file behind `walFiles_.upper_bound(id)` is removed.
unfoldable pub drop_newer : ℕ → List WalFile → List WalFile
drop_newer id [] = []
drop_newer id (f ∷ fs) = let rest = drop_newer id fs in if ltb id f.first_id then rest else f ∷ fs

-- The records of a file up to the one with this id; the code aborts where there is none.
unfoldable pub take_until : ℕ → List LogEntry → Option (List LogEntry × ℕ)
take_until id [] = none
take_until id (e ∷ es) =
    let rest = Option.map (λ r. (e ∷ r.0, r.1)) (take_until id es) in
    if e.id == id then some (e ∷ [], e.term) else rest

abbrev pub entries_size : List LogEntry → ℕ
entries_size [] = 0
entries_size (e ∷ es) = entry_size e + entries_size es

unfoldable pub rollback_in_file : WalFile → ℕ → Option WalFile
rollback_in_file f id =
    Option.map
      (λ r. record f { entries = r.0; size = entries_size r.0; last_id = id; last_term = r.1 })
      (take_until id f.entries)

-- The end of rollbackToLog: what is left of the files.
unfoldable pub rollback_files : ℕ → Wal → List WalFile → Option (Bool × Wal)
rollback_files id w [] =
    if id + 1 == w.first_log_id || id == 0
    then some (
      true,
      record w {
        files = [];
        first_log_id = 0;
        last_log_id = 0;
        last_log_term = 0;
        log_buffer = LogBuffer.reset w.log_buffer;
      },
    )
    else none
rollback_files id w (f ∷ fs) =
    Option.map
      (λ (f' : WalFile). (
        true,
        record w {
          files = f' ∷ fs;
          last_log_id = id;
          last_log_term = f'.last_term;
          log_buffer = LogBuffer.reset w.log_buffer;
        },
      ))
      (rollback_in_file f id)

-- `false` where the id is out of range, which changes nothing; `none` where a CHECK fails.
unfoldable pub rollback_to_log : ℕ → ℕ → Wal → Option (Bool × Wal)
rollback_to_log now id w =
    if ltb (id + 1) w.first_log_id || ltb w.last_log_id id
    then some (false, w)
    else (let w' = close_curr_file now w in rollback_files id w' (drop_newer id w'.files))

-- `reset` leaves `lastLogTerm_` alone.
unfoldable pub reset : ℕ → Wal → Wal
reset now w =
    let w' = close_curr_file now w in
    record w' {
      files = [];
      first_log_id = 0;
      last_log_id = 0;
      log_buffer = LogBuffer.reset w'.log_buffer;
    }

-- The log as its readers see it: all records, oldest first.
unfoldable pub all_entries : List WalFile → List LogEntry
all_entries [] = []
all_entries (f ∷ fs) = all_entries fs ++ f.entries
