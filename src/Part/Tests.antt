-- ===== src/Part/Tests.antt =====
-- A few writes of a client, and what the theorems say of them.
use nebula_storage.Prelude.{ℕ, ◌≡◌, refl, false, List, [], ◌∷◌, ◌++◌, some, arith}
use nebula_storage.Bytes.Words.{le_bytes}
use nebula_storage.Keys.System.{system_commit_key}
use nebula_storage.LogBuffer.{instance_of}
use nebula_storage.Wal.{LogEntry}
use nebula_storage.Raft.{no_addr, Status, Role, RaftPart}
use nebula_storage.Part.{put, remove, commit_logs, commit_message}
use nebula_storage.Part.Commands.{Command, async_put, async_multi_remove, log_of}
use nebula_storage.Part.Commit.{commit_logs-writes}

abbrev key : List ℕ
key = 107 ∷ []

abbrev val : List ℕ
val = 118 ∷ 49 ∷ []

abbrev part : RaftPart
part = record {
  addr = no_addr;
  hosts = [];
  quorum = 0;
  listeners = [];
  status = Status.running;
  role = Role.leader;
  known_leader = no_addr;
  voted_addr = no_addr;
  term = 1;
  proposed_term = 1;
  last_log_id = 2;
  last_log_term = 1;
  committed_log_id = 0;
  is_blind_follower = false;
  weight = 1;
  last_msg_recv = 0;
  wal = record {
    stopped = false;
    file_size = 1024;
    first_log_id = 0;
    last_log_id = 0;
    last_log_term = 0;
    files = [];
    is_open = false;
    log_buffer = instance_of 1024;
  };
  last_total_count = 0;
  last_total_size = 0;
  applied = [];
  tasks = [];
}

abbrev calls : List (ℕ × Command)
calls = (40, async_put key val) ∷ (41, async_multi_remove (key ∷ val ∷ [])) ∷ []

abbrev logs : List LogEntry
logs =
    record { id = 1; term = 1; cluster = 7; msg = log_of 40 (async_put key val) }
    ∷ record {
      id = 2;
      term = 1;
      cluster = 7;
      msg = log_of 41 (async_multi_remove (key ∷ val ∷ []));
    }
    ∷ []

commit_logs-writes_example :
    commit_logs (λ s. no_addr) 30 50 3 logs part
    ≡ some (put key val ∷ remove key ∷ remove val ∷ commit_message 3 2 1 ∷ [], part)
commit_logs-writes_example =
    commit_logs-writes (λ s. no_addr) 30 50 3 logs calls part
      (
        refl,
        omega arith,
        (omega arith, omega arith),
        (refl, omega arith, (omega arith, (omega arith, (omega arith, tt))), tt),
      )

stored_message : commit_message 3 2 1 ≡ put (system_commit_key 3) (le_bytes 8 2 ++ le_bytes 8 1)
unfolding commit_message
stored_message = refl
