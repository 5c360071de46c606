-- ===== src/Part/Commit.antt =====
-- Part::commitLogs commits what the clients of the part asked for.
use nebula_storage.Prelude.{
  ℕ, ◌+◌, ◌<◌, ◌^◌, ◌≡◌, refl, sym, ap, ◌∙◌, Bool, true, List, [], ◌∷◌, ◌++◌, none, some, arith,
  length, ◌==◌, last?, drop, append-nil, ◌^◌, length-append,
}
use nebula_storage.Bytes.Words.{le_bytes, length-le_bytes}
use nebula_storage.Bytes.Pieces.{read_int, piece, read_int_at}
use nebula_storage.LogEncoder.{log_code}
use nebula_storage.LogEncoder.Single.{get_type, get_timestamp}
use nebula_storage.Wal.{LogEntry}
use nebula_storage.Raft.{HostAddr, RaftPart}
use nebula_storage.Raft.Part.{is_newer_than}
use nebula_storage.Part.{
  WriteOp, put, commit_switch, commit_log, commit_all, commit_logs, commit_peers, commit_message,
  end_of_batch, last_committed, writes_of_type,
}
use nebula_storage.Part.Commands.{
  Command, log_of, writes, Fits, type_of, get_type-log_of, writes_of_type-log_of, async_put,
  async_multi_put, async_remove, async_multi_remove, async_remove_range, async_append_batch,
}

-- The entries are the logs of these calls, made at these times.
abbrev pub Carries : List LogEntry → List (ℕ × Command) → Type 0
Carries [] [] = Unit {0}
Carries [] (c ∷ cs) = ⊥
Carries (e ∷ es) [] = ⊥
Carries (e ∷ es) ((t, c) ∷ cs) = (e.msg ≡ log_of t c) × (t < 2 ^ 64) × Fits c × Carries es cs

abbrev pub all_writes : List (ℕ × Command) → List WriteOp
all_writes [] = []
all_writes ((t, c) ∷ cs) = writes c ++ all_writes cs

no_type : get_type [] ≡ none
unfolding get_type read_int piece
no_type = refl

module _ (host_of : List ℕ → HostAddr) (start now : ℕ) where
  -- A write changes nothing in the group.
  commit_peers-write :
      (c : Command) (fresh : Bool) (host : HostAddr) (p : RaftPart)
      → commit_peers (log_code (type_of c)) fresh host now p ≡ some p
  unfolding commit_peers
  commit_peers-write (async_put key val) fresh host p = refl
  commit_peers-write (async_multi_put kvs) fresh host p = refl
  commit_peers-write (async_remove key) fresh host p = refl
  commit_peers-write (async_multi_remove keys) fresh host p = refl
  commit_peers-write (async_remove_range a b) fresh host p = refl
  commit_peers-write (async_append_batch batch) fresh host p = refl

  commit_switch-writes :
      (log : List ℕ) (c : Command) (p : RaftPart)
      → get_type log ≡ some (log_code (type_of c))
      → writes_of_type (log_code (type_of c)) log ≡ some (writes c)
      → commit_switch host_of start now log p ≡ some (writes c, p)
  unfolding commit_switch
  commit_switch-writes log c p type ops =
      rw (type, ops)
        (rw
          (commit_peers-write c (is_newer_than start (get_timestamp log)) (host_of (drop 9 log)) p)
          refl)

  commit_log-writes :
      (log : List ℕ) (c : Command) (p : RaftPart)
      → get_type log ≡ some (log_code (type_of c))
      → writes_of_type (log_code (type_of c)) log ≡ some (writes c)
      → commit_log host_of start now log p ≡ some (writes c, p)
  unfolding commit_log
  commit_log-writes [] c p type ops = ground (arith, no_type)
  commit_log-writes (b ∷ bs) c p type ops = commit_switch-writes (b ∷ bs) c p type ops

  commit_all-writes :
      (es : List LogEntry) (cs : List (ℕ × Command)) (p : RaftPart)
      → Carries es cs
      → commit_all host_of start now es p ≡ some (all_writes cs, p)
  unfolding commit_all
  commit_all-writes [] [] p h = refl
  commit_all-writes [] (c ∷ cs) p h = elim h [ ]
  commit_all-writes (e ∷ es) [] p h = elim h [ ]
  commit_all-writes (e ∷ es) ((t, c) ∷ cs) p (msg, early, fits, more) =
      let type = ap get_type msg ∙ get_type-log_of t c early in
      let ops = ap (writes_of_type (log_code (type_of c))) msg ∙ writes_of_type-log_of t c fits in
      rw (commit_log-writes e.msg c p type ops, commit_all-writes es cs p more) refl

-- What commitLogs gives to the engine for the logs of a row of calls is what the calls asked for, in
-- their order, with the id and term of the last log behind it; the group is left as it was.
pub commit_logs-writes :
    (host_of : List ℕ → HostAddr) (start now part : ℕ) (es : List LogEntry)
    (cs : List (ℕ × Command)) (p : RaftPart)
    → Carries es cs
    → commit_logs host_of start now part es p
      ≡ some (all_writes cs ++ end_of_batch part (last? es), p)
unfolding commit_logs
commit_logs-writes host_of start now part es cs p h =
    rw (commit_all-writes host_of start now es cs p h) refl

-- After a restart lastCommittedLogId reads, from the value that putCommitMsg stored, the id and the
-- term that it was given.
last_committed-commit_message :
    (part id term : ℕ) {key val : List ℕ}
    → id < 2 ^ 64
    → term < 2 ^ 64
    → commit_message part id term ≡ put key val
    → last_committed val ≡ some (id, term)
unfolding commit_message last_committed
last_committed-commit_message part id term {val = val} small small' e =
    let val_of : (WriteOp → List ℕ) =
      λ o. elim o [ put k v ↦ v | WriteOp.remove k ↦ [] | WriteOp.remove_range a b ↦ [] ] in
    let stored = ap val_of e in
    let size = length-append (le_bytes 8 id) (le_bytes 8 term) in
    let a = length-le_bytes 8 id in
    let b = length-le_bytes 8 term in
    let first = read_int_at 0 8 id _ [] (le_bytes 8 term) (sym stored) refl (omega arith) in
    let second =
      read_int_at 8 8 term _ (le_bytes 8 id) []
        (sym stored ∙ ap (λ (l : List ℕ). le_bytes 8 id ++ l) (sym (append-nil (le_bytes 8 term))))
        a (omega arith) in
    let len = sym (ap length stored) ∙ size in
    let ok : (length val == 8 + 8) ≡ true = ground (arith, len, a, b) in rw (ok, first, second) refl
