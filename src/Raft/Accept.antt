-- ===== src/Raft/Accept.antt =====
-- What RaftPart::processAppendLogRequest does with the logs that it accepts.
use nebula_storage.Prelude.{
  ℕ, ◌+◌, ◌<◌, ◌≤◌, ◌≡◌, ◌≢◌, refl, sym, ap, ◌∙◌, subst, Bool, true, false, List, ◌++◌, none, some,
  arith, length, if◌then◌else◌, leb, inl, inr, Option-cases, append-nil, >>=-eq-some,
}
use nebula_storage.Wal.{Wal, LogEntry, append_logs, all_entries}
use nebula_storage.Wal.Log.{IsWal}
use nebula_storage.Wal.Append.{Batch, last_id_of, append_logs_lem}
use nebula_storage.Raft.{RaftPart, succeeded}
use nebula_storage.Raft.Append.{
  AppendLogRequest, AppendLogResponse, request_entries, wal_range, least, append_entries,
  after_append, after_entries, commit_to, accept_logs, with_log,
}
use nebula_storage.Raft.Entries.{
  log_entries-HasPosIds, last_id_of-log_entries, KeepsLog, KeepsCommitted, append_logs-committed,
}

-- What holds after a request whose logs are accepted.
pub record Accepted (r : AppendLogRequest) (p q : RaftPart) : Type 0 where
  pub good : IsWal q.wal
  pub log : all_entries q.wal.files ≡ all_entries p.wal.files ++ request_entries r
  pub last_id : q.last_log_id ≡ q.wal.last_log_id
  pub committed : q.committed_log_id ≡ (
      if leb r.committed_log_id p.committed_log_id
      then p.committed_log_id
      else least q.last_log_id r.committed_log_id)

module _ (pre : LogEntry → RaftPart → Bool × RaftPart)
    (commit : List LogEntry → RaftPart → Bool × RaftPart) where
  -- The part after its log took a request's entries.
  record Appended (r : AppendLogRequest) (p q : RaftPart) : Type 0 where
    good : IsWal q.wal
    log : all_entries q.wal.files ≡ all_entries p.wal.files ++ request_entries r
    last_id : q.last_log_id ≡ q.wal.last_log_id
    committed : q.committed_log_id ≡ p.committed_log_id

  after_append-Appended :
      (r : AppendLogRequest) (p q : RaftPart) (x : Bool × (RaftPart × Wal))
      → Batch (request_entries r) p.wal x.0 x.1.1
      → x.1.0.committed_log_id ≡ p.committed_log_id
      → after_append pre commit r x ≡ some (true, q)
      → Appended r p q
  after_append-Appended r p q (false, (s, w)) b c e = ground arith
  after_append-Appended r p q (true, (s, w)) b c e =
      let whole = b.split ∙ ap (λ l. b.written ++ l) (b.whole refl) ∙ append-nil b.written in
      let same : q.wal ≡ w = ground arith in
      record {
        good = subst IsWal (sym same) b.good;
        log =
            ap (λ (v : Wal). all_entries v.files) same
            ∙ b.log
            ∙ ap (λ (l : List LogEntry). all_entries p.wal.files ++ l) (sym whole);
        last_id = ground arith;
        committed = ground arith;
      }

  after_append-answers :
      (r : AppendLogRequest) (p : RaftPart) (x : Bool × (RaftPart × Wal))
      → Batch (request_entries r) p.wal x.0 x.1.1
      → 0 < length r.log_str_list
      → after_append pre commit r x ≢ none
  after_append-answers r p (false, (s, w)) b some_log e = ground arith
  after_append-answers r p (true, (s, w)) b some_log e =
      let whole = b.split ∙ ap (λ l. b.written ++ l) (b.whole refl) ∙ append-nil b.written in
      let last : w.last_log_id ≡ r.last_log_id_sent + length r.log_str_list =
        b.last_id
        ∙ ap (λ l. last_id_of p.wal.last_log_id l) (sym whole)
        ∙ last_id_of-log_entries r.last_log_id_sent r.log_term p.wal.last_log_id r.log_str_list
            some_log in
      ground arith

  after_append-behind :
      (r : AppendLogRequest) (p q : RaftPart) (x : Bool × (RaftPart × Wal))
      → Batch (request_entries r) p.wal x.0 x.1.1
      → 0 < length r.log_str_list
      → p.committed_log_id ≤ r.last_log_id_sent
      → x.1.0.committed_log_id ≡ p.committed_log_id
      → after_append pre commit r x ≡ some (true, q)
      → q.committed_log_id < q.last_log_id
  after_append-behind r p q (false, (s, w)) b some_log h c e = ground arith
  after_append-behind r p q (true, (s, w)) b some_log h c e = ground arith

  commit_to-committed :
      (r : AppendLogRequest) (p q : RaftPart) (a b : AppendLogResponse)
      → KeepsLog commit
      → commit_to pre commit r p a ≡ some (q, b)
      → b.error_code ≡ some succeeded
      → (q.wal ≡ p.wal)
        × (q.last_log_id ≡ p.last_log_id)
        × (q.committed_log_id ≡ (
            if leb r.committed_log_id p.committed_log_id
            then p.committed_log_id
            else least p.last_log_id r.committed_log_id))
  unfolding commit_to
  commit_to-committed r p q a b keeps e ok =
      let can = least p.last_log_id r.committed_log_id in
      let es = wal_range (p.committed_log_id + 1) can p.wal in
      let wal = keeps.wal es p in
      let last = keeps.last_log_id es p in (ground arith, ground arith, ground arith)

  after_entries-Accepted :
      (now : ℕ) (r : AppendLogRequest) (p q : RaftPart) (a b : AppendLogResponse)
      (done : Bool × RaftPart)
      → KeepsLog commit
      → (done.0 ≡ true → Appended r p done.1)
      → after_entries pre commit now r a done ≡ some (q, b)
      → b.error_code ≡ some succeeded
      → Accepted r p q
  after_entries-Accepted now r p q a b (false, s) keeps h e ok = ground arith
  after_entries-Accepted now r p q a b (true, s) keeps h e ok =
      let appended = h refl in
      let s' : RaftPart = record s { last_msg_recv = now } in
      let (wal, last, committed) = commit_to-committed r s' q (with_log s a) b keeps e ok in
      record {
        good = subst IsWal (sym wal) appended.good;
        log = ap (λ (v : Wal). all_entries v.files) wal ∙ appended.log;
        last_id = cc (last, wal, appended.last_id);
        committed = rw last (rw (sym appended.committed) committed);
      }

  after_entries-answers :
      (now : ℕ) (r : AppendLogRequest) (p : RaftPart) (a : AppendLogResponse)
      (done : Bool × RaftPart)
      → (done.0 ≡ true → done.1.committed_log_id < done.1.last_log_id)
      → after_entries pre commit now r a done ≢ none
  unfolding commit_to
  after_entries-answers now r p a (false, s) h e = ground arith
  after_entries-answers now r p a (true, s) h e = let behind = h refl in ground arith

-- Where the handler answers with success, a well-formed log becomes the old one followed by the
-- request's entries, and stays well formed; the part's last id is the log's, and what is committed
-- goes up to the leader's committed id or to the end of the log, whichever is less. The virtual
-- functions are ones that leave the log and the committed id alone.
pub accept_logs-Accepted :
    (pre : LogEntry → RaftPart → Bool × RaftPart)
    (commit : List LogEntry → RaftPart → Bool × RaftPart) (now : ℕ) (r : AppendLogRequest)
    (p q : RaftPart) (a b : AppendLogResponse)
    → IsWal p.wal
    → KeepsCommitted pre
    → KeepsLog commit
    → accept_logs pre commit now r p a ≡ some (q, b)
    → b.error_code ≡ some succeeded
    → Accepted r p q
unfolding accept_logs append_entries
accept_logs-Accepted pre commit now r p q a b good keeps_committed keeps e ok =
    let pos =
      log_entries-HasPosIds (r.last_log_id_sent + 1) r.log_term r.log_str_list (omega arith) in
    let es = request_entries r in
    let (done, one, two) = >>=-eq-some (append_entries pre commit now r p) _ e in
    after_entries-Accepted pre commit now r p q a b done keeps
      (λ yes.
        after_append-Appended pre commit r p done.1 (append_logs now pre es (p, p.wal))
          (append_logs_lem now pre es p p.wal good pos)
          (append_logs-committed pre now es p p.wal keeps_committed) (ground arith))
      two ok

-- A request with logs in it, sent behind what the part has committed, is always answered: no check
-- of the handler aborts the process, where the log is well formed and preProcessLog does not commit.
pub accept_logs-answers :
    (pre : LogEntry → RaftPart → Bool × RaftPart)
    (commit : List LogEntry → RaftPart → Bool × RaftPart) (now : ℕ) (r : AppendLogRequest)
    (p : RaftPart) (a : AppendLogResponse)
    → IsWal p.wal
    → KeepsCommitted pre
    → 0 < length r.log_str_list
    → p.committed_log_id ≤ r.last_log_id_sent
    → accept_logs pre commit now r p a ≢ none
unfolding accept_logs append_entries
accept_logs-answers pre commit now r p a good keeps some_log behind e =
    let pos =
      log_entries-HasPosIds (r.last_log_id_sent + 1) r.log_term r.log_str_list (omega arith) in
    let es = request_entries r in
    let x = append_logs now pre es (p, p.wal) in
    let batch = append_logs_lem now pre es p p.wal good pos in
    let same = append_logs-committed pre now es p p.wal keeps in
    elim (Option-cases (append_entries pre commit now r p)) [
      | inl gone ↦ after_append-answers pre commit r p x batch some_log gone
      | inr (done, there) ↦
          after_entries-answers pre commit now r p a done
            (λ yes.
              after_append-behind pre commit r p done.1 x batch some_log behind same (ground arith))
            (ground arith)
    ]
