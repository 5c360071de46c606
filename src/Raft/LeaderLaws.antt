-- ===== src/Raft/LeaderLaws.antt =====
-- RaftPart.cpp, processAppendLogResponses: what a leader commits on its followers' responses.
use nebula_storage.Prelude.{
  ℕ, ◌+◌, ◌*◌, ◌<◌, ◌≤◌, ◌≡◌, refl, sym, ap, ◌∙◌, Bool, true, false, List, [], ◌∷◌, ◌++◌, Option,
  none, some, arith, leb, inl, inr, Bool-cases, if◌then◌else◌,
}
use nebula_storage.Wal.{LogEntry}
use nebula_storage.Raft.{RaftPart, ErrorCode, is_running, is_leader}
use nebula_storage.Raft.Append.{wal_range}
use nebula_storage.Raft.Peers.{count_voters, HasQuorum}
use nebula_storage.Raft.Batches.{CachedLog, LogsIterator}
use nebula_storage.Raft.Acks.{acked_voters, RespondOnce, count_succeeded-acked_voters}
use nebula_storage.Raft.Leader.{
  Leader, Flight, replicating, Batch, process_append_log_responses, clean_buffer, check_term,
  next_flight, next_cached, after_leader_commit, count_succeeded, is_appended,
}

-- The virtual commitLogs leaves the raft fields of the part alone.
pub record IsPassive (commit : List LogEntry → RaftPart → Bool × RaftPart) : Type 0 where
  pub last_log_id :
      (es : List LogEntry) → (p : RaftPart) → (commit es p).1.last_log_id ≡ p.last_log_id
  pub last_log_term :
      (es : List LogEntry) → (p : RaftPart) → (commit es p).1.last_log_term ≡ p.last_log_term
  pub applied : (es : List LogEntry) → (p : RaftPart) → (commit es p).1.applied ≡ p.applied

pub record LeaderCommit (resps : List (ℕ × ErrorCode)) (b : Batch) (a c : Leader) : Type 0 where
  pub majority : count_voters a.part.hosts + 1 < 2 * (acked_voters 0 b.hosts resps + 1)
  pub leads :
      (is_running a.part.status ≡ true)
      × (is_leader a.part.role ≡ true)
      × (a.part.term ≡ b.curr_term)
  pub committed : c.part.committed_log_id ≡ b.last_log_id
  pub last : (c.part.last_log_id ≡ b.last_log_id) × (c.part.last_log_term ≡ b.curr_term)
  pub applied :
      c.part.applied ≡ a.part.applied ++ wal_range (b.committed_id + 1) b.last_log_id a.part.wal

-- The three outcomes of the responses to a batch.
pub data Responded (resps : List (ℕ × ErrorCode)) (b : Batch) (a c : Leader) (o : Option Flight)
    : Type 0 where
  retries :
      count_succeeded b.hosts resps < a.part.quorum
      → c ≡ a
      → o ≡ some (replicating b)
      → Responded resps b a c o
  gives_up :
      is_appended (check_term b.curr_term a.part) ≡ false
      → c ≡ clean_buffer a
      → o ≡ none
      → Responded resps b a c o
  commits : LeaderCommit resps b a c → Responded resps b a c o

next_cached-part :
    (first term : ℕ)
    → (ls : List CachedLog) → (a : Leader) → (next_cached first term ls a).0.part ≡ a.part
next_cached-part first term [] a = refl
next_cached-part first term (l ∷ ls) a = ground arith

next_flight-part :
    (it : LogsIterator)
    → (first term : ℕ) → (a : Leader) → (next_flight it first term a).0.part ≡ a.part
unfolding next_flight
next_flight-part it first term a = ground (arith, next_cached-part first term a.cache a)

-- The outcome of a step that is not fatal.
abbrev outcome : Leader × Option Flight → Option (Leader × Option Flight) → Leader × Option Flight
outcome x none = x
outcome x (some y) = y

some-outcome :
    (x : Leader × Option Flight)
    → (c : Leader) → (o : Option Flight) → some x ≡ some (c, o)
    → (c ≡ x.0) × (o ≡ x.1)
some-outcome x c o e =
    let same = sym (ap (outcome x) e) in
    (ap (λ (y : Leader × Option Flight). y.0) same, ap (λ (y : Leader × Option Flight). y.1) same)

guarded-part :
    (r : Bool)
    → (x : Leader × Option Flight) → (c : Leader) → (o : Option Flight)
    → (if r then some x else none) ≡ some (c, o)
    → c.part ≡ x.0.part
guarded-part true x c o e = ap (λ (d : Leader). d.part) (some-outcome x c o e).0
guarded-part false x c o e = absurd (cc)

-- What the part is after a commit.
after_leader_commit-part :
    (b : Batch)
    → (es : List LogEntry) → (a c : Leader) → (o : Option Flight) → (y : Bool × RaftPart)
    → after_leader_commit b es a y ≡ some (c, o)
    → c.part ≡ record (y.1) { committed_log_id = b.last_log_id; applied = y.1.applied ++ es }
after_leader_commit-part b es a c o (false, q) e = absurd (cc)
after_leader_commit-part b es a c o (true, q) e =
    let d = record a {
      part = record q { committed_log_id = b.last_log_id; applied = q.applied ++ es };
    } in
    let first = q.last_log_id + 1 in
    guarded-part a.replicating_logs (next_flight b.iter first b.curr_term d) c o e
    ∙ next_flight-part b.iter first b.curr_term d

check_term-appended :
    (term : ℕ)
    → (p : RaftPart) → is_appended (check_term term p) ≡ true
    → (is_running p.status ≡ true) × (is_leader p.role ≡ true) × (p.term ≡ term)
unfolding check_term
check_term-appended term p e = (ground arith, ground arith, ground arith)

quorum-majority :
    (n : ℕ) → (p : RaftPart) → HasQuorum p → p.quorum ≤ n → count_voters p.hosts + 1 < 2 * (n + 1)
quorum-majority n p h le = let half = h.half in omega arith

responded-majority :
    (commit : List LogEntry → RaftPart → Bool × RaftPart)
    → (resps : List (ℕ × ErrorCode)) → (b : Batch) → (a c : Leader) → (o : Option Flight)
    → IsPassive commit
    → HasQuorum a.part
    → RespondOnce resps
    → a.part.quorum ≤ count_succeeded b.hosts resps
    → is_appended (check_term b.curr_term a.part) ≡ true
    → after_leader_commit b (wal_range (b.committed_id + 1) b.last_log_id a.part.wal) a (
        commit
          (wal_range (b.committed_id + 1) b.last_log_id a.part.wal)
          (record a.part { last_log_id = b.last_log_id; last_log_term = b.curr_term }))
      ≡ some (c, o)
    → LeaderCommit resps b a c
responded-majority commit resps b a c o passive h once enough ok e =
    let p = record a.part { last_log_id = b.last_log_id; last_log_term = b.curr_term } in
    let es = wal_range (b.committed_id + 1) b.last_log_id a.part.wal in
    let part = after_leader_commit-part b es a c o (commit es p) e in
    record {
      majority =
          quorum-majority (acked_voters 0 b.hosts resps) a.part h
            (omega (arith, enough, count_succeeded-acked_voters b.hosts resps once));
      leads = check_term-appended b.curr_term a.part ok;
      committed = ap (λ (q : RaftPart). q.committed_log_id) part;
      last = (
        ap (λ (q : RaftPart). q.last_log_id) part ∙ passive.last_log_id es p,
        ap (λ (q : RaftPart). q.last_log_term) part ∙ passive.last_log_term es p,
      );
      applied =
          ap (λ (q : RaftPart). q.applied) part
          ∙ ap (λ (l : List LogEntry). l ++ es) (passive.applied es p);
    }

-- What the responses to a batch lead to, where the quorum is right, no host responds twice and commitLogs leaves
-- the raft fields alone: too few successes leave the leader as it was and the batch is sent again; a
-- part that does not run as the leader of the batch's term drops what it has cached; else the leader commits.
-- It then runs as the leader of that term and has successes of so many different voters that they make a
-- majority of its voters, itself included; its committed id is the batch's last id, and what it applies in
-- addition is the log behind the committed id that the batch started from.
pub process_append_log_responses-Responded :
    (commit : List LogEntry → RaftPart → Bool × RaftPart)
    → (resps : List (ℕ × ErrorCode)) → (b : Batch) → (a c : Leader) → (o : Option Flight)
    → IsPassive commit
    → HasQuorum a.part
    → RespondOnce resps
    → process_append_log_responses commit resps b a ≡ some (c, o)
    → Responded resps b a c o
unfolding process_append_log_responses
process_append_log_responses-Responded commit resps b a c o passive h once e =
    let n = count_succeeded b.hosts resps in
    let ok = is_appended (check_term b.curr_term a.part) in
    elim (Bool-cases (leb a.part.quorum n)) [
      | inr few ↦
          let (same, again) = some-outcome (a, some (replicating b)) c o (rw few at e) in
          retries (ground arith) same again
      | inl enough ↦ elim (Bool-cases ok) [
        | inr lost ↦
            let (same, again) = some-outcome (clean_buffer a, none) c o (rw (enough, lost) at e) in
            gives_up lost same again
        | inl leads ↦ commits (
            responded-majority commit resps b a c o passive h once (ground arith) leads
              (rw (enough, leads) at e))
      ]
    ]
