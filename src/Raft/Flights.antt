-- ===== src/Raft/Flights.antt =====
-- RaftPart.cpp: the threads that append logs on one leader, as steps in any order. A thread's critical
-- section is one step; between two of its sections every other thread may run.
use nebula_storage.Prelude.{
  ℕ, ◌+◌, ◌≡◌, refl, ◌∙◌, subst, Bool, true, false, List, [], ◌∷◌, ◌++◌, Option, none, some, arith,
  length, length-append, leb, if◌then◌else◌, ◌==◌, ◌&&◌,
}
use nebula_storage.Wal.{LogEntry, Wal}
use nebula_storage.Raft.{is_running, is_leader, RaftPart, ErrorCode}
use nebula_storage.Raft.Batches.{CachedLog, LogsIterator, new_iterator, resume}
use nebula_storage.Raft.Leader.{
  Leader, Flight, swapped, appending, replicating, sending, Batch, Enqueued, refused, waiting,
  swaps, enqueue, begin_append, append_logs_internal, replicate_logs, process_append_log_responses,
  clean_buffer, is_appended, can_append_logs, check_term, next_flight, next_cached, after_wal,
  after_leader_commit, count_succeeded,
}

-- The leader and what the threads have in hand.
pub record System : Type 0 where
  pub leader : Leader
  pub flights : List Flight

abbrev pub launched : Enqueued → List Flight
launched (refused r) = []
launched waiting = []
launched (swaps ls) = swapped ls ∷ []

abbrev pub kept : Option Flight → List Flight
kept none = []
kept (some f) = f ∷ []

module _ (max : ℕ) (pre : LogEntry → RaftPart → Bool × RaftPart)
    (commit : List LogEntry → RaftPart → Bool × RaftPart) where
  -- The next critical section of a thread.
  pub data Advances (a : Leader) : Flight → Leader → Option Flight → Type 0 where
    begins :
        {ls : List CachedLog}
        → {b : Leader} → {o : Option Flight} → begin_append ls a ≡ (b, o)
        → Advances a (swapped ls) b o
    writes :
        {it : LogsIterator}
        → {term : ℕ} → {b : Leader} → {o : Option Flight} → (now : ℕ)
        → append_logs_internal pre now it term a ≡ (b, o)
        → Advances a (appending it term) b o
    sends :
        {x : Batch}
        → {b : Leader} → {o : Option Flight} → replicate_logs x a ≡ (b, o)
        → Advances a (replicating x) b o
    hears :
        {x : Batch}
        → {b : Leader} → {o : Option Flight} → (resps : List (ℕ × ErrorCode))
        → process_append_log_responses commit resps x a ≡ some (b, o)
        → Advances a (sending x) b o

  pub data Step : System → System → Type 0 where
    -- A client calls appendLogAsync.
    calls :
        {a b : Leader}
        → {fs : List Flight} → {o : Enqueued} → (l : CachedLog) → enqueue max l a ≡ (b, o)
        → Step
            (record { leader = a; flights = fs })
            (record { leader = b; flights = launched o ++ fs })
    advances :
        {a b : Leader}
        → {f : Flight} → {o : Option Flight} → (before after : List Flight) → Advances a f b o
        → Step
            (record { leader = a; flights = before ++ f ∷ after })
            (record { leader = b; flights = before ++ (kept o ++ after) })
    -- Votes, elections, changes of peers, and the switch that blocks writes.
    others :
        {a : Leader}
        → {fs : List Flight} → (q : RaftPart) → (stop : Bool)
        → Step
            (record { leader = a; flights = fs })
            (record { leader = record a { part = q; blocking = stop }; flights = fs })

  pub data Steps (s : System) : System → Type 0 where
    done : Steps s s
    more : {t u : System} → Steps s t → Step t u → Steps s u

abbrev pub in_flight : Bool → ℕ
in_flight true = 1
in_flight false = 0

-- `replicatingLogs_` tells whether a thread replicates logs.
pub record HasOneFlight (s : System) : Type 0 where
  pub one : length s.flights ≡ in_flight s.leader.replicating_logs

-- What a thread's step says of the flag: it goes down with the thread's last step.
abbrev pub Hands : Bool → Leader × Option Flight → Type 0
Hands r (b, none) = b.replicating_logs ≡ false
Hands r (b, some f) = b.replicating_logs ≡ r

if-holds :
    {A : Type 0} → (P : A → Type 0) → (c : Bool) → (x y : A) → P x → P y → P (if c then x else y)
if-holds P true x y h k = h
if-holds P false x y h k = k

clean_buffer-Hands : (r : Bool) → (a : Leader) → Hands r (clean_buffer a, none)
unfolding clean_buffer
clean_buffer-Hands r a = refl

begin_append-Hands :
    (ls : List CachedLog) → (a : Leader) → Hands a.replicating_logs (begin_append ls a)
unfolding begin_append
begin_append-Hands ls a =
    if-holds (Hands a.replicating_logs) (is_appended (can_append_logs a.part)) _ _ refl
      (clean_buffer-Hands a.replicating_logs a)

after_wal-Hands :
    (it : LogsIterator)
    → (a : Leader) → (x : Bool × (RaftPart × Wal)) → Hands a.replicating_logs (after_wal it a x)
after_wal-Hands it a (false, (q, w)) = clean_buffer-Hands a.replicating_logs _
after_wal-Hands it a (true, (q, w)) = refl

append_logs_internal-Hands :
    (pre : LogEntry → RaftPart → Bool × RaftPart)
    → (now : ℕ) → (it : LogsIterator) → (term : ℕ) → (a : Leader)
    → Hands a.replicating_logs (append_logs_internal pre now it term a)
unfolding append_logs_internal
append_logs_internal-Hands pre now it term a =
    if-holds (Hands a.replicating_logs) it.valid _ _
      (if-holds (Hands a.replicating_logs) (is_appended (check_term term a.part)) _ _
        (after_wal-Hands _ a _) (clean_buffer-Hands a.replicating_logs a))
      refl

replicate_logs-Hands : (x : Batch) → (a : Leader) → Hands a.replicating_logs (replicate_logs x a)
unfolding replicate_logs
replicate_logs-Hands x a =
    if-holds (Hands a.replicating_logs) (is_running a.part.status && is_leader a.part.role) _ _ refl
      (clean_buffer-Hands a.replicating_logs a)

next_cached-Hands :
    (first term : ℕ)
    → (ls : List CachedLog) → (a : Leader) → Hands a.replicating_logs (next_cached first term ls a)
next_cached-Hands first term [] a = refl
next_cached-Hands first term (l ∷ ls) a =
    if-holds (Hands a.replicating_logs) (length (new_iterator first term (l ∷ ls)).logs == 0) _ _
      refl refl

next_flight-Hands :
    (it : LogsIterator)
    → (first term : ℕ) → (a : Leader) → Hands a.replicating_logs (next_flight it first term a)
unfolding next_flight
next_flight-Hands it first term a =
    if-holds (Hands a.replicating_logs) (length (resume it).logs == 0) _ _
      (next_cached-Hands first term a.cache a) refl

-- A step that may be fatal.
abbrev HandsIf : Bool → Option (Leader × Option Flight) → Type 0
HandsIf r none = Unit
HandsIf r (some x) = Hands r x

after_leader_commit-Hands :
    (x : Batch)
    → (es : List LogEntry) → (a : Leader) → (y : Bool × RaftPart)
    → HandsIf a.replicating_logs (after_leader_commit x es a y)
after_leader_commit-Hands x es a (false, q) = tt
after_leader_commit-Hands x es a (true, q) =
    if-holds (HandsIf a.replicating_logs) a.replicating_logs _ _
      (next_flight-Hands x.iter (q.last_log_id + 1) x.curr_term _) tt

process_append_log_responses-Hands :
    (commit : List LogEntry → RaftPart → Bool × RaftPart)
    → (resps : List (ℕ × ErrorCode)) → (x : Batch) → (a : Leader)
    → HandsIf a.replicating_logs (process_append_log_responses commit resps x a)
unfolding process_append_log_responses
process_append_log_responses-Hands commit resps x a =
    if-holds (HandsIf a.replicating_logs) (leb a.part.quorum (count_succeeded x.hosts resps)) _ _
      (if-holds (HandsIf a.replicating_logs) (is_appended (check_term x.curr_term a.part)) _ _
        (after_leader_commit-Hands x _ a _) (clean_buffer-Hands a.replicating_logs a))
      refl

module _ (max : ℕ) (pre : LogEntry → RaftPart → Bool × RaftPart)
    (commit : List LogEntry → RaftPart → Bool × RaftPart) where
  Advances-Hands :
      {a : Leader}
      → {f : Flight} → {b : Leader} → {o : Option Flight} → Advances max pre commit a f b o
      → Hands a.replicating_logs (b, o)
  Advances-Hands {a} (begins {ls} e) = subst (Hands a.replicating_logs) e (begin_append-Hands ls a)
  Advances-Hands {a} (writes {it} {term} now e) =
      subst (Hands a.replicating_logs) e (append_logs_internal-Hands pre now it term a)
  Advances-Hands {a} (sends {x} e) = subst (Hands a.replicating_logs) e (replicate_logs-Hands x a)
  Advances-Hands {a} (hears {x} resps e) =
      subst (HandsIf a.replicating_logs) e (process_append_log_responses-Hands commit resps x a)

  enqueue-one :
      (l : CachedLog)
      → (a : Leader) → (n : ℕ) → n ≡ in_flight a.replicating_logs
      → length (launched (enqueue max l a).1) + n ≡ in_flight (enqueue max l a).0.replicating_logs
  unfolding enqueue
  enqueue-one l a n e = ground arith

  kept-one :
      (before after : List Flight)
      → (f : Flight) → (r : Bool) → (b : Leader) → (o : Option Flight) → Hands r (b, o)
      → length (before ++ f ∷ after) ≡ in_flight r
      → length (before ++ (kept o ++ after)) ≡ in_flight b.replicating_logs
  kept-one before after f true b none h e =
      rw h (omega (arith, e, length-append before (f ∷ after), length-append before after))
  kept-one before after f true b (some g) h e =
      rw h (omega (arith, e, length-append before (f ∷ after), length-append before (g ∷ after)))
  kept-one before after f false b o h e =
      absurd (omega (arith, e, length-append before (f ∷ after)))

  Step-HasOneFlight : {s t : System} → Step max pre commit s t → HasOneFlight s → HasOneFlight t
  Step-HasOneFlight (calls {a} {b} {fs} {o} l e) h = record {
    one =
        length-append (launched o) fs
        ∙ subst
            (λ (x : Leader × Enqueued).
              length (launched x.1) + length fs ≡ in_flight x.0.replicating_logs)
            e (enqueue-one l a (length fs) h.one);
  }
  Step-HasOneFlight (advances {a} {b} {f} {o} before after v) h = record {
    one = kept-one before after f a.replicating_logs b o (Advances-Hands v) h.one;
  }
  Step-HasOneFlight (others q stop) h = record { one = h.one }

  -- However the calls of clients, the threads' critical sections, the responses and the changes of the part by
  -- other handlers follow each other, at most one thread replicates logs, and one does exactly while
  -- `replicatingLogs_` is set.
  pub Steps-HasOneFlight :
      {s t : System} → Steps max pre commit s t → HasOneFlight s → HasOneFlight t
  Steps-HasOneFlight done h = h
  Steps-HasOneFlight (more ss st) h = Step-HasOneFlight st (Steps-HasOneFlight ss h)
