-- ===== src/Raft/Stuck.antt =====
-- RaftPart.cpp: a leader that refuses all logs, after the atomic operations of a batch have failed.
use nebula_storage.Prelude.{
  ℕ, ◌+◌, ◌≤◌, ◌<◌, ◌≡◌, refl, sym, ap, ◌∙◌, subst, Bool, true, false, ◌&&◌, List, [], ◌∷◌, ◌++◌,
  none, some, arith, length, length-append, append_assoc, append-nil, leb, inl, inr, Bool-cases,
}
use nebula_storage.Wal.{LogEntry}
use nebula_storage.Raft.{RaftPart}
use nebula_storage.Raft.Batches.{CachedLog, new_iterator}
use nebula_storage.Raft.Leader.{
  Leader, Flight, swapped, appending, Enqueued, refused, waiting, swaps, enqueue, begin_append,
  append_logs_internal, is_appended, can_append_logs, AppendLogResult, e_buffer_overflow,
  e_write_blocking, is_write,
}
use nebula_storage.Raft.Flights.{
  System, Step, Steps, calls, advances, others, done, more, begins, writes, launched,
}

-- The buffer is marked as full and no thread is there to empty it.
pub record IsStuck (s : System) : Type 0 where
  pub idle : s.flights ≡ []
  pub full : s.leader.buffer_over_flow ≡ true

enqueue-full :
    (max : ℕ)
    → (l : CachedLog) → (a : Leader) → a.buffer_over_flow ≡ true
    → (r : AppendLogResult) × (enqueue max l a ≡ (a, refused r))
unfolding enqueue
enqueue-full max l a f = elim (Bool-cases (a.blocking && is_write l)) [
  | inl e ↦ (e_write_blocking, rw e refl)
  | inr e ↦ (e_buffer_overflow, rw (e, f) refl)
]

module _ (max : ℕ) (pre : LogEntry → RaftPart → Bool × RaftPart)
    (commit : List LogEntry → RaftPart → Bool × RaftPart) where
  Step-IsStuck : {s t : System} → Step max pre commit s t → IsStuck s → IsStuck t
  Step-IsStuck (calls {a} {b} {fs} {o} l e) h =
      let (r, same) = enqueue-full max l a h.full in
      let p = sym e ∙ same in
      record {
        idle = subst (λ (x : Leader × Enqueued). launched x.1 ++ fs ≡ []) (sym p) h.idle;
        full = subst (λ (x : Leader × Enqueued). x.0.buffer_over_flow ≡ true) (sym p) h.full;
      }
  Step-IsStuck (advances {a} {b} {f} {o} before after v) h =
      absurd (omega (arith, ap length h.idle, length-append before (f ∷ after)))
  Step-IsStuck (others q stop) h = record { idle = h.idle; full = h.full }

  Steps-IsStuck : {s t : System} → Steps max pre commit s t → IsStuck s → IsStuck t
  Steps-IsStuck done h = h
  Steps-IsStuck (more ss st) h = Step-IsStuck st (Steps-IsStuck ss h)

  enqueue-IsStuck :
      {s t : System}
      → Steps max pre commit s t
      → IsStuck s
      → (l : CachedLog) → (r : AppendLogResult) × (enqueue max l t.leader ≡ (t.leader, refused r))
  enqueue-IsStuck {s} {t} ss h l = enqueue-full max l t.leader (Steps-IsStuck ss h).full

  -- A leader with nothing in hand that takes in logs.
  pub record IsIdle (a : Leader) : Type 0 where
    pub open_to_writes : a.blocking ≡ false
    pub not_full : a.buffer_over_flow ≡ false
    pub no_thread : a.replicating_logs ≡ false
    pub has_room : length a.cache < max
    pub leads : is_appended (can_append_logs a.part) ≡ true

  -- While a thread has logs in hand, others fill the cache.
  fill :
      (a : Leader) (f : Flight) (c ls : List CachedLog) {s : System}
      → a.blocking ≡ false
      → Steps max pre commit s (record {
        leader = record a { cache = c; replicating_logs = true; buffer_over_flow = false };
        flights = f ∷ [];
      })
      → length c + length ls ≤ max
      → Steps max pre commit s (record {
        leader = record a { cache = c ++ ls; replicating_logs = true; buffer_over_flow = false };
        flights = f ∷ [];
      })
  unfolding enqueue
  fill a f c [] {s} o ss h =
      subst
        (λ k. Steps max pre commit s (record {
          leader = record a { cache = k; replicating_logs = true; buffer_over_flow = false };
          flights = f ∷ [];
        }))
        (sym (append-nil c)) ss
  fill a f c (l ∷ ls) {s} o ss h =
      let b : Leader = record a { cache = c; replicating_logs = true; buffer_over_flow = false } in
      let d : Leader = record a {
        cache = c ++ l ∷ [];
        replicating_logs = true;
        buffer_over_flow = false;
      } in
      let room : leb max (length c) ≡ false = ground (arith, h) in
      let step : enqueue max l b ≡ (d, waiting) = rw (o, room) refl in
      subst
        (λ k. Steps max pre commit s (record {
          leader = record a { cache = k; replicating_logs = true; buffer_over_flow = false };
          flights = f ∷ [];
        }))
        (append_assoc c (l ∷ []) ls)
        (fill a f (c ++ l ∷ []) ls o (more ss (calls l step))
          (omega (arith, h, length-append c (l ∷ []))))

  abbrev pub stuck_with : Leader → List CachedLog → System
  stuck_with a ls = record {
    leader = record a { cache = ls; buffer_over_flow = true; replicating_logs = false };
    flights = [];
  }

  -- A leader with nothing in hand takes in a log with which no log of the first batch remains, its atomic
  -- operations having failed. While they run, calls fill the cache and one more is refused. Then the thread
  -- ends with the buffer marked as full; and every later call of appendLogAsync is refused and changes
  -- nothing, heartbeats included, whatever happens to the part's role and term.
  pub append_logs_internal-stuck :
      (a : Leader) (l m x : CachedLog) (ls : List CachedLog) (now : ℕ) {t : System}
      → IsIdle a
      → (new_iterator (a.part.last_log_id + 1) a.part.term (a.cache ++ l ∷ [])).valid ≡ false
      → length ls ≡ max
      → Steps max pre commit (stuck_with a ls) t
      → Steps max pre commit (record { leader = a; flights = [] }) (stuck_with a ls)
        × ((r : AppendLogResult) × (enqueue max x t.leader ≡ (t.leader, refused r)))
  unfolding enqueue begin_append append_logs_internal
  append_logs_internal-stuck a l m x ls now {t} idle fails full ss =
      let logs = a.cache ++ l ∷ [] in
      let it = new_iterator (a.part.last_log_id + 1) a.part.term logs in
      let taken : Leader = record a {
        cache = [];
        replicating_logs = true;
        buffer_over_flow = false;
      } in
      let filled : Leader = record a {
        cache = ls;
        replicating_logs = true;
        buffer_over_flow = false;
      } in
      let over : Leader = record a {
        cache = ls;
        replicating_logs = true;
        buffer_over_flow = true;
      } in
      let room : leb max (length a.cache) ≡ false = ground (arith, idle.has_room) in
      let first : enqueue max l a ≡ (taken, swaps logs) =
        rw (idle.open_to_writes, idle.not_full, room, idle.no_thread) refl in
      let no_room : leb max (length ls) ≡ true = ground (arith, full) in
      let last : enqueue max m filled ≡ (over, refused e_buffer_overflow) =
        rw (idle.open_to_writes, no_room) refl in
      let begun : begin_append logs over ≡ (over, some (appending it a.part.term)) =
        rw idle.leads refl in
      let ended : append_logs_internal pre now it a.part.term over
          ≡ ((stuck_with a ls).leader, none) =
        rw fails refl in
      let one : Steps max pre commit (record { leader = a; flights = [] })
          (record { leader = taken; flights = swapped logs ∷ [] }) =
        more done (calls l first) in
      let two = fill a (swapped logs) [] ls idle.open_to_writes one (omega (arith, full)) in
      let three = more two (calls m last) in
      let four = more three (advances [] [] (begins begun)) in
      (
        more four (advances [] [] (writes now ended)),
        enqueue-IsStuck ss (record { idle = refl; full = refl }) x,
      )
