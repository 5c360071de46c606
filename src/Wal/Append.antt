-- ===== src/Wal/Append.antt =====
-- FileBasedWal::appendLogs: what a whole batch does to the log.
use nebula_storage.Prelude.{
  ℕ, ◌<◌, ◌≡◌, refl, sym, ap, subst, ◌∙◌, Bool, true, false, ◌||◌, List, [], ◌∷◌, ◌++◌,
  append_assoc, append-nil, inl, inr, Bool-cases, All,
}
use nebula_storage.Wal.{
  LogEntry, Wal, write_entry, has_gap, append_log, append_logs, all_entries, store, and_then,
}
use nebula_storage.Wal.Log.{IsWal, write_entry-IsWal, last_term_of}

-- Every id is positive.
abbrev pub HasPosIds : List LogEntry → Type 0
HasPosIds = All (λ (e : LogEntry). 0 < e.id)

abbrev pub last_id_of : ℕ → List LogEntry → ℕ
last_id_of d [] = d
last_id_of d (e ∷ es) = last_id_of e.id es

-- What a batch leaves: the log of before and some front of the batch, all of it on success.
pub record Batch (es : List LogEntry) (w : Wal) (done : Bool) (w' : Wal) : Type 0 where
  pub written : List LogEntry
  pub refused : List LogEntry
  pub split : es ≡ written ++ refused
  pub good : IsWal w'
  pub log : all_entries w'.files ≡ all_entries w.files ++ written
  pub whole : done ≡ true → refused ≡ []
  pub last_id : w'.last_log_id ≡ last_id_of w.last_log_id written
  pub last_term : w'.last_log_term ≡ last_term_of w.last_log_term written

module _ {S : Type 0} (now : ℕ) (pre : LogEntry → S → Bool × S) where
  -- A record is refused and nothing is written, or it goes to the end.
  abbrev Appends : LogEntry → Wal → Bool → Wal → Type 0
  Appends e w true w' =
      IsWal w'
      × (all_entries w'.files ≡ all_entries w.files ++ e ∷ [])
      × (w'.last_log_id ≡ e.id)
      × (w'.last_log_term ≡ e.term)
  Appends e w false w' = w' ≡ w

  store-Appends :
      (e : LogEntry) (w : Wal) (r : Bool × S)
      → IsWal w
      → 0 < e.id
      → has_gap w e.id ≡ false
      → Appends e w (store now e w r).0 (store now e w r).1.1
  store-Appends e w (true, s) h pos gap =
      let (good, more) = write_entry-IsWal now e w h pos gap in
      (good, more, unfold write_entry in refl, unfold write_entry in refl)
  store-Appends e w (false, s) h pos gap = refl

  no_gap : (a b : Bool) → (a || b) ≡ false → b ≡ false
  no_gap true b e = cc
  no_gap false b e = e

  append_log-Appends :
      (e : LogEntry) (s : S) (w : Wal)
      → IsWal w
      → 0 < e.id
      → Appends e w (append_log now pre e (s, w)).0 (append_log now pre e (s, w)).1.1
  unfolding append_log
  append_log-Appends e s w h pos = elim (Bool-cases (w.stopped || has_gap w e.id)) [
    | inl refused ↦ rw refused refl
    | inr passed ↦
        rw passed (store-Appends e w (pre e s) h pos (no_gap w.stopped (has_gap w e.id) passed))
  ]

  Appends-Batch :
      (e : LogEntry) (es : List LogEntry) (w : Wal) (r : Bool × (S × Wal))
      → IsWal w
      → Appends e w r.0 r.1.1
      → (IsWal r.1.1
          → Batch es r.1.1 (append_logs now pre es r.1).0 (append_logs now pre es r.1).1.1)
      → Batch
          (e ∷ es)
          w
          (and_then (append_logs now pre es) r).0
          (and_then (append_logs now pre es) r).1.1
  Appends-Batch e es w (false, st) h same rest = record {
    written = [];
    refused = e ∷ es;
    split = refl;
    good = subst IsWal (sym same) h;
    log = ap (λ (v : Wal). all_entries v.files) same ∙ sym (append-nil (all_entries w.files));
    whole = λ x. cc;
    last_id = ap (λ (v : Wal). v.last_log_id) same;
    last_term = ap (λ (v : Wal). v.last_log_term) same;
  }
  Appends-Batch e es w (true, st) h (good, more, id, term) rest =
      let b = rest good in
      record {
        written = e ∷ b.written;
        refused = b.refused;
        split = ap (◌∷◌ e) b.split;
        good = b.good;
        log =
            b.log
            ∙ ap (λ (l : List LogEntry). l ++ b.written) more
            ∙ append_assoc (all_entries w.files) (e ∷ []) b.written;
        whole = b.whole;
        last_id = b.last_id ∙ ap (λ (k : ℕ). last_id_of k b.written) id;
        last_term = b.last_term ∙ ap (λ (k : ℕ). last_term_of k b.written) term;
      }

  append_logs-Batch :
      (es : List LogEntry) (s : S) (w : Wal)
      → IsWal w
      → HasPosIds es
      → Batch es w (append_logs now pre es (s, w)).0 (append_logs now pre es (s, w)).1.1
  unfolding append_logs
  append_logs-Batch [] s w h pos = record {
    written = [];
    refused = [];
    split = refl;
    good = h;
    log = sym (append-nil (all_entries w.files));
    whole = λ x. refl;
    last_id = refl;
    last_term = refl;
  }
  append_logs-Batch (e ∷ es) s w h (pos, more) =
      let r = append_log now pre e (s, w) in
      Appends-Batch e es w r h (append_log-Appends e s w h pos)
        (λ good. append_logs-Batch es r.1.0 r.1.1 good more)

-- A batch of records with ids other than 0 leaves a well-formed log well formed: it is the log of
-- before followed by a front of the batch, and by the whole of the batch where `appendLogs`
-- returns true. The last id and term are those of the last record written.
pub append_logs_lem :
    {S : Type 0} (now : ℕ) (pre : LogEntry → S → Bool × S) (es : List LogEntry) (s : S) (w : Wal)
    → IsWal w
    → HasPosIds es
    → Batch es w (append_logs now pre es (s, w)).0 (append_logs now pre es (s, w)).1.1
append_logs_lem now pre es s w h pos = append_logs-Batch now pre es s w h pos
