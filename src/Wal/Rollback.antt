-- ===== src/Wal/Rollback.antt =====
-- FileBasedWal::rollbackToLog: within the range of the log it never aborts, and it cuts the log
-- behind the record with the given id.
use nebula_storage.Prelude.{
  ℕ, suc, ◌+◌, ◌-◌, ◌<◌, ◌≤◌, ◌≡◌, refl, sym, ap, subst, ◌∙◌, Bool, true, false, ◌||◌, List, [],
  ◌∷◌, ◌++◌, Option, some, arith, length, take, ltb, ◌==◌, length-take, ◌⊎◌, inl, inr,
}
use nebula_storage.LogBuffer
use nebula_storage.Wal.{
  LogEntry, WalFile, Wal, close_curr_file, drop_newer, rollback_in_file, rollback_files,
  rollback_to_log, all_entries, entries_size,
}
use nebula_storage.Wal.Log.{
  IsWal, IsFiles, HasFile, FilesFrom, last_term_of, close_curr_file-IsWal,
  all_entries-close_curr_file,
}
use nebula_storage.Wal.Kept.{
  drop_newer-Kept, take_until-Consecutive, Consecutive-take, length-all_entries, take_nil,
  take_middle, Kept,
}

-- What a rollback within the range leaves.
pub record RolledBack (id : ℕ) (w w' : Wal) : Type 0 where
  pub good : IsWal w'
  pub log : all_entries w'.files ≡ take (id + 1 - w.first_log_id) (all_entries w.files)
  pub last_id : (w'.last_log_id ≡ id) ⊎ ((w'.last_log_id ≡ 0) × (id + 1 ≡ w.first_log_id))
  pub last_term : w'.last_log_term ≡ last_term_of 0 (all_entries w'.files)

-- The state that the rollback comes to, whichever files remain.
abbrev pub RollsBack : ℕ → Wal → Option (Bool × Wal) → Type 0
RollsBack id w r = (w' : Wal) × (r ≡ some (true, w')) × RolledBack id w w'

last_term_of-append :
    (d c : ℕ) (xs ys : List LogEntry)
    → 0 < length ys
    → last_term_of d (xs ++ ys) ≡ last_term_of c ys
last_term_of-append d c [] [] h = absurd (omega arith)
last_term_of-append d c [] (y ∷ ys) h = refl
last_term_of-append d c (x ∷ xs) ys h = last_term_of-append x.term c xs ys h

closed_HasFile : (o : Bool) (fs : List WalFile) → o ≡ false → HasFile o fs
closed_HasFile true fs e = cc
closed_HasFile false fs e = tt

-- The log is cut before its first record.
cut_all :
    (id : ℕ) (w : Wal)
    → id + 1 ≡ w.first_log_id
    → w.is_open ≡ false
    → RollsBack id w (rollback_files id w [])
unfolding rollback_files all_entries
cut_all id w e closed =
    let start : (id + 1 == w.first_log_id || id == 0) ≡ true = ground arith in
    let nothing : id + 1 - w.first_log_id ≡ 0 = omega arith in
    (
      record w {
        files = [];
        first_log_id = 0;
        last_log_id = 0;
        last_log_term = 0;
        log_buffer = LogBuffer.reset w.log_buffer;
      },
      rw start,
      record {
        good = record { files = (refl, refl); opened = closed_HasFile w.is_open [] closed };
        log = rw nothing;
        last_id = inr (refl, e);
        last_term = refl;
      },
    )

-- A file keeps the records up to the one with the id.
cut_file :
    (id : ℕ) (w : Wal) (k : Kept w.first_log_id id w.files)
    → 0 < w.first_log_id
    → w.is_open ≡ false
    → RollsBack id w (rollback_files id w (k.file ∷ k.older))
unfolding rollback_files rollback_in_file all_entries
cut_file id w k pos closed =
    let place = id - k.file.first_id in
    let front = take (suc place) k.file.entries in
    let found =
      take_until-Consecutive k.file.first_id place 0 id k.file.entries k.run
        (omega (arith, k.from, k.upto)) (omega (arith, k.from)) in
    let size : length front ≡ suc place =
      omega (arith, length-take (suc place) k.file.entries, k.from, k.upto) in
    let some_left : 0 < length front = omega (arith, size) in
    let older = length-all_entries w.first_log_id k.file.first_id k.older k.below in
    (
      record w {
        files =
            record k.file {
              entries = front;
              size = entries_size front;
              last_id = id;
              last_term = last_term_of 0 front;
            }
            ∷ k.older;
        last_log_id = id;
        last_log_term = last_term_of 0 front;
        log_buffer = LogBuffer.reset w.log_buffer;
      },
      rw found,
      record {
        good = record {
          files = (
            pos,
            (
              omega (arith, size, k.from),
              some_left,
              Consecutive-take k.file.first_id (suc place) k.file.entries k.run,
              k.below,
            ),
            refl,
          );
          opened = closed_HasFile w.is_open _ closed;
        };
        log = sym (
            ap (take (id + 1 - w.first_log_id)) k.log
            ∙ take_middle (suc place) (id + 1 - w.first_log_id) (all_entries k.older) k.file.entries
                k.dropped (omega (arith, k.from, k.upto)) (omega (arith, older, k.from)));
        last_id = inl refl;
        last_term = sym (last_term_of-append 0 0 (all_entries k.older) front some_left);
      },
    )

-- A log without files is left as it is.
cut_empty :
    (id : ℕ) (w : Wal)
    → IsWal w
    → w.files ≡ []
    → w.first_log_id ≡ 0
    → id ≡ 0
    → w.is_open ≡ false
    → RollsBack id w (rollback_files id w [])
unfolding rollback_files all_entries
cut_empty id w h none_left no_first zero_id closed =
    let start : (id + 1 == w.first_log_id || id == 0) ≡ true = ground arith in
    (
      record w {
        files = [];
        first_log_id = 0;
        last_log_id = 0;
        last_log_term = 0;
        log_buffer = LogBuffer.reset w.log_buffer;
      },
      rw start,
      record {
        good = record { files = (refl, refl); opened = closed_HasFile w.is_open [] closed };
        log = sym (
            ap (λ (fs : List WalFile). take (id + 1 - w.first_log_id) (all_entries fs)) none_left
            ∙ take_nil (id + 1 - w.first_log_id));
        last_id = inl (sym zero_id);
        last_term = refl;
      },
    )

drop_newer-nil : (id : ℕ) → drop_newer id [] ≡ []
unfolding drop_newer
drop_newer-nil id = refl

IsFiles-cases :
    (fs : List WalFile) (first last term : ℕ)
    → IsFiles fs first last term
    → ((fs ≡ []) × (first ≡ 0) × (last ≡ 0)) ⊎ ((0 < first) × FilesFrom first (last + 1) fs)
IsFiles-cases [] first last term h = inl (refl, h.0, h.1)
IsFiles-cases (f ∷ fs) first last term h = inr (h.0, h.1)

-- Cutting a log whose newest file has been closed.
rollback_closed :
    (id : ℕ) (w : Wal)
    → IsWal w
    → w.is_open ≡ false
    → w.first_log_id ≤ id + 1
    → id ≤ w.last_log_id
    → RollsBack id w (rollback_files id w (drop_newer id w.files))
rollback_closed id w h closed lo hi =
    elim (IsFiles-cases w.files w.first_log_id w.last_log_id w.last_log_term h.files) [
      | inl (none_left, no_first, no_last) ↦
          subst (λ fs. RollsBack id w (rollback_files id w fs))
            (sym (ap (drop_newer id) none_left ∙ drop_newer-nil id))
            (cut_empty id w h none_left no_first (omega arith) closed)
      | inr (pos, from) ↦
          elim (drop_newer-Kept w.first_log_id (w.last_log_id + 1) id w.files from (omega arith)) [
            | inl (gone, out) ↦
                subst (λ fs. RollsBack id w (rollback_files id w fs)) (sym gone)
                  (cut_all id w (omega arith) closed)
            | inr k ↦
                subst (λ fs. RollsBack id w (rollback_files id w fs)) (sym k.files_left)
                  (cut_file id w k pos closed)
          ]
    ]

-- In the range from before the first record to the last one a rollback of a well-formed log
-- succeeds: the log is cut behind the record with the given id, and stays well formed. Cut before
-- its first record it is empty.
pub rollback_to_log-RollsBack :
    (now id : ℕ) (w : Wal)
    → IsWal w
    → w.first_log_id ≤ id + 1
    → id ≤ w.last_log_id
    → RollsBack id w (rollback_to_log now id w)
unfolding rollback_to_log close_curr_file
rollback_to_log-RollsBack now id w h lo hi =
    let c = close_curr_file now w in
    let in_range : (ltb (id + 1) w.first_log_id || ltb w.last_log_id id) ≡ false = ground arith in
    let (w', done, r) = rollback_closed id c (close_curr_file-IsWal now w h) refl lo hi in
    (
      w',
      rw in_range done,
      record {
        good = r.good;
        log = r.log ∙ ap (take (id + 1 - w.first_log_id)) (all_entries-close_curr_file now w);
        last_id = r.last_id;
        last_term = r.last_term;
      },
    )

-- A rollback to an id before the one in front of the first record, or after the last, is refused,
-- and changes nothing.
rollback_to_log_refused :
    (now id : ℕ) (w : Wal)
    → ((id + 1 < w.first_log_id) ⊎ (w.last_log_id < id))
    → rollback_to_log now id w ≡ some (false, w)
unfolding rollback_to_log
rollback_to_log_refused now id w out =
    let refused : (ltb (id + 1) w.first_log_id || ltb w.last_log_id id) ≡ true = ground arith in
    rw refused
