-- ===== src/Wal/Log.antt =====
-- The write-ahead log of kvstore/wal/FileBasedWal.cpp holds consecutive records, and appending to it
-- adds one at the end.
use nebula_storage.Prelude.{
  ℕ, ◌+◌, ◌<◌, ◌≤◌, ◌≡◌, refl, sym, ap, subst, ◌∙◌, Bool, true, false, not, ◌&&◌, List, [], ◌∷◌,
  ◌++◌, arith, length, ltb, ◌==◌, if◌then◌else◌, length-append, append_assoc, append-nil, inl, inr,
  Bool-cases,
}
use nebula_storage.Wal.{
  LogEntry, WalFile, Wal, new_file, close_files, close_curr_file, close_if, select_files,
  write_file, write_entry, has_gap, all_entries, entry_size,
}

-- The ids count up from `n`.
abbrev pub Consecutive : ℕ → List LogEntry → Type 0
Consecutive n [] = Unit {0}
Consecutive n (e ∷ es) = (e.id ≡ n) × Consecutive (n + 1) es

abbrev pub last_term_of : ℕ → List LogEntry → ℕ
last_term_of d [] = d
last_term_of d (e ∷ es) = last_term_of e.term es

-- The files, newest first, hold the ids from `first` up to `next`, and none of them is empty.
abbrev pub FilesFrom : ℕ → ℕ → List WalFile → Type 0
FilesFrom first next [] = first ≡ next
FilesFrom first next (f ∷ fs) =
    (f.first_id + length f.entries ≡ next)
    × (0 < length f.entries)
    × Consecutive f.first_id f.entries
    × FilesFrom first f.first_id fs

abbrev pub IsFiles : List WalFile → ℕ → ℕ → ℕ → Type 0
IsFiles [] first last term = (first ≡ 0) × (last ≡ 0)
IsFiles (f ∷ fs) first last term =
    (0 < first) × FilesFrom first (last + 1) (f ∷ fs) × (term ≡ last_term_of 0 f.entries)

abbrev pub HasFile : Bool → List WalFile → Type 0
HasFile true [] = ⊥
HasFile true (f ∷ fs) = Unit {0}
HasFile false fs = Unit {0}

-- An empty log has the ids 0; its term may be left from before a reset.
pub record IsWal (w : Wal) : Type 0 where
  pub files : IsFiles w.files w.first_log_id w.last_log_id w.last_log_term
  pub opened : HasFile w.is_open w.files

Consecutive-append :
    (n : ℕ) (es : List LogEntry) (e : LogEntry)
    → Consecutive n es
    → e.id ≡ n + length es
    → Consecutive n (es ++ e ∷ [])
Consecutive-append n [] e c h = omega arith
Consecutive-append n (x ∷ es) e (hx, c) h = (hx, Consecutive-append (n + 1) es e c (omega arith))

last_term_of-append :
    (d : ℕ) (es : List LogEntry) (e : LogEntry) → last_term_of d (es ++ e ∷ []) ≡ e.term
last_term_of-append d [] e = refl
last_term_of-append d (x ∷ es) e = last_term_of-append x.term es e

-- What is left when the record's file is chosen: a file, open, in which the next id may stand.
abbrev pub ReadyFor : ℕ → List WalFile → ℕ → Type 0
ReadyFor id [] first = ⊥
ReadyFor id (f ∷ fs) first =
    (f.first_id + length f.entries ≡ id)
    × Consecutive f.first_id f.entries
    × FilesFrom first f.first_id fs

pub FilesFrom-le : (first next : ℕ) (fs : List WalFile) → FilesFrom first next fs → first ≤ next
FilesFrom-le first next [] h = omega arith
FilesFrom-le first next (f ∷ fs) h = omega (arith, FilesFrom-le first f.first_id fs h.3)

-- In a log that is not empty the record's id is the next one, and the beginning stays.
next_id :
    (id first last term : ℕ) (f : WalFile) (fs : List WalFile)
    → IsFiles (f ∷ fs) first last term
    → ((not (last == 0) && not (first == 0)) && not (id == last + 1)) ≡ false
    → (id ≡ last + 1) × ((if first == 0 then id else first) ≡ first)
next_id id first last term f fs h gap = ground (arith, FilesFrom-le first f.first_id fs h.1.3)

new_file-ReadyFor :
    (id first last term : ℕ) (fs : List WalFile)
    → IsFiles fs first last term
    → ((not (last == 0) && not (first == 0)) && not (id == last + 1)) ≡ false
    → ReadyFor id (new_file id ∷ fs) (if first == 0 then id else first)
new_file-ReadyFor id first last term [] h gap = (omega arith, tt, ground arith)
new_file-ReadyFor id first last term (f ∷ fs) h gap =
    let (next, start) = next_id id first last term f fs h gap in
    subst (λ k. ReadyFor id (new_file id ∷ f ∷ fs) k) (sym start)
      (omega arith, tt, (omega (arith, next), h.1.1, h.1.2, h.1.3))

open_file-ReadyFor :
    (id first last term : ℕ) (f : WalFile) (fs : List WalFile)
    → IsFiles (f ∷ fs) first last term
    → ((not (last == 0) && not (first == 0)) && not (id == last + 1)) ≡ false
    → ReadyFor id (f ∷ fs) (if first == 0 then id else first)
open_file-ReadyFor id first last term f fs h gap =
    let (next, start) = next_id id first last term f fs h gap in
    subst (λ k. ReadyFor id (f ∷ fs) k) (sym start) (omega (arith, next), h.1.2, h.1.3)

-- Closing the newest file changes its time alone.
close_files-IsFiles :
    (now first last term : ℕ) (fs : List WalFile)
    → IsFiles fs first last term
    → IsFiles (close_files now fs) first last term
close_files-IsFiles now first last term [] h = h
close_files-IsFiles now first last term (f ∷ fs) h = h

pub all_entries-close_files :
    (now : ℕ) (fs : List WalFile) → all_entries (close_files now fs) ≡ all_entries fs
unfolding all_entries
all_entries-close_files now [] = refl
all_entries-close_files now (f ∷ fs) = refl

close_if-IsFiles :
    (now first last term : ℕ) (o : Bool) (fs : List WalFile)
    → IsFiles fs first last term
    → IsFiles (close_if now o fs) first last term
unfolding close_if
close_if-IsFiles now first last term true fs h = close_files-IsFiles now first last term fs h
close_if-IsFiles now first last term false fs h = h

pub close_curr_file-IsWal : (now : ℕ) (w : Wal) → IsWal w → IsWal (close_curr_file now w)
unfolding close_curr_file
close_curr_file-IsWal now w h = record {
  files =
      close_if-IsFiles now w.first_log_id w.last_log_id w.last_log_term w.is_open w.files h.files;
  opened = tt;
}

pub all_entries-close_curr_file :
    (now : ℕ) (w : Wal) → all_entries (close_curr_file now w).files ≡ all_entries w.files
unfolding close_curr_file
all_entries-close_curr_file now w = by_flag w.is_open
  where
    by_flag : (o : Bool) → all_entries (close_if now o w.files) ≡ all_entries w.files
    by_flag true = all_entries-close_files now w.files
    by_flag false = refl

-- Whichever file is chosen, the next id may stand in it, and the records are those of before.
select_files-ReadyFor :
    (now limit first last term : ℕ) (e : LogEntry) (o : Bool) (fs : List WalFile)
    → IsFiles fs first last term
    → HasFile o fs
    → ((not (last == 0) && not (first == 0)) && not (e.id == last + 1)) ≡ false
    → ReadyFor e.id (select_files now limit e o fs) (if first == 0 then e.id else first)
      × (all_entries (select_files now limit e o fs) ≡ all_entries fs)
unfolding select_files all_entries
select_files-ReadyFor now limit first last term e false fs h o gap =
    (new_file-ReadyFor e.id first last term fs h gap, append-nil (all_entries fs))
select_files-ReadyFor now limit first last term e true [] h o gap = elim o [ ]
select_files-ReadyFor now limit first last term e true (f ∷ fs) h o gap =
    elim (Bool-cases (ltb limit (f.size + entry_size e))) [
      | inl full ↦ rw full (
        new_file-ReadyFor e.id first last term (record f { mtime = now } ∷ fs) h gap,
        append-nil (all_entries fs ++ f.entries),
      )
      | inr room ↦ rw room (open_file-ReadyFor e.id first last term f fs h gap, refl)
    ]

-- A record written to the chosen file.
write_file-IsFiles :
    (first : ℕ) (e : LogEntry) (fs : List WalFile)
    → ReadyFor e.id fs first
    → 0 < first
    → IsFiles (write_file e fs) first e.id e.term
      × HasFile true (write_file e fs)
      × (all_entries (write_file e fs) ≡ all_entries fs ++ e ∷ [])
unfolding all_entries
write_file-IsFiles first e [] r pos = elim r [ ]
write_file-IsFiles first e (f ∷ fs) (next, run, below) pos =
    let len = length-append f.entries (e ∷ []) in
    (
      (
        pos,
        (
          omega (arith, len),
          omega (arith, len),
          Consecutive-append f.first_id f.entries e run (sym next),
          below,
        ),
        sym (last_term_of-append 0 f.entries e),
      ),
      tt,
      sym (append_assoc (all_entries fs) f.entries (e ∷ [])),
    )

-- A record that the tests of `append_log` let pass, with an id other than 0, goes to the end of a
-- well-formed log, which stays well formed.
pub write_entry-IsWal :
    (now : ℕ) (e : LogEntry) (w : Wal)
    → IsWal w
    → 0 < e.id
    → has_gap w e.id ≡ false
    → IsWal (write_entry now e w)
      × (all_entries (write_entry now e w).files ≡ all_entries w.files ++ e ∷ [])
unfolding write_entry
write_entry-IsWal now e w h pos gap =
    let (ready, same) =
      select_files-ReadyFor now w.file_size w.first_log_id w.last_log_id w.last_log_term e w.is_open
        w.files h.files h.opened gap in
    let chosen = select_files now w.file_size e w.is_open w.files in
    let start : 0 < (if w.first_log_id == 0 then e.id else w.first_log_id) = ground arith in
    let (files, opened, more) = write_file-IsFiles _ e chosen ready start in
    (record { files = files; opened = opened }, more ∙ ap (λ (l : List LogEntry). l ++ e ∷ []) same)
