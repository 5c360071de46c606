-- ===== src/Wal/Kept.antt =====
-- The files and records that FileBasedWal::rollbackToLog and rollbackInFile keep.
use mathlib.Core.Option
use nebula_storage.Prelude.{
  ℕ, zero, suc, ◌+◌, ◌<◌, ◌≤◌, ◌≡◌, refl, sym, ap, ◌∙◌, false, List, [], ◌∷◌, ◌++◌, some, arith,
  length, take, ltb, ◌==◌, length-append, append_assoc, append-nil, ◌⊎◌, inl, inr, Bool-cases,
}
use nebula_storage.Wal.{LogEntry, WalFile, drop_newer, take_until, all_entries}
use nebula_storage.Wal.Log.{FilesFrom, Consecutive, last_term_of}

-- The last file that keeps a record, and what the files behind it held.
pub record Kept (first id : ℕ) (files : List WalFile) : Type 0 where
  pub file : WalFile
  pub older : List WalFile
  pub dropped : List LogEntry
  pub files_left : drop_newer id files ≡ file ∷ older
  pub log : all_entries files ≡ all_entries older ++ (file.entries ++ dropped)
  pub run : Consecutive file.first_id file.entries
  pub below : FilesFrom first file.first_id older
  pub from : file.first_id ≤ id
  pub upto : id < file.first_id + length file.entries

pub drop_newer-Kept :
    (first next id : ℕ) (fs : List WalFile)
    → FilesFrom first next fs
    → id < next
    → ((drop_newer id fs ≡ []) × (id < first)) ⊎ Kept first id fs
unfolding drop_newer all_entries
drop_newer-Kept first next id [] h lt = inl (refl, omega arith)
drop_newer-Kept first next id (f ∷ fs) (e, some_entries, run, below) lt =
    elim (Bool-cases (ltb id f.first_id)) [
      | inl newer ↦ elim (drop_newer-Kept first f.first_id id fs below (ground arith)) [
        | inl (gone, out) ↦ inl (rw newer gone, out)
        | inr k ↦ inr (record {
          file = k.file;
          older = k.older;
          dropped = k.dropped ++ f.entries;
          files_left = rw newer k.files_left;
          log = ap (λ (l : List LogEntry). l ++ f.entries) k.log ∙ simp append_assoc;
          run = k.run;
          below = k.below;
          from = k.from;
          upto = k.upto;
        })
      ]
      | inr stays ↦ inr (record {
        file = f;
        older = fs;
        dropped = [];
        files_left = rw stays;
        log = ap (◌++◌ (all_entries fs)) (sym (append-nil f.entries));
        run = run;
        below = below;
        from = ground arith;
        upto = omega arith;
      })
    ]

-- In a run of ids that begins with `n` the record with id `n + k` is the one at place `k`.
pub take_until-Consecutive :
    (n k d id : ℕ) (es : List LogEntry)
    → Consecutive n es
    → k < length es
    → id ≡ n + k
    → take_until id es ≡ some (take (suc k) es, last_term_of d (take (suc k) es))
unfolding take_until
take_until-Consecutive n k d id [] run lt at_k = absurd (omega arith)
take_until-Consecutive n zero d id (e ∷ es) (here, run) lt at_k = ground arith
take_until-Consecutive n (suc k) d id (e ∷ es) (here, run) lt at_k =
    let miss : (e.id == id) ≡ false = ground arith in
    rw miss (
      ap (Option.map (λ (r : List LogEntry × ℕ). (e ∷ r.0, r.1)))
        (take_until-Consecutive (n + 1) k e.term id es run (omega arith) (omega arith)))

-- A front of a run is a run.
pub Consecutive-take : (n k : ℕ) (es : List LogEntry) → Consecutive n es → Consecutive n (take k es)
Consecutive-take n zero es run = tt
Consecutive-take n (suc k) [] run = tt
Consecutive-take n (suc k) (e ∷ es) (here, run) = (here, Consecutive-take (n + 1) k es run)

pub length-all_entries :
    (first next : ℕ) (fs : List WalFile)
    → FilesFrom first next fs
    → first + length (all_entries fs) ≡ next
unfolding all_entries
length-all_entries first next [] h = omega arith
length-all_entries first next (f ∷ fs) (e, some_entries, run, below) =
    omega (
      arith,
      length-append (all_entries fs) f.entries,
      length-all_entries first f.first_id fs below,
    )

pub take_front {ℓ} :
    {A : Type ℓ} (k : ℕ) (ys zs : List A) → k ≤ length ys → take k (ys ++ zs) ≡ take k ys
take_front zero ys zs h = refl
take_front (suc k) [] zs h = absurd (omega arith)
take_front (suc k) (y ∷ ys) zs h = ap (◌∷◌ y) (take_front k ys zs (omega arith))

pub take_nil {ℓ} : {A : Type ℓ} (k : ℕ) → take {A = A} k [] ≡ []
take_nil zero = refl
take_nil (suc k) = refl

-- A front that ends inside the middle of three lists.
pub take_middle {ℓ} :
    {A : Type ℓ} (k m : ℕ) (xs ys zs : List A)
    → k ≤ length ys
    → m ≡ length xs + k
    → take m (xs ++ (ys ++ zs)) ≡ xs ++ take k ys
take_middle k m [] ys zs h e = let same : m ≡ k = omega arith in rw same (take_front k ys zs h)
take_middle k zero (x ∷ xs) ys zs h e = absurd (omega arith)
take_middle k (suc m) (x ∷ xs) ys zs h e = ap (◌∷◌ x) (take_middle k m xs ys zs h (omega arith))
