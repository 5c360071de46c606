-- ===== src/BalancePlan/Dispatch.antt =====
-- BalancePlan::dispatchTasks puts every task into one bucket, once.
use mathlib.Core.List.{foldr, Perm}
use mathlib.Core.List.Perm
use native.Mathlib.Nat.{ℕ_set}
use nebula_storage.Prelude.{
  ℕ, zero, suc, ◌+◌, ◌≤◌, ◌<◌, ◌≡◌, refl, ◌∙◌, List, [], ◌∷◌, ◌++◌, arith, length, get_or, set,
  replicate, leb, ◌&&◌, ltb, ◌==◌, if◌then◌else◌, min, inl, inr, Bool-cases, length-append,
  length-set, length-replicate,
}
use nebula_storage.BalancePlan.Plan.{
  PlanTask, same_part, add_index, part_tasks, min_bucket, add_to_bucket, fill_buckets,
  dispatch_tasks,
}

abbrev pub Groups : Type 0
Groups = List (PlanTask × List ℕ)

min_bucket-lt :
    (i least best : ℕ) (bs : List (List ℕ)) (n : ℕ)
    → best < n
    → i + length bs ≤ n
    → min_bucket i least best bs < n
unfolding min_bucket
min_bucket-lt i least best [] n h l = h
min_bucket-lt i least best (b ∷ bs) n h l =
    let smaller = ltb (length b) least in
    min_bucket-lt (suc i) (if smaller then length b else least) (if smaller then i else best) bs n
      (ground arith) (omega arith)

length-fill_buckets :
    (n : ℕ) (m : Groups) (bs : List (List ℕ)) → length (fill_buckets n m bs) ≡ length bs
unfolding fill_buckets
length-fill_buckets n [] bs = refl
length-fill_buckets n ((k, is) ∷ m) bs =
    length-fill_buckets n m (add_to_bucket (min_bucket 0 n 0 bs) is bs)
    ∙ length-set bs (min_bucket 0 n 0 bs) (get_or bs (min_bucket 0 n 0 bs) [] ++ is)

abbrev empties : ℕ → List (List ℕ)
empties n = replicate n []

length-empties : (n : ℕ) → length (empties n) ≡ n
length-empties n = length-replicate n []

length-add_index : (t : PlanTask) (i : ℕ) (m : Groups) → 0 < length (add_index t i m)
unfolding add_index
length-add_index t i [] = omega arith
length-add_index t i ((k, is) ∷ m) = ground arith

add_index-length : (t : PlanTask) (i : ℕ) (m : Groups) → length m ≤ length (add_index t i m)
unfolding add_index
add_index-length t i [] = omega arith
add_index-length t i ((k, is) ∷ m) = ground (arith, add_index-length t i m)

part_tasks-length :
    (i : ℕ) (ts : List PlanTask) (m : Groups) → length m ≤ length (part_tasks i ts m)
unfolding part_tasks
part_tasks-length i [] m = omega arith
part_tasks-length i (t ∷ ts) m =
    omega (arith, part_tasks-length (suc i) ts (add_index t i m), add_index-length t i m)

length-part_tasks :
    (i : ℕ) (t : PlanTask) (ts : List PlanTask) (m : Groups) → 0 < length (part_tasks i (t ∷ ts) m)
unfolding part_tasks
length-part_tasks i t ts m =
    omega (arith, part_tasks-length (suc i) ts (add_index t i m), length-add_index t i m)

-- A count of the items of a list: of all, or of those with one value.
module _ (μ : List ℕ → ℕ) (μ-nil : μ [] ≡ 0)
    (μ-append : (xs ys : List ℕ) → μ (xs ++ ys) ≡ μ xs + μ ys) where
  abbrev pub total : List (List ℕ) → ℕ
  total [] = 0
  total (b ∷ bs) = μ b + total bs

  abbrev of_groups : Groups → ℕ
  of_groups m = foldr (λ g n. μ g.1 + n) 0 m

  total-set :
      (bs : List (List ℕ)) (i : ℕ) (is : List ℕ)
      → i < length bs
      → total (set bs i (get_or bs i [] ++ is)) ≡ total bs + μ is
  total-set [] i is h = absurd (omega arith)
  total-set (b ∷ bs) zero is h = omega (arith, μ-append b is)
  total-set (b ∷ bs) (suc i) is h = omega (arith, total-set bs i is (omega arith))

  total-fill_buckets :
      (n : ℕ) (m : Groups) (bs : List (List ℕ))
      → 0 < length bs
      → total (fill_buckets n m bs) ≡ total bs + of_groups m
  unfolding fill_buckets
  total-fill_buckets n [] bs h = omega arith
  total-fill_buckets n ((k, is) ∷ m) bs h =
      let i = min_bucket 0 n 0 bs in
      let lt : i < length bs = min_bucket-lt 0 n 0 bs (length bs) h (omega arith) in
      let next = set bs i (get_or bs i [] ++ is) in
      omega (
        arith,
        total-fill_buckets n m next (omega (arith, length-set bs i (get_or bs i [] ++ is))),
        total-set bs i is lt,
      )

  of_groups-add_index :
      (t : PlanTask) (i : ℕ) (m : Groups) → of_groups (add_index t i m) ≡ of_groups m + μ (i ∷ [])
  unfolding add_index
  of_groups-add_index t i [] = omega arith
  of_groups-add_index t i ((k, is) ∷ m) = elim (Bool-cases (same_part k t)) [
    | inl same ↦ rw same (omega (arith, μ-append is (i ∷ [])))
    | inr other ↦ rw other (omega (arith, of_groups-add_index t i m))
  ]

  -- The indices from `i` on, one for each of `n` tasks.
  abbrev pub of_range : ℕ → ℕ → ℕ
  of_range i zero = 0
  of_range i (suc n) = μ (i ∷ []) + of_range (suc i) n

  of_groups-part_tasks :
      (i : ℕ) (ts : List PlanTask) (m : Groups)
      → of_groups (part_tasks i ts m) ≡ of_groups m + of_range i (length ts)
  unfolding part_tasks
  of_groups-part_tasks i [] m = omega arith
  of_groups-part_tasks i (t ∷ ts) m =
      omega (arith, of_groups-part_tasks (suc i) ts (add_index t i m), of_groups-add_index t i m)

  total-replicate : (n : ℕ) → total (replicate n []) ≡ 0
  total-replicate zero = refl
  total-replicate (suc n) = omega (arith, total-replicate n, μ-nil)

  of_groups-Perm : (m k : Groups) → Perm m k → of_groups m ≡ of_groups k
  of_groups-Perm m k p = Perm.foldr-eq ℕ_set (λ g n. μ g.1 + n) (λ a b n. omega arith) p 0

  pub total-dispatch_tasks :
      (order : Groups → Groups)
      → ((m : Groups) → Perm (order m) m)
      → (concurrency : ℕ) (ts : List PlanTask) → 0 < concurrency
      → total (dispatch_tasks order concurrency ts) ≡ of_range 0 (length ts)
  unfolding dispatch_tasks part_tasks fill_buckets
  total-dispatch_tasks order perm concurrency [] h =
      rw (Perm.eq-nil (perm [])) (total-replicate (min 0 concurrency))
  total-dispatch_tasks order perm concurrency (t ∷ ts) h =
      let m = part_tasks 0 (t ∷ ts) [] in
      let buckets = empties (min (length m) concurrency) in
      let some_bucket : 0 < length buckets =
        omega (arith, length-empties (min (length m) concurrency), length-part_tasks 0 t ts []) in
      omega (
        arith,
        total-fill_buckets (length (t ∷ ts)) (order m) buckets some_bucket,
        total-replicate (min (length m) concurrency),
        of_groups-Perm (order m) m (perm m),
        of_groups-part_tasks 0 (t ∷ ts) [],
      )

abbrev pub count : ℕ → List ℕ → ℕ
count k [] = 0
count k (x ∷ xs) = (if x == k then 1 else 0) + count k xs

pub count-append : (k : ℕ) (xs ys : List ℕ) → count k (xs ++ ys) ≡ count k xs + count k ys
count-append k [] ys = omega arith
count-append k (x ∷ xs) ys = omega (arith, count-append k xs ys)

count-range :
    (k i n : ℕ)
    → of_range (count k) refl (count-append k) i n ≡ (if leb i k && ltb k (i + n) then 1 else 0)
count-range k i zero = ground arith
count-range k i (suc n) = ground (arith, count-range k (suc i) n)

-- Every task is in one bucket, once, and the buckets hold nothing else: for any order in which the map
-- is gone through, with at least one bucket allowed.
pub dispatch_tasks-count :
    (order : Groups → Groups) (concurrency : ℕ) (ts : List PlanTask) (k : ℕ)
    → ((m : Groups) → Perm (order m) m)
    → 0 < concurrency
    → total (count k) refl (count-append k) (dispatch_tasks order concurrency ts)
      ≡ (if ltb k (length ts) then 1 else 0)
dispatch_tasks-count order concurrency ts k perm h =
    total-dispatch_tasks (count k) refl (count-append k) order perm concurrency ts h
    ∙ count-range k 0 (length ts)
    ∙ ground arith

abbrev pub sizes : List (List ℕ) → ℕ
sizes = total length refl length-append

length-range : (i n : ℕ) → of_range length refl length-append i n ≡ n
length-range i zero = refl
length-range i (suc n) = omega (arith, length-range (suc i) n)

pub sizes-dispatch_tasks :
    (order : Groups → Groups) (concurrency : ℕ) (ts : List PlanTask)
    → ((m : Groups) → Perm (order m) m)
    → 0 < concurrency
    → sizes (dispatch_tasks order concurrency ts) ≡ length ts
sizes-dispatch_tasks order concurrency ts perm h =
    total-dispatch_tasks length refl length-append order perm concurrency ts h
    ∙ length-range 0 (length ts)
