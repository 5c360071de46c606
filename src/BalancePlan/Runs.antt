-- ===== src/BalancePlan/Runs.antt =====
-- A balance plan from BalancePlan::invoke on: the callbacks of its buckets in any order, and stop.
use nebula_storage.Prelude.{
  ℕ, zero, suc, ◌+◌, ◌≤◌, ◌<◌, ◌≡◌, refl, ap, ◌∙◌, Bool, true, false, List, [], ◌∷◌, some, arith,
  length, get_elem?, set, ◌==◌, ==_iff, if◌then◌else◌, inl, inr, Bool-cases, All,
}
use nebula_storage.BalancePlan.Plan.{
  PlanStatus, Bucket, Plan, Action, plan_over, after_last, call_back, stop, next_task,
}

abbrev pub passed_sum : List Bucket → ℕ
passed_sum [] = 0
passed_sum (b ∷ bs) = b.passed + passed_sum bs

abbrev pub size_sum : List Bucket → ℕ
size_sum [] = 0
size_sum (b ∷ bs) = length b.indices + size_sum bs

abbrev pub is_over : Action → ℕ
is_over plan_over = 1
is_over _ = 0

-- The bucket `i` has a task that runs.
abbrev pub Runs : Plan → ℕ → Bucket → Type 0
Runs p i b = (get_elem? p.buckets i ≡ some b) × (b.passed < length b.indices)

-- The plans that a plan comes to, with the numbers of the tasks that have failed and of the calls of
-- the plan's own callback.
pub data Reach (s : Plan) : ℕ → ℕ → Plan → Type 0 where
  here : Reach s 0 0 s
  back :
      {e o : ℕ} {p : Plan} (error : Bool) (i : ℕ) (b : Bucket) (q : Plan) (a : Action)
      → Reach s e o p
      → Runs p i b
      → call_back error i b p ≡ some (q, a)
      → Reach s (e + (if error then 1 else 0)) (o + is_over a) q
  halt : {e o : ℕ} {p : Plan} → Reach s e o p → Reach s e o (stop p)

-- The counts of a plan agree, and its status and callback are what they stand for.
pub record IsCounted (e o : ℕ) (p : Plan) : Type 0 where
  pub counted : p.finished_task_num ≡ passed_sum p.buckets
  pub sized : size_sum p.buckets ≡ length p.tasks
  pub bounded : All (λ b. b.passed ≤ length b.indices) p.buckets
  pub called : o ≡ (if p.finished_task_num == length p.tasks then 1 else 0)
  pub state : p.status ≡ (
      if e == 0
      then (if p.finished_task_num == length p.tasks
          then PlanStatus.succeeded
          else PlanStatus.in_progress)
      else PlanStatus.failed)

pub all_bounded :
    (bs : List Bucket) → All (λ b. b.passed ≤ length b.indices) bs → passed_sum bs ≤ size_sum bs
all_bounded [] h = omega arith
all_bounded (b ∷ bs) h = omega (arith, h.0, all_bounded bs h.1)

-- Where one task more makes all, the bucket's task is its last one.
others_done :
    (bs : List Bucket) (i : ℕ) (b : Bucket)
    → All (λ b. b.passed ≤ length b.indices) bs
    → get_elem? bs i ≡ some b
    → passed_sum bs + length b.indices ≤ size_sum bs + b.passed
others_done [] i b h e = cc
others_done (x ∷ bs) zero b h e =
    let q : x ≡ b = cc in
    omega (arith, all_bounded bs h.1, ap (λ y. y.passed) q, ap (λ y. length y.indices) q)
others_done (x ∷ bs) (suc i) b h e = omega (arith, others_done bs i b h.1 e, h.0)

abbrev pub passing : Bucket → Bucket
passing b = record b { passed = b.passed + 1 }

passed_sum-set :
    (bs : List Bucket) (i : ℕ) (b : Bucket)
    → get_elem? bs i ≡ some b
    → passed_sum (set bs i (passing b)) ≡ passed_sum bs + 1
passed_sum-set [] i b e = cc
passed_sum-set (x ∷ bs) zero b e = let q : x ≡ b = cc in omega (arith, ap (λ y. y.passed) q)
passed_sum-set (x ∷ bs) (suc i) b e = omega (arith, passed_sum-set bs i b e)

size_sum-set :
    (bs : List Bucket) (i : ℕ) (b : Bucket)
    → get_elem? bs i ≡ some b
    → size_sum (set bs i (passing b)) ≡ size_sum bs
size_sum-set [] i b e = cc
size_sum-set (x ∷ bs) zero b e = let q : x ≡ b = cc in omega (arith, ap (λ y. length y.indices) q)
size_sum-set (x ∷ bs) (suc i) b e = omega (arith, size_sum-set bs i b e)

bounded-set :
    (bs : List Bucket) (i : ℕ) (b : Bucket)
    → All (λ b. b.passed ≤ length b.indices) bs
    → get_elem? bs i ≡ some b
    → b.passed < length b.indices
    → All (λ b. b.passed ≤ length b.indices) (set bs i (passing b))
bounded-set [] i b h e l = tt
bounded-set (x ∷ bs) zero b h e l = (omega arith, h.1)
bounded-set (x ∷ bs) (suc i) b h e l = (h.0, bounded-set bs i b h.1 e l)

-- The plan after a callback, as long as it is not aborted.
abbrev pub called_back : Bool → ℕ → Bucket → Plan → Plan
called_back error i b p = record p {
  buckets = set p.buckets i (passing b);
  status =
      if error
      then PlanStatus.failed
      else after_last (p.finished_task_num + 1 == length p.tasks) p.status;
  finished_task_num = p.finished_task_num + 1;
}

under_way :
    (e o i : ℕ) (b : Bucket) (p : Plan)
    → IsCounted e o p
    → Runs p i b
    → p.finished_task_num < length p.tasks
under_way e o i b p c (at, l) =
    omega (arith, others_done p.buckets i b c.bounded at, c.counted, c.sized)

no_call : (e o : ℕ) (p : Plan) → IsCounted e o p → p.finished_task_num < length p.tasks → o ≡ 0
no_call e o p c l = ground (arith, c.called)

after_status :
    (error : Bool) (e : ℕ) (st : PlanStatus) (last : Bool)
    → st ≡ (if e == 0 then PlanStatus.in_progress else PlanStatus.failed)
    → (if error then PlanStatus.failed else after_last last st) ≡ (
        if (e + (if error then 1 else 0)) == 0
        then (if last then PlanStatus.succeeded else PlanStatus.in_progress)
        else PlanStatus.failed)
unfolding after_last
after_status true e st last p = ground arith
after_status false zero st true p = rw p refl
after_status false zero st false p = rw p refl
after_status false (suc e) st true p = ground (arith, p)
after_status false (suc e) st false p = ground (arith, p)

open_status :
    (e o : ℕ) (p : Plan)
    → IsCounted e o p
    → p.finished_task_num < length p.tasks
    → p.status ≡ (if e == 0 then PlanStatus.in_progress else PlanStatus.failed)
open_status e o p c l = c.state ∙ ground arith

pub called_back-IsCounted :
    (error : Bool) (e o i : ℕ) (b : Bucket) (p : Plan)
    → IsCounted e o p
    → Runs p i b
    → IsCounted
        (e + (if error then 1 else 0))
        (o + (if p.finished_task_num + 1 == length p.tasks then 1 else 0))
        (called_back error i b p)
called_back-IsCounted error e o i b p c (at, l) =
    let ongoing : p.finished_task_num < length p.tasks = under_way e o i b p c (at, l) in
    record {
      counted = omega (arith, passed_sum-set p.buckets i b at, c.counted);
      sized = size_sum-set p.buckets i b at ∙ c.sized;
      bounded = bounded-set p.buckets i b c.bounded at l;
      called = omega (arith, no_call e o p c ongoing);
      state =
          after_status error e p.status (p.finished_task_num + 1 == length p.tasks)
            (open_status e o p c ongoing);
    }

not_over : (error : Bool) (b : Bucket) (j : ℕ) (p : Plan) → is_over (next_task error b j p) ≡ 0
unfolding next_task
not_over error b j p = ground arith

pub last_of_bucket :
    (e o i : ℕ) (b : Bucket) (p : Plan)
    → IsCounted e o p
    → Runs p i b
    → (p.finished_task_num + 1 == length p.tasks) ≡ true
    → (b.passed + 1 == length b.indices) ≡ true
last_of_bucket e o i b p c (at, l) last =
    let all : p.finished_task_num + 1 ≡ length p.tasks =
      (==_iff (p.finished_task_num + 1) (length p.tasks)).0 last in
    (==_iff (b.passed + 1) (length b.indices)).1
      (omega (arith, others_done p.buckets i b c.bounded at, c.counted, c.sized))

-- A callback of a task that runs is not aborted by the CHECK, and is the plan's own one at the end.
pub call_back_cases :
    (error : Bool) (e o i : ℕ) (b : Bucket) (p : Plan)
    → IsCounted e o p
    → Runs p i b
    → (a : Action) × (call_back error i b p ≡ some (called_back error i b p, a))
      × (is_over a ≡ (if p.finished_task_num + 1 == length p.tasks then 1 else 0))
unfolding call_back
call_back_cases error e o i b p c (at, l) =
    elim (Bool-cases (p.finished_task_num + 1 == length p.tasks)) [
      | inl last ↦
          (plan_over, rw last (rw (last_of_bucket e o i b p c (at, l) last) refl), rw last refl)
      | inr more ↦
          (next_task error b b.passed p, rw more refl, rw more (not_over error b b.passed p))
    ]
