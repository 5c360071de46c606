-- ===== src/BalancePlan/Plan.antt =====
-- BalancePlan: the tasks of a plan in buckets, which run beside each other, and the tasks of one bucket
-- one after the other. The callbacks of different buckets follow each other in any order; the lock
-- makes each one step. The tasks are listed in the order of their ids, by which `invoke` sorts them.
use mathlib.Core.Option
use nebula_storage.Prelude.{
  ℕ, suc, ◌+◌, Bool, true, ◌&&◌, List, [], ◌∷◌, ◌++◌, Option, none, some, length, get_elem?, get_or,
  set, ltb, ◌==◌, if◌then◌else◌, min, replicate, map,
}

-- A task's space and part, and its outcome as far as the plan sets it.
pub record PlanTask : Type 0 where
  pub space_id : ℕ
  pub part_id : ℕ

pub data PlanStatus : Type 0 where
  not_start in_progress succeeded failed : PlanStatus

-- A bucket with the number of its tasks that have called back; the one behind these is running.
pub record Bucket : Type 0 where
  pub indices : List ℕ
  pub passed : ℕ

pub record Plan : Type 0 where
  pub tasks : List PlanTask
  pub buckets : List Bucket
  pub status : PlanStatus
  pub finished_task_num : ℕ
  pub stopped : Bool

unfoldable pub same_part : PlanTask → PlanTask → Bool
same_part a b = (a.space_id == b.space_id) && (a.part_id == b.part_id)

-- `partTasks[key].emplace_back(index)`.
unfoldable pub add_index : PlanTask → ℕ → List (PlanTask × List ℕ) → List (PlanTask × List ℕ)
unfolding same_part
add_index t i [] = (t, i ∷ []) ∷ []
add_index t i ((k, is) ∷ m) =
    if same_part k t then (k, is ++ i ∷ []) ∷ m else (k, is) ∷ add_index t i m

unfoldable pub part_tasks : ℕ → List PlanTask → List (PlanTask × List ℕ) → List (PlanTask × List ℕ)
unfolding add_index
part_tasks i [] m = m
part_tasks i (t ∷ ts) m = part_tasks (suc i) ts (add_index t i m)

-- The first of the smallest buckets below `least` tasks.
unfoldable pub min_bucket : ℕ → ℕ → ℕ → List (List ℕ) → ℕ
min_bucket i least best [] = best
min_bucket i least best (b ∷ bs) =
    let smaller = ltb (length b) least in
    min_bucket (suc i) (if smaller then length b else least) (if smaller then i else best) bs

unfoldable pub add_to_bucket : ℕ → List ℕ → List (List ℕ) → List (List ℕ)
add_to_bucket i is bs = set bs i (get_or bs i [] ++ is)

unfoldable pub fill_buckets : ℕ → List (PlanTask × List ℕ) → List (List ℕ) → List (List ℕ)
unfolding min_bucket add_to_bucket
fill_buckets n [] bs = bs
fill_buckets n ((k, is) ∷ m) bs = fill_buckets n m (add_to_bucket (min_bucket 0 n 0 bs) is bs)

-- dispatchTasks; `order` is the order in which the hash map is gone through.
unfoldable pub dispatch_tasks :
    (List (PlanTask × List ℕ) → List (PlanTask × List ℕ)) → ℕ → List PlanTask → List (List ℕ)
unfolding fill_buckets part_tasks
dispatch_tasks order concurrency ts =
    let m = part_tasks 0 ts [] in
    fill_buckets (length ts) (order m) (replicate (min (length m) concurrency) [])

-- How the next task of a bucket is started.
pub data Mark : Type 0 where
  as_is as_failed as_invalid : Mark

pub data Action : Type 0 where
  plan_over : Action  -- the plan is saved and its onFinished_ is called
  invoke_task : ℕ → Mark → Action
  nothing : Action

unfoldable pub after_last : Bool → PlanStatus → PlanStatus
after_last true PlanStatus.in_progress = PlanStatus.succeeded
after_last _ s = s

unfoldable pub mark_of : Bool → Bool → Mark
mark_of stopped skipped = if stopped then as_invalid else if skipped then as_failed else as_is

abbrev no_task : PlanTask
no_task = record { space_id = 0; part_id = 0 }

abbrev task_at : Plan → ℕ → PlanTask
task_at p i = get_or p.tasks i no_task

-- The next task of the bucket, and its mark after an error of the task at `j`.
unfoldable pub next_task : Bool → Bucket → ℕ → Plan → Action
unfolding mark_of same_part
next_task error b j p = elim (get_elem? b.indices (j + 1)) [
  | none ↦ nothing
  | some k ↦
      invoke_task k
        (mark_of p.stopped (error && same_part (task_at p (get_or b.indices j 0)) (task_at p k)))
]

-- onFinished_ and onError_ of the task that runs in bucket `i`; `none` is the CHECK in them.
unfoldable pub call_back : Bool → ℕ → Bucket → Plan → Option (Plan × Action)
unfolding after_last next_task
call_back error i b p =
    let n = p.finished_task_num + 1 in
    let done = n == length p.tasks in
    let status = if error then PlanStatus.failed else after_last done p.status in
    let q = record p {
      buckets = set p.buckets i (record b { passed = b.passed + 1 });
      status = status;
      finished_task_num = n;
    } in
    if done
    then (if b.passed + 1 == length b.indices then some (q, plan_over) else none)
    else some (q, next_task error b b.passed p)

abbrev pub new_bucket : List ℕ → Bucket
new_bucket is = record { indices = is; passed = 0 }

-- `invoke`, up to its last loop: the plan after its tasks have been dispatched.
unfoldable pub start_plan : (List (PlanTask × List ℕ) → List (PlanTask × List ℕ)) → ℕ → Plan → Plan
unfolding dispatch_tasks
start_plan order concurrency p = record p {
  status = PlanStatus.in_progress;
  buckets = map new_bucket (dispatch_tasks order concurrency p.tasks);
}

-- A plan with the tasks that run: for each bucket the task that has been invoked and has not called
-- back, if any. A callback knows its bucket, so a task that it invokes runs in that bucket.
pub record Underway : Type 0 where
  pub plan : Plan
  pub running : List (Option ℕ)

-- The loop that invokes the first task of each bucket that is not empty.
abbrev pub first_tasks : List Bucket → List (Option ℕ)
first_tasks [] = []
first_tasks (b ∷ bs) = get_elem? b.indices 0 ∷ first_tasks bs

-- `invoke`.
unfoldable pub invoke_plan :
    (List (PlanTask × List ℕ) → List (PlanTask × List ℕ)) → ℕ → Plan → Underway
unfolding start_plan
invoke_plan order concurrency p =
    let q = start_plan order concurrency p in record { plan = q; running = first_tasks q.buckets }

abbrev pub invoked : Action → Option ℕ
invoked (invoke_task k m) = some k
invoked _ = none

-- The callback of the task that runs in bucket `i`.
unfoldable pub task_calls_back : Bool → ℕ → Bucket → Underway → Option (Underway × Action)
unfolding call_back
task_calls_back error i b u =
    Option.map (λ r. (record { plan = r.0; running = set u.running i (invoked r.1) }, r.1))
      (call_back error i b u.plan)

unfoldable pub stop : Plan → Plan
stop p = record p { stopped = true }
