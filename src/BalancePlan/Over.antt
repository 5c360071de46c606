-- ===== src/BalancePlan/Over.antt =====
-- A balance plan from BalancePlan::invoke to the call of its onFinished_, over all orders of the
-- callbacks.
use mathlib.Core.List.{Perm}
use nebula_storage.Prelude.{
  ℕ, suc, ◌+◌, ◌≤◌, ◌<◌, ◌≡◌, refl, ap, sym, ◌∙◌, subst, Bool, List, [], ◌∷◌, some, arith, length,
  get_elem?, map, ◌==◌, if◌then◌else◌, inl, inr, All, ◌⊎◌,
}
use nebula_storage.BalancePlan.Plan.{
  PlanStatus, Bucket, Plan, Action, call_back, new_bucket, start_plan, stop, dispatch_tasks,
}
use nebula_storage.BalancePlan.Dispatch.{Groups, sizes, sizes-dispatch_tasks}
use nebula_storage.BalancePlan.Runs.{
  passed_sum, size_sum, is_over, all_bounded, Runs, Reach, IsCounted, called_back,
  called_back-IsCounted, call_back_cases,
}
use nebula_storage.BalancePlan.Runs.Reach.{here, back, halt}

new_passed_sum : (bs : List (List ℕ)) → passed_sum (map new_bucket bs) ≡ 0
new_passed_sum [] = refl
new_passed_sum (b ∷ bs) = omega (arith, new_passed_sum bs)

new_size_sum : (bs : List (List ℕ)) → size_sum (map new_bucket bs) ≡ sizes bs
new_size_sum [] = refl
new_size_sum (b ∷ bs) = ap (◌+◌ (length b)) (new_size_sum bs)

new_bounded : (bs : List (List ℕ)) → All (λ b. b.passed ≤ length b.indices) (map new_bucket bs)
new_bounded [] = tt
new_bounded (b ∷ bs) = (omega arith, new_bounded bs)

pub start_plan-IsCounted :
    (order : Groups → Groups) (concurrency : ℕ) (p : Plan)
    → ((m : Groups) → Perm (order m) m)
    → 0 < concurrency
    → p.finished_task_num ≡ 0
    → 0 < length p.tasks
    → IsCounted 0 0 (start_plan order concurrency p)
unfolding start_plan
start_plan-IsCounted order concurrency p perm h z l =
    let bs = dispatch_tasks order concurrency p.tasks in
    record {
      counted = z ∙ sym (new_passed_sum bs);
      sized = new_size_sum bs ∙ sizes-dispatch_tasks order concurrency p.tasks perm h;
      bounded = new_bounded bs;
      called = ground (arith, z);
      state = ground (arith, z);
    }

pub Reach-IsCounted :
    (s : Plan) (e o : ℕ) (p : Plan) → IsCounted 0 0 s → Reach s e o p → IsCounted e o p
unfolding stop
Reach-IsCounted s e o p k here = k
Reach-IsCounted s e o p k (back {e = e'} {o = o'} {p = p'} error i b q a r n c) =
    let j = Reach-IsCounted s e' o' p' k r in
    let (x, is_call, is_end) = call_back_cases error e' o' i b p' j n in
    let same_plan : called_back error i b p' ≡ p = cc in
    let same_action : x ≡ a = cc in
    subst (λ y. IsCounted (e' + (if error then 1 else 0)) (o' + is_over y) p) same_action
      (subst (IsCounted (e' + (if error then 1 else 0)) (o' + is_over x)) same_plan (
        subst (λ m. IsCounted (e' + (if error then 1 else 0)) (o' + m) (called_back error i b p'))
          (sym is_end) (called_back-IsCounted error e' o' i b p' j n)))
Reach-IsCounted s e o p k (halt r) =
    let j = Reach-IsCounted s e o _ k r in
    record {
      counted = j.counted;
      sized = j.sized;
      bounded = j.bounded;
      called = j.called;
      state = j.state;
    }

split : (m n : ℕ) → (m < n) ⊎ (n ≤ m)
split m n = ground arith

-- Where tasks are left, some bucket has one that runs.
running :
    (bs : List Bucket)
    → All (λ b. b.passed ≤ length b.indices) bs
    → passed_sum bs < size_sum bs
    → (i : ℕ) × (b : Bucket) × ((get_elem? bs i ≡ some b) × (b.passed < length b.indices))
running [] h l = absurd (omega arith)
running (b ∷ bs) h l = elim (split b.passed (length b.indices)) [
  | inl more ↦ (0, b, (refl, more))
  | inr full ↦ let (i, x, (at, more)) = running bs h.1 (omega arith) in (suc i, x, (at, more))
]

-- Some bucket has a task that runs.
abbrev pub SomeRuns : Plan → Type 0
SomeRuns p = (i : ℕ) × (b : Bucket) × Runs p i b

-- A plan after `e` errors of its tasks and `o` calls of its own callback.
pub record IsOnItsWay (e o : ℕ) (p : Plan) : Type 0 where
  pub done_or_runs : (p.finished_task_num ≡ length p.tasks) ⊎ SomeRuns p
  pub called : o ≡ (if p.finished_task_num == length p.tasks then 1 else 0)
  pub outcome : p.status ≡ (
      if e == 0
      then (if p.finished_task_num == length p.tasks
          then PlanStatus.succeeded
          else PlanStatus.in_progress)
      else PlanStatus.failed)

IsCounted-IsOnItsWay : (e o : ℕ) (p : Plan) → IsCounted e o p → IsOnItsWay e o p
IsCounted-IsOnItsWay e o p k = record {
  done_or_runs = elim (split p.finished_task_num (length p.tasks)) [
    | inl more ↦ inr (running p.buckets k.bounded (omega (arith, k.counted, k.sized)))
    | inr all ↦ inl (omega (arith, k.counted, k.sized, all_bounded p.buckets k.bounded))
  ];
  called = k.called;
  outcome = k.state;
}

reached-IsCounted :
    (order : Groups → Groups) (concurrency e o : ℕ) (s p : Plan)
    → ((m : Groups) → Perm (order m) m)
    → 0 < concurrency
    → s.finished_task_num ≡ 0
    → 0 < length s.tasks
    → Reach (start_plan order concurrency s) e o p
    → IsCounted e o p
reached-IsCounted order concurrency e o s p perm h z l r =
    Reach-IsCounted (start_plan order concurrency s) e o p
      (start_plan-IsCounted order concurrency s perm h z l) r

-- For a plan with tasks, none of them done, and at least one bucket allowed, over all orders of the
-- callbacks and with stops at any point: until all tasks are done some bucket has a task that runs; the
-- plan's own callback has been called once if all tasks are done, else never; and the plan has failed
-- exactly if a task has, and else has succeeded exactly if all tasks are done.
pub start_plan-IsOnItsWay :
    (order : Groups → Groups) (concurrency e o : ℕ) (s p : Plan)
    → ((m : Groups) → Perm (order m) m)
    → 0 < concurrency
    → s.finished_task_num ≡ 0
    → 0 < length s.tasks
    → Reach (start_plan order concurrency s) e o p
    → IsOnItsWay e o p
start_plan-IsOnItsWay order concurrency e o s p perm h z l r =
    IsCounted-IsOnItsWay e o p (reached-IsCounted order concurrency e o s p perm h z l r)

-- For a plan with tasks, none of them done, and at least one bucket allowed, over all orders of the
-- callbacks and with stops at any point: the callback of a task that runs is never aborted by the CHECK
-- in it, it counts the task, and it calls the plan's own callback exactly for the last one.
pub start_plan-call_back :
    (order : Groups → Groups) (concurrency e o : ℕ) (s p : Plan)
    → ((m : Groups) → Perm (order m) m)
    → 0 < concurrency
    → s.finished_task_num ≡ 0
    → 0 < length s.tasks
    → Reach (start_plan order concurrency s) e o p
    → (error : Bool) (i : ℕ) (b : Bucket) → Runs p i b
    → (q : Plan) × (a : Action) × (call_back error i b p ≡ some (q, a))
      × (q.finished_task_num ≡ p.finished_task_num + 1)
      × (is_over a ≡ (if q.finished_task_num == length q.tasks then 1 else 0))
start_plan-call_back order concurrency e o s p perm h z l r error i b n =
    let k = reached-IsCounted order concurrency e o s p perm h z l r in
    let (a, is_call, is_end) = call_back_cases error e o i b p k n in
    (called_back error i b p, a, is_call, refl, is_end)
