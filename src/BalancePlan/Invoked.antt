-- ===== src/BalancePlan/Invoked.antt =====
-- The tasks that BalancePlan::invoke and its callbacks invoke, over all orders of the callbacks.
use mathlib.Core.List.{Perm}
use mathlib.Core.Option
use nebula_storage.Prelude.{
  ℕ, zero, suc, ◌+◌, ◌≤◌, ◌<◌, ◌≡◌, refl, ap, sym, ◌∙◌, subst, Bool, List, [], ◌∷◌, Option, none,
  some, arith, length, get_elem?, set, map, ◌==◌, if◌then◌else◌, inl, inr, ◌⊎◌, Bool-cases,
}
use nebula_storage.BalancePlan.Plan.{
  PlanStatus, Bucket, Plan, Action, plan_over, call_back, next_task, new_bucket, start_plan, stop,
  dispatch_tasks, Underway, first_tasks, invoke_plan, invoked, task_calls_back,
}
use nebula_storage.BalancePlan.Dispatch.{Groups}
use nebula_storage.BalancePlan.Runs.{
  is_over, Runs, Reach, IsCounted, passing, called_back, last_of_bucket, call_back_cases,
}
use nebula_storage.BalancePlan.Runs.Reach.{here, back, halt}
use nebula_storage.BalancePlan.Over.{
  start_plan-IsCounted, Reach-IsCounted, IsOnItsWay, start_plan-IsOnItsWay,
}

-- What a plan comes to, with the numbers of the tasks that have failed and of the calls of the plan's own
-- callback. Only a task that has been invoked calls back.
pub data Goes (s : Underway) : ℕ → ℕ → Underway → Type 0 where
  begun : Goes s 0 0 s
  calls :
      {e o : ℕ} {u : Underway} (error : Bool) (i k : ℕ) (b : Bucket) (v : Underway) (a : Action)
      → Goes s e o u
      → get_elem? u.running i ≡ some (some k)
      → get_elem? u.plan.buckets i ≡ some b
      → task_calls_back error i b u ≡ some (v, a)
      → Goes s (e + (if error then 1 else 0)) (o + is_over a) v
  stops :
      {e o : ℕ} {u : Underway}
      → Goes s e o u
      → Goes s e o (record { plan = stop u.plan; running = u.running })

-- The task behind those of a bucket that have called back.
abbrev pub due_tasks : List Bucket → List (Option ℕ)
due_tasks [] = []
due_tasks (b ∷ bs) = get_elem? b.indices b.passed ∷ due_tasks bs

first_tasks-due :
    (bs : List (List ℕ)) → first_tasks (map new_bucket bs) ≡ due_tasks (map new_bucket bs)
first_tasks-due [] = refl
first_tasks-due (b ∷ bs) = ap (◌∷◌ (get_elem? b 0)) (first_tasks-due bs)

get_elem?-due_tasks :
    (bs : List Bucket) (i : ℕ) (b : Bucket)
    → get_elem? bs i ≡ some b
    → get_elem? (due_tasks bs) i ≡ some (get_elem? b.indices b.passed)
get_elem?-due_tasks [] i b e = cc
get_elem?-due_tasks (x ∷ bs) zero b e =
    let q : x ≡ b = cc in ap (λ y. some (get_elem? y.indices y.passed)) q
get_elem?-due_tasks (x ∷ bs) (suc i) b e = get_elem?-due_tasks bs i b e

set-due_tasks :
    (bs : List Bucket) (i : ℕ) (b : Bucket)
    → due_tasks (set bs i b) ≡ set (due_tasks bs) i (get_elem? b.indices b.passed)
set-due_tasks [] i b = refl
set-due_tasks (x ∷ bs) zero b = refl
set-due_tasks (x ∷ bs) (suc i) b = ap (◌∷◌ (get_elem? x.indices x.passed)) (set-due_tasks bs i b)

get_elem?-lt : (xs : List ℕ) (i k : ℕ) → get_elem? xs i ≡ some k → i < length xs
get_elem?-lt [] i k e = cc
get_elem?-lt (x ∷ xs) zero k e = omega arith
get_elem?-lt (x ∷ xs) (suc i) k e = omega (arith, get_elem?-lt xs i k e)

get_elem?-there : (xs : List ℕ) (i : ℕ) → i < length xs → (k : ℕ) × (get_elem? xs i ≡ some k)
get_elem?-there [] i l = absurd (omega arith)
get_elem?-there (x ∷ xs) zero l = (x, refl)
get_elem?-there (x ∷ xs) (suc i) l = get_elem?-there xs i (omega arith)

get_elem?-behind : (xs : List ℕ) (i : ℕ) → length xs ≤ i → get_elem? xs i ≡ none
get_elem?-behind [] i l = refl
get_elem?-behind (x ∷ xs) zero l = absurd (omega arith)
get_elem?-behind (x ∷ xs) (suc i) l = get_elem?-behind xs i (omega arith)

next_task-invoked :
    (error : Bool) (b : Bucket) (j : ℕ) (p : Plan)
    → invoked (next_task error b j p) ≡ get_elem? b.indices (j + 1)
unfolding next_task
next_task-invoked error b j p = ground arith

-- A callback invokes the next task of its bucket, where there is one.
call_back-invoked :
    (error : Bool) (e o i : ℕ) (b : Bucket) (p q : Plan) (a : Action)
    → IsCounted e o p
    → Runs p i b
    → call_back error i b p ≡ some (q, a)
    → invoked a ≡ get_elem? b.indices (b.passed + 1)
unfolding call_back
call_back-invoked error e o i b p q a c n r =
    elim (Bool-cases (p.finished_task_num + 1 == length p.tasks)) [
      | inl last ↦
          let full = last_of_bucket e o i b p c n last in
          let same : plan_over ≡ a = (let z = rw (last, full) at r in cc) in
          ap invoked (sym same)
          ∙ sym (get_elem?-behind b.indices (b.passed + 1) (ground (arith, full)))
      | inr more ↦
          let same : next_task error b b.passed p ≡ a = (let z = rw more at r in cc) in
          ap invoked (sym same) ∙ next_task-invoked error b b.passed p
    ]

-- The tasks that run are those that are due.
record IsDue (s : Underway) (e o : ℕ) (u : Underway) : Type 0 where
  reached : Reach s.plan e o u.plan
  due : u.running ≡ due_tasks u.plan.buckets

calls-IsDue :
    (s u : Underway) (error : Bool) (e o i k : ℕ) (b : Bucket) (v : Underway) (a : Action)
    → IsCounted e o u.plan
    → IsDue s e o u
    → get_elem? u.running i ≡ some (some k)
    → get_elem? u.plan.buckets i ≡ some b
    → task_calls_back error i b u ≡ some (v, a)
    → IsDue s (e + (if error then 1 else 0)) (o + is_over a) v
unfolding task_calls_back
calls-IsDue s u error e o i k b v a j d runs at c =
    let task : get_elem? b.indices b.passed ≡ some k =
      (let z =
          sym (ap (λ l. get_elem? l i) d.due ∙ get_elem?-due_tasks u.plan.buckets i b at) ∙ runs in
        cc) in
    let n : Runs u.plan i b = (at, get_elem?-lt b.indices b.passed k task) in
    let (x, is_call, is_end) = call_back_cases error e o i b u.plan j n in
    let q = called_back error i b u.plan in
    let w : Underway = record { plan = q; running = set u.running i (invoked x) } in
    let made : task_calls_back error i b u ≡ some (w, x) =
      ap (Option.map (λ r. (record { plan = r.0; running = set u.running i (invoked r.1) }, r.1)))
        is_call in
    let same : (w, x) ≡ (v, a) = (let z = sym made ∙ c in cc) in
    let made_due : IsDue s (e + (if error then 1 else 0)) (o + is_over x) w = record {
      reached = back error i b q x d.reached n is_call;
      due =
          ap (λ l. set l i (invoked x)) d.due
          ∙ ap (set (due_tasks u.plan.buckets) i)
              (call_back-invoked error e o i b u.plan q x j n is_call)
          ∙ sym (set-due_tasks u.plan.buckets i (passing b));
    } in
    subst (λ (y : Underway × Action). IsDue s (e + (if error then 1 else 0)) (o + is_over y.1) y.0)
      same made_due

Goes-IsDue :
    (s : Underway) (e o : ℕ) (u : Underway)
    → IsCounted 0 0 s.plan
    → s.running ≡ due_tasks s.plan.buckets
    → Goes s e o u
    → IsDue s e o u
unfolding stop
Goes-IsDue s e o u k d begun = record { reached = here; due = d }
Goes-IsDue s e o u k d (calls {e = e'} {o = o'} {u = u'} error i t b v a g runs at c) =
    let h = Goes-IsDue s e' o' u' k d g in
    calls-IsDue s u' error e' o' i t b v a (Reach-IsCounted s.plan e' o' u'.plan k h.reached) h runs
      at c
Goes-IsDue s e o u k d (stops {u = u'} g) =
    let h = Goes-IsDue s e o u' k d g in record { reached = halt h.reached; due = h.due }

-- A plan after `e` errors of its tasks and `o` calls of its own callback.
pub record Continues (e o : ℕ) (u : Underway) : Type 0 where
  pub done_or_runs :
      (u.plan.finished_task_num ≡ length u.plan.tasks)
      ⊎ ((i : ℕ) × (k : ℕ) × (get_elem? u.running i ≡ some (some k)))
  pub in_turn : u.running ≡ due_tasks u.plan.buckets
  pub called : o ≡ (if u.plan.finished_task_num == length u.plan.tasks then 1 else 0)
  pub outcome : u.plan.status ≡ (
      if e == 0
      then (if u.plan.finished_task_num == length u.plan.tasks
          then PlanStatus.succeeded
          else PlanStatus.in_progress)
      else PlanStatus.failed)

IsDue-Continues :
    (s : Underway) (e o : ℕ) (u : Underway)
    → IsOnItsWay e o u.plan
    → IsDue s e o u
    → Continues e o u
IsDue-Continues s e o u w d = record {
  done_or_runs = elim w.done_or_runs [
    | inl all ↦ inl all
    | inr (i, b, (at, l)) ↦
        let (k, there) = get_elem?-there b.indices b.passed l in
        inr (
          i,
          k,
          ap (λ l. get_elem? l i) d.due ∙ get_elem?-due_tasks u.plan.buckets i b at ∙ ap some there,
        )
  ];
  in_turn = d.due;
  called = w.called;
  outcome = w.outcome;
}

-- For a plan with tasks, none of them done, and at least one bucket allowed, in whatever order the hash map
-- of dispatchTasks is gone through, over all orders of the
-- callbacks of invoked tasks and with stops at any point: until all tasks are done some task that has been
-- invoked has not called back; in each bucket the task that runs is the one behind those that have called
-- back, and one runs as long as there is one; the plan's own callback has been called once if all tasks are
-- done, else never; and the plan has failed exactly if a task has, and else has succeeded exactly if all
-- tasks are done.
pub invoke_plan-Continues :
    (order : Groups → Groups) (concurrency e o : ℕ) (s : Plan) (u : Underway)
    → ((m : Groups) → Perm (order m) m)
    → 0 < concurrency
    → s.finished_task_num ≡ 0
    → 0 < length s.tasks
    → Goes (invoke_plan order concurrency s) e o u
    → Continues e o u
unfolding invoke_plan start_plan
invoke_plan-Continues order concurrency e o s u perm h z l g =
    let start = invoke_plan order concurrency s in
    let k = start_plan-IsCounted order concurrency s perm h z l in
    let d =
      Goes-IsDue start e o u k (first_tasks-due (dispatch_tasks order concurrency s.tasks)) g in
    IsDue-Continues start e o u
      (start_plan-IsOnItsWay order concurrency e o s u.plan perm h z l d.reached) d
