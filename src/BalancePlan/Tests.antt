-- ===== src/BalancePlan/Tests.antt =====
-- A plan of three moves of two parts, and the theorems at it.
use mathlib.Core.List.Perm
use nebula_storage.Prelude.{
  ℕ, ◌≡◌, refl, true, false, List, [], ◌∷◌, none, some, arith, length, ltb, ◌==◌, if◌then◌else◌,
  replicate,
}
use nebula_storage.Raft.{HostAddr}
use nebula_storage.BalancePlan.Task.{
  TaskStatus, TaskResult, Task, Reply, Next, Env, invoke, on_reply,
}
use nebula_storage.BalancePlan.Order.{InOrder, begin, play, advance_from, play-InOrder}
use nebula_storage.BalancePlan.Ends.{IsOver, play-IsOver}
use nebula_storage.BalancePlan.Plan.{
  PlanTask, PlanStatus, Mark, Bucket, Plan, Action, call_back, start_plan, Underway, invoke_plan,
  task_calls_back, dispatch_tasks,
}
use nebula_storage.BalancePlan.Dispatch.{Groups, total, count, count-append, dispatch_tasks-count}
use nebula_storage.BalancePlan.Runs.{Reach, is_over}
use nebula_storage.BalancePlan.Runs.Reach.{here, back}
use nebula_storage.BalancePlan.Invoked.{Goes, Continues, invoke_plan-Continues}
use nebula_storage.BalancePlan.Invoked.Goes.{begun, calls}
use nebula_storage.BalancePlan.Over.{start_plan-call_back}

abbrev addr : ℕ → HostAddr
addr n = record { host = "h"; port = n }

abbrev move_one : Task
move_one = record {
  src = addr 1;
  dst = addr 2;
  status = TaskStatus.start;
  ret = TaskResult.in_progress;
  stored = none;
}

abbrev good : Env
good = record { put1 = true; put2 = true; src_lived = true }

abbrev lost : Env
lost = record { put1 = true; put2 = true; src_lived = false }

-- The source is lost after the first reply, so that its leader is not transferred.
abbrev replies : List (Reply × Env)
replies = (Reply.reply_ok, lost) ∷ replicate 9 (Reply.reply_ok, good)

moved : (play replies (begin good move_one)).next ≡ Next.on_finished
unfolding play advance_from begin invoke on_reply
moved = refl

play-InOrder_example : InOrder move_one (play replies (begin good move_one))
play-InOrder_example = play-InOrder good move_one replies refl refl

play-IsOver_example : IsOver (play replies (begin good move_one)).next
play-IsOver_example = play-IsOver good move_one replies (omega arith)

abbrev part : ℕ → PlanTask
part n = record { space_id = 1; part_id = n }

abbrev three : List PlanTask
three = part 1 ∷ part 2 ∷ part 1 ∷ []

abbrev as_listed : Groups → Groups
as_listed m = m

dispatched : dispatch_tasks as_listed 10 three ≡ (0 ∷ 2 ∷ []) ∷ (1 ∷ []) ∷ []
unfolding dispatch_tasks
dispatched = refl

one_bucket : dispatch_tasks as_listed 1 three ≡ (0 ∷ 2 ∷ 1 ∷ []) ∷ []
unfolding dispatch_tasks
one_bucket = refl

dispatch_tasks-count_example :
    total (count 2) refl (count-append 2) (dispatch_tasks as_listed 10 three)
    ≡ (if ltb 2 (length three) then 1 else 0)
dispatch_tasks-count_example =
    dispatch_tasks-count as_listed 10 three 2 (λ m. Perm.refl m) (omega arith)

abbrev planned : Plan
planned = record {
  tasks = three;
  buckets = [];
  status = PlanStatus.not_start;
  finished_task_num = 0;
  stopped = false;
}

abbrev first_bucket : Bucket
first_bucket = record { indices = 0 ∷ 2 ∷ []; passed = 0 }

abbrev second_bucket : Bucket
second_bucket = record { indices = 1 ∷ []; passed = 0 }

-- After an error of the first task, which makes the other task of its part fail.
abbrev one_failed : Plan
one_failed = record {
  tasks = three;
  buckets = record { indices = 0 ∷ 2 ∷ []; passed = 1 } ∷ second_bucket ∷ [];
  status = PlanStatus.failed;
  finished_task_num = 1;
  stopped = false;
}

started_Reach : Reach (start_plan as_listed 10 planned) 1 0 one_failed
unfolding start_plan call_back
started_Reach =
    back true 0 first_bucket one_failed (Action.invoke_task 2 Mark.as_failed) here
      (refl, omega arith) refl

-- The error has invoked the task behind the first one.
abbrev two_run : Underway
two_run = record { plan = one_failed; running = some 2 ∷ some 1 ∷ [] }

started_Goes : Goes (invoke_plan as_listed 10 planned) 1 0 two_run
unfolding invoke_plan task_calls_back
started_Goes =
    calls true 0 0 first_bucket two_run (Action.invoke_task 2 Mark.as_failed) begun refl refl refl

invoke_plan-Continues_example : Continues 1 0 two_run
invoke_plan-Continues_example =
    invoke_plan-Continues as_listed 10 1 0 planned two_run (λ m. Perm.refl m) (omega arith) refl
      (omega arith) started_Goes

start_plan-call_back_example :
    (q : Plan) × (a : Action) × (call_back false 1 second_bucket one_failed ≡ some (q, a))
    × (q.finished_task_num ≡ 2)
    × (is_over a ≡ (if q.finished_task_num == length q.tasks then 1 else 0))
start_plan-call_back_example =
    start_plan-call_back as_listed 10 1 0 planned one_failed (λ m. Perm.refl m) (omega arith) refl
      (omega arith) started_Reach false 1 second_bucket (refl, omega arith)
