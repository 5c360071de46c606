-- ===== src/BalancePlan/Ends.antt =====
-- The move of one part ends: after ten replies at most BalanceTask::invoke has called one of its
-- callbacks.
use nebula_storage.Prelude.{
  ℕ, ◌+◌, ◌≤◌, ◌≡◌, refl, ap, sym, ◌∙◌, subst, List, [], ◌∷◌, arith, length,
}
use nebula_storage.BalancePlan.Task.{
  TaskStatus, TaskResult, Task, Reply, Next, Env, invoke_in, invoke_with, invoke, next_status,
  go_on, reply_in, on_reply,
}
use nebula_storage.BalancePlan.Order.{Run, advance_from, begin, play}

abbrev step_number : TaskStatus → ℕ
step_number TaskStatus.start = 0
step_number TaskStatus.change_leader = 1
step_number TaskStatus.add_part_on_dst = 2
step_number TaskStatus.add_learner = 3
step_number TaskStatus.catch_up_data = 4
step_number TaskStatus.member_change_add = 5
step_number TaskStatus.member_change_remove = 6
step_number TaskStatus.update_part_meta = 7
step_number TaskStatus.remove_part_on_src = 8
step_number TaskStatus.check = 9
step_number TaskStatus.end = 10

abbrev pub IsOver : Next → Type 0
IsOver (Next.request q) = ⊥
IsOver _ = Unit

-- No request is under way, or the status is beyond `k`.
abbrev Beyond : ℕ → Task × Next → Type 0
Beyond k (t, Next.request q) = (k ≤ step_number t.status) × (step_number t.status ≤ 9)
Beyond k (t, n) = Unit

invoke_in-Beyond :
    (e : Env) (t : Task) (s : TaskStatus) → t.status ≡ s → Beyond (step_number s) (invoke_in s e t)
unfolding invoke_in
invoke_in-Beyond e t TaskStatus.start p = ground arith
invoke_in-Beyond e t s p = ground arith

invoke_with-Beyond :
    (e : Env) (t : Task) (x : TaskResult) → Beyond (step_number t.status) (invoke_with x e t)
unfolding invoke_with
invoke_with-Beyond e t TaskResult.invalid = tt
invoke_with-Beyond e t TaskResult.failed = tt
invoke_with-Beyond e t TaskResult.succeeded = invoke_in-Beyond e t t.status refl
invoke_with-Beyond e t TaskResult.in_progress = invoke_in-Beyond e t t.status refl

invoke-Beyond : (e : Env) (t : Task) → Beyond (step_number t.status) (invoke e t)
unfolding invoke
invoke-Beyond e t = invoke_with-Beyond e t t.ret

step_number-next_status :
    (s : TaskStatus) → step_number s ≤ 9 → step_number (next_status s) ≡ step_number s + 1
step_number-next_status TaskStatus.start h = refl
step_number-next_status TaskStatus.end h = absurd (omega arith)
step_number-next_status s h = refl

further :
    (e : Env) (t : Task) (s : TaskStatus)
    → t.status ≡ s
    → step_number s ≤ 9
    → Beyond (step_number s + 1) (invoke e (go_on t))
further e t s p h =
    subst (λ k. Beyond k (invoke e (go_on t)))
      (ap (λ x. step_number (next_status x)) p ∙ step_number-next_status s h)
      (invoke-Beyond e (go_on t))

-- After a reply the task fails, or is one step further.
replied-Beyond :
    (a : Reply) (e : Env) (t : Task) (s : TaskStatus)
    → t.status ≡ s
    → step_number s ≤ 9
    → Beyond (step_number s + 1) (invoke e (reply_in s a t))
unfolding reply_in invoke invoke_with invoke_in
replied-Beyond Reply.reply_ok e t s p h = further e t s p h
replied-Beyond Reply.part_not_found e t TaskStatus.change_leader p h =
    further e t TaskStatus.change_leader p h
replied-Beyond a e t s p h = ground arith

Beyond-weaken : (j k : ℕ) (p : Task × Next) → j ≤ k → Beyond k p → Beyond j p
Beyond-weaken j k (t, Next.request q) h b = (omega (arith, b.0), b.1)
Beyond-weaken j k (t, Next.on_finished) h b = tt
Beyond-weaken j k (t, Next.on_error) h b = tt

advance-Beyond :
    (k : ℕ) (n : Next) (a : Reply) (e : Env) (r : Run)
    → r.next ≡ n
    → Beyond k (r.task, n)
    → let s = advance_from n a e r in Beyond (k + 1) (s.task, s.next)
unfolding advance_from on_reply
advance-Beyond k (Next.request q) a e r p b =
    Beyond-weaken (k + 1) (step_number r.task.status + 1)
      (invoke e (reply_in r.task.status a r.task)) (omega (arith, b.0))
      (replied-Beyond a e r.task r.task.status refl b.1)
advance-Beyond k Next.on_finished a e r p b = subst (λ n. Beyond (k + 1) (r.task, n)) (sym p) tt
advance-Beyond k Next.on_error a e r p b = subst (λ n. Beyond (k + 1) (r.task, n)) (sym p) tt

over : (k : ℕ) (t : Task) (n : Next) → 10 ≤ k → Beyond k (t, n) → IsOver n
over k t (Next.request q) h b = absurd (omega (arith, b.0, b.1))
over k t Next.on_finished h b = tt
over k t Next.on_error h b = tt

played :
    (k : ℕ) (rs : List (Reply × Env)) (r : Run)
    → 10 ≤ k + length rs
    → Beyond k (r.task, r.next)
    → IsOver (play rs r).next
unfolding play
played k [] r h b = over k r.task r.next (omega arith) b
played k ((a, e) ∷ rs) r h b =
    played (k + 1) rs (advance_from r.next a e r) (omega arith)
      (advance-Beyond k r.next a e r refl b)

-- Whatever its status, a task has called one of its callbacks after ten replies at most, whatever the
-- hosts and the store answer.
pub play-IsOver :
    (e : Env) (t : Task) (rs : List (Reply × Env))
    → 10 ≤ length rs
    → IsOver (play rs (begin e t)).next
unfolding begin
play-IsOver e t rs h =
    played 0 rs (begin e t) (omega arith)
      (Beyond-weaken 0 (step_number t.status) (invoke e t) (omega arith) (invoke-Beyond e t))
