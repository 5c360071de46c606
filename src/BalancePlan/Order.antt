-- ===== src/BalancePlan/Order.antt =====
-- What BalanceTask::invoke asks of the hosts, over all calls of one task: in which order, saved when,
-- and when it ends.
use nebula_storage.Prelude.{
  ◌≡◌, refl, ap, sym, ◌∙◌, true, false, List, [], ◌∷◌, ◌++◌, Option, none, some, arith,
  append_assoc, append-nil, subst, ◌⊎◌, inl, inr,
}
use nebula_storage.BalancePlan.Task.{
  go_on, failing, TaskStatus, TaskResult, Task, Request, Reply, Next, Env, invoke_in, invoke_with,
  invoke, next_status, reply_in, on_reply,
}

-- A task between two replies, with the requests that have been answered.
pub record Run : Type 0 where
  pub task : Task
  pub next : Next
  pub log : List (Request × Reply)

abbrev resumed : Env → Task → List (Request × Reply) → Run
resumed e t log = let (s, n) = invoke e t in record { task = s; next = n; log = log }

-- A reply comes in where a request is under way.
unfoldable pub advance_from : Next → Reply → Env → Run → Run
advance_from (Next.request q) a e r = resumed e (on_reply a r.task) (r.log ++ (q, a) ∷ [])
advance_from _ a e r = r

unfoldable pub begin : Env → Task → Run
begin e t = resumed e t []

unfoldable pub play : List (Reply × Env) → Run → Run
unfolding advance_from
play [] r = r
play ((a, e) ∷ rs) r = play rs (advance_from r.next a e r)

-- The requests that a move cannot do without, of those that were granted.
abbrev needed : Request × Reply → List Request
needed (Request.trans_leader h, a) = []
needed (Request.remove_part h, a) = []
needed (q, Reply.reply_ok) = q ∷ []
needed (q, a) = []

abbrev pub granted : List (Request × Reply) → List Request
granted [] = []
granted (x ∷ l) = needed x ++ granted l

-- What must have been granted before a task comes to a status.
abbrev pub moves_of : Task → TaskStatus → List Request
moves_of t TaskStatus.start = []
moves_of t TaskStatus.change_leader = Request.check_peers ∷ []
moves_of t TaskStatus.add_part_on_dst = Request.check_peers ∷ []
moves_of t TaskStatus.add_learner = Request.check_peers ∷ Request.add_part t.dst ∷ []
moves_of t TaskStatus.catch_up_data =
    Request.check_peers ∷ Request.add_part t.dst ∷ Request.learner t.dst ∷ []
moves_of t TaskStatus.member_change_add =
    Request.check_peers
    ∷ Request.add_part t.dst
    ∷ Request.learner t.dst
    ∷ Request.waiting_for_catch_up t.dst
    ∷ []
moves_of t TaskStatus.member_change_remove =
    Request.check_peers
    ∷ Request.add_part t.dst
    ∷ Request.learner t.dst
    ∷ Request.waiting_for_catch_up t.dst
    ∷ Request.member_change t.dst true
    ∷ []
moves_of t TaskStatus.update_part_meta =
    Request.check_peers
    ∷ Request.add_part t.dst
    ∷ Request.learner t.dst
    ∷ Request.waiting_for_catch_up t.dst
    ∷ Request.member_change t.dst true
    ∷ Request.member_change t.src false
    ∷ []
moves_of t TaskStatus.remove_part_on_src =
    Request.check_peers
    ∷ Request.add_part t.dst
    ∷ Request.learner t.dst
    ∷ Request.waiting_for_catch_up t.dst
    ∷ Request.member_change t.dst true
    ∷ Request.member_change t.src false
    ∷ Request.update_meta t.src t.dst
    ∷ []
moves_of t TaskStatus.check =
    Request.check_peers
    ∷ Request.add_part t.dst
    ∷ Request.learner t.dst
    ∷ Request.waiting_for_catch_up t.dst
    ∷ Request.member_change t.dst true
    ∷ Request.member_change t.src false
    ∷ Request.update_meta t.src t.dst
    ∷ []
moves_of t TaskStatus.end =
    Request.check_peers
    ∷ Request.add_part t.dst
    ∷ Request.learner t.dst
    ∷ Request.waiting_for_catch_up t.dst
    ∷ Request.member_change t.dst true
    ∷ Request.member_change t.src false
    ∷ Request.update_meta t.src t.dst
    ∷ Request.check_peers
    ∷ []

-- The request that a status waits for.
abbrev request_of : Task → TaskStatus → Option Request
request_of t TaskStatus.start = some Request.check_peers
request_of t TaskStatus.change_leader = some (Request.trans_leader t.src)
request_of t TaskStatus.add_part_on_dst = some (Request.add_part t.dst)
request_of t TaskStatus.add_learner = some (Request.learner t.dst)
request_of t TaskStatus.catch_up_data = some (Request.waiting_for_catch_up t.dst)
request_of t TaskStatus.member_change_add = some (Request.member_change t.dst true)
request_of t TaskStatus.member_change_remove = some (Request.member_change t.src false)
request_of t TaskStatus.update_part_meta = some (Request.update_meta t.src t.dst)
request_of t TaskStatus.remove_part_on_src = some (Request.remove_part t.src)
request_of t TaskStatus.check = some Request.check_peers
request_of t TaskStatus.end = none

-- What a task is like with a request under way, and at its two ends.
abbrev pub Waits : Task → Next → Type 0
Waits t (Next.request q) =
    (request_of t t.status ≡ some q)
    × (t.ret ≡ TaskResult.in_progress)
    × (t.stored ≡ some (t.status, TaskResult.in_progress))
Waits t Next.on_finished =
    (t.status ≡ TaskStatus.end)
    × (t.ret ≡ TaskResult.succeeded)
    × (t.stored ≡ some (TaskStatus.end, TaskResult.succeeded))
Waits t Next.on_error = t.ret ≡ TaskResult.failed

-- A call of `invoke` leaves the hosts, what has been done, and what its end says.
record Invoked (t s : Task) (n : Next) : Type 0 where
  same_src : s.src ≡ t.src
  same_dst : s.dst ≡ t.dst
  same_moves : moves_of s s.status ≡ moves_of t t.status
  waits : Waits s n

invoke_in-Invoked :
    (e : Env) (t : Task) (st : TaskStatus)
    → t.status ≡ st
    → t.ret ≡ TaskResult.in_progress
    → Invoked t (invoke_in st e t).0 (invoke_in st e t).1
unfolding invoke_in
invoke_in-Invoked e t TaskStatus.start p q = ground arith
invoke_in-Invoked e t TaskStatus.change_leader p q = ground arith
invoke_in-Invoked e t TaskStatus.remove_part_on_src p q = ground arith
invoke_in-Invoked e t st p q = ground arith

granted-append : (l k : List (Request × Reply)) → granted (l ++ k) ≡ granted l ++ granted k
granted-append [] k = refl
granted-append (x ∷ l) k =
    ap (◌++◌ (needed x)) (granted-append l k)
    ∙ sym (append_assoc (needed x) (granted l) (granted k))

-- A reply moves the task on, with what it grants, or makes it fail.
reply_in_cases :
    (t : Task) (s : TaskStatus) (a : Reply) (q : Request)
    → request_of t s ≡ some q
    → ((reply_in s a t ≡ go_on t)
        × (moves_of t (next_status s) ≡ moves_of t s ++ granted ((q, a) ∷ [])))
      ⊎ ((reply_in s a t ≡ failing t) × (granted ((q, a) ∷ []) ≡ []))
unfolding reply_in
reply_in_cases t TaskStatus.start Reply.reply_ok q e = ground arith
reply_in_cases t TaskStatus.change_leader Reply.reply_ok q e = ground arith
reply_in_cases t TaskStatus.change_leader Reply.part_not_found q e = ground arith
reply_in_cases t s a q e = ground arith

-- A run of the move of `t` is in order: what has been granted is what its status stands for.
pub record InOrder (t : Task) (r : Run) : Type 0 where
  pub same_src : r.task.src ≡ t.src
  pub same_dst : r.task.dst ≡ t.dst
  pub order : granted r.log ≡ moves_of r.task r.task.status
  pub waits : Waits r.task r.next

invoke-Invoked :
    (e : Env) (t : Task) → t.ret ≡ TaskResult.in_progress → Invoked t (invoke e t).0 (invoke e t).1
unfolding invoke
invoke-Invoked e t q =
    subst (λ x. Invoked t (invoke_with x e t).0 (invoke_with x e t).1) (sym q)
      (unfold invoke_with in invoke_in-Invoked e t t.status refl q)

failed-Invoked :
    (e : Env) (t : Task) → t.ret ≡ TaskResult.failed → Invoked t (invoke e t).0 (invoke e t).1
unfolding invoke invoke_with
failed-Invoked e t q = ground arith

moves_of_same :
    (t s : Task) (st : TaskStatus) → s.src ≡ t.src → s.dst ≡ t.dst → moves_of s st ≡ moves_of t st
moves_of_same t s st p q = ground arith

resumed-InOrder :
    (t u : Task) (e : Env) (log : List (Request × Reply))
    → u.src ≡ t.src
    → u.dst ≡ t.dst
    → granted log ≡ moves_of u u.status
    → Invoked u (invoke e u).0 (invoke e u).1
    → InOrder t (resumed e u log)
resumed-InOrder t u e log p q o k = record {
  same_src = k.same_src ∙ p;
  same_dst = k.same_dst ∙ q;
  order = o ∙ sym k.same_moves;
  waits = k.waits;
}

begin-InOrder :
    (e : Env) (t : Task)
    → t.status ≡ TaskStatus.start
    → t.ret ≡ TaskResult.in_progress
    → InOrder t (begin e t)
unfolding begin
begin-InOrder e t s q = resumed-InOrder t t e [] refl refl (ground arith) (invoke-Invoked e t q)

advance-InOrder :
    (t : Task) (n : Next) (a : Reply) (e : Env) (r : Run)
    → r.next ≡ n
    → InOrder t r
    → InOrder t (advance_from n a e r)
unfolding advance_from on_reply
advance-InOrder t (Next.request q) a e r p o =
    let u = reply_in r.task.status a r.task in
    let w : Waits r.task (Next.request q) = subst (Waits r.task) p o.waits in
    let grown : granted (r.log ++ (q, a) ∷ [])
        ≡ moves_of r.task r.task.status ++ granted ((q, a) ∷ []) =
      granted-append r.log ((q, a) ∷ []) ∙ ap (λ l. l ++ granted ((q, a) ∷ [])) o.order in
    elim (reply_in_cases r.task r.task.status a q w.0) [
      | inl (on, more) ↦
          resumed-InOrder t u e (r.log ++ (q, a) ∷ []) (ap (λ x. x.src) on ∙ o.same_src)
            (ap (λ x. x.dst) on ∙ o.same_dst)
            (grown
              ∙ sym more
              ∙ moves_of_same (go_on r.task) r.task (next_status r.task.status) refl refl
              ∙ sym (ap (λ x. moves_of x x.status) on))
            (invoke-Invoked e u (ap (λ x. x.ret) on ∙ w.1))
      | inr (stop, none_more) ↦
          resumed-InOrder t u e (r.log ++ (q, a) ∷ []) (ap (λ x. x.src) stop ∙ o.same_src)
            (ap (λ x. x.dst) stop ∙ o.same_dst)
            (grown
              ∙ ap (◌++◌ (moves_of r.task r.task.status)) none_more
              ∙ append-nil (moves_of r.task r.task.status)
              ∙ moves_of_same (failing r.task) r.task r.task.status refl refl
              ∙ sym (ap (λ x. moves_of x x.status) stop))
            (failed-Invoked e u (ap (λ x. x.ret) stop))
    ]
advance-InOrder t Next.on_finished a e r p o = o
advance-InOrder t Next.on_error a e r p o = o

played : (t : Task) (rs : List (Reply × Env)) (r : Run) → InOrder t r → InOrder t (play rs r)
unfolding play
played t [] r o = o
played t ((a, e) ∷ rs) r o =
    played t rs (advance_from r.next a e r) (advance-InOrder t r.next a e r refl o)

-- Over all replies, from the start of a move on: what has been granted is, in this order, what the
-- status stands for; a request is sent for the status that is stored, and a task that has finished has
-- gone through all of them.
pub play-InOrder :
    (e : Env) (t : Task) (rs : List (Reply × Env))
    → t.status ≡ TaskStatus.start
    → t.ret ≡ TaskResult.in_progress
    → InOrder t (play rs (begin e t))
play-InOrder e t rs s q = played t rs (begin e t) (begin-InOrder e t s q)
