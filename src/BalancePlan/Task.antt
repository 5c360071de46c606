-- ===== src/BalancePlan/Task.antt =====
-- BalanceTask::invoke as a state machine. A call of the admin client is a request; the continuation of
-- its future is `on_reply`, followed by `invoke` again. Whether a put of the task into the store
-- succeeds, and whether the source host is alive, are told by the environment of a call. Ids, the two
-- times and what is logged are left out.
use nebula_storage.Prelude.{Bool, true, false, Option, some, if◌then◌else◌}
use nebula_storage.Raft.{HostAddr}

pub data TaskStatus : Type 0 where
  start change_leader add_part_on_dst add_learner catch_up_data member_change_add : TaskStatus
  member_change_remove update_part_meta remove_part_on_src check end : TaskStatus

pub data TaskResult : Type 0 where
  succeeded failed in_progress invalid : TaskResult

pub record Task : Type 0 where
  pub src : HostAddr
  pub dst : HostAddr
  pub status : TaskStatus
  pub ret : TaskResult
  pub stored : Option (TaskStatus × TaskResult)  -- the last put of the task that succeeded

-- The calls of the admin client, for the task's part.
pub data Request : Type 0 where
  check_peers : Request
  trans_leader : HostAddr → Request
  add_part : HostAddr → Request
  learner : HostAddr → Request
  waiting_for_catch_up : HostAddr → Request
  member_change : HostAddr → Bool → Request
  update_meta : HostAddr → HostAddr → Request
  remove_part : HostAddr → Request

pub data Reply : Type 0 where
  reply_ok part_not_found other_error : Reply

-- What a call of `invoke` ends with: a request whose reply calls it again, or one of the callbacks.
pub data Next : Type 0 where
  request : Request → Next
  on_finished on_error : Next

-- The first put and the second one of a call, and ActiveHostsMan::isLived of the source.
pub record Env : Type 0 where
  pub put1 : Bool
  pub put2 : Bool
  pub src_lived : Bool

-- `saveInStore`.
unfoldable pub save_in_store : Bool → Task → Task
save_in_store put t = if put then record t { stored = some (t.status, t.ret) } else t

abbrev pub failing : Task → Task
failing t = record t { ret = TaskResult.failed }

-- The macro SAVE_STATE, before the request `q` is sent.
unfoldable pub save_state : Bool → Next → Task → Task × Next
unfolding save_in_store
save_state put q t =
    if put then (save_in_store put t, q) else (failing (save_in_store put t), Next.on_error)

-- SAVE_STATE, before the rest of a branch.
unfoldable pub save_then : Bool → (Task → Task × Next) → Task → Task × Next
unfolding save_in_store
save_then put rest t =
    if put then rest (save_in_store put t) else (failing (save_in_store put t), Next.on_error)

unfoldable pub open_on_dst : Bool → Task → Task × Next
unfolding save_state
open_on_dst put t =
    save_state put (Next.request (Request.add_part t.dst))
      (record t { status = TaskStatus.add_part_on_dst })

unfoldable pub check_moved : Bool → Task → Task × Next
unfolding save_state
check_moved put t =
    save_state put (Next.request Request.check_peers) (record t { status = TaskStatus.check })

-- The switch on the status.
unfoldable pub invoke_in : TaskStatus → Env → Task → Task × Next
unfolding save_state save_then open_on_dst check_moved
invoke_in TaskStatus.start e t =
    save_state e.put1 (Next.request Request.check_peers) (record t { ret = TaskResult.in_progress })
invoke_in TaskStatus.change_leader e t =
    save_then e.put1
      (λ s.
        if e.src_lived
        then (s, Next.request (Request.trans_leader s.src))
        else open_on_dst e.put2 s)
      t
invoke_in TaskStatus.add_part_on_dst e t =
    save_state e.put1 (Next.request (Request.add_part t.dst)) t
invoke_in TaskStatus.add_learner e t = save_state e.put1 (Next.request (Request.learner t.dst)) t
invoke_in TaskStatus.catch_up_data e t =
    save_state e.put1 (Next.request (Request.waiting_for_catch_up t.dst)) t
invoke_in TaskStatus.member_change_add e t =
    save_state e.put1 (Next.request (Request.member_change t.dst true)) t
invoke_in TaskStatus.member_change_remove e t =
    save_state e.put1 (Next.request (Request.member_change t.src false)) t
invoke_in TaskStatus.update_part_meta e t =
    save_state e.put1 (Next.request (Request.update_meta t.src t.dst)) t
invoke_in TaskStatus.remove_part_on_src e t =
    save_then e.put1
      (λ s.
        if e.src_lived then (s, Next.request (Request.remove_part s.src)) else check_moved e.put2 s)
      t
invoke_in TaskStatus.check e t = save_state e.put1 (Next.request Request.check_peers) t
invoke_in TaskStatus.end e t =
    save_state e.put1 Next.on_finished (record t { ret = TaskResult.succeeded })

-- The early returns of `invoke`, then the switch.
unfoldable pub invoke_with : TaskResult → Env → Task → Task × Next
unfolding invoke_in save_in_store
invoke_with TaskResult.invalid e t = (save_in_store e.put1 t, Next.on_finished)
invoke_with TaskResult.failed e t = (save_in_store e.put1 t, Next.on_error)
invoke_with _ e t = invoke_in t.status e t

unfoldable pub invoke : Env → Task → Task × Next
unfolding invoke_with
invoke e t = invoke_with t.ret e t

-- The status that a request's success leads to.
abbrev pub next_status : TaskStatus → TaskStatus
next_status TaskStatus.start = TaskStatus.change_leader
next_status TaskStatus.change_leader = TaskStatus.add_part_on_dst
next_status TaskStatus.add_part_on_dst = TaskStatus.add_learner
next_status TaskStatus.add_learner = TaskStatus.catch_up_data
next_status TaskStatus.catch_up_data = TaskStatus.member_change_add
next_status TaskStatus.member_change_add = TaskStatus.member_change_remove
next_status TaskStatus.member_change_remove = TaskStatus.update_part_meta
next_status TaskStatus.update_part_meta = TaskStatus.remove_part_on_src
next_status TaskStatus.remove_part_on_src = TaskStatus.check
next_status TaskStatus.check = TaskStatus.end
next_status TaskStatus.end = TaskStatus.end

abbrev pub go_on : Task → Task
go_on t = record t { status = next_status t.status }

-- Only the transfer of the leader forgives a part that is gone.
unfoldable pub reply_in : TaskStatus → Reply → Task → Task
reply_in s Reply.reply_ok t = go_on t
reply_in TaskStatus.change_leader Reply.part_not_found t = go_on t
reply_in s _ t = failing t

-- The continuation of a request, before it calls `invoke`.
unfoldable pub on_reply : Reply → Task → Task
unfolding reply_in
on_reply r t = reply_in t.status r t
