-- ===== src/Raft/Follow.antt =====
-- What RaftPart::verifyLeader and processAppendLogRequest do to a part that follows a leader.
use nebula_storage.Prelude.{ℕ, ◌≤◌, ◌≡◌, ◌≢◌, refl, subst, some, arith, inl, inr, Option-cases}
use nebula_storage.Raft.{addr_eq_iff, Role, ErrorCode, RaftPart, succeeded}
use nebula_storage.Raft.Vote.{rollback_unsent}
use nebula_storage.Raft.Append.{
  AppendLogRequest, Verdict, judge_leader, verify_leader, answer_leader,
}

-- What verifyLeader leaves behind: nothing is changed, or the part follows the sender.
pub data Verified (r : AppendLogRequest) (p q : RaftPart) (code : ErrorCode) : Type 0 where
  kept : code ≢ succeeded → q ≡ p → Verified r p q code
  follows :
      code ≡ succeeded
      → q.known_leader ≡ r.leader
      → q.term ≡ r.current_term
      → p.term ≤ q.term
      → q.role ≢ Role.leader
      → Verified r p q code

same-follows :
    (secs now : ℕ) (r : AppendLogRequest) (p : RaftPart)
    → judge_leader secs now r p ≡ Verdict.same_leader
    → (p.known_leader ≡ r.leader) × (p.term ≡ r.current_term) × (p.role ≢ Role.leader)
unfolding judge_leader
same-follows secs now r p e =
    (ground (arith, addr_eq_iff r.leader p.known_leader), ground arith, ground arith)

new-follows :
    (secs now : ℕ) (r : AppendLogRequest) (p : RaftPart)
    → judge_leader secs now r p ≡ Verdict.new_leader
    → p.term ≤ r.current_term
unfolding judge_leader
new-follows secs now r p e = ground arith

refuse-code :
    (secs now : ℕ) (r : AppendLogRequest) (p : RaftPart) (code : ErrorCode)
    → judge_leader secs now r p ≡ Verdict.refuse code
    → code ≢ succeeded
unfolding judge_leader
refuse-code secs now r p code e = λ g. ground arith

answer-Verified :
    (secs now : ℕ) (r : AppendLogRequest) (p q : RaftPart) (code : ErrorCode) (v : Verdict)
    → judge_leader secs now r p ≡ v
    → answer_leader now r p v ≡ some (q, code)
    → Verified r p q code
answer-Verified secs now r p q code (Verdict.refuse c) j e =
    kept (λ g. refuse-code secs now r p c j (cc)) (cc)
answer-Verified secs now r p q code Verdict.same_leader j e =
    let (leader, term, role) = same-follows secs now r p j in
    let same : p ≡ q = cc in
    subst (λ x. Verified r p x code) same (follows (cc) leader term (omega arith) role)
answer-Verified secs now r p q code Verdict.new_leader j e =
    elim (Option-cases (rollback_unsent now p)) [
      | inl gone ↦ ground arith
      | inr (w, there) ↦
          let newer = new-follows secs now r p j in
          follows (ground arith) (ground arith) (ground arith) (ground arith) (λ g. ground arith)
    ]

-- Where verifyLeader accepts the sender, the part follows it in the sender's term, which is not
-- older than the part's own, and is no leader; where it refuses, nothing changes.
pub verify_leader-Verified :
    (secs now : ℕ) (r : AppendLogRequest) (p q : RaftPart) (code : ErrorCode)
    → verify_leader secs now r p ≡ some (q, code)
    → Verified r p q code
unfolding verify_leader
verify_leader-Verified secs now r p q code e =
    answer-Verified secs now r p q code (judge_leader secs now r p) refl e
