-- ===== src/Raft/Vote.antt =====
-- RaftPart::processAskForVoteRequest. A handler gives `none` where a CHECK aborts the process.
use mathlib.Core.Option
use nebula_storage.Prelude.{
  ℕ, ◌<◌, ◌≤◌, ◌≡◌, ◌≢◌, ◌↔◌, Bool, false, not, ◌&&◌, ◌||◌, Option, some, arith, if◌then◌else◌, ◌⊎◌,
  ltb, leb, ◌==◌,
}
use nebula_storage.Wal.{Wal, rollback_to_log}
use nebula_storage.Raft.{
  no_addr, addr_eq, addr_eq_iff, Status, Role, ErrorCode, RaftPart, VoteRequest, check_peer,
  is_leader, is_learner_role, succeeded, e_bad_state, e_not_ready, e_bad_role, e_term_out_of_date,
  e_log_stale,
}

abbrev pub or_else : ErrorCode → ErrorCode → ErrorCode
or_else succeeded next = next
or_else code next = code

-- "Make sure the partition is running".
abbrev pub check_status : Status → ErrorCode
check_status Status.stopped = e_bad_state
check_status Status.starting = e_not_ready
check_status Status.waiting_snapshot = e_not_ready
check_status Status.running = succeeded

-- "If we have voted for somebody, we will reject other candidates under the proposedTerm."
unfoldable pub has_voted : VoteRequest → RaftPart → Bool
has_voted r p =
    not (addr_eq p.voted_addr no_addr)
    && (ltb r.term p.proposed_term
        || (p.proposed_term == r.term && not (addr_eq p.voted_addr r.candidate)))

-- The early returns on a running part, in their order.
unfoldable pub check_candidate : VoteRequest → RaftPart → ErrorCode
check_candidate r p =
    if is_learner_role p.role
    then e_bad_role
    else if leb r.term p.term
    then e_term_out_of_date
    else if ltb r.last_log_term p.last_log_term
    then e_term_out_of_date
    else if r.last_log_term == p.last_log_term && ltb r.last_log_id p.last_log_id
    then e_log_stale
    else if has_voted r p
    then e_term_out_of_date
    else check_peer r.candidate p

unfoldable pub refuse_vote : VoteRequest → RaftPart → ErrorCode
unfolding check_candidate
refuse_vote r p = or_else (check_status p.status) (check_candidate r p)

-- A leader that has written more than it sent rolls its log back.
unfoldable pub rollback_unsent : ℕ → RaftPart → Option Wal
rollback_unsent now p =
    if ltb p.last_log_id p.wal.last_log_id
    then Option.map (λ (r : Bool × Wal). r.1) (rollback_to_log now p.last_log_id p.wal)
    else some p.wal

unfoldable pub vote_wal : ℕ → RaftPart → Option Wal
unfolding rollback_unsent
vote_wal now p = if is_leader p.role then rollback_unsent now p else some p.wal

abbrev pub voted_for : ℕ → VoteRequest → RaftPart → Wal → RaftPart
voted_for now r p w = record p {
  wal = w;
  role = Role.follower;
  voted_addr = r.candidate;
  proposed_term = r.term;
  known_leader = no_addr;
  last_msg_recv = now;
  weight = 1;
  is_blind_follower = false;
}

abbrev pub answer_vote : ErrorCode → ℕ → VoteRequest → RaftPart → Option (RaftPart × ErrorCode)
answer_vote succeeded now r p = Option.map (λ w. (voted_for now r p w, succeeded)) (vote_wal now p)
answer_vote code now r p = some (p, code)

unfoldable pub process_ask_for_vote : ℕ → VoteRequest → RaftPart → Option (RaftPart × ErrorCode)
process_ask_for_vote now r p = answer_vote (refuse_vote r p) now r p

-- The candidate's log is not behind the voter's.
abbrev pub IsUpToDate : VoteRequest → RaftPart → Type 0
IsUpToDate r p =
    (p.last_log_term < r.last_log_term)
    ⊎ ((r.last_log_term ≡ p.last_log_term) × (p.last_log_id ≤ r.last_log_id))

-- The voter has not given this term's vote, as far as it remembers, to another candidate.
abbrev pub IsFree : VoteRequest → RaftPart → Type 0
IsFree r p =
    (p.voted_addr ≡ no_addr)
    ⊎ ((p.proposed_term < r.term) ⊎ ((p.proposed_term ≡ r.term) × (p.voted_addr ≡ r.candidate)))

pub record MayVote (r : VoteRequest) (p : RaftPart) : Type 0 where
  pub is_running : p.status ≡ Status.running
  pub is_member : p.role ≢ Role.learner
  pub is_newer : p.term < r.term
  pub up_to_date : IsUpToDate r p
  pub free : IsFree r p
  pub is_peer : check_peer r.candidate p ≡ succeeded

has_voted_iff : (r : VoteRequest) (p : RaftPart) → (has_voted r p ≡ false) ↔ IsFree r p
unfolding has_voted
has_voted_iff r p = (
  λ e. ground (arith, addr_eq_iff p.voted_addr no_addr, addr_eq_iff p.voted_addr r.candidate),
  λ f. ground (arith, addr_eq_iff p.voted_addr no_addr, addr_eq_iff p.voted_addr r.candidate),
)

refuse_vote-MayVote : (r : VoteRequest) (p : RaftPart) → refuse_vote r p ≡ succeeded → MayVote r p
unfolding refuse_vote
refuse_vote-MayVote r p e = record {
  is_running = ground arith;
  is_member = ground arith;
  is_newer = ground arith;
  up_to_date = ground arith;
  free = (has_voted_iff r p).0 (ground arith);
  is_peer = ground arith;
}

MayVote-refuse_vote : (r : VoteRequest) (p : RaftPart) → MayVote r p → refuse_vote r p ≡ succeeded
unfolding refuse_vote
MayVote-refuse_vote r p h = ground (arith, (has_voted_iff r p).1 h.free)

-- The vote is given exactly to a candidate of a newer term that is a peer, whose log is not behind
-- and who does not compete with an earlier vote of the same or a later term.
pub refuse_vote_iff : (r : VoteRequest) (p : RaftPart) → (refuse_vote r p ≡ succeeded) ↔ MayVote r p
refuse_vote_iff r p = (refuse_vote-MayVote r p, MayVote-refuse_vote r p)
