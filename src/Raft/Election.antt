-- ===== src/Raft/Election.antt =====
-- RaftPart.cpp: needToStartElection, prepareElectionRequest, processElectionResponses and the rest of
-- leaderElection. The request goes to the followers and their answers come back in `results`; how
-- many of them are waited for is left open. Writes under one hold of `raftLock_` are one step.
use nebula_storage.Prelude.{
  sym, subst, inl, refl, ◌<◌, ℕ, suc, ◌+◌, ◌*◌, ◌-◌, ◌≤◌, ◌≡◌, ◌≢◌, ◌↔◌, Bool, true, false, ◌&&◌,
  ◌||◌, List, [], ◌∷◌, ◌++◌, Option, none, some, arith, if◌then◌else◌, ◌⊎◌, leb, map,
}
use nebula_storage.Raft.Vote.{refuse_vote, refuse_vote_iff, IsUpToDate}
use nebula_storage.Raft.{
  check_peer, no_addr, Host, Status, Role, ErrorCode, Task, RaftPart, VoteRequest, followers,
  is_running, is_follower, is_candidate, succeeded, e_log_stale,
}

-- FLAGS_raft_heartbeat_interval_secs.
abbrev pub heartbeat_ms : ℕ → ℕ
heartbeat_ms secs = secs * 1000

unfoldable pub need_to_start_election : ℕ → ℕ → RaftPart → RaftPart × Bool
need_to_start_election secs now p =
    if is_running p.status
      && (is_follower p.role
          && (leb (p.weight * heartbeat_ms secs) (now - p.last_msg_recv) || p.is_blind_follower))
    then (record p { role = Role.candidate; known_leader = no_addr }, true)
    else (p, is_candidate p.role)

-- What a candidate asks for: the term behind the last one that it proposed.
abbrev pub vote_request : RaftPart → VoteRequest
vote_request p = record {
  candidate = p.addr;
  term = p.proposed_term + 1;
  last_log_id = p.last_log_id;
  last_log_term = p.last_log_term;
}

-- The request, and the hosts that it goes to.
unfoldable pub prepare_election_request : RaftPart → RaftPart × Option (VoteRequest × List Host)
prepare_election_request p =
    if is_running p.status && is_candidate p.role
    then (
      record p { voted_addr = no_addr; proposed_term = p.proposed_term + 1 },
      some (vote_request p, followers p.hosts),
    )
    else (p, none)

unfoldable pub num_succeeded : List ErrorCode → ℕ
num_succeeded [] = 0
num_succeeded (succeeded ∷ cs) = suc (num_succeeded cs)
num_succeeded (_ ∷ cs) = num_succeeded cs

-- Each voter with a longer log doubles the wait before the next election.
unfoldable pub weight_after : List ErrorCode → ℕ → ℕ
weight_after [] w = w
weight_after (e_log_stale ∷ cs) w = weight_after cs (w * 2)
weight_after (_ ∷ cs) w = weight_after cs w

unfoldable pub process_election_responses : List ErrorCode → ℕ → RaftPart → RaftPart
process_election_responses results proposed p =
    if is_running p.status && is_candidate p.role
    then (let q = record p { weight = weight_after results p.weight } in
        if leb q.quorum (num_succeeded results)
        then record q { term = proposed; role = Role.leader; is_blind_follower = false }
        else q)
    else p

-- Every host starts again from the part's own log: of what the part reads, Host::reset clears the
-- snapshot flag and the committed id.
abbrev pub reset_hosts : List Host → List Host
reset_hosts =
    map {A = Host} {B = Host}
      (λ (h : Host). record h { sending_snapshot = false; follower_committed_log_id = 0 })

-- What leaderElection does with the outcome; true stops the election.
unfoldable pub finish_election : ℕ → RaftPart → RaftPart × Bool
finish_election proposed p = elim p.role [
  | Role.leader ↦ (
    record p {
      known_leader = if is_running p.status then p.addr else p.known_leader;
      hosts = if is_running p.status then reset_hosts p.hosts else p.hosts;
      tasks = if is_running p.status then p.tasks ++ Task.on_elected proposed ∷ [] else p.tasks;
      weight = 1;
    },
    true,
  )
  | Role.follower ↦ (p, true)
  | Role.candidate ↦ (p, false)
  | Role.learner ↦ (p, false)
]

-- leaderElection, where the answers are known, nothing else happens in between and no other election of
-- the part is under way (`inElection_`, with which the code returns at once). A request that
-- cannot be made sends the part back to the followers.
unfoldable pub leader_election :
    (VoteRequest → List Host → List ErrorCode) → RaftPart → RaftPart × Bool
unfolding prepare_election_request process_election_responses finish_election
leader_election ask p =
    let (q, request) = prepare_election_request p in
    elim request [
      | none ↦ (record q { role = Role.follower }, false)
      | some (r, hosts) ↦ finish_election r.term (process_election_responses (ask r hosts) r.term q)
    ]

-- A running candidate becomes the leader of the next term exactly if as many of the asked followers
-- as the quorum grant their vote; whatever happens, it has asked for a term that it had not
-- proposed before.
pub leader_election_wins :
    (ask : VoteRequest → List Host → List ErrorCode) (p : RaftPart)
    → p.status ≡ Status.running
    → p.role ≡ Role.candidate
    → let request = vote_request p in
      let q = (leader_election ask p).0 in
      ((q.role ≡ Role.leader) ↔ (p.quorum ≤ num_succeeded (ask request (followers p.hosts))))
      × (q.proposed_term ≡ p.proposed_term + 1)
unfolding leader_election
leader_election_wins ask p running cand =
    ((λ won. ground arith, λ enough. ground arith), ground arith)

-- A part that is not running, or no candidate, proposes no term and follows again.
pub leader_election_refused :
    (ask : VoteRequest → List Host → List ErrorCode) (p : RaftPart)
    → ((p.status ≢ Status.running) ⊎ (p.role ≢ Role.candidate))
    → leader_election ask p ≡ (record p { role = Role.follower }, false)
unfolding leader_election
leader_election_refused ask p out = ground arith

-- A running candidate that has asked for votes for itself in a new term still gives its own vote
-- to any other peer that asks in that term with a log that is not behind.
pub prepare_election_request-refuse_vote :
    (p : RaftPart) (r : VoteRequest)
    → p.status ≡ Status.running
    → p.role ≡ Role.candidate
    → r.term ≡ p.proposed_term + 1
    → p.term < r.term
    → IsUpToDate r p
    → check_peer r.candidate p ≡ succeeded
    → refuse_vote r (prepare_election_request p).0 ≡ succeeded
unfolding prepare_election_request check_peer
prepare_election_request-refuse_vote p r running cand same newer log peer =
    let q : RaftPart = record p { voted_addr = no_addr; proposed_term = p.proposed_term + 1 } in
    let yes : refuse_vote r q ≡ succeeded = (refuse_vote_iff r q).1 (record {
      is_running = running;
      is_member = ground arith;
      is_newer = newer;
      up_to_date = log;
      free = inl refl;
      is_peer = peer;
    }) in
    let prepared : (prepare_election_request p).0 ≡ q = ground arith in
    subst (λ (x : RaftPart). refuse_vote r x ≡ succeeded) (sym prepared) yes
