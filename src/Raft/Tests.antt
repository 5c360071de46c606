-- ===== src/Raft/Tests.antt =====
-- A group of three replicas, seen by one of them, and what the theorems say of it.
use nebula_storage.Prelude.{
  ℕ, ◌+◌, ◌*◌, ◌<◌, ◌≤◌, ◌≡◌, ◌≢◌, ◌↔◌, refl, ap, false, List, [], ◌∷◌, some, arith, inr,
}
use nebula_storage.LogBuffer.{instance_of}
use nebula_storage.Wal.{Wal}
use nebula_storage.Wal.Log.{IsWal}
use nebula_storage.Raft.{
  HostAddr, no_addr, Host, new_host, Status, Role, ErrorCode, RaftPart, VoteRequest, succeeded,
  followers, addr_eq, check_peer, find_host,
}
use nebula_storage.Raft.Peers.{
  count_voters, check_and_reset_peers, HasQuorum, check_and_reset_peers_majority,
}
use nebula_storage.Raft.Vote.{
  refuse_vote, MayVote, refuse_vote_iff, process_ask_for_vote, check_candidate, has_voted, vote_wal,
  rollback_unsent, voted_for,
}
use nebula_storage.Raft.OneVote.{run_votes, AllAgree, run_votes-AllAgree}
use nebula_storage.Raft.Election.{
  prepare_election_request, prepare_election_request-refuse_vote, leader_election, num_succeeded,
  vote_request, leader_election_wins, leader_election_refused,
}

abbrev pub addr_of : ℕ → HostAddr
addr_of n = record { host = "s"; port = n }

abbrev pub empty_wal : Wal
empty_wal = record {
  stopped = false;
  file_size = 1024;
  first_log_id = 0;
  last_log_id = 0;
  last_log_term = 0;
  files = [];
  is_open = false;
  log_buffer = instance_of 1024;
}

pub empty_wal_good : IsWal empty_wal
empty_wal_good = record { files = (refl, refl); opened = tt }

abbrev pub replica : Role → RaftPart
replica role = record {
  addr = addr_of 1;
  hosts = new_host (addr_of 2) false ∷ new_host (addr_of 3) false ∷ [];
  quorum = 1;
  listeners = [];
  status = Status.running;
  role = role;
  known_leader = no_addr;
  voted_addr = no_addr;
  term = 0;
  proposed_term = 0;
  last_log_id = 0;
  last_log_term = 0;
  committed_log_id = 0;
  is_blind_follower = false;
  weight = 1;
  last_msg_recv = 0;
  wal = empty_wal;
  last_total_count = 0;
  last_total_size = 0;
  applied = [];
  tasks = [];
}

has_quorum : HasQuorum (replica Role.follower)
unfolding count_voters
has_quorum = record { half = refl }

abbrev vote_of : ℕ → ℕ → VoteRequest
vote_of n term = record { candidate = addr_of n; term = term; last_log_id = 0; last_log_term = 0 }

-- Two candidates of one term, and a third request of a later one.
abbrev three_votes : List (ℕ × VoteRequest)
three_votes = (10, vote_of 2 1) ∷ (11, vote_of 3 1) ∷ (12, vote_of 3 2) ∷ []

check_and_reset_peers_majority_example :
    let q = check_and_reset_peers (addr_of 2 ∷ addr_of 4 ∷ []) (replica Role.follower) in
    (count_voters q.hosts + 1 < 2 * (q.quorum + 1)) × (2 * q.quorum ≤ count_voters q.hosts + 1)
check_and_reset_peers_majority_example =
    check_and_reset_peers_majority (addr_of 2 ∷ addr_of 4 ∷ []) (replica Role.follower) has_quorum

refuse_vote_iff_example :
    (refuse_vote (vote_of 2 1) (replica Role.follower) ≡ succeeded)
    ↔ MayVote (vote_of 2 1) (replica Role.follower)
refuse_vote_iff_example = refuse_vote_iff (vote_of 2 1) (replica Role.follower)

abbrev after_votes : RaftPart
after_votes =
    let p = voted_for 10 (vote_of 2 1) (replica Role.follower) empty_wal in
    voted_for 12 (vote_of 3 2) p empty_wal

votes_run :
    run_votes three_votes (replica Role.follower)
    ≡ some (after_votes, vote_of 2 1 ∷ vote_of 3 2 ∷ [])
unfolding run_votes process_ask_for_vote refuse_vote check_candidate has_voted check_peer find_host
    followers addr_eq vote_wal rollback_unsent
votes_run = refl

has_addr : (n : ℕ) → 0 < n → addr_of n ≢ no_addr
has_addr n pos e = ground (arith, ap (λ (a : HostAddr). a.port) e)

run_votes-AllAgree_example : AllAgree (vote_of 2 1 ∷ vote_of 3 2 ∷ [])
run_votes-AllAgree_example =
    run_votes-AllAgree three_votes (replica Role.follower) after_votes
      (vote_of 2 1 ∷ vote_of 3 2 ∷ [])
      (has_addr 2 (omega arith), (has_addr 3 (omega arith), (has_addr 3 (omega arith), tt)))
      votes_run

abbrev grants : VoteRequest → List Host → List ErrorCode
grants r hosts = succeeded ∷ ErrorCode.e_log_stale ∷ []

leader_election_wins_example :
    let p = replica Role.candidate in
    let q = (leader_election grants p).0 in
    ((q.role ≡ Role.leader)
      ↔ (p.quorum ≤ num_succeeded (grants (vote_request p) (followers p.hosts))))
    × (q.proposed_term ≡ p.proposed_term + 1)
leader_election_wins_example = leader_election_wins grants (replica Role.candidate) refl refl

leader_election_refused_example :
    leader_election grants (replica Role.learner) ≡ (replica Role.follower, false)
leader_election_refused_example =
    leader_election_refused grants (replica Role.learner) (inr (λ e. ground arith))

peer_two : check_peer (addr_of 2) (replica Role.candidate) ≡ succeeded
unfolding check_peer find_host followers addr_eq
peer_two = refl

prepare_election_request-refuse_vote_example :
    refuse_vote (vote_of 2 1) (prepare_election_request (replica Role.candidate)).0 ≡ succeeded
prepare_election_request-refuse_vote_example =
    prepare_election_request-refuse_vote (replica Role.candidate) (vote_of 2 1) refl refl
      (omega arith) (omega arith) (inr (refl, omega arith)) peer_two
