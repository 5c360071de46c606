-- ===== src/Raft.antt =====
-- kvstore/raftex/RaftPart.h: the state of one replica of a partition, and the messages that it
-- receives. Log ids and terms are numbers: the code's are never negative, and they do not reach
-- 2 ^ 63. Times are numbers too; the time of a call is an argument of it.
use Prim.Native.String.{String}
use text.Mathlib.Text.{◌==◌ as str_eq}
use text.Mathlib.TextEquality.{eq_iff}
use nebula_storage.Prelude.{
  ℕ, zero, suc, ◌+◌, ◌/◌, ◌≡◌, ◌≢◌, ◌↔◌, refl, ap, Bool, true, false, not, ◌&&◌, ◌||◌, List, [],
  ◌∷◌, ◌++◌, Option, none, some, arith, ◌==◌, ==_iff, if◌then◌else◌, length,
}
use nebula_storage.Wal.{Wal, LogEntry}
pub mod Peers
pub mod Vote
pub mod OneVote
pub mod Election
pub mod Append
pub mod Handle
pub mod Follow
pub mod Entries
pub mod Accept
pub mod Committed
pub mod Part
pub mod Batches
pub mod BatchLaws
pub mod Leader
pub mod Flights
pub mod Stuck
pub mod Acks
pub mod LeaderLaws
pub mod Sender
pub mod Replies
pub mod Stale
mod Tests
mod AppendTests
mod LeaderTests
mod ReplyTests

pub record HostAddr : Type 0 where
  pub host : String
  pub port : ℕ

-- HostAddr("", 0), which stands for no host.
abbrev pub no_addr : HostAddr
no_addr = record { host = ""; port = 0 }

unfoldable pub addr_eq : HostAddr → HostAddr → Bool
addr_eq a b = str_eq a.host b.host && a.port == b.port

pub addr_eq_iff : (a b : HostAddr) → (addr_eq a b ≡ true) ↔ (a ≡ b)
unfolding addr_eq
addr_eq_iff a b =
    (λ e. ground (arith, eq_iff a.host b.host), λ e. ground (arith, eq_iff a.host b.host))

-- What a part keeps of each of its peers (the fields of class Host that the part reads).
pub record Host : Type 0 where
  pub addr : HostAddr
  pub is_learner : Bool
  pub sending_snapshot : Bool
  pub follower_committed_log_id : ℕ

-- `std::make_shared<Host>(addr, part, isLearner)`.
abbrev pub new_host : HostAddr → Bool → Host
new_host a learner = record {
  addr = a;
  is_learner = learner;
  sending_snapshot = false;
  follower_committed_log_id = 0;
}

pub data Status : Type 0 where
  starting running stopped waiting_snapshot : Status

pub data Role : Type 0 where
  leader follower candidate learner : Role

abbrev pub is_running : Status → Bool
is_running Status.running = true
is_running _ = false

abbrev pub is_waiting : Status → Bool
is_waiting Status.waiting_snapshot = true
is_waiting _ = false

abbrev pub is_leader : Role → Bool
is_leader Role.leader = true
is_leader _ = false

abbrev pub is_learner_role : Role → Bool
is_learner_role Role.learner = true
is_learner_role _ = false

abbrev pub is_follower : Role → Bool
is_follower Role.follower = true
is_follower _ = false

abbrev pub is_candidate : Role → Bool
is_candidate Role.candidate = true
is_candidate _ = false

-- cpp2::ErrorCode, the answers of the handlers.
pub data ErrorCode : Type 0 where
  succeeded e_log_gap e_log_stale e_waiting_snapshot e_bad_state e_not_ready e_bad_role
        e_term_out_of_date e_wrong_leader e_wal_fail e_persist_snapshot_failed :
      ErrorCode

-- What a handler hands to the background workers.
pub data Task : Type 0 where
  on_lost_leadership : ℕ → Task
  on_discover_new_leader : HostAddr → Task
  on_elected : ℕ → Task
  start_election : Task

pub record RaftPart : Type 0 where
  pub addr : HostAddr
  pub hosts : List Host
  pub quorum : ℕ
  pub listeners : List HostAddr
  pub status : Status
  pub role : Role
  -- The leader that this replica follows, `leader_`.
  pub known_leader : HostAddr
  pub voted_addr : HostAddr
  pub term : ℕ
  pub proposed_term : ℕ
  pub last_log_id : ℕ
  pub last_log_term : ℕ
  pub committed_log_id : ℕ
  pub is_blind_follower : Bool
  pub weight : ℕ
  pub last_msg_recv : ℕ
  pub wal : Wal
  pub last_total_count : ℕ
  pub last_total_size : ℕ
  -- The entries that `commitLogs` was handed, oldest first: what the state machine has applied.
  pub applied : List LogEntry
  pub tasks : List Task

pub record VoteRequest : Type 0 where
  pub candidate : HostAddr
  pub term : ℕ
  pub last_log_id : ℕ
  pub last_log_term : ℕ

-- The address of each host that is no learner: `followers()`.
unfoldable pub followers : List Host → List Host
followers [] = []
followers (h ∷ hs) = if h.is_learner then followers hs else h ∷ followers hs

-- `std::find_if(..., h->address() == addr)`.
unfoldable pub find_host : HostAddr → List Host → Option Host
find_host a [] = none
find_host a (h ∷ hs) = if addr_eq h.addr a then some h else find_host a hs

-- checkPeer: no code where the candidate is a follower in this part's list.
unfoldable pub check_peer : HostAddr → RaftPart → ErrorCode
check_peer a p = elim (find_host a (followers p.hosts)) [
  | none ↦ e_wrong_leader
  | some _ ↦ succeeded
]
