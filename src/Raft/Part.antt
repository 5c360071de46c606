-- ===== src/Raft/Part.antt =====
-- kvstore/Part.cpp, Part::preProcessLog: the changes of the peers that a log makes before it is
-- written, which RaftPart's append handler calls. The deserializer of addresses is a parameter. The
-- CHECKs of decodeHost on the size and type of a log, which abort, are left out.
use nebula_storage.Prelude.{
  ℕ, ◌≡◌, refl, Bool, true, false, List, Option, none, some, arith, ltb, ◌==◌, if◌then◌else◌,
  get_elem?, drop,
}
use nebula_storage.Wal.{LogEntry}
use nebula_storage.LogEncoder.{LogType, log_code}
use nebula_storage.LogEncoder.Single.{get_timestamp}
use nebula_storage.Raft.{HostAddr, RaftPart}
use nebula_storage.Raft.Peers.{
  add_learner, add_peer, remove_peer, update_quorum, pre_process_trans_leader,
  pre_process_remove_peer, HasQuorum, add_peer-HasQuorum, add_learner-HasQuorum,
  remove_peer-HasQuorum,
}
use nebula_storage.Raft.Entries.{KeepsCommitted}

-- The switch on the type of a log.
unfoldable pub change_peers : ℕ → HostAddr → RaftPart → RaftPart
change_peers code host p =
    if code == log_code LogType.op_add_learner
    then add_learner host p
    else if code == log_code LogType.op_trans_leader
    then pre_process_trans_leader host p
    else if code == log_code LogType.op_add_peer
    then add_peer host p
    else if code == log_code LogType.op_remove_peer
    then pre_process_remove_peer host p
    else p

abbrev pub is_newer_than : ℕ → Option ℕ → Bool
is_newer_than start none = false
is_newer_than start (some ts) = ltb start ts

abbrev pub change_if : Option ℕ → Bool → HostAddr → RaftPart → RaftPart
change_if none fresh host p = p
change_if (some code) true host p = change_peers code host p
change_if (some code) false host p = p

-- A log that is not younger than the part's start is stale, and skipped. Every log passes.
unfoldable pub pre_process_log : (List ℕ → HostAddr) → ℕ → LogEntry → RaftPart → Bool × RaftPart
pre_process_log host_of start e p =
    let fresh = is_newer_than start (get_timestamp e.msg) in
    (true, change_if (get_elem? e.msg 8) fresh (host_of (drop 9 e.msg)) p)

change_peers-committed :
    (code : ℕ) (host : HostAddr) (p : RaftPart)
    → (change_peers code host p).committed_log_id ≡ p.committed_log_id
unfolding change_peers add_learner add_peer remove_peer update_quorum pre_process_trans_leader
    pre_process_remove_peer
change_peers-committed code host p = ground arith

change_if-committed :
    (o : Option ℕ) (fresh : Bool) (host : HostAddr) (p : RaftPart)
    → (change_if o fresh host p).committed_log_id ≡ p.committed_log_id
change_if-committed none fresh host p = refl
change_if-committed (some code) true host p = change_peers-committed code host p
change_if-committed (some code) false host p = refl

-- What a log changes before it is written leaves the committed id alone.
pub pre_process_log-KeepsCommitted :
    (host_of : List ℕ → HostAddr) (start : ℕ) → KeepsCommitted (pre_process_log host_of start)
unfolding pre_process_log
pre_process_log-KeepsCommitted host_of start e p =
    let fresh = is_newer_than start (get_timestamp e.msg) in
    change_if-committed (get_elem? e.msg 8) fresh (host_of (drop 9 e.msg)) p

trans-HasQuorum :
    (host : HostAddr) (p : RaftPart) → HasQuorum p → HasQuorum (pre_process_trans_leader host p)
unfolding pre_process_trans_leader
trans-HasQuorum host p h = record { half = ground arith }

remove-HasQuorum :
    (host : HostAddr) (p : RaftPart) → HasQuorum p → HasQuorum (pre_process_remove_peer host p)
unfolding pre_process_remove_peer
remove-HasQuorum host p h =
    let gone = (remove_peer-HasQuorum host p h).half in record { half = ground arith }

change_peers-HasQuorum :
    (code : ℕ) (host : HostAddr) (p : RaftPart) → HasQuorum p → HasQuorum (change_peers code host p)
unfolding change_peers
change_peers-HasQuorum code host p h =
    let learner = (add_learner-HasQuorum host p h).half in
    let peer = (add_peer-HasQuorum host p h).half in
    let gone = (remove-HasQuorum host p h).half in
    let leader = (trans-HasQuorum host p h).half in record { half = ground arith }

change_if-HasQuorum :
    (o : Option ℕ) (fresh : Bool) (host : HostAddr) (p : RaftPart)
    → HasQuorum p
    → HasQuorum (change_if o fresh host p)
change_if-HasQuorum none fresh host p h = h
change_if-HasQuorum (some code) true host p h = change_peers-HasQuorum code host p h
change_if-HasQuorum (some code) false host p h = h

-- A quorum that is right stays right whatever log is processed before it is written, be it a change
-- of the peers, a stale one or none.
pre_process_log-HasQuorum :
    (host_of : List ℕ → HostAddr) (start : ℕ) (e : LogEntry) (p : RaftPart)
    → HasQuorum p
    → HasQuorum (pre_process_log host_of start e p).1
unfolding pre_process_log
pre_process_log-HasQuorum host_of start e p h =
    let fresh = is_newer_than start (get_timestamp e.msg) in
    change_if-HasQuorum (get_elem? e.msg 8) fresh (host_of (drop 9 e.msg)) p h
