-- ===== src/Raft/Peers.antt =====
-- The membership of a replica group in kvstore/raftex/RaftPart.cpp: updateQuorum, addLearner,
-- addPeer, removePeer, addListenerPeer, removeListenerPeer, checkAndResetPeers, and the steps of a
-- membership change before and after its log is committed.
use nebula_storage.Prelude.{
  ℕ, suc, ◌+◌, ◌*◌, ◌/◌, ◌<◌, ◌≤◌, ◌≡◌, refl, Bool, true, false, not, ◌&&◌, List, [], ◌∷◌, ◌++◌,
  Option, none, some, arith, if◌then◌else◌, inl, inr, Bool-cases, Option-cases,
}
use nebula_storage.Raft.{
  HostAddr, no_addr, addr_eq, Host, new_host, Role, Task, RaftPart, followers, find_host, is_leader,
  is_learner_role, is_follower,
}

unfoldable pub count_voters : List Host → ℕ
count_voters [] = 0
count_voters (h ∷ hs) = if h.is_learner then count_voters hs else suc (count_voters hs)

unfoldable pub update_quorum : RaftPart → RaftPart
update_quorum p = record p { quorum = (count_voters p.hosts + 1) / 2 }

-- `hosts_.erase(it)` for the first host of this address.
unfoldable pub erase_host : HostAddr → List Host → List Host
erase_host a [] = []
erase_host a (h ∷ hs) = if addr_eq h.addr a then hs else h ∷ erase_host a hs

-- `(*it)->setLearner(false)` for the first host of this address.
unfoldable pub promote_host : HostAddr → List Host → List Host
promote_host a [] = []
promote_host a (h ∷ hs) =
    if addr_eq h.addr a then record h { is_learner = false } ∷ hs else h ∷ promote_host a hs

unfoldable pub add_learner : HostAddr → RaftPart → RaftPart
add_learner a p = if addr_eq a p.addr then p else elim (find_host a p.hosts) [
  | none ↦ record p { hosts = p.hosts ++ new_host a true ∷ [] }
  | some _ ↦ p
]

unfoldable pub add_peer : HostAddr → RaftPart → RaftPart
unfolding update_quorum
add_peer a p =
    if addr_eq a p.addr
    then (if is_learner_role p.role then update_quorum (record p { role = Role.follower }) else p)
    else elim (find_host a p.hosts) [
      | none ↦ update_quorum (record p { hosts = p.hosts ++ new_host a false ∷ [] })
      | some h ↦
          if h.is_learner then update_quorum (record p { hosts = promote_host a p.hosts }) else p
    ]

unfoldable pub remove_peer : HostAddr → RaftPart → RaftPart
unfolding update_quorum
remove_peer a p = if addr_eq a p.addr then p else elim (find_host a p.hosts) [
  | none ↦ p
  | some h ↦
      if h.is_learner
      then record p { hosts = erase_host a p.hosts }
      else update_quorum (record p { hosts = erase_host a p.hosts })
]

unfoldable pub add_listener_peer : HostAddr → RaftPart → RaftPart
add_listener_peer a p = if addr_eq a p.addr then p else elim (find_host a p.hosts) [
  | none ↦ record p { hosts = p.hosts ++ new_host a true ∷ []; listeners = p.listeners ++ a ∷ [] }
  | some _ ↦ p
]

unfoldable pub erase_addr : HostAddr → List HostAddr → List HostAddr
erase_addr a [] = []
erase_addr a (b ∷ bs) = if addr_eq a b then erase_addr a bs else b ∷ erase_addr a bs

unfoldable pub remove_listener_peer : HostAddr → RaftPart → RaftPart
remove_listener_peer a p = if addr_eq a p.addr then p else elim (find_host a p.hosts) [
  | none ↦ p
  | some _ ↦ record p { hosts = erase_host a p.hosts; listeners = erase_addr a p.listeners }
]

-- The leader removes a peer when the log is committed, the others before it is written.
unfoldable pub pre_process_remove_peer : HostAddr → RaftPart → RaftPart
pre_process_remove_peer a p = if is_leader p.role then p else remove_peer a p

unfoldable pub commit_remove_peer : HostAddr → RaftPart → Option RaftPart
commit_remove_peer a p = elim p.role [
  | Role.follower ↦ some p
  | Role.learner ↦ some p
  | Role.candidate ↦ none
  | Role.leader ↦ some (remove_peer a p)
]

-- A follower that is the target, or has none, hands an election to the workers.
unfoldable pub pre_process_trans_leader : HostAddr → RaftPart → RaftPart
pre_process_trans_leader target p =
    if is_follower p.role
    then (if not (addr_eq target p.addr) && not (addr_eq target no_addr)
        then p
        else record p { tasks = p.tasks ++ Task.start_election ∷ [] })
    else p

-- A leader that is not the target steps down, if it has a voting peer.
unfoldable pub commit_trans_leader : ℕ → HostAddr → RaftPart → RaftPart
commit_trans_leader now target p =
    if is_leader p.role && not (addr_eq target p.addr)
    then elim (followers p.hosts) [
      | [] ↦ p
      | _ ∷ _ ↦ record p { last_msg_recv = now; role = Role.follower; known_leader = no_addr }
    ]
    else p

unfoldable pub mem_addr : HostAddr → List HostAddr → Bool
mem_addr a [] = false
mem_addr a (b ∷ bs) = if addr_eq a b then true else mem_addr a bs

unfoldable pub remove_missing : List HostAddr → List Host → RaftPart → RaftPart
remove_missing peers [] p = p
remove_missing peers (h ∷ hs) p =
    remove_missing peers hs (if mem_addr h.addr peers then p else remove_peer h.addr p)

unfoldable pub add_all : List HostAddr → RaftPart → RaftPart
add_all [] p = p
add_all (a ∷ rest) p = add_all rest (add_peer a p)

unfoldable pub check_and_reset_peers : List HostAddr → RaftPart → RaftPart
check_and_reset_peers peers p = add_all peers (remove_missing peers p.hosts p)

-- The quorum is half of the voting replicas, this one included: with its own vote a candidate or
-- leader that has `quorum` others has a majority.
pub record HasQuorum (p : RaftPart) : Type 0 where
  pub half : p.quorum ≡ (count_voters p.hosts + 1) / 2

count_voters-append :
    (hs : List Host) (h : Host)
    → count_voters (hs ++ h ∷ [])
      ≡ (if h.is_learner then count_voters hs else suc (count_voters hs))
unfolding count_voters
count_voters-append [] h = refl
count_voters-append (x ∷ hs) h = ground (arith, count_voters-append hs h)

-- A learner that goes takes no vote along.
count_voters-erase_learner :
    (a : HostAddr) (hs : List Host) (h : Host)
    → find_host a hs ≡ some h
    → h.is_learner ≡ true
    → count_voters (erase_host a hs) ≡ count_voters hs
unfolding count_voters find_host erase_host
count_voters-erase_learner a [] h e l = cc
count_voters-erase_learner a (x ∷ hs) h e l = ground (arith, count_voters-erase_learner a hs h)

-- A quorum that is right stays right when a learner is added, which has no vote.
pub add_learner-HasQuorum :
    (a : HostAddr) (p : RaftPart) → HasQuorum p → HasQuorum (add_learner a p)
unfolding add_learner
add_learner-HasQuorum a p h = ground (arith, count_voters-append p.hosts (new_host a true))

-- A quorum that is right stays right when a peer is added, be it new, a learner that is promoted,
-- or the part itself.
pub add_peer-HasQuorum : (a : HostAddr) (p : RaftPart) → HasQuorum p → HasQuorum (add_peer a p)
unfolding add_peer
add_peer-HasQuorum a p h = ground arith

-- A quorum that is right stays right when a peer is removed, be it a voter or a learner.
pub remove_peer-HasQuorum :
    (a : HostAddr) (p : RaftPart) → HasQuorum p → HasQuorum (remove_peer a p)
unfolding remove_peer
remove_peer-HasQuorum a p h = elim (Option-cases (find_host a p.hosts)) [
  | inl e ↦ ground arith
  | inr (x, e) ↦ ground (arith, count_voters-erase_learner a p.hosts x e)
]

remove_missing-HasQuorum :
    (peers : List HostAddr) (hs : List Host) (p : RaftPart)
    → HasQuorum p
    → HasQuorum (remove_missing peers hs p)
unfolding remove_missing
remove_missing-HasQuorum peers [] p h = h
remove_missing-HasQuorum peers (x ∷ hs) p h =
    remove_missing-HasQuorum peers hs _ (elim (Bool-cases (mem_addr x.addr peers)) [
      | inl stays ↦ rw stays h
      | inr goes ↦ rw goes (remove_peer-HasQuorum x.addr p h)
    ])

add_all-HasQuorum :
    (peers : List HostAddr) (p : RaftPart) → HasQuorum p → HasQuorum (add_all peers p)
unfolding add_all
add_all-HasQuorum [] p h = h
add_all-HasQuorum (a ∷ rest) p h = add_all-HasQuorum rest (add_peer a p) (add_peer-HasQuorum a p h)

-- Where the quorum was right, after the peers are reset `quorum` others and the replica itself are
-- more than half of the voting replicas, and `quorum` replicas without it are not.
pub check_and_reset_peers_majority :
    (peers : List HostAddr) (p : RaftPart)
    → HasQuorum p
    → let q = check_and_reset_peers peers p in
      (count_voters q.hosts + 1 < 2 * (q.quorum + 1)) × (2 * q.quorum ≤ count_voters q.hosts + 1)
unfolding check_and_reset_peers
check_and_reset_peers_majority peers p h =
    let good : HasQuorum (check_and_reset_peers peers p) =
      add_all-HasQuorum peers _ (remove_missing-HasQuorum peers p.hosts p h) in
    (omega (arith, good.half), omega (arith, good.half))
