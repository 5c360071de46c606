-- ===== src/Balancer/Tests.antt =====
-- Six parts on three hosts, one of them new, and what the theorems say of them.
use nebula_storage.Prelude.{ℕ, ◌≡◌, refl, List, [], ◌∷◌, arith, length}
use nebula_storage.Raft.{HostAddr, addr_eq}
use nebula_storage.Balancer.{
  HostParts, find_parts, balance_parts, gen_tasks, alive_replicas, add_host, add_hosts,
  balance_loop, balance_round, confirmed_parts, check_replica, erase_hosts, erase_parts, erase_part,
  has_host, has_part, host_with_minimal_parts, host_without, insert_host, insert_part, lost_hosts,
  move_parts, new_hosts, put_parts, set_difference, skip_less, sort_hosts, sort_parts,
  sorted_hosts_by_parts, transfer_hosts, transfer_parts, transfer_lost_host, Outcome, balanced,
}
use nebula_storage.Balancer.Tasks.{Planned, transferred}
use nebula_storage.Balancer.Carried.{IsCarriedOut, gen_tasks-Planned}
use nebula_storage.Balancer.Measure.{total}
use nebula_storage.Balancer.Sorted.{IsMap}
use nebula_storage.Balancer.Plan.{Spread, balance_parts-Spread}

abbrev host_of : ℕ → HostAddr
host_of n = record { host = "s"; port = n }

abbrev three_hosts : HostParts
three_hosts = (host_of 1, 3 ∷ 1 ∷ 2 ∷ 4 ∷ []) ∷ (host_of 2, []) ∷ (host_of 3, 1 ∷ 5 ∷ []) ∷ []

three_hosts-IsMap : IsMap three_hosts
unfolding find_parts addr_eq
three_hosts-IsMap = (refl, (refl, (refl, tt)))

balance_parts-Spread_example :
    Spread three_hosts (balance_parts 21 (total length three_hosts) three_hosts [])
unfolding total
balance_parts-Spread_example =
    balance_parts-Spread three_hosts [] 21 three_hosts-IsMap (omega arith) (omega arith)

-- Two parts with three replicas each; the third host is lost and the fourth is new.
abbrev replicated : HostParts
replicated = (host_of 1, 1 ∷ 2 ∷ []) ∷ (host_of 2, 1 ∷ 2 ∷ []) ∷ (host_of 3, 2 ∷ 1 ∷ []) ∷ []

abbrev still_active : List HostAddr
still_active = host_of 1 ∷ host_of 2 ∷ host_of 4 ∷ []

replicated-IsMap : IsMap replicated
unfolding find_parts addr_eq
replicated-IsMap = (refl, (refl, (refl, tt)))

planned_parts : Outcome → HostParts
planned_parts (balanced m ts) = m
planned_parts _ = []

replicated_plan :
    planned_parts (gen_tasks 37 3 6 replicated still_active [])
    ≡ (host_of 1, 1 ∷ 2 ∷ []) ∷ (host_of 2, 1 ∷ 2 ∷ []) ∷ (host_of 4, 2 ∷ 1 ∷ []) ∷ []
unfolding planned_parts gen_tasks addr_eq alive_replicas add_host add_hosts balance_loop
    balance_parts balance_round confirmed_parts check_replica erase_hosts erase_parts erase_part
    find_parts has_host has_part host_with_minimal_parts host_without insert_host insert_part
    lost_hosts move_parts new_hosts put_parts set_difference skip_less sort_hosts sort_parts
    sorted_hosts_by_parts transfer_hosts transfer_parts transfer_lost_host
replicated_plan = refl

gen_tasks-Planned_example :
    Planned replicated
      (transferred 3 replicated still_active [])
      (gen_tasks 37 3 (total length replicated) replicated still_active [])
    × IsCarriedOut replicated (gen_tasks 37 3 (total length replicated) replicated still_active [])
unfolding total
gen_tasks-Planned_example =
    gen_tasks-Planned 37 3 replicated still_active [] replicated-IsMap tt (omega arith)
