-- ===== src/Balancer.antt =====
-- meta/processors/admin/Balancer.cpp: how the parts of a space are spread over the hosts, for spaces
-- that do not depend on a group. The allocation, a hash map, is the list of its entries in the order
-- of its iteration, which also stands for how std::sort orders hosts of one size.
use nebula_storage.Prelude.{
  ℕ, zero, suc, ◌+◌, ◌*◌, ◌-◌, ◌/◌, ◌<◌, ◌≤◌, ◌≡◌, ◌≢◌, refl, Bool, true, false, not, ◌&&◌, ◌||◌,
  List, [], ◌∷◌, ◌++◌, map, Option, none, some, arith, leb, ltb, ◌==◌, ◌>>=◌, length, if◌then◌else◌,
}
use nebula_storage.Raft.{HostAddr, addr_eq}
pub mod Measure
pub mod Sorted
pub mod Moves
pub mod Difference
pub mod Update
pub mod Plan
pub mod Flow
pub mod Rounds
pub mod Transfer
pub mod Sends
pub mod Tasks
pub mod Carried
mod Tests

-- `HostParts`.
abbrev pub HostParts : Type 0
HostParts = List (HostAddr × List ℕ)

-- A part that is to move from a host to another: what a BalanceTask is built from.
pub record BalanceTask : Type 0 where
  pub part_id : ℕ
  pub src : HostAddr
  pub dst : HostAddr

-- `find(host)` in the map.
unfoldable pub find_parts : HostAddr → HostParts → Option (List ℕ)
find_parts h [] = none
find_parts h ((k, ps) ∷ m) = if addr_eq k h then some ps else find_parts h m

abbrev pub or_empty : Option (List ℕ) → List ℕ
or_empty none = []
or_empty (some ps) = ps

-- `hostParts[host]`, where it is read.
abbrev pub parts_of : HostAddr → HostParts → List ℕ
parts_of h m = or_empty (find_parts h m)

-- `hostParts[host] = parts`.
unfoldable pub put_parts : HostAddr → List ℕ → HostParts → HostParts
put_parts h ps [] = (h, ps) ∷ []
put_parts h ps ((k, qs) ∷ m) = if addr_eq k h then (k, ps) ∷ m else (k, qs) ∷ put_parts h ps m

unfoldable pub erase_parts : HostAddr → HostParts → HostParts
erase_parts h [] = []
erase_parts h ((k, ps) ∷ m) = if addr_eq k h then m else (k, ps) ∷ erase_parts h m

unfoldable pub has_host : HostAddr → List HostAddr → Bool
has_host h [] = false
has_host h (x ∷ xs) = addr_eq x h || has_host h xs

unfoldable pub has_part : ℕ → List ℕ → Bool
has_part p [] = false
has_part p (q ∷ qs) = q == p || has_part p qs

-- `parts.erase(std::find(..., part))`.
unfoldable pub erase_part : ℕ → List ℕ → List ℕ
erase_part p [] = []
erase_part p (q ∷ qs) = if q == p then qs else q ∷ erase_part p qs

-- The first loop of calDiff: the hosts that are no longer active.
unfoldable pub lost_hosts : HostParts → List HostAddr → List HostAddr → List HostAddr
lost_hosts [] active lost = lost
lost_hosts ((h, ps) ∷ m) active lost =
    lost_hosts m active (if has_host h active || has_host h lost then lost else lost ++ h ∷ [])

-- The second loop of calDiff: the hosts that are new.
unfoldable pub new_hosts : HostParts → List HostAddr → List HostAddr
new_hosts m [] = []
new_hosts m (h ∷ hs) = elim (find_parts h m) [ none ↦ h ∷ new_hosts m hs | some _ ↦ new_hosts m hs ]

abbrev pub cal_diff : HostParts → List HostAddr → List HostAddr → List HostAddr × List HostAddr
cal_diff m active lost = (new_hosts m active, lost_hosts m active lost)

-- `emplace(host, {})`, where the host's entry is looked up.
abbrev pub add_at : HostAddr → HostParts → Option (List ℕ) → HostParts
add_at h m none = m ++ (h, []) ∷ []
add_at h m (some ps) = m

unfoldable pub add_host : HostAddr → HostParts → HostParts
add_host h m = add_at h m (find_parts h m)

unfoldable pub add_hosts : List HostAddr → HostParts → HostParts
add_hosts [] m = m
add_hosts (h ∷ hs) m = add_hosts hs (add_host h m)

unfoldable pub erase_hosts : List HostAddr → HostParts → HostParts
erase_hosts [] m = m
erase_hosts (h ∷ hs) m = erase_hosts hs (erase_parts h m)

-- The end of fetchHostParts: the allocation with the new hosts and without the lost ones, and the latter.
unfoldable pub confirmed_parts :
    HostParts → List HostAddr → List HostAddr → HostParts × List HostAddr
confirmed_parts m active lost =
    let (expand, gone) = cal_diff m active lost in (erase_hosts gone (add_hosts expand m), gone)

abbrev pub sizes : HostParts → List (HostAddr × ℕ)
sizes [] = []
sizes ((h, ps) ∷ m) = (h, length ps) ∷ sizes m

unfoldable pub insert_host : HostAddr × ℕ → List (HostAddr × ℕ) → List (HostAddr × ℕ)
insert_host x [] = x ∷ []
insert_host x (y ∷ ys) = if leb x.1 y.1 then x ∷ (y ∷ ys) else y ∷ insert_host x ys

unfoldable pub sort_hosts : List (HostAddr × ℕ) → List (HostAddr × ℕ)
sort_hosts [] = []
sort_hosts (x ∷ xs) = insert_host x (sort_hosts xs)

unfoldable pub sorted_hosts_by_parts : HostParts → List (HostAddr × ℕ)
sorted_hosts_by_parts m = sort_hosts (sizes m)

abbrev pub back : HostAddr × ℕ → List (HostAddr × ℕ) → HostAddr × ℕ
back x [] = x
back x (y ∷ ys) = back y ys

-- The hosts that hold the part and are active.
unfoldable pub alive_replicas : HostParts → List HostAddr → ℕ → ℕ
alive_replicas [] active p = 0
alive_replicas ((h, ps) ∷ m) active p =
    if has_part p ps && has_host h active
    then suc (alive_replicas m active p)
    else alive_replicas m active p

unfoldable pub check_replica : HostParts → List HostAddr → ℕ → ℕ → Bool
check_replica m active replica p = leb (replica / 2 + 1) (alive_replicas m active p)

-- The loop of hostWithMinimalParts over the sorted hosts.
unfoldable pub host_without : HostParts → ℕ → List (HostAddr × ℕ) → Option HostAddr
host_without m p [] = none
host_without m p (h ∷ hs) =
    let rest = host_without m p hs in if has_part p (parts_of h.0 m) then rest else some h.0

unfoldable pub host_with_minimal_parts : HostParts → ℕ → Option HostAddr
host_with_minimal_parts m p = host_without m p (sorted_hosts_by_parts m)

-- transferLostHost: the part goes to the smallest host that does not have it.
unfoldable pub transfer_lost_host :
    HostAddr → ℕ → HostParts × List BalanceTask → Option (HostParts × List BalanceTask)
transfer_lost_host source p (m, tasks) = do
  target ← host_with_minimal_parts m p
  some (
    put_parts target (parts_of target m ++ p ∷ []) m,
    tasks ++ record { part_id = p; src = source; dst = target } ∷ [],
  )

unfoldable pub insert_part : ℕ → List ℕ → List ℕ
insert_part p [] = p ∷ []
insert_part p (q ∷ qs) = if leb p q then p ∷ (q ∷ qs) else q ∷ insert_part p qs

unfoldable pub sort_parts : List ℕ → List ℕ
sort_parts [] = []
sort_parts (p ∷ ps) = insert_part p (sort_parts ps)

unfoldable pub skip_less : ℕ → List ℕ → List ℕ
skip_less p [] = []
skip_less p (q ∷ qs) = if ltb q p then skip_less p qs else q ∷ qs

abbrev pub difference_step : Bool → ℕ → (List ℕ → List ℕ) → ℕ → List ℕ → List ℕ
difference_step true p rest q qs = rest qs
difference_step false p rest q qs = p ∷ rest (q ∷ qs)

abbrev pub difference_at : ℕ → (List ℕ → List ℕ) → List ℕ → List ℕ
difference_at p rest [] = p ∷ rest []
difference_at p rest (q ∷ qs) = difference_step (q == p) p rest q qs

-- std::set_difference of sorted ranges.
unfoldable pub set_difference : List ℕ → List ℕ → List ℕ
set_difference [] qs = []
set_difference (p ∷ ps) qs = difference_at p (set_difference ps) (skip_less p qs)

-- Whether the loop over `diff` stops.
abbrev pub stops : ℕ → ℕ → List ℕ → List ℕ → Bool
stops lo hi from to = length from == length to + 1 || length from == lo || length to == hi

abbrev pub moved_also : ℕ → Option (List ℕ × List ℕ × List ℕ) → Option (List ℕ × List ℕ × List ℕ)
moved_also p none = none
moved_also p (some (f, t, ms)) = some (f, t, p ∷ ms)

-- What the loop over `diff` leaves: the two hosts' parts and the parts moved; none where it returns false.
unfoldable pub move_parts : ℕ → ℕ → List ℕ → List ℕ → List ℕ → Option (List ℕ × List ℕ × List ℕ)
move_parts lo hi [] from to = some (from, to, [])
move_parts lo hi (p ∷ ps) from to =
    let rest = moved_also p (move_parts lo hi ps (erase_part p from) (to ++ p ∷ [])) in
    if stops lo hi from to
    then some (from, to, [])
    else if has_part p from && not (has_part p to)
    then rest
    else none

abbrev pub tasks_of : HostAddr → HostAddr → List ℕ → List BalanceTask
tasks_of src dst [] = []
tasks_of src dst (p ∷ ps) = record { part_id = p; src = src; dst = dst } ∷ tasks_of src dst ps

-- How a run of balanceParts ends; `unfinished` is a run that has used up its rounds.
pub data Outcome : Type 0 where
  refused : Outcome
  balanced : HostParts → List BalanceTask → Outcome
  unfinished : Outcome

-- A round, with the rounds that follow: from the largest host to the smallest.
abbrev pub after_moves :
    (HostParts → List BalanceTask → Outcome)
    → HostAddr
    → HostAddr
    → HostParts
    → List BalanceTask
    → Option (List ℕ × List ℕ × List ℕ)
    → Outcome
after_moves next src dst m tasks none = refused
after_moves next src dst m tasks (some (f, t, [])) =
    balanced (put_parts dst t (put_parts src f m)) tasks
after_moves next src dst m tasks (some (f, t, p ∷ ms)) =
    next (put_parts dst t (put_parts src f m)) (tasks ++ tasks_of src dst (p ∷ ms))

unfoldable pub balance_round :
    ℕ
    → ℕ
    → (HostParts → List BalanceTask → Outcome)
    → HostParts
    → List BalanceTask
    → List (HostAddr × ℕ)
    → Outcome
balance_round lo hi next m tasks [] = refused
balance_round lo hi next m tasks (x ∷ xs) =
    let most = back x xs in
    let from = sort_parts (parts_of most.0 m) in
    let to = sort_parts (parts_of x.0 m) in
    let moved = move_parts lo hi (set_difference from to) from to in
    if ltb hi most.1 || ltb x.1 lo
    then after_moves next most.0 x.0 m tasks moved
    else balanced m tasks

-- The loop of balanceParts, for at most `fuel` rounds.
unfoldable pub balance_loop : ℕ → ℕ → ℕ → HostParts → List BalanceTask → Outcome
balance_loop lo hi zero m tasks = unfinished
balance_loop lo hi (suc fuel) m tasks =
    balance_round lo hi (balance_loop lo hi fuel) m tasks (sorted_hosts_by_parts m)

-- std::floor and std::ceil of the average load. The code divides floats, which is exact below 2 ^ 24 parts.
abbrev pub min_load : ℕ → HostParts → ℕ
min_load total m = total / length m

abbrev pub max_load : ℕ → HostParts → ℕ
max_load total m = (total + (length m - 1)) / length m

unfoldable pub balance_parts : ℕ → ℕ → HostParts → List BalanceTask → Outcome
balance_parts fuel total m tasks = balance_loop (min_load total m) (max_load total m) fuel m tasks

-- The loop of genTasks over the parts of a lost host; none where too few replicas are alive or no host is left.
unfoldable pub transfer_parts :
    HostParts
    → List HostAddr
    → ℕ
    → HostAddr
    → List ℕ
    → HostParts × List BalanceTask
    → Option (HostParts × List BalanceTask)
transfer_parts orig active replica source [] st = some st
transfer_parts orig active replica source (p ∷ ps) st =
    let rest = do
      next ← transfer_lost_host source p st
      transfer_parts orig active replica source ps next
    in if check_replica orig active replica p then rest else none

unfoldable pub transfer_hosts :
    HostParts
    → List HostAddr
    → ℕ
    → List HostAddr
    → HostParts × List BalanceTask
    → Option (HostParts × List BalanceTask)
transfer_hosts orig active replica [] st = some st
transfer_hosts orig active replica (h ∷ hs) st = do
  next ← transfer_parts orig active replica h (parts_of h orig) st
  transfer_hosts orig active replica hs next

abbrev pub balance_transferred : ℕ → ℕ → Option (HostParts × List BalanceTask) → Outcome
balance_transferred fuel total none = refused
balance_transferred fuel total (some (m, tasks)) =
    let planned = balance_parts fuel total m tasks in if ltb (length m) 2 then refused else planned

-- genTasks, behind the reads from the store: the parts that there are in all, the allocation, the active hosts and the
-- hosts to give up. Every error is `refused`.
unfoldable pub gen_tasks : ℕ → ℕ → ℕ → HostParts → List HostAddr → List HostAddr → Outcome
gen_tasks fuel replica total orig active lost =
    let (confirmed, gone) = confirmed_parts orig active lost in
    if total == 0 || length orig == 0
    then refused
    else balance_transferred fuel total (transfer_hosts orig active replica gone (confirmed, []))
