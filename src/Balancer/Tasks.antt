-- ===== src/Balancer/Tasks.antt =====
-- Balancer.cpp, genTasks: a plan keeps the number of copies of every part.
use nebula_storage.Prelude.{
  ℕ, ◌+◌, ◌*◌, ◌<◌, ◌≤◌, ◌≡◌, refl, sym, ap, ◌∙◌, subst, Bool, true, false, ◌||◌, List, [], ◌∷◌,
  ◌++◌, Option, none, some, arith, ltb, length, if◌then◌else◌, ◌==◌, Bool-cases, inl, inr,
  All-append, length-append, >>=-eq-some,
}
use nebula_storage.Raft.{HostAddr, addr_eq, addr_eq_iff}
use nebula_storage.Balancer.{
  HostParts, BalanceTask, parts_of, put_parts, add_hosts, erase_hosts, has_host, erase_parts,
  add_host, add_at, find_parts, lost_hosts, new_hosts, confirmed_parts, transfer_lost_host,
  transfer_parts, transfer_hosts, check_replica, host_with_minimal_parts, Outcome, refused,
  balanced, balance_transferred, gen_tasks, balance_parts,
}
use nebula_storage.Balancer.Measure.{total, count, copies, square, count-append}
use nebula_storage.Balancer.Sorted.{IsMap}
use nebula_storage.Balancer.Update.{EachOnce}
use nebula_storage.Balancer.Plan.{Spread, gives_up, ends, balance_parts-Spread}
use nebula_storage.Balancer.Transfer.{
  IsSum, Given, Given-none, Given-append, Given-one, minimal-lacks, AllApart, sum_of,
  total-add_hosts, total-erase_hosts, sum_of-add_hosts, add_hosts-IsMap, erase_hosts-IsMap,
}

abbrev map_or : HostParts × List BalanceTask → Option (HostParts × List BalanceTask) → HostParts
map_or x none = x.0
map_or x (some y) = y.0

transfer_lost_host-Given :
    (source : HostAddr)
    → (p : ℕ) → (m n : HostParts) → (tasks ts : List BalanceTask) → IsMap m
    → transfer_lost_host source p (m, tasks) ≡ some (n, ts)
    → Given m (p ∷ []) n
unfolding transfer_lost_host
transfer_lost_host-Given source p m n tasks ts u e =
    let (h, found, rest) = >>=-eq-some (host_with_minimal_parts m p) _ e in
    let (ps, f, lacks) = minimal-lacks m p h u found in
    let same : put_parts h (ps ++ p ∷ []) m ≡ n = ap (map_or (m, tasks)) (rw f at rest) in
    subst (Given m (p ∷ [])) same (Given-one m p h ps u f lacks)

transfer_parts-Given :
    (orig : HostParts)
    → (active : List HostAddr) → (replica : ℕ) → (source : HostAddr) → (ps : List ℕ)
    → (m n : HostParts) → (tasks ts : List BalanceTask) → IsMap m
    → transfer_parts orig active replica source ps (m, tasks) ≡ some (n, ts)
    → Given m ps n
unfolding transfer_parts
transfer_parts-Given orig active replica source [] m n tasks ts u e =
    subst (Given m []) (ap (map_or (m, tasks)) e) (Given-none m u)
transfer_parts-Given orig active replica source (p ∷ ps) m n tasks ts u e =
    elim (Bool-cases (check_replica orig active replica p)) [
      | inr few ↦ absurd (ground arith)
      | inl alive ↦
          let ((k, mid), one, two) =
            >>=-eq-some (transfer_lost_host source p (m, tasks)) _ (rw alive at e) in
          let first = transfer_lost_host-Given source p m k tasks mid u one in
          Given-append first
            (transfer_parts-Given orig active replica source ps k n mid ts first.is_map two)
    ]

-- The parts of several hosts, one host's behind the other's.
abbrev parts_together : List HostAddr → HostParts → List ℕ
parts_together [] m = []
parts_together (h ∷ hs) m = parts_of h m ++ parts_together hs m

transfer_hosts-Given :
    (orig : HostParts)
    → (active : List HostAddr) → (replica : ℕ) → (hs : List HostAddr) → (m n : HostParts)
    → (tasks ts : List BalanceTask) → IsMap m
    → transfer_hosts orig active replica hs (m, tasks) ≡ some (n, ts)
    → Given m (parts_together hs orig) n
unfolding transfer_hosts
transfer_hosts-Given orig active replica [] m n tasks ts u e =
    subst (Given m []) (ap (map_or (m, tasks)) e) (Given-none m u)
transfer_hosts-Given orig active replica (h ∷ hs) m n tasks ts u e =
    let ((k, mid), one, two) =
      >>=-eq-some (transfer_parts orig active replica h (parts_of h orig) (m, tasks)) _ e in
    let first = transfer_parts-Given orig active replica h (parts_of h orig) m k tasks mid u one in
    Given-append first (transfer_hosts-Given orig active replica hs k n mid ts first.is_map two)

sum_of-together :
    (w : List ℕ → ℕ)
    → (s : IsSum w) → (hs : List HostAddr) → (m : HostParts)
    → sum_of w s hs m ≡ w (parts_together hs m)
sum_of-together w s [] m = sym s.empty
sum_of-together w s (h ∷ hs) m =
    omega (arith, sum_of-together w s hs m, s.append (parts_of h m) (parts_together hs m))

has_host-append :
    (k h : HostAddr)
    → (hs : List HostAddr) → addr_eq h k ≡ false
    → has_host k hs ≡ false
    → has_host k (hs ++ h ∷ []) ≡ false
unfolding has_host
has_host-append k h [] n a = ground arith
has_host-append k h (x ∷ hs) n a = ground (arith, has_host-append k h hs n)

append-AllApart :
    (h : HostAddr)
    → (hs : List HostAddr) → has_host h hs ≡ false
    → AllApart hs
    → AllApart (hs ++ h ∷ [])
unfolding has_host
append-AllApart h [] n d = (refl, tt)
append-AllApart h (k ∷ hs) n (a, d) =
    let other : addr_eq h k ≡ false = ground (arith, addr_eq_iff h k, addr_eq_iff k h) in
    (has_host-append k h hs other a, append-AllApart h hs (ground arith) d)

pub lost_hosts-AllApart :
    (m : HostParts)
    → (active lost : List HostAddr) → AllApart lost
    → AllApart (lost_hosts m active lost)
unfolding lost_hosts
lost_hosts-AllApart [] active lost d = d
lost_hosts-AllApart ((h, ps) ∷ m) active lost d =
    lost_hosts-AllApart m active _ (lost-one (has_host h active) (has_host h lost) refl)
  where
    lost-one :
        (a b : Bool) → has_host h lost ≡ b → AllApart (if a || b then lost else lost ++ h ∷ [])
    lost-one true b e = d
    lost-one false true e = d
    lost-one false false e = append-AllApart h lost e d

squares-sum : (a b c : ℕ) → c ≤ b * b → a * a + c ≤ (a + b) * (a + b)
squares-sum a b c h = omega (arith, h)

-- The sum of squares stays below the square of the sum.
total-square : (m : HostParts) → total square m ≤ total length m * total length m
unfolding total
total-square [] = omega arith
total-square ((h, ps) ∷ m) =
    let rest = total-square m in squares-sum (length ps) (total length m) (total square m) rest

erase_parts-EachOnce : (k : HostAddr) → (n : HostParts) → EachOnce n → EachOnce (erase_parts k n)
unfolding erase_parts
erase_parts-EachOnce k [] o = tt
erase_parts-EachOnce k ((x, ps) ∷ n) (a, o) = elim (Bool-cases (addr_eq x k)) [
  | inl e ↦ rw e o
  | inr e ↦ rw e (a, erase_parts-EachOnce k n o)
]

erase_hosts-EachOnce :
    (hs : List HostAddr) → (m : HostParts) → EachOnce m → EachOnce (erase_hosts hs m)
unfolding erase_hosts
erase_hosts-EachOnce [] m o = o
erase_hosts-EachOnce (h ∷ hs) m o =
    erase_hosts-EachOnce hs (erase_parts h m) (erase_parts-EachOnce h m o)

add_hosts-EachOnce : (hs : List HostAddr) → (m : HostParts) → EachOnce m → EachOnce (add_hosts hs m)
unfolding add_hosts add_host count
add_hosts-EachOnce [] m o = o
add_hosts-EachOnce (h ∷ hs) m o = add_hosts-EachOnce hs (add_host h m) (add-one (find_parts h m))
  where
    add-one : (f : Option (List ℕ)) → EachOnce (add_at h m f)
    add-one none = All-append _ m ((h, []) ∷ []) o ((λ p. omega arith), tt)
    add-one (some ps) = o

-- What genTasks makes of the parts of lost hosts, where it gets there.
abbrev pub transferred :
    ℕ → HostParts → List HostAddr → List HostAddr → Option (HostParts × List BalanceTask)
transferred replica orig active lost =
    let (confirmed, gone) = confirmed_parts orig active lost in
    transfer_hosts orig active replica gone (confirmed, [])

-- Why there is no plan: there is nothing to plan, a part of a lost host cannot be moved, one host is left to balance,
-- or some host has a part twice, which is an error of the allocation that is read.
pub data MayRefuse (orig : HostParts) : Option (HostParts × List BalanceTask) → Type 0 where
  no_parts :
      {o : Option (HostParts × List BalanceTask)}
      → (total length orig == 0 || length orig == 0) ≡ true
      → MayRefuse orig o
  not_moved : MayRefuse orig none
  one_host :
      {n : HostParts} → {ts : List BalanceTask} → length n < 2 → MayRefuse orig (some (n, ts))
  part_twice : {o : Option (HostParts × List BalanceTask)} → (EachOnce orig → ⊥) → MayRefuse orig o

-- What a plan comes to: an error that has a reason, or an allocation with as many copies of each part as before.
pub data Planned (m : HostParts) (moved : Option (HostParts × List BalanceTask))
    : Outcome → Type 0 where
  gives_none : MayRefuse m moved → Planned m moved refused
  plans :
      {n : HostParts}
      → {ts : List BalanceTask} → ((p : ℕ) → copies p n ≡ copies p m)
      → IsMap n
      → (EachOnce m → EachOnce n)
      → Planned m moved (balanced n ts)

count-IsSum : (p : ℕ) → IsSum (count p)
unfolding count
count-IsSum p = record { empty = refl; append = count-append p }

length-IsSum : IsSum length
length-IsSum = record { empty = refl; append = length-append }

Spread-Planned :
    (orig n : HostParts)
    → ((p : ℕ) → copies p n ≡ copies p orig)
    → (EachOnce orig → EachOnce n)
    → {moved : Option (HostParts × List BalanceTask)} → {o : Outcome} → Spread n o
    → Planned orig moved o
Spread-Planned orig n same once (gives_up no_plan) = gives_none (part_twice (λ o. no_plan (once o)))
Spread-Planned orig n same once (ends x) =
    plans (λ p. x.copied p ∙ same p) x.is_map (λ o. x.once (once o))

transferred-Planned :
    (fuel all : ℕ)
    → (orig m : HostParts) → (gone : List HostAddr) → IsMap m
    → ((w : List ℕ → ℕ) → IsSum w → total w m + w (parts_together gone orig) ≡ total w orig)
    → (EachOnce orig → EachOnce m)
    → all ≡ total length orig
    → all * all < fuel
    → (o : Option (HostParts × List BalanceTask))
    → ((n : HostParts)
        → (ts : List BalanceTask) → o ≡ some (n, ts)
        → Given m (parts_together gone orig) n)
    → Planned orig o (balance_transferred fuel all o)
transferred-Planned fuel all orig m gone u sums once whole enough none g = gives_none not_moved
transferred-Planned fuel all orig m gone u sums once whole enough (some (n, ts)) g =
    let given = g n ts refl in
    let load : total length n ≡ all =
      omega (arith, given.sums length length-IsSum, sums length length-IsSum, whole) in
    let few : total square n < fuel =
      omega (arith, total-square n, ap (λ (t : ℕ). t * t) load, enough) in
    elim (Bool-cases (ltb (length n) 2)) [
      | inl small ↦ rw small (gives_none (one_host (ground arith)))
      | inr large ↦ rw large (
          subst (λ (k : ℕ). Planned orig (some (n, ts)) (balance_parts fuel k n ts)) load
            (Spread-Planned orig n
              (λ (p : ℕ).
                omega (arith, given.sums (count p) (count-IsSum p), sums (count p) (count-IsSum p)))
              (λ x. given.once (once x))
              (balance_parts-Spread n ts fuel given.is_map (ground arith) few)))
    ]

-- The allocation that a plan balances.
pub gen_tasks-Kept :
    (fuel replica : ℕ)
    → (orig : HostParts) → (active lost : List HostAddr) → IsMap orig
    → AllApart lost
    → total length orig * total length orig < fuel
    → Planned orig
        (transferred replica orig active lost)
        (gen_tasks fuel replica (total length orig) orig active lost)
unfolding gen_tasks confirmed_parts
gen_tasks-Kept fuel replica orig active lost u d enough =
    let all = total length orig in
    let gone = lost_hosts orig active lost in
    let expand = new_hosts orig active in
    let m = erase_hosts gone (add_hosts expand orig) in
    let is_map = erase_hosts-IsMap gone (add_hosts expand orig) (add_hosts-IsMap expand orig u) in
    let sums : (w : List ℕ → ℕ)
        → IsSum w
        → total w m + w (parts_together gone orig) ≡ total w orig =
      λ w s. omega (
        arith,
        total-erase_hosts w s gone (add_hosts expand orig) (lost_hosts-AllApart orig active lost d),
        sum_of-add_hosts w s expand gone orig,
        total-add_hosts w s expand orig,
        sum_of-together w s gone orig,
      ) in
    elim (Bool-cases (all == 0 || length orig == 0)) [
      | inl bad ↦ rw bad (gives_none (no_parts bad))
      | inr good ↦ rw good (
          transferred-Planned fuel all orig m gone is_map sums
            (λ o.
              erase_hosts-EachOnce gone (add_hosts expand orig) (add_hosts-EachOnce expand orig o))
            refl enough (transfer_hosts orig active replica gone (m, []))
            (λ n ts e. transfer_hosts-Given orig active replica gone m n [] ts is_map e))
    ]
