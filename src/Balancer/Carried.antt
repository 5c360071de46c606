-- ===== src/Balancer/Carried.antt =====
-- Balancer.cpp, genTasks: the tasks of a plan carry the parts to where its allocation has them.
use nebula_storage.Prelude.{
  ℕ, ◌+◌, ◌*◌, ◌<◌, ◌≡◌, refl, ◌∙◌, ◌||◌, List, [], ◌∷◌, ◌++◌, Option, none, some, arith, length,
  ltb, ◌==◌, Bool-cases, inl, inr,
}
use nebula_storage.Raft.{HostAddr}
use nebula_storage.Balancer.{
  HostParts, BalanceTask, find_parts, parts_of, add_hosts, add_host, add_at, erase_hosts, has_host,
  lost_hosts, new_hosts, confirmed_parts, transfer_hosts, Outcome, refused, balanced, unfinished,
  balance_transferred, gen_tasks, balance_parts,
}
use nebula_storage.Balancer.Measure.{total, count}
use nebula_storage.Balancer.Sorted.{IsMap}
use nebula_storage.Balancer.Transfer.{AllApart, add_hosts-IsMap, erase_hosts-IsMap}
use nebula_storage.Balancer.Flow.{at_host, leaves, comes}
use nebula_storage.Balancer.Rounds.{
  Carries, AllMove, AllMoveIn, balance_parts-Carries, balance_parts-AllMoveIn,
}
use nebula_storage.Balancer.Sends.{
  Sends, of_hosts, of_hosts-apart, transfer_hosts-Sends, find_parts-erase_hosts,
}
use nebula_storage.Balancer.Tasks.{Planned, transferred, gen_tasks-Kept, lost_hosts-AllApart}

-- The tasks carry every part from where it is at first to where the allocation has it, each from one host to another.
abbrev pub IsCarriedOut : HostParts → Outcome → Type 0
IsCarriedOut orig (balanced n ts) =
    ((h : HostAddr) (p : ℕ) → at_host h p n + leaves h p ts ≡ at_host h p orig + comes h p ts)
    × AllMove ts
IsCarriedOut orig refused = Unit
IsCarriedOut orig unfinished = Unit

parts_of-append : (h k : HostAddr) (m : HostParts) → parts_of h (m ++ (k, []) ∷ []) ≡ parts_of h m
unfolding find_parts
parts_of-append h k [] = ground arith
parts_of-append h k ((x, ps) ∷ m) = ground (arith, parts_of-append h k m)

parts_of-add_at :
    (h k : HostAddr) (m : HostParts) (o : Option (List ℕ))
    → parts_of h (add_at k m o) ≡ parts_of h m
parts_of-add_at h k m none = parts_of-append h k m
parts_of-add_at h k m (some ps) = refl

parts_of-add_hosts :
    (h : HostAddr) (hs : List HostAddr) (m : HostParts) → parts_of h (add_hosts hs m) ≡ parts_of h m
unfolding add_hosts add_host
parts_of-add_hosts h [] m = refl
parts_of-add_hosts h (k ∷ hs) m =
    parts_of-add_hosts h hs (add_host k m) ∙ parts_of-add_at h k m (find_parts k m)

-- Where the tasks so far have carried the parts of the hosts given up, the loop's tasks do the rest.
balanced-IsCarriedOut :
    (orig m : HostParts) (taken : HostAddr → ℕ → ℕ) (n : HostParts) (ts : List BalanceTask)
    → ((h : HostAddr) (p : ℕ) → at_host h p m + taken h p ≡ at_host h p orig)
    → Sends taken m [] n ts
    → (o : Outcome) → Carries n ts o
    → AllMoveIn o
    → IsCarriedOut orig o
unfolding leaves comes
balanced-IsCarriedOut orig m taken n ts stays s refused c a = tt
balanced-IsCarriedOut orig m taken n ts stays s unfinished c a = tt
balanced-IsCarriedOut orig m taken n ts stays s (balanced x us) c a =
    (λ h p. omega (arith, stays h p, s.arrived h p, s.left h p, c h p), a)

module _ (orig m : HostParts) (gone : List HostAddr) where
  transferred-IsCarriedOut :
      (fuel all : ℕ)
      → ((h : HostAddr) (p : ℕ) → at_host h p m + of_hosts orig gone h p ≡ at_host h p orig)
      → (o : Option (HostParts × List BalanceTask))
      → ((n : HostParts) (ts : List BalanceTask)
          → o ≡ some (n, ts)
          → Sends (of_hosts orig gone) m [] n ts)
      → IsCarriedOut orig (balance_transferred fuel all o)
  transferred-IsCarriedOut fuel all stays none s = tt
  transferred-IsCarriedOut fuel all stays (some (n, ts)) s =
      let sent = s n ts refl in
      elim (Bool-cases (ltb (length n) 2)) [
        | inl small ↦ rw small tt
        | inr large ↦ rw large (
            balanced-IsCarriedOut orig m (of_hosts orig gone) n ts stays sent
              (balance_parts fuel all n ts) (balance_parts-Carries fuel all n ts)
              (balance_parts-AllMoveIn fuel all n ts (sent.moves tt)))
      ]

-- Without the hosts given up, a part is where it was, but on those.
at_host-confirmed :
    (orig : HostParts) (expand gone : List HostAddr) (h : HostAddr) (p : ℕ)
    → IsMap orig
    → AllApart gone
    → at_host h p (erase_hosts gone (add_hosts expand orig)) + of_hosts orig gone h p
      ≡ at_host h p orig
unfolding count
at_host-confirmed orig expand gone h p u d =
    let erased =
      find_parts-erase_hosts h gone (add_hosts expand orig) (add_hosts-IsMap expand orig u) in
    let added = parts_of-add_hosts h expand orig in
    let taken = of_hosts-apart orig gone h p d in
    elim (Bool-cases (has_host h gone)) [
      | inl out ↦ rw (erased, taken, out) (omega arith)
      | inr stays ↦ rw (erased, taken, stays, added) (omega arith)
    ]

-- A plan for a space is found or refused within as many rounds as the square of the number of its parts' copies
-- on the hosts, and one more, where that number is the total of the parts that genTasks is given, the
-- allocation names each host once, and no host is named twice among those given up. It is refused only where there
-- are no parts or hosts, the loop over the parts of lost hosts has failed, fewer than two hosts are left
-- to balance, or a host has a part twice to begin with. Where there is a
-- plan, its tasks carry every part from the hosts that have it to those that have it in the plan's allocation, also
-- from the hosts that are lost or given up: for each host and part, what is there at first and what
-- the tasks bring is what is there in the end and what they take away; each task is from one host to
-- another. Every part has as many copies in that allocation as before, and no host has a part twice there
-- unless one had before.
pub gen_tasks-Planned :
    (fuel replica : ℕ)
    → (orig : HostParts) → (active lost : List HostAddr) → IsMap orig
    → AllApart lost
    → total length orig * total length orig < fuel
    → Planned orig
        (transferred replica orig active lost)
        (gen_tasks fuel replica (total length orig) orig active lost)
      × IsCarriedOut orig (gen_tasks fuel replica (total length orig) orig active lost)
unfolding gen_tasks confirmed_parts
gen_tasks-Planned fuel replica orig active lost u d enough =
    let all = total length orig in
    let gone = lost_hosts orig active lost in
    let expand = new_hosts orig active in
    let m = erase_hosts gone (add_hosts expand orig) in
    let grown = add_hosts-IsMap expand orig u in
    let is_map = erase_hosts-IsMap gone (add_hosts expand orig) grown in
    let apart = lost_hosts-AllApart orig active lost d in
    (
      gen_tasks-Kept fuel replica orig active lost u d enough,
      elim (Bool-cases (all == 0 || length orig == 0)) [
        | inl bad ↦ rw bad tt
        | inr good ↦ rw good (
            transferred-IsCarriedOut orig m gone fuel all
              (λ h p. at_host-confirmed orig expand gone h p u apart)
              (transfer_hosts orig active replica gone (m, []))
              (λ n ts e.
                transfer_hosts-Sends orig active replica gone m n [] ts is_map
                  (λ g out.
                    find_parts-erase_hosts g gone (add_hosts expand orig) grown ∙ rw out refl)
                  e))
      ],
    )
