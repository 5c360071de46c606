-- ===== src/Balancer/Plan.antt =====
-- Balancer.cpp, balanceParts: the rounds end, and they keep the copies of every part.
use nebula_storage.Prelude.{
  ℕ, zero, suc, ◌+◌, ◌*◌, ◌-◌, ◌/◌, ◌<◌, ◌≤◌, ◌≡◌, ◌≢◌, refl, sym, ap, ◌∙◌, subst, false, ◌||◌,
  List, [], ◌∷◌, ◌++◌, Option, none, some, arith, ltb, length, Bool-cases, inl, inr, All,
}
use native.Mathlib.Nat.{div-mul-le_self, lt-div-mul-add, div-lt_iff_lt-mul, le_of_mul-le-mul_right}
use nebula_storage.Raft.{HostAddr, addr_eq, addr_eq_iff}
use nebula_storage.Balancer.{
  HostParts, BalanceTask, find_parts, or_empty, sizes, sorted_hosts_by_parts, back, sort_parts,
  set_difference, move_parts, tasks_of, Outcome, refused, balanced, after_moves, balance_round,
  balance_loop, min_load, max_load, balance_parts,
}
use nebula_storage.Balancer.Measure.{total, square, length-sort_parts}
use nebula_storage.Balancer.Sorted.{
  length-sorted_hosts_by_parts, Extremes, sort_hosts-Extremes, IsMap, InMap, sorted-InMap,
  back-InMap, total-least, total-greatest,
}
use nebula_storage.Balancer.Moves.{Between, move_parts-Moved, move_parts-level}
use nebula_storage.Balancer.Difference.{difference-answers}
use nebula_storage.Balancer.Update.{
  EachOnce, find_parts-IsOnce, Updated, Moved-Updated, Moved-progress, moved_map, sorted-Updated,
}

-- The loads that the rounds aim at, for the parts and hosts that there are.
pub record Loads (lo hi : ℕ) (m : HostParts) : Type 0 where
  pub floor : lo * length m ≤ total length m
  pub ceil : total length m ≤ hi * length m
  pub close : hi ≤ lo + 1

Updated-Loads : (lo hi : ℕ) → (m n : HostParts) → Updated m n → Loads lo hi m → Loads lo hi n
Updated-Loads lo hi m n u l = record {
  floor = rw (u.hosts, u.load) l.floor;
  ceil = rw (u.hosts, u.load) l.ceil;
  close = l.close;
}

-- The largest host is at or above the floor, the smallest at or below the ceiling.
sorted-Between :
    (lo hi : ℕ)
    → (m : HostParts) → (x : HostAddr × ℕ) → (xs : List (HostAddr × ℕ)) → (ps qs : List ℕ)
    → Loads lo hi m
    → 0 < length m
    → Extremes (sizes m) x xs
    → length ps ≡ (back x xs).1
    → length qs ≡ x.1
    → Between lo hi (sort_parts ps) (sort_parts qs)
sorted-Between lo hi m x xs ps qs l some_host e big small =
    let above = total-greatest (back x xs).1 m e.greatest in
    let below = total-least x.1 m e.least in
    let floor = l.floor in
    let ceil = l.ceil in
    let up =
      le_of_mul-le-mul_right {m = lo} {n = (back x xs).1} (omega (arith, floor, above)) some_host in
    let down = le_of_mul-le-mul_right {m = x.1} {n = hi} (omega (arith, ceil, below)) some_host in
    record {
      above = omega (arith, up, big, length-sort_parts ps);
      below = omega (arith, down, small, length-sort_parts qs);
      close = l.close;
    }

-- What the rounds come to: they end, each part is on as many hosts as before, and no host has a part
-- twice unless one had before; they are refused only where one had.
pub data Spread (m : HostParts) : Outcome → Type 0 where
  gives_up : (EachOnce m → ⊥) → Spread m refused
  ends : {n : HostParts} → {ts : List BalanceTask} → Updated m n → Spread m (balanced n ts)

Updated-self : (m : HostParts) → IsMap m → Updated m m
Updated-self m u = record {
  copied = λ p. refl;
  is_map = u;
  once = λ o. o;
  hosts = refl;
  load = refl;
}

Updated-trans : {a b c : HostParts} → Updated a b → Updated b c → Updated a c
Updated-trans x y = record {
  copied = λ p. y.copied p ∙ x.copied p;
  is_map = y.is_map;
  once = λ o. y.once (x.once o);
  hosts = y.hosts ∙ x.hosts;
  load = y.load ∙ x.load;
}

Updated-Spread : {a b : HostParts} → {o : Outcome} → Updated a b → Spread b o → Spread a o
Updated-Spread x (gives_up no_plan) = gives_up (λ o. no_plan (x.once o))
Updated-Spread x (ends y) = ends (Updated-trans x y)

-- What the rounds that follow are known to do.
abbrev Continues : (HostParts → List BalanceTask → Outcome) → ℕ → ℕ → ℕ → Type 0
Continues next lo hi fuel =
    (n : HostParts)
    → (ts : List BalanceTask) → IsMap n
    → 0 < length n
    → Loads lo hi n
    → total square n < fuel
    → Spread n (next n ts)

after_moves-Spread :
    (next : HostParts → List BalanceTask → Outcome)
    → (lo hi fuel : ℕ) → (src dst : HostAddr) → (m : HostParts) → (tasks : List BalanceTask)
    → (f t ms : List ℕ) → Continues next lo hi fuel
    → 0 < length m
    → Loads lo hi m
    → Updated m (moved_map src dst f t m)
    → (ms ≢ [] → total square (moved_map src dst f t m) < fuel)
    → Spread m (after_moves next src dst m tasks (some (f, t, ms)))
after_moves-Spread next lo hi fuel src dst m tasks f t [] c some_host l u less = ends u
after_moves-Spread next lo hi fuel src dst m tasks f t (p ∷ ms) c some_host l u less =
    Updated-Spread u (
      c (moved_map src dst f t m) (tasks ++ tasks_of src dst (p ∷ ms)) u.is_map
        (omega (arith, some_host, u.hosts)) (Updated-Loads lo hi m (moved_map src dst f t m) u l)
        (less (λ e. omega (arith, ap length e))))

round_self :
    (next : HostParts → List BalanceTask → Outcome)
    → (lo hi : ℕ) → (h : HostAddr) → (ps ds f t ms : List ℕ) → (m : HostParts)
    → (tasks : List BalanceTask) → IsMap m
    → find_parts h m ≡ some ps
    → Between lo hi (sort_parts ps) (sort_parts ps)
    → move_parts lo hi ds (sort_parts ps) (sort_parts ps) ≡ some (f, t, ms)
    → Spread m (after_moves next h h m tasks (some (f, t, ms)))
round_self next lo hi h ps ds f t ms m tasks u a b e =
    let s = sort_parts ps in
    subst (λ (z : List ℕ × List ℕ × List ℕ). Spread m (after_moves next h h m tasks (some z)))
      (move_parts-level lo hi ds s s f t ms b (omega arith) e) (ends (sorted-Updated h ps m u a))

round-one :
    (next : HostParts → List BalanceTask → Outcome)
    → (lo hi : ℕ) → (src dst : HostAddr) → (ps qs ds f t ms : List ℕ) → (m : HostParts)
    → (tasks : List BalanceTask) → src ≡ dst
    → IsMap m
    → find_parts src m ≡ some ps
    → find_parts dst m ≡ some qs
    → Between lo hi (sort_parts ps) (sort_parts qs)
    → move_parts lo hi ds (sort_parts ps) (sort_parts qs) ≡ some (f, t, ms)
    → Spread m (after_moves next src dst m tasks (some (f, t, ms)))
round-one next lo hi src dst ps qs ds f t ms m tasks one u a b w e =
    let there = subst (λ (d : HostAddr). find_parts d m ≡ some qs) (sym one) b in
    let same : ps ≡ qs = ap or_empty (sym a ∙ there) in
    subst (λ (d : HostAddr). Spread m (after_moves next src d m tasks (some (f, t, ms)))) one
      (subst
        (λ (q : List ℕ).
          Between lo hi (sort_parts ps) (sort_parts q)
          → move_parts lo hi ds (sort_parts ps) (sort_parts q) ≡ some (f, t, ms)
          → Spread m (after_moves next src src m tasks (some (f, t, ms))))
        same (round_self next lo hi src ps ds f t ms m tasks u a) w e)

round-apart :
    (next : HostParts → List BalanceTask → Outcome)
    → (lo hi fuel : ℕ) → (src dst : HostAddr) → (ps qs ds f t ms : List ℕ) → (m : HostParts)
    → (tasks : List BalanceTask) → Continues next lo hi fuel
    → IsMap m
    → 0 < length m
    → Loads lo hi m
    → total square m < suc fuel
    → addr_eq src dst ≡ false
    → find_parts src m ≡ some ps
    → find_parts dst m ≡ some qs
    → Between lo hi (sort_parts ps) (sort_parts qs)
    → move_parts lo hi ds (sort_parts ps) (sort_parts qs) ≡ some (f, t, ms)
    → Spread m (after_moves next src dst m tasks (some (f, t, ms)))
round-apart next lo hi fuel src dst ps qs ds f t ms m tasks c u some_host l enough n a b w e =
    let v = move_parts-Moved lo hi ds (sort_parts ps) (sort_parts qs) f t ms w e in
    after_moves-Spread next lo hi fuel src dst m tasks f t ms c some_host l
      (Moved-Updated src dst ps qs f t ms m u n a b v)
      (λ some_moved.
        omega (arith, enough, Moved-progress src dst ps qs f t ms m n a b v some_moved))

round-moves :
    (next : HostParts → List BalanceTask → Outcome)
    → (lo hi fuel : ℕ) → (src dst : HostAddr) → (ps qs ds : List ℕ) → (m : HostParts)
    → (tasks : List BalanceTask) → Continues next lo hi fuel
    → IsMap m
    → 0 < length m
    → Loads lo hi m
    → total square m < suc fuel
    → find_parts src m ≡ some ps
    → find_parts dst m ≡ some qs
    → Between lo hi (sort_parts ps) (sort_parts qs)
    → (EachOnce m → move_parts lo hi ds (sort_parts ps) (sort_parts qs) ≢ none)
    → (o : Option (List ℕ × List ℕ × List ℕ))
    → move_parts lo hi ds (sort_parts ps) (sort_parts qs) ≡ o
    → Spread m (after_moves next src dst m tasks o)
round-moves next lo hi fuel src dst ps qs ds m tasks c u some_host l enough a b w answers none e =
    gives_up (λ o. answers o e)
round-moves next lo hi fuel src dst ps qs ds m tasks c u some_host l enough a b w answers
      (some (f, t, ms)) e =
    elim (Bool-cases (addr_eq src dst)) [
      | inr n ↦
          round-apart next lo hi fuel src dst ps qs ds f t ms m tasks c u some_host l enough n a b w
            e
      | inl same ↦
          round-one next lo hi src dst ps qs ds f t ms m tasks ((addr_eq_iff src dst).0 same) u a b
            w e
    ]

round-Spread :
    (next : HostParts → List BalanceTask → Outcome)
    → (lo hi fuel : ℕ) → (m : HostParts) → (tasks : List BalanceTask) → Continues next lo hi fuel
    → IsMap m
    → 0 < length m
    → Loads lo hi m
    → total square m < suc fuel
    → (xs : List (HostAddr × ℕ)) → sorted_hosts_by_parts m ≡ xs
    → Spread m (balance_round lo hi next m tasks xs)
unfolding balance_round sorted_hosts_by_parts
round-Spread next lo hi fuel m tasks c u some_host l enough [] e =
    absurd (omega (arith, some_host, ap length e, length-sorted_hosts_by_parts m))
round-Spread next lo hi fuel m tasks c u some_host l enough (x ∷ xs) e =
    let in_map = subst (All (InMap m)) e (sorted-InMap m u) in
    let big = back-InMap m x xs in_map in
    let small = in_map.0 in
    let src = (back x xs).0 in
    let w =
      sorted-Between lo hi m x xs big.parts small.parts l some_host
        (sort_hosts-Extremes (sizes m) x xs e) big.size small.size in
    let moves =
      round-moves next lo hi fuel src x.0 big.parts small.parts
        (set_difference (sort_parts big.parts) (sort_parts small.parts)) m tasks c u some_host l
        enough big.found small.found w
        (λ o.
          difference-answers lo hi big.parts small.parts
            (find_parts-IsOnce src big.parts m big.found o))
        _ refl in
    elim (Bool-cases (ltb hi (back x xs).1 || ltb x.1 lo)) [
      | inl go ↦ rw (go, big.found, small.found) moves
      | inr stop ↦ rw stop (ends (Updated-self m u))
    ]

balance_loop-Spread : (lo hi fuel : ℕ) → Continues (balance_loop lo hi fuel) lo hi fuel
unfolding balance_loop
balance_loop-Spread lo hi zero n ts u some_host l enough = absurd (omega (arith, enough))
balance_loop-Spread lo hi (suc fuel) n ts u some_host l enough =
    round-Spread (balance_loop lo hi fuel) lo hi fuel n ts (balance_loop-Spread lo hi fuel) u
      some_host l enough (sorted_hosts_by_parts n) refl

min_load-Loads :
    (m : HostParts)
    → 0 < length m
    → Loads (min_load (total length m) m) (max_load (total length m) m) m
min_load-Loads m some_host =
    let all = total length m in
    let n = length m in
    let below = lt-div-mul-add {a = all} {b = n} some_host in
    record {
      floor = div-mul-le_self all n;
      ceil = omega (arith, lt-div-mul-add {a = all + (n - 1)} {b = n} some_host, some_host);
      close =
          let close : (all + (n - 1)) / n < all / n + 2 =
            (div-lt_iff_lt-mul {k = n} {x = all + (n - 1)} {y = all / n + 2} some_host).1
              (omega (arith, below, some_host)) in
          omega (arith, close);
    }

-- balanceParts ends, for a total that counts the parts on the hosts, within as many rounds as the squares
-- of the hosts' sizes sum up to, and one more: it does not move parts back and forth. It succeeds where no
-- host has a part twice. Where it succeeds, each part is on as many hosts as before, no host has a part
-- twice unless one had before, and the hosts are the same number.
pub balance_parts-Spread :
    (m : HostParts)
    → (tasks : List BalanceTask) → (fuel : ℕ) → IsMap m
    → 0 < length m
    → total square m < fuel
    → Spread m (balance_parts fuel (total length m) m tasks)
unfolding balance_parts
balance_parts-Spread m tasks fuel u some_host enough =
    balance_loop-Spread (min_load (total length m) m) (max_load (total length m) m) fuel m tasks u
      some_host (min_load-Loads m some_host) enough
