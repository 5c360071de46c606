-- ===== src/Balancer/Transfer.antt =====
-- Balancer.cpp, genTasks: the parts of hosts that are lost go to hosts that do not have them.
use nebula_storage.Prelude.{
  ℕ, ◌+◌, ◌≡◌, refl, ap, ◌∙◌, subst, true, false, List, [], ◌∷◌, ◌++◌, Option, none, some, arith,
  length, if◌then◌else◌, Bool-cases, Option-cases, inl, inr, All,
}
use nebula_storage.Raft.{HostAddr, addr_eq, addr_eq_iff}
use nebula_storage.Balancer.{
  HostParts, find_parts, parts_of, put_parts, erase_parts, add_host, add_hosts, erase_hosts,
  has_host, has_part, host_without, host_with_minimal_parts, sorted_hosts_by_parts,
}
use nebula_storage.Balancer.Measure.{total, total-put_parts, count, count-append, has_part-count}
use nebula_storage.Balancer.Sorted.{IsMap, InMap, sorted-InMap, put_parts-IsMap}
use nebula_storage.Balancer.Update.{
  IsOnce, EachOnce, put_parts-EachOnce, find_parts-IsOnce, length-put_parts,
}

-- A weight that adds up over the parts.
pub record IsSum (w : List ℕ → ℕ) : Type 0 where
  pub empty : w [] ≡ 0
  pub append : (xs ys : List ℕ) → w (xs ++ ys) ≡ w xs + w ys

module _ (w : List ℕ → ℕ) (s : IsSum w) where
  total-erase_parts :
      (h : HostAddr) → (m : HostParts) → total w (erase_parts h m) + w (parts_of h m) ≡ total w m
  unfolding total erase_parts find_parts
  total-erase_parts h [] = let e = s.empty in omega arith
  total-erase_parts h ((k, ps) ∷ m) = elim (Bool-cases (addr_eq k h)) [
    | inl same ↦ rw same (omega arith)
    | inr other ↦ rw other (omega (arith, total-erase_parts h m))
  ]

  total-append : (m n : HostParts) → total w (m ++ n) ≡ total w m + total w n
  unfolding total
  total-append [] n = omega arith
  total-append ((k, ps) ∷ m) n = omega (arith, total-append m n)

  total-add_host : (h : HostAddr) → (m : HostParts) → total w (add_host h m) ≡ total w m
  unfolding total add_host
  total-add_host h m =
      let e = s.empty in
      elim (Option-cases (find_parts h m)) [
        | inl z ↦ rw z (omega (arith, total-append m ((h, []) ∷ []), e))
        | inr (ps, z) ↦ rw z refl
      ]

  pub total-add_hosts :
      (hs : List HostAddr) → (m : HostParts) → total w (add_hosts hs m) ≡ total w m
  unfolding add_hosts
  total-add_hosts [] m = refl
  total-add_hosts (h ∷ hs) m = total-add_hosts hs (add_host h m) ∙ total-add_host h m

  -- What the hosts hold together.
  abbrev pub sum_of : List HostAddr → HostParts → ℕ
  sum_of [] m = 0
  sum_of (h ∷ hs) m = w (parts_of h m) + sum_of hs m

find_parts-erase_parts :
    (h k : HostAddr)
    → (m : HostParts) → addr_eq h k ≡ false
    → find_parts k (erase_parts h m) ≡ find_parts k m
unfolding find_parts erase_parts
find_parts-erase_parts h k [] n = refl
find_parts-erase_parts h k ((x, ps) ∷ m) n =
    ground (arith, addr_eq_iff x h, addr_eq_iff x k, addr_eq_iff h k, find_parts-erase_parts h k m)

find_parts-erase_none :
    (h k : HostAddr)
    → (m : HostParts) → find_parts k m ≡ none
    → find_parts k (erase_parts h m) ≡ none
unfolding find_parts erase_parts
find_parts-erase_none h k [] e = refl
find_parts-erase_none h k ((x, ps) ∷ m) e = ground (arith, find_parts-erase_none h k m)

pub erase_parts-IsMap : (h : HostAddr) → (m : HostParts) → IsMap m → IsMap (erase_parts h m)
unfolding erase_parts
erase_parts-IsMap h [] u = tt
erase_parts-IsMap h ((x, ps) ∷ m) (fresh, u) = elim (Bool-cases (addr_eq x h)) [
  | inl e ↦ rw e u
  | inr e ↦ rw e (find_parts-erase_none h x m fresh, erase_parts-IsMap h m u)
]

pub erase_hosts-IsMap : (hs : List HostAddr) → (m : HostParts) → IsMap m → IsMap (erase_hosts hs m)
unfolding erase_hosts
erase_hosts-IsMap [] m u = u
erase_hosts-IsMap (h ∷ hs) m u = erase_hosts-IsMap hs (erase_parts h m) (erase_parts-IsMap h m u)

find_parts-append :
    (h k : HostAddr)
    → (m : HostParts)
    → find_parts k (m ++ (h, []) ∷ [])
      ≡ elim (find_parts k m) [ some ps ↦ some ps | none ↦ if addr_eq h k then some [] else none ]
unfolding find_parts
find_parts-append h k [] = refl
find_parts-append h k ((x, ps) ∷ m) = ground (arith, find_parts-append h k m)

append-IsMap :
    (h : HostAddr) → (m : HostParts) → find_parts h m ≡ none → IsMap m → IsMap (m ++ (h, []) ∷ [])
unfolding find_parts
append-IsMap h [] n u = (refl, tt)
append-IsMap h ((x, ps) ∷ m) n (fresh, u) =
    let new : addr_eq h x ≡ false = ground (arith, addr_eq_iff x h, addr_eq_iff h x) in
    (ground (arith, find_parts-append h x m), append-IsMap h m (ground arith) u)

add_host-IsMap : (h : HostAddr) → (m : HostParts) → IsMap m → IsMap (add_host h m)
unfolding add_host
add_host-IsMap h m u = elim (Option-cases (find_parts h m)) [
  | inl z ↦ rw z (append-IsMap h m z u)
  | inr (ps, z) ↦ rw z u
]

pub add_hosts-IsMap : (hs : List HostAddr) → (m : HostParts) → IsMap m → IsMap (add_hosts hs m)
unfolding add_hosts
add_hosts-IsMap [] m u = u
add_hosts-IsMap (h ∷ hs) m u = add_hosts-IsMap hs (add_host h m) (add_host-IsMap h m u)

-- A new host holds nothing.
parts_of-add_host : (h k : HostAddr) → (m : HostParts) → parts_of k (add_host h m) ≡ parts_of k m
unfolding add_host
parts_of-add_host h k m = elim (Option-cases (find_parts h m)) [
  | inl z ↦ rw z (ground (arith, find_parts-append h k m))
  | inr (ps, z) ↦ rw z refl
]

pub parts_of-add_hosts :
    (hs : List HostAddr)
    → (k : HostAddr) → (m : HostParts) → parts_of k (add_hosts hs m) ≡ parts_of k m
unfolding add_hosts
parts_of-add_hosts [] k m = refl
parts_of-add_hosts (h ∷ hs) k m = parts_of-add_hosts hs k (add_host h m) ∙ parts_of-add_host h k m

has_host_self : (h : HostAddr) → (hs : List HostAddr) → has_host h (h ∷ hs) ≡ true
unfolding has_host
has_host_self h hs = ground (arith, addr_eq_iff h h)

-- No host stands twice in the list.
abbrev pub AllApart : List HostAddr → Type 0
AllApart [] = Unit
AllApart (h ∷ hs) = (has_host h hs ≡ false) × AllApart hs

module _ (w : List ℕ → ℕ) (s : IsSum w) where
  sum_of-erase_parts :
      (h : HostAddr)
      → (hs : List HostAddr) → (m : HostParts) → has_host h hs ≡ false
      → sum_of w s hs (erase_parts h m) ≡ sum_of w s hs m
  unfolding has_host
  sum_of-erase_parts h [] m n = refl
  sum_of-erase_parts h (k ∷ hs) m n =
      let other : addr_eq h k ≡ false = ground (arith, addr_eq_iff h k, addr_eq_iff k h) in
      rw (find_parts-erase_parts h k m other)
        (omega (arith, sum_of-erase_parts h hs m (ground arith)))

  pub total-erase_hosts :
      (hs : List HostAddr)
      → (m : HostParts) → AllApart hs
      → total w (erase_hosts hs m) + sum_of w s hs m ≡ total w m
  unfolding erase_hosts
  total-erase_hosts [] m d = omega arith
  total-erase_hosts (h ∷ hs) m (n, d) = omega (
    arith,
    total-erase_hosts hs (erase_parts h m) d,
    total-erase_parts w s h m,
    sum_of-erase_parts h hs m n,
  )

  pub sum_of-add_hosts :
      (hs ks : List HostAddr) → (m : HostParts) → sum_of w s ks (add_hosts hs m) ≡ sum_of w s ks m
  sum_of-add_hosts hs [] m = refl
  sum_of-add_hosts hs (k ∷ ks) m =
      rw (parts_of-add_hosts hs k m) (omega (arith, sum_of-add_hosts hs ks m))

or_host : HostAddr → Option HostAddr → HostAddr
or_host h none = h
or_host h (some k) = k

-- A host that is found has no copy of the part.
host_without-lacks :
    (m : HostParts)
    → (p : ℕ) → (hs : List (HostAddr × ℕ)) → (h : HostAddr) → All (InMap m) hs
    → host_without m p hs ≡ some h
    → (ps : List ℕ) × (find_parts h m ≡ some ps) × (has_part p ps ≡ false)
unfolding host_without or_host
host_without-lacks m p [] h a e = absurd (cc)
host_without-lacks m p (x ∷ xs) h (i, a) e = elim (Bool-cases (has_part p (parts_of x.0 m))) [
  | inl has ↦ host_without-lacks m p xs h a (rw has at e)
  | inr lacks ↦
      let found : ◌≡◌ {A = Option HostAddr} (some x.0) (some h) = rw lacks at e in
      subst (λ (k : HostAddr). (ps : List ℕ) × (find_parts k m ≡ some ps) × (has_part p ps ≡ false))
        (ap (or_host x.0) found) (i.parts, i.found, rw i.found at lacks)
]

pub minimal-lacks :
    (m : HostParts)
    → (p : ℕ) → (h : HostAddr) → IsMap m
    → host_with_minimal_parts m p ≡ some h
    → (ps : List ℕ) × (find_parts h m ≡ some ps) × (has_part p ps ≡ false)
unfolding host_with_minimal_parts
minimal-lacks m p h u e = host_without-lacks m p (sorted_hosts_by_parts m) h (sorted-InMap m u) e

-- What giving parts away does to an allocation: each part given has one more copy, all else stays.
pub record Given (m : HostParts) (ps : List ℕ) (n : HostParts) : Type 1 where
  pub sums : (w : List ℕ → ℕ) → IsSum w → total w n ≡ total w m + w ps
  pub is_map : IsMap n
  pub once : EachOnce m → EachOnce n
  pub hosts : length n ≡ length m

pub Given-none : (m : HostParts) → IsMap m → Given m [] m
Given-none m u = record {
  sums = λ w s. let e = s.empty in omega arith;
  is_map = u;
  once = λ o. o;
  hosts = refl;
}

pub Given-append :
    {a b c : HostParts} → {ps qs : List ℕ} → Given a ps b → Given b qs c → Given a (ps ++ qs) c
Given-append {a} {b} {c} {ps} {qs} x y = record {
  sums = λ w s.
      let one = x.sums w s in let two = y.sums w s in let more = s.append ps qs in omega arith;
  is_map = y.is_map;
  once = λ o. y.once (x.once o);
  hosts = y.hosts ∙ x.hosts;
}

append-IsOnce : (p : ℕ) → (ps : List ℕ) → IsOnce ps → has_part p ps ≡ false → IsOnce (ps ++ p ∷ [])
unfolding count
append-IsOnce p ps o lacks q =
    let here = o q in
    let absent = has_part-count p ps lacks in let more = count-append q ps (p ∷ []) in ground arith

pub Given-one :
    (m : HostParts)
    → (p : ℕ) → (h : HostAddr) → (ps : List ℕ) → IsMap m
    → find_parts h m ≡ some ps
    → has_part p ps ≡ false
    → Given m (p ∷ []) (put_parts h (ps ++ p ∷ []) m)
Given-one m p h ps u f lacks = record {
  sums = λ w s.
      let more = s.append ps (p ∷ []) in
      omega (arith, total-put_parts w h ps (ps ++ p ∷ []) m f, more);
  is_map = put_parts-IsMap h ps (ps ++ p ∷ []) m f u;
  once = λ o.
      put_parts-EachOnce h (ps ++ p ∷ []) m
        (append-IsOnce p ps (find_parts-IsOnce h ps m f o) lacks) o;
  hosts = length-put_parts h ps (ps ++ p ∷ []) m f;
}
