-- ===== src/Balancer/Sorted.antt =====
-- Balancer.cpp, sortedHostsByParts: the first of the sorted hosts is a smallest one, the last a largest.
use nebula_storage.Prelude.{
  suc, ap, ◌∙◌, ℕ, ◌*◌, ◌≤◌, ◌≡◌, refl, sym, subst, List, [], ◌∷◌, none, some, arith, leb, length,
  Bool-cases, inl, inr, All,
}
use nebula_storage.Raft.{HostAddr, addr_eq, addr_eq_iff}
use nebula_storage.Balancer.{
  HostParts, find_parts, put_parts, sizes, insert_host, sort_hosts, sorted_hosts_by_parts, back,
}
use nebula_storage.Balancer.Measure.{total}

insert_host-All :
    (P : HostAddr × ℕ → Type 0)
    → (x : HostAddr × ℕ) → (xs : List (HostAddr × ℕ)) → P x
    → All P xs
    → All P (insert_host x xs)
unfolding insert_host
insert_host-All P x [] h r = (h, tt)
insert_host-All P x (y ∷ ys) h (k, r) = elim (Bool-cases (leb x.1 y.1)) [
  | inl e ↦ rw e (h, (k, r))
  | inr e ↦ rw e (k, insert_host-All P x ys h r)
]

All-insert_host :
    (P : HostAddr × ℕ → Type 0)
    → (x : HostAddr × ℕ) → (xs : List (HostAddr × ℕ)) → All P (insert_host x xs)
    → P x × All P xs
unfolding insert_host
All-insert_host P x [] h = h
All-insert_host P x (y ∷ ys) h = elim (Bool-cases (leb x.1 y.1)) [
  | inl e ↦ (rw e at h)
  | inr e ↦
      let z : P y × All P (insert_host x ys) = rw e at h in
      let (k, r) = All-insert_host P x ys z.1 in (k, (z.0, r))
]

pub sort_hosts-All :
    (P : HostAddr × ℕ → Type 0) → (xs : List (HostAddr × ℕ)) → All P xs → All P (sort_hosts xs)
unfolding sort_hosts
sort_hosts-All P [] h = tt
sort_hosts-All P (x ∷ xs) (h, r) = insert_host-All P x (sort_hosts xs) h (sort_hosts-All P xs r)

pub All-sort_hosts :
    (P : HostAddr × ℕ → Type 0) → (xs : List (HostAddr × ℕ)) → All P (sort_hosts xs) → All P xs
unfolding sort_hosts
All-sort_hosts P [] h = tt
All-sort_hosts P (x ∷ xs) h =
    let (k, r) = All-insert_host P x (sort_hosts xs) h in (k, All-sort_hosts P xs r)

abbrev AtLeast : ℕ → HostAddr × ℕ → Type 0
AtLeast n y = n ≤ y.1

abbrev AtMost : ℕ → HostAddr × ℕ → Type 0
AtMost n y = y.1 ≤ n

All-AtLeast :
    (n k : ℕ) → k ≤ n → (xs : List (HostAddr × ℕ)) → All (AtLeast n) xs → All (AtLeast k) xs
All-AtLeast n k le [] h = tt
All-AtLeast n k le (x ∷ xs) (h, r) = (omega arith, All-AtLeast n k le xs r)

-- Each host is at most as large as those behind it.
abbrev pub IsOrdered : List (HostAddr × ℕ) → Type 0
IsOrdered [] = Unit
IsOrdered (x ∷ xs) = All (AtLeast x.1) xs × IsOrdered xs

insert_host-IsOrdered :
    (x : HostAddr × ℕ) → (xs : List (HostAddr × ℕ)) → IsOrdered xs → IsOrdered (insert_host x xs)
unfolding insert_host
insert_host-IsOrdered x [] h = (tt, tt)
insert_host-IsOrdered x (y ∷ ys) (h, r) = elim (Bool-cases (leb x.1 y.1)) [
  | inl e ↦ rw e ((ground arith, All-AtLeast y.1 x.1 (ground arith) ys h), (h, r))
  | inr e ↦ rw e (insert_host-All (AtLeast y.1) x ys (ground arith) h, insert_host-IsOrdered x ys r)
]

sort_hosts-IsOrdered : (xs : List (HostAddr × ℕ)) → IsOrdered (sort_hosts xs)
unfolding sort_hosts
sort_hosts-IsOrdered [] = tt
sort_hosts-IsOrdered (x ∷ xs) = insert_host-IsOrdered x (sort_hosts xs) (sort_hosts-IsOrdered xs)

back-All :
    (P : HostAddr × ℕ → Type 0)
    → (x : HostAddr × ℕ) → (xs : List (HostAddr × ℕ)) → P x
    → All P xs
    → P (back x xs)
back-All P x [] h r = h
back-All P x (y ∷ ys) h (k, r) = back-All P y ys k r

back-largest :
    (x : HostAddr × ℕ)
    → (xs : List (HostAddr × ℕ)) → IsOrdered (x ∷ xs)
    → All (AtMost (back x xs).1) (x ∷ xs)
back-largest x [] h = (omega arith, tt)
back-largest x (y ∷ ys) (h, r) =
    let rest = back-largest y ys r in (back-All (AtLeast x.1) x (y ∷ ys) (omega arith) h, rest)

-- The sizes in the sorted list are those of the map, the first is a least and the last a greatest one.
pub record Extremes (xs : List (HostAddr × ℕ)) (x : HostAddr × ℕ) (ys : List (HostAddr × ℕ))
    : Type 0 where
  pub least : All (λ (y : HostAddr × ℕ). x.1 ≤ y.1) xs
  pub greatest : All (λ (y : HostAddr × ℕ). y.1 ≤ (back x ys).1) xs

pub sort_hosts-Extremes :
    (xs : List (HostAddr × ℕ))
    → (x : HostAddr × ℕ) → (ys : List (HostAddr × ℕ)) → sort_hosts xs ≡ x ∷ ys
    → Extremes xs x ys
sort_hosts-Extremes xs x ys e =
    let ordered = subst IsOrdered e (sort_hosts-IsOrdered xs) in
    record {
      least =
          All-sort_hosts (AtLeast x.1) xs
            (subst (All (AtLeast x.1)) (sym e) (omega arith, ordered.0));
      greatest =
          All-sort_hosts (AtMost (back x ys).1) xs
            (subst (All (AtMost (back x ys).1)) (sym e) (back-largest x ys ordered));
    }

-- Every host stands once in the map.
abbrev pub IsMap : HostParts → Type 0
IsMap [] = Unit
IsMap ((h, ps) ∷ m) = (find_parts h m ≡ none) × IsMap m

-- A host of the map, with its size.
pub record InMap (m : HostParts) (x : HostAddr × ℕ) : Type 0 where
  pub parts : List ℕ
  pub found : find_parts x.0 m ≡ some parts
  pub size : length parts ≡ x.1

InMap-cons :
    (h : HostAddr)
    → (ps : List ℕ) → (m : HostParts) → find_parts h m ≡ none
    → (x : HostAddr × ℕ) → InMap m x
    → InMap ((h, ps) ∷ m) x
unfolding find_parts
InMap-cons h ps m fresh x i = record {
  parts = i.parts;
  found = let f = i.found in ground (arith, addr_eq_iff h x.0);
  size = i.size;
}

All-InMap-cons :
    (h : HostAddr)
    → (ps : List ℕ) → (m : HostParts) → find_parts h m ≡ none
    → (xs : List (HostAddr × ℕ)) → All (InMap m) xs
    → All (InMap ((h, ps) ∷ m)) xs
All-InMap-cons h ps m fresh [] r = tt
All-InMap-cons h ps m fresh (x ∷ xs) (i, r) =
    (InMap-cons h ps m fresh x i, All-InMap-cons h ps m fresh xs r)

sizes-InMap : (m : HostParts) → IsMap m → All (InMap m) (sizes m)
unfolding find_parts
sizes-InMap [] u = tt
sizes-InMap ((h, ps) ∷ m) (fresh, u) = (
  record { parts = ps; found = ground (arith, addr_eq_iff h h); size = refl },
  All-InMap-cons h ps m fresh (sizes m) (sizes-InMap m u),
)

pub sorted-InMap : (m : HostParts) → IsMap m → All (InMap m) (sorted_hosts_by_parts m)
unfolding sorted_hosts_by_parts
sorted-InMap m u = sort_hosts-All (InMap m) (sizes m) (sizes-InMap m u)

pub back-InMap :
    (m : HostParts)
    → (x : HostAddr × ℕ) → (xs : List (HostAddr × ℕ)) → All (InMap m) (x ∷ xs)
    → InMap m (back x xs)
back-InMap m x xs (i, r) = back-All (InMap m) x xs i r

find_parts-put_parts-none :
    (h k : HostAddr)
    → (ps qs : List ℕ) → (m : HostParts) → find_parts k m ≡ some ps
    → find_parts h m ≡ none
    → find_parts h (put_parts k qs m) ≡ none
unfolding find_parts put_parts
find_parts-put_parts-none h k ps qs [] f n = absurd (cc)
find_parts-put_parts-none h k ps qs ((x, rs) ∷ m) f n =
    ground (arith, addr_eq_iff x h, addr_eq_iff x k, find_parts-put_parts-none h k ps qs m)

pub put_parts-IsMap :
    (h : HostAddr)
    → (ps qs : List ℕ) → (m : HostParts) → find_parts h m ≡ some ps
    → IsMap m
    → IsMap (put_parts h qs m)
unfolding find_parts put_parts
put_parts-IsMap h ps qs [] f u = absurd (cc)
put_parts-IsMap h ps qs ((x, rs) ∷ m) f (fresh, u) = elim (Bool-cases (addr_eq x h)) [
  | inl e ↦ rw e (fresh, u)
  | inr e ↦ rw e (
    find_parts-put_parts-none x h ps qs m (rw e at f) fresh,
    put_parts-IsMap h ps qs m (rw e at f) u,
  )
]

-- The average lies between the least and the greatest size.
pub total-least :
    (n : ℕ)
    → (m : HostParts) → All (λ (y : HostAddr × ℕ). n ≤ y.1) (sizes m)
    → n * length m ≤ total length m
unfolding total
total-least n [] h = omega arith
total-least n ((k, ps) ∷ m) (h, r) = let rest = total-least n m r in omega (arith, rest)

pub total-greatest :
    (n : ℕ)
    → (m : HostParts) → All (λ (y : HostAddr × ℕ). y.1 ≤ n) (sizes m)
    → total length m ≤ n * length m
unfolding total
total-greatest n [] h = omega arith
total-greatest n ((k, ps) ∷ m) (h, r) = let rest = total-greatest n m r in omega (arith, rest)

length-insert_host :
    (x : HostAddr × ℕ) → (xs : List (HostAddr × ℕ)) → length (insert_host x xs) ≡ suc (length xs)
unfolding insert_host
length-insert_host x [] = refl
length-insert_host x (y ∷ ys) = ground (arith, length-insert_host x ys)

length-sort_hosts : (xs : List (HostAddr × ℕ)) → length (sort_hosts xs) ≡ length xs
unfolding sort_hosts
length-sort_hosts [] = refl
length-sort_hosts (x ∷ xs) =
    omega (arith, length-insert_host x (sort_hosts xs), length-sort_hosts xs)

length-sizes : (m : HostParts) → length (sizes m) ≡ length m
length-sizes [] = refl
length-sizes ((h, ps) ∷ m) = ap suc (length-sizes m)

pub length-sorted_hosts_by_parts : (m : HostParts) → length (sorted_hosts_by_parts m) ≡ length m
unfolding sorted_hosts_by_parts
length-sorted_hosts_by_parts m = length-sort_hosts (sizes m) ∙ length-sizes m
