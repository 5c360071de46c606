-- ===== src/Balancer/Sends.antt =====
-- Balancer.cpp, genTasks: the tasks that take the parts of lost hosts away.
use nebula_storage.Prelude.{
  ℕ, ◌+◌, ◌≡◌, refl, sym, ap, ◌∙◌, subst, true, false, List, [], ◌∷◌, ◌++◌, none, some, arith,
  if◌then◌else◌, Bool-cases, inl, inr, All-append, >>=-eq-some,
}
use nebula_storage.Raft.{HostAddr, addr_eq, addr_eq_iff}
use nebula_storage.Balancer.{
  HostParts, BalanceTask, find_parts, parts_of, put_parts, erase_parts, erase_hosts, has_host,
  check_replica, host_with_minimal_parts, transfer_lost_host, transfer_parts, transfer_hosts,
}
use nebula_storage.Balancer.Measure.{count, count-append}
use nebula_storage.Balancer.Sorted.{IsMap, put_parts-IsMap}
use nebula_storage.Balancer.Transfer.{minimal-lacks, AllApart, erase_parts-IsMap}
use nebula_storage.Balancer.Flow.{
  at_host, leaves, comes, leaves-append, comes-append, parts_of-put_parts,
}
use nebula_storage.Balancer.Rounds.{AllMove}

-- From one state of the loop to a later one: what has arrived is what the tasks bring, they take `taken`
-- away, each goes from one host to another, and hosts that are not there do not come back.
pub record Sends (taken : HostAddr → ℕ → ℕ) (m : HostParts) (tasks : List BalanceTask)
    (n : HostParts) (ts : List BalanceTask) : Type 0 where
  pub arrived :
      (h : HostAddr) (p : ℕ) → at_host h p n + comes h p tasks ≡ at_host h p m + comes h p ts
  pub left : (h : HostAddr) (p : ℕ) → leaves h p ts ≡ leaves h p tasks + taken h p
  pub moves : AllMove tasks → AllMove ts
  pub absent : (g : HostAddr) → find_parts g m ≡ none → find_parts g n ≡ none
  pub is_map : IsMap n

Sends-none : (m : HostParts) (tasks : List BalanceTask) → IsMap m → Sends (λ h p. 0) m tasks m tasks
Sends-none m tasks u = record {
  arrived = λ h p. refl;
  left = λ h p. omega arith;
  moves = λ a. a;
  absent = λ g e. e;
  is_map = u;
}

Sends-append :
    (a b c : HostAddr → ℕ → ℕ) (m k n : HostParts) (tasks mid ts : List BalanceTask)
    → ((h : HostAddr) (p : ℕ) → c h p ≡ a h p + b h p)
    → Sends a m tasks k mid
    → Sends b k mid n ts
    → Sends c m tasks n ts
Sends-append a b c m k n tasks mid ts sum x y = record {
  arrived = λ h p. omega (arith, x.arrived h p, y.arrived h p);
  left = λ h p. omega (arith, x.left h p, y.left h p, sum h p);
  moves = λ z. y.moves (x.moves z);
  absent = λ g e. y.absent g (x.absent g e);
  is_map = y.is_map;
}

find_parts-put :
    (h k : HostAddr) (ps : List ℕ) (m : HostParts)
    → find_parts h (put_parts k ps m) ≡ (if addr_eq k h then some ps else find_parts h m)
unfolding find_parts put_parts
find_parts-put h k ps [] = refl
find_parts-put h k ps ((x, qs) ∷ m) =
    ground (arith, addr_eq_iff x k, addr_eq_iff x h, addr_eq_iff k h, find_parts-put h k ps m)

-- A host that is there and one that is not are two.
two_hosts :
    (g h : HostAddr) (ps : List ℕ) (m : HostParts)
    → find_parts g m ≡ none
    → find_parts h m ≡ some ps
    → addr_eq g h ≡ false
two_hosts g h ps m a b = elim (Bool-cases (addr_eq g h)) [
  | inr other ↦ other
  | inl same ↦ (let z = ap (λ k. find_parts k m) ((addr_eq_iff g h).0 same) in cc)
]

-- What one host gives away.
abbrev of_host : HostAddr → List ℕ → HostAddr → ℕ → ℕ
of_host source ps h p = if addr_eq source h then count p ps else 0

one-Sends :
    (source target : HostAddr) (q : ℕ) (ps : List ℕ) (m : HostParts) (tasks : List BalanceTask)
    → IsMap m
    → find_parts source m ≡ none
    → find_parts target m ≡ some ps
    → Sends
        (of_host source (q ∷ []))
        m
        tasks
        (put_parts target (parts_of target m ++ q ∷ []) m)
        (tasks ++ record { part_id = q; src = source; dst = target } ∷ [])
unfolding leaves comes count
one-Sends source target q ps m tasks u gone there = record {
  arrived = λ h p. elim (Bool-cases (addr_eq target h)) [
    | inl same ↦
        let one : target ≡ h = (addr_eq_iff target h).0 same in
        rw
          (
            parts_of-put_parts h target (parts_of target m ++ q ∷ []) m,
            comes-append h p tasks (record { part_id = q; src = source; dst = target } ∷ []),
            same,
          )
          (ground (arith, count-append p (parts_of target m) (q ∷ []), ap (λ k. at_host k p m) one))
    | inr other ↦
        rw
          (
            parts_of-put_parts h target (parts_of target m ++ q ∷ []) m,
            comes-append h p tasks (record { part_id = q; src = source; dst = target } ∷ []),
            other,
          )
          (omega arith)
  ];
  left = λ h p.
      ground
        (arith, leaves-append h p tasks (record { part_id = q; src = source; dst = target } ∷ []));
  moves = λ a. All-append _ tasks _ a (two_hosts source target ps m gone there, tt);
  absent = λ g e. find_parts-put g target (parts_of target m ++ q ∷ []) m ∙ rw (two_there g e) e;
  is_map = put_parts-IsMap target ps (parts_of target m ++ q ∷ []) m there u;
}
  where
    two_there : (g : HostAddr) → find_parts g m ≡ none → addr_eq target g ≡ false
    two_there g e =
        let z = two_hosts g target ps m e there in
        ground (arith, addr_eq_iff g target, addr_eq_iff target g)

transfer_lost_host-Sends :
    (source : HostAddr) (q : ℕ) (m n : HostParts) (tasks ts : List BalanceTask)
    → IsMap m
    → find_parts source m ≡ none
    → transfer_lost_host source q (m, tasks) ≡ some (n, ts)
    → Sends (of_host source (q ∷ [])) m tasks n ts
unfolding transfer_lost_host
transfer_lost_host-Sends source q m n tasks ts u gone e =
    let (h, found, rest) = >>=-eq-some (host_with_minimal_parts m q) _ e in
    let (ps, there, lacks) = minimal-lacks m q h u found in
    let same : (
      put_parts h (parts_of h m ++ q ∷ []) m,
      tasks ++ record { part_id = q; src = source; dst = h } ∷ [],
    )
        ≡ (n, ts) =
      cc in
    subst (λ (z : HostParts × List BalanceTask). Sends (of_host source (q ∷ [])) m tasks z.0 z.1)
      same (one-Sends source h q ps m tasks u gone there)

transfer_parts-Sends :
    (orig : HostParts) (active : List HostAddr) (replica : ℕ) (source : HostAddr) (ps : List ℕ)
    (m n : HostParts) (tasks ts : List BalanceTask)
    → IsMap m
    → find_parts source m ≡ none
    → transfer_parts orig active replica source ps (m, tasks) ≡ some (n, ts)
    → Sends (of_host source ps) m tasks n ts
unfolding transfer_parts count
transfer_parts-Sends orig active replica source [] m n tasks ts u gone e =
    let same : (m, tasks) ≡ (n, ts) = cc in
    subst (λ (z : HostParts × List BalanceTask). Sends (of_host source []) m tasks z.0 z.1) same
      (Sends-append (λ h p. 0) (λ h p. 0) (of_host source []) m m m tasks tasks tasks
        (λ h p. ground arith) (Sends-none m tasks u) (Sends-none m tasks u))
transfer_parts-Sends orig active replica source (q ∷ ps) m n tasks ts u gone e =
    elim (Bool-cases (check_replica orig active replica q)) [
      | inr few ↦ absurd (ground arith)
      | inl alive ↦
          let ((k, mid), one, two) =
            >>=-eq-some (transfer_lost_host source q (m, tasks)) _ (rw alive at e) in
          let first = transfer_lost_host-Sends source q m k tasks mid u gone one in
          Sends-append (of_host source (q ∷ [])) (of_host source ps) (of_host source (q ∷ ps)) m k n
            tasks mid ts (λ h p. ground (arith, count-append p (q ∷ []) ps)) first
            (transfer_parts-Sends orig active replica source ps k n mid ts first.is_map
              (first.absent source gone) two)
    ]

-- What several hosts give away.
abbrev pub of_hosts : HostParts → List HostAddr → HostAddr → ℕ → ℕ
of_hosts orig [] h p = 0
of_hosts orig (g ∷ hs) h p = of_host g (parts_of g orig) h p + of_hosts orig hs h p

pub transfer_hosts-Sends :
    (orig : HostParts) (active : List HostAddr) (replica : ℕ) (hs : List HostAddr) (m n : HostParts)
    (tasks ts : List BalanceTask)
    → IsMap m
    → ((g : HostAddr) → has_host g hs ≡ true → find_parts g m ≡ none)
    → transfer_hosts orig active replica hs (m, tasks) ≡ some (n, ts)
    → Sends (of_hosts orig hs) m tasks n ts
unfolding transfer_hosts has_host
transfer_hosts-Sends orig active replica [] m n tasks ts u gone e =
    let same : (m, tasks) ≡ (n, ts) = cc in
    subst (λ (z : HostParts × List BalanceTask). Sends (of_hosts orig []) m tasks z.0 z.1) same
      (Sends-none m tasks u)
transfer_hosts-Sends orig active replica (g ∷ hs) m n tasks ts u gone e =
    let ((k, mid), one, two) =
      >>=-eq-some (transfer_parts orig active replica g (parts_of g orig) (m, tasks)) _ e in
    let first =
      transfer_parts-Sends orig active replica g (parts_of g orig) m k tasks mid u
        (gone g (ground (arith, addr_eq_iff g g))) one in
    Sends-append (of_host g (parts_of g orig)) (of_hosts orig hs) (of_hosts orig (g ∷ hs)) m k n
      tasks mid ts (λ h p. refl) first
      (transfer_hosts-Sends orig active replica hs k n mid ts first.is_map
        (λ x e. first.absent x (gone x (ground (arith, e)))) two)

-- Hosts named once give away what they have.
pub of_hosts-apart :
    (orig : HostParts) (hs : List HostAddr) (h : HostAddr) (p : ℕ)
    → AllApart hs
    → of_hosts orig hs h p ≡ (if has_host h hs then at_host h p orig else 0)
unfolding has_host
of_hosts-apart orig [] h p a = refl
of_hosts-apart orig (g ∷ hs) h p (a, rest) = elim (Bool-cases (addr_eq g h)) [
  | inr other ↦ let later = of_hosts-apart orig hs h p rest in rw other (omega (arith, later))
  | inl same ↦
      let one : g ≡ h = (addr_eq_iff g h).0 same in
      let once : has_host h hs ≡ false = subst (λ k. has_host k hs ≡ false) one a in
      let none_left : of_hosts orig hs h p ≡ 0 = rw once at (of_hosts-apart orig hs h p rest) in
      rw same (omega (arith, none_left, ap (λ k. at_host k p orig) one))
]

find_parts-erase :
    (h k : HostAddr) (m : HostParts)
    → IsMap m
    → find_parts h (erase_parts k m) ≡ (if addr_eq k h then none else find_parts h m)
unfolding find_parts erase_parts
find_parts-erase h k [] u = ground arith
find_parts-erase h k ((x, ps) ∷ m) (fresh, u) = elim (Bool-cases (addr_eq x k)) [
  | inr other ↦
      ground
        (arith, other, addr_eq_iff x k, addr_eq_iff x h, addr_eq_iff k h, find_parts-erase h k m u)
  | inl same ↦ elim (Bool-cases (addr_eq k h)) [
    | inl is_h ↦
        let one : x ≡ h = (addr_eq_iff x k).0 same ∙ (addr_eq_iff k h).0 is_h in
        rw (same, is_h) (subst (λ y. find_parts y m ≡ none) one fresh)
    | inr no_h ↦
        let no_x : addr_eq x h ≡ false =
          subst (λ y. addr_eq y h ≡ false) (sym ((addr_eq_iff x k).0 same)) no_h in
        rw (same, no_h, no_x) refl
  ]
]

pub find_parts-erase_hosts :
    (h : HostAddr) (hs : List HostAddr) (m : HostParts)
    → IsMap m
    → find_parts h (erase_hosts hs m) ≡ (if has_host h hs then none else find_parts h m)
unfolding erase_hosts has_host
find_parts-erase_hosts h [] m u = refl
find_parts-erase_hosts h (g ∷ hs) m u = ground (
  arith,
  find_parts-erase_hosts h hs (erase_parts g m) (erase_parts-IsMap g m u),
  find_parts-erase h g m u,
)
