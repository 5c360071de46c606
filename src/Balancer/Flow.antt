-- ===== src/Balancer/Flow.antt =====
-- Balancer.cpp, balanceParts: the tasks of one round carry the parts that the round moves.
use nebula_storage.Prelude.{
  ℕ, ◌+◌, ◌≡◌, refl, sym, ap, subst, true, false, not, ◌&&◌, List, [], ◌∷◌, ◌++◌, Option, none,
  some, arith, if◌then◌else◌, ◌==◌, Bool-cases, inl, inr,
}
use nebula_storage.Raft.{HostAddr, addr_eq, addr_eq_iff}
use nebula_storage.Balancer.{
  HostParts, BalanceTask, find_parts, parts_of, put_parts, has_part, erase_part, sort_parts, stops,
  moved_also, move_parts, tasks_of,
}
use nebula_storage.Balancer.Measure.{count, count-append, count-erase_part, count-sort_parts}

-- How often a host has a part.
abbrev pub at_host : HostAddr → ℕ → HostParts → ℕ
at_host h p m = count p (parts_of h m)

-- How many tasks take a part from a host, and how many bring it there.
unfoldable pub leaves : HostAddr → ℕ → List BalanceTask → ℕ
leaves h p [] = 0
leaves h p (t ∷ ts) = (if addr_eq t.src h && (t.part_id == p) then 1 else 0) + leaves h p ts

unfoldable pub comes : HostAddr → ℕ → List BalanceTask → ℕ
comes h p [] = 0
comes h p (t ∷ ts) = (if addr_eq t.dst h && (t.part_id == p) then 1 else 0) + comes h p ts

pub leaves-append :
    (h : HostAddr) (p : ℕ) (ts us : List BalanceTask)
    → leaves h p (ts ++ us) ≡ leaves h p ts + leaves h p us
unfolding leaves
leaves-append h p [] us = omega arith
leaves-append h p (t ∷ ts) us = omega (arith, leaves-append h p ts us)

pub comes-append :
    (h : HostAddr) (p : ℕ) (ts us : List BalanceTask)
    → comes h p (ts ++ us) ≡ comes h p ts + comes h p us
unfolding comes
comes-append h p [] us = omega arith
comes-append h p (t ∷ ts) us = omega (arith, comes-append h p ts us)

leaves-tasks_of :
    (h src dst : HostAddr) (p : ℕ) (ms : List ℕ)
    → leaves h p (tasks_of src dst ms) ≡ (if addr_eq src h then count p ms else 0)
unfolding leaves count
leaves-tasks_of h src dst p [] = ground arith
leaves-tasks_of h src dst p (q ∷ ms) = ground (arith, leaves-tasks_of h src dst p ms)

comes-tasks_of :
    (h src dst : HostAddr) (p : ℕ) (ms : List ℕ)
    → comes h p (tasks_of src dst ms) ≡ (if addr_eq dst h then count p ms else 0)
unfolding comes count
comes-tasks_of h src dst p [] = ground arith
comes-tasks_of h src dst p (q ∷ ms) = ground (arith, comes-tasks_of h src dst p ms)

pub parts_of-put_parts :
    (h k : HostAddr) (ps : List ℕ) (m : HostParts)
    → parts_of h (put_parts k ps m) ≡ (if addr_eq k h then ps else parts_of h m)
unfolding find_parts put_parts
parts_of-put_parts h k ps [] = ground arith
parts_of-put_parts h k ps ((x, qs) ∷ m) =
    ground (arith, addr_eq_iff x k, addr_eq_iff x h, addr_eq_iff k h, parts_of-put_parts h k ps m)

-- What the loop over `diff` makes of the two hosts' parts.
abbrev pub Exchanged : List ℕ → List ℕ → Option (List ℕ × List ℕ × List ℕ) → Type 0
Exchanged from to none = Unit
Exchanged from to (some (f, t, ms)) =
    (p : ℕ) → (count p f + count p ms ≡ count p from) × (count p t ≡ count p to + count p ms)

moved_also-Exchanged :
    (q : ℕ) (from to : List ℕ) (o : Option (List ℕ × List ℕ × List ℕ))
    → has_part q from ≡ true
    → Exchanged (erase_part q from) (to ++ q ∷ []) o
    → Exchanged from to (moved_also q o)
unfolding count
moved_also-Exchanged q from to none h x = tt
moved_also-Exchanged q from to (some (f, t, ms)) h x = λ p. (
  (let z = (x p).0 in ground (arith, z, count-erase_part p q from h)),
  (let z = (x p).1 in ground (arith, z, count-append p to (q ∷ []))),
)

pub move_parts-Exchanged :
    (lo hi : ℕ) (ds from to : List ℕ) → Exchanged from to (move_parts lo hi ds from to)
unfolding move_parts count
move_parts-Exchanged lo hi [] from to = λ p. (omega arith, omega arith)
move_parts-Exchanged lo hi (q ∷ ds) from to = elim (Bool-cases (stops lo hi from to)) [
  | inl stop ↦ rw stop (λ p. (omega arith, omega arith))
  | inr go ↦ elim (Bool-cases (has_part q from && not (has_part q to))) [
    | inr bad ↦ rw (go, bad) tt
    | inl good ↦
        rw (go, good)
          (moved_also-Exchanged q from to _ (ground arith)
            (move_parts-Exchanged lo hi ds (erase_part q from) (to ++ q ∷ [])))
  ]
]

-- From a host to itself nothing moves.
pub move_parts_self :
    (lo hi : ℕ) (ds from f t ms : List ℕ)
    → move_parts lo hi ds from from ≡ some (f, t, ms)
    → ms ≡ []
unfolding move_parts
move_parts_self lo hi [] from f t ms e = cc
move_parts_self lo hi (q ∷ ds) from f t ms e = elim (Bool-cases (stops lo hi from from)) [
  | inl stop ↦ (let z = rw stop at e in cc)
  | inr go ↦ ground (arith, e)
]

module _ (m : HostParts) (src dst : HostAddr) where
  -- One round between two hosts.
  pub moved-apart :
      (lo hi : ℕ) (ds f t ms : List ℕ)
      → addr_eq src dst ≡ false
      → Exchanged (sort_parts (parts_of src m)) (sort_parts (parts_of dst m)) (some (f, t, ms))
      → (h : HostAddr) (p : ℕ)
      → at_host h p (put_parts dst t (put_parts src f m)) + leaves h p (tasks_of src dst ms)
        ≡ at_host h p m + comes h p (tasks_of src dst ms)
  moved-apart lo hi ds f t ms other x h p =
      let (lost, won) = x p in
      let from = count-sort_parts p (parts_of src m) in
      let to = count-sort_parts p (parts_of dst m) in
      elim (Bool-cases (addr_eq dst h)) [
        | inl is_dst ↦
            let same : dst ≡ h = (addr_eq_iff dst h).0 is_dst in
            let no_src : addr_eq src h ≡ false =
              ground (arith, addr_eq_iff src h, addr_eq_iff src dst, other) in
            rw
              (
                parts_of-put_parts h dst t (put_parts src f m),
                leaves-tasks_of h src dst p ms,
                comes-tasks_of h src dst p ms,
                is_dst,
                no_src,
              )
              (omega (arith, won, to, ap (λ k. at_host k p m) same))
        | inr no_dst ↦ elim (Bool-cases (addr_eq src h)) [
          | inl is_src ↦
              let same : src ≡ h = (addr_eq_iff src h).0 is_src in
              rw
                (
                  parts_of-put_parts h dst t (put_parts src f m),
                  parts_of-put_parts h src f m,
                  leaves-tasks_of h src dst p ms,
                  comes-tasks_of h src dst p ms,
                  no_dst,
                  is_src,
                )
                (omega (arith, lost, from, ap (λ k. at_host k p m) same))
          | inr no_src ↦
              rw
                (
                  parts_of-put_parts h dst t (put_parts src f m),
                  parts_of-put_parts h src f m,
                  leaves-tasks_of h src dst p ms,
                  comes-tasks_of h src dst p ms,
                  no_dst,
                  no_src,
                )
                refl
        ]
      ]

  -- From a host to itself, where nothing moves.
  pub moved-none :
      (f t : List ℕ)
      → src ≡ dst
      → Exchanged (sort_parts (parts_of src m)) (sort_parts (parts_of dst m)) (some (f, t, []))
      → (h : HostAddr) (p : ℕ) → at_host h p (put_parts dst t (put_parts src f m)) ≡ at_host h p m
  unfolding count
  moved-none f t one x h p =
      let (lost, won) = x p in
      let to = count-sort_parts p (parts_of dst m) in
      elim (Bool-cases (addr_eq dst h)) [
        | inl is_dst ↦
            let same : dst ≡ h = (addr_eq_iff dst h).0 is_dst in
            rw (parts_of-put_parts h dst t (put_parts src f m), is_dst)
              (omega (arith, won, to, ap (λ k. at_host k p m) same))
        | inr no_dst ↦
            let no_src : addr_eq src h ≡ false =
              subst (λ k. addr_eq k h ≡ false) (sym one) no_dst in
            rw
              (
                parts_of-put_parts h dst t (put_parts src f m),
                parts_of-put_parts h src f m,
                no_dst,
                no_src,
              )
              refl
      ]
