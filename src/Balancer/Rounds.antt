-- ===== src/Balancer/Rounds.antt =====
-- Balancer.cpp, balanceParts: the tasks of all its rounds make one allocation of another.
use nebula_storage.Prelude.{
  ℕ, zero, suc, ◌+◌, ◌≡◌, refl, sym, ap, subst, false, ◌||◌, List, [], ◌∷◌, ◌++◌, Option, none,
  some, arith, length, ltb, Bool-cases, inl, inr, All, All-append,
}
use nebula_storage.Raft.{HostAddr, addr_eq, addr_eq_iff}
use nebula_storage.Balancer.{
  HostParts, BalanceTask, parts_of, put_parts, sort_parts, set_difference, move_parts, tasks_of,
  Outcome, refused, balanced, unfinished, after_moves, balance_round, balance_loop, balance_parts,
  back, sorted_hosts_by_parts,
}
use nebula_storage.Balancer.Flow.{
  at_host, leaves, comes, leaves-append, comes-append, Exchanged, move_parts-Exchanged,
  move_parts_self, moved-apart, moved-none,
}

-- The tasks from `tasks` on carry the parts from where `m` has them to where the outcome has them.
abbrev pub Carries : HostParts → List BalanceTask → Outcome → Type 0
Carries m tasks (balanced n ts) =
    (h : HostAddr) (p : ℕ)
    → at_host h p n + (leaves h p ts + comes h p tasks)
      ≡ at_host h p m + (comes h p ts + leaves h p tasks)
Carries m tasks refused = Unit
Carries m tasks unfinished = Unit

-- And each of them is from one host to another.
abbrev pub AllMove : List BalanceTask → Type 0
AllMove ts = All (λ t. addr_eq t.src t.dst ≡ false) ts

abbrev pub AllMoveIn : Outcome → Type 0
AllMoveIn (balanced n ts) = AllMove ts
AllMoveIn refused = Unit
AllMoveIn unfinished = Unit

Carries-trans :
    (m n : HostParts) (tasks us : List BalanceTask) (o : Outcome)
    → ((h : HostAddr) (p : ℕ) → at_host h p n + leaves h p us ≡ at_host h p m + comes h p us)
    → Carries n (tasks ++ us) o
    → Carries m tasks o
Carries-trans m n tasks us refused step c = tt
Carries-trans m n tasks us unfinished step c = tt
Carries-trans m n tasks us (balanced x ts) step c =
    λ h p. omega (arith, c h p, step h p, leaves-append h p tasks us, comes-append h p tasks us)

AllMove-tasks_of :
    (src dst : HostAddr) (ms : List ℕ) → addr_eq src dst ≡ false → AllMove (tasks_of src dst ms)
AllMove-tasks_of src dst [] n = tt
AllMove-tasks_of src dst (p ∷ ms) n = (n, AllMove-tasks_of src dst ms n)

-- What is known of the rounds that follow.
record Follows (next : HostParts → List BalanceTask → Outcome) : Type 0 where
  carries : (m : HostParts) (tasks : List BalanceTask) → Carries m tasks (next m tasks)
  moves : (m : HostParts) (tasks : List BalanceTask) → AllMove tasks → AllMoveIn (next m tasks)

module _ (next : HostParts → List BalanceTask → Outcome) (k : Follows next) (m : HostParts)
    (src dst : HostAddr) (tasks : List BalanceTask) where
  after_apart :
      (lo hi : ℕ) (ds f t ms : List ℕ)
      → addr_eq src dst ≡ false
      → Exchanged (sort_parts (parts_of src m)) (sort_parts (parts_of dst m)) (some (f, t, ms))
      → Carries m tasks (after_moves next src dst m tasks (some (f, t, ms)))
        × (AllMove tasks → AllMoveIn (after_moves next src dst m tasks (some (f, t, ms))))
  unfolding leaves comes
  after_apart lo hi ds f t [] other x =
      (λ h p. omega (arith, moved-apart m src dst lo hi ds f t [] other x h p), λ a. a)
  after_apart lo hi ds f t (q ∷ ms) other x =
      let n = put_parts dst t (put_parts src f m) in
      let us = tasks_of src dst (q ∷ ms) in
      (
        Carries-trans m n tasks us (next n (tasks ++ us))
            (moved-apart m src dst lo hi ds f t (q ∷ ms) other x) (k.carries n (tasks ++ us)),
        λ a.
            k.moves n (tasks ++ us)
              (All-append _ tasks us a (AllMove-tasks_of src dst (q ∷ ms) other)),
      )

  after_self :
      (lo hi : ℕ) (ds f t ms : List ℕ)
      → src ≡ dst
      → move_parts lo hi ds (sort_parts (parts_of src m)) (sort_parts (parts_of dst m))
        ≡ some (f, t, ms)
      → Exchanged (sort_parts (parts_of src m)) (sort_parts (parts_of dst m)) (some (f, t, ms))
      → Carries m tasks (after_moves next src dst m tasks (some (f, t, ms)))
        × (AllMove tasks → AllMoveIn (after_moves next src dst m tasks (some (f, t, ms))))
  after_self lo hi ds f t [] one e x =
      (λ h p. omega (arith, moved-none m src dst f t one x h p), λ a. a)
  after_self lo hi ds f t (q ∷ ms) one e x =
      let none_moved : q ∷ ms ≡ [] =
        move_parts_self lo hi ds (sort_parts (parts_of src m)) f t (q ∷ ms) (
          subst
            (λ d.
              move_parts lo hi ds (sort_parts (parts_of src m)) (sort_parts (parts_of d m))
              ≡ some (f, t, q ∷ ms))
            (sym one) e) in
      absurd (omega (arith, ap length none_moved))

  after_moves-Carries :
      (lo hi : ℕ) (ds : List ℕ) (o : Option (List ℕ × List ℕ × List ℕ))
      → move_parts lo hi ds (sort_parts (parts_of src m)) (sort_parts (parts_of dst m)) ≡ o
      → Exchanged (sort_parts (parts_of src m)) (sort_parts (parts_of dst m)) o
      → Carries m tasks (after_moves next src dst m tasks o)
        × (AllMove tasks → AllMoveIn (after_moves next src dst m tasks o))
  after_moves-Carries lo hi ds none e x = (tt, λ a. tt)
  after_moves-Carries lo hi ds (some (f, t, ms)) e x = elim (Bool-cases (addr_eq src dst)) [
    | inl one ↦ after_self lo hi ds f t ms ((addr_eq_iff src dst).0 one) e x
    | inr other ↦ after_apart lo hi ds f t ms other x
  ]

round-Carries :
    (next : HostParts → List BalanceTask → Outcome)
    → Follows next
    → (lo hi : ℕ) (m : HostParts) (tasks : List BalanceTask) (xs : List (HostAddr × ℕ))
    → Carries m tasks (balance_round lo hi next m tasks xs)
      × (AllMove tasks → AllMoveIn (balance_round lo hi next m tasks xs))
unfolding balance_round
round-Carries next k lo hi m tasks [] = (tt, λ a. tt)
round-Carries next k lo hi m tasks (x ∷ xs) =
    let src = (back x xs).0 in
    let from = sort_parts (parts_of src m) in
    let to = sort_parts (parts_of x.0 m) in
    let ds = set_difference from to in
    elim (Bool-cases (ltb hi (back x xs).1 || ltb x.1 lo)) [
      | inl go ↦ rw go (
          after_moves-Carries next k m src x.0 tasks lo hi ds (move_parts lo hi ds from to) refl
            (move_parts-Exchanged lo hi ds from to))
      | inr stop ↦ rw stop (λ h p. omega arith, λ a. a)
    ]

balance_loop-Follows : (lo hi fuel : ℕ) → Follows (balance_loop lo hi fuel)
unfolding balance_loop
balance_loop-Follows lo hi zero = record { carries = λ m tasks. tt; moves = λ m tasks a. tt }
balance_loop-Follows lo hi (suc fuel) = record {
  carries = λ m tasks.
      (round-Carries _ (balance_loop-Follows lo hi fuel) lo hi m tasks (sorted_hosts_by_parts m)).0;
  moves = λ m tasks.
      (round-Carries _ (balance_loop-Follows lo hi fuel) lo hi m tasks (sorted_hosts_by_parts m)).1;
}

pub balance_parts-Carries :
    (fuel all : ℕ) (m : HostParts) (tasks : List BalanceTask)
    → Carries m tasks (balance_parts fuel all m tasks)
unfolding balance_parts
balance_parts-Carries fuel all m tasks = (balance_loop-Follows _ _ fuel).carries m tasks

pub balance_parts-AllMoveIn :
    (fuel all : ℕ) (m : HostParts) (tasks : List BalanceTask)
    → AllMove tasks
    → AllMoveIn (balance_parts fuel all m tasks)
unfolding balance_parts
balance_parts-AllMoveIn fuel all m tasks a = (balance_loop-Follows _ _ fuel).moves m tasks a
