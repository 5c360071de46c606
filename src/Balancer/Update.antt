-- ===== src/Balancer/Update.antt =====
-- Balancer.cpp, balanceParts: what one round does to an allocation, between two hosts or from a host to itself.
use nebula_storage.Prelude.{
  ℕ, ◌+◌, ◌*◌, ◌<◌, ◌≤◌, ◌≡◌, ◌≢◌, ap, ◌∙◌, subst, false, List, [], ◌∷◌, Option, some, arith,
  length, Bool-cases, inl, inr, All,
}
use nebula_storage.Raft.{HostAddr, addr_eq}
use nebula_storage.Balancer.{HostParts, find_parts, or_empty, put_parts, sort_parts}
use nebula_storage.Balancer.Measure.{
  total, total-put_parts, find_parts-put_parts, count, copies, square, count-sort_parts,
  length-sort_parts,
}
use nebula_storage.Balancer.Sorted.{IsMap, put_parts-IsMap}
use nebula_storage.Balancer.Moves.{Moved}

-- No host has a part twice.
abbrev pub IsOnce : List ℕ → Type 0
IsOnce ps = (p : ℕ) → count p ps ≤ 1

abbrev pub EachOnce : HostParts → Type 0
EachOnce m = All (λ (x : HostAddr × List ℕ). IsOnce x.1) m

-- An allocation that the rounds have reached from another.
pub record Updated (m n : HostParts) : Type 0 where
  pub copied : (p : ℕ) → copies p n ≡ copies p m
  pub is_map : IsMap n
  pub once : EachOnce m → EachOnce n
  pub hosts : length n ≡ length m
  pub load : total length n ≡ total length m

pub length-put_parts :
    (h : HostAddr)
    → (ps qs : List ℕ) → (m : HostParts) → find_parts h m ≡ some ps
    → length (put_parts h qs m) ≡ length m
unfolding put_parts find_parts
length-put_parts h ps qs [] e = absurd (cc)
length-put_parts h ps qs ((k, rs) ∷ m) e = ground (arith, length-put_parts h ps qs m)

pub find_parts-IsOnce :
    (h : HostAddr)
    → (ps : List ℕ) → (m : HostParts) → find_parts h m ≡ some ps
    → EachOnce m
    → IsOnce ps
unfolding find_parts
find_parts-IsOnce h ps [] e o p = absurd (cc)
find_parts-IsOnce h ps ((k, rs) ∷ m) e (a, o) p = elim (Bool-cases (addr_eq k h)) [
  | inl same ↦
      let found : ◌≡◌ {A = Option (List ℕ)} (some rs) (some ps) = rw same at e in
      let here = a p in subst (λ (x : List ℕ). count p x ≤ 1) (ap or_empty found) here
  | inr other ↦ find_parts-IsOnce h ps m (rw other at e) o p
]

pub put_parts-EachOnce :
    (h : HostAddr)
    → (qs : List ℕ) → (m : HostParts) → IsOnce qs
    → EachOnce m
    → EachOnce (put_parts h qs m)
unfolding put_parts
put_parts-EachOnce h qs [] a o = (a, tt)
put_parts-EachOnce h qs ((k, rs) ∷ m) a (b, o) = elim (Bool-cases (addr_eq k h)) [
  | inl same ↦ rw same (a, o)
  | inr other ↦ rw other (b, put_parts-EachOnce h qs m a o)
]

-- The map after a round between two hosts, whose parts were sorted.
abbrev pub moved_map : HostAddr → HostAddr → List ℕ → List ℕ → HostParts → HostParts
moved_map src dst f t m = put_parts dst t (put_parts src f m)

total-moved_map :
    (w : List ℕ → ℕ)
    → (src dst : HostAddr) → (ps qs f t : List ℕ) → (m : HostParts) → addr_eq src dst ≡ false
    → find_parts src m ≡ some ps
    → find_parts dst m ≡ some qs
    → total w (moved_map src dst f t m) + (w ps + w qs) ≡ total w m + (w f + w t)
total-moved_map w src dst ps qs f t m n a b =
    let one = total-put_parts w src ps f m a in
    let two =
      total-put_parts w dst qs t (put_parts src f m) (find_parts-put_parts src dst qs f m n b) in
    omega (arith, one, two)

sort_parts-IsOnce : (ps : List ℕ) → IsOnce ps → IsOnce (sort_parts ps)
sort_parts-IsOnce ps o p = let here = o p in omega (arith, count-sort_parts p ps, here)

pub Moved-Updated :
    (src dst : HostAddr)
    → (ps qs f t ms : List ℕ) → (m : HostParts) → IsMap m
    → addr_eq src dst ≡ false
    → find_parts src m ≡ some ps
    → find_parts dst m ≡ some qs
    → Moved (sort_parts ps) (sort_parts qs) f t ms
    → Updated m (moved_map src dst f t m)
Moved-Updated src dst ps qs f t ms m u n a b v =
    let b' = find_parts-put_parts src dst qs f m n b in
    record {
      copied = λ (p : ℕ).
          let same = v.counts p in
          omega (
            arith,
            total-moved_map (count p) src dst ps qs f t m n a b,
            same,
            count-sort_parts p ps,
            count-sort_parts p qs,
          );
      is_map = put_parts-IsMap dst qs t (put_parts src f m) b' (put_parts-IsMap src ps f m a u);
      once = λ o.
          let c = sort_parts-IsOnce ps (find_parts-IsOnce src ps m a o) in
          let d = sort_parts-IsOnce qs (find_parts-IsOnce dst qs m b o) in
          put_parts-EachOnce dst t (put_parts src f m) (λ (p : ℕ). (v.once p (c p) (d p)).1)
            (put_parts-EachOnce src f m (λ (p : ℕ). (v.once p (c p) (d p)).0) o);
      hosts = length-put_parts dst qs t (put_parts src f m) b' ∙ length-put_parts src ps f m a;
      load =
          let same = v.lengths in
          omega (
            arith,
            total-moved_map length src dst ps qs f t m n a b,
            same,
            length-sort_parts ps,
            length-sort_parts qs,
          );
    }

pub Moved-progress :
    (src dst : HostAddr)
    → (ps qs f t ms : List ℕ) → (m : HostParts) → addr_eq src dst ≡ false
    → find_parts src m ≡ some ps
    → find_parts dst m ≡ some qs
    → Moved (sort_parts ps) (sort_parts qs) f t ms
    → ms ≢ []
    → total square (moved_map src dst f t m) < total square m
Moved-progress src dst ps qs f t ms m n a b v some_moved =
    let less = v.progress some_moved in
    omega (
      arith,
      total-moved_map square src dst ps qs f t m n a b,
      less,
      ap (λ (k : ℕ). k * k) (length-sort_parts ps),
      ap (λ (k : ℕ). k * k) (length-sort_parts qs),
    )

find_parts-put_parts_self :
    (h : HostAddr)
    → (ps qs : List ℕ) → (m : HostParts) → find_parts h m ≡ some ps
    → find_parts h (put_parts h qs m) ≡ some qs
unfolding find_parts put_parts
find_parts-put_parts_self h ps qs [] e = absurd (cc)
find_parts-put_parts_self h ps qs ((k, rs) ∷ m) e =
    ground (arith, find_parts-put_parts_self h ps qs m)

-- Parts that only change their order.
total-sorted :
    (w : List ℕ → ℕ)
    → (h : HostAddr) → (ps : List ℕ) → (m : HostParts) → find_parts h m ≡ some ps
    → w (sort_parts ps) ≡ w ps
    → total w (moved_map h h (sort_parts ps) (sort_parts ps) m) ≡ total w m
total-sorted w h ps m a same =
    let s = sort_parts ps in
    omega (
      arith,
      total-put_parts w h ps s m a,
      same,
      total-put_parts w h s s (put_parts h s m) (find_parts-put_parts_self h ps s m a),
    )

pub sorted-Updated :
    (h : HostAddr)
    → (ps : List ℕ) → (m : HostParts) → IsMap m
    → find_parts h m ≡ some ps
    → Updated m (moved_map h h (sort_parts ps) (sort_parts ps) m)
sorted-Updated h ps m u a =
    let s = sort_parts ps in
    let b = find_parts-put_parts_self h ps s m a in
    record {
      copied = λ (p : ℕ). total-sorted (count p) h ps m a (count-sort_parts p ps);
      is_map = put_parts-IsMap h s s (put_parts h s m) b (put_parts-IsMap h ps s m a u);
      once = λ o.
          let c = sort_parts-IsOnce ps (find_parts-IsOnce h ps m a o) in
          put_parts-EachOnce h s (put_parts h s m) c (put_parts-EachOnce h s m c o);
      hosts = length-put_parts h s s (put_parts h s m) b ∙ length-put_parts h ps s m a;
      load = total-sorted length h ps m a (length-sort_parts ps);
    }
