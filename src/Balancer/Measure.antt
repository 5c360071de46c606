-- ===== src/Balancer/Measure.antt =====
-- Sums over the hosts of an allocation, and how they change with the parts of one host.
use nebula_storage.Prelude.{
  ℕ, suc, ◌+◌, ◌*◌, ◌≡◌, refl, true, false, List, [], ◌∷◌, ◌++◌, some, arith, length, if◌then◌else◌,
  ◌==◌, Bool-cases, inl, inr,
}
use nebula_storage.Raft.{HostAddr, addr_eq, addr_eq_iff}
use nebula_storage.Balancer.{
  HostParts, find_parts, put_parts, has_part, erase_part, insert_part, sort_parts,
}

-- The sum of a weight of the hosts' parts.
unfoldable pub total : (List ℕ → ℕ) → HostParts → ℕ
total w [] = 0
total w ((h, ps) ∷ m) = w ps + total w m

pub total-put_parts :
    (w : List ℕ → ℕ)
    → (h : HostAddr) → (ps qs : List ℕ) → (m : HostParts) → find_parts h m ≡ some ps
    → total w (put_parts h qs m) + w ps ≡ total w m + w qs
unfolding total find_parts put_parts
total-put_parts w h ps qs [] e = absurd (cc)
total-put_parts w h ps qs ((k, rs) ∷ m) e = elim (Bool-cases (addr_eq k h)) [
  | inl same ↦ ground (arith)
  | inr other ↦ rw other (omega (arith, total-put_parts w h ps qs m (rw other at e)))
]

pub find_parts-put_parts :
    (h k : HostAddr)
    → (ps qs : List ℕ) → (m : HostParts) → addr_eq h k ≡ false
    → find_parts k m ≡ some ps
    → find_parts k (put_parts h qs m) ≡ some ps
unfolding find_parts put_parts
find_parts-put_parts h k ps qs [] n e = absurd (cc)
find_parts-put_parts h k ps qs ((x, rs) ∷ m) n e =
    ground
      (arith, addr_eq_iff x h, addr_eq_iff x k, addr_eq_iff h k, find_parts-put_parts h k ps qs m n)

-- How often a part is in a list.
unfoldable pub count : ℕ → List ℕ → ℕ
count p [] = 0
count p (q ∷ qs) = if q == p then suc (count p qs) else count p qs

-- How many hosts hold a part, where no host has it twice.
abbrev pub copies : ℕ → HostParts → ℕ
copies p m = total (count p) m

abbrev pub square : List ℕ → ℕ
square ps = length ps * length ps

pub count-append : (p : ℕ) → (xs ys : List ℕ) → count p (xs ++ ys) ≡ count p xs + count p ys
unfolding count
count-append p [] ys = omega arith
count-append p (x ∷ xs) ys = ground (arith, count-append p xs ys)

pub count-erase_part :
    (p q : ℕ)
    → (xs : List ℕ) → has_part q xs ≡ true
    → count p (erase_part q xs) + count p (q ∷ []) ≡ count p xs
unfolding count erase_part has_part
count-erase_part p q [] h = absurd (cc)
count-erase_part p q (x ∷ xs) h = ground (arith, count-erase_part p q xs)

pub length-erase_part :
    (q : ℕ) → (xs : List ℕ) → has_part q xs ≡ true → length (erase_part q xs) + 1 ≡ length xs
unfolding erase_part has_part
length-erase_part q [] h = absurd (cc)
length-erase_part q (x ∷ xs) h = ground (arith, length-erase_part q xs)

count-insert_part : (p q : ℕ) → (xs : List ℕ) → count p (insert_part q xs) ≡ count p (q ∷ xs)
unfolding count insert_part
count-insert_part p q [] = refl
count-insert_part p q (x ∷ xs) = ground (arith, count-insert_part p q xs)

pub count-sort_parts : (p : ℕ) → (xs : List ℕ) → count p (sort_parts xs) ≡ count p xs
unfolding count sort_parts
count-sort_parts p [] = refl
count-sort_parts p (x ∷ xs) =
    ground (arith, count-insert_part p x (sort_parts xs), count-sort_parts p xs)

length-insert_part : (q : ℕ) → (xs : List ℕ) → length (insert_part q xs) ≡ suc (length xs)
unfolding insert_part
length-insert_part q [] = refl
length-insert_part q (x ∷ xs) = ground (arith, length-insert_part q xs)

pub length-sort_parts : (xs : List ℕ) → length (sort_parts xs) ≡ length xs
unfolding sort_parts
length-sort_parts [] = refl
length-sort_parts (x ∷ xs) =
    omega (arith, length-insert_part x (sort_parts xs), length-sort_parts xs)

pub has_part-count : (p : ℕ) → (xs : List ℕ) → has_part p xs ≡ false → count p xs ≡ 0
unfolding has_part count
has_part-count p [] h = refl
has_part-count p (x ∷ xs) h = ground (arith, has_part-count p xs)
