-- ===== src/Balancer/Difference.antt =====
-- Balancer.cpp, balanceParts: what std::set_difference of two hosts' parts can be moved.
use nebula_storage.Prelude.{
  ℕ, ◌≤◌, ◌≡◌, ◌≢◌, refl, sym, ◌∙◌, subst, Bool, true, false, ◌||◌, List, [], ◌∷◌, ◌++◌, Option,
  none, some, arith, leb, ltb, ◌==◌, Bool-cases, inl, inr,
}
use nebula_storage.Balancer.{
  has_part, erase_part, insert_part, sort_parts, skip_less, difference_at, set_difference,
  move_parts, moved_also, stops,
}
use nebula_storage.Balancer.Measure.{count, count-sort_parts}

-- Parts in ascending order.
abbrev IsAscending : List ℕ → Type 0
IsAscending [] = Unit
IsAscending (p ∷ ps) = ((r : ℕ) → has_part r ps ≡ true → p ≤ r) × IsAscending ps

has_part-insert_part :
    (r p : ℕ) → (xs : List ℕ) → has_part r (insert_part p xs) ≡ has_part r (p ∷ xs)
unfolding has_part insert_part
has_part-insert_part r p [] = refl
has_part-insert_part r p (x ∷ xs) = ground (arith, has_part-insert_part r p xs)

insert_part-IsAscending : (p : ℕ) → (xs : List ℕ) → IsAscending xs → IsAscending (insert_part p xs)
unfolding has_part insert_part
insert_part-IsAscending p [] h = ((λ r e. absurd (cc)), tt)
insert_part-IsAscending p (x ∷ xs) (a, h) = elim (Bool-cases (leb p x)) [
  | inl e ↦ rw e ((λ (r : ℕ) i. ground (arith, a r)), (a, h))
  | inr e ↦ rw e (
    (λ (r : ℕ) i. ground (arith, a r, has_part-insert_part r p xs)),
    insert_part-IsAscending p xs h,
  )
]

sort_parts-IsAscending : (xs : List ℕ) → IsAscending (sort_parts xs)
unfolding sort_parts
sort_parts-IsAscending [] = tt
sort_parts-IsAscending (x ∷ xs) =
    insert_part-IsAscending x (sort_parts xs) (sort_parts-IsAscending xs)

-- From a part on, skipping the smaller ones loses nothing.
has_part-skip_less : (p r : ℕ) → p ≤ r → (xs : List ℕ) → has_part r (skip_less p xs) ≡ has_part r xs
unfolding has_part skip_less
has_part-skip_less p r le [] = refl
has_part-skip_less p r le (x ∷ xs) = ground (arith, has_part-skip_less p r le xs)

skip_less-IsAscending : (p : ℕ) → (xs : List ℕ) → IsAscending xs → IsAscending (skip_less p xs)
unfolding skip_less
skip_less-IsAscending p [] h = tt
skip_less-IsAscending p (x ∷ xs) (a, h) = elim (Bool-cases (ltb x p)) [
  | inl e ↦ rw e (skip_less-IsAscending p xs h)
  | inr e ↦ rw e (a, h)
]

-- No part stands twice.
abbrev IsApart : List ℕ → Type 0
IsApart [] = Unit
IsApart (p ∷ ps) = (has_part p ps ≡ false) × IsApart ps

count-has_part : (p : ℕ) → (xs : List ℕ) → has_part p xs ≡ true → 1 ≤ count p xs
unfolding has_part count
count-has_part p [] h = absurd (cc)
count-has_part p (x ∷ xs) h = ground (arith, count-has_part p xs)

once-IsApart : (xs : List ℕ) → ((p : ℕ) → count p xs ≤ 1) → IsApart xs
unfolding count
once-IsApart [] o = tt
once-IsApart (x ∷ xs) o =
    (ground (arith, o x, count-has_part x xs), once-IsApart xs (λ (p : ℕ). ground (arith, o p)))

-- The parts that `f` has and `t` has not.
abbrev Movable : List ℕ → List ℕ → List ℕ → Type 0
Movable f t ds = (r : ℕ) → has_part r ds ≡ true → (has_part r f ≡ true) × (has_part r t ≡ false)

skip_less-above :
    (p r : ℕ) → (xs : List ℕ) → IsAscending xs → has_part r (skip_less p xs) ≡ true → p ≤ r
unfolding has_part skip_less
skip_less-above p r [] h e = absurd (cc)
skip_less-above p r (x ∷ xs) (a, h) e = elim (Bool-cases (ltb x p)) [
  | inl small ↦ skip_less-above p r xs h (rw small at e)
  | inr large ↦ ground (arith, a r)
]

Movable-head :
    (p q : ℕ)
    → (qs : List ℕ) → IsAscending (q ∷ qs)
    → p ≤ q
    → q == p ≡ false
    → has_part p (q ∷ qs) ≡ false
unfolding has_part
Movable-head p q qs (a, h) le n = elim (Bool-cases (has_part p qs)) [
  | inl e ↦ absurd (let up = a p e in ground arith)
  | inr e ↦ rw e (ground arith)
]

Movable-tail :
    (p q r : ℕ)
    → (ps qs : List ℕ) → has_part p ps ≡ false
    → has_part r ps ≡ true
    → has_part r qs ≡ false
    → q == p ≡ true
    → has_part r (q ∷ qs) ≡ false
unfolding has_part
Movable-tail p q r ps qs fresh inside outside e = elim (Bool-cases (q == r)) [
  | inl f ↦
      let one : p ≡ r = ground arith in
      absurd (ground (arith, subst (λ (k : ℕ). has_part k ps ≡ false) one fresh))
  | inr f ↦ rw f outside
]

difference_at-Movable :
    (p : ℕ)
    → (ps t s : List ℕ) → ((r : ℕ) → has_part r ps ≡ true → p ≤ r)
    → has_part p ps ≡ false
    → ((r : ℕ) → p ≤ r → has_part r s ≡ has_part r t)
    → IsAscending s
    → ((r : ℕ) → has_part r s ≡ true → p ≤ r)
    → ((xs : List ℕ) → IsAscending xs → Movable ps xs (set_difference ps xs))
    → Movable (p ∷ ps) t (difference_at p (set_difference ps) s)
unfolding has_part
difference_at-Movable p ps t [] a fresh same asc u ih r i = elim (Bool-cases (p == r)) [
  | inl e ↦ (ground arith, ground (arith, same r))
  | inr e ↦
      let (inside, _) = ih [] tt r (ground arith) in
      let le = a r inside in (ground arith, ground (arith, same r))
]
difference_at-Movable p ps t (q ∷ qs) a fresh same asc u ih r i = elim (Bool-cases (q == p)) [
  | inl e ↦
      let (inside, outside) = ih qs asc.1 r (rw e at i) in
      let le = a r inside in
      (ground arith, sym (same r le) ∙ Movable-tail p q r ps qs fresh inside outside e)
  | inr e ↦ elim (Bool-cases (p == r)) [
    | inl f ↦
        let up : p ≤ q = u q (ground arith) in
        let none_here = Movable-head p q qs asc up e in
        (
          ground arith,
          subst (λ (k : ℕ). has_part k t ≡ false) (ground arith)
              (sym (same p (omega arith)) ∙ none_here),
        )
    | inr f ↦
        let (inside, outside) = ih (q ∷ qs) asc r (rw (e, f) at i) in
        let le = a r inside in (ground arith, sym (same r le) ∙ outside)
  ]
]

set_difference-Movable :
    (ps t : List ℕ)
    → IsAscending ps
    → IsApart ps
    → IsAscending t
    → Movable ps t (set_difference ps t)
unfolding set_difference has_part
set_difference-Movable [] t h d u = λ r i. absurd (cc)
set_difference-Movable (p ∷ ps) t (a, h) (fresh, d) u =
    difference_at-Movable p ps t (skip_less p t) a fresh (λ r le. has_part-skip_less p r le t)
      (skip_less-IsAscending p t u) (λ r e. skip_less-above p r t u e)
      (λ xs v. set_difference-Movable ps xs h d v)

going : false ≢ true
going e = cc

not-true : {b : Bool} → (b ≡ true → b ≡ false) → b ≡ false
not-true {b} h = elim (Bool-cases b) [ inl e ↦ h e | inr e ↦ e ]

difference_at-IsApart :
    (p : ℕ)
    → (ps s : List ℕ) → has_part p ps ≡ false
    → IsAscending s
    → ((xs : List ℕ) → IsAscending xs → IsApart (set_difference ps xs))
    → ((xs : List ℕ) → IsAscending xs → Movable ps xs (set_difference ps xs))
    → IsApart (difference_at p (set_difference ps) s)
difference_at-IsApart p ps [] fresh asc ih mv =
    (not-true (λ e. absurd (going (sym fresh ∙ (mv [] tt p e).0))), ih [] tt)
difference_at-IsApart p ps (q ∷ qs) fresh asc ih mv = elim (Bool-cases (q == p)) [
  | inl e ↦ rw e (ih qs asc.1)
  | inr e ↦
      rw e (not-true (λ i. absurd (going (sym fresh ∙ (mv (q ∷ qs) asc p i).0))), ih (q ∷ qs) asc)
]

set_difference-IsApart :
    (ps t : List ℕ) → IsAscending ps → IsApart ps → IsAscending t → IsApart (set_difference ps t)
unfolding set_difference
set_difference-IsApart [] t h d u = tt
set_difference-IsApart (p ∷ ps) t (a, h) (fresh, d) u =
    difference_at-IsApart p ps (skip_less p t) fresh (skip_less-IsAscending p t u)
      (λ xs v. set_difference-IsApart ps xs h d v) (λ xs v. set_difference-Movable ps xs h d v)

has_part-append : (r p : ℕ) → (xs : List ℕ) → has_part r (xs ++ p ∷ []) ≡ has_part r xs || p == r
unfolding has_part
has_part-append r p [] = ground arith
has_part-append r p (x ∷ xs) = ground (arith, has_part-append r p xs)

has_part-erase_part :
    (r p : ℕ) → p == r ≡ false → (xs : List ℕ) → has_part r (erase_part p xs) ≡ has_part r xs
unfolding has_part erase_part
has_part-erase_part r p n [] = refl
has_part-erase_part r p n (x ∷ xs) = ground (arith, has_part-erase_part r p n xs)

also-none : (p : ℕ) → (o : Option (List ℕ × List ℕ × List ℕ)) → moved_also p o ≡ none → o ≡ none
also-none p none e = refl
also-none p (some (f, t, ms)) e = absurd (cc)

erase-Movable :
    (p : ℕ)
    → (ps f t : List ℕ) → has_part p ps ≡ false
    → Movable f t (p ∷ ps)
    → Movable (erase_part p f) (t ++ p ∷ []) ps
unfolding has_part
erase-Movable p ps f t fresh mv r i = elim (Bool-cases (p == r)) [
  | inl e ↦
      let one : p ≡ r = ground arith in
      absurd (going (sym fresh ∙ subst (λ (k : ℕ). has_part k ps ≡ true) (sym one) i))
  | inr e ↦
      let (inside, outside) = mv r (ground arith) in
      (has_part-erase_part r p e f ∙ inside, ground (arith, has_part-append r p t))
]

move_parts-answers :
    (lo hi : ℕ) → (ds f t : List ℕ) → IsApart ds → Movable f t ds → move_parts lo hi ds f t ≢ none
unfolding move_parts has_part
move_parts-answers lo hi [] f t d mv e = cc
move_parts-answers lo hi (p ∷ ps) f t (fresh, d) mv e = elim (Bool-cases (stops lo hi f t)) [
  | inl stop ↦ absurd (ground arith)
  | inr go ↦
      let (inside, outside) = mv p (ground arith) in
      let rest =
        move_parts-answers lo hi ps (erase_part p f) (t ++ p ∷ []) d
          (erase-Movable p ps f t fresh mv) in
      rest (
        also-none p (move_parts lo hi ps (erase_part p f) (t ++ p ∷ []))
          (rw (go, inside, outside) at e))
]

-- The parts of two hosts that hold none twice can be moved.
pub difference-answers :
    (lo hi : ℕ)
    → (ps qs : List ℕ) → ((p : ℕ) → count p ps ≤ 1)
    → move_parts lo hi
        (set_difference (sort_parts ps) (sort_parts qs))
        (sort_parts ps)
        (sort_parts qs)
      ≢ none
difference-answers lo hi ps qs o =
    let asc = sort_parts-IsAscending ps in
    let to = sort_parts-IsAscending qs in
    let apart =
      once-IsApart (sort_parts ps)
        (λ (p : ℕ). let here = o p in omega (arith, count-sort_parts p ps, here)) in
    move_parts-answers lo hi (set_difference (sort_parts ps) (sort_parts qs)) (sort_parts ps)
      (sort_parts qs) (set_difference-IsApart (sort_parts ps) (sort_parts qs) asc apart to)
      (set_difference-Movable (sort_parts ps) (sort_parts qs) asc apart to)
