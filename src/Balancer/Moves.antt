-- ===== src/Balancer/Moves.antt =====
-- Balancer.cpp, balanceParts: the parts that go from the largest host to the smallest in one round.
use nebula_storage.Prelude.{
  ℕ, ◌+◌, ◌*◌, ◌<◌, ◌≤◌, ◌≡◌, ◌≢◌, refl, ap, ◌∙◌, subst, true, false, not, ◌&&◌, List, [], ◌∷◌,
  ◌++◌, Option, none, some, arith, length, Bool-cases, inl, inr, length-append,
}
use nebula_storage.Balancer.{move_parts, moved_also, stops, has_part, erase_part}
use nebula_storage.Balancer.Measure.{
  count, square, count-append, count-erase_part, length-erase_part, has_part-count,
}

-- What moving parts from `f` to `t` keeps, and what it makes smaller.
pub record Moved (f t f' t' ms : List ℕ) : Type 0 where
  pub counts : (p : ℕ) → count p f' + count p t' ≡ count p f + count p t
  pub once : (p : ℕ) → count p f ≤ 1 → count p t ≤ 1 → (count p f' ≤ 1) × (count p t' ≤ 1)
  pub lengths : length f' + length t' ≡ length f + length t
  pub squares : square f' + square t' ≤ square f + square t
  pub progress : ms ≢ [] → square f' + square t' < square f + square t

-- The loads between which a round moves parts.
pub record Between (lo hi : ℕ) (f t : List ℕ) : Type 0 where
  pub above : lo ≤ length f
  pub below : length t ≤ hi
  pub close : hi ≤ lo + 1

unmoved : (f t : List ℕ) → Moved f t f t []
unmoved f t = record {
  counts = λ p. refl;
  once = λ p a b. (a, b);
  lengths = refl;
  squares = omega arith;
  progress = λ n. absurd (n refl);
}

squares-closer : (a b c d : ℕ) → c + 1 ≡ a → d ≡ b + 1 → b + 2 ≤ a → c * c + d * d < a * a + b * b
squares-closer a b c d e f g = omega (arith, ap (λ (t : ℕ). t * t) e, ap (λ (t : ℕ). t * t) f)

abbrev unwrap :
    List ℕ × List ℕ × List ℕ → Option (List ℕ × List ℕ × List ℕ) → List ℕ × List ℕ × List ℕ
unwrap x none = x
unwrap x (some y) = y

unmoved-Moved :
    (f t f' t' ms : List ℕ)
    → ◌≡◌ {A = Option (List ℕ × List ℕ × List ℕ)} (some (f, t, [])) (some (f', t', ms))
    → Moved f t f' t' ms
unmoved-Moved f t f' t' ms e =
    subst (λ (x : List ℕ × List ℕ × List ℕ). Moved f t x.0 x.1 x.2) (ap (unwrap (f, t, [])) e)
      (unmoved f t)

one-once :
    (p q : ℕ)
    → (f t : List ℕ) → has_part p f ≡ true
    → has_part p t ≡ false
    → count q f ≤ 1
    → count q t ≤ 1
    → (count q (erase_part p f) ≤ 1) × (count q (t ++ p ∷ []) ≤ 1)
unfolding count
one-once p q f t inside outside a b =
    let taken = count-erase_part q p f inside in
    let put = count-append q t (p ∷ []) in
    let absent = has_part-count p t outside in (ground arith, ground arith)

one-Moved :
    (p : ℕ)
    → (f t : List ℕ) → has_part p f ≡ true
    → has_part p t ≡ false
    → length t + 2 ≤ length f
    → Moved f t (erase_part p f) (t ++ p ∷ []) (p ∷ [])
unfolding count
one-Moved p f t inside outside far =
    let shorter = length-erase_part p f inside in
    let longer = length-append t (p ∷ []) in
    let less =
      squares-closer (length f) (length t) (length (erase_part p f)) (length (t ++ p ∷ [])) shorter
        longer far in
    record {
      counts = λ (q : ℕ). omega (arith, count-erase_part q p f inside, count-append q t (p ∷ []));
      once = λ (q : ℕ) a b. one-once p q f t inside outside a b;
      lengths = omega (arith, shorter, longer);
      squares = omega (arith, less);
      progress = λ n. less;
    }

then-Moved :
    (p : ℕ)
    → (f t f' t' f'' t'' ms : List ℕ) → Moved f t f' t' (p ∷ [])
    → Moved f' t' f'' t'' ms
    → Moved f t f'' t'' (p ∷ ms)
then-Moved p f t f' t' f'' t'' ms a b = record {
  counts = λ (q : ℕ). b.counts q ∙ a.counts q;
  once = λ (q : ℕ) c d. let (x, y) = a.once q c d in b.once q x y;
  lengths = b.lengths ∙ a.lengths;
  squares = let u = a.squares in let v = b.squares in omega (arith, u, v);
  progress = λ n.
      let u = a.progress (λ e. omega (arith, ap length e)) in
      let v = b.squares in omega (arith, u, v);
}

moved_also-some :
    (p : ℕ)
    → (o : Option (List ℕ × List ℕ × List ℕ)) → (f t ms : List ℕ) → moved_also p o ≡ some (f, t, ms)
    → (rest : List ℕ) × (o ≡ some (f, t, rest)) × (ms ≡ p ∷ rest)
moved_also-some p none f t ms e = absurd (cc)
moved_also-some p (some (a, b, rest)) f t ms e = (rest, ground arith, ground arith)

-- Between the loads, a part that is moved leaves the larger host still larger by two.
stops-far :
    (lo hi : ℕ)
    → (f t : List ℕ) → Between lo hi f t
    → stops lo hi f t ≡ false
    → length t + 2 ≤ length f
stops-far lo hi f t b e = let x = b.above in let y = b.below in let z = b.close in ground arith

stops-Between :
    (lo hi p : ℕ)
    → (f t : List ℕ) → Between lo hi f t
    → stops lo hi f t ≡ false
    → has_part p f ≡ true
    → Between lo hi (erase_part p f) (t ++ p ∷ [])
stops-Between lo hi p f t b e inside =
    let x = b.above in
    let y = b.below in
    let shorter = length-erase_part p f inside in
    let longer = length-append t (p ∷ []) in
    record { above = ground arith; below = ground arith; close = b.close }

pub move_parts-Moved :
    (lo hi : ℕ)
    → (ds f t f' t' ms : List ℕ) → Between lo hi f t
    → move_parts lo hi ds f t ≡ some (f', t', ms)
    → Moved f t f' t' ms
unfolding move_parts
move_parts-Moved lo hi [] f t f' t' ms b e = unmoved-Moved f t f' t' ms e
move_parts-Moved lo hi (p ∷ ps) f t f' t' ms b e = elim (Bool-cases (stops lo hi f t)) [
  | inl stop ↦ unmoved-Moved f t f' t' ms (rw stop at e)
  | inr go ↦ elim (Bool-cases (has_part p f && not (has_part p t))) [
    | inr bad ↦ absurd (ground arith)
    | inl good ↦
        let inside : has_part p f ≡ true = ground arith in
        let outside : has_part p t ≡ false = ground arith in
        let (rest, more, same) =
          moved_also-some p (move_parts lo hi ps (erase_part p f) (t ++ p ∷ [])) f' t' ms
            (rw (go, good) at e) in
        let first = one-Moved p f t inside outside (stops-far lo hi f t b go) in
        let later =
          move_parts-Moved lo hi ps (erase_part p f) (t ++ p ∷ []) f' t' rest
            (stops-Between lo hi p f t b go inside) more in
        rw same (then-Moved p f t (erase_part p f) (t ++ p ∷ []) f' t' rest first later)
  ]
]

-- Between hosts of one size, and from a host to itself, nothing moves.
pub move_parts-level :
    (lo hi : ℕ)
    → (ds f t f' t' ms : List ℕ) → Between lo hi f t
    → length f ≤ length t
    → move_parts lo hi ds f t ≡ some (f', t', ms)
    → ◌≡◌ {A = List ℕ × List ℕ × List ℕ} (f, t, []) (f', t', ms)
unfolding move_parts
move_parts-level lo hi [] f t f' t' ms b le e = ap (unwrap (f, t, [])) e
move_parts-level lo hi (p ∷ ps) f t f' t' ms b le e = elim (Bool-cases (stops lo hi f t)) [
  | inl stop ↦ ap (unwrap (f, t, [])) (rw stop at e)
  | inr go ↦ absurd (omega (arith, le, stops-far lo hi f t b go))
]
