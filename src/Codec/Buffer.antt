-- ===== src/Codec/Buffer.antt =====
-- Writing into a buffer: `memcpy` and assignments into `buf_`, and the bits of its null flags.
use nebula_storage.Prelude.{
  ℕ, zero, suc, ◌+◌, ◌≤◌, ◌<◌, ◌≡◌, refl, ap, ◌⊎◌, List, [], ◌∷◌, ◌++◌, some, arith, length,
  get_elem?, get_or, take, drop, length-append, length-take,
}
use nebula_storage.Bytes.Pieces.{piece, piece_at}

-- The bytes from the front on; what does not fit is dropped.
unfoldable pub lay : List ℕ → List ℕ → List ℕ
lay [] s = s
lay (b ∷ bs) [] = []
lay (b ∷ bs) (x ∷ s) = b ∷ lay bs s

-- `memcpy(&buf[off], bs, length bs)`. The code writes behind the end where the bytes do not fit; here
-- they are dropped.
unfoldable pub put : ℕ → List ℕ → List ℕ → List ℕ
unfolding lay
put zero bs s = lay bs s
put (suc off) bs [] = []
put (suc off) bs (x ∷ s) = x ∷ put off bs s

pub length-put : (off : ℕ) (bs s : List ℕ) → length (put off bs s) ≡ length s
unfolding put
length-put zero [] s = refl
length-put zero (b ∷ bs) [] = refl
length-put zero (b ∷ bs) (x ∷ s) = ap suc (length-put zero bs s)
length-put (suc off) bs [] = refl
length-put (suc off) bs (x ∷ s) = ap suc (length-put off bs s)

lay_split : (bs s : List ℕ) → length bs ≤ length s → lay bs s ≡ bs ++ drop (length bs) s
unfolding lay
lay_split [] s h = refl
lay_split (b ∷ bs) [] h = absurd (omega arith)
lay_split (b ∷ bs) (x ∷ s) h = ap (◌∷◌ b) (lay_split bs s (omega arith))

put_split :
    (off : ℕ) (bs s : List ℕ)
    → off + length bs ≤ length s
    → put off bs s ≡ take off s ++ (bs ++ drop (length bs) (drop off s))
unfolding put
put_split zero bs s h = lay_split bs s (omega arith)
put_split (suc off) [] [] h = absurd (omega arith)
put_split (suc off) (b ∷ bs) [] h = absurd (omega arith)
put_split (suc off) bs (x ∷ s) h = ap (◌∷◌ x) (put_split off bs s (omega arith))

-- What was written is read.
pub piece-put_self :
    (off : ℕ) (bs s : List ℕ)
    → off + length bs ≤ length s
    → piece off (length bs) (put off bs s) ≡ some bs
piece-put_self off bs s h =
    piece_at off (length bs) (put off bs s) (take off s) bs (drop (length bs) (drop off s))
      (put_split off bs s h) (omega (arith, length-take off s)) refl

pub get_elem?-put_ne :
    (off : ℕ) (bs s : List ℕ) (i : ℕ)
    → (i < off) ⊎ (off + length bs ≤ i)
    → get_elem? (put off bs s) i ≡ get_elem? s i
unfolding put
get_elem?-put_ne zero [] s i h = refl
get_elem?-put_ne zero (b ∷ bs) [] i h = refl
get_elem?-put_ne zero (b ∷ bs) (x ∷ s) zero h = absurd (omega arith)
get_elem?-put_ne zero (b ∷ bs) (x ∷ s) (suc i) h = get_elem?-put_ne zero bs s i (omega arith)
get_elem?-put_ne (suc off) bs [] i h = refl
get_elem?-put_ne (suc off) bs (x ∷ s) zero h = refl
get_elem?-put_ne (suc off) bs (x ∷ s) (suc i) h = get_elem?-put_ne off bs s i (omega arith)

take-drop_ext :
    (off n : ℕ) (s t : List ℕ)
    → length s ≡ length t
    → ((i : ℕ) → off ≤ i → i < off + n → get_elem? s i ≡ get_elem? t i)
    → take n (drop off s) ≡ take n (drop off t)
take-drop_ext off n [] [] e h = refl
take-drop_ext off n [] (y ∷ t) e h = absurd (omega arith)
take-drop_ext off n (x ∷ s) [] e h = absurd (omega arith)
take-drop_ext zero zero (x ∷ s) (y ∷ t) e h = refl
take-drop_ext zero (suc n) (x ∷ s) (y ∷ t) e h = cc (
  h 0 (omega arith) (omega arith),
  take-drop_ext zero n s t (omega arith) (λ i p q. h (suc i) (omega arith) (omega arith)),
)
take-drop_ext (suc off) n (x ∷ s) (y ∷ t) e h =
    take-drop_ext off n s t (omega arith) (λ i p q. h (suc i) (omega arith) (omega arith))

-- A piece that does not meet what is written stays.
pub piece-put_ne :
    (o n off : ℕ) (bs s : List ℕ)
    → (o + n ≤ off) ⊎ (off + length bs ≤ o)
    → piece o n (put off bs s) ≡ piece o n s
unfolding piece
piece-put_ne o n off bs s h = cc (
  length-put off bs s,
  take-drop_ext o n (put off bs s) s (length-put off bs s)
      (λ i p q. get_elem?-put_ne off bs s i (omega arith)),
)

take-drop-append :
    (o n : ℕ) (s t : List ℕ) → o + n ≤ length s → take n (drop o (s ++ t)) ≡ take n (drop o s)
take-drop-append zero zero s t h = refl
take-drop-append zero (suc n) [] t h = absurd (omega arith)
take-drop-append zero (suc n) (x ∷ s) t h = ap (◌∷◌ x) (take-drop-append zero n s t (omega arith))
take-drop-append (suc o) zero [] t h = absurd (omega arith)
take-drop-append (suc o) (suc n) [] t h = absurd (omega arith)
take-drop-append (suc o) n (x ∷ s) t h = take-drop-append o n s t (omega arith)

-- A piece that is there stays when the buffer grows.
pub piece-append_right :
    (o n : ℕ) (s t p : List ℕ) → piece o n s ≡ some p → piece o n (s ++ t) ≡ some p
unfolding piece
piece-append_right o n s t p e = ground (arith, length-append s t, take-drop-append o n s t)

pub get_or-put_ne :
    (off : ℕ) (bs s : List ℕ) (i : ℕ)
    → (i < off) ⊎ (off + length bs ≤ i)
    → get_or (put off bs s) i 0 ≡ get_or s i 0
unfolding put
get_or-put_ne zero [] s i h = refl
get_or-put_ne zero (b ∷ bs) [] i h = refl
get_or-put_ne zero (b ∷ bs) (x ∷ s) zero h = absurd (omega arith)
get_or-put_ne zero (b ∷ bs) (x ∷ s) (suc i) h = get_or-put_ne zero bs s i (omega arith)
get_or-put_ne (suc off) bs [] i h = refl
get_or-put_ne (suc off) bs (x ∷ s) zero h = refl
get_or-put_ne (suc off) bs (x ∷ s) (suc i) h = get_or-put_ne off bs s i (omega arith)

pub get_or-put_self :
    (off b : ℕ) (s : List ℕ) → off < length s → get_or (put off (b ∷ []) s) off 0 ≡ b
unfolding put
get_or-put_self zero b [] h = absurd (omega arith)
get_or-put_self zero b (x ∷ s) h = refl
get_or-put_self (suc off) b [] h = absurd (omega arith)
get_or-put_self (suc off) b (x ∷ s) h = get_or-put_self off b s (omega arith)

pub get_or-append : (s t : List ℕ) (i : ℕ) → i < length s → get_or (s ++ t) i 0 ≡ get_or s i 0
get_or-append [] t i h = absurd (omega arith)
get_or-append (x ∷ s) t zero h = refl
get_or-append (x ∷ s) t (suc i) h = get_or-append s t i (omega arith)

pub get_elem?-append {ℓ} :
    {A : Type ℓ} (s t : List A) (i : ℕ) {x : A}
    → get_elem? s i ≡ some x
    → get_elem? (s ++ t) i ≡ some x
get_elem?-append [] t i e = cc
get_elem?-append (x ∷ s) t zero e = e
get_elem?-append (x ∷ s) t (suc i) e = get_elem?-append s t i e

pub get_elem?-append_last {ℓ} :
    {A : Type ℓ} (s : List A) (x : A) → get_elem? (s ++ x ∷ []) (length s) ≡ some x
get_elem?-append_last [] x = refl
get_elem?-append_last (y ∷ s) x = get_elem?-append_last s x

pub piece-append_in : (o n : ℕ) (s t : List ℕ) → o + n ≤ length s → piece o n (s ++ t) ≡ piece o n s
unfolding piece
piece-append_in o n s t h = ground (arith, length-append s t, take-drop-append o n s t)
