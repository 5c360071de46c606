-- ===== src/Bytes/Order.antt =====
-- The order in which a store that compares keys byte by byte keeps them, and big-endian integers,
-- whose order it is.
use Prim.Native.Nat.{compare, Ordering}
use mathlib.Core.List.{reverse, reverse-cons}
use mathlib.Core.Path.{ap₂}
use nebula_storage.Prelude.{
  ℕ, zero, suc, ◌/◌, ◌%◌, ◌^◌, ◌<◌, ◌≡◌, refl, sym, ◌∙◌, List, [], ◌∷◌, ◌++◌, arith, length,
  length-append,
}
use nebula_storage.Bytes.Words.{le_bytes}

-- The shorter of two strings comes first where it is a prefix of the other.
unfoldable pub lex_compare : List ℕ → List ℕ → Ordering
lex_compare [] [] = Ordering.eq
lex_compare [] (y ∷ ys) = Ordering.lt
lex_compare (x ∷ xs) [] = Ordering.gt
lex_compare (x ∷ xs) (y ∷ ys) = elim (compare x y) [
  | Ordering.lt ↦ Ordering.lt
  | Ordering.eq ↦ lex_compare xs ys
  | Ordering.gt ↦ Ordering.gt
]

-- The first difference decides.
abbrev pub first_of_two : Ordering → Ordering → Ordering
first_of_two Ordering.lt q = Ordering.lt
first_of_two Ordering.eq q = q
first_of_two Ordering.gt q = Ordering.gt

-- The `n` low bytes of `v`, highest first: `folly::Endian::big` before the bytes are appended.
unfoldable pub be_bytes : ℕ → ℕ → List ℕ
be_bytes n v = reverse (le_bytes n v)

pub lex_compare-append :
    (xs ys us vs : List ℕ)
    → length xs ≡ length ys
    → lex_compare (xs ++ us) (ys ++ vs) ≡ first_of_two (lex_compare xs ys) (lex_compare us vs)
unfolding lex_compare
lex_compare-append [] [] us vs e = refl
lex_compare-append [] (y ∷ ys) us vs e = absurd (omega arith)
lex_compare-append (x ∷ xs) [] us vs e = absurd (omega arith)
lex_compare-append (x ∷ xs) (y ∷ ys) us vs e =
    ground (arith, lex_compare-append xs ys us vs (omega arith))

pub lex_compare_self : (xs : List ℕ) → lex_compare xs xs ≡ Ordering.eq
unfolding lex_compare
lex_compare_self [] = refl
lex_compare_self (x ∷ xs) = ground (arith, lex_compare_self xs)

be_bytes-suc : (n v : ℕ) → be_bytes (suc n) v ≡ be_bytes n (v / 256) ++ (v % 256) ∷ []
unfolding be_bytes le_bytes
be_bytes-suc n v = reverse-cons (v % 256) (le_bytes n (v / 256))

pub length-be_bytes : (n v : ℕ) → length (be_bytes n v) ≡ n
length-be_bytes zero v = unfold be_bytes le_bytes in refl
length-be_bytes (suc n) v = rw be_bytes-suc (
    omega
      (arith, length-append (be_bytes n (v / 256)) ((v % 256) ∷ []), length-be_bytes n (v / 256)))

one_byte : (a b : ℕ) → lex_compare (a ∷ []) (b ∷ []) ≡ compare a b
unfolding lex_compare
one_byte a b = ground arith

compare_digits :
    (a b : ℕ)
    → first_of_two (compare (a / 256) (b / 256)) (compare (a % 256) (b % 256)) ≡ compare a b
compare_digits a b = ground arith

-- Big-endian integers of one width are ordered as the integers are.
pub lex_compare-be_bytes :
    (n a b : ℕ)
    → a < 256 ^ n
    → b < 256 ^ n
    → lex_compare (be_bytes n a) (be_bytes n b) ≡ compare a b
lex_compare-be_bytes zero a b ha hb = unfold be_bytes le_bytes lex_compare in ground arith
lex_compare-be_bytes (suc n) a b ha hb =
    rw (be_bytes-suc n a, be_bytes-suc n b)
      (lex_compare-append (be_bytes n (a / 256)) (be_bytes n (b / 256)) _ _
          (length-be_bytes n (a / 256) ∙ sym (length-be_bytes n (b / 256)))
        ∙ ap₂ first_of_two (lex_compare-be_bytes n (a / 256) (b / 256) (omega arith) (omega arith))
            (one_byte (a % 256) (b % 256))
        ∙ compare_digits a b)
