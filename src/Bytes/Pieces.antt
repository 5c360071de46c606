-- ===== src/Bytes/Pieces.antt =====
-- Pieces of a string, as `subpiece(off, n)` and `StringPiece(p + off, n)` give them. A piece that
-- does not lie in the string is `none`: there the code reads memory that is not its own.
use nebula_storage.Prelude.{
  ℕ, ◌+◌, ◌^◌, ◌≤◌, ◌<◌, ◌≡◌, List, ◌++◌, Option, none, some, arith, length, take, drop, leb,
  if◌then◌else◌, length-append, length-take, length-drop, leb→le, take-append_left,
  take-append-drop, append_assoc, sym, ap, ◌∙◌, refl, drop-append_left,
}
use mathlib.Core.Option
use nebula_storage.Bytes.Words.{le_bytes, of_le, length-le_bytes, of_le-le_bytes}

unfoldable pub piece : ℕ → ℕ → List ℕ → Option (List ℕ)
piece off n s = if leb (off + n) (length s) then some (take n (drop off s)) else none

-- `readInt<T>(s.data() + off, n)` for an integer type of `n` bytes, as a bit pattern.
unfoldable pub read_int : ℕ → ℕ → List ℕ → Option ℕ
read_int off n s = Option.map of_le (piece off n s)

-- A piece is found behind whatever comes before it.
pub piece-append :
    (off n : ℕ) (before s after : List ℕ)
    → length before ≡ off
    → length s ≡ n
    → piece off n (before ++ (s ++ after)) ≡ some s
unfolding piece
piece-append off n before s after eb es = ground (
  arith,
  length-append before (s ++ after),
  length-append s after,
  drop-append_left off before (s ++ after) eb,
  take-append_left n s after es,
)

pub read_int-append :
    (off n v : ℕ) (before after : List ℕ)
    → length before ≡ off
    → v < 256 ^ n
    → read_int off n (before ++ (le_bytes n v ++ after)) ≡ some v
unfolding read_int
read_int-append off n v before after eb hv = ground (
  arith,
  piece-append off n before (le_bytes n v) after eb (length-le_bytes n v),
  of_le-le_bytes n v hv,
)

-- A piece, where there is one, has the length asked for.
pub length-piece :
    (off n : ℕ) (s p : List ℕ) → piece off n s ≡ some p → (length p ≡ n) × (off + n ≤ length s)
unfolding piece
length-piece off n s p e =
    ground (arith, length-take n (drop off s), length-drop off s, leb→le (off + n) (length s))

-- The same where the string is known only up to an equation.
pub piece_at :
    (off n : ℕ) (s before p after : List ℕ)
    → s ≡ before ++ (p ++ after)
    → length before ≡ off
    → length p ≡ n
    → piece off n s ≡ some p
piece_at off n s before p after e eb ep = rw e (piece-append off n before p after eb ep)

pub read_int_at :
    (off n v : ℕ) (s before after : List ℕ)
    → s ≡ before ++ (le_bytes n v ++ after)
    → length before ≡ off
    → v < 256 ^ n
    → read_int off n s ≡ some v
read_int_at off n v s before after e eb hv = rw e (read_int-append off n v before after eb hv)

-- A string around a piece of it.
pub piece_split :
    (off n : ℕ) (s p : List ℕ)
    → piece off n s ≡ some p
    → s ≡ take off s ++ (p ++ drop n (drop off s))
unfolding piece
piece_split off n s p e =
    let q : take n (drop off s) ≡ p = ground arith in
    sym (take-append-drop off s)
    ∙ ap (◌++◌ (take off s))
        (sym (take-append-drop n (drop off s)) ∙ ap (λ x. x ++ drop n (drop off s)) q)

-- The two halves of a piece.
pub piece_halves :
    (off n : ℕ) (s a b : List ℕ)
    → piece off n s ≡ some (a ++ b)
    → (piece off (length a) s ≡ some a) × (piece (off + length a) (length b) s ≡ some b)
piece_halves off n s a b e =
    let size = length-piece off n s (a ++ b) e in
    let front : length (take off s) ≡ off = omega (arith, length-take off s) in
    let split = piece_split off n s (a ++ b) e ∙ ap (◌++◌ (take off s)) (append_assoc a b _) in
    (
      piece_at off (length a) s (take off s) a (b ++ drop n (drop off s)) split front refl,
      piece_at (off + length a) (length b) s (take off s ++ a) b (drop n (drop off s))
          (split ∙ sym (append_assoc (take off s) a _))
          (omega (arith, length-append (take off s) a)) refl,
    )
