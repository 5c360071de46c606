-- ===== src/Codec/Bits.antt =====
-- The bits of the null flags: the tables of masks in RowWriterV2::setNullBit, clearNullBit and
-- checkNullBit, and in RowReaderV2::isNull.
use Prim.Native.Nat.{bit_and, bit_or}
use nebula_storage.Prelude.{
  ℕ, zero, suc, ◌<◌, ◌≡◌, refl, Bool, true, false, ◌&&◌, not, List, [], ◌∷◌, arith, get_or,
  if◌then◌else◌, ltb, ◌==◌,
}

-- Bit `k` of a byte, counted from the highest: `orBits`, `andBits` and `bits` of the sources.
abbrev or_bits : List ℕ
or_bits = 0x80 ∷ 0x40 ∷ 0x20 ∷ 0x10 ∷ 0x08 ∷ 0x04 ∷ 0x02 ∷ 0x01 ∷ []

abbrev and_bits : List ℕ
and_bits = 0x7F ∷ 0xBF ∷ 0xDF ∷ 0xEF ∷ 0xF7 ∷ 0xFB ∷ 0xFD ∷ 0xFE ∷ []

unfoldable pub set_bit : ℕ → ℕ → ℕ
set_bit k b = bit_or b (get_or or_bits k 0)

unfoldable pub clear_bit : ℕ → ℕ → ℕ
clear_bit k b = bit_and b (get_or and_bits k 0)

unfoldable pub test_bit : ℕ → ℕ → Bool
test_bit k b = not (bit_and b (get_or or_bits k 0) == 0)

-- A test of each number below a bound, which runs.
passes : (ℕ → Bool) → ℕ → Bool
passes test zero = true
passes test (suc last) = passes test last && test last

passes_each : (test : ℕ → Bool) (bound k : ℕ) → k < bound → passes test bound ≡ true → test k ≡ true
unfolding passes
passes_each test zero k below e = absurd (omega arith)
passes_each test (suc last) k below e = ground (arith, passes_each test last k)

same : Bool → Bool → Bool
same true b = b
same false b = not b

same_sound : (a b : Bool) → same a b ≡ true → a ≡ b
unfolding same
same_sound true b h = cc
same_sound false true h = cc
same_sound false false h = refl

-- What one byte tells of the masks at `k` and `j`.
masks_agree : ℕ → ℕ → ℕ → Bool
unfolding same set_bit clear_bit test_bit
masks_agree k j b =
    ltb (set_bit k b) 256
    && ltb (clear_bit k b) 256
    && same (test_bit j (set_bit k b)) (if j == k then true else test_bit j b)
    && same (test_bit j (clear_bit k b)) (if j == k then false else test_bit j b)

one_pair : ℕ → ℕ → Bool
unfolding passes masks_agree
one_pair k j = passes (masks_agree k j) 256

one_mask : ℕ → Bool
unfolding one_pair
one_mask k = passes (one_pair k) 8

every_mask : passes one_mask 8 ≡ true
unfolding one_mask
every_mask = refl

masks : (k j b : ℕ) → k < 8 → j < 8 → b < 256 → masks_agree k j b ≡ true
unfolding one_mask one_pair
masks k j b hk hj hb =
    let mask : one_mask k ≡ true = passes_each one_mask 8 k hk every_mask in
    let pair : one_pair k j ≡ true = passes_each (one_pair k) 8 j hj mask in
    passes_each (masks_agree k j) 256 b hb pair

module _ (k j b : ℕ) (hk : k < 8) (hj : j < 8) (hb : b < 256) where
  -- A bit that is set is set, and the others stay.
  pub test_bit-set_bit : test_bit j (set_bit k b) ≡ (if j == k then true else test_bit j b)
  unfolding masks_agree
  test_bit-set_bit = same_sound _ _ (ground (arith, masks k j b hk hj hb))

  pub test_bit-clear_bit : test_bit j (clear_bit k b) ≡ (if j == k then false else test_bit j b)
  unfolding masks_agree
  test_bit-clear_bit = same_sound _ _ (ground (arith, masks k j b hk hj hb))

module _ (k b : ℕ) (hk : k < 8) (hb : b < 256) where
  pub set_bit_lt : set_bit k b < 256
  unfolding masks_agree
  set_bit_lt = ground (arith, masks k k b hk hk hb)

  pub clear_bit_lt : clear_bit k b < 256
  unfolding masks_agree
  clear_bit_lt = ground (arith, masks k k b hk hk hb)
