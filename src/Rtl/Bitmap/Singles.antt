-- ===== src/Rtl/Bitmap/Singles.antt =====
-- SetBit and ClearBit, which shift an int.
use native.Mathlib.Nat.{pow-zero}
use exectos.Base.{
  ℕ, zero, suc, ◌-◌, ◌*◌, ◌/◌, ◌%◌, ◌^◌, ◌≤◌, ◌<◌, bit_and, bit_or, ◌≡◌, refl, ap, ◌∙◌, arith, ltb,
  leb, ◌==◌, if◌then◌else◌, true, false, Bool-cases, inl, inr, some, none,
}
use exectos.Word.{bit}
use exectos.Word.Bits.{bit-lt, bit-zero, bit-and, bit-or, bit-shl}
use exectos.Word.Masks.{bit-complement, bit-ones}
use exectos.Rtl.Bitmap.{BitMap, write, complement, int_one_shift, set_bit, clear_bit}
use exectos.Rtl.Bitmap.Words.{digit, bit_and-63}
use exectos.Rtl.Bitmap.Ranges.{within}
use exectos.Rtl.Bitmap.Take.{IsFilled}

-- How many bits from its index on the shift reaches.
abbrev pub reach : ℕ → ℕ
reach k = if k == 31 then 33 else 1

bit-one : (i : ℕ) → bit 1 i ≡ (if i == 0 then 1 else 0)
unfolding bit
bit-one zero = refl
bit-one (suc i) = ground (arith, bit-zero i)

bit-two_pow : (k i : ℕ) → bit (2 ^ k) i ≡ (if i == k then 1 else 0)
bit-two_pow k i =
    ap (λ t. bit t i) (let e : 2 ^ k ≡ 1 * 2 ^ k = omega arith in e)
    ∙ ground (arith, bit-shl k 1 i, bit-one (i - k))

bit-sign : (i : ℕ) → i < 64 → bit (2 ^ 64 - 2 ^ 31) i ≡ (if ltb i 31 then 0 else 1)
bit-sign i h = ground (arith, bit-shl 31 (2 ^ 33 - 1) i, bit-ones 33 (i - 31))

-- The digits of the shifted int: one, or the sign and all above it.
bit-shifted :
    (k : ℕ)
    → k < 32
    → (mask : ℕ) × (int_one_shift k ≡ some mask)
      × (mask < 2 ^ 64)
      × ((i : ℕ) → i < 64 → bit mask i ≡ (if within k (reach k) i then 1 else 0))
unfolding int_one_shift
bit-shifted k h = elim (Bool-cases (ltb k 31)) [
  | inl low ↦ (
    2 ^ k,
    (rw low refl),
    omega (
      arith,
      native.Mathlib.Nat.pow-le-pow_right {n = 2} (omega arith) {i = k} {j = 63} (omega arith),
    ),
    λ i lt. ground (arith, bit-two_pow k i),
  )
  | inr high ↦
      let last : (k == 31) ≡ true = ground arith in
      (2 ^ 64 - 2 ^ 31, (rw (high, last) refl), omega arith, λ i lt. ground (arith, bit-sign i lt))
]

module _ (m : BitMap) (index : ℕ) (inside : index < m.size) where
  in_range : leb m.size index ≡ false
  in_range = ground arith

  -- For an index whose place in its word is below 31, SetBit sets that bit alone. For the place
  -- 31 it sets the bits up to the end of the word as well.
  pub set_bit_lem :
      index % 64 < 32
      → (n : BitMap) × (set_bit m index ≡ some n) × IsFilled m n 1 index (reach (index % 64))
  unfolding set_bit digit
  set_bit_lem h =
      let (mask, shifted, fits, digits) = bit-shifted (index % 64) h in
      let w = m.buffer (index / 64) in
      (
        record m { buffer = write m.buffer (index / 64) (bit_or w mask) },
        (rw (in_range, bit_and-63 index, shifted) refl),
        λ b.
            ground
              (arith, bit-or w mask (b % 64), digits (b % 64) (omega arith), bit-lt w (b % 64)),
      )

  -- For an index whose place in its word is below 31, ClearBit clears that bit alone. For the
  -- place 31 it clears the bits up to the end of the word as well.
  pub clear_bit_lem :
      index % 64 < 32
      → (n : BitMap) × (clear_bit m index ≡ some n) × IsFilled m n 0 index (reach (index % 64))
  unfolding clear_bit digit
  clear_bit_lem h =
      let (mask, shifted, fits, digits) = bit-shifted (index % 64) h in
      let w = m.buffer (index / 64) in
      (
        record m { buffer = write m.buffer (index / 64) (bit_and w (complement mask)) },
        (rw (in_range, bit_and-63 index, shifted) refl),
        λ b. ground (
          arith,
          bit-and w (complement mask) (b % 64),
          bit-complement 64 mask (b % 64) fits,
          digits (b % 64) (omega arith),
          bit-lt w (b % 64),
        ),
      )

  -- For an index whose place in its word is 32 or more, SetBit shifts an int by its whole width
  -- or more, which is undefined.
  pub set_bit-undefined : 32 ≤ index % 64 → set_bit m index ≡ none
  unfolding set_bit int_one_shift
  set_bit-undefined h =
      let no : ltb (index % 64) 31 ≡ false = ground arith in
      let nor : (index % 64 == 31) ≡ false = ground arith in
      rw (in_range, bit_and-63 index, no, nor) refl
