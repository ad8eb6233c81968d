-- ===== src/Rtl/Bitmap/Take.antt =====
-- SetClearBits and ClearSetBits: a search, and the bits found changed.
use exectos.Base.{
  ℕ, ◌^◌, ◌≤◌, ◌<◌, ◌≡◌, refl, arith, ◌==◌, if◌then◌else◌, Bool, true, false, inl, inr, ◌⊎◌, Option,
  some,
}
use exectos.Word.{u32}
use exectos.Rtl.Bitmap.{
  BitMap, maxulong_ptr, set_bits, clear_bits, set_clear_bits, clear_set_bits, find_set_bits,
  find_clear_bits,
}
use exectos.Rtl.Bitmap.Words.{digit}
use exectos.Rtl.Bitmap.Counting.{IsWords}
use exectos.Rtl.Bitmap.Ranges.{within, set_bits_lem, clear_bits_lem}
use exectos.Rtl.Bitmap.Search.{IsPlace, find_bits-Outcome}

-- The bits of a range have the value `v`, and all others are as they were.
abbrev pub IsFilled : BitMap → BitMap → ℕ → ℕ → ℕ → Type 0
IsFilled m n v place length =
    (b : ℕ) → digit n.buffer b ≡ (if within place length b then v else digit m.buffer b)

-- Nothing was found, or a place of bits that are not `v`, which now are.
abbrev pub Taken : BitMap → ℕ → Bool → ℕ → Option (ℕ × BitMap) → Type 0
Taken m length set v o =
    (place : ℕ) × (n : BitMap) × (o ≡ some (u32 place, n))
    × (((place ≡ maxulong_ptr) × (n ≡ m))
        ⊎ (IsPlace m length set m.size place × IsFilled m n v place length))

module _ (m : BitMap) (fit : IsWords m.buffer) (size : m.size < 2 ^ 32) (length : ℕ)
    (some_length : 1 ≤ length) (fuel : ℕ) (enough : m.size < fuel) (index : ℕ) where
  -- For a length of at least 1, SetClearBits finds nothing and changes nothing, or it finds a place of clear bits in the bit
  -- map, as far as CountBits looks at them, and sets exactly the bits of that range.
  pub set_clear_bits-Taken : Taken m length false 1 (set_clear_bits fuel m length index)
  unfolding set_clear_bits find_clear_bits
  set_clear_bits-Taken =
      let (place, hit, outcome) =
        find_bits-Outcome m fit size length some_length false fuel enough index in
      (
        place,
        (if place == maxulong_ptr then m else set_bits m place length),
        (rw hit refl),
        elim outcome [
          | inl e ↦ let t : (place == maxulong_ptr) ≡ true = ground arith in inl (e, rw t refl)
          | inr (inside, all) ↦
              let t : (place == maxulong_ptr) ≡ false = ground arith in
              inr ((inside, all), λ b. rw t (set_bits_lem m place length b))
        ],
      )

  -- For a length of at least 1, ClearSetBits finds nothing and changes nothing, or it finds a place of set bits in the bit
  -- map, as far as CountBits looks at them, and clears exactly the bits of that range.
  pub clear_set_bits-Taken : Taken m length true 0 (clear_set_bits fuel m length index)
  unfolding clear_set_bits find_set_bits
  clear_set_bits-Taken =
      let (place, hit, outcome) =
        find_bits-Outcome m fit size length some_length true fuel enough index in
      (
        place,
        (if place == maxulong_ptr then m else clear_bits m place length),
        (rw hit refl),
        elim outcome [
          | inl e ↦ let t : (place == maxulong_ptr) ≡ true = ground arith in inl (e, rw t refl)
          | inr (inside, all) ↦
              let t : (place == maxulong_ptr) ≡ false = ground arith in
              inr ((inside, all), λ b. rw t (clear_bits_lem m place length b))
        ],
      )
