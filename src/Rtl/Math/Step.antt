-- ===== src/Rtl/Math/Step.antt =====
-- What one round of the division loop computes, as arithmetic on the 64-bit values.
use exectos.Base.{ℕ, ◌+◌, ◌-◌, ◌*◌, ◌/◌, ◌%◌, ◌^◌, ◌≤◌, ◌<◌, bit_or, ◌≡◌, ap, ◌∙◌, arith}
use exectos.Word.{u32, u64, ones}
use exectos.Word.Bits.{bit_or-fields}
use exectos.Word.Masks.{bit_and-ones, bit_and-zero}
use exectos.Rtl.Math.{Parts, parts, quad_part, Loop, sign_mask, shift_left, subtract}

pub record IsParts (p : Parts) : Type 0 where
  pub high : p.high < 2 ^ 32
  pub low : p.low < 2 ^ 32

-- A ULONG shifted left by one, with a new lowest digit.
shl_one-or : (x b : ℕ) → b < 2 → bit_or (u32 (x * 2)) b ≡ x % 2 ^ 31 * 2 + b
shl_one-or x b h =
    ap (λ t. bit_or t b) (let e : u32 (x * 2) ≡ x % 2 ^ 31 * 2 ^ 1 = omega arith in e)
    ∙ bit_or-fields 1 (x % 2 ^ 31) b h

module _ (s : Loop) (q : IsParts s.quotient) (r : IsParts s.remainder) (c : s.carry < 2) where
  pub shift_left-remainder :
      quad_part (shift_left s).remainder
      ≡ u64 (quad_part s.remainder * 2 + quad_part s.quotient / 2 ^ 63)
  unfolding shift_left
  shift_left-remainder = omega (
    arith,
    shl_one-or s.remainder.high (s.remainder.low / 2 ^ 31) (omega arith),
    shl_one-or s.remainder.low (s.quotient.high / 2 ^ 31) (omega arith),
  )

  pub shift_left-quotient :
      quad_part (shift_left s).quotient ≡ u64 (quad_part s.quotient * 2 + s.carry)
  unfolding shift_left
  shift_left-quotient = omega (
    arith,
    shl_one-or s.quotient.high (s.quotient.low / 2 ^ 31) (omega arith),
    shl_one-or s.quotient.low s.carry c,
  )

  pub shift_left-IsParts : IsParts (shift_left s).quotient × IsParts (shift_left s).remainder
  unfolding shift_left
  shift_left-IsParts = (
    record {
      high = omega (arith, shl_one-or s.quotient.high (s.quotient.low / 2 ^ 31) (omega arith));
      low = omega (arith, shl_one-or s.quotient.low s.carry c);
    },
    record {
      high = omega (arith, shl_one-or s.remainder.high (s.remainder.low / 2 ^ 31) (omega arith));
      low = omega (arith, shl_one-or s.remainder.low (s.quotient.high / 2 ^ 31) (omega arith));
    },
  )

-- The sign tells whether the divisor fits the remainder, as long as the two lie within `2 ^ 63`
-- of each other.
pub sign_mask-fits :
    (d r : ℕ) → d < 2 ^ 64 → r < 2 ^ 64 → d ≤ r → r < d + 2 ^ 63 → sign_mask d r ≡ ones 64
unfolding sign_mask
sign_mask-fits d r hd hr le near = ground arith

pub sign_mask-small : (d r : ℕ) → d < 2 ^ 64 → r < d → d ≤ r + 2 ^ 63 → sign_mask d r ≡ 0
unfolding sign_mask
sign_mask-small d r hd lt near = ground arith

module _ (d : ℕ) (s : Loop) (hd : d < 2 ^ 64) (hr : quad_part s.remainder < 2 ^ 64) where
  pub subtract-fits :
      d ≤ quad_part s.remainder
      → quad_part s.remainder < d + 2 ^ 63
      → subtract d s ≡ record s { carry = 1; remainder = parts (quad_part s.remainder - d) }
  unfolding subtract
  subtract-fits le near =
      rw (sign_mask-fits d (quad_part s.remainder) hd hr le near, bit_and-ones 64 d hd)
        (ap (λ t. record s { carry = 1; remainder = parts t })
          (let e : u64 (quad_part s.remainder + 2 ^ 64 - d) ≡ quad_part s.remainder - d =
              omega arith in
            e))

  pub subtract-small :
      quad_part s.remainder < d
      → d ≤ quad_part s.remainder + 2 ^ 63
      → subtract d s ≡ record s { carry = 0; remainder = parts (quad_part s.remainder) }
  unfolding subtract
  subtract-small lt near =
      rw (sign_mask-small d (quad_part s.remainder) hd lt near, bit_and-zero d)
        (ap (λ t. record s { carry = 0; remainder = parts t })
          (let e : u64 (quad_part s.remainder + 2 ^ 64 - 0) ≡ quad_part s.remainder = omega arith in
            e))
