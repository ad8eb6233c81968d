-- ===== src/Rtl/Math/Begin.antt =====
-- The first quotient and remainder of the division loop, for each kind of divisor.
use native.Mathlib.Nat.{mul-le-mul_right, mul-le-mul_left, div-add-mod, mod-lt, div-lt_iff_lt-mul}
use native.Mathlib.Decide.{dec_lt}
use exectos.Base.{
  ℕ, ◌+◌, ◌-◌, ◌*◌, ◌/◌, ◌%◌, ◌^◌, ◌≤◌, ◌<◌, ◌≡◌, refl, ap, sym, ◌∙◌, arith, Option, some, lt→ltb,
}
use exectos.Word.{u32}
use exectos.Word.Bits.{two-pow-pos, bit_or-fields}
use exectos.Rtl.Math.{Parts, quad_part, Loop, Start, loops, shl_32, shr_32, shift_parts}
use exectos.Rtl.Math.Step.{IsParts}
use exectos.Rtl.Math.Zeroes.{two-pow-add}
use exectos.Rtl.Math.Rounds.{Invariant}

abbrev pub begin : Parts → Parts → Loop
begin q r = record { quotient = q; remainder = r; carry = 0 }

-- The loop is entered with its invariant.
pub record Begins (n d shift : ℕ) (start : Option Start) : Type 0 where
  pub quotient : Parts
  pub remainder : Parts
  pub room : ℕ
  pub enters : start ≡ some (loops shift quotient remainder)
  pub invariant : Invariant n d shift room (begin quotient remainder)
  pub none_found : invariant.found ≡ 0

-- A ULONG shifted left keeps the digits that the shift right by the rest of the width drops.
pub shl-mod : (x f g : ℕ) → g * f ≡ 2 ^ 32 → 1 ≤ g → u32 (x * f) ≡ x % g * f
shl-mod x f g e pos =
    let low : x % g * f < 2 ^ 32 = omega (arith, e, mul-le-mul_right f (mod-lt x pos), positive) in
    let whole : x * f ≡ x / g * 2 ^ 32 + x % g * f =
      omega (arith, ap (λ (t : ℕ). t * f) (div-add-mod x g), ap (λ (t : ℕ). x / g * t) e) in
    omega (arith, low, whole)
  where
    positive : 1 ≤ f
    positive = grind (arith, e)

pub div-fits : (x f g : ℕ) → g * f ≡ 2 ^ 32 → 1 ≤ g → x < 2 ^ 32 → x / g < f
div-fits x f g e pos h = (div-lt_iff_lt-mul pos).1 (omega (arith, e))

pub lt_of_mul-lt : (r d g : ℕ) → r * g < d * g → r < d
lt_of_mul-lt r d g h = elim (dec_lt r d) [
  | yes lt ↦ lt
  | no ge ↦ absurd (omega (arith, mul-le-mul_right g (let e : d ≤ r = omega arith in e)))
]

module _ (s : ℕ) (one : 1 ≤ s) (low : s < 32) where
  widths : 2 ^ s * 2 ^ (32 - s) ≡ 2 ^ 32
  widths =
      sym (two-pow-add s (32 - s)) ∙ ap (λ t. 2 ^ t) (let e : s + (32 - s) ≡ 32 = omega arith in e)

  abbrev shifted_remainder : Parts → Parts
  shifted_remainder n = record {
    high = n.high / 2 ^ s;
    low = n.high % 2 ^ s * 2 ^ (32 - s) + n.low / 2 ^ s;
  }

  shift_parts-loops :
      (n : Parts)
      → IsParts n
      → shift_parts n s
        ≡ some (
            loops s (record { high = n.low % 2 ^ s * 2 ^ (32 - s); low = 0 }) (shifted_remainder n))
  unfolding shift_parts shl_32 shr_32
  shift_parts-loops n p =
      let f = 2 ^ (32 - s) in
      let g = 2 ^ s in
      rw (
        lt→ltb (32 - s) 32 (omega arith),
        lt→ltb s 32 low,
        shl-mod n.low f g widths (two-pow-pos s),
        shl-mod n.high f g widths (two-pow-pos s),
        bit_or-fields (32 - s) (n.high % g) (n.low / g)
            (div-fits n.low f g widths (two-pow-pos s) p.low),
      )

  pub shift_parts-Begins :
      (n : Parts) (d : ℕ)
      → IsParts n
      → quad_part n < d * 2 ^ s
      → Begins (quad_part n) d s (shift_parts n s)
  shift_parts-Begins n d p small =
      let f = 2 ^ (32 - s) in
      let g = 2 ^ s in
      let pos = two-pow-pos s in
      let quotient : Parts = record { high = n.low % g * f; low = 0 } in
      let remainder = shifted_remainder n in
      let high_whole = div-add-mod n.high g in
      let low_whole = div-add-mod n.low g in
      let whole : quad_part n ≡ quad_part remainder * g + n.low % g =
        omega (arith, high_whole, low_whole, ap (λ (t : ℕ). n.high % g * t) widths) in
      let invariant : Invariant (quad_part n) d s (f * 2 ^ 32) (begin quotient remainder) = record {
        quotient = record {
          high = omega (arith, widths, two-pow-pos (32 - s), mul-le-mul_right f (mod-lt n.low pos));
          low = omega arith;
        };
        remainder = record {
          high = omega (arith, high_whole, mul-le-mul_left (n.high / g) pos, p.high);
          low = omega (
            arith,
            widths,
            mul-le-mul_right f (mod-lt n.high pos),
            div-fits n.low f g widths pos p.low,
          );
        };
        carry = omega arith;
        taken = quad_part remainder;
        rest = n.low % g;
        found = 0;
        splits = whole;
        rest_lt = mod-lt n.low pos;
        width = omega (arith, widths);
        divides = omega arith;
        remainder_lt = lt_of_mul-lt (quad_part remainder) d g (omega (arith, whole));
        holds = omega arith;
        found_lt = omega (arith, two-pow-pos (32 - s));
      } in
      record {
        quotient = quotient;
        remainder = remainder;
        room = f * 2 ^ 32;
        enters = shift_parts-loops n p;
        invariant = invariant;
        none_found = refl;
      }

-- A shift by 32 takes the high part as the remainder and leaves the low part.
pub begin_half :
    (n : Parts) (d : ℕ)
    → IsParts n
    → n.high < d
    → Begins
        (quad_part n)
        d
        32
        (some (loops 32 (record { high = n.low; low = 0 }) (record { high = 0; low = n.high })))
begin_half n d p small = record {
  quotient = record { high = n.low; low = 0 };
  remainder = record { high = 0; low = n.high };
  room = 2 ^ 32;
  enters = refl;
  invariant = record {
    quotient = record { high = p.low; low = omega arith };
    remainder = record { high = omega arith; low = p.high };
    carry = omega arith;
    taken = n.high;
    rest = n.low;
    found = 0;
    splits = omega arith;
    rest_lt = p.low;
    width = refl;
    divides = omega arith;
    remainder_lt = omega arith;
    holds = omega arith;
    found_lt = omega arith;
  };
  none_found = refl;
}
