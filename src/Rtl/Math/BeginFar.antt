-- ===== src/Rtl/Math/BeginFar.antt =====
-- The first quotient and remainder where the shift is above 32.
use native.Mathlib.Nat.{mul-le-mul_right, mul-le-mul_left, div-add-mod, mod-lt}
use exectos.Base.{
  ℕ, ◌+◌, ◌-◌, ◌*◌, ◌/◌, ◌%◌, ◌^◌, ◌<◌, ◌≡◌, refl, ap, sym, ◌∙◌, arith, some, lt→ltb,
}
use exectos.Word.Bits.{two-pow-pos, bit_or-fields}
use exectos.Rtl.Math.{Parts, quad_part, loops, shl_32, shr_32, shift_parts_far}
use exectos.Rtl.Math.Step.{IsParts}
use exectos.Rtl.Math.Zeroes.{two-pow-add}
use exectos.Rtl.Math.Rounds.{Invariant}
use exectos.Rtl.Math.Begin.{begin, Begins, shl-mod, div-fits, lt_of_mul-lt}

module _ (s : ℕ) (far : 32 < s) (low : s < 64) where
  abbrev f : ℕ
  f = 2 ^ (64 - s)

  abbrev g : ℕ
  g = 2 ^ (s - 32)

  widths : g * f ≡ 2 ^ 32
  widths =
      sym (two-pow-add (s - 32) (64 - s))
      ∙ ap (λ t. 2 ^ t) (let e : s - 32 + (64 - s) ≡ 32 = omega arith in e)

  whole_width : 2 ^ s ≡ g * 2 ^ 32
  whole_width =
      ap (λ t. 2 ^ t) (let e : s ≡ s - 32 + 32 = omega arith in e) ∙ two-pow-add (s - 32) 32

  abbrev far_quotient : Parts → Parts
  far_quotient n = record { high = n.high % g * f + n.low / g; low = n.low % g * f }

  shift_parts_far-loops :
      (n : Parts)
      → IsParts n
      → shift_parts_far n s
        ≡ some (loops s (far_quotient n) (record { high = 0; low = n.high / g }))
  unfolding shift_parts_far shl_32 shr_32
  shift_parts_far-loops n p = rw (
    lt→ltb (64 - s) 32 (omega arith),
    lt→ltb (s - 32) 32 (omega arith),
    shl-mod n.low f g widths (two-pow-pos (s - 32)),
    shl-mod n.high f g widths (two-pow-pos (s - 32)),
    bit_or-fields (64 - s) (n.high % g) (n.low / g)
        (div-fits n.low f g widths (two-pow-pos (s - 32)) p.low),
  )

  far-Invariant :
      (n : Parts) (d : ℕ)
      → IsParts n
      → quad_part n < d * 2 ^ s
      → Invariant
          (quad_part n)
          d
          s
          f
          (begin (far_quotient n) (record { high = 0; low = n.high / g }))
  far-Invariant n d p small =
      let pos = two-pow-pos (s - 32) in
      let high_whole = div-add-mod n.high g in
      let low_whole = div-add-mod n.low g in
      let high_rest = mod-lt n.high pos in
      let low_rest = mod-lt n.low pos in
      let taken_digits : n.high / g < 2 ^ 32 =
        omega (arith, high_whole, mul-le-mul_left (n.high / g) pos, p.high) in
      let whole : quad_part n ≡ n.high / g * 2 ^ s + (n.high % g * 2 ^ 32 + n.low) =
        omega (arith, high_whole, ap (λ (t : ℕ). n.high / g * t) whole_width) in
      record {
        quotient = record {
          high =
              omega
                (arith, widths, mul-le-mul_right f high_rest, div-fits n.low f g widths pos p.low);
          low = omega (arith, widths, two-pow-pos (64 - s), mul-le-mul_right f low_rest);
        };
        remainder = record { high = omega arith; low = taken_digits };
        carry = omega arith;
        taken = n.high / g;
        rest = n.high % g * 2 ^ 32 + n.low;
        found = 0;
        splits = whole;
        rest_lt = omega (arith, whole_width, high_rest, p.low);
        width = omega (arith, widths, ap (λ (t : ℕ). t * f) whole_width);
        divides = omega arith;
        remainder_lt = omega (arith, lt_of_mul-lt (n.high / g) d (2 ^ s) (omega (arith, whole)));
        holds =
            omega (arith, ap (λ (t : ℕ). t * f) low_whole, ap (λ (t : ℕ). n.low / g * t) widths);
        found_lt = omega (arith, two-pow-pos (64 - s));
      }

  pub shift_parts_far-Begins :
      (n : Parts) (d : ℕ)
      → IsParts n
      → quad_part n < d * 2 ^ s
      → Begins (quad_part n) d s (shift_parts_far n s)
  unfolding far-Invariant
  shift_parts_far-Begins n d p small = record {
    quotient = far_quotient n;
    remainder = record { high = 0; low = n.high / g };
    room = f;
    enters = shift_parts_far-loops n p;
    invariant = far-Invariant n d p small;
    none_found = refl;
  }
