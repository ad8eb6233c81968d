-- ===== src/Rtl/Math/Cases.antt =====
-- The three kinds of divisor: each either returns the result at once or enters the loop with
-- its invariant.
use native.Mathlib.Nat.{div-add-mod, mod-lt}
use native.Mathlib.Decide.{dec_lt, ℕ_discrete}
use exectos.Base.{
  ℕ, ◌+◌, ◌-◌, ◌*◌, ◌/◌, ◌%◌, ◌^◌, ◌≤◌, ◌<◌, ◌≡◌, ◌≢◌, ap, ◌⊎◌, inl, inr, arith, some, ltb, ◌==◌,
  Option, false,
}
use exectos.Rtl.Math.{
  Parts, quad_part, Start, returns, shift_count, count_leading_zeroes_32, start_wide, start_narrow,
  start_high,
}
use exectos.Rtl.Math.Step.{IsParts}
use exectos.Rtl.Math.Begin.{Begins, shift_parts-Begins}
use exectos.Rtl.Math.Outcome.{
  Divides, returns-Divides, Begins-Divides, count-bounds, two-pow-le, shift-lt, high-bounds,
}
use exectos.Rtl.Math.Shifts.{up_to_32, up_to_63}

module _ (n d : Parts) (pn : IsParts n) (pd : IsParts d) (tall : 1 ≤ n.high) where
  abbrev zn : ℕ
  zn = count_leading_zeroes_32 n.high

  n-lt : quad_part n < 2 ^ 64
  n-lt = omega (arith, pn.high, pn.low)

  d-lt : quad_part d < 2 ^ 64
  d-lt = omega (arith, pd.high, pd.low)

  narrow-lt :
      d.high ≡ 0
      → 1 ≤ d.low
      → let zl = count_leading_zeroes_32 d.low in quad_part n < quad_part d * 2 ^ (33 + zl - zn)
  narrow-lt no_high pos =
      let zl = count_leading_zeroes_32 d.low in
      shift-lt (quad_part n) (quad_part d) (31 - zl) (64 - zn) (33 + zl - zn)
        (omega (arith, high-bounds n pn tall)) (omega (arith, count-bounds d.low pos pd.low))
        (omega (arith, high-bounds n pn tall, count-bounds d.low pos pd.low))

  -- The shift is 64 for a divisor of 1 and a dividend of 64 digits only.
  narrow_shift-lt :
      d.high ≡ 0
      → 1 ≤ d.low
      → ¬ ((quad_part d ≡ 1) × (2 ^ 63 ≤ quad_part n))
      → 33 + count_leading_zeroes_32 d.low - zn < 64
  narrow_shift-lt no_high pos ok =
      let zl = count_leading_zeroes_32 d.low in
      elim (dec_lt (33 + zl - zn) 64) [
        | yes lt ↦ lt
        | no ge ↦
            let all : zl ≡ 31 = omega (arith, count-bounds d.low pos pd.low) in
            let none_above : zn ≡ 0 = omega (arith, count-bounds d.low pos pd.low) in
            absurd (
              ok (
                omega (arith, count-bounds d.low pos pd.low, ap (λ t. 2 ^ (32 - t)) all),
                omega (arith, high-bounds n pn tall, ap (λ t. 2 ^ (63 - t)) none_above),
              ))
      ]

  start_narrow-Begins :
      d.high ≡ 0
      → 1 ≤ d.low
      → ¬ ((quad_part d ≡ 1) × (2 ^ 63 ≤ quad_part n))
      → Begins
          (quad_part n)
          (quad_part d)
          (33 + count_leading_zeroes_32 d.low - zn)
          (start_narrow n d)
  unfolding start_narrow
  start_narrow-Begins no_high pos ok =
      let zl = count_leading_zeroes_32 d.low in
      let count : shift_count (33 + zl) zn ≡ 33 + zl - zn =
        omega (arith, count-bounds d.low pos pd.low, high-bounds n pn tall) in
      rw count (
        up_to_63 n d pn (33 + zl - zn) (omega (arith, high-bounds n pn tall))
          (narrow_shift-lt no_high pos ok) (narrow-lt no_high pos))

  module _ (high : 1 ≤ d.high) where
    abbrev zd : ℕ
    zd = count_leading_zeroes_32 d.high

    -- The divisor has more digits: the quotient is 0.
    fewer_digits : zd < zn → quad_part n < quad_part d
    fewer_digits lt = omega (
      arith,
      high-bounds n pn tall,
      high-bounds d pd high,
      two-pow-le (64 - zn) (63 - zd) (omega (arith, high-bounds n pn tall)),
    )

    more_digits : zn ≤ zd → quad_part n < quad_part d * 2 ^ (zd - zn + 1)
    more_digits le =
        shift-lt (quad_part n) (quad_part d) (63 - zd) (64 - zn) (zd - zn + 1)
          (omega (arith, high-bounds n pn tall)) (omega (arith, high-bounds d pd high))
          (omega (arith, high-bounds n pn tall, high-bounds d pd high))

    -- A divisor above `2 ^ 63` has no leading zero, and then the dividend has none either.
    large :
        zn ≤ zd
        → (quad_part d ≤ 2 ^ 63)
          ⊎ ((zd - zn + 1 ≡ 1) × (2 ^ 63 ≤ quad_part n) × (2 ^ 63 ≤ quad_part d))
    large le = elim (dec_lt (2 ^ 63) (quad_part d)) [
      | no low ↦ inl (omega arith)
      | yes up ↦
          let no_zero : zd ≡ 0 = elim (dec_lt 0 zd) [
            | no z ↦ omega arith
            | yes some_zero ↦
                absurd (omega (arith, high-bounds d pd high, two-pow-le (64 - zd) 63 (omega arith)))
          ] in
          inr (
            omega arith,
            omega (
              arith,
              high-bounds n pn tall,
              ap (λ t. 2 ^ (63 - t)) (let e : zn ≡ 0 = omega arith in e),
            ),
            omega arith,
          )
    ]

    zero_quotient :
        (start : Option Start)
        → zd < zn
        → start ≡ some (returns 0 (quad_part n))
        → Divides (quad_part n) (quad_part d) start
    zero_quotient start lt e =
        returns-Divides (quad_part n) (quad_part d) 0 (quad_part n) start e (omega arith)
          (fewer_digits lt)

    start_wide-fewer : zd < zn → start_wide n d ≡ some (returns 0 (quad_part n))
    unfolding start_wide
    start_wide-fewer lt = ground (arith, high-bounds n pn tall, high-bounds d pd high)

    start_wide-Begins : zn ≤ zd → Begins (quad_part n) (quad_part d) (zd - zn + 1) (start_wide n d)
    unfolding start_wide
    start_wide-Begins le =
        let count : shift_count zd zn ≡ zd - zn = omega (arith, high-bounds d pd high) in
        let near : ltb 31 (zd - zn) ≡ false = ground (arith, high-bounds d pd high) in
        rw (count, near)
          (up_to_32 n d pn (zd - zn + 1) (omega arith) (omega (arith, high-bounds d pd high))
            (more_digits le))

    pub start_wide-Divides : Divides (quad_part n) (quad_part d) (start_wide n d)
    start_wide-Divides = elim (dec_lt zd zn) [
      | yes fewer ↦ zero_quotient (start_wide n d) fewer (start_wide-fewer fewer)
      | no more ↦
          let le : zn ≤ zd = omega arith in
          Begins-Divides (quad_part n) (quad_part d) (zd - zn + 1) (start_wide n d) n-lt d-lt
            (start_wide-Begins le) (large le)
    ]

    start_high-exact : d.low ≡ 0 → n.low ≡ 0 → Divides (quad_part n) (quad_part d) (start_high n d)
    start_high-exact no_low none =
        let whole = div-add-mod n.high d.high in
        let rest = mod-lt n.high high in
        returns-Divides (quad_part n) (quad_part d) (n.high / d.high) (n.high % d.high * 2 ^ 32 + 0)
          (start_high n d) (unfold start_high in ground arith)
          (omega (arith, ap (λ (t : ℕ). n.high / d.high * t) no_low)) (omega arith)

    start_high-fewer : n.low ≢ 0 → zd < zn → start_high n d ≡ some (returns 0 (quad_part n))
    unfolding start_high
    start_high-fewer nonzero lt = ground (arith, high-bounds n pn tall, high-bounds d pd high)

    -- The difference of the counts is 31 for a divisor of 2 ^ 32 and a dividend of 64 digits only.
    high_shift-lt : d.low ≡ 0 → ¬ ((quad_part d ≡ 2 ^ 32) × (2 ^ 63 ≤ quad_part n)) → zd - zn < 31
    high_shift-lt no_low ok = elim (dec_lt (zd - zn) 31) [
      | yes lt ↦ lt
      | no ge ↦
          let all : zd ≡ 31 = omega (arith, high-bounds d pd high) in
          let none_above : zn ≡ 0 = omega (arith, high-bounds d pd high) in
          absurd (
            ok (
              omega (arith, count-bounds d.high high pd.high, ap (λ t. 2 ^ (32 - t)) all),
              omega (arith, high-bounds n pn tall, ap (λ t. 2 ^ (63 - t)) none_above),
            ))
    ]

    start_high-Begins :
        d.low ≡ 0
        → n.low ≢ 0
        → zn ≤ zd
        → ¬ ((quad_part d ≡ 2 ^ 32) × (2 ^ 63 ≤ quad_part n))
        → Begins (quad_part n) (quad_part d) (zd - zn + 1) (start_high n d)
    unfolding start_high
    start_high-Begins no_low nonzero le ok =
        let count : shift_count zd zn ≡ zd - zn = omega (arith, high-bounds d pd high) in
        let near : ltb 30 (zd - zn) ≡ false = ground (arith, high_shift-lt no_low ok) in
        let some_low : (n.low == 0) ≡ false = ground arith in
        rw (some_low, count, near)
          (shift_parts-Begins (zd - zn + 1) (omega arith) (omega (arith, high_shift-lt no_low ok)) n
            (quad_part d) pn (more_digits le))

    pub start_high-Divides :
        d.low ≡ 0
        → ¬ ((quad_part d ≡ 2 ^ 32) × (2 ^ 63 ≤ quad_part n) × (n.low ≢ 0))
        → Divides (quad_part n) (quad_part d) (start_high n d)
    start_high-Divides no_low ok = elim (ℕ_discrete n.low 0) [
      | yes none ↦ start_high-exact no_low none
      | no nonzero ↦ elim (dec_lt zd zn) [
        | yes fewer ↦ zero_quotient (start_high n d) fewer (start_high-fewer nonzero fewer)
        | no more ↦
            let le : zn ≤ zd = omega arith in
            Begins-Divides (quad_part n) (quad_part d) (zd - zn + 1) (start_high n d) n-lt d-lt
              (start_high-Begins no_low nonzero le (λ (a, b). ok (a, b, nonzero))) (large le)
      ]
    ]

  pub start_narrow-Divides :
      d.high ≡ 0
      → 1 ≤ d.low
      → ¬ ((quad_part d ≡ 1) × (2 ^ 63 ≤ quad_part n))
      → Divides (quad_part n) (quad_part d) (start_narrow n d)
  start_narrow-Divides no_high pos ok =
      let zl = count_leading_zeroes_32 d.low in
      let s = 33 + zl - zn in
      let counts = count-bounds d.low pos pd.low in
      Begins-Divides (quad_part n) (quad_part d) s (start_narrow n d) n-lt d-lt
        (start_narrow-Begins no_high pos ok) (inl (omega arith))
