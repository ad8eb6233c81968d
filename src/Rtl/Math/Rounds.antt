-- ===== src/Rtl/Math/Rounds.antt =====
-- The invariant of the division loop, and what the loop computes.
use native.Mathlib.Nat.{mul-le-mul_right, mul-le-mul_left, div-add-mod, mod-lt, div-lt_iff_lt-mul}
use native.Mathlib.Decide.{dec_lt}
use exectos.Base.{
  ℕ, zero, suc, ◌+◌, ◌-◌, ◌*◌, ◌/◌, ◌%◌, ◌^◌, ◌≤◌, ◌<◌, ◌≡◌, ap, sym, ◌⊎◌, inl, inr, arith,
}
use exectos.Word.Bits.{pow-two-suc, two-pow-pos}
use exectos.Rtl.Math.{parts, quad_part, Loop, shift_left, subtract, division_loop}
use exectos.Rtl.Math.Step.{
  IsParts, shift_left-remainder, shift_left-quotient, shift_left-IsParts, subtract-fits,
  subtract-small,
}

-- With `k` rounds to go: the `k` lowest digits `rest` of the dividend stand at the top of the
-- quotient, above the quotient digits found so far; what is above them, `taken`, has been divided.
pub record Invariant (n d k room : ℕ) (s : Loop) : Type 0 where
  pub quotient : IsParts s.quotient
  pub remainder : IsParts s.remainder
  pub carry : s.carry < 2
  pub taken : ℕ
  pub rest : ℕ
  pub found : ℕ
  pub splits : n ≡ taken * 2 ^ k + rest
  pub rest_lt : rest < 2 ^ k
  pub width : 2 ^ k * room ≡ 2 ^ 64
  pub divides : taken ≡ (2 * found + s.carry) * d + quad_part s.remainder
  pub remainder_lt : quad_part s.remainder < d
  pub holds : quad_part s.quotient ≡ rest * room + found
  pub found_lt : found < room

-- Where the divisor is above `2 ^ 63`, there is one round at most, and the dividend is as large.
abbrev pub Near : ℕ → ℕ → ℕ → Loop → ℕ → Type 0
Near n d k s found =
    (d ≤ 2 ^ 63) ⊎ ((k ≡ 0) ⊎ ((k ≡ 1) × (found ≡ 0) × (s.carry ≡ 0) × (2 ^ 63 ≤ n) × (2 ^ 63 ≤ d)))

module _ (n d j room : ℕ) (s : Loop) (hn : n < 2 ^ 64) (hd : d < 2 ^ 64)
    (i : Invariant n d (suc j) room s) where
  abbrev digit : ℕ
  digit = i.rest / 2 ^ j

  abbrev rest' : ℕ
  rest' = i.rest % 2 ^ j

  digit-facts :
      (digit < 2) × (rest' < 2 ^ j) × (i.rest ≡ digit * 2 ^ j + rest') × (2 ^ j * room ≡ 2 ^ 63)
  digit-facts =
      let pos = two-pow-pos j in
      let whole : digit * 2 ^ j + rest' ≡ i.rest = omega (arith, div-add-mod i.rest (2 ^ j)) in
      (
        (div-lt_iff_lt-mul pos).1 (omega (arith, i.rest_lt, pow-two-suc j)),
        mod-lt i.rest pos,
        sym whole,
        omega (arith, i.width, ap (λ (t : ℕ). t * room) (pow-two-suc j)),
      )

  -- The dividend, with one more digit taken.
  splits_next : n ≡ (2 * i.taken + digit) * 2 ^ j + rest'
  splits_next = omega (arith, i.splits, digit-facts.2, ap (λ (t : ℕ). i.taken * t) (pow-two-suc j))

  taken_next-lt : 2 * i.taken + digit < 2 ^ 64
  taken_next-lt = omega (arith, splits_next, mul-le-mul_left (2 * i.taken + digit) (two-pow-pos j))

  below_room : rest' * room + i.found < 2 ^ 63
  below_room = omega (
    arith,
    digit-facts.3,
    i.found_lt,
    mul-le-mul_right room (let e : rest' + 1 ≤ 2 ^ j = omega (arith, digit-facts.1) in e),
  )

  quotient_digits : quad_part s.quotient ≡ digit * 2 ^ 63 + (rest' * room + i.found)
  quotient_digits = omega (
    arith,
    i.holds,
    ap (λ (t : ℕ). t * room) digit-facts.2,
    ap (λ (t : ℕ). digit * t) digit-facts.3,
  )

  remainder_next : quad_part (shift_left s).remainder ≡ 2 * quad_part s.remainder + digit
  remainder_next = omega (
    arith,
    shift_left-remainder s i.quotient i.remainder i.carry,
    quotient_digits,
    below_room,
    taken_next-lt,
    i.divides,
  )

  quotient_next : quad_part (shift_left s).quotient ≡ rest' * (2 * room) + (2 * i.found + s.carry)
  quotient_next = omega (
    arith,
    shift_left-quotient s i.quotient i.remainder i.carry,
    quotient_digits,
    below_room,
    digit-facts.0,
    i.carry,
    i.found_lt,
    mul-le-mul_right room (let e : rest' + 1 ≤ 2 ^ j = omega (arith, digit-facts.1) in e),
    digit-facts.3,
  )

  taken_divides :
      2 * i.taken + digit ≡ (2 * (2 * i.found + s.carry)) * d + quad_part (shift_left s).remainder
  taken_divides = omega (arith, i.divides, remainder_next)

  -- What both outcomes of the subtraction share.
  next :
      (c r : ℕ)
      → c < 2
      → r < d
      → 2 * i.taken + digit ≡ (2 * (2 * i.found + s.carry) + c) * d + r
      → Invariant n d j (2 * room) (record (shift_left s) { carry = c; remainder = parts r })
  next c r hc hr e = record {
    quotient = (shift_left-IsParts s i.quotient i.remainder i.carry).0;
    remainder = record { high = omega arith; low = omega arith };
    carry = hc;
    taken = 2 * i.taken + digit;
    rest = rest';
    found = 2 * i.found + s.carry;
    splits = splits_next;
    rest_lt = digit-facts.1;
    width = omega (arith, digit-facts.3);
    divides = omega (arith, e);
    remainder_lt = omega (arith, hr);
    holds = quotient_next;
    found_lt = omega (arith, i.found_lt, i.carry);
  }

  abbrev shifted : ℕ
  shifted = quad_part (shift_left s).remainder

  -- The shifted remainder does not overflow, and its sign test against the divisor is right.
  shifted-Near :
      Near n d (suc j) s i.found
      → (shifted < 2 ^ 64) × (shifted < d + 2 ^ 63) × (d ≤ shifted + 2 ^ 63) × (shifted < 2 * d)
  shifted-Near (inl low) =
      omega (arith, remainder_next, i.remainder_lt, digit-facts.0, taken_next-lt, i.divides)
  shifted-Near (inr (inl none_left)) = absurd (omega arith)
  shifted-Near (inr (inr (one, none_found, no_carry, large_n, large_d))) =
      let unit : 2 ^ j ≡ 1 = ap (λ t. 2 ^ t) (let e : j ≡ 0 = omega arith in e) in
      let zero_quotient : 2 * i.found + s.carry ≡ 0 = omega arith in
      omega (
        arith,
        remainder_next,
        i.remainder_lt,
        digit-facts.0,
        digit-facts.1,
        unit,
        taken_next-lt,
        splits_next,
        i.divides,
        ap (λ (t : ℕ). t * d) zero_quotient,
        ap (λ (t : ℕ). (2 * i.taken + digit) * t) unit,
      )

  -- One round keeps the invariant.
  round-Invariant :
      Near n d (suc j) s i.found → Invariant n d j (2 * room) (subtract d (shift_left s))
  round-Invariant near =
      let (fits_64, below, above, twice) = shifted-Near near in
      elim (dec_lt shifted d) [
        | yes small ↦
            rw (subtract-small d (shift_left s) hd fits_64 small above)
              (next 0 shifted (omega arith) small (omega (arith, taken_divides)))
        | no fits ↦
            rw (subtract-fits d (shift_left s) hd fits_64 (omega arith) below)
              (next 1 (shifted - d) (omega arith) (omega arith) (omega (arith, taken_divides)))
      ]

Near-next :
    (n d j : ℕ) (s t : Loop) (found found' : ℕ) → Near n d (suc j) s found → Near n d j t found'
Near-next n d j s t found found' (inl low) = inl low
Near-next n d j s t found found' (inr (inl none_left)) = absurd (omega arith)
Near-next n d j s t found found' (inr (inr (one, _, _, _, _))) = inr (inl (omega arith))

-- The loop ends with the quotient, without its last digit, and the remainder.
pub division_loop-divides :
    (n d k room : ℕ) (s : Loop)
    → n < 2 ^ 64
    → d < 2 ^ 64
    → (i : Invariant n d k room s) → Near n d k s i.found
    → let e = division_loop k d s in
      (n ≡ (2 * quad_part e.quotient + e.carry) * d + quad_part e.remainder)
      × (quad_part e.remainder < d)
      × (e.carry < 2)
unfolding division_loop
division_loop-divides n d zero room s hn hd i near =
    let none_left : i.rest ≡ 0 = omega (arith, i.rest_lt) in
    let all_found : quad_part s.quotient ≡ i.found =
      omega (arith, i.holds, ap (λ (t : ℕ). t * room) none_left) in
    (
      omega (arith, i.splits, none_left, i.divides, ap (λ (t : ℕ). t * d) all_found),
      i.remainder_lt,
      i.carry,
    )
division_loop-divides n d (suc j) room s hn hd i near =
    let after = round-Invariant n d j room s hn hd i near in
    division_loop-divides n d j (2 * room) (subtract d (shift_left s)) hn hd after
      (Near-next n d j s (subtract d (shift_left s)) i.found after.found near)
