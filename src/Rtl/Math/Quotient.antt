-- ===== src/Rtl/Math/Quotient.antt =====
-- DivideUnsigned64 against the division of natural numbers.
use native.Mathlib.Nat.{div-eq_of_lt, mod-eq_of_lt}
use exectos.Base.{
  ℕ, ◌/◌, ◌%◌, ◌^◌, ◌≤◌, ◌<◌, ◌≡◌, ◌≢◌, ap, ap₂, sym, ◌∙◌, inl, inr, Bool-cases, arith, none, some,
  Option, ◌==◌, false, if◌then◌else◌, subst,
}
use exectos.Rtl.Math.{
  parts, quad_part, Start, returns, division, divide_unsigned_64, finish, start_wide, start_narrow,
  start_high, ◌>>=◌, shift_parts_far, shl_32, shr_32, count_leading_zeroes_32, leading_zeroes,
}
use exectos.Rtl.Math.Step.{IsParts}
use exectos.Rtl.Math.Outcome.{Divides}
use exectos.Rtl.Math.Cases.{start_wide-Divides, start_narrow-Divides, start_high-Divides}

parts-IsParts : (n : ℕ) → n < 2 ^ 64 → IsParts (parts n)
parts-IsParts n h = record { high = omega arith; low = omega arith }

module _ (n d : ℕ) (hn : n < 2 ^ 64) (hd : d < 2 ^ 64) where
  abbrev Ends : Option Start → Type 0
  Ends start = (start >>= λ s. some (finish d s)) ≡ some (division (n / d) (n % d))

  Divides-Ends :
      (start : Option Start)
      → Divides (quad_part (parts n)) (quad_part (parts d)) start
      → Ends start
  Divides-Ends start e =
      let whole_n : quad_part (parts n) ≡ n = omega arith in
      let whole_d : quad_part (parts d) ≡ d = omega arith in
      rw e.starts (
        subst (λ t. some (finish t e.chosen) ≡ some (division (n / d) (n % d))) whole_d
          (ap some (e.ends ∙ ap₂ (λ a b. division (a / b) (a % b)) whole_n whole_d)))

  by_kind :
      1 ≤ d
      → 1 ≤ n / 2 ^ 32
      → ¬ ((d ≡ 1) × (2 ^ 63 ≤ n))
      → ¬ ((d ≡ 2 ^ 32) × (2 ^ 63 ≤ n) × (n % 2 ^ 32 ≢ 0))
      → Ends (
          if d % 2 ^ 32 == 0
          then start_high (parts n) (parts d)
          else if d / 2 ^ 32 == 0
          then start_narrow (parts n) (parts d)
          else start_wide (parts n) (parts d))
  by_kind pos tall not_one not_two_32 =
      let pn = parts-IsParts n hn in
      let pd = parts-IsParts d hd in
      elim (Bool-cases (d % 2 ^ 32 == 0)) [
        | inl no_low ↦ rw no_low (
            Divides-Ends (start_high (parts n) (parts d)) (
              start_high-Divides (parts n) (parts d) pn pd tall (ground arith) (ground arith)
                (λ (a, b, c). not_two_32 (omega arith, omega arith, c))))
        | inr low ↦ rw low (elim (Bool-cases (d / 2 ^ 32 == 0)) [
          | inl no_high ↦ rw no_high (
              Divides-Ends (start_narrow (parts n) (parts d)) (
                start_narrow-Divides (parts n) (parts d) pn pd tall (ground arith) (ground arith)
                  (λ (a, b). not_one (omega arith, omega arith))))
          | inr high ↦ rw high (
              Divides-Ends (start_wide (parts n) (parts d))
                (start_wide-Divides (parts n) (parts d) pn pd tall (ground arith)))
        ])
      ]

  -- For a divisor that is not 0, DivideUnsigned64 returns the quotient and stores the remainder,
  -- unless the dividend has 64 digits and the divisor is 1, or is 2 ^ 32 while the dividend is no
  -- multiple of it.
  pub divide_unsigned_64_lem :
      1 ≤ d
      → ¬ ((d ≡ 1) × (2 ^ 63 ≤ n))
      → ¬ ((d ≡ 2 ^ 32) × (2 ^ 63 ≤ n) × (n % 2 ^ 32 ≢ 0))
      → divide_unsigned_64 n d ≡ some (division (n / d) (n % d))
  unfolding divide_unsigned_64
  divide_unsigned_64_lem pos not_one not_two_32 =
      let nonzero : (d == 0) ≡ false = ground arith in
      rw nonzero (elim (Bool-cases (n / 2 ^ 32 == 0)) [
        | inr tall ↦ rw tall (by_kind pos (ground arith) not_one not_two_32)
        | inl short ↦ rw short (elim (Bool-cases (d / 2 ^ 32 == 0)) [
          | inl small ↦ rw small (
              ap₂ (λ a b. some (division (a / b) (a % b)))
                (let e : n % 2 ^ 32 ≡ n = ground arith in e)
                (let e : d % 2 ^ 32 ≡ d = ground arith in e))
          | inr large ↦
              let lt : n < d = ground arith in
              let low : n / 2 ^ 32 ≡ 0 = ground arith in
              rw large (
                ap₂ (λ a b. some (division a b)) (sym (div-eq_of_lt lt))
                  (omega (arith, mod-eq_of_lt lt, low)))
        ])
      ])

no_leading_zero : (v : ℕ) → 2 ^ 31 ≤ v → count_leading_zeroes_32 v ≡ 0
unfolding count_leading_zeroes_32 leading_zeroes
no_leading_zero v h = ground arith

module _ (n : ℕ) (h : 2 ^ 63 ≤ n) (k : n < 2 ^ 64) where
  tall : (n / 2 ^ 32 == 0) ≡ false
  tall = ground arith

  no_zero : count_leading_zeroes_32 (n / 2 ^ 32) ≡ 0
  no_zero = no_leading_zero (n / 2 ^ 32) (omega arith)

  start_high-two_pow_32 :
      n % 2 ^ 32 ≢ 0
      → start_high (parts n) (parts (2 ^ 32)) ≡ some (returns 0 (quad_part (parts n)))
  unfolding start_high count_leading_zeroes_32 leading_zeroes
  start_high-two_pow_32 ne = let low : (n % 2 ^ 32 == 0) ≡ false = ground arith in rw (low, no_zero)

  -- By 2 ^ 32 a dividend of 64 digits that is no multiple of it gives the quotient 0, and the
  -- dividend as the remainder, although the quotient is 2 ^ 31 or more.
  pub divide_unsigned_64-two_pow_32 :
      n % 2 ^ 32 ≢ 0 → (divide_unsigned_64 n (2 ^ 32) ≡ some (division 0 n)) × (2 ^ 31 ≤ n / 2 ^ 32)
  unfolding divide_unsigned_64 finish
  divide_unsigned_64-two_pow_32 ne = (
    rw (tall, start_high-two_pow_32 ne)
        (ap (λ t. some (division 0 t)) (let e : quad_part (parts n) ≡ n = omega arith in e)),
    omega arith,
  )

  start_narrow-one : start_narrow (parts n) (parts 1) ≡ none
  unfolding start_narrow shift_parts_far shl_32 shr_32 count_leading_zeroes_32 leading_zeroes
  start_narrow-one = rw no_zero

  -- By 1 a dividend of 64 digits shifts a ULONG by its whole width, which is undefined.
  pub divide_unsigned_64-one : divide_unsigned_64 n 1 ≡ none
  unfolding divide_unsigned_64
  divide_unsigned_64-one = rw (tall, start_narrow-one)
