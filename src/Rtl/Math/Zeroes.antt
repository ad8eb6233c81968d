-- ===== src/Rtl/Math/Zeroes.antt =====
-- What the counts of leading and trailing zeroes say of a number that is not 0.
use exectos.Base.{
  ℕ, zero, suc, ◌+◌, ◌-◌, ◌*◌, ◌/◌, ◌%◌, ◌^◌, ◌≤◌, ◌<◌, ◌≡◌, ap, ◌∙◌, arith, leb, ◌==◌, Bool-cases,
  inl, inr,
}
use exectos.Word.{bit}
use exectos.Word.Bits.{pow-two-suc}
use exectos.Rtl.Math.{leading_zeroes, trailing_zeroes}

pub two-pow-add : (a b : ℕ) → 2 ^ (a + b) ≡ 2 ^ a * 2 ^ b
two-pow-add zero b = ap (λ t. 2 ^ t) (let e : 0 + b ≡ b = omega arith in e) ∙ omega arith
two-pow-add (suc a) b =
    ap (λ t. 2 ^ t) (let e : suc a + b ≡ suc (a + b) = omega arith in e)
    ∙ omega (arith, pow-two-suc (a + b), two-pow-add a b, ap (λ (t : ℕ). t * 2 ^ b) (pow-two-suc a))

-- The count leaves room for the highest digit alone.
pub leading_zeroes-bounds :
    (w v : ℕ)
    → 1 ≤ v
    → v < 2 ^ w
    → (leading_zeroes w v < w)
      × (2 ^ (w - 1 - leading_zeroes w v) ≤ v)
      × (v < 2 ^ (w - leading_zeroes w v))
unfolding leading_zeroes
leading_zeroes-bounds zero v h k = absurd (omega arith)
leading_zeroes-bounds (suc w) v h k = elim (Bool-cases (leb (2 ^ w) v)) [
  | inl big ↦ rw big (
    omega arith,
    ground (arith, ap (λ t. 2 ^ t) (let e : suc w - 1 - 0 ≡ w = omega arith in e)),
    omega (arith, ap (λ t. 2 ^ t) (let e : suc w - 0 ≡ suc w = omega arith in e)),
  )
  | inr small ↦
      let (a, b, c) = leading_zeroes-bounds w v h (ground arith) in
      rw small (
        omega arith,
        omega (
          arith,
          b,
          ap (λ t. 2 ^ t)
              (let e : suc w - 1 - suc (leading_zeroes w v) ≡ w - 1 - leading_zeroes w v =
                  omega arith in
                e),
        ),
        omega (
          arith,
          c,
          ap (λ t. 2 ^ t)
              (let e : suc w - suc (leading_zeroes w v) ≡ w - leading_zeroes w v = omega arith in
                e),
        ),
      )
]

-- The count is the place of the lowest digit that is 1.
pub trailing_zeroes-bit :
    (w v : ℕ)
    → 1 ≤ v
    → v < 2 ^ w
    → (trailing_zeroes w v < w)
      × (bit v (trailing_zeroes w v) ≡ 1)
      × ((i : ℕ) → i < trailing_zeroes w v → bit v i ≡ 0)
unfolding trailing_zeroes bit
trailing_zeroes-bit zero v h k = absurd (omega arith)
trailing_zeroes-bit (suc w) v h k = elim (Bool-cases (v % 2 == 0)) [
  | inr odd ↦ rw odd (omega arith, ground arith, λ i lt. absurd (omega arith))
  | inl even ↦
      let (a, b, c) = trailing_zeroes-bit w (v / 2) (ground arith) (omega (arith, pow-two-suc w)) in
      rw even (omega arith, b, below c (ground arith))
]
  where
    below :
        ((i : ℕ) → i < trailing_zeroes w (v / 2) → bit (v / 2) i ≡ 0)
        → v % 2 ≡ 0
        → (i : ℕ) → i < suc (trailing_zeroes w (v / 2))
        → bit v i ≡ 0
    below c e zero lt = e
    below c e (suc i) lt = c i (omega arith)
