-- ===== src/Rtl/Math/Outcome.antt =====
-- What a start of the division leads to, and the bounds that the counts of zeroes give.
use native.Mathlib.Nat.{mul-le-mul_right, mul-le-mul_left, div-add-mod, mod-lt}
use native.Mathlib.Decide.{dec_lt}
use exectos.Base.{
  ℕ, ◌+◌, ◌-◌, ◌*◌, ◌/◌, ◌%◌, ◌^◌, ◌≤◌, ◌<◌, ◌≡◌, refl, ap, ◌∙◌, ◌⊎◌, inl, inr, arith, some, Option,
  bit_or,
}
use exectos.Word.{u64}
use exectos.Word.Bits.{two-pow-pos, bit_or-fields}
use exectos.Rtl.Math.{
  Parts, quad_part, Start, returns, loops, count_leading_zeroes_32, division, finish, division_loop,
}
use exectos.Rtl.Math.Step.{IsParts}
use exectos.Rtl.Math.Zeroes.{two-pow-add, leading_zeroes-bounds}
use exectos.Rtl.Math.Rounds.{Near, division_loop-divides}
use exectos.Rtl.Math.Begin.{begin, Begins}

-- What a start leads to: the quotient and the remainder.
pub record Divides (n d : ℕ) (start : Option Start) : Type 0 where
  pub chosen : Start
  pub starts : start ≡ some chosen
  pub ends : finish d chosen ≡ division (n / d) (n % d)

pub quotient_unique : (n d q r : ℕ) → n ≡ q * d + r → r < d → (n / d ≡ q) × (n % d ≡ r)
quotient_unique n d q r e lt =
    let pos : 1 ≤ d = omega arith in
    let whole = div-add-mod n d in
    let rest = mod-lt n pos in
    let same : n / d ≡ q = elim (dec_lt q (n / d)) [
      | yes less ↦
          absurd (omega (arith, mul-le-mul_right d (let f : q + 1 ≤ n / d = omega arith in f)))
      | no not_less ↦ elim (dec_lt (n / d) q) [
        | yes more ↦
            absurd (omega (arith, mul-le-mul_right d (let f : n / d + 1 ≤ q = omega arith in f)))
        | no not_more ↦ omega arith
      ]
    ] in
    (same, omega (arith, ap (λ (t : ℕ). t * d) same))

pub returns-Divides :
    (n d q r : ℕ) (start : Option Start)
    → start ≡ some (returns q r)
    → n ≡ q * d + r
    → r < d
    → Divides n d start
unfolding finish
returns-Divides n d q r start e f lt =
    let (eq, er) = quotient_unique n d q r f lt in
    record { chosen = returns q r; starts = e; ends = rw (eq, er) refl }

-- A loop that is entered with its invariant ends in the quotient and the remainder.
pub Begins-Divides :
    (n d s : ℕ) (start : Option Start)
    → n < 2 ^ 64
    → d < 2 ^ 64
    → Begins n d s start
    → (d ≤ 2 ^ 63) ⊎ ((s ≡ 1) × (2 ^ 63 ≤ n) × (2 ^ 63 ≤ d))
    → Divides n d start
unfolding finish
Begins-Divides n d s start hn hd b near =
    let entry = begin b.quotient b.remainder in
    let e = division_loop s d entry in
    let (whole, lt, carry) =
      division_loop-divides n d s b.room entry hn hd b.invariant (entry-near near) in
    let q = 2 * quad_part e.quotient + e.carry in
    let (eq, er) = quotient_unique n d q (quad_part e.remainder) whole lt in
    let small : q < 2 ^ 64 =
      omega (arith, mul-le-mul_left q (let f : 1 ≤ d = omega (arith, lt) in f), whole) in
    let joined : bit_or (u64 (quad_part e.quotient * 2)) e.carry ≡ q =
      ap (λ t. bit_or t e.carry)
        (let f : u64 (quad_part e.quotient * 2) ≡ quad_part e.quotient * 2 ^ 1 = omega arith in f)
      ∙ bit_or-fields 1 (quad_part e.quotient) e.carry carry
      ∙ omega arith in
    record {
      chosen = loops s b.quotient b.remainder;
      starts = b.enters;
      ends = rw (eq, er, joined) refl;
    }
  where
    entry-near :
        (d ≤ 2 ^ 63) ⊎ ((s ≡ 1) × (2 ^ 63 ≤ n) × (2 ^ 63 ≤ d))
        → Near n d s (begin b.quotient b.remainder) b.invariant.found
    entry-near (inl low) = inl low
    entry-near (inr (one, large_n, large_d)) = inr (inr (one, b.none_found, refl, large_n, large_d))

pub count-bounds :
    (v : ℕ)
    → 1 ≤ v
    → v < 2 ^ 32
    → let z = count_leading_zeroes_32 v in (z < 32) × (2 ^ (31 - z) ≤ v) × (v < 2 ^ (32 - z))
unfolding count_leading_zeroes_32
count-bounds v h k = leading_zeroes-bounds 32 v h k

pub two-pow-le : (a b : ℕ) → a ≤ b → 2 ^ a ≤ 2 ^ b
two-pow-le a b h = omega (
  arith,
  two-pow-add a (b - a),
  ap (λ t. 2 ^ t) (let e : a + (b - a) ≡ b = omega arith in e),
  mul-le-mul_left (2 ^ a) (two-pow-pos (b - a)),
)

-- A shift that takes the lowest power of the divisor up to the next power of the dividend.
pub shift-lt : (n d e t s : ℕ) → n < 2 ^ t → 2 ^ e ≤ d → e + s ≡ t → n < d * 2 ^ s
shift-lt n d e t s hn hd sum =
    omega (arith, two-pow-add e s, ap (λ t. 2 ^ t) sum, mul-le-mul_right (2 ^ s) hd)

-- A number with a high part, between two powers of two by its count of leading zeroes.
pub high-bounds :
    (p : Parts)
    → IsParts p
    → 1 ≤ p.high
    → let z = count_leading_zeroes_32 p.high in
      (z < 32) × (2 ^ (63 - z) ≤ quad_part p) × (quad_part p < 2 ^ (64 - z))
high-bounds p i pos =
    let z = count_leading_zeroes_32 p.high in
    let (a, b, c) = count-bounds p.high pos i.high in
    (
      a,
      omega (
        arith,
        b,
        two-pow-add (31 - z) 32,
        ap (λ t. 2 ^ t) (let e : 31 - z + 32 ≡ 63 - z = omega arith in e),
      ),
      omega (
        arith,
        c,
        i.low,
        two-pow-add (32 - z) 32,
        ap (λ t. 2 ^ t) (let e : 32 - z + 32 ≡ 64 - z = omega arith in e),
      ),
    )
