-- ===== src/Rtl/Sha1/Functions.antt =====
-- The functions of the rounds of TransformData, which join digits by `bit_or`, are those of FIPS
-- 180-4, which join them by `bit_xor`.
use exectos.Base.{
  ℕ, zero, suc, ◌/◌, ◌^◌, ◌≡◌, ◌<◌, ◌⊎◌, refl, min, max, bit_and, bit_or, bit_xor, false, ◌==◌, ltb,
  arith, Bool-cases, inl, inr,
}
use Prim.Native.Nat.{differ}
use exectos.Word.{bit}
use exectos.Word.Bits.{bit-and, bit-or, bit-xor, bit_ext, bit-high, bit-lt}
use exectos.Word.Masks.{bit-complement}
use exectos.Rtl.Sha1.{Words, complement, function}
use exectos.Rtl.Sha1.Standard.{ch, maj, f_of}

-- What holds of 0 and of 1 holds of a digit.
for_digit : (P : ℕ → Type 0) → P 0 → P 1 → (x : ℕ) → x < 2 → P x
for_digit P p q zero h = p
for_digit P p q (suc zero) h = q
for_digit P p q (suc (suc x)) h = absurd (omega arith)

for_digits :
    (P : ℕ → ℕ → Type 0) → P 0 0 → P 0 1 → P 1 0 → P 1 1 → (x y : ℕ) → x < 2 → y < 2 → P x y
for_digits P p q r s x y h k =
    for_digit (λ t. P t y) (for_digit (P 0) p q y k) (for_digit (P 1) r s y k) x h

abbrev Chosen : ℕ → ℕ → ℕ → ℕ → Type 0
Chosen x n y z = max (min x y) (min n z) ≡ differ (min x y) (min n z)

-- One of the two digits `x` and `n` is 0.
ch_digits :
    (x n y z : ℕ) → y < 2 → z < 2 → ((x ≡ 1) × (n ≡ 0)) ⊎ ((x ≡ 0) × (n < 2)) → Chosen x n y z
ch_digits x n y z k l (inl (e, f)) = rw (e, f) (for_digits (Chosen 1 0) refl refl refl refl y z k l)
ch_digits x n y z k l (inr (e, m)) = rw e (
    for_digit (λ n. Chosen 0 n y z) (for_digits (Chosen 0 0) refl refl refl refl y z k l)
      (for_digits (Chosen 0 1) refl refl refl refl y z k l) n m)

digit-cases : (x : ℕ) → x < 2 → (x ≡ 0) ⊎ (x ≡ 1)
digit-cases x h = ground arith

complement-digits :
    (x i : ℕ)
    → x < 2 ^ 32
    → ((bit x i ≡ 1) × (bit (complement x) i ≡ 0)) ⊎ ((bit x i ≡ 0) × (bit (complement x) i < 2))
complement-digits x i h = elim (digit-cases (bit x i) (bit-lt x i)) [
  | inl e ↦ inr (e, bit-lt (complement x) i)
  | inr e ↦ elim (Bool-cases (ltb i 32)) [
    | inl below ↦ inl (e, omega (arith, bit-complement 32 x i h (ground arith), e))
    | inr above ↦ absurd (omega (arith, e, bit-high 32 x i h (ground arith)))
  ]
]

function-ch : (x y z : ℕ) → x < 2 ^ 32 → bit_or (bit_and x y) (bit_and (complement x) z) ≡ ch x y z
function-ch x y z h = bit_ext _ _ (λ i.
    rw
      (
        bit-or (bit_and x y) (bit_and (complement x) z) i,
        bit-xor (bit_and x y) (bit_and (complement x) z) i,
        bit-and x y i,
        bit-and (complement x) z i,
      )
      (ch_digits (bit x i) (bit (complement x) i) (bit y i) (bit z i) (bit-lt y i) (bit-lt z i)
        (complement-digits x i h)))

abbrev Most : ℕ → ℕ → ℕ → Type 0
Most x y z = max (max (min x y) (min x z)) (min y z) ≡ differ (differ (min x y) (min x z)) (min y z)

maj_digits : (x y z : ℕ) → x < 2 → y < 2 → z < 2 → Most x y z
maj_digits x y z h k l =
    for_digit (λ t. Most t y z) (for_digits (Most 0) refl refl refl refl y z k l)
      (for_digits (Most 1) refl refl refl refl y z k l) x h

function-maj : (x y z : ℕ) → bit_or (bit_or (bit_and x y) (bit_and x z)) (bit_and y z) ≡ maj x y z
function-maj x y z = bit_ext _ _ (λ i.
    rw
      (
        bit-or (bit_or (bit_and x y) (bit_and x z)) (bit_and y z) i,
        bit-or (bit_and x y) (bit_and x z) i,
        bit-xor (bit_xor (bit_and x y) (bit_and x z)) (bit_and y z) i,
        bit-xor (bit_and x y) (bit_and x z) i,
        bit-and x y i,
        bit-and x z i,
        bit-and y z i,
      )
      (maj_digits (bit x i) (bit y i) (bit z i) (bit-lt x i) (bit-lt y i) (bit-lt z i)))

-- The functions of the rounds, for the words of a state of which the second has 32 bits.
pub function-f_of : (i : ℕ) (t : Words) → t.b < 2 ^ 32 → function i t ≡ f_of (i / 20) t.b t.c t.d
function-f_of i t h = elim (Bool-cases (ltb i 20)) [
  | inl first ↦ let e : i / 20 ≡ 0 = ground arith in rw (first, e) (function-ch t.b t.c t.d h)
  | inr later ↦ elim (Bool-cases (ltb i 40)) [
    | inl second ↦ let e : i / 20 ≡ 1 = ground arith in rw (later, second, e) refl
    | inr after ↦ elim (Bool-cases (ltb i 60)) [
      | inl third ↦
          let e : i / 20 ≡ 2 = ground arith in
          rw (later, after, third, e) (function-maj t.b t.c t.d)
      | inr last ↦
          let e : (i / 20 == 0) ≡ false = ground arith in
          let e' : (i / 20 == 2) ≡ false = ground arith in rw (later, after, last, e, e') refl
    ]
  ]
]
