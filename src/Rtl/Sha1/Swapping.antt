-- ===== src/Rtl/Sha1/Swapping.antt =====
-- SwapByte32 turns the order of the bytes.
use exectos.Base.{
  ℕ, ◌+◌, ◌-◌, ◌*◌, ◌/◌, ◌%◌, ◌^◌, ◌≡◌, ◌<◌, ◌∙◌, ap, min, bit_and, bit_or, Bool, true, false, ltb,
  if◌then◌else◌, arith, Bool-cases, inl, inr,
}
use exectos.Word.{u32, ones, bit}
use exectos.Word.Bits.{
  bit-and, bit-or, bit_ext, bit-high, bit-shl, bit-shr, bit-low, bit_or-fields, two-pow-pos, bit-lt,
}
use exectos.Word.Masks.{bit-ones}
use exectos.Rtl.Sha1.{swap_byte_32}

bit_or_comm : (a b : ℕ) → bit_or a b ≡ bit_or b a
bit_or_comm a b = bit_ext _ _ (λ i. omega (arith, bit-or a b i, bit-or b a i))

bit-ones_all : (w i : ℕ) → bit (ones w) i ≡ (if ltb i w then 1 else 0)
bit-ones_all w i = elim (Bool-cases (ltb i w)) [
  | inl below ↦ rw below (bit-ones w i (ground arith))
  | inr above ↦ rw above (bit-high w (ones w) i (omega (arith, two-pow-pos w)) (ground arith))
]

min_if : (b : Bool) (x : ℕ) → x < 2 → min x (if b then 1 else 0) ≡ (if b then x else 0)
min_if true x h = omega arith
min_if false x h = omega arith

-- A field of a number.
pub bit_and-field : (x w k : ℕ) → bit_and x (ones w * 2 ^ k) ≡ x / 2 ^ k % 2 ^ w * 2 ^ k
bit_and-field x w k = bit_ext _ _ same
  where
    same : (i : ℕ) → bit (bit_and x (ones w * 2 ^ k)) i ≡ bit (x / 2 ^ k % 2 ^ w * 2 ^ k) i
    same i =
        rw (bit-and x (ones w * 2 ^ k) i, bit-shl k (ones w) i, bit-shl k (x / 2 ^ k % 2 ^ w) i)
          (elim (Bool-cases (ltb i k)) [
            | inl low ↦ rw low (omega arith)
            | inr high ↦
                let back : i - k + k ≡ i = ground arith in
                rw
                  (
                    high,
                    bit-low w (x / 2 ^ k) (i - k),
                    bit-shr k x (i - k),
                    back,
                    bit-ones_all w (i - k),
                  )
                  (min_if (ltb (i - k) w) (bit x i) (bit-lt x i))
          ])

bit_or-fields_swapped : (k q r : ℕ) → r < 2 ^ k → bit_or r (q * 2 ^ k) ≡ q * 2 ^ k + r
bit_or-fields_swapped k q r h = bit_or_comm r (q * 2 ^ k) ∙ bit_or-fields k q r h

-- The four bytes of a word, the lowest first, as fields of the word that is made of them.
fields :
    (p q r s : ℕ)
    → p < 2 ^ 8
    → q < 2 ^ 8
    → r < 2 ^ 8
    → bit_or (bit_or (bit_or p (q * 2 ^ 8)) (r * 2 ^ 16)) (s * 2 ^ 24)
      ≡ p + q * 2 ^ 8 + r * 2 ^ 16 + s * 2 ^ 24
fields p q r s h k l =
    ap (λ x. bit_or (bit_or x (r * 2 ^ 16)) (s * 2 ^ 24)) (bit_or-fields_swapped 8 q p h)
    ∙ ap (λ x. bit_or x (s * 2 ^ 24)) (bit_or-fields_swapped 16 r (q * 2 ^ 8 + p) (omega arith))
    ∙ bit_or-fields_swapped 24 s (r * 2 ^ 16 + (q * 2 ^ 8 + p)) (omega arith)
    ∙ omega arith

pub swap_byte_32-fields :
    (x : ℕ)
    → x < 2 ^ 32
    → swap_byte_32 x
      ≡ x / 2 ^ 24 + x / 2 ^ 16 % 2 ^ 8 * 2 ^ 8 + x / 2 ^ 8 % 2 ^ 8 * 2 ^ 16 + x % 2 ^ 8 * 2 ^ 24
unfolding swap_byte_32
swap_byte_32-fields x h =
    let first : bit_and (x / 2 ^ 24) 0xFF ≡ x / 2 ^ 24 =
      bit_and-field (x / 2 ^ 24) 8 0 ∙ omega arith in
    let second : bit_and (x / 2 ^ 8) 0xFF00 ≡ x / 2 ^ 16 % 2 ^ 8 * 2 ^ 8 =
      bit_and-field (x / 2 ^ 8) 8 8 ∙ omega arith in
    let third : bit_and (u32 (x * 2 ^ 8)) 0xFF0000 ≡ x / 2 ^ 8 % 2 ^ 8 * 2 ^ 16 =
      bit_and-field (u32 (x * 2 ^ 8)) 8 16 ∙ omega arith in
    let fourth : bit_and (u32 (x * 2 ^ 24)) 0xFF000000 ≡ x % 2 ^ 8 * 2 ^ 24 =
      bit_and-field (u32 (x * 2 ^ 24)) 8 24 ∙ omega arith in
    rw (first, second, third, fourth)
      (fields (x / 2 ^ 24) (x / 2 ^ 16 % 2 ^ 8) (x / 2 ^ 8 % 2 ^ 8) (x % 2 ^ 8) (omega arith)
        (omega arith) (omega arith))
