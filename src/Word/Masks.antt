-- ===== src/Word/Masks.antt =====
-- `&` and `^` with a word of ones or of zeros, and `~`.
use Prim.Native.Nat.{differ}
use native.Mathlib.Decide.{dec_lt}
use exectos.Base.{ℕ, zero, suc, ◌-◌, ◌/◌, ◌^◌, ◌<◌, bit_and, bit_xor, ◌≡◌, ap, ◌∙◌, arith}
use exectos.Word.{bit, ones}
use exectos.Word.Bits.{
  bit-lt, bit-zero, bit-and, bit-xor, bit_ext, bit-high, pow-two-suc, two-pow-pos,
}

-- `~x` at `k` bits.
pub bit-complement : (k x i : ℕ) → x < 2 ^ k → i < k → bit (ones k - x) i ≡ 1 - bit x i
unfolding bit
bit-complement zero x i h le = absurd (omega arith)
bit-complement (suc k) x zero h le = omega (arith, pow-two-suc k)
bit-complement (suc k) x (suc i) h le =
    let half : (ones (suc k) - x) / 2 ≡ ones k - x / 2 = omega (arith, pow-two-suc k) in
    ap (λ t. bit t i) half ∙ bit-complement k (x / 2) i (omega (arith, pow-two-suc k)) (omega arith)

pub bit-ones : (k i : ℕ) → i < k → bit (ones k) i ≡ 1
bit-ones k i le =
    ap (λ t. bit t i) (let e : ones k ≡ ones k - 0 = omega arith in e)
    ∙ omega (arith, bit-complement k 0 i (two-pow-pos k) le, bit-zero i)

module _ (k x : ℕ) (fits : x < 2 ^ k) where
  pub bit_and-ones : bit_and x (ones k) ≡ x
  bit_and-ones = bit_ext _ _ λ i. elim (dec_lt i k) [
    | yes le ↦ omega (arith, bit-and x (ones k) i, bit-ones k i le, bit-lt x i)
    | no le ↦ omega (arith, bit-and x (ones k) i, bit-high k x i fits)
  ]

  pub bit_xor-ones : bit_xor x (ones k) ≡ ones k - x
  bit_xor-ones = bit_ext _ _ λ i. elim (dec_lt i k) [
    | yes le ↦
        bit-xor x (ones k) i
        ∙ digit (bit x i) (bit (ones k) i) (bit (ones k - x) i) (bit-lt x i) (bit-ones k i le)
            (bit-complement k x i fits le)
    | no le ↦
        bit-xor x (ones k) i
        ∙ ground (
          arith,
          bit-high k x i fits,
          bit-high k (ones k) i,
          bit-high k (ones k - x) i,
          two-pow-pos k,
        )
  ]
    where
      digit : (a b c : ℕ) → a < 2 → b ≡ 1 → c ≡ 1 - a → differ a b ≡ c
      digit zero b c h e f = omega arith
      digit (suc zero) b c h e f = rw e (omega arith)
      digit (suc (suc a)) b c h e f = absurd (omega arith)

pub bit_and-zero : (x : ℕ) → bit_and x 0 ≡ 0
bit_and-zero x = bit_ext _ _ λ i. omega (arith, bit-and x 0 i, bit-zero i)

pub bit_xor-zero : (x : ℕ) → bit_xor x 0 ≡ x
bit_xor-zero x = bit_ext _ _ λ i. bit-xor x 0 i ∙ digit (bit x i) (bit 0 i) (bit-zero i)
  where
    digit : (a b : ℕ) → b ≡ 0 → differ a b ≡ a
    digit zero b e = e
    digit (suc a) b e = rw e
