-- ===== src/Word/Bits.antt =====
-- The digits of `bit_and`, `bit_or` and `bit_xor`, of sums of disjoint fields, and numbers by
-- their digits.
use Prim.Native.Nat.{digits, differ, bit_and-bitwise, bit_or-bitwise, bit_xor-bitwise}
use native.Mathlib.Nat.{pow-suc, one-le-pow, div-add-mod, mod-lt}
use exectos.Base.{
  ℕ, zero, suc, ◌+◌, ◌-◌, ◌*◌, ◌/◌, ◌%◌, ◌^◌, ◌≤◌, ◌<◌, min, max, bit_and, bit_or, bit_xor, ◌≡◌,
  refl, ap, ◌∙◌, arith, ltb, if◌then◌else◌,
}
use exectos.Word.{bit}

pub bit-lt : (x i : ℕ) → bit x i < 2
unfolding bit
bit-lt x zero = omega arith
bit-lt x (suc i) = bit-lt (x / 2) i

pub bit-zero : (i : ℕ) → bit 0 i ≡ 0
unfolding bit
bit-zero zero = refl
bit-zero (suc i) = bit-zero i

differ-lt : (a b : ℕ) → a < 2 → b < 2 → differ a b < 2
differ-lt zero b h k = k
differ-lt (suc a) zero h k = h
differ-lt (suc a) (suc b) h k = differ-lt a b (omega arith) (omega arith)

-- A digit-wise operation: its result at each digit.
module _ (z : ℕ → ℕ) (f : ℕ → ℕ → ℕ) (small : (a b : ℕ) → a < 2 → b < 2 → f a b < 2)
    (out : (b i : ℕ) → bit (z b) i ≡ f 0 (bit b i)) where
  bit-digits : (n a b i : ℕ) → a ≤ n → bit (digits z f n a b) i ≡ f (bit a i) (bit b i)
  unfolding bit
  bit-digits zero zero b i h = out b i ∙ ap (λ t. f t (bit b i)) (omega (arith, bit-zero i))
  bit-digits zero (suc a) b i h = absurd (omega arith)
  bit-digits (suc n) zero b i h = out b i ∙ ap (λ t. f t (bit b i)) (omega (arith, bit-zero i))
  bit-digits (suc n) (suc a) b zero h =
      omega (arith, small (suc a % 2) (b % 2) (omega arith) (omega arith))
  bit-digits (suc n) (suc a) b (suc i) h =
      let rest = digits z f n (suc a / 2) (b / 2) in
      let fits = small (suc a % 2) (b % 2) (omega arith) (omega arith) in
      let half : (rest * 2 + f (suc a % 2) (b % 2)) / 2 ≡ rest = omega (arith, fits) in
      ap (λ t. bit t i) half ∙ bit-digits n (suc a / 2) (b / 2) i (omega arith)

pub bit-and : (a b i : ℕ) → bit (bit_and a b) i ≡ min (bit a i) (bit b i)
bit-and a b i =
    ap (λ t. bit t i) (bit_and-bitwise a b)
    ∙ bit-digits (λ _. 0) min (λ x y p q. omega arith) (λ y j. omega (arith, bit-zero j)) a a b i
        (omega arith)

pub bit-or : (a b i : ℕ) → bit (bit_or a b) i ≡ max (bit a i) (bit b i)
bit-or a b i =
    ap (λ t. bit t i) (bit_or-bitwise a b)
    ∙ bit-digits (λ y. y) max (λ x y p q. omega arith) (λ y j. omega arith) a a b i (omega arith)

pub bit-xor : (a b i : ℕ) → bit (bit_xor a b) i ≡ differ (bit a i) (bit b i)
bit-xor a b i =
    ap (λ t. bit t i) (bit_xor-bitwise a b)
    ∙ bit-digits (λ y. y) differ differ-lt (λ y j. refl) a a b i (omega arith)

-- Two numbers with the same digits are the same.
bit_ext_below : (n a b : ℕ) → a ≤ n → b ≤ n → ((i : ℕ) → bit a i ≡ bit b i) → a ≡ b
unfolding bit
bit_ext_below zero a b h k same = omega arith
bit_ext_below (suc n) a b h k same =
    let half : a / 2 ≡ b / 2 =
      bit_ext_below n (a / 2) (b / 2) (omega arith) (omega arith) (λ i. same (suc i)) in
    let low : a % 2 ≡ b % 2 = same 0 in omega arith

pub bit_ext : (a b : ℕ) → ((i : ℕ) → bit a i ≡ bit b i) → a ≡ b
bit_ext a b same = bit_ext_below (a + b) a b (omega arith) (omega arith) same

pub pow-two-suc : (k : ℕ) → 2 ^ suc k ≡ 2 * 2 ^ k
pow-two-suc k = omega (arith, pow-suc 2 k)

pub mul-two-pow-suc : (q k : ℕ) → q * 2 ^ suc k ≡ 2 * (q * 2 ^ k)
mul-two-pow-suc q k = omega (arith, ap (λ (t : ℕ). q * t) (pow-two-suc k))

-- A field of `k` digits below, and another number above it.
pub bit-fields :
    (k q r i : ℕ) → r < 2 ^ k → bit (q * 2 ^ k + r) i ≡ (if ltb i k then bit r i else bit q (i - k))
unfolding bit
bit-fields zero q r i h =
    let e : q * 2 ^ 0 + r ≡ q = omega arith in
    ap (λ t. bit t i) e ∙ ground (arith, ap (bit q) (let d : i ≡ i - 0 = omega arith in d))
bit-fields (suc k) q r zero h = ground (arith, mul-two-pow-suc q k)
bit-fields (suc k) q r (suc i) h =
    let half : (q * 2 ^ suc k + r) / 2 ≡ q * 2 ^ k + r / 2 = omega (arith, mul-two-pow-suc q k) in
    let fits : r / 2 < 2 ^ k = omega (arith, pow-two-suc k) in
    ap (λ t. bit t i) half
    ∙ ground (
      arith,
      bit-fields k q (r / 2) i fits,
      ap (bit q) (let d : suc i - suc k ≡ i - k = omega arith in d),
    )

pub two-pow-pos : (k : ℕ) → 1 ≤ 2 ^ k
two-pow-pos k = one-le-pow k 2 (omega arith)

-- A number below `2 ^ k` has no digit from `k` on.
pub bit-high : (k r i : ℕ) → r < 2 ^ k → k ≤ i → bit r i ≡ 0
bit-high k r i h le =
    ap (λ t. bit t i) (let e : r ≡ 0 * 2 ^ k + r = omega arith in e)
    ∙ ground (arith, bit-fields k 0 r i h, bit-zero (i - k))

-- x << k
pub bit-shl : (k q i : ℕ) → bit (q * 2 ^ k) i ≡ (if ltb i k then 0 else bit q (i - k))
bit-shl k q i =
    ap (λ t. bit t i) (let e : q * 2 ^ k ≡ q * 2 ^ k + 0 = omega arith in e)
    ∙ ground (arith, bit-fields k q 0 i (two-pow-pos k), bit-zero i)

-- x >> k and x & (2 ^ k - 1)
pub bit-shr : (k x i : ℕ) → bit (x / 2 ^ k) i ≡ bit x (i + k)
bit-shr k x i =
    let whole : x / 2 ^ k * 2 ^ k + x % 2 ^ k ≡ x = grind (arith, div-add-mod) in
    let back : i + k - k ≡ i = omega arith in
    ground (
      arith,
      bit-fields k (x / 2 ^ k) (x % 2 ^ k) (i + k) (mod-lt x (two-pow-pos k)),
      ap (λ t. bit t (i + k)) whole,
      ap (bit (x / 2 ^ k)) back,
    )

pub bit-low : (k x i : ℕ) → bit (x % 2 ^ k) i ≡ (if ltb i k then bit x i else 0)
bit-low k x i =
    let whole : x / 2 ^ k * 2 ^ k + x % 2 ^ k ≡ x = grind (arith, div-add-mod) in
    let fits = mod-lt x (two-pow-pos k) in
    ground (
      arith,
      bit-fields k (x / 2 ^ k) (x % 2 ^ k) i fits,
      ap (λ t. bit t i) whole,
      bit-high k (x % 2 ^ k) i fits,
    )

-- `(q << k) | r` is a sum when `r` fits below.
pub bit_or-fields : (k q r : ℕ) → r < 2 ^ k → bit_or (q * 2 ^ k) r ≡ q * 2 ^ k + r
bit_or-fields k q r h = bit_ext _ _ λ i.
    ground (arith, bit-or (q * 2 ^ k) r i, bit-fields k q r i h, bit-shl k q i, bit-high k r i h)
