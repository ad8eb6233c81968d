-- ===== src/Rtl/Bitmap/Words.antt =====
-- The bit at a place of a buffer, and the words that the bit map routines write.
use native.Mathlib.Nat.{mod-lt}
use exectos.Base.{
  ℕ, suc, ◌+◌, ◌-◌, ◌*◌, ◌/◌, ◌%◌, ◌^◌, ◌≤◌, ◌<◌, bit_and, ◌≡◌, ap, ◌∙◌, arith, ltb, leb, ◌==◌,
  if◌then◌else◌, ◌&&◌,
}
use exectos.Word.{bit}
use exectos.Word.Bits.{
  bit-lt, bit-and, bit_ext, bit-high, bit-low, bit-shr, bit-shl, bit-fields, two-pow-pos,
}
use exectos.Word.Masks.{bit-ones}
use exectos.Rtl.Math.Zeroes.{two-pow-add}
use exectos.Rtl.Bitmap.{
  Words, write, put_byte, write_byte, maxulong_ptr, shift_up, mask_from, mask_within,
}

-- The bit at place `b`, counted from the first of the buffer.
unfoldable pub digit : Words → ℕ → ℕ
digit ws b = bit (ws (b / 64)) (b % 64)

pub bit_and-63 : (n : ℕ) → bit_and n 63 ≡ n % 64
bit_and-63 n =
    bit_ext _ _
      λ i. ground (arith, bit-and n 63 i, bit-low 6 n i, bit-ones 6 i, bit-high 6 63 i, bit-lt n i)

pub digit-write :
    (ws : Words) (i v b : ℕ)
    → digit (write ws i v) b ≡ (if b / 64 == i then bit v (b % 64) else digit ws b)
unfolding digit
digit-write ws i v b = ground (arith)

pub bit-put_byte :
    (w k v i : ℕ)
    → v < 256
    → bit (put_byte w k v) i
      ≡ (if leb (8 * k) i && ltb i (8 * suc k) then bit v (i - 8 * k) else bit w i)
bit-put_byte w k v i h =
    let low = mod-lt w (two-pow-pos (8 * k)) in
    let fits : v * 2 ^ (8 * k) + w % 2 ^ (8 * k) < 2 ^ (8 * suc k) = omega (
      arith,
      low,
      ap (λ t. 2 ^ t) (let e : 8 * suc k ≡ 8 + 8 * k = omega arith in e) ∙ two-pow-add 8 (8 * k),
      native.Mathlib.Nat.mul-le-mul_right (2 ^ (8 * k)) (let e : v ≤ 255 = omega arith in e),
    ) in
    bit-fields (8 * suc k) (w / 2 ^ (8 * suc k)) (v * 2 ^ (8 * k) + w % 2 ^ (8 * k)) i fits
    ∙ ground (
      arith,
      bit-fields (8 * k) v (w % 2 ^ (8 * k)) i low,
      bit-low (8 * k) w i,
      bit-shr (8 * suc k) w (i - 8 * suc k),
      λ (le : 8 * suc k ≤ i). ap (bit w) (let e : i - 8 * suc k + 8 * suc k ≡ i = omega arith in e),
    )

pub digit-write_byte :
    (ws : Words) (a v b : ℕ)
    → v < 256
    → digit (write_byte ws a v) b ≡ (if b / 8 == a then bit v (b % 8) else digit ws b)
unfolding digit
digit-write_byte ws a v b h =
    digit-write ws (a / 8) (put_byte (ws (a / 8)) (a % 8) v) b
    ∙ ground (
      arith,
      bit-put_byte (ws (a / 8)) (a % 8) v (b % 64) h,
      λ (e : b / 8 ≡ a). ap (bit v) (let d : b % 64 - 8 * (a % 8) ≡ b % 8 = omega arith in d),
      λ (e : b / 64 ≡ a / 8). ap (λ t. bit (ws t) (b % 64)) e,
    )

-- The masks.
pub bit-mask_from :
    (offset i : ℕ)
    → offset < 64
    → i < 64
    → bit (mask_from offset) i ≡ (if ltb i offset then 0 else 1)
bit-mask_from offset i h k = ground (
  arith,
  bit-low 64 (maxulong_ptr * 2 ^ offset) i,
  bit-shl offset maxulong_ptr i,
  bit-ones 64 (i - offset),
)

pub bit-mask_within :
    (offset length i : ℕ)
    → offset + length < 64
    → i < 64
    → bit (mask_within offset length) i ≡ (if leb offset i && ltb i (offset + length) then 1 else 0)
bit-mask_within offset length i h k =
    let back = 64 - offset - length in
    ground (
      arith,
      bit-shr back (shift_up (mask_from offset) back) i,
      bit-low 64 (mask_from offset * 2 ^ back) (i + back),
      bit-shl back (mask_from offset) (i + back),
      ap (bit (mask_from offset)) (let e : i + back - back ≡ i = omega arith in e),
      bit-mask_from offset i,
    )
