-- ===== src/Rtl/Bitmap/Ranges.antt =====
-- What SetBits, ClearBits, SetAllBits, ClearAllBits and TestBit do to each bit.
use exectos.Base.{
  ℕ, zero, suc, ◌+◌, ◌-◌, ◌*◌, ◌/◌, ◌%◌, ◌^◌, ◌≤◌, ◌<◌, bit_and, bit_or, ◌≡◌, arith, ltb, leb, ◌==◌,
  if◌then◌else◌, ◌&&◌, Bool, Bool-cases, inl, inr,
}
use exectos.Word.{bit}
use exectos.Word.Bits.{bit-lt, bit-zero, bit-and, bit-or, bit-shr, bit-high, bit_ext}
use exectos.Word.Masks.{bit-complement, bit-ones}
use exectos.Rtl.Bitmap.{
  Words, BitMap, write, maxulong_ptr, complement, shift_up, mask_from, mask_within, set_bits,
  clear_bits, set_all_bits, clear_all_bits, test_bit, word_count,
}
use exectos.Rtl.Bitmap.Words.{digit, bit_and-63, bit-mask_from, bit-mask_within}
use exectos.Rtl.Bitmap.Fill.{digit-set_memory, digit-set_rest, digit-clear_rest}

abbrev pub within : ℕ → ℕ → ℕ → Bool
within start length b = leb start b && ltb b (start + length)

mask-lt : (offset : ℕ) → mask_from offset < 2 ^ 64
mask-lt offset = native.Mathlib.Nat.mod-lt (maxulong_ptr * 2 ^ offset) (omega arith)

mask_within-lt : (offset length : ℕ) → mask_within offset length < 2 ^ 64
mask_within-lt offset length =
    let back = 64 - offset - length in
    omega (
      arith,
      native.Mathlib.Nat.div-le_self (shift_up (mask_from offset) back) (2 ^ back),
      native.Mathlib.Nat.mod-lt (mask_from offset * 2 ^ back)
          (let e : 1 ≤ 2 ^ 64 = omega arith in e),
    )

-- A word with a mask of ones or of zeros applied.
module _ (ws : Words) (word offset b : ℕ) (o : offset < 64) where
  digit-or_from :
      digit (write ws word (bit_or (ws word) (mask_from offset))) b
      ≡ (if leb (word * 64 + offset) b && ltb b (suc word * 64) then 1 else digit ws b)
  unfolding digit
  digit-or_from = ground (
    arith,
    bit-or (ws word) (mask_from offset) (b % 64),
    bit-mask_from offset (b % 64),
    bit-lt (ws word) (b % 64),
  )

  digit-and_from :
      digit (write ws word (bit_and (ws word) (complement (mask_from offset)))) b
      ≡ (if leb (word * 64 + offset) b && ltb b (suc word * 64) then 0 else digit ws b)
  unfolding digit
  digit-and_from = ground (
    arith,
    bit-and (ws word) (complement (mask_from offset)) (b % 64),
    bit-complement 64 (mask_from offset) (b % 64) (mask-lt offset),
    bit-mask_from offset (b % 64),
    bit-lt (ws word) (b % 64),
  )

  module _ (length : ℕ) (short : offset + length < 64) where
    digit-or_within :
        digit (write ws word (bit_or (ws word) (mask_within offset length))) b
        ≡ (if within (word * 64 + offset) length b then 1 else digit ws b)
    unfolding digit
    digit-or_within = ground (
      arith,
      bit-or (ws word) (mask_within offset length) (b % 64),
      bit-mask_within offset length (b % 64),
      bit-lt (ws word) (b % 64),
    )

    digit-and_within :
        digit (write ws word (bit_and (ws word) (complement (mask_within offset length)))) b
        ≡ (if within (word * 64 + offset) length b then 0 else digit ws b)
    unfolding digit
    digit-and_within = ground (
      arith,
      bit-and (ws word) (complement (mask_within offset length)) (b % 64),
      bit-complement 64 (mask_within offset length) (b % 64) (mask_within-lt offset length),
      bit-mask_within offset length (b % 64),
      bit-lt (ws word) (b % 64),
    )

module _ (m : BitMap) (start length b : ℕ) where
  -- SetBits makes the bits of the range 1 and changes no other bit of the buffer, wherever the
  -- range starts and ends in its words.
  pub set_bits_lem :
      digit (set_bits m start length).buffer b
      ≡ (if within start length b then 1 else digit m.buffer b)
  unfolding set_bits
  set_bits_lem =
      let ws = m.buffer in
      let word = start / 64 in
      let offset = start % 64 in
      let first = write ws word (bit_or (ws word) (mask_from offset)) in
      elim (Bool-cases (length == 0)) [
        | inl none ↦ rw none (ground arith)
        | inr some ↦ elim (Bool-cases (offset == 0)) [
          | inl aligned ↦
              rw (some, bit_and-63 start, aligned) (ground (arith, digit-set_rest ws word length b))
          | inr inside ↦ elim (Bool-cases (ltb length (64 - offset))) [
            | inl short ↦
                rw (some, bit_and-63 start, inside, short)
                  (ground
                    (arith, digit-or_within ws word offset b (omega arith) length (ground arith)))
            | inr long ↦
                rw (some, bit_and-63 start, inside, long)
                  (ground (
                    arith,
                    digit-set_rest first (suc word) (length - (64 - offset)) b,
                    digit-or_from ws word offset b (omega arith),
                  ))
          ]
        ]
      ]

  -- ClearBits makes the bits of the range 0 and changes no other bit of the buffer.
  pub clear_bits_lem :
      digit (clear_bits m start length).buffer b
      ≡ (if within start length b then 0 else digit m.buffer b)
  unfolding clear_bits
  clear_bits_lem =
      let ws = m.buffer in
      let word = start / 64 in
      let offset = start % 64 in
      let first = write ws word (bit_and (ws word) (complement (mask_from offset))) in
      elim (Bool-cases (length == 0)) [
        | inl none ↦ rw none (ground arith)
        | inr some ↦ elim (Bool-cases (offset == 0)) [
          | inl aligned ↦
              rw (some, bit_and-63 start, aligned)
                (ground (arith, digit-clear_rest ws word length b))
          | inr inside ↦ elim (Bool-cases (ltb length (64 - offset))) [
            | inl short ↦
                rw (some, bit_and-63 start, inside, short)
                  (ground
                    (arith, digit-and_within ws word offset b (omega arith) length (ground arith)))
            | inr long ↦
                rw (some, bit_and-63 start, inside, long)
                  (ground (
                    arith,
                    digit-clear_rest first (suc word) (length - (64 - offset)) b,
                    digit-and_from ws word offset b (omega arith),
                  ))
          ]
        ]
      ]

module _ (m : BitMap) (fits : m.size + 63 < 2 ^ 32) (b : ℕ) where
  -- SetAllBits makes every bit of the words of the bit map 1 and changes none after them.
  pub set_all_bits_lem :
      digit (set_all_bits m).buffer b
      ≡ (if ltb b ((m.size + 63) / 64 * 64) then 1 else digit m.buffer b)
  unfolding set_all_bits digit
  set_all_bits_lem = ground (
    arith,
    digit-set_memory m.buffer 0 255 (word_count m * 8) b (omega arith),
    bit-ones 8 (b % 8),
  )

  -- ClearAllBits makes every bit of the words of the bit map 0 and changes none after them.
  pub clear_all_bits_lem :
      digit (clear_all_bits m).buffer b
      ≡ (if ltb b ((m.size + 63) / 64 * 64) then 0 else digit m.buffer b)
  unfolding clear_all_bits digit
  clear_all_bits_lem =
      ground
        (arith, digit-set_memory m.buffer 0 0 (word_count m * 8) b (omega arith), bit-zero (b % 8))

bit-low_bit : (x i : ℕ) → bit (bit_and x 1) i ≡ bit (bit x 0) i
unfolding bit
bit-low_bit x zero = omega (arith, bit-and x 1 0)
bit-low_bit x (suc i) =
    omega (arith, bit-and x 1 (suc i), bit-high 1 1 (suc i), bit-high 1 (x % 2) (suc i))

low_bit : (x : ℕ) → bit_and x 1 ≡ bit x 0
low_bit x = bit_ext _ _ (bit-low_bit x)

-- TestBit reads the bit at its index, and answers false from the size of the bit map on.
pub test_bit_lem :
    (m : BitMap) (index : ℕ) → test_bit m index ≡ ltb index m.size && (digit m.buffer index == 1)
unfolding test_bit digit
test_bit_lem m index =
    let w = m.buffer (index / 64) in
    let i = index % 64 in
    rw (bit_and-63 index)
      (ground (arith, bit-and (w / 2 ^ i) 1 0, bit-shr i w 0, bit-lt w i, low_bit (w / 2 ^ i)))
