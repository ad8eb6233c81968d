-- ===== src/Rtl/Bitmap/Fill.antt =====
-- SetMemory on a buffer, and the part of SetBits and ClearBits after the first word.
use exectos.Base.{
  ℕ, zero, suc, ◌+◌, ◌*◌, ◌/◌, ◌%◌, ◌^◌, ◌<◌, ◌≡◌, ◌∙◌, arith, ltb, leb, if◌then◌else◌, ◌&&◌,
}
use exectos.Word.{bit}
use exectos.Word.Bits.{bit-lt, bit-zero, bit-and, bit-or}
use exectos.Word.Masks.{bit-complement, bit-ones}
use exectos.Rtl.Bitmap.{
  Words, write_byte, set_memory, set_rest, clear_rest, maxulong_ptr, complement, mask_from,
}
use exectos.Rtl.Bitmap.Words.{digit, digit-write_byte, bit_and-63, bit-mask_from}

pub digit-set_memory :
    (ws : Words) (first v n b : ℕ)
    → v < 256
    → digit (set_memory ws first v n) b
      ≡ (if leb first (b / 8) && ltb (b / 8) (first + n) then bit v (b % 8) else digit ws b)
unfolding set_memory
digit-set_memory ws first v zero b h = ground arith
digit-set_memory ws first v (suc n) b h =
    digit-set_memory (write_byte ws first v) (suc first) v n b h
    ∙ ground (arith, digit-write_byte ws first v b h)

mask-lt : (offset : ℕ) → mask_from offset < 2 ^ 64
mask-lt offset = native.Mathlib.Nat.mod-lt (maxulong_ptr * 2 ^ offset) (omega arith)

-- From the start of `word` on, `length` bits are 1 and the others as they were.
pub digit-set_rest :
    (ws : Words) (word length b : ℕ)
    → digit (set_rest ws word length) b
      ≡ (if leb (word * 64) b && ltb b (word * 64 + length) then 1 else digit ws b)
unfolding set_rest digit
digit-set_rest ws word length b =
    let filled = set_memory ws (word * 8) 255 (length / 8) in
    let last = word + length / 64 in
    let mask = mask_from (length % 64) in
    ground (
      arith,
      bit_and-63 length,
      digit-set_memory ws (word * 8) 255 (length / 8) b (omega arith),
      bit-ones 8 (b % 8),
      bit-or (filled last) (complement mask) (b % 64),
      bit-complement 64 mask (b % 64) (mask-lt (length % 64)),
      bit-mask_from (length % 64) (b % 64),
      bit-lt (filled last) (b % 64),
    )

pub digit-clear_rest :
    (ws : Words) (word length b : ℕ)
    → digit (clear_rest ws word length) b
      ≡ (if leb (word * 64) b && ltb b (word * 64 + length) then 0 else digit ws b)
unfolding clear_rest digit
digit-clear_rest ws word length b =
    let filled = set_memory ws (word * 8) 0 (length / 8) in
    let last = word + length / 64 in
    let mask = mask_from (length % 64) in
    ground (
      arith,
      bit_and-63 length,
      digit-set_memory ws (word * 8) 0 (length / 8) b (omega arith),
      bit-zero (b % 8),
      bit-and (filled last) mask (b % 64),
      bit-mask_from (length % 64) (b % 64),
      bit-lt (filled last) (b % 64),
    )
