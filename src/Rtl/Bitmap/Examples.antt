-- ===== src/Rtl/Bitmap/Examples.antt =====
-- The bit map theorems on a bit map of 100 bits, whose bits 4 to 7 and 60 to 63 are set.
use exectos.Base.{inl, inr, ◌⊎◌, ◌+◌, ◌≡◌, refl, true, false, some, min, arith, ◌==◌, if◌then◌else◌}
use exectos.Rtl.Bitmap.{
  BitMap, count_bits, set_bits, clear_bits, find_bits, set_clear_bits, clear_set_bits, set_bit,
  maxulong_ptr,
}
use exectos.Rtl.Bitmap.Words.{digit}
use exectos.Rtl.Bitmap.Counting.{IsWords}
use exectos.Rtl.Bitmap.Ranges.{within, set_bits_lem, clear_bits_lem}
use exectos.Rtl.Bitmap.Counts.{AllBits, Counted, count_bits_lem, count_bits-past}
use exectos.Rtl.Bitmap.Search.{Outcome, find_bits-Outcome, find_bits-full}
use exectos.Rtl.Bitmap.Take.{IsFilled, Taken, set_clear_bits-Taken, clear_set_bits-Taken}
use exectos.Rtl.Bitmap.Singles.{set_bit_lem}

abbrev bits : BitMap
bits = record { buffer = λ i. if i == 0 then 0xF000_0000_0000_00F0 else 0; size = 100 }

bits-IsWords : IsWords bits.buffer
bits-IsWords i = ground arith

set_bits_lem_example :
    digit (set_bits bits 60 70).buffer 129 ≡ (if within 60 70 129 then 1 else digit bits.buffer 129)
set_bits_lem_example = set_bits_lem bits 60 70 129

clear_bits_lem_example :
    digit (clear_bits bits 5 2).buffer 7 ≡ (if within 5 2 7 then 0 else digit bits.buffer 7)
clear_bits_lem_example = clear_bits_lem bits 5 2 7

count_bits_lem_example :
    Counted bits.buffer true 4 20 (count_bits bits 20 4 true)
    × AllBits bits.buffer 1 4 (min (4 + count_bits bits 20 4 true) 64)
count_bits_lem_example = count_bits_lem bits bits-IsWords 4 20 true (omega arith) (omega arith)

-- The last four bits of the first word.
last_bits : AllBits bits.buffer 1 60 64
unfolding digit exectos.Word.bit
last_bits b low high =
    elim (let e : (b ≡ 60) ⊎ ((b ≡ 61) ⊎ ((b ≡ 62) ⊎ (b ≡ 63))) = omega arith in e) [
      | inl e ↦ rw e refl
      | inr (inl e) ↦ rw e refl
      | inr (inr (inl e)) ↦ rw e refl
      | inr (inr (inr e)) ↦ rw e refl
    ]

count_bits-past_example : count_bits bits 10 60 true ≡ 10
count_bits-past_example =
    count_bits-past bits bits-IsWords 60 10 true (omega arith) (omega arith) (omega arith) last_bits

find_bits-Outcome_example :
    Outcome bits bits-IsWords (omega arith) 4 (omega arith) true (find_bits 101 bits 4 0 true)
find_bits-Outcome_example =
    find_bits-Outcome bits bits-IsWords (omega arith) 4 (omega arith) true 101 (omega arith) 0

find_bits-full_example : find_bits 101 bits 100 0 false ≡ some maxulong_ptr
find_bits-full_example =
    find_bits-full bits bits-IsWords (omega arith) 100 (omega arith) false 100 0 refl

set_clear_bits-Taken_example : Taken bits 8 false 1 (set_clear_bits 101 bits 8 0)
set_clear_bits-Taken_example =
    set_clear_bits-Taken bits bits-IsWords (omega arith) 8 (omega arith) 101 (omega arith) 0

clear_set_bits-Taken_example : Taken bits 4 true 0 (clear_set_bits 101 bits 4 0)
clear_set_bits-Taken_example =
    clear_set_bits-Taken bits bits-IsWords (omega arith) 4 (omega arith) 101 (omega arith) 0

set_bit_lem_example : (n : BitMap) × (set_bit bits 31 ≡ some n) × IsFilled bits n 1 31 33
set_bit_lem_example = set_bit_lem bits 31 (omega arith) (omega arith)
