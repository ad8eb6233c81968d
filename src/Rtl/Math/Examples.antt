-- ===== src/Rtl/Math/Examples.antt =====
-- The division theorems at concrete numbers.
use exectos.Base.{◌/◌, ◌%◌, ◌^◌, ◌≤◌, ◌≡◌, some, none, arith}
use exectos.Rtl.Math.{division, divide_unsigned_64}
use exectos.Rtl.Math.Quotient.{
  divide_unsigned_64_lem, divide_unsigned_64-two_pow_32, divide_unsigned_64-one,
}

divide_unsigned_64_lem_example :
    divide_unsigned_64 0x8000_0000_0000_0005 0x1_0000_0007
    ≡ some
        (division (0x8000_0000_0000_0005 / 0x1_0000_0007) (0x8000_0000_0000_0005 % 0x1_0000_0007))
divide_unsigned_64_lem_example =
    divide_unsigned_64_lem 0x8000_0000_0000_0005 0x1_0000_0007 (omega arith) (omega arith)
      (omega arith) (λ (a, b). absurd (omega arith)) (λ (a, b, c). absurd (omega arith))

divide_unsigned_64-two_pow_32_example :
    (divide_unsigned_64 0x8000_0000_0000_0001 (2 ^ 32) ≡ some (division 0 0x8000_0000_0000_0001))
    × (2 ^ 31 ≤ 0x8000_0000_0000_0001 / 2 ^ 32)
divide_unsigned_64-two_pow_32_example =
    divide_unsigned_64-two_pow_32 0x8000_0000_0000_0001 (omega arith) (omega arith) (omega arith)

divide_unsigned_64-one_example : divide_unsigned_64 0x8000_0000_0000_0001 1 ≡ none
divide_unsigned_64-one_example =
    divide_unsigned_64-one 0x8000_0000_0000_0001 (omega arith) (omega arith)
