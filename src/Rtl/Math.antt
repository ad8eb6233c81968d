-- ===== src/Rtl/Math.antt =====
-- xtoskrnl/rtl/math.cc: leading and trailing zeroes and the division routines. ULONG has 32 bits
-- and ULONGLONG 64; a signed value is its bit pattern.
mod Examples
pub mod Zeroes
pub mod Step
pub mod Rounds
pub mod Begin
pub mod BeginFar
pub mod Outcome
pub mod Shifts
pub mod Cases
pub mod Quotient
use exectos.Base.{
  ℕ, zero, suc, ◌+◌, ◌-◌, ◌*◌, ◌/◌, ◌%◌, ◌^◌, bit_and, bit_or, bit_xor, Bool, Option, none, some,
  ◌==◌, ltb, leb, if◌then◌else◌,
}
use exectos.Word.{u32, u64, ones}

-- What __builtin_clz returns at a width of `w` bits. At 0 the compiler's result is undefined; no
-- proof uses its value there.
unfoldable pub leading_zeroes : ℕ → ℕ → ℕ
leading_zeroes zero v = 0
leading_zeroes (suc w) v = if leb (2 ^ w) v then 0 else suc (leading_zeroes w v)

-- What __builtin_ctz returns, likewise.
unfoldable pub trailing_zeroes : ℕ → ℕ → ℕ
trailing_zeroes zero v = 0
trailing_zeroes (suc w) v = if v % 2 == 0 then suc (trailing_zeroes w (v / 2)) else 0

unfoldable pub count_leading_zeroes_32 : ℕ → ℕ
count_leading_zeroes_32 v = leading_zeroes 32 v

unfoldable pub count_leading_zeroes_64 : ℕ → ℕ
count_leading_zeroes_64 v = leading_zeroes 64 v

unfoldable pub count_trailing_zeroes_32 : ℕ → ℕ
count_trailing_zeroes_32 v = trailing_zeroes 32 v

unfoldable pub count_trailing_zeroes_64 : ℕ → ℕ
count_trailing_zeroes_64 v = trailing_zeroes 64 v

-- The two halves of a ULARGE_INTEGER.
pub record Parts : Type 0 where
  pub high : ℕ
  pub low : ℕ

abbrev pub parts : ℕ → Parts
parts n = record { high = n / 2 ^ 32; low = n % 2 ^ 32 }

abbrev pub quad_part : Parts → ℕ
quad_part p = p.high * 2 ^ 32 + p.low

-- Shifts of a ULONG. A count of 32 or more is undefined behaviour, which is `none`.
unfoldable pub shl_32 : ℕ → ℕ → Option ℕ
shl_32 x k = if ltb k 32 then some (u32 (x * 2 ^ k)) else none

unfoldable pub shr_32 : ℕ → ℕ → Option ℕ
shr_32 x k = if ltb k 32 then some (x / 2 ^ k) else none

infixl 5 ◌>>=◌
abbrev pub ◌>>=◌ : {A B : Type 0} → Option A → (A → Option B) → Option B
none >>= k = none
some a >>= k = k a

-- How the division starts: with its result, or with a shift count and the first quotient and
-- remainder of the loop.
pub data Start : Type 0 where
  returns : (quotient remainder : ℕ) → Start
  loops : (shift : ℕ) → (quotient remainder : Parts) → Start

-- The quotient and remainder for a shift below 32.
unfoldable pub shift_parts : Parts → ℕ → Option Start
shift_parts n shift = do
  quotient_high ← shl_32 n.low (32 - shift)
  remainder_top ← shl_32 n.high (32 - shift)
  remainder_bottom ← shr_32 n.low shift
  remainder_high ← shr_32 n.high shift
  some (
      loops shift (record { high = quotient_high; low = 0 })
        (record { high = remainder_high; low = bit_or remainder_top remainder_bottom }))

-- The difference of two counts, as a ULONGLONG.
abbrev pub shift_count : ℕ → ℕ → ℕ
shift_count a b = u64 (a + 2 ^ 64 - b)

-- The divisor has both parts.
unfoldable pub start_wide : Parts → Parts → Option Start
start_wide n d =
    let shift = shift_count (count_leading_zeroes_32 d.high) (count_leading_zeroes_32 n.high) in
    if ltb 31 shift
    then some (returns 0 (quad_part n))
    else if shift + 1 == 32
    then some
        (loops (shift + 1) (record { high = n.low; low = 0 }) (record { high = 0; low = n.high }))
    else shift_parts n (shift + 1)

-- The quotient and remainder for a shift above 32.
unfoldable pub shift_parts_far : Parts → ℕ → Option Start
shift_parts_far n shift = do
  quotient_low ← shl_32 n.low (64 - shift)
  quotient_top ← shl_32 n.high (64 - shift)
  quotient_bottom ← shr_32 n.low (shift - 32)
  remainder_low ← shr_32 n.high (shift - 32)
  some (
      loops shift (record { high = bit_or quotient_top quotient_bottom; low = quotient_low })
        (record { high = 0; low = remainder_low }))

-- The divisor has a low part only.
unfoldable pub start_narrow : Parts → Parts → Option Start
start_narrow n d =
    let shift = shift_count (33 + count_leading_zeroes_32 d.low) (count_leading_zeroes_32 n.high) in
    if shift == 32
    then some (loops shift (record { high = n.low; low = 0 }) (record { high = 0; low = n.high }))
    else if ltb shift 32
    then shift_parts n shift
    else shift_parts_far n shift

-- The divisor has a high part only.
unfoldable pub start_high : Parts → Parts → Option Start
start_high n d =
    if n.low == 0
    then some (returns (n.high / d.high) (quad_part (record { high = n.high % d.high; low = 0 })))
    else let shift =
        shift_count (count_leading_zeroes_32 d.high) (count_leading_zeroes_32 n.high) in
      if ltb 30 shift then some (returns 0 (quad_part n)) else shift_parts n (shift + 1)

pub record Loop : Type 0 where
  pub quotient : Parts
  pub remainder : Parts
  pub carry : ℕ

-- (LONGLONG)(divisor - remainder - 1) >> 63, which copies the sign.
unfoldable pub sign_mask : ℕ → ℕ → ℕ
sign_mask divisor remainder =
    if leb (2 ^ 63) (u64 (divisor + 2 ^ 64 - (remainder + 1))) then ones 64 else 0

-- One round of the shift-and-subtract loop: the shift, and the subtraction.
unfoldable pub shift_left : Loop → Loop
shift_left s = record {
  remainder = record {
    high = bit_or (u32 (s.remainder.high * 2)) (s.remainder.low / 2 ^ 31);
    low = bit_or (u32 (s.remainder.low * 2)) (s.quotient.high / 2 ^ 31);
  };
  quotient = record {
    high = bit_or (u32 (s.quotient.high * 2)) (s.quotient.low / 2 ^ 31);
    low = bit_or (u32 (s.quotient.low * 2)) s.carry;
  };
  carry = s.carry;
}

unfoldable pub subtract : ℕ → Loop → Loop
subtract divisor s =
    let difference = sign_mask divisor (quad_part s.remainder) in
    record s {
      carry = bit_and difference 1;
      remainder = parts (u64 (quad_part s.remainder + 2 ^ 64 - bit_and divisor difference));
    }

unfoldable pub division_loop : ℕ → ℕ → Loop → Loop
division_loop zero divisor s = s
division_loop (suc shift) divisor s = division_loop shift divisor (subtract divisor (shift_left s))

-- What is returned, and what is stored at Remainder where that is not NULLPTR; `none` if
-- nothing is.
pub record Division : Type 0 where
  pub quotient : ℕ
  pub remainder : Option ℕ

abbrev pub division : ℕ → ℕ → Division
division q r = record { quotient = q; remainder = some r }

unfoldable pub finish : ℕ → Start → Division
finish divisor (returns q r) = division q r
finish divisor (loops shift q r) =
    let s = division_loop shift divisor (record { quotient = q; remainder = r; carry = 0 }) in
    division (bit_or (u64 (quad_part s.quotient * 2)) s.carry) (quad_part s.remainder)

-- The whole of DivideUnsigned64. `none` is undefined behaviour.
unfoldable pub divide_unsigned_64 : ℕ → ℕ → Option Division
divide_unsigned_64 dividend divisor =
    let n = parts dividend in
    let d = parts divisor in
    if divisor == 0
    then some (record { quotient = 0; remainder = none })
    else if n.high == 0
    then (if d.high == 0
        then some (division (n.low / d.low) (n.low % d.low))
        else some (division 0 n.low))
    else do
      start ←
          (if d.low == 0
            then start_high n d
            else if d.high == 0
            then start_narrow n d
            else start_wide n d)
      some (finish divisor start)
