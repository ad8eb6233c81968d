-- ===== src/Word.antt =====
-- Machine words as native numbers: casts, shifts, and the binary digits of a number.
pub mod Bits
pub mod Masks
use exectos.Base.{ℕ, zero, suc, ◌-◌, ◌*◌, ◌/◌, ◌%◌, ◌^◌}

abbrev pub u16 : ℕ → ℕ
u16 n = n % 2 ^ 16

abbrev pub u32 : ℕ → ℕ
u32 n = n % 2 ^ 32

abbrev pub u64 : ℕ → ℕ
u64 n = n % 2 ^ 64

-- The largest value of an unsigned type of `w` bits.
abbrev pub ones : ℕ → ℕ
ones w = 2 ^ w - 1

-- Binary digit `i`, counted from the lowest.
unfoldable pub bit : ℕ → ℕ → ℕ
bit x zero = x % 2
bit x (suc i) = bit (x / 2) i
