-- ===== src/Rtl/Bitmap.antt =====
-- xtoskrnl/rtl/bitmap.cc: bit maps, with words of BITS_PER_LONG = 64 bits as on amd64, and
-- SetMemory of xtoskrnl/rtl/memory.cc. The buffer is the words from `Buffer` on.
pub mod Words
pub mod Fill
pub mod Ranges
pub mod Counting
pub mod Counts
pub mod Search
pub mod Take
pub mod Singles
mod Examples
use exectos.Base.{
  ℕ, zero, suc, ◌+◌, ◌-◌, ◌*◌, ◌/◌, ◌%◌, ◌^◌, bit_and, bit_or, Bool, true, false, not, ◌&&◌, Option,
  none, some, ◌==◌, ltb, leb, if◌then◌else◌,
}
use exectos.Word.{u32, u64, ones, bit}
use exectos.Rtl.Math.{◌>>=◌, count_trailing_zeroes_64}

abbrev pub Words : Type 0
Words = ℕ → ℕ

pub record BitMap : Type 0 where
  pub buffer : Words
  pub size : ℕ

abbrev pub write : Words → ℕ → ℕ → Words
write ws i v j = if j == i then v else ws j

-- Byte `k` of a word, counted from the lowest, replaced.
abbrev pub put_byte : ℕ → ℕ → ℕ → ℕ
put_byte w k v = w / 2 ^ (8 * suc k) * 2 ^ (8 * suc k) + (v * 2 ^ (8 * k) + w % 2 ^ (8 * k))

abbrev pub write_byte : Words → ℕ → ℕ → Words
write_byte ws a v = write ws (a / 8) (put_byte (ws (a / 8)) (a % 8) v)

-- SetMemory at the byte `first` of the buffer.
unfoldable pub set_memory : Words → ℕ → ℕ → ℕ → Words
set_memory ws first byte zero = ws
set_memory ws first byte (suc length) =
    set_memory (write_byte ws first byte) (suc first) byte length

abbrev pub maxulong_ptr : ℕ
maxulong_ptr = ones 64

-- `~` and `<<` of a ULONG_PTR.
abbrev pub complement : ℕ → ℕ
complement x = maxulong_ptr - x

abbrev pub shift_up : ℕ → ℕ → ℕ
shift_up x k = u64 (x * 2 ^ k)

abbrev pub word_count : BitMap → ℕ
word_count m = u32 (m.size + 63) / 64

unfoldable pub initialize_bit_map : Words → ℕ → BitMap
initialize_bit_map buffer size = record { buffer = buffer; size = u32 size }

unfoldable pub clear_all_bits : BitMap → BitMap
clear_all_bits m = record m { buffer = set_memory m.buffer 0 0 (word_count m * 8) }

unfoldable pub set_all_bits : BitMap → BitMap
set_all_bits m = record m { buffer = set_memory m.buffer 0 255 (word_count m * 8) }

-- The mask of the bits from `offset` on, and the same cut to `length` bits.
abbrev pub mask_from : ℕ → ℕ
mask_from offset = shift_up maxulong_ptr offset

abbrev pub mask_within : ℕ → ℕ → ℕ
mask_within offset length =
    let back = 64 - offset - length in shift_up (mask_from offset) back / 2 ^ back

-- The whole words and what is left after them.
unfoldable pub set_rest : Words → ℕ → ℕ → Words
set_rest ws word length =
    let filled = set_memory ws (word * 8) 255 (length / 2 ^ 3) in
    let last = word + length / 64 in
    let left = bit_and length 63 in
    if left == 0
    then filled
    else write filled last (bit_or (filled last) (complement (shift_up maxulong_ptr left)))

unfoldable pub set_bits : BitMap → ℕ → ℕ → BitMap
set_bits m starting_index length =
    let ws = m.buffer in
    let word = starting_index / 64 in
    let offset = bit_and starting_index 63 in
    if length == 0 then m else record m {
      buffer =
          if offset == 0
          then set_rest ws word length
          else if ltb length (64 - offset)
          then write ws word (bit_or (ws word) (mask_within offset length))
          else set_rest (write ws word (bit_or (ws word) (mask_from offset))) (suc word)
              (length - (64 - offset));
    }

unfoldable pub clear_rest : Words → ℕ → ℕ → Words
clear_rest ws word length =
    let filled = set_memory ws (word * 8) 0 (length / 2 ^ 3) in
    let last = word + length / 64 in
    let left = bit_and length 63 in
    if left == 0
    then filled
    else write filled last (bit_and (filled last) (shift_up maxulong_ptr left))

unfoldable pub clear_bits : BitMap → ℕ → ℕ → BitMap
clear_bits m starting_index length =
    let ws = m.buffer in
    let word = starting_index / 64 in
    let offset = bit_and starting_index 63 in
    if length == 0 then m else record m {
      buffer =
          if offset == 0
          then clear_rest ws word length
          else if ltb length (64 - offset)
          then write ws word (bit_and (ws word) (complement (mask_within offset length)))
          else clear_rest (write ws word (bit_and (ws word) (complement (mask_from offset))))
              (suc word) (length - (64 - offset));
    }

unfoldable pub test_bit : BitMap → ℕ → Bool
test_bit m index =
    if leb m.size index
    then false
    else not (bit_and (m.buffer (index / 64) / 2 ^ bit_and index 63) 1 == 0)

-- The word that CountBits looks at: 1 where the bit is not the one asked for.
abbrev pub others : Bool → ℕ → ℕ
others set w = if set then complement w else w

-- The loop of CountBits over the words that are left, and the word where it stops.
unfoldable pub count_loop : Words → Bool → ℕ → ℕ → ℕ → ℕ × ℕ
count_loop ws set word value zero = (word, value)
count_loop ws set word value (suc more) =
    let rest = count_loop ws set (suc word) (others set (ws (suc word))) more in
    if value == 0 then rest else (word, value)

unfoldable pub count_bits : BitMap → ℕ → ℕ → Bool → ℕ
count_bits m length starting_index set =
    let first = starting_index / 64 in
    let offset = bit_and starting_index 63 in
    let value = shift_up (others set (m.buffer first) / 2 ^ offset) offset in
    let (word, stopped) = count_loop m.buffer set first value (u64 (length + 63) / 64 - 1) in
    if stopped == 0
    then length
    else let size = u64 (word * 64 + 2 ^ 64 - starting_index + count_trailing_zeroes_64 stopped) in
      if ltb length size then length else size

-- How a run is searched between two places.
pub data Attempt : Type 0 where
  found : ℕ → Attempt
  missed : Attempt

-- The inner loop of FindBits on fuel. `none` means that the fuel ran out.
unfoldable pub find_run : BitMap → ℕ → Bool → ℕ → ℕ → ℕ → Option Attempt
find_run m length set limit zero offset = none
find_run m length set limit (suc fuel) offset =
    let next = offset + count_bits m (m.size - offset) offset (not set) in
    let run = count_bits m length next set in
    let rest = find_run m length set limit fuel (next + run) in
    if leb limit (offset + length)
    then some missed
    else if ltb limit (next + length)
    then some missed
    else if leb length run
    then some (found next)
    else rest

-- The result of a try, or of the tries after it.
abbrev pub or_else : Option Attempt → Option ℕ → Option ℕ
or_else none rest = none
or_else (some (found place)) rest = some place
or_else (some missed) rest = rest

-- The tries: from the offset up to the limit, and after that from the beginning up to the
-- starting index.
unfoldable pub find_tries : ℕ → BitMap → ℕ → ℕ → Bool → ℕ → ℕ → ℕ → Option ℕ
find_tries fuel m length index set zero offset limit = some maxulong_ptr
find_tries fuel m length index set (suc tries) offset limit =
    or_else (find_run m length set limit fuel offset)
      (find_tries fuel m length index set tries 0 index)

unfoldable pub find_bits : ℕ → BitMap → ℕ → ℕ → Bool → Option ℕ
find_bits fuel m length starting_index set =
    let index = if leb m.size starting_index then 0 else starting_index in
    if ltb m.size length
    then some maxulong_ptr
    else if length == 0
    then some starting_index
    else find_tries fuel m length index set (if index == 0 then 2 else 3) index m.size

unfoldable pub find_clear_bits : ℕ → BitMap → ℕ → ℕ → Option ℕ
find_clear_bits fuel m length index = find_bits fuel m length index false

unfoldable pub find_set_bits : ℕ → BitMap → ℕ → ℕ → Option ℕ
find_set_bits fuel m length index = find_bits fuel m length index true

-- The index is returned as a ULONG.
unfoldable pub set_clear_bits : ℕ → BitMap → ℕ → ℕ → Option (ℕ × BitMap)
set_clear_bits fuel m length index = do
  place ← find_clear_bits fuel m length index
  some (u32 place, (if place == maxulong_ptr then m else set_bits m place length))

unfoldable pub clear_set_bits : ℕ → BitMap → ℕ → ℕ → Option (ℕ × BitMap)
clear_set_bits fuel m length index = do
  place ← find_set_bits fuel m length index
  some (u32 place, (if place == maxulong_ptr then m else clear_bits m place length))

-- `1 << k` of the int 1, as a ULONG_PTR: a count of 31 gives the sign, which fills the upper
-- half, and one of 32 or more is undefined behaviour, which is `none`.
unfoldable pub int_one_shift : ℕ → Option ℕ
int_one_shift k =
    if ltb k 31 then some (2 ^ k) else if k == 31 then some (2 ^ 64 - 2 ^ 31) else none

unfoldable pub set_bit : BitMap → ℕ → Option BitMap
set_bit m index = if leb m.size index then some m else do
  mask ← int_one_shift (bit_and index 63)
  some (record m { buffer = write m.buffer (index / 64) (bit_or (m.buffer (index / 64)) mask) })

unfoldable pub clear_bit : BitMap → ℕ → Option BitMap
clear_bit m index = if leb m.size index then some m else do
  mask ← int_one_shift (bit_and index 63)
  some (record m {
    buffer = write m.buffer (index / 64) (bit_and (m.buffer (index / 64)) (complement mask));
  })
