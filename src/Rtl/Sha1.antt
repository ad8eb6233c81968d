-- ===== src/Rtl/Sha1.antt =====
-- xtoskrnl/rtl/sha1.cc: SHA-1, and SwapByte32 of xtoskrnl/rtl/endian.cc. Buffers are lists of
-- bytes; clearing what is not used any more has no effect here.
pub mod Stream
pub mod Counts
pub mod Feeding
pub mod Swapping
pub mod Standard
pub mod Functions
pub mod Blocks
pub mod Messages
pub mod Digest
mod Examples
use exectos.Base.{
  ℕ, zero, suc, ◌+◌, ◌-◌, ◌*◌, ◌/◌, ◌%◌, ◌^◌, bit_and, bit_or, bit_xor, Bool, true, false, not,
  ◌&&◌, ◌||◌, Option, none, some, List, [], ◌∷◌, ◌++◌, ltb, leb, if◌then◌else◌, length, get_or,
  take, drop,
}
use exectos.Word.{u32}

-- The five words of a state.
pub record Words : Type 0 where
  pub a : ℕ
  pub b : ℕ
  pub c : ℕ
  pub d : ℕ
  pub e : ℕ

-- RTL_SHA1_CONTEXT
pub record Context : Type 0 where
  pub state : Words
  pub count_low : ℕ
  pub count_high : ℕ
  pub buffer : List ℕ

unfoldable pub swap_byte_32 : ℕ → ℕ
swap_byte_32 source =
    bit_or
      (bit_or (bit_or (bit_and (source / 2 ^ 24) 0xFF) (bit_and (source / 2 ^ 8) 0xFF00))
        (bit_and (u32 (source * 2 ^ 8)) 0xFF0000))
      (bit_and (u32 (source * 2 ^ 24)) 0xFF000000)

unfoldable pub rotate_left : ℕ → ℕ → ℕ
rotate_left value count = bit_or (u32 (value * 2 ^ count)) (value / 2 ^ (32 - count))

abbrev pub complement : ℕ → ℕ
complement x = 2 ^ 32 - 1 - x

-- The word number `i` of a buffer, in the order of the machine.
abbrev pub ulong_at : List ℕ → ℕ → ℕ
ulong_at buffer i =
    get_or buffer (4 * i) 0
    + 2 ^ 8 * get_or buffer (4 * i + 1) 0
    + 2 ^ 16 * get_or buffer (4 * i + 2) 0
    + 2 ^ 24 * get_or buffer (4 * i + 3) 0

-- The first words of the message schedule, from the word number `i` on.
unfoldable pub load_words : ℕ → ℕ → List ℕ → List ℕ
load_words zero i buffer = []
load_words (suc n) i buffer = swap_byte_32 (ulong_at buffer i) ∷ load_words n (suc i) buffer

unfoldable pub expand_words : ℕ → List ℕ → List ℕ
expand_words zero stack = stack
expand_words (suc n) stack =
    let i = length stack in
    let x =
      bit_xor
        (bit_xor (bit_xor (get_or stack (i - 3) 0) (get_or stack (i - 8) 0))
          (get_or stack (i - 14) 0))
        (get_or stack (i - 16) 0) in
    expand_words n (stack ++ (rotate_left x 1 ∷ []))

-- The constant and the function of the round `i`.
abbrev pub constant : ℕ → ℕ
constant i =
    if ltb i 20
    then 0x5A827999
    else if ltb i 40
    then 0x6ED9EBA1
    else if ltb i 60
    then 0x8F1BBCDC
    else 0xCA62C1D6

abbrev pub function : ℕ → Words → ℕ
function i t =
    if ltb i 20
    then bit_or (bit_and t.b t.c) (bit_and (complement t.b) t.d)
    else if ltb i 40
    then bit_xor (bit_xor t.b t.c) t.d
    else if ltb i 60
    then bit_or (bit_or (bit_and t.b t.c) (bit_and t.b t.d)) (bit_and t.c t.d)
    else bit_xor (bit_xor t.b t.c) t.d

unfoldable pub compress : ℕ → ℕ → List ℕ → Words → Words
compress zero i stack t = t
compress (suc n) i stack t = compress n (suc i) stack (record {
  a = u32 (rotate_left t.a 5 + function i t + t.e + constant i + get_or stack i 0);
  b = t.a;
  c = rotate_left t.b 30;
  d = t.c;
  e = t.d;
})

unfoldable pub transform_data : Words → List ℕ → Words
transform_data s buffer =
    let t = compress 80 0 (expand_words 64 (load_words 16 0 buffer)) s in
    record {
      a = u32 (s.a + t.a);
      b = u32 (s.b + t.b);
      c = u32 (s.c + t.c);
      d = u32 (s.d + t.d);
      e = u32 (s.e + t.e);
    }

abbrev pub initial : Words
initial = record { a = 0x67452301; b = 0xEFCDAB89; c = 0x98BADCFE; d = 0x10325476; e = 0xC3D2E1F0 }

abbrev pub zeroes : ℕ → List ℕ
zeroes zero = []
zeroes (suc n) = 0 ∷ zeroes n

unfoldable pub initialize_context : Context
initialize_context = record { state = initial; count_low = 0; count_high = 0; buffer = zeroes 64 }

-- CopyMemory of `n` bytes into a buffer.
abbrev pub copy_into : List ℕ → ℕ → List ℕ → ℕ → List ℕ
copy_into buffer index bytes n = take index buffer ++ (take n bytes ++ drop (index + n) buffer)

-- The loop over the blocks that lie whole in the data, on fuel: the state and where the input has
-- come. `none` if it runs out.
unfoldable pub hash_blocks : ℕ → Words → List ℕ → ℕ → ℕ → Option (Words × ℕ)
hash_blocks zero s bytes input n = none
hash_blocks (suc fuel) s bytes input n =
    let rest =
      hash_blocks fuel (transform_data s (take 64 (drop input bytes))) bytes (u32 (input + 64)) n in
    if ltb (u32 (input + 63)) n then rest else some (s, input)

abbrev pub index_of : Context → ℕ
index_of c = c.count_low / 8 % 64

abbrev pub buffered : Context → List ℕ → List ℕ → ℕ → ℕ → Option (Words × ℕ) → Option Context
buffered c buffer bytes index n none = none
buffered c buffer bytes index n (some (s, input)) =
    some (record c { state = s; buffer = copy_into buffer index (drop input bytes) (n - input) })

-- `n` is the Length, a ULONG.
unfoldable pub hash_data : Context → List ℕ → ℕ → Option Context
hash_data c bytes n =
    let index = index_of c in
    let low = u32 (c.count_low + u32 (n * 2 ^ 3)) in
    let carried = if ltb low (u32 (n * 2 ^ 3)) then u32 (c.count_high + 1) else c.count_high in
    let counted = record c { count_low = low; count_high = u32 (carried + n / 2 ^ 29) } in
    let filled = copy_into c.buffer index bytes (64 - index) in
    if leb (64 - index) n
    then buffered counted filled bytes 0 n
        (hash_blocks n (transform_data c.state filled) bytes (64 - index) n)
    else buffered counted c.buffer bytes index n (some (c.state, 0))

-- A word as it is stored in memory, the lowest byte first.
abbrev pub store_ulong : ℕ → List ℕ
store_ulong x = x % 2 ^ 8 ∷ x / 2 ^ 8 % 2 ^ 8 ∷ x / 2 ^ 16 % 2 ^ 8 ∷ x / 2 ^ 24 % 2 ^ 8 ∷ []

-- The highest byte first.
abbrev pub digest_word : ℕ → List ℕ
digest_word x =
    bit_and (x / 2 ^ 24) 0xFF
    ∷ bit_and (x / 2 ^ 16) 0xFF
    ∷ bit_and (x / 2 ^ 8) 0xFF
    ∷ bit_and x 0xFF
    ∷ []

unfoldable pub digest_of : Words → List ℕ
digest_of s =
    digest_word s.a
    ++ (digest_word s.b ++ (digest_word s.c ++ (digest_word s.d ++ digest_word s.e)))

abbrev pub padding : List ℕ
padding = 0x80 ∷ zeroes 63

abbrev pub then_hash : {A : Type 0} → Option Context → (Context → Option A) → Option A
then_hash none next = none
then_hash (some c) next = next c

-- The count of the bits as a number of 64 bits, its highest byte first.
unfoldable pub bits_of : Context → List ℕ
bits_of c = store_ulong (swap_byte_32 c.count_high) ++ store_ulong (swap_byte_32 c.count_low)

unfoldable pub compute_hash : Context → Option (List ℕ)
compute_hash c =
    let bits = bits_of c in
    let index = index_of c in
    let n = if ltb index 56 then 56 - index else 120 - index in
    then_hash (hash_data c (take n padding) n)
      (λ padded. then_hash (hash_data padded bits 8) (λ done. some (digest_of done.state)))

pub data Status : Type 0 where
  success invalid_parameter : Status

abbrev pub digested : Option (List ℕ) → Option (Status × List ℕ)
digested none = none
digested (some d) = some (success, d)

-- The two tests are of the pointers; HashData takes the size as a ULONG.
unfoldable pub compute_digest :
    (has_buffer has_digest : Bool) → List ℕ → (buffer_size : ℕ) → Option (Status × List ℕ)
compute_digest has_buffer has_digest bytes size =
    if not has_digest || (not has_buffer && ltb 0 size)
    then some (invalid_parameter, [])
    else digested (then_hash (hash_data initialize_context bytes (u32 size)) compute_hash)
