-- ===== src/Rtl/Sha1/Standard.antt =====
-- SHA-1 as FIPS 180-4 defines it, for messages of bytes; xtoskrnl/rtl/sha1.cc is compared with it.
use exectos.Base.{
  ℕ, zero, suc, ◌+◌, ◌-◌, ◌*◌, ◌/◌, ◌%◌, ◌^◌, ◌<◌, bit_and, bit_or, bit_xor, List, [], ◌∷◌, ◌++◌,
  ◌==◌, if◌then◌else◌, length, get_or, take, drop,
}
use exectos.Rtl.Sha1.{Words}

-- ROTL of 32 bits.
unfoldable pub rotl : ℕ → ℕ → ℕ
rotl n x = bit_or (x * 2 ^ n % 2 ^ 32) (x / 2 ^ (32 - n))

abbrev pub ch : ℕ → ℕ → ℕ → ℕ
ch x y z = bit_xor (bit_and x y) (bit_and (2 ^ 32 - 1 - x) z)

abbrev pub parity : ℕ → ℕ → ℕ → ℕ
parity x y z = bit_xor (bit_xor x y) z

abbrev pub maj : ℕ → ℕ → ℕ → ℕ
maj x y z = bit_xor (bit_xor (bit_and x y) (bit_and x z)) (bit_and y z)

-- The function and the constant of a round, by the number of its group of twenty.
abbrev pub f_of : ℕ → ℕ → ℕ → ℕ → ℕ
f_of group x y z = if group == 0 then ch x y z else if group == 2 then maj x y z else parity x y z

abbrev pub k_of : ℕ → ℕ
k_of group =
    if group == 0
    then 0x5A827999
    else if group == 1
    then 0x6ED9EBA1
    else if group == 2
    then 0x8F1BBCDC
    else 0xCA62C1D6

abbrev pub initial_hash : Words
initial_hash = record {
  a = 0x67452301;
  b = 0xEFCDAB89;
  c = 0x98BADCFE;
  d = 0x10325476;
  e = 0xC3D2E1F0;
}

-- Four bytes, the highest first.
abbrev pub word_at : List ℕ → ℕ → ℕ
word_at block t =
    ((get_or block (4 * t) 0 * 256 + get_or block (4 * t + 1) 0) * 256 + get_or block (4 * t + 2) 0)
      * 256
    + get_or block (4 * t + 3) 0

-- The words of a block from the word `t` on.
unfoldable pub message_words : ℕ → ℕ → List ℕ → List ℕ
message_words zero t block = []
message_words (suc n) t block = word_at block t ∷ message_words n (suc t) block

-- The next word of the schedule that starts with the words `w`.
abbrev pub next_word : List ℕ → ℕ
next_word w =
    let t = length w in
    rotl 1 (
      bit_xor (bit_xor (bit_xor (get_or w (t - 3) 0) (get_or w (t - 8) 0)) (get_or w (t - 14) 0))
        (get_or w (t - 16) 0))

unfoldable pub schedule : ℕ → List ℕ → List ℕ
schedule zero w = w
schedule (suc n) w = schedule n (w ++ (next_word w ∷ []))

abbrev pub round_of : List ℕ → ℕ → Words → Words
round_of w t h = record {
  a = (rotl 5 h.a + f_of (t / 20) h.b h.c h.d + h.e + k_of (t / 20) + get_or w t 0) % 2 ^ 32;
  b = h.a;
  c = rotl 30 h.b;
  d = h.c;
  e = h.d;
}

-- `n` rounds from the round `t` on.
unfoldable pub rounds : ℕ → ℕ → List ℕ → Words → Words
rounds zero t w h = h
rounds (suc n) t w h = rounds n (suc t) w (round_of w t h)

abbrev pub sum_of : Words → Words → Words
sum_of h t = record {
  a = (h.a + t.a) % 2 ^ 32;
  b = (h.b + t.b) % 2 ^ 32;
  c = (h.c + t.c) % 2 ^ 32;
  d = (h.d + t.d) % 2 ^ 32;
  e = (h.e + t.e) % 2 ^ 32;
}

-- The intermediate hash after one more block.
unfoldable pub hash_block : Words → List ℕ → Words
hash_block h block = sum_of h (rounds 80 0 (schedule 64 (message_words 16 0 block)) h)

-- The hash after `n` blocks of 64 bytes.
unfoldable pub hash_message : ℕ → Words → List ℕ → Words
hash_message zero h message = h
hash_message (suc n) h message = hash_message n (hash_block h (take 64 message)) (drop 64 message)

abbrev pub zero_bytes : ℕ → List ℕ
zero_bytes zero = []
zero_bytes (suc n) = 0 ∷ zero_bytes n

abbrev pub big_endian_32 : ℕ → List ℕ
big_endian_32 x = x / 2 ^ 24 % 2 ^ 8 ∷ x / 2 ^ 16 % 2 ^ 8 ∷ x / 2 ^ 8 % 2 ^ 8 ∷ x % 2 ^ 8 ∷ []

-- The eight bytes of a number, the highest first.
abbrev pub big_endian_64 : ℕ → List ℕ
big_endian_64 n =
    n / 2 ^ 56 % 2 ^ 8
    ∷ n / 2 ^ 48 % 2 ^ 8
    ∷ n / 2 ^ 40 % 2 ^ 8
    ∷ n / 2 ^ 32 % 2 ^ 8
    ∷ n / 2 ^ 24 % 2 ^ 8
    ∷ n / 2 ^ 16 % 2 ^ 8
    ∷ n / 2 ^ 8 % 2 ^ 8
    ∷ n % 2 ^ 8
    ∷ []

-- What is put behind a message of `n` bytes: 0x80, zeroes up to eight bytes before the end of a
-- block, and the number of the bits.
abbrev pub padding_of : ℕ → List ℕ
padding_of n = (0x80 ∷ zero_bytes ((119 - n % 64) % 64)) ++ big_endian_64 (8 * n)

abbrev pub padded : List ℕ → List ℕ
padded message = message ++ padding_of (length message)

abbrev pub message_digest : Words → List ℕ
message_digest h =
    big_endian_32 h.a
    ++ (big_endian_32 h.b ++ (big_endian_32 h.c ++ (big_endian_32 h.d ++ big_endian_32 h.e)))

unfoldable pub sha1 : List ℕ → List ℕ
sha1 message =
    message_digest (hash_message (length (padded message) / 64) initial_hash (padded message))

-- The elements of a message are bytes.
abbrev pub AllBytes : List ℕ → Type 0
AllBytes [] = Unit
AllBytes (x ∷ xs) = (x < 256) × AllBytes xs
