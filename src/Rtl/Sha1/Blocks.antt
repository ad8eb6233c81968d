-- ===== src/Rtl/Sha1/Blocks.antt =====
-- TransformData hashes a block as FIPS 180-4 says.
use exectos.Base.{
  ℕ, zero, suc, ◌+◌, ◌*◌, ◌/◌, ◌^◌, ◌≡◌, ◌<◌, refl, List, [], ◌∷◌, ◌++◌, get_or, arith,
}
use exectos.Rtl.Sha1.{
  Words, swap_byte_32, rotate_left, ulong_at, load_words, expand_words, constant, compress,
  transform_data,
}
use exectos.Rtl.Sha1.Functions.{function-f_of}
use exectos.Rtl.Sha1.Swapping.{swap_byte_32-fields}
use exectos.Rtl.Sha1.Standard.{
  rotl, k_of, word_at, message_words, next_word, schedule, round_of, rounds, hash_block, AllBytes,
}

rotate_left-rotl : (n x : ℕ) → rotate_left x n ≡ rotl n x
unfolding rotate_left rotl
rotate_left-rotl n x = refl

constant-k_of : (t : ℕ) → constant t ≡ k_of (t / 20)
constant-k_of t = ground arith

get_or-byte : (xs : List ℕ) (i : ℕ) → AllBytes xs → get_or xs i 0 < 256
get_or-byte [] i h = omega arith
get_or-byte (x ∷ xs) zero h = h.0
get_or-byte (x ∷ xs) (suc i) h = get_or-byte xs i h.1

-- A word in the order of the machine, turned, has its highest byte first.
swap_byte_32-word_at :
    (block : List ℕ) (t : ℕ) → AllBytes block → swap_byte_32 (ulong_at block t) ≡ word_at block t
swap_byte_32-word_at block t h =
    let p = get_or-byte block (4 * t) h in
    let q = get_or-byte block (4 * t + 1) h in
    let r = get_or-byte block (4 * t + 2) h in
    let s = get_or-byte block (4 * t + 3) h in
    omega (arith, swap_byte_32-fields (ulong_at block t) (omega (arith, p, q, r, s)), p, q, r, s)

load_words-message_words :
    (n t : ℕ) (block : List ℕ) → AllBytes block → load_words n t block ≡ message_words n t block
unfolding load_words message_words
load_words-message_words zero t block h = refl
load_words-message_words (suc n) t block h =
    rw (swap_byte_32-word_at block t h, load_words-message_words n (suc t) block h) refl

expand_words-schedule : (n : ℕ) (w : List ℕ) → expand_words n w ≡ schedule n w
unfolding expand_words schedule rotate_left rotl
expand_words-schedule zero w = refl
expand_words-schedule (suc n) w = expand_words-schedule n (w ++ (next_word w ∷ []))

-- The words that have 32 bits wherever a block starts.
pub record IsWords (h : Words) : Type 0 where
  pub first : h.a < 2 ^ 32
  pub second : h.b < 2 ^ 32

compress-rounds : (n t : ℕ) (w : List ℕ) (h : Words) → IsWords h → compress n t w h ≡ rounds n t w h
unfolding compress rounds rotate_left rotl
compress-rounds zero t w h v = refl
compress-rounds (suc n) t w h v =
    rw (function-f_of t h v.second, constant-k_of t)
      (compress-rounds n (suc t) w (round_of w t h)
        (record { first = omega arith; second = v.first }))

pub transform_data-hash_block :
    (h : Words) (block : List ℕ)
    → IsWords h
    → AllBytes block
    → transform_data h block ≡ hash_block h block
unfolding transform_data hash_block
transform_data-hash_block h block v bytes =
    rw
      (
        load_words-message_words 16 0 block bytes,
        expand_words-schedule 64 (message_words 16 0 block),
        compress-rounds 80 0 (schedule 64 (message_words 16 0 block)) h v,
      )
      refl

pub hash_block-IsWords : (h : Words) (block : List ℕ) → IsWords (hash_block h block)
unfolding hash_block
hash_block-IsWords h block = record { first = omega arith; second = omega arith }
