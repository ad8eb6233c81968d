-- ===== src/Rtl/Sha1/Examples.antt =====
-- The theorems on SHA-1 at a short message, whose digest is known.
use exectos.Base.{ℕ, ◌≡◌, refl, true, some, List, [], ◌∷◌, ◌++◌, zero, suc, arith}
use exectos.Rtl.Sha1.{
  success, initialize_context, hash_data, hash_blocks, transform_data, compress, expand_words,
  load_words, rotate_left, swap_byte_32, bits_of, digest_of, compute_hash, compute_digest,
}
use exectos.Rtl.Sha1.Standard.{
  sha1, hash_message, hash_block, rounds, schedule, message_words, rotl,
}
use exectos.Rtl.Sha1.Feeding.{Fed, hash_data-feed}
use exectos.Rtl.Sha1.Digest.{initialize_context-IsContext, compute_digest-sha1}

abbrev abc : List ℕ
abc = 0x61 ∷ 0x62 ∷ 0x63 ∷ []

abc_digest :
    compute_digest true true abc 3
    ≡ some (
      success,
      0xA9 ∷ 0x99 ∷ 0x3E ∷ 0x36 ∷ 0x47 ∷ 0x06 ∷ 0x81 ∷ 0x6A ∷ 0xBA ∷ 0x3E ∷ 0x25 ∷ 0x71 ∷ 0x78
          ∷ 0x50 ∷ 0xC2 ∷ 0x6C ∷ 0x9C ∷ 0xD0 ∷ 0xD8 ∷ 0x9D ∷ [],
    )
unfolding initialize_context hash_data hash_blocks transform_data compress expand_words load_words
    rotate_left swap_byte_32 bits_of digest_of compute_hash compute_digest
abc_digest = refl

-- The first two examples of the standard: its definition gives the digests that it states.
standard_abc :
    sha1 abc
    ≡ 0xA9 ∷ 0x99 ∷ 0x3E ∷ 0x36 ∷ 0x47 ∷ 0x06 ∷ 0x81 ∷ 0x6A ∷ 0xBA ∷ 0x3E ∷ 0x25 ∷ 0x71 ∷ 0x78
      ∷ 0x50 ∷ 0xC2 ∷ 0x6C ∷ 0x9C ∷ 0xD0 ∷ 0xD8 ∷ 0x9D ∷ []
unfolding sha1 hash_message hash_block rounds schedule message_words rotl
standard_abc = refl

-- `n` letters from `x` on, and so on from the next letter.
abbrev letters : (from count : ℕ) → List ℕ
letters x zero = []
letters x (suc n) = x ∷ letters (suc x) n

abbrev runs : (from count : ℕ) → List ℕ
runs x zero = []
runs x (suc n) = letters x 4 ++ runs (suc x) n

standard_two_blocks :
    sha1 (runs 0x61 14)
    ≡ 0x84 ∷ 0x98 ∷ 0x3E ∷ 0x44 ∷ 0x1C ∷ 0x3B ∷ 0xD2 ∷ 0x6E ∷ 0xBA ∷ 0xAE ∷ 0x4A ∷ 0xA1 ∷ 0xF9
      ∷ 0x51 ∷ 0x29 ∷ 0xE5 ∷ 0xE5 ∷ 0x46 ∷ 0x70 ∷ 0xF1 ∷ []
unfolding sha1 hash_message hash_block rounds schedule message_words rotl
standard_two_blocks = refl

hash_data-feed_example : Fed 0 initialize_context abc (hash_data initialize_context abc 3)
hash_data-feed_example =
    hash_data-feed 0 initialize_context abc initialize_context-IsContext (omega arith)

compute_digest-sha1_example : compute_digest true true abc 3 ≡ some (success, sha1 abc)
compute_digest-sha1_example =
    compute_digest-sha1 abc (omega arith, (omega arith, (omega arith, tt))) (omega arith)
