-- ===== src/Rtl/Sha1/Digest.antt =====
-- ComputeDigest is SHA-1.
use exectos.Base.{
  ℕ, zero, suc, ◌+◌, ◌-◌, ◌*◌, ◌/◌, ◌%◌, ◌^◌, ◌≡◌, ◌≤◌, ◌<◌, ◌∙◌, sym, subst, refl, ap, bit_and,
  true, some, List, [], ◌∷◌, ◌++◌, ltb, if◌then◌else◌, length, take, arith,
}
use exectos.Word.{u32}
use exectos.Rtl.Sha1.{
  Words, Context, digest_word, success, initial, initialize_context, index_of, bits_of, hash_data,
  swap_byte_32, store_ulong, digest_of, padding, zeroes, then_hash, digested, compute_hash,
  compute_digest,
}
use exectos.Rtl.Sha1.Stream.{feed, feed-append}
use exectos.Rtl.Sha1.Counts.{view, IsContext}
use exectos.Rtl.Sha1.Feeding.{hash_data-feed}
use exectos.Rtl.Sha1.Swapping.{swap_byte_32-fields, bit_and-field}
use exectos.Rtl.Sha1.Standard.{
  zero_bytes, big_endian_32, big_endian_64, padding_of, message_digest, sha1, AllBytes,
}
use exectos.Rtl.Sha1.Messages.{length-zero_bytes, feed-padded}

store_ulong-swap_byte_32 : (x : ℕ) → x < 2 ^ 32 → store_ulong (swap_byte_32 x) ≡ big_endian_32 x
store_ulong-swap_byte_32 x h =
    let s = swap_byte_32 x in
    let e = swap_byte_32-fields x h in
    let first : s % 2 ^ 8 ≡ x / 2 ^ 24 % 2 ^ 8 = omega (arith, e) in
    let second : s / 2 ^ 8 % 2 ^ 8 ≡ x / 2 ^ 16 % 2 ^ 8 = omega (arith, e) in
    let third : s / 2 ^ 16 % 2 ^ 8 ≡ x / 2 ^ 8 % 2 ^ 8 = omega (arith, e) in
    let fourth : s / 2 ^ 24 % 2 ^ 8 ≡ x % 2 ^ 8 = omega (arith, e) in
    rw (first, second, third, fourth) refl

halves :
    (n high low : ℕ)
    → high ≡ n / 2 ^ 32
    → low ≡ n % 2 ^ 32
    → big_endian_32 high ++ big_endian_32 low ≡ big_endian_64 n
halves n high low e f =
    let a : high / 2 ^ 24 % 2 ^ 8 ≡ n / 2 ^ 56 % 2 ^ 8 = omega (arith, e) in
    let b : high / 2 ^ 16 % 2 ^ 8 ≡ n / 2 ^ 48 % 2 ^ 8 = omega (arith, e) in
    let c : high / 2 ^ 8 % 2 ^ 8 ≡ n / 2 ^ 40 % 2 ^ 8 = omega (arith, e) in
    let d : high % 2 ^ 8 ≡ n / 2 ^ 32 % 2 ^ 8 = omega (arith, e) in
    let a' : low / 2 ^ 24 % 2 ^ 8 ≡ n / 2 ^ 24 % 2 ^ 8 = omega (arith, f) in
    let b' : low / 2 ^ 16 % 2 ^ 8 ≡ n / 2 ^ 16 % 2 ^ 8 = omega (arith, f) in
    let c' : low / 2 ^ 8 % 2 ^ 8 ≡ n / 2 ^ 8 % 2 ^ 8 = omega (arith, f) in
    let d' : low % 2 ^ 8 ≡ n % 2 ^ 8 = omega (arith, f) in rw (a, b, c, d, a', b', c', d') refl

bits_of-big_endian :
    (total : ℕ) (c : Context)
    → IsContext total c
    → total < 2 ^ 61
    → bits_of c ≡ big_endian_64 (8 * total)
unfolding bits_of
bits_of-big_endian total c v h =
    let high = c.count_high in
    let low = c.count_low in
    let n = 8 * total in
    ap (λ l. l ++ store_ulong (swap_byte_32 low))
      (store_ulong-swap_byte_32 high (omega (arith, v.high)))
    ∙ ap (λ l. big_endian_32 high ++ l) (store_ulong-swap_byte_32 low (omega (arith, v.low)))
    ∙ halves n high low (omega (arith, v.high)) v.low

take-zeroes : (n m : ℕ) → n ≤ m → take n (zeroes m) ≡ zero_bytes n
take-zeroes zero m h = refl
take-zeroes (suc n) zero h = absurd (omega arith)
take-zeroes (suc n) (suc m) h = ap (λ l. 0 ∷ l) (take-zeroes n m (omega arith))

take-padding : (n : ℕ) → n ≤ 63 → take (suc n) padding ≡ 0x80 ∷ zero_bytes n
take-padding n h = ap (λ l. 0x80 ∷ l) (take-zeroes n 63 h)

-- The number of bytes that ComputeHash puts before the eight.
padding_length :
    (total index : ℕ)
    → index ≡ total % 64
    → (if ltb index 56 then 56 - index else 120 - index) ≡ suc ((119 - total % 64) % 64)
padding_length total index e = ground (arith, e)

compute_hash-steps :
    (c padded done : Context) (n : ℕ) (bits : List ℕ)
    → (if ltb (index_of c) 56 then 56 - index_of c else 120 - index_of c) ≡ n
    → hash_data c (take n padding) n ≡ some padded
    → bits_of c ≡ bits
    → hash_data padded bits 8 ≡ some done
    → compute_hash c ≡ some (digest_of done.state)
unfolding compute_hash
compute_hash-steps c padded done n bits count first e second = rw (count, first, e, second) refl

-- ComputeHash puts the padding behind what has been hashed.
compute_hash-feed :
    (total : ℕ) (c : Context)
    → IsContext total c
    → total < 2 ^ 61 - 128
    → compute_hash c ≡ some (digest_of (feed (view c) (padding_of total)).0)
compute_hash-feed total c v h =
    let zs = 0x80 ∷ zero_bytes ((119 - total % 64) % 64) in
    let count = suc ((119 - total % 64) % 64) in
    let size : length zs ≡ count = ap suc (length-zero_bytes ((119 - total % 64) % 64)) in
    let (padded, e, w, f) = hash_data-feed total c zs v (omega (arith, size)) in
    let bits = big_endian_64 (8 * total) in
    let (done, e', w', f') = hash_data-feed (total + length zs) padded bits w (omega arith) in
    let start : index_of c ≡ total % 64 = omega (arith, v.low) in
    let first : hash_data c (take count padding) count ≡ some padded =
      ap (λ l. hash_data c l count) (take-padding ((119 - total % 64) % 64) (omega arith))
      ∙ ap (hash_data c zs) (sym size)
      ∙ e in
    compute_hash-steps c padded done count bits (padding_length total (index_of c) start) first
      (bits_of-big_endian total c v (omega arith)) e'
    ∙ ap (λ s. some (digest_of s.0))
        (f' ∙ ap (λ s. feed s bits) f ∙ sym (feed-append (view c) zs bits))

pub initialize_context-IsContext : IsContext 0 initialize_context
unfolding initialize_context
initialize_context-IsContext = record { low = refl; high = refl; size = refl }

initialize_context-view : view initialize_context ≡ (initial, [])
unfolding initialize_context
initialize_context-view = refl

digest_word-big_endian_32 : (x : ℕ) → digest_word x ≡ big_endian_32 x
digest_word-big_endian_32 x =
    let first : bit_and (x / 2 ^ 24) 0xFF ≡ x / 2 ^ 24 % 2 ^ 8 =
      bit_and-field (x / 2 ^ 24) 8 0 ∙ omega arith in
    let second : bit_and (x / 2 ^ 16) 0xFF ≡ x / 2 ^ 16 % 2 ^ 8 =
      bit_and-field (x / 2 ^ 16) 8 0 ∙ omega arith in
    let third : bit_and (x / 2 ^ 8) 0xFF ≡ x / 2 ^ 8 % 2 ^ 8 =
      bit_and-field (x / 2 ^ 8) 8 0 ∙ omega arith in
    let fourth : bit_and x 0xFF ≡ x % 2 ^ 8 = bit_and-field x 8 0 ∙ omega arith in
    rw (first, second, third, fourth) refl

digest_of-message_digest : (h : Words) → digest_of h ≡ message_digest h
unfolding digest_of
digest_of-message_digest h =
    ap (λ l. l ++ (digest_word h.b ++ (digest_word h.c ++ (digest_word h.d ++ digest_word h.e))))
      (digest_word-big_endian_32 h.a)
    ∙ ap
        (λ l. big_endian_32 h.a ++ (l ++ (digest_word h.c ++ (digest_word h.d ++ digest_word h.e))))
        (digest_word-big_endian_32 h.b)
    ∙ ap
        (λ l.
          big_endian_32 h.a ++ (big_endian_32 h.b ++ (l ++ (digest_word h.d ++ digest_word h.e))))
        (digest_word-big_endian_32 h.c)
    ∙ ap
        (λ l.
          big_endian_32 h.a ++ (big_endian_32 h.b ++ (big_endian_32 h.c ++ (l ++ digest_word h.e))))
        (digest_word-big_endian_32 h.d)
    ∙ ap
        (λ l.
          big_endian_32 h.a
          ++ (big_endian_32 h.b ++ (big_endian_32 h.c ++ (big_endian_32 h.d ++ l))))
        (digest_word-big_endian_32 h.e)

-- ComputeDigest, given a digest to fill and a buffer of less than 2 ^ 32 - 64 bytes, returns
-- success and the SHA-1 digest of the buffer, as FIPS 180-4 defines it.
pub compute_digest-sha1 :
    (bytes : List ℕ)
    → AllBytes bytes
    → length bytes < 2 ^ 32 - 64
    → compute_digest true true bytes (length bytes) ≡ some (success, sha1 bytes)
unfolding compute_digest sha1
compute_digest-sha1 bytes v small =
    let n = length bytes in
    let (c, e, w, f) =
      hash_data-feed 0 initialize_context bytes initialize_context-IsContext small in
    let whole : u32 n ≡ n = omega (arith, small) in
    let total : 0 + n ≡ n = omega arith in
    let hashed =
      compute_hash-feed n c (subst (λ t. IsContext t c) total w) (omega (arith, small)) in
    ap (λ k. digested (then_hash (hash_data initialize_context bytes k) compute_hash)) whole
    ∙ ap (λ o. digested (then_hash o compute_hash)) e
    ∙ ap digested hashed
    ∙ ap (λ s. some (success, digest_of s.0))
        (ap (λ s. feed s (padding_of n)) (f ∙ ap (λ s. feed s bytes) initialize_context-view)
          ∙ sym (feed-append (initial, []) bytes (padding_of n))
          ∙ feed-padded bytes v)
    ∙ ap (λ l. some (success, l)) (digest_of-message_digest _)
