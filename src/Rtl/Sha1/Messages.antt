-- ===== src/Rtl/Sha1/Messages.antt =====
-- The bytes of a padded message, fed to the initial state, give the hash of FIPS 180-4.
use exectos.Base.{
  ℕ, zero, suc, ◌-◌, ◌*◌, ◌/◌, ◌%◌, ◌≡◌, ◌∙◌, refl, ap, List, [], ◌∷◌, ◌++◌, length, take, drop,
  length-drop, length-append, arith,
}
use exectos.Rtl.Sha1.{Words, initial}
use exectos.Rtl.Sha1.Stream.{feed, feed-block}
use exectos.Rtl.Sha1.Standard.{
  initial_hash, hash_block, hash_message, zero_bytes, big_endian_64, padding_of, padded, AllBytes,
}
use exectos.Rtl.Sha1.Blocks.{IsWords, transform_data-hash_block, hash_block-IsWords}

take-AllBytes : (n : ℕ) (xs : List ℕ) → AllBytes xs → AllBytes (take n xs)
take-AllBytes zero xs h = tt
take-AllBytes (suc n) [] h = tt
take-AllBytes (suc n) (x ∷ xs) h = (h.0, take-AllBytes n xs h.1)

drop-AllBytes : (n : ℕ) (xs : List ℕ) → AllBytes xs → AllBytes (drop n xs)
drop-AllBytes zero xs h = h
drop-AllBytes (suc n) [] h = tt
drop-AllBytes (suc n) (x ∷ xs) h = drop-AllBytes n xs h.1

append-AllBytes : (xs ys : List ℕ) → AllBytes xs → AllBytes ys → AllBytes (xs ++ ys)
append-AllBytes [] ys h k = k
append-AllBytes (x ∷ xs) ys h k = (h.0, append-AllBytes xs ys h.1 k)

zero_bytes-AllBytes : (n : ℕ) → AllBytes (zero_bytes n)
zero_bytes-AllBytes zero = tt
zero_bytes-AllBytes (suc n) = (omega arith, zero_bytes-AllBytes n)

big_endian_64-AllBytes : (n : ℕ) → AllBytes (big_endian_64 n)
big_endian_64-AllBytes n = (
  omega arith,
  (
    omega arith,
    (omega arith, (omega arith, (omega arith, (omega arith, (omega arith, (omega arith, tt)))))),
  ),
)

padding_of-AllBytes : (n : ℕ) → AllBytes (padding_of n)
padding_of-AllBytes n = (
  omega arith,
  append-AllBytes (zero_bytes ((119 - n % 64) % 64)) (big_endian_64 (8 * n))
      (zero_bytes-AllBytes ((119 - n % 64) % 64)) (big_endian_64-AllBytes (8 * n)),
)

pub length-zero_bytes : (n : ℕ) → length (zero_bytes n) ≡ n
length-zero_bytes zero = refl
length-zero_bytes (suc n) = ap suc (length-zero_bytes n)

-- A padded message is made of whole blocks.
length-padded : (message : List ℕ) → length (padded message) ≡ 64 * (length (padded message) / 64)
length-padded message =
    let n = length message in
    let z = (119 - n % 64) % 64 in
    omega (
      arith,
      length-append message (padding_of n),
      length-append (zero_bytes z) (big_endian_64 (8 * n)),
      length-zero_bytes z,
    )

feed_nil : (h : Words) → feed (h, []) [] ≡ (h, [])
unfolding feed
feed_nil h = refl

feed-hash_message :
    (n : ℕ) (h : Words) (message : List ℕ)
    → length message ≡ 64 * n
    → IsWords h
    → AllBytes message
    → feed (h, []) message ≡ (hash_message n h message, [])
unfolding hash_message
feed-hash_message zero h [] e v bytes = feed_nil h
feed-hash_message zero h (x ∷ message) e v bytes = absurd (omega (arith, e))
feed-hash_message (suc n) h message e v bytes =
    feed-block h message 0 (omega (arith, e))
    ∙ ap (λ s. feed (s, []) (drop 64 message))
        (transform_data-hash_block h (take 64 message) v (take-AllBytes 64 message bytes))
    ∙ feed-hash_message n (hash_block h (take 64 message)) (drop 64 message)
        (omega (arith, e, length-drop 64 message)) (hash_block-IsWords h (take 64 message))
        (drop-AllBytes 64 message bytes)

pub feed-padded :
    (message : List ℕ)
    → AllBytes message
    → feed (initial, []) (padded message)
      ≡ (hash_message (length (padded message) / 64) initial_hash (padded message), [])
feed-padded message bytes =
    feed-hash_message (length (padded message) / 64) initial_hash (padded message)
      (length-padded message) (record { first = omega arith; second = omega arith })
      (append-AllBytes message (padding_of (length message)) bytes
        (padding_of-AllBytes (length message)))
