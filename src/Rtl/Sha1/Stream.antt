-- ===== src/Rtl/Sha1/Stream.antt =====
-- What a context stands for: the blocks that have been hashed, byte by byte, and those bytes that
-- wait for the rest of their block.
use mathlib.Core.List.{append_assoc, append-nil}
use exectos.Base.{
  ℕ, zero, suc, ◌+◌, ◌-◌, ◌%◌, ◌^◌, ◌≡◌, ◌≤◌, ◌<◌, ◌∙◌, sym, refl, ap, true, false, some, List, [],
  ◌∷◌, ◌++◌, ◌==◌, ltb, if◌then◌else◌, length, take, drop, take-append-drop, length-take,
  length-drop, drop-drop, length-append, arith, Bool-cases, inl, inr,
}
use exectos.Word.{u32}
use exectos.Rtl.Sha1.{Words, transform_data, hash_blocks}

abbrev pub Stream : Type 0
Stream = Words × List ℕ

-- One byte more: the sixty-fourth makes a block.
unfoldable pub feed_byte : Stream → ℕ → Stream
feed_byte s b =
    if length s.1 == 63 then (transform_data s.0 (s.1 ++ (b ∷ [])), []) else (s.0, s.1 ++ (b ∷ []))

unfoldable pub feed : Stream → List ℕ → Stream
feed s [] = s
feed s (b ∷ bs) = feed (feed_byte s b) bs

pub feed-append : (s : Stream) (xs ys : List ℕ) → feed s (xs ++ ys) ≡ feed (feed s xs) ys
unfolding feed
feed-append s [] ys = refl
feed-append s (x ∷ xs) ys = feed-append (feed_byte s x) xs ys

feed_byte-short :
    (s : Words) (xs : List ℕ) (b : ℕ) → length xs < 63 → feed_byte (s, xs) b ≡ (s, xs ++ (b ∷ []))
unfolding feed_byte
feed_byte-short s xs b h = let e : (length xs == 63) ≡ false = ground arith in rw e refl

feed_byte-full :
    (s : Words) (xs : List ℕ) (b : ℕ)
    → length xs ≡ 63
    → feed_byte (s, xs) b ≡ (transform_data s (xs ++ (b ∷ [])), [])
unfolding feed_byte
feed_byte-full s xs b h = let e : (length xs == 63) ≡ true = ground (arith, h) in rw e refl

-- Bytes that do not fill the block wait.
pub feed-short :
    (s : Words) (xs ys : List ℕ) → length xs + length ys < 64 → feed (s, xs) ys ≡ (s, xs ++ ys)
unfolding feed
feed-short s xs [] h = rw (append-nil xs) refl
feed-short s xs (y ∷ ys) h = rw (feed_byte-short s xs y (omega arith)) (
    feed-short s (xs ++ (y ∷ [])) ys (omega (arith, length-append xs (y ∷ [])))
    ∙ ap (λ l. (s, l)) (append_assoc xs (y ∷ []) ys))

-- Bytes that fill the block are hashed with those before them.
pub feed-full :
    (s : Words) (xs ys : List ℕ)
    → length xs + length ys ≡ 64
    → length xs < 64
    → feed (s, xs) ys ≡ (transform_data s (xs ++ ys), [])
unfolding feed
feed-full s xs [] h k = absurd (omega (arith, h))
feed-full s xs (y ∷ []) h k = feed_byte-full s xs y (omega (arith, h))
feed-full s xs (y ∷ (z ∷ zs)) h k = rw (feed_byte-short s xs y (omega (arith, h))) (
    feed-full s (xs ++ (y ∷ [])) (z ∷ zs) (omega (arith, h, length-append xs (y ∷ [])))
      (omega (arith, h, length-append xs (y ∷ [])))
    ∙ ap (λ l. (transform_data s l, [])) (append_assoc xs (y ∷ []) (z ∷ zs)))

-- What the loop over whole blocks has done when it stops.
pub record Hashed (s : Words) (bytes : List ℕ) (input : ℕ) (done : Words × ℕ) : Type 0 where
  pub reached : input ≤ done.1
  pub within : done.1 ≤ length bytes
  pub short : length bytes < done.1 + 64
  pub aligned : done.1 % 64 ≡ input % 64
  pub fed : feed (s, []) (drop input bytes) ≡ feed (done.0, []) (drop done.1 bytes)

-- A whole block is hashed.
pub feed-block :
    (s : Words) (bytes : List ℕ) (input : ℕ)
    → input + 64 ≤ length bytes
    → feed (s, []) (drop input bytes)
      ≡ feed (transform_data s (take 64 (drop input bytes)), []) (drop (input + 64) bytes)
feed-block s bytes input h =
    let rest = drop input bytes in
    let size : 64 ≤ length rest = omega (arith, length-drop input bytes) in
    ap (feed (s, [])) (sym (take-append-drop 64 rest))
    ∙ feed-append (s, []) (take 64 rest) (drop 64 rest)
    ∙ ap (λ t. feed t (drop 64 rest))
        (feed-full s [] (take 64 rest) (omega (arith, length-take 64 rest size)) (omega arith))
    ∙ ap (feed (transform_data s (take 64 rest), [])) (drop-drop 64 input bytes)

hash_blocks-more :
    (fuel : ℕ) (s : Words) (bytes : List ℕ) (input n : ℕ)
    → n < 2 ^ 32 - 64
    → input + 63 < n
    → hash_blocks (suc fuel) s bytes input n
      ≡ hash_blocks fuel (transform_data s (take 64 (drop input bytes))) bytes (input + 64) n
unfolding hash_blocks
hash_blocks-more fuel s bytes input n small h =
    let next : u32 (input + 63) ≡ input + 63 = omega arith in
    let further : u32 (input + 64) ≡ input + 64 = omega arith in
    let more : ltb (input + 63) n ≡ true = ground arith in rw (next, further, more) refl

hash_blocks-last :
    (fuel : ℕ) (s : Words) (bytes : List ℕ) (input n : ℕ)
    → n < 2 ^ 32 - 64
    → input ≤ n
    → n ≤ input + 63
    → hash_blocks (suc fuel) s bytes input n ≡ some (s, input)
unfolding hash_blocks
hash_blocks-last fuel s bytes input n small h k =
    let next : u32 (input + 63) ≡ input + 63 = omega arith in
    let last : ltb (input + 63) n ≡ false = ground arith in rw (next, last) refl

pub hash_blocks-Hashed :
    (fuel : ℕ) (s : Words) (bytes : List ℕ) (input : ℕ)
    → length bytes < 2 ^ 32 - 64
    → input ≤ length bytes
    → length bytes < input + fuel
    → (done : Words × ℕ) × (hash_blocks fuel s bytes input (length bytes) ≡ some done)
      × Hashed s bytes input done
hash_blocks-Hashed zero s bytes input small h f = absurd (omega arith)
hash_blocks-Hashed (suc fuel) s bytes input small h f =
    elim (Bool-cases (ltb (input + 63) (length bytes))) [
      | inl more ↦
          let (done, e, rest) =
            hash_blocks-Hashed fuel (transform_data s (take 64 (drop input bytes))) bytes
              (input + 64) small (ground arith) (omega arith) in
          (
            done,
            hash_blocks-more fuel s bytes input (length bytes) small (ground arith) ∙ e,
            record {
              reached = omega (arith, rest.reached);
              within = rest.within;
              short = rest.short;
              aligned = omega (arith, rest.aligned);
              fed = feed-block s bytes input (ground arith) ∙ rest.fed;
            },
          )
      | inr last ↦ (
        (s, input),
        hash_blocks-last fuel s bytes input (length bytes) small h (ground arith),
        record {
          reached = omega arith;
          within = h;
          short = ground arith;
          aligned = refl;
          fed = refl;
        },
      )
    ]
