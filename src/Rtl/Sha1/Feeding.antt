-- ===== src/Rtl/Sha1/Feeding.antt =====
-- HashData feeds its bytes to the stream that a context stands for.
use mathlib.Core.List.{append-nil}
use exectos.Base.{
  ℕ, ◌+◌, ◌-◌, ◌%◌, ◌^◌, ◌≡◌, ◌≤◌, ◌<◌, ◌∙◌, sym, subst, refl, ap, Option, some, List, [], ◌++◌,
  leb, length, take, drop, take-append-drop, length-take, length-drop, arith, Bool-cases, inl, inr,
}
use exectos.Rtl.Sha1.{Words, Context, transform_data, hash_data, buffered, copy_into, index_of}
use exectos.Rtl.Sha1.Stream.{feed, feed-append, feed-short, feed-full, Hashed, hash_blocks-Hashed}
use exectos.Rtl.Sha1.Counts.{
  view, IsContext, counted, drop-none, length-copy_into, take-copy_into, counted-IsContext,
}

-- What HashData makes of a context.
abbrev pub Fed : (total : ℕ) → Context → List ℕ → Option Context → Type 0
Fed total c bytes o =
    (after : Context) × (o ≡ some after)
    × IsContext (total + length bytes) after
    × (view after ≡ feed (view c) bytes)

index_of-IsContext : (total : ℕ) (c : Context) → IsContext total c → index_of c ≡ total % 64
index_of-IsContext total c v = omega (arith, v.low)

length-view : (total : ℕ) (c : Context) → IsContext total c → length (view c).1 ≡ total % 64
length-view total c v =
    omega (
      arith,
      length-take (index_of c) c.buffer (omega (arith, v.size)),
      index_of-IsContext total c v,
    )

minus_zero : (n : ℕ) → n - 0 ≡ n
minus_zero n = omega arith

-- The bytes do not fill the block.
buffered-short :
    (total : ℕ) (c : Context) (bytes : List ℕ)
    → IsContext total c
    → index_of c + length bytes < 64
    → Fed total c bytes (
        buffered
          (counted c (length bytes))
          c.buffer
          bytes
          (index_of c)
          (length bytes)
          (some (c.state, 0)))
buffered-short total c bytes v h =
    let n = length bytes in
    let counts = counted-IsContext total n c v in
    let after : Context = record (counted c n) {
      buffer = copy_into c.buffer (index_of c) bytes n;
    } in
    let index : index_of after ≡ index_of c + n = omega (
      arith,
      h,
      index_of-IsContext total c v,
      index_of-IsContext (total + n) (counted c n) counts,
    ) in
    (
      after,
      ap (λ k. some (record (counted c n) { buffer = copy_into c.buffer (index_of c) bytes k }))
          (minus_zero n),
      record {
        low = counts.low;
        high = counts.high;
        size =
            length-copy_into c.buffer bytes (index_of c) n (omega (arith, h, v.size)) (omega arith)
            ∙ v.size;
      },
      ap (λ i. (c.state, take i (copy_into c.buffer (index_of c) bytes n))) index
          ∙ ap (λ l. (c.state, l))
              (take-copy_into c.buffer bytes (index_of c) n (omega (arith, h, v.size)) refl)
          ∙ sym (
              feed-short c.state (take (index_of c) c.buffer) bytes
                (omega (arith, h, length-take (index_of c) c.buffer (omega (arith, h, v.size))))),
    )

-- The buffer that is filled up holds what was buffered and the bytes up to the end of the block.
filled-full :
    (total : ℕ) (c : Context) (bytes : List ℕ)
    → IsContext total c
    → 64 ≤ index_of c + length bytes
    → let k = 64 - index_of c in
      feed (view c) (take k bytes)
      ≡ (transform_data c.state (copy_into c.buffer (index_of c) bytes k), [])
filled-full total c bytes v h =
    let r = index_of c in
    let k = 64 - r in
    let rest : drop (r + k) c.buffer ≡ [] = drop-none (r + k) c.buffer (omega (arith, v.size)) in
    let there : take k bytes ++ drop (r + k) c.buffer ≡ take k bytes =
      ap (λ l. take k bytes ++ l) rest ∙ append-nil (take k bytes) in
    let size : length (take r c.buffer) ≡ r = length-take r c.buffer (omega (arith, v.size)) in
    feed-full c.state (take r c.buffer) (take k bytes)
      (omega (arith, size, length-take k bytes (omega (arith, h)))) (omega (arith, size))
    ∙ ap (λ l. (transform_data c.state (take r c.buffer ++ l), [])) (sym there)

-- What is left after the last whole block is buffered.
buffered-rest :
    (total : ℕ) (c : Context) (filled bytes : List ℕ) (s done : Words) (start input : ℕ)
    → IsContext total c
    → length filled ≡ 64
    → (start + index_of c) % 64 ≡ 0
    → Hashed s bytes start (done, input)
    → feed (view c) bytes ≡ feed (s, []) (drop start bytes)
    → Fed total c bytes
        (buffered (counted c (length bytes)) filled bytes 0 (length bytes) (some (done, input)))
buffered-rest total c filled bytes s done start input v size whole hashed e =
    let n = length bytes in
    let counts = counted-IsContext total n c v in
    let left = drop input bytes in
    let some_left : n - input ≡ length left = sym (length-drop input bytes) in
    let after : Context = record (counted c n) {
      state = done;
      buffer = copy_into filled 0 left (n - input);
    } in
    let index : index_of after ≡ 0 + (n - input) = omega (
      arith,
      whole,
      hashed.aligned,
      hashed.within,
      hashed.short,
      index_of-IsContext total c v,
      index_of-IsContext (total + n) (counted c n) counts,
    ) in
    (
      after,
      refl,
      record {
        low = counts.low;
        high = counts.high;
        size =
            length-copy_into filled left 0 (n - input) (omega (arith, size, hashed.short))
              (omega (arith, some_left))
            ∙ size;
      },
      ap (λ i. (done, take i (copy_into filled 0 left (n - input)))) index
          ∙ ap (λ l. (done, l)) (take-copy_into filled left 0 (n - input) (omega arith) some_left)
          ∙ sym (feed-short done [] left (omega (arith, some_left, hashed.short)))
          ∙ sym hashed.fed
          ∙ sym e,
    )

-- HashData, of fewer than 2 ^ 32 - 64 bytes, on a context whose counts are those of what has been
-- hashed with it, returns, keeps the counts right, and feeds its bytes to the stream that the context stands for: the state and
-- the buffer are what they are after the bytes one by one, wherever the blocks end.
pub hash_data-feed :
    (total : ℕ) (c : Context) (bytes : List ℕ)
    → IsContext total c
    → length bytes < 2 ^ 32 - 64
    → Fed total c bytes (hash_data c bytes (length bytes))
unfolding hash_data
hash_data-feed total c bytes v small =
    let r = index_of c in
    let k = 64 - r in
    let n = length bytes in
    elim (Bool-cases (leb k n)) [
      | inr short ↦ rw short (buffered-short total c bytes v (ground arith))
      | inl long ↦
          let filled = copy_into c.buffer r bytes k in
          let s = transform_data c.state filled in
          let h : 64 ≤ r + n = ground arith in
          let (done, e, hashed) =
            hash_blocks-Hashed n s bytes k small (omega (arith, h)) (omega arith) in
          let fed =
            ap (feed (view c)) (sym (take-append-drop k bytes))
            ∙ feed-append (view c) (take k bytes) (drop k bytes)
            ∙ ap (λ t. feed t (drop k bytes)) (filled-full total c bytes v h) in
          rw long (
            subst (λ o. Fed total c bytes (buffered (counted c n) filled bytes 0 n o)) (sym e)
              (buffered-rest total c filled bytes s done.0 k done.1 v
                (length-copy_into c.buffer bytes r k (omega (arith, v.size)) (omega (arith, h))
                  ∙ v.size)
                (omega arith) hashed fed))
    ]
