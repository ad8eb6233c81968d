-- ===== src/Rtl/Sha1/Counts.antt =====
-- The counts and the buffer of a context.
use mathlib.Core.List.{append_assoc}
use exectos.Base.{
  ℕ, zero, suc, ◌+◌, ◌*◌, ◌/◌, ◌%◌, ◌^◌, ◌≡◌, ◌≤◌, ◌<◌, ◌∙◌, sym, refl, ap, List, [], ◌∷◌, ◌++◌,
  ltb, if◌then◌else◌, length, take, drop, length-take, length-drop, take-append, take-all,
  length-append, arith, Bool-cases, inl, inr,
}
use exectos.Word.{u32}
use exectos.Rtl.Sha1.{Context, copy_into, index_of}
use exectos.Rtl.Sha1.Stream.{Stream}

-- The stream of a context: its state, and the bytes that are buffered.
abbrev pub view : Context → Stream
view c = (c.state, take (index_of c) c.buffer)

-- A context that `total` bytes have been hashed with: its counts are those of the bits.
pub record IsContext (total : ℕ) (c : Context) : Type 0 where
  pub low : c.count_low ≡ 8 * total % 2 ^ 32
  pub high : c.count_high ≡ 8 * total / 2 ^ 32 % 2 ^ 32
  pub size : length c.buffer ≡ 64

pub drop-none : (n : ℕ) (xs : List ℕ) → length xs ≤ n → drop n xs ≡ []
drop-none n [] h = empty n
  where
    empty : (n : ℕ) → drop {A = ℕ} n [] ≡ []
    empty zero = refl
    empty (suc n) = refl
drop-none zero (x ∷ xs) h = absurd (omega arith)
drop-none (suc n) (x ∷ xs) h = drop-none n xs (omega arith)

pub length-copy_into :
    (buffer bytes : List ℕ) (index n : ℕ)
    → index + n ≤ length buffer
    → n ≤ length bytes
    → length (copy_into buffer index bytes n) ≡ length buffer
length-copy_into buffer bytes index n h k = omega (
  arith,
  length-append (take index buffer) (take n bytes ++ drop (index + n) buffer),
  length-append (take n bytes) (drop (index + n) buffer),
  length-take index buffer (omega arith),
  length-take n bytes k,
  length-drop (index + n) buffer,
)

-- What a copy of all the bytes puts behind those that were there.
pub take-copy_into :
    (buffer bytes : List ℕ) (index n : ℕ)
    → index ≤ length buffer
    → n ≡ length bytes
    → take (index + n) (copy_into buffer index bytes n) ≡ take index buffer ++ bytes
take-copy_into buffer bytes index n h k = rw (take-all n bytes (omega (arith, k))) (
    ap (take (index + n)) (sym (append_assoc (take index buffer) bytes (drop (index + n) buffer)))
    ∙ take-append (index + n) (take index buffer ++ bytes) (drop (index + n) buffer)
        (omega (arith, k, length-append (take index buffer) bytes, length-take index buffer h)))

abbrev pub counted : Context → ℕ → Context
counted c n =
    let low = u32 (c.count_low + u32 (n * 2 ^ 3)) in
    let carried = if ltb low (u32 (n * 2 ^ 3)) then u32 (c.count_high + 1) else c.count_high in
    record c { count_low = low; count_high = u32 (carried + n / 2 ^ 29) }

-- The carry between the halves of the count.
counted-high :
    (total n low high : ℕ)
    → low ≡ 8 * total % 2 ^ 32
    → high ≡ 8 * total / 2 ^ 32 % 2 ^ 32
    → u32 (
        (if ltb (u32 (low + u32 (n * 2 ^ 3))) (u32 (n * 2 ^ 3)) then u32 (high + 1) else high)
        + n / 2 ^ 29)
      ≡ 8 * (total + n) / 2 ^ 32 % 2 ^ 32
counted-high total n low high e f =
    let l = u32 (n * 2 ^ 3) in
    elim (Bool-cases (ltb (u32 (low + l)) l)) [
      | inl carry ↦
          let over : 2 ^ 32 ≤ low + l = ground arith in
          let sum : 8 * (total + n) / 2 ^ 32 ≡ 8 * total / 2 ^ 32 + n / 2 ^ 29 + 1 =
            omega (arith, e, over) in
          rw carry (omega (arith, f, sum))
      | inr same ↦
          let under : low + l < 2 ^ 32 = ground arith in
          let sum : 8 * (total + n) / 2 ^ 32 ≡ 8 * total / 2 ^ 32 + n / 2 ^ 29 =
            omega (arith, e, under) in
          rw same (omega (arith, f, sum))
    ]

pub counted-IsContext :
    (total n : ℕ) (c : Context) → IsContext total c → IsContext (total + n) (counted c n)
counted-IsContext total n c v = record {
  low = omega (arith, v.low);
  high = counted-high total n c.count_low c.count_high v.low v.high;
  size = v.size;
}
