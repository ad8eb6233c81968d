-- ===== src/Rtl/Bitmap/Counts.antt =====
-- CountBits: how long the run of equal bits is that starts at an index.
use exectos.Base.{
  ℕ, ◌+◌, ◌-◌, ◌*◌, ◌/◌, ◌%◌, ◌^◌, ◌≤◌, ◌<◌, min, ◌≡◌, ◌≢◌, sym, ap, ◌∙◌, arith, ltb, ◌==◌,
  if◌then◌else◌, Bool, Bool-cases, inl, inr,
}
use exectos.Word.{u64, bit}
use exectos.Word.Bits.{bit-low, bit-shl, bit-shr}
use exectos.Rtl.Math.{count_trailing_zeroes_64}
use exectos.Rtl.Math.Zeroes.{trailing_zeroes-bit}
use exectos.Rtl.Bitmap.{Words, BitMap, others, count_loop, count_bits, shift_up}
use exectos.Rtl.Bitmap.Words.{digit, bit_and-63}
use exectos.Rtl.Bitmap.Counting.{
  wanted, IsWords, digit-lt, bit-others, other, Stop, count_loop-Stop,
}

-- Every bit from one place up to another has the value `v`.
abbrev pub AllBits : Words → ℕ → ℕ → ℕ → Type 0
AllBits ws v first limit = (b : ℕ) → first ≤ b → b < limit → digit ws b ≡ v

-- The words that CountBits looks at end here.
abbrev pub looked_at : ℕ → ℕ → ℕ
looked_at start length = (start / 64 + (length + 63) / 64) * 64

-- The count reached the length, or stopped at a bit that is not the one asked for.
pub data Counted (ws : Words) (set : Bool) (start length count : ℕ) : Type 0 where
  whole : count ≡ length → Counted ws set start length count
  stopped :
      count < length
      → start + count < looked_at start length
      → digit ws (start + count) ≡ 1 - wanted set
      → Counted ws set start length count

module _ (m : BitMap) (fit : IsWords m.buffer) (start length : ℕ) (set : Bool) (some : 1 ≤ length)
    (room : start + length + 63 < 2 ^ 64) where
  first_value : ℕ
  first_value = shift_up (others set (m.buffer (start / 64)) / 2 ^ (start % 64)) (start % 64)

  bit-first_value :
      (i : ℕ)
      → i < 64
      → bit first_value i
        ≡ (if ltb i (start % 64) then 0 else bit (others set (m.buffer (start / 64))) i)
  unfolding first_value
  bit-first_value i h =
      let o = others set (m.buffer (start / 64)) in
      let k = start % 64 in
      ground (
        arith,
        bit-low 64 (o / 2 ^ k * 2 ^ k) i,
        bit-shl k (o / 2 ^ k) i,
        bit-shr k o (i - k),
        λ (le : k ≤ i). ap (bit o) (let e : i - k + k ≡ i = omega arith in e),
      )

  -- 1 where a bit from `start` on is not the one asked for.
  other-digit :
      (b : ℕ)
      → start / 64 * 64 ≤ b
      → other m.buffer fit set (start / 64) first_value b
        ≡ (if ltb b start then 0 else if digit m.buffer b == wanted set then 0 else 1)
  unfolding other digit
  other-digit b h = ground (
    arith,
    bit-first_value (b % 64),
    bit-others m.buffer fit set (b / 64) (b % 64),
    λ (e : b / 64 ≡ start / 64). ap (λ t. bit (others set (m.buffer t)) (b % 64)) e,
  )

  abbrev more : ℕ
  more = (length + 63) / 64 - 1

  loop_end : ℕ × ℕ
  loop_end = count_loop m.buffer set (start / 64) first_value more

  loop_end-Stop : Stop m.buffer fit set (start / 64) first_value more loop_end.0 loop_end.1
  unfolding first_value loop_end
  loop_end-Stop =
      count_loop-Stop m.buffer fit set more (start / 64) first_value
        (native.Mathlib.Nat.mod-lt _ (let e : 1 ≤ 2 ^ 64 = omega arith in e))

  count_bits-none : loop_end.1 ≡ 0 → count_bits m length start set ≡ length
  unfolding count_bits loop_end first_value
  count_bits-none e =
      let w : u64 (length + 63) ≡ length + 63 = omega arith in
      rw (bit_and-63 start, w) (ground (arith, e))

  -- The place of the first bit that is not the one asked for.
  place : ℕ
  place = loop_end.0 * 64 + count_trailing_zeroes_64 loop_end.1

  count_bits-place :
      loop_end.1 ≢ 0
      → start ≤ place
      → place < 2 ^ 64
      → count_bits m length start set ≡ min length (place - start)
  unfolding count_bits loop_end first_value place
  count_bits-place ne h k =
      let w : u64 (length + 63) ≡ length + 63 = omega arith in
      rw (bit_and-63 start, w) (ground arith)

  module _ (ne : loop_end.1 ≢ 0) where
    trailing :
        (count_trailing_zeroes_64 loop_end.1 < 64)
        × (bit loop_end.1 (count_trailing_zeroes_64 loop_end.1) ≡ 1)
        × ((i : ℕ) → i < count_trailing_zeroes_64 loop_end.1 → bit loop_end.1 i ≡ 0)
    unfolding count_trailing_zeroes_64
    trailing = trailing_zeroes-bit 64 loop_end.1 (omega (arith, ne)) loop_end-Stop.small

    place-bit :
        (start ≤ place) × (place < looked_at start length) × (digit m.buffer place ≡ 1 - wanted set)
    unfolding place
    place-bit =
        let stop = loop_end-Stop in
        let t = count_trailing_zeroes_64 loop_end.1 in
        let found : other m.buffer fit set (start / 64) first_value place ≡ 1 =
          sym (stop.here t trailing.0) ∙ trailing.1 in
        let spot = loop_end.0 * 64 + t in
        let cases = other-digit spot (omega (arith, stop.least)) in
        let bound = digit-lt m.buffer spot in
        let late : start ≤ spot = ground (arith, found, cases) in
        (late, omega (arith, stop.most, trailing.0), ground (arith, found, cases, bound, late))

    place-first : AllBits m.buffer (wanted set) start place
    unfolding place
    place-first b low high =
        let stop = loop_end-Stop in
        let t = count_trailing_zeroes_64 loop_end.1 in
        let r = loop_end.0 in
        let none : other m.buffer fit set (start / 64) first_value b ≡ 0 =
          elim (Bool-cases (ltb b (r * 64))) [
            | inl early ↦ stop.before b (omega arith) (ground arith)
            | inr here ↦
                let e : r * 64 + (b - r * 64) ≡ b = ground arith in
                ap (other m.buffer fit set (start / 64) first_value) (sym e)
                ∙ sym (stop.here (b - r * 64) (omega (arith, trailing.0)))
                ∙ trailing.2 (b - r * 64) (ground arith)
          ] in
        let cases = other-digit b (omega arith) in ground (arith, none, cases)

  none-first : loop_end.1 ≡ 0 → AllBits m.buffer (wanted set) start (looked_at start length)
  none-first e b low high =
      let none = loop_end-Stop.none_left e b (omega arith) (omega arith) in
      let cases = other-digit b (omega arith) in ground (arith, none, cases)

  -- CountBits returns a count up to the length, such that the bits it counts are the ones asked
  -- for as far as the words reach that it looks at, and the bit at which it stops before the
  -- length is another one.
  pub count_bits_lem :
      Counted m.buffer set start length (count_bits m length start set)
      × AllBits m.buffer
          (wanted set)
          start
          (min (start + count_bits m length start set) (looked_at start length))
  count_bits_lem = elim (Bool-cases (loop_end.1 == 0)) [
    | inl none ↦
        let z : loop_end.1 ≡ 0 = ground arith in
        (whole (count_bits-none z), λ b low high. none-first z b low (omega arith))
    | inr found ↦
        let ne : loop_end.1 ≢ 0 = ground arith in
        let (late, inside, value) = place-bit ne in
        let size = count_bits-place ne late (omega (arith, inside)) in
        (
          elim (Bool-cases (ltb place (start + length))) [
            | inr far ↦ whole (ground (arith, size))
            | inl near ↦
                let e : start + count_bits m length start set ≡ place = ground (arith, size) in
                stopped (ground (arith, size)) (omega (arith, inside))
                  (ap (digit m.buffer) e ∙ value)
          ],
          λ b low high. place-first ne b low (omega (arith, size)),
        )
  ]

  pub count_bits-le : count_bits m length start set ≤ length
  count_bits-le = elim count_bits_lem.0 [ whole e ↦ omega arith | stopped h i j ↦ omega arith ]

  -- Where the range does not reach past the words that CountBits looks at, as one that starts a
  -- word does not, every bit that it counts is the one asked for.
  pub count_bits-whole :
      start + length ≤ looked_at start length
      → AllBits m.buffer (wanted set) start (start + count_bits m length start set)
  count_bits-whole h b low high =
      let (counted, all) = count_bits_lem in all b low (omega (arith, count_bits-le))

  -- Where the range reaches past those words and the bits in them are the ones asked for, the
  -- count is the whole length, whatever the last bits of the range are.
  pub count_bits-past :
      looked_at start length < start + length
      → AllBits m.buffer (wanted set) start (looked_at start length)
      → count_bits m length start set ≡ length
  count_bits-past h all = elim count_bits_lem.0 [
    | whole e ↦ e
    | stopped i j k ↦ absurd (ground (arith, all (start + count_bits m length start set), k))
  ]
