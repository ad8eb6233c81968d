-- ===== src/Rtl/Bitmap/Search.antt =====
-- FindBits ends, and what it finds.
use exectos.Base.{
  ℕ, zero, suc, ◌+◌, ◌-◌, ◌^◌, ◌≤◌, ◌<◌, min, ◌≡◌, refl, ap, arith, ltb, leb, ◌==◌, if◌then◌else◌,
  Bool, true, false, not, Bool-cases, inl, inr, ◌⊎◌, Option, some,
}
use exectos.Rtl.Bitmap.{
  BitMap, count_bits, found, missed, find_run, find_tries, find_bits, maxulong_ptr,
}
use exectos.Rtl.Bitmap.Words.{digit}
use exectos.Rtl.Bitmap.Counting.{wanted, IsWords}
use exectos.Rtl.Bitmap.Counts.{
  AllBits, looked_at, Counted, whole, stopped, count_bits_lem, count_bits-le,
}

-- A place where the bits are the ones asked for, as far as CountBits looks at them.
abbrev pub IsPlace : BitMap → ℕ → Bool → ℕ → ℕ → Type 0
IsPlace m length set limit place =
    (place + length ≤ limit)
    × AllBits m.buffer (wanted set) place (min (place + length) (looked_at place length))

module _ (m : BitMap) (fit : IsWords m.buffer) (size : m.size < 2 ^ 32) (length : ℕ)
    (some_length : 1 ≤ length) (set : Bool) where
  clash :
      (b : ℕ) (s : Bool)
      → digit m.buffer (b + 0) ≡ 1 - wanted (not s)
      → digit m.buffer (b + 0 + 0) ≡ 1 - wanted s
      → ⊥
  clash b true k k' =
      omega (arith, ap (digit m.buffer) (let e : b + 0 ≡ b + 0 + 0 = omega arith in e))
  clash b false k k' =
      omega (arith, ap (digit m.buffer) (let e : b + 0 ≡ b + 0 + 0 = omega arith in e))

  -- A round of the search that does not end goes on past the offset.
  progress :
      (offset : ℕ)
      → offset + length < m.size
      → let next = offset + count_bits m (m.size - offset) offset (not set) in
        (offset < next + count_bits m length next set) × (next ≤ m.size)
  progress offset h =
      let gap = count_bits m (m.size - offset) offset (not set) in
      let at_most =
        count_bits-le m fit offset (m.size - offset) (not set) (omega arith) (omega arith) in
      let skipped =
        count_bits_lem m fit offset (m.size - offset) (not set) (omega arith) (omega arith) in
      let counted = count_bits_lem m fit (offset + gap) length set some_length (omega arith) in
      (
        advance gap (count_bits m length (offset + gap) set) skipped.0 counted.0,
        omega (arith, at_most),
      )
    where
      advance :
          (gap run : ℕ)
          → Counted m.buffer (not set) offset (m.size - offset) gap
          → Counted m.buffer set (offset + gap) length run
          → offset < offset + gap + run
      advance gap run (whole e) c = omega arith
      advance gap run (stopped i j k) (whole e) = omega arith
      advance zero zero (stopped i j k) (stopped i' j' k') = absurd (clash offset set k k')
      advance zero (suc run) (stopped i j k) (stopped i' j' k') = omega arith
      advance (suc gap) run (stopped i j k) (stopped i' j' k') = omega arith

  -- Each round goes on past the offset, so as many rounds as the bit map has bits suffice.
  find_run-ends :
      (limit fuel offset : ℕ)
      → limit ≤ m.size
      → limit - offset < fuel
      → (find_run m length set limit fuel offset ≡ some missed)
        ⊎ ((place : ℕ) × (find_run m length set limit fuel offset ≡ some (found place))
            × IsPlace m length set limit place)
  unfolding find_run
  find_run-ends limit zero offset h k = absurd (omega arith)
  find_run-ends limit (suc fuel) offset h k =
      let next = offset + count_bits m (m.size - offset) offset (not set) in
      let run = count_bits m length next set in
      elim (Bool-cases (leb limit (offset + length))) [
        | inl over ↦ inl (rw over refl)
        | inr more ↦ elim (Bool-cases (ltb limit (next + length))) [
          | inl past ↦ inl (rw (more, past) refl)
          | inr room ↦ elim (Bool-cases (leb length run)) [
            | inl enough ↦ inr (
              next,
              rw (more, room, enough) refl,
              (
                ground arith,
                let e : next + run ≡ next + length = ground (
                  arith,
                  count_bits-le m fit next length set some_length
                      (ground (arith, (progress offset (ground arith)).1)),
                ) in
                    let all =
                      (count_bits_lem m fit next length set some_length
                        (ground (arith, (progress offset (ground arith)).1))).1 in
                    λ b low high. all b low (omega arith),
              ),
            )
            | inr short ↦
                let further = progress offset (ground arith) in
                rw (more, room, short)
                  (find_run-ends limit fuel (next + run) h (ground (arith, further.0)))
          ]
        ]
      ]

  -- What a search returns: MAXULONG_PTR, or a place in the bit map.
  abbrev pub Outcome : Option ℕ → Type 0
  Outcome o =
      (place : ℕ) × (o ≡ some place) × ((place ≡ maxulong_ptr) ⊎ IsPlace m length set m.size place)

  module _ (fuel : ℕ) (enough : m.size < fuel) where
    find_tries-Outcome :
        (index tries offset limit : ℕ)
        → index ≤ m.size
        → limit ≤ m.size
        → Outcome (find_tries fuel m length index set tries offset limit)
    unfolding find_tries
    find_tries-Outcome index zero offset limit h k = (maxulong_ptr, refl, inl refl)
    find_tries-Outcome index (suc tries) offset limit h k =
        elim (find_run-ends limit fuel offset k (omega arith)) [
          | inl miss ↦ rw miss (find_tries-Outcome index tries 0 index h h)
          | inr (place, hit, (inside, all)) ↦ (place, (rw hit refl), inr (omega arith, all))
        ]

    -- For a length of at least 1, FindBits returns, after no more rounds of a try than the bit map has bits: MAXULONG_PTR,
    -- or a place from which the length fits in the bit map and where the bits are the ones asked
    -- for, as far as CountBits looks at them.
    pub find_bits-Outcome : (start : ℕ) → Outcome (find_bits fuel m length start set)
    unfolding find_bits
    find_bits-Outcome start =
        let index = if leb m.size start then 0 else start in
        let tries : ℕ = if index == 0 then 2 else 3 in
        let below : index ≤ m.size = ground arith in
        let found_at = find_tries-Outcome index tries index m.size below (omega arith) in
        let positive : (length == 0) ≡ false = ground arith in
        elim (Bool-cases (ltb m.size length)) [
          | inl large ↦ rw large (maxulong_ptr, refl, inl refl)
          | inr fits ↦ rw (fits, positive) found_at
        ]

  find_run-full :
      (fuel offset limit : ℕ)
      → limit ≤ length
      → find_run m length set limit (suc fuel) offset ≡ some missed
  unfolding find_run
  find_run-full fuel offset limit h =
      let over : leb limit (offset + length) ≡ true = ground arith in rw over refl

  find_tries-full :
      (fuel index tries offset limit : ℕ)
      → index ≤ length
      → limit ≤ length
      → find_tries (suc fuel) m length index set tries offset limit ≡ some maxulong_ptr
  unfolding find_tries
  find_tries-full fuel index zero offset limit h k = refl
  find_tries-full fuel index (suc tries) offset limit h k =
      rw (find_run-full fuel offset limit k) (find_tries-full fuel index tries 0 index h h)

  -- A range as long as the bit map is never found, even where all its bits are the ones asked
  -- for.
  pub find_bits-full :
      (fuel start : ℕ)
      → length ≡ m.size
      → find_bits (suc fuel) m length start set ≡ some maxulong_ptr
  unfolding find_bits
  find_bits-full fuel start e =
      let index = if leb m.size start then 0 else start in
      let below : index ≤ length = ground arith in
      let fits : ltb m.size length ≡ false = ground arith in
      let positive : (length == 0) ≡ false = ground arith in
      rw (fits, positive)
        (find_tries-full fuel index (if index == 0 then 2 else 3) index m.size below (omega arith))
