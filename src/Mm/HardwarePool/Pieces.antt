-- ===== src/Mm/HardwarePool/Pieces.antt =====
-- The pieces of a descriptor that pages are taken from.
use exectos.Base.{
  ℕ, ◌+◌, ◌-◌, ◌^◌, ◌≡◌, ◌≤◌, ◌<◌, refl, true, false, List, [], ◌∷◌, ◌==◌, ltb, arith, Bool-cases,
  inl, inr,
}
use exectos.Word.{u32, u64}
use exectos.Mm.HardwarePool.{MemoryDescriptor, loader_free, loader_hardware_cached_memory, carve}
use exectos.Mm.HardwarePool.Coverage.{IsRange, piece}

abbrev pub AllRange : List MemoryDescriptor → Type 0
AllRange [] = Unit
AllRange (d ∷ ds) = IsRange d × AllRange ds

abbrev pub free_piece : ℕ → ℕ → MemoryDescriptor
free_piece base n = piece base n loader_free

abbrev pub used_piece : ℕ → ℕ → MemoryDescriptor
used_piece base n = piece base n loader_hardware_cached_memory

small : (x : ℕ) → x < 2 ^ 32 → u32 x ≡ x
small x h = omega (arith, h)

pub plus_zero : (a : ℕ) → a + 0 ≡ a
plus_zero a = omega arith

-- The forms that the pieces take: a part before the pages that are taken, the pages, and a part
-- after them, where these parts are not empty.
pub carve-both :
    (base n a rest : ℕ)
    → 1 ≤ base
    → 1 ≤ n
    → 1 ≤ a
    → 1 ≤ rest
    → base + (a + n + rest) ≤ 2 ^ 32
    → carve n a (free_piece base (a + n + rest))
      ≡ (free_piece base a ∷ used_piece (base + a) n ∷ free_piece (base + a + n) rest ∷ [], 2)
unfolding carve
carve-both base n a rest b m h k r =
    let some_a : (a == 0) ≡ false = ground arith in
    let more : ltb (u64 (n + a)) (a + n + rest) ≡ true = ground arith in
    let left : u32 (a + n + rest + (2 ^ 33 - (a + n))) ≡ rest = omega (arith, r, h) in
    rw
      (
        some_a,
        more,
        small n (omega arith),
        small a (omega arith),
        small (base + a) (omega arith),
        small (base + a + n) (omega arith),
        left,
      )
      refl

pub carve-before :
    (base n a : ℕ)
    → 1 ≤ base
    → 1 ≤ n
    → 1 ≤ a
    → base + (a + n) ≤ 2 ^ 32
    → carve n a (free_piece base (a + n)) ≡ (free_piece base a ∷ used_piece (base + a) n ∷ [], 1)
unfolding carve
carve-before base n a b m h r =
    let some_a : (a == 0) ≡ false = ground arith in
    elim (Bool-cases (ltb (u64 (n + a)) (a + n))) [
      | inl more ↦ absurd (ground arith)
      | inr whole ↦
          rw
            (
              some_a,
              whole,
              small n (omega arith),
              small a (omega arith),
              small (base + a) (omega arith),
            )
            refl
    ]

pub carve-after :
    (base n rest : ℕ)
    → 1 ≤ base
    → 1 ≤ n
    → 1 ≤ rest
    → base + (n + rest) ≤ 2 ^ 32
    → carve n 0 (free_piece base (n + rest))
      ≡ (used_piece base n ∷ free_piece (base + n) rest ∷ [], 1)
unfolding carve
carve-after base n rest b m k r =
    let left : u32 (n + rest + (2 ^ 32 - n)) ≡ rest = omega (arith, r, b) in
    let some_left : (rest == 0) ≡ false = ground arith in
    rw
      (
        small n (omega arith),
        left,
        some_left,
        small (base + 0) (omega arith),
        small (base + n) (omega arith),
        plus_zero base,
      )
      refl

pub carve-whole :
    (base n : ℕ)
    → 1 ≤ base
    → 1 ≤ n
    → base + n ≤ 2 ^ 32
    → carve n 0 (free_piece base n) ≡ (used_piece base n ∷ [], 1)
unfolding carve
carve-whole base n b m r =
    let left : u32 (n + (2 ^ 32 - n)) ≡ 0 = omega (arith, r, b) in
    rw (small n (omega arith), left, small (base + 0) (omega arith), plus_zero base) refl
