-- ===== src/Mm/HardwarePool/Coverage.antt =====
-- How many descriptors of a type describe a page, before and after pages are taken.
use exectos.Base.{
  ℕ, ◌+◌, ◌-◌, ◌%◌, ◌^◌, ◌≡◌, ◌≤◌, true, false, ◌&&◌, List, [], ◌∷◌, ◌++◌, ◌==◌, ltb, leb,
  if◌then◌else◌, arith, Bool-cases, inl, inr,
}
use exectos.Mm.HardwarePool.{
  MemoryDescriptor, loader_free, loader_hardware_cached_memory, alignment,
}

-- 1 for the pages of a range, 0 for the others.
abbrev pub inside : (base count page : ℕ) → ℕ
inside base count q = if leb base q && ltb q (base + count) then 1 else 0

abbrev pub covered : (kind page : ℕ) → MemoryDescriptor → ℕ
covered kind q d = if d.memory_type == kind then inside d.base_page d.page_count q else 0

abbrev pub covering : (kind page : ℕ) → List MemoryDescriptor → ℕ
covering kind q [] = 0
covering kind q (d ∷ ds) = covered kind q d + covering kind q ds

-- The pages of a descriptor have numbers of 32 bits.
abbrev pub IsRange : MemoryDescriptor → Type 0
IsRange d = d.base_page + d.page_count ≤ 2 ^ 32

abbrev pub of_kind : (kind other count : ℕ) → ℕ
of_kind kind other n = if kind == other then n else 0

pub inside_split :
    (base c c' q : ℕ) → inside base (c + c') q ≡ inside base c q + inside (base + c) c' q
inside_split base c c' q = ground arith

inside_nothing : (base q : ℕ) → inside base 0 q ≡ 0
inside_nothing base q = ground arith

pub alignment_lem :
    (d : MemoryDescriptor)
    → IsRange d
    → 1 ≤ d.page_count
    → (alignment true d ≡ (16 - d.base_page % 16) % 16)
unfolding alignment
alignment_lem d r h = omega (arith, r, h)

pub covering-append :
    (kind q : ℕ) (xs ys : List MemoryDescriptor)
    → covering kind q (xs ++ ys) ≡ covering kind q xs + covering kind q ys
covering-append kind q [] ys = omega arith
covering-append kind q (x ∷ xs) ys = omega (arith, covering-append kind q xs ys)

-- Pages that go from the free ones to the hardware's.
abbrev pub Taken : (base count : ℕ) → (kind page before after : ℕ) → Type 0
Taken base n kind q before after =
    after + of_kind loader_free kind (inside base n q)
    ≡ before + of_kind loader_hardware_cached_memory kind (inside base n q)

abbrev pub piece : ℕ → ℕ → ℕ → MemoryDescriptor
piece base n kind = record { base_page = base; page_count = n; memory_type = kind }

-- The pieces of a free range of three parts.
pub pieces-Taken :
    (base a n rest kind q : ℕ)
    → Taken (base + a) n kind q (covered kind q (piece base (a + n + rest) loader_free)) (
        covered kind q (piece base a loader_free)
        + (covered kind q (piece (base + a) n loader_hardware_cached_memory)
            + covered kind q (piece (base + a + n) rest loader_free)))
pieces-Taken base a n rest kind q =
    let split = inside_split base (a + n) rest q in
    let start = inside_split base a n q in
    let moved : inside (base + (a + n)) rest q ≡ inside (base + a + n) rest q = ground arith in
    elim (Bool-cases (loader_free == kind)) [
      | inl free ↦
          let other : (loader_hardware_cached_memory == kind) ≡ false = ground arith in
          rw (free, other) (omega (arith, split, start, moved))
      | inr used ↦ rw used (omega arith)
    ]
