-- ===== src/Mm/HardwarePool/Allocation.antt =====
-- AllocateHardwareMemory.
use exectos.Base.{ℕ, ◌+◌, ◌*◌, ◌/◌, ◌%◌, ◌^◌, ◌≡◌, ◌≤◌, ◌<◌, ◌⊎◌, Bool, true}
use exectos.Mm.HardwarePool.{
  MemoryDescriptor, Pool, Allocated, success, loader_free, carve, failed,
  hardware_allocation_descriptors,
}
use exectos.Mm.HardwarePool.Coverage.{covered, covering, Taken}
use exectos.Mm.HardwarePool.Pieces.{AllRange}
use exectos.Mm.HardwarePool.Suiting.{NoneSuits, IsLast}
use exectos.Mm.HardwarePool.Carving.{IsCarved}

-- Memory that has been allocated: out of the last descriptor that has it, at its start or at the
-- first 64 KB of it where that is asked for, and taken from the free pages. The pool keeps the
-- rest, with as many descriptors as it has.
pub record IsAllocated (n : ℕ) (aligned : Bool) (maximum_address : ℕ) (pool : Pool) (r : Allocated)
    : Type 0 where
  pub page : ℕ
  pub done : r.0 ≡ success
  pub address : r.1 ≡ page * 4096
  pub place : IsLast aligned (maximum_address / 4096) n page pool.descriptors r.2.descriptors
  pub not_first : 1 ≤ page
  pub below : page + n < maximum_address / 4096
  pub at_64k : aligned ≡ true → page % 16 ≡ 0
  pub taken :
      (kind q : ℕ)
      → Taken page n kind q (covering kind q pool.descriptors) (covering kind q r.2.descriptors)
  pub ranges : AllRange r.2.descriptors
  pub counted : pool.used < r.2.used
  pub enough : r.2.used ≤ hardware_allocation_descriptors

abbrev pub Answer : ℕ → Bool → ℕ → Pool → Allocated → Type 0
Answer n aligned maximum_address pool r =
    ((r ≡ failed pool)
      × ((hardware_allocation_descriptors < pool.used + 2)
          ⊎ NoneSuits aligned (maximum_address / 2 ^ 12) n pool.descriptors))
    ⊎ IsAllocated n aligned maximum_address pool r

-- What the test of a descriptor says.
record Fitting (max_page n a : ℕ) (d : MemoryDescriptor) : Type 0 where
  free : d.memory_type ≡ loader_free
  some_base : 1 ≤ d.base_page
  below : d.base_page + n + a < max_page
  big : a + n ≤ d.page_count

abbrev CarvedFrom : (n a : ℕ) → MemoryDescriptor → Type 0
CarvedFrom n a d =
    IsCarved (λ kind q after. Taken (d.base_page + a) n kind q (covered kind q d) after)
      (carve n a d)
