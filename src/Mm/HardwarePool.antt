-- ===== src/Mm/HardwarePool.antt =====
-- mm/hlpool.cc: physical pages for the hardware layer, which are taken from the boot loader's
-- memory descriptors. The descriptors are in the order of their list; the boot loader's and those
-- of HardwareAllocationDescriptors are not told apart there.
pub mod Coverage
pub mod Pieces
pub mod Carving
pub mod Suiting
pub mod Allocation
pub mod Mapping
pub mod Search
pub mod Filling
pub mod Mapped
pub mod Unmapping
mod Examples
use exectos.Base.{
  ℕ, zero, suc, ◌+◌, ◌-◌, ◌*◌, ◌/◌, ◌%◌, ◌^◌, Bool, true, false, not, ◌&&◌, Option, none, some,
  List, [], ◌∷◌, ◌++◌, ◌==◌, ltb, leb, if◌then◌else◌,
}
use exectos.Word.{u32, u64}

abbrev pub loader_free : ℕ
loader_free = 2

abbrev pub loader_hardware_cached_memory : ℕ
loader_hardware_cached_memory = 26

abbrev pub hardware_allocation_descriptors : ℕ
hardware_allocation_descriptors = 64

-- LOADER_MEMORY_DESCRIPTOR: two numbers of 32 bits, and the number of a memory type.
pub record MemoryDescriptor : Type 0 where
  pub base_page : ℕ
  pub page_count : ℕ
  pub memory_type : ℕ

pub data Status : Type 0 where
  success insufficient_resources invalid_parameter : Status

-- The pages up to the next multiple of 16.
unfoldable pub alignment : Bool → MemoryDescriptor → ℕ
alignment true d = u32 (u32 (d.base_page + 15) / 16 * 16 + (2 ^ 32 - d.base_page))
alignment false d = 0

unfoldable pub fits : (max_page page_count alignment : ℕ) → MemoryDescriptor → Bool
fits max_page n a d =
    d.memory_type == loader_free
    && (not (d.base_page == 0)
        && (ltb (u64 (d.base_page + n + a)) max_page && leb (u64 (n + a)) d.page_count))

-- What takes the place of a descriptor that pages are taken from, and how many new descriptors
-- that needs.
unfoldable pub carve : (page_count alignment : ℕ) → MemoryDescriptor → List MemoryDescriptor × ℕ
carve n a d =
    let hardware : MemoryDescriptor = record {
      base_page = u32 (d.base_page + a);
      page_count = u32 n;
      memory_type = loader_hardware_cached_memory;
    } in
    let extra : MemoryDescriptor = record {
      base_page = u32 (d.base_page + a + u32 n);
      page_count = u32 (d.page_count + (2 ^ 33 - (a + u32 n)));
      memory_type = loader_free;
    } in
    let consumed : MemoryDescriptor = record d {
      base_page = u32 (d.base_page + u32 n);
      page_count = u32 (d.page_count + (2 ^ 32 - u32 n));
    } in
    let trimmed : MemoryDescriptor = record d { page_count = u32 a } in
    if not (a == 0)
    then (if ltb (u64 (n + a)) d.page_count
        then (trimmed ∷ hardware ∷ extra ∷ [], 2)
        else (trimmed ∷ hardware ∷ [], 1))
    else (if consumed.page_count == 0 then hardware ∷ [] else hardware ∷ consumed ∷ [], 1)

-- A descriptor that fits, with what stands before and after it.
pub record Place : Type 0 where
  pub before : List MemoryDescriptor
  pub found : MemoryDescriptor
  pub after : List MemoryDescriptor

abbrev pub behind : MemoryDescriptor → Place → Place
behind d p = record p { before = d ∷ p.before }

abbrev pub first_of : Option Place → MemoryDescriptor → List MemoryDescriptor → Bool → Option Place
first_of (some p) d ds here = some (behind d p)
first_of none d ds true = some (record { before = []; found = d; after = ds })
first_of none d ds false = none

-- The list is searched from its end.
unfoldable pub find_descriptor :
    Bool → (max_page page_count : ℕ) → List MemoryDescriptor → Option Place
find_descriptor aligned max_page n [] = none
find_descriptor aligned max_page n (d ∷ ds) =
    first_of (find_descriptor aligned max_page n ds) d ds (fits max_page n (alignment aligned d) d)

pub record Pool : Type 0 where
  pub descriptors : List MemoryDescriptor
  pub used : ℕ

-- The status, the physical address and the pool.
abbrev pub Allocated : Type 0
Allocated = Status × ℕ × Pool

abbrev pub failed : Pool → Allocated
failed pool = (insufficient_resources, 0, pool)

abbrev pub take_from : (page_count : ℕ) → Bool → Pool → Option Place → Allocated
take_from n aligned pool none = failed pool
take_from n aligned pool (some p) =
    let a = alignment aligned p.found in
    let pieces = carve n a p.found in
    (
      success,
      u64 ((p.found.base_page + a) * 2 ^ 12),
      record { descriptors = p.before ++ (pieces.0 ++ p.after); used = pool.used + pieces.1 },
    )

unfoldable pub allocate_hardware_memory :
    (page_count : ℕ) → Bool → (maximum_address : ℕ) → Pool → Allocated
allocate_hardware_memory n aligned maximum_address pool =
    if ltb hardware_allocation_descriptors (pool.used + 2)
    then failed pool
    else take_from n aligned pool
        (find_descriptor aligned (maximum_address / 2 ^ 12) n pool.descriptors)
