-- ===== src/Xtldr/Memory/Firmware.antt =====
-- GetLoaderMemoryType and MapEfiMemory: the firmware's memory map put into a page map.
use exectos.Base.{
  ℕ, suc, ◌+◌, ◌-◌, ◌*◌, ◌/◌, ◌^◌, Bool, true, false, Option, none, some, List, [], ◌∷◌, ◌==◌, ltb,
  leb, if◌then◌else◌, length,
}
use exectos.Word.{u64}
use exectos.Xtldr.Memory.{Status, PageMap, efi_success, loader_free, map_virtual_memory}

-- The types of the firmware's memory, in the order of their enumeration.
pub data EfiMemoryType : Type 0 where
  reserved loader_code loader_data boot_services_code boot_services_data : EfiMemoryType
  runtime_services_code runtime_services_data conventional unusable : EfiMemoryType
  acpi_reclaim acpi_nvs memory_mapped_io memory_mapped_io_port pal_code : EfiMemoryType
  -- EfiMaxMemoryType and what is reserved for vendors
  other : ℕ → EfiMemoryType

abbrev pub loader_bad : ℕ
loader_bad = 3

abbrev pub loader_firmware_temporary : ℕ
loader_firmware_temporary = 5

abbrev pub loader_firmware_permanent : ℕ
loader_firmware_permanent = 6

abbrev pub loader_special_memory : ℕ
loader_special_memory = 22

pub get_loader_memory_type : EfiMemoryType → ℕ
get_loader_memory_type acpi_nvs = loader_special_memory
get_loader_memory_type acpi_reclaim = loader_special_memory
get_loader_memory_type pal_code = loader_special_memory
get_loader_memory_type reserved = loader_special_memory
get_loader_memory_type runtime_services_code = loader_firmware_permanent
get_loader_memory_type runtime_services_data = loader_firmware_permanent
get_loader_memory_type memory_mapped_io = loader_firmware_permanent
get_loader_memory_type memory_mapped_io_port = loader_firmware_permanent
get_loader_memory_type boot_services_data = loader_firmware_temporary
get_loader_memory_type loader_code = loader_firmware_temporary
get_loader_memory_type loader_data = loader_firmware_temporary
get_loader_memory_type unusable = loader_bad
get_loader_memory_type boot_services_code = loader_free
get_loader_memory_type conventional = loader_free
get_loader_memory_type (other n) = loader_free

pub record Descriptor : Type 0 where
  pub kind : EfiMemoryType
  pub physical_start : ℕ
  pub number_of_pages : ℕ

abbrev pub is_reserved : EfiMemoryType → Bool
is_reserved reserved = true
is_reserved _ = false

abbrev pub kseg0_base : ℕ
kseg0_base = 0xFFFF_F800_0000_0000

-- The highest address below the limit of the tables, where they have one.
abbrev pub max_address : ℕ → Option ℕ
max_address level =
    if level == 2 then some 0xFFFF_FFFF else if level == 3 then some 0xF_FFFF_FFFF else none

-- The number of pages of a descriptor that is mapped; `none` where it starts beyond the limit.
unfoldable pub clipped : Option ℕ → Descriptor → Option ℕ
clipped none d = some d.number_of_pages
clipped (some highest) d =
    if leb highest d.physical_start
    then none
    else if ltb highest (u64 (d.physical_start + d.number_of_pages * 2 ^ 12))
    then some ((highest - d.physical_start) / 2 ^ 12)
    else some d.number_of_pages

-- A call of MapVirtualMemory, with the rounds that it may need. `none` if it needs more.
abbrev pub map_memory :
    (ℕ → Bool) → PageMap → (virtual physical pages kind : ℕ) → Option (Status × PageMap)
map_memory pool p = map_virtual_memory pool (length p.memory_map + 3) p

-- Where the next sequential mapping goes, with the page map.
abbrev pub Progress : Type 0
Progress = Status × PageMap × ℕ

abbrev pub then_at : ℕ → Option (Status × PageMap) → Option Progress
then_at virtual none = none
then_at virtual (some (s, p)) = some (s, p, virtual)

-- After a failure nothing more is done.
abbrev pub and_then : Option Progress → (PageMap → ℕ → Option Progress) → Option Progress
and_then none next = none
and_then (some (efi_success, p, virtual)) next = next p virtual
and_then (some (s, p, virtual)) next = some (s, p, virtual)

-- A descriptor that is beyond the limit is skipped.
abbrev pub or_skip : Option ℕ → Option Progress → (ℕ → Option Progress) → Option Progress
or_skip none skip next = skip
or_skip (some pages) skip next = next pages

-- BaseAddress is stored at the end, where a failure does not come.
abbrev pub store : ℕ → Option Progress → Option Progress
store base none = none
store base (some (efi_success, p, virtual)) = some (efi_success, p, virtual)
store base (some (s, p, virtual)) = some (s, p, base)

-- How MapEfiMemory ends.
pub data MapResult : Type 0 where
  -- it has written through a pointer that was never set
  undefined : MapResult
  -- the error of GetMemoryMap is returned
  no_memory_map : PageMap → (base : ℕ) → MapResult
  -- what its calls of MapVirtualMemory leave, where they have the rounds that they need
  mapped : Option Progress → MapResult

-- `pool n` tells of the allocations of the call of MapVirtualMemory for the descriptor `n`.
module _ (pool : ℕ → ℕ → Bool) (identity : Bool) (routine : EfiMemoryType → ℕ) where
  -- One descriptor, of which `pages` are mapped.
  unfoldable pub map_descriptor : ℕ → PageMap → ℕ → Descriptor → ℕ → Option Progress
  map_descriptor n p virtual d pages =
      let kind = routine d.kind in
      if is_reserved d.kind
      then some (efi_success, p, virtual)
      else if kind == loader_firmware_temporary
      then then_at virtual (map_memory (pool n) p d.physical_start d.physical_start pages kind)
      else if kind == loader_free
      then then_at virtual (map_memory (pool n) p 0 d.physical_start pages loader_free)
      else if identity
      then then_at virtual
          (map_memory (pool n) p (u64 (d.physical_start + kseg0_base)) d.physical_start pages kind)
      else then_at (u64 (virtual + pages * 4096))
          (map_memory (pool n) p virtual d.physical_start pages kind)

  unfoldable pub map_descriptors : ℕ → PageMap → ℕ → List Descriptor → Option Progress
  map_descriptors n p virtual [] = some (efi_success, p, virtual)
  map_descriptors n p virtual (d ∷ ds) =
      let skip = map_descriptors (suc n) p virtual ds in
      or_skip (clipped (max_address p.page_map_level) d) skip (λ pages.
        and_then (map_descriptor n p virtual d pages) (λ q next. map_descriptors (suc n) q next ds))

  -- The mappings of MapEfiMemory for the descriptors of the firmware's map.
  unfoldable pub map_all : PageMap → ℕ → List Descriptor → Option Progress
  map_all p base ds = store base (
      and_then (map_descriptors 0 p base ds) (λ q virtual.
        and_then (then_at virtual (map_memory (pool (length ds)) q 0 0 1 loader_firmware_permanent))
          (λ r next.
            then_at next
              (map_memory (pool (suc (length ds))) r 0 0xA0000 0x60 loader_firmware_permanent))))

  abbrev map_listed : PageMap → ℕ → Option (List Descriptor) → MapResult
  map_listed p base none = no_memory_map p base
  map_listed p base (some ds) = mapped (map_all p base ds)

  -- `allocated` says whether the firmware has memory for the record of its map, and `memory_map`
  -- is what GetMemoryMap then gets, if it succeeds. The status of that allocation is not looked at,
  -- and the record is filled with zeros at once.
  unfoldable pub map_efi_memory :
      (allocated : Bool) → Option (List Descriptor) → PageMap → ℕ → MapResult
  map_efi_memory allocated memory_map p base =
      if allocated then map_listed p base memory_map else undefined
