-- ===== src/Xtldr/Memory.antt =====
-- boot/xtldr/memory.cc: the boot loader's map of physical memory. The mappings on the list of a
-- page map, in their order; AllocatePool and FreePool are the firmware's. A memory type is the
-- number of its enumerator.
pub mod Spans
pub mod Rounds
pub mod Outcomes
pub mod Late
pub mod Ending
pub mod Early
pub mod Placing
pub mod Cutting
pub mod Refinement
pub mod Firmware
pub mod Keeping
mod Examples
use exectos.Base.{
  ℕ, zero, suc, ◌+◌, ◌-◌, ◌*◌, ◌/◌, ◌%◌, ◌^◌, Bool, true, false, not, ◌&&◌, ◌||◌, Option, none,
  some, List, [], ◌∷◌, ◌==◌, ltb, leb, if◌then◌else◌,
}
use exectos.Word.{u32, u64}

abbrev pub loader_free : ℕ
loader_free = 2

pub record Mapping : Type 0 where
  pub virtual_address : ℕ
  pub physical_address : ℕ
  pub number_of_pages : ℕ
  pub memory_type : ℕ

pub data Status : Type 0 where
  efi_success : Status
  efi_invalid_parameter : Status
  -- what AllocatePool returned
  pool_failure : Status

-- The last byte of a mapping, as it is computed in 64 bits.
abbrev pub last_byte : Mapping → ℕ
last_byte m = u64 (m.physical_address + m.number_of_pages * 4096 + (2 ^ 64 - 1))

-- What a call leaves behind: its status, the mappings, and their count as it was kept.
pub record Mapped : Type 0 where
  pub status : Status
  pub mappings : List Mapping
  pub map_size : ℕ

-- A mapping that is looked at, the mappings after it, their count and the allocations made; or
-- the end of the call.
pub data Cut : Type 0 where
  stop : Mapped → Cut
  keep : (old : Mapping) → (rest : List Mapping) → (map_size : ℕ) → (calls : ℕ) → Cut

abbrev pub stopped : Status → Mapping → List Mapping → ℕ → Cut
stopped status old rest size =
    stop (record { status = status; mappings = old ∷ rest; map_size = size })

abbrev pub incremented : ℕ → ℕ
incremented size = u32 (size + 1)

abbrev pub decremented : ℕ → ℕ
decremented size = u32 (size + (2 ^ 32 - 1))

module _ (pool : ℕ → Bool) (new : Mapping) where
  -- A free mapping is cut down to `pages`; what is cut off becomes a mapping of its own, where it
  -- has pages, and `extra` allocates it.
  unfoldable pub cut : Mapping → List Mapping → ℕ → ℕ → (pages : ℕ) → (extra : Mapping) → Cut
  cut old rest size calls pages extra =
      let smaller = record old { number_of_pages = pages } in
      if not (old.memory_type == loader_free)
      then stopped efi_invalid_parameter old rest size
      else if extra.number_of_pages == 0
      then keep smaller rest size calls
      else if pool calls
      then keep smaller (extra ∷ rest) (incremented size) (suc calls)
      else stopped pool_failure old rest size

  -- The new mapping ends inside the old one.
  unfoldable pub cut_after : Mapping → List Mapping → ℕ → ℕ → Cut
  cut_after old rest size calls =
      if ltb old.physical_address (last_byte new) && leb (last_byte new) (last_byte old)
      then cut old rest size calls ((last_byte new + 1 - old.physical_address) / 4096) (record {
        virtual_address = 0;
        physical_address = last_byte new + 1;
        number_of_pages = (last_byte old - last_byte new) / 4096;
        memory_type = old.memory_type;
      })
      else keep old rest size calls

  -- The new mapping starts inside the old one.
  unfoldable pub cut_before : Cut → Cut
  cut_before (stop r) = stop r
  cut_before (keep old rest size calls) =
      if ltb old.physical_address new.physical_address && ltb new.physical_address (last_byte old)
      then cut old rest size calls ((new.physical_address - old.physical_address) / 4096) (record {
        virtual_address = 0;
        physical_address = new.physical_address;
        number_of_pages = (last_byte old + 1 - new.physical_address) / 4096;
        memory_type = old.memory_type;
      })
      else keep old rest size calls

  abbrev pub within : Mapping → Bool
  within old = leb old.physical_address new.physical_address && leb (last_byte new) (last_byte old)

  abbrev pub replaced : Mapping → Bool
  replaced old =
      (leb new.physical_address old.physical_address && leb (last_byte old) (last_byte new))
      || old.number_of_pages == 0

  abbrev pub returned : Status → List Mapping → ℕ → Option Mapped
  returned status mappings size =
      some (record { status = status; mappings = mappings; map_size = size })

  -- An old mapping that stays in front of what the rest of the call leaves.
  abbrev pub after : Mapping → Option Mapped → Option Mapped
  after old none = none
  after old (some r) = some (record r { mappings = old ∷ r.mappings })

  -- What becomes of the old mapping after the cuts; `more` is the loop on the mappings after it.
  unfoldable pub settle : (List Mapping → ℕ → ℕ → Option Mapped) → Cut → Option Mapped
  settle more (stop r) = some r
  settle more (keep old rest size calls) =
      let dropped = more rest (decremented size) calls in
      let kept = after old (more rest size calls) in
      if replaced old
      then (if old.memory_type == loader_free
          then dropped
          else returned efi_invalid_parameter (old ∷ rest) size)
      else if ltb new.physical_address old.physical_address
      then returned efi_success (new ∷ old ∷ rest) (incremented size)
      else kept

  -- The loop over the mappings, on fuel. `none` means that the fuel ran out.
  unfoldable pub map_loop : ℕ → List Mapping → ℕ → ℕ → Option Mapped
  map_loop zero maps size calls = none
  map_loop (suc fuel) [] size calls = returned efi_success (new ∷ []) (incremented size)
  map_loop (suc fuel) (old ∷ rest) size calls =
      let round = settle (map_loop fuel) (cut_before (cut_after old rest size calls)) in
      if within old && new.memory_type == old.memory_type
      then returned efi_success (old ∷ rest) size
      else round

-- A page map: its list of mappings with the count, and the level of its tables.
pub record PageMap : Type 0 where
  pub memory_map : List Mapping
  pub map_size : ℕ
  pub page_map_level : ℕ

unfoldable pub get_mappings_count : PageMap → ℕ
get_mappings_count p = p.map_size

unfoldable pub initialize_page_map : ℕ → PageMap
initialize_page_map level = record { memory_map = []; map_size = 0; page_map_level = level }

abbrev pub with_mapped : PageMap → Option Mapped → Option (Status × PageMap)
with_mapped p none = none
with_mapped p (some r) =
    some (r.status, record p { memory_map = r.mappings; map_size = r.map_size })

-- MapVirtualMemory on fuel; `pool` tells of each call of AllocatePool whether it succeeds.
unfoldable pub map_virtual_memory :
    (ℕ → Bool)
    → ℕ
    → PageMap
    → (virtual_address physical_address number_of_pages memory_type : ℕ) → Option (Status × PageMap)
map_virtual_memory pool fuel p virtual physical pages kind =
    let new : Mapping = record {
      virtual_address = virtual;
      physical_address = physical;
      number_of_pages = pages;
      memory_type = kind;
    } in
    let done = map_loop pool new fuel p.memory_map p.map_size 1 in
    if pool 0 then with_mapped p done else some (pool_failure, p)

-- The address is looked for in the mappings that have a virtual address.
unfoldable pub get_virtual_address : List Mapping → ℕ → ℕ
get_virtual_address [] physical = 0
get_virtual_address (m ∷ ms) physical =
    if not (m.virtual_address == 0)
      && (leb m.physical_address physical
          && ltb physical (u64 (m.physical_address + m.number_of_pages * 4096)))
    then u64 (physical - m.physical_address + m.virtual_address)
    else get_virtual_address ms physical
