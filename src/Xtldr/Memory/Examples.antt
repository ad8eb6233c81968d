-- ===== src/Xtldr/Memory/Examples.antt =====
-- The page map theorems on a free block of memory, and some runs.
use exectos.Base.{ℕ, ◌+◌, ◌*◌, ◌≡◌, refl, Bool, true, false, some, List, [], ◌∷◌, ◌≤◌, ◌^◌, arith}
use exectos.Xtldr.Memory.{
  Status, PageMap, efi_success, efi_invalid_parameter, loader_free, map_virtual_memory,
  get_virtual_address, map_loop, cut_after, cut_before, cut, settle,
}
use exectos.Xtldr.Memory.Spans.{IsSpan}
use exectos.Xtldr.Memory.Refinement.{IsPageMap, Answer, mapping, map_virtual_memory-Answer}
use exectos.Xtldr.Memory.Firmware.{
  Descriptor, conventional, boot_services_data, get_loader_memory_type, map_efi_memory, undefined,
}

-- The first sixteen megabytes are free.
abbrev low_memory : PageMap
low_memory = record {
  memory_map = mapping 0 0 0x1000 loader_free ∷ [];
  map_size = 1;
  page_map_level = 3;
}

span :
    (virtual physical pages kind : ℕ)
    → 1 ≤ pages
    → (k : ℕ) → physical ≡ k * 4096
    → physical + pages * 4096 ≤ 2 ^ 63
    → IsSpan (mapping virtual physical pages kind)
span virtual physical pages kind some_pages k e low = record {
  pages = some_pages;
  aligned = omega (arith, e);
  low = low;
}

low_memory-IsPageMap : IsPageMap low_memory
low_memory-IsPageMap = record {
  sorted = (omega arith, span 0 0 0x1000 loader_free (omega arith) 0 refl (omega arith), tt);
  counted = refl;
}

abbrev plenty : ℕ → Bool
plenty k = true

-- The module goes into the middle of the free memory, which falls into three.
abbrev with_module : PageMap
with_module = record {
  memory_map =
      mapping 0 0 0x100 loader_free
      ∷ mapping 0x40000000 0x100000 0x10 6
      ∷ mapping 0 0x110000 0xEF0 loader_free
      ∷ [];
  map_size = 3;
  page_map_level = 3;
}

map_module :
    map_virtual_memory plenty 4 low_memory 0x40000000 0x100000 0x10 6
    ≡ some (efi_success, with_module)
unfolding map_virtual_memory map_loop settle cut_after cut_before cut
map_module = refl

overlapping :
    map_virtual_memory plenty 6 with_module 0 0x10F000 2 6
    ≡ some (efi_invalid_parameter, with_module)
unfolding map_virtual_memory map_loop settle cut_after cut_before cut
overlapping = refl

translated : get_virtual_address with_module.memory_map 0x100010 ≡ 0x40000010
unfolding get_virtual_address
translated = refl

map_virtual_memory-Answer_example :
    (s : Status) × (q : PageMap) × (map_virtual_memory plenty 4 low_memory 0x40000000 0x100000 0x10
        6
      ≡ some (s, q))
    × IsPageMap q
    × (q.page_map_level ≡ 3)
    × Answer plenty (mapping 0x40000000 0x100000 0x10 6) low_memory.memory_map q.memory_map s
map_virtual_memory-Answer_example =
    map_virtual_memory-Answer plenty 4 low_memory 0x40000000 0x100000 0x10 6 low_memory-IsPageMap
      (span 0x40000000 0x100000 0x10 6 (omega arith) 0x100 refl (omega arith)) (omega arith)

abbrev empty_map : PageMap
empty_map = record { memory_map = []; map_size = 0; page_map_level = 3 }

-- A block at 1 MB, and one that crosses the limit of 64 GB.
abbrev firmware : List Descriptor
firmware =
    record { kind = conventional; physical_start = 0x100000; number_of_pages = 0x100 }
    ∷ record { kind = boot_services_data; physical_start = 0xFFFFF0000; number_of_pages = 0x100 }
    ∷ []

-- The allocation of the record of the firmware's map fails.
unallocated :
    map_efi_memory (λ n. plenty) true get_loader_memory_type false (some firmware) empty_map 0
    ≡ undefined
unfolding map_efi_memory
unallocated = refl
