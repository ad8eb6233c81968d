-- ===== src/Mm/HardwarePool/Examples.antt =====
-- The theorems on the pool of hardware pages at a small memory, and some runs.
use exectos.Base.{ℕ, ◌/◌, ◌≡◌, ◌⊎◌, refl, Bool, true, false, [], ◌∷◌, some, ◌==◌, ◌||◌, arith}
use exectos.Mm.HardwarePool.{
  Pool, success, insufficient_resources, loader_free, allocate_hardware_memory, find_descriptor,
  alignment, fits, carve,
}
use exectos.Mm.HardwarePool.Coverage.{piece}
use exectos.Mm.HardwarePool.Allocation
use exectos.Mm.HardwarePool.Mapping.{
  Pte, Heap, set_pte_caching, map_hardware_memory, unmap_hardware_memory,
  mark_hardware_memory_write_through,
}
use exectos.Mm.HardwarePool.Mapped
use exectos.Mm.HardwarePool.Mapped.{IsHeap, map_hardware_memory-Answer}
use exectos.Mm.HardwarePool.Unmapping.{
  IsRestored, unmap_hardware_memory-map_hardware_memory, mark_hardware_memory_write_through-first,
}

abbrev loader_memory : Pool
loader_memory = record {
  descriptors = piece 1 0x9E loader_free ∷ piece 0x105 0x100 loader_free ∷ piece 0x205 4 6 ∷ [];
  used = 0;
}

-- Two pages at 64 KB: the descriptor falls into three.
allocated : allocate_hardware_memory 2 true 0x1000000 loader_memory ≡ (
  success,
  0x110000,
  record {
    descriptors =
        piece 1 0x9E loader_free
        ∷ piece 0x105 0xB loader_free
        ∷ piece 0x110 2 26
        ∷ piece 0x112 0xF3 loader_free
        ∷ piece 0x205 4 6
        ∷ [];
    used = 2;
  },
)
unfolding allocate_hardware_memory find_descriptor alignment fits carve
allocated = refl

abbrev entry : Bool → Pte
entry v = record {
  valid = v;
  writable = v;
  write_through = false;
  cache_disable = false;
  page_frame_number = 0;
  no_execute = v;
}

-- The second page of the heap is in use, and so is the last of all.
abbrev heap : Heap
heap = record {
  table = λ p. entry ((p == 0xFFFFFFFFFFD01) || (p == 0xFFFFFFFFFFFFF));
  heap_start = 0xFFFF_FFFF_FFD0_0000;
}

heap-IsHeap : IsHeap 0xFFFFFFFFFFD00 heap
heap-IsHeap = record { at_page = refl; not_first = omega arith; not_last = omega arith; top = refl }

map_hardware_memory-Answer_example :
    Mapped.Answer 0xFFFFFFFFFFD00 0xFEE00123 2 heap (map_hardware_memory 0x302 0xFEE00123 2 heap)
map_hardware_memory-Answer_example =
    map_hardware_memory-Answer 0x302 0xFFFFFFFFFFD00 0xFEE00123 2 heap heap-IsHeap (omega arith)
      (omega arith)

unmap_hardware_memory-map_hardware_memory_example :
    (map_hardware_memory 0x302 0xFEE00123 2 heap ≡ some (insufficient_resources, 0, heap))
    ⊎ ((address : ℕ) × (mapped : Heap) × (restored : Heap) × (map_hardware_memory 0x302 0xFEE00123 2
            heap
          ≡ some (success, address, mapped))
        × (unmap_hardware_memory address 2 mapped ≡ (success, restored))
        × IsRestored heap restored)
unmap_hardware_memory-map_hardware_memory_example =
    unmap_hardware_memory-map_hardware_memory 0x302 0xFFFFFFFFFFD00 0xFEE00123 2 heap heap-IsHeap
      (omega arith) (omega arith) (omega arith)

mark_hardware_memory_write_through-first_example :
    (mark_hardware_memory_write_through 0x1000 2 heap.table (0x1000 / 4096)
      ≡ set_pte_caching (heap.table (0x1000 / 4096)) true true)
    × (mark_hardware_memory_write_through 0x1000 2 heap.table 2 ≡ heap.table 2)
mark_hardware_memory_write_through-first_example =
    mark_hardware_memory_write_through-first 0x1000 1 heap.table 2 (omega arith)
