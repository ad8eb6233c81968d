-- ===== src/Mm/HardwarePool/Mapping.antt =====
-- mm/hlpool.cc: the virtual addresses of the hardware layer, and the page tables as pagemap.cc of
-- mm/amd64 sets their entries. A page table is a function of the virtual page; GetPteAddress finds
-- the entry of a page, and the TLB is not modelled.
use exectos.Base.{
  ℕ, zero, suc, ◌+◌, ◌*◌, ◌/◌, ◌%◌, ◌^◌, Bool, true, false, not, Option, none, some, ◌==◌, ltb,
  if◌then◌else◌,
}
use exectos.Word.{u64}
use exectos.Mm.HardwarePool.{Status, success, insufficient_resources, invalid_parameter}

abbrev pub hardware_va_start : ℕ
hardware_va_start = 0xFFFF_FFFF_FFC0_0000

-- The fields of an entry that are set here.
pub record Pte : Type 0 where
  pub valid : Bool
  pub writable : Bool
  pub write_through : Bool
  pub cache_disable : Bool
  pub page_frame_number : ℕ
  pub no_execute : Bool

abbrev pub PageTable : Type 0
PageTable = ℕ → Pte

abbrev pub store_pte : PageTable → ℕ → Pte → PageTable
store_pte table page e p = if p == page then e else table p

-- SetPte with the attributes of MM_PTE_READWRITE: the entry keeps its other bits.
unfoldable pub set_pte : Pte → ℕ → Pte
set_pte e frame = record e {
  valid = true;
  writable = true;
  no_execute = true;
  page_frame_number = frame % 2 ^ 36;
}

unfoldable pub set_pte_caching : Pte → (cache_disable write_through : Bool) → Pte
set_pte_caching e c w = record e { cache_disable = c; write_through = w }

unfoldable pub clear_pte : Pte → Pte
clear_pte e = record {
  valid = false;
  writable = false;
  write_through = false;
  cache_disable = false;
  page_frame_number = 0;
  no_execute = false;
}

pub record Heap : Type 0 where
  pub table : PageTable
  pub heap_start : ℕ

module _ (table : PageTable) (page_count : ℕ) where
  -- The search for pages that are not in use, on fuel: `none` if it runs out. The inner result is
  -- the base address, or `none` where that overflows.
  unfoldable pub find_pages : ℕ → (base return_address mapped_pages : ℕ) → Option (Option ℕ)
  find_pages zero base address mapped = none
  find_pages (suc fuel) base address mapped =
      let next = u64 (address + 4096) in
      let in_use = (table (address / 4096)).valid in
      let rest =
        find_pages fuel (if in_use then next else base) next (if in_use then 0 else suc mapped) in
      if not (ltb mapped page_count)
      then some (some base)
      else if base == 0
      then some none
      else rest

-- The entries of the pages from an address on.
unfoldable pub fill_entries : ℕ → (physical base : ℕ) → PageTable → PageTable
fill_entries zero physical base table = table
fill_entries (suc n) physical base table =
    fill_entries n (u64 (physical + 4096)) (u64 (base + 4096))
      (store_pte table (base / 4096) (set_pte (table (base / 4096)) (physical / 4096)))

abbrev pub map_at : (physical page_count : ℕ) → Heap → Option ℕ → Status × ℕ × Heap
map_at physical n heap none = (insufficient_resources, 0, heap)
map_at physical n heap (some base) = (
  success,
  u64 (base + physical % 4096),
  record {
    table = fill_entries n physical base heap.table;
    heap_start = if base == heap.heap_start then u64 (base + u64 (n * 2 ^ 12)) else heap.heap_start;
  },
)

abbrev pub map_where :
    (physical page_count : ℕ) → Heap → Option (Option ℕ) → Option (Status × ℕ × Heap)
map_where physical n heap none = none
map_where physical n heap (some base) = some (map_at physical n heap base)

-- The status, the virtual address and the heap.
unfoldable pub map_hardware_memory :
    ℕ → (physical page_count : ℕ) → Heap → Option (Status × ℕ × Heap)
map_hardware_memory fuel physical n heap =
    map_where physical n heap (find_pages heap.table n fuel heap.heap_start heap.heap_start 0)

-- The entry that is marked is the same in every round: what GetNextEntry returns is not used.
unfoldable pub mark_hardware_memory_write_through : ℕ → ℕ → PageTable → PageTable
mark_hardware_memory_write_through address zero table = table
mark_hardware_memory_write_through address (suc n) table =
    mark_hardware_memory_write_through address n
      (store_pte table (address / 4096) (set_pte_caching (table (address / 4096)) true true))

unfoldable pub remap_hardware_memory : (address physical : ℕ) → PageTable → PageTable
remap_hardware_memory address physical table =
    store_pte table (address / 4096) (set_pte (table (address / 4096)) (physical / 4096))

unfoldable pub clear_entries : ℕ → (page : ℕ) → PageTable → PageTable
clear_entries zero page table = table
clear_entries (suc n) page table =
    clear_entries n (suc page) (store_pte table page (clear_pte (table page)))

unfoldable pub unmap_hardware_memory : (address page_count : ℕ) → Heap → Status × Heap
unmap_hardware_memory address n heap =
    let aligned = address / 4096 * 4096 in
    if ltb address hardware_va_start then (invalid_parameter, heap) else (
      success,
      record {
        table = clear_entries n (aligned / 4096) heap.table;
        heap_start = if ltb aligned heap.heap_start then aligned else heap.heap_start;
      },
    )
