-- ===== src/Mm/HardwarePool/Unmapping.antt =====
-- UnmapHardwareMemory after MapHardwareMemory, and MarkHardwareMemoryWriteThrough.
use exectos.Base.{
  ℕ, zero, suc, ◌+◌, ◌-◌, ◌*◌, ◌/◌, ◌^◌, ◌≡◌, ◌≢◌, ◌≤◌, ◌<◌, ◌⊎◌, ◌∙◌, sym, subst, refl, ap, true,
  false, some, ltb, if◌then◌else◌, arith, inl, inr,
}
use mathlib.Core.Bool.{true≢false}
use exectos.Mm.HardwarePool.{success, insufficient_resources}
use exectos.Mm.HardwarePool.Mapping.{
  Pte, PageTable, Heap, hardware_va_start, set_pte_caching, map_hardware_memory,
  unmap_hardware_memory, clear_entries, mark_hardware_memory_write_through,
}
use exectos.Mm.HardwarePool.Search.{all_pages, IsRoom}
use exectos.Mm.HardwarePool.Filling.{
  store_pte-same, store_pte-other, clear_entries-inside, clear_entries-outside,
}
use exectos.Mm.HardwarePool.Mapped.{IsHeap, IsMapped, map_hardware_memory-Answer}

-- The heap is what it was: the same pages are in use, with the entries that they had.
pub record IsRestored (before after : Heap) : Type 0 where
  pub valid : (p : ℕ) → (after.table p).valid ≡ (before.table p).valid
  pub entries : (p : ℕ) → (before.table p).valid ≡ true → after.table p ≡ before.table p
  pub start : after.heap_start ≡ before.heap_start

abbrev pub unmapped : (b n : ℕ) → Heap → Heap
unmapped b n heap = record {
  table = clear_entries n b heap.table;
  heap_start = if ltb (b * 4096) heap.heap_start then b * 4096 else heap.heap_start;
}

page_of : (b : ℕ) → b * 4096 / 4096 ≡ b
page_of b = omega arith

unmap_hardware_memory_lem :
    (address b n : ℕ) (heap : Heap)
    → hardware_va_start ≤ address
    → address / 4096 ≡ b
    → unmap_hardware_memory address n heap ≡ (success, unmapped b n heap)
unfolding unmap_hardware_memory
unmap_hardware_memory_lem address b n heap h e =
    let known : ltb address hardware_va_start ≡ false = ground arith in
    rw (known, e, page_of b) refl

sides : (b n p : ℕ) → ((p < b) ⊎ (b + n ≤ p)) ⊎ ((b ≤ p) × (p < b + n))
sides b n p = ground arith

-- A page of the range is free before and after.
unused_at :
    (start n b : ℕ) (table : PageTable)
    → IsRoom table n start b
    → (p : ℕ) → b ≤ p
    → p < b + n
    → (table p).valid ≡ false
unused_at start n b table room p from below =
    let e : b + (p - b) ≡ p = omega arith in
    subst (λ q. (table q).valid ≡ false) e (room.unused (p - b) (omega (arith, from, below)))

unmapped-IsRestored :
    (start physical n b address : ℕ) (before after : Heap)
    → IsHeap start before
    → IsMapped start physical n b before after address
    → IsRestored before (unmapped b n after)
unmapped-IsRestored start physical n b address before after h m = record {
  valid = λ p. elim (sides b n p) [
    | inl out ↦ ap (λ e. e.valid) (clear_entries-outside n b after.table p out ∙ m.outside p out)
    | inr (from, below) ↦
        clear_entries-inside n b after.table p from below
        ∙ sym (unused_at start n b before.table m.room p from below)
  ];
  entries = λ p used. elim (sides b n p) [
    | inl out ↦ clear_entries-outside n b after.table p out ∙ m.outside p out
    | inr (from, below) ↦
        absurd (true≢false (sym used ∙ unused_at start n b before.table m.room p from below))
  ];
  start = ground (arith, m.moved, h.at_page, m.room.from);
}

-- Where the last page of the address space is in use, the heap starts at a page, at or above
-- MM_HARDWARE_VA_START, and the physical pages end below 2 ^ 64, MapHardwareMemory fails and
-- changes nothing, or UnmapHardwareMemory at the address that it has returned undoes the mapping:
-- the pages in use, their entries and the start of the heap are those that there were before. The
-- search needs at most two rounds more than there are pages from the start of the heap on.
pub unmap_hardware_memory-map_hardware_memory :
    (fuel start physical n : ℕ) (heap : Heap)
    → IsHeap start heap
    → hardware_va_start ≤ heap.heap_start
    → physical + n * 4096 < 2 ^ 64
    → all_pages - start + 1 < fuel
    → (map_hardware_memory fuel physical n heap ≡ some (insufficient_resources, 0, heap))
      ⊎ ((address : ℕ) × (mapped : Heap) × (restored : Heap) × (map_hardware_memory fuel physical n
              heap
            ≡ some (success, address, mapped))
          × (unmap_hardware_memory address n mapped ≡ (success, restored))
          × IsRestored heap restored)
unmap_hardware_memory-map_hardware_memory fuel start physical n heap h low k f =
    elim (map_hardware_memory-Answer fuel start physical n heap h k f) [
      | inl (full, none_free) ↦ inl full
      | inr (b, address, mapped, done, m) ↦ inr (
        address,
        mapped,
        unmapped b n mapped,
        done,
        unmap_hardware_memory_lem address b n mapped
            (omega (arith, low, h.at_page, m.offset, m.room.from)) (omega (arith, m.offset)),
        unmapped-IsRestored start physical n b address heap mapped h m,
      )
    ]

mark-other :
    (address n : ℕ) (table : PageTable) (p : ℕ)
    → p ≢ address / 4096
    → mark_hardware_memory_write_through address n table p ≡ table p
unfolding mark_hardware_memory_write_through
mark-other address zero table p other = refl
mark-other address (suc n) table p other =
    mark-other address n _ p other ∙ store_pte-other table (address / 4096) p _ other

mark-same :
    (address n : ℕ) (table : PageTable) (e : Pte)
    → table (address / 4096) ≡ set_pte_caching e true true
    → mark_hardware_memory_write_through address n table (address / 4096)
      ≡ set_pte_caching e true true
unfolding mark_hardware_memory_write_through set_pte_caching
mark-same address zero table e h = h
mark-same address (suc n) table e h =
    mark-same address n _ e
      (store_pte-same table (address / 4096) _ ∙ ap (λ x. set_pte_caching x true true) h)

-- However many pages it is given, MarkHardwareMemoryWriteThrough marks the first and leaves the
-- entry of every other page as it was.
pub mark_hardware_memory_write_through-first :
    (address n : ℕ) (table : PageTable) (p : ℕ)
    → p ≢ address / 4096
    → (mark_hardware_memory_write_through address (suc n) table (address / 4096)
        ≡ set_pte_caching (table (address / 4096)) true true)
      × (mark_hardware_memory_write_through address (suc n) table p ≡ table p)
unfolding mark_hardware_memory_write_through
mark_hardware_memory_write_through-first address n table p other = (
  mark-same address n _ (table (address / 4096)) (store_pte-same table (address / 4096) _),
  mark-other address n _ p other ∙ store_pte-other table (address / 4096) p _ other,
)
