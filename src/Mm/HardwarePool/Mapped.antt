-- ===== src/Mm/HardwarePool/Mapped.antt =====
-- MapHardwareMemory.
use exectos.Base.{
  ℕ, ◌+◌, ◌-◌, ◌*◌, ◌/◌, ◌%◌, ◌^◌, ◌≡◌, ◌≤◌, ◌<◌, ◌⊎◌, subst, refl, true, false, Option, some, ◌==◌,
  if◌then◌else◌, arith, Bool-cases, inl, inr,
}
use exectos.Word.{u64}
use exectos.Mm.HardwarePool.{Status, success, insufficient_resources}
use exectos.Mm.HardwarePool.Mapping.{
  Heap, set_pte, find_pages, map_where, map_at, map_hardware_memory,
}
use exectos.Mm.HardwarePool.Search.{all_pages, IsRoom, NoRoom, Outcome, find_pages-Outcome}
use exectos.Mm.HardwarePool.Filling.{fill_entries-inside, fill_entries-outside}

-- A heap that starts at the page `start`, while the last page of the address space is in use.
pub record IsHeap (start : ℕ) (heap : Heap) : Type 0 where
  pub at_page : heap.heap_start ≡ start * 4096
  pub not_first : 1 ≤ start
  pub not_last : start < all_pages
  pub top : (heap.table (all_pages - 1)).valid ≡ true

-- What a mapping at the page `b` leaves behind.
pub record IsMapped (start physical n b : ℕ) (before after : Heap) (address : ℕ) : Type 0 where
  pub room : IsRoom before.table n start b
  pub offset : address ≡ b * 4096 + physical % 4096
  pub inside :
      (p : ℕ)
      → b ≤ p
      → p < b + n
      → after.table p ≡ set_pte (before.table p) (physical / 4096 + (p - b))
  pub outside : (p : ℕ) → (p < b) ⊎ (b + n ≤ p) → after.table p ≡ before.table p
  pub moved : after.heap_start ≡ (if b == start then b + n else start) * 4096

abbrev pub Answer : (start physical n : ℕ) → Heap → Option (Status × ℕ × Heap) → Type 0
Answer start physical n heap o =
    ((o ≡ some (insufficient_resources, 0, heap)) × NoRoom heap.table n start)
    ⊎ ((b : ℕ) × (address : ℕ) × (after : Heap) × (o ≡ some (success, address, after))
        × IsMapped start physical n b heap after address)

page_plus_zero : (b : ℕ) → b + 0 ≡ b
page_plus_zero b = omega arith

map_at-IsMapped :
    (start physical n b : ℕ) (heap : Heap)
    → IsHeap start heap
    → physical + n * 4096 < 2 ^ 64
    → IsRoom heap.table n start b
    → IsMapped start physical n b heap
        (map_at physical n heap (some (b * 4096))).2
        (map_at physical n heap (some (b * 4096))).1
map_at-IsMapped start physical n b heap h k room = record {
  room = room;
  offset = omega (arith, room.below);
  inside = λ p from below. fill_entries-inside n physical b heap.table p room.below k from below;
  outside = λ p out. fill_entries-outside n physical b heap.table p room.below k out;
  moved = elim (Bool-cases (b == start)) [
    | inl same ↦
        let e : (b * 4096 == heap.heap_start) ≡ true = ground (arith, h.at_page) in
        let end : u64 (b * 4096 + u64 (n * 2 ^ 12)) ≡ (b + n) * 4096 = omega (arith, room.below) in
        rw (e, same) end
    | inr other ↦
        let e : (b * 4096 == heap.heap_start) ≡ false = ground (arith, h.at_page) in
        rw (e, other) h.at_page
  ];
}

found-Answer :
    (start physical n : ℕ) (heap : Heap) (o : Option (Option ℕ))
    → IsHeap start heap
    → physical + n * 4096 < 2 ^ 64
    → Outcome heap.table n start o
    → Answer start physical n heap (map_where physical n heap o)
found-Answer start physical n heap o h k (inl (e, none_free)) = inl (rw e refl, none_free)
found-Answer start physical n heap o h k (inr (b, (e, room))) =
    let done = map_at physical n heap (some (b * 4096)) in
    inr (b, done.1, done.2, (rw e refl), map_at-IsMapped start physical n b heap h k room)

-- The search starts with the first page of the heap.
search-Outcome :
    (fuel start n : ℕ) (heap : Heap)
    → IsHeap start heap
    → all_pages - start + 1 < fuel
    → Outcome heap.table n start (find_pages heap.table n fuel heap.heap_start heap.heap_start 0)
search-Outcome fuel start n heap h f = rw h.at_page (
    subst
      (λ p. Outcome heap.table n start (find_pages heap.table n fuel (start * 4096) (p * 4096) 0))
      (page_plus_zero start)
      (find_pages-Outcome heap.table n start fuel start 0 h.top h.not_first (omega arith)
        (omega (arith, h.not_last)) (omega arith) (λ c from before. absurd (omega arith))
        (λ i none_yet. absurd (omega arith)) (omega arith)))

-- MapHardwareMemory returns, where the last page of the address space is in use: after at most as
-- many rounds as there are pages from the start of the heap on. It maps the physical memory at the
-- first pages that are not in use, page by page and with the offset kept, and changes no other
-- entry. The start of the heap moves only where these are its first pages. It fails only where
-- there are not so many free pages in a row, and then changes nothing.
pub map_hardware_memory-Answer :
    (fuel start physical n : ℕ) (heap : Heap)
    → IsHeap start heap
    → physical + n * 4096 < 2 ^ 64
    → all_pages - start + 1 < fuel
    → Answer start physical n heap (map_hardware_memory fuel physical n heap)
unfolding map_hardware_memory
map_hardware_memory-Answer fuel start physical n heap h k f =
    found-Answer start physical n heap _ h k (search-Outcome fuel start n heap h f)
