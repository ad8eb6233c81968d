-- ===== src/Xtldr/Memory/Keeping.antt =====
-- MapEfiMemory keeps the page map in order.
use exectos.Base.{ℕ, ◌≡◌, Bool, true, false, Option, none, some, List, [], ◌∷◌}
use exectos.Xtldr.Memory.{Status, PageMap}
use exectos.Xtldr.Memory.Spans.{IsSpan}
use exectos.Xtldr.Memory.Refinement.{IsPageMap, mapping}
use exectos.Xtldr.Memory.Firmware.{
  Descriptor, clipped, Progress, MapResult, undefined, no_memory_map, mapped,
}

-- What is mapped of a descriptor, if anything, is a range of pages.
abbrev pub Fits : Option ℕ → Descriptor → Type 0
Fits none d = Unit
Fits (some pages) d = IsSpan (mapping 0 d.physical_start pages 0)

abbrev pub AllFit : Option ℕ → List Descriptor → Type 0
AllFit highest [] = Unit
AllFit highest (d ∷ ds) = Fits (clipped highest d) d × AllFit highest ds

-- A page map in order comes out, of the same level.
abbrev pub IsKept : ℕ → Option Progress → Type 0
IsKept level o =
    (s : Status) × (p : PageMap) × (next : ℕ) × (o ≡ some (s, p, next))
    × IsPageMap p
    × (p.page_map_level ≡ level)

abbrev pub AllListedFit : Option ℕ → Option (List Descriptor) → Type 0
AllListedFit highest none = Unit
AllListedFit highest (some ds) = AllFit highest ds

abbrev pub IsAnswer :
    (allocated : Bool) → Option (List Descriptor) → PageMap → (base : ℕ) → MapResult → Type 0
IsAnswer false memory_map p base r = r ≡ undefined
IsAnswer true none p base r = r ≡ no_memory_map p base
IsAnswer true (some ds) p base r =
    (o : Option Progress) × (r ≡ mapped o) × IsKept p.page_map_level o
