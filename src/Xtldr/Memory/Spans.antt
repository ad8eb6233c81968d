-- ===== src/Xtldr/Memory/Spans.antt =====
-- A map of memory as a function: the type of each byte. Sorted mappings that do not overlap.
use exectos.Base.{
  ℕ, ◌+◌, ◌-◌, ◌*◌, ◌%◌, ◌^◌, ◌≤◌, ◌<◌, ◌≡◌, refl, Bool, ◌&&◌, Option, none, some, List, [], ◌∷◌,
  ltb, leb, if◌then◌else◌, arith,
}
use exectos.Xtldr.Memory.{Mapping, last_byte}

abbrev pub limit : Mapping → ℕ
limit m = m.physical_address + m.number_of_pages * 4096

abbrev pub covers : Mapping → ℕ → Bool
covers m a = leb m.physical_address a && ltb a (limit m)

unfoldable pub type_at : List Mapping → ℕ → Option ℕ
type_at [] a = none
type_at (m ∷ ms) a = if covers m a then some m.memory_type else type_at ms a

-- A mapping has pages, starts at one, and ends below 2 ^ 63.
pub record IsSpan (m : Mapping) : Type 0 where
  pub pages : 1 ≤ m.number_of_pages
  pub aligned : m.physical_address % 4096 ≡ 0
  pub low : limit m ≤ 2 ^ 63

-- The mappings are in order from `from` on, and do not overlap.
abbrev pub IsMap : ℕ → List Mapping → Type 0
IsMap from [] = Unit
IsMap from (m ∷ ms) = (from ≤ m.physical_address) × IsSpan m × IsMap (limit m) ms

pub IsSpan-last_byte : (m : Mapping) → IsSpan m → last_byte m ≡ limit m - 1
IsSpan-last_byte m s = omega (arith, s.pages, s.low)

pub IsMap-le : (lower from : ℕ) (ms : List Mapping) → lower ≤ from → IsMap from ms → IsMap lower ms
IsMap-le lower from [] h v = tt
IsMap-le lower from (m ∷ ms) h v = (omega (arith, v.0), v.1, v.2)

-- Nothing is mapped below the first mapping.
pub type_at-below :
    (from a : ℕ) (ms : List Mapping) → IsMap from ms → a < from → type_at ms a ≡ none
unfolding type_at
type_at-below from a [] v h = refl
type_at-below from a (m ∷ ms) v h = ground (arith, v.0, type_at-below (limit m) a ms v.2, v.1.pages)
