-- ===== src/Xtldr/Memory/Refinement.antt =====
-- MapVirtualMemory as an operation on the map of memory.
use exectos.Base.{
  ℕ, zero, suc, ◌+◌, ◌≤◌, ◌<◌, ◌≡◌, refl, Bool, false, ◌&&◌, some, List, [], ◌∷◌, ◌==◌, leb, arith,
  Bool-cases, inl, inr, length,
}
use exectos.Word.{u32}
use exectos.Xtldr.Memory.{
  Mapping, Status, PageMap, efi_success, efi_invalid_parameter, pool_failure, loader_free, within,
  map_loop, map_virtual_memory,
}
use exectos.Xtldr.Memory.Spans.{limit, type_at, IsSpan, IsMap}
use exectos.Xtldr.Memory.Outcomes.{
  Refines, Ends, Blocked, Placed, put_over, result, within-Refines, held-Refines,
}
use exectos.Xtldr.Memory.Late.{map_loop-within}
use exectos.Xtldr.Memory.Ending.{late}
use exectos.Xtldr.Memory.Early.{map_loop-kept, map_loop-held_before}
use exectos.Xtldr.Memory.Placing.{after-Ends}
use exectos.Xtldr.Memory.Cutting.{end_taken, middle_taken}

module _ (pool : ℕ → Bool) (new : Mapping) (n : IsSpan new) where
  -- More rounds than mappings, and two for the pieces of a free one, are enough.
  map_loop-Ends :
      (fuel : ℕ) (maps : List Mapping) (from base size calls : ℕ)
      → from ≤ new.physical_address
      → IsMap from maps
      → size ≡ u32 (base + length maps)
      → length maps + 2 < fuel
      → Ends pool new from base maps (map_loop pool new fuel maps size calls)
  map_loop-Ends zero maps from base size calls h v e f = absurd (omega arith)
  map_loop-Ends (suc fuel) [] from base size calls h v e f =
      late pool new n from base h (suc fuel) [] new.physical_address size calls (omega arith) tt e
        (omega arith)
  map_loop-Ends (suc fuel) (old ∷ rest) from base size calls h v e f =
      elim (Bool-cases (leb new.physical_address old.physical_address)) [
        | inl reached ↦
            late pool new n from base h (suc fuel) (old ∷ rest) new.physical_address size calls
              (omega arith) (ground arith, v.1, v.2) e (omega arith)
        | inr earlier ↦
            let before : old.physical_address < new.physical_address = ground arith in
            elim (Bool-cases (within pool new old && new.memory_type == old.memory_type)) [
              | inl inside ↦ (
                result efi_success (old ∷ rest) size,
                map_loop-within pool new n old rest fuel size calls inside,
                within-Refines pool new from base n old rest size v e inside,
              )
              | inr apart ↦ elim (Bool-cases (leb (limit old) new.physical_address)) [
                | inl ended ↦
                    let k : limit old ≤ new.physical_address = ground arith in
                    after-Ends pool new n from base old rest (old ∷ rest)
                      (map_loop pool new fuel rest size calls) _
                      (map_loop-kept pool new n old rest v.1 fuel size calls apart before k) v.0 v.1
                      k (λ a. refl)
                      (map_loop-Ends fuel rest (limit old) (suc base) size calls k v.2
                        (omega (arith, e)) (omega arith))
                | inr reaches ↦
                    let meets : new.physical_address < limit old = ground arith in
                    elim (Bool-cases (old.memory_type == loader_free)) [
                      | inr held ↦ (
                        result efi_invalid_parameter (old ∷ rest) size,
                        map_loop-held_before pool new n old rest v.1 fuel size calls apart before
                            meets held,
                        held-Refines pool new from base n old rest size v e new.physical_address
                            (ground (arith, n.pages)) (ground (arith, before, meets)) held,
                      )
                      | inl free ↦ elim (Bool-cases (leb (limit old) (limit new))) [
                        | inl upper ↦
                            end_taken pool new n old rest from base fuel size calls v e
                              (omega arith) apart before meets free (ground arith)
                        | inr upper ↦
                            middle_taken pool new n old rest from base fuel size calls v e
                              (omega arith) apart before meets free (ground arith)
                      ]
                    ]
              ]
            ]
      ]

-- A page map in order, whose count is that of its mappings.
pub record IsPageMap (p : PageMap) : Type 0 where
  pub sorted : IsMap 0 p.memory_map
  pub counted : p.map_size ≡ u32 (length p.memory_map)

-- What a status says of the map of memory before and after a call: the new mapping is put over
-- it, and is on it, or within a mapping of its type that is; or some byte of the new mapping has another type than free; or the firmware had no memory.
abbrev pub Answer : (ℕ → Bool) → Mapping → List Mapping → List Mapping → Status → Type 0
Answer pool new before after efi_success =
    ((a : ℕ) → type_at after a ≡ put_over new before a) × Placed new after
Answer pool new before after efi_invalid_parameter = Blocked new before
Answer pool new before after pool_failure = (k : ℕ) × (pool k ≡ false)

abbrev pub mapping : ℕ → ℕ → ℕ → ℕ → Mapping
mapping virtual physical pages kind = record {
  virtual_address = virtual;
  physical_address = physical;
  number_of_pages = pages;
  memory_type = kind;
}

Refines-Answer :
    (pool : ℕ → Bool) (new : Mapping) (from base : ℕ) (maps after : List Mapping) (s : Status)
    (size : ℕ)
    → Refines pool new from base maps (result s after size)
    → Answer pool new maps after s
Refines-Answer pool new from base maps after efi_success size r = (r.types refl, r.placed refl)
Refines-Answer pool new from base maps after efi_invalid_parameter size r = r.blocked refl
Refines-Answer pool new from base maps after pool_failure size r = r.refused refl

-- MapVirtualMemory, of a mapping that has a page, is aligned to pages and ends at or below 2 ^ 63,
-- on a page map in order returns, after at most three rounds more than there are mappings, and
-- leaves a page map in order, with the right count, whatever the status is. On success the new
-- mapping is put over the map of memory, whose types change nowhere else, and is listed there as
-- it is, with its virtual address, or else lies within a listed mapping of its type. It refuses
-- only a mapping that has a byte of another type than free in its way, and fails otherwise only
-- where the firmware has no memory.
pub map_virtual_memory-Answer :
    (pool : ℕ → Bool) (fuel : ℕ) (p : PageMap) (virtual physical pages kind : ℕ)
    → IsPageMap p
    → IsSpan (mapping virtual physical pages kind)
    → length p.memory_map + 2 < fuel
    → (s : Status) × (q : PageMap) × (map_virtual_memory pool fuel p virtual physical pages kind
        ≡ some (s, q))
      × IsPageMap q
      × (q.page_map_level ≡ p.page_map_level)
      × Answer pool (mapping virtual physical pages kind) p.memory_map q.memory_map s
unfolding map_virtual_memory
map_virtual_memory-Answer pool fuel p virtual physical pages kind v n f =
    let new = mapping virtual physical pages kind in
    elim (Bool-cases (pool 0)) [
      | inr failed ↦ (pool_failure, p, (rw failed refl), v, refl, (0, failed))
      | inl made ↦
          let (r, done, s) =
            map_loop-Ends pool new n fuel p.memory_map 0 0 p.map_size 1 (omega arith) v.sorted
              (omega (arith, v.counted)) f in
          (
            r.status,
            record p { memory_map = r.mappings; map_size = r.map_size },
            (rw (made, done) refl),
            record { sorted = s.sorted; counted = omega (arith, s.counted) },
            refl,
            Refines-Answer pool new 0 0 p.memory_map r.mappings r.status r.map_size s,
          )
    ]
