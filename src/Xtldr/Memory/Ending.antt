-- ===== src/Xtldr/Memory/Ending.antt =====
-- How the loop of MapVirtualMemory ends once it has come to the place of the new mapping.
use exectos.Base.{
  ℕ, zero, suc, ◌+◌, ◌-◌, ◌≤◌, ◌<◌, ◌≡◌, ap, ◌∙◌, Bool, true, false, ◌&&◌, List, [], ◌∷◌, ◌==◌, leb,
  arith, Bool-cases, inl, inr, length,
}
use exectos.Word.{u32}
use exectos.Xtldr.Memory.{
  Mapping, Mapped, efi_success, efi_invalid_parameter, pool_failure, loader_free, within,
  incremented, decremented, map_loop,
}
use exectos.Xtldr.Memory.Spans.{limit, type_at, IsSpan, IsMap, IsMap-le, type_at-below}
use exectos.Xtldr.Memory.Rounds.{piece, limit-piece, piece-IsSpan, limit-aligned}
use exectos.Xtldr.Memory.Outcomes.{
  Refines, Ends, result, insert-Refines, within-Refines, held-Refines, failed-Refines,
}
use exectos.Xtldr.Memory.Late.{
  map_loop-nil, map_loop-within, map_loop-beyond, map_loop-dropped, map_loop-held, map_loop-split,
  map_loop-failed,
}

module _ (pool : ℕ → Bool) (new : Mapping) (n : IsSpan new) (lower base : ℕ)
    (h : lower ≤ new.physical_address) where
  -- A free mapping in the place of the new one is dropped: the types change nowhere else.
  dropped-Refines :
      (old : Mapping) (rest : List Mapping) (r : Mapped)
      → new.physical_address ≤ old.physical_address
      → limit old ≤ limit new
      → IsMap (limit old) rest
      → Refines pool new lower base rest r
      → Refines pool new lower base (old ∷ rest) r
  unfolding type_at
  dropped-Refines old rest r i j v s = record {
    sorted = s.sorted;
    counted = s.counted;
    types = λ e a. s.types e a ∙ ground (arith, i, j);
    placed = s.placed;
    blocked = λ e.
        let (a, t, inside, held, other) = s.blocked e in
        (a, t, inside, ground (arith, held, type_at-below (limit old) a rest v), other);
    refused = s.refused;
  }

  -- The part of a free mapping after the new one.
  split-Refines :
      (old : Mapping) (rest : List Mapping) (size : ℕ)
      → new.physical_address ≤ old.physical_address
      → old.physical_address < limit new
      → limit new < limit old
      → IsSpan old
      → IsMap (limit old) rest
      → size ≡ u32 (base + length (old ∷ rest))
      → Refines pool new lower base
          (old ∷ rest)
          (result efi_success (new ∷ piece old (limit new) (limit old) ∷ rest) (incremented size))
  unfolding type_at
  split-Refines old rest size i j k o v e =
      let extra = piece old (limit new) (limit old) in
      let a = limit-aligned new n in
      let b = limit-aligned old o in
      let ends : limit extra ≡ limit old = limit-piece old (limit new) (limit old) k a b in
      let m : IsMap (limit new) (extra ∷ rest) = (
        omega arith,
        piece-IsSpan old (limit new) (limit old) k a b o.low,
        IsMap-le (limit extra) (limit old) rest (omega (arith, ends)) v,
      ) in
      let s = insert-Refines pool new lower base n (extra ∷ rest) size h m e in
      record {
        sorted = s.sorted;
        counted = s.counted;
        types = λ t c. s.types t c ∙ ground (arith, i, j, k, ends);
        placed = s.placed;
        blocked = λ t. absurd (ground (arith, t));
        refused = λ t. absurd (ground (arith, t));
      }

  split-Ends :
      (old : Mapping) (rest : List Mapping) (fuel size calls : ℕ)
      → (within pool new old && new.memory_type == old.memory_type) ≡ false
      → IsMap lower (old ∷ rest)
      → new.physical_address ≤ old.physical_address
      → old.physical_address < limit new
      → limit new < limit old
      → (old.memory_type == loader_free) ≡ true
      → size ≡ u32 (base + length (old ∷ rest))
      → 1 ≤ fuel
      → Ends pool new lower base (old ∷ rest) (map_loop pool new (suc fuel) (old ∷ rest) size calls)
  split-Ends old rest fuel size calls apart (below, o, v) i j k free e some_fuel =
      let extra = piece old (limit new) (limit old) in
      let a = limit-aligned new n in
      let b = limit-aligned old o in
      let span = piece-IsSpan old (limit new) (limit old) k a b o.low in
      let outside : (within pool new extra && new.memory_type == extra.memory_type) ≡ false =
        ground (arith, n.pages) in
      let same : decremented (incremented size) ≡ size = omega (arith, e) in
      elim (Bool-cases (pool calls)) [
        | inl made ↦ (
          result efi_success (new ∷ extra ∷ rest) (incremented size),
          map_loop-split pool new n old rest o fuel size calls apart i j free k made
              ∙ ap (λ t. map_loop pool new fuel (extra ∷ rest) t (suc calls)) same
              ∙ ap (λ t. map_loop pool new t (extra ∷ rest) size (suc calls))
                  (let f : fuel ≡ suc (fuel - 1) = omega arith in f)
              ∙ map_loop-beyond pool new n extra rest span (fuel - 1) size (suc calls) outside
                  (omega arith),
          split-Refines old rest size i j k o v e,
        )
        | inr failed ↦ (
          result pool_failure (old ∷ rest) size,
          map_loop-failed pool new n old rest o fuel size calls apart i j free k failed,
          failed-Refines pool new lower base n (old ∷ rest) (old ∷ rest) size calls (below, o, v) e
              failed,
        )
      ]

  -- From the first mapping on that does not start below the new one.
  pub late :
      (fuel : ℕ) (maps : List Mapping) (from size calls : ℕ)
      → new.physical_address ≤ from
      → IsMap from maps
      → size ≡ u32 (base + length maps)
      → length maps < fuel
      → Ends pool new lower base maps (map_loop pool new fuel maps size calls)
  late zero maps from size calls i v e f = absurd (omega arith)
  late (suc fuel) [] from size calls i v e f = (
    result efi_success (new ∷ []) (incremented size),
    map_loop-nil pool new n fuel size calls,
    insert-Refines pool new lower base n [] size h tt e,
  )
  late (suc fuel) (old ∷ rest) from size calls i v e f =
      let o = v.1 in
      let j : new.physical_address ≤ old.physical_address = omega (arith, v.0) in
      let sorted : IsMap lower (old ∷ rest) = (omega arith, o, v.2) in
      elim (Bool-cases (within pool new old && new.memory_type == old.memory_type)) [
        | inl inside ↦ (
          result efi_success (old ∷ rest) size,
          map_loop-within pool new n old rest fuel size calls inside,
          within-Refines pool new lower base n old rest size sorted e inside,
        )
        | inr apart ↦ elim (Bool-cases (leb (limit new) old.physical_address)) [
          | inl beyond ↦
              let k : limit new ≤ old.physical_address = ground arith in
              (
                result efi_success (new ∷ old ∷ rest) (incremented size),
                map_loop-beyond pool new n old rest o fuel size calls apart k,
                insert-Refines pool new lower base n (old ∷ rest) size h (k, o, v.2) e,
              )
          | inr meets ↦
              let k : old.physical_address < limit new = ground arith in
              elim (Bool-cases (old.memory_type == loader_free)) [
                | inr held ↦ (
                  result efi_invalid_parameter (old ∷ rest) size,
                  map_loop-held pool new n old rest o fuel size calls apart j k held,
                  held-Refines pool new lower base n old rest size sorted e old.physical_address
                      (ground (arith, j, k)) (ground (arith, o.pages)) held,
                )
                | inl free ↦ elim (Bool-cases (leb (limit old) (limit new))) [
                  | inl shorter ↦
                      let upper : limit old ≤ limit new = ground arith in
                      let (r, done, s) =
                        late fuel rest (limit old) (decremented size) calls (omega (arith, j)) v.2
                          (omega (arith, e)) (omega arith) in
                      (
                        r,
                        map_loop-dropped pool new n old rest o fuel size calls apart j k free upper
                            ∙ done,
                        dropped-Refines old rest r j upper v.2 s,
                      )
                  | inr longer ↦
                      split-Ends old rest fuel size calls apart sorted j k (ground arith) free e
                        (omega arith)
                ]
              ]
        ]
      ]
