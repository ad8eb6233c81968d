-- ===== src/Xtldr/Memory/Cutting.antt =====
-- The loop of MapVirtualMemory where the new mapping takes the end or the middle of a free one.
use exectos.Base.{
  ℕ, suc, ◌+◌, ◌≤◌, ◌<◌, ◌≡◌, Bool, true, false, ◌&&◌, List, ◌∷◌, ◌==◌, arith, Bool-cases, inl, inr,
  length,
}
use exectos.Word.{u32}
use exectos.Xtldr.Memory.{Mapping, pool_failure, loader_free, within, incremented, map_loop}
use exectos.Xtldr.Memory.Spans.{limit, IsSpan, IsMap, IsMap-le}
use exectos.Xtldr.Memory.Rounds.{
  piece, front, limit-front, front-IsSpan, limit-piece, piece-IsSpan, limit-aligned,
}
use exectos.Xtldr.Memory.Outcomes.{Refines, Ends, result, failed-Refines}
use exectos.Xtldr.Memory.Ending.{late}
use exectos.Xtldr.Memory.Early.{
  map_loop-cut, map_loop-cut_failed, map_loop-tail_failed, map_loop-cut_twice,
  map_loop-inner_failed,
}
use exectos.Xtldr.Memory.Placing.{after-Ends, limit-left, left-IsSpan, type_at-two, type_at-three}

module _ (pool : ℕ → Bool) (new : Mapping) (n : IsSpan new) where
  module _ (old : Mapping) (rest : List Mapping) (from base fuel size calls : ℕ)
      (v : IsMap from (old ∷ rest)) (e : size ≡ u32 (base + length (old ∷ rest)))
      (enough : length rest + 2 < fuel)
      (apart : (within pool new old && new.memory_type == old.memory_type) ≡ false)
      (before : old.physical_address < new.physical_address)
      (meets : new.physical_address < limit old)
      (free : (old.memory_type == loader_free) ≡ true) where
    left : Mapping
    left = front old new.physical_address

    failed :
        pool calls ≡ false
        → Refines pool new from base (old ∷ rest) (result pool_failure (old ∷ rest) size)
    failed h = failed-Refines pool new from base n (old ∷ rest) (old ∷ rest) size calls v e h

    -- The new mapping takes the end of a free one.
    pub end_taken :
        limit old ≤ limit new
        → Ends pool new from base
            (old ∷ rest)
            (map_loop pool new (suc fuel) (old ∷ rest) size calls)
    end_taken upper = elim (Bool-cases (pool calls)) [
      | inr h ↦ (
        result pool_failure (old ∷ rest) size,
        map_loop-cut_failed pool new n old rest v.1 fuel size calls apart before meets free upper h,
        failed h,
      )
      | inl h ↦
          let x = piece old new.physical_address (limit old) in
          let b = limit-aligned old v.1 in
          let x_end = limit-piece old new.physical_address (limit old) meets n.aligned b in
          let l_end = limit-left pool new n old rest v.1 before in
          after-Ends pool new n from base (front old new.physical_address) (x ∷ rest) (old ∷ rest)
            (map_loop pool new fuel (x ∷ rest) (incremented size) (suc calls)) _
            (map_loop-cut pool new n old rest v.1 fuel size calls apart before meets free upper h)
            v.0 (left-IsSpan pool new n old rest v.1 before) (omega (arith, l_end))
            (type_at-two pool new n old rest v.1 before meets)
            (late pool new n (limit (front old new.physical_address)) (suc base)
              (omega (arith, l_end)) fuel (x ∷ rest) new.physical_address (incremented size)
              (suc calls) (omega arith)
              (
                omega arith,
                piece-IsSpan old new.physical_address (limit old) meets n.aligned b v.1.low,
                IsMap-le (limit x) (limit old) rest (omega (arith, x_end)) v.2,
              )
              (omega (arith, e)) (omega arith))
    ]

    -- The new mapping takes the middle of a free one.
    pub middle_taken :
        limit new < limit old
        → Ends pool new from base
            (old ∷ rest)
            (map_loop pool new (suc fuel) (old ∷ rest) size calls)
    middle_taken upper = elim (Bool-cases (pool calls)) [
      | inr h ↦ (
        result pool_failure (old ∷ rest) size,
        map_loop-tail_failed pool new n old rest v.1 fuel size calls apart before meets free upper
            h,
        failed h,
      )
      | inl h ↦
          let x = piece old new.physical_address (limit new) in
          let y = piece old (limit new) (limit old) in
          let a = limit-aligned new n in
          let b = limit-aligned old v.1 in
          let x_end =
            limit-piece old new.physical_address (limit new) (omega (arith, n.pages)) n.aligned a in
          let y_end = limit-piece old (limit new) (limit old) upper a b in
          let l_end = limit-left pool new n old rest v.1 before in
          let y_span = piece-IsSpan old (limit new) (limit old) upper a b v.1.low in
          let y_rest = IsMap-le (limit y) (limit old) rest (omega (arith, y_end)) v.2 in
          elim (Bool-cases (pool (suc calls))) [
            | inr k ↦
                let body = front old (limit new) in
                let reach : old.physical_address < limit new = omega (arith, n.pages) in
                let body_end = limit-front old (limit new) v.1 reach a in
                (
                  result pool_failure (body ∷ y ∷ rest) (incremented size),
                  map_loop-inner_failed pool new n old rest v.1 fuel size calls apart before meets
                      free upper h k,
                  failed-Refines pool new from base n (old ∷ rest) (body ∷ y ∷ rest)
                      (incremented size) (suc calls)
                      (
                        v.0,
                        front-IsSpan old (limit new) v.1 reach a n.low,
                        (omega (arith, body_end), y_span, y_rest),
                      )
                      (omega (arith, e)) k,
                )
            | inl k ↦
                after-Ends pool new n from base (front old new.physical_address) (x ∷ y ∷ rest)
                  (old ∷ rest)
                  (map_loop pool new fuel (x ∷ y ∷ rest) (incremented (incremented size))
                    (suc (suc calls)))
                  _
                  (map_loop-cut_twice pool new n old rest v.1 fuel size calls apart before meets
                    free upper h k)
                  v.0 (left-IsSpan pool new n old rest v.1 before) (omega (arith, l_end))
                  (type_at-three pool new n old rest v.1 before upper)
                  (late pool new n (limit (front old new.physical_address)) (suc base)
                    (omega (arith, l_end)) fuel (x ∷ y ∷ rest) new.physical_address
                    (incremented (incremented size)) (suc (suc calls)) (omega arith)
                    (
                      omega arith,
                      piece-IsSpan old new.physical_address (limit new) (omega (arith, n.pages))
                          n.aligned a n.low,
                      (omega (arith, x_end), y_span, y_rest),
                    )
                    (omega (arith, e)) (omega arith))
          ]
    ]
