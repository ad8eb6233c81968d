-- ===== src/Xtldr/Memory/Early.antt =====
-- The loop of MapVirtualMemory at a mapping that starts below the new one.
use exectos.Base.{
  ℕ, suc, ◌-◌, ◌/◌, ◌≤◌, ◌<◌, ◌≡◌, refl, ap, ◌∙◌, Bool, true, false, List, ◌∷◌, ◌==◌, ltb, arith,
  Bool-cases, inl, inr,
}
use exectos.Xtldr.Memory.{
  Mapping, keep, efi_invalid_parameter, pool_failure, loader_free, incremented, map_loop, settle,
  cut_before, cut_after, returned, cut, after,
}
use exectos.Xtldr.Memory.Spans.{limit, IsSpan}
use exectos.Xtldr.Memory.Rounds.{
  same_within, piece, front, limit-front, front-IsSpan, limit-aligned, cut_after-apart,
  cut_after-meets, cut_before-apart, cut_before-meets, cut-held, cut-none, cut-made, cut-failed,
  settle-before,
}
use exectos.Xtldr.Memory.Late.{map_loop-round}

module _ (pool : ℕ → Bool) (new : Mapping) (n : IsSpan new) (old : Mapping) (rest : List Mapping)
    (o : IsSpan old) (fuel size calls : ℕ)
    (apart : same_within pool new old n o rest size calls ≡ false)
    (before : old.physical_address < new.physical_address) where
  -- A mapping that ends before the new one stays.
  pub map_loop-kept :
      limit old ≤ new.physical_address
      → map_loop pool new (suc fuel) (old ∷ rest) size calls
        ≡ after pool new old (map_loop pool new fuel rest size calls)
  map_loop-kept h =
      map_loop-round pool new n old rest o fuel size calls apart
      ∙ (rw
          (
            cut_after-apart pool new old n o rest size calls (inr (omega (arith, n.pages))),
            cut_before-apart pool new old n o rest size calls size calls rest (inr h),
          )
          (settle-before pool new old n o rest size calls (map_loop pool new fuel) before))

  module _ (meets : new.physical_address < limit old) where
    -- A mapping that is not free ends the call.
    pub map_loop-held_before :
        (old.memory_type == loader_free) ≡ false
        → map_loop pool new (suc fuel) (old ∷ rest) size calls
          ≡ returned pool new efi_invalid_parameter (old ∷ rest) size
    unfolding cut_before settle
    map_loop-held_before held = elim (Bool-cases (ltb (limit old) (limit new))) [
      | inl less ↦
          map_loop-round pool new n old rest o fuel size calls apart
          ∙ (rw (cut_after-apart pool new old n o rest size calls (inr (ground arith))) (
              ap (settle pool new (map_loop pool new fuel)) (
                cut_before-meets pool new old n o rest size calls size calls rest before meets
                ∙ cut-held pool new old n o rest size calls
                    ((new.physical_address - old.physical_address) / 4096)
                    (piece old new.physical_address (limit old)) held)))
      | inr more ↦
          map_loop-round pool new n old rest o fuel size calls apart
          ∙ (rw
              (
                cut_after-meets pool new old n o rest size calls (omega (arith, n.pages))
                    (ground arith),
                cut-held pool new old n o rest size calls
                    ((limit new - old.physical_address) / 4096) (piece old (limit new) (limit old))
                    held,
              )
              refl)
    ]

    module _ (free : (old.memory_type == loader_free) ≡ true) where
      module _ (upper : limit old ≤ limit new) where
        -- After the first cut, which takes nothing off.
        unchanged : cut_after pool new old rest size calls ≡ keep old rest size calls
        unchanged = elim (Bool-cases (ltb (limit old) (limit new))) [
          | inl less ↦ cut_after-apart pool new old n o rest size calls (inr (ground arith))
          | inr same ↦
              let e : limit new ≡ limit old = ground arith in
              let whole : (limit new - old.physical_address) / 4096 ≡ old.number_of_pages =
                omega (arith, e) in
              let nothing : (piece old (limit new) (limit old)).number_of_pages ≡ 0 =
                omega (arith, e) in
              cut_after-meets pool new old n o rest size calls (omega (arith, n.pages))
                (omega (arith, e))
              ∙ cut-none pool new old n o rest size calls
                  ((limit new - old.physical_address) / 4096) (piece old (limit new) (limit old))
                  free nothing
              ∙ (rw whole refl)
        ]

        some_pages : 1 ≤ (piece old new.physical_address (limit old)).number_of_pages
        some_pages = omega (arith, limit-aligned old o, n.aligned)

        pub map_loop-cut :
            pool calls ≡ true
            → map_loop pool new (suc fuel) (old ∷ rest) size calls
              ≡ after pool new (front old new.physical_address) (
                  map_loop pool new fuel
                    (piece old new.physical_address (limit old) ∷ rest)
                    (incremented size)
                    (suc calls))
        map_loop-cut h =
            let extra = piece old new.physical_address (limit old) in
            let small = front old new.physical_address in
            let span =
              front-IsSpan old new.physical_address o before n.aligned (omega (arith, n.low)) in
            map_loop-round pool new n old rest o fuel size calls apart
            ∙ (rw
                (
                  unchanged,
                  cut_before-meets pool new old n o rest size calls size calls rest before meets,
                  cut-made pool new old n o rest size calls
                      ((new.physical_address - old.physical_address) / 4096) extra free some_pages
                      h,
                )
                (settle-before pool new small n span (extra ∷ rest) (incremented size) (suc calls)
                  (map_loop pool new fuel) before))

        pub map_loop-cut_failed :
            pool calls ≡ false
            → map_loop pool new (suc fuel) (old ∷ rest) size calls
              ≡ returned pool new pool_failure (old ∷ rest) size
        unfolding settle
        map_loop-cut_failed h =
            let extra = piece old new.physical_address (limit old) in
            map_loop-round pool new n old rest o fuel size calls apart
            ∙ (rw
                (
                  unchanged,
                  cut_before-meets pool new old n o rest size calls size calls rest before meets,
                  cut-failed pool new old n o rest size calls
                      ((new.physical_address - old.physical_address) / 4096) extra free some_pages
                      h,
                )
                refl)

      module _ (upper : limit new < limit old) where
        abbrev tail : Mapping
        tail = piece old (limit new) (limit old)

        tail_pages : 1 ≤ tail.number_of_pages
        tail_pages = omega (arith, limit-aligned new n, limit-aligned old o)

        abbrev body : Mapping
        body = front old (limit new)

        body-IsSpan : IsSpan body
        body-IsSpan =
            front-IsSpan old (limit new) o (omega (arith, n.pages)) (limit-aligned new n) n.low

        limit-body : limit body ≡ limit new
        limit-body = limit-front old (limit new) o (omega (arith, n.pages)) (limit-aligned new n)

        pub map_loop-tail_failed :
            pool calls ≡ false
            → map_loop pool new (suc fuel) (old ∷ rest) size calls
              ≡ returned pool new pool_failure (old ∷ rest) size
        unfolding settle cut_before
        map_loop-tail_failed h =
            map_loop-round pool new n old rest o fuel size calls apart
            ∙ (rw
                (
                  cut_after-meets pool new old n o rest size calls (omega (arith, n.pages))
                      (omega arith),
                  cut-failed pool new old n o rest size calls
                      ((limit new - old.physical_address) / 4096) tail free tail_pages h,
                )
                refl)

        module _ (made : pool calls ≡ true) where
          first_cut :
              cut_after pool new old rest size calls
              ≡ keep body (tail ∷ rest) (incremented size) (suc calls)
          first_cut =
              cut_after-meets pool new old n o rest size calls (omega (arith, n.pages))
                (omega arith)
              ∙ cut-made pool new old n o rest size calls
                  ((limit new - old.physical_address) / 4096) tail free tail_pages made

          second_cut :
              cut_before pool new (keep body (tail ∷ rest) (incremented size) (suc calls))
              ≡ cut pool new body
                  (tail ∷ rest)
                  (incremented size)
                  (suc calls)
                  ((new.physical_address - old.physical_address) / 4096)
                  (piece body new.physical_address (limit new))
          second_cut =
              cut_before-meets pool new body n body-IsSpan rest size calls (incremented size)
                (suc calls) (tail ∷ rest) before (omega (arith, limit-body, n.pages))
              ∙ ap
                  (λ t.
                    cut pool new body (tail ∷ rest) (incremented size) (suc calls)
                      ((new.physical_address - old.physical_address) / 4096)
                      (piece body new.physical_address t))
                  limit-body

          inner_pages : 1 ≤ (piece body new.physical_address (limit new)).number_of_pages
          inner_pages = omega (arith, n.pages)

          pub map_loop-cut_twice :
              pool (suc calls) ≡ true
              → map_loop pool new (suc fuel) (old ∷ rest) size calls
                ≡ after pool new (front old new.physical_address) (
                    map_loop pool new fuel
                      (piece old new.physical_address (limit new) ∷ tail ∷ rest)
                      (incremented (incremented size))
                      (suc (suc calls)))
          map_loop-cut_twice h =
              let extra = piece body new.physical_address (limit new) in
              let small = front old new.physical_address in
              let span =
                front-IsSpan old new.physical_address o before n.aligned (omega (arith, n.low)) in
              map_loop-round pool new n old rest o fuel size calls apart
              ∙ (rw
                  (
                    first_cut,
                    second_cut,
                    cut-made pool new body n body-IsSpan (tail ∷ rest) (incremented size)
                        (suc calls) ((new.physical_address - old.physical_address) / 4096) extra
                        free inner_pages h,
                  )
                  (settle-before pool new small n span (extra ∷ tail ∷ rest)
                    (incremented (incremented size)) (suc (suc calls)) (map_loop pool new fuel)
                    before))

          pub map_loop-inner_failed :
              pool (suc calls) ≡ false
              → map_loop pool new (suc fuel) (old ∷ rest) size calls
                ≡ returned pool new pool_failure (body ∷ tail ∷ rest) (incremented size)
          unfolding settle
          map_loop-inner_failed h =
              map_loop-round pool new n old rest o fuel size calls apart
              ∙ (rw
                  (
                    first_cut,
                    second_cut,
                    cut-failed pool new body n body-IsSpan (tail ∷ rest) (incremented size)
                        (suc calls) ((new.physical_address - old.physical_address) / 4096)
                        (piece body new.physical_address (limit new)) free inner_pages h,
                  )
                  refl)
