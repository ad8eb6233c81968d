-- ===== src/Xtldr/Memory/Late.antt =====
-- The loop of MapVirtualMemory from the first mapping on that does not start below the new one.
use exectos.Base.{
  ℕ, suc, ◌-◌, ◌/◌, ◌≤◌, ◌<◌, ◌≡◌, refl, ◌∙◌, Bool, true, false, ◌&&◌, List, [], ◌∷◌, ◌==◌, ltb,
  arith, Bool-cases, inl, inr,
}
use exectos.Xtldr.Memory.{
  Mapping, efi_success, efi_invalid_parameter, pool_failure, loader_free, within, incremented,
  decremented, map_loop, settle, cut_before, cut_after, returned,
}
use exectos.Xtldr.Memory.Spans.{limit, IsSpan}
use exectos.Xtldr.Memory.Rounds.{
  same_within, piece, front, limit-front, front-IsSpan, limit-aligned, cut_after-apart,
  cut_after-meets, cut_before-apart, cut-held, cut-none, cut-made, cut-failed, settle-beyond,
  settle-held, settle-dropped,
}

module _ (pool : ℕ → Bool) (new : Mapping) (n : IsSpan new) where
  pub map_loop-nil :
      (fuel size calls : ℕ)
      → map_loop pool new (suc fuel) [] size calls
        ≡ returned pool new efi_success (new ∷ []) (incremented size)
  unfolding map_loop
  map_loop-nil fuel size calls = refl

  pub map_loop-within :
      (old : Mapping) (rest : List Mapping) (fuel size calls : ℕ)
      → (within pool new old && new.memory_type == old.memory_type) ≡ true
      → map_loop pool new (suc fuel) (old ∷ rest) size calls
        ≡ returned pool new efi_success (old ∷ rest) size
  unfolding map_loop
  map_loop-within old rest fuel size calls h = rw h refl

  module _ (old : Mapping) (rest : List Mapping) (o : IsSpan old) (fuel size calls : ℕ)
      (apart : same_within pool new old n o rest size calls ≡ false) where
    -- What a round does where the mapping is not one that holds the new one.
    pub map_loop-round :
        map_loop pool new (suc fuel) (old ∷ rest) size calls
        ≡ settle pool new
            (map_loop pool new fuel)
            (cut_before pool new (cut_after pool new old rest size calls))
    unfolding map_loop
    map_loop-round = rw apart refl

    -- A mapping that starts after the new one.
    pub map_loop-beyond :
        limit new ≤ old.physical_address
        → map_loop pool new (suc fuel) (old ∷ rest) size calls
          ≡ returned pool new efi_success (new ∷ old ∷ rest) (incremented size)
    map_loop-beyond h =
        map_loop-round
        ∙ (rw
            (
              cut_after-apart pool new old n o rest size calls (inl h),
              cut_before-apart pool new old n o rest size calls size calls rest
                  (inl (omega (arith, n.pages))),
            )
            (settle-beyond pool new old n o rest size calls (map_loop pool new fuel) h))

    module _ (lower : new.physical_address ≤ old.physical_address)
        (meets : old.physical_address < limit new) where
      -- A mapping that ends no later than the new one is dropped, where it is free.
      pub map_loop-dropped :
          (old.memory_type == loader_free) ≡ true
          → limit old ≤ limit new
          → map_loop pool new (suc fuel) (old ∷ rest) size calls
            ≡ map_loop pool new fuel rest (decremented size) calls
      map_loop-dropped free upper =
          let more = map_loop pool new fuel in
          let dropped = settle-dropped pool new old n o rest size calls more lower upper free in
          elim (Bool-cases (ltb (limit old) (limit new))) [
            | inl less ↦
                map_loop-round
                ∙ (rw
                    (
                      cut_after-apart pool new old n o rest size calls (inr (ground arith)),
                      cut_before-apart pool new old n o rest size calls size calls rest (inl lower),
                    )
                    dropped)
            | inr same ↦
                let e : limit new ≡ limit old = ground arith in
                let whole : (limit new - old.physical_address) / 4096 ≡ old.number_of_pages =
                  omega (arith, e) in
                let nothing : (piece old (limit new) (limit old)).number_of_pages ≡ 0 =
                  omega (arith, e) in
                map_loop-round
                ∙ (rw
                    (
                      cut_after-meets pool new old n o rest size calls meets (omega (arith, e)),
                      cut-none pool new old n o rest size calls
                          ((limit new - old.physical_address) / 4096)
                          (piece old (limit new) (limit old)) free nothing,
                      whole,
                      cut_before-apart pool new old n o rest size calls size calls rest (inl lower),
                    )
                    dropped)
          ]

      -- A mapping that is not free ends the call.
      pub map_loop-held :
          (old.memory_type == loader_free) ≡ false
          → map_loop pool new (suc fuel) (old ∷ rest) size calls
            ≡ returned pool new efi_invalid_parameter (old ∷ rest) size
      unfolding cut_before settle
      map_loop-held held = elim (Bool-cases (ltb (limit old) (limit new))) [
        | inl less ↦
            map_loop-round
            ∙ (rw
                (
                  cut_after-apart pool new old n o rest size calls (inr (ground arith)),
                  cut_before-apart pool new old n o rest size calls size calls rest (inl lower),
                )
                (settle-held pool new old n o rest size calls (map_loop pool new fuel) lower
                  (ground arith) held))
        | inr more ↦
            map_loop-round
            ∙ (rw
                (
                  cut_after-meets pool new old n o rest size calls meets (ground arith),
                  cut-held pool new old n o rest size calls
                      ((limit new - old.physical_address) / 4096)
                      (piece old (limit new) (limit old)) held,
                )
                refl)
      ]

      module _ (free : (old.memory_type == loader_free) ≡ true)
          (upper : limit new < limit old) where
        extra_pages : 1 ≤ (piece old (limit new) (limit old)).number_of_pages
        extra_pages = omega (arith, limit-aligned new n, limit-aligned old o)

        -- A free mapping that ends after the new one is replaced by its part after it.
        pub map_loop-split :
            pool calls ≡ true
            → map_loop pool new (suc fuel) (old ∷ rest) size calls
              ≡ map_loop pool new fuel
                  (piece old (limit new) (limit old) ∷ rest)
                  (decremented (incremented size))
                  (suc calls)
        map_loop-split h =
            let extra = piece old (limit new) (limit old) in
            let small = front old (limit new) in
            let span = front-IsSpan old (limit new) o meets (limit-aligned new n) n.low in
            let ends : limit small ≡ limit new =
              limit-front old (limit new) o meets (limit-aligned new n) in
            map_loop-round
            ∙ (rw
                (
                  cut_after-meets pool new old n o rest size calls meets (omega arith),
                  cut-made pool new old n o rest size calls
                      ((limit new - old.physical_address) / 4096) extra free extra_pages h,
                  cut_before-apart pool new small n span rest size calls (incremented size)
                      (suc calls) (extra ∷ rest) (inl lower),
                )
                (settle-dropped pool new small n span (extra ∷ rest) (incremented size) (suc calls)
                  (map_loop pool new fuel) lower (omega (arith, ends)) free))

        pub map_loop-failed :
            pool calls ≡ false
            → map_loop pool new (suc fuel) (old ∷ rest) size calls
              ≡ returned pool new pool_failure (old ∷ rest) size
        unfolding cut_before settle
        map_loop-failed h =
            map_loop-round
            ∙ (rw
                (
                  cut_after-meets pool new old n o rest size calls meets (omega arith),
                  cut-failed pool new old n o rest size calls
                      ((limit new - old.physical_address) / 4096)
                      (piece old (limit new) (limit old)) free extra_pages h,
                )
                refl)
