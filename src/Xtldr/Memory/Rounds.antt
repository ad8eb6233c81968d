-- ===== src/Xtldr/Memory/Rounds.antt =====
-- One round of the loop of MapVirtualMemory, by how the new mapping and the old one lie.
use exectos.Base.{
  ℕ, suc, ◌+◌, ◌-◌, ◌/◌, ◌%◌, ◌^◌, ◌≤◌, ◌<◌, ◌≡◌, refl, Bool, true, false, ◌&&◌, Option, List, ◌∷◌,
  ◌==◌, ltb, leb, arith, ◌⊎◌,
}
use exectos.Xtldr.Memory.{
  Mapping, Mapped, keep, stopped, last_byte, efi_success, efi_invalid_parameter, pool_failure,
  loader_free, cut, cut_after, cut_before, settle, within, replaced, returned, after, incremented,
  decremented,
}
use exectos.Xtldr.Memory.Spans.{limit, IsSpan, IsSpan-last_byte}

-- The part of a mapping between two places, as a mapping of its own and as what is left.
abbrev pub piece : Mapping → ℕ → ℕ → Mapping
piece m first last = record {
  virtual_address = 0;
  physical_address = first;
  number_of_pages = (last - first) / 4096;
  memory_type = m.memory_type;
}

abbrev pub front : Mapping → ℕ → Mapping
front m last = record m { number_of_pages = (last - m.physical_address) / 4096 }

pub limit-front :
    (m : Mapping) (last : ℕ)
    → IsSpan m
    → m.physical_address < last
    → last % 4096 ≡ 0
    → limit (front m last) ≡ last
limit-front m last s h e = omega (arith, s.aligned)

pub front-IsSpan :
    (m : Mapping) (last : ℕ)
    → IsSpan m
    → m.physical_address < last
    → last % 4096 ≡ 0
    → last ≤ 2 ^ 63
    → IsSpan (front m last)
front-IsSpan m last s h e k = record {
  pages = omega (arith, s.aligned);
  aligned = s.aligned;
  low = omega (arith, s.aligned);
}

pub limit-piece :
    (m : Mapping) (first last : ℕ)
    → first < last
    → first % 4096 ≡ 0
    → last % 4096 ≡ 0
    → limit (piece m first last) ≡ last
limit-piece m first last h e f = omega arith

pub piece-IsSpan :
    (m : Mapping) (first last : ℕ)
    → first < last
    → first % 4096 ≡ 0
    → last % 4096 ≡ 0
    → last ≤ 2 ^ 63
    → IsSpan (piece m first last)
piece-IsSpan m first last h e f k = record { pages = omega arith; aligned = e; low = omega arith }

pub limit-aligned : (m : Mapping) → IsSpan m → limit m % 4096 ≡ 0
limit-aligned m s = omega (arith, s.aligned)

module _ (pool : ℕ → Bool) (new old : Mapping) (n : IsSpan new) (o : IsSpan old)
    (rest : List Mapping) (size calls : ℕ) where
  abbrev pub same_within : Bool
  same_within = within pool new old && new.memory_type == old.memory_type

  new_last : last_byte new ≡ limit new - 1
  new_last = IsSpan-last_byte new n

  old_last : last_byte old ≡ limit old - 1
  old_last = IsSpan-last_byte old o

  -- The first cut.
  pub cut_after-apart :
      (limit new ≤ old.physical_address) ⊎ (limit old < limit new)
      → cut_after pool new old rest size calls ≡ keep old rest size calls
  unfolding cut_after
  cut_after-apart h =
      let test : (ltb old.physical_address (last_byte new) && leb (last_byte new) (last_byte old))
          ≡ false =
        ground (arith, new_last, old_last, n.pages, o.pages) in
      rw test refl

  module _ (meets : old.physical_address < limit new) (ends : limit new ≤ limit old) where
    pub cut_after-meets :
        cut_after pool new old rest size calls
        ≡ cut pool new old rest size calls
            ((limit new - old.physical_address) / 4096)
            (piece old (limit new) (limit old))
    unfolding cut_after
    cut_after-meets =
        let test : (ltb old.physical_address (last_byte new) && leb (last_byte new) (last_byte old))
            ≡ true =
          ground (arith, new_last, old_last, n.pages, o.pages, n.aligned, o.aligned) in
        let next : last_byte new + 1 ≡ limit new = omega (arith, new_last, n.pages) in
        let left : last_byte old - last_byte new ≡ limit old - limit new =
          omega (arith, new_last, old_last, n.pages, o.pages) in
        rw (test, next, left) refl

  -- The second cut.
  module _ (size' calls' : ℕ) (rest' : List Mapping) where
    pub cut_before-apart :
        (new.physical_address ≤ old.physical_address) ⊎ (limit old ≤ new.physical_address)
        → cut_before pool new (keep old rest' size' calls') ≡ keep old rest' size' calls'
    unfolding cut_before
    cut_before-apart h =
        let test : (ltb old.physical_address new.physical_address
              && ltb new.physical_address (last_byte old))
            ≡ false =
          ground (arith, old_last, o.pages) in
        rw test refl

    pub cut_before-meets :
        old.physical_address < new.physical_address
        → new.physical_address < limit old
        → cut_before pool new (keep old rest' size' calls')
          ≡ cut pool new old rest' size' calls'
              ((new.physical_address - old.physical_address) / 4096)
              (piece old new.physical_address (limit old))
    unfolding cut_before
    cut_before-meets h k =
        let test : (ltb old.physical_address new.physical_address
              && ltb new.physical_address (last_byte old))
            ≡ true =
          ground (arith, old_last, o.pages, n.aligned, o.aligned) in
        let next : last_byte old + 1 ≡ limit old = omega (arith, old_last, o.pages) in
        rw (test, next) refl

  -- A cut, by whether the old mapping is free and what is left of it.
  module _ (pages : ℕ) (extra : Mapping) where
    pub cut-held :
        (old.memory_type == loader_free) ≡ false
        → cut pool new old rest size calls pages extra ≡ stopped efi_invalid_parameter old rest size
    unfolding cut
    cut-held h = rw h refl

    module _ (free : (old.memory_type == loader_free) ≡ true) where
      pub cut-none :
          extra.number_of_pages ≡ 0
          → cut pool new old rest size calls pages extra
            ≡ keep (record old { number_of_pages = pages }) rest size calls
      unfolding cut
      cut-none h = rw (free, h) refl

      module _ (more : 1 ≤ extra.number_of_pages) where
        some_pages : (extra.number_of_pages == 0) ≡ false
        some_pages = ground arith

        pub cut-made :
            pool calls ≡ true
            → cut pool new old rest size calls pages extra
              ≡ keep
                  (record old { number_of_pages = pages })
                  (extra ∷ rest)
                  (incremented size)
                  (suc calls)
        unfolding cut
        cut-made h = rw (free, some_pages, h) refl

        pub cut-failed :
            pool calls ≡ false
            → cut pool new old rest size calls pages extra ≡ stopped pool_failure old rest size
        unfolding cut
        cut-failed h = rw (free, some_pages, h) refl

  module _ (more : List Mapping → ℕ → ℕ → Option Mapped) where
    pub settle-beyond :
        limit new ≤ old.physical_address
        → settle pool new more (keep old rest size calls)
          ≡ returned pool new efi_success (new ∷ old ∷ rest) (incremented size)
    unfolding settle
    settle-beyond h =
        let test : replaced pool new old ≡ false =
          ground (arith, new_last, old_last, n.pages, o.pages) in
        let order : ltb new.physical_address old.physical_address ≡ true =
          ground (arith, n.pages) in
        rw (test, order) refl

    pub settle-before :
        old.physical_address < new.physical_address
        → settle pool new more (keep old rest size calls)
          ≡ after pool new old (more rest size calls)
    unfolding settle
    settle-before h =
        let test : replaced pool new old ≡ false = ground (arith, n.pages, o.pages) in
        let order : ltb new.physical_address old.physical_address ≡ false = ground arith in
        rw (test, order) refl

    module _ (lower : new.physical_address ≤ old.physical_address)
        (upper : limit old ≤ limit new) where
      inside : replaced pool new old ≡ true
      inside = ground (arith, new_last, old_last, n.pages, o.pages)

      pub settle-held :
          (old.memory_type == loader_free) ≡ false
          → settle pool new more (keep old rest size calls)
            ≡ returned pool new efi_invalid_parameter (old ∷ rest) size
      unfolding settle
      settle-held h = rw (inside, h) refl

      pub settle-dropped :
          (old.memory_type == loader_free) ≡ true
          → settle pool new more (keep old rest size calls) ≡ more rest (decremented size) calls
      unfolding settle
      settle-dropped h = rw (inside, h) refl
