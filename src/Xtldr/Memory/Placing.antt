-- ===== src/Xtldr/Memory/Placing.antt =====
-- MapVirtualMemory on a sorted map: what its loop leaves, from the first mapping on.
use exectos.Base.{ℕ, suc, ◌≤◌, ◌<◌, ◌≡◌, ap, ◌∙◌, Bool, Option, List, ◌∷◌, arith}
use exectos.Xtldr.Memory.{Mapping, Mapped, after}
use exectos.Xtldr.Memory.Spans.{limit, type_at, IsSpan}
use exectos.Xtldr.Memory.Rounds.{
  piece, front, limit-front, front-IsSpan, limit-piece, limit-aligned,
}
use exectos.Xtldr.Memory.Outcomes.{Refines, Ends, Placed-next}

module _ (pool : ℕ → Bool) (new : Mapping) (n : IsSpan new) where
  -- A mapping in front of the new one stays, or is what is left of one.
  after-Refines :
      (from base : ℕ) (small : Mapping) (maps' maps : List Mapping) (r : Mapped)
      → from ≤ small.physical_address
      → IsSpan small
      → limit small ≤ new.physical_address
      → ((a : ℕ) → type_at (small ∷ maps') a ≡ type_at maps a)
      → Refines pool new (limit small) (suc base) maps' r
      → Refines pool new from base maps (record r { mappings = small ∷ r.mappings })
  unfolding type_at
  after-Refines from base small maps' maps r h span low same s = record {
    sorted = (h, span, s.sorted);
    counted = omega (arith, s.counted);
    types = λ e a. ground (arith, s.types e a, same a, low);
    placed = λ e. Placed-next new small r.mappings (s.placed e);
    blocked = λ e.
        let (a, t, inside, held, other) = s.blocked e in
        (a, t, inside, ground (arith, same a, held, low), other);
    refused = s.refused;
  }

  pub after-Ends :
      (from base : ℕ) (small : Mapping) (maps' maps : List Mapping) (o p : Option Mapped)
      → p ≡ after pool new small o
      → from ≤ small.physical_address
      → IsSpan small
      → limit small ≤ new.physical_address
      → ((a : ℕ) → type_at (small ∷ maps') a ≡ type_at maps a)
      → Ends pool new (limit small) (suc base) maps' o
      → Ends pool new from base maps p
  after-Ends from base small maps' maps o p e h span low same (r, done, s) = (
    record r { mappings = small ∷ r.mappings },
    e ∙ ap (after pool new small) done,
    after-Refines from base small maps' maps r h span low same s,
  )

  module _ (old : Mapping) (rest : List Mapping) (o : IsSpan old)
      (before : old.physical_address < new.physical_address) where
    pub limit-left : limit (front old new.physical_address) ≡ new.physical_address
    limit-left = limit-front old new.physical_address o before n.aligned

    pub left-IsSpan : IsSpan (front old new.physical_address)
    left-IsSpan = front-IsSpan old new.physical_address o before n.aligned (omega (arith, n.low))

    -- The pieces of a mapping have its type.
    pub type_at-two :
        new.physical_address < limit old
        → (a : ℕ)
        → type_at
            (front old new.physical_address ∷ piece old new.physical_address (limit old) ∷ rest)
            a
          ≡ type_at (old ∷ rest) a
    unfolding type_at
    type_at-two h a =
        let x = limit-left in
        let y =
          limit-piece old new.physical_address (limit old) h n.aligned (limit-aligned old o) in
        ground (arith, x, y, before)

    pub type_at-three :
        limit new < limit old
        → (a : ℕ)
        → type_at
            (front old new.physical_address
              ∷ piece old new.physical_address (limit new)
              ∷ piece old (limit new) (limit old)
              ∷ rest)
            a
          ≡ type_at (old ∷ rest) a
    unfolding type_at
    type_at-three h a =
        let x = limit-left in
        let y =
          limit-piece old new.physical_address (limit new) (omega (arith, n.pages)) n.aligned
            (limit-aligned new n) in
        let z =
          limit-piece old (limit new) (limit old) h (limit-aligned new n) (limit-aligned old o) in
        ground (arith, x, y, z, before, n.pages)
