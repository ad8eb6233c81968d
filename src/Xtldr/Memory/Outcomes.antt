-- ===== src/Xtldr/Memory/Outcomes.antt =====
-- What MapVirtualMemory owes the map of memory, and the ways in which its loop ends at once.
use exectos.Base.{
  ℕ, ◌+◌, ◌≤◌, ◌≡◌, refl, sym, Bool, true, false, ◌&&◌, Option, some, List, [], ◌∷◌, ◌==◌,
  if◌then◌else◌, arith, length, ◌⊎◌, inl, inr,
}
use exectos.Word.{u32}
use exectos.Xtldr.Memory.{
  Mapping, Mapped, Status, efi_success, efi_invalid_parameter, pool_failure, loader_free, within,
  incremented,
}
use exectos.Xtldr.Memory.Spans.{limit, covers, type_at, IsSpan, IsMap, IsSpan-last_byte}

-- A byte of the new mapping that has another type than free.
abbrev pub Blocked : Mapping → List Mapping → Type 0
Blocked new maps =
    (a : ℕ) × (t : ℕ) × (covers new a ≡ true)
    × (type_at maps a ≡ some t)
    × ((t == loader_free) ≡ false)

-- The type of each byte after a mapping is put over the map.
abbrev pub put_over : Mapping → List Mapping → ℕ → Option ℕ
put_over new maps a = if covers new a then some new.memory_type else type_at maps a

abbrev pub Listed : Mapping → List Mapping → Type 0
Listed m [] = ⊥
Listed m (x ∷ xs) = (x ≡ m) ⊎ Listed m xs

-- The new mapping is on the list, or lies within a mapping of the list that has its type.
abbrev pub Placed : Mapping → List Mapping → Type 0
Placed new maps =
    Listed new maps
    ⊎ ((m : Mapping) × Listed m maps
        × (m.memory_type ≡ new.memory_type)
        × (m.physical_address ≤ new.physical_address)
        × (limit new ≤ limit m))

pub Placed-next : (new x : Mapping) (maps : List Mapping) → Placed new maps → Placed new (x ∷ maps)
Placed-next new x maps (inl listed) = inl (inr listed)
Placed-next new x maps (inr (m, listed, same, low, high)) = inr (m, inr listed, same, low, high)

pub record Refines (pool : ℕ → Bool) (new : Mapping) (from base : ℕ) (maps : List Mapping)
    (r : Mapped) : Type 0 where
  pub sorted : IsMap from r.mappings
  pub counted : r.map_size ≡ u32 (base + length r.mappings)
  pub types : r.status ≡ efi_success → (a : ℕ) → type_at r.mappings a ≡ put_over new maps a
  pub placed : r.status ≡ efi_success → Placed new r.mappings
  pub blocked : r.status ≡ efi_invalid_parameter → Blocked new maps
  pub refused : r.status ≡ pool_failure → (k : ℕ) × (pool k ≡ false)

abbrev pub Ends : (ℕ → Bool) → Mapping → ℕ → ℕ → List Mapping → Option Mapped → Type 0
Ends pool new from base maps o = (r : Mapped) × (o ≡ some r) × Refines pool new from base maps r

abbrev pub result : Status → List Mapping → ℕ → Mapped
result status maps size = record { status = status; mappings = maps; map_size = size }

module _ (pool : ℕ → Bool) (new : Mapping) (from base : ℕ) (n : IsSpan new) where
  -- The new mapping is put in front of mappings that lie after it.
  pub insert-Refines :
      (maps : List Mapping) (size : ℕ)
      → from ≤ new.physical_address
      → IsMap (limit new) maps
      → size ≡ u32 (base + length maps)
      → Refines pool new from base maps (result efi_success (new ∷ maps) (incremented size))
  unfolding type_at
  insert-Refines maps size h v e = record {
    sorted = (h, n, v);
    counted = omega (arith, e);
    types = λ s a. refl;
    placed = λ s. inl (inl refl);
    blocked = λ s. absurd (ground (arith, s));
    refused = λ s. absurd (ground (arith, s));
  }

  module _ (old : Mapping) (rest : List Mapping) (size : ℕ) (v : IsMap from (old ∷ rest))
      (e : size ≡ u32 (base + length (old ∷ rest))) where
    -- The new mapping lies within one of its own type.
    pub within-Refines :
        (within pool new old && new.memory_type == old.memory_type) ≡ true
        → Refines pool new from base (old ∷ rest) (result efi_success (old ∷ rest) size)
    unfolding type_at
    within-Refines h =
        let a_last = IsSpan-last_byte new n in
        let b_last = IsSpan-last_byte old v.1 in
        let lower : old.physical_address ≤ new.physical_address = ground (arith, h) in
        let upper : limit new ≤ limit old = ground (arith, h, a_last, b_last, n.pages, v.1.pages) in
        let same : new.memory_type ≡ old.memory_type = ground (arith, h) in
        record {
          sorted = v;
          counted = e;
          types = λ s a. ground (arith, lower, upper, same);
          placed = λ s. inr (old, inl refl, sym same, lower, upper);
          blocked = λ s. absurd (ground (arith, s));
          refused = λ s. absurd (ground (arith, s));
        }

    -- The old mapping meets the new one and is not free.
    pub held-Refines :
        (a : ℕ)
        → covers new a ≡ true
        → covers old a ≡ true
        → (old.memory_type == loader_free) ≡ false
        → Refines pool new from base (old ∷ rest) (result efi_invalid_parameter (old ∷ rest) size)
    unfolding type_at
    held-Refines a h k held = record {
      sorted = v;
      counted = e;
      types = λ s. absurd (ground (arith, s));
      placed = λ s. absurd (ground (arith, s));
      blocked = λ s. (a, old.memory_type, h, (rw k refl), held);
      refused = λ s. absurd (ground (arith, s));
    }

  -- An allocation fails.
  pub failed-Refines :
      (maps now : List Mapping) (size calls : ℕ)
      → IsMap from now
      → size ≡ u32 (base + length now)
      → pool calls ≡ false
      → Refines pool new from base maps (result pool_failure now size)
  failed-Refines maps now size calls v e p = record {
    sorted = v;
    counted = e;
    types = λ s. absurd (ground (arith, s));
    placed = λ s. absurd (ground (arith, s));
    blocked = λ s. absurd (ground (arith, s));
    refused = λ s. (calls, p);
  }
