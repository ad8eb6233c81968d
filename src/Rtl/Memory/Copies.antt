-- ===== src/Rtl/Memory/Copies.antt =====
-- What the memory holds after MoveMemory, and what SameMemory compares.
use exectos.Base.{
  ℕ, zero, suc, ◌+◌, ◌-◌, ◌≤◌, ◌<◌, ◌≡◌, refl, subst, ap, ◌∙◌, ◌&&◌, true, false, Bool-cases, inl,
  inr, ◌⊎◌, ◌≢◌, ◌==◌, ltb, leb, if◌then◌else◌, arith,
}
use exectos.Rtl.Memory.{
  Bytes, store, compare_memory, same_memory, copy_memory, copy_backward, move_memory,
}

-- The block at the destination holds what the source held, and all else is as it was.
abbrev pub IsMoved : Bytes → Bytes → ℕ → ℕ → ℕ → Type 0
IsMoved m n destination source length =
    (a : ℕ)
    → n a ≡ (
        if leb destination a && ltb a (destination + length)
        then m (source + (a - destination))
        else m a)

copy_memory-IsMoved :
    (m : Bytes) (destination source length : ℕ)
    → (ltb source destination && ltb destination (source + length)) ≡ false
    → IsMoved m (copy_memory m destination source length) destination source length
unfolding copy_memory
copy_memory-IsMoved m d s zero h a = ground arith
copy_memory-IsMoved m d s (suc length) h a =
    let n = store m d (m s) in
    copy_memory-IsMoved n (suc d) (suc s) length (ground arith) a
    ∙ ground (
      arith,
      λ (e : a ≡ d). ap m (let f : s + (a - d) ≡ s = omega arith in f),
      λ (k : d < a). ap m (let f : suc s + (a - suc d) ≡ s + (a - d) = omega arith in f),
    )

copy_backward-IsMoved :
    (m : Bytes) (destination source length : ℕ)
    → source < destination
    → IsMoved m (copy_backward m destination source length) destination source length
unfolding copy_backward
copy_backward-IsMoved m d s zero h a = ground arith
copy_backward-IsMoved m d s (suc length) h a =
    let n = store m (d + length) (m (s + length)) in
    copy_backward-IsMoved n d s length h a
    ∙ ground
        (arith, λ (e : a ≡ d + length). ap m (let f : s + (a - d) ≡ s + length = omega arith in f))

-- After MoveMemory the block at the destination holds what the source held before, however the
-- two overlap, and no other byte has changed.
pub move_memory-IsMoved :
    (m : Bytes) (destination source length : ℕ)
    → IsMoved m (move_memory m destination source length) destination source length
unfolding move_memory
move_memory-IsMoved m d s length a = elim (Bool-cases (s == 0 && d == 0)) [
  | inl null ↦ rw null (ground (arith, ap m (let f : s + (a - d) ≡ a = ground arith in f)))
  | inr some ↦ elim (Bool-cases (ltb s d && ltb d (s + length))) [
    | inl over ↦ rw (some, over) (copy_backward-IsMoved m d s length (ground arith) a)
    | inr apart ↦ rw (some, apart) (copy_memory-IsMoved m d s length apart a)
  ]
]

-- The first `length` bytes of two blocks are equal.
abbrev pub AllSame : Bytes → ℕ → ℕ → ℕ → Type 0
AllSame m left right length = (i : ℕ) → i < length → m (left + i) ≡ m (right + i)

-- CompareMemory counts equal bytes up to the first place where the blocks differ, or up to the
-- length where they do not.
pub compare_memory-AllSame :
    (m : Bytes) (left right length : ℕ)
    → let count = compare_memory m left right length in
      (count ≤ length)
      × AllSame m left right count
      × ((count ≡ length) ⊎ (m (left + count) ≢ m (right + count)))
unfolding compare_memory
compare_memory-AllSame m l r zero = (omega arith, (λ i h. absurd (omega arith)), inl refl)
compare_memory-AllSame m l r (suc length) = elim (Bool-cases (m l == m r)) [
  | inr differ ↦ rw differ (
    omega arith,
    (λ i h. absurd (omega arith)),
    inr (λ e. clash (ground arith) (
        ground (
          arith,
          ap m (let f : l + 0 ≡ l = omega arith in f),
          ap m (let f : r + 0 ≡ r = omega arith in f),
          e,
        ))),
  )
  | inl equal ↦
      let (bound, same, stop) = compare_memory-AllSame m (suc l) (suc r) length in
      rw equal (omega (arith, bound), further (ground arith) same, beyond stop)
]
  where
    clash : m l ≢ m r → m l ≡ m r → ⊥
    clash ne e = ne e

    beyond :
        {count : ℕ}
        → (count ≡ length) ⊎ (m (suc l + count) ≢ m (suc r + count))
        → (suc count ≡ suc length) ⊎ (m (l + suc count) ≢ m (r + suc count))
    beyond (inl e) = inl (ap suc e)
    beyond {count = c} (inr ne) = inr (λ e. ne (
        ap m (let f : suc l + c ≡ l + suc c = omega arith in f)
        ∙ e
        ∙ ap m (let f : r + suc c ≡ suc r + c = omega arith in f)))

    further : {count : ℕ} → m l ≡ m r → AllSame m (suc l) (suc r) count → AllSame m l r (suc count)
    further e same zero h = ground (
      arith,
      e,
      ap m (let f : l + 0 ≡ l = omega arith in f),
      ap m (let f : r + 0 ≡ r = omega arith in f),
    )
    further e same (suc i) h = ground (
      arith,
      same i (omega arith),
      ap m (let f : l + suc i ≡ suc l + i = omega arith in f),
      ap m (let f : r + suc i ≡ suc r + i = omega arith in f),
    )

-- SameMemory answers true for blocks of which all bytes are equal, and false for others.
pub same_memory-AllSame :
    (m : Bytes) (left right length : ℕ)
    → ((same_memory m left right length ≡ true) × AllSame m left right length)
      ⊎ ((same_memory m left right length ≡ false)
          × ((i : ℕ) × (i < length) × (m (left + i) ≢ m (right + i))))
unfolding same_memory
same_memory-AllSame m l r length =
    let (bound, same, stop) = compare_memory-AllSame m l r length in
    let count = compare_memory m l r length in
    elim (Bool-cases (count == length)) [
      | inl whole ↦
          let e : count ≡ length = ground arith in inl (whole, subst (AllSame m l r) e same)
      | inr part ↦ elim stop [
        | inl e ↦ absurd (ground (arith, e))
        | inr ne ↦ inr (part, (count, ground arith, ne))
      ]
    ]
