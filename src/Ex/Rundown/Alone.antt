-- ===== src/Ex/Rundown/Alone.antt =====
-- A thread that nobody disturbs.
use exectos.Base.{
  ℕ, zero, suc, ◌+◌, ◌%◌, ◌≡◌, ◌⊎◌, refl, true, false, ◌==◌, if◌then◌else◌, arith, Bool-cases, inl,
  inr,
}
use exectos.Word.{u64}
use exectos.Ex.Rundown.{Thread, acquiring, refused, holding, acquire_protection, move}

-- The thread acts `n` times, and nobody else does.
unfoldable pub alone : ℕ → ℕ → Thread → ℕ × Thread
alone zero count t = (count, t)
alone (suc n) count t = let done = move count t in alone n done.0 done.1

-- What an undisturbed attempt that has read `current` comes to, where Count is `count`.
abbrev pub Acquired : (count current : ℕ) → ℕ × Thread → Type 0
Acquired count current done =
    (((current % 2 ≡ 1) ⊎ (count % 2 ≡ 1)) × (done ≡ (count, refused)))
    ⊎ ((current % 2 ≡ 0)
        × (count % 2 ≡ 0)
        × (((count ≡ u64 (current + 2)) × (done ≡ (current, holding)))
            ⊎ ((¬ (count ≡ u64 (current + 2))) × (done ≡ (count, holding)))))

-- A round with an even value that is the present one takes the protection, and writes nothing.
acquire_protection-same :
    (count current : ℕ)
    → current % 2 ≡ 0
    → count ≡ current
    → acquire_protection count current ≡ (count, holding)
unfolding acquire_protection
acquire_protection-same count current even e =
    let odd : (current % 2 == 1) ≡ false = ground arith in
    let kept : (count == u64 (current + 2)) ≡ false = ground arith in
    let same : (count == current) ≡ true = ground arith in rw (odd, kept, same) refl

-- A round with an even value that is not the present one goes on with the present one.
acquire_protection-changed :
    (count current : ℕ)
    → current % 2 ≡ 0
    → (count == current) ≡ false
    → acquire_protection count current
      ≡ (if count == u64 (current + 2) then current else count, acquiring count)
unfolding acquire_protection
acquire_protection-changed count current even changed =
    let odd : (current % 2 == 1) ≡ false = ground arith in rw (odd, changed) refl

acquire_protection-odd :
    (count current : ℕ) → current % 2 ≡ 1 → acquire_protection count current ≡ (count, refused)
unfolding acquire_protection
acquire_protection-odd count current h =
    let odd : (current % 2 == 1) ≡ true = ground arith in rw odd refl

-- The three rounds from an even value that is not the present one, which is even too.
acquired_changed :
    (count current : ℕ)
    → current % 2 ≡ 0
    → (count == current) ≡ false
    → (count % 2 == 1) ≡ false
    → ((count ≡ u64 (current + 2)) × (alone 3 count (acquiring current) ≡ (current, holding)))
      ⊎ ((¬ (count ≡ u64 (current + 2))) × (alone 3 count (acquiring current) ≡ (count, holding)))
unfolding alone move
acquired_changed count current even changed next = elim (Bool-cases (count == u64 (current + 2))) [
  | inl hit ↦
      let kept : (current == u64 (count + 2)) ≡ false = ground arith in
      let apart : (current == count) ≡ false = ground arith in
      inl (
        ground arith,
        rw
            (
              acquire_protection-changed count current even changed,
              hit,
              acquire_protection-changed current count (ground arith) apart,
              kept,
              acquire_protection-same current current even refl,
            )
            refl,
      )
  | inr missed ↦ inr (
    (λ e. absurd (ground (arith, e, missed))),
    rw
        (
          acquire_protection-changed count current even changed,
          missed,
          acquire_protection-same count count (ground arith) refl,
        )
        refl,
  )
]

-- AcquireProtection returns after three more accesses to Count that nobody comes between, wherever
-- it is in its loop: FALSE if the value that it has read, or the present one, is of a descriptor
-- that is run down, and otherwise TRUE. It leaves Count as it is, also where it returns TRUE,
-- except where Count is the value that it has read and 2 more: then it writes the value that it
-- has read.
pub alone-acquiring :
    (count current : ℕ) → Acquired count current (alone 3 count (acquiring current))
unfolding alone move
alone-acquiring count current = elim (Bool-cases (current % 2 == 1)) [
  | inl odd ↦
      let run_down : current % 2 ≡ 1 = ground arith in
      inl (inl run_down, rw (acquire_protection-odd count current run_down) refl)
  | inr even ↦
      let even' : current % 2 ≡ 0 = ground arith in
      elim (Bool-cases (count == current)) [
        | inl same ↦ inr (
          even',
          ground arith,
          inr (
            (λ e. absurd (ground (arith, same))),
            rw (acquire_protection-same count current even' (ground arith)) refl,
          ),
        )
        | inr changed ↦ elim (Bool-cases (count % 2 == 1)) [
          | inl odd ↦
              let kept : (count == u64 (current + 2)) ≡ false = ground arith in
              let run_down : count % 2 ≡ 1 = ground arith in
              inl (
                inr run_down,
                rw
                    (
                      acquire_protection-changed count current even' changed,
                      kept,
                      acquire_protection-odd count count run_down,
                    )
                    refl,
              )
          | inr next ↦
              inr (even', (ground arith), acquired_changed count current even' changed next)
        ]
      ]
]
