-- ===== src/Rtl/Math/Shifts.antt =====
-- The shift of the division loop by its size.
use exectos.Base.{
  ℕ, ◌*◌, ◌^◌, ◌≤◌, ◌<◌, ◌≡◌, ap, sym, subst, inl, inr, arith, some, ltb, ◌==◌, Bool-cases,
  if◌then◌else◌,
}
use exectos.Rtl.Math.{Parts, quad_part, loops, shift_parts, shift_parts_far}
use exectos.Rtl.Math.Step.{IsParts}
use exectos.Rtl.Math.Begin.{Begins, shift_parts-Begins, begin_half}
use exectos.Rtl.Math.BeginFar.{shift_parts_far-Begins}

module _ (n d : Parts) (pn : IsParts n) (s : ℕ) where
  half_shift :
      s ≡ 32
      → quad_part n < quad_part d * 2 ^ s
      → Begins
          (quad_part n)
          (quad_part d)
          s
          (some (loops s (record { high = n.low; low = 0 }) (record { high = 0; low = n.high })))
  half_shift e lt =
      subst
        (λ t.
          Begins (quad_part n) (quad_part d) t
            (some (loops t (record { high = n.low; low = 0 }) (record { high = 0; low = n.high }))))
        (sym e)
        (begin_half n (quad_part d) pn (omega (arith, lt, ap (λ (t : ℕ). quad_part d * 2 ^ t) e)))

  pub up_to_32 :
      1 ≤ s
      → s ≤ 32
      → quad_part n < quad_part d * 2 ^ s
      → Begins (quad_part n) (quad_part d) s (
          if s == 32
          then some (loops s (record { high = n.low; low = 0 }) (record { high = 0; low = n.high }))
          else shift_parts n s)
  up_to_32 one le lt = elim (Bool-cases (s == 32)) [
    | inl e ↦ rw e (half_shift (ground arith) lt)
    | inr e ↦ rw e (shift_parts-Begins s one (ground arith) n (quad_part d) pn lt)
  ]

  pub up_to_63 :
      1 ≤ s
      → s < 64
      → quad_part n < quad_part d * 2 ^ s
      → Begins (quad_part n) (quad_part d) s (
          if s == 32
          then some (loops s (record { high = n.low; low = 0 }) (record { high = 0; low = n.high }))
          else if ltb s 32
          then shift_parts n s
          else shift_parts_far n s)
  up_to_63 one le lt = elim (Bool-cases (ltb s 32)) [
    | inl e ↦ rw e (up_to_32 one (ground arith) lt)
    | inr e ↦ rw e (elim (Bool-cases (s == 32)) [
      | inl f ↦ rw f (half_shift (ground arith) lt)
      | inr f ↦ rw f (shift_parts_far-Begins s (ground arith) le n (quad_part d) pn lt)
    ])
  ]
