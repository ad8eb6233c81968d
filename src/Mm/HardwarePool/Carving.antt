-- ===== src/Mm/HardwarePool/Carving.antt =====
-- What stands in place of a descriptor that pages are taken from.
use exectos.Base.{
  ℕ, ◌+◌, ◌-◌, ◌^◌, ◌≡◌, ◌≤◌, subst, ap, false, List, ◌==◌, arith, Bool-cases, inl, inr,
}
use exectos.Mm.HardwarePool.{MemoryDescriptor, loader_free, loader_hardware_cached_memory, carve}
use exectos.Mm.HardwarePool.Coverage.{covered, covering, Taken, piece, pieces-Taken, inside_split}
use exectos.Mm.HardwarePool.Pieces.{
  AllRange, free_piece, used_piece, plus_zero, carve-both, carve-before, carve-after, carve-whole,
}

-- What is needed of the pieces: the pages taken are the hardware's, the others stay as they were,
-- and each new descriptor is counted.
pub record IsCarved (kind_of : ℕ → ℕ → ℕ → Type 0) (done : List MemoryDescriptor × ℕ) : Type 0 where
  pub taken : (kind q : ℕ) → kind_of kind q (covering kind q done.0)
  pub ranges : AllRange done.0
  pub some_used : 1 ≤ done.1
  pub few_used : done.1 ≤ 2

abbrev pub Carved : (base count n a : ℕ) → List MemoryDescriptor × ℕ → Type 0
Carved base count n a done =
    IsCarved
      (λ kind q after. Taken (base + a) n kind q (covered kind q (free_piece base count)) after)
      done

covered-nothing : (base kind q n : ℕ) → covered kind q (piece base 0 n) ≡ 0
covered-nothing base kind q n = ground arith

-- The same pieces without the empty ones.
both-Carved :
    (base n a rest : ℕ)
    → 1 ≤ base
    → 1 ≤ n
    → 1 ≤ a
    → 1 ≤ rest
    → base + (a + n + rest) ≤ 2 ^ 32
    → Carved base (a + n + rest) n a (carve n a (free_piece base (a + n + rest)))
both-Carved base n a rest b m h k r = rw (carve-both base n a rest b m h k r) (record {
  taken = λ kind q. omega (arith, pieces-Taken base a n rest kind q);
  ranges = (omega arith, (omega arith, (omega arith, tt)));
  some_used = omega arith;
  few_used = omega arith;
})

before-Carved :
    (base n a : ℕ)
    → 1 ≤ base
    → 1 ≤ n
    → 1 ≤ a
    → base + (a + n) ≤ 2 ^ 32
    → Carved base (a + n) n a (carve n a (free_piece base (a + n)))
before-Carved base n a b m h r = rw (carve-before base n a b m h r) (record {
  taken = λ kind q. omega (
    arith,
    pieces-Taken base a n 0 kind q,
    covered-nothing (base + a + n) kind q loader_free,
    ap (λ c. covered kind q (free_piece base c)) (plus_zero (a + n)),
  );
  ranges = (omega arith, (omega arith, tt));
  some_used = omega arith;
  few_used = omega arith;
})

next-Taken :
    (base n rest kind q : ℕ)
    → Taken base n kind q
        (covered kind q (free_piece base (n + rest)))
        (covered kind q (used_piece base n) + covered kind q (free_piece (base + n) rest))
next-Taken base n rest kind q =
    let split = inside_split base n rest q in
    elim (Bool-cases (loader_free == kind)) [
      | inl free ↦
          let other : (loader_hardware_cached_memory == kind) ≡ false = ground arith in
          rw (free, other) (omega (arith, split))
      | inr used ↦ rw used (omega arith)
    ]

after-Carved :
    (base n rest : ℕ)
    → 1 ≤ base
    → 1 ≤ n
    → 1 ≤ rest
    → base + (n + rest) ≤ 2 ^ 32
    → Carved base (n + rest) n 0 (carve n 0 (free_piece base (n + rest)))
after-Carved base n rest b m k r = rw (carve-after base n rest b m k r) (record {
  taken = λ kind q. rw (plus_zero base) (omega (arith, next-Taken base n rest kind q));
  ranges = (omega arith, (omega arith, tt));
  some_used = omega arith;
  few_used = omega arith;
})

whole-Carved :
    (base n : ℕ)
    → 1 ≤ base
    → 1 ≤ n
    → base + n ≤ 2 ^ 32
    → Carved base n n 0 (carve n 0 (free_piece base n))
whole-Carved base n b m r = rw (carve-whole base n b m r) (record {
  taken = λ kind q. rw (plus_zero base) (
      omega (
        arith,
        next-Taken base n 0 kind q,
        covered-nothing (base + n) kind q loader_free,
        ap (λ c. covered kind q (free_piece base c)) (plus_zero n),
      ));
  ranges = (omega arith, tt);
  some_used = omega arith;
  few_used = omega arith;
})

pub carve-Carved :
    (base count n a : ℕ)
    → 1 ≤ base
    → 1 ≤ n
    → a + n ≤ count
    → base + count ≤ 2 ^ 32
    → Carved base count n a (carve n a (free_piece base count))
carve-Carved base count n a b m h r =
    let Goal : ℕ → ℕ → Type 0 = λ c x. Carved base c n x (carve n x (free_piece base c)) in
    elim (Bool-cases (a == 0)) [
      | inl none ↦
          let start : 0 ≡ a = ground arith in
          subst (Goal count) start (elim (Bool-cases (count == n)) [
            | inl whole ↦
                let end : n ≡ count = ground arith in
                subst (λ c. Goal c 0) end (whole-Carved base n b m (omega (arith, end)))
            | inr more ↦
                let end : n + (count - n) ≡ count = ground arith in
                subst (λ c. Goal c 0) end
                  (after-Carved base n (count - n) b m (ground arith) (omega (arith, end)))
          ])
      | inr some ↦ elim (Bool-cases (count == a + n)) [
        | inl whole ↦
            let end : a + n ≡ count = ground arith in
            subst (λ c. Goal c a) end
              (before-Carved base n a b m (ground arith) (omega (arith, end)))
        | inr more ↦
            let end : a + n + (count - (a + n)) ≡ count = ground arith in
            subst (λ c. Goal c a) end
              (both-Carved base n a (count - (a + n)) b m (ground arith) (ground arith)
                (omega (arith, end)))
      ]
    ]
