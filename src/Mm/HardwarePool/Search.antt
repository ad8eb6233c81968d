-- ===== src/Mm/HardwarePool/Search.antt =====
-- The search for pages that are not in use finds the first that are.
use exectos.Base.{
  ℕ, zero, suc, ◌+◌, ◌-◌, ◌*◌, ◌/◌, ◌^◌, ◌≡◌, ◌≢◌, ◌≤◌, ◌<◌, ◌⊎◌, ◌∙◌, sym, subst, refl, ap, true,
  false, Option, none, some, ◌==◌, ltb, arith, Bool-cases, inl, inr,
}
use mathlib.Core.Bool.{true≢false}
use exectos.Word.{u64}
use exectos.Mm.HardwarePool.Mapping.{PageTable, find_pages}

-- The number of the pages of the address space.
abbrev pub all_pages : ℕ
all_pages = 2 ^ 52

module _ (table : PageTable) (n start : ℕ) where
  -- A page in use stands in the way of the `n` pages from `c` on.
  abbrev pub IsTaken : ℕ → Type 0
  IsTaken c = (i : ℕ) × ((i < n) × ((table (c + i)).valid ≡ true))

  abbrev pub IsUnused : (page count : ℕ) → Type 0
  IsUnused b k = (i : ℕ) → i < k → (table (b + i)).valid ≡ false

  -- The first pages, from `start` on, that are not in use.
  pub record IsRoom (b : ℕ) : Type 0 where
    pub from : start ≤ b
    pub below : b + n < all_pages
    pub unused : IsUnused b n
    pub first : (c : ℕ) → start ≤ c → c < b → IsTaken c

  abbrev pub NoRoom : Type 0
  NoRoom = (c : ℕ) → start ≤ c → c + n ≤ all_pages → IsTaken c

  abbrev pub Outcome : Option (Option ℕ) → Type 0
  Outcome o = ((o ≡ some none) × NoRoom) ⊎ ((b : ℕ) × ((o ≡ some (some (b * 4096))) × IsRoom b))

  page_of : (b : ℕ) → b * 4096 / 4096 ≡ b
  page_of b = omega arith

  find_pages-found :
      (fuel b m : ℕ) (address : ℕ)
      → n ≤ m
      → find_pages table n (suc fuel) b address m ≡ some (some b)
  unfolding find_pages
  find_pages-found fuel b m address h = let done : ltb m n ≡ false = ground arith in rw done refl

  find_pages-overflow :
      (fuel m address : ℕ) → m < n → find_pages table n (suc fuel) 0 address m ≡ some none
  unfolding find_pages
  find_pages-overflow fuel m address h = let more : ltb m n ≡ true = ground arith in rw more refl

  find_pages-in_use :
      (fuel b m : ℕ)
      → 1 ≤ b
      → m < n
      → (table (b + m)).valid ≡ true
      → find_pages table n (suc fuel) (b * 4096) ((b + m) * 4096) m
        ≡ find_pages table n fuel (u64 ((b + m + 1) * 4096)) (u64 ((b + m + 1) * 4096)) 0
  unfolding find_pages
  find_pages-in_use fuel b m h k used =
      let more : ltb m n ≡ true = ground arith in
      let based : (b * 4096 == 0) ≡ false = ground arith in
      let next : (b + m) * 4096 + 4096 ≡ (b + m + 1) * 4096 = omega arith in
      rw (more, based, page_of (b + m), used, next) refl

  find_pages-unused :
      (fuel b m : ℕ)
      → 1 ≤ b
      → m < n
      → (table (b + m)).valid ≡ false
      → find_pages table n (suc fuel) (b * 4096) ((b + m) * 4096) m
        ≡ find_pages table n fuel (b * 4096) (u64 ((b + m + 1) * 4096)) (suc m)
  unfolding find_pages
  find_pages-unused fuel b m h k unused =
      let more : ltb m n ≡ true = ground arith in
      let based : (b * 4096 == 0) ≡ false = ground arith in
      let next : (b + m) * 4096 + 4096 ≡ (b + m + 1) * 4096 = omega arith in
      rw (more, based, page_of (b + m), unused, next) refl

  -- Every place from `start` to before `b` is taken.
  abbrev Tried : ℕ → Type 0
  Tried b = (c : ℕ) → start ≤ c → c < b → IsTaken c

  -- Places up to a page in use are taken by it, where they reach it.
  Tried-in_use : (b m : ℕ) → m < n → Tried b → (table (b + m)).valid ≡ true → Tried (b + m + 1)
  Tried-in_use b m h tried used c from below = elim (Bool-cases (ltb c b)) [
    | inl before ↦ tried c from (ground arith)
    | inr later ↦
        let here : b + m ≡ c + (b + m - c) = ground arith in
        (b + m - c, (ground arith, subst (λ p. (table p).valid ≡ true) here used))
  ]

  IsUnused-next : (b m : ℕ) → IsUnused b m → (table (b + m)).valid ≡ false → IsUnused b (suc m)
  IsUnused-next b m unused last i h = elim (Bool-cases (i == m)) [
    | inl same ↦ let e : m ≡ i = ground arith in subst (λ p. (table (b + p)).valid ≡ false) e last
    | inr other ↦ unused i (ground arith)
  ]

  in_range : (b : ℕ) → b < all_pages → u64 (b * 4096) ≡ b * 4096
  in_range b h = omega (arith, h)

  plus_zero : (b : ℕ) → b + 0 ≡ b
  plus_zero b = omega arith

  not_top :
      (p : ℕ) → (table (all_pages - 1)).valid ≡ true → (table p).valid ≡ false → p ≢ all_pages - 1
  not_top p top free e = absurd (true≢false (sym top ∙ ap (λ q. (table q).valid) (sym e) ∙ free))

  -- The address behind the last page is 0.
  find_pages-last :
      (fuel b : ℕ)
      → b ≡ all_pages
      → 0 < n
      → 0 < fuel
      → find_pages table n fuel (u64 (b * 4096)) (u64 (b * 4096)) 0 ≡ some none
  find_pages-last zero b e h f = absurd (omega arith)
  find_pages-last (suc fuel) b e h f =
      let none_left : u64 (b * 4096) ≡ 0 = omega (arith, e) in
      rw none_left (find_pages-overflow fuel 0 0 h)

  -- Where the last page of the address space is in use, the search ends.
  pub find_pages-Outcome :
      (fuel b m : ℕ)
      → (table (all_pages - 1)).valid ≡ true
      → 1 ≤ b
      → start ≤ b
      → b + m < all_pages
      → m ≤ n
      → Tried b
      → IsUnused b m
      → all_pages - (b + m) + 1 < fuel
      → Outcome (find_pages table n fuel (b * 4096) ((b + m) * 4096) m)
  find_pages-Outcome zero b m top h from below k tried unused f = absurd (omega arith)
  find_pages-Outcome (suc fuel) b m top h from below k tried unused f =
      elim (Bool-cases (ltb m n)) [
        | inr enough ↦
            let e : m ≡ n = ground arith in
            inr (
              b,
              (
                find_pages-found fuel (b * 4096) m ((b + m) * 4096) (ground arith),
                record {
                  from = from;
                  below = ground arith;
                  unused = subst (IsUnused b) e unused;
                  first = tried;
                },
              ),
            )
        | inl more ↦ elim (Bool-cases (table (b + m)).valid) [
          | inl used ↦
              let tried_next = Tried-in_use b m (ground arith) tried used in
              elim (Bool-cases (b + m + 1 == all_pages)) [
                | inl last ↦
                    let e : b + m + 1 ≡ all_pages = ground arith in
                    inl (
                      find_pages-in_use fuel b m h (ground arith) used
                          ∙ find_pages-last fuel (b + m + 1) e (ground arith)
                              (omega (arith, f, below)),
                      λ c start_c room. tried_next c start_c (ground arith),
                    )
                | inr inner ↦
                    rw
                      (
                        find_pages-in_use fuel b m h (ground arith) used,
                        in_range (b + m + 1) (ground arith),
                      )
                      (subst
                        (λ a. Outcome (find_pages table n fuel ((b + m + 1) * 4096) (a * 4096) 0))
                        (plus_zero (b + m + 1))
                        (find_pages-Outcome fuel (b + m + 1) 0 top (omega arith) (omega arith)
                          (ground arith) (omega arith) tried_next (λ i none. absurd (omega arith))
                          (omega arith)))
              ]
          | inr free ↦
              let next : b + m + 1 ≡ b + suc m = omega arith in
              let inner : b + suc m < all_pages = omega (arith, not_top (b + m) top free, below) in
              rw
                (
                  find_pages-unused fuel b m h (ground arith) free,
                  in_range (b + m + 1) (omega arith),
                  next,
                )
                (find_pages-Outcome fuel b (suc m) top h from inner (ground arith) tried
                  (IsUnused-next b m unused free) (omega arith))
        ]
      ]
