-- ===== src/Mm/HardwarePool/Filling.antt =====
-- The entries of a range of pages, filled and cleared.
use exectos.Base.{
  ℕ, zero, suc, ◌+◌, ◌-◌, ◌*◌, ◌/◌, ◌^◌, ◌≡◌, ◌≢◌, ◌≤◌, ◌<◌, ◌⊎◌, ◌∙◌, subst, refl, ap, true, false,
  ◌==◌, arith, Bool-cases, inl, inr,
}
use exectos.Word.{u64}
use exectos.Mm.HardwarePool.Mapping.{
  Pte, PageTable, store_pte, set_pte, clear_pte, fill_entries, clear_entries,
}

pub store_pte-same : (table : PageTable) (page : ℕ) (e : Pte) → store_pte table page e page ≡ e
store_pte-same table page e = let same : (page == page) ≡ true = ground arith in rw same refl

pub store_pte-other :
    (table : PageTable) (page p : ℕ) (e : Pte) → p ≢ page → store_pte table page e p ≡ table p
store_pte-other table page p e h = let other : (p == page) ≡ false = ground arith in rw other refl

page_of : (b : ℕ) → b * 4096 / 4096 ≡ b
page_of b = omega arith

fill_entries-round :
    (n physical b : ℕ) (table : PageTable)
    → b + 1 < 2 ^ 52
    → physical + 4096 < 2 ^ 64
    → fill_entries (suc n) physical (b * 4096) table
      ≡ fill_entries n
          (physical + 4096)
          ((b + 1) * 4096)
          (store_pte table b (set_pte (table b) (physical / 4096)))
unfolding fill_entries
fill_entries-round n physical b table h k =
    let next : u64 (b * 4096 + 4096) ≡ (b + 1) * 4096 = omega (arith, h) in
    let further : u64 (physical + 4096) ≡ physical + 4096 = omega (arith, k) in
    rw (next, further, page_of b) refl

pub fill_entries-outside :
    (n physical b : ℕ) (table : PageTable) (p : ℕ)
    → b + n < 2 ^ 52
    → physical + n * 4096 < 2 ^ 64
    → (p < b) ⊎ (b + n ≤ p)
    → fill_entries n physical (b * 4096) table p ≡ table p
unfolding fill_entries
fill_entries-outside zero physical b table p h k out = refl
fill_entries-outside (suc n) physical b table p h k out =
    let there : (p ≢ b) × ((p < b + 1) ⊎ (b + 1 + n ≤ p)) = ground (arith, out) in
    rw (fill_entries-round n physical b table (omega (arith, h)) (omega (arith, k))) (
      fill_entries-outside n (physical + 4096) (b + 1)
        (store_pte table b (set_pte (table b) (physical / 4096))) p (omega (arith, h))
        (omega (arith, k)) there.1
      ∙ store_pte-other table b p _ there.0)

pub fill_entries-inside :
    (n physical b : ℕ) (table : PageTable) (p : ℕ)
    → b + n < 2 ^ 52
    → physical + n * 4096 < 2 ^ 64
    → b ≤ p
    → p < b + n
    → fill_entries n physical (b * 4096) table p ≡ set_pte (table p) (physical / 4096 + (p - b))
fill_entries-inside zero physical b table p h k from below = absurd (omega arith)
fill_entries-inside (suc n) physical b table p h k from below =
    let rest = store_pte table b (set_pte (table b) (physical / 4096)) in
    rw (fill_entries-round n physical b table (omega (arith, h)) (omega (arith, k)))
      (elim (Bool-cases (p == b)) [
        | inl same ↦
            let e : b ≡ p = ground arith in
            let frame : physical / 4096 ≡ physical / 4096 + (b - b) = omega arith in
            let done : fill_entries n (physical + 4096) ((b + 1) * 4096) rest b
                ≡ set_pte (table b) (physical / 4096 + (b - b)) =
              fill_entries-outside n (physical + 4096) (b + 1) rest b (omega (arith, h))
                (omega (arith, k)) (inl (omega arith))
              ∙ store_pte-same table b _
              ∙ ap (set_pte (table b)) frame in
            subst
              (λ q.
                fill_entries n (physical + 4096) ((b + 1) * 4096) rest q
                ≡ set_pte (table q) (physical / 4096 + (q - b)))
              e done
        | inr other ↦
            let further : p ≢ b = ground arith in
            let frame : (physical + 4096) / 4096 + (p - (b + 1)) ≡ physical / 4096 + (p - b) =
              omega (arith, from, further) in
            fill_entries-inside n (physical + 4096) (b + 1) rest p (omega (arith, h))
              (omega (arith, k)) (omega (arith, from, further)) (omega (arith, below))
            ∙ ap (λ e. set_pte e ((physical + 4096) / 4096 + (p - (b + 1))))
                (store_pte-other table b p _ further)
            ∙ ap (set_pte (table p)) frame
      ])

pub clear_entries-outside :
    (n b : ℕ) (table : PageTable) (p : ℕ)
    → (p < b) ⊎ (b + n ≤ p)
    → clear_entries n b table p ≡ table p
unfolding clear_entries
clear_entries-outside zero b table p out = refl
clear_entries-outside (suc n) b table p out =
    let there : (p ≢ b) × ((p < suc b) ⊎ (suc b + n ≤ p)) = ground (arith, out) in
    clear_entries-outside n (suc b) (store_pte table b (clear_pte (table b))) p there.1
    ∙ store_pte-other table b p _ there.0

pub clear_entries-inside :
    (n b : ℕ) (table : PageTable) (p : ℕ)
    → b ≤ p
    → p < b + n
    → (clear_entries n b table p).valid ≡ false
unfolding clear_entries clear_pte
clear_entries-inside zero b table p from below = absurd (omega arith)
clear_entries-inside (suc n) b table p from below =
    let rest = store_pte table b (clear_pte (table b)) in
    elim (Bool-cases (p == b)) [
      | inl same ↦
          let e : b ≡ p = ground arith in
          subst (λ q. (clear_entries n (suc b) rest q).valid ≡ false) e
            (ap (λ x. x.valid)
              (clear_entries-outside n (suc b) rest b (inl (omega arith))
                ∙ store_pte-same table b _))
      | inr other ↦ clear_entries-inside n (suc b) rest p (ground arith) (omega (arith, below))
    ]
