-- ===== src/Rtl/LinkedList/Query.antt =====
-- ListEmpty, GetFirstEntry and ListLoop.
use native.Mathlib.Decide.{dec_lt}
use exectos.Base.{
  ℕ, zero, suc, ◌+◌, ◌-◌, ◌≤◌, ◌<◌, ◌≡◌, refl, ◌∙◌, ap, ap₂, sym, subst, inl, inr, Bool, true,
  false, some, List, [], ◌∷◌, arith, ◌==◌, ==_iff, length, Bool-cases, if◌then◌else◌,
}
use exectos.Rtl.LinkedList.{
  Ptr, nullptr, Memory, ok, read_flink, read_flink-ok, list_empty, get_first_entry, list_loop,
  list_loop_from,
}
use exectos.Rtl.LinkedList.Rings.{has, IsRing, Links, first_or, flink-first, has-first}

abbrev pub is_nil : List Ptr → Bool
is_nil [] = true
is_nil (x ∷ xs) = false

module _ (m : Memory) (head : Ptr) (xs : List Ptr) (ring : IsRing m head xs)
    (null : m.mapped nullptr ≡ false) where
  ring-ne-null : (a : Ptr) → has a (head ∷ xs) ≡ true → (a == nullptr) ≡ false
  ring-ne-null a h = ground (arith, ring.live a h)

  -- ListEmpty tells whether a ring has no entry besides its head, and changes nothing.
  pub list_empty-IsRing : list_empty head m ≡ ok (is_nil xs) m
  unfolding list_empty
  list_empty-IsRing =
      rw
        (
          read_flink-ok m head (ring.live head (ground arith)),
          flink-first m head xs head ring.links,
          ring-ne-null (first_or head xs) (has-first head xs),
          read_flink-ok m head (ring.live head (ground arith)),
          flink-first m head xs head ring.links,
        )
        (first-eq xs (ground (arith, ring.unique)))
    where
      first-eq :
          (ys : List Ptr) → has head ys ≡ false → ok (first_or head ys == head) m ≡ ok (is_nil ys) m
      first-eq [] u = ground arith
      first-eq (y ∷ ys) u = ground arith

  -- GetFirstEntry returns the first entry, or NULLPTR for an empty list, and changes nothing.
  pub get_first_entry-IsRing : get_first_entry head m ≡ ok (first_or nullptr xs) m
  unfolding get_first_entry
  get_first_entry-IsRing = rw list_empty-IsRing (pick xs ring.links)
    where
      pick :
          (ys : List Ptr)
          → Links m head ys head
          → (if is_nil ys then ok nullptr else read_flink head) m ≡ ok (first_or nullptr ys) m
      pick [] l = refl
      pick (y ∷ ys) l = rw (read_flink-ok m head (ring.live head (ground arith)), l.0)

-- The entry `n` links further.
abbrev pub walk : Memory → ℕ → Ptr → Ptr
walk m zero p = p
walk m (suc n) p = walk m n (m.flink p)

walk-suc : (m : Memory) (n : ℕ) (p : Ptr) → walk m (suc n) p ≡ m.flink (walk m n p)
walk-suc m zero p = refl
walk-suc m (suc n) p = walk-suc m n (m.flink p)

walk-add : (m : Memory) (n k : ℕ) (p : Ptr) → walk m (n + k) p ≡ walk m k (walk m n p)
walk-add m zero k p = ap (λ t. walk m t p) (let e : 0 + k ≡ k = omega arith in e)
walk-add m (suc n) k p =
    ap (λ t. walk m t p) (let e : suc n + k ≡ suc (n + k) = omega arith in e)
    ∙ walk-add m n k (m.flink p)

walk-Links :
    (m : Memory) (p : Ptr) (xs : List Ptr) (q : Ptr)
    → Links m p xs q
    → walk m (suc (length xs)) p ≡ q
walk-Links m p [] q l = l.0
walk-Links m p (x ∷ xs) q (e, _, l) = ap (walk m (suc (length xs))) e ∙ walk-Links m x xs q l

-- One round of the loop, where both pointers and what they point at are entries.
list_loop_from-step :
    (m : Memory) (fuel : ℕ) (slow fast : Ptr)
    → (slow == nullptr) ≡ false
    → (fast == nullptr) ≡ false
    → m.mapped slow ≡ true
    → m.mapped fast ≡ true
    → (m.flink fast == nullptr) ≡ false
    → m.mapped (m.flink fast) ≡ true
    → list_loop_from (suc fuel) slow fast m ≡ (
        if m.flink slow == m.flink (m.flink fast)
        then ok (some true) m
        else list_loop_from fuel (m.flink slow) (m.flink (m.flink fast)) m)
unfolding list_loop_from
list_loop_from-step m fuel slow fast a b c d e f =
    rw
      (
        a,
        b,
        read_flink-ok m fast d,
        e,
        read_flink-ok m slow c,
        read_flink-ok m fast d,
        read_flink-ok m (m.flink fast) f,
      )
      (split (m.flink slow == m.flink (m.flink fast)))
  where
    split :
        (t : Bool)
        → (if t
              then ok (some true)
              else list_loop_from fuel (m.flink slow) (m.flink (m.flink fast)))
            m
          ≡ (if t
              then ok (some true) m
              else list_loop_from fuel (m.flink slow) (m.flink (m.flink fast)) m)
    split true = refl
    split false = refl

-- A round of the loop whose pointers are `i` and `2 i` links from the start.
list_loop_from-walk :
    (m : Memory) (p : Ptr) (fuel i : ℕ)
    → ((j : ℕ) → j ≤ i + i + 1 → (walk m j p == nullptr) ≡ false)
    → ((j : ℕ) → j ≤ i + i + 1 → m.mapped (walk m j p) ≡ true)
    → list_loop_from (suc fuel) (walk m i p) (walk m (i + i) p) m ≡ (
        if walk m (suc i) p == walk m (suc i + suc i) p
        then ok (some true) m
        else list_loop_from fuel (walk m (suc i) p) (walk m (suc i + suc i) p) m)
list_loop_from-walk m p fuel i ne live =
    let one : m.flink (walk m (i + i) p) ≡ walk m (i + i + 1) p =
      sym (walk-suc m (i + i) p)
      ∙ ap (λ t. walk m t p) (let e : suc (i + i) ≡ i + i + 1 = omega arith in e) in
    let two : m.flink (walk m (i + i + 1) p) ≡ walk m (suc i + suc i) p =
      sym (walk-suc m (i + i + 1) p)
      ∙ ap (λ t. walk m t p) (let e : suc (i + i + 1) ≡ suc i + suc i = omega arith in e) in
    let slow : m.flink (walk m i p) ≡ walk m (suc i) p = sym (walk-suc m i p) in
    let fast : m.flink (m.flink (walk m (i + i) p)) ≡ walk m (suc i + suc i) p =
      ap m.flink one ∙ two in
    list_loop_from-step m fuel (walk m i p) (walk m (i + i) p) (ne i (omega arith))
      (ne (i + i) (omega arith)) (live i (omega arith)) (live (i + i) (omega arith))
      (subst (λ a. (a == nullptr) ≡ false) (sym one) (ne (i + i + 1) (omega arith)))
      (subst (λ a. m.mapped a ≡ true) (sym one) (live (i + i + 1) (omega arith)))
    ∙ ap₂ (λ a b. if a == b then ok (some true) m else list_loop_from fuel a b m) slow fast

flink-has :
    (m : Memory) (p : Ptr) (xs : List Ptr) (q a : Ptr)
    → Links m p xs q
    → has a (p ∷ xs) ≡ true
    → has (m.flink a) (q ∷ xs) ≡ true
flink-has m p [] q a l h = ground arith
flink-has m p (x ∷ xs) q a (e, _, l) h = ground (arith, flink-has m x xs q a l)

module _ (m : Memory) (head : Ptr) (xs : List Ptr) (ring : IsRing m head xs)
    (null : m.mapped nullptr ≡ false) where
  walk-has : (i : ℕ) → has (walk m i head) (head ∷ xs) ≡ true
  walk-has zero = ground arith
  walk-has (suc i) =
      subst (λ a. has a (head ∷ xs) ≡ true) (sym (walk-suc m i head))
        (flink-has m head xs head (walk m i head) ring.links (walk-has i))

  walk-ne-null : (i : ℕ) → (walk m i head == nullptr) ≡ false
  walk-ne-null i = ring-ne-null m head xs ring null (walk m i head) (walk-has i)

  walk-live : (i : ℕ) → m.mapped (walk m i head) ≡ true
  walk-live i = ring.live (walk m i head) (walk-has i)

  walk_around : walk m (suc (length xs)) head ≡ head
  walk_around = walk-Links m head xs head ring.links

  walk_around_twice : (n : ℕ) → n ≡ suc (length xs) → walk m n head ≡ walk m (n + n) head
  walk_around_twice n e =
      let once : walk m n head ≡ head = rw e walk_around in
      once ∙ sym once ∙ ap (walk m n) (sym once) ∙ sym (walk-add m n n head)

  -- After `i` rounds the pointers are `i` and `2 i` links from the head.
  list_loop_from-IsRing :
      (fuel i : ℕ)
      → i ≤ length xs
      → length xs < i + fuel
      → list_loop_from fuel (walk m i head) (walk m (i + i) head) m ≡ ok (some true) m
  list_loop_from-IsRing zero i h k = absurd (omega arith)
  list_loop_from-IsRing (suc fuel) i h k =
      list_loop_from-walk m head fuel i (λ j _. walk-ne-null j) (λ j _. walk-live j)
      ∙ elim (Bool-cases (walk m (suc i) head == walk m (suc i + suc i) head)) [
        | inl met ↦ rw met
        | inr apart ↦ rw apart (
            list_loop_from-IsRing fuel (suc i)
              (ground (arith, λ (e : i ≡ length xs). walk_around_twice (suc i) (ap suc e)))
              (omega arith))
      ]

  -- ListLoop finds the loop in every ring, whatever its length, within as many rounds as the ring
  -- has entries.
  pub list_loop-IsRing : (fuel : ℕ) → length xs < fuel → list_loop fuel head m ≡ ok (some true) m
  unfolding list_loop
  list_loop-IsRing fuel h =
      rw (walk-ne-null 0) (list_loop_from-IsRing fuel 0 (omega arith) (omega arith))

module _ (m : Memory) (fuel : ℕ) (slow fast : Ptr) where
  list_loop_from-fast_null :
      (fast == nullptr) ≡ true → list_loop_from (suc fuel) slow fast m ≡ ok (some false) m
  unfolding list_loop_from
  list_loop_from-fast_null h = elim (Bool-cases (slow == nullptr)) [
    | inl e ↦ rw e
    | inr e ↦ rw (e, h)
  ]

  list_loop_from-next_null :
      (slow == nullptr) ≡ false
      → (fast == nullptr) ≡ false
      → m.mapped fast ≡ true
      → (m.flink fast == nullptr) ≡ true
      → list_loop_from (suc fuel) slow fast m ≡ ok (some false) m
  unfolding list_loop_from
  list_loop_from-next_null a b c d = rw (a, b, read_flink-ok m fast c, d)

-- From `p` the links lead through `n` entries to NULLPTR.
pub record IsEnded (m : Memory) (p : Ptr) (n : ℕ) : Type 0 where
  pub ends : walk m n p ≡ nullptr
  pub before : (j : ℕ) → j < n → (walk m j p == nullptr) ≡ false
  pub live : (j : ℕ) → j < n → m.mapped (walk m j p) ≡ true

module _ (m : Memory) (p : Ptr) (n : ℕ) (ended : IsEnded m p n) where
  -- Two positions of an ended walk that differ hold different pointers.
  walk-injective : (i j : ℕ) → i < j → j ≤ n → (walk m i p == walk m j p) ≡ false
  walk-injective i j h k = elim (Bool-cases (walk m i p == walk m j p)) [
    | inr ne ↦ ne
    | inl eq ↦
        let same : walk m i p ≡ walk m j p = (==_iff _ _).0 eq in
        let null : walk m (i + (n - j)) p ≡ nullptr =
          walk-add m i (n - j) p
          ∙ ap (walk m (n - j)) same
          ∙ sym (walk-add m j (n - j) p)
          ∙ ap (λ t. walk m t p) (let e : j + (n - j) ≡ n = omega arith in e)
          ∙ ended.ends in
        absurd (ground (arith, ended.before (i + (n - j))))
  ]

  reaches-null : (j : ℕ) → j ≡ n → (walk m j p == nullptr) ≡ true
  reaches-null j e = ground (arith, ap (λ t. walk m t p) e, ended.ends)

  list_loop_from-IsEnded :
      (fuel i : ℕ)
      → i + i ≤ n
      → n < i + fuel
      → list_loop_from fuel (walk m i p) (walk m (i + i) p) m ≡ ok (some false) m
  list_loop_from-IsEnded zero i h k = absurd (omega arith)
  list_loop_from-IsEnded (suc fuel) i h k = elim (dec_lt (i + i) n) [
    | no stop ↦
        list_loop_from-fast_null m fuel (walk m i p) (walk m (i + i) p)
          (reaches-null (i + i) (omega arith))
    | yes more ↦ elim (dec_lt (i + i + 1) n) [
      | no stop ↦
          list_loop_from-next_null m fuel (walk m i p) (walk m (i + i) p)
            (ended.before i (omega arith)) (ended.before (i + i) more) (ended.live (i + i) more)
            (subst (λ a. (a == nullptr) ≡ true) (walk-suc m (i + i) p)
              (reaches-null (suc (i + i)) (omega arith)))
      | yes more' ↦
          list_loop_from-walk m p fuel i (λ j b. ended.before j (omega arith))
            (λ j b. ended.live j (omega arith))
          ∙ rw (walk-injective (suc i) (suc i + suc i) (omega arith) (omega arith))
              (list_loop_from-IsEnded fuel (suc i) (omega arith) (omega arith))
    ]
  ]

  -- ListLoop finds no loop in a chain of links that ends in NULLPTR, within as many rounds as the
  -- chain has entries and one more.
  pub list_loop-IsEnded : (fuel : ℕ) → n < fuel → list_loop fuel p m ≡ ok (some false) m
  unfolding list_loop
  list_loop-IsEnded fuel h = elim (Bool-cases (p == nullptr)) [
    | inl e ↦ rw e
    | inr e ↦ rw e (list_loop_from-IsEnded fuel 0 (omega arith) (omega arith))
  ]
