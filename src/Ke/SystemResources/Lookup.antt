-- ===== src/Ke/SystemResources/Lookup.antt =====
-- GetSystemResource on a list of resources.
use exectos.Base.{
  ℕ, zero, suc, ◌≡◌, ◌<◌, ◌⊎◌, refl, ap, Bool, true, false, Option, none, some, ◌==◌, if◌then◌else◌,
  List, [], ◌∷◌, length, arith, Bool-cases, inl, inr,
}
use exectos.Rtl.LinkedList.{Ptr, nullptr, Memory, ok, read_flink-ok}
use exectos.Rtl.LinkedList.Rings.{has, IsRing, Links, first_or, flink-first}
use exectos.Ke.SystemResources.{
  Status, State, success, resource_locked, not_found, set_locked, find_resource, take_resource,
  get_system_resource,
}

-- The first header of a type on a list.
abbrev pub first_of_type : State → ℕ → List Ptr → Option Ptr
first_of_type s kind [] = none
first_of_type s kind (x ∷ xs) =
    if (s.header x).resource_type == kind then some x else first_of_type s kind xs

module _ (m : Memory) (s : State) (kind : ℕ) (head : Ptr) where
  -- From the first of the entries `xs` on, of which none is the head.
  find_resource-Links :
      (fuel : ℕ) (xs : List Ptr)
      → ((a : Ptr) → has a xs ≡ true → m.mapped a ≡ true)
      → has head xs ≡ false
      → (p : Ptr) → Links m p xs head
      → length xs < fuel
      → find_resource fuel s kind head (first_or head xs) m ≡ ok (some (first_of_type s kind xs)) m
  unfolding find_resource
  find_resource-Links zero xs live out p l f = absurd (omega arith)
  find_resource-Links (suc fuel) [] live out p l f =
      let here : (head == head) ≡ true = ground arith in rw here refl
  find_resource-Links (suc fuel) (x ∷ xs) live out p l f =
      let there : (x == head) ≡ false = ground arith in
      elim (Bool-cases ((s.header x).resource_type == kind)) [
        | inl same ↦ rw (there, same) refl
        | inr other ↦
            rw
              (there, other, read_flink-ok m x (live x (ground arith)), flink-first m x xs head l.2)
              (find_resource-Links fuel xs (λ a h. live a (ground arith)) (ground arith) x l.2
                (omega arith))
      ]

-- The header at `p` has the lock as given, and nothing else has changed.
pub record Locks (lock : Bool) (p : Ptr) (s t : State) : Type 0 where
  pub here : t.header p ≡ record (s.header p) { resource_locked = lock }
  pub others : (a : Ptr) → (a == p) ≡ false → t.header a ≡ s.header a
  pub interrupts : t.interrupts ≡ s.interrupts

-- What GetSystemResource owes for the first header of the type, if there is one.
abbrev pub Got : Bool → State → Option Ptr → Status × Ptr × State → Type 0
Got lock s none r = r ≡ (not_found, nullptr, s)
Got lock s (some p) r =
    (((s.header p).resource_locked ≡ true) × (r ≡ (resource_locked, p, s)))
    ⊎ (((s.header p).resource_locked ≡ false) × (r.0 ≡ success) × (r.1 ≡ p) × Locks lock p s r.2)

set_locked-Locks : (b : Bool) (p : Ptr) (s : State) → Locks b p s (set_locked b p s)
set_locked-Locks b p s =
    let same : (p == p) ≡ true = ground arith in
    record { here = rw same refl; others = λ a other. rw other refl; interrupts = refl }

free-Locks :
    (lock : Bool) (p : Ptr) (s : State)
    → (s.header p).resource_locked ≡ false
    → Locks lock p s (if lock then set_locked true p s else s)
free-Locks true p s free = set_locked-Locks true p s
free-Locks false p s free = record {
  here = ap (λ b. record (s.header p) { resource_locked = b }) free;
  others = λ a other. refl;
  interrupts = refl;
}

take_resource-Got :
    (lock : Bool) (s : State) (o : Option Ptr) → Got lock s o (take_resource lock s o)
unfolding take_resource
take_resource-Got lock s none = refl
take_resource-Got lock s (some p) = elim (Bool-cases (s.header p).resource_locked) [
  | inl locked ↦ inl (locked, rw locked refl)
  | inr free ↦ inr (free, (rw free refl), (rw free refl), rw free (free-Locks lock p s free))
]

module _ (m : Memory) (head : Ptr) (xs : List Ptr) (fuel : ℕ) (ring : IsRing m head xs)
    (enough : length xs < fuel) where
  pub get_system_resource-take_resource :
      (kind : ℕ) (lock : Bool) (s : State)
      → get_system_resource fuel head kind lock s m
        ≡ ok (some (take_resource lock s (first_of_type s kind xs))) m
  unfolding get_system_resource
  get_system_resource-take_resource kind lock s =
      rw
        (
          read_flink-ok m head (ring.live head (ground arith)),
          flink-first m head xs head ring.links,
          find_resource-Links m s kind head fuel xs (λ a h. ring.live a (ground arith))
              (ground (arith, ring.unique)) head ring.links enough,
        )
        refl

  -- GetSystemResource goes through a circular list without a fault, within as many rounds as there
  -- are entries and one more, and changes no link. Where there is no header of the type, it
  -- returns STATUS_NOT_FOUND and a null pointer. Otherwise it returns the first header of the type:
  -- as locked, and changes nothing, where it is locked, and else with success; then it locks that
  -- header if it was asked to, and changes nothing else.
  pub get_system_resource-IsRing :
      (kind : ℕ) (lock : Bool) (s : State)
      → (r : Status × Ptr × State) × (get_system_resource fuel head kind lock s m ≡ ok (some r) m)
        × Got lock s (first_of_type s kind xs) r
  get_system_resource-IsRing kind lock s = (
    take_resource lock s (first_of_type s kind xs),
    get_system_resource-take_resource kind lock s,
    take_resource-Got lock s (first_of_type s kind xs),
  )
