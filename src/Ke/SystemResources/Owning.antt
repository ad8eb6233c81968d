-- ===== src/Ke/SystemResources/Owning.antt =====
-- A resource that has been acquired stays locked until it is released.
use exectos.Base.{
  ℕ, ◌≡◌, ◌<◌, refl, ◌∙◌, Bool, true, false, Option, none, some, ◌==◌, List, [], ◌∷◌, length, arith,
  Bool-cases, inl, inr,
}
use exectos.Rtl.LinkedList.{Ptr, Memory, ok}
use exectos.Rtl.LinkedList.Rings.{IsRing}
use exectos.Ke.SystemResources.{
  State, success, resource_locked, set_locked, take_resource, acquire_resource, get_resource,
  release_resource, Call, acquires, gets, releases, make_calls,
}
use exectos.Ke.SystemResources.Lookup.{first_of_type, get_system_resource-take_resource}

set_locked-resource_type :
    (b : Bool) (p a : Ptr) (s : State)
    → ((set_locked b p s).header a).resource_type ≡ (s.header a).resource_type
set_locked-resource_type b p a s = elim (Bool-cases (a == p)) [
  | inl same ↦ rw same refl
  | inr other ↦ rw other refl
]

set_locked-resource_locked :
    (b : Bool) (p : Ptr) (s : State) → ((set_locked b p s).header p).resource_locked ≡ b
set_locked-resource_locked b p s = let same : (p == p) ≡ true = ground arith in rw same refl

-- Locks do not change what is found.
first_of_type-set_locked :
    (b : Bool) (p : Ptr) (s : State) (kind : ℕ) (xs : List Ptr)
    → first_of_type (set_locked b p s) kind xs ≡ first_of_type s kind xs
first_of_type-set_locked b p s kind [] = refl
first_of_type-set_locked b p s kind (x ∷ xs) =
    rw (set_locked-resource_type b p x s, first_of_type-set_locked b p s kind xs) refl

first_of_type-release_resource :
    (p : Ptr) (s : State) (kind : ℕ) (xs : List Ptr)
    → first_of_type (release_resource p s) kind xs ≡ first_of_type s kind xs
unfolding release_resource
first_of_type-release_resource p s kind [] = refl
first_of_type-release_resource p s kind (x ∷ xs) =
    rw (set_locked-resource_type false p x s, first_of_type-release_resource p s kind xs) refl

released : (p : Ptr) (s : State) → ((release_resource p s).header p).resource_locked ≡ false
unfolding release_resource
released p s = set_locked-resource_locked false p s

-- The first resource of a type is locked.
record IsHeld (xs : List Ptr) (kind : ℕ) (p : Ptr) (s : State) : Type 0 where
  found : first_of_type s kind xs ≡ some p
  locked : (s.header p).resource_locked ≡ true

set_locked-IsHeld :
    (xs : List Ptr) (kind : ℕ) (p q : Ptr) (s : State)
    → IsHeld xs kind p s
    → IsHeld xs kind p (set_locked true q s)
set_locked-IsHeld xs kind p q s h = record {
  found = first_of_type-set_locked true q s kind xs ∙ h.found;
  locked = elim (Bool-cases (p == q)) [ inl same ↦ rw same refl | inr other ↦ rw other h.locked ];
}

release_resource-IsHeld :
    (xs : List Ptr) (kind : ℕ) (p q : Ptr) (s : State)
    → (p == q) ≡ false
    → IsHeld xs kind p s
    → IsHeld xs kind p (release_resource q s)
unfolding release_resource
release_resource-IsHeld xs kind p q s other h = record {
  found = first_of_type-release_resource q s kind xs ∙ h.found;
  locked = rw other h.locked;
}

take_resource-IsHeld :
    (xs : List Ptr) (kind : ℕ) (p : Ptr) (lock : Bool) (s : State) (o : Option Ptr)
    → IsHeld xs kind p s
    → IsHeld xs kind p (take_resource lock s o).2
unfolding take_resource
take_resource-IsHeld xs kind p lock s none h = h
take_resource-IsHeld xs kind p lock s (some q) h = elim (Bool-cases (s.header q).resource_locked) [
  | inl locked ↦ rw locked h
  | inr free ↦ elim (Bool-cases lock) [
    | inl taken ↦ rw (free, taken) (set_locked-IsHeld xs kind p q s h)
    | inr seen ↦ rw (free, seen) h
  ]
]

take_resource-free :
    (s : State) (p : Ptr)
    → (s.header p).resource_locked ≡ false
    → take_resource true s (some p) ≡ (success, p, set_locked true p s)
unfolding take_resource
take_resource-free s p free = rw free refl

take_resource-locked :
    (lock : Bool) (s : State) (p : Ptr)
    → (s.header p).resource_locked ≡ true
    → take_resource lock s (some p) ≡ (resource_locked, p, s)
unfolding take_resource
take_resource-locked lock s p locked = rw locked refl

-- No call releases the resource.
abbrev pub NoRelease : Ptr → List Call → Type 0
NoRelease p [] = Unit
NoRelease p (releases q ∷ cs) = ((p == q) ≡ false) × NoRelease p cs
NoRelease p (c ∷ cs) = NoRelease p cs

module _ (m : Memory) (head : Ptr) (xs : List Ptr) (fuel : ℕ) (ring : IsRing m head xs)
    (enough : length xs < fuel) where
  make_calls-IsHeld :
      (kind : ℕ) (p : Ptr) (cs : List Call) (s : State)
      → NoRelease p cs
      → IsHeld xs kind p s
      → (later : State) × (make_calls fuel head cs s m ≡ ok (some later) m) × IsHeld xs kind p later
  unfolding make_calls acquire_resource get_resource
  make_calls-IsHeld kind p [] s kept h = (s, refl, h)
  make_calls-IsHeld kind p (acquires k ∷ cs) s kept h =
      let (later, done, held) =
        make_calls-IsHeld kind p cs (take_resource true s (first_of_type s k xs)).2 kept
          (take_resource-IsHeld xs kind p true s (first_of_type s k xs) h) in
      (
        later,
        rw (get_system_resource-take_resource m head xs fuel ring enough k true s, done) refl,
        held,
      )
  make_calls-IsHeld kind p (gets k ∷ cs) s kept h =
      let (later, done, held) =
        make_calls-IsHeld kind p cs (take_resource false s (first_of_type s k xs)).2 kept
          (take_resource-IsHeld xs kind p false s (first_of_type s k xs) h) in
      (
        later,
        rw (get_system_resource-take_resource m head xs fuel ring enough k false s, done) refl,
        held,
      )
  make_calls-IsHeld kind p (releases q ∷ cs) s kept h =
      make_calls-IsHeld kind p cs (release_resource q s) kept.1
        (release_resource-IsHeld xs kind p q s kept.0 h)

  -- On a circular list, the first resource of a type is returned with success by AcquireResource
  -- where it is not locked. After any calls of AcquireResource, GetResource and ReleaseResource
  -- among which there is none that releases it, all of which return, it is returned as locked by
  -- AcquireResource and GetResource, which change nothing. After ReleaseResource is called with its
  -- header, AcquireResource returns it with success again.
  pub acquire_resource-acquire_resource :
      (kind : ℕ) (s : State) (p : Ptr) (cs : List Call)
      → first_of_type s kind xs ≡ some p
      → (s.header p).resource_locked ≡ false
      → NoRelease p cs
      → (acquired : State) × (later : State) × (acquire_resource fuel head kind s m
          ≡ ok (some (success, p, acquired)) m)
        × (make_calls fuel head cs acquired m ≡ ok (some later) m)
        × (acquire_resource fuel head kind later m ≡ ok (some (resource_locked, p, later)) m)
        × (get_resource fuel head kind later m ≡ ok (some (resource_locked, p, later)) m)
        × ((again : State) × (acquire_resource fuel head kind (release_resource p later) m
              ≡ ok (some (success, p, again)) m))
  unfolding acquire_resource get_resource
  acquire_resource-acquire_resource kind s p cs found free kept =
      let got = get_system_resource-take_resource m head xs fuel ring enough in
      let s' = set_locked true p s in
      let (later, done, held) = make_calls-IsHeld kind p cs s' kept (record {
        found = first_of_type-set_locked true p s kind xs ∙ found;
        locked = set_locked-resource_locked true p s;
      }) in
      (
        s',
        later,
        rw (got kind true s, found, take_resource-free s p free) refl,
        done,
        rw (got kind true later, held.found, take_resource-locked true later p held.locked) refl,
        rw (got kind false later, held.found, take_resource-locked false later p held.locked) refl,
        (
          set_locked true p (release_resource p later),
          rw
              (
                got kind true (release_resource p later),
                first_of_type-release_resource p later kind xs ∙ held.found,
                take_resource-free (release_resource p later) p (released p later),
              )
              refl,
        ),
      )
