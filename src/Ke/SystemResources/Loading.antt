-- ===== src/Ke/SystemResources/Loading.antt =====
-- InitializeResources moves the valid resources from the boot loader's list to the kernel's.
use mathlib.Core.List.{append_assoc, append-nil}
use exectos.Base.{
  ℕ, zero, suc, ◌≡◌, ◌≤◌, ◌<◌, refl, sym, ◌∙◌, Bool, ◌&&◌, ◌||◌, subst, true, false, some, ◌==◌,
  if◌then◌else◌, List, [], ◌∷◌, ◌++◌, length, arith, Bool-cases, inl, inr,
}
use exectos.Rtl.LinkedList.{Ptr, nullptr, Memory, ok, read_flink-ok}
use exectos.Rtl.LinkedList.Rings.{
  has, has-append, IsRing, IsRing-frame, Links-split, first_or, flink-first,
}
use exectos.Rtl.LinkedList.Remove.{remove_entry_list-IsRing}
use exectos.Rtl.LinkedList.Insert.{insert_tail_list-IsRing, initialize_list_head-IsRing}
use exectos.Rtl.LinkedList.Query.{list_empty-IsRing, is_nil}
use exectos.Ke.SystemResources.{
  ResourceHeader, State, valid_resource, move_if, move_resources, initialize_resources,
}

module _ (acpi_size frame_buffer_size : ℕ) where
  -- A resource of one of the known types has the size of its type.
  abbrev pub is_known : ResourceHeader → Bool
  is_known h =
      (h.resource_type == 1 && h.resource_size == acpi_size)
      || (h.resource_type == 2 && h.resource_size == frame_buffer_size)

module _ (acpi_size frame_buffer_size : ℕ) (s : State) where
  -- What stays on the boot loader's list, and what is moved, in order.
  abbrev pub kept : List Ptr → List Ptr
  kept [] = []
  kept (x ∷ xs) = if is_known acpi_size frame_buffer_size (s.header x) then kept xs else x ∷ kept xs

  abbrev pub moved : List Ptr → List Ptr
  moved [] = []
  moved (x ∷ xs) =
      if is_known acpi_size frame_buffer_size (s.header x) then x ∷ moved xs else moved xs

module _ (acpi_size frame_buffer_size : ℕ) (s : State) (acpi : 1 ≤ acpi_size)
    (frame : 1 ≤ frame_buffer_size) where
  valid_resource-known :
      (h : ResourceHeader)
      → valid_resource acpi_size frame_buffer_size h ≡ is_known acpi_size frame_buffer_size h
  unfolding valid_resource
  valid_resource-known h = ground (arith, acpi, frame)

  -- Two lists without a common entry.
  abbrev pub Apart : (boot : Ptr) → List Ptr → (head : Ptr) → List Ptr → Type 0
  Apart boot xs head vs = (a : Ptr) → has a (head ∷ vs) ≡ true → has a (boot ∷ xs) ≡ false

  record Rings (m : Memory) (boot : Ptr) (xs : List Ptr) (head : Ptr) (vs : List Ptr) : Type 0 where
    boots : IsRing m boot xs
    heads : IsRing m head vs
    apart : Apart boot xs head vs

  Apart-shorter :
      (boot : Ptr) (ys : List Ptr) (e : Ptr) (zs : List Ptr) (head : Ptr) (vs : List Ptr)
      → Apart boot (ys ++ e ∷ zs) head vs
      → Apart boot (ys ++ zs) head vs
  Apart-shorter boot ys e zs head vs apart a h =
      ground (arith, apart a h, has-append a ys (e ∷ zs), has-append a ys zs)

  not_there :
      (boot : Ptr) (ys : List Ptr) (e : Ptr) (zs : List Ptr) (head : Ptr) (vs : List Ptr)
      → Apart boot (ys ++ e ∷ zs) head vs
      → has e (head ∷ vs) ≡ false
  not_there boot ys e zs head vs apart = elim (Bool-cases (has e (head ∷ vs))) [
    | inl there ↦ absurd (ground (arith, apart e there, has-append e ys (e ∷ zs)))
    | inr none_there ↦ none_there
  ]

  -- A valid entry goes from the one list to the end of the other.
  move_entry-Rings :
      (m : Memory) (boot : Ptr) (ys : List Ptr) (e : Ptr) (zs : List Ptr) (head : Ptr)
      (vs : List Ptr)
      → Rings m boot (ys ++ e ∷ zs) head vs
      → (n : Memory) × (move_if true head e m ≡ ok tt n)
        × Rings n boot (ys ++ zs) head (vs ++ e ∷ [])
  move_entry-Rings m boot ys e zs head vs rings =
      let (n, removed, boots, outside, gone) =
        remove_entry_list-IsRing m boot ys e zs rings.boots in
      let still : (a : Ptr) → has a (head ∷ vs) ≡ true → has a (boot ∷ ys ++ zs) ≡ false =
        λ a h. Apart-shorter boot ys e zs head vs rings.apart a h in
      let heads =
        IsRing-frame m n head vs rings.heads (λ a h. outside.flink a (still a h))
          (λ a h. outside.blink a (still a h)) outside.mapped in
      let new : has e (head ∷ vs) ≡ false = not_there boot ys e zs head vs rings.apart in
      let (n', inserted, heads', outside') =
        insert_tail_list-IsRing n head vs e heads new
          (ground (arith, outside.mapped e, rings.boots.live e, has-append e ys (e ∷ zs))) in
      let spared : (a : Ptr) → has a (boot ∷ ys ++ zs) ≡ true → has a (e ∷ head ∷ vs) ≡ false =
        λ a h. ground (arith, gone, still a) in
      (
        n',
        rw (removed, inserted) refl,
        record {
          boots =
              IsRing-frame n n' boot (ys ++ zs) boots (λ a h. outside'.flink a (spared a h))
                (λ a h. outside'.blink a (spared a h)) outside'.mapped;
          heads = heads';
          apart = λ a h. ground (arith, still a, gone, has-append a vs (e ∷ []));
        },
      )

  next-entry :
      (m : Memory) (boot : Ptr) (ys : List Ptr) (e : Ptr) (zs : List Ptr)
      → IsRing m boot (ys ++ e ∷ zs)
      → ((e == boot) ≡ false) × (m.mapped e ≡ true) × (m.flink e ≡ first_or boot zs)
  next-entry m boot ys e zs ring =
      let (before, after) = Links-split m boot ys e zs boot ring.links in
      (
        ground (arith, ring.unique, has-append boot ys (e ∷ zs)),
        ground (arith, ring.live e, has-append e ys (e ∷ zs)),
        flink-first m e zs boot after,
      )

  -- The rest of the boot loader's list is moved, or kept.
  abbrev Moved :
      (boot : Ptr) (ys zs : List Ptr) (head : Ptr) (vs : List Ptr) → Ptr → ℕ → Memory → Type 0
  Moved boot ys zs head vs entry fuel m =
      (n : Memory) × (move_resources acpi_size frame_buffer_size fuel s boot head entry m
        ≡ ok (some tt) n)
      × Rings n boot (ys ++ kept acpi_size frame_buffer_size s zs) head
          (vs ++ moved acpi_size frame_buffer_size s zs)

  move_resources-Rings :
      (fuel : ℕ) (m : Memory) (boot : Ptr) (ys zs : List Ptr) (head : Ptr) (vs : List Ptr)
      → Rings m boot (ys ++ zs) head vs
      → length zs < fuel
      → Moved boot ys zs head vs (first_or boot zs) fuel m
  unfolding move_resources
  move_resources-Rings zero m boot ys zs head vs rings f = absurd (omega arith)
  move_resources-Rings (suc fuel) m boot ys [] head vs rings f =
      let here : (boot == boot) ≡ true = ground arith in (m, rw here refl, rw (append-nil vs) rings)
  move_resources-Rings (suc fuel) m boot ys (e ∷ zs) head vs rings f =
      let (there, live, next) = next-entry m boot ys e zs rings.boots in
      elim (Bool-cases (valid_resource acpi_size frame_buffer_size (s.header e))) [
        | inl valid ↦
            let known = sym (valid_resource-known (s.header e)) ∙ valid in
            let (n, done, rings') = move_entry-Rings m boot ys e zs head vs rings in
            let (n', rest, rings'') =
              move_resources-Rings fuel n boot ys zs head (vs ++ e ∷ []) rings' (omega arith) in
            (
              n',
              rw (there, read_flink-ok m e live, next, valid, done, rest) refl,
              rw known (
                  rw (append_assoc vs (e ∷ []) (moved acpi_size frame_buffer_size s zs)) at
                    rings''),
            )
        | inr invalid ↦
            let unknown = sym (valid_resource-known (s.header e)) ∙ invalid in
            let longer : Rings m boot ((ys ++ e ∷ []) ++ zs) head vs =
              rw (append_assoc ys (e ∷ []) zs) rings in
            let (n', rest, rings'') =
              move_resources-Rings fuel m boot (ys ++ e ∷ []) zs head vs longer (omega arith) in
            (
              n',
              rw (there, read_flink-ok m e live, next, invalid, rest) refl,
              rw unknown (
                  rw (append_assoc ys (e ∷ []) (kept acpi_size frame_buffer_size s zs)) at rings''),
            )
      ]

  nil-is_nil : (xs : List Ptr) → is_nil xs ≡ true → xs ≡ []
  nil-is_nil [] e = refl
  nil-is_nil (x ∷ xs) e = absurd (ground (arith, e))

  -- InitializeResources, on a circular list of the boot loader to which the head of the kernel's
  -- list does not belong, where that head is in memory and address 0 is not, faults nowhere and
  -- returns, within as many rounds as there are entries and one more. The ACPI resources and the
  -- frame buffers with the size of their structure, which is not 0, end up on the kernel's list,
  -- all others stay on the boot loader's, and both lists keep the order.
  pub initialize_resources-IsRing :
      (fuel : ℕ) (m : Memory) (boot : Ptr) (xs : List Ptr) (head : Ptr)
      → IsRing m boot xs
      → m.mapped nullptr ≡ false
      → m.mapped head ≡ true
      → has head (boot ∷ xs) ≡ false
      → length xs < fuel
      → (n : Memory) × (initialize_resources acpi_size frame_buffer_size fuel s boot head m
          ≡ ok (some tt) n)
        × IsRing n boot (kept acpi_size frame_buffer_size s xs)
        × IsRing n head (moved acpi_size frame_buffer_size s xs)
  unfolding initialize_resources
  initialize_resources-IsRing fuel m boot xs head ring null live new f =
      let (n, made, heads, outside) = initialize_list_head-IsRing m head live in
      let spared : (a : Ptr) → has a (boot ∷ xs) ≡ true → has a (head ∷ []) ≡ false =
        λ a h. ground (arith, new) in
      let boots =
        IsRing-frame m n boot xs ring (λ a h. outside.flink a (spared a h))
          (λ a h. outside.blink a (spared a h)) outside.mapped in
      let empty = list_empty-IsRing n boot xs boots (ground (arith, outside.mapped nullptr)) in
      let (n', done, rings) =
        move_resources-Rings fuel n boot [] xs head []
          (record { boots = boots; heads = heads; apart = λ a h. ground (arith, new) }) f in
      elim (Bool-cases (is_nil xs)) [
        | inl nothing ↦
            let e = nil-is_nil xs nothing in
            (
              n,
              rw (made, empty, nothing) refl,
              subst (λ ys. IsRing n boot (kept acpi_size frame_buffer_size s ys)) (sym e)
                  (subst (λ ys. IsRing n boot ys) e boots),
              subst (λ ys. IsRing n head (moved acpi_size frame_buffer_size s ys)) (sym e) heads,
            )
        | inr something ↦ (
          n',
          rw
              (
                made,
                empty,
                something,
                read_flink-ok n boot (boots.live boot (ground arith)),
                flink-first n boot xs boot boots.links,
                done,
              )
              refl,
          rings.boots,
          rings.heads,
        )
      ]
