-- ===== src/Rtl/LinkedList/Insert.antt =====
-- InitializeListHead, InsertHeadList and InsertTailList.
use mathlib.Core.List.{append-nil}
use exectos.Base.{◌≡◌, refl, true, false, List, [], ◌∷◌, ◌++◌, arith, ◌==◌}
use exectos.Rtl.LinkedList.{
  Ptr, Memory, ok, set_flink, set_blink, read_flink-ok, read_blink-ok, write_flink-ok,
  write_blink-ok, initialize_list_head, insert_head_list, insert_tail_list,
}
use exectos.Rtl.LinkedList.Rings.{
  has, Disjoint-one, IsRing, SameOutside, last_or, first_or, blink-last, flink-first, has-first,
  has-last,
}
use exectos.Rtl.LinkedList.Splice.{spliced, IsRing-splice, SameOutside-spliced}

-- An initialised head is the head of the empty list.
pub initialize_list_head-IsRing :
    (m : Memory) (head : Ptr)
    → m.mapped head ≡ true
    → (n : Memory) × (initialize_list_head head m ≡ ok tt n)
      × IsRing n head []
      × SameOutside (head ∷ []) m n
unfolding initialize_list_head
initialize_list_head-IsRing m head live = (
  set_flink head head (set_blink head head m),
  rw (write_blink-ok m head live head, write_flink-ok (set_blink head head m) head live head),
  record { links = (ground arith, ground arith); unique = refl; live = λ a h. ground arith },
  record { flink = λ a h. ground arith; blink = λ a h. ground arith; mapped = λ a. refl },
)

-- On live addresses InsertHeadList sets the entry between the head and what follows it.
insert_head_list-spliced :
    (m : Memory) (head entry : Ptr)
    → (head == entry) ≡ false
    → m.mapped head ≡ true
    → m.mapped (m.flink head) ≡ true
    → m.mapped entry ≡ true
    → insert_head_list head entry m ≡ ok tt (spliced m head entry entry (m.flink head))
unfolding insert_head_list
insert_head_list-spliced m head entry ne h k l =
    let m1 = set_flink entry (m.flink head) m in
    let m2 = set_blink entry head m1 in
    let m3 = set_blink (m.flink head) entry m2 in
    rw (
      read_flink-ok m head h,
      write_flink-ok m entry l (m.flink head),
      write_blink-ok m1 entry l head,
      read_flink-ok m2 head h,
      ne,
      write_blink-ok m2 (m.flink head) k entry,
      write_flink-ok m3 head h entry,
    )

-- InsertTailList sets it between what precedes the head and the head.
insert_tail_list-spliced :
    (m : Memory) (head entry : Ptr)
    → (head == entry) ≡ false
    → m.mapped head ≡ true
    → m.mapped (m.blink head) ≡ true
    → m.mapped entry ≡ true
    → insert_tail_list head entry m ≡ ok tt (spliced m (m.blink head) entry entry head)
unfolding insert_tail_list
insert_tail_list-spliced m head entry ne h k l =
    let m1 = set_flink entry head m in
    let m2 = set_blink entry (m.blink head) m1 in
    let m3 = set_flink (m.blink head) entry m2 in
    rw (
      write_flink-ok m entry l head,
      read_blink-ok m1 head h,
      write_blink-ok m1 entry l (m.blink head),
      read_blink-ok m2 head h,
      ne,
      write_flink-ok m2 (m.blink head) k entry,
      write_blink-ok m3 head h entry,
    )

module _ (m : Memory) (head : Ptr) (xs : List Ptr) (entry : Ptr) (ring : IsRing m head xs)
    (new : has entry (head ∷ xs) ≡ false) (live : m.mapped entry ≡ true) where
  -- InsertHeadList puts a new entry in front of the list, faults nowhere, and changes no entry
  -- but the new one and those of the list.
  pub insert_head_list-IsRing :
      (n : Memory) × (insert_head_list head entry m ≡ ok tt n)
      × IsRing n head (entry ∷ xs)
      × SameOutside (entry ∷ head ∷ xs) m n
  insert_head_list-IsRing =
      let first = flink-first m head xs head ring.links in
      (
        spliced m head entry entry (first_or head xs),
        rw (← first) (
            insert_head_list-spliced m head entry (ground arith) (ring.live head (ground arith))
              (rw first (ring.live (first_or head xs) (has-first head xs))) live),
        IsRing-splice m head [] xs entry [] ring tt refl (λ a h. ground arith)
            (λ a h. ground arith),
        SameOutside-spliced m (entry ∷ head ∷ xs) head entry entry (first_or head xs) (ground arith)
            (ground arith) (ground arith) (ground (arith, has-first head xs)),
      )

  -- InsertTailList puts a new entry behind the list, faults nowhere, and changes no entry but the
  -- new one and those of the list.
  pub insert_tail_list-IsRing :
      (n : Memory) × (insert_tail_list head entry m ≡ ok tt n)
      × IsRing n head (xs ++ entry ∷ [])
      × SameOutside (entry ∷ head ∷ xs) m n
  insert_tail_list-IsRing =
      let last = blink-last m head xs head ring.links in
      (
        spliced m (last_or head xs) entry entry head,
        rw (← last) (
            insert_tail_list-spliced m head entry (ground arith) (ring.live head (ground arith))
              (rw last (ring.live (last_or head xs) (has-last head xs))) live),
        IsRing-splice m head xs [] entry [] (rw (append-nil xs) ring) tt refl
            (rw (append-nil xs) (Disjoint-one entry (head ∷ xs) new)) (λ a h. ground arith),
        SameOutside-spliced m (entry ∷ head ∷ xs) (last_or head xs) entry entry head
            (ground (arith, has-last head xs)) (ground arith) (ground arith) (ground arith),
      )
