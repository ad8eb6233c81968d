-- ===== src/Rtl/LinkedList/Concat.antt =====
-- SpliceHeadList and SpliceTailList.
use mathlib.Core.List.{append-nil}
use exectos.Base.{◌≡◌, refl, true, false, List, [], ◌∷◌, ◌++◌, arith, ◌==◌}
use exectos.Rtl.LinkedList.{
  Ptr, Memory, ok, set_flink, set_blink, read_flink-ok, read_blink-ok, write_flink-ok,
  write_blink-ok, splice_head_list, splice_tail_list,
}
use exectos.Rtl.LinkedList.Rings.{
  has, Disjoint, IsRing, IsRing-frame, SameOutside, last_or, first_or, blink-last, flink-first,
  has-first, has-last, has-append,
}
use exectos.Rtl.LinkedList.Splice.{spliced, Chain-of_Links, IsRing-splice, SameOutside-spliced}

-- The memory in which the list at `s` is empty.
abbrev emptied : Ptr → Memory → Memory
emptied s m = set_flink s s (set_blink s s m)

module _ (m : Memory) (head s first last : Ptr) (h : m.mapped head ≡ true) (k : m.mapped s ≡ true)
    (a : m.mapped first ≡ true) (b : m.mapped last ≡ true) (ef : m.flink s ≡ first)
    (eb : m.blink s ≡ last) (ne : (first == s) ≡ false) where
  splice_head_list-spliced :
      (v : Ptr)
      → m.flink head ≡ v
      → m.mapped v ≡ true
      → (head == last) ≡ false
      → splice_head_list head s m ≡ ok tt (emptied s (spliced m head first last v))
  unfolding splice_head_list
  splice_head_list-spliced v e c apart =
      let m1 = set_blink first head m in
      let m2 = set_flink last v m1 in
      let m3 = set_blink v last m2 in
      let m4 = set_flink head first m3 in
      rw (
        read_flink-ok m s k,
        ef,
        ne,
        read_flink-ok m s k,
        ef,
        read_blink-ok m s k,
        eb,
        write_blink-ok m first a head,
        read_flink-ok m1 head h,
        e,
        write_flink-ok m1 last b v,
        read_flink-ok m2 head h,
        apart,
        e,
        write_blink-ok m2 v c last,
        write_flink-ok m3 head h first,
        write_blink-ok m4 s k s,
        write_flink-ok (set_blink s s m4) s k s,
      )

  splice_tail_list-spliced :
      (u : Ptr)
      → m.blink head ≡ u
      → m.mapped u ≡ true
      → (head == first) ≡ false
      → splice_tail_list head s m ≡ ok tt (emptied s (spliced m u first last head))
  unfolding splice_tail_list
  splice_tail_list-spliced u e c apart =
      let m1 = set_blink first u m in
      let m2 = set_flink last head m1 in
      let m3 = set_flink u first m2 in
      let m4 = set_blink head last m3 in
      rw (
        read_flink-ok m s k,
        ef,
        ne,
        read_flink-ok m s k,
        ef,
        read_blink-ok m s k,
        eb,
        read_blink-ok m head h,
        e,
        write_blink-ok m first a u,
        write_flink-ok m1 last b head,
        read_blink-ok m2 head h,
        apart,
        e,
        write_flink-ok m2 u c first,
        write_blink-ok m3 head h last,
        write_blink-ok m4 s k s,
        write_flink-ok (set_blink s s m4) s k s,
      )

-- Emptying the list at `s` leaves a ring that `s` is not in as it was.
emptied-IsRing :
    (m : Memory) (s head : Ptr) (xs : List Ptr)
    → IsRing m head xs
    → has s (head ∷ xs) ≡ false
    → IsRing (emptied s m) head xs
emptied-IsRing m s head xs ring out =
    IsRing-frame m (emptied s m) head xs ring (λ a h. ground arith) (λ a h. ground arith)
      (λ a. refl)

empty-IsRing : (m : Memory) (s : Ptr) → m.mapped s ≡ true → IsRing (emptied s m) s []
empty-IsRing m s k = record {
  links = (ground arith, ground arith);
  unique = refl;
  live = λ a h. ground arith;
}

SameOutside-emptied :
    (xs : List Ptr) (s : Ptr) (m n : Memory)
    → has s xs ≡ true
    → SameOutside xs m n
    → SameOutside xs m (emptied s n)
SameOutside-emptied xs s m n i same = record {
  flink = λ a h. ground (arith, same.flink a h);
  blink = λ a h. ground (arith, same.blink a h);
  mapped = same.mapped;
}

-- Both lists once the entries of the source stand between `pre` and `post` in the destination.
module _ (m : Memory) (head s y : Ptr) (zs : List Ptr) (source : IsRing m s (y ∷ zs)) where
  moved-IsRing :
      (pre post : List Ptr)
      → IsRing m head (pre ++ post)
      → Disjoint (s ∷ y ∷ zs) (head ∷ pre ++ post)
      → let n = emptied s (spliced m (last_or head pre) y (last_or y zs) (first_or head post)) in
        IsRing n head (pre ++ ((y ∷ zs) ++ post))
        × IsRing n s []
        × SameOutside ((s ∷ y ∷ zs) ++ (head ∷ pre ++ post)) m n
  moved-IsRing pre post ring apart =
      let u = last_or head pre in
      let v = first_or head post in
      let last = last_or y zs in
      let n = spliced m u y last v in
      let all = (s ∷ y ∷ zs) ++ (head ∷ pre ++ post) in
      let s-fresh : has s (head ∷ pre ++ post) ≡ false = apart s (ground arith) in
      (
        emptied-IsRing n s head (pre ++ ((y ∷ zs) ++ post))
            (IsRing-splice m head pre post y zs ring (Chain-of_Links m s y zs s source.links)
              (ground (arith, source.unique)) (λ a h. apart a (ground arith))
              (λ a h. source.live a (ground arith)))
            (ground (
              arith,
              has-append s pre ((y ∷ zs) ++ post),
              has-append s zs post,
              has-append s pre post,
              source.unique,
            )),
        empty-IsRing n s (source.live s (ground arith)),
        SameOutside-emptied all s m n (ground arith) (
            SameOutside-spliced m all u y last v
              (ground (
                arith,
                has-append u (s ∷ y ∷ zs) (head ∷ pre ++ post),
                has-append u pre post,
                has-last head pre,
              ))
              (ground arith)
              (ground (arith, has-append last (s ∷ y ∷ zs) (head ∷ pre ++ post), has-last y zs))
              (ground (
                arith,
                has-append v (s ∷ y ∷ zs) (head ∷ pre ++ post),
                has-append v pre post,
                has-first head post,
              ))),
      )

module _ (m : Memory) (head : Ptr) (xs : List Ptr) (s : Ptr) (ring : IsRing m head xs) where
  -- SpliceHeadList moves every entry of the source list, in order, in front of the entries of the
  -- destination and leaves the source empty; it faults nowhere and changes no other entry.
  pub splice_head_list-IsRing :
      (ys : List Ptr)
      → IsRing m s ys
      → Disjoint (s ∷ ys) (head ∷ xs)
      → (n : Memory) × (splice_head_list head s m ≡ ok tt n)
        × IsRing n head (ys ++ xs)
        × IsRing n s []
        × SameOutside ((s ∷ ys) ++ head ∷ xs) m n
  splice_head_list-IsRing [] source apart = (
    m,
    unfold splice_head_list in
        rw (read_flink-ok m s (source.live s (ground arith)), source.links.0) (ground arith),
    ring,
    source,
    record { flink = λ a h. refl; blink = λ a h. refl; mapped = λ a. refl },
  )
  splice_head_list-IsRing (y ∷ zs) source apart =
      let last = last_or y zs in
      let v = first_or head xs in
      let (there, here, same) = moved-IsRing m head s y zs source [] xs ring apart in
      (
        emptied s (spliced m head y last v),
        splice_head_list-spliced m head s y last (ring.live head (ground arith))
            (source.live s (ground arith)) (source.live y (ground arith))
            (source.live last (ground (arith, has-last y zs))) source.links.0
            (blink-last m s (y ∷ zs) s source.links) (ground (arith, source.unique)) v
            (flink-first m head xs head ring.links) (ring.live v (has-first head xs))
            (ground (arith, apart last, has-last y zs)),
        there,
        here,
        same,
      )

  -- SpliceTailList moves every entry of the source list, in order, behind the entries of the
  -- destination and leaves the source empty; it faults nowhere and changes no other entry.
  pub splice_tail_list-IsRing :
      (ys : List Ptr)
      → IsRing m s ys
      → Disjoint (s ∷ ys) (head ∷ xs)
      → (n : Memory) × (splice_tail_list head s m ≡ ok tt n)
        × IsRing n head (xs ++ ys)
        × IsRing n s []
        × SameOutside ((s ∷ ys) ++ head ∷ xs) m n
  splice_tail_list-IsRing [] source apart = (
    m,
    unfold splice_tail_list in
        rw (read_flink-ok m s (source.live s (ground arith)), source.links.0) (ground arith),
    rw (append-nil xs) ring,
    source,
    record { flink = λ a h. refl; blink = λ a h. refl; mapped = λ a. refl },
  )
  splice_tail_list-IsRing (y ∷ zs) source apart =
      let last = last_or y zs in
      let u = last_or head xs in
      let moved =
        moved-IsRing m head s y zs source xs [] (rw (append-nil xs) ring)
          (rw (append-nil xs) apart) in
      (
        emptied s (spliced m u y last head),
        splice_tail_list-spliced m head s y last (ring.live head (ground arith))
            (source.live s (ground arith)) (source.live y (ground arith))
            (source.live last (ground (arith, has-last y zs))) source.links.0
            (blink-last m s (y ∷ zs) s source.links) (ground (arith, source.unique)) u
            (blink-last m head xs head ring.links) (ring.live u (has-last head xs))
            (ground (arith, apart y)),
        rw (append-nil (y ∷ zs)) at moved.0,
        moved.1,
        rw (append-nil xs) at moved.2,
      )
