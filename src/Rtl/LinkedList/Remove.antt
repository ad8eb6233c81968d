-- ===== src/Rtl/LinkedList/Remove.antt =====
-- RemoveEntryList.
use exectos.Base.{◌≡◌, refl, true, false, List, [], ◌∷◌, ◌++◌, arith, ◌==◌}
use exectos.Rtl.LinkedList.{
  Ptr, Memory, update, ok, set_blink, read_flink-ok, read_blink-ok, write_flink-ok, write_blink-ok,
  remove_entry_list,
}
use exectos.Rtl.LinkedList.Rings.{
  has, distinct, IsRing, SameOutside, Links, Links-frame, Links-split, last_or, first_or,
  blink-last, flink-first, has-first, has-last, has-append, distinct-remove,
}

-- The memory after `u` and `v` are linked with one another.
abbrev unlinked : Memory → Ptr → Ptr → Memory
unlinked m u v = record m { flink = update m.flink u v; blink = update m.blink v u }

Links-unlinked :
    (m : Memory) (p : Ptr) (xs : List Ptr) (e : Ptr) (ys : List Ptr) (q : Ptr)
    → Links m p (xs ++ e ∷ ys) q
    → distinct (p ∷ xs ++ e ∷ ys) ≡ true
    → has q (xs ++ e ∷ ys) ≡ false
    → Links (unlinked m (last_or p xs) (first_or q ys)) p (xs ++ ys) q
Links-unlinked m p [] e [] q l d n = (ground arith, ground arith)
Links-unlinked m p [] e (y ∷ ys) q (_, _, (_, _, l)) d n = (
  ground arith,
  ground arith,
  Links-frame m (unlinked m p y) y ys q l (λ a h. ground arith)
      (λ a h. ground (arith, has-append a ys (q ∷ []))),
)
Links-unlinked m p (x ∷ xs) e ys q (k, k', l) d n = (
  ground (arith, has-last x xs, has-append p xs (e ∷ ys), has-append (last_or x xs) xs (e ∷ ys)),
  ground (arith, has-first q ys, has-append x xs (e ∷ ys)),
  Links-unlinked m x xs e ys q l (ground arith) (ground arith),
)

remove_entry_list-unlinked :
    (m : Memory) (e u v : Ptr)
    → m.blink e ≡ u
    → m.flink e ≡ v
    → (e == v) ≡ false
    → m.mapped e ≡ true
    → m.mapped u ≡ true
    → m.mapped v ≡ true
    → remove_entry_list e m ≡ ok tt (unlinked m u v)
unfolding remove_entry_list
remove_entry_list-unlinked m e u v b f ne h k l =
    let m1 = set_blink v u m in
    rw (
      read_flink-ok m e h,
      read_blink-ok m e h,
      b,
      f,
      write_blink-ok m v l u,
      read_blink-ok m1 e h,
      ne,
      b,
      read_flink-ok m1 e h,
      f,
      write_flink-ok m1 u k v,
    )

-- RemoveEntryList takes an entry out of the list that it is in, wherever it stands, keeps the
-- order of the others, faults nowhere, and changes no entry outside the list. The entry that was
-- taken out is not among those left.
pub remove_entry_list-IsRing :
    (m : Memory) (head : Ptr) (xs : List Ptr) (entry : Ptr) (ys : List Ptr)
    → IsRing m head (xs ++ entry ∷ ys)
    → (n : Memory) × (remove_entry_list entry m ≡ ok tt n)
      × IsRing n head (xs ++ ys)
      × SameOutside (head ∷ xs ++ ys) m n
      × (has entry (head ∷ xs ++ ys) ≡ false)
remove_entry_list-IsRing m head xs entry ys ring =
    let (before, after) = Links-split m head xs entry ys head ring.links in
    let (left, out) = distinct-remove (head ∷ xs) entry ys ring.unique in
    (
      unlinked m (last_or head xs) (first_or head ys),
      remove_entry_list-unlinked m entry (last_or head xs) (first_or head ys)
          (blink-last m head xs entry before) (flink-first m entry ys head after)
          (ground (arith, has-first head ys, has-append entry xs ys))
          (ring.live entry (ground (arith, has-append entry xs (entry ∷ ys))))
          (ring.live (last_or head xs)
            (ground (arith, has-last head xs, has-append (last_or head xs) xs (entry ∷ ys))))
          (ring.live (first_or head ys)
            (ground (arith, has-first head ys, has-append (first_or head ys) xs (entry ∷ ys)))),
      record {
        links = Links-unlinked m head xs entry ys head ring.links ring.unique (ground arith);
        unique = left;
        live =
            λ a h. ring.live a (ground (arith, has-append a xs ys, has-append a xs (entry ∷ ys)));
      },
      record {
        flink = λ a h. ground (arith, has-last head xs, has-append a xs ys);
        blink = λ a h. ground (arith, has-first head ys, has-append a xs ys);
        mapped = λ a. refl;
      },
      out,
    )
