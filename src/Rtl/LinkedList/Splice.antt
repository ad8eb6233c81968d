-- ===== src/Rtl/LinkedList/Splice.antt =====
-- A chain of entries set between two neighbours of a ring, the common step of every insertion.
use exectos.Base.{◌≡◌, refl, true, false, List, [], ◌∷◌, ◌++◌, arith, ◌==◌}
use exectos.Rtl.LinkedList.{Ptr, Memory, update}
use exectos.Rtl.LinkedList.Rings.{
  has, distinct, Disjoint, IsRing, SameOutside, distinct-insert, Links, Links-frame, last_or,
  first_or, has-append, has-first, has-last,
}

-- The entries `f ∷ zs` are linked both ways among themselves.
abbrev pub Chain : Memory → Ptr → List Ptr → Type 0
Chain m f [] = Unit {0}
Chain m f (z ∷ zs) = (m.flink f ≡ z) × (m.blink z ≡ f) × Chain m z zs

-- The memory after the chain from `f` to `l` is set between `u` and `v`.
abbrev pub spliced : Memory → Ptr → Ptr → Ptr → Ptr → Memory
spliced m u f l v = record m {
  flink = update (update m.flink l v) u f;
  blink = update (update m.blink f u) v l;
}

pub Chain-frame :
    (m n : Memory) (f : Ptr) (zs : List Ptr)
    → Chain m f zs
    → distinct (f ∷ zs) ≡ true
    → ((a : Ptr) → has a (f ∷ zs) ≡ true → (a == last_or f zs) ≡ false → n.flink a ≡ m.flink a)
    → ((a : Ptr) → has a zs ≡ true → n.blink a ≡ m.blink a)
    → Chain n f zs
Chain-frame m n f [] c d p q = tt
Chain-frame m n f (z ∷ zs) (e, e', c) d p q = (
  ground (arith, p f, has-last z zs),
  ground (arith, q z),
  Chain-frame m n z zs c (ground arith) (λ a h k. p a (ground arith) k) (λ a h. q a (ground arith)),
)

pub Chain-of_Links :
    (m : Memory) (p f : Ptr) (zs : List Ptr) (q : Ptr) → Links m p (f ∷ zs) q → Chain m f zs
Chain-of_Links m p f [] q l = tt
Chain-of_Links m p f (z ∷ zs) q (_, _, l) = (l.0, l.1, Chain-of_Links m f z zs q l)

Chain-append-Links :
    (m : Memory) (f : Ptr) (zs ys : List Ptr) (q : Ptr)
    → Chain m f zs
    → Links m (last_or f zs) ys q
    → Links m f (zs ++ ys) q
Chain-append-Links m f [] ys q c l = l
Chain-append-Links m f (z ∷ zs) ys q (e, e', c) l = (e, e', Chain-append-Links m z zs ys q c l)

module _ (m : Memory) (f : Ptr) (zs : List Ptr) (c : Chain m f zs)
    (d : distinct (f ∷ zs) ≡ true) where
  -- The right-hand part of the ring hangs on the last entry of the chain.
  Links-after :
      (p : Ptr) (ys : List Ptr) (q : Ptr)
      → Links m p ys q
      → distinct (p ∷ ys) ≡ true
      → has q ys ≡ false
      → Disjoint (f ∷ zs) (p ∷ ys ++ q ∷ [])
      → Links (spliced m p f (last_or f zs) (first_or q ys)) (last_or f zs) ys q
  Links-after p [] q l u n apart = ground (arith, apart (last_or f zs), has-last f zs)
  Links-after p (y ∷ ys) q (e, e', l) u n apart = (
    ground (arith, apart (last_or f zs), has-last f zs),
    ground (arith),
    Links-frame m (spliced m p f (last_or f zs) y) y ys q l
        (λ a h.
          ground
            (arith, apart (last_or f zs), has-last f zs, has-append (last_or f zs) ys (q ∷ [])))
        (λ a h. ground (arith, apart f, has-append a ys (q ∷ []))),
  )

  -- The chain between the neighbours `last_or p xs` and `first_or q ys`.
  pub Links-splice :
      (p : Ptr) (xs ys : List Ptr) (q : Ptr)
      → Links m p (xs ++ ys) q
      → distinct (p ∷ xs ++ ys) ≡ true
      → has q (xs ++ ys) ≡ false
      → Disjoint (f ∷ zs) (p ∷ (xs ++ ys) ++ q ∷ [])
      → Links
          (spliced m (last_or p xs) f (last_or f zs) (first_or q ys))
          p
          (xs ++ ((f ∷ zs) ++ ys))
          q
  Links-splice p [] ys q l u n apart = (
    ground arith,
    ground (arith, apart f, has-append f ys (q ∷ []), has-first q ys),
    Chain-append-Links (spliced m p f (last_or f zs) (first_or q ys)) f zs ys q
        (Chain-frame m (spliced m p f (last_or f zs) (first_or q ys)) f zs c d
          (λ a h k. ground (arith, apart a))
          (λ a h. ground (arith, apart a, has-append a ys (q ∷ []), has-first q ys)))
        (Links-after p ys q l u n apart),
  )
  Links-splice p (x ∷ xs) ys q (e, e', l) u n apart = (
    ground (
      arith,
      apart (last_or f zs),
      has-last f zs,
      has-last x xs,
      has-append p xs ys,
      has-append (last_or x xs) xs ys,
    ),
    ground (arith, apart f, has-append x xs ys, has-first q ys),
    Links-splice x xs ys q l (ground arith) (ground arith) (λ a h. ground (arith, apart a)),
  )

-- What a chain and a ring apart from it become when the chain is set into the ring.
pub IsRing-splice :
    (m : Memory) (head : Ptr) (xs ys : List Ptr) (f : Ptr) (zs : List Ptr)
    → IsRing m head (xs ++ ys)
    → Chain m f zs
    → distinct (f ∷ zs) ≡ true
    → Disjoint (f ∷ zs) (head ∷ xs ++ ys)
    → ((a : Ptr) → has a (f ∷ zs) ≡ true → m.mapped a ≡ true)
    → IsRing
        (spliced m (last_or head xs) f (last_or f zs) (first_or head ys))
        head
        (xs ++ ((f ∷ zs) ++ ys))
IsRing-splice m head xs ys f zs ring c d apart live = record {
  links =
      Links-splice m f zs c d head xs ys head ring.links ring.unique (ground arith)
        (λ a h. ground (arith, apart a, has-append a (xs ++ ys) (head ∷ [])));
  unique = distinct-insert (head ∷ xs) (f ∷ zs) ys ring.unique d apart;
  live = λ a h. ground (
    arith,
    has-append a xs ((f ∷ zs) ++ ys),
    has-append a (f ∷ zs) ys,
    has-append a xs ys,
    ring.live a,
    live a,
  );
}

-- A splice writes to the two neighbours and to the ends of the chain only.
pub SameOutside-spliced :
    (m : Memory) (xs : List Ptr) (u f l v : Ptr)
    → has u xs ≡ true
    → has f xs ≡ true
    → has l xs ≡ true
    → has v xs ≡ true
    → SameOutside xs m (spliced m u f l v)
SameOutside-spliced m xs u f l v hu hf hl hv = record {
  flink = λ a h. ground arith;
  blink = λ a h. ground arith;
  mapped = λ a. refl;
}
