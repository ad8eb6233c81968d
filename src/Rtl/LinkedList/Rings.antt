-- ===== src/Rtl/LinkedList/Rings.antt =====
-- What a ring of LIST_ENTRYs stands for: the addresses of its entries in order.
use exectos.Base.{◌≡◌, refl, Bool, true, false, not, ◌&&◌, ◌||◌, List, [], ◌∷◌, ◌++◌, arith, ◌==◌}
use exectos.Rtl.LinkedList.{Ptr, Memory}

abbrev pub has : Ptr → List Ptr → Bool
has a [] = false
has a (x ∷ xs) = (a == x) || has a xs

abbrev pub distinct : List Ptr → Bool
distinct [] = true
distinct (x ∷ xs) = not (has x xs) && distinct xs

abbrev pub Disjoint : List Ptr → List Ptr → Type 0
Disjoint xs ys = (a : Ptr) → has a xs ≡ true → has a ys ≡ false

-- The entries `xs` lie between `p` and `q`, linked both ways.
abbrev pub Links : Memory → Ptr → List Ptr → Ptr → Type 0
Links m p [] q = (m.flink p ≡ q) × (m.blink q ≡ p)
Links m p (x ∷ xs) q = (m.flink p ≡ x) × (m.blink x ≡ p) × Links m x xs q

-- The list with head `head` holds the entries `xs` in this order.
pub record IsRing (m : Memory) (head : Ptr) (xs : List Ptr) : Type 0 where
  pub links : Links m head xs head
  pub unique : distinct (head ∷ xs) ≡ true
  pub live : (a : Ptr) → has a (head ∷ xs) ≡ true → m.mapped a ≡ true

-- Outside `xs` the two memories hold the same, and they have the same entries.
pub record SameOutside (xs : List Ptr) (m n : Memory) : Type 0 where
  pub flink : (a : Ptr) → has a xs ≡ false → n.flink a ≡ m.flink a
  pub blink : (a : Ptr) → has a xs ≡ false → n.blink a ≡ m.blink a
  pub mapped : (a : Ptr) → n.mapped a ≡ m.mapped a

pub has-append : (a : Ptr) (xs ys : List Ptr) → has a (xs ++ ys) ≡ (has a xs || has a ys)
has-append a [] ys = refl
has-append a (x ∷ xs) ys = ground (arith, has-append a xs ys)

-- Links survive a change of memory that spares the fields which they go through.
pub Links-frame :
    (m n : Memory) (p : Ptr) (xs : List Ptr) (q : Ptr)
    → Links m p xs q
    → ((a : Ptr) → has a (p ∷ xs) ≡ true → n.flink a ≡ m.flink a)
    → ((a : Ptr) → has a (xs ++ q ∷ []) ≡ true → n.blink a ≡ m.blink a)
    → Links n p xs q
Links-frame m n p [] q l f b = ground (arith, f p, b q)
Links-frame m n p (x ∷ xs) q (e, e', l) f b = (
  ground (arith, f p),
  ground (arith, b x),
  Links-frame m n x xs q l (λ a h. f a (ground arith)) (λ a h. b a (ground arith)),
)

pub Links-append :
    (m : Memory) (p : Ptr) (xs : List Ptr) (y : Ptr) (ys : List Ptr) (q : Ptr)
    → Links m p xs y
    → Links m y ys q
    → Links m p (xs ++ y ∷ ys) q
Links-append m p [] y ys q (e, e') l = (e, e', l)
Links-append m p (x ∷ xs) y ys q (e, e', k) l = (e, e', Links-append m x xs y ys q k l)

pub Links-split :
    (m : Memory) (p : Ptr) (xs : List Ptr) (y : Ptr) (ys : List Ptr) (q : Ptr)
    → Links m p (xs ++ y ∷ ys) q
    → Links m p xs y × Links m y ys q
Links-split m p [] y ys q (e, e', l) = ((e, e'), l)
Links-split m p (x ∷ xs) y ys q (e, e', l) =
    let (k, r) = Links-split m x xs y ys q l in ((e, e', k), r)

-- The entry before `q`, and the one after `p`.
abbrev pub last_or : Ptr → List Ptr → Ptr
last_or p [] = p
last_or p (x ∷ xs) = last_or x xs

abbrev pub first_or : Ptr → List Ptr → Ptr
first_or q [] = q
first_or q (x ∷ xs) = x

pub blink-last :
    (m : Memory) (p : Ptr) (xs : List Ptr) (q : Ptr) → Links m p xs q → m.blink q ≡ last_or p xs
blink-last m p [] q l = l.1
blink-last m p (x ∷ xs) q l = blink-last m x xs q l.2

pub flink-first :
    (m : Memory) (p : Ptr) (xs : List Ptr) (q : Ptr) → Links m p xs q → m.flink p ≡ first_or q xs
flink-first m p [] q l = l.0
flink-first m p (x ∷ xs) q l = l.0

pub flink-last :
    (m : Memory) (p : Ptr) (xs : List Ptr) (q : Ptr) → Links m p xs q → m.flink (last_or p xs) ≡ q
flink-last m p [] q l = l.0
flink-last m p (x ∷ xs) q l = flink-last m x xs q l.2

pub has-last : (p : Ptr) (xs : List Ptr) → has (last_or p xs) (p ∷ xs) ≡ true
has-last p [] = ground arith
has-last p (x ∷ xs) = ground (arith, has-last x xs)

pub has-first : (q : Ptr) (xs : List Ptr) → has (first_or q xs) (q ∷ xs) ≡ true
has-first q [] = ground arith
has-first q (x ∷ xs) = ground arith

pub distinct-append :
    (xs ys : List Ptr)
    → distinct xs ≡ true
    → distinct ys ≡ true
    → Disjoint xs ys
    → distinct (xs ++ ys) ≡ true
distinct-append [] ys d e apart = e
distinct-append (x ∷ xs) ys d e apart = ground (
  arith,
  has-append x xs ys,
  apart x,
  distinct-append xs ys (ground arith) e (λ a h. apart a (ground arith)),
)

pub distinct-insert :
    (xs zs ys : List Ptr)
    → distinct (xs ++ ys) ≡ true
    → distinct zs ≡ true
    → Disjoint zs (xs ++ ys)
    → distinct (xs ++ (zs ++ ys)) ≡ true
distinct-insert [] zs ys d e apart = distinct-append zs ys e d apart
distinct-insert (x ∷ xs) zs ys d e apart = ground (
  arith,
  has-append x xs (zs ++ ys),
  has-append x zs ys,
  has-append x xs ys,
  apart x,
  distinct-insert xs zs ys (ground arith) e (λ a h. ground (arith, apart a)),
)

pub distinct-remove :
    (xs : List Ptr) (e : Ptr) (ys : List Ptr)
    → distinct (xs ++ e ∷ ys) ≡ true
    → (distinct (xs ++ ys) ≡ true) × (has e (xs ++ ys) ≡ false)
distinct-remove [] e ys d = (ground arith, ground arith)
distinct-remove (x ∷ xs) e ys d =
    let (k, n) = distinct-remove xs e ys (ground arith) in
    (
      ground (arith, has-append x xs (e ∷ ys), has-append x xs ys),
      ground (arith, has-append x xs (e ∷ ys)),
    )

-- A ring survives a change of memory that spares its own entries.
pub IsRing-frame :
    (m n : Memory) (head : Ptr) (xs : List Ptr)
    → IsRing m head xs
    → ((a : Ptr) → has a (head ∷ xs) ≡ true → n.flink a ≡ m.flink a)
    → ((a : Ptr) → has a (head ∷ xs) ≡ true → n.blink a ≡ m.blink a)
    → ((a : Ptr) → n.mapped a ≡ m.mapped a)
    → IsRing n head xs
IsRing-frame m n head xs ring f b s = record {
  links =
      Links-frame m n head xs head ring.links f
        (λ a h. b a (ground (arith, has-append a xs (head ∷ []))));
  unique = ring.unique;
  live = λ a h. ground (arith, ring.live a h, s a);
}

pub Disjoint-one : (a : Ptr) (xs : List Ptr) → has a xs ≡ false → Disjoint (a ∷ []) xs
Disjoint-one a xs out b h = ground arith
