-- ===== src/Mm/HardwarePool/Suiting.antt =====
-- The descriptors that AllocateHardwareMemory may take pages from.
use exectos.Base.{
  ℕ, ◌+◌, ◌-◌, ◌%◌, ◌^◌, ◌≡◌, ◌≤◌, ◌<◌, ◌∙◌, sym, refl, ap, Bool, true, false, ◌&&◌, List, [], ◌∷◌,
  ◌++◌, ◌==◌, ltb, leb, arith, Bool-cases, inl, inr, Option, none, some,
}
use exectos.Word.{u64}
use exectos.Mm.HardwarePool.{
  MemoryDescriptor, Place, loader_free, alignment, fits, find_descriptor, first_of,
}
use exectos.Mm.HardwarePool.Coverage.{IsRange, alignment_lem}
use exectos.Mm.HardwarePool.Pieces.{AllRange}

-- No descriptor passes the test of the search.
abbrev pub NoneFits : Bool → (max_page n : ℕ) → List MemoryDescriptor → Type 0
NoneFits aligned max_page n [] = Unit
NoneFits aligned max_page n (d ∷ ds) =
    (fits max_page n (alignment aligned d) d ≡ false) × NoneFits aligned max_page n ds

module _ (aligned : Bool) (max_page n : ℕ) where
  -- The last descriptor that fits.
  abbrev pub IsPlace : List MemoryDescriptor → Option Place → Type 0
  IsPlace ds none = NoneFits aligned max_page n ds
  IsPlace ds (some p) =
      (ds ≡ p.before ++ (p.found ∷ p.after))
      × (fits max_page n (alignment aligned p.found) p.found ≡ true)
      × NoneFits aligned max_page n p.after

  first_of-IsPlace :
      (o : Option Place) (d : MemoryDescriptor) (ds : List MemoryDescriptor) (here : Bool)
      → fits max_page n (alignment aligned d) d ≡ here
      → IsPlace ds o
      → IsPlace (d ∷ ds) (first_of o d ds here)
  first_of-IsPlace (some p) d ds here e place = (ap (λ xs. d ∷ xs) place.0, place.1, place.2)
  first_of-IsPlace none d ds true e place = (refl, e, place)
  first_of-IsPlace none d ds false e place = (e, place)

  pub find_descriptor-IsPlace :
      (ds : List MemoryDescriptor) → IsPlace ds (find_descriptor aligned max_page n ds)
  unfolding find_descriptor
  find_descriptor-IsPlace [] = tt
  find_descriptor-IsPlace (d ∷ ds) =
      first_of-IsPlace (find_descriptor aligned max_page n ds) d ds _ refl
        (find_descriptor-IsPlace ds)

-- The pages up to the next page at 64 KB, where that is asked for.
abbrev pub padding : Bool → MemoryDescriptor → ℕ
padding true d = (16 - d.base_page % 16) % 16
padding false d = 0

-- A free descriptor, not of the first page, whose pages from the padding on suffice and lie below
-- the highest one.
abbrev pub suits : Bool → (max_page n : ℕ) → MemoryDescriptor → Bool
suits aligned max_page n d =
    (d.memory_type == loader_free && leb 1 d.base_page)
    && (ltb (d.base_page + padding aligned d + n) max_page
        && leb (padding aligned d + n) d.page_count)

abbrev pub NoneSuits : Bool → (max_page n : ℕ) → List MemoryDescriptor → Type 0
NoneSuits aligned max_page n [] = Unit
NoneSuits aligned max_page n (d ∷ ds) =
    (suits aligned max_page n d ≡ false) × NoneSuits aligned max_page n ds

-- The last descriptor that suits, and the list around it; other descriptors have taken its place.
pub record IsLast (aligned : Bool) (max_page n page : ℕ) (ds after_ds : List MemoryDescriptor)
    : Type 0 where
  pub before : List MemoryDescriptor
  pub found : MemoryDescriptor
  pub after : List MemoryDescriptor
  pub pieces : List MemoryDescriptor
  pub here : ds ≡ before ++ (found ∷ after)
  pub suited : suits aligned max_page n found ≡ true
  pub last : NoneSuits aligned max_page n after
  pub start : page ≡ found.base_page + padding aligned found
  pub left : after_ds ≡ before ++ (pieces ++ after)

pub alignment-lt : (aligned : Bool) (d : MemoryDescriptor) → alignment aligned d < 2 ^ 32
unfolding alignment
alignment-lt true d = omega arith
alignment-lt false d = omega arith

pub alignment-padding :
    (aligned : Bool) (d : MemoryDescriptor)
    → IsRange d
    → 1 ≤ d.page_count
    → alignment aligned d ≡ padding aligned d
unfolding alignment
alignment-padding true d r h = alignment_lem d r h
alignment-padding false d r h = refl

padding-lt : (aligned : Bool) (d : MemoryDescriptor) → padding aligned d < 2 ^ 32
padding-lt true d = omega arith
padding-lt false d = omega arith

abbrev suits_with : (max_page n a : ℕ) → MemoryDescriptor → Bool
suits_with max_page n a d =
    (d.memory_type == loader_free && leb 1 d.base_page)
    && (ltb (d.base_page + a + n) max_page && leb (a + n) d.page_count)

fits-suits_with :
    (max_page n a : ℕ) (d : MemoryDescriptor)
    → IsRange d
    → a < 2 ^ 32
    → n < 2 ^ 63
    → fits max_page n a d ≡ suits_with max_page n a d
unfolding fits
fits-suits_with max_page n a d r h k =
    let first : u64 (d.base_page + n + a) ≡ d.base_page + a + n = omega (arith, r) in
    let second : u64 (n + a) ≡ a + n = omega arith in rw (first, second) (ground arith)

suits_with-empty :
    (max_page n a : ℕ) (d : MemoryDescriptor)
    → d.page_count ≡ 0
    → 1 ≤ n
    → suits_with max_page n a d ≡ false
suits_with-empty max_page n a d e h = ground arith

-- The test of the search, with its numbers of 32 and 64 bits, is that of a descriptor that suits.
pub fits-suits :
    (aligned : Bool) (max_page n : ℕ) (d : MemoryDescriptor)
    → IsRange d
    → 1 ≤ n
    → n < 2 ^ 63
    → fits max_page n (alignment aligned d) d ≡ suits aligned max_page n d
fits-suits aligned max_page n d r h k = elim (Bool-cases (leb 1 d.page_count)) [
  | inl some_pages ↦
      rw (alignment-padding aligned d r (ground arith))
        (fits-suits_with max_page n (padding aligned d) d r (padding-lt aligned d) k)
  | inr no_pages ↦
      let e : d.page_count ≡ 0 = ground arith in
      fits-suits_with max_page n (alignment aligned d) d r (alignment-lt aligned d) k
      ∙ suits_with-empty max_page n (alignment aligned d) d e h
      ∙ sym (suits_with-empty max_page n (padding aligned d) d e h)
]

pub NoneFits-NoneSuits :
    (aligned : Bool) (max_page n : ℕ) (ds : List MemoryDescriptor)
    → AllRange ds
    → 1 ≤ n
    → n < 2 ^ 63
    → NoneFits aligned max_page n ds
    → NoneSuits aligned max_page n ds
NoneFits-NoneSuits aligned max_page n [] r h k none_fit = tt
NoneFits-NoneSuits aligned max_page n (d ∷ ds) r h k none_fit = (
  sym (fits-suits aligned max_page n d r.0 h k) ∙ none_fit.0,
  NoneFits-NoneSuits aligned max_page n ds r.1 h k none_fit.1,
)
