-- ===== src/Rtl/LinkedList/Examples.antt =====
-- Two small rings, and runs of the list operations on them.
use exectos.Base.{
  ℕ, zero, suc, ◌<◌, ◌≡◌, refl, false, true, some, List, [], ◌∷◌, ◌++◌, arith, ◌==◌, if◌then◌else◌,
}
use exectos.Rtl.LinkedList.{
  Ptr, Memory, ok, fault, nullptr, read_flink, insert_head_list, insert_tail_list,
  remove_entry_list, splice_head_list, splice_tail_list, list_loop,
}
use exectos.Rtl.LinkedList.Rings.{has, IsRing, SameOutside, Disjoint}
use exectos.Rtl.LinkedList.Insert.{insert_head_list-IsRing, insert_tail_list-IsRing}
use exectos.Rtl.LinkedList.Remove.{remove_entry_list-IsRing}
use exectos.Rtl.LinkedList.Concat.{splice_head_list-IsRing, splice_tail_list-IsRing}
use exectos.Rtl.LinkedList.Query.{walk, list_loop-IsRing, list_loop-IsEnded, IsEnded}

-- The list at 1 holds 2 and 3; the list at 10 holds 11; 20 is an entry in no list. From 30 the
-- links lead through 31 to NULLPTR.
abbrev memory : Memory
memory = record {
  flink = λ a.
      if a == 1
      then 2
      else if a == 2
      then 3
      else if a == 3
      then 1
      else if a == 10
      then 11
      else if a == 11
      then 10
      else if a == 30
      then 31
      else 0;
  blink = λ a.
      if a == 1
      then 3
      else if a == 2
      then 1
      else if a == 3
      then 2
      else if a == 10
      then 11
      else if a == 11
      then 10
      else 0;
  mapped = λ a.
      if a == 1
      then true
      else if a == 2
      then true
      else if a == 3
      then true
      else if a == 10
      then true
      else if a == 11
      then true
      else if a == 20
      then true
      else if a == 30
      then true
      else if a == 31
      then true
      else false;
}

abbrev two : List Ptr
two = 2 ∷ 3 ∷ []

abbrev one : List Ptr
one = 11 ∷ []

two-IsRing : IsRing memory 1 two
two-IsRing = record {
  links = (refl, refl, (refl, refl, (refl, refl)));
  unique = refl;
  live = λ a h. ground arith;
}

one-IsRing : IsRing memory 10 one
one-IsRing = record {
  links = (refl, refl, (refl, refl));
  unique = refl;
  live = λ a h. ground arith;
}

one-two-Disjoint : Disjoint (10 ∷ one) (1 ∷ two)
one-two-Disjoint a h = ground arith

chain-IsEnded : IsEnded memory 30 2
chain-IsEnded = record { ends = refl; before = before; live = live }
  where
    before : (j : ℕ) → j < 2 → (walk memory j 30 == nullptr) ≡ false
    before zero h = refl
    before (suc zero) h = refl
    before (suc (suc j)) h = absurd (omega arith)

    live : (j : ℕ) → j < 2 → memory.mapped (walk memory j 30) ≡ true
    live zero h = refl
    live (suc zero) h = refl
    live (suc (suc j)) h = absurd (omega arith)

insert_head_list-IsRing_example :
    (n : Memory) × (insert_head_list 1 20 memory ≡ ok tt n)
    × IsRing n 1 (20 ∷ two)
    × SameOutside (20 ∷ 1 ∷ two) memory n
insert_head_list-IsRing_example = insert_head_list-IsRing memory 1 two 20 two-IsRing refl refl

insert_tail_list-IsRing_example :
    (n : Memory) × (insert_tail_list 1 20 memory ≡ ok tt n)
    × IsRing n 1 (two ++ 20 ∷ [])
    × SameOutside (20 ∷ 1 ∷ two) memory n
insert_tail_list-IsRing_example = insert_tail_list-IsRing memory 1 two 20 two-IsRing refl refl

remove_entry_list-IsRing_example :
    (n : Memory) × (remove_entry_list 3 memory ≡ ok tt n)
    × IsRing n 1 (2 ∷ [])
    × SameOutside (1 ∷ 2 ∷ []) memory n
    × (has 3 (1 ∷ 2 ∷ []) ≡ false)
remove_entry_list-IsRing_example = remove_entry_list-IsRing memory 1 (2 ∷ []) 3 [] two-IsRing

splice_head_list-IsRing_example :
    (n : Memory) × (splice_head_list 1 10 memory ≡ ok tt n)
    × IsRing n 1 (one ++ two)
    × IsRing n 10 []
    × SameOutside ((10 ∷ one) ++ 1 ∷ two) memory n
splice_head_list-IsRing_example =
    splice_head_list-IsRing memory 1 two 10 two-IsRing one one-IsRing one-two-Disjoint

splice_tail_list-IsRing_example :
    (n : Memory) × (splice_tail_list 1 10 memory ≡ ok tt n)
    × IsRing n 1 (two ++ one)
    × IsRing n 10 []
    × SameOutside ((10 ∷ one) ++ 1 ∷ two) memory n
splice_tail_list-IsRing_example =
    splice_tail_list-IsRing memory 1 two 10 two-IsRing one one-IsRing one-two-Disjoint

list_loop-IsRing_example : list_loop 3 1 memory ≡ ok (some true) memory
list_loop-IsRing_example = list_loop-IsRing memory 1 two two-IsRing refl 3 (omega arith)

list_loop-IsEnded_example : list_loop 3 30 memory ≡ ok (some false) memory
list_loop-IsEnded_example = list_loop-IsEnded memory 30 2 chain-IsEnded 3 (omega arith)

-- A NULLPTR entry is a fault.
remove_null : remove_entry_list 0 memory ≡ fault
unfolding remove_entry_list read_flink
remove_null = refl
