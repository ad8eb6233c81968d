-- ===== src/Rtl/LinkedList.antt =====
-- xtoskrnl/rtl/llist.cc: circular doubly linked lists, over an explicit memory of LIST_ENTRYs.
-- A pointer is a number, NULLPTR is 0; access through an address with no entry is a fault.
pub mod Rings
mod Examples
pub mod Insert
pub mod Query
pub mod Remove
pub mod Concat
pub mod Splice
use exectos.Base.{
  ℕ, zero, suc, Bool, true, false, ◌&&◌, ◌||◌, Option, none, some, ◌==◌, if◌then◌else◌, ◌≡◌,
}

abbrev pub Ptr : Type 0
Ptr = ℕ

abbrev pub nullptr : Ptr
nullptr = 0

-- The LIST_ENTRYs in memory: their two fields, and which addresses hold one.
pub record Memory : Type 0 where
  pub flink : Ptr → Ptr
  pub blink : Ptr → Ptr
  pub mapped : Ptr → Bool

abbrev pub update : (Ptr → Ptr) → Ptr → Ptr → Ptr → Ptr
update f p v a = if a == p then v else f a

pub data Run (A : Type 0) : Type 0 where
  ok : A → Memory → Run A
  fault : Run A

abbrev pub Cmd : Type 0 → Type 0
Cmd A = Memory → Run A

abbrev pub pure : {A : Type 0} → A → Cmd A
pure = ok

module _ {A B : Type 0} where
  abbrev pub and_then : Run A → (A → Cmd B) → Run B
  and_then (ok a m) k = k a m
  and_then fault k = fault

  infixl 5 ◌>>=◌ ◌>>◌
  abbrev pub ◌>>=◌ : Cmd A → (A → Cmd B) → Cmd B
  c >>= k = λ m. and_then (c m) k

  abbrev pub ◌>>◌ : Cmd A → Cmd B → Cmd B
  c >> d = c >>= λ _. d

unfoldable pub read_flink : Ptr → Cmd Ptr
read_flink p m = if m.mapped p then ok (m.flink p) m else fault

unfoldable pub read_blink : Ptr → Cmd Ptr
read_blink p m = if m.mapped p then ok (m.blink p) m else fault

abbrev pub set_flink : Ptr → Ptr → Memory → Memory
set_flink p v m = record m { flink = update m.flink p v }

abbrev pub set_blink : Ptr → Ptr → Memory → Memory
set_blink p v m = record m { blink = update m.blink p v }

unfoldable pub write_flink : Ptr → Ptr → Cmd (Unit {0})
write_flink p v m = if m.mapped p then ok tt (set_flink p v m) else fault

unfoldable pub write_blink : Ptr → Ptr → Cmd (Unit {0})
write_blink p v m = if m.mapped p then ok tt (set_blink p v m) else fault

module _ (m : Memory) (p : Ptr) (live : m.mapped p ≡ true) where
  pub read_flink-ok : read_flink p m ≡ ok (m.flink p) m
  unfolding read_flink
  read_flink-ok = rw live

  pub read_blink-ok : read_blink p m ≡ ok (m.blink p) m
  unfolding read_blink
  read_blink-ok = rw live

  pub write_flink-ok : (v : Ptr) → write_flink p v m ≡ ok tt (set_flink p v m)
  unfolding write_flink
  write_flink-ok v = rw live

  pub write_blink-ok : (v : Ptr) → write_blink p v m ≡ ok tt (set_blink p v m)
  unfolding write_blink
  write_blink-ok v = rw live

unfoldable pub initialize_list_head : Ptr → Cmd (Unit {0})
initialize_list_head head = do write_blink head head; write_flink head head

unfoldable pub insert_head_list : Ptr → Ptr → Cmd (Unit {0})
insert_head_list head entry = do
  first ← read_flink head
  write_flink entry first
  write_blink entry head
  next ← read_flink head
  write_blink next entry
  write_flink head entry

unfoldable pub insert_tail_list : Ptr → Ptr → Cmd (Unit {0})
insert_tail_list head entry = do
  write_flink entry head
  last ← read_blink head
  write_blink entry last
  prev ← read_blink head
  write_flink prev entry
  write_blink head entry

-- `&&` and `||` stop early, so `Blink` is read only where `Flink` is NULLPTR.
unfoldable pub list_empty : Ptr → Cmd Bool
list_empty head = do
  next ← read_flink head
  both ←
      (if next == nullptr then (do prev ← read_blink head; pure (prev == nullptr)) else pure false)
  again ← read_flink head
  pure (both || again == head)

unfoldable pub get_first_entry : Ptr → Cmd Ptr
get_first_entry head = do empty ← list_empty head; if empty then pure nullptr else read_flink head

unfoldable pub remove_entry_list : Ptr → Cmd (Unit {0})
remove_entry_list entry = do
  next ← read_flink entry
  prev ← read_blink entry
  write_blink next prev
  prev' ← read_blink entry
  next' ← read_flink entry
  write_flink prev' next'

unfoldable pub splice_head_list : Ptr → Ptr → Cmd (Unit {0})
splice_head_list head splice = do
  next ← read_flink splice
  if next == splice then pure tt else do
    first ← read_flink splice
    last ← read_blink splice
    write_blink first head
    old ← read_flink head
    write_flink last old
    old' ← read_flink head
    write_blink old' last
    write_flink head first
    write_blink splice splice
    write_flink splice splice

unfoldable pub splice_tail_list : Ptr → Ptr → Cmd (Unit {0})
splice_tail_list head splice = do
  next ← read_flink splice
  if next == splice then pure tt else do
    first ← read_flink splice
    last ← read_blink splice
    old ← read_blink head
    write_blink first old
    write_flink last head
    old' ← read_blink head
    write_flink old' first
    write_blink head last
    write_blink splice splice
    write_flink splice splice

-- The loop of ListLoop on fuel. `none` for the result means that the fuel ran out.
unfoldable pub list_loop_from : ℕ → Ptr → Ptr → Cmd (Option Bool)
list_loop_from zero slow fast = pure none
list_loop_from (suc fuel) slow fast =
    if slow == nullptr || fast == nullptr then pure (some false) else do
      ahead ← read_flink fast
      if ahead == nullptr then pure (some false) else do
        slow' ← read_flink slow
        next ← read_flink fast
        fast' ← read_flink next
        if slow' == fast' then pure (some true) else list_loop_from fuel slow' fast'

unfoldable pub list_loop : ℕ → Ptr → Cmd (Option Bool)
list_loop fuel head = if head == nullptr then pure (some false) else list_loop_from fuel head head
