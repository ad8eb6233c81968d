-- ===== src/Rtl/Memory.antt =====
-- xtoskrnl/rtl/memory.cc: blocks of bytes in one memory, so that the source and the destination
-- may overlap. NULLPTR is the address 0.
pub mod Copies
mod Examples
use exectos.Base.{ℕ, zero, suc, ◌+◌, ◌&&◌, Bool, ◌==◌, ltb, if◌then◌else◌}

abbrev pub Bytes : Type 0
Bytes = ℕ → ℕ

abbrev pub store : Bytes → ℕ → ℕ → Bytes
store m p v a = if a == p then v else m a

-- The bytes that are equal, counted up to the first that differs.
unfoldable pub compare_memory : Bytes → ℕ → ℕ → ℕ → ℕ
compare_memory m left right zero = 0
compare_memory m left right (suc length) =
    let rest = compare_memory m (suc left) (suc right) length in
    if m left == m right then suc rest else 0

unfoldable pub same_memory : Bytes → ℕ → ℕ → ℕ → Bool
same_memory m left right length = compare_memory m left right length == length

unfoldable pub copy_memory : Bytes → ℕ → ℕ → ℕ → Bytes
copy_memory m destination source zero = m
copy_memory m destination source (suc length) =
    copy_memory (store m destination (m source)) (suc destination) (suc source) length

-- The loop of MoveMemory from the last byte down.
unfoldable pub copy_backward : Bytes → ℕ → ℕ → ℕ → Bytes
copy_backward m destination source zero = m
copy_backward m destination source (suc length) =
    copy_backward (store m (destination + length) (m (source + length))) destination source length

unfoldable pub move_memory : Bytes → ℕ → ℕ → ℕ → Bytes
move_memory m destination source length =
    if source == 0 && destination == 0
    then m
    else if ltb source destination && ltb destination (source + length)
    then copy_backward m destination source length
    else copy_memory m destination source length
