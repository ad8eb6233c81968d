-- ===== src/Rtl/Memory/Examples.antt =====
-- The theorems on blocks at a memory whose bytes are their addresses, halved.
use exectos.Base.{◌/◌, ◌+◌, ◌≤◌, ◌≡◌, ◌≢◌, ◌⊎◌, refl}
use exectos.Rtl.Memory.{Bytes, compare_memory, copy_memory, copy_backward, move_memory}
use exectos.Rtl.Memory.Copies.{IsMoved, AllSame, move_memory-IsMoved, compare_memory-AllSame}

abbrev halves : Bytes
halves a = a / 2

move_memory-IsMoved_example : IsMoved halves (move_memory halves 12 10 6) 12 10 6
move_memory-IsMoved_example = move_memory-IsMoved halves 12 10 6

compare_memory-AllSame_example :
    (compare_memory halves 10 11 4 ≤ 4)
    × AllSame halves 10 11 (compare_memory halves 10 11 4)
    × ((compare_memory halves 10 11 4 ≡ 4)
        ⊎ (halves (10 + compare_memory halves 10 11 4)
            ≢ halves (11 + compare_memory halves 10 11 4)))
compare_memory-AllSame_example = compare_memory-AllSame halves 10 11 4

moved_down : move_memory halves 10 12 6 15 ≡ 8
unfolding move_memory copy_memory
moved_down = refl

moved_up : move_memory halves 12 10 6 17 ≡ 7
unfolding move_memory copy_backward
moved_up = refl
